-- ===== src/Programs/Escrow/Money.antt =====
-- The vault of a pipeline against what the pipeline owes, for the parts of the instructions of
-- programs/dag_escrow/src/lib.rs.
use chainpipe.Base.{
  ℕ, ◌+◌, ◌-◌, ◌≤◌, ◌≡◌, ◌≢◌, refl, sym, ap, subst, true, false, some, inl, inr, arith, Bool-cases,
  ltb, set,
}
use chainpipe.Base.Int.{ℤ}
use chainpipe.Base.Results.{ok, returned, ok-injective}
use chainpipe.Sdk.Platform.{PublicKey}
use chainpipe.Sdk.Accounts.{PipelineNode, settled}
use chainpipe.Programs.Runtime.{Balances, Runtime, TransferLaw}
use chainpipe.Programs.Runtime.Laws.{transfer_costs, portion_bound}
use chainpipe.Programs.Registry.{Registry, decrement_open_jobs, slash_stake}
use chainpipe.Programs.Registry.Tokens.{decrement_open_jobs_tokens, slash_stake_spares}
use chainpipe.Programs.Bridge.{Bridge, record_completion, record_failure}
use chainpipe.Programs.Escrow.{Escrow, account_at, pay_from_vault, pay_some}
use chainpipe.Programs.Escrow.Settling.{fee_of, pay_settled, close_settled, with_status, penalize}
use chainpipe.Programs.Escrow.Weights.{owed, weigh-set, open_allocation}

abbrev pub vault_of : Escrow → ℕ
vault_of e = e.registry.tokens e.pipeline.stake_mint e.key

-- The vault holds the allocations of all nodes that are neither settled nor expired.
pub record IsSolvent (rt : Runtime) (e : Escrow) : Type 0 where
  pub backed : owed e.nodes ≤ vault_of e
  pub fee : e.config.fee_bps ≤ 10_000
  -- The vault is the account of no stake.
  pub apart : (agent : PublicKey) → e.key ≢ rt.stake_key agent

-- In the middle of an instruction the allocation of one node may have left the vault already.
pub record IsShort (rt : Runtime) (node : PipelineNode) (e : Escrow) : Type 0 where
  pub short : owed e.nodes ≤ vault_of e + open_allocation node
  pub fee : e.config.fee_bps ≤ 10_000
  pub apart : (agent : PublicKey) → e.key ≢ rt.stake_key agent

abbrev pub with_tokens : Balances → Escrow → Escrow
with_tokens tokens e = record e { registry = record e.registry { tokens = tokens } }

-- Only balances changed, and the vault lost at most the amount.
abbrev pub Costs : ℕ → Escrow → Escrow → Type 0
Costs amount e e' =
    (tokens : Balances) × (e' ≡ with_tokens tokens e)
    × ((m : PublicKey) → e.registry.tokens m e.key ≤ tokens m e.key + amount)

module _ (rt : Runtime) (law : TransferLaw rt) where
  pub pay_from_vault-Costs :
      (mint to : PublicKey) (amount : ℕ) (e e' : Escrow)
      → pay_from_vault rt mint to amount e ≡ ok e'
      → Costs amount e e'
  pay_from_vault-Costs mint to amount e e' h =
      let (tokens, moved, h1) =
        returned (rt.transfer mint e.key to amount e.registry.tokens) _ e' h in
      (
        tokens,
        sym (ok-injective h1),
        λ m. transfer_costs rt law mint e.key to amount e.registry.tokens tokens m moved,
      )

  pub pay_some-Costs :
      (mint to : PublicKey) (amount : ℕ) (e e' : Escrow)
      → pay_some rt mint to amount e ≡ ok e'
      → Costs amount e e'
  pay_some-Costs mint to amount e e' h = elim (Bool-cases (ltb 0 amount)) [
    | inl some_left ↦ pay_from_vault-Costs mint to amount e e' (ground (arith, some_left, h))
    | inr nothing ↦
        let same : e ≡ e' = ground (arith, nothing, h) in
        (e.registry.tokens, sym same, λ m. omega arith)
  ]

  pub pay_settled-Costs :
      (mint : PublicKey) (node : PipelineNode) (e e' : Escrow)
      → e.config.fee_bps ≤ 10_000
      → pay_settled rt mint node e ≡ ok e'
      → Costs node.allocation_usdc e e'
  pay_settled-Costs mint node e e' low h =
      let fee : ℕ = fee_of e.config node.allocation_usdc in
      let (paid, first, h1) =
        returned (pay_from_vault rt mint node.agent (node.allocation_usdc - fee) e) _ e' h in
      let (tokens, here, one) =
        pay_from_vault-Costs mint node.agent (node.allocation_usdc - fee) e paid first in
      let (after, there, two) =
        pay_some-Costs mint (with_tokens tokens e).config.operator fee (with_tokens tokens e) e'
          (subst (λ x. pay_some rt mint e.config.operator fee x ≡ ok e') here h1) in
      let bound = portion_bound node.allocation_usdc e.config.fee_bps low in
      (after, there, λ m. omega (arith, one m, two m, bound))

  pub Costs-IsShort :
      (node : PipelineNode) (amount : ℕ) (e e' : Escrow)
      → IsSolvent rt e
      → amount ≤ open_allocation node
      → Costs amount e e'
      → IsShort rt node e'
  Costs-IsShort node amount e e' h whole (tokens, here, cost) =
      subst (IsShort rt node) (sym here) (record {
        short = omega (arith, h.backed, cost e.pipeline.stake_mint, whole);
        fee = h.fee;
        apart = h.apart;
      })

  -- A node that is written as settled or expired closes the gap.
  pub write-IsSolvent :
      (i : ℕ) (node closed : PipelineNode) (e : Escrow)
      → IsShort rt node e
      → account_at e.nodes i ≡ some node
      → open_allocation closed ≡ 0
      → IsSolvent rt (record e { nodes = set e.nodes i (some closed) })
  write-IsSolvent i node closed e h there nothing = record {
    backed =
        omega
          (arith, h.short, nothing, weigh-set open_allocation e.nodes i node (some closed) there);
    fee = h.fee;
    apart = h.apart;
  }

  pub close_settled-IsSolvent :
      (i : ℕ) (node : PipelineNode) (score : ℤ) (slot : ℕ) (e e' : Escrow)
      → IsShort rt node e
      → account_at e.nodes i ≡ some node
      → close_settled rt i node score slot e ≡ ok e'
      → IsSolvent rt e'
  close_settled-IsSolvent i node score slot e e' h there k =
      let (registry, freed, k1) =
        returned (decrement_open_jobs rt e.dag_authority node.agent true e.registry) _ e' k in
      let (bridge, recorded, k2) =
        returned (record_completion rt e.dag_authority node.job_id node.agent score slot e.bridge) _
          e' k1 in
      let same =
        decrement_open_jobs_tokens rt e.dag_authority node.agent true e.registry registry freed in
      let h' = write-IsSolvent i node (with_status settled slot node) e h there refl in
      subst (IsSolvent rt) (ok-injective k2) (record {
        backed = omega (arith, h'.backed, ap (λ b. b e.pipeline.stake_mint e.key) same);
        fee = h.fee;
        apart = h.apart;
      })

  -- A penalty changes only the registry and the reputations, and takes nothing from the vault.
  pub penalize_lem :
      (mint : PublicKey) (node : PipelineNode) (slot : ℕ) (e e' : Escrow)
      → ((agent : PublicKey) → e.key ≢ rt.stake_key agent)
      → penalize rt mint node slot e ≡ ok e'
      → (registry : Registry) × (bridge : Bridge) × (e'
          ≡ record e { registry = registry; bridge = bridge })
        × ((m : PublicKey) → e.registry.tokens m e.key ≤ registry.tokens m e.key)
  penalize_lem mint node slot e e' apart k =
      let (freed, done, k1) =
        returned (decrement_open_jobs rt e.dag_authority node.agent false e.registry) _ e' k in
      let (registry, cut, k2) =
        returned
          (slash_stake rt e.dag_authority mint node.agent e.pipeline.consumer freed.config.slash_bps
            freed)
          _ e' k1 in
      let (bridge, recorded, k3) =
        returned (record_failure rt e.dag_authority node.job_id node.agent slot e.bridge) _ e' k2 in
      let same =
        decrement_open_jobs_tokens rt e.dag_authority node.agent false e.registry freed done in
      (
        registry,
        bridge,
        sym (ok-injective k3),
        λ m. omega (
          arith,
          ap (λ b. b m e.key) same,
          slash_stake_spares rt law e.dag_authority mint node.agent e.pipeline.consumer
              freed.config.slash_bps freed registry m e.key cut (apart node.agent),
        ),
      )
