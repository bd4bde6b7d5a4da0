-- ===== src/Programs/Escrow/Payout.antt =====
-- Who gets what when a node is finalized, for programs/dag_escrow/src/lib.rs.
use chainpipe.Base.{
  ℕ, ◌+◌, ◌-◌, ◌<◌, ◌≤◌, ◌≡◌, ◌≢◌, refl, sym, ap, subst, ◌∙◌, Bool, true, false, not, some, inl,
  inr, arith, Bool-cases, ltb, set, ltb→lt,
}
use chainpipe.Base.Int.{ℤ}
use chainpipe.Base.Encodings.{text_eq}
use chainpipe.Base.Results.{ok, returned, ok-injective, after_ok}
use chainpipe.Sdk.Platform.{PublicKey}
use chainpipe.Sdk.Accounts.{PipelineNode, NodeSettlement, settled, is_submitted}
use chainpipe.Programs.Runtime.{Balances, Runtime, TransferLaw, require-holds, after_some}
use chainpipe.Programs.Runtime.Laws.{portion_bound}
use chainpipe.Programs.Registry.{decrement_open_jobs}
use chainpipe.Programs.Registry.Tokens.{decrement_open_jobs_tokens}
use chainpipe.Programs.Bridge.{record_completion}
use chainpipe.Programs.Escrow.{Escrow, node_account, account_at, pay_from_vault, pay_some}
use chainpipe.Programs.Escrow.Settling.{
  fee_of, pay_settled, close_settled, with_status, finalize_node, window_end,
}
use chainpipe.Programs.Escrow.Money.{with_tokens}

not-true : (b : Bool) → not b ≡ true → b ≡ false
not-true true h = absurd (cc)
not-true false h = refl

-- The balances after a payout: agent, operator and vault in one mint, the other mints untouched.
pub record Split (mint vault agent operator : PublicKey) (amount fee : ℕ) (b b' : Balances)
    : Type 0 where
  pub agent_gets : b' mint agent + fee ≡ b mint agent + amount
  pub operator_gets : b' mint operator ≡ b mint operator + fee
  pub vault_pays : b' mint vault + amount ≡ b mint vault
  pub other_mints : (m owner : PublicKey) → m ≢ mint → b' m owner ≡ b m owner

module _ (rt : Runtime) (law : TransferLaw rt) where
  -- The second transfer, which is left out if there is no fee.
  pay_some_exact :
      (mint to : PublicKey) (amount : ℕ) (e e' : Escrow)
      → pay_some rt mint to amount e ≡ ok e'
      → e.key ≢ to
      → (tokens : Balances) × (e' ≡ with_tokens tokens e)
        × (tokens mint e.key + amount ≡ e.registry.tokens mint e.key)
        × (tokens mint to ≡ e.registry.tokens mint to + amount)
        × ((m owner : PublicKey) → m ≢ mint → tokens m owner ≡ e.registry.tokens m owner)
        × ((owner : PublicKey)
            → owner ≢ e.key
            → owner ≢ to
            → tokens mint owner ≡ e.registry.tokens mint owner)
  pay_some_exact mint to amount e e' h apart = elim (Bool-cases (ltb 0 amount)) [
    | inl some_left ↦
        let k : pay_from_vault rt mint to amount e ≡ ok e' = ground (arith, some_left, h) in
        let (tokens, moved, k1) =
          returned (rt.transfer mint e.key to amount e.registry.tokens) _ e' k in
        (
          tokens,
          sym (ok-injective k1),
          law.taken mint e.key to amount e.registry.tokens tokens moved apart,
          law.given mint e.key to amount e.registry.tokens tokens moved apart,
          λ m owner other.
              law.other_mints mint e.key to amount e.registry.tokens tokens m owner moved other,
          λ owner one two.
              law.others mint e.key to amount e.registry.tokens tokens owner moved one two,
        )
    | inr nothing ↦
        let same : e ≡ e' = ground (arith, nothing, h) in
        (
          e.registry.tokens,
          sym same,
          ground (arith, nothing),
          ground (arith, nothing),
          λ m owner other. refl,
          λ owner one two. refl,
        )
  ]

  pay_settled-Split :
      (mint : PublicKey) (node : PipelineNode) (e e' : Escrow)
      → pay_settled rt mint node e ≡ ok e'
      → e.config.fee_bps ≤ 10_000
      → e.key ≢ node.agent
      → e.key ≢ e.config.operator
      → node.agent ≢ e.config.operator
      → (tokens : Balances) × (e' ≡ with_tokens tokens e)
        × Split mint e.key node.agent e.config.operator node.allocation_usdc
            (fee_of e.config node.allocation_usdc)
            e.registry.tokens
            tokens
  pay_settled-Split mint node e e' h low no_agent no_operator two =
      let fee : ℕ = fee_of e.config node.allocation_usdc in
      let share : ℕ = node.allocation_usdc - fee in
      let (paid, first, h1) = returned (pay_from_vault rt mint node.agent share e) _ e' h in
      let (tokens, moved, h2) =
        returned (rt.transfer mint e.key node.agent share e.registry.tokens) _ paid first in
      let (after, here, vault, operator, others, rest) =
        pay_some_exact mint e.config.operator fee (with_tokens tokens e) e'
          (subst (λ x. pay_some rt mint e.config.operator fee x ≡ ok e') (sym (ok-injective h2)) h1)
          no_operator in
      let bound = portion_bound node.allocation_usdc e.config.fee_bps low in
      let taken = law.taken mint e.key node.agent share e.registry.tokens tokens moved no_agent in
      let given = law.given mint e.key node.agent share e.registry.tokens tokens moved no_agent in
      let kept =
        law.others mint e.key node.agent share e.registry.tokens tokens e.config.operator moved
          (λ q. no_operator (sym q)) (λ q. two (sym q)) in
      (
        after,
        here,
        record {
          agent_gets = omega (arith, rest node.agent (λ q. no_agent (sym q)) two, given, bound);
          operator_gets = omega (arith, operator, kept);
          vault_pays = omega (arith, vault, taken, bound);
          other_mints = λ m owner other.
              others m owner other
              ∙ law.other_mints mint e.key node.agent share e.registry.tokens tokens m owner moved
                  other;
        },
      )

  close_settled_tokens :
      (i : ℕ) (node : PipelineNode) (score : ℤ) (slot : ℕ) (e e' : Escrow)
      → close_settled rt i node score slot e ≡ ok e'
      → (e'.registry.tokens ≡ e.registry.tokens)
        × (e'.nodes ≡ set e.nodes i (some (with_status settled slot node)))
  close_settled_tokens i node score slot e e' k =
      let (registry, freed, k1) =
        returned (decrement_open_jobs rt e.dag_authority node.agent true e.registry) _ e' k in
      let (bridge, recorded, k2) =
        returned (record_completion rt e.dag_authority node.job_id node.agent score slot e.bridge) _
          e' k1 in
      (
        sym (ap (λ (x : Escrow). x.registry.tokens) (ok-injective k2))
            ∙ decrement_open_jobs_tokens rt e.dag_authority node.agent true e.registry registry
                freed,
        sym (ap (λ (x : Escrow). x.nodes) (ok-injective k2)),
      )

  -- If finalize_node succeeds, the fee is at most 100% and vault, agent and operator are three
  -- accounts, then the window of an undisputed submission is over, the node is Settled, the vault pays
  -- exactly the allocation, the operator gets the fee and the agent the rest, all in the mint that the
  -- caller passed, which is not compared with the mint of the pipeline: no balance in any other mint
  -- changes.
  pub finalize_node_pays :
      (mint agent : PublicKey) (i slot : ℕ) (node : PipelineNode) (s : NodeSettlement)
      (e e' : Escrow)
      → finalize_node rt mint agent i slot e ≡ ok e'
      → node_account i e ≡ ok node
      → account_at e.settlements i ≡ some s
      → e.config.fee_bps ≤ 10_000
      → e.key ≢ node.agent
      → e.key ≢ e.config.operator
      → node.agent ≢ e.config.operator
      → (window_end s < slot)
        × (s.disputed ≡ false)
        × (is_submitted node.status ≡ true)
        × (e'.nodes ≡ set e.nodes i (some (with_status settled slot node)))
        × Split mint e.key node.agent e.config.operator node.allocation_usdc
            (fee_of e.config node.allocation_usdc)
            e.registry.tokens
            e'.registry.tokens
  unfolding finalize_node
  finalize_node_pays mint agent i slot node s e e' k is_node is_s low no_agent no_operator two =
      let k1 = after_some (account_at e.settlements i) "AccountNotInitialized" _ s e' is_s k in
      let k2 = after_ok (node_account i e) _ node e' is_node k1 in
      let (waits, k3) = require-holds (is_submitted node.status) "NodeNotSubmitted" _ e' k2 in
      let (own, k4) = require-holds (text_eq node.agent agent) "AgentMismatch" _ e' k3 in
      let (quiet, k5) = require-holds (not s.disputed) "NodeAlreadyDisputed" _ e' k4 in
      let (running, k6) = require-holds (not e.config.paused) "Paused" _ e' k5 in
      let (late, k7) = require-holds (ltb (window_end s) slot) "DisputeWindowOpen" _ e' k6 in
      let (paid, pays, k8) = returned (pay_settled rt mint node e) _ e' k7 in
      let (done, closes, k9) = returned (close_settled rt i node s.score_delta slot paid) _ e' k8 in
      let (tokens, here, split) =
        pay_settled-Split mint node e paid pays low no_agent no_operator two in
      let (balances, nodes) = close_settled_tokens i node s.score_delta slot paid done closes in
      let final : tokens ≡ e'.registry.tokens =
        sym (ap (λ (x : Escrow). x.registry.tokens) here)
        ∙ sym balances
        ∙ ap (λ (x : Escrow). x.registry.tokens) (ok-injective k9) in
      (
        ltb→lt (window_end s) slot late,
        not-true s.disputed quiet,
        waits,
        sym (ap (λ (x : Escrow). x.nodes) (ok-injective k9))
            ∙ nodes
            ∙ ap (λ (x : Escrow). set x.nodes i (some (with_status settled slot node))) here,
        subst
            (Split mint e.key node.agent e.config.operator node.allocation_usdc
              (fee_of e.config node.allocation_usdc) e.registry.tokens)
            final split,
      )
