-- ===== src/Dashboard/Work/Laws.antt =====
-- The list of dashboard/app/work/page.tsx against claim_node of programs/dag_escrow/src/lib.rs.
use chainpipe.Base.{
  ℕ, zero, suc, ◌+◌, ◌/◌, ◌^◌, ◌<◌, ◌≤◌, ◌≡◌, refl, ap, ◌∙◌, Bool, true, false, List, some, inl,
  inr, arith, Bool-cases, ◌==◌, set, leb,
}
use chainpipe.Base.Results.{ok}
use chainpipe.Base.Encodings.{text_eq, text_eq_refl}
use chainpipe.Sdk.Platform.{PublicKey}
use chainpipe.Sdk.Accounts.{PipelineNode, AgentStake, is_pending, is_active}
use chainpipe.Dashboard.Masks.{has_bit, deps_of, deps_from}
use chainpipe.Dashboard.Masks.Laws.{pow_suc}
use chainpipe.Dashboard.Work.{settled_at, every, deps_settled, is_claimable}
use chainpipe.Programs.Runtime.{Runtime, find}
use chainpipe.Programs.Registry.{increment_open_jobs, put_stake}
use chainpipe.Programs.Escrow.{Escrow, node_account, within, within_below}
use chainpipe.Programs.Escrow.Opening.{claim_node, claimed_node}

-- A test that every index of the loop passes holds of each bit that the loop has seen.
every-deps_from :
    (f : ℕ → Bool) (m k i j : ℕ)
    → every f (deps_from m k i) ≡ true
    → i ≤ j
    → j < i + k
    → has_bit m j ≡ true
    → f j ≡ true
every-deps_from f m zero i j h low high bit = absurd (omega arith)
every-deps_from f m (suc k) i j h low high bit = elim (Bool-cases (i == j)) [
  | inl same ↦ let place : i ≡ j = ground (arith, same) in ground (arith, h, place, bit)
  | inr other ↦
      let above : suc i ≤ j = ground (arith, other, low) in
      every-deps_from f m k (suc i) j (ground (arith, h)) above (omega (arith, high)) bit
]

-- A number below 2 ^ k has no bit from k on.
high_bits : (j m k : ℕ) → m < 2 ^ k → k ≤ j → has_bit m j ≡ false
high_bits zero m zero h l = ground arith
high_bits zero m (suc k) h l = absurd (omega arith)
high_bits (suc j) m zero h l = high_bits j (m / 2) zero (omega arith) (omega arith)
high_bits (suc j) m (suc k) h l = high_bits j (m / 2) k (omega (arith, pow_suc k)) (omega arith)

within_below-holds :
    (k mask all : ℕ)
    → ((j : ℕ) → has_bit mask j ≡ true → has_bit all j ≡ true)
    → within_below k mask all ≡ true
within_below-holds zero mask all h = refl
within_below-holds (suc k) mask all h = elim (Bool-cases (has_bit mask k)) [
  | inl bit ↦ ground (arith, bit, h k bit, within_below-holds k mask all h)
  | inr free ↦ ground (arith, free, within_below-holds k mask all h)
]

-- The dependencies that the page finds settled are those that the program asks for.
deps_settled-within :
    (nodes : List PipelineNode) (n : PipelineNode) (settled_mask : ℕ)
    → n.dependency_mask < 2 ^ 16
    → ((j : ℕ) → settled_at nodes j ≡ true → has_bit settled_mask j ≡ true)
    → deps_settled nodes n ≡ true
    → within n.dependency_mask settled_mask ≡ true
unfolding deps_settled deps_of within
deps_settled-within nodes n settled_mask small agrees h =
    within_below-holds 64 n.dependency_mask settled_mask (λ j bit. elim (Bool-cases (leb 16 j)) [
      | inl high ↦
          let none_there = high_bits j n.dependency_mask 16 small (ground (arith, high)) in
          ground (arith, bit, none_there)
      | inr low ↦ agrees j (
          every-deps_from (settled_at nodes) n.dependency_mask 16 0 j h (omega arith)
            (ground (arith, low)) bit)
    ])

-- A node that the work page lists as claimable can be claimed: claim_node succeeds and the node is
-- Claimed by the agent, if the node is shown as it is and has a mask below 2 ^ 16, the mask of the
-- pipeline has the bit of each node shown as settled, the pipeline is Active and the program not
-- paused, the agent has a stake of the tier that the page used with room for one more open job,
-- and bonded_registry takes calls of this dag_escrow.
pub claimable_claims :
    (rt : Runtime) (system agent : PublicKey) (i slot : ℕ) (nodes : List PipelineNode)
    (n : PipelineNode) (stake : AgentStake) (e : Escrow)
    → is_claimable system stake.tier nodes n ≡ true
    → node_account i e ≡ ok n
    → n.dependency_mask < 2 ^ 16
    → ((j : ℕ) → settled_at nodes j ≡ true → has_bit e.pipeline.settled_mask j ≡ true)
    → is_active e.pipeline.status ≡ true
    → e.config.paused ≡ false
    → find agent e.registry.stakes ≡ some stake
    → stake.agent ≡ agent
    → e.dag_authority ≡ e.registry.config.dag_escrow_authority
    → stake.open_jobs + 1 < 2 ^ 32
    → (e' : Escrow) × (claim_node rt agent i slot e ≡ ok e')
      × (e'.nodes ≡ set e.nodes i (some (claimed_node rt e.key i agent slot n)))
unfolding is_claimable claim_node increment_open_jobs
claimable_claims rt system agent i slot nodes n stake e listed found small agrees live running
      staked own authority room =
    let ready : within n.dependency_mask e.pipeline.settled_mask ≡ true =
      deps_settled-within nodes n e.pipeline.settled_mask small agrees (ground (arith, listed)) in
    let waits : is_pending n.status ≡ true = ground (arith, listed) in
    let good : leb n.required_tier stake.tier ≡ true = ground (arith, listed) in
    let same : text_eq stake.agent agent ≡ true =
      ap (λ a. text_eq a agent) own ∙ text_eq_refl agent in
    let signer : text_eq e.dag_authority e.registry.config.dag_escrow_authority ≡ true =
      ap (λ a. text_eq a e.registry.config.dag_escrow_authority) authority
      ∙ text_eq_refl e.registry.config.dag_escrow_authority in
    (
      record e {
        nodes = set e.nodes i (some (claimed_node rt e.key i agent slot n));
        registry = put_stake agent (record stake { open_jobs = stake.open_jobs + 1 }) e.registry;
      },
      ground (arith, running, live, found, waits, ready, staked, same, good, signer, room),
      refl,
    )
