-- ===== src/Programs/Escrow/Recovery.antt =====
-- Getting locked money back: expire_node and cancel_pipeline of programs/dag_escrow/src/lib.rs.
use chainpipe.Base.{
  ℕ, ◌+◌, ◌<◌, ◌≤◌, ◌≡◌, ◌≢◌, refl, true, false, [], none, some, inl, inr, arith, Bool-cases, ltb,
}
use chainpipe.Base.Encodings.{text_eq_refl}
use chainpipe.Base.Results.{ok}
use chainpipe.Sdk.Platform.{PublicKey}
use chainpipe.Sdk.Accounts.{
  PipelineNode, is_pending, is_claimed, is_active, cancelled, NodeStatus, pending, claimed,
  submitted, disputed, settled, expired,
}
use chainpipe.Programs.Runtime.{Balances, Runtime, TransferLaw}
use chainpipe.Programs.Escrow.{Escrow, node_account, account_at, pay_some}
use chainpipe.Programs.Escrow.Opening.{cancel_pipeline}
use chainpipe.Programs.Escrow.Settling.{count_expired}
use chainpipe.Programs.Escrow.Expiring.{
  expire_node, cascade, sweep, swept, expired_node, first_sweep,
}
use chainpipe.Programs.Escrow.Weights.{
  weigh_part, open_allocation, pending_open, account_at-set_self,
}
use chainpipe.Programs.Escrow.Money.{IsSolvent, with_tokens}
use chainpipe.Programs.Escrow.Solvency.{node_account-holds}

pending_unclaimed : (s : NodeStatus) → is_pending s ≡ true → is_claimed s ≡ false
pending_unclaimed pending h = refl
pending_unclaimed claimed h = absurd (cc)
pending_unclaimed submitted h = refl
pending_unclaimed disputed h = refl
pending_unclaimed settled h = refl
pending_unclaimed expired h = refl

module _ (rt : Runtime) (law : TransferLaw rt) where
  -- A payment that the vault can make is made, and the receiver has it.
  pay_some_works :
      (mint to : PublicKey) (amount : ℕ) (e : Escrow)
      → amount ≤ e.registry.tokens mint e.key
      → e.key ≢ to
      → (tokens : Balances) × (pay_some rt mint to amount e ≡ ok (with_tokens tokens e))
        × (tokens mint to ≡ e.registry.tokens mint to + amount)
        × (tokens mint e.key + amount ≡ e.registry.tokens mint e.key)
  pay_some_works mint to amount e held apart = elim (Bool-cases (ltb 0 amount)) [
    | inl some_left ↦
        let (tokens, moved) = law.carried mint e.key to amount e.registry.tokens held in
        (
          tokens,
          ground (arith, some_left, moved),
          law.given mint e.key to amount e.registry.tokens tokens moved apart,
          law.taken mint e.key to amount e.registry.tokens tokens moved apart,
        )
    | inr nothing ↦ (
      e.registry.tokens,
      ground (arith, nothing),
      ground (arith, nothing),
      ground (arith, nothing),
    )
  ]

  -- A pending node of a solvent pipeline whose deadline has passed can be expired at once, by
  -- anyone and without any other account, paused or not, if the vault is not the account of the
  -- consumer: the consumer then has its allocation in the mint of the pipeline, and the node is
  -- Expired.
  pub expire_overdue :
      (i slot : ℕ) (node : PipelineNode) (e : Escrow)
      → IsSolvent rt e
      → e.key ≢ e.pipeline.consumer
      → node_account i e ≡ ok node
      → is_pending node.status ≡ true
      → node.deadline_slot < slot
      → (e' : Escrow) × (expire_node rt e.pipeline.stake_mint i [] none slot e ≡ ok e')
        × (account_at e'.nodes i ≡ some (expired_node node))
        × (e'.registry.tokens e.pipeline.stake_mint e.pipeline.consumer
            ≡ e.registry.tokens e.pipeline.stake_mint e.pipeline.consumer + node.allocation_usdc)
  unfolding expire_node cascade sweep
  expire_overdue i slot node e h apart found waits late =
      let there = node_account-holds i e node found in
      let held : node.allocation_usdc ≤ e.registry.tokens e.pipeline.stake_mint e.key = omega (
        arith,
        weigh_part open_allocation e.nodes i node there,
        pending_open node.status node.allocation_usdc waits,
        h.backed,
      ) in
      let s = first_sweep e i node in
      let (tokens, paid, got, left) =
        pay_some_works e.pipeline.stake_mint e.pipeline.consumer node.allocation_usdc
          (swept i node s e) held apart in
      let refunded = with_tokens tokens (swept i node s e) in
      (
        record refunded { pipeline = count_expired 1 refunded.pipeline },
        ground (arith, found, waits, late, paid, pending_unclaimed node.status waits),
        account_at-set_self e.nodes i node (some (expired_node node)) there,
        got,
      )

  -- cancel_pipeline looks only at the node accounts that are passed. Passing none, the consumer of
  -- an Active pipeline empties the vault, if it is not the account of the consumer itself,
  -- whatever the status of the nodes, which stay as they are.
  pub cancel_pipeline_drains :
      (e : Escrow)
      → is_active e.pipeline.status ≡ true
      → e.key ≢ e.pipeline.consumer
      → (e' : Escrow) × (cancel_pipeline rt e.pipeline.consumer e.pipeline.stake_mint [] e ≡ ok e')
        × (e'.registry.tokens e.pipeline.stake_mint e.key ≡ 0)
        × (e'.nodes ≡ e.nodes)
  unfolding cancel_pipeline
  cancel_pipeline_drains e live apart =
      let (tokens, paid, got, left) =
        pay_some_works e.pipeline.stake_mint e.pipeline.consumer
          (e.registry.tokens e.pipeline.stake_mint e.key) e (omega arith) apart in
      (
        record (with_tokens tokens e) { pipeline = record e.pipeline { status = cancelled } },
        ground (arith, text_eq_refl e.pipeline.consumer, live, paid),
        omega (arith, left),
        refl,
      )
