-- ===== src/Programs/Escrow/Refunds.antt =====
-- Solvency through expire_node of programs/dag_escrow/src/lib.rs.
use chainpipe.Base.{
  ℕ, ◌+◌, ◌≡◌, sym, ap, subst, ◌∙◌, true, ◌||◌, List, Option, some, inl, inr, arith, Bool-cases,
  ltb, ◌==◌,
}
use chainpipe.Base.Encodings.{text_eq}
use chainpipe.Base.Results.{ok, returned, ok-injective}
use chainpipe.Sdk.Platform.{PublicKey}
use chainpipe.Sdk.Accounts.{PipelineNode, NodeStatus, is_pending, is_claimed}
use chainpipe.Dashboard.Masks.{has_bit, set_bit}
use chainpipe.Dashboard.Masks.Laws.{has_bit-set_bit}
use chainpipe.Programs.Runtime.{Runtime, TransferLaw, require-holds, present-holds}
use chainpipe.Programs.Escrow.{Escrow, node_account, account_at, pay_some}
use chainpipe.Programs.Escrow.Settling.{count_expired}
use chainpipe.Programs.Escrow.Expiring.{
  expire_node, cascaded, Sweep, swept, expired_node, penalize_passed, SlashAccounts, first_sweep,
}
use chainpipe.Programs.Escrow.Expiring.Closure.{cascade-Ends}
use chainpipe.Programs.Escrow.Weights.{
  owed, weigh-set, open_allocation, open_at, pending_open, claimed_open,
}
use chainpipe.Programs.Escrow.Money.{IsSolvent, pay_some-Costs}
use chainpipe.Programs.Escrow.Disputes.{penalize-IsSolvent}
use chainpipe.Programs.Escrow.Solvency.{node_account-holds}

node_account_index :
    (i : ℕ) (e : Escrow) (node : PipelineNode) → node_account i e ≡ ok node → node.node_index ≡ i
node_account_index i e node h =
    let (found, there, h1) =
      present-holds (account_at e.nodes i) "AccountNotInitialized" _ node h in
    let (same, h2) = require-holds (found.node_index == i) "InvalidNodeAccount" _ node h1 in
    sym (ap (λ (n : PipelineNode). n.node_index) (ok-injective h2)) ∙ ground (arith, same)

-- Setting the lowest bits of no mask.
own_bit : (i : ℕ) → has_bit (set_bit 0 i) i ≡ true
own_bit i = ground (arith, has_bit-set_bit 0 i i)

-- The loop leaves the overdue node alone, and what falls moves to the refund.
pub cascaded_balance :
    (passed : List ℕ) (i : ℕ) (node : PipelineNode) (e : Escrow) (s : Sweep)
    → node_account i e ≡ ok node
    → cascaded passed i node e ≡ some (ok s)
    → (account_at s.nodes i ≡ some node)
      × (owed s.nodes + s.refund_total ≡ owed e.nodes + node.allocation_usdc)
cascaded_balance passed i node e s found done =
    let h = cascade-Ends _ e.key passed (first_sweep e i node) s done in
    let bit : has_bit (set_bit 0 i) node.node_index ≡ true =
      ap (has_bit (set_bit 0 i)) (node_account_index i e node found) ∙ own_bit i in
    let (there, still) = h.passes.kept i node bit (node_account-holds i e node found) in
    (there, h.passes.moved)

-- Pending or claimed.
expirable_open :
    (s : NodeStatus) (amount : ℕ) → is_pending s || is_claimed s ≡ true → open_at s amount ≡ amount
expirable_open s amount h = elim (Bool-cases (is_pending s)) [
  | inl waiting ↦ pending_open s amount waiting
  | inr started ↦ claimed_open s amount (ground (arith, started, h))
]

module _ (rt : Runtime) (law : TransferLaw rt) where
  -- After the loop: the overdue node expires and the refund is paid.
  refunded-IsSolvent :
      (mint : PublicKey) (i : ℕ) (passed : List ℕ) (node : PipelineNode) (s : Sweep)
      (e refunded : Escrow)
      → IsSolvent rt e
      → node_account i e ≡ ok node
      → open_allocation node ≡ node.allocation_usdc
      → cascaded passed i node e ≡ some (ok s)
      → pay_some rt mint e.pipeline.consumer s.refund_total (swept i node s e) ≡ ok refunded
      → IsSolvent rt
          (record refunded { pipeline = count_expired s.expired_count refunded.pipeline })
  refunded-IsSolvent mint i passed node s e refunded h found whole looped paid =
      let (there, balance) = cascaded_balance passed i node e s found looped in
      let (tokens, here, low) =
        pay_some-Costs rt law mint e.pipeline.consumer s.refund_total (swept i node s e) refunded
          paid in
      subst
        (λ (x : Escrow).
          IsSolvent rt (record x { pipeline = count_expired s.expired_count x.pipeline }))
        (sym here)
        (record {
          backed = omega (
            arith,
            h.backed,
            low e.pipeline.stake_mint,
            balance,
            whole,
            weigh-set open_allocation s.nodes i node (some (expired_node node)) there,
          );
          fee = h.fee;
          apart = h.apart;
        })

  penalize_passed-IsSolvent :
      (mint : PublicKey) (accounts : Option SlashAccounts) (node : PipelineNode) (slot : ℕ)
      (e e' : Escrow)
      → IsSolvent rt e
      → penalize_passed rt mint accounts node slot e ≡ ok e'
      → IsSolvent rt e'
  penalize_passed-IsSolvent mint accounts node slot e e' h k =
      let (a, given, k1) = present-holds accounts "MissingSlashAccounts" _ e' k in
      let (one, k2) = require-holds (text_eq a.stake_agent node.agent) "AgentMismatch" _ e' k1 in
      let (two, k3) = require-holds (text_eq a.agent node.agent) "AgentMismatch" _ e' k2 in
      penalize-IsSolvent rt law mint node slot e e' h k3

  pub expire_node-IsSolvent :
      (mint : PublicKey) (i : ℕ) (passed : List ℕ) (accounts : Option SlashAccounts) (slot : ℕ)
      (e e' : Escrow)
      → IsSolvent rt e
      → expire_node rt mint i passed accounts slot e ≡ ok e'
      → IsSolvent rt e'
  unfolding expire_node
  expire_node-IsSolvent mint i passed accounts slot e e' h k =
      let (node, found, k1) = returned (node_account i e) _ e' k in
      let (waits, k2) =
        require-holds (is_pending node.status || is_claimed node.status) "NodeNotExpirable" _ e'
          k1 in
      let (late, k3) = require-holds (ltb node.deadline_slot slot) "DeadlineNotPassed" _ e' k2 in
      let (outcome, ended, k4) = present-holds (cascaded passed i node e) "unreachable" _ e' k3 in
      let (s, looped, k5) = returned outcome _ e' k4 in
      let (refunded, paid, k6) =
        returned (pay_some rt mint e.pipeline.consumer s.refund_total (swept i node s e)) _ e' k5 in
      let counted : Escrow = record refunded {
        pipeline = count_expired s.expired_count refunded.pipeline;
      } in
      let h' =
        refunded-IsSolvent mint i passed node s e refunded h found
          (expirable_open node.status node.allocation_usdc waits) (ended ∙ ap some looped) paid in
      elim (Bool-cases (is_claimed node.status)) [
        | inl started ↦
            penalize_passed-IsSolvent mint accounts node slot counted e' h'
              (ground (arith, started, k6))
        | inr idle ↦
            let same : counted ≡ e' = ground (arith, idle, k6) in subst (IsSolvent rt) same h'
      ]
