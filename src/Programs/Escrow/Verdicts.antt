-- ===== src/Programs/Escrow/Verdicts.antt =====
-- resolve_dispute and expire_node of programs/dag_escrow/src/lib.rs follow the state machine of a
-- node.
use chainpipe.Base.{
  ℕ, ◌≡◌, refl, sym, ap, subst, ◌∙◌, Bool, true, false, ◌||◌, List, Option, some, inl, inr, arith,
  Bool-cases, ltb, set,
}
use chainpipe.Base.Int.{ℤ}
use chainpipe.Base.Encodings.{text_eq}
use chainpipe.Base.Results.{ok, returned, ok-injective}
use chainpipe.Sdk.Platform.{PublicKey}
use chainpipe.Sdk.Accounts.{PipelineNode, settled, expired, is_pending, is_claimed, is_disputed}
use chainpipe.Programs.Runtime.{Runtime, require-holds, present-holds}
use chainpipe.Programs.Registry.{decrement_open_jobs, slash_stake}
use chainpipe.Programs.Bridge.{record_failure}
use chainpipe.Programs.Escrow.{Escrow, node_account, account_at, pay_from_vault, pay_some}
use chainpipe.Programs.Escrow.Settling.{
  resolve_dispute, resolve_upheld, resolve_rejected, pay_settled, close_settled, with_status,
  count_expired, penalize,
}
use chainpipe.Programs.Escrow.Fates.{Follows, set-Follows, one_step, can_step, disputed_steps}
use chainpipe.Programs.Escrow.Fates.{Follows-trans, expirable_steps}
use chainpipe.Programs.Escrow.Solvency.{node_account-holds}
use chainpipe.Programs.Escrow.Lifecycle.{
  pay_from_vault_nodes, pay_some_nodes, pay_close_nodes, settled-Follows,
}
use chainpipe.Programs.Escrow.Expiring.{
  expire_node, cascaded, swept, expired_node, penalize_passed, SlashAccounts, first_sweep,
}
use chainpipe.Programs.Escrow.Expiring.Closure.{cascade-Ends}
use chainpipe.Programs.Escrow.Refunds.{cascaded_balance}

module _ (rt : Runtime) where
  pub penalize_nodes :
      (mint : PublicKey) (node : PipelineNode) (slot : ℕ) (e e' : Escrow)
      → penalize rt mint node slot e ≡ ok e'
      → e'.nodes ≡ e.nodes
  penalize_nodes mint node slot e e' k =
      let (freed, done, k1) =
        returned (decrement_open_jobs rt e.dag_authority node.agent false e.registry) _ e' k in
      let (registry, cut, k2) =
        returned
          (slash_stake rt e.dag_authority mint node.agent e.pipeline.consumer freed.config.slash_bps
            freed)
          _ e' k1 in
      let (bridge, recorded, k3) =
        returned (record_failure rt e.dag_authority node.job_id node.agent slot e.bridge) _ e' k2 in
      sym (ap (λ (x : Escrow). x.nodes) (ok-injective k3))

  resolve_upheld-Follows :
      (mint : PublicKey) (i : ℕ) (node : PipelineNode) (slot : ℕ) (e e' : Escrow)
      → account_at e.nodes i ≡ some node
      → can_step node.status expired ≡ true
      → resolve_upheld rt mint i node slot e ≡ ok e'
      → Follows e.nodes e'.nodes
  resolve_upheld-Follows mint i node slot e e' there can k =
      let (refunded, paid, k1) =
        returned (pay_from_vault rt mint e.pipeline.consumer node.allocation_usdc e) _ e' k in
      let (done, punished, k2) = returned (penalize rt mint node slot refunded) _ e' k1 in
      let same : done.nodes ≡ e.nodes =
        penalize_nodes mint node slot refunded done punished
        ∙ pay_from_vault_nodes rt mint e.pipeline.consumer node.allocation_usdc e refunded paid in
      subst (Follows e.nodes)
        (ap (λ xs. set xs i (some (with_status expired slot node))) (sym same)
          ∙ ap (λ (x : Escrow). x.nodes) (ok-injective k2))
        (set-Follows e.nodes i node (some (with_status expired slot node)) there
          (one_step can, refl, refl))

  resolve_rejected-Follows :
      (mint : PublicKey) (i : ℕ) (node : PipelineNode) (score : ℤ) (slot : ℕ) (e e' : Escrow)
      → account_at e.nodes i ≡ some node
      → can_step node.status settled ≡ true
      → resolve_rejected rt mint i node score slot e ≡ ok e'
      → Follows e.nodes e'.nodes
  resolve_rejected-Follows mint i node score slot e e' there can k =
      let (paid, pays, k1) = returned (pay_settled rt mint node e) _ e' k in
      let (done, closes, k2) = returned (close_settled rt i node score slot paid) _ e' k1 in
      settled-Follows rt i node slot e e' there can (
        sym (ap (λ (x : Escrow). x.nodes) (ok-injective k2))
        ∙ pay_close_nodes rt mint i node score slot e paid done pays closes)

  pub resolve_dispute-Follows :
      (signer mint agent : PublicKey) (i : ℕ) (upheld : Bool) (slot : ℕ) (e e' : Escrow)
      → resolve_dispute rt signer mint agent i upheld slot e ≡ ok e'
      → Follows e.nodes e'.nodes
  unfolding resolve_dispute
  resolve_dispute-Follows signer mint agent i upheld slot e e' k =
      let (s, settled_at, k1) =
        present-holds (account_at e.settlements i) "AccountNotInitialized" _ e' k in
      let (allowed, k2) =
        require-holds (text_eq signer e.config.facilitator_authority) "UnauthorizedArbiter" _ e'
          k1 in
      let (node, found, k3) = returned (node_account i e) _ e' k2 in
      let (fought, k4) = require-holds (is_disputed node.status) "NodeNotDisputed" _ e' k3 in
      let (own, k5) = require-holds (text_eq node.agent agent) "AgentMismatch" _ e' k4 in
      let there = node_account-holds i e node found in
      let (pay, lapse) = disputed_steps node.status fought in
      elim (Bool-cases upheld) [
        | inl is_upheld ↦
            resolve_upheld-Follows mint i node slot e e' there lapse (ground (arith, is_upheld, k5))
        | inr rejected ↦
            resolve_rejected-Follows mint i node s.score_delta slot e e' there pay
              (ground (arith, rejected, k5))
      ]

  penalize_passed_nodes :
      (mint : PublicKey) (accounts : Option SlashAccounts) (node : PipelineNode) (slot : ℕ)
      (e e' : Escrow)
      → penalize_passed rt mint accounts node slot e ≡ ok e'
      → e'.nodes ≡ e.nodes
  penalize_passed_nodes mint accounts node slot e e' k =
      let (a, given, k1) = present-holds accounts "MissingSlashAccounts" _ e' k in
      let (one, k2) = require-holds (text_eq a.stake_agent node.agent) "AgentMismatch" _ e' k1 in
      let (two, k3) = require-holds (text_eq a.agent node.agent) "AgentMismatch" _ e' k2 in
      penalize_nodes mint node slot e e' k3

  pub expire_node-Follows :
      (mint : PublicKey) (i : ℕ) (passed : List ℕ) (accounts : Option SlashAccounts) (slot : ℕ)
      (e e' : Escrow)
      → expire_node rt mint i passed accounts slot e ≡ ok e'
      → Follows e.nodes e'.nodes
  unfolding expire_node
  expire_node-Follows mint i passed accounts slot e e' k =
      let (node, found, k1) = returned (node_account i e) _ e' k in
      let (waits, k2) =
        require-holds (is_pending node.status || is_claimed node.status) "NodeNotExpirable" _ e'
          k1 in
      let (late, k3) = require-holds (ltb node.deadline_slot slot) "DeadlineNotPassed" _ e' k2 in
      let (outcome, ended, k4) = present-holds (cascaded passed i node e) "unreachable" _ e' k3 in
      let (s, looped, k5) = returned outcome _ e' k4 in
      let (refunded, paid, k6) =
        returned (pay_some rt mint e.pipeline.consumer s.refund_total (swept i node s e)) _ e' k5 in
      let counted : Escrow = record refunded {
        pipeline = count_expired s.expired_count refunded.pipeline;
      } in
      let ends = cascade-Ends _ e.key passed (first_sweep e i node) s (ended ∙ ap some looped) in
      let (there, balance) = cascaded_balance passed i node e s found (ended ∙ ap some looped) in
      let after : Follows e.nodes (set s.nodes i (some (expired_node node))) =
        Follows-trans e.nodes s.nodes (set s.nodes i (some (expired_node node))) ends.passes.follows
          (set-Follows s.nodes i node (some (expired_node node)) there
            (one_step (expirable_steps node.status waits), refl, refl)) in
      let written : refunded.nodes ≡ set s.nodes i (some (expired_node node)) =
        pay_some_nodes rt mint e.pipeline.consumer s.refund_total (swept i node s e) refunded
          paid in
      let last : e'.nodes ≡ refunded.nodes = elim (Bool-cases (is_claimed node.status)) [
        | inl started ↦
            penalize_passed_nodes mint accounts node slot counted e' (ground (arith, started, k6))
        | inr idle ↦
            let same : counted ≡ e' = ground (arith, idle, k6) in
            sym (ap (λ (x : Escrow). x.nodes) same)
      ] in
      subst (Follows e.nodes) (sym (last ∙ written)) after
