-- ===== src/Programs/Escrow/Lifecycle.antt =====
-- The instructions of programs/dag_escrow/src/lib.rs that move one node follow the state machine.
use chainpipe.Base.{
  ℕ, ◌-◌, ◌≡◌, refl, sym, ap, subst, ◌∙◌, true, not, List, some, inl, inr, arith, Bool-cases, ltb,
  leb, set,
}
use chainpipe.Base.Int.{ℤ}
use chainpipe.Base.Text.{Bytes}
use chainpipe.Base.Encodings.{text_eq}
use chainpipe.Base.Results.{ok, returned, ok-injective}
use chainpipe.Sdk.Platform.{PublicKey}
use chainpipe.Sdk.Accounts.{
  PipelineNode, submitted, disputed, settled, is_pending, is_claimed, is_submitted, is_active,
}
use chainpipe.Programs.Runtime.{Runtime, require-holds, present-holds, find, absent}
use chainpipe.Programs.Registry.{increment_open_jobs, decrement_open_jobs}
use chainpipe.Programs.Bridge.{record_completion}
use chainpipe.Programs.Escrow.{Escrow, node_account, account_at, within, pay_from_vault, pay_some}
use chainpipe.Programs.Escrow.Opening.{claim_node, claimed_node}
use chainpipe.Programs.Escrow.Settling.{
  fee_of, complete_node, submit_completion, dispute_node, finalize_node, pay_settled, close_settled,
  with_status, window_end,
}
use chainpipe.Programs.Escrow.Fates.{
  Follows, set-Follows, one_step, can_step, claimed_steps, submitted_steps, pending_steps,
}
use chainpipe.Programs.Escrow.Solvency.{node_account-holds}

module _ (rt : Runtime) where
  pub pay_from_vault_nodes :
      (mint to : PublicKey) (amount : ℕ) (e e' : Escrow)
      → pay_from_vault rt mint to amount e ≡ ok e'
      → e'.nodes ≡ e.nodes
  pay_from_vault_nodes mint to amount e e' h =
      let (tokens, moved, h1) =
        returned (rt.transfer mint e.key to amount e.registry.tokens) _ e' h in
      sym (ap (λ (x : Escrow). x.nodes) (ok-injective h1))

  pub pay_some_nodes :
      (mint to : PublicKey) (amount : ℕ) (e e' : Escrow)
      → pay_some rt mint to amount e ≡ ok e'
      → e'.nodes ≡ e.nodes
  pay_some_nodes mint to amount e e' h = elim (Bool-cases (ltb 0 amount)) [
    | inl some_left ↦ pay_from_vault_nodes mint to amount e e' (ground (arith, some_left, h))
    | inr nothing ↦
        let same : e ≡ e' = ground (arith, nothing, h) in sym (ap (λ (x : Escrow). x.nodes) same)
  ]

  -- Payment and closing write the settled node.
  pub pay_close_nodes :
      (mint : PublicKey) (i : ℕ) (node : PipelineNode) (score : ℤ) (slot : ℕ) (e paid e' : Escrow)
      → pay_settled rt mint node e ≡ ok paid
      → close_settled rt i node score slot paid ≡ ok e'
      → e'.nodes ≡ set e.nodes i (some (with_status settled slot node))
  pay_close_nodes mint i node score slot e paid e' h k =
      let (first, one, h1) =
        returned
          (pay_from_vault rt mint node.agent
            (node.allocation_usdc - fee_of e.config node.allocation_usdc) e)
          _ paid h in
      let (registry, freed, k1) =
        returned (decrement_open_jobs rt paid.dag_authority node.agent true paid.registry) _ e' k in
      let (bridge, recorded, k2) =
        returned
          (record_completion rt paid.dag_authority node.job_id node.agent score slot paid.bridge) _
          e' k1 in
      let same : paid.nodes ≡ e.nodes =
        pay_some_nodes mint e.config.operator (fee_of e.config node.allocation_usdc) first paid h1
        ∙ pay_from_vault_nodes mint node.agent
            (node.allocation_usdc - fee_of e.config node.allocation_usdc) e first one in
      sym (ap (λ (x : Escrow). x.nodes) (ok-injective k2))
      ∙ ap (λ xs. set xs i (some (with_status settled slot node))) same

  pub settled-Follows :
      (i : ℕ) (node : PipelineNode) (slot : ℕ) (e e' : Escrow)
      → account_at e.nodes i ≡ some node
      → can_step node.status settled ≡ true
      → e'.nodes ≡ set e.nodes i (some (with_status settled slot node))
      → Follows e.nodes e'.nodes
  settled-Follows i node slot e e' there can written = subst (Follows e.nodes) (sym written) (
      set-Follows e.nodes i node (some (with_status settled slot node)) there
        (one_step can, refl, refl))

  pub claim_node-Follows :
      (agent : PublicKey) (i slot : ℕ) (e e' : Escrow)
      → claim_node rt agent i slot e ≡ ok e'
      → Follows e.nodes e'.nodes
  unfolding claim_node
  claim_node-Follows agent i slot e e' k =
      let (running, k1) = require-holds (not e.config.paused) "Paused" _ e' k in
      let (live, k2) = require-holds (is_active e.pipeline.status) "PipelineNotActive" _ e' k1 in
      let (node, found, k3) = returned (node_account i e) _ e' k2 in
      let (waiting, k4) = require-holds (is_pending node.status) "NodeNotClaimable" _ e' k3 in
      let (ready, k5) =
        require-holds (within node.dependency_mask e.pipeline.settled_mask) "DependenciesNotMet" _
          e' k4 in
      let (stake, staked, k6) =
        present-holds (find agent e.registry.stakes) "AccountNotInitialized" _ e' k5 in
      let (own, k7) = require-holds (text_eq stake.agent agent) "AgentMismatch" _ e' k6 in
      let (good, k8) =
        require-holds (leb node.required_tier stake.tier) "TierInsufficient" _ e' k7 in
      let (registry, opened, k9) =
        returned (increment_open_jobs rt e.dag_authority agent e.registry) _ e' k8 in
      let (can, other) = pending_steps node.status waiting in
      subst (λ (x : Escrow). Follows e.nodes x.nodes) (ok-injective k9)
        (set-Follows e.nodes i node (some (claimed_node rt e.key i agent slot node))
          (node_account-holds i e node found) (one_step can, refl, refl))

  pub complete_node-Follows :
      (signer mint agent : PublicKey) (i : ℕ) (score : ℤ) (slot : ℕ) (e e' : Escrow)
      → complete_node rt signer mint agent i score slot e ≡ ok e'
      → Follows e.nodes e'.nodes
  unfolding complete_node
  complete_node-Follows signer mint agent i score slot e e' k =
      let (running, k1) = require-holds (not e.config.paused) "Paused" _ e' k in
      let (allowed, k2) =
        require-holds (text_eq signer e.config.facilitator_authority) "UnauthorizedFacilitator" _ e'
          k1 in
      let (node, found, k3) = returned (node_account i e) _ e' k2 in
      let (taken, k4) = require-holds (is_claimed node.status) "NodeNotClaimed" _ e' k3 in
      let (own, k5) = require-holds (text_eq node.agent agent) "AgentMismatch" _ e' k4 in
      let (paid, pays, k6) = returned (pay_settled rt mint node e) _ e' k5 in
      let (can, deliver, lapse) = claimed_steps node.status taken in
      settled-Follows i node slot e e' (node_account-holds i e node found) can
        (pay_close_nodes mint i node score slot e paid e' pays k6)

  pub submit_completion-Follows :
      (signer agent : PublicKey) (i : ℕ) (score : ℤ) (result_hash : Bytes) (uri : List ℕ)
      (uri_len slot : ℕ) (e e' : Escrow)
      → submit_completion rt signer agent i score result_hash uri uri_len slot e ≡ ok e'
      → Follows e.nodes e'.nodes
  unfolding submit_completion
  submit_completion-Follows signer agent i score result_hash uri uri_len slot e e' k =
      let (new, k0) = require-holds (absent (account_at e.settlements i)) "already in use" _ e' k in
      let (running, k1) = require-holds (not e.config.paused) "Paused" _ e' k0 in
      let (allowed, k2) =
        require-holds (text_eq signer e.config.facilitator_authority) "UnauthorizedFacilitator" _ e'
          k1 in
      let (fits, k3) = require-holds (leb uri_len 96) "InvalidUri" _ e' k2 in
      let (node, found, k4) = returned (node_account i e) _ e' k3 in
      let (taken, k5) = require-holds (is_claimed node.status) "NodeNotClaimed" _ e' k4 in
      let (own, k6) = require-holds (text_eq node.agent agent) "AgentMismatch" _ e' k5 in
      let (pay, can, lapse) = claimed_steps node.status taken in
      subst (λ (x : Escrow). Follows e.nodes x.nodes) (ok-injective k6)
        (set-Follows e.nodes i node (some (with_status submitted slot node))
          (node_account-holds i e node found) (one_step can, refl, refl))

  pub dispute_node-Follows :
      (consumer : PublicKey) (i slot : ℕ) (e e' : Escrow)
      → dispute_node consumer i slot e ≡ ok e'
      → Follows e.nodes e'.nodes
  unfolding dispute_node
  dispute_node-Follows consumer i slot e e' k =
      let (own, k1) =
        require-holds (text_eq consumer e.pipeline.consumer) "ConstraintHasOne" _ e' k in
      let (s, there, k2) =
        present-holds (account_at e.settlements i) "AccountNotInitialized" _ e' k1 in
      let (node, found, k3) = returned (node_account i e) _ e' k2 in
      let (waits, k4) = require-holds (is_submitted node.status) "NodeNotSubmitted" _ e' k3 in
      let (early, k5) = require-holds (leb slot (window_end s)) "DisputeWindowClosed" _ e' k4 in
      let (pay, can) = submitted_steps node.status waits in
      subst (λ (x : Escrow). Follows e.nodes x.nodes) (ok-injective k5)
        (set-Follows e.nodes i node (some (record node { status = disputed }))
          (node_account-holds i e node found) (one_step can, refl, refl))

  pub finalize_node-Follows :
      (mint agent : PublicKey) (i slot : ℕ) (e e' : Escrow)
      → finalize_node rt mint agent i slot e ≡ ok e'
      → Follows e.nodes e'.nodes
  unfolding finalize_node
  finalize_node-Follows mint agent i slot e e' k =
      let (s, there, k1) =
        present-holds (account_at e.settlements i) "AccountNotInitialized" _ e' k in
      let (node, found, k2) = returned (node_account i e) _ e' k1 in
      let (waits, k3) = require-holds (is_submitted node.status) "NodeNotSubmitted" _ e' k2 in
      let (own, k4) = require-holds (text_eq node.agent agent) "AgentMismatch" _ e' k3 in
      let (quiet, k5) = require-holds (not s.disputed) "NodeAlreadyDisputed" _ e' k4 in
      let (running, k6) = require-holds (not e.config.paused) "Paused" _ e' k5 in
      let (late, k7) = require-holds (ltb (window_end s) slot) "DisputeWindowOpen" _ e' k6 in
      let (paid, pays, k8) = returned (pay_settled rt mint node e) _ e' k7 in
      let (done, closes, k9) = returned (close_settled rt i node s.score_delta slot paid) _ e' k8 in
      let (can, other) = submitted_steps node.status waits in
      settled-Follows i node slot e e' (node_account-holds i e node found) can (
        sym (ap (λ (x : Escrow). x.nodes) (ok-injective k9))
        ∙ pay_close_nodes mint i node s.score_delta slot e paid done pays closes)
