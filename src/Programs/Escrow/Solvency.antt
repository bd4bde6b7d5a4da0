-- ===== src/Programs/Escrow/Solvency.antt =====
-- Every instruction of programs/dag_escrow/src/lib.rs keeps the vault of a pipeline solvent.
use chainpipe.Base.{ℕ, ◌≡◌, sym, ap, subst, ◌∙◌, not, List, some, arith, ltb, leb, ◌==◌, set}
use chainpipe.Base.Int.{ℤ}
use chainpipe.Base.Text.{Bytes}
use chainpipe.Base.Encodings.{text_eq}
use chainpipe.Base.Results.{ok, returned, ok-injective}
use chainpipe.Sdk.Platform.{PublicKey}
use chainpipe.Sdk.Accounts.{
  PipelineNode, submitted, disputed, is_pending, is_claimed, is_submitted, is_active,
}
use chainpipe.Programs.Runtime.{Runtime, TransferLaw, require-holds, present-holds, find, absent}
use chainpipe.Programs.Registry.{increment_open_jobs}
use chainpipe.Programs.Registry.Tokens.{increment_open_jobs_tokens}
use chainpipe.Programs.Escrow.{Escrow, node_account, account_at, within}
use chainpipe.Programs.Escrow.Opening.{claim_node, claimed_node}
use chainpipe.Programs.Escrow.Settling.{
  complete_node, submit_completion, dispute_node, finalize_node, pay_settled, close_settled,
  with_status, window_end,
}
use chainpipe.Programs.Escrow.Weights.{
  weigh-set, open_allocation, pending_open, claimed_open, submitted_open,
}
use chainpipe.Programs.Escrow.Money.{
  IsSolvent, pay_settled-Costs, Costs-IsShort, close_settled-IsSolvent,
}

pub node_account-holds :
    (i : ℕ) (e : Escrow) (node : PipelineNode)
    → node_account i e ≡ ok node
    → account_at e.nodes i ≡ some node
node_account-holds i e node h =
    let (found, there, h1) =
      present-holds (account_at e.nodes i) "AccountNotInitialized" _ node h in
    let (same, h2) = require-holds (found.node_index == i) "InvalidNodeAccount" _ node h1 in
    there ∙ ap some (ok-injective h2)

module _ (rt : Runtime) (law : TransferLaw rt) where
  -- A node that stays open under another status.
  reopen-IsSolvent :
      (i : ℕ) (node written : PipelineNode) (e : Escrow)
      → IsSolvent rt e
      → account_at e.nodes i ≡ some node
      → open_allocation written ≡ open_allocation node
      → IsSolvent rt (record e { nodes = set e.nodes i (some written) })
  reopen-IsSolvent i node written e h there same = record {
    backed =
        omega
          (arith, h.backed, same, weigh-set open_allocation e.nodes i node (some written) there);
    fee = h.fee;
    apart = h.apart;
  }

  -- Payment and closing of a node of which the allocation is open.
  pub pay_close-IsSolvent :
      (mint : PublicKey) (i : ℕ) (node : PipelineNode) (score : ℤ) (slot : ℕ) (e paid e' : Escrow)
      → IsSolvent rt e
      → account_at e.nodes i ≡ some node
      → open_allocation node ≡ node.allocation_usdc
      → pay_settled rt mint node e ≡ ok paid
      → close_settled rt i node score slot paid ≡ ok e'
      → IsSolvent rt e'
  pay_close-IsSolvent mint i node score slot e paid e' h there whole pays closes =
      let cost = pay_settled-Costs rt law mint node e paid h.fee pays in
      let (tokens, here, low) = cost in
      close_settled-IsSolvent rt law i node score slot paid e'
        (Costs-IsShort rt law node node.allocation_usdc e paid h (omega (arith, whole)) cost)
        (ap (λ (x : Escrow). account_at x.nodes i) here ∙ there) closes

  pub claim_node-IsSolvent :
      (agent : PublicKey) (i slot : ℕ) (e e' : Escrow)
      → IsSolvent rt e
      → claim_node rt agent i slot e ≡ ok e'
      → IsSolvent rt e'
  unfolding claim_node
  claim_node-IsSolvent agent i slot e e' h k =
      let (running, k1) = require-holds (not e.config.paused) "Paused" _ e' k in
      let (live, k2) = require-holds (is_active e.pipeline.status) "PipelineNotActive" _ e' k1 in
      let (node, found, k3) = returned (node_account i e) _ e' k2 in
      let (waiting, k4) = require-holds (is_pending node.status) "NodeNotClaimable" _ e' k3 in
      let (ready, k5) =
        require-holds (within node.dependency_mask e.pipeline.settled_mask) "DependenciesNotMet" _
          e' k4 in
      let (stake, staked, k6) =
        present-holds (find agent e.registry.stakes) "AccountNotInitialized" _ e' k5 in
      let (own, k7) = require-holds (text_eq stake.agent agent) "AgentMismatch" _ e' k6 in
      let (good, k8) =
        require-holds (leb node.required_tier stake.tier) "TierInsufficient" _ e' k7 in
      let (registry, opened, k9) =
        returned (increment_open_jobs rt e.dag_authority agent e.registry) _ e' k8 in
      let same = increment_open_jobs_tokens rt e.dag_authority agent e.registry registry opened in
      let h' =
        reopen-IsSolvent i node (claimed_node rt e.key i agent slot node) e h
          (node_account-holds i e node found)
          (sym (pending_open node.status node.allocation_usdc waiting)) in
      subst (IsSolvent rt) (ok-injective k9) (record {
        backed = omega (arith, h'.backed, ap (λ b. b e.pipeline.stake_mint e.key) same);
        fee = h.fee;
        apart = h.apart;
      })

  pub complete_node-IsSolvent :
      (signer mint agent : PublicKey) (i : ℕ) (score : ℤ) (slot : ℕ) (e e' : Escrow)
      → IsSolvent rt e
      → complete_node rt signer mint agent i score slot e ≡ ok e'
      → IsSolvent rt e'
  unfolding complete_node
  complete_node-IsSolvent signer mint agent i score slot e e' h k =
      let (running, k1) = require-holds (not e.config.paused) "Paused" _ e' k in
      let (allowed, k2) =
        require-holds (text_eq signer e.config.facilitator_authority) "UnauthorizedFacilitator" _ e'
          k1 in
      let (node, found, k3) = returned (node_account i e) _ e' k2 in
      let (taken, k4) = require-holds (is_claimed node.status) "NodeNotClaimed" _ e' k3 in
      let (own, k5) = require-holds (text_eq node.agent agent) "AgentMismatch" _ e' k4 in
      let (paid, pays, k6) = returned (pay_settled rt mint node e) _ e' k5 in
      pay_close-IsSolvent mint i node score slot e paid e' h (node_account-holds i e node found)
        (claimed_open node.status node.allocation_usdc taken) pays k6

  pub submit_completion-IsSolvent :
      (signer agent : PublicKey) (i : ℕ) (score : ℤ) (result_hash : Bytes) (uri : List ℕ)
      (uri_len slot : ℕ) (e e' : Escrow)
      → IsSolvent rt e
      → submit_completion rt signer agent i score result_hash uri uri_len slot e ≡ ok e'
      → IsSolvent rt e'
  unfolding submit_completion
  submit_completion-IsSolvent signer agent i score result_hash uri uri_len slot e e' h k =
      let (new, k0) = require-holds (absent (account_at e.settlements i)) "already in use" _ e' k in
      let (running, k1) = require-holds (not e.config.paused) "Paused" _ e' k0 in
      let (allowed, k2) =
        require-holds (text_eq signer e.config.facilitator_authority) "UnauthorizedFacilitator" _ e'
          k1 in
      let (fits, k3) = require-holds (leb uri_len 96) "InvalidUri" _ e' k2 in
      let (node, found, k4) = returned (node_account i e) _ e' k3 in
      let (taken, k5) = require-holds (is_claimed node.status) "NodeNotClaimed" _ e' k4 in
      let (own, k6) = require-holds (text_eq node.agent agent) "AgentMismatch" _ e' k5 in
      let h' =
        reopen-IsSolvent i node (with_status submitted slot node) e h
          (node_account-holds i e node found)
          (sym (claimed_open node.status node.allocation_usdc taken)) in
      subst (IsSolvent rt) (ok-injective k6)
        (record { backed = h'.backed; fee = h.fee; apart = h.apart })

  pub dispute_node-IsSolvent :
      (consumer : PublicKey) (i slot : ℕ) (e e' : Escrow)
      → IsSolvent rt e
      → dispute_node consumer i slot e ≡ ok e'
      → IsSolvent rt e'
  unfolding dispute_node
  dispute_node-IsSolvent consumer i slot e e' h k =
      let (own, k1) =
        require-holds (text_eq consumer e.pipeline.consumer) "ConstraintHasOne" _ e' k in
      let (s, there, k2) =
        present-holds (account_at e.settlements i) "AccountNotInitialized" _ e' k1 in
      let (node, found, k3) = returned (node_account i e) _ e' k2 in
      let (waits, k4) = require-holds (is_submitted node.status) "NodeNotSubmitted" _ e' k3 in
      let (early, k5) = require-holds (leb slot (window_end s)) "DisputeWindowClosed" _ e' k4 in
      let h' =
        reopen-IsSolvent i node (record node { status = disputed }) e h
          (node_account-holds i e node found)
          (sym (submitted_open node.status node.allocation_usdc waits)) in
      subst (IsSolvent rt) (ok-injective k5)
        (record { backed = h'.backed; fee = h.fee; apart = h.apart })

  pub finalize_node-IsSolvent :
      (mint agent : PublicKey) (i slot : ℕ) (e e' : Escrow)
      → IsSolvent rt e
      → finalize_node rt mint agent i slot e ≡ ok e'
      → IsSolvent rt e'
  unfolding finalize_node
  finalize_node-IsSolvent mint agent i slot e e' h k =
      let (s, there, k1) =
        present-holds (account_at e.settlements i) "AccountNotInitialized" _ e' k in
      let (node, found, k2) = returned (node_account i e) _ e' k1 in
      let (waits, k3) = require-holds (is_submitted node.status) "NodeNotSubmitted" _ e' k2 in
      let (own, k4) = require-holds (text_eq node.agent agent) "AgentMismatch" _ e' k3 in
      let (quiet, k5) = require-holds (not s.disputed) "NodeAlreadyDisputed" _ e' k4 in
      let (running, k6) = require-holds (not e.config.paused) "Paused" _ e' k5 in
      let (late, k7) = require-holds (ltb (window_end s) slot) "DisputeWindowOpen" _ e' k6 in
      let (paid, pays, k8) = returned (pay_settled rt mint node e) _ e' k7 in
      let (done, closes, k9) = returned (close_settled rt i node s.score_delta slot paid) _ e' k8 in
      let h' =
        pay_close-IsSolvent mint i node s.score_delta slot e paid done h
          (node_account-holds i e node found)
          (submitted_open node.status node.allocation_usdc waits) pays closes in
      subst (IsSolvent rt) (ok-injective k9)
        (record { backed = h'.backed; fee = h'.fee; apart = h'.apart })
