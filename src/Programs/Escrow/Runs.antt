-- ===== src/Programs/Escrow/Runs.antt =====
-- Solvency through cancelling, and through every sequence of transactions, for
-- programs/dag_escrow/src/lib.rs.
use chainpipe.Base.{ℕ, ◌≤◌, ◌≡◌, sym, ap, subst, ◌∙◌, List, [], ◌∷◌, inl, inr, arith}
use chainpipe.Base.Encodings.{text_eq}
use chainpipe.Base.Results.{ok, returned, ok-injective, Result-cases}
use chainpipe.Sdk.Platform.{PublicKey}
use chainpipe.Sdk.Accounts.{is_active}
use chainpipe.Programs.Runtime.{Runtime, TransferLaw, require-holds}
use chainpipe.Programs.Escrow.{
  Escrow, EscrowConfig, pay_some, operate, OperatorCall, set_facilitator_authority, set_paused,
  set_dispute_window, propose_operator, accept_operator,
}
use chainpipe.Programs.Escrow.Opening.{cancel_pipeline, close_nodes, all_pending}
use chainpipe.Programs.Escrow.Calls.{
  EscrowCall, claim, complete, submit, dispute, finalize, resolve, expire, cancel, operated,
  apply_escrow, kept_escrow, run_escrow,
}
use chainpipe.Programs.Escrow.Weights.{owed}
use chainpipe.Programs.Escrow.Money.{IsSolvent, pay_some-Costs}
use chainpipe.Programs.Escrow.Disputes.{resolve_dispute-IsSolvent}
use chainpipe.Programs.Escrow.Solvency.{
  claim_node-IsSolvent, complete_node-IsSolvent, submit_completion-IsSolvent,
  dispute_node-IsSolvent, finalize_node-IsSolvent,
}
use chainpipe.Programs.Escrow.Refunds.{expire_node-IsSolvent}

-- A cancel_pipeline passes the accounts of all nodes that are neither settled nor expired.
abbrev pub PassesOpen : EscrowCall → Escrow → Type 0
PassesOpen (cancel consumer mint passed) e = owed (close_nodes passed e.nodes) ≡ 0
PassesOpen _ e = Unit

abbrev pub AllPassOpen : Runtime → List EscrowCall → Escrow → Type 0
AllPassOpen rt [] e = Unit
AllPassOpen rt (c ∷ rest) e =
    PassesOpen c e × AllPassOpen rt rest (kept_escrow e (apply_escrow rt c e))

module _ (rt : Runtime) (law : TransferLaw rt) where
  -- Cancelling with the accounts of all nodes of which the allocation is open.
  cancel_pipeline-IsSolvent :
      (consumer mint : PublicKey) (passed : List ℕ) (e e' : Escrow)
      → IsSolvent rt e
      → owed (close_nodes passed e.nodes) ≡ 0
      → cancel_pipeline rt consumer mint passed e ≡ ok e'
      → IsSolvent rt e'
  unfolding cancel_pipeline
  cancel_pipeline-IsSolvent consumer mint passed e e' h none_left k =
      let (own, k1) =
        require-holds (text_eq consumer e.pipeline.consumer) "ConstraintHasOne" _ e' k in
      let (live, k2) = require-holds (is_active e.pipeline.status) "PipelineNotActive" _ e' k1 in
      let (unit, idle, k3) = returned (all_pending passed e) _ e' k2 in
      let (paid, did, k4) =
        returned (pay_some rt mint consumer (e.registry.tokens mint e.key) e) _ e' k3 in
      let (tokens, here, low) =
        pay_some-Costs rt law mint consumer (e.registry.tokens mint e.key) e paid did in
      subst (IsSolvent rt) (ok-injective k4) (record {
        backed =
            omega (arith, none_left, ap (λ (x : Escrow). owed (close_nodes passed x.nodes)) here);
        fee = subst (λ (x : Escrow). x.config.fee_bps ≤ 10_000) (sym here) h.fee;
        apart = λ agent same. h.apart agent (sym (ap (λ (x : Escrow). x.key) here) ∙ same);
      })

  operate_fee :
      (signer : PublicKey) (c : OperatorCall) (config config' : EscrowConfig)
      → operate rt signer c config ≡ ok config'
      → config'.fee_bps ≡ config.fee_bps
  unfolding operate
  operate_fee signer (set_facilitator_authority new) config config' k = ground arith
  operate_fee signer (set_paused paused) config config' k = ground arith
  operate_fee signer (set_dispute_window slots) config config' k = ground arith
  operate_fee signer (propose_operator new) config config' k = ground arith
  operate_fee signer accept_operator config config' k = ground arith

  apply_escrow-IsSolvent :
      (c : EscrowCall) (e e' : Escrow)
      → IsSolvent rt e
      → PassesOpen c e
      → apply_escrow rt c e ≡ ok e'
      → IsSolvent rt e'
  apply_escrow-IsSolvent (claim agent i slot) e e' h w k =
      claim_node-IsSolvent rt law agent i slot e e' h k
  apply_escrow-IsSolvent (complete signer mint agent i score slot) e e' h w k =
      complete_node-IsSolvent rt law signer mint agent i score slot e e' h k
  apply_escrow-IsSolvent (submit signer agent i score result_hash uri uri_len slot) e e' h w k =
      submit_completion-IsSolvent rt law signer agent i score result_hash uri uri_len slot e e' h k
  apply_escrow-IsSolvent (dispute consumer i slot) e e' h w k =
      dispute_node-IsSolvent rt law consumer i slot e e' h k
  apply_escrow-IsSolvent (finalize mint agent i slot) e e' h w k =
      finalize_node-IsSolvent rt law mint agent i slot e e' h k
  apply_escrow-IsSolvent (resolve signer mint agent i upheld slot) e e' h w k =
      resolve_dispute-IsSolvent rt law signer mint agent i upheld slot e e' h k
  apply_escrow-IsSolvent (expire mint i passed accounts slot) e e' h w k =
      expire_node-IsSolvent rt law mint i passed accounts slot e e' h k
  apply_escrow-IsSolvent (cancel consumer mint passed) e e' h w k =
      cancel_pipeline-IsSolvent consumer mint passed e e' h w k
  apply_escrow-IsSolvent (operated signer c) e e' h w k =
      let (config, did, k1) = returned (operate rt signer c e.config) _ e' k in
      subst (IsSolvent rt) (ok-injective k1) (record {
        backed = h.backed;
        fee = omega (arith, h.fee, operate_fee signer c e.config config did);
        apart = h.apart;
      })

  -- If the vault of a pipeline holds the allocations of all nodes that are neither settled nor
  -- expired, the fee is at most 100% and the vault is the account of no stake, then this is so
  -- after any sequence of dag_escrow transactions on the pipeline, failed ones included, of any
  -- signer and with any mint, if each cancel_pipeline passes the accounts of all such nodes.
  pub run_escrow-IsSolvent :
      (calls : List EscrowCall) (e : Escrow)
      → IsSolvent rt e
      → AllPassOpen rt calls e
      → IsSolvent rt (run_escrow rt calls e)
  run_escrow-IsSolvent [] e h w = h
  run_escrow-IsSolvent (c ∷ calls) e h (w, ws) =
      run_escrow-IsSolvent calls (kept_escrow e (apply_escrow rt c e))
        (elim (Result-cases (apply_escrow rt c e)) [
          | inl (e', did) ↦
              subst (λ x. IsSolvent rt (kept_escrow e x)) (sym did)
                (apply_escrow-IsSolvent c e e' h w did)
          | inr (t, failed) ↦ subst (λ x. IsSolvent rt (kept_escrow e x)) (sym failed) h
        ])
        ws
