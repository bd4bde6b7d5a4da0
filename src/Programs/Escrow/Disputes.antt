-- ===== src/Programs/Escrow/Disputes.antt =====
-- Solvency through resolve_dispute of programs/dag_escrow/src/lib.rs.
use chainpipe.Base.{ℕ, ◌≡◌, refl, sym, ap, subst, ◌∙◌, Bool, some, inl, inr, arith, Bool-cases}
use chainpipe.Base.Int.{ℤ}
use chainpipe.Base.Encodings.{text_eq}
use chainpipe.Base.Results.{ok, returned, ok-injective}
use chainpipe.Sdk.Platform.{PublicKey}
use chainpipe.Sdk.Accounts.{PipelineNode, expired, is_disputed}
use chainpipe.Programs.Runtime.{Runtime, TransferLaw, require-holds, present-holds}
use chainpipe.Programs.Escrow.{Escrow, node_account, account_at, pay_from_vault}
use chainpipe.Programs.Escrow.Settling.{
  resolve_dispute, resolve_upheld, resolve_rejected, pay_settled, close_settled, with_status,
  penalize,
}
use chainpipe.Programs.Escrow.Weights.{open_allocation, disputed_open}
use chainpipe.Programs.Escrow.Money.{
  IsSolvent, IsShort, pay_from_vault-Costs, Costs-IsShort, write-IsSolvent, penalize_lem,
}
use chainpipe.Programs.Escrow.Solvency.{node_account-holds, pay_close-IsSolvent}

module _ (rt : Runtime) (law : TransferLaw rt) where
  pub penalize-IsSolvent :
      (mint : PublicKey) (node : PipelineNode) (slot : ℕ) (e e' : Escrow)
      → IsSolvent rt e
      → penalize rt mint node slot e ≡ ok e'
      → IsSolvent rt e'
  penalize-IsSolvent mint node slot e e' h k =
      let (registry, bridge, here, low) = penalize_lem rt law mint node slot e e' h.apart k in
      subst (IsSolvent rt) (sym here) (record {
        backed = omega (arith, h.backed, low e.pipeline.stake_mint);
        fee = h.fee;
        apart = h.apart;
      })

  penalize-IsShort :
      (mint : PublicKey) (node : PipelineNode) (slot : ℕ) (e e' : Escrow)
      → IsShort rt node e
      → penalize rt mint node slot e ≡ ok e'
      → IsShort rt node e' × (e'.nodes ≡ e.nodes)
  penalize-IsShort mint node slot e e' h k =
      let (registry, bridge, here, low) = penalize_lem rt law mint node slot e e' h.apart k in
      (
        subst (IsShort rt node) (sym here) (record {
          short = omega (arith, h.short, low e.pipeline.stake_mint);
          fee = h.fee;
          apart = h.apart;
        }),
        ap (λ (x : Escrow). x.nodes) here,
      )

  resolve_upheld-IsSolvent :
      (mint : PublicKey) (i : ℕ) (node : PipelineNode) (slot : ℕ) (e e' : Escrow)
      → IsSolvent rt e
      → account_at e.nodes i ≡ some node
      → open_allocation node ≡ node.allocation_usdc
      → resolve_upheld rt mint i node slot e ≡ ok e'
      → IsSolvent rt e'
  resolve_upheld-IsSolvent mint i node slot e e' h there whole k =
      let (refunded, paid, k1) =
        returned (pay_from_vault rt mint e.pipeline.consumer node.allocation_usdc e) _ e' k in
      let (done, punished, k2) = returned (penalize rt mint node slot refunded) _ e' k1 in
      let cost =
        pay_from_vault-Costs rt law mint e.pipeline.consumer node.allocation_usdc e refunded paid in
      let (tokens, here, low) = cost in
      let lacking =
        Costs-IsShort rt law node node.allocation_usdc e refunded h (omega (arith, whole)) cost in
      let (short, same) = penalize-IsShort mint node slot refunded done lacking punished in
      let at : account_at done.nodes i ≡ some node =
        ap (λ xs. account_at xs i) (same ∙ ap (λ (x : Escrow). x.nodes) here) ∙ there in
      let h' = write-IsSolvent rt law i node (with_status expired slot node) done short at refl in
      subst (IsSolvent rt) (ok-injective k2)
        (record { backed = h'.backed; fee = h'.fee; apart = h'.apart })

  resolve_rejected-IsSolvent :
      (mint : PublicKey) (i : ℕ) (node : PipelineNode) (score : ℤ) (slot : ℕ) (e e' : Escrow)
      → IsSolvent rt e
      → account_at e.nodes i ≡ some node
      → open_allocation node ≡ node.allocation_usdc
      → resolve_rejected rt mint i node score slot e ≡ ok e'
      → IsSolvent rt e'
  resolve_rejected-IsSolvent mint i node score slot e e' h there whole k =
      let (paid, pays, k1) = returned (pay_settled rt mint node e) _ e' k in
      let (done, closes, k2) = returned (close_settled rt i node score slot paid) _ e' k1 in
      let h' =
        pay_close-IsSolvent rt law mint i node score slot e paid done h there whole pays closes in
      subst (IsSolvent rt) (ok-injective k2)
        (record { backed = h'.backed; fee = h'.fee; apart = h'.apart })

  pub resolve_dispute-IsSolvent :
      (signer mint agent : PublicKey) (i : ℕ) (upheld : Bool) (slot : ℕ) (e e' : Escrow)
      → IsSolvent rt e
      → resolve_dispute rt signer mint agent i upheld slot e ≡ ok e'
      → IsSolvent rt e'
  unfolding resolve_dispute
  resolve_dispute-IsSolvent signer mint agent i upheld slot e e' h k =
      let (s, settled_at, k1) =
        present-holds (account_at e.settlements i) "AccountNotInitialized" _ e' k in
      let (allowed, k2) =
        require-holds (text_eq signer e.config.facilitator_authority) "UnauthorizedArbiter" _ e'
          k1 in
      let (node, found, k3) = returned (node_account i e) _ e' k2 in
      let (fought, k4) = require-holds (is_disputed node.status) "NodeNotDisputed" _ e' k3 in
      let (own, k5) = require-holds (text_eq node.agent agent) "AgentMismatch" _ e' k4 in
      let there = node_account-holds i e node found in
      let whole = disputed_open node.status node.allocation_usdc fought in
      elim (Bool-cases upheld) [
        | inl yes_upheld ↦
            resolve_upheld-IsSolvent mint i node slot e e' h there whole
              (ground (arith, yes_upheld, k5))
        | inr rejected ↦
            resolve_rejected-IsSolvent mint i node s.score_delta slot e e' h there whole
              (ground (arith, rejected, k5))
      ]
