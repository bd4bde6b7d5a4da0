-- ===== src/Programs/Escrow/Histories.antt =====
-- Whole histories of a pipeline of programs/dag_escrow/src/lib.rs follow the state machine of a node.
use chainpipe.Base.{
  ℕ, zero, suc, ◌≡◌, ◌⊎◌, refl, sym, ap, subst, ◌∙◌, true, List, [], ◌∷◌, Option, none, some, inl,
  inr, arith, Bool-cases, ◌==◌, set,
}
use chainpipe.Base.Encodings.{text_eq}
use chainpipe.Base.Results.{ok, returned, ok-injective, Result-cases}
use chainpipe.Sdk.Platform.{PublicKey}
use chainpipe.Sdk.Accounts.{
  PipelineNode, NodeStatus, pending, claimed, submitted, disputed, settled, expired, is_pending,
  is_active,
}
use chainpipe.Programs.Runtime.{Runtime, require-holds, present-holds, option-injective}
use chainpipe.Programs.Escrow.{Escrow, account_at, pay_some, operate}
use chainpipe.Programs.Escrow.Opening.{cancel_pipeline, close_nodes, all_pending}
use chainpipe.Programs.Escrow.Weights.{account_at-set_ne}
use chainpipe.Programs.Escrow.Calls.{
  EscrowCall, claim, complete, submit, dispute, finalize, resolve, expire, cancel, operated,
  apply_escrow, kept_escrow, run_escrow,
}
use chainpipe.Programs.Escrow.Fates.{
  same_status, Fate, Fate-refl, Follows, Follows-refl, Follows-trans,
}
use chainpipe.Programs.Escrow.Lifecycle.{
  pay_some_nodes, claim_node-Follows, complete_node-Follows, submit_completion-Follows,
  dispute_node-Follows, finalize_node-Follows,
}
use chainpipe.Programs.Escrow.Verdicts.{resolve_dispute-Follows, expire_node-Follows}

abbrev In : ℕ → List ℕ → Type 0
In j [] = ⊥
In j (i ∷ rest) = (i ≡ j) ⊎ In j rest

emptied_place : (xs : List (Option PipelineNode)) (i : ℕ) → account_at (set xs i none) i ≡ none
emptied_place [] i = refl
emptied_place (x ∷ xs) zero = refl
emptied_place (x ∷ xs) (suc i) = emptied_place xs i

-- The place of a node that is in the list becomes empty, and no other.
close_nodes_at :
    (passed : List ℕ) (xs : List (Option PipelineNode)) (j : ℕ)
    → (account_at (close_nodes passed xs) j ≡ account_at xs j)
      ⊎ ((account_at (close_nodes passed xs) j ≡ none) × In j passed)
close_nodes_at [] xs j = inl refl
close_nodes_at (i ∷ rest) xs j = elim (close_nodes_at rest (set xs i none) j) [
  | inr (gone, there) ↦ inr (gone, inr there)
  | inl kept ↦ elim (Bool-cases (i == j)) [
    | inl same ↦
        let place : i ≡ j = ground (arith, same) in
        inr (
          kept ∙ subst (λ k. account_at (set xs i none) k ≡ none) place (emptied_place xs i),
          inl place,
        )
    | inr apart ↦ inl (kept ∙ account_at-set_ne xs i j none (λ q. ground (arith, q, apart)))
  ]
]

all_pending-holds :
    (passed : List ℕ) (e : Escrow) (j : ℕ) (node : PipelineNode)
    → all_pending passed e ≡ ok tt
    → In j passed
    → account_at e.nodes j ≡ some node
    → is_pending node.status ≡ true
all_pending-holds [] e j node h m there = absurd m
all_pending-holds (i ∷ rest) e j node h m there =
    let (found, here, h1) =
      present-holds (account_at e.nodes i) "AccountDidNotDeserialize" _ tt h in
    let (own, h2) = require-holds (text_eq found.pipeline e.key) "InvalidNodeAccount" _ tt h1 in
    let (idle, h3) = require-holds (is_pending found.status) "PipelineHasActivity" _ tt h2 in
    elim m [
      | inl place ↦
          let same : found ≡ node =
            option-injective (sym here ∙ ap (account_at e.nodes) place ∙ there) in
          ap (λ (n : PipelineNode). is_pending n.status) (sym same) ∙ idle
      | inr later ↦ all_pending-holds rest e j node h3 later there
    ]

is_pending_sound : (s : NodeStatus) → is_pending s ≡ true → s ≡ pending
is_pending_sound pending h = refl
is_pending_sound claimed h = absurd (cc)
is_pending_sound submitted h = absurd (cc)
is_pending_sound disputed h = absurd (cc)
is_pending_sound settled h = absurd (cc)
is_pending_sound expired h = absurd (cc)

module _ (rt : Runtime) where
  close_nodes-Follows :
      (passed : List ℕ) (e : Escrow)
      → all_pending passed e ≡ ok tt
      → Follows e.nodes (close_nodes passed e.nodes)
  close_nodes-Follows passed e idle = record {
    fate = λ j node there. elim (close_nodes_at passed e.nodes j) [
      | inl kept ↦ subst (Fate node) (sym (kept ∙ there)) (Fate-refl node)
      | inr (gone, listed) ↦ subst (Fate node) (sym gone) (
          same_status
            (is_pending_sound node.status (all_pending-holds passed e j node idle listed there)))
    ];
    absent = λ j empty. elim (close_nodes_at passed e.nodes j) [
      | inl kept ↦ kept ∙ empty
      | inr (gone, listed) ↦ gone
    ];
  }

  cancel_pipeline-Follows :
      (consumer mint : PublicKey) (passed : List ℕ) (e e' : Escrow)
      → cancel_pipeline rt consumer mint passed e ≡ ok e'
      → Follows e.nodes e'.nodes
  unfolding cancel_pipeline
  cancel_pipeline-Follows consumer mint passed e e' k =
      let (own, k1) =
        require-holds (text_eq consumer e.pipeline.consumer) "ConstraintHasOne" _ e' k in
      let (live, k2) = require-holds (is_active e.pipeline.status) "PipelineNotActive" _ e' k1 in
      let (unit, idle, k3) = returned (all_pending passed e) _ e' k2 in
      let (paid, did, k4) =
        returned (pay_some rt mint consumer (e.registry.tokens mint e.key) e) _ e' k3 in
      let same = pay_some_nodes rt mint consumer (e.registry.tokens mint e.key) e paid did in
      subst (Follows e.nodes)
        (ap (close_nodes passed) (sym same) ∙ ap (λ (x : Escrow). x.nodes) (ok-injective k4))
        (close_nodes-Follows passed e idle)

  apply_escrow-Follows :
      (c : EscrowCall) (e e' : Escrow) → apply_escrow rt c e ≡ ok e' → Follows e.nodes e'.nodes
  apply_escrow-Follows (claim agent i slot) e e' k = claim_node-Follows rt agent i slot e e' k
  apply_escrow-Follows (complete signer mint agent i score slot) e e' k =
      complete_node-Follows rt signer mint agent i score slot e e' k
  apply_escrow-Follows (submit signer agent i score result_hash uri uri_len slot) e e' k =
      submit_completion-Follows rt signer agent i score result_hash uri uri_len slot e e' k
  apply_escrow-Follows (dispute consumer i slot) e e' k =
      dispute_node-Follows rt consumer i slot e e' k
  apply_escrow-Follows (finalize mint agent i slot) e e' k =
      finalize_node-Follows rt mint agent i slot e e' k
  apply_escrow-Follows (resolve signer mint agent i upheld slot) e e' k =
      resolve_dispute-Follows rt signer mint agent i upheld slot e e' k
  apply_escrow-Follows (expire mint i passed accounts slot) e e' k =
      expire_node-Follows rt mint i passed accounts slot e e' k
  apply_escrow-Follows (cancel consumer mint passed) e e' k =
      cancel_pipeline-Follows consumer mint passed e e' k
  apply_escrow-Follows (operated signer c) e e' k =
      let (config, did, k1) = returned (operate rt signer c e.config) _ e' k in
      subst (Follows e.nodes) (ap (λ (x : Escrow). x.nodes) (ok-injective k1))
        (Follows-refl e.nodes)

  -- Any sequence of dag_escrow transactions, failed ones included, moves each node along the state
  -- machine (pending to claimed or expired; claimed to settled, submitted or expired; submitted to
  -- disputed or settled; disputed to settled or expired), keeps its allocation and dependencies, and
  -- closes only the account of a node that is pending.
  pub run_escrow-Follows :
      (calls : List EscrowCall) (e : Escrow) → Follows e.nodes (run_escrow rt calls e).nodes
  run_escrow-Follows [] e = Follows-refl e.nodes
  run_escrow-Follows (c ∷ calls) e =
      let e' : Escrow = kept_escrow e (apply_escrow rt c e) in
      Follows-trans e.nodes e'.nodes (run_escrow rt calls e').nodes
        (elim (Result-cases (apply_escrow rt c e)) [
          | inl (after, did) ↦
              subst (λ x. Follows e.nodes (kept_escrow e x).nodes) (sym did)
                (apply_escrow-Follows c e after did)
          | inr (t, failed) ↦
              subst (λ x. Follows e.nodes (kept_escrow e x).nodes) (sym failed)
                (Follows-refl e.nodes)
        ])
        (run_escrow-Follows calls e')
