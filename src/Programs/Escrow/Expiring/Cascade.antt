-- ===== src/Programs/Escrow/Expiring/Cascade.antt =====
-- The nodes that the loop of expire_node of programs/dag_escrow/src/lib.rs leaves pending, and those
-- that it takes.
use chainpipe.Base.{
  ℕ, zero, suc, ◌+◌, ◌<◌, ◌≡◌, ◌≢◌, refl, sym, ap, subst, ◌∙◌, true, false, List, [], ◌∷◌, Option,
  some, inl, inr, arith, Bool-cases, length,
}
use chainpipe.Base.Results.{ok, returned, ok-injective, Result-cases}
use chainpipe.Base.Encodings.{text_eq}
use chainpipe.Sdk.Platform.{PublicKey}
use chainpipe.Sdk.Accounts.{PipelineNode, is_pending}
use chainpipe.Dashboard.Masks.{has_bit, set_bit}
use chainpipe.Dashboard.Masks.Laws.{has_bit-set_bit}
use chainpipe.Programs.Runtime.{require-holds, present-holds, checked_add}
use chainpipe.Programs.Escrow.{Escrow, account_at}
use chainpipe.Programs.Escrow.Weights.{owed}
use chainpipe.Programs.Escrow.Expiring.{
  Sweep, sweep_one, sweep, falls, cascade, cascaded, first_sweep, after_pass, pass_again,
  expire_counted,
}
use chainpipe.Programs.Escrow.Expiring.Closure.{AllStay, cascade-Ends, some_result}
use chainpipe.Programs.Escrow.Expiring.Fallen.{
  HasFallen, Fell, IsIndexed, Marked, meets_apart, falls_parts, stays_apart, same_node, new_bit,
}
use chainpipe.Programs.Escrow.Expiring.Marking.{one_more}

module _ (i : ℕ) (before : List (Option PipelineNode)) where
  sweep_one-Marked :
      (key : PublicKey) (j : ℕ) (s s' : Sweep)
      → sweep_one key j s ≡ ok s'
      → Marked i before s.nodes s.expired_bits
      → Marked i before s'.nodes s'.expired_bits
  unfolding sweep_one
  sweep_one-Marked key j s s' e m =
      let (node, there, e1) =
        present-holds (account_at s.nodes j) "AccountDidNotDeserialize" _ s' e in
      let (own, e2) = require-holds (text_eq node.pipeline key) "InvalidNodeAccount" _ s' e1 in
      elim (Bool-cases (falls node s.expired_bits)) [
        | inl down ↦
            let counted : expire_counted j node s ≡ ok s' = ground (arith, down, e2) in
            let (refund, summed, e3) =
              returned (checked_add 64 s.refund_total node.allocation_usdc) _ s' counted in
            let (unset, waiting, met) = falls_parts node s.expired_bits down in
            subst (λ (x : Sweep). Marked i before x.nodes x.expired_bits) (ok-injective e3)
              (one_more i before j node s.nodes s.expired_bits there unset waiting met m)
        | inr up ↦
            let same : s ≡ s' = ground (arith, up, e2) in
            subst (λ (x : Sweep). Marked i before x.nodes x.expired_bits) same m
      ]

  sweep-Marked :
      (key : PublicKey) (passed : List ℕ) (s s' : Sweep)
      → sweep key passed s ≡ ok s'
      → Marked i before s.nodes s.expired_bits
      → Marked i before s'.nodes s'.expired_bits
  unfolding sweep
  sweep-Marked key [] s s' e m =
      subst (λ (x : Sweep). Marked i before x.nodes x.expired_bits) (ok-injective e) m
  sweep-Marked key (j ∷ rest) s s' e m =
      let (t, one, e1) = returned (sweep_one key j s) _ s' e in
      sweep-Marked key rest t s' e1 (sweep_one-Marked key j s t one m)

  cascade-Marked :
      (fuel : ℕ) (key : PublicKey) (passed : List ℕ) (s s' : Sweep)
      → cascade fuel key passed s ≡ some (ok s')
      → Marked i before s.nodes s.expired_bits
      → Marked i before s'.nodes s'.expired_bits
  unfolding cascade
  cascade-Marked zero key passed s s' e m = absurd (cc)
  cascade-Marked (suc fuel) key passed s s' e m =
      let next = cascade fuel key passed in
      elim (Result-cases (sweep key passed (record s { changed = false }))) [
        | inr (t, failed) ↦
            absurd (let bad = some_result (sym (ap (after_pass next) failed) ∙ e) in cc)
        | inl (t, did) ↦
            let h = sweep-Marked key passed (record s { changed = false }) t did m in
            elim (Bool-cases t.changed) [
              | inr quiet ↦
                  let last : t ≡ s' = ok-injective (
                    some_result
                      (sym (ap (after_pass next) did ∙ ap (pass_again next t) quiet) ∙ e)) in
                  subst (λ (x : Sweep). Marked i before x.nodes x.expired_bits) last h
              | inl again ↦
                  let rest : cascade fuel key passed t ≡ some (ok s') =
                    sym (ap (after_pass next) did ∙ ap (pass_again next t) again) ∙ e in
                  cascade-Marked fuel key passed t s' rest h
            ]
      ]

  -- A pending node, not the overdue one, that no fallen node is a dependency of.
  abbrev pub IsIndependent : List (Option PipelineNode) → ℕ → Type 0
  IsIndependent after j =
      (n : PipelineNode)
      → account_at after j ≡ some n
      → is_pending n.status ≡ true
      → j ≢ i
      → (k : ℕ) → Fell i before after k
      → k < 64
      → has_bit n.dependency_mask k ≡ false

  abbrev pub AllIndependent : List (Option PipelineNode) → List ℕ → Type 0
  AllIndependent after [] = Unit
  AllIndependent after (j ∷ rest) = IsIndependent after j × AllIndependent after rest

  unmarked :
      (nodes : List (Option PipelineNode)) (bits j : ℕ) (n : PipelineNode)
      → Marked i before nodes bits
      → account_at nodes j ≡ some n
      → is_pending n.status ≡ true
      → j ≢ i
      → has_bit bits j ≡ false
  unmarked nodes bits j n m there waiting h = elim (Bool-cases (has_bit bits j)) [
    | inr off ↦ off
    | inl on ↦ absurd (elim (m.marked j on) [
      | inl own ↦ h own
      | inr f ↦
          let one = ap (λ (x : PipelineNode). is_pending x.status) (same_node f.is_there there) in
          let both : false ≡ true = sym f.not_pending ∙ one ∙ waiting in cc
    ])
  ]

  all_independent :
      (passed : List ℕ) (s : Sweep)
      → Marked i before s.nodes s.expired_bits
      → AllStay passed s
      → AllIndependent s.nodes passed
  all_independent [] s m stays = tt
  all_independent (j ∷ rest) s m (stay, stays) = (
    (λ n there waiting h k fell l.
        let off : has_bit s.expired_bits n.node_index ≡ false =
          ap (has_bit s.expired_bits) (m.indexed j n there).0
          ∙ unmarked s.nodes s.expired_bits j n m there waiting h in
        meets_apart n.dependency_mask s.expired_bits k
          (stays_apart n s.expired_bits (stay n there) waiting off) l (m.marks k fell)),
    all_independent rest s m stays,
  )

no_bit : (k : ℕ) → has_bit 0 k ≡ false
no_bit zero = refl
no_bit (suc k) = no_bit k

first_bit : (i k : ℕ) → has_bit (set_bit 0 i) k ≡ true → k ≡ i
first_bit i k e = ground (arith, e, has_bit-set_bit 0 i k, no_bit k)

not_fallen :
    (before : List (Option PipelineNode)) (k : ℕ) (f : HasFallen before before k) → true ≡ false
not_fallen before k f =
    sym f.was_pending
    ∙ ap (λ (x : PipelineNode). is_pending x.status) (same_node f.was_there f.is_there)
    ∙ f.not_pending

first-Marked :
    (i : ℕ) (nodes : List (Option PipelineNode))
    → IsIndexed nodes
    → Marked i nodes nodes (set_bit 0 i)
first-Marked i nodes h = record {
  indexed = h;
  unmoved = λ k n e w. e;
  marks = λ k fell. elim fell [
    | inl own ↦ new_bit 0 i k (sym own)
    | inr f ↦ absurd (let bad = not_fallen nodes k f in cc)
  ];
  marked = λ k on. inl (first_bit i k on);
  caused = λ k f. absurd (let bad = not_fallen nodes k f in cc);
}

-- The nodes after the loop, against those before it.
pub record IsCascade (passed : List ℕ) (i : ℕ) (before after : List (Option PipelineNode))
    : Type 0 where
  pub none_left : AllIndependent i before after passed
  pub none_besides :
      (k : ℕ) (f : HasFallen before after k)
      → (c : ℕ) × (c ≢ k) × Fell i before after c × (has_bit f.old.dependency_mask c ≡ true)
  pub others_kept :
      (k : ℕ) (n : PipelineNode)
      → account_at after k ≡ some n
      → is_pending n.status ≡ true
      → account_at before k ≡ some n

-- If the account of each node is at the place of its index, which is below 64, and the loop of
-- expire_node returns, then no other node whose account was passed is pending and depends on the
-- overdue node or on a node that fell in this loop; each node that fell depends on the overdue one
-- or on another that fell; a node that is still pending is as it was; and the refund and what is
-- still open add up to what was open before, with the allocation of the overdue node. Nodes that
-- expired in earlier transactions do not count.
pub cascaded_lem :
    (passed : List ℕ) (i : ℕ) (node : PipelineNode) (e : Escrow) (s : Sweep)
    → IsIndexed e.nodes
    → cascaded passed i node e ≡ some (ok s)
    → IsCascade passed i e.nodes s.nodes
      × (owed s.nodes + s.refund_total ≡ owed e.nodes + node.allocation_usdc)
cascaded_lem passed i node e s indexed done =
    let fuel : ℕ = suc (length e.nodes) in
    let h = cascade-Ends fuel e.key passed (first_sweep e i node) s done in
    let m =
      cascade-Marked i e.nodes fuel e.key passed (first_sweep e i node) s done
        (first-Marked i e.nodes indexed) in
    (
      record {
        none_left = all_independent i e.nodes passed s m h.stays;
        none_besides = m.caused;
        others_kept = m.unmoved;
      },
      h.passes.moved,
    )
