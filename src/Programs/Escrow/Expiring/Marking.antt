-- ===== src/Programs/Escrow/Expiring/Marking.antt =====
-- One more node that falls in the loop of expire_node of programs/dag_escrow/src/lib.rs.
use chainpipe.Base.{
  ℕ, ◌<◌, ◌≡◌, ◌≢◌, refl, sym, ap, subst, ◌∙◌, true, false, List, Option, some, inl, inr, set,
}
use chainpipe.Sdk.Accounts.{PipelineNode, is_pending}
use chainpipe.Dashboard.Masks.{has_bit, set_bit}
use chainpipe.Programs.Escrow.{account_at, meets}
use chainpipe.Programs.Escrow.Weights.{account_at-set_self, account_at-set_ne}
use chainpipe.Programs.Escrow.Expiring.{expired_node}
use chainpipe.Programs.Escrow.Expiring.Fallen.{
  HasFallen, Fell, IsIndexed, Marked, meets_common, same_node, same_or_not, new_bit, old_bit,
  other_bit,
}

module _ (i : ℕ) (before : List (Option PipelineNode)) where
  -- One more node falls, at the place j of a pending node that the bits meet.
  module _ (j : ℕ) (node : PipelineNode) (nodes : List (Option PipelineNode)) (bits : ℕ)
      (there : account_at nodes j ≡ some node) (unset : has_bit bits node.node_index ≡ false)
      (waiting : is_pending node.status ≡ true) (met : meets node.dependency_mask bits ≡ true)
      (m : Marked i before nodes bits) where
    abbrev later : List (Option PipelineNode)
    later = set nodes j (some (expired_node node))

    here : account_at later j ≡ some (expired_node node)
    here = account_at-set_self nodes j node (some (expired_node node)) there

    elsewhere : (k : ℕ) → j ≢ k → account_at later k ≡ account_at nodes k
    elsewhere k h = account_at-set_ne nodes j k (some (expired_node node)) h

    still_fallen : (k : ℕ) → HasFallen before nodes k → HasFallen before later k
    still_fallen k f = record {
      old = f.old;
      new = f.new;
      was_there = f.was_there;
      was_pending = f.was_pending;
      is_there =
          elsewhere k (λ e.
            let other : account_at nodes j ≡ some f.new = ap (account_at nodes) e ∙ f.is_there in
            let one = ap (λ (n : PipelineNode). is_pending n.status) (same_node there other) in
            let both : true ≡ false = sym waiting ∙ one ∙ f.not_pending in cc)
          ∙ f.is_there;
      not_pending = f.not_pending;
    }

    still-Fell : (k : ℕ) → Fell i before nodes k → Fell i before later k
    still-Fell k (inl own) = inl own
    still-Fell k (inr f) = inr (still_fallen k f)

    falls_now : HasFallen before later j
    falls_now = record {
      old = node;
      new = expired_node node;
      was_there = m.unmoved j node there waiting;
      was_pending = waiting;
      is_there = here;
      not_pending = refl;
    }

    -- A node that is fallen afterwards is the new one or was fallen already.
    fallen_before : (k : ℕ) → j ≢ k → HasFallen before later k → HasFallen before nodes k
    fallen_before k h f = record {
      old = f.old;
      new = f.new;
      was_there = f.was_there;
      was_pending = f.was_pending;
      is_there = sym (elsewhere k h) ∙ f.is_there;
      not_pending = f.not_pending;
    }

    own_index : node.node_index ≡ j
    own_index = (m.indexed j node there).0

    later-IsIndexed : IsIndexed later
    later-IsIndexed k n e = elim (same_or_not j k) [
      | inl same ↦
          let one : expired_node node ≡ n = same_node (ap (account_at later) (sym same) ∙ here) e in
          subst (λ (x : PipelineNode). (x.node_index ≡ k) × (k < 64)) one
            (subst (λ x. (node.node_index ≡ x) × (x < 64)) same (m.indexed j node there))
      | inr other ↦ m.indexed k n (sym (elsewhere k other) ∙ e)
    ]

    unmoved_later :
        (k : ℕ) (n : PipelineNode)
        → account_at later k ≡ some n
        → is_pending n.status ≡ true
        → account_at before k ≡ some n
    unmoved_later k n e w = elim (same_or_not j k) [
      | inl same ↦
          let one : expired_node node ≡ n = same_node (ap (account_at later) (sym same) ∙ here) e in
          let down : false ≡ true = ap (λ (x : PipelineNode). is_pending x.status) one ∙ w in
          absurd (cc)
      | inr other ↦ m.unmoved k n (sym (elsewhere k other) ∙ e) w
    ]

    marks_later : (k : ℕ) → Fell i before later k → has_bit (set_bit bits node.node_index) k ≡ true
    marks_later k fell = elim (same_or_not j k) [
      | inl same ↦ new_bit bits node.node_index k (own_index ∙ same)
      | inr other ↦
          let f : Fell i before nodes k = elim fell [
            | inl own ↦ inl own
            | inr f ↦ inr (fallen_before k other f)
          ] in
          old_bit bits node.node_index k (m.marks k f)
    ]

    marked_later : (k : ℕ) → has_bit (set_bit bits node.node_index) k ≡ true → Fell i before later k
    marked_later k on = elim (same_or_not j k) [
      | inl same ↦ inr (subst (HasFallen before later) same falls_now)
      | inr other ↦
          still-Fell k
            (m.marked k (other_bit bits node.node_index k (λ e. other (sym own_index ∙ e)) on))
    ]

    caused_later :
        (k : ℕ) (f : HasFallen before later k)
        → (c : ℕ) × (c ≢ k) × Fell i before later c × (has_bit f.old.dependency_mask c ≡ true)
    unfolding falls_now fallen_before
    caused_later k f = elim (same_or_not j k) [
      | inl same ↦
          let (c, l, needs, fallen) = meets_common node.dependency_mask bits met in
          let old : node ≡ f.old =
            same_node (ap (account_at before) (sym same) ∙ falls_now.was_there) f.was_there in
          (
            c,
            (λ e.
                let on = ap (has_bit bits) (own_index ∙ same ∙ sym e) ∙ fallen in
                let both : false ≡ true = sym unset ∙ on in cc),
            still-Fell c (m.marked c fallen),
            subst (λ (x : PipelineNode). has_bit x.dependency_mask c ≡ true) old needs,
          )
      | inr other ↦
          let (c, apart, fell, needs) = m.caused k (fallen_before k other f) in
          (c, apart, still-Fell c fell, needs)
    ]

    pub one_more : Marked i before later (set_bit bits node.node_index)
    one_more = record {
      indexed = later-IsIndexed;
      unmoved = unmoved_later;
      marks = marks_later;
      marked = marked_later;
      caused = caused_later;
    }
