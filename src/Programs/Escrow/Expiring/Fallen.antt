-- ===== src/Programs/Escrow/Expiring/Fallen.antt =====
-- Which nodes fall with an overdue one in expire_node of programs/dag_escrow/src/lib.rs, told by the
-- nodes before and after its loop, and what the loop knows of them by its bits.
use chainpipe.Base.{
  ℕ, zero, suc, ◌<◌, ◌≡◌, ◌≢◌, sym, ◌∙◌, ◌⊎◌, true, false, List, Option, some, inl, inr, arith,
  ◌==◌, ◌&&◌, Bool-cases,
}
use chainpipe.Sdk.Accounts.{PipelineNode, is_pending}
use chainpipe.Dashboard.Masks.{has_bit, set_bit}
use chainpipe.Dashboard.Masks.Laws.{has_bit-set_bit}
use chainpipe.Programs.Escrow.{account_at, meets, meets_below}
use chainpipe.Programs.Escrow.Expiring.{falls}

-- A node that was pending before and is not any more.
pub record HasFallen (before after : List (Option PipelineNode)) (k : ℕ) : Type 0 where
  pub old : PipelineNode
  pub new : PipelineNode
  pub was_there : account_at before k ≡ some old
  pub was_pending : is_pending old.status ≡ true
  pub is_there : account_at after k ≡ some new
  pub not_pending : is_pending new.status ≡ false

-- The overdue node itself, or one that fell with it.
abbrev pub Fell : ℕ → List (Option PipelineNode) → List (Option PipelineNode) → ℕ → Type 0
Fell i before after k = (k ≡ i) ⊎ HasFallen before after k

-- The account of each node is at the place of its index, which has a bit in a mask.
abbrev pub IsIndexed : List (Option PipelineNode) → Type 0
IsIndexed nodes =
    (k : ℕ) (n : PipelineNode) → account_at nodes k ≡ some n → (n.node_index ≡ k) × (k < 64)

meets_below_bit :
    (w a b k : ℕ) → meets_below w a b ≡ false → k < w → has_bit b k ≡ true → has_bit a k ≡ false
meets_below_bit zero a b k h l on = absurd (omega (arith, l))
meets_below_bit (suc w) a b k h l on = elim (Bool-cases (k == w)) [
  | inl same ↦ let there : k ≡ w = ground (arith, same) in ground (arith, there, h, on)
  | inr other ↦
      let below : k < w = ground (arith, other, l) in
      meets_below_bit w a b k (ground (arith, h)) below on
]

common_bit :
    (w a b : ℕ)
    → meets_below w a b ≡ true
    → (k : ℕ) × (k < w) × (has_bit a k ≡ true) × (has_bit b k ≡ true)
common_bit zero a b h = absurd (cc)
common_bit (suc w) a b h = elim (Bool-cases (has_bit a w && has_bit b w)) [
  | inl both ↦ (w, omega arith, ground (arith, both), ground (arith, both))
  | inr neither ↦
      let (k, l, one, two) = common_bit w a b (ground (arith, h, neither)) in
      (k, omega (arith, l), one, two)
]

pub meets_common :
    (a b : ℕ) → meets a b ≡ true → (k : ℕ) × (k < 64) × (has_bit a k ≡ true) × (has_bit b k ≡ true)
unfolding meets
meets_common a b h = common_bit 64 a b h

pub meets_apart :
    (a b k : ℕ) → meets a b ≡ false → k < 64 → has_bit b k ≡ true → has_bit a k ≡ false
unfolding meets
meets_apart a b k h l on = meets_below_bit 64 a b k h l on

pub falls_parts :
    (node : PipelineNode) (bits : ℕ)
    → falls node bits ≡ true
    → (has_bit bits node.node_index ≡ false)
      × (is_pending node.status ≡ true)
      × (meets node.dependency_mask bits ≡ true)
unfolding falls
falls_parts node bits h = ground (arith, h)

pub stays_apart :
    (node : PipelineNode) (bits : ℕ)
    → falls node bits ≡ false
    → is_pending node.status ≡ true
    → has_bit bits node.node_index ≡ false
    → meets node.dependency_mask bits ≡ false
unfolding falls
stays_apart node bits h w off = ground (arith, h, w, off)

-- What the loop knows of its bits and its nodes, against the nodes it started with.
pub record Marked (i : ℕ) (before nodes : List (Option PipelineNode)) (bits : ℕ) : Type 0 where
  pub indexed : IsIndexed nodes
  pub unmoved :
      (k : ℕ) (n : PipelineNode)
      → account_at nodes k ≡ some n
      → is_pending n.status ≡ true
      → account_at before k ≡ some n
  pub marks : (k : ℕ) → Fell i before nodes k → has_bit bits k ≡ true
  pub marked : (k : ℕ) → has_bit bits k ≡ true → Fell i before nodes k
  pub caused :
      (k : ℕ) (fallen : HasFallen before nodes k)
      → (c : ℕ) × (c ≢ k) × Fell i before nodes c × (has_bit fallen.old.dependency_mask c ≡ true)

pub same_node : {x : Option PipelineNode} {a b : PipelineNode} → x ≡ some a → x ≡ some b → a ≡ b
same_node p q = let both = sym p ∙ q in cc

pub same_or_not : (j k : ℕ) → (j ≡ k) ⊎ (j ≢ k)
same_or_not j k = elim (Bool-cases (j == k)) [
  | inl same ↦ inl (ground (arith, same))
  | inr other ↦ inr (λ e. ground (arith, other, e))
]

pub new_bit : (bits j k : ℕ) → j ≡ k → has_bit (set_bit bits j) k ≡ true
new_bit bits j k e = ground (arith, e, has_bit-set_bit bits j k)

pub old_bit : (bits j k : ℕ) → has_bit bits k ≡ true → has_bit (set_bit bits j) k ≡ true
old_bit bits j k e = ground (arith, e, has_bit-set_bit bits j k)

pub other_bit : (bits j k : ℕ) → j ≢ k → has_bit (set_bit bits j) k ≡ true → has_bit bits k ≡ true
other_bit bits j k h e = ground (arith, h, e, has_bit-set_bit bits j k)
