-- ===== src/Dashboard/Builder/Laws.antt =====
-- The drafts and the masks of dashboard/components/PipelineBuilder.tsx.
use chainpipe.Base.{
  ℕ, zero, suc, ◌+◌, ◌%◌, ◌^◌, ◌≤◌, ◌<◌, ◌≡◌, ◌≢◌, refl, ap, ◌⊎◌, List, [], ◌∷◌, ◌++◌, Bool, true,
  false, not, ◌||◌, ◌&&◌, Option, none, some, ltb, ◌==◌, length, arith, inl, inr, Bool-cases,
}
use chainpipe.Base.Int.{pos}
use chainpipe.Dashboard.Masks.{has_bit, set_bit, deps_of}
use chainpipe.Dashboard.Masks.Laws.{
  has_bit-set_bit, passing, deps_from-passing, set_bit_bound, pow_suc,
}
use chainpipe.Dashboard.Builder.{
  Draft, Builder, find_index, idx, includes, without, toggled, add_dep, add_deps, mask_bits,
  sent_mask,
}

find_index_bound :
    (id : ℕ) (nodes : List Draft) (i j : ℕ) → find_index id nodes i ≡ some j → j < i + length nodes
find_index_bound id [] i j e = ground arith
find_index_bound id (n ∷ nodes) i j e = ground (arith, find_index_bound id nodes (suc i) j)

-- Whether a dependency names the node at index i, and i comes before the node itself.
abbrev pub points_back : Option ℕ → ℕ → ℕ → Bool
points_back none own i = false
points_back (some di) own i = di == i && ltb di own

abbrev pub is_earlier_dep : List Draft → ℕ → List ℕ → ℕ → Bool
is_earlier_dep nodes own [] i = false
is_earlier_dep nodes own (d ∷ deps) i =
    points_back (idx nodes d) own i || is_earlier_dep nodes own deps i

add_dep_bit :
    (di : Option ℕ) (own mask i : ℕ)
    → ((j : ℕ) → di ≡ some j → j < 32)
    → has_bit (add_dep di (some own) mask) i ≡ points_back di own i || has_bit mask i
add_dep_bit none own mask i h = refl
add_dep_bit (some j) own mask i h =
    let small : j % 32 ≡ j = omega (arith, h j refl) in
    ground (arith, small, has_bit-set_bit mask j i)

add_deps_bit :
    (nodes : List Draft) (own : ℕ) (deps : List ℕ) (mask i : ℕ)
    → length nodes ≤ 32
    → has_bit (add_deps nodes (some own) deps mask) i
      ≡ is_earlier_dep nodes own deps i || has_bit mask i
add_deps_bit nodes own [] mask i h = refl
add_deps_bit nodes own (d ∷ deps) mask i h =
    let first =
      add_dep_bit (idx nodes d) own mask i (λ j e. omega (arith, find_index_bound d nodes 0 j e)) in
    ground (arith, first, add_deps_bit nodes own deps (add_dep (idx nodes d) (some own) mask) i h)

zero_or_suc : (i : ℕ) → (i ≡ 0) ⊎ ((k : ℕ) × (i ≡ suc k))
zero_or_suc zero = inl refl
zero_or_suc (suc k) = inr (k, refl)

pow_pos : (k : ℕ) → 0 < 2 ^ k
pow_pos zero = omega arith
pow_pos (suc k) = omega (arith, pow_suc k, pow_pos k)

no_bit : (i : ℕ) → has_bit 0 i ≡ false
no_bit zero = refl
no_bit (suc i) = no_bit i

add_dep_bound :
    (di : Option ℕ) (own k mask : ℕ)
    → own ≤ k
    → k ≤ 32
    → mask < 2 ^ k
    → add_dep di (some own) mask < 2 ^ k
add_dep_bound none own k mask h w l = l
add_dep_bound (some j) own k mask h w l = elim (Bool-cases (ltb j own)) [
  | inl earlier ↦
      let before : j < own = ground (arith, earlier) in
      let set : set_bit mask (j % 32) < 2 ^ k = set_bit_bound mask (j % 32) k (omega arith) l in
      ground (arith, earlier, set)
  | inr later ↦ ground (arith, later, l)
]

add_deps_bound :
    (nodes : List Draft) (own k : ℕ) (deps : List ℕ) (mask : ℕ)
    → own ≤ k
    → k ≤ 32
    → mask < 2 ^ k
    → add_deps nodes (some own) deps mask < 2 ^ k
add_deps_bound nodes own k [] mask h w l = l
add_deps_bound nodes own k (d ∷ deps) mask h w l =
    add_deps_bound nodes own k deps (add_dep (idx nodes d) (some own) mask) h w
      (add_dep_bound (idx nodes d) own k mask h w l)

-- For a node at index `own` of at most 16 nodes, the mask that the builder sends is a number below
-- 2 ^ own, as the program requires, and the dashboard reads from it exactly the indices of the
-- node's earlier dependencies, each once and in ascending order.
pub deps_of-sent_mask :
    (nodes : List Draft) (n : Draft) (own : ℕ)
    → length nodes ≤ 16
    → idx nodes n.id ≡ some own
    → (m : ℕ) × (sent_mask nodes n ≡ pos m)
      × (m < 2 ^ own)
      × (deps_of m ≡ passing (is_earlier_dep nodes own n.deps) 16 0)
unfolding sent_mask mask_bits deps_of
deps_of-sent_mask nodes n own h e =
    let m : ℕ = add_deps nodes (some own) n.deps 0 in
    let same : mask_bits nodes n ≡ m = ap (λ o. add_deps nodes o n.deps 0) e in
    let few : own < 16 = omega (arith, find_index_bound n.id nodes 0 own e) in
    let small = add_deps_bound nodes own 31 n.deps 0 (omega arith) (omega arith) (omega arith) in
    (
      m,
      ground (arith, same, small),
      add_deps_bound nodes own own n.deps 0 (omega arith) (omega arith) (pow_pos own),
      deps_from-passing m (is_earlier_dep nodes own n.deps) 16 0
          (λ j. ground (arith, add_deps_bit nodes own n.deps 0 j (omega arith), no_bit j)),
    )

includes-append : (deps : List ℕ) (d : ℕ) → includes (deps ++ d ∷ []) d ≡ true
includes-append [] d = ground arith
includes-append (e ∷ deps) d = ground (arith, includes-append deps d)

includes-without : (deps : List ℕ) (d : ℕ) → includes (without d deps) d ≡ false
includes-without [] d = refl
includes-without (e ∷ deps) d = ground (arith, includes-without deps d)

includes-without_ne :
    (deps : List ℕ) (d c : ℕ) → c ≢ d → includes (without d deps) c ≡ includes deps c
includes-without_ne [] d c h = refl
includes-without_ne (e ∷ deps) d c h = ground (arith, h, includes-without_ne deps d c h)

-- A draft and what is left of it when another is removed: all but the dependency on that one.
pub record IsLeft (id : ℕ) (old new : Draft) : Type 0 where
  pub independent : includes new.deps id ≡ false
  pub other_deps : (c : ℕ) → c ≢ id → includes new.deps c ≡ includes old.deps c
  pub same_id : new.id ≡ old.id
  pub same_skill : new.skill ≡ old.skill
  pub same_tier : new.tier ≡ old.tier
  pub same_description : new.description ≡ old.description
  pub same_input : new.input_uri ≡ old.input_uri

-- The second list is the first, in the same order, without the drafts of one id.
pub data Removed (id : ℕ) : List Draft → List Draft → Type 0 where
  at_end : Removed id [] []
  drops :
      {m : Draft} {old new : List Draft} → m.id ≡ id → Removed id old new → Removed id (m ∷ old) new
  keeps :
      {m n : Draft} {old new : List Draft}
      → m.id ≢ id
      → IsLeft id m n
      → Removed id old new
      → Removed id (m ∷ old) (n ∷ new)

includes-append_ne :
    (deps : List ℕ) (d c : ℕ) → c ≢ d → includes (deps ++ d ∷ []) c ≡ includes deps c
includes-append_ne [] d c h = ground (arith, h)
includes-append_ne (e ∷ deps) d c h = ground (arith, h, includes-append_ne deps d c h)

-- Toggling a dependency of a draft adds it if it was not there and removes it if it was; no other
-- dependency of the draft changes, and the draft keeps its id.
pub toggled_lem :
    (dep : ℕ) (n : Draft)
    → (includes (toggled dep n).deps dep ≡ not (includes n.deps dep))
      × ((c : ℕ) → c ≢ dep → includes (toggled dep n).deps c ≡ includes n.deps c)
      × ((toggled dep n).id ≡ n.id)
toggled_lem dep n = (
  ground (arith, includes-append n.deps dep, includes-without n.deps dep),
  (λ c h. ground (arith, includes-append_ne n.deps dep c h, includes-without_ne n.deps dep c h)),
  refl,
)
