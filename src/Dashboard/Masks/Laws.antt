-- ===== src/Dashboard/Masks/Laws.antt =====
-- Setting and reading the bits of a mask, for dashboard/lib/adapt.ts.
use chainpipe.Base.{
  ℕ, zero, suc, ◌+◌, ◌*◌, ◌/◌, ◌%◌, ◌^◌, ◌<◌, ◌≡◌, refl, List, [], ◌∷◌, Bool, ◌||◌, ◌==◌,
  if◌then◌else◌, arith,
}
use native.Mathlib.Numerals.{unary_clauses}
use chainpipe.Dashboard.Masks.{has_bit, set_bit, deps_from}

pub has_bit-set_bit : (m i j : ℕ) → has_bit (set_bit m i) j ≡ (i == j) || has_bit m j
has_bit-set_bit m zero zero = ground arith
has_bit-set_bit m zero (suc j) =
    let half : ((m / 2) * 2 + 1) / 2 ≡ m / 2 = omega arith in ground (arith, half)
has_bit-set_bit m (suc i) zero = ground arith
has_bit-set_bit m (suc i) (suc j) =
    let half : (set_bit (m / 2) i * 2 + m % 2) / 2 ≡ set_bit (m / 2) i = omega arith in
    ground (arith, half, has_bit-set_bit (m / 2) i j)

-- The numbers from i on, k of them, that pass a test.
abbrev pub passing : (ℕ → Bool) → ℕ → ℕ → List ℕ
passing f zero i = []
passing f (suc k) i = let rest = passing f k (suc i) in if f i then i ∷ rest else rest

pub deps_from-passing :
    (m : ℕ) (f : ℕ → Bool) (k i : ℕ)
    → ((j : ℕ) → has_bit m j ≡ f j)
    → deps_from m k i ≡ passing f k i
deps_from-passing m f zero i h = refl
deps_from-passing m f (suc k) i h = ground (arith, h i, deps_from-passing m f k (suc i) h)

pub pow_suc : (k : ℕ) → 2 ^ suc k ≡ 2 * 2 ^ k
pow_suc k = simp unary_clauses (omega arith)

pub set_bit_bound : (m i k : ℕ) → i < k → m < 2 ^ k → set_bit m i < 2 ^ k
set_bit_bound m i zero h l = absurd (omega arith)
set_bit_bound m zero (suc k) h l = omega (arith, pow_suc k)
set_bit_bound m (suc i) (suc k) h l =
    let half : m / 2 < 2 ^ k = omega (arith, pow_suc k) in
    omega (arith, pow_suc k, set_bit_bound (m / 2) i k (omega arith) half)
