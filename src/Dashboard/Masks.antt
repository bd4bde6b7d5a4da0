-- ===== src/Dashboard/Masks.antt =====
-- Dependency masks: depsOf of dashboard/lib/adapt.ts, with the mask given as the number that its
-- text stands for, and the bit that the builder sets.
pub mod Laws
use chainpipe.Base.{ℕ, zero, suc, ◌+◌, ◌*◌, ◌/◌, ◌%◌, List, [], ◌∷◌, Bool, ◌==◌, if◌then◌else◌}

-- `m >> i` of a number that is not negative.
abbrev pub shift_right : ℕ → ℕ → ℕ
shift_right m zero = m
shift_right m (suc i) = shift_right (m / 2) i

-- `((m >> i) & 1) === 1`
abbrev pub has_bit : ℕ → ℕ → Bool
has_bit m i = shift_right m i % 2 == 1

-- `m | (1 << i)`, bit by bit.
abbrev pub set_bit : ℕ → ℕ → ℕ
set_bit m zero = (m / 2) * 2 + 1
set_bit m (suc i) = set_bit (m / 2) i * 2 + m % 2

-- The loop: k rounds are left, the next index is i.
abbrev pub deps_from : ℕ → ℕ → ℕ → List ℕ
deps_from m zero i = []
deps_from m (suc k) i = let rest = deps_from m k (suc i) in if has_bit m i then i ∷ rest else rest

unfoldable pub deps_of : ℕ → List ℕ
deps_of m = deps_from m 16 0
