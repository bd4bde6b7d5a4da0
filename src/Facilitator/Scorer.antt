-- ===== src/Facilitator/Scorer.antt =====
-- facilitator/src/scorer.ts. `Math.round(200 + frac * 800)` with frac = remaining / 3000 at most 1:
-- 200 + 4 * remaining / 15 is never within 1 / 30 of a half, so the rounding of the double division
-- cannot show, and whole numbers give the same value.
use chainpipe.Base.{ℕ, ◌+◌, ◌-◌, ◌*◌, ◌/◌, ◌≤◌, ◌≡◌, arith, min}

-- `Math.max(0, deadlineSlot - currentSlot)` is the truncated difference.
unfoldable pub score_delta : ℕ → ℕ → ℕ
score_delta current_slot deadline_slot =
    200 + (8 * min (deadline_slot - current_slot) 3000 + 15) / 30

-- The delta lies between 200 and 1000, so it fits the i16 that the program takes.
pub score_delta_bounds : (c d : ℕ) → (200 ≤ score_delta c d) × (score_delta c d ≤ 1000)
unfolding score_delta
score_delta_bounds c d = (omega arith, omega arith)

-- The delta never grows as the slot does, and never falls as the deadline grows.
pub score_delta_mono : (c c' d d' : ℕ) → c ≤ c' → d' ≤ d → score_delta c' d' ≤ score_delta c d
unfolding score_delta
score_delta_mono c c' d d' h k = omega arith

pub score_delta_overdue : (c d : ℕ) → d ≤ c → score_delta c d ≡ 200
unfolding score_delta
score_delta_overdue c d h = omega arith

pub score_delta_early : (c d : ℕ) → c + 3000 ≤ d → score_delta c d ≡ 1000
unfolding score_delta
score_delta_early c d h = omega arith
