-- ===== src/Handler/Motion.antt =====
-- psmove_handler.cpp: the time between two readings, the thresholds, and pointer movements.
use psmoveinput.Prelude.{
  ◌^◌, ◌*ℤ◌, abs-*ℤ, ◌*◌, ℕ, suc, ◌+◌, ◌-◌, ◌/◌, ◌%◌, ◌<◌, ◌≤◌, ◌≡◌, ◌⊎◌, arith, ℤ, pos, ◌≤ℤ◌, abs,
}
use psmoveinput.Handler.State.{Timespec}
use psmoveinput.Handler.Reports.{time_delta, apply_threshold}

-- The time in nanoseconds that a reading stands for.
abbrev pub nanos : Timespec → ℕ
nanos tp = tp.tv_sec * 1000000000 + tp.tv_nsec

-- A reading of the clock keeps its nanoseconds below one second.
abbrev pub IsReading : Timespec → Type 0
IsReading tp = tp.tv_nsec < 1000000000

abbrev pub InRange : ℕ → ℕ → ℤ → Type 0
InRange lo hi d = (pos lo ≤ℤ d) × (d ≤ℤ pos hi)

-- The computed time between two readings of the clock lies between 0 and 999 ms. It is the true
-- time without its whole seconds, in milliseconds rounded down or up, if what is left of the true
-- time without them is at most 999 ms.
pub time_delta_accurate :
    (now last : Timespec)
    → IsReading now
    → IsReading last
    → InRange 0 999 (time_delta now last)
      × (nanos last ≤ nanos now
          → (nanos now - nanos last) % 1000000000 ≤ 999000000
          → let left = (nanos now - nanos last) % 1000000000 / 1000000 in
            InRange left (left + 1) (time_delta now last))
unfolding time_delta
time_delta_accurate now last hn hl = (ground arith, λ le lt. ground arith)

-- A filtered movement is 0, or as large as the threshold and the movement itself; and 0 is kept.
pub apply_threshold_filters :
    (t d : ℤ)
    → ((apply_threshold t d ≡ pos 0) × ((d ≡ pos 0) ⊎ (pos (suc (abs d)) ≤ℤ t)))
      ⊎ ((apply_threshold t d ≡ d) × (t ≤ℤ pos (abs d)))
unfolding apply_threshold
apply_threshold_filters t d = ground arith

-- A product of a gyroscope value and a time is exact in a 64-bit `long`.
pub product_fits :
    (now last : Timespec) (g : ℤ)
    → IsReading now
    → IsReading last
    → abs g ≤ 2 ^ 31
    → abs (g *ℤ time_delta now last) < 2 ^ 63
product_fits now last g hn hl hg =
    let d : abs (time_delta now last) ≤ 999 =
      ground (arith, (time_delta_accurate now last hn hl).0) in
    let p : abs g * abs (time_delta now last) ≤ 2 ^ 31 * 999 = grind arith in
    rw (abs-*ℤ g (time_delta now last)) (omega (arith, p))
