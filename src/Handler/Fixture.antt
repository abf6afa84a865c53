-- ===== src/Handler/Fixture.antt =====
-- psmove_handler.cpp: a handler with small key maps, coefficients that are whole numbers, and runs
-- of it.
use psmoveinput.Prelude.{
  ℕ, suc, ◌<◌, ◌≡◌, refl, arith, List, [], ◌∷◌, true, ℤ, pos, ◌*ℤ◌, zero-*ℤ, All, zero, Bool, sym,
  false, ◌&&◌, not, Bool-cases, inl, inr,
}
use native.Mathlib.Decide.{ℕ_discrete}
use psmoveinput.Common.{KeyMap, MoveCoeffs, first, second, btn_gesture_up}
use psmoveinput.Handler.State.{Handler, Timespec, new}
use psmoveinput.Handler.Changes.{maps}
use psmoveinput.Handler.Following.{IsOwner}
use psmoveinput.Handler.Held.{Owns}
use psmoveinput.Handler.Session.{Report, gyro, swing, press, IsInt32}
use psmoveinput.Handler.Runs.{AtRest}

-- `KEY_MAX` of <linux/input.h>.
abbrev pub key_max : ℕ
key_max = 767

-- Whole numbers stand for the coefficients.
unfoldable pub scale : ℤ → ℤ → ℤ
scale n c = n *ℤ c

pub scale_rests : AtRest scale
unfolding scale
scale_rests c = zero-*ℤ c

-- Square of the first controller is mapped to a key, its disconnect button to the end; the second
-- controller has a gesture trigger and a key for the gesture up.
abbrev pub keymap1 : KeyMap
keymap1 = record { pscode = 128; lincode = 30 } ∷ record { pscode = 65536; lincode = 768 } ∷ []

abbrev pub keymap2 : KeyMap
keymap2 =
    record { pscode = 1048576; lincode = 770 }
    ∷ record { pscode = btn_gesture_up; lincode = 103 }
    ∷ []

abbrev pub coeffs : MoveCoeffs ℤ
coeffs = record { cx = pos 1; cy = pos 2 }

abbrev pub start : Handler ℤ
start = new key_max keymap1 keymap2 coeffs (pos 5) (pos 100)

abbrev pub time : ℕ → ℕ → Timespec
time s n = record { tv_sec = s; tv_nsec = n }

-- Square goes down, the pointer moves, the gesture trigger goes down, and a gesture is made.
abbrev pub session : List Report
session =
    press (time 1 1) (time 1 2) 128 first
    ∷ gyro (time 1 10000000) (pos 3) (pos 4)
    ∷ gyro (time 1 20000000) (pos 3) (pos 4)
    ∷ press (time 1 3) (time 1 4) 1048576 second
    ∷ swing (time 2 0) (time 2 1) (time 2 2) (pos 9) (pos 9)
    ∷ swing (time 2 1) (time 2 100000001) (time 2 2) (pos 9) (pos 9)
    ∷ []

pub session_range : All IsInt32 session
session_range = ground arith

abbrev same : Bool → Bool → Bool
same true b = b
same false b = not b

same-eq : (a b : Bool) → same a b ≡ true → a ≡ b
same-eq true b e = sym e
same-eq false true e = ground arith
same-eq false false e = refl

-- Two tests give the same for all numbers below a bound.
agree : ℕ → (ℕ → Bool) → (ℕ → Bool) → Bool
agree zero f g = true
agree (suc n) f g = same (f n) (g n) && agree n f g

agree_lem : (n : ℕ) (f g : ℕ → Bool) → agree n f g ≡ true → (k : ℕ) → k < n → f k ≡ g k
unfolding agree
agree_lem zero f g e k lt = absurd (omega (arith, lt))
agree_lem (suc n) f g e k lt = elim (Bool-cases (same (f n) (g n))) [
  | inl here ↦ elim (ℕ_discrete k n) [
    | yes eq ↦ rw eq (same-eq (f n) (g n) here)
    | no ne ↦ agree_lem n f g (ground arith) k (omega arith)
  ]
  | inr differs ↦ absurd (ground arith)
]

pub keymaps-IsOwner : IsOwner (record { fst = keymap1; snd = keymap2 }) first 30 7
unfolding maps agree
keymaps-IsOwner = record {
  below = omega arith;
  own = agree_lem 28 _ _ refl;
  other = agree_lem 28 _ _ refl;
}

-- The trigger of the first controller is its move trigger.
abbrev pub trigger_map : KeyMap
trigger_map =
    record { pscode = 128; lincode = 30 } ∷ record { pscode = 1048576; lincode = 769 } ∷ []

pub trigger_map-Owns : Owns trigger_map 769 20
unfolding maps agree
trigger_map-Owns = agree_lem 28 _ _ refl
