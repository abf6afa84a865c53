-- ===== src/Handler/Bits.antt =====
-- psmove_handler.cpp, `onButtons`: the loop over the masks reports the bits that differ.
use psmoveinput.Prelude.{
  ℕ, zero, suc, ◌+◌, ◌-◌, ◌*◌, ◌^◌, ◌<◌, ◌≤◌, min, bit, bit_and, bit_not, bit_and-pow, bit-le_one,
  bit-bit_and, bit-bit_not, true, false, not, [], leb, ◌==◌, if◌then◌else◌, ◌≡◌, ◌≢◌, refl, arith,
  ◌⊎◌, inl, inr,
}
use native.Mathlib.Nat.{pow-suc, one-le-pow, zero-add}
use psmoveinput.Common.{ControllerId, at, put, btn_gesture_right}
use psmoveinput.Handler.State.{Handler, Out, ◌>>=◌}
use psmoveinput.Handler.Keys.{report_key, report_bit, button_loop, update_buttons}

pub bit-cases : (x k : ℕ) → (bit x k ≡ 0) ⊎ (bit x k ≡ 1)
bit-cases x k = omega (arith, bit-le_one x k)

mask_test : (x k : ℕ) → not (bit_and x (2 ^ k) == 0) ≡ (bit x k == 1)
mask_test x k = elim (bit-cases x k) [
  | inl e ↦ rw (bit_and-pow, e) (ground arith)
  | inr e ↦ rw (bit_and-pow, e) (ground (arith, one-le-pow k 2))
]

-- The bits that are set in `new` and not in `old`.
fresh_bit :
    (new old k : ℕ)
    → old < 2 ^ 32
    → k < 32
    → bit (bit_and new (bit_not old)) k ≡ min (bit new k) (1 - bit old k)
fresh_bit new old k ho lt = rw (bit-bit_and, bit-bit_not old k ho lt) refl

pub pow-suc_mul : (k : ℕ) → 2 ^ k * 2 ≡ 2 ^ suc k
pow-suc_mul k = omega (arith, pow-suc 2 k)

pow_le : (n k : ℕ) → 2 ^ k ≤ 2 ^ (n + k)
pow_le zero k = rw zero-add (omega arith)
pow_le (suc n) k =
    let e : suc n + k ≡ suc (n + k) = omega arith in
    rw e (omega (arith, pow_le n k, pow-suc 2 (n + k)))

-- The loop's test passes for the bits up to 27 and fails at 28.
pub loop_goes_on : (n k : ℕ) → suc n + k ≡ 28 → leb (2 ^ k) btn_gesture_right ≡ true
loop_goes_on n k e =
    let e' : n + k ≡ 27 = omega arith in
    let bound : 2 ^ k ≤ 2 ^ 27 = rw e' at (pow_le n k) in ground arith

pub loop_ends : (k : ℕ) → 0 + k ≡ 28 → leb (2 ^ k) btn_gesture_right ≡ false
loop_ends k e = let e' : k ≡ 28 = omega arith in rw e' refl

differ : (a b : ℕ) → a ≢ b → (a == b) ≡ false
differ a b ne = ground arith

module _ {D : Type 0} (key_max : ℕ) where
  -- What `onButtons` has to report for bit k of the buttons.
  unfoldable pub report_change : ℕ → ℕ → ControllerId → ℕ → Handler D → Out (Handler D)
  report_change old new c k h =
      if bit new k == bit old k then (h, []) else report_key key_max (2 ^ k) (bit new k == 1) c h

  -- The n bits from k on, in ascending order.
  unfoldable pub report_changes : ℕ → ℕ → ℕ → ControllerId → ℕ → Handler D → Out (Handler D)
  report_changes zero old new c k h = (h, [])
  report_changes (suc n) old new c k h =
      report_change old new c k h >>= report_changes n old new c (suc k)

  button_loop_step :
      (fuel p r : ℕ) (c : ControllerId) (i : ℕ) (h : Handler D)
      → button_loop key_max (suc fuel) p r c i h ≡ (
          if leb i btn_gesture_right
          then report_bit key_max p r c i h >>= button_loop key_max fuel p r c (i * 2)
          else (h, []))
  unfolding button_loop
  button_loop_step fuel p r c i h = refl

  module _ (old new : ℕ) (ho : old < 2 ^ 32) (hn : new < 2 ^ 32) (c : ControllerId) where
    pub report_bit-eq-report_change :
        (k : ℕ) (h : Handler D)
        → k < 32
        → report_bit key_max (bit_and new (bit_not old)) (bit_and old (bit_not new)) c (2 ^ k) h
          ≡ report_change old new c k h
    unfolding report_bit report_change
    report_bit-eq-report_change k h lt =
        rw
          (
            mask_test (bit_and new (bit_not old)) k,
            mask_test (bit_and old (bit_not new)) k,
            fresh_bit new old k ho lt,
            fresh_bit old new k hn lt,
          )
          (elim (bit-cases old k) [
            | inl e ↦ elim (bit-cases new k) [ inl e' ↦ rw (e, e') refl | inr e' ↦ rw (e, e') refl ]
            | inr e ↦ elim (bit-cases new k) [ inl e' ↦ rw (e, e') refl | inr e' ↦ rw (e, e') refl ]
          ])

    button_loop-eq-report_changes :
        (n k : ℕ) (h : Handler D)
        → n + k ≡ 28
        → button_loop key_max
            (suc n)
            (bit_and new (bit_not old))
            (bit_and old (bit_not new))
            c
            (2 ^ k)
            h
          ≡ report_changes n old new c k h
    unfolding report_changes
    button_loop-eq-report_changes zero k h e = rw (button_loop_step, loop_ends k e) refl
    button_loop-eq-report_changes (suc n) k h e =
        rw
          (
            button_loop_step,
            loop_goes_on n k e,
            report_bit-eq-report_change k h (omega arith),
            pow-suc_mul k,
            button_loop-eq-report_changes n (suc k) (report_change old new c k h).0 (omega arith),
          )
          refl

  -- `onButtons` reports exactly the 28 bits that differ from the remembered ones, from the lowest
  -- up, a press where the bit is now set, and then remembers the new buttons.
  pub update_buttons-eq-report_changes :
      (new : ℕ) (c : ControllerId) (h : Handler D)
      → at h.buttons c < 2 ^ 32
      → new < 2 ^ 32
      → at h.buttons c ≢ new
      → update_buttons key_max new c h ≡ (
          report_changes 28 (at h.buttons c) new c 0 h >>= λ h'.
          (record h' { buttons = put h'.buttons c new }, []))
  unfolding update_buttons
  update_buttons-eq-report_changes new c h ho hn ne =
      rw
        (
          differ (at h.buttons c) new ne,
          button_loop-eq-report_changes (at h.buttons c) new ho hn c 28 0 h refl,
        )
        refl
