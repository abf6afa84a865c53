-- ===== src/Threads/Loop.antt =====
-- psmove_handler.cpp, `onButtons`: what the rounds of its loop that are left will do to a key, whatever
-- happens in between to the rest of the handler.
use psmoveinput.Prelude.{
  ℕ, zero, suc, ◌*◌, ◌^◌, ◌<◌, ◌≤◌, bit, bit_and, bit_not, Bool, true, false, not, leb, ltb, ◌==◌,
  ◌&&◌, if◌then◌else◌, ◌≡◌, refl, sym, ◌∙◌, ap, arith, Bool-cases, inl, inr,
}
use mathlib.Core.List.{append-nil}
use native.Mathlib.Nat.{pow-le-pow_right}
use psmoveinput.Common.{ControllerId, KeyMap, at, btn_gesture_right}
use psmoveinput.Handler.{Handler, report_bit, report_key, button_loop, update_buttons, loop_fuel}
use psmoveinput.Handler.Changes.{held, held-append, maps, report_entries-held, report_bit-Keeps}
use psmoveinput.Handler.Held.{Owns, update_buttons-held}

-- The rounds from `i` on, for a key map `m` and a key that is held or not before.
unfoldable pub bit_held : ℕ → KeyMap → ℕ → ℕ → ℕ → Bool → Bool
bit_held code m pressed released i b =
    if not (bit_and pressed i == 0)
    then (if maps m i code then true else b)
    else if not (bit_and released i == 0)
    then (if maps m i code then false else b)
    else b

unfoldable pub loop_held : ℕ → KeyMap → ℕ → ℕ → ℕ → ℕ → Bool → Bool
loop_held code m zero pressed released i b = b
loop_held code m (suc fuel) pressed released i b =
    let rest =
      loop_held code m fuel pressed released (i * 2) (bit_held code m pressed released i b) in
    if leb i btn_gesture_right then rest else b

as_button :
    (j old new : ℕ)
    → j < 28
    → (if ltb j 28 && not (bit new j == bit old j) then bit new j == 1 else bit old j == 1)
      ≡ (bit new j == 1)
as_button j old new lt = ground arith

module _ {D : Type 0} (key_max code : ℕ) (plain : code ≤ key_max) where
  pub report_bit-held :
      (p r : ℕ) (c : ControllerId) (i : ℕ) (h : Handler D) (b : Bool)
      → held code (report_bit key_max p r c i h).1 b ≡ bit_held code (at h.keymaps c) p r i b
  unfolding report_bit report_key held bit_held
  report_bit-held p r c i h b = ground (
    arith,
    report_entries-held key_max code plain i true c (at h.keymaps c) h b,
    report_entries-held key_max code plain i false c (at h.keymaps c) h b,
  )

  button_loop-held :
      (fuel p r : ℕ) (c : ControllerId) (i : ℕ) (h : Handler D) (m : KeyMap) (b : Bool)
      → at h.keymaps c ≡ m
      → held code (button_loop key_max fuel p r c i h).1 b ≡ loop_held code m fuel p r i b
  unfolding button_loop held loop_held
  button_loop-held zero p r c i h m b e = refl
  button_loop-held (suc fuel) p r c i h m b e =
      let (h', xs) = report_bit key_max p r c i h in
      let e' : at h'.keymaps c ≡ m =
        ap (λ k. at k c) (report_bit-Keeps key_max p r c i h).keymaps ∙ e in
      let ih = button_loop-held fuel p r c (i * 2) h' m (held code xs b) e' in
      let one = report_bit-held p r c i h b in
      elim (Bool-cases (leb i btn_gesture_right)) [
        | inl on ↦ rw on (
            held-append code xs (button_loop key_max fuel p r c (i * 2) h').1 b
            ∙ ih
            ∙ rw e at (ap (loop_held code m fuel p r (i * 2)) one))
        | inr off ↦ rw off refl
      ]

  update_buttons-loop :
      (new : ℕ) (c : ControllerId) (h : Handler D)
      → (at h.buttons c == new) ≡ false
      → let old = at h.buttons c in
        (update_buttons key_max new c h).1
        ≡ (button_loop key_max loop_fuel
            (bit_and new (bit_not old))
            (bit_and old (bit_not new))
            c
            1
            h).1
  unfolding update_buttons
  update_buttons-loop new c h ne = rw ne (append-nil _)

  -- The whole loop leaves the key as its button will be.
  pub whole_loop_held :
      (j new : ℕ) (c : ControllerId) (h : Handler D) (m : KeyMap)
      → at h.keymaps c ≡ m
      → Owns m code j
      → j < 28
      → at h.buttons c < 2 ^ 32
      → new < 2 ^ 32
      → (at h.buttons c == new) ≡ false
      → let old = at h.buttons c in
        loop_held code m loop_fuel
          (bit_and new (bit_not old))
          (bit_and old (bit_not new))
          1
          (bit old j == 1)
        ≡ (bit new j == 1)
  whole_loop_held j new c h m e owns lt ho hn ne =
      let old = at h.buttons c in
      let loop =
        button_loop-held loop_fuel (bit_and new (bit_not old)) (bit_and old (bit_not new)) c 1 h m
          (bit old j == 1) e in
      let updated =
        update_buttons-held key_max code j new c h (bit old j == 1) plain (rw e owns) ho hn in
      sym loop
      ∙ ap (λ xs. held code xs (bit old j == 1)) (sym (update_buttons-loop new c h ne))
      ∙ updated
      ∙ as_button j old new lt

-- A key that no button of the map is sent to stays as it is.
pub foreign_bit_held :
    (code : ℕ) (m : KeyMap) (p r k : ℕ) (b : Bool)
    → Owns m code 28
    → k < 28
    → bit_held code m p r (2 ^ k) b ≡ b
unfolding bit_held
foreign_bit_held code m p r k b owns lt = ground (arith, owns k lt)

-- The rounds stand at one of the 28 bits.
pub round_below : (k : ℕ) → leb (2 ^ k) btn_gesture_right ≡ true → k < 28
round_below k on = elim (Bool-cases (ltb k 28)) [
  | inl lt ↦ ground arith
  | inr ge ↦
      let le : 28 ≤ k = ground arith in
      let bound : 2 ^ 28 ≤ 2 ^ k = pow-le-pow_right (omega arith) le in absurd (ground arith)
]
