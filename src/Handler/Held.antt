-- ===== src/Handler/Held.antt =====
-- psmove_handler.cpp, `onButtons`: the keys that are held down follow the buttons.
use psmoveinput.Prelude.{
  ℕ, zero, suc, ◌+◌, ◌^◌, ◌<◌, ◌≤◌, bit, bit_and, bit_not, Bool, ◌&&◌, not, leb, ltb, ◌==◌,
  if◌then◌else◌, ◌≡◌, refl, ap, arith, [],
}
use native.Mathlib.Decide.{ℕ_discrete}
use mathlib.Core.List.{append-nil}
use psmoveinput.Common.{ControllerId, first, second, KeyMap, at, put}
use psmoveinput.Handler.State.{Handler}
use psmoveinput.Handler.Keys.{report_key, update_buttons, loop_fuel}
use psmoveinput.Handler.Changes.{
  held, held-append, maps, report_entries-held, Keeps, Keeps-refl, Keeps-trans,
  report_entries-Keeps, button_loop-Keeps,
}
use psmoveinput.Handler.Bits.{report_change, report_changes, update_buttons-eq-report_changes}

module _ {D : Type 0} (key_max : ℕ) (old new : ℕ) (c : ControllerId) where
  pub report_change-Keeps :
      (k : ℕ) (h : Handler D) → Keeps h (report_change key_max old new c k h).0
  unfolding report_change report_key
  report_change-Keeps k h = ground (
    arith,
    Keeps-refl h,
    report_entries-Keeps key_max (2 ^ k) (bit new k == 1) c (at h.keymaps c) h,
  )

  pub report_changes-Keeps :
      (n k : ℕ) (h : Handler D) → Keeps h (report_changes key_max n old new c k h).0
  unfolding report_changes
  report_changes-Keeps zero k h = Keeps-refl h
  report_changes-Keeps (suc n) k h =
      let h' = (report_change key_max old new c k h).0 in
      Keeps-trans (report_change-Keeps k h) (report_changes-Keeps n (suc k) h')

-- The key map `m` sends button j, and no other of the 28, to `code`. (From j = 28 on: no button.)
abbrev pub Owns : KeyMap → ℕ → ℕ → Type 0
Owns m code j = (k : ℕ) → k < 28 → maps m (2 ^ k) code ≡ (k == j)

module _ {D : Type 0} (key_max code j : ℕ) (plain : code ≤ key_max) (m : KeyMap) where
  module _ (owns : Owns m code j) (old new : ℕ) (c : ControllerId) where
    report_change-held :
        (k : ℕ) (h : Handler D) (b : Bool)
        → k < 28
        → at h.keymaps c ≡ m
        → held code (report_change key_max old new c k h).1 b
          ≡ (if (k == j) && not (bit new j == bit old j) then bit new j == 1 else b)
    unfolding report_change report_key held
    report_change-held k h b lt e =
        ground (
          arith,
          owns k lt,
          report_entries-held key_max code plain (2 ^ k) (bit new k == 1) c m h b,
        )

    report_changes-held :
        (n k : ℕ) (h : Handler D) (b : Bool)
        → n + k ≡ 28
        → at h.keymaps c ≡ m
        → held code (report_changes key_max n old new c k h).1 b
          ≡ (if leb k j && ltb j 28 && not (bit new j == bit old j) then bit new j == 1 else b)
    unfolding report_changes held
    report_changes-held zero k h b e em = ground arith
    report_changes-held (suc n) k h b e em =
        let (h', xs) = report_change key_max old new c k h in
        let kept : at h'.keymaps c ≡ m =
          rw ((report_change-Keeps key_max old new c k h).keymaps) em in
        let ih = report_changes-held n (suc k) h' (held code xs b) (omega arith) kept in
        rw (held-append code xs (report_changes key_max n old new c (suc k) h').1 b)
          (ground (arith, ih, report_change-held k h b (omega arith) em))

module _ {D : Type 0} (key_max : ℕ) where
  -- The fields besides the buttons, the reading of the clock and the trigger flags are as they
  -- were.
  pub update_buttons-Keeps :
      (new : ℕ) (c : ControllerId) (h : Handler D)
      → Keeps (record h { buttons = put h.buttons c new }) (update_buttons key_max new c h).0
  unfolding update_buttons
  update_buttons-Keeps new first h = ground (
    arith,
    button_loop-Keeps key_max loop_fuel (bit_and new (bit_not h.buttons.fst))
        (bit_and h.buttons.fst (bit_not new)) first 1 h,
  )
  update_buttons-Keeps new second h = ground (
    arith,
    button_loop-Keeps key_max loop_fuel (bit_and new (bit_not h.buttons.snd))
        (bit_and h.buttons.snd (bit_not new)) second 1 h,
  )

  pub update_buttons_same :
      (new : ℕ) (c : ControllerId) (h : Handler D)
      → at h.buttons c ≡ new
      → update_buttons key_max new c h ≡ (h, [])
  unfolding update_buttons
  update_buttons_same new c h e = ground arith

  -- After an update the key that button j owns is down as the button is; with j = 28, unchanged.
  pub update_buttons-held :
      (code j new : ℕ) (c : ControllerId) (h : Handler D) (b : Bool)
      → code ≤ key_max
      → Owns (at h.keymaps c) code j
      → at h.buttons c < 2 ^ 32
      → new < 2 ^ 32
      → held code (update_buttons key_max new c h).1 b
        ≡ (if ltb j 28 && not (bit new j == bit (at h.buttons c) j) then bit new j == 1 else b)
  unfolding held
  update_buttons-held code j new c h b plain owns ho hn = elim (ℕ_discrete (at h.buttons c) new) [
    | yes e ↦ rw (update_buttons_same new c h e) (ground (arith, ap (λ (x : ℕ). bit x j) e))
    | no ne ↦ rw (update_buttons-eq-report_changes key_max new c h ho hn ne) (
        rw append-nil (
          ground (
            arith,
            report_changes-held key_max code j plain (at h.keymaps c) owns (at h.buttons c) new c 28
                0 h b refl refl,
          )))
  ]
