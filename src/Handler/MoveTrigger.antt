-- ===== src/Handler/MoveTrigger.antt =====
-- psmove_handler.cpp, `onButtons`: the move trigger.
use native.Mathlib.Decide.{ℕ_discrete}
use psmoveinput.Prelude.{
  ℕ, zero, suc, ◌+◌, ◌^◌, ◌<◌, bit, Bool, true, false, ◌&&◌, not, leb, ltb, ◌==◌, if◌then◌else◌,
  ◌≡◌, ◌≢◌, ◌∙◌, refl, arith, [], ◌∷◌,
}
use psmoveinput.Common.{
  ControllerId, first, second, KeyMap, KeyMapEntry, at, key_psmove_move_trigger,
}
use psmoveinput.Handler.State.{Handler}
use psmoveinput.Handler.Keys.{
  handle_special_keys, report_entry, report_entries, report_key, update_buttons,
}
use psmoveinput.Handler.Changes.{maps}
use psmoveinput.Handler.Bits.{report_change, report_changes, update_buttons-eq-report_changes}
use psmoveinput.Handler.Held.{report_changes-Keeps, Owns, report_change-Keeps, update_buttons_same}
use psmoveinput.Handler.Following.{down}

module _ {D : Type 0} (key_max : ℕ) where
  -- A button of the first controller sets the trigger where it is mapped to it.
  entry_trigger :
      (button : ℕ) (pressed : Bool) (e : KeyMapEntry) (h : Handler D)
      → (report_entry key_max button pressed first e h).0.move_trigger ≡ (
          if e.pscode == button && e.lincode == key_psmove_move_trigger key_max
          then pressed
          else h.move_trigger)
  unfolding report_entry handle_special_keys
  entry_trigger button true e h = ground arith
  entry_trigger button false e h = ground arith

  entries_trigger :
      (button : ℕ) (pressed : Bool) (m : KeyMap) (h : Handler D)
      → (report_entries key_max button pressed first m h).0.move_trigger
        ≡ (if maps m button (key_psmove_move_trigger key_max) then pressed else h.move_trigger)
  unfolding maps report_entries
  entries_trigger button pressed [] h = refl
  entries_trigger button pressed (e ∷ rest) h =
      let h' = (report_entry key_max button pressed first e h).0 in
      ground (arith, entries_trigger button pressed rest h', entry_trigger button pressed e h)

  -- A button of the second controller leaves it.
  entry_leaves :
      (button : ℕ) (pressed : Bool) (e : KeyMapEntry) (h : Handler D)
      → (report_entry key_max button pressed second e h).0.move_trigger ≡ h.move_trigger
  unfolding report_entry handle_special_keys
  entry_leaves button true e h = ground arith
  entry_leaves button false e h = ground arith

  entries_leave :
      (button : ℕ) (pressed : Bool) (m : KeyMap) (h : Handler D)
      → (report_entries key_max button pressed second m h).0.move_trigger ≡ h.move_trigger
  unfolding report_entries
  entries_leave button pressed [] h = refl
  entries_leave button pressed (e ∷ rest) h =
      let h' = (report_entry key_max button pressed second e h).0 in
      entries_leave button pressed rest h' ∙ entry_leaves button pressed e h

  module _ (old new : ℕ) where
    changes_leave :
        (n k : ℕ) (h : Handler D)
        → (report_changes key_max n old new second k h).0.move_trigger ≡ h.move_trigger
    unfolding report_changes report_change report_key
    changes_leave zero k h = refl
    changes_leave (suc n) k h =
        let h' = (report_change key_max old new second k h).0 in
        ground (
          arith,
          changes_leave n (suc k) h',
          entries_leave (2 ^ k) (bit new k == 1) h.keymaps.snd h,
        )

    module _ (j : ℕ) (m : KeyMap) (owns : Owns m (key_psmove_move_trigger key_max) j) where
      change_trigger :
          (k : ℕ) (h : Handler D)
          → k < 28
          → h.keymaps.fst ≡ m
          → (report_change key_max old new first k h).0.move_trigger
            ≡ (if (k == j) && not (bit new j == bit old j) then bit new j == 1 else h.move_trigger)
      unfolding report_change report_key
      change_trigger k h lt e =
          ground (arith, owns k lt, entries_trigger (2 ^ k) (bit new k == 1) m h)

      changes_trigger :
          (n k : ℕ) (h : Handler D)
          → n + k ≡ 28
          → h.keymaps.fst ≡ m
          → (report_changes key_max n old new first k h).0.move_trigger ≡ (
              if leb k j && ltb j 28 && not (bit new j == bit old j)
              then bit new j == 1
              else h.move_trigger)
      unfolding report_changes
      changes_trigger zero k h e em = ground arith
      changes_trigger (suc n) k h e em =
          let h' = (report_change key_max old new first k h).0 in
          let kept : h'.keymaps.fst ≡ m =
            rw ((report_change-Keeps key_max old new first k h).keymaps) em in
          ground (
            arith,
            changes_trigger n (suc k) h' (omega arith) kept,
            change_trigger k h (omega arith) em,
          )

  -- Take a button below 28 that is the only one of the first controller mapped to the move trigger.
  -- When onButtons is told of 32-bit patterns, for either controller, then after its loop the trigger
  -- is pressed exactly if that button of the first controller is down, if it was so before.
  pub move_trigger_follows :
      (new j : ℕ) (c : ControllerId) (h : Handler D)
      → j < 28
      → Owns h.keymaps.fst (key_psmove_move_trigger key_max) j
      → at h.buttons c < 2 ^ 32
      → new < 2 ^ 32
      → h.move_trigger ≡ down first j h
      → let h' = (update_buttons key_max new c h).0 in h'.move_trigger ≡ down first j h'
  move_trigger_follows new j c h below owns rh rn same = elim (ℕ_discrete (at h.buttons c) new) [
    | yes e ↦ rw (update_buttons_same key_max new c h e) same
    | no ne ↦ changed c rh ne
  ]
    where
      changed :
          (c : ControllerId)
          → at h.buttons c < 2 ^ 32
          → at h.buttons c ≢ new
          → let h' = (update_buttons key_max new c h).0 in h'.move_trigger ≡ down first j h'
      changed first r ne =
          rw (update_buttons-eq-report_changes key_max new first h r rn ne) (
            ground (arith, changes_trigger h.buttons.fst new j h.keymaps.fst owns 28 0 h refl refl))
      changed second r ne = rw (update_buttons-eq-report_changes key_max new second h r rn ne) (
          ground (
            arith,
            changes_leave h.buttons.snd new 28 0 h,
            report_changes-Keeps key_max h.buttons.snd new second 28 0 h,
          ))
