-- ===== src/Handler/Triggers.antt =====
-- psmove_handler.cpp: what a report does to the gesture trigger and to `releaseGestureKeys_`.
use psmoveinput.Prelude.{
  ℕ, zero, suc, ◌^◌, ◌<◌, ◌≤◌, bit, Bool, true, false, ◌==◌, ◌≡◌, ◌⊎◌, inl, arith, [], ◌∷◌,
  bit-le_one,
}
use native.Mathlib.Decide.{ℕ_discrete}
use psmoveinput.Common.{
  ControllerId, first, second, KeyMap, KeyMapEntry, at, key_psmove_gesture_trigger,
}
use psmoveinput.Handler.State.{Handler, has_lincode}
use psmoveinput.Handler.Keys.{
  handle_special_keys, report_entry, report_entries, report_key, update_buttons,
}
use psmoveinput.Handler.Bits.{report_change, report_changes, update_buttons-eq-report_changes}
use psmoveinput.Handler.Held.{report_change-Keeps, update_buttons_same}

-- Gesture keys wait to be released only while the gesture trigger is up.
abbrev pub IsQuiet : {D : Type 0} → Handler D → Type 0
IsQuiet h = h.release_gesture_keys ≡ true → h.gesture_trigger ≡ false

-- The key map names the gesture trigger.
abbrev pub HasTrigger : ℕ → KeyMap → Type 0
HasTrigger key_max m = has_lincode (key_psmove_gesture_trigger key_max) m ≡ true

module _ {D : Type 0} (key_max : ℕ) where
  report_entry-release :
      (button : ℕ) (pressed : Bool) (c : ControllerId) (e : KeyMapEntry) (h : Handler D)
      → (report_entry key_max button pressed c e h).0.release_gesture_keys ≡ true
      → (h.release_gesture_keys ≡ true)
        ⊎ ((e.lincode ≡ key_psmove_gesture_trigger key_max) × (c ≡ second))
  unfolding report_entry handle_special_keys
  report_entry-release button true first e h r = ground arith
  report_entry-release button true second e h r = ground arith
  report_entry-release button false first e h r = ground arith
  report_entry-release button false second e h r = ground arith

  pub report_entries-release :
      (button : ℕ) (pressed : Bool) (c : ControllerId) (m : KeyMap) (h : Handler D)
      → (report_entries key_max button pressed c m h).0.release_gesture_keys ≡ true
      → (h.release_gesture_keys ≡ true) ⊎ (HasTrigger key_max m × (c ≡ second))
  unfolding report_entries has_lincode
  report_entries-release button pressed c [] h r = inl r
  report_entries-release button pressed c (e ∷ rest) h r =
      let h' = (report_entry key_max button pressed c e h).0 in
      ground (
        arith,
        report_entries-release button pressed c rest h' r,
        report_entry-release button pressed c e h,
      )

  -- A release of a button leaves the handler quiet.
  report_entry-IsQuiet :
      (button : ℕ) (c : ControllerId) (e : KeyMapEntry) (h : Handler D)
      → IsQuiet h
      → IsQuiet (report_entry key_max button false c e h).0
  unfolding report_entry handle_special_keys
  report_entry-IsQuiet button first e h q = ground arith
  report_entry-IsQuiet button second e h q = ground arith

  report_entries-IsQuiet :
      (button : ℕ) (c : ControllerId) (m : KeyMap) (h : Handler D)
      → IsQuiet h
      → IsQuiet (report_entries key_max button false c m h).0
  unfolding report_entries
  report_entries-IsQuiet button c [] h q = q
  report_entries-IsQuiet button c (e ∷ rest) h q =
      report_entries-IsQuiet button c rest (report_entry key_max button false c e h).0
        (report_entry-IsQuiet button c e h q)

  module _ (old buttons : ℕ) (c : ControllerId) where
    report_changes-release :
        (n k : ℕ) (h : Handler D)
        → (report_changes key_max n old buttons c k h).0.release_gesture_keys ≡ true
        → (h.release_gesture_keys ≡ true) ⊎ (HasTrigger key_max (at h.keymaps c) × (c ≡ second))
    unfolding report_changes report_change report_key
    report_changes-release zero k h r = inl r
    report_changes-release (suc n) k h r =
        let h' = (report_change key_max old buttons c k h).0 in
        ground (
          arith,
          report_changes-release n (suc k) h' r,
          report_change-Keeps key_max old buttons c k h,
          report_entries-release (2 ^ k) (bit buttons k == 1) c (at h.keymaps c) h,
        )

    report_change-IsQuiet :
        (k : ℕ) (h : Handler D)
        → bit buttons k ≤ bit old k
        → IsQuiet h
        → IsQuiet (report_change key_max old buttons c k h).0
    unfolding report_change report_key
    report_change-IsQuiet k h le q =
        ground (arith, bit-le_one old k, report_entries-IsQuiet (2 ^ k) c (at h.keymaps c) h q)

    report_changes-IsQuiet :
        (n k : ℕ) (h : Handler D)
        → ((i : ℕ) → bit buttons i ≤ bit old i)
        → IsQuiet h
        → IsQuiet (report_changes key_max n old buttons c k h).0
    unfolding report_changes
    report_changes-IsQuiet zero k h le q = q
    report_changes-IsQuiet (suc n) k h le q =
        report_changes-IsQuiet n (suc k) (report_change key_max old buttons c k h).0 le
          (report_change-IsQuiet k h (le k) q)

  module _ (buttons : ℕ) (c : ControllerId) (h : Handler D) where
    module _ (ho : at h.buttons c < 2 ^ 32) (hn : buttons < 2 ^ 32) where
      -- A release is asked for only if the second key map names the gesture trigger.
      pub update_buttons-release :
          (update_buttons key_max buttons c h).0.release_gesture_keys ≡ true
          → (h.release_gesture_keys ≡ true) ⊎ (HasTrigger key_max (at h.keymaps c) × (c ≡ second))
      update_buttons-release r = elim (ℕ_discrete (at h.buttons c) buttons) [
        | yes e ↦ inl (rw (update_buttons_same key_max buttons c h e) at r)
        | no ne ↦
            report_changes-release (at h.buttons c) buttons c 28 0 h
              (rw (update_buttons-eq-report_changes key_max buttons c h ho hn ne) at r)
      ]

      -- An update that only releases buttons leaves the handler quiet.
      pub update_buttons-IsQuiet :
          ((i : ℕ) → bit buttons i ≤ bit (at h.buttons c) i)
          → IsQuiet h
          → IsQuiet (update_buttons key_max buttons c h).0
      update_buttons-IsQuiet le q = elim (ℕ_discrete (at h.buttons c) buttons) [
        | yes e ↦ rw (update_buttons_same key_max buttons c h e) q
        | no ne ↦
            rw (update_buttons-eq-report_changes key_max buttons c h ho hn ne)
              (report_changes-IsQuiet (at h.buttons c) buttons c 28 0 h le q)
      ]
