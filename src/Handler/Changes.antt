-- ===== src/Handler/Changes.antt =====
-- psmove_handler.cpp, `onButtons`: which keys the loop over the bits reports.
use psmoveinput.Prelude.{
  ℕ, zero, suc, ◌*◌, ◌≤◌, Bool, true, false, ◌&&◌, ◌||◌, List, [], ◌∷◌, ◌++◌, ◌==◌, if◌then◌else◌,
  ◌≡◌, refl, arith,
}
use psmoveinput.Common.{ControllerId, first, second, KeyMap, KeyMapEntry, at}
use psmoveinput.Handler.State.{Signal, move, key, disconnect, mwheel, Handler}
use psmoveinput.Handler.Keys.{
  handle_special_keys, report_entry, report_entries, report_key, report_bit, button_loop,
}

-- Whether the last report of key `code` in a trace was a press; `before` is its state before.
unfoldable pub held : ℕ → List Signal → Bool → Bool
held code [] before = before
held code (key c pressed ∷ rest) before = held code rest (if c == code then pressed else before)
held code (_ ∷ rest) before = held code rest before

pub held-append :
    (code : ℕ) (xs ys : List Signal) (b : Bool)
    → held code (xs ++ ys) b ≡ held code ys (held code xs b)
unfolding held
held-append code [] ys b = refl
held-append code (key c pressed ∷ xs) ys b =
    held-append code xs ys (if c == code then pressed else b)
held-append code (move dx dy ∷ xs) ys b = held-append code xs ys b
held-append code (disconnect c ∷ xs) ys b = held-append code xs ys b
held-append code (mwheel v ∷ xs) ys b = held-append code xs ys b

-- Whether a key map sends a button to a key.
unfoldable pub maps : KeyMap → ℕ → ℕ → Bool
maps [] button code = false
maps (e ∷ rest) button code = e.pscode == button && e.lincode == code || maps rest button code

module _ {D : Type 0} (key_max code : ℕ) (plain : code ≤ key_max) where
  pub report_entry-held :
      (button : ℕ) (pressed : Bool) (c : ControllerId) (e : KeyMapEntry) (h : Handler D) (b : Bool)
      → held code (report_entry key_max button pressed c e h).1 b
        ≡ (if e.pscode == button && e.lincode == code then pressed else b)
  unfolding report_entry handle_special_keys held
  report_entry-held button true first e h b = ground arith
  report_entry-held button true second e h b = ground arith
  report_entry-held button false first e h b = ground arith
  report_entry-held button false second e h b = ground arith

  pub report_entries-held :
      (button : ℕ) (pressed : Bool) (c : ControllerId) (m : KeyMap) (h : Handler D) (b : Bool)
      → held code (report_entries key_max button pressed c m h).1 b
        ≡ (if maps m button code then pressed else b)
  unfolding maps report_entries held
  report_entries-held button pressed c [] h b = refl
  report_entries-held button pressed c (e ∷ rest) h b =
      let (h', xs) = report_entry key_max button pressed c e h in
      let ih = report_entries-held button pressed c rest h' (held code xs b) in
      rw (held-append code xs (report_entries key_max button pressed c rest h').1 b)
        (ground (arith, ih, report_entry-held button pressed c e h b))

-- Everything but the three trigger flags is as it was.
pub record Keeps {D : Type 0} (h h' : Handler D) : Type 0 where
  pub keymaps : h'.keymaps ≡ h.keymaps
  pub buttons : h'.buttons ≡ h.buttons
  pub last_gyro_tp : h'.last_gyro_tp ≡ h.last_gyro_tp
  pub last_gesture_tp : h'.last_gesture_tp ≡ h.last_gesture_tp
  pub coeffs : h'.coeffs ≡ h.coeffs
  pub move_threshold : h'.move_threshold ≡ h.move_threshold
  pub gesture_threshold : h'.gesture_threshold ≡ h.gesture_threshold
  pub use_move_trigger : h'.use_move_trigger ≡ h.use_move_trigger
  pub use_gesture_trigger : h'.use_gesture_trigger ≡ h.use_gesture_trigger

module _ {D : Type 0} where
  pub Keeps-refl : (h : Handler D) → Keeps h h
  Keeps-refl h = ground arith

  pub Keeps-trans : {f g h : Handler D} → Keeps f g → Keeps g h → Keeps f h
  Keeps-trans p q = ground arith

module _ {D : Type 0} (key_max : ℕ) where
  pub report_entry-Keeps :
      (button : ℕ) (pressed : Bool) (c : ControllerId) (e : KeyMapEntry) (h : Handler D)
      → Keeps h (report_entry key_max button pressed c e h).0
  unfolding report_entry handle_special_keys
  report_entry-Keeps button true first e h = ground arith
  report_entry-Keeps button true second e h = ground arith
  report_entry-Keeps button false first e h = ground arith
  report_entry-Keeps button false second e h = ground arith

  pub report_entries-Keeps :
      (button : ℕ) (pressed : Bool) (c : ControllerId) (m : KeyMap) (h : Handler D)
      → Keeps h (report_entries key_max button pressed c m h).0
  unfolding report_entries
  report_entries-Keeps button pressed c [] h = Keeps-refl h
  report_entries-Keeps button pressed c (e ∷ rest) h =
      let h' = (report_entry key_max button pressed c e h).0 in
      Keeps-trans (report_entry-Keeps button pressed c e h)
        (report_entries-Keeps button pressed c rest h')

  pub report_bit-Keeps :
      (p r : ℕ) (c : ControllerId) (i : ℕ) (h : Handler D)
      → Keeps h (report_bit key_max p r c i h).0
  unfolding report_bit report_key
  report_bit-Keeps p r c i h = ground (
    arith,
    Keeps-refl h,
    report_entries-Keeps i true c (at h.keymaps c) h,
    report_entries-Keeps i false c (at h.keymaps c) h,
  )

  pub button_loop-Keeps :
      (fuel p r : ℕ) (c : ControllerId) (i : ℕ) (h : Handler D)
      → Keeps h (button_loop key_max fuel p r c i h).0
  unfolding button_loop
  button_loop-Keeps zero p r c i h = Keeps-refl h
  button_loop-Keeps (suc fuel) p r c i h =
      let h' = (report_bit key_max p r c i h).0 in
      let rest =
        Keeps-trans (report_bit-Keeps p r c i h) (button_loop-Keeps fuel p r c (i * 2) h') in
      ground (arith, rest, Keeps-refl h)
