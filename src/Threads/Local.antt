-- ===== src/Threads/Local.antt =====
-- psmove_handler.cpp: the part of the handler that the thread of each controller works on, where the
-- gesture trigger is not in use.
use mathlib.Core.Path.{subst}
use psmoveinput.Prelude.{
  bit_and, ℕ, Bool, true, false, [], ◌∷◌, ◌==◌, ◌≡◌, refl, sym, arith, Bool-cases, inl, inr,
}
use psmoveinput.Common.{ControllerId, first, second, KeyMap, KeyMapEntry, PerController, at}
use psmoveinput.Handler.{
  Handler, Out, handle_special_keys, report_entry, report_entries, report_key, report_bit,
}
use psmoveinput.Handler.Following.{opposite}
use psmoveinput.Threads.State.{Task, press, bits, check, swing, judge, stamp, gyro}

-- The tasks of each controller's thread, as long as no gesture keys are to be released.
abbrev pub IsOwn : ControllerId → Task → Type 0
IsOwn o (press buttons c) = c ≡ o
IsOwn o (bits fuel p r c i buttons) = c ≡ o
IsOwn o check = Unit {0}
IsOwn first (gyro gx gy) = Unit {0}
IsOwn second (swing gx gy) = Unit {0}
IsOwn second (judge t gx gy) = Unit {0}
IsOwn second (stamp t) = Unit {0}
IsOwn _ _ = ⊥

-- Two handlers agree on what the thread of the first controller reads and writes, or on what the other
-- does.
pub record SameFirst {D : Type 0} (h g : Handler D) : Type 0 where
  pub keymaps : g.keymaps ≡ h.keymaps
  pub coeffs : g.coeffs ≡ h.coeffs
  pub move_threshold : g.move_threshold ≡ h.move_threshold
  pub buttons : g.buttons.fst ≡ h.buttons.fst
  pub last_gyro_tp : g.last_gyro_tp ≡ h.last_gyro_tp
  pub use_move_trigger : g.use_move_trigger ≡ h.use_move_trigger
  pub move_trigger : g.move_trigger ≡ h.move_trigger

pub record SameSecond {D : Type 0} (h g : Handler D) : Type 0 where
  pub keymaps : g.keymaps ≡ h.keymaps
  pub coeffs : g.coeffs ≡ h.coeffs
  pub gesture_threshold : g.gesture_threshold ≡ h.gesture_threshold
  pub buttons : g.buttons.snd ≡ h.buttons.snd
  pub last_gesture_tp : g.last_gesture_tp ≡ h.last_gesture_tp
  pub use_gesture_trigger : g.use_gesture_trigger ≡ h.use_gesture_trigger
  pub gesture_trigger : g.gesture_trigger ≡ h.gesture_trigger
  pub release_gesture_keys : g.release_gesture_keys ≡ h.release_gesture_keys

abbrev pub Same : {D : Type 0} → ControllerId → Handler D → Handler D → Type 0
Same first h g = SameFirst h g
Same second h g = SameSecond h g

module _ {D : Type 0} where
  pub Same-trans : (c : ControllerId) (f g h : Handler D) → Same c f g → Same c g h → Same c f h
  Same-trans first f g h p q = ground arith
  Same-trans second f g h p q = ground arith

  pub Same-refl : (c : ControllerId) (h : Handler D) → Same c h h
  Same-refl first h = ground arith
  Same-refl second h = ground arith

  pub maps_agree : (c : ControllerId) (h g : Handler D) → Same c h g → g.keymaps ≡ h.keymaps
  maps_agree first h g s = s.keymaps
  maps_agree second h g s = s.keymaps

module _ {D : Type 0} (key_max : ℕ) where
  -- Reports of a controller's keys do the same to two handlers that agree on its part.
  report_entry-Same :
      (c : ControllerId) (button : ℕ) (pressed : Bool) (e : KeyMapEntry) (h g : Handler D)
      → Same c h g
      → let (h', xs) = report_entry key_max button pressed c e h in
        let (g', ys) = report_entry key_max button pressed c e g in Same c h' g' × (ys ≡ xs)
  unfolding report_entry handle_special_keys
  report_entry-Same first button true e h g s = ground arith
  report_entry-Same first button false e h g s = ground arith
  report_entry-Same second button true e h g s = ground arith
  report_entry-Same second button false e h g s = ground arith

  report_entries-Same :
      (c : ControllerId) (button : ℕ) (pressed : Bool) (m : KeyMap) (h g : Handler D)
      → Same c h g
      → let (h', xs) = report_entries key_max button pressed c m h in
        let (g', ys) = report_entries key_max button pressed c m g in Same c h' g' × (ys ≡ xs)
  unfolding report_entries
  report_entries-Same c button pressed [] h g s = (s, refl)
  report_entries-Same c button pressed (e ∷ rest) h g s =
      let (one, same) = report_entry-Same c button pressed e h g s in
      let (all, same') =
        report_entries-Same c button pressed rest (report_entry key_max button pressed c e h).0
          (report_entry key_max button pressed c e g).0 one in
      (all, rw (same, same') refl)

  -- They do nothing to the part of the other controller.
  report_entry-Leaves :
      (button : ℕ) (pressed : Bool) (e : KeyMapEntry) (h : Handler D)
      → SameSecond h (report_entry key_max button pressed first e h).0
        × SameFirst h (report_entry key_max button pressed second e h).0
  unfolding report_entry handle_special_keys
  report_entry-Leaves button true e h = ground arith
  report_entry-Leaves button false e h = ground arith

  report_entries-Leaves :
      (o : ControllerId) (button : ℕ) (pressed : Bool) (m : KeyMap) (h : Handler D)
      → Same o h (report_entries key_max button pressed (opposite o) m h).0
  unfolding report_entries
  report_entries-Leaves o button pressed [] h = Same-refl o h
  report_entries-Leaves first button pressed (e ∷ rest) h =
      Same-trans first h _ _ (report_entry-Leaves button pressed e h).1 (
        report_entries-Leaves first button pressed rest
          (report_entry key_max button pressed second e h).0)
  report_entries-Leaves second button pressed (e ∷ rest) h =
      Same-trans second h _ _ (report_entry-Leaves button pressed e h).0 (
        report_entries-Leaves second button pressed rest
          (report_entry key_max button pressed first e h).0)

  pub report_bit-Leaves :
      (o : ControllerId) (p r i : ℕ) (h : Handler D)
      → Same o h (report_bit key_max p r (opposite o) i h).0
  unfolding report_bit report_key
  report_bit-Leaves first p r i h = ground (
    arith,
    report_entries-Leaves first i true h.keymaps.snd h,
    report_entries-Leaves first i false h.keymaps.snd h,
    Same-refl first h,
  )
  report_bit-Leaves second p r i h = ground (
    arith,
    report_entries-Leaves second i true h.keymaps.fst h,
    report_entries-Leaves second i false h.keymaps.fst h,
    Same-refl second h,
  )

  -- What the two handlers come to is the same for the part, and so are the signals.
  abbrev pub Alike : ControllerId → Out (Handler D) → Out (Handler D) → Type 0
  Alike c (h, xs) (g, ys) = Same c h g × (ys ≡ xs)

  report_key-Same :
      (c : ControllerId) (button : ℕ) (pressed : Bool) (h g : Handler D)
      → Same c h g
      → Alike c (report_key key_max button pressed c h) (report_key key_max button pressed c g)
  unfolding report_key
  report_key-Same c button pressed h g s =
      subst
        (λ (m : PerController KeyMap).
          Alike c (report_entries key_max button pressed c (at h.keymaps c) h)
            (report_entries key_max button pressed c (at m c) g))
        (sym (maps_agree c h g s)) (report_entries-Same c button pressed (at h.keymaps c) h g s)

  pub report_bit-Same :
      (c : ControllerId) (p r i : ℕ) (h g : Handler D)
      → Same c h g
      → Alike c (report_bit key_max p r c i h) (report_bit key_max p r c i g)
  unfolding report_bit
  report_bit-Same c p r i h g s = elim (Bool-cases (bit_and p i == 0)) [
    | inr down ↦ rw down (report_key-Same c i true h g s)
    | inl none_down ↦ elim (Bool-cases (bit_and r i == 0)) [
      | inr up ↦ rw (none_down, up) (report_key-Same c i false h g s)
      | inl none_up ↦ rw (none_down, none_up) (s, refl)
    ]
  ]
