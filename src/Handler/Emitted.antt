-- ===== src/Handler/Emitted.antt =====
-- psmove_handler.cpp: the keys that a run reports are keys of the key maps.
use psmoveinput.Prelude.{
  ◌∙◌, ℕ, zero, suc, ◌*◌, Bool, true, false, List, [], ◌∷◌, none, some, ◌≡◌, arith, ℤ, All,
  All-append, Bool-cases, inl, inr, leb, bit_and, bit_not, pos, ◌==◌,
}
use psmoveinput.Common.{
  ControllerId, first, second, KeyMap, KeyMapEntry, PerController, at, btn_gesture_right,
}
use psmoveinput.Handler.State.{Signal, key, Handler, Timespec, Result, gesture_enabled}
use psmoveinput.Handler.Keys.{
  handle_special_keys, report_entry, report_entries, report_key, report_bit, button_loop,
  update_buttons, loop_fuel,
}
use psmoveinput.Handler.Reports.{
  append_result, stamp_result, on_gyroscope, move_signals, on_gesture, on_buttons, on_buttons_with,
  on_buttons_with_releases, on_buttons_with_ends, gestures_at,
}
use psmoveinput.Handler.Changes.{report_bit-Keeps}
use psmoveinput.Handler.Held.{update_buttons-Keeps}
use psmoveinput.Handler.Total.{on_gesture_disabled, on_gesture_enabled}
use psmoveinput.Handler.Session.{Report, gyro, swing, press, handle, run, continue}

module _ (P : ℕ → Type 0) where
  -- A key signal has a code with P.
  abbrev pub KeyIn : Signal → Type 0
  KeyIn (key code pressed) = P code
  KeyIn _ = Unit {0}

  -- Every entry of a key map has a key code with P.
  abbrev pub MapIn : KeyMap → Type 0
  MapIn m = All (λ (e : KeyMapEntry). P e.lincode) m

module _ {D : Type 0} (P : ℕ → Type 0) (key_max : ℕ) where
  report_entry-KeyIn :
      (button : ℕ) (pressed : Bool) (c : ControllerId) (e : KeyMapEntry) (h : Handler D)
      → P e.lincode
      → All (KeyIn P) (report_entry key_max button pressed c e h).1
  unfolding report_entry handle_special_keys
  report_entry-KeyIn button true first e h p = ground arith
  report_entry-KeyIn button true second e h p = ground arith
  report_entry-KeyIn button false first e h p = ground arith
  report_entry-KeyIn button false second e h p = ground arith

  report_entries-KeyIn :
      (button : ℕ) (pressed : Bool) (c : ControllerId) (m : KeyMap) (h : Handler D)
      → MapIn P m
      → All (KeyIn P) (report_entries key_max button pressed c m h).1
  unfolding report_entries
  report_entries-KeyIn button pressed c [] h p = tt
  report_entries-KeyIn button pressed c (e ∷ rest) h p =
      All-append (KeyIn P) _ _ (report_entry-KeyIn button pressed c e h p.0)
        (report_entries-KeyIn button pressed c rest _ p.1)

  report_bit-KeyIn :
      (p r : ℕ) (c : ControllerId) (i : ℕ) (h : Handler D)
      → MapIn P (at h.keymaps c)
      → All (KeyIn P) (report_bit key_max p r c i h).1
  unfolding report_bit report_key
  report_bit-KeyIn p r c i h maps = ground (
    arith,
    report_entries-KeyIn i true c (at h.keymaps c) h maps,
    report_entries-KeyIn i false c (at h.keymaps c) h maps,
  )

  button_loop-KeyIn :
      (fuel p r : ℕ) (c : ControllerId) (i : ℕ) (h : Handler D)
      → MapIn P (at h.keymaps c)
      → All (KeyIn P) (button_loop key_max fuel p r c i h).1
  unfolding button_loop
  button_loop-KeyIn zero p r c i h maps = tt
  button_loop-KeyIn (suc fuel) p r c i h maps =
      let h' = (report_bit key_max p r c i h).0 in
      let kept : MapIn P (at h'.keymaps c) =
        rw ((report_bit-Keeps key_max p r c i h).keymaps) maps in
      let rest =
        All-append (KeyIn P) _ _ (report_bit-KeyIn p r c i h maps)
          (button_loop-KeyIn fuel p r c (i * 2) h' kept) in
      elim (Bool-cases (leb i btn_gesture_right)) [ inl e ↦ rw e rest | inr e ↦ rw e tt ]

  update_buttons-KeyIn :
      (buttons : ℕ) (c : ControllerId) (h : Handler D)
      → MapIn P (at h.keymaps c)
      → All (KeyIn P) (update_buttons key_max buttons c h).1
  unfolding update_buttons
  update_buttons-KeyIn buttons c h maps =
      let old = at h.buttons c in
      let loop =
        button_loop-KeyIn loop_fuel (bit_and buttons (bit_not old)) (bit_and old (bit_not buttons))
          c 1 h maps in
      elim (Bool-cases (old == buttons)) [
        | inl e ↦ rw e tt
        | inr e ↦ rw e (All-append (KeyIn P) _ [] loop tt)
      ]

  -- The key maps stay, and all keys that are emitted are theirs.
  abbrev pub Emits : PerController KeyMap → Result D → Type 0
  Emits km none = Unit {0}
  Emits km (some (h, xs)) = (h.keymaps ≡ km) × All (KeyIn P) xs

  module _ (km : PerController KeyMap) (maps : (c : ControllerId) → MapIn P (at km c)) where
    append-Emits :
        (xs : List Signal) (r : Result D)
        → All (KeyIn P) xs
        → Emits km r
        → Emits km (append_result xs r)
    append-Emits xs none p e = tt
    append-Emits xs (some (h, ys)) p e = (e.0, All-append (KeyIn P) xs ys p e.1)

    stamped-Emits : (now : Timespec) (r : Result D) → Emits km r → Emits km (stamp_result now r)
    stamped-Emits now none e = tt
    stamped-Emits now (some (h, ys)) e = e

    update_buttons-Emits :
        (buttons : ℕ) (c : ControllerId) (h : Handler D)
        → h.keymaps ≡ km
        → Emits km (some (update_buttons key_max buttons c h))
    update_buttons-Emits buttons c h e = (
      (update_buttons-Keeps key_max buttons c h).keymaps ∙ e,
      update_buttons-KeyIn buttons c h (rw e (maps c)),
    )

    on_buttons_with-Emits :
        (release : Handler D → Result D) (buttons : ℕ) (c : ControllerId) (h : Handler D)
        → ((g : Handler D) → g.keymaps ≡ km → Emits km (release g))
        → h.keymaps ≡ km
        → Emits km (on_buttons_with key_max release buttons c h)
    on_buttons_with-Emits release buttons c h nested e =
        let (h', xs) = update_buttons key_max buttons c h in
        let (kept, keys) = update_buttons-Emits buttons c h e in
        elim (Bool-cases h'.release_gesture_keys) [
          | inl on ↦
              rw (on_buttons_with_releases key_max release buttons c h on)
                (append-Emits xs _ keys (nested (record h' { release_gesture_keys = false }) kept))
          | inr off ↦ rw (on_buttons_with_ends key_max release buttons c h off) (kept, keys)
        ]

    module _ (scale : ℤ → D → ℤ) where
      on_gesture-Emits :
          (clock : List Timespec) (gx gy : ℤ) (h : Handler D)
          → h.keymaps ≡ km
          → Emits km (on_gesture scale key_max clock gx gy h)
      on_gesture-Emits [] gx gy h e = unfold on_gesture in tt
      on_gesture-Emits (now ∷ clock) gx gy h e =
          let whole =
            on_buttons_with-Emits (on_gesture scale key_max clock (pos 0) (pos 0))
              (gestures_at scale now gx gy h) second h (on_gesture-Emits clock (pos 0) (pos 0)) e in
          elim (Bool-cases (gesture_enabled h)) [
            | inl on ↦
                rw (on_gesture_enabled scale key_max now clock gx gy h on)
                  (stamped-Emits now _ whole)
            | inr off ↦ rw (on_gesture_disabled scale key_max now clock gx gy h off) (e, tt)
          ]

      pub handle-Emits :
          (r : Report) (h : Handler D) → h.keymaps ≡ km → Emits km (handle scale key_max r h)
      unfolding handle on_buttons on_gyroscope move_signals
      handle-Emits (gyro now gx gy) h e = (e, ground arith)
      handle-Emits (swing s t u gx gy) h e = on_gesture-Emits (s ∷ t ∷ u ∷ []) gx gy h e
      handle-Emits (press t u b c) h e =
          on_buttons_with-Emits _ b c h (on_gesture-Emits (t ∷ u ∷ []) (pos 0) (pos 0)) e

      continue-Emits :
          (r : Result D) (f : Handler D → Result D)
          → Emits km r
          → ((g : Handler D) → g.keymaps ≡ km → Emits km (f g))
          → Emits km (continue r f)
      continue-Emits none f e rest = tt
      continue-Emits (some (g, xs)) f e rest = append-Emits xs (f g) e.1 (rest g e.0)

      pub run-Emits :
          (rs : List Report) (h : Handler D) → h.keymaps ≡ km → Emits km (run scale key_max rs h)
      unfolding run
      run-Emits [] h e = (e, tt)
      run-Emits (r ∷ rs) h e =
          continue-Emits (handle scale key_max r h) (run scale key_max rs) (handle-Emits r h e)
            (run-Emits rs)
