-- ===== src/Program/Pressed.antt =====
-- psmoveinput.cpp: the keys of the whole program across resets of the handler.
use mathlib.Core.Path.{subst}
use mathlib.Core.Bool.{false≢true}
use psmoveinput.Prelude.{
  ℕ, ◌≤◌, Bool, true, false, List, [], ◌∷◌, none, some, ◌≡◌, refl, sym, ◌∙◌, ap, arith, ℤ, All,
  Bool-cases, inl, inr,
}
use psmoveinput.Common.{
  key_psmove_gesture_trigger, ControllerId, first, second, KeyMap, PerController,
}
use psmoveinput.Handler.{
  has_lincode, Handler, Signal, move, key, mwheel, disconnect, Result, reset, append_result,
}
use psmoveinput.Handler.Changes.{held, held-append}
use psmoveinput.Handler.Following.{IsOwner, down, Ready, Follows}
use psmoveinput.Handler.Runs.{handle-Follows}
use psmoveinput.Handler.Session.{handle, continue}
use psmoveinput.Handler.Contract.{reset_up, start_up, start-Ready}
use psmoveinput.Config.{Config, get_key_map}
use psmoveinput.App.{init_handler}
use psmoveinput.Program.State.{Program, Output}
use psmoveinput.Program.Step.{initial}
use psmoveinput.Program.Launch.{launch}
use psmoveinput.Program.Client.{Use, called, cleared, IsUse, shown, play}
use psmoveinput.Program.Linear.{Reach-Explained}
use psmoveinput.Program.Keys.{held-for_device}
use psmoveinput.Program.Reached.{Reached, launch-IsSound}

-- A key that signals leave down from up, they leave down from down.
held_mono : (code : ℕ) (xs : List Signal) → held code xs false ≡ true → held code xs true ≡ true
unfolding held
held_mono code [] e = refl
held_mono code (disconnect c ∷ xs) e = held_mono code xs e
held_mono code (move dx dy ∷ xs) e = held_mono code xs e
held_mono code (mwheel v ∷ xs) e = held_mono code xs e
held_mono code (key k pressed ∷ xs) e = ground (arith, held_mono code xs)

module _ {D : Type 0} (scale : ℤ → D → ℤ) (key_max code j : ℕ) (plain : code ≤ key_max)
    (km : PerController KeyMap) (o : ControllerId) (owner : IsOwner km o code j) where
  -- If the button is down, so is the key.
  abbrev Covers : Bool → Handler D → Type 0
  Covers b h = down o j h ≡ true → b ≡ true

  call-Covers :
      (xs : List Signal) (h g : Handler D) (b : Bool)
      → held code xs (down o j h) ≡ down o j g
      → Covers b h
      → Covers (held code xs b) g
  call-Covers xs h g true e k d = elim (Bool-cases (down o j h)) [
    | inl was ↦ ap (held code xs) (sym was) ∙ e ∙ d
    | inr was ↦ held_mono code xs (ap (held code xs) (sym was) ∙ e ∙ d)
  ]
  call-Covers xs h g false e k d = elim (Bool-cases (down o j h)) [
    | inl was ↦ absurd (ground arith)
    | inr was ↦ ap (held code xs) (sym was) ∙ e ∙ d
  ]

  -- After some uses of the handler, those calls that are left keep this.
  Covered : Bool → Result D → Type 0
  Covered b none = Unit {0}
  Covered b (some (h, xs)) = Covers (held code xs b) h

  continue-Covered :
      (r : Result D) (rest : Handler D → Result D) (h : Handler D) (b : Bool)
      → Follows km o code j h r
      → ((g : Handler D) (b : Bool) → Ready km g → Covers b g → Covered b (rest g))
      → Covers b h
      → Covered b (continue r rest)
  unfolding Covered
  continue-Covered none rest h b f next k = tt
  continue-Covered (some (g, xs)) rest h b (ready, e) next k =
      after (rest g) (next g (held code xs b) ready (call-Covers xs h g b e k))
    where
      after : (r : Result D) → Covered (held code xs b) r → Covered b (append_result xs r)
      after none k = tt
      after (some (h', ys)) k = rw (held-append code xs ys b) k

  reset-Ready : (h : Handler D) → Ready km h → Ready km (reset h)
  unfolding reset
  reset-Ready h r = ground arith

  -- So do all uses, with the resets among them.
  play-Covered :
      (us : List Use) (h : Handler D) (b : Bool)
      → All IsUse us
      → Ready km h
      → Covers b h
      → Covered b (play scale key_max us h)
  unfolding play Covered held
  play-Covered [] h b i ready k = k
  play-Covered (cleared ∷ us) h b i ready k =
      play-Covered us (reset h) b i.1 (reset-Ready h ready)
        (λ d. absurd (false≢true (sym (reset_up h o j) ∙ d)))
  play-Covered (called r ∷ us) h b i ready k =
      continue-Covered (handle scale key_max r h) (play scale key_max us) h b
        (handle-Follows key_max code j plain km o owner scale r h i.0 ready)
        (λ g b ready k. play-Covered us g b i.1 ready k) k

module _ {D : Type 0} (scale : ℤ → D → ℤ) (key_max : ℕ) (memory : ℤ) (c : Config D) where
  -- Let a call of the handler be one step. Take a key code at most KEY_MAX that one button alone, on one
  -- controller, is mapped to, on the first controller or with a second key map that does not name the
  -- gesture trigger. In every state that the program reaches from its start, with any number of resets
  -- of the handler on the way, if the handler has the button down, then the last report of the key to
  -- the device was a press.
  pub pressed_keys_are_held :
      {q : Program D} {xs : List Output} (code j : ℕ) (o : ControllerId)
      → code ≤ key_max
      → IsOwner c.keymaps o code j
      → (o ≡ second → has_lincode (key_psmove_gesture_trigger key_max) c.keymaps.snd ≡ false)
      → Reached scale key_max memory c q xs
      → down o j q.handler ≡ true
      → held code (shown xs) false ≡ true
  unfolding launch initial init_handler Covered
  pressed_keys_are_held {q = q} {xs = xs} code j o plain owner no_trigger r d =
      let (us, ss, uses, e, f, g) =
        Reach-Explained scale key_max (launch-IsSound scale key_max memory c) r in
      let h = (launch key_max memory c).0.handler in
      let m = get_key_map first c in
      let m' = get_key_map second c in
      let up = start_up key_max m m' c.coeffs c.move_threshold c.gesture_threshold o j in
      let covered =
        play-Covered scale key_max code j plain c.keymaps o owner us h false uses
          (start-Ready key_max m m' c.coeffs c.move_threshold c.gesture_threshold)
          (λ d. absurd (false≢true (sym up ∙ d))) in
      subst (λ ys. held code ys false ≡ true) f
        (held-for_device code ss false ∙ (rw e at covered) d)
