-- ===== src/Program/Keys.antt =====
-- psmoveinput.cpp: the keys of the whole program.
use mathlib.Core.Path.{subst}
use mathlib.Core.Option.{some-injective}
use psmoveinput.Prelude.{
  ℕ, ◌≤◌, Bool, false, List, [], ◌∷◌, map, some, ◌≡◌, refl, sym, ◌∙◌, ap, arith, ℤ, All,
}
use psmoveinput.Common.{ControllerId, first, second, key_psmove_gesture_trigger}
use psmoveinput.Handler.{has_lincode, Handler, Signal, move, key, mwheel, disconnect}
use psmoveinput.Handler.Changes.{held}
use psmoveinput.Handler.Following.{IsOwner, down}
use psmoveinput.Handler.Runs.{AtRest}
use psmoveinput.Handler.Session.{Report, IsInt32, run}
use psmoveinput.Handler.Contract.{key_follows_button}
use psmoveinput.Config.{Config, get_key_map}
use psmoveinput.App.{init_handler}
use psmoveinput.Program.State.{Program, Output}
use psmoveinput.Program.Step.{initial}
use psmoveinput.Program.Launch.{launch}
use psmoveinput.Program.Outputs.{has_reset}
use psmoveinput.Program.Client.{
  Use, called, cleared, IsUse, has_cleared, for_device, shown, play, play_reports,
}
use psmoveinput.Program.Linear.{Reach-Explained}
use psmoveinput.Program.Reached.{Reached, launch-IsSound}

-- Uses without a reset are calls.
only_calls :
    (us : List Use)
    → has_cleared us ≡ false
    → All IsUse us
    → (rs : List Report) × (us ≡ map called rs) × All IsInt32 rs
only_calls [] e k = ([], refl, tt)
only_calls (called r ∷ us) e (i, k) =
    let (rs, same, fits) = only_calls us e k in (r ∷ rs, ap (λ vs. called r ∷ vs) same, (i, fits))
only_calls (cleared ∷ us) e k = absurd (ground arith)

pub held-for_device :
    (code : ℕ) (xs : List Signal) (b : Bool) → held code (for_device xs) b ≡ held code xs b
unfolding held for_device
held-for_device code [] b = refl
held-for_device code (disconnect c ∷ xs) b = held-for_device code xs b
held-for_device code (move dx dy ∷ xs) b = held-for_device code xs b
held-for_device code (key k pressed ∷ xs) b = held-for_device code xs _
held-for_device code (mwheel v ∷ xs) b = held-for_device code xs b

module _ {D : Type 0} (scale : ℤ → D → ℤ) (key_max : ℕ) (memory : ℤ) (c : Config D)
    (at_rest : AtRest scale) where
  follows :
      (rs : List Report) (code j : ℕ) (o : ControllerId) (h : Handler D) (xs : List Signal)
      → code ≤ key_max
      → IsOwner c.keymaps o code j
      → All IsInt32 rs
      → run scale key_max rs (launch key_max memory c).0.handler ≡ some (h, xs)
      → held code xs false ≡ down o j h
  unfolding launch initial init_handler
  follows rs code j o h xs plain owner fits e =
      let (h', xs', e', f) =
        key_follows_button scale key_max at_rest (get_key_map first c) (get_key_map second c)
          c.coeffs c.move_threshold c.gesture_threshold rs code j o plain owner fits in
      subst (λ (r : Handler D × List Signal). held code r.1 false ≡ down o j r.0)
        (some-injective _ _ (sym e' ∙ e)) f

  -- Let a motionless reading convert to 0, and a call of the handler be one step. Take a key code at
  -- most KEY_MAX that one button alone, on one controller, is mapped to, on the first controller or
  -- with a second key map that does not name the gesture trigger. In every state that the program
  -- reaches from its start, in whatever order its threads make their steps, as long as it has not
  -- raised the disconnect-complete signal, the last report of that key to the device was a press if
  -- the handler has its button down, and otherwise it was a release or there was none.
  pub keys_follow_buttons :
      {q : Program D} {xs : List Output} (code j : ℕ) (o : ControllerId)
      → code ≤ key_max
      → IsOwner c.keymaps o code j
      → (o ≡ second → has_lincode (key_psmove_gesture_trigger key_max) c.keymaps.snd ≡ false)
      → Reached scale key_max memory c q xs
      → has_reset xs ≡ false
      → held code (shown xs) false ≡ down o j q.handler
  keys_follow_buttons {q = q} {xs = xs} code j o plain owner no_trigger r quiet =
      let (us, ss, k, e, f, g) =
        Reach-Explained scale key_max (launch-IsSound scale key_max memory c) r in
      let (rs, same, fits) = only_calls us (g ∙ quiet) k in
      let h = (launch key_max memory c).0.handler in
      let ran =
        sym (play_reports scale key_max rs h) ∙ ap (λ vs. play scale key_max vs h) (sym same) ∙ e in
      subst (λ ys. held code ys false ≡ down o j q.handler) f
        (held-for_device code ss false ∙ follows rs code j o q.handler ss plain owner fits ran)
