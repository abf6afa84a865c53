-- ===== src/Threads/Keys.antt =====
-- psmove_handler.cpp: keys follow buttons, in whatever order the actions of the two threads come.
use psmoveinput.Prelude.{ℕ, ◌≤◌, false, List, [], ◌≡◌, refl, sym, ℤ, All}
use psmoveinput.Common.{
  ControllerId, first, second, KeyMap, MoveCoeffs, PerController, at, key_psmove_gesture_trigger,
}
use psmoveinput.Handler.{has_lincode, new, check_triggers}
use psmoveinput.Handler.Changes.{held}
use psmoveinput.Handler.Following.{IsOwner, opposite, down}
use psmoveinput.Handler.Contract.{start_up, start-Ready}
use psmoveinput.Threads.State.{Task, Turn, play, idle}
use psmoveinput.Threads.Calls.{TurnFits}
use psmoveinput.Threads.Interleaved.{HoldsIn, play-Holds}

start_calm :
    {D : Type 0} (key_max : ℕ) (m m' : KeyMap) (coeffs : MoveCoeffs D) (t t' : ℤ)
    → (new key_max m m' coeffs t t').release_gesture_keys ≡ false
unfolding new check_triggers
start_calm key_max m m' coeffs t t' = refl

module _ {D : Type 0} (scale : ℤ → D → ℤ) (key_max : ℕ) (m m' : KeyMap) (coeffs : MoveCoeffs D)
    (t t' : ℤ) where
  -- Take a key code at most KEY_MAX that one button alone, on one controller, is mapped to, on the
  -- first controller or with a second key map that does not name the gesture trigger. From a new
  -- handler, two threads call it with 32-bit patterns of buttons, each for its own controller, and
  -- their actions come in any order. Whenever the thread of the key's controller is not in a call,
  -- the last report of the key was a press if its button is down, and otherwise it was a release or
  -- there was none.
  pub keys_follow_interleaved :
      (ts : List Turn) (code j : ℕ) (o : ControllerId)
      → code ≤ key_max
      → IsOwner (record { fst = m; snd = m' }) o code j
      → (o ≡ second → has_lincode (key_psmove_gesture_trigger key_max) m' ≡ false)
      → All TurnFits ts
      → let (s, xs) = play scale key_max ts (idle (new key_max m m' coeffs t t')) in
        at s.tasks o ≡ [] → held code xs false ≡ down o j s.handler
  keys_follow_interleaved ts code j o plain owner no_trigger fits e =
      let h = new key_max m m' coeffs t t' in
      let km : PerController KeyMap = record { fst = m; snd = m' } in
      let start : HoldsIn scale key_max code j plain km o owner no_trigger (idle h) false =
        rw (none_in o, none_in (opposite o))
          (record {
            ready = start-Ready key_max m m' coeffs t t';
            calm = λ e. start_calm key_max m m' coeffs t t';
            own_fits = tt;
            other_fits = tt;
            own_rest = tt;
            apart = tt;
            expected = sym (start_up key_max m m' coeffs t t' o j);
          }) in
      let v =
        play-Holds scale key_max code j plain km o owner no_trigger ts (idle h) false fits start in
      rw e at v.expected
    where
      none_in : (o : ControllerId) → at {A = List Task} (record { fst = []; snd = [] }) o ≡ []
      none_in first = refl
      none_in second = refl
