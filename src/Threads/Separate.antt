-- ===== src/Threads/Separate.antt =====
-- psmove_handler.cpp: where the gesture trigger is not in use, two threads at work on the handler do what
-- each would do alone.
use psmoveinput.Prelude.{ℕ, true, false, List, [], ◌∷◌, ◌≡◌, refl, ℤ}
use psmoveinput.Common.{
  first, second, KeyMap, MoveCoeffs, PerController, key_psmove_gesture_trigger,
}
use psmoveinput.Handler.{has_lincode, new, check_triggers}
use psmoveinput.Threads.State.{Threads, Turn, call, work, turn, play, idle}
use psmoveinput.Threads.Local.{Same-refl}
use psmoveinput.Threads.Shuffle.{Shuffle, nothing, left_Shuffle, right_Shuffle}
use psmoveinput.Threads.Tracks.{
  is_by, turns_of, Tracks, Calm, turn-Calm, own_call, own_work, other_turn,
}

module _ {D : Type 0} (scale : ℤ → D → ℤ) (key_max : ℕ) (km : PerController KeyMap)
    (no_trigger : has_lincode (key_psmove_gesture_trigger key_max) km.snd ≡ false) where
  -- The turns of both threads, and those of each from a state of its own.
  abbrev pub Apart : List Turn → Threads D → Threads D → Threads D → Type 0
  Apart ts s a b =
      let (s', xs) = play scale key_max ts s in
      let (a', ys) = play scale key_max (turns_of first ts) a in
      let (b', zs) = play scale key_max (turns_of second ts) b in
      Tracks first s' a' × Tracks second s' b' × Shuffle ys zs xs

  first_turn :
      (t : Turn) (rest : List Turn) (s a b : Threads D)
      → (is_by first t ≡ true) × (is_by second t ≡ false)
      → (turn scale key_max t a).1 ≡ (turn scale key_max t s).1
      → Apart rest (turn scale key_max t s).0 (turn scale key_max t a).0 b
      → Apart (t ∷ rest) s a b
  unfolding play turns_of
  first_turn t rest s a b (mine, other) e (f, g, shuffled) =
      rw (mine, other, e) (f, g, left_Shuffle (turn scale key_max t s).1 shuffled)

  second_turn :
      (t : Turn) (rest : List Turn) (s a b : Threads D)
      → (is_by first t ≡ false) × (is_by second t ≡ true)
      → (turn scale key_max t b).1 ≡ (turn scale key_max t s).1
      → Apart rest (turn scale key_max t s).0 a (turn scale key_max t b).0
      → Apart (t ∷ rest) s a b
  unfolding play turns_of
  second_turn t rest s a b (other, mine) e (f, g, shuffled) =
      rw (mine, other, e) (f, g, right_Shuffle (turn scale key_max t s).1 shuffled)

  all_Apart :
      (ts : List Turn) (s a b : Threads D)
      → Calm scale key_max km no_trigger s
      → Calm scale key_max km no_trigger a
      → Calm scale key_max km no_trigger b
      → Tracks first s a
      → Tracks second s b
      → Apart ts s a b
  unfolding play turns_of
  all_Apart [] s a b c ca cb f g = (f, g, nothing)
  all_Apart (call first k ∷ rest) s a b c ca cb f g =
      let t = call first k in
      let (f', e) = own_call scale key_max km no_trigger first k s a f in
      first_turn t rest s a b (refl, refl) e
        (all_Apart rest _ _ b (turn-Calm scale key_max km no_trigger t s c)
          (turn-Calm scale key_max km no_trigger t a ca) cb f'
          (other_turn scale key_max km no_trigger second t s b c refl g))
  all_Apart (work first now ∷ rest) s a b c ca cb f g =
      let t = work first now in
      let (f', e) = own_work scale key_max km no_trigger first now s a c ca.release f in
      first_turn t rest s a b (refl, refl) e
        (all_Apart rest _ _ b (turn-Calm scale key_max km no_trigger t s c)
          (turn-Calm scale key_max km no_trigger t a ca) cb f'
          (other_turn scale key_max km no_trigger second t s b c refl g))
  all_Apart (call second k ∷ rest) s a b c ca cb f g =
      let t = call second k in
      let (g', e) = own_call scale key_max km no_trigger second k s b g in
      second_turn t rest s a b (refl, refl) e
        (all_Apart rest _ a _ (turn-Calm scale key_max km no_trigger t s c) ca
          (turn-Calm scale key_max km no_trigger t b cb)
          (other_turn scale key_max km no_trigger first t s a c refl f) g')
  all_Apart (work second now ∷ rest) s a b c ca cb f g =
      let t = work second now in
      let (g', e) = own_work scale key_max km no_trigger second now s b c cb.release g in
      second_turn t rest s a b (refl, refl) e
        (all_Apart rest _ a _ (turn-Calm scale key_max km no_trigger t s c) ca
          (turn-Calm scale key_max km no_trigger t b cb)
          (other_turn scale key_max km no_trigger first t s a c refl f) g')

module _ {D : Type 0} (scale : ℤ → D → ℤ) (key_max : ℕ) (m m' : KeyMap) (coeffs : MoveCoeffs D)
    (t t' : ℤ) where
  -- Let the second key map not name the gesture trigger. Two threads call a new handler, and their
  -- turns come in any order. Then each thread is where it would be if it had made its turns alone, and
  -- so is its controller's part of the handler; and the signals are those that each would have made
  -- alone, in its order.
  pub threads_stay_apart :
      (ts : List Turn)
      → has_lincode (key_psmove_gesture_trigger key_max) m' ≡ false
      → let h = new key_max m m' coeffs t t' in
        let (s, xs) = play scale key_max ts (idle h) in
        let (a, ys) = play scale key_max (turns_of first ts) (idle h) in
        let (b, zs) = play scale key_max (turns_of second ts) (idle h) in
        Tracks first s a × Tracks second s b × Shuffle ys zs xs
  unfolding new check_triggers
  threads_stay_apart ts no_trigger =
      let h = new key_max m m' coeffs t t' in
      let km : PerController KeyMap = record { fst = m; snd = m' } in
      let calm : Calm scale key_max km no_trigger (idle h) = record {
        fst_tasks = tt;
        snd_tasks = tt;
        maps = refl;
        release = refl;
      } in
      all_Apart scale key_max km no_trigger ts (idle h) (idle h) (idle h) calm calm calm
        (record { tasks = refl; part = Same-refl first h })
        (record { tasks = refl; part = Same-refl second h })
