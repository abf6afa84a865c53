-- ===== src/UnitTests/Overlap/Passes.antt =====
-- test/psmove_handler_mt_test.cpp: the test passes, in whatever order the threads have their turns.
use psmoveinput.Prelude.{ℕ, ◌+◌, ◌-◌, ◌*◌, ◌<◌, ◌≤◌, List, [], ◌∷◌, ◌++◌, ◌≡◌, refl, arith, ◌∙◌, ℤ}
use psmoveinput.Common.{ControllerId, first, second, at, MoveCoeffs}
use psmoveinput.Handler.{Timespec, Signal, key, move, disconnect, mwheel, new, check_triggers}
use psmoveinput.Handler.Following.{opposite}
use psmoveinput.UnitTests.Overlap.{
  Keys, map_of, Test, set_up_threads, next_turn, run_threads, key_events, turns_for,
}
use psmoveinput.UnitTests.Overlap.Places.{
  Place, outside, entering, looping, checking, calls_of, IsPlace, turns_left, next_place, owed,
  tasks_at, Stands, Calm, Elsewhere,
}
use psmoveinput.UnitTests.Overlap.Kept.{turn_Turned}

key_events-append : (xs ys : List Signal) → key_events (xs ++ ys) ≡ key_events xs + key_events ys
unfolding key_events
key_events-append [] ys = omega arith
key_events-append (key code pressed ∷ xs) ys = omega (arith, key_events-append xs ys)
key_events-append (move dx dy ∷ xs) ys = key_events-append xs ys
key_events-append (disconnect c ∷ xs) ys = key_events-append xs ys
key_events-append (mwheel value ∷ xs) ys = key_events-append xs ys

-- The turns that a thread needs until it has made all its calls.
abbrev to_go : ℕ → Place → ℕ
to_go num pl = 32 * (num - calls_of pl) + turns_left pl

next_to_go :
    (num : ℕ) (pl : Place)
    → IsPlace pl
    → calls_of pl ≤ num
    → (to_go num (next_place num pl) ≡ to_go num pl - 1) × (calls_of (next_place num pl) ≤ num)
next_to_go num (outside n) v le = ground arith
next_to_go num (entering n) v le = ground arith
next_to_go num (looping n i) v le = ground arith
next_to_go num (checking n) v le = ground arith

-- A thread with nothing to do has made its calls, and owes no report.
at_end :
    (k : Keys) (c : ControllerId) (num : ℕ) (pl : Place)
    → IsPlace pl
    → calls_of pl ≤ num
    → to_go num pl ≡ 0
    → (calls_of pl ≡ num) × (owed k c pl ≡ 0) × (tasks_at k c pl ≡ [])
at_end k c num (outside n) v le e = (omega arith, refl, refl)
at_end k c num (entering n) v le e = absurd (omega arith)
at_end k c num (looping n i) v le e = absurd (omega (arith, v))
at_end k c num (checking n) v le e = absurd (omega arith)

Elsewhere-Stands :
    {D : Type 0} (k : Keys) (c : ControllerId) (pl : Place) (s s' : Test D)
    → Elsewhere c s s'
    → Stands k (opposite c) pl s
    → Stands k (opposite c) pl s'
Elsewhere-Stands k c pl s s' w st = record {
  tasks = w.tasks ∙ st.tasks;
  calls = w.calls ∙ st.calls;
  stored = w.stored ∙ st.stored;
  placed = st.placed;
}

-- Where the two threads stand.
record Both {D : Type 0} (k : Keys) (num : ℕ) (p q : Place) (s : Test D) : Type 0 where
  fst_stands : Stands k first p s
  snd_stands : Stands k second q s
  calm : Calm k s.threads.handler
  fst_within : calls_of p ≤ num
  snd_within : calls_of q ≤ num

-- After some turns, with the reports and the turns that have been made.
abbrev Counted :
    {D : Type 0}
    → Keys
    → ℕ
    → List (ControllerId × Timespec)
    → Place
    → Place
    → Test D × List Signal
    → Type 0
Counted k num ts p q (s, xs) =
    (p' : Place) × (q' : Place) × Both k num p' q' s
    × (key_events xs + owed k first p' + owed k second q' + calls_of p + calls_of q
        ≡ owed k first p + owed k second q + calls_of p' + calls_of q')
    × (to_go num p' ≡ to_go num p - turns_for first ts)
    × (to_go num q' ≡ to_go num q - turns_for second ts)

module _ {D : Type 0} (scale : ℤ → D → ℤ) (key_max : ℕ) (k : Keys) (num : ℕ)
    (plain : (c : ControllerId) → at k.codes c ≤ key_max)
    (low : (c : ControllerId) → at k.buttons c < 28) where
  first_Counted :
      (now : Timespec) (ts : List (ControllerId × Timespec)) (p q : Place) (s : Test D)
      → Both k num p q s
      → ((p' : Place) (s' : Test D)
          → Both k num p' q s'
          → Counted k num ts p' q (run_threads scale key_max k num ts s'))
      → Counted k num
          ((first, now) ∷ ts)
          p
          q
          (run_threads scale key_max k num ((first, now) ∷ ts) s)
  unfolding run_threads turns_for
  first_Counted now ts p q s b ih =
      let (s', xs) = next_turn scale key_max k num first now (at s.threads.tasks first) s in
      let (stands, calm, elsewhere, sum) =
        turn_Turned scale key_max k num first now s p (plain first) (low first) b.fst_stands
          b.calm in
      let (goes, within) = next_to_go num p b.fst_stands.placed b.fst_within in
      let b' : Both k num (next_place num p) q s' = record {
        fst_stands = stands;
        snd_stands = Elsewhere-Stands k first q s s' elsewhere b.snd_stands;
        calm = calm;
        fst_within = within;
        snd_within = b.snd_within;
      } in
      let (p', q', both, total, fst_goes, snd_goes) = ih (next_place num p) s' b' in
      (
        p',
        q',
        both,
        omega (arith, key_events-append xs (run_threads scale key_max k num ts s').1, sum, total),
        omega (arith, fst_goes, goes),
        snd_goes,
      )

  second_Counted :
      (now : Timespec) (ts : List (ControllerId × Timespec)) (p q : Place) (s : Test D)
      → Both k num p q s
      → ((q' : Place) (s' : Test D)
          → Both k num p q' s'
          → Counted k num ts p q' (run_threads scale key_max k num ts s'))
      → Counted k num
          ((second, now) ∷ ts)
          p
          q
          (run_threads scale key_max k num ((second, now) ∷ ts) s)
  unfolding run_threads turns_for
  second_Counted now ts p q s b ih =
      let (s', xs) = next_turn scale key_max k num second now (at s.threads.tasks second) s in
      let (stands, calm, elsewhere, sum) =
        turn_Turned scale key_max k num second now s q (plain second) (low second) b.snd_stands
          b.calm in
      let (goes, within) = next_to_go num q b.snd_stands.placed b.snd_within in
      let b' : Both k num p (next_place num q) s' = record {
        fst_stands = Elsewhere-Stands k second p s s' elsewhere b.fst_stands;
        snd_stands = stands;
        calm = calm;
        fst_within = b.fst_within;
        snd_within = within;
      } in
      let (p', q', both, total, fst_goes, snd_goes) = ih (next_place num q) s' b' in
      (
        p',
        q',
        both,
        omega (arith, key_events-append xs (run_threads scale key_max k num ts s').1, sum, total),
        fst_goes,
        omega (arith, snd_goes, goes),
      )

  all_Counted :
      (ts : List (ControllerId × Timespec)) (p q : Place) (s : Test D)
      → Both k num p q s
      → Counted k num ts p q (run_threads scale key_max k num ts s)
  unfolding run_threads turns_for key_events
  all_Counted [] p q s b = (p, q, b, omega arith, omega arith, omega arith)
  all_Counted ((first, now) ∷ ts) p q s b =
      first_Counted now ts p q s b (λ p' s' b'. all_Counted ts p' q s' b')
  all_Counted ((second, now) ∷ ts) p q s b =
      second_Counted now ts p q s b (λ q' s' b'. all_Counted ts p q' s' b')

  -- The test MultipleThreads, with any button of the lowest 28 and any key code at most KEY_MAX for
  -- each thread, and any number of calls: in whatever order the threads have their turns, if each has
  -- 32 of them for every call that it is to make, then both come to their ends, and the listener has
  -- heard one key event for each call of each thread.
  pub multiple_threads_pass :
      (coeffs : MoveCoeffs D) (ts : List (ControllerId × Timespec))
      → 32 * num ≤ turns_for first ts
      → 32 * num ≤ turns_for second ts
      → let (s, xs) = run_threads scale key_max k num ts (set_up_threads key_max k coeffs) in
        (at s.threads.tasks first ≡ [])
        × (at s.threads.tasks second ≡ [])
        × (key_events xs ≡ num * 2)
  unfolding set_up_threads new check_triggers
  multiple_threads_pass coeffs ts enough enough' =
      let start : Both k num (outside 0) (outside 0) (set_up_threads key_max k coeffs) = record {
        fst_stands = record { tasks = refl; calls = refl; stored = refl; placed = tt };
        snd_stands = record { tasks = refl; calls = refl; stored = refl; placed = tt };
        calm = record { maps = maps_at_start; release = refl };
        fst_within = omega arith;
        snd_within = omega arith;
      } in
      let (p, q, b, total, fst_goes, snd_goes) =
        all_Counted ts (outside 0) (outside 0) (set_up_threads key_max k coeffs) start in
      let (n, o, none_left) =
        at_end k first num p b.fst_stands.placed b.fst_within (omega (arith, fst_goes, enough)) in
      let (n', o', none_left') =
        at_end k second num q b.snd_stands.placed b.snd_within (omega (arith, snd_goes, enough')) in
      (
        b.fst_stands.tasks ∙ none_left,
        b.snd_stands.tasks ∙ none_left',
        omega (arith, total, n, o, n', o'),
      )
    where
      maps_at_start :
          (c : ControllerId)
          → at (set_up_threads key_max k coeffs).threads.handler.keymaps c ≡ map_of k c
      maps_at_start first = refl
      maps_at_start second = refl
