-- ===== src/UnitTests/Overlap/Kept.antt =====
-- test/psmove_handler_mt_test.cpp: what a turn of a thread does.
use mathlib.Core.Path.{subst}
use psmoveinput.Prelude.{
  ℕ, suc, ◌+◌, ◌<◌, ◌≤◌, bit_and, bit_not, List, [], ◌∷◌, ltb, ◌≡◌, refl, arith, inl, inr, sym,
  Bool-cases, ℤ,
}
use psmoveinput.Common.{ControllerId, at, put}
use psmoveinput.Handler.{Handler, Timespec, loop_fuel, Out}
use psmoveinput.Handler.Following.{opposite}
use psmoveinput.Threads.{Task, press, bits, check, perform}
use psmoveinput.Threads.Calls.{at-put, at-put_elsewhere}
use psmoveinput.UnitTests.Overlap.{Keys, buttons_at, Test, next_turn, key_events}
use psmoveinput.UnitTests.Overlap.Rounds.{Toggles-ne}
use psmoveinput.UnitTests.Overlap.Places.{
  Place, outside, entering, looping, checking, calls_of, IsPlace, next_place, after_calls, owed,
  stored_at, tasks_at, call-Toggles, Stands, Calm, Elsewhere,
}
use psmoveinput.UnitTests.Overlap.Actions.{worked, works, begins, loop_goes, loop_stops}

module _ {D : Type 0} (scale : ℤ → D → ℤ) (key_max : ℕ) (k : Keys) (num : ℕ) (c : ControllerId)
    (now : Timespec) (s : Test D) where
  -- After a turn from a place, the thread stands at the next one, and has reported what it no longer
  -- owes.
  abbrev pub Turned : Place → Out (Test D) → Type 0
  Turned pl (s', xs) =
      Stands k c (next_place num pl) s'
      × Calm k s'.threads.handler
      × Elsewhere c s s'
      × (key_events xs + owed k c (next_place num pl) + calls_of pl
          ≡ owed k c pl + calls_of (next_place num pl))

  worked-Elsewhere :
      (h : Handler D) (ts : List Task)
      → at h.buttons (opposite c) ≡ at s.threads.handler.buttons (opposite c)
      → Elsewhere c s (worked c h ts s)
  worked-Elsewhere h ts e = record {
    tasks = (at-put_elsewhere c s.threads.tasks ts).0;
    calls = refl;
    stored = e;
  }

  worked-Stands :
      (pl : Place) (h : Handler D)
      → at s.calls c ≡ calls_of pl
      → at h.buttons c ≡ stored_at k c pl
      → IsPlace pl
      → Stands k c pl (worked c h (tasks_at k c pl) s)
  worked-Stands pl h e e' placed = record {
    tasks = at-put c s.threads.tasks (tasks_at k c pl);
    calls = e;
    stored = e';
    placed = placed;
  }

  outside_Turned :
      (n : ℕ)
      → Stands k c (outside n) s
      → Calm k s.threads.handler
      → Turned (outside n) (next_turn scale key_max k num c now (at s.threads.tasks c) s)
  unfolding key_events
  outside_Turned n st calm =
      subst (Turned (outside n)) (sym (begins scale key_max k num c now s n st.tasks st.calls))
        (elim (Bool-cases (ltb n num)) [
          | inl more ↦ rw more (
            record {
              tasks = at-put c s.threads.tasks _;
              calls = at-put c s.calls (suc n);
              stored = st.stored;
              placed = tt;
            },
            record { maps = calm.maps; release = calm.release },
            record {
              tasks = (at-put_elsewhere c s.threads.tasks _).0;
              calls = (at-put_elsewhere c s.calls (suc n)).0;
              stored = refl;
            },
            omega arith,
          )
          | inr over ↦
              rw over (st, calm, record { tasks = refl; calls = refl; stored = refl }, omega arith)
        ])

  entering_Turned :
      (n : ℕ)
      → Stands k c (entering n) s
      → Calm k s.threads.handler
      → Turned (entering n) (next_turn scale key_max k num c now (at s.threads.tasks c) s)
  unfolding key_events perform
  entering_Turned n st calm =
      let h = s.threads.handler in
      let new = buttons_at k c n in
      let differs = Toggles-ne (at k.buttons c) (after_calls k c n) new (call-Toggles k c n) in
      let done =
        works scale key_max k num c now s (press new c) (check ∷ [])
          (bits loop_fuel (bit_and new (bit_not (after_calls k c n)))
              (bit_and (after_calls k c n) (bit_not new)) c 1 new
            ∷ [])
          h [] st.tasks (rw st.stored (rw differs refl)) in
      subst (Turned (entering n)) (sym done) (
        worked-Stands (looping n 0) h st.calls st.stored (omega arith),
        calm,
        worked-Elsewhere h _ refl,
        ground arith,
      )

  checking_Turned :
      (n : ℕ)
      → Stands k c (checking n) s
      → Calm k s.threads.handler
      → Turned (checking n) (next_turn scale key_max k num c now (at s.threads.tasks c) s)
  unfolding key_events perform
  checking_Turned n st calm =
      let h = s.threads.handler in
      let done =
        works scale key_max k num c now s check [] [] h [] st.tasks (rw calm.release refl) in
      subst (Turned (checking n)) (sym done) (
        worked-Stands (outside (suc n)) h st.calls st.stored tt,
        calm,
        worked-Elsewhere h _ refl,
        omega arith,
      )

  looping_Turned :
      (n i : ℕ)
      → at k.codes c ≤ key_max
      → at k.buttons c < 28
      → Stands k c (looping n i) s
      → Calm k s.threads.handler
      → Turned (looping n i) (next_turn scale key_max k num c now (at s.threads.tasks c) s)
  unfolding key_events
  looping_Turned n i plain low st calm =
      let h = s.threads.handler in
      elim (Bool-cases (ltb i 28)) [
        | inl more ↦
            let lt : i < 28 = ground arith in
            let done =
              works scale key_max k num c now s _ (check ∷ []) _ h _ st.tasks
                (loop_goes scale key_max k num c now s n i st.stored calm plain low lt) in
            subst (Turned (looping n i)) (sym done) (
              rw more (
                worked-Stands (looping n (suc i)) h st.calls st.stored lt,
                calm,
                worked-Elsewhere h _ refl,
                ground arith,
              ))
        | inr over ↦
            let e : i ≡ 28 = ground (arith, st.placed) in
            let new = buttons_at k c n in
            let h' : Handler D = record h { buttons = put h.buttons c new } in
            let done =
              works scale key_max k num c now s _ (check ∷ []) [] h' [] st.tasks
                (loop_stops scale key_max k num c now s n i _ _ e) in
            subst (Turned (looping n i)) (sym done) (
              rw over (
                worked-Stands (checking n) h' st.calls (at-put c h.buttons new) tt,
                record { maps = calm.maps; release = calm.release },
                worked-Elsewhere h' _ (at-put_elsewhere c h.buttons new).0,
                ground (arith, e),
              ))
      ]

  pub turn_Turned :
      (pl : Place)
      → at k.codes c ≤ key_max
      → at k.buttons c < 28
      → Stands k c pl s
      → Calm k s.threads.handler
      → Turned pl (next_turn scale key_max k num c now (at s.threads.tasks c) s)
  turn_Turned (outside n) plain low st calm = outside_Turned n st calm
  turn_Turned (entering n) plain low st calm = entering_Turned n st calm
  turn_Turned (looping n i) plain low st calm = looping_Turned n i plain low st calm
  turn_Turned (checking n) plain low st calm = checking_Turned n st calm
