-- ===== src/Threads/Interleaved.antt =====
-- psmove_handler.cpp: what holds of a key while the actions of the two threads come in any order.
use psmoveinput.Prelude.{
  ℕ, ◌≤◌, Bool, false, List, [], ◌∷◌, ◌++◌, ◌≡◌, refl, ℤ, All, All-append, inl, inr,
}
use psmoveinput.Common.{ControllerId, second, KeyMap, PerController, at, key_psmove_gesture_trigger}
use psmoveinput.Handler.{Handler, Timespec, has_lincode}
use psmoveinput.Handler.Changes.{held, held-append}
use psmoveinput.Handler.Following.{IsOwner, opposite, Ready}
use psmoveinput.Threads.State.{
  Task, Call, tasks_of, Threads, Turn, call, work, perform, begin_call, work_on, turn, play,
}
use psmoveinput.Threads.Sound.{TaskFits, perform-Ready, perform-TaskFits, perform_calm}
use psmoveinput.Threads.Following.{
  IsForeign, NotLoop, rest_of, Expected, NotLoop-Expected, append-Expected, moved-Expected,
  perform-Apart,
}
use psmoveinput.Threads.Together.{perform-Together}
use psmoveinput.Threads.Calls.{
  TurnFits, tasks_of-TaskFits, tasks_of-NotLoop, tasks_of-IsForeign, NotLoop-rest_of,
  same_or_opposite, at-put, at-put_elsewhere,
}

module _ {D : Type 0} (scale : ℤ → D → ℤ) (key_max code j : ℕ) (plain : code ≤ key_max)
    (km : PerController KeyMap) (o : ControllerId) (owner : IsOwner km o code j)
    (no_trigger : o ≡ second
      → has_lincode (key_psmove_gesture_trigger key_max) km.snd ≡ false) where
  -- What holds of the tasks of the key's own thread, those of the other, and the handler.
  pub record Holds (own other : List Task) (h : Handler D) (b : Bool) : Type 0 where
    pub ready : Ready km h
    pub calm : o ≡ second → h.release_gesture_keys ≡ false
    pub own_fits : All TaskFits own
    pub other_fits : All TaskFits other
    pub own_rest : All NotLoop (rest_of own)
    pub apart : All (IsForeign o) other
    pub expected : Expected scale key_max code j plain km o own h b

  own_action :
      (now : Timespec) (t : Task) (rest other : List Task) (h : Handler D) (b : Bool)
      → Holds (t ∷ rest) other h b
      → let ((h', ts), xs) = perform scale key_max now t h in
        Holds (ts ++ rest) other h' (held code xs b)
  own_action now t rest other h b v =
      let ((h', ts), xs) = perform scale key_max now t h in
      let (left, expected) =
        perform-Together scale key_max code j plain km o now t h b owner v.ready v.own_fits.0
          v.expected in
      record {
        ready = perform-Ready scale key_max km now t h v.ready v.own_fits.0;
        calm = λ e. perform_calm scale key_max km (no_trigger e) now t h v.ready.maps (v.calm e);
        own_fits =
            All-append TaskFits ts rest
              (perform-TaskFits scale key_max km now t h v.ready v.own_fits.0) v.own_fits.1;
        other_fits = v.other_fits;
        own_rest = joined ts left;
        apart = v.apart;
        expected =
            append-Expected scale key_max code j plain km o ts rest h' (held code xs b) v.own_rest
              expected;
      }
    where
      joined : (ts : List Task) → All NotLoop (rest_of ts) → All NotLoop (rest_of (ts ++ rest))
      joined [] k = NotLoop-rest_of rest v.own_rest
      joined (t ∷ ts) k = All-append NotLoop ts rest k v.own_rest

  other_action :
      (now : Timespec) (t : Task) (own rest : List Task) (h : Handler D) (b : Bool)
      → Holds own (t ∷ rest) h b
      → let ((h', ts), xs) = perform scale key_max now t h in
        Holds own (ts ++ rest) h' (held code xs b)
  other_action now t own rest h b v =
      let ((h', ts), xs) = perform scale key_max now t h in
      let (quiet, same, apart) =
        perform-Apart scale key_max code j plain km o now t h b owner v.ready v.other_fits.0
          v.apart.0 v.calm in
      record {
        ready = perform-Ready scale key_max km now t h v.ready v.other_fits.0;
        calm = λ e. perform_calm scale key_max km (no_trigger e) now t h v.ready.maps (v.calm e);
        own_fits = v.own_fits;
        other_fits =
            All-append TaskFits ts rest
              (perform-TaskFits scale key_max km now t h v.ready v.other_fits.0) v.other_fits.1;
        own_rest = v.own_rest;
        apart = All-append (IsForeign o) ts rest apart v.apart.1;
        expected =
            moved-Expected scale key_max code j plain km o own h h' b (held code xs b) quiet same
              v.expected;
      }

  called_own :
      (k : Call) (other : List Task) (h : Handler D) (b : Bool)
      → TurnFits (call o k)
      → Holds [] other h b
      → Holds (tasks_of o k) other h b
  called_own k other h b f v = record {
    ready = v.ready;
    calm = v.calm;
    own_fits = tasks_of-TaskFits o k f;
    other_fits = v.other_fits;
    own_rest = NotLoop-rest_of (tasks_of o k) (tasks_of-NotLoop o k);
    apart = v.apart;
    expected =
        NotLoop-Expected scale key_max code j plain km o (tasks_of o k) h b (tasks_of-NotLoop o k)
          v.expected;
  }

  called_other :
      (k : Call) (own : List Task) (h : Handler D) (b : Bool)
      → TurnFits (call (opposite o) k)
      → Holds own [] h b
      → Holds own (tasks_of (opposite o) k) h b
  called_other k own h b f v = record {
    ready = v.ready;
    calm = v.calm;
    own_fits = v.own_fits;
    other_fits = tasks_of-TaskFits (opposite o) k f;
    own_rest = v.own_rest;
    apart = tasks_of-IsForeign o k;
    expected = v.expected;
  }

  abbrev pub HoldsIn : Threads D → Bool → Type 0
  HoldsIn s b = Holds (at s.tasks o) (at s.tasks (opposite o)) s.handler b

  own_work :
      (now : Timespec) (ts : List Task) (s : Threads D) (b : Bool)
      → at s.tasks o ≡ ts
      → HoldsIn s b
      → let (s', xs) = work_on scale key_max o now ts s in HoldsIn s' (held code xs b)
  unfolding work_on held
  own_work now [] s b e v = v
  own_work now (t ∷ rest) s b e v =
      let ((h', ts), xs) = perform scale key_max now t s.handler in
      rw (at-put o s.tasks (ts ++ rest), (at-put_elsewhere o s.tasks (ts ++ rest)).0)
        (own_action now t rest (at s.tasks (opposite o)) s.handler b (rw e at v))

  other_work :
      (now : Timespec) (ts : List Task) (s : Threads D) (b : Bool)
      → at s.tasks (opposite o) ≡ ts
      → HoldsIn s b
      → let (s', xs) = work_on scale key_max (opposite o) now ts s in HoldsIn s' (held code xs b)
  unfolding work_on held
  other_work now [] s b e v = v
  other_work now (t ∷ rest) s b e v =
      let ((h', ts), xs) = perform scale key_max now t s.handler in
      rw (at-put (opposite o) s.tasks (ts ++ rest), (at-put_elsewhere o s.tasks (ts ++ rest)).1)
        (other_action now t (at s.tasks o) rest s.handler b (rw e at v))

  own_call :
      (k : Call) (ts : List Task) (s : Threads D) (b : Bool)
      → at s.tasks o ≡ ts
      → TurnFits (call o k)
      → HoldsIn s b
      → let (s', xs) = begin_call scale key_max o (tasks_of o k) ts s in HoldsIn s' (held code xs b)
  unfolding held
  own_call k [] s b e f v =
      rw (at-put o s.tasks (tasks_of o k), (at-put_elsewhere o s.tasks (tasks_of o k)).0)
        (called_own k (at s.tasks (opposite o)) s.handler b f (rw e at v))
  own_call k (t ∷ rest) s b e f v = v

  other_call :
      (k : Call) (ts : List Task) (s : Threads D) (b : Bool)
      → at s.tasks (opposite o) ≡ ts
      → TurnFits (call (opposite o) k)
      → HoldsIn s b
      → let (s', xs) = begin_call scale key_max (opposite o) (tasks_of (opposite o) k) ts s in
        HoldsIn s' (held code xs b)
  unfolding held
  other_call k [] s b e f v =
      rw
        (
          at-put (opposite o) s.tasks (tasks_of (opposite o) k),
          (at-put_elsewhere o s.tasks (tasks_of (opposite o) k)).1,
        )
        (called_other k (at s.tasks o) s.handler b f (rw e at v))
  other_call k (t ∷ rest) s b e f v = v

  turn-Holds :
      (t : Turn) (s : Threads D) (b : Bool)
      → TurnFits t
      → HoldsIn s b
      → let (s', xs) = turn scale key_max t s in HoldsIn s' (held code xs b)
  unfolding turn
  turn-Holds (call c k) s b f v = elim (same_or_opposite c o) [
    | inl e ↦ rw e (own_call k _ s b refl f v)
    | inr e ↦ rw e (other_call k _ s b refl f v)
  ]
  turn-Holds (work c now) s b f v = elim (same_or_opposite c o) [
    | inl e ↦ rw e (own_work now _ s b refl v)
    | inr e ↦ rw e (other_work now _ s b refl v)
  ]

  pub play-Holds :
      (ts : List Turn) (s : Threads D) (b : Bool)
      → All TurnFits ts
      → HoldsIn s b
      → let (s', xs) = play scale key_max ts s in HoldsIn s' (held code xs b)
  unfolding play held
  play-Holds [] s b f v = v
  play-Holds (t ∷ rest) s b f v =
      let (s', xs) = turn scale key_max t s in
      let (s'', ys) = play scale key_max rest s' in
      rw (held-append code xs ys b)
        (play-Holds rest s' (held code xs b) f.1 (turn-Holds t s b f.0 v))
