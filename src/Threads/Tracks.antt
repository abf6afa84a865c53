-- ===== src/Threads/Tracks.antt =====
-- psmove_handler.cpp: a thread in two states that are the same as far as it goes.
use psmoveinput.Prelude.{
  ℕ, Bool, true, false, List, [], ◌∷◌, ◌++◌, if◌then◌else◌, ◌≡◌, refl, sym, ◌∙◌, ap, arith, ℤ, All,
  All-append,
}
use psmoveinput.Common.{
  ControllerId, first, second, KeyMap, PerController, at, put, key_psmove_gesture_trigger,
}
use psmoveinput.Handler.{Handler, Timespec, Signal, has_lincode, new}
use psmoveinput.Handler.Following.{opposite}
use psmoveinput.Threads.State.{
  Task, Call, moved, changed, tasks_of, Threads, Turn, call, work, perform, begin_call, work_on,
  turn,
}
use psmoveinput.Threads.Calls.{at-put, at-put_elsewhere}
use psmoveinput.Threads.Sound.{perform_calm}
use psmoveinput.Threads.Local.{IsOwn, Same, Same-trans, maps_agree}
use psmoveinput.Threads.Actions.{perform-Same, perform-Leaves, perform-IsOwn}

-- The turns of one thread.
abbrev pub is_by : ControllerId → Turn → Bool
is_by first (call first k) = true
is_by first (work first now) = true
is_by second (call second k) = true
is_by second (work second now) = true
is_by _ _ = false

unfoldable pub turns_of : ControllerId → List Turn → List Turn
turns_of o [] = []
turns_of o (t ∷ rest) = let ts = turns_of o rest in if is_by o t then t ∷ ts else ts

tasks_of-IsOwn : (c : ControllerId) (k : Call) → All (IsOwn c) (tasks_of c k)
unfolding tasks_of
tasks_of-IsOwn first (moved gx gy) = (tt, tt)
tasks_of-IsOwn second (moved gx gy) = (tt, tt)
tasks_of-IsOwn first (changed buttons) = (refl, (tt, tt))
tasks_of-IsOwn second (changed buttons) = (refl, (tt, tt))

Same-sym : {D : Type 0} (c : ControllerId) (h g : Handler D) → Same c h g → Same c g h
Same-sym first h g s = ground arith
Same-sym second h g s = ground arith

module _ {D : Type 0} where
  -- The second state is the first one as far as a thread and its part of the handler go.
  pub record Tracks (o : ControllerId) (s r : Threads D) : Type 0 where
    pub tasks : at r.tasks o ≡ at s.tasks o
    pub part : Same o s.handler r.handler

module _ {D : Type 0} (scale : ℤ → D → ℤ) (key_max : ℕ) (km : PerController KeyMap)
    (no_trigger : has_lincode (key_psmove_gesture_trigger key_max) km.snd ≡ false) where
  -- Both threads have tasks of their own only, and no gesture keys are to be released.
  pub record Calm (s : Threads D) : Type 0 where
    pub fst_tasks : All (IsOwn first) s.tasks.fst
    pub snd_tasks : All (IsOwn second) s.tasks.snd
    pub maps : s.handler.keymaps ≡ km
    pub release : s.handler.release_gesture_keys ≡ false

  tasks_of_thread : (o : ControllerId) (s : Threads D) → Calm s → All (IsOwn o) (at s.tasks o)
  tasks_of_thread first s c = c.fst_tasks
  tasks_of_thread second s c = c.snd_tasks

  -- A thread's action keeps this.
  placed :
      (o : ControllerId) (ts : List Task) (h : Handler D) (s : Threads D)
      → Calm s
      → All (IsOwn o) ts
      → h.keymaps ≡ km
      → h.release_gesture_keys ≡ false
      → Calm (record { handler = h; tasks = put s.tasks o ts })
  placed first ts h s c own maps release = record {
    fst_tasks = own;
    snd_tasks = c.snd_tasks;
    maps = maps;
    release = release;
  }
  placed second ts h s c own maps release = record {
    fst_tasks = c.fst_tasks;
    snd_tasks = own;
    maps = maps;
    release = release;
  }

  work-Calm :
      (o : ControllerId) (now : Timespec) (ts : List Task) (s : Threads D)
      → All (IsOwn o) ts
      → Calm s
      → Calm (work_on scale key_max o now ts s).0
  unfolding work_on
  work-Calm o now [] s own c = c
  work-Calm o now (t ∷ rest) s (own, owns) c =
      let ((h', ts), xs) = perform scale key_max now t s.handler in
      placed o (ts ++ rest) h' s c
        (All-append (IsOwn o) ts rest (perform-IsOwn scale key_max o now t s.handler own c.release)
          owns)
        (kept o t own) (perform_calm scale key_max km no_trigger now t s.handler c.maps c.release)
    where
      kept :
          (o : ControllerId) (t : Task)
          → IsOwn o t
          → (perform scale key_max now t s.handler).0.0.keymaps ≡ km
      kept first t own =
          maps_agree second _ _ (perform-Leaves scale key_max second now t s.handler own) ∙ c.maps
      kept second t own =
          maps_agree first _ _ (perform-Leaves scale key_max first now t s.handler own) ∙ c.maps

  call-Calm :
      (o : ControllerId) (k : Call) (ts : List Task) (s : Threads D)
      → Calm s
      → Calm (begin_call scale key_max o (tasks_of o k) ts s).0
  call-Calm o k [] s c = placed o (tasks_of o k) s.handler s c (tasks_of-IsOwn o k) c.maps c.release
  call-Calm o k (t ∷ rest) s c = c

  pub turn-Calm : (t : Turn) (s : Threads D) → Calm s → Calm (turn scale key_max t s).0
  unfolding turn
  turn-Calm (call o k) s c = call-Calm o k _ s c
  turn-Calm (work o now) s c = work-Calm o now _ s (tasks_of_thread o s c) c

  -- A turn of the thread does the same in a state that tracks this one.
  abbrev pub AlikeTurn : ControllerId → Threads D × List Signal → Threads D × List Signal → Type 0
  AlikeTurn o (s, xs) (r, ys) = Tracks o s r × (ys ≡ xs)

  work-Tracks :
      (o : ControllerId) (now : Timespec) (ts : List Task) (s r : Threads D)
      → All (IsOwn o) ts
      → s.handler.release_gesture_keys ≡ false
      → r.handler.release_gesture_keys ≡ false
      → Tracks o s r
      → AlikeTurn o (work_on scale key_max o now ts s) (work_on scale key_max o now ts r)
  unfolding work_on
  work-Tracks o now [] s r own a b k = (k, refl)
  work-Tracks o now (t ∷ rest) s r own a b k =
      let (part, new, same) =
        perform-Same scale key_max o now t s.handler r.handler own.0 a b k.part in
      (
        record {
          tasks = at-put o r.tasks _ ∙ ap (λ ts. ts ++ rest) new ∙ sym (at-put o s.tasks _);
          part = part;
        },
        same,
      )

  call-Tracks :
      (o : ControllerId) (k : Call) (ts : List Task) (s r : Threads D)
      → Tracks o s r
      → AlikeTurn o
          (begin_call scale key_max o (tasks_of o k) ts s)
          (begin_call scale key_max o (tasks_of o k) ts r)
  call-Tracks o k [] s r tr =
      (record { tasks = at-put o r.tasks _ ∙ sym (at-put o s.tasks _); part = tr.part }, refl)
  call-Tracks o k (t ∷ rest) s r tr = (tr, refl)

  pub own_call :
      (o : ControllerId) (k : Call) (s r : Threads D)
      → Tracks o s r
      → AlikeTurn o (turn scale key_max (call o k) s) (turn scale key_max (call o k) r)
  unfolding turn
  own_call o k s r tr = rw (tr.tasks) (call-Tracks o k (at s.tasks o) s r tr)

  pub own_work :
      (o : ControllerId) (now : Timespec) (s r : Threads D)
      → Calm s
      → r.handler.release_gesture_keys ≡ false
      → Tracks o s r
      → AlikeTurn o (turn scale key_max (work o now) s) (turn scale key_max (work o now) r)
  unfolding turn
  own_work o now s r c b tr =
      rw (tr.tasks) (work-Tracks o now (at s.tasks o) s r (tasks_of_thread o s c) c.release b tr)

  -- A turn of the other thread changes nothing of this.
  other_call :
      (o : ControllerId) (k : Call) (ts : List Task) (s r : Threads D)
      → Tracks o s r
      → Tracks o (begin_call scale key_max (opposite o) (tasks_of (opposite o) k) ts s).0 r
  other_call o k [] s r tr = record {
    tasks = tr.tasks ∙ sym (at-put_elsewhere o s.tasks _).1;
    part = tr.part;
  }
  other_call o k (t ∷ rest) s r tr = tr

  other_work :
      (o : ControllerId) (now : Timespec) (ts : List Task) (s r : Threads D)
      → All (IsOwn (opposite o)) ts
      → Tracks o s r
      → Tracks o (work_on scale key_max (opposite o) now ts s).0 r
  unfolding work_on
  other_work o now [] s r own tr = tr
  other_work o now (t ∷ rest) s r own tr = record {
    tasks = tr.tasks ∙ sym (at-put_elsewhere o s.tasks _).1;
    part =
        Same-trans o _ _ _ (Same-sym o _ _ (perform-Leaves scale key_max o now t s.handler own.0))
          tr.part;
  }

  pub other_turn :
      (o : ControllerId) (t : Turn) (s r : Threads D)
      → Calm s
      → is_by (opposite o) t ≡ true
      → Tracks o s r
      → Tracks o (turn scale key_max t s).0 r
  unfolding turn
  other_turn first (call second k) s r c e tr = other_call first k _ s r tr
  other_turn second (call first k) s r c e tr = other_call second k _ s r tr
  other_turn first (work second now) s r c e tr = other_work first now _ s r c.snd_tasks tr
  other_turn second (work first now) s r c e tr = other_work second now _ s r c.fst_tasks tr
  other_turn first (call first k) s r c e tr = absurd (ground arith)
  other_turn second (call second k) s r c e tr = absurd (ground arith)
  other_turn first (work first now) s r c e tr = absurd (ground arith)
  other_turn second (work second now) s r c e tr = absurd (ground arith)
