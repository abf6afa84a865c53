-- ===== src/Threads/Calls.antt =====
-- psmove_handler.cpp: what a call of a slot puts before its thread.
use psmoveinput.Prelude.{◌^◌, ◌<◌, List, [], ◌∷◌, ◌≡◌, refl, All, ◌⊎◌, inl, inr}
use psmoveinput.Common.{ControllerId, first, second, PerController, at, put}
use psmoveinput.Handler.Following.{opposite}
use psmoveinput.Threads.State.{Task, Call, moved, changed, tasks_of, Turn, call}
use psmoveinput.Threads.Sound.{TaskFits}
use psmoveinput.Threads.Following.{IsForeign, NotLoop, rest_of}

-- The buttons of a call are a pattern of 32 bits.
abbrev pub TurnFits : Turn → Type 0
TurnFits (call c (changed buttons)) = buttons < 2 ^ 32
TurnFits _ = Unit {0}

pub NotLoop-rest_of : (ts : List Task) → All NotLoop ts → All NotLoop (rest_of ts)
NotLoop-rest_of [] k = tt
NotLoop-rest_of (t ∷ ts) k = k.1

pub tasks_of-TaskFits :
    (c : ControllerId) (k : Call) → TurnFits (call c k) → All TaskFits (tasks_of c k)
unfolding tasks_of
tasks_of-TaskFits first (moved gx gy) f = (tt, tt)
tasks_of-TaskFits second (moved gx gy) f = (tt, tt)
tasks_of-TaskFits first (changed buttons) f = (f, (tt, tt))
tasks_of-TaskFits second (changed buttons) f = (f, (tt, tt))

pub tasks_of-NotLoop : (c : ControllerId) (k : Call) → All NotLoop (tasks_of c k)
unfolding tasks_of
tasks_of-NotLoop first (moved gx gy) = (tt, tt)
tasks_of-NotLoop second (moved gx gy) = (tt, tt)
tasks_of-NotLoop first (changed buttons) = (tt, (tt, tt))
tasks_of-NotLoop second (changed buttons) = (tt, (tt, tt))

-- A thread calls the handler for its own controller.
pub tasks_of-IsForeign : (o : ControllerId) (k : Call) → All (IsForeign o) (tasks_of (opposite o) k)
unfolding tasks_of
tasks_of-IsForeign first (moved gx gy) = (tt, tt)
tasks_of-IsForeign second (moved gx gy) = (tt, tt)
tasks_of-IsForeign first (changed buttons) = (refl, (tt, tt))
tasks_of-IsForeign second (changed buttons) = (refl, (tt, tt))

pub same_or_opposite : (c o : ControllerId) → (c ≡ o) ⊎ (c ≡ opposite o)
same_or_opposite first first = inl refl
same_or_opposite first second = inr refl
same_or_opposite second first = inr refl
same_or_opposite second second = inl refl

module _ {A : Type 0} where
  pub at-put : (c : ControllerId) (p : PerController A) (x : A) → at (put p c x) c ≡ x
  at-put first p x = refl
  at-put second p x = refl

  pub at-put_elsewhere :
      (c : ControllerId) (p : PerController A) (x : A)
      → (at (put p c x) (opposite c) ≡ at p (opposite c)) × (at (put p (opposite c) x) c ≡ at p c)
  at-put_elsewhere first p x = (refl, refl)
  at-put_elsewhere second p x = (refl, refl)

  pub put-at : (c : ControllerId) (p : PerController A) → put p c (at p c) ≡ p
  put-at first p = refl
  put-at second p = refl

  pub put-put : (c : ControllerId) (p : PerController A) (x y : A) → put (put p c x) c y ≡ put p c y
  put-put first p x y = refl
  put-put second p x y = refl
