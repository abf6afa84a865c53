-- ===== src/Program/Well.antt =====
-- psmove_listener.cpp and psmove_handler.cpp: what holds of the handler while the threads call it.

use psmoveinput.Prelude.{ℕ, List, [], ◌∷◌, Option, ◌≡◌, ◌≢◌, arith, All}
use psmoveinput.Common.{ControllerId, first, second, PerController, KeyMap}
use psmoveinput.Handler.{Timespec, Signal, move, key, mwheel, disconnect, reset}
use psmoveinput.Handler.Session.{IsInt32}
use psmoveinput.Handler.Valid.{IsValid}
use psmoveinput.Handler.Emitted.{KeyIn}
use psmoveinput.Listener.{CanDivide, Device, Listener, handle_new_device, on_disconnect, Emission}
use psmoveinput.Listener.Kept.{IsEmitted}
use psmoveinput.Program.State.{
  MainLoop, top, joining, waiting, connecting, starting, finished, crashed, Program, Output, signal,
  Answers, report,
}
use psmoveinput.Program.Step.{
  serve, after_joins, joined, main_step, detach, enter_loop, release_device, notify_listener,
  release_joined, notify_joined,
}
use psmoveinput.Program.Reach.{Leads, IsPattern}

-- The report of a thread's emission has a button state of 32 bits.
pub report-IsInt32 :
    (clock : ℕ → Timespec) (c : ControllerId) (e : Emission)
    → IsEmitted IsPattern c e
    → IsInt32 (report clock e)
unfolding report
report-IsInt32 clock c (Emission.gyro gx gy) k = tt
report-IsInt32 clock c (Emission.gesture gx gy) k = tt
report-IsInt32 clock c (Emission.button b d) k = k.0

module _ (P : ℕ → Type 0) where
  -- A key that the program reports has a code with P.
  abbrev pub OutputIn : Output → Type 0
  OutputIn (signal s) = KeyIn P s
  OutputIn _ = Unit {0}

  pub serve-OutputIn :
      (xs : List Signal) (l : Listener) → All (KeyIn P) xs → All OutputIn (serve xs l).1
  unfolding serve
  serve-OutputIn [] l k = tt
  serve-OutputIn (disconnect c ∷ rest) l k = (tt, serve-OutputIn rest _ k.1)
  serve-OutputIn (move dx dy ∷ rest) l k = (tt, serve-OutputIn rest l k.1)
  serve-OutputIn (key code pressed ∷ rest) l k = (k.0, serve-OutputIn rest l k.1)
  serve-OutputIn (mwheel v ∷ rest) l k = (tt, serve-OutputIn rest l k.1)

  module _ {D : Type 0} (key_max : ℕ) (km : PerController KeyMap) where
    pub record IsWell (p : Program D) : Type 0 where
      pub alive : p.main ≢ crashed
      pub needed :
          CanDivide p.listener.poll_timeout p.listener.led_timeout p.listener.gesture_timeout
      pub valid : IsValid key_max p.handler
      pub maps : p.handler.keymaps ≡ km

    -- A step that is possible keeps this, and reports only keys with P.
    abbrev pub Serves : Program D → List Output → Type 0
    Serves q ys = IsWell q × All OutputIn ys

    joined-Serves : (c : ControllerId) (p : Program D) → IsWell p → Leads Serves (joined c p)
    unfolding after_joins reset
    joined-Serves first p w = ground arith
    joined-Serves second p w = ground arith

    pub main_step-Serves :
        (a : Answers) (m : MainLoop) (p : Program D) → IsWell p → Leads Serves (main_step a m p)
    unfolding main_step handle_new_device
    main_step-Serves a top p w = ground arith
    main_step-Serves a (joining c) p w = ground (arith, joined-Serves c p w)
    main_step-Serves a (waiting c late) p w = ground (arith, joined-Serves c p w)
    main_step-Serves a connecting p w = ground arith
    main_step-Serves a (starting i device) p w = ground arith
    main_step-Serves a finished p w = tt
    main_step-Serves a crashed p w = tt

    detach_alive :
        (c : ControllerId) (p : Program D) → p.main ≢ crashed → (detach c p).main ≢ crashed
    unfolding detach
    detach_alive c p a = ground arith

    pub detach-IsWell : (c : ControllerId) (p : Program D) → IsWell p → IsWell (detach c p)
    unfolding detach
    detach-IsWell c p w = record {
      alive = detach_alive c p w.alive;
      needed = ground arith;
      valid = w.valid;
      maps = w.maps;
    }

    pub enter_loop-Serves :
        (c : ControllerId) (o : Option Device) (p : Program D)
        → IsWell p
        → Leads Serves (enter_loop c o p)
    unfolding enter_loop
    enter_loop-Serves c o p w = ground arith

    pub release_device-Serves :
        (c : ControllerId) (n : ℕ) (p : Program D) → IsWell p → Leads Serves (release_device c n p)
    unfolding release_device
    release_device-Serves c n p w = ground arith

    pub notify_listener-Serves :
        (c : ControllerId) (n : ℕ) (p : Program D) → IsWell p → Leads Serves (notify_listener c n p)
    unfolding notify_listener on_disconnect
    notify_listener-Serves c n p w = ground arith

    pub release_joined-Serves :
        (m : MainLoop) (p : Program D) → IsWell p → Leads Serves (release_joined m p)
    unfolding release_joined
    release_joined-Serves m p w = ground arith

    pub notify_joined-Serves :
        (m : MainLoop) (p : Program D) → IsWell p → Leads Serves (notify_joined m p)
    unfolding notify_joined on_disconnect
    notify_joined-Serves m p w = ground arith
