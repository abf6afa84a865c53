-- ===== src/Listener/State.antt =====
-- psmove_listener.cpp: `PSMoveListener` and the parts of `ControllerThread` around its loop. What
-- psmoveapi and Bluetooth answer is given.
use Prim.Native.String.{String}
use Prim.Native.String
use psmoveinput.Prelude.{
  ℕ, zero, suc, Bool, true, false, ◌&&◌, ◌||◌, not, List, [], ◌∷◌, Option, none, some, ◌==◌,
  if◌then◌else◌, ℤ, pos,
}
use psmoveinput.Common.{
  ControllerId, first, second, PerController, at, OpMode, standalone, client, max_controllers,
}
use psmoveinput.Handler.{zero_time}
use psmoveinput.Listener.Polling.{Thread, Round}

-- What a `PSMove *` that is not null stands for: the serial number, and whether there is calibration
-- data.
pub record Device : Type 0 where
  pub serial : String
  pub has_calibration : Bool

-- What `psmove_connect_by_id` and `psmove_connection_type` answer for an id.
pub record Connection : Type 0 where
  pub handle : Option Device
  pub is_bluetooth : Bool

-- `thread_` with the fate of the thread that it points to: a null pointer; a thread before its loop;
-- one at the top of its loop; one that still has these emissions of its round to make, and then the
-- rest of the round; one that has returned at once, for want of a device, and left the pointer.
pub data Worker : Type 0 where
  absent fresh polling : Worker
  handling : Round → Worker
  returned : Worker

-- `class ControllerThread`; its numbers for the loop are a record of their own.
pub record Slot : Type 0 where
  pub thread : Thread
  pub worker : Worker
  pub move : Option Device
  pub psmove_id : ℕ
  pub btaddr : String
  pub calibrated : Bool

-- `class PSMoveListener`.
pub record Listener : Type 0 where
  pub stop : Bool
  pub thread_stop : Bool
  pub mode : OpMode
  pub slots : PerController Slot
  pub poll_timeout : ℤ
  pub connect_timeout : ℤ
  pub disconnect_timeout : ℤ
  pub led_timeout : ℤ
  pub gesture_timeout : ℤ

-- `PSMove_OnlyLocal` and `PSMove_OnlyRemote`.
pub data RemoteConfig : Type 0 where
  only_local only_remote : RemoteConfig

-- The constructor of `ControllerThread`. `gesture_timeout` is what the memory of `gestureTimeout_`
-- holds: it is not initialised.
unfoldable pub new_slot : ℤ → Slot
new_slot gesture_timeout = record {
  thread = record {
    id = first;
    poll_timeout = pos 0;
    disconnect_timeout = pos 0;
    led_timeout = pos 0;
    gesture_timeout = gesture_timeout;
    buttons = 0;
    last_tp = zero_time;
    poll_count = 0;
    gesture_count = 0;
  };
  worker = absent;
  move = none;
  psmove_id = 0;
  btaddr = "";
  calibrated = false;
}

-- The constructor of `PSMoveListener`.
unfoldable pub new_listener : ℤ → OpMode → ℤ → ℤ → ℤ → ℤ → ℤ → Listener
unfolding new_slot
new_listener memory mode poll connect_timeout disconnect_timeout led gesture = record {
  stop = false;
  thread_stop = false;
  mode = mode;
  slots = record { fst = new_slot memory; snd = new_slot memory };
  poll_timeout = poll;
  connect_timeout = connect_timeout;
  disconnect_timeout = disconnect_timeout;
  led_timeout = led;
  gesture_timeout = gesture;
}

-- `init`: what psmoveapi is told.
unfoldable pub init : OpMode → RemoteConfig
init client = only_remote
init standalone = only_local

-- `running`: `thread_` is not null.
abbrev pub is_present : Worker → Bool
is_present absent = false
is_present _ = true

abbrev pub running : Slot → Bool
running s = is_present s.worker

-- `stop`.
abbrev pub request_stop : Listener → Listener
request_stop l = record l { stop = true }

-- `needToStop`, and the test of the main loop.
abbrev pub needs_to_stop : Listener → Bool
needs_to_stop l = l.stop || l.thread_stop

-- `isFullCapacity`.
unfoldable pub is_full_capacity : Listener → Bool
is_full_capacity l = running l.slots.fst && running l.slots.snd

-- `ControllerThread::start`: only where no thread is there.
unfoldable pub start : ControllerId → ℕ → Device → Listener → Slot → Slot
start c psmove_id device l s = if running s then s else record s {
  thread = record (s.thread) {
    id = c;
    poll_timeout = l.poll_timeout;
    disconnect_timeout = l.disconnect_timeout;
    led_timeout = l.led_timeout;
    gesture_timeout = l.gesture_timeout;
  };
  worker = fresh;
  move = some device;
  psmove_id = psmove_id;
  btaddr = device.serial;
  calibrated = device.has_calibration;
}

-- `handleNewDevice`.
unfoldable pub handle_new_device : ℕ → Device → Listener → Listener
unfolding start
handle_new_device psmove_id device l =
    if not (running l.slots.fst)
    then record l { slots = record (l.slots) { fst = start first psmove_id device l l.slots.fst } }
    else if not (running l.slots.snd)
    then record l { slots = record (l.slots) { snd = start second psmove_id device l l.slots.snd } }
    else l

-- `onDisconnect`.
unfoldable pub on_disconnect : Listener → Listener
on_disconnect l = record l { thread_stop = true }

-- `onDisconnectKey`: the listener, and the command that is given to the shell.
unfoldable pub on_disconnect_key : ControllerId → Listener → Listener × String
unfolding on_disconnect
on_disconnect_key c l =
    (on_disconnect l, String.◌++◌ "psmoveinput_disconnect.py " ((at l.slots c).btaddr))

-- The inner loop of `connect`: a running thread has this id.
unfoldable pub is_taken : ℕ → Listener → Bool
is_taken psmove_id l =
    running l.slots.fst && l.slots.fst.psmove_id == psmove_id
    || running l.slots.snd && l.slots.snd.psmove_id == psmove_id

-- What `connect` returns in `psmoveId` and as its result, and the devices that it has let go again.
pub record Connected : Type 0 where
  pub psmove_id : ℕ
  pub move : Option Device
  pub discarded : List (Option Device)

-- `connect`, for as many ids as the fuel says, from an id up.
unfoldable pub connect_from : (ℕ → Connection) → Listener → ℕ → ℕ → Connected
connect_from by_id l zero psmove_id = record { psmove_id = psmove_id; move = none; discarded = [] }
connect_from by_id l (suc fuel) psmove_id =
    let rest = connect_from by_id l fuel (suc psmove_id) in
    if is_taken psmove_id l
    then rest
    else if (by_id psmove_id).is_bluetooth
    then record { psmove_id = psmove_id; move = (by_id psmove_id).handle; discarded = [] }
    else record rest { discarded = (by_id psmove_id).handle ∷ rest.discarded }

-- `connect`.
unfoldable pub connect : (ℕ → Connection) → Listener → Connected
connect by_id l = connect_from by_id l max_controllers 0

-- The colours that `setLeds` sets.
unfoldable pub led_colors : ControllerId → ℕ × ℕ × ℕ
led_colors first = (33, 119, 47)
led_colors second = (123, 59, 160)
