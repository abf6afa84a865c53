-- ===== src/Teardown/Objects.antt =====
-- The objects that an instance of `PSMoveInput` owns, and the destructors as what they do to them.
use psmoveinput.Prelude.{
  Bool, true, false, ◌&&◌, List, [], ◌∷◌, ◌++◌, Option, none, some, if◌then◌else◌,
}
use psmoveinput.Common.{ControllerId, first, second, PerController, at, put}

-- A slot is a `ControllerThread`, a thread the `boost::thread` of its `thread_`.
pub data Object : Type 0 where
  log_object backend_object device_object handler_object listener_object : Object
  slot_object thread_object : ControllerId → Object

-- Which objects there are.
pub record Memory : Type 0 where
  pub log : Bool
  pub backend : Bool
  pub device : Bool
  pub handler : Bool
  pub listener : Bool
  pub slots : PerController Bool
  pub threads : PerController Bool

unfoldable pub is_there : Object → Memory → Bool
is_there log_object m = m.log
is_there backend_object m = m.backend
is_there device_object m = m.device
is_there handler_object m = m.handler
is_there listener_object m = m.listener
is_there (slot_object c) m = at m.slots c
is_there (thread_object c) m = at m.threads c

unfoldable pub without : Object → Memory → Memory
without log_object m = record m { log = false }
without backend_object m = record m { backend = false }
without device_object m = record m { device = false }
without handler_object m = record m { handler = false }
without listener_object m = record m { listener = false }
without (slot_object c) m = record m { slots = put m.slots c false }
without (thread_object c) m = record m { threads = put m.threads c false }

-- A destructor reads or writes an object, or gives its memory back.
pub data Deed : Type 0 where
  uses frees : Object → Deed

-- `none`: an object is used or freed that is not there.
unfoldable pub does : List Deed → Memory → Option Memory
does [] m = some m
does (uses o ∷ rest) m = let then_on = does rest m in if is_there o m then then_on else none
does (frees o ∷ rest) m =
    let then_on = does rest (without o m) in if is_there o m then then_on else none

-- Which pointers of the instance are set, and which slots have a `thread_`.
pub record Parts : Type 0 where
  pub log : Bool
  pub device : Bool
  pub handler : Bool
  pub listener : Bool
  pub threads : PerController Bool

-- What the constructors have made: a log has a backend, and a listener has two slots.
unfoldable pub made : Parts → Memory
made p = record {
  log = p.log;
  backend = p.log;
  device = p.device;
  handler = p.handler;
  listener = p.listener;
  slots = record { fst = p.listener; snd = p.listener };
  threads = record { fst = p.listener && p.threads.fst; snd = p.listener && p.threads.snd };
}

abbrev pub nothing_left : Memory
nothing_left = record {
  log = false;
  backend = false;
  device = false;
  handler = false;
  listener = false;
  slots = record { fst = false; snd = false };
  threads = record { fst = false; snd = false };
}

-- `if (p != nullptr) delete p`, with what the destructor does besides.
unfoldable pub delete_object : Bool → Object → List Deed → List Deed
delete_object set o body = if set then uses o ∷ (body ++ frees o ∷ []) else []

-- `~Log` deletes the backends. `LogBackend` has no virtual destructor: what `~FileLog` would do to the
-- file is not part of it, and the language leaves the effect of the delete open.
unfoldable pub destroy_log : List Deed
destroy_log = frees backend_object ∷ []

-- `~ControllerThread`.
unfoldable pub destroy_slot : ControllerId → PerController Bool → List Deed
destroy_slot c threads = delete_object (at threads c) (thread_object c) []

-- `~PSMoveListener`.
unfoldable pub destroy_listener : PerController Bool → List Deed
destroy_listener threads =
    delete_object true (slot_object first) (destroy_slot first threads)
    ++ delete_object true (slot_object second) (destroy_slot second threads)

-- `~PSMoveInput`. `~InputDevice` and `~PSMoveHandler` see only their own members.
unfoldable pub destroy_instance : Parts → List Deed
destroy_instance p =
    delete_object p.log log_object destroy_log
    ++ delete_object p.device device_object []
    ++ delete_object p.handler handler_object []
    ++ delete_object p.listener listener_object (destroy_listener p.threads)
