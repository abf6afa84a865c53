-- ===== src/Program/Step.antt =====
-- psmove_listener.cpp: `run` and `operator ()` step by step, with the handler's slots called by the
-- thread whose signal they are connected to.
use psmoveinput.Prelude.{
  ℕ, zero, suc, Bool, true, false, List, [], ◌∷◌, Option, none, some, if◌then◌else◌, ℤ,
}
use psmoveinput.Common.{ControllerId, first, second, at, put}
use psmoveinput.Handler.{Handler, Signal, disconnect, Result, reset}
use psmoveinput.Handler.Session.{handle}
use psmoveinput.Listener.{
  Device, Slot, Worker, absent, fresh, polling, handling, returned, Listener, Emission,
  is_full_capacity, handle_new_device, on_disconnect, on_disconnect_key, connect, needs_to_stop,
  request_stop, led_colors, init, begin, end_thread, Round, poll_round, Thread, is_present,
}
use psmoveinput.Program.State.{
  Late, active, detached, released, ended, MainLoop, top, joining, waiting, connecting, starting,
  finished, crashed, Program, Output, configured, signal, disconnect_complete, leds_set,
  leds_updated, command, Answers, Move, main_loop, worker, release, notify, release_awaited,
  notify_awaited, interrupt, report,
}

-- A step is impossible in a state, or it leads to the next with some outputs.
pub data Outcome (D : Type 0) : Type 0 where
  blocked : Outcome D
  went : Program D → List Output → Outcome D

-- The signals of the handler; its `disconnect` signal is connected to `onDisconnectKey`.
unfoldable pub serve : List Signal → Listener → Listener × List Output
serve [] l = (l, [])
serve (disconnect c ∷ rest) l =
    let (l', xs) = serve rest (on_disconnect_key c l).0 in
    (l', command ((on_disconnect_key c l).1) ∷ xs)
serve (s ∷ rest) l = let (l', xs) = serve rest l in (l', signal s ∷ xs)

abbrev pub set_slot : ControllerId → Slot → Listener → Listener
set_slot c s l = record l { slots = put l.slots c s }

abbrev pub set_worker : ControllerId → Worker → Listener → Listener
set_worker c w l = set_slot c (record (at l.slots c) { worker = w }) l

abbrev pub led_outputs : ControllerId → Bool → List Output
led_outputs c leds = if leds then leds_updated c ∷ [] else []

-- The `join` of the main loop is over for this thread.
abbrev pub is_joined : Late → Worker → Bool
is_joined ended w = true
is_joined active returned = true
is_joined _ _ = false

-- The end of a thread up to `thread_ = nullptr`.
unfoldable pub detach_slot : Slot → Slot
detach_slot s = record s { worker = absent; thread = end_thread s.thread }

-- A thread that the main loop waits for is counted there, another with the leavers.
abbrev pub detach_main : ControllerId → MainLoop → MainLoop
detach_main first (waiting first active) = waiting first detached
detach_main second (waiting second active) = waiting second detached
detach_main c m = m

abbrev pub is_awaited : ControllerId → MainLoop → Bool
is_awaited first (waiting first active) = true
is_awaited second (waiting second active) = true
is_awaited c m = false

abbrev pub lose_device : ControllerId → Listener → Listener
lose_device c l = set_slot c (record (at l.slots c) { move = none }) l

module _ {D : Type 0} where
  -- What follows the two joins: the end, or the reset of the handler.
  unfoldable pub after_joins : Program D → Outcome D
  after_joins p =
      if p.listener.stop
      then went (record p { main = finished }) []
      else went
          (record p {
            main = connecting;
            listener = record (p.listener) { thread_stop = false };
            handler = reset p.handler;
          })
          (disconnect_complete ∷ [])

  abbrev pub joined : ControllerId → Program D → Outcome D
  joined first p = went (record p { main = joining second }) []
  joined second p = after_joins p

  abbrev pub started : Option Device → ℕ → Program D → Outcome D
  started none psmove_id p = went (record p { main = top }) []
  started (some device) psmove_id p = went (record p { main = starting psmove_id device }) []

  -- A step of `run`.
  unfoldable pub main_step : Answers → MainLoop → Program D → Outcome D
  main_step a top p =
      went (record p { main = if needs_to_stop p.listener then joining first else connecting }) []
  main_step a (joining c) p =
      if is_present ((at p.listener.slots c).worker)
      then went (record p { main = waiting c active }) []
      else joined c p
  main_step a (waiting c late) p =
      if is_joined late ((at p.listener.slots c).worker) then joined c p else blocked
  main_step a connecting p =
      if is_full_capacity p.listener
      then went (record p { main = top }) []
      else started ((connect a.by_id p.listener).move) ((connect a.by_id p.listener).psmove_id) p
  main_step a (starting psmove_id device) p =
      went (record p { main = top; listener = handle_new_device psmove_id device p.listener }) []
  main_step a finished p = blocked
  main_step a crashed p = blocked

  -- A thread leaves its loop.
  unfoldable pub detach : ControllerId → Program D → Program D
  detach c p = record p {
    listener = set_slot c (detach_slot (at p.listener.slots c)) p.listener;
    main = detach_main c p.main;
    leavers =
        if is_awaited c p.main
        then p.leavers
        else put p.leavers c
            (record (at p.leavers c) { detached = suc ((at p.leavers c).detached) });
  }

  -- A thread with a null pointer for its device returns; another sets the LEDs and enters its loop.
  unfoldable pub enter_loop : ControllerId → Option Device → Program D → Outcome D
  enter_loop c none p =
      went
        (record p {
          listener = set_slot c (record (at p.listener.slots c) { worker = returned }) p.listener;
        })
        []
  enter_loop c (some device) p =
      let s = at p.listener.slots c in
      went
        (record p {
          listener = set_slot c (record s { worker = polling; thread = begin s.thread }) p.listener;
        })
        (leds_set c (led_colors c) ∷ [])

  -- A thread clears `move_`, and one that has done so tells the listener.
  unfoldable pub release_device : ControllerId → ℕ → Program D → Outcome D
  release_device c zero p = blocked
  release_device c (suc n) p =
      went
        (record p {
          listener = lose_device c p.listener;
          leavers =
              put p.leavers c (record { detached = n; released = suc ((at p.leavers c).released) });
        })
        []

  unfoldable pub notify_listener : ControllerId → ℕ → Program D → Outcome D
  notify_listener c zero p = blocked
  notify_listener c (suc n) p =
      went
        (record p {
          listener = on_disconnect p.listener;
          leavers = put p.leavers c (record (at p.leavers c) { released = n });
        })
        []

  unfoldable pub release_joined : MainLoop → Program D → Outcome D
  release_joined (waiting c detached) p =
      went (record p { main = waiting c released; listener = lose_device c p.listener }) []
  release_joined _ p = blocked

  unfoldable pub notify_joined : MainLoop → Program D → Outcome D
  notify_joined (waiting c released) p =
      went (record p { main = waiting c ended; listener = on_disconnect p.listener }) []
  notify_joined _ p = blocked

  -- After a division by 0 nothing goes on.
  abbrev pub if_alive : MainLoop → Outcome D → Outcome D
  if_alive crashed o = blocked
  if_alive _ o = o

  -- An emission has been handled, and the thread goes on with its round. The signals of the call are
  -- served in this step; what the device writes for them is not part of it.
  abbrev pub handled : ControllerId → Round → Result D → Program D → Outcome D
  handled c r none p = blocked
  handled c r (some (h, signals)) p =
      let (l, outputs) = serve signals p.listener in
      went (record p { listener = set_worker c (handling r) l; handler = h }) outputs

  -- The end of a round: the thread goes on or leaves its loop.
  abbrev pub end_round : ControllerId → Bool → Bool → Program D → Outcome D
  end_round c leds true p =
      went (record p { listener = set_worker c polling p.listener }) (led_outputs c leds)
  end_round c leds false p = went (detach c p) (led_outputs c leds)

  -- A round of the thread has emitted, or a division in it has failed.
  abbrev pub after_round : ControllerId → Option (Thread × Round) → Program D → Outcome D
  after_round c none p = went (record p { main = crashed }) []
  after_round c (some (t, r)) p =
      went
        (record p {
          listener =
              set_slot c (record (at p.listener.slots c) { thread = t; worker = handling r })
                p.listener;
        })
        []

module _ {D : Type 0} (scale : ℤ → D → ℤ) (key_max : ℕ) where
  -- The next emission of a round calls the handler. A whole call is one step here. psmove_handler.cpp
  -- locks less, a round of the loop of `onButtons`; the calls of two threads that overlap, action by
  -- action, are modelled in Threads/.
  unfoldable pub handle_next :
      ControllerId → Answers → Round → List Emission → Program D → Outcome D
  handle_next c a r [] p = end_round c r.leds r.goes_on p
  handle_next c a r (e ∷ rest) p =
      handled c (record r { emissions = rest }) (handle scale key_max (report a.clock e) p.handler)
        p

  -- A step of a controller thread up to the end of its loop.
  unfoldable pub worker_step : ControllerId → Answers → Worker → Program D → Outcome D
  worker_step c a absent p = blocked
  worker_step c a fresh p = enter_loop c ((at p.listener.slots c).move) p
  worker_step c a polling p =
      if needs_to_stop p.listener
      then went (detach c p) []
      else after_round c (poll_round a.samples a.now ((at p.listener.slots c).thread)) p
  worker_step c a (handling r) p = handle_next c a r r.emissions p
  worker_step c a returned p = blocked

  -- The step of a move.
  unfoldable pub step : Move → Program D → Outcome D
  step (main_loop a) p = main_step a p.main p
  step (worker c a) p = if_alive p.main (worker_step c a ((at p.listener.slots c).worker) p)
  step (release c) p = if_alive p.main (release_device c ((at p.leavers c).detached) p)
  step (notify c) p = if_alive p.main (notify_listener c ((at p.leavers c).released) p)
  step release_awaited p = release_joined p.main p
  step notify_awaited p = notify_joined p.main p
  step interrupt p = if_alive p.main (went (record p { listener = request_stop p.listener }) [])

module _ {D : Type 0} where
  -- The listener starts in the constructor's state, with nothing connected.
  unfoldable pub initial : Listener → Handler D → Program D × List Output
  initial l h = (
    record {
      listener = l;
      main = top;
      leavers = record {
        fst = record { detached = 0; released = 0 };
        snd = record { detached = 0; released = 0 };
      };
      handler = h;
    },
    configured (init l.mode) ∷ [],
  )
