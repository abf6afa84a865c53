-- ===== src/Program/Outputs.antt =====
-- psmove_listener.cpp: the handler's signals in the listener, and the outputs among which a reset stands.
use psmoveinput.Prelude.{Bool, true, false, ◌||◌, List, [], ◌∷◌, ◌++◌, ◌≡◌, refl, ◌∙◌, arith}
use psmoveinput.Handler.{Signal, move, key, mwheel, disconnect}
use psmoveinput.Listener.{Listener, on_disconnect, on_disconnect_key}
use psmoveinput.Program.State.{
  Output, configured, signal, disconnect_complete, leds_set, leds_updated, command,
}
use psmoveinput.Program.Step.{serve}

-- Whether the signals ask for a disconnection.
unfoldable pub has_disconnect : List Signal → Bool
has_disconnect [] = false
has_disconnect (disconnect c ∷ rest) = true
has_disconnect (_ ∷ rest) = has_disconnect rest

-- The handler's signals change nothing of the listener but its request to stop the threads.
pub serve_lem :
    (xs : List Signal) (l : Listener)
    → (serve xs l).0 ≡ record l { thread_stop = l.thread_stop || has_disconnect xs }
unfolding serve has_disconnect on_disconnect_key on_disconnect
serve_lem [] l = ground arith
serve_lem (disconnect c ∷ rest) l = serve_lem rest (on_disconnect l) ∙ ground arith
serve_lem (move dx dy ∷ rest) l = serve_lem rest l
serve_lem (key code pressed ∷ rest) l = serve_lem rest l
serve_lem (mwheel v ∷ rest) l = serve_lem rest l

abbrev pub has_reset : List Output → Bool
has_reset [] = false
has_reset (disconnect_complete ∷ rest) = true
has_reset (_ ∷ rest) = has_reset rest

pub has_reset_append : (xs ys : List Output) → has_reset (xs ++ ys) ≡ (has_reset xs || has_reset ys)
has_reset_append [] ys = refl
has_reset_append (configured c ∷ xs) ys = has_reset_append xs ys
has_reset_append (signal s ∷ xs) ys = has_reset_append xs ys
has_reset_append (disconnect_complete ∷ xs) ys = refl
has_reset_append (leds_set c rgb ∷ xs) ys = has_reset_append xs ys
has_reset_append (leds_updated c ∷ xs) ys = has_reset_append xs ys
has_reset_append (command s ∷ xs) ys = has_reset_append xs ys

pub serve_silent : (xs : List Signal) (l : Listener) → has_reset (serve xs l).1 ≡ false
unfolding serve
serve_silent [] l = refl
serve_silent (disconnect c ∷ rest) l = serve_silent rest (on_disconnect_key c l).0
serve_silent (move dx dy ∷ rest) l = serve_silent rest l
serve_silent (key code pressed ∷ rest) l = serve_silent rest l
serve_silent (mwheel v ∷ rest) l = serve_silent rest l
