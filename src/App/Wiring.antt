-- ===== src/App/Wiring.antt =====
-- psmoveinput.cpp, `initHandler`: the handler's signals call the slots of the device.
use psmoveinput.Prelude.{◌^◌, ◌<◌, List, [], ◌∷◌, ◌++◌, All, ◌≡◌, refl}
use psmoveinput.Handler.{Signal, move, key, disconnect, mwheel}
use psmoveinput.InputDevice.{InputCodes, InputEvent, report_move, report_key, report_mwheel}
use psmoveinput.InputDevice.Frames.{
  Frame, no_frame, AreDistinct, frames, frames-nil, frames-report_move, frames-report_key,
  frames-report_mwheel,
}

-- The events that a signal makes the device write. (`disconnect` goes to the listener.)
unfoldable pub deliver : InputCodes → Signal → List InputEvent
deliver codes (move dx dy) = report_move codes dx dy
deliver codes (key code pressed) = report_key codes code pressed
deliver codes (mwheel value) = report_mwheel codes value
deliver codes (disconnect c) = []

unfoldable pub deliver_all : InputCodes → List Signal → List InputEvent
deliver_all codes [] = []
deliver_all codes (s ∷ rest) = deliver codes s ++ deliver_all codes rest

-- What a reader of the device is to see.
unfoldable pub signal_frames : List Signal → List Frame
signal_frames [] = []
signal_frames (move dx dy ∷ rest) = record no_frame { dx = dx; dy = dy } ∷ signal_frames rest
signal_frames (key code pressed ∷ rest) =
    record no_frame { keys = (code, pressed) ∷ [] } ∷ signal_frames rest
signal_frames (mwheel value ∷ rest) = record no_frame { wheel = value } ∷ signal_frames rest
signal_frames (disconnect c ∷ rest) = signal_frames rest

-- A key code that fits the 16 bits of an event.
abbrev pub FitsEvent : Signal → Type 0
FitsEvent (key code pressed) = code < 2 ^ 16
FitsEvent _ = Unit {0}

-- With distinct event codes and key codes of 16 bits, a reader of the device sees one frame for
-- each signal of the handler, in their order and with exactly their values, and none for a
-- disconnect.
pub frames-deliver_all :
    (codes : InputCodes) (xs : List Signal)
    → AreDistinct codes
    → All FitsEvent xs
    → frames codes no_frame (deliver_all codes xs) ≡ signal_frames xs
unfolding deliver_all deliver signal_frames
frames-deliver_all codes [] distinct fits = frames-nil codes no_frame
frames-deliver_all codes (move dx dy ∷ xs) distinct fits =
    rw
      (
        frames-report_move codes distinct (deliver_all codes xs) dx dy,
        frames-deliver_all codes xs distinct fits.1,
      )
      refl
frames-deliver_all codes (key code pressed ∷ xs) distinct fits =
    rw
      (
        frames-report_key codes distinct (deliver_all codes xs) code pressed fits.0,
        frames-deliver_all codes xs distinct fits.1,
      )
      refl
frames-deliver_all codes (mwheel value ∷ xs) distinct fits =
    rw
      (
        frames-report_mwheel codes distinct (deliver_all codes xs) value,
        frames-deliver_all codes xs distinct fits.1,
      )
      refl
frames-deliver_all codes (disconnect c ∷ xs) distinct fits =
    frames-deliver_all codes xs distinct fits.1
