-- ===== src/InputDevice/Frames.antt =====
-- input_device.cpp: the events that are written, as a reader of the device takes them up.
use psmoveinput.Prelude.{
  refl, ℕ, ◌^◌, ◌<◌, Bool, true, false, List, [], ◌∷◌, ◌++◌, ℤ, pos, ◌≡◌, ◌≢◌, arith, ◌==◌, ◌&&◌,
  if◌then◌else◌,
}
use psmoveinput.InputDevice.{
  InputCodes, InputEvent, report_syn, report_move, report_key, report_mwheel,
}

-- What a reader collects between two `SYN_REPORT` events.
pub record Frame : Type 0 where
  pub dx : ℤ
  pub dy : ℤ
  pub wheel : ℤ
  pub keys : List (ℕ × Bool)

abbrev pub no_frame : Frame
no_frame = record { dx = pos 0; dy = pos 0; wheel = pos 0; keys = [] }

-- The event codes differ where <linux/input.h> needs them to.
pub record AreDistinct (codes : InputCodes) : Type 0 where
  pub syn_key : codes.ev_syn ≢ codes.ev_key
  pub syn_rel : codes.ev_syn ≢ codes.ev_rel
  pub key_rel : codes.ev_key ≢ codes.ev_rel
  pub x_y : codes.rel_x ≢ codes.rel_y
  pub x_wheel : codes.rel_x ≢ codes.rel_wheel
  pub y_wheel : codes.rel_y ≢ codes.rel_wheel

abbrev is_pressed : ℤ → Bool
is_pressed (pos n) = if n == 0 then false else true
is_pressed _ = true

module _ (codes : InputCodes) where
  open codes use {ev_syn, ev_key, ev_rel, rel_x, rel_y, rel_wheel, syn_report}

  absorb : InputEvent → Frame → Frame
  absorb e f =
      if e.etype == ev_key
      then record f { keys = (e.code, is_pressed e.value) ∷ f.keys }
      else if e.etype == ev_rel && e.code == rel_x
      then record f { dx = e.value }
      else if e.etype == ev_rel && e.code == rel_y
      then record f { dy = e.value }
      else if e.etype == ev_rel && e.code == rel_wheel
      then record f { wheel = e.value }
      else f

  -- The frames of a list of events, after the events that make up the frame `f`.
  pub frames : Frame → List InputEvent → List Frame
  frames f [] = []
  frames f (e ∷ es) = elim (e.etype == ev_syn && e.code == syn_report) [
    | true ↦ f ∷ frames no_frame es
    | false ↦ frames (absorb e f) es
  ]

  pub frames-nil : (f : Frame) → frames f [] ≡ []
  unfolding frames
  frames-nil f = refl

  module _ (distinct : AreDistinct codes) (rest : List InputEvent) where
    -- A movement is read as one frame of its own, with exactly its two values.
    pub frames-report_move :
        (dx dy : ℤ)
        → frames no_frame (report_move codes dx dy ++ rest)
          ≡ record no_frame { dx = dx; dy = dy } ∷ frames no_frame rest
    unfolding frames report_move report_syn absorb
    frames-report_move dx dy = ground arith

    pub frames-report_key :
        (key : ℕ) (pressed : Bool)
        → key < 2 ^ 16
        → frames no_frame (report_key codes key pressed ++ rest)
          ≡ record no_frame { keys = (key, pressed) ∷ [] } ∷ frames no_frame rest
    unfolding frames report_key report_syn absorb
    frames-report_key key pressed lt = ground arith

    pub frames-report_mwheel :
        (value : ℤ)
        → frames no_frame (report_mwheel codes value ++ rest)
          ≡ record no_frame { wheel = value } ∷ frames no_frame rest
    unfolding frames report_mwheel report_syn absorb
    frames-report_mwheel value = ground arith
