-- ===== src/Program/Client.antt =====
-- psmove_handler.cpp: a single client of the handler, and the signals that the device gets.

use psmoveinput.Prelude.{
  ℕ, List, [], ◌∷◌, ◌++◌, none, some, ◌≡◌, refl, sym, ◌∙◌, ap, map, ℤ, All, All-append, Bool, true,
  false, ◌||◌,
}
use mathlib.Core.List.{append_assoc, append-nil}
use psmoveinput.Handler.{
  Handler, Signal, move, key, mwheel, disconnect, Result, reset, append_result,
}
use psmoveinput.Handler.Session.{Report, handle, run, continue, IsInt32}
use psmoveinput.Listener.{Listener, on_disconnect_key}
use psmoveinput.Program.State.{
  Output, configured, signal, disconnect_complete, leds_set, command, leds_updated,
}
use psmoveinput.Program.Step.{serve}

-- What a single client does with the handler: a call of a slot, or a reset.
pub data Use : Type 0 where
  called : Report → Use
  cleared : Use

abbrev pub IsUse : Use → Type 0
IsUse (called r) = IsInt32 r
IsUse cleared = Unit {0}

abbrev pub has_cleared : List Use → Bool
has_cleared [] = false
has_cleared (called r ∷ rest) = has_cleared rest
has_cleared (cleared ∷ rest) = true

has_cleared_append :
    (us vs : List Use) → has_cleared (us ++ vs) ≡ (has_cleared us || has_cleared vs)
has_cleared_append [] vs = refl
has_cleared_append (called r ∷ us) vs = has_cleared_append us vs
has_cleared_append (cleared ∷ us) vs = refl

-- The signals for the device among those of the handler, and among the outputs of the program.
unfoldable pub for_device : List Signal → List Signal
for_device [] = []
for_device (disconnect c ∷ rest) = for_device rest
for_device (move dx dy ∷ rest) = move dx dy ∷ for_device rest
for_device (key code pressed ∷ rest) = key code pressed ∷ for_device rest
for_device (mwheel v ∷ rest) = mwheel v ∷ for_device rest

unfoldable pub shown : List Output → List Signal
shown [] = []
shown (signal s ∷ rest) = s ∷ shown rest
shown (configured x ∷ rest) = shown rest
shown (disconnect_complete ∷ rest) = shown rest
shown (leds_set c rgb ∷ rest) = shown rest
shown (leds_updated c ∷ rest) = shown rest
shown (command s ∷ rest) = shown rest

pub shown_append : (xs ys : List Output) → shown (xs ++ ys) ≡ shown xs ++ shown ys
unfolding shown
shown_append [] ys = refl
shown_append (signal s ∷ xs) ys = ap (λ zs. s ∷ zs) (shown_append xs ys)
shown_append (configured x ∷ xs) ys = shown_append xs ys
shown_append (disconnect_complete ∷ xs) ys = shown_append xs ys
shown_append (leds_set c rgb ∷ xs) ys = shown_append xs ys
shown_append (leds_updated c ∷ xs) ys = shown_append xs ys
shown_append (command s ∷ xs) ys = shown_append xs ys

for_device_append : (xs ys : List Signal) → for_device (xs ++ ys) ≡ for_device xs ++ for_device ys
unfolding for_device
for_device_append [] ys = refl
for_device_append (disconnect c ∷ xs) ys = for_device_append xs ys
for_device_append (move dx dy ∷ xs) ys = ap (λ zs. move dx dy ∷ zs) (for_device_append xs ys)
for_device_append (key code pressed ∷ xs) ys =
    ap (λ zs. key code pressed ∷ zs) (for_device_append xs ys)
for_device_append (mwheel v ∷ xs) ys = ap (λ zs. mwheel v ∷ zs) (for_device_append xs ys)

pub shown-serve : (xs : List Signal) (l : Listener) → shown (serve xs l).1 ≡ for_device xs
unfolding shown for_device serve
shown-serve [] l = refl
shown-serve (disconnect c ∷ rest) l = shown-serve rest (on_disconnect_key c l).0
shown-serve (move dx dy ∷ rest) l = ap (λ zs. move dx dy ∷ zs) (shown-serve rest l)
shown-serve (key code pressed ∷ rest) l = ap (λ zs. key code pressed ∷ zs) (shown-serve rest l)
shown-serve (mwheel v ∷ rest) l = ap (λ zs. mwheel v ∷ zs) (shown-serve rest l)

module _ {D : Type 0} (scale : ℤ → D → ℤ) (key_max : ℕ) where
  -- The single client, one use after the other.
  unfoldable pub play : List Use → Handler D → Result D
  play [] h = some (h, [])
  play (called r ∷ rest) h = continue (handle scale key_max r h) (play rest)
  play (cleared ∷ rest) h = play rest (reset h)

  -- Some client's uses take the handler from one state to the other, with these signals for the
  -- device, and with a reset or without.
  abbrev pub Explained : Handler D → Handler D → List Signal → Bool → Type 0
  Explained h h' xs b =
      (us : List Use) × (ss : List Signal) × All IsUse us
      × (play us h ≡ some (h', ss))
      × (for_device ss ≡ xs)
      × (has_cleared us ≡ b)

  continue_cong :
      (o : Result D) (f g : Handler D → Result D)
      → ((h : Handler D) → f h ≡ g h)
      → continue o f ≡ continue o g
  continue_cong none f g e = refl
  continue_cong (some (h, xs)) f g e = ap (append_result xs) (e h)

  pub play_reports :
      (rs : List Report) (h : Handler D) → play (map called rs) h ≡ run scale key_max rs h
  unfolding play run
  play_reports [] h = refl
  play_reports (r ∷ rs) h = continue_cong (handle scale key_max r h) _ _ (play_reports rs)

  append_result_nil : (o : Result D) → append_result [] o ≡ o
  append_result_nil none = refl
  append_result_nil (some (h, xs)) = refl

  append_result_lem :
      (xs ys : List Signal) (o : Result D)
      → append_result xs (append_result ys o) ≡ append_result (xs ++ ys) o
  append_result_lem xs ys none = refl
  append_result_lem xs ys (some (h, zs)) = rw (append_assoc xs ys zs) refl

  continue-continue :
      (o : Result D) (f g : Handler D → Result D)
      → continue (continue o f) g ≡ continue o (λ h. continue (f h) g)
  continue-continue none f g = refl
  continue-continue (some (h, xs)) f g = after (f h)
    where
      after : (o : Result D) → continue (append_result xs o) g ≡ append_result xs (continue o g)
      after none = refl
      after (some (h', ys)) = sym (append_result_lem xs ys (g h'))

  play_append :
      (us vs : List Use) (h : Handler D) → play (us ++ vs) h ≡ continue (play us h) (play vs)
  unfolding play
  play_append [] vs h = sym (append_result_nil (play vs h))
  play_append (cleared ∷ us) vs h = play_append us vs (reset h)
  play_append (called r ∷ us) vs h =
      continue_cong (handle scale key_max r h) _ _ (play_append us vs)
      ∙ sym (continue-continue (handle scale key_max r h) (play us) (play vs))

  pub stays-Explained : (h : Handler D) → Explained h h [] false
  unfolding play for_device
  stays-Explained h = ([], [], tt, refl, refl, refl)

  pub reset-Explained : (h : Handler D) → Explained h (reset h) [] true
  unfolding play for_device
  reset-Explained h = (cleared ∷ [], [], (tt, tt), refl, refl, refl)

  -- A call of a slot.
  pub handle-Explained :
      (r : Report) (h h' : Handler D) (xs : List Signal)
      → IsInt32 r
      → handle scale key_max r h ≡ some (h', xs)
      → Explained h h' (for_device xs) false
  unfolding play
  handle-Explained r h h' xs fits e =
      (called r ∷ [], xs, (fits, tt), rw e (rw (append-nil xs) refl), refl, refl)

  pub then-Explained :
      (h h' h'' : Handler D) (xs ys : List Signal) (b b' : Bool)
      → Explained h h' xs b
      → Explained h' h'' ys b'
      → Explained h h'' (xs ++ ys) (b || b')
  then-Explained h h' h'' xs ys b b' (us, ss, k, e, f, g) (us', ss', k', e', f', g') = (
    us ++ us',
    ss ++ ss',
    All-append IsUse us us' k k',
    play_append us us' h ∙ rw (e, e') refl,
    for_device_append ss ss' ∙ rw (f, f') refl,
    has_cleared_append us us' ∙ rw (g, g') refl,
  )
