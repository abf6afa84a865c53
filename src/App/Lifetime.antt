-- ===== src/App/Lifetime.antt =====
-- psmoveinput.cpp and main.cpp: the one instance of `PSMoveInput`, which main and the signal handler
-- share by counted references.
use psmoveinput.Prelude.{
  ℕ, zero, suc, Bool, true, false, List, [], ◌∷◌, ◌++◌, Option, none, some, ◌≡◌, refl, ap,
  if◌then◌else◌, ℤ, pos, negsuc, ◌+ℤ◌, ◌==ℤ◌,
}

-- An instance, told by its number, and whether its `listener_` is set.
pub record Instance : Type 0 where
  pub number : ℕ
  pub listening : Bool

-- `instance_`, `refs_`, and how many instances there have been.
pub record Process : Type 0 where
  pub instance : Option Instance
  pub refs : ℤ
  pub count : ℕ

-- What becomes of the instances: `new` and `delete`, and the listener's `stop`.
pub data LifeEvent : Type 0 where
  constructed destroyed stopped : ℕ → LifeEvent

abbrev pub new_process : Process
new_process = record { instance = none; refs = pos 0; count = 0 }

abbrev pub add_ref : Process → Process
add_ref p = record p { refs = p.refs +ℤ pos 1 }

abbrev pub get_instance : Option Instance → Process → Process × Instance × List LifeEvent
get_instance none p =
    let i : Instance = record { number = p.count; listening = false } in
    (
      add_ref (record p { instance = some i; count = suc p.count }),
      i,
      LifeEvent.constructed p.count ∷ [],
    )
get_instance (some i) p = (add_ref p, i, [])

-- `getRef`.
unfoldable pub get_ref : Process → Process × Instance × List LifeEvent
get_ref p = get_instance p.instance p

-- `delete` of a null pointer does nothing.
abbrev pub delete : Option Instance → List LifeEvent
delete none = []
delete (some i) = LifeEvent.destroyed i.number ∷ []

-- `releaseRef`.
unfoldable pub release_ref : Process → Process × List LifeEvent
release_ref p =
    let p' = record p { refs = p.refs +ℤ negsuc 0 } in
    if p'.refs ==ℤ pos 0 then (record p' { instance = none }, delete p'.instance) else (p', [])

-- `PSMoveInput::stop`.
abbrev pub stop : Instance → List LifeEvent
stop i = if i.listening then LifeEvent.stopped i.number ∷ [] else []

-- `signal_handler`. It does not interrupt itself, since it blocks the signals that it is set for.
unfoldable pub handle_signal : Process → Process × List LifeEvent
handle_signal p =
    let (p1, i, es) = get_ref p in let (p2, es') = release_ref p1 in (p2, es ++ stop i ++ es')

-- How far the run has come when a signal arrives.
abbrev pub set_listening : Bool → Option Instance → Option Instance
set_listening b none = none
set_listening b (some i) = some (record i { listening = b })

unfoldable pub handle_signals : List Bool → Process → Process × List LifeEvent
handle_signals [] p = (p, [])
handle_signals (b ∷ rest) p =
    let (p1, es) = handle_signal (record p { instance = set_listening b p.instance }) in
    let (p2, es') = handle_signals rest p1 in (p2, es ++ es')

unfoldable pub handle_late_signals : ℕ → Process → Process × List LifeEvent
handle_late_signals zero p = (p, [])
handle_late_signals (suc n) p =
    let (p1, es) = handle_signal p in let (p2, es') = handle_late_signals n p1 in (p2, es ++ es')

-- `main`, with the signals that arrive during its run and those between its end and that of the
-- process.
unfoldable pub main_program : List Bool → ℕ → Process × List LifeEvent
main_program during after =
    let (p1, i, es1) = get_ref new_process in
    let (p2, es2) = handle_signals during p1 in
    let (p3, es3) = release_ref p2 in
    let (p4, es4) = handle_late_signals after p3 in (p4, es1 ++ es2 ++ es3 ++ es4)

-- What the signals during the run ask of an instance.
unfoldable pub requests : ℕ → List Bool → List LifeEvent
requests number [] = []
requests number (true ∷ rest) = LifeEvent.stopped number ∷ requests number rest
requests number (false ∷ rest) = requests number rest

-- Instances that come and go, from a number on.
unfoldable pub short_lives : ℕ → ℕ → List LifeEvent
short_lives number zero = []
short_lives number (suc n) =
    LifeEvent.constructed number ∷ LifeEvent.destroyed number ∷ short_lives (suc number) n

abbrev held : Bool → Process
held b = record { instance = some (record { number = 0; listening = b }); refs = pos 1; count = 1 }

abbrev idle : ℕ → Process
idle n = record { instance = none; refs = pos 0; count = n }

handle_signals_lem :
    (bs : List Bool) (b : Bool)
    → (c : Bool) × (handle_signals bs (held b) ≡ (held c, requests 0 bs))
unfolding handle_signals handle_signal get_ref release_ref requests
handle_signals_lem [] b = (b, refl)
handle_signals_lem (true ∷ bs) b =
    let (c, e) = handle_signals_lem bs true in (c, ap (λ r. (r.0, LifeEvent.stopped 0 ∷ r.1)) e)
handle_signals_lem (false ∷ bs) b =
    let (c, e) = handle_signals_lem bs false in (c, ap (λ r. (r.0, r.1)) e)

late_lem : (n k : ℕ) → (j : ℕ) × (handle_late_signals n (idle k) ≡ (idle j, short_lives k n))
unfolding handle_late_signals handle_signal get_ref release_ref short_lives
late_lem zero k = (k, refl)
late_lem (suc n) k =
    let (j, e) = late_lem n (suc k) in
    (j, ap (λ r. (r.0, LifeEvent.constructed k ∷ LifeEvent.destroyed k ∷ r.1)) e)

-- Whatever signals arrive during the run, main's instance is made first, its listener is asked to
-- stop by each signal that finds it set, and the instance is destroyed once, by main; each signal
-- after that makes an instance of its own and destroys it, and asks nothing to stop; and at the end
-- no instance is left.
pub main_lives :
    (during : List Bool) (after : ℕ)
    → ((main_program during after).0.instance ≡ none)
      × ((main_program during after).1
          ≡ (LifeEvent.constructed 0 ∷ [])
            ++ requests 0 during
            ++ (LifeEvent.destroyed 0 ∷ [])
            ++ short_lives 1 after)
unfolding main_program get_ref release_ref
main_lives during after =
    let (c, e) = handle_signals_lem during false in
    let (j, e') = late_lem after 1 in rw (e, e') (refl, refl)
