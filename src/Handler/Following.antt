-- ===== src/Handler/Following.antt =====
-- psmove_handler.cpp: over any run of reports a key is down exactly while its button is.
use psmoveinput.Prelude.{
  ℕ, ◌^◌, ◌<◌, ◌≤◌, bit, Bool, false, ◌==◌, ◌≡◌, inl, inr, arith, Bool-cases, List, none, some,
}
use psmoveinput.Common.{ControllerId, first, second, KeyMap, PerController, at}
use psmoveinput.Handler.State.{Handler, Timespec, Signal, Result}
use psmoveinput.Handler.Keys.{update_buttons}
use psmoveinput.Handler.Reports.{
  on_buttons_with, stamp_result, append_result, on_buttons_with_releases, on_buttons_with_ends,
}
use psmoveinput.Handler.Changes.{held, held-append}
use psmoveinput.Handler.Held.{Owns, update_buttons-Keeps, update_buttons-held}

abbrev pub opposite : ControllerId → ControllerId
opposite first = second
opposite second = first

-- Button j of controller `c` is the only one, on either controller, that is mapped to `code`.
pub record IsOwner (maps : PerController KeyMap) (c : ControllerId) (code j : ℕ) : Type 0 where
  pub below : j < 28
  pub own : Owns (at maps c) code j
  pub other : Owns (at maps (opposite c)) code 28

-- Whether button j of a controller is down.
abbrev pub down : {D : Type 0} → ControllerId → ℕ → Handler D → Bool
down c j h = bit (at h.buttons c) j == 1

-- What the calls need of the handler.
pub record Ready {D : Type 0} (km : PerController KeyMap) (h : Handler D) : Type 0 where
  pub maps : h.keymaps ≡ km
  pub fst_range : h.buttons.fst < 2 ^ 32
  pub snd_range : h.buttons.snd < 2 ^ 32

-- After a call the key is down as its button is, if it was before.
abbrev pub Follows :
    {D : Type 0} → PerController KeyMap → ControllerId → ℕ → ℕ → Handler D → Result D → Type 0
Follows km o code j h none = Unit {0}
Follows km o code j h (some (h', xs)) = Ready km h' × (held code xs (down o j h) ≡ down o j h')

module _ {D : Type 0} (key_max code j : ℕ) (plain : code ≤ key_max)
    (km : PerController KeyMap) where
  update_buttons-follows :
      (buttons : ℕ) (o c : ControllerId) (h : Handler D)
      → Owns (at h.keymaps o) code j
      → Owns (at h.keymaps (opposite o)) code 28
      → j < 28
      → at h.buttons c < 2 ^ 32
      → buttons < 2 ^ 32
      → held code (update_buttons key_max buttons c h).1 (down o j h)
        ≡ down o j (update_buttons key_max buttons c h).0
  update_buttons-follows buttons first first h own other b rh r = ground (
    arith,
    update_buttons-Keeps key_max buttons first h,
    update_buttons-held key_max code j buttons first h (down first j h) plain own rh r,
  )
  update_buttons-follows buttons first second h own other b rh r = ground (
    arith,
    update_buttons-Keeps key_max buttons second h,
    update_buttons-held key_max code 28 buttons second h (down first j h) plain other rh r,
  )
  update_buttons-follows buttons second first h own other b rh r = ground (
    arith,
    update_buttons-Keeps key_max buttons first h,
    update_buttons-held key_max code 28 buttons first h (down second j h) plain other rh r,
  )
  update_buttons-follows buttons second second h own other b rh r = ground (
    arith,
    update_buttons-Keeps key_max buttons second h,
    update_buttons-held key_max code j buttons second h (down second j h) plain own rh r,
  )

  update_buttons-Ready :
      (buttons : ℕ) (c : ControllerId) (h : Handler D)
      → Ready km h
      → buttons < 2 ^ 32
      → Ready km (update_buttons key_max buttons c h).0
  update_buttons-Ready buttons first h ready r =
      ground (arith, update_buttons-Keeps key_max buttons first h)
  update_buttons-Ready buttons second h ready r =
      ground (arith, update_buttons-Keeps key_max buttons second h)

  at_range : (c : ControllerId) (h : Handler D) → Ready km h → at h.buttons c < 2 ^ 32
  at_range first h ready = ready.fst_range
  at_range second h ready = ready.snd_range

  module _ (o : ControllerId) (owner : IsOwner km o code j) where
    update_buttons-Follows :
        (buttons : ℕ) (c : ControllerId) (h : Handler D)
        → Ready km h
        → buttons < 2 ^ 32
        → Follows km o code j h (some (update_buttons key_max buttons c h))
    update_buttons-Follows buttons c h ready r = (
      update_buttons-Ready buttons c h ready r,
      update_buttons-follows buttons o c h (rw ready.maps owner.own) (rw ready.maps owner.other)
          owner.below (at_range c h ready) r,
    )

    -- A nested call's trace continues the first.
    pub Follows-append :
        (h g : Handler D) (xs : List Signal) (r : Result D)
        → held code xs (down o j h) ≡ down o j g
        → Follows km o code j g r
        → Follows km o code j h (append_result xs r)
    Follows-append h g xs none e f = tt
    Follows-append h g xs (some (g', ys)) e f =
        (f.0, rw (held-append code xs ys (down o j h), e) f.1)

    pub stamped-Follows :
        (now : Timespec) (h : Handler D) (r : Result D)
        → Follows km o code j h r
        → Follows km o code j h (stamp_result now r)
    stamped-Follows now h none f = tt
    stamped-Follows now h (some (g, xs)) (ready, f) = (ground arith, f)

    pub on_buttons_with-Follows :
        (release : Handler D → Result D) (buttons : ℕ) (c : ControllerId) (h : Handler D)
        → ((g : Handler D) → Ready km g → Follows km o code j g (release g))
        → Ready km h
        → buttons < 2 ^ 32
        → Follows km o code j h (on_buttons_with key_max release buttons c h)
    on_buttons_with-Follows release buttons c h nested ready r =
        let (h', xs) = update_buttons key_max buttons c h in
        let (ready', follows) = update_buttons-Follows buttons c h ready r in
        elim (Bool-cases h'.release_gesture_keys) [
          | inl e ↦ rw (on_buttons_with_releases key_max release buttons c h e) (
              Follows-append h h' xs _ follows
                (nested (record h' { release_gesture_keys = false }) (ground (arith, ready'))))
          | inr e ↦ rw (on_buttons_with_ends key_max release buttons c h e) (ready', follows)
        ]
