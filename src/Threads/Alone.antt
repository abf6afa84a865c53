-- ===== src/Threads/Alone.antt =====
-- psmove_handler.cpp: a call that nothing interrupts does what `onGyroscope`, `onGesture` and `onButtons`
-- do as functions.
use mathlib.Core.Path.{subst}
use psmoveinput.Prelude.{
  ℕ, zero, suc, ◌*◌, bit_and, bit_not, true, false, List, [], ◌∷◌, ◌++◌, none, some, leb, ◌==◌, ◌≡◌,
  refl, sym, ◌∙◌, Bool-cases, inl, inr, ℤ, pos,
}
use mathlib.Core.List.{append-nil, append_assoc}
use psmoveinput.Common.{ControllerId, second, at, put, btn_gesture_right}
use psmoveinput.Handler.{
  Handler, Timespec, Signal, Out, Result, gesture_enabled, zero_time, on_gesture, on_buttons_with,
  on_buttons_with_releases, on_buttons_with_ends, append_result, stamp_result, update_buttons,
  button_loop, report_bit, gestures_at, loop_fuel,
}
use psmoveinput.Threads.State.{Task, press, bits, check, clear, swing, judge, stamp, perform}

module _ {D : Type 0} (scale : ℤ → D → ℤ) (key_max : ℕ) where
  -- A thread goes on with its call, with these readings of the clock.
  unfoldable pub alone : List Timespec → List Task → Handler D → Out (List Task × Handler D)
  alone [] ts h = ((ts, h), [])
  alone (now ∷ rest) [] h = (([], h), [])
  alone (now ∷ rest) (t ∷ ts) h =
      let ((h', new), xs) = perform scale key_max now t h in
      let (end, ys) = alone rest (new ++ ts) h' in (end, xs ++ ys)

  -- Some actions take it from one place of its call to the other, with these signals.
  abbrev pub Does : List Task → Handler D → List Task → Handler D → List Signal → Type 0
  Does ts h ts' h' xs = (clock : List Timespec) × (alone clock ts h ≡ ((ts', h'), xs))

  pub alone_none : (clock : List Timespec) (h : Handler D) → alone clock [] h ≡ (([], h), [])
  unfolding alone
  alone_none [] h = refl
  alone_none (now ∷ rest) h = refl

  alone_append :
      (clock more : List Timespec) (ts : List Task) (h : Handler D)
      → alone (clock ++ more) ts h ≡ (
        (alone more (alone clock ts h).0.0 (alone clock ts h).0.1).0,
        (alone clock ts h).1 ++ (alone more (alone clock ts h).0.0 (alone clock ts h).0.1).1,
      )
  unfolding alone
  alone_append [] more ts h = refl
  alone_append (now ∷ rest) more [] h = sym (alone_none more h)
  alone_append (now ∷ rest) more (t ∷ ts) h =
      let ((h', new), xs) = perform scale key_max now t h in
      rw (alone_append rest more (new ++ ts) h', append_assoc xs (alone rest (new ++ ts) h').1) refl

  then_Does :
      (ts ts' ts'' : List Task) (h h' h'' : Handler D) (xs ys : List Signal)
      → Does ts h ts' h' xs
      → Does ts' h' ts'' h'' ys
      → Does ts h ts'' h'' (xs ++ ys)
  then_Does ts ts' ts'' h h' h'' xs ys (clock, e) (more, e') =
      (clock ++ more, alone_append clock more ts h ∙ rw (e, e') refl)

  -- One action.
  acts :
      (now : Timespec) (t : Task) (rest : List Task) (h : Handler D)
      → let ((h', new), xs) = perform scale key_max now t h in Does (t ∷ rest) h (new ++ rest) h' xs
  unfolding alone
  acts now t rest h = (now ∷ [], rw (append-nil (perform scale key_max now t h).1) refl)

  -- The same, with what the action is known to do.
  pub acts_so :
      (now : Timespec) (t : Task) (new rest : List Task) (h h' : Handler D) (xs : List Signal)
      → perform scale key_max now t h ≡ ((h', new), xs)
      → Does (t ∷ rest) h (new ++ rest) h' xs
  acts_so now t new rest h h' xs e =
      subst (λ (o : Out (Handler D × List Task)). Does (t ∷ rest) h (o.0.1 ++ rest) o.0.0 o.1) e
        (acts now t rest h)

  loop_Does :
      (fuel p r : ℕ) (c : ControllerId) (i buttons : ℕ) (rest : List Task) (h : Handler D)
      → let (h', xs) = button_loop key_max fuel p r c i h in
        Does
          (bits fuel p r c i buttons ∷ rest)
          h
          rest
          (record h' { buttons = put h'.buttons c buttons })
          xs
  unfolding button_loop perform
  loop_Does zero p r c i buttons rest h =
      acts_so zero_time (bits zero p r c i buttons) [] rest h _ [] refl
  loop_Does (suc fuel) p r c i buttons rest h =
      let now = zero_time in
      elim (Bool-cases (leb i btn_gesture_right)) [
        | inl on ↦
            let (h', xs) = report_bit key_max p r c i h in
            let (h'', ys) = button_loop key_max fuel p r c (i * 2) h' in
            let first_part =
              acts_so now (bits (suc fuel) p r c i buttons) (bits fuel p r c (i * 2) buttons ∷ [])
                rest h h' xs (rw (on, append-nil xs) refl) in
            rw on (
              then_Does _ _ _ _ _ _ xs ys first_part (loop_Does fuel p r c (i * 2) buttons rest h'))
        | inr off ↦
            rw off (acts_so now (bits (suc fuel) p r c i buttons) [] rest h _ [] (rw off refl))
      ]

  -- The first `if` of `onButtons`.
  update_Does :
      (buttons : ℕ) (c : ControllerId) (rest : List Task) (h : Handler D)
      → let (h', xs) = update_buttons key_max buttons c h in
        Does (press buttons c ∷ rest) h rest h' xs
  unfolding update_buttons perform
  update_Does buttons c rest h = elim (Bool-cases (at h.buttons c == buttons)) [
    | inl same ↦ rw same (acts_so zero_time (press buttons c) [] rest h h [] (rw same refl))
    | inr new ↦
        let old = at h.buttons c in
        let p = bit_and buttons (bit_not old) in
        let r = bit_and old (bit_not buttons) in
        let entered =
          acts_so zero_time (press buttons c) (bits loop_fuel p r c 1 buttons ∷ []) rest h h []
            (rw new refl) in
        rw (new, append-nil (button_loop key_max loop_fuel p r c 1 h).1)
          (then_Does _ _ _ _ _ _ [] _ entered (loop_Does loop_fuel p r c 1 buttons rest h))
  ]

  -- A call that returns is worked through to its end.
  abbrev pub Ends : List Task → Handler D → List Task → Result D → Type 0
  Ends ts h rest none = Unit {0}
  Ends ts h rest (some (h', xs)) = Does ts h rest h' xs

  prefix_Ends :
      (ts ts' rest : List Task) (h g : Handler D) (xs : List Signal) (o : Result D)
      → Does ts h ts' g xs
      → Ends ts' g rest o
      → Ends ts h rest (append_result xs o)
  prefix_Ends ts ts' rest h g xs none d k = tt
  prefix_Ends ts ts' rest h g xs (some (h', ys)) d k = then_Does ts ts' rest h g h' xs ys d k

  quiet_Ends :
      (ts ts' rest : List Task) (h g : Handler D) (o : Result D)
      → Does ts h ts' g []
      → Ends ts' g rest o
      → Ends ts h rest o
  quiet_Ends ts ts' rest h g none d k = tt
  quiet_Ends ts ts' rest h g (some (h', ys)) d k = then_Does ts ts' rest h g h' [] ys d k

  checked_Does :
      (rest : List Task) (h : Handler D)
      → h.release_gesture_keys ≡ false
      → Does (check ∷ rest) h rest h []
  unfolding perform
  checked_Does rest h e = acts_so zero_time check [] rest h h [] (rw e refl)

  released_Does :
      (rest : List Task) (h : Handler D)
      → h.release_gesture_keys ≡ true
      → Does
          (check ∷ rest)
          h
          (swing (pos 0) (pos 0) ∷ rest)
          (record h { release_gesture_keys = false })
          []
  unfolding perform
  released_Does rest h e =
      let s = swing (pos 0) (pos 0) in
      let h' : Handler D = record h { release_gesture_keys = false } in
      then_Does (check ∷ rest) (clear ∷ s ∷ rest) (s ∷ rest) h h h' [] []
        (acts_so zero_time check (clear ∷ s ∷ []) rest h h [] (rw e refl))
        (acts_so zero_time clear [] (s ∷ rest) h h' [] refl)

  -- `onButtons`, if its call of `onGesture` ends.
  pub buttons_Ends :
      (release : Handler D → Result D) (buttons : ℕ) (c : ControllerId) (rest : List Task)
      (h : Handler D)
      → ((g : Handler D) → Ends (swing (pos 0) (pos 0) ∷ rest) g rest (release g))
      → Ends (press buttons c ∷ check ∷ rest) h rest (on_buttons_with key_max release buttons c h)
  buttons_Ends release buttons c rest h nested =
      let (h', xs) = update_buttons key_max buttons c h in
      let updated = update_Does buttons c (check ∷ rest) h in
      elim (Bool-cases h'.release_gesture_keys) [
        | inl e ↦
            let g : Handler D = record h' { release_gesture_keys = false } in
            rw (on_buttons_with_releases key_max release buttons c h e) (
              prefix_Ends _ (check ∷ rest) rest h h' xs (release g) updated (
                quiet_Ends _ (swing (pos 0) (pos 0) ∷ rest) rest h' g (release g)
                  (released_Does rest h' e) (nested g)))
        | inr e ↦ rw (on_buttons_with_ends key_max release buttons c h e) (
            subst (λ ys. Does (press buttons c ∷ check ∷ rest) h rest h' ys) (append-nil xs)
              (then_Does _ (check ∷ rest) rest h h' h' xs [] updated (checked_Does rest h' e)))
      ]

  stamp_Ends :
      (now : Timespec) (ts rest : List Task) (h : Handler D) (o : Result D)
      → Ends ts h (stamp now ∷ rest) o
      → Ends ts h rest (stamp_result now o)
  unfolding perform
  stamp_Ends now ts rest h none k = tt
  stamp_Ends now ts rest h (some (h', xs)) k =
      let g : Handler D = record h' { last_gesture_tp = now } in
      subst (λ ys. Does ts h rest g ys) (append-nil xs)
        (then_Does ts (stamp now ∷ rest) rest h h' g xs [] k
          (acts_so zero_time (stamp now) [] rest h' g [] refl))

  pub gesture_Ends :
      (clock : List Timespec) (gx gy : ℤ) (rest : List Task) (h : Handler D)
      → Ends (swing gx gy ∷ rest) h rest (on_gesture scale key_max clock gx gy h)
  unfolding on_gesture perform
  gesture_Ends [] gx gy rest h = tt
  gesture_Ends (now ∷ clock) gx gy rest h = elim (Bool-cases (gesture_enabled h)) [
    | inl on ↦
        let b = gestures_at scale now gx gy h in
        let whole =
          buttons_Ends (on_gesture scale key_max clock (pos 0) (pos 0)) b second (stamp now ∷ rest)
            h (λ g. gesture_Ends clock (pos 0) (pos 0) (stamp now ∷ rest) g) in
        let judged =
          then_Does (swing gx gy ∷ rest) (judge now gx gy ∷ stamp now ∷ rest)
            (press b second ∷ check ∷ stamp now ∷ rest) h h h [] []
            (acts_so now (swing gx gy) (judge now gx gy ∷ stamp now ∷ []) rest h h [] (rw on refl))
            (acts_so now (judge now gx gy) (press b second ∷ check ∷ []) (stamp now ∷ rest) h h []
              refl) in
        rw on (stamp_Ends now _ rest h _ (quiet_Ends _ _ (stamp now ∷ rest) h h _ judged whole))
    | inr off ↦
        let g : Handler D = record h { last_gesture_tp = now } in
        rw off (
          then_Does (swing gx gy ∷ rest) (stamp now ∷ rest) rest h h g [] []
            (acts_so now (swing gx gy) (stamp now ∷ []) rest h h [] (rw off refl))
            (acts_so zero_time (stamp now) [] rest h g [] refl))
  ]
