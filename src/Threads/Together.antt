-- ===== src/Threads/Together.antt =====
-- psmove_handler.cpp: what a thread does to a key of its own controller.
use psmoveinput.Prelude.{
  ℕ, zero, suc, ◌*◌, ◌^◌, ◌<◌, ◌≤◌, bit, bit_and, bit_not, Bool, true, false, List, leb, ◌==◌, ◌≡◌,
  refl, sym, ◌∙◌, ap, arith, Bool-cases, inl, inr, ℤ, All,
}
use mathlib.Core.List.{append-nil}
use psmoveinput.Common.{ControllerId, first, second, KeyMap, PerController, at, btn_gesture_right}
use psmoveinput.Handler.{
  Handler, Timespec, Signal, on_gyroscope, move_signals, report_bit, loop_fuel,
}
use psmoveinput.Handler.Changes.{held}
use psmoveinput.Handler.Following.{IsOwner, down, Ready}
use psmoveinput.Threads.State.{
  Task, press, bits, check, clear, swing, judge, stamp, gyro, perform, store,
}
use psmoveinput.Threads.Loop.{loop_held, report_bit-held, whole_loop_held}
use psmoveinput.Threads.Sound.{TaskFits}
use psmoveinput.Threads.Following.{NotLoop, rest_of, Expects, Expected, foreign_bit, kept_button}

module _ {D : Type 0} (scale : ℤ → D → ℤ) (key_max code j : ℕ) (plain : code ≤ key_max)
    (km : PerController KeyMap) where
  -- What an action of the key's own thread does to it.
  abbrev pub Together : ControllerId → Bool → (Handler D × List Task) × List Signal → Type 0
  Together o b ((h', ts), xs) =
      All NotLoop (rest_of ts) × Expected scale key_max code j plain km o ts h' (held code xs b)

  entered_loop :
      (c : ControllerId) (buttons : ℕ) (h : Handler D) (b : Bool)
      → IsOwner km c code j
      → Ready km h
      → buttons < 2 ^ 32
      → (at h.buttons c == buttons) ≡ false
      → b ≡ down c j h
      → let old = at h.buttons c in
        loop_held code
          (at km c)
          loop_fuel
          (bit_and buttons (bit_not old))
          (bit_and old (bit_not buttons))
          1
          b
        ≡ (bit buttons j == 1)
  entered_loop c buttons h b owner ready lt new e = rw e (
      whole_loop_held key_max code plain j buttons c h (at km c) (ap (λ x. at x c) ready.maps)
        owner.own owner.below (at_range c h ready) lt new)
    where
      at_range : (c : ControllerId) (h : Handler D) → Ready km h → at h.buttons c < 2 ^ 32
      at_range first h ready = ready.fst_range
      at_range second h ready = ready.snd_range

  own_press :
      (o c : ControllerId) (now : Timespec) (buttons : ℕ) (h : Handler D) (b : Bool)
      → IsOwner km o code j
      → Ready km h
      → buttons < 2 ^ 32
      → b ≡ down o j h
      → Together o b (perform scale key_max now (press buttons c) h)
  unfolding perform held
  own_press o c now buttons h b owner ready lt e = elim (Bool-cases (at h.buttons c == buttons)) [
    | inl same ↦ rw same (tt, e)
    | inr new ↦ rw new (tt, enters o c owner new e)
  ]
    where
      enters :
          (o c : ControllerId)
          → IsOwner km o code j
          → (at h.buttons c == buttons) ≡ false
          → b ≡ down o j h
          → Expects scale key_max code j plain km o
              (bits loop_fuel
                (bit_and buttons (bit_not (at h.buttons c)))
                (bit_and (at h.buttons c) (bit_not buttons))
                c
                1
                buttons)
              h
              b
      enters first first owner new e = entered_loop first buttons h b owner ready lt new e
      enters first second owner new e = e
      enters second first owner new e = e
      enters second second owner new e = entered_loop second buttons h b owner ready lt new e

  own_store :
      (o c : ControllerId) (buttons : ℕ) (h : Handler D) (b : Bool) (fuel p r i : ℕ)
      → (loop_held code (at km c) fuel p r i b ≡ b)
      → Expects scale key_max code j plain km o (bits fuel p r c i buttons) h b
      → b ≡ down o j (store buttons c h).0.0
  own_store first first buttons h b fuel p r i same e = sym same ∙ e
  own_store first second buttons h b fuel p r i same e = e
  own_store second first buttons h b fuel p r i same e = e
  own_store second second buttons h b fuel p r i same e = sym same ∙ e

  -- After a round, less is left of the loop, and it leads to the same.
  round_held :
      (c : ControllerId) (fuel p r k : ℕ) (h : Handler D) (b : Bool)
      → h.keymaps ≡ km
      → leb (2 ^ k) btn_gesture_right ≡ true
      → loop_held code
          (at km c)
          fuel
          p
          r
          (2 ^ k * 2)
          (held code (report_bit key_max p r c (2 ^ k) h).1 b)
        ≡ loop_held code (at km c) (suc fuel) p r (2 ^ k) b
  unfolding loop_held
  round_held c fuel p r k h b e on =
      rw (report_bit-held key_max code plain p r c (2 ^ k) h b, e, on) refl

  own_round :
      (o c : ControllerId) (fuel p r k buttons : ℕ) (h : Handler D) (b : Bool)
      → IsOwner km o code j
      → h.keymaps ≡ km
      → leb (2 ^ k) btn_gesture_right ≡ true
      → Expects scale key_max code j plain km o (bits (suc fuel) p r c (2 ^ k) buttons) h b
      → Expects scale key_max code j plain km o
          (bits fuel p r c (2 ^ k * 2) buttons)
          (report_bit key_max p r c (2 ^ k) h).0
          (held code (report_bit key_max p r c (2 ^ k) h).1 b)
  own_round first first fuel p r k buttons h b owner e on w =
      round_held first fuel p r k h b e on ∙ w
  own_round first second fuel p r k buttons h b owner e on w =
      foreign_bit scale key_max code j plain km first p r k h b owner e on
      ∙ w
      ∙ sym (kept_button scale key_max code j plain km first second p r (2 ^ k) h)
  own_round second first fuel p r k buttons h b owner e on w =
      foreign_bit scale key_max code j plain km second p r k h b owner e on
      ∙ w
      ∙ sym (kept_button scale key_max code j plain km second first p r (2 ^ k) h)
  own_round second second fuel p r k buttons h b owner e on w =
      round_held second fuel p r k h b e on ∙ w

  own_bits :
      (o : ControllerId) (now : Timespec) (fuel p r : ℕ) (c : ControllerId) (k buttons : ℕ)
      (h : Handler D) (b : Bool)
      → IsOwner km o code j
      → h.keymaps ≡ km
      → Expects scale key_max code j plain km o (bits fuel p r c (2 ^ k) buttons) h b
      → Together o b (perform scale key_max now (bits fuel p r c (2 ^ k) buttons) h)
  unfolding perform held loop_held
  own_bits o now zero p r c k buttons h b owner e w =
      (tt, own_store o c buttons h b zero p r (2 ^ k) refl w)
  own_bits o now (suc fuel) p r c k buttons h b owner e w =
      elim (Bool-cases (leb (2 ^ k) btn_gesture_right)) [
        | inl on ↦
            rw (on, append-nil (report_bit key_max p r c (2 ^ k) h).1)
              (tt, own_round o c fuel p r k buttons h b owner e on w)
        | inr off ↦ rw off (tt, own_store o c buttons h b (suc fuel) p r (2 ^ k) (rw off refl) w)
      ]

  pub perform-Together :
      (o : ControllerId) (now : Timespec) (t : Task) (h : Handler D) (b : Bool)
      → IsOwner km o code j
      → Ready km h
      → TaskFits t
      → Expects scale key_max code j plain km o t h b
      → Together o b (perform scale key_max now t h)
  unfolding perform held on_gyroscope move_signals
  perform-Together first now (press buttons c) h b owner ready f w =
      own_press first c now buttons h b owner ready f w
  perform-Together second now (press buttons c) h b owner ready f w =
      own_press second c now buttons h b owner ready f w
  perform-Together o now (bits fuel p r c i buttons) h b owner ready (f, k, e) w =
      rw e (own_bits o now fuel p r c k buttons h b owner ready.maps (rw e at w))
  perform-Together first now check h b owner ready f w = ground arith
  perform-Together second now check h b owner ready f w = ground arith
  perform-Together first now clear h b owner ready f w = (tt, w)
  perform-Together second now clear h b owner ready f w = (tt, w)
  perform-Together first now (swing gx gy) h b owner ready f w = ground arith
  perform-Together second now (swing gx gy) h b owner ready f w = ground arith
  perform-Together first now (judge t gx gy) h b owner ready f w = ((tt, tt), w)
  perform-Together second now (judge t gx gy) h b owner ready f w = ((tt, tt), w)
  perform-Together first now (stamp t) h b owner ready f w = (tt, w)
  perform-Together second now (stamp t) h b owner ready f w = (tt, w)
  perform-Together first now (gyro gx gy) h b owner ready f w = ground arith
  perform-Together second now (gyro gx gy) h b owner ready f w = ground arith
