-- ===== src/Threads/Following.antt =====
-- psmove_handler.cpp: a key of one thread's controller while both threads are at work.
use psmoveinput.Prelude.{
  ℕ, zero, suc, ◌^◌, ◌≤◌, bit, Bool, true, false, List, [], ◌∷◌, ◌++◌, leb, ◌==◌, ◌≡◌, refl, sym,
  ◌∙◌, ap, arith, Bool-cases, inl, inr, ℤ, All,
}
use mathlib.Core.Path.{subst}
use mathlib.Core.List.{append-nil}
use psmoveinput.Common.{ControllerId, first, second, KeyMap, PerController, at, btn_gesture_right}
use psmoveinput.Handler.{Handler, Timespec, Signal, on_gyroscope, move_signals, report_bit}
use psmoveinput.Handler.Changes.{held, report_bit-Keeps}
use psmoveinput.Handler.Following.{IsOwner, opposite, down, Ready}
use psmoveinput.Threads.State.{
  Task, press, bits, check, clear, swing, judge, stamp, gyro, perform, store,
}
use psmoveinput.Threads.Loop.{loop_held, report_bit-held, foreign_bit_held, round_below}
use psmoveinput.Threads.Sound.{TaskFits}

-- A task that does not touch the buttons of controller `o`. For the second, that is none that could make
-- a gesture.
abbrev pub IsForeign : ControllerId → Task → Type 0
IsForeign o (press buttons c) = c ≡ opposite o
IsForeign o (bits fuel p r c i buttons) = c ≡ opposite o
IsForeign second clear = ⊥
IsForeign second (swing gx gy) = ⊥
IsForeign second (judge t gx gy) = ⊥
IsForeign o _ = Unit {0}

abbrev pub NotLoop : Task → Type 0
NotLoop (bits fuel p r c i buttons) = ⊥
NotLoop _ = Unit {0}

abbrev pub rest_of : List Task → List Task
rest_of [] = []
rest_of (t ∷ rest) = rest

module _ {D : Type 0} (scale : ℤ → D → ℤ) (key_max code j : ℕ) (plain : code ≤ key_max)
    (km : PerController KeyMap) where
  -- What holds of the key, down or not, with `d` for its button: in the loop for its controller, what is
  -- left of it will make it as the button will be; elsewhere it is as the button is.
  abbrev Aims : ControllerId → Task → Bool → Bool → Type 0
  Aims first (bits fuel p r first i buttons) d b =
      loop_held code km.fst fuel p r i b ≡ (bit buttons j == 1)
  Aims second (bits fuel p r second i buttons) d b =
      loop_held code km.snd fuel p r i b ≡ (bit buttons j == 1)
  Aims o _ d b = b ≡ d

  abbrev Aimed : ControllerId → List Task → Bool → Bool → Type 0
  Aimed o [] d b = b ≡ d
  Aimed o (t ∷ rest) d b = Aims o t d b

  abbrev pub Expects : ControllerId → Task → Handler D → Bool → Type 0
  Expects o t h b = Aims o t (down o j h) b

  abbrev pub Expected : ControllerId → List Task → Handler D → Bool → Type 0
  Expected o ts h b = Aimed o ts (down o j h) b

  pub moved-Expected :
      (o : ControllerId) (ts : List Task) (h h' : Handler D) (b b' : Bool)
      → b' ≡ b
      → down o j h' ≡ down o j h
      → Expected o ts h b
      → Expected o ts h' b'
  moved-Expected o ts h h' b b' e same w =
      subst (λ x. Aimed o ts (down o j h') x) (sym e) (subst (λ d. Aimed o ts d b) (sym same) w)

  pub NotLoop-Expected :
      (o : ControllerId) (ts : List Task) (h : Handler D) (b : Bool)
      → All NotLoop ts
      → b ≡ down o j h
      → Expected o ts h b
  NotLoop-Expected o [] h b n e = e
  NotLoop-Expected o (bits fuel p r c i buttons ∷ rest) h b n e = absurd n.0
  NotLoop-Expected first (press buttons c ∷ rest) h b n e = e
  NotLoop-Expected second (press buttons c ∷ rest) h b n e = e
  NotLoop-Expected first (check ∷ rest) h b n e = e
  NotLoop-Expected second (check ∷ rest) h b n e = e
  NotLoop-Expected first (clear ∷ rest) h b n e = e
  NotLoop-Expected second (clear ∷ rest) h b n e = e
  NotLoop-Expected first (swing gx gy ∷ rest) h b n e = e
  NotLoop-Expected second (swing gx gy ∷ rest) h b n e = e
  NotLoop-Expected first (judge t gx gy ∷ rest) h b n e = e
  NotLoop-Expected second (judge t gx gy ∷ rest) h b n e = e
  NotLoop-Expected first (stamp t ∷ rest) h b n e = e
  NotLoop-Expected second (stamp t ∷ rest) h b n e = e
  NotLoop-Expected first (gyro gx gy ∷ rest) h b n e = e
  NotLoop-Expected second (gyro gx gy ∷ rest) h b n e = e

  pub append-Expected :
      (o : ControllerId) (ts rest : List Task) (h : Handler D) (b : Bool)
      → All NotLoop rest
      → Expected o ts h b
      → Expected o (ts ++ rest) h b
  append-Expected o [] rest h b n e = NotLoop-Expected o rest h b n e
  append-Expected o (t ∷ ts) rest h b n e = e

  -- An action of the other thread leaves the key and its button alone.
  pub foreign_bit :
      (o : ControllerId) (p r k : ℕ) (h : Handler D) (b : Bool)
      → IsOwner km o code j
      → h.keymaps ≡ km
      → leb (2 ^ k) btn_gesture_right ≡ true
      → held code (report_bit key_max p r (opposite o) (2 ^ k) h).1 b ≡ b
  foreign_bit o p r k h b owner e on =
      report_bit-held key_max code plain p r (opposite o) (2 ^ k) h b
      ∙ rw e (foreign_bit_held code (at km (opposite o)) p r k b owner.other (round_below k on))

  stored_elsewhere :
      (o c : ControllerId) (buttons : ℕ) (h : Handler D)
      → c ≡ opposite o
      → down o j (store buttons c h).0.0 ≡ down o j h
  stored_elsewhere first first buttons h e = absurd (ground arith)
  stored_elsewhere first second buttons h e = refl
  stored_elsewhere second first buttons h e = refl
  stored_elsewhere second second buttons h e = absurd (ground arith)

  pub kept_button :
      (o c : ControllerId) (p r i : ℕ) (h : Handler D)
      → down o j (report_bit key_max p r c i h).0 ≡ down o j h
  kept_button o c p r i h =
      ap (λ x. bit (at x o) j == 1) (report_bit-Keeps key_max p r c i h).buttons

  -- What an action of the other thread leaves alone.
  abbrev pub Apart :
      ControllerId → Handler D → Bool → (Handler D × List Task) × List Signal → Type 0
  Apart o h b ((h', ts), xs) =
      (held code xs b ≡ b) × (down o j h' ≡ down o j h) × All (IsForeign o) ts

  foreign_round :
      (o : ControllerId) (now : Timespec) (fuel p r : ℕ) (c : ControllerId) (i buttons k : ℕ)
      (h : Handler D) (b : Bool)
      → IsOwner km o code j
      → h.keymaps ≡ km
      → c ≡ opposite o
      → i ≡ 2 ^ k
      → Apart o h b (perform scale key_max now (bits (suc fuel) p r c i buttons) h)
  unfolding perform held
  foreign_round o now fuel p r c i buttons k h b owner e ec ei =
      elim (Bool-cases (leb i btn_gesture_right)) [
        | inl on ↦ rw on (
          ap (λ xs. held code xs b) (append-nil (report_bit key_max p r c i h).1)
              ∙ rw (ec, ei)
                  (foreign_bit o p r k h b owner e
                    (ap (λ x. leb x btn_gesture_right) (sym ei) ∙ on)),
          kept_button o c p r i h,
          (ec, tt),
        )
        | inr off ↦ rw off (refl, stored_elsewhere o c buttons h ec, tt)
      ]

  pub perform-Apart :
      (o : ControllerId) (now : Timespec) (t : Task) (h : Handler D) (b : Bool)
      → IsOwner km o code j
      → Ready km h
      → TaskFits t
      → IsForeign o t
      → (o ≡ second → h.release_gesture_keys ≡ false)
      → Apart o h b (perform scale key_max now t h)
  unfolding perform held on_gyroscope move_signals
  perform-Apart o now (press buttons c) h b owner ready f e calm =
      elim (Bool-cases (at h.buttons c == buttons)) [
        | inl same ↦ rw same (refl, refl, tt)
        | inr new ↦ rw new (refl, refl, (e, tt))
      ]
  perform-Apart o now (bits zero p r c i buttons) h b owner ready f e calm =
      (refl, stored_elsewhere o c buttons h e, tt)
  perform-Apart o now (bits (suc fuel) p r c i buttons) h b owner ready (f, k, ei) e calm =
      foreign_round o now fuel p r c i buttons k h b owner ready.maps e ei
  perform-Apart first now check h b owner ready f e calm = ground arith
  perform-Apart second now check h b owner ready f e calm = rw (calm refl) (refl, refl, tt)
  perform-Apart first now clear h b owner ready f e calm = (refl, refl, tt)
  perform-Apart second now clear h b owner ready f e calm = absurd e
  perform-Apart first now (swing gx gy) h b owner ready f e calm = ground arith
  perform-Apart second now (swing gx gy) h b owner ready f e calm = absurd e
  perform-Apart first now (judge t gx gy) h b owner ready f e calm = (refl, refl, (refl, (tt, tt)))
  perform-Apart second now (judge t gx gy) h b owner ready f e calm = absurd e
  perform-Apart first now (stamp t) h b owner ready f e calm = (refl, refl, tt)
  perform-Apart second now (stamp t) h b owner ready f e calm = (refl, refl, tt)
  perform-Apart o now (gyro gx gy) h b owner ready f e calm = ground arith
