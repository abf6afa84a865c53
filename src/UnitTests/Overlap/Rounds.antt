-- ===== src/UnitTests/Overlap/Rounds.antt =====
-- psmove_handler.cpp, `onButtons`: a round of its loop where one button changes, which is mapped to one
-- plain key.
use psmoveinput.Prelude.{
  ℕ, zero, suc, ◌+◌, ◌/◌, ◌^◌, ◌<◌, ◌≤◌, bit, bit-zero, bit_and, bit_not, Bool, true, false, [],
  ◌∷◌, ◌==◌, if◌then◌else◌, ◌≡◌, ◌≢◌, refl, arith, ◌⊎◌, inl, inr, ap, ◌∙◌, Bool-cases,
}
use native.Mathlib.Nat.{pow-suc, one-le-pow, pow-le-pow_right}
use psmoveinput.Common.{ControllerId, first, second, at}
use psmoveinput.Handler.{
  Handler, key, report_bit, report_key, report_entries, report_entry, handle_special_keys,
}
use psmoveinput.Handler.Bits.{report_change, report_bit-eq-report_change}

pub pow_grows : (j : ℕ) → 2 ^ suc j ≡ 2 ^ j + 2 ^ j
pow_grows j = omega (arith, pow-suc 2 j)

pub bit-pow_self : (j : ℕ) → bit (2 ^ j) j ≡ 1
bit-pow_self zero = refl
bit-pow_self (suc j) =
    let e : 2 ^ suc j / 2 ≡ 2 ^ j = omega (arith, pow_grows j) in rw e (bit-pow_self j)

pub bit-pow_other : (j i : ℕ) → j ≢ i → bit (2 ^ j) i ≡ 0
bit-pow_other zero zero ne = absurd (ne refl)
bit-pow_other zero (suc i) ne = bit-zero i
bit-pow_other (suc j) zero ne = omega (arith, pow_grows j)
bit-pow_other (suc j) (suc i) ne =
    let e : 2 ^ suc j / 2 ≡ 2 ^ j = omega (arith, pow_grows j) in
    rw e (bit-pow_other j i (λ f. ne (ap suc f)))

module _ {D : Type 0} (key_max : ℕ) where
  -- A plain key is reported for its button, and for no other.
  plain_key :
      (c : ControllerId) (j i code : ℕ) (pressed : Bool) (h : Handler D)
      → at h.keymaps c ≡ record { pscode = 2 ^ j; lincode = code } ∷ []
      → code ≤ key_max
      → report_key key_max (2 ^ i) pressed c h
        ≡ (h, if 2 ^ j == 2 ^ i then key code pressed ∷ [] else [])
  unfolding report_key report_entries report_entry handle_special_keys
  plain_key first j i code true h e plain = rw e (ground arith)
  plain_key second j i code true h e plain = rw e (ground arith)
  plain_key first j i code false h e plain = rw e (ground arith)
  plain_key second j i code false h e plain = rw e (ground arith)

-- One button of the two patterns differs, and it is the only one that is down in either.
abbrev pub Toggles : ℕ → ℕ → ℕ → Type 0
Toggles j old new = ((old ≡ 0) × (new ≡ 2 ^ j)) ⊎ ((old ≡ 2 ^ j) × (new ≡ 0))

pow_below : (j : ℕ) → j < 28 → 2 ^ j < 2 ^ 32
pow_below j lt =
    let low : j ≤ 28 = omega arith in
    let le : 2 ^ j ≤ 2 ^ 28 = pow-le-pow_right (omega arith) low in omega arith

pub Toggles-lt : (j old new : ℕ) → j < 28 → Toggles j old new → (old < 2 ^ 32) × (new < 2 ^ 32)
Toggles-lt j old new lt (inl (e, e')) = rw (e, e') (omega arith, pow_below j lt)
Toggles-lt j old new lt (inr (e, e')) = rw (e, e') (pow_below j lt, omega arith)

pub Toggles-ne : (j old new : ℕ) → Toggles j old new → (old == new) ≡ false
Toggles-ne j old new (inl (e, e')) = rw (e, e') (ground (arith, one-le-pow j 2))
Toggles-ne j old new (inr (e, e')) = rw (e, e') (ground (arith, one-le-pow j 2))

same_bit : (j i : ℕ) → (j ≡ i) ⊎ (j ≢ i)
same_bit j i = elim (Bool-cases (j == i)) [
  | inl e ↦ inl (ground arith)
  | inr e ↦ inr (ground arith)
]

Toggles-self : (j old new : ℕ) → Toggles j old new → (bit new j == bit old j) ≡ false
Toggles-self j old new (inl (e, e')) = rw (e, e', bit-pow_self j, bit-zero j) refl
Toggles-self j old new (inr (e, e')) = rw (e, e', bit-pow_self j, bit-zero j) refl

Toggles-other : (j i old new : ℕ) → j ≢ i → Toggles j old new → (bit new i == bit old i) ≡ true
Toggles-other j i old new ne (inl (e, e')) = rw (e, e', bit-pow_other j i ne, bit-zero i) refl
Toggles-other j i old new ne (inr (e, e')) = rw (e, e', bit-pow_other j i ne, bit-zero i) refl

module _ {D : Type 0} (key_max : ℕ) (c : ControllerId) (j code old new : ℕ) (h : Handler D)
    (mapped : at h.keymaps c ≡ record { pscode = 2 ^ j; lincode = code } ∷ [])
    (plain : code ≤ key_max) (low : j < 28) (toggles : Toggles j old new) where
  change_lem :
      (i : ℕ)
      → report_change key_max old new c i h
        ≡ (h, if j == i then key code (bit new j == 1) ∷ [] else [])
  unfolding report_change
  change_lem i = elim (same_bit j i) [
    | inl e ↦ rw (← e) (
        rw (Toggles-self j old new toggles)
          (plain_key key_max c j j code (bit new j == 1) h mapped plain ∙ ground arith))
    | inr ne ↦ rw (Toggles-other j i old new ne toggles) (ground arith)
  ]

  -- The round of that button reports its key, and another round reports nothing.
  pub round_lem :
      (i : ℕ)
      → i < 28
      → report_bit key_max (bit_and new (bit_not old)) (bit_and old (bit_not new)) c (2 ^ i) h
        ≡ (h, if j == i then key code (bit new j == 1) ∷ [] else [])
  round_lem i lt =
      let (ho, hn) = Toggles-lt j old new low toggles in
      report_bit-eq-report_change key_max old new ho hn c i h (omega arith) ∙ change_lem i
