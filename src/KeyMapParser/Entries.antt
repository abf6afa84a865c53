-- ===== src/KeyMapParser/Entries.antt =====
-- conf_keymap_parser.cpp: which options make a valid entry.
use Prim.Native.String.{String}
use mathlib.Core.Path.{subst}
use psmoveinput.Prelude.{◌∙◌, ℕ, List, [], ◌∷◌, Option, none, some, All, ◌≡◌, ◌≢◌, refl, inl, inr}
use psmoveinput.Common.{KeyMapEntry}
use psmoveinput.KeyMapParser.Tables.{IsListed, buttons, keys, found_button, found_key}
use psmoveinput.KeyMapParser.{Macros, find, psmap, linmap, create_entry}

-- What is listed is a value of the table.
listed-All :
    (P : ℕ → Type 0) (name : String) (table : List (String × ℕ)) (v : ℕ)
    → All (λ (p : String × ℕ). P p.1) table
    → IsListed name v table
    → P v
listed-All P name [] v all l = absurd l
listed-All P name ((k, w) ∷ rest) v all (inl (e, e')) = subst P e' all.0
listed-All P name ((k, w) ∷ rest) v all (inr l) = listed-All P name rest v all.1 l

-- `createEntry` by what was found in the two tables.
module _ (reserved : ℕ) where
  abbrev entry_of : Option ℕ → Option ℕ → KeyMapEntry
  entry_of none p = record { pscode = 0; lincode = reserved }
  entry_of (some ps) none = record { pscode = ps; lincode = reserved }
  entry_of (some ps) (some lin) = record { pscode = ps; lincode = lin }

  entry_found :
      (o p : Option ℕ)
      → (entry_of o p).pscode ≢ 0
      → (entry_of o p).lincode ≢ reserved
      → (o ≡ some (entry_of o p).pscode) × (p ≡ some (entry_of o p).lincode)
  entry_found none p ne ne' = absurd (ne refl)
  entry_found (some ps) none ne ne' = absurd (ne' refl)
  entry_found (some ps) (some lin) ne ne' = (refl, refl)

module _ (macros : Macros) where
  create_entry-eq-entry_of :
      (name value : String)
      → create_entry macros name value
        ≡ entry_of macros.key_reserved (find name (psmap macros)) (find value (linmap macros))
  unfolding create_entry
  create_entry-eq-entry_of name value =
      cases (find name (psmap macros)) (find value (linmap macros))
    where
      cases :
          (o p : Option ℕ)
          → elim o [
            | none ↦ record { pscode = 0; lincode = macros.key_reserved }
            | some ps ↦ elim p [
              | none ↦ record { pscode = ps; lincode = macros.key_reserved }
              | some lin ↦ record { pscode = ps; lincode = lin }
            ]
          ]
            ≡ entry_of macros.key_reserved o p
      cases none p = refl
      cases (some ps) none = refl
      cases (some ps) (some lin) = refl

  -- An entry with other codes than 0 and KEY_RESERVED has what its names stand for.
  pub entry-IsListed :
      (name value : String)
      → let entry = create_entry macros name value in
        entry.pscode ≢ 0
        → entry.lincode ≢ macros.key_reserved
        → IsListed name entry.pscode (buttons macros) × IsListed value entry.lincode (keys macros)
  entry-IsListed name value = rw create_entry-eq-entry_of (λ ne ne'.
      let (e, e') =
        entry_found macros.key_reserved (find name (psmap macros)) (find value (linmap macros)) ne
          ne' in
      ((found_button macros name _).0 e, (found_key macros value _).0 e'))

  -- Let no button have the code 0 and no key the code KEY_RESERVED. If the entry for an option and its
  -- value has another code than these two in either place, then the option's name stands for the button
  -- of the entry, by its suffix and for either controller, or by its gesture, and the value for the
  -- entry's key, by the name of a macro or of a special key. And if both names stand for something, then
  -- the entry has these two codes, which are other than 0 and KEY_RESERVED.
  pub create_entry_valid :
      (name value : String)
      → All (λ (p : String × ℕ). p.1 ≢ 0) (buttons macros)
      → All (λ (p : String × ℕ). p.1 ≢ macros.key_reserved) (keys macros)
      → let entry = create_entry macros name value in
        (entry.pscode ≢ 0
          → entry.lincode ≢ macros.key_reserved
          → IsListed name entry.pscode (buttons macros)
            × IsListed value entry.lincode (keys macros))
        × ((button code : ℕ)
            → IsListed name button (buttons macros)
            → IsListed value code (keys macros)
            → (entry ≡ record { pscode = button; lincode = code })
              × (button ≢ 0)
              × (code ≢ macros.key_reserved))
  create_entry_valid name value all_buttons all_keys = (
    λ ne ne'. entry-IsListed name value ne ne',
    λ button code l l'. (
      create_entry-eq-entry_of name value
          ∙ rw ((found_button macros name button).1 l, (found_key macros value code).1 l') refl,
      listed-All (λ v. v ≢ 0) name (buttons macros) button all_buttons l,
      listed-All (λ v. v ≢ macros.key_reserved) value (keys macros) code all_keys l',
    ),
  )
