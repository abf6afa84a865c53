-- ===== src/Config/Collect.antt =====
-- config.cpp, `parseConfig`: the key maps that the key options make.
use Prim.Native.String.{String, ◌++◌ as ◌<>◌}
use mathlib.Core.Path.{subst}
use psmoveinput.Prelude.{
  ℕ, Bool, true, false, ◌&&◌, not, ◌≡◌, ◌≢◌, ◌⊎◌, refl, arith, List, [], ◌∷◌, ◌++◌, map, Option,
  none, some, if◌then◌else◌, Bool-cases, inl, inr,
}
use psmoveinput.Common.{KeyMap}
use psmoveinput.KeyMapParser.{Macros, create_entry}
use psmoveinput.KeyMapParser.Tables.{IsListed, suffixes, buttons, keys}
use psmoveinput.KeyMapParser.Entries.{entry-IsListed}
use psmoveinput.Config.State.{Value, word, letter, real, integer, Options, parsed, System, Config}
use psmoveinput.Config.Keys.{
  config_options, is_key_option, is_first_option, is_valid_entry, parse_options,
}
use psmoveinput.Config.Appends.{is_fine, entries, all_fine, collect, parse_options_appends}

-- The key options of the first controller, and those of the second with the gestures.
abbrev pub first_names : List String
first_names = map (λ s. "PSBTN_" <> s) suffixes

abbrev pub second_names : List String
second_names =
    map (λ s. "PSBTN_1_" <> s) suffixes
    ++ "GESTURE_UP" ∷ "GESTURE_DOWN" ∷ "GESTURE_LEFT" ∷ "GESTURE_RIGHT" ∷ []

-- The options that the loop takes for a controller.
chosen : Bool → List String → List String
chosen which [] = []
chosen which (name ∷ rest) =
    let others = chosen which rest in
    if is_key_option name && (if which then is_first_option name else not (is_first_option name))
    then name ∷ others
    else others

chosen_first : chosen true config_options ≡ first_names
unfolding chosen is_key_option is_first_option
chosen_first = refl

chosen_second : chosen false config_options ≡ second_names
unfolding chosen is_key_option is_first_option
chosen_second = refl

module _ {D : Type 0} (macros : Macros) (sys : System D) (opts : Options D) where
  -- The options of these names make this key map: one that is there has a text, name and text stand
  -- for a button and a key, and these are its entry.
  abbrev pub Makes : List String → KeyMap → Type 0
  Makes [] m = m ≡ []
  Makes (name ∷ rest) m =
      ((opts name ≡ none) × Makes rest m)
      ⊎ ((text : String) × (button code : ℕ) × (others : KeyMap) × (opts name ≡ some (word text))
          × IsListed name button (buttons macros)
          × IsListed text code (keys macros)
          × (button ≢ 0)
          × (code ≢ macros.key_reserved)
          × (m ≡ record { pscode = button; lincode = code } ∷ others)
          × Makes rest others)

  -- The entry of an option that is there.
  entry_made :
      (which : Bool) (name : String) (rest : List String) (others : KeyMap) (o : Option (Value D))
      → opts name ≡ o
      → (if which then is_first_option name else not (is_first_option name)) ≡ true
      → is_fine macros sys true name o ≡ true
      → Makes rest others
      → Makes (name ∷ rest) (entries macros sys which true name o ++ others)
  unfolding is_fine entries is_valid_entry
  entry_made which name rest others none e mine fine m = inl (e, m)
  entry_made which name rest others (some (word s)) e mine fine m =
      let entry = create_entry macros name s in
      let ne : entry.pscode ≢ 0 = ground arith in
      let ne' : entry.lincode ≢ macros.key_reserved = ground arith in
      let (l, l') = entry-IsListed macros name s ne ne' in
      inr (s, entry.pscode, entry.lincode, others, e, l, l', ne, ne', rw mine refl, m)
  entry_made which name rest others (some (letter l)) e mine fine m = absurd (ground arith)
  entry_made which name rest others (some (real d)) e mine fine m = absurd (ground arith)
  entry_made which name rest others (some (integer n)) e mine fine m = absurd (ground arith)

  -- An option of the other controller, or none of the keys, makes no entry here.
  no_entry :
      (which key_option : Bool) (name : String) (o : Option (Value D))
      → (key_option && (if which then is_first_option name else not (is_first_option name))) ≡ false
      → is_fine macros sys key_option name o ≡ true
      → entries macros sys which key_option name o ≡ []
  unfolding is_fine entries
  no_entry which false name o e fine = refl
  no_entry which true name none e fine = refl
  no_entry which true name (some (word s)) e fine = rw e refl
  no_entry which true name (some (letter l)) e fine = refl
  no_entry which true name (some (real d)) e fine = refl
  no_entry which true name (some (integer n)) e fine = refl

  -- A further name, with its entry if it is one of these options.
  more_collected :
      (which : Bool) (name : String) (rest : List String)
      → is_fine macros sys (is_key_option name) name (opts name) ≡ true
      → Makes (chosen which rest) (collect macros sys opts which rest)
      → (b : Bool) → is_key_option name ≡ b
      → Makes (chosen which (name ∷ rest)) (collect macros sys opts which (name ∷ rest))
  unfolding chosen collect
  more_collected which name rest fine m false e =
      rw (e, no_entry which false name (opts name) refl (ground arith)) m
  more_collected which name rest fine m true e =
      elim (Bool-cases (if which then is_first_option name else not (is_first_option name))) [
        | inl mine ↦
            rw (e, mine)
              (entry_made which name (chosen which rest) (collect macros sys opts which rest)
                (opts name) refl mine (ground arith) m)
        | inr other ↦ rw (e, other, no_entry which true name (opts name) other (ground arith)) m
      ]

  collected :
      (which : Bool) (names : List String)
      → all_fine macros sys opts names ≡ true
      → Makes (chosen which names) (collect macros sys opts which names)
  unfolding chosen all_fine collect
  collected which [] fine = refl
  collected which (name ∷ rest) fine =
      more_collected which name rest (ground arith) (collected which rest (ground arith))
        (is_key_option name) refl

  -- If the settings and key options of a parsed file are taken over and the verdict is that all is
  -- well, then to the key map of the first controller the entries of its nine buttons have been
  -- appended, and to that of the second the entries of its nine buttons and of the four gestures, in
  -- this order, as far as the file has these options; each of them has a text, its name stands for a
  -- button with another code than 0 and its text for a key with another code than KEY_RESERVED, and
  -- these are its entry.
  pub parse_options_collects :
      (c : Config D)
      → (parse_options macros sys (parsed opts) c).ok ≡ true
      → (m m' : KeyMap) × Makes first_names m
        × Makes second_names m'
        × ((parse_options macros sys (parsed opts) c).keymaps.fst ≡ c.keymaps.fst ++ m)
        × ((parse_options macros sys (parsed opts) c).keymaps.snd ≡ c.keymaps.snd ++ m')
  parse_options_collects c ok =
      let (fine, e, e') = parse_options_appends macros sys opts c ok in
      (
        collect macros sys opts true config_options,
        collect macros sys opts false config_options,
        subst (λ names. Makes names (collect macros sys opts true config_options)) chosen_first
            (collected true config_options fine),
        subst (λ names. Makes names (collect macros sys opts false config_options)) chosen_second
            (collected false config_options fine),
        e,
        e',
      )
