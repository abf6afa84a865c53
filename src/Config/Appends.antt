-- ===== src/Config/Appends.antt =====
-- config.cpp, `parseConfig`: what the loop over the key options appends, option by option.
use Prim.Native.String.{String}
use mathlib.Core.List.{append-nil, append_assoc}
use psmoveinput.Prelude.{
  ap, Bool, true, false, ◌&&◌, not, ◌≡◌, refl, sym, arith, List, [], ◌∷◌, ◌++◌, Option, none, some,
  if◌then◌else◌, Bool-cases, inl, inr,
}
use psmoveinput.Common.{KeyMap, PerController}
use psmoveinput.KeyMapParser.{Macros, create_entry}
use psmoveinput.Config.State.{Value, word, letter, real, integer, Options, parsed, System, Config}
use psmoveinput.Config.Parse.{Exec, done, threw, ◌>>=◌, file_settings, file_numbers}
use psmoveinput.Config.Keys.{
  config_options, is_key_option, is_first_option, is_valid_entry, add_entry, Round, next, leave,
  key_value, key_round, key_options, parse_options,
}
use psmoveinput.Config.Steps.{reached, KeepsRest, chain, file_settings_keep, file_numbers_keep}

module _ {D : Type 0} (macros : Macros) (sys : System D) where
  -- The value of a key option is a text that makes a valid entry.
  unfoldable pub is_fine : Bool → String → Option (Value D) → Bool
  is_fine true name (some (word s)) = is_valid_entry macros sys (create_entry macros name s)
  is_fine true name (some _) = false
  is_fine _ name _ = true

  -- The entries of an option, for the first controller or for the others.
  unfoldable pub entries : Bool → Bool → String → Option (Value D) → KeyMap
  entries which true name (some (word s)) =
      if (if which then is_first_option name else not (is_first_option name))
      then create_entry macros name s ∷ []
      else []
  entries which _ name _ = []

  -- The loop was left with an exception or with the verdict that the file is invalid.
  abbrev IsRefused : Exec D → Type 0
  IsRefused (done c) = c.ok ≡ false
  IsRefused (threw msg c) = Unit {0}

  abbrev IsLeft : Round macros sys → Type 0
  IsLeft (next c) = ⊥
  IsLeft (leave e) = IsRefused e

  abbrev with_entries : KeyMap → KeyMap → Config D → Config D
  with_entries m m' c = record c {
    keymaps = record { fst = c.keymaps.fst ++ m; snd = c.keymaps.snd ++ m' };
  }

  round_outcome :
      (b : Bool) (name : String) (o : Option (Value D)) (c : Config D)
      → let r : Round macros sys =
          if b then elim o [ none ↦ next c | some v ↦ key_value macros sys name v c ] else next c in
        (is_fine b name o ≡ true
          → r ≡ next (with_entries (entries true b name o) (entries false b name o) c))
        × (is_fine b name o ≡ false → IsLeft r)
  unfolding is_fine entries key_value add_entry
  round_outcome false name none c =
      (λ e. rw (append-nil, append-nil) refl, λ e. absurd (ground arith))
  round_outcome false name (some v) c =
      (λ e. rw (append-nil, append-nil) refl, λ e. absurd (ground arith))
  round_outcome true name none c =
      (λ e. rw (append-nil, append-nil) refl, λ e. absurd (ground arith))
  round_outcome true name (some (word s)) c =
      ground (arith, append-nil c.keymaps.fst, append-nil c.keymaps.snd)
  round_outcome true name (some (letter l)) c = (λ e. absurd (ground arith), λ e. tt)
  round_outcome true name (some (real d)) c = (λ e. absurd (ground arith), λ e. tt)
  round_outcome true name (some (integer n)) c = (λ e. absurd (ground arith), λ e. tt)

module _ {D : Type 0} (macros : Macros) (sys : System D) (opts : Options D) where
  -- What all key options among the names have to be, and the entries that they make.
  unfoldable pub all_fine : List String → Bool
  all_fine [] = true
  all_fine (name ∷ rest) = is_fine macros sys (is_key_option name) name (opts name) && all_fine rest

  unfoldable pub collect : Bool → List String → KeyMap
  collect which [] = []
  collect which (name ∷ rest) =
      entries macros sys which (is_key_option name) name (opts name) ++ collect which rest

  after_round :
      (name : String) (rest : List String) (c : Config D) (r : Round macros sys)
      → key_round macros sys opts name c ≡ r
      → key_options macros sys opts (name ∷ rest) c
        ≡ elim r [ next c' ↦ key_options macros sys opts rest c' | leave e ↦ e ]
  unfolding key_options
  after_round name rest c r e =
      ap
        (λ (x : Round macros sys). elim x [
          | next c' ↦ key_options macros sys opts rest c'
          | leave e' ↦ e'
        ])
        e

  left_IsRefused :
      (rest : List String) (r : Round macros sys)
      → IsLeft macros sys r
      → IsRefused macros sys
          (elim r [ next c' ↦ key_options macros sys opts rest c' | leave e ↦ e ])
  left_IsRefused rest (next c) left = absurd left
  left_IsRefused rest (leave e) left = left

  key_options_append :
      (names : List String) (c : Config D)
      → all_fine names ≡ true
      → key_options macros sys opts names c
        ≡ done (with_entries macros sys (collect true names) (collect false names) c)
  unfolding all_fine collect key_round
  key_options_append [] c fine = unfold key_options in rw (append-nil, append-nil) refl
  key_options_append (name ∷ rest) c fine =
      let (all, refused) = round_outcome macros sys (is_key_option name) name (opts name) c in
      rw (after_round name rest c _ (all (ground arith)), key_options_append rest _ (ground arith))
        (rw (append_assoc c.keymaps.fst, append_assoc c.keymaps.snd) refl)

  key_options_refuse :
      (names : List String) (c : Config D)
      → all_fine names ≡ false
      → IsRefused macros sys (key_options macros sys opts names c)
  unfolding all_fine key_round
  key_options_refuse [] c bad = absurd (ground arith)
  key_options_refuse (name ∷ rest) c bad =
      let (all, refused) = round_outcome macros sys (is_key_option name) name (opts name) c in
      elim (Bool-cases (is_fine macros sys (is_key_option name) name (opts name))) [
        | inl fine ↦
            rw (after_round name rest c _ (all fine)) (key_options_refuse rest _ (ground arith))
        | inr unfine ↦ rw (after_round name rest c _ refl) (left_IsRefused rest _ (refused unfine))
      ]

  -- The handlers of the `try` block.
  abbrev caught : Exec D → Config D
  caught (done c) = c
  caught (threw msg c) = record c { message = msg; ok = false }

  refused_handled : (e : Exec D) → IsRefused macros sys e → (caught e).ok ≡ false
  refused_handled (done c) refused = refused
  refused_handled (threw msg c) refused = refl

  collects_after :
      (names : List String) (e : Exec D) (c : Config D)
      → KeepsRest c (reached e)
      → (caught (e >>= key_options macros sys opts names)).ok ≡ true
      → let final = caught (e >>= key_options macros sys opts names) in
        (all_fine names ≡ true)
        × (final.keymaps.fst ≡ c.keymaps.fst ++ collect true names)
        × (final.keymaps.snd ≡ c.keymaps.snd ++ collect false names)
  unfolding reached ◌>>=◌
  collects_after names (threw msg d) c keeps ok = absurd (ground arith)
  collects_after names (done d) c keeps ok = elim (Bool-cases (all_fine names)) [
    | inl fine ↦ (
      fine,
      rw (key_options_append names d fine)
          (ap (λ (m : PerController KeyMap). m.fst ++ collect true names) (keeps.keymaps)),
      rw (key_options_append names d fine)
          (ap (λ (m : PerController KeyMap). m.snd ++ collect false names) (keeps.keymaps)),
    )
    | inr bad ↦ absurd (ground (arith, refused_handled _ (key_options_refuse names d bad)))
  ]

  caught-eq :
      (e : Exec D)
      → caught e ≡ elim e [ done c' ↦ c' | threw msg c' ↦ record c' { message = msg; ok = false } ]
  caught-eq (done c) = refl
  caught-eq (threw msg c) = refl

  parse_options-eq-caught :
      (c : Config D)
      → parse_options macros sys (parsed opts) c
        ≡ caught (
            (file_settings sys opts c >>= file_numbers sys opts)
            >>= key_options macros sys opts config_options)
  unfolding parse_options
  parse_options-eq-caught c = sym (
      caught-eq (
        file_settings sys opts c
        >>= file_numbers sys opts
        >>= key_options macros sys opts config_options))

  -- With the verdict that all is well, all options are fine, and their entries have been appended.
  pub parse_options_appends :
      (c : Config D)
      → (parse_options macros sys (parsed opts) c).ok ≡ true
      → (all_fine config_options ≡ true)
        × ((parse_options macros sys (parsed opts) c).keymaps.fst
            ≡ c.keymaps.fst ++ collect true config_options)
        × ((parse_options macros sys (parsed opts) c).keymaps.snd
            ≡ c.keymaps.snd ++ collect false config_options)
  parse_options_appends c ok =
      let settings =
        chain (file_settings sys opts c) (file_numbers sys opts) (file_settings_keep sys opts c)
          (file_numbers_keep sys opts) in
      rw (parse_options-eq-caught c) (
        collects_after config_options (file_settings sys opts c >>= file_numbers sys opts) c
          settings (rw (parse_options-eq-caught c) at ok))
