-- ===== src/KeyMapParser/Tables.antt =====
-- conf_keymap_parser.cpp: what its two tables are.
use Prim.Native.String.{String, ◌++◌ as ◌<>◌}
use text.Mathlib.Text.{◌==◌ as str_eq}
use text.Mathlib.TextEquality.{eq_iff}
use psmoveinput.Prelude.{
  ℕ, ◌+◌, ◌^◌, List, [], ◌∷◌, ◌++◌, map, some, Bool, true, false, not, ◌&&◌, ◌||◌, ◌≡◌, ◌⊎◌, inl,
  inr, refl, arith, Bool-cases, ap, sym, ◌∙◌,
}
use psmoveinput.KeyMapParser.{Macros, find, psmap, linmap}

-- A name stands for a value in a table.
abbrev pub IsListed : String → ℕ → List (String × ℕ) → Type 0
IsListed name v [] = ⊥
IsListed name v ((k, w) ∷ rest) = ((k ≡ name) × (w ≡ v)) ⊎ IsListed name v rest

has_name : String → List (String × ℕ) → Bool
has_name name [] = false
has_name name ((k, w) ∷ rest) = str_eq k name || has_name name rest

-- No name is in the table twice.
distinct : List (String × ℕ) → Bool
distinct [] = true
distinct ((k, w) ∷ rest) = not (has_name k rest) && distinct rest

find-IsListed :
    (name : String) (table : List (String × ℕ)) (v : ℕ)
    → find name table ≡ some v
    → IsListed name v table
unfolding find
find-IsListed name [] v e = absurd (ground arith)
find-IsListed name ((k, w) ∷ rest) v e = elim (Bool-cases (str_eq k name)) [
  | inl same ↦ inl ((eq_iff k name).0 same, ground arith)
  | inr other ↦ inr (find-IsListed name rest v (rw other at e))
]

listed_has_name :
    (name : String) (table : List (String × ℕ)) (v : ℕ)
    → IsListed name v table
    → has_name name table ≡ true
unfolding has_name
listed_has_name name [] v l = absurd l
listed_has_name name ((k, w) ∷ rest) v (inl (e, e')) = ground (arith, (eq_iff k name).1 e)
listed_has_name name ((k, w) ∷ rest) v (inr l) = ground (arith, listed_has_name name rest v l)

listed-find :
    (name : String) (table : List (String × ℕ)) (v : ℕ)
    → distinct table ≡ true
    → IsListed name v table
    → find name table ≡ some v
unfolding find distinct
listed-find name [] v d l = absurd l
listed-find name ((k, w) ∷ rest) v d (inl (e, e')) = rw ((eq_iff k name).1 e) (ap some e')
listed-find name ((k, w) ∷ rest) v d (inr l) = elim (Bool-cases (str_eq k name)) [
  | inl same ↦
      let e : has_name k rest ≡ true =
        rw ((eq_iff k name).0 same) (listed_has_name name rest v l) in
      absurd (ground arith)
  | inr other ↦ rw other (listed-find name rest v (ground arith) l)
]

-- The tables, described otherwise: a button is named for each controller, and a key by its macro.
abbrev pub suffixes : List String
suffixes =
    "TRIANGLE" ∷ "CIRCLE" ∷ "CROSS" ∷ "SQUARE" ∷ "SELECT" ∷ "START" ∷ "PS" ∷ "MOVE" ∷ "T" ∷ []

abbrev pub gesture_table : List (String × ℕ)
gesture_table =
    ("GESTURE_UP", 2 ^ 24)
    ∷ ("GESTURE_DOWN", 2 ^ 25)
    ∷ ("GESTURE_LEFT", 2 ^ 26)
    ∷ ("GESTURE_RIGHT", 2 ^ 27)
    ∷ []

abbrev pub buttons : Macros → List (String × ℕ)
buttons macros =
    map (λ s. ("PSBTN_" <> s, macros.button ("Btn_" <> s))) suffixes
    ++ map (λ s. ("PSBTN_1_" <> s, macros.button ("Btn_" <> s))) suffixes
    ++ gesture_table

abbrev pub key_names : List String
key_names =
    "KEY_ESC" ∷ "KEY_1" ∷ "KEY_2" ∷ "KEY_3" ∷ "KEY_4" ∷ "KEY_5" ∷ "KEY_6" ∷ "KEY_7" ∷ "KEY_8"
    ∷ "KEY_9" ∷ "KEY_0" ∷ "KEY_MINUS" ∷ "KEY_EQUAL" ∷ "KEY_BACKSPACE" ∷ "KEY_TAB" ∷ "KEY_Q"
    ∷ "KEY_W" ∷ "KEY_E" ∷ "KEY_R" ∷ "KEY_T" ∷ "KEY_Y" ∷ "KEY_U" ∷ "KEY_I" ∷ "KEY_O" ∷ "KEY_P"
    ∷ "KEY_LEFTBRACE" ∷ "KEY_RIGHTBRACE" ∷ "KEY_ENTER" ∷ "KEY_LEFTCTRL" ∷ "KEY_RIGHTCTRL" ∷ "KEY_A"
    ∷ "KEY_S" ∷ "KEY_D" ∷ "KEY_F" ∷ "KEY_G" ∷ "KEY_H" ∷ "KEY_J" ∷ "KEY_K" ∷ "KEY_L"
    ∷ "KEY_SEMICOLON" ∷ "KEY_APOSTROPHE" ∷ "KEY_GRAVE" ∷ "KEY_LEFTSHIFT" ∷ "KEY_RIGHTSHIFT"
    ∷ "KEY_BACKSLASH" ∷ "KEY_Z" ∷ "KEY_X" ∷ "KEY_C" ∷ "KEY_V" ∷ "KEY_B" ∷ "KEY_N" ∷ "KEY_M"
    ∷ "KEY_COMMA" ∷ "KEY_DOT" ∷ "KEY_SLASH" ∷ "KEY_KPASTERISK" ∷ "KEY_LEFTALT" ∷ "KEY_RIGHTALT"
    ∷ "KEY_SPACE" ∷ "KEY_CAPSLOCK" ∷ "KEY_F1" ∷ "KEY_F2" ∷ "KEY_F3" ∷ "KEY_F4" ∷ "KEY_F5" ∷ "KEY_F6"
    ∷ "KEY_F7" ∷ "KEY_F8" ∷ "KEY_F9" ∷ "KEY_F10" ∷ "KEY_NUMLOCK" ∷ "KEY_SCROLLLOCK" ∷ "KEY_F11"
    ∷ "KEY_F12" ∷ "KEY_SYSRQ" ∷ "KEY_LEFTMETA" ∷ "KEY_RIGHTMETA" ∷ "KEY_HOME" ∷ "KEY_UP"
    ∷ "KEY_PAGEUP" ∷ "KEY_LEFT" ∷ "KEY_RIGHT" ∷ "KEY_END" ∷ "KEY_DOWN" ∷ "KEY_PAGEDOWN"
    ∷ "KEY_INSERT" ∷ "KEY_DELETE" ∷ "KEY_MUTE" ∷ "KEY_VOLUMEDOWN" ∷ "KEY_VOLUMEUP" ∷ "KEY_PAUSE"
    ∷ "KEY_STOP" ∷ "KEY_BACK" ∷ "KEY_FORWARD" ∷ "KEY_PLAYPAUSE" ∷ "BTN_MOUSE" ∷ "BTN_LEFT"
    ∷ "BTN_RIGHT" ∷ "BTN_MIDDLE" ∷ []

abbrev pub keys : Macros → List (String × ℕ)
keys macros =
    map (λ n. (n, macros.key n)) key_names
    ++ ("disconnect", macros.key_max + 1)
      ∷ ("move_trigger", macros.key_max + 2)
      ∷ ("gesture_trigger", macros.key_max + 3)
      ∷ ("MWHEEL_UP", macros.key_max + 4)
      ∷ ("MWHEEL_DOWN", macros.key_max + 5)
      ∷ []

pub psmap-eq-buttons : (macros : Macros) → psmap macros ≡ buttons macros
unfolding psmap
psmap-eq-buttons macros = refl

pub linmap-eq-keys : (macros : Macros) → linmap macros ≡ keys macros
unfolding linmap
linmap-eq-keys macros = refl

-- A name is found exactly with what it stands for, in a table without names that come twice.
found :
    (name : String) (t table : List (String × ℕ)) (v : ℕ)
    → t ≡ table
    → distinct table ≡ true
    → (find name t ≡ some v → IsListed name v table)
      × (IsListed name v table → find name t ≡ some v)
found name t table v e d = (
  λ f. find-IsListed name table v (ap (find name) (sym e) ∙ f),
  λ l. ap (find name) e ∙ listed-find name table v d l,
)

pub found_button :
    (macros : Macros) (name : String) (v : ℕ)
    → (find name (psmap macros) ≡ some v → IsListed name v (buttons macros))
      × (IsListed name v (buttons macros) → find name (psmap macros) ≡ some v)
unfolding distinct has_name
found_button macros name v =
    found name (psmap macros) (buttons macros) v (psmap-eq-buttons macros) refl

pub found_key :
    (macros : Macros) (name : String) (v : ℕ)
    → (find name (linmap macros) ≡ some v → IsListed name v (keys macros))
      × (IsListed name v (keys macros) → find name (linmap macros) ≡ some v)
unfolding distinct has_name
found_key macros name v = found name (linmap macros) (keys macros) v (linmap-eq-keys macros) refl
