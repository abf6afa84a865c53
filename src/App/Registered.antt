-- ===== src/App/Registered.antt =====
-- psmoveinput.cpp: the device is set up for every key that the handler reports.
use psmoveinput.Prelude.{
  ℕ, Bool, true, false, ◌||◌, List, [], ◌∷◌, ◌++◌, map, ◌==◌, ◌≡◌, arith, ℤ, All, some,
}
use psmoveinput.Common.{ControllerId, first, second, KeyMap, KeyMapEntry, at}
use psmoveinput.Handler.{Handler, Signal, new, check_triggers}
use psmoveinput.Handler.Session.{Report, IsInt32, run}
use psmoveinput.Handler.Contract.{run_total}
use psmoveinput.Handler.Emitted.{KeyIn, MapIn, run-Emits}
use psmoveinput.Handler.Runs.{AtRest}
use psmoveinput.Config.{Config, get_key_map}
use psmoveinput.App.State.{device_keys, init_handler}

unfoldable pub contains : ℕ → List ℕ → Bool
contains code [] = false
contains code (k ∷ rest) = k == code || contains code rest

-- A key that the list of the device's keys has.
abbrev pub IsKeyOf : List ℕ → ℕ → Type 0
IsKeyOf keys code = contains code keys ≡ true

abbrev lincodes : KeyMap → List ℕ
lincodes m = map (λ (e : KeyMapEntry). e.lincode) m

contains-left : (code : ℕ) (xs ys : List ℕ) → IsKeyOf xs code → IsKeyOf (xs ++ ys) code
unfolding contains
contains-left code [] ys k = absurd (ground arith)
contains-left code (x ∷ xs) ys k = ground (arith, contains-left code xs ys)

contains-right : (code : ℕ) (xs ys : List ℕ) → IsKeyOf ys code → IsKeyOf (xs ++ ys) code
unfolding contains
contains-right code [] ys k = k
contains-right code (x ∷ xs) ys k = ground (arith, contains-right code xs ys k)

own-MapIn :
    (m : KeyMap) (keys : List ℕ)
    → ((code : ℕ) → IsKeyOf (lincodes m) code → IsKeyOf keys code)
    → MapIn (IsKeyOf keys) m
unfolding contains
own-MapIn [] keys sub = tt
own-MapIn (e ∷ rest) keys sub =
    (sub e.lincode (ground arith), own-MapIn rest keys (λ code k. sub code (ground arith)))

module _ {D : Type 0} (scale : ℤ → D → ℤ) (key_max : ℕ) (at_rest : AtRest scale) where
  pub keymaps-MapIn :
      (c : Config D) (o : ControllerId) → MapIn (IsKeyOf (device_keys c)) (at c.keymaps o)
  unfolding device_keys
  keymaps-MapIn c first =
      own-MapIn c.keymaps.fst _
        (λ code k. contains-left code (lincodes c.keymaps.fst) (lincodes c.keymaps.snd) k)
  keymaps-MapIn c second =
      own-MapIn c.keymaps.snd _
        (λ code k. contains-right code (lincodes c.keymaps.fst) (lincodes c.keymaps.snd) k)

  pub init_handler_keymaps : (c : Config D) → (init_handler key_max c).keymaps ≡ c.keymaps
  unfolding init_handler new check_triggers
  init_handler_keymaps c = ground arith

  -- Let a motionless reading convert to 0. Take the handler that the program makes from a
  -- configuration. Every sequence of reports whose button states are 32-bit patterns is handled to
  -- its end, and each key that it reports is one that the device was set up for.
  pub reported_keys_registered :
      (c : Config D) (rs : List Report)
      → All IsInt32 rs
      → (h : Handler D) × (xs : List Signal) × (run scale key_max rs (init_handler key_max c)
          ≡ some (h, xs))
        × All (KeyIn (IsKeyOf (device_keys c))) xs
  unfolding init_handler
  reported_keys_registered c rs i =
      let ((h, xs), e, v) =
        run_total scale key_max at_rest (get_key_map first c) (get_key_map second c) c.coeffs
          c.move_threshold c.gesture_threshold rs i in
      let emits =
        run-Emits (IsKeyOf (device_keys c)) key_max c.keymaps (keymaps-MapIn c) scale rs
          (init_handler key_max c) (init_handler_keymaps c) in
      (h, xs, e, (rw e at emits).1)
