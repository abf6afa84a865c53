-- ===== src/Log/Backends.antt =====
-- log.cpp: which messages reach a backend.
use Prim.Native.String.{String}
use psmoveinput.Prelude.{
  List, [], ◌∷◌, map, Option, leb, if◌then◌else◌, ◌≡◌, refl, ap, ◌∙◌, Bool-cases, inl, inr,
}
use psmoveinput.Common.{LogLevel}
use psmoveinput.Log.{level_value, LogBackend, Log, write_backend, write}

-- The messages that are important enough, in their order.
unfoldable pub enabled : LogLevel → List (String × LogLevel) → List String
enabled limit [] = []
enabled limit ((msg, lvl) ∷ rest) =
    if leb (level_value lvl) (level_value limit)
    then msg ∷ enabled limit rest
    else enabled limit rest

module _ {B : Type 0} (backend : LogBackend B) where
  -- The program's calls of `write`, one after the other.
  unfoldable pub write_all : List (String × LogLevel) → Log B → Log B
  write_all [] log = log
  write_all ((msg, lvl) ∷ rest) log = write_all rest (write backend msg lvl log)

  -- What becomes of a backend that gets some messages.
  unfoldable pub write_each : List String → Option B → Option B
  write_each [] o = o
  write_each (msg ∷ rest) o = write_each rest (write_backend backend msg o)

  write_each-map :
      (msg : String) (msgs : List String) (bs : List (Option B))
      → map (write_each msgs) (map (write_backend backend msg) bs)
        ≡ map (write_each (msg ∷ msgs)) bs
  unfolding write_each
  write_each-map msg msgs [] = refl
  write_each-map msg msgs (o ∷ bs) = rw (write_each-map msg msgs bs) refl

  write_each_nothing : (bs : List (Option B)) → map (write_each []) bs ≡ bs
  unfolding write_each
  write_each_nothing [] = refl
  write_each_nothing (o ∷ bs) = rw (write_each_nothing bs) refl

  -- After any calls of `write` each backend has got the messages whose level is enabled, in their
  -- order, and the parameters are as before.
  pub write_all_reaches :
      (ws : List (String × LogLevel)) (log : Log B)
      → write_all ws log
        ≡ record log { backends = map (write_each (enabled log.params.loglevel ws)) log.backends }
  unfolding write_all enabled write
  write_all_reaches [] log = rw write_each_nothing refl
  write_all_reaches ((msg, lvl) ∷ rest) log =
      let limit = log.params.loglevel in
      elim (Bool-cases (leb (level_value lvl) (level_value limit))) [
        | inl on ↦
            let log' : Log B = record log {
              backends = map (write_backend backend msg) log.backends;
            } in
            rw on (
              write_all_reaches rest log'
              ∙ ap (λ (bs : List (Option B)). record log { backends = bs })
                  (write_each-map msg (enabled limit rest) log.backends))
        | inr off ↦ rw off (write_all_reaches rest log)
      ]
