-- ===== src/Config/Precedence.antt =====
-- config.cpp: what the command line says is not overridden by the config file.
use Prim.Native.String.{String}
use psmoveinput.Prelude.{Bool, true, false, arith, List, [], ◌∷◌, if◌then◌else◌}
use psmoveinput.KeyMapParser.{Macros}
use psmoveinput.Config.State.{Options, Parsed, parsed, failed, System, Config, config_file_ok}
use psmoveinput.Config.Parse.{Exec, done, threw, ◌>>=◌, file_settings, file_numbers}
use psmoveinput.Config.Keys.{
  Round, next, leave, key_value, key_round, key_options, add_entry, config_options, parse_options,
  parse_config,
}
use psmoveinput.Config.Steps.{
  reached, KeepsSet, KeepsSet-refl, KeepsSet-trans, file_settings_keep, file_numbers_keep,
}

module _ {D : Type 0} where
  -- The chain rule for `KeepsSet`.
  chain_set :
      {c : Config D} (m : Exec D) (f : Config D → Exec D)
      → KeepsSet c (reached m)
      → ((d : Config D) → KeepsSet d (reached (f d)))
      → KeepsSet c (reached (m >>= f))
  unfolding reached ◌>>=◌
  chain_set (done d) f r s = KeepsSet-trans r (s d)
  chain_set (threw msg d) f r s = r

module _ {D : Type 0} (macros : Macros) (sys : System D) where
  -- The configuration with which a round ends.
  reached_round : Round macros sys → Config D
  reached_round (next c) = c
  reached_round (leave e) = reached e

  key_round_keeps :
      (opts : Options D) (name : String) (c : Config D)
      → KeepsSet c (reached_round (key_round macros sys opts name c))
  unfolding key_round key_value add_entry reached_round reached
  key_round_keeps opts name c = ground arith

  key_options_keep :
      (opts : Options D) (names : List String) (c : Config D)
      → KeepsSet c (reached (key_options macros sys opts names c))
  unfolding key_options reached reached_round
  key_options_keep opts [] c = KeepsSet-refl c
  key_options_keep opts (name ∷ rest) c =
      go (key_round macros sys opts name c) (key_round_keeps opts name c)
        (key_options_keep opts rest)
    where
      go :
          (r : Round macros sys)
          → KeepsSet c (reached_round r)
          → ((d : Config D) → KeepsSet d (reached (key_options macros sys opts rest d)))
          → KeepsSet c
              (reached (elim r [ next c' ↦ key_options macros sys opts rest c' | leave e ↦ e ]))
      go (next d) k all = KeepsSet-trans k (all d)
      go (leave e) k all = k

  parse_options_keep : (o : Parsed D) (c : Config D) → KeepsSet c (parse_options macros sys o c)
  unfolding parse_options reached
  parse_options_keep (failed msg) c = ground arith
  parse_options_keep (parsed opts) c =
      handled
        (file_settings sys opts c
          >>= file_numbers sys opts
          >>= key_options macros sys opts config_options)
        (chain_set (file_settings sys opts c >>= file_numbers sys opts)
          (key_options macros sys opts config_options)
          (chain_set (file_settings sys opts c) (file_numbers sys opts)
            ((file_settings_keep sys opts c).set) (λ d. (file_numbers_keep sys opts d).set))
          (λ d. key_options_keep opts config_options d))
    where
      handled :
          (e : Exec D)
          → KeepsSet c (reached e)
          → KeepsSet c
              (elim e [ done c' ↦ c' | threw msg c' ↦ record c' { message = msg; ok = false } ])
      handled (done d) k = k
      handled (threw msg d) k = ground arith

  config_file_ok_keeps : (c : Config D) → KeepsSet c (config_file_ok sys c).0
  unfolding config_file_ok
  config_file_ok_keeps c = ground arith

  -- Reading the config file keeps the pid file, the log file, the log level and the operation mode
  -- that the command line has set, on every path, also where the file is refused; and it keeps the
  -- requests for help and version and the choice of the foreground.
  pub parse_config-KeepsSet : (c : Config D) → KeepsSet c (parse_config macros sys c)
  unfolding parse_config
  parse_config-KeepsSet c =
      KeepsSet-trans (config_file_ok_keeps c) (on_verdict (config_file_ok sys c).1)
    where
      found : Config D
      found = (config_file_ok sys c).0

      on_verdict :
          (b : Bool)
          → KeepsSet found (
              if b
              then parse_options macros sys (sys.config_file_options found.config_file) found
              else found)
      on_verdict true = parse_options_keep _ found
      on_verdict false = KeepsSet-refl found
