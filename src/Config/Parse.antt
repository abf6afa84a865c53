-- ===== src/Config/Parse.antt =====
-- config.cpp: `handleCmdLine`, `parseConfig` and `parse`.
use Prim.Native.Char.{Char}
use Prim.Native.String.{String}
use psmoveinput.Prelude.{Bool, true, false, not, if◌then◌else◌, Option, none, some, ℤ}
use psmoveinput.Config.State.{
  Value, word, letter, real, integer, Options, System, Config, expand_tilde, get_log_from_char,
  get_mode_from_string,
}

-- The body of a `try` block: it goes on, or it threw an exception with a message.
pub data Exec (D : Type 0) : Type 0 where
  done : Config D → Exec D
  threw : String → Config D → Exec D

infixl 5 ◌>>=◌
unfoldable pub ◌>>=◌ : {D : Type 0} → Exec D → (Config D → Exec D) → Exec D
done c >>= f = f c
threw msg c >>= f = threw msg c

module _ {D : Type 0} (bad_cast : String) where
  -- `as<T>` and the use of its value; a value of another type throws `bad_any_cast`.
  abbrev pub as_text : Value D → (String → Config D) → Config D → Exec D
  as_text (word s) f c = done (f s)
  as_text _ f c = threw bad_cast c

  abbrev pub as_letter : Value D → (Char → Config D) → Config D → Exec D
  as_letter (letter l) f c = done (f l)
  as_letter _ f c = threw bad_cast c

  abbrev pub as_real : Value D → (D → Config D) → Config D → Exec D
  as_real (real d) f c = done (f d)
  as_real _ f c = threw bad_cast c

  abbrev pub as_integer : Value D → (ℤ → Config D) → Config D → Exec D
  as_integer (integer n) f c = done (f n)
  as_integer _ f c = threw bad_cast c

-- `if (opts.count(name) && wanted) …`, where the option is there.
abbrev pub when_set :
    {D : Type 0} → Option (Value D) → Bool → (Value D → Exec D) → Config D → Exec D
when_set none wanted use_it c = done c
when_set (some v) wanted use_it c = if wanted then use_it v else done c

abbrev pub is_set {ℓ} : {A : Type ℓ} → Option A → Bool
is_set none = false
is_set (some a) = true

module _ {D : Type 0} (sys : System D) where
  open sys use {home, bad_cast}

  -- One setting each: an option, whether it is wanted, and the configuration that it changes.
  unfoldable pub set_pidfile : Option (Value D) → Bool → Config D → Exec D
  set_pidfile o wanted c =
      when_set o wanted
        (λ v.
          as_text bad_cast v (λ s. record c { pidfile = expand_tilde home s; pidfile_set = true })
            c)
        c

  unfoldable pub set_loglevel : Option (Value D) → Bool → Config D → Exec D
  set_loglevel o wanted c =
      when_set o wanted (λ v. as_letter bad_cast v (λ l. get_log_from_char l c) c) c

  unfoldable pub set_logfile : Option (Value D) → Bool → Config D → Exec D
  set_logfile o wanted c =
      when_set o wanted
        (λ v.
          as_text bad_cast v (λ s. record c { logfile = expand_tilde home s; logfile_set = true })
            c)
        c

  unfoldable pub set_config_file : Option (Value D) → Config D → Exec D
  set_config_file o c =
      when_set o true
        (λ v. as_text bad_cast v (λ s. record c { config_file = s; config_file_set = true }) c) c

  unfoldable pub set_mode : Option (Value D) → Bool → Config D → Exec D
  set_mode o wanted c =
      when_set o wanted (λ v. as_text bad_cast v (λ s. get_mode_from_string s c) c) c

  unfoldable pub set_cx : Option (Value D) → Config D → Exec D
  set_cx o c =
      when_set o true
        (λ v. as_real bad_cast v (λ d. record c { coeffs = record (c.coeffs) { cx = d } }) c) c

  unfoldable pub set_cy : Option (Value D) → Config D → Exec D
  set_cy o c =
      when_set o true
        (λ v. as_real bad_cast v (λ d. record c { coeffs = record (c.coeffs) { cy = d } }) c) c

  unfoldable pub set_poll_timeout : Option (Value D) → Config D → Exec D
  set_poll_timeout o c =
      when_set o true (λ v. as_integer bad_cast v (λ n. record c { poll_timeout = n }) c) c

  unfoldable pub set_conn_timeout : Option (Value D) → Config D → Exec D
  set_conn_timeout o c =
      when_set o true (λ v. as_integer bad_cast v (λ n. record c { conn_timeout = n }) c) c

  unfoldable pub set_disconnect_timeout : Option (Value D) → Config D → Exec D
  set_disconnect_timeout o c =
      when_set o true (λ v. as_integer bad_cast v (λ n. record c { disconnect_timeout = n }) c) c

  unfoldable pub set_led_timeout : Option (Value D) → Config D → Exec D
  set_led_timeout o c =
      when_set o true (λ v. as_integer bad_cast v (λ n. record c { led_timeout = n }) c) c

  unfoldable pub set_gesture_timeout : Option (Value D) → Config D → Exec D
  set_gesture_timeout o c =
      when_set o true (λ v. as_integer bad_cast v (λ n. record c { gesture_timeout = n }) c) c

  unfoldable pub set_move_threshold : Option (Value D) → Config D → Exec D
  set_move_threshold o c =
      when_set o true (λ v. as_integer bad_cast v (λ n. record c { move_threshold = n }) c) c

  unfoldable pub set_gesture_threshold : Option (Value D) → Config D → Exec D
  set_gesture_threshold o c =
      when_set o true (λ v. as_integer bad_cast v (λ n. record c { gesture_threshold = n }) c) c

  -- The options of the `try` block of `handleCmdLine`, in its order.
  unfoldable pub command_line_options : Options D → Config D → Exec D
  command_line_options opts c = do
    c₁ ← set_pidfile (opts "pidfile") true c
    c₂ ← set_loglevel (opts "loglevel") true c₁
    c₃ ← set_logfile (opts "logfile") true c₂
    c₄ ← set_config_file (opts "config") c₃
    c₅ ← set_mode (opts "mode") true c₄
    done (if is_set (opts "foreground") then record c₅ { foreground = true } else c₅)

  -- `handleCmdLine`, as far as it changes the state; that it prints the options for help is part of
  -- `run`.
  unfoldable pub handle_cmd_line : Options D → Config D → Config D
  handle_cmd_line opts c =
      if is_set (opts "help")
      then record c { help = true; ok = true }
      else if is_set (opts "version")
      then record c { version = true; ok = true }
      else elim (command_line_options opts c) [
        | done c' ↦ record c' { ok = true }
        | threw msg c' ↦ record c' { message = msg }
      ]

  -- The single settings of `parseConfig`, in its order. Values of the command line stay.
  unfoldable pub file_settings : Options D → Config D → Exec D
  file_settings opts c = do
    c₁ ← set_pidfile (opts "PID_FILE") (not c.pidfile_set) c
    c₂ ← set_loglevel (opts "LOG_LEVEL") (not c₁.loglevel_set) c₁
    c₃ ← set_logfile (opts "LOG_FILE") (not c₂.logfile_set) c₂
    c₄ ← set_cx (opts "MOVE_COEFF_X") c₃
    c₅ ← set_cy (opts "MOVE_COEFF_Y") c₄
    set_mode (opts "MODE") (not c₅.opmode_set) c₅

  -- The timeouts and thresholds of `parseConfig`, in its order.
  unfoldable pub file_numbers : Options D → Config D → Exec D
  file_numbers opts c = do
    c₁ ← set_poll_timeout (opts "POLL_TIMEOUT") c
    c₂ ← set_conn_timeout (opts "CONN_TIMEOUT") c₁
    c₃ ← set_disconnect_timeout (opts "DISCONNECT_TIMEOUT") c₂
    c₄ ← set_led_timeout (opts "LED_UPDATE_TIMEOUT") c₃
    c₅ ← set_gesture_timeout (opts "GESTURE_TIMEOUT") c₄
    c₆ ← set_move_threshold (opts "MOVE_THRESHOLD") c₅
    set_gesture_threshold (opts "GESTURE_THRESHOLD") c₆
