-- ===== src/Config/Steps.antt =====
-- config.cpp: a rule for the chains of options in `handleCmdLine` and `parseConfig`.

use psmoveinput.Prelude.{true, not, ◌≡◌, arith, Option, none, some}
use psmoveinput.Config.State.{
  Value, Options, System, Config, get_log_from_char, get_mode_from_string,
}
use psmoveinput.Config.Parse.{
  Exec, done, threw, ◌>>=◌, set_pidfile, set_loglevel, set_logfile, set_mode, set_cx, set_cy,
  set_poll_timeout, set_conn_timeout, set_disconnect_timeout, set_led_timeout, set_gesture_timeout,
  set_move_threshold, set_gesture_threshold, file_settings, file_numbers,
}

-- What a chain of options reaches, also where it stops on an exception.
unfoldable pub reached : {D : Type 0} → Exec D → Config D
reached (done c) = c
reached (threw msg c) = c

-- What the command line has set stays, and so does all that the config file cannot set.
pub record KeepsSet {D : Type 0} (c c' : Config D) : Type 0 where
  pub pidfile : c.pidfile_set ≡ true → (c'.pidfile ≡ c.pidfile) × (c'.pidfile_set ≡ true)
  pub loglevel : c.loglevel_set ≡ true → (c'.loglevel ≡ c.loglevel) × (c'.loglevel_set ≡ true)
  pub logfile : c.logfile_set ≡ true → (c'.logfile ≡ c.logfile) × (c'.logfile_set ≡ true)
  pub opmode : c.opmode_set ≡ true → (c'.opmode ≡ c.opmode) × (c'.opmode_set ≡ true)
  pub foreground : c'.foreground ≡ c.foreground
  pub help : c'.help ≡ c.help
  pub version : c'.version ≡ c.version

-- A setting touches neither the key maps nor the verdict.
pub record KeepsRest {D : Type 0} (c c' : Config D) : Type 0 where
  pub set : KeepsSet c c'
  pub keymaps : c'.keymaps ≡ c.keymaps
  pub ok : c'.ok ≡ c.ok

module _ {D : Type 0} where
  pub KeepsSet-refl : (c : Config D) → KeepsSet c c
  KeepsSet-refl c = ground arith

  pub KeepsSet-trans : {a b c : Config D} → KeepsSet a b → KeepsSet b c → KeepsSet a c
  KeepsSet-trans p q = ground arith

  pub KeepsRest-refl : (c : Config D) → KeepsRest c c
  KeepsRest-refl c = ground arith

  pub KeepsRest-trans : {a b c : Config D} → KeepsRest a b → KeepsRest b c → KeepsRest a c
  KeepsRest-trans p q = ground arith

  -- The chain rule.
  pub chain :
      {c : Config D} (m : Exec D) (f : Config D → Exec D)
      → KeepsRest c (reached m)
      → ((d : Config D) → KeepsRest d (reached (f d)))
      → KeepsRest c (reached (m >>= f))
  unfolding reached ◌>>=◌
  chain (done d) f r s = KeepsRest-trans r (s d)
  chain (threw msg d) f r s = r

module _ {D : Type 0} (sys : System D) where
  set_pidfile_keeps :
      (o : Option (Value D)) (c : Config D)
      → KeepsRest c (reached (set_pidfile sys o (not c.pidfile_set) c))
  unfolding reached set_pidfile
  set_pidfile_keeps none c = KeepsRest-refl c
  set_pidfile_keeps (some v) c = ground arith

  set_loglevel_keeps :
      (o : Option (Value D)) (c : Config D)
      → KeepsRest c (reached (set_loglevel sys o (not c.loglevel_set) c))
  unfolding reached set_loglevel get_log_from_char
  set_loglevel_keeps none c = KeepsRest-refl c
  set_loglevel_keeps (some v) c = ground arith

  set_logfile_keeps :
      (o : Option (Value D)) (c : Config D)
      → KeepsRest c (reached (set_logfile sys o (not c.logfile_set) c))
  unfolding reached set_logfile
  set_logfile_keeps none c = KeepsRest-refl c
  set_logfile_keeps (some v) c = ground arith

  set_mode_keeps :
      (o : Option (Value D)) (c : Config D)
      → KeepsRest c (reached (set_mode sys o (not c.opmode_set) c))
  unfolding reached set_mode get_mode_from_string
  set_mode_keeps none c = KeepsRest-refl c
  set_mode_keeps (some v) c = ground arith

  set_cx_keeps : (o : Option (Value D)) (c : Config D) → KeepsRest c (reached (set_cx sys o c))
  unfolding reached set_cx
  set_cx_keeps none c = KeepsRest-refl c
  set_cx_keeps (some v) c = ground arith

  set_cy_keeps : (o : Option (Value D)) (c : Config D) → KeepsRest c (reached (set_cy sys o c))
  unfolding reached set_cy
  set_cy_keeps none c = KeepsRest-refl c
  set_cy_keeps (some v) c = ground arith

  set_poll_timeout_keeps :
      (o : Option (Value D)) (c : Config D) → KeepsRest c (reached (set_poll_timeout sys o c))
  unfolding reached set_poll_timeout
  set_poll_timeout_keeps none c = KeepsRest-refl c
  set_poll_timeout_keeps (some v) c = ground arith

  set_conn_timeout_keeps :
      (o : Option (Value D)) (c : Config D) → KeepsRest c (reached (set_conn_timeout sys o c))
  unfolding reached set_conn_timeout
  set_conn_timeout_keeps none c = KeepsRest-refl c
  set_conn_timeout_keeps (some v) c = ground arith

  set_disconnect_timeout_keeps :
      (o : Option (Value D)) (c : Config D) → KeepsRest c (reached (set_disconnect_timeout sys o c))
  unfolding reached set_disconnect_timeout
  set_disconnect_timeout_keeps none c = KeepsRest-refl c
  set_disconnect_timeout_keeps (some v) c = ground arith

  set_led_timeout_keeps :
      (o : Option (Value D)) (c : Config D) → KeepsRest c (reached (set_led_timeout sys o c))
  unfolding reached set_led_timeout
  set_led_timeout_keeps none c = KeepsRest-refl c
  set_led_timeout_keeps (some v) c = ground arith

  set_gesture_timeout_keeps :
      (o : Option (Value D)) (c : Config D) → KeepsRest c (reached (set_gesture_timeout sys o c))
  unfolding reached set_gesture_timeout
  set_gesture_timeout_keeps none c = KeepsRest-refl c
  set_gesture_timeout_keeps (some v) c = ground arith

  set_move_threshold_keeps :
      (o : Option (Value D)) (c : Config D) → KeepsRest c (reached (set_move_threshold sys o c))
  unfolding reached set_move_threshold
  set_move_threshold_keeps none c = KeepsRest-refl c
  set_move_threshold_keeps (some v) c = ground arith

  set_gesture_threshold_keeps :
      (o : Option (Value D)) (c : Config D) → KeepsRest c (reached (set_gesture_threshold sys o c))
  unfolding reached set_gesture_threshold
  set_gesture_threshold_keeps none c = KeepsRest-refl c
  set_gesture_threshold_keeps (some v) c = ground arith

  pub file_settings_keep :
      (opts : Options D) (c : Config D) → KeepsRest c (reached (file_settings sys opts c))
  unfolding file_settings
  file_settings_keep opts c = chain _ _ (set_pidfile_keeps (opts "PID_FILE") c) λ c₁.
      chain _ _ (set_loglevel_keeps (opts "LOG_LEVEL") c₁) λ c₂.
        chain _ _ (set_logfile_keeps (opts "LOG_FILE") c₂) λ c₃.
          chain _ _ (set_cx_keeps (opts "MOVE_COEFF_X") c₃) λ c₄.
            chain _ _ (set_cy_keeps (opts "MOVE_COEFF_Y") c₄) λ c₅. set_mode_keeps (opts "MODE") c₅

  pub file_numbers_keep :
      (opts : Options D) (c : Config D) → KeepsRest c (reached (file_numbers sys opts c))
  unfolding file_numbers
  file_numbers_keep opts c = chain _ _ (set_poll_timeout_keeps (opts "POLL_TIMEOUT") c) λ c₁.
      chain _ _ (set_conn_timeout_keeps (opts "CONN_TIMEOUT") c₁) λ c₂.
        chain _ _ (set_disconnect_timeout_keeps (opts "DISCONNECT_TIMEOUT") c₂) λ c₃.
          chain _ _ (set_led_timeout_keeps (opts "LED_UPDATE_TIMEOUT") c₃) λ c₄.
            chain _ _ (set_gesture_timeout_keeps (opts "GESTURE_TIMEOUT") c₄) λ c₅.
              chain _ _ (set_move_threshold_keeps (opts "MOVE_THRESHOLD") c₅)
                λ c₆. set_gesture_threshold_keeps (opts "GESTURE_THRESHOLD") c₆
