-- ===== src/Log/Filter.antt =====
-- log.cpp and file_log.cpp: the lines of a log file.
use Prim.Native.String.{String}
use Prim.Native.String
use psmoveinput.Prelude.{ℕ, suc, ◌+◌, List, [], ◌∷◌, ◌++◌, Option, none, some, if◌then◌else◌}
use psmoveinput.Log.{Log}
use psmoveinput.Log.File.{FileLog, get_timestamp}

module _ (format : ℕ → ℕ → String) where
  -- The lines of some messages with the time stamps from the n-th on.
  unfoldable pub stamped : (ℕ → Option (ℕ × ℕ)) → ℕ → List String → List String
  stamped clock n [] = []
  stamped clock n (msg ∷ rest) =
      String.◌++◌ (get_timestamp format (clock n)) msg ∷ stamped clock (suc n) rest

  abbrev count_of : List String → ℕ
  count_of [] = 0
  count_of (msg ∷ rest) = suc (count_of rest)

  -- What becomes of a file: an open one gets one line for each message, others stay.
  unfoldable pub receive : List String → Option FileLog → Option FileLog
  receive msgs none = none
  receive msgs (some b) =
      if b.good
      then some (record b {
        count = b.count + count_of msgs;
        lines = b.lines ++ stamped b.clock b.count msgs;
      })
      else some b
