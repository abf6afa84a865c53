-- ===== src/Log/File.antt =====
-- file_log.cpp: the backend that writes to a file.
use Prim.Native.String.{String}
use Prim.Native.String
use psmoveinput.Prelude.{ℕ, suc, Bool, List, [], ◌∷◌, ◌++◌, Option, none, some, if◌then◌else◌}
use psmoveinput.Log.{LogParams, LogBackend}

-- `class FileLog`: its stream with what was written to it, and how many lines. `clock` gives the
-- answer of `gettimeofday` for each line, `none` where it fails, and `opens` tells which files can be
-- opened.
pub record FileLog : Type 0 where
  pub filename : String
  pub good : Bool
  pub opens : String → Bool
  pub clock : ℕ → Option (ℕ × ℕ)
  pub count : ℕ
  pub lines : List String

-- `format` is boost's "%1%.%2%: ".
module _ (format : ℕ → ℕ → String) where
  -- `getTimestamp`.
  unfoldable pub get_timestamp : Option (ℕ × ℕ) → String
  get_timestamp none = ""
  get_timestamp (some (sec, usec)) = format sec usec

  -- `FileLog::init`: the stream is good if the file can be opened, which is then empty.
  unfoldable pub init : LogParams → FileLog → FileLog
  init params b = record b { filename = params.logfile; good = b.opens params.logfile; lines = [] }

  -- `FileLog::write`.
  unfoldable pub write_line : String → FileLog → FileLog
  write_line msg b =
      if b.good
      then record b {
        count = suc b.count;
        lines = b.lines ++ String.◌++◌ (get_timestamp (b.clock b.count)) msg ∷ [];
      }
      else b

  abbrev pub file_backend : LogBackend FileLog
  file_backend = record { init_backend = init; write_message = write_line }
