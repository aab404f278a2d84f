-- ===== src/Tools/Files.antt =====
-- What the scripts under tools/ see of the file system, and what their runs end with.
use nlboot.Base.{String}
use nlboot.Json.{Value}

-- A path that does not exist, a file that cannot be read or decoded, a text that is no JSON (with the
-- text of the `JSONDecodeError`), or a value.
pub data File : Type 0 where
  missing unreadable : File
  malformed : String → File
  parsed : Value → File

-- The files by their paths from the repository's root.
abbrev pub Files : Type 0
Files = String → File

-- `main` returns 0 or 1, or an exception that it does not catch ends the script.
pub data Exit : Type 0 where
  exit_0 exit_1 raised : Exit
