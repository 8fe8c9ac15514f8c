-- ===== src/Files/Token.antt =====
-- internal/util/fs.go: `EnsureToken`, one call of the operating system at a time, so that several
-- processes can run it at once. The files are a map from their paths. Only the process that has
-- made the temporary file writes to it (Token/Atomic), so that a write is one to its path.
--
-- What fails, and the random bytes, are parameters of the process.
pub mod Paths
pub mod Alone
pub mod Atomic
pub mod Race
pub mod Gives
use opx.Prelude.{ℕ, zero, suc, Bool, true, false, Option, none, some, [], ◌++◌, take, if◌then◌else◌}
use opx.Prelude.Bytes.{Bytes, codes}
use opx.Dict.{Dict, lookup, insert, delete}
use opx.Policy.{hex_encode}

abbrev pub FileMap : Type 0
FileMap = Dict Bytes

pub data TokenError : Type 0 where
  read_failed no_random open_failed write_failed close_failed rename_failed : TokenError

-- What `EnsureToken` returns.
pub data Answer : Type 0 where
  gave : Bytes → Answer
  failed : TokenError → Answer

-- The bytes that `rand.Read` gives, and which calls fail; a write that fails has written as many
-- bytes as it says.
pub record Luck : Type 0 where
  pub random : Option Bytes
  pub unreadable : Bool
  pub no_open : Bool
  pub short_write : Option ℕ
  pub no_close : Bool
  pub no_rename : Bool

-- Where a process stands: before which call.
pub data Pc : Type 0 where
  reading : Pc  -- `os.ReadFile(path)`
  drawing : Pc  -- `rand.Read`
  opening : Bytes → Pc  -- `os.OpenFile` with `O_EXCL`
  writing : Bytes → Pc
  closing : Bytes → Option TokenError → Pc  -- with the error of the write
  discarding : TokenError → Pc  -- `os.Remove(tempPath)`, after a write or `Close` that failed
  renaming : Bytes → Pc
  retreating : Pc  -- `os.Remove(tempPath)`, after a rename that failed
  rereading : Pc
  returned : Answer → Pc

abbrev pub temp_path : Bytes → Bytes
temp_path path = path ++ codes ".tmp"

read_outcome : Bool → Option Bytes → Pc
read_outcome true content = returned (failed read_failed)
read_outcome false none = drawing
read_outcome false (some t) = returned (gave t)

draw_outcome : Option Bytes → Pc
unfolding hex_encode
draw_outcome none = returned (failed no_random)
draw_outcome (some b) = opening (hex_encode b)

-- An exclusive creation fails where the file is there.
open_outcome : Bool → Option Bytes → Bytes → Bytes → FileMap → Pc × FileMap
open_outcome true there temp tok files = (returned (failed open_failed), files)
open_outcome false (some t) temp tok files = (returned (failed open_failed), files)
open_outcome false none temp tok files = (writing tok, insert temp [] files)

write_outcome : Option ℕ → Bytes → Bytes → FileMap → Pc × FileMap
write_outcome none temp tok files = (closing tok none, insert temp tok files)
write_outcome (some n) temp tok files =
    (closing tok (some write_failed), insert temp (take n tok) files)

close_outcome : Bool → Bytes → Option TokenError → Pc
close_outcome c tok (some e) = discarding e
close_outcome true tok none = discarding close_failed
close_outcome false tok none = renaming tok

-- A rename puts the file in the place of one that is there.
rename_outcome : Bool → Bytes → Bytes → Bytes → FileMap → Option Bytes → Pc × FileMap
rename_outcome true path temp tok files there = (retreating, files)
rename_outcome false path temp tok files none = (retreating, files)
rename_outcome false path temp tok files (some t) =
    (returned (gave tok), insert path t (delete temp files))

reread_outcome : Bool → Option Bytes → Pc
reread_outcome true content = returned (failed rename_failed)
reread_outcome false none = returned (failed rename_failed)
reread_outcome false (some t) = returned (gave t)

-- The next call of a process.
unfoldable pub act : Bytes → Luck → Pc → FileMap → Pc × FileMap
unfolding read_outcome draw_outcome open_outcome write_outcome close_outcome rename_outcome
    reread_outcome
act path l reading files = (read_outcome l.unreadable (lookup path files), files)
act path l drawing files = (draw_outcome l.random, files)
act path l (opening tok) files =
    open_outcome l.no_open (lookup (temp_path path) files) (temp_path path) tok files
act path l (writing tok) files = write_outcome l.short_write (temp_path path) tok files
act path l (closing tok e) files = (close_outcome l.no_close tok e, files)
act path l (discarding e) files = (returned (failed e), delete (temp_path path) files)
act path l (renaming tok) files =
    rename_outcome l.no_rename path (temp_path path) tok files (lookup (temp_path path) files)
act path l retreating files = (rereading, delete (temp_path path) files)
act path l rereading files = (reread_outcome l.unreadable (lookup path files), files)
act path l (returned a) files = (returned a, files)

-- So many calls of one process, with no other in between.
unfoldable pub acts : ℕ → Bytes → Luck → Pc × FileMap → Pc × FileMap
unfolding act
acts zero path l s = s
acts (suc n) path l (pc, files) = acts n path l (act path l pc files)

-- The longest way has eight calls.
abbrev pub most_calls : ℕ
most_calls = 8

-- `EnsureToken`, run by itself.
unfoldable pub ensure_token : Bytes → Luck → FileMap → Pc × FileMap
unfolding acts
ensure_token path l files = acts most_calls path l (reading, files)
