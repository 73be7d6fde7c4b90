-- ===== src/Persistence/Files.antt =====
-- The files that src/persistence reads and replaces: a path to its content, `none` where there is no
-- file that can be read. A file is replaced by writing a temporary one and renaming it.
use velox_db.Prelude.{
  ℕ, Bytes, ◌<◌, length, Bool-cases, inl, inr, ap, arith, bytes_eq_sound, Option, none, some, ◌++◌,
  if◌then◌else◌, bytes_eq, false, ◌≡◌,
}
use velox_db.Util.Status.{Code, Status, ok_status, fail_with}

abbrev pub Files : Type 0
Files = Bytes → Option Bytes

unfoldable pub put_file : Bytes → Option Bytes → Files → Files
put_file path content files p = if bytes_eq p path then content else files p

abbrev pub remove_file : Bytes → Files → Files
remove_file path = put_file path none

-- `std::filesystem::rename` to another path.
unfoldable pub rename_file : Bytes → Bytes → Files → Files
unfolding put_file
rename_file from to files = put_file to (files from) (remove_file from files)

-- How writing a stream to its end turns out, with how many bytes reached the file where it fails.
pub data StreamOutcome : Type 0 where
  stored not_opened : StreamOutcome
  write_failed close_failed : ℕ → StreamOutcome

-- The answers to one replacement of a file, the error messages of the directory and of the rename.
pub record Replacing : Type 0 where
  pub directory_error : Option Bytes
  pub stream : StreamOutcome
  pub rename_error : Option Bytes

abbrev pub replacing_works : Replacing
replacing_works = record { directory_error = none; stream = stored; rename_error = none }

-- The rename at the end: where it fails, the temporary file is removed.
unfoldable pub install_file : Bytes → Option Bytes → Bytes → Bytes → Files → Status × Files
unfolding rename_file put_file
install_file message none tmp path files = (ok_status, rename_file tmp path files)
install_file message (some m) tmp path files =
    (fail_with Code.io_error (message ++ m), remove_file tmp files)

-- Paths of different lengths are different.
pub bytes_eq-length : (s t : Bytes) → length s < length t → bytes_eq s t ≡ false
bytes_eq-length s t h = elim (Bool-cases (bytes_eq s t)) [
  | inl e ↦ absurd (let same = ap length (bytes_eq_sound s t e) in omega arith)
  | inr e ↦ e
]
