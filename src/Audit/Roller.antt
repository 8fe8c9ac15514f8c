-- ===== src/Audit/Roller.antt =====
-- internal/audit/roller.go: the rotation of the audit log.
--
-- The files are those of the directory `baseDir`, by their names. A name stands for the number of a
-- file, and an open file is such a number, so that a file whose name was removed can still be
-- written to. The calendar of Go's package time, and whether a call succeeds, are parameters. The
-- name of the directory has no character that `Glob` reads.
pub mod Cleanup
pub mod Writes
pub mod Kept
pub mod Timer
use opx.Prelude.{
  ℕ, ◌+◌, ◌*◌, ◌-◌, ◌≡◌, Bool, true, false, not, ◌&&◌, ◌||◌, Option, none, some, List, [], ◌∷◌,
  ◌++◌, take, set, length, get_elem?, ltb, map, if◌then◌else◌, ◌==◌,
}
use opx.Prelude.Int.{ℤ, pos, negsuc, ltb_ℤ, ◌-ℤ◌}
use opx.Prelude.Bytes.{Bytes, codes, ◌=ᵇ◌}
use opx.Strings.{has_prefix, has_suffix, trim_prefix, trim_suffix}
use opx.Dict.{Dict, lookup, insert, delete, keys}
use opx.Generics.{filter_slice}
use opx.Paths.{join_path}

pub record RollerConfig : Type 0 where
  pub max_days : ℤ
  pub compress_old : Bool
  pub rotate_on_start : Bool
  pub flush_interval : ℤ

abbrev pub default_roller_config : RollerConfig
default_roller_config = record {
  max_days = pos 30;
  compress_old = false;
  rotate_on_start = true;
  flush_interval = pos 5000000000;
}

-- The format "2006-01-02", its parser, which gives the midnight in UTC, and `AddDate(0, 0, n)`.
pub record Calendar : Type 0 where
  pub format_date : ℤ → Bytes
  pub parse_date : Bytes → Option ℤ
  pub add_days : ℤ → ℤ → ℤ

pub record Disk : Type 0 where
  pub names : Dict ℕ
  pub contents : List Bytes

pub record Roller : Type 0 where
  pub config : RollerConfig
  pub base_dir : Bytes
  pub current_file : Option ℕ
  pub current_date : Bytes

pub data RollerError : Type 0 where
  open_failed no_file write_failed : RollerError

abbrev pub log_name : Bytes → Bytes
log_name date = codes "audit-" ++ (date ++ codes ".log")

unfoldable pub content : Option Bytes → Bytes
content none = []
content (some b) = b

-- `os.OpenFile` with `O_CREATE` and `O_APPEND`.
unfoldable pub open_named : Bytes → Disk → Option ℕ → ℕ × Disk
open_named name disk (some i) = (i, disk)
open_named name disk none = (
  length disk.contents,
  record {
    names = insert name (length disk.contents) disk.names;
    contents = disk.contents ++ [] ∷ [];
  },
)

unfoldable pub open_file : Bytes → Disk → ℕ × Disk
unfolding open_named
open_file name disk = open_named name disk (lookup name disk.names)

unfoldable pub append_to : ℕ → Bytes → Disk → Disk
unfolding content
append_to i data_bytes disk = record disk {
  contents = set disk.contents i (content (get_elem? disk.contents i) ++ data_bytes);
}

-- What can be read under a name.
unfoldable pub read_inode : List Bytes → Option ℕ → Option Bytes
read_inode contents none = none
read_inode contents (some i) = get_elem? contents i

unfoldable pub read_log : Bytes → Disk → Option Bytes
unfolding read_inode
read_log name disk = read_inode disk.contents (lookup name disk.names)

unfoldable pub is_open : Option ℕ → Bool
is_open none = false
is_open (some i) = true

-- What the calls of one write do: whether the log can be opened, and how much is written where the
-- write fails.
pub record Luck : Type 0 where
  pub opens : Bool
  pub short_write : Option ℕ

-- The names that the pattern `audit-*.log` matches.
unfoldable pub is_log_name : Bytes → Bool
is_log_name name =
    has_prefix name (codes "audit-")
    && has_suffix (trim_prefix name (codes "audit-")) (codes ".log")

unfoldable pub log_names : Dict ℕ → List Bytes
unfolding is_log_name filter_slice
log_names names = filter_slice (keys names) is_log_name

module _ (cal : Calendar) where
  -- The error, and whether the clean-up is started.
  unfoldable pub rotate_if_needed :
      ℤ → Bool → Roller × Disk → (Option RollerError × Bool) × Roller × Disk
  unfolding open_file is_open
  rotate_if_needed now opens (r, disk) =
      let date = cal.format_date now in
      let (i, disk') = open_file (log_name date) disk in
      if (date =ᵇ r.current_date) && is_open r.current_file
      then ((none, false), r, disk)
      else if opens
      then (
        (none, ltb_ℤ (pos 0) r.config.max_days),
        record r { current_file = some i; current_date = date },
        disk',
      )
      else ((some open_failed, false), record r { current_file = none }, disk)

  unfoldable pub append_short : ℕ → Bytes → Option ℕ → Disk → Option RollerError × Disk
  unfolding append_to
  append_short i data_bytes none disk = (none, append_to i data_bytes disk)
  append_short i data_bytes (some k) disk =
      (some write_failed, append_to i (take k data_bytes) disk)

  unfoldable pub write_open : Bytes → Option ℕ → Option ℕ → Disk → Option RollerError × Disk
  unfolding append_short
  write_open data_bytes short none disk = (some no_file, disk)
  write_open data_bytes short (some i) disk = append_short i data_bytes short disk

  unfoldable pub write_rotated :
      Bytes
      → Option ℕ
      → (Option RollerError × Bool) × Roller × Disk
      → (Option RollerError × Bool) × Roller × Disk
  unfolding write_open
  write_rotated data_bytes short ((some e, started), r, disk) = ((some e, started), r, disk)
  write_rotated data_bytes short ((none, started), r, disk) =
      let (e, disk') = write_open data_bytes short r.current_file disk in ((e, started), r, disk')

  -- `Write`: the error, whether the clean-up is started, the roller and the files.
  unfoldable pub write :
      Bytes → ℤ → Luck → Roller × Disk → (Option RollerError × Bool) × Roller × Disk
  unfolding write_rotated rotate_if_needed
  write data_bytes now l s = write_rotated data_bytes l.short_write (rotate_if_needed now l.opens s)

  unfoldable pub before_cutoff : ℤ → Option ℤ → Bool
  before_cutoff cutoff none = false
  before_cutoff cutoff (some date) = ltb_ℤ date cutoff

  unfoldable pub is_expired : ℤ → Bytes → Bool
  unfolding before_cutoff
  is_expired cutoff base =
      if not (has_prefix base (codes "audit-")) || not (has_suffix base (codes ".log"))
      then false
      else before_cutoff cutoff
          (cal.parse_date (trim_suffix (trim_prefix base (codes "audit-")) (codes ".log")))

  unfoldable pub remove_expired : ℤ → List Bytes → Dict ℕ → Dict ℕ
  unfolding is_expired
  remove_expired cutoff [] names = names
  remove_expired cutoff (file ∷ files) names =
      remove_expired cutoff files (if is_expired cutoff file then delete file names else names)

  unfoldable pub cleanup_old_logs : ℤ → RollerConfig → Disk → Disk
  unfolding remove_expired log_names
  cleanup_old_logs now config disk =
      let cutoff = cal.add_days now (pos 0 -ℤ config.max_days) in
      record disk { names = remove_expired cutoff (log_names disk.names) disk.names }

  clean_started :
      ℤ → (Option RollerError × Bool) × Roller × Disk → Option RollerError × Roller × Disk
  unfolding cleanup_old_logs
  clean_started later ((e, true), r, disk) = (e, r, cleanup_old_logs later r.config disk)
  clean_started later ((e, false), r, disk) = (e, r, disk)

  -- `Write` and then the clean-up that its rotation has started, at the time `later`.
  unfoldable pub write_cleaned :
      Bytes → ℤ → Luck → ℤ → Roller × Disk → Option RollerError × Roller × Disk
  unfolding clean_started write
  write_cleaned data_bytes now l later s = clean_started later (write data_bytes now l s)

  -- `GetCurrentLogPath`: the path, and the roller.
  unfoldable pub get_current_log_path : ℤ → Roller → Bytes × Roller
  get_current_log_path now r =
      let date = if r.current_date =ᵇ [] then cal.format_date now else r.current_date in
      (join_path r.base_dir (log_name date), record r { current_date = date })

  unfoldable pub get_log_for_date : ℤ → Roller → Bytes
  get_log_for_date date r = join_path r.base_dir (log_name (cal.format_date date))

-- The order of strings by their bytes.
unfoldable pub less : Bytes → Bytes → Bool
less s [] = false
less [] (d ∷ t) = true
less (c ∷ s) (d ∷ t) =
    let rest = less s t in if ltb c d then true else if c == d then rest else false

unfoldable pub place_name : Bytes → List Bytes → List Bytes
unfolding less
place_name f [] = f ∷ []
place_name f (g ∷ fs) = let rest = place_name f fs in if less f g then g ∷ rest else f ∷ g ∷ fs

-- The names, the last of them first.
unfoldable pub sort_names : List Bytes → List Bytes
unfolding place_name
sort_names [] = []
sort_names (f ∷ fs) = place_name f (sort_names fs)

-- `ListLogFiles`
unfoldable pub list_log_files : Roller → Disk → List Bytes
unfolding sort_names log_names
list_log_files r disk = sort_names (map (join_path r.base_dir) (log_names disk.names))
