-- ===== src/Audit/Scan.antt =====
-- `ScanRecentDenials` of internal/audit/management.go over the directory of the logs: its roller, the
-- files that this lists, and the scan of them. `bufio.Scanner` and JSON are parameters, and so is
-- which files can be opened.
pub mod Found
use opx.Prelude.{
  All, sym, false≢true, ℕ, ◌<◌, ◌^◌, ◌≡◌, ◌∙◌, arith, ◌&&◌, inl, inr, Bool-cases, refl, ap, Bool,
  true, false, Option, none, some, List, [], ◌∷◌, map, length, get_elem?, if◌then◌else◌,
}
use opx.Prelude.Int.{ℤ, ◌-ℤ◌}
use opx.Prelude.Bytes.{Bytes, codes, ◌=ᵇ◌, =ᵇ_iff}
use mathlib.Core.List.{Perm}
use mathlib.Core.List.Perm
use opx.Dict.{Dict, lookup, keys}
use opx.Paths.{join_path}
use opx.Files.{Os, Dirs}
use opx.Audit.Events.{AuditEvent}
use opx.Audit.Denials.{DenialEvent, LogFile, unopened, scanned, values, scan_recent_denials}
use opx.Audit.Denials.Counting.{Descending, events, tally, scan_files-tally, scan-sorted}
use opx.Audit.Denials.Summed.{is_match, Sums, IsUnique, tally-Sums, tally-IsUnique, values-map}
use opx.Generics.Laws.{passing, filter_slice-passing}
use opx.Strings.{has_prefix, has_suffix, trim_prefix}
use mathlib.Core.Path.{subst}
use opx.Audit.Roller.{
  Calendar, Disk, Roller, default_roller_config, less, place_name, sort_names, read_inode, read_log,
  is_log_name, log_names, list_log_files,
}
use opx.Audit.Logger.{new_roller}

-- What the scan gets from Go's library and the operating system: the lines of a text, with whether the
-- scanner stops with an error, the event of a line, and whether a file can be opened.
pub record Scanner : Type 0 where
  pub scan_lines : Bytes → List Bytes × Bool
  pub unmarshal : Bytes → Option AuditEvent
  pub opens : Bytes → Bool

-- The content of the file with a path.
unfoldable pub read_path : Bytes → List Bytes → Dict ℕ → Bytes → Option Bytes
read_path base contents [] path = none
read_path base contents ((name, i) ∷ names) path =
    let rest = read_path base contents names path in
    if join_path base name =ᵇ path then get_elem? contents i else rest

module _ (sc : Scanner) where
  opened : Bool → Option Bytes → LogFile
  opened false content = unopened
  opened true none = unopened
  opened true (some b) = let (lines, failed) = sc.scan_lines b in scanned lines failed

  unfoldable pub log_file : Roller → Disk → Bytes → LogFile
  unfolding opened read_path
  log_file r disk path = opened (sc.opens path) (read_path r.base_dir disk.contents disk.names path)

  -- The log files of the roller, as the loop finds them.
  unfoldable pub log_files : Roller → Disk → List LogFile
  unfolding log_file list_log_files
  log_files r disk = map (log_file r disk) (list_log_files r disk)

  unfoldable pub scan_listed : ℤ → ℤ → List LogFile → List DenialEvent
  unfolding scan_recent_denials
  scan_listed now since [] = []
  scan_listed now since (f ∷ fs) = scan_recent_denials sc.unmarshal now since (f ∷ fs)

  scan_rolled : ℤ → ℤ → Option Roller × Disk → Option (List DenialEvent) × Disk
  unfolding scan_listed log_files
  scan_rolled now since (none, disk) = (none, disk)
  scan_rolled now since (some r, disk) = (some (scan_listed now since (log_files r disk)), disk)

  scan_made : ℤ → ℤ → (Option Roller × Disk) × Dirs → (Option (List DenialEvent) × Disk) × Dirs
  unfolding scan_rolled
  scan_made now since (r, dirs) = (scan_rolled now since r, dirs)

  -- The clean-up that the new roller may start is a step of its own. The time of the roller's rotation
  -- comes before that of the cutoff.
  unfoldable pub scan_directory :
      Calendar → ℤ → Bool → ℤ → ℤ → Os → Dirs → Disk → (Option (List DenialEvent) × Disk) × Dirs
  unfolding scan_made new_roller
  scan_directory cal rotated rotates now since os dirs disk =
      scan_made now since (new_roller cal default_roller_config rotated rotates os dirs disk)
