-- ===== src/Audit/Denials.antt =====
-- internal/audit/management.go: the denials of the audit log, counted for each process and
-- reference. What `os.Open` and `bufio.Scanner` give for a file is an argument, and `encoding/json`
-- a parameter. The source ranges over a map and sorts the result with an unstable sort: the order
-- of denials with equal counts is one of those that it may give.
pub mod Counting
pub mod Summed
use opx.Prelude.{
  ℕ, ◌+◌, Bool, true, false, not, ◌&&◌, ◌||◌, Option, none, some, List, [], ◌∷◌, ◌++◌,
  if◌then◌else◌,
}
use opx.Prelude.Int.{ℤ, pos, ◌+ℤ◌, ◌-ℤ◌, ltb_ℤ, wrap64}
use opx.Prelude.Bytes.{Bytes, codes, ◌=ᵇ◌}
use opx.Dict.{Dict, lookup, insert}
use opx.Audit.Events.{AuditEvent}
use opx.Generics.{filter_slice, group_by, find_first}

pub record DenialEvent : Type 0 where
  pub timestamp : ℤ
  pub pid : ℤ
  pub path : Bytes
  pub reference : Bytes
  pub count : ℤ

-- A log file that cannot be opened, or its lines and whether the scanner stopped with an error.
pub data LogFile : Type 0 where
  unopened : LogFile
  scanned : List Bytes → Bool → LogFile

unfoldable pub is_denial : ℤ → AuditEvent → Bool
is_denial cutoff e =
    if not (e.event =ᵇ codes "ACCESS_DECISION")
      || not (e.decision =ᵇ codes "DENY")
      || ltb_ℤ e.timestamp cutoff
    then false
    else true

unfoldable pub denial_key : AuditEvent → Bytes
denial_key e = e.peer_info.path ++ (codes "|" ++ e.reference)

-- One more denial with this key; the latest time is kept.
unfoldable pub bump : AuditEvent → Option DenialEvent → DenialEvent
bump e none = record {
  timestamp = e.timestamp;
  pid = e.peer_info.pid;
  path = e.peer_info.path;
  reference = e.reference;
  count = pos 1;
}
bump e (some d) = record d {
  timestamp = if ltb_ℤ d.timestamp e.timestamp then e.timestamp else d.timestamp;
  count = wrap64 (d.count +ℤ pos 1);
}

unfoldable pub add_event : ℤ → Dict DenialEvent → AuditEvent → Dict DenialEvent
unfolding is_denial denial_key bump
add_event cutoff d e =
    if is_denial cutoff e then insert (denial_key e) (bump e (lookup (denial_key e) d)) d else d

add_parsed : ℤ → Dict DenialEvent → Option AuditEvent → Dict DenialEvent
unfolding add_event
add_parsed cutoff d none = d
add_parsed cutoff d (some e) = add_event cutoff d e

module _ (unmarshal : Bytes → Option AuditEvent) where
  -- An empty line and a malformed one are skipped.
  unfoldable pub add_lines : ℤ → Dict DenialEvent → List Bytes → Dict DenialEvent
  unfolding add_parsed
  add_lines cutoff d [] = d
  add_lines cutoff d (line ∷ lines) =
      add_lines cutoff (if line =ᵇ [] then d else add_parsed cutoff d (unmarshal line)) lines

  -- The denials so far, and the files that were opened and never closed: after an error of the
  -- scanner the loop goes on before it closes the file.
  scan_file : ℤ → Dict DenialEvent × ℕ → LogFile → Dict DenialEvent × ℕ
  unfolding add_lines
  scan_file cutoff (d, unclosed) unopened = (d, unclosed)
  scan_file cutoff (d, unclosed) (scanned lines failed) =
      (add_lines cutoff d lines, if failed then unclosed + 1 else unclosed)

  unfoldable pub scan_files : ℤ → Dict DenialEvent × ℕ → List LogFile → Dict DenialEvent × ℕ
  unfolding scan_file
  scan_files cutoff r [] = r
  scan_files cutoff r (f ∷ fs) = scan_files cutoff (scan_file cutoff r f) fs

unfoldable pub values : Dict DenialEvent → List DenialEvent
values [] = []
values ((k, d) ∷ ds) = d ∷ values ds

unfoldable pub place : DenialEvent → List DenialEvent → List DenialEvent
place d [] = d ∷ []
place d (e ∷ es) = let rest = place d es in if ltb_ℤ d.count e.count then e ∷ rest else d ∷ e ∷ es

-- The most frequent first.
unfoldable pub sort_by_count : List DenialEvent → List DenialEvent
unfolding place
sort_by_count [] = []
sort_by_count (d ∷ ds) = place d (sort_by_count ds)

-- `ScanRecentDenials` at the time `now`, over the files that the roller lists.
unfoldable pub scan_recent_denials :
    (Bytes → Option AuditEvent) → ℤ → ℤ → List LogFile → List DenialEvent
unfolding scan_files values sort_by_count
scan_recent_denials unmarshal now since files =
    sort_by_count (values (scan_files unmarshal (now -ℤ since) ([], 0) files).0)

unfoldable pub filter_denials_by_path : List DenialEvent → Bytes → List DenialEvent
unfolding filter_slice
filter_denials_by_path denials path = filter_slice denials (λ d. d.path =ᵇ path)

unfoldable pub group_denials_by_path : List DenialEvent → Dict (List DenialEvent)
unfolding group_by
group_denials_by_path denials = group_by denials (λ d. d.path)

unfoldable pub find_most_frequent_denial : List DenialEvent → Option DenialEvent
unfolding find_first
find_most_frequent_denial denials = find_first denials (λ d. true)
