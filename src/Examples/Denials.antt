-- ===== src/Examples/Denials.antt =====
-- The theorem on the scan of the audit log, of internal/audit/management.go, at a concrete input.
use mathlib.Core.List.{Perm}
use opx.Prelude.{map, ◌<◌, ◌^◌, ◌≡◌, refl, true, false, some, List, [], ◌∷◌, length, arith}
use opx.Prelude.Int.{pos, ◌-ℤ◌}
use opx.Prelude.Bytes.{Bytes, codes, ◌=ᵇ◌}
use opx.Dict.{lookup, insert, keys}
use opx.Strings.{has_suffix, trim_prefix}
use opx.Paths.{join_path}
use opx.Audit.Events.{AuditEvent}
use opx.Audit.Denials.{DenialEvent}
use opx.Audit.Denials.Counting.{events}
use opx.Audit.Roller.{Disk, Roller, default_roller_config, rotate_if_needed, list_log_files}
use opx.Audit.Logger.{new_roller}
use opx.Audit.Scan.{Scanner, log_files, scan_directory}
use opx.Audit.Scan.Found.{Scanned, file_of, logs_of, HavePaths, scan_directory-Scanned}
use opx.Examples.Clients.{os, dirs}
use opx.Examples.Logs.{calendar, disk}

-- Every text is one line, which denies the same.
abbrev denial : AuditEvent
denial = record {
  timestamp = pos 6;
  event = codes "ACCESS_DECISION";
  peer_info = record { pid = pos 4; uid = 5; gid = 5; path = codes "/p" };
  reference = codes "op://V/I/f";
  decision = codes "DENY";
  policy_path = [];
  details = [];
}

abbrev scanner : Scanner
scanner = record {
  scan_lines = λ b. (b ∷ [], false);
  unmarshal = λ line. some denial;
  opens = λ path. true;
}

abbrev rolled : Roller
rolled = record {
  config = default_roller_config;
  base_dir = codes "/h/.local/share/op-authd";
  current_file = some 1;
  current_date = codes "2026-01-02";
}

abbrev rolled_disk : Disk
rolled_disk = record {
  names = (codes "audit-2026-01-01.log", 0) ∷ (codes "audit-2026-01-02.log", 1) ∷ [];
  contents = codes "x" ∷ codes "" ∷ [];
}

made :
    new_roller calendar default_roller_config (pos 7) true os [] disk
    ≡ ((some rolled, rolled_disk), dirs)
unfolding new_roller rotate_if_needed lookup insert join_path ◌=ᵇ◌
made = refl

short : length (events scanner.unmarshal (log_files scanner rolled rolled_disk)) < 2 ^ 63
unfolding log_files list_log_files lookup insert join_path keys has_suffix trim_prefix ◌=ᵇ◌
short = omega arith

paths : HavePaths rolled.base_dir rolled_disk.names
unfolding join_path keys
paths = ((λ e. refl, (λ e. ground (arith, e), tt)), ((λ e. ground (arith, e), (λ e. refl, tt)), tt))

scan_directory-Scanned_example :
    (names : List Bytes) × Perm (logs_of rolled_disk.names) names
    × (ds : List DenialEvent) × (scan_directory scanner calendar
          (pos 7)
          true
          (pos 9)
          (pos 5)
          os
          []
          disk
        ≡ ((some ds, rolled_disk), dirs))
    × Scanned scanner
        (pos 9 -ℤ pos 5)
        (events scanner.unmarshal (map (file_of scanner rolled rolled_disk) names))
        ds
scan_directory-Scanned_example =
    scan_directory-Scanned scanner calendar (pos 7) true (pos 9) (pos 5) os [] dirs disk rolled_disk
      rolled made short paths
