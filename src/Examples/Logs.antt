-- ===== src/Examples/Logs.antt =====
-- The theorems on internal/audit/roller.go at concrete inputs.
use opx.Prelude.{◌↔◌, ◌≡◌, refl, none, some, [], ◌∷◌}
use opx.Prelude.Int.{pos, ◌-ℤ◌}
use opx.Prelude.Bytes.{codes}
use opx.Dict.{lookup}
use opx.Audit.Roller.{default_roller_config, Calendar, Disk, Roller, cleanup_old_logs}
use opx.Audit.Roller.Cleanup.{IsOld, lookup-cleanup_old_logs}
use opx.Audit.Roller.Timer.{fires, reschedules, closes, new_timers, steps}
use opx.Audit.Roller.Timer.Closing.{closes_iff}

abbrev pub calendar : Calendar
calendar = record {
  format_date = λ t. codes "2026-01-02";
  parse_date = λ s. some (pos 5);
  add_days = λ t n. t;
}

-- The log of another day.
abbrev pub disk : Disk
disk = record { names = (codes "audit-2026-01-01.log", 0) ∷ []; contents = codes "x" ∷ [] }

abbrev roller : Roller
roller = record {
  config = default_roller_config;
  base_dir = codes "/d";
  current_file = some 0;
  current_date = codes "2026-01-01";
}

lookup-cleanup_old_logs_example :
    let disk' = cleanup_old_logs calendar (pos 9) default_roller_config disk in
    let cutoff = calendar.add_days (pos 9) (pos 0 -ℤ pos 30) in
    let n = codes "audit-2026-01-01.log" in
    (IsOld calendar cutoff n → lookup n disk'.names ≡ none)
    × (¬ IsOld calendar cutoff n → lookup n disk'.names ≡ lookup n disk.names)
    × (disk'.contents ≡ disk.contents)
lookup-cleanup_old_logs_example =
    lookup-cleanup_old_logs calendar (pos 9) default_roller_config disk
      (codes "audit-2026-01-01.log")

closes_iff_example :
    let t = steps default_roller_config (fires ∷ []) (new_timers default_roller_config) in
    ((steps default_roller_config (closes ∷ reschedules ∷ []) t).armed ≡ []) ↔ (t.flushing ≡ 0)
closes_iff_example = closes_iff default_roller_config (fires ∷ []) refl
