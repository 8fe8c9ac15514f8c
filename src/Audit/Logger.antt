-- ===== src/Audit/Logger.antt =====
-- internal/audit/audit.go: the logger, which writes to the roller; and the making and closing of the
-- roller (internal/audit/roller.go). The lines for the standard logger are left out. JSON is a
-- parameter.
use opx.Prelude.{◌≡◌, Bool, true, false, Option, none, some, [], ◌++◌, if◌then◌else◌}
use opx.Prelude.Int.{ℤ}
use opx.Prelude.Bytes.{Bytes, codes}
use opx.Files.{Os, Dirs, data_dir}
use opx.Audit.Events.{AuditEvent}
use opx.Audit.Roller.{
  RollerConfig, default_roller_config, Calendar, Disk, Roller, RollerError, Luck, log_name,
  rotate_if_needed, write,
}
use opx.Audit.Roller.Writes.{IsSound, IsLinked, Extends, fortunate, write-appends}

pub record Logger : Type 0 where
  pub enabled : Bool
  pub roller : Option Roller

unfoldable pub close_roller : Roller → Roller
close_roller r = record r { current_file = none }

closed : Option Roller → Option Roller
unfolding close_roller
closed none = none
closed (some r) = some (close_roller r)

unfoldable pub close_logger : Logger → Logger
unfolding closed
close_logger l = record l { roller = closed l.roller }

module _ (cal : Calendar) where
  -- The clean-up that a rotation starts is a step of its own.
  started : (Option RollerError × Bool) × Roller × Disk → Option Roller × Disk
  started ((none, cleans), r, disk) = (some r, disk)
  started ((some e, cleans), r, disk) = (none, disk)

  in_data_dir : RollerConfig → ℤ → Bool → Disk → Option Bytes → Option Roller × Disk
  unfolding started rotate_if_needed
  in_data_dir config now opens disk none = (none, disk)
  in_data_dir config now opens disk (some dir) =
      let r : Roller = record {
        config = config;
        base_dir = dir;
        current_file = none;
        current_date = [];
      } in
      if config.rotate_on_start
      then started (rotate_if_needed cal now opens (r, disk))
      else (some r, disk)

  -- `NewRoller`, but for its timer (Roller/Timer): none where it fails.
  unfoldable pub new_roller :
      RollerConfig → ℤ → Bool → Os → Dirs → Disk → (Option Roller × Disk) × Dirs
  unfolding in_data_dir data_dir
  new_roller config now opens os dirs disk =
      let (dir, dirs') = data_dir os dirs in (in_data_dir config now opens disk dir, dirs')

  enabled_logger : Option Roller × Disk → Option Logger × Disk
  enabled_logger (none, disk) = (none, disk)
  enabled_logger (some r, disk) = (some (record { enabled = true; roller = some r }), disk)

  unfoldable pub new_logger_with_config :
      Bool → RollerConfig → ℤ → Bool → Os → Dirs → Disk → (Option Logger × Disk) × Dirs
  unfolding new_roller enabled_logger
  new_logger_with_config enabled config now opens os dirs disk =
      let (r, dirs') = new_roller config now opens os dirs disk in
      if enabled
      then (enabled_logger r, dirs')
      else ((some (record { enabled = false; roller = none }), disk), dirs)

  unfoldable pub new_logger : Bool → ℤ → Bool → Os → Dirs → Disk → (Option Logger × Disk) × Dirs
  unfolding new_logger_with_config
  new_logger enabled = new_logger_with_config enabled default_roller_config

  module _ (marshal : AuditEvent → Option Bytes) where
    write_line : ℤ → Luck → Roller → Disk → Option Bytes → Roller × Disk
    unfolding write
    write_line now l r disk none = (r, disk)
    write_line now l r disk (some b) =
        let (outcome, r', disk') = write cal (b ++ codes "\n") now l (r, disk) in (r', disk')

    write_event : ℤ → Luck → AuditEvent → Disk → Option Roller → Option Roller × Disk
    unfolding write_line
    write_event now l e disk none = (none, disk)
    write_event now l e disk (some r) =
        let (r', disk') = write_line now l r disk (marshal e) in (some r', disk')

    -- `LogEvent`; the error of the write is passed over.
    unfoldable pub log_event : ℤ → ℤ → Luck → AuditEvent → Logger × Disk → Logger × Disk
    unfolding write_event
    log_event stamped now l e (logger, disk) =
        let (r, disk') = write_event now l (record e { timestamp = stamped }) disk logger.roller in
        if logger.enabled then (record logger { roller = r }, disk') else (logger, disk)

    -- An enabled logger puts the line of the event, stamped with the time, behind those of the log of the day, and
    -- changes no other file, where JSON encodes the event, no call fails, and the open file is that of its day.
    pub log_event-appends :
        (stamped now : ℤ) (e : AuditEvent) (r : Roller) (disk : Disk) (b : Bytes)
        → IsSound disk
        → IsLinked r disk
        → marshal (record e { timestamp = stamped }) ≡ some b
        → Extends
            (log_name (cal.format_date now))
            (b ++ codes "\n")
            disk
            (log_event stamped now fortunate e (record { enabled = true; roller = some r }, disk)).1
    unfolding log_event write_event write_line
    log_event-appends stamped now e r disk b sound linked m =
        let w = write-appends cal (b ++ codes "\n") now disk r sound linked in rw m w.1
