-- ===== src/Audit/Roller/Kept.antt =====
-- What a write to the audit log and the clean-up that it starts leave (internal/audit/roller.go).
use opx.Prelude.{ℕ, ◌≡◌, Bool, true, false, not, ◌&&◌, ◌⊎◌, Option, none, some, ◌++◌, if◌then◌else◌}
use opx.Prelude.Int.{ℤ, pos, ltb_ℤ, ◌-ℤ◌}
use opx.Prelude.Bytes.{Bytes, codes, ◌=ᵇ◌}
use opx.Audit.Roller.{Calendar, Disk, Roller, RollerError, content, read_log}
use opx.Audit.Roller.Cleanup.{IsOld}

abbrev pub has_file : Option ℕ → Bool
has_file none = false
has_file (some i) = true

module _ (cal : Calendar) (data_bytes : Bytes) (now later : ℤ) (before : Disk) where
  abbrev today : Bytes
  today = codes "audit-" ++ (cal.format_date now ++ codes ".log")

  -- Whether the write makes a rotation, which starts a clean-up.
  abbrev pub cleans : Roller → Bool
  cleans r =
      not ((cal.format_date now =ᵇ r.current_date) && has_file r.current_file)
      && ltb_ℤ (pos 0) r.config.max_days

  -- What a name reads as after the write.
  abbrev pub appended : Bytes → Option Bytes
  appended n =
      if today =ᵇ n then some (content (read_log today before) ++ data_bytes) else read_log n before

  abbrev cutoff : Roller → ℤ
  cutoff r = cal.add_days later (pos 0 -ℤ r.config.max_days)

  -- The outcome of a write with its clean-up.
  abbrev pub Cleaned : Roller → Option RollerError × Roller × Disk → Type 0
  Cleaned r (e, r', disk) =
      (e ≡ none)
      × ((n : Bytes)
          → ((cleans r ≡ true) → IsOld cal (cutoff r) n → read_log n disk ≡ none)
            × ((cleans r ≡ false) ⊎ ¬ IsOld cal (cutoff r) n → read_log n disk ≡ appended n))
