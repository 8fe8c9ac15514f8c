-- ===== src/Cli/Selection.antt =====
-- cmd/opx/main.go: `handleAuditCommand`, by which rules are added to the policy. What it prints is
-- left out. The input is a list of lines; a read after the last one fails.
pub mod Added
use opx.Prelude.{
  ℕ, zero, suc, ◌+◌, ◌-◌, ◌*◌, Bool, true, false, not, ◌&&◌, ◌||◌, Option, none, some, List, [],
  ◌∷◌, ◌++◌, get_elem?, ltb, leb, if◌then◌else◌, ◌==◌, ◌^◌,
}
use opx.Prelude.Int.{ℤ, pos, negsuc}
use opx.Prelude.Bytes.{Bytes, codes, ◌=ᵇ◌}
use opx.Strings.{trim_space, split}
use opx.Policy.{Rule, Policy, FileRead}
use opx.Audit.Events.{AuditEvent}
use opx.Audit.Denials.{DenialEvent, LogFile, scan_recent_denials}
use opx.Audit.Rules.{
  AddError, create_policy_rule_from_denial, suggest_allow_pattern, add_rule_to_policy,
}
use opx.Cli.{Ending, exited}

-- The number that decimal digits spell, none where there is another byte.
unfoldable pub digits_value : ℕ → Bytes → Option ℕ
digits_value n [] = some n
digits_value n (c ∷ s) =
    let rest = digits_value (n * 10 + (c - 48)) s in if leb 48 c && leb c 57 then rest else none

unfoldable pub digits : Bytes → Option ℕ
unfolding digits_value
digits [] = none
digits (c ∷ s) = digits_value 0 (c ∷ s)

-- A value out of the range of a 64-bit `int` is an error.
positive : Option ℕ → Option ℤ
positive none = none
positive (some n) = if ltb n (2 ^ 63) then some (pos n) else none

negative : Option ℕ → Option ℤ
negative none = none
negative (some zero) = some (pos 0)
negative (some (suc n)) = if ltb n (2 ^ 63) then some (negsuc n) else none

-- `strconv.Atoi`
unfoldable pub atoi : Bytes → Option ℤ
unfolding digits positive negative
atoi [] = none
atoi (c ∷ s) =
    if c == b'+'
    then positive (digits s)
    else if c == b'-'
    then negative (digits s)
    else positive (digits (c ∷ s))

selected : Option ℤ → List ℕ → List ℕ
selected none rest = rest
selected (some (negsuc n)) rest = rest
selected (some (pos zero)) rest = rest
selected (some (pos (suc n))) rest = n ∷ rest

-- The blank parts are passed over, as is what is no number.
unfoldable pub select_parts : List Bytes → List ℕ
unfolding atoi selected
select_parts [] = []
select_parts (p ∷ ps) =
    let rest = select_parts ps in
    if trim_space p =ᵇ [] then rest else selected (atoi (trim_space p)) rest

-- The positions from 0 on of the numbers from 1 on.
unfoldable pub parse_selection : Bytes → List ℕ
unfolding select_parts split
parse_selection input = select_parts (split b',' input)

-- What the loop over the selection changes: the lines that are left, and the files.
pub record Progress : Type 0 where
  pub lines : List Bytes
  pub files : Bytes → FileRead

-- The pattern with this number, counted from 1.
chosen_pattern : List Bytes → Option ℤ → Option Bytes
chosen_pattern patterns none = none
chosen_pattern patterns (some (negsuc n)) = none
chosen_pattern patterns (some (pos zero)) = none
chosen_pattern patterns (some (pos (suc n))) = get_elem? patterns n

-- The pattern that a line chooses for a denial.
unfoldable pub choice : DenialEvent → Bytes → Option Bytes
unfolding chosen_pattern atoi trim_space suggest_allow_pattern
choice d line = chosen_pattern (suggest_allow_pattern d.reference) (atoi (trim_space line))

-- The JSON package, the directory of the configuration, and how the write of each rule ends, by the
-- position of the rule in the selection.
module _ (unmarshal : Bytes → Option Policy) (marshal : Policy → Option Bytes) (dir : Option Bytes)
    (outcome : ℕ → Option FileRead) where
  -- An error of `AddRuleToPolicy` is only printed.
  add_chosen : ℕ → DenialEvent → List Bytes → (Bytes → FileRead) → Option Bytes → Progress
  unfolding add_rule_to_policy create_policy_rule_from_denial
  add_chosen i d lines files none = record { lines = lines; files = files }
  add_chosen i d lines files (some pattern) = record {
    lines = lines;
    files =
        (add_rule_to_policy unmarshal marshal (outcome i) dir dir files
          (create_policy_rule_from_denial d pattern)).0;
  }

  with_choice : ℕ → DenialEvent → List Bytes → (Bytes → FileRead) → Progress
  unfolding add_chosen choice
  with_choice i d [] files = record { lines = []; files = files }
  with_choice i d (line ∷ lines) files = add_chosen i d lines files (choice d line)

  with_denial : ℕ → Option DenialEvent → Progress → Progress
  unfolding with_choice
  with_denial i none p = p
  with_denial i (some d) p = with_choice i d p.lines p.files

  -- The loop over the selection, from the i-th of its positions on.
  unfoldable pub process : List DenialEvent → ℕ → List ℕ → Progress → Progress
  unfolding with_denial
  process denials i [] p = p
  process denials i (idx ∷ indices) p =
      process denials (i + 1) indices (with_denial i (get_elem? denials idx) p)

  after_input : List DenialEvent → List Bytes → (Bytes → FileRead) → Ending × (Bytes → FileRead)
  unfolding process parse_selection
  after_input denials [] files = (exited 1 [], files)
  after_input denials (line ∷ lines) files =
      let input = trim_space line in
      if (input =ᵇ codes "q") || (input =ᵇ codes "quit") then (exited 0 [], files) else (
        exited 0 [],
        (process denials 0 (parse_selection input) (record { lines = lines; files = files })).files,
      )

  with_denials :
      Bool → List DenialEvent → List Bytes → (Bytes → FileRead) → Ending × (Bytes → FileRead)
  unfolding after_input
  with_denials interactive [] lines files = (exited 0 [], files)
  with_denials interactive (d ∷ denials) lines files =
      if interactive then after_input (d ∷ denials) lines files else (exited 0 [], files)

  module _ (parse_event : Bytes → Option AuditEvent) (now : ℤ) where
    -- The log files are none where they cannot be listed.
    scanned_with :
        Bool
        → ℤ
        → Option (List LogFile)
        → List Bytes
        → (Bytes → FileRead)
        → Ending × (Bytes → FileRead)
    unfolding with_denials scan_recent_denials
    scanned_with interactive since none lines files = (exited 1 [], files)
    scanned_with interactive since (some logs) lines files =
        with_denials interactive (scan_recent_denials parse_event now since logs) lines files

    with_since :
        Bool
        → Option ℤ
        → Option (List LogFile)
        → List Bytes
        → (Bytes → FileRead)
        → Ending × (Bytes → FileRead)
    unfolding scanned_with
    with_since interactive none logs lines files = (exited 1 [], files)
    with_since interactive (some since) logs lines files =
        scanned_with interactive since logs lines files

    -- `parsed` is what the package flag makes of the arguments, none where it ends the program.
    unfoldable pub audit_command :
        (Bytes → Option ℤ)
        → Option (Bytes × Bool)
        → Option (List LogFile)
        → List Bytes
        → (Bytes → FileRead)
        → Ending × (Bytes → FileRead)
    unfolding with_since
    audit_command parse_duration none logs lines files = (exited 2 [], files)
    audit_command parse_duration (some (since, interactive)) logs lines files =
        with_since interactive (parse_duration since) logs lines files
