-- ===== src/Cli.antt =====
-- cmd/opx/main.go: the command line of the client. The text of the usage and what is written to the
-- error output are left out.
pub mod Args
pub mod Commands
pub mod Runs
pub mod Machine
pub mod Selection
use opx.Prelude.{
  ℕ, ◌+◌, Bool, true, false, not, ◌&&◌, Option, none, some, List, [], ◌∷◌, ◌++◌, if◌then◌else◌,
  ◌==◌,
}
use opx.Prelude.Bytes.{Bytes, codes, ◌=ᵇ◌}
use opx.Strings.{has_prefix, trim_prefix, has_suffix, split_two}
use opx.Dict.{Dict, lookup, insert}
use opx.Protocol.{ReadResponse}

-- The flags for `op`, and the subcommand with its arguments, where there is one.
pub record Globals : Type 0 where
  pub op_flags : List Bytes
  pub command : Option (Bytes × List Bytes)

-- What an argument is: a flag, which adds this to the flags for `op`, or the subcommand.
pub data Seen : Type 0 where
  flag : List Bytes → Seen
  subcommand : Seen

unfoldable pub account_flag : Bytes → List Bytes
account_flag account = if account =ᵇ [] then [] else (codes "--account=" ++ account) ∷ []

-- The flag `--account` before these arguments. The loop goes on with the first of them, since `i++`
-- in the body of a `range` loop has no effect on the next round.
spaced_account : List Bytes → Seen
unfolding account_flag
spaced_account [] = flag []
spaced_account (account ∷ rest) = flag (account_flag account)

see_arg : Bytes → List Bytes → Seen
unfolding account_flag spaced_account
see_arg arg rest =
    if has_prefix arg (codes "--account=")
    then flag (account_flag (trim_prefix arg (codes "--account=")))
    else if arg =ᵇ codes "--account"
    then spaced_account rest
    else if not (has_prefix arg (codes "--"))
    then subcommand
    else flag []

go_on : (List Bytes → Globals) → List Bytes → Bytes → List Bytes → Seen → Globals
go_on scan flags arg rest (flag more) = scan (flags ++ more)
go_on scan flags arg rest subcommand = record { op_flags = flags; command = some (arg, rest) }

-- The loop over `os.Args[1:]`, with the flags so far.
unfoldable pub scan_args : List Bytes → List Bytes → Globals
unfolding see_arg go_on
scan_args [] flags = record { op_flags = flags; command = none }
scan_args (arg ∷ rest) flags = go_on (scan_args rest) flags arg rest (see_arg arg rest)

-- The mappings `NAME=REF`; none where one has no `=`.
put_mapping :
    (Dict Bytes → Option (Dict Bytes)) → Dict Bytes → Bytes × Option Bytes → Option (Dict Bytes)
put_mapping rest env (name, none) = none
put_mapping rest env (name, some ref) = rest (insert name ref env)

unfoldable pub env_map : List Bytes → Dict Bytes → Option (Dict Bytes)
unfolding put_mapping
env_map [] env = some env
env_map (kv ∷ kvs) env = put_mapping (env_map kvs) env (split_two b'=' kv)

before : Bytes → Option (List Bytes × List Bytes) → Option (List Bytes × List Bytes)
before a none = none
before a (some (l, r)) = some (a ∷ l, r)

-- The arguments before the first `--`, and those after it.
unfoldable pub split_args : List Bytes → Option (List Bytes × List Bytes)
unfolding before
split_args [] = none
split_args (a ∷ args) =
    let rest = split_args args in if a =ᵇ codes "--" then some ([], args) else before a rest

-- How the program ends: its exit code, and what `status`, `read` and `resolve` print; or it goes on with
-- `handleAuditCommand` (Cli/Audit), on these arguments.
pub data Ending : Type 0 where
  exited : ℕ → List Bytes → Ending
  audits : List Bytes → Ending

abbrev pub usage : Ending
usage = exited 2 []

abbrev pub newline : Bytes
newline = codes "\n"

-- The output of one read.
unfoldable pub read_output : Bytes → List Bytes
read_output value = if has_suffix value newline then value ∷ [] else value ∷ newline ∷ []

value_of : Option ReadResponse → Bytes
value_of none = []
value_of (some r) = r.value

-- A reference that the results do not have stands for the zero response.
unfoldable pub reads_output : Dict ReadResponse → List Bytes → List Bytes
unfolding value_of
reads_output results [] = []
reads_output results (ref ∷ refs) =
    (value_of (lookup ref results) ++ newline) ∷ reads_output results refs

assignment : Bytes × Bytes → Bytes
assignment (k, v) = k ++ (codes "=" ++ v)

-- The variables in the order in which the loop ranges over them.
unfoldable pub resolve_output : Dict Bytes → List Bytes
unfolding assignment
resolve_output [] = []
resolve_output (kv ∷ env) = (assignment kv ++ newline) ∷ resolve_output env

unfoldable pub assignments : Dict Bytes → List Bytes
unfolding assignment
assignments [] = []
assignments (kv ∷ env) = assignment kv ∷ assignments env
