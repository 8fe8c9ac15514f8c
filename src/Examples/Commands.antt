-- ===== src/Examples/Commands.antt =====
-- The theorems on cmd/opx/main.go at concrete inputs.
use opx.Prelude.{ℕ, ◌≡◌, refl, false, Option, none, some, List, [], ◌∷◌, arith}
use opx.Prelude.Int.{pos}
use opx.Prelude.Bytes.{Bytes, codes}
use opx.Strings.{trim_space, has_prefix, split}
use opx.Dict.{Dict}
use opx.Server.Handlers.{Body, resolved}
use opx.Policy.{Policy, Rule, FileRead, default_policy, load}
use opx.Paths.{join_path}
use opx.Audit.Denials.{DenialEvent}
use opx.Audit.Rules.{suggest_allow_pattern}
use opx.Files.Token.{FileMap}
use opx.Client.{Client, Net, resolve_with_flags}
use opx.Cli.{scan_args}
use opx.Cli.Args.{first_bare, scan_args-first_bare, insert_all}
use opx.Cli.Commands.{finished, Shell, run_command}
use opx.Cli.Runs.{RunsWith, run_command-RunsWith}
use opx.Cli.Selection.{Progress, atoi, choice, process}
use opx.Cli.Selection.Added.{Encoded, chosen_rules, with_rules, process-chosen}
use opx.Examples.Clients.{token_file, socket_file}

abbrev spaced : List Bytes
spaced = codes "--account" ∷ codes "work" ∷ codes "read" ∷ codes "op://V/I/f" ∷ []

scan_args-first_bare_example : (scan_args spaced []).command ≡ first_bare spaced
scan_args-first_bare_example = scan_args-first_bare spaced []

abbrev shell : (N : Type 0) → Shell N
shell N = record {
  parse_run = λ flags. some (codes "A=op://V/I/f" ∷ []);
  parse_vault = λ flags. none;
  environ = codes "B=1" ∷ [];
  run_program = λ args env n. (finished 3, n);
}

abbrev files : FileMap
files = (token_file, codes "t") ∷ []

abbrev client : Client
client = record { base = codes "https://unix"; token = codes "t"; sock = socket_file }

abbrev to_env : Body → Option (Dict Bytes)
to_env (resolved env) = some env
to_env _ = none

abbrev resolving : Net ℕ
resolving = record {
  exchange =
      λ r n. (some (record { code = 200; body = resolved ((codes "A", codes "s") ∷ []) }), n);
  decode_read = λ b. none;
  decode_reads = λ b. none;
  decode_resolve = to_env;
  now = λ n. n;
  sleep = λ t n. n;
  getenv = λ v. [];
  look_path = none;
  start = λ exe n. (false, n);
}

abbrev pairs : Dict Bytes
pairs = (codes "A", codes "op://V/I/f") ∷ []

run_command-RunsWith_example :
    RunsWith resolving
      (shell ℕ)
      client
      []
      (codes "deploy" ∷ [])
      (resolve_with_flags resolving client (insert_all pairs []) [] 0)
      (run_command resolving
        (shell ℕ)
        client
        []
        (codes "--env" ∷ codes "A=op://V/I/f" ∷ codes "--" ∷ codes "deploy" ∷ [])
        0)
run_command-RunsWith_example =
    run_command-RunsWith resolving (shell ℕ) client [] (codes "--env" ∷ codes "A=op://V/I/f" ∷ [])
      (codes "deploy") [] pairs 0 (ground arith, (ground arith, tt)) refl (ground arith, tt)

abbrev denial : DenialEvent
denial = record {
  timestamp = pos 1;
  pid = pos 7;
  path = codes "/bin/a";
  reference = codes "r";
  count = pos 2;
}

abbrev first_rule : Rule
first_rule = record { path = codes "/bin/a"; path_sha256 = []; pid = pos 0; refs = codes "r" ∷ [] }

abbrev unmarshal : Bytes → Option Policy
unmarshal b = some (with_rules (first_rule ∷ []) default_policy)

abbrev marshal : Policy → Option Bytes
marshal pol = some (codes "{}")

abbrev no_files : Bytes → FileRead
no_files p = FileRead.missing

chosen : chosen_rules (denial ∷ []) (0 ∷ []) (codes "1" ∷ []) ≡ first_rule ∷ []
unfolding chosen_rules choice suggest_allow_pattern atoi trim_space has_prefix split
chosen = refl

encoded :
    Encoded unmarshal marshal
      (codes "/c")
      (chosen_rules (denial ∷ []) (0 ∷ []) (codes "1" ∷ []))
      default_policy
encoded = rw chosen ((codes "{}", refl, refl), tt)

loads :
    load unmarshal (some (codes "/c")) no_files
    ≡ (default_policy, join_path (codes "/c") (codes "policy.json"), none)
unfolding load
loads = refl

process-chosen_example :
    let p : Progress = record { lines = codes "1" ∷ []; files = no_files } in
    load unmarshal
      (some (codes "/c"))
      (process unmarshal marshal (some (codes "/c")) (λ i. none) (denial ∷ []) 0 (0 ∷ []) p).files
    ≡ (
      with_rules (chosen_rules (denial ∷ []) (0 ∷ []) (codes "1" ∷ [])) default_policy,
      join_path (codes "/c") (codes "policy.json"),
      none,
    )
process-chosen_example =
    process-chosen unmarshal marshal (codes "/c") (denial ∷ []) (0 ∷ []) 0 (codes "1" ∷ []) no_files
      default_policy encoded loads
