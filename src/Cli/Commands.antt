-- ===== src/Cli/Commands.antt =====
-- cmd/opx/main.go: the commands. Go's package flag and the programs that are run are parameters.
use opx.Prelude.{ℕ, Bool, Option, none, some, List, [], ◌∷◌, ◌++◌, if◌then◌else◌}
use opx.Prelude.Bytes.{Bytes, codes, ◌=ᵇ◌}
use opx.Dict.{Dict}
use opx.Protocol.{ReadResponse}
use opx.Files.{Os, Dirs}
use opx.Files.Token.{FileMap}
use opx.Client.{
  Client, ClientError, Attempt, Net, failed, made, new_client, ping, read_with_flags,
  reads_with_flags, resolve_with_flags, ensure_daemon,
}
use opx.Cli.{
  scan_args, env_map, split_args, Ending, exited, audits, usage, read_output, reads_output,
  resolve_output, assignments,
}

-- How a program that was run ended: with an exit code, or it could not be run.
pub data Ran : Type 0 where
  finished : ℕ → Ran
  unstarted : Ran

-- The flags of `run` and of `vault-login`, none where the parse fails, which ends the program with
-- the code 2; the environment; and a program with its arguments and its environment.
pub record Shell (N : Type 0) : Type 0 where
  pub parse_run : List Bytes → Option (List Bytes)
  pub parse_vault : List Bytes → Option (Bytes × Bytes)
  pub environ : List Bytes
  pub run_program : List Bytes → List Bytes → N → Ran × N

-- An exit code of 0 is no error.
unfoldable pub ran_code : Ran → ℕ
ran_code (finished code) = code
ran_code unstarted = 1

module _ {N : Type 0} where
  unfoldable pub after_status : Option ClientError × N → Ending × N
  after_status (none, n) = (exited 0 (codes "ok\n" ∷ []), n)
  after_status (some e, n) = (exited 1 [], n)

  unfoldable pub after_one : Attempt ReadResponse × N → Ending × N
  unfolding read_output
  after_one (failed e, n) = (exited 1 [], n)
  after_one (made r, n) = (exited 0 (read_output r.value), n)

  unfoldable pub after_many : List Bytes → Attempt (Dict ReadResponse) × N → Ending × N
  unfolding reads_output
  after_many refs (failed e, n) = (exited 1 [], n)
  after_many refs (made results, n) = (exited 0 (reads_output results refs), n)

  unfoldable pub after_resolve : Attempt (Dict Bytes) × N → Ending × N
  unfolding resolve_output
  after_resolve (failed e, n) = (exited 1 [], n)
  after_resolve (made env, n) = (exited 0 (resolve_output env), n)

  unfoldable pub after_run : Ran × N → Ending × N
  unfolding ran_code
  after_run (r, n) = (exited (ran_code r) [], n)

module _ {N : Type 0} (net : Net N) (shell : Shell N) (c : Client) (op_flags : List Bytes) where
  unfoldable pub read_command : List Bytes → N → Ending × N
  unfolding after_one after_many
  read_command [] n = (usage, n)
  read_command (ref ∷ []) n = after_one (read_with_flags net c ref op_flags n)
  read_command (ref ∷ ref' ∷ refs) n =
      after_many (ref ∷ ref' ∷ refs) (reads_with_flags net c (ref ∷ ref' ∷ refs) op_flags n)

  unfoldable pub resolve_mapped : Option (Dict Bytes) → N → Ending × N
  unfolding after_resolve
  resolve_mapped none n = (exited 1 [], n)
  resolve_mapped (some env) n = after_resolve (resolve_with_flags net c env op_flags n)

  unfoldable pub resolve_command : List Bytes → N → Ending × N
  unfolding resolve_mapped env_map
  resolve_command [] n = (usage, n)
  resolve_command (kv ∷ kvs) n = resolve_mapped (env_map (kv ∷ kvs) []) n

  -- The program gets the environment with the variables behind it, of which the last of a name
  -- counts.
  unfoldable pub run_resolved : List Bytes → Attempt (Dict Bytes) × N → Ending × N
  unfolding after_run assignments
  run_resolved exec_args (failed e, n) = (exited 1 [], n)
  run_resolved exec_args (made env, n) =
      after_run (shell.run_program exec_args (shell.environ ++ assignments env) n)

  unfoldable pub run_mapped : List Bytes → Option (Dict Bytes) → N → Ending × N
  unfolding run_resolved
  run_mapped exec_args none n = (exited 1 [], n)
  run_mapped exec_args (some env) n =
      run_resolved exec_args (resolve_with_flags net c env op_flags n)

  unfoldable pub run_parsed : List Bytes → Option (List Bytes) → N → Ending × N
  unfolding run_mapped env_map
  run_parsed exec_args none n = (exited 2 [], n)
  run_parsed [] (some envs) n = (usage, n)
  run_parsed (exe ∷ args) (some envs) n = run_mapped (exe ∷ args) (env_map envs []) n

  unfoldable pub run_split : Option (List Bytes × List Bytes) → N → Ending × N
  unfolding run_parsed
  run_split none n = (usage, n)
  run_split (some (flags, exec_args)) n = run_parsed exec_args (shell.parse_run flags) n

  unfoldable pub run_command : List Bytes → N → Ending × N
  unfolding run_split split_args
  run_command args n = run_split (split_args args) n

  -- The commands that need the daemon.
  unfoldable pub daemon_command : Bytes → List Bytes → N → Ending × N
  unfolding after_status read_command resolve_command run_command ping
  daemon_command cmd args n =
      if cmd =ᵇ codes "status"
      then after_status (ping net c n)
      else if cmd =ᵇ codes "read"
      then read_command args n
      else if cmd =ᵇ codes "resolve"
      then resolve_command args n
      else if cmd =ᵇ codes "run"
      then run_command args n
      else (usage, n)

  -- None stands for fuel that is used up (Client/Ready).
  unfoldable pub when_ready :
      Bytes → List Bytes → Option (Option ClientError) × N → Option Ending × N
  unfolding daemon_command
  when_ready cmd args (none, n) = (none, n)
  when_ready cmd args (some (some e), n) = (some (exited 1 []), n)
  when_ready cmd args (some none, n) =
      let (ending, n') = daemon_command cmd args n in (some ending, n')

module _ {N : Type 0} (shell : Shell N) where
  -- What it prints is the same for every outcome but the last line, and left out.
  unfoldable pub login_command : List Bytes → N → Ending × N
  unfolding after_run
  login_command op_flags n =
      after_run (shell.run_program (codes "op" ∷ codes "signin" ∷ op_flags) shell.environ n)

  unfoldable pub vault_method : Option (Bytes × Bytes) → Ending
  vault_method none = exited 2 []
  vault_method (some (address, method)) =
      if method =ᵇ codes "token"
      then exited 0 []
      else if method =ᵇ codes "userpass"
      then exited 0 []
      else exited 1 []

  -- What it prints is left out.
  unfoldable pub vault_login_command : List Bytes → Ending
  unfolding vault_method
  vault_login_command args = vault_method (shell.parse_vault args)

module _ {N : Type 0} (net : Net N) (shell : Shell N) where
  unfoldable pub dispatch : Client → List Bytes → Bytes → List Bytes → N → Option Ending × N
  unfolding login_command vault_login_command when_ready ensure_daemon
  dispatch c op_flags cmd args n =
      if cmd =ᵇ codes "audit"
      then (some (audits args), n)
      else if cmd =ᵇ codes "login"
      then (let (ending, n') = login_command shell op_flags n in (some ending, n'))
      else if cmd =ᵇ codes "vault-login"
      then (some (vault_login_command shell args), n)
      else when_ready net shell c op_flags cmd args (ensure_daemon net c n)

  unfoldable pub with_client :
      Option Client → List Bytes → Bytes → List Bytes → N → Option Ending × N
  unfolding dispatch
  with_client none op_flags cmd args n = (some (exited 1 []), n)
  with_client (some c) op_flags cmd args n = dispatch c op_flags cmd args n

  unfoldable pub with_command :
      Option Client → List Bytes → Option (Bytes × List Bytes) → N → Option Ending × N
  unfolding with_client
  with_command c op_flags none n = (some usage, n)
  with_command c op_flags (some (cmd, args)) n = with_client c op_flags cmd args n

  -- `main` on `os.Args[1:]`.
  unfoldable pub opx_main : Os → FileMap → Bool → Dirs → List Bytes → N → Option Ending × N
  unfolding with_command scan_args new_client
  opx_main os files tls_works dirs args n =
      let g = scan_args args [] in
      with_command (new_client os files tls_works dirs).0 g.op_flags g.command n
