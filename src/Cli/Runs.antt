-- ===== src/Cli/Runs.antt =====
-- What a run of `opx` does, from its arguments to the daemon and back.
use opx.Prelude.{
  ◌≡◌, ◌≢◌, refl, Bool, false, Option, Bool-cases, inl, inr, if◌then◌else◌, some, List, [], ◌∷◌,
  ◌++◌, map, All,
}
use opx.Prelude.Bytes.{Bytes, codes, ◌=ᵇ◌}
use mathlib.Core.List.{append-nil}
use opx.Strings.{trim_space, has_prefix, has_suffix}
use opx.Strings.Laws.{Lacks}
use opx.Dict.{Dict}
use opx.Protocol.{ReadResponse}
use opx.Backend.{Result, ok, err}
use opx.Daemon.{Daemon}
use opx.Server.{Server, read_one_with_flags}
use opx.Files.{Os, Dirs}
use opx.Files.Token.{FileMap}
use opx.Client.{Client, Attempt, Net, failed, made, new_client, resolve_with_flags}
use opx.Client.Wire.{Decoder, Moment, IsCoded, on_server, seen, client_ready, client_read-reads}
use opx.Client.Token.{new_client-token}
use opx.Cli.{Ending, exited, read_output, assignments}
use opx.Cli.Args.{scan_args-accounts, env_map-pairs, insert_all, split_args-append}
use opx.Cli.Commands.{
  Shell, Ran, finished, unstarted, ran_code, after_one, after_run, read_command, daemon_command,
  when_ready, dispatch, with_client, with_command, opx_main, run_command, run_split, run_parsed,
  run_mapped, run_resolved,
}

-- How `opx read` ends for what the daemon's read gives.
abbrev pub read_ending : Result ReadResponse → Ending
read_ending (ok v) = exited 0 (read_output v.value)
read_ending (err e) = exited 1 []

-- What is printed: the value with a newline at its end, which is added where there is none.
abbrev pub with_newline : Bytes → Bytes
with_newline value = if has_suffix value (10 ∷ []) then value else value ++ 10 ∷ []

-- The pieces that are printed, one behind the other.
abbrev pub printed : List Bytes → Bytes
printed [] = []
printed (piece ∷ pieces) = piece ++ printed pieces

-- `opx read` prints the value and ends with the code 0, or, for an error, prints nothing and ends with the code 1.
abbrev pub EndsRead : Result ReadResponse → Option Ending → Type 0
EndsRead (ok v) o =
    (pieces : List Bytes) × (o ≡ some (exited 0 pieces)) × (printed pieces ≡ with_newline v.value)
EndsRead (err e) o = o ≡ some (exited 1 [])

pub read_ending-EndsRead : (r : Result ReadResponse) → EndsRead r (some (read_ending r))
unfolding read_output
read_ending-EndsRead (ok v) = (
  read_output v.value,
  refl,
  elim (Bool-cases (has_suffix v.value (10 ∷ []))) [
    | inl there ↦ rw there (append-nil v.value)
    | inr missing ↦ rw missing refl
  ],
)
read_ending-EndsRead (err e) = refl

after_one-seen :
    {N : Type 0} (r : Result ReadResponse) (n : N) → after_one (seen r, n) ≡ (read_ending r, n)
unfolding after_one
after_one-seen (ok v) n = refl
after_one-seen (err e) n = refl

module _ {E : Type 0} (s : Server E) (json : Decoder) (t : Moment) (outside : Net (Daemon E))
    (shell : Shell (Daemon E)) (os : Os) where
  -- `opx` with accounts, the subcommand `read` and one reference that is not blank, on a machine where the token file
  -- that a new client reads holds the token of the running daemon, which is not empty: it prints the value that the
  -- daemon's read of the trimmed reference gives, with the accounts as the flags, and ends with the code 0, or with 1
  -- where that read fails. The daemon is as after the read. JSON is taken to give back the request and the response.
  pub opx_main-read :
      (files : FileMap) (tls : Bool) (dirs dirs' : Dirs) (c : Client) (names : List Bytes)
      (ref : Bytes) (d : Daemon E)
      → IsCoded json outside
          (record { ref = ref; flags = map (λ a. codes "--account=" ++ a) names })
          (read_one_with_flags s t.peer
            (trim_space ref)
            (map (λ a. codes "--account=" ++ a) names)
            t.clock
            d).0
      → new_client os files tls dirs ≡ (some c, dirs')
      → c.token ≡ s.token
      → s.token ≢ []
      → All (λ a. a ≢ []) names
      → (trim_space ref =ᵇ []) ≡ false
      → let accounts = map (λ a. codes "--account=" ++ a) names in
        let (r, d') = read_one_with_flags s t.peer (trim_space ref) accounts t.clock d in
        opx_main
          (on_server s json t outside)
          shell
          os
          files
          tls
          dirs
          (accounts ++ codes "read" ∷ ref ∷ [])
          d
        ≡ (some (read_ending r), d')
  unfolding opx_main with_command with_client dispatch when_ready daemon_command read_command ◌=ᵇ◌
      has_prefix
  opx_main-read files tls dirs dirs' c names ref d codec new same full named h =
      let net = on_server s json t outside in
      let accounts = map (λ a. codes "--account=" ++ a) names in
      let (path, p, q, base) = new_client-token os files tls c dirs dirs' new in
      let (r, d') = read_one_with_flags s t.peer (trim_space ref) accounts t.clock d in
      rw
        (
          scan_args-accounts names (codes "read") (ref ∷ []) [] named refl,
          new,
          client_ready s json t outside c base same full d,
          client_read-reads s json t outside c base same full ref accounts d codec h,
          after_one-seen r d',
        )
        refl

-- `NAME=VALUE` for each variable.
assignments-map :
    (env : Dict Bytes) → assignments env ≡ map (λ (p : Bytes × Bytes). p.0 ++ b'=' ∷ p.1) env
unfolding assignments
assignments-map [] = refl
assignments-map (kv ∷ env) = (λ i. (kv.0 ++ b'=' ∷ kv.1) ∷ assignments-map env i)

-- How `opx run` ends after its program: with the exit code of the program, or with 1 where it cannot be run.
abbrev pub Ends : Ending → Ran → Type 0
Ends ending (finished code) = ending ≡ exited code []
Ends ending unstarted = ending ≡ exited 1 []

ran-Ends : (r : Ran) → Ends (exited (ran_code r) []) r
unfolding ran_code
ran-Ends (finished code) = refl
ran-Ends unstarted = refl

module _ {N : Type 0} (net : Net N) (shell : Shell N) (c : Client) (op_flags : List Bytes) where
  -- What `opx run` does with what the daemon resolves: with an error it ends with the code 1, and no program runs.
  -- Otherwise the program runs once, with `NAME=VALUE` for each variable behind the environment.
  abbrev pub RunsWith : List Bytes → Attempt (Dict Bytes) × N → Ending × N → Type 0
  RunsWith args (failed e, n) r = r ≡ (exited 1 [], n)
  RunsWith args (made env, n) (ending, n') =
      let (ran, n'') =
        shell.run_program args (shell.environ ++ map (λ (p : Bytes × Bytes). p.0 ++ b'=' ∷ p.1) env)
          n in
      Ends ending ran × (n' ≡ n'')

  run_resolved-RunsWith :
      (args : List Bytes) (r : Attempt (Dict Bytes) × N)
      → RunsWith args r (run_resolved net shell c op_flags args r)
  unfolding run_resolved after_run
  run_resolved-RunsWith args (failed e, n) = refl
  run_resolved-RunsWith args (made env, n) = rw (assignments-map env) (ran-Ends _, refl)

  -- `opx run` with flags that parse as mappings `NAME=REF`, whose names have no `=`, and a program after the first
  -- `--`: the daemon is asked to resolve the mappings, of which the last of a name counts. Where it does, the program
  -- runs once, with its arguments and with `NAME=VALUE` for each variable behind the environment, and `opx` ends with
  -- its exit code, or with 1 where it cannot be run; where it does not, no program runs, and `opx` ends with the code 1.
  pub run_command-RunsWith :
      (flags : List Bytes) (exe : Bytes) (args : List Bytes) (pairs : Dict Bytes) (n : N)
      → All (λ a. a ≢ codes "--") flags
      → shell.parse_run flags ≡ some (map (λ (p : Bytes × Bytes). p.0 ++ b'=' ∷ p.1) pairs)
      → All (λ (p : Bytes × Bytes). Lacks b'=' p.0) pairs
      → RunsWith
          (exe ∷ args)
          (resolve_with_flags net c (insert_all pairs []) op_flags n)
          (run_command net shell c op_flags (flags ++ codes "--" ∷ exe ∷ args) n)
  unfolding run_command run_split run_parsed run_mapped
  run_command-RunsWith flags exe args pairs n split parsed lacks =
      rw (split_args-append flags (exe ∷ args) split, parsed, env_map-pairs pairs [] lacks)
        (run_resolved-RunsWith (exe ∷ args)
          (resolve_with_flags net c (insert_all pairs []) op_flags n))
