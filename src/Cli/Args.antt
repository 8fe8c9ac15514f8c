-- ===== src/Cli/Args.antt =====
-- What the command line finds in its arguments.
use mathlib.Core.List.{append_assoc, append-nil}
use opx.Prelude.{
  ◌≡◌, ◌≢◌, ◌⊎◌, refl, true, false, Option, none, some, List, [], ◌∷◌, ◌++◌, map, arith, All,
  Bool-cases, inl, inr, if◌then◌else◌,
}
use opx.Prelude.Bytes.{Bytes, codes, ◌=ᵇ◌, =ᵇ_iff, =ᵇ_ne, =ᵇ_refl}
use opx.Strings.{has_prefix}
use opx.Strings.Laws.{Lacks, has_prefix-append, trim_prefix-append, split_two-append}
use opx.Dict.{Dict, insert}
use opx.Cli.{
  Globals, Seen, flag, subcommand, account_flag, spaced_account, see_arg, go_on, scan_args,
  put_mapping, env_map, before, split_args,
}

-- The first argument without two dashes in front, with those after it.
abbrev pub first_bare : List Bytes → Option (Bytes × List Bytes)
first_bare [] = none
first_bare (a ∷ args) =
    let rest = first_bare args in if has_prefix a (codes "--") then rest else some (a, args)

has_prefix-account :
    (s : Bytes) → has_prefix s (codes "--account=") ≡ true → has_prefix s (codes "--") ≡ true
unfolding has_prefix
has_prefix-account [] h = absurd (ground arith)
has_prefix-account (a ∷ []) h = ground arith
has_prefix-account (a ∷ b ∷ s) h = ground arith

go_on_flag :
    (scan : List Bytes → Globals) (flags : List Bytes) (arg : Bytes) (rest : List Bytes)
    (o : Option (Bytes × List Bytes))
    → ((fs : List Bytes) → (scan fs).command ≡ o)
    → (x : Seen)
    → ((has_prefix arg (codes "--") ≡ true) × (x ≢ subcommand))
      ⊎ ((has_prefix arg (codes "--") ≡ false) × (x ≡ subcommand))
    → (go_on scan flags arg rest x).command
      ≡ (if has_prefix arg (codes "--") then o else some (arg, rest))
unfolding go_on
go_on_flag scan flags arg rest o h (flag more) (inl (p, n)) = rw p (h (flags ++ more))
go_on_flag scan flags arg rest o h (flag more) (inr (p, n)) = absurd (ground arith)
go_on_flag scan flags arg rest o h subcommand (inl (p, n)) = absurd (n refl)
go_on_flag scan flags arg rest o h subcommand (inr (p, n)) = rw p refl

spaced_flag : (rest : List Bytes) → spaced_account rest ≢ subcommand
unfolding spaced_account
spaced_flag [] = ground arith
spaced_flag (a ∷ rest) = ground arith

see-dashes :
    (arg : Bytes) (rest : List Bytes)
    → let x = see_arg arg rest in
      ((has_prefix arg (codes "--") ≡ true) × (x ≢ subcommand))
      ⊎ ((has_prefix arg (codes "--") ≡ false) × (x ≡ subcommand))
unfolding see_arg
see-dashes arg rest = elim (Bool-cases (has_prefix arg (codes "--account="))) [
  | inl p ↦ inl (has_prefix-account arg p, rw p (ground arith))
  | inr p ↦ elim (Bool-cases (arg =ᵇ codes "--account")) [
    | inl q ↦ inl (
      rw ((=ᵇ_iff arg (codes "--account")).0 q) (has_prefix-append (codes "--") (codes "account")),
      rw (p, q) (spaced_flag rest),
    )
    | inr q ↦ elim (Bool-cases (has_prefix arg (codes "--"))) [
      | inl r ↦ inl (r, rw (p, q, r) (ground arith))
      | inr r ↦ inr (r, rw (p, q, r) refl)
    ]
  ]
]

-- The subcommand is the first argument that does not begin with two dashes, whatever stands before it: also where
-- that is the value of a flag, as after `--account`.
pub scan_args-first_bare :
    (args flags : List Bytes) → (scan_args args flags).command ≡ first_bare args
unfolding scan_args
scan_args-first_bare [] flags = refl
scan_args-first_bare (arg ∷ rest) flags =
    go_on_flag (scan_args rest) flags arg rest (first_bare rest) (scan_args-first_bare rest)
      (see_arg arg rest) (see-dashes arg rest)

see-equals :
    (a : Bytes) (rest : List Bytes)
    → a ≢ []
    → see_arg (codes "--account=" ++ a) rest ≡ flag ((codes "--account=" ++ a) ∷ [])
unfolding see_arg account_flag
see-equals a rest n =
    rw
      (
        has_prefix-append (codes "--account=") a,
        trim_prefix-append (codes "--account=") a,
        =ᵇ_ne a [] n,
      )
      refl

-- Accounts given as `--account=NAME`, none of them empty, are passed on in their order, and the arguments after the
-- subcommand are left to it.
pub scan_args-accounts :
    (names : List Bytes) (cmd : Bytes) (rest flags : List Bytes)
    → All (λ a. a ≢ []) names
    → has_prefix cmd (codes "--") ≡ false
    → scan_args (map (λ a. codes "--account=" ++ a) names ++ cmd ∷ rest) flags ≡ record {
      op_flags = flags ++ map (λ a. codes "--account=" ++ a) names;
      command = some (cmd, rest);
    }
unfolding scan_args go_on
scan_args-accounts [] cmd rest flags all bare = elim (see-dashes cmd rest) [
  | inl (p, n) ↦ absurd (ground arith)
  | inr (p, e) ↦ rw (e, append-nil flags) refl
]
scan_args-accounts (a ∷ names) cmd rest flags all bare =
    rw
      (
        see-equals a (map (λ a. codes "--account=" ++ a) names ++ cmd ∷ rest) all.0,
        scan_args-accounts names cmd rest (flags ++ (codes "--account=" ++ a) ∷ []) all.1 bare,
      )
      (simp append_assoc)

abbrev pub insert_all : Dict Bytes → Dict Bytes → Dict Bytes
insert_all [] env = env
insert_all ((name, ref) ∷ pairs) env = insert_all pairs (insert name ref env)

-- Mappings `NAME=REF` whose names have no `=` give every name its reference, also where the reference has an `=`; a
-- later mapping of a name takes the place of an earlier one.
pub env_map-pairs :
    (pairs env : Dict Bytes)
    → All (λ (p : Bytes × Bytes). Lacks b'=' p.0) pairs
    → env_map (map (λ (p : Bytes × Bytes). p.0 ++ b'=' ∷ p.1) pairs) env
      ≡ some (insert_all pairs env)
unfolding env_map put_mapping
env_map-pairs [] env h = refl
env_map-pairs ((name, ref) ∷ pairs) env h =
    rw (split_two-append b'=' name ref h.0) (env_map-pairs pairs (insert name ref env) h.1)

-- The arguments of `run` are split at the first `--`.
pub split_args-append :
    (l r : List Bytes)
    → All (λ a. a ≢ codes "--") l
    → split_args (l ++ codes "--" ∷ r) ≡ some (l, r)
unfolding split_args before
split_args-append [] r h = rw (=ᵇ_refl (codes "--")) refl
split_args-append (a ∷ l) r h = rw (=ᵇ_ne a (codes "--") h.0, split_args-append l r h.1) refl
