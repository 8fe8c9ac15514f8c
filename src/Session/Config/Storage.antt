-- ===== src/Session/Config/Storage.antt =====
-- internal/session/config.go: the configuration file. The text of JSON is a parameter, which has the
-- members that the tags of `Config` name; a member that is not in the text leaves its field.
use opx.Prelude.{
  zero, suc, ◌≡◌, ◌∙◌, refl, sym, ap, Bool, true, false, Option, none, some, [], arith, Bool-cases,
  inl, inr, ℕ, take,
}
use opx.Prelude.Int.{ℤ, pos, negsuc, ◌<ℤ◌}
use opx.Prelude.Bytes.{Bytes, codes, ◌=ᵇ◌}
use opx.Dict.{lookup, insert, lookup-insert_self}
use opx.Paths.{join_path}
use opx.Files.{Os, Dirs, config_dir, make_dir, chmod_dir, xdg_dir}
use opx.Files.Token.{FileMap}
use opx.Session.Config.{
  Config, Env, IsValid, default_config, load_from_env, validate, load_config, checked,
}

pub record Members : Type 0 where
  pub session_idle_timeout : Option ℤ
  pub enable_session_lock : Option Bool
  pub lock_on_auth_failure : Option Bool
  pub check_interval : Option ℤ

pub record Json : Type 0 where
  pub marshal_indent : Members → Bytes
  pub unmarshal : Bytes → Members

-- `omitempty`
unless_zero : ℤ → Option ℤ
unless_zero (pos zero) = none
unless_zero (pos (suc n)) = some (pos (suc n))
unless_zero (negsuc n) = some (negsuc n)

unfoldable pub to_members : Config → Members
unfolding unless_zero
to_members c = record {
  session_idle_timeout = some c.session_idle_timeout;
  enable_session_lock = some c.enable_session_lock;
  lock_on_auth_failure = some c.lock_on_auth_failure;
  check_interval = unless_zero c.check_interval;
}

or_field : {A : Type 0} → A → Option A → A
or_field a none = a
or_field a (some b) = b

unfoldable pub set_members : Config → Members → Config
unfolding or_field
set_members c j = record {
  session_idle_timeout = or_field c.session_idle_timeout j.session_idle_timeout;
  enable_session_lock = or_field c.enable_session_lock j.enable_session_lock;
  lock_on_auth_failure = or_field c.lock_on_auth_failure j.lock_on_auth_failure;
  check_interval = or_field c.check_interval j.check_interval;
}

abbrev pub config_path : Bytes → Bytes
config_path dir = join_path dir (codes "config.json")

module _ (os : Os) (json : Json) where
  decoded : Config → Option Bytes → Config
  unfolding set_members
  decoded c none = c
  decoded c (some content) = set_members c (json.unmarshal content)

  read_in : FileMap → Config → Option Bytes × Dirs → Config × Dirs
  unfolding decoded
  read_in files c (none, dirs) = (c, dirs)
  read_in files c (some dir, dirs) = (decoded c (lookup (config_path dir) files), dirs)

  -- A file that cannot be read is one that is not there; the errors are ignored.
  unfoldable pub load_from_file : FileMap → Dirs → Config → Config × Dirs
  unfolding read_in config_dir
  load_from_file files dirs c = read_in files c (config_dir os dirs)

  -- `os.WriteFile`; a write that fails has written as many bytes as it says.
  write_file : Option ℕ → Bytes → Bytes → FileMap → Bool × FileMap
  write_file none path content files = (true, insert path content files)
  write_file (some n) path content files = (false, insert path (take n content) files)

  saved_in : Bool → Option ℕ → FileMap → Config → Option Bytes × Dirs → Bool × Dirs × FileMap
  unfolding write_file to_members
  saved_in no_open short files c (none, dirs) = (false, dirs, files)
  saved_in true short files c (some dir, dirs) = (false, dirs, files)
  saved_in false short files c (some dir, dirs) =
      let (ok, files') =
        write_file short (config_path dir) (json.marshal_indent (to_members c)) files in
      (ok, dirs, files')

  -- Whether there is no error, and what is left.
  unfoldable pub save_config : Bool → Option ℕ → Dirs → FileMap → Config → Bool × Dirs × FileMap
  unfolding saved_in config_dir
  save_config no_open short dirs files c = saved_in no_open short files c (config_dir os dirs)

  -- Which directory is found does not depend on those that are there.
  config_dir-same : (dirs dirs' : Dirs) → (config_dir os dirs).0 ≡ (config_dir os dirs').0
  unfolding config_dir make_dir chmod_dir
  config_dir-same dirs dirs' =
      let dir = xdg_dir os (codes "XDG_CONFIG_HOME") (codes ".config") in
      elim (Bool-cases (os.mkdir_works dir)) [
        | inl makes ↦ elim (Bool-cases (os.chmod_works dir)) [
          | inl works ↦ rw (makes, works) refl
          | inr fails ↦ rw (makes, fails) refl
        ]
        | inr fails ↦ rw fails refl
      ]

  -- The text of JSON gives back the members that were put into it.
  abbrev pub IsCodec : Type 0
  IsCodec = (j : Members) → json.unmarshal (json.marshal_indent j) ≡ j

  kept_interval : (z y : ℤ) → pos 0 <ℤ z → or_field y (unless_zero z) ≡ z
  unfolding unless_zero or_field
  kept_interval (pos zero) y h = absurd (omega arith)
  kept_interval (pos (suc n)) y h = refl
  kept_interval (negsuc n) y h = refl

  valid-members : (c d : Config) → IsValid c → set_members d (to_members c) ≡ c
  unfolding set_members to_members or_field
  valid-members c d v =
      ap (λ (z : ℤ). record c { check_interval = z })
        (kept_interval c.check_interval d.check_interval v.ticks)

  saved_in-content :
      (no_open : Bool) (short : Option ℕ) (files files' : FileMap) (dirs' : Dirs) (c : Config)
      (r : Option Bytes × Dirs)
      → saved_in no_open short files c r ≡ (true, dirs', files')
      → (dir : Bytes) × (r.0 ≡ some dir)
        × (lookup (config_path dir) files' ≡ some (json.marshal_indent (to_members c)))
  unfolding saved_in write_file
  saved_in-content no_open short files files' dirs' c (none, d) h = absurd (ground arith)
  saved_in-content true short files files' dirs' c (some dir, d) h = absurd (ground arith)
  saved_in-content false (some n) files files' dirs' c (some dir, d) h = absurd (ground arith)
  saved_in-content false none files files' dirs' c (some dir, d) h = (
    dir,
    refl,
    ap (λ (r : Bool × Dirs × FileMap). lookup (config_path dir) r.2) (sym h)
        ∙ lookup-insert_self (config_path dir) (json.marshal_indent (to_members c)) files,
  )

  read_in-content :
      (files : FileMap) (d : Config) (dir content : Bytes) (r : Option Bytes × Dirs)
      → r.0 ≡ some dir
      → lookup (config_path dir) files ≡ some content
      → (read_in files d r).0 ≡ set_members d (json.unmarshal content)
  unfolding read_in decoded
  read_in-content files d dir content (none, dirs) e h = absurd (ground arith)
  read_in-content files d dir content (some x, dirs) e h =
      let same : x ≡ dir = cc in rw (same, h) refl

  valid-checked :
      (parse_duration : Bytes → Option ℤ) (env : Env) (c : Config)
      → ((v : Bytes) → env v ≡ [])
      → IsValid c
      → checked (validate (load_from_env parse_duration env c)) ≡ some c
  unfolding checked validate load_from_env ◌=ᵇ◌
  valid-checked parse_duration env c blank v =
      rw
        (
          blank (codes "OPX_SESSION_IDLE_TIMEOUT"),
          blank (codes "OPX_ENABLE_SESSION_LOCK"),
          blank (codes "OPX_LOCK_ON_AUTH_FAILURE"),
        )
        (ground (arith, v.timeout_nonneg, v.lock_has_timeout, v.ticks))

  -- A valid configuration that has been saved without an error is what is loaded afterwards, with no variables set,
  -- whichever directories there are: where the text of JSON gives back the members that were put into it.
  pub load-save_config :
      (parse_duration : Bytes → Option ℤ) (env : Env) (no_open : Bool) (short : Option ℕ)
      (dirs dirs' dirs'' : Dirs) (files files' : FileMap) (c : Config)
      → IsCodec
      → IsValid c
      → ((v : Bytes) → env v ≡ [])
      → save_config no_open short dirs files c ≡ (true, dirs', files')
      → load_config parse_duration env (λ d. (load_from_file files' dirs'' d).0) ≡ some c
  unfolding load_config save_config load_from_file
  load-save_config parse_duration env no_open short dirs dirs' dirs'' files files' c codec valid
        blank saved =
      let (dir, found, there) =
        saved_in-content no_open short files files' dirs' c (config_dir os dirs) saved in
      let again = config_dir-same dirs'' dirs ∙ found in
      let back =
        read_in-content files' default_config dir _ (config_dir os dirs'') again there
        ∙ ap (set_members default_config) (codec (to_members c))
        ∙ valid-members c default_config valid in
      ap (λ x. checked (validate (load_from_env parse_duration env x))) back
      ∙ valid-checked parse_duration env c blank valid
