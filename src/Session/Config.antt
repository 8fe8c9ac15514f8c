-- ===== src/Session/Config.antt =====
-- internal/session/config.go. The environment, the configuration file and its decoding, and
-- `time.ParseDuration` are arguments.
pub mod Storage
use opx.Prelude.{Bool, true, ◌||◌, ◌&&◌, ◌≡◌, refl, Option, none, some, [], arith, if◌then◌else◌}
use mathlib.Core.Path.{subst}
use opx.Prelude.Int.{ℤ, pos, ltb_ℤ, leb_ℤ, wrap64, ◌*ℤ◌, ◌≤ℤ◌, ◌<ℤ◌}
use opx.Prelude.Bytes.{Bytes, codes, ◌=ᵇ◌}

abbrev pub second : ℤ
second = pos 1000000000

abbrev pub minute : ℤ
minute = pos 60000000000

abbrev pub default_idle_timeout : ℤ
default_idle_timeout = pos 28800000000000

pub record Config : Type 0 where
  pub session_idle_timeout : ℤ
  pub enable_session_lock : Bool
  pub lock_on_auth_failure : Bool
  pub check_interval : ℤ

abbrev pub default_config : Config
default_config = record {
  session_idle_timeout = default_idle_timeout;
  enable_session_lock = true;
  lock_on_auth_failure = true;
  check_interval = minute;
}

-- A variable that is not set reads as the empty text.
abbrev pub Env : Type 0
Env = Bytes → Bytes

is_on : Bytes → Bool
unfolding ◌=ᵇ◌
is_on v = (v =ᵇ codes "true") || (v =ᵇ codes "1")

or_keep : ℤ → Option ℤ → ℤ
or_keep t none = t
or_keep t (some d) = d

unfoldable pub load_from_env : (Bytes → Option ℤ) → Env → Config → Config
unfolding is_on or_keep
load_from_env parse_duration env c =
    let timeout = env (codes "OPX_SESSION_IDLE_TIMEOUT") in
    let lock = env (codes "OPX_ENABLE_SESSION_LOCK") in
    let lock_on_fail = env (codes "OPX_LOCK_ON_AUTH_FAILURE") in
    record c {
      session_idle_timeout =
          if timeout =ᵇ []
          then c.session_idle_timeout
          else or_keep c.session_idle_timeout (parse_duration timeout);
      enable_session_lock = if lock =ᵇ [] then c.enable_session_lock else is_on lock;
      lock_on_auth_failure =
          if lock_on_fail =ᵇ [] then c.lock_on_auth_failure else is_on lock_on_fail;
    }

pub data ConfigError : Type 0 where
  negative_timeout zero_timeout : ConfigError

-- The configuration afterwards, and the error.
unfoldable pub validate : Config → Config × Option ConfigError
validate c =
    if ltb_ℤ c.session_idle_timeout (pos 0)
    then (c, some negative_timeout)
    else if c.enable_session_lock
        && (leb_ℤ c.session_idle_timeout (pos 0) && leb_ℤ (pos 0) c.session_idle_timeout)
    then (c, some zero_timeout)
    else if leb_ℤ c.check_interval (pos 0)
    then (record c { check_interval = minute }, none)
    else (c, none)

checked : Config × Option ConfigError → Option Config
checked (c, none) = some c
checked (c, some e) = none

-- `file` is what decoding the file makes of the configuration; it is the identity where the file is
-- not there. The errors of the file are ignored.
unfoldable pub load_config : (Bytes → Option ℤ) → Env → (Config → Config) → Option Config
unfolding load_from_env validate checked
load_config parse_duration env file =
    checked (validate (load_from_env parse_duration env (file default_config)))

-- A configuration that the manager can run with.
pub record IsValid (c : Config) : Type 0 where
  pub timeout_nonneg : pos 0 ≤ℤ c.session_idle_timeout
  pub lock_has_timeout : c.enable_session_lock ≡ true → pos 0 <ℤ c.session_idle_timeout
  pub ticks : pos 0 <ℤ c.check_interval

validate-IsValid : (c d : Config) → validate c ≡ (d, none) → IsValid d
unfolding validate
validate-IsValid c d h = ground arith

-- Whatever the file and the environment say, a configuration that is loaded is valid.
pub load_config-IsValid :
    (parse_duration : Bytes → Option ℤ) (env : Env) (file : Config → Config) (c : Config)
    → load_config parse_duration env file ≡ some c
    → IsValid c
unfolding load_config
load_config-IsValid parse_duration env file c h =
    go (validate (load_from_env parse_duration env (file default_config))) refl h
  where
    go :
        (r : Config × Option ConfigError)
        → validate (load_from_env parse_duration env (file default_config)) ≡ r
        → checked r ≡ some c
        → IsValid c
    go (d, none) e q =
        let same : d ≡ c = cc in
        subst IsValid same
          (validate-IsValid (load_from_env parse_duration env (file default_config)) d e)
    go (d, some x) e q = cc

-- cmd/opx-authd/main.go: the flags of the daemon, of which each has a value, its default if the
-- command line does not give it.
pub record SessionFlags : Type 0 where
  pub session_timeout : ℤ
  pub enable_session_lock : Bool
  pub lock_on_auth_failure : Bool

abbrev pub hour : ℤ
hour = pos 3600000000000

or_default : Option Config → Config
or_default none = default_config
or_default (some c) = c

-- The configuration that the daemon makes its session manager from.
unfoldable pub daemon_config : (Bytes → Option ℤ) → Env → (Config → Config) → SessionFlags → Config
unfolding or_default load_config
daemon_config parse_duration env file flags =
    let c = or_default (load_config parse_duration env file) in
    record c {
      session_idle_timeout = wrap64 (flags.session_timeout *ℤ hour);
      enable_session_lock = flags.enable_session_lock;
      lock_on_auth_failure = flags.lock_on_auth_failure;
    }

-- The timeout, the lock and the lock on failure of the daemon are those of its flags, so no two
-- environments and no two files make a difference to them.
pub daemon_config-ignores_env :
    (parse_duration : Bytes → Option ℤ) (env env' : Env) (file file' : Config → Config)
    (flags : SessionFlags)
    → let c = daemon_config parse_duration env file flags in
      let d = daemon_config parse_duration env' file' flags in
      (c.session_idle_timeout ≡ d.session_idle_timeout)
      × (c.enable_session_lock ≡ d.enable_session_lock)
      × (c.lock_on_auth_failure ≡ d.lock_on_auth_failure)
unfolding daemon_config
daemon_config-ignores_env parse_duration env env' file file' flags = (refl, refl, refl)
