-- ===== src/Examples/Lifecycles.antt =====
-- The theorems on the configuration file and on `Start` and `Stop` of the session manager
-- (internal/session) at concrete inputs.
use opx.Prelude.{
  ℕ, zero, suc, ◌≡◌, refl, Bool, true, false, Option, none, some, List, [], ◌∷◌, arith,
}
use opx.Prelude.Int.{ℤ, pos, negsuc}
use opx.Prelude.Bytes.{Bytes, codes, ◌=ᵇ◌}
use opx.Dict.{lookup, insert}
use opx.Paths.{join_path}
use opx.Files.{config_dir}
use opx.Session.Config.{Config, IsValid, load_config, default_config}
use opx.Session.Config.Storage.{
  Members, Json, IsCodec, save_config, load_from_file, load-save_config,
}
use opx.Session.Manager.Monitor.{ticks, ends, receives, turns, then_stop, start, new_channels}
use opx.Session.Manager.Monitor.Stopping.{HasStopped, stop-HasStopped}
use opx.Examples.Clients.{os}

stop-HasStopped_example : HasStopped (
    turns
      (ends ∷ receives ∷ [])
      (turns (ticks ∷ []) (then_stop (turns (ticks ∷ []) (start true new_channels)))))
stop-HasStopped_example = stop-HasStopped true (ticks ∷ []) (ticks ∷ [])

tag : Option ℤ → ℕ
tag none = 0
tag (some (pos n)) = 1
tag (some (negsuc n)) = 2

size : Option ℤ → ℕ
size none = 0
size (some (pos n)) = n
size (some (negsuc n)) = n

number : ℕ → ℕ → Option ℤ
number zero n = none
number (suc zero) n = some (pos n)
number (suc (suc _)) n = some (negsuc n)

switch : Option Bool → ℕ
switch none = 0
switch (some true) = 1
switch (some false) = 2

on : ℕ → Option Bool
on zero = none
on (suc zero) = some true
on (suc (suc _)) = some false

number-tag : (z : Option ℤ) → number (tag z) (size z) ≡ z
unfolding number tag size
number-tag none = refl
number-tag (some (pos n)) = refl
number-tag (some (negsuc n)) = refl

on-switch : (b : Option Bool) → on (switch b) ≡ b
unfolding on switch
on-switch none = refl
on-switch (some true) = refl
on-switch (some false) = refl

written : Members → Bytes
unfolding tag size switch
written j =
    tag j.session_idle_timeout
    ∷ size j.session_idle_timeout
    ∷ switch j.enable_session_lock
    ∷ switch j.lock_on_auth_failure
    ∷ tag j.check_interval
    ∷ size j.check_interval
    ∷ []

read_back : Bytes → Members
unfolding number on
read_back (a ∷ b ∷ c ∷ d ∷ e ∷ g ∷ s) = record {
  session_idle_timeout = number a b;
  enable_session_lock = on c;
  lock_on_auth_failure = on d;
  check_interval = number e g;
}
read_back _ = record {
  session_idle_timeout = none;
  enable_session_lock = none;
  lock_on_auth_failure = none;
  check_interval = none;
}

abbrev json : Json
json = record { marshal_indent = written; unmarshal = read_back }

json-IsCodec : IsCodec os json
unfolding written read_back
json-IsCodec j = (λ i. record {
  session_idle_timeout = number-tag j.session_idle_timeout i;
  enable_session_lock = on-switch j.enable_session_lock i;
  lock_on_auth_failure = on-switch j.lock_on_auth_failure i;
  check_interval = number-tag j.check_interval i;
})

abbrev config : Config
config = record default_config { session_idle_timeout = pos 5; lock_on_auth_failure = false }

config-IsValid : IsValid config
config-IsValid = record {
  timeout_nonneg = omega arith;
  lock_has_timeout = λ e. omega arith;
  ticks = omega arith;
}

abbrev saved : List (Bytes × Bytes)
unfolding written
saved = (codes "/h/.config/op-authd/config.json", 1 ∷ 5 ∷ 1 ∷ 2 ∷ 1 ∷ 60000000000 ∷ []) ∷ []

saves :
    save_config os json false none [] [] config
    ≡ (true, (codes "/h/.config/op-authd", 448) ∷ [], saved)
unfolding save_config config_dir join_path lookup insert written tag size switch ◌=ᵇ◌
saves = refl

load-save_config_example :
    load_config (λ t. none) (λ v. []) (λ d. (load_from_file os json saved [] d).0) ≡ some config
load-save_config_example =
    load-save_config os json (λ t. none) (λ v. []) false none []
      ((codes "/h/.config/op-authd", 448) ∷ []) [] [] saved config json-IsCodec config-IsValid
      (λ v. refl) saves
