-- ===== src/Examples/Servers.antt =====
-- The theorems on internal/server at concrete inputs.
use opx.Prelude.{◌⊎◌, ℕ, ◌≡◌, ◌≢◌, refl, true, none, some, List, [], ◌∷◌, arith, map}
use opx.Prelude.Int.{ℤ, pos, ◌+ℤ◌, ◌≤ℤ◌}
use opx.Prelude.Bytes.{Bytes, codes}
use opx.Dict.{lookup}
use opx.Cache.{new_cache, get, inc_in_flight, inc_miss}
use opx.Cache.Ownership.{IsValid, new_cache-IsValid}
use opx.Policy.{Policy, default_policy}
use opx.Security.{PeerInfo, System, linux}
use opx.Backend.{ok, Backend}
use opx.Daemon.{Daemon}
use opx.Server.{
  Server, Clock, cache_key, on_cache, check_access, read_one_with_flags, fresh_response,
  peer_conn_context, accepted,
}
use opx.Server.Keys.{IsPlain}
use opx.Server.Reads.{answer, entered, read_stores}
use opx.Server.Transparent.{Request, Reads, serve, serve-uncached, value_of, uncached}
use opx.Server.Handlers.{Handler, auth, text, reply}
use opx.Server.Handlers.Guards.{auth_lem, policy_not_enforced, unauthorized}

abbrev strict : Policy
strict = record { allow = []; default_deny = true }

-- A backend that reads every reference as itself.
abbrev pub echo : Backend (Daemon ℕ)
echo = record { name = codes "echo"; read_ref_with_flags = λ ref flags now d. (ok ref, d) }

abbrev pub server : Server ℕ
server = record {
  sock_path = codes "/run/s";
  token = codes "t";
  backend = echo;
  policy = strict;
  policy_path = [];
  audit_enabled = true;
  sha256 = λ b. b;
}

abbrev peer : PeerInfo
peer = record { pid = pos 7; uid = 0; gid = 0; path = codes "/bin/a" }

abbrev ref : Bytes
ref = codes "op://V/I/f"

abbrev pub clock : Clock
clock = record {
  decided = pos 10;
  looked_up = pos 11;
  answered = pos 12;
  looked_again = pos 13;
  answered_again = pos 14;
  called = pos 15;
  stored = pos 16;
  stored_again = pos 17;
  resolved = pos 18;
}

abbrev pub daemon : Daemon ℕ
daemon = record {
  session = none;
  world = record { cache = new_cache (pos 100); outside = 0 };
  audit_log = [];
}

echo-Reads : Reads echo (λ r fs. ok r)
echo-Reads r fs now d = (refl, refl)

ref-IsPlain : IsPlain ref []
ref-IsPlain = (ground arith, tt)

daemon-IsValid : IsValid (entered server none ref [] clock daemon).world.cache
unfolding on_cache inc_in_flight inc_miss check_access
daemon-IsValid = new_cache-IsValid (pos 100)

soon : pos 20 ≤ℤ clock.stored +ℤ (entered server none ref [] clock daemon).world.cache.ttl
unfolding on_cache inc_in_flight inc_miss check_access ◌+ℤ◌
soon = ground arith

abbrev twice : List Request
twice =
    record { peer = none; ref = ref; flags = []; clock = clock }
    ∷ record { peer = none; ref = ref; flags = []; clock = clock }
    ∷ record { peer = some peer; ref = ref; flags = []; clock = clock }
    ∷ []

serve-uncached_example :
    map value_of (serve server twice daemon).0 ≡ map (uncached server (λ r fs. ok r)) twice
serve-uncached_example =
    serve-uncached (λ r fs. ok r) server echo-Reads twice daemon (pos 100) refl
      (ref-IsPlain, (ref-IsPlain, (ref-IsPlain, tt)))

granted : (s : Server ℕ) → answer s none ref ≡ true
unfolding answer
granted s = refl

absent : (now : ℤ) → get daemon.world.cache (cache_key ref []) now ≡ none
unfolding get lookup
absent now = refl

read_stores_example :
    let d' = entered server none ref [] clock daemon in
    let out = read_one_with_flags server none ref [] clock daemon in
    (out.0 ≡ ok (fresh_response ref ref d'.world.cache.ttl clock.resolved))
    × (get out.1.world.cache (cache_key ref []) (pos 20)
        ≡ some (ref, clock.stored +ℤ d'.world.cache.ttl, clock.stored_again))
read_stores_example =
    read_stores server none ref [] clock daemon (entered server none ref [] clock daemon) ref
      (pos 20) (granted server) (absent (pos 11)) (absent (pos 13)) refl daemon-IsValid soon

abbrev system : System
system = record {
  goos = linux;
  syscall_conn = true;
  control = true;
  peer_pid = some (pos 7);
  read_link = λ p. some (codes "/bin/a");
  ps_comm = λ p. none;
}

policy_not_enforced_example :
    let peer = peer_conn_context system accepted in
    (peer ≡ none)
    × (read_one_with_flags server peer ref [] clock daemon
        ≡ read_one_with_flags (record server { policy = default_policy }) peer ref [] clock daemon)
policy_not_enforced_example = policy_not_enforced server default_policy system ref [] clock daemon

abbrev next : Handler ℕ
next d = (reply (text []), record d { audit_log = [] })

auth_lem_example :
    ((codes "t" ≡ server.token)
      × (server.token ≢ [])
      × (auth server (codes "t") next daemon ≡ next daemon))
    ⊎ (((codes "t" ≢ server.token) ⊎ (server.token ≡ []))
        × (auth server (codes "t") next daemon ≡ (unauthorized, daemon)))
auth_lem_example = auth_lem server (codes "t") next daemon
