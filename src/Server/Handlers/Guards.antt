-- ===== src/Server/Handlers/Guards.antt =====
-- What guards the handlers: the token, and the policy.
use opx.Prelude.{arith, ◌⊎◌, ◌≡◌, ◌≢◌, refl, ap, Option, none, some, List, [], Bool-cases, inl, inr}
use opx.Prelude.Bytes.{=ᵇ_iff, Bytes, codes, ◌=ᵇ◌, =ᵇ_ne, =ᵇ_refl}
use opx.Cache.{Found, get, inc_miss, inc_in_flight}
use opx.Policy.{Policy}
use opx.Security.{System}
use opx.Daemon.{Daemon}
use opx.Server.{
  Server, Clock, peer_conn_context, accepted, read_one_with_flags, read_granted, read_found,
  check_access, fly, fly_found, leaving, on_cache, cache_key,
}
use opx.Server.Handlers.{Response, Handler, text, auth}

abbrev pub unauthorized : Response
unauthorized = record { code = 401; body = text (codes "unauthorized") }

module _ {E : Type 0} (s : Server E) (tok : Bytes) (next : Handler E) (d : Daemon E) where
  -- Either the request has the server's token, that token is not empty, and the handler runs; or one
  -- of the two is not so, the answer is 401, and the daemon stays as it is.
  pub auth_lem :
      ((tok ≡ s.token) × (s.token ≢ []) × (auth s tok next d ≡ next d))
      ⊎ (((tok ≢ s.token) ⊎ (s.token ≡ [])) × (auth s tok next d ≡ (unauthorized, d)))
  unfolding auth
  auth_lem = elim (Bool-cases (tok =ᵇ s.token)) [
    | inl same ↦ with_token ((=ᵇ_iff tok s.token).0 same)
    | inr differ ↦
        let ne : tok ≢ s.token = ground (arith, differ, =ᵇ_iff tok s.token) in
        inr (inl ne, refused ne)
  ]
    where
      refused : tok ≢ s.token → auth s tok next d ≡ (unauthorized, d)
      refused ne = elim (Bool-cases (tok =ᵇ [])) [
        | inl q ↦ rw q refl
        | inr q ↦ rw (q, =ᵇ_ne tok s.token ne) refl
      ]

      with_token :
          tok ≡ s.token
          → ((tok ≡ s.token) × (s.token ≢ []) × (auth s tok next d ≡ next d))
            ⊎ (((tok ≢ s.token) ⊎ (s.token ≡ [])) × (auth s tok next d ≡ (unauthorized, d)))
      with_token e = elim (Bool-cases (s.token =ᵇ [])) [
        | inl q ↦ inr (inr ((=ᵇ_iff s.token []).0 q), rw (e, q) refl)
        | inr q ↦ inl (
          e,
          (λ none_set. ground (arith, q, none_set, =ᵇ_iff s.token [])),
          rw (e, q, =ᵇ_refl s.token) refl,
        )
      ]

module _ {E : Type 0} (s : Server E) (other : Policy) (key ref : Bytes) (flags : List Bytes)
    (t : Clock) where
  fly_found_same :
      (d : Daemon E) (o : Option Found)
      → fly_found s key ref flags t d o
        ≡ fly_found (record s { policy = other }) key ref flags t d o
  unfolding fly_found
  fly_found_same d none = refl
  fly_found_same d (some r) = refl

  read_found_same :
      (d : Daemon E) (o : Option Found)
      → read_found s key ref flags t d o
        ≡ read_found (record s { policy = other }) key ref flags t d o
  unfolding read_found fly
  read_found_same d none =
      let d' = on_cache (λ c. inc_in_flight (inc_miss c)) d in
      ap leaving (fly_found_same d' (get d'.world.cache key t.looked_again))
  read_found_same d (some r) = refl

-- The connections that the daemon accepts are wrapped by TLS, and have no peer; a read that comes
-- through one is the same whatever the policy.
pub policy_not_enforced :
    {E : Type 0} (s : Server E) (other : Policy) (sys : System) (ref : Bytes) (flags : List Bytes)
    (t : Clock) (d : Daemon E)
    → let peer = peer_conn_context sys accepted in
      (peer ≡ none)
      × (read_one_with_flags s peer ref flags t d
          ≡ read_one_with_flags (record s { policy = other }) peer ref flags t d)
unfolding read_one_with_flags read_granted check_access peer_conn_context
policy_not_enforced s other sys ref flags t d = (
  refl,
  read_found_same s other (cache_key ref flags) ref flags t d
      (get d.world.cache (cache_key ref flags) t.looked_up),
)
