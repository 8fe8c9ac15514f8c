-- ===== src/Server/Transparent.antt =====
-- The cache of the server against a server without one.
use opx.Prelude.{
  ◌≡◌, refl, sym, ap, ◌∙◌, true, Option, none, some, List, [], ◌∷◌, arith, All, Option-cases,
  Bool-cases, inl, inr, if◌then◌else◌, map,
}
use opx.Prelude.Int.{ℤ, pos, ◌+ℤ◌, ltb_ℤ}
use opx.Prelude.Bytes.{Bytes, ◌=ᵇ◌, =ᵇ_iff}
use opx.Cache.{
  Cache, Found, new_cache, get, set_value, inc_hit, inc_miss, inc_in_flight, dec_in_flight,
}
use opx.Cache.Ownership.{IsValid, set_value-IsValid, new_cache-IsValid}
use opx.Cache.Refinement.{view, fresh, get-view, view-set_value}
use opx.Dict.{lookup}
use opx.Security.{PeerInfo}
use opx.Protocol.{ReadResponse}
use opx.Backend.{Result, ok, err, Backend, access_denied}
use opx.Daemon.{Daemon}
use opx.Server.{
  Server, Clock, cache_key, on_cache, read_one_with_flags, store_result, fly, fly_found, leaving,
  from_cache_response, fresh_response,
}
use opx.Server.Keys.{IsPlain, cache_key_inj}
use opx.Server.Reads.{answer, check_access_lem, entered, missed, read_hit, read_denied}

-- One read: who asks for what, and when.
pub record Request : Type 0 where
  pub peer : Option PeerInfo
  pub ref : Bytes
  pub flags : List Bytes
  pub clock : Clock

module _ {E : Type 0} (s : Server E) where
  -- Reads one after the other, and their answers.
  unfoldable pub serve : List Request → Daemon E → List (Result ReadResponse) × Daemon E
  serve [] d = ([], d)
  serve (q ∷ qs) d =
      let (r, d') = read_one_with_flags s q.peer q.ref q.flags q.clock d in
      let (rs, d'') = serve qs d' in (r ∷ rs, d'')

unfoldable pub value_of : Result ReadResponse → Result Bytes
value_of (ok r) = ok r.value
value_of (err e) = err e

-- The server without a cache, over a backend that reads `f`.
abbrev pub uncached :
    {E : Type 0} → Server E → (Bytes → List Bytes → Result Bytes) → Request → Result Bytes
uncached s f q = if answer s q.peer q.ref then f q.ref q.flags else err access_denied

-- A backend that reads `f`, at any time and in any state, and leaves the cache alone.
abbrev pub Reads : {E : Type 0} → Backend (Daemon E) → (Bytes → List Bytes → Result Bytes) → Type 0
Reads b f =
    (ref : Bytes) (flags : List Bytes) (now : ℤ) (d : Daemon _)
    → ((b.read_ref_with_flags ref flags now d).0 ≡ f ref flags)
      × ((b.read_ref_with_flags ref flags now d).1.world.cache ≡ d.world.cache)

module _ (f : Bytes → List Bytes → Result Bytes) where
  -- What the cache holds under the key of a plain read is what `f` reads.
  pub record IsCoherent (c : Cache) : Type 0 where
    pub valid : IsValid c
    pub held :
        (ref : Bytes) (flags : List Bytes) (r : Found)
        → IsPlain ref flags
        → view c (cache_key ref flags) ≡ some r
        → f ref flags ≡ ok r.0

  pub hit-IsCoherent : (c : Cache) → IsCoherent c → IsCoherent (inc_hit c)
  unfolding inc_hit view
  hit-IsCoherent c h = record { valid = h.valid; held = λ ref flags r p q. h.held ref flags r p q }

  enter-IsCoherent : (c : Cache) → IsCoherent c → IsCoherent (inc_in_flight (inc_miss c))
  unfolding inc_in_flight inc_miss view
  enter-IsCoherent c h = record { valid = h.valid; held = h.held }

  pub leave-IsCoherent : (c : Cache) → IsCoherent c → IsCoherent (dec_in_flight c)
  unfolding dec_in_flight view
  leave-IsCoherent c h = elim (Bool-cases (ltb_ℤ (pos 0) c.inflight)) [
    | inl q ↦ rw q (record { valid = h.valid; held = h.held })
    | inr q ↦ rw q h
  ]

  pub set-IsCoherent :
      (c : Cache) (ref : Bytes) (flags : List Bytes) (v : Bytes) (now now' : ℤ)
      → IsPlain ref flags
      → f ref flags ≡ ok v
      → IsCoherent c
      → IsCoherent (set_value c (cache_key ref flags) v now now')
  set-IsCoherent c ref flags v now now' p e h = record {
    valid = set_value-IsValid c (cache_key ref flags) v now now' h.valid;
    held = λ ref' flags' r p' q. held_after ref' flags' r p' (
        rw (view-set_value c (cache_key ref flags) v now now' (cache_key ref' flags') h.valid) at
          q);
  }
    where
      same_key :
          (ref' : Bytes) (flags' : List Bytes) (r : Found)
          → (ref ≡ ref') × (flags ≡ flags')
          → some (v, now +ℤ c.ttl, now') ≡ some r
          → f ref' flags' ≡ ok r.0
      same_key ref' flags' r (er, ef) q = rw (sym er, sym ef) (e ∙ ap ok (value_at q))
        where
          value_or : Option Found → Bytes
          value_or none = []
          value_or (some r) = r.0

          value_at : some (v, now +ℤ c.ttl, now') ≡ some r → v ≡ r.0
          value_at q = ap value_or q

      held_after :
          (ref' : Bytes) (flags' : List Bytes) (r : Found)
          → IsPlain ref' flags'
          → (if cache_key ref flags =ᵇ cache_key ref' flags'
              then some (v, now +ℤ c.ttl, now')
              else view c (cache_key ref' flags'))
            ≡ some r
          → f ref' flags' ≡ ok r.0
      held_after ref' flags' r p' q =
          elim (Bool-cases (cache_key ref flags =ᵇ cache_key ref' flags')) [
            | inl t ↦
                same_key ref' flags' r
                  (cache_key_inj ref ref' flags flags' p p'
                    ((=ᵇ_iff (cache_key ref flags) (cache_key ref' flags')).0 t))
                  (rw t at q)
            | inr t ↦ h.held ref' flags' r p' (rw t at q)
          ]

  pub fresh-some : (now : ℤ) (o : Option Found) (r : Found) → fresh now o ≡ some r → o ≡ some r
  fresh-some now none r h = h
  fresh-some now (some (v, exp, cached)) r h = ground arith

  pub got :
      (c : Cache) (ref : Bytes) (flags : List Bytes) (now : ℤ) (r : Found)
      → IsPlain ref flags
      → IsCoherent c
      → get c (cache_key ref flags) now ≡ some r
      → ok r.0 ≡ f ref flags
  got c ref flags now r p h g = sym (
      h.held ref flags r p (
        fresh-some now (view c (cache_key ref flags)) r
          (sym (get-view c (cache_key ref flags) now) ∙ g)))

  module _ {E : Type 0} (s : Server E) (pure : Reads s.backend f) where
    -- The answer is that of `f`, and the cache holds what `f` reads.
    abbrev IsRight : Result Bytes → Result ReadResponse × Daemon E → Type 0
    IsRight v (r, d) = (value_of r ≡ v) × IsCoherent d.world.cache

    store-IsRight :
        (ref : Bytes) (flags : List Bytes) (t : Clock) (r : Result Bytes × Daemon E)
        → IsPlain ref flags
        → r.0 ≡ f ref flags
        → IsCoherent r.1.world.cache
        → IsRight (f ref flags) (store_result (cache_key ref flags) ref t r)
    unfolding store_result on_cache fresh_response value_of
    store-IsRight ref flags t (err e, d) p h c = (h, c)
    store-IsRight ref flags t (ok v, d) p h c =
        (h, set-IsCoherent d.world.cache ref flags v t.stored t.stored_again p (sym h) c)

    fly-IsRight :
        (ref : Bytes) (flags : List Bytes) (t : Clock) (d : Daemon E)
        → IsPlain ref flags
        → IsCoherent d.world.cache
        → IsRight (f ref flags) (fly s (cache_key ref flags) ref flags t d)
    unfolding fly on_cache from_cache_response value_of
    fly-IsRight ref flags t d p c =
        elim (Option-cases (get d.world.cache (cache_key ref flags) t.looked_again)) [
          | inl e ↦
              let (v, same) = pure ref flags t.called d in
              rw (e, fly_found)
                (store-IsRight ref flags t (s.backend.read_ref_with_flags ref flags t.called d) p v
                  (rw same c))
          | inr (r, e) ↦
              rw (e, fly_found)
                (got d.world.cache ref flags t.looked_again r p c e, hit-IsCoherent d.world.cache c)
        ]

    leaving-IsRight :
        (v : Result Bytes) (r : Result ReadResponse × Daemon E)
        → IsRight v r
        → IsRight v (leaving r)
    unfolding leaving on_cache
    leaving-IsRight v (r, d) (h, c) = (h, leave-IsCoherent d.world.cache c)

    granted-IsRight :
        (q : Request) (d : Daemon E)
        → IsPlain q.ref q.flags
        → answer s q.peer q.ref ≡ true
        → IsCoherent d.world.cache
        → IsRight (f q.ref q.flags) (read_one_with_flags s q.peer q.ref q.flags q.clock d)
    unfolding on_cache from_cache_response value_of
    granted-IsRight q d p a c =
        let (_, w0, _) = check_access_lem s q.peer q.ref q.clock.decided d in
        elim (Option-cases (get d.world.cache (cache_key q.ref q.flags) q.clock.looked_up)) [
          | inl e ↦ rw (missed s q.peer q.ref q.flags q.clock d a e) (
              leaving-IsRight (f q.ref q.flags) _ (
                fly-IsRight q.ref q.flags q.clock (entered s q.peer q.ref q.flags q.clock d) p
                  (rw w0 (enter-IsCoherent d.world.cache c))))
          | inr (r, e) ↦
              let (v, w, m) = read_hit s q.peer q.ref q.flags q.clock d r a e in
              (
                ap value_of v ∙ got d.world.cache q.ref q.flags q.clock.looked_up r p c e,
                rw w (hit-IsCoherent d.world.cache c),
              )
        ]

    read-IsRight :
        (q : Request) (d : Daemon E)
        → IsPlain q.ref q.flags
        → IsCoherent d.world.cache
        → IsRight (uncached s f q) (read_one_with_flags s q.peer q.ref q.flags q.clock d)
    unfolding value_of
    read-IsRight q d p c = elim (Bool-cases (answer s q.peer q.ref)) [
      | inl a ↦ rw a (granted-IsRight q d p a c)
      | inr a ↦
          let (v, w, m) = read_denied s q.peer q.ref q.flags q.clock d a in
          rw a (ap value_of v, rw w c)
    ]

    serve_right :
        (qs : List Request) (d : Daemon E)
        → All (λ q. IsPlain q.ref q.flags) qs
        → IsCoherent d.world.cache
        → map value_of (serve s qs d).0 ≡ map (uncached s f) qs
    unfolding serve
    serve_right [] d p c = refl
    serve_right (q ∷ qs) d p c =
        let (v, c') = read-IsRight q d p.0 c in
        (λ i.
          v i ∷ serve_right qs (read_one_with_flags s q.peer q.ref q.flags q.clock d).1 p.1 c' i)

    -- The cache cannot be told from its absence: over a backend that reads the function `f` and
    -- leaves the cache alone, a daemon that starts with an empty cache answers every sequence of
    -- plain reads, by whatever peers and at whatever times, the way the server without a cache
    -- does. Plain reads are those whose reference has no `|` and whose flags have no `,`.
    pub serve-uncached :
        (qs : List Request) (d : Daemon E) (ttl : ℤ)
        → d.world.cache ≡ new_cache ttl
        → All (λ q. IsPlain q.ref q.flags) qs
        → map value_of (serve s qs d).0 ≡ map (uncached s f) qs
    unfolding view lookup
    serve-uncached qs d ttl empty p =
        serve_right qs d p
          (rw empty (record { valid = new_cache-IsValid ttl; held = λ ref flags r _ h. cc }))
