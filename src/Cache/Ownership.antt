-- ===== src/Cache/Ownership.antt =====
-- Who owns a SafeString: every text that the cache has made is owned by one entry of the map, or
-- it is wiped.
use mathlib.Core.Path.{fun_ext}
use opx.Prelude.{
  ℕ, ◌<◌, ◌≡◌, ◌≢◌, ◌⊎◌, refl, Bool, true, false, Option, none, some, List, [], ◌∷◌, ◌++◌, arith,
  length, get_elem?, length-set, get_elem?-set_self, get_elem?-set_ne, length-append,
  lt_of_get_elem?, get_elem?_of_lt, get_elem?-append_cases, Option-cases, Bool-cases, inl, inr,
  ◌==◌, ==_iff, if◌then◌else◌,
}
use opx.Prelude.Int.{ℤ, pos, ltb_ℤ}
use opx.Prelude.Bytes.{Bytes, ◌=ᵇ◌, =ᵇ_iff, =ᵇ_refl}
use opx.Dict.{Dict, lookup, insert, keys, lookup-insert, lookup-delete}
use opx.SafeString.{SafeString, new_string, zero_data}
use opx.SafeString.Zeroing.{
  IsClean, IsWiped, zero_data-IsWiped, zero_data-IsClean, new_string-IsClean,
}
use opx.Cache.{
  Cache, Entry, new_cache, set_value, zero_at, zero_cell, zero_existing, evict, evict_if,
  evict_where, cleanup_expired, clear, inc_hit, inc_miss, inc_in_flight, dec_in_flight,
}

-- Over a store of texts and what the map finds.
pub record IsOwner (heap : List SafeString) (look : Bytes → Option Entry) : Type 0 where
  -- an entry points into the store
  pub owned : (k : Bytes) (e : Entry) → look k ≡ some e → e.v < length heap
  -- no two keys share a text
  pub unshared : (k j : Bytes) (e f : Entry) → look k ≡ some e → look j ≡ some f → e.v ≡ f.v → k ≡ j
  -- a text that no entry points to is wiped
  pub wiped :
      (a : ℕ) (s : SafeString)
      → get_elem? heap a ≡ some s
      → ((k : Bytes) (e : Entry) → look k ≡ some e → e.v ≢ a)
      → IsWiped s
  -- every text can be wiped whole
  pub clean : (a : ℕ) (s : SafeString) → get_elem? heap a ≡ some s → IsClean s

abbrev pub IsValid : Cache → Type 0
IsValid c = IsOwner c.heap (λ k. lookup k c.entries)

pub length-zero_at : (heap : List SafeString) (a : ℕ) → length (zero_at heap a) ≡ length heap
unfolding zero_at
length-zero_at heap a = elim (Option-cases (get_elem? heap a)) [
  | inl e ↦ rw (e, zero_cell)
  | inr (s, e) ↦ rw (e, zero_cell) (length-set heap a (zero_data s))
]

pub get_elem?-zero_at_ne :
    (heap : List SafeString) (a b : ℕ) → a ≢ b → get_elem? (zero_at heap a) b ≡ get_elem? heap b
unfolding zero_at
get_elem?-zero_at_ne heap a b h = elim (Option-cases (get_elem? heap a)) [
  | inl e ↦ rw (e, zero_cell)
  | inr (s, e) ↦ rw (e, zero_cell) (get_elem?-set_ne heap a b (zero_data s) h)
]

pub get_elem?-zero_at_self :
    (heap : List SafeString) (a : ℕ) (s : SafeString)
    → get_elem? heap a ≡ some s
    → get_elem? (zero_at heap a) a ≡ some (zero_data s)
unfolding zero_at
get_elem?-zero_at_self heap a s e =
    rw (e, zero_cell) (get_elem?-set_self heap a (zero_data s) (lt_of_get_elem? heap a e))

pub ne_of_beq : (a b : ℕ) → (a == b) ≡ false → a ≢ b
ne_of_beq a b h = ground arith

-- What stands in the store after one text is wiped.
zero_at-cases :
    (heap : List SafeString) (a b : ℕ) (t : SafeString)
    → ((a : ℕ) (s : SafeString) → get_elem? heap a ≡ some s → IsClean s)
    → get_elem? (zero_at heap a) b ≡ some t
    → (IsWiped t × IsClean t) ⊎ ((a ≢ b) × (get_elem? heap b ≡ some t))
zero_at-cases heap a b t clean e = elim (Bool-cases (a == b)) [
  | inl same ↦ at_self ((==_iff a b).0 same)
  | inr other ↦
      inr (ne_of_beq a b other, rw (get_elem?-zero_at_ne heap a b (ne_of_beq a b other)) at e)
]
  where
    wiped_at : (s : SafeString) → a ≡ b → get_elem? heap a ≡ some s → IsWiped t × IsClean t
    wiped_at s p q =
        let r : t ≡ zero_data s = ground (arith, get_elem?-zero_at_self heap a s q) in
        rw r (zero_data-IsWiped s (clean a s q), zero_data-IsClean s (clean a s q))

    at_self : a ≡ b → (IsWiped t × IsClean t) ⊎ ((a ≢ b) × (get_elem? heap b ≡ some t))
    at_self p = elim (Option-cases (get_elem? heap a)) [
      | inl n ↦ ground (
        arith,
        length-zero_at heap a,
        lt_of_get_elem? (zero_at heap a) b e,
        get_elem?_of_lt heap a,
      )
      | inr (s, q) ↦ inl (wiped_at s p q)
    ]

module _ (heap : List SafeString) (look : Bytes → Option Entry) (h : IsOwner heap look) where
  pub evict-IsOwner :
      (k : Bytes) (e : Entry)
      → look k ≡ some e
      → IsOwner (zero_at heap e.v) (λ j. if k =ᵇ j then none else look j)
  evict-IsOwner k e le = record {
    owned = λ j f lf. rw (length-zero_at heap e.v) (ground (arith, h.owned j f));
    unshared = λ i j f g lf lg eq. ground (arith, h.unshared i j f g);
    wiped = λ a t lt free. elim (zero_at-cases heap e.v a t h.clean lt) [
      | inl w ↦ w.0
      | inr (ne, q) ↦ h.wiped a t q (λ j f lf. ground (arith, free j f, =ᵇ_iff k j, ne))
    ];
    clean = λ a t lt. elim (zero_at-cases heap e.v a t h.clean lt) [
      | inl w ↦ w.1
      | inr o ↦ h.clean a t o.1
    ];
  }

  pub fresh-IsOwner :
      (k val : Bytes) (e : Entry)
      → look k ≡ none
      → e.v ≡ length heap
      → IsOwner (heap ++ new_string val ∷ []) (λ j. if k =ᵇ j then some e else look j)
  fresh-IsOwner k val e absent here = record {
    owned = λ j f lf. ground (arith, h.owned j f, length-append heap (new_string val ∷ []));
    unshared = λ i j f g lf lg eq.
        ground (arith, h.unshared i j f g, h.owned i f, h.owned j g, =ᵇ_iff k i, =ᵇ_iff k j);
    wiped = λ a t lt free. elim (get_elem?-append_cases heap (new_string val) a lt) [
      | inl q ↦ h.wiped a t q (λ j f lf. ground (arith, free j f, =ᵇ_iff k j))
      | inr (q, r) ↦ absurd (ground (arith, free k e, =ᵇ_refl k))
    ];
    clean = λ a t lt. elim (get_elem?-append_cases heap (new_string val) a lt) [
      | inl q ↦ h.clean a t q
      | inr (q, r) ↦ rw r (new_string-IsClean val)
    ];
  }

look_fresh :
    (look : Bytes → Option Entry) (k : Bytes) (e : Entry) (j : Bytes)
    → (if k =ᵇ j then some e else if k =ᵇ j then none else look j)
      ≡ (if k =ᵇ j then some e else look j)
look_fresh look k e j = ground arith

look_absent : (look : Bytes → Option Entry) (k : Bytes) → (if k =ᵇ k then none else look k) ≡ none
look_absent look k = rw (=ᵇ_refl k)

evict-IsValid :
    (c : Cache) (k : Bytes) (e : Entry)
    → lookup k c.entries ≡ some e
    → IsValid c
    → IsValid (evict c k e)
unfolding evict
evict-IsValid c k e le h =
    rw (fun_ext (λ j. lookup-delete k j c.entries))
      (evict-IsOwner c.heap (λ j. lookup j c.entries) h k e le)

look_without :
    (look : Bytes → Option Entry) (k : Bytes)
    → look k ≡ none
    → (j : Bytes) → look j ≡ (if k =ᵇ j then none else look j)
look_without look k absent j = ground (arith, =ᵇ_iff k j)

push-IsOwner :
    (heap : List SafeString) (d : Dict Entry) (k val : Bytes) (e : Entry)
    → e.v ≡ length heap
    → IsOwner heap (λ j. if k =ᵇ j then none else lookup j d)
    → IsOwner (heap ++ new_string val ∷ []) (λ j. lookup j (insert k e d))
push-IsOwner heap d k val e here h =
    let look : Bytes → Option Entry = λ j. lookup j d in
    let without : Bytes → Option Entry = λ j. if k =ᵇ j then none else look j in
    rw (fun_ext (λ j. lookup-insert k j e d), ← fun_ext (look_fresh look k e))
      (fresh-IsOwner heap without h k val e (look_absent look k) here)

pub set_value-IsValid :
    (c : Cache) (key val : Bytes) (now now' : ℤ)
    → IsValid c
    → IsValid (set_value c key val now now')
unfolding set_value
set_value-IsValid c key val now now' h = elim (Option-cases (lookup key c.entries)) [
  | inl absent ↦
      rw (absent, zero_existing)
        (push-IsOwner c.heap c.entries key val _ refl
          (rw (fun_ext (look_without (λ j. lookup j c.entries) key absent)) at h))
  | inr (e, le) ↦
      rw (le, zero_existing)
        (push-IsOwner (zero_at c.heap e.v) c.entries key val _ refl
          (evict-IsOwner c.heap (λ j. lookup j c.entries) h key e le))
]

pub evict_if-IsValid :
    (test : Entry → Bool) (key : Bytes) (c : Cache) (removed : ℕ)
    → IsValid c
    → IsValid (evict_if test key (lookup key c.entries) (c, removed)).0
unfolding evict_if
evict_if-IsValid test key c removed h = elim (Option-cases (lookup key c.entries)) [
  | inl absent ↦ rw (absent, evict_if) h
  | inr (e, le) ↦ elim (Bool-cases (test e)) [
    | inl t ↦ rw (le, evict_if, t) (evict-IsValid c key e le h)
    | inr t ↦ rw (le, evict_if, t) h
  ]
]

pub evict_where-IsValid :
    (test : Entry → Bool) (ks : List Bytes) (r : Cache × ℕ)
    → IsValid r.0
    → IsValid (evict_where test ks r).0
unfolding evict_where
evict_where-IsValid test [] r h = h
evict_where-IsValid test (k ∷ ks) r h =
    evict_where-IsValid test ks _ (evict_if-IsValid test k r.0 r.1 h)

-- The methods that write, with the times that they read.
pub data Call : Type 0 where
  sets : Bytes → Bytes → ℤ → ℤ → Call
  cleanups : ℤ → Call
  clears hit miss enter leave : Call

abbrev pub step : Cache → Call → Cache
step c (sets key val now now') = set_value c key val now now'
step c (cleanups now) = (cleanup_expired c now).0
step c clears = (clear c).0
step c hit = inc_hit c
step c miss = inc_miss c
step c enter = inc_in_flight c
step c leave = dec_in_flight c

abbrev pub run : Cache → List Call → Cache
run c [] = c
run c (x ∷ xs) = run (step c x) xs

-- Each method keeps the ownership of the texts, whatever the state that it starts from.
pub step-IsValid : (c : Cache) (x : Call) → IsValid c → IsValid (step c x)
unfolding cleanup_expired clear inc_hit inc_miss inc_in_flight dec_in_flight
step-IsValid c (sets key val now now') h = set_value-IsValid c key val now now' h
step-IsValid c (cleanups now) h = evict_where-IsValid _ (keys c.entries) (c, 0) h
step-IsValid c clears h = evict_where-IsValid (λ e. true) (keys c.entries) (c, 0) h
step-IsValid c hit h = h
step-IsValid c miss h = h
step-IsValid c enter h = h
step-IsValid c leave h = elim (Bool-cases (ltb_ℤ (pos 0) c.inflight)) [
  | inl t ↦ rw t h
  | inr t ↦ rw t h
]

run-IsValid : (c : Cache) (xs : List Call) → IsValid c → IsValid (run c xs)
run-IsValid c [] h = h
run-IsValid c (x ∷ xs) h = run-IsValid (step c x) xs (step-IsValid c x h)

pub new_cache-IsValid : (ttl : ℤ) → IsValid (new_cache ttl)
unfolding lookup
new_cache-IsValid ttl = record {
  owned = λ k e le. cc;
  unshared = λ k j e f le lf eq. cc;
  wiped = λ a s e free. cc;
  clean = λ a s e. cc;
}

-- After any calls on a new cache, a secret that no entry of the map points to any more is wiped:
-- its slice is nil and its array all zero.
pub run-IsWiped :
    (ttl : ℤ) (xs : List Call) (a : ℕ) (s : SafeString)
    → get_elem? (run (new_cache ttl) xs).heap a ≡ some s
    → ((k : Bytes) (e : Entry) → lookup k (run (new_cache ttl) xs).entries ≡ some e → e.v ≢ a)
    → IsWiped s
run-IsWiped ttl xs = (run-IsValid (new_cache ttl) xs (new_cache-IsValid ttl)).wiped
