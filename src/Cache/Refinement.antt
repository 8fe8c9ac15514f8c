-- ===== src/Cache/Refinement.antt =====
-- The cache against its specification: a map from keys to a value, its expiry and its birth.
use opx.Prelude.{
  suc, All, ℕ, ◌<◌, ◌≡◌, ◌∙◌, ◌≢◌, refl, sym, ap, Bool, true, false, Option, none, some, List, [],
  ◌∷◌, ◌++◌, arith, length, get_elem?, Option-cases, Bool-cases, inl, inr, any,
  get_elem?-append_left, get_elem?-append_length, if◌then◌else◌,
}
use opx.Prelude.Int.{ℤ, ltb_ℤ, ◌+ℤ◌, ◌≤ℤ◌}
use opx.Prelude.Bytes.{Bytes, ◌=ᵇ◌, =ᵇ_iff, =ᵇ_refl}
use opx.Dict.{
  Dict, lookup, insert, delete, keys, lookup-insert, lookup-delete, lookup_of_not_key,
  eq-nil_of_lookup,
}
use opx.SafeString.{SafeString, new_string, to_string}
use opx.SafeString.Zeroing.{IsWiped}
use opx.SafeString.Content.{to_string-new_string}
use opx.Cache.{
  Cache, Entry, Found, set_value, zero_at, zero_existing, evict, evict_if, evict_where,
  cleanup_expired, clear, read, found, get, peek, expired,
}
use opx.Cache.Ownership.{
  IsValid, length-zero_at, get_elem?-zero_at_ne, evict_where-IsValid, evict_if-IsValid,
}

-- What a key stands for.
unfoldable pub view : Cache → Bytes → Option Found
unfolding found
view c key = found c (lookup key c.entries)

-- An entry whose expiry lies before `now` is dropped.
abbrev pub fresh : ℤ → Option Found → Option Found
fresh now none = none
fresh now (some (v, exp, cached)) = if ltb_ℤ exp now then none else some (v, exp, cached)

-- `Get` finds what the key stands for, unless it has expired, for every cache.
pub get-view : (c : Cache) (key : Bytes) (now : ℤ) → get c key now ≡ fresh now (view c key)
unfolding get view read
get-view c key now = ground arith

-- Wiping one text leaves the others readable.
read-zero_at :
    (c : Cache) (d : Dict Entry) (a : ℕ) (f : Entry)
    → a ≢ f.v
    → read (record c { heap = zero_at c.heap a; entries = d }) f ≡ read c f
unfolding read
read-zero_at c d a f h = rw (get_elem?-zero_at_ne c.heap a f.v h)

drop_if : (Entry → Bool) → Option Entry → Option Entry
drop_if test none = none
drop_if test (some e) = if test e then none else some e

module _ (test : Entry → Bool) where
  found-evict :
      (c : Cache) (k j : Bytes) (e : Entry)
      → IsValid c
      → lookup k c.entries ≡ some e
      → test e ≡ true
      → found (evict c k e) (drop_if test (lookup j (evict c k e).entries))
        ≡ found c (drop_if test (lookup j c.entries))
  unfolding found evict drop_if
  found-evict c k j e h le t = elim (Option-cases (lookup j c.entries)) [
    | inl absent ↦ ground (arith, lookup-delete k j c.entries, absent)
    | inr (f, lf) ↦ ground (
      arith,
      lookup-delete k j c.entries,
      =ᵇ_iff k j,
      lf,
      h.unshared k j e f le lf,
      read-zero_at c (delete k c.entries) e.v f,
    )
  ]

  found-evict_if :
      (c : Cache) (k j : Bytes) (n : ℕ)
      → IsValid c
      → let c' = (evict_if test k (lookup k c.entries) (c, n)).0 in
        found c' (drop_if test (lookup j c'.entries)) ≡ found c (drop_if test (lookup j c.entries))
  unfolding evict_if
  found-evict_if c k j n h = elim (Option-cases (lookup k c.entries)) [
    | inl absent ↦ rw (absent, evict_if)
    | inr (e, le) ↦ elim (Bool-cases (test e)) [
      | inl t ↦ rw (le, evict_if, t) (found-evict c k j e h le t)
      | inr t ↦ rw (le, evict_if, t)
    ]
  ]

  lookup-evict_if :
      (c : Cache) (k j : Bytes) (n : ℕ)
      → lookup j (evict_if test k (lookup k c.entries) (c, n)).0.entries
        ≡ (if k =ᵇ j then drop_if test (lookup j c.entries) else lookup j c.entries)
  unfolding evict_if evict drop_if
  lookup-evict_if c k j n = elim (Option-cases (lookup k c.entries)) [
    | inl absent ↦ rw (absent, evict_if) (ground (arith, =ᵇ_iff k j))
    | inr (e, le) ↦ elim (Bool-cases (test e)) [
      | inl t ↦ rw (le, evict_if, t) (ground (arith, lookup-delete k j c.entries, =ᵇ_iff k j))
      | inr t ↦ rw (le, evict_if, t) (ground (arith, =ᵇ_iff k j))
    ]
  ]

  found-evict_where :
      (ks : List Bytes) (r : Cache × ℕ) (j : Bytes)
      → IsValid r.0
      → let c' = (evict_where test ks r).0 in
        found c' (drop_if test (lookup j c'.entries))
        ≡ found r.0 (drop_if test (lookup j r.0.entries))
  unfolding evict_where
  found-evict_where [] r j h = refl
  found-evict_where (k ∷ ks) (c, n) j h =
      found-evict_where ks _ j (evict_if-IsValid test k c n h) ∙ found-evict_if c k j n h

  drop_if_idem : (o : Option Entry) → drop_if test (drop_if test o) ≡ drop_if test o
  unfolding drop_if
  drop_if_idem none = refl
  drop_if_idem (some e) = ground arith

  lookup-evict_where :
      (ks : List Bytes) (r : Cache × ℕ) (j : Bytes)
      → lookup j (evict_where test ks r).0.entries ≡ (
          if any (λ k. k =ᵇ j) ks
          then drop_if test (lookup j r.0.entries)
          else lookup j r.0.entries)
  unfolding evict_where
  lookup-evict_where [] r j = refl
  lookup-evict_where (k ∷ ks) (c, n) j = ground (
    arith,
    lookup-evict_where ks (evict_if test k (lookup k c.entries) (c, n)) j,
    lookup-evict_if c k j n,
    drop_if_idem (lookup j c.entries),
  )

  -- A loop over all the keys drops what the test says, and leaves all else as it was.
  lookup-evict_all :
      (c : Cache) (n : ℕ) (j : Bytes)
      → lookup j (evict_where test (keys c.entries) (c, n)).0.entries
        ≡ drop_if test (lookup j c.entries)
  unfolding drop_if
  lookup-evict_all c n j =
      ground (arith, lookup-evict_where (keys c.entries) (c, n) j, lookup_of_not_key j c.entries)

  view-evict_all :
      (c : Cache) (n : ℕ) (j : Bytes)
      → IsValid c
      → view (evict_where test (keys c.entries) (c, n)).0 j
        ≡ found c (drop_if test (lookup j c.entries))
  unfolding view
  view-evict_all c n j h =
      let e = lookup-evict_all c n j in
      ap (found (evict_where test (keys c.entries) (c, n)).0)
        (e ∙ sym (drop_if_idem _) ∙ ap (drop_if test) (sym e))
      ∙ found-evict_where (keys c.entries) (c, n) j h

-- On a valid cache `CleanupExpired` drops the expired entries, and every other key stands for what it stood for.
pub view-cleanup_expired :
    (c : Cache) (now : ℤ) (j : Bytes)
    → IsValid c
    → view (cleanup_expired c now).0 j ≡ fresh now (view c j)
unfolding cleanup_expired view drop_if read expired
view-cleanup_expired c now j h = view-evict_all (expired now) c 0 j h ∙ ground arith

cleared :
    (c : Cache)
    → IsValid c
    → ((clear c).0.entries ≡ [])
      × ((a : ℕ) (s : SafeString) → get_elem? (clear c).0.heap a ≡ some s → IsWiped s)
      × ((clear c).1 ≡ length c.entries)
unfolding clear drop_if
cleared c h =
    (eq-nil_of_lookup _ none_left, (λ a s e. v.wiped a s e (λ k f lf. cc (none_left k))), refl)
  where
    v : IsValid (clear c).0
    v = evict_where-IsValid (λ e. true) (keys c.entries) (c, 0) h

    none_left : (k : Bytes) → lookup k (clear c).0.entries ≡ none
    none_left k = lookup-evict_all (λ e. true) c 0 k ∙ all_dropped (lookup k c.entries)
      where
        all_dropped : (o : Option Entry) → drop_if (λ e. true) o ≡ none
        all_dropped none = refl
        all_dropped (some e) = refl

All-IsWiped :
    (heap : List SafeString)
    → ((a : ℕ) (s : SafeString) → get_elem? heap a ≡ some s → IsWiped s)
    → All IsWiped heap
All-IsWiped [] h = tt
All-IsWiped (s ∷ heap) h = (h 0 s refl, All-IsWiped heap (λ a t e. h (suc a) t e))

-- On a valid cache `Clear` leaves an empty map, wipes every text that the cache has ever made, and returns the
-- number of the entries that there were.
pub clear_lem :
    (c : Cache)
    → IsValid c
    → ((clear c).0.entries ≡ []) × All IsWiped (clear c).0.heap × ((clear c).1 ≡ length c.entries)
clear_lem c h =
    let (gone, wiped, count) = cleared c h in (gone, All-IsWiped (clear c).0.heap wiped, count)

-- A new text does not change what the old addresses hold.
read-push :
    (c : Cache) (heap : List SafeString) (s : SafeString) (d : Dict Entry) (f : Entry)
    → get_elem? heap f.v ≡ get_elem? c.heap f.v
    → f.v < length heap
    → read (record c { heap = heap ++ s ∷ []; entries = d }) f ≡ read c f
unfolding read
read-push c heap s d f e h = rw (get_elem?-append_left heap (s ∷ []) f.v h, e)

read_new :
    (c : Cache) (heap : List SafeString) (val : Bytes) (d : Dict Entry) (exp cached : ℤ)
    → read
        (record c { heap = heap ++ new_string val ∷ []; entries = d })
        (record { v = length heap; exp = exp; cached = cached })
      ≡ (val, exp, cached)
unfolding read
read_new c heap val d exp cached =
    rw (get_elem?-append_length heap (new_string val), to_string-new_string val)

view_push :
    (c : Cache) (heap : List SafeString) (key val : Bytes) (exp cached : ℤ) (j : Bytes)
    → ((f : Entry) → (key =ᵇ j) ≡ false → lookup j c.entries ≡ some f → f.v < length heap)
    → ((f : Entry)
        → (key =ᵇ j) ≡ false
        → lookup j c.entries ≡ some f
        → get_elem? heap f.v ≡ get_elem? c.heap f.v)
    → let e : Entry = record { v = length heap; exp = exp; cached = cached } in
      view (record c { heap = heap ++ new_string val ∷ []; entries = insert key e c.entries }) j
      ≡ (if key =ᵇ j then some (val, exp, cached) else view c j)
unfolding view
view_push c heap key val exp cached j within same = elim (Bool-cases (key =ᵇ j)) [
  | inl t ↦ rw (lookup-insert key j e c.entries, t) (ap some (read_new c heap val d exp cached))
  | inr t ↦ elim (Option-cases (lookup j c.entries)) [
    | inl absent ↦ rw (lookup-insert key j e c.entries, t, absent) refl
    | inr (f, lf) ↦
        rw (lookup-insert key j e c.entries, t, lf)
          (ap some (read-push c heap (new_string val) d f (same f t lf) (within f t lf)))
  ]
]
  where
    e : Entry
    e = record { v = length heap; exp = exp; cached = cached }

    d : Dict Entry
    d = insert key e c.entries

-- After `Set` on a valid cache the key stands for the new value, which expires `ttl` from now, and every other key
-- for what it stood for.
pub view-set_value :
    (c : Cache) (key val : Bytes) (now now' : ℤ) (j : Bytes)
    → IsValid c
    → view (set_value c key val now now') j
      ≡ (if key =ᵇ j then some (val, now +ℤ c.ttl, now') else view c j)
unfolding set_value
view-set_value c key val now now' j h = elim (Option-cases (lookup key c.entries)) [
  | inl absent ↦
      rw (absent, zero_existing)
        (view_push c c.heap key val _ _ j (λ f t lf. h.owned j f lf) (λ f t lf. refl))
  | inr (e, le) ↦
      rw (le, zero_existing)
        (view_push c (zero_at c.heap e.v) key val _ _ j
          (λ f t lf. rw (length-zero_at c.heap e.v) (h.owned j f lf))
          (λ f t lf.
            get_elem?-zero_at_ne c.heap e.v f.v
              (λ eq. ground (arith, h.unshared key j e f le lf eq, =ᵇ_iff key j))))
]

within_ttl : (now later ttl : ℤ) → later ≤ℤ now +ℤ ttl → ltb_ℤ (now +ℤ ttl) later ≡ false
within_ttl now later ttl h = ground arith

-- A value that was set in a valid cache is found until its time to live is over, whatever was set before.
pub get-set_value :
    (c : Cache) (key val : Bytes) (now now' later : ℤ)
    → IsValid c
    → later ≤ℤ now +ℤ c.ttl
    → get (set_value c key val now now') key later ≡ some (val, now +ℤ c.ttl, now')
get-set_value c key val now now' later h within = rw (
  get-view,
  view-set_value c key val now now' key h,
  =ᵇ_refl key,
  within_ttl now later c.ttl within,
)

read_wiped :
    (c : Cache) (e : Entry)
    → ((a : ℕ) (s : SafeString) → get_elem? c.heap a ≡ some s → IsWiped s)
    → read c e ≡ ([], e.exp, e.cached)
unfolding read to_string
read_wiped c e wiped = elim (Option-cases (get_elem? c.heap e.v)) [
  | inl absent ↦ rw absent
  | inr (s, q) ↦ rw (q, (wiped e.v s q).0)
]

peek_of_get :
    (c : Cache) (key : Bytes) (now : ℤ) (r : Found)
    → get c key now ≡ some r
    → (e : Entry) × (peek c key now ≡ some e) × (read c e ≡ r)
unfolding get
peek_of_get c key now r h = elim (Option-cases (peek c key now)) [
  | inl absent ↦ ground (arith, absent)
  | inr (e, q) ↦ (e, q, ground (arith, q))
]

get_empty : (c : Cache) (key : Bytes) (now : ℤ) → c.entries ≡ [] → get c key now ≡ none
unfolding get peek lookup
get_empty c key now h = rw h

-- `Get` gives the lock back before it reads the text. Where on a valid cache `Get` would return a text that is not
-- empty, and `Clear` runs between its two parts, `Get` reports a hit with the empty text, which is
-- what `Get` returns neither before nor after that `Clear`.
pub read_during_clear :
    (c : Cache) (key val : Bytes) (now exp cached : ℤ)
    → IsValid c
    → val ≢ []
    → get c key now ≡ some (val, exp, cached)
    → (e : Entry) × (peek c key now ≡ some e)
      × (read (clear c).0 e ≡ ([], exp, cached))
      × (some (read (clear c).0 e) ≢ get c key now)
      × (some (read (clear c).0 e) ≢ get (clear c).0 key now)
unfolding read
read_during_clear c key val now exp cached h ne g =
    let (e, p, r) = peek_of_get c key now (val, exp, cached) g in
    let (gone, wiped, _) = cleared c h in
    let raced : read (clear c).0 e ≡ ([], exp, cached) =
      ground (arith, read_wiped (clear c).0 e wiped, r) in
    (
      e,
      p,
      raced,
      (λ q. ne (ground (arith, q, g, raced))),
      (λ q. ground (arith, q, get_empty (clear c).0 key now gone)),
    )
