-- ===== src/Cache/Wearing.antt =====
-- What becomes of the texts that the cache (internal/cache/cache.go) has made: a text in the store stays
-- what it is, or is wiped.
use opx.Prelude.{
  ℕ, ◌<◌, ◌≡◌, ◌⊎◌, ◌∙◌, refl, sym, ap, Bool, true, Option, none, some, List, [], ◌∷◌, ◌++◌, arith,
  length, get_elem?, length-append, get_elem?-append_left, Option-cases, Bool-cases, inl, inr, ◌==◌,
  ==_iff,
}
use opx.Prelude.Int.{ℤ}
use opx.Prelude.Bytes.{Bytes}
use opx.Dict.{lookup, keys}
use opx.SafeString.{SafeString, new_string, to_string, zero_data}
use opx.Cache.{
  Cache, Entry, set_value, zero_at, zero_cell, zero_existing, evict, evict_if, evict_where,
  cleanup_expired, clear,
}
use opx.Cache.Ownership.{length-zero_at, get_elem?-zero_at_ne, get_elem?-zero_at_self, ne_of_beq}

-- The text at an address of the store.
abbrev pub text : List SafeString → ℕ → Bytes
text heap a = to_string (get_elem? heap a)

-- Every text of the store is there, and is what it was, or empty.
abbrev pub Wears : List SafeString → List SafeString → Type 0
Wears heap heap' =
    (a : ℕ)
    → a < length heap
    → (a < length heap') × ((text heap' a ≡ text heap a) ⊎ (text heap' a ≡ []))

pub Wears-refl : (heap : List SafeString) → Wears heap heap
Wears-refl heap a h = (h, inl refl)

Wears-trans : (h h' h'' : List SafeString) → Wears h h' → Wears h' h'' → Wears h h''
Wears-trans h h' h'' x y a lt =
    let (lt', first) = x a lt in
    let (lt'', second) = y a lt' in
    (
      lt'',
      elim second [
        | inr empty ↦ inr empty
        | inl same ↦ elim first [ inl same' ↦ inl (same ∙ same') | inr empty ↦ inr (same ∙ empty) ]
      ],
    )

-- A wiped text is empty.
to_string-zero_data : (s : SafeString) → to_string (some (zero_data s)) ≡ []
unfolding to_string zero_data
to_string-zero_data s = go s.len refl
  where
    go : (o : Option ℕ) → s.len ≡ o → to_string (some (zero_data s)) ≡ []
    go none e = rw e refl
    go (some n) e = rw e refl

zero_at_missing : (heap : List SafeString) (a : ℕ) → get_elem? heap a ≡ none → zero_at heap a ≡ heap
unfolding zero_at
zero_at_missing heap a e = rw (e, zero_cell) refl

zero_at-Wears : (heap : List SafeString) (a : ℕ) → Wears heap (zero_at heap a)
unfolding to_string
zero_at-Wears heap a b h = (
  rw (length-zero_at heap a) h,
  elim (Bool-cases (a == b)) [
    | inr other ↦ inl (ap to_string (get_elem?-zero_at_ne heap a b (ne_of_beq a b other)))
    | inl same ↦ elim (Option-cases (get_elem? heap a)) [
      | inl missing ↦ inl (ap (λ h. text h b) (zero_at_missing heap a missing))
      | inr (s, there) ↦ inr (
          ap (text (zero_at heap a)) (sym ((==_iff a b).0 same))
          ∙ ap to_string (get_elem?-zero_at_self heap a s there)
          ∙ to_string-zero_data s)
    ]
  ],
)

append-Wears : (heap : List SafeString) (s : SafeString) → Wears heap (heap ++ s ∷ [])
append-Wears heap s a h = (
  omega (arith, length-append heap (s ∷ []), h),
  inl (ap to_string (get_elem?-append_left heap (s ∷ []) a h)),
)

existing-Wears : (heap : List SafeString) (o : Option Entry) → Wears heap (zero_existing heap o)
unfolding zero_existing
existing-Wears heap none = Wears-refl heap
existing-Wears heap (some e) = zero_at-Wears heap e.v

pub set_value-Wears :
    (c : Cache) (key val : Bytes) (now now' : ℤ) → Wears c.heap (set_value c key val now now').heap
unfolding set_value
set_value-Wears c key val now now' =
    let heap' = zero_existing c.heap (lookup key c.entries) in
    Wears-trans c.heap heap' (heap' ++ new_string val ∷ [])
      (existing-Wears c.heap (lookup key c.entries)) (append-Wears heap' (new_string val))

evict_if-Wears :
    (test : Entry → Bool) (k : Bytes) (o : Option Entry) (r : Cache × ℕ)
    → Wears r.0.heap (evict_if test k o r).0.heap
unfolding evict_if evict
evict_if-Wears test k none r = Wears-refl r.0.heap
evict_if-Wears test k (some e) r = elim (Bool-cases (test e)) [
  | inl t ↦ rw t (zero_at-Wears r.0.heap e.v)
  | inr t ↦ rw t (Wears-refl r.0.heap)
]

evict_where-Wears :
    (test : Entry → Bool) (ks : List Bytes) (r : Cache × ℕ)
    → Wears r.0.heap (evict_where test ks r).0.heap
unfolding evict_where
evict_where-Wears test [] r = Wears-refl r.0.heap
evict_where-Wears test (k ∷ ks) r =
    let r' = evict_if test k (lookup k r.0.entries) r in
    Wears-trans r.0.heap r'.0.heap (evict_where test ks r').0.heap
      (evict_if-Wears test k (lookup k r.0.entries) r) (evict_where-Wears test ks r')

pub cleanup_expired-Wears : (c : Cache) (now : ℤ) → Wears c.heap (cleanup_expired c now).0.heap
unfolding cleanup_expired
cleanup_expired-Wears c now = evict_where-Wears _ (keys c.entries) (c, 0)

pub clear-Wears : (c : Cache) → Wears c.heap (clear c).0.heap
unfolding clear
clear-Wears c = evict_where-Wears (λ e. true) (keys c.entries) (c, 0)
