-- ===== src/Audit/Denials/Summed.antt =====
-- What the entry of a key says of the denials with this key (internal/audit/management.go).
use mathlib.Core.Path.{subst}
use mathlib.Core.List.{append-nil, append_assoc}
use opx.Prelude.{
  ◌+◌, ◌-◌, ◌<◌, ◌^◌, ◌≡◌, ◌∙◌, refl, sym, ap, Bool, false, not, ◌&&◌, ◌||◌, Option, none, some,
  List, [], ◌∷◌, ◌++◌, arith, map, any, length, length-append, Bool-cases, inl, inr, if◌then◌else◌,
}
use opx.Prelude.Int.{ℤ, pos, ◌+ℤ◌, ltb_ℤ, wrap64}
use opx.Prelude.Bytes.{Bytes, codes, ◌=ᵇ◌, =ᵇ_iff}
use opx.Dict.{Dict, lookup, insert, keys, lookup-insert}
use opx.Generics.Laws.{passing}
use opx.Audit.Events.{AuditEvent}
use opx.Audit.Denials.{DenialEvent, is_denial, denial_key, bump, add_event, values}
use opx.Audit.Denials.Counting.{tally, succ_count}

-- A refused access no older than the cutoff, with this key: the path of the process, a `|` and the reference.
abbrev pub is_match : ℤ → Bytes → AuditEvent → Bool
is_match cutoff k e =
    (e.event =ᵇ codes "ACCESS_DECISION")
    && (e.decision =ᵇ codes "DENY")
    && not (ltb_ℤ e.timestamp cutoff)
    && (e.peer_info.path ++ (codes "|" ++ e.reference) =ᵇ k)

-- The latest of some times.
abbrev pub latest : ℤ → List AuditEvent → ℤ
latest t [] = t
latest t (e ∷ es) = latest (if ltb_ℤ t e.timestamp then e.timestamp else t) es

-- The entry for some events, in their order: none for none, and otherwise with the process and the reference of the first,
-- the number of the events and the time of the latest.
abbrev pub Sums : List AuditEvent → Option DenialEvent → Type 0
Sums [] o = o ≡ none
Sums (e ∷ es) none = ⊥
Sums (e ∷ es) (some d) =
    (d.pid ≡ e.peer_info.pid)
    × (d.path ≡ e.peer_info.path)
    × (d.reference ≡ e.reference)
    × (d.count ≡ pos (length (e ∷ es)))
    × (d.timestamp ≡ latest e.timestamp es)

latest-append :
    (t : ℤ) (es : List AuditEvent) (e : AuditEvent)
    → latest t (es ++ e ∷ [])
      ≡ (if ltb_ℤ (latest t es) e.timestamp then e.timestamp else latest t es)
latest-append t [] e = refl
latest-append t (x ∷ es) e = latest-append (if ltb_ℤ t x.timestamp then x.timestamp else t) es e

bump-Sums :
    (e : AuditEvent) (hs : List AuditEvent) (o : Option DenialEvent)
    → length hs < 2 ^ 63 - 1
    → Sums hs o
    → Sums (hs ++ e ∷ []) (some (bump e o))
unfolding bump
bump-Sums e [] o short h = rw h (refl, refl, refl, refl, refl)
bump-Sums e (x ∷ xs) none short h = absurd h
bump-Sums e (x ∷ xs) (some d) short (pid, path, reference, count, time) =
    let more : length (x ∷ xs) + 1 ≡ length (x ∷ (xs ++ e ∷ [])) =
      omega (arith, length-append xs (e ∷ [])) in
    (
      pid,
      path,
      reference,
      ap (λ z. wrap64 (z +ℤ pos 1)) count ∙ succ_count (length (x ∷ xs)) short ∙ ap pos more,
      ap (λ t. if ltb_ℤ t e.timestamp then e.timestamp else t) time
          ∙ sym (latest-append x.timestamp xs e),
    )

matches :
    (cutoff : ℤ) (k : Bytes) (e : AuditEvent)
    → (is_denial cutoff e && (denial_key e =ᵇ k)) ≡ is_match cutoff k e
unfolding is_denial denial_key
matches cutoff k e = ground arith

module _ (cutoff : ℤ) (k : Bytes) where
  lookup-add_event :
      (d : Dict DenialEvent) (e : AuditEvent)
      → lookup k (add_event cutoff d e)
        ≡ (if is_match cutoff k e then some (bump e (lookup k d)) else lookup k d)
  unfolding add_event
  lookup-add_event d e = rw (← matches cutoff k e) (elim (Bool-cases (is_denial cutoff e)) [
    | inr other ↦ rw other refl
    | inl denies ↦ elim (Bool-cases (denial_key e =ᵇ k)) [
      | inl same ↦
          rw (denies, lookup-insert (denial_key e) k (bump e (lookup (denial_key e) d)) d, same)
            (ap (λ j. some (bump e (lookup j d))) ((=ᵇ_iff (denial_key e) k).0 same))
      | inr other ↦
          rw (denies, lookup-insert (denial_key e) k (bump e (lookup (denial_key e) d)) d, other)
            refl
    ]
  ])

  pub tally-Sums :
      (es : List AuditEvent) (d : Dict DenialEvent) (hs : List AuditEvent)
      → length hs + length es < 2 ^ 63
      → Sums hs (lookup k d)
      → Sums (hs ++ passing (is_match cutoff k) es) (lookup k (tally cutoff d es))
  tally-Sums [] d hs short h = rw (append-nil hs) h
  tally-Sums (e ∷ es) d hs short h = elim (Bool-cases (is_match cutoff k e)) [
    | inl match ↦
        let more : length (hs ++ e ∷ []) + length es < 2 ^ 63 =
          omega (arith, length-append hs (e ∷ []), short) in
        let here : Sums (hs ++ e ∷ []) (lookup k (add_event cutoff d e)) =
          rw (lookup-add_event d e, match) (bump-Sums e hs (lookup k d) (omega arith) h) in
        rw match (
          subst (λ xs. Sums xs (lookup k (tally cutoff (add_event cutoff d e) es)))
            (append_assoc hs (e ∷ []) (passing (is_match cutoff k) es))
            (tally-Sums es (add_event cutoff d e) (hs ++ e ∷ []) more here))
    | inr other ↦
        let here : Sums hs (lookup k (add_event cutoff d e)) = rw (lookup-add_event d e, other) h in
        rw other (tally-Sums es (add_event cutoff d e) hs (omega arith) here)
  ]

-- Every key stands once.
abbrev pub IsUnique : List Bytes → Type 0
IsUnique [] = Unit {0}
IsUnique (k ∷ ks) = (any (λ j. j =ᵇ k) ks ≡ false) × IsUnique ks

any-insert :
    (k j : Bytes) (v : DenialEvent) (d : Dict DenialEvent)
    → any (λ i. i =ᵇ j) (keys (insert k v d)) ≡ (any (λ i. i =ᵇ j) (keys d) || (k =ᵇ j))
unfolding insert keys
any-insert k j v [] = ground arith
any-insert k j v ((i, w) ∷ d) = elim (Bool-cases (i =ᵇ k)) [
  | inl same ↦ ground (arith, same, (=ᵇ_iff i k).0 same)
  | inr other ↦ ground (arith, other, any-insert k j v d)
]

insert-IsUnique :
    (k : Bytes) (v : DenialEvent) (d : Dict DenialEvent)
    → IsUnique (keys d)
    → IsUnique (keys (insert k v d))
unfolding insert keys
insert-IsUnique k v [] h = (refl, tt)
insert-IsUnique k v ((i, w) ∷ d) h = elim (Bool-cases (i =ᵇ k)) [
  | inl same ↦ rw same (subst (λ j. IsUnique (j ∷ keys d)) ((=ᵇ_iff i k).0 same) h)
  | inr other ↦ rw other (
    any-insert k i v d ∙ ground (arith, h.0, other, =ᵇ_iff k i, =ᵇ_iff i k),
    insert-IsUnique k v d h.1,
  )
]

pub tally-IsUnique :
    (cutoff : ℤ) (es : List AuditEvent) (d : Dict DenialEvent)
    → IsUnique (keys d)
    → IsUnique (keys (tally cutoff d es))
unfolding add_event
tally-IsUnique cutoff [] d h = h
tally-IsUnique cutoff (e ∷ es) d h = elim (Bool-cases (is_denial cutoff e)) [
  | inl t ↦ rw t (tally-IsUnique cutoff es _ (insert-IsUnique (denial_key e) _ d h))
  | inr t ↦ rw t (tally-IsUnique cutoff es d h)
]

pub values-map : (d : Dict DenialEvent) → values d ≡ map (λ (p : Bytes × DenialEvent). p.1) d
unfolding values
values-map [] = refl
values-map ((k, e) ∷ d) = (λ i. e ∷ values-map d i)
