-- ===== src/Audit/Denials/Counting.antt =====
-- The scan of the files as one walk over their events, and the order of its result
-- (internal/audit/management.go).
use opx.Prelude.{
  ℕ, suc, ◌+◌, ◌-◌, ◌<◌, ◌^◌, ◌≡◌, ◌∙◌, inl, inr, refl, sym, true, false, Option, none, some, List,
  [], ◌∷◌, arith, Bool-cases, Option-cases, All, if◌then◌else◌,
}
use opx.Prelude.Int.{ℤ, pos, ◌+ℤ◌, ◌-ℤ◌, ◌≤ℤ◌, ltb_ℤ, wrap64}
use opx.Prelude.Bytes.{Bytes, ◌=ᵇ◌}
use mathlib.Core.List.{Perm}
use mathlib.Core.List.Perm
use opx.Dict.{Dict}
use opx.Audit.Events.{AuditEvent}
use opx.Audit.Denials.{
  DenialEvent, add_event, place, sort_by_count, values, LogFile, add_lines, scan_files,
  scan_recent_denials, find_most_frequent_denial,
}

-- The events in the order in which the files give them.
abbrev pub tally : ℤ → Dict DenialEvent → List AuditEvent → Dict DenialEvent
tally cutoff d [] = d
tally cutoff d (e ∷ es) = tally cutoff (add_event cutoff d e) es

pub succ_count : (n : ℕ) → n < 2 ^ 63 - 1 → wrap64 (pos n +ℤ pos 1) ≡ pos (n + 1)
unfolding ◌+ℤ◌ wrap64
succ_count n h = ground arith

le_of_test : (a b : ℤ) → ltb_ℤ a b ≡ false → b ≤ℤ a
le_of_test a b h = ground arith

-- The events of the files that could be opened, in order; an empty line and one that does not parse
-- give none.
abbrev or_skip : Option AuditEvent → List AuditEvent → List AuditEvent
or_skip none es = es
or_skip (some e) es = e ∷ es

module _ (unmarshal : Bytes → Option AuditEvent) where
  abbrev pub line_events : List Bytes → List AuditEvent → List AuditEvent
  line_events [] es = es
  line_events (l ∷ ls) es =
      let rest = line_events ls es in if l =ᵇ [] then rest else or_skip (unmarshal l) rest

  abbrev pub events : List LogFile → List AuditEvent
  events [] = []
  events (LogFile.unopened ∷ fs) = events fs
  events (LogFile.scanned lines failed ∷ fs) = line_events lines (events fs)

  -- The files at which the scanner stopped with an error.
  abbrev pub failures : List LogFile → ℕ
  failures [] = 0
  failures (LogFile.unopened ∷ fs) = failures fs
  failures (LogFile.scanned lines failed ∷ fs) = if failed then suc (failures fs) else failures fs

  add_lines-tally :
      (cutoff : ℤ) (d : Dict DenialEvent) (ls : List Bytes) (es : List AuditEvent)
      → tally cutoff d (line_events ls es) ≡ tally cutoff (add_lines unmarshal cutoff d ls) es
  unfolding add_lines
  add_lines-tally cutoff d [] es = refl
  add_lines-tally cutoff d (l ∷ ls) es = elim (Bool-cases (l =ᵇ [])) [
    | inl t ↦ rw t (add_lines-tally cutoff d ls es)
    | inr t ↦ elim (Option-cases (unmarshal l)) [
      | inl n ↦ rw (t, n) (add_lines-tally cutoff d ls es)
      | inr (e, n) ↦ rw (t, n) (add_lines-tally cutoff (add_event cutoff d e) ls es)
    ]
  ]

  pub scan_files-tally :
      (cutoff : ℤ) (d : Dict DenialEvent) (n : ℕ) (fs : List LogFile)
      → (scan_files unmarshal cutoff (d, n) fs).0 ≡ tally cutoff d (events fs)
  unfolding scan_files
  scan_files-tally cutoff d n [] = refl
  scan_files-tally cutoff d n (LogFile.unopened ∷ fs) = scan_files-tally cutoff d n fs
  scan_files-tally cutoff d n (LogFile.scanned lines failed ∷ fs) =
      scan_files-tally cutoff (add_lines unmarshal cutoff d lines) (if failed then n + 1 else n) fs
      ∙ sym (add_lines-tally cutoff d lines (events fs))

  scan_unclosed_from :
      (cutoff : ℤ) (d : Dict DenialEvent) (n : ℕ) (fs : List LogFile)
      → (scan_files unmarshal cutoff (d, n) fs).1 ≡ n + failures fs
  unfolding scan_files
  scan_unclosed_from cutoff d n [] = omega arith
  scan_unclosed_from cutoff d n (LogFile.unopened ∷ fs) = scan_unclosed_from cutoff d n fs
  scan_unclosed_from cutoff d n (LogFile.scanned lines true ∷ fs) =
      omega (arith, scan_unclosed_from cutoff (add_lines unmarshal cutoff d lines) (n + 1) fs)
  scan_unclosed_from cutoff d n (LogFile.scanned lines false ∷ fs) =
      scan_unclosed_from cutoff (add_lines unmarshal cutoff d lines) n fs

  -- A scan leaves open each file at which the scanner stopped with an error, and no other.
  pub scan_unclosed :
      (cutoff : ℤ) (fs : List LogFile) → (scan_files unmarshal cutoff ([], 0) fs).1 ≡ failures fs
  scan_unclosed cutoff fs = omega (arith, scan_unclosed_from cutoff [] 0 fs)

-- Sorting keeps the denials, and puts a greater count before a smaller one.
abbrev pub Descending : List DenialEvent → Type 0
Descending [] = Unit {0}
Descending (d ∷ ds) = All (λ e. e.count ≤ℤ d.count) ds × Descending ds

place-perm : (d : DenialEvent) (ds : List DenialEvent) → Perm (d ∷ ds) (place d ds)
unfolding place
place-perm d [] = Perm.refl _
place-perm d (e ∷ es) = elim (Bool-cases (ltb_ℤ d.count e.count)) [
  | inl t ↦ rw t (Perm.trans (Perm.swap e d es) (Perm.cons e (place-perm d es)))
  | inr t ↦ rw t (Perm.refl _)
]

place-All :
    (P : DenialEvent → Type 0) (d : DenialEvent) (ds : List DenialEvent)
    → P d
    → All P ds
    → All P (place d ds)
unfolding place
place-All P d [] p h = (p, tt)
place-All P d (e ∷ es) p h = elim (Bool-cases (ltb_ℤ d.count e.count)) [
  | inl t ↦ rw t (h.0, place-All P d es p h.1)
  | inr t ↦ rw t (p, h)
]

All-le :
    (a b : ℤ) (ds : List DenialEvent)
    → a ≤ℤ b
    → All (λ e. e.count ≤ℤ a) ds
    → All (λ e. e.count ≤ℤ b) ds
All-le a b [] h x = tt
All-le a b (d ∷ ds) h x = (omega (arith, x.0), All-le a b ds h x.1)

place-Descending :
    (d : DenialEvent) (ds : List DenialEvent) → Descending ds → Descending (place d ds)
unfolding place
place-Descending d [] h = (tt, tt)
place-Descending d (e ∷ es) h = elim (Bool-cases (ltb_ℤ d.count e.count)) [
  | inl t ↦
      rw t (place-All (λ x. x.count ≤ℤ e.count) d es (ground arith) h.0, place-Descending d es h.1)
  | inr t ↦ rw t (
    (le_of_test d.count e.count t, All-le e.count d.count es (le_of_test d.count e.count t) h.0),
    h,
  )
]

pub sort_by_count-Descending : (ds : List DenialEvent) → Descending (sort_by_count ds)
unfolding sort_by_count
sort_by_count-Descending [] = tt
sort_by_count-Descending (d ∷ ds) =
    place-Descending d (sort_by_count ds) (sort_by_count-Descending ds)

pub sort_by_count-perm : (ds : List DenialEvent) → Perm ds (sort_by_count ds)
unfolding sort_by_count
sort_by_count-perm [] = Perm.refl _
sort_by_count-perm (d ∷ ds) =
    Perm.trans (Perm.cons d (sort_by_count-perm ds)) (place-perm d (sort_by_count ds))

-- A denial that none of the others exceeds, or none where there is none.
abbrev pub IsMost : List DenialEvent → Option DenialEvent → Type 0
IsMost ds none = ds ≡ []
IsMost ds (some d) = All (λ e. e.count ≤ℤ d.count) ds

find_most_frequent_denial-IsMost :
    (ds : List DenialEvent) → Descending ds → IsMost ds (find_most_frequent_denial ds)
unfolding find_most_frequent_denial
find_most_frequent_denial-IsMost [] h = refl
find_most_frequent_denial-IsMost (x ∷ xs) h = (omega arith, h.0)

-- What `ScanRecentDenials` returns is a permutation of the entries of the map, the most frequent
-- first, and `FindMostFrequentDenial` finds an entry that no other exceeds, or none where there are
-- none.
pub scan-sorted :
    (unmarshal : Bytes → Option AuditEvent) (now since : ℤ) (files : List LogFile)
    → let ds = scan_recent_denials unmarshal now since files in
      Perm (values (scan_files unmarshal (now -ℤ since) ([], 0) files).0) ds
      × Descending ds
      × IsMost ds (find_most_frequent_denial ds)
unfolding scan_recent_denials
scan-sorted unmarshal now since files =
    let ds = values (scan_files unmarshal (now -ℤ since) ([], 0) files).0 in
    (
      sort_by_count-perm ds,
      sort_by_count-Descending ds,
      find_most_frequent_denial-IsMost (sort_by_count ds) (sort_by_count-Descending ds),
    )
