-- ===== src/Audit/Roller/Cleanup.antt =====
-- Which files the clean-up of the audit log removes.
use opx.Prelude.{
  ℕ, ◌≡◌, refl, sym, ap, ◌∙◌, Bool, ◌&&◌, true, Option, none, some, ◌++◌, List, [], ◌∷◌, arith, any,
  Bool-cases, inl, inr, if◌then◌else◌,
}
use opx.Prelude.Int.{ℤ, pos, ◌-ℤ◌, ◌<ℤ◌}
use opx.Prelude.Bytes.{Bytes, codes, ◌=ᵇ◌, =ᵇ_iff}
use opx.Dict.{Dict, lookup, delete, keys, lookup-delete, lookup_of_not_key}
use mathlib.Core.List.{append_cancel_right}
use opx.Strings.{has_prefix, has_suffix, trim_prefix, trim_suffix}
use opx.Strings.Laws.{
  has_prefix-append, trim_prefix-append, append-trim_prefix, trim_suffix-append_back,
  has_suffix-append,
}
use opx.Generics.Laws.{passing, filter_slice-passing}
use opx.Audit.Roller.{
  RollerConfig, Calendar, Disk, is_log_name, is_expired, remove_expired, log_names,
  cleanup_old_logs, before_cutoff,
}

any-passing :
    (p : Bytes → Bool) (n : Bytes) (ks : List Bytes)
    → any (λ j. j =ᵇ n) (passing p ks) ≡ (any (λ j. j =ᵇ n) ks && p n)
any-passing p n [] = refl
any-passing p n (k ∷ ks) = elim (Bool-cases (k =ᵇ n)) [
  | inl same ↦
      let e : p k ≡ p n = ap p ((=ᵇ_iff k n).0 same) in ground (arith, any-passing p n ks, same, e)
  | inr other ↦ ground (arith, any-passing p n ks, other)
]

module _ (cal : Calendar) where
  lookup-remove :
      (cutoff : ℤ) (n : Bytes) (files : List Bytes) (names : Dict ℕ)
      → lookup n (remove_expired cal cutoff files names)
        ≡ (if any (λ j. j =ᵇ n) files && is_expired cal cutoff n then none else lookup n names)
  unfolding remove_expired
  lookup-remove cutoff n [] names = refl
  lookup-remove cutoff n (f ∷ files) names = elim (Bool-cases (f =ᵇ n)) [
    | inl same ↦
        let e : is_expired cal cutoff f ≡ is_expired cal cutoff n =
          ap (is_expired cal cutoff) ((=ᵇ_iff f n).0 same) in
        ground (
          arith,
          same,
          e,
          lookup-delete f n names,
          lookup-remove cutoff n files (if is_expired cal cutoff f then delete f names else names),
        )
    | inr other ↦ ground (
      arith,
      other,
      lookup-delete f n names,
      lookup-remove cutoff n files (if is_expired cal cutoff f then delete f names else names),
    )
  ]

  any-log_names :
      (n : Bytes) (names : Dict ℕ)
      → any (λ j. j =ᵇ n) (log_names names) ≡ (any (λ j. j =ᵇ n) (keys names) && is_log_name n)
  unfolding log_names
  any-log_names n names =
      rw (filter_slice-passing (keys names) is_log_name) (any-passing is_log_name n (keys names))

  -- A log whose date lies before the cutoff.
  abbrev pub IsOld : ℤ → Bytes → Type 0
  IsOld cutoff n =
      (date : Bytes) × (t : ℤ) × (n ≡ codes "audit-" ++ (date ++ codes ".log"))
      × (cal.parse_date date ≡ some t)
      × (t <ℤ cutoff)

  before-cutoff :
      (cutoff : ℤ) (o : Option ℤ)
      → before_cutoff cal cutoff o ≡ true
      → (t : ℤ) × (o ≡ some t) × (t <ℤ cutoff)
  unfolding before_cutoff
  before-cutoff cutoff none h = absurd (ground arith)
  before-cutoff cutoff (some t) h = (t, refl, ground arith)

  IsOld-removed :
      (cutoff : ℤ) (n : Bytes) → IsOld cutoff n → (is_log_name n && is_expired cal cutoff n) ≡ true
  unfolding is_log_name is_expired before_cutoff
  IsOld-removed cutoff n (date, t, e, parses, early) =
      let bare : trim_suffix (date ++ codes ".log") (codes ".log") ≡ date =
        append_cancel_right _ _ (codes ".log") (
          trim_suffix-append_back (date ++ codes ".log") (codes ".log")
            (has_suffix-append date (codes ".log"))) in
      let suffix : has_suffix (codes "audit-" ++ (date ++ codes ".log")) (codes ".log") ≡ true =
        has_suffix-append (codes "audit-" ++ date) (codes ".log") in
      rw
        (
          e,
          suffix,
          has_prefix-append (codes "audit-") (date ++ codes ".log"),
          trim_prefix-append (codes "audit-") (date ++ codes ".log"),
          has_suffix-append date (codes ".log"),
          bare,
          parses,
        )
        (ground arith)

  removed-IsOld :
      (cutoff : ℤ) (n : Bytes) → (is_log_name n && is_expired cal cutoff n) ≡ true → IsOld cutoff n
  unfolding is_log_name is_expired
  removed-IsOld cutoff n h =
      let prefixed : has_prefix n (codes "audit-") ≡ true = ground (arith, h) in
      let rest = trim_prefix n (codes "audit-") in
      let suffixed : has_suffix rest (codes ".log") ≡ true = ground (arith, h) in
      let date = trim_suffix rest (codes ".log") in
      let early : before_cutoff cal cutoff (cal.parse_date date) ≡ true = ground (arith, h) in
      let (t, parses, lt) = before-cutoff cutoff (cal.parse_date date) early in
      let whole = append-trim_prefix n (codes "audit-") prefixed in
      let tail = trim_suffix-append_back rest (codes ".log") suffixed in
      (date, t, sym whole ∙ ap (λ x. codes "audit-" ++ x) (sym tail), parses, lt)

  -- The clean-up removes the names `audit-DATE.log` whose date lies before the cutoff, `MaxDays` days before now; it
  -- removes no other name, and leaves the contents alone.
  pub lookup-cleanup_old_logs :
      (now : ℤ) (config : RollerConfig) (disk : Disk) (n : Bytes)
      → let disk' = cleanup_old_logs cal now config disk in
        let cutoff = cal.add_days now (pos 0 -ℤ config.max_days) in
        (IsOld cutoff n → lookup n disk'.names ≡ none)
        × (¬ IsOld cutoff n → lookup n disk'.names ≡ lookup n disk.names)
        × (disk'.contents ≡ disk.contents)
  unfolding cleanup_old_logs
  lookup-cleanup_old_logs now config disk n =
      let cutoff = cal.add_days now (pos 0 -ℤ config.max_days) in
      let names = (cleanup_old_logs cal now config disk).names in
      let left : lookup n names
          ≡ (if is_log_name n && is_expired cal cutoff n then none else lookup n disk.names) =
        ground (
          arith,
          lookup-remove cutoff n (log_names disk.names) disk.names,
          any-log_names n disk.names,
          lookup_of_not_key n disk.names,
        ) in
      (
        λ old. left ∙ rw (IsOld-removed cutoff n old) refl,
        λ young. elim (Bool-cases (is_log_name n && is_expired cal cutoff n)) [
          | inl gone ↦ absurd (young (removed-IsOld cutoff n gone))
          | inr kept ↦ left ∙ rw kept refl
        ],
        refl,
      )
