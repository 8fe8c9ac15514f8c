-- ===== src/Files/Token/Atomic.antt =====
-- `EnsureToken`, run by many processes at once: the file holds a whole token or none.
use mathlib.Core.Path.{subst}
use opx.Prelude.{
  ℕ, ◌≡◌, ◌≢◌, ◌∙◌, ◌⊎◌, refl, sym, Bool, true, false, Option, none, some, List, [], ◌∷◌, arith,
  take, Bool-cases, Option-cases, inl, inr, ◌==◌, ==_iff, if◌then◌else◌,
}
use opx.Prelude.Bytes.{Bytes}
use opx.Dict.{lookup, delete, lookup-insert_self}
use opx.Policy.{hex_encode}
use opx.Files.Token.Paths.{insert_temp, delete_temp}
use opx.Files.Token.{
  FileMap, Luck, Pc, gave, failed, reading, drawing, opening, writing, closing, discarding,
  renaming, retreating, rereading, returned, temp_path, act, write_outcome, rename_outcome,
}

-- The processes, by number, over one file system.
pub record System : Type 0 where
  pub files : FileMap
  pub pc : ℕ → Pc

abbrev pub update : (ℕ → Pc) → ℕ → Pc → ℕ → Pc
update f i p j = if i == j then p else f j

module _ (path : Bytes) (luck : ℕ → Luck) where
  -- Any process makes its next call.
  unfoldable pub step : System → ℕ → System
  step s i =
      let (p, files) = act path (luck i) (s.pc i) s.files in
      record { files = files; pc = update s.pc i p }

  -- The processes, in the order in which they make their calls.
  unfoldable pub run : System → List ℕ → System
  unfolding step
  run s [] = s
  run s (i ∷ is) = run (step s i) is

-- A process between the making of the temporary file and its end.
abbrev owns : Pc → Bool
owns (writing t) = true
owns (closing t e) = true
owns (discarding e) = true
owns (renaming t) = true
owns retreating = true
owns _ = false

-- Before the rename the temporary file holds the token.
abbrev Ready : Bytes → Pc → FileMap → Type 0
Ready path (closing t none) files = lookup (temp_path path) files ≡ some t
Ready path (renaming t) files = lookup (temp_path path) files ≡ some t
Ready path _ files = Unit {0}

module _ (path : Bytes) (luck : ℕ → Luck) where
  -- A token that some process has drawn, with all its digits.
  abbrev pub IsWhole : Bytes → Type 0
  IsWhole t = (i : ℕ) × (b : Bytes) × ((luck i).random ≡ some b) × (t ≡ hex_encode b)

  abbrev pub Carried : Pc → Type 0
  Carried (opening t) = IsWhole t
  Carried (writing t) = IsWhole t
  Carried (closing t e) = IsWhole t
  Carried (renaming t) = IsWhole t
  Carried (returned (gave t)) = IsWhole t
  Carried _ = Unit {0}

  abbrev Whole : FileMap → Type 0
  Whole files = (t : Bytes) → lookup path files ≡ some t → IsWhole t

  abbrev temp : FileMap → Option Bytes
  temp files = lookup (temp_path path) files

  act-Carried :
      (i : ℕ) (pc : Pc) (files : FileMap)
      → Carried pc
      → Whole files
      → Carried (act path (luck i) pc files).0
  unfolding act
  act-Carried i reading files c w = elim (Option-cases (lookup path files)) [
    | inl absent ↦ ground (arith, absent)
    | inr (t, there) ↦ elim (Bool-cases (luck i).unreadable) [
      | inl u ↦ rw u tt
      | inr r ↦ rw (r, there) (w t there)
    ]
  ]
  act-Carried i drawing files c w = elim (Option-cases (luck i).random) [
    | inl nothing ↦ rw nothing tt
    | inr (b, drawn) ↦ rw drawn (i, b, drawn, refl)
  ]
  act-Carried i (opening t) files c w = ground arith
  act-Carried i (writing t) files c w = ground arith
  act-Carried i (closing t none) files c w = ground arith
  act-Carried i (closing t (some e)) files c w = tt
  act-Carried i (renaming t) files c w = ground arith
  act-Carried i (discarding e) files c w = tt
  act-Carried i retreating files c w = tt
  act-Carried i rereading files c w = elim (Option-cases (lookup path files)) [
    | inl absent ↦ ground (arith, absent)
    | inr (t, there) ↦ elim (Bool-cases (luck i).unreadable) [
      | inl u ↦ rw u tt
      | inr r ↦ rw (r, there) (w t there)
    ]
  ]
  act-Carried i (returned (gave t)) files c w = c
  act-Carried i (returned (failed e)) files c w = tt

  abbrev Held : Pc → FileMap → Type 0
  Held pc files = (owns pc ≡ true) → temp files ≢ none

  act-Ready :
      (l : Luck) (pc : Pc) (files : FileMap)
      → Held pc files
      → Ready path pc files
      → let (pc', files') = act path l pc files in Ready path pc' files' × Held pc' files'
  unfolding act
  act-Ready l reading files h r = ground arith
  act-Ready l drawing files h r = ground arith
  act-Ready l (opening t) files h r = ground (arith, lookup-insert_self (temp_path path) [] files)
  act-Ready l (writing t) files h r = elim (Option-cases l.short_write) [
    | inl whole ↦
        let there = lookup-insert_self (temp_path path) t files in rw whole (there, λ _ q. cc)
    | inr (n, short) ↦
        let there = lookup-insert_self (temp_path path) (take n t) files in rw short (tt, λ _ q. cc)
  ]
  act-Ready l (closing t none) files h r = ground (arith, h refl)
  act-Ready l (closing t (some e)) files h r = (tt, λ _. h refl)
  act-Ready l (renaming t) files h r = ground arith
  act-Ready l (discarding e) files h r = (tt, λ q. cc)
  act-Ready l retreating files h r = (tt, λ q. cc)
  act-Ready l rereading files h r = ground arith
  act-Ready l (returned a) files h r = (tt, λ q. cc)

  -- The token changes only in a rename, to the token that the process carries.
  act-path :
      (l : Luck) (pc : Pc) (files : FileMap)
      → Carried pc
      → Ready path pc files
      → Whole files
      → Whole (act path l pc files).1
  unfolding act
  act-path l reading files c r w t h = w t h
  act-path l drawing files c r w t h = w t h
  act-path l (opening u) files c r w t h = w t (ground (arith, insert_temp path files []))
  act-path l (writing u) files c r w t h = elim (Option-cases l.short_write) [
    | inl whole ↦ w t (sym (insert_temp path files u) ∙ rw (whole, write_outcome) at h)
    | inr (n, short) ↦
        w t (sym (insert_temp path files (take n u)) ∙ rw (short, write_outcome) at h)
  ]
  act-path l (closing u e) files c r w t h = w t h
  act-path l (renaming u) files c r w t h = elim (Bool-cases l.no_rename) [
    | inl stays ↦ w t (rw (stays, rename_outcome) at h)
    | inr moves ↦
        let h' = rw (moves, r, rename_outcome) at h in
        let same : u ≡ t =
          ground (arith, h', lookup-insert_self path u (delete (temp_path path) files)) in
        subst IsWhole same c
  ]
  act-path l (discarding e) files c r w t h = w t (sym (delete_temp path files) ∙ h)
  act-path l retreating files c r w t h = w t (sym (delete_temp path files) ∙ h)
  act-path l rereading files c r w t h = w t h
  act-path l (returned a) files c r w t h = w t h

  -- What a call does to the temporary file of another process.
  act-temp :
      (l : Luck) (pc : Pc) (files : FileMap)
      → (owns pc ≡ true)
        ⊎ ((temp (act path l pc files).1 ≡ temp files) × (owns (act path l pc files).0 ≡ false))
        ⊎ (temp files ≡ none)
  unfolding act
  act-temp l reading files = ground arith
  act-temp l drawing files = ground arith
  act-temp l (opening t) files = ground arith
  act-temp l (writing t) files = inl refl
  act-temp l (closing t e) files = inl refl
  act-temp l (renaming t) files = inl refl
  act-temp l (discarding e) files = inl refl
  act-temp l retreating files = inl refl
  act-temp l rereading files = ground arith
  act-temp l (returned a) files = ground arith

  same_temp-Ready :
      (pc : Pc) (files files' : FileMap)
      → ((owns pc ≡ true) → temp files' ≡ temp files)
      → Ready path pc files
      → Ready path pc files'
  same_temp-Ready (closing t none) files files' same r = same refl ∙ r
  same_temp-Ready (renaming t) files files' same r = same refl ∙ r
  same_temp-Ready (closing t (some e)) files files' same r = tt
  same_temp-Ready reading files files' same r = tt
  same_temp-Ready drawing files files' same r = tt
  same_temp-Ready (opening t) files files' same r = tt
  same_temp-Ready (writing t) files files' same r = tt
  same_temp-Ready (discarding e) files files' same r = tt
  same_temp-Ready retreating files files' same r = tt
  same_temp-Ready rereading files files' same r = tt
  same_temp-Ready (returned a) files files' same r = tt

  -- What holds between any two calls: the token is whole, and so is each that a process carries; at
  -- most one process owns the temporary file, which is there, and whole before the rename.
  pub record IsSound (s : System) : Type 0 where
    whole : Whole s.files
    carried : (i : ℕ) → Carried (s.pc i)
    alone : (i j : ℕ) → owns (s.pc i) ≡ true → owns (s.pc j) ≡ true → i ≡ j
    held : (i : ℕ) → Held (s.pc i) s.files
    ready : (i : ℕ) → Ready path (s.pc i) s.files

  -- The temporary file of another process is left alone.
  others :
      (s : System) (i j : ℕ)
      → IsSound s
      → i ≢ j
      → owns (s.pc j) ≡ true
      → (temp (act path (luck i) (s.pc i) s.files).1 ≡ temp s.files)
        × (owns (act path (luck i) (s.pc i) s.files).0 ≡ false)
  others s i j h ne o = elim (act-temp (luck i) (s.pc i) s.files) [
    | inl mine ↦ absurd (ne (h.alone i j mine o))
    | inr (inl same) ↦ same
    | inr (inr absent) ↦ absurd (h.held j o absent)
  ]

  -- To prove something of every process after a call of one.
  update_cases :
      (P : ℕ → Pc → Type 0) (f : ℕ → Pc) (i : ℕ) (p : Pc)
      → P i p
      → ((j : ℕ) → i ≢ j → P j (f j))
      → (j : ℕ) → P j (update f i p j)
  update_cases P f i p mine theirs j = elim (Bool-cases (i == j)) [
    | inl same ↦ rw same (subst (λ k. P k p) ((==_iff i j).0 same) mine)
    | inr other ↦ rw other (theirs j (λ e. cc ((==_iff i j).1 e)))
  ]

  step-IsSound : (s : System) (i : ℕ) → IsSound s → IsSound (step path luck s i)
  unfolding step
  step-IsSound s i h =
      let (p, files) = act path (luck i) (s.pc i) s.files in
      let (ready, held) = act-Ready (luck i) (s.pc i) s.files (h.held i) (h.ready i) in
      let temp_of = λ (j : ℕ) (ne : i ≢ j) (o : owns (s.pc j) ≡ true). (others s i j h ne o).0 in
      record {
        whole = act-path (luck i) (s.pc i) s.files (h.carried i) (h.ready i) h.whole;
        carried =
            update_cases (λ j p. Carried p) s.pc i p
              (act-Carried i (s.pc i) s.files (h.carried i) h.whole) (λ j ne. h.carried j);
        alone =
            update_cases
              (λ j p.
                (k : ℕ)
                → owns p ≡ true
                → owns (update s.pc i (act path (luck i) (s.pc i) s.files).0 k) ≡ true
                → j ≡ k)
              s.pc i p
              (update_cases (λ k q. owns p ≡ true → owns q ≡ true → i ≡ k) s.pc i p (λ _ _. refl)
                (λ k ne mine o. cc (others s i k h ne o).1))
              (λ j ne.
                update_cases (λ k q. owns (s.pc j) ≡ true → owns q ≡ true → j ≡ k) s.pc i p
                  (λ o mine. cc (others s i j h ne o).1) (λ k _ o o'. h.alone j k o o'));
        held =
            update_cases (λ j p. Held p files) s.pc i p held
              (λ j ne o absent. h.held j o (sym (temp_of j ne o) ∙ absent));
        ready =
            update_cases (λ j p. Ready path p files) s.pc i p ready
              (λ j ne. same_temp-Ready (s.pc j) s.files files (temp_of j ne) (h.ready j));
      }

  run-IsSound : (s : System) (is : List ℕ) → IsSound s → IsSound (run path luck s is)
  unfolding run
  run-IsSound s [] h = h
  run-IsSound s (i ∷ is) h = run-IsSound (step path luck s i) is (step-IsSound s i h)

  -- What stands in the token file, if it is there.
  abbrev pub IsToken : Option Bytes → Type 0
  IsToken none = Unit {0}
  IsToken (some t) = IsWhole t

  Whole-IsToken : (files : FileMap) → Whole files → IsToken (lookup path files)
  Whole-IsToken files w = elim (Option-cases (lookup path files)) [
    | inl absent ↦ rw absent tt
    | inr (t, there) ↦ rw there (w t there)
  ]

  -- Whatever processes make their calls in whatever order, from files with neither a token nor a
  -- temporary one: the token file is never seen with less than a whole token that some process has
  -- drawn, and no process returns anything else.
  pub run-Whole :
      (files : FileMap) (is : List ℕ) (i : ℕ)
      → lookup path files ≡ none
      → temp files ≡ none
      → let s = run path luck (record { files = files; pc = λ i. reading }) is in
        IsToken (lookup path s.files) × Carried (s.pc i)
  run-Whole files is i no_token no_temp =
      let h =
        run-IsSound (record { files = files; pc = λ i. reading }) is
          (record {
            whole = λ t there. cc;
            carried = λ j. tt;
            alone = λ j k o. cc;
            held = λ j o. cc;
            ready = λ j. tt;
          }) in
      (
        Whole-IsToken (run path luck (record { files = files; pc = λ i. reading }) is).files
            h.whole,
        h.carried i,
      )
