-- ===== src/Audit/Scan/Found.antt =====
-- What the scan of the logs finds: `ScanRecentDenials` of internal/audit/management.go.
use opx.Prelude.{
  All, sym, false≢true, ℕ, ◌<◌, ◌^◌, ◌≡◌, ◌∙◌, arith, ◌&&◌, inl, inr, Bool-cases, refl, ap, Bool,
  true, false, Option, none, some, List, [], ◌∷◌, map, length,
}
use opx.Prelude.Int.{ℤ, ◌-ℤ◌}
use opx.Prelude.Bytes.{Bytes, codes, ◌=ᵇ◌, =ᵇ_iff}
use mathlib.Core.List.{Perm}
use mathlib.Core.List.Perm
use opx.Dict.{Dict, lookup, keys}
use opx.Paths.{join_path}
use opx.Files.{Os, Dirs}
use opx.Audit.Events.{AuditEvent}
use opx.Audit.Denials.{DenialEvent, LogFile, unopened, scanned, values}
use opx.Audit.Denials.Counting.{Descending, events, tally, scan_files-tally, scan-sorted}
use opx.Audit.Denials.Summed.{is_match, Sums, IsUnique, tally-Sums, tally-IsUnique, values-map}
use opx.Generics.Laws.{passing, filter_slice-passing}
use opx.Strings.{has_prefix, has_suffix, trim_prefix}
use mathlib.Core.Path.{subst}
use opx.Audit.Roller.{
  Calendar, Disk, Roller, default_roller_config, less, place_name, sort_names, read_inode, read_log,
  is_log_name, log_names, list_log_files,
}
use opx.Audit.Logger.{new_roller}
use opx.Audit.Scan.{
  Scanner, read_path, opened, log_file, log_files, scan_listed, scan_rolled, scan_made,
  scan_directory,
}

-- Sorting the paths of names orders the names.
abbrev Ordered : (Bytes → Type 0) → Bytes → List Bytes → List Bytes → Type 0
Ordered P base paths ns =
    (ms : List Bytes) × (paths ≡ map (join_path base) ms) × Perm ns ms × (All P ns → All P ms)

module _ (P : Bytes → Type 0) (base : Bytes) where
  place-names :
      (n : Bytes) (ns : List Bytes)
      → Ordered P base (place_name (join_path base n) (map (join_path base) ns)) (n ∷ ns)
  unfolding place_name
  place-names n [] = (n ∷ [], refl, Perm.refl _, λ h. h)
  place-names n (m ∷ ns) = elim (Bool-cases (less (join_path base n) (join_path base m))) [
    | inl t ↦
        let (ms, same, perm, all) = place-names n ns in
        (
          m ∷ ms,
          rw t (ap (λ ps. join_path base m ∷ ps) same),
          Perm.trans (Perm.swap m n ns) (Perm.cons m perm),
          λ h. (h.1.0, all (h.0, h.1.1)),
        )
    | inr t ↦ (n ∷ m ∷ ns, rw t refl, Perm.refl _, λ h. h)
  ]

  sort-names : (ns : List Bytes) → Ordered P base (sort_names (map (join_path base) ns)) ns
  unfolding sort_names
  sort-names [] = ([], refl, Perm.refl _, λ h. h)
  sort-names (n ∷ ns) =
      let (ms, same, perm, all) = sort-names ns in
      let (ls, placed, perm', all') = place-names n ms in
      (
        ls,
        ap (place_name (join_path base n)) same ∙ placed,
        Perm.trans (Perm.cons n perm) perm',
        λ h. all' (h.0, all h.1),
      )

-- The names of logs.
abbrev pub logs_of : Dict ℕ → List Bytes
logs_of names =
    passing
      (λ n.
        has_prefix n (codes "audit-") && has_suffix (trim_prefix n (codes "audit-")) (codes ".log"))
      (keys names)

-- No other name has this path.
abbrev OwnPath : Bytes → Dict ℕ → Bytes → Type 0
OwnPath base names n = All (λ m. join_path base m ≡ join_path base n → m ≡ n) (keys names)

-- The names of a directory have different paths.
abbrev pub HavePaths : Bytes → Dict ℕ → Type 0
HavePaths base names = All (OwnPath base names) (keys names)

All-of_passing :
    (P : Bytes → Type 0) (p : Bytes → Bool) (ns : List Bytes) → All P ns → All P (passing p ns)
All-of_passing P p [] h = tt
All-of_passing P p (n ∷ ns) h = elim (Bool-cases (p n)) [
  | inl t ↦ rw t (h.0, All-of_passing P p ns h.1)
  | inr t ↦ rw t (All-of_passing P p ns h.1)
]

listed-names :
    (r : Roller) (disk : Disk)
    → Ordered
        (OwnPath r.base_dir disk.names)
        r.base_dir
        (list_log_files r disk)
        (logs_of disk.names)
unfolding list_log_files log_names
listed-names r disk =
    rw (filter_slice-passing (keys disk.names) is_log_name) (
      sort-names (OwnPath r.base_dir disk.names) r.base_dir (passing is_log_name (keys disk.names)))

-- Under the path of a name its file is read.
read_path-lookup :
    (base : Bytes) (contents : List Bytes) (names : Dict ℕ) (n : Bytes)
    → OwnPath base names n
    → read_path base contents names (join_path base n) ≡ read_inode contents (lookup n names)
unfolding read_path read_inode lookup keys
read_path-lookup base contents [] n own = refl
read_path-lookup base contents ((m, i) ∷ names) n own = elim (Bool-cases (m =ᵇ n)) [
  | inl same ↦
      let there : (join_path base m =ᵇ join_path base n) ≡ true =
        (=ᵇ_iff (join_path base m) (join_path base n)).1
          (ap (join_path base) ((=ᵇ_iff m n).0 same)) in
      rw (same, there) refl
  | inr other ↦ elim (Bool-cases (join_path base m =ᵇ join_path base n)) [
    | inl clash ↦ absurd (
        false≢true (
          sym other
          ∙ (=ᵇ_iff m n).1 (own.0 ((=ᵇ_iff (join_path base m) (join_path base n)).0 clash))))
    | inr apart ↦ rw (other, apart) (read_path-lookup base contents names n own.1)
  ]
]

module _ (sc : Scanner) where
  -- What a scan finds: the values of a map with one entry for each key that a refused access in the logs has,
  -- which sums up the accesses with this key; the greatest number first.
  abbrev pub Scanned : ℤ → List AuditEvent → List DenialEvent → Type 0
  Scanned cutoff es ds =
      (m : Dict DenialEvent) × IsUnique (keys m)
      × Perm (map (λ (p : Bytes × DenialEvent). p.1) m) ds
      × Descending ds
      × ((k : Bytes) → Sums (passing (is_match cutoff k) es) (lookup k m))

  listed-Scanned :
      (now since : ℤ) (fs : List LogFile)
      → length (events sc.unmarshal fs) < 2 ^ 63
      → Scanned (now -ℤ since) (events sc.unmarshal fs) (scan_listed sc now since fs)
  unfolding scan_listed lookup keys
  listed-Scanned now since [] short = ([], tt, Perm.refl [], tt, λ k. refl)
  listed-Scanned now since (f ∷ fs) short =
      let (same, descending, most) = scan-sorted sc.unmarshal now since (f ∷ fs) in
      let found = scan_files-tally sc.unmarshal (now -ℤ since) [] 0 (f ∷ fs) in
      let es = events sc.unmarshal (f ∷ fs) in
      (
        tally (now -ℤ since) [] es,
        tally-IsUnique (now -ℤ since) es [] tt,
        subst (λ l. Perm l (scan_listed sc now since (f ∷ fs)))
            (ap values found ∙ values-map (tally (now -ℤ since) [] es)) same,
        descending,
        λ k. tally-Sums (now -ℤ since) k es [] [] (omega (arith, short)) refl,
      )

  -- A log with its content: unopened where it cannot be opened, and otherwise with its lines.
  abbrev content_of : Bool → Option Bytes → LogFile
  content_of false content = unopened
  content_of true none = unopened
  content_of true (some b) = scanned (sc.scan_lines b).0 (sc.scan_lines b).1

  abbrev pub file_of : Roller → Disk → Bytes → LogFile
  file_of r disk n = content_of (sc.opens (join_path r.base_dir n)) (read_log n disk)

  opened-content_of : (opens : Bool) (o : Option Bytes) → opened sc opens o ≡ content_of opens o
  unfolding opened
  opened-content_of false o = refl
  opened-content_of true none = refl
  opened-content_of true (some b) = refl

  log_file-of :
      (r : Roller) (disk : Disk) (n : Bytes)
      → OwnPath r.base_dir disk.names n
      → log_file sc r disk (join_path r.base_dir n) ≡ file_of r disk n
  unfolding log_file read_log
  log_file-of r disk n own =
      rw (read_path-lookup r.base_dir disk.contents disk.names n own) (opened-content_of _ _)

  log_files-of :
      (r : Roller) (disk : Disk) (ns : List Bytes)
      → All (OwnPath r.base_dir disk.names) ns
      → map (log_file sc r disk) (map (join_path r.base_dir) ns) ≡ map (file_of r disk) ns
  log_files-of r disk [] own = refl
  log_files-of r disk (n ∷ ns) own =
      (λ i. log_file-of r disk n own.0 i ∷ log_files-of r disk ns own.1 i)

  -- Where the roller can be made, the scan reads each log of the directory, as the roller
  -- leaves it, once. It gives one entry for each key that a refused access no older than
  -- `since` has, and no other: with the process and the reference of the first access with this
  -- key, the number of these accesses and the time of the latest. The greatest number comes
  -- first. The key is the path of the process and the reference, with a `|` in between. The names in the
  -- directory have different paths, and there are fewer than 2^63 events.
  pub scan_directory-Scanned :
      (cal : Calendar) (rotated : ℤ) (rotates : Bool) (now since : ℤ) (os : Os) (dirs dirs' : Dirs)
      (disk disk' : Disk) (r : Roller)
      → new_roller cal default_roller_config rotated rotates os dirs disk ≡ ((some r, disk'), dirs')
      → length (events sc.unmarshal (log_files sc r disk')) < 2 ^ 63
      → HavePaths r.base_dir disk'.names
      → (names : List Bytes) × Perm (logs_of disk'.names) names
        × (ds : List DenialEvent) × (scan_directory sc cal rotated rotates now since os dirs disk
            ≡ ((some ds, disk'), dirs'))
        × Scanned (now -ℤ since) (events sc.unmarshal (map (file_of r disk') names)) ds
  unfolding scan_directory scan_made scan_rolled log_files
  scan_directory-Scanned cal rotated rotates now since os dirs dirs' disk disk' r made short own =
      let (names, paths, perm, all) = listed-names r disk' in
      let same : log_files sc r disk' ≡ map (file_of r disk') names =
        ap (map (log_file sc r disk')) paths
        ∙ log_files-of r disk' names (all (All-of_passing _ _ (keys disk'.names) own)) in
      (
        names,
        perm,
        scan_listed sc now since (log_files sc r disk'),
        ap (scan_made sc now since) made,
        subst
            (λ fs.
              Scanned (now -ℤ since) (events sc.unmarshal fs)
                (scan_listed sc now since (log_files sc r disk')))
            same (listed-Scanned now since (log_files sc r disk') short),
      )
