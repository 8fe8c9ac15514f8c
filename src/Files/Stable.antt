-- ===== src/Files/Stable.antt =====
-- The state directory is found where it was found before.
use mathlib.Core.Path.{subst}
use opx.Prelude.{
  ℕ, ◌≡◌, refl, sym, ◌∙◌, true, false, Option, none, some, [], ◌∷◌, arith, Bool-cases, inl, inr,
}
use opx.Prelude.Bytes.{Bytes, codes, ◌=ᵇ◌, =ᵇ_iff, =ᵇ_refl}
use opx.Dict.{Dict, lookup, insert, lookup-insert, lookup-insert_self}
use opx.Files.{
  Dirs, Os, owner_only, has_dir, made, old_dir, chmod_dir, make_dir, xdg_dir, data_dir, state_dir,
  in_dir, socket_path, token_path,
}
use opx.Paths.{join_path}

insert-again :
    {V : Type 0} (k : Bytes) (v : V) (d : Dict V) → insert k v (insert k v d) ≡ insert k v d
unfolding insert
insert-again k v [] = rw (=ᵇ_refl k) refl
insert-again k v ((j, w) ∷ d) = ground (arith, =ᵇ_refl k, insert-again k v d)

lookup-made :
    (j dir : Bytes) (dirs : Dirs)
    → (dir =ᵇ j) ≡ false
    → lookup j (made dir (lookup dir dirs) dirs) ≡ lookup j dirs
unfolding made
lookup-made j dir dirs other = go (lookup dir dirs)
  where
    go : (o : Option ℕ) → lookup j (made dir o dirs) ≡ lookup j dirs
    go none = lookup-insert dir j owner_only dirs ∙ rw other refl
    go (some mode) = refl

module _ (os : Os) where
  -- Where a directory is returned, the same is returned again, and nothing is changed.
  abbrev pub IsStable : Option Bytes × Dirs → Type 0
  IsStable (none, dirs) = Unit
  IsStable (some dir, dirs) = state_dir os dirs ≡ (some dir, dirs)

  old-again :
      (dirs : Dirs)
      → os.chmod_works (old_dir os) ≡ true
      → IsStable (some (old_dir os), insert (old_dir os) owner_only dirs)
  unfolding state_dir chmod_dir has_dir
  old-again dirs works =
      rw
        (
          lookup-insert_self (old_dir os) owner_only dirs,
          works,
          insert-again (old_dir os) owner_only dirs,
        )
        refl

  old-IsStable : (dirs : Dirs) → IsStable (chmod_dir os (old_dir os) dirs)
  unfolding chmod_dir
  old-IsStable dirs = elim (Bool-cases (os.chmod_works (old_dir os))) [
    | inl works ↦ rw works (old-again dirs works)
    | inr fails ↦ rw fails tt
  ]

  abbrev dir : Bytes
  dir = xdg_dir os (codes "XDG_DATA_HOME") (codes ".local/share")

  data-again :
      (dirs : Dirs)
      → os.chmod_works dir ≡ true
      → os.mkdir_works dir ≡ true
      → data_dir os (insert dir owner_only dirs) ≡ (some dir, insert dir owner_only dirs)
  unfolding data_dir make_dir chmod_dir made
  data-again dirs works makes =
      rw (makes, works, lookup-insert_self dir owner_only dirs, insert-again dir owner_only dirs)
        refl

  new-again :
      (dirs : Dirs)
      → has_dir (lookup (old_dir os) dirs) ≡ false
      → os.chmod_works dir ≡ true
      → os.mkdir_works dir ≡ true
      → IsStable (some dir, insert dir owner_only (made dir (lookup dir dirs) dirs))
  unfolding state_dir
  new-again dirs new works makes = elim (Bool-cases (dir =ᵇ old_dir os)) [
    | inl same ↦
        let before = made dir (lookup dir dirs) dirs in
        let at_old : dir ≡ old_dir os = (=ᵇ_iff dir (old_dir os)).0 same in
        subst (λ x. os.chmod_works x ≡ true → IsStable (some x, insert x owner_only before))
          (sym at_old) (old-again before) works
    | inr other ↦
        let still : lookup (old_dir os) (insert dir owner_only (made dir (lookup dir dirs) dirs))
            ≡ lookup (old_dir os) dirs =
          lookup-insert dir (old_dir os) owner_only (made dir (lookup dir dirs) dirs)
          ∙ rw other (lookup-made (old_dir os) dir dirs other) in
        rw (still, new) (data-again (made dir (lookup dir dirs) dirs) works makes)
  ]

  data-IsStable :
      (dirs : Dirs) → has_dir (lookup (old_dir os) dirs) ≡ false → IsStable (data_dir os dirs)
  unfolding data_dir make_dir chmod_dir
  data-IsStable dirs new = elim (Bool-cases (os.mkdir_works dir)) [
    | inl makes ↦ elim (Bool-cases (os.chmod_works dir)) [
      | inl works ↦ rw (makes, works) (new-again dirs new works makes)
      | inr fails ↦ rw (makes, fails) tt
    ]
    | inr fails ↦ rw fails tt
  ]

  state_dir-IsStable : (dirs : Dirs) → IsStable (state_dir os dirs)
  unfolding state_dir
  state_dir-IsStable dirs = elim (Bool-cases (has_dir (lookup (old_dir os) dirs))) [
    | inl old ↦ rw old (old-IsStable dirs)
    | inr new ↦ rw new (data-IsStable dirs new)
  ]

  -- Where the state directory was found, it is found again, and nothing is changed.
  pub state_dir-again :
      (dirs dirs' : Dirs) (d : Bytes)
      → state_dir os dirs ≡ (some d, dirs')
      → state_dir os dirs' ≡ (some d, dirs')
  state_dir-again dirs dirs' d h = subst IsStable h (state_dir-IsStable dirs)

  -- The files of the state directory are beside each other.
  pub socket_path-found :
      (dirs dirs' : Dirs) (dir : Bytes)
      → state_dir os dirs ≡ (some dir, dirs')
      → socket_path os dirs ≡ (some (join_path dir (codes "socket.sock")), dirs')
  unfolding socket_path in_dir
  socket_path-found dirs dirs' dir h = rw h refl

  pub token_path-found :
      (dirs dirs' : Dirs) (dir : Bytes)
      → state_dir os dirs ≡ (some dir, dirs')
      → token_path os dirs ≡ (some (join_path dir (codes "token")), dirs')
  unfolding token_path in_dir
  token_path-found dirs dirs' dir h = rw h refl
