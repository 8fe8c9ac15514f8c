-- ===== src/Files/Private.antt =====
-- Who may read the directories of the program.
use opx.Prelude.{◌≡◌, Bool-cases, Option, none, some, inl, inr, [], if◌then◌else◌}
use opx.Prelude.Bytes.{Bytes, codes, ◌=ᵇ◌}
use opx.Paths.{join_path}
use opx.Dict.{lookup, lookup-insert_self}
use opx.Files.{
  Dirs, Os, owner_only, chmod_dir, make_dir, data_dir, config_dir, runtime_dir, state_dir, has_dir,
  old_dir, made,
}

-- A directory that is returned is there, and its owner's alone.
abbrev pub IsPrivate : Option Bytes × Dirs → Type 0
IsPrivate (none, dirs) = Unit
IsPrivate (some dir, dirs) = lookup dir dirs ≡ some owner_only

module _ (os : Os) where
  chmod_dir-IsPrivate : (dir : Bytes) (dirs : Dirs) → IsPrivate (chmod_dir os dir dirs)
  unfolding chmod_dir
  chmod_dir-IsPrivate dir dirs = elim (Bool-cases (os.chmod_works dir)) [
    | inl works ↦ rw works (lookup-insert_self dir owner_only dirs)
    | inr fails ↦ rw fails tt
  ]

  make_dir-IsPrivate : (dir : Bytes) (dirs : Dirs) → IsPrivate (make_dir os dir dirs)
  unfolding make_dir
  make_dir-IsPrivate dir dirs = elim (Bool-cases (os.mkdir_works dir)) [
    | inl works ↦ rw works (chmod_dir-IsPrivate dir (made dir (lookup dir dirs) dirs))
    | inr fails ↦ rw fails tt
  ]

  data_dir-IsPrivate : (dirs : Dirs) → IsPrivate (data_dir os dirs)
  unfolding data_dir
  data_dir-IsPrivate dirs = make_dir-IsPrivate _ dirs

  state_dir-IsPrivate : (dirs : Dirs) → IsPrivate (state_dir os dirs)
  unfolding state_dir
  state_dir-IsPrivate dirs = elim (Bool-cases (has_dir (lookup (old_dir os) dirs))) [
    | inl old ↦ rw old (chmod_dir-IsPrivate (old_dir os) dirs)
    | inr new ↦ rw new (data_dir-IsPrivate dirs)
  ]

  config_dir-IsPrivate : (dirs : Dirs) → IsPrivate (config_dir os dirs)
  unfolding config_dir
  config_dir-IsPrivate dirs = make_dir-IsPrivate _ dirs

  runtime_dir-IsPrivate : (dirs : Dirs) → IsPrivate (runtime_dir os dirs)
  unfolding runtime_dir
  runtime_dir-IsPrivate dirs = elim (Bool-cases (has_dir (lookup (old_dir os) dirs))) [
    | inl old ↦ rw old (chmod_dir-IsPrivate (old_dir os) dirs)
    | inr new ↦ rw new (below (os.getenv (codes "XDG_RUNTIME_DIR")))
  ]
    where
      below :
          (xdg : Bytes)
          → IsPrivate (
              if xdg =ᵇ []
              then data_dir os dirs
              else make_dir os (join_path xdg (codes "op-authd")) dirs)
      below xdg = elim (Bool-cases (xdg =ᵇ [])) [
        | inl none_set ↦ rw none_set (data_dir-IsPrivate dirs)
        | inr set ↦ rw set (make_dir-IsPrivate (join_path xdg (codes "op-authd")) dirs)
      ]

  -- Each of the four directories that the program keeps its files in, whenever it is returned, is
  -- there and is its owner's alone, whatever its permissions were before.
  pub dirs-IsPrivate :
      (dirs : Dirs)
      → IsPrivate (data_dir os dirs)
        × IsPrivate (config_dir os dirs)
        × IsPrivate (runtime_dir os dirs)
        × IsPrivate (state_dir os dirs)
  dirs-IsPrivate dirs = (
    data_dir-IsPrivate dirs,
    config_dir-IsPrivate dirs,
    runtime_dir-IsPrivate dirs,
    state_dir-IsPrivate dirs,
  )
