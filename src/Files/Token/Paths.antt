-- ===== src/Files/Token/Paths.antt =====
-- The temporary file stands beside the token's, and is another file.
use opx.Prelude.{
  ◌≡◌, ◌≢◌, refl, ap, ◌∙◌, arith, length, length-append, true, false, Option, none, some, [], take,
  Option-cases, Bool, inl, inr,
}
use opx.Prelude.Bytes.{Bytes, codes, =ᵇ_ne}
use opx.Dict.{lookup, insert, delete, lookup-insert, lookup-delete}
use opx.Files.Token.{
  FileMap, Luck, Pc, reading, drawing, opening, writing, closing, discarding, renaming, retreating,
  rereading, returned, temp_path, act, write_outcome, rename_outcome,
}

pub temp_path-ne : (path : Bytes) → temp_path path ≢ path
temp_path-ne path e = omega (arith, ap length e, length-append path (codes ".tmp"))

module _ (path : Bytes) (files : FileMap) where
  pub insert_temp : (t : Bytes) → lookup path (insert (temp_path path) t files) ≡ lookup path files
  insert_temp t =
      rw
        (
          lookup-insert (temp_path path) path t files,
          =ᵇ_ne (temp_path path) path (temp_path-ne path),
        )
        refl

  pub delete_temp : lookup path (delete (temp_path path) files) ≡ lookup path files
  delete_temp =
      rw
        (lookup-delete (temp_path path) path files, =ᵇ_ne (temp_path path) path (temp_path-ne path))
        refl

-- A run of `EnsureToken` leaves every other file as it is.
module _ (path other : Bytes) (not_token : path ≢ other) (not_temp : temp_path path ≢ other) where
  inserted_token :
      (t : Bytes) (files : FileMap) → lookup other (insert path t files) ≡ lookup other files
  inserted_token t files = rw (lookup-insert path other t files, =ᵇ_ne path other not_token) refl

  inserted_temp :
      (t : Bytes) (files : FileMap)
      → lookup other (insert (temp_path path) t files) ≡ lookup other files
  inserted_temp t files =
      rw (lookup-insert (temp_path path) other t files, =ᵇ_ne (temp_path path) other not_temp) refl

  deleted_temp :
      (files : FileMap) → lookup other (delete (temp_path path) files) ≡ lookup other files
  deleted_temp files =
      rw (lookup-delete (temp_path path) other files, =ᵇ_ne (temp_path path) other not_temp) refl

  renamed :
      (fails : Bool) (t : Bytes) (files : FileMap) (there : Option Bytes)
      → lookup other (rename_outcome fails path (temp_path path) t files there).1
        ≡ lookup other files
  unfolding rename_outcome
  renamed true t files there = refl
  renamed false t files none = refl
  renamed false t files (some u) =
      inserted_token u (delete (temp_path path) files) ∙ deleted_temp files

  pub act-others :
      (l : Luck) (pc : Pc) (files : FileMap)
      → lookup other (act path l pc files).1 ≡ lookup other files
  unfolding act
  act-others l reading files = refl
  act-others l drawing files = refl
  act-others l (opening t) files = ground (arith, inserted_temp [] files)
  act-others l (writing t) files = elim (Option-cases l.short_write) [
    | inl whole ↦ rw (whole, write_outcome) (inserted_temp t files)
    | inr (n, short) ↦ rw (short, write_outcome) (inserted_temp (take n t) files)
  ]
  act-others l (closing t e) files = refl
  act-others l (discarding e) files = deleted_temp files
  act-others l (renaming t) files = renamed l.no_rename t files (lookup (temp_path path) files)
  act-others l retreating files = deleted_temp files
  act-others l rereading files = refl
  act-others l (returned a) files = refl
