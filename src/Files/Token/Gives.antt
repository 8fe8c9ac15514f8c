-- ===== src/Files/Token/Gives.antt =====
-- A run of `EnsureToken` of internal/util/fs.go in which no call fails.
use opx.Prelude.{◌≡◌, refl, ap, none, [], Option-cases, inl, inr}
use opx.Prelude.Bytes.{Bytes}
use opx.Dict.{lookup, insert, lookup-insert_self}
use opx.Policy.{hex_encode}
use opx.Files.Token.{FileMap, Pc, returned, gave, temp_path, ensure_token}
use opx.Files.Token.Alone.{found_again}
use opx.Files.Token.Race.{draws}

-- A run in which no call fails gives a token, where no temporary file is left behind.
pub ensure_token-gave :
    (path b : Bytes) (files : FileMap)
    → lookup (temp_path path) files ≡ none
    → (t : Bytes) × ((ensure_token path (draws b) files).0 ≡ returned (gave t))
unfolding ensure_token
ensure_token-gave path b files free = elim (Option-cases (lookup path files)) [
  | inl absent ↦
      let temp = temp_path path in
      let written = lookup-insert_self temp (hex_encode b) (insert temp [] files) in
      (hex_encode b, rw (absent, free, written) refl)
  | inr (t, there) ↦
      (t, ap (λ (s : Pc × FileMap). s.0) (found_again path (draws b) files t there refl))
]
