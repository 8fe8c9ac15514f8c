-- ===== src/Backend/Vault/Uris.antt =====
-- The references of Vault and OpenBao, read and written.
use opx.Prelude.{◌≡◌, ◌≢◌, ◌∙◌, refl, [], ◌∷◌, ◌++◌}
use opx.Prelude.Bytes.{Bytes, codes, =ᵇ_ne}
use opx.Strings.{split_two}
use opx.Strings.Laws.{Lacks, trim_prefix-append, split_two-append, split_two_absent}
use opx.Backend.{ok}
use opx.Backend.Vault.{parse_vault_uri, parts_of, to_vault_uri}

-- The reference to a field of a secret; an empty field stands for the whole of it.
abbrev pub vault_uri : Bytes → Bytes → Bytes
vault_uri path [] = codes "vault://" ++ path
vault_uri path (c ∷ f) = codes "vault://" ++ (path ++ b'#' ∷ c ∷ f)

after_prefix :
    (rest : Bytes) → parse_vault_uri (codes "vault://" ++ rest) ≡ parts_of (split_two b'#' rest)
unfolding parse_vault_uri
after_prefix rest = rw (trim_prefix-append (codes "vault://") rest) refl

-- A reference that is written from a path and a field is read back, for a path that is not empty
-- and has no `#`.
pub parse-vault_uri :
    (path f : Bytes)
    → path ≢ []
    → Lacks b'#' path
    → parse_vault_uri (vault_uri path f) ≡ ok (path, f)
parse-vault_uri path [] ne h =
    after_prefix path ∙ rw (split_two_absent b'#' path h) (unfold parts_of in rw (=ᵇ_ne path [] ne))
parse-vault_uri path (c ∷ f) ne h =
    after_prefix (path ++ b'#' ∷ c ∷ f)
    ∙ rw (split_two-append b'#' path (c ∷ f) h) (unfold parts_of in rw (=ᵇ_ne path [] ne))

-- An OpenBao reference is read as the Vault reference with the same rest.
pub parse-bao :
    (rest : Bytes)
    → parse_vault_uri (to_vault_uri (codes "bao://" ++ rest))
      ≡ parse_vault_uri (codes "vault://" ++ rest)
unfolding to_vault_uri
parse-bao rest = rw (trim_prefix-append (codes "bao://") rest) refl
