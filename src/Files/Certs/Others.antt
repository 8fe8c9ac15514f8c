-- ===== src/Files/Certs/Others.antt =====
-- `TLSConfig` of internal/util/tls.go changes no file but its two.
use opx.Prelude.{
  ◌≡◌, ◌≢◌, refl, ◌∙◌, ℕ, Bool, true, false, Option, none, some, take, Bool-cases, inl, inr,
}
use opx.Prelude.Bytes.{Bytes, =ᵇ_ne}
use opx.Dict.{lookup, insert, lookup-insert}
use opx.Files.Token.{FileMap}
use opx.Files.Certs.{
  Certificate, Crypto, Calls, Times, CertError, open_and_write, write_key_file, write_pair,
  with_key, generate_self_signed_cert, is_current, load_generated, load_or_generate,
}

module _ (other : Bytes) where
  -- The other file is as it was.
  abbrev Keeps : {A : Type 0} → FileMap → A × FileMap → Type 0
  Keeps files r = lookup other r.1 ≡ lookup other files

  insert-Keeps :
      (path content : Bytes) (files : FileMap)
      → path ≢ other
      → lookup other (insert path content files) ≡ lookup other files
  insert-Keeps path content files ne =
      rw (lookup-insert path other content files, =ᵇ_ne path other ne) refl

  write-Keeps :
      (e e' : CertError) (no_open : Bool) (short : Option ℕ) (path content : Bytes)
      (files : FileMap)
      → path ≢ other
      → Keeps files (open_and_write e e' no_open short path content files)
  unfolding open_and_write
  write-Keeps e e' true short path content files ne = refl
  write-Keeps e e' false (some n) path content files ne =
      insert-Keeps path (take n content) files ne
  write-Keeps e e' false none path content files ne = insert-Keeps path content files ne

  module _ (crypto : Crypto) (calls : Calls) (t : Times) (cert_path key_path : Bytes)
      (not_cert : cert_path ≢ other) (not_key : key_path ≢ other) where
    key_file-Keeps :
        (key : Bytes) (files : FileMap) (r : Option CertError × FileMap)
        → Keeps files r
        → Keeps files (write_key_file crypto calls key_path key r)
    unfolding write_key_file
    key_file-Keeps key files (some e, files') h = h
    key_file-Keeps key files (none, files') h =
        write-Keeps _ _ calls.no_key_open calls.key_short key_path _ files' not_key ∙ h

    pair-Keeps :
        (no_mkdir : Bool) (key : Bytes) (files : FileMap) (o : Option Bytes)
        → Keeps files (write_pair crypto calls no_mkdir cert_path key_path key files o)
    unfolding write_pair
    pair-Keeps no_mkdir key files none = refl
    pair-Keeps true key files (some der) = refl
    pair-Keeps false key files (some der) =
        key_file-Keeps key files _
          (write-Keeps _ _ calls.no_cert_open calls.cert_short cert_path _ files not_cert)

    key-Keeps :
        (files : FileMap) (o : Option Bytes)
        → Keeps files (with_key crypto calls t cert_path key_path files o)
    unfolding with_key
    key-Keeps files none = refl
    key-Keeps files (some key) = pair-Keeps calls.no_mkdir key files _

    loaded-Keeps :
        (files : FileMap) (r : Option CertError × FileMap)
        → Keeps files r
        → Keeps files (load_generated crypto calls cert_path key_path r)
    unfolding load_generated
    loaded-Keeps files (some e, files') h = h
    loaded-Keeps files (none, files') h = h

    -- Every other file is left as it is.
    pub load_or_generate-others :
        (files : FileMap) (o : Option Certificate)
        → lookup other (load_or_generate crypto calls t cert_path key_path files o).1
          ≡ lookup other files
    unfolding load_or_generate generate_self_signed_cert
    load_or_generate-others files o = elim (Bool-cases (is_current t.checked o)) [
      | inl current ↦ rw current refl
      | inr old ↦ rw old (loaded-Keeps files _ (key-Keeps files calls.key))
    ]
