-- ===== src/Files/Certs/Reuse.antt =====
-- What a TLS configuration of the daemon leaves for the next one, and for the client.
use mathlib.Core.Path.{subst}
use opx.Prelude.{◌≡◌, ◌≢◌, refl, ap, true, Option, none, some, Bool-cases, inl, inr}
use opx.Prelude.Bytes.{Bytes, codes}
use opx.Paths.{join_path}
use opx.Dict.{lookup}
use opx.Files.{Os, Dirs, state_dir}
use opx.Files.Stable.{state_dir-again}
use opx.Files.Token.{FileMap}
use opx.Files.Certs.{
  Certificate, Crypto, Calls, Times, CertError, TlsConfig, TlsResult, not_loaded, configured,
  load_existing_cert, is_current, from_loaded, load_generated, generate_self_signed_cert,
  load_or_generate, in_state_dir, get_cert_paths, at_paths, tls_config, client_at_paths,
  client_loaded, client_tls_config, load_pair,
}

-- The certificate of a configuration is in the files.
abbrev pub Stored : Crypto → Bytes → Bytes → TlsResult → FileMap → Type 0
Stored crypto cert_path key_path (configured k) files =
    (load_existing_cert crypto cert_path key_path files ≡ some k.certificate)
    × (from_loaded (some k.certificate) ≡ configured k)
Stored crypto cert_path key_path _ files = Unit {0}

module _ (crypto : Crypto) (cert_path key_path : Bytes) where
  abbrev pub load : FileMap → Option Certificate
  load files = load_existing_cert crypto cert_path key_path files

  loaded-Stored :
      (o : Option Certificate) (files : FileMap)
      → load files ≡ o
      → Stored crypto cert_path key_path (from_loaded o) files
  unfolding from_loaded
  loaded-Stored none files e = tt
  loaded-Stored (some c) files e = (e, refl)

  generated-Stored :
      (calls : Calls) (r : Option CertError × FileMap)
      → let (t, files) = load_generated crypto calls cert_path key_path r in
        Stored crypto cert_path key_path t files
  unfolding load_generated
  generated-Stored calls (some e, files) = tt
  generated-Stored calls (none, files) = loaded-Stored (load files) files refl

  pub set_up-Stored :
      (calls : Calls) (t : Times) (files : FileMap)
      → let (r, files') = load_or_generate crypto calls t cert_path key_path files (load files) in
        Stored crypto cert_path key_path r files'
  unfolding load_or_generate
  set_up-Stored calls t files = elim (Bool-cases (is_current t.checked (load files))) [
    | inl current ↦ rw current (loaded-Stored (load files) files refl)
    | inr old ↦
        rw old (
          generated-Stored calls
            (generate_self_signed_cert crypto calls t cert_path key_path files))
  ]

  -- Of a stored certificate that is current the configuration is made again.
  pub set_up-again :
      (calls : Calls) (t : Times) (k : TlsConfig) (files : FileMap)
      → Stored crypto cert_path key_path (configured k) files
      → is_current t.checked (some k.certificate) ≡ true
      → load_or_generate crypto calls t cert_path key_path files (load files)
        ≡ (configured k, files)
  unfolding load_or_generate
  set_up-again calls t k files (there, same) current = rw (there, current, same) refl

  pub client_takes :
      (k : TlsConfig) (files : FileMap) (dirs : Dirs)
      → Stored crypto cert_path key_path (configured k) files
      → client_at_paths crypto files (some (cert_path, key_path), dirs)
        ≡ (client_loaded (some k.certificate), dirs)
  unfolding client_at_paths
  client_takes k files dirs (there, same) = rw there refl

  at_paths-Stored :
      (calls : Calls) (t : Times) (k : TlsConfig) (files files' : FileMap) (dirs dirs' : Dirs)
      → at_paths crypto calls t files (some (cert_path, key_path), dirs)
        ≡ (configured k, dirs', files')
      → Stored crypto cert_path key_path (configured k) files'
  unfolding at_paths
  at_paths-Stored calls t k files files' dirs dirs' h =
      let out : (_ : TlsResult × Dirs × FileMap) → TlsResult × FileMap = λ r. (r.0, r.2) in
      subst (λ (r : TlsResult × FileMap). Stored crypto cert_path key_path r.0 r.1) (ap out h)
        (set_up-Stored calls t files)

  at_paths-dirs :
      (calls : Calls) (t : Times) (files : FileMap) (dirs : Dirs)
      → (at_paths crypto calls t files (some (cert_path, key_path), dirs)).1 ≡ dirs
  unfolding at_paths
  at_paths-dirs calls t files dirs = refl

  at_paths-again :
      (calls : Calls) (t : Times) (k : TlsConfig) (files : FileMap) (dirs : Dirs)
      → Stored crypto cert_path key_path (configured k) files
      → is_current t.checked (some k.certificate) ≡ true
      → at_paths crypto calls t files (some (cert_path, key_path), dirs)
        ≡ (configured k, dirs, files)
  unfolding at_paths
  at_paths-again calls t k files dirs h current =
      let once = set_up-again calls t k files h current in rw once refl

-- What is stored depends on the two files alone.
pub Stored-files :
    (crypto : Crypto) (cert_path key_path : Bytes) (k : TlsConfig) (files files' : FileMap)
    → lookup cert_path files' ≡ lookup cert_path files
    → lookup key_path files' ≡ lookup key_path files
    → Stored crypto cert_path key_path (configured k) files
    → Stored crypto cert_path key_path (configured k) files'
unfolding load_existing_cert
Stored-files crypto cert_path key_path k files files' c l (there, same) = (rw (c, l) there, same)

-- `TLSConfig` where the state directory is found again.
pub tls_config-found :
    (crypto : Crypto) (calls : Calls) (os : Os) (t : Times) (dirs : Dirs) (files : FileMap)
    (dir : Bytes)
    → state_dir os dirs ≡ (some dir, dirs)
    → let cert_path = join_path dir (codes "tls.crt") in
      let key_path = join_path dir (codes "tls.key") in
      let (r, files') =
        load_or_generate crypto calls t cert_path key_path files
          (load crypto cert_path key_path files) in
      ◌≡◌ {A = TlsResult × Dirs × FileMap}
        (tls_config crypto calls os t dirs files)
        (r, dirs, files')
unfolding tls_config get_cert_paths in_state_dir at_paths
tls_config-found crypto calls os t dirs files dir h = rw h refl

module _ (crypto : Crypto) (os : Os) where
  -- Where the certificate of a configuration is.
  abbrev Kept : TlsConfig → FileMap → Option Bytes × Dirs → Type 0
  Kept k files (none, dirs) = ⊥
  Kept k files (some dir, dirs) =
      (state_dir os dirs ≡ (some dir, dirs))
      × Stored crypto (join_path dir (codes "tls.crt")) (join_path dir (codes "tls.key"))
          (configured k) files

  no_paths :
      (calls : Calls) (t : Times) (k : TlsConfig) (files files' : FileMap) (d dirs' : Dirs)
      → at_paths crypto calls t files (none, d) ≢ (configured k, dirs', files')
  unfolding at_paths
  no_paths calls t k files files' d dirs' q = cc (ap (λ (r : TlsResult × Dirs × FileMap). r.0) q)

  tls_config-Kept :
      (calls : Calls) (t : Times) (k : TlsConfig) (dirs dirs' : Dirs) (files files' : FileMap)
      → tls_config crypto calls os t dirs files ≡ (configured k, dirs', files')
      → (dir : Bytes) × Kept k files' (some dir, dirs')
  unfolding tls_config get_cert_paths in_state_dir
  tls_config-Kept calls t k dirs dirs' files files' h = go (state_dir os dirs) refl h
    where
      go :
          (r : Option Bytes × Dirs)
          → state_dir os dirs ≡ r
          → at_paths crypto calls t files (in_state_dir r) ≡ (configured k, dirs', files')
          → (dir : Bytes) × Kept k files' (some dir, dirs')
      go (none, d) e q = absurd (no_paths calls t k files files' d dirs' q)
      go (some dir, d) e q =
          let same : d ≡ dirs' = ap (λ (r : TlsResult × Dirs × FileMap). r.1) q in
          (
            dir,
            (
              subst (λ x. state_dir os x ≡ (some dir, x)) same (state_dir-again os dirs d dir e),
              at_paths-Stored crypto _ _ calls t k files files' d dirs' q,
            ),
          )

  -- After `TLSConfig` has succeeded, a `TLSConfig` that finds more than a day of the certificate left
  -- gives the same configuration and changes nothing, whichever calls would fail.
  tls_config-again :
      (calls calls' : Calls) (t t' : Times) (k : TlsConfig) (dirs dirs' : Dirs)
      (files files' : FileMap)
      → tls_config crypto calls os t dirs files ≡ (configured k, dirs', files')
      → is_current t'.checked (some k.certificate) ≡ true
      → tls_config crypto calls' os t' dirs' files' ≡ (configured k, dirs', files')
  unfolding tls_config get_cert_paths in_state_dir
  tls_config-again calls calls' t t' k dirs dirs' files files' h current =
      let (dir, (found, there)) = tls_config-Kept calls t k dirs dirs' files files' h in
      rw found (at_paths-again crypto _ _ calls' t' k files' dirs' there current)

  -- After `TLSConfig` has succeeded, `ClientTLSConfig` gives the client the same certificate.
  pub client_tls_config-shares :
      (calls : Calls) (t : Times) (k : TlsConfig) (dirs dirs' : Dirs) (files files' : FileMap)
      → tls_config crypto calls os t dirs files ≡ (configured k, dirs', files')
      → client_tls_config crypto os dirs' files' ≡ (client_loaded (some k.certificate), dirs')
  unfolding client_tls_config get_cert_paths in_state_dir
  client_tls_config-shares calls t k dirs dirs' files files' h =
      let (dir, (found, there)) = tls_config-Kept calls t k dirs dirs' files files' h in
      rw found (client_takes crypto _ _ k files' dirs' there)

  -- `ClientTLSConfig` where the state directory is found again.
  pub client_tls_config-found :
      (k : TlsConfig) (dirs : Dirs) (files : FileMap) (dir : Bytes)
      → state_dir os dirs ≡ (some dir, dirs)
      → Stored crypto
          (join_path dir (codes "tls.crt"))
          (join_path dir (codes "tls.key"))
          (configured k)
          files
      → client_tls_config crypto os dirs files ≡ (client_loaded (some k.certificate), dirs)
  unfolding client_tls_config get_cert_paths in_state_dir
  client_tls_config-found k dirs files dir h stored =
      rw h (client_takes crypto _ _ k files dirs stored)

  -- Without a certificate there is no configuration for a client.
  pub client_tls_config_absent :
      (dirs : Dirs) (files : FileMap) (dir : Bytes)
      → state_dir os dirs ≡ (some dir, dirs)
      → lookup (join_path dir (codes "tls.crt")) files ≡ none
      → client_tls_config crypto os dirs files ≡ (not_loaded, dirs)
  unfolding client_tls_config get_cert_paths in_state_dir client_at_paths load_existing_cert
      load_pair client_loaded
  client_tls_config_absent dirs files dir h absent = rw (h, absent) refl
