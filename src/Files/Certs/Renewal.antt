-- ===== src/Files/Certs/Renewal.antt =====
-- That the daemon comes to a certificate with more than a day left, whatever is in the files.
use opx.Prelude.{◌≡◌, ◌≢◌, refl, ◌∙◌, true, false, Option, none, some, arith, Bool-cases, inl, inr}
use opx.Prelude.Int.{ℤ, pos, ◌+ℤ◌, ◌≤ℤ◌, ◌<ℤ◌, int_laws}
use opx.Prelude.Bytes.{Bytes, codes, ◌=ᵇ◌, =ᵇ_ne}
use opx.Dict.{lookup, insert, lookup-insert, lookup-insert_self}
use opx.Paths.{join_path}
use opx.Paths.Ends.{is_plain, last_code, join_path-ne}
use opx.Files.{Os, Dirs, state_dir}
use opx.Files.Token.{FileMap}
use opx.Files.Certs.{
  Template, Certificate, Crypto, Calls, Times, TlsResult, configured, template, load_existing_cert,
  load_pair, with_pair, with_leaf, parsed, is_current, outlasts, from_loaded, load_generated,
  generate_self_signed_cert, with_key, write_pair, write_key_file, open_and_write, load_or_generate,
  in_state_dir, get_cert_paths, at_paths, tls_config,
}

-- 1 s
abbrev pub second : ℤ
second = pos 1000000000

-- The time of a certificate, where the package has parsed it, and where the code does.
abbrev pub IsLeaf : Crypto → Bytes → ℤ → Option ℤ → Type 0
IsLeaf crypto der n none = crypto.parse_certificate der ≡ some n
IsLeaf crypto der n (some t) = t ≡ n

-- A certificate that is signed with a key makes a pair with that key; its times have whole seconds.
abbrev pub Signed : Crypto → Template → Bytes → Option Bytes → Type 0
Signed crypto t key none = ⊥
Signed crypto t key (some der) =
    (n : ℤ) × (leaf : Option ℤ) × (crypto.x509_key_pair
        (crypto.pem_encode (codes "CERTIFICATE") der)
        (crypto.pem_encode (codes "RSA PRIVATE KEY") (crypto.marshal_private_key key))
      ≡ some (record { certificate = der; leaf = leaf }))
    × IsLeaf crypto der n leaf
    × (t.not_after <ℤ n +ℤ second)

-- What the code relies on: a self-signed certificate can be made from every key, and read back.
abbrev pub Signs : Crypto → Type 0
Signs crypto = (t : Template) (key : Bytes) → Signed crypto t key (crypto.create_certificate t key)

-- No call fails.
abbrev pub all_work : Bytes → Calls
all_work key = record {
  key = some key;
  no_mkdir = false;
  no_cert_open = false;
  cert_short = none;
  no_key_open = false;
  key_short = none;
}

-- A configuration whose certificate is valid for more than 24 hours from `now` on.
abbrev pub Lasts : ℤ → TlsResult → Type 0
Lasts now (configured k) =
    (n : ℤ) × (k.certificate.leaf ≡ some n) × (now +ℤ pos 86400000000000 <ℤ n)
Lasts now _ = ⊥

module _ (crypto : Crypto) (signs : Signs crypto) (key : Bytes) (t : Times)
    (onward : t.checked ≤ℤ t.dated) where
  long_enough :
      (n : ℤ)
      → (template t.begun t.dated).not_after <ℤ n +ℤ second
      → t.checked +ℤ pos 86400000000000 <ℤ n
  unfolding template
  long_enough n h = grind int_laws

  leaf-Lasts :
      (der : Bytes) (n : ℤ) (leaf : Option ℤ)
      → IsLeaf crypto der n leaf
      → (template t.begun t.dated).not_after <ℤ n +ℤ second
      → Lasts t.checked (from_loaded (with_leaf crypto der leaf))
  unfolding with_leaf parsed from_loaded
  leaf-Lasts der n none e h = rw e (n, refl, long_enough n h)
  leaf-Lasts der n (some x) e h = rw e (n, refl, long_enough n h)

  module _ (cert_path key_path : Bytes) (files : FileMap) (differ : key_path ≢ cert_path) where
    pem_cert : Bytes → Bytes
    pem_cert der = crypto.pem_encode (codes "CERTIFICATE") der

    pem_key : Bytes
    pem_key = crypto.pem_encode (codes "RSA PRIVATE KEY") (crypto.marshal_private_key key)

    loaded-Lasts :
        (der : Bytes)
        → Signed crypto (template t.begun t.dated) key (some der)
        → Lasts t.checked (
            from_loaded (
              load_existing_cert crypto cert_path key_path
                (insert key_path pem_key (insert cert_path (pem_cert der) files))))
    unfolding load_existing_cert load_pair with_pair pem_cert pem_key
    loaded-Lasts der (n, leaf, pair, is_leaf, late) =
        let key_there =
          lookup-insert_self key_path pem_key (insert cert_path (pem_cert der) files) in
        let cert_there : lookup cert_path
              (insert key_path pem_key (insert cert_path (pem_cert der) files))
            ≡ some (pem_cert der) =
          lookup-insert key_path cert_path pem_key (insert cert_path (pem_cert der) files)
          ∙ rw (=ᵇ_ne key_path cert_path differ)
              (lookup-insert_self cert_path (pem_cert der) files) in
        rw (key_there, cert_there, pair) (leaf-Lasts der n leaf is_leaf late)

    Signed-Lasts :
        (o : Option Bytes)
        → Signed crypto (template t.begun t.dated) key o
        → Lasts t.checked
            (load_generated crypto
              (all_work key)
              cert_path
              key_path
              (write_pair crypto (all_work key) false cert_path key_path key files o)).0
    unfolding load_generated write_pair write_key_file open_and_write pem_key pem_cert
    Signed-Lasts none h = absurd h
    Signed-Lasts (some der) h = loaded-Lasts der h

    outlasts-Lasts :
        (c : Certificate) (o : Option ℤ)
        → c.leaf ≡ o
        → outlasts t.checked o ≡ true
        → Lasts t.checked (from_loaded (some c))
    unfolding outlasts from_loaded
    outlasts-Lasts c none e h = absurd (ground arith)
    outlasts-Lasts c (some n) e h = (n, e, ground arith)

    existing-Lasts :
        (o : Option Certificate) → is_current t.checked o ≡ true → Lasts t.checked (from_loaded o)
    unfolding is_current
    existing-Lasts none h = absurd (ground arith)
    existing-Lasts (some c) h = outlasts-Lasts c c.leaf refl h

    pub set_up-Lasts :
        (o : Option Certificate)
        → Lasts t.checked (load_or_generate crypto (all_work key) t cert_path key_path files o).0
    unfolding load_or_generate generate_self_signed_cert with_key
    set_up-Lasts o = elim (Bool-cases (is_current t.checked o)) [
      | inl current ↦ rw current (existing-Lasts o current)
      | inr old ↦ rw old (Signed-Lasts _ (signs (template t.begun t.dated) key))
    ]

  -- Where no call fails, the state directory is found, and the clock does not go back, `TLSConfig`
  -- gives a configuration whose certificate has more than a day left, whatever is in the files.
  tls_config-Lasts :
      (os : Os) (dirs : Dirs) (files : FileMap) (dir : Bytes)
      → (state_dir os dirs).0 ≡ some dir
      → Lasts t.checked (tls_config crypto (all_work key) os t dirs files).0
  unfolding tls_config get_cert_paths is_plain last_code in_state_dir at_paths ◌=ᵇ◌
  tls_config-Lasts os dirs files dir h = go (state_dir os dirs) h
    where
      go :
          (r : Option Bytes × Dirs)
          → r.0 ≡ some dir
          → Lasts t.checked (at_paths crypto (all_work key) t files (in_state_dir r)).0
      go (none, d) e = absurd (ground arith)
      go (some x, d) e =
          set_up-Lasts _ _ files
            (join_path-ne x x (codes "tls.key") (codes "tls.crt") refl refl refl)
            (load_existing_cert crypto (join_path x (codes "tls.crt"))
              (join_path x (codes "tls.key")) files)
