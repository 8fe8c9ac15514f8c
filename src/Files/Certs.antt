-- ===== src/Files/Certs.antt =====
-- internal/util/tls.go: the certificate of the daemon, and the TLS configurations of the daemon and
-- of the client. The files are a map from their paths; a file that cannot be read is one that is not
-- there. The packages crypto/x509, crypto/tls and encoding/pem are the record `Crypto`; which calls
-- fail, and the key that `rsa.GenerateKey` gives, are the record `Calls`. The usages of the key are
-- left out of the template.
pub mod Reuse
pub mod Renewal
pub mod Others
use opx.Prelude.{ℕ, Bool, true, false, Option, none, some, List, [], ◌∷◌, take, if◌then◌else◌}
use opx.Prelude.Int.{ℤ, pos, ◌+ℤ◌, ltb_ℤ}
use opx.Prelude.Bytes.{Bytes, codes}
use opx.Dict.{lookup, insert}
use opx.Paths.{join_path}
use opx.Files.{Os, Dirs, state_dir}
use opx.Files.Token.{FileMap}

-- What is in a certificate before it is signed; times are in nanoseconds.
pub record Template : Type 0 where
  pub serial_number : ℕ
  pub organization : Bytes
  pub country : Bytes
  pub common_name : Bytes
  pub not_before : ℤ
  pub not_after : ℤ
  pub ip_addresses : List Bytes
  pub dns_names : List Bytes

-- `tls.Certificate`: the first of its certificates, and the time after which the parsed one is not
-- valid, where it is parsed.
pub record Certificate : Type 0 where
  pub certificate : Bytes
  pub leaf : Option ℤ

pub record Crypto : Type 0 where
  pub create_certificate : Template → Bytes → Option Bytes
  pub marshal_private_key : Bytes → Bytes
  pub pem_encode : Bytes → Bytes → Bytes
  pub x509_key_pair : Bytes → Bytes → Option Certificate
  pub parse_certificate : Bytes → Option ℤ

-- A write that fails has written as many bytes as it says.
pub record Calls : Type 0 where
  pub key : Option Bytes
  pub no_mkdir : Bool
  pub no_cert_open : Bool
  pub cert_short : Option ℕ
  pub no_key_open : Bool
  pub key_short : Option ℕ

-- What the clock says, in the order of the code.
pub record Times : Type 0 where
  pub checked : ℤ
  pub begun : ℤ
  pub dated : ℤ

pub data CertError : Type 0 where
  no_private_key no_certificate no_directory : CertError
  cert_not_open cert_not_written key_not_open key_not_written : CertError

pub record TlsConfig : Type 0 where
  pub certificate : Certificate
  pub server_name : Bytes
  pub insecure_skip_verify : Bool

pub data TlsResult : Type 0 where
  no_state_dir not_loaded : TlsResult
  not_generated : CertError → TlsResult
  configured : TlsConfig → TlsResult

-- 24 h
abbrev pub day : ℤ
day = pos 86400000000000

-- 365 days
abbrev pub year : ℤ
year = pos 31536000000000000

unfoldable pub template : ℤ → ℤ → Template
template begun dated = record {
  serial_number = 1;
  organization = codes "op-authd";
  country = codes "US";
  common_name = codes "op-authd-local";
  not_before = begun;
  not_after = dated +ℤ year;
  ip_addresses = codes "127.0.0.1" ∷ codes "::1" ∷ [];
  dns_names = codes "localhost" ∷ codes "op-authd-local" ∷ [];
}

in_state_dir : Option Bytes × Dirs → Option (Bytes × Bytes) × Dirs
in_state_dir (none, dirs) = (none, dirs)
in_state_dir (some dir, dirs) =
    (some (join_path dir (codes "tls.crt"), join_path dir (codes "tls.key")), dirs)

unfoldable pub get_cert_paths : Os → Dirs → Option (Bytes × Bytes) × Dirs
unfolding in_state_dir state_dir
get_cert_paths os dirs = in_state_dir (state_dir os dirs)

-- `os.OpenFile` with `O_TRUNC`, and the write of a PEM block.
open_and_write :
    CertError → CertError → Bool → Option ℕ → Bytes → Bytes → FileMap → Option CertError × FileMap
open_and_write no_open no_write true short path content files = (some no_open, files)
open_and_write no_open no_write false (some n) path content files =
    (some no_write, insert path (take n content) files)
open_and_write no_open no_write false none path content files = (none, insert path content files)

outlasts : ℤ → Option ℤ → Bool
outlasts now none = false
outlasts now (some t) = ltb_ℤ (now +ℤ day) t

-- More than a day of the certificate is left.
unfoldable pub is_current : ℤ → Option Certificate → Bool
unfolding outlasts
is_current now none = false
is_current now (some c) = outlasts now c.leaf

pub from_loaded : Option Certificate → TlsResult
from_loaded none = not_loaded
from_loaded (some c) =
    configured (record {
      certificate = c;
      server_name = codes "op-authd-local";
      insecure_skip_verify = false;
    })

unfoldable pub client_loaded : Option Certificate → TlsResult
client_loaded none = not_loaded
client_loaded (some c) =
    configured (record {
      certificate = c;
      server_name = codes "op-authd-local";
      insecure_skip_verify = true;
    })

module _ (crypto : Crypto) where
  parsed : Bytes → Option ℤ → Option Certificate
  parsed der none = none
  parsed der (some t) = some (record { certificate = der; leaf = some t })

  with_leaf : Bytes → Option ℤ → Option Certificate
  unfolding parsed
  with_leaf der (some t) = some (record { certificate = der; leaf = some t })
  with_leaf der none = parsed der (crypto.parse_certificate der)

  with_pair : Option Certificate → Option Certificate
  unfolding with_leaf
  with_pair none = none
  with_pair (some c) = with_leaf c.certificate c.leaf

  -- On the contents of the two files.
  load_pair : Option Bytes → Option Bytes → Option Certificate
  unfolding with_pair
  load_pair none key = none
  load_pair (some cert) none = none
  load_pair (some cert) (some key) = with_pair (crypto.x509_key_pair cert key)

  unfoldable pub load_existing_cert : Bytes → Bytes → FileMap → Option Certificate
  unfolding load_pair
  load_existing_cert cert_path key_path files =
      load_pair (lookup cert_path files) (lookup key_path files)

  module _ (calls : Calls) where
    pub write_key_file : Bytes → Bytes → Option CertError × FileMap → Option CertError × FileMap
    unfolding open_and_write
    write_key_file key_path key (some e, files) = (some e, files)
    write_key_file key_path key (none, files) =
        open_and_write key_not_open key_not_written calls.no_key_open calls.key_short key_path
          (crypto.pem_encode (codes "RSA PRIVATE KEY") (crypto.marshal_private_key key)) files

    -- The directory is there already, since `StateDir` has made it.
    pub write_pair :
        Bool → Bytes → Bytes → Bytes → FileMap → Option Bytes → Option CertError × FileMap
    unfolding open_and_write write_key_file
    write_pair no_mkdir cert_path key_path key files none = (some no_certificate, files)
    write_pair true cert_path key_path key files (some der) = (some no_directory, files)
    write_pair false cert_path key_path key files (some der) = write_key_file key_path key (
        open_and_write cert_not_open cert_not_written calls.no_cert_open calls.cert_short cert_path
          (crypto.pem_encode (codes "CERTIFICATE") der) files)

    pub with_key : Times → Bytes → Bytes → FileMap → Option Bytes → Option CertError × FileMap
    unfolding write_pair template
    with_key t cert_path key_path files none = (some no_private_key, files)
    with_key t cert_path key_path files (some key) =
        write_pair calls.no_mkdir cert_path key_path key files
          (crypto.create_certificate (template t.begun t.dated) key)

    unfoldable pub generate_self_signed_cert :
        Times → Bytes → Bytes → FileMap → Option CertError × FileMap
    unfolding with_key
    generate_self_signed_cert t cert_path key_path files =
        with_key t cert_path key_path files calls.key

    pub load_generated : Bytes → Bytes → Option CertError × FileMap → TlsResult × FileMap
    unfolding load_existing_cert from_loaded
    load_generated cert_path key_path (some e, files) = (not_generated e, files)
    load_generated cert_path key_path (none, files) =
        (from_loaded (load_existing_cert cert_path key_path files), files)

    unfoldable pub load_or_generate :
        Times → Bytes → Bytes → FileMap → Option Certificate → TlsResult × FileMap
    unfolding is_current from_loaded load_generated generate_self_signed_cert
    load_or_generate t cert_path key_path files existing =
        if is_current t.checked existing
        then (from_loaded existing, files)
        else load_generated cert_path key_path
            (generate_self_signed_cert t cert_path key_path files)

    pub at_paths : Times → FileMap → Option (Bytes × Bytes) × Dirs → TlsResult × Dirs × FileMap
    unfolding load_or_generate load_existing_cert
    at_paths t files (none, dirs) = (no_state_dir, dirs, files)
    at_paths t files (some (cert_path, key_path), dirs) =
        let (r, files') =
          load_or_generate t cert_path key_path files
            (load_existing_cert cert_path key_path files) in
        (r, dirs, files')

    -- `TLSConfig`
    unfoldable pub tls_config : Os → Times → Dirs → FileMap → TlsResult × Dirs × FileMap
    unfolding at_paths get_cert_paths
    tls_config os t dirs files = at_paths t files (get_cert_paths os dirs)

  pub client_at_paths : FileMap → Option (Bytes × Bytes) × Dirs → TlsResult × Dirs
  unfolding client_loaded load_existing_cert
  client_at_paths files (none, dirs) = (no_state_dir, dirs)
  client_at_paths files (some (cert_path, key_path), dirs) =
      (client_loaded (load_existing_cert cert_path key_path files), dirs)

  -- `ClientTLSConfig`
  unfoldable pub client_tls_config : Os → Dirs → FileMap → TlsResult × Dirs
  unfolding client_at_paths get_cert_paths
  client_tls_config os dirs files = client_at_paths files (get_cert_paths os dirs)

unfoldable pub is_configured : TlsResult → Bool
is_configured (configured c) = true
is_configured no_state_dir = false
is_configured not_loaded = false
is_configured (not_generated e) = false
