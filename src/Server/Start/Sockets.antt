-- ===== src/Server/Start/Sockets.antt =====
-- Two daemons at one socket.
use mathlib.Core.Path.{subst}
use opx.Prelude.{
  ℕ, ◌+◌, ◌≤◌, ◌≡◌, ◌⊎◌, arith, refl, false, ◌||◌, Option, none, some, Bool-cases, inl, inr,
}
use opx.Prelude.Int.{ℤ, pos, ◌≤ℤ◌, negsuc, pos_part}
use opx.Prelude.Bytes.{Bytes, =ᵇ_refl}
use opx.Dict.{Dict, lookup, insert, delete, lookup-insert_self, lookup-delete}
use opx.Files.{Os, Dirs, token_path}
use opx.Files.Token.{FileMap, Pc, returned, gave, ensure_token}
use opx.Files.Certs.{Crypto, TlsConfig, TlsResult, configured}
use opx.Server.{Server}
use opx.Server.Start.{
  Machine, ServeCalls, Outcome, refused, serving, is_there, or_blank, removed, with_token_file,
  with_token_path, listening, listen, with_tls, prepare, with_socket_path, serve, shut_down, half,
  shortest, cleanup_interval,
}

-- A server that accepts connections listens at its path.
abbrev pub Bound : {E : Type 0} → ℕ → Outcome E × Machine → Type 0
Bound id (refused e, m) = Unit {0}
Bound id (serving s k, m) = lookup s.sock_path m.sockets ≡ some id

module _ {E : Type 0} (os : Os) (crypto : Crypto) (calls : ServeCalls) (s : Server E) (id : ℕ) where
  token_file-Bound :
      (sock : Bytes) (k : TlsConfig) (dirs : Dirs) (sockets : Dict ℕ) (r : Pc × FileMap)
      → lookup sock sockets ≡ some id
      → Bound id (with_token_file os crypto calls s id sock k dirs sockets r)
  unfolding with_token_file
  token_file-Bound sock k dirs sockets (returned (gave t), files) h = h
  token_file-Bound sock k dirs sockets (_, files) h = tt

  token_path-Bound :
      (sock : Bytes) (k : TlsConfig) (files : FileMap) (sockets : Dict ℕ) (r : Option Bytes × Dirs)
      → lookup sock sockets ≡ some id
      → Bound id (with_token_path os crypto calls s id sock k files sockets r)
  unfolding with_token_path
  token_path-Bound sock k files sockets (path, dirs) h =
      token_file-Bound sock k dirs sockets (ensure_token (or_blank path) calls.token files) h

  listen-Bound :
      (sock : Bytes) (k : TlsConfig) (m : Machine) → Bound id (listen os crypto calls s id sock k m)
  unfolding listen listening
  listen-Bound sock k m =
      elim (Bool-cases
        (calls.no_listen || is_there (lookup sock m.sockets) || is_there (lookup sock m.files))) [
          | inl fails ↦ rw fails tt
          | inr works ↦ elim (Bool-cases calls.no_chmod) [
            | inl fails ↦ rw (works, fails) tt
            | inr chmods ↦
                rw (works, chmods)
                  (token_path-Bound sock k m.files (insert sock id m.sockets) (token_path os m.dirs)
                    (lookup-insert_self sock id m.sockets))
          ]
        ]

  tls-Bound :
      (sock : Bytes) (sockets : Dict ℕ) (r : TlsResult × Dirs × FileMap)
      → Bound id (with_tls os crypto calls s id sock sockets r)
  unfolding with_tls
  tls-Bound sock sockets (configured k, dirs, files) =
      listen-Bound sock k (record { dirs = dirs; files = files; sockets = sockets })
  tls-Bound sock sockets (_, dirs, files) = tt

  socket_path-Bound :
      (m : Machine) (r : Option Bytes × Dirs) → Bound id (with_socket_path os crypto calls s id m r)
  unfolding with_socket_path prepare
  socket_path-Bound m (none, dirs) = tt
  socket_path-Bound m (some sock, dirs) = elim (Bool-cases calls.no_mkdir) [
    | inl fails ↦ rw fails tt
    | inr works ↦ rw works (tls-Bound sock _ _)
  ]

  serve-Bound : (m : Machine) → Bound id (serve os crypto calls s id m)
  unfolding serve
  serve-Bound m = socket_path-Bound m _

  gone : (sock : Bytes) (sockets : Dict ℕ) → lookup sock (delete sock sockets) ≡ none
  gone sock sockets = rw (lookup-delete sock sock sockets, =ᵇ_refl sock) refl

  -- A server that comes to accept connections listens at its path afterwards, also where another daemon listens
  -- there before; when that other daemon then ends, nobody is found at the path any more.
  pub shut_down-removes :
      (m m' : Machine) (s' : Server E) (k : TlsConfig) (other : ℕ)
      → serve os crypto calls s id m ≡ (serving s' k, m')
      → lookup s'.sock_path m.sockets ≡ some other
      → (lookup s'.sock_path m'.sockets ≡ some id)
        × (lookup s'.sock_path (shut_down false s'.sock_path m').sockets ≡ none)
  unfolding shut_down removed
  shut_down-removes m m' s' k other served there =
      (subst (Bound id) served (serve-Bound m), gone s'.sock_path (delete s'.sock_path m'.sockets))

-- Between two clean-ups of the cache there are at least thirty seconds, and, where it is more, at
-- most half of the time to live.
pub cleanup_interval_bounds :
    (ttl : ℤ)
    → let interval = cleanup_interval ttl in
      (shortest ≤ℤ interval)
      × ((interval ≡ shortest) ⊎ (pos_part interval + pos_part interval ≤ pos_part ttl))
unfolding cleanup_interval half
cleanup_interval_bounds (pos n) = ground arith
cleanup_interval_bounds (negsuc n) = (ground arith, inl (ground arith))
