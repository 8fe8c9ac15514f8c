-- ===== src/Server/Start.antt =====
-- `Serve` and `startCacheCleanup` of internal/server/server.go, up to the moment at which the server
-- accepts connections, and the end of `Serve`. Of the file system there are the directories, the
-- files, and the sockets, each with the daemon that listens at it. Which calls fail is a parameter.
pub mod Ready
pub mod Again
pub mod Works
pub mod Sockets
use opx.Prelude.{ℕ, ◌+◌, ◌/◌, Bool, true, false, ◌||◌, Option, none, some, [], if◌then◌else◌}
use opx.Prelude.Int.{ℤ, pos, negsuc, ltb_ℤ, sub_ℕ}
use opx.Prelude.Bytes.{Bytes, ◌=ᵇ◌}
use opx.Dict.{Dict, lookup, insert, delete}
use opx.Paths.{dir_path}
use opx.Files.{Os, Dirs, made, socket_path, token_path}
use opx.Files.Token.{FileMap, Luck, Pc, TokenError, returned, gave, failed, ensure_token}
use opx.Files.Certs.{Crypto, Calls, Times, TlsConfig, TlsResult, configured, tls_config}
use opx.Server.{Server}

pub record Machine : Type 0 where
  pub dirs : Dirs
  pub files : FileMap
  pub sockets : Dict ℕ

pub record ServeCalls : Type 0 where
  pub no_mkdir : Bool
  pub no_remove : Bool
  pub no_listen : Bool
  pub no_chmod : Bool
  pub certs : Calls
  pub times : Times
  pub token : Luck

pub data ServeError : Type 0 where
  no_socket_path sock_dir_failed no_tls listen_failed sock_chmod_failed no_token : ServeError

pub data Outcome (E : Type 0) : Type 0 where
  refused : ServeError → Outcome E
  serving : Server E → TlsConfig → Outcome E

-- `os.Remove`, of a socket or of a file.
unfoldable pub removed : Bool → Bytes → Machine → Machine
removed true sock m = m
removed false sock m = record m { sockets = delete sock m.sockets; files = delete sock m.files }

is_there : {A : Type 0} → Option A → Bool
is_there none = false
is_there (some a) = true

or_blank : Option Bytes → Bytes
or_blank none = []
or_blank (some p) = p

module _ {E : Type 0} (os : Os) (crypto : Crypto) (calls : ServeCalls) (s : Server E) (id : ℕ) where
  pub with_token_file : Bytes → TlsConfig → Dirs → Dict ℕ → Pc × FileMap → Outcome E × Machine
  with_token_file sock k dirs sockets (returned (gave t), files) = (
    serving (record s { sock_path = sock; token = t }) k,
    record { dirs = dirs; files = files; sockets = sockets },
  )
  with_token_file sock k dirs sockets (pc, files) =
      (refused no_token, record { dirs = dirs; files = files; sockets = sockets })

  -- The error of `TokenPath` is ignored.
  pub with_token_path :
      Bytes → TlsConfig → FileMap → Dict ℕ → Option Bytes × Dirs → Outcome E × Machine
  unfolding with_token_file or_blank
  with_token_path sock k files sockets (path, dirs) =
      with_token_file sock k dirs sockets (ensure_token (or_blank path) calls.token files)

  pub listening : Bytes → TlsConfig → Machine → Outcome E × Machine
  unfolding with_token_path token_path
  listening sock k m =
      if calls.no_chmod
      then (refused sock_chmod_failed, m)
      else with_token_path sock k m.files m.sockets (token_path os m.dirs)

  -- A path that is taken cannot be listened at.
  pub listen : Bytes → TlsConfig → Machine → Outcome E × Machine
  unfolding listening is_there
  listen sock k m =
      if calls.no_listen || is_there (lookup sock m.sockets) || is_there (lookup sock m.files)
      then (refused listen_failed, m)
      else listening sock k (record m { sockets = insert sock id m.sockets })

  pub with_tls : Bytes → Dict ℕ → TlsResult × Dirs × FileMap → Outcome E × Machine
  unfolding listen
  with_tls sock sockets (configured k, dirs, files) =
      listen sock k (record { dirs = dirs; files = files; sockets = sockets })
  with_tls sock sockets (r, dirs, files) =
      (refused no_tls, record { dirs = dirs; files = files; sockets = sockets })

  pub prepare : Bytes → Machine → Outcome E × Machine
  unfolding with_tls tls_config removed
  prepare sock m =
      let m' = removed calls.no_remove sock m in
      with_tls sock m'.sockets (tls_config crypto calls.certs os calls.times m'.dirs m'.files)

  pub with_socket_path : Machine → Option Bytes × Dirs → Outcome E × Machine
  unfolding prepare made dir_path
  with_socket_path m (none, dirs) = (refused no_socket_path, record m { dirs = dirs })
  with_socket_path m (some sock, dirs) =
      if calls.no_mkdir
      then (refused sock_dir_failed, record m { dirs = dirs })
      else prepare sock
          (record m { dirs = made (dir_path sock) (lookup (dir_path sock) dirs) dirs })

  unfoldable pub serve : Machine → Outcome E × Machine
  unfolding with_socket_path socket_path
  serve m =
      with_socket_path m
        (if s.sock_path =ᵇ [] then socket_path os m.dirs else (some s.sock_path, m.dirs))

-- What the goroutine of `Serve` does when the context ends: closing the listener unlinks its socket,
-- and then the path is removed.
unfoldable pub shut_down : Bool → Bytes → Machine → Machine
unfolding removed
shut_down no_remove sock m = removed no_remove sock (record m { sockets = delete sock m.sockets })

-- 30 s
abbrev pub shortest : ℤ
shortest = pos 30000000000

-- Division of Go, which is towards zero.
half : ℤ → ℤ
half (pos n) = pos (n / 2)
half (negsuc n) = sub_ℕ 0 ((n + 1) / 2)

-- The time between two clean-ups of the cache.
unfoldable pub cleanup_interval : ℤ → ℤ
unfolding half
cleanup_interval ttl =
    let interval = half ttl in if ltb_ℤ interval shortest then shortest else interval
