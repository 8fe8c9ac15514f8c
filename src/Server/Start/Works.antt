-- ===== src/Server/Start/Works.antt =====
-- That a server comes to accept connections: `Serve` of internal/server/server.go in which no call fails.
use opx.Prelude.{
  ℕ, ◌≡◌, ◌≢◌, refl, sym, ◌∙◌, true, false, ◌==◌, Option, none, some, [], arith, Bool-cases, inl,
  inr,
}
use opx.Prelude.Int.{ℤ, ◌≤ℤ◌}
use opx.Prelude.Bytes.{Bytes, codes, ◌=ᵇ◌, =ᵇ_refl}
use opx.Dict.{Dict, lookup, insert, delete, lookup-delete}
use opx.Paths.{join_path, dir_path}
use opx.Paths.Ends.{is_plain, last_code, join_path-ne}
use opx.Files.{Os, Dirs, made, has_dir, state_dir}
use opx.Files.Stable.{state_dir-again, socket_path-found, token_path-found}
use opx.Files.Token.{FileMap, Pc, returned, gave, temp_path, ensure_token}
use opx.Files.Token.Gives.{ensure_token-gave}
use opx.Files.Token.Race.{draws}
use opx.Files.Certs.{
  Crypto, Times, TlsConfig, TlsResult, no_state_dir, not_loaded, not_generated, configured,
  load_or_generate,
}
use opx.Files.Certs.Reuse.{load, tls_config-found}
use opx.Files.Certs.Renewal.{Signs, Lasts, all_work, set_up-Lasts}
use opx.Files.Certs.Others.{load_or_generate-others}
use opx.Server.{Server}
use opx.Server.Start.{
  Machine, ServeCalls, Outcome, refused, serving, is_there, or_blank, with_token_file,
  with_token_path, listening, listen, with_tls, prepare, with_socket_path, serve, removed,
}
use opx.Server.Start.Ready.{crt, key, token, socket, temp_path-ne}

-- No call of `Serve` fails.
abbrev pub no_failure : Bytes → Times → Bytes → ServeCalls
no_failure k t b = record {
  no_mkdir = false;
  no_remove = false;
  no_listen = false;
  no_chmod = false;
  certs = all_work k;
  times = t;
  token = draws b;
}

-- The server accepts connections, with a certificate that has more than a day left.
abbrev pub Serving : {E : Type 0} → ℤ → Outcome E × Machine → Type 0
Serving now (refused e, m) = ⊥
Serving now (serving s k, m) = Lasts now (configured k)

still_absent :
    (path other : Bytes) (files : FileMap)
    → lookup other files ≡ none
    → lookup other (delete path files) ≡ none
still_absent path other files h = elim (Bool-cases (path =ᵇ other)) [
  | inl same ↦ rw (lookup-delete path other files, same) refl
  | inr differ ↦ rw (lookup-delete path other files, differ) h
]

module _ {E : Type 0} (os : Os) (crypto : Crypto) (signs : Signs crypto) (k b : Bytes) (t : Times)
    (onward : t.checked ≤ℤ t.dated) (s : Server E) (id : ℕ) (dir : Bytes) where
  abbrev calls : ServeCalls
  calls = no_failure k t b

  token_file-Serving :
      (c : TlsConfig) (dirs : Dirs) (sockets : Dict ℕ) (r : Pc × FileMap) (tok : Bytes)
      → r.0 ≡ returned (gave tok)
      → Lasts t.checked (configured c)
      → Serving t.checked (with_token_file os crypto calls s id (socket dir) c dirs sockets r)
  unfolding with_token_file
  token_file-Serving c dirs sockets (pc, files) tok e l = rw e l

  listen-Serving :
      (c : TlsConfig) (m : Machine)
      → state_dir os m.dirs ≡ (some dir, m.dirs)
      → lookup (socket dir) m.sockets ≡ none
      → lookup (socket dir) m.files ≡ none
      → lookup (temp_path (token dir)) m.files ≡ none
      → Lasts t.checked (configured c)
      → Serving t.checked (listen os crypto calls s id (socket dir) c m)
  unfolding listen listening with_token_path or_blank is_there
  listen-Serving c m found free no_file no_temp l =
      let (tok, given) = ensure_token-gave (token dir) b m.files no_temp in
      rw (free, no_file, token_path-found os m.dirs m.dirs dir found)
        (token_file-Serving c m.dirs (insert (socket dir) id m.sockets)
          (ensure_token (token dir) (draws b) m.files) tok given l)

  tls-Serving :
      (sockets : Dict ℕ) (dirs : Dirs) (r : TlsResult × FileMap)
      → state_dir os dirs ≡ (some dir, dirs)
      → lookup (socket dir) sockets ≡ none
      → lookup (socket dir) r.1 ≡ none
      → lookup (temp_path (token dir)) r.1 ≡ none
      → Lasts t.checked r.0
      → Serving t.checked (with_tls os crypto calls s id (socket dir) sockets (r.0, dirs, r.1))
  unfolding with_tls
  tls-Serving sockets dirs (configured c, files) found free no_file no_temp l =
      listen-Serving c (record { dirs = dirs; files = files; sockets = sockets }) found free no_file
        no_temp l
  tls-Serving sockets dirs (no_state_dir, files) found free no_file no_temp l = absurd l
  tls-Serving sockets dirs (not_loaded, files) found free no_file no_temp l = absurd l
  tls-Serving sockets dirs (not_generated e, files) found free no_file no_temp l = absurd l

  -- The two files of the certificate are neither the socket nor the temporary file of the token.
  others :
      (files : FileMap) (other : Bytes)
      → crt dir ≢ other
      → key dir ≢ other
      → lookup other files ≡ none
      → lookup other
          (load_or_generate crypto
            (all_work k)
            t
            (crt dir)
            (key dir)
            files
            (load crypto (crt dir) (key dir) files)).1
        ≡ none
  others files other not_cert not_key absent =
      load_or_generate-others other crypto (all_work k) t (crt dir) (key dir) not_cert not_key files
        (load crypto (crt dir) (key dir) files)
      ∙ absent

  prepare-Serving :
      (m : Machine)
      → state_dir os m.dirs ≡ (some dir, m.dirs)
      → lookup (temp_path (token dir)) m.files ≡ none
      → Serving t.checked (prepare os crypto calls s id (socket dir) m)
  unfolding prepare removed is_plain last_code ◌=ᵇ◌
  prepare-Serving m found no_temp =
      let m' : Machine = record m {
        sockets = delete (socket dir) m.sockets;
        files = delete (socket dir) m.files;
      } in
      let gone : lookup (socket dir) m'.files ≡ none =
        rw (lookup-delete (socket dir) (socket dir) m.files, =ᵇ_refl (socket dir)) refl in
      let free : lookup (socket dir) m'.sockets ≡ none =
        rw (lookup-delete (socket dir) (socket dir) m.sockets, =ᵇ_refl (socket dir)) refl in
      let no_temp' : lookup (temp_path (token dir)) m'.files ≡ none =
        still_absent (socket dir) (temp_path (token dir)) m.files no_temp in
      let ends =
        λ (name : Bytes) (p : is_plain name ≡ true) (q : (b'p' == last_code name) ≡ false)
            (e : join_path dir name ≡ temp_path (token dir)).
          temp_path-ne (token dir) dir name p q (sym e) in
      rw (tls_config-found crypto (all_work k) os t m.dirs m'.files dir found) (
        tls-Serving m'.sockets m.dirs _ found free
          (others m'.files (socket dir)
            (join_path-ne dir dir (codes "tls.crt") (codes "socket.sock") refl refl refl)
            (join_path-ne dir dir (codes "tls.key") (codes "socket.sock") refl refl refl) gone)
          (others m'.files (temp_path (token dir)) (ends (codes "tls.crt") refl refl)
            (ends (codes "tls.key") refl refl) no_temp')
          (set_up-Lasts crypto signs k t onward (crt dir) (key dir) m'.files
            (join_path-ne dir dir (codes "tls.key") (codes "tls.crt") refl refl refl)
            (load crypto (crt dir) (key dir) m'.files)))

  -- Where no call fails, the state directory is found, the directory of the socket is there, no temporary file of a
  -- token is left behind, the clock does not go back, and certificates can be signed and read back, a server with the
  -- default socket comes to accept connections, whatever else is on the machine, with a certificate that has more
  -- than a day left.
  pub serve-Serving :
      (m : Machine) (dirs : Dirs)
      → s.sock_path ≡ []
      → state_dir os m.dirs ≡ (some dir, dirs)
      → has_dir (lookup (dir_path (socket dir)) dirs) ≡ true
      → lookup (temp_path (token dir)) m.files ≡ none
      → Serving t.checked (serve os crypto calls s id m)
  unfolding serve with_socket_path made has_dir ◌=ᵇ◌
  serve-Serving m dirs default found parent no_temp =
      rw (default, socket_path-found os m.dirs dirs dir found)
        (at_socket (lookup (dir_path (socket dir)) dirs) parent refl)
    where
      again : state_dir os dirs ≡ (some dir, dirs)
      again = state_dir-again os m.dirs dirs dir found

      at_socket :
          (o : Option ℕ)
          → has_dir o ≡ true
          → lookup (dir_path (socket dir)) dirs ≡ o
          → Serving t.checked (with_socket_path os crypto calls s id m (some (socket dir), dirs))
      at_socket none p e = absurd (ground arith)
      at_socket (some mode) p e = rw e (prepare-Serving (record m { dirs = dirs }) again no_temp)
