-- ===== src/Security.antt =====
-- internal/security/peer.go: who is at the other end of a Unix socket. The system calls and the
-- programs that the code runs are parameters.
use opx.Prelude.{ℕ, Bool, Option, none, some, [], ◌++◌, if◌then◌else◌}
use opx.Prelude.Int.{ℤ, pos, leb_ℤ}
use opx.Prelude.Bytes.{Bytes, codes}
use opx.Strings.{decimal, trim_space}
use opx.Paths.{clean}

pub record PeerInfo : Type 0 where
  pub pid : ℤ
  pub uid : ℕ
  pub gid : ℕ
  pub path : Bytes

pub data Goos : Type 0 where
  linux darwin other_os : Goos

-- What the system answers: the socket option that holds the peer's process id, the link
-- `/proc/PID/exe`, and the output of `ps`; `none` is an error.
pub record System : Type 0 where
  pub goos : Goos
  pub syscall_conn : Bool
  pub control : Bool
  pub peer_pid : Option ℤ
  pub read_link : Bytes → Option Bytes
  pub ps_comm : ℤ → Option Bytes

or_empty : Option Bytes → Bytes
or_empty none = []
or_empty (some s) = s

cleaned : Option Bytes → Bytes
cleaned none = []
cleaned (some out) = clean (trim_space out)

path_on : Goos → System → ℤ → Bytes
unfolding or_empty cleaned
path_on linux sys pid = or_empty (sys.read_link (codes "/proc/" ++ (decimal pid ++ codes "/exe")))
path_on darwin sys pid = cleaned (sys.ps_comm pid)
path_on other_os sys pid = []

unfoldable pub exe_path_for_pid : System → ℤ → Bytes
unfolding path_on
exe_path_for_pid sys pid = if leb_ℤ pid (pos 0) then [] else path_on sys.goos sys pid

-- The process id on the systems that have one; the user and the group stay 0.
pid_on : Goos → Option ℤ → Option ℤ
pid_on linux pid = pid
pid_on darwin pid = pid
pid_on other_os pid = none

with_path : System → Option ℤ → Option PeerInfo
unfolding exe_path_for_pid
with_path sys none = none
with_path sys (some pid) =
    some (record { pid = pid; uid = 0; gid = 0; path = exe_path_for_pid sys pid })

-- `none` is any of the errors.
unfoldable pub peer_from_unix_conn : System → Option PeerInfo
unfolding with_path pid_on
peer_from_unix_conn sys =
    if sys.syscall_conn
    then (if sys.control then with_path sys (pid_on sys.goos sys.peer_pid) else none)
    else none
