-- ===== src/Files.antt =====
-- internal/util/fs.go: the directories of the program. Which directories there are, and with which
-- permissions, is a map from their paths; that `MkdirAll` also makes the parents is left out. The
-- environment, the home directory and whether a call succeeds are parameters.
pub mod Private
pub mod Token
pub mod Certs
pub mod Stable
use opx.Prelude.{ℕ, Bool, true, false, Option, none, some, [], ◌++◌, if◌then◌else◌}
use opx.Prelude.Bytes.{Bytes, codes, ◌=ᵇ◌}
use opx.Dict.{Dict, lookup, insert}
use opx.Paths.{join_path}

-- The permissions of each directory that there is.
abbrev pub Dirs : Type 0
Dirs = Dict ℕ

-- What the calls of the operating system answer.
pub record Os : Type 0 where
  pub getenv : Bytes → Bytes
  pub user_home_dir : Bytes
  pub mkdir_works : Bytes → Bool
  pub chmod_works : Bytes → Bool

-- 0o700
abbrev pub owner_only : ℕ
owner_only = 448

unfoldable pub has_dir : Option ℕ → Bool
has_dir none = false
has_dir (some mode) = true

-- `os.MkdirAll` leaves a directory that is there as it is.
unfoldable pub made : Bytes → Option ℕ → Dirs → Dirs
made dir none dirs = insert dir owner_only dirs
made dir (some mode) dirs = dirs

module _ (os : Os) where
  unfoldable pub home_dir : Bytes
  home_dir = if os.user_home_dir =ᵇ [] then codes "." else os.user_home_dir

  -- `os.Chmod(dir, 0o700)`, and the directory where it succeeds.
  unfoldable pub chmod_dir : Bytes → Dirs → Option Bytes × Dirs
  chmod_dir dir dirs =
      if os.chmod_works dir then (some dir, insert dir owner_only dirs) else (none, dirs)

  -- The end of each of the functions: the directory is made, and its permissions are set.
  unfoldable pub make_dir : Bytes → Dirs → Option Bytes × Dirs
  unfolding chmod_dir made
  make_dir dir dirs =
      if os.mkdir_works dir then chmod_dir dir (made dir (lookup dir dirs) dirs) else (none, dirs)

  -- The directory below one that the environment names, or else below the home directory.
  unfoldable pub xdg_dir : Bytes → Bytes → Bytes
  unfolding home_dir
  xdg_dir variable fallback =
      let xdg = os.getenv variable in
      if xdg =ᵇ []
      then join_path home_dir (fallback ++ codes "/op-authd")
      else join_path xdg (codes "op-authd")

  unfoldable pub data_dir : Dirs → Option Bytes × Dirs
  unfolding make_dir xdg_dir
  data_dir dirs = make_dir (xdg_dir (codes "XDG_DATA_HOME") (codes ".local/share")) dirs

  unfoldable pub config_dir : Dirs → Option Bytes × Dirs
  unfolding make_dir xdg_dir
  config_dir dirs = make_dir (xdg_dir (codes "XDG_CONFIG_HOME") (codes ".config")) dirs

  unfoldable pub old_dir : Bytes
  unfolding home_dir
  old_dir = join_path home_dir (codes ".op-authd")

  unfoldable pub runtime_dir : Dirs → Option Bytes × Dirs
  unfolding make_dir chmod_dir data_dir old_dir has_dir
  runtime_dir dirs =
      let xdg = os.getenv (codes "XDG_RUNTIME_DIR") in
      if has_dir (lookup old_dir dirs)
      then chmod_dir old_dir dirs
      else if xdg =ᵇ []
      then data_dir dirs
      else make_dir (join_path xdg (codes "op-authd")) dirs

  unfoldable pub state_dir : Dirs → Option Bytes × Dirs
  unfolding chmod_dir data_dir old_dir has_dir
  state_dir dirs = if has_dir (lookup old_dir dirs) then chmod_dir old_dir dirs else data_dir dirs

  in_dir : Bytes → Option Bytes × Dirs → Option Bytes × Dirs
  in_dir name (none, dirs) = (none, dirs)
  in_dir name (some dir, dirs) = (some (join_path dir name), dirs)

  unfoldable pub socket_path : Dirs → Option Bytes × Dirs
  unfolding in_dir state_dir
  socket_path dirs = in_dir (codes "socket.sock") (state_dir dirs)

  unfoldable pub token_path : Dirs → Option Bytes × Dirs
  unfolding in_dir state_dir
  token_path dirs = in_dir (codes "token") (state_dir dirs)
