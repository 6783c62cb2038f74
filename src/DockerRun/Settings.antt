-- ===== src/DockerRun/Settings.antt =====
-- The settings of `main` in docker_run.py: the paths and the identities that the environment gives.
use public_endorsement_servi.Base.{
  ℕ, Option, none, some, List, [], ◌∷◌, ◌++◌, if◌then◌else◌, ltb, Text, chars, Dict, lookup,
  starts_with, Outcome, ok, raised, exited, file_not_found, ◌>>=◌,
}
use public_endorsement_servi.Base.Integers.{ℤ, pos}
use public_endorsement_servi.Base.Decimal.{parse_int, show}
use public_endorsement_servi.Base.Paths.{FilePath, read_path}

-- `environ.get(name) or default`: an empty text counts as not given.
unfoldable pub given_or {ℓ} : {A : Type ℓ} → Option Text → A → (Text → A) → A
given_or none default read = default
given_or (some []) default read = default
given_or (some (c ∷ s)) default read = read (c ∷ s)

unfoldable pub path_from_env : Dict Text → Text → FilePath → FilePath
unfolding lookup given_or read_path
path_from_env environ env_var default = given_or (lookup env_var environ) default read_path

pub record Roots : Type 0 where
  pub host_project_root : FilePath
  pub container_project_root : FilePath
  pub command_project_root : FilePath
  pub host_home : FilePath
  pub command_home : FilePath
  pub container_home : FilePath
  pub host_tmp_dir : FilePath
  pub container_tmp_dir : FilePath

-- except FileNotFoundError
unfoldable pub or_exit_if_missing : Outcome FilePath → Outcome FilePath
or_exit_if_missing (raised file_not_found) = exited (pos 1)
or_exit_if_missing found = found

-- Path(os.environ.get("TMPDIR", "/tmp"))
unfoldable pub tmpdir : Option Text → FilePath
unfolding read_path
tmpdir none = chars "tmp" ∷ []
tmpdir (some text) = read_path text

-- `found` is what `find_project_root()` comes to, which is called whether the variable is set or not.
unfoldable pub read_roots : Dict Text → Outcome FilePath → FilePath → Outcome Roots
unfolding or_exit_if_missing path_from_env tmpdir lookup
read_roots environ found home = do
  root ← or_exit_if_missing found
  let host_project_root = path_from_env environ (chars "DEVKIT_HOST_PROJECT_ROOT") root
  let host_home = path_from_env environ (chars "DEVKIT_HOST_HOME") home
  let host_tmp_dir =
      path_from_env environ (chars "DEVKIT_HOST_TMP_DIR") (tmpdir (lookup (chars "TMPDIR") environ))
  ok (record {
    host_project_root = host_project_root;
    container_project_root =
        path_from_env environ (chars "DEVKIT_CONTAINER_PROJECT_ROOT") host_project_root;
    command_project_root =
        path_from_env environ (chars "DEVKIT_COMMAND_PROJECT_ROOT") host_project_root;
    host_home = host_home;
    command_home = path_from_env environ (chars "DEVKIT_COMMAND_HOME") host_home;
    container_home = path_from_env environ (chars "DEVKIT_CONTAINER_HOME") host_home;
    host_tmp_dir = host_tmp_dir;
    container_tmp_dir = path_from_env environ (chars "DEVKIT_CONTAINER_TMP_DIR") host_tmp_dir;
  })

pub record Identity : Type 0 where
  pub user_name : Text
  pub user_id : ℤ
  pub group_name : Text
  pub group_id : ℤ

-- What the system's databases say of the process.
pub record Account : Type 0 where
  pub login : Text
  pub uid : ℕ
  pub group : Text
  pub gid : ℕ

-- int(environ.get(name) or number)
unfoldable pub number_or : Option Text → ℕ → Outcome ℤ
unfolding given_or parse_int
number_or text number = given_or text (ok (pos number)) parse_int

unfoldable pub read_identity : Dict Text → Account → Outcome Identity
unfolding lookup given_or number_or
read_identity environ account = do
  user_id ← number_or (lookup (chars "USER_ID") environ) account.uid
  group_id ← number_or (lookup (chars "GROUP_ID") environ) account.gid
  ok (record {
    user_name = given_or (lookup (chars "USER") environ) account.login (λ text. text);
    user_id = user_id;
    group_name = given_or (lookup (chars "GROUP") environ) account.group (λ text. text);
    group_id = group_id;
  })

-- for key in os.environ
unfoldable pub cloudsdk_env : Dict Text → List Text
unfolding starts_with
cloudsdk_env [] = []
cloudsdk_env ((key, value) ∷ environ) =
    let rest = cloudsdk_env environ in
    if starts_with key (chars "CLOUDSDK_CONTEXT_") then (chars "--env=" ++ key) ∷ rest else rest

-- The group's number, or 0 for a KeyError.
abbrev pub number_of_group : Option ℕ → ℕ
number_of_group none = 0
number_of_group (some gid) = gid

unfoldable pub nobody_env : ℕ → List Text
unfolding show
nobody_env nobody_group_id =
    if ltb 0 nobody_group_id
    then (chars "--env=NOBODY_GROUP_ID=" ++ show nobody_group_id) ∷ []
    else []
