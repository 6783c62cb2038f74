-- ===== src/DockerRun/Mounts.antt =====
-- The mounts of `main` in docker_run.py: what is requested, and the volumes that it becomes.
use public_endorsement_servi.Base.{
  Bool, false, Option, none, some, List, [], ◌∷◌, ◌++◌, map, if◌then◌else◌, Text, chars, text_eq,
  strip, Outcome, ok, raised, exited, Completed, ended, not_found,
}
use public_endorsement_servi.Base.Integers.{ℤ, pos, int_eq}
use public_endorsement_servi.Base.Decimal.{show_int}
use public_endorsement_servi.Base.Paths.{
  FilePath, path_text, read_path, is_relative_to, relative_to,
}
use public_endorsement_servi.ExternalMounts.FileSystem.{parent}

abbrev pub home_files : List FilePath
home_files = (chars ".gitconfig" ∷ []) ∷ []

abbrev pub home_dirs : List FilePath
home_dirs =
    (chars ".cache" ∷ chars "bazel" ∷ [])
    ∷ (chars ".cache" ∷ chars "bazelisk" ∷ [])
    ∷ (chars ".cache" ∷ chars "buf" ∷ [])
    ∷ (chars ".cache" ∷ chars "go-build" ∷ [])
    ∷ (chars ".cache" ∷ chars "nvim" ∷ [])
    ∷ (chars ".cache" ∷ chars "pip" ∷ [])
    ∷ (chars ".cache" ∷ chars "pip-tools" ∷ [])
    ∷ (chars ".cache" ∷ chars "pre-commit" ∷ [])
    ∷ (chars ".cache" ∷ chars "pylint" ∷ [])
    ∷ (chars ".config" ∷ chars "gcloud" ∷ [])
    ∷ (chars ".config" ∷ chars "google-chrome" ∷ [])
    ∷ (chars ".config" ∷ chars "matplotlib" ∷ [])
    ∷ (chars ".devkit" ∷ chars "logs" ∷ [])
    ∷ (chars ".docker" ∷ [])
    ∷ (chars ".gemini" ∷ [])
    ∷ (chars ".local" ∷ chars "pre-commit" ∷ [])
    ∷ (chars ".local" ∷ chars "share" ∷ chars "nvim" ∷ [])
    ∷ (chars ".local" ∷ chars "state" ∷ [])
    ∷ (chars ".npm" ∷ [])
    ∷ (chars ".vim" ∷ [])
    ∷ []

abbrev pub docker_sock : FilePath
docker_sock = chars "var" ∷ chars "run" ∷ chars "docker.sock" ∷ []

abbrev pub system_bus_socket : FilePath
system_bus_socket = chars "run" ∷ chars "dbus" ∷ chars "system_bus_socket" ∷ []

abbrev pub etc_gitconfig : FilePath
etc_gitconfig = chars "etc" ∷ chars "gitconfig" ∷ []

unfoldable pub session_bus_socket : ℤ → FilePath
unfolding show_int
session_bus_socket user_id = chars "run" ∷ chars "user" ∷ show_int user_id ∷ chars "bus" ∷ []

-- What is made before the mounts are resolved: a directory with its parents, or an empty file.
pub data Preparation : Type 0 where
  mkdir : FilePath → Preparation
  touch : FilePath → Preparation

unfoldable pub prepare_files : FilePath → List FilePath → List Preparation
unfolding parent
prepare_files command_home [] = []
prepare_files command_home (file ∷ files) =
    mkdir (parent (command_home ++ file))
    ∷ touch (command_home ++ file)
    ∷ prepare_files command_home files

-- The two loops over `home_dirs` and `home_files`.
unfoldable pub preparations : FilePath → List Preparation
unfolding prepare_files
preparations command_home =
    map (λ path. mkdir (command_home ++ path)) home_dirs ++ prepare_files command_home home_files

-- Where the preparations go on, and the first that fails ends them.
unfoldable pub prepare : (Preparation → Outcome (Unit {0})) → List Preparation → Outcome (Unit {0})
prepare make [] = ok tt
prepare make (p ∷ ps) = elim (make p) [
  | ok _ ↦ prepare make ps
  | raised e ↦ raised e
  | exited n ↦ exited n
]

-- Exit status 0 and the output "true".
unfoldable pub is_true_output : Completed → Bool
unfolding strip text_eq
is_true_output not_found = false
is_true_output (ended returncode stdout stderr) =
    if int_eq returncode (pos 0) then text_eq (strip stdout) (chars "true") else false

-- The second command fails with any other status than 0, which is caught like a missing git.
unfoldable pub git_dir_output : Completed → Option FilePath
unfolding strip read_path
git_dir_output not_found = none
git_dir_output (ended returncode stdout stderr) =
    if int_eq returncode (pos 0) then some (read_path (strip stdout)) else none

unfoldable pub outside_cwd : FilePath → Option FilePath → Option FilePath
unfolding is_relative_to
outside_cwd cwd none = none
outside_cwd cwd (some git_dir) = if is_relative_to git_dir cwd then none else some git_dir

-- The git directory to mount, if there is one and it lies outside of the working directory.
unfoldable pub out_of_tree_git_dir : (List Text → Completed) → FilePath → Option FilePath
unfolding is_true_output git_dir_output outside_cwd
out_of_tree_git_dir git cwd =
    let inside = git (chars "git" ∷ chars "rev-parse" ∷ chars "--is-inside-work-tree" ∷ []) in
    let absolute = git (chars "git" ∷ chars "rev-parse" ∷ chars "--absolute-git-dir" ∷ []) in
    if is_true_output inside then outside_cwd cwd (git_dir_output absolute) else none

abbrev pub listed_path : Option FilePath → List FilePath
listed_path none = []
listed_path (some p) = p ∷ []

-- `mounts`, in the order of the appends.
unfoldable pub requested_mounts : (FilePath → Bool) → ℤ → FilePath → Option FilePath → List FilePath
unfolding session_bus_socket
requested_mounts exists user_id command_home git_dir =
    docker_sock
    ∷ system_bus_socket
    ∷ ((if exists etc_gitconfig then etc_gitconfig ∷ [] else [])
        ++ (session_bus_socket user_id
            ∷ (map (λ path. command_home ++ path) home_dirs
                ++ (map (λ path. command_home ++ path) home_files ++ listed_path git_dir))))

-- The path that stands for a mount under another home.
unfoldable pub rehomed : FilePath → FilePath → FilePath → FilePath
unfolding is_relative_to relative_to
rehomed command_home home path =
    if is_relative_to path command_home then home ++ relative_to path command_home else path

-- f"--volume={host_path}:{container_path}"
unfoldable pub volume_text : FilePath → FilePath → Text
unfolding path_text
volume_text host_path container_path =
    chars "--volume=" ++ path_text host_path ++ (b':' ∷ path_text container_path)

unfoldable pub volume_of : FilePath → FilePath → FilePath → FilePath → Text
unfolding rehomed volume_text
volume_of command_home host_home container_home path =
    volume_text (rehomed command_home host_home path) (rehomed command_home container_home path)

-- The loop over the minimal mounts.
unfoldable pub docker_mounts : FilePath → FilePath → FilePath → List FilePath → List Text
unfolding volume_of
docker_mounts command_home host_home container_home minimal_mounts =
    map (λ path. volume_of command_home host_home container_home path) minimal_mounts
