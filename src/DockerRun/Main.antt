-- ===== src/DockerRun/Main.antt =====
-- `main` of docker_run.py: everything up to the command, and its run with the two threads.
use public_endorsement_servi.Base.{
  ℕ, ◌+◌, Bool, true, false, Option, none, some, List, [], ◌∷◌, ◌++◌, if◌then◌else◌, starts_with,
  Text, chars, Dict, any_of, Outcome, ok, raised, exited, file_not_found, recursion_error,
  Completed, ended, not_found, ◌>>=◌,
}
use public_endorsement_servi.Base.Integers.{pos}
use public_endorsement_servi.Base.Json.{Json}
use public_endorsement_servi.Base.Paths.{FilePath}
use public_endorsement_servi.ExternalMounts.FileSystem.{FileSystem}
use public_endorsement_servi.ExternalMounts.Mounts.{get_minimal_mounts}
use public_endorsement_servi.DockerBuild.Config.{Values}
use public_endorsement_servi.DockerBuild.Images.{checked_end}
use public_endorsement_servi.DockerRun.Settings.{
  Roots, Identity, Account, read_roots, read_identity, cloudsdk_env, nobody_env, number_of_group,
}
use public_endorsement_servi.DockerRun.Mounts.{
  Preparation, preparations, prepare, out_of_tree_git_dir, requested_mounts, docker_mounts,
}
use public_endorsement_servi.DockerRun.Arguments.{Host, evaluated_args, docker_cmd}

-- What the script finds when it starts.
pub record Start : Type 0 where
  pub environ : Dict Text
  pub project_root : Outcome FilePath
  pub home : FilePath
  pub account : Account
  pub host : Host
  pub nobody_group : Option ℕ
  pub stdin_isatty : Bool
  pub stdout_isatty : Bool
  pub unknown_args : List Text

-- The git directory is found in the host's file system, the rest in `fs`.
pub record Outer : Type 0 where
  pub fs : FileSystem
  pub make : Preparation → Outcome (Unit {0})
  pub git : List Text → Completed
  pub config : FilePath → Option (Outcome Json)
  pub vals : Values

abbrev pub git_env : Option FilePath → List Text
git_env none = []
git_env (some git_dir) = chars "--env=GIT_DISCOVERY_ACROSS_FILESYSTEM=1" ∷ []

-- `none` is the end of the fuel of the scan.
abbrev pub within_fuel : Option (List FilePath) → Outcome (List FilePath)
within_fuel none = raised recursion_error
within_fuel (some paths) = ok paths

-- What has been worked out before the threads are started.
pub record Prepared : Type 0 where
  pub roots : Roots
  pub identity : Identity
  pub additional_env : List Text
  pub mounts : List FilePath
  pub minimal_mounts : List FilePath
  pub evaluated : List Text

module _ (outer : Outer) (start : Start) where
  -- From the git directory on; the fuel is that of `get_minimal_mounts`.
  unfoldable pub resolve_mounts : ℕ → ℕ → Roots → Identity → Outcome Prepared
  unfolding out_of_tree_git_dir requested_mounts cloudsdk_env nobody_env get_minimal_mounts
      evaluated_args
  resolve_mounts fuel rounds roots identity =
      let git_dir = out_of_tree_git_dir outer.git (start.host).cwd in
      let mounts = requested_mounts (outer.fs).exists identity.user_id roots.command_home git_dir in
      let additional_env =
        git_env git_dir
        ++ (cloudsdk_env start.environ ++ nobody_env (number_of_group start.nobody_group)) in
      within_fuel (get_minimal_mounts outer.fs fuel rounds roots.command_project_root mounts)
      >>= λ minimal_mounts.
          evaluated_args outer.vals start.environ start.stdin_isatty start.stdout_isatty
            (outer.config (roots.command_project_root ++ (chars "devkit.json" ∷ [])))
          >>= λ evaluated. ok (record {
            roots = roots;
            identity = identity;
            additional_env = additional_env;
            mounts = mounts;
            minimal_mounts = minimal_mounts;
            evaluated = evaluated;
          })

  -- `main` up to the start of the event handler.
  unfoldable pub prepare_run : ℕ → ℕ → Outcome Prepared
  unfolding read_roots read_identity prepare preparations resolve_mounts
  prepare_run fuel rounds = read_roots start.environ start.project_root start.home >>= λ roots.
      read_identity start.environ start.account >>= λ identity.
      prepare outer.make (preparations roots.command_home) >>= λ _.
      resolve_mounts fuel rounds roots identity

  unfoldable pub command_of : ℕ → Prepared → List Text
  unfolding docker_cmd docker_mounts
  command_of event_handler_port p =
      let r = p.roots in
      docker_cmd r p.identity start.host event_handler_port p.additional_env
        (docker_mounts r.command_home r.host_home r.container_home p.minimal_mounts) p.evaluated
        start.unknown_args

-- "DISPLAY" in arg
unfoldable pub shows_display : Text → Bool
unfolding starts_with
shows_display [] = false
shows_display (c ∷ s) =
    let rest = shows_display s in if starts_with (c ∷ s) (chars "DISPLAY") then true else rest

-- How the run of the container ends: as any process, or with Ctrl-C.
pub data RunEnd : Type 0 where
  completed : Completed → RunEnd
  keyboard_interrupt : RunEnd

-- What happens from the start of the threads on. A join with a timeout returns when the time is up,
-- even if the thread still runs.
pub data Happening : Type 0 where
  event_handler_started cleanup_started : Happening
  ran : List Text → Happening
  cleanup_cancelled event_handler_cancelled : Happening
  cleanup_join event_handler_join : (timeout_ms : ℕ) → Happening

-- The exit status: that of docker, or 128 + SIGINT. A missing docker is a FileNotFoundError.
unfoldable pub run_status : RunEnd → Outcome (Unit {0})
run_status (completed (ended returncode stdout stderr)) = exited returncode
run_status (completed not_found) = raised file_not_found
run_status keyboard_interrupt = exited (pos (128 + 2))

-- The `finally`: both threads are told to stop, and each is waited for up to a second.
unfoldable pub finally_part : List Happening
finally_part =
    cleanup_cancelled ∷ event_handler_cancelled ∷ cleanup_join 1000 ∷ event_handler_join 1000 ∷ []

unfoldable pub xhost_cmd : Text → List Text
xhost_cmd user_name = chars "xhost" ∷ (chars "+local:" ++ user_name) ∷ []

-- The `try` around the container and its `finally`.
unfoldable pub run_container :
    (List Text → RunEnd) → List Text → Outcome (Unit {0}) × List Happening
unfolding run_status finally_part
run_container docker cmd = (run_status (docker cmd), ran cmd ∷ finally_part)

-- What follows the permission for the display, which is outside of the `try`.
unfoldable pub after_xhost :
    List Text
    → Outcome (Unit {0})
    → Outcome (Unit {0}) × List Happening
    → Outcome (Unit {0}) × List Happening
after_xhost xhost (ok _) (outcome, trace) = (outcome, ran xhost ∷ trace)
after_xhost xhost (raised e) rest = (raised e, ran xhost ∷ [])
after_xhost xhost (exited n) rest = (exited n, ran xhost ∷ [])

unfoldable pub start_container :
    (List Text → Completed)
    → (List Text → RunEnd)
    → Text
    → List Text
    → Outcome (Unit {0}) × List Happening
unfolding shows_display after_xhost checked_end run_container xhost_cmd
start_container run docker user_name cmd =
    if any_of shows_display cmd
    then after_xhost (xhost_cmd user_name) (checked_end (run (xhost_cmd user_name)))
        (run_container docker cmd)
    else run_container docker cmd

-- From the start of the threads on.
unfoldable pub with_threads :
    (List Text → Completed)
    → (List Text → RunEnd)
    → Text
    → List Text
    → Outcome (Unit {0}) × List Happening
unfolding start_container
with_threads run docker user_name cmd =
    let (outcome, trace) = start_container run docker user_name cmd in
    (outcome, event_handler_started ∷ cleanup_started ∷ trace)

unfoldable pub main :
    Outer
    → Start
    → (List Text → Completed)
    → (List Text → RunEnd)
    → (event_handler_port : ℕ) → (fuel rounds : ℕ) → Outcome (Unit {0}) × List Happening
unfolding prepare_run command_of with_threads
main outer start run docker event_handler_port fuel rounds =
    elim (prepare_run outer start fuel rounds) [
      | raised e ↦ (raised e, [])
      | exited n ↦ (exited n, [])
      | ok p ↦
          with_threads run docker (p.identity).user_name
            (command_of outer start event_handler_port p)
    ]
