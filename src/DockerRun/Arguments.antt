-- ===== src/DockerRun/Arguments.antt =====
-- The arguments of the container in `main` of docker_run.py: from the terminal, from devkit.json and
-- from the environment, and the whole docker command.
use public_endorsement_servi.Base.{
  ℕ, Bool, true, false, Option, none, some, List, [], ◌∷◌, ◌++◌, map, if◌then◌else◌, Text, chars,
  Dict, lookup, Outcome, ok, raised, exited, type_error, other_error, ◌>>=◌,
}
use public_endorsement_servi.Base.Integers.{ℤ}
use public_endorsement_servi.Base.Decimal.{show, show_int}
use public_endorsement_servi.Base.Json.{Json, string, array, object, Items, Fields, pairs, elements}
use public_endorsement_servi.Base.Paths.{FilePath, path_text}
use public_endorsement_servi.DockerBuild.Config.{Values, truth}
use public_endorsement_servi.DockerRun.Shell.{expandvars, shlex_split}
use public_endorsement_servi.DockerRun.Settings.{Roots, Identity}
use public_endorsement_servi.DockerRun.Mounts.{system_bus_socket, session_bus_socket, volume_text}

-- The flags for `sys.stdin.isatty()` and `sys.stdout.isatty()`.
unfoldable pub terminal_args : Bool → Bool → List Text
terminal_args true true = chars "--interactive" ∷ chars "--tty" ∷ []
terminal_args true false = []
terminal_args false stdout_isatty = chars "--interactive" ∷ []

-- value.get(key, default): a value that is no dict has no `get`.
unfoldable pub get_or : Text → Json → Json → Outcome Json
unfolding pairs lookup
get_or key default (object fs) = ok (elim (lookup key (pairs fs)) [ none ↦ default | some v ↦ v ])
get_or key default value = raised other_error

abbrev pub names_of : Dict Json → List Json
names_of [] = []
names_of ((k, v) ∷ d) = string k ∷ names_of d

-- What `extend` takes from a value that is true: a text gives its characters, a dict its keys.
unfoldable pub iterated : Json → Outcome (List Json)
unfolding pairs elements
iterated (array vs) = ok (elements vs)
iterated (string s) = ok (map (λ c. string (c ∷ [])) s)
iterated (object fs) = ok (names_of (pairs fs))
iterated value = raised type_error

module _ (vals : Values) where
  -- data.get("docker", {}).get("run", []), if it is true
  unfoldable pub run_args_of : Json → Outcome (List Json)
  unfolding get_or truth iterated
  run_args_of value = get_or (chars "docker") (object Fields.end) value >>= λ docker.
      get_or (chars "run") (array Items.none_left) docker >>= λ run_args.
      (if truth vals run_args then iterated run_args else ok [])

  -- Any exception is logged only. `none` if there is no devkit.json.
  unfoldable pub json_args : Option (Outcome Json) → List Json
  unfolding run_args_of
  json_args none = []
  json_args (some loaded) = elim (loaded >>= run_args_of) [
    | ok args ↦ args
    | raised e ↦ []
    | exited n ↦ []
  ]

-- if os.environ.get("DEVKIT_DOCKER_RUN_ARGS"): a bad quotation is a ValueError, which nothing takes.
unfoldable pub env_args : Option Text → Outcome (List Text)
unfolding shlex_split
env_args none = ok []
env_args (some []) = ok []
env_args (some (c ∷ s)) = shlex_split (c ∷ s)

-- [os.path.expandvars(arg) for arg in docker_run_args]: an argument that is no text is a TypeError.
unfoldable pub expand_json : Dict Text → List Json → Outcome (List Text)
unfolding expandvars
expand_json environ [] = ok []
expand_json environ (string s ∷ args) =
    expand_json environ args >>= λ rest. ok (expandvars environ s ∷ rest)
expand_json environ (arg ∷ args) = raised type_error

-- `evaluated_args`
unfoldable pub evaluated_args :
    Values → Dict Text → Bool → Bool → Option (Outcome Json) → Outcome (List Text)
unfolding terminal_args json_args env_args expand_json lookup
evaluated_args vals environ stdin_isatty stdout_isatty config =
    env_args (lookup (chars "DEVKIT_DOCKER_RUN_ARGS") environ) >>= λ from_env. expand_json environ (
      map string (terminal_args stdin_isatty stdout_isatty)
      ++ (json_args vals config ++ map string from_env))

-- What else the command shows of the host.
pub record Host : Type 0 where
  pub cwd : FilePath
  pub hostname : Text
  pub soft_limit : ℤ
  pub hard_limit : ℤ
  pub docker_group_id : ℕ
  pub scripts_dir : FilePath

unfoldable pub setting : Text → Text → Text
setting name value = chars "--env=" ++ name ++ (b'=' ∷ value)

-- The part of `docker_cmd` that the list literal gives.
unfoldable pub leading_args : Roots → Identity → Host → ℕ → List Text
unfolding setting volume_text path_text show show_int session_bus_socket
leading_args roots identity host event_handler_port =
    let limits = show_int host.soft_limit ++ (b':' ∷ show_int host.hard_limit) in
    chars "docker"
    ∷ chars "run"
    ∷ chars "--rm"
    ∷ chars "--ulimit"
    ∷ (chars "nofile=" ++ limits)
    ∷ volume_text roots.host_project_root roots.container_project_root
    ∷ (chars "--workdir=" ++ path_text host.cwd)
    ∷ setting (chars "HOME") (path_text roots.container_home)
    ∷ setting (chars "DEVKIT_SOCKET_PORT") (show event_handler_port)
    ∷ chars "--env=GOOGLE_CLOUD_PROJECT"
    ∷ chars "--env=GEMINI_API_KEY"
    ∷ chars "--env=AWS_SECRET_ACCESS_KEY"
    ∷ chars "--env=AWS_ACCESS_KEY_ID"
    ∷ chars "--env=AWS_SESSION_TOKEN"
    ∷ chars "--env=AWS_PAGER"
    ∷ chars "--env=GH_TOKEN"
    ∷ chars "--env=CLOUDSDK_CONTAINER_USE_APPLICATION_DEFAULT_CREDENTIALS"
    ∷ setting (chars "USER") identity.user_name
    ∷ setting (chars "USER_ID") (show_int identity.user_id)
    ∷ setting (chars "GROUP") identity.group_name
    ∷ setting (chars "GROUP_ID") (show_int identity.group_id)
    ∷ setting (chars "TMPDIR") (path_text roots.container_tmp_dir)
    ∷ chars "--env=TERM=xterm-256color"
    ∷ chars "--env=COLORTERM"
    ∷ chars "--env=DOCKER_GROUP=docker"
    ∷ setting (chars "DOCKER_GROUP_ID") (show host.docker_group_id)
    ∷ chars "--env=NOBODY_GROUP=nobody"
    ∷ setting (chars "DBUS_SYSTEM_BUS_ADDRESS") (chars "unix:path=" ++ path_text system_bus_socket)
    ∷ setting (chars "DBUS_SESSION_BUS_ADDRESS")
        (chars "unix:path=" ++ path_text (session_bus_socket identity.user_id))
    ∷ setting (chars "DEVKIT_NOFILE_SOFT") (show_int host.soft_limit)
    ∷ setting (chars "DEVKIT_NOFILE_HARD") (show_int host.hard_limit)
    ∷ chars "--env=ADDITIONAL_PATH="
    ∷ []

-- The fixed arguments behind the mounts.
unfoldable pub trailing_args : Roots → Host → List Text
unfolding volume_text path_text
trailing_args roots host =
    chars "--net=host"
    ∷ chars "--ipc=host"
    ∷ (chars "--hostname=" ++ host.hostname)
    ∷ volume_text roots.host_tmp_dir roots.container_tmp_dir
    ∷ (chars "--entrypoint=" ++ path_text (host.scripts_dir ++ (chars "entrypoint_docker" ∷ [])))
    ∷ []

unfoldable pub docker_cmd :
    Roots
    → Identity
    → Host
    → ℕ
    → (additional_env docker_mounts evaluated unknown : List Text) → List Text
unfolding leading_args trailing_args
docker_cmd roots identity host event_handler_port additional_env docker_mounts evaluated unknown =
    leading_args roots identity host event_handler_port
    ++ (additional_env ++ (docker_mounts ++ (trailing_args roots host ++ (evaluated ++ unknown))))
