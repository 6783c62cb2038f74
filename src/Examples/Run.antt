-- ===== src/Examples/Run.antt =====
-- The results on docker_run.py at concrete inputs.
use public_endorsement_servi.Base.{
  ◌≡◌, refl, ◌⊎◌, inl, true, false, none, [], ◌∷◌, ◌++◌, In, chars, lookup, text_eq, Outcome, ok,
  raised, exited, ended,
}
use public_endorsement_servi.Base.Integers.{pos}
use public_endorsement_servi.Base.Paths.{FilePath, path_text, has_path, is_relative_to}
use public_endorsement_servi.ExternalMounts.FileSystem.{end, FileSystem}
use public_endorsement_servi.ExternalMounts.Symlinks.{process_entries, walk}
use public_endorsement_servi.ExternalMounts.Minimize.{Under}
use public_endorsement_servi.DockerRun.Settings.{Roots, path_from_env}
use public_endorsement_servi.DockerRun.Mounts.{docker_sock, rehomed, volume_of}
use public_endorsement_servi.DockerRun.Main.{
  Outer, Start, Prepared, prepare_run, command_of, keyboard_interrupt, main,
}
use public_endorsement_servi.DockerRun.Volumes.{mounts_of, IsWanted, prepare_run-volumes}
use public_endorsement_servi.DockerRun.Joined.{HasRun, IsRefused, IsUnprepared, main-HasRun}
use public_endorsement_servi.DockerRun.ReadBack.{IsPart, path_from_env-path_text}

abbrev home : FilePath
home = (b'h' ∷ []) ∷ []

-- A project without symlinks.
abbrev plain : FileSystem
plain = record {
  is_symlink = λ p. false;
  readlink = λ p. none;
  exists = λ p. false;
  is_dir = λ p. true;
  resolve = λ p. p;
  content = λ p. end;
}

abbrev outer : Outer
outer = record {
  fs = plain;
  make = λ p. ok tt;
  git = λ cmd. ended (pos 128) [] [];
  config = λ p. none;
  vals = record { number_truth = λ t. true; str_of = λ j. [] };
}

abbrev start : Start
start = record {
  environ = [];
  project_root = ok home;
  home = home;
  account = record { login = b'u' ∷ []; uid = 5; group = b'g' ∷ []; gid = 6 };
  host = record {
    cwd = home;
    hostname = [];
    soft_limit = pos 1;
    hard_limit = pos 2;
    docker_group_id = 0;
    scripts_dir = home;
  };
  nobody_group = none;
  stdin_isatty = true;
  stdout_isatty = true;
  unknown_args = [];
}

abbrev roots : Roots
roots = record {
  host_project_root = home;
  container_project_root = home;
  command_project_root = home;
  host_home = home;
  command_home = home;
  container_home = home;
  host_tmp_dir = chars "tmp" ∷ [];
  container_tmp_dir = chars "tmp" ∷ [];
}

main-HasRun_example :
    IsUnprepared outer start 2 3
      (main outer start (λ c. ended (pos 0) [] []) (λ c. keyboard_interrupt) 9 2 3)
    ⊎ ((p : Prepared) × (prepare_run outer start 2 3 ≡ ok p)
        × (HasRun
              (λ c. ended (pos 0) [] [])
              (λ c. keyboard_interrupt)
              (p.identity).user_name
              (command_of outer start 9 p)
              (main outer start (λ c. ended (pos 0) [] []) (λ c. keyboard_interrupt) 9 2 3)
            ⊎ IsRefused
                (λ c. ended (pos 0) [] [])
                (λ c. keyboard_interrupt)
                (p.identity).user_name
                (command_of outer start 9 p)
                (main outer start (λ c. ended (pos 0) [] []) (λ c. keyboard_interrupt) 9 2 3)))
main-HasRun_example =
    main-HasRun outer start 2 3 (λ c. ended (pos 0) [] []) (λ c. keyboard_interrupt) 9

path_from_env-path_text_example :
    path_from_env
      ((chars "DEVKIT_HOST_HOME", path_text ((b'h' ∷ []) ∷ (b'u' ∷ []) ∷ [])) ∷ [])
      (chars "DEVKIT_HOST_HOME")
      []
    ≡ (b'h' ∷ []) ∷ (b'u' ∷ []) ∷ []
unfolding lookup text_eq chars IsPart
path_from_env-path_text_example =
    path_from_env-path_text
      ((chars "DEVKIT_HOST_HOME", path_text ((b'h' ∷ []) ∷ (b'u' ∷ []) ∷ [])) ∷ [])
      (chars "DEVKIT_HOST_HOME") [] ((b'h' ∷ []) ∷ (b'u' ∷ []) ∷ [])
      (((refl, tt), (λ e. cc), (λ e. cc)), (((refl, tt), (λ e. cc), (λ e. cc)), tt)) refl

-- What the run is prepared with.
prepared_of : Outcome Prepared → Prepared → Prepared
prepared_of (ok p) q = p
prepared_of (raised e) q = q
prepared_of (exited n) q = q

abbrev unprepared : Prepared
unprepared = record {
  roots = roots;
  identity = record { user_name = []; user_id = pos 0; group_name = []; group_id = pos 0 };
  additional_env = [];
  mounts = [];
  minimal_mounts = [];
  evaluated = [];
}

prepared : Prepared
unfolding prepare_run prepared_of
prepared = prepared_of (prepare_run outer start 2 3) unprepared

prepare_run-volumes_example :
    (q suffix : FilePath) × (docker_sock ≡ q ++ suffix)
    × In
        (volume_of
          (prepared.roots).command_home
          (prepared.roots).host_home
          (prepared.roots).container_home
          q)
        (command_of outer start 9 prepared)
    × (((other : FilePath)
          → rehomed (prepared.roots).command_home other docker_sock
            ≡ rehomed (prepared.roots).command_home other q ++ suffix)
        ⊎ (Under docker_sock (prepared.roots).command_home
            × (is_relative_to q (prepared.roots).command_home ≡ false)))
unfolding prepare_run prepared prepared_of IsWanted mounts_of text_eq lookup chars has_path
    process_entries walk
prepare_run-volumes_example =
    prepare_run-volumes outer start 2 3 9 prepared docker_sock refl (inl (inl refl))
