-- ===== src/DockerBuild/Images.antt =====
-- `manage_docker_image` of docker/build.py with the docker commands it runs, and the checks that
-- docker is installed. Docker is a parameter: how a command ends, and what it does to the world.
use public_endorsement_servi.Base.{
  Bool, true, false, ◌||◌, List, [], ◌∷◌, ◌++◌, if◌then◌else◌, Text, chars, Outcome, ok, raised,
  exited, called_process_error, file_not_found, index_error, Completed, ended, not_found,
}
use public_endorsement_servi.Base.Integers.{pos, int_eq}

-- `not s`, for a text
abbrev pub is_empty : Text → Bool
is_empty [] = true
is_empty (c ∷ s) = false

abbrev pub inspect_cmd : Text → List Text
inspect_cmd tag = chars "docker" ∷ chars "image" ∷ chars "inspect" ∷ tag ∷ []

abbrev pub manifest_inspect_cmd : Text → List Text
manifest_inspect_cmd tag = chars "docker" ∷ chars "manifest" ∷ chars "inspect" ∷ tag ∷ []

abbrev pub pull_cmd : Text → List Text
pull_cmd tag = chars "docker" ∷ chars "pull" ∷ tag ∷ []

abbrev pub push_cmd : Text → List Text
push_cmd tag = chars "docker" ∷ chars "push" ∷ tag ∷ []

-- The `while` over the build arguments, two at a time: a name without a value is an IndexError.
unfoldable pub build_arg_options : List Text → Outcome (List Text)
build_arg_options [] = ok []
build_arg_options (name ∷ []) = raised index_error
build_arg_options (name ∷ value ∷ rest) = elim (build_arg_options rest) [
  | ok options ↦ ok (chars "--build-arg" ∷ (name ++ (b'=' ∷ value)) ∷ options)
  | raised e ↦ raised e
  | exited n ↦ exited n
]

unfoldable pub docker_build_cmd : Text → Text → List Text → Text → Bool → List Text
docker_build_cmd tag dockerfile_path options context_path no_cache =
    chars "docker"
      ∷ chars "buildx"
      ∷ chars "build"
      ∷ chars "--tag"
      ∷ tag
      ∷ chars "--file"
      ∷ dockerfile_path
      ∷ (if no_cache then chars "--no-cache" ∷ [] else [])
    ++ options
    ++ (context_path ∷ [])

-- The world, and the commands run so far, the newest first.
pub record Session {ℓ} (World : Type ℓ) : Type ℓ where
  pub world : World
  pub commands : List (List Text)

-- The `except` clauses of `manage_docker_image`, on its last step.
unfoldable pub guarded : Outcome (Unit {0}) → Outcome (Unit {0})
guarded (raised (called_process_error returncode)) =
    exited (if int_eq returncode (pos 0) then pos 1 else returncode)
guarded (raised file_not_found) = exited (pos 1)
guarded outcome = outcome

-- subprocess.run(..., check=True)
unfoldable pub checked_end : Completed → Outcome (Unit {0})
checked_end not_found = raised file_not_found
checked_end (ended returncode stdout stderr) =
    if int_eq returncode (pos 0) then ok tt else raised (called_process_error returncode)

-- subprocess.run(..., check=False).returncode == 0
unfoldable pub succeeded : Completed → Outcome Bool
succeeded not_found = raised file_not_found
succeeded (ended returncode stdout stderr) = ok (int_eq returncode (pos 0))

-- A failed push is only logged.
unfoldable pub pushed_end : Completed → Outcome (Unit {0})
pushed_end not_found = raised file_not_found
pushed_end (ended returncode stdout stderr) = ok tt

module _ {ℓ} {World : Type ℓ} (docker : List Text → World → Completed × World) where
  unfoldable pub run : List Text → Session World → Completed × Session World
  run cmd s =
      let r = docker cmd s.world in (r.0, record { world = r.1; commands = cmd ∷ s.commands })

  unfoldable pub check_if_image_exists_locally : Text → Session World → Outcome Bool × Session World
  unfolding run succeeded
  check_if_image_exists_locally tag s = let r = run (inspect_cmd tag) s in (succeeded r.0, r.1)

  unfoldable pub check_if_image_exists_in_remote_registry :
      Text → Session World → Outcome Bool × Session World
  unfolding run succeeded
  check_if_image_exists_in_remote_registry tag s =
      let r = run (manifest_inspect_cmd tag) s in (succeeded r.0, r.1)

  unfoldable pub pull_image_from_registry :
      Text → Session World → Outcome (Unit {0}) × Session World
  unfolding run checked_end
  pull_image_from_registry tag s = let r = run (pull_cmd tag) s in (checked_end r.0, r.1)

  unfoldable pub push_image_to_registry : Text → Session World → Outcome (Unit {0}) × Session World
  unfolding run pushed_end
  push_image_to_registry tag s = let r = run (push_cmd tag) s in (pushed_end r.0, r.1)

  -- What is done with a value: getting it may have failed.
  unfoldable pub on_answer {κ} :
      {A : Type κ}
      → Outcome A × Session World
      → (A → Session World → Outcome (Unit {0}) × Session World)
      → Outcome (Unit {0}) × Session World
  on_answer (ok a, s) act = act a s
  on_answer (raised e, s) act = (raised e, s)
  on_answer (exited n, s) act = (exited n, s)

  unfoldable pub run_build : List Text → Session World → Outcome (Unit {0}) × Session World
  unfolding run checked_end
  run_build cmd s = let r = run cmd s in (checked_end r.0, r.1)

  unfoldable pub build_image :
      Text → Text → List Text → Text → Bool → Session World → Outcome (Unit {0}) × Session World
  unfolding build_arg_options docker_build_cmd run_build on_answer
  build_image tag dockerfile_path build_args_list context_path no_cache s =
      on_answer (build_arg_options build_args_list, s)
        (λ options t.
          run_build (docker_build_cmd tag dockerfile_path options context_path no_cache) t)

  -- `then` in a sequence of statements
  unfoldable pub followed_by :
      Outcome (Unit {0}) × Session World
      → (Session World → Outcome (Unit {0}) × Session World)
      → Outcome (Unit {0}) × Session World
  followed_by (ok _, s) act = act s
  followed_by (raised e, s) act = (raised e, s)
  followed_by (exited n, s) act = (exited n, s)

  -- not no_cache and check(tag)
  unfoldable pub asked :
      Text
      → Bool
      → (Text → Session World → Outcome Bool × Session World)
      → Session World
      → Outcome Bool × Session World
  asked tag true check s = (ok false, s)
  asked tag false check s = check tag s

  module _ (tag dockerfile_path : Text) (build_args_list : List Text) (context_path : Text) where
    unfoldable pub build_it : Bool → Session World → Outcome (Unit {0}) × Session World
    unfolding build_image
    build_it no_cache = build_image tag dockerfile_path build_args_list context_path no_cache

    unfoldable pub after_remote : Bool → Bool → Session World → Outcome (Unit {0}) × Session World
    unfolding pull_image_from_registry followed_by build_it push_image_to_registry
    after_remote no_cache true s = pull_image_from_registry tag s
    after_remote no_cache false s =
        followed_by (build_it no_cache s) (λ t. push_image_to_registry tag t)

    unfoldable pub after_local :
        Bool → Bool → Text → Bool → Session World → Outcome (Unit {0}) × Session World
    unfolding build_it on_answer asked check_if_image_exists_in_remote_registry after_remote
    after_local local_image_mode no_cache repo true s = (ok tt, s)
    after_local local_image_mode no_cache repo false s =
        if is_empty repo || local_image_mode
        then build_it no_cache s
        else on_answer (asked tag no_cache (λ t u. check_if_image_exists_in_remote_registry t u) s)
            (λ found. after_remote no_cache found)

    unfoldable pub manage_docker_image :
        Bool → Bool → Text → Session World → Outcome (Unit {0}) × Session World
    unfolding on_answer asked check_if_image_exists_locally after_local guarded
    manage_docker_image local_image_mode no_cache repo s =
        let r =
          on_answer (asked tag no_cache (λ t u. check_if_image_exists_locally t u) s)
            (λ found. after_local local_image_mode no_cache repo found) in
        (guarded r.0, r.1)

  unfoldable pub check_docker_installed : Session World → Outcome (Unit {0}) × Session World
  unfolding run checked_end
  check_docker_installed s =
      let r = run (chars "docker" ∷ chars "--version" ∷ []) s in
      (
        elim (checked_end r.0) [ ok _ ↦ ok tt | raised e ↦ exited (pos 1) | exited n ↦ exited n ],
        r.1,
      )

  unfoldable pub check_docker_buildx_installed : Session World → Outcome (Unit {0}) × Session World
  unfolding run checked_end
  check_docker_buildx_installed s =
      let r = run (chars "docker" ∷ chars "buildx" ∷ chars "version" ∷ []) s in
      (
        elim (checked_end r.0) [ ok _ ↦ ok tt | raised e ↦ exited (pos 1) | exited n ↦ exited n ],
        r.1,
      )
