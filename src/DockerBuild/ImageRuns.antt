-- ===== src/DockerBuild/ImageRuns.antt =====
-- What `manage_docker_image` of docker/build.py comes to, and the commands it runs.
use public_endorsement_servi.Base.{
  ◌≡◌, refl, ◌⊎◌, inl, inr, Bool, true, false, ◌||◌, List, All, Text, Outcome, ok, raised, exited,
  Completed,
}
use public_endorsement_servi.DockerBuild.Images.{
  Session, is_empty, inspect_cmd, build_arg_options, docker_build_cmd, run,
  check_if_image_exists_locally, run_build, build_image, on_answer, asked, build_it, after_local,
  manage_docker_image,
}

-- The commands that stay on this machine: the local check and a build of the tag.
unfoldable pub IsLocalCmd : Text → List Text → Type 0
IsLocalCmd tag cmd =
    (cmd ≡ inspect_cmd tag)
    ⊎ ((dockerfile : Text) × (options : List Text) × (context : Text) × (no_cache : Bool) × (cmd
          ≡ docker_build_cmd tag dockerfile options context no_cache))

module _ {ℓ} {World : Type ℓ} (docker : List Text → World → Completed × World) where
  run_build-local :
      (tag dockerfile : Text) (options : List Text) (context : Text) (no_cache : Bool)
      (s : Session World)
      → All (IsLocalCmd tag) s.commands
      → All
          (IsLocalCmd tag)
          ((run_build docker (docker_build_cmd tag dockerfile options context no_cache) s).1
            ).commands
  unfolding run_build run IsLocalCmd
  run_build-local tag dockerfile options context no_cache s h =
      (inr (dockerfile, options, context, no_cache, refl), h)

  pub on_answer-keeps {κ μ} :
      {A : Type κ} (P : Session World → Type μ) (r : Outcome A × Session World)
      (act : A → Session World → Outcome (Unit {0}) × Session World)
      → P r.1
      → ((a : A) (t : Session World) → P t → P (act a t).1)
      → P (on_answer docker r act).1
  unfolding on_answer
  on_answer-keeps P (ok a, s) act h next = next a s h
  on_answer-keeps P (raised e, s) act h next = h
  on_answer-keeps P (exited n, s) act h next = h

  build_image-local :
      (tag dockerfile : Text) (args : List Text) (context : Text) (no_cache : Bool)
      (s : Session World)
      → All (IsLocalCmd tag) s.commands
      → All
          (IsLocalCmd tag)
          ((build_image docker tag dockerfile args context no_cache s).1).commands
  unfolding build_image
  build_image-local tag dockerfile args context no_cache s h =
      on_answer-keeps (λ t. All (IsLocalCmd tag) t.commands) (build_arg_options args, s)
        (λ options t. run_build docker (docker_build_cmd tag dockerfile options context no_cache) t)
        h (λ options t k. run_build-local tag dockerfile options context no_cache t k)

  after_local-local :
      (tag dockerfile : Text) (args : List Text) (context : Text) (local_mode no_cache : Bool)
      (repo : Text) (found : Bool) (s : Session World)
      → (is_empty repo || local_mode) ≡ true
      → All (IsLocalCmd tag) s.commands
      → All
          (IsLocalCmd tag)
          ((after_local docker tag dockerfile args context local_mode no_cache repo found s).1
            ).commands
  unfolding after_local build_it
  after_local-local tag dockerfile args context local_mode no_cache repo true s only h = h
  after_local-local tag dockerfile args context local_mode no_cache repo false s only h =
      rw (only) (build_image-local tag dockerfile args context no_cache s h)

  asked-local :
      (tag : Text) (no_cache : Bool) (s : Session World)
      → All (IsLocalCmd tag) s.commands
      → All
          (IsLocalCmd tag)
          ((asked docker tag no_cache (λ t u. check_if_image_exists_locally docker t u) s).1
            ).commands
  unfolding asked check_if_image_exists_locally run IsLocalCmd
  asked-local tag true s h = h
  asked-local tag false s h = (inl refl, h)

  -- Without a repository or in local mode, if the session has only run local checks and builds of
  -- the tag before, it has only run such commands afterwards: nothing is asked of, pulled from or
  -- pushed to a registry.
  pub manage_docker_image-local :
      (tag dockerfile : Text) (args : List Text) (context : Text) (local_mode no_cache : Bool)
      (repo : Text) (s : Session World)
      → (is_empty repo || local_mode) ≡ true
      → All (IsLocalCmd tag) s.commands
      → All
          (IsLocalCmd tag)
          ((manage_docker_image docker tag dockerfile args context local_mode no_cache repo s).1
            ).commands
  unfolding manage_docker_image
  manage_docker_image-local tag dockerfile args context local_mode no_cache repo s only h =
      on_answer-keeps (λ t. All (IsLocalCmd tag) t.commands)
        (asked docker tag no_cache (λ t u. check_if_image_exists_locally docker t u) s)
        (λ found. after_local docker tag dockerfile args context local_mode no_cache repo found)
        (asked-local tag no_cache s h)
        (λ found t k.
          after_local-local tag dockerfile args context local_mode no_cache repo found t only k)
