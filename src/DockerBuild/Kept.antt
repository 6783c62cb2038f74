-- ===== src/DockerBuild/Kept.antt =====
-- The commands of a session of docker/build.py are only added to.
use public_endorsement_servi.Base.{
  inr, Bool, true, false, ◌||◌, List, In, Bool-cases, inl, Text, Outcome, ok, raised, exited,
  Completed,
}
use public_endorsement_servi.DockerBuild.Images.{
  Session, is_empty, build_arg_options, docker_build_cmd, run, check_if_image_exists_locally,
  check_if_image_exists_in_remote_registry, pull_image_from_registry, push_image_to_registry,
  run_build, build_image, followed_by, asked, build_it, after_remote, after_local,
  manage_docker_image,
}
use public_endorsement_servi.DockerBuild.ImageRuns.{on_answer-keeps}

module _ {ℓ} {World : Type ℓ} (docker : List Text → World → Completed × World)
    (cmd : List Text) where
  Ran : Session World → Type 0
  Ran s = In cmd s.commands

  build_image-Ran :
      (tag dockerfile : Text) (args : List Text) (context : Text) (no_cache : Bool)
      (s : Session World)
      → Ran s
      → Ran (build_image docker tag dockerfile args context no_cache s).1
  unfolding build_image run_build run Ran
  build_image-Ran tag dockerfile args context no_cache s h =
      on_answer-keeps docker (λ t. In cmd t.commands) (build_arg_options args, s)
        (λ options t. run_build docker (docker_build_cmd tag dockerfile options context no_cache) t)
        h (λ options t k. inr k)

  followed_by-Ran :
      (r : Outcome (Unit {0}) × Session World)
      (act : Session World → Outcome (Unit {0}) × Session World)
      → Ran r.1
      → ((t : Session World) → Ran t → Ran (act t).1)
      → Ran (followed_by docker r act).1
  unfolding followed_by
  followed_by-Ran (ok _, s) act h next = next s h
  followed_by-Ran (raised e, s) act h next = h
  followed_by-Ran (exited n, s) act h next = h

  after_remote-Ran :
      (tag dockerfile : Text) (args : List Text) (context : Text) (no_cache found : Bool)
      (s : Session World)
      → Ran s
      → Ran (after_remote docker tag dockerfile args context no_cache found s).1
  unfolding after_remote build_it pull_image_from_registry push_image_to_registry run Ran
  after_remote-Ran tag dockerfile args context no_cache true s h = inr h
  after_remote-Ran tag dockerfile args context no_cache false s h =
      followed_by-Ran (build_image docker tag dockerfile args context no_cache s) _
        (build_image-Ran tag dockerfile args context no_cache s h) (λ t k. inr k)

  asked-Ran :
      (tag : Text) (no_cache : Bool) (check : Text → Session World → Outcome Bool × Session World)
      (s : Session World)
      → ((t : Text) (u : Session World) → Ran u → Ran (check t u).1)
      → Ran s
      → Ran (asked docker tag no_cache check s).1
  unfolding asked
  asked-Ran tag true check s keeps h = h
  asked-Ran tag false check s keeps h = keeps tag s h

  after_local-Ran :
      (tag dockerfile : Text) (args : List Text) (context : Text) (local_mode no_cache : Bool)
      (repo : Text) (found : Bool) (s : Session World)
      → Ran s
      → Ran (after_local docker tag dockerfile args context local_mode no_cache repo found s).1
  unfolding after_local build_it check_if_image_exists_in_remote_registry run Ran
  after_local-Ran tag dockerfile args context local_mode no_cache repo true s h = h
  after_local-Ran tag dockerfile args context local_mode no_cache repo false s h =
      elim (Bool-cases (is_empty repo || local_mode)) [
        | inl only ↦ rw only (build_image-Ran tag dockerfile args context no_cache s h)
        | inr remote ↦ rw remote (
            on_answer-keeps docker (λ t. In cmd t.commands)
              (asked docker tag no_cache
                (λ t u. check_if_image_exists_in_remote_registry docker t u) s)
              (λ found. after_remote docker tag dockerfile args context no_cache found)
              (asked-Ran tag no_cache (λ t u. check_if_image_exists_in_remote_registry docker t u) s
                (λ t u k. inr k) h)
              (λ found t k. after_remote-Ran tag dockerfile args context no_cache found t k))
      ]

  pub manage_docker_image-keeps :
      (tag dockerfile : Text) (args : List Text) (context : Text) (local_mode no_cache : Bool)
      (repo : Text) (s : Session World)
      → In cmd s.commands
      → In cmd
          ((manage_docker_image docker tag dockerfile args context local_mode no_cache repo s).1
            ).commands
  unfolding manage_docker_image check_if_image_exists_locally run Ran
  manage_docker_image-keeps tag dockerfile args context local_mode no_cache repo s h =
      on_answer-keeps docker (λ t. In cmd t.commands)
        (asked docker tag no_cache (λ t u. check_if_image_exists_locally docker t u) s)
        (λ found. after_local docker tag dockerfile args context local_mode no_cache repo found)
        (asked-Ran tag no_cache (λ t u. check_if_image_exists_locally docker t u) s (λ t u k. inr k)
          h)
        (λ found t k.
          after_local-Ran tag dockerfile args context local_mode no_cache repo found t k)
