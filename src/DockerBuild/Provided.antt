-- ===== src/DockerBuild/Provided.antt =====
-- What it takes for `manage_docker_image` of docker/build.py to return.
use public_endorsement_servi.Base.{
  ◌≡◌, refl, ap, ◌∙◌, ◌⊎◌, inl, inr, Bool, true, false, ◌||◌, List, arith, Bool-cases, In, Text,
  Outcome, ok, raised, exited, value_error, json_decode_error, invalid_literal, type_error,
  key_error, file_not_found, index_error, recursion_error, os_error, other_error,
  called_process_error, Completed, ended, not_found,
}
use public_endorsement_servi.DockerBuild.Images.{
  Session, is_empty, inspect_cmd, pull_cmd, build_arg_options, docker_build_cmd, guarded,
  checked_end, succeeded, run, check_if_image_exists_locally,
  check_if_image_exists_in_remote_registry, pull_image_from_registry, push_image_to_registry,
  run_build, build_image, on_answer, followed_by, asked, build_it, after_remote, after_local,
  manage_docker_image,
}
use public_endorsement_servi.DockerBuild.ImageRuns.{IsLocalCmd}

module _ {ℓ} {World : Type ℓ} (docker : List Text → World → Completed × World) where
  -- What tells that the image is there: a check, a pull or a build of it that ended well.
  unfoldable pub IsProvided : Text → Session World → Type ℓ
  unfolding succeeded
  IsProvided tag s =
      (cmd : List Text) × (w : World) × ((cmd ≡ pull_cmd tag) ⊎ IsLocalCmd tag cmd)
      × (succeeded (docker cmd w).0 ≡ ok true)
      × In cmd s.commands

  checked_end-ok : (c : Completed) → checked_end c ≡ ok tt → succeeded c ≡ ok true
  unfolding checked_end succeeded
  checked_end-ok not_found h = cc
  checked_end-ok (ended n out err) h = ground arith

  -- A step after which the image is provided, if it comes to `ok`.
  Provides : Text → Outcome (Unit {0}) × Session World → Type ℓ
  Provides tag r = r.0 ≡ ok tt → IsProvided tag r.1

  on_answer-Provides {κ} :
      {A : Type κ} (tag : Text) (r : Outcome A × Session World)
      (act : A → Session World → Outcome (Unit {0}) × Session World)
      → ((a : A) → r.0 ≡ ok a → Provides tag (act a r.1))
      → Provides tag (on_answer docker r act)
  unfolding on_answer Provides
  on_answer-Provides tag (ok a, s) act next = next a refl
  on_answer-Provides tag (raised e, s) act next = λ h. cc
  on_answer-Provides tag (exited n, s) act next = λ h. cc

  run_build-Provides :
      (tag dockerfile : Text) (options : List Text) (context : Text) (no_cache : Bool)
      (s : Session World)
      → Provides tag (run_build docker (docker_build_cmd tag dockerfile options context no_cache) s)
  unfolding run_build run Provides IsProvided IsLocalCmd
  run_build-Provides tag dockerfile options context no_cache s =
      let cmd = docker_build_cmd tag dockerfile options context no_cache in
      λ h. (
        cmd,
        s.world,
        inr (inr (dockerfile, options, context, no_cache, refl)),
        checked_end-ok (docker cmd s.world).0 h,
        inl refl,
      )

  build_image-Provides :
      (tag dockerfile : Text) (args : List Text) (context : Text) (no_cache : Bool)
      (s : Session World)
      → Provides tag (build_image docker tag dockerfile args context no_cache s)
  unfolding build_image
  build_image-Provides tag dockerfile args context no_cache s =
      on_answer-Provides tag (build_arg_options args, s)
        (λ options t. run_build docker (docker_build_cmd tag dockerfile options context no_cache) t)
        (λ options e. run_build-Provides tag dockerfile options context no_cache s)

  pull-Provides :
      (tag : Text) (s : Session World) → Provides tag (pull_image_from_registry docker tag s)
  unfolding pull_image_from_registry run Provides IsProvided
  pull-Provides tag s = λ h. (
    pull_cmd tag,
    s.world,
    inl refl,
    checked_end-ok (docker (pull_cmd tag) s.world).0 h,
    inl refl,
  )

  push-keeps :
      (tag : Text) (s : Session World)
      → IsProvided tag s
      → IsProvided tag (push_image_to_registry docker tag s).1
  unfolding push_image_to_registry run IsProvided
  push-keeps tag s (cmd, w, kind, good, place) = (cmd, w, kind, good, inr place)

  followed_by-Provides :
      (tag : Text) (r : Outcome (Unit {0}) × Session World)
      → Provides tag r
      → Provides tag (followed_by docker r (λ t. push_image_to_registry docker tag t))
  unfolding followed_by Provides
  followed_by-Provides tag (ok tt, s) h = λ k. push-keeps tag s (h refl)
  followed_by-Provides tag (raised e, s) h = λ k. cc
  followed_by-Provides tag (exited n, s) h = λ k. cc

  after_remote-Provides :
      (tag dockerfile : Text) (args : List Text) (context : Text) (no_cache found : Bool)
      (s : Session World)
      → Provides tag (after_remote docker tag dockerfile args context no_cache found s)
  unfolding after_remote build_it
  after_remote-Provides tag dockerfile args context no_cache true s = pull-Provides tag s
  after_remote-Provides tag dockerfile args context no_cache false s =
      followed_by-Provides tag (build_image docker tag dockerfile args context no_cache s)
        (build_image-Provides tag dockerfile args context no_cache s)

  after_local-Provides :
      (tag dockerfile : Text) (args : List Text) (context : Text) (local_mode no_cache : Bool)
      (repo : Text) (found : Bool) (s : Session World)
      → (found ≡ true → IsProvided tag s)
      → Provides tag
          (after_local docker tag dockerfile args context local_mode no_cache repo found s)
  unfolding after_local build_it Provides
  after_local-Provides tag dockerfile args context local_mode no_cache repo true s h = λ k. h refl
  after_local-Provides tag dockerfile args context local_mode no_cache repo false s h =
      elim (Bool-cases (is_empty repo || local_mode)) [
        | inl only ↦ rw (only) (build_image-Provides tag dockerfile args context no_cache s)
        | inr remote ↦ rw (remote) (
            on_answer-Provides tag
              (asked docker tag no_cache
                (λ t u. check_if_image_exists_in_remote_registry docker t u) s)
              (λ found. after_remote docker tag dockerfile args context no_cache found)
              (λ found e.
                after_remote-Provides tag dockerfile args context no_cache found
                  (asked docker tag no_cache
                    (λ t u. check_if_image_exists_in_remote_registry docker t u) s).1))
      ]

  asked-Provides :
      (tag : Text) (no_cache : Bool) (s : Session World)
      → (asked docker tag no_cache (λ t u. check_if_image_exists_locally docker t u) s).0 ≡ ok true
      → IsProvided tag
          (asked docker tag no_cache (λ t u. check_if_image_exists_locally docker t u) s).1
  unfolding asked check_if_image_exists_locally run IsProvided IsLocalCmd
  asked-Provides tag true s h = cc
  asked-Provides tag false s h = (inspect_cmd tag, s.world, inr (inl refl), h, inl refl)

  guarded-ok : (o : Outcome (Unit {0})) → guarded o ≡ ok tt → o ≡ ok tt
  unfolding guarded
  guarded-ok (ok tt) h = refl
  guarded-ok (exited n) h = cc
  guarded-ok (raised (called_process_error n)) h = cc
  guarded-ok (raised file_not_found) h = cc
  guarded-ok (raised (value_error s)) h = cc
  guarded-ok (raised json_decode_error) h = cc
  guarded-ok (raised invalid_literal) h = cc
  guarded-ok (raised type_error) h = cc
  guarded-ok (raised key_error) h = cc
  guarded-ok (raised index_error) h = cc
  guarded-ok (raised recursion_error) h = cc
  guarded-ok (raised os_error) h = cc
  guarded-ok (raised other_error) h = cc

  -- Where the call returns, a local check, a pull or a build of the tag has been run and has
  -- succeeded.
  pub manage_docker_image-IsProvided :
      (tag dockerfile : Text) (args : List Text) (context : Text) (local_mode no_cache : Bool)
      (repo : Text) (s : Session World)
      → (manage_docker_image docker tag dockerfile args context local_mode no_cache repo s).0
        ≡ ok tt
      → IsProvided tag
          (manage_docker_image docker tag dockerfile args context local_mode no_cache repo s).1
  unfolding manage_docker_image Provides
  manage_docker_image-IsProvided tag dockerfile args context local_mode no_cache repo s h =
      on_answer-Provides tag
        (asked docker tag no_cache (λ t u. check_if_image_exists_locally docker t u) s)
        (λ found. after_local docker tag dockerfile args context local_mode no_cache repo found)
        (λ found e.
          after_local-Provides tag dockerfile args context local_mode no_cache repo found
            (asked docker tag no_cache (λ t u. check_if_image_exists_locally docker t u) s).1
            (λ y. asked-Provides tag no_cache s (e ∙ ap ok y)))
        (guarded-ok
          (on_answer docker
            (asked docker tag no_cache (λ t u. check_if_image_exists_locally docker t u) s)
            (λ found.
              after_local docker tag dockerfile args context local_mode no_cache repo found)).0
          h)
