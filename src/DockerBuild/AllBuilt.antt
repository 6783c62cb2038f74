-- ===== src/DockerBuild/AllBuilt.antt =====
-- What holds where `main` of docker/build.py ends normally.
use public_endorsement_servi.Base.{
  ℕ, ◌≡◌, sym, ap, subst, ◌∙◌, inl, inr, true, List, [], Bool-cases, Text, keys, Outcome, ok,
  exited, Completed, lookup,
}
use public_endorsement_servi.Base.Integers.{pos}
use public_endorsement_servi.Base.Paths.{FilePath}
use public_endorsement_servi.DockerBuild.Builder.{DockerBuilder}
use public_endorsement_servi.DockerBuild.Tags.{Outside, get_build_order}
use public_endorsement_servi.DockerBuild.Images.{
  Session, check_docker_installed, check_docker_buildx_installed,
}
use public_endorsement_servi.DockerBuild.Build.{
  Args, BuildEnd, target_for_print, build_images, valid_targets, build_valid, main,
}
use public_endorsement_servi.DockerBuild.Memo.{IsRight}
use public_endorsement_servi.DockerBuild.Built.{
  outcome_of, with_value-ok, and_then-ok, AreBuilt, build_each-AreBuilt,
}

module _ {ℓ} (out : Outside) (search_paths : List FilePath) (builder : DockerBuilder) (depth : ℕ)
    {World : Type ℓ} (docker : List Text → World → Completed × World) where
  pub nothing-IsRight : IsRight out search_paths builder []
  unfolding IsRight lookup
  nothing-IsRight name tag h = cc

  build_images-AreBuilt :
      (args : Args) (s : Session World)
      → (build_images out search_paths builder depth docker args s).outcome ≡ ok tt
      → (images : List Text) × (get_build_order builder.image_configs_map args.target_images
          ≡ ok images)
        × AreBuilt out search_paths builder depth docker images
            (build_images out search_paths builder depth docker args s).session
  unfolding build_images
  build_images-AreBuilt args s e =
      let (images, ordered, e1) =
        with_value-ok (get_build_order builder.image_configs_map args.target_images) s _ e in
      let (to_print, t, e2) =
        with_value-ok (target_for_print args.print_tag args.target_images) s _
          (ap outcome_of (sym e1) ∙ e) in
      let same = e1 ∙ e2 in
      (
        images,
        ordered,
        subst
            (λ (r : BuildEnd World).
              AreBuilt out search_paths builder depth docker images r.session)
            (sym same)
            (build_each-AreBuilt out search_paths builder depth docker args.local args.no_cache
              to_print images [] s nothing-IsRight (ap outcome_of (sym same) ∙ e)),
      )

module _ {ℓ} {World : Type ℓ} (out : Outside) (search_paths : List FilePath) (depth : ℕ)
    (docker : List Text → World → Completed × World) where
  build_valid-AreBuilt :
      (args : Args) (builder : DockerBuilder) (s : Session World)
      → (build_valid out search_paths depth docker args builder s).outcome ≡ ok tt
      → (images : List Text) × (valid_targets
            (keys builder.image_configs_map)
            args.print_tag
            args.target_images
          ≡ true)
        × (get_build_order builder.image_configs_map args.target_images ≡ ok images)
        × AreBuilt out search_paths builder depth docker images
            (build_valid out search_paths depth docker args builder s).session
  unfolding build_valid
  build_valid-AreBuilt args builder s e =
      elim (Bool-cases
        (valid_targets (keys builder.image_configs_map) args.print_tag args.target_images)) [
          | inr n ↦ let bad : exited (pos 1) ≡ ok tt = rw n at e in cc
          | inl y ↦
              let (images, ordered, built) =
                build_images-AreBuilt out search_paths builder depth docker args s (rw y at e) in
              (images, y, ordered, rw y built)
        ]

  -- Where `main` ends normally, the configuration was loaded and the targets were valid, and each
  -- image of the build order was provided: a local check, a pull or a build of its tag was run and
  -- succeeded. The tag is the one that a calculation which remembers nothing gives, at some depth.
  pub main-AreBuilt :
      (args : Args) (loaded : Outcome DockerBuilder) (s : Session World)
      → (main out search_paths depth docker args loaded s).outcome ≡ ok tt
      → (builder : DockerBuilder) × (images : List Text) × (loaded ≡ ok builder)
        × (valid_targets (keys builder.image_configs_map) args.print_tag args.target_images ≡ true)
        × (get_build_order builder.image_configs_map args.target_images ≡ ok images)
        × AreBuilt out search_paths builder depth docker images
            (main out search_paths depth docker args loaded s).session
  unfolding main
  main-AreBuilt args loaded s e =
      let first = check_docker_installed docker s in
      let (a, e1) = and_then-ok first _ e in
      let second = check_docker_buildx_installed docker first.1 in
      let (b, e2) = and_then-ok second _ (ap outcome_of (sym e1) ∙ e) in
      let (builder, there, e3) =
        with_value-ok loaded second.1 _ (ap outcome_of (sym (e1 ∙ e2)) ∙ e) in
      let same = e1 ∙ e2 ∙ e3 in
      let (images, valid, ordered, built) =
        build_valid-AreBuilt args builder second.1 (ap outcome_of (sym same) ∙ e) in
      (
        builder,
        images,
        there,
        valid,
        ordered,
        subst
            (λ (r : BuildEnd World).
              AreBuilt out search_paths builder depth docker images r.session)
            (sym same) built,
      )
