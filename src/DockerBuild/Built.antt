-- ===== src/DockerBuild/Built.antt =====
-- What holds where the loop of `build_images` in docker/build.py ends normally.
use public_endorsement_servi.Base.{
  ℕ, ◌≡◌, refl, sym, ap, subst, ◌∙◌, inl, inr, Bool, true, false, Option, List, [], ◌∷◌, All,
  Bool-cases, Text, Dict, Outcome, ok, raised, exited, Completed, >>=-eq-ok, ok-injective, lookup,
}
use public_endorsement_servi.Base.Integers.{pos}
use public_endorsement_servi.Base.Paths.{FilePath, path_text}
use public_endorsement_servi.DockerBuild.Builder.{DockerBuilder}
use public_endorsement_servi.DockerBuild.Tags.{Outside, find_dockerfile, calculate_tag_for_image}
use public_endorsement_servi.DockerBuild.Images.{Session}
use public_endorsement_servi.DockerBuild.Build.{
  BuildEnd, config_or_key_error, dockerfile_or_exit, dependency_args, Plan, dirname, is_printed,
  with_value, and_then, plan_image, manage_planned, build_each,
}
use public_endorsement_servi.DockerBuild.Memo.{IsRight}
use public_endorsement_servi.DockerBuild.Sound.{IsTagOf, calculate_tag_for_image-IsRight}
use public_endorsement_servi.DockerBuild.Provided.{IsProvided, manage_docker_image-IsProvided}
use public_endorsement_servi.DockerBuild.Kept.{manage_docker_image-keeps}

module _ {ℓ} {World : Type ℓ} where
  abbrev pub outcome_of : BuildEnd World → Outcome (Unit {0})
  outcome_of r = r.outcome

  pub with_value-ok {κ} :
      {A : Type κ} (r : Outcome A) (s : Session World) (next : A → BuildEnd World)
      → (with_value r s next).outcome ≡ ok tt
      → (a : A) × (r ≡ ok a) × (with_value r s next ≡ next a)
  unfolding with_value
  with_value-ok (ok a) s next e = (a, refl, refl)
  with_value-ok (raised x) s next e = cc
  with_value-ok (exited n) s next e = cc

  pub and_then-ok :
      (r : Outcome (Unit {0}) × Session World) (next : Session World → BuildEnd World)
      → (and_then r next).outcome ≡ ok tt
      → (r.0 ≡ ok tt) × (and_then r next ≡ next r.1)
  unfolding and_then
  and_then-ok (ok tt, s) next e = (refl, refl)
  and_then-ok (raised x, s) next e = cc
  and_then-ok (exited n, s) next e = cc

module _ (out : Outside) (search_paths : List FilePath) (builder : DockerBuilder) (depth : ℕ) where
  pub plan_image-tag :
      (local_flag : Bool) (image_name : Text) (tags : Dict Text) (plan : Plan)
      → plan_image out search_paths builder depth local_flag image_name tags ≡ ok plan
      → calculate_tag_for_image out search_paths builder depth image_name tags
        ≡ ok (plan.tag, plan.generated_tags)
  unfolding plan_image
  plan_image-tag local_flag image_name tags plan e =
      let (r, e1, e2) =
        >>=-eq-ok (calculate_tag_for_image out search_paths builder depth image_name tags) _ e in
      let (conf, e3, e4) =
        >>=-eq-ok (config_or_key_error (lookup image_name builder.image_configs_map)) _ e2 in
      let (path, e5, e6) =
        >>=-eq-ok (dockerfile_or_exit (find_dockerfile out.exists search_paths image_name)) _ e4 in
      let (dep_args, e7, e8) = >>=-eq-ok (dependency_args r.1 conf.deps) _ e6 in
      e1 ∙ ap (λ (p : Plan). ok (p.tag, p.generated_tags)) (ok-injective _ plan e8)

  module _ {ℓ} {World : Type ℓ} (docker : List Text → World → Completed × World) where
    -- Each of the images has a tag that is right for it and is provided in the session.
    unfoldable pub AreBuilt : List Text → Session World → Type ℓ
    AreBuilt images s =
        All
          (λ name.
            (tag : Text) × IsTagOf out search_paths builder name tag × IsProvided docker tag s)
          images

    pub manage_planned-IsProvided :
        (no_cache : Bool) (plan : Plan) (s : Session World)
        → (manage_planned out search_paths builder depth docker no_cache plan s).0 ≡ ok tt
        → IsProvided docker plan.tag
            (manage_planned out search_paths builder depth docker no_cache plan s).1
    unfolding manage_planned
    manage_planned-IsProvided no_cache plan s e =
        manage_docker_image-IsProvided docker plan.tag (path_text plan.dockerfile_path)
          plan.build_args (path_text (dirname plan.dockerfile_path)) plan.local_mode no_cache
          builder.settings.repo s e

    manage_planned-keeps :
        (tag : Text) (no_cache : Bool) (plan : Plan) (s : Session World)
        → IsProvided docker tag s
        → IsProvided docker tag
            (manage_planned out search_paths builder depth docker no_cache plan s).1
    unfolding manage_planned IsProvided
    manage_planned-keeps tag no_cache plan s (cmd, w, kind, good, place) = (
      cmd,
      w,
      kind,
      good,
      manage_docker_image-keeps docker cmd plan.tag (path_text plan.dockerfile_path) plan.build_args
          (path_text (dirname plan.dockerfile_path)) plan.local_mode no_cache builder.settings.repo
          s place,
    )

    -- What follows an image that is managed.
    after_image :
        (local_flag no_cache : Bool) (to_print : Option Text) (image_name : Text)
        (images : List Text) (plan : Plan) (t : Session World)
        → (elim (is_printed to_print image_name) as (λ b. BuildEnd World) [
          | true ↦ record { outcome = exited (pos 0); printed = plan.tag ∷ []; session = t }
          | false ↦
              build_each out search_paths builder depth docker local_flag no_cache to_print images
                plan.generated_tags t
        ]).outcome
          ≡ ok tt
        → (elim (is_printed to_print image_name) as (λ b. BuildEnd World) [
          | true ↦ record { outcome = exited (pos 0); printed = plan.tag ∷ []; session = t }
          | false ↦
              build_each out search_paths builder depth docker local_flag no_cache to_print images
                plan.generated_tags t
        ])
          ≡ build_each out search_paths builder depth docker local_flag no_cache to_print images
              plan.generated_tags t
    after_image local_flag no_cache to_print image_name images plan t e =
        elim (Bool-cases (is_printed to_print image_name)) [
          | inl y ↦ let bad : exited (pos 0) ≡ ok tt = rw y at e in cc
          | inr n ↦ rw n refl
        ]

    -- One round that does not end the loop.
    build_each-round :
        (local_flag no_cache : Bool) (to_print : Option Text) (image_name : Text)
        (images : List Text) (tags : Dict Text) (s : Session World)
        → (build_each out search_paths builder depth docker local_flag no_cache to_print
            (image_name ∷ images)
            tags
            s).outcome
          ≡ ok tt
        → (plan : Plan) × (plan_image out search_paths builder depth local_flag image_name tags
            ≡ ok plan)
          × ((manage_planned out search_paths builder depth docker no_cache plan s).0 ≡ ok tt)
          × (build_each out search_paths builder depth docker local_flag no_cache to_print
                (image_name ∷ images)
                tags
                s
              ≡ build_each out search_paths builder depth docker local_flag no_cache to_print images
                  plan.generated_tags
                  (manage_planned out search_paths builder depth docker no_cache plan s).1)
    unfolding build_each
    build_each-round local_flag no_cache to_print image_name images tags s e =
        let (plan, planned, e1) =
          with_value-ok (plan_image out search_paths builder depth local_flag image_name tags) s _
            e in
        let managed = manage_planned out search_paths builder depth docker no_cache plan s in
        let (went, e2) = and_then-ok managed _ (ap outcome_of (sym e1) ∙ e) in
        (
          plan,
          planned,
          went,
          e1
              ∙ e2
              ∙ after_image local_flag no_cache to_print image_name images plan managed.1
                  (ap outcome_of (sym e2) ∙ ap outcome_of (sym e1) ∙ e),
        )

    build_each-keeps :
        (local_flag no_cache : Bool) (to_print : Option Text) (tag : Text) (images : List Text)
        (tags : Dict Text) (s : Session World)
        → IsProvided docker tag s
        → (build_each out search_paths builder depth docker local_flag no_cache to_print images tags
            s).outcome
          ≡ ok tt
        → IsProvided docker tag
            (build_each out search_paths builder depth docker local_flag no_cache to_print images
              tags s).session
    unfolding build_each
    build_each-keeps local_flag no_cache to_print tag [] tags s h e = h
    build_each-keeps local_flag no_cache to_print tag (image_name ∷ images) tags s h e =
        let (plan, planned, went, same) =
          build_each-round local_flag no_cache to_print image_name images tags s e in
        subst (λ (r : BuildEnd World). IsProvided docker tag r.session) (sym same)
          (build_each-keeps local_flag no_cache to_print tag images plan.generated_tags
            (manage_planned out search_paths builder depth docker no_cache plan s).1
            (manage_planned-keeps tag no_cache plan s h) (ap outcome_of (sym same) ∙ e))

    -- Where the loop of `build_images` ends normally and has started with right tags, each of the
    -- images was provided, under a tag that is right for it.
    pub build_each-AreBuilt :
        (local_flag no_cache : Bool) (to_print : Option Text) (images : List Text)
        (tags : Dict Text) (s : Session World)
        → IsRight out search_paths builder tags
        → (build_each out search_paths builder depth docker local_flag no_cache to_print images tags
            s).outcome
          ≡ ok tt
        → AreBuilt images
            (build_each out search_paths builder depth docker local_flag no_cache to_print images
              tags s).session
    unfolding build_each AreBuilt
    build_each-AreBuilt local_flag no_cache to_print [] tags s right e = tt
    build_each-AreBuilt local_flag no_cache to_print (image_name ∷ images) tags s right e =
        let (plan, planned, went, same) =
          build_each-round local_flag no_cache to_print image_name images tags s e in
        let t = (manage_planned out search_paths builder depth docker no_cache plan s).1 in
        let rest = ap outcome_of (sym same) ∙ e in
        let (right', tagged) =
          calculate_tag_for_image-IsRight out search_paths builder depth image_name tags
            (plan.tag, plan.generated_tags) right
            (plan_image-tag local_flag image_name tags plan planned) in
        subst (λ (r : BuildEnd World). AreBuilt (image_name ∷ images) r.session) (sym same)
          (
            (
              plan.tag,
              tagged,
              build_each-keeps local_flag no_cache to_print plan.tag images plan.generated_tags t
                  (manage_planned-IsProvided no_cache plan s went) rest,
            ),
            build_each-AreBuilt local_flag no_cache to_print images plan.generated_tags t right'
                rest,
          )
