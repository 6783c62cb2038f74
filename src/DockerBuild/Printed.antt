-- ===== src/DockerBuild/Printed.antt =====
-- What `main` of docker/build.py prints.
use public_endorsement_servi.Base.{
  ℕ, ◌≡◌, refl, sym, ap, ◌∙◌, ◌⊎◌, inl, inr, Bool, true, false, Option, none, some, List, [], ◌∷◌,
  Bool-cases, some-injective, Text, text_eq_iff, Dict, keys, Outcome, ok, raised, exited, Completed,
  ok-injective,
}
use public_endorsement_servi.Base.Integers.{pos}
use public_endorsement_servi.Base.Paths.{FilePath}
use public_endorsement_servi.DockerBuild.Builder.{DockerBuilder}
use public_endorsement_servi.DockerBuild.Tags.{Outside, get_build_order}
use public_endorsement_servi.DockerBuild.Images.{
  Session, check_docker_installed, check_docker_buildx_installed,
}
use public_endorsement_servi.DockerBuild.Build.{
  Args, BuildEnd, is_printed, target_for_print, with_value, and_then, plan_image, manage_planned,
  build_each, build_images, valid_targets, build_valid, main,
}
use public_endorsement_servi.DockerBuild.Memo.{IsRight}
use public_endorsement_servi.DockerBuild.Sound.{IsTagOf, calculate_tag_for_image-IsRight}
use public_endorsement_servi.DockerBuild.Provided.{IsProvided}
use public_endorsement_servi.DockerBuild.AllBuilt.{nothing-IsRight}
use public_endorsement_servi.DockerBuild.Built.{plan_image-tag, manage_planned-IsProvided}

module _ {ℓ} {World : Type ℓ} (P : BuildEnd World → Type ℓ)
    (quiet : (r : BuildEnd World) → r.printed ≡ [] → P r) where
  with_value-keeps {κ} :
      {A : Type κ} (r : Outcome A) (s : Session World) (next : A → BuildEnd World)
      → ((a : A) → r ≡ ok a → P (next a))
      → P (with_value r s next)
  unfolding with_value
  with_value-keeps (ok a) s next h = h a refl
  with_value-keeps (raised e) s next h = quiet _ refl
  with_value-keeps (exited n) s next h = quiet _ refl

  and_then-keeps :
      (r : Outcome (Unit {0}) × Session World) (next : Session World → BuildEnd World)
      → (r.0 ≡ ok tt → P (next r.1))
      → P (and_then r next)
  unfolding and_then
  and_then-keeps (ok tt, s) next h = h refl
  and_then-keeps (raised e, s) next h = quiet _ refl
  and_then-keeps (exited n, s) next h = quiet _ refl

module _ {ℓ} (out : Outside) (search_paths : List FilePath) (builder : DockerBuilder) (depth : ℕ)
    {World : Type ℓ} (docker : List Text → World → Completed × World) where
  -- Nothing is printed; or the image to print has a right tag, which was provided, the tag is all
  -- that is printed, and the process ends with status 0.
  unfoldable pub PrintsTag : Option Text → BuildEnd World → Type ℓ
  PrintsTag to_print r =
      (r.printed ≡ [])
      ⊎ ((name tag : Text) × (to_print ≡ some name)
          × IsTagOf out search_paths builder name tag
          × (r.printed ≡ tag ∷ [])
          × (r.outcome ≡ exited (pos 0))
          × IsProvided docker tag r.session)

  is_printed-some :
      (to_print : Option Text) (name : Text)
      → is_printed to_print name ≡ true
      → to_print ≡ some name
  unfolding is_printed
  is_printed-some none name h = cc
  is_printed-some (some t) name h = ap some (sym ((text_eq_iff name t).0 h))

  build_each-PrintsTag :
      (local_flag no_cache : Bool) (to_print : Option Text) (images : List Text) (tags : Dict Text)
      (s : Session World)
      → IsRight out search_paths builder tags
      → PrintsTag to_print (
          build_each out search_paths builder depth docker local_flag no_cache to_print images tags
            s)
  unfolding build_each PrintsTag
  build_each-PrintsTag local_flag no_cache to_print [] tags s right = inl refl
  build_each-PrintsTag local_flag no_cache to_print (image_name ∷ images) tags s right =
      with_value-keeps (PrintsTag to_print) (λ r e. inl e)
        (plan_image out search_paths builder depth local_flag image_name tags) s _
        (λ plan planned.
          let managed = manage_planned out search_paths builder depth docker no_cache plan s in
          let (right', tagged) =
            calculate_tag_for_image-IsRight out search_paths builder depth image_name tags
              (plan.tag, plan.generated_tags) right
              (plan_image-tag out search_paths builder depth local_flag image_name tags plan
                planned) in
          and_then-keeps (PrintsTag to_print) (λ r e. inl e) managed _
            (λ went. elim (Bool-cases (is_printed to_print image_name)) [
              | inl y ↦ rw y (
                  inr (
                    image_name,
                    plan.tag,
                    is_printed-some to_print image_name y,
                    tagged,
                    refl,
                    refl,
                    manage_planned-IsProvided out search_paths builder depth docker no_cache plan s
                        went,
                  ))
              | inr n ↦ rw n (
                  build_each-PrintsTag local_flag no_cache to_print images plan.generated_tags
                    managed.1 right')
            ]))

-- With valid targets there is one to print only where it is the only target of `--print-tag`.
target_for_print-only :
    (names : List Text) (print_tag : Bool) (targets : List Text) (name : Text)
    → valid_targets names print_tag targets ≡ true
    → target_for_print print_tag targets ≡ ok (some name)
    → (print_tag ≡ true) × (targets ≡ name ∷ [])
unfolding valid_targets target_for_print
target_for_print-only names false targets name v e =
    let bad : none ≡ some name = ok-injective _ _ e in cc
target_for_print-only names true [] name v e = cc
target_for_print-only names true (t ∷ []) name v e =
    (refl, ap (λ n. n ∷ []) (some-injective _ _ (ok-injective _ _ e)))
target_for_print-only names true (t ∷ u ∷ targets) name v e = cc

module _ {ℓ} {World : Type ℓ} (out : Outside) (search_paths : List FilePath) (depth : ℕ)
    (docker : List Text → World → Completed × World) (args : Args) where
  -- Nothing is printed; or one image is asked for with `--print-tag`, its tag, which is right and was
  -- provided, is all that is printed, and the process ends with status 0.
  unfoldable pub PrintsOneTag : Outcome DockerBuilder → BuildEnd World → Type ℓ
  PrintsOneTag loaded r =
      (r.printed ≡ [])
      ⊎ ((builder : DockerBuilder) × (name tag : Text) × (loaded ≡ ok builder)
          × (args.print_tag ≡ true)
          × (args.target_images ≡ name ∷ [])
          × IsTagOf out search_paths builder name tag
          × (r.printed ≡ tag ∷ [])
          × (r.outcome ≡ exited (pos 0))
          × IsProvided docker tag r.session)

  one_tag :
      (builder : DockerBuilder) (to_print : Option Text) (r : BuildEnd World)
      → valid_targets (keys builder.image_configs_map) args.print_tag args.target_images ≡ true
      → target_for_print args.print_tag args.target_images ≡ ok to_print
      → PrintsTag out search_paths builder depth docker to_print r
      → PrintsOneTag (ok builder) r
  unfolding PrintsTag PrintsOneTag
  one_tag builder to_print r valid asked (inl e) = inl e
  one_tag builder to_print r valid asked (inr (name, tag, same, right, printed, end, provided)) =
      let (flag, only) =
        target_for_print-only (keys builder.image_configs_map) args.print_tag args.target_images
          name valid (asked ∙ ap ok same) in
      inr (builder, name, tag, refl, flag, only, right, printed, end, provided)

  build_images-PrintsOneTag :
      (builder : DockerBuilder) (s : Session World)
      → valid_targets (keys builder.image_configs_map) args.print_tag args.target_images ≡ true
      → PrintsOneTag (ok builder) (build_images out search_paths builder depth docker args s)
  unfolding build_images PrintsOneTag
  build_images-PrintsOneTag builder s valid =
      with_value-keeps (PrintsOneTag (ok builder)) (λ r e. inl e)
        (get_build_order builder.image_configs_map args.target_images) s _
        (λ images ordered.
          with_value-keeps (PrintsOneTag (ok builder)) (λ r e. inl e)
            (target_for_print args.print_tag args.target_images) s _
            (λ to_print asked. one_tag builder to_print _ valid asked (
              build_each-PrintsTag out search_paths builder depth docker args.local args.no_cache
                to_print images [] s (nothing-IsRight out search_paths builder depth docker))))

  -- `main` prints nothing, or it is asked for one image with `--print-tag` and prints exactly one
  -- tag: the one that a calculation which remembers nothing gives for that image, at some depth,
  -- after the image was provided; the process then ends with status 0.
  pub main-PrintsOneTag :
      (loaded : Outcome DockerBuilder) (s : Session World)
      → PrintsOneTag loaded (main out search_paths depth docker args loaded s)
  unfolding main build_valid PrintsOneTag
  main-PrintsOneTag loaded s =
      and_then-keeps (PrintsOneTag loaded) (λ r e. inl e) (check_docker_installed docker s) _
        (λ a.
          and_then-keeps (PrintsOneTag loaded) (λ r e. inl e)
            (check_docker_buildx_installed docker (check_docker_installed docker s).1) _
            (λ b.
              with_value-keeps (PrintsOneTag loaded) (λ r e. inl e) loaded _ _
                (λ builder there.
                  elim (Bool-cases (
                    valid_targets (keys builder.image_configs_map) args.print_tag
                      args.target_images)) [
                        | inl y ↦ rw (there, y) (build_images-PrintsOneTag builder _ y)
                        | inr n ↦ rw n (inl refl)
                      ])))
