-- ===== src/DockerBuild/Sound.antt =====
-- Every tag that `calculate_tag_for_image` of docker/build.py gives is right.
use public_endorsement_servi.Base.{
  ℕ, zero, suc, ◌+◌, ◌≡◌, refl, sym, inl, inr, List, [], ◌∷◌, arith, Option-cases, Text, Dict,
  lookup, Outcome, ok, >>=-eq-ok, ok-injective,
}
use public_endorsement_servi.Base.Paths.{FilePath}
use public_endorsement_servi.DockerBuild.Graph.{ImageConfig}
use public_endorsement_servi.DockerBuild.Builder.{DockerBuilder}
use public_endorsement_servi.DockerBuild.Tags.{
  Outside, tag_of, config_and_dockerfile, calculate_dependencies, record_tag, known_or,
  calculate_tag_for_image,
}
use public_endorsement_servi.DockerBuild.Memo.{
  reference_dependencies, reference_dependencies_mono, reference_tag, reference_tag_mono, IsRight,
  insert-IsRight,
}

module _ (out : Outside) (search_paths : List FilePath) (builder : DockerBuilder) where
  -- The tag is the reference's at some depth.
  abbrev pub IsTagOf : Text → Text → Type 0
  IsTagOf name tag = (depth : ℕ) × (reference_tag out search_paths builder depth name ≡ ok tag)

  dependencies-IsRight :
      (calculate : Text → Dict Text → Outcome (Text × Dict Text))
      → ((name : Text) (tags : Dict Text) (r : Text × Dict Text)
          → IsRight out search_paths builder tags
          → calculate name tags ≡ ok r
          → IsRight out search_paths builder r.1 × IsTagOf name r.0)
      → (deps : Dict Text) (tags : Dict Text) (r : List (Text × Text) × Dict Text)
      → IsRight out search_paths builder tags
      → calculate_dependencies out search_paths builder calculate deps tags ≡ ok r
      → IsRight out search_paths builder r.1
        × ((depth : ℕ) × (reference_dependencies out search_paths builder
                (λ name. reference_tag out search_paths builder depth name)
                deps
              ≡ ok r.0))
  unfolding calculate_dependencies reference_dependencies
  dependencies-IsRight calculate each [] tags r right e =
      let same = ok-injective _ _ e in rw (sym same) (right, (0, refl))
  dependencies-IsRight calculate each ((arg, name) ∷ deps) tags r right e =
      let (first, e1, e2) = >>=-eq-ok (calculate name tags) _ e in
      let (rest, e3, e4) =
        >>=-eq-ok (calculate_dependencies out search_paths builder calculate deps first.1) _ e2 in
      let (right1, (d, tagged)) = each name tags first right e1 in
      let (right2, (d', others)) =
        dependencies-IsRight calculate each deps first.1 rest right1 e3 in
      let more =
        reference_dependencies_mono out search_paths builder
          (λ n. reference_tag out search_paths builder d' n)
          (λ n. reference_tag out search_paths builder (d + d') n)
          (λ n t. reference_tag_mono out search_paths builder d' (d + d') n t (omega arith)) deps
          rest.0 others in
      rw (sym (ok-injective _ _ e4)) (
        right2,
        (
          d + d',
          rw
              (
                reference_tag_mono out search_paths builder d (d + d') name first.0 (omega arith)
                    tagged,
                more,
              )
              refl,
        ),
      )

  reference_tag-from :
      (d : ℕ) (name tag : Text) (found : ImageConfig × FilePath) (args : List (Text × Text))
      → config_and_dockerfile out search_paths builder name ≡ ok found
      → reference_dependencies out search_paths builder
          (λ n. reference_tag out search_paths builder d n)
          (found.0).deps
        ≡ ok args
      → tag_of out search_paths builder name found.1 args ≡ ok tag
      → reference_tag out search_paths builder (suc d) name ≡ ok tag
  unfolding reference_tag
  reference_tag-from d name tag found args e1 e2 e3 = rw (e1, e2) e3

  -- What is remembered stays right: if it is before, it is after the calculation, and the tag that
  -- is given is the one that a calculation which remembers nothing gives, at some depth.
  pub calculate_tag_for_image-IsRight :
      (depth : ℕ) (image_name : Text) (tags : Dict Text) (r : Text × Dict Text)
      → IsRight out search_paths builder tags
      → calculate_tag_for_image out search_paths builder depth image_name tags ≡ ok r
      → IsRight out search_paths builder r.1
        × ((d : ℕ) × (reference_tag out search_paths builder d image_name ≡ ok r.0))
  unfolding calculate_tag_for_image known_or record_tag IsRight
  calculate_tag_for_image-IsRight zero image_name tags r right e = cc
  calculate_tag_for_image-IsRight (suc depth) image_name tags r right e =
      elim (Option-cases (lookup image_name tags)) [
        | inr (known, found) ↦
            let same = ok-injective _ _ (rw (found, known_or) at e) in
            rw (sym same) (right, right image_name known found)
        | inl fresh ↦
            let e0 = rw (fresh, known_or) at e in
            let (found, e1, e2) =
              >>=-eq-ok (config_and_dockerfile out search_paths builder image_name) _ e0 in
            let (deps, e3, e4) =
              >>=-eq-ok
                (calculate_dependencies out search_paths builder
                  (λ name known. calculate_tag_for_image out search_paths builder depth name known)
                  (found.0).deps tags)
                _ e2 in
            let (tag, e5, e6) =
              >>=-eq-ok (tag_of out search_paths builder image_name found.1 deps.0) _ e4 in
            let (right1, (d, args)) =
              dependencies-IsRight
                (λ name known. calculate_tag_for_image out search_paths builder depth name known)
                (λ name known s. calculate_tag_for_image-IsRight depth name known s) (found.0).deps
                tags deps right e3 in
            let tagged : reference_tag out search_paths builder (suc d) image_name ≡ ok tag =
              reference_tag-from d image_name tag found deps.0 e1 args e5 in
            rw (sym (ok-injective _ _ e6)) (
              insert-IsRight out search_paths builder deps.1 image_name tag (suc d) right1 tagged,
              (suc d, tagged),
            )
      ]
