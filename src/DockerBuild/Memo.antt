-- ===== src/DockerBuild/Memo.antt =====
-- The tags that `calculate_tag_for_image` of docker/build.py remembers, against a calculation that
-- remembers nothing.
use public_endorsement_servi.Base.{
  ℕ, zero, suc, ◌+◌, ◌≤◌, ◌≡◌, refl, sym, ap, ◌∙◌, subst, inl, inr, some, some-injective, List, [],
  ◌∷◌, arith, Bool-cases, Option-cases, Text, text_eq, text_eq_iff, Dict, lookup, insert,
  lookup-insert, Outcome, ok, raised, recursion_error, ◌>>=◌, >>=-eq-ok, ok-injective,
}
use public_endorsement_servi.Base.Paths.{FilePath}
use public_endorsement_servi.DockerBuild.Builder.{DockerBuilder}
use public_endorsement_servi.DockerBuild.Tags.{
  Outside, tag_of, config_and_dockerfile, calculate_dependencies, record_tag, known_or,
  calculate_tag_for_image,
}

module _ (out : Outside) (search_paths : List FilePath) (builder : DockerBuilder) where
  unfoldable pub reference_dependencies :
      (Text → Outcome Text) → Dict Text → Outcome (List (Text × Text))
  reference_dependencies reference [] = ok []
  reference_dependencies reference ((arg, name) ∷ dependencies) = reference name >>= λ tag.
      reference_dependencies reference dependencies >>= λ args. ok ((arg, tag) ∷ args)

  -- The tag of an image, each dependency calculated anew.
  unfoldable pub reference_tag : ℕ → Text → Outcome Text
  unfolding reference_dependencies config_and_dockerfile tag_of
  reference_tag zero image_name = raised recursion_error
  reference_tag (suc depth) image_name =
      config_and_dockerfile out search_paths builder image_name >>= λ found.
      reference_dependencies (λ name. reference_tag depth name) (found.0).deps >>= λ args.
      tag_of out search_paths builder image_name found.1 args

  pub reference_dependencies_mono :
      (f g : Text → Outcome Text)
      → ((name tag : Text) → f name ≡ ok tag → g name ≡ ok tag)
      → (deps : Dict Text) (args : List (Text × Text)) → reference_dependencies f deps ≡ ok args
      → reference_dependencies g deps ≡ ok args
  unfolding reference_dependencies
  reference_dependencies_mono f g h [] args e = e
  reference_dependencies_mono f g h ((arg, name) ∷ deps) args e =
      let (tag, e1, r) =
        >>=-eq-ok (f name) (λ tag. reference_dependencies f deps >>= λ args. ok ((arg, tag) ∷ args))
          e in
      let (rest, e2, last) =
        >>=-eq-ok (reference_dependencies f deps) (λ args. ok ((arg, tag) ∷ args)) r in
      rw (h name tag e1, reference_dependencies_mono f g h deps rest e2) last

  -- More depth gives the same tag.
  pub reference_tag_mono :
      (d e : ℕ) (name tag : Text)
      → d ≤ e
      → reference_tag d name ≡ ok tag
      → reference_tag e name ≡ ok tag
  unfolding reference_tag
  reference_tag_mono zero e name tag le h = cc
  reference_tag_mono (suc d) zero name tag le h = absurd (omega arith)
  reference_tag_mono (suc d) (suc e) name tag le h =
      let (found, e1, r) =
        >>=-eq-ok (config_and_dockerfile out search_paths builder name)
          (λ found. reference_dependencies (λ n. reference_tag d n) (found.0).deps >>= λ args.
            tag_of out search_paths builder name found.1 args)
          h in
      let (args, e2, last) =
        >>=-eq-ok (reference_dependencies (λ n. reference_tag d n) (found.0).deps)
          (λ args. tag_of out search_paths builder name found.1 args) r in
      rw
        (
          e1,
          reference_dependencies_mono (λ n. reference_tag d n) (λ n. reference_tag e n)
              (λ n t. reference_tag_mono d e n t (omega arith)) (found.0).deps args e2,
        )
        last

  -- All that is remembered is what the reference gives, at some depth.
  unfoldable pub IsRight : Dict Text → Type 0
  IsRight tags =
      (name tag : Text)
      → lookup name tags ≡ some tag
      → (depth : ℕ) × (reference_tag depth name ≡ ok tag)

  pub insert-IsRight :
      (tags : Dict Text) (name tag : Text) (depth : ℕ)
      → IsRight tags
      → reference_tag depth name ≡ ok tag
      → IsRight (insert name tag tags)
  unfolding IsRight
  insert-IsRight tags name tag depth right h other t found =
      let step = sym (lookup-insert name other tag tags) ∙ found in
      elim (Bool-cases (text_eq name other)) [
        | inl y ↦
            let same : tag ≡ t = some-injective tag t (rw (y) at step) in
            let names : name ≡ other = (text_eq_iff name other).0 y in
            (depth, subst (λ n. reference_tag depth n ≡ ok t) names (h ∙ ap ok same))
        | inr n ↦ right other t (rw (n) at step)
      ]

  reference_tag_unique :
      (d e : ℕ) (name s t : Text)
      → reference_tag d name ≡ ok s
      → reference_tag e name ≡ ok t
      → s ≡ t
  reference_tag_unique d e name s t h k = ok-injective s t (
      sym (reference_tag_mono d (d + e) name s (omega arith) h)
      ∙ reference_tag_mono e (d + e) name t (omega arith) k)

  dependencies_total :
      (calculate : Text → Dict Text → Outcome (Text × Dict Text)) (reference : Text → Outcome Text)
      → ((name tag : Text) (tags : Dict Text)
          → IsRight tags
          → reference name ≡ ok tag
          → (after : Dict Text) × (calculate name tags ≡ ok (tag, after)) × IsRight after)
      → (deps : Dict Text) (args : List (Text × Text)) (tags : Dict Text) → IsRight tags
      → reference_dependencies reference deps ≡ ok args
      → (after : Dict Text) × (calculate_dependencies out search_paths builder calculate deps tags
          ≡ ok (args, after))
        × IsRight after
  unfolding reference_dependencies calculate_dependencies
  dependencies_total calculate reference each [] args tags right h =
      (tags, ap (λ l. ok (l, tags)) (ok-injective [] args h), right)
  dependencies_total calculate reference each ((arg, name) ∷ deps) args tags right h =
      let (tag, e1, r) =
        >>=-eq-ok (reference name)
          (λ tag. reference_dependencies reference deps >>= λ args. ok ((arg, tag) ∷ args)) h in
      let (rest, e2, last) =
        >>=-eq-ok (reference_dependencies reference deps) (λ args. ok ((arg, tag) ∷ args)) r in
      let (mid, run, right1) = each name tag tags right e1 in
      let (after, runs, right2) =
        dependencies_total calculate reference each deps rest mid right1 e2 in
      (
        after,
        rw (run, runs) (ap (λ l. ok (l, after)) (ok-injective ((arg, tag) ∷ rest) args last)),
        right2,
      )

  -- Whatever right tags are remembered already: where the reference gives a tag at some depth, the
  -- calculation at that depth gives the same tag, and what it remembers afterwards is right too.
  pub calculate_tag_for_image-eq :
      (depth : ℕ) (image_name tag : Text) (tags : Dict Text)
      → IsRight tags
      → reference_tag depth image_name ≡ ok tag
      → (after : Dict Text) × (calculate_tag_for_image out search_paths builder depth image_name
            tags
          ≡ ok (tag, after))
        × IsRight after
  unfolding calculate_tag_for_image reference_tag record_tag known_or IsRight
  calculate_tag_for_image-eq zero image_name tag tags right h = cc
  calculate_tag_for_image-eq (suc depth) image_name tag tags right h =
      elim (Option-cases (lookup image_name tags)) [
        | inr (known, e) ↦
            let (d, k) = right image_name known e in
            let same = reference_tag_unique d (suc depth) image_name known tag k h in
            (tags, rw (e, same) refl, right)
        | inl e ↦
            let (found, e1, r) =
              >>=-eq-ok (config_and_dockerfile out search_paths builder image_name)
                (λ found.
                  reference_dependencies (λ n. reference_tag depth n) (found.0).deps >>= λ args.
                  tag_of out search_paths builder image_name found.1 args)
                h in
            let (args, e2, last) =
              >>=-eq-ok (reference_dependencies (λ n. reference_tag depth n) (found.0).deps)
                (λ args. tag_of out search_paths builder image_name found.1 args) r in
            let (mid, runs, right1) =
              dependencies_total
                (λ n known. calculate_tag_for_image out search_paths builder depth n known)
                (λ n. reference_tag depth n) (λ n t ts. calculate_tag_for_image-eq depth n t ts)
                (found.0).deps args tags right e2 in
            (
              insert image_name tag mid,
              rw (e, e1, runs, last) refl,
              insert-IsRight mid image_name tag (suc depth) right1 h,
            )
      ]
