-- ===== src/Bootstrap/Ended.antt =====
-- How `main` of bootstrap.py ends.
use public_endorsement_servi.Base.{
  ◌≡◌, refl, ◌↔◌, sym, ◌∙◌, inl, inr, false, List, [], ◌∷◌, ◌++◌, All, map, update, any_of,
  Bool-cases, Text, Dict, Outcome, ok, raised, exited,
}
use public_endorsement_servi.Base.Integers.{pos}
use public_endorsement_servi.Base.Paths.{FilePath}
use public_endorsement_servi.Bootstrap.Templates.{Outside, Step, copy_and_template}
use public_endorsement_servi.Bootstrap.Copied.{fails, sources}
use public_endorsement_servi.Bootstrap.Walked.{copy_and_template-Copied}
use public_endorsement_servi.Base.Splits.{Lacks}
use public_endorsement_servi.Bootstrap.Pairs.{found_template, read_args-pairs, pairs-read_args}
use public_endorsement_servi.Bootstrap.Main.{Args, Tree, read_args, conclude, main}

conclude-ok : (r : Step) → (conclude r).0 ≡ ok tt → (r.0 ≡ ok tt) × ((r.1).error_occurred ≡ false)
unfolding conclude
conclude-ok (ok tt, s) e = elim (Bool-cases (s.error_occurred)) [
  | inl y ↦ let bad : exited (pos 1) ≡ ok tt = rw y at e in cc
  | inr n ↦ (refl, n)
]
conclude-ok (raised x, s) e = cc
conclude-ok (exited n, s) e = cc

ok-conclude : (r : Step) → r.0 ≡ ok tt → (r.1).error_occurred ≡ false → (conclude r).0 ≡ ok tt
unfolding conclude
ok-conclude (ok tt, s) e n = rw n refl
ok-conclude (raised x, s) e n = cc
ok-conclude (exited m, s) e n = cc

module _ {ℓ} {Template : Type ℓ} (out : FilePath → Outside Template) (tree : Tree) (args : Args)
    (files : List (FilePath × Text)) where
  -- Each argument is a key=value pair, the template directory is there, no exception ends the copy,
  -- and every template could be parsed and rendered. A later pair of a key takes the place of an
  -- earlier one.
  abbrev pub Succeeds : Type 0
  Succeeds =
      (pairs : List (Text × Text)) × (dir : FilePath) × All
        (λ (pair : Text × Text). Lacks b'=' pair.0) pairs
      × (args.args ≡ map (λ (pair : Text × Text). pair.0 ++ (b'=' ∷ pair.1)) pairs)
      × (found_template tree args ≡ ok dir)
      × ((copy_and_template (out dir) dir (update [] pairs) (tree.listing dir) files).0 ≡ ok tt)
      × (any_of (fails (out dir) (update [] pairs)) (sources (tree.listing dir)) ≡ false)

  main-Succeeds :
      (found : Outcome (Dict Text × FilePath))
      → read_args tree args ≡ found
      → (main out tree args files).0 ≡ ok tt
      → Succeeds
  unfolding main
  main-Succeeds (raised x) r e = let bad : raised x ≡ ok tt = rw (r, main) at e in cc
  main-Succeeds (exited n) r e = let bad : exited n ≡ ok tt = rw (r, main) at e in cc
  main-Succeeds (ok (context, dir)) r e =
      let (pairs, plain, same, made, found) = read_args-pairs tree args context dir r in
      let given : Dict Text = update [] pairs in
      let r' = pairs-read_args tree args pairs dir plain same found in
      let copy = copy_and_template (out dir) dir given (tree.listing dir) files in
      let (went, clean) = conclude-ok copy (rw (r', main) at e) in
      (
        pairs,
        dir,
        plain,
        same,
        found,
        went,
        sym (copy_and_template-Copied (out dir) dir given (tree.listing dir) files went).1 ∙ clean,
      )

  Succeeds-main : Succeeds → (main out tree args files).0 ≡ ok tt
  unfolding main
  Succeeds-main (pairs, dir, plain, same, found, went, clean) =
      let context : Dict Text = update [] pairs in
      let r = pairs-read_args tree args pairs dir plain same found in
      let copy = copy_and_template (out dir) dir context (tree.listing dir) files in
      rw (r, main)
        (ok-conclude copy went (
          (copy_and_template-Copied (out dir) dir context (tree.listing dir) files went).1 ∙ clean))

  -- The script ends normally exactly if every argument is a key=value pair, with the key up to the
  -- first "=", the template directory is there, no exception ends the copy, and every template of the
  -- walk that is no include could be parsed and rendered with these values, a later one of a key
  -- before an earlier one.
  pub main-Succeeds_iff : ((main out tree args files).0 ≡ ok tt) ↔ Succeeds
  main-Succeeds_iff = (λ e. main-Succeeds (read_args tree args) refl e, Succeeds-main)
