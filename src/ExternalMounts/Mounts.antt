-- ===== src/ExternalMounts/Mounts.antt =====
-- `list_external_mounts` and `get_minimal_mounts` of list_external_mounts.py.
use public_endorsement_servi.Base.{
  ℕ, Text, ◌≡◌, refl, inl, inr, subst, some-injective, true, false, Option, none, some, List, [],
  ◌∷◌, ◌++◌, ◌+◌, ◌<◌, length, map, ap, arith, In, In-append_left, In-append_right, if◌then◌else◌,
  Option-cases,
}
use public_endorsement_servi.Base.Paths.{FilePath, path_text, is_relative_to}
use public_endorsement_servi.ExternalMounts.FileSystem.{FileSystem, normpath}
use public_endorsement_servi.ExternalMounts.Symlinks.{Found, scan_loop}
use public_endorsement_servi.ExternalMounts.Outside.{IsNormal}
use public_endorsement_servi.ExternalMounts.Scan.{scan_loop-IsTracked}
use public_endorsement_servi.ExternalMounts.Termination.{IsFinite, missing-le, scan_loop_total}
use public_endorsement_servi.ExternalMounts.Minimize.{minimize_paths, minimize_paths-covers, Under}

module _ (fs : FileSystem) where
  open fs use {is_symlink, is_dir, resolve}

  -- The scan from the resolved directory: what was scanned, and what was found.
  unfoldable pub run_scan : ℕ → ℕ → FilePath → Option (List FilePath × Found)
  unfolding scan_loop
  run_scan fuel rounds scan_dir =
      scan_loop fs (resolve scan_dir) fuel rounds []
        (record { external_paths = []; worklist = resolve scan_dir ∷ [] })

  unfoldable pub list_external_mounts : ℕ → ℕ → FilePath → Option (List FilePath)
  unfolding run_scan
  list_external_mounts fuel rounds scan_dir = elim (run_scan fuel rounds scan_dir) [
    | none ↦ none
    | some (scanned, s) ↦ some s.external_paths
  ]

  -- `existing_paths`: the mounts, their resolved forms, and the root if it is a symlink.
  unfoldable pub existing_paths : FilePath → List FilePath → List FilePath
  existing_paths root_dir existing_mounts =
      existing_mounts
      ++ (map resolve existing_mounts
          ++ (if is_symlink root_dir then resolve root_dir ∷ [] else []))

  unfoldable pub get_minimal_mounts : ℕ → ℕ → FilePath → List FilePath → Option (List FilePath)
  unfolding list_external_mounts existing_paths minimize_paths
  get_minimal_mounts fuel rounds root_dir existing_mounts =
      elim (list_external_mounts fuel rounds root_dir) [
        | none ↦ none
        | some symlink_paths ↦
            some (minimize_paths (symlink_paths ++ existing_paths root_dir existing_mounts))
      ]

  -- The lines that `main` prints.
  unfoldable pub main : ℕ → ℕ → FilePath → List FilePath → Option (List Text)
  unfolding get_minimal_mounts path_text
  main fuel rounds root_dir existing_mounts =
      elim (get_minimal_mounts fuel rounds root_dir existing_mounts) [
        | none ↦ none
        | some minimal ↦ some (map path_text minimal)
      ]

  -- Where the scan of a resolved directory without ".." ends, every path that it lists is the
  -- normal form of some path and lies outside of that directory, and every listed path that is a
  -- directory was itself scanned for symlinks.
  pub list_external_mounts-outside :
      (fuel rounds : ℕ) (scan_dir : FilePath) (seen : List FilePath) (s : Found)
      → IsNormal (resolve scan_dir)
      → run_scan fuel rounds scan_dir ≡ some (seen, s)
      → (p : FilePath) → In p s.external_paths
      → (((t : FilePath) × (p ≡ normpath t)) × (is_relative_to p (resolve scan_dir) ≡ false))
        × (is_dir p ≡ true → In p seen)
  unfolding run_scan
  list_external_mounts-outside fuel rounds scan_dir seen s normal e p m =
      let (inv, done) =
        scan_loop-IsTracked fs (resolve scan_dir) normal fuel rounds [] seen _ s e
          (record { outside = λ q n. absurd n; pending = λ q n. absurd n }) in
      (
        inv.outside p m,
        λ d. elim (inv.pending p m d) [
          | inl scanned ↦ scanned
          | inr waits ↦ absurd (subst (In p) done waits)
        ],
      )

  In-map-resolve : (p : FilePath) (ps : List FilePath) → In p ps → In (resolve p) (map resolve ps)
  In-map-resolve p [] m = m
  In-map-resolve p (q ∷ ps) (inl e) = inl (ap resolve e)
  In-map-resolve p (q ∷ ps) (inr m) = inr (In-map-resolve p ps m)

  -- What comes before the minimization.
  minimized :
      (fuel rounds : ℕ) (root_dir : FilePath) (mounts result : List FilePath)
      → get_minimal_mounts fuel rounds root_dir mounts ≡ some result
      → (found : List FilePath) × (list_external_mounts fuel rounds root_dir ≡ some found)
        × ((p : FilePath)
            → In p (found ++ existing_paths root_dir mounts)
            → (q : FilePath) × In q result × Under p q)
  unfolding get_minimal_mounts
  minimized fuel rounds root_dir mounts result e =
      elim (Option-cases (list_external_mounts fuel rounds root_dir)) [
        | inl out ↦ let stuck : none ≡ some result = rw (out, get_minimal_mounts) at e in cc
        | inr (found, run) ↦
            let all = found ++ existing_paths root_dir mounts in
            let made : minimize_paths all ≡ result =
              some-injective _ _ (rw (run, get_minimal_mounts) at e) in
            (
              found,
              run,
              subst
                  (λ (r : List FilePath).
                    (p : FilePath) → In p all → (q : FilePath) × In q r × Under p q)
                  made (minimize_paths-covers all),
            )
      ]

  -- Every existing mount, as given and resolved, lies under a mount of the result, and so does the
  -- resolved root directory where the root is a symlink.
  pub get_minimal_mounts-covers :
      (fuel rounds : ℕ) (root_dir : FilePath) (mounts result : List FilePath)
      → get_minimal_mounts fuel rounds root_dir mounts ≡ some result
      → ((p : FilePath)
          → In p mounts
          → ((q : FilePath) × In q result × Under p q)
            × ((q : FilePath) × In q result × Under (resolve p) q))
        × (is_symlink root_dir ≡ true → (q : FilePath) × In q result × Under (resolve root_dir) q)
  unfolding existing_paths
  get_minimal_mounts-covers fuel rounds root_dir mounts result e =
      let (paths, run, covers) = minimized fuel rounds root_dir mounts result e in
      (
        λ p m. (
          covers p (In-append_right p paths _ (In-append_left p mounts _ m)),
          covers (resolve p) (
              In-append_right (resolve p) paths _ (
                In-append_right (resolve p) mounts _
                  (In-append_left (resolve p) (map resolve mounts) _ (In-map-resolve p mounts m)))),
        ),
        λ link. covers (resolve root_dir) (
            In-append_right (resolve root_dir) paths _ (
              In-append_right (resolve root_dir) mounts _
                (In-append_right (resolve root_dir) (map resolve mounts) _ (rw link (inl refl))))),
      )

  -- Where the result is there, so is the list of the external mounts, and each of them lies under a
  -- mount of the result.
  pub get_minimal_mounts-covers_external :
      (fuel rounds : ℕ) (root_dir : FilePath) (mounts result : List FilePath)
      → get_minimal_mounts fuel rounds root_dir mounts ≡ some result
      → (found : List FilePath) × (list_external_mounts fuel rounds root_dir ≡ some found)
        × ((p : FilePath) → In p found → (q : FilePath) × In q result × Under p q)
  get_minimal_mounts-covers_external fuel rounds root_dir mounts result e =
      let (found, run, covers) = minimized fuel rounds root_dir mounts result e in
      (found, run, λ p m. covers p (In-append_left p found _ m))

  -- The scan ends: with fuel above the length of every chain of symlinks, and two rounds more than
  -- there are directories to find, `get_minimal_mounts` returns.
  pub get_minimal_mounts_total :
      (fuel rounds : ℕ) (universe : List FilePath) (root_dir : FilePath) (mounts : List FilePath)
      → IsFinite fs fuel universe
      → length universe + 1 < rounds
      → (result : List FilePath) × (get_minimal_mounts fuel rounds root_dir mounts ≡ some result)
  unfolding get_minimal_mounts
  get_minimal_mounts_total fuel rounds universe root_dir mounts fin h =
      let start : Found = record { external_paths = []; worklist = resolve root_dir ∷ [] } in
      let enough = missing-le universe [] in
      let (seen, s, run) =
        scan_loop_total fs (resolve root_dir) fuel universe fin rounds [] start (omega arith) in
      (
        minimize_paths (s.external_paths ++ existing_paths root_dir mounts),
        rw (run, run_scan, list_external_mounts, get_minimal_mounts),
      )
