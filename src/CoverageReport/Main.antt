-- ===== src/CoverageReport/Main.antt =====
-- `run_bazel_coverage` and `main` of coverage_report.py. The processes, the file system and the
-- argument parser's result are parameters.
use public_endorsement_servi.Base.{
  arith, ◌≡◌, refl, ap, ◌∙◌, ok-injective, ◌↔◌, Bool, true, false, Option, none, some, List, [],
  ◌∷◌, ◌++◌, if◌then◌else◌, Bool-cases, inl, inr, All, Text, chars, Dict, values, Outcome, ok,
  raised, exited, Completed, ended, not_found, file_not_found, ◌>>=◌, >>=-eq-ok,
}
use public_endorsement_servi.Base.Integers.{pos, int_eq}
use public_endorsement_servi.Base.Json.{Json}
use public_endorsement_servi.Base.Paths.{FilePath, path_text}
use public_endorsement_servi.CoverageReport.FileCoverage.{Floats, FileCoverage}
use public_endorsement_servi.CoverageReport.Lcov.{parse_lcov}
use public_endorsement_servi.CoverageReport.Report.{
  generate_lcov_report, print_and_validate_report, print_and_validate_report_iff, MeetsBoth,
}
use public_endorsement_servi.CoverageReport.Thresholds.{
  Percents, Thresholds, in_range, over_100, parse_thresholds_file,
}

abbrev report_path : FilePath
report_path = chars "bazel-out" ∷ chars "_coverage" ∷ chars "_coverage_report.dat" ∷ []

unfoldable pub bazel_command : FilePath → Text → List Text
unfolding path_text
bazel_command project_root target =
    path_text (project_root ++ (chars "devkit" ∷ chars "build" ∷ []))
    ∷ chars "bazel"
    ∷ chars "coverage"
    ∷ chars "--combined_report=lcov"
    ∷ target
    ∷ []

-- Where the report is, once bazel has ended: `check=True` raises for any other status than 0.
unfoldable pub after_bazel : (FilePath → Bool) → FilePath → FilePath → Completed → Outcome FilePath
after_bazel exists cwd project_root not_found = raised file_not_found
after_bazel exists cwd project_root (ended returncode stdout stderr) =
    if int_eq returncode (pos 0)
    then ok
        (if exists (cwd ++ report_path) then cwd ++ report_path else project_root ++ report_path)
    else exited (pos 1)

-- `root` is what `find_project_root()` comes to.
unfoldable pub run_bazel_coverage :
    (List Text → Completed)
    → (FilePath → Bool)
    → FilePath
    → Outcome FilePath
    → Text
    → Outcome FilePath
unfolding bazel_command after_bazel
run_bazel_coverage run exists cwd root target = root >>= λ project_root.
    after_bazel exists cwd project_root (run (bazel_command project_root target))

module _ (fl : Floats) (pc : Percents fl.Float) where
  open fl use {Float}
  open pc use {zero_percent, hundred_percent, le, div}

  -- `args`; the thresholds file is given by what reading it comes to.
  pub record Args : Type 0 where
    pub target : Text
    pub lines : Float
    pub branch : Float
    pub thresholds_file : Option (Outcome Json)

  unfoldable pub load_thresholds : Option (Outcome Json) → Outcome (Thresholds pc)
  unfolding parse_thresholds_file
  load_thresholds none = ok (record { file_lines = []; file_branch = [] })
  load_thresholds (some loaded) = parse_thresholds_file pc loaded

  -- The last `if`: what the report says becomes the exit status.
  unfoldable pub conclude : Bool × List Text → Outcome (Unit {0})
  conclude (true, printed) = ok tt
  conclude (false, printed) = exited (pos 1)

  module _ (bazel : Text → Outcome FilePath) (read_lines : FilePath → Option (List Text)) where
    -- What follows the range checks.
    unfoldable pub measure : Args → Outcome (Unit {0})
    unfolding load_thresholds conclude generate_lcov_report path_text over_100
    measure args = do
      t ← load_thresholds args.thresholds_file
      report ← bazel args.target
      result ←
          generate_lcov_report fl (over_100 pc args.lines) (over_100 pc args.branch) t.file_lines
            t.file_branch (path_text report) (read_lines report)
      conclude result

    unfoldable pub main : Args → Outcome (Unit {0})
    unfolding measure in_range
    main args =
        if in_range pc args.branch
        then if in_range pc args.lines then measure args else exited (pos 1)
        else exited (pos 1)

    -- The thresholds could be read, bazel ran, its report is there and can be parsed, and no file
    -- of the report is below its line or branch threshold.
    abbrev pub Passes : Args → Type 0
    Passes args =
        (t : Thresholds pc) × (report : FilePath) × (lines : List Text) × (coverage_data : Dict
          FileCoverage)
        × (load_thresholds args.thresholds_file ≡ ok t)
        × (bazel args.target ≡ ok report)
        × (read_lines report ≡ some lines)
        × (parse_lcov lines ≡ ok coverage_data)
        × All
            (MeetsBoth fl (div args.lines hundred_percent) (div args.branch hundred_percent)
              t.file_lines t.file_branch)
            (values coverage_data)

    conclude-ok : (r : Bool × List Text) → conclude r ≡ ok tt → r.0 ≡ true
    unfolding conclude
    conclude-ok (true, printed) h = refl
    conclude-ok (false, printed) h = cc

    conclude-true : (r : Bool × List Text) → r.0 ≡ true → conclude r ≡ ok tt
    unfolding conclude
    conclude-true (true, printed) h = refl
    conclude-true (false, printed) h = cc

    module _ (args : Args) (t : Thresholds pc) where
      report_passes :
          (path : Text) (content : Option (List Text))
          → (generate_lcov_report fl
                (over_100 pc args.lines)
                (over_100 pc args.branch)
                t.file_lines
                t.file_branch
                path
                content
              >>= conclude)
            ≡ ok tt
          → (lines : List Text) × (coverage_data : Dict FileCoverage) × (content ≡ some lines)
            × (parse_lcov lines ≡ ok coverage_data)
            × All
                (MeetsBoth fl
                  (div args.lines hundred_percent)
                  (div args.branch hundred_percent)
                  t.file_lines
                  t.file_branch)
                (values coverage_data)
      unfolding generate_lcov_report conclude over_100
      report_passes path none e = cc
      report_passes path (some lines) e =
          let (result, made, last) = >>=-eq-ok _ conclude e in
          let (cov, parsed, printed) =
            >>=-eq-ok (parse_lcov lines)
              (λ c. ok (
                print_and_validate_report fl (over_100 pc args.lines) (over_100 pc args.branch)
                  t.file_lines t.file_branch c))
              made in
          (
            lines,
            cov,
            refl,
            parsed,
            (print_and_validate_report_iff fl (over_100 pc args.lines) (over_100 pc args.branch)
                  t.file_lines t.file_branch cov).0
                (ap (λ (r : Bool × List Text). r.0) (ok-injective _ _ printed)
                  ∙ conclude-ok result last),
          )

    measure-Passes : (args : Args) → measure args ≡ ok tt → Passes args
    unfolding measure
    measure-Passes args e =
        let (t, loaded, rest) = >>=-eq-ok (load_thresholds args.thresholds_file) _ e in
        let (report, ran, rest') = >>=-eq-ok (bazel args.target) _ rest in
        let (lines, cov, there, parsed, above) =
          report_passes args t (path_text report) (read_lines report) rest' in
        (t, report, lines, cov, loaded, ran, there, parsed, above)

    Passes-measure : (args : Args) → Passes args → measure args ≡ ok tt
    unfolding measure
    Passes-measure args (t, report, lines, coverage_data, loaded, ran, there, parsed, above) =
        rw (loaded, ran, there, generate_lcov_report, parsed)
          (conclude-true _ (
            (print_and_validate_report_iff fl (over_100 pc args.lines) (over_100 pc args.branch)
                t.file_lines t.file_branch coverage_data).1
              above))

    -- 0.0 <= x <= 100.0
    abbrev pub IsPercentage : Float → Type 0
    IsPercentage x = (le zero_percent x ≡ true) × (le x hundred_percent ≡ true)

    in_range-IsPercentage : (x : Float) → (in_range pc x ≡ true) ↔ IsPercentage x
    unfolding in_range
    in_range-IsPercentage x = (λ h. (ground arith, ground arith), λ h. ground arith)

    main-Passes :
        (args : Args)
        → main args ≡ ok tt
        → IsPercentage args.lines × IsPercentage args.branch × Passes args
    unfolding main
    main-Passes args e = elim (Bool-cases (in_range pc args.branch)) [
      | inr n ↦ let bad : exited (pos 1) ≡ ok tt = rw (n, main) at e in cc
      | inl y ↦ elim (Bool-cases (in_range pc args.lines)) [
        | inr n ↦ let bad : exited (pos 1) ≡ ok tt = rw (y, n, main) at e in cc
        | inl y' ↦ (
          (in_range-IsPercentage args.lines).0 y',
          (in_range-IsPercentage args.branch).0 y,
          measure-Passes args (rw (y, y', main) at e),
        )
      ]
    ]

    -- The process ends normally exactly if both default thresholds are from 0.0 to 100.0, the thresholds
    -- file, if given, could be read, bazel ran, its report is there and can be parsed, and no file
    -- of the report is below its line or branch threshold, its own or the default one.
    pub main_iff :
        (args : Args)
        → (main args ≡ ok tt) ↔ (IsPercentage args.lines × IsPercentage args.branch × Passes args)
    unfolding main
    main_iff args = (
      main-Passes args,
      λ (lines, branch, passes).
          let low : in_range pc args.lines ≡ true = (in_range-IsPercentage args.lines).1 lines in
          let high : in_range pc args.branch ≡ true =
            (in_range-IsPercentage args.branch).1 branch in
          rw (high, low) (Passes-measure args passes),
    )
