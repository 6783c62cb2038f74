-- ===== src/CoverageReport/Report.antt =====
-- `print_and_validate_report` and `generate_lcov_report` of coverage_report.py. What is printed is
-- a list of texts, one for each call of `print`.
use public_endorsement_servi.Base.{
  ◌≡◌, refl, ◌↔◌, inl, inr, Bool, true, false, ◌||◌, Option, none, some, List, [], ◌∷◌, arith, ◌++◌,
  if◌then◌else◌, ℕ, ◌-◌, length, replicate, All, Bool-cases, Text, chars, Dict, values, lookup,
  Outcome, ok, ◌>>=◌,
}
use public_endorsement_servi.Base.Integers.{ℤ, pos}
use public_endorsement_servi.CoverageReport.FileCoverage.{
  Floats, FileCoverage, line_coverage_percent, branch_coverage_percent, generate_summary_line,
  generate_missing_coverage_report,
}
use public_endorsement_servi.CoverageReport.Lcov.{parse_lcov}

-- f"{s:<w}"
unfoldable pub pad_right : ℕ → Text → Text
pad_right w s = s ++ replicate (w - length s) 32

-- The reports that are not empty, as the second loop prints them.
unfoldable pub missing_reports : List FileCoverage → List Text
unfolding generate_missing_coverage_report
missing_reports [] = []
missing_reports (c ∷ cs) =
    let rest = missing_reports cs in
    elim (generate_missing_coverage_report c) [ [] ↦ rest | a ∷ report ↦ (a ∷ report) ∷ rest ]

-- What the second loop prints in all.
unfoldable pub missing_section : List FileCoverage → List Text
unfolding missing_reports
missing_section cs = elim (missing_reports cs) [ [] ↦ chars "All covered!" ∷ [] | r ∷ rs ↦ r ∷ rs ]

module _ (fl : Floats) where
  open fl use {Float, zero_point, add, div_int, lt, percent}

  -- d.get(path, default)
  unfoldable pub threshold_for : Dict Float → Text → Float → Float
  unfolding lookup
  threshold_for thresholds path default = elim (lookup path thresholds) [
    | none ↦ default
    | some t ↦ t
  ]

  -- The variables of the first loop.
  pub record Totals : Type 0 where
    pub is_coverage_valid : Bool
    pub lines_coverage : Float
    pub branch_coverage : Float
    pub summary : List Text

  module _ (lines branch : Float) (file_lines file_branch : Dict Float) where
    -- A file is below one of its thresholds.
    unfoldable pub is_below : FileCoverage → Bool
    unfolding line_coverage_percent branch_coverage_percent threshold_for
    is_below c =
        lt (line_coverage_percent fl c) (threshold_for file_lines c.file_path lines)
        || lt (branch_coverage_percent fl c) (threshold_for file_branch c.file_path branch)

    -- One round of the first loop, for a report of n_files files.
    unfoldable pub count_file : ℤ → FileCoverage → Totals → Totals
    unfolding is_below generate_summary_line threshold_for
    count_file n_files c t = record {
      is_coverage_valid = if is_below c then false else t.is_coverage_valid;
      lines_coverage = add t.lines_coverage (div_int (line_coverage_percent fl c) n_files);
      branch_coverage = add t.branch_coverage (div_int (branch_coverage_percent fl c) n_files);
      summary =
          t.summary
          ++ (generate_summary_line fl c (threshold_for file_lines c.file_path lines)
                (threshold_for file_branch c.file_path branch)
              ∷ []);
    }

    unfoldable pub count_files : ℤ → List FileCoverage → Totals → Totals
    unfolding count_file
    count_files n_files [] t = t
    count_files n_files (c ∷ cs) t = count_files n_files cs (count_file n_files c t)

    unfoldable pub print_and_validate_report : Dict FileCoverage → Bool × List Text
    unfolding count_files missing_section pad_right
    print_and_validate_report coverage_data =
        let files = values coverage_data in
        let t = count_files (pos (length files)) files (record {
          is_coverage_valid = true;
          lines_coverage = zero_point;
          branch_coverage = zero_point;
          summary = [];
        }) in
        (
          t.is_coverage_valid,
          (pad_right 50 (chars "file")
                ++ chars " | "
                ++ pad_right 17 (chars "Lines %")
                ++ chars " | Branches %")
              ∷ replicate 90 b'-'
              ∷ (t.summary
                  ++ (replicate 90 b'-'
                      ∷ (pad_right 50 (chars "Total")
                          ++ chars " | "
                          ++ pad_right 17 (percent t.lines_coverage)
                          ++ chars " | "
                          ++ percent t.branch_coverage)
                      ∷ ((10 ∷ []) ++ chars "--- Missing Coverage ---")
                      ∷ missing_section files)),
        )

    -- The lines of the file, or none if there is no such file. The path is only printed.
    unfoldable pub generate_lcov_report : Text → Option (List Text) → Outcome (Bool × List Text)
    unfolding print_and_validate_report parse_lcov
    generate_lcov_report file_path none = ok (false, (chars "File not found: " ++ file_path) ∷ [])
    generate_lcov_report file_path (some lcov_file) =
        parse_lcov lcov_file >>= λ coverage_data. ok (print_and_validate_report coverage_data)

    -- The line coverage is not less than the file's own threshold, or the default one where it has
    -- none, and the same for the branch coverage.
    abbrev pub MeetsBoth : FileCoverage → Type 0
    MeetsBoth c =
        (lt (line_coverage_percent fl c) (threshold_for file_lines c.file_path lines) ≡ false)
        × (lt (branch_coverage_percent fl c) (threshold_for file_branch c.file_path branch) ≡ false)

    is_below-MeetsBoth : (c : FileCoverage) → (is_below c ≡ false) ↔ MeetsBoth c
    unfolding is_below
    is_below-MeetsBoth c = (λ h. (ground arith, ground arith), λ h. ground arith)

    count_file-valid :
        (n : ℤ) (c : FileCoverage) (t : Totals)
        → (count_file n c t).is_coverage_valid ≡ (if is_below c then false else t.is_coverage_valid)
    unfolding count_file
    count_file-valid n c t = refl

    count_files-valid :
        (n : ℤ) (cs : List FileCoverage) (t : Totals)
        → ((count_files n cs t).is_coverage_valid ≡ true)
          ↔ ((t.is_coverage_valid ≡ true) × All MeetsBoth cs)
    unfolding count_files
    count_files-valid n [] t = (λ h. (h, tt), λ h. h.0)
    count_files-valid n (c ∷ cs) t =
        let ih = count_files-valid n cs (count_file n c t) in
        elim (Bool-cases (is_below c)) [
          | inl e ↦ (
            λ h. let v : false ≡ true = rw (count_file-valid n c t, e) at ((ih.0 h).0) in cc,
            λ h. let f : is_below c ≡ false = (is_below-MeetsBoth c).1 h.1.0 in cc,
          )
          | inr e ↦ (
            λ h. (
              rw (count_file-valid n c t, e) at ((ih.0 h).0),
              ((is_below-MeetsBoth c).0 e, (ih.0 h).1),
            ),
            λ h. ih.1 (rw (count_file-valid n c t, e) h.0, h.1.1),
          )
        ]

    -- The report is valid exactly if no file is below its line or its branch threshold, its own or
    -- the default one.
    pub print_and_validate_report_iff :
        (coverage_data : Dict FileCoverage)
        → ((print_and_validate_report coverage_data).0 ≡ true)
          ↔ All MeetsBoth (values coverage_data)
    unfolding print_and_validate_report
    print_and_validate_report_iff coverage_data =
        let files = values coverage_data in
        let both = count_files-valid (pos (length files)) files _ in
        (λ h. (both.0 h).1, λ h. both.1 (refl, h))
