-- ===== src/Examples/Coverage.antt =====
-- The results on coverage_report.py at concrete inputs, with floating-point numbers replaced by
-- natural numbers.
use public_endorsement_servi.Base.{
  ℕ, ◌<◌, ◌≡◌, refl, ◌↔◌, true, none, some, [], ◌∷◌, ◌++◌, arith, All, chars, ok, ltb, leb, length,
  text_eq, remove_all, starts_with,
}
use public_endorsement_servi.Base.Integers.{pos}
use public_endorsement_servi.Base.Decimal.{show}
use public_endorsement_servi.Base.Json.{Json, object, field, end, number}
use public_endorsement_servi.CoverageReport.Groups.{ranges_of, IsGrouped, ranges_of-IsGrouped}
use public_endorsement_servi.CoverageReport.FileCoverage.{
  Floats, FileCoverage, new_coverage, fit_to_column, length-fit_to_column,
  length-fit_to_column_narrow,
}
use public_endorsement_servi.CoverageReport.Lcov.{parse_lcov_data_line, parse_lcov}
use public_endorsement_servi.CoverageReport.Written.{
  fn, other_line, IsTestName, IsDatum, EndsPlainly, hit_lines, line_hits, Section, report_lines,
  covered_by,
}
use public_endorsement_servi.CoverageReport.ReadBack.{
  EndsWithSolid, IsSection, IsPath, parse_lcov-report_lines,
}
use public_endorsement_servi.CoverageReport.LcovLines.{parse_lcov_data_line-brda}
use public_endorsement_servi.CoverageReport.Report.{missing_section}
use public_endorsement_servi.CoverageReport.Missing.{missing_section_iff}
use public_endorsement_servi.CoverageReport.Thresholds.{
  Percents, AreChecked, parse_thresholds_file, parse_thresholds_file_lem,
}
use public_endorsement_servi.CoverageReport.Main.{Args, Passes, main, main_iff}

abbrev naturals : Floats
naturals = record {
  Float = ℕ;
  zero_point = 0;
  one_point = 1;
  int_ratio = λ i j. 1;
  add = λ x y. x;
  div_int = λ x n. x;
  lt = λ x y. ltb x y;
  percent = λ x. show x;
}

abbrev percents : Percents ℕ
percents = record {
  float_of = λ j. ok 50;
  zero_percent = 0;
  hundred_percent = 100;
  le = λ x y. leb x y;
  div = λ x y. x;
}

abbrev file : FileCoverage
file = new_coverage (b'f' ∷ [])

ranges_of-IsGrouped_example :
    IsGrouped (pos 1 ∷ pos 2 ∷ pos 5 ∷ []) (ranges_of (pos 1 ∷ pos 2 ∷ pos 5 ∷ []))
ranges_of-IsGrouped_example = ranges_of-IsGrouped (pos 1 ∷ pos 2 ∷ pos 5 ∷ [])

length-fit_to_column_example : length (fit_to_column (b'a' ∷ b'b' ∷ []) 10) ≡ 10
length-fit_to_column_example = length-fit_to_column (b'a' ∷ b'b' ∷ []) 10 (omega arith)

length-fit_to_column_narrow_example : 1 < length (fit_to_column (b'a' ∷ b'b' ∷ []) 1)
length-fit_to_column_narrow_example =
    length-fit_to_column_narrow (b'a' ∷ b'b' ∷ []) 1 (omega arith) (omega arith)

-- A file with a line that was not hit.
abbrev section : Section
section = record {
  test_name = some [];
  path = b'f' ∷ [];
  data_lines = other_line fn (chars "7,main") ∷ line_hits 7 0 ∷ hit_lines 3 ∷ [];
}

parse_lcov-report_lines_example :
    parse_lcov (report_lines (section ∷ [])) ≡ ok (covered_by (section ∷ []) [])
unfolding IsSection IsTestName IsDatum EndsPlainly IsPath EndsWithSolid remove_all starts_with chars
parse_lcov-report_lines_example =
    parse_lcov-report_lines (section ∷ []) (((refl, refl), tt, (refl, (tt, (tt, tt)))), tt)

-- The branch was taken 0 times, and the file stays as it was.
parse_lcov_data_line-brda_example :
    parse_lcov_data_line
      (chars "BRDA:" ++ show 7 ++ (b',' ∷ show 0 ++ (b',' ∷ show 1 ++ (b',' ∷ b'0' ∷ []))))
      file
    ≡ ok file
unfolding text_eq chars
parse_lcov_data_line-brda_example = parse_lcov_data_line-brda 7 0 1 (b'0' ∷ []) file (refl, tt)

missing_section_iff_example :
    (missing_section (file ∷ []) ≡ chars "All covered!" ∷ [])
    ↔ All (λ c. (c.uncovered_lines ≡ []) × (c.uncovered_branches ≡ [])) (file ∷ [])
missing_section_iff_example = missing_section_iff (file ∷ [])

-- {"f": {"lines": 50}}
abbrev document : Json
document = object (field (b'f' ∷ []) (object (field (chars "lines") (number (chars "50")) end)) end)

parse_thresholds_file_lem_example :
    AreChecked percents (record { file_lines = (b'f' ∷ [], 50) ∷ []; file_branch = [] })
unfolding parse_thresholds_file text_eq chars
parse_thresholds_file_lem_example =
    parse_thresholds_file_lem percents (ok document)
      (record { file_lines = (b'f' ∷ [], 50) ∷ []; file_branch = [] }) refl

abbrev arguments : Args naturals percents
arguments = record { target = b'/' ∷ []; lines = 90; branch = 80; thresholds_file = none }

main_iff_example : (main naturals percents (λ t. ok []) (λ p. some []) arguments ≡ ok tt) ↔ (
    ((true ≡ true) × (true ≡ true))
    × ((true ≡ true) × (true ≡ true))
    × Passes naturals percents (λ t. ok []) (λ p. some []) arguments)
main_iff_example = main_iff naturals percents (λ t. ok []) (λ p. some []) arguments
