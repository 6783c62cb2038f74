-- ===== src/CoverageReport/DataLines.antt =====
-- The parser of coverage_report.py on the data lines of a report.
use public_endorsement_servi.Base.{
  ℕ, ◌≡◌, refl, false, Option, none, some, [], ◌∷◌, ◌++◌, arith, Text, chars, strip, starts_with,
  text_eq, ok,
}
use public_endorsement_servi.Base.Splits.{Lacks}
use public_endorsement_servi.Base.Decimal.{show, show-IsDigits, IsDigits}
use public_endorsement_servi.CoverageReport.FileCoverage.{FileCoverage}
use public_endorsement_servi.CoverageReport.Lcov.{parse_lcov_data_line, line_kind, parse_by_kind}
use public_endorsement_servi.CoverageReport.LcovLines.{
  show-Lacks_comma, parse_lcov_data_line-counters, parse_lcov_data_line-da,
  parse_lcov_data_line-brda,
}
use public_endorsement_servi.CoverageReport.Written.{
  fn, fnda, fnf, fnh, ba, other_tag, other_line, IsDatum, strip-tagged, Datum, found_lines,
  hit_lines, found_branches, hit_branches, line_hits, branch_hits, taken_text, datum_text, ended,
  says, Solid, Solid-append, show-Solid, strip-Solid,
}

minus_no_digits : (s : Text) → IsDigits s → text_eq s (b'-' ∷ []) ≡ false
unfolding text_eq
minus_no_digits [] h = refl
minus_no_digits (c ∷ s) h = ground arith

taken_text-Lacks : (taken : Option ℕ) → Lacks b',' (taken_text taken)
unfolding taken_text
taken_text-Lacks none = (refl, tt)
taken_text-Lacks (some n) = show-Lacks_comma n

taken_text-Solid : (taken : Option ℕ) → Solid (taken_text taken)
unfolding taken_text
taken_text-Solid none = (refl, tt)
taken_text-Solid (some n) = show-Solid n

pub parse_lcov_data_line-says :
    (d : Datum) (c : FileCoverage) → parse_lcov_data_line (datum_text d) c ≡ ok (says d c)
unfolding datum_text says taken_text chars text_eq other_tag parse_lcov_data_line line_kind
    parse_by_kind starts_with
parse_lcov_data_line-says (found_lines n) c = (parse_lcov_data_line-counters n c).0
parse_lcov_data_line-says (hit_lines n) c = (parse_lcov_data_line-counters n c).1
parse_lcov_data_line-says (found_branches n) c = (parse_lcov_data_line-counters n c).2
parse_lcov_data_line-says (hit_branches n) c = (parse_lcov_data_line-counters n c).3
parse_lcov_data_line-says (line_hits number hits) c = parse_lcov_data_line-da number hits c
parse_lcov_data_line-says (branch_hits number block id none) c =
    parse_lcov_data_line-brda number block id (b'-' ∷ []) c (refl, tt)
parse_lcov_data_line-says (branch_hits number block id (some n)) c =
    rw (minus_no_digits (show n) (show-IsDigits n)) at
      (parse_lcov_data_line-brda number block id (show n) c (show-Lacks_comma n))
parse_lcov_data_line-says (other_line fn text) c = refl
parse_lcov_data_line-says (other_line fnda text) c = refl
parse_lcov_data_line-says (other_line fnf text) c = refl
parse_lcov_data_line-says (other_line fnh text) c = refl
parse_lcov_data_line-says (other_line ba text) c = refl

-- A data line is no header and no end.
pub datum_text-kind :
    (d : Datum)
    → (starts_with (datum_text d) (chars "SF:") ≡ false)
      × (text_eq (datum_text d) (chars "end_of_record") ≡ false)
unfolding datum_text chars starts_with text_eq other_tag
datum_text-kind (found_lines n) = (refl, refl)
datum_text-kind (hit_lines n) = (refl, refl)
datum_text-kind (found_branches n) = (refl, refl)
datum_text-kind (hit_branches n) = (refl, refl)
datum_text-kind (line_hits number hits) = (refl, refl)
datum_text-kind (branch_hits number block id taken) = (refl, refl)
datum_text-kind (other_line fn text) = (refl, refl)
datum_text-kind (other_line fnda text) = (refl, refl)
datum_text-kind (other_line fnf text) = (refl, refl)
datum_text-kind (other_line fnh text) = (refl, refl)
datum_text-kind (other_line ba text) = (refl, refl)

pub strip-datum_text : (d : Datum) → IsDatum d → strip (ended (datum_text d)) ≡ datum_text d
unfolding datum_text chars IsDatum other_tag
strip-datum_text (found_lines n) plain =
    strip-Solid 76 (70 ∷ 58 ∷ show n) (refl, (refl, (refl, show-Solid n)))
strip-datum_text (hit_lines n) plain =
    strip-Solid 76 (72 ∷ 58 ∷ show n) (refl, (refl, (refl, show-Solid n)))
strip-datum_text (found_branches n) plain =
    strip-Solid 66 (82 ∷ 70 ∷ 58 ∷ show n) (refl, (refl, (refl, (refl, show-Solid n))))
strip-datum_text (hit_branches n) plain =
    strip-Solid 66 (82 ∷ 72 ∷ 58 ∷ show n) (refl, (refl, (refl, (refl, show-Solid n))))
strip-datum_text (line_hits number hits) plain =
    let numbers : Solid (show number ++ (b',' ∷ show hits)) =
      Solid-append (show number) _ (show-Solid number) (refl, show-Solid hits) in
    strip-Solid 68 (65 ∷ 58 ∷ show number ++ (b',' ∷ show hits)) (refl, (refl, (refl, numbers)))
strip-datum_text (branch_hits number block id taken) plain =
    let last : Solid (show id ++ (b',' ∷ taken_text taken)) =
      Solid-append (show id) _ (show-Solid id) (refl, taken_text-Solid taken) in
    let numbers : Solid
        (show number ++ (b',' ∷ show block ++ (b',' ∷ show id ++ (b',' ∷ taken_text taken)))) =
      Solid-append (show number) _ (show-Solid number)
        (refl, Solid-append (show block) _ (show-Solid block) (refl, last)) in
    strip-Solid 66
      (82 ∷ 68 ∷ 65 ∷ 58 ∷ show number
        ++ (b',' ∷ show block ++ (b',' ∷ show id ++ (b',' ∷ taken_text taken))))
      (refl, (refl, (refl, (refl, (refl, numbers)))))
strip-datum_text (other_line fn text) plain = strip-tagged 70 (78 ∷ []) text refl plain
strip-datum_text (other_line fnda text) plain = strip-tagged 70 (78 ∷ 68 ∷ 65 ∷ []) text refl plain
strip-datum_text (other_line fnf text) plain = strip-tagged 70 (78 ∷ 70 ∷ []) text refl plain
strip-datum_text (other_line fnh text) plain = strip-tagged 70 (78 ∷ 72 ∷ []) text refl plain
strip-datum_text (other_line ba text) plain = strip-tagged 66 (65 ∷ []) text refl plain
