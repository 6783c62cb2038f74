-- ===== src/CoverageReport/Lcov.antt =====
-- `parse_lcov_data_line` of coverage_report.py and the loop of `generate_lcov_report` over the lines
-- of the file.
use public_endorsement_servi.Base.{
  ℕ, Option, none, some, List, [], ◌∷◌, ◌++◌, if◌then◌else◌, Text, chars, text_eq, starts_with,
  remove_all, strip, split, Outcome, ok, raised, index_error, ◌>>=◌, get_elem?, Dict, lookup,
  insert,
}
use public_endorsement_servi.Base.Integers.{ℤ, pos, int_eq}
use public_endorsement_servi.Base.Decimal.{parse_int}
use public_endorsement_servi.CoverageReport.FileCoverage.{FileCoverage, new_coverage}

-- The six kinds of data lines, by the tests in their order.
pub data LineKind : Type 0 where
  lf lh brf brh da brda unknown : LineKind

unfoldable pub line_kind : Text → LineKind
line_kind line =
    if starts_with line (chars "LF:")
    then lf
    else if starts_with line (chars "LH:")
    then lh
    else if starts_with line (chars "BRF:")
    then brf
    else if starts_with line (chars "BRH:")
    then brh
    else if starts_with line (chars "DA:")
    then da
    else if starts_with line (chars "BRDA")
    then brda
    else unknown

-- parts[i]
unfoldable pub part : List Text → ℕ → Outcome Text
part parts i = elim (get_elem? parts i) [ none ↦ raised index_error | some p ↦ ok p ]

-- int(line.replace(tag, ""))
unfoldable pub int_behind : Text → Text → Outcome ℤ
int_behind tag line = parse_int (remove_all tag line)

unfoldable pub parse_da : Text → FileCoverage → Outcome FileCoverage
unfolding part int_behind
parse_da line c = do
  let parts = split b',' line
  first ← part parts 0
  line_number ← int_behind (chars "DA:") first
  second ← part parts 1
  hit_count ← parse_int second
  ok (
      if int_eq hit_count (pos 0)
      then record c { uncovered_lines = c.uncovered_lines ++ (line_number ∷ []) }
      else c)

unfoldable pub parse_brda : Text → FileCoverage → Outcome FileCoverage
unfolding part int_behind
parse_brda line c = do
  let parts = split b',' line
  first ← part parts 0
  line_number ← int_behind (chars "BRDA:") first
  second ← part parts 1
  block_id ← parse_int second
  third ← part parts 2
  branch_id ← parse_int third
  hit_marker ← part parts 3
  ok (
      if text_eq hit_marker (chars "-")
      then record c {
        uncovered_branches = c.uncovered_branches ++ ((line_number, block_id, branch_id) ∷ []);
      }
      else c)

unfoldable pub parse_by_kind : LineKind → Text → FileCoverage → Outcome FileCoverage
unfolding parse_da parse_brda int_behind
parse_by_kind lf line c = do n ← int_behind (chars "LF:") line; ok (record c { lines_found = n })
parse_by_kind lh line c = do n ← int_behind (chars "LH:") line; ok (record c { lines_hit = n })
parse_by_kind brf line c = do
  n ← int_behind (chars "BRF:") line
  ok (record c { branches_found = n })
parse_by_kind brh line c = do n ← int_behind (chars "BRH:") line; ok (record c { branches_hit = n })
parse_by_kind da line c = parse_da line c
parse_by_kind brda line c = parse_brda line c
parse_by_kind unknown line c = ok c

unfoldable pub parse_lcov_data_line : Text → FileCoverage → Outcome FileCoverage
unfolding line_kind parse_by_kind
parse_lcov_data_line line c = parse_by_kind (line_kind line) line c

-- The variables of the loop: `coverage_data` and `current_file_path`.
pub record Scan : Type 0 where
  pub coverage_data : Dict FileCoverage
  pub current_file_path : Option Text

-- A data line, for the current file if there is one. An empty path counts as none.
unfoldable pub scan_data : Text → Scan → Outcome Scan
unfolding parse_lcov_data_line lookup insert
scan_data line s = elim s.current_file_path [
  | none ↦ ok s
  | some path ↦ elim path [
    | [] ↦ ok s
    | c ∷ rest ↦ elim (lookup (c ∷ rest) s.coverage_data) [
      | none ↦ ok s
      | some current ↦ parse_lcov_data_line line current >>= λ updated.
          ok (record s { coverage_data = insert (c ∷ rest) updated s.coverage_data })
    ]
  ]
]

-- The body of the loop, on the stripped line.
unfoldable pub scan_line : Text → Scan → Outcome Scan
unfolding scan_data new_coverage insert
scan_line line s =
    if starts_with line (chars "SF:")
    then (let path = remove_all (chars "SF:") line in
        ok (record {
          coverage_data = insert path (new_coverage path) s.coverage_data;
          current_file_path = some path;
        }))
    else if text_eq line (chars "end_of_record")
    then ok (record s { current_file_path = none })
    else scan_data line s

unfoldable pub scan_lines : List Text → Scan → Outcome Scan
unfolding scan_line strip
scan_lines [] s = ok s
scan_lines (line ∷ lines) s = scan_line (strip line) s >>= scan_lines lines

unfoldable pub parse_lcov : List Text → Outcome (Dict FileCoverage)
unfolding scan_lines
parse_lcov lines =
    scan_lines lines (record { coverage_data = []; current_file_path = none }) >>= λ s.
    ok s.coverage_data
