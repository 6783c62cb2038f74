-- ===== src/CoverageReport/FileCoverage.antt =====
-- The class `FileCoverage` of coverage_report.py and `fit_to_column`. Floating-point numbers and
-- their printing are a parameter.
use public_endorsement_servi.Base.{
  ℕ, ◌-◌, ◌<◌, ◌≤◌, ◌≡◌, Bool, true, false, List, [], ◌∷◌, ◌++◌, map, arith, if◌then◌else◌, ltb,
  leb, length, drop, replicate, length-append, length-drop, length-replicate, Text, chars, join,
}
use public_endorsement_servi.Base.Integers.{ℤ, pos, int_eq}
use public_endorsement_servi.Base.Decimal.{show_int}
use public_endorsement_servi.CoverageReport.Groups.{group_consecutive_numbers}

-- Python's `float`, as far as the report computes with it.
pub record Floats : Type 1 where
  pub Float : Type 0
  pub zero_point : Float
  pub one_point : Float
  -- i / j for integers, j nonzero
  pub int_ratio : ℤ → ℤ → Float
  pub add : Float → Float → Float
  -- x / n
  pub div_int : Float → ℤ → Float
  pub lt : Float → Float → Bool
  -- f"{x:>7.2%}"
  pub percent : Float → Text

pub record FileCoverage : Type 0 where
  pub file_path : Text
  pub lines_found : ℤ
  pub lines_hit : ℤ
  pub branches_found : ℤ
  pub branches_hit : ℤ
  pub uncovered_lines : List ℤ
  pub uncovered_branches : List (ℤ × ℤ × ℤ)

-- FileCoverage(file_path)
unfoldable pub new_coverage : Text → FileCoverage
new_coverage path = record {
  file_path = path;
  lines_found = pos 0;
  lines_hit = pos 0;
  branches_found = pos 0;
  branches_hit = pos 0;
  uncovered_lines = [];
  uncovered_branches = [];
}

-- filepath[-k:] for k = max_width - 3, which Python reads from the left end where k <= 0.
unfoldable pub tail_slice : Text → ℕ → Text
tail_slice filepath max_width =
    if leb max_width 3
    then drop (3 - max_width) filepath
    else drop (length filepath - (max_width - 3)) filepath

unfoldable pub fit_to_column : Text → ℕ → Text
unfolding tail_slice
fit_to_column filepath max_width =
    if ltb max_width (length filepath)
    then b'.' ∷ b'.' ∷ b'.' ∷ tail_slice filepath max_width
    else filepath ++ replicate (max_width - length filepath) 32

-- The fitted text has exactly the width of the column, if that is more than 3.
pub length-fit_to_column :
    (filepath : Text) (max_width : ℕ)
    → 3 < max_width
    → length (fit_to_column filepath max_width) ≡ max_width
unfolding fit_to_column
length-fit_to_column filepath max_width h = ground (
  arith,
  length-drop (length filepath - (max_width - 3)) filepath,
  length-append filepath (replicate (max_width - length filepath) 32),
  length-replicate {A = ℕ} (max_width - length filepath) 32,
)

-- In a column of width 3 or less a path that does not fit comes out wider than the column.
pub length-fit_to_column_narrow :
    (filepath : Text) (max_width : ℕ)
    → max_width ≤ 3
    → max_width < length filepath
    → max_width < length (fit_to_column filepath max_width)
unfolding fit_to_column
length-fit_to_column_narrow filepath max_width h k =
    ground (arith, length-drop (3 - max_width) filepath)

unfoldable pub branch_line : ℤ × ℤ × ℤ → Text
branch_line (line, block, branch) =
    chars "Line "
    ++ show_int line
    ++ chars ": (block: "
    ++ show_int block
    ++ chars ", branch: "
    ++ show_int branch
    ++ chars ")"

unfoldable pub get_missing_branches_str : FileCoverage → Text
unfolding branch_line
get_missing_branches_str c = join (10 ∷ []) (map branch_line c.uncovered_branches)

abbrev nonempty : Text → Text → Text
nonempty [] shown = []
nonempty (c ∷ s) shown = shown

-- What stands between the file's name and the end of its report.
unfoldable pub missing_parts : FileCoverage → Text
unfolding get_missing_branches_str group_consecutive_numbers
missing_parts c =
    let lines = group_consecutive_numbers c.uncovered_lines in
    let branches = get_missing_branches_str c in
    nonempty lines (chars "Lines to test: " ++ lines ++ (10 ∷ []))
    ++ nonempty branches (chars "Branches to test:" ++ (10 ∷ []) ++ branches)

unfoldable pub is_fully_covered : FileCoverage → Bool
is_fully_covered c = elim c.uncovered_lines [
  | [] ↦ elim c.uncovered_branches [ [] ↦ true | b ∷ bs ↦ false ]
  | n ∷ ns ↦ false
]

unfoldable pub generate_missing_coverage_report : FileCoverage → Text
unfolding missing_parts is_fully_covered
generate_missing_coverage_report c =
    if is_fully_covered c
    then []
    else (10 ∷ []) ++ chars "File: " ++ c.file_path ++ (10 ∷ []) ++ missing_parts c

module _ (fl : Floats) where
  open fl use {Float, one_point, int_ratio, percent}

  unfoldable pub ratio_or_one : ℤ → ℤ → Float
  ratio_or_one found hit = if int_eq found (pos 0) then one_point else int_ratio hit found

  unfoldable pub line_coverage_percent : FileCoverage → Float
  unfolding ratio_or_one
  line_coverage_percent c = ratio_or_one c.lines_found c.lines_hit

  unfoldable pub branch_coverage_percent : FileCoverage → Float
  unfolding ratio_or_one
  branch_coverage_percent c = ratio_or_one c.branches_found c.branches_hit

  unfoldable pub generate_summary_line : FileCoverage → Float → Float → Text
  unfolding line_coverage_percent branch_coverage_percent fit_to_column
  generate_summary_line c target_lines target_branch =
      fit_to_column c.file_path 50
      ++ chars " | "
      ++ percent (line_coverage_percent c)
      ++ chars " / "
      ++ percent target_lines
      ++ chars " | "
      ++ percent (branch_coverage_percent c)
      ++ chars " / "
      ++ percent target_branch
