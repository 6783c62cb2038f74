-- ===== src/CoverageReport/LcovLines.antt =====
-- What `parse_lcov_data_line` does with each kind of line that lcov writes.
use public_endorsement_servi.Base.{
  ℕ, zero, ◌≡◌, refl, false, [], ◌∷◌, ◌++◌, if◌then◌else◌, Text, chars, text_eq, starts_with,
  remove_all, remove_from, ok, ◌==◌,
}
use public_endorsement_servi.Base.Integers.{pos, int_eq}
use public_endorsement_servi.Base.Decimal.{is_digit, show, show-IsDigits, parse_int-show}
use public_endorsement_servi.Base.Splits.{
  Lacks, split-Lacks, split-append, digits-Lacks, remove_from-Lacks,
}
use public_endorsement_servi.CoverageReport.FileCoverage.{FileCoverage}
use public_endorsement_servi.CoverageReport.Lcov.{
  parse_lcov_data_line, parse_da, parse_brda, int_behind,
}

pub show-Lacks_comma : (n : ℕ) → Lacks b',' (show n)
show-Lacks_comma n = digits-Lacks b',' (show n) refl (show-IsDigits n)

tag_off :
    (d : ℕ) (p : Text) (n : ℕ) → is_digit d ≡ false → remove_from zero (d ∷ p) (show n) ≡ show n
tag_off d p n h = remove_from-Lacks d p (show n) (digits-Lacks d (show n) h (show-IsDigits n))

lf_int : (n : ℕ) → int_behind (chars "LF:") (chars "LF:" ++ show n) ≡ ok (pos n)
unfolding int_behind chars remove_all
lf_int n = rw (tag_off 76 (70 ∷ 58 ∷ []) n refl) (parse_int-show n)

lh_int : (n : ℕ) → int_behind (chars "LH:") (chars "LH:" ++ show n) ≡ ok (pos n)
unfolding int_behind chars remove_all
lh_int n = rw (tag_off 76 (72 ∷ 58 ∷ []) n refl) (parse_int-show n)

brf_int : (n : ℕ) → int_behind (chars "BRF:") (chars "BRF:" ++ show n) ≡ ok (pos n)
unfolding int_behind chars remove_all
brf_int n = rw (tag_off 66 (82 ∷ 70 ∷ 58 ∷ []) n refl) (parse_int-show n)

brh_int : (n : ℕ) → int_behind (chars "BRH:") (chars "BRH:" ++ show n) ≡ ok (pos n)
unfolding int_behind chars remove_all
brh_int n = rw (tag_off 66 (82 ∷ 72 ∷ 58 ∷ []) n refl) (parse_int-show n)

da_int : (n : ℕ) → int_behind (chars "DA:") (chars "DA:" ++ show n) ≡ ok (pos n)
unfolding int_behind chars remove_all
da_int n = rw (tag_off 68 (65 ∷ 58 ∷ []) n refl) (parse_int-show n)

brda_int : (n : ℕ) → int_behind (chars "BRDA:") (chars "BRDA:" ++ show n) ≡ ok (pos n)
unfolding int_behind chars remove_all
brda_int n = rw (tag_off 66 (82 ∷ 68 ∷ 65 ∷ 58 ∷ []) n refl) (parse_int-show n)

module _ (n : ℕ) (c : FileCoverage) where
  -- Each of the four counter lines sets its own counter to the number that it shows and leaves
  -- the other fields as they are.
  pub parse_lcov_data_line-counters :
      (parse_lcov_data_line (chars "LF:" ++ show n) c ≡ ok (record c { lines_found = pos n }))
      × (parse_lcov_data_line (chars "LH:" ++ show n) c ≡ ok (record c { lines_hit = pos n }))
      × (parse_lcov_data_line (chars "BRF:" ++ show n) c ≡ ok (record c { branches_found = pos n }))
      × (parse_lcov_data_line (chars "BRH:" ++ show n) c ≡ ok (record c { branches_hit = pos n }))
  unfolding parse_lcov_data_line starts_with chars
  parse_lcov_data_line-counters = (rw (lf_int n), rw (lh_int n), rw (brf_int n), rw (brh_int n))

int_eq-zero : (n : ℕ) → int_eq (pos n) (pos 0) ≡ (n == 0)
unfolding int_eq
int_eq-zero n = refl

-- A `DA:line,count` line adds the line to the uncovered ones exactly if the count is 0.
pub parse_lcov_data_line-da :
    (n hits : ℕ) (c : FileCoverage)
    → parse_lcov_data_line (chars "DA:" ++ show n ++ (b',' ∷ show hits)) c
      ≡ ok (
          if hits == 0 then record c { uncovered_lines = c.uncovered_lines ++ (pos n ∷ []) } else c)
unfolding parse_lcov_data_line starts_with chars
parse_lcov_data_line-da n hits c = rw (
  split-append b',' (68 ∷ 65 ∷ 58 ∷ show n) (show hits) (refl, (refl, (refl, show-Lacks_comma n))),
  split-Lacks b',' (show hits) (show-Lacks_comma hits),
  da_int n,
  parse_int-show hits,
  int_eq-zero hits,
  parse_da,
)

-- A `BRDA:line,block,branch,taken` line, where `taken` holds no comma, adds the branch to the
-- uncovered ones exactly if `taken` is "-": a branch that was reached and taken 0 times is not added.
pub parse_lcov_data_line-brda :
    (n block branch : ℕ) (taken : Text) (c : FileCoverage)
    → Lacks b',' taken
    → parse_lcov_data_line
        (chars "BRDA:" ++ show n ++ (b',' ∷ show block ++ (b',' ∷ show branch ++ (b',' ∷ taken))))
        c
      ≡ ok (
          if text_eq taken (chars "-")
          then record c {
            uncovered_branches = c.uncovered_branches ++ ((pos n, pos block, pos branch) ∷ []);
          }
          else c)
unfolding parse_lcov_data_line starts_with chars
parse_lcov_data_line-brda n block branch taken c h = rw (
  split-append b',' (66 ∷ 82 ∷ 68 ∷ 65 ∷ 58 ∷ show n)
      (show block ++ (b',' ∷ show branch ++ (b',' ∷ taken)))
      (refl, (refl, (refl, (refl, (refl, show-Lacks_comma n))))),
  split-append b',' (show block) (show branch ++ (b',' ∷ taken)) (show-Lacks_comma block),
  split-append b',' (show branch) taken (show-Lacks_comma branch),
  split-Lacks b',' taken h,
  brda_int n,
  parse_int-show block,
  parse_int-show branch,
  parse_brda,
)
