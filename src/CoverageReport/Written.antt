-- ===== src/CoverageReport/Written.antt =====
-- Reports in the format of lcov, and what they say: the reference for the parser of
-- coverage_report.py.
use mathlib.Core.List.{reverse, reverse-append, reverse-reverse}
use public_endorsement_servi.Base.{
  ℕ, ◌≡◌, refl, ◌==◌, false, Option, none, some, List, [], ◌∷◌, ◌++◌, map, All, arith,
  if◌then◌else◌, Text, chars, is_space, lstrip, strip, Dict, insert,
}
use public_endorsement_servi.Base.Integers.{pos}
use public_endorsement_servi.Base.Decimal.{show, show-IsDigits, IsDigits}
use public_endorsement_servi.CoverageReport.FileCoverage.{FileCoverage, new_coverage}

-- The lines that are there and that the parser has no use for: a function and where it begins, how
-- often it was called, how many functions there are and how many were hit, and the branches of gcov.
pub data Other : Type 0 where
  fn fnda fnf fnh ba : Other

unfoldable pub other_tag : Other → Text
unfolding chars
other_tag fn = chars "FN:"
other_tag fnda = chars "FNDA:"
other_tag fnf = chars "FNF:"
other_tag fnh = chars "FNH:"
other_tag ba = chars "BA:"

-- The data lines of a section: the four counters, the hits of a line, how often a branch was taken,
-- if its block was reached at all, and the other lines.
pub data Datum : Type 0 where
  found_lines hit_lines found_branches hit_branches : ℕ → Datum
  line_hits : (number hits : ℕ) → Datum
  branch_hits : (number block id : ℕ) → (taken : Option ℕ) → Datum
  other_line : Other → Text → Datum

pub record Section : Type 0 where
  pub test_name : Option Text
  pub path : Text
  pub data_lines : List Datum

unfoldable pub taken_text : Option ℕ → Text
taken_text none = b'-' ∷ []
taken_text (some n) = show n

unfoldable pub datum_text : Datum → Text
unfolding chars taken_text other_tag
datum_text (found_lines n) = chars "LF:" ++ show n
datum_text (hit_lines n) = chars "LH:" ++ show n
datum_text (found_branches n) = chars "BRF:" ++ show n
datum_text (hit_branches n) = chars "BRH:" ++ show n
datum_text (line_hits number hits) = chars "DA:" ++ show number ++ (b',' ∷ show hits)
datum_text (branch_hits number block id taken) =
    chars "BRDA:"
    ++ show number
    ++ (b',' ∷ show block ++ (b',' ∷ show id ++ (b',' ∷ taken_text taken)))
datum_text (other_line kind text) = other_tag kind ++ text

unfoldable pub ended : Text → Text
ended text = text ++ (b'\n' ∷ [])

-- The line with the name of the test, if there is one.
unfoldable pub name_lines : Option Text → List Text
unfolding ended chars
name_lines none = []
name_lines (some name) = ended (chars "TN:" ++ name) ∷ []

unfoldable pub section_lines : Section → List Text
unfolding ended datum_text name_lines chars
section_lines section =
    name_lines section.test_name
    ++ ended (chars "SF:" ++ section.path)
      ∷ (map (λ d. ended (datum_text d)) section.data_lines ++ (ended (chars "end_of_record") ∷ []))

unfoldable pub report_lines : List Section → List Text
unfolding section_lines
report_lines [] = []
report_lines (section ∷ sections) = section_lines section ++ report_lines sections

-- What a data line says of the file.
unfoldable pub says : Datum → FileCoverage → FileCoverage
says (found_lines n) c = record c { lines_found = pos n }
says (hit_lines n) c = record c { lines_hit = pos n }
says (found_branches n) c = record c { branches_found = pos n }
says (hit_branches n) c = record c { branches_hit = pos n }
says (line_hits number hits) c =
    if hits == 0 then record c { uncovered_lines = c.uncovered_lines ++ (pos number ∷ []) } else c
says (branch_hits number block id none) c = record c {
  uncovered_branches = c.uncovered_branches ++ ((pos number, pos block, pos id) ∷ []);
}
says (branch_hits number block id (some n)) c = c
says (other_line kind text) c = c

unfoldable pub all_say : List Datum → FileCoverage → FileCoverage
unfolding says
all_say [] c = c
all_say (d ∷ ds) c = all_say ds (says d c)

-- A later section of a path takes the place of an earlier one.
unfoldable pub covered_by : List Section → Dict FileCoverage → Dict FileCoverage
unfolding all_say new_coverage insert
covered_by [] d = d
covered_by (section ∷ sections) d =
    covered_by sections
      (insert section.path (all_say section.data_lines (new_coverage section.path)) d)

-- A text that does not end with white space, from behind.
unfoldable pub EndsPlainly : Text → Type 0
EndsPlainly [] = Unit
EndsPlainly (c ∷ s) = is_space c ≡ false

-- The free text of a line, if it has one, does not end with white space.
unfoldable pub IsDatum : Datum → Type 0
unfolding EndsPlainly
IsDatum (other_line kind text) = EndsPlainly (reverse text)
IsDatum d = Unit

unfoldable pub IsTestName : Option Text → Type 0
unfolding EndsPlainly
IsTestName none = Unit
IsTestName (some name) = EndsPlainly (reverse name)

-- No character is white space.
abbrev pub Solid : Text → Type 0
Solid = All (λ c. is_space c ≡ false)

pub Solid-append : (s t : Text) → Solid s → Solid t → Solid (s ++ t)
Solid-append [] t h k = k
Solid-append (c ∷ s) t h k = (h.0, Solid-append s t h.1 k)

digits-Solid : (s : Text) → IsDigits s → Solid s
digits-Solid [] h = tt
digits-Solid (c ∷ s) h = (ground arith, digits-Solid s h.1)

pub show-Solid : (n : ℕ) → Solid (show n)
show-Solid n = digits-Solid (show n) (show-IsDigits n)

reverse-Solid : (s : Text) → Solid s → Solid (reverse s)
reverse-Solid [] h = tt
reverse-Solid (c ∷ s) h =
    rw (reverse-append (c ∷ []) s)
      (Solid-append (reverse s) (c ∷ []) (reverse-Solid s h.1) (h.0, tt))

lstrip-Solid : (s : Text) → Solid s → lstrip s ≡ s
unfolding lstrip
lstrip-Solid [] h = refl
lstrip-Solid (c ∷ s) h = rw h.0 refl

-- A line is stripped of its end.
pub strip-ended :
    (c : ℕ) (s : Text)
    → is_space c ≡ false
    → lstrip (reverse (c ∷ s)) ≡ reverse (c ∷ s)
    → strip (ended (c ∷ s)) ≡ c ∷ s
unfolding strip lstrip ended
strip-ended c s first last =
    rw (first, reverse-append (c ∷ s) (b'\n' ∷ []), last) (reverse-reverse (c ∷ s))

pub strip-Solid : (c : ℕ) (s : Text) → Solid (c ∷ s) → strip (ended (c ∷ s)) ≡ c ∷ s
strip-Solid c s h = strip-ended c s h.0 (lstrip-Solid (reverse (c ∷ s)) (reverse-Solid (c ∷ s) h))

lstrip-plain :
    (s : Text) (c : ℕ) (t : Text)
    → EndsPlainly s
    → is_space c ≡ false
    → lstrip (s ++ (c ∷ t)) ≡ s ++ (c ∷ t)
unfolding EndsPlainly lstrip
lstrip-plain [] c t h k = rw k refl
lstrip-plain (d ∷ s) c t h k = rw h refl

-- A tag, a colon and a text that does not end with white space.
pub strip-tagged :
    (c : ℕ) (tag text : Text)
    → is_space c ≡ false
    → EndsPlainly (reverse text)
    → strip (ended ((c ∷ tag ++ (b':' ∷ [])) ++ text)) ≡ (c ∷ tag ++ (b':' ∷ [])) ++ text
strip-tagged c tag text first h = strip-ended c ((tag ++ (b':' ∷ [])) ++ text) first (
    rw (reverse-append (c ∷ tag ++ (b':' ∷ [])) text, reverse-append (c ∷ tag) (b':' ∷ []))
      (lstrip-plain (reverse text) b':' (reverse (c ∷ tag)) h refl))
