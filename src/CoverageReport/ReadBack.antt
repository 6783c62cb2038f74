-- ===== src/CoverageReport/ReadBack.antt =====
-- Reports in the format of lcov, read by the parser of coverage_report.py.
use mathlib.Core.List.{reverse, reverse-append}
use public_endorsement_servi.Base.{
  Option, append_assoc, ℕ, ◌≡◌, refl, ap, ◌∙◌, inl, inr, false, none, some, List, [], ◌∷◌, ◌++◌,
  map, All, Bool-cases, Text, chars, is_space, lstrip, strip, starts_with, text_eq, text_eq_iff,
  remove_all, Dict, lookup, insert, lookup-insert, ok,
}
use public_endorsement_servi.CoverageReport.FileCoverage.{FileCoverage, new_coverage}
use public_endorsement_servi.CoverageReport.Lcov.{
  Scan, scan_data, scan_line, scan_lines, parse_lcov,
}
use public_endorsement_servi.CoverageReport.Written.{
  name_lines, IsDatum, IsTestName, strip-tagged, Datum, Section, datum_text, ended, section_lines,
  report_lines, says, all_say, covered_by, strip-ended,
}
use public_endorsement_servi.CoverageReport.DataLines.{
  parse_lcov_data_line-says, datum_text-kind, strip-datum_text,
}

insert-insert :
    (k : Text) (u v : FileCoverage) (d : Dict FileCoverage)
    → insert k u (insert k v d) ≡ insert k u d
unfolding insert
insert-insert k u v [] = rw ((text_eq_iff k k).1 refl) refl
insert-insert k u v ((j, w) ∷ d) = elim (Bool-cases (text_eq j k)) [
  | inl y ↦ rw (y, insert, y) refl
  | inr n ↦ rw (n, insert, n, insert-insert k u v d) refl
]

lookup-inserted :
    (k : Text) (v : FileCoverage) (d : Dict FileCoverage) → lookup k (insert k v d) ≡ some v
lookup-inserted k v d = rw (lookup-insert k k v d, (text_eq_iff k k).1 refl) refl

abbrev at_path : Text → FileCoverage → Dict FileCoverage → Scan
at_path path c d = record { coverage_data = insert path c d; current_file_path = some path }

scan_line-other :
    (text : Text) (s : Scan)
    → starts_with text (chars "SF:") ≡ false
    → text_eq text (chars "end_of_record") ≡ false
    → scan_line text s ≡ scan_data text s
unfolding scan_line
scan_line-other text s header end = rw (header, end) refl

scan_data-says :
    (z : ℕ) (path : Text) (c : FileCoverage) (d : Dict FileCoverage) (datum : Datum)
    → scan_data (datum_text datum) (at_path (z ∷ path) c d)
      ≡ ok (at_path (z ∷ path) (says datum c) d)
unfolding scan_data
scan_data-says z path c d datum =
    rw
      (
        scan_data,
        lookup-inserted (z ∷ path) c d,
        parse_lcov_data_line-says datum c,
        insert-insert (z ∷ path) (says datum c) c d,
      )
      refl

-- One data line for the current file.
scan_line-says :
    (z : ℕ) (path : Text) (c : FileCoverage) (d : Dict FileCoverage) (datum : Datum)
    → IsDatum datum
    → scan_line (strip (ended (datum_text datum))) (at_path (z ∷ path) c d)
      ≡ ok (at_path (z ∷ path) (says datum c) d)
scan_line-says z path c d datum plain =
    let s = at_path (z ∷ path) c d in
    let (header, end) = datum_text-kind datum in
    ap (λ text. scan_line text s) (strip-datum_text datum plain)
    ∙ scan_line-other (datum_text datum) s header end
    ∙ scan_data-says z path c d datum

scan_lines-all_say :
    (z : ℕ) (path : Text) (c : FileCoverage) (d : Dict FileCoverage) (ds : List Datum)
    (rest : List Text)
    → All IsDatum ds
    → scan_lines (map (λ x. ended (datum_text x)) ds ++ rest) (at_path (z ∷ path) c d)
      ≡ scan_lines rest (at_path (z ∷ path) (all_say ds c) d)
unfolding scan_lines all_say
scan_lines-all_say z path c d [] rest plain = refl
scan_lines-all_say z path c d (datum ∷ ds) rest plain =
    rw (scan_line-says z path c d datum plain.0)
      (scan_lines-all_say z path (says datum c) d ds rest plain.1)

-- A path that a section can name: it does not end with white space, so it is not empty, and "SF:" is
-- nowhere in it.
unfoldable pub EndsWithSolid : Text → Type 0
EndsWithSolid [] = ⊥
EndsWithSolid (c ∷ s) = is_space c ≡ false

unfoldable pub IsPath : Text → Type 0
unfolding EndsWithSolid
IsPath path = EndsWithSolid (reverse path) × (remove_all (chars "SF:") path ≡ path)

lstrip-append : (s t : Text) → EndsWithSolid s → lstrip (s ++ t) ≡ s ++ t
unfolding EndsWithSolid lstrip
lstrip-append [] t h = absurd h
lstrip-append (c ∷ s) t h = rw h refl

strip-header :
    (path : Text)
    → EndsWithSolid (reverse path)
    → strip (ended (chars "SF:" ++ path)) ≡ chars "SF:" ++ path
unfolding chars
strip-header path h = strip-ended 83 (70 ∷ 58 ∷ path) refl (
    rw (reverse-append (83 ∷ 70 ∷ 58 ∷ []) path)
      (lstrip-append (reverse path) (58 ∷ 70 ∷ 83 ∷ []) h))

remove-header :
    (path : Text)
    → remove_all (chars "SF:") path ≡ path
    → remove_all (chars "SF:") (chars "SF:" ++ path) ≡ path
unfolding chars remove_all
remove-header path h = h

scan_header :
    (path : Text) (s : Scan)
    → IsPath path
    → scan_line (strip (ended (chars "SF:" ++ path))) s
      ≡ ok (at_path path (new_coverage path) s.coverage_data)
unfolding scan_line IsPath chars starts_with
scan_header path s (solid, plain) = rw (strip-header path solid, remove-header path plain) refl

scan_end :
    (s : Scan)
    → scan_line (strip (ended (chars "end_of_record"))) s
      ≡ ok (record { coverage_data = s.coverage_data; current_file_path = none })
unfolding scan_line chars strip lstrip ended starts_with text_eq
scan_end s = refl

abbrev outside : Dict FileCoverage → Scan
outside d = record { coverage_data = d; current_file_path = none }

-- The line with the name of a test, outside of a section.
scan_lines-name :
    (name : Option Text) (rest : List Text) (d : Dict FileCoverage)
    → IsTestName name
    → scan_lines (name_lines name ++ rest) (outside d) ≡ scan_lines rest (outside d)
unfolding name_lines scan_lines IsTestName chars scan_line scan_data starts_with text_eq
scan_lines-name none rest d h = refl
scan_lines-name (some name) rest d h = rw (strip-tagged 84 (78 ∷ []) name refl h) refl

-- A section that can be written: its path, and texts that do not end with white space.
unfoldable pub IsSection : Section → Type 0
unfolding IsPath IsTestName IsDatum
IsSection section =
    IsPath section.path × IsTestName section.test_name × All IsDatum section.data_lines

-- One section, from its header to its end.
scan_lines-section :
    (path : Text) (ds : List Datum) (rest : List Text) (s : Scan)
    → IsPath path
    → All IsDatum ds
    → scan_lines
        (ended (chars "SF:" ++ path)
          ∷ ((map (λ d. ended (datum_text d)) ds ++ (ended (chars "end_of_record") ∷ [])) ++ rest))
        s
      ≡ scan_lines rest (outside (insert path (all_say ds (new_coverage path)) s.coverage_data))
unfolding scan_lines IsPath EndsWithSolid
scan_lines-section [] ds rest s h plain = absurd h.0
scan_lines-section (z ∷ path) ds rest s h plain =
    let c = new_coverage (z ∷ path) in
    let end = ended (chars "end_of_record") in
    rw (scan_header (z ∷ path) s h) (
      ap (λ l. scan_lines l (at_path (z ∷ path) c s.coverage_data))
        (append_assoc (map (λ x. ended (datum_text x)) ds) (end ∷ []) rest)
      ∙ scan_lines-all_say z path c s.coverage_data ds (end ∷ rest) plain
      ∙ rw (scan_end (at_path (z ∷ path) (all_say ds c) s.coverage_data)) refl)

scan_lines-report :
    (sections : List Section) (d : Dict FileCoverage)
    → All IsSection sections
    → scan_lines (report_lines sections) (outside d) ≡ ok (outside (covered_by sections d))
unfolding report_lines section_lines covered_by scan_lines IsSection
scan_lines-report [] d h = refl
scan_lines-report (section ∷ sections) d h =
    let head = ended (chars "SF:" ++ section.path) in
    let body = map (λ x. ended (datum_text x)) section.data_lines in
    let end = ended (chars "end_of_record") ∷ [] in
    ap (λ l. scan_lines l (outside d))
      (append_assoc (name_lines section.test_name) (head ∷ (body ++ end)) (report_lines sections))
    ∙ scan_lines-name section.test_name ((head ∷ (body ++ end)) ++ report_lines sections) d h.0.1
    ∙ scan_lines-section section.path section.data_lines (report_lines sections) (outside d) h.0.0
        h.0.2
    ∙ scan_lines-report sections
        (insert section.path (all_say section.data_lines (new_coverage section.path)) d) h.1

-- Reading a report gives what it says: a dictionary with the files of the sections, each with the
-- counters that its section shows, the lines without a hit, and the branches of blocks that were not
-- reached, in order; a later section of a path takes the place of an earlier one. The report consists
-- of sections: a TN line or none, an SF line, lines LF, LH, BRF, BRH, DA without a checksum, BRDA, FN,
-- FNDA, FNF, FNH and BA in any order, and end_of_record. No name, path or free text ends with white
-- space, and no path has "SF:" in it.
pub parse_lcov-report_lines :
    (sections : List Section)
    → All IsSection sections
    → parse_lcov (report_lines sections) ≡ ok (covered_by sections [])
unfolding parse_lcov
parse_lcov-report_lines sections h = rw (scan_lines-report sections [] h) refl
