-- ===== src/CoverageReport/Missing.antt =====
-- The second part of the report of coverage_report.py: the missing coverage.
use public_endorsement_servi.Base.{
  ◌≡◌, refl, sym, ◌∙◌, ◌↔◌, inl, inr, true, false, List, [], ◌∷◌, ◌++◌, All, Bool-cases, List-cases,
  Text, chars,
}
use public_endorsement_servi.CoverageReport.FileCoverage.{
  FileCoverage, generate_missing_coverage_report, is_fully_covered, missing_parts,
}
use public_endorsement_servi.CoverageReport.Report.{missing_reports, missing_section}

uncovered_report :
    (c : FileCoverage)
    → is_fully_covered c ≡ false
    → generate_missing_coverage_report c
      ≡ 10 ∷ (chars "File: " ++ c.file_path ++ (10 ∷ []) ++ missing_parts c)
unfolding generate_missing_coverage_report
uncovered_report c e = rw (e, generate_missing_coverage_report)

missing_reports-covered :
    (c : FileCoverage) (cs : List FileCoverage)
    → is_fully_covered c ≡ true
    → missing_reports (c ∷ cs) ≡ missing_reports cs
unfolding missing_reports
missing_reports-covered c cs e = rw (e, missing_reports)

missing_reports-uncovered :
    (c : FileCoverage) (cs : List FileCoverage)
    → is_fully_covered c ≡ false
    → missing_reports (c ∷ cs) ≡ generate_missing_coverage_report c ∷ missing_reports cs
unfolding missing_reports
missing_reports-uncovered c cs e = rw (e, missing_reports)

-- No uncovered line and no uncovered branch.
abbrev pub NothingMissing : FileCoverage → Type 0
NothingMissing c = (c.uncovered_lines ≡ []) × (c.uncovered_branches ≡ [])

is_fully_covered-NothingMissing :
    (c : FileCoverage) → (is_fully_covered c ≡ true) ↔ NothingMissing c
unfolding is_fully_covered
is_fully_covered-NothingMissing c = (
  λ h. elim (List-cases c.uncovered_lines) [
    | inr (n, ns, e) ↦ let bad : false ≡ true = rw (e, is_fully_covered) at h in cc
    | inl e ↦ elim (List-cases c.uncovered_branches) [
      | inr (b, bs, e') ↦ let bad : false ≡ true = rw (e, e', is_fully_covered) at h in cc
      | inl e' ↦ (e, e')
    ]
  ],
  λ (e, e'). rw (e, e', is_fully_covered) refl,
)

missing_reports-nil : (cs : List FileCoverage) → (missing_reports cs ≡ []) ↔ All NothingMissing cs
unfolding missing_reports
missing_reports-nil [] = (λ h. tt, λ h. refl)
missing_reports-nil (c ∷ cs) =
    let ih = missing_reports-nil cs in
    elim (Bool-cases (is_fully_covered c)) [
      | inl e ↦ (
        λ h. (
          (is_fully_covered-NothingMissing c).0 e,
          ih.0 (sym (missing_reports-covered c cs e) ∙ h),
        ),
        λ h. missing_reports-covered c cs e ∙ ih.1 h.1,
      )
      | inr e ↦ (
        λ h.
            let clash : generate_missing_coverage_report c ∷ missing_reports cs ≡ [] =
              sym (missing_reports-uncovered c cs e) ∙ h in
            cc,
        λ h. let f : is_fully_covered c ≡ true = (is_fully_covered-NothingMissing c).1 h.0 in cc,
      )
    ]

-- A printed report begins with a line break.
missing_reports-cons :
    (cs : List FileCoverage) (r : Text) (rest : List Text)
    → missing_reports cs ≡ r ∷ rest
    → (t : Text) × (r ≡ 10 ∷ t)
unfolding missing_reports
missing_reports-cons [] r rest e = cc
missing_reports-cons (c ∷ cs) r rest e = elim (Bool-cases (is_fully_covered c)) [
  | inl y ↦ missing_reports-cons cs r rest (sym (missing_reports-covered c cs y) ∙ e)
  | inr n ↦ (
    chars "File: " ++ c.file_path ++ (10 ∷ []) ++ missing_parts c,
    cc (sym (missing_reports-uncovered c cs n) ∙ e, uncovered_report c n),
  )
]

-- "All covered!" is all that the second part prints exactly if every file has no uncovered line
-- and no uncovered branch.
pub missing_section_iff :
    (cs : List FileCoverage)
    → (missing_section cs ≡ chars "All covered!" ∷ [])
      ↔ All (λ c. (c.uncovered_lines ≡ []) × (c.uncovered_branches ≡ [])) cs
unfolding missing_section chars
missing_section_iff cs = elim (List-cases (missing_reports cs)) [
  | inl none_missing ↦
      (λ h. (missing_reports-nil cs).0 none_missing, λ h. rw (none_missing, missing_section))
  | inr (r, rest, e) ↦ (
    λ h.
        let (t, begins) = missing_reports-cons cs r rest e in
        let shown : r ∷ rest ≡ chars "All covered!" ∷ [] = rw (e, missing_section) at h in cc,
    λ h. let none_missing : missing_reports cs ≡ [] = (missing_reports-nil cs).1 h in cc,
  )
]
