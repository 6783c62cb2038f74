-- ===== src/Examples/Boot.antt =====
-- The results on bootstrap.py at concrete inputs.
use public_endorsement_servi.Base.{
  ℕ, suc, ◌+◌, ◌≤◌, ◌≡◌, refl, ◌↔◌, none, some, List, [], ◌∷◌, In, any_of, length, get_elem?, Text,
  chars, if◌then◌else◌, ok, starts_with,
}
use public_endorsement_servi.Base.Paths.{FilePath, has_path}
use public_endorsement_servi.Bootstrap.Excerpt.{excerpt_line, excerpt}
use public_endorsement_servi.Bootstrap.Shown.{excerpt-In}
use public_endorsement_servi.Bootstrap.Templates.{done, undefined_error, Outside, copy_and_template}
use public_endorsement_servi.Bootstrap.Copied.{stored, sources, expected, fails}
use public_endorsement_servi.Bootstrap.Walked.{copy_and_template-Copied}
use public_endorsement_servi.Bootstrap.Main.{Args, Tree, main}
use public_endorsement_servi.Bootstrap.Ended.{Succeeds, main-Succeeds_iff}

-- A file whose template needs nothing, and one that needs a variable.
abbrev plain : FilePath
plain = (b'p' ∷ []) ∷ []

abbrev needy : FilePath
needy = (b'n' ∷ []) ∷ []

abbrev out : Outside FilePath
out = record {
  read = λ path. ok (b'x' ∷ []);
  from_string = λ content. done plain;
  render = λ template context. undefined_error (b'v' ∷ []);
  make_directory = λ path. ok tt;
  open_to_write = λ path. ok tt;
  write = λ path text. ok tt;
  copymode = λ path. ok tt;
}

abbrev listing : List (FilePath × List Text)
listing = ([], (b'p' ∷ []) ∷ []) ∷ []

abbrev before : List (FilePath × Text)
before = (plain, b'o' ∷ []) ∷ (needy, b'k' ∷ []) ∷ []

copy_and_template-Copied_example :
    ((q : FilePath)
      → stored ((copy_and_template out [] [] listing before).1).files q ≡ (
          if has_path (sources listing) q
          then expected out [] q (stored before q)
          else stored before q))
    × (((copy_and_template out [] [] listing before).1).error_occurred
        ≡ any_of (fails out []) (sources listing))
unfolding copy_and_template chars starts_with
copy_and_template-Copied_example = copy_and_template-Copied out [] [] listing before refl

abbrev tree : Tree
tree = record {
  script_dir = plain;
  resolve = λ path. path;
  resolve_strict = λ path. ok path;
  listing = λ path. listing;
}

abbrev args : Args
args = record { template = b't' ∷ []; templates_root = none; args = [] }

main-Succeeds_iff_example :
    ((main (λ dir. out) tree args before).0 ≡ ok tt) ↔ Succeeds (λ dir. out) tree args before
main-Succeeds_iff_example = main-Succeeds_iff (λ dir. out) tree args before

excerpt-In_example :
    (length (excerpt 2 ((b'a' ∷ []) ∷ (b'b' ∷ []) ∷ [])) ≤ 7)
    × ((k : ℕ) (line : Text)
        → get_elem? ((b'a' ∷ []) ∷ (b'b' ∷ []) ∷ []) k ≡ some line
        → 2 ≤ suc k + 3
        → suc k ≤ 2 + 3
        → In (excerpt_line 2 (suc k) line) (excerpt 2 ((b'a' ∷ []) ∷ (b'b' ∷ []) ∷ [])))
excerpt-In_example = excerpt-In 2 ((b'a' ∷ []) ∷ (b'b' ∷ []) ∷ [])
