-- ===== src/Bootstrap/Templates.antt =====
-- `copy_and_template` of bootstrap.py. jinja2 and the file system are a parameter.
use mathlib.Core.List.{reverse}
use public_endorsement_servi.Base.{
  ℕ, Bool, true, false, List, [], ◌∷◌, ◌++◌, starts_with, Text, chars, Dict, Outcome, ok, raised,
  exited, Exn,
}
use public_endorsement_servi.Base.Decimal.{show}
use public_endorsement_servi.Base.Paths.{FilePath, path_text}
use public_endorsement_servi.ExternalMounts.FileSystem.{parent}
use public_endorsement_servi.Bootstrap.Excerpt.{splitlines, excerpt}

-- What jinja2 comes to: a result, one of the two errors that are reported, or any other exception.
pub data Templated {ℓ} (A : Type ℓ) : Type ℓ where
  done : A → Templated A
  syntax_error : (lineno : ℕ) → (message : Text) → Templated A
  undefined_error : (message : Text) → Templated A
  failed : Exn → Templated A

-- The paths are relative to the two directories. A file is written in full or the write raises.
pub record Outside {ℓ} (Template : Type ℓ) : Type ℓ where
  pub read : FilePath → Outcome Text
  pub from_string : Text → Templated Template
  pub render : Template → Dict Text → Templated Text
  pub make_directory : FilePath → Outcome (Unit {0})
  pub open_to_write : FilePath → Outcome (Unit {0})
  pub write : FilePath → Text → Outcome (Unit {0})
  pub copymode : FilePath → Outcome (Unit {0})

-- The files of the destination, the last one written first; what this function printed; and
-- the flag.
pub record Progress : Type 0 where
  pub files : List (FilePath × Text)
  pub printed : List Text
  pub error_occurred : Bool

abbrev pub Step : Type 0
Step = Outcome (Unit {0}) × Progress

abbrev pub put : FilePath → Text → Progress → Progress
put path text s = record {
  files = (path, text) ∷ s.files;
  printed = s.printed;
  error_occurred = s.error_occurred;
}

abbrev pub report : List Text → Progress → Progress
report lines s = record { files = s.files; printed = s.printed ++ lines; error_occurred = true }

abbrev pub started : List (FilePath × Text) → Progress
started files = record { files = files; printed = []; error_occurred = false }

-- What follows an action of the file system.
unfoldable pub and_then {ℓ} : {A : Type ℓ} → Outcome A → Progress → (A → Step) → Step
and_then (ok a) s next = next a
and_then (raised e) s next = (raised e, s)
and_then (exited n) s next = (exited n, s)

-- filename.endswith(".include")
unfoldable pub is_include : Text → Bool
unfolding starts_with
is_include filename = starts_with (reverse filename) (reverse (chars ".include"))

-- The two `except` clauses; any other exception leaves the function.
unfoldable pub or_report {ℓ} :
    {A : Type ℓ} → FilePath → Text → Templated A → Progress → (A → Step) → Step
unfolding path_text show splitlines excerpt
or_report src content (done a) s next = next a
or_report src content (syntax_error lineno message) s next = (
  ok tt,
  report
      ((chars "Error in template: " ++ path_text src)
        ∷ (chars "  Line " ++ show lineno ++ chars ": " ++ message)
        ∷ excerpt lineno (splitlines content))
      s,
)
or_report src content (undefined_error message) s next = (
  ok tt,
  report ((chars "Error in template: " ++ path_text src) ∷ (chars "  " ++ message) ∷ []) s,
)
or_report src content (failed e) s next = (raised e, s)

module _ {ℓ} {Template : Type ℓ} (out : Outside Template) (src_dir : FilePath)
    (context : Dict Text) where
  -- Opening the destination empties it; then the template is rendered and written.
  unfoldable pub render_file : FilePath → Text → Template → Progress → Step
  unfolding and_then or_report
  render_file path content template s = and_then (out.open_to_write path) s (λ _.
      or_report (src_dir ++ path) content (out.render template context) (put path [] s) (λ text.
        and_then (out.write path (text ++ (b'\n' ∷ []))) (put path [] s) (λ _.
          and_then (out.copymode path) (put path (text ++ (b'\n' ∷ [])) s)
            (λ _. (ok tt, put path (text ++ (b'\n' ∷ [])) s)))))

  -- The body of the inner loop, for a file that is no include.
  unfoldable pub template_file : FilePath → Progress → Step
  unfolding parent and_then or_report render_file
  template_file path s = and_then (out.make_directory (parent path)) s (λ _.
      and_then (out.read path) s (λ content.
        or_report (src_dir ++ path) content (out.from_string content) s
          (λ template. render_file path content template s)))

  -- What follows one file: an exception ends the loops.
  unfoldable pub continue_with : Step → (Progress → Step) → Step
  continue_with (ok _, s) next = next s
  continue_with (raised e, s) next = (raised e, s)
  continue_with (exited n, s) next = (exited n, s)

  -- for filename in filenames
  unfoldable pub template_names : FilePath → List Text → Progress → Step
  unfolding is_include template_file continue_with
  template_names dirpath [] s = (ok tt, s)
  template_names dirpath (filename ∷ filenames) s = elim (is_include filename) [
    | true ↦ template_names dirpath filenames s
    | false ↦
        continue_with (template_file (dirpath ++ (filename ∷ [])) s)
          (λ t. template_names dirpath filenames t)
  ]

  -- for dirpath, _, filenames in os.walk(src_dir)
  unfoldable pub template_walk : List (FilePath × List Text) → Progress → Step
  unfolding template_names continue_with
  template_walk [] s = (ok tt, s)
  template_walk ((dirpath, filenames) ∷ walk) s =
      continue_with (template_names dirpath filenames s) (λ t. template_walk walk t)

  -- `walk` is what os.walk lists, with the paths from the source directory on, and `files` what the
  -- destination holds before. The flag that is returned stands in the result.
  unfoldable pub copy_and_template : List (FilePath × List Text) → List (FilePath × Text) → Step
  unfolding template_walk
  copy_and_template walk files = template_walk walk (started files)
