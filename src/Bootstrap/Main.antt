-- ===== src/Bootstrap/Main.antt =====
-- `main` of bootstrap.py.
use public_endorsement_servi.Base.{
  Option, none, some, List, [], ◌∷◌, ◌++◌, ◌==◌, if◌then◌else◌, Text, chars, cut, split, Dict,
  insert, Outcome, ok, raised, exited, file_not_found, ◌>>=◌,
}
use public_endorsement_servi.Base.Integers.{pos}
use public_endorsement_servi.Base.Paths.{FilePath, kept_parts}
use public_endorsement_servi.ExternalMounts.FileSystem.{parent}
use public_endorsement_servi.Bootstrap.Templates.{Outside, Step, started, copy_and_template}

-- What follows the "=" of an argument, if there is one.
unfoldable pub with_argument : Dict Text → Text × Option Text → Outcome (Dict Text)
unfolding insert
with_argument context (key, none) = exited (pos 1)
with_argument context (key, some value) = ok (insert key value context)

-- for arg in args.args
unfoldable pub read_context : Dict Text → List Text → Outcome (Dict Text)
unfolding with_argument cut
read_context context [] = ok context
read_context context (arg ∷ args) =
    with_argument context (cut b'=' arg) >>= λ more. read_context more args

-- root / template, where `root` is absolute: an absolute template stands for itself.
unfoldable pub joined : FilePath → Text → FilePath
unfolding kept_parts split
joined root [] = root
joined root (c ∷ template) =
    if c == b'/'
    then kept_parts (split b'/' template)
    else root ++ kept_parts (split b'/' (c ∷ template))

-- script_dir.parent / "templates"
unfoldable pub templates_root_dir : FilePath → Option FilePath → FilePath
unfolding parent
templates_root_dir script_dir none = parent script_dir ++ (chars "templates" ∷ [])
templates_root_dir script_dir (some templates_root) = templates_root

-- except FileNotFoundError
unfoldable pub or_no_template : Outcome FilePath → Outcome FilePath
or_no_template (raised file_not_found) = exited (pos 1)
or_no_template found = found

pub record Args : Type 0 where
  pub template : Text
  pub templates_root : Option FilePath
  pub args : List Text

-- What there is besides the files: the directory of the script, the two forms of `resolve`, and the
-- walk of a directory.
pub record Tree : Type 0 where
  pub script_dir : FilePath
  pub resolve : FilePath → FilePath
  pub resolve_strict : FilePath → Outcome FilePath
  pub listing : FilePath → List (FilePath × List Text)

-- What is known before anything is written: the context and the directory of the template.
unfoldable pub read_args : Tree → Args → Outcome (Dict Text × FilePath)
unfolding read_context or_no_template joined templates_root_dir
read_args tree args = read_context [] args.args >>= λ context.
    or_no_template (
      tree.resolve_strict (
        tree.resolve
          (joined (templates_root_dir tree.script_dir args.templates_root) args.template)))
    >>= λ template_dir. ok (context, template_dir)

-- The flag, or any exception, ends the process with status 1.
unfoldable pub conclude : Step → Step
conclude (ok _, s) = ((if s.error_occurred then exited (pos 1) else ok tt), s)
conclude (raised e, s) = (exited (pos 1), s)
conclude (exited n, s) = (exited n, s)

module _ {ℓ} {Template : Type ℓ} (out : FilePath → Outside Template) (tree : Tree) where
  -- `out` is what the outside does for a template directory; `files` is what the output directory
  -- holds before.
  unfoldable pub main : Args → List (FilePath × Text) → Step
  unfolding read_args conclude copy_and_template
  main args files = elim (read_args tree args) [
    | raised e ↦ (raised e, started files)
    | exited n ↦ (exited n, started files)
    | ok found ↦
        conclude (copy_and_template (out found.1) found.1 found.0 (tree.listing found.1) files)
  ]
