-- ===== src/Bootstrap/Pairs.antt =====
-- What the arguments of bootstrap.py have to be for them to be read.
use public_endorsement_servi.Base.{
  ◌≡◌, refl, ap, ◌∙◌, ok-injective, Option, none, some, List, [], ◌∷◌, ◌++◌, All, map, Text, cut,
  Dict, insert, update, Outcome, ok, raised, exited, file_not_found, >>=-eq-ok,
}
use public_endorsement_servi.Base.Splits.{Lacks, cut-append, cut-some}
use public_endorsement_servi.Base.Paths.{FilePath}
use public_endorsement_servi.Bootstrap.Main.{
  with_argument, read_context, joined, templates_root_dir, or_no_template, Args, Tree, read_args,
}

-- key=value
abbrev pub argument_text : Text × Text → Text
argument_text pair = pair.0 ++ (b'=' ∷ pair.1)

-- No key holds a "=".
abbrev pub HavePlainKeys : List (Text × Text) → Type 0
HavePlainKeys pairs = All (λ (pair : Text × Text). Lacks b'=' pair.0) pairs

with_argument-ok :
    (context more : Dict Text) (r : Text × Option Text)
    → with_argument context r ≡ ok more
    → (v : Text) × (r.1 ≡ some v) × (insert r.0 v context ≡ more)
unfolding with_argument
with_argument-ok context more (key, none) e = cc
with_argument-ok context more (key, some value) e = (value, refl, ok-injective _ _ e)

read_context-pairs :
    (context result : Dict Text) (args : List Text)
    → read_context context args ≡ ok result
    → (pairs : List (Text × Text)) × HavePlainKeys pairs
      × (args ≡ map argument_text pairs)
      × (update context pairs ≡ result)
unfolding read_context update
read_context-pairs context result [] e = ([], tt, refl, ok-injective _ _ e)
read_context-pairs context result (arg ∷ args) e =
    let (more, made, rest) = >>=-eq-ok (with_argument context (cut b'=' arg)) _ e in
    let (v, has, eq) = with_argument-ok context more (cut b'=' arg) made in
    let (plain, form) = cut-some b'=' arg v has in
    let (pairs, others, same, out) = read_context-pairs more result args rest in
    (
      ((cut b'=' arg).0, v) ∷ pairs,
      (plain, others),
      cc (form, same),
      ap (λ c. update c pairs) eq ∙ out,
    )

pairs-read_context :
    (context : Dict Text) (pairs : List (Text × Text))
    → HavePlainKeys pairs
    → read_context context (map argument_text pairs) ≡ ok (update context pairs)
unfolding read_context with_argument update
pairs-read_context context [] h = refl
pairs-read_context context ((k, v) ∷ pairs) h =
    rw (cut-append b'=' k v h.0) (pairs-read_context (insert k v context) pairs h.1)

or_no_template-ok :
    (found : Outcome FilePath) (dir : FilePath) → or_no_template found ≡ ok dir → found ≡ ok dir
unfolding or_no_template
or_no_template-ok (ok d) dir e = e
or_no_template-ok (exited n) dir e = cc
or_no_template-ok (raised file_not_found) dir e = cc
or_no_template-ok (raised x) dir e = cc

-- The directory of the template, resolved.
abbrev pub found_template : Tree → Args → Outcome FilePath
found_template tree args =
    tree.resolve_strict
      (tree.resolve (joined (templates_root_dir tree.script_dir args.templates_root) args.template))

pub read_args-pairs :
    (tree : Tree) (args : Args) (context : Dict Text) (dir : FilePath)
    → read_args tree args ≡ ok (context, dir)
    → (pairs : List (Text × Text)) × HavePlainKeys pairs
      × (args.args ≡ map argument_text pairs)
      × (update [] pairs ≡ context)
      × (found_template tree args ≡ ok dir)
unfolding read_args
read_args-pairs tree args context dir e =
    let (c, read, rest) = >>=-eq-ok (read_context [] args.args) _ e in
    let (d, found, last) = >>=-eq-ok (or_no_template (found_template tree args)) _ rest in
    let (pairs, plain, same, out) = read_context-pairs [] c args.args read in
    let both : (c, d) ≡ (context, dir) = ok-injective _ _ last in
    (
      pairs,
      plain,
      same,
      out ∙ ap (λ (r : Dict Text × FilePath). r.0) both,
      or_no_template-ok (found_template tree args) d found
          ∙ ap (λ (r : Dict Text × FilePath). ok r.1) both,
    )

pub pairs-read_args :
    (tree : Tree) (args : Args) (pairs : List (Text × Text)) (dir : FilePath)
    → HavePlainKeys pairs
    → args.args ≡ map argument_text pairs
    → found_template tree args ≡ ok dir
    → read_args tree args ≡ ok (update [] pairs, dir)
unfolding read_args or_no_template
pairs-read_args tree args pairs dir plain same found =
    rw (same, pairs-read_context [] pairs plain, found) refl
