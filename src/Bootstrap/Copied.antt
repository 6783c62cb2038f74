-- ===== src/Bootstrap/Copied.antt =====
-- What `copy_and_template` of bootstrap.py leaves in the destination.
use public_endorsement_servi.Base.{
  ◌≡◌, refl, ap, ◌∙◌, inl, inr, Bool, true, false, ◌||◌, Option, none, some, List, [], ◌∷◌, ◌++◌,
  arith, any_of, if◌then◌else◌, Bool-cases, Text, Dict, Outcome, ok, raised, exited,
}
use public_endorsement_servi.Base.Paths.{FilePath, path_eq, path_eq_iff, has_path}
use public_endorsement_servi.Bootstrap.Templates.{
  Templated, done, syntax_error, undefined_error, failed, Outside, Progress, is_include,
}

-- The text of a file of the destination.
unfoldable pub stored : List (FilePath × Text) → FilePath → Option Text
unfolding path_eq
stored [] q = none
stored ((path, text) ∷ files) q = if path_eq path q then some text else stored files q

-- The files that are templates, in the order of the walk.
unfoldable pub names_in : FilePath → List Text → List FilePath
unfolding is_include
names_in dirpath [] = []
names_in dirpath (filename ∷ filenames) = elim (is_include filename) [
  | true ↦ names_in dirpath filenames
  | false ↦ (dirpath ++ (filename ∷ [])) ∷ names_in dirpath filenames
]

unfoldable pub sources : List (FilePath × List Text) → List FilePath
unfolding names_in
sources [] = []
sources ((dirpath, filenames) ∷ walk) = names_in dirpath filenames ++ sources walk

-- A file whose rendering fails is left empty.
unfoldable pub rendered : Templated Text → Option Text
rendered (done text) = some (text ++ (b'\n' ∷ []))
rendered other = some []

unfoldable pub is_error {ℓ} : {A : Type ℓ} → Templated A → Bool
is_error (done a) = false
is_error other = true

module _ {ℓ} {Template : Type ℓ} (out : Outside Template) (context : Dict Text) where
  -- A file whose template cannot be parsed is left as it was.
  unfoldable pub parsed : Option Text → Templated Template → Option Text
  unfolding rendered
  parsed old (done template) = rendered (out.render template context)
  parsed old other = old

  unfoldable pub read_then : Option Text → Outcome Text → Option Text
  unfolding parsed
  read_then old (ok content) = parsed old (out.from_string content)
  read_then old other = old

  unfoldable pub expected : FilePath → Option Text → Option Text
  unfolding read_then
  expected path old = read_then old (out.read path)

  unfoldable pub fails_parsed : Templated Template → Bool
  unfolding is_error
  fails_parsed (done template) = is_error (out.render template context)
  fails_parsed other = true

  unfoldable pub fails : FilePath → Bool
  unfolding fails_parsed
  fails path = elim (out.read path) [
    | ok content ↦ fails_parsed (out.from_string content)
    | raised e ↦ false
    | exited n ↦ false
  ]

  -- What the paths become between two states, and nothing else.
  pub record Copied (paths : List FilePath) (s t : Progress) : Type 0 where
    pub texts :
        (q : FilePath)
        → stored t.files q
          ≡ (if has_path paths q then expected q (stored s.files q) else stored s.files q)
    pub flag : t.error_occurred ≡ (s.error_occurred || any_of fails paths)

  parsed-twice :
      (old : Option Text) (p : Templated Template) → parsed (parsed old p) p ≡ parsed old p
  unfolding parsed
  parsed-twice old (done template) = refl
  parsed-twice old (syntax_error lineno message) = refl
  parsed-twice old (undefined_error message) = refl
  parsed-twice old (failed e) = refl

  read_then-twice :
      (old : Option Text) (r : Outcome Text) → read_then (read_then old r) r ≡ read_then old r
  unfolding read_then
  read_then-twice old (ok content) = parsed-twice old (out.from_string content)
  read_then-twice old (raised e) = refl
  read_then-twice old (exited n) = refl

  expected-twice :
      (path : FilePath) (old : Option Text) → expected path (expected path old) ≡ expected path old
  unfolding expected
  expected-twice path old = read_then-twice old (out.read path)

  has_path-append :
      (ps qs : List FilePath) (q : FilePath)
      → has_path (ps ++ qs) q ≡ (if has_path ps q then true else has_path qs q)
  unfolding has_path
  has_path-append [] qs q = refl
  has_path-append (p ∷ ps) qs q = elim (Bool-cases (path_eq p q)) [
    | inl y ↦ rw y refl
    | inr n ↦ rw n (has_path-append ps qs q)
  ]

  any_of-append :
      (ps qs : List FilePath) → any_of fails (ps ++ qs) ≡ (any_of fails ps || any_of fails qs)
  any_of-append [] qs = refl
  any_of-append (p ∷ ps) qs = ground (arith, any_of-append ps qs)

  pub Copied-trans :
      (ps qs : List FilePath) (s u t : Progress)
      → Copied ps s u
      → Copied qs u t
      → Copied (ps ++ qs) s t
  Copied-trans ps qs s u t a b = record {
    texts = λ q. elim (Bool-cases (has_path ps q)) [
      | inl y ↦ elim (Bool-cases (has_path qs q)) [
        | inl y' ↦
            rw (has_path-append ps qs q, y)
              (rw y' at (b.texts q)
                ∙ ap (expected q) (rw y at (a.texts q))
                ∙ expected-twice q (stored s.files q))
        | inr n' ↦ rw (has_path-append ps qs q, y) (rw n' at (b.texts q) ∙ rw y at (a.texts q))
      ]
      | inr n ↦
          rw (has_path-append ps qs q, n)
            (b.texts q ∙ ap (λ o. if has_path qs q then expected q o else o) (rw n at (a.texts q)))
    ];
    flag = rw (any_of-append ps qs, b.flag, a.flag) (ground arith);
  }

  -- A path is alone in the list exactly where it is the path asked for.
  pub Copied-one :
      (path : FilePath) (s t : Progress)
      → ((q : FilePath)
          → stored t.files q
            ≡ (if path_eq path q then expected path (stored s.files path) else stored s.files q))
      → t.error_occurred ≡ (s.error_occurred || fails path)
      → Copied (path ∷ []) s t
  unfolding has_path
  Copied-one path s t texts flag = record {
    texts = λ q. elim (Bool-cases (path_eq path q)) [
      | inl y ↦
          rw y
            (rw y at (texts q) ∙ ap (λ p. expected p (stored s.files p)) ((path_eq_iff path q).0 y))
      | inr n ↦ rw n (rw n at (texts q))
    ];
    flag = flag ∙ ground arith;
  }
