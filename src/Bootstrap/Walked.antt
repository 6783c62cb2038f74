-- ===== src/Bootstrap/Walked.antt =====
-- The walk of `copy_and_template` in bootstrap.py makes what is expected of each template.
use public_endorsement_servi.Base.{
  ◌≡◌, refl, sym, ap, inl, inr, true, ◌||◌, Option, some, List, [], ◌∷◌, ◌++◌, arith, any_of,
  if◌then◌else◌, Bool-cases, Text, Dict, Outcome, ok, raised, exited,
}
use public_endorsement_servi.Base.Paths.{FilePath, path_eq, path_eq_iff, has_path}
use public_endorsement_servi.Bootstrap.Templates.{
  Templated, done, syntax_error, undefined_error, failed, Outside, Progress, Step, put, started,
  and_then, is_include, or_report, render_file, template_file, continue_with, template_names,
  template_walk, copy_and_template,
}
use public_endorsement_servi.Bootstrap.Copied.{
  stored, names_in, sources, rendered, is_error, parsed, read_then, expected, fails_parsed, fails,
  Copied, Copied-trans, Copied-one,
}

module _ {ℓ} {Template : Type ℓ} (out : Outside Template) (src_dir : FilePath)
    (context : Dict Text) where
  -- If the step goes on, it has made what is expected of the paths.
  IsCopy : List FilePath → Progress → Step → Type 0
  IsCopy paths s r = r.0 ≡ ok tt → Copied out context paths s r.1

  and_then-IsCopy {κ} :
      {A : Type κ} (paths : List FilePath) (s t : Progress) (r : Outcome A) (next : A → Step)
      → ((a : A) → r ≡ ok a → IsCopy paths s (next a))
      → IsCopy paths s (and_then r t next)
  unfolding and_then IsCopy
  and_then-IsCopy paths s t (ok a) next h = h a refl
  and_then-IsCopy paths s t (raised e) next h = λ k. cc
  and_then-IsCopy paths s t (exited n) next h = λ k. cc

  read-expected :
      (path : FilePath) (content : Text) (p : Templated Template) (old : Option Text)
      → out.read path ≡ ok content
      → out.from_string content ≡ p
      → expected out context path old ≡ parsed out context old p
  unfolding expected read_then
  read-expected path content p old r e = rw (r, read_then, e) refl

  read-fails :
      (path : FilePath) (content : Text) (p : Templated Template)
      → out.read path ≡ ok content
      → out.from_string content ≡ p
      → fails out context path ≡ fails_parsed out context p
  unfolding fails
  read-fails path content p r e = rw (r, fails, e) refl

  module _ (path : FilePath) (content : Text) (s : Progress)
      (there : out.read path ≡ ok content) where
    -- A new text for the path.
    put-Copied :
        (template : Template) (r : Templated Text) (text : Text) (t : Progress)
        → out.from_string content ≡ done template
        → out.render template context ≡ r
        → rendered r ≡ some text
        → t.files ≡ (path, text) ∷ s.files
        → t.error_occurred ≡ (s.error_occurred || is_error r)
        → Copied out context (path ∷ []) s t
    unfolding stored parsed fails_parsed
    put-Copied template r text t parse render same files flag =
        Copied-one out context path s t
          (λ q.
            rw
              (
                files,
                read-expected path content (done template) (stored s.files path) there parse,
                render,
                same,
              )
              refl)
          (rw (flag, read-fails path content (done template) there parse, render) refl)

    render-IsCopy :
        (template : Template) (r : Templated Text)
        → out.from_string content ≡ done template
        → out.render template context ≡ r
        → IsCopy (path ∷ []) s (
            or_report (src_dir ++ path) content r (put path [] s) (λ text.
              and_then (out.write path (text ++ (b'\n' ∷ []))) (put path [] s) (λ _.
                and_then
                  (out.copymode path)
                  (put path (text ++ (b'\n' ∷ [])) s)
                  (λ _. (ok tt, put path (text ++ (b'\n' ∷ [])) s)))))
    unfolding or_report IsCopy rendered is_error
    render-IsCopy template (done text) parse render =
        and_then-IsCopy (path ∷ []) s (put path [] s) (out.write path (text ++ (b'\n' ∷ []))) _
          (λ _ w.
            and_then-IsCopy (path ∷ []) s (put path (text ++ (b'\n' ∷ [])) s) (out.copymode path) _
              (λ _ c k.
                put-Copied template (done text) (text ++ (b'\n' ∷ []))
                  (put path (text ++ (b'\n' ∷ [])) s) parse render refl refl (ground arith)))
    render-IsCopy template (syntax_error lineno message) parse render = λ k.
        put-Copied template (syntax_error lineno message) [] _ parse render refl refl (ground arith)
    render-IsCopy template (undefined_error message) parse render = λ k.
        put-Copied template (undefined_error message) [] _ parse render refl refl (ground arith)
    render-IsCopy template (failed e) parse render = λ k. cc

    -- Nothing is written where the template cannot be parsed.
    unparsed-Copied :
        (p : Templated Template) (t : Progress)
        → out.from_string content ≡ p
        → ((old : Option Text) → parsed out context old p ≡ old)
        → fails_parsed out context p ≡ true
        → t.files ≡ s.files
        → t.error_occurred ≡ true
        → Copied out context (path ∷ []) s t
    unparsed-Copied p t parse kept bad files flag =
        Copied-one out context path s t
          (λ q. elim (Bool-cases (path_eq path q)) [
            | inl y ↦
                rw
                  (
                    y,
                    files,
                    read-expected path content p (stored s.files path) there parse,
                    kept (stored s.files path),
                  )
                  (sym (ap (stored s.files) ((path_eq_iff path q).0 y)))
            | inr n ↦ rw (n, files) refl
          ])
          (rw (flag, read-fails path content p there parse, bad) (ground arith))

    parse-IsCopy :
        (p : Templated Template)
        → out.from_string content ≡ p
        → IsCopy (path ∷ []) s (
            or_report
              (src_dir ++ path)
              content
              p
              s
              (λ template. render_file out src_dir context path content template s))
    unfolding or_report render_file IsCopy parsed fails_parsed
    parse-IsCopy (done template) parse =
        and_then-IsCopy (path ∷ []) s s (out.open_to_write path) _
          (λ _ opened. render-IsCopy template (out.render template context) parse refl)
    parse-IsCopy (syntax_error lineno message) parse =
        λ k. unparsed-Copied (syntax_error lineno message) _ parse (λ old. refl) refl refl refl
    parse-IsCopy (undefined_error message) parse =
        λ k. unparsed-Copied (undefined_error message) _ parse (λ old. refl) refl refl refl
    parse-IsCopy (failed e) parse = λ k. cc

  template_file-IsCopy :
      (path : FilePath) (s : Progress)
      → IsCopy (path ∷ []) s (template_file out src_dir context path s)
  unfolding template_file
  template_file-IsCopy path s = and_then-IsCopy (path ∷ []) s s (out.make_directory _) _ (λ _ made.
      and_then-IsCopy (path ∷ []) s s (out.read path) _
        (λ content there. parse-IsCopy path content s there (out.from_string content) refl))

  continue_with-IsCopy :
      (ps qs : List FilePath) (s : Progress) (r : Step) (next : Progress → Step)
      → IsCopy ps s r
      → ((t : Progress) → IsCopy qs t (next t))
      → IsCopy (ps ++ qs) s (continue_with out src_dir context r next)
  unfolding continue_with IsCopy
  continue_with-IsCopy ps qs s (ok tt, u) next first rest =
      λ k. Copied-trans out context ps qs s u _ (first refl) (rest u k)
  continue_with-IsCopy ps qs s (raised e, u) next first rest = λ k. cc
  continue_with-IsCopy ps qs s (exited n, u) next first rest = λ k. cc

  nothing-Copied : (s : Progress) → Copied out context [] s s
  unfolding has_path
  nothing-Copied s = record { texts = λ q. refl; flag = ground arith }

  template_names-IsCopy :
      (dirpath : FilePath) (filenames : List Text) (s : Progress)
      → IsCopy
          (names_in dirpath filenames)
          s
          (template_names out src_dir context dirpath filenames s)
  unfolding template_names names_in IsCopy
  template_names-IsCopy dirpath [] s = λ k. nothing-Copied s
  template_names-IsCopy dirpath (filename ∷ filenames) s = elim (Bool-cases (is_include filename)) [
    | inl y ↦ rw (y, template_names, names_in) (template_names-IsCopy dirpath filenames s)
    | inr n ↦
        rw (n, template_names, names_in)
          (continue_with-IsCopy ((dirpath ++ (filename ∷ [])) ∷ []) (names_in dirpath filenames) s
            (template_file out src_dir context (dirpath ++ (filename ∷ [])) s)
            (λ t. template_names out src_dir context dirpath filenames t)
            (template_file-IsCopy (dirpath ++ (filename ∷ [])) s)
            (template_names-IsCopy dirpath filenames))
  ]

  template_walk-IsCopy :
      (walk : List (FilePath × List Text)) (s : Progress)
      → IsCopy (sources walk) s (template_walk out src_dir context walk s)
  unfolding template_walk sources IsCopy
  template_walk-IsCopy [] s = λ k. nothing-Copied s
  template_walk-IsCopy ((dirpath, filenames) ∷ walk) s =
      continue_with-IsCopy (names_in dirpath filenames) (sources walk) s
        (template_names out src_dir context dirpath filenames s)
        (λ t. template_walk out src_dir context walk t) (template_names-IsCopy dirpath filenames s)
        (template_walk-IsCopy walk)

  -- Where no exception ends the copy: each file of the walk that is no include holds its rendered
  -- template and a newline; it is empty if the rendering failed, and as it was before if the
  -- template could not be parsed. Every other file is as before. The flag is set exactly if one of
  -- the templates could not be parsed or rendered.
  pub copy_and_template-Copied :
      (walk : List (FilePath × List Text)) (files : List (FilePath × Text))
      → (copy_and_template out src_dir context walk files).0 ≡ ok tt
      → let r = (copy_and_template out src_dir context walk files).1 in
        ((q : FilePath)
          → stored r.files q ≡ (
              if has_path (sources walk) q
              then expected out context q (stored files q)
              else stored files q))
        × (r.error_occurred ≡ any_of (fails out context) (sources walk))
  unfolding copy_and_template IsCopy
  copy_and_template-Copied walk files e =
      let inv = template_walk-IsCopy walk (started files) e in (inv.texts, inv.flag)
