-- ===== src/DockerRun/ReadBack.antt =====
-- What `path_from_env` of docker_run.py makes of a path that a script has printed.
use public_endorsement_servi.Base.{
  ◌≡◌, refl, ap, ◌∙◌, ◌≢◌, some, [], ◌∷◌, ◌++◌, All, Text, chars, text_eq, text_eq_iff, split, Dict,
  lookup, Bool-cases, inl, inr,
}
use public_endorsement_servi.Base.Splits.{Lacks, split-Lacks, split-append}
use public_endorsement_servi.Base.Paths.{FilePath, path_text, kept_parts, read_path}
use public_endorsement_servi.DockerRun.Settings.{given_or, path_from_env}

-- A part of a path: it is not empty, not "." and has no "/".
unfoldable pub IsPart : Text → Type 0
IsPart part = Lacks b'/' part × (part ≢ []) × (part ≢ chars ".")

-- A printed path is a "/" and the parts with "/" between them.
slashed :
    (a : Text) (path : FilePath)
    → All IsPart (a ∷ path)
    → (t : Text) × (path_text (a ∷ path) ≡ b'/' ∷ t) × (split b'/' t ≡ a ∷ path)
unfolding path_text IsPart
slashed a [] ((lacks, given, dot), tt) = (a, refl, split-Lacks b'/' a lacks)
slashed a (b ∷ path) ((lacks, given, dot), rest) =
    let (t, printed, parts) = slashed b path rest in
    (a ++ (b'/' ∷ t), rw printed refl, rw (split-append b'/' a t lacks, parts) refl)

kept_parts-All : (path : FilePath) → All IsPart path → kept_parts path ≡ path
unfolding kept_parts IsPart
kept_parts-All [] h = refl
kept_parts-All ([] ∷ path) ((lacks, given, dot), rest) = absurd (given refl)
kept_parts-All ((c ∷ part) ∷ path) ((lacks, given, dot), rest) =
    elim (Bool-cases (text_eq (c ∷ part) (chars "."))) [
      | inl y ↦ absurd (dot ((text_eq_iff (c ∷ part) (chars ".")).0 y))
      | inr n ↦ rw (n, kept_parts-All path rest) refl
    ]

read_path-path_text : (path : FilePath) → All IsPart path → read_path (path_text path) ≡ path
unfolding read_path path_text kept_parts split
read_path-path_text [] h = refl
read_path-path_text (a ∷ path) h =
    let (t, printed, parts) = slashed a path h in
    rw printed (ap kept_parts parts ∙ kept_parts-All (a ∷ path) h)

-- A variable that holds a printed absolute path, none of whose parts is empty or "." or has a "/",
-- is read as that path, whatever the default is.
pub path_from_env-path_text :
    (environ : Dict Text) (env_var : Text) (default path : FilePath)
    → All IsPart path
    → lookup env_var environ ≡ some (path_text path)
    → path_from_env environ env_var default ≡ path
unfolding path_from_env given_or path_text
path_from_env-path_text environ env_var default [] parts e = rw e (read_path-path_text [] parts)
path_from_env-path_text environ env_var default (a ∷ path) parts e =
    let (t, printed, split_up) = slashed a path parts in
    rw (e, printed) (rw printed at (read_path-path_text (a ∷ path) parts))
