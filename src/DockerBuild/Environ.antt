-- ===== src/DockerBuild/Environ.antt =====
-- `ensure_cloudsdk_python_is_set` of docker/build.py.
use public_endorsement_servi.Base.{
  Bool, Option, none, some, List, [], ◌∷◌, if◌then◌else◌, Text, chars, Dict, lookup, insert,
}

abbrev pub candidates : List Text
candidates = chars "/usr/bin/python3" ∷ chars "/usr/bin/python" ∷ []

unfoldable pub set_to_first : (Text → Bool) → List Text → Dict Text → Dict Text
unfolding insert chars
set_to_first exists [] environ = environ
set_to_first exists (candidate ∷ rest) environ =
    let otherwise = set_to_first exists rest environ in
    if exists candidate then insert (chars "CLOUDSDK_PYTHON") candidate environ else otherwise

unfoldable pub unless_given : Option Text → Dict Text → Dict Text → Dict Text
unless_given (some given) environ updated = environ
unless_given none environ updated = updated

unfoldable pub ensure_cloudsdk_python_is_set : (Text → Bool) → Dict Text → Dict Text
unfolding lookup unless_given set_to_first chars
ensure_cloudsdk_python_is_set exists environ =
    unless_given (lookup (chars "CLOUDSDK_PYTHON") environ) environ
      (set_to_first exists candidates environ)
