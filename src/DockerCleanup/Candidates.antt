-- ===== src/DockerCleanup/Candidates.antt =====
-- `get_images`, `get_ignored_images` and `get_images_to_cleanup` of docker_cleanup.py.
use public_endorsement_servi.Base.{
  ℕ, not, Option, List, [], ◌∷◌, ◌++◌, if◌then◌else◌, filter_by, Text, chars, contains, split,
  strip, Outcome, ok, raised, exited, Completed, ended, not_found, ◌>>=◌,
}
use public_endorsement_servi.Base.Integers.{ℤ, pos, int_eq}
use public_endorsement_servi.Base.Decimal.{show_int}
use public_endorsement_servi.Base.Json.{Json}
use public_endorsement_servi.Base.Paths.{FilePath}
use public_endorsement_servi.DockerBuild.Builder.{DockerBuilder}
use public_endorsement_servi.DockerBuild.Config.{Values, get_image_prefix}
use public_endorsement_servi.DockerBuild.Tags.{Outside, calculate_tags}
use public_endorsement_servi.DockerCleanup.Names.{filter_allowed_images}

-- get_all_docker_image_tags of docker/build.py; `loaded` is what the constructor comes to.
unfoldable pub get_all_docker_image_tags :
    Outside → List FilePath → ℕ → Outcome DockerBuilder → List Text → Outcome (List Text)
unfolding calculate_tags
get_all_docker_image_tags out search_paths depth loaded target_images =
    loaded >>= λ builder. calculate_tags out search_paths builder depth target_images

-- Any exception is caught; `sys.exit` is no Exception and goes on.
unfoldable pub get_ignored_images : Outcome (List Text) → Outcome (List Text)
get_ignored_images (ok images) = ok images
get_ignored_images (raised e) = ok []
get_ignored_images (exited n) = exited n

unfoldable pub images_cmd : Text → ℤ → List Text
unfolding show_int
images_cmd image_prefix threshold_hours =
    chars "docker"
    ∷ chars "images"
    ∷ chars "--filter"
    ∷ (chars "reference=" ++ image_prefix ++ chars "/*")
    ∷ chars "--filter"
    ∷ (chars "until=" ++ show_int threshold_hours ++ chars "h")
    ∷ chars "--format"
    ∷ chars "{{.Repository}}:{{.Tag}}"
    ∷ []

-- `splitlines` on what `strip` leaves, for lines that end in "\n".
unfoldable pub lines_of : Text → List Text
unfolding split
lines_of [] = []
lines_of (c ∷ s) = split b'\n' (c ∷ s)

-- The output of the command; if it fails, no images.
unfoldable pub listed_images : Completed → List Text
unfolding strip lines_of
listed_images not_found = []
listed_images (ended returncode stdout stderr) =
    if int_eq returncode (pos 0) then lines_of (strip stdout) else []

unfoldable pub get_images : (List Text → Completed) → Text → ℤ → List Text
unfolding images_cmd listed_images
get_images run image_prefix threshold_hours =
    listed_images (run (images_cmd image_prefix threshold_hours))

-- [img for img in allowed_images if img not in ignored_set]
unfoldable pub not_ignored : List Text → List Text → List Text
unfolding contains
not_ignored ignored images = filter_by (λ img. not (contains ignored img)) images

-- `ignored` is what `get_all_docker_image_tags` comes to, if it is called.
unfoldable pub from_allowed : Outcome (List Text) → List Text → Outcome (List Text)
unfolding get_ignored_images not_ignored
from_allowed ignored [] = ok []
from_allowed ignored (img ∷ allowed) =
    get_ignored_images ignored >>= λ tags. ok (not_ignored tags (img ∷ allowed))

unfoldable pub get_images_to_cleanup :
    (List Text → Completed)
    → Option (Outcome Json)
    → Values
    → Outcome (List Text)
    → ℤ
    → Outcome (List Text)
unfolding get_image_prefix get_images filter_allowed_images from_allowed
get_images_to_cleanup run config vals ignored threshold_hours = do
  image_prefix ← get_image_prefix vals config
  from_allowed ignored (filter_allowed_images (get_images run image_prefix threshold_hours))
