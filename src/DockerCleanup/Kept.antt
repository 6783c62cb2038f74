-- ===== src/DockerCleanup/Kept.antt =====
-- What docker_cleanup.py offers for removal: `get_images_to_cleanup` against the listing, the
-- allowlist and the images in use.
use public_endorsement_servi.Base.{
  ◌≡◌, refl, ◌↔◌, true, false, Option, List, [], ◌∷◌, arith, In, Text, contains, Outcome, Completed,
  ok, In-filter_by, not,
}
use public_endorsement_servi.Base.Integers.{ℤ}
use public_endorsement_servi.Base.Json.{Json}
use public_endorsement_servi.DockerBuild.Config.{Values, get_image_prefix}
use public_endorsement_servi.DockerCleanup.Names.{is_allowed, filter_allowed_images}
use public_endorsement_servi.DockerCleanup.Candidates.{
  get_ignored_images, get_images, not_ignored, from_allowed, get_images_to_cleanup,
}

In-not_ignored :
    (ignored : List Text) (img : Text) (images : List Text)
    → In img (not_ignored ignored images) ↔ (In img images × (contains ignored img ≡ false))
unfolding not_ignored
In-not_ignored ignored img images =
    let both = In-filter_by (λ i. not (contains ignored i)) img images in
    (λ h. let (m, n) = both.0 h in (m, ground (arith, n)), λ (m, n). both.1 (m, rw (n) refl))

from_allowed-In :
    (tags allowed : List Text)
    → (images : List Text) × (from_allowed (ok tags) allowed ≡ ok images)
      × ((img : Text) → In img images ↔ (In img allowed × (contains tags img ≡ false)))
unfolding from_allowed get_ignored_images
from_allowed-In tags [] = ([], refl, λ img. (λ h. absurd h, λ h. absurd h.0))
from_allowed-In tags (a ∷ allowed) =
    (not_ignored tags (a ∷ allowed), refl, λ img. In-not_ignored tags img (a ∷ allowed))

-- Where the image prefix can be read and the tags in use are `tags`, the candidates for removal are
-- the listed images under that prefix whose name is on the allowlist, without those in use.
pub get_images_to_cleanup_iff :
    (run : List Text → Completed) (config : Option (Outcome Json)) (vals : Values) (prefix : Text)
    (tags : List Text) (hours : ℤ)
    → get_image_prefix vals config ≡ ok prefix
    → (images : List Text) × (get_images_to_cleanup run config vals (ok tags) hours ≡ ok images)
      × ((img : Text)
          → In img images ↔ (
              In img (get_images run prefix hours)
              × (is_allowed img ≡ true)
              × (contains tags img ≡ false)))
unfolding get_images_to_cleanup filter_allowed_images
get_images_to_cleanup_iff run config vals prefix tags hours h =
    let listed = get_images run prefix hours in
    let (images, e, member) = from_allowed-In tags (filter_allowed_images listed) in
    (
      images,
      rw (h, e) refl,
      λ img. (
        λ i.
            let (m, n) = (member img).0 i in
            let (l, a) = (In-filter_by is_allowed img listed).0 m in (l, a, n),
        λ (l, a, n). (member img).1 ((In-filter_by is_allowed img listed).1 (l, a), n),
      ),
    )
