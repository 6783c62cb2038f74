-- ===== src/DockerCleanup/Safe.antt =====
-- What docker_cleanup.py ever removes.
use public_endorsement_servi.Base.{
  ℕ, suc, ◌≡◌, true, false, List, In, In-append_left, subst, contains, Text, ok,
}
use public_endorsement_servi.Base.Integers.{ℤ, pos}
use public_endorsement_servi.DockerBuild.Config.{get_image_prefix}
use public_endorsement_servi.DockerCleanup.Names.{is_allowed}
use public_endorsement_servi.DockerCleanup.Candidates.{get_images}
use public_endorsement_servi.DockerCleanup.Batches.{Event, Removal}
use public_endorsement_servi.DockerCleanup.Kept.{get_images_to_cleanup_iff}
use public_endorsement_servi.DockerCleanup.Cleaned.{handled, cleanup_images-IsPrefix}
use public_endorsement_servi.DockerCleanup.Main.{Surroundings, cleanup, threshold_hours}

-- Where the image prefix can be read and the tags in use are known, a cleanup with a positive batch
-- size returns, whenever it is cancelled and however long the removals run; and each image whose
-- removal it has started is one of those that docker lists under the prefix as older than the
-- threshold, has a name on the allowlist, and is not in use.
pub cleanup-In :
    (around : Surroundings) (event : Event) (n : ℕ) (threshold_days : ℤ) (prefix : Text)
    (tags : List Text)
    → get_image_prefix around.vals around.config ≡ ok prefix
    → around.ignored ≡ ok tags
    → (removals : List Removal) × (cleanup around event (pos (suc n)) threshold_days ≡ ok removals)
      × ((img : Text)
          → In img (handled removals)
          → In img (get_images around.run prefix (threshold_hours threshold_days))
            × (is_allowed img ≡ true)
            × (contains tags img ≡ false))
unfolding cleanup
cleanup-In around event n threshold_days prefix tags read known =
    let (images, found, member) =
      get_images_to_cleanup_iff around.run around.config around.vals prefix tags
        (threshold_hours threshold_days) read in
    let (removals, rest, ran, order) = cleanup_images-IsPrefix around.rmi event images n in
    (
      removals,
      rw (known, found) ran,
      λ img m. (member img).0 (subst (In img) order (In-append_left img (handled removals) rest m)),
    )
