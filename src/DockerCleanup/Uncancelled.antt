-- ===== src/DockerCleanup/Uncancelled.antt =====
-- `cleanup_images` of docker_cleanup.py where nobody sets the event.
use public_endorsement_servi.Base.{
  ℕ, zero, suc, ◌≡◌, refl, sym, ◌∙◌, inl, inr, Bool, true, false, Option, none, some, List, [], ◌∷◌,
  ◌++◌, arith, Text, length, flatten, ok,
}
use public_endorsement_servi.Base.Integers.{pos}
use public_endorsement_servi.DockerCleanup.Batches.{
  Event, ask, wait_for, Removal, remove_image, end_of_wait, unless_set, unless_ended, after_batch,
  cleanup_images_batch, cleanup_batches, batches_of, batches, cleanup_images,
}
use public_endorsement_servi.DockerCleanup.Cleaned.{
  handled, handled-append, IsStopped, batch-IsStopped, flatten-batches_of,
}

wait_for-never : (polls : ℕ) → wait_for polls none ≡ (false, none)
unfolding wait_for ask
wait_for-never zero = refl
wait_for-never (suc polls) = wait_for-never polls

remove_image-never :
    (tag : Text) (run : Option ℕ)
    → ((remove_image tag run none).0.0 ≡ false) × ((remove_image tag run none).1 ≡ none)
unfolding remove_image end_of_wait
remove_image-never tag none = (refl, refl)
remove_image-never tag (some polls) = rw (wait_for-never polls) (refl, refl)

unless_ended-never :
    (r : (Bool × Removal) × Event) (go : Event → List Removal × Event)
    → r.0.0 ≡ false
    → r.1 ≡ none
    → (go none).1 ≡ none
    → (unless_ended r go).1 ≡ none
unfolding unless_ended
unless_ended-never ((true, removal), after) go f e h = cc
unless_ended-never ((false, removal), after) go f e h = rw (e) h

batch-never :
    (rmi : Text → Option ℕ) (tags : List Text) → (cleanup_images_batch rmi tags none).1 ≡ none
unfolding cleanup_images_batch ask unless_set
batch-never rmi [] = refl
batch-never rmi (tag ∷ tags) =
    let (f, e) = remove_image-never tag (rmi tag) in
    unless_ended-never (remove_image tag (rmi tag) none)
      (λ after. cleanup_images_batch rmi tags after) f e (batch-never rmi tags)

after_batch-never :
    (r : List Removal × Event) (go : Event → List Removal × Event) (batch tags : List Text)
    → IsStopped batch r
    → r.1 ≡ none
    → handled (go none).0 ≡ tags
    → handled (after_batch r go).0 ≡ batch ++ tags
unfolding after_batch IsStopped unless_set ask
after_batch-never (rs, after) go batch tags (inl e) never h =
    rw (never, handled-append rs (go none).0, e, h) refl
after_batch-never (rs, after) go batch tags (inr (left, e, stop)) never h =
    let bad : none ≡ some zero = sym never ∙ stop in cc

cleanup_batches-never :
    (rmi : Text → Option ℕ) (groups : List (List Text))
    → handled (cleanup_batches rmi groups none).0 ≡ flatten groups
unfolding cleanup_batches handled
cleanup_batches-never rmi [] = refl
cleanup_batches-never rmi (batch ∷ groups) =
    after_batch-never (cleanup_images_batch rmi batch none)
      (λ later. cleanup_batches rmi groups later) batch (flatten groups)
      (batch-IsStopped rmi batch none) (batch-never rmi batch) (cleanup_batches-never rmi groups)

-- With an event that nobody sets, all the candidates are handled, in order.
pub cleanup_images-uncancelled :
    (rmi : Text → Option ℕ) (images : List Text) (n : ℕ)
    → (removals : List Removal) × (cleanup_images rmi none (ok images) (pos (suc n)) ≡ ok removals)
      × (handled removals ≡ images)
unfolding cleanup_images ask batches
cleanup_images-uncancelled rmi images n =
    let groups = batches_of (length images) n images in
    (
      (cleanup_batches rmi groups none).0,
      refl,
      cleanup_batches-never rmi groups ∙ flatten-batches_of (length images) n images (omega arith),
    )
