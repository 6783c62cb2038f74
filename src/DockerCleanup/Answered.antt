-- ===== src/DockerCleanup/Answered.antt =====
-- `cleanup_images` of docker_cleanup.py, with an event that is set at some question.
use public_endorsement_servi.Base.{
  ℕ, zero, suc, ◌≡◌, refl, ap, ◌∙◌, Option, none, some, List, [], ◌∷◌, ◌++◌, arith, Text, take,
  drop, length, ok,
}
use public_endorsement_servi.Base.Integers.{pos}
use public_endorsement_servi.DockerCleanup.Batches.{
  Event, ask, wait_for, Removal, finished, terminated, not_started, end_of_wait, remove_image,
  tag_of_removal, unless_set, unless_ended, after_batch, cleanup_images_batch, cleanup_batches,
  batches_of, batches, cleanup_images,
}
use public_endorsement_servi.DockerCleanup.Cleaned.{handled}
use public_endorsement_servi.DockerCleanup.Schedule.{
  Question, pauses, poll_questions, image_questions, questions, batch_questions, group_questions,
  questions-groups, begun, running,
}

-- The images whose removal was terminated.
unfoldable pub cut_short : List Removal → List Text
cut_short [] = []
cut_short (finished tag ∷ rs) = cut_short rs
cut_short (terminated tag ∷ rs) = tag ∷ cut_short rs
cut_short (not_started tag ∷ rs) = cut_short rs

-- The first n questions of `qs` are answered with no: what was begun by then was handled, and what
-- was running then was terminated.
unfoldable pub Follows : ℕ → List Question → List Removal → Type 0
Follows n qs out = (handled out ≡ begun (take n qs)) × (cut_short out ≡ running (drop n qs))

-- A part of the cleanup, with what comes behind it where the event is as the part leaves it.
abbrev with_rest : List Removal × Event → (Event → List Removal) → List Removal
with_rest r behind = r.0 ++ behind r.1

module _ (behind : Event → List Removal) (nothing_more : behind (some zero) ≡ []) where
  -- The wait for a removal, and what follows it.
  polls-Follows :
      (tag : Text) (n m : ℕ) (qs : List Question) (go : Event → List Removal × Event)
      → ((k : ℕ) → Follows k qs (with_rest (go (some k)) behind))
      → (handled (with_rest (unless_ended (end_of_wait tag (wait_for n (some m))) go) behind)
          ≡ tag ∷ begun (take m (poll_questions tag n qs)))
        × (cut_short (with_rest (unless_ended (end_of_wait tag (wait_for n (some m))) go) behind)
            ≡ running (drop m (poll_questions tag n qs)))
  unfolding wait_for ask end_of_wait unless_ended handled cut_short tag_of_removal poll_questions
      begun running Follows
  polls-Follows tag zero m qs go h = let (a, b) = h m in (ap (λ l. tag ∷ l) a, b)
  polls-Follows tag (suc n) zero qs go h = rw nothing_more (refl, refl)
  polls-Follows tag (suc n) (suc m) qs go h = polls-Follows tag n m qs go h

  image-Follows :
      (tag : Text) (run : Option ℕ) (m : ℕ) (qs : List Question) (go : Event → List Removal × Event)
      → ((k : ℕ) → Follows k qs (with_rest (go (some k)) behind))
      → Follows m (image_questions tag run qs) (
          with_rest
            (unless_set (ask (some m)) (λ later. unless_ended (remove_image tag run later) go))
            behind)
  unfolding Follows ask unless_set remove_image unless_ended image_questions begun running handled
      cut_short tag_of_removal
  image-Follows tag none zero qs go h = rw nothing_more (refl, refl)
  image-Follows tag (some n) zero qs go h = rw nothing_more (refl, refl)
  image-Follows tag none (suc m) qs go h = let (a, b) = h m in (ap (λ l. tag ∷ l) a, b)
  image-Follows tag (some n) (suc m) qs go h = polls-Follows tag n m qs go h

  batch-Follows :
      (rmi : Text → Option ℕ) (xs : List Text) (m : ℕ) (qs : List Question)
      → ((k : ℕ) → Follows k qs (behind (some k)))
      → Follows m
          (batch_questions rmi xs qs)
          (with_rest (cleanup_images_batch rmi xs (some m)) behind)
  unfolding cleanup_images_batch batch_questions
  batch-Follows rmi [] m qs h = h m
  batch-Follows rmi (x ∷ xs) m qs h =
      image-Follows x (rmi x) m (batch_questions rmi xs qs)
        (λ after. cleanup_images_batch rmi xs after) (λ k. batch-Follows rmi xs k qs h)

after_batch-first :
    (r : List Removal × Event) (go : Event → List Removal × Event)
    → (after_batch r go).0 ≡ r.0 ++ (unless_set (ask r.1) go).0
unfolding after_batch
after_batch-first (rs, after) go = refl

-- The pause, and what follows it.
pause-Follows :
    (m : ℕ) (qs : List Question) (go : Event → List Removal × Event)
    → ((k : ℕ) → Follows k qs (go (some k)).0)
    → Follows m (pauses ∷ qs) (unless_set (ask (some m)) go).0
unfolding Follows unless_set ask begun running handled cut_short
pause-Follows zero qs go h = (refl, refl)
pause-Follows (suc m) qs go h = h m

nothing_after : (go : Event → List Removal × Event) → (unless_set (ask (some zero)) go).0 ≡ []
unfolding unless_set ask
nothing_after go = refl

groups-Follows :
    (rmi : Text → Option ℕ) (groups : List (List Text)) (m : ℕ)
    → Follows m (group_questions rmi groups) (cleanup_batches rmi groups (some m)).0
unfolding cleanup_batches group_questions
groups-Follows rmi [] zero = unfold Follows handled cut_short begun running in (refl, refl)
groups-Follows rmi [] (suc m) = unfold Follows handled cut_short begun running in (refl, refl)
groups-Follows rmi (batch ∷ groups) m =
    let go = λ (later : Event). cleanup_batches rmi groups later in
    rw (after_batch-first (cleanup_images_batch rmi batch (some m)) go) (
      batch-Follows (λ after. (unless_set (ask after) go).0) (nothing_after go) rmi batch m
        (pauses ∷ group_questions rmi groups)
        (λ k. pause-Follows k (group_questions rmi groups) go (λ j. groups-Follows rmi groups j)))

-- Where the event answers n questions with no and is set from then on: with a positive batch size,
-- the cleanup returns. Of the questions that it asks where it is never cancelled, the first n decide
-- what it does: the removals that it has begun by then are those that it handles, in order, and the
-- removal that is running then, if there is one, is the only one that it terminates.
pub cleanup_images-Follows :
    (rmi : Text → Option ℕ) (n : ℕ) (images : List Text) (size : ℕ)
    → (removals : List Removal) × (cleanup_images rmi (some n) (ok images) (pos (suc size))
        ≡ ok removals)
      × (handled removals ≡ begun (take n (pauses ∷ questions rmi size size images)))
      × (cut_short removals ≡ running (drop n (pauses ∷ questions rmi size size images)))
unfolding cleanup_images cleanup_batches ask batches batches_of Follows handled cut_short begun
    running questions
cleanup_images-Follows rmi zero images size = ([], refl, refl, refl)
cleanup_images-Follows rmi (suc n) [] size =
    let (a, b) = groups-Follows rmi [] n in
    ([], refl, unfold group_questions in a, unfold group_questions in b)
cleanup_images-Follows rmi (suc n) (x ∷ xs) size =
    let groups = batches_of (suc (length xs)) size (x ∷ xs) in
    let (a, b) = groups-Follows rmi groups n in
    let same = questions-groups rmi (suc (length xs)) size x xs (omega arith) in
    (
      (cleanup_batches rmi groups (some n)).0,
      refl,
      a ∙ ap (λ q. begun (take n q)) same,
      b ∙ ap (λ q. running (drop n q)) same,
    )
