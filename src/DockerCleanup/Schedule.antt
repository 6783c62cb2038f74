-- ===== src/DockerCleanup/Schedule.antt =====
-- What a run of `cleanup_images` of docker_cleanup.py asks the cancellation event, in order, and what
-- has happened by each question: the reference for the cleanup.
use public_endorsement_servi.Base.{
  ℕ, zero, suc, ◌≤◌, ◌≡◌, refl, ap, Option, none, some, List, [], ◌∷◌, arith, Text, take, drop,
  length,
}
use public_endorsement_servi.DockerCleanup.Batches.{batches_of}

-- A question: before the removal of an image, between two polls of the removal that runs, or while
-- the cleanup pauses, before the first batch and after each.
pub data Question : Type 0 where
  begins : Text → Question
  polls : Text → Question
  pauses : Question

unfoldable pub poll_questions : Text → ℕ → List Question → List Question
poll_questions tag zero rest = rest
poll_questions tag (suc n) rest = polls tag ∷ poll_questions tag n rest

-- The questions on one image, if its removal takes n polls, or cannot be started.
unfoldable pub image_questions : Text → Option ℕ → List Question → List Question
unfolding poll_questions
image_questions tag none rest = begins tag ∷ rest
image_questions tag (some n) rest = begins tag ∷ poll_questions tag n rest

module _ (rmi : Text → Option ℕ) where
  -- The questions on the images, where `size` + 1 make a batch and `left` + 1 are left of the current
  -- one: there is a pause after each batch, also where the last one is not full.
  unfoldable pub questions : (size left : ℕ) → List Text → List Question
  unfolding image_questions
  questions size left [] = []
  questions size zero (x ∷ xs) = image_questions x (rmi x) (pauses ∷ questions size size xs)
  questions size (suc left) (x ∷ []) = image_questions x (rmi x) (pauses ∷ [])
  questions size (suc left) (x ∷ y ∷ xs) = image_questions x (rmi x) (questions size left (y ∷ xs))

  unfoldable pub batch_questions : List Text → List Question → List Question
  unfolding image_questions
  batch_questions [] rest = rest
  batch_questions (x ∷ xs) rest = image_questions x (rmi x) (batch_questions xs rest)

  unfoldable pub group_questions : List (List Text) → List Question
  unfolding batch_questions
  group_questions [] = []
  group_questions (batch ∷ groups) = batch_questions batch (pauses ∷ group_questions groups)

  -- The batches of the code make these questions.
  questions-batch :
      (fuel size left : ℕ) (x : Text) (xs : List Text)
      → length xs ≤ fuel
      → ((x' : Text) (xs' : List Text)
          → suc (length xs') ≤ fuel
          → group_questions (batches_of fuel size (x' ∷ xs')) ≡ questions size size (x' ∷ xs'))
      → batch_questions
          (x ∷ take left xs)
          (pauses ∷ group_questions (batches_of fuel size (drop left xs)))
        ≡ questions size left (x ∷ xs)
  unfolding batch_questions questions batches_of group_questions
  questions-batch fuel size zero x [] h ih = refl
  questions-batch fuel size zero x (y ∷ xs) h ih =
      ap (λ q. image_questions x (rmi x) (pauses ∷ q)) (ih y xs (omega arith))
  questions-batch fuel size (suc left) x [] h ih = refl
  questions-batch fuel size (suc left) x (y ∷ xs) h ih =
      ap (λ q. image_questions x (rmi x) q) (questions-batch fuel size left y xs (omega arith) ih)

  pub questions-groups :
      (fuel size : ℕ) (x : Text) (xs : List Text)
      → suc (length xs) ≤ fuel
      → group_questions (batches_of fuel size (x ∷ xs)) ≡ questions size size (x ∷ xs)
  unfolding batches_of group_questions
  questions-groups zero size x xs h = absurd (omega arith)
  questions-groups (suc fuel) size x xs h =
      questions-batch fuel size size x xs (omega arith)
        (λ y ys g. questions-groups fuel size y ys g)

-- The removals that are begun among the questions.
unfoldable pub begun : List Question → List Text
begun [] = []
begun (begins tag ∷ qs) = tag ∷ begun qs
begun (polls tag ∷ qs) = begun qs
begun (pauses ∷ qs) = begun qs

-- The removal that is running where the next question is the first of these.
unfoldable pub running : List Question → List Text
running [] = []
running (begins tag ∷ qs) = []
running (polls tag ∷ qs) = tag ∷ []
running (pauses ∷ qs) = []
