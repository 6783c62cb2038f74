-- ===== src/DockerCleanup/Batches.antt =====
-- `cleanup_images_batch` and `cleanup_images` of docker_cleanup.py.
use public_endorsement_servi.Base.{
  ℕ, zero, suc, Bool, true, false, Option, none, some, List, [], ◌∷◌, ◌++◌, Text, take, drop,
  length, Outcome, ok, raised, value_error, chars, ◌>>=◌,
}
use public_endorsement_servi.Base.Integers.{ℤ, pos, negsuc}

-- The `Event`, seen from this thread: how many more times it answers no, or `none` if nobody ever
-- sets it. Once set, it stays set.
abbrev pub Event : Type 0
Event = Option ℕ

-- cancel_event.is_set(), or cancel_event.wait(timeout)
unfoldable pub ask : Event → Bool × Event
ask none = (false, none)
ask (some zero) = (true, some zero)
ask (some (suc n)) = (false, some n)

-- while proc.poll() is None: the first argument counts the polls that find the process running.
-- The answer tells whether the wait was cancelled.
unfoldable pub wait_for : ℕ → Event → Bool × Event
unfolding ask
wait_for zero e = (false, e)
wait_for (suc polls) e =
    let (set, later) = ask e in elim set [ true ↦ (true, later) | false ↦ wait_for polls later ]

-- What became of one `docker rmi`.
pub data Removal : Type 0 where
  finished : Text → Removal
  terminated : Text → Removal
  not_started : Text → Removal

unfoldable pub tag_of_removal : Removal → Text
tag_of_removal (finished tag) = tag
tag_of_removal (terminated tag) = tag
tag_of_removal (not_started tag) = tag

-- The end of the wait: whether the batch ends here, and the removal.
unfoldable pub end_of_wait : Text → Bool × Event → (Bool × Removal) × Event
end_of_wait tag (true, later) = ((true, terminated tag), later)
end_of_wait tag (false, later) = ((false, finished tag), later)

-- The part of a round after the test of the event; `polls` is `none` if the process cannot be
-- started.
unfoldable pub remove_image : Text → Option ℕ → Event → (Bool × Removal) × Event
unfolding wait_for end_of_wait
remove_image tag none e = ((false, not_started tag), e)
remove_image tag (some polls) e = end_of_wait tag (wait_for polls e)

-- What follows a test of the event, unless it is set.
unfoldable pub unless_set : Bool × Event → (Event → List Removal × Event) → List Removal × Event
unless_set (true, later) go = ([], later)
unless_set (false, later) go = go later

-- What follows one removal, unless it was cancelled.
unfoldable pub unless_ended :
    (Bool × Removal) × Event → (Event → List Removal × Event) → List Removal × Event
unless_ended ((true, removal), after) go = (removal ∷ [], after)
unless_ended ((false, removal), after) go = let rest = go after in (removal ∷ rest.0, rest.1)

-- What follows one batch.
unfoldable pub after_batch :
    List Removal × Event → (Event → List Removal × Event) → List Removal × Event
unfolding ask unless_set
after_batch (removals, after) go =
    let rest = unless_set (ask after) go in (removals ++ rest.0, rest.1)

-- `rmi` says how long the removal of an image runs.
module _ (rmi : Text → Option ℕ) where
  unfoldable pub cleanup_images_batch : List Text → Event → List Removal × Event
  unfolding ask remove_image unless_set unless_ended
  cleanup_images_batch [] e = ([], e)
  cleanup_images_batch (tag ∷ tags) e = unless_set (ask e) (λ later.
      unless_ended (remove_image tag (rmi tag) later) (λ after. cleanup_images_batch tags after))

  -- The loop over the batches.
  unfoldable pub cleanup_batches : List (List Text) → Event → List Removal × Event
  unfolding cleanup_images_batch after_batch
  cleanup_batches [] e = ([], e)
  cleanup_batches (batch ∷ batches) e =
      after_batch (cleanup_images_batch batch e) (λ later. cleanup_batches batches later)

-- all_to_cleanup[i : i + batch_size] for i in range(0, len(all_to_cleanup), batch_size), for a
-- size of suc n. The fuel is the length of the list.
unfoldable pub batches_of : ℕ → ℕ → List Text → List (List Text)
batches_of fuel n [] = []
batches_of zero n (x ∷ xs) = []
batches_of (suc fuel) n (x ∷ xs) = (x ∷ take n xs) ∷ batches_of fuel n (drop n xs)

-- The range with its step: a step of zero is a ValueError, a negative one gives nothing.
unfoldable pub batches : ℤ → List Text → Outcome (List (List Text))
unfolding batches_of
batches (pos zero) images = raised (value_error (chars "range() arg 3 must not be zero"))
batches (pos (suc n)) images = ok (batches_of (length images) n images)
batches (negsuc n) images = ok []

-- `candidates` is what `get_images_to_cleanup` comes to.
unfoldable pub cleanup_images :
    (Text → Option ℕ) → Event → Outcome (List Text) → ℤ → Outcome (List Removal)
unfolding ask batches cleanup_batches
cleanup_images rmi e candidates batch_size =
    let (set, later) = ask e in
    elim set [
      | true ↦ ok []
      | false ↦ candidates >>= λ images.
          batches batch_size images >>= λ groups. ok ((cleanup_batches rmi groups later).0)
    ]
