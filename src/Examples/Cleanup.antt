-- ===== src/Examples/Cleanup.antt =====
-- The results on docker_cleanup.py, container_event_handler.py and bep.py at concrete inputs.
use public_endorsement_servi.Base.Decimal.{parse_int}
use public_endorsement_servi.Base.{
  strip, cut, sym, ◌∙◌, ok-injective, ◌⊎◌, ℕ, ◌≡◌, refl, ◌↔◌, inl, true, false, Option, none, some,
  List, [], ◌∷◌, ◌++◌, In, Text, map, flatten, contains, chars, replicate, ok, raised, Outcome,
  other_error, if◌then◌else◌, Completed, ended,
}
use public_endorsement_servi.Base.Integers.{ℤ, pos, int_le}
use public_endorsement_servi.DockerBuild.Config.{Values, get_image_prefix}
use public_endorsement_servi.DockerBuild.Builder.{Settings}
use public_endorsement_servi.DockerBuild.Tags.{get_image_tag}
use public_endorsement_servi.DockerCleanup.Names.{is_hash, is_allowed, match_image}
use public_endorsement_servi.DockerCleanup.Candidates.{get_images, get_images_to_cleanup}
use public_endorsement_servi.DockerCleanup.Batches.{Removal, cleanup_images}
use public_endorsement_servi.DockerCleanup.Kept.{get_images_to_cleanup_iff}
use public_endorsement_servi.DockerCleanup.Cleaned.{handled}
use public_endorsement_servi.DockerCleanup.Schedule.{
  begun, running, questions, image_questions, poll_questions,
}
use public_endorsement_servi.DockerCleanup.Answered.{cut_short, cleanup_images-Follows}
use public_endorsement_servi.DockerCleanup.Uncancelled.{cleanup_images-uncancelled}
use public_endorsement_servi.DockerCleanup.TagNames.{IsNamespace, match_image-get_image_tag}
use public_endorsement_servi.DockerCleanup.Main.{Surroundings, cleanup, threshold_hours}
use public_endorsement_servi.DockerCleanup.Safe.{cleanup-In}
use public_endorsement_servi.ContainerEvents.Cancel
use public_endorsement_servi.ContainerEvents.Cancel.{
  accepting, receiving, left, silent, speaks, finished, Threads, listener_step, cancel_step,
  listens, cancels, here, next, start_container_event_handler,
}
use public_endorsement_servi.ContainerEvents.Quiet.{Reach-left}
use public_endorsement_servi.BuildEvents.{output_file, output_file-append}
use public_endorsement_servi.ContainerEvents.Listener.{listen}
use public_endorsement_servi.ContainerEvents.Resilient.{
  event_messages, received_turn, listen-events,
}

abbrev images : List Text
images = (b'x' ∷ []) ∷ (b'y' ∷ []) ∷ (b'z' ∷ []) ∷ []

-- The second removal takes five polls.
abbrev durations : Text → Option ℕ
durations tag = some 5

cleanup_images-uncancelled_example :
    (removals : List Removal) × (cleanup_images durations none (ok images) (pos 2) ≡ ok removals)
    × (handled removals ≡ images)
cleanup_images-uncancelled_example = cleanup_images-uncancelled durations images 1

abbrev values : Values
values = record { number_truth = λ t. true; str_of = λ j. [] }

-- A listing of one image.
abbrev docker_images : List Text → Completed
docker_images cmd = ended (pos 0) (b'x' ∷ []) []

get_images_to_cleanup_iff_example :
    (candidates : List Text) × (get_images_to_cleanup docker_images none values (ok []) (pos 168)
      ≡ ok candidates)
    × ((img : Text)
        → In img candidates ↔ (
            In img (get_images docker_images (chars "devkit") (pos 168))
            × (is_allowed img ≡ true)
            × (contains [] img ≡ false)))
unfolding get_image_prefix
get_images_to_cleanup_iff_example =
    get_images_to_cleanup_iff docker_images none values (chars "devkit") [] (pos 168) refl

abbrev settings : Settings
settings = record {
  repo = b'h' ∷ b'/' ∷ b'p' ∷ [];
  namespace = chars "devkit";
  extras = record { packages = []; keys = []; repositories = [] };
}

match_image-get_image_tag_example :
    match_image (get_image_tag settings (b'i' ∷ b'd' ∷ b'e' ∷ []) (replicate 64 b'0'))
    ≡ some (b'i' ∷ b'd' ∷ b'e' ∷ [])
unfolding IsNamespace is_hash chars
match_image-get_image_tag_example =
    match_image-get_image_tag settings b'i' (b'd' ∷ b'e' ∷ []) (replicate 64 b'0') (inl refl)
      (refl, (refl, (refl, tt))) (refl, (refl, (refl, (refl, (refl, (refl, tt))))))
      (refl, (refl, (refl, tt))) (refl, (refl, (refl, tt))) refl

-- A conversion that knows the first thousand milliseconds.
abbrev from_timestamp : ℤ → Outcome Text
from_timestamp ts = if int_le ts (pos 1000) then ok [] else raised other_error

-- A malformed event, an unknown one, and one with a timestamp.
abbrev events : List Text
events = (b'x' ∷ []) ∷ (b'x' ∷ b':' ∷ b'1' ∷ []) ∷ (chars "entrypoint_end_time_ms:7") ∷ []

listen-events_example :
    listen from_timestamp none
      (λ t. t)
      (map (received_turn from_timestamp none (λ t. t)) events ++ [])
    ≡ flatten (map (event_messages from_timestamp none (λ t. t)) events)
      ++ listen from_timestamp none (λ t. t) []
unfolding chars cut strip parse_int int_le
listen-events_example =
    listen-events from_timestamp none (λ t. t) events []
      (
        λ value ts e f. cc,
        (
          λ value ts e f. cc,
          (
            λ value ts e f.
                let digit : value ≡ chars "7" = cc in
                let seven : ok ts ≡ ok (pos 7) = sym f ∙ rw digit refl in
                inl ([], rw (ok-injective _ _ seven) refl),
            tt,
          ),
        ),
      )

output_file-append_example :
    output_file [] (chars "//b" ++ b'/' ∷ chars "a:x") ≡ output_file [] (chars "a:x")
output_file-append_example = output_file-append [] (chars "//b") (chars "a:x")

-- The second removal is running when the event is set.
cleanup_images-Follows_example :
    (removals : List Removal) × (cleanup_images durations (some 9) (ok images) (pos 2)
      ≡ ok removals)
    × (handled removals ≡ (b'x' ∷ []) ∷ (b'y' ∷ []) ∷ [])
    × (cut_short removals ≡ (b'y' ∷ []) ∷ [])
unfolding begun running questions image_questions poll_questions
cleanup_images-Follows_example = cleanup_images-Follows durations 9 images 1

abbrev around : Surroundings
around = record {
  run = docker_images;
  config = none;
  vals = values;
  ignored = ok [];
  rmi = durations;
}

cleanup-In_example :
    (removals : List Removal) × (cleanup around (some 9) (pos 4) (pos 7) ≡ ok removals)
    × ((img : Text)
        → In img (handled removals)
        → In img (get_images docker_images (chars "devkit") (pos 168))
          × (is_allowed img ≡ true)
          × (contains [] img ≡ false))
unfolding get_image_prefix threshold_hours
cleanup-In_example = cleanup-In around (some 9) 3 (pos 7) (chars "devkit") [] refl refl

-- A listener that waits while it is cancelled.
abbrev cancelled : Threads
cancelled = record {
  event = true;
  shut = true;
  place = accepting;
  canceller = finished;
  errors = 0;
}

cancelled-Reach : Cancel.Reach start_container_event_handler cancelled
unfolding listener_step cancel_step
cancelled-Reach = next (next (next here (listens silent _)) (cancels false _)) (cancels false _)

Reach-left_example :
    (true ≡ true)
    × ((listener_step silent (listener_step speaks cancelled)).errors ≡ 0)
    × (((listener_step silent (listener_step speaks cancelled)).place ≡ left)
        ⊎ ((accepting ≡ receiving)
            × (speaks ≡ silent)
            × (listener_step speaks cancelled ≡ cancelled)))
Reach-left_example = Reach-left cancelled speaks silent cancelled-Reach refl
