-- ===== src/DockerCleanup/Main.antt =====
-- The ways into docker_cleanup.py: `start_background_cleanup` and `main`.
use public_endorsement_servi.Base.{
  ℕ, ◌+◌, ◌*◌, Bool, true, false, Option, none, List, Text, Outcome, ok, raised, exited, Completed,
}
use public_endorsement_servi.Base.Integers.{ℤ, pos, negsuc}
use public_endorsement_servi.Base.Json.{Json}
use public_endorsement_servi.DockerBuild.Config.{Values}
use public_endorsement_servi.DockerCleanup.Candidates.{get_images_to_cleanup}
use public_endorsement_servi.DockerCleanup.Batches.{Event, Removal, cleanup_images}

-- threshold_days * 24
unfoldable pub threshold_hours : ℤ → ℤ
threshold_hours (pos days) = pos (days * 24)
threshold_hours (negsuc days) = negsuc (days * 24 + 23)

abbrev pub cleanup_batch_size : ℤ
cleanup_batch_size = pos 4

abbrev pub cleanup_threshold_days : ℤ
cleanup_threshold_days = pos 7

-- What a cleanup finds: docker's listing, devkit.json, the tags in use, and how long the removals run.
pub record Surroundings : Type 0 where
  pub run : List Text → Completed
  pub config : Option (Outcome Json)
  pub vals : Values
  pub ignored : Outcome (List Text)
  pub rmi : Text → Option ℕ

module _ (around : Surroundings) where
  -- `cleanup_images` with the candidates that it asks for.
  unfoldable pub cleanup : Event → ℤ → ℤ → Outcome (List Removal)
  unfolding cleanup_images get_images_to_cleanup threshold_hours
  cleanup event batch_size threshold_days =
      cleanup_images around.rmi event
        (get_images_to_cleanup around.run around.config around.vals around.ignored
          (threshold_hours threshold_days))
        batch_size

  -- What the thread does until the event that it is given with is set.
  unfoldable pub start_background_cleanup : Event → Outcome (List Removal)
  unfolding cleanup
  start_background_cleanup cancel_event =
      cleanup cancel_event cleanup_batch_size cleanup_threshold_days

-- How the cleanup of `main` ends: by itself, or with Ctrl-C.
pub data CleanupEnd : Type 0 where
  by_itself : Outcome (List Removal) → CleanupEnd
  interrupted : CleanupEnd

-- The process's end, and whether the event is set then.
unfoldable pub main_end : CleanupEnd → Outcome (Unit {0}) × Bool
main_end (by_itself (ok removals)) = (ok tt, false)
main_end (by_itself (raised e)) = (raised e, false)
main_end (by_itself (exited n)) = (exited n, false)
main_end interrupted = (ok tt, true)

-- Nobody else has the event of `main`. `interrupt` tells whether Ctrl-C comes.
unfoldable pub main : Surroundings → Bool → ℤ → ℤ → Outcome (Unit {0}) × Bool
unfolding cleanup main_end
main around true batch_size threshold_days = main_end interrupted
main around false batch_size threshold_days =
    main_end (by_itself (cleanup around none batch_size threshold_days))
