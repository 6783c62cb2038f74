-- ===== src/DockerRun/Joined.antt =====
-- How `main` of docker_run.py ends, and what becomes of its two threads.
use public_endorsement_servi.Base.{
  ℕ, ◌≡◌, refl, ◌⊎◌, inl, inr, true, false, List, [], ◌∷◌, ◌++◌, Text, any_of, Bool-cases, Outcome,
  ok, raised, exited, Completed, ended, not_found, file_not_found,
}
use public_endorsement_servi.Base.Integers.{pos}
use public_endorsement_servi.DockerBuild.Images.{checked_end}
use public_endorsement_servi.DockerRun.Main.{
  Outer, Start, Prepared, prepare_run, command_of, shows_display, RunEnd, Happening, completed,
  keyboard_interrupt, event_handler_started, cleanup_started, ran, cleanup_cancelled,
  event_handler_cancelled, cleanup_join, event_handler_join, run_status, finally_part, xhost_cmd,
  run_container, after_xhost, start_container, with_threads, main,
}

abbrev pub Traced : Type 0
Traced = Outcome (Unit {0}) × List Happening

module _ (run : List Text → Completed) (docker : List Text → RunEnd) (user_name : Text) where
  -- How the process ends after a run of the container: with docker's status, with a FileNotFoundError
  -- if there is no docker, or with 128 + SIGINT after Ctrl-C.
  unfoldable pub EndsAsDocker : List Text → Outcome (Unit {0}) → Type 0
  EndsAsDocker cmd outcome =
      ((n : _) × (o : _) × (e : _) × (docker cmd ≡ completed (ended n o e)) × (outcome ≡ exited n))
      ⊎ ((docker cmd ≡ completed not_found) × (outcome ≡ raised file_not_found))
      ⊎ ((docker cmd ≡ keyboard_interrupt) × (outcome ≡ exited (pos 130)))

  run_status-EndsAsDocker :
      (cmd : List Text) (end : RunEnd)
      → docker cmd ≡ end
      → EndsAsDocker cmd (run_status (docker cmd))
  unfolding EndsAsDocker run_status
  run_status-EndsAsDocker cmd (completed (ended n o e)) h =
      inl (n, o, e, h, rw (h, run_status) refl)
  run_status-EndsAsDocker cmd (completed not_found) h = inr (inl (h, rw (h, run_status) refl))
  run_status-EndsAsDocker cmd keyboard_interrupt h = inr (inr (h, rw (h, run_status) refl))

  -- The container ran, after the permission for the display if it is asked for; then both threads
  -- were told to stop and were waited for, each for up to a second.
  unfoldable pub HasRun : List Text → Traced → Type 0
  unfolding xhost_cmd EndsAsDocker
  HasRun cmd (outcome, trace) =
      EndsAsDocker cmd outcome
      × ((before : List Happening) × (((any_of shows_display cmd ≡ false) × (before ≡ []))
            ⊎ ((any_of shows_display cmd ≡ true)
                × (checked_end (run (xhost_cmd user_name)) ≡ ok tt)
                × (before ≡ ran (xhost_cmd user_name) ∷ [])))
          × (trace
              ≡ event_handler_started
                ∷ cleanup_started
                ∷ (before
                    ++ (ran cmd
                        ∷ cleanup_cancelled
                        ∷ event_handler_cancelled
                        ∷ cleanup_join 1000
                        ∷ event_handler_join 1000
                        ∷ []))))

  -- The display is asked for and was not permitted: the container did not run, and the threads
  -- that were started are neither cancelled nor joined.
  unfoldable pub IsRefused : List Text → Traced → Type 0
  unfolding xhost_cmd
  IsRefused cmd (outcome, trace) =
      (any_of shows_display cmd ≡ true)
      × (outcome ≡ checked_end (run (xhost_cmd user_name)))
      × (outcome ≡ ok tt → ⊥)
      × (trace ≡ event_handler_started ∷ cleanup_started ∷ ran (xhost_cmd user_name) ∷ [])

  with_threads-permitted :
      (cmd : List Text) (permission : Outcome (Unit {0}))
      → any_of shows_display cmd ≡ true
      → checked_end (run (xhost_cmd user_name)) ≡ permission
      → HasRun cmd (with_threads run docker user_name cmd)
        ⊎ IsRefused cmd (with_threads run docker user_name cmd)
  unfolding with_threads start_container after_xhost run_container finally_part HasRun IsRefused
  with_threads-permitted cmd (ok tt) display e =
      rw (display, e)
        (inl (
          run_status-EndsAsDocker cmd (docker cmd) refl,
          (ran (xhost_cmd user_name) ∷ [], inr (refl, refl, refl), refl),
        ))
  with_threads-permitted cmd (raised x) display e =
      rw (display, e) (inr (refl, refl, λ h. cc, refl))
  with_threads-permitted cmd (exited n) display e =
      rw (display, e) (inr (refl, refl, λ h. cc, refl))

  with_threads-HasRun :
      (cmd : List Text)
      → HasRun cmd (with_threads run docker user_name cmd)
        ⊎ IsRefused cmd (with_threads run docker user_name cmd)
  unfolding with_threads start_container run_container finally_part HasRun
  with_threads-HasRun cmd = elim (Bool-cases (any_of shows_display cmd)) [
    | inl display ↦
        with_threads-permitted cmd (checked_end (run (xhost_cmd user_name))) display refl
    | inr plain ↦
        rw (plain)
          (inl (run_status-EndsAsDocker cmd (docker cmd) refl, ([], inl (refl, refl), refl)))
  ]

module _ (outer : Outer) (start : Start) (fuel rounds : ℕ) where
  -- The work before the threads failed: the process ends like it, and no thread was started.
  unfoldable pub IsUnprepared : Traced → Type 0
  IsUnprepared (outcome, trace) =
      (trace ≡ [])
      × (((e : _) × (prepare_run outer start fuel rounds ≡ raised e) × (outcome ≡ raised e))
          ⊎ ((n : _) × (prepare_run outer start fuel rounds ≡ exited n) × (outcome ≡ exited n)))

  module _ (run : List Text → Completed) (docker : List Text → RunEnd)
      (event_handler_port : ℕ) where
    main-cases :
        (prepared : Outcome Prepared)
        → prepare_run outer start fuel rounds ≡ prepared
        → IsUnprepared (main outer start run docker event_handler_port fuel rounds)
          ⊎ ((p : Prepared) × (prepare_run outer start fuel rounds ≡ ok p)
              × (HasRun run docker
                    (p.identity).user_name
                    (command_of outer start event_handler_port p)
                    (main outer start run docker event_handler_port fuel rounds)
                  ⊎ IsRefused run docker
                      (p.identity).user_name
                      (command_of outer start event_handler_port p)
                      (main outer start run docker event_handler_port fuel rounds)))
    unfolding main IsUnprepared
    main-cases (raised x) e = rw (e, main) (inl (refl, inl (x, refl, refl)))
    main-cases (exited n) e = rw (e, main) (inl (refl, inr (n, refl, refl)))
    main-cases (ok p) e =
        rw (e, main)
          (inr (
            p,
            refl,
            with_threads-HasRun run docker (p.identity).user_name
                (command_of outer start event_handler_port p),
          ))

    -- `main` ends in one of three ways. Before the threads are started it ends with the error of the
    -- preparation. Or the container runs, after the display was permitted where the command asks for
    -- it. Then, however that run ends, the cleanup and the event handler are cancelled after it and,
    -- in this order, waited for up to a second each; and the process ends with docker's status, with a
    -- FileNotFoundError if there is no docker, or with status 130 after Ctrl-C. Or the command asks for
    -- a display that is not permitted: that error ends the process, without a container and without a
    -- word to the threads.
    pub main-HasRun :
        IsUnprepared (main outer start run docker event_handler_port fuel rounds)
        ⊎ ((p : Prepared) × (prepare_run outer start fuel rounds ≡ ok p)
            × (HasRun run docker
                  (p.identity).user_name
                  (command_of outer start event_handler_port p)
                  (main outer start run docker event_handler_port fuel rounds)
                ⊎ IsRefused run docker
                    (p.identity).user_name
                    (command_of outer start event_handler_port p)
                    (main outer start run docker event_handler_port fuel rounds)))
    main-HasRun = main-cases (prepare_run outer start fuel rounds) refl
