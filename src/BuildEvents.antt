-- ===== src/BuildEvents.antt =====
-- bep.py: the files of Bazel's build events, one for each target. The processes are a parameter: how a
-- command ends, and what it does to the world.
use public_endorsement_servi.Base.{
  ◌≡◌, refl, sym, ap, ◌∙◌, Bool, false, List, [], ◌∷◌, ◌++◌, if◌then◌else◌, ◌==◌, Text, chars,
  text_eq, split, strip, map, Outcome, ok, exited, Completed, ended, not_found, ◌>>=◌, >>=-eq-ok,
  ok-injective,
}
use public_endorsement_servi.Base.Integers.{pos, int_eq}
use public_endorsement_servi.Base.Splits.{split-++, split-cases}
use public_endorsement_servi.Base.Paths.{FilePath, path_text}

-- target.replace(":", "_")
unfoldable pub without_colons : Text → Text
without_colons [] = []
without_colons (c ∷ s) = (if c == b':' then b'_' else c) ∷ without_colons s

-- xs[-1] of a list that holds at least `x`
unfoldable pub last_of : Text → List Text → Text
last_of x [] = x
last_of x (y ∷ ys) = last_of y ys

unfoldable pub last_part_of : List Text → Text
unfolding last_of
last_part_of [] = []
last_part_of (x ∷ xs) = last_of x xs

-- bazel_target.replace(":", "_").split("/")[-1]
unfoldable pub sanitized_target_name : Text → Text
unfolding without_colons split last_part_of
sanitized_target_name bazel_target = last_part_of (split b'/' (without_colons bazel_target))

-- What `run_command` comes to: a failed command and a missing one end the process with status 1.
unfoldable pub command_end : Bool → Completed → Outcome Text
unfolding strip
command_end capture_output not_found = exited (pos 1)
command_end capture_output (ended returncode stdout stderr) =
    if int_eq returncode (pos 0)
    then ok (if capture_output then strip stdout else [])
    else exited (pos 1)

-- The command of `generate_build_event_json`; the two caches are fresh temporary directories.
unfoldable pub bash_command : FilePath → FilePath → FilePath → Text → FilePath → Text → List Text
unfolding path_text text_eq
bash_command project_root cache registry_cache bazel_target output_path bazel_command =
    path_text (project_root ++ (chars "devkit" ∷ chars "build" ∷ []))
    ∷ chars "bazel"
    ∷ (chars "--output_base=" ++ path_text cache)
    ∷ bazel_command
    ∷ (chars "--build_event_json_file=" ++ path_text output_path)
    ∷ (chars "--repository_cache=" ++ path_text registry_cache)
    ∷ bazel_target
    ∷ (if text_eq bazel_command (chars "build") then chars "--noremote_accept_cached" ∷ [] else [])

-- The output file of a target.
unfoldable pub output_file : FilePath → Text → FilePath
unfolding sanitized_target_name
output_file output_dir bazel_target =
    output_dir ++ (sanitized_target_name bazel_target ∷ chars "bep.json" ∷ [])

-- `root` is what `find_project_root()` comes to; the two caches are fresh temporary directories.
module _ (run : List Text → Completed) (make_directory : FilePath → Outcome (Unit {0}))
    (cache registry_cache : FilePath) (root : Outcome FilePath) where
  unfoldable pub generate_build_event_json : Text → Text → FilePath → Outcome Text
  unfolding command_end bash_command
  generate_build_event_json command bazel_target output_path = root >>= λ project_root.
      command_end false
        (run (bash_command project_root cache registry_cache bazel_target output_path command))

  -- The loop over the targets. The outputs that were written are listed, in order.
  unfoldable pub process_each : Text → FilePath → List Text → Outcome (List FilePath)
  unfolding sanitized_target_name output_file generate_build_event_json
  process_each command output_dir [] = ok []
  process_each command output_dir (bazel_target ∷ targets) =
      let file = output_file output_dir bazel_target in
      make_directory (output_dir ++ (sanitized_target_name bazel_target ∷ [])) >>= λ _.
      generate_build_event_json command bazel_target file >>= λ _.
      process_each command output_dir targets >>= λ files. ok (file ∷ files)

  -- Without targets, all of them go into one file.
  unfoldable pub generate_bazel_events_folder :
      List Text → Text → FilePath → Outcome (List FilePath)
  unfolding process_each generate_build_event_json
  generate_bazel_events_folder [] command output_dir =
      let file = output_dir ++ (chars "bep.json" ∷ []) in
      make_directory output_dir >>= λ _.
      generate_build_event_json command (chars "//...") file >>= λ _. ok (file ∷ [])
  generate_bazel_events_folder (bazel_target ∷ targets) command output_dir =
      make_directory output_dir >>= λ _. process_each command output_dir (bazel_target ∷ targets)

  -- Where the loop ends, each target has been processed: the outputs are their files, in order.
  pub process_each-files :
      (command : Text) (output_dir : FilePath) (targets : List Text) (files : List FilePath)
      → process_each command output_dir targets ≡ ok files
      → files ≡ map (λ target. output_file output_dir target) targets
  unfolding process_each
  process_each-files command output_dir [] files e = ok-injective _ _ (sym e)
  process_each-files command output_dir (bazel_target ∷ targets) files e =
      let file = output_file output_dir bazel_target in
      let (made, e1, e2) =
        >>=-eq-ok (make_directory (output_dir ++ (sanitized_target_name bazel_target ∷ []))) _ e in
      let (done, e3, e4) = >>=-eq-ok (generate_build_event_json command bazel_target file) _ e2 in
      let (rest, e5, e6) = >>=-eq-ok (process_each command output_dir targets) _ e4 in
      sym (ok-injective _ _ e6)
      ∙ ap (λ l. file ∷ l) (process_each-files command output_dir targets rest e5)

without_colons-append :
    (s t : Text) → without_colons (s ++ t) ≡ without_colons s ++ without_colons t
unfolding without_colons
without_colons-append [] t = refl
without_colons-append (c ∷ s) t =
    ap (λ l. (if c == b':' then b'_' else c) ∷ l) (without_colons-append s t)

last_of-append : (x y : Text) (xs ys : List Text) → last_of x (xs ++ (y ∷ ys)) ≡ last_of y ys
unfolding last_of
last_of-append x y [] ys = refl
last_of-append x y (z ∷ xs) ys = last_of-append z y xs ys

-- Only what follows the last "/" of a target names its output file, so targets of different packages
-- can have the same one.
pub output_file-append :
    (output_dir : FilePath) (folder target : Text)
    → output_file output_dir (folder ++ b'/' ∷ target) ≡ output_file output_dir target
unfolding output_file sanitized_target_name last_part_of without_colons
output_file-append output_dir folder target =
    let (x, xs, e) = split-cases b'/' (without_colons folder) in
    let (y, ys, f) = split-cases b'/' (without_colons target) in
    rw
      (
        without_colons-append folder (b'/' ∷ target),
        split-++ b'/' (without_colons folder) (without_colons target),
        e,
        f,
        last_of-append x y xs ys,
      )
      refl
