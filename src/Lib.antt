-- ===== src/Lib.antt =====
-- A model of the Python scripts of the devkit, in .devkit/scripts of the repository, which set up the
-- containers in which the service is built and tested. (api, mbs and container-tools hold copies of
-- them.) It is a library of functions that compute, with the theorems that make the scripts correct.
--
-- The parts, and the files that model them:
--
-- - .devkit/scripts/find_project_root.py: ProjectRoot. The other scripts start from its result.
-- - .devkit/scripts/list_external_mounts.py: ExternalMounts, in FileSystem (paths and the file system),
--   Symlinks (`_process_symlink` and the scan), Minimize (`_minimize_paths`), Mounts
--   (`list_external_mounts`, `get_minimal_mounts`); Outside, Scan and Termination are proofs.
-- - .devkit/scripts/coverage_report.py: CoverageReport, in Groups (`group_consecutive_numbers`),
--   FileCoverage (the class and `fit_to_column`), Lcov (the parser), Report
--   (`print_and_validate_report`, `generate_lcov_report`), Thresholds (`parse_thresholds_file`) and Main;
--   Written is a report and what it says, and Missing, LcovLines,
--   DataLines and ReadBack are proofs.
-- - .devkit/scripts/docker/build.py: DockerBuild, in Schema and Config (`validate_config`,
--   `CONFIG_SCHEMA`, `parse_registry_config`, `get_image_prefix`), Builder (the loading of the
--   configuration and of the deps.json files), Graph (`get_dependency_subgraph` and the sorter), Tags
--   (the tags, remembered in `generated_tags`), Images (the docker commands of `manage_docker_image`) and
--   Build (`build_images` and `main`), Environ (`ensure_cloudsdk_python_is_set`); Conforms, Reach, Order,
--   Acyclic, Needed, BuildOrder, Memo, Sound, Loaded, ImageRuns, Provided, Kept, Built, AllBuilt and
--   Printed are specifications and proofs.
-- - .devkit/scripts/docker_cleanup.py: DockerCleanup, in Names (the pattern and the allowlist),
--   Candidates (`get_images_to_cleanup`, which calls docker/build.py for the prefix and for the tags in
--   use), Batches (`cleanup_images`) and Main (`start_background_cleanup`, `main`); Schedule is
--   what it asks the cancellation event, and Kept, Cleaned, Answered, Uncancelled, Safe and TagNames are
--   proofs.
-- - .devkit/scripts/container_event_handler.py: ContainerEvents, in Listener (events and the loop, as
--   the sequence of what it receives) and Cancel (`SocketCancelEvent` and the loop as two threads that
--   interleave, with the places where the listener blocks); Resilient and Quiet are proofs.
-- - .devkit/scripts/docker_run.py: DockerRun, in Shell (`expandvars` and `shlex.split`), Settings (paths and
--   identities from the environment), Mounts (what is mounted, and the volumes), Arguments (the docker
--   command) and Main (`main`, which calls list_external_mounts.py for the mounts and runs the container
--   beside the threads of docker_cleanup.py and container_event_handler.py); Volumes, Joined and ReadBack
--   are proofs.
-- - .devkit/scripts/bootstrap.py: Bootstrap, in Excerpt (the lines around an error), Templates
--   (`copy_and_template`) and Main (`main`); Copied is what is expected of the destination, and Pairs,
--   Walked, Shown and Ended are proofs.
-- - .devkit/scripts/bep.py: BuildEvents.
-- - Base holds what the parts share: texts as lists of code points, dictionaries as association lists,
--   paths as lists of parts, JSON documents, decimal numbers, and Python's ways to leave a function.
--
-- Names follow the scripts: `minimize_paths` is `_minimize_paths`, a method has the name of the method.
-- State is passed on explicitly: the remembered tags as a dictionary, docker as a world with the list of
-- the commands run, the cancellation event as the number of times that it still answers no.
--
-- Outside code is a parameter: the file system, the processes, floating-point numbers, JSON's reader,
-- SHA-256, jinja2, and the conversion of timestamps. Where a theorem relies on what such code does, it
-- says so in a hypothesis.
--
-- Fuel: a chain of symlinks and the scan have fuel, which suffices where the links lead on finitely
-- (`IsFinite`). The loop of `get_dependency_subgraph` has one round for each target and dependency and
-- one more. The sorter of the standard library, graphlib, is a function of its documented rounds, one for
-- each node at most. The recursion of `calculate_tag_for_image` has the depth that Python's stack leaves,
-- with a RecursionError behind it. The batches have the length of the list.
--
-- Paths are absolute, but for those inside of a template; TMPDIR and the variables of docker_run.py hold
-- absolute paths. The walk of a template is fixed before the copy starts, as where the destination lies
-- outside of the template.
--
-- Not modelled: argument parsing, log files, the start of threads and the binding of sockets, the
-- scripts' unit tests, the copies of the scripts, and everything that is not Python.
pub mod Base
pub mod ProjectRoot
pub mod ExternalMounts
pub mod CoverageReport
pub mod DockerBuild
pub mod DockerCleanup
pub mod ContainerEvents
pub mod Examples
pub mod BuildEvents
pub mod DockerRun
pub mod Bootstrap
