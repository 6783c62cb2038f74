-- ===== src/ExternalMounts/Symlinks.antt =====
-- `list_external_mounts` and `_process_symlink` of list_external_mounts.py.
use public_endorsement_servi.Base.{
  ℕ, zero, suc, Bool, true, false, not, ◌&&◌, Option, none, some, List, [], ◌∷◌, ◌++◌,
  if◌then◌else◌, Text, chars, text_eq, starts_with,
}
use public_endorsement_servi.Base.Paths.{FilePath, path_eq, has_path}
use public_endorsement_servi.ExternalMounts.FileSystem.{
  FileSystem, Entries, end, file, dir, dir_link, parent, join_target, normpath, common_path,
}

-- The set `external_paths` and the list `worklist`, which the functions change in place.
pub record Found : Type 0 where
  pub external_paths : List FilePath
  pub worklist : List FilePath

-- The test that a target lies outside of the scanned directory.
unfoldable pub is_outside : FilePath → FilePath → Bool
is_outside scan_dir abs_target =
    not (path_eq (normpath (common_path scan_dir (normpath abs_target))) scan_dir)

-- The names of one directory with their paths: `dirs` without ".venv", then `files`.
level_dirs : FilePath → Entries → List (FilePath × Text)
level_dirs root end = []
level_dirs root (file name es) = level_dirs root es
level_dirs root (dir name sub es) =
    let rest = level_dirs root es in
    if text_eq name (chars ".venv") then rest else (root ++ (name ∷ []), name) ∷ rest
level_dirs root (dir_link name es) =
    let rest = level_dirs root es in
    if text_eq name (chars ".venv") then rest else (root ++ (name ∷ []), name) ∷ rest

level_files : FilePath → Entries → List (FilePath × Text)
level_files root end = []
level_files root (file name es) = (root ++ (name ∷ []), name) ∷ level_files root es
level_files root (dir name sub es) = level_files root es
level_files root (dir_link name es) = level_files root es

-- The levels below, for the directories that the walk enters.
walk_below : FilePath → Entries → List (FilePath × Text)
walk_below root end = []
walk_below root (file name es) = walk_below root es
walk_below root (dir name sub es) =
    let inner = root ++ (name ∷ []) in
    let entered = level_dirs inner sub ++ (level_files inner sub ++ walk_below inner sub) in
    (if text_eq name (chars ".venv") then [] else entered) ++ walk_below root es
walk_below root (dir_link name es) = walk_below root es

-- The entries that the loop over `os.walk` visits, in order.
unfoldable pub walk : FilePath → Entries → List (FilePath × Text)
unfolding level_dirs level_files walk_below
walk root es = level_dirs root es ++ (level_files root es ++ walk_below root es)

module _ (fs : FileSystem) (scan_dir : FilePath) where
  open fs use {is_symlink, readlink, exists, is_dir, content}

  -- What one round of the `while` loop does with an existing target.
  unfoldable pub note_target : FilePath → Found → Found
  unfolding is_outside
  note_target abs_target s =
      let norm_target = normpath abs_target in
      if is_outside scan_dir abs_target && not (has_path s.external_paths norm_target)
      then record {
        external_paths = s.external_paths ++ (norm_target ∷ []);
        worklist = if is_dir norm_target then s.worklist ++ (norm_target ∷ []) else s.worklist;
      }
      else s

  -- The `while` loop, with fuel for its rounds; `none` means that the fuel ran out.
  unfoldable pub follow : ℕ → List FilePath → FilePath → Found → Option Found
  follow zero visited current_path s = none
  follow (suc fuel) visited current_path s =
      elim (is_symlink current_path && not (has_path visited current_path)) [
        | false ↦ some s
        | true ↦ elim (readlink current_path) [
          | none ↦ some s
          | some target ↦
              let abs_target = join_target (parent current_path) target in
              elim (exists abs_target) [
                | false ↦ some s
                | true ↦ follow fuel (current_path ∷ visited) abs_target (note_target abs_target s)
              ]
        ]
      ]

  unfoldable pub process_symlink : ℕ → FilePath → Found → Option Found
  unfolding follow note_target
  process_symlink fuel path s = follow fuel [] path s

  -- The loop over the entries of one walk.
  unfoldable pub process_entries : ℕ → List (FilePath × Text) → Found → Option Found
  unfolding process_symlink
  process_entries fuel [] s = some s
  process_entries fuel ((path, name) ∷ es) s =
      elim (is_symlink path && not (starts_with name (chars "bazel-"))) [
        | false ↦ process_entries fuel es s
        | true ↦ elim (process_symlink fuel path s) [
          | none ↦ none
          | some s' ↦ process_entries fuel es s'
        ]
      ]

  -- The `while worklist` loop, with the set `scanned`. One fuel is for its rounds, the other for
  -- each chain of symlinks.
  unfoldable pub scan_loop : ℕ → ℕ → List FilePath → Found → Option (List FilePath × Found)
  scan_loop fuel zero scanned s = none
  scan_loop fuel (suc rounds) scanned s = elim s.worklist [
    | [] ↦ some (scanned, s)
    | current_dir ∷ rest ↦
        let s' : Found = record s { worklist = rest } in
        elim (has_path scanned current_dir) [
          | true ↦ scan_loop fuel rounds scanned s'
          | false ↦ elim (process_entries fuel (walk current_dir (content current_dir)) s') [
            | none ↦ none
            | some s'' ↦ scan_loop fuel rounds (current_dir ∷ scanned) s''
          ]
        ]
  ]
