-- ===== src/ExternalMounts/FileSystem.antt =====
-- What list_external_mounts.py asks of the file system, as a parameter, and the path arithmetic of
-- os.path that it uses: joining, `normpath` and `commonpath`.
use mathlib.Core.List.{reverse}
use public_endorsement_servi.Base.{Bool, Option, [], ◌∷◌, ◌++◌, if◌then◌else◌, Text, chars, text_eq}
use public_endorsement_servi.Base.Paths.{FilePath}

-- What a symlink says: an absolute path, or one from the directory of the link. The parts may
-- hold "..".
pub data Target : Type 0 where
  absolute relative : FilePath → Target

-- The content of a directory in the order of `os.walk`: files, directories with their content, and
-- symlinks to directories, which the walk lists and does not enter.
pub data Entries : Type 0 where
  end : Entries
  file : Text → Entries → Entries
  dir : Text → Entries → Entries → Entries
  dir_link : Text → Entries → Entries

pub record FileSystem : Type 0 where
  pub is_symlink : FilePath → Bool
  -- `none` is a FileNotFoundError
  pub readlink : FilePath → Option Target
  pub exists : FilePath → Bool
  pub is_dir : FilePath → Bool
  pub resolve : FilePath → FilePath
  pub content : FilePath → Entries

-- path.parent
unfoldable pub parent : FilePath → FilePath
parent [] = []
parent (a ∷ []) = []
parent (a ∷ b ∷ p) = a ∷ parent (b ∷ p)

-- base / target
unfoldable pub join_target : FilePath → Target → FilePath
join_target base (absolute p) = p
join_target base (relative p) = base ++ p

abbrev pub pop_part : FilePath → FilePath
pop_part [] = []
pop_part (a ∷ p) = p

unfoldable pub normpath_onto : FilePath → FilePath → FilePath
normpath_onto done [] = reverse done
normpath_onto done (a ∷ p) =
    normpath_onto (if text_eq a (chars "..") then pop_part done else a ∷ done) p

-- os.path.normpath of an absolute path: ".." takes the part before it away.
unfoldable pub normpath : FilePath → FilePath
unfolding normpath_onto
normpath p = normpath_onto [] p

-- os.path.commonpath([p, q])
unfoldable pub common_path : FilePath → FilePath → FilePath
common_path [] q = []
common_path (a ∷ p) [] = []
common_path (a ∷ p) (b ∷ q) = let rest = common_path p q in if text_eq a b then a ∷ rest else []
