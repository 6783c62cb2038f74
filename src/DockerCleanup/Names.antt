-- ===== src/DockerCleanup/Names.antt =====
-- `IMAGE_PATTERN`, `ALLOWED_IMAGE_NAMES` and `filter_allowed_images` of docker_cleanup.py.
use public_endorsement_servi.Base.{
  ℕ, Bool, false, ◌&&◌, ◌||◌, Option, none, some, List, [], ◌∷◌, if◌then◌else◌, leb, ◌==◌, length,
  all_of, any_of, filter_by, Text, chars, text_eq, contains, cut, split,
}

abbrev pub allowed_image_names : List Text
allowed_image_names =
    chars "build-env"
    ∷ chars "build-env-debian"
    ∷ chars "build-env-rockylinux"
    ∷ chars "clion-ide"
    ∷ chars "dev-env"
    ∷ chars "gcloud-env"
    ∷ chars "goland-ide"
    ∷ chars "ide-env"
    ∷ chars "intellij-ide"
    ∷ chars "nitro-cli-linux6"
    ∷ chars "pycharm-ide"
    ∷ chars "tool-env"
    ∷ chars "vscode-ide"
    ∷ chars "vscode-server"
    ∷ []

-- [a-zA-Z0-9_]
unfoldable pub is_arch_char : ℕ → Bool
is_arch_char c =
    (leb b'a' c && leb c b'z')
    || (leb b'A' c && leb c b'Z')
    || (leb b'0' c && leb c b'9')
    || (c == b'_')

-- [a-f0-9]
unfoldable pub is_hash_char : ℕ → Bool
is_hash_char c = (leb b'a' c && leb c b'f') || (leb b'0' c && leb c b'9')

-- [a-f0-9]{64}$
unfoldable pub is_hash : Text → Bool
unfolding is_hash_char
is_hash s = (length s == 64) && all_of is_hash_char s

-- ([a-zA-Z0-9_]+)-([a-f0-9]{64})$ on the two sides of the first '-', which ends the architecture.
unfoldable pub is_arch_and_hash : Text × Option Text → Bool
unfolding is_arch_char is_hash
is_arch_and_hash (arch, none) = false
is_arch_and_hash ([], some hash) = false
is_arch_and_hash (c ∷ arch, some hash) = all_of is_arch_char (c ∷ arch) && is_hash hash

-- ([^/:]+):<arch>-<hash> on the two sides of the first ':', as a tag holds none either.
unfoldable pub name_before : Text × Option Text → Option Text
unfolding cut is_arch_and_hash
name_before (name, none) = none
name_before ([], some tag) = none
name_before (c ∷ name, some tag) = if is_arch_and_hash (cut b'-' tag) then some (c ∷ name) else none

unfoldable pub name_of : Text → Option Text
unfolding cut name_before
name_of s = name_before (cut b':' s)

-- A "." of the pattern matches anything but a line break.
unfoldable pub has_line_break : Text → Bool
has_line_break s = any_of (λ c. c == 10) s

-- The components between the slashes: one before the last has to be "devkit", and none before the
-- last can hold a line break, as "." stands for what is around "devkit".
unfoldable pub match_components : Bool → List Text → Option Text
unfolding name_of text_eq has_line_break
match_components seen [] = none
match_components seen (last ∷ []) = if seen then name_of last else none
match_components seen (part ∷ next ∷ rest) =
    let found = match_components (seen || text_eq part (chars "devkit")) (next ∷ rest) in
    if has_line_break part then none else found

-- "$" stands at the end, and before a line break at the end.
unfoldable pub without_final_break : Text → Text
without_final_break [] = []
without_final_break (c ∷ []) = if c == 10 then [] else c ∷ []
without_final_break (c ∷ d ∷ s) = c ∷ without_final_break (d ∷ s)

-- IMAGE_PATTERN.match(img), as its group 1
unfoldable pub match_image : Text → Option Text
unfolding match_components split without_final_break
match_image img = match_components false (split b'/' (without_final_break img))

unfoldable pub is_allowed : Text → Bool
unfolding match_image contains
is_allowed img = elim (match_image img) [
  | none ↦ false
  | some image_name ↦ contains allowed_image_names image_name
]

unfoldable pub filter_allowed_images : List Text → List Text
unfolding is_allowed
filter_allowed_images images = filter_by is_allowed images
