-- ===== src/Examples/Mounts.antt =====
-- The results on list_external_mounts.py and find_project_root.py at concrete inputs.
use public_endorsement_servi.Base.{
  ℕ, ◌<◌, ◌≡◌, refl, ◌↔◌, inl, inr, true, false, not, none, some, List, [], ◌∷◌, arith, In, chars,
  ok, raised, file_not_found, text_eq, starts_with, some-injective, sym, Bool-cases, if◌then◌else◌,
}
use public_endorsement_servi.Base.Paths.{FilePath, is_relative_to, path_eq, path_eq_iff, has_path}
use public_endorsement_servi.ProjectRoot.{
  Above, HasDevkit, find_project_root, find_project_root_lem,
}
use public_endorsement_servi.ExternalMounts.FileSystem.{
  Target, end, FileSystem, absolute, normpath, dir_link, parent, join_target, common_path,
}
use public_endorsement_servi.ExternalMounts.Minimize.{Under, minimize_paths, minimize_paths_iff}
use public_endorsement_servi.ExternalMounts.Symlinks.{Found, is_outside, walk, process_entries}
use public_endorsement_servi.ExternalMounts.Outside.{is_outside-eq}
use public_endorsement_servi.ExternalMounts.Termination.{IsFinite}
use public_endorsement_servi.ExternalMounts.Mounts.{
  run_scan, get_minimal_mounts, list_external_mounts-outside, get_minimal_mounts-covers,
  get_minimal_mounts_total,
}

abbrev home : FilePath
home = (b'h' ∷ []) ∷ []

abbrev deep : FilePath
deep = (b'h' ∷ []) ∷ (b'd' ∷ []) ∷ []

minimize_paths_iff_example : In home (minimize_paths (deep ∷ home ∷ [])) ↔ (
    In home (deep ∷ home ∷ [])
    × ((q : FilePath) → In q (deep ∷ home ∷ []) → Under home q → home ≡ q))
minimize_paths_iff_example = minimize_paths_iff (deep ∷ home ∷ []) home

is_outside-eq_example : is_outside home deep ≡ not (is_relative_to (normpath deep) home)
unfolding text_eq chars
is_outside-eq_example = is_outside-eq home deep (refl, tt)

find_project_root_lem_example :
    ((root : FilePath)
      → find_project_root (λ p. true) (some deep) home ≡ ok root
      → HasDevkit (λ p. true) root
        × Above (λ p. true) root deep
        × ((q : FilePath)
            → Above (λ p. true) q deep
            → HasDevkit (λ p. true) q
            → Above (λ p. true) q root))
    × ((find_project_root (λ p. true) (some deep) home ≡ raised file_not_found)
        ↔ ((q : FilePath) → Above (λ p. true) q deep → true ≡ false))
    × (find_project_root (λ p. true) none home ≡ find_project_root (λ p. true) (some home) home)
find_project_root_lem_example = find_project_root_lem (λ p. true) deep home

-- One symlink in the directory /h, to a file /o outside of it.
abbrev out : FilePath
out = (b'o' ∷ []) ∷ []

abbrev link : FilePath
link = (b'h' ∷ []) ∷ (b'l' ∷ []) ∷ []

abbrev fs : FileSystem
fs = record {
  is_symlink = λ p. path_eq p link;
  readlink = λ p. if path_eq p link then some (absolute out) else none;
  exists = λ p. true;
  is_dir = λ p. path_eq p home;
  resolve = λ p. p;
  content = λ p. dir_link (b'l' ∷ []) end;
}

get_minimal_mounts-covers_example :
    ((p : FilePath)
      → In p (deep ∷ [])
      → ((q : FilePath) × In q (deep ∷ out ∷ []) × Under p q)
        × ((q : FilePath) × In q (deep ∷ out ∷ []) × Under p q))
    × (path_eq home link ≡ true → (q : FilePath) × In q (deep ∷ out ∷ []) × Under home q)
unfolding get_minimal_mounts run_scan path_eq has_path process_entries walk chars starts_with
    join_target normpath common_path is_relative_to
get_minimal_mounts-covers_example =
    get_minimal_mounts-covers fs 2 3 home (deep ∷ []) (deep ∷ out ∷ []) refl

abbrev found : Found
found = record { external_paths = out ∷ []; worklist = [] }

list_external_mounts-outside_example :
    (((t : FilePath) × (out ≡ normpath t)) × (is_relative_to out home ≡ false))
    × (path_eq out home ≡ true → In out (home ∷ []))
unfolding run_scan path_eq text_eq chars has_path process_entries walk starts_with join_target
    normpath common_path
list_external_mounts-outside_example =
    list_external_mounts-outside fs 2 3 home (home ∷ []) found (refl, tt) refl out (inl refl)

hops : FilePath → ℕ
unfolding path_eq
hops p = if path_eq p link then 1 else 0

hops-fewer :
    (p : FilePath) (t : Target)
    → path_eq p link ≡ true
    → (if path_eq p link then some (absolute out) else none) ≡ some t
    → hops (join_target (parent p) t) < hops p
unfolding hops join_target path_eq text_eq
hops-fewer p t s r =
    let e : absolute out ≡ t = some-injective (absolute out) t (rw (s) at r) in
    rw (sym e, s, hops) (omega arith)

hops-bounded : (p : FilePath) → hops p < 2
unfolding hops
hops-bounded p = elim (Bool-cases (path_eq p link)) [
  | inl y ↦ rw (y, hops) (omega arith)
  | inr n ↦ rw (n, hops) (omega arith)
]

finite : IsFinite fs 2 (home ∷ [])
finite = record {
  hops = hops;
  fewer = λ p t s r there. hops-fewer p t s r;
  bounded = hops-bounded;
  known = λ t d. inl ((path_eq_iff (normpath t) home).0 d);
}

get_minimal_mounts_total_example :
    (result : List FilePath) × (get_minimal_mounts fs 2 3 home (deep ∷ []) ≡ some result)
get_minimal_mounts_total_example =
    get_minimal_mounts_total fs 2 3 (home ∷ []) home (deep ∷ []) finite (omega arith)
