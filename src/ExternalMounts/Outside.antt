-- ===== src/ExternalMounts/Outside.antt =====
-- The test of `_process_symlink` that a target lies outside of the scanned directory.
use mathlib.Core.List.{reverse, reverse-append, append-nil, append_assoc}
use public_endorsement_servi.Base.{
  ◌≡◌, refl, sym, ◌∙◌, ap, false, not, [], ◌∷◌, ◌++◌, arith, All, chars, text_eq, text_eq_iff,
}
use public_endorsement_servi.Base.Paths.{FilePath, path_eq, is_relative_to}
use public_endorsement_servi.ExternalMounts.FileSystem.{normpath, normpath_onto, common_path}
use public_endorsement_servi.ExternalMounts.Symlinks.{is_outside}

-- No part is "..", as in a resolved path.
abbrev pub IsNormal : FilePath → Type 0
IsNormal = All (λ a. text_eq a (chars "..") ≡ false)

normpath_onto-IsNormal : (done p : FilePath) → IsNormal p → normpath_onto done p ≡ reverse done ++ p
unfolding normpath
normpath_onto-IsNormal done [] h = sym (append-nil (reverse done))
normpath_onto-IsNormal done (a ∷ p) h = rw h.0 (
    normpath_onto-IsNormal (a ∷ done) p h.1
    ∙ ap (λ (q : FilePath). q ++ p) (reverse-append (a ∷ []) done)
    ∙ append_assoc (reverse done) (a ∷ []) p)

pub normpath-IsNormal : (p : FilePath) → IsNormal p → normpath p ≡ p
unfolding normpath
normpath-IsNormal p h = normpath_onto-IsNormal [] p h

common_path-IsNormal : (p q : FilePath) → IsNormal p → IsNormal (common_path p q)
unfolding common_path
common_path-IsNormal [] q h = tt
common_path-IsNormal (a ∷ p) [] h = tt
common_path-IsNormal (a ∷ p) (b ∷ q) h = ground (arith, common_path-IsNormal p q h.1)

path_eq-common_path : (p q : FilePath) → path_eq (common_path p q) p ≡ is_relative_to q p
unfolding common_path path_eq is_relative_to
path_eq-common_path [] q = refl
path_eq-common_path (a ∷ p) [] = refl
path_eq-common_path (a ∷ p) (b ∷ q) =
    ground (arith, path_eq-common_path p q, text_eq_iff a b, text_eq_iff b a, text_eq_iff a a)

-- For a scanned directory without "..", a target counts as outside exactly if its normal form does
-- not lie under the directory.
pub is_outside-eq :
    (scan_dir t : FilePath)
    → IsNormal scan_dir
    → is_outside scan_dir t ≡ not (is_relative_to (normpath t) scan_dir)
unfolding is_outside
is_outside-eq scan_dir t h =
    rw (normpath-IsNormal _ (common_path-IsNormal scan_dir (normpath t) h))
      (ap not (path_eq-common_path scan_dir (normpath t)))
