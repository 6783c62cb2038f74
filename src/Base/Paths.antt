-- ===== src/Base/Paths.antt =====
-- pathlib's absolute paths, as the list of their parts below the root.
use mathlib.Core.Path.{◌≡◌, refl}
use mathlib.Core.Logic.{◌↔◌}
use mathlib.Core.Bool.{Bool, true, false, ◌&&◌}
use mathlib.Core.List.{List, [], ◌∷◌, ◌++◌}
use native.Mathlib.Omega.{arith}
use public_endorsement_servi.Base.Tests.{if◌then◌else◌}
use public_endorsement_servi.Base.Strings.{Text, chars, text_eq, text_eq_iff, split}

abbrev pub FilePath : Type 0
FilePath = List Text

-- p == q
unfoldable pub path_eq : FilePath → FilePath → Bool
path_eq [] [] = true
path_eq [] (d ∷ q) = false
path_eq (c ∷ p) [] = false
path_eq (c ∷ p) (d ∷ q) = text_eq c d && path_eq p q

pub path_eq_iff : (p q : FilePath) → (path_eq p q ≡ true) ↔ (p ≡ q)
unfolding path_eq
path_eq_iff [] [] = (λ h. refl, λ h. refl)
path_eq_iff [] (d ∷ q) = (λ h. cc, λ h. cc)
path_eq_iff (c ∷ p) [] = (λ h. cc, λ h. cc)
path_eq_iff (c ∷ p) (d ∷ q) = ground (arith, text_eq_iff c d, path_eq_iff p q)

-- str(path)
unfoldable pub path_text : FilePath → Text
path_text [] = b'/' ∷ []
path_text (a ∷ []) = b'/' ∷ a
path_text (a ∷ b ∷ p) = b'/' ∷ a ++ path_text (b ∷ p)

-- Path(text), for an absolute path: pathlib drops empty parts and ".".
unfoldable pub kept_parts : List Text → FilePath
unfolding text_eq
kept_parts [] = []
kept_parts ([] ∷ parts) = kept_parts parts
kept_parts ((c ∷ part) ∷ parts) =
    let rest = kept_parts parts in
    if text_eq (c ∷ part) (chars ".") then rest else (c ∷ part) ∷ rest

unfoldable pub read_path : Text → FilePath
unfolding kept_parts split
read_path text = kept_parts (split b'/' text)

-- p in a set of paths
unfoldable pub has_path : List FilePath → FilePath → Bool
has_path [] p = false
has_path (q ∷ qs) p = if path_eq q p then true else has_path qs p

-- path.is_relative_to(base)
unfoldable pub is_relative_to : FilePath → FilePath → Bool
is_relative_to path [] = true
is_relative_to [] (b ∷ base) = false
is_relative_to (a ∷ path) (b ∷ base) = text_eq a b && is_relative_to path base

-- path.relative_to(base), where `path` lies under `base`.
unfoldable pub relative_to : FilePath → FilePath → FilePath
relative_to path [] = path
relative_to [] (b ∷ base) = []
relative_to (a ∷ path) (b ∷ base) = relative_to path base

-- Lying under is: being an extension.
pub is_relative_to_iff :
    (path base : FilePath)
    → (is_relative_to path base ≡ true) ↔ ((suffix : FilePath) × (path ≡ base ++ suffix))
unfolding is_relative_to
is_relative_to_iff path [] = (λ h. (path, refl), λ h. refl)
is_relative_to_iff [] (b ∷ base) = (λ h. cc, λ (s, e). cc)
is_relative_to_iff (a ∷ path) (b ∷ base) =
    let ih = is_relative_to_iff path base in
    (
      λ h.
          let both : (text_eq a b ≡ true) × (is_relative_to path base ≡ true) = ground arith in
          let (s, e) = ih.0 both.1 in (s, cc (e, (text_eq_iff a b).0 both.0)),
      λ (s, e). ground (arith, text_eq_iff a b, ih.1 (s, cc)),
    )

pub is_relative_to_refl : (p : FilePath) → is_relative_to p p ≡ true
unfolding is_relative_to
is_relative_to_refl [] = refl
is_relative_to_refl (a ∷ p) = ground (arith, text_eq_iff a a, is_relative_to_refl p)

pub is_relative_to_trans :
    (p q r : FilePath)
    → is_relative_to p q ≡ true
    → is_relative_to q r ≡ true
    → is_relative_to p r ≡ true
unfolding is_relative_to
is_relative_to_trans p q [] h k = refl
is_relative_to_trans p [] (c ∷ r) h k = cc
is_relative_to_trans [] (b ∷ q) (c ∷ r) h k = cc
is_relative_to_trans (a ∷ p) (b ∷ q) (c ∷ r) h k =
    ground (arith, text_eq_iff a b, text_eq_iff b c, text_eq_iff a c, is_relative_to_trans p q r)

pub is_relative_to_antisymm :
    (p q : FilePath) → is_relative_to p q ≡ true → is_relative_to q p ≡ true → p ≡ q
unfolding is_relative_to
is_relative_to_antisymm [] [] h k = refl
is_relative_to_antisymm [] (b ∷ q) h k = cc
is_relative_to_antisymm (a ∷ p) [] h k = cc
is_relative_to_antisymm (a ∷ p) (b ∷ q) h k =
    ground (arith, text_eq_iff a b, is_relative_to_antisymm p q)
