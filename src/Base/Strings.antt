-- ===== src/Base/Strings.antt =====
-- Python's `str` as the list of its code points, with the operations that the scripts use.
use Prim.Native.Char.{code}
use Prim.Native.String.{String}
use Prim.Native.Nat.{ℕ, zero, suc}
use mathlib.Core.Path.{◌≡◌, refl}
use mathlib.Core.Logic.{◌↔◌}
use mathlib.Core.Bool.{Bool, true, false, ◌&&◌, ◌||◌}
use mathlib.Core.Option.{Option, none, some}
use mathlib.Core.List.{List, [], ◌∷◌, ◌++◌, reverse}
use native.Mathlib.Omega.{arith}
use public_endorsement_servi.Base.Tests.{◌==◌, leb, if◌then◌else◌}
use public_endorsement_servi.Base.Lists.{length}

abbrev pub Text : Type 0
Text = List ℕ

-- The code points of a literal. Shut, so that proofs carry the literal and not its expansion.
unfoldable pub chars : String → Text
chars String.[] = []
chars (String.◌∷◌ c s) = code c ∷ chars s

-- s == t
unfoldable pub text_eq : Text → Text → Bool
text_eq [] [] = true
text_eq [] (d ∷ t) = false
text_eq (c ∷ s) [] = false
text_eq (c ∷ s) (d ∷ t) = (c == d) && text_eq s t

pub text_eq_iff : (s t : Text) → (text_eq s t ≡ true) ↔ (s ≡ t)
unfolding text_eq
text_eq_iff [] [] = (λ h. refl, λ h. refl)
text_eq_iff [] (d ∷ t) = (λ h. cc, λ h. cc)
text_eq_iff (c ∷ s) [] = (λ h. cc, λ h. cc)
text_eq_iff (c ∷ s) (d ∷ t) = ground (arith, text_eq_iff s t)

-- s.startswith(p)
unfoldable pub starts_with : Text → Text → Bool
starts_with s [] = true
starts_with [] (d ∷ p) = false
starts_with (c ∷ s) (d ∷ p) = (c == d) && starts_with s p

-- s.replace(p, "") for a non-empty p: the first argument counts the matched characters still to
-- be skipped.
unfoldable pub remove_from : ℕ → Text → Text → Text
remove_from n p [] = []
remove_from (suc n) p (c ∷ s) = remove_from n p s
remove_from zero [] (c ∷ s) = c ∷ s
remove_from zero (d ∷ p) (c ∷ s) = elim (starts_with (c ∷ s) (d ∷ p)) [
  | true ↦ remove_from (length p) (d ∷ p) s
  | false ↦ c ∷ remove_from zero (d ∷ p) s
]

unfoldable pub remove_all : Text → Text → Text
unfolding remove_from starts_with
remove_all p s = remove_from zero p s

-- The whitespace that `str.strip()` takes away, in ASCII.
abbrev pub is_space : ℕ → Bool
is_space c = (c == 32) || (leb 9 c && leb c 13) || (leb 28 c && leb c 31)

unfoldable pub lstrip : Text → Text
lstrip [] = []
lstrip (c ∷ s) = let rest = lstrip s in if is_space c then rest else c ∷ s

-- s.strip()
unfoldable pub strip : Text → Text
unfolding lstrip
strip s = reverse (lstrip (reverse (lstrip s)))

-- The part before the first `d`, and the part after it if there is a `d`: s.split(d, 1).
unfoldable pub cut : ℕ → Text → Text × Option Text
cut d [] = ([], none)
cut d (c ∷ s) = let r = cut d s in if c == d then ([], some s) else (c ∷ r.0, r.1)

abbrev pub prepend : ℕ → List Text → List Text
prepend c [] = (c ∷ []) ∷ []
prepend c (w ∷ ws) = (c ∷ w) ∷ ws

-- s.split(d)
unfoldable pub split : ℕ → Text → List Text
split d [] = [] ∷ []
split d (c ∷ s) = let ws = split d s in if c == d then [] ∷ ws else prepend c ws

-- sep.join(ws)
unfoldable pub join : Text → List Text → Text
join sep [] = []
join sep (w ∷ []) = w
join sep (w ∷ v ∷ ws) = w ++ sep ++ join sep (v ∷ ws)
