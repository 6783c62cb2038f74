-- ===== src/Base/Splits.antt =====
-- Splitting a text at a character that its pieces lack, and removing a tag from digits.
use public_endorsement_servi.Base.Tests.{◌==◌, Bool-cases}
use public_endorsement_servi.Base.Lists.{All}
use public_endorsement_servi.Base.Strings.{Text, split, cut, remove_from, starts_with}
use public_endorsement_servi.Base.Decimal.{IsDigits, is_digit}
use Prim.Native.Nat.{ℕ, zero}
use mathlib.Core.Path.{ap, ◌≡◌, refl}
use mathlib.Core.Bool.{false}
use mathlib.Core.Option.{some}
use mathlib.Core.Logic.{inl, inr}
use mathlib.Core.List.{List, [], ◌∷◌, ◌++◌}
use native.Mathlib.Omega.{arith}

-- No character of the text is `d`.
abbrev pub Lacks : ℕ → Text → Type 0
Lacks d = All (λ c. (c == d) ≡ false)

pub split-Lacks : (d : ℕ) (s : Text) → Lacks d s → split d s ≡ s ∷ []
unfolding split
split-Lacks d [] h = refl
split-Lacks d (c ∷ s) h = rw (h.0, split-Lacks d s h.1)

pub split-append : (d : ℕ) (s t : Text) → Lacks d s → split d (s ++ d ∷ t) ≡ s ∷ split d t
unfolding split
split-append d [] t h = ground arith
split-append d (c ∷ s) t h = rw (h.0, split-append d s t h.1)

pub digits-Lacks : (d : ℕ) (s : Text) → is_digit d ≡ false → IsDigits s → Lacks d s
digits-Lacks d [] h k = tt
digits-Lacks d (c ∷ s) h k = (ground arith, digits-Lacks d s h k.1)

pub remove_from-Lacks : (d : ℕ) (p s : Text) → Lacks d s → remove_from zero (d ∷ p) s ≡ s
unfolding remove_from starts_with
remove_from-Lacks d p [] h = refl
remove_from-Lacks d p (c ∷ s) h = ground (arith, remove_from-Lacks d p s h.1)

pub split-cases : (d : ℕ) (s : Text) → (w : Text) × (ws : List Text) × (split d s ≡ w ∷ ws)
unfolding split
split-cases d [] = ([], [], refl)
split-cases d (c ∷ s) = elim (Bool-cases (c == d)) [
  | inl y ↦ ([], split d s, rw (y) refl)
  | inr n ↦ let (w, ws, e) = split-cases d s in (c ∷ w, ws, rw (n, e) refl)
]

-- Splitting at a separator: the pieces before it, then those after it.
pub split-++ : (d : ℕ) (s t : Text) → split d (s ++ d ∷ t) ≡ split d s ++ split d t
unfolding split
split-++ d [] t = ground arith
split-++ d (c ∷ s) t = elim (Bool-cases (c == d)) [
  | inl y ↦ rw (y, split-++ d s t) refl
  | inr n ↦ let (w, ws, e) = split-cases d s in rw (n, split-++ d s t, e) refl
]

pub cut-append : (d : ℕ) (s t : Text) → Lacks d s → cut d (s ++ d ∷ t) ≡ (s, some t)
unfolding cut
cut-append d [] t h = ground arith
cut-append d (c ∷ s) t h = rw (h.0, cut-append d s t h.1) refl

pub Lacks-append : (d : ℕ) (s t : Text) → Lacks d s → Lacks d t → Lacks d (s ++ t)
Lacks-append d [] t h k = k
Lacks-append d (c ∷ s) t h k = (h.0, Lacks-append d s t h.1 k)

-- Where there is a `d`, the first one follows what was cut off.
pub cut-some :
    (d : ℕ) (s v : Text) → (cut d s).1 ≡ some v → Lacks d (cut d s).0 × (s ≡ (cut d s).0 ++ d ∷ v)
unfolding cut
cut-some d [] v e = cc
cut-some d (c ∷ s) v e = elim (Bool-cases (c == d)) [
  | inl y ↦
      let same : some s ≡ some v = rw (y, cut) at e in
      let first : c ≡ d = ground arith in rw (y, cut) (tt, cc)
  | inr n ↦
      let there : (cut d s).1 ≡ some v = rw (n, cut) at e in
      let (lacks, form) = cut-some d s v there in rw (n, cut) ((n, lacks), ap (λ t. c ∷ t) form)
]
