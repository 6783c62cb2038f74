-- ===== src/Base/Decimal.antt =====
-- Decimal numbers: `str(n)` of a natural number, and `int(s)`. The parser takes ASCII digits, with
-- a sign, surrounding space and single underscores between digits, as Python's does.
use Prim.Native.Nat.{ℕ, zero, suc, ◌+◌, ◌-◌, ◌*◌, ◌/◌, ◌%◌, ◌<◌}
use mathlib.Core.Path.{◌≡◌, refl, ◌∙◌, ap}
use mathlib.Core.Logic.{◌⊎◌, inl, inr}
use mathlib.Core.Bool.{Bool, true, false, ◌&&◌}
use mathlib.Core.Option.{Option, none, some}
use mathlib.Core.List.{[], ◌∷◌, ◌++◌, reverse, reverse-append, reverse-reverse}
use native.Mathlib.Omega.{arith}
use public_endorsement_servi.Base.Tests.{
  leb, ltb, ◌==◌, Option-cases, if◌then◌else◌, lt→ltb, le→ltb,
}
use public_endorsement_servi.Base.Integers.{ℤ, pos, negsuc}
use public_endorsement_servi.Base.Strings.{Text, lstrip, strip}
use public_endorsement_servi.Base.Lists.{All}
use native.Mathlib.Decide.{dec_lt}
use public_endorsement_servi.Base.Outcomes.{Outcome, ok, raised, invalid_literal}

-- The digits of n in front of acc. The fuel is above the number of digits.
digits_onto : ℕ → ℕ → Text → Text
digits_onto zero n acc = acc
digits_onto (suc f) n acc =
    let more = digits_onto f (n / 10) ((48 + n % 10) ∷ acc) in
    if ltb n 10 then (48 + n) ∷ acc else more

-- str(n)
unfoldable pub show : ℕ → Text
unfolding digits_onto
show n = digits_onto (suc n) n []

-- str(i)
unfoldable pub show_int : ℤ → Text
unfolding show
show_int (pos n) = show n
show_int (negsuc n) = b'-' ∷ show (suc n)

abbrev pub is_digit : ℕ → Bool
is_digit c = leb 48 c && leb c 57

-- What may follow: a digit, or one underscore and a digit. The flag is set where a digit must come.
read_digits : Bool → ℕ → Text → Option ℕ
read_digits true acc [] = none
read_digits false acc [] = some acc
read_digits must acc (c ∷ s) = elim (is_digit c) [
  | true ↦ read_digits false (acc * 10 + (c - 48)) s
  | false ↦ elim must [
    | true ↦ none
    | false ↦ elim (c == 95) [ true ↦ read_digits true acc s | false ↦ none ]
  ]
]

abbrev minus : ℕ → ℤ
minus zero = pos zero
minus (suc n) = negsuc n

read_signed : Text → Option ℤ
unfolding read_digits
read_signed [] = none
read_signed (c ∷ s) =
    if c == 43
    then elim (read_digits true 0 s) [ none ↦ none | some n ↦ some (pos n) ]
    else if c == 45
    then elim (read_digits true 0 s) [ none ↦ none | some n ↦ some (minus n) ]
    else elim (read_digits true 0 (c ∷ s)) [ none ↦ none | some n ↦ some (pos n) ]

-- int(s)
unfoldable pub parse_int : Text → Outcome ℤ
unfolding read_signed
parse_int s = elim (read_signed (strip s)) [ none ↦ raised invalid_literal | some z ↦ ok z ]

-- A text that is no number is the only failure.
pub parse_int-cases :
    (s : Text) → ((z : ℤ) × (parse_int s ≡ ok z)) ⊎ (parse_int s ≡ raised invalid_literal)
unfolding parse_int
parse_int-cases s = elim (Option-cases (read_signed (strip s))) [
  | inl e ↦ inr (rw (e, parse_int) refl)
  | inr (z, e) ↦ inl (z, rw (e, parse_int) refl)
]

-- One digit read.
read_digits-cons :
    (must : Bool) (a d : ℕ) (s : Text)
    → d < 10
    → read_digits must a ((48 + d) ∷ s) ≡ read_digits false (a * 10 + d) s
unfolding read_digits
read_digits-cons must a d s h =
    let e : a * 10 + (48 + d - 48) ≡ a * 10 + d = omega arith in
    ground (arith, ap (λ (x : ℕ). read_digits false x s) e)

-- Reading the digits of a number goes on with what stands behind them, at that number.
read_digits-digits_onto :
    (f n : ℕ) (must : Bool) (s : Text)
    → n < f
    → read_digits must 0 (digits_onto f n s) ≡ read_digits false n s
unfolding digits_onto
read_digits-digits_onto zero n must s h = absurd (omega arith)
read_digits-digits_onto (suc f) n must s h = elim (dec_lt n 10) [
  | yes p ↦
      rw (lt→ltb n 10 p)
        (read_digits-cons must 0 n s p ∙ ap (λ (x : ℕ). read_digits false x s) (omega arith))
  | no p ↦ rw (le→ltb n 10 (omega arith)) (
      read_digits-digits_onto f (n / 10) must ((48 + n % 10) ∷ s) (omega arith)
      ∙ read_digits-cons false (n / 10) (n % 10) s (omega arith)
      ∙ ap (λ (x : ℕ). read_digits false x s) (omega arith))
]

-- Every character is a digit.
abbrev pub IsDigits : Text → Type 0
IsDigits = All (λ c. is_digit c ≡ true)

digits_onto-IsDigits : (f n : ℕ) (s : Text) → IsDigits s → IsDigits (digits_onto f n s)
unfolding digits_onto
digits_onto-IsDigits zero n s h = h
digits_onto-IsDigits (suc f) n s h = elim (dec_lt n 10) [
  | yes p ↦ rw (lt→ltb n 10 p) (ground arith, h)
  | no p ↦
      rw (le→ltb n 10 (omega arith))
        (digits_onto-IsDigits f (n / 10) ((48 + n % 10) ∷ s) (ground arith, h))
]

lstrip_digits : (s : Text) → IsDigits s → lstrip s ≡ s
unfolding lstrip
lstrip_digits [] h = refl
lstrip_digits (c ∷ s) h = ground arith

append-IsDigits : (s t : Text) → IsDigits s → IsDigits t → IsDigits (s ++ t)
append-IsDigits [] t h k = k
append-IsDigits (c ∷ s) t h k = (h.0, append-IsDigits s t h.1 k)

reverse-IsDigits : (s : Text) → IsDigits s → IsDigits (reverse s)
reverse-IsDigits [] h = tt
reverse-IsDigits (c ∷ s) h =
    rw (reverse-append (c ∷ []) s)
      (append-IsDigits (reverse s) (c ∷ []) (reverse-IsDigits s h.1) (h.0, tt))

strip_digits : (s : Text) → IsDigits s → strip s ≡ s
unfolding strip
strip_digits s h =
    rw (lstrip_digits s h, lstrip_digits (reverse s) (reverse-IsDigits s h)) (reverse-reverse s)

read_signed_digits :
    (s : Text) (n : ℕ) → IsDigits s → read_digits true 0 s ≡ some n → read_signed s ≡ some (pos n)
unfolding read_signed
read_signed_digits [] n h e = cc
read_signed_digits (c ∷ s) n h e = ground arith

parse_int_digits :
    (s : Text) (n : ℕ) → IsDigits s → read_digits true 0 s ≡ some n → parse_int s ≡ ok (pos n)
unfolding parse_int
parse_int_digits s n h e = rw (strip_digits s h, read_signed_digits s n h e, parse_int)

-- `int(str(n))` is n.
pub parse_int-show : (n : ℕ) → parse_int (show n) ≡ ok (pos n)
unfolding show read_digits
parse_int-show n =
    parse_int_digits _ n (digits_onto-IsDigits (suc n) n [] tt)
      (read_digits-digits_onto (suc n) n true [] (omega arith))

pub show-IsDigits : (n : ℕ) → IsDigits (show n)
unfolding show
show-IsDigits n = digits_onto-IsDigits (suc n) n [] tt
