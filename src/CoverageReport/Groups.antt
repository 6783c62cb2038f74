-- ===== src/CoverageReport/Groups.antt =====
-- `group_consecutive_numbers` of coverage_report.py.
use mathlib.Core.List.{append_assoc}
use public_endorsement_servi.Base.{
  subst, ◌≡◌, refl, sym, ap, ◌≢◌, ◌⊎◌, inl, inr, true, false, List, [], ◌∷◌, ◌++◌, map,
  if◌then◌else◌, Bool-cases, Text, chars, join,
}
use public_endorsement_servi.Base.Integers.{ℤ, int_eq, int_eq_iff, int_le, int_suc}
use public_endorsement_servi.Base.Decimal.{show_int}
use public_endorsement_servi.Base.Sort.{sort}

-- A pair (start, end) of the loop's `start_of_range` and `end_of_range`.
abbrev pub Range : Type 0
Range = ℤ × ℤ

unfoldable pub range_text : Range → Text
unfolding show_int
range_text (start, end) =
    if int_eq start end then show_int start else show_int start ++ chars "-" ++ show_int end

-- The loop over sorted_numbers[1:], with `start_of_range` and the number before.
unfoldable pub group_loop : ℤ → ℤ → List ℤ → List Range
group_loop start previous [] = (start, previous) ∷ []
group_loop start previous (n ∷ numbers) =
    let broken = (start, previous) ∷ group_loop n n numbers in
    let longer = group_loop start n numbers in
    if int_eq n (int_suc previous) then longer else broken

unfoldable pub ranges_of : List ℤ → List Range
unfolding group_loop
ranges_of [] = []
ranges_of (n ∷ numbers) = group_loop n n numbers

unfoldable pub group_consecutive_numbers : List ℤ → Text
unfolding ranges_of range_text sort
group_consecutive_numbers numbers =
    join (chars ", ") (map range_text (ranges_of (sort int_le numbers)))

-- The list a, a + 1, ..., b.
abbrev pub IsRun : ℤ → ℤ → List ℤ → Type 0
IsRun a b [] = ⊥
IsRun a b (n ∷ ns) = (n ≡ a) × (((ns ≡ []) × (a ≡ b)) ⊎ IsRun (int_suc a) b ns)

-- What stands behind a range ending in b does not go on with b + 1.
abbrev pub Breaks : ℤ → List ℤ → Type 0
Breaks b [] = Unit
Breaks b (n ∷ ns) = n ≢ int_suc b

-- The numbers are cut, in order, into one run for each range, and no run could be longer.
abbrev pub IsGrouped : List ℤ → List Range → Type 0
IsGrouped numbers [] = numbers ≡ []
IsGrouped numbers ((start, end) ∷ ranges) =
    (run : List ℤ) × (rest : List ℤ) × (numbers ≡ run ++ rest)
    × IsRun start end run
    × Breaks end rest
    × IsGrouped rest ranges

IsRun-append : (a b : ℤ) (ns : List ℤ) → IsRun a b ns → IsRun a (int_suc b) (ns ++ (int_suc b ∷ []))
IsRun-append a b [] h = absurd h
IsRun-append a b (n ∷ ns) (first, inl (last, one)) =
    rw last (first, inr (ap int_suc (sym one), inl (refl, ap int_suc one)))
IsRun-append a b (n ∷ ns) (first, inr more) = (first, inr (IsRun-append (int_suc a) b ns more))

differs : (n previous : ℤ) → int_eq n (int_suc previous) ≡ false → n ≢ int_suc previous
differs n previous gap e =
    let same : int_eq n (int_suc previous) ≡ true = (int_eq_iff n (int_suc previous)).1 e in cc

group_loop-IsGrouped :
    (run : List ℤ) (start previous : ℤ) (numbers : List ℤ)
    → IsRun start previous run
    → IsGrouped (run ++ numbers) (group_loop start previous numbers)
unfolding group_loop
group_loop-IsGrouped run start previous [] h = (run, [], refl, h, tt, refl)
group_loop-IsGrouped run start previous (n ∷ numbers) h =
    elim (Bool-cases (int_eq n (int_suc previous))) [
      | inl next ↦ rw next (
          subst (λ (x : ℤ). IsGrouped (run ++ x ∷ numbers) (group_loop start x numbers))
            (sym ((int_eq_iff n (int_suc previous)).0 next))
            (subst (λ (l : List ℤ). IsGrouped l (group_loop start (int_suc previous) numbers))
              (append_assoc run (int_suc previous ∷ []) numbers)
              (group_loop-IsGrouped (run ++ (int_suc previous ∷ [])) start (int_suc previous)
                numbers (IsRun-append start previous run h))))
      | inr gap ↦ rw gap (
        run,
        n ∷ numbers,
        refl,
        h,
        differs n previous gap,
        group_loop-IsGrouped (n ∷ []) n n numbers (refl, inl (refl, refl)),
      )
    ]

-- The ranges of `group_consecutive_numbers` cut the sorted numbers, in order and with none lost,
-- into runs of consecutive numbers, and each run is as long as it can be.
pub ranges_of-IsGrouped : (numbers : List ℤ) → IsGrouped numbers (ranges_of numbers)
unfolding ranges_of
ranges_of-IsGrouped [] = refl
ranges_of-IsGrouped (n ∷ numbers) =
    group_loop-IsGrouped (n ∷ []) n n numbers (refl, inl (refl, refl))
