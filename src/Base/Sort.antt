-- ===== src/Base/Sort.antt =====
-- `sorted` and `list.sort`, as the insertion sort that a Boolean order gives, and the order of
-- Python on texts and on paths.
use mathlib.Core.Path.{◌≡◌}
use mathlib.Core.Logic.{◌⊎◌, ◌↔◌, inl, inr}
use mathlib.Core.Bool.{Bool, true, false}
use mathlib.Core.List.{List, [], ◌∷◌}
use public_endorsement_servi.Base.Tests.{if◌then◌else◌, Bool-cases, ltb, ◌==◌}
use public_endorsement_servi.Base.Lists.{In}
use public_endorsement_servi.Base.Strings.{Text, text_eq}
use public_endorsement_servi.Base.Paths.{FilePath}

-- s <= t, by code points
unfoldable pub text_le : Text → Text → Bool
text_le [] t = true
text_le (c ∷ s) [] = false
text_le (c ∷ s) (d ∷ t) = if c == d then text_le s t else ltb c d

-- p <= q, by parts
unfoldable pub path_le : FilePath → FilePath → Bool
unfolding text_le text_eq
path_le [] q = true
path_le (a ∷ p) [] = false
path_le (a ∷ p) (b ∷ q) = if text_eq a b then path_le p q else text_le a b

module _ {A : Type 0} (le : A → A → Bool) where
  insert_sorted : A → List A → List A
  insert_sorted a [] = a ∷ []
  insert_sorted a (x ∷ xs) = if le a x then a ∷ x ∷ xs else x ∷ insert_sorted a xs

  -- sorted(xs)
  unfoldable pub sort : List A → List A
  unfolding insert_sorted
  sort [] = []
  sort (x ∷ xs) = insert_sorted x (sort xs)

  In-insert_sorted : (b a : A) (xs : List A) → In b (insert_sorted a xs) ↔ ((b ≡ a) ⊎ In b xs)
  unfolding insert_sorted
  In-insert_sorted b a [] = (λ h. h, λ h. h)
  In-insert_sorted b a (x ∷ xs) = elim (Bool-cases (le a x)) [
    | inl e ↦ rw e (λ h. h, λ h. h)
    | inr e ↦
        let ih = In-insert_sorted b a xs in
        rw e (
          λ h. elim h [
            | inl p ↦ inr (inl p)
            | inr q ↦ elim (ih.0 q) [ inl p ↦ inl p | inr r ↦ inr (inr r) ]
          ],
          λ h. elim h [
            | inl p ↦ inr (ih.1 (inl p))
            | inr q ↦ elim q [ inl p ↦ inl p | inr r ↦ inr (ih.1 (inr r)) ]
          ],
        )
  ]

  -- Sorting keeps the members.
  pub In-sort : (b : A) (xs : List A) → In b (sort xs) ↔ In b xs
  unfolding sort
  In-sort b [] = (λ h. h, λ h. h)
  In-sort b (x ∷ xs) =
      let ih = In-sort b xs in
      let step = In-insert_sorted b x (sort xs) in
      (
        λ h. elim (step.0 h) [ inl p ↦ inl p | inr q ↦ inr (ih.0 q) ],
        λ h. elim h [ inl p ↦ step.1 (inl p) | inr q ↦ step.1 (inr (ih.1 q)) ],
      )
