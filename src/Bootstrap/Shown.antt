-- ===== src/Bootstrap/Shown.antt =====
-- Which lines the excerpts of bootstrap.py show.
use public_endorsement_servi.Base.{
  ℕ, zero, suc, ◌+◌, ◌-◌, ◌≤◌, ◌≡◌, refl, ap, ◌∙◌, inl, inr, true, some, some-injective, List, [],
  ◌∷◌, arith, leb, length, drop, get_elem?, In, Text,
}
use public_endorsement_servi.Bootstrap.Excerpt.{excerpt_line, excerpt_from, excerpt}

length-excerpt_from :
    (lineno last number : ℕ) (lines : List Text)
    → length (excerpt_from lineno last number lines) + number ≤ suc last + (number - suc last)
unfolding excerpt_from
length-excerpt_from lineno last number [] = omega arith
length-excerpt_from lineno last number (line ∷ lines) =
    let ih = length-excerpt_from lineno last (suc number) lines in ground arith

excerpt_from-In :
    (lineno last number k m : ℕ) (lines : List Text) (line : Text)
    → m ≡ number + k
    → get_elem? lines k ≡ some line
    → m ≤ last
    → In (excerpt_line lineno m line) (excerpt_from lineno last number lines)
unfolding excerpt_from
excerpt_from-In lineno last number k m [] line same e h = cc
excerpt_from-In lineno last number zero m (l ∷ lines) line same e h =
    let here : leb number last ≡ true = ground arith in
    let first : m ≡ number = omega arith in
    let it : l ≡ line = some-injective _ _ e in rw here (inl (cc (first, it)))
excerpt_from-In lineno last number (suc k) m (l ∷ lines) line same e h =
    let here : leb number last ≡ true = ground arith in
    rw here (inr (excerpt_from-In lineno last (suc number) k m lines line (omega arith) e h))

get_elem?-drop :
    (n k j : ℕ) (lines : List Text) → j ≡ n + k → get_elem? (drop n lines) k ≡ get_elem? lines j
get_elem?-drop zero k j lines same = ap (get_elem? lines) (omega arith)
get_elem?-drop (suc n) k j [] same = refl
get_elem?-drop (suc n) k zero (l ∷ lines) same = absurd (omega arith)
get_elem?-drop (suc n) k (suc j) (l ∷ lines) same = get_elem?-drop n k j lines (omega arith)

-- An excerpt has at most seven lines. A line of the template is among them, with its own number and
-- with the mark of the error if it is the line of the error, whenever it is at most three lines
-- before or behind that line.
pub excerpt-In :
    (lineno : ℕ) (lines : List Text)
    → (length (excerpt lineno lines) ≤ 7)
      × ((k : ℕ) (line : Text)
          → get_elem? lines k ≡ some line
          → lineno ≤ suc k + 3
          → suc k ≤ lineno + 3
          → In (excerpt_line lineno (suc k) line) (excerpt lineno lines))
unfolding excerpt
excerpt-In lineno lines = (
  omega
      (arith, length-excerpt_from lineno (lineno + 3) (suc (lineno - 4)) (drop (lineno - 4) lines)),
  λ k line e before behind.
      let from = lineno - 4 in
      excerpt_from-In lineno (lineno + 3) (suc from) (k - from) (suc k) (drop from lines) line
        (omega arith) (get_elem?-drop from (k - from) k lines (omega arith) ∙ e) (omega arith),
)
