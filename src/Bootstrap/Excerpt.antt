-- ===== src/Bootstrap/Excerpt.antt =====
-- The excerpt of a template around an error, in `copy_and_template` of bootstrap.py.
use public_endorsement_servi.Base.{
  ℕ, suc, ◌+◌, ◌-◌, Bool, ◌&&◌, ◌||◌, List, [], ◌∷◌, ◌++◌, ◌==◌, leb, prepend, if◌then◌else◌,
  length, replicate, drop, Text, chars,
}
use public_endorsement_servi.Base.Decimal.{show}

-- The characters at which `str.splitlines` ends a line. A carriage return is not among them: text
-- that has been read from a file has none.
abbrev pub ends_line : ℕ → Bool
ends_line c =
    (leb 10 c && leb c 12) || (leb 28 c && leb c 30) || (c == 133) || (c == 8232) || (c == 8233)

-- content.splitlines()
unfoldable pub splitlines : Text → List Text
splitlines [] = []
splitlines (c ∷ s) = let rest = splitlines s in if ends_line c then [] ∷ rest else prepend c rest

-- A line with its number in four columns, and a mark if it is the one of the error.
unfoldable pub excerpt_line : ℕ → ℕ → Text → Text
unfolding show chars
excerpt_line lineno number line =
    let shown = show number in
    chars "    "
    ++ replicate (4 - length shown) b' '
    ++ shown
    ++ (if number == lineno then chars " >" else chars "  ")
    ++ (b' ' ∷ line)

-- The lines from the given number on, as far as `last`.
unfoldable pub excerpt_from : ℕ → ℕ → ℕ → List Text → List Text
unfolding excerpt_line
excerpt_from lineno last number [] = []
excerpt_from lineno last number (line ∷ lines) =
    let rest = excerpt_from lineno last (suc number) lines in
    if leb number last then excerpt_line lineno number line ∷ rest else []

-- for i in range(max(0, lineno - 4), min(len(lines), lineno + 3))
unfoldable pub excerpt : ℕ → List Text → List Text
unfolding excerpt_from
excerpt lineno lines = excerpt_from lineno (lineno + 3) (suc (lineno - 4)) (drop (lineno - 4) lines)
