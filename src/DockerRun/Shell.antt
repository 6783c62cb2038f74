-- ===== src/DockerRun/Shell.antt =====
-- What docker_run.py takes from the shell's conventions: `os.path.expandvars` and `shlex.split`.
use public_endorsement_servi.Base.{
  ℕ, zero, suc, Bool, true, false, ◌&&◌, ◌||◌, Option, none, some, List, [], ◌∷◌, ◌++◌, ◌==◌, leb,
  if◌then◌else◌, length, Text, chars, Dict, lookup, cut, Outcome, ok, raised, value_error, ◌>>=◌,
}

-- \w, in ASCII
abbrev pub is_word_char : ℕ → Bool
is_word_char c =
    (leb b'a' c && leb c b'z')
    || (leb b'A' c && leb c b'Z')
    || (leb b'0' c && leb c b'9')
    || (c == b'_')

-- The longest \w* in front.
unfoldable pub word_in_front : Text → Text
word_in_front [] = []
word_in_front (c ∷ s) = let rest = word_in_front s in if is_word_char c then c ∷ rest else []

-- \{[^}]*\} behind the brace: the name, if there is a closing brace.
unfoldable pub braced_name : Text × Option Text → Option (Text × ℕ)
braced_name (name, none) = none
braced_name (name, some rest) = some (name, suc (suc (length name)))

unfoldable pub plain_name : Text → Option (Text × ℕ)
plain_name [] = none
plain_name (c ∷ name) = some (c ∷ name, suc (length name))

-- (\w+|\{[^}]*\}) in front: the variable's name, and how many characters it takes.
unfoldable pub variable_in_front : Text → Option (Text × ℕ)
unfolding word_in_front braced_name plain_name cut
variable_in_front [] = none
variable_in_front (c ∷ s) =
    if c == b'{' then braced_name (cut b'}' s) else plain_name (word_in_front (c ∷ s))

-- What a "$" becomes, and how many characters behind it are dropped and how many are kept as they
-- are: a variable that is not set stays.
unfoldable pub dollar : Dict Text → Option (Text × ℕ) → Text × (ℕ × ℕ)
unfolding lookup
dollar environ none = (b'$' ∷ [], (0, 0))
dollar environ (some (name, taken)) = elim (lookup name environ) [
  | none ↦ (b'$' ∷ [], (0, taken))
  | some value ↦ (value, (taken, 0))
]

-- os.path.expandvars; a value is not expanded again. The counters are those of `dollar`.
unfoldable pub expand_from : Dict Text → ℕ → ℕ → Text → Text
unfolding dollar variable_in_front
expand_from environ dropped kept [] = []
expand_from environ (suc dropped) kept (c ∷ s) = expand_from environ dropped kept s
expand_from environ zero (suc kept) (c ∷ s) = c ∷ expand_from environ zero kept s
expand_from environ zero zero (c ∷ s) =
    let (text, (dropped, kept)) = dollar environ (variable_in_front s) in
    elim (c == b'$') [
      | true ↦ text ++ expand_from environ dropped kept s
      | false ↦ c ∷ expand_from environ zero zero s
    ]

unfoldable pub expandvars : Dict Text → Text → Text
unfolding expand_from
expandvars environ s = expand_from environ zero zero s

-- Where `shlex` stands: between words, in a word, in a quotation, or behind a backslash, which
-- stands in a word or in double quotes.
pub data LexState : Type 0 where
  between in_word in_single in_double escaped escaped_double : LexState

-- shlex.whitespace
abbrev pub is_shell_space : ℕ → Bool
is_shell_space c = (c == 32) || (c == 9) || (c == 13) || (c == 10)

-- The end of a word: it counts if it is not empty or had a quotation.
unfoldable pub emit : Text → Bool → Outcome (List Text) → Outcome (List Text)
emit [] false rest = rest
emit token quoted rest = rest >>= λ words. ok (token ∷ words)

-- What a character does outside of quotations: the state and the word after it.
unfoldable pub plain_step : ℕ → Text → LexState × Text
plain_step c token =
    if c == b'\\'
    then (escaped, token)
    else if c == b'\''
    then (in_single, token)
    else if c == b'"'
    then (in_double, token)
    else (in_word, token ++ (c ∷ []))

-- In double quotes.
unfoldable pub double_step : ℕ → Text → LexState × Text
double_step c token =
    if c == b'"'
    then (in_word, token)
    else if c == b'\\'
    then (escaped_double, token)
    else (in_double, token ++ (c ∷ []))

unfoldable pub single_step : ℕ → Text → LexState × Text
single_step c token = if c == b'\'' then (in_word, token) else (in_single, token ++ (c ∷ []))

-- Behind a backslash in double quotes: it stays, unless it stands before '"' or another one.
unfoldable pub escaped_double_step : ℕ → Text → LexState × Text
escaped_double_step c token = (
  in_double,
  if (c == b'\\') || (c == b'"') then token ++ (c ∷ []) else token ++ (b'\\' ∷ c ∷ []),
)

-- One character: the state, the word, and whether it had a quotation; spaces are taken before.
unfoldable pub lex_step : LexState → ℕ → Text → Bool → LexState × Text × Bool
unfolding plain_step double_step single_step escaped_double_step
lex_step between c token quoted = let (s, t) = plain_step c token in (s, t, quoted)
lex_step in_word c token quoted = let (s, t) = plain_step c token in (s, t, quoted)
lex_step in_single c token quoted = let (s, t) = single_step c token in (s, t, true)
lex_step in_double c token quoted = let (s, t) = double_step c token in (s, t, true)
lex_step escaped c token quoted = (in_word, token ++ (c ∷ []), quoted)
lex_step escaped_double c token quoted = let (s, t) = escaped_double_step c token in (s, t, quoted)

-- Whether a character ends the word.
unfoldable pub ends_word : LexState → ℕ → Bool
ends_word between c = is_shell_space c
ends_word in_word c = is_shell_space c
ends_word _ c = false

-- The end of the text.
unfoldable pub lex_end : LexState → Text → Bool → Outcome (List Text)
unfolding emit
lex_end between token quoted = emit token quoted (ok [])
lex_end in_word token quoted = emit token quoted (ok [])
lex_end in_single token quoted = raised (value_error (chars "No closing quotation"))
lex_end in_double token quoted = raised (value_error (chars "No closing quotation"))
lex_end escaped token quoted = raised (value_error (chars "No escaped character"))
lex_end escaped_double token quoted = raised (value_error (chars "No escaped character"))

unfoldable pub lex : LexState → Text → Bool → Text → Outcome (List Text)
unfolding emit lex_step ends_word lex_end
lex state token quoted [] = lex_end state token quoted
lex state token quoted (c ∷ s) =
    let (next, grown, had) = lex_step state c token quoted in
    elim (ends_word state c) [
      | true ↦ emit token quoted (lex between [] false s)
      | false ↦ lex next grown had s
    ]

-- shlex.split(s)
unfoldable pub shlex_split : Text → Outcome (List Text)
unfolding lex
shlex_split s = lex between [] false s
