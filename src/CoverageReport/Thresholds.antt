-- ===== src/CoverageReport/Thresholds.antt =====
-- `parse_thresholds_file` of coverage_report.py. `float()` of a JSON value and the tests on floats
-- are parameters.
use public_endorsement_servi.Base.{
  ◌≡◌, sym, ◌∙◌, subst, some-injective, Option-cases, inl, inr, Bool, true, ◌&&◌, none, some, [],
  ◌∷◌, ◌++◌, arith, if◌then◌else◌, Bool-cases, Text, chars, text_eq, Dict, lookup, insert,
  lookup-insert, Outcome, ok, raised, exited, Exn, value_error, file_not_found, is_value_error,
  ◌>>=◌, >>=-eq-ok,
}
use public_endorsement_servi.Base.Integers.{pos}
use public_endorsement_servi.Base.Json.{Json, object, pairs}

-- What the thresholds need of floats: `float(v)`, which may raise, the numbers 0.0 and 100.0, `<=`
-- and `/`.
pub record Percents (Float : Type 0) : Type 0 where
  pub float_of : Json → Outcome Float
  pub zero_percent : Float
  pub hundred_percent : Float
  pub le : Float → Float → Bool
  pub div : Float → Float → Float

module _ {Float : Type 0} (pc : Percents Float) where
  open pc use {float_of, zero_percent, hundred_percent, le, div}

  -- 0.0 <= x <= 100.0
  unfoldable pub in_range : Float → Bool
  in_range x = le zero_percent x && le x hundred_percent

  -- x / 100.0
  unfoldable pub over_100 : Float → Float
  over_100 x = div x hundred_percent

  -- The dictionaries `file_lines` and `file_branch`.
  pub record Thresholds : Type 0 where
    pub file_lines : Dict Float
    pub file_branch : Dict Float

  -- float(v), its range check with its message, and the division.
  unfoldable pub checked : Text → Json → Outcome Float
  unfolding in_range over_100
  checked message v =
      float_of v >>= λ val. if in_range val then ok (over_100 val) else raised (value_error message)

  -- One of the two optional values of a file's entry.
  unfoldable pub read_key : Text → Text → Text → Dict Json → Dict Float → Outcome (Dict Float)
  unfolding checked lookup insert
  read_key key label filepath vals table = elim (lookup key vals) [
    | none ↦ ok table
    | some v ↦
        checked (label ++ chars " for " ++ filepath ++ chars " must be in [0.0, 100.0]") v >>= λ x.
        ok (insert filepath x table)
  ]

  unfoldable pub read_entry : Text → Json → Thresholds → Outcome Thresholds
  unfolding read_key pairs
  read_entry filepath (object fs) t =
      read_key (chars "lines") (chars "Lines") filepath (pairs fs) t.file_lines >>= λ lines.
      read_key (chars "branch") (chars "Branch") filepath (pairs fs) t.file_branch >>= λ branch.
      ok (record { file_lines = lines; file_branch = branch })
  read_entry filepath _ t =
      raised (value_error (chars "Values for " ++ filepath ++ chars " must be a JSON object."))

  unfoldable pub read_entries : Dict Json → Thresholds → Outcome Thresholds
  unfolding read_entry
  read_entries [] t = ok t
  read_entries ((filepath, vals) ∷ entries) t = read_entry filepath vals t >>= read_entries entries

  unfoldable pub read_thresholds : Json → Outcome Thresholds
  unfolding read_entries pairs
  read_thresholds (object fs) =
      read_entries (pairs fs) (record { file_lines = []; file_branch = [] })
  read_thresholds _ = raised (value_error (chars "Root element must be a JSON object."))

  -- except (FileNotFoundError, json.JSONDecodeError, ValueError)
  unfoldable pub is_caught : Exn → Bool
  unfolding is_value_error
  is_caught file_not_found = true
  is_caught e = is_value_error e

  -- The `except` clause prints the error and exits.
  unfoldable pub handle_error : Outcome Thresholds → Outcome Thresholds
  unfolding is_caught
  handle_error (ok t) = ok t
  handle_error (raised e) = if is_caught e then exited (pos 1) else raised e
  handle_error (exited n) = exited n

  -- `loaded` is what opening the file and `json.load` come to.
  unfoldable pub parse_thresholds_file : Outcome Json → Outcome Thresholds
  unfolding read_thresholds handle_error
  parse_thresholds_file loaded = handle_error (loaded >>= read_thresholds)

  -- Every value of a table is a number from 0 to 100, divided by 100.
  abbrev pub IsChecked : Dict Float → Type 0
  IsChecked table =
      (p : Text) (t : Float)
      → lookup p table ≡ some t
      → (x : Float) × (le zero_percent x ≡ true)
        × (le x hundred_percent ≡ true)
        × (t ≡ div x hundred_percent)

  checked_lem :
      (message : Text) (v : Json) (t : Float)
      → checked message v ≡ ok t
      → (x : Float) × (le zero_percent x ≡ true)
        × (le x hundred_percent ≡ true)
        × (t ≡ div x hundred_percent)
  unfolding checked in_range over_100
  checked_lem message v t e =
      let (x, read, rest) = >>=-eq-ok (float_of v) _ e in
      elim (Bool-cases (in_range x)) [
        | inl y ↦ (x, ground arith, ground arith, ground arith)
        | inr n ↦ let clash : raised (value_error message) ≡ ok t = rw n at rest in cc
      ]

  insert-IsChecked :
      (filepath : Text) (v x : Float) (table : Dict Float)
      → le zero_percent v ≡ true
      → le v hundred_percent ≡ true
      → x ≡ div v hundred_percent
      → IsChecked table
      → IsChecked (insert filepath x table)
  insert-IsChecked filepath v x table low high val inv p t e =
      let at : (if text_eq filepath p then some x else lookup p table) ≡ some t =
        rw lookup-insert at e in
      elim (Bool-cases (text_eq filepath p)) [
        | inl y ↦
            let same : some x ≡ some t = rw y at at in
            (v, low, high, sym (some-injective _ _ same) ∙ val)
        | inr n ↦ inv p t (rw n at at)
      ]

  read_key-IsChecked :
      (key label filepath : Text) (vals : Dict Json) (table table' : Dict Float)
      → read_key key label filepath vals table ≡ ok table'
      → IsChecked table
      → IsChecked table'
  unfolding read_key
  read_key-IsChecked key label filepath vals table table' e inv =
      elim (Option-cases (lookup key vals)) [
        | inl n ↦
            let same : ok table ≡ ok table' = rw (n, read_key) at e in subst IsChecked (cc) inv
        | inr (v, found) ↦
            let (x, made, rest) = >>=-eq-ok (checked _ v) _ (rw (found, read_key) at e) in
            let (val, low, high, eq) = checked_lem _ v x made in
            subst IsChecked (cc) (insert-IsChecked filepath val x table low high eq inv)
      ]

  -- Both tables of thresholds hold checked values.
  abbrev pub AreChecked : Thresholds → Type 0
  AreChecked t = IsChecked t.file_lines × IsChecked t.file_branch

  read_entry-AreChecked :
      (filepath : Text) (vals : Json) (t t' : Thresholds)
      → read_entry filepath vals t ≡ ok t'
      → AreChecked t
      → AreChecked t'
  unfolding read_entry
  read_entry-AreChecked filepath (object fs) t t' e inv =
      let (lines, made, rest) = >>=-eq-ok _ _ e in
      let (branch, made', rest') = >>=-eq-ok _ _ rest in
      subst AreChecked (cc) (
        read_key-IsChecked _ _ filepath (pairs fs) t.file_lines lines made inv.0,
        read_key-IsChecked _ _ filepath (pairs fs) t.file_branch branch made' inv.1,
      )
  read_entry-AreChecked filepath _ t t' e inv = cc

  read_entries-AreChecked :
      (entries : Dict Json) (t t' : Thresholds)
      → read_entries entries t ≡ ok t'
      → AreChecked t
      → AreChecked t'
  unfolding read_entries
  read_entries-AreChecked [] t t' e inv = subst AreChecked (cc) inv
  read_entries-AreChecked ((filepath, vals) ∷ entries) t t' e inv =
      let (t₁, made, rest) = >>=-eq-ok (read_entry filepath vals t) _ e in
      read_entries-AreChecked entries t₁ t' rest (read_entry-AreChecked filepath vals t t₁ made inv)

  read_thresholds-AreChecked : (j : Json) (t : Thresholds) → read_thresholds j ≡ ok t → AreChecked t
  unfolding read_thresholds lookup
  read_thresholds-AreChecked (object fs) t e =
      read_entries-AreChecked (pairs fs) _ t e ((λ p x h. cc), λ p x h. cc)
  read_thresholds-AreChecked _ t e = cc

  handle_error-ok : (m : Outcome Thresholds) (t : Thresholds) → handle_error m ≡ ok t → m ≡ ok t
  unfolding handle_error
  handle_error-ok (ok t') t h = h
  handle_error-ok (exited n) t h = h
  handle_error-ok (raised e) t h = elim (Bool-cases (is_caught e)) [
    | inl y ↦ let bad : exited (pos 1) ≡ ok t = rw (y, handle_error) at h in cc
    | inr n ↦ let bad : raised e ≡ ok t = rw (n, handle_error) at h in cc
  ]

  -- Where `parse_thresholds_file` returns, every threshold of both tables is a number that is at
  -- least 0.0 and at most 100.0, divided by 100.0.
  pub parse_thresholds_file_lem :
      (loaded : Outcome Json) (t : Thresholds) → parse_thresholds_file loaded ≡ ok t → AreChecked t
  unfolding parse_thresholds_file
  parse_thresholds_file_lem loaded t e =
      let (j, opened, read) =
        >>=-eq-ok loaded read_thresholds (handle_error-ok (loaded >>= read_thresholds) t e) in
      read_thresholds-AreChecked j t read
