-- ===== src/Base/Outcomes.antt =====
-- Python's ways to leave a function: a value, an exception, or `sys.exit`.
use public_endorsement_servi.Base.Integers.{ℤ}
use mathlib.Core.Path.{◌≡◌, refl, ap}
use mathlib.Core.Bool.{Bool, true, false}
use public_endorsement_servi.Base.Strings.{Text}

pub data Exn : Type 0 where
  value_error : Text → Exn
  json_decode_error invalid_literal type_error key_error index_error : Exn
  file_not_found recursion_error os_error other_error : Exn
  called_process_error : (returncode : ℤ) → Exn

-- `except ValueError` takes the subclasses too: JSONDecodeError is one.
unfoldable pub is_value_error : Exn → Bool
is_value_error (value_error _) = true
is_value_error json_decode_error = true
is_value_error invalid_literal = true
is_value_error _ = false

pub data Outcome {ℓ} (A : Type ℓ) : Type ℓ where
  ok : A → Outcome A
  raised : Exn → Outcome A
  exited : ℤ → Outcome A

infixl 5 ◌>>=◌
abbrev pub ◌>>=◌ {ℓ κ} : {A : Type ℓ} {B : Type κ} → Outcome A → (A → Outcome B) → Outcome B
ok a >>= f = f a
raised e >>= f = raised e
exited n >>= f = exited n

-- Where a chain ends with a value, its first part does, and so does the rest from there.
pub >>=-eq-ok {ℓ κ} :
    {A : Type ℓ} {B : Type κ} (first : Outcome A) (rest : A → Outcome B) {end : B}
    → (first >>= rest) ≡ ok end
    → (between : A) × (first ≡ ok between) × (rest between ≡ ok end)
>>=-eq-ok (ok between) rest run = (between, refl, run)
>>=-eq-ok (raised e) rest run = cc
>>=-eq-ok (exited n) rest run = cc

-- What `subprocess.run` reports: the process ended, or its command was not found.
pub data Completed : Type 0 where
  ended : (returncode : ℤ) → (stdout stderr : Text) → Completed
  not_found : Completed

pub ok-injective {ℓ} : {A : Type ℓ} (a b : A) → ok a ≡ ok b → a ≡ b
ok-injective {A} a b h = ap (λ (m : Outcome A). elim m [ ok x ↦ x | raised e ↦ a | exited n ↦ a ]) h
