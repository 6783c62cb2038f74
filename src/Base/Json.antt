-- ===== src/Base/Json.antt =====
-- What `json.load` returns. A number stays the literal of the document.
use mathlib.Core.Bool.{Bool, true, false}
use mathlib.Core.Option.{none, some}
use mathlib.Core.List.{List, [], ◌∷◌}
use public_endorsement_servi.Base.Tests.{if◌then◌else◌}
use public_endorsement_servi.Base.Strings.{Text, text_eq, starts_with}
use public_endorsement_servi.Base.Outcomes.{Outcome, ok, raised, type_error, key_error}
use public_endorsement_servi.Base.Dicts.{Dict, lookup}

mutual
  pub data Json : Type 0 where
    null : Json
    boolean : Bool → Json
    number : Text → Json
    string : Text → Json
    array : Items → Json
    object : Fields → Json

  pub data Items : Type 0 where
    none_left : Items
    item : Json → Items → Items

  pub data Fields : Type 0 where
    end : Fields
    field : Text → Json → Fields → Fields

-- d.items()
unfoldable pub pairs : Fields → Dict Json
pairs end = []
pairs (field k v fs) = (k, v) ∷ pairs fs

unfoldable pub elements : Items → List Json
elements none_left = []
elements (item v vs) = v ∷ elements vs

-- `k in l` for a list of values, where k is a text
list_has : Text → Items → Bool
list_has k none_left = false
list_has k (item (string s) vs) = if text_eq s k then true else list_has k vs
list_has k (item v vs) = list_has k vs

-- `k in s` for texts
text_has : Text → Text → Bool
text_has k [] = starts_with [] k
text_has k (c ∷ s) = if starts_with (c ∷ s) k then true else text_has k s

-- `k in value`
unfoldable pub json_has : Text → Json → Outcome Bool
unfolding list_has text_has lookup
json_has k (object fs) = ok (elim (lookup k (pairs fs)) [ none ↦ false | some v ↦ true ])
json_has k (array vs) = ok (list_has k vs)
json_has k (string s) = ok (text_has k s)
json_has k _ = raised type_error

-- `value[k]`, where k is a text
unfoldable pub json_item : Text → Json → Outcome Json
unfolding lookup
json_item k (object fs) = elim (lookup k (pairs fs)) [ none ↦ raised key_error | some v ↦ ok v ]
json_item k _ = raised type_error
