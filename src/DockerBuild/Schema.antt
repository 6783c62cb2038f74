-- ===== src/DockerBuild/Schema.antt =====
-- `CONFIG_SCHEMA` and `validate_config` of docker/build.py.
use public_endorsement_servi.Base.{
  Bool, true, false, Option, none, some, List, [], ◌∷◌, ◌++◌, if◌then◌else◌, Text, chars, join,
  Dict, keys, lookup, contains, filter_by, not, Outcome, ok, raised, Exn, value_error, ◌>>=◌,
}
use public_endorsement_servi.Base.Json.{Json, null, boolean, number, string, array, object, pairs}
use public_endorsement_servi.Base.Sort.{sort, text_le}

-- The types that a schema names.
pub data Kind : Type 0 where
  dict str list : Kind

-- A schema: its "type", its "properties", and its "additional_properties", which is absent (True),
-- False or a schema.
mutual
  pub data Schema : Type 0 where
    schema : Kind → Properties → Additional → Schema

  pub data Properties : Type 0 where
    none_declared : Properties
    property : Text → Schema → Properties → Properties

  pub data Additional : Type 0 where
    anything nothing : Additional
    each : Schema → Additional

-- isinstance(data, expected_type)
unfoldable pub is_instance : Json → Kind → Bool
is_instance (object fs) dict = true
is_instance (string s) str = true
is_instance (array vs) list = true
is_instance _ _ = false

-- expected_type.__name__
unfoldable pub kind_name : Kind → Text
kind_name dict = chars "dict"
kind_name str = chars "str"
kind_name list = chars "list"

unfoldable pub declared : Properties → List Text
declared none_declared = []
declared (property k s ps) = k ∷ declared ps

-- f"{path}.{key}" if path else key
unfoldable pub join_key : Text → Text → Text
join_key [] key = key
join_key (c ∷ path) key = (c ∷ path) ++ (b'.' ∷ key)

-- The keys that "additional_properties": False refuses.
unfoldable pub extra_keys : Dict Json → Properties → List Text
unfolding declared contains
extra_keys entries ps = filter_by (λ k. not (contains (declared ps) k)) (keys entries)

-- The key and value pairs of a dict.
unfoldable pub entries_of : Json → Option (Dict Json)
unfolding pairs
entries_of (object fs) = some (pairs fs)
entries_of _ = none

-- The rest of the schema, that `for key, value in data.items()` applies to the undeclared keys.
unfoldable pub each_undeclared :
    (Json → Text → Outcome (Unit {0})) → List Text → Dict Json → Text → Outcome (Unit {0})
each_undeclared check names [] path = ok tt
each_undeclared check names ((k, v) ∷ es) path =
    let rest = each_undeclared check names es path in
    if contains names k then rest else check v (join_key path k) >>= λ _. rest

-- `if extra_keys: raise ...`
unfoldable pub refuse_extra : List Text → Text → Outcome (Unit {0})
unfolding sort text_le
refuse_extra [] path = ok tt
refuse_extra (k ∷ extra) path = raised (
    value_error (
      chars "Unexpected fields at '"
      ++ path
      ++ chars "': "
      ++ join (chars ", ") (sort text_le (k ∷ extra))))

-- The test of the extra keys, which only "additional_properties": False makes.
unfoldable pub check_extra : Additional → Properties → Dict Json → Text → Outcome (Unit {0})
unfolding extra_keys refuse_extra
check_extra nothing ps es path = refuse_extra (extra_keys es ps) path
check_extra _ ps es path = ok tt

-- The first test of `validate_config`.
unfoldable pub guard_type : Bool → Exn → Outcome (Unit {0}) → Outcome (Unit {0})
guard_type false e rest = raised e
guard_type true e rest = rest

-- `if isinstance(data, dict)`
unfoldable pub for_dict : Option (Dict Json) → (Dict Json → Outcome (Unit {0})) → Outcome (Unit {0})
for_dict none check = ok tt
for_dict (some es) check = check es

-- `if key in data`
unfoldable pub for_key : Option Json → (Json → Outcome (Unit {0})) → Outcome (Unit {0})
for_key none check = ok tt
for_key (some v) check = check v

module _ (number_type : Text → Text) where
  -- type(data).__name__; whether a number is an int or a float shows in its literal.
  unfoldable pub type_name : Json → Text
  type_name null = chars "NoneType"
  type_name (boolean b) = chars "bool"
  type_name (number literal) = number_type literal
  type_name (string s) = chars "str"
  type_name (array vs) = chars "list"
  type_name (object fs) = chars "dict"

  unfoldable pub invalid_type : Json → Kind → Text → Text
  unfolding type_name kind_name
  invalid_type value kind path =
      chars "Invalid type at '"
      ++ path
      ++ chars "'. Expected "
      ++ kind_name kind
      ++ chars ", got "
      ++ type_name value
      ++ chars "."

  unfoldable mutual
    pub validate_config : Json → Schema → Text → Outcome (Unit {0})
    validate_config value (schema kind ps additional) path =
        guard_type (is_instance value kind) (value_error (invalid_type value kind path)) (
          for_dict (entries_of value) (λ es. check_extra additional ps es path >>= λ _.
          validate_properties ps es path >>= λ _. validate_additional additional ps es path))

    pub validate_properties : Properties → Dict Json → Text → Outcome (Unit {0})
    validate_properties none_declared es path = ok tt
    validate_properties (property k s ps) es path =
        for_key (lookup k es) (λ v. validate_config v s (join_key path k)) >>= λ _.
        validate_properties ps es path

    pub validate_additional : Additional → Properties → Dict Json → Text → Outcome (Unit {0})
    validate_additional anything ps es path = ok tt
    validate_additional nothing ps es path = ok tt
    validate_additional (each s) ps es path =
        each_undeclared (λ v p. validate_config v s p) (declared ps) es path
