-- ===== src/DockerBuild/Config.antt =====
-- The configuration of docker/build.py: `CONFIG_SCHEMA`, `parse_registry_config`,
-- `get_image_prefix` and `DockerBuilder._load_config`.
use public_endorsement_servi.Base.{
  Bool, true, false, ◌&&◌, Option, none, some, [], ◌∷◌, ◌++◌, if◌then◌else◌, Text, chars, Outcome,
  ok, raised, exited, Exn, key_error, is_value_error, ◌>>=◌,
}
use public_endorsement_servi.Base.Json.{
  Json, null, boolean, number, string, array, object, none_left, item, end, field, json_has,
  json_item,
}
use public_endorsement_servi.DockerBuild.Schema.{
  Schema, schema, dict, str, list, none_declared, property, anything, nothing, each,
}

abbrev text_value : Schema
text_value = schema str none_declared anything

-- A dict whose values are all texts.
abbrev text_table : Schema
text_table = schema dict none_declared (each text_value)

unfoldable pub config_schema : Schema
config_schema =
    schema dict
      (property (chars "docker")
        (schema dict
          (property (chars "registry")
            (schema dict
              (property (chars "host") text_value (
                property (chars "project") text_value (
                  property (chars "repository") text_value
                    (property (chars "namespace") text_value none_declared))))
              nothing)
            (property (chars "run") (schema list none_declared anything) (
              property (chars "images")
                (schema dict none_declared (
                  each (
                    schema dict
                      (property (chars "packages") text_table (
                        property (chars "keys") text_table
                          (property (chars "repositories") text_table none_declared)))
                      nothing)))
                none_declared)))
          nothing)
        none_declared)
      nothing

-- What Python does with a number and with a value that is no text, which the literal decides:
-- its truth, and str(value).
pub record Values : Type 0 where
  pub number_truth : Text → Bool
  pub str_of : Json → Text

module _ (vals : Values) where
  open vals use {number_truth, str_of}

  -- bool(value)
  unfoldable pub truth : Json → Bool
  truth null = false
  truth (boolean b) = b
  truth (number literal) = number_truth literal
  truth (string []) = false
  truth (string (c ∷ s)) = true
  truth (array none_left) = false
  truth (array (item v vs)) = true
  truth (object end) = false
  truth (object (field k v fs)) = true

  -- f"{value}"
  unfoldable pub formatted : Json → Text
  formatted (string s) = s
  formatted v = str_of v

  -- "repo" from the registry: all three parts have to be there and true.
  unfoldable pub registry_repo : Json → Outcome Text
  unfolding json_has json_item truth formatted
  registry_repo registry = do
    has_host ← json_has (chars "host") registry
    has_project ← if has_host then json_has (chars "project") registry else ok false
    has_all ← if has_project then json_has (chars "repository") registry else ok false
    let no_repo : Outcome Text = ok []
    let joined : Outcome Text = (do
      host ← json_item (chars "host") registry
      project ← json_item (chars "project") registry
      repository ← json_item (chars "repository") registry
      ok (
          if truth host && (truth project && truth repository)
          then formatted host ++ (b'/' ∷ formatted project) ++ (b'/' ∷ formatted repository)
          else []))
    if has_all then joined else no_repo

  unfoldable pub registry_namespace : Json → Outcome Text
  unfolding json_has json_item truth formatted
  registry_namespace registry = do
    has ← json_has (chars "namespace") registry
    let given : Outcome Text = (do
      namespace ← json_item (chars "namespace") registry
      ok (if truth namespace then chars "devkit/" ++ formatted namespace else chars "devkit"))
    if has then given else ok (chars "devkit")

  -- The pair (repo, namespace).
  unfoldable pub parse_registry_config : Json → Outcome (Text × Text)
  unfolding registry_repo registry_namespace json_has json_item
  parse_registry_config config = do
    has_docker ← json_has (chars "docker") config
    let from_registry = λ (registry : Json). (do
      repo ← registry_repo registry
      namespace ← registry_namespace registry
      ok (repo, namespace))
    let from_docker : Outcome (Text × Text) = (do
      docker_config ← json_item (chars "docker") config
      has_registry ← json_has (chars "registry") docker_config
      if has_registry
          then json_item (chars "registry") docker_config >>= from_registry
          else ok ([], chars "devkit"))
    if has_docker then from_docker else ok ([], chars "devkit")

  -- except (json.JSONDecodeError, KeyError, ValueError)
  unfoldable pub is_skipped : Exn → Bool
  unfolding is_value_error
  is_skipped key_error = true
  is_skipped e = is_value_error e

  abbrev prefix_or_default : Outcome Text → Outcome Text
  prefix_or_default (ok prefix) = ok prefix
  prefix_or_default (raised e) = if is_skipped e then ok (chars "devkit") else raised e
  prefix_or_default (exited n) = exited n

  abbrev prefix_of : Text × Text → Text
  prefix_of ([], namespace) = namespace
  prefix_of (c ∷ repo, namespace) = (c ∷ repo) ++ (b'/' ∷ namespace)

  -- `none` if there is no such file; else what opening it and `json.load` come to.
  unfoldable pub get_image_prefix : Option (Outcome Json) → Outcome Text
  unfolding parse_registry_config is_skipped
  get_image_prefix none = ok (chars "devkit")
  get_image_prefix (some loaded) =
      prefix_or_default
        (loaded >>= λ config. parse_registry_config config >>= λ pair. ok (prefix_of pair))
