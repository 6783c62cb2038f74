-- ===== src/DockerBuild/Builder.antt =====
-- The state of `DockerBuilder` in docker/build.py and what its constructor loads: `_load_config`,
-- `_load_images_config` and `load_image_configs`.
use public_endorsement_servi.Base.{
  Option, none, some, List, [], ◌∷◌, ◌++◌, if◌then◌else◌, Text, chars, Dict, insert, update,
  Outcome, ok, raised, exited, json_decode_error, other_error, is_value_error, ◌>>=◌,
}
use public_endorsement_servi.Base.Integers.{pos}
use public_endorsement_servi.Base.Json.{Json, object, pairs, json_has, json_item}
use public_endorsement_servi.Base.Paths.{FilePath}
use public_endorsement_servi.DockerBuild.Schema.{validate_config}
use public_endorsement_servi.DockerBuild.Config.{
  Values, config_schema, truth, formatted, parse_registry_config,
}
use public_endorsement_servi.DockerBuild.Graph.{ImageConfig}

-- `extra_packages_map`, `extra_keys_map` and `extra_repositories_map`.
pub record Extras : Type 0 where
  pub packages : Dict (List Text)
  pub keys : Dict (List Text)
  pub repositories : Dict (List Text)

abbrev pub no_extras : Extras
no_extras = record { packages = []; keys = []; repositories = [] }

-- What `_load_config` sets.
pub record Settings : Type 0 where
  pub repo : Text
  pub namespace : Text
  pub extras : Extras

abbrev pub no_settings : Settings
no_settings = record { repo = []; namespace = chars "devkit"; extras = no_extras }

-- The builder, its constructor done. `arch` is always "amd64".
pub record DockerBuilder : Type 0 where
  pub settings : Settings
  pub image_configs_map : Dict ImageConfig

-- value.items(), where anything but a dict is an AttributeError.
unfoldable pub items_of : Json → Outcome (Dict Json)
unfolding pairs
items_of (object fs) = ok (pairs fs)
items_of value = raised other_error

-- `if name in settings:` around a read of settings[name].items().
unfoldable pub if_given {ℓ} : {A : Type ℓ} → Text → Json → A → (Dict Json → Outcome A) → Outcome A
unfolding json_has json_item items_of
if_given name settings default read = do
  has ← json_has name settings
  let given = (json_item name settings >>= items_of) >>= read
  if has then given else ok default

-- except (json.JSONDecodeError, ValueError): the process ends.
unfoldable pub or_exit {ℓ} : {A : Type ℓ} → Outcome A → Outcome A
unfolding is_value_error
or_exit (ok a) = ok a
or_exit (raised e) = if is_value_error e then exited (pos 1) else raised e
or_exit (exited n) = exited n

-- `number_type` is what Python calls the type of a number literal, for the message.
module _ (number_type : Text → Text) (vals : Values) where
  -- The loop over the packages: an empty version ends the process.
  unfoldable pub packages_of : Dict Json → Outcome (List Text)
  unfolding truth formatted
  packages_of [] = ok []
  packages_of ((k, v) ∷ d) =
      let rest = packages_of d in
      let with_rest = rest >>= λ packages. ok ((k ++ (b'=' ∷ formatted vals v)) ∷ packages) in
      if truth vals v then with_rest else exited (pos 1)

  -- The loops over the keys and the repositories.
  unfoldable pub assignments : Dict Json → List Text
  unfolding formatted
  assignments [] = []
  assignments ((k, v) ∷ d) = (k ++ (b'=' ∷ formatted vals v)) ∷ assignments d

  -- One round of the loop over the images.
  unfoldable pub load_image : Text → Json → Extras → Outcome Extras
  unfolding if_given packages_of assignments insert
  load_image img settings extras = do
    packages ←
        if_given (chars "packages") settings extras.packages
          (λ given. packages_of given >>= λ list. ok (insert img list extras.packages))
    keys ←
        if_given (chars "keys") settings extras.keys
          (λ given. ok (insert img (assignments given) extras.keys))
    repositories ←
        if_given (chars "repositories") settings extras.repositories
          (λ given. ok (insert img (assignments given) extras.repositories))
    ok (record { packages = packages; keys = keys; repositories = repositories })

  unfoldable pub load_each_image : Dict Json → Extras → Outcome Extras
  unfolding load_image
  load_each_image [] extras = ok extras
  load_each_image ((img, settings) ∷ images) extras =
      load_image img settings extras >>= λ loaded. load_each_image images loaded

  unfoldable pub load_images_config : Json → Outcome Extras
  unfolding if_given load_each_image json_item
  load_images_config config = do
    docker ← json_item (chars "docker") config
    if_given (chars "images") docker no_extras (λ images. load_each_image images no_extras)

  -- The body of the `try` in `_load_config`, once the document is read.
  unfoldable pub apply_config : Json → Outcome Settings
  unfolding validate_config config_schema json_has parse_registry_config load_images_config
  apply_config config = do
    _ ← validate_config number_type config config_schema []
    has_docker ← json_has (chars "docker") config
    let loaded : Outcome Settings = (do
      registry ← parse_registry_config vals config
      extras ← load_images_config config
      ok (record { repo = registry.0; namespace = registry.1; extras = extras }))
    if has_docker then loaded else ok no_settings

  -- `none` if there is no such file; else what `json.load` comes to.
  unfoldable pub load_config : Option (Outcome Json) → Outcome Settings
  unfolding or_exit apply_config
  load_config none = ok no_settings
  load_config (some loaded) = or_exit (loaded >>= apply_config)

-- What a deps.json holds: `some` for a dict of configs, `none` for anything else. As the TypedDict
-- says, each config of the dict has its fields.
abbrev pub DepsFile : Type 0
DepsFile = Option (Dict ImageConfig)

-- One deps.json that is there, with the `except` around `json.load`.
unfoldable pub merge_configs : Outcome DepsFile → Dict ImageConfig → Outcome (Dict ImageConfig)
unfolding update
merge_configs (ok (some configs)) all_configs = ok (update all_configs configs)
merge_configs (ok none) all_configs = ok all_configs
merge_configs (raised json_decode_error) all_configs = exited (pos 1)
merge_configs (raised e) all_configs = raised e
merge_configs (exited n) all_configs = exited n

-- The loop of `load_image_configs`; `read_deps` gives `none` where there is no deps.json.
unfoldable pub load_from :
    (FilePath → Option (Outcome DepsFile))
    → List FilePath
    → Dict ImageConfig
    → Outcome (Dict ImageConfig)
unfolding merge_configs
load_from read_deps [] all_configs = ok all_configs
load_from read_deps (path ∷ paths) all_configs =
    elim (read_deps (path ++ (chars "deps.json" ∷ []))) [
      | none ↦ load_from read_deps paths all_configs
      | some loaded ↦
          merge_configs loaded all_configs >>= λ merged. load_from read_deps paths merged
    ]

unfoldable pub load_image_configs :
    (FilePath → Option (Outcome DepsFile)) → List FilePath → Outcome (Dict ImageConfig)
unfolding load_from
load_image_configs read_deps search_paths = load_from read_deps search_paths []

-- DockerBuilder(config_path, search_paths)
unfoldable pub new_docker_builder :
    (Text → Text)
    → Values
    → Option (Outcome Json)
    → (FilePath → Option (Outcome DepsFile))
    → List FilePath
    → Outcome DockerBuilder
unfolding load_config load_image_configs
new_docker_builder number_type vals config read_deps search_paths = do
  settings ← load_config number_type vals config
  configs ← load_image_configs read_deps search_paths
  ok (record { settings = settings; image_configs_map = configs })
