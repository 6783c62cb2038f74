-- ===== src/Examples/Docker.antt =====
-- The results on docker/build.py at concrete inputs.
use public_endorsement_servi.DockerBuild.Needed.{Needed, AreOrdered}
use public_endorsement_servi.DockerBuild.BuildOrder.{
  get_build_order-AreOrdered, get_build_order_total,
}
use public_endorsement_servi.DockerBuild.Graph.{ImageConfig}
use public_endorsement_servi.Base.{
  ◌<◌, ◌-◌, ◌⊎◌, inl, inr, subst, some-injective, values, sym, text_eq, text_eq_iff, Bool-cases,
  some, none, ℕ, suc, ◌≡◌, refl, ◌↔◌, true, false, none, some, List, [], ◌∷◌, arith, In, All, Text,
  Dict, chars, lookup, keys, text_eq, contains, ok, Completed, ended,
}
use public_endorsement_servi.Base.Integers.{pos, int_eq}
use public_endorsement_servi.Base.Json.{Json, string, object, end, field}
use public_endorsement_servi.DockerBuild.Schema.{
  Schema, schema, dict, str, none_declared, property, anything, nothing, validate_config,
}
use public_endorsement_servi.DockerBuild.Conforms.{Conforms, validate_config_iff}
use public_endorsement_servi.DockerBuild.Graph.{Graph, preds, visit}
use public_endorsement_servi.DockerBuild.Reach.{Reach, weight, visit_iff, visit_total}
use public_endorsement_servi.DockerBuild.Builder.{DockerBuilder}
use public_endorsement_servi.DockerBuild.Schema.{
  guard_type, is_instance, for_dict, entries_of, check_extra, for_key,
}
use public_endorsement_servi.DockerBuild.Config.{Values, config_schema}
use public_endorsement_servi.DockerBuild.Loaded.{load_config-Conforms}
use public_endorsement_servi.DockerBuild.Builder.{Settings, load_config}
use public_endorsement_servi.DockerBuild.Tags.{Outside, calculate_tag_for_image}
use public_endorsement_servi.DockerBuild.Memo.{IsRight, reference_tag, calculate_tag_for_image-eq}
use public_endorsement_servi.DockerBuild.Sound.{calculate_tag_for_image-IsRight}
use public_endorsement_servi.DockerBuild.Tags.{get_build_order}
use public_endorsement_servi.DockerBuild.Build.{Args, valid_targets, main}
use public_endorsement_servi.DockerBuild.Built.{AreBuilt}
use public_endorsement_servi.DockerBuild.AllBuilt.{main-AreBuilt}
use public_endorsement_servi.DockerBuild.Printed.{PrintsOneTag, main-PrintsOneTag}
use public_endorsement_servi.DockerBuild.Images.{Session, manage_docker_image}
use public_endorsement_servi.DockerBuild.ImageRuns.{IsLocalCmd, manage_docker_image-local}

abbrev app : Text
app = b'a' ∷ []

abbrev base : Text
base = b'b' ∷ []

-- The image app is built on base.
abbrev graph : Graph
graph = (app, base ∷ []) ∷ (base, []) ∷ []

abbrev name_schema : Schema
name_schema = schema dict (property app (schema str none_declared anything) none_declared) nothing

abbrev name_config : Json
name_config = object (field app (string base) end)

validate_config_iff_example :
    (validate_config (λ t. t) name_config name_schema [] ≡ ok tt) ↔ Conforms name_schema name_config
validate_config_iff_example = validate_config_iff (λ t. t) name_schema name_config []

visit_iff_example : In base (base ∷ app ∷ []) ↔ Reach graph (app ∷ []) base
unfolding visit preds text_eq
visit_iff_example = visit_iff graph (app ∷ []) 4 (base ∷ app ∷ []) refl base

visit_total_example : (result : List Text) × (visit 3 graph (app ∷ []) [] ≡ some result)
unfolding weight contains
visit_total_example = visit_total 3 graph (app ∷ []) [] (omega arith)

abbrev on_base : ImageConfig
on_base = record { deps = (chars "BASE", base) ∷ []; local = none }

abbrev on_nothing : ImageConfig
on_nothing = record { deps = []; local = none }

abbrev configs : Dict ImageConfig
configs = (app, on_base) ∷ (base, on_nothing) ∷ []

get_build_order-AreOrdered_example :
    AreOrdered configs [] (base ∷ app ∷ [])
    × ((n : Text) (conf : ImageConfig)
        → (app ∷ [] ≡ []) ⊎ Needed configs (app ∷ []) n
        → lookup n configs ≡ some conf
        → In n (base ∷ app ∷ []))
    × ((n : Text) → In n (base ∷ app ∷ []) → (app ∷ [] ≡ []) ⊎ Needed configs (app ∷ []) n)
unfolding get_build_order text_eq
get_build_order-AreOrdered_example =
    get_build_order-AreOrdered configs (app ∷ []) (base ∷ app ∷ []) refl

abbrev rank : Text → ℕ
rank [] = 0
rank (c ∷ s) = 100 - c

rank_falls :
    (n p : Text) (conf : ImageConfig)
    → lookup n configs ≡ some conf
    → In p (values conf.deps)
    → rank p < rank n
unfolding lookup
rank_falls n p conf e i = elim (Bool-cases (text_eq app n)) [
  | inl y ↦
      let same : app ≡ n = (text_eq_iff app n).0 y in
      let found : on_base ≡ conf = some-injective _ _ (rw (y, lookup) at e) in
      let m : In p (base ∷ []) = subst (λ (c : ImageConfig). In p (values c.deps)) (sym found) i in
      elim m [ inl q ↦ rw (q, sym same) (omega arith) | inr q ↦ absurd q ]
  | inr f ↦ elim (Bool-cases (text_eq base n)) [
    | inl y ↦
        let found : on_nothing ≡ conf = some-injective _ _ (rw (f, y, lookup) at e) in
        let m : In p [] = subst (λ (c : ImageConfig). In p (values c.deps)) (sym found) i in
        absurd m
    | inr g ↦ let bad : none ≡ some conf = rw (f, g, lookup) at e in cc
  ]
]

get_build_order_total_example :
    (images : List Text) × (get_build_order configs (app ∷ []) ≡ ok images)
get_build_order_total_example = get_build_order_total configs rank rank_falls (app ∷ [])

abbrev outside : Outside
outside = record {
  exists = λ p. true;
  realpath = λ p. p;
  read_bytes = λ p. ok [];
  encode_utf8 = λ t. t;
  sha256 = λ t. t;
}

abbrev builder : DockerBuilder
builder = record {
  settings = record {
    repo = [];
    namespace = [];
    extras = record { packages = []; keys = []; repositories = [] };
  };
  image_configs_map =
      (app, record { deps = (base, base) ∷ []; local = none })
      ∷ (base, record { deps = []; local = none })
      ∷ [];
}

nothing-IsRight : IsRight outside ([] ∷ []) builder []
unfolding IsRight lookup
nothing-IsRight name tag h = cc

abbrev base_tag : Text
base_tag = b'/' ∷ b'b' ∷ b':' ∷ b'a' ∷ b'm' ∷ b'd' ∷ b'6' ∷ b'4' ∷ b'-' ∷ []

-- With the identity for the hash, the tag of the dependency shows in the tag.
abbrev app_tag : Text
app_tag = b'/' ∷ b'a' ∷ b':' ∷ b'a' ∷ b'm' ∷ b'd' ∷ b'6' ∷ b'4' ∷ b'-' ∷ b'b' ∷ b'=' ∷ base_tag

calculate_tag_for_image-eq_example :
    (after : Dict Text) × (calculate_tag_for_image outside ([] ∷ []) builder 2 app []
      ≡ ok (app_tag, after))
    × IsRight outside ([] ∷ []) builder after
unfolding reference_tag chars lookup text_eq
calculate_tag_for_image-eq_example =
    calculate_tag_for_image-eq outside ([] ∷ []) builder 2 app app_tag [] nothing-IsRight refl

-- Docker where every command succeeds.
abbrev docker : List Text → ℕ → Completed × ℕ
docker cmd n = (ended (pos 0) [] [], suc n)

abbrev session : Session ℕ
session = record { world = 0; commands = [] }

manage_docker_image-local_example :
    All
      (IsLocalCmd app)
      ((manage_docker_image docker app base [] base true true base session).1).commands
manage_docker_image-local_example =
    manage_docker_image-local docker app base [] base true true base session refl tt

abbrev literals : Values
literals = record { number_truth = λ t. true; str_of = λ j. [] }

-- {"docker": {}}
abbrev empty_config : Json
empty_config = object (field (chars "docker") (object end) end)

abbrev loaded_settings : Settings
loaded_settings = record {
  repo = [];
  namespace = chars "devkit";
  extras = record { packages = []; keys = []; repositories = [] };
}

load_config-Conforms_example : Conforms config_schema empty_config
unfolding load_config guard_type is_instance for_dict entries_of check_extra text_eq chars for_key
load_config-Conforms_example =
    load_config-Conforms (λ t. t) literals empty_config loaded_settings refl

calculate_tag_for_image-IsRight_example :
    IsRight outside ([] ∷ []) builder ((base, base_tag) ∷ (app, app_tag) ∷ [])
    × ((d : ℕ) × (reference_tag outside ([] ∷ []) builder d app ≡ ok app_tag))
unfolding calculate_tag_for_image chars lookup text_eq
calculate_tag_for_image-IsRight_example =
    calculate_tag_for_image-IsRight outside ([] ∷ []) builder 2 app []
      (app_tag, (base, base_tag) ∷ (app, app_tag) ∷ []) nothing-IsRight refl

abbrev args : Args
args = record { target_images = app ∷ []; print_tag = false; local = false; no_cache = false }

main-AreBuilt_example :
    (found : DockerBuilder) × (images : List Text) × (ok builder ≡ ok found)
    × (valid_targets (keys found.image_configs_map) false (app ∷ []) ≡ true)
    × (get_build_order found.image_configs_map (app ∷ []) ≡ ok images)
    × AreBuilt outside
        ([] ∷ [])
        found
        2
        docker
        images
        (main outside ([] ∷ []) 2 docker args (ok builder) session).session
unfolding main int_eq
main-AreBuilt_example = main-AreBuilt outside ([] ∷ []) 2 docker args (ok builder) session refl

abbrev print_args : Args
print_args = record { target_images = app ∷ []; print_tag = true; local = false; no_cache = false }

main-PrintsOneTag_example :
    PrintsOneTag outside
      ([] ∷ [])
      2
      docker
      print_args
      (ok builder)
      (main outside ([] ∷ []) 2 docker print_args (ok builder) session)
main-PrintsOneTag_example =
    main-PrintsOneTag outside ([] ∷ []) 2 docker print_args (ok builder) session
