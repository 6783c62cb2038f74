-- ===== src/DockerBuild/Build.antt =====
-- `build_images` of `DockerBuilder` and `main` of docker/build.py.
use public_endorsement_servi.Base.{
  ℕ, Bool, true, false, ◌||◌, Option, none, some, List, [], ◌∷◌, ◌++◌, if◌then◌else◌, Text, text_eq,
  Dict, lookup, contains, keys, Outcome, ok, raised, exited, key_error, index_error, Completed,
  ◌>>=◌,
}
use public_endorsement_servi.Base.Integers.{pos}
use public_endorsement_servi.Base.Paths.{FilePath, path_text}
use public_endorsement_servi.DockerBuild.Graph.{ImageConfig}
use public_endorsement_servi.DockerBuild.Builder.{DockerBuilder}
use public_endorsement_servi.DockerBuild.Tags.{
  Outside, find_dockerfile, extra_args, get_build_order, calculate_tag_for_image,
}
use public_endorsement_servi.DockerBuild.Images.{
  Session, manage_docker_image, check_docker_installed, check_docker_buildx_installed,
}

-- os.path.dirname
unfoldable pub dirname : FilePath → FilePath
dirname [] = []
dirname (a ∷ []) = []
dirname (a ∷ b ∷ path) = a ∷ dirname (b ∷ path)

-- [arg_name, self.generated_tags[dep_image_name], ...] over the dependencies
unfoldable pub dependency_args : Dict Text → Dict Text → Outcome (List Text)
unfolding lookup
dependency_args generated_tags [] = ok []
dependency_args generated_tags ((arg_name, dep_image_name) ∷ dependencies) =
    elim (lookup dep_image_name generated_tags) [
      | none ↦ raised key_error
      | some tag ↦
          dependency_args generated_tags dependencies >>= λ rest. ok (arg_name ∷ tag ∷ rest)
    ]

-- The names and the values, one after the other.
unfoldable pub alternating : List (Text × Text) → List Text
alternating [] = []
alternating ((name, value) ∷ args) = name ∷ value ∷ alternating args

-- image_conf.get("local", False): `None` counts as no.
unfoldable pub is_local : ImageConfig → Bool
is_local conf = elim (conf.local) [ none ↦ false | some b ↦ b ]

-- How a run ends, the tags printed, and the session.
pub record BuildEnd {ℓ} (World : Type ℓ) : Type ℓ where
  pub outcome : Outcome (Unit {0})
  pub printed : List Text
  pub session : Session World

pub record Args : Type 0 where
  pub target_images : List Text
  pub print_tag : Bool
  pub local : Bool
  pub no_cache : Bool

-- target_images[0] if print_tag_mode else None
unfoldable pub target_for_print : Bool → List Text → Outcome (Option Text)
target_for_print false targets = ok none
target_for_print true [] = raised index_error
target_for_print true (t ∷ targets) = ok (some t)

unfoldable pub is_printed : Option Text → Text → Bool
unfolding text_eq
is_printed none name = false
is_printed (some t) name = text_eq name t

module _ {ℓ} {World : Type ℓ} where
  -- What follows a computation that gives a value.
  unfoldable pub with_value {κ} :
      {A : Type κ} → Outcome A → Session World → (A → BuildEnd World) → BuildEnd World
  with_value (ok a) s next = next a
  with_value (raised e) s next = record { outcome = raised e; printed = []; session = s }
  with_value (exited n) s next = record { outcome = exited n; printed = []; session = s }

  -- What follows commands.
  unfoldable pub and_then :
      Outcome (Unit {0}) × Session World → (Session World → BuildEnd World) → BuildEnd World
  and_then (ok _, s) next = next s
  and_then (raised e, s) next = record { outcome = raised e; printed = []; session = s }
  and_then (exited n, s) next = record { outcome = exited n; printed = []; session = s }

-- self.image_configs_map[image_name]
unfoldable pub config_or_key_error : Option ImageConfig → Outcome ImageConfig
config_or_key_error none = raised key_error
config_or_key_error (some conf) = ok conf

-- A missing Dockerfile ends the process.
unfoldable pub dockerfile_or_exit : Option FilePath → Outcome FilePath
dockerfile_or_exit none = exited (pos 1)
dockerfile_or_exit (some path) = ok path

-- What one image needs: its tag, its Dockerfile and its build arguments.
pub record Plan : Type 0 where
  pub tag : Text
  pub generated_tags : Dict Text
  pub dockerfile_path : FilePath
  pub build_args : List Text
  pub local_mode : Bool

module _ (out : Outside) (search_paths : List FilePath) (builder : DockerBuilder) (depth : ℕ) where
  -- The part of a round before `manage_docker_image`.
  unfoldable pub plan_image : Bool → Text → Dict Text → Outcome Plan
  unfolding calculate_tag_for_image config_or_key_error dockerfile_or_exit lookup find_dockerfile
      dependency_args alternating extra_args is_local
  plan_image local_flag image_name tags = do
    r ← calculate_tag_for_image out search_paths builder depth image_name tags
    conf ← config_or_key_error (lookup image_name builder.image_configs_map)
    path ← dockerfile_or_exit (find_dockerfile out.exists search_paths image_name)
    dep_args ← dependency_args r.1 conf.deps
    ok (record {
      tag = r.0;
      generated_tags = r.1;
      dockerfile_path = out.realpath path;
      build_args = dep_args ++ alternating (extra_args builder.settings.extras image_name);
      local_mode = local_flag || is_local conf;
    })

  module _ {ℓ} {World : Type ℓ} (docker : List Text → World → Completed × World) where
    unfoldable pub manage_planned : Bool → Plan → Session World → Outcome (Unit {0}) × Session World
    unfolding manage_docker_image path_text dirname
    manage_planned no_cache plan s =
        manage_docker_image docker plan.tag (path_text plan.dockerfile_path) plan.build_args
          (path_text (dirname plan.dockerfile_path)) plan.local_mode no_cache builder.settings.repo
          s

    -- The `for` loop of `build_images`. `--print-tag` ends it with status 0 at its target.
    unfoldable pub build_each :
        Bool → Bool → Option Text → List Text → Dict Text → Session World → BuildEnd World
    unfolding plan_image manage_planned is_printed with_value and_then
    build_each local_flag no_cache to_print [] tags s = record {
      outcome = ok tt;
      printed = [];
      session = s;
    }
    build_each local_flag no_cache to_print (image_name ∷ images) tags s =
        with_value (plan_image local_flag image_name tags) s (λ plan.
          and_then (manage_planned no_cache plan s) (λ t. elim (is_printed to_print image_name) [
            | true ↦ record { outcome = exited (pos 0); printed = plan.tag ∷ []; session = t }
            | false ↦ build_each local_flag no_cache to_print images plan.generated_tags t
          ]))

    unfoldable pub build_images : Args → Session World → BuildEnd World
    unfolding get_build_order target_for_print build_each with_value
    build_images args s =
        with_value (get_build_order builder.image_configs_map args.target_images) s (λ images.
          with_value (target_for_print args.print_tag args.target_images) s
            (λ to_print. build_each args.local args.no_cache to_print images [] s))

-- The checks of `main` on the target images.
unfoldable pub all_known : List Text → List Text → Bool
unfolding contains
all_known names [] = true
all_known names (t ∷ targets) =
    let rest = all_known names targets in if contains names t then rest else false

unfoldable pub valid_targets : List Text → Bool → List Text → Bool
unfolding all_known contains
valid_targets names true (t ∷ []) = contains names t
valid_targets names true targets = false
valid_targets names false targets = all_known names targets

module _ {ℓ} {World : Type ℓ} (out : Outside) (search_paths : List FilePath) (depth : ℕ)
    (docker : List Text → World → Completed × World) where
  unfoldable pub build_valid : Args → DockerBuilder → Session World → BuildEnd World
  unfolding valid_targets build_images
  build_valid args builder s =
      if valid_targets (keys builder.image_configs_map) args.print_tag args.target_images
      then build_images out search_paths builder depth docker args s
      else record { outcome = exited (pos 1); printed = []; session = s }

  -- `loaded` is what the constructor of the builder comes to.
  unfoldable pub main : Args → Outcome DockerBuilder → Session World → BuildEnd World
  unfolding check_docker_installed check_docker_buildx_installed and_then with_value build_valid
  main args loaded s = and_then (check_docker_installed docker s) (λ t.
      and_then (check_docker_buildx_installed docker t)
        (λ u. with_value loaded u (λ builder. build_valid args builder u)))
