-- ===== src/DockerBuild/Tags.antt =====
-- The tags of `DockerBuilder` in docker/build.py: `get_image_tag`, `get_build_order`,
-- `calculate_tag_for_image` and `calculate_tags`.
use public_endorsement_servi.Base.{
  ℕ, zero, suc, ◌+◌, Bool, Option, none, some, List, [], ◌∷◌, ◌++◌, if◌then◌else◌, Text, chars,
  Dict, lookup, insert, join, length, Outcome, ok, raised, exited, key_error, recursion_error,
  ◌>>=◌,
}
use public_endorsement_servi.Base.Integers.{pos}
use public_endorsement_servi.Base.Paths.{FilePath}
use public_endorsement_servi.Base.Sort.{sort, text_le}
use public_endorsement_servi.DockerBuild.Graph.{
  ImageConfig, full_graph, visit, subgraph, order_or_exit,
}
use public_endorsement_servi.DockerBuild.Reach.{weight}
use public_endorsement_servi.DockerBuild.Builder.{Extras, Settings, DockerBuilder}

-- What the tags need from the outside: the file system, the encoding, and SHA-256 as a function
-- from bytes to the hexadecimal digest.
pub record Outside : Type 0 where
  pub exists : FilePath → Bool
  pub realpath : FilePath → FilePath
  pub read_bytes : FilePath → Outcome Text
  pub encode_utf8 : Text → Text
  pub sha256 : Text → Text

-- for path in self.search_paths: the first Dockerfile that is there.
unfoldable pub find_dockerfile : (FilePath → Bool) → List FilePath → Text → Option FilePath
find_dockerfile exists [] image_name = none
find_dockerfile exists (path ∷ paths) image_name =
    let rest = find_dockerfile exists paths image_name in
    let potential_path = path ++ ((image_name ++ chars ".Dockerfile") ∷ []) in
    if exists potential_path then some potential_path else rest

-- What is fed to the hasher after the Dockerfile.
unfoldable pub encoded : (Text → Text) → List Text → Text
encoded encode_utf8 [] = []
encoded encode_utf8 (arg ∷ args) = encode_utf8 arg ++ encoded encode_utf8 args

unfoldable pub calculate_sha256 : Outside → FilePath → List Text → Outcome Text
unfolding encoded
calculate_sha256 out dockerfile_path sorted_build_args = do
  content ← out.read_bytes dockerfile_path
  ok (out.sha256 (content ++ encoded out.encode_utf8 sorted_build_args))

-- The `if self.repo` of `get_image_tag`.
unfoldable pub under_repo : Text → Text → Text
under_repo [] tag = tag
under_repo (c ∷ repo) tag = (c ∷ repo) ++ (b'/' ∷ tag)

unfoldable pub get_image_tag : Settings → Text → Text → Text
unfolding under_repo
get_image_tag settings image_name sha =
    let image_path = settings.namespace ++ (b'/' ∷ image_name) in
    let tag_suffix = chars "amd64" ++ (b'-' ∷ sha) in
    under_repo settings.repo (image_path ++ (b':' ∷ tag_suffix))

-- [f"{name}={' '.join(val)}"], or nothing for an empty list or an unknown image.
unfoldable pub extra_arg : Text → Text → Dict (List Text) → List (Text × Text)
unfolding lookup join
extra_arg image_name arg_name extra = elim (lookup image_name extra) [
  | none ↦ []
  | some [] ↦ []
  | some (v ∷ vs) ↦ (arg_name, join (chars " ") (v ∷ vs)) ∷ []
]

-- The loop over the three maps.
unfoldable pub extra_args : Extras → Text → List (Text × Text)
unfolding extra_arg
extra_args extras image_name =
    extra_arg image_name (chars "EXTRA_PACKAGES") extras.packages
    ++ extra_arg image_name (chars "EXTRA_KEYS") extras.keys
    ++ extra_arg image_name (chars "EXTRA_REPOSITORIES") extras.repositories

-- f"{arg_name}={value}"
unfoldable pub bindings : List (Text × Text) → List Text
bindings [] = []
bindings ((arg, value) ∷ args) = (arg ++ (b'=' ∷ value)) ∷ bindings args

-- The rounds that the `while` loop of `get_dependency_subgraph` gets.
abbrev pub visit_rounds : Dict ImageConfig → List Text → ℕ
visit_rounds configs targets = suc (length targets + weight (full_graph configs) [])

-- `none` is the end of the fuel of the `while` loop.
abbrev pub order_of_visit : Dict ImageConfig → Option (List Text) → Outcome (List Text)
order_of_visit configs none = raised recursion_error
order_of_visit configs (some visited) = order_or_exit (subgraph (full_graph configs) visited)

-- `target_images` is None or empty: all images.
unfoldable pub get_build_order : Dict ImageConfig → List Text → Outcome (List Text)
unfolding full_graph visit weight order_or_exit subgraph
get_build_order configs [] = order_or_exit (full_graph configs)
get_build_order configs (t ∷ targets) =
    order_of_visit configs
      (visit (visit_rounds configs (t ∷ targets)) (full_graph configs) (t ∷ targets) [])

module _ (out : Outside) (search_paths : List FilePath) (builder : DockerBuilder) where
  -- The end of `calculate_tag_for_image`, once the dependencies have their tags.
  unfoldable pub tag_of : Text → FilePath → List (Text × Text) → Outcome Text
  unfolding extra_args bindings sort text_le calculate_sha256 get_image_tag
  tag_of image_name dockerfile_path dep_args = do
    let settings = builder.settings
    let build_args = bindings (dep_args ++ extra_args settings.extras image_name)
    sha ← calculate_sha256 out (out.realpath dockerfile_path) (sort text_le build_args)
    ok (get_image_tag settings image_name sha)

  -- The loop over the dependencies, each given its tag by `calculate`: the build arguments.
  unfoldable pub calculate_dependencies :
      (Text → Dict Text → Outcome (Text × Dict Text))
      → Dict Text
      → Dict Text
      → Outcome (List (Text × Text) × Dict Text)
  calculate_dependencies calculate [] tags = ok ([], tags)
  calculate_dependencies calculate ((arg_name, dep_image_name) ∷ dependencies) tags =
      calculate dep_image_name tags >>= λ first.
      calculate_dependencies calculate dependencies first.1 >>= λ rest.
      ok ((arg_name, first.0) ∷ rest.0, rest.1)

  -- What is done once the dependencies are: `generated_tags` gets the tag.
  unfoldable pub record_tag :
      Text → FilePath → List (Text × Text) × Dict Text → Outcome (Text × Dict Text)
  unfolding tag_of insert
  record_tag image_name path deps =
      tag_of image_name path deps.0 >>= λ tag. ok (tag, insert image_name tag deps.1)

  -- self.image_configs_map[image_name] and its Dockerfile, whose absence ends the process.
  unfoldable pub config_and_dockerfile : Text → Outcome (ImageConfig × FilePath)
  unfolding lookup find_dockerfile
  config_and_dockerfile image_name = elim (lookup image_name builder.image_configs_map) [
    | none ↦ raised key_error
    | some conf ↦ elim (find_dockerfile out.exists search_paths image_name) [
      | none ↦ exited (pos 1)
      | some path ↦ ok (conf, path)
    ]
  ]

  -- if image_name in self.generated_tags
  unfoldable pub known_or :
      Option Text → Dict Text → Outcome (Text × Dict Text) → Outcome (Text × Dict Text)
  known_or (some tag) tags new = ok (tag, tags)
  known_or none tags new = new

  -- The first argument is the depth that Python's stack has left: without any, RecursionError.
  -- `generated_tags` is threaded through.
  unfoldable pub calculate_tag_for_image : ℕ → Text → Dict Text → Outcome (Text × Dict Text)
  unfolding lookup known_or config_and_dockerfile calculate_dependencies record_tag
  calculate_tag_for_image zero image_name tags = raised recursion_error
  calculate_tag_for_image (suc depth) image_name tags = known_or (lookup image_name tags) tags (
      config_and_dockerfile image_name >>= λ found.
      calculate_dependencies (λ name known. calculate_tag_for_image depth name known) (found.0).deps
        tags
      >>= λ deps. record_tag image_name found.1 deps)

  -- for image_name in images_to_process
  unfoldable pub calculate_each : ℕ → List Text → Dict Text → Outcome (Dict Text)
  unfolding calculate_tag_for_image
  calculate_each depth [] tags = ok tags
  calculate_each depth (image_name ∷ images) tags =
      calculate_tag_for_image depth image_name tags >>= λ r. calculate_each depth images r.1

  -- [self.generated_tags[name] for name in images_to_process]
  unfoldable pub tags_of : List Text → Dict Text → Outcome (List Text)
  unfolding lookup
  tags_of [] tags = ok []
  tags_of (name ∷ names) tags = elim (lookup name tags) [
    | none ↦ raised key_error
    | some tag ↦ tags_of names tags >>= λ rest. ok (tag ∷ rest)
  ]

  unfoldable pub calculate_tags : ℕ → List Text → Outcome (List Text)
  unfolding get_build_order calculate_each tags_of
  calculate_tags depth target_images = do
    images_to_process ← get_build_order builder.image_configs_map target_images
    tags ← calculate_each depth images_to_process []
    tags_of images_to_process tags
