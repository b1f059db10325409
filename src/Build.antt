-- ===== src/Build.antt =====
-- libcontain.go and output.go: a config becomes an image or an index in a registry.
pub mod Effects
pub mod Order
pub mod Prepared
use contain.Base.{
  ℕ, String, ◌<>◌, Bool, true, false, ◌&&◌, ◌||◌, not, Option, none, some, List, [], ◌∷◌, map,
}
use contain.Base.{
  length, if◌then◌else◌, ltb, str_eq, lookup, Result, ok, err, ◌>>=◌, ◌>>◌, guard, or_err, map_ok,
  Effect, pure, lift, then_do, ◌>>>=◌,
}
use contain.Annotate.{Annotations, Annotator, new_base_image_annotations}
use contain.Appender.{Appender, AppendError, AppendResult, append}
use contain.Appender.Env.{EnvMap}
use contain.Images.{Action, saved, IndexAddendum, Images}
use contain.Layers.{Context, LayerBuilder, LayersError, build, run_layers}
use contain.Localdir.Filemap.{Archive}
use contain.Multiarch.Index.{
  Indexes, IndexError, IndexManifests, TaggableIndex, new_from_multi_arch_base, matched_platforms,
  size_append, build_with_append,
}
use contain.Multiarch.Match.{match_platforms_for_append, unmatched_platforms}
use contain.Pushed.{
  Reference, Artifact, PushedError, BuildOutput, new_single_image, new_build_output,
}
use contain.Schema.Config.{ContainConfig, EnvVar}
use contain.Schema.LocalFile.{Platform, LayerError, validate_layers}

pub record WriteOptions : Type 0 where
  pub push : Bool
  pub output_path : String
  pub output_format : String
  pub push_lock : Bool
  pub layer_cache : Bool

-- `no_tag` is `zap.L().Fatal`.
pub data BuildError : Type 0 where
  no_tag bad_tag bad_platform no_digest no_platform bad_format output no_build : BuildError
  index_failed : IndexError → BuildError
  unmatched : List String → List String → BuildError
  invalid_layers : LayerError → BuildError
  layers_failed : LayersError → BuildError
  append_failed : AppendError → BuildError
  pushed_failed : PushedError → BuildError

-- What the build of one config runs against.
pub record World (Image Index : Type 0) : Type 0 where
  pub layers : Context
  pub images : Images Image TaggableIndex
  pub indexes : Indexes Image Index
  pub range : EnvMap → EnvMap
  pub digest_str : Reference → String
  pub annotations : Annotations → Image → Image
  pub host_override : String
  pub config_name : Image → Option String
  pub image_type : Image → Option String
  pub save : List (Action Image TaggableIndex) → String → String → Bool

-- What is prepared before anything is sent.
pub record Plan (Index : Type 0) : Type 0 where
  pub tag : String
  pub index : IndexManifests Index
  pub layers_by_platform : List (String × List Archive)

-- The `KEY=VALUE` texts of the config, without entries that have no name.
unfoldable pub env_texts : List EnvVar → List String
env_texts [] = []
env_texts (e ∷ es) =
    let rest = env_texts es in
    if str_eq e.name "" then rest else (e.name <> ("=" <> e.value)) ∷ rest

abbrev pub valid : List LayerError → Result BuildError (Unit {0})
valid [] = ok tt
valid (e ∷ es) = err (invalid_layers e)

abbrev pub all_matched : List String → List String → Result BuildError (Unit {0})
all_matched [] declared = ok tt
all_matched (c ∷ cs) declared = err (unmatched (c ∷ cs) declared)

module _ {Image Index : Type 0} (world : World Image Index) (config : ContainConfig)
    (opts : WriteOptions) where
  abbrev pub Method : Type 0 → Type 0
  Method A = Effect (Action Image TaggableIndex) BuildError A

  abbrev pub from_index : {A : Type 0} → Result IndexError A → Result BuildError A
  from_index (ok a) = ok a
  from_index (err e) = err (index_failed e)

  abbrev pub from_layers : {A : Type 0} → Result LayersError A → Result BuildError A
  from_layers (ok a) = ok a
  from_layers (err e) = err (layers_failed e)

  abbrev pub from_pushed : {A : Type 0} → Result PushedError A → Result BuildError A
  from_pushed (ok a) = ok a
  from_pushed (err e) = err (pushed_failed e)

  abbrev pub from_append :
      {A : Type 0}
      → Result AppendError A × List (Action Image TaggableIndex)
      → Result BuildError A × List (Action Image TaggableIndex)
  from_append (ok a, h) = (ok a, h)
  from_append (err e, h) = (err (append_failed e), h)

  abbrev name_of : Platform → String
  name_of p = world.indexes.refs.platform_string p

  -- `layersByPlatform`: a later platform of the same text takes the place of an earlier one.
  unfoldable pub build_layers :
      List LayerBuilder
      → List Platform
      → List (String × List Archive)
      → Result BuildError (List (String × List Archive))
  build_layers builders [] built = ok built
  build_layers builders (p ∷ ps) built = do
    archives ← from_layers (build builders p)
    build_layers builders ps ((name_of p, archives) ∷ built)

  -- `RunAppend` before anything is sent, with the builders of `RunLayers`.
  unfoldable pub prepare : List LayerBuilder → Result BuildError (Plan Index)
  unfolding build_layers
  prepare builders = do
    guard (not (str_eq config.tag "")) no_tag
    tag ← or_err (world.indexes.refs.parse_reference config.tag) bad_tag
    matcher ←
        or_err
          (match_platforms_for_append world.layers.table world.layers.parse_platform
            config.platforms)
          bad_platform
    index ← from_index (new_from_multi_arch_base world.indexes matcher config.base)
    let targets = matched_platforms world.indexes index
    missing ←
        or_err
          (unmatched_platforms world.layers.table world.layers.parse_platform config.platforms
            targets)
          bad_platform
    all_matched missing index.base_platforms
    valid (validate_layers world.layers.table world.layers.parse_platform 0 config.layers targets)
    built ← build_layers builders targets []
    ok (record { tag = tag.text; index = index; layers_by_platform = built })

  -- The annotator, where the base has one
  abbrev annotators : List (Annotator Image)
  annotators =
      elim (new_base_image_annotations world.indexes.refs.parse_reference world.digest_str
        world.annotations world.host_override config.base) [ none ↦ [] | some f ↦ f ∷ [] ]

  abbrev pub appender_of : Reference → String → Appender Image
  appender_of base tag = record {
    base_ref = base.text;
    tag_ref = tag;
    annotators = annotators;
    envs = env_texts config.env;
    entrypoint = config.entrypoint;
    args = config.args;
    workdir = config.working_dir;
    skip_push = not opts.push;
    push_lock = opts.push_lock;
    layer_cache = opts.layer_cache;
  }

  abbrev pub layers_at : String → List (String × List Archive) → List Archive
  layers_at key m = elim (lookup key m) [ none ↦ [] | some archives ↦ archives ]

  -- `each`
  unfoldable pub append_prototype :
      List (String × List Archive) → Reference → String → Platform → Method (IndexAddendum Image)
  unfolding append env_texts
  append_prototype layers base tag p h =
      let r =
        from_append (
          append world.images world.range (appender_of base tag) (layers_at (name_of p) layers)
            h) in
      then_do r.0 r.1 (λ result. pure result.pushed)

  -- The branch for one platform
  unfoldable pub build_single : Plan Index → Method Artifact
  unfolding append_prototype
  build_single plan =
      append_prototype plan.layers_by_platform plan.index.prototype.base plan.tag
        plan.index.prototype.platform
      >>>= λ added. lift (do
        hash ← or_err (world.images.digest added.add) no_digest
        platform ← or_err added.descriptor.platform no_platform
        from_pushed (
            new_single_image world.indexes.refs plan.tag hash (world.config_name added.add)
              (world.image_type added.add) platform config.base))

  unfoldable pub build_artifact : Plan Index → Method Artifact
  unfolding build_single
  build_artifact plan =
      if ltb 1 (size_append world.indexes plan.index)
      then (build_with_append world.indexes index_failed plan.index
            (append_prototype plan.layers_by_platform) plan.tag opts.push
          >>>= λ r. pure r.1)
      else build_single plan

  abbrev pub format_of : String
  format_of = if str_eq opts.output_format "" then "tarball" else opts.output_format

  -- `writeOutput`, where a path is given: `save` is the writing of either format.
  unfoldable pub write_output : Method (Unit {0})
  write_output h =
      if str_eq opts.output_path ""
      then (ok tt, h)
      else if str_eq format_of "oci" || str_eq format_of "tarball"
      then (
        if world.save h format_of opts.output_path then ok tt else err output,
        saved opts.output_path (world.save h format_of opts.output_path) ∷ h,
      )
      else (err bad_format, h)

  -- `RunAppend`
  unfoldable pub run_append : List LayerBuilder → Method BuildOutput
  unfolding prepare build_artifact write_output
  run_append builders = lift (prepare builders) >>>= λ plan.
      build_artifact plan >>>= λ a. write_output >>>= λ _. pure (new_build_output plan.tag a)

abbrev pushing_only : WriteOptions
pushing_only = record {
  push = true;
  output_path = "";
  output_format = "";
  push_lock = false;
  layer_cache = false;
}

abbrev first_build : List Artifact → Result BuildError Artifact
first_build [] = err no_build
first_build (a ∷ rest) = ok a

-- `Run`
unfoldable pub run :
    {Image Index : Type 0} (world : World Image Index) (config : ContainConfig)
    → Effect (Action Image TaggableIndex) BuildError Artifact
unfolding run_append
run world config =
    lift (from_layers world config pushing_only (run_layers world.layers config.layers)) >>>= λ bs.
    run_append world config pushing_only bs >>>= λ output. lift (first_build output.builds)
