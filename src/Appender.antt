-- ===== src/Appender.antt =====
-- appender_remote.go and appender_delta.go: a base image with layers and settings on top, pushed.
pub mod Env
pub mod Locked
pub mod Results
use contain.Base.{ℕ, zero, suc, String, Bool, true, false, ◌&&◌, Option, none, some, List, [], ◌∷◌}
use contain.Base.{
  length, if◌then◌else◌, leb, str_eq, Result, ok, err, or_err, ◌>>=◌, ◌>>>=◌, Effect, lift, then_do,
}
use contain.Images.{
  ImageConfig, ConfigFile, ChildDescriptor, Action, acquired, released, wrote, IndexAddendum,
  Images,
}
use contain.Appender.Env.{EnvMap, apply_env_overrides}
use contain.Localdir.Filemap.{Archive}
use contain.Schema.LocalFile.{Platform}

pub record AppendResultLayer : Type 0 where
  pub media_type : String
  pub size : ℕ
  pub digest : String
  pub platform : Option Platform

pub record AppendResult (Image : Type 0) : Type 0 where
  pub hash : String
  pub pushed : IndexAddendum Image
  pub added_manifest_layers : List AppendResultLayer

pub data AppendError : Type 0 where
  pulling base_media_type not_oci appending config_of mutating digest_of : AppendError
  lock push_media_type pushing delta : AppendError

-- `Appender`; the lock and the cache are set or not.
pub record Appender (Image : Type 0) : Type 0 where
  pub base_ref : String
  pub tag_ref : String
  pub annotators : List (Image → Image)
  pub envs : List String
  pub entrypoint : List String
  pub args : List String
  pub workdir : String
  pub skip_push : Bool
  pub push_lock : Bool
  pub layer_cache : Bool

-- `getManifestLayer`
unfoldable pub get_manifest_layer : ChildDescriptor → AppendResultLayer
get_manifest_layer layer = record {
  media_type = layer.media_type;
  size = layer.size;
  digest = layer.digest;
  platform = layer.platform;
}

-- The loop of `getLayersDelta`, from an index on.
unfoldable pub get_layers_delta : ℕ → ℕ → List ChildDescriptor → List AppendResultLayer
unfolding get_manifest_layer
get_layers_delta base_layers i [] = []
get_layers_delta base_layers i (layer ∷ layers) =
    let rest = get_layers_delta base_layers (suc i) layers in
    if leb base_layers i then get_manifest_layer layer ∷ rest else rest

abbrev pub is_nil : List String → Bool
is_nil [] = true
is_nil _ = false

abbrev or_default : List String → List String → List String
or_default [] l = l
or_default (s ∷ ss) l = s ∷ ss

unfoldable pub annotate {ℓ} : {Image : Type ℓ} → List (Image → Image) → Image → Image
annotate [] img = img
annotate (f ∷ fs) img = annotate fs (f img)

module _ {Image Index : Type 0} (lib : Images Image Index) (range : EnvMap → EnvMap) where
  abbrev pub Method : Type 0 → Type 0
  Method A = Effect (Action Image Index) AppendError A

  -- `base`, which reads the registry only
  unfoldable pub get_base : List (Action Image Index) → Appender Image → Result AppendError Image
  get_base h a = do
    img ← or_err (lib.remote_image h a.base_ref) pulling
    media_type ← or_err (lib.media_type img) base_media_type
    if str_eq media_type "application/vnd.oci.image.manifest.v1+json"
        then ok (if a.layer_cache then lib.wrap_image img else img)
        else err not_oci

  abbrev pub settings : Appender Image → ImageConfig → ImageConfig
  settings a config = record config {
    env = if is_nil a.envs then config.env else apply_env_overrides range config.env a.envs;
    entrypoint = or_default a.entrypoint config.entrypoint;
    cmd = or_default a.args config.cmd;
    working_dir = if str_eq a.workdir "" then config.working_dir else a.workdir;
  }

  -- The overrides of env, entrypoint, args and workdir in `Append`.
  unfoldable pub override_config : Appender Image → Image → Result AppendError Image
  override_config a img =
      if is_nil a.envs && (is_nil a.entrypoint && (is_nil a.args && str_eq a.workdir ""))
      then ok img
      else do
        cfg ← or_err (lib.config_file img) config_of
        or_err (lib.mutate_config img (settings a cfg.config)) mutating

  -- `Append` up to the push: the base, its config, the image and its digest.
  unfoldable pub prepare :
      List (Action Image Index)
      → Appender Image
      → List Archive
      → Result AppendError (Image × ConfigFile × Image × String)
  unfolding annotate
  prepare h a layers = do
    base ← get_base h a
    base_config ← or_err (lib.config_file base) config_of
    img ← or_err (lib.append_layers base layers) appending
    overridden ← override_config a img
    let annotated = annotate a.annotators overridden
    digest ← or_err (lib.digest annotated) digest_of
    ok (base, base_config, annotated, digest)

  -- `push`: the progress reports are left out.
  unfoldable pub push : String → Image → Method (Unit {0})
  push tag img h = elim (lib.media_type img) [
    | none ↦ (err push_media_type, h)
    | some _ ↦ (
      if lib.write h tag img then ok tt else err pushing,
      wrote tag img (lib.write h tag img) ∷ h,
    )
  ]

  -- `getLayersDeltaForImages`, and the result of `Append`
  unfoldable pub finish :
      Image → ConfigFile → Image → String → Result AppendError (AppendResult Image)
  unfolding get_layers_delta
  finish base base_config img digest = do
    base_layers ← or_err (lib.manifest_layers base) delta
    layers ← or_err (lib.manifest_layers img) delta
    ok (record {
      hash = digest;
      pushed = record {
        add = img;
        descriptor = record {
          media_type = "application/vnd.oci.image.manifest.v1+json";
          size = 0;
          digest = digest;
          platform = base_config.platform;
          annotations = none;
        };
      };
      added_manifest_layers = get_layers_delta (length base_layers) 0 layers;
    })

  unfoldable pub push_then_finish :
      Appender Image → Image → ConfigFile → Image → String → Method (AppendResult Image)
  push_then_finish a base base_config img digest =
      push a.tag_ref img >>>= λ _. lift (finish base base_config img digest)

  abbrev pub acquire_lock : Method (Unit {0})
  acquire_lock h = if lib.acquire h then (ok tt, acquired ∷ h) else (err lock, h)

  -- `defer release()`
  abbrev pub releasing : {A : Type 0} → Method A → Method A
  releasing m h = ((m h).0, released ∷ (m h).1)

  -- The end of `Append`: the push, if it is not skipped, under the lock, if there is one.
  unfoldable pub push_and_finish :
      Appender Image → Image → ConfigFile → Image → String → Method (AppendResult Image)
  push_and_finish a base base_config img digest =
      if a.skip_push
      then lift (finish base base_config img digest)
      else if a.push_lock
      then (acquire_lock >>>= λ _. releasing (push_then_finish a base base_config img digest))
      else push_then_finish a base base_config img digest

  -- `Append`
  unfoldable pub append : Appender Image → List Archive → Method (AppendResult Image)
  append a layers h =
      then_do (prepare h a layers) h
        (λ (base, base_config, img, digest). push_and_finish a base base_config img digest)
