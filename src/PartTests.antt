-- ===== src/PartTests.antt =====
-- The theorems on the parts of a build and on the push lock at concrete inputs.
use contain.Base.{
  ℕ, ◌≡◌, refl, sym, ap, ◌∙◌, String, true, false, none, some, some-injective, List, [], ◌∷◌, pos,
  lookup, ◌>>=◌, arith, codes,
}
use mathlib.Core.List.{Mem, mem-cons, mem-cons_self, not-mem-nil}
use mathlib.Core.List.Perm
use mathlib.Core.Logic.Or
use mathlib.Core.Logic.{◌∨₁◌, ∥∥₁_prop, inl, inr}
use mathlib.Core.Path.{subst}
use native.Mathlib.Nat.{ℕ_set}
use text.Mathlib.TextEquality.{IsScalar-prop}
use contain.BuildTests.{
  one_dir, any_tar, context, root_owned, app_dir, amd64_platform, arm64_platform, child, text_refs,
  counted, listed_indexes,
}
use contain.Pushlock.{
  Calls, idle, polling, locked, critical, Step, Reach, start, later, turn, open_file, flock, update,
}
use contain.Pushlock.Exclusive.{Reach-exclusive, Reach-free}
use contain.Localdir.{From, from_filesystem}
use contain.Localdir.Filemap.{FileInfo, Archive, type_dir, type_reg, layer_from_files}
use contain.Localdir.Filemap.Order.{AreDetermined}
use contain.Localdir.Limits.{AreLimited, from_filesystem_limited}
use contain.Localdir.Reproducible.{layer_from_files_reproducible}
use contain.Layers.{run_layers, build}
use contain.Layers.Built.{has_source, build-has_source}
use contain.Appender.{Appender, AppendResult, get_layers_delta, get_manifest_layer, append}
use contain.Appender.Results.{IsPushed, append-IsPushed, append-Added, Added}
use contain.Appender.Env.{apply_env_overrides}
use contain.Appender.Env.Lookup.{entries, expected, apply_env_overrides-lookup}
use contain.Multiarch.Index.{IndexManifests, ToAppend}
use contain.Multiarch.Index.Children.{Selected, new_from_multi_arch_base_matched}
use contain.Pushed.{
  Artifact, ArtifactJson, ArtifactOutput, Codec, Reference, marshal_json, unmarshal_json,
}
use contain.Pushed.Restored.{IsPlain, new_index_image_restored}
use contain.Images.{ChildDescriptor}
use contain.Schema.LocalFile.{Platform}

-- The first of two calls has the lock, the second one waits for it.
abbrev contended : Calls
contended = record {
  file = record { flock = some 0; content = []; log = [] };
  phase = update (update (update (λ i. idle) 0 (polling false)) 1 (polling false)) 0 locked;
}

Reach-exclusive_example : ◌≡◌ {A = ℕ} 0 0
Reach-exclusive_example =
    let reached : Reach (λ i. i ∷ []) [] contended =
      later (later (later start (turn 0 open_file)) (turn 1 open_file)) (turn 0 (flock refl)) in
    Reach-exclusive reached 0 0 refl refl

abbrev polled : Calls
polled = record {
  file = record { flock = none; content = []; log = [] };
  phase = update (λ i. idle) 0 (polling false);
}

none_critical : (i : ℕ) → critical (polled.phase i) ≡ false
none_critical i = ground arith

Reach-free_example : (t : Calls) × Step (λ i. i ∷ []) polled t × (t.phase 0 ≡ locked)
Reach-free_example =
    let reached : Reach (λ i. i ∷ []) [] polled = later start (turn 0 open_file) in
    Reach-free reached none_critical 0 false refl

abbrev five_files : From
five_files = record {
  is_file = false;
  path = "app";
  container_path = none;
  ignore = none;
  max_files = pos 5;
  max_size = pos 3;
}

abbrev walked : Archive
walked =
    record {
      header = record {
        name = ".";
        mode = pos 493;
        uid = 0;
        gid = 0;
        mod_time = 0;
        typeflag = type_dir;
        linkname = "";
        size = 0;
      };
      content = [];
    }
    ∷ record {
      header = record {
        name = "bin";
        mode = pos 493;
        uid = 0;
        gid = 0;
        mod_time = 0;
        typeflag = type_reg;
        linkname = "";
        size = 3;
      };
      content = 1 ∷ 2 ∷ 3 ∷ [];
    }
    ∷ []

from_filesystem_limited_example : AreLimited one_dir five_files walked
unfolding from_filesystem
from_filesystem_limited_example =
    from_filesystem_limited one_dir any_tar five_files root_owned walked refl

abbrev file_named : String → FileInfo
file_named path = record {
  path = path;
  content = [];
  mode = 420;
  is_dir = false;
  is_symlink = false;
  link_target = "";
}

abbrev two_files : List FileInfo
two_files = file_named "b" ∷ file_named "a" ∷ []

is_either : (f : FileInfo) → Mem f two_files → (f ≡ file_named "b") ∨₁ (f ≡ file_named "a")
is_either f m =
    Or.elim ∥∥₁_prop (mem-cons.0 m) (λ e. ∣ inl e ∣₁)
      (λ n. Or.elim ∥∥₁_prop (mem-cons.0 n) (λ e. ∣ inr e ∣₁) (λ z. absurd (not-mem-nil z)))

apart : ¬ (codes "b" ≡ codes "a")
apart e = ground arith

two_files-AreDetermined : AreDetermined two_files
two_files-AreDetermined f g mf mg same =
    let prop : IsProp (f ≡ g) = hlevel (ℕ_set, IsScalar-prop) in
    let path = λ (x : FileInfo). codes x.path in
    Or.elim prop (is_either f mf)
      (λ ef.
        Or.elim prop (is_either g mg) (λ eg. ef ∙ sym eg)
          (λ eg. absurd (apart (sym (ap path ef) ∙ same ∙ ap path eg))))
      (λ ef.
        Or.elim prop (is_either g mg)
          (λ eg. absurd (apart (sym (ap path eg) ∙ sym same ∙ ap path ef))) (λ eg. ef ∙ sym eg))

layer_from_files_reproducible_example :
    layer_from_files any_tar two_files root_owned
    ≡ layer_from_files any_tar (file_named "a" ∷ file_named "b" ∷ []) root_owned
layer_from_files_reproducible_example =
    layer_from_files_reproducible any_tar root_owned two_files
      (file_named "a" ∷ file_named "b" ∷ []) (Perm.swap (file_named "a") (file_named "b") [])
      two_files-AreDetermined

build-has_source_example :
    has_source (run_layers context (app_dir ∷ []) >>= λ bs. build bs amd64_platform) ≡ true
unfolding contain.Schema.LocalFile.validate_layers
build-has_source_example =
    build-has_source context (app_dir ∷ []) (amd64_platform ∷ []) amd64_platform refl mem-cons_self

abbrev existing_env : List String
existing_env = "PATH=/bin" ∷ "A=1" ∷ []

abbrev desired_env : List String
desired_env = "B=${A}$A.$B" ∷ "A=2:${PATH}" ∷ []

apply_env_overrides-lookup_example :
    lookup "A" (entries (apply_env_overrides (λ m. m) existing_env desired_env))
    ≡ expected (λ m. m) existing_env desired_env "A"
apply_env_overrides-lookup_example =
    apply_env_overrides-lookup (λ m. m) existing_env desired_env "A"

abbrev appender : Appender ℕ
appender = record {
  base_ref = "base";
  tag_ref = "app:1";
  annotators = [];
  envs = "A=1" ∷ [];
  entrypoint = [];
  args = [];
  workdir = "";
  skip_push = false;
  push_lock = true;
  layer_cache = false;
}

abbrev appended : AppendResult ℕ
appended = record {
  hash = "sha256:c";
  pushed = record {
    add = 2;
    descriptor = record {
      media_type = "application/vnd.oci.image.manifest.v1+json";
      size = 0;
      digest = "sha256:c";
      platform = some amd64_platform;
      annotations = none;
    };
  };
  added_manifest_layers =
      record {
        media_type = "application/vnd.oci.image.manifest.v1+json";
        size = 7;
        digest = "sha256:d";
        platform = some amd64_platform;
      }
      ∷ [];
}

append-IsPushed_example :
    IsPushed counted
      (λ m. m)
      appender
      appended
      (append counted (λ m. m) appender (walked ∷ []) []).1
unfolding append contain.Appender.prepare contain.Appender.get_base contain.Appender.override_config
    contain.Appender.push_and_finish contain.Appender.push_then_finish contain.Appender.push
    contain.Appender.finish
append-IsPushed_example =
    append-IsPushed counted (λ m. m) appender (walked ∷ []) [] appended refl refl

append-Added_example : Added counted (λ m. m) appender [] appended
unfolding append contain.Appender.prepare contain.Appender.get_base contain.Appender.override_config
    contain.Appender.push_and_finish contain.Appender.push_then_finish contain.Appender.push
    contain.Appender.finish
append-Added_example = append-Added counted (λ m. m) appender (walked ∷ []) [] appended refl

abbrev pending : String → Platform → ChildDescriptor
pending digest p = record {
  media_type = "application/vnd.oci.image.manifest.v1+json";
  size = 0;
  digest = digest;
  platform = some p;
  annotations = none;
}

abbrev to_append : String → Platform → ToAppend
to_append ref p = record {
  base = record { text = ref; is_digest = true };
  meta = pending "" p;
  platform = p;
  base_manifest = record { text = "" };
}

abbrev both_children : IndexManifests (List ChildDescriptor)
both_children = record {
  base_ref = record { text = "base"; is_digest = true };
  to_append =
      to_append "basesha256:a" amd64_platform ∷ to_append "basesha256:b" arm64_platform ∷ [];
  base_platforms = "linux/amd64" ∷ "linux/arm64" ∷ [];
  index_start = [];
  prototype = to_append "basesha256:a" amd64_platform;
}

new_from_multi_arch_base_matched_example : Selected listed_indexes (λ p. true) "base" both_children
unfolding contain.Multiarch.Index.new_from_multi_arch_base contain.Pushed.is_attestation
new_from_multi_arch_base_matched_example =
    new_from_multi_arch_base_matched listed_indexes (λ p. true) "base" both_children refl

abbrev one_platform : Artifact
one_platform = record {
  image_name = "app";
  tag_ref = "app:1@sha256:e";
  media_type = "application/vnd.oci.image.index.v1+json";
  platforms = amd64_platform ∷ [];
  base_ref = "base";
  output = none;
  reference = some (record { text = "app:1"; is_digest = true });
  hash = "sha256:e";
  config_hash = "";
}

amd64-IsPlain : (p : Platform) → Mem p (amd64_platform ∷ []) → IsPlain text_refs p
amd64-IsPlain p m =
    let prop : IsProp (IsPlain text_refs p) = hlevel (ℕ_set, IsScalar-prop) in
    Or.elim prop (mem-cons.0 m)
      (λ e. subst (IsPlain text_refs) (sym e) (refl, refl, refl, refl, refl))
      (λ n. absurd (not-mem-nil n))

-- A codec of one text.
abbrev saved_output : ArtifactOutput
saved_output = record { path = "/tmp/app.tar"; format = "tarball" }

-- A codec whose texts are the fields themselves.
abbrev field_codec : Codec ArtifactJson
field_codec = record { encode = λ x. x; decode = some }

new_index_image_restored_example :
    unmarshal_json text_refs field_codec
      (marshal_json text_refs field_codec (record one_platform { output = some saved_output }))
    ≡ some (record one_platform { output = some saved_output })
unfolding contain.Pushed.last_at contain.Pushed.new_index_image contain.Pushed.is_attestation
new_index_image_restored_example =
    new_index_image_restored text_refs field_codec "app:1" "sha256:e"
      (some ("application/vnd.oci.image.index.v1+json", child "sha256:a" amd64_platform ∷ []))
      "base" one_platform (some saved_output) (λ x. refl)
      (λ n t e. sym (ap (λ x. x.1) (some-injective _ _ e))) refl refl refl amd64-IsPlain refl
