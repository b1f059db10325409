-- ===== src/BuildTests.antt =====
-- A small build world, and the theorems on builds, layers and the push lock at concrete inputs.
use contain.Base.{
  Bool, ◌&&◌, ℕ, ◌+◌, ◌≡◌, ◌≢◌, refl, sym, ◌∙◌, String, ◌<>◌, true, false, Option, none, some, List,
  [], ◌∷◌, ◌++◌, map, pos, ok, length, replicate, str_eq, if◌then◌else◌,
}
use contain.Images.{ChildDescriptor, acquired, released, wrote, put_index, Images}
use contain.Localdir.{FileSystem}
use contain.Localdir.Filemap.{Tar}
use contain.Layers.{Context}
use contain.Multiarch.Index.{Indexes, TaggableIndex, Fetched, ChildManifest}
use contain.Pushed.{References, Reference}
use contain.Schema.Config.{LayerAttributes, LocalFile, Layer, ContainConfig}
use contain.Schema.LocalFile.{Platform, Table}
use contain.Build.Effects.{run_append_dry}
use contain.Build.Order.{no_index, index_last, run_append-index_last, run_append-Unlocked}
use contain.Build.Prepared.{IsReady, run_append-IsReady}
use contain.Appender.Locked.{Unlocked, locked_writes}
use contain.Layers.{LayerBuilder}
use contain.Build.{Plan, prepare, World, WriteOptions, run_append}

abbrev same_fields : Platform → Platform → Bool
same_fields a b =
    str_eq a.os b.os
    && (str_eq a.architecture b.architecture
        && (str_eq a.variant b.variant && str_eq a.others b.others))

abbrev pub plain_table : Table
plain_table = record {
  containerd =
      λ os arch variant. record { os = os; architecture = arch; variant = variant; others = "" };
  equals = same_fields;
}

abbrev pub amd64_platform : Platform
amd64_platform = record { os = "linux"; architecture = "amd64"; variant = ""; others = "" }

abbrev pub arm64_platform : Platform
arm64_platform = record { os = "linux"; architecture = "arm64"; variant = ""; others = "" }

abbrev pub text_of : Platform → String
text_of p =
    if str_eq p.variant ""
    then p.os <> ("/" <> p.architecture)
    else p.os <> ("/" <> (p.architecture <> ("/" <> p.variant)))

abbrev pub parse_linux : String → Option Platform
parse_linux s =
    if str_eq s "linux/amd64"
    then some amd64_platform
    else if str_eq s "linux/arm64"
    then some arm64_platform
    else none

-- One directory with a file of three bytes and a link.
abbrev pub one_dir : FileSystem
one_dir = record {
  walk_dir = λ dir.
      record {
        path = ".";
        entry = some (record { is_dir = true; info = some 493 });
        failed = false;
      }
      ∷ record {
        path = "bin";
        entry = some (record { is_dir = false; info = some 493 });
        failed = false;
      }
      ∷ record {
        path = "out";
        entry = some (record { is_dir = false; info = some 134218239 });
        failed = false;
      }
      ∷ [];
  readlink = λ dir path. some "/etc/passwd";
  read_dir_file = λ dir path. some (1 ∷ 2 ∷ 3 ∷ []);
  os_read_file = λ path. some (4 ∷ 5 ∷ []);
  is_abs = λ path. str_eq path "/etc/passwd";
  ignore_nothing = λ path. some false;
}

abbrev pub any_tar : Tar
any_tar = record {
  header_ok = λ h. true;
  content_ok = λ e. true;
  close_ok = λ a. true;
  layer_ok = λ a. true;
}

abbrev pub context : Context
context = record {
  fs = one_dir;
  tar = any_tar;
  new_matcher = λ patterns. none;
  parse_int = λ s. some (pos 1000);
  table = plain_table;
  parse_platform = parse_linux;
}

abbrev pub root_owned : LayerAttributes
root_owned = record { uid = 0; gid = 0; file_mode = pos 0; dir_mode = pos 0 }

abbrev pub no_file : LocalFile
no_file = record { path = ""; path_per_platform = []; container_path = ""; max_size = "" }

abbrev pub app_dir : Layer
app_dir = record {
  attributes = root_owned;
  local_dir = record {
    path = "app";
    container_path = "/app";
    ignore = [];
    max_files = pos 5;
    max_size = "";
  };
  local_file = no_file;
}

abbrev pub child : String → Platform → ChildDescriptor
child digest p = record {
  media_type = "application/vnd.oci.image.manifest.v1+json";
  size = 7;
  digest = digest;
  platform = some p;
  annotations = none;
}

abbrev pub base_children : List ChildDescriptor
base_children = child "sha256:a" amd64_platform ∷ child "sha256:b" arm64_platform ∷ []

abbrev pub text_refs : References
text_refs = record {
  parse_named = λ s. some ("app", s);
  parse_reference = λ s. some (record { text = s; is_digest = true });
  new_hash = λ s. some s;
  platform_string = text_of;
}

-- An image is the number of its layers, an index the list of its children.
abbrev pub counted : Images ℕ TaggableIndex
counted = record {
  remote_image = λ h ref. some 1;
  media_type = λ img. some "application/vnd.oci.image.manifest.v1+json";
  config_file = λ img. some (record {
    config = record {
      env = "PATH=/bin" ∷ [];
      entrypoint = [];
      cmd = [];
      working_dir = "";
      others = "";
    };
    platform = some amd64_platform;
  });
  append_layers = λ img layers. some (img + length layers);
  mutate_config = λ img config. some img;
  digest = λ img. some "sha256:c";
  manifest_layers = λ img. some (replicate img (child "sha256:d" amd64_platform));
  wrap_image = λ img. img;
  write = λ h tag img. true;
  acquire = λ h. true;
}

abbrev pub listed_indexes : Indexes ℕ (List ChildDescriptor)
listed_indexes = record {
  refs = text_refs;
  with_digest = λ ref digest. record { text = ref.text <> digest; is_digest = true };
  get = λ ref. some (record {
    media_type =
        if str_eq ref.text "base"
        then "application/vnd.oci.image.index.v1+json"
        else "application/vnd.oci.image.manifest.v1+json";
    content = "";
  });
  image_index = λ fetched. some base_children;
  index_manifest = λ index. some ("application/vnd.oci.image.index.v1+json", index);
  parse_manifest = λ content. some (record { text = content });
  is_index_type = λ t. str_eq t "application/vnd.oci.image.index.v1+json";
  remove_manifests = λ index. [];
  append_manifests = λ index added. index ++ map (λ a. a.descriptor) added;
  marshal = λ m. some "{}";
  digest_of = λ index. some "sha256:e";
  media_type_of = λ index. some "application/vnd.oci.image.index.v1+json";
  size_of = λ index. some 2;
  put = λ h tag t. true;
}

abbrev pub small_world : World ℕ (List ChildDescriptor)
small_world = record {
  layers = context;
  images = counted;
  indexes = listed_indexes;
  range = λ m. m;
  digest_str = λ ref. "sha256:f";
  annotations = λ m img. img;
  host_override = "";
  config_name = λ img. some "sha256:g";
  image_type = λ img. some "application/vnd.oci.image.manifest.v1+json";
  save = λ h format path. true;
}

abbrev pub app_config : ContainConfig
app_config = record {
  base = "base";
  tag = "app:1";
  platforms = "linux/amd64" ∷ "linux/arm64" ∷ [];
  layers = app_dir ∷ [];
  env = record { name = "A"; value = "1" } ∷ [];
  working_dir = "";
  entrypoint = [];
  args = [];
}

abbrev pub pushing_locked : WriteOptions
pushing_locked = record {
  push = true;
  output_path = "";
  output_format = "";
  push_lock = true;
  layer_cache = false;
}

abbrev pub no_push : WriteOptions
no_push = record {
  push = false;
  output_path = "";
  output_format = "";
  push_lock = true;
  layer_cache = false;
}

abbrev pub empty_layer : List LayerBuilder
empty_layer = (λ p. ok []) ∷ []

run_append_dry_example : (run_append small_world app_config no_push empty_layer []).1 ≡ []
run_append_dry_example = run_append_dry small_world app_config no_push empty_layer [] refl refl

run_append-index_last_example :
    index_last (run_append small_world app_config pushing_locked empty_layer []).1 ≡ true
unfolding no_index
run_append-index_last_example =
    run_append-index_last small_world app_config pushing_locked empty_layer [] refl

run_append-Unlocked_example :
    Unlocked (run_append small_world app_config pushing_locked empty_layer []).1
unfolding locked_writes
run_append-Unlocked_example =
    run_append-Unlocked small_world app_config pushing_locked empty_layer [] refl (refl, refl)

-- Two images go up, each under the lock, and then the index, without it.
two_platforms :
    (run_append small_world app_config pushing_locked empty_layer []).1
    ≡ put_index "app:1"
        (record {
          manifest = "{}";
          digest = "sha256:e";
          media_type = "application/vnd.oci.image.index.v1+json";
          size = 2;
        })
        true
      ∷ released
      ∷ wrote "app:1" 2 true
      ∷ acquired
      ∷ released
      ∷ wrote "app:1" 2 true
      ∷ acquired
      ∷ []
unfolding run_append contain.Multiarch.Match.match_platforms_for_append
    contain.Multiarch.Index.new_from_multi_arch_base contain.Schema.LocalFile.platforms_equal
    contain.Pushed.is_attestation contain.Multiarch.Match.unmatched_platforms
    contain.Multiarch.Index.matched_platforms contain.Schema.LocalFile.validate_layers
    contain.Layers.build contain.Multiarch.Index.size_append
    contain.Multiarch.Index.build_with_append contain.Appender.prepare contain.Appender.get_base
    contain.Appender.override_config contain.Appender.push_and_finish
    contain.Appender.push_then_finish contain.Appender.push contain.Appender.finish
    contain.Pushed.new_build_output contain.Build.build_layers contain.Pushed.new_index_image
    contain.Annotate.new_base_image_annotations
two_platforms = refl

sends : (run_append small_world app_config pushing_locked empty_layer []).1 ≢ []
sends e = differ (sym two_platforms ∙ e)
  where
    differ : {A : Type 0} {a : A} {rest : List A} → ¬ (a ∷ rest ≡ [])
    differ h = cc

run_append-IsReady_example :
    (plan : Plan (List ChildDescriptor)) × (prepare small_world app_config pushing_locked
        empty_layer
      ≡ ok plan)
    × IsReady small_world app_config pushing_locked empty_layer plan
run_append-IsReady_example =
    run_append-IsReady small_world app_config pushing_locked empty_layer [] sends
