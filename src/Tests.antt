-- ===== src/Tests.antt =====
-- Runs against two small registries, and the theorems at concrete inputs.
use contain.Base.{
  ℕ, ◌+◌, ◌≡◌, ◌≢◌, ◌≤◌, refl, String, ◌<>◌, true, false, Option, none, some, List, [], ◌∷◌,
  some-injective, pos, length, not, ◌==◌,
}
use contain.Base.{zero, suc, ◌<◌, str_eq, if◌then◌else◌, ltb, all, map, lookup, arith}
use mathlib.Core.Path.{subst}
use contain.Ocipush.World.{
  Bytes, Descriptor, ManifestDoc, Role, dst, Method, get, post, put, Url, blob, uploads, manifest,
}
use contain.Ocipush.World.{Response, Reference, Env, Sys, ok, out_of_fuel, Part}
use contain.Ocipush.Client.{RegClient, Options}
use contain.Ocipush.Digest.{equal_fold}
use contain.Ocipush.Direct.{Session, ext_upload_parts, upload_part}
use contain.Ocipush.Direct.Parts.{assemble, last_sent, upload_part-content}
use contain.Ocipush.Direct.Numbers.{count_from, ext_upload_parts-numbered}
use contain.Ocipush.Push.{push_layout}
use contain.Ocipush.Push.Order.{push_layout-children_first, push_layout-published, push_layout-ends}
use contain.Ocipush.Mirror.{mirror}
use contain.Ocipush.Mirror.Order.{mirror-arrived, mirror-ends}
use contain.Ocipush.Trace.{blob_item, manifest_item, present, children_first, audit}
use contain.Ocipush.Trace.Order.{Acyclic}
use contain.Ocipush.Routes.{route}
use contain.Ocipush.Routes.Safe.{is_safe, route-safe}
use contain.Ocipush.Proxy.{
  Proxy, UploadSession, ProxyState, Call, manifest_put, upload_put, upstream_repo,
}
use contain.Ocipush.Proxy.Sessions.{upload_put-ends_session}
use contain.Ocipush.Proxy.Stored.{
  is_created, IsAccepted, manifest_put-IsAccepted, upload_put-stored, upload_put-verified,
}
use contain.Cache.Purge.{
  CacheEntry, PurgeStrategy, ReadDir, listed, Sweep, sweep, purge, total_size,
}
use contain.Cache.Purge.Bounds.{
  purge-retains_at_most, sweep-accounts, paths_of, reached, to_remove, to_retain,
}
use contain.Schema.Config.{Layer}
use contain.BuildTests.{plain_table}
use contain.Schema.LocalFile.{Platform, validate_layers}
use contain.Schema.LocalFile.Resolved.{is_sound, validate_layers_sound}
use contain.Ocipush.Client.{new_reg_client}
use contain.Ocipush.Digest.{blobs_of}
use contain.Ocipush.Push.{push_blob}
use contain.Ocipush.Direct.{push_blob_file}
use contain.Ocipush.Client.{blob_exists}
use contain.Ocipush.Direct.{try_direct_push}
use contain.Ocipush.Direct.{wants}
use contain.Ocipush.Client.{push_blob_standard}
use contain.Ocipush.Client.{put_blob_once}
use contain.Ocipush.Client.{put_manifest}
use contain.Ocipush.Mirror.{push_tree}
use contain.Ocipush.Mirror.{limited}
use contain.Ocipush.Mirror.{mirror_child}
use contain.Ocipush.Mirror.{mirror_blob}
use contain.Ocipush.Staging.{resolve_staging_dir}
use contain.Ocipush.Mirror.{verify_blob}
use contain.Ocipush.Direct.{run_parts}
use contain.Ocipush.Direct.{remove_at}
use contain.Ocipush.Direct.{first_error}
use contain.Ocipush.Direct.{upload_part}
use contain.Ocipush.Direct.{store_part}
use contain.Ocipush.Proxy.{created}
use contain.Ocipush.Staging.{disk_step}
use contain.Multiarch.Match.{matches_any, match_platforms_for_append, unmatched_platforms}
use contain.Multiarch.Match.Selection.{platforms_of, selected, unmatched_platforms-selected}
use contain.Ocipush.Proxy.{serve_http}
use contain.Ocipush.Proxy.Sizes.{is_sized, serve_http-sized}
use contain.Ocipush.World.{patch}
use contain.Ocipush.Routes.{name_from}
use contain.Ocipush.Routes.{name_step}

-- The digests of an image manifest, of an index and of a blob.
abbrev image_hex : String
image_hex = "1111111111111111111111111111111111111111111111111111111111111111"

abbrev index_hex : String
index_hex = "2222222222222222222222222222222222222222222222222222222222222222"

abbrev blob_hex : String
blob_hex = "abababababababababababababababababababababababababababababababab"

abbrev image_digest : String
image_digest = "sha256:" <> image_hex

abbrev index_digest : String
index_digest = "sha256:" <> index_hex

abbrev blob_digest : String
blob_digest = "sha256:" <> blob_hex

-- The image manifest is empty, an index is one byte, all else is a blob.
abbrev digest_of : Bytes → String
digest_of [] = image_digest
digest_of (b ∷ []) = index_digest
digest_of (b ∷ c ∷ s) = blob_digest

abbrev image_doc : ManifestDoc
image_doc = record {
  media_type = "";
  manifests = [];
  config = some (record { media_type = ""; digest = blob_digest; size = 2 });
  layers = [];
}

abbrev index_doc : ManifestDoc
index_doc = record {
  media_type = "";
  manifests = record { media_type = ""; digest = image_digest; size = 0 } ∷ [];
  config = none;
  layers = [];
}

abbrev parse_manifest : Bytes → Option ManifestDoc
parse_manifest [] = some image_doc
parse_manifest (b ∷ []) = some index_doc
parse_manifest (b ∷ c ∷ s) = none

abbrev reply : ℕ → Bytes → Option Response
reply status body = some (record {
  status = status;
  headers = ("Location", "/upload") ∷ ("ETag", "e") ∷ [];
  body = body;
  complete = true;
})

-- A registry that has `app:latest` and takes whatever it is sent.
abbrev serve : Method → Url → Option Response
serve get (manifest repo ref) = reply 200 (if str_eq ref "latest" then 1 ∷ [] else [])
serve get (blob repo digest) = reply 200 (7 ∷ 8 ∷ [])
serve post (uploads repo) = reply 202 []
serve put url = reply 201 []
serve method url = reply 404 []

abbrev reference : String → Option Reference
reference s =
    if str_eq s "from/app:latest"
    then some (record { repository = "app"; identifier = "latest"; pinned = none })
    else if str_eq s "to/app:v1"
    then some (record { repository = "team/app"; identifier = "v1"; pinned = none })
    else none

abbrev world : Env
world = record {
  respond = λ h req. serve req.method req.url;
  grant = λ h role repo scope. true;
  now = λ h. 0;
  cancelled = λ h. false;
  temp_name = λ h. some "/tmp/blob";
  choose = λ h. 1;
  disk_ok = λ h. true;
  getenv = λ name. "";
  parse_reference = reference;
  has_credentials = λ role. true;
  digest_of = digest_of;
  parse_manifest = parse_manifest;
  parse_session = λ bytes. none;
  parse_extensions = λ bytes. none;
  valid_url = λ url. true;
  resolve = λ url loc. some "/upload";
}

abbrev disk : String → Option Bytes
disk path =
    if str_eq path "layout/index.json"
    then some (1 ∷ [])
    else if str_eq path ("layout/blobs/sha256/" <> image_hex)
    then some []
    else if str_eq path ("layout/blobs/sha256/" <> blob_hex)
    then some (7 ∷ 8 ∷ [])
    else none

abbrev fresh : Sys
fresh = record { history = []; files = disk; clients = []; discovered = false; usable = false }

abbrev opts : Options
opts = record { auth = true; ext_threshold = 0; part_size = 0; staging_dir = "" }

rank : String → ℕ
rank digest = if str_eq digest index_digest then 1 else 0

world-Acyclic : (Stored : Bytes → Type 0) → Acyclic world rank Stored
unfolding rank
world-Acyclic Stored [] doc at e =
    subst (λ x. all (λ d. ltb (rank d.digest) 0) x.manifests ≡ true) (some-injective _ _ e) refl
world-Acyclic Stored (b ∷ []) doc at e =
    subst (λ x. all (λ d. ltb (rank d.digest) 1) x.manifests ≡ true) (some-injective _ _ e) refl
world-Acyclic Stored (b ∷ c ∷ s) doc at e = absurd (cc)

-- Push.
index-shallow :
    (bytes : Bytes) → disk "layout/index.json" ≡ some bytes → ltb (rank (digest_of bytes)) 3 ≡ true
unfolding rank
index-shallow [] e = refl
index-shallow (b ∷ []) e = refl
index-shallow (b ∷ c ∷ s) e = refl

push_layout-children_first_example :
    audit (children_first world dst) (push_layout world 3 "layout" "to/app:v1" opts fresh).1.history
    ≡ true
unfolding audit
push_layout-children_first_example =
    push_layout-children_first world 3 "layout" "to/app:v1" opts fresh refl

push_layout-published_example :
    (target : Reference) × (reference "to/app:v1" ≡ some target)
    × (present world dst
          (push_layout world 3 "layout" "to/app:v1" opts fresh).1.history
          (manifest_item target.repository target.identifier)
        ≡ true)
unfolding push_layout new_reg_client blobs_of push_blob push_blob_file blob_exists try_direct_push
    wants push_blob_standard put_blob_once put_manifest
push_layout-published_example =
    push_layout-published world 3 "layout" "to/app:v1" opts fresh tt refl

push_layout-ends_example : (push_layout world 3 "layout" "to/app:v1" opts fresh).0 ≢ out_of_fuel
push_layout-ends_example =
    push_layout-ends world rank 3 "layout" "to/app:v1" opts fresh (world-Acyclic _) index-shallow

-- Mirror.
abbrev from_app : Reference
from_app = record { repository = "app"; identifier = "latest"; pinned = none }

abbrev to_app : Reference
to_app = record { repository = "team/app"; identifier = "v1"; pinned = none }

all-shallow : (bytes : Bytes) → ltb (rank (digest_of bytes)) 3 ≡ true
unfolding rank
all-shallow [] = refl
all-shallow (b ∷ []) = refl
all-shallow (b ∷ c ∷ s) = refl

mirror-arrived_example :
    present world dst
      (mirror world 3 "from/app:latest" "to/app:v1" opts opts fresh).1.history
      (manifest_item "team/app" "v1")
    ≡ true
unfolding mirror new_reg_client push_tree limited mirror_child blobs_of mirror_blob blob_exists
    resolve_staging_dir verify_blob equal_fold push_blob_file try_direct_push wants
    push_blob_standard put_blob_once put_manifest
mirror-arrived_example =
    mirror-arrived world 3 "from/app:latest" "to/app:v1" opts opts from_app to_app fresh tt refl
      refl refl

mirror-ends_example : (mirror world 3 "from/app:latest" "to/app:v1" opts opts fresh).0 ≢ out_of_fuel
mirror-ends_example =
    mirror-ends world rank 3 "from/app:latest" "to/app:v1" opts opts from_app to_app fresh refl refl
      (world-Acyclic _) (λ bytes _. all-shallow bytes)

-- A direct upload.
abbrev two_parts : Session
two_parts = record {
  doc = record {
    exists = false;
    key = "k";
    upload_id = "u";
    part_size = 3;
    urls = "p1" ∷ "p2" ∷ [];
    expires_seconds = 0;
    headers = [];
  };
  deadline = none;
}

abbrev client_of : Role → RegClient
client_of role = record { role = role; ext = none }

abbrev five_bytes : Descriptor
five_bytes = record { media_type = ""; digest = blob_digest; size = 5 }

abbrev content : Bytes
content = 1 ∷ 2 ∷ 3 ∷ 4 ∷ 5 ∷ []

abbrev address : ℕ → String
address zero = "p1"
address _ = "p2"

abbrev tagged : ℕ → Part
tagged i = record { number = i + 1; etag = "e" }

both_parts :
    (i : ℕ)
    → i < 2
    → (upload_part world (client_of dst) two_parts five_bytes content i (address i) fresh).0
      ≡ ok (tagged i)
unfolding upload_part
both_parts zero l = refl
both_parts (suc zero) l = refl
both_parts (suc (suc i)) l = absurd (omega arith)

upload_part-content_example :
    assemble
      (λ i.
        last_sent
          (address i)
          (upload_part world
            (client_of dst)
            two_parts
            five_bytes
            content
            i
            (address i)
            fresh).1.history)
      2
    ≡ 1 ∷ 2 ∷ 3 ∷ 4 ∷ 5 ∷ []
upload_part-content_example =
    upload_part-content world (client_of dst) two_parts five_bytes content 2 address (λ i. fresh)
      tagged refl (omega arith) both_parts

abbrev etags : List Part
etags = record { number = 1; etag = "e" } ∷ record { number = 2; etag = "e" } ∷ []

ext_upload_parts-numbered_example : map (λ p. p.number) etags ≡ count_from 1 2
unfolding ext_upload_parts run_parts remove_at first_error upload_part store_part
ext_upload_parts-numbered_example =
    ext_upload_parts-numbered world (client_of dst) two_parts five_bytes (1 ∷ 2 ∷ 3 ∷ 4 ∷ 5 ∷ [])
      fresh etags refl

-- The proxy.
route-safe_example : is_safe (route get "/v2/team/../admin/manifests/latest") ≡ true
route-safe_example = route-safe get "/v2/team/../admin/manifests/latest"

abbrev localhost_proxy : Proxy
localhost_proxy = record { c = client_of dst; prefix = "team/"; staging_dir = "" }

abbrev call_put : Bytes → Call
call_put body = record {
  method = put;
  path = "/v2/app/blobs/uploads/0";
  headers = [];
  mount = "";
  digest = blob_digest;
  body = body;
  complete = true;
  random_id = none;
  locked = λ id. false;
}

abbrev chunk_sent : UploadSession
chunk_sent = record { file = "/tmp/chunks"; hashed = 7 ∷ []; size = 1; last_used = 0 }

abbrev one_session : ProxyState
one_session = record { sys = fresh; sessions = ("0", chunk_sent) ∷ [] }

abbrev itoa : ℕ → String
itoa n = "0"

manifest_put-IsAccepted_example :
    IsAccepted world itoa localhost_proxy "team/app" "v1" []
      (manifest_put world itoa localhost_proxy (call_put []) "app" "v1" one_session).1.sys.history
unfolding manifest_put is_created upstream_repo put_manifest created
manifest_put-IsAccepted_example =
    manifest_put-IsAccepted world itoa localhost_proxy (call_put []) "app" "v1" one_session refl

upload_put-stored_example :
    present world dst
      (upload_put world itoa localhost_proxy
        (call_put (8 ∷ []))
        "app"
        "0"
        chunk_sent
        one_session).1.sys.history
      (blob_item "team/app" blob_digest)
    ≡ true
unfolding upload_put is_created upstream_repo disk_step equal_fold push_blob_file blob_exists
    try_direct_push wants push_blob_standard put_blob_once created
upload_put-stored_example =
    upload_put-stored world itoa localhost_proxy (call_put (8 ∷ [])) "app" "0" chunk_sent
      one_session refl

upload_put-verified_example : equal_fold blob_digest (digest_of (7 ∷ 8 ∷ [])) ≡ true
unfolding upload_put is_created disk_step equal_fold push_blob_file blob_exists try_direct_push
    wants push_blob_standard put_blob_once created
upload_put-verified_example =
    upload_put-verified world itoa localhost_proxy (call_put (8 ∷ [])) "app" "0" chunk_sent
      one_session refl

upload_put-ends_session_example :
    lookup "0"
      (upload_put world itoa localhost_proxy
        (call_put (8 ∷ []))
        "app"
        "0"
        chunk_sent
        one_session).1.sessions
    ≡ none
upload_put-ends_session_example =
    upload_put-ends_session world itoa localhost_proxy (call_put (8 ∷ [])) "app" "0" chunk_sent
      one_session

-- The cache.
abbrev cached : String → ℕ → ℕ → CacheEntry
cached path size mtime = record { path = path; size = size; mtime = mtime }

abbrev two_entries : List CacheEntry
two_entries = cached "c/sha256:a" 3 10 ∷ cached "c/sha256:b" 4 20 ∷ []

abbrev directory : ReadDir
directory = listed (
    record { name = "sha256:a"; is_dir = false; info = some (3, 10) }
    ∷ record { name = "x.tmp.1"; is_dir = false; info = some (9, 10) }
    ∷ record { name = "sha256:b"; is_dir = false; info = some (4, 20) }
    ∷ [])

abbrev at_most_5 : PurgeStrategy
at_most_5 = record { max_age = 0; max_size = 5; everything = false }

abbrev one_left : Sweep
one_left = record {
  result = record { removed_count = 1; removed_bytes = 3; retained_count = 1; retained_bytes = 4 };
  removed = "c/sha256:a" ∷ [];
  stopped = false;
}

purge-retains_at_most_example : 4 ≤ 5
unfolding purge
purge-retains_at_most_example =
    purge-retains_at_most 100 (λ es. es) ("c/x.tmp.1" ∷ []) (λ path. true) at_most_5 "c" directory
      one_left refl refl refl

sweep-accounts_example :
    let seen = reached (λ path. true) ("c/sha256:a" ∷ []) two_entries in
    let out = sweep (λ path. true) ("c/sha256:a" ∷ []) two_entries in
    (out.removed ≡ paths_of (to_remove ("c/sha256:a" ∷ []) seen))
    × (out.result.removed_count ≡ length (to_remove ("c/sha256:a" ∷ []) seen))
    × (out.result.removed_bytes ≡ total_size (to_remove ("c/sha256:a" ∷ []) seen))
    × (out.result.retained_count ≡ length (to_retain ("c/sha256:a" ∷ []) seen))
    × (out.result.retained_bytes ≡ total_size (to_retain ("c/sha256:a" ∷ []) seen))
    × (out.stopped ≡ not (length seen == length two_entries))
sweep-accounts_example = sweep-accounts (λ path. true) ("c/sha256:a" ∷ []) two_entries

-- The check of a config.
abbrev amd64 : Platform
amd64 = record { os = "linux"; architecture = "amd64"; variant = ""; others = "" }

abbrev per_platform : Layer
per_platform = record {
  attributes = record { uid = 0; gid = 0; file_mode = pos 0; dir_mode = pos 0 };
  local_dir = record {
    path = "";
    container_path = "";
    ignore = [];
    max_files = pos 0;
    max_size = "";
  };
  local_file = record {
    path = "";
    path_per_platform = ("linux/amd64", "bin/amd64") ∷ [];
    container_path = "/app";
    max_size = "";
  };
}

validate_layers_sound_example :
    all (is_sound plain_table (λ key. none) (amd64 ∷ [])) (per_platform ∷ []) ≡ true
unfolding validate_layers
validate_layers_sound_example =
    validate_layers_sound plain_table (λ key. none) 0 (per_platform ∷ []) (amd64 ∷ []) refl

-- The selection of base children.
abbrev arm64 : Platform
arm64 = record { os = "linux"; architecture = "arm64"; variant = ""; others = "" }

abbrev parse_two : String → Option Platform
parse_two s =
    if str_eq s "linux/amd64"
    then some amd64
    else if str_eq s "linux/arm64"
    then some arm64
    else none

abbrev base_index : List (Option Platform)
base_index = none ∷ some amd64 ∷ []

unmatched_platforms-selected_example :
    unmatched_platforms plain_table parse_two
      ("linux/amd64" ∷ "linux/arm64" ∷ [])
      (platforms_of (selected (matches_any plain_table parse_two (amd64 ∷ arm64 ∷ [])) base_index))
    ≡ unmatched_platforms plain_table parse_two
        ("linux/amd64" ∷ "linux/arm64" ∷ [])
        (platforms_of base_index)
unfolding match_platforms_for_append
unmatched_platforms-selected_example =
    unmatched_platforms-selected plain_table parse_two ("linux/amd64" ∷ "linux/arm64" ∷ [])
      (matches_any plain_table parse_two (amd64 ∷ arm64 ∷ [])) base_index refl

abbrev patch_call : Call
patch_call = record {
  method = patch;
  path = "/v2/app/blobs/uploads/abababababababababababababababab";
  headers = [];
  mount = "";
  digest = "";
  body = 8 ∷ 9 ∷ [];
  complete = true;
  random_id = none;
  locked = λ id. false;
}

abbrev patched_session : ProxyState
patched_session = record {
  sys = fresh;
  sessions = ("abababababababababababababababab", chunk_sent) ∷ [];
}

serve_http-sized_example :
    is_sized (serve_http world itoa localhost_proxy patch_call patched_session).1.sessions ≡ true
serve_http-sized_example =
    serve_http-sized world itoa localhost_proxy patch_call patched_session refl

-- The chunk that a PATCH carries follows what the session has received.
patch_appends :
    map
      (λ t. t.1.hashed)
      (serve_http world itoa localhost_proxy patch_call patched_session).1.sessions
    ≡ (7 ∷ 8 ∷ 9 ∷ []) ∷ []
unfolding serve_http name_from name_step disk_step
patch_appends = refl
