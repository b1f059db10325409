-- ===== src/Ocipush/Mirror.antt =====
-- mirror.go: Mirror copies an image between registries.
pub mod Blob
pub mod Order
use contain.Base.{ℕ, zero, suc, ◌^◌, String, ◌<>◌, Bool, true, false, not, ◌&&◌, ◌||◌}
use contain.Base.{Option, none, some, List, [], ◌∷◌, str_eq, ◌==◌, if◌then◌else◌, length, take}
use contain.Ocipush.World.{
  Bytes, Descriptor, ManifestDoc, src, dst, pull, push, get, blob, manifest,
}
use contain.Ocipush.World.{empty, Request, Response, Env, plain, wrapped, Result, ok, err}
use contain.Ocipush.World.{out_of_fuel, Sys, Exec, pure, raise, ◌>>=◌, ◌>>◌, give, wrap_err}
use contain.Ocipush.World.{from_option, guard, deferring, write_file}
use contain.Ocipush.Errors.{status_error}
use contain.Ocipush.Client.{RegClient, Options, new_reg_client, bare, header, new_request}
use contain.Ocipush.Client.{do_request, blob_exists, put_manifest}
use contain.Ocipush.Direct.{push_blob_file}
use contain.Ocipush.Digest.{equal_fold, blobs_of, media_type_or}
use contain.Ocipush.Staging.{disk_step, staging_file}
use contain.Ocipush.Push.{each, Walk}

abbrev manifest_accept : String
manifest_accept =
    "application/vnd.oci.image.index.v1+json, " <> "application/vnd.oci.image.manifest.v1+json, "
    <> "application/vnd.docker.distribution.manifest.list.v2+json, "
    <> "application/vnd.docker.distribution.manifest.v2+json"

-- `mirrorer`
pub record Mirrorer : Type 0 where
  pub source : RegClient
  pub dest : RegClient
  pub src_repo : String
  pub dst_repo : String
  pub staging_dir : String

-- `verifyBlob`, given the digest of what was read
unfoldable pub verify_blob : Descriptor → ℕ → String → Exec (Unit {0})
verify_blob d size actual =
    if not (d.size == 0) && not (size == d.size)
    then raise (plain ("blob " <> d.digest))
    else guard (equal_fold actual d.digest) (plain ("blob " <> d.digest))

-- The limit of the reader, 32 MiB.
unfoldable pub limited : Bytes → Bytes
limited bytes = take (2 ^ 25) bytes

module _ (env : Env) where
  unfoldable pub manifest_get : Mirrorer → String → Request
  manifest_get m ref = record {
    role = m.source.role;
    auth = some (m.src_repo, pull);
    method = get;
    url = manifest m.src_repo ref;
    headers = ("Accept", manifest_accept) ∷ [];
    body = empty;
    content_length = none;
  }

  -- `fetchManifest`: the content and its media type
  unfoldable pub fetch_manifest : Mirrorer → String → Exec (Bytes × String)
  unfolding manifest_get new_request do_request header
  fetch_manifest m ref = do
    new_request env (manifest m.src_repo ref)
    res ← wrap_err (wrapped ("source manifest " <> ref)) (do_request env (manifest_get m ref))
    guard (res.status == 200) (status_error ("source manifest " <> ref) res)
    guard res.complete (wrapped ("source manifest " <> ref) (plain "read"))
    pure (limited res.body, header "Content-Type" res.headers)

  -- `io.Copy` into the staged file and the hash, then `file.Close`
  unfoldable pub stage_blob : Descriptor → String → Response → Exec (Unit {0})
  unfolding disk_step
  stage_blob d path res = do
    written ← disk_step env
    (λ s. (ok tt, write_file path (some res.body) s))
    closed ← disk_step env
    guard (res.complete && written) (wrapped ("source blob " <> d.digest) (plain "copy"))
    guard closed (plain "close")

  -- From the staged file on, which is removed at the end.
  unfoldable pub forward_staged : Mirrorer → Descriptor → Response → String → Exec (Unit {0})
  unfolding stage_blob
  forward_staged m d res path = deferring (write_file path none) (do
    stage_blob d path res
    verify_blob d (length res.body) (env.digest_of res.body)
    push_blob_file env m.dest m.dst_repo
        (record { media_type = ""; digest = d.digest; size = length res.body }) path)

  unfoldable pub mirror_blob : Mirrorer → Descriptor → Exec (Unit {0})
  unfolding forward_staged new_request do_request staging_file
  mirror_blob m d = do
    found ← blob_exists env m.dest m.dst_repo d.digest push
    if found then pure tt else do
      new_request env (blob m.src_repo d.digest)
      res ← wrap_err (wrapped ("source blob " <> d.digest)) (
          do_request env
            (bare m.source.role (some (m.src_repo, pull)) get (blob m.src_repo d.digest)))
      guard (res.status == 200) (status_error ("source blob " <> d.digest) res)
      path ← staging_file env m.staging_dir
      forward_staged m d res path

  -- The body of the loop over the children of an index.
  unfoldable pub mirror_child : Walk → Mirrorer → Descriptor → Exec (Unit {0})
  unfolding fetch_manifest
  mirror_child below m child = do
    (child_raw, child_type) ← fetch_manifest m child.digest
    guard (str_eq (env.digest_of child_raw) child.digest)
        (plain ("child manifest " <> child.digest))
    below child_raw (if str_eq child_type "" then child.media_type else child_type) child.digest

  -- `pushTree`, with the depth that it may still descend.
  unfoldable pub push_tree : ℕ → Mirrorer → Walk
  unfolding each
  push_tree zero m bytes media_type ref_or_digest = give out_of_fuel
  push_tree (suc n) m bytes media_type ref_or_digest =
      let below = push_tree n m in
      do
        doc ← from_option (plain "parse manifest") (env.parse_manifest bytes)
        each (mirror_child below m) doc.manifests
        each (mirror_blob m) (blobs_of doc)
        put_manifest env m.dest m.dst_repo bytes (media_type_or doc media_type) ref_or_digest

  -- A digest reference pins the root.
  unfoldable pub check_pinned : Option String → Bytes → Exec (Unit {0})
  check_pinned none bytes = pure tt
  check_pinned (some digest) bytes =
      guard (str_eq (env.digest_of bytes) digest) (plain "source root manifest digest")

  -- The rest of `Mirror`, from the fetch of the root on.
  unfoldable pub mirror_root : ℕ → Mirrorer → String → Option String → String → Exec (Unit {0})
  unfolding fetch_manifest check_pinned
  mirror_root depth m identifier pinned target = do
    (bytes, media_type) ← fetch_manifest m identifier
    check_pinned pinned bytes
    push_tree depth m bytes media_type target

  -- `Mirror`
  unfoldable pub mirror : ℕ → String → String → Options → Options → Exec (Unit {0})
  unfolding mirror_root
  mirror depth src_ref dst_ref src_opts dst_opts = do
    from ← from_option (plain "parse source") (env.parse_reference src_ref)
    to ← from_option (plain "parse destination") (env.parse_reference dst_ref)
    src_client ← give (new_reg_client src src_opts (env.has_credentials src))
    dst_client ← give (new_reg_client dst dst_opts (env.has_credentials dst))
    let m : Mirrorer = record {
      source = src_client;
      dest = dst_client;
      src_repo = from.repository;
      dst_repo = to.repository;
      staging_dir = dst_opts.staging_dir;
    }
    mirror_root depth m from.identifier from.pinned to.identifier
