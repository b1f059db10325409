-- ===== src/Ocipush/Push.antt =====
-- ocipush.go: Push sends an OCI image layout from disk.
pub mod Order
use contain.Base.{ℕ, zero, suc, String, ◌<>◌, Bool, true, false, not, Option, none, some}
use contain.Base.{List, [], ◌∷◌, str_eq, ◌==◌, if◌then◌else◌, length, drop_chars}
use contain.Ocipush.World.{Bytes, Descriptor, ManifestDoc, dst, Env, plain, Result, ok, err}
use contain.Ocipush.World.{out_of_fuel, Sys, Exec, pure, raise, ◌>>=◌, ◌>>◌, give, wrapped}
use contain.Ocipush.World.{wrap_err, from_option, guard}
use contain.Ocipush.Client.{RegClient, Options, new_reg_client, open_file, put_manifest}
use contain.Ocipush.Direct.{push_blob_file}
use contain.Ocipush.Digest.{is_digest, blobs_of, media_type_or}

-- A `for` loop whose body returns at the first error.
unfoldable pub each : {A : Type 0} → (A → Exec (Unit {0})) → List A → Exec (Unit {0})
each f [] = pure tt
each f (x ∷ xs) = f x >> each f xs

-- `pusher`
pub record Pusher : Type 0 where
  pub layout : String
  pub repo : String
  pub c : RegClient

unfoldable pub blob_path : Pusher → String → Exec String
unfolding is_digest
blob_path p digest =
    if not (is_digest digest)
    then raise (plain "unsupported digest")
    else pure (p.layout <> "/blobs/sha256/" <> drop_chars 7 digest)

-- A walk of a manifest tree, given the walk of the levels below.
abbrev pub Walk : Type 0
Walk = Bytes → String → String → Exec (Unit {0})

module _ (env : Env) where
  -- `pushManifestDescriptor`
  unfoldable pub push_manifest_descriptor : Walk → Pusher → Descriptor → String → Exec (Unit {0})
  unfolding blob_path open_file
  push_manifest_descriptor below p d ref_or_digest = do
    path ← blob_path p d.digest
    bytes ← wrap_err (wrapped ("read manifest " <> d.digest)) (open_file env path)
    guard (str_eq (env.digest_of bytes) d.digest) (plain ("layout manifest " <> d.digest))
    below bytes d.media_type ref_or_digest

  unfoldable pub push_blob : Pusher → Descriptor → Exec (Unit {0})
  unfolding blob_path
  push_blob p d = do path ← blob_path p d.digest; push_blob_file env p.c p.repo d path

  -- `pushManifestBytes`, with the depth that it may still descend.
  unfoldable pub push_manifest_bytes : ℕ → Pusher → Walk
  unfolding each
  push_manifest_bytes zero p bytes media_type ref_or_digest = give out_of_fuel
  push_manifest_bytes (suc n) p bytes media_type ref_or_digest =
      let below = push_manifest_bytes n p in
      do
        m ← from_option (plain "parse manifest") (env.parse_manifest bytes)
        each (λ child. push_manifest_descriptor below p child child.digest) m.manifests
        each (push_blob p) (blobs_of m)
        put_manifest env p.c p.repo bytes (media_type_or m media_type) ref_or_digest

  -- A single entry is the root; several make the index itself the root.
  unfoldable pub push_roots :
      ℕ → Pusher → Bytes → ManifestDoc → List Descriptor → String → Exec (Unit {0})
  unfolding push_manifest_bytes push_manifest_descriptor
  push_roots depth p bytes index [] identifier = raise (plain "layout index.json has no manifests")
  push_roots depth p bytes index (root ∷ []) identifier =
      push_manifest_descriptor (push_manifest_bytes depth p) p root identifier
  push_roots depth p bytes index (root ∷ next ∷ more) identifier =
      push_manifest_bytes depth p bytes index.media_type identifier

  -- The rest of `Push`, from the parsed `index.json` on.
  unfoldable pub push_root : ℕ → Pusher → Bytes → ManifestDoc → String → Exec (Unit {0})
  unfolding push_roots
  push_root depth p bytes index identifier =
      push_roots depth p bytes index index.manifests identifier

  -- `Push`; `depth` bounds the nesting of the manifests.
  unfoldable pub push_layout : ℕ → String → String → Options → Exec (Unit {0})
  unfolding push_root open_file
  push_layout depth layout_dir image opts = do
    target ← from_option (plain "parse reference") (env.parse_reference image)
    c ← give (new_reg_client dst opts (env.has_credentials dst))
    index_bytes ←
        wrap_err (wrapped "read layout index") (open_file env (layout_dir <> "/index.json"))
    index ← from_option (plain "parse layout index") (env.parse_manifest index_bytes)
    push_root depth (record { layout = layout_dir; repo = target.repository; c = c }) index_bytes
        index target.identifier
