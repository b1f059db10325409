-- ===== src/Multiarch/Index.antt =====
-- index.go and taggableindex.go: the children of a base index that are appended to, and the index
-- that is made of the results.
pub mod Children
use contain.Base.{
  ℕ, suc, String, Bool, true, false, ◌&&◌, ◌||◌, not, Option, none, some, List, [], ◌∷◌, map,
}
use contain.Base.{
  length, if◌then◌else◌, str_eq, Result, ok, err, ◌>>=◌, ◌>>◌, ◌>>>=◌, guard, or_err, Effect, pure,
  lift, then_do,
}
use contain.Images.{ChildDescriptor, Action, put_index, IndexAddendum}
use contain.Multiarch.Match.{Matcher}
use contain.Pushed.{
  Reference, References, Artifact, PushedError, new_index_image, is_attestation, oci_manifest,
  oci_index,
}
use contain.Schema.LocalFile.{Platform}

-- What a registry gives for a reference: a media type, and the content.
pub record Fetched : Type 0 where
  pub media_type : String
  pub content : String

-- `v1.Manifest` of a child, which nothing reads.
pub record ChildManifest : Type 0 where
  pub text : String

-- `TaggableIndex`; the manifest is JSON.
pub record TaggableIndex : Type 0 where
  pub manifest : String
  pub digest : String
  pub media_type : String
  pub size : ℕ

-- A child that is appended to. The digest of `meta` is pending, which is the empty text.
pub record ToAppend : Type 0 where
  pub base : Reference
  pub meta : ChildDescriptor
  pub platform : Platform
  pub base_manifest : ChildManifest

pub record IndexManifests (Index : Type 0) : Type 0 where
  pub base_ref : Reference
  pub to_append : List ToAppend
  pub base_platforms : List String
  pub index_start : Index
  pub prototype : ToAppend

pub data IndexError : Type 0 where
  bad_base no_digest fetching not_an_index no_index no_index_manifest no_match : IndexError
  get_child nested_index parse_child : IndexError
  taggable index_put index_digest : IndexError
  artifact : PushedError → IndexError

-- go-containerregistry, on images and indexes, and the registry it reads.
pub record Indexes (Image Index : Type 0) : Type 0 where
  pub refs : References
  pub with_digest : Reference → String → Reference
  pub get : Reference → Option Fetched
  pub image_index : Fetched → Option Index
  pub index_manifest : Index → Option (String × List ChildDescriptor)
  pub parse_manifest : String → Option ChildManifest
  pub is_index_type : String → Bool
  pub remove_manifests : Index → Index
  pub append_manifests : Index → List (IndexAddendum Image) → Index
  pub marshal : String × List ChildDescriptor → Option String
  pub digest_of : Index → Option String
  pub media_type_of : Index → Option String
  pub size_of : Index → Option ℕ
  pub put : List (Action Image TaggableIndex) → String → TaggableIndex → Bool

module _ {Image Index : Type 0} (lib : Indexes Image Index) where
  -- `getChildManifest`
  unfoldable pub get_child_manifest : Reference → ChildDescriptor → Result IndexError ChildManifest
  get_child_manifest base_ref manifest = do
    current ← or_err (lib.get (lib.with_digest base_ref manifest.digest)) get_child
    guard (not (lib.is_index_type current.media_type)) nested_index
    or_err (lib.parse_manifest current.content) parse_child

  -- `newToAppend`, with the manifest of the child
  abbrev pub new_to_append : Reference → ChildDescriptor → Platform → ChildManifest → ToAppend
  new_to_append base_ref d p manifest = record {
    base = lib.with_digest base_ref d.digest;
    meta = record d { digest = ""; size = 0 };
    platform = p;
    base_manifest = manifest;
  }

  -- Whether the loop does not skip a child with a platform.
  abbrev pub is_usable : Matcher → ChildDescriptor → Platform → Bool
  is_usable matches d p =
      matches (some p) && (str_eq d.media_type oci_manifest && not (is_attestation lib.refs d p))

  -- The loop over the children.
  unfoldable pub select_children :
      Matcher → Reference → List ChildDescriptor → Result IndexError (List ToAppend)
  unfolding get_child_manifest
  select_children matches base_ref [] = ok []
  select_children matches base_ref (d ∷ ds) =
      let rest = select_children matches base_ref ds in
      elim d.platform [
        | none ↦ rest
        | some p ↦
            if is_usable matches d p
            then (get_child_manifest base_ref d >>= λ m.
                rest >>= λ more. ok (new_to_append base_ref d p m ∷ more))
            else rest
      ]

  -- `basePlatforms`
  unfoldable pub declared_platforms : List ChildDescriptor → List String
  declared_platforms [] = []
  declared_platforms (d ∷ ds) =
      let rest = declared_platforms ds in
      elim d.platform [ none ↦ rest | some p ↦ lib.refs.platform_string p ∷ rest ]

  abbrev pub first_of : List ToAppend → Option ToAppend
  first_of [] = none
  first_of (t ∷ ts) = some t

  -- `NewFromMultiArchBase`, with the matcher of the config. The prototype is the first child.
  unfoldable pub new_from_multi_arch_base :
      Matcher → String → Result IndexError (IndexManifests Index)
  unfolding select_children declared_platforms
  new_from_multi_arch_base matches config_base = do
    base_ref ← or_err (lib.refs.parse_reference config_base) bad_base
    guard base_ref.is_digest no_digest
    fetched ← or_err (lib.get base_ref) fetching
    guard (str_eq fetched.media_type oci_index) not_an_index
    base_index ← or_err (lib.image_index fetched) no_index
    manifest ← or_err (lib.index_manifest base_index) no_index_manifest
    to_append ← select_children matches base_ref manifest.1
    prototype ← or_err (first_of to_append) no_match
    ok (record {
      base_ref = base_ref;
      to_append = to_append;
      base_platforms = declared_platforms manifest.1;
      index_start = lib.remove_manifests base_index;
      prototype = prototype;
    })

  -- `MatchedPlatforms` and `SizeAppend`
  unfoldable pub matched_platforms : IndexManifests Index → List Platform
  matched_platforms m = map (λ t. t.platform) m.to_append

  unfoldable pub size_append : IndexManifests Index → ℕ
  size_append m = length m.to_append

  -- `NewTaggableIndex`
  unfoldable pub new_taggable_index : Index → Result IndexError TaggableIndex
  new_taggable_index index = do
    m ← or_err (lib.index_manifest index) taggable
    json ← or_err (lib.marshal m) taggable
    digest ← or_err (lib.digest_of index) taggable
    media_type ← or_err (lib.media_type_of index) taggable
    size ← or_err (lib.size_of index) taggable
    ok (record { manifest = json; digest = digest; media_type = media_type; size = size })

  -- `EachAppend` fails with errors of its own, which `of` takes in.
  module _ {E : Type 0} (of : IndexError → E) where
    abbrev pub in_error : {A : Type 0} → Result IndexError A → Result E A
    in_error (ok a) = ok a
    in_error (err e) = err (of e)

    abbrev pub Method : Type 0 → Type 0
    Method A = Effect (Action Image TaggableIndex) E A

    abbrev pub EachAppend : Type 0
    EachAppend = Reference → String → Platform → Method (IndexAddendum Image)

    -- The loop over the children.
    unfoldable pub append_each :
        EachAppend → String → List ToAppend → Method (List (IndexAddendum Image))
    append_each each tag [] = pure []
    append_each each tag (c ∷ cs) = each c.base tag c.platform >>>= λ added.
        append_each each tag cs >>>= λ more. pure (added ∷ more)

    unfoldable pub put_taggable : String → TaggableIndex → Method (Unit {0})
    put_taggable tag t h = (
      if lib.put h tag t then ok tt else err (of index_put),
      put_index tag t (lib.put h tag t) ∷ h,
    )

    unfoldable pub push_index : Bool → String → Index → Method (Unit {0})
    unfolding new_taggable_index put_taggable
    push_index push tag index =
        if push
        then (lift (in_error (new_taggable_index index)) >>>= λ t. put_taggable tag t)
        else pure tt

    abbrev pub in_artifact : Result PushedError Artifact → Result IndexError Artifact
    in_artifact (ok a) = ok a
    in_artifact (err e) = err (artifact e)

    -- The artifact of the result
    unfoldable pub index_artifact :
        IndexManifests Index → String → Index → Result IndexError Artifact
    index_artifact m tag index = do
      d ← or_err (lib.digest_of index) index_digest
      in_artifact (new_index_image lib.refs tag d (lib.index_manifest index) m.base_ref.text)

    -- `BuildWithAppend`
    unfoldable pub build_with_append :
        IndexManifests Index → EachAppend → String → Bool → Method (Index × Artifact)
    unfolding append_each push_index index_artifact
    build_with_append m each tag push = append_each each tag m.to_append >>>= λ added.
        push_index push tag (lib.append_manifests m.index_start added) >>>= λ _.
        lift (in_error (index_artifact m tag (lib.append_manifests m.index_start added))) >>>= λ a.
        pure (lib.append_manifests m.index_start added, a)
