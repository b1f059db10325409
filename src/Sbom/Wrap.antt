-- ===== src/Sbom/Wrap.antt =====
-- wrap_spdx.go: WrapSPDX, with the search for the base in the registry.
use contain.Base.{
  String, ◌<>◌, Bool, true, false, ◌&&◌, ◌||◌, not, Option, none, some, List, [], ◌∷◌,
}
use contain.Base.{
  if◌then◌else◌, ◌==◌, str_eq, starts_with, lookup, Result, ok, ◌>>=◌, ◌>>◌, guard, or_err,
}
use Prim.Native.Char.{code}
use contain.Pushed.{Artifact, last_at, split_slash}
use contain.Sbom.{
  text, Items, nil, item, Object, get, items_of, ensure_creator, ensure_document_describes,
  ensure_relationship, ensure_container_package, trim_slash, trim_sha256_prefix,
}

-- go-containerregistry and net: references by digest, what a registry answers for them, and IP
-- addresses, of which it is told whether they are of the loopback.
pub record Remote (Digest : Type 0) : Type 0 where
  pub new_digest : Bool → String → Option Digest
  pub context_name : Digest → String
  pub registry_str : Digest → String
  pub head : Digest → Option String
  pub index_manifests : Digest → Option (List (String × String))
  pub image_annotations : Digest → Option (List (String × String))
  pub is_index : String → Bool
  pub is_image : String → Bool
  pub parse_ip : String → Option Bool

-- The text before the first `:`.
unfoldable pub before_colon : String → Option String
before_colon String.[] = none
before_colon (String.◌∷◌ c s) =
    let rest = before_colon s in
    if code c == b':' then some "" else elim rest [ none ↦ none | some b ↦ some (String.◌∷◌ c b) ]

-- `hostFromRef`
unfoldable pub host_from_ref : String → String
host_from_ref ref =
    let (first, others) = split_slash ref in
    elim others [ [] ↦ ref | _ ∷ _ ↦ if str_eq first "" then ref else first ]

abbrev value_at : String → List (String × String) → String
value_at k a = elim (lookup k a) [ none ↦ "" | some v ↦ v ]

-- `baseFromAnnotations`
unfoldable pub base_from_annotations : List (String × String) → String × String
base_from_annotations a = (
  trim_slash (value_at "org.opencontainers.image.base.name" a),
  trim_sha256_prefix (value_at "org.opencontainers.image.base.digest" a),
)

abbrev pub no_base : String × String
no_base = ("", "")

module _ {Digest : Type 0} (remote : Remote Digest) where
  -- `isLocalhost`
  unfoldable pub is_localhost : String → Bool
  unfolding before_colon
  is_localhost host =
      if str_eq host "localhost" || starts_with host "localhost:"
      then true
      else elim (remote.parse_ip host) [
        | some loopback ↦ loopback
        | none ↦ elim (before_colon host) [
          | none ↦ false
          | some h ↦ elim (remote.parse_ip h) [ some loopback ↦ loopback | none ↦ false ]
        ]
      ]

  abbrev pub annotated_base : Option (List (String × String)) → String × String
  annotated_base none = no_base
  annotated_base (some a) = base_from_annotations a

  -- The reference of a child, which is taken as insecure on a local registry; a failure of that second
  -- parse, which the source does not look at, is taken as the failure of the first.
  abbrev pub child_ref : Digest → String → Option Digest
  child_ref d digest =
      let ref = remote.context_name d <> ("@" <> digest) in
      elim (remote.new_digest false ref) [
        | none ↦ none
        | some c ↦
            if is_localhost (remote.registry_str d) then remote.new_digest true ref else some c
      ]

  abbrev child_base : Digest → String → String × String
  child_base d digest = elim (child_ref d digest) [
    | none ↦ no_base
    | some c ↦ annotated_base (remote.image_annotations c)
  ]

  -- The loop over the children of an index.
  unfoldable pub first_base : Digest → List (String × String) → String × String
  unfolding is_localhost base_from_annotations
  first_base d [] = no_base
  first_base d ((media_type, digest) ∷ ms) =
      let rest = first_base d ms in
      let found = child_base d digest in
      if remote.is_image media_type && not (str_eq found.0 "" && str_eq found.1 "")
      then found
      else rest

  abbrev resolved : String → Option Digest
  resolved tag_ref = elim (remote.new_digest false tag_ref) [
    | some d ↦ some d
    | none ↦ if is_localhost (host_from_ref tag_ref) then remote.new_digest true tag_ref else none
  ]

  abbrev base_of_kind : Digest → String → String × String
  base_of_kind d media_type =
      if remote.is_index media_type
      then elim (remote.index_manifests d) [ none ↦ no_base | some ms ↦ first_base d ms ]
      else if remote.is_image media_type
      then annotated_base (remote.image_annotations d)
      else no_base

  -- `discoverBaseFromImage`
  unfoldable pub discover_base_from_image : String → String × String
  unfolding first_base host_from_ref is_localhost base_from_annotations
  discover_base_from_image tag_ref = elim (resolved tag_ref) [
    | none ↦ no_base
    | some d ↦ elim (remote.head d) [ none ↦ no_base | some media_type ↦ base_of_kind d media_type ]
  ]

-- The first of the builds in a file of build results.
pub record FirstBuild : Type 0 where
  pub image_name : String
  pub tag_ref : String
  pub tag : String

pub data SbomError : Type 0 where
  no_document no_write : SbomError

-- What `WrapSPDX` runs against: the files, `v1.NewHash` as an algorithm and a hex, and the two
-- environment variables.
pub record Files : Type 0 where
  pub read_document : String → Option Object
  pub read_builds : String → Option FirstBuild
  pub write_document : String → Object → Bool
  pub new_hash : String → Option (String × String)
  pub env_base_name : String
  pub env_base_digest : String

unfoldable pub texts_of : Items → List String
texts_of nil = []
texts_of (item (text s) more) = s ∷ texts_of more
texts_of (item _ more) = texts_of more

-- The result that was pushed: its name, and its reference with a tag and a digest.
abbrev pub built_from : FirstBuild → String × String
built_from b = (b.image_name, if str_eq b.tag_ref "" then b.tag else b.tag_ref)

abbrev pub from_artifact : Option Artifact → String × String
from_artifact none = ("", "")
from_artifact (some a) = if str_eq a.tag_ref "" then ("", "") else (a.image_name, a.tag_ref)

-- The relationships of the result with what the document described before.
unfoldable pub relate_described : String → List String → Object → Object
relate_described id [] doc = doc
relate_described id (app ∷ apps) doc =
    let related =
      ensure_relationship (ensure_relationship doc id app "DEPENDS_ON") app id "DEPENDENCY_OF" in
    relate_described id apps (if str_eq app "" || str_eq app id then doc else related)

-- The identifier of a package, where there is one.
abbrev pub Added : Type 0
Added = Option String × Object

-- The package of the result, which the document describes.
abbrev pub described_result : String → Object → Added
described_result pkg_name doc =
    let before = texts_of (items_of (get "documentDescribes" doc)) in
    let r = ensure_container_package doc pkg_name "" in
    (some r.0, relate_described r.0 before (ensure_document_describes r.1 r.0))

unfoldable pub add_result : String → Option (String × String) → Object → Added
unfolding relate_described
add_result name none doc = (none, doc)
add_result name (some (algorithm, hex)) doc =
    if not (str_eq name "") && (str_eq algorithm "sha256" && not (str_eq hex ""))
    then described_result (name <> ("@" <> (algorithm <> (":" <> hex)))) doc
    else (none, doc)

unfoldable pub add_base : String → String → Object → Added
add_base name hex doc =
    let r = ensure_container_package doc name hex in
    if str_eq name "" then (none, doc) else (some r.0, r.1)

-- The relationships of the result with its base
unfoldable pub relate_base : Option String → Option String → Object → Object
relate_base none base doc = doc
relate_base (some id) none doc = doc
relate_base (some id) (some base) doc =
    ensure_relationship
      (ensure_relationship (ensure_relationship doc id base "DESCENDANT_OF") id base "DEPENDS_ON")
      base id "DEPENDENCY_OF"

module _ {Digest : Type 0} (remote : Remote Digest) (files : Files) where
  unfoldable pub result_of : String → Option Artifact → String × String
  result_of builds_path artifact =
      let given = from_artifact artifact in
      if str_eq given.1 "" && not (str_eq builds_path "")
      then elim (files.read_builds builds_path) [ none ↦ given | some b ↦ built_from b ]
      else given

  abbrev pub digest_of : String → Option (String × String)
  digest_of tag_ref = elim (last_at tag_ref) [ none ↦ none | some (b, d) ↦ files.new_hash d ]

  abbrev pub split_base : String → String × String
  split_base base_ref = elim (last_at base_ref) [
    | none ↦ (trim_slash base_ref, "")
    | some (b, d) ↦ (trim_slash b, trim_sha256_prefix d)
  ]

  abbrev pub base_ref_of : Option Artifact → String
  base_ref_of none = ""
  base_ref_of (some a) = a.base_ref

  abbrev known_base : Option Artifact → String → String × String
  known_base artifact tag_ref =
      if not (str_eq (base_ref_of artifact) "")
      then split_base (base_ref_of artifact)
      else if not (str_eq tag_ref "")
      then discover_base_from_image remote tag_ref
      else no_base

  -- The name and the digest of the base, where the environment may override either.
  unfoldable pub base_of : Option Artifact → String → String × String
  base_of artifact tag_ref =
      let known = known_base artifact tag_ref in
      (
        if str_eq files.env_base_name "" then known.0 else files.env_base_name,
        if str_eq files.env_base_digest ""
            then known.1
            else trim_sha256_prefix files.env_base_digest,
      )

  -- The document with its creator and, where one was found, the result.
  unfoldable pub with_result : String → Option Artifact → String → Object → Added
  unfolding result_of add_result
  with_result builds_path artifact tool_version doc =
      let result = result_of builds_path artifact in
      add_result result.0 (digest_of result.1) (ensure_creator doc tool_version)

  -- The same with the base, where one was found.
  unfoldable pub with_base : String → Option Artifact → Object → Added
  unfolding result_of base_of add_base
  with_base builds_path artifact doc =
      let base = base_of artifact (result_of builds_path artifact).1 in add_base base.0 base.1 doc

  -- The document that is written.
  unfoldable pub wrapped : String → Option Artifact → String → Object → Object
  unfolding with_result with_base relate_base
  wrapped builds_path artifact tool_version doc =
      let result = with_result builds_path artifact tool_version doc in
      let base = with_base builds_path artifact result.1 in relate_base result.0 base.0 base.1

  -- `WrapSPDX`: the file and the document that it has written.
  unfoldable pub wrap_spdx :
      String → String → String → Option Artifact → String → Result SbomError (String × Object)
  unfolding wrapped
  wrap_spdx builds_path in_file out_file artifact tool_version = do
    doc ← or_err (files.read_document in_file) no_document
    let target = if str_eq out_file "" then in_file else out_file
    let document = wrapped builds_path artifact tool_version doc
    guard (files.write_document target document) no_write
    ok (target, document)
