-- ===== src/Pushed.antt =====
-- pkg/pushed: what a build reports about the image that it made.
pub mod Restored
use contain.Base.{
  ℕ, String, ◌<>◌, Bool, true, false, ◌&&◌, ◌||◌, not, Option, none, some, List, [], ◌∷◌, map,
}
use contain.Base.{if◌then◌else◌, ◌==◌, str_eq, lookup, Result, ok, err, ◌>>=◌, ◌>>◌, guard, or_err}
use Prim.Native.Char.{code}
use contain.Images.{ChildDescriptor}
use contain.Schema.LocalFile.{Platform}

-- `name.Reference`: its text, and whether it is a `name.Digest`.
pub record Reference : Type 0 where
  pub text : String
  pub is_digest : Bool

-- Parsers of other libraries: `reference.Parse`, with the `Name` and the `String` of its result,
-- `name.ParseReference`, `v1.NewHash` with the `String` of its result, and `v1.Platform.String`.
pub record References : Type 0 where
  pub parse_named : String → Option (String × String)
  pub parse_reference : String → Option Reference
  pub new_hash : String → Option String
  pub platform_string : Platform → String

-- Where an image was written locally.
pub record ArtifactOutput : Type 0 where
  pub path : String
  pub format : String

-- A hash is its text; the zero hash is the empty text.
pub record Artifact : Type 0 where
  pub image_name : String
  pub tag_ref : String
  pub media_type : String
  pub platforms : List Platform
  pub base_ref : String
  pub output : Option ArtifactOutput
  pub reference : Option Reference
  pub hash : String
  pub config_hash : String

-- `no_manifest` is the dereference of the nil manifest that a failed read has left.
pub data PushedError : Type 0 where
  base_ref_required bad_tag bad_reference no_manifest : PushedError

abbrev pub oci_manifest : String
oci_manifest = "application/vnd.oci.image.manifest.v1+json"

abbrev pub oci_index : String
oci_index = "application/vnd.oci.image.index.v1+json"

abbrev annotation : String → List (String × String) → String
annotation k m = elim (lookup k m) [ none ↦ "" | some v ↦ v ]

-- `MetadataSimilarToBuildctlFile` with its descriptor and platform.
pub record BuildctlMetadata : Type 0 where
  pub config_digest : String
  pub digest : String
  pub image_name : String
  pub media_type : String
  pub architecture : String
  pub os : String

-- `BuildOutput`, without the trace and the Turborepo metadata
pub record BuildOutput : Type 0 where
  pub builds : List Artifact
  pub buildctl : BuildctlMetadata

-- `isIndexMediaType`
unfoldable pub is_index_media_type : String → Bool
is_index_media_type mt =
    str_eq mt oci_index || str_eq mt "application/vnd.docker.distribution.manifest.list.v2+json"

-- The platform of an artifact that is a single image: architecture and operating system.
abbrev single_platform : Artifact → String × String
single_platform a = elim a.platforms [
  | [] ↦ ("", "")
  | p ∷ _ ↦ if is_index_media_type a.media_type then ("", "") else (p.architecture, p.os)
]

-- `NewBuildOutput`, of an artifact that is not nil
unfoldable pub new_build_output : String → Artifact → BuildOutput
unfolding is_index_media_type
new_build_output tag a = record {
  builds = a ∷ [];
  buildctl = record {
    config_digest = a.config_hash;
    digest = a.hash;
    image_name = tag;
    media_type = a.media_type;
    architecture = (single_platform a).0;
    os = (single_platform a).1;
  };
}

-- The text around the last `@`.
unfoldable pub last_at : String → Option (String × String)
last_at String.[] = none
last_at (String.◌∷◌ c s) = elim (last_at s) [
  | some (b, d) ↦ some (String.◌∷◌ c b, d)
  | none ↦ if code c == b'@' then some ("", s) else none
]

-- `strings.Split(s, "/")`: the first part, and the others.
unfoldable pub split_slash : String → String × List String
split_slash String.[] = ("", [])
split_slash (String.◌∷◌ c s) =
    let (w, ws) = split_slash s in if code c == b'/' then ("", w ∷ ws) else (String.◌∷◌ c w, ws)

abbrev pub of_parts : String × List String → Platform
of_parts (os, []) = record { os = os; architecture = ""; variant = ""; others = "" }
of_parts (os, arch ∷ []) = record { os = os; architecture = arch; variant = ""; others = "" }
of_parts (os, arch ∷ variant ∷ _) = record {
  os = os;
  architecture = arch;
  variant = variant;
  others = "";
}

-- `parsePlatformString`
unfoldable pub parse_platform_string : String → Platform
unfolding split_slash
parse_platform_string s = of_parts (split_slash s)

-- `platformsFromStrings`
unfoldable pub platforms_from_strings : List String → List Platform
platforms_from_strings names = map parse_platform_string names

-- `artifactJSON`: the fields that JSON keeps, with the platforms as texts.
pub record ArtifactJson : Type 0 where
  pub image_name : String
  pub tag : String
  pub media_type : String
  pub platforms : List String
  pub base : String
  pub output : Option ArtifactOutput

-- encoding/json on those fields, with any type of encoded texts
pub record Codec (Text : Type 0) : Type 0 where
  pub encode : ArtifactJson → Text
  pub decode : Text → Option ArtifactJson

module _ (refs : References) where
  -- Whether a child of an index says that it is an attestation of another one.
  unfoldable pub is_attestation : ChildDescriptor → Platform → Bool
  is_attestation d p = elim d.annotations [
    | none ↦ false
    | some annotations ↦
        str_eq (refs.platform_string p) "unknown/unknown"
        && str_eq (annotation "vnd.docker.reference.type" annotations) "attestation-manifest"
  ]

  -- `platformsFromIndexManifest`
  unfoldable pub platforms_from_index_manifest : List ChildDescriptor → List Platform
  platforms_from_index_manifest [] = []
  platforms_from_index_manifest (d ∷ ds) =
      let rest = platforms_from_index_manifest ds in
      elim d.platform [
        | none ↦ rest
        | some p ↦
            if not (str_eq d.media_type oci_manifest) || is_attestation d p then rest else p ∷ rest
      ]

  -- `newRef`
  unfoldable pub new_ref : String → String → Result PushedError Artifact
  new_ref tag_ref hash = do
    named ← or_err (refs.parse_named (tag_ref <> ("@" <> hash))) bad_tag
    r ← or_err (refs.parse_reference tag_ref) bad_reference
    ok (record {
      image_name = named.0;
      tag_ref = named.1;
      media_type = "";
      platforms = [];
      base_ref = "";
      output = none;
      reference = some r;
      hash = hash;
      config_hash = "";
    })

  -- `NewSingleImage`: the config name and the media type of the image, where they can be read.
  unfoldable pub new_single_image :
      String
      → String
      → Option String
      → Option String
      → Platform
      → String
      → Result PushedError Artifact
  unfolding new_ref
  new_single_image tag_ref digest config_name media_type platform base_ref = do
    guard (not (str_eq base_ref "")) base_ref_required
    a ← new_ref tag_ref digest
    mt ← or_err media_type no_manifest
    ok (record a {
      config_hash = elim config_name [ none ↦ "" | some h ↦ h ];
      media_type = mt;
      platforms = platform ∷ [];
      base_ref = base_ref;
    })

  -- `NewIndexImage`: the media type and the children of the index, where they can be read.
  unfoldable pub new_index_image :
      String
      → String
      → Option (String × List ChildDescriptor)
      → String
      → Result PushedError Artifact
  unfolding new_ref platforms_from_index_manifest
  new_index_image tag_ref digest manifest base_ref = do
    guard (not (str_eq base_ref "")) base_ref_required
    a ← new_ref tag_ref digest
    m ← or_err manifest no_manifest
    ok (record a {
      media_type = m.0;
      platforms = platforms_from_index_manifest m.1;
      base_ref = base_ref;
    })

  -- `MarshalJSON`
  unfoldable pub marshal_json : {Text : Type 0} → Codec Text → Artifact → Text
  marshal_json codec a = codec.encode (record {
    image_name = a.image_name;
    tag = a.tag_ref;
    media_type = a.media_type;
    platforms = map refs.platform_string a.platforms;
    base = a.base_ref;
    output = a.output;
  })

  abbrev pub parts_of : String → String × String
  parts_of tag_ref = elim (last_at tag_ref) [ none ↦ (tag_ref, "") | some parts ↦ parts ]

  abbrev pub hash_of : String → String
  hash_of s = if str_eq s "" then "" else elim (refs.new_hash s) [ none ↦ "" | some h ↦ h ]

  -- What `UnmarshalJSON` makes of the decoded fields.
  unfoldable pub of_json : ArtifactJson → Artifact
  unfolding platforms_from_strings last_at
  of_json aux = record {
    image_name = aux.image_name;
    tag_ref = aux.tag;
    media_type = aux.media_type;
    platforms = platforms_from_strings aux.platforms;
    base_ref = aux.base;
    output = aux.output;
    reference = refs.parse_reference (parts_of aux.tag).0;
    hash = hash_of (parts_of aux.tag).1;
    config_hash = "";
  }

  -- `UnmarshalJSON`, into a zero artifact; none is an error.
  unfoldable pub unmarshal_json : {Text : Type 0} → Codec Text → Text → Option Artifact
  unfolding of_json
  unmarshal_json codec json = elim (codec.decode json) [
    | none ↦ none
    | some aux ↦ some (of_json aux)
  ]
