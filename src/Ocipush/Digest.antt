-- ===== src/Ocipush/Digest.antt =====
-- The digest grammar of ocipush.go and the comparison of digests in mirror.go and proxy.go.
use contain.Base.{ℕ, ◌+◌, String, Bool, false, ◌&&◌, ◌||◌, List, [], ◌∷◌, map}
use contain.Base.{leb, ◌==◌, if◌then◌else◌, length, all, codes, codes_eq}
use contain.Base.{Option, none, some}
use contain.Ocipush.World.{Descriptor, ManifestDoc}
use contain.Base.{str_eq}

-- `[a-f0-9]`
unfoldable pub is_hex : ℕ → Bool
is_hex c = (leb b'a' c && leb c b'f') || (leb b'0' c && leb c b'9')

-- A text that starts with one list of characters, and what follows it.
unfoldable pub after_prefix : List ℕ → List ℕ → Option (List ℕ)
after_prefix [] s = some s
after_prefix (p ∷ ps) [] = none
after_prefix (p ∷ ps) (c ∷ s) = let rest = after_prefix ps s in if p == c then rest else none

-- `digestRe`: `^sha256:[a-f0-9]{64}$`
unfoldable pub is_digest : String → Bool
unfolding is_hex after_prefix
is_digest digest = elim (after_prefix (codes "sha256:") (codes digest)) [
  | none ↦ false
  | some hex ↦ length hex == 64 && all is_hex hex
]

to_lower : ℕ → ℕ
to_lower c = if leb b'A' c && leb c b'Z' then c + 32 else c

-- `strings.EqualFold`, on ASCII
unfoldable pub equal_fold : String → String → Bool
unfolding to_lower
equal_fold s t = codes_eq (map to_lower (codes s)) (map to_lower (codes t))

-- `manifestDoc.blobs`: the config, then the layers
unfoldable pub blobs_of : ManifestDoc → List Descriptor
blobs_of doc = elim doc.config [ none ↦ doc.layers | some c ↦ c ∷ doc.layers ]

abbrev media_type_image_manifest : String
media_type_image_manifest = "application/vnd.oci.image.manifest.v1+json"

-- `manifestDoc.mediaTypeOr`
unfoldable pub media_type_or : ManifestDoc → String → String
media_type_or doc explicit =
    if str_eq explicit ""
    then (if str_eq doc.media_type "" then media_type_image_manifest else doc.media_type)
    else explicit
