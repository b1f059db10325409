-- ===== src/Sbom.antt =====
-- wrap_spdx.go: what contain adds to an SPDX document.
pub mod Wrap
pub mod Steps
pub mod Extended
use contain.Base.{
  ℕ, zero, suc, String, ◌<>◌, Bool, true, false, ◌&&◌, ◌||◌, not, Option, none, some, List, [], ◌∷◌,
}
use contain.Base.{if◌then◌else◌, leb, ◌==◌, str_eq, starts_with}
use Prim.Native.Char.{Char, code}

-- A JSON value as `encoding/json` decodes it; a number is left as its text.
mutual
  pub data Json : Type 0 where
    null : Json
    flag : Bool → Json
    number : String → Json
    text : String → Json
    slice : Items → Json
    object : Object → Json

  pub data Items : Type 0 where
    nil : Items
    item : Json → Items → Items

  pub data Object : Type 0 where
    empty : Object
    entry : String → Json → Object → Object

-- `m[key]`, which is nil where there is no entry.
unfoldable pub get : String → Object → Json
get key empty = null
get key (entry k v m) = let rest = get key m in if str_eq k key then v else rest

-- `m[key] = v`
unfoldable pub set : String → Json → Object → Object
set key v empty = entry key v empty
set key v (entry k w m) =
    let rest = set key v m in if str_eq k key then entry k v m else entry k w rest

-- `append`
unfoldable pub append_item : Items → Json → Items
append_item nil v = item v nil
append_item (item w more) v = item w (append_item more v)

abbrev pub items_of : Json → Items
items_of (slice vs) = vs
items_of _ = nil

abbrev pub object_of : Json → Object
object_of (object m) = m
object_of _ = empty

-- `v == s` for a text.
abbrev pub is_text : String → Json → Bool
is_text s (text t) = str_eq t s
is_text s _ = false

unfoldable pub any_item : (Json → Bool) → Items → Bool
any_item p nil = false
any_item p (item v more) = p v || any_item p more

-- `ensureSlice` and `ensureMap`: what is there, and the parent.
unfoldable pub ensure_slice : Object → String → Items × Object
ensure_slice parent key = elim (get key parent) [
  | slice vs ↦ (vs, parent)
  | _ ↦ (nil, set key (slice nil) parent)
]

unfoldable pub ensure_map : Object → String → Object × Object
ensure_map parent key = elim (get key parent) [
  | object m ↦ (m, parent)
  | _ ↦ (empty, set key (object empty) parent)
]

-- `v` is put at the end of the slice at a key, where no item of it passes the test.
unfoldable pub ensure_item : (Json → Bool) → String → Json → Object → Object
unfolding ensure_slice
ensure_item p key v parent =
    let found = ensure_slice parent key in
    if any_item p found.0 then found.1 else set key (slice (append_item found.0 v)) found.1

abbrev pub tool_text : String → String
tool_text version = "Tool: contain-" <> version

-- `ensureCreator`
unfoldable pub ensure_creator : Object → String → Object
unfolding ensure_map ensure_item
ensure_creator doc version =
    let found = ensure_map doc "creationInfo" in
    let want = tool_text version in
    set "creationInfo" (object (ensure_item (is_text want) "creators" (text want) found.0)) found.1

-- `ensureDocumentDescribesJSON`
unfoldable pub ensure_document_describes : Object → String → Object
unfolding ensure_item
ensure_document_describes doc id = ensure_item (is_text id) "documentDescribes" (text id) doc

unfoldable pub is_relationship : String → String → String → Json → Bool
is_relationship from_id to_id rel_type (object m) =
    is_text from_id (get "spdxElementId" m)
    && (is_text to_id (get "relatedSpdxElement" m) && is_text rel_type (get "relationshipType" m))
is_relationship from_id to_id rel_type _ = false

unfoldable pub relationship : String → String → String → Json
relationship from_id to_id rel_type = object (
    entry "spdxElementId" (text from_id)
      (entry "relatedSpdxElement" (text to_id) (entry "relationshipType" (text rel_type) empty)))

-- `ensureRelationshipJSON`
unfoldable pub ensure_relationship : Object → String → String → String → Object
unfolding ensure_item is_relationship relationship
ensure_relationship doc from_id to_id rel_type =
    ensure_item (is_relationship from_id to_id rel_type) "relationships"
      (relationship from_id to_id rel_type) doc

abbrev has_sha256 : Json → Bool
has_sha256 (object m) = is_text "SHA256" (get "algorithm" m)
has_sha256 _ = false

-- `ensureChecksum`
unfoldable pub ensure_checksum : Object → String → Object
ensure_checksum pkg hex =
    if any_item has_sha256 (items_of (get "checksums" pkg))
    then pkg
    else set "checksums"
        (slice (
          append_item (items_of (get "checksums" pkg))
            (object (entry "algorithm" (text "SHA256") (entry "checksumValue" (text hex) empty)))))
        pkg

abbrev is_alnum : ℕ → Bool
is_alnum c =
    (leb b'A' c && leb c b'Z') || ((leb b'a' c && leb c b'z') || (leb b'0' c && leb c b'9'))

-- `nonAlphaNum.ReplaceAllString(name, "-")`; the flag is that a run has begun.
unfoldable pub dashed : Bool → String → String
dashed begun String.[] = ""
dashed begun (String.◌∷◌ c s) =
    let kept = dashed false s in
    let skipped = dashed true s in
    if is_alnum (code c) then String.◌∷◌ c kept else if begun then skipped else "-" <> skipped

abbrev trim_start : String → String
trim_start String.[] = ""
trim_start (String.◌∷◌ c s) =
    let rest = trim_start s in if code c == b'-' then rest else String.◌∷◌ c s

abbrev trim_end : String → String
trim_end String.[] = ""
trim_end (String.◌∷◌ c s) =
    let rest = trim_end s in if code c == b'-' && str_eq rest "" then "" else String.◌∷◌ c rest

-- `makePackageID`
unfoldable pub make_package_id : String → String
unfolding dashed
make_package_id name =
    let cleaned = trim_end (trim_start (dashed false name)) in
    "SPDXRef-Package-" <> (if str_eq cleaned "" then "image" else cleaned)

abbrev drop_chars : ℕ → String → String
drop_chars zero s = s
drop_chars (suc n) String.[] = ""
drop_chars (suc n) (String.◌∷◌ c s) = drop_chars n s

-- `strings.TrimPrefix(name, "/")`
abbrev pub trim_slash : String → String
trim_slash s = if starts_with s "/" then drop_chars 1 s else s

-- `trimSha256Prefix`
unfoldable pub trim_sha256_prefix : String → String
trim_sha256_prefix s = if starts_with s "sha256:" then drop_chars 7 s else s

-- `if checksumHex != ""`
abbrev with_checksum : String → Object → Object
with_checksum hex pkg = if str_eq hex "" then pkg else ensure_checksum pkg hex

abbrev is_container : String → Object → Bool
is_container pkg_name m =
    is_text "CONTAINER" (get "primaryPackagePurpose" m) && is_text pkg_name (get "name" m)

-- The `SPDXID` of a package that is found, which gets one if it has none.
unfoldable pub identified : String → Object → String × Object
unfolding make_package_id
identified pkg_name m = elim (get "SPDXID" m) [
  | text id ↦
      if str_eq id ""
      then (make_package_id pkg_name, set "SPDXID" (text (make_package_id pkg_name)) m)
      else (id, m)
  | _ ↦ (make_package_id pkg_name, set "SPDXID" (text (make_package_id pkg_name)) m)
]

abbrev in_place : Json → Option (String × Items) → Option (String × Items)
in_place v none = none
in_place v (some (id, more)) = some (id, item v more)

abbrev if_container :
    String → String → Json → Items → Option (String × Items) → Option (String × Items)
if_container pkg_name hex (object m) more rest =
    let found = identified pkg_name (with_checksum hex m) in
    if is_container pkg_name m
    then some (found.0, item (object found.1) more)
    else in_place (object m) rest
if_container pkg_name hex v more rest = in_place v rest

-- The loop over the packages.
unfoldable pub find_package : String → String → Items → Option (String × Items)
unfolding identified ensure_checksum
find_package pkg_name hex nil = none
find_package pkg_name hex (item v more) =
    if_container pkg_name hex v more (find_package pkg_name hex more)

unfoldable pub new_package : String → Object
unfolding make_package_id
new_package pkg_name = entry "name" (text pkg_name) (
    entry "SPDXID" (text (make_package_id pkg_name)) (
      entry "primaryPackagePurpose" (text "CONTAINER") (
        entry "downloadLocation" (text "NOASSERTION") (
          entry "filesAnalyzed" (flag false) (
            entry "homepage" (text "NOASSERTION")
              (entry "licenseDeclared" (text "NOASSERTION") empty))))))

-- The packages with the one that was found, or with a new one at their end.
abbrev pub with_package :
    String → String → Items × Object → Option (String × Items) → String × Object
with_package pkg_name hex (pkgs, doc) (some (id, found)) = (id, set "packages" (slice found) doc)
with_package pkg_name hex (pkgs, doc) none = (
  make_package_id pkg_name,
  set "packages" (slice (append_item pkgs (object (with_checksum hex (new_package pkg_name))))) doc,
)

-- `ensureContainerPackageJSON`
unfoldable pub ensure_container_package : Object → String → String → String × Object
unfolding find_package new_package ensure_slice
ensure_container_package doc name hex =
    let pkg_name = trim_slash name in
    let pkgs = ensure_slice doc "packages" in
    with_package pkg_name hex pkgs (find_package pkg_name hex pkgs.0)
