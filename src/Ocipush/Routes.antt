-- ===== src/Ocipush/Routes.antt =====
-- proxy.go: the grammars of the proxy's path elements, and where ServeHTTP sends a request.
pub mod Safe
use Prim.Native.Char.{code}
use contain.Base.{
  ℕ, ◌+◌, ◌≡◌, refl, String, ◌<>◌, Bool, true, false, ◌&&◌, ◌||◌, not, List, [], ◌∷◌,
}
use contain.Base.{leb, ◌==◌, if◌then◌else◌, Option, none, some, length, all, codes, str_eq}
use contain.Base.{&&_both, &&_parts, Bool-cases, arith}
use mathlib.Core.List.{reverse}
use contain.Ocipush.World.{Method, get, head, post, put}
use contain.Ocipush.Digest.{is_hex}

-- `[a-z0-9]`
unfoldable pub is_alnum : ℕ → Bool
is_alnum c = (leb b'a' c && leb c b'z') || (leb b'0' c && leb c b'9')

-- The states of the matcher of `proxyNameRe`: at the start of a path component, in a run of letters
-- and digits, after one of the separators, and past any match.
pub data NameState : Type 0 where
  start run dot low low_low dash dead : NameState

unfoldable pub name_step : NameState → ℕ → NameState
unfolding is_alnum
name_step start c = if is_alnum c then run else dead
name_step run c =
    if is_alnum c
    then run
    else if c == b'.'
    then dot
    else if c == b'_'
    then low
    else if c == b'-'
    then dash
    else if c == b'/'
    then start
    else dead
name_step dot c = if is_alnum c then run else dead
name_step low c = if is_alnum c then run else if c == b'_' then low_low else dead
name_step low_low c = if is_alnum c then run else dead
name_step dash c = if is_alnum c then run else if c == b'-' then dash else dead
name_step dead c = dead

abbrev is_run : NameState → Bool
is_run run = true
is_run _ = false

unfoldable pub name_from : NameState → String → Bool
name_from q String.[] = is_run q
name_from q (String.◌∷◌ c s) = name_from (name_step q (code c)) s

-- `proxyNameRe.MatchString`
unfoldable pub is_name : String → Bool
is_name = name_from start

is_word : ℕ → Bool
unfolding is_alnum
is_word c = is_alnum c || ((leb b'A' c && leb c b'Z') || c == b'_')

-- `[a-zA-Z0-9_][a-zA-Z0-9._-]{0,127}`
unfoldable pub is_tag : List ℕ → Bool
unfolding is_word
is_tag [] = false
is_tag (c ∷ s) =
    is_word c && (leb (length s) 127 && all (λ b. is_word b || (b == b'.' || b == b'-')) s)

-- The matcher of `[a-z0-9]+([.+_-][a-z0-9]+)*:[a-zA-Z0-9=_-]+`.
pub data DigestState : Type 0 where
  begin algorithm separator colon encoded broken : DigestState

unfoldable pub digest_step : DigestState → ℕ → DigestState
unfolding is_alnum is_word
digest_step begin c = if is_alnum c then algorithm else broken
digest_step algorithm c =
    if is_alnum c
    then algorithm
    else if c == b':'
    then colon
    else if c == b'.' || (c == b'+' || (c == b'_' || c == b'-'))
    then separator
    else broken
digest_step separator c = if is_alnum c then algorithm else broken
digest_step colon c = if is_word c || (c == b'=' || c == b'-') then encoded else broken
digest_step encoded c = if is_word c || (c == b'=' || c == b'-') then encoded else broken
digest_step broken c = broken

abbrev is_encoded : DigestState → Bool
is_encoded encoded = true
is_encoded _ = false

unfoldable pub any_digest_from : DigestState → List ℕ → Bool
any_digest_from q [] = is_encoded q
any_digest_from q (c ∷ s) = any_digest_from (digest_step q c) s

-- `proxyRefRe.MatchString`
unfoldable pub is_ref : String → Bool
unfolding is_tag any_digest_from
is_ref s = is_tag (codes s) || any_digest_from begin (codes s)

-- `proxyUploadIDRe.MatchString`
unfoldable pub is_upload_id : String → Bool
unfolding is_hex
is_upload_id id = length (codes id) == 32 && all is_hex (codes id)

-- What is read upstream below a repository.
pub data Tail : Type 0 where
  manifests_tail : String → Tail
  blobs_tail : String → Tail
  tags_list : Tail

-- Where ServeHTTP sends a request: an error with its status and code, the version check, or one of
-- the handlers with its arguments.
pub data Route : Type 0 where
  refuse : ℕ → String → Route
  version : Route
  to_forward : String → Tail → Route
  to_manifest_put : String → String → Route
  to_upload_start : String → Route
  to_upload_continue : String → String → Route

-- The first segment of a path, and the others.
unfoldable pub split_path : String → String × List String
split_path String.[] = ("", [])
split_path (String.◌∷◌ c s) =
    let (w, ws) = split_path s in if code c == b'/' then ("", w ∷ ws) else (String.◌∷◌ c w, ws)

drop_empty : List String → List String
drop_empty [] = []
drop_empty (w ∷ ws) = let rest = drop_empty ws in if str_eq w "" then rest else w ∷ rest

-- `strings.FieldsFunc` on `/`
unfoldable pub path_fields : String → List String
unfolding split_path drop_empty
path_fields path = let (w, ws) = split_path path in drop_empty (w ∷ ws)

-- `strings.Join(segments, "/")`
unfoldable pub join : List String → String
join [] = ""
join (w ∷ []) = w
join (w ∷ v ∷ ws) = w <> ("/" <> join (v ∷ ws))

-- `repoOr400`
unfoldable pub repo_or_400 : List String → (String → Route) → Route
unfolding is_name join
repo_or_400 segments k =
    let repo = join segments in if is_name repo then k repo else refuse 400 "NAME_INVALID"

-- `pathPartOr400`
unfoldable pub path_part_or_400 : Bool → String → Route → Route
path_part_or_400 fits code k = if fits then k else refuse 400 code

abbrev pub manifest_route : Method → String → String → Route
manifest_route get repo ref = to_forward repo (manifests_tail ref)
manifest_route head repo ref = to_forward repo (manifests_tail ref)
manifest_route put repo ref = to_manifest_put repo ref
manifest_route _ repo ref = refuse 405 "UNSUPPORTED"

abbrev upload_start_route : Method → String → Route
upload_start_route post repo = to_upload_start repo
upload_start_route _ repo = refuse 405 "UNSUPPORTED"

abbrev blob_route : Method → String → String → Route
blob_route get repo digest = to_forward repo (blobs_tail digest)
blob_route head repo digest = to_forward repo (blobs_tail digest)
blob_route _ repo digest = refuse 405 "UNSUPPORTED"

-- Whether the segments, last first, end in `blobs` with one more before it.
abbrev below_blobs : List String → Bool
below_blobs (w ∷ v ∷ ws) = str_eq w "blobs"
below_blobs _ = false

-- The routes, with the segments after `v2` given last first.
unfoldable pub by_end : Method → List String → Route
unfolding repo_or_400 path_part_or_400 is_ref is_upload_id
by_end method [] = version
by_end method (last ∷ before ∷ x ∷ names) =
    if str_eq before "manifests"
    then repo_or_400 (reverse (x ∷ names)) (λ repo.
      path_part_or_400 (is_ref last) "MANIFEST_INVALID" (manifest_route method repo last))
    else if str_eq before "blobs" && str_eq last "uploads"
    then repo_or_400 (reverse (x ∷ names)) (upload_start_route method)
    else if below_blobs (x ∷ names) && str_eq before "uploads"
    then repo_or_400 (reverse names) (λ repo.
      path_part_or_400 (is_upload_id last) "BLOB_UPLOAD_INVALID" (to_upload_continue repo last))
    else if str_eq before "blobs"
    then repo_or_400 (reverse (x ∷ names))
        (λ repo. path_part_or_400 (is_ref last) "DIGEST_INVALID" (blob_route method repo last))
    else if str_eq before "tags" && str_eq last "list"
    then repo_or_400 (reverse (x ∷ names)) (λ repo. to_forward repo tags_list)
    else refuse 404 "UNSUPPORTED"
by_end method _ = refuse 404 "UNSUPPORTED"

unfoldable below_v2 : Method → List String → Route
unfolding by_end
below_v2 method [] = refuse 404 "UNSUPPORTED"
below_v2 method (w ∷ rest) =
    if str_eq w "v2" then by_end method (reverse rest) else refuse 404 "UNSUPPORTED"

-- `ServeHTTP`, up to the call of a handler
unfoldable pub route : Method → String → Route
unfolding below_v2 path_fields
route method path = below_v2 method (path_fields path)
