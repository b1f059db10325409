-- ===== src/Ocipush/Routes/Safe.antt =====
-- The guards of the proxy on path elements (proxy.go).
use Prim.Native.Char.{code}
use mathlib.Core.Path.{subst}
use contain.Base.{ℕ, ◌≡◌, refl, String, Bool, true, false, ◌&&◌, List, [], ◌∷◌}
use contain.Base.{◌==◌, if◌then◌else◌, all, &&_both, Bool-cases, arith, str_eq}
use contain.Base.{inl, inr}
use mathlib.Core.List.{reverse}
use contain.Ocipush.World.{Method, get, head, post, put, patch, delete, other}
use contain.Ocipush.Routes.{
  is_alnum, NameState, start, run, dot, low, low_low, dash, dead, name_step,
}
use contain.Ocipush.Routes.{name_from, is_name, Route, refuse, version, to_forward, to_manifest_put}
use contain.Ocipush.Routes.{
  to_upload_start, to_upload_continue, split_path, repo_or_400, path_part_or_400,
}
use contain.Ocipush.Routes.{
  by_end, below_v2, route, Tail, manifests_tail, blobs_tail, tags_list, is_ref,
}
use contain.Ocipush.Routes.{
  is_upload_id, manifest_route, blob_route, upload_start_route, join, path_fields,
}
use contain.Ocipush.Routes.{below_blobs}

-- A path segment that starts with a letter or a digit: neither empty, nor `.`, nor `..`.
unfoldable is_plain : String → Bool
unfolding is_alnum
is_plain String.[] = false
is_plain (String.◌∷◌ c s) = is_alnum (code c)

-- Every segment of a path is plain.
unfoldable is_clean : String → Bool
unfolding is_plain split_path
is_clean path = let (w, ws) = split_path path in is_plain w && all is_plain ws

abbrev is_start : NameState → Bool
is_start start = true
is_start _ = false

-- The rest of a name after a prefix: its later segments are plain, and the first one is, where the
-- prefix ends in a slash.
abbrev Rest : NameState → String → Type 0
Rest q s =
    (all is_plain (split_path s).1 ≡ true) × (is_start q ≡ true → is_plain (split_path s).0 ≡ true)

dead-rejects : (s : String) → name_from dead s ≡ false
unfolding name_from name_step
dead-rejects String.[] = refl
dead-rejects (String.◌∷◌ c s) = dead-rejects s

is_dead : NameState → Bool
is_dead dead = true
is_dead _ = false

dead_lem : (q : NameState) → is_dead q ≡ true → q ≡ dead
unfolding is_dead
dead_lem dead h = refl
dead_lem start h = absurd (cc)
dead_lem run h = absurd (cc)
dead_lem dot h = absurd (cc)
dead_lem low h = absurd (cc)
dead_lem low_low h = absurd (cc)
dead_lem dash h = absurd (cc)

alive : (q : NameState) (s : String) → name_from q s ≡ true → is_dead q ≡ false
alive q s h = elim (Bool-cases (is_dead q)) [
  | inl e ↦ absurd (let d = dead_lem q e in let r = dead-rejects s in cc)
  | inr e ↦ e
]

-- Only a run of letters and digits may come before a slash, and the next segment starts after it.
slash_step :
    (q : NameState) (c : ℕ)
    → (c == b'/') ≡ true
    → is_dead (name_step q c) ≡ false
    → (is_start q ≡ false) × (is_start (name_step q c) ≡ true)
unfolding is_dead name_step is_alnum
slash_step start c e h = ground arith
slash_step run c e h = ground arith
slash_step dot c e h = ground arith
slash_step low c e h = ground arith
slash_step low_low c e h = ground arith
slash_step dash c e h = ground arith
slash_step dead c e h = ground arith

start_step : (c : ℕ) → is_dead (name_step start c) ≡ false → is_alnum c ≡ true
unfolding is_dead name_step
start_step c h = ground arith

start_lem : (q : NameState) → is_start q ≡ true → q ≡ start
start_lem start h = refl
start_lem run h = absurd (cc)
start_lem dot h = absurd (cc)
start_lem low h = absurd (cc)
start_lem low_low h = absurd (cc)
start_lem dash h = absurd (cc)
start_lem dead h = absurd (cc)

name_from-Rest : (q : NameState) (s : String) → name_from q s ≡ true → Rest q s
unfolding name_from split_path is_plain
name_from-Rest q String.[] h =
    (refl, λ e. absurd (let r = subst (λ x. name_from x String.[] ≡ true) (start_lem q e) h in cc))
name_from-Rest q (String.◌∷◌ c s) h =
    let ih = name_from-Rest (name_step q (code c)) s h in
    let live = alive (name_step q (code c)) s h in
    elim (Bool-cases (code c == b'/')) [
      | inl e ↦
          let step = slash_step q (code c) e live in
          rw e (&&_both _ _ (ih.1 step.1) ih.0, λ k. absurd (let d = step.0 in cc))
      | inr e ↦ rw e (
        ih.0,
        λ k.
            start_step (code c)
              (subst (λ x. is_dead (name_step x (code c)) ≡ false) (start_lem q k) live),
      )
    ]

is_name-clean : (repo : String) → is_name repo ≡ true → is_clean repo ≡ true
unfolding is_name is_clean
is_name-clean repo h = let r = name_from-Rest start repo h in &&_both _ _ (r.1 refl) r.0

is_safe_tail : Tail → Bool
is_safe_tail (manifests_tail ref) = is_ref ref
is_safe_tail (blobs_tail digest) = is_ref digest
is_safe_tail tags_list = true

-- What a handler is called with is safe to put into an upstream address: the repository has plain
-- segments only, and a reference or an upload id is in its grammar.
pub is_safe : Route → Bool
unfolding is_safe_tail
is_safe (refuse status code) = true
is_safe version = true
is_safe (to_forward repo tail) = is_clean repo && is_safe_tail tail
is_safe (to_manifest_put repo ref) = is_clean repo && is_ref ref
is_safe (to_upload_start repo) = is_clean repo
is_safe (to_upload_continue repo id) = is_clean repo && is_upload_id id

either :
    (b : Bool) (x y : Route)
    → is_safe x ≡ true
    → is_safe y ≡ true
    → is_safe (if b then x else y) ≡ true
either true x y h k = h
either false x y h k = k

repo_or_400-safe :
    (segments : List String) (k : String → Route)
    → ((repo : String) → is_clean repo ≡ true → is_safe (k repo) ≡ true)
    → is_safe (repo_or_400 segments k) ≡ true
unfolding repo_or_400 is_safe
repo_or_400-safe segments k fine = elim (Bool-cases (is_name (join segments))) [
  | inl e ↦ rw e (fine (join segments) (is_name-clean (join segments) e))
  | inr e ↦ rw e refl
]

path_part_or_400-safe :
    (fits : Bool) (code : String) (k : Route)
    → (fits ≡ true → is_safe k ≡ true)
    → is_safe (path_part_or_400 fits code k) ≡ true
unfolding path_part_or_400 is_safe
path_part_or_400-safe true code k fine = fine refl
path_part_or_400-safe false code k fine = refl

manifest_route-safe :
    (method : Method) (repo ref : String)
    → is_clean repo ≡ true
    → is_ref ref ≡ true
    → is_safe (manifest_route method repo ref) ≡ true
unfolding is_safe is_safe_tail
manifest_route-safe get repo ref h k = &&_both _ _ h k
manifest_route-safe head repo ref h k = &&_both _ _ h k
manifest_route-safe put repo ref h k = &&_both _ _ h k
manifest_route-safe post repo ref h k = refl
manifest_route-safe patch repo ref h k = refl
manifest_route-safe delete repo ref h k = refl
manifest_route-safe (other m) repo ref h k = refl

upload_start_route-safe :
    (method : Method) (repo : String)
    → is_clean repo ≡ true
    → is_safe (upload_start_route method repo) ≡ true
unfolding is_safe
upload_start_route-safe post repo h = h
upload_start_route-safe get repo h = refl
upload_start_route-safe head repo h = refl
upload_start_route-safe put repo h = refl
upload_start_route-safe patch repo h = refl
upload_start_route-safe delete repo h = refl
upload_start_route-safe (other m) repo h = refl

blob_route-safe :
    (method : Method) (repo digest : String)
    → is_clean repo ≡ true
    → is_ref digest ≡ true
    → is_safe (blob_route method repo digest) ≡ true
unfolding is_safe is_safe_tail
blob_route-safe get repo digest h k = &&_both _ _ h k
blob_route-safe head repo digest h k = &&_both _ _ h k
blob_route-safe put repo digest h k = refl
blob_route-safe post repo digest h k = refl
blob_route-safe patch repo digest h k = refl
blob_route-safe delete repo digest h k = refl
blob_route-safe (other m) repo digest h k = refl

refuse-safe : (status : ℕ) (code : String) → is_safe (refuse status code) ≡ true
unfolding is_safe
refuse-safe status code = refl

version-safe : is_safe version ≡ true
unfolding is_safe
version-safe = refl

tags-safe : (repo : String) → is_clean repo ≡ true → is_safe (to_forward repo tags_list) ≡ true
unfolding is_safe is_safe_tail
tags-safe repo h = &&_both _ _ h refl

continue-safe :
    (repo id : String)
    → is_clean repo ≡ true
    → is_upload_id id ≡ true
    → is_safe (to_upload_continue repo id) ≡ true
unfolding is_safe
continue-safe repo id h k = &&_both _ _ h k

by_end-safe : (method : Method) (segments : List String) → is_safe (by_end method segments) ≡ true
unfolding by_end
by_end-safe method [] = version-safe
by_end-safe method (last ∷ []) = refuse-safe 404 "UNSUPPORTED"
by_end-safe method (last ∷ before ∷ []) = refuse-safe 404 "UNSUPPORTED"
by_end-safe method (last ∷ before ∷ x ∷ names) =
    either (str_eq before "manifests") _ _
      (repo_or_400-safe (reverse (x ∷ names))
        (λ repo.
          path_part_or_400 (is_ref last) "MANIFEST_INVALID" (manifest_route method repo last))
        (λ repo h.
          path_part_or_400-safe (is_ref last) "MANIFEST_INVALID" _
            (manifest_route-safe method repo last h)))
      (either (str_eq before "blobs" && str_eq last "uploads") _ _
        (repo_or_400-safe (reverse (x ∷ names)) (upload_start_route method)
          (upload_start_route-safe method))
        (either (below_blobs (x ∷ names) && str_eq before "uploads") _ _
          (repo_or_400-safe (reverse names)
            (λ repo.
              path_part_or_400 (is_upload_id last) "BLOB_UPLOAD_INVALID"
                (to_upload_continue repo last))
            (λ repo h.
              path_part_or_400-safe (is_upload_id last) "BLOB_UPLOAD_INVALID" _
                (continue-safe repo last h)))
          (either (str_eq before "blobs") _ _
            (repo_or_400-safe (reverse (x ∷ names))
              (λ repo.
                path_part_or_400 (is_ref last) "DIGEST_INVALID" (blob_route method repo last))
              (λ repo h.
                path_part_or_400-safe (is_ref last) "DIGEST_INVALID" _
                  (blob_route-safe method repo last h)))
            (either (str_eq before "tags" && str_eq last "list") _ _
              (repo_or_400-safe (reverse (x ∷ names)) (λ repo. to_forward repo tags_list) tags-safe)
              (refuse-safe 404 "UNSUPPORTED")))))

below_v2-safe :
    (method : Method) (segments : List String) → is_safe (below_v2 method segments) ≡ true
unfolding below_v2
below_v2-safe method [] = refuse-safe 404 "UNSUPPORTED"
below_v2-safe method (w ∷ rest) =
    either (str_eq w "v2") _ _ (by_end-safe method (reverse rest)) (refuse-safe 404 "UNSUPPORTED")

-- Whatever the method and the path of a request, the handler that ServeHTTP calls, if any, gets a
-- repository name in which every segment starts with a letter or a digit, so that none is empty or
-- a dot segment, and a reference or an upload id that is in the grammar of its kind.
pub route-safe : (method : Method) (path : String) → is_safe (route method path) ≡ true
unfolding route
route-safe method path = below_v2-safe method (path_fields path)
