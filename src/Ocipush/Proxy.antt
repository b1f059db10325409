-- ===== src/Ocipush/Proxy.antt =====
-- proxy.go: the handlers of the registry frontend, with the upload sessions that they share. One
-- request is handled at a time.
pub mod Stored
pub mod Sessions
pub mod Sizes
use contain.Base.{
  ℕ, zero, suc, ◌+◌, ◌-◌, ◌≡◌, String, ◌<>◌, Bool, true, false, ◌&&◌, ◌||◌, not, List, [], ◌∷◌,
  ◌++◌,
}
use contain.Base.{
  leb, ltb, ◌==◌, if◌then◌else◌, Option, none, some, length, take, lookup, str_eq, starts_with,
}
use contain.Ocipush.World.{
  Bytes, Descriptor, Method, get, head, post, put, patch, delete, other, Url, blob, manifest,
}
use contain.Ocipush.World.{
  tags, Request, Response, Env, Error, plain, Result, ok, err, out_of_fuel, Exec, pull, push,
}
use contain.Ocipush.World.{Sys, write_file, empty, dst, wrapped}
use contain.Ocipush.Errors.{upstream_status}
use contain.Ocipush.Digest.{equal_fold}
use contain.Ocipush.Staging.{staging_file, disk_step}
use contain.Ocipush.Client.{
  RegClient, Options, new_reg_client, header, new_request, do_request, blob_exists, put_manifest,
}
use contain.Ocipush.Direct.{push_blob_file, time_now}
use contain.Ocipush.Routes.{
  is_name, Tail, manifests_tail, blobs_tail, tags_list, Route, refuse, version,
}
use contain.Ocipush.Routes.{to_forward, to_manifest_put, to_upload_start, to_upload_continue, route}

-- `Proxy`, without its sessions; and `uploadSession`, where `hashed` is what its hash has read.
pub record Proxy : Type 0 where
  pub c : RegClient
  pub prefix : String
  pub staging_dir : String

pub record UploadSession : Type 0 where
  pub file : String
  pub hashed : Bytes
  pub size : ℕ
  pub last_used : ℕ

-- What the handlers change.
pub record ProxyState : Type 0 where
  pub sys : Sys
  pub sessions : List (String × UploadSession)

-- A request to the proxy. `complete` is false when its body breaks off, `random_id` is the upload
-- id that `crypto/rand` yields, `locked` tells the sessions that other requests hold.
pub record Call : Type 0 where
  pub method : Method
  pub path : String
  pub headers : List (String × String)
  pub mount : String
  pub digest : String
  pub body : Bytes
  pub complete : Bool
  pub random_id : Option String
  pub locked : String → Bool

-- The reply: an error with its status and code (its message is not modelled), or a status with
-- headers and a body. `unfinished` stands for a call that never returns.
pub data Reply : Type 0 where
  refused : ℕ → String → Reply
  replied : ℕ → List (String × String) → Bytes → Reply
  unfinished : Reply

abbrev pub Handler : Type 0
Handler = ProxyState → Reply × ProxyState

abbrev pub answer : Reply → Handler
answer r s = (r, s)

-- A call of a method, with what follows an error and what follows success.
abbrev pub resume : {A : Type 0} → Result A → (Error → Handler) → (A → Handler) → Handler
resume (ok a) failed next s = next a s
resume (err e) failed next s = failed e s
resume out_of_fuel failed next s = (unfinished, s)

abbrev pub calling : {A : Type 0} → Exec A → (Error → Handler) → (A → Handler) → Handler
calling m failed next s =
    resume (m s.sys).0 failed next (record { sys = (m s.sys).1; sessions = s.sessions })

unfoldable pub upstream_error : Error → Reply
upstream_error e = elim (upstream_status e) [
  | none ↦ refused 502 "UNKNOWN"
  | some status ↦
      if status == 401 || status == 403
      then refused status "DENIED"
      else if status == 404
      then refused status "NAME_UNKNOWN"
      else if status == 429
      then refused status "TOOMANYREQUESTS"
      else refused 502 "UNKNOWN"
]

unfoldable pub created : String → String → String → Reply
created repo kind digest =
    replied 201
      (("Location", "/v2/" <> (repo <> ("/" <> (kind <> ("/" <> digest)))))
        ∷ ("Docker-Content-Digest", digest)
        ∷ [])
      []

-- Whether a text ends in a slash, and the text without it.
abbrev without_slash : String → Option String
without_slash String.[] = none
without_slash (String.◌∷◌ c String.[]) = if str_eq (String.◌∷◌ c "") "/" then some "" else none
without_slash (String.◌∷◌ c (String.◌∷◌ d s)) = elim (without_slash (String.◌∷◌ d s)) [
  | none ↦ none
  | some t ↦ some (String.◌∷◌ c t)
]

-- The check of `NewProxy` on its prefix
unfoldable pub prefix_fits : String → Bool
unfolding is_name
prefix_fits prefix =
    str_eq prefix "" || elim (without_slash prefix) [ none ↦ false | some path ↦ is_name path ]

-- `NewProxy`: `host_parses` is what `name.NewRegistry` says of the host
unfoldable pub new_proxy : Bool → Bool → String → Options → Result Proxy
unfolding prefix_fits
new_proxy host_parses resolved prefix opts =
    if prefix_fits prefix
    then (if host_parses
        then elim (new_reg_client dst opts resolved) [
          | ok c ↦ ok (record { c = c; prefix = prefix; staging_dir = opts.staging_dir })
          | err e ↦ err e
          | out_of_fuel ↦ out_of_fuel
        ]
        else err (wrapped "upstream registry" (plain "parse")))
    else err (plain "prefix")

unfoldable pub upstream_repo : Proxy → String → String
upstream_repo p repo = p.prefix <> repo

abbrev pub tail_url : String → Tail → Url
tail_url repo (manifests_tail ref) = manifest repo ref
tail_url repo (blobs_tail digest) = blob repo digest
tail_url repo tags_list = tags repo

-- The named headers that are set.
unfoldable pub kept_headers : List String → List (String × String) → List (String × String)
unfolding header
kept_headers [] headers = []
kept_headers (h ∷ hs) headers =
    let rest = kept_headers hs headers in
    if str_eq (header h headers) "" then rest else (h, header h headers) ∷ rest

abbrev pub relayed : List String
relayed =
    "Content-Type" ∷ "Content-Length" ∷ "Content-Range" ∷ "Accept-Ranges" ∷ "Docker-Content-Digest"
    ∷ "Etag" ∷ "Link" ∷ []

abbrev pub max_manifest : ℕ
max_manifest = 33554432

abbrev pub session_max_idle : ℕ
session_max_idle = 3600000000000

unfoldable pub remove_session :
    String → List (String × UploadSession) → List (String × UploadSession)
remove_session id [] = []
remove_session id ((k, u) ∷ m) =
    let rest = remove_session id m in if str_eq k id then rest else (k, u) ∷ rest

unfoldable pub put_session :
    String → UploadSession → List (String × UploadSession) → List (String × UploadSession)
unfolding remove_session
put_session id u m = (id, u) ∷ remove_session id m

-- `drop`
unfoldable pub drop_session : String → UploadSession → ProxyState → ProxyState
unfolding remove_session
drop_session id u s = record {
  sys = write_file u.file none s.sys;
  sessions = remove_session id s.sessions;
}

-- The `itoa` of the section is the decimal notation of `fmt`.
module _ (env : Env) (itoa : ℕ → String) (p : Proxy) where
  abbrev pub forward_request : Call → String → Tail → Request
  forward_request call repo tail = record {
    role = p.c.role;
    auth = some (upstream_repo p repo, pull);
    method = call.method;
    url = tail_url (upstream_repo p repo) tail;
    headers = kept_headers ("Accept" ∷ "Range" ∷ []) call.headers;
    body = empty;
    content_length = none;
  }

  unfoldable pub forward : Call → String → Tail → Handler
  unfolding kept_headers upstream_repo
  forward call repo tail =
      calling (new_request env (tail_url (upstream_repo p repo) tail))
        (λ _. answer (refused 500 "UNKNOWN"))
        λ _.
          calling (do_request env (forward_request call repo tail)) (λ e. answer (upstream_error e))
            λ res. answer (replied res.status (kept_headers relayed res.headers) res.body)

  unfoldable pub manifest_put : Call → String → String → Handler
  unfolding upstream_repo
  manifest_put call repo ref =
      if not call.complete && leb (length call.body) max_manifest
      then answer (refused 400 "MANIFEST_INVALID")
      else if ltb max_manifest (length call.body)
      then answer (refused 413 "MANIFEST_INVALID")
      else calling
          (put_manifest env p.c (upstream_repo p repo) call.body
            (header "Content-Type" call.headers) ref)
          (λ e. answer (upstream_error e))
          λ _. answer (created repo "manifests" (env.digest_of call.body))

  -- `expireIdleSessionsLocked`: the sessions that stay, with the files of the others removed
  unfoldable pub expire_from :
      (String → Bool) → List (String × UploadSession) → Sys → List (String × UploadSession) × Sys
  expire_from locked [] s = ([], s)
  expire_from locked ((id, u) ∷ m) s =
      let t = (time_now env s).1 in
      let idle = ltb (u.last_used + session_max_idle) (env.now s.history) in
      let expires = idle && not (locked id) in
      let (rest, end) = expire_from locked m (if expires then write_file u.file none t else t) in
      (if expires then rest else (id, u) ∷ rest, end)

  unfoldable pub expire_idle_sessions : (String → Bool) → ProxyState → ProxyState
  unfolding expire_from
  expire_idle_sessions locked s =
      let (kept, end) = expire_from locked s.sessions s.sys in record { sys = end; sessions = kept }

  abbrev pub upload_headers : String → String → String → List (String × String)
  upload_headers repo id range =
      ("Location", "/v2/" <> (repo <> ("/blobs/uploads/" <> id)))
      ∷ ("Docker-Upload-UUID", id)
      ∷ ("Range", range)
      ∷ []

  -- The session of a new upload, given its file and its id.
  unfoldable pub opened_upload : Call → String → String → Option String → Handler
  unfolding expire_idle_sessions put_session
  opened_upload call repo path none = answer (refused 500 "UNKNOWN")
  opened_upload call repo path (some id) = λ s.
      let now = env.now s.sys.history in
      let swept =
        expire_idle_sessions call.locked
          (record { sys = (time_now env s.sys).1; sessions = s.sessions }) in
      let opened : UploadSession = record { file = path; hashed = []; size = 0; last_used = now } in
      (
        replied 202 (upload_headers repo id "0-0") [],
        record { sys = swept.sys; sessions = put_session id opened swept.sessions },
      )

  -- From the staging file on.
  unfoldable pub open_upload : Call → String → Handler
  unfolding opened_upload
  open_upload call repo =
      calling (staging_file env p.staging_dir) (λ _. answer (refused 500 "UNKNOWN"))
        λ path. opened_upload call repo path call.random_id

  unfoldable pub upload_start : Call → String → Handler
  unfolding open_upload upstream_repo
  upload_start call repo =
      if str_eq call.mount ""
      then open_upload call repo
      else calling (blob_exists env p.c (upstream_repo p repo) call.mount push)
          (λ e. answer (upstream_error e))
          λ exists.
            if exists then answer (created repo "blobs" call.mount) else open_upload call repo

  -- The session with the body of the call appended, or none when the copy breaks off.
  abbrev appended : Call → UploadSession → UploadSession
  appended call u = record u { hashed = u.hashed ++ call.body; size = u.size + length call.body }

  -- `io.Copy` into the staging file and the hash; the session is dropped when it breaks off
  unfoldable pub receive : Call → String → UploadSession → (UploadSession → Handler) → Handler
  unfolding drop_session put_session
  receive call id u next =
      calling (disk_step env) (λ _. answer (refused 400 "BLOB_UPLOAD_INVALID"))
        λ written. λ s.
          if call.complete && written
          then next (appended call u) (record {
            sys = write_file u.file (some (appended call u).hashed) s.sys;
            sessions = put_session id (appended call u) s.sessions;
          })
          else (refused 400 "BLOB_UPLOAD_INVALID", drop_session id u s)

  -- `size-1`, printed
  abbrev pub last_byte : ℕ → String
  last_byte size = if size == 0 then "-1" else itoa (size - 1)

  unfoldable pub upload_patch : Call → String → String → UploadSession → Handler
  unfolding receive
  upload_patch call repo id u =
      let range = header "Content-Range" call.headers in
      if not (str_eq range "") && not (starts_with range (itoa u.size <> "-"))
      then answer (refused 416 "BLOB_UPLOAD_INVALID")
      else receive call id u
          λ v. answer (replied 202 (upload_headers repo id ("0-" <> last_byte v.size)) [])

  -- The last step of an upload: the session ends whatever the upstream says.
  unfoldable pub commit_upload : Call → String → String → UploadSession → Handler
  unfolding drop_session upstream_repo
  commit_upload call repo id u s =
      let pushed =
        push_blob_file env p.c (upstream_repo p repo)
          (record { media_type = ""; digest = call.digest; size = u.size }) u.file s.sys in
      resume pushed.0 (λ e. answer (upstream_error e))
        (λ _. answer (created repo "blobs" call.digest))
        (drop_session id u (record { sys = pushed.1; sessions = s.sessions }))

  unfoldable pub upload_put : Call → String → String → UploadSession → Handler
  unfolding receive commit_upload drop_session
  upload_put call repo id u = receive call id u λ v. λ s.
      if not (equal_fold call.digest (env.digest_of v.hashed))
      then (refused 400 "DIGEST_INVALID", drop_session id v s)
      else calling (disk_step env) (λ _. answer (refused 500 "UNKNOWN"))
          (λ closed. λ t.
            if closed
            then commit_upload call repo id v t
            else (refused 500 "UNKNOWN", drop_session id v t))
          s

  unfoldable pub upload_method : Method → Call → String → String → UploadSession → Handler
  unfolding upload_patch upload_put drop_session
  upload_method patch call repo id u = upload_patch call repo id u
  upload_method put call repo id u = upload_put call repo id u
  upload_method get call repo id u =
      answer
        (replied 204 (("Docker-Upload-UUID", id) ∷ ("Range", "0-" <> itoa (u.size - 1)) ∷ []) [])
  upload_method delete call repo id u = λ s. (replied 204 [] [], drop_session id u s)
  upload_method _ call repo id u = answer (refused 405 "UNSUPPORTED")

  -- The sweep that ends a call, which holds its own session.
  abbrev sweep : Call → String → Reply × ProxyState → Reply × ProxyState
  sweep call id (r, s) = (r, expire_idle_sessions (λ k. str_eq k id || call.locked k) s)

  unfoldable pub upload_continue : Call → String → String → Handler
  unfolding expire_idle_sessions upload_method put_session
  upload_continue call repo id s = elim (lookup id s.sessions) [
    | none ↦ (refused 404 "BLOB_UPLOAD_UNKNOWN", s)
    | some u ↦
        let used = record u { last_used = env.now s.sys.history } in
        sweep call id (
          upload_method call.method call repo id used
            (record { sys = (time_now env s.sys).1; sessions = put_session id used s.sessions }))
  ]

  unfoldable pub handle : Call → Route → Handler
  unfolding forward manifest_put upload_start upload_continue
  handle call (refuse status code) = answer (refused status code)
  handle call version = answer (
      replied 200
        (("Docker-Distribution-API-Version", "registry/2.0")
          ∷ ("Content-Type", "application/json")
          ∷ [])
        (b'{' ∷ b'}' ∷ []))
  handle call (to_forward repo tail) = forward call repo tail
  handle call (to_manifest_put repo ref) = manifest_put call repo ref
  handle call (to_upload_start repo) = upload_start call repo
  handle call (to_upload_continue repo id) = upload_continue call repo id

  -- `ServeHTTP`
  unfoldable pub serve_http : Call → Handler
  unfolding handle route
  serve_http call = handle call (route call.method call.path)
