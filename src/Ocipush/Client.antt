-- ===== src/Ocipush/Client.antt =====
-- client.go: the registry client that Push, Mirror and the proxy share.
use contain.Base.{ℕ, zero, suc, String, ◌<>◌, Bool, true, false, ◌&&◌, ◌||◌, not}
use contain.Base.{Option, none, some, List, [], ◌∷◌, str_eq, leb, ◌==◌, if◌then◌else◌}
use contain.Base.{lookup}
use contain.Ocipush.World.{Bytes, Descriptor, Role, src, dst, Scope, pull, push, Method, head}
use contain.Ocipush.World.{post, put, Url, blob, uploads, manifest, location, Body, empty, raw}
use contain.Ocipush.World.{Request, Response, sent, authenticated, context, Env}
use contain.Ocipush.World.{retryable, plain, wrapped, Result, ok, err, out_of_fuel, Exec}
use contain.Ocipush.World.{pure, raise, ◌>>=◌, ◌>>◌, attempt, give, wrap_err, from_option, guard}
use contain.Ocipush.World.{record_event}
use contain.Ocipush.Errors.{is_retryable, status_error}

-- `directPush`, without the two flags that `Sys` holds.
pub record DirectPush : Type 0 where
  pub threshold : ℕ
  pub part_size : ℕ

-- `regClient`: its registry's base address is its role's.
pub record RegClient : Type 0 where
  pub role : Role
  pub ext : Option DirectPush

-- `Options` without its transport; `auth` says that credentials are given.
pub record Options : Type 0 where
  pub auth : Bool
  pub ext_threshold : ℕ
  pub part_size : ℕ
  pub staging_dir : String

abbrev pub default_ext_threshold : ℕ
default_ext_threshold = 8388608

-- `resolved` is whether the keychain finds credentials.
unfoldable pub new_reg_client : Role → Options → Bool → Result RegClient
new_reg_client role opts resolved =
    if opts.auth || resolved
    then ok (record {
      role = role;
      ext = some (record {
        threshold = if opts.ext_threshold == 0 then default_ext_threshold else opts.ext_threshold;
        part_size = opts.part_size;
      });
    })
    else err (plain "resolve credentials")

abbrev pub role_eq : Role → Role → Bool
role_eq src src = true
role_eq dst dst = true
role_eq _ _ = false

abbrev pub scope_eq : Scope → Scope → Bool
scope_eq pull pull = true
scope_eq push push = true
scope_eq _ _ = false

-- Whether `c.clients` has a client for the scope.
abbrev pub has_client : Role → String → Scope → List (Role × String × Scope) → Bool
has_client role repo scope [] = false
has_client role repo scope ((r, p, a) ∷ cs) =
    (role_eq r role && (str_eq p repo && scope_eq a scope)) || has_client role repo scope cs

-- A request with no header and no body.
abbrev pub bare : Role → Option (String × Scope) → Method → Url → Request
bare role auth method url = record {
  role = role;
  auth = auth;
  method = method;
  url = url;
  headers = [];
  body = empty;
  content_length = none;
}

-- `res.Header.Get`
unfoldable pub header : String → List (String × String) → String
header key headers = elim (lookup key headers) [ none ↦ "" | some v ↦ v ]

-- The requests that carry a body.
abbrev pub blob_put : RegClient → String → Descriptor → Url → Bytes → Request
blob_put c repo d target content = record {
  role = c.role;
  auth = some (repo, push);
  method = put;
  url = target;
  headers = ("Content-Type", "application/octet-stream") ∷ [];
  body = raw content;
  content_length = some d.size;
}

abbrev pub json_post : RegClient → String → Url → Body → Request
json_post c repo url body = record {
  role = c.role;
  auth = some (repo, push);
  method = post;
  url = url;
  headers = ("Content-Type", "application/json") ∷ [];
  body = body;
  content_length = none;
}

abbrev pub manifest_request : RegClient → String → Bytes → String → String → Request
manifest_request c repo bytes media_type ref = record {
  role = c.role;
  auth = some (repo, push);
  method = put;
  url = manifest repo ref;
  headers = ("Content-Type", media_type) ∷ [];
  body = raw bytes;
  content_length = none;
}

module _ (env : Env) where
  -- `http.NewRequestWithContext`
  unfoldable pub new_request : Url → Exec (Unit {0})
  new_request url = guard (env.valid_url url) (plain "new request")

  -- `ctx.Err() != nil`
  unfoldable pub ctx_err : Exec Bool
  ctx_err s = let c = env.cancelled s.history in (ok c, record_event (context c) s)

  -- An exchange over a client that is at hand.
  unfoldable pub transmit : Request → Exec Response
  transmit req s =
      let answer = env.respond s.history req in
      from_option (plain "transport") answer (record_event (sent req answer) s)

  -- `(*regClient).client`: the handshake, once for each scope
  unfoldable pub client : Role → String → Scope → Exec (Unit {0})
  client role repo scope s =
      if has_client role repo scope s.clients
      then (ok tt, s)
      else (let granted = env.grant s.history role repo scope in
          let s' = record_event (authenticated role repo scope granted) s in
          if granted
          then (ok tt, record s' { clients = (role, repo, scope) ∷ s'.clients })
          else (err (wrapped "registry auth" (plain "handshake")), s'))

  unfoldable pub authorize : Role → Option (String × Scope) → Exec (Unit {0})
  unfolding client
  authorize role none = pure tt
  authorize role (some (repo, scope)) = client role repo scope

  -- `(*regClient).do`
  unfoldable pub do_request : Request → Exec Response
  unfolding authorize transmit
  do_request req = do authorize req.role req.auth; transmit req

  unfoldable pub blob_exists : RegClient → String → String → Scope → Exec Bool
  unfolding do_request new_request
  blob_exists c repo digest scope = do
    new_request (blob repo digest)
    res ←
        wrap_err (wrapped ("blob head " <> digest))
          (do_request (bare c.role (some (repo, scope)) head (blob repo digest)))
    if res.status == 200
        then pure true
        else if res.status == 404
        then pure false
        else raise (status_error ("blob head " <> digest) res)

  -- `resolveLocation`: the digest becomes the query of the resolved location
  unfoldable pub resolve_location : Url → String → String → Exec Url
  resolve_location request_url loc digest =
      if str_eq loc "" then raise (plain "no Location in upload start response") else do
        target ← from_option (plain "parse upload location") (env.resolve request_url loc)
        pure (location target digest)

  -- `os.Open` of a file that is then read to its end
  unfoldable pub open_file : String → Exec Bytes
  open_file path s = from_option (plain "open") (s.files path) s

  unfoldable pub put_blob_once : RegClient → String → Descriptor → String → Exec (Unit {0})
  unfolding new_request do_request resolve_location open_file header
  put_blob_once c repo d path = do
    new_request (uploads repo)
    res ←
        wrap_err (λ e. retryable (wrapped "blob upload start" e))
          (do_request (bare c.role (some (repo, push)) post (uploads repo)))
    guard (res.status == 202) (status_error "blob upload start" res)
    target ← resolve_location (uploads repo) (header "Location" res.headers) d.digest
    content ← open_file path
    new_request target
    put_res ←
        wrap_err (λ e. retryable (wrapped ("blob put " <> d.digest) e))
          (do_request (blob_put c repo d target content))
    guard (put_res.status == 201) (status_error ("blob put " <> d.digest) put_res)

  -- What a round of the retry loop does with the outcome of its upload.
  unfoldable pub settle : Result (Unit {0}) → Exec (Unit {0}) → Exec (Unit {0})
  unfolding ctx_err
  settle (ok _) again = pure tt
  settle (err e) again = do stop ← ctx_err; if stop || not (is_retryable e) then raise e else again
  settle out_of_fuel again = give out_of_fuel

  -- The loop of `pushBlobStandard`, with the rounds that are left after this one.
  unfoldable pub upload_attempts : ℕ → RegClient → String → Descriptor → String → Exec (Unit {0})
  unfolding settle
  upload_attempts zero c repo d path = do
    r ← attempt (put_blob_once c repo d path)
    settle r (give r)
  upload_attempts (suc n) c repo d path =
      let again = upload_attempts n c repo d path in
      do r ← attempt (put_blob_once c repo d path); settle r again

  abbrev standard_upload_retries : ℕ
  standard_upload_retries = 2

  unfoldable pub push_blob_standard : RegClient → String → Descriptor → String → Exec (Unit {0})
  unfolding upload_attempts
  push_blob_standard = upload_attempts standard_upload_retries

  -- `postJSON`
  unfoldable pub post_json : RegClient → String → Url → Body → Exec Response
  unfolding new_request do_request
  post_json c repo url body = do new_request url; do_request (json_post c repo url body)

  unfoldable pub put_manifest : RegClient → String → Bytes → String → String → Exec (Unit {0})
  unfolding new_request do_request
  put_manifest c repo bytes media_type ref = do
    new_request (manifest repo ref)
    res ←
        wrap_err (wrapped ("manifest put " <> ref))
          (do_request (manifest_request c repo bytes media_type ref))
    if leb 200 res.status && leb res.status 299
        then pure tt
        else raise (status_error ("manifest put " <> ref) res)
