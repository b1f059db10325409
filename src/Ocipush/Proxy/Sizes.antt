-- ===== src/Ocipush/Proxy/Sizes.antt =====
-- The sizes of the upload sessions of the proxy (proxy.go).
use mathlib.Core.Path.{subst}
use contain.Base.{
  some-injective, ℕ, ◌+◌, ◌≡◌, refl, String, Bool, true, false, ◌&&◌, ◌||◌, not, List, [], ◌∷◌,
  ◌++◌, arith,
}
use contain.Base.{
  ◌==◌, ==_iff, if◌then◌else◌, Option, none, some, length, all, lookup, str_eq, &&_both, &&_parts,
  length-append, leb, ltb,
}
use contain.Base.{starts_with, ◌<>◌}
use contain.Ocipush.World.{
  Exec, push, Env, Sys, Method, get, head, post, put, patch, delete, other, Result, ok, err,
  out_of_fuel, Error, write_file,
}
use contain.Ocipush.Staging.{disk_step, staging_file}
use contain.Ocipush.Digest.{equal_fold}
use contain.Ocipush.Direct.{time_now}
use contain.Ocipush.Client.{header, new_request, do_request, blob_exists}
use contain.Ocipush.Routes.{
  Route, refuse, version, to_forward, to_manifest_put, to_upload_start, to_upload_continue, Tail,
  route,
}
use contain.Ocipush.Proxy.{
  answer, calling, tail_url, forward_request, upstream_repo, opened_upload, kept_headers, relayed,
  max_manifest, upload_headers, last_byte, session_max_idle, Proxy, UploadSession, ProxyState, Call,
  Reply, refused, replied, Handler, resume, remove_session, put_session, drop_session,
}
use contain.Ocipush.Proxy.{
  receive, upload_patch, upload_put, commit_upload, upload_method, expire_from,
  expire_idle_sessions,
}
use contain.Ocipush.Proxy.{
  upload_continue, upload_start, open_upload, handle, serve_http, forward, manifest_put,
  upstream_error, created,
}

abbrev pub is_sized : List (String × UploadSession) → Bool
is_sized m = all (λ t. t.1.size == length t.1.hashed) m

abbrev fits : UploadSession → Bool
fits u = u.size == length u.hashed

remove_session-sized :
    (id : String) (m : List (String × UploadSession))
    → is_sized m ≡ true
    → is_sized (remove_session id m) ≡ true
unfolding remove_session
remove_session-sized id [] h = refl
remove_session-sized id ((k, u) ∷ m) h = let ih = remove_session-sized id m in ground arith

put_session-sized :
    (id : String) (u : UploadSession) (m : List (String × UploadSession))
    → fits u ≡ true
    → is_sized m ≡ true
    → is_sized (put_session id u m) ≡ true
unfolding put_session
put_session-sized id u m f h = &&_both _ _ f (remove_session-sized id m h)

lookup-fits :
    (id : String) (m : List (String × UploadSession)) (u : UploadSession)
    → is_sized m ≡ true
    → lookup id m ≡ some u
    → fits u ≡ true
lookup-fits id [] u h e = absurd (cc)
lookup-fits id ((k, v) ∷ m) u h e = go (str_eq k id) (lookup-fits id m u) e
  where
    go :
        (b : Bool)
        → (is_sized m ≡ true → lookup id m ≡ some u → fits u ≡ true)
        → (elim b [ true ↦ some v | false ↦ lookup id m ]) ≡ some u
        → fits u ≡ true
    go true rest found = subst (λ w. fits w ≡ true) (some-injective _ _ found) (&&_parts _ _ h).0
    go false rest found = rest (&&_parts _ _ h).1 found

appended-fits :
    (u : UploadSession) (body : List ℕ)
    → fits u ≡ true
    → (u.size + length body == length (u.hashed ++ body)) ≡ true
appended-fits u body f =
    (==_iff (u.size + length body) (length (u.hashed ++ body))).1
      (omega (arith, length-append u.hashed body, (==_iff u.size (length u.hashed)).0 f))

keep_or_drop :
    (b : Bool) (u : UploadSession) (id : String) (m : List (String × UploadSession))
    → fits u ≡ true
    → is_sized m ≡ true
    → is_sized (if b then m else (id, u) ∷ m) ≡ true
keep_or_drop true u id m f h = h
keep_or_drop false u id m f h = &&_both _ _ f h

module _ (env : Env) (itoa : ℕ → String) (p : Proxy) where
  expire_from-sized :
      (locked : String → Bool) (m : List (String × UploadSession)) (s : Sys)
      → is_sized m ≡ true
      → is_sized (expire_from env itoa p locked m s).0 ≡ true
  unfolding expire_from
  expire_from-sized locked [] s h = refl
  expire_from-sized locked ((id, u) ∷ m) s h =
      let t = (time_now env s).1 in
      let expires = ltb (u.last_used + session_max_idle) (env.now s.history) && not (locked id) in
      keep_or_drop expires u id _ (&&_parts _ _ h).0 (
        expire_from-sized locked m (if expires then write_file u.file none t else t)
          (&&_parts _ _ h).1)

  expire_idle_sessions-sized :
      (locked : String → Bool) (s : ProxyState)
      → is_sized s.sessions ≡ true
      → is_sized (expire_idle_sessions env itoa p locked s).sessions ≡ true
  unfolding expire_idle_sessions
  expire_idle_sessions-sized locked s h = expire_from-sized locked s.sessions s.sys h

  record Sized (out : Reply × ProxyState) : Type 0 where
    sized : is_sized out.1.sessions ≡ true

  resume-Sized :
      {A : Type 0} (r : Result A) (failed : Error → Handler) (next : A → Handler) (s : ProxyState)
      → ((e : Error) → Sized (failed e s))
      → ((a : A) → Sized (next a s))
      → is_sized s.sessions ≡ true
      → Sized (resume r failed next s)
  resume-Sized (ok a) failed next s f n h = n a
  resume-Sized (err e) failed next s f n h = f e
  resume-Sized out_of_fuel failed next s f n h = record { sized = h }

  if-Sized : (b : Bool) (x y : Reply × ProxyState) → Sized x → Sized y → Sized (if b then x else y)
  if-Sized true x y h k = h
  if-Sized false x y h k = k

  handler-Sized :
      (b : Bool) (x y : Handler) (s : ProxyState)
      → Sized (x s)
      → Sized (y s)
      → Sized ((if b then x else y) s)
  handler-Sized true x y s h k = h
  handler-Sized false x y s h k = k

  drop_session-Sized :
      (id : String) (u : UploadSession) (s : ProxyState) (r : Reply)
      → is_sized s.sessions ≡ true
      → Sized (r, drop_session id u s)
  unfolding drop_session
  drop_session-Sized id u s r h = record { sized = remove_session-sized id s.sessions h }

  commit_upload-Sized :
      (call : Call) (repo id : String) (u : UploadSession) (s : ProxyState)
      → is_sized s.sessions ≡ true
      → Sized (commit_upload env itoa p call repo id u s)
  unfolding commit_upload drop_session
  commit_upload-Sized call repo id u s h =
      let g = remove_session-sized id s.sessions h in
      resume-Sized _ (λ e. λ t. (upstream_error e, t))
        (λ _. λ t. (created repo "blobs" call.digest, t)) _ (λ e. record { sized = g })
        (λ a. record { sized = g }) g

  receive-Sized :
      (call : Call) (id : String) (u : UploadSession) (next : UploadSession → Handler)
      (s : ProxyState)
      → is_sized s.sessions ≡ true
      → fits u ≡ true
      → ((v : UploadSession) (t : ProxyState) → is_sized t.sessions ≡ true → Sized (next v t))
      → Sized (receive env itoa p call id u next s)
  unfolding receive disk_step
  receive-Sized call id u next s h f after =
      if-Sized (call.complete && env.disk_ok s.sys.history) _ _
        (after (record u { hashed = u.hashed ++ call.body; size = u.size + length call.body }) _
          (put_session-sized id
            (record u { hashed = u.hashed ++ call.body; size = u.size + length call.body })
            s.sessions (appended-fits u call.body f) h))
        (drop_session-Sized id u _ _ h)

  upload_put-Sized :
      (call : Call) (repo id : String) (u : UploadSession) (s : ProxyState)
      → is_sized s.sessions ≡ true
      → fits u ≡ true
      → Sized (upload_put env itoa p call repo id u s)
  unfolding upload_put disk_step
  upload_put-Sized call repo id u s h f = receive-Sized call id u _ s h f λ v t k.
      if-Sized (not (equal_fold call.digest (env.digest_of v.hashed))) _ _
        (drop_session-Sized id v t (refused 400 "DIGEST_INVALID") k)
        (if-Sized (env.disk_ok t.sys.history) _ _
          (commit_upload-Sized call repo id v
            (record { sys = (disk_step env t.sys).1; sessions = t.sessions }) k)
          (drop_session-Sized id v (record { sys = (disk_step env t.sys).1; sessions = t.sessions })
            (refused 500 "UNKNOWN") k))

  upload_patch-Sized :
      (call : Call) (repo id : String) (u : UploadSession) (s : ProxyState)
      → is_sized s.sessions ≡ true
      → fits u ≡ true
      → Sized (upload_patch env itoa p call repo id u s)
  unfolding upload_patch
  upload_patch-Sized call repo id u s h f =
      handler-Sized
        (not (str_eq (header "Content-Range" call.headers) "")
          && not (starts_with (header "Content-Range" call.headers) (itoa u.size <> "-")))
        _ _ s (record { sized = h })
        (receive-Sized call id u
          (λ v. λ t. (
            replied 202 (upload_headers env itoa p repo id ("0-" <> last_byte env itoa p v.size))
                [],
            t,
          ))
          s h f (λ v t k. record { sized = k }))

  upload_method-Sized :
      (method : Method) (call : Call) (repo id : String) (u : UploadSession) (s : ProxyState)
      → is_sized s.sessions ≡ true
      → fits u ≡ true
      → Sized (upload_method env itoa p method call repo id u s)
  unfolding upload_method drop_session
  upload_method-Sized patch call repo id u s h f = upload_patch-Sized call repo id u s h f
  upload_method-Sized put call repo id u s h f = upload_put-Sized call repo id u s h f
  upload_method-Sized get call repo id u s h f = record { sized = h }
  upload_method-Sized delete call repo id u s h f = record {
    sized = remove_session-sized id s.sessions h;
  }
  upload_method-Sized head call repo id u s h f = record { sized = h }
  upload_method-Sized post call repo id u s h f = record { sized = h }
  upload_method-Sized (other m) call repo id u s h f = record { sized = h }

  upload_continue-sized :
      (call : Call) (repo id : String) (s : ProxyState)
      → is_sized s.sessions ≡ true
      → is_sized (upload_continue env itoa p call repo id s).1.sessions ≡ true
  unfolding upload_continue
  upload_continue-sized call repo id s h = go (lookup id s.sessions) refl
    where
      go :
          (o : Option UploadSession)
          → lookup id s.sessions ≡ o
          → is_sized (upload_continue env itoa p call repo id s).1.sessions ≡ true
      go none e = rw (upload_continue, e) h
      go (some u) e =
          let used : UploadSession = record u { last_used = env.now s.sys.history } in
          let f = lookup-fits id s.sessions u h e in
          let start : ProxyState = record {
            sys = (time_now env s.sys).1;
            sessions = put_session id used s.sessions;
          } in
          let out =
            upload_method-Sized call.method call repo id used start
              (put_session-sized id used s.sessions f h) f in
          rw (upload_continue, e)
            (expire_idle_sessions-sized (λ k. str_eq k id || call.locked k) _ out.sized)

  -- A call whose outcome is answered at once.
  answered :
      {A : Type 0} (r : Result A) (failed : Error → Reply) (next : A → Reply) (s : ProxyState)
      → is_sized s.sessions ≡ true
      → Sized (resume r (λ e. λ t. (failed e, t)) (λ a. λ t. (next a, t)) s)
  answered r failed next s h =
      resume-Sized r _ _ s (λ e. record { sized = h }) (λ a. record { sized = h }) h

  -- A handler that keeps the sizes, whatever the state.
  abbrev Keeps : Handler → Type 0
  Keeps f = (t : ProxyState) → is_sized t.sessions ≡ true → Sized (f t)

  calling-Sized :
      {A : Type 0} (m : Exec A) (failed : Error → Handler) (next : A → Handler) (s : ProxyState)
      → is_sized s.sessions ≡ true
      → ((e : Error) → Keeps (failed e))
      → ((a : A) → Keeps (next a))
      → Sized (calling m failed next s)
  calling-Sized m failed next s h f n =
      let t : ProxyState = record { sys = (m s.sys).1; sessions = s.sessions } in
      resume-Sized (m s.sys).0 failed next t (λ e. f e t h) (λ a. n a t h) h

  forward-Sized :
      (call : Call) (repo : String) (tail : Tail) (s : ProxyState)
      → is_sized s.sessions ≡ true
      → Sized (forward env itoa p call repo tail s)
  unfolding forward upstream_repo
  forward-Sized call repo tail s h =
      calling-Sized (new_request env (tail_url (upstream_repo p repo) tail))
        (λ _. answer (refused 500 "UNKNOWN"))
        (λ _.
          calling (do_request env (forward_request env itoa p call repo tail))
            (λ e. answer (upstream_error e))
            λ res. answer (replied res.status (kept_headers relayed res.headers) res.body))
        s h (λ e t k. record { sized = k })
        (λ _ t k.
          calling-Sized (do_request env (forward_request env itoa p call repo tail))
            (λ e. answer (upstream_error e))
            (λ res. answer (replied res.status (kept_headers relayed res.headers) res.body)) t k
            (λ e u l. record { sized = l }) (λ res u l. record { sized = l }))

  manifest_put-Sized :
      (call : Call) (repo ref : String) (s : ProxyState)
      → is_sized s.sessions ≡ true
      → Sized (manifest_put env itoa p call repo ref s)
  unfolding manifest_put
  manifest_put-Sized call repo ref s h =
      handler-Sized (not call.complete && leb (length call.body) max_manifest) _ _ s
        (record { sized = h })
        (handler-Sized (ltb max_manifest (length call.body)) _ _ s (record { sized = h })
          (answered _ upstream_error (λ _. created repo "manifests" (env.digest_of call.body)) _ h))

  opened_upload-Sized :
      (call : Call) (repo path : String) (o : Option String)
      → Keeps (opened_upload env itoa p call repo path o)
  unfolding opened_upload
  opened_upload-Sized call repo path none s h = record { sized = h }
  opened_upload-Sized call repo path (some id) s h =
      let t : ProxyState = record { sys = (time_now env s.sys).1; sessions = s.sessions } in
      let opened : UploadSession = record {
        file = path;
        hashed = [];
        size = 0;
        last_used = env.now s.sys.history;
      } in
      record {
        sized =
            put_session-sized id opened (expire_idle_sessions env itoa p call.locked t).sessions
              refl (expire_idle_sessions-sized call.locked t h);
      }

  open_upload-Sized : (call : Call) (repo : String) → Keeps (open_upload env itoa p call repo)
  unfolding open_upload
  open_upload-Sized call repo s h =
      calling-Sized (staging_file env p.staging_dir) (λ _. answer (refused 500 "UNKNOWN"))
        (λ path. opened_upload env itoa p call repo path call.random_id) s h
        (λ e t k. record { sized = k }) (λ path. opened_upload-Sized call repo path call.random_id)

  upload_start-Sized : (call : Call) (repo : String) → Keeps (upload_start env itoa p call repo)
  unfolding upload_start upstream_repo
  upload_start-Sized call repo s h =
      handler-Sized (str_eq call.mount "") _ _ s (open_upload-Sized call repo s h) (
        calling-Sized (blob_exists env p.c (upstream_repo p repo) call.mount push)
          (λ e. answer (upstream_error e))
          (λ exists.
            if exists
            then answer (created repo "blobs" call.mount)
            else open_upload env itoa p call repo)
          s h (λ e t k. record { sized = k })
          (λ exists t k.
            handler-Sized exists _ _ t (record { sized = k }) (open_upload-Sized call repo t k)))

  handle-Sized : (call : Call) (r : Route) → Keeps (handle env itoa p call r)
  unfolding handle
  handle-Sized call (refuse status code) s h = record { sized = h }
  handle-Sized call version s h = record { sized = h }
  handle-Sized call (to_forward repo tail) s h = forward-Sized call repo tail s h
  handle-Sized call (to_manifest_put repo ref) s h = manifest_put-Sized call repo ref s h
  handle-Sized call (to_upload_start repo) s h = upload_start-Sized call repo s h
  handle-Sized call (to_upload_continue repo id) s h = record {
    sized = upload_continue-sized call repo id s h;
  }

  -- Every request to the proxy, whatever its outcome, keeps the size of each upload session equal to
  -- the number of bytes that the session has received.
  pub serve_http-sized :
      (call : Call) (s : ProxyState)
      → is_sized s.sessions ≡ true
      → is_sized (serve_http env itoa p call s).1.sessions ≡ true
  unfolding serve_http
  serve_http-sized call s h = (handle-Sized call (route call.method call.path) s h).sized
