-- ===== src/Ocipush/Proxy/Sessions.antt =====
-- The upload sessions of the proxy (proxy.go), and the PUT that closes one.
use contain.Base.{ℕ, ◌≡◌, refl, String, Bool, true, false, ◌&&◌, not, List, [], ◌∷◌}
use contain.Base.{if◌then◌else◌, none, lookup, str_eq}
use contain.Ocipush.World.{Env, Result, ok, err, out_of_fuel, Error}
use contain.Ocipush.Staging.{disk_step}
use contain.Ocipush.Digest.{equal_fold}
use contain.Ocipush.Proxy.{upstream_error, created, refused}
use contain.Ocipush.Proxy.{
  Proxy, UploadSession, ProxyState, Call, Reply, Handler, resume, remove_session, drop_session,
}
use contain.Ocipush.Proxy.{receive, upload_put, commit_upload}

remove_from :
    (id k : String) (u : UploadSession) (m : List (String × UploadSession)) (b : Bool)
    → str_eq k id ≡ b
    → lookup id m ≡ none
    → lookup id (if b then m else (k, u) ∷ m) ≡ none
remove_from id k u m true e h = h
remove_from id k u m false e h = rw (lookup, e) h

lookup-remove_session :
    (id : String) (m : List (String × UploadSession)) → lookup id (remove_session id m) ≡ none
unfolding remove_session
lookup-remove_session id [] = refl
lookup-remove_session id ((k, u) ∷ m) =
    remove_from id k u (remove_session id m) (str_eq k id) refl (lookup-remove_session id m)

-- No session goes by the id.
record Gone (id : String) (out : Reply × ProxyState) : Type 0 where
  gone : lookup id out.1.sessions ≡ none

resume-Gone :
    {A : Type 0} (r : Result A) (id : String) (failed : Error → Reply) (next : A → Reply)
    (s : ProxyState)
    → lookup id s.sessions ≡ none
    → Gone id (resume r (λ e. λ t. (failed e, t)) (λ a. λ t. (next a, t)) s)
resume-Gone (ok a) id failed next s h = record { gone = h }
resume-Gone (err e) id failed next s h = record { gone = h }
resume-Gone out_of_fuel id failed next s h = record { gone = h }

if-Gone :
    (b : Bool) (id : String) (x y : Reply × ProxyState)
    → Gone id x
    → Gone id y
    → Gone id (if b then x else y)
if-Gone true id x y h k = h
if-Gone false id x y h k = k

drop_session-Gone :
    (id : String) (u : UploadSession) (s : ProxyState) (r : Reply)
    → Gone id (r, drop_session id u s)
unfolding drop_session
drop_session-Gone id u s r = record { gone = lookup-remove_session id s.sessions }

module _ (env : Env) (itoa : ℕ → String) (p : Proxy) where
  commit_upload-Gone :
      (call : Call) (repo id : String) (u : UploadSession) (s : ProxyState)
      → Gone id (commit_upload env itoa p call repo id u s)
  unfolding commit_upload drop_session
  commit_upload-Gone call repo id u s =
      resume-Gone _ id upstream_error (λ _. created repo "blobs" call.digest) _
        (lookup-remove_session id s.sessions)

  receive-Gone :
      (call : Call) (id : String) (u : UploadSession) (next : UploadSession → Handler)
      (s : ProxyState)
      → ((v : UploadSession) (t : ProxyState) → Gone id (next v t))
      → Gone id (receive env itoa p call id u next s)
  unfolding receive disk_step
  receive-Gone call id u next s after =
      if-Gone (call.complete && env.disk_ok s.sys.history) id _ _ (after _ _)
        (drop_session-Gone id u _ _)

  upload_put-Gone :
      (call : Call) (repo id : String) (u : UploadSession) (s : ProxyState)
      → Gone id (upload_put env itoa p call repo id u s)
  unfolding upload_put disk_step
  upload_put-Gone call repo id u s = receive-Gone call id u _ s λ v t.
      if-Gone (not (equal_fold call.digest (env.digest_of v.hashed))) id _ _
        (drop_session-Gone id v t (refused 400 "DIGEST_INVALID"))
        (if-Gone (env.disk_ok t.sys.history) id _ _
          (commit_upload-Gone call repo id v
            (record { sys = (disk_step env t.sys).1; sessions = t.sessions }))
          (drop_session-Gone id v (record { sys = (disk_step env t.sys).1; sessions = t.sessions })
            (refused 500 "UNKNOWN")))

  -- The PUT that closes an upload ends its session, whether the body breaks off, the digest is not
  -- the client's, the file does not close, or the upstream fails or accepts.
  pub upload_put-ends_session :
      (call : Call) (repo id : String) (u : UploadSession) (s : ProxyState)
      → lookup id (upload_put env itoa p call repo id u s).1.sessions ≡ none
  upload_put-ends_session call repo id u s = (upload_put-Gone call repo id u s).gone
