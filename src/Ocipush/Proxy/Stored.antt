-- ===== src/Ocipush/Proxy/Stored.antt =====
-- What the proxy acknowledges to its clients (proxy.go).
use contain.Base.{
  arith, leb, ltb, length, ℕ, ◌+◌, ◌≡◌, refl, String, Bool, true, false, ◌&&◌, not, ◌++◌,
}
use contain.Base.{◌==◌, if◌then◌else◌, some, ◌∷◌}
use contain.Ocipush.World.{
  Request, Response, sent, put, manifest, raw, write_file, Env, Sys, Bytes, Event, History, Result,
  ok, err, out_of_fuel, Error,
}
use contain.Ocipush.Staging.{disk_step}
use contain.Ocipush.Digest.{equal_fold}
use contain.Ocipush.Client.{
  RegClient, header, put_manifest, new_request, do_request, authorize, manifest_request,
}
use contain.Ocipush.Direct.{push_blob_file}
use contain.Ocipush.Proxy.{
  Proxy, UploadSession, ProxyState, Call, Reply, Handler, resume, drop_session, refused, replied,
}
use contain.Ocipush.Proxy.{
  put_session, receive, upload_put, commit_upload, upstream_error, manifest_put, upstream_repo,
}
use contain.Ocipush.Trace.{blob_item, present}
use contain.Ocipush.Trace.Client.{Run-transmit_last}
use contain.Ocipush.Trace.Run.{
  Any, Any-IsPreorder, Run-Any, Run, Run-bind, Run-step, Run-fail, Run-if, Run-wrap_err,
}
use contain.Ocipush.Trace.Session.{Run-push_blob_file}

-- A 201.
unfoldable pub is_created : Reply → Bool
is_created (replied status headers body) = status == 201
is_created _ = false

upstream_error-refuses : (e : Error) → is_created (upstream_error e) ≡ false
unfolding upstream_error is_created
upstream_error-refuses e = ground arith

module _ (env : Env) (itoa : ℕ → String) (p : Proxy) where
  abbrev free : Event → History → Bool
  free e h = true

  stored :
      (c : RegClient) (repo : String) (d : _) (path : String) (s : Sys) (u : Unit {0})
      → (push_blob_file env c repo d path s).0 ≡ ok u
      → present env c.role (push_blob_file env c repo d path s).1.history (blob_item repo d.digest)
        ≡ true
  stored c repo d path s u =
      (Run-push_blob_file env c free (λ _ _ _. refl) (λ _ _. Unit {0}) (λ _ _ _ _ _ _ _. refl)
          (λ _ _ _ _ _ _ _ _ _ _. refl) repo d path s (λ _ _. tt)).returns
        u

  -- The last exchange is an accepted PUT of the content as a manifest under a reference.
  abbrev pub IsAccepted : String → String → Bytes → History → Type 0
  IsAccepted repo ref bytes h =
      (earlier : History) × (req : Request) × (res : Response) × (h ≡ sent req (some res) ∷ earlier)
      × (req.role ≡ p.c.role)
      × (req.method ≡ put)
      × (req.url ≡ manifest repo ref)
      × (req.body ≡ raw bytes)
      × ((leb 200 res.status && leb res.status 299) ≡ true)

  put_manifest-IsAccepted :
      (repo : String) (bytes : Bytes) (media_type ref : String) (s : Sys) (u : Unit {0})
      → (put_manifest env p.c repo bytes media_type ref s).0 ≡ ok u
      → IsAccepted repo ref bytes (put_manifest env p.c repo bytes media_type ref s).1.history
  unfolding put_manifest do_request
  put_manifest-IsAccepted repo bytes media_type ref s u = whole.returns u
    where
      req : Request
      req = manifest_request p.c repo bytes media_type ref

      whole :
          Run ⊥ Any s
            (put_manifest env p.c repo bytes media_type ref s)
            (λ _ t. IsAccepted repo ref bytes t.history)
      whole =
          Run-bind Any-IsPreorder _ _ (Run-Any (new_request env (manifest repo ref) s)) λ _ t _ _.
            Run-bind Any-IsPreorder _ _
              (Run-wrap_err _ _ (
                Run-bind Any-IsPreorder _ _ (Run-Any (authorize env req.role req.auth t))
                  λ _ v _ _. Run-transmit_last env req v))
              λ res w _ (earlier, sent_last).
                Run-if (leb 200 res.status && leb res.status 299) _ _
                  (λ good.
                    Run-step tt tt (earlier, req, res, sent_last, refl, refl, refl, refl, good))
                  (λ _. Run-fail _ tt)

  -- An outcome that is acknowledged only where something holds of the history.
  record Honest (P : History → Type 0) (out : Reply × ProxyState) : Type 0 where
    honest : is_created out.0 ≡ true → P out.1.sys.history

  -- The upstream has shown that it holds a blob.
  abbrev Held : String → String → History → Type 0
  Held repo digest h = present env p.c.role h (blob_item repo digest) ≡ true

  -- The reply to a call that answers an error with `upstream_error`.
  resume-Honest :
      (r : Result (Unit {0})) (i : History → Type 0) (next : Reply) (s : ProxyState)
      → ((u : Unit {0}) → r ≡ ok u → i s.sys.history)
      → Honest i (resume r (λ e. λ t. (upstream_error e, t)) (λ _. λ t. (next, t)) s)
  unfolding is_created
  resume-Honest (ok u) i next s shown = record { honest = λ good. shown u refl }
  resume-Honest (err e) i next s shown = record {
    honest = λ good. absurd (let r = upstream_error-refuses e in cc);
  }
  resume-Honest out_of_fuel i next s shown = record { honest = λ good. absurd (cc) }

  if-Honest :
      (b : Bool) (i : History → Type 0) (x y : Reply × ProxyState)
      → Honest i x
      → Honest i y
      → Honest i (if b then x else y)
  if-Honest true i x y h k = h
  if-Honest false i x y h k = k

  handler-Honest :
      (b : Bool) (i : History → Type 0) (x y : Handler) (s : ProxyState)
      → Honest i (x s)
      → Honest i (y s)
      → Honest i ((if b then x else y) s)
  handler-Honest true i x y s h k = h
  handler-Honest false i x y s h k = k

  refused-Honest :
      (i : History → Type 0) (status : ℕ) (code : String) (s : ProxyState)
      → Honest i (refused status code, s)
  unfolding is_created
  refused-Honest i status code s = record { honest = λ good. absurd (cc) }

  -- A PUT of a manifest: a 201 means that the last exchange of the call is a PUT to the upstream of
  -- what the client has sent, under the reference, in the repository below the proxy's prefix, and
  -- that the upstream has accepted it.
  pub manifest_put-IsAccepted :
      (call : Call) (repo ref : String) (s : ProxyState)
      → is_created (manifest_put env itoa p call repo ref s).0 ≡ true
      → IsAccepted
          (upstream_repo p repo)
          ref
          call.body
          (manifest_put env itoa p call repo ref s).1.sys.history
  unfolding manifest_put
  manifest_put-IsAccepted call repo ref s =
      (handler-Honest (not call.complete && leb (length call.body) 33554432) _ _ _ s
        (refused-Honest _ 400 _ s)
        (handler-Honest (ltb 33554432 (length call.body)) _ _ _ s (refused-Honest _ 413 _ s) (
          resume-Honest _ (IsAccepted (upstream_repo p repo) ref call.body) _ _ (
            put_manifest-IsAccepted (upstream_repo p repo) call.body
              (header "Content-Type" call.headers) ref s.sys)))).honest

  commit_upload-Honest :
      (call : Call) (repo id : String) (u : UploadSession) (s : ProxyState)
      → Honest (Held (upstream_repo p repo) call.digest) (commit_upload env itoa p call repo id u s)
  unfolding commit_upload drop_session
  commit_upload-Honest call repo id u s = resume-Honest _ _ _ _ (
      stored p.c (upstream_repo p repo)
        (record { media_type = ""; digest = call.digest; size = u.size }) u.file s.sys)

  upload_put-Honest :
      (call : Call) (repo id : String) (u : UploadSession) (s : ProxyState)
      → Honest (Held (upstream_repo p repo) call.digest) (upload_put env itoa p call repo id u s)
  unfolding upload_put receive disk_step
  upload_put-Honest call repo id u s =
      let v : UploadSession = record u {
        hashed = u.hashed ++ call.body;
        size = u.size + length call.body;
      } in
      let t : ProxyState = record {
        sys =
            (disk_step env
              (write_file u.file (some (u.hashed ++ call.body)) (disk_step env s.sys).1)).1;
        sessions = put_session id v s.sessions;
      } in
      let failed : ProxyState = record { sys = (disk_step env s.sys).1; sessions = s.sessions } in
      if-Honest (call.complete && env.disk_ok s.sys.history) _ _ _
        (if-Honest (not (equal_fold call.digest (env.digest_of (u.hashed ++ call.body)))) _ _ _
          (refused-Honest _ 400 "DIGEST_INVALID" (
            drop_session id v (record {
              sys = write_file u.file (some (u.hashed ++ call.body)) (disk_step env s.sys).1;
              sessions = put_session id v s.sessions;
            })))
          (if-Honest (env.disk_ok _) _ _ _ (commit_upload-Honest call repo id v t)
            (refused-Honest _ 500 "UNKNOWN" (drop_session id v t))))
        (refused-Honest _ 400 "BLOB_UPLOAD_INVALID" (drop_session id u failed))

  -- The PUT that closes an upload: a 201 means that the upstream has shown that it holds the blob
  -- under the digest that the client declared, in the repository below the proxy's prefix.
  pub upload_put-stored :
      (call : Call) (repo id : String) (u : UploadSession) (s : ProxyState)
      → is_created (upload_put env itoa p call repo id u s).0 ≡ true
      → present env p.c.role
          (upload_put env itoa p call repo id u s).1.sys.history
          (blob_item (upstream_repo p repo) call.digest)
        ≡ true
  upload_put-stored call repo id u s = (upload_put-Honest call repo id u s).honest

  -- A blob that a client uploads in one session is acknowledged only if what the client has sent
  -- hashes to the digest that it declares, up to the case of its letters.
  pub upload_put-verified :
      (call : Call) (repo id : String) (u : UploadSession) (s : ProxyState)
      → is_created (upload_put env itoa p call repo id u s).0 ≡ true
      → equal_fold call.digest (env.digest_of (u.hashed ++ call.body)) ≡ true
  unfolding upload_put receive disk_step is_created
  upload_put-verified call repo id u s good = ground arith
