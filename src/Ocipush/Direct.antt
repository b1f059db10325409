-- ===== src/Ocipush/Direct.antt =====
-- directpush.go: the optional extension that uploads a blob straight to object storage.
pub mod Parts
pub mod Numbers
use contain.Base.{ℕ, zero, suc, ◌+◌, ◌-◌, ◌*◌, ◌%◌, ◌^◌, min, String, ◌<>◌, Bool, true, false}
use contain.Base.{◌&&◌, ◌||◌, not, Option, none, some, List, [], ◌∷◌, str_eq, ltb, leb, ◌==◌}
use contain.Base.{if◌then◌else◌, length, get_elem?, set, replicate, any}
use contain.Ocipush.World.{Bytes, Descriptor, Scope, push, Method, get, put, post, Url, discover}
use contain.Ocipush.World.{
  ext_uploads, ext_commit, presigned, Part, StartFields, CommitFields, part, start, commit,
}
use contain.Ocipush.World.{Request, Response, SessionDoc, Env, Error, clock, picked}
use contain.Ocipush.World.{ext_unsupported, ext_expired, plain, plain_status, wrapped}
use contain.Ocipush.World.{Result, ok, err, out_of_fuel, Sys, Exec, pure, raise, ◌>>=◌, ◌>>◌}
use contain.Ocipush.World.{attempt, give, wrap_err, from_option, guard, gets, record_event}
use contain.Ocipush.Errors.{error_body, is_expired, is_unsupported}
use contain.Ocipush.Client.{DirectPush, RegClient, bare, header, new_request, transmit, do_request}
use contain.Ocipush.Client.{open_file, post_json, blob_exists, push_blob_standard}

-- `(*directPush).wants`: a client with no extension never wants it
unfoldable pub wants : Option DirectPush → ℕ → Bool
wants none size = false
wants (some e) size = leb e.threshold size

-- The loop over `doc.Extensions`: whether one is `_directpush` with the uploads endpoint.
unfoldable pub advertises : List (String × List String) → Bool
advertises =
    any λ ext. str_eq ext.0 "_directpush" && any (λ e. str_eq e "_directpush/v1/uploads") ext.1

-- `extStartResponse` with its deadline, in nanoseconds.
pub record Session : Type 0 where
  pub doc : SessionDoc
  pub deadline : Option ℕ

abbrev pub second : ℕ
second = 10 ^ 9

-- The extent of part `i`, counted from 0.
unfoldable pub part_offset : ℕ → ℕ → ℕ
part_offset part_size i = i * part_size

unfoldable pub part_length : ℕ → ℕ → ℕ → ℕ
unfolding part_offset
part_length part_size size i = min part_size (size - part_offset part_size i)

-- The part of a list without its element at an index.
unfoldable pub remove_at {ℓ} : {A : Type ℓ} → ℕ → List A → List A
remove_at i [] = []
remove_at zero (x ∷ xs) = xs
remove_at (suc i) (x ∷ xs) = x ∷ remove_at i xs

-- `len(urls) == 0 || partSize <= 0` on a session that does not say that the blob exists
unfoldable pub breaks_contract : SessionDoc → Bool
breaks_contract doc = not doc.exists && (length doc.urls == 0 || doc.part_size == 0)

-- The parts that are still to be uploaded, by their index.
abbrev number_from : ℕ → List String → List (ℕ × String)
number_from i [] = []
number_from i (u ∷ us) = (i, u) ∷ number_from (i + 1) us

abbrev pub part_request : RegClient → Session → Bytes → String → ℕ → ℕ → Request
part_request c session content url offset len = record {
  role = c.role;
  auth = none;
  method = put;
  url = presigned url;
  headers = session.doc.headers;
  body = part content offset len;
  content_length = some len;
}

-- What the discovery leaves behind; a failure leaves the extension off.
unfoldable pub latch : Result Bool → Sys → Sys
latch (ok true) s = record s { usable = true }
latch _ s = s

unfoldable pub start_fields : RegClient → String → Descriptor → StartFields
start_fields c repo d = record {
  repository = repo;
  digest = d.digest;
  size = d.size;
  part_size = elim c.ext [
    | none ↦ none
    | some e ↦ if e.part_size == 0 then none else some e.part_size
  ];
}

unfoldable pub hard_failure : ℕ → Bool
hard_failure status = status == 401 || status == 403 || status == 400 || leb 500 status

-- `errgroup` keeps the first error; a part that succeeds writes its own slot.
unfoldable pub store_part : ℕ → Result Part → List Part → List Part
store_part i (ok p) parts = set parts i p
store_part i _ parts = parts

unfoldable pub first_error : Option Error → Result Part → Option Error
first_error (some e) r = some e
first_error none (err e) = some e
first_error none (ok p) = none
first_error none out_of_fuel = some (plain "out of fuel")

unfoldable pub finish_parts : Option Error → List Part → Exec (List Part)
finish_parts none parts = pure parts
finish_parts (some e) parts = raise e

unfoldable pub commit_fields : String → Descriptor → Session → List Part → CommitFields
commit_fields repo d session parts = record {
  repository = repo;
  digest = d.digest;
  size = d.size;
  key = session.doc.key;
  upload = if str_eq session.doc.upload_id "" then none else some (session.doc.upload_id, parts);
}

-- The error of `pushBlobExt`: an unsupported extension is latched off and no error.
unfoldable pub after_ext : Result (Unit {0}) → Exec Bool
after_ext (ok _) s = (ok true, s)
after_ext (err e) s =
    if is_unsupported e then (ok false, record s { usable = false }) else (err e, s)
after_ext out_of_fuel s = (out_of_fuel, s)

abbrev pub blank_part : Part
blank_part = record { number = 0; etag = "" }

module _ (env : Env) where
  -- `time.Now()`
  unfoldable pub time_now : Exec ℕ
  time_now s = let t = env.now s.history in (ok t, record_event (clock t) s)

  unfoldable pub run_discovery : RegClient → String → Exec Bool
  run_discovery c repo = do
    new_request env discover
    res ← do_request env (bare c.role (some (repo, push)) get discover)
    guard (res.status == 200) (plain "discover")
    exts ← from_option (plain "decode") (env.parse_extensions res.body)
    pure (advertises exts)

  -- `discoverOnce.Do` and then `usable.Load`
  unfoldable pub directpush_supported : RegClient → String → Exec Bool
  unfolding run_discovery latch new_request do_request advertises
  directpush_supported c repo s =
      if s.discovered
      then (ok s.usable, s)
      else (let s₁ = record s { discovered = true } in
          let r = run_discovery c repo s₁ in let s₂ = latch r.0 r.1 in (ok s₂.usable, s₂))

  -- The session that an answer of 200 holds.
  unfoldable pub open_session : ℕ → Response → Exec Session
  open_session requested res = do
    doc ← from_option ext_unsupported (env.parse_session res.body)
    if breaks_contract doc
        then raise ext_unsupported
        else pure (record {
          doc = doc;
          deadline =
              if doc.expires_seconds == 0
              then none
              else some (requested + doc.expires_seconds * second);
        })

  unfoldable pub ext_start_session : RegClient → String → Descriptor → Exec Session
  unfolding time_now post_json start_fields open_session hard_failure breaks_contract
  ext_start_session c repo d = do
    requested ← time_now
    res ←
        wrap_err (wrapped "direct upload start")
          (post_json env c repo ext_uploads (start (start_fields c repo d)))
    if res.status == 200
        then open_session requested res
        else if res.status == 501
        then raise ext_unsupported
        else if hard_failure res.status
        then raise (plain_status "direct upload start" res.status (error_body res))
        else raise ext_unsupported

  -- A part must begin before the session's deadline, where it has one.
  unfoldable pub check_deadline : Option ℕ → Exec (Unit {0})
  unfolding time_now
  check_deadline none = pure tt
  check_deadline (some deadline) = do
    t ← time_now
    guard (not (ltb deadline t)) (wrapped "part" ext_expired)

  -- The function that the errgroup runs for part `i`.
  unfoldable pub upload_part : RegClient → Session → Descriptor → Bytes → ℕ → String → Exec Part
  unfolding check_deadline new_request transmit header part_length
  upload_part c session d content i url = do
    let offset = part_offset session.doc.part_size i
    let len = part_length session.doc.part_size d.size i
    guard (not (len == 0)) (plain "part: no data")
    check_deadline session.deadline
    new_request env (presigned url)
    res ← wrap_err (wrapped "part") (transmit env (part_request c session content url offset len))
    if res.status == 403
        then raise (wrapped "part" ext_expired)
        else if leb 200 res.status && leb res.status 299
        then pure (record { number = i + 1; etag = header "ETag" res.headers })
        else raise (plain_status "part" res.status (error_body res))

  -- Which of the remaining parts completes next.
  unfoldable pub pick : ℕ → Exec ℕ
  pick n s = let k = env.choose s.history in (ok (k % n), record_event (picked k) s)

  -- The parts complete in an order that the world chooses. The count bounds the rounds.
  unfoldable pub run_parts :
      ℕ
      → RegClient
      → Session
      → Descriptor
      → Bytes
      → List (ℕ × String)
      → List Part
      → Option Error
      → Exec (List Part)
  unfolding pick finish_parts
  run_parts zero c session d content todo parts failed = finish_parts failed parts
  run_parts (suc n) c session d content todo parts failed =
      let next = λ (i k : ℕ) (r : Result Part).
        run_parts n c session d content (remove_at k todo) (store_part i r parts)
          (first_error failed r) in
      do
        k ← pick (length todo)
        (i, url) ← from_option (plain "no part") (get_elem? todo k)
        r ← attempt (upload_part c session d content i url)
        next i k r

  unfoldable pub ext_upload_parts : RegClient → Session → Descriptor → Bytes → Exec (List Part)
  ext_upload_parts c session d content =
      let urls = session.doc.urls in
      run_parts (length urls) c session d content (number_from 0 urls)
        (replicate (length urls) blank_part) none

  unfoldable pub ext_commit_upload :
      RegClient → String → Descriptor → Session → List Part → Exec (Unit {0})
  unfolding commit_fields post_json
  ext_commit_upload c repo d session parts = do
    res ←
        wrap_err (wrapped "direct upload commit")
          (post_json env c repo ext_commit (commit (commit_fields repo d session parts)))
    guard (res.status == 200)
        (plain_status ("direct upload commit " <> d.digest) res.status (error_body res))

  -- What follows the upload of the parts: the commit, a fresh session, or the error.
  unfoldable pub after_parts :
      RegClient
      → String
      → Descriptor
      → Session
      → Result (List Part)
      → (Error → Exec (Unit {0}))
      → Exec (Unit {0})
  unfolding ext_commit_upload
  after_parts c repo d session (ok parts) failed = ext_commit_upload c repo d session parts
  after_parts c repo d session (err e) failed = failed e
  after_parts c repo d session out_of_fuel failed = give out_of_fuel

  -- The loop of `pushBlobExt`, with the fresh sessions that it may still ask for.
  unfoldable pub ext_attempts : ℕ → RegClient → String → Descriptor → Bytes → Exec (Unit {0})
  unfolding after_parts
  ext_attempts zero c repo d content = do
    session ← ext_start_session c repo d
    if session.doc.exists then pure tt else do
      r ← attempt (ext_upload_parts c session d content)
      after_parts c repo d session r (λ e. raise (wrapped ("direct upload " <> d.digest) e))
  ext_attempts (suc n) c repo d content =
      let again = ext_attempts n c repo d content in
      do
        session ← ext_start_session c repo d
        if session.doc.exists then pure tt else do
          r ← attempt (ext_upload_parts c session d content)
          after_parts c repo d session r
              λ e. if is_expired e then again else raise (wrapped ("direct upload " <> d.digest) e)

  abbrev ext_session_retries : ℕ
  ext_session_retries = 1

  unfoldable pub push_blob_ext : RegClient → String → Descriptor → String → Exec (Unit {0})
  unfolding ext_attempts open_file
  push_blob_ext c repo d path = do
    content ← open_file env path
    ext_attempts ext_session_retries c repo d content

  unfoldable pub try_direct_push : RegClient → String → Descriptor → String → Exec Bool
  unfolding after_ext directpush_supported
  try_direct_push c repo d path = if not (wants c.ext d.size) then pure false else do
    supported ← directpush_supported c repo
    if not supported then pure false else do r ← attempt (push_blob_ext c repo d path); after_ext r

  -- client.go: upload the blob unless it is there, large ones through the extension.
  unfoldable pub push_blob_file : RegClient → String → Descriptor → String → Exec (Unit {0})
  push_blob_file c repo d path = do
    found ← blob_exists env c repo d.digest push
    if found then pure tt else do
      handled ← try_direct_push c repo d path
      if handled then pure tt else push_blob_standard env c repo d path
