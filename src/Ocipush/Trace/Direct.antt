-- ===== src/Ocipush/Trace/Direct.antt =====
-- The direct upload of directpush.go, by the rules for runs.
use contain.Base.{ℕ, ◌+◌, ◌≡◌, refl, String, Bool, true, false}
use contain.Base.{◌&&◌, not, leb, ltb, ◌==◌, eq_refl}
use contain.Base.{Option, none, some, List, arith}
use contain.Ocipush.World.{Bytes, Descriptor, Response, Event, sent, Env, Result, ok, err}
use contain.Ocipush.World.{out_of_fuel, Sys}
use contain.Ocipush.World.{Request, clock, plain, presigned}
use contain.Ocipush.World.{ext_uploads, start, push, get, discover, SessionDoc}
use contain.Ocipush.World.{ext_unsupported}
use contain.Ocipush.Client.{RegClient, json_post, bare}
use contain.Ocipush.Direct.{Session, time_now, run_discovery, latch, directpush_supported}
use contain.Ocipush.Direct.{start_fields, open_session, hard_failure, ext_start_session}
use contain.Ocipush.Direct.{check_deadline, upload_part, part_request}
use contain.Ocipush.Direct.{part_offset, part_length, breaks_contract, advertises}
use contain.Ocipush.Trace.{session_item, blob_item, shows, present}
use contain.Ocipush.Trace.Run.{Always, Run, Run-weaken, Run-step, Run-fail, Run-if}
use contain.Ocipush.Trace.Run.{Run-cond, Run-bind, Run-guard, Run-from_option, Run-wrap_err}
use contain.Ocipush.Trace.Run.{Run-after, IsPreorder}
use contain.Ocipush.Trace.Client.{is_quiet, Kept, Kept-IsPreorder, Shown, Kept-record_event}
use contain.Ocipush.Trace.Client.{Run-new_request, Run-transmit, Run-do_request, Run-post_json}

module _ (env : Env) (c : RegClient) (rule : Event → List Event → Bool)
    (quiet : (e : Event) (h : List Event) → is_quiet e ≡ true → rule e h ≡ true) where
  abbrev K : Sys → Sys → Type 0
  K = Kept env c rule

  abbrev pre : IsPreorder K
  pre = Kept-IsPreorder env c rule

  Run-time_now : (s : Sys) → Run Always K s (time_now env s) (λ _ _. Unit {0})
  unfolding time_now
  Run-time_now s =
      let e = clock (env.now s.history) in
      Run-step (env.now s.history) (Kept-record_event env c rule e s (quiet e s.history refl)) tt

  Run-discovery :
      (s : Sys) (repo : String) → Run Always K s (run_discovery env c repo s) (λ _ _. Unit {0})
  unfolding run_discovery
  Run-discovery s repo = Run-bind pre _ _ (Run-new_request env c rule quiet s discover) λ _ t _ _.
      Run-bind pre _ _
        (Run-do_request env c rule quiet t req (λ u _ a. quiet (sent req a) u.history refl))
        λ res u _ _.
          Run-bind pre _ _ (Run-guard pre (res.status == 200) (plain "discover")) λ _ v _ _.
            Run-bind pre _ _ (Run-from_option pre (plain "decode") (env.parse_extensions res.body))
              λ exts w _ _. Run-step (advertises exts) (pre.reflexive w) tt
    where
      req : Request
      req = bare c.role (some (repo, push)) get discover

  Kept-latch : (r : Result Bool) (s t : Sys) → K s t → K s (latch r t)
  unfolding latch
  Kept-latch (ok true) s t k = record {
    obeys = k.obeys;
    shown = k.shown;
    same_files = k.same_files;
  }
  Kept-latch (ok false) s t k = k
  Kept-latch (err e) s t k = k
  Kept-latch out_of_fuel s t k = k

  pub Run-directpush_supported :
      (s : Sys) (repo : String)
      → Run Always K s (directpush_supported env c repo s) (λ _ _. Unit {0})
  unfolding directpush_supported
  Run-directpush_supported s repo =
      Run-cond s.discovered _ _ (λ _. Run-step s.usable (pre.reflexive s) tt)
        (λ _.
          let s₁ : Sys = record s { discovered = true } in
          let r = (Run-discovery s₁ repo).related in
          let k : K s (run_discovery env c repo s₁).1 = record {
            obeys = r.obeys;
            shown = r.shown;
            same_files = r.same_files;
          } in
          Run-step _
            (Kept-latch (run_discovery env c repo s₁).0 s (run_discovery env c repo s₁).1 k) tt)

  module _ (repo : String) (d : Descriptor) where
    abbrev pub Held : Sys → Type 0
    Held t = present env c.role t.history (blob_item repo d.digest) ≡ true

    -- A session was requested for the blob.
    abbrev pub Opened : Sys → Type 0
    Opened t = present env c.role t.history (session_item d.digest) ≡ true

    abbrev opening : Request
    opening = json_post c repo ext_uploads (start (start_fields c repo d))

    shows_existing :
        (res : Response) (doc : SessionDoc)
        → (res.status == 200) ≡ true
        → env.parse_session res.body ≡ some doc
        → doc.exists ≡ true
        → shows env c.role (blob_item repo d.digest) (sent opening (some res)) ≡ true
    unfolding shows start_fields
    shows_existing res doc good parsed found = ground (arith, eq_refl repo, eq_refl d.digest)

    shows_opened :
        (res : Response) → shows env c.role (session_item d.digest) (sent opening (some res)) ≡ true
    unfolding shows start_fields
    shows_opened res = ground (arith, eq_refl d.digest)

    Run-open_session :
        (s : Sys) (requested : ℕ) (res : Response)
        → (res.status == 200) ≡ true
        → Shown env c rule opening res s
        → Run Always K s
            (open_session env requested res s)
            (λ session t. (session.doc.exists ≡ true → Held t) × Opened t)
    unfolding open_session
    Run-open_session s requested res good shown =
        Run-bind pre _ _ (Run-from_option pre ext_unsupported (env.parse_session res.body))
          λ doc t k parsed.
            Run-if (breaks_contract doc) _ _ (λ _. Run-fail _ (pre.reflexive t))
              (λ _. Run-step _ (pre.reflexive t) (
                (λ found.
                    k.shown (blob_item repo d.digest)
                      (shown (blob_item repo d.digest) (shows_existing res doc good parsed found))),
                k.shown (session_item d.digest) (shown (session_item d.digest) (shows_opened res)),
              ))

    pub Run-ext_start_session :
        (s : Sys)
        → Run Always K s
            (ext_start_session env c repo d s)
            (λ session t. (session.doc.exists ≡ true → Held t) × Opened t)
    unfolding ext_start_session
    Run-ext_start_session s =
        let now = time_now env s in
        let k = (Run-time_now s).related in
        Run-after pre k (
          Run-bind pre _ _
            (Run-wrap_err _ _ (
              Run-post_json env c rule quiet now.1 repo ext_uploads (start (start_fields c repo d))
                (λ a. refl)))
            λ res t _ shown.
              Run-if (res.status == 200) _ _ (λ good. Run-open_session t _ res good shown)
                (λ _.
                  Run-if (res.status == 501) _ _ (λ _. Run-fail _ (pre.reflexive t))
                    (λ _.
                      Run-if (hard_failure res.status) _ _ (λ _. Run-fail _ (pre.reflexive t))
                        (λ _. Run-fail _ (pre.reflexive t)))))

  Run-check_deadline :
      (s : Sys) (deadline : Option ℕ)
      → Run Always K s (check_deadline env deadline s) (λ _ _. Unit {0})
  unfolding check_deadline
  Run-check_deadline s none = Run-step tt (pre.reflexive s) tt
  Run-check_deadline s (some deadline) =
      let k = (Run-time_now s).related in
      Run-after pre k
        (Run-weaken (λ _ _ _. tt) (Run-guard pre (not (ltb deadline (env.now s.history))) _))

  -- The sections of a content may go up in a session, from a state on.
  abbrev pub Sendable : Session → Bytes → Sys → Type 0
  Sendable session content s =
      (url : String) (offset len : ℕ) (t : Sys)
      → K s t
      → (answer : Option Response)
      → rule (sent (part_request c session content url offset len) answer) t.history ≡ true

  pub Sendable-Kept :
      (session : Session) (content : Bytes) {s t : Sys}
      → K s t
      → Sendable session content s
      → Sendable session content t
  Sendable-Kept session content {s} {t} k fine url offset len u l =
      fine url offset len u (pre.transitive s t u k l)

  pub Run-upload_part :
      (s : Sys) (session : Session) (d : Descriptor) (content : Bytes) (i : ℕ) (url : String)
      → Sendable session content s
      → Run Always K s (upload_part env c session d content i url s) (λ p _. p.number ≡ i + 1)
  unfolding upload_part
  Run-upload_part s session d content i url fine =
      let offset = part_offset session.doc.part_size i in
      let len = part_length session.doc.part_size d.size i in
      Run-bind pre _ _ (Run-guard pre (not (len == 0)) (plain "part: no data")) λ _ t k₁ _.
        Run-bind pre _ _ (Run-check_deadline t session.deadline) λ _ u k₂ _.
          Run-bind pre _ _ (Run-new_request env c rule quiet u (presigned url)) λ _ v k₃ _.
            Run-bind pre _ _
              (Run-wrap_err _ _ (
                Run-transmit env c rule quiet v (part_request c session content url offset len)
                  (fine url offset len v (pre.transitive s u v (pre.transitive s t u k₁ k₂) k₃))))
              λ res w _ _.
                Run-if (res.status == 403) _ _ (λ _. Run-fail _ (pre.reflexive w))
                  (λ _.
                    Run-if (leb 200 res.status && leb res.status 299) _ _
                      (λ _. Run-step _ (pre.reflexive w) refl) (λ _. Run-fail _ (pre.reflexive w)))
