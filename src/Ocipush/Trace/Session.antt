-- ===== src/Ocipush/Trace/Session.antt =====
-- The sessions of directpush.go, and `pushBlobFile` over both ways to upload a blob.
use contain.Base.{ℕ, zero, suc, ◌%◌, ◌≡◌, ◌≢◌, refl, sym, ◌∙◌, String, Bool, true, false}
use contain.Base.{not, ◌==◌, eq_refl}
use contain.Base.{Option, none, some, List, arith, if◌then◌else◌, length, get_elem?}
use contain.Ocipush.World.{Bytes, Descriptor, location, Response, Event, sent, Env, Result, ok, err}
use contain.Ocipush.World.{out_of_fuel, Sys, Exec, pure, ◌>>=◌, attempt, Error}
use contain.Ocipush.World.{Part, picked, plain, record_event}
use contain.Ocipush.World.{ext_commit, commit, push}
use contain.Ocipush.Errors.{is_expired, is_unsupported}
use contain.Ocipush.Client.{RegClient, json_post}
use contain.Ocipush.Direct.{Session, wants}
use contain.Ocipush.Direct.{pick, part_request}
use contain.Ocipush.Direct.{upload_part, run_parts, ext_upload_parts}
use contain.Ocipush.Direct.{finish_parts}
use contain.Ocipush.Direct.{commit_fields, ext_commit_upload, after_parts, ext_attempts}
use contain.Ocipush.Direct.{push_blob_ext, after_ext, try_direct_push, store_part, first_error}
use contain.Ocipush.Direct.{remove_at}
use contain.Ocipush.Trace.{session_item, blob_item, shows, present}
use contain.Ocipush.Trace.Run.{Always, Run, Run-coarsen, Run-step, Run-fail, Run-if}
use contain.Ocipush.Trace.Run.{Run-cond, Run-bind, Run-guard, Run-from_option, Run-wrap_err}
use contain.Ocipush.Trace.Run.{Run-after, IsPreorder}
use contain.Ocipush.Trace.Client.{is_quiet, Kept, Kept-IsPreorder, Kept-record_event}
use contain.Ocipush.Trace.Client.{Run-post_json}
use contain.Ocipush.Direct.{push_blob_file}
use contain.Ocipush.Client.{blob_put}
use contain.Ocipush.Trace.Client.{FileFits, FileFits-Kept, Run-blob_exists}
use contain.Ocipush.Trace.Upload.{Run-push_blob_standard}
use contain.Ocipush.Trace.Direct.{
  Sendable-Kept, Run-upload_part, Run-ext_start_session, Run-directpush_supported,
}

module _ (env : Env) (c : RegClient) (rule : Event → List Event → Bool)
    (quiet : (e : Event) (h : List Event) → is_quiet e ≡ true → rule e h ≡ true) where
  abbrev K : Sys → Sys → Type 0
  K = Kept env c rule

  abbrev pre : IsPreorder K
  pre = Kept-IsPreorder env c rule

  abbrev Sendable : Session → Bytes → Sys → Type 0
  Sendable = contain.Ocipush.Trace.Direct.Sendable env c rule quiet

  Run-finish_parts :
      (s : Sys) (failed : Option Error) (parts : List Part)
      → Run Always K s (finish_parts failed parts s) (λ _ _. Unit {0})
  unfolding finish_parts
  Run-finish_parts s none parts = Run-step parts (pre.reflexive s) tt
  Run-finish_parts s (some e) parts = Run-fail e (pre.reflexive s)

  Run-run_parts :
      (n : ℕ) (s : Sys) (session : Session) (d : Descriptor) (content : Bytes)
      (todo : List (ℕ × String)) (parts : List Part) (failed : Option Error)
      → Sendable session content s
      → Run Always K s (run_parts env n c session d content todo parts failed s) (λ _ _. Unit {0})
  unfolding run_parts pick
  Run-run_parts zero s session d content todo parts failed fine = Run-finish_parts s failed parts
  Run-run_parts (suc n) s session d content todo parts failed fine =
      let e = picked (env.choose s.history) in
      let k = env.choose s.history % length todo in
      let k₀ = Kept-record_event env c rule e s (quiet e s.history refl) in
      Run-after pre k₀ (
        Run-bind pre _ _ (Run-from_option pre (plain "no part") (get_elem? todo k))
          λ (i, url) t k₁ _.
            let fine₁ =
              Sendable-Kept env c rule quiet session content
                (pre.transitive s (record_event e s) t k₀ k₁) fine in
            let r = Run-upload_part env c rule quiet t session d content i url fine₁ in
            let out = upload_part env c session d content i url t in
            Run-after pre r.related (
              Run-run_parts n out.1 session d content (remove_at k todo) (store_part i out.0 parts)
                (first_error failed out.0)
                (Sendable-Kept env c rule quiet session content r.related fine₁)))

  module _ (Fits : String → Bytes → Type 0)
      (admits_part : (session : Session) (content : Bytes) (url : String) (offset len : ℕ)
          (digest : String) (answer : Option Response) (h : List Event)
        → Fits digest content
        → present env c.role h (session_item digest) ≡ true
        → rule (sent (part_request c session content url offset len) answer) h ≡ true)
      (repo : String) (d : Descriptor) where
    abbrev Held : Sys → Type 0
    Held t = present env c.role t.history (blob_item repo d.digest) ≡ true

    shows_committed :
        (session : Session) (parts : List Part) (res : Response)
        → (res.status == 200) ≡ true
        → shows env c.role (blob_item repo d.digest) (
            sent
              (json_post c repo ext_commit (commit (commit_fields repo d session parts)))
              (some res))
          ≡ true
    unfolding shows commit_fields
    shows_committed session parts res good = ground (arith, eq_refl repo, eq_refl d.digest)

    Run-ext_commit_upload :
        (s : Sys) (session : Session) (parts : List Part)
        → Run Always K s (ext_commit_upload env c repo d session parts s) (λ _ t. Held t)
    unfolding ext_commit_upload
    Run-ext_commit_upload s session parts =
        Run-bind pre _ _
          (Run-wrap_err _ _ (
            Run-post_json env c rule quiet s repo ext_commit
              (commit (commit_fields repo d session parts)) (λ a. refl)))
          λ res t _ shown.
            Run-coarsen (λ w k. k)
              (λ _ w k good.
                k.shown (blob_item repo d.digest)
                  (shown (blob_item repo d.digest) (shows_committed session parts res good)))
              (Run-guard pre (res.status == 200) _)

    -- A round of the loop of `pushBlobExt`, given what follows an error of the parts.
    Run-round :
        (s : Sys) (content : Bytes) (session : Session) (failed : Error → Exec (Unit {0}))
        → (session.doc.exists ≡ true → Held s)
        → Sendable session content s
        → ((e : Error) (t : Sys) → Run Always K t (failed e t) (λ _ u. Held u))
        → Run Always K s
            ((if session.doc.exists then pure tt else (do
              r ← attempt (ext_upload_parts env c session d content)
              after_parts env c repo d session r failed))
              s)
            (λ _ t. Held t)
    unfolding after_parts ext_upload_parts
    Run-round s content session failed found fine more =
        Run-if session.doc.exists _ _ (λ e. Run-step tt (pre.reflexive s) (found e))
          (λ _.
            let out = ext_upload_parts env c session d content s in
            Run-after pre (Run-run_parts _ s session d content _ _ none fine).related (
              by_outcome out.0 out.1 ((Run-run_parts _ s session d content _ _ none fine).ends tt)))
      where
        by_outcome :
            (r : Result (List Part)) (t : Sys)
            → r ≢ out_of_fuel
            → Run Always K t (after_parts env c repo d session r failed t) (λ _ u. Held u)
        by_outcome (ok parts) t _ = Run-ext_commit_upload t session parts
        by_outcome (err e) t _ = more e t
        by_outcome out_of_fuel t ended = absurd (ended refl)

    sendable :
        (session : Session) (content : Bytes) (s : Sys)
        → Fits d.digest content
        → present env c.role s.history (session_item d.digest) ≡ true
        → Sendable session content s
    sendable session content s fits opened url offset len t k answer =
        admits_part session content url offset len d.digest answer t.history fits
          (k.shown (session_item d.digest) opened)

    pub Run-ext_attempts :
        (n : ℕ) (s : Sys) (content : Bytes)
        → Fits d.digest content
        → Run Always K s (ext_attempts env n c repo d content s) (λ _ t. Held t)
    unfolding ext_attempts
    Run-ext_attempts zero s content fits =
        Run-bind pre _ _ (Run-ext_start_session env c rule quiet repo d s)
          λ session t _ (found, opened).
            Run-round t content session _ found (sendable session content t fits opened)
              (λ e u. Run-fail _ (pre.reflexive u))
    Run-ext_attempts (suc n) s content fits =
        Run-bind pre _ _ (Run-ext_start_session env c rule quiet repo d s)
          λ session t _ (found, opened).
            Run-round t content session _ found (sendable session content t fits opened) (λ e u.
              Run-if (is_expired e) _ _ (λ _. Run-ext_attempts n u content fits)
                (λ _. Run-fail _ (pre.reflexive u)))

    Run-push_blob_ext :
        (s : Sys) (path : String)
        → ((content : Bytes) → s.files path ≡ some content → Fits d.digest content)
        → Run Always K s (push_blob_ext env c repo d path s) (λ _ t. Held t)
    unfolding push_blob_ext
    Run-push_blob_ext s path fits =
        Run-bind pre _ _ (Run-from_option pre (plain "open") (s.files path))
          λ content t _ read. Run-ext_attempts 1 t content (fits content read)

    Run-after_ext :
        (s : Sys) (r : Result (Unit {0}))
        → ((u : Unit {0}) → r ≡ ok u → Held s)
        → r ≢ out_of_fuel
        → Run Always K s (after_ext r s) (λ handled t. handled ≡ true → Held t)
    unfolding after_ext
    Run-after_ext s (ok u) held _ = Run-step true (pre.reflexive s) (λ _. held u refl)
    Run-after_ext s (err e) held _ =
        Run-cond (is_unsupported e) _ _
          (λ _.
            Run-step false (record { obeys = λ h. h; shown = λ i h. h; same_files = λ p. refl })
              (λ h. absurd (cc)))
          (λ _. Run-fail e (pre.reflexive s))
    Run-after_ext s out_of_fuel held ended = absurd (ended refl)

    pub Run-try_direct_push :
        (s : Sys) (path : String)
        → ((content : Bytes) → s.files path ≡ some content → Fits d.digest content)
        → Run Always K s
            (try_direct_push env c repo d path s)
            (λ handled t. handled ≡ true → Held t)
    unfolding try_direct_push
    Run-try_direct_push s path fits =
        Run-if (not (wants c.ext d.size)) _ _
          (λ _. Run-step false (pre.reflexive s) (λ h. absurd (cc)))
          (λ _.
            Run-bind pre _ _ (Run-directpush_supported env c rule quiet s repo) λ supported t k _.
              Run-if (not supported) _ _ (λ _. Run-step false (pre.reflexive t) (λ h. absurd (cc)))
                (λ _.
                  let r =
                    Run-push_blob_ext t path
                      (λ content e. fits content (sym (k.same_files path) ∙ e)) in
                  let out = push_blob_ext env c repo d path t in
                  Run-after pre r.related (Run-after_ext out.1 out.0 r.returns (r.ends tt))))

module _ (env : Env) (c : RegClient) (rule : Event → List Event → Bool)
    (quiet : (e : Event) (h : List Event) → is_quiet e ≡ true → rule e h ≡ true)
    (Fits : String → Bytes → Type 0)
    (admits : (repo target : String) (d : Descriptor) (content : Bytes) (answer : Option Response)
        (h : List Event)
      → Fits d.digest content
      → rule (sent (blob_put c repo d (location target d.digest) content) answer) h ≡ true)
    (admits_part : (session : Session) (content : Bytes) (url : String) (offset len : ℕ)
        (digest : String) (answer : Option Response) (h : List Event)
      → Fits digest content
      → present env c.role h (session_item digest) ≡ true
      → rule (sent (part_request c session content url offset len) answer) h ≡ true)
    (repo : String) (d : Descriptor) (path : String) where
  abbrev K' : Sys → Sys → Type 0
  K' = Kept env c rule

  abbrev order : IsPreorder K'
  order = Kept-IsPreorder env c rule

  -- After a push of a blob that returns without an error, the registry has the blob.
  pub Run-push_blob_file :
      (s : Sys)
      → FileFits env c rule quiet Fits admits path d.digest s
      → Run Always K' s
          (push_blob_file env c repo d path s)
          (λ _ t. present env c.role t.history (blob_item repo d.digest) ≡ true)
  unfolding push_blob_file
  Run-push_blob_file s fits =
      Run-bind order _ _ (Run-blob_exists env c rule quiet s repo d.digest push) λ found t k held.
        Run-if found _ _ (λ e. Run-step tt (order.reflexive t) (held e))
          (λ _.
            Run-bind order _ _
              (Run-try_direct_push env c rule quiet Fits admits_part repo d t path
                (FileFits-Kept env c rule quiet Fits admits path d.digest k fits))
              λ handled u l direct.
                Run-if handled _ _ (λ e. Run-step tt (order.reflexive u) (direct e))
                  (λ _. Run-push_blob_standard env c rule quiet Fits admits repo d path u (
                    FileFits-Kept env c rule quiet Fits admits path d.digest
                      (order.transitive s t u k l) fits)))
