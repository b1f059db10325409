-- ===== src/Ocipush/Trace/Client.antt =====
-- What the methods of client.go keep and show, for any rule on exchanges that says nothing of the
-- quiet ones, and admits an upload whose content fits.
use contain.Base.{◌≡◌, refl, ◌∙◌, sym, String, ◌<>◌, Bool, true, false, ◌&&◌, not}
use contain.Base.{Option, none, some, List, ◌∷◌, arith, leb, ◌==◌, str_eq, eq_refl}
use contain.Base.{||_right, &&_both}
use contain.Ocipush.World.{Bytes, Descriptor, Role, Scope, push, head, post, Url, blob}
use contain.Ocipush.World.{
  uploads, manifest, location, presigned, Body, Request, Response, Event, sent,
}
use contain.Ocipush.World.{authenticated, context, Env, retryable, plain, wrapped}
use contain.Ocipush.World.{Sys, ◌>>=◌, History, ok}
use contain.Ocipush.World.{wrap_err, from_option, guard, record_event}
use contain.Ocipush.Errors.{status_error}
use contain.Ocipush.Client.{RegClient, bare, has_client, header, new_request, ctx_err, transmit}
use contain.Ocipush.Client.{blob_put, json_post, manifest_request, put_manifest}
use contain.Ocipush.Client.{client, authorize, do_request, blob_exists, resolve_location, open_file}
use contain.Ocipush.Client.{put_blob_once, post_json}
use contain.Ocipush.Trace.{
  Item, blob_item, manifest_item, is_put, shows, present, audit, present-cons,
}
use contain.Ocipush.Trace.Run.{
  Always, IsPreorder, Run, Run-weaken, Run-step, Run-fail, Run-if, Run-cond,
}
use contain.Ocipush.Trace.Run.{Run-wrap_err, Run-bind, Run-guard, Run-from_option}
use contain.Ocipush.Trace.Run.{Run-coarsen, Any}

-- Neither the upload of a manifest nor that of a blob's content or of a part of it.
abbrev pub is_quiet : Event → Bool
is_quiet e = elim e [
  | sent req _ ↦ elim req.url [
    | manifest _ _ ↦ not (is_put req.method)
    | location _ _ ↦ false
    | presigned _ ↦ false
    | _ ↦ true
  ]
  | _ ↦ true
]

-- A request that is answered is the last exchange.
pub Run-transmit_last :
    (env : Env) (req : Request) (s : Sys)
    → Run ⊥ Any s
        (transmit env req s)
        λ res t. (h : History) × (t.history ≡ sent req (some res) ∷ h)
unfolding transmit
Run-transmit_last env req s = record {
  related = tt;
  returns = λ res e. (s.history, go res (env.respond s.history req) e);
  ends = λ x. absurd x;
}
  where
    go :
        (res : Response) (answer : Option Response)
        → (from_option (plain "transport") answer (record_event (sent req answer) s)).0 ≡ ok res
        → (from_option (plain "transport") answer (record_event (sent req answer) s)).1.history
          ≡ sent req (some res) ∷ s.history
    go res none e = absurd (cc)
    go res (some r) e = cc

module _ (env : Env) (c : RegClient) (rule : Event → List Event → Bool) where
  -- The history goes on by the rule and shows no less; the files stay.
  pub record Kept (s t : Sys) : Type 0 where
    pub obeys : audit rule s.history ≡ true → audit rule t.history ≡ true
    pub shown :
        (i : Item) → present env c.role s.history i ≡ true → present env c.role t.history i ≡ true
    pub same_files : (path : String) → t.files path ≡ s.files path

  pub Kept-IsPreorder : IsPreorder Kept
  Kept-IsPreorder = record {
    reflexive = λ s. record { obeys = λ h. h; shown = λ i h. h; same_files = λ path. refl };
    transitive = λ s t u r q. record {
      obeys = λ h. q.obeys (r.obeys h);
      shown = λ i h. q.shown i (r.shown i h);
      same_files = λ path. q.same_files path ∙ r.same_files path;
    };
  }

  -- An exchange that obeys the rule.
  pub Kept-record_event :
      (e : Event) (s : Sys) → rule e s.history ≡ true → Kept s (record_event e s)
  unfolding audit present
  Kept-record_event e s r = record {
    obeys = λ h. &&_both (rule e s.history) _ r h;
    shown = λ i h. ||_right (shows env c.role i e) _ h;
    same_files = λ path. refl;
  }

  -- The items that an answered request shows are present.
  abbrev pub Shown : Request → Response → Sys → Type 0
  Shown req res t =
      (i : Item)
      → shows env c.role i (sent req (some res)) ≡ true
      → present env c.role t.history i ≡ true

  module _ (quiet : (e : Event) (h : List Event) → is_quiet e ≡ true → rule e h ≡ true) where
    pub Run-new_request :
        (s : Sys) (url : Url) → Run Always Kept s (new_request env url s) (λ _ _. Unit {0})
    unfolding new_request
    Run-new_request s url =
        Run-weaken (λ _ _ _. tt)
          (Run-guard Kept-IsPreorder (env.valid_url url) (plain "new request"))

    Run-client :
        (s : Sys) (role : Role) (repo : String) (scope : Scope)
        → Run Always Kept s (client env role repo scope s) (λ _ _. Unit {0})
    unfolding client
    Run-client s role repo scope =
        let granted = env.grant s.history role repo scope in
        let e = authenticated role repo scope granted in
        let k = Kept-record_event e s (quiet e s.history refl) in
        Run-cond (has_client role repo scope s.clients) _ _
          (λ _. Run-step tt (Kept-IsPreorder.reflexive s) tt)
          (λ _.
            Run-cond granted _ _
              (λ _.
                Run-step tt (record { obeys = k.obeys; shown = k.shown; same_files = k.same_files })
                  tt)
              (λ _. Run-fail _ k))

    pub Run-ctx_err : (s : Sys) → Run Always Kept s (ctx_err env s) (λ _ _. Unit {0})
    unfolding ctx_err
    Run-ctx_err s =
        let e = context (env.cancelled s.history) in
        Run-step (env.cancelled s.history) (Kept-record_event e s (quiet e s.history refl)) tt

    -- A request that obeys the rule whenever it is sent from here on, and whatever the answer.
    pub Run-transmit :
        (s : Sys) (req : Request)
        → ((answer : Option Response) → rule (sent req answer) s.history ≡ true)
        → Run Always Kept s (transmit env req s) (Shown req)
    unfolding transmit
    Run-transmit s req fine = go (env.respond s.history req)
      where
        go :
            (answer : Option Response)
            → Run Always Kept s
                (from_option (plain "transport") answer (record_event (sent req answer) s))
                (Shown req)
        go none = Run-fail _ (Kept-record_event (sent req none) s (fine none))
        go (some res) =
            Run-step res (Kept-record_event (sent req (some res)) s (fine (some res)))
              (λ i h. present-cons env c.role (sent req (some res)) s.history i h)

    Run-authorize :
        (s : Sys) (role : Role) (auth : Option (String × Scope))
        → Run Always Kept s (authorize env role auth s) (λ _ _. Unit {0})
    unfolding authorize
    Run-authorize s role none = Run-step tt (Kept-IsPreorder.reflexive s) tt
    Run-authorize s role (some (repo, scope)) = Run-client s role repo scope

    pub Run-do_request :
        (s : Sys) (req : Request)
        → ((t : Sys)
            → Kept s t
            → (answer : Option Response) → rule (sent req answer) t.history ≡ true)
        → Run Always Kept s (do_request env req s) (Shown req)
    unfolding do_request
    Run-do_request s req fine =
        Run-bind Kept-IsPreorder _ _ (Run-authorize s req.role req.auth)
          (λ _ t k _. Run-transmit t req (fine t k))

    pub Run-blob_exists :
        (s : Sys) (repo digest : String) (scope : Scope)
        → Run Always Kept s
            (blob_exists env c repo digest scope s)
            (λ found t. found ≡ true → present env c.role t.history (blob_item repo digest) ≡ true)
    unfolding blob_exists shows
    Run-blob_exists s repo digest scope =
        Run-bind Kept-IsPreorder _ _ (Run-new_request s (blob repo digest)) λ _ t _ _.
          Run-bind Kept-IsPreorder _ _
            (Run-wrap_err _ _ (Run-do_request t req (λ u _ a. quiet (sent req a) u.history refl)))
            λ res u _ shown.
              Run-if (res.status == 200) _ _
                (λ same.
                  Run-step true (Kept-IsPreorder.reflexive u)
                    (λ _. shown (blob_item repo digest) (shows_head res same)))
                (λ _.
                  Run-if (res.status == 404) _ _
                    (λ _. Run-step false (Kept-IsPreorder.reflexive u) (λ h. absurd (cc)))
                    (λ _. Run-fail _ (Kept-IsPreorder.reflexive u)))
      where
        req : Request
        req = bare c.role (some (repo, scope)) head (blob repo digest)

        shows_head :
            (res : Response)
            → (res.status == 200) ≡ true
            → shows env c.role (blob_item repo digest) (sent req (some res)) ≡ true
        shows_head res same = ground (arith, eq_refl repo, eq_refl digest)

    pub Run-post_json :
        (s : Sys) (repo : String) (url : Url) (body : Body)
        → ((answer : Option Response) → is_quiet (sent (json_post c repo url body) answer) ≡ true)
        → Run Always Kept s (post_json env c repo url body s) (Shown (json_post c repo url body))
    unfolding post_json
    Run-post_json s repo url body calm =
        Run-bind Kept-IsPreorder _ _ (Run-new_request s url) λ _ t _ _.
          Run-do_request t (json_post c repo url body)
            (λ u _ a. quiet (sent (json_post c repo url body) a) u.history (calm a))

    -- The upload of a manifest, where the rule admits it.
    pub Run-put_manifest :
        (s : Sys) (repo : String) (bytes : Bytes) (media_type ref : String)
        → ((t : Sys)
            → Kept s t
            → (answer : Option Response)
            → rule (sent (manifest_request c repo bytes media_type ref) answer) t.history ≡ true)
        → Run Always Kept s
            (put_manifest env c repo bytes media_type ref s)
            (λ _ t. present env c.role t.history (manifest_item repo ref) ≡ true)
    unfolding put_manifest shows
    Run-put_manifest s repo bytes media_type ref fine =
        Run-bind Kept-IsPreorder _ _ (Run-new_request s (manifest repo ref)) λ _ t k _.
          Run-bind Kept-IsPreorder _ _
            (Run-wrap_err _ _
              (Run-do_request t req (λ u l. fine u (Kept-IsPreorder.transitive s t u k l))))
            λ res u _ shown.
              Run-if (leb 200 res.status && leb res.status 299) _ _
                (λ good.
                  Run-step tt (Kept-IsPreorder.reflexive u)
                    (shown (manifest_item repo ref) (shows_put res good)))
                (λ _. Run-fail _ (Kept-IsPreorder.reflexive u))
      where
        req : Request
        req = manifest_request c repo bytes media_type ref

        shows_put :
            (res : Response)
            → (leb 200 res.status && leb res.status 299) ≡ true
            → shows env c.role (manifest_item repo ref) (sent req (some res)) ≡ true
        shows_put res good = ground (arith, eq_refl repo, eq_refl ref)

    module _ (Fits : String → Bytes → Type 0)
        (admits : (repo target : String) (d : Descriptor) (content : Bytes)
            (answer : Option Response) (h : List Event)
          → Fits d.digest content
          → rule (sent (blob_put c repo d (location target d.digest) content) answer) h
            ≡ true) where
      -- What is staged at a path fits a digest.
      abbrev pub FileFits : String → String → Sys → Type 0
      FileFits path digest s = (content : Bytes) → s.files path ≡ some content → Fits digest content

      pub FileFits-Kept :
          (path digest : String) {s t : Sys}
          → Kept s t
          → FileFits path digest s
          → FileFits path digest t
      FileFits-Kept path digest k fits content e = fits content (sym (k.same_files path) ∙ e)

      Run-resolve_location :
          (s : Sys) (url : Url) (loc digest : String)
          → Run Always Kept s
              (resolve_location env url loc digest s)
              (λ target _. (t : String) × (target ≡ location t digest))
      unfolding resolve_location
      Run-resolve_location s url loc digest =
          Run-if (str_eq loc "") _ _ (λ _. Run-fail _ (Kept-IsPreorder.reflexive s))
            (λ _.
              Run-bind Kept-IsPreorder _ _ (Run-from_option Kept-IsPreorder _ (env.resolve url loc))
                (λ t u _ _. Run-step _ (Kept-IsPreorder.reflexive u) (t, refl)))

      pub Run-open_file :
          (s : Sys) (path : String)
          → Run Always Kept s (open_file env path s) (λ content _. s.files path ≡ some content)
      unfolding open_file
      Run-open_file s path = Run-from_option Kept-IsPreorder (plain "open") (s.files path)

      pub Run-put_blob_once :
          (s : Sys) (repo : String) (d : Descriptor) (path : String)
          → FileFits path d.digest s
          → Run Always Kept s
              (put_blob_once env c repo d path s)
              (λ _ t. present env c.role t.history (blob_item repo d.digest) ≡ true)
      unfolding put_blob_once shows
      Run-put_blob_once s repo d path fits =
          Run-bind Kept-IsPreorder _ _ (Run-new_request s (uploads repo)) λ _ t₁ k₁ _.
            Run-bind Kept-IsPreorder _ _
              (Run-wrap_err _ _
                (Run-do_request t₁ opening (λ u _ a. quiet (sent opening a) u.history refl)))
              λ res t₂ k₂ _.
                Run-bind Kept-IsPreorder _ _ (Run-guard Kept-IsPreorder (res.status == 202) _)
                  λ _ t₃ k₃ _.
                    Run-bind Kept-IsPreorder _ _
                      (Run-resolve_location t₃ (uploads repo) (header "Location" res.headers)
                        d.digest)
                      λ url t₄ k₄ (target, at_target).
                        Run-bind Kept-IsPreorder _ _ (Run-open_file t₄ path) λ content t₅ k₅ read.
                          Run-bind Kept-IsPreorder _ _ (Run-new_request t₅ url) λ _ t₆ k₆ _.
                            Run-upload t₆ content url target at_target
                              (keep k₄ (keep k₃ (keep k₂ (keep k₁ fits))) content read)
        where
          opening : Request
          opening = bare c.role (some (repo, push)) post (uploads repo)

          keep : {t u : Sys} → Kept t u → FileFits path d.digest t → FileFits path d.digest u
          keep k = FileFits-Kept path d.digest k

          shows_created :
              (target : String) (content : Bytes) (res : Response)
              → (res.status == 201) ≡ true
              → shows env c.role
                  (blob_item repo d.digest)
                  (sent (blob_put c repo d (location target d.digest) content) (some res))
                ≡ true
          shows_created target content res created = ground (arith, eq_refl repo, eq_refl d.digest)

          Run-upload :
              (t : Sys) (content : Bytes) (url : Url) (target : String)
              → url ≡ location target d.digest
              → Fits d.digest content
              → Run Always Kept t
                  ((wrap_err
                        (λ e. retryable (wrapped ("blob put " <> d.digest) e))
                        (do_request env (blob_put c repo d url content))
                      >>= λ put_res.
                          guard
                            (put_res.status == 201)
                            (status_error ("blob put " <> d.digest) put_res))
                    t)
                  (λ _ u. present env c.role u.history (blob_item repo d.digest) ≡ true)
          Run-upload t content url target at_target good = rw at_target (
              Run-bind Kept-IsPreorder _ _
                (Run-wrap_err _ _ (
                  Run-do_request t (blob_put c repo d (location target d.digest) content)
                    (λ u _ a. admits repo target d content a u.history good)))
                λ res u _ shown.
                  Run-coarsen (λ w k. k)
                    (λ _ w k created.
                      k.shown (blob_item repo d.digest) (
                        shown (blob_item repo d.digest) (shows_created target content res created)))
                    (Run-guard Kept-IsPreorder (res.status == 201) _))
