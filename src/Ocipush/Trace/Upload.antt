-- ===== src/Ocipush/Trace/Upload.antt =====
-- The retry loop of client.go, by the rules for runs.
use contain.Base.{ℕ, zero, suc, ◌≡◌, ◌≢◌, refl, String, Bool, true, ◌||◌, not}
use contain.Base.{Option, List}
use contain.Ocipush.World.{Bytes, Descriptor, location, Response, Event, sent, Env, Result, ok, err}
use contain.Ocipush.World.{out_of_fuel, Sys, Exec, raise, give}
use contain.Ocipush.Errors.{is_retryable}
use contain.Ocipush.Client.{RegClient, blob_put, put_blob_once, ctx_err, settle, upload_attempts}
use contain.Ocipush.Client.{push_blob_standard}
use contain.Ocipush.Trace.{blob_item, present}
use contain.Ocipush.Trace.Run.{Always, Run, Run-step, Run-fail, Run-if}
use contain.Ocipush.Trace.Run.{Run-after, IsPreorder}
use contain.Ocipush.Trace.Client.{is_quiet, Kept, Kept-IsPreorder, FileFits, FileFits-Kept}
use contain.Ocipush.Trace.Client.{Run-put_blob_once, Run-ctx_err}

module _ (env : Env) (c : RegClient) (rule : Event → List Event → Bool)
    (quiet : (e : Event) (h : List Event) → is_quiet e ≡ true → rule e h ≡ true)
    (Fits : String → Bytes → Type 0)
    (admits : (repo target : String) (d : Descriptor) (content : Bytes) (answer : Option Response)
        (h : List Event)
      → Fits d.digest content
      → rule (sent (blob_put c repo d (location target d.digest) content) answer) h ≡ true)
    (repo : String) (d : Descriptor) (path : String) where
  abbrev K : Sys → Sys → Type 0
  K = Kept env c rule

  abbrev pre : IsPreorder K
  pre = Kept-IsPreorder env c rule

  abbrev Staged : Sys → Type 0
  Staged = FileFits env c rule quiet Fits admits path d.digest

  -- The blob is in the repository.
  abbrev Held : Sys → Type 0
  Held t = present env c.role t.history (blob_item repo d.digest) ≡ true

  Run-settle :
      (s : Sys) (r : Result (Unit {0})) (again : Exec (Unit {0}))
      → ((u : Unit {0}) → r ≡ ok u → Held s)
      → r ≢ out_of_fuel
      → ((t : Sys) → K s t → Run Always K t (again t) (λ _ u. Held u))
      → Run Always K s (settle env r again s) (λ _ u. Held u)
  unfolding settle
  Run-settle s (ok u) again held _ more = Run-step tt (pre.reflexive s) (held u refl)
  Run-settle s (err e) again held _ more =
      let stop = ctx_err env s in
      let k = (Run-ctx_err env c rule quiet s).related in
      Run-after pre k (
        Run-if (env.cancelled s.history || not (is_retryable e)) (raise e) again
          (λ _. Run-fail e (pre.reflexive stop.1)) (λ _. more stop.1 k))
  Run-settle s out_of_fuel again held ended more = absurd (ended refl)

  pub Run-upload_attempts :
      (n : ℕ) (s : Sys)
      → Staged s
      → Run Always K s (upload_attempts env n c repo d path s) (λ _ t. Held t)
  unfolding upload_attempts
  Run-upload_attempts zero s fits =
      let r = Run-put_blob_once env c rule quiet Fits admits s repo d path fits in
      let out = put_blob_once env c repo d path s in
      Run-after pre r.related (
        Run-settle out.1 out.0 (give out.0) r.returns (r.ends tt) (λ u l. record {
          related = pre.reflexive u;
          returns = λ a e. l.shown (blob_item repo d.digest) (r.returns a e);
          ends = r.ends;
        }))
  Run-upload_attempts (suc n) s fits =
      let r = Run-put_blob_once env c rule quiet Fits admits s repo d path fits in
      let out = put_blob_once env c repo d path s in
      Run-after pre r.related (
        Run-settle out.1 out.0 (upload_attempts env n c repo d path) r.returns (r.ends tt) (λ u l.
          Run-upload_attempts n u (
            FileFits-Kept env c rule quiet Fits admits path d.digest
              (pre.transitive s out.1 u r.related l) fits)))

  pub Run-push_blob_standard :
      (s : Sys) → Staged s → Run Always K s (push_blob_standard env c repo d path s) (λ _ t. Held t)
  unfolding push_blob_standard
  Run-push_blob_standard s fits = Run-upload_attempts 2 s fits
