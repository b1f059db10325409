-- ===== src/Ocipush/Mirror/Blob.antt =====
-- What Mirror does with one blob (mirror.go).
use mathlib.Core.Path.{subst}
use contain.Base.{ℕ, ◌≡◌, refl, sym, ◌∙◌, String, Bool, true, false, ◌&&◌, not, ◌==◌}
use contain.Base.{
  Option, none, some, some-injective, List, [], ◌∷◌, any, length, str_eq, eq_refl, eq_iff, arith,
  &&_both, &&_parts,
}
use contain.Ocipush.World.{
  Bytes, Descriptor, Env, Sys, Event, Request, Response, sent, location, blob,
}
use contain.Ocipush.Client.{role_eq}
use contain.Ocipush.World.{Body, start}
use contain.Ocipush.World.{disk, record_event, write_file, Error, guard, ◌>>◌}
use contain.Ocipush.World.{Result, push, pull, get, Role, temp_file}
use contain.Ocipush.Client.{RegClient, blob_put, bare}
use contain.Ocipush.Digest.{equal_fold}
use contain.Ocipush.Staging.{
  make_staging_dir, open_temp, create_temp, staging_file, resolve_staging_dir,
}
use contain.Ocipush.Direct.{push_blob_file}
use contain.Ocipush.Mirror.{Mirrorer, verify_blob, stage_blob, forward_staged, mirror_blob}
use contain.Ocipush.Direct.{Session, part_request}
use contain.Ocipush.Trace.{
  shows, opens, session_item, Item, blob_item, present, children_first, verified, audit,
}
use contain.Ocipush.Trace.Run.{Always, IsPreorder, Run, Run-weaken, Run-coarsen, Run-step, Run-fail}
use contain.Ocipush.Trace.Run.{Run-if, Run-bind, Run-guard, Run-after, Run-wrap_err}
use contain.Ocipush.Trace.Client.{is_quiet, Kept, Kept-IsPreorder, Kept-record_event}
use contain.Ocipush.Trace.Client.{Run-new_request, Run-do_request, Run-blob_exists}
use contain.Ocipush.Trace.Session.{Run-push_blob_file}
use contain.Ocipush.Trace.Order.{children_first-quiet, children_first-blob_put, children_first-part}

module _ (env : Env) (role : Role) (root : String) (pinned : Option String) where
  -- The two rules for what Mirror uploads.
  unfoldable pub mirror_rule : Event → List Event → Bool
  mirror_rule e h = children_first env role e h && verified env role root pinned e h

  verified-quiet :
      (e : Event) (h : List Event) → is_quiet e ≡ true → verified env role root pinned e h ≡ true
  unfolding verified
  verified-quiet e h q = ground arith

  opens_body :
      (content : Bytes) (digest : String) (b : Body) (x : Bool)
      → equal_fold (env.digest_of content) digest ≡ true
      → (x && elim b [ start f ↦ str_eq f.digest digest | _ ↦ false ]) ≡ true
      → (x && elim b [ start f ↦ equal_fold (env.digest_of content) f.digest | _ ↦ false ]) ≡ true
  opens_body content digest (start f) x fits shown =
      let (mine, same) = &&_parts x (str_eq f.digest digest) shown in
      &&_both x _ mine (
        subst (λ d. equal_fold (env.digest_of content) d ≡ true)
          (sym ((eq_iff f.digest digest).0 same)) fits)
  opens_body content digest _ x fits shown = absurd (grind arith)

  -- Whoever has asked for a session for a digest that a content has, has opened it for the content.
  shown-opens :
      (content : Bytes) (digest : String) (e : Event)
      → equal_fold (env.digest_of content) digest ≡ true
      → shows env role (session_item digest) e ≡ true
      → opens env role content e ≡ true
  unfolding shows opens
  shown-opens content digest (sent req none) fits shown = cc
  shown-opens content digest (sent req (some res)) fits shown =
      opens_body content digest req.body (role_eq req.role role) fits shown
  shown-opens content digest _ fits shown = cc

  present-opens :
      (content : Bytes) (digest : String) (h : List Event)
      → equal_fold (env.digest_of content) digest ≡ true
      → present env role h (session_item digest) ≡ true
      → any (opens env role content) h ≡ true
  unfolding present
  present-opens content digest [] fits shown = shown
  present-opens content digest (e ∷ h) fits shown =
      grind (arith, shown-opens content digest e fits, present-opens content digest h fits)

  pub mirror_rule-quiet : (e : Event) (h : List Event) → is_quiet e ≡ true → mirror_rule e h ≡ true
  unfolding mirror_rule
  mirror_rule-quiet e h q = &&_both _ _ (children_first-quiet env role e h q) (verified-quiet e h q)

  pub mirror_rule-blob_put :
      (c : RegClient) (repo target : String) (d : Descriptor) (content : Bytes)
      (answer : Option Response) (h : List Event)
      → equal_fold (env.digest_of content) d.digest ≡ true
      → mirror_rule (sent (blob_put c repo d (location target d.digest) content) answer) h ≡ true
  unfolding mirror_rule verified
  mirror_rule-blob_put c repo target d content answer h fits =
      &&_both _ _ (children_first-blob_put env role c repo target d content answer h) (ground arith)

  pub mirror_rule-part :
      (c : RegClient) (session : Session) (content : Bytes) (url : String) (offset len : ℕ)
      (digest : String) (answer : Option Response) (h : List Event)
      → equal_fold (env.digest_of content) digest ≡ true
      → present env role h (session_item digest) ≡ true
      → mirror_rule (sent (part_request c session content url offset len) answer) h ≡ true
  unfolding mirror_rule verified
  mirror_rule-part c session content url offset len digest answer h fits shown =
      let opened = present-opens content digest h fits shown in
      &&_both _ _ (children_first-part env role c session content url offset len answer h)
        (ground (arith, opened))

module _ (env : Env) (m : Mirrorer) (root : String) (pinned : Option String) where
  abbrev rule : Event → List Event → Bool
  rule = mirror_rule env m.dest.role root pinned

  abbrev quiet : (e : Event) (h : List Event) → is_quiet e ≡ true → rule e h ≡ true
  quiet = mirror_rule-quiet env m.dest.role root pinned

  -- The history goes on by the rule and shows no less; files come and go.
  pub record Grown (s t : Sys) : Type 0 where
    pub obeys : audit rule s.history ≡ true → audit rule t.history ≡ true
    pub shown :
        (i : Item)
        → present env m.dest.role s.history i ≡ true
        → present env m.dest.role t.history i ≡ true

  pub Grown-IsPreorder : IsPreorder Grown
  Grown-IsPreorder = record {
    reflexive = λ s. record { obeys = λ h. h; shown = λ i h. h };
    transitive = λ s t u r q. record {
      obeys = λ h. q.obeys (r.obeys h);
      shown = λ i h. q.shown i (r.shown i h);
    };
  }

  abbrev K : Sys → Sys → Type 0
  K = Kept env m.dest rule

  abbrev kept : IsPreorder K
  kept = Kept-IsPreorder env m.dest rule

  abbrev pre : IsPreorder Grown
  pre = Grown-IsPreorder

  pub Grown-of-Kept : (s t : Sys) → K s t → Grown s t
  Grown-of-Kept s t k = record { obeys = k.obeys; shown = k.shown }

  Grown-event : (e : Event) (s : Sys) → is_quiet e ≡ true → Grown s (record_event e s)
  Grown-event e s q =
      Grown-of-Kept s (record_event e s)
        (Kept-record_event env m.dest rule e s (quiet e s.history q))

  Grown-write_file : (path : String) (b : Option Bytes) (s : Sys) → Grown s (write_file path b s)
  Grown-write_file path b s = record { obeys = λ h. h; shown = λ i h. h }

  pub Run-grown :
      {A T : Type 0} {s : Sys} {out : Result A × Sys} {Q : A → Sys → Type 0}
      → Run T K s out Q
      → Run T Grown s out Q
  Run-grown {s} r = Run-coarsen (λ t k. Grown-of-Kept s t k) (λ _ t k q. q) r

  Run-two_guards :
      {s : Sys} (t : Sys) (P : Sys → Type 0) (b b' : Bool) (e e' : Error)
      → Grown s t
      → P t
      → Run Always Grown s ((guard b e >> guard b' e') t) (λ _ u. P u)
  Run-two_guards t P true true e e' k p = Run-step tt k p
  Run-two_guards t P true false e e' k p = Run-fail e' k
  Run-two_guards t P false b' e e' k p = Run-fail e k

  Run-stage_blob :
      (s : Sys) (d : Descriptor) (path : String) (res : Response)
      → Run Always Grown s (stage_blob env d path res s) (λ _ t. t.files path ≡ some res.body)
  unfolding stage_blob
  Run-stage_blob s d path res =
      let e₁ = disk (env.disk_ok s.history) in
      let s₁ = write_file path (some res.body) (record_event e₁ s) in
      let e₂ = disk (env.disk_ok s₁.history) in
      Run-two_guards (record_event e₂ s₁) (λ t. t.files path ≡ some res.body)
        (res.complete && env.disk_ok s.history) (env.disk_ok s₁.history) _ _
        (pre.transitive s (record_event e₁ s) (record_event e₂ s₁) (Grown-event e₁ s refl) (
          pre.transitive (record_event e₁ s) s₁ (record_event e₂ s₁)
            (Grown-write_file path (some res.body) (record_event e₁ s)) (Grown-event e₂ s₁ refl)))
        (rw (eq_refl path))

  Run-verify_blob :
      (s : Sys) (d : Descriptor) (size : ℕ) (actual : String)
      → Run Always K s (verify_blob d size actual s) (λ _ _. equal_fold actual d.digest ≡ true)
  unfolding verify_blob
  Run-verify_blob s d size actual =
      Run-if (not (d.size == 0) && not (size == d.size)) _ _ (λ _. Run-fail _ (kept.reflexive s))
        (λ _. Run-guard kept (equal_fold actual d.digest) _)

  -- The blob is at the destination.
  abbrev pub Held : Descriptor → Sys → Type 0
  Held d t = present env m.dest.role t.history (blob_item m.dst_repo d.digest) ≡ true

  Run-verified_push :
      (s : Sys) (d : Descriptor) (path : String) (content : Bytes)
      → s.files path ≡ some content
      → Run Always K s
          ((verify_blob d (length content) (env.digest_of content)
              >> push_blob_file env m.dest m.dst_repo
                  (record { media_type = ""; digest = d.digest; size = length content })
                  path)
            s)
          (λ _ t. Held d t)
  Run-verified_push s d path content staged =
      Run-bind kept _ _ (Run-verify_blob s d (length content) (env.digest_of content)) λ _ t k fits.
        Run-push_blob_file env m.dest rule quiet
          (λ digest bytes. equal_fold (env.digest_of bytes) digest ≡ true)
          (mirror_rule-blob_put env m.dest.role root pinned m.dest)
          (mirror_rule-part env m.dest.role root pinned m.dest) m.dst_repo
          (record { media_type = ""; digest = d.digest; size = length content }) path t
          (λ bytes at_path.
            subst (λ b. equal_fold (env.digest_of b) d.digest ≡ true)
              (some-injective content bytes (sym staged ∙ (sym (k.same_files path) ∙ at_path)))
              fits)

  Run-forward_staged :
      (s : Sys) (d : Descriptor) (res : Response) (path : String)
      → Run Always Grown s (forward_staged env m d res path s) (λ _ t. Held d t)
  unfolding forward_staged
  Run-forward_staged s d res path =
      let r =
        Run-bind pre (stage_blob env d path res s)
          (λ _.
            verify_blob d (length res.body) (env.digest_of res.body)
            >> push_blob_file env m.dest m.dst_repo
                (record { media_type = ""; digest = d.digest; size = length res.body }) path)
          (Run-stage_blob s d path res)
          (λ _ t _ staged. Run-grown (Run-verified_push t d path res.body staged)) in
      record {
        related = record { obeys = r.related.obeys; shown = r.related.shown };
        returns = λ a e. r.returns a e;
        ends = r.ends;
      }

  Run-open_temp :
      (s : Sys) (name : Option String) → Run Always Grown s (open_temp name s) (λ _ _. Unit {0})
  unfolding open_temp
  Run-open_temp s none = Run-fail _ (Grown-event (temp_file none) s refl)
  Run-open_temp s (some path) =
      let e = temp_file (some path) in
      Run-step path
        (pre.transitive s (record_event e s) (write_file path (some []) (record_event e s))
          (Grown-event e s refl) (Grown-write_file path (some []) (record_event e s)))
        tt

  Run-staging_file :
      (s : Sys) (dir : String) → Run Always Grown s (staging_file env dir s) (λ _ _. Unit {0})
  unfolding staging_file create_temp make_staging_dir
  Run-staging_file s dir =
      Run-bind pre _ _ (Run-make_dir s (resolve_staging_dir env dir)) λ _ t _ _. Run-temp t
    where
      Run-make_dir :
          (u : Sys) (resolved : String)
          → Run Always Grown u (make_staging_dir env resolved u) (λ _ _. Unit {0})
      Run-make_dir u resolved =
          Run-if (str_eq resolved "") _ _ (λ _. Run-step tt (pre.reflexive u) tt)
            (λ _.
              Run-after pre (Grown-event (disk (env.disk_ok u.history)) u refl)
                (Run-weaken (λ _ _ _. tt) (Run-guard pre (env.disk_ok u.history) _)))

      Run-temp : (u : Sys) → Run Always Grown u (create_temp env u) (λ _ _. Unit {0})
      Run-temp u = Run-open_temp u (env.temp_name u.history)

  pub Run-mirror_blob :
      (d : Descriptor) (s : Sys) → Run Always Grown s (mirror_blob env m d s) (λ _ t. Held d t)
  unfolding mirror_blob
  Run-mirror_blob d s =
      Run-bind pre _ _
        (Run-grown (Run-blob_exists env m.dest rule quiet s m.dst_repo d.digest push))
        λ found t _ held.
          Run-if found _ _ (λ e. Run-step tt (pre.reflexive t) (held e))
            (λ _.
              Run-bind pre _ _
                (Run-grown (Run-new_request env m.dest rule quiet t (blob m.src_repo d.digest)))
                λ _ u _ _.
                  Run-bind pre _ _
                    (Run-grown (
                      Run-wrap_err _ _ (
                        Run-do_request env m.dest rule quiet u fetch
                          (λ v _ a. quiet (sent fetch a) v.history refl))))
                    λ res v _ _. Run-bind pre _ _ (Run-guard pre (res.status == 200) _) λ _ w _ _.
                      Run-bind pre _ _ (Run-staging_file w m.staging_dir)
                        λ path x _ _. Run-forward_staged x d res path)
    where
      fetch : Request
      fetch = bare m.source.role (some (m.src_repo, pull)) get (blob m.src_repo d.digest)
