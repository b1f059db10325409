-- ===== src/Ocipush/Mirror/Order.antt =====
-- The walk of Mirror (mirror.go).
use mathlib.Core.Path.{subst}
use contain.Base.{ℕ, zero, suc, ◌≡◌, ◌≢◌, refl, ltb, ltb→lt, arith, ◌==◌}
use contain.Base.{String, Bool, true, ◌&&◌, str_eq, eq_iff, eq_refl}
use contain.Base.{Option, none, some, List, all, &&_both, ||_right}
use contain.Ocipush.World.{Bytes, Descriptor, ManifestDoc, Env, Sys, Event, Role, Reference, plain}
use contain.Ocipush.World.{Request, Result, err, from_option, continue, record_event}
use contain.Ocipush.World.{src, dst, Response, sent, manifest, out_of_fuel, ok}
use contain.Ocipush.Client.{
  authorize, transmit, do_request, RegClient, Options, new_reg_client, manifest_request,
  put_manifest,
}
use contain.Ocipush.Digest.{blobs_of, media_type_or}
use contain.Ocipush.Push.{each, Walk}
use contain.Ocipush.Push.Order.{new_reg_client-role, new_reg_client-ends, all-true, ltb-zero}
use contain.Ocipush.Mirror.{
  limited, Mirrorer, fetch_manifest, manifest_get, mirror_blob, mirror_child,
}
use contain.Ocipush.Mirror.{push_tree, check_pinned, mirror_root, mirror}
use contain.Ocipush.Mirror.Blob.{
  mirror_rule, Grown, Grown-IsPreorder, Grown-of-Kept, Run-grown, Run-mirror_blob,
}
use contain.Ocipush.Mirror.Blob.{mirror_rule-quiet}
use contain.Ocipush.Trace.{Item, blob_item, manifest_item, present, complete, verified}
use contain.Ocipush.Trace.{audit, named, has_digest}
use contain.Ocipush.Trace.Run.{Run-also, IsPreorder, Run, Run-step, Run-stuck}
use contain.Ocipush.Trace.Run.{Run-bind, Run-guard, Run-from_option, Run-wrap_err}
use contain.Ocipush.Trace.Run.{Run-give, Run-coarsen, Run-assume}
use contain.Ocipush.Trace.Client.{is_quiet, Run-new_request, Run-do_request, Run-put_manifest}
use contain.Ocipush.Trace.Order.{children_first-manifest_request, all-present_mono, Acyclic}
use contain.Ocipush.Trace.Order.{all_ranks-lower, Run-each}

mirror_rule-manifest :
    (env : Env) (role : Role) (root : String) (pinned : Option String) (c : RegClient)
    (repo : String) (bytes : Bytes) (media_type ref : String) (doc : ManifestDoc)
    (answer : Option Response) (h : List Event)
    → env.parse_manifest bytes ≡ some doc
    → complete env role h repo doc ≡ true
    → named env role root pinned bytes ref ≡ true
    → mirror_rule env role root pinned
        (sent (manifest_request c repo bytes media_type ref) answer)
        h
      ≡ true
unfolding mirror_rule verified
mirror_rule-manifest env role root pinned c repo bytes media_type ref doc answer h parsed whole
      fits =
    &&_both _ _
      (children_first-manifest_request env role c repo bytes media_type ref doc answer h parsed
        whole)
      (ground arith)

-- An answer to a request.
abbrev Answered : Env → Request → Response → Type 0
Answered env req res = (h : List Event) × (env.respond h req ≡ some res)

transmit-Answered :
    (env : Env) (req : Request) (s : Sys) (res : Response)
    → (transmit env req s).0 ≡ ok res
    → Answered env req res
unfolding transmit
transmit-Answered env req s res e = (s.history, got (env.respond s.history req) e)
  where
    got :
        (answer : Option Response)
        → (from_option (plain "transport") answer (record_event (sent req answer) s)).0 ≡ ok res
        → answer ≡ some res
    got none e = absurd (cc)
    got (some r) e = cc

do_request-Answered :
    (env : Env) (req : Request) (s : Sys) (res : Response)
    → (do_request env req s).0 ≡ ok res
    → Answered env req res
unfolding do_request
do_request-Answered env req s res = from_there (authorize env req.role req.auth s)
  where
    from_there :
        (o : Result (Unit {0}) × Sys)
        → (continue o.0 (λ _. transmit env req) o.1).0 ≡ ok res
        → Answered env req res
    from_there (ok u, t) e = transmit-Answered env req t res e
    from_there (err x, t) e = absurd (cc)
    from_there (out_of_fuel, t) e = absurd (cc)

-- The source registry answers some request for a manifest with these bytes, at some time.
abbrev pub Served : Env → Bytes → Type 0
Served env bytes =
    (req : Request) × (repo : String) × (ref : String) × (res : Response) × (req.role ≡ src)
    × (req.url ≡ manifest repo ref)
    × Answered env req res
    × (bytes ≡ limited res.body)

module _ (env : Env) (m : Mirrorer) (root : String) (pinned : Option String) (rank : String → ℕ)
    (of_source : m.source.role ≡ src) where
  abbrev rule : Event → List Event → Bool
  rule = mirror_rule env m.dest.role root pinned

  abbrev quiet : (e : Event) (h : List Event) → is_quiet e ≡ true → rule e h ≡ true
  quiet = mirror_rule-quiet env m.dest.role root pinned

  abbrev G : Sys → Sys → Type 0
  G = Grown env m root pinned

  abbrev pre : IsPreorder G
  pre = Grown-IsPreorder env m root pinned

  abbrev blob_of : Descriptor → Item
  blob_of d = blob_item m.dst_repo d.digest

  abbrev child_of : Descriptor → Item
  child_of d = manifest_item m.dst_repo d.digest

  abbrev Published : String → Sys → Type 0
  Published ref t = present env m.dest.role t.history (manifest_item m.dst_repo ref) ≡ true

  abbrev Whole : List Descriptor → (Descriptor → Item) → Sys → Type 0
  Whole ds item t = all (λ d. present env m.dest.role t.history (item d)) ds ≡ true

  abbrev Deep : ℕ → Bytes → Type 0
  Deep n bytes =
      Acyclic env rank (Served env) × Served env bytes × (ltb (rank (env.digest_of bytes)) n ≡ true)

  abbrev below_rank : ℕ → Descriptor → Bool
  below_rank n d = ltb (rank d.digest) n

  -- A manifest that may go up under a reference.
  abbrev Named : Bytes → String → Type 0
  Named bytes ref = named env m.dest.role root pinned bytes ref ≡ true

  Run-fetch_manifest :
      (T : Type 0) (s : Sys) (ref : String)
      → Run T G s (fetch_manifest env m ref s) (λ (bytes, _) _. Served env bytes)
  unfolding fetch_manifest manifest_get
  Run-fetch_manifest T s ref =
      Run-bind pre _ _
        (Run-assume (λ _. tt)
          (Run-grown env m root pinned
            (Run-new_request env m.dest rule quiet s (manifest m.src_repo ref))))
        λ _ t _ _.
          Run-bind pre _ _
            (Run-assume (λ _. tt)
              (Run-grown env m root pinned (
                Run-wrap_err _ _ (
                  Run-also (do_request-Answered env (manifest_get env m ref) t) (
                    Run-do_request env m.dest rule quiet t (manifest_get env m ref)
                      (λ u _ a. quiet (sent (manifest_get env m ref) a) u.history refl))))))
            λ res u _ (answered, _).
              Run-bind pre _ _ (Run-guard pre (res.status == 200) _) λ _ v _ _.
                Run-bind pre _ _ (Run-guard pre res.complete _) λ _ w _ _.
                  Run-step _ (pre.reflexive w)
                    (manifest_get env m ref, m.src_repo, ref, res, of_source, refl, answered, refl)

  Named-of_digest :
      (bytes : Bytes) (ref : String) → str_eq (env.digest_of bytes) ref ≡ true → Named bytes ref
  unfolding named
  Named-of_digest bytes ref same =
      ||_right (str_eq ref root && has_digest env m.dest.role pinned bytes) _ same

  Run-mirror_child :
      (T : Type 0) (below : Walk) (d : Descriptor) (s : Sys)
      → ((bytes : Bytes) (media_type : String) (t : Sys)
          → env.digest_of bytes ≡ d.digest
          → Named bytes d.digest
          → Served env bytes
          → Run T G t (below bytes media_type d.digest t) (λ _ u. Published d.digest u))
      → Run T G s (mirror_child env below m d s) (λ _ t. Published d.digest t)
  unfolding mirror_child
  Run-mirror_child T below d s deeper =
      Run-bind pre _ _ (Run-fetch_manifest T s d.digest) λ (bytes, child_type) t _ served.
        Run-bind pre _ _ (Run-guard pre (str_eq (env.digest_of bytes) d.digest) _) λ _ u _ same.
          deeper bytes _ u ((eq_iff (env.digest_of bytes) d.digest).0 same)
            (Named-of_digest bytes d.digest same) served

  still :
      (item : Descriptor → Item) (ds : List Descriptor) (s t : Sys)
      → G s t
      → Whole ds item s
      → Whole ds item t
  still = all-present_mono env m.dest.role G (λ s t i k. k.shown i)

  whole :
      (doc : ManifestDoc) (s : Sys)
      → Whole doc.manifests child_of s
      → Whole (blobs_of doc) blob_of s
      → complete env m.dest.role s.history m.dst_repo doc ≡ true
  unfolding complete
  whole doc s children blobs = &&_both _ _ children blobs

  Run-blobs :
      (T : Type 0) (ds : List Descriptor) (s : Sys)
      → Run T G s (each (mirror_blob env m) ds s) (λ _ t. Whole ds blob_of t)
  Run-blobs T ds s =
      Run-assume (λ h. (h, all-true ds))
        (Run-each env m.dest.role G (λ s t i k. k.shown i) pre (λ _. Unit {0}) (λ _ _ _ i. i) T
          (λ _. true) (mirror_blob env m) blob_of
          (λ d t _. Run-assume (λ _. tt) (Run-mirror_blob env m root pinned d t)) ds s tt)

  Run-put :
      (T : Type 0) (doc : ManifestDoc) (bytes : Bytes) (media_type ref : String) (s : Sys)
      → env.parse_manifest bytes ≡ some doc
      → Named bytes ref
      → Whole doc.manifests child_of s
      → Whole (blobs_of doc) blob_of s
      → Run T G s
          (put_manifest env m.dest m.dst_repo bytes media_type ref s)
          (λ _ t. Published ref t)
  Run-put T doc bytes media_type ref s parsed fits children blobs =
      Run-assume (λ _. tt)
        (Run-grown env m root pinned (
          Run-put_manifest env m.dest rule quiet s m.dst_repo bytes media_type ref λ t k a.
            let g = Grown-of-Kept env m root pinned s t k in
            mirror_rule-manifest env m.dest.role root pinned m.dest m.dst_repo bytes media_type ref
              doc a t.history parsed
              (whole doc t (still child_of doc.manifests s t g children)
                (still blob_of (blobs_of doc) s t g blobs))
              fits))

  pub Run-push_tree :
      (n : ℕ) (bytes : Bytes) (media_type ref : String) (s : Sys)
      → Named bytes ref
      → Run (Deep n bytes) G s (push_tree env n m bytes media_type ref s) (λ _ t. Published ref t)
  unfolding push_tree
  Run-push_tree zero bytes media_type ref s fits =
      Run-stuck (pre.reflexive s) (λ (_, _, h). ltb-zero (rank (env.digest_of bytes)) h)
  Run-push_tree (suc n) bytes media_type ref s fits =
      Run-bind pre _ _ (Run-from_option pre (plain "parse manifest") (env.parse_manifest bytes))
        λ doc t _ parsed.
          Run-bind pre _ _
            (Run-assume
              (λ (acyclic, served, h). (
                acyclic,
                all_ranks-lower rank (rank (env.digest_of bytes)) n doc.manifests
                    (ltb→lt _ (suc n) h) (acyclic bytes doc served parsed),
              ))
              (Run-each env m.dest.role G (λ s t i k. k.shown i) pre (λ _. Unit {0}) (λ _ _ _ i. i)
                (Acyclic env rank (Served env)) (below_rank n)
                (mirror_child env (push_tree env n m) m) child_of
                (λ child u _.
                  Run-mirror_child (Acyclic env rank (Served env) × (below_rank n child ≡ true))
                    (push_tree env n m) child u
                    (λ b mt v same fits' served.
                      Run-assume (λ (acyclic, h). (acyclic, served, rw same h))
                        (Run-push_tree n b mt child.digest v fits')))
                doc.manifests t tt))
            λ _ u _ children.
              Run-bind pre _ _ (Run-blobs (Deep (suc n) bytes) (blobs_of doc) u) λ _ v k blobs.
                Run-put (Deep (suc n) bytes) doc bytes (media_type_or doc media_type) ref v parsed
                  fits (still child_of doc.manifests u v k children) blobs

  Named-root : (bytes : Bytes) → has_digest env m.dest.role pinned bytes ≡ true → Named bytes root
  unfolding named
  Named-root bytes h = ground (arith, eq_refl root)

  Run-check_pinned :
      (T : Type 0) (s : Sys) (bytes : Bytes)
      → Run T G s
          (check_pinned env pinned bytes s)
          (λ _ _. has_digest env m.dest.role pinned bytes ≡ true)
  unfolding check_pinned
  Run-check_pinned T s bytes = go pinned
    where
      go :
          (o : Option String)
          → Run T G s
              (check_pinned env o bytes s)
              (λ _ _. has_digest env m.dest.role o bytes ≡ true)
      go none = Run-step tt (pre.reflexive s) refl
      go (some digest) = Run-guard pre (str_eq (env.digest_of bytes) digest) _

  -- The condition under which a mirror run of a depth comes to an end.
  abbrev pub Bounded : ℕ → Type 0
  Bounded depth =
      Acyclic env rank (Served env)
      × ((bytes : Bytes) → Served env bytes → ltb (rank (env.digest_of bytes)) depth ≡ true)

  -- From the fetch of the root on.
  pub Run-mirror_root :
      (depth : ℕ) (source_id : String) (s : Sys)
      → Run
          (Bounded depth)
          G
          s
          (mirror_root env depth m source_id pinned root s)
          (λ _ t. Published root t)
  unfolding mirror_root
  Run-mirror_root depth source_id s =
      Run-bind pre _ _ (Run-fetch_manifest (Bounded depth) s source_id)
        λ (bytes, media_type) t _ served.
          Run-bind pre _ _ (Run-check_pinned (Bounded depth) t bytes) λ _ u _ pins.
            Run-assume (λ (acyclic, bounded). (acyclic, served, bounded bytes served))
              (Run-push_tree depth bytes media_type root u (Named-root bytes pins))

module _ (env : Env) where
  -- By the rules for a reference before, by them after.
  abbrev Orderly : Role → String → Option String → Sys → Sys → Type 0
  Orderly role root pinned s t =
      audit (mirror_rule env role root pinned) s.history ≡ true
      → audit (mirror_rule env role root pinned) t.history ≡ true

  record Lawful (role : Role) (root : String) (pinned : Option String) (s t : Sys) : Type 0 where
    keeps : Orderly role root pinned s t

  Lawful-IsPreorder :
      (role : Role) (root : String) (pinned : Option String) → IsPreorder (Lawful role root pinned)
  Lawful-IsPreorder role root pinned = record {
    reflexive = λ s. record { keeps = λ h. h };
    transitive = λ s t u k l. record { keeps = λ h. l.keeps (k.keeps h) };
  }

  abbrev Arrived : Role → Reference → Sys → Type 0
  Arrived role to t = present env role t.history (manifest_item to.repository to.identifier) ≡ true

  Run-root_of :
      (rank : String → ℕ) (depth : ℕ) (m : Mirrorer) (role : Role) (source : String)
      (pinned : Option String) (root : String) (s : Sys)
      → m.dest.role ≡ role
      → (of_source : m.source.role ≡ src)
      → Run
          (Bounded env m root pinned rank of_source depth)
          (Lawful role root pinned)
          s
          (mirror_root env depth m source pinned root s)
          (λ _ t. present env role t.history (manifest_item m.dst_repo root) ≡ true)
  Run-root_of rank depth m role source pinned root s e of_source =
      subst
        (λ r.
          Run (Bounded env m root pinned rank of_source depth) (Lawful r root pinned) s
            (mirror_root env depth m source pinned root s)
            (λ _ t. present env r t.history (manifest_item m.dst_repo root) ≡ true))
        e
        (Run-coarsen (λ t k. record { keeps = k.obeys }) (λ _ t k q. q)
          (Run-mirror_root env m root pinned rank of_source depth source s))

  Run-mirror :
      (rank : String → ℕ) (depth : ℕ) (src_ref dst_ref : String) (src_opts dst_opts : Options)
      (from to : Reference) (s : Sys)
      → env.parse_reference src_ref ≡ some from
      → env.parse_reference dst_ref ≡ some to
      → Run
          (Acyclic env rank (Served env)
            × ((bytes : Bytes) → Served env bytes → ltb (rank (env.digest_of bytes)) depth ≡ true))
          (Lawful dst to.identifier from.pinned)
          s
          (mirror env depth src_ref dst_ref src_opts dst_opts s)
          (λ _ t. Arrived dst to t)
  unfolding mirror
  Run-mirror rank depth src_ref dst_ref src_opts dst_opts from to s from_parsed to_parsed =
      rw (from_parsed, to_parsed)
        (Run-bind order _ _
          (Run-give order (new_reg_client src src_opts (env.has_credentials src))
            (λ _. new_reg_client-ends src src_opts (env.has_credentials src)))
          λ src_client t _ made_src.
            Run-bind order _ _
              (Run-give order (new_reg_client dst dst_opts (env.has_credentials dst))
                (λ _. new_reg_client-ends dst dst_opts (env.has_credentials dst)))
              λ dst_client u _ made.
                Run-root_of rank depth
                  (record {
                    source = src_client;
                    dest = dst_client;
                    src_repo = from.repository;
                    dst_repo = to.repository;
                    staging_dir = dst_opts.staging_dir;
                  })
                  dst from.identifier from.pinned to.identifier u
                  (new_reg_client-role dst dst_opts (env.has_credentials dst) dst_client made)
                  (new_reg_client-role src src_opts (env.has_credentials src) src_client made_src))
    where
      order : IsPreorder (Lawful dst to.identifier from.pinned)
      order = Lawful-IsPreorder dst to.identifier from.pinned

-- Where both references parse and Mirror returns without an error, the destination has accepted a
-- manifest under its reference.
pub mirror-arrived :
    (env : Env) (depth : ℕ) (src_ref dst_ref : String) (src_opts dst_opts : Options)
    (from to : Reference) (s : Sys) (u : Unit {0})
    → env.parse_reference src_ref ≡ some from
    → env.parse_reference dst_ref ≡ some to
    → (mirror env depth src_ref dst_ref src_opts dst_opts s).0 ≡ ok u
    → present env dst
        (mirror env depth src_ref dst_ref src_opts dst_opts s).1.history
        (manifest_item to.repository to.identifier)
      ≡ true
mirror-arrived env depth src_ref dst_ref src_opts dst_opts from to s u from_parsed to_parsed =
    (Run-mirror env (λ _. 0) depth src_ref dst_ref src_opts dst_opts from to s from_parsed
        to_parsed).returns
      u

-- Mirror comes to an end, with or without an error, where both references parse, no manifest that
-- the source serves refers to itself and the depth exceeds the rank of each of them.
pub mirror-ends :
    (env : Env) (rank : String → ℕ) (depth : ℕ) (src_ref dst_ref : String)
    (src_opts dst_opts : Options) (from to : Reference) (s : Sys)
    → env.parse_reference src_ref ≡ some from
    → env.parse_reference dst_ref ≡ some to
    → Acyclic env rank (Served env)
    → ((bytes : Bytes) → Served env bytes → ltb (rank (env.digest_of bytes)) depth ≡ true)
    → (mirror env depth src_ref dst_ref src_opts dst_opts s).0 ≢ out_of_fuel
mirror-ends env rank depth src_ref dst_ref src_opts dst_opts from to s from_parsed to_parsed acyclic
      bounded =
    (Run-mirror env rank depth src_ref dst_ref src_opts dst_opts from to s from_parsed
        to_parsed).ends
      (acyclic, bounded)
