-- ===== src/Ocipush/Push/Order.antt =====
-- The walk of Push (ocipush.go).
use mathlib.Core.Path.{subst}
use contain.Base.{
  ℕ, zero, suc, ◌≡◌, ◌≢◌, refl, sym, ◌∙◌, ◌<◌, ltb, ltb→lt, arith, &&_parts, eq_iff, String, ◌<>◌,
  Bool, true, not, str_eq, Option,
}
use contain.Base.{some, List, [], ◌∷◌, all, &&_both}
use contain.Ocipush.World.{
  Bytes, Descriptor, ManifestDoc, Env, Sys, Event, Role, Reference, plain, dst,
}
use contain.Ocipush.World.{ok, out_of_fuel}
use contain.Ocipush.Client.{RegClient, Options, put_manifest, new_reg_client}
use contain.Ocipush.Digest.{is_digest, blobs_of, media_type_or}
use contain.Ocipush.Push.{Pusher, blob_path, push_manifest_descriptor, push_blob, each, Walk}
use contain.Ocipush.Push.{push_manifest_bytes, push_roots, push_root, push_layout}
use contain.Ocipush.Trace.{Item, blob_item, manifest_item, present, complete, children_first, audit}
use contain.Ocipush.Trace.Run.{IsPreorder, Run, Run-weaken, Run-step, Run-fail, Run-stuck, Run-if}
use contain.Ocipush.Trace.Run.{
  Run-bind, Run-guard, Run-from_option, Run-wrap_err, Run-give, Run-coarsen, Run-assume,
}
use contain.Ocipush.Trace.Client.{Kept, Kept-IsPreorder, Run-put_manifest}
use contain.Ocipush.Trace.Session.{Run-push_blob_file}
use contain.Ocipush.Trace.Order.{
  children_first-quiet, children_first-blob_put, children_first-part, Run-each,
}
use contain.Ocipush.Trace.Order.{
  children_first-manifest_request, all-present_mono, Acyclic, all_ranks-lower,
}

pub all-true : (ds : List Descriptor) → all (λ _. true) ds ≡ true
all-true [] = refl
all-true (d ∷ ds) = all-true ds

pub ltb-zero : (n : ℕ) → ltb n 0 ≡ true → ⊥
ltb-zero n h = absurd (omega (arith, ltb→lt n 0 h))

lt_step : (a n : ℕ) → a < n → a < suc n
lt_step a n h = omega arith

-- A content that a file has.
abbrev pub Stored : (String → Option Bytes) → Bytes → Type 0
Stored files bytes = (path : String) × (files path ≡ some bytes)

module _ (env : Env) (p : Pusher) (rank : String → ℕ) (files : String → Option Bytes) where
  abbrev Same : Sys → Type 0
  Same s = (path : String) → s.files path ≡ files path

  abbrev rule : Event → List Event → Bool
  rule = children_first env p.c.role

  abbrev K : Sys → Sys → Type 0
  K = Kept env p.c rule

  abbrev pre : IsPreorder K
  pre = Kept-IsPreorder env p.c rule

  abbrev blob_of : Descriptor → Item
  blob_of d = blob_item p.repo d.digest

  abbrev child_of : Descriptor → Item
  child_of d = manifest_item p.repo d.digest

  abbrev Published : String → Sys → Type 0
  Published ref t = present env p.c.role t.history (manifest_item p.repo ref) ≡ true

  -- The condition under which a walk of depth `n` comes to an end.
  abbrev Deep : ℕ → Bytes → Type 0
  Deep n bytes =
      Acyclic env rank (Stored files)
      × Stored files bytes
      × (ltb (rank (env.digest_of bytes)) n ≡ true)

  abbrev below_rank : ℕ → Descriptor → Bool
  below_rank n d = ltb (rank d.digest) n

  Same-Kept : (s t : Sys) → K s t → Same s → Same t
  Same-Kept s t k same path = k.same_files path ∙ same path

  Run-blob_path :
      (T : Type 0) (s : Sys) (digest : String) → Run T K s (blob_path p digest s) (λ _ _. Unit {0})
  unfolding blob_path
  Run-blob_path T s digest =
      Run-if (not (is_digest digest)) _ _ (λ _. Run-fail _ (pre.reflexive s))
        (λ _. Run-step _ (pre.reflexive s) tt)

  Run-push_blob :
      (T : Type 0) (d : Descriptor) (s : Sys)
      → Run T K s (push_blob env p d s) (λ _ t. present env p.c.role t.history (blob_of d) ≡ true)
  unfolding push_blob
  Run-push_blob T d s = Run-bind pre _ _ (Run-blob_path T s d.digest) λ path t _ _.
      Run-assume (λ _. tt)
        (Run-push_blob_file env p.c rule (children_first-quiet env p.c.role) (λ _ _. Unit {0})
          (λ repo target e content a h _.
            children_first-blob_put env p.c.role p.c repo target e content a h)
          (λ session content url offset len digest a h _ _.
            children_first-part env p.c.role p.c session content url offset len a h)
          p.repo d path t (λ _ _. tt))

  Run-push_manifest_descriptor :
      (T : Type 0) (below : Walk) (d : Descriptor) (ref : String) (s : Sys)
      → Same s
      → ((bytes : Bytes) (media_type : String) (t : Sys)
          → env.digest_of bytes ≡ d.digest
          → Stored files bytes
          → Same t
          → Run T K t (below bytes media_type ref t) (λ _ u. Published ref u))
      → Run T K s (push_manifest_descriptor env below p d ref s) (λ _ t. Published ref t)
  unfolding push_manifest_descriptor
  Run-push_manifest_descriptor T below d ref s at_start deeper =
      Run-bind pre _ _ (Run-blob_path T s d.digest) λ path t k₁ _.
        Run-bind pre _ _ (Run-wrap_err _ _ (Run-from_option pre (plain "open") (t.files path)))
          λ bytes u k₂ read.
            Run-bind pre _ _ (Run-guard pre (str_eq (env.digest_of bytes) d.digest) _)
              λ _ v k₃ same.
                let kept = Same-Kept s t k₁ at_start in
                deeper bytes d.media_type v ((eq_iff (env.digest_of bytes) d.digest).0 same)
                  (path, sym (kept path) ∙ read) (Same-Kept u v k₃ (Same-Kept t u k₂ kept))

  abbrev Whole : List Descriptor → (Descriptor → Item) → Sys → Type 0
  Whole ds item t = all (λ d. present env p.c.role t.history (item d)) ds ≡ true

  still :
      (item : Descriptor → Item) (ds : List Descriptor) (s t : Sys)
      → K s t
      → Whole ds item s
      → Whole ds item t
  still = all-present_mono env p.c.role K (λ s t i k. k.shown i)

  whole :
      (doc : ManifestDoc) (s : Sys)
      → Whole doc.manifests child_of s
      → Whole (blobs_of doc) blob_of s
      → complete env p.c.role s.history p.repo doc ≡ true
  unfolding complete
  whole doc s children blobs = &&_both _ _ children blobs

  Run-blobs :
      (T : Type 0) (ds : List Descriptor) (s : Sys)
      → Run T K s (each (push_blob env p) ds s) (λ _ t. Whole ds blob_of t)
  Run-blobs T ds s =
      Run-assume (λ h. (h, all-true ds))
        (Run-each env p.c.role K (λ s t i k. k.shown i) pre (λ _. Unit {0}) (λ _ _ _ i. i) T
          (λ _. true) (push_blob env p) blob_of (λ d t _. Run-push_blob (T × (true ≡ true)) d t) ds
          s tt)

  -- The last step of a walk: the manifest follows what it refers to.
  Run-put :
      (T : Type 0) (doc : ManifestDoc) (bytes : Bytes) (media_type ref : String) (s : Sys)
      → env.parse_manifest bytes ≡ some doc
      → Whole doc.manifests child_of s
      → Whole (blobs_of doc) blob_of s
      → Run T K s (put_manifest env p.c p.repo bytes media_type ref s) (λ _ t. Published ref t)
  Run-put T doc bytes media_type ref s parsed children blobs =
      Run-assume (λ _. tt)
        (Run-put_manifest env p.c rule (children_first-quiet env p.c.role) s p.repo bytes media_type
          ref
          λ t k a.
            children_first-manifest_request env p.c.role p.c p.repo bytes media_type ref doc a
              t.history parsed
              (whole doc t (still child_of doc.manifests s t k children)
                (still blob_of (blobs_of doc) s t k blobs)))

  Run-push_manifest_bytes :
      (n : ℕ) (bytes : Bytes) (media_type ref : String) (s : Sys)
      → Same s
      → Run
          (Deep n bytes)
          K
          s
          (push_manifest_bytes env n p bytes media_type ref s)
          (λ _ t. Published ref t)
  unfolding push_manifest_bytes
  Run-push_manifest_bytes zero bytes media_type ref s at_start =
      Run-stuck (pre.reflexive s) (λ (_, _, h). ltb-zero (rank (env.digest_of bytes)) h)
  Run-push_manifest_bytes (suc n) bytes media_type ref s at_start =
      Run-bind pre _ _ (Run-from_option pre (plain "parse manifest") (env.parse_manifest bytes))
        λ doc t k₀ parsed.
          Run-bind pre _ _
            (Run-assume
              (λ (acyclic, stored, h). (
                acyclic,
                all_ranks-lower rank (rank (env.digest_of bytes)) n doc.manifests
                    (ltb→lt _ (suc n) h) (acyclic bytes doc stored parsed),
              ))
              (Run-each env p.c.role K (λ s t i k. k.shown i) pre Same Same-Kept
                (Acyclic env rank (Stored files)) (below_rank n)
                (λ child.
                  push_manifest_descriptor env (push_manifest_bytes env n p) p child child.digest)
                child_of
                (λ child u before.
                  Run-push_manifest_descriptor
                    (Acyclic env rank (Stored files) × (below_rank n child ≡ true))
                    (push_manifest_bytes env n p) child child.digest u before
                    (λ b mt v same stored now.
                      Run-assume (λ (acyclic, h). (acyclic, stored, rw same h))
                        (Run-push_manifest_bytes n b mt child.digest v now)))
                doc.manifests t (Same-Kept s t k₀ at_start)))
            λ _ u _ children.
              Run-bind pre _ _ (Run-blobs (Deep (suc n) bytes) (blobs_of doc) u) λ _ v k blobs.
                Run-put (Deep (suc n) bytes) doc bytes (media_type_or doc media_type) ref v parsed
                  (still child_of doc.manifests u v k children) blobs

  -- The root of a layout, whose `index.json` is parsed.
  Run-push_roots :
      (depth : ℕ) (bytes : Bytes) (index : ManifestDoc) (ds : List Descriptor) (identifier : String)
      (s : Sys)
      → Same s
      → Run
          (Deep depth bytes × (all (below_rank depth) ds ≡ true))
          K
          s
          (push_roots env depth p bytes index ds identifier s)
          (λ _ t. Published identifier t)
  unfolding push_roots
  Run-push_roots depth bytes index [] identifier s at_start = Run-fail _ (pre.reflexive s)
  Run-push_roots depth bytes index (root ∷ []) identifier s at_start =
      Run-push_manifest_descriptor _ (push_manifest_bytes env depth p) root identifier s at_start
        λ b mt v same stored now.
          Run-assume (λ (deep, h). (deep.0, stored, rw same (&&_parts _ _ h).0))
            (Run-push_manifest_bytes depth b mt identifier v now)
  Run-push_roots depth bytes index (root ∷ next ∷ more) identifier s at_start =
      Run-assume (λ (deep, _). deep)
        (Run-push_manifest_bytes depth bytes index.media_type identifier s at_start)

  pub Run-push_root :
      (depth : ℕ) (bytes : Bytes) (index : ManifestDoc) (identifier : String) (s : Sys)
      → env.parse_manifest bytes ≡ some index
      → Same s
      → Run
          (Deep depth bytes)
          K
          s
          (push_root env depth p bytes index identifier s)
          (λ _ t. Published identifier t)
  unfolding push_root
  Run-push_root depth bytes index identifier s parsed at_start =
      Run-assume
        (λ (acyclic, stored, shallow). (
          (acyclic, stored, shallow),
          all_ranks-lower rank (rank (env.digest_of bytes)) depth index.manifests
              (lt_step _ depth (ltb→lt _ depth shallow)) (acyclic bytes index stored parsed),
        ))
        (Run-push_roots depth bytes index index.manifests identifier s at_start)

-- A client that is made for a role has it.
pub new_reg_client-role :
    (role : Role) (opts : Options) (resolved : Bool) (c : RegClient)
    → new_reg_client role opts resolved ≡ ok c
    → c.role ≡ role
unfolding new_reg_client
new_reg_client-role role opts resolved c made = ground arith

pub new_reg_client-ends :
    (role : Role) (opts : Options) (resolved : Bool)
    → new_reg_client role opts resolved ≢ out_of_fuel
unfolding new_reg_client
new_reg_client-ends role opts resolved stuck = ground arith

module _ (env : Env) where
  -- In order before, in order after; and no file is written.
  record Orderly (role : Role) (s t : Sys) : Type 0 where
    keeps :
        audit (children_first env role) s.history ≡ true
        → audit (children_first env role) t.history ≡ true
    same_files : (path : String) → t.files path ≡ s.files path

  Orderly-IsPreorder : (role : Role) → IsPreorder (Orderly role)
  Orderly-IsPreorder role = record {
    reflexive = λ s. record { keeps = λ h. h; same_files = λ path. refl };
    transitive = λ s t u k l. record {
      keeps = λ h. l.keeps (k.keeps h);
      same_files = λ path. l.same_files path ∙ k.same_files path;
    };
  }

  abbrev Enough : (String → ℕ) → (String → Option Bytes) → ℕ → Bytes → Type 0
  Enough rank files depth bytes =
      Acyclic env rank (Stored files)
      × Stored files bytes
      × (ltb (rank (env.digest_of bytes)) depth ≡ true)

  Run-root_of :
      (rank : String → ℕ) (files : String → Option Bytes) (depth : ℕ) (p : Pusher) (role : Role)
      (bytes : Bytes) (index : ManifestDoc) (identifier : String) (s : Sys)
      → p.c.role ≡ role
      → env.parse_manifest bytes ≡ some index
      → ((path : String) → s.files path ≡ files path)
      → Run
          (Enough rank files depth bytes)
          (Orderly role)
          s
          (push_root env depth p bytes index identifier s)
          (λ _ t. present env role t.history (manifest_item p.repo identifier) ≡ true)
  Run-root_of rank files depth p role bytes index identifier s e parsed at_start =
      subst
        (λ r.
          Run (Enough rank files depth bytes) (Orderly r) s
            (push_root env depth p bytes index identifier s)
            (λ _ t. present env r t.history (manifest_item p.repo identifier) ≡ true))
        e
        (Run-coarsen (λ t k. record { keeps = k.obeys; same_files = k.same_files }) (λ _ t k q. q)
          (Run-push_root env p rank files depth bytes index identifier s parsed at_start))

  Run-push_layout :
      (rank : String → ℕ) (depth : ℕ) (layout_dir image : String) (opts : Options) (s : Sys)
      → Run
          (Acyclic env rank (Stored s.files)
            × ((bytes : Bytes)
                → s.files (layout_dir <> "/index.json") ≡ some bytes
                → ltb (rank (env.digest_of bytes)) depth ≡ true))
          (Orderly dst)
          s
          (push_layout env depth layout_dir image opts s)
          (λ _ t.
            (target : Reference) × (env.parse_reference image ≡ some target)
            × (present env dst t.history (manifest_item target.repository target.identifier)
                ≡ true))
  unfolding push_layout
  Run-push_layout rank depth layout_dir image opts s =
      Run-bind order _ _
        (Run-from_option order (plain "parse reference") (env.parse_reference image))
        λ target t₁ k₁ parsed.
          Run-bind order _ _
            (Run-give order (new_reg_client dst opts (env.has_credentials dst))
              (λ _. new_reg_client-ends dst opts (env.has_credentials dst)))
            λ c t₂ k₂ made.
              Run-bind order _ _
                (Run-wrap_err _ _
                  (Run-from_option order (plain "open") (t₂.files (layout_dir <> "/index.json"))))
                λ bytes t₃ k₃ read.
                  Run-bind order _ _
                    (Run-from_option order (plain "parse layout index") (env.parse_manifest bytes))
                    λ index t₄ k₄ index_parsed.
                      Run-assume
                        (λ (acyclic, bounded).
                          let at_first = sym (k₁.same_files _) ∙ (sym (k₂.same_files _) ∙ read) in
                          (acyclic, (_, at_first), bounded bytes at_first))
                        (Run-weaken (λ _ u done. (target, parsed, done))
                          (Run-root_of rank s.files depth
                            (record { layout = layout_dir; repo = target.repository; c = c }) dst
                            bytes index target.identifier t₄
                            (new_reg_client-role dst opts (env.has_credentials dst) c made)
                            index_parsed
                            (λ path.
                              k₄.same_files path
                              ∙ (k₃.same_files path ∙ (k₂.same_files path ∙ k₁.same_files path)))))
    where
      order : IsPreorder (Orderly dst)
      order = Orderly-IsPreorder dst

-- Push, whatever the registry answers and however it ends, in a history that is in order leaves one
-- in order: each manifest is uploaded only when the registry has shown that it holds every blob and
-- every child manifest that the document refers to.
pub push_layout-children_first :
    (env : Env) (depth : ℕ) (layout_dir image : String) (opts : Options) (s : Sys)
    → audit (children_first env dst) s.history ≡ true
    → audit (children_first env dst) (push_layout env depth layout_dir image opts s).1.history
      ≡ true
push_layout-children_first env depth layout_dir image opts s =
    (Run-push_layout env (λ _. 0) depth layout_dir image opts s).related.keeps

-- Where Push returns without an error, the image reference has parsed, and the registry has
-- accepted a manifest under the repository and the tag or digest that it names.
pub push_layout-published :
    (env : Env) (depth : ℕ) (layout_dir image : String) (opts : Options) (s : Sys) (u : Unit {0})
    → (push_layout env depth layout_dir image opts s).0 ≡ ok u
    → (target : Reference) × (env.parse_reference image ≡ some target)
      × (present env dst
            (push_layout env depth layout_dir image opts s).1.history
            (manifest_item target.repository target.identifier)
          ≡ true)
push_layout-published env depth layout_dir image opts s =
    (Run-push_layout env (λ _. 0) depth layout_dir image opts s).returns

-- Push comes to an end: where no manifest among the files refers to itself and the depth exceeds
-- the rank of the layout's index, the walk returns, with or without an error.
pub push_layout-ends :
    (env : Env) (rank : String → ℕ) (depth : ℕ) (layout_dir image : String) (opts : Options)
    (s : Sys)
    → Acyclic env rank (Stored s.files)
    → ((bytes : Bytes)
        → s.files (layout_dir <> "/index.json") ≡ some bytes
        → ltb (rank (env.digest_of bytes)) depth ≡ true)
    → (push_layout env depth layout_dir image opts s).0 ≢ out_of_fuel
push_layout-ends env rank depth layout_dir image opts s acyclic bounded =
    (Run-push_layout env rank depth layout_dir image opts s).ends (acyclic, bounded)
