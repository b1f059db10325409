-- ===== src/Ocipush/Trace/Order.antt =====
-- The rule that a manifest follows what it refers to, as the walks of Push and Mirror use it.
use contain.Base.{ℕ, suc, ◌<◌, ltb, ◌≡◌, refl, String, Bool, true, Option, some, List, [], ◌∷◌}
use contain.Base.{arith, all, &&_both, &&_parts}
use contain.Ocipush.World.{Bytes, Descriptor, ManifestDoc, Role, src, dst, location, Event}
use contain.Ocipush.World.{Response, sent, Env, Sys, Exec}
use contain.Ocipush.Client.{RegClient, blob_put, manifest_request, role_eq}
use contain.Ocipush.Direct.{Session, part_request}
use contain.Ocipush.Push.{each}
use contain.Ocipush.Trace.{Item, present, complete, children_first}
use contain.Ocipush.Trace.Run.{IsPreorder, Run, Run-step, Run-bind, Run-coarsen, Run-assume}
use contain.Ocipush.Trace.Client.{is_quiet}

pub role_eq_refl : (r : Role) → role_eq r r ≡ true
role_eq_refl src = refl
role_eq_refl dst = refl

module _ (env : Env) (role : Role) where
  pub children_first-quiet :
      (e : Event) (h : List Event) → is_quiet e ≡ true → children_first env role e h ≡ true
  unfolding children_first
  children_first-quiet e h q = ground arith

  pub children_first-blob_put :
      (c : RegClient) (repo target : String) (d : Descriptor) (content : Bytes)
      (answer : Option Response) (h : List Event)
      → children_first env role
          (sent (blob_put c repo d (location target d.digest) content) answer)
          h
        ≡ true
  unfolding children_first
  children_first-blob_put c repo target d content answer h = ground arith

  pub children_first-part :
      (c : RegClient) (session : Session) (content : Bytes) (url : String) (offset len : ℕ)
      (answer : Option Response) (h : List Event)
      → children_first env role (sent (part_request c session content url offset len) answer) h
        ≡ true
  unfolding children_first
  children_first-part c session content url offset len answer h = ground arith

  pub children_first-manifest_request :
      (c : RegClient) (repo : String) (bytes : Bytes) (media_type ref : String) (doc : ManifestDoc)
      (answer : Option Response) (h : List Event)
      → env.parse_manifest bytes ≡ some doc
      → complete env role h repo doc ≡ true
      → children_first env role (sent (manifest_request c repo bytes media_type ref) answer) h
        ≡ true
  unfolding children_first
  children_first-manifest_request c repo bytes media_type ref doc answer h parsed whole =
      ground arith

  -- What is present stays present along a relation that shows no less.
  module _ (R : Sys → Sys → Type 0)
      (more : (s t : Sys) (i : Item)
        → R s t
        → present env role s.history i ≡ true
        → present env role t.history i ≡ true) where
    pub all-present_mono :
        (item : Descriptor → Item) (ds : List Descriptor) (s t : Sys)
        → R s t
        → all (λ d. present env role s.history (item d)) ds ≡ true
        → all (λ d. present env role t.history (item d)) ds ≡ true
    all-present_mono item [] s t k h = refl
    all-present_mono item (d ∷ ds) s t k h =
        let (now, later) = &&_parts _ _ h in
        &&_both _ _ (more s t (item d) k now) (all-present_mono item ds s t k later)

    -- A loop ends where its condition gives each round its own; `I` holds throughout.
    pub Run-each :
        (pre : IsPreorder R) (I : Sys → Type 0)
        → ((s t : Sys) → R s t → I s → I t)
        → (T : Type 0) (Enough : Descriptor → Bool) (f : Descriptor → Exec (Unit {0}))
          (item : Descriptor → Item)
        → ((d : Descriptor) (s : Sys)
            → I s
            → Run
                (T × (Enough d ≡ true))
                R
                s
                (f d s)
                (λ _ t. present env role t.history (item d) ≡ true))
        → (ds : List Descriptor) (s : Sys) → I s
        → Run
            (T × (all Enough ds ≡ true))
            R
            s
            (each f ds s)
            (λ _ t. all (λ d. present env role t.history (item d)) ds ≡ true)
    unfolding each
    Run-each pre I carry T Enough f item one [] s i = Run-step tt (pre.reflexive s) refl
    Run-each pre I carry T Enough f item one (d ∷ ds) s i =
        Run-bind pre _ _ (Run-assume (λ (h, k). (h, (&&_parts _ _ k).0)) (one d s i)) λ _ t r here.
          Run-coarsen (λ u k. k) (λ _ u k later. &&_both _ _ (more t u (item d) k here) later)
            (Run-assume (λ (h, k). (h, (&&_parts _ _ k).1))
              (Run-each pre I carry T Enough f item one ds t (carry s t r i)))

-- None of the stored manifests refers to itself, at any depth: a rank that falls from a document to
-- its children. A cycle would need digests that collide.
abbrev pub Acyclic : Env → (String → ℕ) → (Bytes → Type 0) → Type 0
Acyclic env rank Stored =
    (bytes : Bytes) (doc : ManifestDoc)
    → Stored bytes
    → env.parse_manifest bytes ≡ some doc
    → all (λ d. ltb (rank d.digest) (rank (env.digest_of bytes))) doc.manifests ≡ true

ltb_below : (a r n : ℕ) → r < suc n → ltb a r ≡ true → ltb a n ≡ true
ltb_below a r n below h = ground arith

-- The children of a document below a bound are below the next smaller bound.
pub all_ranks-lower :
    (rank : String → ℕ) (r n : ℕ) (ds : List Descriptor)
    → r < suc n
    → all (λ d. ltb (rank d.digest) r) ds ≡ true
    → all (λ d. ltb (rank d.digest) n) ds ≡ true
all_ranks-lower rank r n [] below h = refl
all_ranks-lower rank r n (d ∷ ds) below h =
    let parts = &&_parts (ltb (rank d.digest) r) (all (λ e. ltb (rank e.digest) r) ds) h in
    &&_both _ _ (ltb_below (rank d.digest) r n below parts.0)
      (all_ranks-lower rank r n ds below parts.1)
