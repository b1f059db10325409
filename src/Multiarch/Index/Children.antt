-- ===== src/Multiarch/Index/Children.antt =====
-- Which platforms an index of a base is built for.
use contain.Base.{
  ◌≡◌, refl, ap, ◌∙◌, Bool, true, false, ◌&&◌, ◌||◌, not, Option, none, some, List, [], ◌∷◌, map,
  arith, String,
}
use contain.Base.{
  if◌then◌else◌, str_eq, Result, ok, ◌>>=◌, guard, or_err, Holds, Holds->>=, Holds-of, Holds-if,
  leb, length, eq_iff,
}
use mathlib.Core.Path.{subst}
use contain.Images.{ChildDescriptor}
use contain.Multiarch.Match.{Matcher}
use contain.Multiarch.Index.{
  Fetched, Indexes, IndexError, IndexManifests, ToAppend, get_child_manifest, new_to_append,
  is_usable, select_children, new_from_multi_arch_base, matched_platforms, size_append, bad_base,
  no_digest, fetching, not_an_index, no_index, no_index_manifest, no_match, first_of,
}
use contain.Pushed.{
  Reference, oci_index, oci_manifest, is_attestation, platforms_from_index_manifest,
}
use contain.Schema.LocalFile.{Platform}

-- The elements that pass a test, in order.
abbrev pub kept {ℓ} : {A : Type ℓ} → (A → Bool) → List A → List A
kept f [] = []
kept f (a ∷ rest) = let more = kept f rest in if f a then a ∷ more else more

module _ {Image Index : Type 0} (lib : Indexes Image Index) (matches : Matcher) where
  abbrev wanted : List Platform → List Platform
  wanted ps = kept (λ p. matches (some p)) ps

  abbrev IsWanted : List Platform → Result IndexError (List ToAppend) → Type 0
  IsWanted ps r = Holds (λ ts. map (λ t. t.platform) ts ≡ wanted ps) r

  skipped :
      (p : Platform) (ps : List Platform) (y z : Bool)
      → (matches (some p) && (y && not z)) ≡ false
      → wanted ps ≡ wanted (if not y || z then ps else p ∷ ps)
  skipped p ps y z h = ground (arith, h)

  taken :
      (p : Platform) (ps : List Platform) (y z : Bool)
      → (matches (some p) && (y && not z)) ≡ true
      → (p ∷ wanted ps) ≡ wanted (if not y || z then ps else p ∷ ps)
  taken p ps y z h = ground (arith, h)

  select_children_platforms :
      (base_ref : Reference) (children : List ChildDescriptor)
      → IsWanted
          (platforms_from_index_manifest lib.refs children)
          (select_children lib matches base_ref children)
  unfolding select_children platforms_from_index_manifest
  select_children_platforms base_ref [] = refl
  select_children_platforms base_ref (d ∷ ds) =
      child d.platform (select_children lib matches base_ref ds)
        (platforms_from_index_manifest lib.refs ds) (select_children_platforms base_ref ds)
    where
      child :
          (o : Option Platform) (rest : Result IndexError (List ToAppend)) (ps : List Platform)
          → IsWanted ps rest
          → IsWanted
              (elim o [
                | none ↦ ps
                | some p ↦
                    if not (str_eq d.media_type oci_manifest) || is_attestation lib.refs d p
                    then ps
                    else p ∷ ps
              ])
              (elim o [
                | none ↦ rest
                | some p ↦
                    if is_usable lib matches d p
                    then (get_child_manifest lib base_ref d >>= λ m.
                        rest >>= λ more. ok (new_to_append lib base_ref d p m ∷ more))
                    else rest
              ])
      child none rest ps h = h
      child (some p) rest ps h =
          Holds-if _ (is_usable lib matches d p) _ _
            (λ b. Holds->>= _ (get_child_manifest lib base_ref d) _ (λ m _.
              Holds->>= _ rest _ (λ more e.
                ap (λ l. p ∷ l) (Holds-of _ rest h e)
                ∙ taken p ps (str_eq d.media_type oci_manifest) (is_attestation lib.refs d p) b)))
            (λ b.
              subst (λ l. Holds (λ ts. map (λ t. t.platform) ts ≡ l) rest)
                (skipped p ps (str_eq d.media_type oci_manifest) (is_attestation lib.refs d p) b) h)

  -- The base index is the one that the registry has under the base of the config, a reference with a
  -- digest; and what was selected of it.
  abbrev pub Selected : String → IndexManifests Index → Type 0
  Selected config_base m =
      (fetched : Fetched) × (index : Index) × (manifest : String × List ChildDescriptor)
      × (lib.refs.parse_reference config_base ≡ some m.base_ref)
      × (m.base_ref.is_digest ≡ true)
      × (lib.get m.base_ref ≡ some fetched)
      × (fetched.media_type ≡ oci_index)
      × (lib.image_index fetched ≡ some index)
      × (lib.index_manifest index ≡ some manifest)
      × (matched_platforms lib m ≡ wanted (platforms_from_index_manifest lib.refs manifest.1))
      × (leb 1 (size_append lib m) ≡ true)

  -- The platforms that an index is built for are those that the index in the registry under the base
  -- of the config, which is a digest reference, declares for images and that the config matches, in
  -- order, attestations aside; there is at least one.
  pub new_from_multi_arch_base_matched :
      (config_base : String) (m : IndexManifests Index)
      → new_from_multi_arch_base lib matches config_base ≡ ok m
      → Selected config_base m
  unfolding new_from_multi_arch_base matched_platforms size_append
  new_from_multi_arch_base_matched config_base m h =
      Holds-of (Selected config_base) (new_from_multi_arch_base lib matches config_base)
        (Holds->>= _ (or_err (lib.refs.parse_reference config_base) bad_base) _ (λ base_ref hb.
          Holds->>= _ (guard base_ref.is_digest no_digest) _ (λ _ hd.
            Holds->>= _ (or_err (lib.get base_ref) fetching) _ (λ fetched hf.
              Holds->>= _ (guard (str_eq fetched.media_type oci_index) not_an_index) _ (λ _ ht.
                Holds->>= _ (or_err (lib.image_index fetched) no_index) _ (λ index hi.
                  Holds->>= _ (or_err (lib.index_manifest index) no_index_manifest) _
                    (λ manifest hm.
                      Holds->>= _ (select_children lib matches base_ref manifest.1) _ (λ ts hts.
                        Holds->>= _ (or_err (first_of lib ts) no_match) _ (λ p hp. (
                          fetched,
                          index,
                          manifest,
                          given (lib.refs.parse_reference config_base) bad_base hb,
                          passed base_ref.is_digest no_digest hd,
                          given (lib.get base_ref) fetching hf,
                          (eq_iff fetched.media_type oci_index).0
                              (passed (str_eq fetched.media_type oci_index) not_an_index ht),
                          given (lib.image_index fetched) no_index hi,
                          given (lib.index_manifest index) no_index_manifest hm,
                          Holds-of _ _ (select_children_platforms base_ref manifest.1) hts,
                          some_first ts hp,
                        ))))))))))
        h
    where
      given : {A : Type 0} (o : Option A) (e : IndexError) {x : A} → or_err o e ≡ ok x → o ≡ some x
      given o e h = ground arith

      passed : (b : Bool) (e : IndexError) {u : Unit {0}} → guard b e ≡ ok u → b ≡ true
      passed b e h = ground arith

      some_first :
          (ts : List ToAppend) {p : ToAppend}
          → or_err (first_of lib ts) no_match ≡ ok p
          → leb 1 (length ts) ≡ true
      some_first [] e = cc
      some_first (t ∷ ts) e = ground arith
