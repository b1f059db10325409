-- ===== src/Sbom/Steps.antt =====
-- What one step keeps and adds in an SPDX document.
use contain.Base.{◌≡◌, refl, ap, ◌∙◌, String, Bool, true, false, ◌||◌, Option, none, some, arith}
use contain.Base.{str_eq, eq_refl, eq_iff}
use contain.Sbom.{
  Json, text, slice, object, Items, nil, item, Object, empty, entry, get, set, append_item,
  items_of, object_of, is_text, any_item, ensure_slice, ensure_map, ensure_item, tool_text,
  ensure_creator, ensure_document_describes, is_relationship, relationship, ensure_relationship,
  ensure_container_package, with_package, find_package, trim_slash,
}

get-set_self : (k : String) (v : Json) (m : Object) → get k (set k v m) ≡ v
unfolding get set
get-set_self k v empty = rw (eq_refl k) refl
get-set_self k v (entry j w m) = grind (arith, get-set_self k v m, eq_refl k)

get-set_other :
    (j k : String) (v : Json) (m : Object) → str_eq j k ≡ false → get k (set j v m) ≡ get k m
unfolding get set
get-set_other j k v empty h = rw h refl
get-set_other j k v (entry i w m) h =
    grind (arith, get-set_other j k v m h, eq_iff i j, eq_iff j k, eq_iff i k)

any_item-append_item :
    (p : Json → Bool) (xs : Items) (v : Json)
    → any_item p (append_item xs v) ≡ (any_item p xs || p v)
unfolding any_item append_item
any_item-append_item p nil v = ground arith
any_item-append_item p (item w more) v = grind (arith, any_item-append_item p more v)

-- The items of the slice at a key.
abbrev pub items_at : String → Object → Items
items_at key m = items_of (get key m)

ensure_slice_items :
    (key : String) (m : Object)
    → ((ensure_slice m key).0 ≡ items_at key m)
      × (items_at key (ensure_slice m key).1 ≡ items_at key m)
unfolding ensure_slice
ensure_slice_items key m = grind (arith, get-set_self key (slice nil) m)

ensure_slice_other :
    (key k : String) (m : Object) → str_eq key k ≡ false → get k (ensure_slice m key).1 ≡ get k m
unfolding ensure_slice
ensure_slice_other key k m h = grind (arith, get-set_other key k (slice nil) m h)

any_item-ensure_item :
    (p q : Json → Bool) (key : String) (v : Json) (m : Object)
    → any_item q (items_at key m) ≡ true
    → any_item q (items_at key (ensure_item p key v m)) ≡ true
unfolding ensure_item
any_item-ensure_item p q key v m h = grind (
  arith,
  ensure_slice_items key m,
  get-set_self key (slice (append_item (ensure_slice m key).0 v)) (ensure_slice m key).1,
  any_item-append_item q (ensure_slice m key).0 v,
)

pub ensure_item_in :
    (p : Json → Bool) (key : String) (v : Json) (m : Object)
    → p v ≡ true
    → any_item p (items_at key (ensure_item p key v m)) ≡ true
unfolding ensure_item
ensure_item_in p key v m h = grind (
  arith,
  ensure_slice_items key m,
  get-set_self key (slice (append_item (ensure_slice m key).0 v)) (ensure_slice m key).1,
  any_item-append_item p (ensure_slice m key).0 v,
)

ensure_item_other :
    (p : Json → Bool) (key k : String) (v : Json) (m : Object)
    → str_eq key k ≡ false
    → get k (ensure_item p key v m) ≡ get k m
unfolding ensure_item
ensure_item_other p key k v m h = grind (
  arith,
  ensure_slice_other key k m h,
  get-set_other key k (slice (append_item (ensure_slice m key).0 v)) (ensure_slice m key).1 h,
)

-- What a document lists.
abbrev pub creators : Object → Items
creators doc = items_at "creators" (object_of (get "creationInfo" doc))

abbrev pub described : Object → Items
described doc = items_at "documentDescribes" doc

abbrev pub relationships : Object → Items
relationships doc = items_at "relationships" doc

-- A document lists all that another one does.
pub record Extends (d e : Object) : Type 0 where
  pub creators_in :
      (q : Json → Bool) → any_item q (creators d) ≡ true → any_item q (creators e) ≡ true
  pub described_in :
      (q : Json → Bool) → any_item q (described d) ≡ true → any_item q (described e) ≡ true
  pub relationships_in :
      (q : Json → Bool) → any_item q (relationships d) ≡ true → any_item q (relationships e) ≡ true

pub Extends-refl : (d : Object) → Extends d d
Extends-refl d = record {
  creators_in = λ q h. h;
  described_in = λ q h. h;
  relationships_in = λ q h. h;
}

pub Extends-trans : {d e f : Object} → Extends d e → Extends e f → Extends d f
Extends-trans x y = record {
  creators_in = λ q h. y.creators_in q (x.creators_in q h);
  described_in = λ q h. y.described_in q (x.described_in q h);
  relationships_in = λ q h. y.relationships_in q (x.relationships_in q h);
}

-- Only other keys change.
same_lists-Extends :
    (d e : Object)
    → get "creationInfo" e ≡ get "creationInfo" d
    → described e ≡ described d
    → relationships e ≡ relationships d
    → Extends d e
same_lists-Extends d e c s r = record {
  creators_in = λ q h. ap (λ j. any_item q (items_at "creators" (object_of j))) c ∙ h;
  described_in = λ q h. ap (any_item q) s ∙ h;
  relationships_in = λ q h. ap (any_item q) r ∙ h;
}

pub ensure_document_describes-Extends :
    (d : Object) (id : String) → Extends d (ensure_document_describes d id)
unfolding ensure_document_describes
ensure_document_describes-Extends d id = record {
  creators_in = λ q h.
      ap (λ j. any_item q (items_at "creators" (object_of j)))
        (ensure_item_other (is_text id) "documentDescribes" "creationInfo" (text id) d refl)
      ∙ h;
  described_in = λ q h. any_item-ensure_item (is_text id) q "documentDescribes" (text id) d h;
  relationships_in = λ q h.
      ap (λ j. any_item q (items_of j))
        (ensure_item_other (is_text id) "documentDescribes" "relationships" (text id) d refl)
      ∙ h;
}

pub is_text_self : (s : String) → is_text s (text s) ≡ true
is_text_self s = eq_refl s

pub ensure_document_describes_in :
    (d : Object) (id : String)
    → any_item (is_text id) (described (ensure_document_describes d id)) ≡ true
unfolding ensure_document_describes
ensure_document_describes_in d id =
    ensure_item_in (is_text id) "documentDescribes" (text id) d (is_text_self id)

pub ensure_relationship_in :
    (d : Object) (from_id to_id rel_type : String)
    → any_item
        (is_relationship from_id to_id rel_type)
        (relationships (ensure_relationship d from_id to_id rel_type))
      ≡ true
unfolding ensure_relationship is_relationship relationship get
ensure_relationship_in d from_id to_id rel_type =
    ensure_item_in (is_relationship from_id to_id rel_type) "relationships"
      (relationship from_id to_id rel_type) d
      (grind (arith, eq_refl from_id, eq_refl to_id, eq_refl rel_type))

pub ensure_relationship-Extends :
    (d : Object) (from_id to_id rel_type : String)
    → Extends d (ensure_relationship d from_id to_id rel_type)
unfolding ensure_relationship
ensure_relationship-Extends d from_id to_id rel_type =
    let p = is_relationship from_id to_id rel_type in
    let v = relationship from_id to_id rel_type in
    record {
      creators_in = λ q h.
          ap (λ j. any_item q (items_at "creators" (object_of j)))
            (ensure_item_other p "relationships" "creationInfo" v d refl)
          ∙ h;
      described_in = λ q h.
          ap (λ j. any_item q (items_of j))
            (ensure_item_other p "relationships" "documentDescribes" v d refl)
          ∙ h;
      relationships_in = λ q h. any_item-ensure_item p q "relationships" v d h;
    }

ensure_map_object : (key : String) (m : Object) → (ensure_map m key).0 ≡ object_of (get key m)
unfolding ensure_map
ensure_map_object key m = grind arith

ensure_map_other :
    (key k : String) (m : Object) → str_eq key k ≡ false → get k (ensure_map m key).1 ≡ get k m
unfolding ensure_map
ensure_map_other key k m h = grind (arith, get-set_other key k (object empty) m h)

-- The creators, after `ensureCreator`
pub ensure_creator-creators :
    (d : Object) (version : String)
    → creators (ensure_creator d version)
      ≡ items_at "creators" (
          ensure_item
            (is_text (tool_text version))
            "creators"
            (text (tool_text version))
            (object_of (get "creationInfo" d)))
unfolding ensure_creator
ensure_creator-creators d version =
    ap (λ j. items_at "creators" (object_of j)) (get-set_self "creationInfo" _ _)
    ∙ ap
        (λ m.
          items_at "creators"
            (ensure_item (is_text (tool_text version)) "creators" (text (tool_text version)) m))
        (ensure_map_object "creationInfo" d)

ensure_creator_other :
    (d : Object) (version k : String)
    → str_eq "creationInfo" k ≡ false
    → get k (ensure_creator d version) ≡ get k d
unfolding ensure_creator
ensure_creator_other d version k h =
    get-set_other "creationInfo" k _ _ h ∙ ensure_map_other "creationInfo" k d h

pub ensure_creator-Extends : (d : Object) (version : String) → Extends d (ensure_creator d version)
ensure_creator-Extends d version = record {
  creators_in = λ q h.
      ap (any_item q) (ensure_creator-creators d version)
      ∙ any_item-ensure_item (is_text (tool_text version)) q "creators" (text (tool_text version))
          (object_of (get "creationInfo" d)) h;
  described_in = λ q h.
      ap (λ j. any_item q (items_of j)) (ensure_creator_other d version "documentDescribes" refl)
      ∙ h;
  relationships_in = λ q h.
      ap (λ j. any_item q (items_of j)) (ensure_creator_other d version "relationships" refl) ∙ h;
}

with_package_other :
    (pkg_name hex k : String) (pkgs : Items) (d : Object) (found : Option (String × Items))
    → str_eq "packages" k ≡ false
    → get k (with_package pkg_name hex (pkgs, d) found).1 ≡ get k d
with_package_other pkg_name hex k pkgs d (some (id, found)) h =
    get-set_other "packages" k (slice found) d h
with_package_other pkg_name hex k pkgs d none h = get-set_other "packages" k _ d h

ensure_container_package_other :
    (d : Object) (name hex k : String)
    → str_eq "packages" k ≡ false
    → get k (ensure_container_package d name hex).1 ≡ get k d
unfolding ensure_container_package
ensure_container_package_other d name hex k h =
    with_package_other (trim_slash name) hex k (ensure_slice d "packages").0
      (ensure_slice d "packages").1
      (find_package (trim_slash name) hex (ensure_slice d "packages").0) h
    ∙ ensure_slice_other "packages" k d h

pub ensure_container_package-Extends :
    (d : Object) (name hex : String) → Extends d (ensure_container_package d name hex).1
ensure_container_package-Extends d name hex =
    same_lists-Extends d (ensure_container_package d name hex).1
      (ensure_container_package_other d name hex "creationInfo" refl)
      (ap items_of (ensure_container_package_other d name hex "documentDescribes" refl))
      (ap items_of (ensure_container_package_other d name hex "relationships" refl))
