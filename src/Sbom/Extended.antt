-- ===== src/Sbom/Extended.antt =====
-- What an SPDX document keeps and gains.
use contain.Base.{
  String, ◌<>◌, Bool, true, false, ◌&&◌, ◌||◌, not, Option, none, some, List, [], ◌∷◌,
}
use contain.Base.{if◌then◌else◌, str_eq}
use contain.Pushed.{Artifact}
use contain.Sbom.{
  Object, get, items_of, ensure_creator, ensure_document_describes, ensure_relationship,
  ensure_container_package,
}
use contain.Sbom.Wrap.{
  described_result, Added, with_result, with_base, Remote, Files, relate_described, add_result,
  add_base, relate_base, wrapped, texts_of, result_of, digest_of, base_of,
}
use contain.Sbom.Steps.{
  Extends, Extends-refl, Extends-trans, ensure_container_package-Extends, ensure_creator-Extends,
  ensure_document_describes-Extends, ensure_relationship-Extends,
}

relate_described-Extends :
    (id : String) (apps : List String) (d : Object) → Extends d (relate_described id apps d)
unfolding relate_described
relate_described-Extends id [] d = Extends-refl d
relate_described-Extends id (app ∷ apps) d =
    Extends-trans (one (str_eq app "" || str_eq app id)) (relate_described-Extends id apps _)
  where
    one :
        (b : Bool)
        → Extends d (
            if b
            then d
            else ensure_relationship
                (ensure_relationship d id app "DEPENDS_ON")
                app
                id
                "DEPENDENCY_OF")
    one true = Extends-refl d
    one false =
        Extends-trans (ensure_relationship-Extends d id app "DEPENDS_ON")
          (ensure_relationship-Extends _ app id "DEPENDENCY_OF")

if-Extends :
    (b : Bool) (d : Object) (x y : Added)
    → Extends d x.1
    → Extends d y.1
    → Extends d (if b then x else y).1
if-Extends true d x y hx hy = hx
if-Extends false d x y hx hy = hy

described_result-Extends :
    (pkg_name : String) (d : Object) → Extends d (described_result pkg_name d).1
described_result-Extends pkg_name d =
    let r = ensure_container_package d pkg_name "" in
    Extends-trans (ensure_container_package-Extends d pkg_name "") (
      Extends-trans (ensure_document_describes-Extends r.1 r.0) (
        relate_described-Extends r.0 (texts_of (items_of (get "documentDescribes" d)))
          (ensure_document_describes r.1 r.0)))

add_result-Extends :
    (name : String) (digest : Option (String × String)) (d : Object)
    → Extends d (add_result name digest d).1
unfolding add_result
add_result-Extends name none d = Extends-refl d
add_result-Extends name (some (algorithm, hex)) d =
    let pkg_name = name <> ("@" <> (algorithm <> (":" <> hex))) in
    if-Extends (not (str_eq name "") && (str_eq algorithm "sha256" && not (str_eq hex ""))) d
      (described_result pkg_name d) (none, d) (described_result-Extends pkg_name d) (Extends-refl d)

add_base-Extends : (name hex : String) (d : Object) → Extends d (add_base name hex d).1
unfolding add_base
add_base-Extends name hex d =
    if-Extends (str_eq name "") d _ _ (Extends-refl d) (ensure_container_package-Extends d name hex)

relate_base-Extends : (id base : Option String) (d : Object) → Extends d (relate_base id base d)
unfolding relate_base
relate_base-Extends none base d = Extends-refl d
relate_base-Extends (some id) none d = Extends-refl d
relate_base-Extends (some id) (some base) d =
    Extends-trans (ensure_relationship-Extends d id base "DESCENDANT_OF") (
      Extends-trans (ensure_relationship-Extends _ id base "DEPENDS_ON")
        (ensure_relationship-Extends _ base id "DEPENDENCY_OF"))

module _ {Digest : Type 0} (remote : Remote Digest) (files : Files) (builds_path : String)
    (artifact : Option Artifact) (tool_version : String) (d : Object) where
  abbrev result : Added
  result = with_result remote files builds_path artifact tool_version d

  abbrev base_after : Added
  base_after = with_base remote files builds_path artifact result.1

  abbrev document : Object
  document = wrapped remote files builds_path artifact tool_version d

  with_result-Extends : Extends (ensure_creator d tool_version) result.1
  unfolding with_result
  with_result-Extends =
      add_result-Extends (result_of remote files builds_path artifact).0
        (digest_of remote files (result_of remote files builds_path artifact).1)
        (ensure_creator d tool_version)

  wrapped_after : Extends result.1 document
  unfolding wrapped with_base
  wrapped_after =
      let base = base_of remote files artifact (result_of remote files builds_path artifact).1 in
      Extends-trans (add_base-Extends base.0 base.1 result.1)
        (relate_base-Extends result.0 base_after.0 base_after.1)

  -- A wrapped document lists all the creators, described elements and relationships that it listed
  -- before.
  pub wrapped-Extends : Extends d (wrapped remote files builds_path artifact tool_version d)
  wrapped-Extends =
      Extends-trans (ensure_creator-Extends d tool_version)
        (Extends-trans with_result-Extends wrapped_after)
