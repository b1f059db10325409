-- ===== src/Pushed/Restored.antt =====
-- What is restored of an artifact that was written as JSON and read back.
use contain.Base.{
  guard, or_err, ◌&&◌, not, Bool-cases, inl, inr, ◌⊎◌, eq_iff, ◌≡◌, refl, sym, ap, ◌∙◌, String,
  ◌<>◌, Option, none, some, List, [], ◌∷◌, map, arith, ok, str_eq, ◌==◌, Bool, true, false, Holds,
  Holds->>=, Holds-of, if◌then◌else◌,
}
use mathlib.Core.Path.{subst, ap₂}
use mathlib.Core.List.{Mem, mem-cons_self, mem-cons_of_mem}
use text.Mathlib.TextLemmas.{cons-append, nil-append}
use Prim.Native.Char.{Char, code}
use contain.Pushed.{
  Codec, ArtifactJson, ArtifactOutput, of_json, References, Artifact, PushedError, last_at,
  split_slash, parse_platform_string, platforms_from_strings, of_parts, new_ref, new_index_image,
  base_ref_required, no_manifest, parts_of, hash_of, bad_tag, bad_reference, marshal_json,
  unmarshal_json,
}
use contain.Images.{ChildDescriptor}
use contain.Schema.LocalFile.{Platform}

last_at-cons :
    (c : Char) (s b d : String)
    → last_at s ≡ some (b, d)
    → last_at (String.◌∷◌ c s) ≡ some (String.◌∷◌ c b, d)
unfolding last_at
last_at-cons c s b d h = ground (arith, h)

last_at-at : (d : String) → last_at d ≡ none → last_at ("" <> ("@" <> d)) ≡ some ("", d)
unfolding last_at
last_at-at d h =
    subst (λ t. last_at t ≡ some ("", d))
      (sym (nil-append ("@" <> d) ∙ cons-append "@" "" d ∙ ap (String.◌∷◌ "@") (nil-append d)))
      (ground (arith, h))

last_at-joined : (b d : String) → last_at d ≡ none → last_at (b <> ("@" <> d)) ≡ some (b, d)
last_at-joined String.[] d h = last_at-at d h
last_at-joined (String.◌∷◌ c b) d h =
    subst (λ t. last_at t ≡ some (String.◌∷◌ c b, d)) (sym (cons-append c b ("@" <> d)))
      (last_at-cons c (b <> ("@" <> d)) b d (last_at-joined b d h))

abbrev pub no_slash : String → Bool
no_slash String.[] = true
no_slash (String.◌∷◌ c s) = not (code c == b'/') && no_slash s

split_slash-none : (s : String) → no_slash s ≡ true → split_slash s ≡ (s, [])
unfolding split_slash
split_slash-none String.[] h = refl
split_slash-none (String.◌∷◌ c s) h = let ih = split_slash-none s in ground arith

split_slash-cons :
    (c : Char) (s w : String) (ws : List String)
    → (code c == b'/') ≡ false
    → split_slash s ≡ (w, ws)
    → split_slash (String.◌∷◌ c s) ≡ (String.◌∷◌ c w, ws)
unfolding split_slash
split_slash-cons c s w ws n h = ground (arith, n, h)

split_slash-at :
    (r w : String) (ws : List String)
    → split_slash r ≡ (w, ws)
    → split_slash ("" <> ("/" <> r)) ≡ ("", w ∷ ws)
unfolding split_slash
split_slash-at r w ws h =
    subst (λ t. split_slash t ≡ ("", w ∷ ws))
      (sym (nil-append ("/" <> r) ∙ cons-append "/" "" r ∙ ap (String.◌∷◌ "/") (nil-append r)))
      (ground (arith, h))

split_slash-joined :
    (s r w : String) (ws : List String)
    → no_slash s ≡ true
    → split_slash r ≡ (w, ws)
    → split_slash (s <> ("/" <> r)) ≡ (s, w ∷ ws)
split_slash-joined String.[] r w ws n h = split_slash-at r w ws h
split_slash-joined (String.◌∷◌ c s) r w ws n h =
    subst (λ t. split_slash t ≡ (String.◌∷◌ c s, w ∷ ws)) (sym (cons-append c s ("/" <> r)))
      (split_slash-cons c (s <> ("/" <> r)) s (w ∷ ws) (ground arith)
        (split_slash-joined s r w ws (ground arith) h))

-- A platform that its text tells in full: `v1.Platform.String` joins the operating system, the
-- architecture and the variant, if there is one, by slashes.
abbrev pub IsPlain : References → Platform → Type 0
IsPlain refs p =
    (no_slash p.os ≡ true)
    × (no_slash p.architecture ≡ true)
    × (no_slash p.variant ≡ true)
    × (p.others ≡ "")
    × (refs.platform_string p ≡ (
        if str_eq p.variant ""
        then p.os <> ("/" <> p.architecture)
        else p.os <> ("/" <> (p.architecture <> ("/" <> p.variant)))))

-- The text of a plain platform is parsed back to the platform.
pub parse_platform_string_plain :
    (refs : References) (p : Platform)
    → IsPlain refs p
    → parse_platform_string (refs.platform_string p) ≡ p
unfolding parse_platform_string
parse_platform_string_plain refs p (os, arch, variant, others, text) =
    ap parse_platform_string text ∙ chosen (Bool-cases (str_eq p.variant ""))
  where
    short : String
    short = p.os <> ("/" <> p.architecture)

    long : String
    long = p.os <> ("/" <> (p.architecture <> ("/" <> p.variant)))

    chosen :
        (str_eq p.variant "" ≡ true) ⊎ (str_eq p.variant "" ≡ false)
        → parse_platform_string (if str_eq p.variant "" then short else long) ≡ p
    chosen (inl h) =
        let none_given = (eq_iff p.variant "").0 h in
        let whole =
          split_slash-joined p.os p.architecture p.architecture [] os
            (split_slash-none p.architecture arch) in
        subst (λ b. parse_platform_string (if b then short else long) ≡ p) (sym h)
          (ap of_parts whole ∙ λ i. record {
            os = p.os;
            architecture = p.architecture;
            variant = sym none_given i;
            others = sym others i;
          })
    chosen (inr h) =
        let last =
          split_slash-joined p.architecture p.variant p.variant [] arch
            (split_slash-none p.variant variant) in
        let whole =
          split_slash-joined p.os (p.architecture <> ("/" <> p.variant)) p.architecture
            (p.variant ∷ []) os last in
        subst (λ b. parse_platform_string (if b then short else long) ≡ p) (sym h)
          (ap of_parts whole ∙ λ i. record {
            os = p.os;
            architecture = p.architecture;
            variant = p.variant;
            others = sym others i;
          })

platforms_from_strings_plain :
    (refs : References) (ps : List Platform)
    → ((p : Platform) → Mem p ps → IsPlain refs p)
    → platforms_from_strings (map refs.platform_string ps) ≡ ps
unfolding platforms_from_strings
platforms_from_strings_plain refs [] h = refl
platforms_from_strings_plain refs (p ∷ ps) h =
    ap₂ ◌∷◌ (parse_platform_string_plain refs p (h p mem-cons_self))
      (platforms_from_strings_plain refs ps (λ q m. h q (mem-cons_of_mem p m)))

or_err-some : {A : Type 0} (o : Option A) (e : PushedError) {x : A} → or_err o e ≡ ok x → o ≡ some x
or_err-some o e h = ground arith

-- What `newRef` sets, where `reference.Parse` gives the text back that it parsed.
abbrev IsNamed : References → String → String → Artifact → Type 0
IsNamed refs tag hash a =
    (a.tag_ref ≡ (tag <> ("@" <> hash)))
    × (a.reference ≡ refs.parse_reference tag)
    × (a.hash ≡ hash)
    × (a.config_hash ≡ "")

new_ref-IsNamed :
    (refs : References) (tag hash : String)
    → ((n t : String)
        → refs.parse_named (tag <> ("@" <> hash)) ≡ some (n, t)
        → t ≡ (tag <> ("@" <> hash)))
    → Holds (IsNamed refs tag hash) (new_ref refs tag hash)
unfolding new_ref
new_ref-IsNamed refs tag hash same =
    Holds->>= _ (or_err (refs.parse_named (tag <> ("@" <> hash))) bad_tag) _ (λ n hn.
      Holds->>= _ (or_err (refs.parse_reference tag) bad_reference) _ (λ r hr. (
        same n.0 n.1 (or_err-some _ bad_tag hn),
        sym (or_err-some _ bad_reference hr),
        refl,
        refl,
      )))

new_index_image-IsNamed :
    (refs : References) (tag hash : String) (m : Option (String × List ChildDescriptor))
    (base : String)
    → ((n t : String)
        → refs.parse_named (tag <> ("@" <> hash)) ≡ some (n, t)
        → t ≡ (tag <> ("@" <> hash)))
    → Holds (IsNamed refs tag hash) (new_index_image refs tag hash m base)
unfolding new_index_image
new_index_image-IsNamed refs tag hash m base same =
    Holds->>= _ (guard (not (str_eq base "")) base_ref_required) _ (λ _ _.
      Holds->>= _ (new_ref refs tag hash) _ (λ a ha.
        Holds->>= _ (or_err m no_manifest) _
          (λ k _. Holds-of (IsNamed refs tag hash) _ (new_ref-IsNamed refs tag hash same) ha)))

unmarshal_json-named :
    {Text : Type 0} (refs : References) (codec : Codec Text) (tag hash : String) (a : Artifact)
    → ((x : ArtifactJson) → codec.decode (codec.encode x) ≡ some x)
    → IsNamed refs tag hash a
    → last_at hash ≡ none
    → str_eq hash "" ≡ false
    → refs.new_hash hash ≡ some hash
    → ((p : Platform) → Mem p a.platforms → IsPlain refs p)
    → unmarshal_json refs codec (marshal_json refs codec a) ≡ some a
unfolding unmarshal_json marshal_json of_json
unmarshal_json-named refs codec tag hash a lossless (text, reference, is_hash, no_config) no_at full
      taken plain =
    ap (λ o. elim o as (λ _. Option Artifact) [ none ↦ none | some aux ↦ some (of_json refs aux) ])
      (lossless _)
    ∙ λ i. some (record {
      image_name = a.image_name;
      tag_ref = a.tag_ref;
      media_type = a.media_type;
      platforms = platforms_from_strings_plain refs a.platforms plain i;
      base_ref = a.base_ref;
      output = a.output;
      reference = (ap (λ x. refs.parse_reference x.0) parts ∙ sym reference) i;
      hash = (ap (λ x. hash_of refs x.1) parts ∙ kept_hash ∙ sym is_hash) i;
      config_hash = sym no_config i;
    })
  where
    parts : parts_of refs a.tag_ref ≡ (tag, hash)
    parts = ap (parts_of refs) text ∙ split (last_at-joined tag hash no_at)
      where
        split :
            last_at (tag <> ("@" <> hash)) ≡ some (tag, hash)
            → parts_of refs (tag <> ("@" <> hash)) ≡ (tag, hash)
        split h = ground (arith, h)

    kept_hash : hash_of refs hash ≡ hash
    kept_hash = ground (arith, full, taken)

-- The artifact of an index, with any output, that is written as JSON and read back is the same
-- artifact, where decoding undoes encoding, `reference.Parse` keeps the text, the digest is one
-- without an at sign that `v1.NewHash` takes, and the platforms are told in full by their texts.
pub new_index_image_restored :
    {Text : Type 0} (refs : References) (codec : Codec Text) (tag hash : String)
    (m : Option (String × List ChildDescriptor)) (base : String) (a : Artifact)
    (output : Option ArtifactOutput)
    → ((x : ArtifactJson) → codec.decode (codec.encode x) ≡ some x)
    → ((n t : String)
        → refs.parse_named (tag <> ("@" <> hash)) ≡ some (n, t)
        → t ≡ (tag <> ("@" <> hash)))
    → last_at hash ≡ none
    → str_eq hash "" ≡ false
    → refs.new_hash hash ≡ some hash
    → ((p : Platform) → Mem p a.platforms → IsPlain refs p)
    → new_index_image refs tag hash m base ≡ ok a
    → unmarshal_json refs codec (marshal_json refs codec (record a { output = output }))
      ≡ some (record a { output = output })
unfolding new_index_image
new_index_image_restored refs codec tag hash m base a output lossless same no_at full taken plain
      h =
    unmarshal_json-named refs codec tag hash (record a { output = output }) lossless
      (Holds-of (IsNamed refs tag hash) _ (new_index_image-IsNamed refs tag hash m base same) h)
      no_at full taken plain
