-- ===== src/Appender/Env/Lookup.antt =====
-- What a process that reads the overridden environment finds under a name.
use contain.Base.{
  ◌≡◌, refl, sym, ap, ◌∙◌, String, ◌<>◌, Bool, true, false, ◌&&◌, ◌||◌, not, Option, none, some,
  List, [], ◌∷◌, ◌++◌, map, arith,
}
use contain.Base.{
  any, if◌then◌else◌, str_eq, lookup, eq_iff, Option-cases, some-injective, Bool-cases, inl, inr,
  ◌==◌,
}
use mathlib.Core.Path.{subst}
use Prim.Native.Char.{Char, code}
use text.Mathlib.TextLemmas.{cons-append, nil-append}
use contain.Appender.Env.{
  EnvMap, remove_key, put, before_eq, split_eq, key_value, has, env_map, keys_of, filled,
  override_entry, seen_keys, value_at, new_entries, apply_env_overrides,
}

-- The first entry for a name is the one that counts.
unfoldable pub entries : List String → EnvMap
entries [] = []
entries (e ∷ es) = let rest = entries es in elim (key_value e) [ none ↦ rest | some kv ↦ kv ∷ rest ]

split_eq_path :
    {k j : String} (v : String)
    → j ≡ k
    → split_eq (j <> ("=" <> v)) ≡ some (j, v)
    → split_eq (k <> ("=" <> v)) ≡ some (k, v)
split_eq_path v e h = subst (λ k. split_eq (k <> ("=" <> v)) ≡ some (k, v)) e h

at_eq : (v : String) → split_eq ("" <> ("=" <> v)) ≡ some ("", v)
unfolding split_eq
at_eq v =
    subst (λ t. split_eq t ≡ some ("", v))
      (sym (nil-append ("=" <> v) ∙ cons-append "=" "" v ∙ ap (String.◌∷◌ "=") (nil-append v))) refl

stepped :
    (c : Char) (k v : String)
    → (code c == b'=') ≡ false
    → split_eq (k <> ("=" <> v)) ≡ some (k, v)
    → split_eq (String.◌∷◌ c (k <> ("=" <> v))) ≡ some (String.◌∷◌ c k, v)
unfolding split_eq
stepped c k v h read = ground (arith, h, read)

split_eq_written :
    (e : String) {k w : String} (v : String)
    → split_eq e ≡ some (k, w)
    → split_eq (k <> ("=" <> v)) ≡ some (k, v)
unfolding split_eq
split_eq_written String.[] v h = cc
split_eq_written (String.◌∷◌ c s) {k} {w} v h = elim (Bool-cases (code c == b'=')) [
  | inl is ↦
      split_eq_path v
        (ap (λ x. x.0)
          (some-injective _ _ (
            subst (λ b. (if b then some ("", s) else before_eq c (split_eq s)) ≡ some (k, w)) is
              h)))
        (at_eq v)
  | inr is_not ↦
      after is_not (split_eq s) (λ k' w' v'. split_eq_written s v')
        (subst (λ b. (if b then some ("", s) else before_eq c (split_eq s)) ≡ some (k, w)) is_not h)
]
  where
    after :
        (code c == b'=') ≡ false
        → (r : Option (String × String))
        → ((k' w' v' : String) → r ≡ some (k', w') → split_eq (k' <> ("=" <> v')) ≡ some (k', v'))
        → before_eq c r ≡ some (k, w)
        → split_eq (k <> ("=" <> v)) ≡ some (k, v)
    after is_not none ih q = cc
    after is_not (some (k', w')) ih q = split_eq_path v (ap (λ x. x.0) (some-injective _ _ q)) (
        subst (λ t. split_eq t ≡ some (String.◌∷◌ c k', v)) (sym (cons-append c k' ("=" <> v)))
          (stepped c k' v is_not (ih k' w' v refl)))

kept :
    {j k w : String} (u : String) (b : Bool)
    → if◌then◌else◌ {A = Option (String × String)} b none (some (j, u)) ≡ some (k, w)
    → (b ≡ false) × (j ≡ k)
kept u true h = cc
kept u false h = (refl, ap (λ x. x.0) (some-injective _ _ h))

-- A value that is written behind a key and an equals sign is read back with its key.
pub key_value_written :
    (e : String) {k w : String} (v : String)
    → key_value e ≡ some (k, w)
    → key_value (k <> ("=" <> v)) ≡ some (k, v)
unfolding key_value
key_value_written e {k} {w} v h = named (split_eq e) refl h
  where
    named :
        (r : Option (String × String))
        → split_eq e ≡ r
        → (elim r as (λ x. Option (String × String)) [
          | none ↦ none
          | some (j, u) ↦ if str_eq j "" then none else some (j, u)
        ])
          ≡ some (k, w)
        → key_value (k <> ("=" <> v)) ≡ some (k, v)
    named none q h' = cc
    named (some (j, u)) q h' =
        let (full, same) = kept u (str_eq j "") h' in
        let nonempty = subst (λ i. str_eq i "" ≡ false) same full in
        let written = split_eq_written e v (subst (λ i. split_eq e ≡ some (i, u)) same q) in
        ground (arith, nonempty, written)

lookup-remove_key :
    (k j : String) (m : EnvMap) → str_eq j k ≡ false → lookup k (remove_key j m) ≡ lookup k m
lookup-remove_key k j [] h = refl
lookup-remove_key k j ((i, v) ∷ m) h = elim (Bool-cases (str_eq i j)) [
  | inl same ↦
      let skipped = subst (λ x. str_eq x k ≡ false) (sym ((eq_iff i j).0 same)) h in
      ground (arith, skipped, lookup-remove_key k j m h)
  | inr other ↦ ground (arith, lookup-remove_key k j m h)
]

lookup-put :
    (k j : String) (v : String) (m : EnvMap)
    → lookup k (put j v m) ≡ (if str_eq j k then some v else lookup k m)
lookup-put k j v m = ground (arith, lookup-remove_key k j m)

lookup-append :
    (k : String) (m n : EnvMap)
    → lookup k (m ++ n) ≡ (elim (lookup k m) [ none ↦ lookup k n | some v ↦ some v ])
lookup-append k [] n = refl
lookup-append k ((j, v) ∷ m) n = ground (arith, lookup-append k m n)

entries-append : (xs ys : List String) → entries (xs ++ ys) ≡ entries xs ++ entries ys
unfolding entries
entries-append [] ys = refl
entries-append (e ∷ es) ys = ground (arith, entries-append es ys)

is_key :
    (k : String) (m : EnvMap) (kvs : List String)
    → has k (env_map m kvs) ≡ (any (λ j. str_eq j k) (keys_of kvs) || has k m)
unfolding env_map keys_of
is_key k m [] = refl
is_key k m (kv ∷ kvs) = elim (Option-cases (key_value kv)) [
  | inl bad ↦ ground (arith, bad, is_key k m kvs)
  | inr ((j, v), good) ↦ ground (arith, good, is_key k (put j v m) kvs, lookup-put k j v m)
]

module _ (range : EnvMap → EnvMap) (desired original : EnvMap) (k : String) where
  same_key : (j : String) → str_eq j k ≡ true → lookup j desired ≡ lookup k desired
  same_key j h = ap (λ x. lookup x desired) ((eq_iff j k).0 h)

  overridden :
      (es : List String)
      → lookup k (entries (map (override_entry range desired original) es))
        ≡ (elim (lookup k (entries es)) [
          | none ↦ none
          | some w ↦ elim (lookup k desired) [
            | none ↦ some w
            | some v ↦ some (filled range original v)
          ]
        ])
  unfolding entries override_entry
  overridden [] = refl
  overridden (e ∷ es) = elim (Option-cases (key_value e)) [
    | inl bad ↦ ground (arith, bad, overridden es)
    | inr ((j, w), good) ↦ elim (Option-cases (lookup j desired)) [
      | inl kept_as_is ↦ ground (arith, good, kept_as_is, overridden es, same_key j)
      | inr (v, set) ↦ ground (
        arith,
        good,
        set,
        key_value_written e (filled range original v) good,
        overridden es,
        same_key j,
      )
    ]
  ]

  seen_if :
      (es : List String)
      → any (λ j. str_eq j k) (seen_keys range desired es) ≡ (has k desired && has k (entries es))
  unfolding entries seen_keys
  seen_if [] = ground arith
  seen_if (e ∷ es) = elim (Option-cases (key_value e)) [
    | inl bad ↦ ground (arith, bad, seen_if es)
    | inr ((j, w), good) ↦ ground (arith, good, seen_if es, same_key j)
  ]

  added :
      (seen kvs : List String)
      → lookup k (entries (new_entries range desired original seen (keys_of kvs))) ≡ (
          if any (λ j. str_eq j k) (keys_of kvs) && not (any (λ j. str_eq j k) seen)
          then some (filled range original (value_at range k desired))
          else none)
  unfolding entries new_entries keys_of
  added seen [] = refl
  added seen (kv ∷ kvs) = elim (Option-cases (key_value kv)) [
    | inl bad ↦ ground (arith, bad, added seen kvs)
    | inr ((j, w), good) ↦ elim (Bool-cases (any (λ i. str_eq i j) seen)) [
      | inl old ↦ ground (arith, good, old, added seen kvs, same_seen j)
      | inr new ↦
          let written =
            key_value_written kv (filled range original (value_at range j desired)) good in
          ground (arith, good, new, written, added seen kvs, same_seen j, same_value j)
    ]
  ]
    where
      same_seen :
          (j : String) → str_eq j k ≡ true → any (λ i. str_eq i j) seen ≡ any (λ i. str_eq i k) seen
      same_seen j h = ap (λ x. any (λ i. str_eq i x) seen) ((eq_iff j k).0 h)

      same_value :
          (j : String) → str_eq j k ≡ true → value_at range j desired ≡ value_at range k desired
      same_value j h = ap (λ x. value_at range x desired) ((eq_iff j k).0 h)

  joined :
      (es kvs : List String)
      → has k desired ≡ (any (λ j. str_eq j k) (keys_of kvs) || false)
      → (elim (lookup k (entries (map (override_entry range desired original) es))) [
        | none ↦ lookup k (
            entries (new_entries range desired original (seen_keys range desired es) (keys_of kvs)))
        | some v ↦ some v
      ])
        ≡ (elim (lookup k desired) [
          | none ↦ lookup k (entries es)
          | some v ↦ some (filled range original v)
        ])
  joined es kvs h =
      let o = overridden es in
      let a = added (seen_keys range desired es) kvs in
      let s = seen_if es in ground (arith, o, a, s, h)

-- What a name is worth: the desired value with its placeholders filled in, or else the existing one.
abbrev pub expected : (EnvMap → EnvMap) → List String → List String → String → Option String
expected range existing desired k = elim (lookup k (env_map [] desired)) [
  | none ↦ lookup k (entries existing)
  | some v ↦ some (filled range (env_map [] existing) v)
]

-- Under each name the overridden environment has the desired value, with its placeholders filled
-- in, where one is given, and else the existing one.
pub apply_env_overrides-lookup :
    (range : EnvMap → EnvMap) (existing desired : List String) (k : String)
    → lookup k (entries (apply_env_overrides range existing desired))
      ≡ expected range existing desired k
unfolding apply_env_overrides env_map
apply_env_overrides-lookup range existing [] k = refl
apply_env_overrides-lookup range existing (kv ∷ kvs) k =
    let desired = env_map [] (kv ∷ kvs) in
    let original = env_map [] existing in
    let seen = seen_keys range desired existing in
    let old = map (override_entry range desired original) existing in
    let new = new_entries range desired original seen (keys_of (kv ∷ kvs)) in
    ap (lookup k) (entries-append old new)
    ∙ lookup-append k (entries old) (entries new)
    ∙ joined range desired original k existing (kv ∷ kvs) (is_key k [] (kv ∷ kvs))
