-- ===== src/Appender/Env.antt =====
-- env.go: overrides of the environment of an image.
pub mod Lookup
use contain.Base.{
  ℕ, zero, suc, ◌+◌, ◌-◌, String, ◌<>◌, Bool, true, false, ◌&&◌, ◌||◌, not, Option, none, some,
  List, [], ◌∷◌, ◌++◌, map,
}
use contain.Base.{length, any, if◌then◌else◌, leb, ◌==◌, str_eq, starts_with, codes, lookup}
use Prim.Native.Char.{Char, code}

-- An `map[string]string`, with one entry for a key.
abbrev pub EnvMap : Type 0
EnvMap = List (String × String)

abbrev pub remove_key : String → EnvMap → EnvMap
remove_key k [] = []
remove_key k ((j, v) ∷ m) = let rest = remove_key k m in if str_eq j k then rest else (j, v) ∷ rest

-- `m[k] = v`
abbrev pub put : String → String → EnvMap → EnvMap
put k v m = (k, v) ∷ remove_key k m

abbrev pub before_eq : Char → Option (String × String) → Option (String × String)
before_eq c none = none
before_eq c (some (k, v)) = some (String.◌∷◌ c k, v)

-- The parts of a text around its first `=`.
unfoldable pub split_eq : String → Option (String × String)
split_eq String.[] = none
split_eq (String.◌∷◌ c s) =
    let rest = split_eq s in if code c == b'=' then some ("", s) else before_eq c rest

-- The key and the value of a text with `strings.Index(kv, "=") > 0`.
unfoldable pub key_value : String → Option (String × String)
unfolding split_eq
key_value kv = elim (split_eq kv) [
  | none ↦ none
  | some (k, v) ↦ if str_eq k "" then none else some (k, v)
]

-- The code points of a text: how many there are.
abbrev chars : String → ℕ
chars s = length (codes s)

-- `strings.ReplaceAll` of a text that is not empty; the first argument is what is left of a match.
unfoldable pub replace_from : ℕ → String → String → String → String
replace_from skip old new String.[] = ""
replace_from (suc k) old new (String.◌∷◌ c s) = replace_from k old new s
replace_from zero old new (String.◌∷◌ c s) =
    let rest = replace_from zero old new s in
    let after = replace_from (chars old - 1) old new s in
    if starts_with (String.◌∷◌ c s) old then new <> after else String.◌∷◌ c rest

-- `strings.Contains`
unfoldable pub contains : String → String → Bool
contains String.[] part = str_eq part ""
contains (String.◌∷◌ c s) part = starts_with (String.◌∷◌ c s) part || contains s part

abbrev is_word : ℕ → Bool
is_word c = (leb b'A' c && leb c b'Z') || ((leb b'a' c && leb c b'z') || c == b'_')

-- `[A-Za-z0-9_]*`
abbrev word : String → String
word String.[] = ""
word (String.◌∷◌ c s) =
    let rest = word s in
    if is_word (code c) || (leb b'0' (code c) && leb (code c) b'9') then String.◌∷◌ c rest else ""

-- What `[A-Za-z_][A-Za-z0-9_]*` matches at the start of a text, or nothing.
abbrev identifier : String → String
identifier String.[] = ""
identifier (String.◌∷◌ c s) = if is_word (code c) then String.◌∷◌ c (word s) else ""

abbrev named_value : EnvMap → String → String
named_value original name = elim (lookup name original) [ none ↦ "$" <> name | some val ↦ val ]

-- `re.ReplaceAllStringFunc`; the first argument is what is left of a match.
unfoldable pub expand_names : ℕ → EnvMap → String → String
expand_names skip original String.[] = ""
expand_names (suc k) original (String.◌∷◌ c s) = expand_names k original s
expand_names zero original (String.◌∷◌ c s) =
    let rest = expand_names zero original s in
    let after = expand_names (chars (identifier s)) original s in
    if code c == b'$' && not (str_eq (identifier s) "")
    then named_value original (identifier s) <> after
    else String.◌∷◌ c rest

-- The loop over the map, in the order in which it is listed.
unfoldable pub expand_braces : EnvMap → String → String
unfolding replace_from
expand_braces [] v = v
expand_braces ((k, val) ∷ m) v = expand_braces m (replace_from zero ("${" <> (k <> "}")) val v)

abbrev pub is_empty : EnvMap → Bool
is_empty [] = true
is_empty _ = false

abbrev pub has : String → EnvMap → Bool
has k m = elim (lookup k m) [ none ↦ false | some v ↦ true ]

-- `make(map)` and its filling from a list of KEY=VALUE texts, where the last one for a key counts.
unfoldable pub env_map : EnvMap → List String → EnvMap
env_map m [] = m
env_map m (kv ∷ kvs) = elim (key_value kv) [
  | none ↦ env_map m kvs
  | some (k, v) ↦ env_map (put k v m) kvs
]

-- The keys of a list of KEY=VALUE texts: `order`, in which a key may occur twice.
unfoldable pub keys_of : List String → List String
keys_of [] = []
keys_of (kv ∷ kvs) =
    let rest = keys_of kvs in elim (key_value kv) [ none ↦ rest | some (k, v) ↦ k ∷ rest ]

-- `range` is the order in which Go walks a map, here the same at each walk of the same map.
module _ (range : EnvMap → EnvMap) where
  -- `substitutePlaceholders`; `ReplaceAll` changes nothing where the placeholder is not contained.
  unfoldable pub substitute_placeholders : String → EnvMap → String
  unfolding expand_braces expand_names contains
  substitute_placeholders v original =
      if is_empty original || (str_eq v "" || (not (contains v "${") && not (contains v "$")))
      then v
      else expand_names zero original (expand_braces (range original) v)

  -- What a desired value becomes, with the fallback for `${PATH}`.
  unfoldable pub filled : EnvMap → String → String
  unfolding substitute_placeholders contains replace_from
  filled original v =
      let s = substitute_placeholders v original in
      if contains s "${PATH}" && not (has "PATH" original)
      then replace_from zero "${PATH}" "/usr/bin" s
      else s

  unfoldable pub override_entry : EnvMap → EnvMap → String → String
  override_entry desired original e = elim (key_value e) [
    | none ↦ e
    | some (k, _) ↦ elim (lookup k desired) [ none ↦ e | some v ↦ k <> ("=" <> filled original v) ]
  ]

  -- `seen`: the keys of the existing entries that were overridden.
  unfoldable pub seen_keys : EnvMap → List String → List String
  seen_keys desired [] = []
  seen_keys desired (e ∷ es) =
      let rest = seen_keys desired es in
      elim (key_value e) [ none ↦ rest | some (k, _) ↦ if has k desired then k ∷ rest else rest ]

  abbrev pub value_at : String → EnvMap → String
  value_at k m = elim (lookup k m) [ none ↦ "" | some v ↦ v ]

  -- The loop over `order`.
  unfoldable pub new_entries : EnvMap → EnvMap → List String → List String → List String
  new_entries desired original seen [] = []
  new_entries desired original seen (k ∷ ks) =
      let rest = new_entries desired original seen ks in
      if any (λ j. str_eq j k) seen
      then rest
      else (k <> ("=" <> filled original (value_at k desired))) ∷ rest

  -- `applyEnvOverrides`
  unfoldable pub apply_env_overrides : List String → List String → List String
  apply_env_overrides existing [] = existing
  apply_env_overrides existing (kv ∷ kvs) =
      let desired = env_map [] (kv ∷ kvs) in
      let original = env_map [] existing in
      map (override_entry desired original) existing
      ++ new_entries desired original (seen_keys desired existing) (keys_of (kv ∷ kvs))
