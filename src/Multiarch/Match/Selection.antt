-- ===== src/Multiarch/Match/Selection.antt =====
-- The selection of base children and the report of unmatched platforms (match.go).
use contain.Base.{◌≡◌, refl, ap, String, Bool, true, false, ◌||◌, List, [], ◌∷◌, Option, none, some}
use contain.Base.{any, if◌then◌else◌, ||_right, some-injective}
use mathlib.Core.Path.{subst}
use contain.Schema.LocalFile.{Platform, Table, platforms_equal}
use contain.Multiarch.Match.{
  matcher_of, unmatched_of, Matcher, parse_config_platforms, unmatched_from, unmatched_platforms,
  matches_any,
}
use contain.Multiarch.Match.{match_platforms_for_append}

-- The platforms of the descriptors that have one.
abbrev pub platforms_of : List (Option Platform) → List Platform
platforms_of [] = []
platforms_of (none ∷ ds) = platforms_of ds
platforms_of (some p ∷ ds) = p ∷ platforms_of ds

-- The descriptors that a matcher selects.
abbrev pub selected : Matcher → List (Option Platform) → List (Option Platform)
selected matcher [] = []
selected matcher (d ∷ ds) = let rest = selected matcher ds in if matcher d then d ∷ rest else rest

module _ (table : Table) (parse_platform : String → Option Platform) where
  -- A matcher that selects every descriptor of a platform.
  abbrev Admits : Matcher → Platform → Type 0
  Admits matcher w = (p : Platform) → platforms_equal table p w ≡ true → matcher (some p) ≡ true

  any-selected :
      (matcher : Matcher) (w : Platform) (base : List (Option Platform))
      → Admits matcher w
      → any (λ m. platforms_equal table m w) (platforms_of (selected matcher base))
        ≡ any (λ m. platforms_equal table m w) (platforms_of base)
  any-selected matcher w [] admits = refl
  any-selected matcher w (none ∷ ds) admits =
      let ih = any-selected matcher w ds admits in keep_none (matcher none) ih
    where
      keep_none :
          (b : Bool)
          → any (λ m. platforms_equal table m w) (platforms_of (selected matcher ds))
            ≡ any (λ m. platforms_equal table m w) (platforms_of ds)
          → any
              (λ m. platforms_equal table m w)
              (platforms_of (if b then none ∷ selected matcher ds else selected matcher ds))
            ≡ any (λ m. platforms_equal table m w) (platforms_of ds)
      keep_none true ih = ih
      keep_none false ih = ih
  any-selected matcher w (some p ∷ ds) admits =
      let ih = any-selected matcher w ds admits in
      keep_some (matcher (some p)) (platforms_equal table p w) refl refl ih
    where
      keep_some :
          (b e : Bool)
          → matcher (some p) ≡ b
          → platforms_equal table p w ≡ e
          → any (λ m. platforms_equal table m w) (platforms_of (selected matcher ds))
            ≡ any (λ m. platforms_equal table m w) (platforms_of ds)
          → any
              (λ m. platforms_equal table m w)
              (platforms_of (if b then some p ∷ selected matcher ds else selected matcher ds))
            ≡ any (λ m. platforms_equal table m w) (platforms_of (some p ∷ ds))
      keep_some true e h k ih = ap (λ t. platforms_equal table p w || t) ih
      keep_some false false h k ih = rw k ih
      keep_some false true h k ih = absurd (let a = admits p k in cc)

  -- A list of platforms each of which the matcher admits.
  unmatched_from-selected :
      (matcher : Matcher) (cs : List String) (ws : List Platform) (base : List (Option Platform))
      → ((p : Platform) → any (λ w. platforms_equal table p w) ws ≡ true → matcher (some p) ≡ true)
      → unmatched_from table parse_platform (platforms_of (selected matcher base)) cs ws
        ≡ unmatched_from table parse_platform (platforms_of base) cs ws
  unfolding unmatched_from
  unmatched_from-selected matcher [] ws base admits = refl
  unmatched_from-selected matcher (c ∷ cs) [] base admits = refl
  unmatched_from-selected matcher (c ∷ cs) (w ∷ ws) base admits =
      let here = any-selected matcher w base (λ p e. admits p (rw e refl)) in
      let rest = unmatched_from-selected matcher cs ws base (λ p e. admits p (||_right _ _ e)) in
      rw (here, rest) refl

  unmatched_of-selected :
      (configs : List String) (o : Option (List Platform)) (matcher : Matcher)
      (base : List (Option Platform))
      → matcher_of table parse_platform o ≡ some matcher
      → unmatched_of table parse_platform configs (platforms_of (selected matcher base)) o
        ≡ unmatched_of table parse_platform configs (platforms_of base) o
  unfolding unmatched_of matcher_of matches_any
  unmatched_of-selected configs none matcher base made = refl
  unmatched_of-selected configs (some wanted) matcher base made = ap some (
      unmatched_from-selected matcher configs wanted base
        (λ p e. subst (λ m. m (some p) ≡ true) (some-injective _ _ made) e))

  -- What a config leaves unmatched in the selection that it makes from a base index is what it
  -- leaves unmatched in the whole index, in order: the selection drops no child of a platform that
  -- the config names. The config is one that parses.
  pub unmatched_platforms-selected :
      (configs : List String) (matcher : Matcher) (base : List (Option Platform))
      → match_platforms_for_append table parse_platform configs ≡ some matcher
      → unmatched_platforms table parse_platform configs (platforms_of (selected matcher base))
        ≡ unmatched_platforms table parse_platform configs (platforms_of base)
  unfolding unmatched_platforms match_platforms_for_append
  unmatched_platforms-selected [] matcher base made = refl
  unmatched_platforms-selected (c ∷ cs) matcher base made =
      unmatched_of-selected (c ∷ cs) (parse_config_platforms table parse_platform (c ∷ cs)) matcher
        base made
