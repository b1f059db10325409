-- ===== src/Multiarch/Match.antt =====
-- match.go: which children of a base index the platforms of a config select, and which platforms of
-- the config select none.
pub mod Selection
use contain.Base.{String, Bool, true, false, List, [], ◌∷◌, Option, none, some, any, if◌then◌else◌}
use contain.Schema.LocalFile.{Platform, Table, platforms_equal}

-- `match.Matcher`, on the platform of a descriptor, which is none where it is nil
abbrev pub Matcher : Type 0
Matcher = Option Platform → Bool

-- The parameters are containerd's table and the parser of go-containerregistry.
module _ (table : Table) (parse_platform : String → Option Platform) where
  -- `ParseConfigPlatforms`; none where a platform does not parse
  unfoldable pub parse_config_platforms : List String → Option (List Platform)
  parse_config_platforms [] = some []
  parse_config_platforms (c ∷ cs) =
      let rest = parse_config_platforms cs in
      elim (parse_platform c) [
        | none ↦ none
        | some p ↦ elim rest [ none ↦ none | some ps ↦ some (p ∷ ps) ]
      ]

  -- The loop of `UnmatchedPlatforms` over the config and what it parses to
  unfoldable pub unmatched_from : List Platform → List String → List Platform → List String
  unmatched_from matched (c ∷ cs) (w ∷ ws) =
      let rest = unmatched_from matched cs ws in
      if any (λ m. platforms_equal table m w) matched then rest else c ∷ rest
  unmatched_from matched _ _ = []

  unfoldable pub unmatched_of :
      List String → List Platform → Option (List Platform) → Option (List String)
  unfolding unmatched_from
  unmatched_of configs matched none = none
  unmatched_of configs matched (some wanted) = some (unmatched_from matched configs wanted)

  -- `UnmatchedPlatforms`; none where a platform does not parse
  unfoldable pub unmatched_platforms : List String → List Platform → Option (List String)
  unfolding parse_config_platforms unmatched_of
  unmatched_platforms [] matched = some []
  unmatched_platforms (c ∷ cs) matched =
      unmatched_of (c ∷ cs) matched (parse_config_platforms (c ∷ cs))

  -- The matcher of a config that names platforms
  unfoldable pub matches_any : List Platform → Matcher
  matches_any wanted none = false
  matches_any wanted (some p) = any (λ w. platforms_equal table p w) wanted

  unfoldable pub matcher_of : Option (List Platform) → Option Matcher
  unfolding matches_any
  matcher_of none = none
  matcher_of (some wanted) = some (matches_any wanted)

  -- `MatchPlatformsForAppend`; none where a platform does not parse
  unfoldable pub match_platforms_for_append : List String → Option Matcher
  unfolding parse_config_platforms matcher_of
  match_platforms_for_append [] = some (λ d. true)
  match_platforms_for_append (c ∷ cs) = matcher_of (parse_config_platforms (c ∷ cs))
