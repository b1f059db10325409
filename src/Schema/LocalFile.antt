-- ===== src/Schema/LocalFile.antt =====
-- localfile.go: which source file a layer takes for a platform, and the check of all layers. Also the
-- comparison of platforms of pkg/platform.
pub mod Resolved
use contain.Base.{
  ℕ, zero, suc, ◌+◌, String, ◌<>◌, Bool, true, false, ◌&&◌, ◌||◌, not, List, [], ◌∷◌, ◌++◌, map,
}
use contain.Base.{Option, none, some, if◌then◌else◌, ◌==◌, any, all, length, str_eq, lookup, codes}
use contain.Schema.Config.{LocalFile, Layer}

-- `v1.Platform`, its other fields left as one text
pub record Platform : Type 0 where
  pub os : String
  pub architecture : String
  pub variant : String
  pub others : String

-- What containerd and go-containerregistry decide about platforms: `platforms.Normalize` on the
-- three fields that it is given, and `v1.Platform.Equals`.
pub record Table : Type 0 where
  pub containerd : String → String → String → Platform
  pub equals : Platform → Platform → Bool

-- pkg/platform `Normalize`
unfoldable pub normalize : Table → Platform → Platform
normalize table p =
    let n = table.containerd p.os p.architecture p.variant in
    record p {
      os = if str_eq p.os "" then p.os else n.os;
      architecture = n.architecture;
      variant = n.variant;
    }

-- pkg/platform `Equal`
unfoldable pub platforms_equal : Table → Platform → Platform → Bool
unfolding normalize
platforms_equal table a b = table.equals (normalize table a) (normalize table b)

-- `m[k]` of a map of texts
abbrev pub at : String → List (String × String) → String
at k m = elim (lookup k m) [ none ↦ "" | some v ↦ v ]

-- The first text that is not empty.
abbrev pub or_else : String → String → String
or_else a b = if str_eq a "" then b else a

-- The parts of a key between slashes.
unfoldable pub parts : List ℕ → List ℕ × List (List ℕ)
parts [] = ([], [])
parts (c ∷ s) = let (w, ws) = parts s in if c == b'/' then ([], w ∷ ws) else (c ∷ w, ws)

abbrev not_nil : List ℕ → Bool
not_nil [] = false
not_nil _ = true

-- `isValidPlatformKey`
unfoldable pub is_valid_platform_key : String → Bool
unfolding parts
is_valid_platform_key key =
    let (w, ws) = parts (codes key) in
    not (any (λ c. c == 32 || (c == 9 || c == 10)) (codes key))
    && ((length ws == 1 || length ws == 2) && all not_nil (w ∷ ws))

-- What is wrong with a layer, by its index.
pub data LayerError : Type 0 where
  two_types : ℕ → LayerError
  no_type : ℕ → LayerError
  invalid_key : ℕ → String → LayerError
  no_path : ℕ → Platform → LayerError

-- The parameters are containerd's table and the parser of go-containerregistry.
module _ (table : Table) (parse_platform : String → Option Platform) where
  -- The loop over the sorted keys; `m` is the whole map.
  unfoldable pub by_equal_key : List (String × String) → List (String × String) → Platform → String
  unfolding platforms_equal
  by_equal_key m [] p = ""
  by_equal_key m ((k, v) ∷ rest) p =
      let later = by_equal_key m rest p in
      elim (parse_platform k) [
        | none ↦ later
        | some kp ↦ if platforms_equal table kp p && not (str_eq (at k m) "") then at k m else later
      ]

  -- `ResolveLocalFilePath`
  unfoldable pub resolve_local_file_path : LocalFile → Platform → String
  unfolding by_equal_key
  resolve_local_file_path lf p =
      let m = lf.path_per_platform in
      let exact =
        if str_eq p.variant ""
        then ""
        else at (p.os <> ("/" <> (p.architecture <> ("/" <> p.variant)))) m in
      or_else exact
        (or_else (by_equal_key m m p) (or_else (at (p.os <> ("/" <> p.architecture)) m) lf.path))

  abbrev pub has_local_file : Layer → Bool
  has_local_file layer =
      not (str_eq layer.local_file.path "") || not (length layer.local_file.path_per_platform == 0)

  abbrev pub has_local_dir : Layer → Bool
  has_local_dir layer = not (str_eq layer.local_dir.path "")

  unfoldable pub key_errors : ℕ → List (String × String) → List LayerError
  unfolding is_valid_platform_key
  key_errors i [] = []
  key_errors i ((k, v) ∷ m) =
      let rest = key_errors i m in if is_valid_platform_key k then rest else invalid_key i k ∷ rest

  unfoldable pub path_errors : ℕ → LocalFile → List Platform → List LayerError
  unfolding resolve_local_file_path
  path_errors i lf [] = []
  path_errors i lf (p ∷ ps) =
      let rest = path_errors i lf ps in
      if str_eq (resolve_local_file_path lf p) "" then no_path i p ∷ rest else rest

  unfoldable pub layer_errors : ℕ → Layer → List Platform → List LayerError
  unfolding key_errors path_errors
  layer_errors i layer ps =
      if has_local_file layer && has_local_dir layer
      then two_types i ∷ []
      else if not (has_local_file layer) && not (has_local_dir layer)
      then no_type i ∷ []
      else if not (has_local_file layer)
      then []
      else key_errors i layer.local_file.path_per_platform ++ path_errors i layer.local_file ps

  -- `ValidateLayers`: the layers from an index on
  unfoldable pub validate_layers : ℕ → List Layer → List Platform → List LayerError
  unfolding layer_errors
  validate_layers i [] ps = []
  validate_layers i (layer ∷ layers) ps =
      layer_errors i layer ps ++ validate_layers (suc i) layers ps
