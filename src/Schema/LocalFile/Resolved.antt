-- ===== src/Schema/LocalFile/Resolved.antt =====
-- What a config that passes the check has (localfile.go).
use contain.Base.{
  ℕ, suc, ◌≡◌, refl, String, Bool, true, ◌&&◌, not, List, [], ◌∷◌, ◌++◌, Option, all, str_eq,
}
use contain.Base.{if◌then◌else◌, arith, &&_both}
use contain.Schema.Config.{LocalFile, Layer}
use contain.Schema.LocalFile.{
  Platform, Table, LayerError, is_valid_platform_key, key_errors, path_errors,
}
use contain.Schema.LocalFile.{
  layer_errors, validate_layers, resolve_local_file_path, has_local_file, has_local_dir,
}

append-none : (xs ys : List LayerError) → xs ++ ys ≡ [] → (xs ≡ []) × (ys ≡ [])
append-none [] ys h = (refl, h)
append-none (x ∷ xs) ys h = absurd (cc)

module _ (table : Table) (parse_platform : String → Option Platform) where
  -- A path for each of the platforms.
  abbrev pub resolves : LocalFile → List Platform → Bool
  resolves lf ps = all (λ p. not (str_eq (resolve_local_file_path table parse_platform lf p) "")) ps

  -- A layer of exactly one kind; a file with valid keys and a path for each platform.
  abbrev pub is_sound : List Platform → Layer → Bool
  is_sound ps layer =
      if has_local_file table parse_platform layer
      then not (has_local_dir table parse_platform layer)
        && (all (λ (k, _). is_valid_platform_key k) layer.local_file.path_per_platform
            && resolves layer.local_file ps)
      else has_local_dir table parse_platform layer

  keys-valid :
      (i : ℕ) (m : List (String × String))
      → key_errors table parse_platform i m ≡ []
      → all (λ (k, _). is_valid_platform_key k) m ≡ true
  unfolding key_errors
  keys-valid i [] h = refl
  keys-valid i ((k, v) ∷ m) h = let ih = keys-valid i m in ground arith

  paths-resolve :
      (i : ℕ) (lf : LocalFile) (ps : List Platform)
      → path_errors table parse_platform i lf ps ≡ []
      → resolves lf ps ≡ true
  unfolding path_errors
  paths-resolve i lf [] h = refl
  paths-resolve i lf (p ∷ ps) h = let ih = paths-resolve i lf ps in ground arith

  layer_sound :
      (i : ℕ) (layer : Layer) (ps : List Platform)
      → layer_errors table parse_platform i layer ps ≡ []
      → is_sound ps layer ≡ true
  unfolding layer_errors
  layer_sound i layer ps h =
      let split =
        append-none (key_errors table parse_platform i layer.local_file.path_per_platform)
          (path_errors table parse_platform i layer.local_file ps) in
      let keys = keys-valid i layer.local_file.path_per_platform in
      let paths = paths-resolve i layer.local_file ps in ground arith

  -- Where ValidateLayers reports nothing, each layer has exactly one type, and each layer of a local
  -- file has valid keys only and resolves to a path that is not empty for each of the platforms.
  pub validate_layers_sound :
      (i : ℕ) (layers : List Layer) (ps : List Platform)
      → validate_layers table parse_platform i layers ps ≡ []
      → all (is_sound ps) layers ≡ true
  unfolding validate_layers
  validate_layers_sound i [] ps h = refl
  validate_layers_sound i (layer ∷ layers) ps h =
      let (first, rest) =
        append-none (layer_errors table parse_platform i layer ps)
          (validate_layers table parse_platform (suc i) layers ps) h in
      &&_both _ _ (layer_sound i layer ps first) (validate_layers_sound (suc i) layers ps rest)
