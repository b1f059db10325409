-- ===== src/Layers/Built.antt =====
-- The check of a config (localfile.go) and the builders (layers.go).
use contain.Base.{ℕ, suc, ◌≡◌, refl, ap, ◌∙◌, Bool, true, false, ◌&&◌, not, List, [], ◌∷◌, arith}
use contain.Base.{all, str_eq, if◌then◌else◌, Result, ok, err, ◌>>=◌, map_ok, &&_parts}
use mathlib.Core.List.{Mem, mem-cons, not-mem-nil}
use mathlib.Core.Logic.Or
use contain.Layers.{
  Context, LayersError, two_types, no_type, no_path_for, in_layer, LayerBuilder, configured,
  configure, new_local_file_builder, new_layer_builder, build_from, build, at_layer, run_layers,
  lift, as_dir,
}
use contain.Localdir.{From, from_filesystem, LocaldirError, new_file, new_dir}
use contain.Localdir.Filemap.{Archive}
use contain.Schema.Config.{LayerAttributes, LocalFile, LocalDir, Layer}
use contain.Schema.LocalFile.Resolved.{is_sound, resolves, validate_layers_sound}
use contain.Schema.LocalFile.{
  Platform, has_local_file, has_local_dir, is_valid_platform_key, validate_layers,
  resolve_local_file_path,
}

-- The errors that say that a layer has no source: no type, two types, or no path for a platform.
abbrev pub lacks_source : LayersError → Bool
lacks_source two_types = true
lacks_source no_type = true
lacks_source (no_path_for p) = true
lacks_source (in_layer i p e) = lacks_source e
lacks_source _ = false

abbrev pub has_source {ℓ} : {A : Type ℓ} → Result LayersError A → Bool
has_source (ok a) = true
has_source (err e) = not (lacks_source e)

has_source->>= {ℓ κ} :
    {A : Type ℓ} {B : Type κ} (m : Result LayersError A) (f : A → Result LayersError B)
    → has_source m ≡ true
    → ((a : A) → has_source (f a) ≡ true)
    → has_source (m >>= f) ≡ true
has_source->>= (ok a) f h k = k a
has_source->>= (err e) f h k = h

>>=-assoc {ℓ κ μ} :
    {A : Type ℓ} {B : Type κ} {C : Type μ} (m : Result LayersError A) (f : A → Result LayersError B)
    (g : B → Result LayersError C)
    → (m >>= f >>= g) ≡ (m >>= λ a. f a >>= g)
>>=-assoc (ok a) f g = refl
>>=-assoc (err e) f g = refl

all-mem {ℓ} :
    {A : Type ℓ} (f : A → Bool) (xs : List A) (a : A) → all f xs ≡ true → Mem a xs → f a ≡ true
all-mem f [] a h m = absurd (not-mem-nil m)
all-mem f (x ∷ xs) a h m =
    let (hx, hxs) = &&_parts (f x) (all f xs) h in
    let prop : IsProp (f a ≡ true) = hlevel in
    Or.elim prop (mem-cons.0 m) (λ e. ap f e ∙ hx) (all-mem f xs a hxs)

sound_parts :
    (file dir keys paths : Bool)
    → (if file then not dir && (keys && paths) else dir) ≡ true
    → ((if file then not dir else dir) ≡ true) × (file ≡ true → paths ≡ true)
sound_parts true dir keys paths h = ground arith
sound_parts false dir keys paths h = (h, λ e. ground arith)

refute : (b : Bool) → not b ≡ true → b ≡ false
refute b h = ground arith

module _ (ctx : Context) where
  configured-has_source : (dir : From) (cfg : LocalDir) → has_source (configured ctx dir cfg) ≡ true
  unfolding configured
  configured-has_source dir cfg = ground arith

  configure-has_source :
      (dir : From) (cfg : LocalDir) (attributes : LayerAttributes) (p : Platform)
      → has_source (configure ctx dir cfg attributes >>= λ b. b p) ≡ true
  unfolding configure
  configure-has_source dir cfg attributes p =
      ap has_source (>>=-assoc (configured ctx dir cfg) _ _)
      ∙ has_source->>= (configured ctx dir cfg) _ (configured-has_source dir cfg)
          (λ from. lift-has_source (from_filesystem ctx.fs ctx.tar from attributes))
    where
      lift-has_source : (r : Result LocaldirError Archive) → has_source (lift ctx r) ≡ true
      lift-has_source (ok a) = refl
      lift-has_source (err e) = refl

  new_local_file_builder-has_source :
      (lf : LocalFile) (attributes : LayerAttributes) (p : Platform)
      → str_eq (resolve_local_file_path ctx.table ctx.parse_platform lf p) "" ≡ false
      → has_source (new_local_file_builder ctx lf attributes p) ≡ true
  unfolding new_local_file_builder
  new_local_file_builder-has_source lf attributes p h = rw h (
      configure-has_source new_file
        (as_dir ctx lf (resolve_local_file_path ctx.table ctx.parse_platform lf p)) attributes p)

  chosen-has_source :
      (file dir : Bool) (f : LayerBuilder) (g : Result LayersError LayerBuilder) (p : Platform)
      → (if file then not dir else dir) ≡ true
      → (file ≡ true → has_source (f p) ≡ true)
      → has_source (g >>= λ b. b p) ≡ true
      → has_source (
          (if file then (if dir then err two_types else ok f) else if dir then g else err no_type)
          >>= λ b. b p)
        ≡ true
  chosen-has_source true true f g p h hf hg = ground arith
  chosen-has_source true false f g p h hf hg = hf refl
  chosen-has_source false true f g p h hf hg = hg
  chosen-has_source false false f g p h hf hg = ground arith

  sound-has_source :
      (layer : Layer) (ps : List Platform)
      → is_sound ctx.table ctx.parse_platform ps layer ≡ true
      → (p : Platform) → Mem p ps
      → has_source (new_layer_builder ctx layer >>= λ b. b p) ≡ true
  unfolding new_layer_builder
  sound-has_source layer ps h p m =
      let parts =
        sound_parts (has_local_file ctx.table ctx.parse_platform layer)
          (has_local_dir ctx.table ctx.parse_platform layer)
          (all (λ (k, _). is_valid_platform_key k) layer.local_file.path_per_platform)
          (resolves ctx.table ctx.parse_platform layer.local_file ps) h in
      chosen-has_source (has_local_file ctx.table ctx.parse_platform layer)
        (has_local_dir ctx.table ctx.parse_platform layer) _ _ p parts.0
        (λ file.
          new_local_file_builder-has_source layer.local_file layer.attributes p
            (refute _ (all-mem _ ps p (parts.1 file) m)))
        (configure-has_source new_dir layer.local_dir layer.attributes p)

  joined-has_source :
      (i : ℕ) (p : Platform) (x : Result LayersError LayerBuilder)
      (y : Result LayersError (List LayerBuilder))
      → has_source (x >>= λ b. b p) ≡ true
      → has_source (y >>= λ bs. build_from (suc i) bs p) ≡ true
      → has_source ((x >>= λ b. y >>= λ bs. ok (b ∷ bs)) >>= λ bs. build_from i bs p) ≡ true
  unfolding build_from
  joined-has_source i p (err e) y hx hy = hx
  joined-has_source i p (ok b) (err e) hx hy = hy
  joined-has_source i p (ok b) (ok bs) hx hy =
      has_source->>= (at_layer i p (b p)) _ (at_layer-has_source (b p) hx)
        (λ layer. has_source->>= (build_from (suc i) bs p) _ hy (λ rest. refl))
    where
      at_layer-has_source :
          (r : Result LayersError Archive)
          → has_source r ≡ true
          → has_source (at_layer i p r) ≡ true
      at_layer-has_source (ok a) h = refl
      at_layer-has_source (err e) h = h

  all_built :
      (i : ℕ) (layers : List Layer) (ps : List Platform) (p : Platform)
      → Mem p ps
      → all (is_sound ctx.table ctx.parse_platform ps) layers ≡ true
      → has_source (map_ok (new_layer_builder ctx) layers >>= λ bs. build_from i bs p) ≡ true
  unfolding build_from
  all_built i [] ps p m h = refl
  all_built i (layer ∷ layers) ps p m h =
      let (first, rest) =
        &&_parts (is_sound ctx.table ctx.parse_platform ps layer)
          (all (is_sound ctx.table ctx.parse_platform ps) layers) h in
      joined-has_source i p (new_layer_builder ctx layer) (map_ok (new_layer_builder ctx) layers)
        (sound-has_source layer ps first p m) (all_built (suc i) layers ps p m rest)

  -- Where ValidateLayers reports nothing for some platforms, no layer fails to build for one of them
  -- for want of a type or of a path for the platform.
  pub build-has_source :
      (layers : List Layer) (ps : List Platform) (p : Platform)
      → validate_layers ctx.table ctx.parse_platform 0 layers ps ≡ []
      → Mem p ps
      → has_source (run_layers ctx layers >>= λ bs. build bs p) ≡ true
  unfolding build run_layers
  build-has_source layers ps p h m =
      all_built 0 layers ps p m (validate_layers_sound ctx.table ctx.parse_platform 0 layers ps h)
