-- ===== src/Build/Prepared.antt =====
-- What is settled before a build sends anything.
use contain.Base.{◌≡◌, ◌≢◌, refl, String, not, Option, some, List, [], ◌∷◌, arith}
use contain.Base.{
  str_eq, Result, ok, err, ◌>>>=◌, Holds, Holds->>=, Holds-of, guard, or_err, then_do, pure,
}
use contain.Build.{
  World, WriteOptions, BuildError, Plan, build_layers, prepare, build_artifact, write_output,
  run_append, from_layers, from_index, name_of, valid, all_matched, no_tag, bad_tag, bad_platform,
}
use contain.Images.{Action}
use contain.Layers.{LayerBuilder, LayersError, build}
use contain.Localdir.Filemap.{Archive}
use contain.Multiarch.Index.{TaggableIndex, new_from_multi_arch_base, matched_platforms}
use contain.Multiarch.Match.{match_platforms_for_append, unmatched_platforms}
use contain.Pushed.{new_build_output}
use contain.Schema.Config.{ContainConfig}
use contain.Schema.LocalFile.{Platform, LayerError, validate_layers}

module _ {Image Index : Type 0} (world : World Image Index) (config : ContainConfig)
    (opts : WriteOptions) (builders : List LayerBuilder) where
  -- Every layer was built for every one of the platforms.
  abbrev pub AreBuilt : List Platform → Type 0
  AreBuilt [] = Unit
  AreBuilt (p ∷ ps) = ((archives : List Archive) × (build builders p ≡ ok archives)) × AreBuilt ps

  build_layers_all :
      (ps : List Platform) (built : List (String × List Archive))
      → Holds (λ m. AreBuilt ps) (build_layers world config opts builders ps built)
  unfolding build_layers
  build_layers_all [] built = tt
  build_layers_all (p ∷ ps) built =
      Holds->>= _ (from_layers world config opts (build builders p)) _ (λ archives e.
        holds_with (archives, taken (build builders p) e)
          (build_layers world config opts builders ps
            ((name_of world config opts p, archives) ∷ built))
          (build_layers_all ps ((name_of world config opts p, archives) ∷ built)))
    where
      taken :
          (r : Result LayersError (List Archive)) {a : List Archive}
          → from_layers world config opts r ≡ ok a
          → r ≡ ok a
      taken r e = ground arith

      holds_with :
          ((archives : List Archive) × (build builders p ≡ ok archives))
          → (r : Result BuildError (List (String × List Archive))) → Holds (λ m. AreBuilt ps) r
          → Holds (λ m. AreBuilt (p ∷ ps)) r
      holds_with x (ok m) h = (x, h)
      holds_with x (err e) h = tt

  -- The platforms that the config asks for are there, its layers pass the check for the platforms
  -- that the build is for, and they were built for each of them.
  abbrev pub IsReady : Plan Index → Type 0
  IsReady plan =
      let targets = matched_platforms world.indexes plan.index in
      (unmatched_platforms world.layers.table world.layers.parse_platform config.platforms targets
        ≡ some [])
      × (validate_layers world.layers.table world.layers.parse_platform 0 config.layers targets
          ≡ [])
      × AreBuilt targets

  prepare-IsReady : Holds IsReady (prepare world config opts builders)
  unfolding prepare
  prepare-IsReady = Holds->>= _ (guard (not (str_eq config.tag "")) no_tag) _ (λ _ _.
      Holds->>= _ (or_err (world.indexes.refs.parse_reference config.tag) bad_tag) _ (λ tag _.
        Holds->>= _
          (or_err
            (match_platforms_for_append world.layers.table world.layers.parse_platform
              config.platforms)
            bad_platform)
          _
          (λ matcher _.
            Holds->>= _
              (from_index world config opts
                (new_from_multi_arch_base world.indexes matcher config.base))
              _
              (λ index _.
                Holds->>= _
                  (or_err
                    (unmatched_platforms world.layers.table world.layers.parse_platform
                      config.platforms (matched_platforms world.indexes index))
                    bad_platform)
                  _
                  (λ missing hm. Holds->>= _ (all_matched missing index.base_platforms) _ (λ _ ha.
                    Holds->>= _
                      (valid (
                        validate_layers world.layers.table world.layers.parse_platform 0
                          config.layers (matched_platforms world.indexes index)))
                      _
                      (λ _ hv.
                        Holds->>= _
                          (build_layers world config opts builders
                            (matched_platforms world.indexes index) [])
                          _
                          (λ built hb. (
                            none_missing _ missing index.base_platforms hm ha,
                            none_invalid _ hv,
                            Holds-of (λ m. AreBuilt (matched_platforms world.indexes index)) _
                                (build_layers_all (matched_platforms world.indexes index) []) hb,
                          )))))))))
    where
      none_missing :
          (o : Option (List String)) (cs declared : List String) {u : Unit {0}}
          → or_err o bad_platform ≡ ok cs
          → all_matched cs declared ≡ ok u
          → o ≡ some []
      none_missing o cs declared e k = ground arith

      none_invalid : (es : List LayerError) {u : Unit {0}} → valid es ≡ ok u → es ≡ []
      none_invalid es e = ground arith

  -- A build that has done anything to the outside was ready: every platform that the config asks for
  -- is in the base, and all layers were built for every platform before.
  pub run_append-IsReady :
      (h : List (Action Image TaggableIndex))
      → (run_append world config opts builders h).1 ≢ h
      → (plan : Plan Index) × (prepare world config opts builders ≡ ok plan) × IsReady plan
  unfolding run_append
  run_append-IsReady h changed =
      settled (prepare world config opts builders) refl prepare-IsReady changed
    where
      settled :
          (r : Result BuildError (Plan Index))
          → prepare world config opts builders ≡ r
          → Holds IsReady r
          → ¬ (
              (then_do r h (λ plan. build_artifact world config opts plan >>>= λ a.
              write_output world config opts >>>= λ _.
              pure {E = BuildError} (new_build_output plan.tag a))).1
              ≡ h)
          → (plan : Plan Index) × (prepare world config opts builders ≡ ok plan) × IsReady plan
      settled (ok plan) e ready c = (plan, e, ready)
      settled (err x) e ready c = absurd (c refl)
