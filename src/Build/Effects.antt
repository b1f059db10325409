-- ===== src/Build/Effects.antt =====
-- What a build sends, and when.
use contain.Base.{◌≡◌, refl, ◌∙◌, sym, String, Bool, true, false, List, [], ◌∷◌, arith}
use contain.Base.{
  if◌then◌else◌, str_eq, Result, ok, err, ◌>>>=◌, Effect, Keeps, Keeps->>>=, Leads, Leads->>>=,
  lift, pure, then_do, ltb,
}
use mathlib.Core.Path.{subst}
use contain.Appender.{append, AppendError, AppendResult}
use contain.Appender.Locked.{append_dry}
use contain.Build.{
  World, WriteOptions, BuildError, Plan, prepare, append_prototype, build_single, build_artifact,
  write_output, run_append, from_append, appender_of, layers_at, index_failed,
}
use contain.Images.{Action}
use contain.Layers.{LayerBuilder}
use contain.Localdir.Filemap.{Archive}
use contain.Multiarch.Index.{
  TaggableIndex, ToAppend, append_each, push_index, put_taggable, build_with_append, EachAppend,
  size_append, new_taggable_index, in_error, index_artifact,
}
use contain.Pushed.{Reference, Artifact}
use contain.Schema.Config.{ContainConfig}
use contain.Schema.LocalFile.{Platform}

module _ {Image Index : Type 0} (world : World Image Index) (config : ContainConfig)
    (opts : WriteOptions) where
  abbrev History : Type 0
  History = List (Action Image TaggableIndex)

  module _ (P : History → Type 0) where
    append_each-Keeps :
        (app : EachAppend world.indexes index_failed)
        → ((r : _) (t : String) (p : Platform) → Keeps P (app r t p))
        → (tag : String) (cs : List ToAppend)
        → Keeps P (append_each world.indexes index_failed app tag cs)
    unfolding append_each
    append_each-Keeps app k tag [] = λ h p. p
    append_each-Keeps app k tag (c ∷ cs) =
        Keeps->>>= P (app c.base tag c.platform) _ (k c.base tag c.platform) (λ added.
          Keeps->>>= P (append_each world.indexes index_failed app tag cs) _
            (append_each-Keeps app k tag cs) (λ more h p. p))

    pub append_prototype-Keeps :
        (layers : List (String × List Archive)) (base : _) (tag : String) (p : Platform)
        → Keeps P (
            append world.images world.range
              (appender_of world config opts base tag)
              (layers_at world config opts (world.indexes.refs.platform_string p) layers))
        → Keeps P (append_prototype world config opts layers base tag p)
    unfolding append_prototype
    append_prototype-Keeps layers base tag p k h q =
        framed
          (append world.images world.range (appender_of world config opts base tag)
            (layers_at world config opts (world.indexes.refs.platform_string p) layers) h)
          (k h q)
      where
        framed :
            (r : Result AppendError (AppendResult Image) × History)
            → P r.1
            → let f = from_append world config opts r in
              P (then_do f.0 f.1 (λ result. pure result.pushed)).1
        framed (ok x, g) q = q
        framed (err e, g) q = q

    -- Nothing but the appends, the index and the output touches anything.
    module _ (plan : Plan Index)
        (k : (r : Reference) (t : String) (p : Platform)
          → Keeps P (append_prototype world config opts plan.layers_by_platform r t p)) where
      build_single-Keeps : Keeps P (build_single world config opts plan)
      unfolding build_single
      build_single-Keeps =
          Keeps->>>= P
            (append_prototype world config opts plan.layers_by_platform plan.index.prototype.base
              plan.tag plan.index.prototype.platform)
            _ (k plan.index.prototype.base plan.tag plan.index.prototype.platform) (λ added h p. p)

      module _ (Q : History → Type 0) (weaker : (h : History) → P h → Q h)
          (put : (index : Index)
            → Leads P Q (push_index world.indexes index_failed opts.push plan.tag index)) where
        build_artifact-Leads : Leads P Q (build_artifact world config opts plan)
        unfolding build_artifact build_with_append
        build_artifact-Leads h p = several (ltb 1 (size_append world.indexes plan.index))
          where
            start : Index
            start = plan.index.index_start

            indexed : Effect (Action Image TaggableIndex) BuildError (Index × Artifact)
            indexed =
                build_with_append world.indexes index_failed plan.index
                  (append_prototype world config opts plan.layers_by_platform) plan.tag opts.push

            indexed-Leads : Leads P Q indexed
            indexed-Leads =
                Leads->>>= P P Q
                  (append_each world.indexes index_failed
                    (append_prototype world config opts plan.layers_by_platform) plan.tag
                    plan.index.to_append)
                  _ weaker
                  (append_each-Keeps (append_prototype world config opts plan.layers_by_platform) k
                    plan.tag plan.index.to_append)
                  (λ added.
                    Leads->>>= P Q Q
                      (push_index world.indexes index_failed opts.push plan.tag
                        (world.indexes.append_manifests start added))
                      _ (λ h q. q) (put (world.indexes.append_manifests start added))
                      (λ _.
                        Keeps->>>= Q
                          (lift (
                            in_error world.indexes index_failed (
                              index_artifact world.indexes index_failed plan.index plan.tag
                                (world.indexes.append_manifests start added))))
                          _ (λ h q. q) (λ a h q. q)))

            several :
                (b : Bool)
                → Q
                    ((if b
                        then (indexed >>>= λ r. pure r.1)
                        else build_single world config opts plan)
                      h).1
            several true =
                Leads->>>= P Q Q indexed (λ r. pure r.1) (λ h q. q) indexed-Leads (λ r h q. q) h p
            several false = weaker _ (build_single-Keeps h p)

  module _ (P Q : History → Type 0) (weaker : (h : History) → P h → Q h)
      (k : (plan : Plan Index) (r : Reference) (t : String) (p : Platform)
        → Keeps P (append_prototype world config opts plan.layers_by_platform r t p))
      (put : (tag : String) (index : Index)
        → Leads P Q (push_index world.indexes index_failed opts.push tag index))
      (save : Keeps Q (write_output world config opts)) where
    pub run_append-Leads :
        (builders : List LayerBuilder) → Leads P Q (run_append world config opts builders)
    unfolding run_append
    run_append-Leads builders =
        Leads->>>= P P Q (lift (prepare world config opts builders)) _ weaker (λ h p. p)
          (λ plan.
            Leads->>>= P Q Q (build_artifact world config opts plan) _ (λ h q. q)
              (build_artifact-Leads P plan (k plan) Q weaker (put plan.tag))
              (λ a. Keeps->>>= Q (write_output world config opts) _ save (λ _ h q. q)))

  -- A build that neither pushes nor writes a file leaves the outside as it is.
  pub run_append_dry :
      (builders : List LayerBuilder) (h : History)
      → opts.push ≡ false
      → str_eq opts.output_path "" ≡ true
      → (run_append world config opts builders h).1 ≡ h
  unfolding push_index write_output
  run_append_dry builders h no_push no_path =
      run_append-Leads Same Same (λ g e. e)
        (λ plan r t p. append_prototype-Keeps Same plan.layers_by_platform r t p (λ g e.
          append_dry world.images world.range (appender_of world config opts r t) _ g
            (rw no_push refl)
          ∙ e))
        (λ tag index g e.
          subst
            (λ b.
              ((if b
                  then (lift (
                        in_error world.indexes index_failed
                          (new_taggable_index world.indexes index))
                      >>>= λ t. put_taggable world.indexes index_failed tag t)
                  else pure tt)
                g).1
              ≡ h)
            (sym no_push) e)
        (λ g e. ground (arith, no_path, e)) builders h refl
    where
      Same : History → Type 0
      Same g = g ≡ h
