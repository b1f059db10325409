-- ===== src/Build/Order.antt =====
-- In which order a build sends images and the index, and under which lock.
use contain.Base.{◌≡◌, refl, Bool, true, false, ◌||◌, List, [], ◌∷◌, arith, String}
use contain.Base.{
  if◌then◌else◌, str_eq, Result, ok, err, ◌>>>=◌, Effect, Keeps, Leads, Leads->>>=, lift, pure,
}
use contain.Appender.Locked.{append-Keeps, locked_writes, Unlocked, append-Unlocked}
use contain.Build.{
  World, WriteOptions, BuildError, write_output, run_append, appender_of, format_of, output,
  bad_format, index_failed,
}
use contain.Build.Effects.{run_append-Leads, append_prototype-Keeps}
use contain.Images.{Action, acquired, released, wrote, put_index, saved}
use contain.Layers.{LayerBuilder}
use contain.Multiarch.Index.{TaggableIndex, push_index, put_taggable, new_taggable_index, in_error}
use contain.Schema.Config.{ContainConfig}

module _ {Image : Type 0} where
  unfoldable pub no_index : List (Action Image TaggableIndex) → Bool
  no_index [] = true
  no_index (put_index tag t accepted ∷ h) = false
  no_index (_ ∷ h) = no_index h

  -- At most one index was put, after every image.
  unfoldable pub index_last : List (Action Image TaggableIndex) → Bool
  unfolding no_index
  index_last (saved path done ∷ h) = index_last h
  index_last (put_index tag t accepted ∷ h) = no_index h
  index_last h = no_index h

  no_index-index_last :
      (h : List (Action Image TaggableIndex)) → no_index h ≡ true → index_last h ≡ true
  unfolding index_last no_index
  no_index-index_last [] e = refl
  no_index-index_last (acquired ∷ h) e = e
  no_index-index_last (released ∷ h) e = e
  no_index-index_last (wrote t i b ∷ h) e = e
  no_index-index_last (put_index t i b ∷ h) e = ground arith
  no_index-index_last (saved p b ∷ h) e = no_index-index_last h e

module _ {Image Index : Type 0} (world : World Image Index) (config : ContainConfig)
    (opts : WriteOptions) where
  -- A push of an index puts one, where it does anything.
  push_index-Leads :
      (P Q : List (Action Image TaggableIndex) → Type 0)
      → ((h : List (Action Image TaggableIndex)) → P h → Q h)
      → ((h : List (Action Image TaggableIndex)) (tag : String) (t : TaggableIndex) (b : Bool)
          → P h
          → Q (put_index tag t b ∷ h))
      → (tag : String) (index : Index)
      → Leads P Q (push_index world.indexes index_failed opts.push tag index)
  unfolding push_index put_taggable
  push_index-Leads P Q weaker put tag index h p = pushed opts.push
    where
      prepared : Effect (Action Image TaggableIndex) BuildError TaggableIndex
      prepared = lift (in_error world.indexes index_failed (new_taggable_index world.indexes index))

      pushed :
          (b : Bool)
          → Q
              ((if b
                  then (prepared >>>= λ t. put_taggable world.indexes index_failed tag t)
                  else pure tt)
                h).1
      pushed true =
          Leads->>>= P P Q prepared _ weaker (λ g q. q)
            (λ t g q. put g tag t (world.indexes.put g tag t) q) h p
      pushed false = weaker h p

  write_output-Keeps :
      (Q : List (Action Image TaggableIndex) → Type 0)
      → ((h : List (Action Image TaggableIndex)) (path : String) (b : Bool)
          → Q h
          → Q (saved path b ∷ h))
      → Keeps Q (write_output world config opts)
  unfolding write_output
  write_output-Keeps Q save h q =
      written (str_eq opts.output_path "")
        (str_eq (format_of world config opts) "oci"
          || str_eq (format_of world config opts) "tarball")
        (world.save h (format_of world config opts) opts.output_path)
    where
      written :
          (a b done : Bool)
          → let r : Result BuildError (Unit {0}) × List (Action Image TaggableIndex) =
              if a
              then (ok tt, h)
              else if b
              then (if done then ok tt else err output, saved opts.output_path done ∷ h)
              else (err bad_format, h) in
            Q r.1
      written true b done = q
      written false true done = save h opts.output_path done q
      written false false done = q

  -- A build puts at most one index, and puts it after every image that it writes.
  pub run_append-index_last :
      (builders : List LayerBuilder) (h : List (Action Image TaggableIndex))
      → no_index h ≡ true
      → index_last (run_append world config opts builders h).1 ≡ true
  unfolding index_last no_index
  run_append-index_last builders h start =
      run_append-Leads world config opts (λ g. no_index g ≡ true) (λ g. index_last g ≡ true)
        no_index-index_last
        (λ plan r t p.
          append_prototype-Keeps world config opts (λ g. no_index g ≡ true) plan.layers_by_platform
            r t p
            (append-Keeps world.images world.range (appender_of world config opts r t)
              (λ g. no_index g ≡ true) (λ g e. e) (λ g e. e) (λ g tag img accepted e. e) _))
        (push_index-Leads (λ g. no_index g ≡ true) (λ g. index_last g ≡ true) no_index-index_last
          (λ g tag t b e. e))
        (write_output-Keeps (λ g. index_last g ≡ true) (λ g path b e. e)) builders h start

  -- A build with a push lock writes images only while it has the lock, and has given it back at the
  -- end, whether it succeeds or fails.
  pub run_append-Unlocked :
      (builders : List LayerBuilder) (h : List (Action Image TaggableIndex))
      → opts.push_lock ≡ true
      → Unlocked h
      → Unlocked (run_append world config opts builders h).1
  unfolding locked_writes
  run_append-Unlocked builders h on start =
      run_append-Leads world config opts Unlocked Unlocked (λ g e. e)
        (λ plan r t p.
          append_prototype-Keeps world config opts Unlocked plan.layers_by_platform r t p (λ g e.
            append-Unlocked world.images world.range (appender_of world config opts r t) _ g on e))
        (push_index-Leads Unlocked Unlocked (λ g e. e) (λ g tag t b e. e))
        (write_output-Keeps Unlocked (λ g path b e. e)) builders h start
