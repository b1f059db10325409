-- ===== src/Layers.antt =====
-- layers.go: the builders of the layers of a config.
pub mod Built
use contain.Base.{
  ℕ, zero, suc, String, Bool, true, false, ◌&&◌, ◌||◌, not, Option, none, some, List, [], ◌∷◌,
}
use contain.Base.{
  length, if◌then◌else◌, ltb, ◌==◌, str_eq, Result, ok, err, ◌>>=◌, ◌>>◌, guard, or_err, map_ok, ℤ,
  pos, negsuc,
}
use contain.Localdir.{
  From, new_file, new_dir, PathMapper, new_path_mapper_prepend, PatternMatcher, LocaldirError,
  FileSystem, from_filesystem,
}
use contain.Localdir.Filemap.{Tar, Archive}
use contain.Schema.Config.{LayerAttributes, LocalFile, LocalDir, Layer}
use contain.Schema.LocalFile.{Platform, Table, resolve_local_file_path, has_local_file}

pub data LayersError : Type 0 where
  two_types no_type bad_ignore bad_size : LayersError
  fatal : LayersError  -- `log.Fatalf`
  no_path_for : Platform → LayersError
  failed : LocaldirError → LayersError
  in_layer : ℕ → Platform → LayersError → LayersError

abbrev pub LayerBuilder : Type 0
LayerBuilder = Platform → Result LayersError Archive

-- What the builders run on: the file system and the archive writer; `patternmatcher.New` and
-- `strconv.ParseInt` in base 10; containerd's table and the parser of platforms.
pub record Context : Type 0 where
  pub fs : FileSystem
  pub tar : Tar
  pub new_matcher : List String → Option PatternMatcher
  pub parse_int : String → Option ℤ
  pub table : Table
  pub parse_platform : String → Option Platform

module _ (ctx : Context) where
  -- `localdir.NewSize`
  unfoldable pub new_size : String → Option ℤ
  new_size config = ctx.parse_int config

  abbrev pub lift : Result LocaldirError Archive → Result LayersError Archive
  lift (ok a) = ok a
  lift (err e) = err (failed e)

  abbrev pub with_container_path : String → From → Result LayersError From
  with_container_path p dir = if str_eq p "" then ok dir else do
    to ← or_err (new_path_mapper_prepend p) fatal
    ok (record dir { container_path = some to })

  abbrev pub with_ignore : List String → From → Result LayersError From
  with_ignore [] dir = ok dir
  with_ignore (p ∷ ps) dir = do
    ignores ← or_err (ctx.new_matcher (p ∷ ps)) bad_ignore
    ok (record dir { ignore = some ignores })

  abbrev pub with_max_files : ℤ → From → From
  with_max_files n dir = elim n [
    | pos m ↦ if ltb 0 m then record dir { max_files = pos m } else dir
    | negsuc m ↦ dir
  ]

  abbrev pub with_max_size : String → From → Result LayersError From
  with_max_size s dir =
      if str_eq s ""
      then ok dir
      else do n ← or_err (new_size s) bad_size; ok (record dir { max_size = n })

  -- The `From` that `configure` captures.
  unfoldable pub configured : From → LocalDir → Result LayersError From
  unfolding new_path_mapper_prepend new_size
  configured dir cfg = do
    with_path ← with_container_path cfg.container_path (record dir { path = cfg.path })
    with_patterns ← with_ignore cfg.ignore with_path
    with_max_size cfg.max_size (with_max_files cfg.max_files with_patterns)

  -- `configure`
  unfoldable pub configure : From → LocalDir → LayerAttributes → Result LayersError LayerBuilder
  unfolding configured
  configure dir cfg attributes = do
    from ← configured dir cfg
    ok (λ platform. lift (from_filesystem ctx.fs ctx.tar from attributes))

  -- The `LocalDir` that `newLocalFileBuilder` makes of a resolved path.
  abbrev pub as_dir : LocalFile → String → LocalDir
  as_dir lf resolved = record {
    path = resolved;
    container_path = lf.container_path;
    ignore = [];
    max_files = pos 0;
    max_size = lf.max_size;
  }

  -- `newLocalFileBuilder`
  unfoldable pub new_local_file_builder : LocalFile → LayerAttributes → LayerBuilder
  unfolding configure new_file
  new_local_file_builder lf attributes platform = do
    let resolved = resolve_local_file_path ctx.table ctx.parse_platform lf platform
    guard (not (str_eq resolved "")) (no_path_for platform)
    inner ← configure new_file (as_dir lf resolved) attributes
    inner platform

  -- `NewLayerBuilder`
  unfoldable pub new_layer_builder : Layer → Result LayersError LayerBuilder
  unfolding new_local_file_builder configure new_dir
  new_layer_builder cfg =
      if has_local_file ctx.table ctx.parse_platform cfg
      then (if not (str_eq cfg.local_dir.path "")
          then err two_types
          else ok (new_local_file_builder cfg.local_file cfg.attributes))
      else if not (str_eq cfg.local_dir.path "")
      then configure new_dir cfg.local_dir cfg.attributes
      else err no_type

  -- `RunLayers` of pkg/contain/libcontain.go
  unfoldable pub run_layers : List Layer → Result LayersError (List LayerBuilder)
  unfolding new_layer_builder
  run_layers layers = map_ok new_layer_builder layers

abbrev pub at_layer : ℕ → Platform → Result LayersError Archive → Result LayersError Archive
at_layer i platform (ok a) = ok a
at_layer i platform (err e) = err (in_layer i platform e)

-- The loop of `Build`, from an index on.
unfoldable pub build_from : ℕ → List LayerBuilder → Platform → Result LayersError (List Archive)
build_from i [] platform = ok []
build_from i (b ∷ bs) platform = do
  layer ← at_layer i platform (b platform)
  rest ← build_from (suc i) bs platform
  ok (layer ∷ rest)

-- `Build`
unfoldable pub build : List LayerBuilder → Platform → Result LayersError (List Archive)
unfolding build_from
build builders platform = build_from 0 builders platform
