-- ===== src/Localdir.antt =====
-- localdir.go, singlefile.go and size.go: the files that make a layer.
pub mod Filemap
pub mod Limits
pub mod Reproducible
use contain.Base.{
  ℕ, ◌+◌, ◌/◌, ◌%◌, ◌^◌, String, ◌<>◌, Bool, true, false, ◌&&◌, not, Option, none, some, List, [],
  ◌∷◌, ◌++◌,
}
use contain.Base.{
  length, any, if◌then◌else◌, ltb, leb, ◌==◌, str_eq, codes, Result, ok, err, ◌>>=◌, ◌>>◌, guard,
  or_err, ℤ, pos, negsuc, exceeds, starts_with,
}
use contain.Localdir.Filemap.{FileInfo, Tar, TarError, Archive, layer_from_files, octal}
use contain.Schema.Config.{LayerAttributes}

abbrev pub PathMapper : Type 0
PathMapper = String → String

-- `MatchesOrParentMatches` of a `PatternMatcher`; none is an error.
abbrev pub PatternMatcher : Type 0
PatternMatcher = String → Option Bool

pub record From : Type 0 where
  pub is_file : Bool
  pub path : String
  pub container_path : Option PathMapper
  pub ignore : Option PatternMatcher
  pub max_files : ℤ
  pub max_size : ℤ

unfoldable pub new_file : From
new_file = record {
  is_file = true;
  path = "";
  container_path = none;
  ignore = none;
  max_files = pos 1;
  max_size = pos 0;
}

unfoldable pub new_dir : From
new_dir = record {
  is_file = false;
  path = "";
  container_path = none;
  ignore = none;
  max_files = pos 0;
  max_size = pos 0;
}

abbrev last_is : ℕ → List ℕ → Bool
last_is c [] = false
last_is c (d ∷ []) = d == c
last_is c (d ∷ e ∷ s) = last_is c (e ∷ s)

-- `NewPathMapperPrepend`; none is `log.Fatalf`.
unfoldable pub new_path_mapper_prepend : String → Option PathMapper
new_path_mapper_prepend prepend_dir =
    if not (starts_with prepend_dir "/")
    then none
    else if last_is 47 (codes prepend_dir)
    then none
    else some
        (λ original. if str_eq original "." then prepend_dir else prepend_dir <> ("/" <> original))

pub data LocaldirError : Type 0 where
  no_path no_container_path is_a_file walk_failed ignore_failed info_failed : LocaldirError
  too_many_files readlink_failed read_failed too_large empty_layer : LocaldirError
  tar_failed : TarError → LocaldirError

-- `fs.DirEntry`: the mode of `Info`, or none when it fails.
pub record DirEntry : Type 0 where
  pub is_dir : Bool
  pub info : Option ℕ

-- The arguments of one call of the function that walks.
pub record Visit : Type 0 where
  pub path : String
  pub entry : Option DirEntry
  pub failed : Bool

pub data ByteSource : Type 0 where
  dir_fs single_file : String → ByteSource

-- The file system: what `fs.WalkDir` visits below a directory, in its order, `os.Readlink` below a
-- directory, and `filepath.IsAbs`; a `PatternMatcher` of no patterns.
pub record FileSystem : Type 0 where
  pub walk_dir : String → List Visit
  pub readlink : String → String → Option String
  pub read_dir_file : String → String → Option (List ℕ)
  pub os_read_file : String → Option (List ℕ)
  pub is_abs : String → Bool
  pub ignore_nothing : PatternMatcher

-- The variables that the walk changes.
pub record DirWalk : Type 0 where
  pub files : List FileInfo
  pub bytes_total : ℕ
  pub seen_dirs : List String

-- `mode & os.ModeSymlink != 0`
abbrev pub is_link : ℕ → Bool
is_link mode = mode / 2 ^ 27 % 2 == 1

abbrev pub mode_of : Option ℕ → ℕ
mode_of none = octal 6 4 4
mode_of (some mode) = mode

-- `limit > 0 && n >= limit`
abbrev pub reaches : ℕ → ℤ → Bool
reaches n (pos m) = ltb 0 m && leb m n
reaches n (negsuc m) = false

abbrev pub push : DirWalk → FileInfo → DirWalk
push w f = record w { files = w.files ++ (f ∷ []) }

-- The three literals of `FileInfo` in the source.
abbrev pub dir_info : String → ℕ → FileInfo
dir_info topath mode = record {
  path = topath;
  content = [];
  mode = mode;
  is_dir = true;
  is_symlink = false;
  link_target = "";
}

abbrev pub link_info : String → ℕ → String → FileInfo
link_info topath mode target = record {
  path = topath;
  content = [];
  mode = mode;
  is_dir = false;
  is_symlink = true;
  link_target = target;
}

abbrev pub file_info : String → List ℕ → ℕ → FileInfo
file_info topath file mode = record {
  path = topath;
  content = file;
  mode = mode;
  is_dir = false;
  is_symlink = false;
  link_target = "";
}

module _ (fs : FileSystem) where
  -- `fs.ReadFile` of `os.DirFS`, and `SingleFileFS.ReadFile`
  unfoldable pub read_file : ByteSource → String → Option (List ℕ)
  read_file (dir_fs dir) name = fs.read_dir_file dir name
  read_file (single_file path) name = if not (str_eq name ".") then none else fs.os_read_file path

  -- `isWithinSourceTree`
  unfoldable pub is_within_source_tree : String → String → Bool
  is_within_source_tree link_target source_path = if fs.is_abs link_target then false else true

  -- The parameters are the `From`, with its mapper and matcher set, and the `byteSource`.
  module _ (dir : From) (to : PathMapper) (ignores : PatternMatcher) (source : ByteSource) where
    unfoldable pub add_dir : DirWalk → String → Option ℕ → Result LocaldirError DirWalk
    add_dir w topath info = if any (λ d. str_eq d topath) w.seen_dirs then ok w else do
      mode ← or_err info info_failed
      ok (push (record w { seen_dirs = topath ∷ w.seen_dirs }) (dir_info topath mode))

    unfoldable pub add_symlink : DirWalk → String → ℕ → Result LocaldirError DirWalk
    unfolding is_within_source_tree
    add_symlink w path mode = do
      target ← or_err (fs.readlink dir.path path) readlink_failed
      ok (
          if is_within_source_tree target dir.path
          then push w (link_info (to path) mode target)
          else w)

    unfoldable pub add_regular : DirWalk → String → Option ℕ → Result LocaldirError DirWalk
    unfolding read_file
    add_regular w path info = do
      file ← or_err (read_file source path) read_failed
      let bytes = w.bytes_total + length file
      guard (not (exceeds bytes dir.max_size)) too_large
      ok (push (record w { bytes_total = bytes }) (file_info (to path) file (mode_of info)))

    -- What is no directory: `info` is `fileInfo`, or nil where no entry was given.
    unfoldable pub add_file : DirWalk → String → Option ℕ → Result LocaldirError DirWalk
    unfolding add_symlink add_regular
    add_file w path info = elim info [
      | none ↦ add_regular w path none
      | some mode ↦ if is_link mode then add_symlink w path mode else add_regular w path (some mode)
    ]

    unfoldable pub add_entry : DirWalk → String → Option DirEntry → Result LocaldirError DirWalk
    unfolding add_dir add_file
    add_entry w path none = do
      guard (not (reaches (length w.files) dir.max_files)) too_many_files
      add_file w path none
    add_entry w path (some d) = if d.is_dir then add_dir w (to path) d.info else do
      guard (not (reaches (length w.files) dir.max_files)) too_many_files
      mode ← or_err d.info info_failed
      add_file w path (some mode)

    abbrev is_none : Option DirEntry → Bool
    is_none none = true
    is_none (some d) = false

    -- `add`
    unfoldable pub add : DirWalk → Visit → Result LocaldirError DirWalk
    unfolding add_entry
    add w v =
        if v.failed
        then (if str_eq v.path "." && (is_none v.entry && not dir.is_file)
            then err is_a_file
            else err walk_failed)
        else do
          ignore ← or_err (ignores v.path) ignore_failed
          if ignore then ok w else add_entry w v.path v.entry

    -- `fs.WalkDir` calls `add` until it fails.
    unfoldable pub add_all : DirWalk → List Visit → Result LocaldirError DirWalk
    unfolding add
    add_all w [] = ok w
    add_all w (v ∷ vs) = do w' ← add w v; add_all w' vs

  abbrev pub nothing_yet : DirWalk
  nothing_yet = record { files = []; bytes_total = 0; seen_dirs = [] }

  abbrev pub mapper_of : From → Result LocaldirError PathMapper
  mapper_of dir = elim dir.container_path [
    | some to ↦ ok to
    | none ↦ if dir.is_file then err no_container_path else ok (λ original. original)
  ]

  abbrev pub patterns_of : From → PatternMatcher
  patterns_of dir = elim dir.ignore [ none ↦ fs.ignore_nothing | some ignores ↦ ignores ]

  abbrev pub the_file : Visit
  the_file = record { path = "."; entry = none; failed = false }

  unfoldable pub collect : From → PathMapper → PatternMatcher → Result LocaldirError DirWalk
  unfolding add_all
  collect dir to ignores =
      if not dir.is_file
      then add_all dir to ignores (dir_fs dir.path) nothing_yet (fs.walk_dir dir.path)
      else add dir to ignores (single_file dir.path) nothing_yet the_file

  abbrev pub from_tar : Result TarError Archive → Result LocaldirError Archive
  from_tar (ok a) = ok a
  from_tar (err e) = err (tar_failed e)

  -- `FromFilesystem`, which is `FromFilesystemWithMetadata`
  unfoldable pub from_filesystem : Tar → From → LayerAttributes → Result LocaldirError Archive
  unfolding collect layer_from_files
  from_filesystem tar dir attributes = do
    guard (not (str_eq dir.path "")) no_path
    to ← mapper_of dir
    w ← collect dir to (patterns_of dir)
    guard (not (length w.files == 0)) empty_layer
    from_tar (layer_from_files tar w.files attributes)
