-- ===== src/Localdir/Limits.antt =====
-- The limits of a layer from the file system (localdir.go, filemap_chmod.go).
use contain.Base.{
  ℕ, ◌+◌, ◌≤◌, ◌≡◌, refl, map, String, Bool, true, false, not, Option, none, some, List, [], ◌∷◌,
  ◌++◌, arith,
}
use contain.Base.{
  length, if◌then◌else◌, total, total-append, ◌==◌, Result, ok, err, Holds, Holds-if, Holds->>=,
  Holds-of, any, Bool-cases, ◌⊎◌, inl, inr, guard, or_err, ℤ, pos, negsuc, exceeds, str_eq,
}
use contain.Localdir.Filemap.{
  TarError, FileInfo, Tar, TarEntry, Archive, type_dir, type_symlink, tar_entry, insert,
  sort_by_path, layer_from_files,
}
use contain.Localdir.{
  From, FileSystem, DirWalk, Visit, DirEntry, ByteSource, PathMapper, PatternMatcher, add_dir,
  add_symlink, add_regular, add_file, add_entry, add, add_all, collect, from_filesystem,
  is_within_source_tree, LocaldirError, dir_fs, single_file, nothing_yet, the_file, mapper_of,
  patterns_of, from_tar, no_path, empty_layer, info_failed, readlink_failed, read_failed, too_large,
  read_file, is_link, reaches, push, dir_info, link_info, file_info, mode_of, too_many_files,
  is_a_file, walk_failed, ignore_failed,
}
use mathlib.Core.Path.{subst}
use contain.Localdir.Filemap.Entries.{layer_from_files_entries}
use contain.Schema.Config.{LayerAttributes}

-- Measures of a file, and of the entry that it becomes.
abbrev bytes_of : FileInfo → ℕ
bytes_of f = length f.content

abbrev one_unless_dir : FileInfo → ℕ
one_unless_dir f = if f.is_symlink then 1 else if f.is_dir then 0 else 1

abbrev one_if_absolute : FileSystem → FileInfo → ℕ
one_if_absolute fs f = if f.is_symlink then (if fs.is_abs f.link_target then 1 else 0) else 0

abbrev pub entry_bytes : TarEntry → ℕ
entry_bytes e = length e.content

abbrev pub one_unless_type_dir : TarEntry → ℕ
one_unless_type_dir e = elim e.header.typeflag [ type_dir ↦ 0 | _ ↦ 1 ]

abbrev pub one_if_absolute_link : FileSystem → TarEntry → ℕ
one_if_absolute_link fs e = elim e.header.typeflag [
  | type_symlink ↦ if fs.is_abs e.header.linkname then 1 else 0
  | _ ↦ 0
]

-- Sorting and writing change no measure.
total-insert :
    (w : FileInfo → ℕ) (f : FileInfo) (fs : List FileInfo)
    → total w (insert f fs) ≡ w f + total w fs
unfolding insert
total-insert w f [] = refl
total-insert w f (g ∷ gs) = ground (arith, total-insert w f gs)

total-sort_by_path :
    (w : FileInfo → ℕ) (fs : List FileInfo) → total w (sort_by_path fs) ≡ total w fs
unfolding sort_by_path
total-sort_by_path w [] = refl
total-sort_by_path w (f ∷ fs) =
    omega (arith, total-insert w f (sort_by_path fs), total-sort_by_path w fs)

total-one_unless_dir : (l : List FileInfo) → total one_unless_dir l ≤ length l
total-one_unless_dir [] = omega arith
total-one_unless_dir (f ∷ fs) = ground (arith, total-one_unless_dir fs)

room_of : (n c : ℕ) (limit : ℤ) → c ≤ n → reaches n limit ≡ false → exceeds (c + 1) limit ≡ false
room_of n c (pos m) le h = ground arith
room_of n c (negsuc m) le h = refl

exceeds_mono : (n c : ℕ) (limit : ℤ) → c ≤ n → exceeds n limit ≡ false → exceeds c limit ≡ false
exceeds_mono n c (pos m) le h = ground arith
exceeds_mono n c (negsuc m) le h = refl

guard_off : (b : Bool) (e : LocaldirError) {u : Unit {0}} → guard (not b) e ≡ ok u → b ≡ false
guard_off b e h = ground arith

module _ (fs : FileSystem) (dir : From) where
  -- The files of a walk never exceed the limits, and their symlinks are relative.
  abbrev WithinLimits : DirWalk → Type 0
  WithinLimits w =
      (total bytes_of w.files ≡ w.bytes_total)
      × (exceeds w.bytes_total dir.max_size ≡ false)
      × (exceeds (total one_unless_dir w.files) dir.max_files ≡ false)
      × (total (one_if_absolute fs) w.files ≡ 0)

  grown :
      (w : DirWalk) (f : FileInfo) (bytes : ℕ) (seen : List String)
      → WithinLimits w
      → bytes ≡ w.bytes_total + bytes_of f
      → exceeds bytes dir.max_size ≡ false
      → exceeds (total one_unless_dir w.files + one_unless_dir f) dir.max_files ≡ false
      → one_if_absolute fs f ≡ 0
      → WithinLimits (push (record w { bytes_total = bytes; seen_dirs = seen }) f)
  grown w f bytes seen (b, _, _, a) more small few relative = (
    omega (arith, b, more, total-append bytes_of w.files (f ∷ [])),
    small,
    subst (λ n. exceeds n dir.max_files ≡ false) (count w.files f) few,
    omega (arith, a, relative, total-append (one_if_absolute fs) w.files (f ∷ [])),
  )
    where
      count :
          (l : List FileInfo) (f : FileInfo)
          → total one_unless_dir l + one_unless_dir f ≡ total one_unless_dir (l ++ (f ∷ []))
      count l f = omega (arith, total-append one_unless_dir l (f ∷ []))

  abbrev HasRoom : DirWalk → Type 0
  HasRoom w = exceeds (total one_unless_dir w.files + 1) dir.max_files ≡ false

module _ (fs : FileSystem) (dir : From) (to : PathMapper) (ignores : PatternMatcher)
    (source : ByteSource) where
  add_dir_within :
      (w : DirWalk) (topath : String) (info : Option ℕ)
      → WithinLimits fs dir w
      → Holds (WithinLimits fs dir) (add_dir fs dir to ignores source w topath info)
  unfolding add_dir
  add_dir_within w topath info l =
      Holds-if (WithinLimits fs dir) (any (λ d. str_eq d topath) w.seen_dirs) _ _ (λ _. l)
        (λ _. Holds->>= (WithinLimits fs dir) (or_err info info_failed) _ (λ mode _.
          grown fs dir w (dir_info topath mode) w.bytes_total (topath ∷ w.seen_dirs) l (omega arith)
            l.1 (subst (λ n. exceeds n dir.max_files ≡ false) (omega arith) l.2) refl))

  add_symlink_within :
      (w : DirWalk) (path : String) (mode : ℕ)
      → HasRoom fs dir w
      → WithinLimits fs dir w
      → Holds (WithinLimits fs dir) (add_symlink fs dir to ignores source w path mode)
  unfolding add_symlink is_within_source_tree
  add_symlink_within w path mode room l =
      Holds->>= (WithinLimits fs dir) (or_err (fs.readlink dir.path path) readlink_failed) _
        (λ target _. linked target (Bool-cases (fs.is_abs target)))
    where
      linked :
          (target : String)
          → (fs.is_abs target ≡ true) ⊎ (fs.is_abs target ≡ false)
          → (WithinLimits fs dir) (
              if is_within_source_tree fs target dir.path
              then push w (link_info (to path) mode target)
              else w)
      linked target (inl h) = rw h l
      linked target (inr h) = rw h (
          grown fs dir w (link_info (to path) mode target) w.bytes_total w.seen_dirs l (omega arith)
            l.1 room (rw h refl))

  add_regular_within :
      (w : DirWalk) (path : String) (info : Option ℕ)
      → HasRoom fs dir w
      → WithinLimits fs dir w
      → Holds (WithinLimits fs dir) (add_regular fs dir to ignores source w path info)
  unfolding add_regular
  add_regular_within w path info room l =
      Holds->>= (WithinLimits fs dir) (or_err (read_file fs source path) read_failed) _ (λ file _.
        Holds->>= (WithinLimits fs dir)
          (guard (not (exceeds (w.bytes_total + length file) dir.max_size)) too_large) _
          (λ _ g.
            grown fs dir w (file_info (to path) file (mode_of info)) (w.bytes_total + length file)
              w.seen_dirs l refl
              (guard_off (exceeds (w.bytes_total + length file) dir.max_size) too_large g) room
              refl))

  add_file_within :
      (w : DirWalk) (path : String) (info : Option ℕ)
      → HasRoom fs dir w
      → WithinLimits fs dir w
      → Holds (WithinLimits fs dir) (add_file fs dir to ignores source w path info)
  unfolding add_file
  add_file_within w path none room l = add_regular_within w path none room l
  add_file_within w path (some mode) room l =
      Holds-if (WithinLimits fs dir) (is_link mode) _ _ (λ _. add_symlink_within w path mode room l)
        (λ _. add_regular_within w path (some mode) room l)

  has_room :
      (w : DirWalk) {u : Unit {0}}
      → guard {E = LocaldirError} (not (reaches (length w.files) dir.max_files)) too_many_files
        ≡ ok u
      → HasRoom fs dir w
  has_room w g =
      room_of (length w.files) (total one_unless_dir w.files) dir.max_files
        (total-one_unless_dir w.files)
        (guard_off (reaches (length w.files) dir.max_files) too_many_files g)

  add_entry_within :
      (w : DirWalk) (path : String) (entry : Option DirEntry)
      → WithinLimits fs dir w
      → Holds (WithinLimits fs dir) (add_entry fs dir to ignores source w path entry)
  unfolding add_entry
  add_entry_within w path none l =
      Holds->>= (WithinLimits fs dir)
        (guard (not (reaches (length w.files) dir.max_files)) too_many_files) _
        (λ _ g. add_file_within w path none (has_room w g) l)
  add_entry_within w path (some d) l =
      Holds-if (WithinLimits fs dir) d.is_dir _ _ (λ _. add_dir_within w (to path) d.info l)
        (λ _.
          Holds->>= (WithinLimits fs dir)
            (guard (not (reaches (length w.files) dir.max_files)) too_many_files) _
            (λ _ g.
              Holds->>= (WithinLimits fs dir) (or_err d.info info_failed) _
                (λ mode _. add_file_within w path (some mode) (has_room w g) l)))

  add_within :
      (w : DirWalk) (v : Visit)
      → WithinLimits fs dir w
      → Holds (WithinLimits fs dir) (add fs dir to ignores source w v)
  unfolding add
  add_within w v l =
      Holds-if (WithinLimits fs dir) v.failed _ _
        (λ _.
          Holds-if (WithinLimits fs dir) _ (err is_a_file) (err walk_failed) (λ _. tt) (λ _. tt))
        (λ _. Holds->>= (WithinLimits fs dir) (or_err (ignores v.path) ignore_failed) _ (λ ignore _.
          Holds-if (WithinLimits fs dir) ignore _ _ (λ _. l)
            (λ _. add_entry_within w v.path v.entry l)))

  add_all_within :
      (w : DirWalk) (vs : List Visit)
      → WithinLimits fs dir w
      → Holds (WithinLimits fs dir) (add_all fs dir to ignores source w vs)
  unfolding add_all
  add_all_within w [] l = l
  add_all_within w (v ∷ vs) l =
      Holds->>= (WithinLimits fs dir) (add fs dir to ignores source w v) _
        (λ w' e. add_all_within w' vs (Holds-of (WithinLimits fs dir) _ (add_within w v l) e))

total-map :
    (v : TarEntry → ℕ) (w : FileInfo → ℕ) (g : FileInfo → TarEntry)
    → ((f : FileInfo) → v (g f) ≤ w f)
    → (fs : List FileInfo) → total v (map g fs) ≤ total w fs
total-map v w g small [] = omega arith
total-map v w g small (f ∷ fs) = omega (arith, small f, total-map v w g small fs)

content-tar_entry :
    (attributes : LayerAttributes) (f : FileInfo)
    → entry_bytes (tar_entry attributes f) ≤ bytes_of f
unfolding tar_entry
content-tar_entry attributes f = ground arith

type_dir-tar_entry :
    (attributes : LayerAttributes) (f : FileInfo)
    → one_unless_type_dir (tar_entry attributes f) ≤ one_unless_dir f
unfolding tar_entry
type_dir-tar_entry attributes f = ground arith

link-tar_entry :
    (fs : FileSystem) (attributes : LayerAttributes) (f : FileInfo)
    → one_if_absolute_link fs (tar_entry attributes f) ≤ one_if_absolute fs f
unfolding tar_entry
link-tar_entry fs attributes f = ground arith

exceeds-zero : (limit : ℤ) → exceeds 0 limit ≡ false
exceeds-zero (pos m) = ground arith
exceeds-zero (negsuc m) = refl

start-WithinLimits : (fs : FileSystem) (dir : From) → WithinLimits fs dir (nothing_yet fs)
start-WithinLimits fs dir = (refl, exceeds-zero dir.max_size, exceeds-zero dir.max_files, refl)

collect_within :
    (fs : FileSystem) (dir : From) (to : PathMapper) (ignores : PatternMatcher)
    → Holds (WithinLimits fs dir) (collect fs dir to ignores)
unfolding collect
collect_within fs dir to ignores =
    Holds-if _ (not dir.is_file) _ _
      (λ _.
        add_all_within fs dir to ignores (dir_fs dir.path) (nothing_yet fs) (fs.walk_dir dir.path)
          (start-WithinLimits fs dir))
      (λ _.
        add_within fs dir to ignores (single_file dir.path) (nothing_yet fs) (the_file fs)
          (start-WithinLimits fs dir))

abbrev pub AreLimited : FileSystem → From → Archive → Type 0
AreLimited fs dir a =
    (exceeds (total entry_bytes a) dir.max_size ≡ false)
    × (exceeds (total one_unless_type_dir a) dir.max_files ≡ false)
    × (total (one_if_absolute_link fs) a ≡ 0)

layer_from_files_limited :
    (fs : FileSystem) (tar : Tar) (dir : From) (attributes : LayerAttributes) (w : DirWalk)
    (a : Archive)
    → WithinLimits fs dir w
    → a ≡ map (tar_entry attributes) (sort_by_path w.files)
    → AreLimited fs dir a
layer_from_files_limited fs tar dir attributes w a (b, small, few, relative) e = rw e (
  exceeds_mono w.bytes_total _ dir.max_size
      (below entry_bytes bytes_of (λ f. content-tar_entry attributes f) b) small,
  exceeds_mono _ _ dir.max_files
      (below one_unless_type_dir one_unless_dir (λ f. type_dir-tar_entry attributes f) refl) few,
  le_zero (
      below (one_if_absolute_link fs) (one_if_absolute fs) (λ f. link-tar_entry fs attributes f)
        relative),
)
  where
    below :
        (v : TarEntry → ℕ) (u : FileInfo → ℕ) {n : ℕ}
        → ((f : FileInfo) → v (tar_entry attributes f) ≤ u f)
        → total u w.files ≡ n
        → total v (map (tar_entry attributes) (sort_by_path w.files)) ≤ n
    below v u le eq = omega (
      arith,
      eq,
      total-map v u (tar_entry attributes) le (sort_by_path w.files),
      total-sort_by_path u w.files,
    )

    le_zero : {n : ℕ} → n ≤ 0 → n ≡ 0
    le_zero h = omega arith

-- Where a layer is made from the file system, the content of its files does not exceed the size
-- limit, the number of its entries that are not directories does not exceed the limit on files, and
-- none of its symlinks is absolute.
pub from_filesystem_limited :
    (fs : FileSystem) (tar : Tar) (dir : From) (attributes : LayerAttributes) (a : Archive)
    → from_filesystem fs tar dir attributes ≡ ok a
    → AreLimited fs dir a
unfolding from_filesystem
from_filesystem_limited fs tar dir attributes a h =
    Holds-of (AreLimited fs dir) (from_filesystem fs tar dir attributes)
      (Holds->>= _ (guard (not (str_eq dir.path "")) no_path) _ (λ _ _.
        Holds->>= _ (mapper_of fs dir) _ (λ to _.
          Holds->>= _ (collect fs dir to (patterns_of fs dir)) _ (λ w hw.
            Holds->>= _ (guard (not (length w.files == 0)) empty_layer) _ (λ _ _.
              from_tar_holds (layer_from_files tar w.files attributes) (λ b hb.
                layer_from_files_limited fs tar dir attributes w b
                  (Holds-of _ _ (collect_within fs dir to (patterns_of fs dir)) hw)
                  (Holds-of _ _ (layer_from_files_entries tar attributes w.files) hb)))))))
      h
  where
    from_tar_holds :
        (r : Result TarError Archive)
        → ((b : Archive) → r ≡ ok b → AreLimited fs dir b)
        → Holds (AreLimited fs dir) (from_tar fs r)
    from_tar_holds (ok b) k = k b refl
    from_tar_holds (err e) k = tt
