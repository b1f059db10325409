-- ===== src/Localdir/Filemap.antt =====
-- filemap_chmod.go: the entries of a layer's archive.
pub mod Entries
pub mod Order
use contain.Base.{
  ℕ, ◌+◌, ◌*◌, ◌/◌, ◌%◌, String, Bool, true, false, ◌&&◌, ◌||◌, not, Option, none, some, List, [],
  ◌∷◌,
}
use contain.Base.{
  length, codes, if◌then◌else◌, ltb, ◌==◌, Result, ok, err, ◌>>=◌, ◌>>◌, guard, map_ok, ℤ, pos,
  negsuc,
}
use contain.Schema.Config.{LayerAttributes}

-- `FileInfo`; the content is a list of bytes.
pub record FileInfo : Type 0 where
  pub path : String
  pub content : List ℕ
  pub mode : ℕ
  pub is_dir : Bool
  pub is_symlink : Bool
  pub link_target : String

-- Three octal digits.
abbrev pub octal : ℕ → ℕ → ℕ → ℕ
octal a b c = (a * 8 + b) * 8 + c

-- `mode & 0111 != 0`
abbrev pub is_executable : ℕ → Bool
is_executable mode = mode % 2 == 1 || (mode / 8 % 2 == 1 || mode / 64 % 2 == 1)

abbrev is_zero : ℤ → Bool
is_zero (pos n) = n == 0
is_zero (negsuc n) = false

-- `calculateFileMode`; of `0644 | 0111`, which have no bit in common, the sum.
unfoldable pub calculate_file_mode : FileInfo → LayerAttributes → ℤ
calculate_file_mode file attributes =
    if file.is_dir
    then (if not (is_zero attributes.dir_mode) then attributes.dir_mode else pos (octal 7 5 5))
    else if not (is_zero attributes.file_mode)
    then attributes.file_mode
    else if is_executable file.mode
    then pos (octal 6 4 4 + octal 1 1 1)
    else pos (octal 6 4 4)

pub data Typeflag : Type 0 where
  type_reg type_symlink type_dir : Typeflag

-- `tar.Header`; the time is in seconds since the epoch.
pub record Header : Type 0 where
  pub name : String
  pub mode : ℤ
  pub uid : ℕ
  pub gid : ℕ
  pub mod_time : ℕ
  pub typeflag : Typeflag
  pub linkname : String
  pub size : ℕ

-- A header with the content that is written after it: the archive is written from these in order.
pub record TarEntry : Type 0 where
  pub header : Header
  pub content : List ℕ

abbrev pub Archive : Type 0
Archive = List TarEntry

abbrev typeflag_of : FileInfo → Typeflag
typeflag_of file =
    if file.is_symlink then type_symlink else if file.is_dir then type_dir else type_reg

unfoldable pub tar_entry : LayerAttributes → FileInfo → TarEntry
unfolding calculate_file_mode
tar_entry attributes file = record {
  header = record {
    name = file.path;
    mode = calculate_file_mode file attributes;
    uid = attributes.uid;
    gid = attributes.gid;
    mod_time = 0;
    typeflag = typeflag_of file;
    linkname = if file.is_symlink then file.link_target else "";
    size = if file.is_symlink || file.is_dir then 0 else length file.content;
  };
  content = if not file.is_dir && not file.is_symlink then file.content else [];
}

-- `<` of Go's strings, on code points
unfoldable pub less : List ℕ → List ℕ → Bool
less s [] = false
less [] (b ∷ t) = true
less (a ∷ s) (b ∷ t) = ltb a b || (a == b && less s t)

-- `sort.Slice` by path; where paths differ, any sort yields this order.
unfoldable pub insert : FileInfo → List FileInfo → List FileInfo
unfolding less
insert f [] = f ∷ []
insert f (g ∷ gs) =
    let rest = insert f gs in if less (codes g.path) (codes f.path) then g ∷ rest else f ∷ g ∷ gs

unfoldable pub sort_by_path : List FileInfo → List FileInfo
unfolding insert
sort_by_path [] = []
sort_by_path (f ∷ fs) = insert f (sort_by_path fs)

pub data TarError : Type 0 where
  write_header write_content close_writer make_layer : TarError

-- `archive/tar` and `tarball.LayerFromOpener`: which headers and contents they accept.
pub record Tar : Type 0 where
  pub header_ok : Header → Bool
  pub content_ok : TarEntry → Bool
  pub close_ok : Archive → Bool
  pub layer_ok : Archive → Bool

module _ (tar : Tar) where
  -- One round of the loop.
  unfoldable pub write_entry : LayerAttributes → FileInfo → Result TarError TarEntry
  unfolding tar_entry
  write_entry attributes file = do
    let entry = tar_entry attributes file
    guard (tar.header_ok entry.header) write_header
    guard (file.is_dir || (file.is_symlink || tar.content_ok entry)) write_content
    ok entry

  -- `LayerFromFiles`
  unfoldable pub layer_from_files : List FileInfo → LayerAttributes → Result TarError Archive
  unfolding write_entry sort_by_path
  layer_from_files files attributes = do
    entries ← map_ok (write_entry attributes) (sort_by_path files)
    guard (tar.close_ok entries) close_writer
    guard (tar.layer_ok entries) make_layer
    ok entries
