-- ===== src/Localdir/Reproducible.antt =====
-- What the archive of a layer depends on (filemap_chmod.go).
use contain.Base.{◌≡◌, refl, List}
use mathlib.Core.List.{Perm}
use contain.Localdir.Filemap.{FileInfo, Tar, layer_from_files}
use contain.Localdir.Filemap.Order.{AreDetermined, sort_by_path_perm}
use contain.Schema.Config.{LayerAttributes}

-- `LayerFromFiles` makes the same layer, or fails alike, in whatever order it gets the files, where a
-- path that occurs twice occurs with the same file.
pub layer_from_files_reproducible :
    (tar : Tar) (attributes : LayerAttributes) (l m : List FileInfo)
    → Perm l m
    → AreDetermined l
    → layer_from_files tar l attributes ≡ layer_from_files tar m attributes
unfolding layer_from_files
layer_from_files_reproducible tar attributes l m p d = rw (sort_by_path_perm p d) refl
