-- ===== src/Localdir/Filemap/Entries.antt =====
-- The entries of an archive that is written without an error.
use contain.Base.{◌≡◌, refl, map, List, [], ◌∷◌, ◌||◌, Holds, Holds->>=, Holds-of, guard, map_ok}
use mathlib.Core.Path.{ap₂}
use contain.Localdir.Filemap.{
  FileInfo, Tar, tar_entry, write_entry, sort_by_path, layer_from_files, write_header,
  write_content, close_writer, make_layer,
}
use contain.Schema.Config.{LayerAttributes}

-- A layer holds the entries of its files in the order of their paths.
module _ (tar : Tar) (attributes : LayerAttributes) where
  write_entry-tar_entry :
      (f : FileInfo) → Holds (λ e. e ≡ tar_entry attributes f) (write_entry tar attributes f)
  unfolding write_entry
  write_entry-tar_entry f =
      Holds->>= _ (guard (tar.header_ok (tar_entry attributes f).header) write_header) _ (λ _ _.
        Holds->>= _
          (guard (f.is_dir || (f.is_symlink || tar.content_ok (tar_entry attributes f)))
            write_content)
          _ (λ _ _. refl))

  map_ok-write_entry :
      (fs : List FileInfo)
      → Holds (λ a. a ≡ map (tar_entry attributes) fs) (map_ok (write_entry tar attributes) fs)
  map_ok-write_entry [] = refl
  map_ok-write_entry (f ∷ fs) = Holds->>= _ (write_entry tar attributes f) _ (λ e he.
      Holds->>= _ (map_ok (write_entry tar attributes) fs) _ (λ es hes.
        ap₂ ◌∷◌ (Holds-of _ _ (write_entry-tar_entry f) he)
          (Holds-of _ _ (map_ok-write_entry fs) hes)))

  pub layer_from_files_entries :
      (fs : List FileInfo)
      → Holds
          (λ a. a ≡ map (tar_entry attributes) (sort_by_path fs))
          (layer_from_files tar fs attributes)
  unfolding layer_from_files
  layer_from_files_entries fs =
      Holds->>= _ (map_ok (write_entry tar attributes) (sort_by_path fs)) _ (λ a ha.
        Holds->>= _ (guard (tar.close_ok a) close_writer) _ (λ _ _.
          Holds->>= _ (guard (tar.layer_ok a) make_layer) _
            (λ _ _. Holds-of _ _ (map_ok-write_entry (sort_by_path fs)) ha)))
