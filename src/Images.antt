-- ===== src/Images.antt =====
-- What the build runs against: go-containerregistry, a registry, and the push lock.
use contain.Base.{ℕ, String, Bool, Option, List}
use contain.Localdir.Filemap.{Archive}
use contain.Schema.LocalFile.{Platform}

-- The `Config` of an image, its other fields left as one text.
pub record ImageConfig : Type 0 where
  pub env : List String
  pub entrypoint : List String
  pub cmd : List String
  pub working_dir : String
  pub others : String

-- `v1.ConfigFile`: the `Config`, and what `Platform` makes of the rest.
pub record ConfigFile : Type 0 where
  pub config : ImageConfig
  pub platform : Option Platform

-- `v1.Descriptor`; the URLs and data are left out.
pub record ChildDescriptor : Type 0 where
  pub media_type : String
  pub size : ℕ
  pub digest : String
  pub platform : Option Platform
  pub annotations : Option (List (String × String))

-- What the build does to the outside: the push lock, images written, indexes put, files written.
pub data Action (Image Index : Type 0) : Type 0 where
  acquired released : Action Image Index
  wrote : String → Image → Bool → Action Image Index
  put_index : String → Index → Bool → Action Image Index
  saved : String → Bool → Action Image Index

-- An addendum of `mutate.AppendManifests`: the image with the descriptor that it gets.
pub record IndexAddendum (Image : Type 0) : Type 0 where
  pub add : Image
  pub descriptor : ChildDescriptor

-- Answers that depend on the registry are functions of all that was done before.
pub record Images (Image Index : Type 0) : Type 0 where
  pub remote_image : List (Action Image Index) → String → Option Image
  pub media_type : Image → Option String
  pub config_file : Image → Option ConfigFile
  pub append_layers : Image → List Archive → Option Image
  pub mutate_config : Image → ImageConfig → Option Image
  pub digest : Image → Option String
  pub manifest_layers : Image → Option (List ChildDescriptor)
  pub wrap_image : Image → Image
  pub write : List (Action Image Index) → String → Image → Bool
  pub acquire : List (Action Image Index) → Bool
