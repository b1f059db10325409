-- ===== src/Schema/Config.antt =====
-- config.go: what a build is configured with.
use contain.Base.{String, List, ℕ, ℤ}

pub record EnvVar : Type 0 where
  pub name : String
  pub value : String

-- The ids are uint16, the modes int32; a mode of 0 is not set.
pub record LayerAttributes : Type 0 where
  pub uid : ℕ
  pub gid : ℕ
  pub file_mode : ℤ
  pub dir_mode : ℤ

-- The map is listed with its keys sorted.
pub record LocalFile : Type 0 where
  pub path : String
  pub path_per_platform : List (String × String)
  pub container_path : String
  pub max_size : String

pub record LocalDir : Type 0 where
  pub path : String
  pub container_path : String
  pub ignore : List String
  pub max_files : ℤ
  pub max_size : String

pub record Layer : Type 0 where
  pub attributes : LayerAttributes
  pub local_dir : LocalDir
  pub local_file : LocalFile

-- Without `Status` and `Sync`, which no part of the model reads.
pub record ContainConfig : Type 0 where
  pub base : String
  pub tag : String
  pub platforms : List String
  pub layers : List Layer
  pub env : List EnvVar
  pub working_dir : String
  pub entrypoint : List String
  pub args : List String
