-- ===== src/Ocipush/Staging.antt =====
-- staging.go: the temporary files that blobs are staged in.
use contain.Base.{String, ◌<>◌, Bool, not, Option, none, some, [], str_eq, if◌then◌else◌}
use contain.Ocipush.World.{Env, plain, wrapped, Exec, pure, ◌>>=◌, ◌>>◌, guard, ok, err}
use contain.Ocipush.World.{temp_file, disk, record_event, write_file}

unfoldable pub open_temp : Option String → Exec String
open_temp none s =
    (err (wrapped "create staging file" (plain "temp")), record_event (temp_file none) s)
open_temp (some path) s =
    (ok path, write_file path (some []) (record_event (temp_file (some path)) s))

module _ (env : Env) where
  unfoldable pub resolve_staging_dir : String → String
  resolve_staging_dir dir =
      if not (str_eq dir "")
      then dir
      else if not (str_eq (env.getenv "CONTAIN_STAGING_DIR") "")
      then env.getenv "CONTAIN_STAGING_DIR"
      else if not (str_eq (env.getenv "CONTAIN_CACHE_DIR") "")
      then env.getenv "CONTAIN_CACHE_DIR" <> "/staging"
      else ""

  -- A step on the disk that may fail: a directory made, a file written or closed.
  unfoldable pub disk_step : Exec Bool
  disk_step s = let done = env.disk_ok s.history in (ok done, record_event (disk done) s)

  unfoldable pub make_staging_dir : String → Exec (Unit {0})
  unfolding disk_step
  make_staging_dir resolved =
      if str_eq resolved ""
      then pure tt
      else do made ← disk_step; guard made (plain "create staging dir")

  -- `os.CreateTemp`: a new empty file
  unfoldable pub create_temp : Exec String
  unfolding open_temp
  create_temp s = open_temp (env.temp_name s.history) s

  unfoldable pub staging_file : String → Exec String
  unfolding make_staging_dir create_temp
  staging_file dir = do make_staging_dir (resolve_staging_dir dir); create_temp
