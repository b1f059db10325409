-- ===== src/Cache/Purge.antt =====
-- purge.go: which entries of the cache are removed, and what is reported.
pub mod Bounds
use contain.Base.{
  ℕ, ◌+◌, ◌-◌, String, ◌<>◌, Bool, true, false, ◌&&◌, ◌||◌, not, List, [], ◌∷◌, ◌++◌, map,
}
use contain.Base.{
  Option, none, some, if◌then◌else◌, ltb, leb, ◌==◌, any, length, str_eq, starts_with,
}

-- A `time.Time` is a count of nanoseconds, and a limit of 0 is not set.
pub record PurgeStrategy : Type 0 where
  pub max_age : ℕ
  pub max_size : ℕ
  pub everything : Bool

pub record PurgeResult : Type 0 where
  pub removed_count : ℕ
  pub removed_bytes : ℕ
  pub retained_count : ℕ
  pub retained_bytes : ℕ

pub record CacheEntry : Type 0 where
  pub path : String
  pub size : ℕ
  pub mtime : ℕ

-- What `os.ReadDir` yields: `info` is the size and the time of a file, or none when `Info` fails.
pub record DirEntry : Type 0 where
  pub name : String
  pub is_dir : Bool
  pub info : Option (ℕ × ℕ)

pub data ReadDir : Type 0 where
  missing failed : ReadDir
  listed : List DirEntry → ReadDir

abbrev entry_of : String → DirEntry → Option CacheEntry
entry_of dir de = if de.is_dir || not (starts_with de.name "sha256") then none else elim de.info [
  | none ↦ none
  | some (size, mtime) ↦
      some (record { path = dir <> ("/" <> de.name); size = size; mtime = mtime })
]

abbrev cons_some : Option CacheEntry → List CacheEntry → List CacheEntry
cons_some none es = es
cons_some (some e) es = e ∷ es

unfoldable pub entries_of : String → List DirEntry → List CacheEntry
entries_of dir [] = []
entries_of dir (de ∷ des) = cons_some (entry_of dir de) (entries_of dir des)

-- `listEntries`
unfoldable pub list_entries : String → ReadDir → Option (List CacheEntry)
unfolding entries_of
list_entries dir missing = some []
list_entries dir failed = none
list_entries dir (listed des) = some (entries_of dir des)

unfoldable pub total_size : List CacheEntry → ℕ
total_size [] = 0
total_size (e ∷ es) = e.size + total_size es

-- The paths of the entries that are older than the cutoff.
unfoldable pub expired : ℕ → List CacheEntry → List String
expired cutoff [] = []
expired cutoff (e ∷ es) =
    let rest = expired cutoff es in if ltb e.mtime cutoff then e.path ∷ rest else rest

-- The paths that make room, oldest first, until the size is at or below the limit.
unfoldable pub evicted : ℕ → ℕ → List CacheEntry → List String
evicted max_size total [] = []
evicted max_size total (e ∷ es) =
    let rest = evicted max_size (total - e.size) es in
    if leb total max_size then [] else e.path ∷ rest

abbrev pub is_marked : String → List String → Bool
is_marked path marks = any (λ m. str_eq m path) marks

-- The outcome of the removal loop: its report, the paths that it removed, and whether it stopped
-- at a path that could not be removed.
pub record Sweep : Type 0 where
  pub result : PurgeResult
  pub removed : List String
  pub stopped : Bool

abbrev none_yet : Sweep
none_yet = record {
  result = record { removed_count = 0; removed_bytes = 0; retained_count = 0; retained_bytes = 0 };
  removed = [];
  stopped = false;
}

abbrev count_removed : CacheEntry → PurgeResult → PurgeResult
count_removed e r = record r {
  removed_count = r.removed_count + 1;
  removed_bytes = r.removed_bytes + e.size;
}

abbrev count_retained : CacheEntry → PurgeResult → PurgeResult
count_retained e r = record r {
  retained_count = r.retained_count + 1;
  retained_bytes = r.retained_bytes + e.size;
}

-- The removal loop: `removable` says that `os.Remove` succeeds or finds nothing.
unfoldable pub sweep : (String → Bool) → List String → List CacheEntry → Sweep
sweep removable marks [] = none_yet
sweep removable marks (e ∷ es) =
    let rest = sweep removable marks es in
    if is_marked e.path marks
    then (if removable e.path
        then record {
          result = count_removed e rest.result;
          removed = e.path ∷ rest.removed;
          stopped = rest.stopped;
        }
        else record { result = none_yet.result; removed = []; stopped = true })
    else record {
      result = count_retained e rest.result;
      removed = rest.removed;
      stopped = rest.stopped;
    }

-- `now` is the clock, `oldest_first` is `sort.Slice` by modification time, `tmps` what the glob for
-- temporary files matches.
module _ (now : ℕ) (oldest_first : List CacheEntry → List CacheEntry) (tmps : List String)
    (removable : String → Bool) where
  -- The order in which the loops see the entries.
  unfoldable pub ordered : PurgeStrategy → List CacheEntry → List CacheEntry
  ordered strategy entries =
      if not strategy.everything && not (strategy.max_size == 0)
      then oldest_first entries
      else entries

  unfoldable pub marked : PurgeStrategy → List CacheEntry → List String
  unfolding ordered expired evicted total_size
  marked strategy entries =
      (if strategy.everything
        then map (λ e. e.path) entries
        else ((if strategy.max_age == 0 then [] else expired (now - strategy.max_age) entries)
            ++ (if strategy.max_size == 0
                then []
                else evicted strategy.max_size (total_size (ordered strategy entries))
                    (ordered strategy entries))))
      ++ tmps

  -- The removals among the entries, where the directory could be read.
  unfoldable pub purge_entries : PurgeStrategy → Option (List CacheEntry) → Option Sweep
  unfolding marked ordered sweep
  purge_entries strategy none = none
  purge_entries strategy (some entries) =
      some (sweep removable (marked strategy entries) (ordered strategy entries))

  -- `Purge`; none when the directory cannot be read
  unfoldable pub purge : PurgeStrategy → String → ReadDir → Option Sweep
  unfolding list_entries purge_entries
  purge strategy dir read = purge_entries strategy (list_entries dir read)

-- `Info`
unfoldable pub info : String → ReadDir → Option (ℕ × ℕ)
unfolding list_entries total_size
info dir read = elim (list_entries dir read) [
  | none ↦ none
  | some entries ↦ some (length entries, total_size entries)
]
