-- ===== src/Cache/Purge/Bounds.antt =====
-- What a purge (purge.go) leaves behind and what it reports.
use mathlib.Core.Path.{subst}
use contain.Base.{ℕ, ◌+◌, ◌-◌, ◌≤◌, ◌≡◌, refl, String, Bool, true, false, List, [], ◌∷◌, ◌++◌, map}
use contain.Base.{
  Option, none, some, if◌then◌else◌, leb, ◌==◌, length, leb→le, arith, ||_right, eq_refl, filter,
  not, ◌&&◌, some-injective,
}
use contain.Cache.Purge.{
  PurgeStrategy, CacheEntry, ReadDir, list_entries, total_size, evicted, expired, is_marked, Sweep,
  sweep, marked, ordered, purge, purge_entries,
}

-- Marks that contain others.
abbrev Covers : List String → List String → Type 0
Covers marks few = (path : String) → is_marked path few ≡ true → is_marked path marks ≡ true

retained_total :
    (removable : String → Bool) (marks : List String) (es : List CacheEntry)
    → (sweep removable marks es).result.retained_bytes ≤ total_size es
unfolding sweep total_size
retained_total removable marks [] = omega arith
retained_total removable marks (e ∷ es) = let ih = retained_total removable marks es in ground arith

sweep-evicted :
    (removable : String → Bool) (marks : List String) (max_size : ℕ) (es : List CacheEntry)
    → Covers marks (evicted max_size (total_size es) es)
    → (sweep removable marks es).result.retained_bytes ≤ max_size
unfolding sweep evicted total_size
sweep-evicted removable marks max_size [] c = omega arith
sweep-evicted removable marks max_size (e ∷ es) c =
    go (sweep-evicted removable marks max_size es) (leb (e.size + total_size es) max_size) refl
  where
    back : (e.size + total_size es) - e.size ≡ total_size es
    back = omega arith

    go :
        (Covers marks (evicted max_size (total_size es) es)
          → (sweep removable marks es).result.retained_bytes ≤ max_size)
        → (b : Bool) → leb (e.size + total_size es) max_size ≡ b
        → (sweep removable marks (e ∷ es)).result.retained_bytes ≤ max_size
    go rest true small =
        let kept = retained_total removable marks (e ∷ es) in
        omega (arith, kept, leb→le (e.size + total_size es) max_size small)
    go rest false large =
        let first : is_marked e.path marks ≡ true =
          c e.path (rw large (rw (eq_refl e.path) refl)) in
        let later : Covers marks (evicted max_size (total_size es) es) =
          λ path m. c path (rw (large, back) (||_right _ _ m)) in
        let ih = rest later in ground arith

is_marked-append_left :
    (path : String) (xs ys : List String)
    → is_marked path xs ≡ true
    → is_marked path (xs ++ ys) ≡ true
is_marked-append_left path [] ys h = absurd (cc)
is_marked-append_left path (x ∷ xs) ys h = let ih = is_marked-append_left path xs ys in ground arith

is_marked-append_right :
    (path : String) (xs ys : List String)
    → is_marked path ys ≡ true
    → is_marked path (xs ++ ys) ≡ true
is_marked-append_right path [] ys h = h
is_marked-append_right path (x ∷ xs) ys h = ||_right _ _ (is_marked-append_right path xs ys h)

limit_marks :
    (clears unlimited : Bool) (path : String) (every old surplus tmps : List String)
    → clears ≡ false
    → unlimited ≡ false
    → is_marked path surplus ≡ true
    → is_marked path
        ((if clears then every else (old ++ (if unlimited then [] else surplus))) ++ tmps)
      ≡ true
limit_marks true unlimited path every old surplus tmps h k m = absurd (cc)
limit_marks false true path every old surplus tmps h k m = absurd (cc)
limit_marks false false path every old surplus tmps h k m =
    is_marked-append_left path (old ++ surplus) tmps (is_marked-append_right path old surplus m)

marked-Covers :
    (now : ℕ) (oldest_first : List CacheEntry → List CacheEntry) (tmps : List String)
    (removable : String → Bool) (strategy : PurgeStrategy) (entries : List CacheEntry)
    → strategy.everything ≡ false
    → (strategy.max_size == 0) ≡ false
    → Covers (marked now oldest_first tmps removable strategy entries) (
        evicted strategy.max_size
          (total_size (ordered now oldest_first tmps removable strategy entries))
          (ordered now oldest_first tmps removable strategy entries))
unfolding marked ordered
marked-Covers now oldest_first tmps removable strategy entries some_stay limited path m =
    limit_marks strategy.everything (strategy.max_size == 0) path (map (λ e. e.path) entries)
      (if strategy.max_age == 0 then [] else expired (now - strategy.max_age) entries)
      (evicted strategy.max_size
        (total_size (ordered now oldest_first tmps removable strategy entries))
        (ordered now oldest_first tmps removable strategy entries))
      tmps some_stay limited m

-- A purge with a size limit, that does not clear the cache, reports that at most that many bytes
-- are retained, whatever the order that the sort leaves the entries in.
pub purge-retains_at_most :
    (now : ℕ) (oldest_first : List CacheEntry → List CacheEntry) (tmps : List String)
    (removable : String → Bool) (strategy : PurgeStrategy) (dir : String) (read : ReadDir)
    (out : Sweep)
    → strategy.everything ≡ false
    → (strategy.max_size == 0) ≡ false
    → purge now oldest_first tmps removable strategy dir read ≡ some out
    → out.result.retained_bytes ≤ strategy.max_size
unfolding purge purge_entries
purge-retains_at_most now oldest_first tmps removable strategy dir read out some_stay limited =
    go (list_entries dir read)
  where
    go :
        (o : Option (List CacheEntry))
        → purge_entries now oldest_first tmps removable strategy o ≡ some out
        → out.result.retained_bytes ≤ strategy.max_size
    go none done = absurd (cc)
    go (some entries) done =
        subst (λ x. x.result.retained_bytes ≤ strategy.max_size) (some-injective _ _ done)
          (sweep-evicted removable (marked now oldest_first tmps removable strategy entries)
            strategy.max_size (ordered now oldest_first tmps removable strategy entries)
            (marked-Covers now oldest_first tmps removable strategy entries some_stay limited))

-- The entries before the first that is marked and cannot be removed.
abbrev pub reached : (String → Bool) → List String → List CacheEntry → List CacheEntry
reached removable marks [] = []
reached removable marks (e ∷ es) =
    let rest = reached removable marks es in
    if is_marked e.path marks && not (removable e.path) then [] else e ∷ rest

abbrev pub to_remove : List String → List CacheEntry → List CacheEntry
to_remove marks es = filter (λ e. is_marked e.path marks) es

abbrev pub to_retain : List String → List CacheEntry → List CacheEntry
to_retain marks es = filter (λ e. not (is_marked e.path marks)) es

abbrev pub paths_of : List CacheEntry → List String
paths_of es = map (λ e. e.path) es

-- What the removal loop does, on every outcome: of the entries before the first that is marked and
-- cannot be removed, it removes those that are marked, in order, and nothing else; it reports their
-- number and their size, and the number and the size of the others; and it stops at that first
-- entry, if there is one.
pub sweep-accounts :
    (removable : String → Bool) (marks : List String) (es : List CacheEntry)
    → let seen = reached removable marks es in
      let out = sweep removable marks es in
      (out.removed ≡ paths_of (to_remove marks seen))
      × (out.result.removed_count ≡ length (to_remove marks seen))
      × (out.result.removed_bytes ≡ total_size (to_remove marks seen))
      × (out.result.retained_count ≡ length (to_retain marks seen))
      × (out.result.retained_bytes ≡ total_size (to_retain marks seen))
      × (out.stopped ≡ not (length seen == length es))
unfolding sweep total_size
sweep-accounts removable marks [] = (refl, refl, refl, refl, refl, refl)
sweep-accounts removable marks (e ∷ es) = let ih = sweep-accounts removable marks es in ground arith
