-- ===== src/Pushlock.antt =====
-- pushlock.go, flock_unix.go and flock_windows.go: the lock that serializes pushes.
pub mod Exclusive
use contain.Base.{
  ℕ, ◌≡◌, String, Bool, true, false, Option, none, some, List, [], ◌∷◌, take, length, ◌==◌,
}
use contain.Base.{if◌then◌else◌, codes}

-- The two builds: flock_unix.go and flock_windows.go.
pub data LockBuild : Type 0 where
  unix windows : LockBuild

pub data LockError : Type 0 where
  empty_path relative_path : LockError

-- `validateAbsPath`, of a path that is not empty; `is_abs` is `filepath.IsAbs`.
unfoldable pub validate_abs_path : LockBuild → (String → Bool) → String → Bool
validate_abs_path unix is_abs path = elim (codes path) [ [] ↦ false | c ∷ _ ↦ c == 47 ]
validate_abs_path windows is_abs path = is_abs path

-- `NewFlockPushLock`: none is no error.
unfoldable pub new_flock_push_lock : LockBuild → (String → Bool) → String → Option LockError
unfolding validate_abs_path
new_flock_push_lock p is_abs path = elim (codes path) [
  | [] ↦ some empty_path
  | _ ∷ _ ↦ if validate_abs_path p is_abs path then none else some relative_path
]

-- `readHolder`, of the bytes of the lock file
unfoldable pub read_holder : List ℕ → List ℕ
read_holder content = elim (take 256 content) [ [] ↦ codes "(unknown)" | b ∷ bs ↦ b ∷ bs ]

-- Where a call of `Acquire` stands, and what its caller does with the lock.
pub data Phase : Type 0 where
  idle : Phase  -- not called yet
  polling : (waited : Bool) → Phase  -- before `syscall.Flock`
  waiting : Phase  -- in the `select`
  locked : Phase  -- before the `Truncate` of `writeHolder`
  truncated : Phase  -- before the `Fprintf` of `writeHolder`
  holding : Phase  -- `Acquire` has returned a release function
  unlocked : Phase  -- in `release`, before `f.Close`
  released : Phase
  failed : Phase  -- `Acquire` has returned an error
  dead : Phase  -- the process has died

-- From the flock to `LOCK_UN`.
abbrev pub critical : Phase → Bool
critical locked = true
critical truncated = true
critical holding = true
critical _ = false

-- What the calls share: which of them has the flock, the bytes of the lock file, and the holders
-- that were logged, the last one first, with the call that logged them.
pub record LockFile : Type 0 where
  pub flock : Option ℕ
  pub content : List ℕ
  pub log : List (ℕ × List ℕ)

-- The kernel drops a flock with the file that it was taken on, which no two calls share.
unfoldable pub close : ℕ → LockFile → LockFile
close i m = elim m.flock [ none ↦ m | some j ↦ if j == i then record m { flock = none } else m ]

-- One step of the call `i` of `Acquire` in flock_unix.go, or of its caller. A `Flock` with LOCK_NB
-- succeeds only where no other call has the flock, and may fail at any time; writes may fail, which
-- `writeHolder` does not look at. `holder` is what it writes.
pub data Move (holder : ℕ → List ℕ) (i : ℕ) (m : LockFile) : Phase → LockFile → Phase → Type 0 where
  open_file : Move holder i m idle m (polling false)
  open_fails : Move holder i m idle m failed
  flock :
      {waited : Bool}
      → m.flock ≡ none
      → Move holder i m (polling waited) (record m { flock = some i }) locked
  busy :
      Move holder i m
        (polling false)
        (record m { log = (i, read_holder m.content) ∷ m.log })
        waiting
  busy_again : Move holder i m (polling true) m waiting
  tick : Move holder i m waiting m (polling true)
  cancel : Move holder i m waiting (close i m) failed
  truncate : Move holder i m locked (record m { content = [] }) truncated
  truncate_fails : Move holder i m locked m truncated
  write : Move holder i m truncated (record m { content = holder i }) holding
  write_fails : Move holder i m truncated m holding
  unlock : Move holder i m holding (record m { flock = none }) unlocked
  close_file : Move holder i m unlocked (close i m) released
  die : {p : Phase} → Move holder i m p (close i m) dead

-- Any number of calls on one path, in one process or in many, interleaved in any order.
pub record Calls : Type 0 where
  pub file : LockFile
  pub phase : ℕ → Phase

abbrev pub update : (ℕ → Phase) → ℕ → Phase → ℕ → Phase
update f i p j = if i == j then p else f j

pub data Step (holder : ℕ → List ℕ) (s : Calls) : Calls → Type 0 where
  turn :
      (i : ℕ) {m : LockFile} {p : Phase}
      → Move holder i s.file (s.phase i) m p
      → Step holder s (record { file = m; phase = update s.phase i p })

-- The lock file may hold what an earlier run has left.
abbrev pub unused : List ℕ → Calls
unused content = record {
  file = record { flock = none; content = content; log = [] };
  phase = λ i. idle;
}

pub data Reach (holder : ℕ → List ℕ) (content : List ℕ) : Calls → Type 0 where
  start : Reach holder content (unused content)
  later : {s t : Calls} → Reach holder content s → Step holder s t → Reach holder content t
