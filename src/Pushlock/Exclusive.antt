-- ===== src/Pushlock/Exclusive.antt =====
-- Who has the push lock (flock_unix.go).
use contain.Base.{
  ℕ, ◌≡◌, refl, Bool, true, false, none, some, List, ◌==◌, ==_iff, arith, Option-cases, ◌∙◌, sym,
  Bool-cases, inl, inr, ◌≢◌,
}
use mathlib.Core.Path.{subst}
use contain.Pushlock.{
  Phase, polling, locked, open_file, open_fails, flock, busy, busy_again, tick, cancel, truncate,
  truncate_fails, write, write_fails, unlock, close_file, die, critical, LockFile, close, Move,
  Calls, update, Step, turn, Reach, start, later,
}

-- The call has the flock exactly while it is between the flock and its release.
abbrev owns : LockFile → ℕ → Bool
owns m i = elim m.flock [ none ↦ false | some j ↦ j == i ]

abbrev pub Agrees : Calls → Type 0
Agrees s = (i : ℕ) → owns s.file i ≡ critical (s.phase i)

owns-close : (i : ℕ) (m : LockFile) → owns (close i m) i ≡ false
unfolding close
owns-close i m = ground arith

owns-close_other : (i j : ℕ) (m : LockFile) → i ≢ j → owns (close i m) j ≡ owns m j
unfolding close
owns-close_other i j m ne = ground arith

Move_own :
    {holder : ℕ → List ℕ} {i : ℕ} {m n : LockFile} {p q : Phase}
    → owns m i ≡ critical p
    → Move holder i m p n q
    → owns n i ≡ critical q
Move_own h open_file = h
Move_own h open_fails = h
Move_own h (flock free) = ground arith
Move_own h busy = h
Move_own h busy_again = h
Move_own h tick = h
Move_own {i} {m} h cancel = owns-close i m
Move_own h truncate = h
Move_own h truncate_fails = h
Move_own h write = h
Move_own h write_fails = h
Move_own h unlock = refl
Move_own {i} {m} h close_file = owns-close i m
Move_own {i} {m} h die = owns-close i m

Move_other :
    {holder : ℕ → List ℕ} {i j : ℕ} {m n : LockFile} {p q : Phase}
    → i ≢ j
    → owns m i ≡ critical p
    → Move holder i m p n q
    → owns n j ≡ owns m j
Move_other ne h open_file = refl
Move_other ne h open_fails = refl
Move_other ne h (flock free) = ground arith
Move_other ne h busy = refl
Move_other ne h busy_again = refl
Move_other ne h tick = refl
Move_other {i} {j} {m} ne h cancel = owns-close_other i j m ne
Move_other ne h truncate = refl
Move_other ne h truncate_fails = refl
Move_other ne h write = refl
Move_other ne h write_fails = refl
Move_other ne h unlock = ground arith
Move_other {i} {j} {m} ne h close_file = owns-close_other i j m ne
Move_other {i} {j} {m} ne h die = owns-close_other i j m ne

ne_of : (i j : ℕ) → (i == j) ≡ false → i ≢ j
ne_of i j h = ground arith

Step-Agrees : {holder : ℕ → List ℕ} {s t : Calls} → Agrees s → Step holder s t → Agrees t
Step-Agrees {s} h (turn i {m} {p} mv) j = elim (Bool-cases (i == j)) [
  | inl same ↦
      rw (same, subst (λ k. owns m k ≡ critical p) ((==_iff i j).0 same) (Move_own (h i) mv))
  | inr other ↦ ground (arith, Move_other {j = j} (ne_of i j other) (h i) mv, h j)
]

Reach-Agrees :
    {holder : ℕ → List ℕ} {content : List ℕ} {s : Calls} → Reach holder content s → Agrees s
Reach-Agrees start = λ i. refl
Reach-Agrees (later r st) = Step-Agrees (Reach-Agrees r) st

same_owner : (m : LockFile) (i j : ℕ) → owns m i ≡ true → owns m j ≡ true → i ≡ j
same_owner m i j hi hj = ground arith

free_of : (m : LockFile) → ((i : ℕ) → owns m i ≡ false) → m.flock ≡ none
free_of m h = elim (Option-cases m.flock) [ inl free ↦ free | inr (i, e) ↦ ground (arith, h i) ]

take_flock :
    {holder : ℕ → List ℕ} (s : Calls) (j : ℕ) (waited : Bool)
    → s.file.flock ≡ none
    → s.phase j ≡ polling waited
    → Step holder s
        (record { file = record s.file { flock = some j }; phase = update s.phase j locked })
take_flock {holder} s j waited free at = turn j (
    subst (λ p. Move holder j s.file p (record s.file { flock = some j }) locked) (sym at)
      (flock free))

-- Two calls never have the lock together, whatever the others do and whichever of them die.
pub Reach-exclusive :
    {holder : ℕ → List ℕ} {content : List ℕ} {s : Calls}
    → Reach holder content s
    → (i j : ℕ) → critical (s.phase i) ≡ true
    → critical (s.phase j) ≡ true
    → i ≡ j
Reach-exclusive {s} r i j hi hj =
    same_owner s.file i j (Reach-Agrees r i ∙ hi) (Reach-Agrees r j ∙ hj)

-- The lock is never lost: where no call is between the flock and its release, a call that polls can
-- take it.
pub Reach-free :
    {holder : ℕ → List ℕ} {content : List ℕ} {s : Calls}
    → Reach holder content s
    → ((i : ℕ) → critical (s.phase i) ≡ false)
    → (j : ℕ) (waited : Bool) → s.phase j ≡ polling waited
    → (t : Calls) × Step holder s t × (t.phase j ≡ locked)
Reach-free {s} r quiet j waited at = (
  record { file = record s.file { flock = some j }; phase = update s.phase j locked },
  take_flock s j waited (free_of s.file (λ i. Reach-Agrees r i ∙ quiet i)) at,
  ground arith,
)
