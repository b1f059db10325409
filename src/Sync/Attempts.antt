-- ===== src/Sync/Attempts.antt =====
-- The number of attempts.
use contain.Base.{ℕ, suc, ◌≤◌, ◌≢◌, Option, none, List, [], ◌∷◌}
use contain.Base.{Result, ℤ, pos, negsuc}
use contain.Sync.{SyncTarget, SyncError, Call, kubectl, slept}

unfoldable pub calls_of : List Call → ℕ
calls_of [] = 0
calls_of (kubectl args stdin ∷ h) = suc (calls_of h)
calls_of (slept ∷ h) = calls_of h

unfoldable pub attempts_of : ℤ → ℕ
attempts_of (pos m) = m
attempts_of (negsuc m) = 0

-- A method has returned, and kubectl was called at most so often.
abbrev pub IsBounded : Option (Result SyncError SyncTarget) × List Call → ℕ → Type 0
IsBounded r n = (r.0 ≢ none) × (calls_of r.1 ≤ n)
