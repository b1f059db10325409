-- ===== src/Ocipush/Errors.antt =====
-- The error values of client.go and directpush.go, and what `errors.Is` says of them.
use contain.Base.{ℕ, String, Bool, true, false, Option, none, some, [], ◌∷◌, ◌||◌, ◌&&◌}
use contain.Base.{leb, ◌==◌, if◌then◌else◌, take}
use mathlib.Core.List.{reverse}
use contain.Ocipush.World.{Bytes, Response, Error, status_err, retryable, ext_unsupported}
use contain.Ocipush.World.{ext_expired, wrapped}

-- `(*statusErr).Is`: a 5xx or a 429.
unfoldable pub retryable_status : ℕ → Bool
retryable_status status = leb 500 status || status == 429

-- `errors.Is(err, errRetryable)`
unfoldable pub is_retryable : Error → Bool
unfolding retryable_status
is_retryable (status_err op status body) = retryable_status status
is_retryable (retryable e) = true
is_retryable (wrapped op e) = is_retryable e
is_retryable _ = false

-- `errors.Is(err, errExtUnsupported)`
unfoldable pub is_unsupported : Error → Bool
is_unsupported ext_unsupported = true
is_unsupported (retryable e) = is_unsupported e
is_unsupported (wrapped op e) = is_unsupported e
is_unsupported _ = false

-- `errors.Is(err, errExtExpired)`
unfoldable pub is_expired : Error → Bool
is_expired ext_expired = true
is_expired (retryable e) = is_expired e
is_expired (wrapped op e) = is_expired e
is_expired _ = false

-- `errors.As(err, &se)` with `se.Status()`
unfoldable pub upstream_status : Error → Option ℕ
upstream_status (status_err op status body) = some status
upstream_status (retryable e) = upstream_status e
upstream_status (wrapped op e) = upstream_status e
upstream_status _ = none

-- `strings.TrimSpace`, on ASCII
is_space : ℕ → Bool
is_space c = c == 32 || (leb 9 c && leb c 13)

drop_spaces : Bytes → Bytes
drop_spaces [] = []
drop_spaces (c ∷ s) = let rest = drop_spaces s in if is_space c then rest else c ∷ s

unfoldable pub trim_space : Bytes → Bytes
unfolding is_space drop_spaces
trim_space s = reverse (drop_spaces (reverse (drop_spaces s)))

-- `errorBody`: at most 1024 bytes of the body
unfoldable pub error_body : Response → Bytes
error_body res = take 1024 res.body

-- `statusError`
unfoldable pub status_error : String → Response → Error
status_error op res = status_err op res.status (trim_space (error_body res))
