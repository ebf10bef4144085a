-- ===== src/Tools/Routing/Retries.antt =====
-- When the router (di-core/src/tools/routing.rs) lets the agent retry.
use di_rac.Prelude.{
  ℕ, zero, suc, ◌+◌, ◌≤◌, ◌<◌, Bool, true, false, ◌&&◌, ◌≡◌, ◌∙◌, arith, ltb, lookup,
}
use di_rac.Tools.Response.{ToolError, ToolErrorCode, Recoverability, retryable}
use di_rac.Tools.Routing.{
  ToolErrorRoute, retry, ErrorRouter, expire_stale, default_max_retries, default_backoff_ms,
  route_inner, repeated_route, is_retry, error_key, counted, route,
}

abbrev pub is_retryable : Recoverability → Bool
is_retryable retryable = true
is_retryable _ = false

-- the retries of the error that have not expired
abbrev pub retried : ℕ → ToolError → ErrorRouter → ℕ
retried now error router =
    counted (lookup (error_key error) (expire_stale now router).retry_counters)

is_retry-route_inner :
    (error : ToolError) (retries : ℕ)
    → is_retry (route_inner error retries)
      ≡ (is_retryable error.recoverability && ltb retries (default_max_retries error.code))
unfolding route_inner
is_retry-route_inner error retries = ground arith

pub is_retry-repeated_route :
    (error : ToolError) (total : ℕ) → is_retry (repeated_route error total) ≡ false
unfolding repeated_route
is_retry-repeated_route error total = ground arith

-- The agent is told to retry exactly where the error is retryable, its own limit is not reached,
-- and the retries that the router remembers and those of the context are fewer than two.
pub is_retry-route :
    (now later : ℕ) (error : ToolError) (retries : ℕ) (router : ErrorRouter)
    → is_retry (route now later error retries router).1 ≡ (
        is_retryable error.recoverability
        && (ltb retries (default_max_retries error.code)
            && ltb (retried now error router + retries) 2))
unfolding route
is_retry-route now later error retries router = ground (
  arith,
  is_retry-route_inner error retries,
  is_retry-repeated_route error (retried now error router + retries),
)

-- Where the error is retryable and its own limit is two or more, that limit is never what ends the
-- retries: the router stops at two in all, whatever the limit.
pub limit_not_reached :
    (now later : ℕ) (error : ToolError) (retries : ℕ) (router : ErrorRouter)
    → error.recoverability ≡ retryable
    → 2 ≤ default_max_retries error.code
    → is_retry (route now later error retries router).1 ≡ ltb (retried now error router + retries) 2
limit_not_reached now later error retries router r high =
    is_retry-route now later error retries router ∙ rw r (ground (arith, high))

backoff-bounds :
    (code : ToolErrorCode) (attempt : ℕ)
    → attempt < default_max_retries code
    → (500 ≤ default_backoff_ms code attempt) × (default_backoff_ms code attempt ≤ 4000)
unfolding default_max_retries default_backoff_ms
backoff-bounds code zero h = ground arith
backoff-bounds code (suc zero) h = ground arith
backoff-bounds code (suc (suc zero)) h = ground arith
backoff-bounds code (suc (suc (suc n))) h = ground (arith, h)

abbrev pub PausesWithin : ℕ → ℕ → ToolErrorRoute → Type 0
PausesWithin low high (retry ms reason) = (low ≤ ms) × (ms ≤ high)
PausesWithin low high _ = Unit

-- A retry comes after a pause of 500 to 4000 milliseconds.
pub route-PausesWithin :
    (now later : ℕ) (error : ToolError) (retries : ℕ) (router : ErrorRouter)
    → PausesWithin 500 4000 (route now later error retries router).1
unfolding route route_inner repeated_route
route-PausesWithin now later error retries router =
    ground (arith, backoff-bounds error.code retries)
