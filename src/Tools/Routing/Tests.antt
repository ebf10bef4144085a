-- ===== src/Tools/Routing/Tests.antt =====
-- The router (di-core/src/tools/routing.rs) at concrete errors.
use di_rac.Prelude.{◌+◌, true, false, ◌&&◌, some, ◌≡◌, refl, arith, ltb, lookup, remove, insert}
use di_rac.Tools.Response.{ToolError, retryable, daemon_unavailable, critical, code_str}
use di_rac.Tools.Routing.{
  new_router, route, is_retry, route_inner, default_backoff_ms, expire_stale, default_max_retries,
}
use di_rac.Tools.Routing.Counters.{third_is_no_retry}
use di_rac.Tools.Routing.Retries.{is_retryable, retried, is_retry-route, limit_not_reached}

abbrev down : ToolError
down = record {
  code = daemon_unavailable;
  message = "no socket";
  severity = critical;
  recoverability = retryable;
  metadata = record { tool_name = "bash"; retry_count = 0; input_hash = some "1f" };
}

is_retry-route_example : is_retry (route 0 0 down 1 new_router).1 ≡ (
    is_retryable down.recoverability
    && (ltb 1 (default_max_retries down.code) && ltb (retried 0 down new_router + 1) 2))
is_retry-route_example = is_retry-route 0 0 down 1 new_router

limit_not_reached_example :
    is_retry (route 0 0 down 1 new_router).1 ≡ ltb (retried 0 down new_router + 1) 2
unfolding default_max_retries
limit_not_reached_example = limit_not_reached 0 0 down 1 new_router refl (omega arith)

first_retries : is_retry (route 0 1 down 0 new_router).1 ≡ true
unfolding route route_inner expire_stale default_max_retries default_backoff_ms code_str lookup
    insert remove
first_retries = refl

second_retries : is_retry (route 2 3 down 0 (route 0 1 down 0 new_router).0).1 ≡ true
unfolding route route_inner expire_stale default_max_retries default_backoff_ms code_str lookup
    insert remove
second_retries = refl

third_is_no_retry_example :
    is_retry (route 4 5 down 0 (route 2 3 down 0 (route 0 1 down 0 new_router).0).0).1 ≡ false
third_is_no_retry_example =
    third_is_no_retry down new_router 0 1 2 3 4 5 0 0 0 (omega arith) (omega arith) first_retries
      second_retries
