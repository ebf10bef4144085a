-- ===== src/Tools/Routing.antt =====
-- `ErrorRouter` of di-core/src/tools/routing.rs: what the agent does with a tool's error.
pub mod Retries
pub mod Counters
mod Tests
use di_rac.Prelude.{
  ℕ, suc, ◌+◌, ◌*◌, ◌-◌, ◌/◌, ◌%◌, ◌^◌, min, String, Bool, true, false, List, [], ◌∷◌, Option, none,
  some, leb, ltb, unwrap_or, concat, decimal, retain, Dict, insert, lookup, remove, if◌then◌else◌,
}
use di_rac.Tools.Response.{
  ToolError, ToolErrorCode, daemon_unavailable, daemon_timeout, shell_timeout, rate_limited,
  code_str, Recoverability, retryable, retryable_after_refresh, requires_replan,
  requires_user_input, non_retryable,
}

pub data ToolErrorRoute : Type 0 where
  -- the pause in milliseconds, and the reason
  retry : ℕ → String → ToolErrorRoute
  abort continue escalate : String → ToolErrorRoute

-- For each key, the retries and the nanosecond of the last.
pub record ErrorRouter : Type 0 where
  pub retry_counters : Dict (ℕ × ℕ)
  pub decay_secs : ℕ

-- `ErrorRouter::new`
abbrev pub new_router : ErrorRouter
new_router = record { retry_counters = []; decay_secs = 60 }

-- `reset`
unfoldable pub reset_router : ErrorRouter → ErrorRouter
reset_router r = record r { retry_counters = [] }

unfoldable pub expire_stale : ℕ → ErrorRouter → ErrorRouter
expire_stale now r = record r {
  retry_counters = retain (λ e. ltb ((now - e.1.1) / 1000000000) r.decay_secs) r.retry_counters;
}

unfoldable pub default_max_retries : ToolErrorCode → ℕ
default_max_retries daemon_unavailable = 3
default_max_retries daemon_timeout = 2
default_max_retries shell_timeout = 2
default_max_retries rate_limited = 3
default_max_retries _ = 1

abbrev base_ms : ToolErrorCode → ℕ
base_ms rate_limited = 2000
base_ms daemon_unavailable = 1000
base_ms _ = 500

-- The power and the product are of `u64`.
unfoldable pub default_backoff_ms : ToolErrorCode → ℕ → ℕ
default_backoff_ms code attempt =
    min
      ((base_ms code * ((2 ^ (attempt % 4294967296)) % 18446744073709551616))
        % 18446744073709551616)
      4000

-- `retries` is the context's `retry_count_for_error`.
unfoldable pub route_inner : ToolError → ℕ → ToolErrorRoute
unfolding code_str default_max_retries default_backoff_ms
route_inner error retries = elim error.recoverability [
  | non_retryable ↦ continue (concat ("Non-retryable error: " ∷ code_str error.code ∷ []))
  | requires_user_input ↦ escalate (concat ("Requires user input: " ∷ error.message ∷ []))
  | requires_replan ↦ abort (concat ("Plan is stale: " ∷ error.message ∷ []))
  | retryable ↦
      if ltb retries (default_max_retries error.code)
      then retry (default_backoff_ms error.code retries)
          (concat ("Retryable: " ∷ code_str error.code ∷ []))
      else abort (
          concat (
            "Retry limit ("
            ∷ decimal (default_max_retries error.code)
            ∷ ") exceeded for "
            ∷ code_str error.code
            ∷ []))
  | retryable_after_refresh ↦
      continue (
        concat
          ("Context may be stale, returning to model for re-read: " ∷ code_str error.code ∷ []))
]

-- what is decided where the same input has failed before
unfoldable pub repeated_route : ToolError → ℕ → ToolErrorRoute
unfolding code_str
repeated_route error total = elim error.recoverability [
  | retryable ↦ continue (
      concat (
        "Same input failed "
        ∷ decimal total
        ∷ " times with retryable error. Reporting to model for replanning."
        ∷ []))
  | requires_user_input ↦
      escalate (
        concat
          ("Requires user input (repeated " ∷ decimal total ∷ " times): " ∷ error.message ∷ []))
  | _ ↦
      abort
        (concat ("Same error repeated " ∷ decimal total ∷ " times: " ∷ code_str error.code ∷ []))
]

abbrev pub is_retry : ToolErrorRoute → Bool
is_retry (retry ms reason) = true
is_retry _ = false

abbrev pub error_key : ToolError → String
error_key error = concat (
    error.metadata.tool_name
    ∷ ":"
    ∷ code_str error.code
    ∷ ":"
    ∷ unwrap_or error.metadata.input_hash ""
    ∷ [])

abbrev pub counted : Option (ℕ × ℕ) → ℕ
counted none = 0
counted (some (count, time)) = count

-- `route`; `now` is when stale counters expire, `later` when a retry is noted.
unfoldable pub route : ℕ → ℕ → ToolError → ℕ → ErrorRouter → ErrorRouter × ToolErrorRoute
unfolding expire_stale route_inner repeated_route code_str
route now later error retries router =
    let key = error_key error in
    let fresh = expire_stale now router in
    let count = counted (lookup key fresh.retry_counters) in
    let forgotten = remove key fresh.retry_counters in
    let decided = route_inner error retries in
    if leb 2 (count + retries)
    then (record fresh { retry_counters = forgotten }, repeated_route error (count + retries))
    else if is_retry decided
    then (record fresh { retry_counters = insert key (suc count, later) forgotten }, decided)
    else (record fresh { retry_counters = forgotten }, decided)
