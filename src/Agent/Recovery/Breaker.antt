-- ===== src/Agent/Recovery/Breaker.antt =====
-- `CircuitBreaker` and `CircuitBreakerRegistry` of di-core/src/agent/recovery.rs.
pub mod Blocking
pub mod PerTool
use di_rac.Prelude.{
  ℕ, suc, ◌-◌, ◌/◌, ◌%◌, ◌^◌, String, Bool, true, false, List, [], ◌∷◌, Option, none, some, leb,
  unwrap_or, Dict, insert, lookup, if◌then◌else◌,
}

pub data CircuitState : Type 0 where
  closed opened half_open : CircuitState

-- An `Instant` is a number of nanoseconds.
pub record CircuitBreaker : Type 0 where
  pub state : CircuitState
  pub consecutive_failures : ℕ
  pub opened_at : Option ℕ
  pub threshold : ℕ
  pub cooldown_secs : ℕ

-- `CircuitBreaker::new`
abbrev pub new_breaker : CircuitBreaker
new_breaker = record {
  state = closed;
  consecutive_failures = 0;
  opened_at = none;
  threshold = 3;
  cooldown_secs = 30;
}

-- whole seconds from one instant to another, 0 where the second is not later
abbrev pub secs_between : ℕ → ℕ → ℕ
secs_between earlier now = (now - earlier) / 1000000000

unfoldable pub record_success : CircuitBreaker → CircuitBreaker
record_success b = record b { state = closed; consecutive_failures = 0 }

-- The counter is a `u32`.
unfoldable pub record_failure : ℕ → CircuitBreaker → CircuitBreaker
record_failure now b =
    let counted = record b { consecutive_failures = suc b.consecutive_failures % 4294967296 } in
    if leb b.threshold counted.consecutive_failures
    then record counted { state = opened; opened_at = some now }
    else counted

-- what an open circuit does, on when it opened
abbrev pub after_cooldown : ℕ → CircuitBreaker → Option ℕ → CircuitBreaker × Bool
after_cooldown now b none = (b, false)
after_cooldown now b (some at) =
    if leb b.cooldown_secs (secs_between at now)
    then (record b { state = half_open }, true)
    else (b, false)

unfoldable pub allow_execution : ℕ → CircuitBreaker → CircuitBreaker × Bool
allow_execution now b = elim b.state [
  | closed ↦ (b, true)
  | half_open ↦ (b, true)
  | opened ↦ after_cooldown now b b.opened_at
]

-- what the agent does with a breaker, at an instant
pub data Use : Type 0 where
  succeeds : Use
  fails asks : ℕ → Use

unfoldable pub use_breaker : Use → CircuitBreaker → CircuitBreaker
unfolding record_success record_failure allow_execution
use_breaker succeeds b = record_success b
use_breaker (fails now) b = record_failure now b
use_breaker (asks now) b = (allow_execution now b).0

unfoldable pub use_all : List Use → CircuitBreaker → CircuitBreaker
use_all [] b = b
use_all (u ∷ us) b = use_all us (use_breaker u b)

-- `entry(tool).or_insert_with(new)`
abbrev pub breaker_of : Dict CircuitBreaker → String → CircuitBreaker
breaker_of breakers tool = unwrap_or (lookup tool breakers) new_breaker

-- `record_success`, `record_failure` or `allow_execution` of the registry: the tool's breaker is
-- used and stored.
unfoldable pub use_tool : Dict CircuitBreaker → String × Use → Dict CircuitBreaker
use_tool breakers (tool, u) = insert tool (use_breaker u (breaker_of breakers tool)) breakers

unfoldable pub use_tools : Dict CircuitBreaker → List (String × Use) → Dict CircuitBreaker
use_tools breakers [] = breakers
use_tools breakers (c ∷ cs) = use_tools (use_tool breakers c) cs

-- the answer of `allow_execution` of the registry
unfoldable pub allows : ℕ → Dict CircuitBreaker → String → Bool
allows now breakers tool = (allow_execution now (breaker_of breakers tool)).1

-- `state`
unfoldable pub state_of : Dict CircuitBreaker → String → CircuitState
state_of breakers tool = elim (lookup tool breakers) [ none ↦ closed | some b ↦ b.state ]
