-- ===== src/Context/Metrics.antt =====
-- `LifecycleMetricsCollector` of di-core/src/context/lifecycle_metrics.rs.
pub mod Streaks
pub mod Recent
use di_rac.Prelude.{
  ℕ, suc, ◌+◌, ◌-◌, max, String, Bool, ◌&&◌, List, [], ◌∷◌, ◌++◌, map, Option, none, some, ◌==◌,
  ltb, length, drop, last, str_eq, if◌then◌else◌,
}

pub record CallRecord : Type 0 where
  pub tool_name : String
  pub args_hash : ℕ

pub record TurnMetrics : Type 0 where
  pub total_tokens : ℕ
  pub tool_result_tokens : ℕ
  pub active_message_count : ℕ
  pub stale_read_count : ℕ
  pub tool_calls : List CallRecord

-- `LifecycleMetricsCollector`: its history, the oldest turn first
abbrev pub History : Type 0
History = List TurnMetrics

-- The source's f64: quotients of counts, and their comparisons with a number of hundredths.
pub record Floats : Type 1 where
  pub F64 : Type 0
  pub zero_f64 : F64
  pub ratio : ℕ → ℕ → F64
  pub above : F64 → ℕ → Bool
  pub at_least : F64 → ℕ → Bool
  pub at_most : F64 → ℕ → Bool

-- `MAX_HISTORY`
abbrev pub max_turns : ℕ
max_turns = 20

unfoldable pub record_turn : TurnMetrics → History → History
record_turn turn history =
    let longer = history ++ turn ∷ [] in
    if ltb max_turns (length longer) then drop 1 longer else longer

abbrev pub last_n : History → ℕ → History
last_n history n = drop (length history - n) history

abbrev pub total_of : (TurnMetrics → ℕ) → History → ℕ
total_of count [] = 0
total_of count (t ∷ ts) = count t + total_of count ts

-- a call with the same tool and arguments as another
abbrev pub same_record : CallRecord → CallRecord → Bool
same_record x y = str_eq x.tool_name y.tool_name && x.args_hash == y.args_hash

abbrev pub all_calls : History → List CallRecord
all_calls [] = []
all_calls (t ∷ ts) = t.tool_calls ++ all_calls ts

-- the loop, after a call, with the longest and the current streak
unfoldable pub longest_streak : CallRecord → ℕ → ℕ → List CallRecord → ℕ
longest_streak previous max_streak current_streak [] = max_streak
longest_streak previous max_streak current_streak (c ∷ cs) =
    let on = longest_streak c (max max_streak (suc current_streak)) (suc current_streak) cs in
    let over = longest_streak c max_streak 1 cs in if same_record c previous then on else over

abbrev pub streak_of : List CallRecord → ℕ
unfolding longest_streak
streak_of [] = 0
streak_of (c ∷ cs) = longest_streak c 1 1 cs

unfoldable pub retry_accumulation : History → ℕ
unfolding longest_streak
retry_accumulation history = streak_of (all_calls history)

module _ (f : Floats) where
  open f use {F64, zero_f64, ratio}

  abbrev pub tool_bloat_rate : History → ℕ → F64
  tool_bloat_rate history window =
      let turns = last_n history window in
      let total = total_of (λ t. t.total_tokens) turns in
      let tool = total_of (λ t. t.tool_result_tokens) turns in
      if total == 0 then zero_f64 else ratio tool total

  abbrev pub stale_of : Option TurnMetrics → F64
  stale_of none = zero_f64
  stale_of (some t) =
      if t.active_message_count == 0
      then zero_f64
      else ratio t.stale_read_count t.active_message_count

  abbrev pub stale_ratio : History → F64
  stale_ratio history = stale_of (last history)

  -- between the last two turns
  abbrev pub growth_rate : History → F64
  growth_rate [] = zero_f64
  growth_rate (t ∷ []) = zero_f64
  growth_rate (prev ∷ curr ∷ []) =
      if prev.total_tokens == 0
      then zero_f64
      else ratio (curr.total_tokens - prev.total_tokens) prev.total_tokens
  growth_rate (t ∷ u ∷ v ∷ ts) = growth_rate (u ∷ v ∷ ts)
