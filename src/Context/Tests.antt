-- ===== src/Context/Tests.antt =====
-- Contexts (di-core/src/context) that fill up, with exact quotients.
use di_rac.Prelude.{
  suc, zero, ap, Option, none, some, All, false, ℕ, ◌*◌, ◌≤◌, true, not, ◌&&◌, List, [], ◌∷◌, ◌≡◌,
  refl, arith, ltb, leb,
}
use di_rac.Context.Admission.{Semaphore, IsSemaphore, new_admission}
use di_rac.Context.Admission.Limits.{DistillerCall, is_concurrency, decisions, no_permit_held}
use di_rac.Context.Lifecycle.{
  ContextLifecycleManager, growing, LifecycleCall, turn, evaluation, new_lifecycle, next_state,
  evaluate_state, run_calls, should_compact,
}
use di_rac.Context.Lifecycle.Hard.{is_near, hard_trigger_ignored}
use di_rac.Context.Lifecycle.Pressure.{
  IsPressed, evaluations, pressure_compacts, no_early_compaction,
}
use di_rac.Context.Metrics.{
  CallRecord, TurnMetrics, History, Floats, max_turns, last_n, all_calls, retry_accumulation,
}
use di_rac.Context.Metrics.Recent.{record_turns, record_turns-last}
use di_rac.Context.Metrics.Streaks.{HasStreak, retry_accumulation-longest}
use di_rac.Context.Triggers.{check_retry_accumulation}

-- A semaphore is its number of free permits.
abbrev counter : Semaphore
counter = record {
  State = ℕ;
  Permit = Unit;
  new_semaphore = λ n. n;
  free = λ s. s;
  take_permit = λ s. elim s [ zero ↦ none | suc n ↦ some (tt, n) ];
  drop_permit = λ permit s. suc s;
}

taken_from_counter :
    (s : ℕ) → 1 ≤ s → (permit : Unit) × (s' : ℕ) × (counter.take_permit s ≡ some (permit, s'))
taken_from_counter zero h = absurd (omega (arith, h))
taken_from_counter (suc n) h = (tt, n, refl)

abbrev needed : Option (Unit {0} × ℕ) → ℕ
needed none = 0
needed (some (permit, n)) = suc n

one_less : (s s' : ℕ) (permit : Unit) → counter.take_permit s ≡ some (permit, s') → s ≡ suc s'
one_less zero s' permit e = cc
one_less (suc n) s' permit e = ap needed e

counter_IsSemaphore : IsSemaphore counter
counter_IsSemaphore = record {
  free_new = λ n. refl;
  taken_where_free = taken_from_counter;
  free_taken = one_less;
  free_dropped = λ permit s. refl;
}

abbrev two_calls : List DistillerCall
two_calls =
    record { now = 0; agent = 7; is_hard_compaction = false }
    ∷ record { now = 5; agent = 7; is_hard_compaction = false }
    ∷ []

no_permit_held_example :
    All
      (λ decision. is_concurrency decision ≡ false)
      (decisions counter two_calls (new_admission counter 1 10)).0
    × ((decisions counter two_calls (new_admission counter 1 10)).1.concurrency_sem ≡ 1)
no_permit_held_example = no_permit_held counter 1 10 two_calls counter_IsSemaphore (omega arith)

abbrev exact : Floats
exact = record {
  F64 = ℕ × ℕ;
  zero_f64 = (0, 1);
  ratio = λ a b. (a, b);
  above = λ (a, b) n. ltb (n * b) (100 * a);
  at_least = λ (a, b) n. leb (n * b) (100 * a);
  at_most = λ (a, b) n. leb (100 * a) (n * b);
}

abbrev a_call : CallRecord
a_call = record { tool_name = "bash"; args_hash = 42 }

abbrev a_turn : List CallRecord → ℕ → TurnMetrics
a_turn calls tool = record {
  total_tokens = 1000;
  tool_result_tokens = tool;
  active_message_count = 10;
  stale_read_count = 0;
  tool_calls = calls;
}

abbrev history : History
history = a_turn (a_call ∷ a_call ∷ []) 300 ∷ a_turn (a_call ∷ []) 400 ∷ []

record_turns-last_example : record_turns history [] ≡ last_n history max_turns
record_turns-last_example = record_turns-last history

retry_accumulation-longest_example :
    HasStreak (all_calls history) (retry_accumulation history)
    × ((n : ℕ) → HasStreak (all_calls history) n → n ≤ retry_accumulation history)
retry_accumulation-longest_example = retry_accumulation-longest history

three_calls : retry_accumulation history ≡ 3
unfolding retry_accumulation
three_calls = refl

abbrev full : LifecycleCall
full = evaluation 9000 10000

at_once : IsPressed exact full
at_once = (refl, refl, refl)

abbrev filling : List LifecycleCall
filling = full ∷ turn (a_turn [] 0) ∷ full ∷ full ∷ full ∷ []

pressure_compacts_example : should_compact (run_calls exact filling new_lifecycle) ≡ true
pressure_compacts_example =
    pressure_compacts exact filling new_lifecycle
      (at_once, (tt, (at_once, (at_once, (at_once, tt))))) tt (omega arith)

no_early_compaction_example : 3 ≤ evaluations filling
unfolding run_calls evaluate_state next_state
no_early_compaction_example = no_early_compaction exact filling refl

-- 90 percent of the tokens are results of tools
abbrev bloated : ContextLifecycleManager
bloated = record { state = growing; metrics = a_turn [] 900 ∷ [] }

hard_trigger_ignored_example :
    is_near (evaluate_state exact 6000 10000 bloated).state
    ≡ (leb (60 * 1000) (100 * 900) && not (leb (80 * 1000) (100 * 900)))
unfolding check_retry_accumulation retry_accumulation
hard_trigger_ignored_example =
    hard_trigger_ignored exact bloated 6000 10000 refl refl refl refl refl refl
