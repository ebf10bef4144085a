-- ===== src/Context/Admission.antt =====
-- `DistillerAdmission` of di-core/src/context/distiller/admission.rs.
pub mod Limits
use di_rac.Prelude.{
  ◌≤◌, ◌≡◌, ℕ, zero, suc, ◌-◌, ◌/◌, Bool, true, false, List, [], ◌∷◌, Option, none, some, ◌==◌, leb,
  if◌then◌else◌,
}

-- `window_start` in nanoseconds
pub record RateLimitState : Type 0 where
  pub calls_made : ℕ
  pub window_start : ℕ

-- The semaphore of the crate tokio, with how many permits are free.
pub record Semaphore : Type 1 where
  pub State : Type 0
  pub Permit : Type 0
  pub new_semaphore : ℕ → State
  pub free : State → ℕ
  pub take_permit : State → Option (Permit × State)
  pub drop_permit : Permit → State → State

-- What its documentation says: it starts with all permits free, a permit can be taken where one is
-- free, and to take one and to drop it changes their number by one.
pub record IsSemaphore (sem : Semaphore) : Type 0 where
  pub free_new : (n : ℕ) → sem.free (sem.new_semaphore n) ≡ n
  pub taken_where_free :
      (s : sem.State)
      → 1 ≤ sem.free s
      → (permit : sem.Permit) × (s' : sem.State) × (sem.take_permit s ≡ some (permit, s'))
  pub free_taken :
      (s s' : sem.State) (permit : sem.Permit)
      → sem.take_permit s ≡ some (permit, s')
      → sem.free s ≡ suc (sem.free s')
  pub free_dropped :
      (permit : sem.Permit) (s : sem.State) → sem.free (sem.drop_permit permit s) ≡ suc (sem.free s)

pub record DistillerAdmission (sem : Semaphore) : Type 0 where
  pub concurrency_sem : sem.State
  pub per_agent : List (ℕ × RateLimitState)
  pub max_calls_per_min : ℕ

pub data AdmissionDecision : Type 0 where
  allowed rate_limited concurrency_limited : AdmissionDecision

-- `WINDOW_SECS`
abbrev pub window_secs : ℕ
window_secs = 60

-- the state of an agent, or a new one
unfoldable pub state_or_new : ℕ → ℕ → List (ℕ × RateLimitState) → RateLimitState
state_or_new now agent [] = record { calls_made = 0; window_start = now }
state_or_new now agent ((a, s) ∷ states) = if a == agent then s else state_or_new now agent states

-- a state when its window may be over
abbrev pub in_window : ℕ → RateLimitState → RateLimitState
in_window now s =
    if leb window_secs ((now - s.window_start) / 1000000000)
    then record { calls_made = 0; window_start = now }
    else s

module _ (sem : Semaphore) where
  abbrev pub new_admission : ℕ → ℕ → DistillerAdmission sem
  new_admission max_concurrency max_calls_per_min = record {
    concurrency_sem = sem.new_semaphore max_concurrency;
    per_agent = [];
    max_calls_per_min = max_calls_per_min;
  }

  -- The last match. `_permit` is a variable of the arm: it is dropped at the arm's end, with the
  -- decision not yet returned.
  abbrev pub decide : Option (sem.Permit × sem.State) → sem.State → AdmissionDecision × sem.State
  decide none s = (concurrency_limited, s)
  decide (some (permit, s')) s = (allowed, sem.drop_permit permit s')

  -- with the new state of an agent, which hides the old one
  abbrev pub with_state : ℕ → RateLimitState → DistillerAdmission sem → DistillerAdmission sem
  with_state agent s d = record d { per_agent = (agent, s) ∷ d.per_agent }

  unfoldable pub try_acquire :
      ℕ → ℕ → Bool → DistillerAdmission sem → AdmissionDecision × DistillerAdmission sem
  unfolding state_or_new
  try_acquire now agent true d = (allowed, d)
  try_acquire now agent false d =
      let s = in_window now (state_or_new now agent d.per_agent) in
      let (decision, sem') = decide (sem.take_permit d.concurrency_sem) d.concurrency_sem in
      let counted = with_state agent (record s { calls_made = suc s.calls_made }) d in
      if leb d.max_calls_per_min s.calls_made
      then (rate_limited, with_state agent s d)
      else (decision, record counted { concurrency_sem = sem' })
