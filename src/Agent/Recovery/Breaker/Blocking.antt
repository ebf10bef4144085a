-- ===== src/Agent/Recovery/Breaker/Blocking.antt =====
-- When a circuit breaker (di-core/src/agent/recovery.rs) blocks its tool.
use di_rac.Prelude.{
  ℕ, suc, ◌+◌, ◌≤◌, ◌<◌, not, ◌&&◌, List, [], ◌∷◌, Option, some, ◌≡◌, refl, arith, leb, ltb, length,
}
use di_rac.Agent.Recovery.Breaker.{
  CircuitState, closed, opened, half_open, CircuitBreaker, new_breaker, secs_between,
  record_success, record_failure, allow_execution, Use, succeeds, fails, asks, use_breaker, use_all,
}

-- the failures since the last success, and when the last of them was
pub record Streak : Type 0 where
  pub failures : ℕ
  pub last : ℕ

abbrev extend : Use → Streak → Streak
extend succeeds s = record s { failures = 0 }
extend (fails now) s = record { failures = suc s.failures; last = now }
extend (asks now) s = s

abbrev pub streak_after : List Use → Streak → Streak
streak_after [] s = s
streak_after (u ∷ us) s = streak_after us (extend u s)

abbrev pub no_streak : Streak
no_streak = record { failures = 0; last = 0 }

-- the instant of a use; a success carries none
abbrev later : Use → ℕ → ℕ
later succeeds now = now
later (fails t) now = t
later (asks t) now = t

-- the instants never go back from `now`, and end at `end`
abbrev pub IsTimed : ℕ → List Use → ℕ → Type 0
IsTimed now [] end = now ≤ end
IsTimed now (u ∷ us) end = (now ≤ later u now) × IsTimed (later u now) us end

-- the breaker's state, on the streak and the current instant
abbrev StateFits : CircuitState → Option ℕ → Streak → ℕ → Type 0
StateFits closed at s now = s.failures < 3
StateFits opened at s now = (3 ≤ s.failures) × (at ≡ some s.last)
StateFits half_open at s now =
    (3 ≤ s.failures) × (at ≡ some s.last) × (30 ≤ secs_between s.last now)

record Fits (b : CircuitBreaker) (s : Streak) (now : ℕ) : Type 0 where
  counted : b.consecutive_failures ≡ s.failures
  threshold : b.threshold ≡ 3
  cooldown : b.cooldown_secs ≡ 30
  past : s.last ≤ now
  fits : StateFits b.state b.opened_at s now

new-Fits : Fits new_breaker no_streak 0
new-Fits = record {
  counted = refl;
  threshold = refl;
  cooldown = refl;
  past = omega arith;
  fits = omega arith;
}

success-Fits :
    (b : CircuitBreaker) (s : Streak) (now : ℕ)
    → Fits b s now
    → Fits (record_success b) (record s { failures = 0 }) now
unfolding record_success
success-Fits b s now h = record {
  counted = refl;
  threshold = h.threshold;
  cooldown = h.cooldown;
  past = h.past;
  fits = omega arith;
}

failure-Fits :
    (b : CircuitBreaker) (s : Streak) (now t : ℕ)
    → suc s.failures < 4294967296
    → now ≤ t
    → Fits b s now
    → Fits (record_failure t b) (record { failures = suc s.failures; last = t }) t
unfolding record_failure
failure-Fits b s now t small le h =
    ground (arith, h.counted, h.threshold, h.cooldown, h.past, h.fits)

asking-Fits :
    (b : CircuitBreaker) (s : Streak) (now t : ℕ)
    → now ≤ t
    → Fits b s now
    → Fits (allow_execution t b).0 s t
unfolding allow_execution
asking-Fits b s now t le h = ground (arith, h.counted, h.threshold, h.cooldown, h.past, h.fits)

answer-Fits :
    (b : CircuitBreaker) (s : Streak) (now t : ℕ)
    → now ≤ t
    → Fits b s now
    → (allow_execution t b).1 ≡ not (leb 3 s.failures && ltb (secs_between s.last t) 30)
unfolding allow_execution
answer-Fits b s now t le h = ground (arith, h.counted, h.threshold, h.cooldown, h.past, h.fits)

waiting-Fits : (b : CircuitBreaker) (s : Streak) (now t : ℕ) → now ≤ t → Fits b s now → Fits b s t
waiting-Fits b s now t le h = ground (arith, h.counted, h.threshold, h.cooldown, h.past, h.fits)

use_all-Fits :
    (us : List Use) (b : CircuitBreaker) (s : Streak) (now end : ℕ)
    → s.failures + length us < 4294967296
    → IsTimed now us end
    → Fits b s now
    → Fits (use_all us b) (streak_after us s) end
unfolding use_all
use_all-Fits [] b s now end small timed h = waiting-Fits b s now end timed h
use_all-Fits (succeeds ∷ us) b s now end small (le, timed) h =
    use_all-Fits us (use_breaker succeeds b) _ now end (omega (arith, small)) timed
      (unfold use_breaker in success-Fits b s now h)
use_all-Fits (fails t ∷ us) b s now end small (le, timed) h =
    use_all-Fits us (use_breaker (fails t) b) _ t end (omega (arith, small)) timed
      (unfold use_breaker in failure-Fits b s now t (omega (arith, small)) le h)
use_all-Fits (asks t ∷ us) b s now end small (le, timed) h =
    use_all-Fits us (use_breaker (asks t) b) _ t end (omega (arith, small)) timed
      (unfold use_breaker in asking-Fits b s now t le h)

-- After fewer than 2^32 uses whose instants never go back, a breaker blocks its tool exactly where
-- the last three or more uses without a success between them failed and the last failure is less
-- than 30 seconds old.
pub allow_execution-blocks :
    (us : List Use) (now : ℕ)
    → length us < 4294967296
    → IsTimed 0 us now
    → let streak = streak_after us no_streak in
      (allow_execution now (use_all us new_breaker)).1
      ≡ not (leb 3 streak.failures && ltb (secs_between streak.last now) 30)
allow_execution-blocks us now small timed =
    answer-Fits (use_all us new_breaker) (streak_after us no_streak) now now (omega arith)
      (use_all-Fits us new_breaker no_streak 0 now (omega (arith, small)) timed new-Fits)
