-- ===== src/Tools/Routing/Counters.antt =====
-- What the router (di-core/src/tools/routing.rs) remembers of the retries.
use di_rac.Prelude.{
  ℕ, suc, ◌+◌, ◌-◌, ◌/◌, ◌≤◌, ◌<◌, String, Bool, true, false, [], ◌∷◌, none, some, ◌≡◌, refl, ap,
  ◌∙◌, arith, inl, inr, Bool-cases, ltb, str_eq, eq_iff, retain, Dict, lookup, remove,
  lookup-remove, lookup-insert, if◌then◌else◌, unwrap_or, lt→ltb,
}
use di_rac.Tools.Response.{ToolError}
use di_rac.Tools.Routing.{ErrorRouter, expire_stale, is_retry, error_key, counted, route}
use di_rac.Tools.Routing.Retries.{is_retry-repeated_route, retried, is_retry-route}

-- What a route leaves of the counters of other errors is what has not expired.
pub route_others :
    (now later : ℕ) (error : ToolError) (retries : ℕ) (router : ErrorRouter) (key : String)
    → str_eq (error_key error) key ≡ false
    → lookup key (route now later error retries router).0.retry_counters
      ≡ lookup key (expire_stale now router).retry_counters
unfolding route
route_others now later error retries router key other =
    let old = (expire_stale now router).retry_counters in
    ground (
      arith,
      lookup-remove (error_key error) key old,
      lookup-insert (error_key error) key (suc (counted (lookup (error_key error) old)), later)
          (remove (error_key error) old),
    )

-- Of the error itself, the counter is one more and new where the agent retries, and gone where not.
pub route_itself :
    (now later : ℕ) (error : ToolError) (retries : ℕ) (router : ErrorRouter)
    → let (next, decided) = route now later error retries router in
      lookup (error_key error) next.retry_counters
      ≡ (if is_retry decided then some (suc (retried now error router), later) else none)
unfolding route
route_itself now later error retries router =
    let old = (expire_stale now router).retry_counters in
    let key = error_key error in
    let same = (eq_iff key key).1 refl in
    ground (
      arith,
      same,
      is_retry-repeated_route error (retried now error router + retries),
      lookup-remove key key old,
      lookup-insert key key (suc (retried now error router), later) (remove key old),
    )

kept :
    (test : ℕ × ℕ → Bool) (key : String) (m : Dict (ℕ × ℕ)) (v : ℕ × ℕ)
    → test v ≡ true
    → lookup key m ≡ some v
    → lookup key (retain (λ e. test (e.1)) m) ≡ some v
unfolding lookup
kept test key [] v passes h = h
kept test key ((k, w) ∷ m) v passes h = elim (Bool-cases (str_eq k key)) [
  | inl same ↦
      let e : w ≡ v = ap (λ o. unwrap_or o w) (rw same at h) in
      rw (ap test e ∙ passes, same) (ap some e)
  | inr other ↦
      let below = kept test key m v passes (rw other at h) in
      elim (Bool-cases (test w)) [ inl stays ↦ rw (stays, other) below | inr goes ↦ rw goes below ]
]

remembered :
    (now at count : ℕ) (error : ToolError) (router : ErrorRouter)
    → (now - at) / 1000000000 < router.decay_secs
    → lookup (error_key error) router.retry_counters ≡ some (count, at)
    → count ≤ retried now error router
unfolding expire_stale
remembered now at count error router recent h =
    let test : ℕ × ℕ → Bool = λ v. ltb ((now - v.1) / 1000000000) router.decay_secs in
    let found =
      kept test (error_key error) router.retry_counters (count, at) (lt→ltb _ _ recent) h in
    omega (arith, ap counted found)

keeps_decay :
    (now later : ℕ) (error : ToolError) (retries : ℕ) (router : ErrorRouter)
    → (route now later error retries router).0.decay_secs ≡ router.decay_secs
unfolding route expire_stale
keeps_decay now later error retries router = ground arith

-- After a retry of an error, another route of it within the router's decay time remembers it: two
-- retries in a row are followed by a route that is none, whatever the router held before.
pub third_is_no_retry :
    (error : ToolError) (router : ErrorRouter) (now₁ at₁ now₂ at₂ now₃ at₃ r₁ r₂ r₃ : ℕ)
    → (now₂ - at₁) / 1000000000 < router.decay_secs
    → (now₃ - at₂) / 1000000000 < router.decay_secs
    → is_retry (route now₁ at₁ error r₁ router).1 ≡ true
    → is_retry (route now₂ at₂ error r₂ (route now₁ at₁ error r₁ router).0).1 ≡ true
    → is_retry
        (route now₃ at₃ error r₃ (route now₂ at₂ error r₂ (route now₁ at₁ error r₁ router).0).0).1
      ≡ false
third_is_no_retry error router now₁ at₁ now₂ at₂ now₃ at₃ r₁ r₂ r₃ soon₂ soon₃ one two =
    let first = route now₁ at₁ error r₁ router in
    let second = route now₂ at₂ error r₂ first.0 in
    let c₁ = route_itself now₁ at₁ error r₁ router in
    let c₂ = route_itself now₂ at₂ error r₂ first.0 in
    let m₁ =
      remembered now₂ at₁ _ error first.0
        (omega (arith, soon₂, keeps_decay now₁ at₁ error r₁ router)) (rw one at c₁) in
    let m₂ =
      remembered now₃ at₂ _ error second.0
        (omega (
          arith,
          soon₃,
          keeps_decay now₁ at₁ error r₁ router,
          keeps_decay now₂ at₂ error r₂ first.0,
        ))
        (rw two at c₂) in
    ground (arith, is_retry-route now₃ at₃ error r₃ second.0, m₁, m₂)
