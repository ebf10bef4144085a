-- ===== src/Hooks/Manager/Capping.antt =====
-- What capping the pending requests, and taking the triggers, keep (di-core/src/hooks/mod.rs).
use mathlib.Core.Bool.{false≢true}
use di_rac.Prelude.{
  ℕ, zero, suc, ◌≤◌, true, false, not, List, [], ◌∷◌, inl, inr, Bool-cases, ◌≡◌, refl, sym, ap, ◌∙◌,
  ◌≢◌, arith, All, All-take, length, length-take-le, take, retain,
}
use di_rac.Hooks.Directive.{
  DedupeKey, key_eq, ValidationRequest, ObserverTrigger, PlannerReview, MergedDirectives, seen,
}
use di_rac.Hooks.Directive.Merge.Keys.{
  IsDeduped, count, validation_keys, trigger_keys, review_keys, key_eq_iff, seen-cons,
}
use di_rac.Hooks.Directive.Merge.Sorted.{IsOrdered}
use di_rac.Hooks.Eval.Run.{AgentHookLimits}
use di_rac.Hooks.Manager.{cap_merged_directives, is_trigger_key}
use di_rac.Hooks.Manager.Kinds.{KindsMatch}

-- the lists that have limits keep them
pub record IsCapped (limits : AgentHookLimits) (m : MergedDirectives) : Type 0 where
  pub triggers : length m.observer_triggers ≤ limits.max_observer_triggers_per_event
  pub validations : length m.validations ≤ limits.max_validation_requests_per_task
  pub reviews : length m.planner_reviews ≤ limits.max_planner_reviews_per_task
  pub gates : length m.finish_gates ≤ limits.max_finish_gates
  pub facts : length m.remembered_facts ≤ limits.max_remembered_facts

pub cap-IsCapped :
    (limits : AgentHookLimits) (m : MergedDirectives)
    → IsCapped limits (cap_merged_directives limits m)
unfolding cap_merged_directives
cap-IsCapped limits m = record {
  triggers = length-take-le _ m.observer_triggers;
  validations = length-take-le _ m.validations;
  reviews = length-take-le _ m.planner_reviews;
  gates = length-take-le _ m.finish_gates;
  facts = length-take-le _ m.remembered_facts;
}

pub cap-KindsMatch :
    (limits : AgentHookLimits) (m : MergedDirectives)
    → KindsMatch m
    → KindsMatch (cap_merged_directives limits m)
unfolding cap_merged_directives
cap-KindsMatch limits m h = record {
  validations = All-take _ _ m.validations h.validations;
  triggers = All-take _ _ m.observer_triggers h.triggers;
  reviews = All-take _ _ m.planner_reviews h.reviews;
}

pub cap-IsOrdered :
    (limits : AgentHookLimits) (m : MergedDirectives)
    → IsOrdered m
    → IsOrdered (cap_merged_directives limits m)
unfolding cap_merged_directives
cap-IsOrdered limits m h = record { warnings = h.warnings; approval_notes = h.approval_notes }

module _ (k : DedupeKey) where
  count-take_validations :
      (n : ℕ) (vs : List ValidationRequest)
      → count k (validation_keys (take n vs)) ≤ count k (validation_keys vs)
  count-take_validations zero vs = omega arith
  count-take_validations (suc n) [] = omega arith
  count-take_validations (suc n) (v ∷ vs) = omega (arith, count-take_validations n vs)

  count-take_triggers :
      (n : ℕ) (ts : List ObserverTrigger)
      → count k (trigger_keys (take n ts)) ≤ count k (trigger_keys ts)
  count-take_triggers zero ts = omega arith
  count-take_triggers (suc n) [] = omega arith
  count-take_triggers (suc n) (t ∷ ts) = omega (arith, count-take_triggers n ts)

  count-take_reviews :
      (n : ℕ) (rs : List PlannerReview)
      → count k (review_keys (take n rs)) ≤ count k (review_keys rs)
  count-take_reviews zero rs = omega arith
  count-take_reviews (suc n) [] = omega arith
  count-take_reviews (suc n) (r ∷ rs) = omega (arith, count-take_reviews n rs)

pub cap-IsDeduped :
    (limits : AgentHookLimits) (m : MergedDirectives)
    → IsDeduped m
    → IsDeduped (cap_merged_directives limits m)
unfolding cap_merged_directives
cap-IsDeduped limits m h k = omega (
  arith,
  h k,
  count-take_validations k limits.max_validation_requests_per_task m.validations,
  count-take_triggers k limits.max_observer_triggers_per_event m.observer_triggers,
  count-take_reviews k limits.max_planner_reviews_per_task m.planner_reviews,
)

-- A key that is forgotten differs from one that is kept.
kept_ne : (k j : DedupeKey) → is_trigger_key k ≢ is_trigger_key j → key_eq k j ≡ false
kept_ne k j h = elim (Bool-cases (key_eq k j)) [
  | inl e ↦ absurd (h (ap is_trigger_key ((key_eq_iff k j).0 e)))
  | inr e ↦ e
]

seen-retain :
    (k : DedupeKey) (ks : List DedupeKey)
    → is_trigger_key k ≡ false
    → seen k (retain (λ j. not (is_trigger_key j)) ks) ≡ seen k ks
seen-retain k [] h = refl
seen-retain k (j ∷ ks) h = elim (Bool-cases (is_trigger_key j)) [
  | inl e ↦ rw e (
      seen-retain k ks h
      ∙ cc (seen-cons k j ks, kept_ne k j (λ same. false≢true (sym h ∙ same ∙ e))))
  | inr e ↦ rw e (
      cc (
        seen-cons k j ks,
        seen-cons k j (retain (λ j. not (is_trigger_key j)) ks),
        seen-retain k ks h,
      ))
]

validation_kept : (k : DedupeKey) → k.kind ≡ "require_validation" → is_trigger_key k ≡ false
unfolding is_trigger_key
validation_kept k e = rw e

review_kept : (k : DedupeKey) → k.kind ≡ "trigger_planner_review" → is_trigger_key k ≡ false
unfolding is_trigger_key
review_kept k e = rw e

module _ (k : DedupeKey) (forgotten : is_trigger_key k ≡ true) where
  no_validation :
      (vs : List ValidationRequest)
      → All (λ v. v.dedupe_key.kind ≡ "require_validation") vs
      → count k (validation_keys vs) ≡ 0
  no_validation [] a = refl
  no_validation (v ∷ vs) a = ground (
    arith,
    no_validation vs a.1,
    kept_ne k v.dedupe_key
        (λ same. false≢true (sym (validation_kept v.dedupe_key a.0) ∙ sym same ∙ forgotten)),
  )

  no_review :
      (rs : List PlannerReview)
      → All (λ r. r.dedupe_key.kind ≡ "trigger_planner_review") rs
      → count k (review_keys rs) ≡ 0
  no_review [] a = refl
  no_review (r ∷ rs) a = ground (
    arith,
    no_review rs a.1,
    kept_ne k r.dedupe_key
        (λ same. false≢true (sym (review_kept r.dedupe_key a.0) ∙ sym same ∙ forgotten)),
  )

-- the state after the triggers have been taken
abbrev pub taken : MergedDirectives → MergedDirectives
taken m = record m {
  seen_keys = retain (λ k. not (is_trigger_key k)) m.seen_keys;
  observer_triggers = [];
}

pub taken-IsDeduped : (m : MergedDirectives) → KindsMatch m → IsDeduped m → IsDeduped (taken m)
taken-IsDeduped m kinds h k = elim (Bool-cases (is_trigger_key k)) [
  | inl gone ↦ ground (
    arith,
    no_validation k gone m.validations kinds.validations,
    no_review k gone m.planner_reviews kinds.reviews,
  )
  | inr kept ↦ ground (arith, h k, seen-retain k m.seen_keys kept)
]
