-- ===== src/Hooks/Manager/Kinds.antt =====
-- The pending requests' keys are of the requests' kinds (di-core/src/hooks/directive.rs).
use di_rac.Prelude.{ℕ, suc, ℤ, List, [], ◌∷◌, inl, inr, Bool-cases, ◌≡◌, All, All-append}
use di_rac.Hooks.Directive.{
  LoopDirective, require_validation, trigger_observer, trigger_planner_review, MergedDirectives,
  seen,
}
use di_rac.Hooks.Directive.Merge.{merge_one, merge_from, merge}
use di_rac.Hooks.Manager.Keys.{IsKinded}

-- the requests' keys are of the requests' kinds
pub record KindsMatch (m : MergedDirectives) : Type 0 where
  pub validations : All (λ v. v.dedupe_key.kind ≡ "require_validation") m.validations
  pub triggers : All (λ t. t.dedupe_key.kind ≡ "trigger_observer") m.observer_triggers
  pub reviews : All (λ r. r.dedupe_key.kind ≡ "trigger_planner_review") m.planner_reviews

merge_one-KindsMatch :
    (now : ℤ) (m : MergedDirectives) (d : LoopDirective)
    → IsKinded d
    → KindsMatch m
    → KindsMatch (merge_one now m d)
unfolding merge_one
merge_one-KindsMatch now m (require_validation argv reason key) e h =
    elim (Bool-cases (seen key m.seen_keys)) [
      | inl old ↦ rw old h
      | inr new ↦ rw new (record {
        validations = All-append _ m.validations (_ ∷ []) h.validations (e, tt);
        triggers = h.triggers;
        reviews = h.reviews;
      })
    ]
merge_one-KindsMatch now m (trigger_observer id reason s scope key) e h =
    elim (Bool-cases (seen key m.seen_keys)) [
      | inl old ↦ rw old h
      | inr new ↦ rw new (record {
        validations = h.validations;
        triggers = All-append _ m.observer_triggers (_ ∷ []) h.triggers (e, tt);
        reviews = h.reviews;
      })
    ]
merge_one-KindsMatch now m (trigger_planner_review reason key) e h =
    elim (Bool-cases (seen key m.seen_keys)) [
      | inl old ↦ rw old h
      | inr new ↦ rw new (record {
        validations = h.validations;
        triggers = h.triggers;
        reviews = All-append _ m.planner_reviews (_ ∷ []) h.reviews (e, tt);
      })
    ]
merge_one-KindsMatch now m _ e h = record {
  validations = h.validations;
  triggers = h.triggers;
  reviews = h.reviews;
}

merge_from-KindsMatch :
    (clock : ℕ → ℤ) (n : ℕ) (m : MergedDirectives) (ds : List LoopDirective)
    → All IsKinded ds
    → KindsMatch m
    → KindsMatch (merge_from clock n m ds)
unfolding merge_from
merge_from-KindsMatch clock n m [] k h = h
merge_from-KindsMatch clock n m (d ∷ ds) k h =
    merge_from-KindsMatch clock (suc n) (merge_one (clock n) m d) ds k.1
      (merge_one-KindsMatch (clock n) m d k.0 h)

pub merge-KindsMatch :
    (clock : ℕ → ℤ) (m : MergedDirectives) (ds : List LoopDirective)
    → All IsKinded ds
    → KindsMatch m
    → KindsMatch (merge clock m ds)
unfolding merge
merge-KindsMatch clock = merge_from-KindsMatch clock 0
