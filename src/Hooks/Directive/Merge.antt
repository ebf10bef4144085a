-- ===== src/Hooks/Directive/Merge.antt =====
-- `DirectiveMerger::merge` of di-core/src/hooks/directive.rs.
pub mod Sorted
pub mod Keys
use di_rac.Prelude.{ℕ, suc, ℤ, String, Bool, false, List, [], ◌∷◌, ◌++◌, leb, if◌then◌else◌}
use di_rac.Hooks.Directive.{
  Severity, rank, DedupeKey, LoopDirective, add_hint, add_criterion, warn, approval_note,
  require_validation, trigger_observer, trigger_planner_review, require_evidence,
  require_final_note, remember, audit, block_finish_until, MergedDirectives, seen,
}

-- The stable `sort_by_key(|(s, _)| *s)`: an element goes before the first that is not less.
unfoldable pub insert_by_severity :
    Severity × String → List (Severity × String) → List (Severity × String)
insert_by_severity x [] = x ∷ []
insert_by_severity x (y ∷ ys) =
    if leb (rank x.0) (rank y.0) then x ∷ y ∷ ys else y ∷ insert_by_severity x ys

unfoldable pub sort_by_severity : List (Severity × String) → List (Severity × String)
unfolding insert_by_severity
sort_by_severity [] = []
sort_by_severity (x ∷ xs) = insert_by_severity x (sort_by_severity xs)

-- `seen_keys.insert(key)` and, where the key was new, the push.
abbrev once :
    DedupeKey → MergedDirectives → (MergedDirectives → MergedDirectives) → MergedDirectives
once key into push =
    if seen key into.seen_keys
    then into
    else push (record into { seen_keys = key ∷ into.seen_keys })

-- One round of the loop; `now` is what the clock says in that round.
unfoldable pub merge_one : ℤ → MergedDirectives → LoopDirective → MergedDirectives
merge_one now into (add_hint text) = record into { hints = into.hints ++ text ∷ [] }
merge_one now into (add_criterion text) = record into { criteria = into.criteria ++ text ∷ [] }
merge_one now into (warn s message) = record into {
  warnings = sort_by_severity (into.warnings ++ (s, message) ∷ []);
}
merge_one now into (approval_note s message) = record into {
  approval_notes = sort_by_severity (into.approval_notes ++ (s, message) ∷ []);
}
merge_one now into (require_validation argv reason key) = once key into λ m. record m {
  validations =
      m.validations
      ++ (record { argv = argv; reason = reason; dedupe_key = key; completed = false }) ∷ [];
}
merge_one now into (trigger_observer observer_id reason s scope key) = once key into λ m. record m {
  observer_triggers =
      m.observer_triggers
      ++ (record {
        observer_id = observer_id;
        reason = reason;
        severity = s;
        scope = scope;
        dedupe_key = key;
      })
        ∷ [];
}
merge_one now into (trigger_planner_review reason key) = once key into λ m. record m {
  planner_reviews = m.planner_reviews ++ (record { reason = reason; dedupe_key = key }) ∷ [];
}
merge_one now into (require_evidence name) = record into {
  evidence_required = into.evidence_required ++ name ∷ [];
}
merge_one now into (require_final_note text) = record into {
  final_notes = into.final_notes ++ text ∷ [];
}
merge_one now into (remember fact) = record into {
  remembered_facts = into.remembered_facts ++ fact ∷ [];
}
merge_one now into (audit kind s) = record into {
  audit_events = into.audit_events ++ (record { kind = kind; severity = s; timestamp = now }) ∷ [];
}
merge_one now into (block_finish_until condition waiver) = record into {
  finish_gates =
      into.finish_gates
      ++ (record { condition = condition; waiver_allowed = waiver; satisfied = false }) ∷ [];
}

-- `clock n` is the time at the loop's round `n`.
unfoldable pub merge_from : (ℕ → ℤ) → ℕ → MergedDirectives → List LoopDirective → MergedDirectives
merge_from clock n into [] = into
merge_from clock n into (d ∷ ds) = merge_from clock (suc n) (merge_one (clock n) into d) ds

unfoldable pub merge : (ℕ → ℤ) → MergedDirectives → List LoopDirective → MergedDirectives
merge clock = merge_from clock 0
