-- ===== src/Hooks/Manager/Retrigger.antt =====
-- A trigger that was taken can fire again (di-core/src/hooks/mod.rs, `take_observer_triggers`).
use di_rac.Prelude.{
  ℕ, ℤ, String, true, false, not, List, [], ◌∷◌, ◌≡◌, ◌≢◌, refl, ap, ◌∙◌, sym, inl, inr, Bool-cases,
  retain,
}
use di_rac.Hooks.Directive.{DedupeKey, key_eq, Severity, ObservationScope, trigger_observer, seen}
use di_rac.Hooks.Directive.Merge.{merge, merge_from, merge_one}
use di_rac.Hooks.Directive.Merge.Keys.{key_eq_iff}
use di_rac.Hooks.External.{External}
use di_rac.Hooks.Manager.{AgentHookManager, is_trigger_key, take_observer_triggers}

true-ne-false : true ≢ false
true-ne-false e = cc

kinds_differ :
    (k j : DedupeKey) → is_trigger_key k ≡ true → is_trigger_key j ≡ false → key_eq k j ≡ false
kinds_differ k j h kept = elim (Bool-cases (key_eq k j)) [
  | inl same ↦
      let e = ap is_trigger_key ((key_eq_iff k j).0 same) in
      absurd (true-ne-false (sym h ∙ e ∙ kept))
  | inr other ↦ other
]

seen-retain :
    (k : DedupeKey) (js : List DedupeKey)
    → is_trigger_key k ≡ true
    → seen k (retain (λ j. not (is_trigger_key j)) js) ≡ false
unfolding seen
seen-retain k [] h = refl
seen-retain k (j ∷ js) h = elim (Bool-cases (is_trigger_key j)) [
  | inl dropped ↦ rw dropped (seen-retain k js h)
  | inr kept ↦ rw kept (rw (kinds_differ k j h kept) (seen-retain k js h))
]

-- After the pending triggers have been taken, a trigger with a key of the triggers' kind is pending
-- again as soon as it is merged, though it was merged before.
pub taken_fires_again :
    {x : External} (clock : ℕ → ℤ) (s : AgentHookManager x) (observer_id reason : String)
    (v : Severity) (scope : ObservationScope) (key : DedupeKey)
    → is_trigger_key key ≡ true
    → let left = (take_observer_triggers s).0.merged in
      (merge clock left (trigger_observer observer_id reason v scope key ∷ [])).observer_triggers
      ≡ (record {
        observer_id = observer_id;
        reason = reason;
        severity = v;
        scope = scope;
        dedupe_key = key;
      })
        ∷ []
unfolding merge merge_from merge_one take_observer_triggers
taken_fires_again clock s observer_id reason v scope key h =
    rw (seen-retain key s.merged.seen_keys h) refl
