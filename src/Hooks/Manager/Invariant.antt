-- ===== src/Hooks/Manager/Invariant.antt =====
-- What every call of the hook manager keeps (di-core/src/hooks/mod.rs).
use di_rac.Prelude.{ℕ, ℤ, String, List, [], ◌∷◌, Option, ◌⊎◌, inl, inr, arith, All}
use di_rac.Hooks.Directive.{no_directives}
use di_rac.Hooks.Directive.Merge.{merge}
use di_rac.Hooks.Directive.Merge.Keys.{IsDeduped, merge-IsDeduped, no_directives-IsDeduped}
use di_rac.Hooks.Directive.Merge.Sorted.{IsOrdered, merge_sorts}
use di_rac.Hooks.Eval.Bounds.{Ensures, Ensures-bind}
use di_rac.Hooks.Eval.Run.{EvalResult, evaluate}
use di_rac.Hooks.Event.{AgentLoopEvent, build_context}
use di_rac.Hooks.External.{External}
use di_rac.Hooks.Ir.{CompiledHookModule}
use di_rac.Hooks.Manager.{
  AgentHookManager, with_agent_id, Call, fire, reloads, swaps, resets, clears, takes_notes,
  takes_triggers, on_event, step, run,
}
use di_rac.Hooks.Manager.Keys.{IsKinded, evaluate-IsKinded}
use di_rac.Hooks.Manager.Kinds.{KindsMatch, merge-KindsMatch}
use di_rac.Hooks.Manager.Capping.{
  IsCapped, cap-IsCapped, cap-KindsMatch, cap-IsOrdered, cap-IsDeduped, taken-IsDeduped,
}

-- what holds of a manager between two calls
pub record IsSound {x : External} (s : AgentHookManager x) : Type 0 where
  pub deduped : IsDeduped s.merged
  pub ordered : IsOrdered s.merged
  pub kinds : KindsMatch s.merged
  pub capped : IsCapped s.limits s.merged

fresh-IsSound :
    {x : External} (s : AgentHookManager x) → IsSound (record s { merged = no_directives })
fresh-IsSound s = record {
  deduped = no_directives-IsDeduped;
  ordered = record { warnings = tt; approval_notes = tt };
  kinds = record { validations = tt; triggers = tt; reviews = tt };
  capped = omega arith;
}

module _ {x : External} where
  on_event-IsSound :
      (clock : ℕ → ℤ) (event : AgentLoopEvent x) (s : AgentHookManager x)
      → IsSound s
      → Ensures (λ r. IsSound r.0) (on_event clock event s)
  unfolding on_event
  on_event-IsSound clock event s h =
      Ensures-bind (λ (r : EvalResult). All IsKinded r.directives) (λ r. IsSound r.0)
        (evaluate x s.active (build_context event) s.limits) _
        (evaluate-IsKinded x s.active (build_context event) s.limits)
        (λ r k.
          let after = merge clock s.merged r.directives in
          record {
            deduped =
                cap-IsDeduped s.limits after
                  (merge-IsDeduped clock s.merged r.directives h.deduped);
            ordered =
                cap-IsOrdered s.limits after (merge_sorts clock s.merged r.directives h.ordered).0;
            kinds =
                cap-KindsMatch s.limits after
                  (merge-KindsMatch clock s.merged r.directives k h.kinds);
            capped = cap-IsCapped s.limits after;
          })

  -- Every call of the manager, whatever the event and the module, keeps the pending requests
  -- deduplicated and of the kinds of their keys, the warnings and notes sorted, and the capped
  -- lists within their limits.
  pub step-IsSound : (s : AgentHookManager x) (c : Call x) → IsSound s → Ensures IsSound (step s c)
  unfolding step
  step-IsSound s (fire clock event) h =
      Ensures-bind (λ r. IsSound r.0) IsSound (on_event clock event s) _
        (on_event-IsSound clock event s h) (λ r k. k)
  step-IsSound s (reloads (inl m)) h = record {
    deduped = h.deduped;
    ordered = h.ordered;
    kinds = h.kinds;
    capped = h.capped;
  }
  step-IsSound s (reloads (inr errors)) h = h
  step-IsSound s (swaps m) h = record {
    deduped = h.deduped;
    ordered = h.ordered;
    kinds = h.kinds;
    capped = h.capped;
  }
  step-IsSound s resets h = fresh-IsSound s
  step-IsSound s clears h = record {
    deduped = h.deduped;
    ordered = record { warnings = h.ordered.warnings; approval_notes = h.ordered.approval_notes };
    kinds = record {
      validations = h.kinds.validations;
      triggers = h.kinds.triggers;
      reviews = h.kinds.reviews;
    };
    capped = omega (arith, h.capped);
  }
  step-IsSound s takes_notes h = record {
    deduped = h.deduped;
    ordered = record { warnings = h.ordered.warnings; approval_notes = tt };
    kinds = record {
      validations = h.kinds.validations;
      triggers = h.kinds.triggers;
      reviews = h.kinds.reviews;
    };
    capped = omega (arith, h.capped);
  }
  step-IsSound s takes_triggers h = record {
    deduped = taken-IsDeduped s.merged h.kinds h.deduped;
    ordered = record { warnings = h.ordered.warnings; approval_notes = h.ordered.approval_notes };
    kinds = record { validations = h.kinds.validations; triggers = tt; reviews = h.kinds.reviews };
    capped = omega (arith, h.capped);
  }

  run_from-IsSound :
      (cs : List (Call x)) (s : AgentHookManager x) → IsSound s → Ensures IsSound (run s cs)
  unfolding run
  run_from-IsSound [] s h = h
  run_from-IsSound (c ∷ cs) s h =
      Ensures-bind IsSound IsSound (step s c) _ (step-IsSound s c h)
        (λ t k. run_from-IsSound cs t k)

  -- Whatever the loader returned at the start and whatever calls follow, a manager that no panic
  -- has ended is sound: no two of its requests have one key, each request's key is of the
  -- request's kind, warnings and notes are sorted by severity, and no capped list is too long.
  pub run-IsSound :
      (agent_id : Option String) (loaded : CompiledHookModule x ⊎ List String) (cs : List (Call x))
      → Ensures IsSound (run (with_agent_id agent_id loaded) cs)
  run-IsSound agent_id loaded cs =
      run_from-IsSound cs (with_agent_id agent_id loaded)
        (unfold with_agent_id in fresh-IsSound (with_agent_id agent_id loaded))
