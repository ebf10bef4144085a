-- ===== src/Hooks/Tests/Managing.antt =====
-- A manager (di-core/src/hooks/mod.rs) through a sequence of calls.
use di_rac.Prelude.{List, [], ◌∷◌, none, inl, true}
use di_rac.Hooks.Eval.Bounds.{Ensures}
use di_rac.Hooks.Directive.{no_directives}
use di_rac.Hooks.Directive.Merge.{merge}
use di_rac.Hooks.Eval.Run.{default_limits}
use di_rac.Hooks.Event.{post_tool_use}
use di_rac.Hooks.Manager.{AgentHookManager, Call, fire, clears, takes_triggers, with_agent_id, run}
use di_rac.Hooks.Manager.Invariant.{IsSound, run-IsSound}
use di_rac.Hooks.Tests.Fixture.{trigger, plain, clock, small_module}

abbrev calls : List (Call plain)
calls =
    fire clock (post_tool_use "edit" ("src/a.rs" ∷ []) true)
    ∷ takes_triggers
    ∷ fire clock (post_tool_use "edit" ("src/a.rs" ∷ []) true)
    ∷ clears
    ∷ []

run-IsSound_example : Ensures IsSound (run (with_agent_id none (inl small_module)) calls)
run-IsSound_example = run-IsSound none (inl small_module) calls

abbrev manager : AgentHookManager plain
manager = record {
  active = small_module;
  limits = default_limits;
  merged = merge clock no_directives (trigger ∷ []);
  agent_id = none;
}
