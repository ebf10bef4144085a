-- ===== src/Hooks/Event.antt =====
-- The events of the agent loop (di-core/src/hooks/directive.rs), and the context that an evaluation
-- gets from one (`build_context` of di-core/src/hooks/mod.rs).
use di_rac.Prelude.{ℕ, ℤ, String, Bool, List, [], Option, none, some}
use di_rac.Hooks.Directive.{Severity}
use di_rac.Hooks.Eval.Value.{EvalContext}
use di_rac.Hooks.External.{External}

pub data AgentLoopEvent (x : External) : Type 0 where
  session_start : AgentLoopEvent x
  -- the tool's name, the files that it changed, and its success
  post_tool_use : String → List String → Bool → AgentLoopEvent x
  observer_result : String → x.Json → AgentLoopEvent x
  pre_finish : AgentLoopEvent x
  -- a snippet of the prompt, and its tokens
  user_prompt : String → ℕ → AgentLoopEvent x
  -- the text of the plan, and its files
  plan_created : String → List String → AgentLoopEvent x
  -- the command, its exit code, a snippet of its output, and its success
  validation_result : String → ℤ → String → Bool → AgentLoopEvent x
  -- the current tokens, their limit, and the reason
  pre_compact : ℕ → ℕ → String → AgentLoopEvent x
  task_complete : String → Bool → AgentLoopEvent x
  -- the message, its severity, and the tool's name
  error_occurred : String → Severity → Option String → AgentLoopEvent x

module _ {x : External} where
  abbrev context :
      String
      → List String
      → Option String
      → Option Bool
      → Option String
      → Option x.Json
      → EvalContext x
  context event changed_files tool_name tool_success observer_id observer_output = record {
    hook_id = "repo";
    event = event;
    changed_files = changed_files;
    tool_name = tool_name;
    tool_success = tool_success;
    observer_id = observer_id;
    observer_output = observer_output;
  }

  unfoldable pub build_context : AgentLoopEvent x → EvalContext x
  build_context session_start = context "session_start" [] none none none none
  build_context (post_tool_use tool_name changed_files success) =
      context "post_tool_use" changed_files (some tool_name) (some success) none none
  build_context (observer_result observer_id output) =
      context "observer_result" [] none none (some observer_id) (some output)
  build_context pre_finish = context "pre_finish" [] none none none none
  build_context (user_prompt _ _) = context "user_prompt" [] none none none none
  build_context (plan_created _ files) = context "plan_created" files none none none none
  build_context (validation_result _ _ _ _) = context "validation_result" [] none none none none
  build_context (pre_compact _ _ _) = context "pre_compact" [] none none none none
  build_context (task_complete _ _) = context "task_complete" [] none none none none
  build_context (error_occurred _ _ tool_name) =
      context "error_occurred" [] tool_name none none none
