-- ===== src/Lib.antt =====
-- Verification library of di-rac, a coding agent. It models the agent engine's own logic, the Rust
-- crate di-core, and of that mainly the hook system (di-core/src/hooks): users write hook files in a
-- small language, which is compiled, and the compiled rules react to the events of the agent loop
-- with directives (hints, warnings, required validations, finish gates) that the agent merges.
--
-- The parts, and where their models stand:
--   * Prelude: text as UTF-8, integers, dictionaries and lists, shared by the others.
--   * Util: di-core/src/util.rs, the hash of the dedupe keys.
--   * Hooks.External: what comes from other packages (serde_json, glob, blake3, Debug printing), a
--     record that the models take as an argument.
--   * Hooks.Ast and Hooks.Ir: di-core/src/hooks/parser/ast.rs and di-core/src/hooks/ir.rs.
--   * Hooks.Lexer: di-core/src/hooks/parser/lexer.rs. `next_token` takes and gives the lexer's state;
--     `handle_indent` keeps the stack of levels, top first. Texts are lists of character codes, and
--     the Unicode classes a parameter. `lex_all` is the parser's calls, on fuel 2 * n + 3 for a
--     source of n characters, which is proved to be enough.
--   * Hooks.Parser: di-core/src/hooks/parser/parser.rs. A method takes the parser's state and gives a
--     Result with the state after it; `advance` calls the lexer's `next_token`. Every loop, and the
--     descent into expressions and blocks, has rounds that it may take; a run without enough of them is
--     `out_of_fuel`. Parser.Syntax says how expressions are written and what tree they mean.
--   * Hooks.Compile: di-core/src/hooks/compiler.rs. `compile_with_base` is composed of the loops
--     over groups, roles and handlers, as in the source; `compile_block`, `compile_actions`,
--     `compile_action` and `compile_expr` are the functions of these names. What `resolve_imports`
--     reads from files is the argument `Imports`.
--   * Hooks.Eval: di-core/src/hooks/evaluator.rs. `eval_expr` passes the step counter as state;
--     `evaluate` passes a record of the loops' variables. A slice that panics is `none`. Eval.Fired
--     and Eval.Complete have the meaning of rules without limits, and compare.
--   * Hooks.Directive: di-core/src/hooks/directive.rs. `merge` takes a clock for the time stamps.
--   * Hooks.EndToEnd: the compiler and the evaluator together.
--   * Hooks.Event and Hooks.Manager: di-core/src/hooks/mod.rs. A `Call` is one call of the agent on
--     its manager, `step` what it does to the state, `run` a sequence of calls.
--
--   * Agent.Recovery: di-core/src/agent/recovery.rs, the circuit breakers of tools and the detection
--     of repeated calls. An Instant is a number of nanoseconds that each call gets.
--   * Agent.FileContext: di-core/src/agent/file_context.rs, which files were read and edited;
--     `replay` is a sequence of calls, the newest first.
--   * Context: di-core/src/context. Context.Metrics is lifecycle_metrics.rs, the turns that are
--     kept; Context.Triggers is adaptive_triggers.rs; Context.Lifecycle is lifecycle.rs, the states
--     from `normal` to `compaction_due`, with `run_calls` for the calls of the agent loop: a turn
--     recorded, an evaluation, a compaction done. Quotients of type f64 and their comparisons with
--     hundredths are the argument `Floats`. Context.Admission is distiller/admission.rs, for calls
--     that ask one after the other; the semaphore of tokio is the argument `Semaphore`, and
--     `IsSemaphore` what tokio documents of it.
--   * Tools.Response and Tools.Routing: di-core/src/tools/response.rs and di-core/src/tools/routing.rs,
--     the errors of tools and what the agent does with them. The agent loop asks a breaker before a
--     tool runs, records its outcome, and routes its error.
--   * Util.Anchors: di-core/src/util.rs, FileAnchorIndex, which gives each line of a file an anchor.
--   * Tools.Edit: di-core/src/tools/edit_file.rs. Edit.Distance is `levenshtein` row by row,
--     Edit.Resolve finds the lines that anchors mean, and Edit.Apply splices the edits in from the
--     bottom to the top; a splice out of range, which panics, is `none`. Scores of type f64, regular
--     expressions and the lower case of Unicode are the argument `Matching`. Edit.Arguments reads the
--     edits out of a call, Edit.Report writes the answer, and Edit.Handler is `edit_file`: the files
--     are a list of paths and contents, in which a write is a new entry. How a write through a
--     temporary file ends, paths, the factor 0.7 and blake3 are the argument `Outside`; the details
--     of an error (its JSON) are left out.
--
-- Conventions: `Vec` is List, a HashMap is an association list, a HashSet a list without order in
-- what is stated of it, `&mut errors` the list of the messages pushed, in order. `usize` counters
-- are ℕ: they stay below the limits or the sizes of inputs. Recursion is structural; only
-- `lex_all` and the parser take fuel.
--
-- Not modelled: input and output (sockets, processes, files, the terminal), serialization, prompts,
-- the Go gateway, the C daemons, and vendored code.
pub mod Prelude
pub mod Util
pub mod Hooks
pub mod Agent
pub mod Context
pub mod Tools
