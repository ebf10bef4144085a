-- ===== src/Agent/Recovery/Tests.antt =====
-- Circuit breakers and loops (di-core/src/agent/recovery.rs) at concrete calls.
use di_rac.Prelude.{true, not, ◌&&◌, List, [], ◌∷◌, ◌≡◌, arith, leb, ltb, is_some, String}
use di_rac.Agent.Recovery.Breaker.{
  Use, succeeds, fails, asks, new_breaker, secs_between, allow_execution, use_all, breaker_of,
  use_tools,
}
use di_rac.Agent.Recovery.Breaker.Blocking.{no_streak, streak_after, allow_execution-blocks}
use di_rac.Agent.Recovery.Breaker.PerTool.{uses_of, use_tools-alone}
use di_rac.Agent.Recovery.Stagnation.{ToolCallRecord, new_detector, record_call}
use di_rac.Agent.Recovery.Stagnation.Loops.{third_call_warns}

-- three failures after a success, then a question after 40 seconds
abbrev uses : List Use
uses =
    fails 1000000000
    ∷ succeeds
    ∷ fails 2000000000
    ∷ fails 3000000000
    ∷ fails 5000000000
    ∷ asks 6000000000
    ∷ []

allow_execution-blocks_example :
    (allow_execution 20000000000 (use_all uses new_breaker)).1
    ≡ not (
        leb 3 (streak_after uses no_streak).failures
        && ltb (secs_between (streak_after uses no_streak).last 20000000000) 30)
allow_execution-blocks_example = allow_execution-blocks uses 20000000000 (omega arith) (
  omega arith,
  (omega arith, (omega arith, (omega arith, (omega arith, (omega arith, omega arith))))),
)

abbrev mixed : List (String × Use)
mixed = ("bash", fails 1) ∷ ("read", succeeds) ∷ ("bash", fails 2) ∷ []

use_tools-alone_example :
    breaker_of (use_tools [] mixed) "bash" ≡ use_all (uses_of "bash" mixed) (breaker_of [] "bash")
use_tools-alone_example = use_tools-alone [] mixed "bash"

abbrev call : String → ToolCallRecord
call tool = record { tool = tool; args_hash = "h" }

third_call_warns_example :
    is_some
      (record_call
        (call "read")
        (record_call (call "read") (record_call (call "read") new_detector).0).0).1
    ≡ true
third_call_warns_example = third_call_warns (call "read") new_detector (omega arith)

-- `read` twice before
abbrev twice : List ToolCallRecord
twice = call "read" ∷ call "read" ∷ []
