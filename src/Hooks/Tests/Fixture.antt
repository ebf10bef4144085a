-- ===== src/Hooks/Tests/Fixture.antt =====
-- A concrete outside world, events and modules (di-core/src/hooks).
use di_rac.Prelude.{ℕ, zero, suc, ℤ, pos, String, true, List, [], ◌∷◌, none, some, inl, str_eq}
use di_rac.Hooks.Directive.{
  DedupeKey, LoopDirective, warn, trigger_observer, high, critical, low, diff,
}
use di_rac.Hooks.Eval.Value.{EvalContext}
use di_rac.Hooks.External.{External}
use di_rac.Hooks.Ir
use di_rac.Hooks.Ir.{Rule, EventHandler, CompiledHookModule}

-- bytes `n`, one more than the next
abbrev bytes : ℕ → List ℕ
bytes zero = []
bytes (suc n) = n ∷ bytes n

-- JSON values are texts, the patterns literal, and the digest always the same.
abbrev pub plain : External
plain = record {
  Json = String;
  json_null = "null";
  json_get = λ j key. none;
  json_as_str = λ j. some j;
  json_is_null = λ j. str_eq j "null";
  json_to_string = λ j. j;
  json_from_str = λ j. some j;
  Pattern = String;
  new_pattern = λ s. inl s;
  matches = λ p s. str_eq p s;
  blake3 = λ s. bytes 32;
  debug_str = λ s. s;
}

abbrev pub clock : ℕ → ℤ
clock n = pos n

abbrev pub tool_event : EvalContext plain
tool_event = record {
  hook_id = "repo";
  event = "post_tool_use";
  changed_files = "src/a.rs" ∷ [];
  tool_name = some "edit";
  tool_success = some true;
  observer_id = none;
  observer_output = none;
}

abbrev pub key : String → DedupeKey
key kind = record { hook_id = "repo"; event = "pre_finish"; kind = kind; scope_hash = 7 }

abbrev pub trigger : LoopDirective
trigger = trigger_observer "reviewer" "changed" high diff (key "trigger_observer")

-- two warnings out of order around a trigger
abbrev pub batch : List LoopDirective
batch = warn critical "stop" ∷ trigger ∷ warn low "look" ∷ trigger ∷ []

-- `if changed_files: hint("check"), trigger_observer("reviewer")`, after a tool was used
abbrev pub small_module : CompiledHookModule plain
small_module = record {
  id = "repo";
  source_hash = "";
  groups = [];
  roles = [];
  handlers =
      (record {
        event = "post_tool_use";
        name = "after_tool";
        rules =
            (record {
              condition = some Ir.changed_files;
              actions = Ir.hint "check" ∷ Ir.trigger_observer "reviewer" "changed" high ∷ [];
            })
            ∷ [];
      })
      ∷ [];
}

-- 39 letters and a character of three bytes, which byte 40 is inside of
abbrev pub long_text : String
long_text = "aaaaaaaaaabbbbbbbbbbccccccccccddddddddd€"

abbrev pub long_hint : List EventHandler
long_hint =
    (record {
      event = "post_tool_use";
      name = "after_tool";
      rules = (record { condition = none; actions = Ir.hint long_text ∷ [] }) ∷ [];
    })
    ∷ []

abbrev pub long_module : CompiledHookModule plain
long_module = record small_module { handlers = long_hint }
