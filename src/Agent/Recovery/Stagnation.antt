-- ===== src/Agent/Recovery/Stagnation.antt =====
-- `StagnationDetector` of di-core/src/agent/recovery.rs.
pub mod Loops
pub mod Counting
use di_rac.Prelude.{
  ℕ, suc, String, Bool, true, false, not, ◌&&◌, List, [], ◌∷◌, Option, none, some, str_eq, ltb, leb,
  length, take, concat, join, map, decimal, or_else, ◌==◌, if◌then◌else◌,
}

pub record ToolCallRecord : Type 0 where
  pub tool : String
  pub args_hash : String

-- The history is kept with the newest call first; the source pushes at the end.
pub record StagnationDetector : Type 0 where
  pub history : List ToolCallRecord
  pub max_history : ℕ
  pub warning_count : ℕ

-- `StagnationDetector::new`
abbrev pub new_detector : StagnationDetector
new_detector = record { history = []; max_history = 20; warning_count = 0 }

-- `x.tool == y.tool && x.args_hash == y.args_hash`
abbrev pub same_call : ToolCallRecord → ToolCallRecord → Bool
same_call x y = str_eq x.tool y.tool && str_eq x.args_hash y.args_hash

-- `history.remove(0)`, of a history that is not empty
abbrev pub drop_oldest : List ToolCallRecord → List ToolCallRecord
drop_oldest [] = []
drop_oldest (r ∷ []) = []
drop_oldest (r ∷ s ∷ rs) = r ∷ drop_oldest (s ∷ rs)

-- the history after the push
unfoldable pub remember_call : ToolCallRecord → StagnationDetector → List ToolCallRecord
remember_call r d =
    let longer = r ∷ d.history in
    if ltb d.max_history (length longer) then drop_oldest longer else longer

abbrev pub count_same : ToolCallRecord → List ToolCallRecord → ℕ
count_same r [] = 0
count_same r (s ∷ rs) = let n = count_same r rs in if same_call s r then suc n else n

abbrev pub repeated : ToolCallRecord → ℕ → Option String
repeated r count =
    if leb 3 count
    then some (
        concat
          ("Repeated identical call to " ∷ r.tool ∷ " (" ∷ decimal count ∷ "x). Loop broken." ∷ []))
    else none

unfoldable pub alternating : List ToolCallRecord → Option String
alternating (a ∷ b ∷ c ∷ d ∷ _) =
    if same_call a c && (same_call b d && not (str_eq a.tool b.tool))
    then some (
        concat (
          "Alternating loop detected between " ∷ a.tool ∷ " and " ∷ b.tool ∷ ". Strategy thrashing."
          ∷ []))
    else none
alternating _ = none

unfoldable pub circular : List ToolCallRecord → Option String
circular (a ∷ b ∷ c ∷ x ∷ y ∷ z ∷ _) =
    if same_call a x && (same_call b y && same_call c z)
    then some (
        concat (
          "Circular strategy loop detected ("
          ∷ join " -> " (a.tool ∷ b.tool ∷ c.tool ∷ [])
          ∷ "). Consider a different approach."
          ∷ []))
    else none
circular _ = none

-- The first loop that is found, of at least three calls.
unfoldable pub find_loop : List ToolCallRecord → Option String
unfolding alternating circular
find_loop [] = none
find_loop (r ∷ rs) =
    if ltb (length (r ∷ rs)) 3
    then none
    else or_else (repeated r (count_same r (take 6 (r ∷ rs))))
        (or_else (alternating (r ∷ rs)) (circular (r ∷ rs)))

unfoldable pub graduate_warning : ℕ → String → String
graduate_warning warning_count base =
    if warning_count == 1
    then base
    else if warning_count == 2
    then concat (
        base ∷ ". This is the second warning. Re-read relevant files and reconsider your strategy."
        ∷ [])
    else concat (
        base
        ∷ ". CRITICAL: Repeated stagnation ("
        ∷ decimal warning_count
        ∷ " warnings). Stop retrying the same approach. Use a fundamentally different strategy or ask the user for guidance."
        ∷ [])

-- what is answered where a loop is found, or none
abbrev pub answered : StagnationDetector → Option String → StagnationDetector × Option String
answered d none = (d, none)
answered d (some base) =
    let count = suc d.warning_count in
    (record d { warning_count = count }, some (graduate_warning count base))

-- `record`
unfoldable pub record_call :
    ToolCallRecord → StagnationDetector → StagnationDetector × Option String
record_call r d =
    let history = remember_call r d in answered (record d { history = history }) (find_loop history)
