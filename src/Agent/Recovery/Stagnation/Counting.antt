-- ===== src/Agent/Recovery/Stagnation/Counting.antt =====
-- What a detector keeps and counts over a sequence of calls (di-core/src/agent/recovery.rs).
use di_rac.Prelude.{
  ℕ, suc, ◌+◌, ◌≤◌, String, List, [], ◌∷◌, Option, none, some, ◌≡◌, ◌∙◌, refl, arith, length,
}
use di_rac.Agent.Recovery.Stagnation.{
  ToolCallRecord, StagnationDetector, new_detector, drop_oldest, remember_call, find_loop, answered,
  record_call,
}

-- the detector after the calls, and the answers
unfoldable pub record_calls :
    List ToolCallRecord → StagnationDetector → StagnationDetector × List (Option String)
record_calls [] d = (d, [])
record_calls (r ∷ rs) d =
    let (next, answer) = record_call r d in
    let (end, answers) = record_calls rs next in (end, answer ∷ answers)

abbrev pub warnings : List (Option String) → ℕ
warnings [] = 0
warnings (none ∷ os) = warnings os
warnings (some w ∷ os) = suc (warnings os)

warnings-cons :
    (o : Option String) (os : List (Option String))
    → warnings (o ∷ os) ≡ warnings (o ∷ []) + warnings os
warnings-cons none os = omega arith
warnings-cons (some w) os = omega arith

length-drop_oldest :
    (r : ToolCallRecord) (rs : List ToolCallRecord) → length (drop_oldest (r ∷ rs)) ≡ length rs
length-drop_oldest r [] = refl
length-drop_oldest r (s ∷ rs) = omega (arith, length-drop_oldest s rs)

length-remember_call :
    (r : ToolCallRecord) (d : StagnationDetector)
    → length d.history ≤ d.max_history
    → length (remember_call r d) ≤ d.max_history
unfolding remember_call
length-remember_call r d h = ground (arith, length-drop_oldest r d.history)

answered-counts :
    (d : StagnationDetector) (o : Option String)
    → ((answered d o).0.history ≡ d.history)
      × ((answered d o).0.max_history ≡ d.max_history)
      × ((answered d o).0.warning_count ≡ d.warning_count + warnings ((answered d o).1 ∷ []))
answered-counts d none = (refl, refl, omega arith)
answered-counts d (some base) = (refl, refl, omega arith)

abbrev Counted : StagnationDetector → StagnationDetector → ℕ → Type 0
Counted before after n =
    (length after.history ≤ after.max_history)
    × (after.max_history ≡ before.max_history)
    × (after.warning_count ≡ before.warning_count + n)

record_call-Counted :
    (r : ToolCallRecord) (d : StagnationDetector)
    → length d.history ≤ d.max_history
    → Counted d (record_call r d).0 (warnings ((record_call r d).1 ∷ []))
unfolding record_call
record_call-Counted r d h =
    let kept = record d { history = remember_call r d } in
    let (history, limit, count) = answered-counts kept (find_loop (remember_call r d)) in
    (rw (history, limit) (length-remember_call r d h), limit, count)

record_calls-Counted :
    (rs : List ToolCallRecord) (d : StagnationDetector)
    → length d.history ≤ d.max_history
    → Counted d (record_calls rs d).0 (warnings (record_calls rs d).1)
unfolding record_calls
record_calls-Counted [] d h = (h, refl, omega arith)
record_calls-Counted (r ∷ rs) d h =
    let (fits, limit, count) = record_call-Counted r d h in
    let (end_fits, end_limit, end_count) = record_calls-Counted rs (record_call r d).0 fits in
    (
      end_fits,
      end_limit ∙ limit,
      omega (
        arith,
        count,
        end_count,
        warnings-cons (record_call r d).1 (record_calls rs (record_call r d).0).1,
      ),
    )

-- From a new detector, whatever the calls, at most the last 20 are kept, and the warning count is
-- the number of calls that were answered with a warning.
pub record_calls-counts :
    (rs : List ToolCallRecord)
    → let (end, answers) = record_calls rs new_detector in
      (length end.history ≤ 20) × (end.warning_count ≡ warnings answers)
record_calls-counts rs =
    let (fits, limit, count) = record_calls-Counted rs new_detector (omega arith) in
    (omega (arith, fits, limit), omega (arith, count))
