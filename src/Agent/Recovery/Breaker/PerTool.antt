-- ===== src/Agent/Recovery/Breaker/PerTool.antt =====
-- The breakers of different tools (di-core/src/agent/recovery.rs) do not influence each other.
use di_rac.Prelude.{
  String, List, [], ◌∷◌, ◌≡◌, refl, ap, ◌∙◌, str_eq, Dict, if◌then◌else◌, Bool-cases, inl, inr,
  lookup-insert, eq_iff,
}
use di_rac.Agent.Recovery.Breaker.{
  CircuitBreaker, Use, use_breaker, use_all, breaker_of, use_tool, use_tools,
}

-- the uses of one tool
abbrev pub uses_of : String → List (String × Use) → List Use
uses_of tool [] = []
uses_of tool ((t, u) ∷ cs) = let rest = uses_of tool cs in if str_eq t tool then u ∷ rest else rest

breaker_of-use_tool :
    (breakers : Dict CircuitBreaker) (t tool : String) (u : Use)
    → breaker_of (use_tool breakers (t, u)) tool
      ≡ (if str_eq t tool then use_breaker u (breaker_of breakers t) else breaker_of breakers tool)
unfolding use_tool
breaker_of-use_tool breakers t tool u = elim (Bool-cases (str_eq t tool)) [
  | inl same ↦ rw (lookup-insert t tool (use_breaker u (breaker_of breakers t)) breakers, same) refl
  | inr other ↦
      rw (lookup-insert t tool (use_breaker u (breaker_of breakers t)) breakers, other) refl
]

-- Whatever the calls, a tool's breaker is in the state that the calls of that tool alone lead to.
pub use_tools-alone :
    (breakers : Dict CircuitBreaker) (cs : List (String × Use)) (tool : String)
    → breaker_of (use_tools breakers cs) tool ≡ use_all (uses_of tool cs) (breaker_of breakers tool)
unfolding use_tools use_all
use_tools-alone breakers [] tool = refl
use_tools-alone breakers ((t, u) ∷ cs) tool = elim (Bool-cases (str_eq t tool)) [
  | inl same ↦ rw same (
      use_tools-alone (use_tool breakers (t, u)) cs tool
      ∙ ap (use_all (uses_of tool cs)) (
          breaker_of-use_tool breakers t tool u
          ∙ rw same (ap (λ n. use_breaker u (breaker_of breakers n)) ((eq_iff t tool).0 same))))
  | inr other ↦ rw other (
      use_tools-alone (use_tool breakers (t, u)) cs tool
      ∙ ap (use_all (uses_of tool cs)) (breaker_of-use_tool breakers t tool u ∙ rw other refl))
]
