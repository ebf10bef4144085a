-- ===== src/Context/Lifecycle/Pressure.antt =====
-- When a context is compacted (di-core/src/context/lifecycle.rs): neither late nor early.
use di_rac.Prelude.{ℕ, suc, ◌+◌, ◌-◌, ◌≤◌, Bool, true, List, [], ◌∷◌, ◌≡◌, refl, arith, All}
use di_rac.Context.Metrics.{Floats}
use di_rac.Context.Lifecycle.{
  LifecycleState, normal, growing, near_limit, compaction_due, post_compaction, hibernating,
  ContextLifecycleManager, new_lifecycle, LifecycleCall, turn, evaluation, completion, next_state,
  evaluate_state, usage_ratio, on_call, run_calls, should_compact, is_due,
}

-- the evaluations under pressure that lead to a compaction
abbrev distance : LifecycleState → ℕ
distance compaction_due = 0
distance near_limit = 1
distance growing = 2
distance normal = 3
distance post_compaction = 4
distance hibernating = 4

at_most_four : (st : LifecycleState) → distance st ≤ 4
at_most_four st = grind arith

due_where_near : (st : LifecycleState) → distance st ≡ 0 → is_due st ≡ true
due_where_near st h = grind (arith, h)

near_where_due : (st : LifecycleState) → is_due st ≡ true → distance st ≡ 0
near_where_due st h = grind (arith, h)

abbrev pub IsAwake : LifecycleState → Type 0
IsAwake hibernating = ⊥
IsAwake _ = Unit

abbrev pub evaluations : List LifecycleCall → ℕ
evaluations [] = 0
evaluations (turn t ∷ cs) = evaluations cs
evaluations (evaluation current_tokens token_limit ∷ cs) = suc (evaluations cs)
evaluations (completion ∷ cs) = evaluations cs

module _ (f : Floats) where
  open f use {F64, above}

  -- above 85 percent of the limit, which is above 75 and 50 percent
  abbrev pub IsFull : F64 → Type 0
  IsFull usage = (above usage 85 ≡ true) × (above usage 75 ≡ true) × (above usage 50 ≡ true)

  -- a turn, or an evaluation where the context is full
  abbrev pub IsPressed : LifecycleCall → Type 0
  IsPressed (turn t) = Unit
  IsPressed (evaluation current_tokens token_limit) =
      IsFull (usage_ratio f current_tokens token_limit)
  IsPressed completion = ⊥

  closer :
      (usage : F64) (s h : Bool) (st : LifecycleState)
      → IsFull usage
      → IsAwake st
      → (distance (next_state f usage s h st) ≡ distance st - 1)
        × IsAwake (next_state f usage s h st)
  unfolding next_state
  closer usage s h normal (a, b, c) w = rw c (refl, tt)
  closer usage s h growing (a, b, c) w = rw b (refl, tt)
  closer usage s h near_limit (a, b, c) w = rw a (refl, tt)
  closer usage s h compaction_due full w = (refl, tt)
  closer usage s h post_compaction full w = (refl, tt)
  closer usage s h hibernating full w = elim w [ ]

  no_jump :
      (usage : F64) (s h : Bool) (st : LifecycleState)
      → distance st ≤ suc (distance (next_state f usage s h st))
  unfolding next_state
  no_jump usage s h normal = ground arith
  no_jump usage s h growing = ground arith
  no_jump usage s h near_limit = ground arith
  no_jump usage s h compaction_due = omega arith
  no_jump usage s h post_compaction = omega arith
  no_jump usage s h hibernating = omega arith

  run_calls-distance :
      (calls : List LifecycleCall) (m : ContextLifecycleManager)
      → All IsPressed calls
      → IsAwake m.state
      → (distance (run_calls f calls m).state ≡ distance m.state - evaluations calls)
        × IsAwake (run_calls f calls m).state
  unfolding run_calls on_call evaluate_state
  run_calls-distance [] m h w = (omega arith, w)
  run_calls-distance (turn t ∷ cs) m (p, h) w = run_calls-distance cs (on_call f (turn t) m) h w
  run_calls-distance (evaluation c l ∷ cs) m (p, h) w =
      let (near, awake) = closer (usage_ratio f c l) _ _ m.state p w in
      let (d, awake') = run_calls-distance cs (on_call f (evaluation c l) m) h awake in
      (omega (arith, near, d), awake')
  run_calls-distance (completion ∷ cs) m (p, h) w = elim p [ ]

  no_shortcut :
      (calls : List LifecycleCall) (m : ContextLifecycleManager)
      → distance m.state ≤ distance (run_calls f calls m).state + evaluations calls
  unfolding run_calls on_call evaluate_state
  no_shortcut [] m = omega arith
  no_shortcut (turn t ∷ cs) m = no_shortcut cs (on_call f (turn t) m)
  no_shortcut (evaluation c l ∷ cs) m = omega (
    arith,
    no_jump (usage_ratio f c l) _ _ m.state,
    no_shortcut cs (on_call f (evaluation c l) m),
  )
  no_shortcut (completion ∷ cs) m =
      omega (arith, at_most_four m.state, no_shortcut cs (on_call f completion m))

-- Where a manager that does not hibernate is evaluated at least four times, each time with a context
-- above 85 percent of its limit (and so above 75 and 50 percent), with any turns in between and no
-- compaction, it asks for a compaction.
pub pressure_compacts :
    (f : Floats) (calls : List LifecycleCall) (m : ContextLifecycleManager)
    → All (IsPressed f) calls
    → IsAwake m.state
    → 4 ≤ evaluations calls
    → should_compact (run_calls f calls m) ≡ true
pressure_compacts f calls m h w many =
    due_where_near (run_calls f calls m).state
      (omega (arith, (run_calls-distance f calls m h w).0, at_most_four m.state, many))

-- A new manager asks for a compaction only after three evaluations, whatever the turns, the triggers,
-- and the compactions that it is told of.
pub no_early_compaction :
    (f : Floats) (calls : List LifecycleCall)
    → should_compact (run_calls f calls new_lifecycle) ≡ true
    → 3 ≤ evaluations calls
no_early_compaction f calls h = omega (
  arith,
  no_shortcut f calls new_lifecycle,
  near_where_due (run_calls f calls new_lifecycle).state h,
)
