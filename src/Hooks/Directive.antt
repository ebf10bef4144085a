-- ===== src/Hooks/Directive.antt =====
-- di-core/src/hooks/directive.rs: severities, directives, and their merging.
pub mod Merge
use di_rac.Prelude.{
  ℕ, ℤ, String, Bool, true, false, ◌&&◌, List, [], ◌∷◌, ◌++◌, Option, str_eq, ◌==◌, if◌then◌else◌,
  any, concat, join,
}

pub data Severity : Type 0 where
  low medium high critical : Severity

-- the order that `derive(Ord)` gives
abbrev pub rank : Severity → ℕ
rank low = 0
rank medium = 1
rank high = 2
rank critical = 3

pub data ObservationScope : Type 0 where
  diff full_context : ObservationScope

pub data FinishCondition : Type 0 where
  evidence_present : String → FinishCondition
  final_note_present : FinishCondition
  observer_cleared : String → FinishCondition

pub record DedupeKey : Type 0 where
  pub hook_id : String
  pub event : String
  pub kind : String
  pub scope_hash : ℕ

-- `derive(PartialEq)` of `DedupeKey`
unfoldable pub key_eq : DedupeKey → DedupeKey → Bool
key_eq a b =
    str_eq a.hook_id b.hook_id
    && str_eq a.event b.event
    && str_eq a.kind b.kind
    && a.scope_hash == b.scope_hash

pub data LoopDirective : Type 0 where
  add_hint add_criterion : String → LoopDirective
  warn approval_note : Severity → String → LoopDirective
  require_validation : List String → String → DedupeKey → LoopDirective
  trigger_observer : String → String → Severity → ObservationScope → DedupeKey → LoopDirective
  trigger_planner_review : String → DedupeKey → LoopDirective
  require_evidence require_final_note remember : String → LoopDirective
  audit : String → Severity → LoopDirective
  block_finish_until : FinishCondition → Bool → LoopDirective

abbrev warn_label : Severity → String
warn_label low = "info"
warn_label medium = "warn"
warn_label high = "high"
warn_label critical = "critical"

abbrev note_label : Severity → String
note_label low = "info"
note_label medium = "note"
note_label high = "high"
note_label critical = "critical"

-- `LoopDirective::describe`; `debug` prints a condition as `{:?}` does.
unfoldable pub describe : (FinishCondition → String) → LoopDirective → String
describe debug (add_hint text) = text
describe debug (add_criterion text) = concat ("Criterion: " ∷ text ∷ [])
describe debug (warn s message) = concat ("[" ∷ warn_label s ∷ "] " ∷ message ∷ [])
describe debug (approval_note s message) =
    concat ("[approval: " ∷ note_label s ∷ "] " ∷ message ∷ [])
describe debug (require_validation argv reason key) = concat ("Require: $ " ∷ join " " argv ∷ [])
describe debug (trigger_observer observer_id reason s scope key) =
    concat ("Trigger observer '" ∷ observer_id ∷ "': " ∷ reason ∷ [])
describe debug (trigger_planner_review reason key) = concat ("Planner review: " ∷ reason ∷ [])
describe debug (require_evidence name) = concat ("Evidence required: " ∷ name ∷ [])
describe debug (require_final_note text) = concat ("Final note required: " ∷ text ∷ [])
describe debug (remember fact) = concat ("Remember: " ∷ fact ∷ [])
describe debug (audit kind s) = concat ("[audit: " ∷ note_label s ∷ "] " ∷ kind ∷ [])
describe debug (block_finish_until condition waiver) = concat ("Gate: " ∷ debug condition ∷ [])

pub record ValidationRequest : Type 0 where
  pub argv : List String
  pub reason : String
  pub dedupe_key : DedupeKey
  pub completed : Bool

pub record ObserverTrigger : Type 0 where
  pub observer_id : String
  pub reason : String
  pub severity : Severity
  pub scope : ObservationScope
  pub dedupe_key : DedupeKey

pub record PlannerReview : Type 0 where
  pub reason : String
  pub dedupe_key : DedupeKey

pub record AuditEvent : Type 0 where
  pub kind : String
  pub severity : Severity
  pub timestamp : ℤ

pub record FinishGate : Type 0 where
  pub condition : FinishCondition
  pub waiver_allowed : Bool
  pub satisfied : Bool

pub record MergedDirectives : Type 0 where
  pub hints : List String
  pub criteria : List String
  pub warnings : List (Severity × String)
  pub approval_notes : List (Severity × String)
  pub validations : List ValidationRequest
  pub observer_triggers : List ObserverTrigger
  pub planner_reviews : List PlannerReview
  pub evidence_required : List String
  pub final_notes : List String
  pub remembered_facts : List String
  pub audit_events : List AuditEvent
  pub finish_gates : List FinishGate
  pub seen_keys : List DedupeKey

abbrev pub no_directives : MergedDirectives
no_directives = record {
  hints = [];
  criteria = [];
  warnings = [];
  approval_notes = [];
  validations = [];
  observer_triggers = [];
  planner_reviews = [];
  evidence_required = [];
  final_notes = [];
  remembered_facts = [];
  audit_events = [];
  finish_gates = [];
  seen_keys = [];
}

-- `HashSet<DedupeKey>::contains`
unfoldable pub seen : DedupeKey → List DedupeKey → Bool
unfolding key_eq
seen k = any (key_eq k)
