-- ===== src/Hooks/Compile/WellFormed.antt =====
-- What a module that `compile_with_base` accepts is like (di-core/src/hooks/compiler.rs).
use mathlib.Core.List.{map-append}
use di_rac.Prelude.{
  String, Bool, true, false, List, [], ◌∷◌, ◌++◌, Option, none, some, inl, inr, ◌≡◌, refl, sym, ap,
  ◌∙◌, subst, arith, map, All, All-append, Bool-cases, contains, is_empty, is_some, Dict, insert,
  lookup, lookup-insert, eq_iff, str_eq, if◌then◌else◌,
}
use di_rac.Hooks.Ast
use di_rac.Hooks.Ast.{LetConstructor}
use di_rac.Hooks.Compile.Action.{Errors}
use di_rac.Hooks.Compile.Copies.{Pairwise, Pairwise-append, IsGroupOf, IsRoleOf, IsHandlerOf}
use di_rac.Hooks.Compile.Module.{
  is_known_event, let_map, imported, local, compile_groups, compile_roles, next_seen, add_handler,
  compile_handlers, Imports, compile_all, compile_with_base,
}
use di_rac.Hooks.External.{External}
use di_rac.Hooks.Compile.Block.{compile_block}
use di_rac.Hooks.Ir.{EventHandler, Rule, PathGroup, RoleDef, CompiledHookModule}
use di_rac.Hooks.Compile.Names.{
  append-eq-nil, split_errors, cons-ne-nil, none-ne-some, IsFresh-append, Distinct,
  IsFresh-Distinct, compile_groups-IsFresh, compile_groups_keep, compile_roles-IsFresh,
  compile_roles_keep,
}

-- The events of the handlers are known and distinct, and none has a handler in `seen`.
abbrev AreNew : Dict String → List EventHandler → Type 0
AreNew seen [] = Unit
AreNew seen (h ∷ hs) =
    (is_known_event h.event ≡ true)
    × (lookup h.event seen ≡ none)
    × AreNew (insert h.event h.name seen) hs

-- every handler is kept, with the rules of its body
abbrev Keeps :
    Dict LetConstructor → Dict String → List Ast.EventHandler → List EventHandler → Type 0
Keeps lets seen hs out = AreNew seen out × Pairwise (IsHandlerOf lets) hs out

add_handler-Keeps :
    (lets : Dict LetConstructor) (known : Bool) (previous : Option String) (h : Ast.EventHandler)
    (compiled : List Rule × Errors) (rest : List EventHandler × Errors) (seen : Dict String)
    (hs : List Ast.EventHandler)
    → is_known_event h.event ≡ known
    → lookup h.event seen ≡ previous
    → compile_block lets h.body ≡ compiled
    → (rest.1 ≡ [] → Keeps lets (next_seen known previous h seen) hs rest.0)
    → (add_handler known previous h compiled rest).1 ≡ []
    → Keeps lets seen (h ∷ hs) (add_handler known previous h compiled rest).0
add_handler-Keeps lets false previous h compiled rest seen hs k p c ih e =
    absurd (cons-ne-nil _ _ e)
add_handler-Keeps lets true (some other) h compiled rest seen hs k p c ih e =
    absurd (cons-ne-nil _ _ e)
add_handler-Keeps lets true none h compiled rest seen hs k p c ih e =
    let (none_bad, none_later) = append-eq-nil compiled.1 rest.1 e in
    let kept = ih none_later in
    ((k, p, kept.0), ((refl, refl, c ∙ ap (λ bad. (compiled.0, bad)) none_bad), kept.1))

compile_handlers_keep :
    (lets : Dict LetConstructor) (seen : Dict String) (hs : List Ast.EventHandler)
    → (compile_handlers lets seen hs).1 ≡ []
    → Keeps lets seen hs (compile_handlers lets seen hs).0
unfolding compile_handlers
compile_handlers_keep lets seen [] e = (tt, tt)
compile_handlers_keep lets seen (h ∷ hs) e =
    let known = is_known_event h.event in
    let previous = lookup h.event seen in
    add_handler-Keeps lets known previous h (compile_block lets h.body)
      (compile_handlers lets (next_seen known previous h seen) hs) seen hs refl refl refl
      (compile_handlers_keep lets (next_seen known previous h seen) hs) e

AreNew-not_seen :
    (e : String) (n : String) (seen : Dict String) (hs : List EventHandler)
    → lookup e seen ≡ some n
    → AreNew seen hs
    → contains e (map (λ h. h.event) hs) ≡ false
AreNew-not_seen e n seen [] h f = refl
AreNew-not_seen e n seen (g ∷ gs) h f = elim (Bool-cases (str_eq g.event e)) [
  | inl same ↦
      absurd (none-ne-some (sym (f.1) ∙ ap (λ k. lookup k seen) ((eq_iff g.event e).0 same) ∙ h))
  | inr other ↦ rw other (
      AreNew-not_seen e n (insert g.event g.name seen) gs
        (lookup-insert g.event e g.name seen ∙ rw other h) f.2)
]

AreNew-Distinct :
    (seen : Dict String) (hs : List EventHandler)
    → AreNew seen hs
    → Distinct (map (λ h. h.event) hs) × All (λ h. is_known_event h.event ≡ true) hs
AreNew-Distinct seen [] f = (tt, tt)
AreNew-Distinct seen (h ∷ hs) f =
    let (distinct, known) = AreNew-Distinct (insert h.event h.name seen) hs f.2 in
    let found = lookup-insert h.event h.event h.name seen ∙ rw ((eq_iff h.event h.event).1 refl) in
    (
      (AreNew-not_seen h.event h.name (insert h.event h.name seen) hs found f.2, distinct),
      (f.0, known),
    )

module _ (x : External) where
  -- The module `c` holds what the module `m` and its imports `i` define, and is consistent.
  pub record IsWellFormed (m : Ast.Module x) (i : Imports x) (c : CompiledHookModule x)
      : Type 0 where
    pub groups_kept : Pairwise (IsGroupOf x) (i.groups ++ m.groups) c.groups
    pub groups_distinct : Distinct (map (λ g. g.name) c.groups)
    pub roles_kept : Pairwise (IsRoleOf x) (i.roles ++ m.roles) c.roles
    pub roles_distinct : Distinct (map (λ r. r.name) c.roles)
    pub roles_budgeted : All (λ r. is_some r.budget ≡ true) c.roles
    pub handlers_kept : Pairwise (IsHandlerOf (let_map [] m.let_bindings)) m.handlers c.handlers
    pub events_distinct : Distinct (map (λ h. h.event) c.handlers)
    pub events_known : All (λ h. is_known_event h.event ≡ true) c.handlers

  compile_all-IsWellFormed :
      (m : Ast.Module x) (i : Imports x)
      → (compile_all x m i).1 ≡ []
      → IsWellFormed m i (compile_all x m i).0
  unfolding compile_all
  compile_all-IsWellFormed m i e =
      let g₁ = compile_groups x imported [] i.groups in
      let g₂ = compile_groups x local g₁.1 m.groups in
      let r₁ = compile_roles x imported [] i.roles in
      let r₂ = compile_roles x local r₁.1 m.roles in
      let h = compile_handlers (let_map [] m.let_bindings) [] m.handlers in
      let none_in = split_errors i.errors g₁.2 g₂.2 r₁.2 r₂.2 h.1 e in
      let ra = compile_roles_keep x imported [] i.roles none_in.2 in
      let rb = compile_roles_keep x local r₁.1 m.roles none_in.3 in
      let hs = compile_handlers_keep (let_map [] m.let_bindings) [] m.handlers none_in.4 in
      let known = AreNew-Distinct [] h.0 hs.0 in
      record {
        groups_kept =
            Pairwise-append (IsGroupOf x) i.groups m.groups g₁.0 g₂.0
              (compile_groups_keep x imported [] i.groups none_in.0)
              (compile_groups_keep x local g₁.1 m.groups none_in.1);
        groups_distinct = rw (map-append (λ (g : PathGroup x). g.name) g₁.0 g₂.0) (
            IsFresh-Distinct [] _ g₂.1 (
              IsFresh-append [] g₁.1 g₂.1 _ _ (compile_groups-IsFresh x imported [] i.groups)
                (compile_groups-IsFresh x local g₁.1 m.groups)));
        roles_kept = Pairwise-append (IsRoleOf x) i.roles m.roles r₁.0 r₂.0 ra.0 rb.0;
        roles_distinct = rw (map-append (λ (r : RoleDef x). r.name) r₁.0 r₂.0) (
            IsFresh-Distinct [] _ r₂.1 (
              IsFresh-append [] r₁.1 r₂.1 _ _ (compile_roles-IsFresh x imported [] i.roles)
                (compile_roles-IsFresh x local r₁.1 m.roles)));
        roles_budgeted = All-append _ r₁.0 r₂.0 ra.1 rb.1;
        handlers_kept = hs.1;
        events_distinct = known.0;
        events_known = known.1;
      }

  pub accepted :
      (r : CompiledHookModule x × Errors) (c : CompiledHookModule x)
      → (if is_empty r.1 then inl r.0 else inr r.1) ≡ inl c
      → (r.1 ≡ []) × (r.0 ≡ c)
  accepted (compiled, []) c e = (refl, ground arith)
  accepted (compiled, error ∷ errors) c e = cc

  -- A module that is accepted has every group, role and handler of the source and its imports, in
  -- their order: a group with its name and the glob of each of its patterns, a role with all that its
  -- source says, and a handler with its name, its event, and the rules that its body compiles to
  -- without an error. No two groups, no two roles and no two events are the same; every role has a
  -- budget, and every event is known.
  pub compile-IsWellFormed :
      (m : Ast.Module x) (i : Imports x) (c : CompiledHookModule x)
      → compile_with_base x m i ≡ inl c
      → IsWellFormed m i c
  compile-IsWellFormed m i c e =
      let (no_error, same) = accepted (compile_all x m i) c (unfold compile_with_base in e) in
      subst (IsWellFormed m i) same (compile_all-IsWellFormed m i no_error)
