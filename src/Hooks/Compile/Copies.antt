-- ===== src/Hooks/Compile/Copies.antt =====
-- What a compiled group, role and handler has of its source (di-core/src/hooks/compiler.rs).
use di_rac.Prelude.{String, List, [], ◌∷◌, ◌++◌, inl, inr, ◌≡◌, refl, ap, map, ◌⊎◌, Dict}
use di_rac.Hooks.Ast
use di_rac.Hooks.Ast.{LetConstructor}
use di_rac.Hooks.Compile.Action.{Errors}
use di_rac.Hooks.Compile.Block.{compile_block}
use di_rac.Hooks.Compile.Module.{Origin, add_pattern, compile_patterns}
use di_rac.Hooks.External.{External}
use di_rac.Hooks.Ir.{EventHandler, PathGroup, RoleDef}

module _ {A B : Type 0} (R : A → B → Type 0) where
  -- as many of one as of the other, and each pair is related
  abbrev pub Pairwise : List A → List B → Type 0
  Pairwise [] [] = Unit
  Pairwise [] (y ∷ ys) = ⊥
  Pairwise (x ∷ xs) [] = ⊥
  Pairwise (x ∷ xs) (y ∷ ys) = R x y × Pairwise xs ys

  pub Pairwise-append :
      (xs xs' : List A) (ys ys' : List B)
      → Pairwise xs ys
      → Pairwise xs' ys'
      → Pairwise (xs ++ xs') (ys ++ ys')
  Pairwise-append [] xs' [] ys' h k = k
  Pairwise-append [] xs' (y ∷ ys) ys' h k = elim h [ ]
  Pairwise-append (x ∷ xs) xs' [] ys' h k = elim h [ ]
  Pairwise-append (x ∷ xs) xs' (y ∷ ys) ys' h k = (h.0, Pairwise-append xs xs' ys ys' h.1 k)

module _ (x : External) where
  -- The name is the same, and each pattern is the glob of its text.
  abbrev pub IsGroupOf : Ast.PathGroup → PathGroup x → Type 0
  IsGroupOf g c = (c.name ≡ g.name) × (map x.new_pattern g.patterns ≡ map inl c.patterns)

  -- Everything but the span is the same.
  abbrev pub IsRoleOf : Ast.RoleDef x → RoleDef x → Type 0
  IsRoleOf r c =
      (c.name ≡ r.name)
      × (c.kind ≡ r.kind)
      × (c.system_prompt ≡ r.system_prompt)
      × (c.inputs ≡ r.inputs)
      × (c.output_schema ≡ r.output_schema)
      × (c.budget ≡ r.budget)

  add_pattern_all :
      (o : Origin) (group p : String) (r : x.Pattern ⊎ String) (rest : List x.Pattern × Errors)
      (rs : List (x.Pattern ⊎ String))
      → (rest.1 ≡ [] → rs ≡ map inl rest.0)
      → (add_pattern x o group p r rest).1 ≡ []
      → r ∷ rs ≡ map inl (add_pattern x o group p r rest).0
  add_pattern_all o group p (inl pattern) rest rs ih e = ap (λ qs. inl pattern ∷ qs) (ih e)
  add_pattern_all o group p (inr message) rest rs ih e = cc

  pub compile_patterns_all :
      (o : Origin) (group : String) (ps : List String)
      → (compile_patterns x o group ps).1 ≡ []
      → map x.new_pattern ps ≡ map inl (compile_patterns x o group ps).0
  unfolding compile_patterns
  compile_patterns_all o group [] e = refl
  compile_patterns_all o group (p ∷ ps) e =
      add_pattern_all o group p (x.new_pattern p) (compile_patterns x o group ps)
        (map x.new_pattern ps) (compile_patterns_all o group ps) e

-- The name and the event are the same, and the rules are those of the body, without an error.
abbrev pub IsHandlerOf : Dict LetConstructor → Ast.EventHandler → EventHandler → Type 0
IsHandlerOf lets h c =
    (c.name ≡ h.name) × (c.event ≡ h.event) × (compile_block lets h.body ≡ (c.rules, []))
