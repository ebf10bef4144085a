-- ===== src/Hooks/Compile/Names.antt =====
-- Groups and roles are kept, and no two groups or roles have one name (di-core/src/hooks/compiler.rs).
use di_rac.Prelude.{
  String, Bool, true, false, ◌||◌, ◌≢◌, List, [], ◌∷◌, ◌++◌, none, some, inl, inr, ◌≡◌, refl, subst,
  arith, map, All, Bool-cases, contains, is_some, eq_iff, str_eq,
}
use di_rac.Hooks.Ast
use di_rac.Hooks.Ast.{LetConstructor}
use di_rac.Hooks.Compile.Copies.{Pairwise, IsGroupOf, IsRoleOf, compile_patterns_all}
use di_rac.Hooks.Compile.Module.{Origin, budget_error, compile_groups, compile_roles}
use di_rac.Hooks.External.{External}

pub append-eq-nil {ℓ} : {A : Type ℓ} (xs ys : List A) → xs ++ ys ≡ [] → (xs ≡ []) × (ys ≡ [])
append-eq-nil [] ys e = (refl, e)
append-eq-nil (x ∷ xs) ys e = cc

-- The errors of the five loops, behind those of the imports, are nothing.
pub split_errors {ℓ} :
    {A : Type ℓ} (i a b c d e : List A)
    → i ++ (a ++ (b ++ (c ++ (d ++ e)))) ≡ []
    → (a ≡ []) × (b ≡ []) × (c ≡ []) × (d ≡ []) × (e ≡ [])
split_errors i a b c d e h =
    let p = append-eq-nil i (a ++ (b ++ (c ++ (d ++ e)))) h in
    let q = append-eq-nil a (b ++ (c ++ (d ++ e))) p.1 in
    let r = append-eq-nil b (c ++ (d ++ e)) q.1 in
    let s = append-eq-nil c (d ++ e) r.1 in
    let t = append-eq-nil d e s.1 in (q.0, r.0, s.0, t.0, t.1)

pub cons-ne-nil {ℓ} : {A : Type ℓ} (x : A) (xs : List A) → x ∷ xs ≢ []
cons-ne-nil x xs e = cc

pub none-ne-some {ℓ} : {A : Type ℓ} {a : A} → none ≢ some a
none-ne-some e = cc

pub or_true : (b : Bool) → (b || true) ≡ true
or_true true = refl
or_true false = refl

-- The names are distinct and not among `seen`; with them, `later` have been seen.
abbrev pub IsFresh : List String → List String → List String → Type 0
IsFresh seen [] later = later ≡ seen
IsFresh seen (n ∷ ns) later = (contains n seen ≡ false) × IsFresh (n ∷ seen) ns later

pub IsFresh-append :
    (seen middle later : List String) (xs ys : List String)
    → IsFresh seen xs middle
    → IsFresh middle ys later
    → IsFresh seen (xs ++ ys) later
IsFresh-append seen middle later [] ys e h = subst (λ s. IsFresh s ys later) e h
IsFresh-append seen middle later (x ∷ xs) ys h k =
    (h.0, IsFresh-append (x ∷ seen) middle later xs ys h.1 k)

-- no name twice
abbrev pub Distinct : List String → Type 0
Distinct [] = Unit
Distinct (n ∷ ns) = (contains n ns ≡ false) × Distinct ns

pub IsFresh-not_seen :
    (s : String) (seen ns later : List String)
    → contains s seen ≡ true
    → IsFresh seen ns later
    → contains s ns ≡ false
IsFresh-not_seen s seen [] later h f = refl
IsFresh-not_seen s seen (n ∷ ns) later h f = ground (
  arith,
  IsFresh-not_seen s (n ∷ seen) ns later (rw h (or_true (str_eq n s))) f.1,
  eq_iff n s,
  f.0,
)

pub IsFresh-Distinct : (seen ns later : List String) → IsFresh seen ns later → Distinct ns
IsFresh-Distinct seen [] later f = tt
IsFresh-Distinct seen (n ∷ ns) later f = (
  IsFresh-not_seen n (n ∷ seen) ns later (rw ((eq_iff n n).1 refl)) f.1,
  IsFresh-Distinct (n ∷ seen) ns later f.1,
)

module _ (x : External) (o : Origin) where
  pub compile_groups-IsFresh :
      (seen : List String) (gs : List Ast.PathGroup)
      → let r = compile_groups x o seen gs in IsFresh seen (map (λ g. g.name) r.0) r.1
  unfolding compile_groups
  compile_groups-IsFresh seen [] = refl
  compile_groups-IsFresh seen (g ∷ gs) = elim (Bool-cases (contains g.name seen)) [
    | inl again ↦ rw again (compile_groups-IsFresh seen gs)
    | inr new ↦ rw new (new, compile_groups-IsFresh (g.name ∷ seen) gs)
  ]

  pub compile_groups_keep :
      (seen : List String) (gs : List Ast.PathGroup)
      → (compile_groups x o seen gs).2 ≡ []
      → Pairwise (IsGroupOf x) gs (compile_groups x o seen gs).0
  unfolding compile_groups
  compile_groups_keep seen [] e = tt
  compile_groups_keep seen (g ∷ gs) e = elim (Bool-cases (contains g.name seen)) [
    | inl again ↦ absurd (cons-ne-nil _ _ (rw again at e))
    | inr new ↦
        let (none_bad, none_later) = append-eq-nil _ _ (rw new at e) in
        rw new (
          (refl, compile_patterns_all x o g.name g.patterns none_bad),
          compile_groups_keep (g.name ∷ seen) gs none_later,
        )
  ]

  pub compile_roles-IsFresh :
      (seen : List String) (rs : List (Ast.RoleDef x))
      → let r = compile_roles x o seen rs in IsFresh seen (map (λ g. g.name) r.0) r.1
  unfolding compile_roles
  compile_roles-IsFresh seen [] = refl
  compile_roles-IsFresh seen (g ∷ gs) = elim (Bool-cases (contains g.name seen)) [
    | inl again ↦ rw again (compile_roles-IsFresh seen gs)
    | inr new ↦ rw new (new, compile_roles-IsFresh (g.name ∷ seen) gs)
  ]

  has_budget : (r : Ast.RoleDef x) → budget_error x o r ≡ [] → is_some r.budget ≡ true
  has_budget r e = elim (Bool-cases (is_some r.budget)) [
    | inl some_budget ↦ some_budget
    | inr no_budget ↦ absurd (cons-ne-nil _ _ (rw no_budget at e))
  ]

  -- without an error, every role is kept, and has a budget
  pub compile_roles_keep :
      (seen : List String) (rs : List (Ast.RoleDef x))
      → (compile_roles x o seen rs).2 ≡ []
      → Pairwise (IsRoleOf x) rs (compile_roles x o seen rs).0
        × All (λ r. is_some r.budget ≡ true) (compile_roles x o seen rs).0
  unfolding compile_roles
  compile_roles_keep seen [] e = (tt, tt)
  compile_roles_keep seen (r ∷ rs) e = elim (Bool-cases (contains r.name seen)) [
    | inl again ↦ absurd (cons-ne-nil _ _ (rw again at e))
    | inr new ↦
        let (none_bad, none_later) = append-eq-nil _ _ (rw new at e) in
        let (roles, budgets) = compile_roles_keep (r.name ∷ seen) rs none_later in
        rw new (((refl, refl, refl, refl, refl, refl), roles), (has_budget r none_bad, budgets))
  ]
