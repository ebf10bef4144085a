-- ===== src/Hooks/Parser/Role.antt =====
-- Role definitions (di-core/src/hooks/parser/parser.rs).
use di_rac.Prelude.{
  ℕ, zero, suc, ◌-◌, ◌^◌, ℤ, pos, negsuc, List, [], ◌∷◌, ◌++◌, Option, none, some, String, concat,
  codes, text_of, decimal_int, if◌then◌else◌,
}
use di_rac.Hooks.Ast.{RoleBudget, RoleDef}
use di_rac.Hooks.External.{External}
use di_rac.Hooks.Lexer.Next.{CharClasses}
use di_rac.Hooks.Lexer.Token.{
  Chars, TokenKind, def_, ident, string, int, l_paren, r_paren, l_brace, r_brace, comma, colon, dot,
  eq, indent, dedent, eof, chars_eq,
}
use di_rac.Hooks.Parser.Items.{is_word}
use di_rac.Hooks.Parser.State.{
  parsed, out_of_fuel, M, ◌>>=◌, ◌>>◌, ret, same_kind, is_ident, fail, advance, expect, take_string,
  skip_newlines,
}

-- `*n as u64`
abbrev pub as_u64 : ℤ → ℕ
as_u64 (pos n) = n
as_u64 (negsuc n) = 2 ^ 64 - suc n

-- the variables of the loop over a role's body
pub record RoleBody (x : External) : Type 0 where
  pub system_prompt : Option String
  pub inputs : List String
  pub output_schema : Option x.Json
  pub budget : Option RoleBudget

module _ (u : CharClasses) where
  -- a string, where one stands
  abbrev pub optional_string : M (Option String)
  optional_string p = elim p.current.kind [
    | string s ↦ (advance u >> ret (some (text_of s))) p
    | _ ↦ parsed none p
  ]

  abbrev pub optional_ident : M (List String)
  optional_ident p = elim p.current.kind [
    | ident s ↦ (advance u >> ret (text_of s ∷ [])) p
    | _ ↦ parsed [] p
  ]

  -- the number after a key, or what stood before
  abbrev pub number_or : ℕ → M ℕ
  number_or old p = elim p.current.kind [
    | int v ↦ (advance u >> ret (as_u64 v)) p
    | _ ↦ parsed old p
  ]

  abbrev pub kind_or : String → Option String → String
  kind_or old none = old
  kind_or old (some s) = s

  -- one round of the loop below, where `go` are the others
  abbrev pub role_arg : External → TokenKind → String → (String → M String) → M String
  role_arg x r_paren kind go = advance u >> ret kind
  role_arg x (ident k) kind go =
      if is_word k "kind"
      then (do advance u; expect u x eq; s ← optional_string; go (kind_or kind s))
      else (advance u >> go kind)
  role_arg x k kind go = advance u >> go kind

  -- The loop of `parse_role_def` over the arguments, which skips what it does not know.
  unfoldable pub role_args : External → ℕ → String → M String
  unfolding advance expect chars_eq
  role_args x zero kind p = out_of_fuel
  role_args x (suc rounds) kind p = role_arg x p.current.kind kind (role_args x rounds) p

  -- the loop over the arguments of an input
  unfoldable pub skip_to_paren : ℕ → M (Unit {0})
  unfolding advance
  skip_to_paren zero p = out_of_fuel
  skip_to_paren (suc rounds) p =
      let over = advance u p in
      let more = (advance u >> skip_to_paren rounds) p in
      if same_kind p.current.kind r_paren then over else more

  -- The loop of `read_dict_as_json`, at a depth below which it ends; the texts are what it pushes.
  unfoldable pub json_parts : ℕ → ℕ → List String → M (List String)
  unfolding advance
  json_parts zero depth out p = out_of_fuel
  json_parts (suc rounds) zero out p = parsed out p
  json_parts (suc rounds) (suc depth) out p =
      let push = λ (s : String). (advance u >> json_parts rounds (suc depth) (out ++ s ∷ [])) p in
      elim p.current.kind [
        | l_brace ↦ (advance u >> json_parts rounds (suc (suc depth)) (out ++ "{" ∷ [])) p
        | r_brace ↦ (advance u >> json_parts rounds depth (out ++ "}" ∷ [])) p
        | string s ↦ push (concat ("\"" ∷ text_of s ∷ "\"" ∷ []))
        | ident s ↦ push (text_of s)
        | int v ↦ push (decimal_int v)
        | colon ↦ push ":"
        | comma ↦ push ","
        | eof ↦ parsed out p
        | _ ↦ (advance u >> json_parts rounds (suc depth) out) p
      ]

  unfoldable pub read_dict_as_json : ℕ → M String
  unfolding advance json_parts
  read_dict_as_json n = do advance u; parts ← json_parts n 1 ("{" ∷ []); ret (concat parts)

  module _ (x : External) where
    -- the loop over the arguments of `budget`
    unfoldable pub budget_args : ℕ → ℕ → ℕ → M RoleBudget
    unfolding advance expect chars_eq
    budget_args zero max_tokens max_runs p = out_of_fuel
    budget_args (suc rounds) max_tokens max_runs p =
        let found : RoleBudget = record { max_tokens = max_tokens; max_runs = max_runs } in
        let last = (advance u >> ret found) p in
        elim p.current.kind [
          | ident k ↦
              let tokens =
                (do
                  advance u
                  expect u x eq
                  v ← number_or max_tokens
                  budget_args rounds v max_runs)
                  p in
              let runs =
                (do
                  advance u
                  expect u x eq
                  v ← number_or max_runs
                  budget_args rounds max_tokens v)
                  p in
              if is_word k "max_tokens" then tokens else if is_word k "max_runs" then runs else last
          | comma ↦ (advance u >> budget_args rounds max_tokens max_runs) p
          | _ ↦ last
        ]

    module _ (n : ℕ) where
      abbrev system_stmt : RoleBody x → M (RoleBody x)
      system_stmt body = do
        advance u
        expect u x l_paren
        s ← optional_string
        expect u x r_paren
        skip_newlines u n
        ret (record body { system_prompt = elim s [ none ↦ body.system_prompt | some t ↦ some t ] })

      abbrev input_stmt : RoleBody x → M (RoleBody x)
      input_stmt body = do
        advance u
        expect u x dot
        method ← optional_ident
        expect u x l_paren
        skip_to_paren n
        skip_newlines u n
        ret (record body { inputs = body.inputs ++ method })

      -- the schema that is written in braces, if it is JSON
      abbrev schema_or : Option x.Json → M (Option x.Json)
      schema_or old p =
          if same_kind p.current.kind l_brace
          then (do
            json ← read_dict_as_json n
            ret (elim (x.json_from_str json) [ none ↦ old | some v ↦ some v ]))
              p
          else parsed old p

      abbrev output_stmt : RoleBody x → M (RoleBody x)
      output_stmt body = do
        advance u
        expect u x dot
        expect u x (ident (codes "schema"))
        expect u x l_paren
        schema ← schema_or body.output_schema
        expect u x r_paren
        skip_newlines u n
        ret (record body { output_schema = schema })

      abbrev budget_stmt : RoleBody x → M (RoleBody x)
      budget_stmt body = do
        advance u
        expect u x l_paren
        found ← budget_args n 0 1
        skip_newlines u n
        ret (record body { budget = some found })

      abbrev unexpected : String → String
      unexpected name = concat (
          "Unexpected statement in role '" ∷ name
          ∷ "'. Expected system(), input.method(), output.schema(), or budget()." ∷ [])

      abbrev role_stmt : String → RoleBody x → Chars → M (RoleBody x)
      role_stmt name body word =
          if is_word word "system"
          then system_stmt body
          else if is_word word "input"
          then input_stmt body
          else if is_word word "output"
          then output_stmt body
          else if is_word word "budget"
          then budget_stmt body
          else fail (unexpected name)

      -- the loop over a role's body
      unfoldable pub role_body : String → ℕ → RoleBody x → M (RoleBody x)
      unfolding advance expect skip_newlines skip_to_paren read_dict_as_json budget_args chars_eq
      role_body name zero body p = out_of_fuel
      role_body name (suc rounds) body p = elim p.current.kind [
        | dedent ↦ parsed body p
        | ident word ↦ (role_stmt name body word >>= role_body name rounds) p
        | _ ↦ fail (unexpected name) p
      ]

      abbrev skip_ident : M (Unit {0})
      skip_ident p = if is_ident p.current.kind then advance u p else parsed tt p

      unfoldable pub parse_role_def : M (RoleDef x)
      unfolding advance expect skip_newlines role_args role_body
      parse_role_def p =
          (do
            advance u
            expect u x l_paren
            name ← take_string u "Expected role name string"
            kind ← role_args x n ""
            skip_newlines u n
            expect u x def_
            skip_ident
            expect u x l_paren
            expect u x r_paren
            expect u x colon
            skip_newlines u n
            expect u x indent
            body ←
                role_body (text_of name) n (record {
                  system_prompt = none;
                  inputs = [];
                  output_schema = none;
                  budget = none;
                })
            expect u x dedent
            skip_newlines u n
            ret (record {
              name = text_of name;
              kind = kind;
              system_prompt = body.system_prompt;
              inputs = body.inputs;
              output_schema = body.output_schema;
              budget = body.budget;
              span = p.current.span;
            }))
            p
