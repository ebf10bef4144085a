-- ===== src/Hooks/Parser/Fields.antt =====
-- The steps by which the entries of a dict are read (di-core/src/hooks/parser/parser.rs).
use di_rac.Prelude.{
  ℕ, suc, String, true, false, [], ◌∷◌, ◌≡◌, refl, sym, ap, ◌∙◌, inl, inr, Bool-cases, text_of,
  subst, str_eq, eq_iff,
}
use di_rac.Hooks.Ast.{Expr, Entries, end, entry}
use di_rac.Hooks.External.{External}
use di_rac.Hooks.Lexer.Next.{CharClasses}
use di_rac.Hooks.Lexer.Token
use di_rac.Hooks.Lexer.Token.{Chars, TokenKind, r_brace, comma, colon}
use di_rac.Hooks.Parser.Expr.{parse_expr, parse_entries, entries_at, insert_entry}
use di_rac.Hooks.Parser.Levels.{Ends}
use di_rac.Hooks.Parser.Reads.{Reads, expect-Reads}
use di_rac.Hooks.Parser.State.{Parser, Result, parsed, advance}
use di_rac.Hooks.Parser.Steps.{comma-Ends}
use di_rac.Hooks.Parser.Syntax.{
  Fields, no_field, field, disjunction, written_other_fields, has_key, with_value, at_end,
  set_entry, tree_fields, bare, bare_entries,
}

-- a dict's result, up to spans
abbrev pub GivesEntries : Result Entries → Entries → Parser → Type 0
GivesEntries r meant q = (es : Entries) × (r ≡ parsed es q) × (bare_entries es ≡ meant)

set_entry_other :
    (k j : String) (v w : Expr) (es : Entries)
    → str_eq j k ≡ false
    → set_entry k v (entry j w es) ≡ entry j w (set_entry k v es)
unfolding has_key with_value at_end
set_entry_other k j v w es other = elim (Bool-cases (has_key k es)) [
  | inl there ↦ rw (other, there) refl
  | inr new ↦ rw (other, new) refl
]

set_entry_same :
    (k j : String) (v w : Expr) (es : Entries)
    → str_eq j k ≡ true
    → set_entry k v (entry j w es) ≡ entry k v es
unfolding has_key with_value
set_entry_same k j v w es same = rw same (ap (λ (i : String). entry i v es) ((eq_iff j k).0 same))

insert_entry_same :
    (k j : String) (v w : Expr) (es : Entries)
    → str_eq j k ≡ true
    → insert_entry k v (entry j w es) ≡ entry k v es
unfolding insert_entry
insert_entry_same k j v w es same = rw same refl

insert_entry_other :
    (k j : String) (v w : Expr) (es : Entries)
    → str_eq j k ≡ false
    → insert_entry k v (entry j w es) ≡ entry j w (insert_entry k v es)
unfolding insert_entry
insert_entry_other k j v w es other = rw other refl

set_entry_end : (k : String) (v : Expr) → entry k v end ≡ set_entry k v end
unfolding has_key at_end
set_entry_end k v = refl

-- The map of the parser sets keys as the meaning of dicts does.
bare_entries-insert_entry :
    (k : String) (e : Expr) (es : Entries)
    → bare_entries (insert_entry k e es) ≡ set_entry k (bare e) (bare_entries es)
unfolding bare_entries insert_entry
bare_entries-insert_entry k e end = set_entry_end k (bare e)
bare_entries-insert_entry k e (entry j w es) = elim (Bool-cases (str_eq j k)) [
  | inl same ↦
      ap bare_entries (insert_entry_same k j e w es same)
      ∙ sym (set_entry_same k j (bare e) (bare w) (bare_entries es) same)
  | inr other ↦
      ap bare_entries (insert_entry_other k j e w es other)
      ∙ (ap (λ (ds : Entries). entry j (bare w) ds) (bare_entries-insert_entry k e es)
          ∙ sym (set_entry_other k j (bare e) (bare w) (bare_entries es) other))
]

-- the same, with other entries after the one that is set
pub tree_fields-insert :
    (fs : Fields) (k : String) (e v : Expr) (found : Entries)
    → bare e ≡ v
    → tree_fields (bare_entries (insert_entry k e found)) fs
      ≡ tree_fields (set_entry k v (bare_entries found)) fs
tree_fields-insert fs k e v found means =
    ap (λ (ds : Entries). tree_fields ds fs)
      (bare_entries-insert_entry k e found
        ∙ ap (λ (w : Expr). set_entry k w (bare_entries found)) means)

module _ (u : CharClasses) (x : External) where
  -- What comes after a value ends it.
  pub fields_end :
      (fs : Fields) (p q : Parser)
      → Reads u p (written_other_fields fs) q
      → q.current.kind ≡ r_brace
      → Ends disjunction p.current.kind
  unfolding written_other_fields
  fields_end no_field p q same kind =
      subst (λ (r : Parser). Ends disjunction r.current.kind) (sym same)
        (subst (Ends disjunction) (sym kind) (refl, refl, (refl, (refl, refl))))
  fields_end (field k a fs) p q h kind = subst (Ends disjunction) (sym h.1) (comma-Ends u x)

  at_kind :
      (n rounds : ℕ) (found : Entries) (p : Parser) (k : TokenKind)
      → p.current.kind ≡ k
      → parse_entries u x (parse_expr u x n) (suc rounds) found p
        ≡ entries_at u x
            (parse_expr u x n)
            (λ more. parse_entries u x (parse_expr u x n) rounds more)
            found
            k
            p
  unfolding parse_entries
  at_kind n rounds found p k kind =
      ap
        (λ (j : TokenKind).
          entries_at u x (parse_expr u x n)
            (λ more. parse_entries u x (parse_expr u x n) rounds more) found j p)
        kind

  pub fields_over :
      (n rounds : ℕ) (found : Entries) (p q : Parser)
      → Reads u p (r_brace ∷ []) q
      → parse_entries u x (parse_expr u x n) (suc rounds) found p ≡ parsed found q
  unfolding parse_entries
  fields_over n rounds found p q (r, kind, adv, same) =
      at_kind n rounds found p r_brace kind ∙ rw (adv, same)

  -- one entry, and then the others
  pub one_field :
      (n rounds : ℕ) (found : Entries) (k : Chars) (p r s t : Parser) (e : Expr) (es : Entries)
      (q : Parser)
      → p.current.kind ≡ Token.string k
      → advance u p ≡ parsed tt r
      → r.current.kind ≡ colon
      → advance u r ≡ parsed tt s
      → parse_expr u x n s ≡ parsed e t
      → parse_entries u x (parse_expr u x n) rounds (insert_entry (text_of k) e found) t
        ≡ parsed es q
      → parse_entries u x (parse_expr u x n) (suc rounds) found p ≡ parsed es q
  unfolding parse_entries
  one_field n rounds found k p r s t e es q kind adv kind' adv' value rest =
      at_kind n rounds found p (Token.string k) kind
      ∙ rw (adv, expect-Reads u x colon r s kind' adv', value) rest

  pub field_separated :
      (n rounds : ℕ) (found : Entries) (p r : Parser) (es : Entries) (q : Parser)
      → p.current.kind ≡ comma
      → advance u p ≡ parsed tt r
      → parse_entries u x (parse_expr u x n) rounds found r ≡ parsed es q
      → parse_entries u x (parse_expr u x n) (suc rounds) found p ≡ parsed es q
  unfolding parse_entries
  field_separated n rounds found p r es q kind adv rest =
      at_kind n rounds found p comma kind ∙ rw (adv) rest
