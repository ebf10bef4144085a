-- ===== src/Hooks/Parser/Syntax.antt =====
-- The expressions of hook files as they are written, to compare with what the parser
-- (di-core/src/hooks/parser/parser.rs) makes of them: how each is written as tokens, with
-- parentheses only where a lower level stands in a higher one, and the tree that it means.
use di_rac.Prelude.{
  String, str_eq, ◌||◌, ℕ, ◌+◌, ℤ, Bool, false, List, [], ◌∷◌, ◌++◌, text_of, leb, if◌then◌else◌,
}
use di_rac.Hooks.Ast
use di_rac.Hooks.Ast.{
  Span, BinOp, Expr, Exprs, Entries, nil, cons, end, entry, bool, method_call, binary_op, list,
  dict, member_access,
}
use di_rac.Hooks.Lexer.Token
use di_rac.Hooks.Lexer.Token.{
  Chars, TokenKind, ident, true_, false_, in_, and_, or_, not_, l_paren, r_paren, l_bracket,
  r_bracket, l_brace, r_brace, comma, colon, dot, eq_eq, neq,
}

pub data Comparison : Type 0 where
  equal different within : Comparison

-- A chain of `or` or `and` is its first operand and the others. A path is a name with members and
-- method calls after it.
mutual
  pub data Source : Type 0 where
    boolean : Bool → Source
    text : Chars → Source
    number : ℤ → Source
    path : Chars → Links → Source
    call : Chars → Sources → Source
    items : Sources → Source
    mapping : Fields → Source
    negated : Source → Source
    compared : Source → Comparison → Source → Source
    all_of any_of : Source → Sources → Source

  pub data Sources : Type 0 where
    no_more : Sources
    more : Source → Sources → Sources

  -- the keys and values of a dict
  pub data Fields : Type 0 where
    no_field : Fields
    field : Chars → Source → Fields → Fields

  pub data Links : Type 0 where
    stop : Links
    member : Chars → Links → Links
    method : Chars → Sources → Links → Links

-- the levels of the grammar, the loosest first
pub data Level : Type 0 where
  disjunction conjunction comparison negation primary : Level

abbrev pub rank : Level → ℕ
rank disjunction = 0
rank conjunction = 1
rank comparison = 2
rank negation = 3
rank primary = 4

abbrev pub level : Source → Level
level (any_of a cs) = disjunction
level (all_of a cs) = conjunction
level (compared a op b) = comparison
level (negated a) = negation
level (boolean b) = primary
level (text s) = primary
level (number n) = primary
level (path name links) = primary
level (call name args) = primary
level (items ss) = primary
level (mapping fs) = primary

abbrev pub op_token : Comparison → TokenKind
op_token equal = eq_eq
op_token different = neq
op_token within = in_

abbrev pub op_of : Comparison → BinOp
op_of equal = BinOp.eq
op_of different = BinOp.neq
op_of within = BinOp.is_in

abbrev pub enclosed : List TokenKind → List TokenKind
enclosed ks = l_paren ∷ (ks ++ r_paren ∷ [])

-- `a`, written as `ks`, where level `l` is asked for
abbrev pub fitted : Level → Source → List TokenKind → List TokenKind
fitted l a ks = if leb (rank l) (rank (level a)) then ks else enclosed ks

unfoldable mutual
  pub written : Source → List TokenKind
  written (boolean b) = (if b then true_ else false_) ∷ []
  written (text s) = Token.string s ∷ []
  written (number n) = Token.int n ∷ []
  written (path name links) = ident name ∷ written_links links
  written (call name args) = ident name ∷ l_paren ∷ (written_list args ++ r_paren ∷ [])
  written (items ss) = l_bracket ∷ (written_list ss ++ r_bracket ∷ [])
  written (mapping fs) = l_brace ∷ (written_fields fs ++ r_brace ∷ [])
  written (negated a) = not_ ∷ fitted negation a (written a)
  written (compared a op b) =
      fitted negation a (written a) ++ op_token op ∷ fitted negation b (written b)
  written (all_of a cs) = fitted comparison a (written a) ++ written_chain comparison and_ cs
  written (any_of a cs) = fitted conjunction a (written a) ++ written_chain conjunction or_ cs

  -- with a comma between two of them
  pub written_list : Sources → List TokenKind
  written_list no_more = []
  written_list (more a cs) = written a ++ written_others cs

  pub written_others : Sources → List TokenKind
  written_others no_more = []
  written_others (more a cs) = comma ∷ (written a ++ written_others cs)

  pub written_fields : Fields → List TokenKind
  written_fields no_field = []
  written_fields (field k a fs) = Token.string k ∷ colon ∷ (written a ++ written_other_fields fs)

  pub written_other_fields : Fields → List TokenKind
  written_other_fields no_field = []
  written_other_fields (field k a fs) =
      comma ∷ Token.string k ∷ colon ∷ (written a ++ written_other_fields fs)

  pub written_chain : Level → TokenKind → Sources → List TokenKind
  written_chain l k no_more = []
  written_chain l k (more a cs) = k ∷ (fitted l a (written a) ++ written_chain l k cs)

  pub written_links : Links → List TokenKind
  written_links stop = []
  written_links (member name links) = dot ∷ ident name ∷ written_links links
  written_links (method name args links) =
      dot ∷ ident name ∷ l_paren ∷ (written_list args ++ r_paren ∷ written_links links)

abbrev pub nowhere : Span
nowhere = record { start = 0; end = 0; line = 0; column = 0 }

unfoldable pub has_key : String → Entries → Bool
has_key k end = false
has_key k (entry j w es) = str_eq j k || has_key k es

unfoldable pub with_value : String → Expr → Entries → Entries
with_value k v end = end
with_value k v (entry j w es) = if str_eq j k then entry j v es else entry j w (with_value k v es)

unfoldable pub at_end : String → Expr → Entries → Entries
at_end k v end = entry k v end
at_end k v (entry j w es) = entry j w (at_end k v es)

-- A key that is there keeps its place and gets the new value; any other comes last.
abbrev pub set_entry : String → Expr → Entries → Entries
set_entry k v es = if has_key k es then with_value k v es else at_end k v es

-- The tree that a source means; a chain associates to the left, and of the values that a dict has
-- for one key the last counts.
unfoldable mutual
  pub tree : Source → Expr
  tree (boolean b) = bool b nowhere
  tree (text s) = Ast.string (text_of s) nowhere
  tree (number n) = Ast.int n nowhere
  tree (path name links) = tree_links (Ast.ident (text_of name) nowhere) links
  tree (call name args) =
      method_call (Ast.ident (text_of name) nowhere) "__call__" (trees args) nowhere
  tree (items ss) = list (trees ss) nowhere
  tree (mapping fs) = dict (tree_fields end fs) nowhere
  tree (negated a) = binary_op (bool false nowhere) BinOp.eq (tree a) nowhere
  tree (compared a op b) = binary_op (tree a) (op_of op) (tree b) nowhere
  tree (all_of a cs) = tree_chain BinOp.and (tree a) cs
  tree (any_of a cs) = tree_chain BinOp.or (tree a) cs

  pub trees : Sources → Exprs
  trees no_more = nil
  trees (more a cs) = cons (tree a) (trees cs)

  pub tree_fields : Entries → Fields → Entries
  tree_fields found no_field = found
  tree_fields found (field k a fs) = tree_fields (set_entry (text_of k) (tree a) found) fs

  pub tree_chain : BinOp → Expr → Sources → Expr
  tree_chain op e no_more = e
  tree_chain op e (more a cs) = tree_chain op (binary_op e op (tree a) nowhere) cs

  pub tree_links : Expr → Links → Expr
  tree_links e stop = e
  tree_links e (member name links) = tree_links (member_access e (text_of name) nowhere) links
  tree_links e (method name args links) =
      tree_links (method_call e (text_of name) (trees args) nowhere) links

-- an expression without its spans
unfoldable mutual
  pub bare : Expr → Expr
  bare (bool b at) = bool b nowhere
  bare (Ast.string s at) = Ast.string s nowhere
  bare (Ast.int n at) = Ast.int n nowhere
  bare (Ast.ident s at) = Ast.ident s nowhere
  bare (method_call e name args at) = method_call (bare e) name (bare_list args) nowhere
  bare (binary_op a op b at) = binary_op (bare a) op (bare b) nowhere
  bare (list es at) = list (bare_list es) nowhere
  bare (dict es at) = dict (bare_entries es) nowhere
  bare (member_access e name at) = member_access (bare e) name nowhere

  pub bare_list : Exprs → Exprs
  bare_list nil = nil
  bare_list (cons e es) = cons (bare e) (bare_list es)

  pub bare_entries : Entries → Entries
  bare_entries end = end
  bare_entries (entry k e es) = entry k (bare e) (bare_entries es)

-- a bound on the fuel that a source takes
unfoldable mutual
  pub size : Source → ℕ
  size (boolean b) = 2
  size (text s) = 2
  size (number n) = 2
  size (path name links) = 2 + size_links links
  size (call name args) = 2 + sizes args
  size (items ss) = 2 + sizes ss
  size (mapping fs) = 2 + size_fields fs
  size (negated a) = 2 + size a
  size (compared a op b) = 2 + size a + size b
  size (all_of a cs) = 2 + size a + sizes cs
  size (any_of a cs) = 2 + size a + sizes cs

  pub sizes : Sources → ℕ
  sizes no_more = 2
  sizes (more a cs) = 2 + size a + sizes cs

  pub size_fields : Fields → ℕ
  size_fields no_field = 2
  size_fields (field k a fs) = 2 + size a + size_fields fs

  pub size_links : Links → ℕ
  size_links stop = 2
  size_links (member name links) = 2 + size_links links
  size_links (method name args links) = 2 + sizes args + size_links links
