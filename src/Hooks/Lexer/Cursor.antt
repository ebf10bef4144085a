-- ===== src/Hooks/Lexer/Cursor.antt =====
-- What the lexer reads character by character (di-core/src/hooks/parser/lexer.rs).
use di_rac.Prelude.{
  ℕ, suc, ◌+◌, ◌-◌, ◌*◌, ℤ, pos, Bool, true, false, ◌&&◌, ◌||◌, [], ◌∷◌, ◌++◌, ◌==◌, leb,
  if◌then◌else◌,
}
use di_rac.Hooks.Lexer.Token.{Chars}

-- the characters that are left, and where they start
pub record Cursor : Type 0 where
  pub chars : Chars
  pub offset : ℕ
  pub line : ℕ
  pub col : ℕ

-- `advance` past a character
abbrev pub past : ℕ → Chars → Cursor → Cursor
past c rest at =
    if c == b'\n'
    then record { chars = rest; offset = suc at.offset; line = suc at.line; col = 1 }
    else record { chars = rest; offset = suc at.offset; line = at.line; col = suc at.col }

-- `while let Some(c) = peek() { if p(c) { push(advance()) } else { break } }`
unfoldable pub read_while : (ℕ → Bool) → Chars → Cursor → Chars × Cursor
read_while p [] at = ([], record at { chars = [] })
read_while p (c ∷ cs) at =
    let (taken, end) = read_while p cs (past c cs at) in
    if p c then (c ∷ taken, end) else ([], record at { chars = c ∷ cs })

abbrev pub is_blank : ℕ → Bool
is_blank c = c == b' ' || c == b'\t' || c == b'\r'

abbrev pub is_ascii_digit : ℕ → Bool
is_ascii_digit c = leb b'0' c && leb c b'9'

-- what an escape in a string stands for
abbrev pub unescape : ℕ → Chars
unescape c =
    if c == b'n'
    then 10 ∷ []
    else if c == b't'
    then 9 ∷ []
    else if c == 92 || c == 34 || c == 39
    then c ∷ []
    else 92 ∷ c ∷ []

-- `read_string`, with whether the quote was found; 92 is a backslash.
unfoldable pub read_string : ℕ → Chars → Cursor → Chars × Bool × Cursor
read_string quote [] at = ([], false, record at { chars = [] })
read_string quote (c ∷ []) at = (
  if c == 92 || c == quote then [] else c ∷ [],
  if c == 92 then false else c == quote,
  past c [] at,
)
read_string quote (c ∷ d ∷ cs) at =
    let one = past c (d ∷ cs) at in
    let (plain, plain_closed, plain_end) = read_string quote (d ∷ cs) one in
    let (escaped, escaped_closed, escaped_end) = read_string quote cs (past d cs one) in
    if c == 92
    then (unescape d ++ escaped, escaped_closed, escaped_end)
    else if c == quote
    then ([], true, one)
    else (c ∷ plain, plain_closed, plain_end)

abbrev pub i64_max : ℕ
i64_max = 9223372036854775807

abbrev pub digits_value : ℕ → Chars → ℕ
digits_value n [] = n
digits_value n (c ∷ cs) = digits_value (10 * n + (c - b'0')) cs

-- `parse::<i64>` of digits, or `i64::MAX` where it overflows
abbrev pub parse_int : Chars → ℤ
parse_int digits = let n = digits_value 0 digits in if leb n i64_max then pos n else pos i64_max

-- The rounds of the loop of `next_token` that `continue`: blanks, and comments up to the end of
-- their line; the flag says whether a comment is being skipped.
unfoldable pub skip_ignored : Bool → Chars → Cursor → Cursor
skip_ignored comment [] at = record at { chars = [] }
skip_ignored true (c ∷ cs) at =
    let rest = skip_ignored true cs (past c cs at) in
    if c == b'\n' then record at { chars = c ∷ cs } else rest
skip_ignored false (c ∷ cs) at =
    let rest = skip_ignored false cs (past c cs at) in
    let after_comment = skip_ignored true cs (past c cs at) in
    if is_blank c then rest else if c == b'#' then after_comment else record at { chars = c ∷ cs }
