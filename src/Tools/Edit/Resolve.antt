-- ===== src/Tools/Edit/Resolve.antt =====
-- Which lines the anchors of an edit mean (di-core/src/tools/edit_file.rs).
use di_rac.Prelude.{
  ℕ, zero, suc, ◌+◌, ◌-◌, min, max, Bool, false, ◌&&◌, ◌||◌, List, [], ◌∷◌, ◌++◌, map, Option, none,
  some, ◌==◌, ltb, leb, length, any, take, is_empty, Chars, codes, chars_eq, as_bytes, utf8_char,
  number, is_whitespace, trim_start, trim_end_by, split_once, join_texts, if◌then◌else◌,
}
use di_rac.Tools.Edit.Apply.{
  EditType, Edit, ResolvedEdit, replace, insert_before, insert_after, is_valid_hash,
}
use di_rac.Tools.Edit.Distance.{levenshtein}
use di_rac.Util.Anchors.{FileAnchorIndex, get_hash, get_line_idx, get_line, line_count}

-- What the resolution takes from elsewhere: the arithmetic of `f64` on scores, the regular expressions
-- of the crate `regex`, and the lower case of Unicode.
pub record Matching : Type 1 where
  pub Score : Type 0
  -- `1.0`
  pub perfect : Score
  -- `1.0 - (distance as f64) / (longest as f64)`
  pub score_of : ℕ → ℕ → Score
  pub greater : Score → Score → Bool
  -- `>= FUZZY_SUGGEST_THRESHOLD` and `>= FUZZY_AUTO_THRESHOLD`
  pub suggests : Score → Bool
  pub resolves : Score → Bool
  -- `(confidence * 100.0).round() as usize`
  pub percent : Score → ℕ
  -- what follows a match of `^\d+\s*[│|]\s*`
  pub strip_gutter : Chars → Option Chars
  -- without a match of `^[a-z0-9_]{1,32}\|`
  pub strip_echo : Chars → Chars
  pub to_lowercase : Chars → Chars

abbrev pub byte_length : Chars → ℕ
byte_length s = length (as_bytes s)

unfoldable pub replace_tabs : Chars → Chars
replace_tabs [] = []
replace_tabs (c ∷ cs) =
    let rest = replace_tabs cs in if c == 9 then 32 ∷ 32 ∷ 32 ∷ 32 ∷ rest else c ∷ rest

unfoldable pub normalize_whitespace : Chars → Chars
unfolding replace_tabs trim_end_by
normalize_whitespace s = trim_end_by is_whitespace (replace_tabs s)

-- `ends_with`
unfoldable pub ends_with : Chars → Chars → Bool
unfolding chars_eq
ends_with suffix [] = chars_eq [] suffix
ends_with suffix (c ∷ cs) = chars_eq (c ∷ cs) suffix || ends_with suffix cs

-- what starts at the last dot
unfoldable pub last_dot : Chars → Option Chars
last_dot [] = none
last_dot (c ∷ cs) = elim (last_dot cs) [
  | some extension ↦ some extension
  | none ↦ if c == b'.' then some (c ∷ cs) else none
]

abbrev pub whitespace_sensitive_extensions : List Chars
whitespace_sensitive_extensions =
    codes ".py" ∷ codes ".hs" ∷ codes ".lhs" ∷ codes ".yaml" ∷ codes ".yml" ∷ codes ".mak" ∷ []

-- The characters that lie whole in the first `n` bytes.
unfoldable pub fitting : ℕ → Chars → Chars
fitting n [] = []
fitting n (c ∷ cs) =
    let rest = fitting (n - length (utf8_char c)) cs in
    if leb (length (utf8_char c)) n then c ∷ rest else []

unfoldable pub truncate : Chars → ℕ → Chars
unfolding fitting as_bytes
truncate s n = if leb (byte_length s) n then s else fitting n s ++ codes "..."

-- `parse_anchor_from_line`, after the gutter
abbrev pub anchor_parts : Chars → Option (Chars × Chars)
anchor_parts s = elim (split_once b'|' s) [
  | some (hash, content) ↦ if is_valid_hash hash then some (hash, content) else none
  | none ↦ if is_valid_hash s then some (s, []) else none
]

-- the hashes with their distances and lines, the nearest first
abbrev pub Scored : Type 0
Scored = Chars × ℕ × ℕ

unfoldable pub insert_scored : Scored → List Scored → List Scored
insert_scored s [] = s ∷ []
insert_scored s (t ∷ ts) =
    let rest = insert_scored s ts in
    if ltb s.1 t.1 || (s.1 == t.1 && leb s.2 t.2) then s ∷ t ∷ ts else t ∷ rest

unfoldable pub score_hashes : Chars → ℕ → List Chars → List Scored
unfolding insert_scored levenshtein as_bytes
score_hashes hash i [] = []
score_hashes hash i (h ∷ hs) =
    insert_scored (h, levenshtein (as_bytes hash) (as_bytes h), i) (score_hashes hash (suc i) hs)

abbrev pub near : List Scored → List Scored
near [] = []
near (s ∷ ss) = let rest = near ss in if leb s.1 2 then s ∷ rest else rest

-- the messages, by the codes of their texts
abbrev pub anchor_suggestion : FileAnchorIndex → Scored → Chars
anchor_suggestion index s =
    codes "\""
    ++ s.0
    ++ codes "\" (line "
    ++ number (s.2 + 1)
    ++ codes "): '"
    ++ truncate (get_line index s.2) 40
    ++ codes "'"

unfoldable pub build_unknown_anchor_error : Chars → FileAnchorIndex → Chars
unfolding score_hashes truncate number
build_unknown_anchor_error hash index =
    let suggestions =
      map (anchor_suggestion index) (take 3 (near (score_hashes hash 0 index.hash_by_line))) in
    if is_empty suggestions
    then codes "Anchor \""
      ++ hash
      ++ codes "\" not found in the file. Please re-read the file to get current anchors."
    else codes "Anchor \""
      ++ hash
      ++ codes "\" not found. Did you mean: "
      ++ join_texts (codes ", ") suggestions
      ++ codes "?"

-- `line_idx` is `none` where the source has -1.
pub record AnchorResolution : Type 0 where
  pub line_idx : Option ℕ
  pub error : Option Chars
  pub warning : Option Chars

abbrev pub unresolved : Chars → AnchorResolution
unresolved message = record { line_idx = none; error = some message; warning = none }

abbrev pub resolved_at : ℕ → AnchorResolution
resolved_at i = record { line_idx = some i; error = none; warning = none }

pub record FailedEdit : Type 0 where
  pub edit : Edit
  pub error : Chars

module _ (m : Matching) where
  open m use {
    Score, perfect, score_of, greater, suggests, resolves, percent, strip_gutter, strip_echo,
    to_lowercase,
  }

  unfoldable pub similarity : Chars → Chars → Score
  unfolding levenshtein as_bytes
  similarity a b =
      let longest = max (byte_length a) (byte_length b) in
      if longest == 0 then perfect else score_of (levenshtein (as_bytes a) (as_bytes b)) longest

  unfoldable pub is_whitespace_sensitive : Chars → Bool
  unfolding ends_with last_dot chars_eq
  is_whitespace_sensitive path = ends_with (codes "Makefile") path || elim (last_dot path) [
    | none ↦ false
    | some extension ↦ any (chars_eq (to_lowercase extension)) whitespace_sensitive_extensions
  ]

  unfoldable pub parse_anchor_from_line : Chars → Option (Chars × Chars)
  unfolding trim_start trim_end_by split_once is_valid_hash
  parse_anchor_from_line raw =
      let trimmed = trim_end_by is_whitespace (trim_start raw) in
      if is_empty raw
      then none
      else anchor_parts (elim (strip_gutter trimmed) [ some rest ↦ rest | none ↦ trimmed ])

  -- a text as it is compared
  abbrev pub compared_as : Bool → Chars → Chars
  compared_as sensitive s = if sensitive then s else normalize_whitespace s

  -- one round of the loop over the lines near an anchor
  abbrev pub better : Option (ℕ × Score) → ℕ → Score → Option (ℕ × Score)
  better none i score = some (i, score)
  better (some (j, best)) i score = if greater score best then some (i, score) else some (j, best)

  unfoldable pub best_match :
      Chars → FileAnchorIndex → Bool → ℕ → ℕ → Option (ℕ × Score) → Option (ℕ × Score)
  unfolding similarity normalize_whitespace
  best_match provided index sensitive i zero best = best
  best_match provided index sensitive i (suc lines) best =
      best_match provided index sensitive (suc i) lines (
        better best i
          (similarity (compared_as sensitive provided) (compared_as sensitive (get_line index i))))

  abbrev pub if_suggested : Option (ℕ × Score) → Option (ℕ × Score)
  if_suggested none = none
  if_suggested (some (i, score)) = if suggests score then some (i, score) else none

  unfoldable pub fuzzy_match_content : Chars → ℕ → FileAnchorIndex → Bool → Option (ℕ × Score)
  unfolding best_match
  fuzzy_match_content provided line index sensitive =
      let start_line = line - 5 in
      let end_line = min (line + 5) (line_count index - 1) in
      if_suggested (best_match provided index sensitive start_line (end_line + 1 - start_line) none)

  abbrev pub drifted : Chars → ℕ → Score → Chars
  drifted hash line score =
      codes "Anchor \""
      ++ hash
      ++ codes "\" drifted — fuzzy-resolved to line "
      ++ number (line + 1)
      ++ codes " ("
      ++ number (percent score)
      ++ codes "% match)."

  abbrev pub suggested : Chars → Chars → FileAnchorIndex → ℕ → Score → Chars
  suggested hash actual index line score =
      codes "Anchor \""
      ++ hash
      ++ codes "\" is stale (current: '"
      ++ truncate actual 60
      ++ codes "'). Fuzzy match at line "
      ++ number (line + 1)
      ++ codes ": '"
      ++ truncate (get_line index line) 60
      ++ codes "' ("
      ++ number (percent score)
      ++ codes "%). Re-read the file or use the suggested line."

  abbrev pub stale : Chars → Chars → Chars → Chars
  stale hash actual current =
      codes "Anchor \""
      ++ hash
      ++ codes "\" is stale. Current content: '"
      ++ truncate actual 60
      ++ codes "' with new anchor "
      ++ current
      ++ codes "."

  -- after a content that is not the line's
  abbrev pub by_match : Chars → ℕ → FileAnchorIndex → Option (ℕ × Score) → AnchorResolution
  by_match hash line index none =
      unresolved (stale hash (get_line index line) (get_hash index line))
  by_match hash line index (some (i, score)) =
      if resolves score
      then record { line_idx = some i; error = none; warning = some (drifted hash i score) }
      else if suggests score
      then unresolved (suggested hash (get_line index line) index i score)
      else unresolved (stale hash (get_line index line) (get_hash index line))

  -- the line of a hash, with the content that was provided for it
  unfoldable pub check_content :
      Chars → Chars → Chars → ℕ → FileAnchorIndex → Bool → AnchorResolution
  unfolding chars_eq normalize_whitespace fuzzy_match_content truncate number
  check_content kind hash provided line index sensitive =
      if is_empty provided
      then resolved_at line
      else if any (λ c. c == 10 || c == 13) provided
      then unresolved (
          kind
          ++ codes " \""
          ++ hash
          ++ codes "\" exists, but the provided code line contains a newline character. "
          ++ codes "Use format hash|{line_text}.")
      else if chars_eq (compared_as sensitive provided)
          (compared_as sensitive (get_line index line))
      then resolved_at line
      else by_match hash line index (fuzzy_match_content provided line index sensitive)

  -- after the lookup of a hash
  abbrev pub at_hash : Chars → Chars → Chars → FileAnchorIndex → Bool → Option ℕ → AnchorResolution
  at_hash kind hash content index sensitive none =
      unresolved (build_unknown_anchor_error hash index)
  at_hash kind hash content index sensitive (some line) =
      check_content kind hash (strip_echo content) line index sensitive

  abbrev pub resolve_parts :
      Chars → FileAnchorIndex → Bool → Option (Chars × Chars) → AnchorResolution
  resolve_parts kind index sensitive none = unresolved (
      kind
      ++ codes " is missing or incorrectly formatted. It must follow the format "
      ++ codes "\"hash|content\" (e.g., \"a3|code\").")
  resolve_parts kind index sensitive (some (hash, content)) =
      at_hash kind hash content index sensitive (get_line_idx index hash)

  unfoldable pub resolve_anchor : Chars → Option Chars → FileAnchorIndex → Bool → AnchorResolution
  unfolding trim_start parse_anchor_from_line get_line_idx check_content build_unknown_anchor_error
  resolve_anchor kind none index sensitive = unresolved (kind ++ codes " is missing.")
  resolve_anchor kind (some raw) index sensitive =
      if is_empty (trim_start raw)
      then unresolved (kind ++ codes " is missing.")
      else resolve_parts kind index sensitive (parse_anchor_from_line raw)

  abbrev pub as_list {ℓ} : {A : Type ℓ} → Option A → List A
  as_list none = []
  as_list (some a) = a ∷ []

  -- the end of an edit, which for an insertion is its start
  abbrev pub resolve_end :
      EditType → Edit → AnchorResolution → FileAnchorIndex → Bool → AnchorResolution
  resolve_end replace edit start index sensitive =
      resolve_anchor (codes "end_anchor") edit.end_anchor index sensitive
  resolve_end insert_before edit start index sensitive = record {
    line_idx = start.line_idx;
    error = none;
    warning = none;
  }
  resolve_end insert_after edit start index sensitive = record {
    line_idx = start.line_idx;
    error = none;
    warning = none;
  }

  abbrev pub range_error : Option ℕ → Option ℕ → List Chars
  range_error (some start) (some end) =
      if ltb end start
      then codes
          "Range error: anchor must refer to a line that precedes or is the same as end_anchor."
        ∷ []
      else []
  range_error none end = []
  range_error start none = []

  -- what one edit adds to the resolved and the failed ones
  abbrev pub outcome :
      Edit → List Chars → List Chars → Option ℕ → Option ℕ → List ResolvedEdit × List FailedEdit
  outcome edit (d ∷ ds) warnings start end =
      ([], record { edit = edit; error = join_texts (codes " ") (d ∷ ds) } ∷ [])
  outcome edit [] warnings (some start) (some end) =
      (record { line_idx = start; end_idx = end; edit = edit; warnings = warnings } ∷ [], [])
  outcome edit [] warnings start end = ([], record { edit = edit; error = [] } ∷ [])

  unfoldable pub resolve_edit : Edit → FileAnchorIndex → Bool → List ResolvedEdit × List FailedEdit
  unfolding resolve_anchor
  resolve_edit edit index sensitive =
      let start = resolve_anchor (codes "anchor") (some edit.anchor) index sensitive in
      let end = resolve_end edit.edit_type edit start index sensitive in
      outcome edit
        (as_list start.error ++ as_list end.error ++ range_error start.line_idx end.line_idx)
        (as_list start.warning ++ as_list end.warning) start.line_idx end.line_idx

  -- the loop of `resolve_edits`
  unfoldable pub resolve_all :
      List Edit → FileAnchorIndex → Bool → List ResolvedEdit × List FailedEdit
  unfolding resolve_edit
  resolve_all [] index sensitive = ([], [])
  resolve_all (e ∷ es) index sensitive =
      let (resolved, failed) = resolve_edit e index sensitive in
      let (more, more_failed) = resolve_all es index sensitive in
      (resolved ++ more, failed ++ more_failed)

  unfoldable pub resolve_edits :
      List Edit → FileAnchorIndex → Chars → List ResolvedEdit × List FailedEdit
  unfolding resolve_all is_whitespace_sensitive
  resolve_edits edits index path = resolve_all edits index (is_whitespace_sensitive path)
