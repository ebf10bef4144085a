-- ===== src/Tools/Edit/Apply.antt =====
-- Edits and their application to the lines of a file (di-core/src/tools/edit_file.rs).
use di_rac.Prelude.{
  ℕ, suc, ◌+◌, ◌-◌, ◌%◌, ◌^◌, Bool, false, ◌&&◌, ◌||◌, List, [], ◌∷◌, ◌++◌, map, Option, none, some,
  ◌==◌, ltb, leb, length, take, drop, all, is_empty, ◌>>=◌, Chars, trim_start, trim_end_by,
  split_on, join_with, split_once, unix_lines, if◌then◌else◌,
}

pub data EditType : Type 0 where
  replace insert_before insert_after : EditType

pub record Edit : Type 0 where
  pub anchor : Chars
  pub end_anchor : Option Chars
  pub edit_type : EditType
  pub text : Chars

pub record ResolvedEdit : Type 0 where
  pub line_idx : ℕ
  pub end_idx : ℕ
  pub edit : Edit
  pub warnings : List Chars

pub record AppliedEdit : Type 0 where
  pub start_idx : ℕ
  pub end_idx : ℕ
  pub original_start_idx : ℕ
  pub original_end_idx : ℕ
  pub edit : Edit
  pub lines_added : ℕ
  pub lines_deleted : ℕ

-- `is_ascii_lowercase() || is_ascii_digit() || c == '_'`
abbrev pub in_hash : ℕ → Bool
in_hash c = (leb b'a' c && leb c b'z') || ((leb b'0' c && leb c b'9') || c == b'_')

-- `is_valid_hash`; the characters are ASCII, so there are as many bytes.
unfoldable pub is_valid_hash : Chars → Bool
is_valid_hash [] = false
is_valid_hash (c ∷ cs) = leb (length (c ∷ cs)) 32 && all in_hash (c ∷ cs)

-- one line of `strip_hashes`
unfoldable pub strip_hash : Chars → Chars
unfolding is_valid_hash trim_start split_once
strip_hash line = elim (split_once b'|' (trim_start line)) [
  | none ↦ line
  | some (prefix, after) ↦ if is_valid_hash prefix && leb (length prefix) 5 then after else line
]

unfoldable pub strip_hashes : Chars → Chars
unfolding strip_hash split_on join_with
strip_hashes content = join_with 10 (map strip_hash (split_on 10 content))

-- the lines that an edit puts in
unfoldable pub replacement_lines : Chars → List Chars
unfolding strip_hashes unix_lines trim_end_by split_on
replacement_lines text =
    let trimmed = trim_end_by (λ c. c == 10) (unix_lines (strip_hashes text)) in
    if is_empty trimmed then [] else split_on 10 trimmed

-- where an edit stands, and how many lines it takes out
abbrev pub splice_index : EditType → ℕ → ℕ
splice_index insert_after line = suc line
splice_index insert_before line = line
splice_index replace line = line

abbrev pub removed_count : EditType → ℕ → ℕ → ℕ
removed_count insert_after line end = 0
removed_count insert_before line end = 0
removed_count replace line end = end - line + 1

-- `Vec::splice`, `none` where it panics
unfoldable pub splice {ℓ} : {A : Type ℓ} → ℕ → ℕ → List A → List A → Option (List A)
splice start removed new xs =
    if leb (start + removed) (length xs)
    then some (take start xs ++ (new ++ drop (start + removed) xs))
    else none

-- The sort is stable: an edit stands in front of those of its line that come after it.
unfoldable pub insert_edit : ResolvedEdit → List ResolvedEdit → List ResolvedEdit
insert_edit e [] = e ∷ []
insert_edit e (f ∷ fs) =
    let rest = insert_edit e fs in if leb f.line_idx e.line_idx then e ∷ f ∷ fs else f ∷ rest

-- `sort_by(|a, b| b.line_idx.cmp(&a.line_idx))`
unfoldable pub bottom_to_top : List ResolvedEdit → List ResolvedEdit
unfolding insert_edit
bottom_to_top [] = []
bottom_to_top (e ∷ es) = insert_edit e (bottom_to_top es)

-- The count of a replaced range underflows where the range is reversed, which is a panic too.
abbrev pub reversed : ResolvedEdit → Bool
reversed e = elim e.edit.edit_type [ replace ↦ ltb e.end_idx e.line_idx | _ ↦ false ]

unfoldable pub apply_one : ResolvedEdit → List Chars → Option (List Chars)
unfolding splice replacement_lines
apply_one e lines =
    let kind = e.edit.edit_type in
    if reversed e
    then none
    else splice (splice_index kind e.line_idx) (removed_count kind e.line_idx e.end_idx)
        (replacement_lines e.edit.text) lines

-- the loop over the sorted edits
unfoldable pub apply_sorted : List ResolvedEdit → List Chars → Option (List Chars)
unfolding apply_one
apply_sorted [] lines = some lines
apply_sorted (e ∷ es) lines = apply_one e lines >>= apply_sorted es

-- an entry of `changes`: the line, the lines put in and taken out, and the edit
pub record Change : Type 0 where
  pub line : ℕ
  pub added : ℕ
  pub removed : ℕ
  pub edit : Edit

abbrev pub change_of : ResolvedEdit → Change
change_of e = record {
  line = e.line_idx;
  added = length (replacement_lines e.edit.text);
  removed = removed_count e.edit.edit_type e.line_idx e.end_idx;
  edit = e.edit;
}

-- the lines that the changes above a line add, and those that they take out
abbrev pub added_above : ℕ → List Change → ℕ
added_above line [] = 0
added_above line (c ∷ cs) = (if ltb c.line line then c.added else 0) + added_above line cs

abbrev pub removed_above : ℕ → List Change → ℕ
removed_above line [] = 0
removed_above line (c ∷ cs) = (if ltb c.line line then c.removed else 0) + removed_above line cs

-- `isize as usize`
abbrev pub usize : ℕ
usize = 2 ^ 64

abbrev pub applied_edit : List Change → Change → AppliedEdit
applied_edit all_changes c =
    let start =
      (c.line + added_above c.line all_changes + usize - removed_above c.line all_changes)
      % usize in
    record {
      start_idx = start;
      end_idx = (start + (c.added - 1)) % usize;
      original_start_idx = c.line;
      original_end_idx = c.line + (c.removed - 1);
      edit = c.edit;
      lines_added = c.added;
      lines_deleted = c.removed;
    }

unfoldable pub apply_edits : List Chars → List ResolvedEdit → Option (List Chars × List AppliedEdit)
unfolding bottom_to_top apply_sorted
apply_edits lines resolved_edits =
    let sorted = bottom_to_top resolved_edits in
    let changes = map change_of sorted in
    apply_sorted sorted lines >>= λ new_lines. some (new_lines, map (applied_edit changes) changes)
