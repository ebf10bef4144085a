-- ===== src/Tools/Edit/Report.antt =====
-- The report of an edit: `create_results_response` of di-core/src/tools/edit_file.rs and what it
-- calls. `none` is a panic.
use di_rac.Prelude.{
  ℕ, zero, suc, ◌+◌, ◌-◌, min, Bool, true, false, List, [], ◌∷◌, ◌++◌, map, Option, none, some,
  ◌==◌, ltb, leb, length, get_elem?, take, drop, any, is_empty, unwrap_or, ◌>>=◌, Chars, codes,
  chars_eq, number, split_once, split_on, join_texts, if◌then◌else◌,
}
use di_rac.Tools.Edit.Apply.{Edit, ResolvedEdit, AppliedEdit}
use di_rac.Tools.Edit.Resolve.{FailedEdit}

pub record PreparedEdits : Type 0 where
  pub original_lines : List Chars
  pub original_hashes : List Chars
  pub resolved_edits : List ResolvedEdit
  pub failed_edits : List FailedEdit
  pub applied_edits : List AppliedEdit
  pub final_lines : List Chars

-- `a..=b`
abbrev pub count_up : ℕ → ℕ → List ℕ
count_up a zero = []
count_up a (suc n) = a ∷ count_up (suc a) n

abbrev pub range_incl : ℕ → ℕ → List ℕ
range_incl a b = count_up a (suc b - a)

-- `xs.len() - 1`, which underflows where there is nothing
abbrev pub last_index {ℓ} : {A : Type ℓ} → List A → Option ℕ
last_index [] = none
last_index (x ∷ xs) = some (length xs)

-- `&xs[start..=end.min(xs.len() - 1)]`
unfoldable pub clipped {ℓ} : {A : Type ℓ} → ℕ → ℕ → List A → Option (List A)
clipped start end xs = last_index xs >>= λ last.
    let end' = min end last in
    if leb start (suc end') then some (take (suc end' - start) (drop start xs)) else none

-- `start..=end.min(xs.len() - 1)` of a loop
abbrev pub clipped_range {ℓ} : {A : Type ℓ} → ℕ → ℕ → List A → Option (List ℕ)
clipped_range start end xs = last_index xs >>= λ last. some (range_incl start (min end last))

abbrev pub at_or_empty : List Chars → ℕ → Chars
at_or_empty xs i = unwrap_or (get_elem? xs i) []

abbrev pub contains_hash : Chars → List Chars → Bool
contains_hash h hashes = any (chars_eq h) hashes

abbrev pub format_line_with_hash : Chars → Chars → Chars
format_line_with_hash line hash = hash ++ (b'|' ∷ line)

-- one line of a file with its hash, after a sign
abbrev pub diff_line : Chars → List Chars → List Chars → ℕ → Chars
diff_line sign lines hashes i =
    sign ++ format_line_with_hash (at_or_empty lines i) (at_or_empty hashes i)

abbrev pub context_before : List Chars → List Chars → List ℕ → List Chars
context_before lines hashes [] = []
context_before lines hashes (i ∷ is) =
    let rest = context_before lines hashes is in
    if ltb i (length lines) then diff_line (codes " ") lines hashes i ∷ rest else rest

abbrev pub deleted_lines : List Chars → List Chars → List Chars → List ℕ → List Chars
deleted_lines kept lines hashes [] = []
deleted_lines kept lines hashes (i ∷ is) =
    let rest = deleted_lines kept lines hashes is in
    if contains_hash (at_or_empty hashes i) kept
    then rest
    else diff_line (codes "-") lines hashes i ∷ rest

abbrev pub added_lines : List Chars → List Chars → List Chars → List ℕ → List Chars
added_lines old lines hashes is =
    map
      (λ i.
        diff_line (if contains_hash (at_or_empty hashes i) old then codes " " else codes "+") lines
          hashes i)
      is

unfoldable pub get_diff_block :
    List Chars → List Chars → List Chars → List Chars → AppliedEdit → Option Chars
unfolding clipped chars_eq
get_diff_block original_lines original_hashes final_lines final_hashes applied =
    let before_start = applied.original_start_idx - 3 in
    let after_end = min (applied.end_idx + 3) (length final_lines - 1) in
    clipped applied.start_idx applied.end_idx final_hashes >>= λ kept.
    clipped_range applied.original_start_idx applied.original_end_idx original_lines >>= λ deleted.
    clipped applied.original_start_idx applied.original_end_idx original_hashes >>= λ old.
    clipped_range applied.start_idx applied.end_idx final_lines >>= λ added. some (
      join_texts (codes "\n") (
        context_before original_lines original_hashes
          (count_up before_start (applied.original_start_idx - before_start))
        ++ (deleted_lines kept original_lines original_hashes deleted
            ++ (added_lines old final_lines final_hashes added
                ++ map (diff_line (codes " ") final_lines final_hashes)
                    (range_incl (suc applied.end_idx) after_end)))))

-- the lines of `is` whose hash is not among `others`
abbrev pub count_fresh : List Chars → List Chars → List ℕ → ℕ
count_fresh others hashes [] = 0
count_fresh others hashes (i ∷ is) =
    (if contains_hash (at_or_empty hashes i) others then 0 else 1) + count_fresh others hashes is

-- lines added, lines removed, and the diff blocks
pub record Summary : Type 0 where
  pub total_added : ℕ
  pub total_removed : ℕ
  pub blocks : List Chars

-- the loop over the applied edits
unfoldable pub summarize : PreparedEdits → List Chars → List AppliedEdit → Option Summary
unfolding clipped chars_eq get_diff_block
summarize prepared final_hashes [] =
    some (record { total_added = 0; total_removed = 0; blocks = [] })
summarize prepared final_hashes (applied ∷ more) =
    clipped applied.original_start_idx applied.original_end_idx prepared.original_hashes >>= λ old.
    clipped applied.start_idx applied.end_idx final_hashes >>= λ new.
    clipped_range applied.original_start_idx applied.original_end_idx prepared.original_lines
    >>= λ removed. clipped_range applied.start_idx applied.end_idx prepared.final_lines >>= λ added.
        get_diff_block prepared.original_lines prepared.original_hashes prepared.final_lines
          final_hashes applied
        >>= λ block. summarize prepared final_hashes more >>= λ rest. some (record {
          total_added = count_fresh old final_hashes added + rest.total_added;
          total_removed = count_fresh new prepared.original_hashes removed + rest.total_removed;
          blocks = block ∷ rest.blocks;
        })

-- `lines().count()`: a newline at the end starts no line
abbrev pub line_total : List Chars → ℕ
line_total [] = 0
line_total ([] ∷ []) = 0
line_total (piece ∷ pieces) = suc (line_total pieces)

abbrev pub diff_lines : List Chars → ℕ
diff_lines [] = 0
diff_lines (block ∷ blocks) = line_total (split_on 10 block) + diff_lines blocks

abbrev pub numbered : List Chars → List Chars → List Chars
numbered [] hashes = []
numbered (line ∷ lines) [] = format_line_with_hash line [] ∷ numbered lines []
numbered (line ∷ lines) (h ∷ hs) = format_line_with_hash line h ∷ numbered lines hs

abbrev pub full_file : List Chars → List Chars → Chars
full_file lines hashes =
    codes "Because the changes were extensive, the full updated file content with anchors is "
    ++ (codes "provided below to ensure clarity:\n\n"
        ++ join_texts (codes "\n") (numbered lines hashes))

abbrev pub or_nothing : Option Chars → Chars
or_nothing none = []
or_nothing (some s) = s

unfoldable pub format_failure_message : Edit → Chars → Chars
format_failure_message edit error =
    let diagnostic =
      if is_empty error
      then codes " This almost certainly is because the anchors used were incorrect or not in "
        ++ (codes "ascending order or the text supplied was incorrect. Please check again before "
            ++ codes "editing.")
      else codes " Diagnostics: " ++ error in
    codes "Edit (anchor: \""
    ++ (edit.anchor
        ++ (codes "\", end_anchor: \""
            ++ (or_nothing edit.end_anchor ++ (codes "\") failed." ++ diagnostic))))

-- `split(ANCHOR_DELIMITER).next()`
abbrev pub anchor_name : Chars → Chars
anchor_name s = elim (split_once b'|' s) [ some (name, rest) ↦ name | none ↦ s ]

-- a backslash and an `n`
unfoldable pub has_literal_newline : Chars → Bool
has_literal_newline [] = false
has_literal_newline (c ∷ []) = false
has_literal_newline (c ∷ d ∷ cs) =
    let rest = has_literal_newline (d ∷ cs) in
    if c == 92 then (if d == b'n' then true else rest) else rest

abbrev pub end_part : Option Chars → Chars
end_part none = []
end_part (some s) = codes " and ending with " ++ anchor_name s

abbrev pub literal_notes : List AppliedEdit → List Chars
literal_notes [] = []
literal_notes (a ∷ as') =
    let rest = literal_notes as' in
    let note =
      codes "Your edit starting with "
      ++ (anchor_name a.edit.anchor
          ++ (end_part a.edit.end_anchor
              ++ (codes
                    " inserted a '\\n' literal in the code because you supplied double backslash "
                  ++ (codes
                        "'\\\\n'. If you meant to add a newline char instead, update it using '\\n' in "
                      ++ codes
                          "the next call. You do not need escape characters in the text portion")))) in
    if has_literal_newline a.edit.text then note ∷ rest else rest

abbrev pub all_warnings : List ResolvedEdit → List Chars
all_warnings [] = []
all_warnings (e ∷ es) = e.warnings ++ all_warnings es

abbrev pub only_if : Bool → Chars → List Chars
only_if true s = s ∷ []
only_if false s = []

-- The texts of the report; `seventy_percent n` is `(n as f64 * FULL_FILE_FALLBACK_RATIO) as usize`.
unfoldable pub create_results_response : (ℕ → ℕ) → PreparedEdits → List Chars → Bool → Option Chars
unfolding summarize format_failure_message has_literal_newline number split_on split_once
create_results_response seventy_percent prepared final_hashes was_stringified =
    summarize prepared final_hashes prepared.applied_edits >>= λ sum.
    let final_lines = prepared.final_lines in
    let extensive = ltb (seventy_percent (length final_lines)) (diff_lines sum.blocks) in
    let use_full_file = if is_empty final_lines then false else extensive in
    let warnings = all_warnings prepared.resolved_edits in
    let failures =
      map (λ (f : FailedEdit). format_failure_message f.edit f.error) prepared.failed_edits in
    let parts =
      (if use_full_file then full_file final_lines final_hashes ∷ [] else sum.blocks)
      ++ (failures
          ++ (only_if (if is_empty warnings then false else true)
                (codes "Fuzzy anchor resolution: " ++ join_texts (codes " ") warnings)
              ++ (literal_notes prepared.applied_edits
                  ++ only_if was_stringified (
                      codes "Note: Your edit arguments were auto-corrected. Use CLI syntax: "
                      ++ codes "edit <path> --anchor <id> --content <text>.")))) in
    let failed_note =
      if is_empty prepared.failed_edits
      then []
      else codes " " ++ (number (length prepared.failed_edits) ++ codes " edit(s) failed.") in
    some (
      codes "Applied "
      ++ (number (length prepared.resolved_edits)
          ++ (codes " edit(s) successfully (+"
              ++ (number sum.total_added
                  ++ (codes ", -"
                      ++ (number sum.total_removed
                          ++ (codes " lines). NOTE the UPDATED anchors below."
                              ++ (failed_note
                                  ++ (codes "\n\n"
                                      ++ join_texts (codes "\n\n---\n\n") parts)))))))))
