-- ===== src/Tools/Edit/Handler.antt =====
-- The handler of an edit: `edit_file` of di-core/src/tools/edit_file.rs.
use di_rac.Prelude.{
  ℕ, Bool, false, not, ◌&&◌, List, [], ◌∷◌, ◌++◌, map, Option, none, some, ◌⊎◌, inl, inr, String,
  is_empty, Chars, codes, chars_eq, unix_lines, split_on, join_with, join_texts, unwrap_or,
  if◌then◌else◌,
}
use di_rac.Tools.Edit.Apply.{AppliedEdit, ResolvedEdit, apply_edits}
use di_rac.Tools.Edit.Arguments.{Fallible, JsonValues, FileEdit, get_str, parse_edits}
use di_rac.Tools.Edit.Report.{create_results_response, format_failure_message}
use di_rac.Tools.Edit.Resolve.{Matching, FailedEdit, resolve_edits}
use di_rac.Tools.Response.{
  ToolErrorCode, missing_argument, io_file_not_found, anchor_not_found, patch_apply_failed,
}
use di_rac.Util.Anchors.{new_index, FileAnchorIndex}

-- the files, by their paths; the newest entry of a path is its content
abbrev pub Files : Type 0
Files = List (Chars × Chars)

unfoldable pub read_file : Chars → Files → Option Chars
unfolding chars_eq
read_file path [] = none
read_file path ((p, content) ∷ files) =
    if chars_eq p path then some content else read_file path files

-- how the write of a file through a temporary one ends, with the message of the error
pub data Written : Type 0 where
  renamed : Written
  not_created not_written not_renamed : Chars → Written

-- What the handler takes from outside: the errors of reads, the ends of writes, a path resolved
-- against a directory unless it is absolute, and the arithmetic of the report.
pub record Outside : Type 0 where
  pub read_error : Chars → Chars
  pub write_end : Chars → Written
  pub joined : Chars → Chars → Chars
  pub seventy_percent : ℕ → ℕ
  pub blake3 : List ℕ → List ℕ

-- the paths and reports of the files with the combined result, or an error
pub data EditOutcome : Type 0 where
  succeeded : List (Chars × Chars) → Chars → EditOutcome
  rejected : ToolErrorCode → Chars → EditOutcome
  panicked : EditOutcome

-- the report of a file and the files, or how the handler ends
pub data FileResult : Type 0 where
  next : Chars → Files → FileResult
  ends : EditOutcome → Files → FileResult

unfoldable pub success : List (Chars × Chars) → EditOutcome
success ((path, report) ∷ []) = succeeded ((path, report) ∷ []) report
success results =
    succeeded results (join_texts (codes "\n\n") (map (λ (path, report). report) results))

abbrev pub failed_to : String → Chars → Chars → Chars
failed_to what path e = codes what ++ (path ++ (codes ": " ++ e))

abbrev pub write_error : Chars → Written → Option Chars
write_error path renamed = none
write_error path (not_created e) = some (failed_to "Failed to create temp file for " path e)
write_error path (not_written e) = some (failed_to "Failed to write " path e)
write_error path (not_renamed e) = some (failed_to "Failed to rename temp file for " path e)

module _ (m : Matching) (o : Outside) (dry_run was_stringified : Bool) where
  -- a file after its write, or the error
  unfoldable pub write_file : Chars → Chars → Files → Files ⊎ Chars
  write_file path content files =
      if dry_run then inl files else elim (write_error path (o.write_end path)) [
        | none ↦ inl ((path, content) ∷ files)
        | some e ↦ inr e
      ]

  abbrev pub reported : Option Chars → Files → FileResult
  reported none files = ends panicked files
  reported (some report) files = next report files

  -- after the write, with the lines written
  abbrev pub after_write :
      List Chars
      → FileAnchorIndex
      → List ResolvedEdit
      → List FailedEdit
      → List Chars
      → List AppliedEdit
      → Files ⊎ Chars
      → Files
      → FileResult
  after_write lines index resolved failed final_lines applied (inr e) files =
      ends (rejected patch_apply_failed e) files
  after_write lines index resolved failed final_lines applied (inl written) files =
      reported
        (create_results_response o.seventy_percent
          (record {
            original_lines = lines;
            original_hashes = index.hash_by_line;
            resolved_edits = resolved;
            failed_edits = failed;
            applied_edits = applied;
            final_lines = final_lines;
          })
          (new_index o.blake3 final_lines).hash_by_line was_stringified)
        written

  -- after the application
  unfoldable pub after_apply :
      Chars
      → List Chars
      → FileAnchorIndex
      → List ResolvedEdit
      → List FailedEdit
      → Option (List Chars × List AppliedEdit)
      → Files
      → FileResult
  unfolding write_file create_results_response new_index join_with
  after_apply path lines index resolved failed none files = ends panicked files
  after_apply path lines index resolved failed (some (final_lines, applied)) files =
      after_write lines index resolved failed final_lines applied
        (write_file path (join_with 10 final_lines) files) files

  abbrev pub failure_messages : List FailedEdit → Chars
  failure_messages failed =
      join_texts (codes "\n\n")
        (map (λ (f : FailedEdit). format_failure_message f.edit f.error) failed)

  -- after the resolution
  abbrev pub resolved_file :
      Chars
      → List Chars
      → FileAnchorIndex
      → List ResolvedEdit × List FailedEdit
      → Files
      → FileResult
  resolved_file path lines index (resolved, failed) files =
      if is_empty resolved && not (is_empty failed)
      then ends (rejected anchor_not_found (failure_messages failed)) files
      else after_apply path lines index resolved failed (apply_edits lines resolved) files

  -- after the read
  unfoldable pub after_read : FileEdit → Option Chars → Files → FileResult
  unfolding unix_lines split_on new_index resolve_edits apply_edits after_apply
      format_failure_message
  after_read fe none files =
      ends (rejected io_file_not_found (failed_to "Failed to read " fe.path (o.read_error fe.path)))
        files
  after_read fe (some content) files =
      let lines = split_on 10 (unix_lines content) in
      let index = new_index o.blake3 lines in
      resolved_file fe.path lines index (resolve_edits m fe.edits index fe.path) files

  unfoldable pub edit_one : FileEdit → Files → FileResult
  unfolding read_file after_read
  edit_one fe files = after_read fe (read_file fe.path files) files

  -- the loop over the files
  unfoldable pub edit_all : List FileEdit → List (Chars × Chars) → Files → EditOutcome × Files
  unfolding edit_one success
  edit_all [] results files = (success results, files)
  edit_all (fe ∷ more) results files = elim (edit_one fe files) [
    | ends outcome files' ↦ (outcome, files')
    | next report files' ↦ edit_all more (results ++ (fe.path, report) ∷ []) files'
  ]

-- the flags of a call
abbrev pub flag_of : (j : JsonValues) → j.Json → String → Bool
flag_of j args key = elim (j.get args key) [ none ↦ false | some v ↦ unwrap_or (j.as_bool v) false ]

abbrev pub in_cwd : Outside → Chars → FileEdit → FileEdit
in_cwd o cwd fe = if is_empty cwd then fe else record fe { path = o.joined cwd fe.path }

-- after the parse of the arguments
unfoldable pub after_parse :
    (j : JsonValues)
    → Matching
    → Outside
    → j.Json
    → Fallible (List FileEdit)
    → Files
    → EditOutcome × Files
unfolding edit_all
after_parse j m o args (inr e) files = (rejected missing_argument e, files)
after_parse j m o args (inl file_edits) files =
    let cwd = unwrap_or (get_str j args "_cwd") [] in
    edit_all m o (flag_of j args "dry_run") (flag_of j args "_was_stringified")
      (map (in_cwd o cwd) file_edits) [] files

unfoldable pub edit_file :
    (j : JsonValues) → Matching → Outside → j.Json → Files → EditOutcome × Files
unfolding parse_edits after_parse
edit_file j m o args files = after_parse j m o args (parse_edits j args) files
