-- ===== src/Tools/Edit/DryRun.antt =====
-- A dry run of the edit tool (di-core/src/tools/edit_file.rs) and the files.
use di_rac.Prelude.{
  Bool, true, List, [], ◌∷◌, ◌++◌, Option, none, some, ◌≡◌, ◌∙◌, refl, arith, inl, inr, Chars,
  split_on, unix_lines,
}
use di_rac.Tools.Edit.Apply.{AppliedEdit, ResolvedEdit, apply_edits}
use di_rac.Tools.Edit.Arguments.{Fallible, JsonValues, FileEdit, parse_edits}
use di_rac.Tools.Edit.Handler.{
  Files, Outside, EditOutcome, FileResult, next, ends, read_file, write_file, reported, after_apply,
  after_read, resolved_file, edit_one, edit_all, edit_file, after_parse, flag_of,
}
use di_rac.Tools.Edit.Resolve.{Matching, FailedEdit, resolve_edits}
use di_rac.Util.Anchors.{new_index, FileAnchorIndex}

-- the files after one of them is done
abbrev files_after : FileResult → Files
files_after (next report files) = files
files_after (ends outcome files) = files

module _ (m : Matching) (o : Outside) (was_stringified : Bool) where
  reported_keeps :
      (report : Option Chars) (files : Files)
      → files_after (reported m o true was_stringified report files) ≡ files
  reported_keeps none files = refl
  reported_keeps (some report) files = refl

  after_apply_keeps :
      (path : Chars) (lines : List Chars) (index : FileAnchorIndex) (resolved : List ResolvedEdit)
      (failed : List FailedEdit) (applied : Option (List Chars × List AppliedEdit)) (files : Files)
      → files_after
          (after_apply m o true was_stringified path lines index resolved failed applied files)
        ≡ files
  unfolding after_apply write_file
  after_apply_keeps path lines index resolved failed none files = refl
  after_apply_keeps path lines index resolved failed (some (final_lines, applied)) files =
      reported_keeps _ files

  resolved_file_keeps :
      (path : Chars) (lines : List Chars) (index : FileAnchorIndex)
      (found : List ResolvedEdit × List FailedEdit) (files : Files)
      → files_after (resolved_file m o true was_stringified path lines index found files) ≡ files
  resolved_file_keeps path lines index (resolved, failed) files =
      ground (
        arith,
        after_apply_keeps path lines index resolved failed (apply_edits lines resolved) files,
      )

  after_read_keeps :
      (fe : FileEdit) (content : Option Chars) (files : Files)
      → files_after (after_read m o true was_stringified fe content files) ≡ files
  unfolding after_read
  after_read_keeps fe none files = refl
  after_read_keeps fe (some content) files =
      let lines = split_on 10 (unix_lines content) in
      let index = new_index o.blake3 lines in
      resolved_file_keeps fe.path lines index (resolve_edits m fe.edits index fe.path) files

  edit_all_keeps :
      (fes : List FileEdit) (results : List (Chars × Chars)) (files : Files)
      → (edit_all m o true was_stringified fes results files).1 ≡ files
  unfolding edit_all edit_one
  edit_all_keeps [] results files = refl
  edit_all_keeps (fe ∷ fes) results files =
      go (edit_one m o true was_stringified fe files)
        (after_read_keeps fe (read_file fe.path files) files)
        (λ results' files'. edit_all_keeps fes results' files')
    where
      go :
          (r : FileResult)
          → files_after r ≡ files
          → ((results' : List (Chars × Chars)) (files' : Files)
              → (edit_all m o true was_stringified fes results' files').1 ≡ files')
          → (elim r as (λ _. EditOutcome × Files) [
            | ends outcome files' ↦ (outcome, files')
            | next report files' ↦
                edit_all m o true was_stringified fes (results ++ (fe.path, report) ∷ []) files'
          ]).1
            ≡ files
      go (ends outcome files') h more = h
      go (next report files') h more = more _ files' ∙ h

after_parse_keeps :
    (j : JsonValues) (m : Matching) (o : Outside) (args : j.Json)
    (parsed : Fallible (List FileEdit)) (files : Files)
    → flag_of j args "dry_run" ≡ true
    → (after_parse j m o args parsed files).1 ≡ files
unfolding after_parse
after_parse_keeps j m o args (inr e) files h = refl
after_parse_keeps j m o args (inl file_edits) files h = rw h (edit_all_keeps m o _ _ [] files)

-- A call with the flag of a dry run leaves every file as it is, however it ends.
pub dry_run_keeps_files :
    (j : JsonValues) (m : Matching) (o : Outside) (args : j.Json) (files : Files)
    → flag_of j args "dry_run" ≡ true
    → (edit_file j m o args files).1 ≡ files
unfolding edit_file
dry_run_keeps_files j m o args files h = after_parse_keeps j m o args (parse_edits j args) files h
