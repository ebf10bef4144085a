-- ===== src/Tools/Edit/Emptied.antt =====
-- Edits that leave no line (di-core/src/tools/edit_file.rs): the report panics after the write.
use di_rac.Prelude.{ℕ, List, [], ◌∷◌, none, ◌≡◌, refl, Chars}
use di_rac.Tools.Edit.Apply.{
  ResolvedEdit, AppliedEdit, replace, replacement_lines, change_of, applied_edit,
}
use di_rac.Tools.Edit.Overlap.{edit_of}
use di_rac.Tools.Edit.Report.{clipped}

-- what is needed of an empty file has no last index
clipped-nil : (start end : ℕ) → clipped {A = Chars} start end [] ≡ none
unfolding clipped
clipped-nil start end = refl

module _ (j : ℕ) (anchor t : Chars) (nothing : replacement_lines t ≡ []) where
  abbrev all_lines : ResolvedEdit
  all_lines = edit_of 0 j anchor replace t

  abbrev all_applied : List AppliedEdit
  all_applied = applied_edit (change_of all_lines ∷ []) (change_of all_lines) ∷ []
