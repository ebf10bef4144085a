-- ===== src/Tools/Edit/Tests.antt =====
-- Edits (di-core/src/tools/edit_file.rs, di-core/src/util.rs) at concrete files.
use di_rac.Prelude.{
  ℕ, ◌-◌, ◌*◌, ◌/◌, ◌≤◌, ◌<◌, List, [], ◌∷◌, ◌++◌, none, some, ◌≡◌, refl, arith, ltb, leb, length,
  take, drop, All, Chars, codes,
}
use di_rac.Tools.Edit.Apply.{
  Edit, ResolvedEdit, AppliedEdit, replace, insert_before, insert_after, replacement_lines,
  apply_edits,
}
use di_rac.Tools.Edit.Distance.{Leads, levenshtein, levenshtein-least}
use di_rac.Tools.Edit.InFile.{resolve_edits-IsInFile}
use di_rac.Tools.Edit.Overlap.{edit_of, same_line_misplaced}
use di_rac.Tools.Edit.Resolve.{Matching, resolve_edits}
use di_rac.Util.Anchors.{new_index, get_hash, get_line_idx}
use di_rac.Util.Anchors.Distinct.{get_line_idx-get_hash}

abbrev three : List Chars
three = codes "one" ∷ codes "two" ∷ codes "three" ∷ []

-- a line after the first, and another for the last
abbrev apart : List ResolvedEdit
apart =
    edit_of 0 0 (codes "a") insert_after (codes "x")
    ∷ edit_of 2 2 (codes "c") replace (codes "y\nz")
    ∷ []

levenshtein-least_example :
    Leads (codes "kitten") (codes "sitting") (levenshtein (codes "kitten") (codes "sitting"))
    × ((n : ℕ)
        → Leads (codes "kitten") (codes "sitting") n
        → levenshtein (codes "kitten") (codes "sitting") ≤ n)
levenshtein-least_example = levenshtein-least (codes "kitten") (codes "sitting")

kitten : levenshtein (codes "kitten") (codes "sitting") ≡ 3
unfolding levenshtein
kitten = refl

-- a digest that starts with the length
abbrev pub digest : List ℕ → List ℕ
digest bytes = 0 ∷ 0 ∷ 0 ∷ length bytes ∷ []

get_line_idx-get_hash_example :
    get_line_idx (new_index digest three) (get_hash (new_index digest three) 1) ≡ some 1
get_line_idx-get_hash_example = get_line_idx-get_hash digest three 1 (omega arith)

-- scores in hundredths
abbrev pub hundredths : Matching
hundredths = record {
  Score = ℕ;
  perfect = 100;
  score_of = λ d n. 100 - 100 * d / n;
  greater = λ a b. ltb b a;
  suggests = λ s. leb 70 s;
  resolves = λ s. leb 90 s;
  percent = λ s. s;
  strip_gutter = λ s. none;
  strip_echo = λ s. s;
  to_lowercase = λ s. s;
}

abbrev wanted : List Edit
wanted =
    record {
      anchor = codes "003_0|one";
      end_anchor = some (codes "005");
      edit_type = replace;
      text = codes "z";
    }
    ∷ []

resolve_edits-IsInFile_example :
    All
      (λ e. (e.line_idx ≤ e.end_idx) × (e.end_idx < length three))
      (resolve_edits hundredths wanted (new_index digest three) (codes "a.rs")).0
resolve_edits-IsInFile_example =
    resolve_edits-IsInFile hundredths digest three wanted (codes "a.rs")

same_line_misplaced_example :
    (applied : List AppliedEdit) × (apply_edits three (
        edit_of 1 1 (codes "b") insert_before (codes "x")
        ∷ edit_of 1 1 (codes "b") replace (codes "y")
        ∷ [])
      ≡ some (take 1 three ++ (replacement_lines (codes "y") ++ ([] ++ drop 1 three)), applied))
unfolding replacement_lines
same_line_misplaced_example =
    same_line_misplaced three 1 (codes "b") (codes "x") (codes "y") (codes "x") [] (omega arith)
      refl
