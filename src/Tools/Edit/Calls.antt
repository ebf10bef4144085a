-- ===== src/Tools/Edit/Calls.antt =====
-- Calls of the edit tool (di-core/src/tools/edit_file.rs) with concrete arguments and files.
use di_rac.Prelude.{
  Bool, true, List, [], ◌∷◌, ◌++◌, Option, none, some, ◌≡◌, refl, inr, String, Chars, codes,
  chars_eq, if◌then◌else◌,
}
use di_rac.Tools.Edit.Apply.{replace}
use di_rac.Tools.Edit.Arguments.{JsonValues, FileEdit}
use di_rac.Tools.Edit.DryRun.{dry_run_keeps_files}
use di_rac.Tools.Edit.Handler.{Files, Outside, renamed, edit_file}
use di_rac.Tools.Edit.Tests.{hundredths, digest}

-- JSON values: the fields of an object and the items of an array are written one after the other.
data Value : Type 0 where
  empty : Value
  field : String → Value → Value → Value
  item : Value → Value → Value
  flag : Bool → Value
  text : Chars → Value

field_of : Value → String → Option Value
unfolding chars_eq
field_of (field name v more) key =
    let rest = field_of more key in if chars_eq (codes name) (codes key) then some v else rest
field_of empty key = none
field_of (item v more) key = none
field_of (flag b) key = none
field_of (text s) key = none

text_in : Value → Option Chars
text_in (text s) = some s
text_in empty = none
text_in (field name v more) = none
text_in (item v more) = none
text_in (flag b) = none

flag_in : Value → Option Bool
flag_in (flag b) = some b
flag_in empty = none
flag_in (field name v more) = none
flag_in (item v more) = none
flag_in (text s) = none

items_in : Value → Option (List Value)
items_in empty = some []
items_in (item v more) = elim (items_in more) [ none ↦ none | some vs ↦ some (v ∷ vs) ]
items_in (field name v more) = none
items_in (flag b) = none
items_in (text s) = none

abbrev values : JsonValues
values = record {
  Json = Value;
  get = field_of;
  as_str = text_in;
  as_bool = flag_in;
  as_array = items_in;
  parse_array = λ s. inr (codes "expected value");
}

abbrev outside : Outside
outside = record {
  read_error = λ path. codes "No such file or directory (os error 2)";
  write_end = λ path. renamed;
  joined = λ cwd path. cwd ++ (codes "/" ++ path);
  seventy_percent = λ n. n;
  blake3 = digest;
}

abbrev one_file : Files
one_file = (codes "a.rs", codes "one\ntwo") ∷ []

abbrev dry_call : Value
dry_call = field "anchor" (text (codes "003_0")) (
    field "path" (text (codes "a.rs"))
      (field "content" (text (codes "ONE")) (field "dry_run" (flag true) empty)))

dry_run_keeps_files_example : (edit_file values hundredths outside dry_call one_file).1 ≡ one_file
unfolding chars_eq field_of flag_in
dry_run_keeps_files_example = dry_run_keeps_files values hundredths outside dry_call one_file refl

abbrev emptied : FileEdit
emptied = record {
  path = codes "b.rs";
  edits =
      record {
        anchor = codes "003";
        end_anchor = some (codes "003");
        edit_type = replace;
        text = [];
      }
      ∷ [];
}
