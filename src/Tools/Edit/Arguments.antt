-- ===== src/Tools/Edit/Arguments.antt =====
-- The arguments of an edit: `parse_edits` of di-core/src/tools/edit_file.rs and what it calls.
use di_rac.Prelude.{
  Bool, List, [], ◌∷◌, ◌++◌, Option, none, some, ◌⊎◌, inl, inr, String, or_else, Chars, codes,
  chars_eq, if◌then◌else◌,
}
use di_rac.Tools.Edit.Apply.{EditType, Edit, replace, insert_before, insert_after}

-- JSON values, of the crate serde_json
pub record JsonValues : Type 1 where
  pub Json : Type 0
  pub get : Json → String → Option Json
  pub as_str : Json → Option Chars
  pub as_bool : Json → Option Bool
  pub as_array : Json → Option (List Json)
  -- `from_str`, with the message of its error
  pub parse_array : Chars → List Json ⊎ Chars

pub record FileEdit : Type 0 where
  pub path : Chars
  pub edits : List Edit

-- `Result<A, String>`
abbrev pub Fallible {ℓ} : Type ℓ → Type ℓ
Fallible A = A ⊎ Chars

module _ {ℓ κ} {A : Type ℓ} {B : Type κ} where
  infixl 5 ◌>>=◌
  abbrev pub ◌>>=◌ : Fallible A → (A → Fallible B) → Fallible B
  inl a >>= f = f a
  inr e >>= f = inr e

abbrev pub ok_or {ℓ} : {A : Type ℓ} → Option A → String → Fallible A
ok_or none message = inr (codes message)
ok_or (some a) message = inl a

module _ (j : JsonValues) where
  open j use {Json, get, as_str, as_bool, as_array, parse_array}

  abbrev pub get_str : Json → String → Option Chars
  get_str v key = elim (get v key) [ none ↦ none | some w ↦ as_str w ]

  -- the text under a key, or under another where the first is missing
  abbrev pub get_str_or : Json → String → String → Option Chars
  get_str_or v key other = elim (or_else (get v key) (get v other)) [
    | none ↦ none
    | some w ↦ as_str w
  ]

  abbrev pub edit_type_of : Option Chars → Fallible EditType
  edit_type_of none = inl replace
  edit_type_of (some s) =
      if chars_eq s (codes "insert_before")
      then inl insert_before
      else if chars_eq s (codes "insert_after")
      then inl insert_after
      else if chars_eq s (codes "replace")
      then inl replace
      else inr (
          codes "Unknown edit type '"
          ++ (s ++ codes "'. Must be 'replace', 'insert_before', or 'insert_after'."))

  unfoldable pub parse_edit_type : Json → Fallible EditType
  unfolding chars_eq
  parse_edit_type v = edit_type_of (get_str_or v "edit_type" "type")

  unfoldable pub auto_parse_array : Json → Fallible (List Json)
  auto_parse_array v = elim (as_array v) [
    | some vs ↦ inl vs
    | none ↦ elim (as_str v) [
      | none ↦ inr (codes "Expected array")
      | some s ↦ elim (parse_array s) [
        | inl vs ↦ inl vs
        | inr e ↦ inr (codes "Failed to parse JSON string: " ++ e)
      ]
    ]
  ]

  unfoldable pub parse_edit : Json → Fallible Edit
  unfolding parse_edit_type
  parse_edit v = do
    anchor ← ok_or (get_str v "anchor") "Missing anchor in edit"
    text ← ok_or (get_str_or v "text" "content") "Missing text/content in edit"
    edit_type ← parse_edit_type v
    inl (record {
      anchor = anchor;
      end_anchor = get_str v "end_anchor";
      edit_type = edit_type;
      text = text;
    })

  abbrev pub all_edits : List Json → Fallible (List Edit)
  all_edits [] = inl []
  all_edits (v ∷ vs) = do e ← parse_edit v; es ← all_edits vs; inl (e ∷ es)

  abbrev pub require_edits : List Json → Fallible (List Json)
  require_edits [] = inr (codes "Edits array is empty — at least one edit is required")
  require_edits (v ∷ vs) = inl (v ∷ vs)

  unfoldable pub parse_edits_array : Json → Fallible (List Edit)
  unfolding auto_parse_array parse_edit
  parse_edits_array v = do
    edits ← ok_or (get v "edits") "Missing edits array"
    found ← auto_parse_array edits
    vs ← require_edits found
    all_edits vs

  -- the first schema, with its anchor
  unfoldable pub single_edit : Json → Chars → Fallible (List FileEdit)
  unfolding parse_edit_type
  single_edit args anchor = do
    path ← ok_or (get_str_or args "path" "filePath") "Missing path argument for edit"
    text ← ok_or (get_str_or args "content" "text") "Missing content/text argument for edit"
    edit_type ← parse_edit_type args
    inl (
        record {
          path = path;
          edits =
              record {
                anchor = anchor;
                end_anchor = get_str args "end_anchor";
                edit_type = edit_type;
                text = text;
              }
              ∷ [];
        }
        ∷ [])

  -- an object with a path and edits
  unfoldable pub file_edit : String → Json → Fallible FileEdit
  unfolding parse_edits_array
  file_edit message v = do
    path ← ok_or (get_str_or v "path" "filePath") message
    edits ← parse_edits_array v
    inl (record { path = path; edits = edits })

  abbrev pub all_files : List Json → Fallible (List FileEdit)
  all_files [] = inl []
  all_files (v ∷ vs) = do
    f ← file_edit "Missing path in files array" v
    fs ← all_files vs
    inl (f ∷ fs)

  unfoldable pub parse_edits : Json → Fallible (List FileEdit)
  unfolding single_edit auto_parse_array file_edit
  parse_edits args = elim (get_str args "anchor") [
    | some anchor ↦ single_edit args anchor
    | none ↦ elim (get args "files") [
      | some files ↦ auto_parse_array files >>= all_files
      | none ↦ file_edit "Missing path argument for edit" args >>= λ f. inl (f ∷ [])
    ]
  ]
