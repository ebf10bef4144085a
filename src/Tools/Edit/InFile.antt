-- ===== src/Tools/Edit/InFile.antt =====
-- The edits that are resolved (di-core/src/tools/edit_file.rs) stand in the file.
use di_rac.Prelude.{
  ℕ, zero, suc, ◌+◌, ◌-◌, ◌≤◌, ◌<◌, min, Bool, ◌||◌, List, [], ◌∷◌, ◌++◌, Option, none, some, ◌≡◌,
  refl, ap, ◌∙◌, arith, ◌==◌, ltb, length, All, All-append, inl, inr, Bool-cases, any, is_empty,
  Chars, chars_eq, map, codes, trim_start,
}
use di_rac.Tools.Edit.Apply.{EditType, Edit, ResolvedEdit, replace, insert_before, insert_after}
use di_rac.Tools.Edit.Resolve.{
  Matching, AnchorResolution, compared_as, better, best_match, if_suggested, fuzzy_match_content,
  by_match, check_content, at_hash, resolve_parts, as_list, is_whitespace_sensitive,
  parse_anchor_from_line, resolve_anchor, resolve_end, range_error, outcome, resolve_edit,
  resolve_all, resolve_edits,
}
use di_rac.Util.Anchors.{
  FileAnchorIndex, get_line_idx, get_line, line_count, find_line, enter, final_hashes, raw_hashes,
  new_index,
}

-- every entry of the map stands below `n`
abbrev AreBelow : ℕ → List (Chars × ℕ) → Type 0
AreBelow n = All (λ e. e.1 < n)

enter-AreBelow :
    (n i : ℕ) (hs : List Chars) (entries : List (Chars × ℕ))
    → i + length hs ≤ n
    → AreBelow n entries
    → AreBelow n (enter i hs entries)
unfolding enter
enter-AreBelow n i [] entries h below = below
enter-AreBelow n i (k ∷ hs) entries h below =
    enter-AreBelow n (suc i) hs ((k, i) ∷ entries) (omega (arith, h)) (omega (arith, h), below)

-- a line, if there is one, is below `n`
abbrev pub IsBelow : ℕ → Option ℕ → Type 0
IsBelow n none = Unit
IsBelow n (some i) = i < n

find_line-IsBelow :
    (n : ℕ) (h : Chars) (entries : List (Chars × ℕ))
    → AreBelow n entries
    → IsBelow n (find_line h entries)
unfolding find_line
find_line-IsBelow n h [] below = tt
find_line-IsBelow n h (e ∷ entries) below = elim (Bool-cases (chars_eq e.0 h)) [
  | inl found ↦ rw found (below.0)
  | inr other ↦ rw other (find_line-IsBelow n h entries below.1)
]

length-final_hashes :
    (everything before raws : List Chars)
    → length (final_hashes everything before raws) ≡ length raws
unfolding final_hashes
length-final_hashes everything before [] = refl
length-final_hashes everything before (r ∷ raws) =
    ap suc (length-final_hashes everything (r ∷ before) raws)

-- what the resolution needs of an index
pub record IsIndex (index : FileAnchorIndex) : Type 0 where
  pub finds : (h : Chars) → IsBelow (line_count index) (get_line_idx index h)
  pub counts : line_count index ≡ length index.lines

length-map {ℓ κ} :
    {A : Type ℓ} {B : Type κ} (f : A → B) (xs : List A) → length (map f xs) ≡ length xs
length-map f [] = refl
length-map f (x ∷ xs) = ap suc (length-map f xs)

pub new_index-IsIndex :
    (blake3 : List ℕ → List ℕ) (lines : List Chars) → IsIndex (new_index blake3 lines)
unfolding new_index get_line_idx
new_index-IsIndex blake3 lines =
    let raws = raw_hashes blake3 lines in
    let hashes = final_hashes raws [] raws in
    record {
      finds = λ h.
          find_line-IsBelow (length hashes) h (enter 0 hashes [])
            (enter-AreBelow (length hashes) 0 hashes [] (omega arith) tt);
      counts = length-final_hashes raws [] raws ∙ length-map _ lines;
    }

module _ (m : Matching) (index : FileAnchorIndex) (ok : IsIndex index) where
  abbrev MatchBelow : ℕ → Option (ℕ × m.Score) → Type 0
  MatchBelow n none = Unit
  MatchBelow n (some (i, score)) = i < n

  better-MatchBelow :
      (n : ℕ) (best : Option (ℕ × m.Score)) (i : ℕ) (score : m.Score)
      → i < n
      → MatchBelow n best
      → MatchBelow n (better m best i score)
  better-MatchBelow n none i score h below = h
  better-MatchBelow n (some (j, best)) i score h below = elim (Bool-cases (m.greater score best)) [
    | inl more ↦ rw more h
    | inr less ↦ rw less below
  ]

  best_match-MatchBelow :
      (n : ℕ) (provided : Chars) (sensitive : Bool) (i lines : ℕ) (best : Option (ℕ × m.Score))
      → i + lines ≤ n
      → MatchBelow n best
      → MatchBelow n (best_match m provided index sensitive i lines best)
  unfolding best_match
  best_match-MatchBelow n provided sensitive i zero best h below = below
  best_match-MatchBelow n provided sensitive i (suc lines) best h below =
      best_match-MatchBelow n provided sensitive (suc i) lines _ (omega (arith, h))
        (better-MatchBelow n best i _ (omega (arith, h)) below)

  if_suggested-MatchBelow :
      (n : ℕ) (best : Option (ℕ × m.Score)) → MatchBelow n best → MatchBelow n (if_suggested m best)
  if_suggested-MatchBelow n none below = tt
  if_suggested-MatchBelow n (some (i, score)) below = elim (Bool-cases (m.suggests score)) [
    | inl good ↦ rw good below
    | inr bad ↦ rw bad tt
  ]

  fuzzy-MatchBelow :
      (provided : Chars) (line : ℕ) (sensitive : Bool)
      → line < line_count index
      → MatchBelow (line_count index) (fuzzy_match_content m provided line index sensitive)
  unfolding fuzzy_match_content
  fuzzy-MatchBelow provided line sensitive h =
      let end_line = min (line + 5) (line_count index - 1) in
      if_suggested-MatchBelow (line_count index) _ (
        best_match-MatchBelow (line_count index) provided sensitive (line - 5)
          (end_line + 1 - (line - 5)) none (omega (arith, h)) tt)

  by_match-IsBelow :
      (n : ℕ) (hash : Chars) (line : ℕ) (best : Option (ℕ × m.Score))
      → MatchBelow n best
      → IsBelow n (by_match m hash line index best).line_idx
  by_match-IsBelow n hash line none below = tt
  by_match-IsBelow n hash line (some (i, score)) below = elim (Bool-cases (m.resolves score)) [
    | inl sure ↦ rw sure below
    | inr unsure ↦ elim (Bool-cases (m.suggests score)) [
      | inl good ↦ rw (unsure, good) tt
      | inr bad ↦ rw (unsure, bad) tt
    ]
  ]

  check_content-IsBelow :
      (kind hash provided : Chars) (line : ℕ) (sensitive : Bool)
      → line < line_count index
      → IsBelow
          (line_count index)
          (check_content m kind hash provided line index sensitive).line_idx
  unfolding check_content
  check_content-IsBelow kind hash provided line sensitive h =
      elim (Bool-cases (is_empty provided)) [
        | inl bare ↦ rw bare h
        | inr given ↦ elim (Bool-cases (any (λ c. c == 10 || c == 13) provided)) [
          | inl broken ↦ rw (given, broken) tt
          | inr whole ↦
              elim (Bool-cases (
                chars_eq (compared_as m sensitive provided)
                  (compared_as m sensitive (get_line index line)))) [
                    | inl same ↦ rw (given, whole, same) h
                    | inr other ↦
                        rw (given, whole, other)
                          (by_match-IsBelow (line_count index) hash line _
                            (fuzzy-MatchBelow provided line sensitive h))
                  ]
        ]
      ]

  at_hash-IsBelow :
      (kind hash content : Chars) (sensitive : Bool) (o : Option ℕ)
      → IsBelow (line_count index) o
      → IsBelow (line_count index) (at_hash m kind hash content index sensitive o).line_idx
  at_hash-IsBelow kind hash content sensitive none h = tt
  at_hash-IsBelow kind hash content sensitive (some line) h =
      check_content-IsBelow kind hash (m.strip_echo content) line sensitive h

  resolve_parts-IsBelow :
      (kind : Chars) (sensitive : Bool) (parts : Option (Chars × Chars))
      → IsBelow (line_count index) (resolve_parts m kind index sensitive parts).line_idx
  resolve_parts-IsBelow kind sensitive none = tt
  resolve_parts-IsBelow kind sensitive (some (hash, content)) =
      at_hash-IsBelow kind hash content sensitive (get_line_idx index hash) (ok.finds hash)

  resolve_anchor-IsBelow :
      (kind : Chars) (raw : Option Chars) (sensitive : Bool)
      → IsBelow (line_count index) (resolve_anchor m kind raw index sensitive).line_idx
  unfolding resolve_anchor
  resolve_anchor-IsBelow kind none sensitive = tt
  resolve_anchor-IsBelow kind (some raw) sensitive = elim (Bool-cases (is_empty (trim_start raw))) [
    | inl blank ↦ rw blank tt
    | inr text ↦ rw text (resolve_parts-IsBelow kind sensitive (parse_anchor_from_line m raw))
  ]

  -- a resolved edit's range is in the file, and is not reversed
  abbrev pub IsInFile : ResolvedEdit → Type 0
  IsInFile e = (e.line_idx ≤ e.end_idx) × (e.end_idx < length index.lines)

  outcome-IsInFile :
      (edit : Edit) (ds warnings : List Chars) (start end : Option ℕ)
      → IsBelow (line_count index) end
      → All IsInFile (outcome m edit (ds ++ range_error m start end) warnings start end).0
  outcome-IsInFile edit (d ∷ ds) warnings start end h = tt
  outcome-IsInFile edit [] warnings none none h = tt
  outcome-IsInFile edit [] warnings none (some end) h = tt
  outcome-IsInFile edit [] warnings (some start) none h = tt
  outcome-IsInFile edit [] warnings (some start) (some end) h = elim (Bool-cases (ltb end start)) [
    | inl back ↦ rw back tt
    | inr forward ↦ rw forward ((ground (arith, forward), omega (arith, h, ok.counts)), tt)
  ]

  resolve_end-IsBelow :
      (kind : EditType) (edit : Edit) (start : AnchorResolution) (sensitive : Bool)
      → IsBelow (line_count index) start.line_idx
      → IsBelow (line_count index) (resolve_end m kind edit start index sensitive).line_idx
  resolve_end-IsBelow replace edit start sensitive h =
      resolve_anchor-IsBelow (codes "end_anchor") edit.end_anchor sensitive
  resolve_end-IsBelow insert_before edit start sensitive h = h
  resolve_end-IsBelow insert_after edit start sensitive h = h

  resolve_edit-IsInFile :
      (edit : Edit) (sensitive : Bool) → All IsInFile (resolve_edit m edit index sensitive).0
  unfolding resolve_edit
  resolve_edit-IsInFile edit sensitive =
      let start = resolve_anchor m (codes "anchor") (some edit.anchor) index sensitive in
      let end = resolve_end m edit.edit_type edit start index sensitive in
      outcome-IsInFile edit (as_list m start.error ++ as_list m end.error) _ start.line_idx
        end.line_idx
        (resolve_end-IsBelow edit.edit_type edit start sensitive
          (resolve_anchor-IsBelow (codes "anchor") (some edit.anchor) sensitive))

  resolve_all-IsInFile :
      (edits : List Edit) (sensitive : Bool) → All IsInFile (resolve_all m edits index sensitive).0
  unfolding resolve_all
  resolve_all-IsInFile [] sensitive = tt
  resolve_all-IsInFile (e ∷ es) sensitive =
      All-append IsInFile (resolve_edit m e index sensitive).0 (resolve_all m es index sensitive).0
        (resolve_edit-IsInFile e sensitive) (resolve_all-IsInFile es sensitive)

-- Whatever the edits, every one that is resolved against the index of a file has a range that is not
-- reversed and ends in the file.
pub resolve_edits-IsInFile :
    (m : Matching) (blake3 : List ℕ → List ℕ) (lines : List Chars) (edits : List Edit)
    (path : Chars)
    → All
        (λ e. (e.line_idx ≤ e.end_idx) × (e.end_idx < length lines))
        (resolve_edits m edits (new_index blake3 lines) path).0
unfolding resolve_edits new_index
resolve_edits-IsInFile m blake3 lines edits path =
    resolve_all-IsInFile m (new_index blake3 lines) (new_index-IsIndex blake3 lines) edits
      (is_whitespace_sensitive m path)
