-- ===== src/Tools/Edit/Overlap.antt =====
-- Edits that touch (di-core/src/tools/edit_file.rs): nothing keeps them apart.
use di_rac.Prelude.{
  ℕ, ◌<◌, List, [], ◌∷◌, ◌++◌, Option, some, ◌≡◌, refl, sym, ap, ◌∙◌, arith, length, take, drop,
  map, subst, ◌>>=◌, Chars,
}
use di_rac.Tools.Edit.Apply.{
  EditType, ResolvedEdit, AppliedEdit, replace, insert_before, replacement_lines, bottom_to_top,
  apply_one, apply_sorted, change_of, applied_edit, apply_edits,
}
use di_rac.Tools.Edit.Patch.{cut, take-append_length, drop-append_length, apply_one_middle}

-- an edit of the lines from `i` to `j`
abbrev pub edit_of : ℕ → ℕ → Chars → EditType → Chars → ResolvedEdit
edit_of i j anchor kind text = record {
  line_idx = i;
  end_idx = j;
  edit = record { anchor = anchor; end_anchor = some anchor; edit_type = kind; text = text };
  warnings = [];
}

-- what `apply_edits` makes of the lines after the sorted edits
abbrev pub finish : List ResolvedEdit → Option (List Chars) → Option (List Chars × List AppliedEdit)
finish sorted o =
    let changes = map change_of sorted in
    o >>= λ new_lines. some (new_lines, map (applied_edit changes) changes)

pub apply_edits-finish :
    (lines : List Chars) (edits sorted : List ResolvedEdit) (o : Option (List Chars))
    → bottom_to_top edits ≡ sorted
    → apply_sorted sorted lines ≡ o
    → apply_edits lines edits ≡ finish sorted o
unfolding apply_edits
apply_edits-finish lines edits sorted o e f =
    ap (λ (s : List ResolvedEdit). finish s (apply_sorted s lines)) e ∙ ap (finish sorted) f

module _ (i : ℕ) (anchor t r : Chars) where
  abbrev two : List ResolvedEdit
  two = edit_of i i anchor insert_before t ∷ edit_of i i anchor replace r ∷ []

  keeps_order : bottom_to_top two ≡ two
  unfolding bottom_to_top
  keeps_order = ground arith

  insert_first :
      (front back : List Chars)
      → length front ≡ i
      → apply_one (edit_of i i anchor insert_before t) (front ++ back)
        ≡ some (front ++ (replacement_lines t ++ back))
  insert_first front back h =
      apply_one_middle (edit_of i i anchor insert_before t) front [] back refl h refl

  replace_next :
      (front back : List Chars) (s : Chars)
      → length front ≡ i
      → apply_one (edit_of i i anchor replace r) (front ++ (s ∷ back))
        ≡ some (front ++ (replacement_lines r ++ back))
  replace_next front back s h =
      apply_one_middle (edit_of i i anchor replace r) front (s ∷ []) back (ground arith) h
        (omega arith)

  both :
      (front back : List Chars) (s : Chars) (ss : List Chars)
      → length front ≡ i
      → replacement_lines t ≡ s ∷ ss
      → apply_sorted two (front ++ back) ≡ some (front ++ (replacement_lines r ++ (ss ++ back)))
  unfolding apply_sorted
  both front back s ss h new =
      rw (insert_first front back h, new, replace_next front (ss ++ back) s h)

  both_in :
      (front back : List Chars) (s : Chars) (ss : List Chars)
      → length front ≡ i
      → replacement_lines t ≡ s ∷ ss
      → apply_sorted two (front ++ back)
        ≡ some (take i (front ++ back) ++ (replacement_lines r ++ (ss ++ drop i (front ++ back))))
  both_in front back s ss h new =
      let before : take i (front ++ back) ≡ front = rw (← h) (take-append_length front back) in
      let after : drop i (front ++ back) ≡ back = rw (← h) (drop-append_length front back) in
      rw (before, after) (both front back s ss h new)

-- Where a line is given an insertion before it and then a replacement, the replacement takes out the
-- first inserted line, and the line itself stays.
pub same_line_misplaced :
    (lines : List Chars) (i : ℕ) (anchor t r s : Chars) (ss : List Chars)
    → i < length lines
    → replacement_lines t ≡ s ∷ ss
    → (applied : List AppliedEdit) × (apply_edits lines
          (edit_of i i anchor insert_before t ∷ edit_of i i anchor replace r ∷ [])
        ≡ some (take i lines ++ (replacement_lines r ++ (ss ++ drop i lines)), applied))
same_line_misplaced lines i anchor t r s ss h new =
    let (front, back, split, l) = cut i lines (omega (arith, h)) in
    let sorted = two i anchor t r in
    (
      map (applied_edit (map change_of sorted)) (map change_of sorted),
      apply_edits-finish lines sorted sorted
          (some (take i lines ++ (replacement_lines r ++ (ss ++ drop i lines))))
          (keeps_order i anchor t r)
          (subst
            (λ (ls : List Chars).
              apply_sorted sorted ls
              ≡ some (take i ls ++ (replacement_lines r ++ (ss ++ drop i ls))))
            (sym split) (both_in i anchor t r front back s ss l new)),
    )
