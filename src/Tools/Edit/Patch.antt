-- ===== src/Tools/Edit/Patch.antt =====
-- What edits of a file (di-core/src/tools/edit_file.rs) do where they are apart: the file read from
-- the top, with each edit in its place.
use di_rac.Prelude.{
  ℕ, zero, suc, ◌+◌, ◌-◌, ◌≤◌, true, false, List, [], ◌∷◌, ◌++◌, ◌≡◌, refl, ap, ◌∙◌, some, arith,
  leb, length, take, drop, length-append, append_assoc, Chars,
}
use di_rac.Tools.Edit.Apply.{
  ResolvedEdit, replacement_lines, splice_index, removed_count, splice, reversed, apply_one,
}

-- the first line of an edit, and the line after its last
abbrev pub from_line : ResolvedEdit → ℕ
from_line e = splice_index e.edit.edit_type e.line_idx

abbrev pub to_line : ResolvedEdit → ℕ
to_line e = from_line e + removed_count e.edit.edit_type e.line_idx e.end_idx

-- `lines`, which start at line `at`, with the edits in their places
pub patched : ℕ → List Chars → List ResolvedEdit → List Chars
patched at lines [] = lines
patched at lines (e ∷ es) =
    take (from_line e - at) lines
    ++ (replacement_lines e.edit.text ++ patched (to_line e) (drop (to_line e - at) lines) es)

-- The edits, from the top, are in the file from line `at` on, and no two overlap.
abbrev pub AreApart : ℕ → ℕ → List ResolvedEdit → Type 0
AreApart at total [] = at ≤ total
AreApart at total (e ∷ es) =
    (reversed e ≡ false) × (at ≤ from_line e) × AreApart (to_line e) total es

module _ {ℓ} {A : Type ℓ} where
  pub take-append_length : (xs ys : List A) → take (length xs) (xs ++ ys) ≡ xs
  take-append_length [] ys = refl
  take-append_length (x ∷ xs) ys = ap (λ (r : List A). x ∷ r) (take-append_length xs ys)

  pub drop-append_length : (xs ys : List A) → drop (length xs) (xs ++ ys) ≡ ys
  drop-append_length [] ys = refl
  drop-append_length (x ∷ xs) ys = drop-append_length xs ys

  pub cut :
      (n : ℕ) (xs : List A)
      → n ≤ length xs
      → (front : List A) × (back : List A) × (xs ≡ front ++ back) × (length front ≡ n)
  cut zero xs h = ([], xs, refl, refl)
  cut (suc n) [] h = absurd (omega (arith, h))
  cut (suc n) (x ∷ xs) h =
      let (front, back, e, l) = cut n xs (omega (arith, h)) in
      (x ∷ front, back, ap (λ (r : List A). x ∷ r) e, ap suc l)

  drop_two :
      (front mid back : List A) → drop (length front + length mid) (front ++ (mid ++ back)) ≡ back
  drop_two front mid back =
      rw (← append_assoc front mid back, ← length-append front mid)
        (drop-append_length (front ++ mid) back)

  -- a splice of a middle part
  pub splice_middle :
      (front mid back new : List A)
      → splice (length front) (length mid) new (front ++ (mid ++ back))
        ≡ some (front ++ (new ++ back))
  unfolding splice
  splice_middle front mid back new =
      let fits : leb (length front + length mid) (length (front ++ (mid ++ back))) ≡ true =
        ground (arith, length-append front (mid ++ back), length-append mid back) in
      rw (fits, take-append_length front (mid ++ back), drop_two front mid back)

pub apply_one_middle :
    (e : ResolvedEdit) (front mid back : List Chars)
    → reversed e ≡ false
    → length front ≡ from_line e
    → length mid ≡ removed_count e.edit.edit_type e.line_idx e.end_idx
    → apply_one e (front ++ (mid ++ back)) ≡ some (front ++ (replacement_lines e.edit.text ++ back))
unfolding apply_one
apply_one_middle e front mid back forward h k =
    rw (forward, ← h, ← k) (splice_middle front mid back (replacement_lines e.edit.text))

pub split_three :
    (k r : ℕ) (xs : List Chars)
    → k + r ≤ length xs
    → (gap : List Chars) × (mid : List Chars) × (back : List Chars) × (xs ≡ gap ++ (mid ++ back))
      × (length gap ≡ k)
      × (length mid ≡ r)
split_three k r xs h =
    let (gap, others, e, l) = cut k xs (omega (arith, h)) in
    let (mid, back, e', l') =
      cut r others (omega (arith, h, l, ap length e, length-append gap others)) in
    (gap, mid, back, e ∙ ap (λ (t : List Chars). gap ++ t) e', l, l')
