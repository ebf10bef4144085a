-- ===== src/Hooks/Directive/Merge/Sorted.antt =====
-- What merging does to the lists that carry no key (di-core/src/hooks/directive.rs).
use mathlib.Core.List.{Perm}
use mathlib.Core.List.Perm
use di_rac.Prelude.{
  ℕ, suc, ◌≤◌, ◌<◌, ℤ, String, List, [], ◌∷◌, ◌++◌, ◌≡◌, refl, sym, ap, ◌∙◌, arith, false, inl, inr,
  All, leb, leb→le, not_leb→lt, Bool-cases, append-nil, append_assoc,
}
use di_rac.Hooks.Directive.{
  Severity, rank, LoopDirective, warn, approval_note, MergedDirectives, seen,
}
use di_rac.Hooks.Directive.Merge.{
  insert_by_severity, sort_by_severity, merge_one, merge_from, merge,
}

abbrev pub Noted : Type 0
Noted = Severity × String

-- every entry is at most as severe as each that follows it
abbrev pub IsSorted : List Noted → Type 0
IsSorted [] = Unit
IsSorted (x ∷ xs) = All (λ y. rank x.0 ≤ rank y.0) xs × IsSorted xs

All-le_trans :
    {a b : ℕ} (xs : List Noted) → a ≤ b → All (λ y. b ≤ rank y.0) xs → All (λ y. a ≤ rank y.0) xs
All-le_trans [] h k = tt
All-le_trans (x ∷ xs) h k = (omega arith, All-le_trans xs h k.1)

All-insert :
    (a : ℕ) (x : Noted) (xs : List Noted)
    → a ≤ rank x.0
    → All (λ y. a ≤ rank y.0) xs
    → All (λ y. a ≤ rank y.0) (insert_by_severity x xs)
unfolding insert_by_severity
All-insert a x [] h k = (h, tt)
All-insert a x (y ∷ ys) h k = elim (Bool-cases (leb (rank x.0) (rank y.0))) [
  | inl e ↦ rw e (h, k)
  | inr e ↦ rw e (k.0, All-insert a x ys h k.1)
]

insert-IsSorted : (x : Noted) (xs : List Noted) → IsSorted xs → IsSorted (insert_by_severity x xs)
unfolding insert_by_severity
insert-IsSorted x [] h = (tt, tt)
insert-IsSorted x (y ∷ ys) h = elim (Bool-cases (leb (rank x.0) (rank y.0))) [
  | inl e ↦ let le = leb→le _ _ e in rw e ((le, All-le_trans ys le h.0), h)
  | inr e ↦
      let lt = not_leb→lt _ _ e in
      rw e (All-insert (rank y.0) x ys (omega arith) h.0, insert-IsSorted x ys h.1)
]

pub sort-IsSorted : (xs : List Noted) → IsSorted (sort_by_severity xs)
unfolding sort_by_severity
sort-IsSorted [] = tt
sort-IsSorted (x ∷ xs) = insert-IsSorted x (sort_by_severity xs) (sort-IsSorted xs)

insert-perm : (x : Noted) (xs : List Noted) → Perm (insert_by_severity x xs) (x ∷ xs)
unfolding insert_by_severity
insert-perm x [] = Perm.refl (x ∷ [])
insert-perm x (y ∷ ys) = elim (Bool-cases (leb (rank x.0) (rank y.0))) [
  | inl e ↦ rw e (Perm.refl (x ∷ y ∷ ys))
  | inr e ↦ rw e (Perm.trans (Perm.cons y (insert-perm x ys)) (Perm.swap x y ys))
]

pub sort-perm : (xs : List Noted) → Perm (sort_by_severity xs) xs
unfolding sort_by_severity
sort-perm [] = Perm.refl []
sort-perm (x ∷ xs) = Perm.trans (insert-perm x (sort_by_severity xs)) (Perm.cons x (sort-perm xs))

-- what a batch adds to each list, in the batch's order
abbrev pub warned : List LoopDirective → List Noted
warned [] = []
warned (warn s message ∷ ds) = (s, message) ∷ warned ds
warned (_ ∷ ds) = warned ds

abbrev pub noted : List LoopDirective → List Noted
noted [] = []
noted (approval_note s message ∷ ds) = (s, message) ∷ noted ds
noted (_ ∷ ds) = noted ds

-- both lists are sorted by severity
pub record IsOrdered (m : MergedDirectives) : Type 0 where
  pub warnings : IsSorted m.warnings
  pub approval_notes : IsSorted m.approval_notes

merge_one-IsOrdered :
    (now : ℤ) (d : LoopDirective) {m : MergedDirectives}
    → IsOrdered m
    → IsOrdered (merge_one now m d)
unfolding merge_one seen
merge_one-IsOrdered now (warn s t) {m} h = record {
  warnings = sort-IsSorted (m.warnings ++ (s, t) ∷ []);
  approval_notes = h.approval_notes;
}
merge_one-IsOrdered now (approval_note s t) {m} h = record {
  warnings = h.warnings;
  approval_notes = sort-IsSorted (m.approval_notes ++ (s, t) ∷ []);
}
merge_one-IsOrdered now d h = ground arith

merge_from-IsOrdered :
    (clock : ℕ → ℤ) (n : ℕ) (ds : List LoopDirective) {m : MergedDirectives}
    → IsOrdered m
    → IsOrdered (merge_from clock n m ds)
unfolding merge_from
merge_from-IsOrdered clock n [] h = h
merge_from-IsOrdered clock n (d ∷ ds) h =
    merge_from-IsOrdered clock (suc n) ds (merge_one-IsOrdered (clock n) d h)

-- Insertions of different severities commute, so sorting a sorted prefix again changes nothing.
insert_comm :
    (z x : Noted) (ws : List Noted)
    → rank z.0 < rank x.0
    → insert_by_severity z (insert_by_severity x ws)
      ≡ insert_by_severity x (insert_by_severity z ws)
unfolding insert_by_severity
insert_comm z x [] h = ground arith
insert_comm z x (w ∷ ws) h = ground (arith, insert_comm z x ws h)

sort-insert_past :
    (x z : Noted) (zs t : List Noted)
    → leb (rank x.0) (rank z.0) ≡ false
    → sort_by_severity (insert_by_severity x zs ++ t)
      ≡ insert_by_severity x (sort_by_severity (zs ++ t))
    → sort_by_severity (insert_by_severity x (z ∷ zs) ++ t)
      ≡ insert_by_severity x (sort_by_severity (z ∷ zs ++ t))
unfolding sort_by_severity
sort-insert_past x z zs t e ih =
    rw e (rw ih (insert_comm z x (sort_by_severity (zs ++ t)) (not_leb→lt _ _ e)))

sort-insert :
    (x : Noted) (zs t : List Noted)
    → sort_by_severity (insert_by_severity x zs ++ t)
      ≡ insert_by_severity x (sort_by_severity (zs ++ t))
unfolding sort_by_severity
sort-insert x [] t = refl
sort-insert x (z ∷ zs) t = elim (Bool-cases (leb (rank x.0) (rank z.0))) [
  | inl e ↦ rw e
  | inr e ↦ sort-insert_past x z zs t e (sort-insert x zs t)
]

sort-sort_append :
    (xs t : List Noted) → sort_by_severity (sort_by_severity xs ++ t) ≡ sort_by_severity (xs ++ t)
unfolding sort_by_severity
sort-sort_append [] t = refl
sort-sort_append (x ∷ xs) t =
    sort-insert x (sort_by_severity xs) t ∙ ap (insert_by_severity x) (sort-sort_append xs t)

insert_below :
    (x : Noted) (xs : List Noted)
    → All (λ y. rank x.0 ≤ rank y.0) xs
    → insert_by_severity x xs ≡ x ∷ xs
unfolding insert_by_severity
insert_below x [] h = refl
insert_below x (y ∷ ys) h = ground arith

sort-eq_of_IsSorted : (xs : List Noted) → IsSorted xs → sort_by_severity xs ≡ xs
unfolding sort_by_severity
sort-eq_of_IsSorted [] h = refl
sort-eq_of_IsSorted (x ∷ xs) h = rw (sort-eq_of_IsSorted xs h.1) (insert_below x xs h.0)

module _ (now : ℤ) (m : MergedDirectives) where
  resort_warnings :
      (d : LoopDirective) (ds : List LoopDirective)
      → sort_by_severity ((merge_one now m d).warnings ++ warned ds)
        ≡ sort_by_severity (m.warnings ++ warned (d ∷ ds))
  unfolding merge_one
  resort_warnings (warn s t) ds =
      sort-sort_append (m.warnings ++ (s, t) ∷ []) (warned ds) ∙ rw append_assoc
  resort_warnings d ds = ground arith

  resort_notes :
      (d : LoopDirective) (ds : List LoopDirective)
      → sort_by_severity ((merge_one now m d).approval_notes ++ noted ds)
        ≡ sort_by_severity (m.approval_notes ++ noted (d ∷ ds))
  unfolding merge_one
  resort_notes (approval_note s t) ds =
      sort-sort_append (m.approval_notes ++ (s, t) ∷ []) (noted ds) ∙ rw append_assoc
  resort_notes d ds = ground arith

sort_merged_warnings :
    (clock : ℕ → ℤ) (n : ℕ) (m : MergedDirectives) (ds : List LoopDirective)
    → sort_by_severity (merge_from clock n m ds).warnings
      ≡ sort_by_severity (m.warnings ++ warned ds)
unfolding merge_from
sort_merged_warnings clock n m [] = rw append-nil
sort_merged_warnings clock n m (d ∷ ds) =
    sort_merged_warnings clock (suc n) (merge_one (clock n) m d) ds
    ∙ resort_warnings (clock n) m d ds

sort_merged_notes :
    (clock : ℕ → ℤ) (n : ℕ) (m : MergedDirectives) (ds : List LoopDirective)
    → sort_by_severity (merge_from clock n m ds).approval_notes
      ≡ sort_by_severity (m.approval_notes ++ noted ds)
unfolding merge_from
sort_merged_notes clock n m [] = rw append-nil
sort_merged_notes clock n m (d ∷ ds) =
    sort_merged_notes clock (suc n) (merge_one (clock n) m d) ds ∙ resort_notes (clock n) m d ds

-- Where both lists are sorted before a merge, they are afterwards, and each is the stable sort by
-- severity of what it held followed by the batch's warnings, or notes, in the batch's order.
pub merge_sorts :
    (clock : ℕ → ℤ) (m : MergedDirectives) (ds : List LoopDirective)
    → IsOrdered m
    → let after = merge clock m ds in
      IsOrdered after
      × (after.warnings ≡ sort_by_severity (m.warnings ++ warned ds))
      × (after.approval_notes ≡ sort_by_severity (m.approval_notes ++ noted ds))
unfolding merge
merge_sorts clock m ds h =
    let after = merge_from-IsOrdered clock 0 ds h in
    (
      after,
      sym (sort-eq_of_IsSorted _ after.warnings) ∙ sort_merged_warnings clock 0 m ds,
      sym (sort-eq_of_IsSorted _ after.approval_notes) ∙ sort_merged_notes clock 0 m ds,
    )
