-- ===== src/Util/Anchors/Distinct.antt =====
-- The anchors of a file's lines (`FileAnchorIndex::new` of di-core/src/util.rs) are all different, so
-- each finds its line.
use di_rac.Prelude.{
  ℕ, zero, suc, ◌+◌, ◌≤◌, ◌<◌, List, [], ◌∷◌, ◌++◌, some, ◌≡◌, ◌≢◌, ◌⊎◌, inl, inr, refl, sym, ap,
  ◌∙◌, subst, arith, length, length-append, get_elem?, All, ==_iff, ◌==◌, Bool-cases, Chars,
  chars_eq, chars_eq→eq, chars_eq_refl, number, number-injective,
}
use di_rac.Util.Anchors.{
  anchor_hash, occurrences, final_hash, final_hashes, enter, find_line, raw_hashes, new_index,
  get_hash, get_line_idx,
}

split_equal : (r r' s s' : Chars) → length r ≡ length r' → r ++ s ≡ r' ++ s' → (r ≡ r') × (s ≡ s')
split_equal [] [] s s' h e = (refl, e)
split_equal [] (c' ∷ r') s s' h e = absurd (omega (arith, h))
split_equal (c ∷ r) [] s s' h e = absurd (omega (arith, h))
split_equal (c ∷ r) (c' ∷ r') s s' h e =
    let (same, rest) = split_equal r r' s s' (omega (arith, h)) (cc (e)) in
    let first : c ≡ c' = cc (e) in ((λ i. first i ∷ same i), rest)

not_longer : (r s : Chars) (c : ℕ) (t : Chars) → length r ≡ length s → r ≢ s ++ c ∷ t
not_longer r s c t h e = absurd (omega (arith, h, ap length e, length-append s (c ∷ t)))

-- Equal anchors come from one hash, and either it occurs once or as often before both lines.
final_hash-eq :
    (everything before before' : List Chars) (r r' : Chars)
    → length r ≡ length r'
    → final_hash everything before r ≡ final_hash everything before' r'
    → (r ≡ r') × ((occurrences r everything ≡ 1) ⊎ (occurrences r before ≡ occurrences r before'))
unfolding final_hash
final_hash-eq everything before before' r r' h e =
    elim (Bool-cases (occurrences r everything == 1)) [
      | inl once ↦ elim (Bool-cases (occurrences r' everything == 1)) [
        | inl once' ↦ (rw (once, once') at e, inl ((==_iff _ 1).0 once))
        | inr often' ↦ absurd (not_longer r r' b'_' _ h (rw (once, often') at e))
      ]
      | inr often ↦ elim (Bool-cases (occurrences r' everything == 1)) [
        | inl once' ↦ absurd (not_longer r' r b'_' _ (sym h) (sym (rw (often, once') at e)))
        | inr often' ↦
            let (same, tails) =
              split_equal r r' (b'_' ∷ number (occurrences r before))
                (b'_' ∷ number (occurrences r' before')) h (rw (often, often') at e) in
            let counts =
              number-injective (occurrences r before) (occurrences r' before') (cc (tails)) in
            (same, inr (counts ∙ ap (λ (k : Chars). occurrences k before') (sym same)))
      ]
    ]

occurrences-grows : (r s : Chars) (ks : List Chars) → occurrences r ks ≤ occurrences r (s ∷ ks)
unfolding occurrences
occurrences-grows r s ks = ground arith

occurrences_self : (r : Chars) (ks : List Chars) → occurrences r (r ∷ ks) ≡ suc (occurrences r ks)
unfolding occurrences
occurrences_self r ks = rw (chars_eq_refl r) (omega arith)

-- No later line has the anchor of this one.
later :
    (everything before before' : List Chars) (r : Chars) (raws : List Chars)
    → All (λ k. length k ≡ length r) raws
    → occurrences r before < occurrences r before'
    → (0 < occurrences r raws → 2 ≤ occurrences r everything)
    → All (λ k. k ≢ final_hash everything before r) (final_hashes everything before' raws)
unfolding final_hashes
later everything before before' r [] lengths h twice = tt
later everything before before' r (s ∷ raws) lengths h twice = (
  λ e.
      (let (same, why) = final_hash-eq everything before' before s r lengths.0 e in
        let here : 2 ≤ occurrences r everything = twice (
          subst (λ (k : Chars). 0 < occurrences r (k ∷ raws)) (sym same)
            (omega (arith, occurrences_self r raws))) in
        let why' =
          subst
            (λ (k : Chars).
              (occurrences k everything ≡ 1) ⊎ (occurrences k before' ≡ occurrences k before))
            same why in
        elim why' [
          | inl once ↦ absurd (omega (arith, once, here))
          | inr equal ↦ absurd (omega (arith, equal, h))
        ]),
  later everything before (s ∷ before') r raws lengths.1
      (omega (arith, h, occurrences-grows r s before'))
      (λ more. twice (omega (arith, more, occurrences-grows r s raws))),
)

abbrev AreDistinct : List Chars → Type 0
AreDistinct [] = Unit
AreDistinct (h ∷ hs) = All (λ k. k ≢ h) hs × AreDistinct hs

occurrences-swap :
    (k r : Chars) (before raws : List Chars)
    → occurrences k (r ∷ before) + occurrences k raws
      ≡ occurrences k before + occurrences k (r ∷ raws)
unfolding occurrences
occurrences-swap k r before raws = omega arith

final_hashes-AreDistinct :
    (everything before raws : List Chars)
    → All (λ k. length k ≡ 3) raws
    → ((k : Chars) → occurrences k everything ≡ occurrences k before + occurrences k raws)
    → AreDistinct (final_hashes everything before raws)
unfolding final_hashes
final_hashes-AreDistinct everything before [] lengths h = tt
final_hashes-AreDistinct everything before (r ∷ raws) lengths h = (
  later everything before (r ∷ before) r raws (same_length r lengths.0 raws lengths.1)
      (omega (arith, occurrences_self r before))
      (λ more. omega (arith, more, h r, occurrences_self r raws)),
  final_hashes-AreDistinct everything (r ∷ before) raws lengths.1
      (λ k. h k ∙ sym (occurrences-swap k r before raws)),
)
  where
    same_length :
        (r : Chars)
        → length r ≡ 3
        → (ks : List Chars) → All (λ k. length k ≡ 3) ks
        → All (λ k. length k ≡ length r) ks
    same_length r e [] a = tt
    same_length r e (k ∷ ks) a = (a.0 ∙ sym e, same_length r e ks a.1)

find_line-other :
    (h k : Chars) (i : ℕ) (entries : List (Chars × ℕ))
    → k ≢ h
    → find_line h ((k, i) ∷ entries) ≡ find_line h entries
unfolding find_line
find_line-other h k i entries ne = elim (Bool-cases (chars_eq k h)) [
  | inl same ↦ absurd (ne (chars_eq→eq k h same))
  | inr other ↦ rw other
]

find_line-enter_other :
    (h : Chars) (i : ℕ) (hs : List Chars) (entries : List (Chars × ℕ))
    → All (λ k. k ≢ h) hs
    → find_line h (enter i hs entries) ≡ find_line h entries
unfolding enter
find_line-enter_other h i [] entries a = refl
find_line-enter_other h i (k ∷ hs) entries a =
    find_line-enter_other h (suc i) hs ((k, i) ∷ entries) a.1 ∙ find_line-other h k i entries a.0

find_line-enter :
    (h : Chars) (i j : ℕ) (hs : List Chars) (entries : List (Chars × ℕ))
    → AreDistinct hs
    → get_elem? hs j ≡ some h
    → find_line h (enter i hs entries) ≡ some (i + j)
unfolding enter find_line
find_line-enter h i j [] entries d e = cc
find_line-enter h i zero (k ∷ hs) entries d e =
    let same : k ≡ h = cc (e) in
    find_line-enter_other h (suc i) hs ((k, i) ∷ entries)
      (subst (λ (k : Chars). All (λ l. l ≢ k) hs) same d.0)
    ∙ subst (λ (k : Chars). find_line h ((k, i) ∷ entries) ≡ some (i + 0)) (sym same)
        (rw (chars_eq_refl h) (ap some (omega arith)))
find_line-enter h i (suc j) (k ∷ hs) entries d e =
    find_line-enter h (suc i) j hs ((k, i) ∷ entries) d.1 e ∙ ap some (omega arith)

get_in : (xs : List Chars) (i : ℕ) → i < length xs → (h : Chars) × (get_elem? xs i ≡ some h)
get_in [] i h = absurd (omega (arith, h))
get_in (x ∷ xs) zero h = (x, refl)
get_in (x ∷ xs) (suc i) h = get_in xs i (omega (arith, h))

length-final_hashes :
    (everything before raws : List Chars)
    → length (final_hashes everything before raws) ≡ length raws
unfolding final_hashes
length-final_hashes everything before [] = refl
length-final_hashes everything before (r ∷ raws) =
    ap suc (length-final_hashes everything (r ∷ before) raws)

nothing_before :
    (k : Chars) (raws : List Chars) → occurrences k raws ≡ occurrences k [] + occurrences k raws
unfolding occurrences
nothing_before k raws = omega arith

module _ (blake3 : List ℕ → List ℕ) where
  raw_lengths : (lines : List Chars) → All (λ k. length k ≡ 3) (raw_hashes blake3 lines)
  unfolding anchor_hash
  raw_lengths [] = tt
  raw_lengths (line ∷ lines) = (refl, raw_lengths lines)

  length-raw_hashes : (lines : List Chars) → length (raw_hashes blake3 lines) ≡ length lines
  length-raw_hashes [] = refl
  length-raw_hashes (line ∷ lines) = ap suc (length-raw_hashes lines)

  -- In the index of any file, whatever the digests, the anchor of each line finds that line.
  pub get_line_idx-get_hash :
      (lines : List Chars) (i : ℕ)
      → i < length lines
      → get_line_idx (new_index blake3 lines) (get_hash (new_index blake3 lines) i) ≡ some i
  unfolding get_line_idx new_index
  get_line_idx-get_hash lines i h =
      let raws = raw_hashes blake3 lines in
      let hashes = final_hashes raws [] raws in
      let (anchor, found) =
        get_in hashes i
          (omega (arith, h, length-final_hashes raws [] raws, length-raw_hashes lines)) in
      rw found (
        find_line-enter anchor 0 i hashes []
          (final_hashes-AreDistinct raws [] raws (raw_lengths lines) (λ k. nothing_before k raws))
          found
        ∙ ap some (omega arith))
