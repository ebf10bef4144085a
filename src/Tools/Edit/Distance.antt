-- ===== src/Tools/Edit/Distance.antt =====
-- The edit distance of two texts (`levenshtein` of di-core/src/tools/edit_file.rs), over bytes.
use di_rac.Prelude.{
  ℕ, suc, ◌+◌, ◌≤◌, min, List, [], ◌∷◌, ◌≡◌, refl, sym, ap, ◌∙◌, arith, subst, ◌==◌, length, ==_iff,
  ◌⊎◌, inl, inr, Bool-cases, if◌then◌else◌,
}

abbrev pub byte_cost : ℕ → ℕ → ℕ
byte_cost x y = if x == y then 0 else 1

-- the cells of a row after the first: `left` is the cell before, and the row above starts at the cell
-- above that
unfoldable pub next_cells : ℕ → ℕ → List ℕ → List ℕ → List ℕ
next_cells x left (y ∷ b) (diagonal ∷ above ∷ row) =
    let cell = min (min (above + 1) (left + 1)) (diagonal + byte_cost x y) in
    cell ∷ next_cells x cell b (above ∷ row)
next_cells x left _ _ = []

-- the rounds over the bytes of `a`, from row `i`
unfoldable pub last_row : ℕ → List ℕ → List ℕ → List ℕ → List ℕ
unfolding next_cells
last_row i [] b row = row
last_row i (x ∷ a) b row = last_row (suc i) a b (suc i ∷ next_cells x (suc i) b row)

-- `(from..=from + n).collect()`, for `n` the length of the list
unfoldable pub first_row : ℕ → List ℕ → List ℕ
first_row from [] = from ∷ []
first_row from (y ∷ b) = from ∷ first_row (suc from) b

-- the element at an index; the row has one more than `b`
abbrev pub at_end : List ℕ → List ℕ → ℕ
at_end [] (cell ∷ row) = cell
at_end (y ∷ b) (cell ∷ row) = at_end b row
at_end b [] = 0

unfoldable pub levenshtein : List ℕ → List ℕ → ℕ
unfolding last_row first_row
levenshtein [] b = length b
levenshtein (x ∷ a) [] = length (x ∷ a)
levenshtein (x ∷ a) (y ∷ b) = at_end (y ∷ b) (last_row 0 (x ∷ a) (y ∷ b) (first_row 0 (y ∷ b)))

-- `n` insertions, deletions and changes of single bytes lead from `a` to `b`.
pub data Leads : List ℕ → List ℕ → ℕ → Type 0 where
  none_left : Leads [] [] 0
  keep : {a b : List ℕ} {n : ℕ} (x : ℕ) → Leads a b n → Leads (x ∷ a) (x ∷ b) n
  change : {a b : List ℕ} {n : ℕ} (x y : ℕ) → Leads a b n → Leads (x ∷ a) (y ∷ b) (suc n)
  delete : {a b : List ℕ} {n : ℕ} (x : ℕ) → Leads a b n → Leads (x ∷ a) b (suc n)
  insert : {a b : List ℕ} {n : ℕ} (y : ℕ) → Leads a b n → Leads a (y ∷ b) (suc n)

-- the distance from the last bytes on, by recursion
distance : List ℕ → List ℕ → ℕ
distance [] b = length b
distance (x ∷ a) [] = suc (length a)
distance (x ∷ a) (y ∷ b) =
    min (min (distance a (y ∷ b) + 1) (distance (x ∷ a) b + 1)) (distance a b + byte_cost x y)

distance-nil : (a : List ℕ) → distance a [] ≡ length a
unfolding distance
distance-nil [] = refl
distance-nil (x ∷ a) = refl

-- the row of `a` over the prefixes of `b` that go on from `done`, both reversed
row_of : List ℕ → List ℕ → List ℕ → List ℕ
row_of a done [] = distance a done ∷ []
row_of a done (y ∷ b) = distance a done ∷ row_of a (y ∷ done) b

next_cells-row_of :
    (x : ℕ) (a done b : List ℕ)
    → distance (x ∷ a) done ∷ next_cells x (distance (x ∷ a) done) b (row_of a done b)
      ≡ row_of (x ∷ a) done b
unfolding next_cells row_of distance
next_cells-row_of x a done [] = refl
next_cells-row_of x a done (y ∷ []) = refl
next_cells-row_of x a done (y ∷ z ∷ b) =
    ap (λ (r : List ℕ). distance (x ∷ a) done ∷ r) (next_cells-row_of x a (y ∷ done) (z ∷ b))

first_row-row_of :
    (from : ℕ) (done b : List ℕ) → length done ≡ from → first_row from b ≡ row_of [] done b
unfolding first_row row_of distance
first_row-row_of from done [] h = rw h
first_row-row_of from done (y ∷ b) h = rw (h, first_row-row_of (suc from) (y ∷ done) b (ap suc h))

-- `a` in front of what has been read, reversed
onto : List ℕ → List ℕ → List ℕ
onto [] done = done
onto (x ∷ a) done = onto a (x ∷ done)

first_cell : (x : ℕ) (a : List ℕ) → distance (x ∷ a) [] ≡ suc (length a)
unfolding distance
first_cell x a = refl

last_row-row_of :
    (i : ℕ) (read a b : List ℕ)
    → length read ≡ i
    → last_row i a b (row_of read [] b) ≡ row_of (onto a read) [] b
unfolding last_row onto
last_row-row_of i read [] b h = refl
last_row-row_of i read (x ∷ a) b h =
    ap (λ (r : List ℕ). last_row (suc i) a b r) (step i read x b h)
    ∙ last_row-row_of (suc i) (x ∷ read) a b (ap suc h)
  where
    step :
        (i : ℕ) (read : List ℕ) (x : ℕ) (b : List ℕ)
        → length read ≡ i
        → suc i ∷ next_cells x (suc i) b (row_of read [] b) ≡ row_of (x ∷ read) [] b
    step i read x b h =
        subst (λ (n : ℕ). n ∷ next_cells x n b (row_of read [] b) ≡ row_of (x ∷ read) [] b)
          (first_cell x read ∙ ap suc h) (next_cells-row_of x read [] b)

at_end-row_of : (a done b : List ℕ) → at_end b (row_of a done b) ≡ distance a (onto b done)
unfolding row_of onto
at_end-row_of a done [] = refl
at_end-row_of a done (y ∷ b) = at_end-row_of a (y ∷ done) b

length-onto : (a c : List ℕ) → length (onto a c) ≡ length a + length c
unfolding onto
length-onto [] c = omega arith
length-onto (x ∷ a) c = omega (arith, length-onto a (x ∷ c))

levenshtein-distance : (a b : List ℕ) → levenshtein a b ≡ distance (onto a []) (onto b [])
unfolding levenshtein distance onto
levenshtein-distance [] b = omega (arith, length-onto b [])
levenshtein-distance (x ∷ a) [] =
    omega (arith, distance-nil (onto (x ∷ a) []), length-onto (x ∷ a) [])
levenshtein-distance (x ∷ a) (y ∷ b) =
    ap (at_end (y ∷ b)) (
      ap (last_row 0 (x ∷ a) (y ∷ b)) (first_row-row_of 0 [] (y ∷ b) refl)
      ∙ last_row-row_of 0 [] (x ∷ a) (y ∷ b) refl)
    ∙ at_end-row_of (onto (x ∷ a) []) [] (y ∷ b)

change_cost-Leads :
    {a b : List ℕ} {n : ℕ} (x y : ℕ) → Leads a b n → Leads (x ∷ a) (y ∷ b) (n + byte_cost x y)
change_cost-Leads {a} {b} {n} x y l = elim (Bool-cases (x == y)) [
  | inl same ↦ rw same (
      subst (λ (k : ℕ). Leads (x ∷ a) (y ∷ b) k) (omega arith)
        (subst (λ (z : ℕ). Leads (x ∷ a) (z ∷ b) n) ((==_iff x y).0 same) (keep x l)))
  | inr other ↦ rw other (subst (λ (k : ℕ). Leads (x ∷ a) (y ∷ b) k) (omega arith) (change x y l))
]

-- the least of two numbers of steps is one of them
min-cases : (m n : ℕ) → (min m n ≡ m) ⊎ (min m n ≡ n)
min-cases m n = ground arith

min-Leads : (a b : List ℕ) (m n : ℕ) → Leads a b m → Leads a b n → Leads a b (min m n)
min-Leads a b m n l k = elim (min-cases m n) [
  | inl e ↦ subst (Leads a b) (sym e) l
  | inr e ↦ subst (Leads a b) (sym e) k
]

one_more : {a b : List ℕ} {n : ℕ} → Leads a b (suc n) → Leads a b (n + 1)
one_more {a} {b} {n} l = subst (Leads a b) (omega arith) l

-- As many steps as the distance lead from one to the other, and no fewer.
distance-Leads : (a b : List ℕ) → Leads a b (distance a b)
unfolding distance
distance-Leads [] [] = none_left
distance-Leads [] (y ∷ b) = insert y (distance-Leads [] b)
distance-Leads (x ∷ []) [] = delete x none_left
distance-Leads (x ∷ z ∷ a) [] = delete x (distance-Leads (z ∷ a) [])
distance-Leads (x ∷ a) (y ∷ b) =
    min-Leads (x ∷ a) (y ∷ b) _ _
      (min-Leads (x ∷ a) (y ∷ b) _ _ (one_more (delete x (distance-Leads a (y ∷ b))))
        (one_more (insert y (distance-Leads (x ∷ a) b))))
      (change_cost-Leads x y (distance-Leads a b))

distance-step : (x : ℕ) (a b : List ℕ) → distance (x ∷ a) b ≤ distance a b + 1
unfolding distance
distance-step x a [] = omega (arith, distance-nil a)
distance-step x a (y ∷ b) = omega arith

distance-step_right : (y : ℕ) (a b : List ℕ) → distance a (y ∷ b) ≤ distance a b + 1
unfolding distance
distance-step_right y [] b = omega arith
distance-step_right y (x ∷ a) b = omega arith

Leads→distance-le : {a b : List ℕ} {n : ℕ} → Leads a b n → distance a b ≤ n
unfolding distance
Leads→distance-le none_left = omega arith
Leads→distance-le (keep {a} {b} x l) = ground (arith, Leads→distance-le l)
Leads→distance-le (change {a} {b} x y l) = ground (arith, Leads→distance-le l)
Leads→distance-le (delete {a} {b} x l) = omega (arith, distance-step x a b, Leads→distance-le l)
Leads→distance-le (insert {a} {b} y l) =
    omega (arith, distance-step_right y a b, Leads→distance-le l)

-- The same number of steps lead between the reversed texts.
Leads-onto :
    {a b : List ℕ} {n : ℕ} (c d : List ℕ) (m k : ℕ)
    → Leads a b n
    → Leads c d m
    → k ≡ n + m
    → Leads (onto a c) (onto b d) k
unfolding onto
Leads-onto c d m k none_left l e = subst (Leads c d) (omega (arith, e)) l
Leads-onto c d m k (keep x h) l e = Leads-onto (x ∷ c) (x ∷ d) m k h (keep x l) e
Leads-onto c d m k (change x y h) l e =
    Leads-onto (x ∷ c) (y ∷ d) (suc m) k h (change x y l) (omega (arith, e))
Leads-onto c d m k (delete x h) l e =
    Leads-onto (x ∷ c) d (suc m) k h (delete x l) (omega (arith, e))
Leads-onto c d m k (insert y h) l e =
    Leads-onto c (y ∷ d) (suc m) k h (insert y l) (omega (arith, e))

onto-onto : (a c : List ℕ) → onto (onto a c) [] ≡ onto c a
unfolding onto
onto-onto [] c = refl
onto-onto (x ∷ a) c = onto-onto a (x ∷ c)

onto-twice : (a : List ℕ) → onto (onto a []) [] ≡ a
unfolding onto
onto-twice a = onto-onto a []

-- `levenshtein` is the edit distance: that many insertions, deletions and changes of single bytes
-- lead from one text to the other, and no fewer do.
pub levenshtein-least :
    (a b : List ℕ) → Leads a b (levenshtein a b) × ((n : ℕ) → Leads a b n → levenshtein a b ≤ n)
levenshtein-least a b =
    let e = levenshtein-distance a b in
    let back =
      Leads-onto [] [] 0 (levenshtein a b) (distance-Leads (onto a []) (onto b [])) none_left
        (omega (arith, e)) in
    (
      subst (λ (c : List ℕ). Leads c b (levenshtein a b)) (onto-twice a)
          (subst (λ (c : List ℕ). Leads (onto (onto a []) []) c (levenshtein a b)) (onto-twice b)
            back),
      λ n l.
          (let flipped = Leads→distance-le (Leads-onto [] [] 0 n l none_left (omega arith)) in
            omega (arith, e, flipped)),
    )
