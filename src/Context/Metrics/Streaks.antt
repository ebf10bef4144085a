-- ===== src/Context/Metrics/Streaks.antt =====
-- The longest streak of a call (di-core/src/context/lifecycle_metrics.rs).
use di_rac.Prelude.{
  ℕ, zero, suc, ◌+◌, ◌≤◌, max, true, List, [], ◌∷◌, ◌++◌, ◌≡◌, ◌∙◌, refl, sym, ap, subst, arith,
  inl, inr, All, Bool-cases, length-take, leb, leb→le, not_leb→lt, if◌then◌else◌, eq_iff, length,
  take, drop,
}
use di_rac.Context.Metrics.{
  CallRecord, History, same_record, all_calls, longest_streak, streak_of, retry_accumulation,
}

-- calls that are all the same as the first
abbrev pub AllSame : List CallRecord → Type 0
AllSame [] = Unit
AllSame (c ∷ cs) = All (λ d. d ≡ c) cs

-- `n` calls in a row, somewhere, are the same
abbrev pub HasStreak : List CallRecord → ℕ → Type 0
HasStreak calls n =
    (front : List CallRecord) × (run : List CallRecord) × (back : List CallRecord) × (calls
      ≡ front ++ (run ++ back))
    × AllSame run
    × (length run ≡ n)

eq-of-same_record : (x y : CallRecord) → same_record x y ≡ true → x ≡ y
eq-of-same_record x y h =
    let names : x.tool_name ≡ y.tool_name = ground (arith, h, eq_iff x.tool_name y.tool_name) in
    let hashes : x.args_hash ≡ y.args_hash = ground (arith, h) in
    ap (λ n. record { tool_name = n; args_hash = x.args_hash }) names
    ∙ ap (λ a. record { tool_name = y.tool_name; args_hash = a }) hashes

same_record_self : (x : CallRecord) → same_record x x ≡ true
same_record_self x = ground (arith, eq_iff x.tool_name x.tool_name)

-- how many calls at the start are the given one
lead : CallRecord → List CallRecord → ℕ
lead c [] = 0
lead c (d ∷ ds) = let n = lead c ds in if same_record d c then suc n else 0

longest : List CallRecord → ℕ
unfolding lead
longest [] = 0
longest (c ∷ cs) = max (suc (lead c cs)) (longest cs)

longest_streak-max :
    (c : CallRecord) (m n : ℕ) (cs : List CallRecord)
    → 1 ≤ n
    → n ≤ m
    → longest_streak c m n cs ≡ max m (max (n + lead c cs) (longest cs))
unfolding longest_streak lead longest
longest_streak-max c m n [] h k = omega (arith, k)
longest_streak-max c m n (d ∷ ds) h k = elim (Bool-cases (same_record d c)) [
  | inl same ↦ rw same (
      let on = longest_streak-max d (max m (suc n)) (suc n) ds (omega arith) (omega arith) in
      let e : lead d ds ≡ lead c ds = ap (λ x. lead x ds) (eq-of-same_record d c same) in
      omega (arith, on, e))
  | inr other ↦ rw other (
      let over = longest_streak-max d m 1 ds (omega arith) (omega (arith, h, k)) in
      omega (arith, over, k))
]

streak_of-longest : (cs : List CallRecord) → streak_of cs ≡ longest cs
unfolding streak_of longest lead
streak_of-longest [] = refl
streak_of-longest (c ∷ cs) = omega (arith, longest_streak-max c 1 1 cs (omega arith) (omega arith))

-- the start of the calls is a streak
take-lead : (c : CallRecord) (cs : List CallRecord) → All (λ d. d ≡ c) (take (lead c cs) cs)
unfolding lead
take-lead c [] = tt
take-lead c (d ∷ ds) = elim (Bool-cases (same_record d c)) [
  | inl same ↦ rw same (eq-of-same_record d c same, take-lead c ds)
  | inr other ↦ rw other tt
]

lead-le : (c : CallRecord) (cs : List CallRecord) → lead c cs ≤ length cs
unfolding lead
lead-le c [] = omega arith
lead-le c (d ∷ ds) = ground (arith, lead-le c ds)

lead-All :
    (c : CallRecord) (cs back : List CallRecord)
    → All (λ d. d ≡ c) cs
    → length cs ≤ lead c (cs ++ back)
unfolding lead
lead-All c [] back h = omega arith
lead-All c (d ∷ ds) back (e, h) =
    let same : same_record d c ≡ true = rw e (same_record_self c) in
    rw same (omega (arith, lead-All c ds back h))

take-drop : (n : ℕ) (cs : List CallRecord) → cs ≡ take n cs ++ drop n cs
take-drop zero cs = refl
take-drop (suc n) [] = refl
take-drop (suc n) (c ∷ cs) = ap (λ ds. c ∷ ds) (take-drop n cs)

longest-HasStreak : (cs : List CallRecord) → HasStreak cs (longest cs)
unfolding longest
longest-HasStreak [] = ([], [], [], refl, tt, refl)
longest-HasStreak (c ∷ cs) =
    let (front, run, back, split, same, total) = longest-HasStreak cs in
    elim (Bool-cases (leb (longest cs) (suc (lead c cs)))) [
      | inl first ↦ (
        [],
        c ∷ take (lead c cs) cs,
        drop (lead c cs) cs,
        ap (λ ds. c ∷ ds) (take-drop (lead c cs) cs),
        take-lead c cs,
        omega (
          arith,
          length-take (lead c cs) cs,
          lead-le c cs,
          leb→le (longest cs) (suc (lead c cs)) first,
        ),
      )
      | inr later ↦ (
        c ∷ front,
        run,
        back,
        ap (λ ds. c ∷ ds) split,
        same,
        omega (arith, total, not_leb→lt (longest cs) (suc (lead c cs)) later),
      )
    ]

streak-le-longest :
    (front run back : List CallRecord) → AllSame run → length run ≤ longest (front ++ (run ++ back))
unfolding longest
streak-le-longest [] [] back h = omega arith
streak-le-longest [] (c ∷ cs) back h = omega (arith, lead-All c cs back h)
streak-le-longest (c ∷ front) run back h = omega (arith, streak-le-longest front run back h)

-- What the collector counts as retries is the length of a longest streak of the same call, across
-- all turns of its history: there is a streak of that length, and none is longer.
pub retry_accumulation-longest :
    (history : History)
    → HasStreak (all_calls history) (retry_accumulation history)
      × ((n : ℕ) → HasStreak (all_calls history) n → n ≤ retry_accumulation history)
unfolding retry_accumulation
retry_accumulation-longest history =
    let e = streak_of-longest (all_calls history) in
    (
      subst (HasStreak (all_calls history)) (sym e) (longest-HasStreak (all_calls history)),
      λ n (front, run, back, split, same, total).
          let le = streak-le-longest front run back same in
          let f : longest (front ++ (run ++ back)) ≡ longest (all_calls history) =
            ap longest (sym split) in
          omega (arith, e, le, f, total),
    )
