-- ===== src/Agent/Recovery/Stagnation/Loops.antt =====
-- Which calls are answered with a warning (di-core/src/agent/recovery.rs).
use di_rac.Prelude.{
  leb→le, leb, false, ◌≢◌, ℕ, zero, suc, ◌≤◌, ◌<◌, String, Bool, true, List, [], ◌∷◌, Option, none,
  some, ◌≡◌, refl, sym, ◌∙◌, arith, inl, inr, Bool-cases, eq_iff, ltb, ltb→lt, length, take, any,
  is_some, or_else, ◌⊎◌,
}
use di_rac.Agent.Recovery.Stagnation.{
  ToolCallRecord, StagnationDetector, same_call, drop_oldest, remember_call, count_same, repeated,
  alternating, circular, find_loop, answered, record_call,
}

-- the first calls of the list, that many, are all the same
abbrev Starts : ℕ → ToolCallRecord → List ToolCallRecord → Type 0
Starts zero r rs = Unit
Starts (suc k) r [] = ⊥
Starts (suc k) r (s ∷ rs) = (s ≡ r) × Starts k r rs

drop_oldest-Starts :
    (k : ℕ) (r : ToolCallRecord) (rs : List ToolCallRecord)
    → k < length rs
    → Starts k r rs
    → Starts k r (drop_oldest rs)
drop_oldest-Starts zero r rs long h = tt
drop_oldest-Starts (suc k) r [] long h = absurd h
drop_oldest-Starts (suc k) r (s ∷ []) long h = absurd (omega (arith, long))
drop_oldest-Starts (suc k) r (s ∷ t ∷ rs) long (e, h) =
    (e, drop_oldest-Starts k r (t ∷ rs) (omega (arith, long)) h)

remember_call-Starts :
    (k : ℕ) (r : ToolCallRecord) (d : StagnationDetector)
    → suc k ≤ d.max_history
    → Starts k r d.history
    → Starts (suc k) r (remember_call r d)
unfolding remember_call
remember_call-Starts k r d room h = elim (Bool-cases (ltb d.max_history (length (r ∷ d.history)))) [
  | inl long ↦ rw long (
      drop_oldest-Starts (suc k) r (r ∷ d.history) (omega (arith, ltb→lt _ _ long, room)) (refl, h))
  | inr short ↦ rw short (refl, h)
]

record_call-Starts :
    (k : ℕ) (r : ToolCallRecord) (d : StagnationDetector)
    → suc k ≤ d.max_history
    → Starts k r d.history
    → Starts (suc k) r (record_call r d).0.history
unfolding record_call
record_call-Starts k r d room h =
    elim (find_loop (remember_call r d))
      as (λ o. Starts (suc k) r (answered (record d { history = remember_call r d }) o).0.history) [
        | none ↦ remember_call-Starts k r d room h
        | some base ↦ remember_call-Starts k r d room h
      ]

keeps_limit :
    (r : ToolCallRecord) (d : StagnationDetector) → (record_call r d).0.max_history ≡ d.max_history
unfolding record_call
keeps_limit r d =
    elim (find_loop (remember_call r d))
      as (λ o.
        (answered (record d { history = remember_call r d }) o).0.max_history ≡ d.max_history) [
          | none ↦ refl
          | some base ↦ refl
        ]

same_call_refl : (r : ToolCallRecord) → same_call r r ≡ true
same_call_refl r = ground (arith, eq_iff r.tool r.tool, eq_iff r.args_hash r.args_hash)

find_loop-Starts :
    (r : ToolCallRecord) (rs : List ToolCallRecord) → Starts 3 r rs → is_some (find_loop rs) ≡ true
unfolding find_loop
find_loop-Starts r [] h = absurd h
find_loop-Starts r (a ∷ []) (p, h) = absurd h
find_loop-Starts r (a ∷ b ∷ []) (p, h) = absurd h.1
find_loop-Starts r (a ∷ b ∷ c ∷ rs) (p, (q, (s, h))) =
    rw (p, q, s) (ground (arith, same_call_refl r))

is_some-answered :
    (d : StagnationDetector) (o : Option String) → is_some (answered d o).1 ≡ is_some o
is_some-answered d none = refl
is_some-answered d (some base) = refl

-- Whatever came before, the third of three identical calls in a row is answered with a warning,
-- where the detector keeps at least three calls.
pub third_call_warns :
    (r : ToolCallRecord) (d : StagnationDetector)
    → 3 ≤ d.max_history
    → let second = (record_call r (record_call r d).0).0 in is_some (record_call r second).1 ≡ true
third_call_warns r d room =
    let first = (record_call r d).0 in
    let second = (record_call r first).0 in
    let first_same = record_call-Starts 0 r d (omega (arith, room)) tt in
    let second_same =
      record_call-Starts 1 r first (omega (arith, room, keeps_limit r d)) first_same in
    let third_same =
      remember_call-Starts 2 r second (omega (arith, room, keeps_limit r d, keeps_limit r first))
        second_same in
    unfold record_call in
    is_some-answered _ (find_loop (remember_call r second)) ∙ find_loop-Starts r _ third_same

any-drop_oldest :
    (p : ToolCallRecord → Bool) (rs : List ToolCallRecord)
    → any p (drop_oldest rs) ≡ true
    → any p rs ≡ true
any-drop_oldest p [] h = h
any-drop_oldest p (r ∷ []) h = ground (arith, h)
any-drop_oldest p (r ∷ s ∷ rs) h = ground (arith, any-drop_oldest p (s ∷ rs), h)

same_call_sym : (r s : ToolCallRecord) → same_call r s ≡ same_call s r
same_call_sym r s = ground (
  arith,
  eq_iff r.tool s.tool,
  eq_iff s.tool r.tool,
  eq_iff r.args_hash s.args_hash,
  eq_iff s.args_hash r.args_hash,
)

false-ne-true : false ≢ true
false-ne-true e = cc

count_same-cons :
    (r s : ToolCallRecord) (rs : List ToolCallRecord)
    → count_same r (s ∷ rs) ≤ suc (count_same r rs)
count_same-cons r s rs = ground arith

count_same-any :
    (k : ℕ) (r : ToolCallRecord) (rs : List ToolCallRecord)
    → 0 < count_same r (take k rs)
    → any (same_call r) rs ≡ true
count_same-any zero r rs h = absurd (omega (arith, h))
count_same-any (suc k) r [] h = absurd (omega (arith, h))
count_same-any (suc k) r (s ∷ rs) h = ground (arith, count_same-any k r rs, same_call_sym r s)

repeated-counts : (r : ToolCallRecord) (n : ℕ) → is_some (repeated r n) ≡ true → leb 3 n ≡ true
repeated-counts r n h = elim (Bool-cases (leb 3 n)) [
  | inl enough ↦ enough
  | inr few ↦ absurd (false-ne-true (rw few at h))
]

repeated-any :
    (r : ToolCallRecord) (rs : List ToolCallRecord)
    → is_some (repeated r (count_same r (take 6 (r ∷ rs)))) ≡ true
    → any (same_call r) rs ≡ true
repeated-any r rs h =
    let three = leb→le _ _ (repeated-counts r _ h) in
    count_same-any 5 r rs (omega (arith, three, count_same-cons r r (take 5 rs)))

alternating-any :
    (r : ToolCallRecord) (rs : List ToolCallRecord)
    → is_some (alternating (r ∷ rs)) ≡ true
    → any (same_call r) rs ≡ true
unfolding alternating
alternating-any r (b ∷ c ∷ d ∷ rs) h = ground (arith, h)
alternating-any r _ h = ground (arith, h)

circular-any :
    (r : ToolCallRecord) (rs : List ToolCallRecord)
    → is_some (circular (r ∷ rs)) ≡ true
    → any (same_call r) rs ≡ true
unfolding circular
circular-any r (b ∷ c ∷ x ∷ y ∷ z ∷ rs) h = ground (arith, h)
circular-any r _ h = ground (arith, h)

is_some-or_else :
    (a b : Option String) → is_some (or_else a b) ≡ true → (is_some a ≡ true) ⊎ (is_some b ≡ true)
is_some-or_else none b h = inr h
is_some-or_else (some s) b h = inl refl

find_loop-any :
    (r : ToolCallRecord) (rs : List ToolCallRecord)
    → is_some (find_loop (r ∷ rs)) ≡ true
    → any (same_call r) rs ≡ true
unfolding find_loop
find_loop-any r rs h = elim (Bool-cases (ltb (length (r ∷ rs)) 3)) [
  | inl few ↦ ground (arith, rw few at h)
  | inr enough ↦ elim (is_some-or_else _ _ (rw enough at h)) [
    | inl a ↦ repeated-any r rs a
    | inr b ↦ elim (is_some-or_else _ _ b) [
      | inl c ↦ alternating-any r rs c
      | inr d ↦ circular-any r rs d
    ]
  ]
]

find_loop-any_dropped :
    (r : ToolCallRecord) (rs : List ToolCallRecord)
    → is_some (find_loop (drop_oldest (r ∷ rs))) ≡ true
    → any (same_call r) rs ≡ true
unfolding find_loop
find_loop-any_dropped r [] h = ground (arith, h)
find_loop-any_dropped r (s ∷ rs) h = any-drop_oldest (same_call r) (s ∷ rs) (find_loop-any r _ h)

-- A call that is answered with a warning has been made before, and is in the history that the
-- detector kept.
pub warned_call_seen :
    (r : ToolCallRecord) (d : StagnationDetector)
    → is_some (record_call r d).1 ≡ true
    → any (same_call r) d.history ≡ true
unfolding record_call remember_call
warned_call_seen r d h =
    let found = sym (is_some-answered _ (find_loop (remember_call r d))) ∙ h in
    elim (Bool-cases (ltb d.max_history (length (r ∷ d.history)))) [
      | inl long ↦ find_loop-any_dropped r d.history (rw long at found)
      | inr short ↦ find_loop-any r d.history (rw short at found)
    ]
