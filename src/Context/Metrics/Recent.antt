-- ===== src/Context/Metrics/Recent.antt =====
-- The turns that the collector keeps (di-core/src/context/lifecycle_metrics.rs).
use di_rac.Prelude.{
  ℕ, zero, suc, ◌-◌, ◌≤◌, List, [], ◌∷◌, ◌++◌, ◌≡◌, ◌∙◌, refl, sym, ap, arith, inl, inr, Bool-cases,
  append_assoc, append-nil, length, length-append, drop, ltb,
}
use di_rac.Context.Metrics.{TurnMetrics, History, max_turns, record_turn, last_n}

-- the turns of a session, in order
pub record_turns : List TurnMetrics → History → History
unfolding record_turn
record_turns [] history = history
record_turns (t ∷ ts) history = record_turns ts (record_turn t history)

length-drop : (k : ℕ) (ts : History) → length (drop k ts) ≡ length ts - k
length-drop zero ts = omega arith
length-drop (suc k) [] = omega arith
length-drop (suc k) (t ∷ ts) = omega (arith, length-drop k ts)

drop-append : (k : ℕ) (ts us : History) → k ≤ length ts → drop k ts ++ us ≡ drop k (ts ++ us)
drop-append zero ts us h = refl
drop-append (suc k) [] us h = ground (arith, h)
drop-append (suc k) (t ∷ ts) us h = drop-append k ts us (omega (arith, h))

drop_one : (k : ℕ) (ts : History) → drop 1 (drop k ts) ≡ drop (suc k) ts
drop_one zero ts = refl
drop_one (suc k) [] = refl
drop_one (suc k) (t ∷ ts) = drop_one k ts

record_turn-last :
    (t : TurnMetrics) (seen : History)
    → record_turn t (last_n seen max_turns) ≡ last_n (seen ++ t ∷ []) max_turns
unfolding record_turn
record_turn-last t seen =
    let k = length seen - max_turns in
    let total = length-append seen (t ∷ []) in
    let kept = length-append (drop k seen) (t ∷ []) in
    let longer = drop-append k seen (t ∷ []) (omega arith) in
    elim (Bool-cases (ltb max_turns (length (drop k seen ++ t ∷ [])))) [
      | inl full ↦
          let e : suc k ≡ length (seen ++ t ∷ []) - max_turns =
            ground (arith, full, total, kept, length-drop k seen) in
          rw full (
            ap (drop 1) longer
            ∙ (drop_one k (seen ++ t ∷ []) ∙ ap (λ n. drop n (seen ++ t ∷ [])) e))
      | inr short ↦
          let e : k ≡ length (seen ++ t ∷ []) - max_turns =
            ground (arith, short, total, kept, length-drop k seen) in
          rw short (longer ∙ ap (λ n. drop n (seen ++ t ∷ [])) e)
    ]

record_turns-append :
    (ts : List TurnMetrics) (seen : History)
    → record_turns ts (last_n seen max_turns) ≡ last_n (seen ++ ts) max_turns
unfolding record_turns
record_turns-append [] seen = ap (λ us. last_n us max_turns) (sym (append-nil seen))
record_turns-append (t ∷ ts) seen =
    ap (record_turns ts) (record_turn-last t seen)
    ∙ (record_turns-append ts (seen ++ t ∷ [])
        ∙ ap (λ us. last_n us max_turns) (append_assoc seen (t ∷ []) ts))

-- Of any turns that are recorded in order, a new collector keeps the last twenty, in order.
pub record_turns-last : (ts : List TurnMetrics) → record_turns ts [] ≡ last_n ts max_turns
record_turns-last ts = record_turns-append ts []
