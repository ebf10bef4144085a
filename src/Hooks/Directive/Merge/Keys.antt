-- ===== src/Hooks/Directive/Merge/Keys.antt =====
-- Directives that carry a key are merged at most once (di-core/src/hooks/directive.rs).
use di_rac.Prelude.{
  ℕ, suc, ◌+◌, ◌≤◌, ℤ, Bool, true, false, ◌||◌, List, [], ◌∷◌, ◌++◌, ◌≡◌, refl, ap, ◌↔◌, arith,
  Option, some, none, All, any, map, ==_iff, eq_iff, if◌then◌else◌,
}
use di_rac.Hooks.Directive.{
  DedupeKey, key_eq, LoopDirective, require_validation, trigger_observer, trigger_planner_review,
  MergedDirectives, seen, ValidationRequest, ObserverTrigger, PlannerReview, no_directives,
}
use di_rac.Hooks.Directive.Merge.{merge_one, merge_from, merge}

pub key_eq_iff : (a b : DedupeKey) → (key_eq a b ≡ true) ↔ (a ≡ b)
unfolding key_eq
key_eq_iff a b = ground (
  arith,
  eq_iff a.hook_id b.hook_id,
  eq_iff a.event b.event,
  eq_iff a.kind b.kind,
  ==_iff a.scope_hash b.scope_hash,
)

abbrev pub count : DedupeKey → List DedupeKey → ℕ
count k [] = 0
count k (j ∷ js) = (if key_eq k j then 1 else 0) + count k js

pub count-append :
    (k : DedupeKey) (xs ys : List DedupeKey) → count k (xs ++ ys) ≡ count k xs + count k ys
count-append k [] ys = omega arith
count-append k (x ∷ xs) ys = omega (arith, count-append k xs ys)

-- the keys of the requests that wait in the state
abbrev pub validation_keys : List ValidationRequest → List DedupeKey
validation_keys = map (λ v. v.dedupe_key)

abbrev pub trigger_keys : List ObserverTrigger → List DedupeKey
trigger_keys = map (λ t. t.dedupe_key)

abbrev pub review_keys : List PlannerReview → List DedupeKey
review_keys = map (λ r. r.dedupe_key)

-- how many requests of the state carry the key
abbrev pub pending : DedupeKey → MergedDirectives → ℕ
pending k m =
    count k (validation_keys m.validations)
    + count k (trigger_keys m.observer_triggers)
    + count k (review_keys m.planner_reviews)

-- No key is pending twice, and what is pending has been seen.
abbrev pub IsDeduped : MergedDirectives → Type 0
IsDeduped m = (k : DedupeKey) → pending k m ≤ (if seen k m.seen_keys then 1 else 0)

pub no_directives-IsDeduped : IsDeduped no_directives
unfolding seen
no_directives-IsDeduped k = omega arith

module _ (k : DedupeKey) where
  count_validations :
      (vs : List ValidationRequest) (v : ValidationRequest)
      → count k (validation_keys (vs ++ v ∷ []))
        ≡ count k (validation_keys vs) + (if key_eq k v.dedupe_key then 1 else 0)
  count_validations [] v = omega arith
  count_validations (x ∷ vs) v = omega (arith, count_validations vs v)

  count_triggers :
      (ts : List ObserverTrigger) (t : ObserverTrigger)
      → count k (trigger_keys (ts ++ t ∷ []))
        ≡ count k (trigger_keys ts) + (if key_eq k t.dedupe_key then 1 else 0)
  count_triggers [] t = omega arith
  count_triggers (x ∷ ts) t = omega (arith, count_triggers ts t)

  count_reviews :
      (rs : List PlannerReview) (r : PlannerReview)
      → count k (review_keys (rs ++ r ∷ []))
        ≡ count k (review_keys rs) + (if key_eq k r.dedupe_key then 1 else 0)
  count_reviews [] r = omega arith
  count_reviews (x ∷ rs) r = omega (arith, count_reviews rs r)

-- the key that a directive carries
abbrev pub key_of : LoopDirective → Option DedupeKey
key_of (require_validation argv reason key) = some key
key_of (trigger_observer observer_id reason s scope key) = some key
key_of (trigger_planner_review reason key) = some key
key_of _ = none

abbrev pub carries : DedupeKey → LoopDirective → Bool
carries k d = elim (key_of d) [ none ↦ false | some j ↦ key_eq k j ]

pub seen-cons :
    (k j : DedupeKey) (ks : List DedupeKey) → seen k (j ∷ ks) ≡ (key_eq k j || seen k ks)
unfolding seen
seen-cons k j ks = refl

seen_equal : (k j : DedupeKey) (ks : List DedupeKey) → key_eq k j ≡ true → seen k ks ≡ seen j ks
seen_equal k j ks e = ap (λ x. seen x ks) ((key_eq_iff k j).0 e)

pub merge_one-IsDeduped :
    (now : ℤ) (m : MergedDirectives) (d : LoopDirective)
    → IsDeduped m
    → IsDeduped (merge_one now m d)
unfolding merge_one
merge_one-IsDeduped now m (require_validation argv reason key) h k = ground (
  arith,
  h k,
  seen-cons k key m.seen_keys,
  seen_equal k key m.seen_keys,
  count_validations k m.validations
      (record { argv = argv; reason = reason; dedupe_key = key; completed = false }),
)
merge_one-IsDeduped now m (trigger_observer observer_id reason s scope key) h k = ground (
  arith,
  h k,
  seen-cons k key m.seen_keys,
  seen_equal k key m.seen_keys,
  count_triggers k m.observer_triggers (record {
    observer_id = observer_id;
    reason = reason;
    severity = s;
    scope = scope;
    dedupe_key = key;
  }),
)
merge_one-IsDeduped now m (trigger_planner_review reason key) h k = ground (
  arith,
  h k,
  seen-cons k key m.seen_keys,
  seen_equal k key m.seen_keys,
  count_reviews k m.planner_reviews (record { reason = reason; dedupe_key = key }),
)
merge_one-IsDeduped now m _ h k = h k

merge_from-IsDeduped :
    (clock : ℕ → ℤ) (n : ℕ) (m : MergedDirectives) (ds : List LoopDirective)
    → IsDeduped m
    → IsDeduped (merge_from clock n m ds)
unfolding merge_from
merge_from-IsDeduped clock n m [] h = h
merge_from-IsDeduped clock n m (d ∷ ds) h =
    merge_from-IsDeduped clock (suc n) (merge_one (clock n) m d) ds
      (merge_one-IsDeduped (clock n) m d h)

-- Where every key was pending at most once, and only if seen, it is so after a merge: no batch can
-- make a second validation, observer trigger or planner review with the key of another.
pub merge-IsDeduped :
    (clock : ℕ → ℤ) (m : MergedDirectives) (ds : List LoopDirective)
    → IsDeduped m
    → IsDeduped (merge clock m ds)
unfolding merge
merge-IsDeduped clock = merge_from-IsDeduped clock 0

seen-merge_one :
    (now : ℤ) (m : MergedDirectives) (d : LoopDirective) (k : DedupeKey)
    → seen k (merge_one now m d).seen_keys ≡ (carries k d || seen k m.seen_keys)
unfolding merge_one
seen-merge_one now m (require_validation argv reason key) k =
    ground (arith, seen-cons k key m.seen_keys, seen_equal k key m.seen_keys)
seen-merge_one now m (trigger_observer observer_id reason s scope key) k =
    ground (arith, seen-cons k key m.seen_keys, seen_equal k key m.seen_keys)
seen-merge_one now m (trigger_planner_review reason key) k =
    ground (arith, seen-cons k key m.seen_keys, seen_equal k key m.seen_keys)
seen-merge_one now m _ k = refl

seen-merge_from :
    (clock : ℕ → ℤ) (n : ℕ) (m : MergedDirectives) (ds : List LoopDirective) (k : DedupeKey)
    → seen k (merge_from clock n m ds).seen_keys ≡ (any (carries k) ds || seen k m.seen_keys)
unfolding merge_from
seen-merge_from clock n m [] k = refl
seen-merge_from clock n m (d ∷ ds) k = ground (
  arith,
  seen-merge_from clock (suc n) (merge_one (clock n) m d) ds k,
  seen-merge_one (clock n) m d k,
)

-- the key of each directive has been seen
abbrev pub AllSeen : List LoopDirective → MergedDirectives → Type 0
AllSeen ds m = All (λ d. (k : DedupeKey) × (key_of d ≡ some k) × (seen k m.seen_keys ≡ true)) ds

merge_one-seen :
    (now : ℤ) (m : MergedDirectives) (d : LoopDirective) (k : DedupeKey)
    → key_of d ≡ some k
    → seen k m.seen_keys ≡ true
    → merge_one now m d ≡ m
unfolding merge_one
merge_one-seen now m d k e h = ground arith

merge_from_seen :
    (clock : ℕ → ℤ) (n : ℕ) (m : MergedDirectives) (ds : List LoopDirective)
    → AllSeen ds m
    → merge_from clock n m ds ≡ m
unfolding merge_from
merge_from_seen clock n m [] h = refl
merge_from_seen clock n m (d ∷ ds) h =
    let (k, e, old) = h.0 in
    rw (merge_one-seen (clock n) m d k e old) (merge_from_seen clock (suc n) m ds h.1)

-- every directive carries a key
abbrev pub AllKeyed : List LoopDirective → Type 0
AllKeyed = All (λ d. (k : DedupeKey) × (key_of d ≡ some k))

key_eq_refl : (k : DedupeKey) → key_eq k k ≡ true
key_eq_refl k = (key_eq_iff k k).1 refl

merged_seen :
    (clock : ℕ → ℤ) (n : ℕ) (m : MergedDirectives) (d : LoopDirective) (ds : List LoopDirective)
    (k : DedupeKey)
    → key_of d ≡ some k
    → seen k (merge_from clock n m (d ∷ ds)).seen_keys ≡ true
merged_seen clock n m d ds k e = ground (arith, seen-merge_from clock n m (d ∷ ds) k, key_eq_refl k)

merge_from-AllSeen :
    (clock : ℕ → ℤ) (n : ℕ) (m : MergedDirectives) (ds : List LoopDirective)
    → AllKeyed ds
    → AllSeen ds (merge_from clock n m ds)
unfolding merge_from
merge_from-AllSeen clock n m [] h = tt
merge_from-AllSeen clock n m (d ∷ ds) h =
    let (k, e) = h.0 in
    (
      (k, e, merged_seen clock n m d ds k e),
      merge_from-AllSeen clock (suc n) (merge_one (clock n) m d) ds h.1,
    )

-- A batch in which every directive carries a key changes nothing when it is merged again, at any
-- later time.
pub merge_twice :
    (clock later : ℕ → ℤ) (m : MergedDirectives) (ds : List LoopDirective)
    → AllKeyed ds
    → merge later (merge clock m ds) ds ≡ merge clock m ds
unfolding merge
merge_twice clock later m ds h =
    merge_from_seen later 0 (merge_from clock 0 m ds) ds (merge_from-AllSeen clock 0 m ds h)
