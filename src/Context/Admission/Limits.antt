-- ===== src/Context/Admission/Limits.antt =====
-- What limits distiller calls (di-core/src/context/distiller/admission.rs).
use di_rac.Prelude.{
  ℕ, ◌≤◌, Bool, true, false, List, [], ◌∷◌, Option, none, some, ◌≡◌, ◌∙◌, refl, sym, ap, arith, All,
  inl, inr, Bool-cases, leb,
}
use di_rac.Context.Admission.{
  Semaphore, IsSemaphore, DistillerAdmission, AdmissionDecision, concurrency_limited, new_admission,
  in_window, state_or_new, decide, try_acquire,
}

-- a call of an agent at a time, and whether it is for a hard compaction
pub record DistillerCall : Type 0 where
  pub now : ℕ
  pub agent : ℕ
  pub is_hard_compaction : Bool

module _ (sem : Semaphore) where
  -- the decisions on calls, each of which returns before the next one asks, and what they leave
  unfoldable pub decisions :
      List DistillerCall → DistillerAdmission sem → List AdmissionDecision × DistillerAdmission sem
  unfolding try_acquire
  decisions [] d = ([], d)
  decisions (c ∷ cs) d =
      let (decision, d') = try_acquire sem c.now c.agent c.is_hard_compaction d in
      let (more, last) = decisions cs d' in (decision ∷ more, last)

abbrev pub is_concurrency : AdmissionDecision → Bool
is_concurrency concurrency_limited = true
is_concurrency _ = false

module _ (sem : Semaphore) (laws : IsSemaphore sem) where
  open sem use {State, Permit, free, take_permit}

  given_back :
      (s : State) (r : Option (Permit × State))
      → take_permit s ≡ r
      → free (decide sem r s).1 ≡ free s
  given_back s none e = refl
  given_back s (some (permit, s')) e =
      laws.free_dropped permit s' ∙ sym (laws.free_taken s s' permit e)

  allowed_where_free :
      (s : State) → 1 ≤ free s → is_concurrency (decide sem (take_permit s) s).0 ≡ false
  allowed_where_free s h =
      let (permit, s', taken) = laws.taken_where_free s h in
      ap (λ r. is_concurrency (decide sem r s).0) taken

  try_acquire_keeps :
      (now agent : ℕ) (hard : Bool) (d : DistillerAdmission sem)
      → free (try_acquire sem now agent hard d).1.concurrency_sem ≡ free d.concurrency_sem
  unfolding try_acquire state_or_new
  try_acquire_keeps now agent true d = refl
  try_acquire_keeps now agent false d =
      elim (Bool-cases
        (leb d.max_calls_per_min (in_window now (state_or_new now agent d.per_agent)).calls_made)) [
          | inl full ↦ rw full refl
          | inr open_window ↦
              rw open_window (given_back d.concurrency_sem (take_permit d.concurrency_sem) refl)
        ]

  try_acquire_unlimited :
      (now agent : ℕ) (hard : Bool) (d : DistillerAdmission sem)
      → 1 ≤ free d.concurrency_sem
      → is_concurrency (try_acquire sem now agent hard d).0 ≡ false
  unfolding try_acquire state_or_new
  try_acquire_unlimited now agent true d h = refl
  try_acquire_unlimited now agent false d h =
      elim (Bool-cases
        (leb d.max_calls_per_min (in_window now (state_or_new now agent d.per_agent)).calls_made)) [
          | inl full ↦ rw full refl
          | inr open_window ↦ rw open_window (allowed_where_free d.concurrency_sem h)
        ]

  decisions_free :
      (calls : List DistillerCall) (d : DistillerAdmission sem)
      → 1 ≤ free d.concurrency_sem
      → All (λ decision. is_concurrency decision ≡ false) (decisions sem calls d).0
        × (free (decisions sem calls d).1.concurrency_sem ≡ free d.concurrency_sem)
  unfolding decisions
  decisions_free [] d h = (tt, refl)
  decisions_free (c ∷ cs) d h =
      let kept = try_acquire_keeps c.now c.agent c.is_hard_compaction d in
      let (more, same) =
        decisions_free cs (try_acquire sem c.now c.agent c.is_hard_compaction d).1
          (omega (arith, h, kept)) in
      ((try_acquire_unlimited c.now c.agent c.is_hard_compaction d h, more), same ∙ kept)

-- With any semaphore that is as tokio documents it, and at least one permit: of calls that ask one
-- after the other, each returning before the next one asks, none is limited by concurrency, whatever
-- their times and agents, and after them every permit is free: a call that was allowed holds none.
pub no_permit_held :
    (sem : Semaphore) (max_concurrency max_calls_per_min : ℕ) (calls : List DistillerCall)
    → IsSemaphore sem
    → 1 ≤ max_concurrency
    → All
        (λ decision. is_concurrency decision ≡ false)
        (decisions sem calls (new_admission sem max_concurrency max_calls_per_min)).0
      × (sem.free
            (decisions sem calls
              (new_admission sem max_concurrency max_calls_per_min)).1.concurrency_sem
          ≡ max_concurrency)
no_permit_held sem max_concurrency max_calls_per_min calls laws h =
    let start = laws.free_new max_concurrency in
    let (unlimited, same) =
      decisions_free sem laws calls (new_admission sem max_concurrency max_calls_per_min)
        (omega (arith, h, start)) in
    (unlimited, same ∙ start)
