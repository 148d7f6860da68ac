-- ===== src/Apply/Runs.antt =====
-- Each step of dispatch_apply's threads keeps the runs of every index (src/apply.c): an index that was
-- taken is in the hands of one thread, or has been run once.
use swift_corelibs_libdispat.Common.{
  ℕ, ◌+◌, ◌-◌, ◌%◌, ◌^◌, ◌≤◌, ◌<◌, ◌≡◌, ◌⊎◌, inl, inr, refl, arith, Bool, true, false, ◌==◌,
  if◌then◌else◌, ℕ_discrete,
}
use swift_corelibs_libdispat.Apply.{
  Shared, Pc, starting, calling, called, finishing, signalling, waking, awaiting, waiting, at_futex,
  asleep, destroying, leaving, freeing, gone, step, out, inc_index, thread_event_signal,
  thread_event_wait, thread_event_wait_slow, thread_event_destroy, ran,
}
use swift_corelibs_libdispat.Apply.Counts.{late_pc}
use swift_corelibs_libdispat.Apply.Outcome.{Outcome, if_eq, if_lt}

-- With `h` threads that are to run the index `i`, which was run `n` times.
abbrev pub RunsOk : ℕ → Shared → ℕ → ℕ → Type 0
RunsOk i m n h =
    (i < m.iterations) × (i < m.index) × (n + h ≡ 1)
    ⊎ (m.iterations ≤ i ⊎ m.index ≤ i) × (n + h ≡ 0)

ran_out : (w : Bool) (i : ℕ) → ran (out w) i ≡ 0
ran_out true i = refl
ran_out false i = refl

module _ (w : Bool) (m : Shared) (i n h : ℕ) where
  abbrev pub RunsAfter : ℕ → Shared → Pc → Type 0
  RunsAfter k m' p' = (m'.iterations ≡ m.iterations) × RunsOk i m' (n + k) (h + ran p' i)

  stay :
      (m' : Shared) (p p' : Pc)
      → (m'.index ≡ m.index) × (m'.iterations ≡ m.iterations)
      → ran p' i ≡ 0
      → RunsOk i m n (h + ran p i)
      → RunsAfter (ran p i) m' p'
  stay m' p p' (e, f) z (inl (a, b, c)) = (f, inl (omega arith, omega arith, omega arith))
  stay m' p p' (e, f) z (inr (inl a, c)) = (f, inr (inl (omega arith), omega arith))
  stay m' p p' (e, f) z (inr (inr a, c)) = (f, inr (inr (omega arith), omega arith))

  stay_if :
      (m' : Shared) (p p' q : Pc) (b c : ℕ)
      → (m'.index ≡ m.index) × (m'.iterations ≡ m.iterations)
      → (ran p' i ≡ 0) × (ran q i ≡ 0)
      → RunsOk i m n (h + ran p i)
      → RunsAfter (ran p i) m' (if b == c then p' else q)
  stay_if m' p p' q b c e (x, y) a =
      if_eq (RunsAfter (ran p i) m') b c (λ z. stay m' p p' e x a) (λ z. stay m' p q e y a)

  takes :
      (done : ℕ)
      → m.index + 1 < 2 ^ 64
      → m.index < m.iterations
      → RunsOk i m n (h + 0)
      → RunsAfter 0 (inc_index m) (calling m.index done)
  takes done s l a = (
    refl,
    elim (ℕ_discrete i m.index) [
      | yes e ↦
          let t : (i == m.index) ≡ true = ground arith in
          rw t (
            inl (
              omega arith,
              omega arith,
              elim a [ inl (x, y, z) ↦ absurd (omega arith) | inr (x, z) ↦ omega arith ],
            ))
      | no e ↦
          let t : (i == m.index) ≡ false = ground arith in
          rw t (elim a [
            | inl (x, y, z) ↦ inl (omega arith, omega arith, omega arith)
            | inr (inl x, z) ↦ inr (inl (omega arith), omega arith)
            | inr (inr x, z) ↦ inr (inr (omega arith), omega arith)
          ])
    ],
  )

  exhausted :
      (p' : Pc)
      → m.index + 1 < 2 ^ 64
      → (m.index < m.iterations → ⊥)
      → ran p' i ≡ 0
      → RunsOk i m n (h + 0)
      → RunsAfter 0 (inc_index m) p'
  exhausted p' s l o (inl (x, y, z)) = (refl, inl (omega arith, omega arith, omega arith))
  exhausted p' s l o (inr (inl x, z)) = (refl, inr (inl (omega arith), omega arith))
  exhausted p' s l o (inr (inr x, z)) = (refl, inr (inl (omega (arith, l)), omega arith))

  pub step-Runs :
      (p : Pc)
      → (late_pc p ≡ 0 → m.index + 1 < 2 ^ 64)
      → RunsOk i m n (h + ran p i)
      → Outcome (RunsAfter (ran p i)) (RunsAfter (ran p i)) Unit (step w m p)
  unfolding step thread_event_signal thread_event_wait thread_event_wait_slow thread_event_destroy
  step-Runs starting s a =
      if_lt (RunsAfter 0 (inc_index m)) m.index m.iterations (λ l. takes 0 (s refl) l a)
        (λ l. exhausted (out w) (s refl) l (ran_out w i) a)
  step-Runs (calling idx done) s a =
      stay m (calling idx done) (called (done + 1)) (refl, refl) refl a
  step-Runs (called done) s a =
      if_lt (RunsAfter 0 (inc_index m)) m.index m.iterations (λ l. takes done (s refl) l a)
        (λ l. exhausted (finishing done) (s refl) l refl a)
  step-Runs (finishing done) s a =
      let todo : ℕ = (m.todo + (2 ^ 64 - done)) % 2 ^ 64 in
      stay_if (record m { todo = todo }) (finishing done) signalling (out w) todo 0 (refl, refl)
        (refl, ran_out w i) a
  step-Runs signalling s a =
      stay_if (record m { dte_value = (m.dte_value + 1) % 2 ^ 32 }) signalling (out w) waking
        m.dte_value 0 (refl, refl) (ran_out w i, refl) a
  step-Runs waking s a = stay m waking (out w) (refl, refl) (ran_out w i) a
  step-Runs awaiting s a =
      let value : ℕ = (m.dte_value + (2 ^ 32 - 1)) % 2 ^ 32 in
      stay_if (record m { dte_value = value }) awaiting destroying waiting value 0 (refl, refl)
        (refl, refl) a
  step-Runs waiting s a =
      if_eq (Outcome (RunsAfter 0) (RunsAfter 0) Unit) m.dte_value 0
        (λ x. stay m waiting destroying (refl, refl) refl a)
        (λ x.
          if_eq (Outcome (RunsAfter 0) (RunsAfter 0) Unit) m.dte_value (2 ^ 32 - 1)
            (λ y. stay m waiting at_futex (refl, refl) refl a) (λ y. tt))
  step-Runs at_futex s a =
      stay_if m at_futex asleep waiting m.dte_value (2 ^ 32 - 1) (refl, refl) (refl, refl) a
  step-Runs asleep s a = stay m asleep waiting (refl, refl) refl a
  step-Runs destroying s a =
      if_eq (Outcome (RunsAfter 0) (RunsAfter 0) Unit) m.dte_value 0
        (λ x. stay m destroying leaving (refl, refl) refl a) (λ x. tt)
  step-Runs leaving s a =
      let thr_cnt : ℕ = (m.thr_cnt + (2 ^ 32 - 1)) % 2 ^ 32 in
      stay_if (record m { thr_cnt = thr_cnt }) leaving freeing gone thr_cnt 0 (refl, refl)
        (refl, refl) a
  step-Runs freeing s a = stay m freeing gone (refl, refl) refl a
  step-Runs gone s a = tt
