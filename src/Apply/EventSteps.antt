-- ===== src/Apply/EventSteps.antt =====
-- The thread event through every step of dispatch_apply's threads (src/apply.c): no step finds its value
-- corrupt.
use swift_corelibs_libdispat.Common.{
  ℕ, ◌+◌, ◌-◌, ◌%◌, ◌^◌, ◌≤◌, ◌≡◌, inl, inr, refl, sym, ap, ◌∙◌, arith, Bool, true,
}
use swift_corelibs_libdispat.Apply.{
  Shared, Pc, starting, calling, called, finishing, signalling, waking, awaiting, waiting, at_futex,
  asleep, destroying, leaving, freeing, gone, step, out, inc_index, signalled,
}
use swift_corelibs_libdispat.Apply.Counts.{
  signaller_pc, waker_pc, sleeper_pc, waited_pc, past_pc, of_waiter, At,
}
use swift_corelibs_libdispat.Apply.Outcome.{Outcome, if_eq, if_lt}
use swift_corelibs_libdispat.Apply.Event.{
  EventAfter, EventWoken, Before, out_event, waiter_counts, stay, signals_event, waits_event,
  waited_event,
}

module _ (w : Bool) (m : Shared) (signals v q z k : ℕ)
    (others : (w ≡ true → v ≡ 0) × (z ≤ v) × (q ≤ v)) where
  -- The wakeup
  wakes_event : Before w m signals v q z k waking → EventWoken w m signals v q z k 0 m (out w)
  wakes_event a =
      let (at, f, g, h) = out_event w in
      (
        at,
        record {
          one_signal = omega (arith, a.one_signal);
          one_wait = omega (arith, a.one_wait);
          value = elim a.value [
            | inl x ↦ inl (omega arith)
            | inr (x, y, u) ↦ inr (omega arith, omega arith, omega arith)
          ];
          returned = elim a.returned [
            | inl x ↦ inl (omega arith)
            | inr (x, y) ↦ inr (omega arith, omega arith)
          ];
          sleeps = omega arith;
          wakes = inl (omega arith);
        },
      )

  sleeps_event :
      w ≡ true
      → m.dte_value ≡ 2 ^ 32 - 1
      → Before w m signals v q z k at_futex
      → EventAfter w m signals v q z k 0 m asleep
  sleeps_event e d a =
      let (zero_of, one_of) = waiter_counts w e in
      (
        e,
        record {
          one_signal = omega (arith, a.one_signal);
          one_wait = omega (arith, a.one_wait);
          value = elim a.value [
            | inl x ↦ inl (omega arith)
            | inr (x, y, u) ↦ inr (omega arith, omega arith, omega arith)
          ];
          returned = inl (omega (arith, others.0 e, others.2));
          sleeps = omega (arith, others.0 e, others.1, others.2);
          wakes = elim a.value [
            | inl x ↦ absurd (omega (arith, a.one_signal))
            | inr (x, y, u) ↦ inr (inl (omega arith))
          ];
        },
      )

  wakes_up :
      Before w m signals v q z k asleep → w ≡ true → EventAfter w m signals v q z k 0 m waiting
  wakes_up a e = (
    e,
    record {
      one_signal = omega (arith, a.one_signal);
      one_wait = omega (arith, a.one_wait);
      value = elim a.value [
        | inl x ↦ inl (omega arith)
        | inr (x, y, u) ↦ inr (omega arith, omega arith, omega arith)
      ];
      returned = elim a.returned [
        | inl x ↦ inl (omega arith)
        | inr (x, y) ↦ inr (omega arith, omega arith)
      ];
      sleeps = omega (arith, others.1);
      wakes = elim a.wakes [
        | inl x ↦ inl (omega arith)
        | inr (inl x) ↦ inr (inl (omega arith))
        | inr (inr x) ↦ inr (inr (omega arith))
      ];
    },
  )

  abbrev After : ℕ → Shared → Pc → Type 0
  After = EventAfter w m signals v q z k

  abbrev Woken : ℕ → Shared → Pc → Type 0
  Woken = EventWoken w m signals v q z k

  abbrev Stay : (Shared) → (p p' : Pc) → Type 0
  Stay m' p p' = Before w m signals v q z k p → After 0 m' p'

  goes_out :
      (m' : Shared) (p : Pc)
      → m'.dte_value ≡ m.dte_value
      → waker_pc p ≡ 0
      → (waited_pc p ≡ 0) × (past_pc p ≡ 0)
      → Stay m' p (out w)
  goes_out m' p e i (f, g) a =
      let (at, f', g', h) = out_event w in
      stay w m signals v q z k m' p (out w) e i
        (at, f' ∙ ap (of_waiter w) (sym f), g' ∙ ap (of_waiter w) (sym g), h) a

  goes_on :
      (m' : Shared) (p p' : Pc)
      → m'.dte_value ≡ m.dte_value
      → waker_pc p ≡ 0
      → At w p'
      → (waited_pc p' ≡ waited_pc p) × (past_pc p' ≡ past_pc p) × (sleeper_pc p' ≡ 0)
      → Stay m' p p'
  goes_on m' p p' e i at (f, g, h) a =
      stay w m signals v q z k m' p p' e i (at, ap (of_waiter w) f, ap (of_waiter w) g, h) a

  pub step-Event :
      (p : Pc)
      → At w p
      → (signaller_pc p ≡ 1 → signals ≡ 0)
      → Before w m signals v q z k p
      → Outcome (After (signalled p)) (Woken (signalled p)) ⊥ (step w m p)
  unfolding step
  step-Event starting at sg a =
      if_lt (After 0 (inc_index m)) m.index m.iterations
        (λ h. goes_on (inc_index m) starting (calling m.index 0) refl refl tt (refl, refl, refl) a)
        (λ h. goes_out (inc_index m) starting refl refl (refl, refl) a)
  step-Event (calling idx done) at sg a =
      goes_on m (calling idx done) (called (done + 1)) refl refl (omega arith) (refl, refl, refl) a
  step-Event (called done) at sg a =
      if_lt (After 0 (inc_index m)) m.index m.iterations
        (λ h.
          goes_on (inc_index m) (called done) (calling m.index done) refl refl tt (refl, refl, refl)
            a)
        (λ h.
          goes_on (inc_index m) (called done) (finishing done) refl refl at (refl, refl, refl) a)
  step-Event (finishing done) at sg a =
      let todo : ℕ = (m.todo + (2 ^ 64 - done)) % 2 ^ 64 in
      if_eq (After 0 (record m { todo = todo })) todo 0
        (λ h.
          goes_on (record m { todo = todo }) (finishing done) signalling refl refl tt
            (refl, refl, refl) a)
        (λ h. goes_out (record m { todo = todo }) (finishing done) refl refl (refl, refl) a)
  step-Event signalling at sg a = signals_event w m signals v q z k (sg refl) others.1 a
  step-Event waking at sg a = wakes_event a
  step-Event awaiting at sg a = waits_event w m signals v q z k at (others.0 at) others.1 others.2 a
  step-Event waiting at sg a = waited_event w m signals v q z k at (others.0 at) others.1 others.2 a
  step-Event at_futex at sg a =
      if_eq (After 0 m) m.dte_value (2 ^ 32 - 1) (λ h. sleeps_event at h a)
        (λ h. goes_on m at_futex waiting refl refl at (refl, refl, refl) a)
  step-Event asleep at sg a = wakes_up a at
  step-Event destroying at sg a =
      let (zero_of, one_of) = waiter_counts w at in
      if_eq (Outcome (After 0) (Woken 0) ⊥) m.dte_value 0
        (λ h. goes_on m destroying leaving refl refl tt (refl, refl, refl) a)
        (λ h. elim a.returned [
          | inl x ↦ omega arith
          | inr (x, y) ↦ elim a.value [ inl u ↦ h (omega arith) | inr u ↦ omega (arith, u.1) ]
        ])
  step-Event leaving at sg a =
      let thr_cnt : ℕ = (m.thr_cnt + (2 ^ 32 - 1)) % 2 ^ 32 in
      let after : Shared = record m { thr_cnt = thr_cnt } in
      if_eq (After 0 after) thr_cnt 0
        (λ h. goes_on after leaving freeing refl refl tt (refl, refl, refl) a)
        (λ h. goes_on after leaving gone refl refl tt (refl, refl, refl) a)
  step-Event freeing at sg a = goes_on m freeing gone refl refl tt (refl, refl, refl) a
  step-Event gone at sg a = tt
