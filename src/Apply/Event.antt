-- ===== src/Apply/Event.antt =====
-- Each step of dispatch_apply's threads keeps the thread event (src/apply.c, src/shims/lock.h,
-- src/shims/lock.c): its value against the signal and the wait, and who has to wake the sleeper.
use swift_corelibs_libdispat.Common.{
  ℕ, ◌+◌, ◌-◌, ◌%◌, ◌^◌, ◌≤◌, ◌<◌, ◌≡◌, ◌⊎◌, inl, inr, refl, arith, Bool, true, false,
}
use swift_corelibs_libdispat.Apply.{
  Shared, Pc, signalling, awaiting, waiting, at_futex, out, thread_event_signal, thread_event_wait,
  thread_event_wait_slow,
}
use swift_corelibs_libdispat.Apply.Counts.{waker_pc, sleeper_pc, waited_pc, past_pc, of_waiter, At}
use swift_corelibs_libdispat.Apply.Outcome.{Outcome, if_eq}

-- With `v` threads that have decremented the value, `q` that have returned from the wait, `z` asleep and
-- `k` about to wake.
pub record Event (m : Shared) (signals v q z k : ℕ) : Type 0 where
  pub one_signal : signals ≤ 1
  pub one_wait : v ≤ 1
  pub value : (m.dte_value + v ≡ signals) ⊎ (m.dte_value + v ≡ 2 ^ 32) × (signals ≡ 0) × (v ≡ 1)
  pub returned : (q ≡ 0) ⊎ (signals ≡ 1) × (v ≡ 1)
  pub sleeps : z ≤ v
  pub wakes : (z ≡ 0) ⊎ (signals ≡ 0) ⊎ (0 < k)

pub out_event :
    (w : Bool)
    → At w (out w)
      × (of_waiter w (waited_pc (out w)) ≡ of_waiter w 0)
      × (of_waiter w (past_pc (out w)) ≡ of_waiter w 0)
      × (sleeper_pc (out w) ≡ 0)
out_event true = (refl, refl, refl, refl)
out_event false = (tt, refl, refl, refl)

pub waiter_counts : (w : Bool) → w ≡ true → (of_waiter w 0 ≡ 0) × (of_waiter w 1 ≡ 1)
waiter_counts w e = rw e (refl, refl)

other_counts : (w : Bool) (n : ℕ) → of_waiter w n ≤ n
other_counts true n = omega arith
other_counts false n = omega arith

module _ (w : Bool) (m : Shared) (signals v q z k : ℕ) where
  abbrev pub EventAfter : ℕ → Shared → Pc → Type 0
  EventAfter j m' p' =
      At w p'
      × Event m' (signals + j) (v + of_waiter w (waited_pc p')) (q + of_waiter w (past_pc p'))
          (z + sleeper_pc p') (k + waker_pc p')

  -- The sleepers among the others are awake.
  abbrev pub EventWoken : ℕ → Shared → Pc → Type 0
  EventWoken j m' p' =
      At w p'
      × Event m' (signals + j) (v + of_waiter w (waited_pc p')) (q + of_waiter w (past_pc p'))
          (0 + sleeper_pc p') (k + waker_pc p')

  abbrev pub Before : Pc → Type 0
  Before p =
      Event m signals (v + of_waiter w (waited_pc p)) (q + of_waiter w (past_pc p))
        (z + sleeper_pc p) (k + waker_pc p)

  pub stay :
      (m' : Shared) (p p' : Pc)
      → m'.dte_value ≡ m.dte_value
      → waker_pc p ≡ 0
      → At w p'
        × (of_waiter w (waited_pc p') ≡ of_waiter w (waited_pc p))
        × (of_waiter w (past_pc p') ≡ of_waiter w (past_pc p))
        × (sleeper_pc p' ≡ 0)
      → Before p
      → EventAfter 0 m' p'
  stay m' p p' e i (at, f, g, h) a = (
    at,
    record {
      one_signal = omega (arith, a.one_signal);
      one_wait = omega (arith, a.one_wait);
      value = elim a.value [
        | inl x ↦ inl (omega arith)
        | inr (x, y, u) ↦ inr (omega arith, omega arith, omega arith)
      ];
      returned = elim a.returned [
        | inl x ↦ inl (omega arith)
        | inr (x, y) ↦ inr (omega arith, omega arith)
      ];
      sleeps = omega (arith, a.sleeps);
      wakes = elim a.wakes [
        | inl x ↦ inl (omega arith)
        | inr (inl x) ↦ inr (inl (omega arith))
        | inr (inr x) ↦ inr (inr (omega arith))
      ];
    },
  )

  -- The signal of the last thread that ran an index
  pub signals_event :
      signals ≡ 0
      → z ≤ v
      → Before signalling
      → Outcome (EventAfter 1) (EventWoken 1) ⊥ (thread_event_signal w m)
  unfolding thread_event_signal
  signals_event none_yet zv a =
      let (at, f, g, h) = out_event w in
      let few = other_counts w 0 in
      if_eq (EventAfter 1 (record m { dte_value = (m.dte_value + 1) % 2 ^ 32 })) m.dte_value 0
        (λ e. (
          at,
          record {
            one_signal = omega arith;
            one_wait = omega (arith, a.one_wait);
            value = elim a.value [
              | inl x ↦ inl (omega arith)
              | inr (x, y, u) ↦ absurd (omega arith)
            ];
            returned = elim a.returned [
              | inl x ↦ inl (omega arith)
              | inr (x, y) ↦ absurd (omega arith)
            ];
            sleeps = omega (arith, a.sleeps);
            wakes = elim a.value [
              | inl x ↦ inl (omega arith)
              | inr (x, y, u) ↦ absurd (omega arith)
            ];
          },
        ))
        (λ e. (
          tt,
          record {
            one_signal = omega arith;
            one_wait = omega (arith, a.one_wait);
            value = elim a.value [
              | inl x ↦ absurd (omega arith)
              | inr (x, y, u) ↦ inl (omega arith)
            ];
            returned = elim a.returned [
              | inl x ↦ inl (omega arith)
              | inr (x, y) ↦ absurd (omega arith)
            ];
            sleeps = omega (arith, a.sleeps);
            wakes = inr (inr (omega arith));
          },
        ))

  -- The wait decrements the value.
  pub waits_event :
      w ≡ true
      → v ≡ 0
      → z ≤ v
      → q ≤ v
      → Before awaiting
      → Outcome (EventAfter 0) (EventWoken 0) ⊥ (thread_event_wait m)
  unfolding thread_event_wait
  waits_event e none_yet zv qv a =
      let (zero_of, one_of) = waiter_counts w e in
      let value : ℕ = (m.dte_value + (2 ^ 32 - 1)) % 2 ^ 32 in
      if_eq (EventAfter 0 (record m { dte_value = value })) value 0
        (λ x. (
          e,
          record {
            one_signal = omega (arith, a.one_signal);
            one_wait = omega arith;
            value = elim a.value [
              | inl y ↦ inl (omega (arith, a.one_signal))
              | inr y ↦ absurd (omega (arith, y.0))
            ];
            returned = elim a.value [
              | inl y ↦ inr (omega (arith, a.one_signal), omega arith)
              | inr y ↦ absurd (omega (arith, y.0))
            ];
            sleeps = omega arith;
            wakes = inl (omega arith);
          },
        ))
        (λ x. (
          e,
          record {
            one_signal = omega (arith, a.one_signal);
            one_wait = omega arith;
            value = elim a.value [
              | inl y ↦ inr (omega (arith, a.one_signal), omega (arith, a.one_signal), omega arith)
              | inr y ↦ absurd (omega (arith, y.2))
            ];
            returned = inl (omega arith);
            sleeps = omega arith;
            wakes = inl (omega arith);
          },
        ))

  -- The value that the loop of the wait and the destruction find
  pub waited_event :
      w ≡ true
      → v ≡ 0
      → z ≤ v
      → q ≤ v
      → Before waiting
      → Outcome (EventAfter 0) (EventWoken 0) ⊥ (thread_event_wait_slow m)
  unfolding thread_event_wait_slow
  waited_event e none_yet zv qv a =
      let (zero_of, one_of) = waiter_counts w e in
      if_eq (Outcome (EventAfter 0) (EventWoken 0) ⊥) m.dte_value 0
        (λ x. (
          e,
          record {
            one_signal = omega (arith, a.one_signal);
            one_wait = omega arith;
            value = elim a.value [
              | inl y ↦ inl (omega arith)
              | inr y ↦ absurd (omega (arith, y.0))
            ];
            returned = elim a.value [
              | inl y ↦ inr (omega arith, omega arith)
              | inr y ↦ absurd (omega (arith, y.0))
            ];
            sleeps = omega arith;
            wakes = inl (omega arith);
          },
        ))
        (λ x.
          if_eq (Outcome (EventAfter 0) (EventWoken 0) ⊥) m.dte_value (2 ^ 32 - 1)
            (λ y. stay m waiting at_futex refl refl (e, refl, refl, refl) a)
            (λ y. elim a.value [
              | inl u ↦ absurd (omega (arith, a.one_signal))
              | inr u ↦ absurd (omega (arith, u.0))
            ]))
