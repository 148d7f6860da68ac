-- ===== src/Apply/Account.antt =====
-- Each step of dispatch_apply's threads keeps the account of the runs (src/apply.c): da_index and da_todo
-- against the runs that the threads have not taken off yet, and the signal of the last of them; and
-- da_thr_cnt against the threads that still use the memory.
use swift_corelibs_libdispat.Common.{
  ℕ, ◌+◌, ◌-◌, ◌%◌, ◌^◌, ◌≤◌, ◌<◌, ◌≡◌, ◌⊎◌, inl, inr, refl, subst, arith, Bool,
}
use swift_corelibs_libdispat.Apply.{
  Shared, Pc, starting, calling, called, finishing, signalling, waking, awaiting, waiting, at_futex,
  asleep, destroying, leaving, freeing, gone, step, out, inc_index, thread_event_signal,
  thread_event_wait, thread_event_wait_slow, thread_event_destroy, signalled,
}
use swift_corelibs_libdispat.Apply.Counts.{
  late_pc, pending_pc, in_call_pc, signaller_pc, At, out_lem,
}
use swift_corelibs_libdispat.Apply.Outcome.{Outcome, if_eq, if_lt}

-- With `n` signals that are made or about to be made: one as soon as no run is left.
abbrev pub Signal : ℕ → ℕ → Type 0
Signal todo n = (0 < todo) × (n ≡ 0) ⊎ (todo ≡ 0) × (n ≡ 1)

-- With `l` threads that have had an index out of range, `d` runs that are not taken off, `c` threads in
-- the client's function and `s` about to signal.
pub record Account (m : Shared) (signals l d c s : ℕ) : Type 0 where
  pub bound : m.index ≤ m.iterations + l
  pub within : m.todo ≤ m.iterations
  pub phase :
      (m.index < m.iterations) × (l ≡ 0) × (m.iterations + d + c ≡ m.todo + m.index)
      ⊎ (m.iterations ≤ m.index) × (d + c ≡ m.todo)
  pub signal : Signal m.todo (s + signals)

-- A step of one thread, where the others count `l`, `d`, `c` and `s`, and are `n`.
module _ (w : Bool) (m : Shared) (signals l d c s n : ℕ) (few : l ≤ n)
    (small : m.iterations + (n + 1) < 2 ^ 64) where
  abbrev pub AccountAfter : ℕ → Shared → Pc → Type 0
  AccountAfter k m' p' =
      (m'.iterations ≡ m.iterations)
      × Account m' (signals + k) (l + late_pc p') (d + pending_pc p') (c + in_call_pc p')
          (s + signaller_pc p')

  abbrev Before : Pc → Type 0
  Before p =
      Account m signals (l + late_pc p) (d + pending_pc p) (c + in_call_pc p) (s + signaller_pc p)

  -- A thread that leaves the account as it is.
  stay :
      (m' : Shared) (p p' : Pc)
      → (m'.iterations ≡ m.iterations) × (m'.index ≡ m.index) × (m'.todo ≡ m.todo)
      → (late_pc p' ≡ late_pc p)
        × (pending_pc p' ≡ pending_pc p)
        × (in_call_pc p' ≡ in_call_pc p)
        × (signaller_pc p' ≡ signaller_pc p)
      → Before p
      → AccountAfter 0 m' p'
  stay m' p p' (e, f, g) (h, i, j, k) a = (
    e,
    record {
      bound = omega (arith, a.bound);
      within = omega (arith, a.within);
      phase = elim a.phase [
        | inl (x, y, z) ↦ inl (omega arith, omega arith, omega arith)
        | inr (x, y) ↦ inr (omega arith, omega arith)
      ];
      signal = elim a.signal [
        | inl (x, y) ↦ inl (omega arith, omega arith)
        | inr (x, y) ↦ inr (omega arith, omega arith)
      ];
    },
  )

  -- A thread takes an index that is in range, or one that is not.
  takes :
      (p : Pc) (done : ℕ)
      → m.index < m.iterations
      → (late_pc p ≡ 0) × (pending_pc p ≡ done) × (in_call_pc p ≡ 0) × (signaller_pc p ≡ 0)
      → Before p
      → AccountAfter 0 (inc_index m) (calling m.index done)
  takes p done h (e, f, g, k) a = (
    refl,
    record {
      bound = omega arith;
      within = a.within;
      phase = elim a.phase [
        | inr (x, y) ↦ absurd (omega arith)
        | inl (x, y, z) ↦ elim (if_full) [
          | inl more ↦ inl (omega arith, omega arith, omega arith)
          | inr last ↦ inr (omega arith, omega arith)
        ]
      ];
      signal = subst (Signal m.todo) (omega arith) a.signal;
    },
  )
    where
      if_full : (m.index + 1 < m.iterations) ⊎ (m.index + 1 ≡ m.iterations)
      if_full = ground arith

  exhausted :
      (p p' : Pc)
      → (m.index < m.iterations → ⊥)
      → (late_pc p ≡ 0) × (in_call_pc p ≡ 0) × (signaller_pc p ≡ 0)
      → (late_pc p' ≡ 1)
        × (pending_pc p' ≡ pending_pc p)
        × (in_call_pc p' ≡ 0)
        × (signaller_pc p' ≡ 0)
      → Before p
      → AccountAfter 0 (inc_index m) p'
  exhausted p p' h (e, g, k) (e', f', g', k') a = (
    refl,
    record {
      bound = omega (arith, a.bound);
      within = a.within;
      phase = elim a.phase [
        | inl (x, y, z) ↦ absurd (h x)
        | inr (x, y) ↦ inr (omega (arith, a.bound), omega arith)
      ];
      signal = subst (Signal m.todo) (omega arith) a.signal;
    },
  )

  pub step-Account :
      (p : Pc)
      → At w p
      → Before p
      → Outcome (AccountAfter (signalled p)) (AccountAfter (signalled p)) Unit (step w m p)
  unfolding step thread_event_signal thread_event_wait thread_event_wait_slow thread_event_destroy
  step-Account starting at a =
      if_lt (AccountAfter 0 (inc_index m)) m.index m.iterations
        (λ h. takes starting 0 h (refl, refl, refl, refl) a)
        (λ h. exhausted starting (out w) h (refl, refl, refl) (out_lem w) a)
  step-Account (calling idx done) at a = (
    refl,
    record {
      bound = a.bound;
      within = a.within;
      phase = elim a.phase [
        | inl (x, y, z) ↦ inl (x, y, omega arith)
        | inr (x, y) ↦ inr (x, omega arith)
      ];
      signal = subst (Signal m.todo) (omega arith) a.signal;
    },
  )
  step-Account (called done) at a =
      if_lt (AccountAfter 0 (inc_index m)) m.index m.iterations
        (λ h. takes (called done) done h (refl, refl, refl, refl) a)
        (λ h.
          exhausted (called done) (finishing done) h (refl, refl, refl) (refl, refl, refl, refl) a)
  step-Account (finishing done) at a =
      let todo : ℕ = (m.todo + (2 ^ 64 - done)) % 2 ^ 64 in
      let left : todo + done ≡ m.todo = elim a.phase [
        | inl (x, y, z) ↦ absurd (omega arith)
        | inr (x, y) ↦ omega (arith, a.within)
      ] in
      let (e, f, g, k) = out_lem w in
      let more : m.iterations ≤ m.index = elim a.phase [
        | inl (x, y, z) ↦ absurd (omega arith)
        | inr (x, y) ↦ x
      ] in
      let sum : d + c ≡ todo = elim a.phase [
        | inl (x, y, z) ↦ absurd (omega arith)
        | inr (x, y) ↦ omega arith
      ] in
      let quiet : s + signals ≡ 0 = elim a.signal [
        | inl (x, y) ↦ omega arith
        | inr (x, y) ↦ absurd (omega arith)
      ] in
      if_eq (AccountAfter 0 (record m { todo = todo })) todo 0
        (λ z. (
          refl,
          record {
            bound = a.bound;
            within = omega arith;
            phase = inr (more, omega arith);
            signal = inr (z, omega arith);
          },
        ))
        (λ z. (
          refl,
          record {
            bound = omega (arith, a.bound);
            within = omega (arith, a.within);
            phase = inr (more, omega arith);
            signal = inl (omega arith, omega arith);
          },
        ))
  step-Account signalling at a =
      let (e, f, g, k) = out_lem w in
      let after : (p' : Pc)
          → (late_pc p' ≡ 1) × (pending_pc p' ≡ 0) × (in_call_pc p' ≡ 0) × (signaller_pc p' ≡ 0)
          → AccountAfter 1 (record m { dte_value = (m.dte_value + 1) % 2 ^ 32 }) p' =
        λ p' (e', f', g', k'). (
          refl,
          record {
            bound = omega (arith, a.bound);
            within = a.within;
            phase = elim a.phase [
              | inl (x, y, z) ↦ inl (omega arith, omega arith, omega arith)
              | inr (x, y) ↦ inr (omega arith, omega arith)
            ];
            signal = subst (Signal m.todo) (omega arith) a.signal;
          },
        ) in
      if_eq (AccountAfter 1 (record m { dte_value = (m.dte_value + 1) % 2 ^ 32 })) m.dte_value 0
        (λ z. after (out w) (out_lem w)) (λ z. after waking (refl, refl, refl, refl))
  step-Account waking at a = stay m waking (out w) (refl, refl, refl) (out_lem w) a
  step-Account awaiting at a =
      let value : ℕ = (m.dte_value + (2 ^ 32 - 1)) % 2 ^ 32 in
      let after : Shared = record m { dte_value = value } in
      if_eq (AccountAfter 0 after) value 0
        (λ z. stay after awaiting destroying (refl, refl, refl) (refl, refl, refl, refl) a)
        (λ z. stay after awaiting waiting (refl, refl, refl) (refl, refl, refl, refl) a)
  step-Account waiting at a =
      if_eq (Outcome (AccountAfter 0) (AccountAfter 0) Unit) m.dte_value 0
        (λ z. stay m waiting destroying (refl, refl, refl) (refl, refl, refl, refl) a)
        (λ z.
          if_eq (Outcome (AccountAfter 0) (AccountAfter 0) Unit) m.dte_value (2 ^ 32 - 1)
            (λ y. stay m waiting at_futex (refl, refl, refl) (refl, refl, refl, refl) a) (λ y. tt))
  step-Account at_futex at a =
      if_eq (AccountAfter 0 m) m.dte_value (2 ^ 32 - 1)
        (λ z. stay m at_futex asleep (refl, refl, refl) (refl, refl, refl, refl) a)
        (λ z. stay m at_futex waiting (refl, refl, refl) (refl, refl, refl, refl) a)
  step-Account asleep at a = stay m asleep waiting (refl, refl, refl) (refl, refl, refl, refl) a
  step-Account destroying at a =
      if_eq (Outcome (AccountAfter 0) (AccountAfter 0) Unit) m.dte_value 0
        (λ z. stay m destroying leaving (refl, refl, refl) (refl, refl, refl, refl) a) (λ z. tt)
  step-Account leaving at a =
      let thr_cnt : ℕ = (m.thr_cnt + (2 ^ 32 - 1)) % 2 ^ 32 in
      let after : Shared = record m { thr_cnt = thr_cnt } in
      if_eq (AccountAfter 0 after) thr_cnt 0
        (λ z. stay after leaving freeing (refl, refl, refl) (refl, refl, refl, refl) a)
        (λ z. stay after leaving gone (refl, refl, refl) (refl, refl, refl, refl) a)
  step-Account freeing at a = stay m freeing gone (refl, refl, refl) (refl, refl, refl, refl) a
  step-Account gone at a = tt
