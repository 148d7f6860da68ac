-- ===== src/Apply/Safety.antt =====
-- What dispatch_apply promises (src/apply.c).
use swift_corelibs_libdispat.Common.{
  ℕ, ◌+◌, ◌^◌, ◌≤◌, ◌<◌, ◌≡◌, ◌≢◌, inl, inr, refl, sym, ap, ◌∙◌, subst, arith, Bool, true, false,
  ◌==◌, if◌then◌else◌, List, [], ◌∷◌, ◌++◌, length, total, total-le, All,
}
use swift_corelibs_libdispat.Apply.{
  Pc, starting, calling, called, asleep, gone, corrupt, assertion_failed, step, Thread, System,
  waiter, AreNew, begin, Reach, here, later, ran,
}
use swift_corelibs_libdispat.Apply.Counts.{
  late_pc, late, pending, in_call, signaller, waker, sleeper, user, releaser, waited, past,
  of_waiter, past_pc, user_pc, releaser_pc, in_call_pc, sleeper_pc,
}
use swift_corelibs_libdispat.Apply.Outcome.{Outcome}
use swift_corelibs_libdispat.Apply.Preserved.{Step-Inv}
use swift_corelibs_libdispat.Apply.Invariant.{Inv, each, Fit, holds, step_event}

-- A weight that is 0 at the start
total_new :
    (f : Thread → ℕ)
    → ((w : Bool) → f (record { waits = w; pc = starting }) ≡ 0)
    → (ts : List Thread) → AreNew ts
    → total f ts ≡ 0
total_new f z [] a = refl
total_new f z (t ∷ ts) (e, a) =
    let first : f t ≡ 0 = ap (λ (q : Pc). f (record { waits = t.waits; pc = q })) e ∙ z t.waits in
    omega (arith, first, total_new f z ts a)

of_waiter-zero : (w : Bool) → of_waiter w 0 ≡ 0
of_waiter-zero true = refl
of_waiter-zero false = refl

new-Fit : (ts : List Thread) → AreNew ts → All Fit ts
new-Fit [] a = tt
new-Fit (t ∷ ts) (e, a) =
    (subst (λ (q : Pc). Fit (record { waits = t.waits; pc = q })) (sym e) tt, new-Fit ts a)

total-each : (ts : List Thread) → total each ts ≡ length ts
total-each [] = refl
total-each (t ∷ ts) = omega (arith, total-each ts)

new_users : (ts : List Thread) → AreNew ts → total user ts ≡ length ts
new_users [] a = refl
new_users (t ∷ ts) (e, a) = omega (arith, ap user_pc e, new_users ts a)

waiter-le-each : (ts : List Thread) → total waiter ts ≤ length ts
waiter-le-each [] = omega arith
waiter-le-each (t ∷ ts) = omega (arith, waiter-le-each ts, few t.waits)
  where
    few : (w : Bool) → of_waiter w 1 ≤ 1
    few true = omega arith
    few false = omega arith

begin-Inv :
    (iterations : ℕ) (ts : List Thread)
    → 0 < iterations
    → iterations + length ts < 2 ^ 64
    → length ts < 2 ^ 31
    → total waiter ts ≡ 1
    → AreNew ts
    → Inv (begin iterations ts)
begin-Inv n ts pos small few one a =
    let l = total_new late (λ w. refl) ts a in
    let d = total_new pending (λ w. refl) ts a in
    let c = total_new in_call (λ w. refl) ts a in
    let g = total_new signaller (λ w. refl) ts a in
    let r = total_new releaser (λ w. refl) ts a in
    let vw = total_new waited (λ w. of_waiter-zero w) ts a in
    let ps = total_new past (λ w. of_waiter-zero w) ts a in
    let z = total_new sleeper (λ w. refl) ts a in
    let k = total_new waker (λ w. refl) ts a in
    let u = new_users ts a in
    let some_thread = waiter-le-each ts in
    record {
      small = omega (arith, total-each ts);
      few = omega (arith, total-each ts);
      one = one;
      fit = new-Fit ts a;
      account = record {
        bound = omega arith;
        within = omega arith;
        phase = inl (omega arith, omega arith, omega arith);
        signal = inl (omega arith, omega arith);
      };
      users = record { count = sym u; release = inl (omega arith, omega arith) };
      event = record {
        one_signal = omega arith;
        one_wait = omega arith;
        value = inl (omega arith);
        returned = inl (omega arith);
        sleeps = omega arith;
        wakes = inl (omega arith);
      };
      runs = λ i. inr (inr (omega arith), omega (arith, total_new (holds i) (λ w. refl) ts a));
    }

pub Reach-Inv : {s : System} → Reach s → Inv s
Reach-Inv (here n ts a b c d e) = begin-Inv n ts a b c d e
Reach-Inv (later {s} {t} {before} {after} {waits} {p} r e st) =
    Step-Inv s before after waits p (Reach-Inv r) e st

-- However the threads interleave, no index is run twice, and none at or above the number of iterations is
-- run.
pub runs_each_index_once :
    {s : System} → Reach s → (i : ℕ) → (s.runs i ≤ 1) × (s.shared.iterations ≤ i → s.runs i ≡ 0)
runs_each_index_once r i = elim ((Reach-Inv r).runs i) [
  | inl (a, b, c) ↦ (omega arith, λ h. absurd (omega arith))
  | inr (a, c) ↦ (omega arith, λ h. omega arith)
]

-- Who has an index is in the client's function.
holds-le : (i : ℕ) (p : Pc) → ran p i ≤ in_call_pc p
holds-le i (calling idx done) = few (i == idx)
  where
    few : (b : Bool) → (if b then 1 else 0) ≤ 1
    few true = omega arith
    few false = omega arith
holds-le i _ = omega arith

-- When the thread that called dispatch_apply has returned from its wait, every index below the number of
-- iterations has been run, exactly once.
pub returns_when_all_run :
    {s : System}
    → Reach s
    → 0 < total past s.threads
    → (i : ℕ) → i < s.shared.iterations
    → s.runs i ≡ 1
returns_when_all_run {s = s} r h i l =
    let v = Reach-Inv r in
    let signalled : s.signals ≡ 1 = elim v.event.returned [
      | inl x ↦ absurd (omega arith)
      | inr (x, y) ↦ x
    ] in
    let none_left : s.shared.todo ≡ 0 = elim v.account.signal [
      | inl (x, y) ↦ absurd (omega arith)
      | inr (x, y) ↦ x
    ] in
    let few = total-le Fit (holds i) in_call (λ t f. holds-le i t.pc) s.threads v.fit in
    elim v.account.phase [
      | inl (x, y, z) ↦ absurd (omega arith)
      | inr (x, y) ↦ elim (v.runs i) [
        | inl (a, b, c) ↦ omega arith
        | inr (inl a, c) ↦ absurd (omega arith)
        | inr (inr a, c) ↦ absurd (omega arith)
      ]
    ]

-- No thread ever finds the value of the event corrupt, or destroys it at another value than 0.
event_sound :
    {s : System} (before after : List Thread) (w : Bool) (p : Pc)
    → Reach s
    → s.threads ≡ before ++ record { waits = w; pc = p } ∷ after
    → (step w s.shared p ≢ corrupt) × (step w s.shared p ≢ assertion_failed)
event_sound {s} before after w p r e =
    let o = step_event s before after w p (Reach-Inv r) e in
    (λ x. subst (Outcome _ _ ⊥) x o, λ x. subst (Outcome _ _ ⊥) x o)

-- Is the thread at work, or about to signal or to wake the sleeper?
abbrev pub at_work : Thread → ℕ
at_work t = in_call t + pending t + signaller t + waker t

total-at_work :
    (ts : List Thread)
    → total at_work ts ≡ total in_call ts + total pending ts + total signaller ts + total waker ts
total-at_work [] = refl
total-at_work (t ∷ ts) = omega (arith, total-at_work ts)

sleeper-le-late : (p : Pc) → sleeper_pc p ≤ late_pc p
sleeper-le-late starting = omega arith
sleeper-le-late (calling idx done) = omega arith
sleeper-le-late (called done) = omega arith
sleeper-le-late asleep = omega arith
sleeper-le-late _ = omega arith

-- No wakeup is lost: while the thread that called dispatch_apply sleeps, another one still runs indices,
-- or is about to signal or to wake it.
pub caller_has_waker :
    {s : System} → Reach s → 0 < total sleeper s.threads → 0 < total at_work s.threads
caller_has_waker {s = s} r h =
    let v = Reach-Inv r in
    let some_late = total-le Fit sleeper late (λ t f. sleeper-le-late t.pc) s.threads v.fit in
    let sum = total-at_work s.threads in
    elim v.account.phase [
      | inl (x, y, z) ↦ absurd (omega arith)
      | inr (x, y) ↦ elim v.account.signal [
        | inl (a, b) ↦ omega arith
        | inr (a, b) ↦ elim v.event.wakes [
          | inl c ↦ absurd (omega arith)
          | inr (inl c) ↦ omega arith
          | inr (inr c) ↦ omega arith
        ]
      ]
    ]

-- The memory is released at most once, and when it is, no thread uses it any more and none is about to
-- release it; and when every thread is gone, it has been released and every index below the number of
-- iterations has been run exactly once.
pub frees_once :
    {s : System}
    → Reach s
    → (s.frees ≤ 1)
      × (0 < s.frees → (total user s.threads ≡ 0) × (total releaser s.threads ≡ 0))
      × (All (λ (t : Thread). t.pc ≡ gone) s.threads
          → (s.frees ≡ 1) × ((i : ℕ) → i < s.shared.iterations → s.runs i ≡ 1))
frees_once {s = s} r = elim (Reach-Inv r).users.release [
  | inl (a, b) ↦ (
    omega arith,
    λ h. absurd (omega arith),
    λ g. absurd (omega (arith, (gone_users s.threads g).0)),
  )
  | inr (a, b) ↦ (
    omega arith,
    λ h. (omega arith, omega arith),
    λ g. (
      omega (arith, (gone_users s.threads g).1),
      returns_when_all_run r (omega (arith, gone_past s.threads g, (Reach-Inv r).one)),
    ),
  )
]
  where
    gone_users :
        (ts : List Thread)
        → All (λ (t : Thread). t.pc ≡ gone) ts
        → (total user ts ≡ 0) × (total releaser ts ≡ 0)
    gone_users [] g = (refl, refl)
    gone_users (t ∷ ts) (e, g) =
        let (a, b) = gone_users ts g in
        (omega (arith, ap user_pc e, a), omega (arith, ap releaser_pc e, b))

    gone_past :
        (ts : List Thread) → All (λ (t : Thread). t.pc ≡ gone) ts → total past ts ≡ total waiter ts
    gone_past [] g = refl
    gone_past (t ∷ ts) (e, g) =
        let same : past t ≡ waiter t = ap (λ (q : Pc). of_waiter t.waits (past_pc q)) e in
        omega (arith, same, gone_past ts g)
