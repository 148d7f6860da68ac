-- ===== src/Once/Safety.antt =====
-- What `dispatch_once_f` (src/once.c) promises, in every state that any calls reach.
use swift_corelibs_libdispat.Common.{
  ℕ, ◌+◌, ◌/◌, ◌%◌, ◌^◌, ◌≤◌, ◌<◌, ◌≡◌, ◌≢◌, inl, inr, refl, ap, ◌∙◌, subst, arith, List, [], ◌∷◌,
  ◌++◌, total, ℕ_discrete,
}
use swift_corelibs_libdispat.Once.{
  once_done, Pc, idle, entering, running, broadcasting, waiting, at_futex, asleep, returned,
  client_crash, step, once_wait, once_gate_broadcast, gate_broadcast_slow, Call, starts, System,
  Reach,
}
use swift_corelibs_libdispat.Once.Places.{
  At, AllFit, AllFit-append-right, runner, sleeper, waker, sleeps,
}
use swift_corelibs_libdispat.Once.Invariant.{Reach-Inv}

-- However many calls are made on one predicate, and however their steps interleave, the function is
-- started at most once.
pub runs_at_most_once : (s : System) → Reach s → s.runs ≤ 1
runs_at_most_once s r = let i = Reach-Inv r in ground (arith, i.phase)

-- Where a call on the predicate has returned, the function has been started once, no call is still in
-- it, and the predicate is done.
pub returns_after_run :
    (before after : List Call) (v n self : ℕ)
    → Reach (record {
      word = v;
      calls = before ++ record { self = self; pc = returned } ∷ after;
      runs = n;
    })
    → (n ≡ 1)
      × (v ≡ once_done)
      × (total runner (before ++ record { self = self; pc = returned } ∷ after) ≡ 0)
returns_after_run before after v n self r =
    let i = Reach-Inv r in
    let (f, g) = AllFit-append-right v before _ i.fit in
    elim i.phase [
      | inl (z, m, k) ↦ absurd (omega arith)
      | inr (inl (a, b, c, d, e)) ↦ absurd (omega arith)
      | inr (inr (a, b, c)) ↦ (b, a, c)
    ]

sleeper_marks : (v : ℕ) (cs : List Call) → AllFit v cs → 0 < total sleeper cs → v / 2 ^ 31 % 2 ≡ 1
sleeper_marks v [] a h = absurd (omega arith)
sleeper_marks v (c ∷ cs) (f, a) h = elim (ℕ_discrete (sleeper c) 0) [
  | yes z ↦ sleeper_marks v cs a (omega arith)
  | no z ↦ at_once c.pc f.2 z
]
  where
    at_once : (p : Pc) → At v c.self p → sleeps p ≢ 0 → v / 2 ^ 31 % 2 ≡ 1
    at_once asleep h z = h
    at_once _ h z = absurd (z refl)

-- No wakeup is lost: while a call sleeps, another one runs the function or is about to wake the
-- sleepers.
pub sleeper_has_waker :
    (s : System)
    → Reach s
    → 0 < total sleeper s.calls
    → 0 < total runner s.calls + total waker s.calls
sleeper_has_waker s r h =
    let i = Reach-Inv r in
    let m = sleeper_marks s.word s.calls i.fit h in
    elim i.phase [
      | inl (z, a, b) ↦ absurd (omega arith)
      | inr (inl (a, b, c, d, e)) ↦ omega arith
      | inr (inr (a, b, c)) ↦ elim i.wakes [
        | inl n ↦ absurd (n a)
        | inr (inl none_sleep) ↦ absurd (omega arith)
        | inr (inr some_wake) ↦ omega arith
      ]
    ]

find_runner :
    (v self : ℕ) (cs : List Call)
    → AllFit v cs
    → 0 < total runner cs
    → v % 2 ^ 30 ≡ self
    → (xs ys : List Call) × (cs ≡ xs ++ record { self = self; pc = running } ∷ ys)
find_runner v self [] a h e = absurd (omega arith)
find_runner v self (c ∷ cs) (f, a) h e = elim (ℕ_discrete (runner c) 0) [
  | yes z ↦
      let (xs, ys, d) = find_runner v self cs a (omega arith) e in
      (c ∷ xs, ys, ap (λ (t : List Call). c ∷ t) d)
  | no z ↦
      let is_running = runs c.pc z in
      let holds = subst (At v c.self) is_running f.2 in
      let owner : c.self ≡ self = omega arith in
      (
        [],
        cs,
        ap (λ (x : Call). x ∷ cs)
            (ap (λ (t : ℕ). record { self = t; pc = c.pc }) owner
              ∙ ap (λ (p : Pc). record { self = self; pc = p }) is_running),
      )
]
  where
    runs : (p : Pc) → starts p ≢ 0 → p ≡ running
    runs running z = refl
    runs _ z = absurd (z refl)

crash_waits :
    (self v : ℕ) (p : Pc)
    → self < 2 ^ 30
    → At v self p
    → step self v p ≡ client_crash
    → (p ≡ waiting) × (v % 2 ^ 30 ≡ self) × (v ≢ once_done)
unfolding step once_wait once_gate_broadcast gate_broadcast_slow
crash_waits self v idle q a e = cc
crash_waits self v entering q a e = absurd (ground arith)
crash_waits self v running q a e = cc
crash_waits self v (broadcasting cur) q a e = absurd (ground arith)
crash_waits self v waiting q a e = ground arith
crash_waits self v (at_futex w) q a e = cc
crash_waits self v asleep q a e = cc
crash_waits self v returned q a e = cc

-- A call crashes only where it waits for itself: its own thread is in the function, in another call on
-- the same predicate.
crashes_on_recursion :
    (before after : List Call) (v n self : ℕ) (p : Pc)
    → Reach
        (record { word = v; calls = before ++ record { self = self; pc = p } ∷ after; runs = n })
    → step self v p ≡ client_crash
    → (p ≡ waiting)
      × (xs : List Call) × (ys : List Call) × (before ++ record { self = self; pc = p } ∷ after
          ≡ xs ++ record { self = self; pc = running } ∷ ys)
crashes_on_recursion before after v n self p r e =
    let i = Reach-Inv r in
    let (f, g) = AllFit-append-right v before _ i.fit in
    let (w, owner, open') = crash_waits self v p f.1 f.2 e in
    let held : 0 < v = subst (At v self) w f.2 in
    elim i.phase [
      | inl (z, a, b) ↦ absurd (omega arith)
      | inr (inl (a, b, c, d, k)) ↦
          let (xs, ys, d) = find_runner v self _ i.fit (omega arith) owner in (w, xs, ys, d)
      | inr (inr (a, b, c)) ↦ absurd (open' a)
    ]
