-- ===== src/TimerHeap/Contents/Insert.antt =====
-- The insertion of a timer into the timer heap keeps both heaps (`_dispatch_timer_heap_insert`,
-- src/event/event.c).
use swift_corelibs_libdispat.Common.{
  ℕ, ◌+◌, ◌-◌, ◌%◌, ◌^◌, ◌<◌, ◌≡◌, ◌≢◌, refl, sym, ap, ◌∙◌, subst, arith, true, false, ◌||◌, ltb,
  ◌==◌, ℕ_discrete,
}
use swift_corelibs_libdispat.TimerHeap.Index.{parent_lem}
use swift_corelibs_libdispat.TimerHeap.Sift.{Timers, resift}
use swift_corelibs_libdispat.TimerHeap.Sift.Others.{resift-SameHeap}
use swift_corelibs_libdispat.TimerHeap.Contents.{TimerSet, insert_first, insert_at, heap_insert}
use swift_corelibs_libdispat.TimerHeap.Contents.Filled.{
  HeapOk, Holds, HeapOk-same, Holds-same, Gap, Gap-fill,
}

-- Both heaps are in order, and the timers in them know their indices.
pub record BothOk (key : ℕ → ℕ → ℕ) (count : ℕ) (h : Timers) : Type 0 where
  pub few : count < 2 ^ 31
  pub even : count % 2 ≡ 0
  pub target : HeapOk key 0 count h
  pub deadline : HeapOk key 1 count h

-- The timer is in both heaps.
abbrev pub InBoth : ℕ → ℕ → Timers → Type 0
InBoth count t h = Holds 0 count t h × Holds 1 count t h

-- The new slot of a heap
new-Gap :
    (key : ℕ → ℕ → ℕ) (id count dt : ℕ) (h : Timers)
    → count + 2 < 2 ^ 31
    → count % 2 ≡ 0
    → id < 2
    → (Holds id count dt h → ⊥)
    → HeapOk key id count h
    → Gap key id (count + 2) dt (count + id) h
new-Gap key id count dt h few even two absent o = record {
  inside = omega arith;
  parity = omega arith;
  around = λ i (a, b, c) n m. o.ordered i (a, omega arith, c);
  across = λ i (a, b, c) e f. let (x, y, z) = parent_lem i a (omega arith) in absurd (omega arith);
  tracked = λ i l e n.
      let less : i < count = omega arith in (o.known i less e, λ same. absent (i, less, e, same));
}

Holds-grow :
    (id count t : ℕ) (h : Timers)
    → Holds id count t h
    → (i : ℕ) × (i < count + 2) × (i % 2 ≡ id) × (i ≢ count + id) × (h.slots i ≡ t)
Holds-grow id count t h (i, l, e, s) = (i, omega arith, e, omega arith, s)

module _ (key : ℕ → ℕ → ℕ) (count dt : ℕ) (h : Timers) (few : count + 2 < 2 ^ 31)
    (ok : BothOk key count h) (absent : (Holds 0 count dt h → ⊥) × (Holds 1 count dt h → ⊥)) where
  abbrev Result : Timers → Type 0
  Result r =
      BothOk key (count + 2) r
      × InBoth (count + 2) dt r
      × ((t : ℕ) → InBoth count t h → InBoth (count + 2) t r)

  first-Result : count ≡ 0 → Result (insert_first dt h)
  unfolding insert_first
  first-Result z =
      let same : (dt == dt) ≡ true = ground arith in
      let slot : (i : ℕ) → i < 2 → (insert_first dt h).slots i ≡ dt =
        λ i l. let t : ltb i 2 ≡ true = ground arith in rw t refl in
      let index : (id : ℕ) → id < 2 → (insert_first dt h).entry dt id ≡ id =
        λ id l. let t : ltb id 2 ≡ true = ground arith in rw (same, t) refl in
      let one : (id : ℕ) → id < 2 → HeapOk key id (count + 2) (insert_first dt h) = λ id l. record {
        ordered = λ i (a, b, c). absurd (omega arith);
        known = λ i a e.
            ap (λ (t : ℕ). (insert_first dt h).entry t id) (slot i (omega arith))
            ∙ index id l
            ∙ omega arith;
      } in
      (
        record {
          few = few;
          even = omega arith;
          target = one 0 (omega arith);
          deadline = one 1 (omega arith);
        },
        (
          (0, omega arith, omega arith, slot 0 (omega arith)),
          (1, omega arith, omega arith, slot 1 (omega arith)),
        ),
        λ t ((i, l, e, s), j). absurd (omega arith),
      )

  rest-Result :
      Result (resift key 1 (count + 2) dt (count + 1) (resift key 0 (count + 2) dt count h))
  rest-Result =
      let start : count + 0 ≡ count = omega arith in
      let gap0 =
        subst (λ (k : ℕ). Gap key 0 (count + 2) dt k h) start
          (new-Gap key 0 count dt h few ok.even (omega arith) absent.0 ok.target) in
      let (ok0, own0, kept0) = Gap-fill key 0 (count + 2) dt count h few gap0 in
      let r = resift key 0 (count + 2) dt count h in
      let same1 =
        resift-SameHeap key 0 1 (count + 2) dt few (omega arith) count h (omega arith, ok.even) in
      let gap1 =
        new-Gap key 1 count dt r few ok.even (omega arith)
          (λ (i, l, e, s). absent.1 (i, l, e, sym (same1.0 i e) ∙ s))
          (HeapOk-same key 1 count h r ok.few same1 ok.deadline) in
      let (ok1, own1, kept1) = Gap-fill key 1 (count + 2) dt (count + 1) r few gap1 in
      let q = resift key 1 (count + 2) dt (count + 1) r in
      let same0 =
        resift-SameHeap key 1 0 (count + 2) dt few (omega arith) (count + 1) r
          (gap1.inside, gap1.parity) in
      (
        record {
          few = few;
          even = omega (arith, ok.even);
          target = HeapOk-same key 0 (count + 2) r q few same0 ok0;
          deadline = ok1;
        },
        (Holds-same 0 (count + 2) dt r q same0 own0, own1),
        λ t ((i, l, e, s), (j, k, f, u)). (
          Holds-same 0 (count + 2) t r q same0 (
              subst (λ (x : ℕ). Holds 0 (count + 2) x r) s (kept0 i (omega arith) e (omega arith))),
          subst (λ (x : ℕ). Holds 1 (count + 2) x q) (same1.0 j f ∙ u)
              (kept1 j (omega arith) f (omega arith)),
        ),
      )

  insert_at-Result : Result (insert_at key count dt h)
  unfolding insert_at
  insert_at-Result = elim (ℕ_discrete count 0) [
    | yes z ↦ let t : (count == 0) ≡ true = ground arith in rw t (first-Result z)
    | no n ↦ let t : (count == 0) ≡ false = ground arith in rw t rest-Result
  ]

-- Inserting a timer that is in neither heap keeps both heaps in order, with every timer knowing its
-- indices: the timer is in both, and so is every timer that was.
pub heap_insert-BothOk :
    (key : ℕ → ℕ → ℕ) (qos dt : ℕ) (s : TimerSet)
    → s.count + 2 < 2 ^ 31
    → BothOk key s.count s.timers
    → (Holds 0 s.count dt s.timers → ⊥)
    → (Holds 1 s.count dt s.timers → ⊥)
    → BothOk key (s.count + 2) (heap_insert key qos dt s).timers
      × ((heap_insert key qos dt s).count ≡ s.count + 2)
      × InBoth (s.count + 2) dt (heap_insert key qos dt s).timers
      × ((t : ℕ)
          → InBoth s.count t s.timers
          → InBoth (s.count + 2) t (heap_insert key qos dt s).timers)
unfolding heap_insert
heap_insert-BothOk key qos dt s few ok a b =
    let h : Timers = record s.timers {
      needs_program = ltb s.max_qos qos || s.timers.needs_program;
    } in
    let back : ((s.count + 2) % 2 ^ 32 + (2 ^ 32 - 2)) % 2 ^ 32 ≡ s.count = omega arith in
    let same : BothOk key s.count h = record {
      few = ok.few;
      even = ok.even;
      target = record { ordered = ok.target.ordered; known = ok.target.known };
      deadline = record { ordered = ok.deadline.ordered; known = ok.deadline.known };
    } in
    let (x, y, z) = insert_at-Result key s.count dt h few same (a, b) in
    let r =
      subst
        (λ (k : ℕ).
          BothOk key (s.count + 2) (insert_at key k dt h)
          × InBoth (s.count + 2) dt (insert_at key k dt h)
          × ((t : ℕ) → InBoth s.count t s.timers → InBoth (s.count + 2) t (insert_at key k dt h)))
        (sym back) (x, y, z) in
    (r.0, omega arith, r.1, r.2)
