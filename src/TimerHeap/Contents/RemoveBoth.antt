-- ===== src/TimerHeap/Contents/RemoveBoth.antt =====
-- The removal of a timer from both heaps (`_dispatch_timer_heap_remove`, src/event/event.c).
use swift_corelibs_libdispat.Common.{
  ℕ, ◌+◌, ◌-◌, ◌%◌, ◌^◌, ◌<◌, ◌≡◌, ◌≢◌, refl, sym, ap, ◌∙◌, subst, arith, true, false, ltb, ◌==◌,
  ℕ_discrete,
}
use swift_corelibs_libdispat.TimerHeap.Sift.{Timers}
use swift_corelibs_libdispat.TimerHeap.Contents.{
  TimerSet, clear_heap_entry, take_out, remove_at, heap_remove, invalid_id,
}
use swift_corelibs_libdispat.TimerHeap.Contents.Filled.{HeapOk, HeapOk-same, Holds-same}
use swift_corelibs_libdispat.TimerHeap.Contents.Insert.{BothOk, InBoth}
use swift_corelibs_libdispat.TimerHeap.Contents.Remove.{take_out-Removed}

-- The entries of another timer stay.
clear_entry_other :
    (dt t id : ℕ) (h : Timers) → t ≢ dt → (clear_heap_entry dt h).entry t id ≡ h.entry t id
unfolding clear_heap_entry
clear_entry_other dt t id h n = let e : (t == dt) ≡ false = ground arith in rw e refl

clear_entry_own :
    (dt id : ℕ) (h : Timers) → id < 2 → (clear_heap_entry dt h).entry dt id ≡ invalid_id
unfolding clear_heap_entry
clear_entry_own dt id h l =
    let e : (dt == dt) ≡ true = ground arith in
    let f : ltb id 2 ≡ true = ground arith in rw (e, f) refl

clear_entry-HeapOk :
    (key : ℕ → ℕ → ℕ) (id count dt : ℕ) (h : Timers)
    → ((i : ℕ) → i < count → i % 2 ≡ id → h.slots i ≢ dt)
    → HeapOk key id count h
    → HeapOk key id count (clear_heap_entry dt h)
unfolding clear_heap_entry
clear_entry-HeapOk key id count dt h w o = record {
  ordered = o.ordered;
  known = λ i l e. clear_entry_other dt (h.slots i) id h (w i l e) ∙ o.known i l e;
}

module _ (key : ℕ → ℕ → ℕ) (idx dt : ℕ) (h : Timers) (ok : BothOk key (idx + 2) h)
    (held : InBoth (idx + 2) dt h) where
  -- What the removal leaves: both heaps in order, without the timer and with every other one.
  abbrev pub Without : Timers → Type 0
  Without r =
      BothOk key idx r
      × ((t : ℕ) → t ≢ dt → InBoth (idx + 2) t h → InBoth idx t r)
      × ((t : ℕ) → InBoth idx t r → t ≢ dt)
      × (r.entry dt 0 ≡ invalid_id)
      × (r.entry dt 1 ≡ invalid_id)

  empty-Without : (r : Timers) → idx ≡ 0 → Without (clear_heap_entry dt r)
  empty-Without r z = (
    record {
      few = omega (arith, ok.few);
      even = omega arith;
      target = record {
        ordered = λ i (a, b, c). absurd (omega arith);
        known = λ i l e. absurd (omega arith);
      };
      deadline = record {
        ordered = λ i (a, b, c). absurd (omega arith);
        known = λ i l e. absurd (omega arith);
      };
    },
    λ t n ((i, l, e, s), j).
        let ((k, l', e', s'), m) = held in
        let same : i ≡ k = omega arith in absurd (n (sym s ∙ ap h.slots same ∙ s')),
    λ t ((i, l, e, s), j). absurd (omega arith),
    clear_entry_own dt 0 r (omega arith),
    clear_entry_own dt 1 r (omega arith),
  )

  rest-Without : Without (clear_heap_entry dt (take_out key 1 idx dt (take_out key 0 idx dt h)))
  unfolding clear_heap_entry
  rest-Without =
      let even : idx % 2 ≡ 0 = omega (arith, ok.even) in
      let a =
        take_out-Removed key 0 1 idx dt h ok.few even (omega arith, omega arith, omega arith)
          ok.target held.0 in
      let r = take_out key 0 idx dt h in
      let deadline = HeapOk-same key 1 (idx + 2) h r ok.few a.3 ok.deadline in
      let held1 = Holds-same 1 (idx + 2) dt h r a.3 held.1 in
      let b =
        take_out-Removed key 1 0 idx dt r ok.few even (omega arith, omega arith, omega arith)
          deadline held1 in
      let q = take_out key 1 idx dt r in
      let gone0 : (i : ℕ) → i < idx → i % 2 ≡ 0 → q.slots i ≢ dt =
        λ i l e s. a.2 i l e (sym (b.3.0 i e) ∙ s) in
      let few : idx < 2 ^ 31 = omega (arith, ok.few) in
      (
        record {
          few = few;
          even = even;
          target = clear_entry-HeapOk key 0 idx dt q gone0 (HeapOk-same key 0 idx r q few b.3 a.0);
          deadline = clear_entry-HeapOk key 1 idx dt q b.2 b.0;
        },
        λ t n (x, y).
            (Holds-same 0 idx t r q b.3 (a.1 t n x), b.1 t n (Holds-same 1 (idx + 2) t h r a.3 y)),
        λ t ((i, l, e, s), y) same. gone0 i l e (s ∙ same),
        clear_entry_own dt 0 q (omega arith),
        clear_entry_own dt 1 q (omega arith),
      )

  pub remove_at-Without : Without (remove_at key idx dt h)
  unfolding remove_at
  remove_at-Without = elim (ℕ_discrete idx 0) [
    | yes z ↦ let t : (idx == 0) ≡ true = ground arith in rw t (empty-Without _ z)
    | no n ↦ let t : (idx == 0) ≡ false = ground arith in rw t rest-Without
  ]

-- Removing a timer that is in both heaps keeps both in order, with every timer knowing its indices:
-- every other timer stays in them, that one is in them no more, and its indices are DTH_INVALID_ID.
pub heap_remove-Without :
    (key : ℕ → ℕ → ℕ) (dt idx : ℕ) (s : TimerSet)
    → s.count ≡ idx + 2
    → (ok : BothOk key (idx + 2) s.timers) → (held : InBoth (idx + 2) dt s.timers)
    → Without key idx dt s.timers ok held (heap_remove key dt s).timers
      × ((heap_remove key dt s).count ≡ idx)
unfolding heap_remove
heap_remove-Without key dt idx s e ok held =
    let few = ok.few in
    let back : (s.count + (2 ^ 32 - 2)) % 2 ^ 32 ≡ idx = omega arith in
    (
      subst (λ (k : ℕ). Without key idx dt s.timers ok held (remove_at key k dt s.timers))
          (sym back) (remove_at-Without key idx dt s.timers ok held),
      back,
    )
