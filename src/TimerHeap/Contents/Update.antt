-- ===== src/TimerHeap/Contents/Update.antt =====
-- A timer whose keys have changed finds its places again (`_dispatch_timer_heap_update`,
-- src/event/event.c).
use swift_corelibs_libdispat.Common.{
  ℕ, ◌%◌, ◌^◌, ◌≤◌, ◌<◌, ◌≡◌, ◌≢◌, sym, ap, ◌∙◌, subst, arith, ℕ_discrete,
}
use swift_corelibs_libdispat.TimerHeap.{parent}
use swift_corelibs_libdispat.TimerHeap.Index.{parent_lem}
use swift_corelibs_libdispat.TimerHeap.Sift.{Timers, resift}
use swift_corelibs_libdispat.TimerHeap.Sift.Up.{keys}
use swift_corelibs_libdispat.TimerHeap.Sift.Others.{resift-SameHeap}
use swift_corelibs_libdispat.TimerHeap.Contents.{TimerSet, heap_update}
use swift_corelibs_libdispat.TimerHeap.Contents.Filled.{
  HeapOk, Holds, HeapOk-same, Holds-same, HeapOk-one, Gap, Gap-fill,
}
use swift_corelibs_libdispat.TimerHeap.Contents.Insert.{BothOk, InBoth}

module _ (key key' : ℕ → ℕ → ℕ) (dt count : ℕ) (few : count < 2 ^ 31)
    (others : (id t : ℕ) → t ≢ dt → key' id t ≡ key id t) where
  -- The slot of the timer, under the new keys
  updated-Gap :
      (id : ℕ) (h : Timers)
      → HeapOk key id count h
      → (held : Holds id count dt h) → Gap key' id count dt held.0 h
  updated-Gap id h ok held = record {
    inside = held.1;
    parity = held.2;
    around = λ i (a, b, c) n m.
        let (x, y, z) = parent_lem i a (omega arith) in
        let p = ok.ordered i (a, b, c) in
        let here = others id (h.slots i) (other i b c n) in
        let up = others id (h.slots (parent i)) (other (parent i) (omega arith) (omega arith) m) in
        omega arith;
    across = λ i (a, b, c) e l.
        let (x, y, z) = parent_lem i a (omega arith) in
        let (x', y', z') = parent_lem held.0 l (omega (arith, held.1)) in
        let p = subst (λ (k : ℕ). keys key id h k ≤ keys key id h i) e (ok.ordered i (a, b, c)) in
        let q = ok.ordered held.0 (l, held.1, held.2) in
        let here = others id (h.slots i) (other i b c (omega arith)) in
        let up =
          others id (h.slots (parent held.0))
            (other (parent held.0) (omega (arith, held.1)) (omega (arith, held.2)) (omega arith)) in
        omega arith;
    tracked = λ i l e n. (ok.known i l e, other i l e n);
  }
    where
      other : (i : ℕ) → i < count → i % 2 ≡ id → i ≢ held.0 → h.slots i ≢ dt
      other i l e n s = n (
          HeapOk-one key id count i dt h ok l e s
          ∙ sym (HeapOk-one key id count held.0 dt h ok held.1 held.2 held.3))

  -- One of the heaps after the update, at the index that the timer knows
  updated_one :
      (id : ℕ) (h : Timers)
      → HeapOk key id count h
      → Holds id count dt h
      → HeapOk key' id count (resift key' id count dt (h.entry dt id) h)
        × ((t : ℕ)
            → Holds id count t h
            → Holds id count t (resift key' id count dt (h.entry dt id) h))
  updated_one id h ok held =
      let at = HeapOk-one key id count held.0 dt h ok held.1 held.2 held.3 in
      let (fine, own, kept) = Gap-fill key' id count dt held.0 h few (updated-Gap id h ok held) in
      subst
        (λ (k : ℕ).
          HeapOk key' id count (resift key' id count dt k h)
          × ((t : ℕ) → Holds id count t h → Holds id count t (resift key' id count dt k h)))
        at
        (
          fine,
          λ t (i, l, e, s). elim (ℕ_discrete i held.0) [
            | yes y ↦
                subst (λ (u : ℕ). Holds id count u (resift key' id count dt held.0 h))
                  (sym held.3 ∙ ap h.slots (sym y) ∙ s) own
            | no y ↦
                subst (λ (u : ℕ). Holds id count u (resift key' id count dt held.0 h)) s
                  (kept i l e y)
          ],
        )

-- After the keys of one timer of the heap have changed, and no others, the update of that timer puts both
-- heaps in order by the new keys, with the same timers in them and every one knowing its indices.
pub heap_update-BothOk :
    (key key' : ℕ → ℕ → ℕ) (dt : ℕ) (s : TimerSet)
    → ((id t : ℕ) → t ≢ dt → key' id t ≡ key id t)
    → BothOk key s.count s.timers
    → InBoth s.count dt s.timers
    → BothOk key' s.count (heap_update key' dt s).timers
      × ((t : ℕ) → InBoth s.count t s.timers → InBoth s.count t (heap_update key' dt s).timers)
unfolding heap_update
heap_update-BothOk key key' dt s others ok (held0, held1) =
    let (fine0, kept0) = updated_one key key' dt s.count ok.few others 0 s.timers ok.target held0 in
    let r = resift key' 0 s.count dt (s.timers.entry dt 0) s.timers in
    let at0 = HeapOk-one key 0 s.count held0.0 dt s.timers ok.target held0.1 held0.2 held0.3 in
    let same1 =
      resift-SameHeap key' 0 1 s.count dt ok.few (omega arith) (s.timers.entry dt 0) s.timers
        (omega (arith, at0, held0.1), omega (arith, at0, held0.2)) in
    let ok1 = HeapOk-same key 1 s.count s.timers r ok.few same1 ok.deadline in
    let held1' = Holds-same 1 s.count dt s.timers r same1 held1 in
    let (fine1, kept1) = updated_one key key' dt s.count ok.few others 1 r ok1 held1' in
    let q = resift key' 1 s.count dt (r.entry dt 1) r in
    let at1 = HeapOk-one key 1 s.count held1'.0 dt r ok1 held1'.1 held1'.2 held1'.3 in
    let same0 =
      resift-SameHeap key' 1 0 s.count dt ok.few (omega arith) (r.entry dt 1) r
        (omega (arith, at1, held1'.1), omega (arith, at1, held1'.2)) in
    (
      record {
        few = ok.few;
        even = ok.even;
        target = HeapOk-same key' 0 s.count r q ok.few same0 fine0;
        deadline = fine1;
      },
      λ t (x, y). (
        Holds-same 0 s.count t r q same0 (kept0 t x),
        kept1 t (Holds-same 1 s.count t s.timers r same1 y),
      ),
    )
