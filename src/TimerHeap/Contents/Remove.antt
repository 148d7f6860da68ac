-- ===== src/TimerHeap/Contents/Remove.antt =====
-- The removal of a timer from the timer heap keeps both heaps (`_dispatch_timer_heap_remove`,
-- src/event/event.c).
use swift_corelibs_libdispat.Common.{
  ℕ, ◌+◌, ◌%◌, ◌^◌, ◌≤◌, ◌<◌, ◌≡◌, ◌≢◌, refl, sym, ap, ◌∙◌, subst, arith, true, false, ◌==◌,
  ℕ_discrete,
}
use swift_corelibs_libdispat.TimerHeap.{parent}
use swift_corelibs_libdispat.TimerHeap.Index.{parent_lem}
use swift_corelibs_libdispat.TimerHeap.Sift.{Timers, resift}
use swift_corelibs_libdispat.TimerHeap.Sift.Up.{keys}
use swift_corelibs_libdispat.TimerHeap.Sift.Others.{SameHeap, resift-SameHeap, resift-Without}
use swift_corelibs_libdispat.TimerHeap.Contents.{clear_slot, take_out}
use swift_corelibs_libdispat.TimerHeap.Contents.Filled.{HeapOk, Holds, HeapOk-one, Gap, Gap-fill}

-- A heap with its last slot cleared
module _ (key : ℕ → ℕ → ℕ) (id other idx dt : ℕ) (h : Timers) (few : idx + 2 < 2 ^ 31)
    (even : idx % 2 ≡ 0) (two : (id < 2) × (other < 2) × (id ≢ other))
    (ok : HeapOk key id (idx + 2) h) (held : Holds id (idx + 2) dt h) where
  cleared_slot : (i : ℕ) → i ≢ idx + id → (clear_slot (idx + id) h).slots i ≡ h.slots i
  unfolding clear_slot
  cleared_slot i n = let t : (i == idx + id) ≡ false = ground arith in rw t refl

  cleared_entry : (t j : ℕ) → (clear_slot (idx + id) h).entry t j ≡ h.entry t j
  unfolding clear_slot
  cleared_entry t j = refl

  cleared-SameHeap : SameHeap other h (clear_slot (idx + id) h)
  cleared-SameHeap = (λ i e. cleared_slot i (omega arith), λ t. cleared_entry t other)

  cleared-HeapOk : HeapOk key id idx (clear_slot (idx + id) h)
  cleared-HeapOk = record {
    ordered = λ i (a, b, c).
        let (x, y, z) = parent_lem i a (omega arith) in
        let up = cleared_slot (parent i) (omega arith) in
        let here = cleared_slot i (omega arith) in
        let p = ok.ordered i (a, omega arith, c) in rw (up, here) p;
    known = λ i l e.
        ap (λ (t : ℕ). (clear_slot (idx + id) h).entry t id) (cleared_slot i (omega arith))
        ∙ cleared_entry (h.slots i) id
        ∙ ok.known i (omega arith) e;
  }

  place : h.entry dt id ≡ held.0
  place = sym (HeapOk-one key id (idx + 2) held.0 dt h ok held.1 held.2 held.3)

  -- What a removal from the heap leaves.
  abbrev pub Removed : Timers → Type 0
  Removed r =
      HeapOk key id idx r
      × ((t : ℕ) → t ≢ dt → Holds id (idx + 2) t h → Holds id idx t r)
      × ((i : ℕ) → i < idx → i % 2 ≡ id → r.slots i ≢ dt)
      × SameHeap other h r

  -- The timer is the last one.
  last-Removed : h.slots (idx + id) ≡ dt → Removed (clear_slot (idx + id) h)
  last-Removed last = (
    cleared-HeapOk,
    λ t n (i, l, e, s). elim (ℕ_discrete i (idx + id)) [
      | yes y ↦ absurd (n (sym s ∙ ap h.slots y ∙ last))
      | no y ↦ (i, omega arith, e, cleared_slot i y ∙ s)
    ],
    λ i l e s.
        let here =
          HeapOk-one key id (idx + 2) i dt h ok (omega arith) e
            (sym (cleared_slot i (omega arith)) ∙ s) in
        let there =
          HeapOk-one key id (idx + 2) (idx + id) dt h ok (omega arith) (omega arith) last in
        omega arith,
    cleared-SameHeap,
  )

  module _ (differ : h.slots (idx + id) ≢ dt) where
    place_in : held.0 < idx
    place_in = elim (ℕ_discrete held.0 (idx + id)) [
      | yes y ↦ absurd (differ (ap h.slots (sym y) ∙ held.3))
      | no y ↦ omega (arith, held.1, held.2)
    ]

    -- The last timer is to go where the removed one was.
    removed-Gap : Gap key id idx (h.slots (idx + id)) held.0 (clear_slot (idx + id) h)
    removed-Gap = record {
      inside = place_in;
      parity = held.2;
      around = λ i j n m. cleared-HeapOk.ordered i j;
      across = λ i (a, b, c) e l.
          let p = cleared-HeapOk.ordered i (a, b, c) in
          let q = cleared-HeapOk.ordered held.0 (l, place_in, held.2) in
          let p' =
            subst
              (λ (k : ℕ).
                keys key id (clear_slot (idx + id) h) k ≤ keys key id (clear_slot (idx + id) h) i)
              e p in
          omega arith;
      tracked = λ i l e n. (
        cleared-HeapOk.known i l e,
        λ same.
            let here =
              HeapOk-one key id (idx + 2) i (h.slots (idx + id)) h ok (omega arith) e
                (sym (cleared_slot i (omega arith)) ∙ same) in
            let there =
              HeapOk-one key id (idx + 2) (idx + id) (h.slots (idx + id)) h ok (omega arith)
                (omega arith) refl in
            omega arith,
      );
    }

    sifted-Removed :
        Removed (resift key id idx (h.slots (idx + id)) held.0 (clear_slot (idx + id) h))
    sifted-Removed =
        let less : idx < 2 ^ 31 = omega arith in
        let (fine, own, kept) =
          Gap-fill key id idx (h.slots (idx + id)) held.0 (clear_slot (idx + id) h) less
            removed-Gap in
        let r = resift key id idx (h.slots (idx + id)) held.0 (clear_slot (idx + id) h) in
        let frame =
          resift-SameHeap key id other idx (h.slots (idx + id)) less two.2 held.0
            (clear_slot (idx + id) h) (place_in, held.2) in
        (
          fine,
          λ t n (i, l, e, s). elim (ℕ_discrete i (idx + id)) [
            | yes y ↦ subst (λ (u : ℕ). Holds id idx u r) (ap h.slots (sym y) ∙ s) own
            | no y ↦
                subst (λ (u : ℕ). Holds id idx u r) (cleared_slot i y ∙ s)
                  (kept i (omega arith) e (λ q. n (sym s ∙ ap h.slots q ∙ held.3)))
          ],
          resift-Without key id idx (h.slots (idx + id)) dt held.0 (clear_slot (idx + id) h) less
              (place_in, held.2) differ
              (λ i l e n s. n (
                HeapOk-one key id (idx + 2) i dt h ok (omega arith) e
                  (sym (cleared_slot i (omega arith)) ∙ s)
                ∙ place)),
          (λ i e. frame.0 i e ∙ cleared-SameHeap.0 i e, λ t. frame.1 t ∙ cleared-SameHeap.1 t),
        )

  pub take_out-Removed : Removed (take_out key id idx dt h)
  unfolding take_out
  take_out-Removed = elim (ℕ_discrete (h.slots (idx + id)) dt) [
    | yes y ↦ let t : (h.slots (idx + id) == dt) ≡ true = ground arith in rw t (last-Removed y)
    | no y ↦
        let t : (h.slots (idx + id) == dt) ≡ false = ground arith in
        let at : (clear_slot (idx + id) h).entry dt id ≡ held.0 = cleared_entry dt id ∙ place in
        rw t (
          subst
            (λ (k : ℕ).
              Removed (resift key id idx (h.slots (idx + id)) k (clear_slot (idx + id) h)))
            (sym at) (sifted-Removed y))
  ]
