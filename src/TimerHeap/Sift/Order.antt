-- ===== src/TimerHeap/Sift/Order.antt =====
-- `_dispatch_timer_heap_resift` (src/event/event.c) puts a heap in order.
use mathlib.Core.Path.{fun_ext}
use swift_corelibs_libdispat.Common.{
  ℕ, ◌%◌, ◌^◌, ◌≤◌, ◌<◌, ◌≡◌, ◌≢◌, sym, ap, arith, true, false, subst, Bool-cases, ℕ_discrete, ◌==◌,
  inl, inr,
}
use swift_corelibs_libdispat.TimerHeap.{parent}
use swift_corelibs_libdispat.TimerHeap.Index.{parent_lem}
use swift_corelibs_libdispat.TimerHeap.Sift.{Timers, Sifted, heap_set, sift_up, sift_down, resift}
use swift_corelibs_libdispat.TimerHeap.Sift.Up.{
  fill, InHeap, Ordered, AboveOrdered, BelowOrdered, Loose, keys, keys-heap_set, Open,
  sift_up-Topped,
}
use swift_corelibs_libdispat.TimerHeap.Sift.Down.{sift_down-Settled}

-- Where the parent of the index that is filled does not come after what is put there
module _ (id count d k : ℕ) (v : ℕ → ℕ) (few : count < 2 ^ 31)
    (top : 2 ≤ k → v (parent k) ≤ d) where
  filled_at : (i : ℕ) → InHeap id count i → i ≡ k → fill d k v (parent i) ≤ fill d k v i
  filled_at i j e =
      let x = top (omega (arith, j.0, e)) in
      let (a, b, c) = parent_lem i j.0 (omega (arith, j.1)) in
      let here : (i == k) ≡ true = ground arith in
      let there : (parent i == k) ≡ false = ground (arith, a, e) in
      rw (here, there) (omega (arith, x, ap v (ap parent e)))

  Below-Ordered : BelowOrdered id count k (fill d k v) → Ordered id count (fill d k v)
  Below-Ordered o i j = elim (ℕ_discrete i k) [ no n ↦ o i j n | yes e ↦ filled_at i j e ]

  Loose-Above : Loose id count k (fill d k v) → AboveOrdered id count k (fill d k v)
  Loose-Above o i j n = elim (ℕ_discrete i k) [ no m ↦ o i j m n | yes e ↦ filled_at i j e ]

module _ (key : ℕ → ℕ → ℕ) (id count dt idx : ℕ) (h : Timers) where
  -- The last store.
  store_last :
      (r : Sifted)
      → Ordered id count (fill (key id dt) r.idx (keys key id r.timers))
      → Ordered id count (keys key id (heap_set r.idx dt r.timers))
  store_last r o =
      subst (Ordered id count) (fun_ext (λ i. sym (keys-heap_set key id r.idx dt r.timers i))) o

  -- A heap that is in order but around one index, whose parent there comes before its children, is in
  -- order after the timer is sifted into that index. The heap has fewer than 2^31 slots; the timer is
  -- in none of the others.
  pub resift-Ordered :
      count < 2 ^ 31
      → idx < count
      → idx % 2 ≡ id
      → ((i : ℕ)
          → InHeap id count i
          → i ≢ idx
          → parent i ≢ idx
          → keys key id h (parent i) ≤ keys key id h i)
      → ((i : ℕ)
          → InHeap id count i
          → parent i ≡ idx
          → 2 ≤ idx
          → keys key id h (parent idx) ≤ keys key id h i)
      → Ordered id count (keys key id (resift key id count dt idx h))
  unfolding resift
  resift-Ordered few inside parity o g =
      let v = keys key id h in
      let s : Open key id count dt idx h = record {
        bound = inside;
        parity = parity;
        loose = λ i j n k. let x = o i j n k in ground (arith, x);
        bridged = g;
      } in
      let up = sift_up key id count dt 31 idx false h in
      let t =
        sift_up-Topped key id count dt (omega arith) 31 idx false h (omega arith) s (λ e. cc) in
      let w = keys key id up.timers in
      elim (Bool-cases up.sifted_up) [
        | inl moved ↦ rw moved (
            store_last up
              (Below-Ordered id count (key id dt) up.idx w few t.topped (t.below moved)))
        | inr still ↦
            let (same_timers, same_idx, z) = t.still still in
            let above = Loose-Above id count (key id dt) up.idx w few t.topped t.opened.loose in
            let d =
              sift_down-Settled key id count dt few 31 idx up.timers (omega arith)
                (subst (λ (k : ℕ). Open key id count dt k up.timers) same_idx t.opened)
                (subst (λ (k : ℕ). AboveOrdered id count k (fill (key id dt) k w)) same_idx
                  above) in
            rw still (store_last (sift_down key id count dt 31 idx up.timers) d.ordered)
      ]
