-- ===== src/Mpsc/Fifo.antt =====
-- What the os_mpsc queue of src/inline_internal.h promises its producers and its consumer.
use swift_corelibs_libdispat.Common.{
  ℕ, ◌+◌, ◌≤◌, ◌<◌, ◌≡◌, ◌≢◌, inl, inr, refl, sym, ap, ◌∙◌, arith, true, false, ◌==◌, subst,
}
use swift_corelibs_libdispat.Mpsc.{
  linking, Consumer, resting, getting, popping, storing, emptying, awaiting_next, storing_next,
  System, Step, clear, swap, link, consumes, Reach, start, after, push_link, push_update_prev,
}
use swift_corelibs_libdispat.Mpsc.Invariant.{ProducerOk, ConsumerOk, Inv, empty-Inv}
use swift_corelibs_libdispat.Mpsc.Clear.{clear-Inv}
use swift_corelibs_libdispat.Mpsc.Swap.{swap-Inv}
use swift_corelibs_libdispat.Mpsc.LinkNext.{link-Inv}
use swift_corelibs_libdispat.Mpsc.Pop.{consume-Inv}

Step-Inv : {s t : System} → Step s t → Inv s → Inv t
Step-Inv {s = s} (clear p item e f) v = clear-Inv p item s e f v
Step-Inv {s = s} (swap p item e) v = swap-Inv p item s e v
Step-Inv {s = s} (link p prev item number e) v = link-Inv p prev item number s e v
Step-Inv {s = s} consumes v = consume-Inv s v

pub Reach-Inv : {s : System} → Reach s → Inv s
Reach-Inv start = empty-Inv
Reach-Inv (after r st) = Step-Inv st (Reach-Inv r)

-- In every reachable state no more items are popped than pushed, and what was popped is what was pushed,
-- in the order in which the producers exchanged the tail: no item is lost, popped twice or overtaken.
pub pops_in_order :
    {s : System} → Reach s → (s.pops ≤ s.pushes) × ((i : ℕ) → i < s.pops → s.popped i ≡ s.pushed i)
pops_in_order r = let v = Reach-Inv r in (v.counts, v.history)

-- What a consumer that spins in os_mpsc_get_head or os_mpsc_get_next waits for, and whether it has to.
abbrev pub Spins : System → Consumer → Type 0
Spins s getting = s.memory.head ≡ 0
Spins s (awaiting_next item) = s.memory.next item ≡ 0
Spins _ _ = ⊥

-- The consumer waits only for a producer that is about to link its item.

-- The head and the link of the first item after a step of the producer that is linking it
module _ {s : System} (v : Inv s) (p prev item number : ℕ)
    (e : s.producers p ≡ linking prev item number) where
  linker : ProducerOk s p (linking prev item number)
  linker = subst (ProducerOk s p) e (v.producers p)

  item_not_null : item ≢ 0
  item_not_null z = v.not_null number linker.0 linker.1 (sym linker.2 ∙ z)

  sets_head : prev ≡ 0 → (push_link p prev item s).memory.head ≢ 0
  unfolding push_link push_update_prev
  sets_head z = let t : (prev == 0) ≡ true = ground arith in rw t item_not_null

  sets_link : prev ≢ 0 → (push_link p prev item s).memory.next prev ≢ 0
  unfolding push_link push_update_prev
  sets_link z =
      let t : (prev == 0) ≡ false = ground arith in
      let q : (prev == prev) ≡ true = ground arith in rw (t, q) item_not_null

-- A consumer spins only while the producer of the item that it waits for is between the exchange of the
-- tail and its link, and the step of that producer ends the wait.
pub waits_for_producer :
    {s : System}
    → Reach s
    → Spins s s.consumer
    → (p : ℕ) × (prev : ℕ) × (item : ℕ) × (number : ℕ) × (s.producers p ≡ linking prev item number)
      × (Spins (push_link p prev item s) (push_link p prev item s).consumer → ⊥)
unfolding push_link
waits_for_producer {s = s} r spins = waits s.consumer (Reach-Inv r).consumer spins
  where
    waits :
        (c : Consumer)
        → ConsumerOk s c
        → Spins s c
        → (p : ℕ) × (prev : ℕ) × (item : ℕ) × (number : ℕ) × (s.producers p
            ≡ linking prev item number)
          × (Spins (push_link p prev item s) c → ⊥)
    waits getting (queued, inl (z, inl x)) w = absurd (omega arith)
    waits getting (queued, inl (z, inr l)) w =
        let v = Reach-Inv r in
        (
          s.pusher s.pops,
          0,
          s.pushed s.pops,
          s.pops,
          l,
          sets_head v (s.pusher s.pops) 0 (s.pushed s.pops) s.pops l refl,
        )
    waits getting (queued, inr (a, b)) w =
        absurd ((Reach-Inv r).not_null s.pops (omega arith) queued (sym b ∙ w))
    waits (awaiting_next held) (more, b, h) w =
        let v = Reach-Inv r in
        elim (v.links s.pops (omega arith) more) [
          | inl x ↦
              absurd
                (v.not_null (s.pops + 1) (omega arith) more (sym x ∙ ap s.memory.next (sym b) ∙ w))
          | inr (x, l) ↦
              let l' : s.producers (s.pusher (s.pops + 1))
                  ≡ linking held (s.pushed (s.pops + 1)) (s.pops + 1) =
                l ∙ ap (λ (a : ℕ). linking a (s.pushed (s.pops + 1)) (s.pops + 1)) (sym b) in
              (
                s.pusher (s.pops + 1),
                held,
                s.pushed (s.pops + 1),
                s.pops + 1,
                l',
                sets_link v (s.pusher (s.pops + 1)) held (s.pushed (s.pops + 1)) (s.pops + 1) l'
                    (λ z. v.not_null s.pops (omega arith) (omega arith) (sym b ∙ z)),
              )
        ]
    waits resting o w = elim w [ ]
    waits (popping item) o w = elim w [ ]
    waits (storing item found) o w = elim w [ ]
    waits (emptying item) o w = elim w [ ]
    waits (storing_next item found) o w = elim w [ ]
