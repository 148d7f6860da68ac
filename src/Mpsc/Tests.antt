-- ===== src/Mpsc/Tests.antt =====
-- Instances and runs of the os_mpsc queue (src/inline_internal.h).
use swift_corelibs_libdispat.Common.{
  ℕ, ◌-◌, ◌*◌, ◌≤◌, ◌<◌, ◌≡◌, refl, sym, ◌∙◌, arith, true, false, ◌==◌, ℕ_discrete,
}
use swift_corelibs_libdispat.Mpsc.{
  idle, swapping, linking, awaiting_next, resting, System, IsFree, consume, consumer_step,
  push_clear, push_swap, push_link, push_update_prev, empty, Reach, start, after, clear, swap, link,
}
use swift_corelibs_libdispat.Mpsc.Fifo.{pops_in_order, waits_for_producer, Spins}
use swift_corelibs_libdispat.Mpsc.Drain.{run_consumer, run_consumer-Reach, drains}

-- Producer 1 pushes item 16.
abbrev pushed_one : System
pushed_one = push_link 1 0 16 (push_swap 1 16 (push_clear 1 16 empty))

pushed_one-Reach : Reach pushed_one
unfolding push_clear push_swap
pushed_one-Reach =
    after (after (after start (clear 1 16 refl free)) (swap 1 16 refl)) (link 1 0 16 0 refl)
  where
    free : IsFree 16 empty
    free = record {
      not_null = omega arith;
      not_queued = λ i a b. absurd (omega arith);
      not_claimed = λ p other e. absurd (cc e);
    }

-- Then producer 2 exchanges the tail for item 32.
abbrev swapped : System
swapped = push_swap 2 32 (push_clear 2 32 pushed_one)

idle_one : (p : ℕ) → pushed_one.producers p ≡ idle
unfolding push_clear push_swap push_link
idle_one p = elim (ℕ_discrete p 1) [
  | yes k ↦ let e : (p == 1) ≡ true = ground arith in rw e refl
  | no k ↦ let e : (p == 1) ≡ false = ground arith in rw e refl
]

IsFree-two : IsFree 32 pushed_one
unfolding push_clear push_swap push_link
IsFree-two = record {
  not_null = omega arith;
  not_queued = λ i a b. let e : i ≡ 0 = omega arith in rw e (omega arith);
  not_claimed = λ p other e. cc (sym (idle_one p) ∙ e);
}

swapping_two : (push_clear 2 32 pushed_one).producers 2 ≡ swapping 32
unfolding push_clear
swapping_two = refl

swapped-Reach : Reach swapped
swapped-Reach =
    after (after pushed_one-Reach (clear 2 32 (idle_one 2) IsFree-two)) (swap 2 32 swapping_two)

-- The consumer has found no link of item 16, and has lost the exchange of the tail.
abbrev spinning : System
spinning = run_consumer 5 swapped

spinning_waits : spinning.consumer ≡ awaiting_next 16
unfolding run_consumer consumer_step consume push_clear push_swap push_link push_update_prev
spinning_waits = refl

spinning-Spins : Spins spinning spinning.consumer
unfolding run_consumer consumer_step consume push_clear push_swap push_link push_update_prev
spinning-Spins = refl

-- Producer 2 links its item, and the consumer goes on.
abbrev popped_one : System
popped_one = run_consumer 2 (push_link 2 16 32 spinning)

linking_two : spinning.producers 2 ≡ linking 16 32 1
unfolding run_consumer consumer_step consume push_clear push_swap push_link push_update_prev
linking_two = refl

linked-Reach : Reach (push_link 2 16 32 spinning)
linked-Reach = after (run_consumer-Reach 5 swapped swapped-Reach) (link 2 16 32 1 linking_two)

popped_one-Reach : Reach popped_one
popped_one-Reach = run_consumer-Reach 2 (push_link 2 16 32 spinning) linked-Reach

pops_in_order_example :
    (popped_one.pops ≤ popped_one.pushes)
    × ((i : ℕ) → i < popped_one.pops → popped_one.popped i ≡ popped_one.pushed i)
pops_in_order_example = pops_in_order popped_one-Reach

popped_one_runs :
    (popped_one.pops ≡ 1)
    × (popped_one.popped 0 ≡ 16)
    × (popped_one.memory.head ≡ 32)
    × (popped_one.consumer ≡ resting)
unfolding run_consumer consumer_step consume push_clear push_swap push_link push_update_prev
popped_one_runs = (refl, refl, refl, refl)

waits_for_producer_example :
    (p : ℕ) × (prev : ℕ) × (item : ℕ) × (number : ℕ) × (spinning.producers p
      ≡ linking prev item number)
    × (Spins (push_link p prev item spinning) (push_link p prev item spinning).consumer → ⊥)
waits_for_producer_example =
    waits_for_producer (run_consumer-Reach 5 swapped swapped-Reach) spinning-Spins

drains_example :
    (let t = run_consumer (7 * (pushed_one.pushes - pushed_one.pops)) pushed_one in
      (t.pops ≡ pushed_one.pushes)
      × ((i : ℕ) → i < pushed_one.pushes → t.popped i ≡ pushed_one.pushed i))
drains_example = drains pushed_one-Reach idle_one
