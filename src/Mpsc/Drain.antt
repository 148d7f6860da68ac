-- ===== src/Mpsc/Drain.antt =====
-- How long the consumer of the os_mpsc queue of src/inline_internal.h takes to empty it once no producer
-- is at work.
use swift_corelibs_libdispat.Common.{
  ℕ, suc, zero, ◌+◌, ◌-◌, ◌*◌, ◌≤◌, ◌<◌, ◌≡◌, ◌≢◌, inl, inr, refl, sym, ap, ◌∙◌, arith, true, false,
  ◌==◌, ℕ_discrete, dec_lt, Option, none, some,
}
use swift_corelibs_libdispat.Mpsc.{
  Producer, idle, linking, Consumer, resting, getting, popping, storing, emptying, awaiting_next,
  storing_next, System, consume, record_pop, consumer_step, Reach, after, consumes,
}
use swift_corelibs_libdispat.Mpsc.Invariant.{HeadOk, ConsumerOk, Inv}
use swift_corelibs_libdispat.Mpsc.Pop.{consume-Inv, result}
use swift_corelibs_libdispat.Mpsc.Fifo.{Reach-Inv, pops_in_order}

-- The consumer's next accesses
unfoldable pub run_consumer : ℕ → System → System
run_consumer zero s = s
run_consumer (suc k) s = run_consumer k (consumer_step s)

-- How many accesses the pop of an item still takes at most.
abbrev left : Consumer → ℕ
left resting = 7
left getting = 6
left (popping item) = 5
left (storing item found) = 4
left (emptying item) = 3
left (awaiting_next item) = 2
left (storing_next item found) = 1

-- How many accesses the queue still takes at most.
abbrev work : System → ℕ
work s = 7 * (s.pushes - s.pops) + left s.consumer

abbrev Quiet : System → Type 0
Quiet s = (p : ℕ) → s.producers p ≡ idle

not_linking : (a : Producer) (prev item n : ℕ) → a ≡ idle → a ≢ linking prev item n
not_linking a prev item n e l = cc

module _ (s : System) (v : Inv s) (q : Quiet s) (queued : s.pops < s.pushes) where
  first_is_head : HeadOk s → s.memory.head ≢ 0
  first_is_head (inl (z, inl x)) h = omega arith
  first_is_head (inl (z, inr l)) h =
      not_linking (s.producers (s.pusher s.pops)) 0 (s.pushed s.pops) s.pops (q (s.pusher s.pops)) l
  first_is_head (inr (a, b)) h = v.not_null s.pops (omega arith) queued (sym b ∙ h)

  step-work :
      (c : Consumer)
      → s.consumer ≡ c
      → ConsumerOk s c
      → work (result s (consume s.memory c)) < 7 * (s.pushes - s.pops) + left c
  unfolding consume
  step-work resting e o =
      let not_empty : s.memory.tail ≢ 0 =
        λ z. v.not_null (s.pushes - 1) (omega arith) (omega arith) (sym (v.tail_last queued) ∙ z) in
      let t : (s.memory.tail == 0) ≡ false = ground arith in rw t (omega arith)
  step-work getting e (a, o) =
      let n = first_is_head o in
      let t : (s.memory.head == 0) ≡ false = ground arith in rw t (omega arith)
  step-work (popping item) e o = omega arith
  step-work (storing item found) e o = elim (ℕ_discrete found 0) [
    | yes z ↦ let t : (found == 0) ≡ true = ground arith in rw t (omega arith)
    | no z ↦ let t : (found == 0) ≡ false = ground arith in rw t (omega arith)
  ]
  step-work (emptying item) e o = elim (ℕ_discrete s.memory.tail item) [
    | yes z ↦ let t : (s.memory.tail == item) ≡ true = ground arith in rw t (omega arith)
    | no z ↦ let t : (s.memory.tail == item) ≡ false = ground arith in rw t (omega arith)
  ]
  step-work (awaiting_next item) e (more, held, head) =
      let linked : s.memory.next item ≢ 0 = elim (v.links s.pops (omega arith) more) [
        | inl x ↦ λ z.
            v.not_null (s.pops + 1) (omega arith) more (sym x ∙ ap s.memory.next (sym held) ∙ z)
        | inr (x, l) ↦ absurd (
            not_linking (s.producers (s.pusher (s.pops + 1))) (s.pushed s.pops)
              (s.pushed (s.pops + 1)) (s.pops + 1) (q (s.pusher (s.pops + 1))) l)
      ] in
      let t : (s.memory.next item == 0) ≡ false = ground arith in rw t (omega arith)
  step-work (storing_next item found) e o = omega arith

-- The history leaves the producers and what they pushed.
record_pop_lem :
    (r : Option ℕ) (s : System)
    → ((record_pop r s).producers ≡ s.producers)
      × ((record_pop r s).pushes ≡ s.pushes)
      × (s.pops ≤ (record_pop r s).pops)
      × ((record_pop r s).pushed ≡ s.pushed)
record_pop_lem none s = (refl, refl, omega arith, refl)
record_pop_lem (some item) s = (refl, refl, omega arith, refl)

left_bounds : (c : Consumer) → (1 ≤ left c) × (left c ≤ 7)
left_bounds resting = (omega arith, omega arith)
left_bounds getting = (omega arith, omega arith)
left_bounds (popping item) = (omega arith, omega arith)
left_bounds (storing item found) = (omega arith, omega arith)
left_bounds (emptying item) = (omega arith, omega arith)
left_bounds (awaiting_next item) = (omega arith, omega arith)
left_bounds (storing_next item found) = (omega arith, omega arith)

run-drains :
    (k : ℕ) (s : System) → Inv s → Quiet s → work s ≤ k + 7 → (run_consumer k s).pops ≡ s.pushes
unfolding run_consumer consumer_step
run-drains zero s v q w = omega (arith, (left_bounds s.consumer).0, v.counts)
run-drains (suc k) s v q w =
    run-drains k t u (λ p. ap (λ (f : ℕ → Producer). f p) keeps.0 ∙ q p) less ∙ keeps.1
  where
    t : System
    t = consumer_step s

    u : Inv t
    u = consume-Inv s v

    keeps :
        (t.producers ≡ s.producers)
        × (t.pushes ≡ s.pushes)
        × (s.pops ≤ t.pops)
        × (t.pushed ≡ s.pushed)
    keeps =
        let a = consume s.memory s.consumer in
        record_pop_lem a.popped (record s { memory = a.memory; consumer = a.goes_on })

    less : work t ≤ k + 7
    less = elim (dec_lt s.pops s.pushes) [
      | yes h ↦ omega (arith, step-work s v q h s.consumer refl v.consumer)
      | no h ↦ omega (arith, keeps.2, keeps.1, u.counts, (left_bounds t.consumer).1)
    ]

-- The consumer's accesses stay within the reachable states, and change nothing of what was pushed.
pub run_consumer-Reach : (k : ℕ) (s : System) → Reach s → Reach (run_consumer k s)
unfolding run_consumer
run_consumer-Reach zero s r = r
run_consumer-Reach (suc k) s r = run_consumer-Reach k (consumer_step s) (after r consumes)

run_pushed : (k : ℕ) (s : System) → (run_consumer k s).pushed ≡ s.pushed
unfolding run_consumer consumer_step
run_pushed zero s = refl
run_pushed (suc k) s =
    let a = consume s.memory s.consumer in
    run_pushed k (consumer_step s)
    ∙ (record_pop_lem a.popped (record s { memory = a.memory; consumer = a.goes_on })).3

-- From a reachable state in which no producer is at work, the consumer pops every item that was pushed,
-- in the order of the pushes, with at most seven accesses for each: as many are popped as were pushed, and
-- each in its place.
pub drains :
    {s : System}
    → Reach s
    → ((p : ℕ) → s.producers p ≡ idle)
    → (let t = run_consumer (7 * (s.pushes - s.pops)) s in
        (t.pops ≡ s.pushes) × ((i : ℕ) → i < s.pushes → t.popped i ≡ s.pushed i))
drains {s = s} r q =
    let k = 7 * (s.pushes - s.pops) in
    let all : (run_consumer k s).pops ≡ s.pushes =
      run-drains k s (Reach-Inv r) q (omega (arith, (left_bounds s.consumer).1)) in
    let (few, order) = pops_in_order (run_consumer-Reach k s r) in
    (all, λ i h. order i (omega arith) ∙ ap (λ (f : ℕ → ℕ). f i) (run_pushed k s))
