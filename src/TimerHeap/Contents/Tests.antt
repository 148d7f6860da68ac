-- ===== src/TimerHeap/Contents/Tests.antt =====
-- Instances and runs of the timer heap (src/event/event.c).
use swift_corelibs_libdispat.Common.{
  ℕ, ◌+◌, ◌≡◌, refl, sym, subst, arith, true, false, ltb, ◌==◌, if◌then◌else◌,
}
use swift_corelibs_libdispat.TimerHeap.{parent, left_child}
use swift_corelibs_libdispat.TimerHeap.Sift.{resift, sift_up, sift_down, smaller_child, heap_set}
use swift_corelibs_libdispat.TimerHeap.Contents.{
  TimerSet, heap_insert, heap_remove, heap_update, insert_at, insert_first, take_out, remove_at,
  clear_slot, clear_heap_entry, invalid_id,
}
use swift_corelibs_libdispat.TimerHeap.Contents.Filled.{Holds}
use swift_corelibs_libdispat.TimerHeap.Contents.Insert.{BothOk, InBoth, heap_insert-BothOk}
use swift_corelibs_libdispat.TimerHeap.Contents.RemoveBoth.{Without, heap_remove-Without}
use swift_corelibs_libdispat.TimerHeap.Contents.Update.{heap_update-BothOk}

-- The keys of a timer are its number.
abbrev number : ℕ → ℕ → ℕ
number id t = t

abbrev none_armed : TimerSet
none_armed = record {
  timers = record { slots = λ i. 0; entry = λ t id. invalid_id; needs_program = false };
  count = 0;
  max_qos = 0;
}

none_armed-BothOk : BothOk number 0 none_armed.timers
none_armed-BothOk = record {
  few = omega arith;
  even = omega arith;
  target = record {
    ordered = λ i (a, b, c). absurd (omega arith);
    known = λ i l e. absurd (omega arith);
  };
  deadline = record {
    ordered = λ i (a, b, c). absurd (omega arith);
    known = λ i l e. absurd (omega arith);
  };
}

-- Timer 7 is armed, and then timer 5.
abbrev armed_one : TimerSet
armed_one = heap_insert number 3 7 none_armed

armed_one_lem :
    BothOk number 2 armed_one.timers
    × (armed_one.count ≡ 2)
    × InBoth 2 7 armed_one.timers
    × ((t : ℕ) → InBoth 0 t none_armed.timers → InBoth 2 t armed_one.timers)
armed_one_lem =
    heap_insert-BothOk number 3 7 none_armed (omega arith) none_armed-BothOk
      (λ (i, l, e, s). omega arith) (λ (i, l, e, s). omega arith)

armed_one-BothOk : BothOk number armed_one.count armed_one.timers
armed_one-BothOk =
    subst (λ (k : ℕ). BothOk number k armed_one.timers) (sym armed_one_lem.1) armed_one_lem.0

absent : (id : ℕ) → Holds id armed_one.count 5 armed_one.timers → ⊥
unfolding heap_insert insert_at insert_first
absent id (i, l, e, s) =
    let t : ltb i 2 ≡ true = ground arith in
    let seven : armed_one.timers.slots i ≡ 7 = rw t refl in omega (arith, seven, s)

heap_insert-BothOk_example :
    BothOk number (armed_one.count + 2) (heap_insert number 4 5 armed_one).timers
    × ((heap_insert number 4 5 armed_one).count ≡ armed_one.count + 2)
    × InBoth (armed_one.count + 2) 5 (heap_insert number 4 5 armed_one).timers
    × ((t : ℕ)
        → InBoth armed_one.count t armed_one.timers
        → InBoth (armed_one.count + 2) t (heap_insert number 4 5 armed_one).timers)
heap_insert-BothOk_example =
    heap_insert-BothOk number 4 5 armed_one (omega (arith, armed_one_lem.1)) armed_one-BothOk
      (absent 0) (absent 1)

abbrev armed_two : TimerSet
armed_two = heap_insert number 4 5 armed_one

armed_two-BothOk : BothOk number 4 armed_two.timers
armed_two-BothOk =
    subst (λ (k : ℕ). BothOk number (k + 2) armed_two.timers) armed_one_lem.1
      (heap_insert-BothOk number 4 5 armed_one (omega (arith, armed_one_lem.1)) armed_one-BothOk
        (absent 0) (absent 1)).0

armed_two-Holds : InBoth 4 5 armed_two.timers
unfolding heap_insert insert_at insert_first resift sift_up sift_down smaller_child heap_set parent
    left_child
armed_two-Holds = ((0, omega arith, refl, refl), (1, omega arith, refl, refl))

armed_two_count : armed_two.count ≡ 4
unfolding heap_insert
armed_two_count = refl

heap_remove-Without_example :
    Without number 2 5 armed_two.timers armed_two-BothOk armed_two-Holds
      (heap_remove number 5 armed_two).timers
    × ((heap_remove number 5 armed_two).count ≡ 2)
heap_remove-Without_example =
    heap_remove-Without number 5 2 armed_two armed_two_count armed_two-BothOk armed_two-Holds

-- Timer 5 comes after timer 7 from now on.
abbrev postponed : ℕ → ℕ → ℕ
postponed id t = if t == 5 then 9 else t

heap_update-BothOk_example :
    BothOk postponed armed_two.count (heap_update postponed 5 armed_two).timers
    × ((t : ℕ)
        → InBoth armed_two.count t armed_two.timers
        → InBoth armed_two.count t (heap_update postponed 5 armed_two).timers)
heap_update-BothOk_example =
    heap_update-BothOk number postponed 5 armed_two
      (λ id t n. let e : (t == 5) ≡ false = ground arith in rw e refl)
      (subst (λ (k : ℕ). BothOk number k armed_two.timers) (sym armed_two_count) armed_two-BothOk)
      (subst (λ (k : ℕ). InBoth k 5 armed_two.timers) (sym armed_two_count) armed_two-Holds)

-- After the update timer 7 is first, and after a removal of it timer 5 alone is left.
updated_first : (heap_update postponed 5 armed_two).timers.slots 0 ≡ 7
unfolding heap_update heap_insert insert_at insert_first resift sift_up sift_down smaller_child
    heap_set parent left_child
updated_first = refl

removed_first : (heap_remove number 5 armed_two).timers.slots 1 ≡ 7
unfolding heap_remove remove_at take_out clear_slot clear_heap_entry heap_insert insert_at
    insert_first resift sift_up sift_down smaller_child heap_set parent left_child
removed_first = refl
