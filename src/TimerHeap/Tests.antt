-- ===== src/TimerHeap/Tests.antt =====
-- A timer heap of three segments (src/event/event.c).
use swift_corelibs_libdispat.Common.{ℕ, ◌+◌, ◌≤◌, ◌<◌, ◌≡◌, refl, arith, some}
use swift_corelibs_libdispat.TimerHeap.{
  Heap, grow, shrink, capacity, in_segment, get_slot, parent, left_child, heap_id, walk_skip,
}
use swift_corelibs_libdispat.TimerHeap.Index.{walk_skip-climb, climb}
use swift_corelibs_libdispat.TimerHeap.Segments.{IsLinked, grow-IsLinked}
use swift_corelibs_libdispat.TimerHeap.Slots.{seg_base, seg_room, get_slot_lem}

abbrev addrs : ℕ → ℕ
addrs seg_no = 100 + seg_no

abbrev one_segment : Heap
one_segment = record { dth_segments = 1; dth_heap = 100; memory = λ a i. 0 }

two_segments : Heap
unfolding grow
two_segments = grow 101 one_segment

one_segment-IsLinked : IsLinked addrs one_segment
one_segment-IsLinked = record { last = λ p. refl; links = λ j q. absurd (omega arith) }

two_segments-IsLinked : IsLinked addrs two_segments
unfolding two_segments
two_segments-IsLinked =
    grow-IsLinked addrs one_segment 101 one_segment-IsLinked refl (λ p e. absurd (omega arith))

three_segments : Heap
unfolding grow
three_segments = grow 102 (grow 101 one_segment)

get_slot_lem_example :
    (k : ℕ) × (off : ℕ) × (get_slot two_segments 16 ≡ in_segment (addrs k) off)
    × (k ≤ 1)
    × (16 ≡ 2 + seg_base k + off)
    × (off < seg_room 2 k)
unfolding two_segments grow capacity
get_slot_lem_example =
    get_slot_lem addrs two_segments 1 16 two_segments-IsLinked refl (omega arith) (omega arith)
      (omega arith)

walk_skip-climb_example : walk_skip 7 14 ≡ climb 31 7 14
walk_skip-climb_example = walk_skip-climb 7 14 refl (omega arith) (omega arith) (omega arith)

-- In a heap of four timers index 6 is the last left child: the right sibling of its parent is 4.
run_skip : walk_skip 6 8 ≡ some 4
unfolding walk_skip swift_corelibs_libdispat.TimerHeap.drop_ones
run_skip = refl

-- Index 16 is in segment 1, and finds segment 0 by its link.
run_slots :
    (get_slot two_segments 16 ≡ in_segment 101 6) × (get_slot two_segments 9 ≡ in_segment 100 7)
unfolding two_segments grow get_slot swift_corelibs_libdispat.TimerHeap.bit_length
run_slots = (refl, refl)
