-- ===== src/TimerHeap.antt =====
-- src/event/event.c, the storage of the timer heap: two binary heaps, interleaved in one array of
-- growing segments. Timers and segments are addresses. The memory is a function of a segment's
-- address and an index; the address of a new segment comes from `_dispatch_calloc`.
mod Index
mod Segments
mod Slots
mod Sift
mod Contents
mod Tests
use swift_corelibs_libdispat.Common.{
  ℕ, zero, suc, ◌+◌, ◌-◌, ◌*◌, ◌/◌, ◌%◌, ◌^◌, Bool, ◌&&◌, leb, ltb, ◌==◌, if◌then◌else◌, Option,
  none, some,
}

-- DISPATCH_HEAP_INIT_SEGMENT_CAPACITY
abbrev pub init_segment_capacity : ℕ
init_segment_capacity = 8

-- DTH_HEAP_ID
abbrev pub heap_id : ℕ → ℕ
heap_id idx = idx % 2

-- DTH_IDX_FOR_HEAP_ID
abbrev pub idx_for_heap_id : ℕ → ℕ → ℕ
idx_for_heap_id idx id = idx / 2 * 2 + id

-- `_dispatch_timer_heap_capacity`
pub capacity : ℕ → ℕ
capacity segments =
    if segments == 0
    then 2
    else (2 + init_segment_capacity * 2 ^ (segments - 1) % 2 ^ 32 + 2 ^ 32 - (segments - 1))
      % 2 ^ 32

-- The segments of a heap: `dth_segments`, `dth_heap` and what the segments hold.
pub record Heap : Type 0 where
  pub dth_segments : ℕ
  pub dth_heap : ℕ
  pub memory : ℕ → ℕ → ℕ

-- memcpy(&dst[d], &src[s], n * sizeof(void *))
pub memcpy : ℕ → ℕ → ℕ → ℕ → ℕ → (ℕ → ℕ → ℕ) → ℕ → ℕ → ℕ
memcpy dst d src s n mem a i =
    if (a == dst) && (leb d i && ltb i (d + n)) then mem src (s + (i - d)) else mem a i

-- segment[i] = value
pub store : ℕ → ℕ → ℕ → (ℕ → ℕ → ℕ) → ℕ → ℕ → ℕ
store segment i value mem a j = if (a == segment) && (j == i) then value else mem a j

-- What `_dispatch_calloc` leaves at the address that it gives.
pub calloc : ℕ → (ℕ → ℕ → ℕ) → ℕ → ℕ → ℕ
calloc fresh mem a i = if a == fresh then 0 else mem a i

-- The capacity of segment `seg_no`, with the links to other segments at its end.
abbrev pub seg_capacity : ℕ → ℕ
seg_capacity seg_no =
    if ltb 0 seg_no then init_segment_capacity * 2 ^ (seg_no - 1) else init_segment_capacity

-- `_dispatch_timer_heap_grow`, with the new segment at `fresh`
pub grow : ℕ → Heap → Heap
unfolding memcpy store calloc
grow fresh h =
    let seg_no : ℕ = h.dth_segments in
    let zeroed : ℕ → ℕ → ℕ = calloc fresh h.memory in
    let copied : ℕ → ℕ → ℕ =
      if ltb 1 seg_no
      then memcpy fresh (seg_capacity seg_no - (seg_no - 1)) h.dth_heap
          (seg_capacity seg_no / 2 - (seg_no - 1)) (seg_no - 1) zeroed
      else zeroed in
    record {
      dth_segments = seg_no + 1;
      dth_heap = fresh;
      memory =
          if ltb 0 seg_no
          then store fresh (seg_capacity seg_no - seg_no) h.dth_heap copied
          else copied;
    }

-- `_dispatch_timer_heap_shrink`; the null pointer is 0.
pub shrink : Heap → Heap
unfolding memcpy
shrink h =
    let seg_no : ℕ = h.dth_segments - 1 in
    let heap_prev : ℕ =
      if ltb 0 seg_no then h.memory h.dth_heap (seg_capacity seg_no - seg_no) else 0 in
    record {
      dth_segments = seg_no;
      dth_heap = heap_prev;
      memory =
          if ltb 1 seg_no
          then memcpy heap_prev (seg_capacity seg_no / 2 - (seg_no - 1)) h.dth_heap
              (seg_capacity seg_no - (seg_no - 1)) (seg_no - 1) h.memory
          else h.memory;
    }

-- The number of bits of a number below 2 ^ fuel.
unfoldable pub bit_length : ℕ → ℕ → ℕ
bit_length zero n = 0
bit_length (suc fuel) n = let rest : ℕ = bit_length fuel (n / 2) in if n == 0 then 0 else suc rest

-- __builtin_clz, on 32 bits
abbrev pub clz : ℕ → ℕ
clz n = 32 - bit_length 32 n

-- Where `_dispatch_timer_heap_get_slot` points: into `dth_min`, or into a segment.
pub data Slot : Type 0 where
  dth_min : ℕ → Slot
  in_segment : (segment idx : ℕ) → Slot

-- The slot of `idx` in segment `seg_no`, whose address is `dth_heap` or a link.
pub slot_in : Heap → ℕ → ℕ → Slot
slot_in h seg_no idx =
    in_segment
      (if seg_no + 1 == h.dth_segments
        then h.dth_heap
        else h.memory h.dth_heap (init_segment_capacity * 2 ^ (h.dth_segments - 2) - seg_no - 1))
      (if seg_no == 0 then idx else idx - init_segment_capacity * 2 ^ (seg_no - 1))

-- `_dispatch_timer_heap_get_slot`
pub get_slot : Heap → ℕ → Slot
unfolding slot_in
get_slot h idx =
    if ltb idx 2
    then dth_min idx
    else slot_in h (clz (init_segment_capacity - 1) - clz ((idx - 2) / 8 * 8 + 7)) (idx - 2)

-- `_dispatch_timer_heap_parent`
unfoldable pub parent : ℕ → ℕ
parent idx = idx_for_heap_id ((idx + 2 ^ 32 - 2) % 2 ^ 32 / 2) (heap_id idx)

-- `_dispatch_timer_heap_left_child`
unfoldable pub left_child : ℕ → ℕ
left_child idx = (2 * idx + 2 - heap_id idx) % 2 ^ 32

-- `idx >> __builtin_ctz(~idx)`: the trailing ones are shifted out.
unfoldable pub drop_ones : ℕ → ℕ → ℕ
drop_ones zero idx = idx
drop_ones (suc fuel) idx =
    let rest : ℕ = drop_ones fuel (idx / 2) in if idx % 2 == 1 then rest else idx

-- `_dispatch_timer_heap_walk_skip`; `none` is UINT32_MAX.
pub walk_skip : ℕ → ℕ → Option ℕ
unfolding parent
walk_skip idx count =
    let start : ℕ = idx - heap_id idx in
    let from : ℕ = if start + 2 == count then parent start else start in
    let next : ℕ = drop_ones 32 ((from + 3) % 2 ^ 32) in
    if next == 0 then none else some (2 * next + heap_id idx)

-- `_dispatch_timer_heap_walk_next`
pub walk_next : ℕ → ℕ → Option ℕ
unfolding left_child walk_skip
walk_next idx count =
    if ltb (left_child idx) count then some (left_child idx) else walk_skip idx count
