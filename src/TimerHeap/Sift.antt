-- ===== src/TimerHeap/Sift.antt =====
-- `_dispatch_timer_heap_resift` (src/event/event.c). A slot is what `_dispatch_timer_heap_get_slot` gives
-- for an index, which is a place of its own for each index; `key` is `heap_key` of a timer.
pub mod Up
mod Down
pub mod Order
pub mod Moves
pub mod Others
use swift_corelibs_libdispat.Common.{
  ℕ, zero, suc, ◌+◌, ◌*◌, ◌%◌, ◌<◌, Bool, true, false, ◌||◌, leb, ltb, ◌==◌, if◌then◌else◌,
}
use swift_corelibs_libdispat.TimerHeap.{heap_id, parent, left_child}

-- What the sifting changes: the slots, the `dt_heap_entry` of the timers, and `dth_needs_program`.
pub record Timers : Type 0 where
  pub slots : ℕ → ℕ
  pub entry : ℕ → ℕ → ℕ
  pub needs_program : Bool

-- `_dispatch_timer_heap_set`
unfoldable pub heap_set : ℕ → ℕ → Timers → Timers
heap_set idx dt h = record {
  slots = λ i. if i == idx then dt else h.slots i;
  entry =
      λ t id. if t == dt then (if id == heap_id idx then idx else h.entry t id) else h.entry t id;
  needs_program = ltb idx 2 || h.needs_program;
}

-- The loop that sifts up, and the last store if it moved anything; the timers, the index and whether it
-- moved anything.
pub record Sifted : Type 0 where
  pub timers : Timers
  pub idx : ℕ
  pub sifted_up : Bool

module _ (key : ℕ → ℕ → ℕ) (id count dt : ℕ) where
  unfoldable pub sift_up : ℕ → ℕ → Bool → Timers → Sifted
  unfolding parent heap_set
  sift_up zero idx moved h = record { timers = h; idx = idx; sifted_up = moved }
  sift_up (suc fuel) idx moved h =
      let pdt : ℕ = h.slots (parent idx) in
      let rest : Sifted = sift_up fuel (parent idx) true (heap_set idx pdt h) in
      if ltb idx 2 || leb (key id pdt) (key id dt)
      then record { timers = h; idx = idx; sifted_up = moved }
      else rest

  -- The child that the loop looks at: the left one, or the right one if there is one with a smaller key.
  unfoldable pub smaller_child : ℕ → Timers → ℕ
  unfolding left_child
  smaller_child idx h =
      let cidx : ℕ = left_child idx in
      if ltb (cidx + 2) count
      then (if ltb (key id (h.slots (cidx + 2))) (key id (h.slots cidx)) then cidx + 2 else cidx)
      else cidx

  -- The loop that sifts down
  unfoldable pub sift_down : ℕ → ℕ → Timers → Sifted
  unfolding smaller_child heap_set
  sift_down zero idx h = record { timers = h; idx = idx; sifted_up = false }
  sift_down (suc fuel) idx h =
      let cidx : ℕ = smaller_child idx h in
      let rest : Sifted = sift_down fuel cidx (heap_set idx (h.slots cidx) h) in
      if ltb (left_child idx) count
      then (if leb (key id dt) (key id (h.slots cidx))
          then record { timers = h; idx = idx; sifted_up = false }
          else rest)
      else record { timers = h; idx = idx; sifted_up = false }

  -- `_dispatch_timer_heap_resift`
  unfoldable pub resift : ℕ → Timers → Timers
  unfolding sift_up sift_down heap_set
  resift idx h =
      let up : Sifted = sift_up 31 idx false h in
      let down : Sifted = sift_down 31 idx up.timers in
      if up.sifted_up then heap_set up.idx dt up.timers else heap_set down.idx dt down.timers
