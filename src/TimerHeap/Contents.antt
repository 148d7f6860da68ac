-- ===== src/TimerHeap/Contents.antt =====
-- Inserting a timer into the timer heap, removing it and updating it (src/event/event.c). A slot is what
-- `_dispatch_timer_heap_get_slot` gives for an index; the slots 0 and 1 are dth_min. The segments grow and
-- shrink with the count in TimerHeap.Segments, and not here. NULL is 0.
mod Filled
mod Insert
mod Remove
mod RemoveBoth
mod Update
mod Tests
use swift_corelibs_libdispat.Common.{
  ℕ, suc, ◌+◌, ◌-◌, ◌%◌, ◌^◌, Bool, true, false, ◌||◌, ltb, ◌==◌, if◌then◌else◌,
}
use swift_corelibs_libdispat.TimerHeap.Sift.{Timers, resift}

-- dth_count and dth_max_qos, with the slots, the entries and dth_needs_program
pub record TimerSet : Type 0 where
  pub timers : Timers
  pub count : ℕ
  pub max_qos : ℕ

-- DTH_INVALID_ID
abbrev pub invalid_id : ℕ
invalid_id = 2 ^ 32 - 1

-- The first timer of a heap
unfoldable pub insert_first : ℕ → Timers → Timers
insert_first dt h = record {
  slots = λ i. if ltb i 2 then dt else h.slots i;
  entry = λ t id. if t == dt then (if ltb id 2 then id else h.entry t id) else h.entry t id;
  needs_program = true;
}

-- `*slot = NULL`
unfoldable pub clear_slot : ℕ → Timers → Timers
clear_slot idx h = record h { slots = λ i. if i == idx then 0 else h.slots i }

-- The label `clear_heap_entry`
unfoldable pub clear_heap_entry : ℕ → Timers → Timers
clear_heap_entry dt h = record h {
  entry = λ t id. if t == dt then (if ltb id 2 then invalid_id else h.entry t id) else h.entry t id;
}

module _ (key : ℕ → ℕ → ℕ) where
  -- The timers after `_dispatch_timer_heap_insert`, with `idx` slots in use before
  unfoldable pub insert_at : ℕ → ℕ → Timers → Timers
  unfolding insert_first
  insert_at idx dt h =
      let rest : Timers = resift key 1 (idx + 2) dt (idx + 1) (resift key 0 (idx + 2) dt idx h) in
      if idx == 0 then insert_first dt h else rest

  -- `_dispatch_timer_heap_insert`, of a timer with the given QOS
  unfoldable pub heap_insert : ℕ → ℕ → TimerSet → TimerSet
  unfolding insert_at
  heap_insert qos dt h =
      let count : ℕ = (h.count + 2) % 2 ^ 32 in
      let raised : Bool = ltb h.max_qos qos in
      record {
        timers =
            insert_at ((count + (2 ^ 32 - 2)) % 2 ^ 32) dt
              (record h.timers { needs_program = raised || h.timers.needs_program });
        count = count;
        max_qos = if raised then qos else h.max_qos;
      }

  -- The body of the loop of `_dispatch_timer_heap_remove`
  unfoldable pub take_out : ℕ → ℕ → ℕ → Timers → Timers
  unfolding clear_slot
  take_out id idx dt h =
      let last_dt : ℕ = h.slots (idx + id) in
      let cleared : Timers = clear_slot (idx + id) h in
      let sifted : Timers = resift key id idx last_dt (cleared.entry dt id) cleared in
      if last_dt == dt then cleared else sifted

  -- The timers after `_dispatch_timer_heap_remove`, with `idx` slots in use after it
  unfoldable pub remove_at : ℕ → ℕ → Timers → Timers
  unfolding take_out clear_slot clear_heap_entry
  remove_at idx dt h =
      let rest : Timers = take_out 1 idx dt (take_out 0 idx dt h) in
      clear_heap_entry dt
        (if idx == 0 then record (clear_slot 1 (clear_slot 0 h)) { needs_program = true } else rest)

  -- `_dispatch_timer_heap_remove`
  unfoldable pub heap_remove : ℕ → TimerSet → TimerSet
  unfolding remove_at
  heap_remove dt h =
      let idx : ℕ = (h.count + (2 ^ 32 - 2)) % 2 ^ 32 in
      record h { timers = remove_at idx dt h.timers; count = idx }

  -- `_dispatch_timer_heap_update`
  unfoldable pub heap_update : ℕ → TimerSet → TimerSet
  heap_update dt h =
      let first : Timers = resift key 0 h.count dt (h.timers.entry dt 0) h.timers in
      record h { timers = resift key 1 h.count dt (first.entry dt 1) first }
