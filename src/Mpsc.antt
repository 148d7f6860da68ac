-- ===== src/Mpsc.antt =====
-- The os_mpsc queue of src/inline_internal.h (os_mpsc_push_update_tail to os_mpsc_pop_head), with which
-- the items of every queue are enqueued: any number of producers push, and one consumer pops, without
-- a lock. Items are addresses, and NULL is 0. Each step is one access of the shared memory. What was
-- pushed and popped so far is kept beside, numbered in the order of the exchanges of the tail, and so is
-- the number of an item that is being linked; the code keeps none of this.
mod Invariant
mod Clear
mod Swap
mod Link
mod LinkNext
mod Pop
mod Fifo
mod Drain
mod Tests
use swift_corelibs_libdispat.Common.{
  ℕ, suc, ◌+◌, ◌≤◌, ◌<◌, ◌≡◌, ◌≢◌, ◌==◌, if◌then◌else◌, Option, none, some,
}

-- A queue's head and tail, and the link of each item.
pub record Memory : Type 0 where
  pub head : ℕ
  pub tail : ℕ
  pub next : ℕ → ℕ

-- os_atomic_store2o(a, _o_next, v, relaxed)
abbrev pub store_next : ℕ → ℕ → Memory → Memory
store_next a v m = record m { next = λ b. if b == a then v else m.next b }

-- os_mpsc_push_update_prev
unfoldable pub push_update_prev : ℕ → ℕ → Memory → Memory
push_update_prev prev item m =
    if prev == 0 then record m { head = item } else store_next prev item m

-- Where a producer stands in os_mpsc_push_item: before it, at the exchange of the tail, or before
-- os_mpsc_push_update_prev, with the number of its item.
pub data Producer : Type 0 where
  idle : Producer
  swapping : (item : ℕ) → Producer
  linking : (prev item number : ℕ) → Producer

-- Where the consumer stands: before os_mpsc_looks_empty, in os_mpsc_get_head, or in os_mpsc_pop_head: at
-- the load of the item's link, at the store of what it found to the head, at the exchange of the tail, in
-- os_mpsc_get_next, and at the last store.
pub data Consumer : Type 0 where
  resting getting : Consumer
  popping : (item : ℕ) → Consumer
  storing : (item found : ℕ) → Consumer
  emptying : (item : ℕ) → Consumer
  awaiting_next : (item : ℕ) → Consumer
  storing_next : (item found : ℕ) → Consumer

-- One access of the consumer: the memory, where it goes on, and the item that it has popped.
pub record Access : Type 0 where
  pub memory : Memory
  pub goes_on : Consumer
  pub popped : Option ℕ

abbrev pub access : Memory → Consumer → Option ℕ → Access
access m c r = record { memory = m; goes_on = c; popped = r }

unfoldable pub consume : Memory → Consumer → Access
consume m resting = access m (if m.tail == 0 then resting else getting) none
consume m getting = access m (if m.head == 0 then getting else popping m.head) none
consume m (popping item) = access m (storing item (m.next item)) none
consume m (storing item found) =
    access (record m { head = found }) (if found == 0 then emptying item else resting)
      (if found == 0 then none else some item)
consume m (emptying item) =
    if m.tail == item
    then access (record m { tail = 0 }) resting (some item)
    else access m (awaiting_next item) none
consume m (awaiting_next item) =
    access m (if m.next item == 0 then awaiting_next item else storing_next item (m.next item)) none
consume m (storing_next item found) = access (record m { head = found }) resting (some item)

-- The queue, its producers and consumer, and its history: the items pushed and popped, and who pushed.
pub record System : Type 0 where
  pub memory : Memory
  pub producers : ℕ → Producer
  pub consumer : Consumer
  pub pushed : ℕ → ℕ
  pub pusher : ℕ → ℕ
  pub pushes : ℕ
  pub popped : ℕ → ℕ
  pub pops : ℕ

abbrev pub put : ℕ → Producer → (ℕ → Producer) → ℕ → Producer
put p a producers q = if q == p then a else producers q

-- os_mpsc_push_update_tail: the store to the link of the item, and the exchange of the tail
unfoldable pub push_clear : ℕ → ℕ → System → System
push_clear p item s = record s {
  memory = store_next item 0 s.memory;
  producers = put p (swapping item) s.producers;
}

unfoldable pub push_swap : ℕ → ℕ → System → System
push_swap p item s = record s {
  memory = record s.memory { tail = item };
  producers = put p (linking s.memory.tail item s.pushes) s.producers;
  pushed = λ i. if i == s.pushes then item else s.pushed i;
  pusher = λ i. if i == s.pushes then p else s.pusher i;
  pushes = s.pushes + 1;
}

unfoldable pub push_link : ℕ → ℕ → ℕ → System → System
unfolding push_update_prev
push_link p prev item s = record s {
  memory = push_update_prev prev item s.memory;
  producers = put p idle s.producers;
}

-- The history with what an access has popped.
abbrev pub record_pop : Option ℕ → System → System
record_pop none s = s
record_pop (some item) s = record s {
  popped = λ i. if i == s.pops then item else s.popped i;
  pops = s.pops + 1;
}

unfoldable pub consumer_step : System → System
unfolding consume
consumer_step s =
    let a : Access = consume s.memory s.consumer in
    record_pop a.popped (record s { memory = a.memory; consumer = a.goes_on })

-- The item is in no queue and no other producer pushes it, which is what a caller has to see to.
pub record IsFree (item : ℕ) (s : System) : Type 0 where
  pub not_null : item ≢ 0
  pub not_queued : (i : ℕ) → s.pops ≤ i → i < s.pushes → s.pushed i ≢ item
  pub not_claimed : (p other : ℕ) → s.producers p ≡ swapping other → other ≢ item

pub data Step (s : System) : System → Type 0 where
  clear : (p item : ℕ) → s.producers p ≡ idle → IsFree item s → Step s (push_clear p item s)
  swap : (p item : ℕ) → s.producers p ≡ swapping item → Step s (push_swap p item s)
  link :
      (p prev item number : ℕ)
      → s.producers p ≡ linking prev item number
      → Step s (push_link p prev item s)
  consumes : Step s (consumer_step s)

-- An empty queue
abbrev pub empty : System
empty = record {
  memory = record { head = 0; tail = 0; next = λ a. 0 };
  producers = λ p. idle;
  consumer = resting;
  pushed = λ i. 0;
  pusher = λ i. 0;
  pushes = 0;
  popped = λ i. 0;
  pops = 0;
}

pub data Reach : System → Type 0 where
  start : Reach empty
  after : {s t : System} → Reach s → Step s t → Reach t
