-- ===== src/Lib.antt =====
-- libdispatch (Grand Central Dispatch): the core state machines and data structures of the C
-- library, as functions and step relations, with the theorems that make them correct.
--
-- The parts and how they interact. A queue's items are pushed on a lock-free list (Mpsc), and a push
-- wakes the queue up, which puts it on its target queue (QueueState.Serial). Its drainers and synchronous
-- callers take and release the queue by atomic updates of one word, `dq_state`, as does
-- dispatch_apply, which spreads the indices over threads; semaphores and groups let threads wait for each
-- other; waits take a `dispatch_time_t`, which `_dispatch_timeout` turns into a relative time; the
-- timer heap holds the armed timers; dispatch data objects carry the bytes of I/O.
--
-- Which file models which part:
-- Common: the names of the libraries, lists and integers over native numbers, bits and bit fields.
-- Time (src/time.c, src/shims/time.h): `encode`, `decode` and the conversions of `dispatch_time_t`,
--   `dispatch_time`, `dispatch_walltime`, `timeout`, `time_nanoseconds_since_epoch`. A reading of
--   the clocks is the parameter `Now`; times are in nanoseconds, as on Linux.
-- Data (src/data.c, src/data_internal.h): `DispatchData` is a leaf with its bytes or a composite
--   with its records; `create_concat`, `create_subrange`, `map_direct`, `apply_f`, `flatten`,
--   `create_map` and `copy_region` are the functions with the prefix dispatch_data. An outcome says
--   where the code crashes or gives DISPATCH_OUT_OF_MEMORY.
-- QueueState (src/queue_internal.h, src/inline_internal.h): the layout of `dq_state`, its tests and
--   the functions `_dispatch_queue_drain_try_lock` to `_dispatch_queue_drain_try_unlock`, each one
--   update of the word. The word is a number below 2^64.
-- Semaphore (src/semaphore.c): `dispatch_semaphore_t`, as steps of any number of threads, each
--   step one shared access, over a counting semaphore of the system.
-- Group (src/semaphore.c, src/semaphore_internal.h): `dispatch_group_t`, as steps of any number of
--   threads: the state word, the list of notifications and the references the group keeps on itself.
-- Transform (src/transform.c): base32, base32hex and base64 of data objects; the appliers are
--   `decode_region` and `encode_region`, and what sets the functions of a direction apart is a
--   `Decoder` or an `Encoder`. `malloc` is a parameter.
-- Suspend (src/queue.c, src/inline_internal.h): the suspend count. `suspend_pass`, `resume_pass` and
--   `activate_pass` are the atomic updates of `_dispatch_lane_suspend` and `_dispatch_lane_resume`,
--   `suspend_slow` and `resume_slow` those under the side lock; `lane_suspend`, `lane_resume` and
--   `lane_activate` are the calls they make up. The finalizer `dq_activate` is a parameter.
-- Once (src/once.c, src/shims/lock.h, src/shims/lock.c): `dispatch_once_f`, as steps of any number of
--   calls on one predicate, over the gate word and the futex of Linux.
-- Mpsc (src/inline_internal.h): the queue of items of every dispatch queue, os_mpsc_push_item and
--   os_mpsc_pop_head, as steps of any number of producers and one consumer.
-- Apply (src/apply.c, src/shims/lock.h, src/shims/lock.c): `_dispatch_apply_invoke2` and the thread
--   event, as steps of any number of threads. Apply.Width has the thread count of `dispatch_apply_f`
--   and the width that `_dispatch_apply_redirect` takes; the threads that the system runs at once are
--   the parameter `parallelism`.
-- TimerHeap (src/event/event.c): the segments of the timer heap, where an index lies in them, and
--   the arithmetic of the two interleaved heaps. TimerHeap.Sift is `_dispatch_timer_heap_resift`, over
--   slots by index, and TimerHeap.Contents `_dispatch_timer_heap_insert`, `_remove` and `_update`;
--   `key` is the parameter for `heap_key` of a timer.
-- Objects (src/object.c, src/object_internal.h, src/inline_internal.h): the two reference counts of an
--   object, as steps of any number of calls; `retain`, `release` and the others are the functions with
--   the prefix _os_object. The update of a count and that which follows on the other are two steps.
-- QueueState.Serial (src/queue.c, src/inline_internal.h): the life of a serial queue, as steps of any
--   number of threads: `lane_push`, `lane_wakeup`, `queue_wakeup`, `class_invoke`, `lane_drain`,
--   `invoke_end`, `sync_start`, `sync_end`, `suspend` and `resume` are the parts of
--   `_dispatch_lane_push`, `_dispatch_queue_wakeup`, `_dispatch_queue_class_invoke`,
--   `_dispatch_lane_drain`, dispatch_sync and the suspension; QueueState.Serial.Updates has the bodies of the loops.
--
-- Bounds and fuel. Words keep their wrap-around (`% 2 ^ 64`, `% 2 ^ 32`). The recursions over
-- records and over data objects are structural. `bit_length 32` and `drop_ones 32` look at each bit
-- of a 32-bit index once, so that 32 rounds are all there are; `climb 31` goes up a tree whose
-- indices are below 2^31, which has at most 31 levels. The semaphore's counter is bounded by its
-- initial value and fewer than 2^63 threads. The rounds of `lane_suspend`, `lane_resume` and
-- `lane_activate` are fuel: a call that no other thread disturbs needs one, and one more where the
-- finalizer of an activation is followed by a resume. The loops of `resift` have 31 rounds, as a heap
-- of fewer than 2^31 slots has no more levels. `run_consumer` makes a given number of accesses; 7 for
-- each item are enough. `serve` takes two steps for each item of a serial queue and two more, which
-- are those that the drain needs. The indices of a dispatch_apply do not wrap around: the iterations and the
-- threads are together fewer than 2^64.
--
-- Not modelled: what an object does at its disposal; the destructors and cached flat buffers of data
-- objects; the waiters of dispatch_sync and the drain of concurrent queues, workloops and the root
-- queues; the arming of timers, unotes and event sources; the continuation allocator, the UTF conversions and the choice of a
-- transform, I/O channels; the other operations of the os_mpsc queue. The kernel's event
-- interfaces, Mach, vouchers and firehose are system calls or not part of a Linux build; the
-- Blocks runtime is a copy of another library. Memory orderings are not modelled: each step is one
-- access of a sequentially consistent memory.
pub mod Common
pub mod Time
pub mod Data
pub mod QueueState
pub mod Semaphore
pub mod Group
pub mod TimerHeap
pub mod Transform
pub mod Suspend
pub mod Once
pub mod Mpsc
pub mod Apply
pub mod Objects
