-- ===== src/QueueState/Tests.antt =====
-- Instances and runs of the state machine of queues (src/inline_internal.h).
use swift_corelibs_libdispat.Common.{ℕ, ◌+◌, ◌*◌, ◌^◌, ◌≡◌, refl, true, some, none}
use swift_corelibs_libdispat.QueueState.{plain, drain_try_lock, drain_try_unlock, try_acquire_async}
use swift_corelibs_libdispat.QueueState.Lock.{released, drain_try_lock-drain_try_unlock}

-- A serial queue with QoS 4 that is enqueued on its target and dirty.
abbrev enqueued : ℕ
enqueued = 2 ^ 31 + 4 * 2 ^ 32 + 2 ^ 36 + 2 ^ 39 + 0xfff * 2 ^ 41

-- The same, locked by thread 77 and dirty again.
abbrev draining : ℕ
draining = 77 + 4 * 2 ^ 32 + 2 ^ 36 + 2 ^ 39 + 2 ^ 53 + 2 ^ 54

drain_try_lock-drain_try_unlock_example :
    (let r = drain_try_lock plain 1 77 0 enqueued in drain_try_unlock r.owned true r.state)
    ≡ (released plain true enqueued, true, none)
drain_try_lock-drain_try_unlock_example =
    drain_try_lock-drain_try_unlock plain 1 77 0 enqueued true refl

abbrev one_less : ℕ
one_less = 0xff9 * 2 ^ 41 + 2 ^ 41

acquires_async : try_acquire_async (0xff9 * 2 ^ 41) ≡ some one_less
unfolding try_acquire_async
acquires_async = refl
