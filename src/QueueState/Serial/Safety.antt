-- ===== src/QueueState/Serial/Safety.antt =====
-- What a serial queue promises (src/queue.c, src/inline_internal.h).
use swift_corelibs_libdispat.Common.{ℕ, ◌+◌, ◌-◌, ◌/◌, ◌≤◌, ◌<◌, ◌≡◌, subst, arith, true, false}
use swift_corelibs_libdispat.Common.Bits.{field}
use swift_corelibs_libdispat.QueueState.{
  dq_state_drain_locked, dq_state_is_enqueued_on_target, width_interval, width_full,
  suspend_interval,
}
use swift_corelibs_libdispat.QueueState.Serial.{
  Drainer, none_draining, invoking, draining, popping, unlocking, finishing, in_sync,
  sync_unlocking, completing, handing_over, SerialQueue, is_drained, Reach, start, after,
}
use swift_corelibs_libdispat.QueueState.Serial.Invariant.{
  AtRest, Drained, InSync, Place, Inv, create-Inv,
}
use swift_corelibs_libdispat.QueueState.Serial.Steps.{step-Inv}

pub Reach-Inv : {l : SerialQueue} → Reach l → Inv l
Reach-Inv (start role h) = create-Inv role h
Reach-Inv (after {l} r a h) = step-Inv a l h (Reach-Inv r)

free_unlocked :
    (s n : ℕ)
    → AtRest s n
    → (dq_state_drain_locked s ≡ false)
      × (n ≤ 1)
      × (0 < n → dq_state_is_enqueued_on_target s ≡ true)
free_unlocked s n p = let f = p.free in let o = p.on_target_once in ground arith

sync_locked :
    (s n : ℕ)
    → InSync s n
    → (dq_state_drain_locked s ≡ true) × (n ≤ 1) × (0 < n → dq_state_is_enqueued_on_target s ≡ true)
sync_locked s n p = let h = p.held in let o = p.on_target_once in ground arith

drain_locked :
    (owned s n : ℕ)
    → Drained owned s n
    → (dq_state_drain_locked s ≡ true) × (n ≤ 1) × (0 < n → dq_state_is_enqueued_on_target s ≡ true)
drain_locked owned s n p = let h = p.held in let z = p.off_target in ground arith

lock_owner_lem :
    (d : Drainer) (l : SerialQueue)
    → Place d l
    → (dq_state_drain_locked l.dq_state ≡ is_drained d)
      × (l.on_target ≤ 1)
      × (0 < l.on_target → dq_state_is_enqueued_on_target l.dq_state ≡ true)
lock_owner_lem none_draining l p = free_unlocked l.dq_state l.on_target p.0
lock_owner_lem (invoking o) l p = drain_locked o l.dq_state l.on_target p
lock_owner_lem (draining o) l p = drain_locked o l.dq_state l.on_target p
lock_owner_lem (popping o) l p = drain_locked o l.dq_state l.on_target p
lock_owner_lem (unlocking o) l p = drain_locked o l.dq_state l.on_target p.0
lock_owner_lem (finishing o) l p = drain_locked o l.dq_state l.on_target p
lock_owner_lem in_sync l p = sync_locked l.dq_state l.on_target p
lock_owner_lem sync_unlocking l p = sync_locked l.dq_state l.on_target p.0
lock_owner_lem (completing b) l p = sync_locked l.dq_state l.on_target p.0
lock_owner_lem (handing_over b true) l p = sync_locked l.dq_state l.on_target p.0
lock_owner_lem (handing_over b false) l p = sync_locked l.dq_state l.on_target p.0

-- However pushes, wakeups, invocations, calls of dispatch_sync, suspensions and resumes of a serial queue
-- interleave, no two threads drain it or are in dispatch_sync at once, the drain lock has an owner
-- exactly while one is, and the target queue has the queue at most once, and then it is marked as enqueued.
pub one_at_a_time :
    {l : SerialQueue}
    → Reach l
    → (l.clash ≡ false)
      × (dq_state_drain_locked l.dq_state ≡ is_drained l.drainer)
      × (l.on_target ≤ 1)
      × (0 < l.on_target → dq_state_is_enqueued_on_target l.dq_state ≡ true)
one_at_a_time {l} r =
    let v = Reach-Inv r in let (k, n, e) = lock_owner_lem l.drainer l v.place in (v.alone, k, n, e)

-- No item is stranded: a serial queue that is not suspended, that nobody drains, that its target queue
-- does not have and that no push is about to wake up has no items, its whole width is available, and it is
-- not marked as enqueued.
pub strands_no_item :
    {l : SerialQueue}
    → Reach l
    → l.dq_state < suspend_interval
    → l.drainer ≡ none_draining
    → l.on_target ≡ 0
    → l.pushing + l.waking ≡ 0
    → (l.items ≡ 0) × (l.dq_state / width_interval ≡ width_full - 1) × (field 31 1 l.dq_state ≡ 0)
strands_no_item {l} r k e o w =
    let (p, s) = subst (λ d. Place d l) e (Reach-Inv r).place in
    let f = p.free in
    let u = p.on_target_once in let a = f.width in (ground arith, omega arith, omega arith)
