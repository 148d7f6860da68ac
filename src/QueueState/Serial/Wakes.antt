-- ===== src/QueueState/Serial/Wakes.antt =====
-- A push, a wakeup and an invocation keep the invariant of a serial queue (src/queue.c,
-- src/inline_internal.h).
use swift_corelibs_libdispat.Common.{
  ℕ, ◌+◌, ◌-◌, ◌/◌, ◌<◌, ◌≡◌, refl, sym, subst, arith, Bool, true, false, if◌then◌else◌, dec_lt,
}
use swift_corelibs_libdispat.Common.Bits.{field}
use swift_corelibs_libdispat.QueueState.{plain, drain_try_lock, suspend_interval}
use swift_corelibs_libdispat.QueueState.Serial.{
  Drainer, none_draining, invoking, draining, popping, unlocking, finishing, in_sync,
  sync_unlocking, completing, handing_over, SerialQueue, lane_push, lane_wakeup, queue_wakeup,
  class_invoke,
}
use swift_corelibs_libdispat.QueueState.Serial.Updates.{pushed, wakeup_state}
use swift_corelibs_libdispat.QueueState.Serial.Words.{Held, wakeup-Free, wakeup-Held}
use swift_corelibs_libdispat.QueueState.Serial.Locks.{lock-Held, lock_fails-Free, lock_fails-Held}
use swift_corelibs_libdispat.QueueState.Serial.Invariant.{Drained, InSync, Place, Inv}

pub push-Place : (d : Drainer) (l : SerialQueue) → Place d l → Place d (lane_push l)
unfolding lane_push
push-Place none_draining l (p, s) = (p, λ k i. ground arith)
push-Place (invoking o) l p = p
push-Place (draining o) l p = p
push-Place (popping o) l p = p
push-Place (unlocking o) l (p, s) = (p, λ k i. ground arith)
push-Place (finishing o) l p = p
push-Place in_sync l p = p
push-Place sync_unlocking l (p, s) = (p, λ k i. ground arith)
push-Place (completing c) l p = p
push-Place (handing_over c true) l p = p
push-Place (handing_over c false) l (p, b, s) = (p, b, λ k i. ground arith)

pub probe-Place :
    (d : Drainer) (l : SerialQueue) → 0 < l.pushing → Place d l → Place d (lane_wakeup l)
unfolding lane_wakeup
probe-Place none_draining l h (p, s) = (p, λ k i. ground arith)
probe-Place (invoking o) l h p = p
probe-Place (draining o) l h p = p
probe-Place (popping o) l h p = p
probe-Place (unlocking o) l h (p, s) = (p, λ k i. ground arith)
probe-Place (finishing o) l h p = p
probe-Place in_sync l h p = p
probe-Place sync_unlocking l h (p, s) = (p, λ k i. ground arith)
probe-Place (completing c) l h p = p
probe-Place (handing_over c true) l h p = p
probe-Place (handing_over c false) l h (p, b, s) = (p, b, λ k i. ground arith)

wakeup-Drained :
    (m : Bool) (q owned s n : ℕ)
    → q < 8
    → Drained owned s n
    → let new = wakeup_state m q s in Drained owned new (n + pushed s new)
wakeup-Drained m q owned s n h p =
    let (f, c, e, k, w, d) = wakeup-Held m q s h p.held in
    let o = p.off_target in
    let u = p.enqueued in
    record { held = f; serial = p.serial; enqueued = omega arith; off_target = omega arith }

wakeup-InSync :
    (m : Bool) (q s n : ℕ)
    → q < 8
    → InSync s n
    → let new = wakeup_state m q s in InSync new (n + pushed s new)
wakeup-InSync m q s n h p =
    let (f, c, e, k, w, d) = wakeup-Held m q s h p.held in
    let o = p.on_target_once in record { held = f; on_target_once = omega arith }

-- Where a wakeup was due, it has set the dirty bit, and otherwise the bit is as it was.
wakeup-Noticed :
    (m : Bool) (q s n i v : ℕ)
    → q < 8
    → Held s
    → (s < suspend_interval → 0 < i → 0 < field 39 1 s + (n + v))
    → wakeup_state m q s < suspend_interval
    → 0 < i
    → 0 < field 39 1 (wakeup_state m q s) + (n + (if m then v - 1 else v))
wakeup-Noticed true q s n i v h p t k z =
    let (f, c, e, j, w, d) = wakeup-Held true q s h p in let d' = d refl in omega arith
wakeup-Noticed false q s n i v h p t k z =
    let (f, c, e, j, w, d) = wakeup-Held false q s h p in let t' = t (omega arith) z in omega arith

pub wakes-Place :
    (m : Bool) (q : ℕ) (d : Drainer) (l : SerialQueue)
    → q < 8
    → Place d l
    → Place d (queue_wakeup m q (record l { waking = if m then l.waking - 1 else l.waking }))
unfolding queue_wakeup
wakes-Place m q none_draining l h (p, s) =
    let (f, c, e) = wakeup-Free m q l.dq_state h p.free in
    let o = p.on_target_once in
    (record { free = f; on_target_once = omega arith }, λ k i. let b = e k in omega arith)
wakes-Place m q (invoking o) l h p = wakeup-Drained m q o l.dq_state l.on_target h p
wakes-Place m q (draining o) l h p = wakeup-Drained m q o l.dq_state l.on_target h p
wakes-Place m q (popping o) l h p = wakeup-Drained m q o l.dq_state l.on_target h p
wakes-Place m q (unlocking o) l h (p, s) = (
  wakeup-Drained m q o l.dq_state l.on_target h p,
  wakeup-Noticed m q l.dq_state l.pushing l.items l.waking h p.held s,
)
wakes-Place m q (finishing o) l h p = wakeup-Drained m q o l.dq_state l.on_target h p
wakes-Place m q in_sync l h p = wakeup-InSync m q l.dq_state l.on_target h p
wakes-Place m q sync_unlocking l h (p, s) = (
  wakeup-InSync m q l.dq_state l.on_target h p,
  wakeup-Noticed m q l.dq_state l.pushing l.items l.waking h p.held s,
)
wakes-Place m q (completing c) l h (p, b) = (wakeup-InSync m q l.dq_state l.on_target h p, b)
wakes-Place m q (handing_over c true) l h (p, b) = (wakeup-InSync m q l.dq_state l.on_target h p, b)
wakes-Place m q (handing_over c false) l h (p, b, s) = (
  wakeup-InSync m q l.dq_state l.on_target h p,
  b,
  wakeup-Noticed m q l.dq_state l.pushing l.items l.waking h p.held s,
)

pub unmoved : {d : Drainer} (l : SerialQueue) → l.drainer ≡ d → l.clash ≡ false → Place d l → Inv l
unmoved l e c p = record { alone = c; place = subst (λ x. Place x l) (sym e) p }

-- The target queue invokes a queue whose lock is taken or that is suspended: it is dequeued.
dequeued-InSync :
    (tid floor s n : ℕ)
    → 0 < n
    → InSync s n
    → let r = drain_try_lock plain 1 tid floor s in
      InSync r.state (n - 1)
      × (r.owned ≡ 0)
      × (field 39 1 r.state ≡ field 39 1 s)
      × (r.state / suspend_interval ≡ s / suspend_interval)
dequeued-InSync tid floor s n h p =
    let o = p.on_target_once in
    let (f, w, e, d, k) = lock_fails-Held tid floor s p.held (omega arith) in
    (record { held = f; on_target_once = omega arith }, w, d, k)

abbrev popped : ℕ → ℕ → SerialQueue → SerialQueue
popped tid floor l = record l {
  dq_state = (drain_try_lock plain 1 tid floor l.dq_state).state;
  on_target = l.on_target - 1;
}

pub invokes-Place :
    (tid floor : ℕ) (d : Drainer) (l : SerialQueue)
    → 0 < l.on_target
    → 0 < field 0 30 tid
    → l.drainer ≡ d
    → l.clash ≡ false
    → Place d l
    → Inv (class_invoke tid floor l)
unfolding class_invoke
invokes-Place tid floor none_draining l h t e c (p, s) =
    let o = p.on_target_once in
    elim (dec_lt l.dq_state suspend_interval) [
      | yes k ↦
          let (f, w, b, y, j) = lock-Held tid floor l.dq_state t p.free k (omega arith) in
          ground arith
      | no k ↦
          let (f, w, b, j) =
            lock_fails-Free tid floor l.dq_state p.free (omega arith) (omega arith) in
          rw w (
            unmoved (popped tid floor l) e c
              (record { free = f; on_target_once = omega arith }, λ u. ground arith))
    ]
invokes-Place tid floor (invoking o) l h t e c p = let z = p.off_target in ground arith
invokes-Place tid floor (draining o) l h t e c p = let z = p.off_target in ground arith
invokes-Place tid floor (popping o) l h t e c p = let z = p.off_target in ground arith
invokes-Place tid floor (unlocking o) l h t e c (p, s) = let z = p.off_target in ground arith
invokes-Place tid floor (finishing o) l h t e c p = let z = p.off_target in ground arith
invokes-Place tid floor in_sync l h t e c p =
    let (i, w, y, j) = dequeued-InSync tid floor l.dq_state l.on_target h p in
    rw w (unmoved (popped tid floor l) e c i)
invokes-Place tid floor sync_unlocking l h t e c (p, s) =
    let (i, w, y, j) = dequeued-InSync tid floor l.dq_state l.on_target h p in
    rw w (unmoved (popped tid floor l) e c (i, λ u v. let t' = s (omega arith) v in omega arith))
invokes-Place tid floor (completing b) l h t e c (p, q) =
    let (i, w, y, j) = dequeued-InSync tid floor l.dq_state l.on_target h p in
    rw w (unmoved (popped tid floor l) e c (i, q))
invokes-Place tid floor (handing_over b true) l h t e c (p, q) =
    let (i, w, y, j) = dequeued-InSync tid floor l.dq_state l.on_target h p in
    rw w (unmoved (popped tid floor l) e c (i, q))
invokes-Place tid floor (handing_over b false) l h t e c (p, q, s) =
    let (i, w, y, j) = dequeued-InSync tid floor l.dq_state l.on_target h p in
    rw w (unmoved (popped tid floor l) e c (i, q, λ u v. let t' = s (omega arith) v in omega arith))
