-- ===== src/QueueState/Serial/Drain.antt =====
-- The drain of a serial queue and dispatch_sync on it keep its invariant (src/queue.c,
-- src/inline_internal.h).
use swift_corelibs_libdispat.Common.{
  ℕ, ◌<◌, ◌≡◌, inl, inr, refl, arith, Bool, true, false, Option, none, some,
}
use swift_corelibs_libdispat.Common.Bits.{field}
use swift_corelibs_libdispat.QueueState.{try_acquire_barrier_sync}
use swift_corelibs_libdispat.QueueState.Serial.{
  Drainer, none_draining, invoking, draining, popping, unlocking, finishing, in_sync,
  sync_unlocking, completing, handing_over, SerialQueue, lane_drain, invoke_end, sync_start,
  sync_taken, sync_unlocked, sync_end,
}
use swift_corelibs_libdispat.QueueState.Serial.Updates.{drained_owned, sync_unlock}
use swift_corelibs_libdispat.QueueState.Serial.Words.{Held, serial_owned}
use swift_corelibs_libdispat.QueueState.Serial.Locks.{
  unlock-Free, finish-Free, drained_owned-serial, sync_acquire-Held, sync_acquire-none,
  sync_unlock-Free,
}
use swift_corelibs_libdispat.QueueState.Serial.Complete.{complete-Enqueued, complete-Free}
use swift_corelibs_libdispat.QueueState.Serial.Invariant.{Place, Inv}
use swift_corelibs_libdispat.QueueState.Serial.Wakes.{unmoved}

pub drains-Place :
    (stops : Bool) (d : Drainer) (l : SerialQueue)
    → l.drainer ≡ d
    → l.clash ≡ false
    → Place d l
    → Inv (lane_drain stops l d)
unfolding lane_drain
drains-Place stops none_draining l e c p = unmoved l e c p
drains-Place stops (invoking o) l e c p = ground arith
drains-Place stops (draining o) l e c p =
    let x = p.serial in
    let d : drained_owned o ≡ serial_owned = rw x drained_owned-serial in ground arith
drains-Place stops (popping o) l e c p =
    let x = p.serial in
    let d : drained_owned o ≡ serial_owned = rw x drained_owned-serial in ground arith
drains-Place stops (unlocking o) l e c p = unmoved l e c p
drains-Place stops (finishing o) l e c p = unmoved l e c p
drains-Place stops in_sync l e c p = unmoved l e c p
drains-Place stops sync_unlocking l e c p = unmoved l e c p
drains-Place stops (completing b) l e c p = unmoved l e c p
drains-Place stops (handing_over b true) l e c p = unmoved l e c p
drains-Place stops (handing_over b false) l e c p = unmoved l e c p

pub ends-Place :
    (on_root : Bool) (d : Drainer) (l : SerialQueue)
    → l.drainer ≡ d
    → l.clash ≡ false
    → Place d l
    → Inv (invoke_end on_root l d)
unfolding invoke_end
ends-Place on_root none_draining l e c p = unmoved l e c p
ends-Place on_root (invoking o) l e c p = unmoved l e c p
ends-Place on_root (draining o) l e c p = unmoved l e c p
ends-Place on_root (popping o) l e c p = unmoved l e c p
ends-Place true (unlocking o) l e c (p, s) =
    let u = unlock-Free l.dq_state p.held p.enqueued in let w = p.serial in ground arith
ends-Place false (unlocking o) l e c (p, s) =
    let u = unlock-Free l.dq_state p.held p.enqueued in let w = p.serial in ground arith
ends-Place on_root (finishing o) l e c p =
    let (f, b, k) = finish-Free l.dq_state p.held p.enqueued in
    let w = p.serial in let z = p.off_target in ground arith
ends-Place on_root in_sync l e c p = unmoved l e c p
ends-Place on_root sync_unlocking l e c p = unmoved l e c p
ends-Place on_root (completing b) l e c p = unmoved l e c p
ends-Place on_root (handing_over b true) l e c p = unmoved l e c p
ends-Place on_root (handing_over b false) l e c p = unmoved l e c p

sync_taken-Inv :
    (tid : ℕ) (l : SerialQueue) (o : Option ℕ)
    → 0 < field 0 30 tid
    → l.drainer ≡ none_draining
    → l.clash ≡ false
    → Place none_draining l
    → try_acquire_barrier_sync 1 tid l.dq_state ≡ o
    → Inv (sync_taken l o)
sync_taken-Inv tid l none t e c p n = unmoved l e c p
sync_taken-Inv tid l (some new) t e c (p, s) n =
    let (f, z, y) = sync_acquire-Held tid l.dq_state new t p.free n in
    let o = p.on_target_once in
    record { alone = ground arith; place = record { held = f; on_target_once = omega arith } }

-- A caller of dispatch_sync finds the queue in use.
sync_fails-Inv :
    {d : Drainer} (tid : ℕ) (l : SerialQueue)
    → Held l.dq_state
    → l.drainer ≡ d
    → l.clash ≡ false
    → Place d l
    → Inv (sync_start tid l)
unfolding sync_start
sync_fails-Inv tid l h e c p = rw (sync_acquire-none tid l.dq_state h) (unmoved l e c p)

pub syncs-Place :
    (tid : ℕ) (d : Drainer) (l : SerialQueue)
    → 0 < field 0 30 tid
    → l.drainer ≡ d
    → l.clash ≡ false
    → Place d l
    → Inv (sync_start tid l)
unfolding sync_start
syncs-Place tid none_draining l t e c p =
    sync_taken-Inv tid l (try_acquire_barrier_sync 1 tid l.dq_state) t e c p refl
syncs-Place tid (invoking o) l t e c p = sync_fails-Inv tid l p.held e c p
syncs-Place tid (draining o) l t e c p = sync_fails-Inv tid l p.held e c p
syncs-Place tid (popping o) l t e c p = sync_fails-Inv tid l p.held e c p
syncs-Place tid (unlocking o) l t e c p = sync_fails-Inv tid l p.0.held e c p
syncs-Place tid (finishing o) l t e c p = sync_fails-Inv tid l p.held e c p
syncs-Place tid in_sync l t e c p = sync_fails-Inv tid l p.held e c p
syncs-Place tid sync_unlocking l t e c p = sync_fails-Inv tid l p.0.held e c p
syncs-Place tid (completing b) l t e c p = sync_fails-Inv tid l p.0.held e c p
syncs-Place tid (handing_over b true) l t e c p = sync_fails-Inv tid l p.0.held e c p
syncs-Place tid (handing_over b false) l t e c p = sync_fails-Inv tid l p.0.held e c p

sync_unlocked-Inv :
    (l : SerialQueue) (o : Option ℕ)
    → l.clash ≡ false
    → Place sync_unlocking l
    → sync_unlock l.dq_state ≡ o
    → Inv (sync_unlocked l o)
sync_unlocked-Inv l none c (p, s) n = record { alone = c; place = (p, omega arith) }
sync_unlocked-Inv l (some new) c (p, s) n =
    let (f, z, y, d, k) = sync_unlock-Free l.dq_state new p.held n in
    let o = p.on_target_once in
    record {
      alone = c;
      place =
          (record { free = f; on_target_once = omega arith }, λ u i. let t = s k i in omega arith);
    }

pub ends_sync-Place :
    (d : Drainer) (l : SerialQueue)
    → l.drainer ≡ d
    → l.clash ≡ false
    → Place d l
    → Inv (sync_end l d)
unfolding sync_end
ends_sync-Place none_draining l e c p = unmoved l e c p
ends_sync-Place (invoking o) l e c p = unmoved l e c p
ends_sync-Place (draining o) l e c p = unmoved l e c p
ends_sync-Place (popping o) l e c p = unmoved l e c p
ends_sync-Place (unlocking o) l e c p = unmoved l e c p
ends_sync-Place (finishing o) l e c p = unmoved l e c p
ends_sync-Place in_sync l e c p = ground arith
ends_sync-Place sync_unlocking l e c p = sync_unlocked-Inv l (sync_unlock l.dq_state) c p refl
ends_sync-Place (completing b) l e c (p, q) = ground arith
ends_sync-Place (handing_over b true) l e c (p, q) =
    let (r, f, x, k) = complete-Enqueued b l.dq_state q p.held in
    let z = p.on_target_once in
    rw r (record {
      alone = c;
      place =
          (record { free = f; on_target_once = omega arith }, λ u i. let t = k u in omega arith);
    })
ends_sync-Place (handing_over b false) l e c (p, q, s) =
    let z = p.on_target_once in
    elim (complete-Free b l.dq_state q p.held) [
      | inl (r, f, k, d) ↦ rw r (record {
        alone = c;
        place = (
          record { free = f; on_target_once = omega arith },
          λ u i. let (y, x) = d u in let t = s x i in omega arith,
        );
      })
      | inr (r, h, k) ↦
          rw r
            (record { alone = c; place = (record { held = h; on_target_once = omega arith }, q) })
    ]
