-- ===== src/QueueState/Serial/Serve.antt =====
-- One invocation of a serial queue, from the lock to the unlock (src/queue.c, src/inline_internal.h).
use swift_corelibs_libdispat.Common.{
  ℕ, zero, suc, ◌+◌, ◌*◌, ◌-◌, ◌/◌, ◌<◌, ◌≡◌, refl, subst, ap, ◌∙◌, arith, true, false, leb, ◌==◌,
  ◌||◌,
}
use swift_corelibs_libdispat.Common.Bits.{field}
use swift_corelibs_libdispat.QueueState.{
  width_interval, width_full, suspend_interval, needs_activation, drain_try_lock, plain,
}
use swift_corelibs_libdispat.QueueState.Serial.{
  Drainer, none_draining, invoking, draining, unlocking, SerialQueue, is_drained, lane_drain,
  invoke_end, class_invoke, invokes, drains, ends, step, Reach,
}
use swift_corelibs_libdispat.QueueState.Serial.Updates.{drained_owned}
use swift_corelibs_libdispat.QueueState.Serial.Words.{serial_owned}
use swift_corelibs_libdispat.QueueState.Serial.Locks.{lock-Held, unlock-Free, drained_owned-serial}
use swift_corelibs_libdispat.QueueState.Serial.Invariant.{Place}
use swift_corelibs_libdispat.QueueState.Serial.Safety.{Reach-Inv}

abbrev drain_steps : ℕ → SerialQueue → SerialQueue
drain_steps zero l = l
drain_steps (suc n) l = drain_steps n (step (drains false) l)

-- An invocation without any interference: the lock, two steps for each item and two more, and the unlock
abbrev pub serve : ℕ → ℕ → SerialQueue → SerialQueue
serve tid floor l = step (ends true) (drain_steps (2 * l.items + 2) (step (invokes tid floor) l))

twice : ℕ → ℕ
twice zero = zero
twice (suc n) = suc (suc (twice n))

twice_lem : (n : ℕ) → twice n ≡ 2 * n
unfolding twice
twice_lem zero = refl
twice_lem (suc n) = omega (arith, twice_lem n)

abbrev at : SerialQueue → ℕ → ℕ → Drainer → SerialQueue
at l items ran d = record l { items = items; ran = ran; drainer = d }

suc_ne_zero : (n : ℕ) → (suc n == 0) ≡ false
suc_ne_zero n = ground arith

round_lem :
    (n ran owned : ℕ) (l : SerialQueue)
    → leb needs_activation l.dq_state ≡ false
    → step (drains false) (step (drains false) (at l (suc n) ran (draining owned)))
      ≡ at l n (ran + 1) (draining owned)
unfolding step lane_drain
round_lem n ran owned l k =
    rw (suc_ne_zero n, k) (ap (λ m. at l m (ran + 1) (draining owned)) (omega arith))

drain_steps-draining :
    (n ran owned : ℕ) (l : SerialQueue)
    → leb needs_activation l.dq_state ≡ false
    → drain_steps (suc (twice n)) (at l n ran (draining owned))
      ≡ at l 0 (ran + n) (unlocking (drained_owned owned))
unfolding step lane_drain twice
drain_steps-draining zero ran owned l k =
    ap (λ r. at l 0 r (unlocking (drained_owned owned))) (omega arith)
drain_steps-draining (suc n) ran owned l k =
    ap (drain_steps (suc (twice n))) (round_lem n ran owned l k)
    ∙ drain_steps-draining n (ran + 1) owned l k
    ∙ ap (λ r. at l 0 r (unlocking (drained_owned owned))) (omega arith)

start_lem :
    (n ran owned : ℕ) (l : SerialQueue)
    → step (drains false) (at l (suc n) ran (invoking owned)) ≡ at l (suc n) ran (draining owned)
unfolding step lane_drain
start_lem n ran owned l = rw (suc_ne_zero n) refl

drain_steps-invoking :
    (n ran : ℕ) (l : SerialQueue)
    → leb needs_activation l.dq_state ≡ false
    → drain_steps (suc (suc (twice n))) (at l n ran (invoking serial_owned))
      ≡ at l 0 (ran + n) (unlocking serial_owned)
unfolding step lane_drain twice
drain_steps-invoking zero ran l k = ap (λ r. at l 0 r (unlocking serial_owned)) (omega arith)
drain_steps-invoking (suc n) ran l k =
    ap (drain_steps (suc (twice (suc n)))) (start_lem n ran serial_owned l)
    ∙ drain_steps-draining (suc n) ran serial_owned l k
    ∙ ap (λ o. at l 0 (ran + suc n) (unlocking o)) drained_owned-serial

-- The queue after the drain lock was taken in an invocation
abbrev invoked : ℕ → ℕ → SerialQueue → SerialQueue
invoked tid floor l = record l {
  dq_state = (drain_try_lock plain 1 tid floor l.dq_state).state;
  on_target = l.on_target - 1;
  clash = l.clash || is_drained l.drainer;
}

drain_steps-invoked :
    (tid floor : ℕ) (l : SerialQueue)
    → (drain_try_lock plain 1 tid floor l.dq_state).owned ≡ serial_owned
    → leb needs_activation (drain_try_lock plain 1 tid floor l.dq_state).state ≡ false
    → drain_steps (2 * l.items + 2) (step (invokes tid floor) l)
      ≡ at (invoked tid floor l) 0 (l.ran + l.items) (unlocking serial_owned)
unfolding step class_invoke
drain_steps-invoked tid floor l w k =
    let two : 2 * l.items + 2 ≡ suc (suc (twice l.items)) = omega (arith, twice_lem l.items) in
    rw (two, w) (drain_steps-invoking l.items l.ran (invoked tid floor l) k)

-- With no other thread at work, an invocation by its target of a serial queue that is not suspended runs
-- every item: the lock is taken, two steps for each item and two more are enough, and the queue ends without items, unlocked,
-- with its whole width, and neither enqueued nor on its target.
pub serves_all :
    {l : SerialQueue} (tid floor : ℕ)
    → Reach l
    → l.drainer ≡ none_draining
    → l.dq_state < suspend_interval
    → 0 < l.on_target
    → 0 < field 0 30 tid
    → let r = serve tid floor l in
      (r.items ≡ 0)
      × (r.ran ≡ l.ran + l.items)
      × (r.drainer ≡ none_draining)
      × (r.on_target ≡ 0)
      × (r.dq_state / width_interval ≡ width_full - 1)
      × (field 31 1 r.dq_state ≡ 0)
unfolding step class_invoke invoke_end
serves_all {l} tid floor reach e j o t =
    let (p, s) = subst (λ d. Place d l) e (Reach-Inv reach).place in
    let u = p.on_target_once in
    let (h, w, b, y, i) = lock-Held tid floor l.dq_state t p.free j (omega arith) in
    let v = unlock-Free (drain_try_lock plain 1 tid floor l.dq_state).state h b in
    let a = h.width in
    rw (drain_steps-invoked tid floor l w (ground arith))
      (refl, refl, ground arith, ground arith, ground arith, ground arith)
