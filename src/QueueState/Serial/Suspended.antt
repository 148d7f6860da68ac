-- ===== src/QueueState/Serial/Suspended.antt =====
-- What a suspended serial queue does (src/queue.c, src/inline_internal.h).
use swift_corelibs_libdispat.Common.{
  ℕ, Bool-cases, ◌+◌, ◌≤◌, ◌≡◌, inl, inr, refl, arith, Bool, false, ◌==◌, Option, none, some,
}
use swift_corelibs_libdispat.QueueState.{
  suspend_interval, try_acquire_barrier_sync, drain_try_lock, plain,
}
use swift_corelibs_libdispat.QueueState.Serial.{
  Drainer, none_draining, invoking, draining, popping, unlocking, finishing, in_sync,
  sync_unlocking, completing, handing_over, SerialQueue, lane_drain, invoke_end, class_invoke,
  sync_unlocked, resumed_by, after_resume, serial, lane_push, lane_wakeup, queue_wakeup, sync_start,
  sync_end, suspend, resume, Access, pushes, probes, wakes, overrides, syncs, ends_sync, suspends,
  resumes, invokes, drains, ends, step, CanTake,
}
use swift_corelibs_libdispat.QueueState.Serial.Updates.{sync_unlock}
use swift_corelibs_libdispat.Suspend.{Next, resume_update, resume_end}

-- The item that the drainer goes on with in any case
abbrev pub chosen : Drainer → ℕ
chosen (popping owned) = 1
chosen _ = 0

-- A step from a queue with the drainer that chooses no item, runs one at most if that is chosen, and does
-- not enter dispatch_sync.
abbrev StartsNothing : ℕ → Drainer → SerialQueue → Type 0
StartsNothing ran d m =
    (m.ran + chosen m.drainer ≤ ran + chosen d) × (m.drainer ≡ in_sync → d ≡ in_sync)

unmoved-StartsNothing : (d : Drainer) (l : SerialQueue) → l.drainer ≡ d → StartsNothing l.ran d l
unmoved-StartsNothing d l e = rw e (omega arith, λ x. x)

drain-StartsNothing :
    (stops : Bool) (d : Drainer) (l : SerialQueue)
    → suspend_interval ≤ l.dq_state
    → l.drainer ≡ d
    → StartsNothing l.ran d (lane_drain stops l d)
unfolding lane_drain
drain-StartsNothing stops none_draining l h e = unmoved-StartsNothing none_draining l e
drain-StartsNothing stops (invoking o) l h e = (ground arith, λ x. ground arith)
drain-StartsNothing stops (draining o) l h e = (ground arith, λ x. ground arith)
drain-StartsNothing stops (popping o) l h e = (ground arith, λ x. ground arith)
drain-StartsNothing stops (unlocking o) l h e = unmoved-StartsNothing (unlocking o) l e
drain-StartsNothing stops (finishing o) l h e = unmoved-StartsNothing (finishing o) l e
drain-StartsNothing stops in_sync l h e = unmoved-StartsNothing in_sync l e
drain-StartsNothing stops sync_unlocking l h e = unmoved-StartsNothing sync_unlocking l e
drain-StartsNothing stops (completing b) l h e = unmoved-StartsNothing (completing b) l e
drain-StartsNothing stops (handing_over b t) l h e = unmoved-StartsNothing (handing_over b t) l e

invoke_end-StartsNothing :
    (on_root : Bool) (d : Drainer) (l : SerialQueue)
    → suspend_interval ≤ l.dq_state
    → l.drainer ≡ d
    → StartsNothing l.ran d (invoke_end on_root l d)
unfolding invoke_end
invoke_end-StartsNothing on_root none_draining l h e = unmoved-StartsNothing none_draining l e
invoke_end-StartsNothing on_root (invoking o) l h e = unmoved-StartsNothing (invoking o) l e
invoke_end-StartsNothing on_root (draining o) l h e = unmoved-StartsNothing (draining o) l e
invoke_end-StartsNothing on_root (popping o) l h e = unmoved-StartsNothing (popping o) l e
invoke_end-StartsNothing on_root (unlocking o) l h e = (ground arith, λ x. ground arith)
invoke_end-StartsNothing on_root (finishing o) l h e = (ground arith, λ x. ground arith)
invoke_end-StartsNothing on_root in_sync l h e = unmoved-StartsNothing in_sync l e
invoke_end-StartsNothing on_root sync_unlocking l h e = unmoved-StartsNothing sync_unlocking l e
invoke_end-StartsNothing on_root (completing b) l h e = unmoved-StartsNothing (completing b) l e
invoke_end-StartsNothing on_root (handing_over b t) l h e =
    unmoved-StartsNothing (handing_over b t) l e

sync_unlocked-StartsNothing :
    (l : SerialQueue) (o : Option ℕ) → StartsNothing l.ran sync_unlocking (sync_unlocked l o)
sync_unlocked-StartsNothing l none = (omega arith, λ x. ground arith)
sync_unlocked-StartsNothing l (some new) = (omega arith, λ x. ground arith)

sync_end-StartsNothing :
    (d : Drainer) (l : SerialQueue)
    → suspend_interval ≤ l.dq_state
    → l.drainer ≡ d
    → StartsNothing l.ran d (sync_end l d)
unfolding sync_end
sync_end-StartsNothing none_draining l h e = unmoved-StartsNothing none_draining l e
sync_end-StartsNothing (invoking o) l h e = unmoved-StartsNothing (invoking o) l e
sync_end-StartsNothing (draining o) l h e = unmoved-StartsNothing (draining o) l e
sync_end-StartsNothing (popping o) l h e = unmoved-StartsNothing (popping o) l e
sync_end-StartsNothing (unlocking o) l h e = unmoved-StartsNothing (unlocking o) l e
sync_end-StartsNothing (finishing o) l h e = unmoved-StartsNothing (finishing o) l e
sync_end-StartsNothing in_sync l h e = (ground arith, λ x. ground arith)
sync_end-StartsNothing sync_unlocking l h e = sync_unlocked-StartsNothing l (sync_unlock l.dq_state)
sync_end-StartsNothing (completing b) l h e = (ground arith, λ x. ground arith)
sync_end-StartsNothing (handing_over b t) l h e = (ground arith, λ x. ground arith)

resumed-StartsNothing :
    (l : SerialQueue) (new : ℕ) (n : Next) → StartsNothing l.ran l.drainer (resumed_by l new n)
resumed-StartsNothing l new n = ground arith

after_resume-StartsNothing :
    (l : SerialQueue) (o : Option ℕ) → StartsNothing l.ran l.drainer (after_resume l o)
after_resume-StartsNothing l none = unmoved-StartsNothing l.drainer l refl
after_resume-StartsNothing l (some new) =
    resumed-StartsNothing l new (resume_end false l.dq_state new)

acquire_suspended : (tid s : ℕ) → suspend_interval ≤ s → try_acquire_barrier_sync 1 tid s ≡ none
unfolding try_acquire_barrier_sync
acquire_suspended tid s h = ground arith

step-StartsNothing :
    (a : Access) (l : SerialQueue)
    → suspend_interval ≤ l.dq_state
    → StartsNothing l.ran l.drainer (step a l)
unfolding step lane_push lane_wakeup queue_wakeup class_invoke sync_start suspend resume
step-StartsNothing pushes l h = (omega arith, λ e. e)
step-StartsNothing probes l h = (omega arith, λ e. e)
step-StartsNothing (wakes q) l h = (omega arith, λ e. e)
step-StartsNothing (overrides q) l h = (omega arith, λ e. e)
step-StartsNothing (invokes tid floor) l h =
    elim (Bool-cases ((drain_try_lock plain 1 tid floor l.dq_state).owned == 0)) [
      | inl e ↦ rw e (omega arith, λ d. d)
      | inr e ↦ rw e (omega arith, λ d. ground arith)
    ]
step-StartsNothing (drains stops) l h = drain-StartsNothing stops l.drainer l h refl
step-StartsNothing (ends on_root) l h = invoke_end-StartsNothing on_root l.drainer l h refl
step-StartsNothing (syncs tid) l h = rw (acquire_suspended tid l.dq_state h) (omega arith, λ e. e)
step-StartsNothing ends_sync l h = sync_end-StartsNothing l.drainer l h refl
step-StartsNothing suspends l h = (omega arith, λ e. e)
step-StartsNothing (resumes tid) l h =
    after_resume-StartsNothing l (resume_update (serial tid) l.dq_state)

-- The steps of all threads from a queue on, for as long as it is suspended
pub data WhileSuspended (l : SerialQueue) : SerialQueue → Type 0 where
  none_yet : WhileSuspended l l
  goes_on :
      {m : SerialQueue}
      → WhileSuspended l m
      → suspend_interval ≤ m.dq_state
      → (a : Access) → CanTake a m
      → WhileSuspended l (step a m)

-- Suspension is asynchronous, and bounded: however many steps the threads take while a serial queue is
-- suspended, at most one of its items is run, and only if the drainer had already looked at the state
-- and gone on with that item when the suspension came; no call enters dispatch_sync.
pub starts_nothing_suspended :
    {l m : SerialQueue}
    → WhileSuspended l m
    → (m.ran + chosen m.drainer ≤ l.ran + chosen l.drainer)
      × (m.drainer ≡ in_sync → l.drainer ≡ in_sync)
starts_nothing_suspended none_yet = (omega arith, λ e. e)
starts_nothing_suspended (goes_on {m} w h a c) =
    let (r, d) = starts_nothing_suspended w in
    let (r', d') = step-StartsNothing a m h in (omega arith, λ e. d (d' e))
