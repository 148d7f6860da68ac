-- ===== src/QueueState/Serial.antt =====
-- The life of a serial queue: src/queue.c (the push, the wakeup, the drain, dispatch_sync, suspension and
-- resume) and src/inline_internal.h (the invocation by the target queue), over the drain lock. Any number of
-- threads push items, call dispatch_sync, or suspend and resume the queue, and the target queue invokes it
-- as often as it has it. A step is one update of the state, one exchange of the tail, one look at
-- whether there are items, or the pop and the run of one. The queue is not one of a workloop or the manager, and has fewer than
-- 64 suspensions; dispatch_sync takes no target queues, as under a root queue, and a caller that finds the
-- queue in use is not followed. For the list of items, which is the component Mpsc, there is its length.
mod Updates
mod Words
mod Locks
mod Complete
mod Resume
mod Invariant
mod Wakes
mod Drain
mod Steps
mod Safety
mod Suspended
mod Serve
mod Tests
use swift_corelibs_libdispat.Common.{
  ℕ, ◌+◌, ◌-◌, ◌*◌, ◌%◌, ◌^◌, ◌≤◌, ◌<◌, ◌≡◌, Bool, true, false, not, ◌&&◌, ◌||◌, leb, ◌==◌,
  if◌then◌else◌, Option, none, some,
}
use swift_corelibs_libdispat.Common.Bits.{field, test_bit, set_bit, clear_bit, clear_field}
use swift_corelibs_libdispat.QueueState.{
  plain, drain_try_lock, drain_try_unlock, drain_unlock_bits, dq_state_merge_qos,
  dq_state_is_suspended, dq_state_is_enqueued, dq_state_drain_locked, dq_state_is_base_wlh,
  dq_state_is_runnable, dq_state_is_dirty, try_acquire_barrier_sync, needs_activation,
  suspend_interval, in_barrier, width_interval, state_init_value,
}
use swift_corelibs_libdispat.QueueState.Serial.Updates.{
  wakeup_state, finish_state, drained_owned, sync_unlock, barrier_complete_state, pushed,
}
use swift_corelibs_libdispat.Suspend.{
  Resumer, Next, wakeup, suspend_pass, resume_update, resume_end,
}

-- Where the thread is that has the drain lock. A drainer, with what it owns: before
-- `_dispatch_lane_drain`, in its loop before it looks whether there is an item and may go on, and between
-- that and the pop, before `_dispatch_queue_drain_try_unlock`, and before `_dispatch_queue_invoke_finish`. A caller of dispatch_sync: in its function, before the loop of
-- `_dispatch_lane_barrier_sync_invoke_and_complete`. Either that or a resume, with a QoS to merge: in
-- `_dispatch_lane_barrier_complete`, and before the loop of `_dispatch_lane_class_barrier_complete`.
pub data Drainer : Type 0 where
  none_draining in_sync sync_unlocking : Drainer
  invoking draining popping unlocking finishing : (owned : ℕ) → Drainer
  completing : (qos : ℕ) → Drainer
  handing_over : (qos : ℕ) → (target : Bool) → Drainer

-- A queue with its state, its items, how many have been run, the pushes that found it empty and have not
-- yet looked again whether it has items, those that have and are to wake it up, how often the target queue
-- has it or is about to get it, and whether two threads have drained it at once.
pub record SerialQueue : Type 0 where
  pub dq_state : ℕ
  pub items : ℕ
  pub ran : ℕ
  pub pushing : ℕ
  pub waking : ℕ
  pub on_target : ℕ
  pub drainer : Drainer
  pub clash : Bool

abbrev pub is_drained : Drainer → Bool
is_drained none_draining = false
is_drained _ = true

-- `_dispatch_lane_push`: the exchange of the tail
pub lane_push : SerialQueue → SerialQueue
lane_push l = record l {
  items = l.items + 1;
  pushing = if l.items == 0 then l.pushing + 1 else l.pushing;
}

-- `_dispatch_lane_wakeup`: the probe by `_dispatch_queue_class_probe`
pub lane_wakeup : SerialQueue → SerialQueue
lane_wakeup l = record l {
  pushing = l.pushing - 1;
  waking = if l.items == 0 then l.waking else l.waking + 1;
}

-- `_dispatch_queue_wakeup`
pub queue_wakeup : Bool → ℕ → SerialQueue → SerialQueue
unfolding wakeup_state
queue_wakeup make_dirty qos l =
    let new : ℕ = wakeup_state make_dirty qos l.dq_state in
    record l { dq_state = new; on_target = l.on_target + pushed l.dq_state new }

-- `_dispatch_queue_class_invoke`: the target queue has popped the queue, and takes the drain lock.
pub class_invoke : ℕ → ℕ → SerialQueue → SerialQueue
unfolding drain_try_lock
class_invoke tid floor l =
    let r = drain_try_lock plain 1 tid floor l.dq_state in
    let popped : SerialQueue = record l { dq_state = r.state; on_target = l.on_target - 1 } in
    if r.owned == 0
    then popped
    else record popped { drainer = invoking r.owned; clash = l.clash || is_drained l.drainer }

-- `_dispatch_lane_drain`: the look whether there are items and whether the drain has to stop before the
-- next one, and the pop and the run of that. The look at the items counts with the load of the state, as
-- only the drainer takes items away. It stops where the queue is suspended, and where `stops` says so: the
-- target queue or the width has changed (`orig_tq != dq->do_targetq`), or the drain has to narrow.
pub lane_drain : Bool → SerialQueue → Drainer → SerialQueue
unfolding drained_owned
lane_drain stops l (invoking owned) = record l {
  drainer = if l.items == 0 then unlocking owned else draining owned;
}
lane_drain stops l (draining owned) =
    if l.items == 0
    then record l { drainer = unlocking (drained_owned owned) }
    else (if stops || dq_state_is_suspended l.dq_state
        then record l { drainer = finishing (drained_owned owned) }
        else record l { drainer = popping owned })
lane_drain stops l (popping owned) = record l {
  items = l.items - 1;
  ran = l.ran + 1;
  drainer = draining owned;
}
lane_drain stops l _ = l

-- The rest of `_dispatch_queue_class_invoke`: the unlock, after a drain that found the queue empty, which is
-- tried again from the drain where the thread runs a root queue, and `_dispatch_queue_invoke_finish`.
pub invoke_end : Bool → SerialQueue → Drainer → SerialQueue
unfolding drain_try_unlock finish_state
invoke_end on_root l (unlocking owned) =
    let (new, unlocked, override) = drain_try_unlock owned true l.dq_state in
    record l {
      dq_state = new;
      drainer =
          if unlocked then none_draining else (if on_root then invoking owned else finishing owned);
    }
invoke_end on_root l (finishing owned) =
    let old : ℕ = (l.dq_state + 2 ^ 64 - owned) % 2 ^ 64 in
    let new : ℕ = finish_state owned l.dq_state in
    record l { dq_state = new; on_target = l.on_target + pushed old new; drainer = none_draining }
invoke_end on_root l _ = l

-- A queue after an attempt to take it, and after one to unlock it
abbrev pub sync_taken : SerialQueue → Option ℕ → SerialQueue
sync_taken l none = l
sync_taken l (some new) = record l {
  dq_state = new;
  drainer = in_sync;
  clash = l.clash || is_drained l.drainer;
}

abbrev pub sync_unlocked : SerialQueue → Option ℕ → SerialQueue
sync_unlocked l none = record l { drainer = completing 0 }
sync_unlocked l (some new) = record l { dq_state = new; drainer = none_draining }

-- `_dispatch_barrier_sync_f_inline`: a caller that cannot take the queue is not followed.
pub sync_start : ℕ → SerialQueue → SerialQueue
unfolding try_acquire_barrier_sync
sync_start tid l = sync_taken l (try_acquire_barrier_sync 1 tid l.dq_state)

-- The rest of dispatch_sync: the look for items, the unlock where there was none, and
-- `_dispatch_lane_barrier_complete`
pub sync_end : SerialQueue → Drainer → SerialQueue
unfolding sync_unlock barrier_complete_state
sync_end l in_sync = record l { drainer = if l.items == 0 then sync_unlocking else completing 0 }
sync_end l sync_unlocking = sync_unlocked l (sync_unlock l.dq_state)
sync_end l (completing qos) = record l {
  drainer = handing_over qos (not (l.items == 0) && not (dq_state_is_suspended l.dq_state));
}
sync_end l (handing_over qos target) =
    let (new, released) = barrier_complete_state target qos l.dq_state in
    record l {
      dq_state = new;
      on_target = if target then l.on_target + pushed l.dq_state new else l.on_target;
      drainer = if released then none_draining else completing qos;
    }
sync_end l _ = l

-- `_dispatch_lane_suspend`; the slow path is not followed.
pub suspend : SerialQueue → SerialQueue
unfolding suspend_pass
suspend l =
    let (lane, next) =
      suspend_pass (record { dq_state = l.dq_state; side_suspend_cnt = 0; retained = 0 }) in
    record l { dq_state = lane.dq_state }

-- What `_dispatch_lane_resume` does after its loop: where it has taken the drain lock, it goes on in
-- `_dispatch_lane_barrier_complete`; a wakeup for the QoS alone is a step of its own.
abbrev pub resumed_by : SerialQueue → ℕ → Next → SerialQueue
resumed_by l new (wakeup qos true) = record l {
  dq_state = new;
  drainer = completing qos;
  clash = l.clash || is_drained l.drainer;
}
resumed_by l new _ = record l { dq_state = new }

abbrev pub serial : ℕ → Resumer
serial tid = record { is_source = false; width = 1; tid = tid }

abbrev pub after_resume : SerialQueue → Option ℕ → SerialQueue
after_resume l none = l
after_resume l (some new) = resumed_by l new (resume_end false l.dq_state new)

-- `_dispatch_lane_resume`
pub resume : ℕ → SerialQueue → SerialQueue
unfolding resume_update resume_end
resume tid l = after_resume l (resume_update (serial tid) l.dq_state)

-- The steps: a push, the two parts of its wakeup, a wakeup for a QoS alone at any time, those of the
-- drain and of dispatch_sync, a suspension and a resume.
pub data Access : Type 0 where
  pushes probes suspends : Access
  wakes overrides : (qos : ℕ) → Access
  invokes : (tid floor : ℕ) → Access
  drains ends : (flag : Bool) → Access
  syncs resumes : (tid : ℕ) → Access
  ends_sync : Access

unfoldable pub step : Access → SerialQueue → SerialQueue
unfolding lane_push lane_wakeup queue_wakeup class_invoke lane_drain invoke_end sync_start sync_end
    suspend resume
step pushes l = lane_push l
step probes l = lane_wakeup l
step (wakes qos) l = queue_wakeup true qos (record l { waking = l.waking - 1 })
step (overrides qos) l = queue_wakeup false qos l
step (invokes tid floor) l = class_invoke tid floor l
step (drains stops) l = lane_drain stops l l.drainer
step (ends on_root) l = invoke_end on_root l l.drainer
step (syncs tid) l = sync_start tid l
step ends_sync l = sync_end l l.drainer
step suspends l = suspend l
step (resumes tid) l = resume tid l

-- A wakeup follows a push, an invocation a push on the target, and a resume a suspension; a thread has an
-- id, and a QoS is below 8. The other steps have no condition.
abbrev pub CanTake : Access → SerialQueue → Type 0
CanTake pushes l = 0 ≤ l.items
CanTake probes l = 0 < l.pushing
CanTake (wakes qos) l = (0 < l.waking) × (qos < 8)
CanTake (overrides qos) l = qos < 8
CanTake (invokes tid floor) l = (0 < l.on_target) × (0 < field 0 30 tid)
CanTake (drains stops) l = 0 ≤ l.items
CanTake (ends on_root) l = 0 ≤ l.items
CanTake (syncs tid) l = 0 < field 0 30 tid
CanTake ends_sync l = 0 ≤ l.items
CanTake suspends l = l.dq_state + suspend_interval < 2 ^ 64
CanTake (resumes tid) l = (suspend_interval ≤ l.dq_state) × (0 < field 0 30 tid)

-- A new queue, whose role is 0 under another queue and 1 under a root queue
abbrev pub create : ℕ → SerialQueue
create role = record {
  dq_state = state_init_value 1 + role * 2 ^ 36;
  items = 0;
  ran = 0;
  pushing = 0;
  waking = 0;
  on_target = 0;
  drainer = none_draining;
  clash = false;
}

pub data Reach : SerialQueue → Type 0 where
  start : (role : ℕ) → role < 2 → Reach (create role)
  after : {l : SerialQueue} → Reach l → (a : Access) → CanTake a l → Reach (step a l)
