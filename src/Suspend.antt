-- ===== src/Suspend.antt =====
-- src/queue.c (_dispatch_lane_suspend to _dispatch_lane_resume) and src/inline_internal.h: the suspend
-- count of a queue. It is split: bits 58 to 63 of `dq_state` hold the inline count, and when that
-- overflows, a half of it moves to `dq_side_suspend_cnt`, which the side lock protects. A pass is one
-- atomic update of `dq_state`, with what is done under the side lock; it ends with what is called next.
mod Passes
mod Contract
mod Restart
mod Resume
mod Activate
mod Calls
mod Tests
use swift_corelibs_libdispat.Common.{
  ℕ, zero, suc, ◌+◌, ◌-◌, ◌*◌, ◌/◌, ◌%◌, ◌^◌, Bool, true, false, not, ◌&&◌, ◌||◌, leb, ltb, ◌==◌,
  if◌then◌else◌, Option, none, some,
}
use swift_corelibs_libdispat.Common.Bits.{field, test_bit, set_bit, clear_bit, clear_field}
use swift_corelibs_libdispat.QueueState.{
  suspend_interval, needs_activation, in_barrier, width_full_bit, width_interval,
  dq_state_is_suspended, dq_state_is_inactive, dq_state_has_side_suspend_cnt,
  dq_state_needs_activation, dq_state_is_runnable, dq_state_drain_locked,
  dq_state_has_pending_barrier, dq_state_is_in_barrier, dq_state_max_qos, lock_value_from_tid,
  drain_preserved_bits, drain_unlock_bits, state_init_value,
}

-- DISPATCH_QUEUE_SUSPEND_HALF
abbrev pub suspend_half : ℕ
suspend_half = 0x20

-- DISPATCH_QUEUE_HAS_SIDE_SUSPEND_CNT
abbrev pub has_side_suspend_cnt : ℕ
has_side_suspend_cnt = 2 ^ 57

-- DISPATCH_QUEUE_INACTIVE
abbrev pub inactive : ℕ
inactive = 2 ^ 56

-- `s & DISPATCH_QUEUE_SUSPEND_BITS_MASK`
abbrev pub suspend_bits : ℕ → ℕ
suspend_bits s = field 55 9 s * 2 ^ 55

-- A queue, source or channel, as far as suspension reads and writes it. `retained` counts the internal
-- references that are held while it is suspended: _dispatch_retain_2 takes them, and _dispatch_release_2
-- or a wakeup with DISPATCH_WAKEUP_CONSUME_2 consumes them.
pub record Lane : Type 0 where
  pub dq_state : ℕ
  pub side_suspend_cnt : ℕ
  pub retained : ℕ

-- What follows a pass: a return, the slow path, a retry, the activation, _dispatch_release_2, a wakeup
-- with the max QoS and perhaps DISPATCH_WAKEUP_BARRIER_COMPLETE, or DISPATCH_CLIENT_CRASH.
pub data Next : Type 0 where
  done slow again activation release_2 client_crash : Next
  wakeup : (qos : ℕ) (barrier_complete : Bool) → Next

-- `_dispatch_queue_init`: the state and the references of a new queue
pub queue_init : ℕ → ℕ → Bool → Lane
queue_init width role starts_inactive =
    if starts_inactive
    then record {
      dq_state = state_init_value width + inactive + needs_activation + field 36 2 role * 2 ^ 36;
      side_suspend_cnt = 0;
      retained = 2;
    }
    else record {
      dq_state = state_init_value width + field 36 2 role * 2 ^ 36;
      side_suspend_cnt = 0;
      retained = 0;
    }

-- `_dispatch_lane_try_inactive_suspend`; `none` where it returns false.
unfoldable pub try_inactive_suspend : Lane → Option (Lane × Next)
try_inactive_suspend l =
    if not (dq_state_is_inactive l.dq_state)
    then none
    else some (
      record l { dq_state = (l.dq_state + suspend_interval) % 2 ^ 64 },
      if not (dq_state_is_suspended l.dq_state) || dq_state_has_side_suspend_cnt l.dq_state
          then client_crash
          else done,
    )

-- `_dispatch_lane_suspend`: the loop that adds an inline count, and what follows it
unfoldable pub suspend_pass : Lane → Lane × Next
suspend_pass l = if leb (2 ^ 64) (l.dq_state + suspend_interval) then (l, slow) else (
  record l {
    dq_state = l.dq_state + suspend_interval;
    retained = if dq_state_is_suspended l.dq_state then l.retained else l.retained + 2;
  },
  done,
)

-- `delta` in `_dispatch_lane_suspend_slow`
abbrev pub suspend_delta : ℕ → ℕ
suspend_delta side =
    if side == 0
    then suspend_half * suspend_interval - suspend_interval - has_side_suspend_cnt
    else suspend_half * suspend_interval - suspend_interval

-- `_dispatch_lane_suspend_slow`, up to the retry
unfoldable pub suspend_slow : Lane → Lane × Next
suspend_slow l =
    if ltb l.dq_state (suspend_delta l.side_suspend_cnt)
    then (l, again)
    else (if leb (2 ^ 32) (l.side_suspend_cnt + suspend_half)
        then (
          record l {
            dq_state = l.dq_state - suspend_delta l.side_suspend_cnt;
            side_suspend_cnt = (l.side_suspend_cnt + suspend_half) % 2 ^ 32;
          },
          client_crash,
        )
        else (
          record l {
            dq_state = l.dq_state - suspend_delta l.side_suspend_cnt;
            side_suspend_cnt = l.side_suspend_cnt + suspend_half;
          },
          done,
        ))

-- `delta` in `_dispatch_lane_resume_slow`
abbrev pub resume_delta : ℕ → ℕ
resume_delta side =
    if side == suspend_half
    then suspend_half * suspend_interval - suspend_interval - has_side_suspend_cnt
    else suspend_half * suspend_interval - suspend_interval

-- `_dispatch_lane_resume_slow`, up to the retry
unfoldable pub resume_slow : Lane → Lane × Next
resume_slow l =
    if l.side_suspend_cnt == 0
    then (l, again)
    else (if leb (2 ^ 64) (l.dq_state + resume_delta l.side_suspend_cnt) then (l, again) else (
      record l {
        dq_state = l.dq_state + resume_delta l.side_suspend_cnt;
        side_suspend_cnt = (l.side_suspend_cnt + 2 ^ 32 - suspend_half) % 2 ^ 32;
      },
      done,
    ))

-- The parts of `_dispatch_lane_resume` for an object: whether it is a source, its width, at least 1, and
-- the thread id of the caller.
pub record Resumer : Type 0 where
  pub is_source : Bool
  pub width : ℕ
  pub tid : ℕ

-- The first loop of `_dispatch_lane_resume`; `none` where it gives up.
abbrev pub activate_update : ℕ → Option ℕ
activate_update s =
    if suspend_bits s == needs_activation + inactive
    then some (s - inactive - needs_activation + suspend_interval)
    else (if dq_state_is_inactive s then some (s - inactive) else none)

-- The branches of the second loop with new_state = old_state - DISPATCH_QUEUE_SUSPEND_INTERVAL
unfoldable pub resumed : Resumer → ℕ → ℕ
resumed r new =
    if not (dq_state_is_runnable new)
    then set_bit 39 new
    else (if dq_state_drain_locked new
        then set_bit 39 new
        else (if not r.is_source
              && (dq_state_has_pending_barrier new
                  || ltb ((new + (r.width - 1) * width_interval) % 2 ^ 64) width_full_bit)
            then drain_preserved_bits new + lock_value_from_tid r.tid + width_full_bit + in_barrier
            else clear_field 32 3 (drain_unlock_bits new)))

-- The second loop of `_dispatch_lane_resume`; `none` where it gives up.
unfoldable pub resume_update : Resumer → ℕ → Option ℕ
unfolding resumed
resume_update r s =
    if suspend_bits s == suspend_interval + needs_activation
    then some (s - needs_activation)
    else (if r.is_source && (suspend_bits s == needs_activation + inactive)
        then some (s - inactive - needs_activation + suspend_interval)
        else (if ltb s suspend_interval then none else some (resumed r (s - suspend_interval))))

-- `(old ^ new) & bit`, for whether the bit is set in the old state and in the new one
abbrev pub toggled : Bool → Bool → Bool
toggled old new = if old then not new else new

-- What `_dispatch_lane_resume` does after its loops, for the old state and the new one.
unfoldable pub resume_end : Bool → ℕ → ℕ → Next
resume_end activate old new =
    if toggled (dq_state_needs_activation old) (dq_state_needs_activation new)
    then activation
    else (if activate
        then (if dq_state_is_suspended new then done else client_crash)
        else (if dq_state_is_suspended new
            then done
            else (if toggled (dq_state_is_in_barrier old) (dq_state_is_in_barrier new)
                then wakeup (dq_state_max_qos old) true
                else (if dq_state_is_runnable new
                    then wakeup (dq_state_max_qos old) false
                    else release_2))))

-- Whether it consumes the two references.
abbrev pub consumes_2 : Next → Bool
consumes_2 release_2 = true
consumes_2 (wakeup qos barrier_complete) = true
consumes_2 _ = false

abbrev pub update_lane : Lane → ℕ → Next → Lane × Next
update_lane l new next = (
  record l { dq_state = new; retained = if consumes_2 next then l.retained - 2 else l.retained },
  next,
)

-- `_dispatch_lane_resume(dq, true)`: the loop, and what follows it
unfoldable pub activate_pass : Lane → Lane × Next
unfolding resume_end
activate_pass l = elim (activate_update l.dq_state) [
  | none ↦ (l, done)
  | some new ↦ update_lane l new (resume_end true l.dq_state new)
]

-- `_dispatch_lane_resume(dq, false)`: the loop, and what follows it
unfoldable pub resume_pass : Resumer → Lane → Lane × Next
unfolding resume_update resume_end
resume_pass r l = elim (resume_update r l.dq_state) [
  | none ↦ (l, if dq_state_has_side_suspend_cnt l.dq_state then slow else client_crash)
  | some new ↦ update_lane l new (resume_end false l.dq_state new)
]

-- The calls that follow a pass: the slow path, the retry, the activation.
abbrev follow :
    (Lane → Lane × Next) → (Lane → Lane × Next) → (Lane → Lane × Next) → Lane × Next → Lane × Next
follow on_slow on_again on_activation (l, slow) = on_slow l
follow on_slow on_again on_activation (l, again) = on_again l
follow on_slow on_again on_activation (l, activation) = on_activation l
follow on_slow on_again on_activation r = r

abbrev leave : Next → Lane → Lane × Next
leave next l = (l, next)

-- `_dispatch_lane_suspend`, with as many rounds as the fuel says; `again` where they do not suffice.
unfoldable pub lane_suspend : ℕ → Lane → Lane × Next
unfolding suspend_pass suspend_slow
lane_suspend zero l = (l, again)
lane_suspend (suc n) l =
    follow (leave slow) (lane_suspend n) (leave activation)
      (follow suspend_slow (leave again) (leave activation) (suspend_pass l))

-- Step 3 of `_dispatch_lane_resume_activate`: the finalizer `dq_activate` has been run, and says whether
-- to resume.
abbrev finish_activation : (Lane → Lane × Next) → Lane × Bool → Lane × Next
finish_activation resume (l, true) = resume l
finish_activation resume (l, false) = (l, done)

-- `_dispatch_lane_resume(dq, false)`. The finalizer is the method `dq_activate` of the object.
unfoldable pub lane_resume : ℕ → (Lane → Lane × Bool) → Resumer → Lane → Lane × Next
unfolding resume_pass resume_slow
lane_resume zero finalizer r l = (l, again)
lane_resume (suc n) finalizer r l =
    follow (leave slow) (lane_resume n finalizer r)
      (λ m. finish_activation (lane_resume n finalizer r) (finalizer m))
      (follow resume_slow (leave again) (leave activation) (resume_pass r l))

-- `_dispatch_lane_resume(dq, true)`
unfoldable pub lane_activate : ℕ → (Lane → Lane × Bool) → Resumer → Lane → Lane × Next
unfolding activate_pass lane_resume
lane_activate n finalizer r l =
    follow (leave slow) (leave again)
      (λ m. finish_activation (lane_resume n finalizer r) (finalizer m)) (activate_pass l)
