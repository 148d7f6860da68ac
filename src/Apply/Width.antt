-- ===== src/Apply/Width.antt =====
-- src/apply.c: how many threads dispatch_apply_f uses, and the width that `_dispatch_apply_redirect` takes
-- from the queues between the one that it is called on and the root.
use swift_corelibs_libdispat.Common.{
  ℕ, ◌+◌, ◌-◌, ◌*◌, ◌/◌, ◌%◌, ◌^◌, Bool, ◌&&◌, ◌||◌, ◌==◌, if◌then◌else◌, ltb, List, [], ◌∷◌, map,
}
use swift_corelibs_libdispat.QueueState.{dq_state_available_width, width_interval}

-- DISPATCH_APPLY_MAX
abbrev pub apply_max : ℕ
apply_max = 2 ^ 16 - 1

-- The thread count of dispatch_apply_f, where `nested` is 0 outside of any other dispatch_apply, and
-- `parallelism` is what `_dispatch_qos_max_parallelism` returns.
unfoldable pub apply_threads : (nested iterations parallelism : ℕ) → ℕ
apply_threads nested iterations parallelism =
    let share : ℕ =
      if nested == 0
      then parallelism
      else (if ltb nested parallelism then parallelism / nested else 1) in
    if ltb iterations share then iterations else share

-- The value of da_nested
unfoldable pub apply_nesting : (nested iterations : ℕ) → ℕ
apply_nesting nested iterations =
    if nested == 0
    then iterations
    else (if ltb nested apply_max && ltb iterations apply_max
        then nested * iterations
        else apply_max)

-- How dispatch_apply_f goes on: on the calling thread, through the target queues, or on the root queue.
pub data Way : Type 0 where
  serially through_targets on_root : Way

unfoldable pub apply_way : (width threads : ℕ) → (has_target is_current : Bool) → Way
apply_way width threads has_target is_current =
    if width == 1 || ltb threads 2
    then serially
    else (if has_target then (if is_current then serially else through_targets) else on_root)

pub record Queue : Type 0 where
  pub dq_state : ℕ
  pub dq_width : ℕ

-- `_dispatch_queue_try_reserve_apply_width`: the new state, and the width that was reserved
unfoldable pub try_reserve_apply_width : Queue → ℕ → Queue × ℕ
try_reserve_apply_width q da_width =
    if q.dq_width == 1
    then (q, 0)
    else (let width : ℕ = dq_state_available_width q.dq_state in
        if width == 0
        then (q, 0)
        else (let reserved : ℕ = if ltb da_width width then da_width else width in
            (record q { dq_state = (q.dq_state + reserved * width_interval) % 2 ^ 64 }, reserved)))

abbrev pub relinquish : ℕ → Queue → Queue
relinquish da_width q = record q {
  dq_state = (q.dq_state + (2 ^ 64 - da_width * width_interval)) % 2 ^ 64;
}

-- `_dispatch_queue_relinquish_width`
abbrev pub relinquish_width : ℕ → List Queue → List Queue
relinquish_width da_width = map (relinquish da_width)

-- What `_dispatch_apply_redirect` does: it runs serially, or with da_width more threads; and the queues.
pub data Redirect : Type 0 where
  alone : (queues : List Queue) → Redirect
  with_width : (queues : List Queue) (da_width : ℕ) → Redirect

abbrev pub rev_onto : List Queue → List Queue → List Queue
rev_onto [] qs = qs
rev_onto (q ∷ seen) qs = rev_onto seen (q ∷ qs)

-- The rest of the loop of `_dispatch_apply_redirect`, when the queues of `seen`, the last one first, have `da_width` reserved.
-- It ends where the work starts; after the work, the width is given back by `relinquish_width`. da_thr_cnt is
-- the width that is left and one, and da_flags is not modelled.
unfoldable pub redirect : List Queue → List Queue → ℕ → Redirect
redirect seen [] da_width = with_width (rev_onto seen []) da_width
redirect seen (q ∷ qs) da_width =
    let (q', width) = try_reserve_apply_width q da_width in
    let rest = redirect (q' ∷ relinquish_width (da_width - width) seen) qs width in
    let on = redirect (q' ∷ seen) qs da_width in
    if ltb width da_width
    then (if width == 0
        then alone (rev_onto (relinquish_width (da_width - width) seen) (q' ∷ qs))
        else rest)
    else on
