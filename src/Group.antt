-- ===== src/Group.antt =====
-- src/semaphore.c and src/semaphore_internal.h, dispatch_group_t: the 64-bit state word, the list of
-- notifications, and the references that the group holds on itself, with any number of threads. A
-- thread takes one update of the state word or of the list at a time; the retain that follows such an
-- update is taken with it. `_dispatch_wait_on_address` may return at any time, and its caller checks
-- the generation, as the source does: so `_dispatch_wake_by_address` changes nothing here.
mod Value
mod Invariant
mod Safety
mod Tests
use swift_corelibs_libdispat.Common.{
  ℕ, ◌+◌, ◌-◌, ◌*◌, ◌/◌, ◌%◌, ◌^◌, ◌≡◌, Bool, true, false, ◌==◌, if◌then◌else◌, List, [], ◌∷◌, ◌++◌,
  replicate, length,
}
use swift_corelibs_libdispat.Common.Bits.{field, test_bit, set_bit, clear_bit, clear_field}

-- `struct dispatch_group_s`: `dg_state`, the list of `dg_notify_head`, and the references that were
-- taken by enter and notify.
pub record Group : Type 0 where
  pub dg_state : ℕ
  pub dg_notify : List ℕ
  pub refs : ℕ

-- `state & DISPATCH_GROUP_VALUE_MASK`
abbrev pub value_bits : ℕ → ℕ
value_bits s = field 2 30 s * 4

-- `_dg_state_value`
pub dg_state_value : ℕ → ℕ
dg_state_value s = (2 ^ 32 - value_bits s) % 2 ^ 32 / 4

-- `_dg_state_gen`
pub dg_state_gen : ℕ → ℕ
dg_state_gen s = s / 2 ^ 32 % 2 ^ 32

-- `_dispatch_group_create_with_count`
pub create_with_count : ℕ → Group
create_with_count n = record {
  dg_state = (2 ^ 32 - n % 2 ^ 32) % 2 ^ 32 * 4 % 2 ^ 32;
  dg_notify = [];
  refs = if n == 0 then 0 else 1;
}

-- `_dispatch_group_dispose`: it crashes on a group in use.
pub dispose_crashes : ℕ → Bool
dispose_crashes s = if s % 2 ^ 32 == 0 then false else true

-- Where a thread stands in the calls.
pub data Pc : Type 0 where
  idle : Pc
  notifying : Pc  -- at the loop of `_dispatch_group_notify`, the list having been empty
  leaving : ℕ → Pc  -- at the loop of `dispatch_group_leave`, with `old_state`
  waking : ℕ → Bool → Pc  -- in `_dispatch_group_wake`, with its arguments
  releasing : ℕ → Pc  -- at its release of so many references
  waiting : ℕ → Pc  -- in `_dispatch_group_wait_slow`, with the generation

-- The call that an idle thread makes, or a step of the call that it is in; `wait` says whether the
-- timeout is 0, and `expire` that the wait on the address returned ETIMEDOUT.
pub data Choice : Type 0 where
  enter leave : Choice
  wait : Bool → Choice
  notify : ℕ → Choice
  proceed expire : Choice

-- What the client sees: notifications are submitted, or a wait returns 0 or times out.
pub data Event : Type 0 where
  quiet returned timed_out : Event
  fired : List ℕ → Event

pub data Next : Type 0 where
  next : Group → Pc → Event → Next
  blocked crash : Next

-- The state after `dispatch_group_enter`: the subtraction is one of 32 bits.
pub enter_state : ℕ → ℕ
enter_state s = s / 2 ^ 32 * 2 ^ 32 + (s % 2 ^ 32 + 2 ^ 32 - 4) % 2 ^ 32

-- `dispatch_group_enter`
pub enter_group : Group → Next
unfolding enter_state
enter_group g =
    if value_bits g.dg_state == 4
    then crash
    else (let retained : ℕ = if value_bits g.dg_state == 0 then g.refs + 1 else g.refs in
        next (record g { dg_state = enter_state g.dg_state; refs = retained }) idle quiet)

-- The state after the addition of `dispatch_group_leave`, which is one of 64 bits.
pub leave_state : ℕ → ℕ
leave_state s = (s + 4) % 2 ^ 64

-- `dispatch_group_leave` up to its loop.
pub leave_group : Group → Next
unfolding leave_state
leave_group g =
    if value_bits g.dg_state == 2 ^ 32 - 4
    then next (record g { dg_state = leave_state g.dg_state }) (leaving (leave_state g.dg_state))
        quiet
    else (if value_bits g.dg_state == 0
        then crash
        else next (record g { dg_state = leave_state g.dg_state }) idle quiet)

-- The `new_state` of the loop of `dispatch_group_leave`.
pub cleared : ℕ → ℕ
cleared s = if value_bits s == 0 then clear_bit 1 (clear_bit 0 s) else clear_bit 1 s

-- One round of the loop.
pub leave_round : Group → ℕ → Next
unfolding cleared
leave_round g old =
    if old == cleared old
    then next g (waking old true) quiet
    else (if g.dg_state == old
        then next (record g { dg_state = cleared old }) (waking old true) quiet
        else next g (leaving g.dg_state) quiet)

-- `dispatch_group_wait` up to the wait on the address.
pub wait_group : Group → Bool → Next
unfolding dg_state_gen
wait_group g no_timeout =
    if value_bits g.dg_state == 0
    then next g idle returned
    else (if no_timeout
        then next g idle timed_out
        else next (record g { dg_state = set_bit 0 g.dg_state }) (waiting (dg_state_gen g.dg_state))
            quiet)

-- `_dispatch_group_notify`: the push, and then the loop on the state.
pub push_notify : Group → ℕ → Next
push_notify g n = elim g.dg_notify [
  | [] ↦ next (record g { dg_notify = n ∷ []; refs = g.refs + 1 }) notifying quiet
  | x ∷ xs ↦ next (record g { dg_notify = x ∷ (xs ++ n ∷ []) }) idle quiet
]

pub notify_state : Group → Next
notify_state g =
    if g.dg_state % 2 ^ 32 == 0
    then next g (waking (set_bit 1 g.dg_state) false) quiet
    else next (record g { dg_state = set_bit 1 g.dg_state }) idle quiet

-- `_dispatch_group_wake`: the snapshot of the list is taken when it has an element, and all of it is
-- submitted.
pub wake : Group → ℕ → Bool → Next
wake g s needs_release =
    let refs : ℕ = if needs_release then 1 else 0 in
    if test_bit 1 s
    then (elim g.dg_notify [
      | [] ↦ blocked
      | x ∷ xs ↦ next (record g { dg_notify = [] }) (releasing (refs + 1)) (fired (x ∷ xs))
    ])
    else next g (releasing refs) quiet

-- `_dispatch_group_wait_slow`, each time that the wait on the address returns.
pub wait_slow : Group → ℕ → Event → Next
unfolding dg_state_gen
wait_slow g gen e =
    if gen == dg_state_gen g.dg_state
    then next g (elim e [ timed_out ↦ idle | other ↦ waiting gen ]) e
    else next g idle returned

-- One step of a thread.
pub step : Choice → Group → Pc → Next
unfolding enter_group leave_group leave_round wait_group push_notify notify_state wake wait_slow
step enter g idle = enter_group g
step leave g idle = leave_group g
step (wait no_timeout) g idle = wait_group g no_timeout
step (notify n) g idle = push_notify g n
step proceed g notifying = notify_state g
step proceed g (leaving old) = leave_round g old
step proceed g (waking s needs_release) = wake g s needs_release
step proceed g (releasing n) = next (record g { refs = g.refs - n }) idle quiet
step proceed g (waiting gen) = wait_slow g gen quiet
step expire g (waiting gen) = wait_slow g gen timed_out
step c g p = blocked

-- All threads, and how many notifications were pushed and submitted.
pub record System : Type 0 where
  pub group : Group
  pub threads : List Pc
  pub notified : ℕ
  pub submitted : ℕ

abbrev pub count_notify : Choice → ℕ
count_notify (notify _) = 1
count_notify _ = 0

abbrev pub count_fired : Event → ℕ
count_fired (fired xs) = length xs
count_fired _ = 0

-- One thread of the list takes a step.
pub data Step (before after : List Pc) (n f : ℕ) (g : Group) (p : Pc) : System → Type 0 where
  take :
      (c : Choice) {g' : Group} {p' : Pc} {e : Event}
      → step c g p ≡ next g' p' e
      → Step before after n f g p (record {
        group = g';
        threads = before ++ p' ∷ after;
        notified = n + count_notify c;
        submitted = f + count_fired e;
      })

-- The states that a new group, entered `count` times, reaches with `threads` threads.
pub data Reach (count threads : ℕ) : System → Type 0 where
  here : Reach count threads (record {
    group = create_with_count count;
    threads = replicate threads idle;
    notified = 0;
    submitted = 0;
  })
  later :
      {before after : List Pc} {n f : ℕ} {g : Group} {p : Pc} {t : System}
      → Reach count threads
          (record { group = g; threads = before ++ p ∷ after; notified = n; submitted = f })
      → Step before after n f g p t
      → Reach count threads t
