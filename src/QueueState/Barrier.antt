-- ===== src/QueueState/Barrier.antt =====
-- Barrier callers: `_dispatch_queue_try_acquire_barrier_sync` and what its success excludes
-- (src/inline_internal.h).
use swift_corelibs_libdispat.Common.{
  ℕ, ◌+◌, ◌-◌, ◌*◌, ◌^◌, ◌≤◌, ◌<◌, ◌≡◌, refl, arith, Bool, true, false, some, none, ==_iff,
}
use swift_corelibs_libdispat.Common.Bits.{field}
use swift_corelibs_libdispat.QueueState.{
  DrainKind, stealing, manager_drain, plain, lock_fails, state_init_value, in_barrier,
  try_acquire_barrier_sync_and_suspend, try_reserve_sync_width, try_acquire_async,
  dq_state_drain_owner, dq_state_is_in_barrier, dq_state_suspend_cnt, dq_state_extract_width_bits,
}

-- Every way to acquire a queue of this width fails on the state, for every thread.
pub record IsExcluded (width s : ℕ) : Type 0 where
  pub no_barrier : (tid count : ℕ) → try_acquire_barrier_sync_and_suspend width tid count s ≡ none
  pub no_sync : (tail : Bool) → try_reserve_sync_width tail s ≡ none
  pub no_async : try_acquire_async s ≡ none
  pub no_drain : (kind : DrainKind) → lock_fails kind s ≡ true

no_sync_above : (s : ℕ) (tail : Bool) → in_barrier ≤ s → try_reserve_sync_width tail s ≡ none
unfolding try_reserve_sync_width
no_sync_above s true h = refl
no_sync_above s false h = ground arith

no_drain_above : (s : ℕ) (kind : DrainKind) → in_barrier ≤ s → lock_fails kind s ≡ true
no_drain_above s stealing h = ground arith
no_drain_above s manager_drain h = ground arith
no_drain_above s plain h = ground arith

no_barrier_above :
    (width tid count s : ℕ)
    → in_barrier ≤ s
    → try_acquire_barrier_sync_and_suspend width tid count s ≡ none
unfolding try_acquire_barrier_sync_and_suspend
no_barrier_above width tid count s h = ground arith

no_async_above : (s : ℕ) → in_barrier ≤ s → try_acquire_async s ≡ none
unfolding try_acquire_async
no_async_above s h = ground arith

-- A queue that is in a barrier, waits for its activation, is inactive or is suspended (any state from
-- the barrier bit up) cannot be acquired: not by a barrier, with or without a suspension, not for a
-- sync width, not for an async width, not by a drainer of any kind.
pub above_barrier-IsExcluded : (width s : ℕ) → in_barrier ≤ s → IsExcluded width s
above_barrier-IsExcluded width s h = record {
  no_barrier = λ tid count. no_barrier_above width tid count s h;
  no_sync = λ tail. no_sync_above s tail h;
  no_async = no_async_above s h;
  no_drain = λ kind. no_drain_above s kind h;
}

-- What a barrier caller leaves on an idle queue.
abbrev acquired : ℕ → ℕ → ℕ → ℕ
acquired tid count role = 2 ^ 53 + 2 ^ 54 + field 0 30 tid + count * 2 ^ 58 + role * 2 ^ 36

acquire_idle :
    (width tid count role : ℕ)
    → 0 < width
    → width ≤ 0x1000
    → role < 4
    → try_acquire_barrier_sync_and_suspend width tid count (state_init_value width + role * 2 ^ 36)
      ≡ some (acquired tid count role)
unfolding try_acquire_barrier_sync_and_suspend
acquire_idle width tid count role p q r =
    let same : field 36 2 ((0x1000 - width) * 2 ^ 41 + role * 2 ^ 36) ≡ role = omega arith in
    rw same (rw ((==_iff (state_init_value width + role * 2 ^ 36) _).1 refl))

-- A barrier caller on an idle queue of any width and role succeeds. It leaves the queue in the barrier,
-- with the full width and the thread as the owner and as many suspensions as it asks for (below 64),
-- with its role kept; so nobody else can acquire the queue.
acquire_barrier-IsExcluded :
    (width tid count role : ℕ)
    → 0 < width
    → width ≤ 0x1000
    → count < 64
    → role < 4
    → (s : ℕ) × (try_acquire_barrier_sync_and_suspend width tid count
          (state_init_value width + role * 2 ^ 36)
        ≡ some s)
      × (dq_state_is_in_barrier s ≡ true)
      × (dq_state_extract_width_bits s ≡ 0x1000)
      × (dq_state_drain_owner s ≡ field 0 30 tid)
      × (dq_state_suspend_cnt s ≡ count)
      × (field 36 2 s ≡ role)
      × IsExcluded width s
acquire_barrier-IsExcluded width tid count role p q c r = (
  acquired tid count role,
  acquire_idle width tid count role p q r,
  ground arith,
  omega arith,
  omega arith,
  omega arith,
  omega arith,
  above_barrier-IsExcluded width (acquired tid count role) (omega arith),
)
