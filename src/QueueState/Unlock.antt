-- ===== src/QueueState/Unlock.antt =====
-- `_dispatch_queue_drain_try_unlock` on every state (src/inline_internal.h).
use swift_corelibs_libdispat.Common.{
  ℕ, ◌+◌, ◌-◌, ◌%◌, ◌^◌, ◌≡◌, arith, inl, inr, Bool, Bool-cases, true, false, none,
}
use mathlib.Core.Bool.{false≢true}
use swift_corelibs_libdispat.Common.Bits.{field, test_bit, set_bit, clear_bit, clear_field}
use swift_corelibs_libdispat.QueueState.{
  drain_unlock_bits, drain_try_unlock, dq_state_is_dirty, dq_state_is_suspended,
}

-- What an unlock of a drain that is done or not leaves, and of a suspended queue.
module _ (x : ℕ) where
  owner_freed : field 0 30 (drain_unlock_bits x) ≡ 0
  owner_freed = omega arith

  owner_freed_done : field 0 30 (clear_field 32 3 (drain_unlock_bits x)) ≡ 0
  owner_freed_done = omega arith

  owner_freed_more : field 0 30 (set_bit 39 (drain_unlock_bits x)) ≡ 0
  owner_freed_more = omega arith

  override_freed : test_bit 35 (drain_unlock_bits x) ≡ false
  override_freed = ground arith

  override_freed_done : test_bit 35 (clear_field 32 3 (drain_unlock_bits x)) ≡ false
  override_freed_done = ground arith

  override_freed_more : test_bit 35 (set_bit 39 (drain_unlock_bits x)) ≡ false
  override_freed_more = ground arith

-- The state of a queue that an unlock finds dirty, and leaves.
module _ (s : ℕ) (d : dq_state_is_dirty s ≡ true) (n : dq_state_is_suspended s ≡ false) where
  clear_dirty : clear_bit 39 s ≡ s - 2 ^ 39
  clear_dirty = ground arith

  renewed_not_dirty : dq_state_is_dirty (s - 2 ^ 39) ≡ false
  renewed_not_dirty = ground arith

  renewed_not_suspended : dq_state_is_suspended (s - 2 ^ 39) ≡ false
  renewed_not_suspended = ground arith

not_dirty_unlocks :
    (owned s : ℕ) (done : Bool)
    → dq_state_is_dirty s ≡ false
    → (drain_try_unlock owned done s).1 ≡ true
unfolding drain_try_unlock
not_dirty_unlocks owned s done d = elim (Bool-cases (dq_state_is_suspended s)) [
  | inl e ↦ rw e
  | inr e ↦ elim done as (λ b. (drain_try_unlock owned b s).1 ≡ true) [
    | true ↦ rw (e, d)
    | false ↦ rw (e, d)
  ]
]

-- An unlock of a state that is dirty and not suspended fails: it clears the dirty bit alone, so that
-- the drainer keeps what it owns, and marks no override. The next unlock, with no other update in
-- between, succeeds.
pub drain_try_unlock_dirty :
    (owned s : ℕ) (done : Bool)
    → dq_state_is_dirty s ≡ true
    → dq_state_is_suspended s ≡ false
    → (drain_try_unlock owned done s ≡ (s - 2 ^ 39, false, none))
      × ((drain_try_unlock owned done (s - 2 ^ 39)).1 ≡ true)
drain_try_unlock_dirty owned s done d n =
    (first, not_dirty_unlocks owned (s - 2 ^ 39) done (renewed_not_dirty s d n))
  where
    first : drain_try_unlock owned done s ≡ (s - 2 ^ 39, false, none)
    first = unfold drain_try_unlock in rw (n, d, clear_dirty s d n)

-- An unlock that succeeds, whatever it gives back, frees the drain lock: the owner is 0 and the
-- override bit is clear.
pub drain_try_unlock_frees :
    (owned s : ℕ) (done : Bool)
    → (drain_try_unlock owned done s).1 ≡ true
    → (field 0 30 (drain_try_unlock owned done s).0 ≡ 0)
      × (test_bit 35 (drain_try_unlock owned done s).0 ≡ false)
unfolding drain_try_unlock
drain_try_unlock_frees owned s done h = elim (Bool-cases (dq_state_is_suspended s)) [
  | inl e ↦ rw e (owner_freed given, override_freed given)
  | inr e ↦ elim (Bool-cases (dq_state_is_dirty s)) [
    | inl d ↦ let f : false ≡ true = rw (e, d) at h in absurd (false≢true f)
    | inr d ↦
        elim done
          as (λ b.
            (field 0 30 (drain_try_unlock owned b s).0 ≡ 0)
            × (test_bit 35 (drain_try_unlock owned b s).0 ≡ false)) [
              | true ↦ rw (e, d) (owner_freed_done given, override_freed_done given)
              | false ↦ rw (e, d) (owner_freed_more given, override_freed_more given)
            ]
  ]
]
  where
    given : ℕ
    given = (s + 2 ^ 64 - owned) % 2 ^ 64
