-- ===== src/QueueState/Width.antt =====
-- The width of a concurrent queue: reservations, the upgrade to the full width, and the QoS merge
-- (src/inline_internal.h).
use swift_corelibs_libdispat.Common.{
  ℕ, ◌+◌, ◌-◌, ◌*◌, ◌/◌, ◌%◌, ◌^◌, ◌≤◌, ◌<◌, ◌≡◌, arith, true, false, ltb, dec_lt, if◌then◌else◌,
  ◌==◌, ◌&&◌, ◌||◌, some,
}
use Prim.Native.Nat.{max}
use swift_corelibs_libdispat.Common.Bits.{test_bit}
use swift_corelibs_libdispat.QueueState.{
  width_interval, try_acquire_async, try_upgrade_full_width, dq_state_merge_qos, dq_state_max_qos,
  dq_state_available_width, dq_state_has_pending_barrier, dq_state_extract_width_bits,
  dq_state_is_base_anon,
}

-- An async width is acquired exactly on a state that is runnable, not dirty and without a pending
-- barrier. Then one width is used more, one is available less, and the state stays below the barrier
-- bit; every bit under the width stays.
pub try_acquire_async-takes_one :
    (s t : ℕ)
    → try_acquire_async s ≡ some t
    → (t ≡ s + width_interval)
      × (dq_state_available_width t + 1 ≡ dq_state_available_width s)
      × (t < 2 ^ 54)
      × (t % 2 ^ 41 ≡ s % 2 ^ 41)
unfolding try_acquire_async
try_acquire_async-takes_one s t h = ground arith

-- Merging a QoS sets the max QoS to the larger of the two; the only other bit that it may change is
-- the override bit (35), which it sets where it raises the QoS of a queue with an anonymous base.
pub merge_qos_max :
    (s qos : ℕ)
    → qos < 8
    → (dq_state_max_qos (dq_state_merge_qos s qos) ≡ max (dq_state_max_qos s) qos)
      × (dq_state_merge_qos s qos % 2 ^ 32 ≡ s % 2 ^ 32)
      × (dq_state_merge_qos s qos / 2 ^ 36 ≡ s / 2 ^ 36)
      × (test_bit 35 (dq_state_merge_qos s qos)
          ≡ (test_bit 35 s || (dq_state_is_base_anon s && ltb (dq_state_max_qos s) qos)))
unfolding dq_state_merge_qos
merge_qos_max s qos h = ground arith

-- With no other width in use the upgrade succeeds.
upgrade_alone :
    (width k s : ℕ)
    → 0 < width
    → width ≤ 0x1000
    → s < 2 ^ 54
    → dq_state_has_pending_barrier s ≡ false
    → dq_state_extract_width_bits s ≡ 0x1000 - width + k
    → try_upgrade_full_width width (k * width_interval) s ≡ (s % 2 ^ 39 + 2 ^ 53 + 2 ^ 54, true)
unfolding try_upgrade_full_width
upgrade_alone width k s p q h b e = ground arith

-- With others in use it leaves a pending barrier.
upgrade_waits :
    (width k u s : ℕ)
    → 0 < width
    → width ≤ 0x1000
    → s < 2 ^ 54
    → 0 < u
    → u ≤ 0x1000
    → dq_state_has_pending_barrier s ≡ false
    → dq_state_extract_width_bits s ≡ 0x1000 - width + u + k
    → try_upgrade_full_width width (k * width_interval) s
      ≡ (s % 2 ^ 39 + 2 ^ 40 + (0xfff + u) * 2 ^ 41, false)
unfolding try_upgrade_full_width
upgrade_waits width k u s p q h up uq b e = ground arith

-- A drainer of a queue of width `width` that owns `k` widths, while `u` others are in use, tries to
-- upgrade to a barrier; the state is not suspended, in a barrier or waiting for one. With no other in
-- use it acquires the barrier, and holds the full width. With others in use it fails, and leaves the
-- pending barrier with all the width but one reserved. The bits below the dirty bit stay, and the
-- dirty bit is cleared.
pub try_upgrade_full_width_lem :
    (width k u s : ℕ)
    → 0 < width
    → width ≤ 0x1000
    → s < 2 ^ 54
    → u ≤ 0x1000
    → dq_state_has_pending_barrier s ≡ false
    → dq_state_extract_width_bits s ≡ 0x1000 - width + u + k
    → try_upgrade_full_width width (k * width_interval) s ≡ (
        if u == 0
        then (s % 2 ^ 39 + 2 ^ 53 + 2 ^ 54, true)
        else (s % 2 ^ 39 + 2 ^ 40 + (0xfff + u) * 2 ^ 41, false))
try_upgrade_full_width_lem width k u s p q h uq b e = elim (dec_lt 0 u) [
  | yes some' ↦
      let e' : (u == 0) ≡ false = ground arith in
      rw e' (upgrade_waits width k u s p q h some' uq b e)
  | no none' ↦
      let e' : (u == 0) ≡ true = ground arith in
      rw e' (upgrade_alone width k s p q h b (omega arith))
]
