-- ===== src/QueueState/Serial/Complete.antt =====
-- What `_dispatch_lane_barrier_complete` leaves of a serial queue's state (src/queue.c).
use swift_corelibs_libdispat.Common.{
  ltb, ◌||◌, not, ℕ, ◌+◌, ◌-◌, ◌/◌, ◌%◌, ◌^◌, ◌<◌, ◌≡◌, ◌⊎◌, refl, arith, Bool, true, false, leb,
  if◌then◌else◌,
}
use swift_corelibs_libdispat.Common.Bits.{field, test_bit, set_bit, clear_bit, clear_field}
use swift_corelibs_libdispat.QueueState.{
  drain_unlock_bits, dq_state_merge_qos, suspend_interval, in_barrier, width_interval,
}
use swift_corelibs_libdispat.QueueState.Serial.Updates.{pushed, barrier_complete_state}
use swift_corelibs_libdispat.QueueState.Serial.Words.{Free, Held, merge_qos_lem}

-- A state whose barrier is given back
given_back-Free :
    (s t : ℕ)
    → Held s
    → (let r = (s + 2 ^ 64 - (in_barrier + width_interval)) % 2 ^ 64 in
        (t / 2 ^ 36 ≡ r / 2 ^ 36) × (t % 2 ^ 32 ≡ r % 2 ^ 32))
    → let new = drain_unlock_bits t in
      Free new × (field 31 1 new ≡ field 31 1 s) × (new / suspend_interval ≡ s / suspend_interval)
given_back-Free s t h (a, b) = ground arith

set_enqueued-Free : (s : ℕ) → Free s → Free (set_bit 31 s) × (field 31 1 (set_bit 31 s) ≡ 1)
set_enqueued-Free s f = ground arith

clear_qos-Free :
    (s : ℕ) → Free s → Free (clear_field 32 3 s) × (field 31 1 (clear_field 32 3 s) ≡ field 31 1 s)
clear_qos-Free s f = ground arith

abbrev given_back : ℕ → ℕ → ℕ
given_back q s = dq_state_merge_qos ((s + 2 ^ 64 - (in_barrier + width_interval)) % 2 ^ 64) q

-- What the two releases of a state `s` give, where `n` is the state with the barrier given back
abbrev enqueued_result : ℕ → ℕ → ℕ × Bool
enqueued_result s n =
    if not (ltb s suspend_interval)
    then (n, true)
    else ((if test_bit 31 s then n else set_bit 31 n), true)

abbrev released_result : ℕ → ℕ → ℕ × Bool
released_result s n =
    if not (ltb s suspend_interval)
    then (n, true)
    else (if test_bit 39 s then (clear_bit 39 s, false) else (clear_field 32 3 n, true))

-- The tests of a state without a workloop, the manager's bit, and activation
suspended_test : (s : ℕ) → field 55 3 s ≡ 0 → leb (2 ^ 55) s ≡ not (ltb s suspend_interval)
suspended_test s y = ground arith

wlh_test : (s : ℕ) → field 37 2 s ≡ 0 → test_bit 37 s ≡ false
wlh_test s z = ground arith

enqueued_test : (s : ℕ) → field 37 2 s ≡ 0 → (test_bit 31 s || test_bit 38 s) ≡ test_bit 31 s
enqueued_test s z = ground arith

complete_true_lem :
    (q s : ℕ)
    → field 37 2 s ≡ 0
    → field 55 3 s ≡ 0
    → barrier_complete_state true q s ≡ enqueued_result s (drain_unlock_bits (given_back q s))
unfolding barrier_complete_state
complete_true_lem q s z y = rw (suspended_test s y, wlh_test s z, enqueued_test s z) refl

complete_false_lem :
    (q s : ℕ)
    → field 37 2 s ≡ 0
    → field 55 3 s ≡ 0
    → barrier_complete_state false q s ≡ released_result s (drain_unlock_bits (given_back q s))
unfolding barrier_complete_state
complete_false_lem q s z y = rw (suspended_test s y, wlh_test s z) refl

-- The release that puts the queue on its target, unless it is suspended or there
pub complete-Enqueued :
    (q s : ℕ)
    → q < 8
    → Held s
    → let (new, released) = barrier_complete_state true q s in
      (released ≡ true)
      × Free new
      × (pushed s new + field 31 1 s ≡ field 31 1 new)
      × (new < suspend_interval → field 31 1 new ≡ 1)
complete-Enqueued q s b h =
    let (z, y) = h.serial in
    let w = h.width in
    let (f, e, k) =
      given_back-Free s (given_back q s) h
        (merge_qos_lem q ((s + 2 ^ 64 - (in_barrier + width_interval)) % 2 ^ 64) b) in
    rw (complete_true_lem q s z (omega arith))
      (enqueued_word s (drain_unlock_bits (given_back q s)) f e k)
  where
    enqueued_word :
        (s n : ℕ)
        → Free n
        → field 31 1 n ≡ field 31 1 s
        → n / suspend_interval ≡ s / suspend_interval
        → let (new, released) = enqueued_result s n in
          (released ≡ true)
          × Free new
          × (pushed s new + field 31 1 s ≡ field 31 1 new)
          × (new < suspend_interval → field 31 1 new ≡ 1)
    enqueued_word s n f e k = let (f', e') = set_enqueued-Free n f in ground arith

-- and the one that does not, and renews the lock of a dirty state.
pub complete-Free :
    (q s : ℕ)
    → q < 8
    → Held s
    → let (new, released) = barrier_complete_state false q s in
      (released ≡ true)
        × Free new
        × (field 31 1 new ≡ field 31 1 s)
        × (new < suspend_interval → (field 39 1 s ≡ 0) × (s < suspend_interval))
      ⊎ (released ≡ false) × Held new × (field 31 1 new ≡ field 31 1 s)
complete-Free q s b h =
    let (z, y) = h.serial in
    let w = h.width in
    let (f, e, k) =
      given_back-Free s (given_back q s) h
        (merge_qos_lem q ((s + 2 ^ 64 - (in_barrier + width_interval)) % 2 ^ 64) b) in
    rw (complete_false_lem q s z (omega arith))
      (released_word s (drain_unlock_bits (given_back q s)) f e k h)
  where
    clear_dirty-Held :
        (s : ℕ) → Held s → Held (clear_bit 39 s) × (field 31 1 (clear_bit 39 s) ≡ field 31 1 s)
    clear_dirty-Held s h = ground arith

    released_word :
        (s n : ℕ)
        → Free n
        → field 31 1 n ≡ field 31 1 s
        → n / suspend_interval ≡ s / suspend_interval
        → Held s
        → let (new, released) = released_result s n in
          (released ≡ true)
            × Free new
            × (field 31 1 new ≡ field 31 1 s)
            × (new < suspend_interval → (field 39 1 s ≡ 0) × (s < suspend_interval))
          ⊎ (released ≡ false) × Held new × (field 31 1 new ≡ field 31 1 s)
    released_word s n f e k h =
        let (f', e') = clear_qos-Free n f in let (h', d') = clear_dirty-Held s h in ground arith
