-- ===== src/Suspend/Restart.antt =====
-- The last resume of a queue: what `_dispatch_lane_resume` (src/queue.c) leaves, and what follows.
use swift_corelibs_libdispat.Common.{
  ℕ, ◌+◌, ◌-◌, ◌/◌, ◌^◌, ◌≤◌, ◌<◌, ◌≡◌, ◌≢◌, ◌⊎◌, arith, true, false, inl, inr, refl, dec_lt,
  ℕ_discrete,
}
use swift_corelibs_libdispat.Common.Bits.{field, set_bit, clear_field}
use swift_corelibs_libdispat.QueueState.{
  drain_preserved_bits, drain_unlock_bits, lock_value_from_tid, width_full_bit, in_barrier,
}
use swift_corelibs_libdispat.Suspend.{release_2, wakeup, Resumer, resumed, resume_end, consumes_2}
use swift_corelibs_libdispat.Suspend.Contract.{effect, load, restart, prepared}

-- The four branches of the last resume, where `t` is the state less the suspension.
resumed_busy : (r : Resumer) (t : ℕ) → 2 ^ 53 ≤ t → resumed r t ≡ set_bit 39 t
unfolding resumed
resumed_busy r t h = ground arith

resumed_locked : (r : Resumer) (t : ℕ) → t < 2 ^ 53 → field 0 30 t ≢ 0 → resumed r t ≡ set_bit 39 t
unfolding resumed
resumed_locked r t h k = ground arith

resumed_free :
    (r : Resumer) (t : ℕ)
    → t < 2 ^ 53
    → field 0 30 t ≡ 0
    → (resumed r t
        ≡ drain_preserved_bits t + lock_value_from_tid r.tid + width_full_bit + in_barrier)
      ⊎ (resumed r t ≡ clear_field 32 3 (drain_unlock_bits t))
unfolding resumed
resumed_free r t h k = ground arith

resume_end_left :
    (s new : ℕ)
    → field 54 2 s ≡ new / 2 ^ 54
    → new < 2 ^ 55
    → 2 ^ 53 ≤ new
    → resume_end false s new ≡ release_2
unfolding resume_end
resume_end_left s new a b c = ground arith

resume_end_woken :
    (s new : ℕ)
    → field 54 2 s ≡ 0
    → new < 2 ^ 53
    → resume_end false s new ≡ wakeup (field 32 3 s) false
unfolding resume_end
resume_end_woken s new a b = ground arith

resume_end_locked :
    (s new : ℕ)
    → field 54 2 s ≡ 0
    → new / 2 ^ 54 ≡ 1
    → resume_end false s new ≡ wakeup (field 32 3 s) true
unfolding resume_end
resume_end_locked s new a b = ground arith

-- The last resume: what follows, and whether the state is prepared for it.
unfoldable pub Restarted : Resumer → ℕ → ℕ → Type 0
Restarted r s new =
    (new < 2 ^ 55)
    × (effect (resume_end false s new) ≡ restart (load s))
    × (consumes_2 (resume_end false s new) ≡ true)
    × (prepared r.tid new (resume_end false s new) ≡ true)

busy_load : (s : ℕ) → s / 2 ^ 55 ≡ 8 → 2 ^ 53 ≤ s - 2 ^ 58 → (load s).busy ≡ true
busy_load s e h = ground arith

free_load : (s : ℕ) → s / 2 ^ 55 ≡ 8 → s - 2 ^ 58 < 2 ^ 53 → (load s).busy ≡ false
free_load s e h = ground arith

busy_starts :
    (r : Resumer) (s : ℕ)
    → s / 2 ^ 55 ≡ 8
    → 2 ^ 53 ≤ s - 2 ^ 58
    → Restarted r s (set_bit 39 (s - 2 ^ 58))
unfolding Restarted
busy_starts r s e h =
    let f = resume_end_left s (set_bit 39 (s - 2 ^ 58)) (omega arith) (omega arith) (omega arith) in
    rw (f, busy_load s e h) (omega arith, refl, refl, ground arith)

locked_starts :
    (r : Resumer) (s : ℕ)
    → s / 2 ^ 55 ≡ 8
    → s - 2 ^ 58 < 2 ^ 53
    → Restarted r s (set_bit 39 (s - 2 ^ 58))
unfolding Restarted
locked_starts r s e h =
    let f = resume_end_woken s (set_bit 39 (s - 2 ^ 58)) (omega arith) (omega arith) in
    rw (f, free_load s e h) (omega arith, refl, refl, ground arith)

barrier_starts :
    (r : Resumer) (s : ℕ)
    → s / 2 ^ 55 ≡ 8
    → s - 2 ^ 58 < 2 ^ 53
    → Restarted r s (
        drain_preserved_bits (s - 2 ^ 58) + lock_value_from_tid r.tid + width_full_bit + in_barrier)
unfolding Restarted
barrier_starts r s e h =
    let new =
      drain_preserved_bits (s - 2 ^ 58) + lock_value_from_tid r.tid + width_full_bit + in_barrier in
    let f = resume_end_locked s new (omega arith) (omega arith) in
    rw (f, free_load s e h) (omega arith, refl, refl, ground arith)

cleared_starts :
    (r : Resumer) (s : ℕ)
    → s / 2 ^ 55 ≡ 8
    → s - 2 ^ 58 < 2 ^ 53
    → Restarted r s (clear_field 32 3 (drain_unlock_bits (s - 2 ^ 58)))
unfolding Restarted
cleared_starts r s e h =
    let f =
      resume_end_woken s (clear_field 32 3 (drain_unlock_bits (s - 2 ^ 58))) (omega arith)
        (omega arith) in
    rw (f, free_load s e h) (omega arith, refl, refl, ground arith)

pub resumed-Restarted :
    (r : Resumer) (s : ℕ) → s / 2 ^ 55 ≡ 8 → Restarted r s (resumed r (s - 2 ^ 58))
resumed-Restarted r s e = elim (dec_lt (s - 2 ^ 58) (2 ^ 53)) [
  | no b ↦ rw (resumed_busy r (s - 2 ^ 58) (omega arith)) (busy_starts r s e (omega arith))
  | yes h ↦ elim (ℕ_discrete (field 0 30 (s - 2 ^ 58)) 0) [
    | no k ↦ rw (resumed_locked r (s - 2 ^ 58) h k) (locked_starts r s e h)
    | yes k ↦ elim (resumed_free r (s - 2 ^ 58) h k) [
      | inl x ↦ rw x (barrier_starts r s e h)
      | inr x ↦ rw x (cleared_starts r s e h)
    ]
  ]
]
