-- ===== src/Suspend/Activate.antt =====
-- The pass of `_dispatch_lane_resume` (src/queue.c) that activates.
use swift_corelibs_libdispat.Common.{
  ℕ, ◌+◌, ◌-◌, ◌*◌, ◌/◌, ◌%◌, ◌^◌, ◌<◌, ◌≡◌, refl, arith, true, false, ◌==◌, none, some, ℕ_discrete,
}
use swift_corelibs_libdispat.Common.Bits.{test_bit}
use swift_corelibs_libdispat.QueueState.{suspend_interval, needs_activation}
use swift_corelibs_libdispat.Suspend.{inactive, Lane, activate_pass, suspend_bits, activate_update}
use swift_corelibs_libdispat.Suspend.Passes.{suspend_count, view, IsValid, retained_2, retained_of}
use swift_corelibs_libdispat.Suspend.Contract.{
  quiet, activates, activate_view, Kept, resume_end-done, resume_end-activation, view_all,
  activation_state,
}

activate_view-activates :
    (l : Lane)
    → l.side_suspend_cnt ≡ 0
    → l.dq_state / 2 ^ 55 ≡ 3
    → activate_view (view l)
      ≡ (record { count = 1; inactive = false; needs_activation = false }, activates)
activate_view-activates l z e = ground arith

activate_view-suspended :
    (l : Lane)
    → l.dq_state / 2 ^ 56 % 2 ≡ 1
    → 0 < suspend_count l
    → activate_view (view l) ≡ (record (view l) { inactive = false }, quiet)
activate_view-suspended l i p = ground arith

activate_view-active :
    (l : Lane) → l.dq_state / 2 ^ 56 % 2 ≡ 0 → activate_view (view l) ≡ (view l, quiet)
activate_view-active l i = ground arith

-- The loop of activate, and what follows it, keeps the contract of activate on any valid lane.
pub activate_pass_lem :
    (tid : ℕ) (l : Lane) → IsValid l → Kept tid (activate_pass l) (activate_view (view l))
unfolding activate_pass
activate_pass_lem tid l v =
    let s = l.dq_state in
    let t : suspend_bits s ≡ s / 2 ^ 55 * 2 ^ 55 = omega arith in
    elim (ℕ_discrete (s / 2 ^ 55) 3) [
      | yes e ↦
          let three : (s / 2 ^ 55 * 2 ^ 55 == 3 * 2 ^ 55) ≡ true = ground arith in
          let new = s - 2 ^ 56 - 2 ^ 55 + 2 ^ 58 in
          let f = resume_end-activation true s new (omega arith) (omega arith) in
          let (w, x) = activation_state l new v (omega arith) (omega arith) (omega arith) in
          let u : activate_update s ≡ some new = rw (t, three) refl in
          rw (activate_view-activates l (omega arith) e)
            (rw (u, activate_pass) (rw f (w, x, refl, refl)))
      | no n ↦
          let three : (s / 2 ^ 55 * 2 ^ 55 == 3 * 2 ^ 55) ≡ false = ground arith in
          elim (ℕ_discrete (s / 2 ^ 56 % 2) 1) [
            | yes i ↦
                let b : test_bit 56 s ≡ true = ground arith in
                let new = s - 2 ^ 56 in
                let f = resume_end-done true s new (omega arith) (omega arith) in
                let m : Lane = record l { dq_state = new } in
                let u : activate_update s ≡ some new = rw (t, three, b) refl in
                rw (activate_view-suspended l i (omega arith)) (
                  rw (u, activate_pass)
                    (rw f (
                      (
                        omega arith,
                        omega arith,
                        omega arith,
                        omega arith,
                        omega arith,
                        omega arith,
                        omega arith,
                        retained_2 m (retained_of l v (omega arith)) (omega arith),
                      ),
                      view_all m (suspend_count l) false (test_bit 55 s) (omega arith)
                          (ground arith) (ground arith),
                      refl,
                      refl,
                    )))
            | no i ↦
                let b : test_bit 56 s ≡ false = ground arith in
                let u : activate_update s ≡ none = rw (t, three, b) refl in
                rw (activate_view-active l (omega arith))
                  (rw (u, activate_pass) (v, refl, refl, refl))
          ]
    ]

-- What the finalizer of an inactive queue without suspensions gets: the activation has become a suspension.
pub activation_starts :
    (l : Lane)
    → IsValid l
    → l.dq_state / 2 ^ 55 ≡ 3
    → (activate_pass l).0
      ≡ record l { dq_state = l.dq_state - inactive - needs_activation + suspend_interval }
unfolding activate_pass
activation_starts l v e =
    let s = l.dq_state in
    let t : suspend_bits s ≡ s / 2 ^ 55 * 2 ^ 55 = omega arith in
    let three : (s / 2 ^ 55 * 2 ^ 55 == 3 * 2 ^ 55) ≡ true = ground arith in
    let new = s - 2 ^ 56 - 2 ^ 55 + 2 ^ 58 in
    let f = resume_end-activation true s new (omega arith) (omega arith) in
    let u : activate_update s ≡ some new = rw (t, three) refl in rw (u, activate_pass) (rw f refl)
