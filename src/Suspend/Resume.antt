-- ===== src/Suspend/Resume.antt =====
-- The passes of `_dispatch_lane_resume` (src/queue.c) that resume.
use swift_corelibs_libdispat.Common.{
  ℕ, ◌+◌, ◌-◌, ◌*◌, ◌/◌, ◌%◌, ◌^◌, ◌≤◌, ◌<◌, ◌≡◌, ◌≢◌, ◌⊎◌, inl, inr, refl, arith, Bool, true,
  false, ◌&&◌, leb, ltb, ◌==◌, if◌then◌else◌, none, some, dec_lt, Bool-cases, ℕ_discrete,
}
use swift_corelibs_libdispat.Common.Bits.{test_bit}
use swift_corelibs_libdispat.Suspend.{
  Lane, done, slow, again, client_crash, Resumer, resumed, resume_update, resume_pass, resume_slow,
  resume_delta, suspend_bits,
}
use swift_corelibs_libdispat.Suspend.Passes.{
  suspend_count, View, view, IsValid, view_eq, retained_2, retained_of,
}
use swift_corelibs_libdispat.Suspend.Restart.{Restarted, resumed-Restarted}
use swift_corelibs_libdispat.Suspend.Contract.{
  quiet, activates, refused, Load, load, restart, resume_view, Kept, resumed_high, resume_end-done,
  resume_end-activation, activation_state, less_one, released, resume_view-last, resume_view-source,
  resume_view-restart, resume_view-quiet,
}

update_activation :
    (r : Resumer) (l : Lane) (new : ℕ)
    → IsValid l
    → resume_update r l.dq_state ≡ some new
    → l.side_suspend_cnt ≡ 0
    → l.dq_state / 2 ^ 55 % 2 ≡ 1
    → new / 2 ^ 55 ≡ 8
    → Kept r.tid
        (resume_pass r l)
        (record { count = 1; inactive = false; needs_activation = false }, activates)
unfolding resume_pass
update_activation r l new v u z odd e =
    let f = resume_end-activation false l.dq_state new odd (omega arith) in
    let (w, x) = activation_state l new v z (omega arith) e in
    rw (u, resume_pass) (rw f (w, x, refl, refl))

update_quiet :
    (r : Resumer) (l : Lane) (new : ℕ)
    → IsValid l
    → resume_update r l.dq_state ≡ some new
    → new / 2 ^ 55 + 8 ≡ l.dq_state / 2 ^ 55
    → 2 ^ 55 ≤ new
    → l.dq_state / 2 ^ 55 % 2 ≤ l.dq_state / 2 ^ 56 % 2 + (suspend_count l - 1)
    → Kept r.tid (resume_pass r l) (record (view l) { count = suspend_count l - 1 }, quiet)
unfolding resume_pass
update_quiet r l new v u e h g =
    let f = resume_end-done false l.dq_state new (omega arith) h in
    let (w, x) = less_one l new v e h g in rw (u, resume_pass) (rw f (w, x, refl, refl))

update_restarts :
    (r : Resumer) (l : Lane) (new : ℕ)
    → IsValid l
    → resume_update r l.dq_state ≡ some new
    → l.dq_state / 2 ^ 55 ≡ 8
    → Restarted r l.dq_state new
    → Kept r.tid
        (resume_pass r l)
        (record (view l) { count = suspend_count l - 1 }, restart (load l.dq_state))
unfolding resume_pass Restarted
update_restarts r l new v u e (h, f, c, p) =
    let (w, x) = released l new v h e in rw (u, resume_pass) (rw c (w, x, f, p))

resume_pass-none :
    (r : Resumer) (l : Lane)
    → resume_update r l.dq_state ≡ none
    → resume_pass r l ≡ (l, if test_bit 57 l.dq_state then slow else client_crash)
unfolding resume_pass
resume_pass-none r l u = rw (u, resume_pass) refl

resume_view-refused :
    (b : Bool) (d : Load) (v : View)
    → v.count ≡ 0
    → b && (v.inactive && v.needs_activation) ≡ false
    → resume_view b d v ≡ (v, refused)
resume_view-refused b d v z n = ground arith

-- The cases of the loop of resume.
pub resume_update-cases :
    (r : Resumer) (s : ℕ)
    → s < 2 ^ 64
    → (s / 2 ^ 55 ≡ 9) × (resume_update r s ≡ some (s - 2 ^ 55))
      ⊎ (r.is_source ≡ true)
        × (s / 2 ^ 55 ≡ 3)
        × (resume_update r s ≡ some (s - 2 ^ 56 - 2 ^ 55 + 2 ^ 58))
      ⊎ (s < 2 ^ 58) × ((r.is_source && (s / 2 ^ 55 == 3)) ≡ false) × (resume_update r s ≡ none)
      ⊎ (2 ^ 58 ≤ s) × (s / 2 ^ 55 ≢ 9) × (resume_update r s ≡ some (resumed r (s - 2 ^ 58)))
unfolding resume_update
resume_update-cases r s h =
    let t : suspend_bits s ≡ s / 2 ^ 55 * 2 ^ 55 = omega arith in
    elim (ℕ_discrete (s / 2 ^ 55) 9) [
      | yes e ↦
          let nine : (s / 2 ^ 55 * 2 ^ 55 == 9 * 2 ^ 55) ≡ true = ground arith in
          inl (e, rw (t, nine) refl)
      | no n ↦
          let nine : (s / 2 ^ 55 * 2 ^ 55 == 9 * 2 ^ 55) ≡ false = ground arith in
          elim (Bool-cases (r.is_source && (s / 2 ^ 55 == 3))) [
            | inl b ↦
                let c : (r.is_source && (s / 2 ^ 55 * 2 ^ 55 == 3 * 2 ^ 55)) ≡ true =
                  ground arith in
                inr (inl (ground arith, ground arith, rw (t, nine, c) refl))
            | inr b ↦
                let c : (r.is_source && (s / 2 ^ 55 * 2 ^ 55 == 3 * 2 ^ 55)) ≡ false =
                  ground arith in
                elim (dec_lt s (2 ^ 58)) [
                  | yes p ↦
                      let d : ltb s (2 ^ 58) ≡ true = ground arith in
                      inr (inr (inl (p, b, rw (t, nine, c, d) refl)))
                  | no p ↦
                      let d : ltb s (2 ^ 58) ≡ false = ground arith in
                      inr (inr (inr (omega arith, n, rw (t, nine, c, d) refl)))
                ]
          ]
    ]

-- The loop of resume, and what follows it, on any valid lane as another thread may have left it: it
-- keeps the contract of resume, or else the inline count is 0 and a side count is left, and nothing
-- changes. Where the last suspension ends, the queue is woken up for its QoS, locked by the thread if it is to
-- complete a barrier, or, if all of its width is taken, it is left to those who have it and marked as dirty.
pub resume_pass_lem :
    (r : Resumer) (l : Lane)
    → IsValid l
    → Kept r.tid (resume_pass r l) (resume_view r.is_source (load l.dq_state) (view l))
      ⊎ (resume_pass r l ≡ (l, slow)) × (l.dq_state / 2 ^ 58 ≡ 0) × (0 < l.side_suspend_cnt)
resume_pass_lem r l v = elim (resume_update-cases r l.dq_state v.0) [
  | inl (e, u) ↦
      let z : l.side_suspend_cnt ≡ 0 = omega arith in
      inl (
        rw (resume_view-last r.is_source (load l.dq_state) l z e)
          (update_activation r l _ v u z (omega arith) (omega arith)))
  | inr (inl (b, e, u)) ↦
      let z : l.side_suspend_cnt ≡ 0 = omega arith in
      inl (
        rw (resume_view-source r.is_source (load l.dq_state) l b z e)
          (update_activation r l _ v u z (omega arith) (omega arith)))
  | inr (inr (inl (p, b, u))) ↦ elim (ℕ_discrete l.side_suspend_cnt 0) [
    | yes z ↦
        let c : test_bit 57 l.dq_state ≡ false = ground arith in
        inl (
          rw (resume_pass-none r l u) (
            rw c (
              rw
                (resume_view-refused r.is_source (load l.dq_state) (view l) (omega arith)
                  (ground arith))
                (v, refl, refl, refl))))
    | no z ↦
        let c : test_bit 57 l.dq_state ≡ true = ground arith in
        inr (rw (resume_pass-none r l u) (rw c refl), omega arith, omega arith)
  ]
  | inr (inr (inr (p, n, u))) ↦
      let high = resumed_high r (l.dq_state - 2 ^ 58) (omega arith) in
      elim (ℕ_discrete (l.dq_state / 2 ^ 55) 8) [
        | yes e ↦ inl (
            rw (resume_view-restart r.is_source (load l.dq_state) l (omega arith) e)
              (update_restarts r l _ v u e (resumed-Restarted r l.dq_state e)))
        | no m ↦ inl (
            rw (resume_view-quiet r.is_source (load l.dq_state) l v (omega arith) n m)
              (update_quiet r l _ v u (omega (arith, high)) (omega (arith, high)) (omega arith)))
      ]
]

-- The slow path of resume on any valid lane: it takes one from the count and returns, or else other
-- threads have changed the counts meanwhile, and it retries with nothing changed.
pub resume_slow_lem :
    (l : Lane)
    → IsValid l
    → ((resume_slow l).1 ≡ done)
        × IsValid (resume_slow l).0
        × (0 < suspend_count l)
        × (view (resume_slow l).0 ≡ record (view l) { count = suspend_count l - 1 })
      ⊎ (resume_slow l ≡ (l, again)) × ((l.side_suspend_cnt ≡ 0) ⊎ (33 ≤ l.dq_state / 2 ^ 58))
unfolding resume_slow
resume_slow_lem l v = elim (ℕ_discrete l.side_suspend_cnt 0) [
  | yes z ↦ let y : (l.side_suspend_cnt == 0) ≡ true = ground arith in inr (rw y refl, inl z)
  | no z ↦
      let y : (l.side_suspend_cnt == 0) ≡ false = ground arith in
      let d = resume_delta l.side_suspend_cnt in
      let w : (l.side_suspend_cnt + 2 ^ 32 - 32) % 2 ^ 32 ≡ l.side_suspend_cnt - 32 = omega arith in
      let e : (d + 2 ^ 57 ≡ 31 * 2 ^ 58) × (l.side_suspend_cnt ≡ 32)
          ⊎ (d ≡ 31 * 2 ^ 58) × (64 ≤ l.side_suspend_cnt) =
        elim (ℕ_discrete l.side_suspend_cnt 32) [
          | yes h ↦ inl (ground arith, h)
          | no h ↦ inr (ground arith, omega arith)
        ] in
      elim (dec_lt (l.dq_state + d) (2 ^ 64)) [
        | yes p ↦
            let t : leb (2 ^ 64) (l.dq_state + d) ≡ false = ground arith in
            let m : Lane = record {
              dq_state = l.dq_state + d;
              side_suspend_cnt = l.side_suspend_cnt - 32;
              retained = l.retained;
            } in
            inl (
              rw (y, t, w)
                (
                  refl,
                  (
                    omega arith,
                    omega arith,
                    omega arith,
                    omega arith,
                    omega arith,
                    omega arith,
                    omega arith,
                    retained_2 m (retained_of l v (omega arith)) (omega arith),
                  ),
                  omega arith,
                  view_eq l m (suspend_count l - 1) (omega arith) (omega arith) (omega arith),
                ))
        | no p ↦
            let t : leb (2 ^ 64) (l.dq_state + d) ≡ true = ground arith in
            inr (rw (y, t) refl, inr (omega arith))
      ]
]
