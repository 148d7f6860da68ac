-- ===== src/Suspend/Calls.antt =====
-- `_dispatch_lane_suspend`, `_dispatch_lane_resume` and `_dispatch_lane_resume_activate` (src/queue.c) as
-- whole calls, which no other thread disturbs.
use swift_corelibs_libdispat.Common.{
  ℕ, suc, ◌+◌, ◌-◌, ◌/◌, ◌%◌, ◌^◌, ◌<◌, ◌≡◌, ◌≢◌, inl, inr, refl, arith, Bool, true, false, not,
  ◌&&◌, ◌==◌, if◌then◌else◌, ap, sym, ◌∙◌, ℕ_discrete,
}
use swift_corelibs_libdispat.Common.Bits.{field}
use swift_corelibs_libdispat.QueueState.{dq_state_is_inactive, needs_activation, suspend_interval}
use swift_corelibs_libdispat.Suspend.{
  inactive, Lane, Next, done, slow, again, activation, release_2, client_crash, wakeup, Resumer,
  follow, leave, finish_activation, suspend_pass, suspend_slow, resume_pass, resume_slow,
  activate_pass, lane_suspend, lane_resume, lane_activate,
}
use swift_corelibs_libdispat.Suspend.Passes.{
  suspend_count, View, view, IsValid, suspended, suspend_pass_lem, suspend_slow_lem,
}
use swift_corelibs_libdispat.Suspend.Contract.{
  Effect, quiet, activates, leaves, wakes, refused, pending, effect, Load, load, restart,
  resume_view, resume_view-quiet, activate_view, Kept,
}
use swift_corelibs_libdispat.Suspend.Resume.{resume_pass_lem, resume_slow_lem}
use swift_corelibs_libdispat.Suspend.Activate.{activate_pass_lem, activation_starts}

-- A pass that a return or a crash follows.
abbrev settled : Effect → Bool
settled quiet = true
settled leaves = true
settled (wakes qos) = true
settled refused = true
settled _ = false

module _ (f g h : Lane → Lane × Next) where
  follow-settled : (x : Lane × Next) → settled (effect x.1) ≡ true → follow f g h x ≡ x
  follow-settled (l, done) e = refl
  follow-settled (l, release_2) e = refl
  follow-settled (l, client_crash) e = refl
  follow-settled (l, wakeup q b) e = refl
  follow-settled (l, slow) e = cc
  follow-settled (l, again) e = cc
  follow-settled (l, activation) e = cc

  follow-activation : (x : Lane × Next) → effect x.1 ≡ activates → follow f g h x ≡ h x.0
  follow-activation (l, activation) e = refl
  follow-activation (l, done) e = cc
  follow-activation (l, release_2) e = cc
  follow-activation (l, client_crash) e = cc
  follow-activation (l, wakeup q b) e = cc
  follow-activation (l, slow) e = cc
  follow-activation (l, again) e = cc

-- A suspend leaves what the state says beside the suspension.
suspend_pass_low : (l : Lane) → (suspend_pass l).0.dq_state % 2 ^ 55 ≡ l.dq_state % 2 ^ 55
unfolding suspend_pass
suspend_pass_low l = ground arith

suspend_slow_low :
    (l : Lane) → IsValid l → (suspend_slow l).0.dq_state % 2 ^ 55 ≡ l.dq_state % 2 ^ 55
unfolding suspend_slow
suspend_slow_low l v = ground arith

load-low : (s t : ℕ) → s % 2 ^ 55 ≡ t % 2 ^ 55 → load s ≡ load t
load-low s t e = let q : field 32 3 s ≡ field 32 3 t = omega arith in rw (e, q) refl

-- A pass and its slow path, where both are settled.
settled_slow :
    (l : Lane)
    → IsValid l
    → l.side_suspend_cnt + 32 < 2 ^ 32
    → (x : Lane × Next) × (follow suspend_slow (leave again) (leave activation) (suspend_pass l)
        ≡ x)
      × (x.1 ≡ done)
      × IsValid x.0
      × (view x.0 ≡ suspended (view l))
      × (x.0.dq_state % 2 ^ 55 ≡ l.dq_state % 2 ^ 55)
settled_slow l v room = elim (suspend_pass_lem l v) [
  | inl (d, w, e) ↦ (
    suspend_pass l,
    follow-settled suspend_slow (leave again) (leave activation) (suspend_pass l) (rw d refl),
    d,
    w,
    e,
    suspend_pass_low l,
  )
  | inr (s, full) ↦ elim (suspend_slow_lem l v room) [
    | inl (d, w, e) ↦ (suspend_slow l, rw s refl, d, w, e, suspend_slow_low l v)
    | inr (a, few) ↦ absurd (omega arith)
  ]
]

-- A suspend that no other thread disturbs returns after one round, with one more in the count of a
-- valid lane, inline or on the side, and leaves the width and the QoS; the side count has room for a half
-- of the inline count.
pub lane_suspend-counts :
    (n : ℕ) (l : Lane)
    → IsValid l
    → l.side_suspend_cnt + 32 < 2 ^ 32
    → ((lane_suspend (suc n) l).1 ≡ done)
      × IsValid (lane_suspend (suc n) l).0
      × (view (lane_suspend (suc n) l).0 ≡ suspended (view l))
      × (load (lane_suspend (suc n) l).0.dq_state ≡ load l.dq_state)
unfolding lane_suspend
lane_suspend-counts n l v room =
    let (x, e, d, w, f, low) = settled_slow l v room in
    let g =
      ap (follow (leave slow) (lane_suspend n) (leave activation)) e
      ∙ follow-settled (leave slow) (lane_suspend n) (leave activation) x (rw d refl) in
    rw g (d, w, f, load-low x.0.dq_state l.dq_state low)

follow-answered :
    (f : Lane → Lane × Next) (x : Lane × Next)
    → effect x.1 ≢ pending
    → follow f (leave again) (leave activation) x ≡ x
follow-answered f (l, done) e = refl
follow-answered f (l, release_2) e = refl
follow-answered f (l, client_crash) e = refl
follow-answered f (l, wakeup q b) e = refl
follow-answered f (l, activation) e = refl
follow-answered f (l, slow) e = absurd (e refl)
follow-answered f (l, again) e = absurd (e refl)

resume_view-answered : (b : Bool) (d : Load) (v : View) → (resume_view b d v).1 ≢ pending
resume_view-answered b d v = ground arith

answered_slow :
    (r : Resumer) (l : Lane)
    → IsValid l
    → (x : Lane × Next) × (follow resume_slow (leave again) (leave activation) (resume_pass r l)
        ≡ x)
      × Kept r.tid x (resume_view r.is_source (load l.dq_state) (view l))
answered_slow r l v = elim (resume_pass_lem r l v) [
  | inl (w, e, f, g) ↦ (
    resume_pass r l,
    follow-answered resume_slow (resume_pass r l)
        (λ p. resume_view-answered r.is_source (load l.dq_state) (view l) (sym f ∙ p)),
    (w, e, f, g),
  )
  | inr (s, zero_inline, some_side) ↦ elim (resume_slow_lem l v) [
    | inl (d, w, p, e) ↦ (
      resume_slow l,
      rw s refl,
      rw (resume_view-quiet r.is_source (load l.dq_state) l v p (omega arith) (omega arith))
          (w, e, ap effect d, rw d refl),
    )
    | inr (a, inl none_left) ↦ absurd (omega arith)
    | inr (a, inr many) ↦ absurd (omega arith)
  ]
]

module _ (n : ℕ) (finalizer : Lane → Lane × Bool) (r : Resumer) (l : Lane) (v : IsValid l) where
  -- A resume that no other thread disturbs and that starts no activation returns or crashes after one
  -- round, and leaves a valid lane and what the contract of resume says.
  pub lane_resume-Kept :
      settled (resume_view r.is_source (load l.dq_state) (view l)).1 ≡ true
      → Kept r.tid
          (lane_resume (suc n) finalizer r l)
          (resume_view r.is_source (load l.dq_state) (view l))
  unfolding lane_resume
  lane_resume-Kept s =
      let (x, e, (w, i, f, y)) = answered_slow r l v in
      let go : Lane × Next → Lane × Next =
        follow (leave slow) (lane_resume n finalizer r)
          (λ m. finish_activation (lane_resume n finalizer r) (finalizer m)) in
      let g =
        ap go e
        ∙ follow-settled (leave slow) (lane_resume n finalizer r)
            (λ m. finish_activation (lane_resume n finalizer r) (finalizer m)) x
            (ap settled f ∙ s) in
      rw g (w, i, f, y)

-- The finalizer of an object keeps what suspension reads, and lets it resume.
abbrev KeepsView : (Lane → Lane × Bool) → Type 0
KeepsView finalizer =
    (l : Lane) → IsValid l → (m : Lane) × (finalizer l ≡ (m, true)) × IsValid m × (view m ≡ view l)

abbrev activating : View
activating = record { count = 1; inactive = false; needs_activation = false }

abbrev pub running : View
running = record { count = 0; inactive = false; needs_activation = false }

settled-restart : (d : Load) → settled (restart d) ≡ true
settled-restart d = ground arith

module _ (n : ℕ) (finalizer : Lane → Lane × Bool) (r : Resumer) (k : KeepsView finalizer) where
  -- Step 3 of an activation.
  finish_lem :
      (m : Lane)
      → IsValid m
      → view m ≡ activating
      → let o = (finalizer m).0 in
        (finish_activation (lane_resume (suc n) finalizer r) (finalizer m)
          ≡ lane_resume (suc n) finalizer r o)
        × Kept r.tid (lane_resume (suc n) finalizer r o) (running, restart (load o.dq_state))
  finish_lem m w e =
      let (o, f, u, same) = k m w in
      let c : resume_view r.is_source (load o.dq_state) (view o)
          ≡ (running, restart (load o.dq_state)) =
        ap (resume_view r.is_source (load o.dq_state)) (same ∙ e) in
      let (a, b, d, y) =
        lane_resume-Kept n finalizer r o u
          (ap (λ (x : View × Effect). settled x.1) c ∙ settled-restart (load o.dq_state)) in
      rw f
        (refl, (a, b ∙ ap (λ (x : View × Effect). x.0) c, d ∙ ap (λ (x : View × Effect). x.1) c, y))

  -- An activate that no other thread disturbs, of a valid inactive queue without suspensions, runs the
  -- finalizer on the queue with a suspension in place of the activation, and its result is that of a resume
  -- of what the finalizer leaves: the queue is active, with count 0, and it is woken up, or left to those
  -- who hold all of its width and marked as dirty; no fuel runs out. The finalizer keeps the counts and lets
  -- the queue resume.
  pub lane_activate-releases :
      (l : Lane)
      → IsValid l
      → dq_state_is_inactive l.dq_state ≡ true
      → suspend_count l ≡ 0
      → let m : Lane = record l {
        dq_state = l.dq_state - inactive - needs_activation + suspend_interval;
      } in
        let o = (finalizer m).0 in
        (lane_activate (suc n) finalizer r l ≡ lane_resume (suc n) finalizer r o)
        × Kept r.tid (lane_activate (suc n) finalizer r l) (running, restart (load o.dq_state))
  unfolding lane_activate
  lane_activate-releases l v i z =
      let c : activate_view (view l) ≡ (activating, activates) = ground arith in
      let (w, e, f, y) = activate_pass_lem r.tid l v in
      let b : l.dq_state / 2 ^ 56 % 2 ≡ 1 = ground arith in
      let a = activation_starts l v (omega arith) in
      let g =
        follow-activation (leave slow) (leave again)
          (λ m. finish_activation (lane_resume (suc n) finalizer r) (finalizer m)) (activate_pass l)
          (f ∙ ap (λ (x : View × Effect). x.1) c) in
      let (x, h) = finish_lem (activate_pass l).0 w (e ∙ ap (λ (x : View × Effect). x.0) c) in
      rw⁻¹ a (rw g (rw x (refl, h)))

  -- The last resume of a valid queue that was activated while it was suspended ends in the same way.
  pub lane_resume-activates :
      (l : Lane)
      → IsValid l
      → resume_view r.is_source (load l.dq_state) (view l) ≡ (activating, activates)
      → (m : Lane) × (view m ≡ activating)
        × (lane_resume (suc (suc n)) finalizer r l
            ≡ lane_resume (suc n) finalizer r (finalizer m).0)
        × Kept r.tid
            (lane_resume (suc (suc n)) finalizer r l)
            (running, restart (load (finalizer m).0.dq_state))
  unfolding lane_resume
  lane_resume-activates l v c =
      let (x, e, (w, i, f, y)) = answered_slow r l v in
      let h : Lane → Lane × Next =
        λ m. finish_activation (lane_resume (suc n) finalizer r) (finalizer m) in
      let g =
        ap (follow (leave slow) (lane_resume (suc n) finalizer r) h) e
        ∙ follow-activation (leave slow) (lane_resume (suc n) finalizer r) h x
            (f ∙ ap (λ (x : View × Effect). x.1) c) in
      let starts = i ∙ ap (λ (x : View × Effect). x.0) c in
      let (q, p) = finish_lem x.0 w starts in (x.0, starts, g ∙ q, rw (g ∙ q) p)

settled-end : (d : Load) (b : Bool) → settled (if b then restart d else quiet) ≡ true
settled-end d true = settled-restart d
settled-end d false = refl

-- The contract of resume after a suspend
resume_view-suspended :
    (b : Bool) (d : Load) (l : Lane)
    → IsValid l
    → resume_view b d (suspended (view l)) ≡ (
      view l,
      if suspend_count l == 0 && not (dq_state_is_inactive l.dq_state) then restart d else quiet,
    )
resume_view-suspended b d l v = elim (ℕ_discrete (suspend_count l) 0) [
  | yes z ↦ elim (ℕ_discrete (l.dq_state / 2 ^ 56 % 2) 1) [
    | yes i ↦ ground arith
    | no i ↦ ground arith
  ]
  | no z ↦ ground arith
]

-- A suspend and a resume that no other thread disturbs give back the count and the activation of a
-- valid queue, also where the count goes to the side and comes back. Exactly where it was neither suspended
-- nor inactive before, the queue then runs again: it is woken up for its QoS, or, if all of its width is
-- taken, left to those who have it and marked as dirty.
pub lane_resume-lane_suspend :
    (n : ℕ) (finalizer : Lane → Lane × Bool) (r : Resumer) (l : Lane)
    → IsValid l
    → l.side_suspend_cnt + 32 < 2 ^ 32
    → Kept r.tid (lane_resume (suc n) finalizer r (lane_suspend (suc n) l).0) (
      view l,
      if suspend_count l == 0 && not (dq_state_is_inactive l.dq_state)
          then restart (load l.dq_state)
          else quiet,
    )
lane_resume-lane_suspend n finalizer r l v room =
    let (d, w, e, low) = lane_suspend-counts n l v room in
    let same =
      ap (λ (d : Load). resume_view r.is_source d (view (lane_suspend (suc n) l).0)) low
      ∙ ap (resume_view r.is_source (load l.dq_state)) e
      ∙ resume_view-suspended r.is_source (load l.dq_state) l v in
    let (a, b, c, y) = lane_resume-Kept n finalizer r (lane_suspend (suc n) l).0 w (
      ap (λ (x : View × Effect). settled x.1) same
      ∙ settled-end (load l.dq_state)
          (suspend_count l == 0 && not (dq_state_is_inactive l.dq_state))) in
    (a, b ∙ ap (λ (x : View × Effect). x.0) same, c ∙ ap (λ (x : View × Effect). x.1) same, y)
