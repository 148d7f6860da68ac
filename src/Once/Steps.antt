-- ===== src/Once/Steps.antt =====
-- What each step of `dispatch_once_f` (src/once.c) does to the word and to the other calls.
use swift_corelibs_libdispat.Common.{
  ℕ, ◌+◌, ◌/◌, ◌%◌, ◌^◌, ◌≤◌, ◌<◌, ◌≡◌, ◌≢◌, ◌⊎◌, inl, inr, refl, subst, arith, true, false, ◌==◌,
  List, total, ℕ_discrete,
}
use swift_corelibs_libdispat.Common.Bits.{set_bit}
use swift_corelibs_libdispat.Once.{
  once_done, Pc, idle, entering, running, broadcasting, waiting, at_futex, asleep, returned, Next,
  next, wake_all, step, once_wait, once_gate_broadcast, gate_broadcast_slow, Call, starts,
}
use swift_corelibs_libdispat.Once.Places.{
  At, AllFit, runner, sleeps, wakes_up, Phase, AllFit-idle, AllFit-all, At-enter, At-done, IsHeld,
  At-wait,
}

-- A step of one call, where `n` runs have started, and `r`, `s` and `b` of the other calls run the
-- function, sleep and are to wake the sleepers: what it does to the invariant.
module _ (v n self r s b : ℕ) where
  pub record Change (v' : ℕ) (p' : Pc) : Type 0 where
    pub phase : Phase v' (n + starts p') (r + starts p')
    pub at : At v' self p'
    pub others : (cs : List Call) → total runner cs ≤ r → AllFit v cs → AllFit v' cs
    pub wakes : (v' ≢ once_done) ⊎ (s + sleeps p' ≡ 0) ⊎ (0 < b + wakes_up p')

  -- Waking the sleepers.
  pub record Woken (p' : Pc) : Type 0 where
    pub phase : Phase v n (r + starts p')
    pub at : At v self p'
    pub awake : sleeps p' ≡ 0

  abbrev pub Outcome : Next → Type 0
  Outcome (next v' p') = Change v' p'
  Outcome (wake_all p') = Woken p'
  Outcome _ = Unit

  Phase-same : (k : ℕ) → k ≡ 0 → Phase v n r → Phase v (n + k) (r + k)
  Phase-same k z f =
      let e : n + k ≡ n = omega arith in let d : r + k ≡ r = omega arith in rw (e, d) f

  stay :
      (p' : Pc)
      → Phase v n r
      → starts p' ≡ 0
      → At v self p'
      → (v ≢ once_done) ⊎ (s + sleeps p' ≡ 0) ⊎ (0 < b + wakes_up p')
      → Change v p'
  stay p' f z a u = record {
    phase = Phase-same (starts p') z f;
    at = a;
    others = λ cs q fit. fit;
    wakes = u;
  }

  enter : 0 < self → self < 2 ^ 30 → Phase v n r → v ≡ 0 → Change self running
  enter p q f z = record {
    phase = inr (inl (omega arith, omega arith, omega arith, omega arith, omega arith));
    at = inl refl;
    others = λ cs few fit.
        AllFit-idle v self
          (λ c fits none_runs. (
            fits.0,
            fits.1,
            At-enter self c.self c.pc fits.0 (subst (λ (k : ℕ). At k c.self c.pc) z fits.2)
                none_runs,
          ))
          cs (omega arith) fit;
    wakes = inl (omega arith);
  }

  finish :
      (p' : Pc)
      → Phase v n (r + 1)
      → starts p' ≡ 0
      → At once_done self p'
      → (s + sleeps p' ≡ 0) ⊎ (0 < b + wakes_up p')
      → Change once_done p'
  finish p' f z a u = record {
    phase = inr (inr (refl, omega arith, omega arith));
    at = a;
    others = λ cs few fit.
        AllFit-idle v once_done
          (λ c fits none_runs. (fits.0, fits.1, At-done v c.self c.pc fits.2 none_runs)) cs
          (omega arith) fit;
    wakes = inr u;
  }

  mark :
      (p' : Pc)
      → IsHeld v
      → Phase v n r
      → starts p' ≡ 0
      → At (set_bit 31 v) self p'
      → Change (set_bit 31 v) p'
  mark p' i f z a = record {
    phase = inr (inl (omega arith, omega arith, omega arith, omega arith, omega arith));
    at = a;
    others = λ cs few fit.
        AllFit-all v (set_bit 31 v)
          (λ c fits. (fits.0, fits.1, At-wait v c.self c.pc i fits.1 fits.2)) cs fit;
    wakes = inl (omega arith);
  }

  keep_wakes : (v ≢ once_done) ⊎ (s ≡ 0) ⊎ (0 < b) → (v ≢ once_done) ⊎ (s + 0 ≡ 0) ⊎ (0 < b + 0)
  keep_wakes (inl h) = inl h
  keep_wakes (inr (inl h)) = inr (inl (omega arith))
  keep_wakes (inr (inr h)) = inr (inr (omega arith))

  test_eq : (x y : ℕ) → x ≡ y → (x == y) ≡ true
  test_eq x y e = ground arith

  test_ne : (x y : ℕ) → x ≢ y → (x == y) ≡ false
  test_ne x y e = ground arith

  step-idle : Phase v n r → (v ≢ once_done) ⊎ (s ≡ 0) ⊎ (0 < b) → Outcome (step self v idle)
  unfolding step
  step-idle f u = elim (ℕ_discrete v once_done) [
    | yes e ↦ rw (test_eq v once_done e) (stay returned f refl e (keep_wakes u))
    | no e ↦ rw (test_ne v once_done e) (stay entering f refl tt (inl e))
  ]

  step-entering :
      0 < self
      → self < 2 ^ 30
      → Phase v n r
      → (v ≢ once_done) ⊎ (s ≡ 0) ⊎ (0 < b)
      → Outcome (step self v entering)
  unfolding step
  step-entering p q f u = elim (ℕ_discrete v 0) [
    | yes e ↦ rw (test_eq v 0 e) (enter p q f e)
    | no e ↦ rw (test_ne v 0 e) (stay waiting f refl (omega arith) (keep_wakes u))
  ]

  step-running :
      0 < self
      → self < 2 ^ 30
      → Phase v n (r + 1)
      → At v self running
      → (v / 2 ^ 31 % 2 ≡ 0 → s ≡ 0)
      → Outcome (step self v running)
  unfolding step once_gate_broadcast
  step-running p q f a none_sleep = elim (ℕ_discrete (v % 2 ^ 32) self) [
    | yes e ↦
        rw (test_eq (v % 2 ^ 32) self e)
          (finish returned f refl refl (inl (omega (arith, none_sleep (omega arith)))))
    | no e ↦
        rw (test_ne (v % 2 ^ 32) self e)
          (finish (broadcasting v) f refl (refl, omega arith) (inr (omega arith)))
  ]

  step-broadcasting :
      (cur : ℕ)
      → self < 2 ^ 30
      → Phase v n r
      → At v self (broadcasting cur)
      → Outcome (step self v (broadcasting cur))
  unfolding step gate_broadcast_slow
  step-broadcasting cur q f a =
      rw (test_eq (cur / 1 % 2 ^ 30) (self / 1 % 2 ^ 30) (omega arith))
        (record { phase = let e : r + 0 ≡ r = omega arith in rw e f; at = a.0; awake = refl })

  step-waiting :
      self < 2 ^ 30
      → Phase v n r
      → At v self waiting
      → (v ≢ once_done) ⊎ (s ≡ 0) ⊎ (0 < b)
      → Outcome (step self v waiting)
  unfolding step once_wait
  step-waiting q f a u = elim (ℕ_discrete v once_done) [
    | yes e ↦ rw (test_eq v once_done e) (stay returned f refl e (keep_wakes u))
    | no e ↦ elim (ℕ_discrete (v / 1 % 2 ^ 30) (self / 1 % 2 ^ 30)) [
      | yes i ↦ rw (test_ne v once_done e, test_eq (v / 1 % 2 ^ 30) (self / 1 % 2 ^ 30) i) tt
      | no i ↦
          rw (test_ne v once_done e, test_ne (v / 1 % 2 ^ 30) (self / 1 % 2 ^ 30) i)
            (mark (at_futex (set_bit 31 v)) (omega arith, omega arith, omega arith) f refl
              (omega arith, omega arith))
    ]
  ]

  step-at_futex :
      (w : ℕ)
      → Phase v n r
      → At v self (at_futex w)
      → (v ≢ once_done) ⊎ (s ≡ 0) ⊎ (0 < b)
      → Outcome (step self v (at_futex w))
  unfolding step
  step-at_futex w f a u = elim (ℕ_discrete (v % 2 ^ 32) (w % 2 ^ 32)) [
    | yes e ↦
        rw (test_eq (v % 2 ^ 32) (w % 2 ^ 32) e)
          (stay asleep f refl (omega arith) (inl (omega arith)))
    | no e ↦ rw (test_ne (v % 2 ^ 32) (w % 2 ^ 32) e) (stay waiting f refl a.0 (keep_wakes u))
  ]

  step-asleep :
      Phase v n r
      → At v self asleep
      → (v ≢ once_done) ⊎ (s + 1 ≡ 0) ⊎ (0 < b + 0)
      → Outcome (step self v asleep)
  unfolding step
  step-asleep f a (inl h) = stay waiting f refl (omega arith) (inl h)
  step-asleep f a (inr (inl h)) = absurd (omega arith)
  step-asleep f a (inr (inr h)) = stay waiting f refl (omega arith) (inr (inr h))

  step-returned : Outcome (step self v returned)
  unfolding step
  step-returned = tt

  less : Phase v n (r + 0) → Phase v n r
  less f = let e : r + 0 ≡ r = omega arith in rw⁻¹ e f

  lose : (v ≢ once_done) ⊎ (s + 0 ≡ 0) ⊎ (0 < b + 0) → (v ≢ once_done) ⊎ (s ≡ 0) ⊎ (0 < b)
  lose (inl h) = inl h
  lose (inr (inl h)) = inr (inl (omega arith))
  lose (inr (inr h)) = inr (inr (omega arith))

  pub step-Outcome :
      (p : Pc)
      → 0 < self
      → self < 2 ^ 30
      → Phase v n (r + starts p)
      → At v self p
      → (v / 2 ^ 31 % 2 ≡ 0 → s ≡ 0)
      → (v ≢ once_done) ⊎ (s + sleeps p ≡ 0) ⊎ (0 < b + wakes_up p)
      → Outcome (step self v p)
  step-Outcome idle p q f a z u = step-idle (less f) (lose u)
  step-Outcome entering p q f a z u = step-entering p q (less f) (lose u)
  step-Outcome running p q f a z u = step-running p q f a z
  step-Outcome (broadcasting cur) p q f a z u = step-broadcasting cur q (less f) a
  step-Outcome waiting p q f a z u = step-waiting q (less f) a (lose u)
  step-Outcome (at_futex w) p q f a z u = step-at_futex w (less f) a (lose u)
  step-Outcome asleep p q f a z u = step-asleep (less f) a u
  step-Outcome returned p q f a z u = step-returned
