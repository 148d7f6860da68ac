-- ===== src/Apply/Users.antt =====
-- Each step of dispatch_apply's threads keeps da_thr_cnt, and the last thread that leaves frees the memory
-- (src/apply.c).
use swift_corelibs_libdispat.Common.{
  ℕ, ◌+◌, ◌-◌, ◌%◌, ◌^◌, ◌≤◌, ◌<◌, ◌≡◌, ◌⊎◌, inl, inr, refl, arith, Bool, true, false, ◌==◌,
  if◌then◌else◌,
}
use swift_corelibs_libdispat.Apply.{
  Shared, Pc, starting, calling, called, finishing, signalling, waking, awaiting, waiting, at_futex,
  asleep, destroying, leaving, freeing, gone, step, out, inc_index, thread_event_signal,
  thread_event_wait, thread_event_wait_slow, thread_event_destroy, freed,
}
use swift_corelibs_libdispat.Apply.Counts.{user_pc, releaser_pc}
use swift_corelibs_libdispat.Apply.Outcome.{Outcome, if_eq, if_lt}

-- With `u` threads that use the memory and `r` about to free it.
pub record Users (m : Shared) (frees u r : ℕ) : Type 0 where
  pub count : m.thr_cnt ≡ u
  pub release : (0 < u) × (frees + r ≡ 0) ⊎ (u ≡ 0) × (frees + r ≡ 1)

module _ (w : Bool) (m : Shared) (frees u r n : ℕ) (few : u ≤ n) (small : n + 1 < 2 ^ 31) where
  abbrev pub UsersAfter : ℕ → Shared → Pc → Type 0
  UsersAfter k m' p' = Users m' (frees + k) (u + user_pc p') (r + releaser_pc p')

  abbrev Before : Pc → Type 0
  Before p = Users m frees (u + user_pc p) (r + releaser_pc p)

  stay :
      (m' : Shared) (p p' : Pc)
      → m'.thr_cnt ≡ m.thr_cnt
      → (user_pc p ≡ 1) × (user_pc p' ≡ 1) × (releaser_pc p ≡ 0) × (releaser_pc p' ≡ 0)
      → Before p
      → UsersAfter 0 m' p'
  stay m' p p' e (f, g, h, k) a = record {
    count = omega (arith, a.count);
    release = elim a.release [
      | inl (x, y) ↦ inl (omega arith, omega arith)
      | inr (x, y) ↦ inr (omega arith, omega arith)
    ];
  }

  -- The steps of a thread that stays
  stay_if :
      (m' : Shared) (p p' q : Pc) (b c : ℕ)
      → m'.thr_cnt ≡ m.thr_cnt
      → (user_pc p ≡ 1) × (user_pc p' ≡ 1) × (releaser_pc p ≡ 0) × (releaser_pc p' ≡ 0)
      → (user_pc q ≡ 1) × (releaser_pc q ≡ 0)
      → Before p
      → UsersAfter 0 m' (if b == c then p' else q)
  stay_if m' p p' q b c e f (g, h) a =
      if_eq (UsersAfter 0 m') b c (λ z. stay m' p p' e f a) (λ z. stay m' p q e (f.0, g, f.2, h) a)

  out_user : (user_pc (out w) ≡ 1) × (releaser_pc (out w) ≡ 0)
  out_user = out_user_lem w
    where
      out_user_lem : (v : Bool) → (user_pc (out v) ≡ 1) × (releaser_pc (out v) ≡ 0)
      out_user_lem true = (refl, refl)
      out_user_lem false = (refl, refl)

  pub step-Users :
      (p : Pc) → Before p → Outcome (UsersAfter (freed p)) (UsersAfter (freed p)) Unit (step w m p)
  unfolding step thread_event_signal thread_event_wait thread_event_wait_slow thread_event_destroy
  step-Users starting a =
      if_lt (UsersAfter 0 (inc_index m)) m.index m.iterations
        (λ h. stay (inc_index m) starting (calling m.index 0) refl (refl, refl, refl, refl) a)
        (λ h. stay (inc_index m) starting (out w) refl (refl, out_user.0, refl, out_user.1) a)
  step-Users (calling idx done) a =
      stay m (calling idx done) (called (done + 1)) refl (refl, refl, refl, refl) a
  step-Users (called done) a =
      if_lt (UsersAfter 0 (inc_index m)) m.index m.iterations
        (λ h.
          stay (inc_index m) (called done) (calling m.index done) refl (refl, refl, refl, refl) a)
        (λ h. stay (inc_index m) (called done) (finishing done) refl (refl, refl, refl, refl) a)
  step-Users (finishing done) a =
      let todo : ℕ = (m.todo + (2 ^ 64 - done)) % 2 ^ 64 in
      stay_if (record m { todo = todo }) (finishing done) signalling (out w) todo 0 refl
        (refl, refl, refl, refl) out_user a
  step-Users signalling a =
      stay_if (record m { dte_value = (m.dte_value + 1) % 2 ^ 32 }) signalling (out w) waking
        m.dte_value 0 refl (refl, out_user.0, refl, out_user.1) (refl, refl) a
  step-Users waking a = stay m waking (out w) refl (refl, out_user.0, refl, out_user.1) a
  step-Users awaiting a =
      let value : ℕ = (m.dte_value + (2 ^ 32 - 1)) % 2 ^ 32 in
      stay_if (record m { dte_value = value }) awaiting destroying waiting value 0 refl
        (refl, refl, refl, refl) (refl, refl) a
  step-Users waiting a =
      if_eq (Outcome (UsersAfter 0) (UsersAfter 0) Unit) m.dte_value 0
        (λ z. stay m waiting destroying refl (refl, refl, refl, refl) a)
        (λ z.
          if_eq (Outcome (UsersAfter 0) (UsersAfter 0) Unit) m.dte_value (2 ^ 32 - 1)
            (λ y. stay m waiting at_futex refl (refl, refl, refl, refl) a) (λ y. tt))
  step-Users at_futex a =
      stay_if m at_futex asleep waiting m.dte_value (2 ^ 32 - 1) refl (refl, refl, refl, refl)
        (refl, refl) a
  step-Users asleep a = stay m asleep waiting refl (refl, refl, refl, refl) a
  step-Users destroying a =
      if_eq (Outcome (UsersAfter 0) (UsersAfter 0) Unit) m.dte_value 0
        (λ z. stay m destroying leaving refl (refl, refl, refl, refl) a) (λ z. tt)
  step-Users leaving a =
      let thr_cnt : ℕ = (m.thr_cnt + (2 ^ 32 - 1)) % 2 ^ 32 in
      let left : thr_cnt ≡ u = omega (arith, a.count) in
      let none_freed : frees + r ≡ 0 = elim a.release [
        | inl (x, y) ↦ omega arith
        | inr (x, y) ↦ absurd (omega arith)
      ] in
      if_eq (UsersAfter 0 (record m { thr_cnt = thr_cnt })) thr_cnt 0
        (λ z. record { count = omega arith; release = inr (omega arith, omega arith) })
        (λ z. record { count = omega arith; release = inl (omega arith, omega arith) })
  step-Users freeing a = record {
    count = omega (arith, a.count);
    release = elim a.release [
      | inl (x, y) ↦ inl (omega arith, omega arith)
      | inr (x, y) ↦ inr (omega arith, omega arith)
    ];
  }
  step-Users gone a = tt
