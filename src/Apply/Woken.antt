-- ===== src/Apply/Woken.antt =====
-- What the wakeup of the sleeper changes among the threads of dispatch_apply (src/apply.c).
use swift_corelibs_libdispat.Common.{
  ℕ, ◌≡◌, refl, ap, arith, Bool, List, [], ◌∷◌, map, total, total-map, All, All-map,
}
use swift_corelibs_libdispat.Apply.{Pc, asleep, Thread, woken_pc, woken, ran, waiter}
use swift_corelibs_libdispat.Apply.Counts.{
  late_pc, pending_pc, in_call_pc, signaller_pc, waker_pc, sleeper_pc, user_pc, releaser_pc,
  waited_pc, past_pc, of_waiter, At, late, pending, in_call, signaller, waker, sleeper, user,
  releaser, waited, past,
}

-- Every count but that of the sleepers stays.
record SamePc (p q : Pc) : Type 0 where
  late : late_pc q ≡ late_pc p
  pending : pending_pc q ≡ pending_pc p
  in_call : in_call_pc q ≡ in_call_pc p
  signaller : signaller_pc q ≡ signaller_pc p
  waker : waker_pc q ≡ waker_pc p
  user : user_pc q ≡ user_pc p
  releaser : releaser_pc q ≡ releaser_pc p
  waited : waited_pc q ≡ waited_pc p
  past : past_pc q ≡ past_pc p
  ran : (i : ℕ) → ran q i ≡ ran p i

same_pc : (p : Pc) → SamePc p p
same_pc p = record {
  late = refl;
  pending = refl;
  in_call = refl;
  signaller = refl;
  waker = refl;
  user = refl;
  releaser = refl;
  waited = refl;
  past = refl;
  ran = λ i. refl;
}

woken_pc_lem : (p : Pc) → SamePc p (woken_pc p)
woken_pc_lem asleep = record {
  late = refl;
  pending = refl;
  in_call = refl;
  signaller = refl;
  waker = refl;
  user = refl;
  releaser = refl;
  waited = refl;
  past = refl;
  ran = λ i. refl;
}
woken_pc_lem p = same_pc p

woken-awake : (p : Pc) → sleeper_pc (woken_pc p) ≡ 0
woken-awake asleep = refl
woken-awake _ = refl

woken-At : (w : Bool) (p : Pc) → At w p → At w (woken_pc p)
woken-At w asleep a = a
woken-At w p a = a

module _ (ts : List Thread) where
  pub woken-counts :
      (total late (map woken ts) ≡ total late ts)
      × (total pending (map woken ts) ≡ total pending ts)
      × (total in_call (map woken ts) ≡ total in_call ts)
      × (total signaller (map woken ts) ≡ total signaller ts)
  woken-counts = (
    total-map late woken (λ t. (woken_pc_lem t.pc).late) ts,
    total-map pending woken (λ t. (woken_pc_lem t.pc).pending) ts,
    total-map in_call woken (λ t. (woken_pc_lem t.pc).in_call) ts,
    total-map signaller woken (λ t. (woken_pc_lem t.pc).signaller) ts,
  )

  pub woken-users :
      (total user (map woken ts) ≡ total user ts)
      × (total releaser (map woken ts) ≡ total releaser ts)
  woken-users = (
    total-map user woken (λ t. (woken_pc_lem t.pc).user) ts,
    total-map releaser woken (λ t. (woken_pc_lem t.pc).releaser) ts,
  )

  pub woken-event :
      (total waited (map woken ts) ≡ total waited ts)
      × (total past (map woken ts) ≡ total past ts)
      × (total waker (map woken ts) ≡ total waker ts)
  woken-event = (
    total-map waited woken (λ t. ap (of_waiter t.waits) (woken_pc_lem t.pc).waited) ts,
    total-map past woken (λ t. ap (of_waiter t.waits) (woken_pc_lem t.pc).past) ts,
    total-map waker woken (λ t. (woken_pc_lem t.pc).waker) ts,
  )

  pub woken-waiters : total waiter (map woken ts) ≡ total waiter ts
  woken-waiters = total-map waiter woken (λ t. refl) ts

  pub woken-each : total (λ (t : Thread). 1) (map woken ts) ≡ total (λ (t : Thread). 1) ts
  woken-each = total-map (λ (t : Thread). 1) woken (λ t. refl) ts

  pub woken-runs :
      (i : ℕ)
      → total (λ (t : Thread). ran t.pc i) (map woken ts) ≡ total (λ (t : Thread). ran t.pc i) ts
  woken-runs i = total-map (λ (t : Thread). ran t.pc i) woken (λ t. (woken_pc_lem t.pc).ran i) ts

pub woken-sleepers : (ts : List Thread) → total sleeper (map woken ts) ≡ 0
woken-sleepers [] = refl
woken-sleepers (t ∷ ts) = omega (arith, woken-awake t.pc, woken-sleepers ts)

pub woken-fit :
    (ts : List Thread)
    → All (λ (t : Thread). At t.waits t.pc) ts
    → All (λ (t : Thread). At t.waits t.pc) (map woken ts)
woken-fit ts a =
    All-map (λ (t : Thread). At t.waits t.pc) woken (λ t h. woken-At t.waits t.pc h) ts a
