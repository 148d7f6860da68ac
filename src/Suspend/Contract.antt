-- ===== src/Suspend/Contract.antt =====
-- What `_dispatch_lane_resume` (src/queue.c) promises about the suspend count, and what each of its
-- branches does to a lane.
use swift_corelibs_libdispat.Common.{
  ℕ, ◌+◌, ◌-◌, ◌/◌, ◌%◌, ◌^◌, ◌≤◌, ◌<◌, ◌≡◌, ◌≢◌, arith, Bool, leb, true, false, not, ◌&&◌, ◌||◌,
  ◌==◌, if◌then◌else◌,
}
use swift_corelibs_libdispat.Common.Bits.{field, test_bit}
use swift_corelibs_libdispat.Suspend.{
  Lane, Next, done, slow, again, activation, release_2, client_crash, wakeup, Resumer, resumed,
  resume_end,
}
use swift_corelibs_libdispat.Suspend.Passes.{
  suspend_count, View, view, IsValid, view_eq, retained_2, retained_of,
}

-- What a call promises about a queue: nothing more to do, that the activation runs, that the queue is
-- woken up for the QoS, that it is left to the threads that hold its width, or a crash; `pending` is no
-- answer yet.
pub data Effect : Type 0 where
  quiet activates leaves refused pending : Effect
  wakes : (qos : ℕ) → Effect

abbrev pub effect : Next → Effect
effect done = quiet
effect slow = pending
effect again = pending
effect activation = activates
effect release_2 = leaves
effect client_crash = refused
effect (wakeup qos barrier_complete) = wakes qos

-- What a state says beside the suspension: whether all of the width is taken, and the QoS.
pub record Load : Type 0 where
  pub busy : Bool
  pub qos : ℕ

abbrev pub load : ℕ → Load
load s = record { busy = leb (2 ^ 53) (s % 2 ^ 55); qos = field 32 3 s }

-- The end of the last suspension
abbrev pub restart : Load → Effect
restart d = if d.busy then leaves else wakes d.qos

-- What the state has to hold for what follows: a queue is left to those who hold its width as dirty, so that
-- they look at it again, as is one that is woken up while it is drained; one that is woken up to complete
-- a barrier is locked for that by the thread.
abbrev pub prepared : ℕ → ℕ → Next → Bool
prepared tid s release_2 = test_bit 39 s
prepared tid s (wakeup qos true) =
    test_bit 53 s && (test_bit 54 s && (field 0 30 s == field 0 30 tid))
prepared tid s (wakeup qos false) = (field 0 30 s == 0) || test_bit 39 s
prepared tid s _ = true

-- The contract of resume. The last suspension of a queue that still needs activation is kept while
-- the activation runs.
abbrev pub resume_view : Bool → Load → View → View × Effect
resume_view is_source d v =
    if v.count == 0
    then (if is_source && (v.inactive && v.needs_activation)
        then (record { count = 1; inactive = false; needs_activation = false }, activates)
        else (v, refused))
    else (if v.count == 1 && (v.needs_activation && not v.inactive)
        then (record { count = 1; inactive = false; needs_activation = false }, activates)
        else (
          record v { count = v.count - 1 },
          if v.count == 1 && not (v.needs_activation || v.inactive) then restart d else quiet,
        ))

-- The contract of activate.
abbrev pub activate_view : View → View × Effect
activate_view v =
    if v.inactive
    then (if v.count == 0
        then (record { count = 1; inactive = false; needs_activation = false }, activates)
        else (record v { inactive = false }, quiet))
    else (v, quiet)

-- The pass has kept the lane valid and the contract, and the state is prepared for what follows.
abbrev pub Kept : ℕ → Lane × Next → View × Effect → Type 0
Kept tid (l, next) (v, e) =
    IsValid l × (view l ≡ v) × (effect next ≡ e) × (prepared tid l.dq_state next ≡ true)

pub resumed_high : (r : Resumer) (n : ℕ) → n < 2 ^ 64 → resumed r n / 2 ^ 55 ≡ n / 2 ^ 55
unfolding resumed
resumed_high r n h = ground arith

pub resume_end-done :
    (activate : Bool) (s new : ℕ)
    → s / 2 ^ 55 % 2 ≡ new / 2 ^ 55 % 2
    → 2 ^ 55 ≤ new
    → resume_end activate s new ≡ done
unfolding resume_end
resume_end-done activate s new a b = ground arith

pub resume_end-activation :
    (activate : Bool) (s new : ℕ)
    → s / 2 ^ 55 % 2 ≡ 1
    → new / 2 ^ 55 % 2 ≡ 0
    → resume_end activate s new ≡ activation
unfolding resume_end
resume_end-activation activate s new a b = ground arith

pub view_all :
    (m : Lane) (n : ℕ) (i a : Bool)
    → suspend_count m ≡ n
    → test_bit 56 m.dq_state ≡ i
    → test_bit 55 m.dq_state ≡ a
    → view m ≡ record { count = n; inactive = i; needs_activation = a }
view_all m n i a c d e = cc

-- A lane whose activation is about to run: one suspension, held inline.
pub activation_state :
    (l : Lane) (new : ℕ)
    → IsValid l
    → l.side_suspend_cnt ≡ 0
    → 2 ^ 55 ≤ l.dq_state
    → new / 2 ^ 55 ≡ 8
    → let m : Lane = record l { dq_state = new } in
      IsValid m × (view m ≡ record { count = 1; inactive = false; needs_activation = false })
activation_state l new v z h e =
    let m : Lane = record l { dq_state = new } in
    (
      (
        omega arith,
        omega arith,
        omega arith,
        omega arith,
        omega arith,
        omega arith,
        omega arith,
        retained_2 m (retained_of l v h) (omega arith),
      ),
      view_all m 1 false false (omega arith) (ground arith) (ground arith),
    )

-- A lane with one inline suspension less, as long as it is suspended or inactive.
pub less_one :
    (l : Lane) (new : ℕ)
    → IsValid l
    → new / 2 ^ 55 + 8 ≡ l.dq_state / 2 ^ 55
    → 2 ^ 55 ≤ new
    → l.dq_state / 2 ^ 55 % 2 ≤ l.dq_state / 2 ^ 56 % 2 + (suspend_count l - 1)
    → let m : Lane = record l { dq_state = new } in
      IsValid m × (view m ≡ record (view l) { count = suspend_count l - 1 })
less_one l new v e h g =
    let m : Lane = record l { dq_state = new } in
    (
      (
        omega arith,
        omega arith,
        omega arith,
        omega arith,
        omega arith,
        omega arith,
        omega arith,
        retained_2 m (retained_of l v (omega arith)) h,
      ),
      view_eq l m (suspend_count l - 1) (omega arith) (omega arith) (omega arith),
    )

-- The last suspension is gone.
pub released :
    (l : Lane) (new : ℕ)
    → IsValid l
    → new < 2 ^ 55
    → l.dq_state / 2 ^ 55 ≡ 8
    → let m : Lane = record l { dq_state = new; retained = l.retained - 2 } in
      IsValid m × (view m ≡ record (view l) { count = suspend_count l - 1 })
released l new v h e =
    let m : Lane = record l { dq_state = new; retained = l.retained - 2 } in
    let r = retained_of l v (omega arith) in
    (
      (
        omega arith,
        omega arith,
        omega arith,
        omega arith,
        omega arith,
        omega arith,
        omega arith,
        ground (arith, r),
      ),
      view_eq l m (suspend_count l - 1) (omega arith) (omega arith) (omega arith),
    )

-- The answer of the contract, where the state decides it.
pub resume_view-last :
    (b : Bool) (d : Load) (l : Lane)
    → l.side_suspend_cnt ≡ 0
    → l.dq_state / 2 ^ 55 ≡ 9
    → resume_view b d (view l)
      ≡ (record { count = 1; inactive = false; needs_activation = false }, activates)
resume_view-last b d l z e = ground arith

pub resume_view-source :
    (b : Bool) (d : Load) (l : Lane)
    → b ≡ true
    → l.side_suspend_cnt ≡ 0
    → l.dq_state / 2 ^ 55 ≡ 3
    → resume_view b d (view l)
      ≡ (record { count = 1; inactive = false; needs_activation = false }, activates)
resume_view-source b d l h z e = ground arith

pub resume_view-restart :
    (b : Bool) (d : Load) (l : Lane)
    → l.side_suspend_cnt ≡ 0
    → l.dq_state / 2 ^ 55 ≡ 8
    → resume_view b d (view l) ≡ (record (view l) { count = suspend_count l - 1 }, restart d)
resume_view-restart b d l z e = ground arith

pub resume_view-quiet :
    (b : Bool) (d : Load) (l : Lane)
    → IsValid l
    → 0 < suspend_count l
    → l.dq_state / 2 ^ 55 ≢ 9
    → l.dq_state / 2 ^ 55 ≢ 8
    → resume_view b d (view l) ≡ (record (view l) { count = suspend_count l - 1 }, quiet)
resume_view-quiet b d l v p x y = ground arith
