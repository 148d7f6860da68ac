-- ===== src/Suspend/Passes.antt =====
-- The suspend count that a lane stands for (src/queue.c), and the passes of `_dispatch_lane_suspend` on it.
use swift_corelibs_libdispat.Common.{
  ℕ, ◌+◌, ◌-◌, ◌*◌, ◌/◌, ◌%◌, ◌^◌, ◌≤◌, ◌<◌, ◌≡◌, ◌⊎◌, inl, inr, refl, arith, Bool, true, false,
  leb, ltb, ◌==◌, if◌then◌else◌, some, dec_lt, ap, ◌∙◌,
}
use swift_corelibs_libdispat.Common.Bits.{test_bit}
use swift_corelibs_libdispat.QueueState.{
  suspend_interval, dq_state_is_suspended, dq_state_is_inactive, dq_state_needs_activation,
}
use swift_corelibs_libdispat.Suspend.{
  Lane, done, slow, again, client_crash, suspend_pass, suspend_slow, suspend_delta,
  try_inactive_suspend,
}

-- The whole suspend count.
abbrev pub suspend_count : Lane → ℕ
suspend_count l = l.dq_state / 2 ^ 58 + l.side_suspend_cnt

-- What the callers of suspend, resume and activate see.
pub record View : Type 0 where
  pub count : ℕ
  pub inactive : Bool
  pub needs_activation : Bool

abbrev pub view : Lane → View
view l = record {
  count = suspend_count l;
  inactive = dq_state_is_inactive l.dq_state;
  needs_activation = dq_state_needs_activation l.dq_state;
}

-- The state is a uint64_t and the side count a uint32_t, a multiple of the half that moves, which is 0
-- exactly where its bit is clear. An inactive queue needs activation, and a queue that needs activation
-- is inactive or suspended. Two references are held exactly while the queue is suspended or inactive.
abbrev pub IsValid : Lane → Type 0
IsValid l =
    (l.dq_state < 2 ^ 64)
    × (l.side_suspend_cnt < 2 ^ 32)
    × (l.side_suspend_cnt % 32 ≡ 0)
    × (l.dq_state / 2 ^ 57 % 2 ≤ l.side_suspend_cnt)
    × (l.side_suspend_cnt ≤ l.dq_state / 2 ^ 57 % 2 * 2 ^ 32)
    × (l.dq_state / 2 ^ 56 % 2 ≤ l.dq_state / 2 ^ 55 % 2)
    × (l.dq_state / 2 ^ 55 % 2 ≤ l.dq_state / 2 ^ 56 % 2 + suspend_count l)
    × (l.retained ≡ (if dq_state_is_suspended l.dq_state then 2 else 0))

-- One more suspension.
abbrev pub suspended : View → View
suspended v = record v { count = v.count + 1 }

module _ (l m : Lane) (n : ℕ) where
  pub view_eq :
      suspend_count m ≡ n
      → m.dq_state / 2 ^ 56 % 2 ≡ l.dq_state / 2 ^ 56 % 2
      → m.dq_state / 2 ^ 55 % 2 ≡ l.dq_state / 2 ^ 55 % 2
      → view m ≡ record (view l) { count = n }
  view_eq c i a =
      ap
        (λ (k : ℕ). record {
          count = k;
          inactive = test_bit 56 m.dq_state;
          needs_activation = test_bit 55 m.dq_state;
        })
        c
      ∙ ap
          (λ (k : ℕ). record {
            count = n;
            inactive = k == 1;
            needs_activation = test_bit 55 m.dq_state;
          })
          i
      ∙ ap
          (λ (k : ℕ). record {
            count = n;
            inactive = test_bit 56 l.dq_state;
            needs_activation = k == 1;
          })
          a

-- The references of a valid lane
retained_eq :
    (l : Lane)
    → IsValid l
    → (if dq_state_is_suspended l.dq_state then l.retained else l.retained + 2) ≡ 2
retained_eq l v = ground arith

pub IsValid_intro :
    (m : Lane)
    → m.dq_state < 2 ^ 64
    → m.side_suspend_cnt < 2 ^ 32
    → m.side_suspend_cnt % 32 ≡ 0
    → m.dq_state / 2 ^ 57 % 2 ≤ m.side_suspend_cnt
    → m.side_suspend_cnt ≤ m.dq_state / 2 ^ 57 % 2 * 2 ^ 32
    → m.dq_state / 2 ^ 56 % 2 ≤ m.dq_state / 2 ^ 55 % 2
    → m.dq_state / 2 ^ 55 % 2 ≤ m.dq_state / 2 ^ 56 % 2 + suspend_count m
    → m.retained ≡ (if dq_state_is_suspended m.dq_state then 2 else 0)
    → IsValid m
IsValid_intro m a b c d e f g h = (a, b, c, d, e, f, g, h)

-- A lane that holds its references, and is suspended.
pub retained_2 :
    (m : Lane)
    → m.retained ≡ 2
    → 2 ^ 55 ≤ m.dq_state
    → m.retained ≡ (if dq_state_is_suspended m.dq_state then 2 else 0)
retained_2 m r h = ground arith

-- The loop of suspend on any valid lane, as another thread may have left it: it adds one to the count and
-- returns, or else the inline count is full, and nothing changes.
pub suspend_pass_lem :
    (l : Lane)
    → IsValid l
    → ((suspend_pass l).1 ≡ done)
        × IsValid (suspend_pass l).0
        × (view (suspend_pass l).0 ≡ suspended (view l))
      ⊎ (suspend_pass l ≡ (l, slow)) × (l.dq_state / 2 ^ 58 ≡ 63)
unfolding suspend_pass
suspend_pass_lem l v = elim (dec_lt (l.dq_state + suspend_interval) (2 ^ 64)) [
  | yes p ↦
      let t : leb (2 ^ 64) (l.dq_state + suspend_interval) ≡ false = ground arith in
      let m : Lane = record {
        dq_state = l.dq_state + suspend_interval;
        side_suspend_cnt = l.side_suspend_cnt;
        retained = if dq_state_is_suspended l.dq_state then l.retained else l.retained + 2;
      } in
      inl (
        rw t (
          refl,
          (
            omega arith,
            omega arith,
            omega arith,
            omega arith,
            omega arith,
            omega arith,
            omega arith,
            retained_2 m (retained_eq l v) (omega arith),
          ),
          view_eq l m (suspend_count l + 1) (omega arith) (omega arith) (omega arith),
        ))
  | no p ↦
      let t : leb (2 ^ 64) (l.dq_state + suspend_interval) ≡ true = ground arith in
      inr (rw t refl, omega arith)
]

pub retained_of : (l : Lane) → IsValid l → 2 ^ 55 ≤ l.dq_state → l.retained ≡ 2
retained_of l v h = ground arith

-- The slow path of suspend on any valid lane with room in the side count: it adds one to the count, or
-- else other threads have resumed the queue meanwhile, and it retries with nothing changed.
pub suspend_slow_lem :
    (l : Lane)
    → IsValid l
    → l.side_suspend_cnt + 32 < 2 ^ 32
    → ((suspend_slow l).1 ≡ done)
        × IsValid (suspend_slow l).0
        × (view (suspend_slow l).0 ≡ suspended (view l))
      ⊎ (suspend_slow l ≡ (l, again)) × (l.dq_state / 2 ^ 58 < 31)
unfolding suspend_slow
suspend_slow_lem l v room =
    let u : leb (2 ^ 32) (l.side_suspend_cnt + 32) ≡ false = ground arith in
    let d = suspend_delta l.side_suspend_cnt in
    let e : d + 2 ^ 57 ≡ 31 * 2 ^ 58 + l.dq_state / 2 ^ 57 % 2 * 2 ^ 57 = ground arith in
    elim (dec_lt l.dq_state d) [
      | yes p ↦ let t : ltb l.dq_state d ≡ true = ground arith in inr (rw t refl, omega arith)
      | no p ↦
          let t : ltb l.dq_state d ≡ false = ground arith in
          let m : Lane = record {
            dq_state = l.dq_state - d;
            side_suspend_cnt = l.side_suspend_cnt + 32;
            retained = l.retained;
          } in
          inl (
            rw (t, u)
              (
                refl,
                (
                  omega arith,
                  omega arith,
                  omega arith,
                  omega arith,
                  omega arith,
                  omega arith,
                  omega arith,
                  retained_2 m (retained_of l v (omega arith)) (omega arith),
                ),
                view_eq l m (suspend_count l + 1) (omega arith) (omega arith) (omega arith),
              ))
    ]

-- The slow path of suspend on a valid lane whose side count has no room, if there is half of the inline
-- count to move: it crashes.
pub suspend_slow-crashes :
    (l : Lane)
    → IsValid l
    → 2 ^ 32 ≤ l.side_suspend_cnt + 32
    → 31 ≤ l.dq_state / 2 ^ 58
    → (suspend_slow l).1 ≡ client_crash
unfolding suspend_slow
suspend_slow-crashes l v full half =
    let u : leb (2 ^ 32) (l.side_suspend_cnt + 32) ≡ true = ground arith in
    let d = suspend_delta l.side_suspend_cnt in
    let e : d ≡ 31 * 2 ^ 58 = ground arith in
    let t : ltb l.dq_state d ≡ false = ground arith in rw (t, u) refl

-- A property setter suspends a valid inactive lane: where the inline count is below 63 and nothing is
-- in the side count, the count is one higher.
pub try_inactive_suspend_lem :
    (l : Lane)
    → IsValid l
    → dq_state_is_inactive l.dq_state ≡ true
    → l.side_suspend_cnt ≡ 0
    → l.dq_state / 2 ^ 58 < 63
    → (m : Lane) × (try_inactive_suspend l ≡ some (m, done))
      × IsValid m
      × (view m ≡ suspended (view l))
unfolding try_inactive_suspend
try_inactive_suspend_lem l v i z few =
    let j : l.dq_state / 2 ^ 56 % 2 ≡ 1 = ground arith in
    let a : leb (2 ^ 55) l.dq_state ≡ true = ground arith in
    let b : test_bit 57 l.dq_state ≡ false = ground arith in
    let w : (l.dq_state + 2 ^ 58) % 2 ^ 64 ≡ l.dq_state + 2 ^ 58 = omega arith in
    let m : Lane = record l { dq_state = l.dq_state + 2 ^ 58 } in
    (
      m,
      rw (i, a, b, w) refl,
      (
        omega arith,
        omega arith,
        omega arith,
        omega arith,
        omega arith,
        omega arith,
        omega arith,
        retained_2 m (retained_of l v (omega arith)) (omega arith),
      ),
      view_eq l m (suspend_count l + 1) (omega arith) (omega arith) (omega arith),
    )

-- A property setter suspends a valid inactive lane with 63 counts, all inline: it does not crash, and
-- the count wraps to 0.
pub try_inactive_suspend-wraps :
    (l : Lane)
    → IsValid l
    → dq_state_is_inactive l.dq_state ≡ true
    → l.side_suspend_cnt ≡ 0
    → l.dq_state / 2 ^ 58 ≡ 63
    → (m : Lane) × (try_inactive_suspend l ≡ some (m, done)) × (suspend_count m ≡ 0)
unfolding try_inactive_suspend
try_inactive_suspend-wraps l v i z full =
    let j : l.dq_state / 2 ^ 56 % 2 ≡ 1 = ground arith in
    let a : leb (2 ^ 55) l.dq_state ≡ true = ground arith in
    let b : test_bit 57 l.dq_state ≡ false = ground arith in
    (record l { dq_state = (l.dq_state + 2 ^ 58) % 2 ^ 64 }, rw (i, a, b) refl, omega arith)
