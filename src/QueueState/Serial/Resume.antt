-- ===== src/QueueState/Serial/Resume.antt =====
-- How a serial queue's state is suspended and resumed (src/queue.c).
use swift_corelibs_libdispat.Common.{
  dec_lt, ltb, ◌∙◌, ℕ, ◌+◌, ◌-◌, ◌/◌, ◌^◌, ◌≤◌, ◌<◌, ◌≡◌, ◌⊎◌, inl, inr, refl, sym, arith, true,
  false, ◌==◌, if◌then◌else◌, none, some,
}
use swift_corelibs_libdispat.Common.Bits.{field, set_bit}
use swift_corelibs_libdispat.QueueState.{suspend_interval, needs_activation}
use swift_corelibs_libdispat.QueueState.Serial.{serial}
use swift_corelibs_libdispat.QueueState.Serial.Words.{Free, Held}
use swift_corelibs_libdispat.Suspend.{
  done, release_2, wakeup, resume_update, resume_end, resumed, suspend_bits,
}

pub suspend-Free :
    (s : ℕ)
    → Free s
    → s + suspend_interval < 2 ^ 64
    → Free (s + suspend_interval) × (field 31 1 (s + suspend_interval) ≡ field 31 1 s)
suspend-Free s f h = ground arith

pub suspend-Held :
    (s : ℕ)
    → Held s
    → s + suspend_interval < 2 ^ 64
    → Held (s + suspend_interval) × (field 31 1 (s + suspend_interval) ≡ field 31 1 s)
suspend-Held s f h = ground arith

activation_test :
    (s : ℕ) → field 55 3 s ≡ 0 → (suspend_bits s == suspend_interval + needs_activation) ≡ false
activation_test s y = ground arith

-- A resume of a queue that needs no activation
resume_lem :
    (tid s : ℕ)
    → field 55 3 s ≡ 0
    → resume_update (serial tid) s ≡ (
        if ltb s suspend_interval then none else some (resumed (serial tid) (s - suspend_interval)))
unfolding resume_update
resume_lem tid s y = rw (activation_test s y) refl

some_of_resume :
    (tid s new : ℕ)
    → field 55 3 s ≡ 0
    → resume_update (serial tid) s ≡ some new
    → (suspend_interval ≤ s) × (resumed (serial tid) (s - suspend_interval) ≡ new)
some_of_resume tid s new y e = let g = sym (resume_lem tid s y) ∙ e in ground arith

resumed-Dirty : (tid t : ℕ) → 2 ^ 53 ≤ t → resumed (serial tid) t ≡ set_bit 39 t
unfolding resumed
resumed-Dirty tid t h = ground arith

resumed-Locked :
    (tid t : ℕ)
    → 0 < field 0 30 tid
    → Free t
    → t < 2 ^ 53
    → let new = resumed (serial tid) t in
      Held new × (field 31 1 new ≡ field 31 1 t) × (new / 2 ^ 54 ≡ 1)
unfolding resumed
resumed-Locked tid t h f k = ground arith

resume_end_suspended :
    (old new : ℕ)
    → field 55 3 old ≡ 0
    → field 55 3 new ≡ 0
    → suspend_interval ≤ new
    → resume_end false old new ≡ done
unfolding resume_end
resume_end_suspended old new a b h = ground arith

resume_end_locked :
    (old new : ℕ)
    → field 54 4 old ≡ 0
    → new / 2 ^ 54 ≡ 1
    → resume_end false old new ≡ wakeup (field 32 3 old) true
unfolding resume_end
resume_end_locked old new a b = ground arith

resume_end_dirty :
    (old new : ℕ) → field 54 4 old ≡ 1 → new / 2 ^ 54 ≡ 1 → resume_end false old new ≡ release_2
unfolding resume_end
resume_end_dirty old new a b = ground arith

less_suspended-Free :
    (s : ℕ)
    → Free s
    → suspend_interval ≤ s
    → let t = s - suspend_interval in
      Free t
      × (field 31 1 t ≡ field 31 1 s)
      × Free (set_bit 39 t)
      × (field 31 1 (set_bit 39 t) ≡ field 31 1 s)
less_suspended-Free s f h = ground arith

less_suspended-Held :
    (s : ℕ)
    → Held s
    → suspend_interval ≤ s
    → let new = set_bit 39 (s - suspend_interval) in
      Held new × (field 31 1 new ≡ field 31 1 s) × (field 39 1 new ≡ 1)
less_suspended-Held s f h = ground arith

-- The last resume of a queue that is not drained takes the drain lock, and leaves the enqueued bit.
pub resume-Free :
    (tid s new : ℕ)
    → 0 < field 0 30 tid
    → Free s
    → resume_update (serial tid) s ≡ some new
    → (field 31 1 new ≡ field 31 1 s)
      × (Free new × (suspend_interval ≤ new) × (resume_end false s new ≡ done)
          ⊎ Held new × (resume_end false s new ≡ wakeup (field 32 3 s) true))
resume-Free tid s new t f e =
    let u = f.width in
    let (h, g) = some_of_resume tid s new (omega arith) e in
    let (f', b, f'', b') = less_suspended-Free s f h in
    let v = f''.width in
    elim (dec_lt (s - suspend_interval) suspend_interval) [
      | yes k ↦
          let (l, c, i) = resumed-Locked tid (s - suspend_interval) t f' (omega arith) in
          rw⁻¹ g (
            c ∙ b,
            inr (
              l,
              resume_end_locked s (resumed (serial tid) (s - suspend_interval)) (omega arith) i,
            ),
          )
      | no k ↦ rw⁻¹ g (
          rw (resumed-Dirty tid (s - suspend_interval) (omega arith)) (
            b',
            inl (
              f'',
              omega arith,
              resume_end_suspended s (set_bit 39 (s - suspend_interval)) (omega arith) (omega arith)
                  (omega arith),
            ),
          ))
    ]

pub resume-Held :
    (tid s new : ℕ)
    → Held s
    → resume_update (serial tid) s ≡ some new
    → Held new
      × (field 31 1 new ≡ field 31 1 s)
      × (field 39 1 new ≡ 1)
      × ((resume_end false s new ≡ done) ⊎ (resume_end false s new ≡ release_2))
resume-Held tid s new f e =
    let u = f.width in
    let (h, g) = some_of_resume tid s new (omega arith) e in
    let (f'', b', d) = less_suspended-Held s f h in
    let v = f''.width in
    rw⁻¹ g (
      rw (resumed-Dirty tid (s - suspend_interval) (omega arith)) (
        f'',
        b',
        d,
        elim (dec_lt (s - suspend_interval) suspend_interval) [
          | yes k ↦
              inr
                (resume_end_dirty s (set_bit 39 (s - suspend_interval)) (omega arith) (omega arith))
          | no k ↦ inl (
              resume_end_suspended s (set_bit 39 (s - suspend_interval)) (omega arith) (omega arith)
                (omega arith))
        ],
      ))
