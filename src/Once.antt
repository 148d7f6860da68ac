-- ===== src/Once.antt =====
-- src/once.c, src/shims/lock.h and src/shims/lock.c: `dispatch_once_f`, as steps of any number of calls
-- on one predicate, each step one shared access. The predicate is a gate: 0 before the first call, the
-- lock value of the thread that runs the function, perhaps with the waiters bit, and then ~0. The futex
-- is that of Linux: a wait sleeps only if the word still has the value that is expected, a wake wakes
-- all that sleep, and a sleeper may wake up for no reason. A nested call is a call of the same thread.
mod Places
mod Steps
mod Invariant
mod Safety
mod Tests
use swift_corelibs_libdispat.Common.{
  ℕ, zero, suc, ◌+◌, ◌-◌, ◌*◌, ◌/◌, ◌%◌, ◌^◌, ◌≤◌, ◌<◌, ◌≡◌, Bool, true, false, not, ◌==◌,
  if◌then◌else◌, List, [], ◌∷◌, ◌++◌, map,
}
use swift_corelibs_libdispat.Common.Bits.{field, set_bit}

-- DLOCK_ONCE_DONE
abbrev pub once_done : ℕ
once_done = 2 ^ 64 - 1

-- `_dispatch_lock_is_locked_by`, of the lower 32 bits of the word
abbrev pub is_locked_by : ℕ → ℕ → Bool
is_locked_by v self = field 0 30 v == field 0 30 self

-- Where a call stands.
pub data Pc : Type 0 where
  idle : Pc  -- not yet made
  entering : Pc  -- at `_dispatch_once_gate_tryenter`
  running : Pc  -- in `_dispatch_client_callout`
  broadcasting : (cur : ℕ) → Pc  -- at `_dispatch_gate_broadcast_slow`
  waiting : Pc  -- at the loop of `_dispatch_once_wait`
  at_futex : (new_v : ℕ) → Pc  -- at its `_dispatch_futex_wait`
  asleep : Pc  -- in the system call
  returned : Pc

-- What the call leaves in the word, whether it wakes the sleepers, and where it goes on.
pub data Next : Type 0 where
  next : (v : ℕ) (p : Pc) → Next
  wake_all : (p : Pc) → Next
  client_crash blocked : Next

-- The body of the loop of `_dispatch_once_wait`, up to the futex
pub once_wait : ℕ → ℕ → Next
once_wait self v =
    if v == once_done
    then next v returned
    else (if is_locked_by v self
        then client_crash
        else next (set_bit 31 v) (at_futex (set_bit 31 v)))

-- `_dispatch_once_gate_broadcast`
pub once_gate_broadcast : ℕ → ℕ → Next
once_gate_broadcast self v =
    next once_done (if v % 2 ^ 32 == self then returned else broadcasting v)

-- `_dispatch_gate_broadcast_slow`
pub gate_broadcast_slow : ℕ → ℕ → Next
gate_broadcast_slow self cur = if is_locked_by cur self then wake_all returned else client_crash

-- One step of a call of the thread with the lock value `self`.
pub step : ℕ → ℕ → Pc → Next
unfolding once_wait once_gate_broadcast gate_broadcast_slow
step self v idle = next v (if v == once_done then returned else entering)
step self v entering = if v == 0 then next self running else next v waiting
step self v running = once_gate_broadcast self v
step self v (broadcasting cur) = gate_broadcast_slow self cur
step self v waiting = once_wait self v
step self v (at_futex new_v) = next v (if v % 2 ^ 32 == new_v % 2 ^ 32 then asleep else waiting)
step self v asleep = next v waiting
step self v returned = blocked

pub record Call : Type 0 where
  pub self : ℕ
  pub pc : Pc

abbrev pub woken_pc : Pc → Pc
woken_pc asleep = waiting
woken_pc p = p

-- A sleeper that is woken goes on at the loop.
abbrev pub woken : Call → Call
woken c = record c { pc = woken_pc c.pc }

-- The function has started once more.
abbrev pub starts : Pc → ℕ
starts running = 1
starts _ = 0

pub record System : Type 0 where
  pub word : ℕ
  pub calls : List Call
  pub runs : ℕ

-- One of the calls takes a step.
pub data Step (before after : List Call) (v n self : ℕ) (p : Pc) : System → Type 0 where
  take :
      {v' : ℕ} {p' : Pc}
      → step self v p ≡ next v' p'
      → Step before after v n self p (record {
        word = v';
        calls = before ++ record { self = self; pc = p' } ∷ after;
        runs = n + starts p';
      })
  wake :
      {p' : Pc}
      → step self v p ≡ wake_all p'
      → Step before after v n self p (record {
        word = v;
        calls = map woken before ++ record { self = self; pc = p' } ∷ map woken after;
        runs = n;
      })

-- `_dispatch_lock_value_for_self` is not 0, and below FUTEX_WAITERS and the bit before it.
abbrev pub AreNew : List Call → Type 0
AreNew [] = Unit
AreNew (c ∷ cs) = (0 < c.self) × (c.self < 2 ^ 30) × (c.pc ≡ idle) × AreNew cs

-- The states that calls on a new predicate reach.
pub data Reach : System → Type 0 where
  here : (calls : List Call) → AreNew calls → Reach (record { word = 0; calls = calls; runs = 0 })
  later :
      {before after : List Call} {v n self : ℕ} {p : Pc} {t : System}
      → Reach
          (record { word = v; calls = before ++ record { self = self; pc = p } ∷ after; runs = n })
      → Step before after v n self p t
      → Reach t
