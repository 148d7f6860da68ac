-- ===== src/Apply/Counts.antt =====
-- What the invariant of the threads of dispatch_apply (src/apply.c) counts of each thread.
use swift_corelibs_libdispat.Common.{ℕ, ◌≤◌, ◌≡◌, refl, arith, Bool, true, false, if◌then◌else◌}
use swift_corelibs_libdispat.Apply.{
  Pc, out, starting, calling, called, finishing, signalling, waking, awaiting, waiting, at_futex,
  asleep, destroying, leaving, freeing, gone, Thread,
}

-- Has it had an index that is out of range?
abbrev pub late_pc : Pc → ℕ
late_pc starting = 0
late_pc (calling idx done) = 0
late_pc (called done) = 0
late_pc _ = 1

-- The runs that it has not taken off da_todo yet
abbrev pub pending_pc : Pc → ℕ
pending_pc (calling idx done) = done
pending_pc (called done) = done
pending_pc (finishing done) = done
pending_pc _ = 0

abbrev pub in_call_pc : Pc → ℕ
in_call_pc (calling idx done) = 1
in_call_pc _ = 0

abbrev pub signaller_pc : Pc → ℕ
signaller_pc signalling = 1
signaller_pc _ = 0

abbrev pub waker_pc : Pc → ℕ
waker_pc waking = 1
waker_pc _ = 0

abbrev pub sleeper_pc : Pc → ℕ
sleeper_pc asleep = 1
sleeper_pc _ = 0

-- Does it still use the dispatch_apply_t?
abbrev pub user_pc : Pc → ℕ
user_pc freeing = 0
user_pc gone = 0
user_pc _ = 1

abbrev pub releaser_pc : Pc → ℕ
releaser_pc freeing = 1
releaser_pc _ = 0

-- Has it decremented the value of the event?
abbrev pub waited_pc : Pc → ℕ
waited_pc waiting = 1
waited_pc at_futex = 1
waited_pc asleep = 1
waited_pc destroying = 1
waited_pc leaving = 1
waited_pc freeing = 1
waited_pc gone = 1
waited_pc _ = 0

-- Has it returned from the wait?
abbrev pub past_pc : Pc → ℕ
past_pc destroying = 1
past_pc leaving = 1
past_pc freeing = 1
past_pc gone = 1
past_pc _ = 0

abbrev pub of_waiter : Bool → ℕ → ℕ
of_waiter waits n = if waits then n else 0

abbrev pub late : Thread → ℕ
late t = late_pc t.pc

abbrev pub pending : Thread → ℕ
pending t = pending_pc t.pc

abbrev pub in_call : Thread → ℕ
in_call t = in_call_pc t.pc

abbrev pub signaller : Thread → ℕ
signaller t = signaller_pc t.pc

abbrev pub waker : Thread → ℕ
waker t = waker_pc t.pc

abbrev pub sleeper : Thread → ℕ
sleeper t = sleeper_pc t.pc

abbrev pub user : Thread → ℕ
user t = user_pc t.pc

abbrev pub releaser : Thread → ℕ
releaser t = releaser_pc t.pc

abbrev pub waited : Thread → ℕ
waited t = of_waiter t.waits (waited_pc t.pc)

abbrev pub past : Thread → ℕ
past t = of_waiter t.waits (past_pc t.pc)

-- A thread in the loop has run some index, and only the one that waits is at the event.
abbrev pub At : Bool → Pc → Type 0
At w (called done) = 1 ≤ done
At w (finishing done) = 1 ≤ done
At w awaiting = w ≡ true
At w waiting = w ≡ true
At w at_futex = w ≡ true
At w asleep = w ≡ true
At w destroying = w ≡ true
At w _ = Unit

pub out_lem :
    (w : Bool)
    → (late_pc (out w) ≡ 1)
      × (pending_pc (out w) ≡ 0)
      × (in_call_pc (out w) ≡ 0)
      × (signaller_pc (out w) ≡ 0)
out_lem true = (refl, refl, refl, refl)
out_lem false = (refl, refl, refl, refl)

pub late-le : (p : Pc) → late_pc p ≤ 1
late-le starting = omega arith
late-le (calling idx done) = omega arith
late-le (called done) = omega arith
late-le _ = omega arith

pub user-le : (p : Pc) → user_pc p ≤ 1
user-le freeing = omega arith
user-le gone = omega arith
user-le _ = omega arith

waited_pc-le : (p : Pc) → waited_pc p ≤ 1
waited_pc-le waiting = omega arith
waited_pc-le at_futex = omega arith
waited_pc-le asleep = omega arith
waited_pc-le destroying = omega arith
waited_pc-le leaving = omega arith
waited_pc-le freeing = omega arith
waited_pc-le gone = omega arith
waited_pc-le _ = omega arith

past_pc-le : (p : Pc) → past_pc p ≤ waited_pc p
past_pc-le destroying = omega arith
past_pc-le leaving = omega arith
past_pc-le freeing = omega arith
past_pc-le gone = omega arith
past_pc-le _ = omega arith

of_waiter-le : (w : Bool) (a b : ℕ) → a ≤ b → of_waiter w a ≤ of_waiter w b
of_waiter-le true a b h = h
of_waiter-le false a b h = omega arith

pub waited-le : (w : Bool) (p : Pc) → of_waiter w (waited_pc p) ≤ of_waiter w 1
waited-le w p = of_waiter-le w (waited_pc p) 1 (waited_pc-le p)

pub past-le : (w : Bool) (p : Pc) → of_waiter w (past_pc p) ≤ of_waiter w (waited_pc p)
past-le w p = of_waiter-le w (past_pc p) (waited_pc p) (past_pc-le p)

pub sleeper-le : (w : Bool) (p : Pc) → At w p → sleeper_pc p ≤ of_waiter w (waited_pc p)
sleeper-le w asleep a = rw a (omega arith)
sleeper-le w _ a = omega arith
