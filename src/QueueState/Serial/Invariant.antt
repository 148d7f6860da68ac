-- ===== src/QueueState/Serial/Invariant.antt =====
-- The invariant of a serial queue's life (src/queue.c, src/inline_internal.h).
use swift_corelibs_libdispat.Common.{ℕ, ◌+◌, ◌<◌, ◌≡◌, refl, arith, true, false}
use swift_corelibs_libdispat.Common.Bits.{field}
use swift_corelibs_libdispat.QueueState.{suspend_interval}
use swift_corelibs_libdispat.QueueState.Serial.{
  Drainer, none_draining, invoking, draining, popping, unlocking, finishing, in_sync,
  sync_unlocking, completing, handing_over, SerialQueue, create,
}
use swift_corelibs_libdispat.QueueState.Serial.Words.{Free, Held, serial_owned}

-- Without the lock, and with that of dispatch_sync or of a resume, which leave the enqueued bit alone, the
-- target queue has the queue if the bit is set.
pub record AtRest (s on_target : ℕ) : Type 0 where
  pub free : Free s
  pub on_target_once : on_target ≡ field 31 1 s

pub record InSync (s on_target : ℕ) : Type 0 where
  pub held : Held s
  pub on_target_once : on_target ≡ field 31 1 s

-- With a drainer, which has dequeued it and owns the bit, the target queue has it no more.
pub record Drained (owned s on_target : ℕ) : Type 0 where
  pub held : Held s
  pub serial : owned ≡ serial_owned
  pub enqueued : field 31 1 s ≡ 1
  pub off_target : on_target ≡ 0

-- What the unlock of a queue that was found empty has to see: unless the queue is suspended, an item comes
-- with the dirty bit or with a wakeup.
abbrev pub Noticed : SerialQueue → Type 0
Noticed l =
    l.dq_state < suspend_interval → 0 < l.items → 0 < field 39 1 l.dq_state + (l.pushing + l.waking)

-- Somebody sees to the items of a queue that is not suspended when nobody drains it.
abbrev pub Served : SerialQueue → Type 0
Served l = l.dq_state < suspend_interval → 0 < l.items → 0 < l.on_target + (l.pushing + l.waking)

abbrev pub Place : Drainer → SerialQueue → Type 0
Place none_draining l = AtRest l.dq_state l.on_target × Served l
Place (invoking owned) l = Drained owned l.dq_state l.on_target
Place (draining owned) l = Drained owned l.dq_state l.on_target
Place (popping owned) l = Drained owned l.dq_state l.on_target
Place (unlocking owned) l = Drained owned l.dq_state l.on_target × Noticed l
Place (finishing owned) l = Drained owned l.dq_state l.on_target
Place in_sync l = InSync l.dq_state l.on_target
Place sync_unlocking l = InSync l.dq_state l.on_target × Noticed l
Place (completing qos) l = InSync l.dq_state l.on_target × (qos < 8)
Place (handing_over qos true) l = InSync l.dq_state l.on_target × (qos < 8)
Place (handing_over qos false) l = InSync l.dq_state l.on_target × (qos < 8) × Noticed l

pub record Inv (l : SerialQueue) : Type 0 where
  pub alone : l.clash ≡ false
  pub place : Place l.drainer l

pub create-Inv : (role : ℕ) → role < 2 → Inv (create role)
create-Inv role h = record {
  alone = refl;
  place = (
    record {
      free = record {
        width = omega arith;
        owner = omega arith;
        fits = omega arith;
        serial = (omega arith, omega arith);
      };
      on_target_once = omega arith;
    },
    λ k h. h,
  );
}
