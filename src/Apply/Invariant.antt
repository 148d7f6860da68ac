-- ===== src/Apply/Invariant.antt =====
-- The invariant of the threads of dispatch_apply (src/apply.c).
use swift_corelibs_libdispat.Common.{
  ℕ, ◌+◌, ◌^◌, ◌≤◌, ◌<◌, ◌≡◌, inl, inr, refl, sym, ap, ◌∙◌, subst, arith, Bool, true, List, ◌∷◌,
  ◌++◌, total, total_middle, total-le, All, All-split,
}
use swift_corelibs_libdispat.Apply.{Pc, step, Thread, ran, signalled, freed, System, waiter}
use swift_corelibs_libdispat.Apply.Counts.{
  late_pc, pending_pc, in_call_pc, signaller_pc, waker_pc, sleeper_pc, user_pc, releaser_pc,
  waited_pc, past_pc, of_waiter, At, late, pending, in_call, signaller, waker, sleeper, user,
  releaser, waited, past, late-le, user-le, waited-le, past-le, sleeper-le,
}
use swift_corelibs_libdispat.Apply.Outcome.{Outcome}
use swift_corelibs_libdispat.Apply.Account.{Account, AccountAfter, step-Account}
use swift_corelibs_libdispat.Apply.Users.{Users, UsersAfter, step-Users}
use swift_corelibs_libdispat.Apply.Event.{Event, EventAfter, EventWoken}
use swift_corelibs_libdispat.Apply.EventSteps.{step-Event}
use swift_corelibs_libdispat.Apply.Runs.{RunsOk, RunsAfter, step-Runs}

abbrev pub each : Thread → ℕ
each t = 1

abbrev pub Fit : Thread → Type 0
Fit t = At t.waits t.pc

abbrev pub holds : ℕ → Thread → ℕ
holds i t = ran t.pc i

pub record Inv (s : System) : Type 0 where
  pub small : s.shared.iterations + total each s.threads < 2 ^ 64
  pub few : total each s.threads < 2 ^ 31
  pub one : total waiter s.threads ≡ 1
  pub fit : All Fit s.threads
  pub account :
      Account s.shared s.signals
        (total late s.threads)
        (total pending s.threads)
        (total in_call s.threads)
        (total signaller s.threads)
  pub users : Users s.shared s.frees (total user s.threads) (total releaser s.threads)
  pub event :
      Event s.shared s.signals
        (total waited s.threads)
        (total past s.threads)
        (total sleeper s.threads)
        (total waker s.threads)
  pub runs : (i : ℕ) → RunsOk i s.shared (s.runs i) (total (holds i) s.threads)

-- The same statement of other numbers
pub same_4 :
    (P : ℕ → ℕ → ℕ → ℕ → Type 0) {a b c d a' b' c' d' : ℕ}
    → a ≡ a'
    → b ≡ b'
    → c ≡ c'
    → d ≡ d'
    → P a b c d
    → P a' b' c' d'
same_4 P e f g h x = rw (sym e, sym f, sym g, sym h) x

pub same_2 : (P : ℕ → ℕ → Type 0) {a b a' b' : ℕ} → a ≡ a' → b ≡ b' → P a b → P a' b'
same_2 P e f x = rw (sym e, sym f) x

module _ (s : System) (before after : List Thread) (w : Bool) (p : Pc) (v : Inv s)
    (here_is : s.threads ≡ before ++ record { waits = w; pc = p } ∷ after) where
  abbrev pub me : Pc → Thread
  me q = record { waits = w; pc = q }

  abbrev pub others : (Thread → ℕ) → ℕ
  others f = total f before + total f after

  pub count : (f : Thread → ℕ) → total f s.threads ≡ others f + f (me p)
  count f = ap (total f) here_is ∙ total_middle f before after (me p)

  pub fits : All Fit before × At w p × All Fit after
  fits = All-split Fit before after (me p) (subst (All Fit) here_is v.fit)

  Account-me :
      Account s.shared s.signals
        (others late + late_pc p)
        (others pending + pending_pc p)
        (others in_call + in_call_pc p)
        (others signaller + signaller_pc p)
  Account-me =
      same_4 (Account s.shared s.signals) (count late) (count pending) (count in_call)
        (count signaller) v.account

  Users-me : Users s.shared s.frees (others user + user_pc p) (others releaser + releaser_pc p)
  Users-me = same_2 (Users s.shared s.frees) (count user) (count releaser) v.users

  event_me :
      Event s.shared s.signals
        (others waited + of_waiter w (waited_pc p))
        (others past + of_waiter w (past_pc p))
        (others sleeper + sleeper_pc p)
        (others waker + waker_pc p)
  event_me =
      same_4 (Event s.shared s.signals) (count waited) (count past) (count sleeper) (count waker)
        v.event

  -- A count of the others is at most another one.
  others-le : (f g : Thread → ℕ) → ((t : Thread) → Fit t → f t ≤ g t) → others f ≤ others g
  others-le f g h = omega (arith, total-le Fit f g h before fits.0, total-le Fit f g h after fits.2)

  pub late_few : others late ≤ others each
  late_few = others-le late each (λ t f. late-le t.pc)

  pub user_few : others user ≤ others each
  user_few = others-le user each (λ t f. user-le t.pc)

  no_other_waiter : w ≡ true → others waiter ≡ 0
  no_other_waiter e = let mine : waiter (me p) ≡ 1 = rw e refl in omega (arith, v.one, count waiter)

  event_others :
      (w ≡ true → others waited ≡ 0)
      × (others sleeper ≤ others waited)
      × (others past ≤ others waited)
  event_others = (
    λ e. omega (arith, no_other_waiter e, others-le waited waiter (λ t f. waited-le t.waits t.pc)),
    others-le sleeper waited (λ t f. sleeper-le t.waits t.pc f),
    others-le past waited (λ t f. past-le t.waits t.pc),
  )

  none_signalled : signaller_pc p ≡ 1 → s.signals ≡ 0
  none_signalled e = elim Account-me.signal [ inl (x, y) ↦ omega arith | inr (x, y) ↦ omega arith ]

  no_wrap : late_pc p ≡ 0 → s.shared.index + 1 < 2 ^ 64
  no_wrap e = omega (arith, Account-me.bound, v.small, count each, late_few)

  pub step_account :
      Outcome
        (AccountAfter w s.shared s.signals
          (others late)
          (others pending)
          (others in_call)
          (others signaller)
          (others each)
          late_few
          (omega (arith, v.small, count each))
          (signalled p))
        (AccountAfter w s.shared s.signals
          (others late)
          (others pending)
          (others in_call)
          (others signaller)
          (others each)
          late_few
          (omega (arith, v.small, count each))
          (signalled p))
        Unit
        (step w s.shared p)
  step_account =
      step-Account w s.shared s.signals (others late) (others pending) (others in_call)
        (others signaller) (others each) late_few (omega (arith, v.small, count each)) p fits.1
        Account-me

  pub step_users :
      Outcome
        (UsersAfter w s.shared s.frees
          (others user)
          (others releaser)
          (others each)
          user_few
          (omega (arith, v.few, count each))
          (freed p))
        (UsersAfter w s.shared s.frees
          (others user)
          (others releaser)
          (others each)
          user_few
          (omega (arith, v.few, count each))
          (freed p))
        Unit
        (step w s.shared p)
  step_users =
      step-Users w s.shared s.frees (others user) (others releaser) (others each) user_few
        (omega (arith, v.few, count each)) p Users-me

  pub step_runs :
      (i : ℕ)
      → Outcome
          (RunsAfter w s.shared i (s.runs i) (others (holds i)) (ran p i))
          (RunsAfter w s.shared i (s.runs i) (others (holds i)) (ran p i))
          Unit
          (step w s.shared p)
  step_runs i =
      step-Runs w s.shared i (s.runs i) (others (holds i)) p no_wrap
        (subst (RunsOk i s.shared (s.runs i)) (count (holds i)) (v.runs i))

  pub step_event :
      Outcome
        (EventAfter w s.shared s.signals
          (others waited)
          (others past)
          (others sleeper)
          (others waker)
          (signalled p))
        (EventWoken w s.shared s.signals
          (others waited)
          (others past)
          (others sleeper)
          (others waker)
          (signalled p))
        ⊥
        (step w s.shared p)
  step_event =
      step-Event w s.shared s.signals (others waited) (others past) (others sleeper) (others waker)
        event_others p fits.1 none_signalled event_me
