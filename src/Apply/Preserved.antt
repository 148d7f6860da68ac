-- ===== src/Apply/Preserved.antt =====
-- Each step of dispatch_apply's threads keeps the invariant (src/apply.c).
use swift_corelibs_libdispat.Common.{
  ℕ, ◌+◌, ◌≡◌, sym, subst, arith, Bool, List, ◌∷◌, ◌++◌, map, total, total_middle, All, All-join,
}
use swift_corelibs_libdispat.Apply.{
  Shared, Pc, next, wake, step, Thread, woken, ran, signalled, freed, System, counted, Step, goes,
  wakes, waiter,
}
use swift_corelibs_libdispat.Apply.Counts.{
  At, late, pending, in_call, signaller, waker, sleeper, user, releaser, waited, past,
}
use swift_corelibs_libdispat.Apply.Outcome.{Outcome}
use swift_corelibs_libdispat.Apply.Account.{Account}
use swift_corelibs_libdispat.Apply.Users.{Users}
use swift_corelibs_libdispat.Apply.Event.{Event}
use swift_corelibs_libdispat.Apply.Runs.{RunsOk}
use swift_corelibs_libdispat.Apply.Woken.{
  woken-counts, woken-users, woken-event, woken-waiters, woken-each, woken-runs, woken-sleepers,
  woken-fit,
}
use swift_corelibs_libdispat.Apply.Invariant.{
  Inv, Fit, each, holds, same_4, same_2, me, others, count, fits, step_account, step_users,
  step_event, step_runs,
}

module _ (s : System) (before after : List Thread) (w : Bool) (p : Pc) (v : Inv s)
    (here_is : s.threads ≡ before ++ record { waits = w; pc = p } ∷ after) where
  own_count :
      (f : Thread → ℕ)
      → total f s.threads
        ≡ others s before after w p v here_is f + f (me s before after w p v here_is p)
  own_count = count s before after w p v here_is

  own_fits : All Fit before × At w p × All Fit after
  own_fits = fits s before after w p v here_is

  -- The threads after a step that goes to `q`
  abbrev threads_at : Pc → List Thread
  threads_at q = before ++ me s before after w p v here_is q ∷ after

  goes-Inv :
      {m : Shared} {q : Pc} → step w s.shared p ≡ next m q → Inv (counted s p m (threads_at q))
  goes-Inv {m} {q} e =
      let account_at =
        λ (P R : Shared → Pc → Type 0) (F : Type 0) (o : Outcome P R F (step w s.shared p)).
          subst (Outcome P R F) e o in
      let c : (f : Thread → ℕ)
          → (others s before after w p v here_is f) + f (me s before after w p v here_is q)
            ≡ total f (threads_at q) =
        λ f. sym (total_middle f before after (me s before after w p v here_is q)) in
      let (iterations, a) = account_at _ _ _ (step_account s before after w p v here_is) in
      let u = account_at _ _ _ (step_users s before after w p v here_is) in
      let (at, g) = account_at _ _ _ (step_event s before after w p v here_is) in
      record {
        small = omega (arith, v.small, own_count each, c each);
        few = omega (arith, v.few, own_count each, c each);
        one = omega (arith, v.one, own_count waiter, c waiter);
        fit =
            All-join Fit before after (me s before after w p v here_is q) own_fits.0 at own_fits.2;
        account =
            same_4 (Account m (s.signals + signalled p)) (c late) (c pending) (c in_call)
              (c signaller) a;
        users = same_2 (Users m (s.frees + freed p)) (c user) (c releaser) u;
        event =
            same_4 (Event m (s.signals + signalled p)) (c waited) (c past) (c sleeper) (c waker) g;
        runs = λ i.
            let (it, r) = account_at _ _ _ (step_runs s before after w p v here_is i) in
            subst (RunsOk i m (s.runs i + ran p i)) (c (holds i)) r;
      }

  abbrev woken_at : Pc → List Thread
  woken_at q = map woken before ++ me s before after w p v here_is q ∷ map woken after

  wakes-Inv :
      {m : Shared} {q : Pc} → step w s.shared p ≡ wake m q → Inv (counted s p m (woken_at q))
  wakes-Inv {m} {q} e =
      let account_at =
        λ (P R : Shared → Pc → Type 0) (F : Type 0) (o : Outcome P R F (step w s.shared p)).
          subst (Outcome P R F) e o in
      let c : (f : Thread → ℕ)
          → total f (woken_at q)
            ≡ total f (map woken before)
              + total f (map woken after)
              + f (me s before after w p v here_is q) =
        λ f.
          total_middle f (map woken before) (map woken after) (me s before after w p v here_is q) in
      let b = woken-counts before in
      let d = woken-counts after in
      let b' = woken-users before in
      let d' = woken-users after in
      let b'' = woken-event before in
      let d'' = woken-event after in
      let (iterations, a) = account_at _ _ _ (step_account s before after w p v here_is) in
      let u = account_at _ _ _ (step_users s before after w p v here_is) in
      let (at, g) = account_at _ _ _ (step_event s before after w p v here_is) in
      record {
        small = omega (arith, v.small, own_count each, c each, woken-each before, woken-each after);
        few = omega (arith, v.few, own_count each, c each, woken-each before, woken-each after);
        one =
            omega
              (arith, v.one, own_count waiter, c waiter, woken-waiters before, woken-waiters after);
        fit =
            All-join Fit (map woken before) (map woken after) (me s before after w p v here_is q)
              (woken-fit before own_fits.0) at (woken-fit after own_fits.2);
        account =
            same_4 (Account m (s.signals + signalled p)) (omega (arith, c late, b.0, d.0))
              (omega (arith, c pending, b.1, d.1)) (omega (arith, c in_call, b.2, d.2))
              (omega (arith, c signaller, b.3, d.3)) a;
        users =
            same_2 (Users m (s.frees + freed p)) (omega (arith, c user, b'.0, d'.0))
              (omega (arith, c releaser, b'.1, d'.1)) u;
        event =
            same_4 (Event m (s.signals + signalled p)) (omega (arith, c waited, b''.0, d''.0))
              (omega (arith, c past, b''.1, d''.1))
              (omega (arith, c sleeper, woken-sleepers before, woken-sleepers after))
              (omega (arith, c waker, b''.2, d''.2)) g;
        runs = λ i.
            let (it, r) = account_at _ _ _ (step_runs s before after w p v here_is i) in
            subst (RunsOk i m (s.runs i + ran p i))
              (omega (arith, c (holds i), woken-runs before i, woken-runs after i)) r;
      }

  pub Step-Inv : {t : System} → Step s before after w p t → Inv t
  Step-Inv (goes e) = goes-Inv e
  Step-Inv (wakes e) = wakes-Inv e
