-- ===== src/Semaphore/Safety.antt =====
-- What holds in every state that a semaphore reaches, however its threads interleave.
use swift_corelibs_libdispat.Common.{ℕ, ◌+◌, ◌^◌, ◌≤◌, ◌<◌, ◌≡◌, arith, inl, inr, ◌⊎◌, ltb, total}
use swift_corelibs_libdispat.Common.Int.{ℤ, pos, negsuc, pos_part, neg_part}
use swift_corelibs_libdispat.Semaphore.{Semaphore, System, Reach, dispose_crashes}
use swift_corelibs_libdispat.Semaphore.Invariant.{waits, posts, Reach-Inv}

-- In every reachable state the waits that returned 0 are at most the initial value and the signals
-- together.
acquires-le-permits :
    {orig n : ℕ} {s : System}
    → orig < 2 ^ 63
    → n < 2 ^ 63
    → Reach orig n s
    → s.acquires ≤ orig + s.signals
acquires-le-permits h few r = let i = Reach-Inv h few r in omega (arith, i.balance, i.permits)

by_value :
    (orig : ℕ) (v : ℤ) (tokens posted waiting signals acquires : ℕ)
    → posted ≡ 0
    → tokens ≡ 0
    → tokens + posted + neg_part v ≡ waiting
    → pos_part v + acquires + waiting ≡ orig + signals + neg_part v
    → (waiting ≡ 0) ⊎ ((acquires ≡ orig + signals) × (neg_part v ≡ waiting))
by_value orig (pos k) tokens posted waiting signals acquires p t b q = inl (omega arith)
by_value orig (negsuc k) tokens posted waiting signals acquires p t b q =
    inr (omega arith, omega arith)

-- No wakeup is lost: where no signal is still to be posted and no token is left, either no thread
-- waits, or exactly all permits are taken and the counter is minus the number of those that wait.
pub waits_only_without_permits :
    {orig n : ℕ} {s : System}
    → orig < 2 ^ 63
    → n < 2 ^ 63
    → Reach orig n s
    → total posts s.threads ≡ 0
    → s.shared.tokens ≡ 0
    → (total waits s.threads ≡ 0)
      ⊎ ((s.acquires ≡ orig + s.signals) × (neg_part s.shared.value ≡ total waits s.threads))
waits_only_without_permits {orig} {s} h few r p t =
    by_value orig s.shared.value s.shared.tokens (total posts s.threads) (total waits s.threads)
      s.signals s.acquires p t (Reach-Inv h few r).balance (Reach-Inv h few r).permits

at_rest :
    (orig : ℕ) (m : Semaphore) (signals acquires : ℕ)
    → m.orig ≡ orig
    → neg_part m.value ≡ 0
    → pos_part m.value + acquires ≡ orig + signals
    → dispose_crashes m ≡ ltb signals acquires
unfolding dispose_crashes
at_rest orig m signals acquires e z q = ground arith

-- The semaphore can be disposed of where no thread waits or posts exactly if at least as many
-- signals were counted as waits returned 0; then no token is left.
pub dispose_when_balanced :
    {orig n : ℕ} {s : System}
    → orig < 2 ^ 63
    → n < 2 ^ 63
    → Reach orig n s
    → total waits s.threads ≡ 0
    → (dispose_crashes s.shared ≡ ltb s.signals s.acquires) × (s.shared.tokens ≡ 0)
dispose_when_balanced {orig} {s} h few r w =
    let i = Reach-Inv h few r in
    (
      at_rest orig s.shared s.signals s.acquires i.same_orig (omega (arith, i.balance))
          (omega (arith, i.permits)),
      omega (arith, i.balance),
    )
