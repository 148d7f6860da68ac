-- ===== src/Group/Safety.antt =====
-- What the invariant of the group gives its clients (src/semaphore.c).
use swift_corelibs_libdispat.Common.{
  ℕ, ◌+◌, ◌*◌, ◌%◌, ◌/◌, ◌^◌, ◌≤◌, ◌<◌, ◌≡◌, ◌≢◌, refl, arith, Bool, true, false, List, [], ◌∷◌,
  ◌++◌, length, total, total_middle,
}
use swift_corelibs_libdispat.Common.Bits.{test_bit}
use swift_corelibs_libdispat.Group.{
  Group, Pc, idle, waking, waiting, proceed, blocked, step, System, Reach, dg_state_value,
  dispose_crashes,
}
use swift_corelibs_libdispat.Group.Invariant.{Reach-Inv, owns, holds, clears, some_notify, entered}

-- A thread that has something left to do for the group.
abbrev pub works : Pc → ℕ
works idle = 0
works (waiting _) = 0
works _ = 1

module _ (v w : Pc → ℕ) (under : (p : Pc) → w p ≡ 0 → v p ≡ 0) where
  total-zero : (ps : List Pc) → total w ps ≡ 0 → total v ps ≡ 0
  total-zero [] h = refl
  total-zero (p ∷ ps) h =
      omega (arith, under p (omega (arith, h)), total-zero ps (omega (arith, h)))

owns-works : (p : Pc) → works p ≡ 0 → owns p ≡ 0
owns-works idle h = refl
owns-works (waiting _) h = refl
owns-works p h = ground arith

holds-works : (p : Pc) → works p ≡ 0 → holds p ≡ 0
holds-works idle h = refl
holds-works (waiting _) h = refl
holds-works p h = ground arith

clears-works : (p : Pc) → works p ≡ 0 → clears p ≡ 0
unfolding clears
clears-works idle h = refl
clears-works (waiting _) h = refl
clears-works p h = ground arith

-- Every notification is submitted once: those that were submitted and those still in the list are as
-- many as were pushed.
pub submits_once :
    {count n : ℕ} {s : System}
    → count ≤ 1
    → Reach count n s
    → s.submitted + length s.group.dg_notify ≡ s.notified
submits_once h r = (Reach-Inv h r).balance

by_list :
    (s r o : ℕ) (l : List ℕ) (b : Bool)
    → (test_bit 1 o ≡ true → 0 < some_notify l)
    → step proceed (record { dg_state = s; dg_notify = l; refs = r }) (waking o b) ≢ blocked
unfolding step
by_list s r o [] b h e = ground arith
by_list s r o (x ∷ xs) b h e = ground arith

-- A thread in `_dispatch_group_wake` finds a notification in the list wherever it is told that there
-- are some: it never waits for the snapshot.
pub wake_finds_notifications :
    {count n m f : ℕ} {g : Group} (before after : List Pc) (o : ℕ) (b : Bool)
    → count ≤ 1
    → Reach count n
        (record { group = g; threads = before ++ waking o b ∷ after; notified = m; submitted = f })
    → step proceed g (waking o b) ≢ blocked
wake_finds_notifications {g} before after o b h r =
    by_list g.dg_state g.refs o g.dg_notify b
      (λ e. ground (arith, (Reach-Inv h r).one_owner, total_middle owns before after (waking o b)))

at_zero :
    (s r owners holders : ℕ) (l : List ℕ)
    → dg_state_value s ≡ 0
    → owners ≡ 0
    → holders ≡ 0
    → s / 2 % 2 + owners ≡ some_notify l
    → r ≡ entered s + s / 2 % 2 + holders
    → s % 4 ≤ 3 * (s % 2 ^ 32 / 4)
    → (dispose_crashes s ≡ false) × (length l ≡ 0) × (r ≡ 0)
unfolding dg_state_value dispose_crashes
at_zero s r owners holders [] z o k p q f = (ground arith, refl, ground arith)
at_zero s r owners holders (x ∷ xs) z o k p q f = absurd (ground arith)

-- No waiter flag and no notification is forgotten: where the group's value is 0 and no thread has
-- something left to do for it, both flags are clear, so that it can be disposed of, the list of
-- notifications is empty, and the group holds no reference on itself.
pub clean_at_rest :
    {count n : ℕ} {s : System}
    → count ≤ 1
    → Reach count n s
    → dg_state_value s.group.dg_state ≡ 0
    → total works s.threads ≡ 0
    → (dispose_crashes s.group.dg_state ≡ false)
      × (length s.group.dg_notify ≡ 0)
      × (s.group.refs ≡ 0)
clean_at_rest {s} h r z t =
    let i = Reach-Inv h r in
    at_zero s.group.dg_state s.group.refs (total owns s.threads) (total holds s.threads)
      s.group.dg_notify z (total-zero owns works owns-works s.threads t)
      (total-zero holds works holds-works s.threads t) i.one_owner i.references
      (omega (arith, i.flags, total-zero clears works clears-works s.threads t))
