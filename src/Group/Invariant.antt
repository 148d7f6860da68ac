-- ===== src/Group/Invariant.antt =====
-- The invariant of the group (src/semaphore.c): who is to fire the notifications, who is to clear the
-- flags of an empty group, and which references the group holds on itself.
use swift_corelibs_libdispat.Common.{
  ℕ, ◌+◌, ◌*◌, ◌/◌, ◌%◌, ◌^◌, ◌≤◌, ◌<◌, ◌≡◌, refl, arith, Bool, true, false, ◌==◌, if◌then◌else◌,
  List, [], ◌∷◌, ◌++◌, length, length-append, replicate, total, total_middle, total-replicate,
}
use swift_corelibs_libdispat.Group.{
  Group, value_bits, create_with_count, Pc, idle, notifying, leaving, waking, releasing, waiting,
  Choice, enter, leave, wait, notify, proceed, expire, Event, next, cleared, step, System,
  count_notify, count_fired, Step, take, Reach, here, later,
}

abbrev pub bit : Bool → ℕ
bit true = 1
bit false = 0

-- 1 for a list with an element, and for a group that is entered
abbrev pub some_notify : List ℕ → ℕ
some_notify [] = 0
some_notify (_ ∷ _) = 1

abbrev pub entered : ℕ → ℕ
entered s = if value_bits s == 0 then 0 else 1

-- A thread that is to set DISPATCH_GROUP_HAS_NOTIFS or to fire the notifications.
abbrev pub owns : Pc → ℕ
owns notifying = 1
owns (waking s _) = s / 2 % 2
owns _ = 0

-- The references that a thread is to release, or to hand on with DISPATCH_GROUP_HAS_NOTIFS.
abbrev pub holds : Pc → ℕ
holds notifying = 1
holds (leaving _) = 1
holds (waking s r) = bit r + s / 2 % 2
holds (releasing n) = n
holds _ = 0

-- A thread in the loop of `dispatch_group_leave` that is going to try to clear a flag.
unfoldable pub clears : Pc → ℕ
unfolding cleared
clears (leaving s) = if s == cleared s then 0 else 1
clears _ = 0

pub record Inv (s : System) : Type 0 where
  pub word : s.group.dg_state < 2 ^ 64
  pub one_owner : s.group.dg_state / 2 % 2 + total owns s.threads ≡ some_notify s.group.dg_notify
  pub references :
      s.group.refs ≡ entered s.group.dg_state + s.group.dg_state / 2 % 2 + total holds s.threads
  pub flags : s.group.dg_state % 4 ≤ 3 * (s.group.dg_state % 2 ^ 32 / 4 + total clears s.threads)
  pub balance : s.submitted + length s.group.dg_notify ≡ s.notified

-- What one step changes.
record Change (c : Choice) (g g' : Group) (p p' : Pc) (e : Event) (others : ℕ) : Type 0 where
  word : g'.dg_state < 2 ^ 64
  one_owner :
      g'.dg_state / 2 % 2 + owns p' + some_notify g.dg_notify
      ≡ g.dg_state / 2 % 2 + owns p + some_notify g'.dg_notify
  references :
      g'.refs + entered g.dg_state + g.dg_state / 2 % 2 + holds p
      ≡ g.refs + entered g'.dg_state + g'.dg_state / 2 % 2 + holds p'
  flags : g'.dg_state % 4 ≤ 3 * (g'.dg_state % 2 ^ 32 / 4 + (others + clears p'))
  balance : count_fired e + length g'.dg_notify ≡ length g.dg_notify + count_notify c

module _ (s r others : ℕ) (l : List ℕ) (g' : Group) (p' : Pc) (e : Event) (w : s < 2 ^ 64) where
  step-enter :
      step enter (record { dg_state = s; dg_notify = l; refs = r }) idle ≡ next g' p' e
      → Change enter (record { dg_state = s; dg_notify = l; refs = r }) g' idle p' e others
  unfolding step clears
  step-enter h = ground arith

  step-leave :
      step leave (record { dg_state = s; dg_notify = l; refs = r }) idle ≡ next g' p' e
      → s % 4 ≤ 3 * (s % 2 ^ 32 / 4 + others)
      → Change leave (record { dg_state = s; dg_notify = l; refs = r }) g' idle p' e others
  unfolding step clears
  step-leave h f = ground arith

  step-wait :
      (b : Bool)
      → step (wait b) (record { dg_state = s; dg_notify = l; refs = r }) idle ≡ next g' p' e
      → s % 4 ≤ 3 * (s % 2 ^ 32 / 4 + others)
      → Change (wait b) (record { dg_state = s; dg_notify = l; refs = r }) g' idle p' e others
  unfolding step clears
  step-wait b h f = ground arith

  step-round :
      (o : ℕ)
      → step proceed (record { dg_state = s; dg_notify = l; refs = r }) (leaving o) ≡ next g' p' e
      → s % 4 ≤ 3 * (s % 2 ^ 32 / 4 + (others + clears (leaving o)))
      → Change proceed (record { dg_state = s; dg_notify = l; refs = r }) g' (leaving o) p' e others
  unfolding step clears
  step-round o h f = ground arith

  step-notifying :
      step proceed (record { dg_state = s; dg_notify = l; refs = r }) notifying ≡ next g' p' e
      → s % 4 ≤ 3 * (s % 2 ^ 32 / 4 + others)
      → s / 2 % 2 ≡ 0
      → Change proceed (record { dg_state = s; dg_notify = l; refs = r }) g' notifying p' e others
  unfolding step clears
  step-notifying h f o = ground arith

  step-releasing :
      (n : ℕ)
      → step proceed (record { dg_state = s; dg_notify = l; refs = r }) (releasing n) ≡ next g' p' e
      → s % 4 ≤ 3 * (s % 2 ^ 32 / 4 + others)
      → n ≤ r
      → Change proceed
          (record { dg_state = s; dg_notify = l; refs = r })
          g'
          (releasing n)
          p'
          e
          others
  unfolding step clears
  step-releasing n h f m = ground arith

  step-waiting :
      (n : ℕ)
      → step proceed (record { dg_state = s; dg_notify = l; refs = r }) (waiting n) ≡ next g' p' e
      → s % 4 ≤ 3 * (s % 2 ^ 32 / 4 + others)
      → Change proceed (record { dg_state = s; dg_notify = l; refs = r }) g' (waiting n) p' e others
  unfolding step clears
  step-waiting n h f = ground arith

  step-expire :
      (n : ℕ)
      → step expire (record { dg_state = s; dg_notify = l; refs = r }) (waiting n) ≡ next g' p' e
      → s % 4 ≤ 3 * (s % 2 ^ 32 / 4 + others)
      → Change expire (record { dg_state = s; dg_notify = l; refs = r }) g' (waiting n) p' e others
  unfolding step clears
  step-expire n h f = ground arith

step-waking :
    (s r others o : ℕ) (b : Bool) (l : List ℕ) (g' : Group) (p' : Pc) (e : Event)
    → s < 2 ^ 64
    → step proceed (record { dg_state = s; dg_notify = l; refs = r }) (waking o b) ≡ next g' p' e
    → s % 4 ≤ 3 * (s % 2 ^ 32 / 4 + others)
    → Change proceed (record { dg_state = s; dg_notify = l; refs = r }) g' (waking o b) p' e others
unfolding step clears
step-waking s r others o b [] g' p' e w h f = ground arith
step-waking s r others o b (x ∷ xs) g' p' e w h f = ground arith

step-push :
    (s r others n : ℕ) (l : List ℕ) (g' : Group) (p' : Pc) (e : Event)
    → s < 2 ^ 64
    → step (notify n) (record { dg_state = s; dg_notify = l; refs = r }) idle ≡ next g' p' e
    → s % 4 ≤ 3 * (s % 2 ^ 32 / 4 + others)
    → Change (notify n) (record { dg_state = s; dg_notify = l; refs = r }) g' idle p' e others
unfolding step clears
step-push s r others n [] g' p' e w h f = ground arith
step-push s r others n (x ∷ xs) g' p' e w h f = ground (arith, length-append xs (n ∷ []))

step-Change :
    (c : Choice) (s r others : ℕ) (l : List ℕ) (g' : Group) (p p' : Pc) (e : Event)
    → s < 2 ^ 64
    → step c (record { dg_state = s; dg_notify = l; refs = r }) p ≡ next g' p' e
    → s % 4 ≤ 3 * (s % 2 ^ 32 / 4 + (others + clears p))
    → (0 < owns p → s / 2 % 2 ≡ 0)
    → holds p ≤ r
    → Change c (record { dg_state = s; dg_notify = l; refs = r }) g' p p' e others
unfolding clears step
step-Change enter s r k l g' idle p' e w h f o m = step-enter s r k l g' p' e w h
step-Change leave s r k l g' idle p' e w h f o m = step-leave s r k l g' p' e w h (omega arith)
step-Change (wait b) s r k l g' idle p' e w h f o m = step-wait s r k l g' p' e w b h (omega arith)
step-Change (notify n) s r k l g' idle p' e w h f o m =
    step-push s r k n l g' p' e w h (omega arith)
step-Change proceed s r k l g' notifying p' e w h f o m =
    step-notifying s r k l g' p' e w h (omega arith) (o (omega arith))
step-Change proceed s r k l g' (leaving x) p' e w h f o m = step-round s r k l g' p' e w x h f
step-Change proceed s r k l g' (waking x b) p' e w h f o m =
    step-waking s r k x b l g' p' e w h (omega arith)
step-Change proceed s r k l g' (releasing n) p' e w h f o m =
    step-releasing s r k l g' p' e w n h (omega arith) m
step-Change proceed s r k l g' (waiting n) p' e w h f o m =
    step-waiting s r k l g' p' e w n h (omega arith)
step-Change expire s r k l g' (waiting n) p' e w h f o m =
    step-expire s r k l g' p' e w n h (omega arith)
step-Change c s r k l g' p p' e w h f o m = ground arith

module _ (before after : List Pc) where
  Change-Inv :
      {n f : ℕ} {g g' : Group} {p p' : Pc} {c : Choice} {e : Event}
      → Change c g g' p p' e (total clears before + total clears after)
      → Inv (record { group = g; threads = before ++ p ∷ after; notified = n; submitted = f })
      → Inv (record {
        group = g';
        threads = before ++ p' ∷ after;
        notified = n + count_notify c;
        submitted = f + count_fired e;
      })
  Change-Inv {p} {p'} c i = record {
    word = c.word;
    one_owner = omega (
      arith,
      c.one_owner,
      i.one_owner,
      total_middle owns before after p,
      total_middle owns before after p',
    );
    references = omega (
      arith,
      c.references,
      i.references,
      total_middle holds before after p,
      total_middle holds before after p',
    );
    flags = omega (arith, c.flags, total_middle clears before after p');
    balance = omega (arith, c.balance, i.balance);
  }

some_notify-le-one : (l : List ℕ) → some_notify l ≤ 1
some_notify-le-one [] = omega arith
some_notify-le-one (_ ∷ _) = omega arith

-- A step of any thread keeps the invariant.
Step-Inv :
    {n f : ℕ} {before after : List Pc} {g : Group} {p : Pc} {t : System}
    → Inv (record { group = g; threads = before ++ p ∷ after; notified = n; submitted = f })
    → Step before after n f g p t
    → Inv t
Step-Inv {before} {after} {g} {p} i (take c {g'} {p'} {e} h) =
    Change-Inv before after
      (step-Change c g.dg_state g.refs (total clears before + total clears after) g.dg_notify g' p
        p' e i.word h (omega (arith, i.flags, total_middle clears before after p))
        (λ o.
          omega (
            arith,
            o,
            i.one_owner,
            some_notify-le-one g.dg_notify,
            total_middle owns before after p,
          ))
        (omega (arith, i.references, total_middle holds before after p)))
      i

Inv-start :
    (count n : ℕ)
    → count ≤ 1
    → Inv (record {
      group = create_with_count count;
      threads = replicate n idle;
      notified = 0;
      submitted = 0;
    })
unfolding create_with_count
Inv-start count n h = record {
  word = omega arith;
  one_owner = ground (arith, total-replicate owns n idle refl);
  references = ground (arith, total-replicate holds n idle refl);
  flags = ground arith;
  balance = refl;
}

pub Reach-Inv : {count n : ℕ} {s : System} → count ≤ 1 → Reach count n s → Inv s
Reach-Inv {count} {n} h here = Inv-start count n h
Reach-Inv h (later r st) = Step-Inv (Reach-Inv h r) st
