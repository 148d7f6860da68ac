-- ===== src/Semaphore/Invariant.antt =====
-- The invariant of the semaphore: the negative part of the counter, the tokens and the signals still
-- to be posted are as many as the threads that wait, and every permit is accounted for.
use swift_corelibs_libdispat.Common.{
  ℕ, ◌+◌, ◌^◌, ◌≤◌, ◌<◌, ◌≡◌, refl, arith, List, ◌∷◌, ◌++◌, length, length-append, length-replicate,
  ◌∙◌, replicate, total, total_middle, total-replicate, total-le-length,
}
use swift_corelibs_libdispat.Common.Int.{ℤ, pos, pos_part, neg_part}
use swift_corelibs_libdispat.Semaphore.{
  Semaphore, Pc, idle, posting, slow, undoing, draining, Choice, signal, Event, next, step, System,
  count_signal, count_acquire, Step, take, Reach, here, later,
}

-- A thread that has decremented the counter and has not returned.
abbrev pub waits : Pc → ℕ
waits (slow _) = 1
waits (undoing _) = 1
waits draining = 1
waits _ = 0

-- A thread that has a token to post.
abbrev pub posts : Pc → ℕ
posts posting = 1
posts _ = 0

pub record Inv (orig n : ℕ) (s : System) : Type 0 where
  pub same_orig : s.shared.orig ≡ orig
  pub range : pos_part s.shared.value < 2 ^ 63
  pub size : length s.threads ≡ n
  pub balance :
      s.shared.tokens + total posts s.threads + neg_part s.shared.value ≡ total waits s.threads
  pub permits :
      pos_part s.shared.value + s.acquires + total waits s.threads
      ≡ orig + s.signals + neg_part s.shared.value

-- What one step changes.
record Change (m m' : Semaphore) (p p' : Pc) (e : Event) : Type 0 where
  same_orig : m'.orig ≡ m.orig
  range : pos_part m'.value < 2 ^ 63
  balance :
      m'.tokens + posts p' + neg_part m'.value + waits p
      ≡ m.tokens + posts p + neg_part m.value + waits p'
  permits :
      pos_part m'.value + count_acquire e + waits p' + neg_part m.value
      ≡ pos_part m.value + count_signal e + waits p + neg_part m'.value

step-Change :
    (c : Choice) (v : ℤ) (o t : ℕ) (m' : Semaphore) (p p' : Pc) (e : Event)
    → step c (record { value = v; orig = o; tokens = t }) p ≡ next m' p' e
    → pos_part v < 2 ^ 63
    → neg_part v < 2 ^ 63
    → Change (record { value = v; orig = o; tokens = t }) m' p p' e
unfolding step
step-Change signal v o t m' idle p' e h r s = ground arith
step-Change c v o t m' p p' e h r s = ground arith

waits-le-one : (p : Pc) → waits p ≤ 1
waits-le-one idle = omega arith
waits-le-one p = omega arith

module _ (before after : List Pc) where
  length_middle : (p p' : Pc) → length (before ++ p ∷ after) ≡ length (before ++ p' ∷ after)
  length_middle p p' =
      omega (arith, length-append before (p ∷ after), length-append before (p' ∷ after))

  Change-Inv :
      {orig n s a : ℕ} {m m' : Semaphore} {p p' : Pc} {e : Event}
      → Change m m' p p' e
      → Inv orig n (record { shared = m; threads = before ++ p ∷ after; signals = s; acquires = a })
      → Inv orig n (record {
        shared = m';
        threads = before ++ p' ∷ after;
        signals = s + count_signal e;
        acquires = a + count_acquire e;
      })
  Change-Inv {p} {p'} c i = record {
    same_orig = c.same_orig ∙ i.same_orig;
    range = c.range;
    size = omega (arith, i.size, length_middle p p');
    balance = omega (
      arith,
      c.balance,
      i.balance,
      total_middle waits before after p,
      total_middle waits before after p',
      total_middle posts before after p,
      total_middle posts before after p',
    );
    permits = omega (
      arith,
      c.permits,
      i.permits,
      total_middle waits before after p,
      total_middle waits before after p',
    );
  }

-- A step of any thread keeps the invariant, with fewer than 2^63 threads.
Step-Inv :
    {orig n s a : ℕ} {before after : List Pc} {m : Semaphore} {p : Pc} {t : System}
    → n < 2 ^ 63
    → Inv orig n (record { shared = m; threads = before ++ p ∷ after; signals = s; acquires = a })
    → Step before after s a m p t
    → Inv orig n t
Step-Inv {before} {after} {m} {p} few i (take c {m'} {p'} {e} h) =
    Change-Inv before after
      (step-Change c m.value m.orig m.tokens m' p p' e h i.range (
        omega (arith, i.balance, i.size, total-le-length waits (before ++ p ∷ after) waits-le-one)))
      i

Inv-start :
    (orig n : ℕ)
    → orig < 2 ^ 63
    → Inv orig n (record {
      shared = record { value = pos orig; orig = orig; tokens = 0 };
      threads = replicate n idle;
      signals = 0;
      acquires = 0;
    })
Inv-start orig n h = record {
  same_orig = refl;
  range = h;
  size = length-replicate n idle;
  balance = omega (arith, total-replicate posts n idle refl, total-replicate waits n idle refl);
  permits = omega (arith, total-replicate waits n idle refl);
}

pub Reach-Inv :
    {orig n : ℕ} {s : System} → orig < 2 ^ 63 → n < 2 ^ 63 → Reach orig n s → Inv orig n s
Reach-Inv {orig} {n} h few here = Inv-start orig n h
Reach-Inv h few (later r st) = Step-Inv few (Reach-Inv h few r) st
