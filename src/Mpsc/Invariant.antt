-- ===== src/Mpsc/Invariant.antt =====
-- The invariant of the os_mpsc queue (src/inline_internal.h).
use swift_corelibs_libdispat.Common.{
  ℕ, ◌+◌, ◌-◌, ◌≤◌, ◌<◌, ◌≡◌, ◌≢◌, ◌⊎◌, inl, refl, arith, true, false, ◌==◌,
}
use swift_corelibs_libdispat.Mpsc.{
  Producer, idle, swapping, linking, Consumer, resting, getting, popping, storing, emptying,
  awaiting_next, storing_next, System, empty, put,
}

-- The consumer has not got hold of the head.
abbrev pub AtRest : Consumer → Type 0
AtRest resting = Unit
AtRest getting = Unit
AtRest _ = ⊥

-- An item that is to be exchanged is not queued; one that is to be linked follows the item before it,
-- which has no link yet, or is the first one, and the queue has no head yet.
abbrev pub ProducerOk : System → ℕ → Producer → Type 0
ProducerOk s p idle = Unit
ProducerOk s p (swapping item) =
    (item ≢ 0)
    × (s.memory.next item ≡ 0)
    × ((i : ℕ) → s.pops ≤ i → i < s.pushes → s.pushed i ≢ item)
ProducerOk s p (linking prev item number) =
    (s.pops ≤ number)
    × (number < s.pushes)
    × (item ≡ s.pushed number)
    × (s.pusher number ≡ p)
    × ((prev ≡ 0) × (number ≡ s.pops) × (s.memory.head ≡ 0) × AtRest s.consumer
        ⊎ (s.pops < number) × (prev ≡ s.pushed (number - 1)) × (s.memory.next prev ≡ 0))

-- The consumer holds the first item. Where the head is null, the producer of the first item is to set
-- it, or the consumer is.
abbrev pub HeadOk : System → Type 0
HeadOk s =
    (s.memory.head ≡ 0)
      × ((s.pops ≡ s.pushes) ⊎ (s.producers (s.pusher s.pops) ≡ linking 0 (s.pushed s.pops) s.pops))
    ⊎ (s.pops < s.pushes) × (s.memory.head ≡ s.pushed s.pops)

abbrev pub ConsumerOk : System → Consumer → Type 0
ConsumerOk s resting = HeadOk s
ConsumerOk s getting = (s.pops < s.pushes) × HeadOk s
ConsumerOk s (popping item) =
    (s.pops < s.pushes) × (item ≡ s.pushed s.pops) × (s.memory.head ≡ item)
ConsumerOk s (storing item found) =
    (s.pops < s.pushes)
    × (item ≡ s.pushed s.pops)
    × (s.memory.head ≡ item)
    × ((found ≡ 0)
        ⊎ (s.pops + 1 < s.pushes) × (found ≡ s.pushed (s.pops + 1)) × (s.memory.next item ≡ found))
ConsumerOk s (emptying item) = (s.pops < s.pushes) × (item ≡ s.pushed s.pops) × (s.memory.head ≡ 0)
ConsumerOk s (awaiting_next item) =
    (s.pops + 1 < s.pushes) × (item ≡ s.pushed s.pops) × (s.memory.head ≡ 0)
ConsumerOk s (storing_next item found) =
    (s.pops + 1 < s.pushes)
    × (item ≡ s.pushed s.pops)
    × (s.memory.head ≡ 0)
    × (found ≡ s.pushed (s.pops + 1))
    × (s.memory.next item ≡ found)

pub record Inv (s : System) : Type 0 where
  pub counts : s.pops ≤ s.pushes
  pub not_null : (i : ℕ) → s.pops ≤ i → i < s.pushes → s.pushed i ≢ 0
  pub distinct : (i j : ℕ) → s.pops ≤ i → i < j → j < s.pushes → s.pushed i ≢ s.pushed j
  pub tail_null : s.pops ≡ s.pushes → s.memory.tail ≡ 0
  pub tail_last : s.pops < s.pushes → s.memory.tail ≡ s.pushed (s.pushes - 1)
  pub last_link : s.pops < s.pushes → s.memory.next (s.pushed (s.pushes - 1)) ≡ 0
  pub links :
      (i : ℕ)
      → s.pops ≤ i
      → i + 1 < s.pushes
      → (s.memory.next (s.pushed i) ≡ s.pushed (i + 1))
        ⊎ (s.memory.next (s.pushed i) ≡ 0)
          × (s.producers (s.pusher (i + 1)) ≡ linking (s.pushed i) (s.pushed (i + 1)) (i + 1))
  pub producers : (p : ℕ) → ProducerOk s p (s.producers p)
  pub claims :
      (p q item other : ℕ)
      → s.producers p ≡ swapping item
      → s.producers q ≡ swapping other
      → p ≢ q
      → item ≢ other
  pub consumer : ConsumerOk s s.consumer
  pub history : (i : ℕ) → i < s.pops → s.popped i ≡ s.pushed i

pub empty-Inv : Inv empty
empty-Inv = record {
  counts = omega arith;
  not_null = λ i a b. absurd (omega arith);
  distinct = λ i j a b c. absurd (omega arith);
  tail_null = λ e. refl;
  tail_last = λ h. absurd (omega arith);
  last_link = λ h. absurd (omega arith);
  links = λ i a b. absurd (omega arith);
  producers = λ p. tt;
  claims = λ p q item other e f n. cc;
  consumer = inl (refl, inl refl);
  history = λ i h. absurd (omega arith);
}

pub put-at : (p q : ℕ) (a : Producer) (producers : ℕ → Producer) → q ≡ p → put p a producers q ≡ a
put-at p q a producers n = let e : (q == p) ≡ true = ground arith in rw e refl

abbrev pub item_of : Producer → ℕ
item_of idle = 0
item_of (swapping item) = item
item_of (linking prev item number) = item

abbrev pub number_of : Producer → ℕ
number_of (linking prev item number) = number
number_of _ = 0

pub put-else :
    (p q : ℕ) (a : Producer) (producers : ℕ → Producer) → q ≢ p → put p a producers q ≡ producers q
put-else p q a producers n = let e : (q == p) ≡ false = ground arith in rw e refl
