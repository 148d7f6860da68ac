-- ===== src/TimerHeap/Contents/Filled.antt =====
-- When one of the two heaps of timers is in order and every timer in it knows its index, and how sifting a
-- timer into a slot brings that about (src/event/event.c).
use swift_corelibs_libdispat.Common.{
  ℕ, suc, ◌+◌, ◌%◌, ◌^◌, ◌≤◌, ◌<◌, ◌≡◌, ◌≢◌, refl, sym, ap, ◌∙◌, arith, zero, dec_lt,
}
use swift_corelibs_libdispat.TimerHeap.{parent}
use swift_corelibs_libdispat.TimerHeap.Index.{parent_lem}
use swift_corelibs_libdispat.TimerHeap.Sift.{Timers, resift}
use swift_corelibs_libdispat.TimerHeap.Sift.Up.{InHeap, Ordered, keys}
use swift_corelibs_libdispat.TimerHeap.Sift.Order.{resift-Ordered}
use swift_corelibs_libdispat.TimerHeap.Sift.Moves.{resift-Tracked}
use swift_corelibs_libdispat.TimerHeap.Sift.Others.{SameHeap}

-- Heap `id` with the first `count` slots is in order, and every timer in it knows its index.
pub record HeapOk (key : ℕ → ℕ → ℕ) (id count : ℕ) (h : Timers) : Type 0 where
  pub ordered : Ordered id count (keys key id h)
  pub known : (i : ℕ) → i < count → i % 2 ≡ id → h.entry (h.slots i) id ≡ i

-- The timer is in heap `id`.
abbrev pub Holds : ℕ → ℕ → ℕ → Timers → Type 0
Holds id count t h = (i : ℕ) × (i < count) × (i % 2 ≡ id) × (h.slots i ≡ t)

-- What the sifting of another heap leaves.
pub HeapOk-same :
    (key : ℕ → ℕ → ℕ) (id count : ℕ) (h r : Timers)
    → count < 2 ^ 31
    → SameHeap id h r
    → HeapOk key id count h
    → HeapOk key id count r
HeapOk-same key id count h r few (a, b) o = record {
  ordered = λ i j.
      let (x, y, z) = parent_lem i j.0 (omega arith) in
      let up = a (parent i) (omega (arith, y, j.2)) in
      let here = a i j.2 in let p = o.ordered i j in rw (up, here) p;
  known = λ i l e. ap (λ (t : ℕ). r.entry t id) (a i e) ∙ b (h.slots i) ∙ o.known i l e;
}

pub Holds-same :
    (id count t : ℕ) (h r : Timers) → SameHeap id h r → Holds id count t h → Holds id count t r
Holds-same id count t h r (a, b) (i, l, e, s) = (i, l, e, a i e ∙ s)

-- A slot `idx` of heap `id` to fill with the timer `dt`: the others are in order around it, and hold other
-- timers that know their indices.
pub record Gap (key : ℕ → ℕ → ℕ) (id count dt idx : ℕ) (h : Timers) : Type 0 where
  pub inside : idx < count
  pub parity : idx % 2 ≡ id
  pub around :
      (i : ℕ)
      → InHeap id count i
      → i ≢ idx
      → parent i ≢ idx
      → keys key id h (parent i) ≤ keys key id h i
  pub across :
      (i : ℕ)
      → InHeap id count i
      → parent i ≡ idx
      → 2 ≤ idx
      → keys key id h (parent idx) ≤ keys key id h i
  pub tracked :
      (i : ℕ) → i < count → i % 2 ≡ id → i ≢ idx → (h.entry (h.slots i) id ≡ i) × (h.slots i ≢ dt)

pub Gap-fill :
    (key : ℕ → ℕ → ℕ) (id count dt idx : ℕ) (h : Timers)
    → count < 2 ^ 31
    → Gap key id count dt idx h
    → HeapOk key id count (resift key id count dt idx h)
      × Holds id count dt (resift key id count dt idx h)
      × ((i : ℕ)
          → i < count
          → i % 2 ≡ id
          → i ≢ idx
          → Holds id count (h.slots i) (resift key id count dt idx h))
Gap-fill key id count dt idx h few g =
    let (known, others, own) =
      resift-Tracked key id count dt few idx h (g.inside, g.parity)
        (λ i (a, b) n. g.tracked i a b n) in
    (
      record {
        ordered = resift-Ordered key id count dt idx h few g.inside g.parity g.around g.across;
        known = λ i l e. known i (l, e);
      },
      (own.0, own.1.0, own.1.1, own.2),
      λ i l e n. let (j, k, q) = others (h.slots i) (i, (l, e), n, refl) in (j, k.0, k.1, q),
    )

-- An index that a timer knows is its only one.
pub HeapOk-one :
    (key : ℕ → ℕ → ℕ) (id count i t : ℕ) (h : Timers)
    → HeapOk key id count h
    → i < count
    → i % 2 ≡ id
    → h.slots i ≡ t
    → i ≡ h.entry t id
HeapOk-one key id count i t h o l e s = sym (o.known i l e) ∙ ap (λ (u : ℕ). h.entry u id) s

-- The timer of the first slot of a heap in order, which is dth_min, has the least key.
HeapOk-least :
    (key : ℕ → ℕ → ℕ) (id count : ℕ) (h : Timers)
    → HeapOk key id count h
    → count < 2 ^ 31
    → (i : ℕ) → i < count
    → i % 2 ≡ id
    → key id (h.slots id) ≤ key id (h.slots i)
HeapOk-least key id count h o few i l e = least (i + 1) i (omega arith) l e
  where
    least :
        (fuel j : ℕ) → j < fuel → j < count → j % 2 ≡ id → key id (h.slots id) ≤ key id (h.slots j)
    least zero j f a b = absurd (omega arith)
    least (suc fuel) j f a b = elim (dec_lt j 2) [
      | yes small ↦ let here : j ≡ id = omega arith in rw here (omega arith)
      | no large ↦
          let (x, y, z) = parent_lem j (omega (arith, large)) (omega arith) in
          let up = least fuel (parent j) (omega arith) (omega arith) (omega arith) in
          let step = o.ordered j (omega (arith, large), a, b) in omega arith
    ]
