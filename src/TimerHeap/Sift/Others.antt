-- ===== src/TimerHeap/Sift/Others.antt =====
-- Sifting in one of the two interleaved heaps (src/event/event.c) leaves the other one as it is.
use swift_corelibs_libdispat.Common.{
  ℕ, ◌%◌, ◌^◌, ◌<◌, ◌≡◌, ◌≢◌, inl, inr, refl, sym, ap, ◌∙◌, subst, arith, true, false, ◌==◌,
  Bool-cases, ℕ_discrete,
}
use swift_corelibs_libdispat.TimerHeap.{heap_id}
use swift_corelibs_libdispat.TimerHeap.Sift.{Timers, heap_set, sift_up, sift_down, resift}
use swift_corelibs_libdispat.TimerHeap.Sift.Moves.{
  InSlots, Moves, stay, move, sift_up-Ends, sift_down-Ends, sift_up-still,
}

-- The slots and the indices of heap `id` are the same.
abbrev pub SameHeap : ℕ → Timers → Timers → Type 0
SameHeap id h r =
    ((i : ℕ) → i % 2 ≡ id → r.slots i ≡ h.slots i) × ((t : ℕ) → r.entry t id ≡ h.entry t id)

SameHeap-trans : (id : ℕ) (h r s : Timers) → SameHeap id h r → SameHeap id r s → SameHeap id h s
SameHeap-trans id h r s (a, b) (c, d) = (λ i e. c i e ∙ a i e, λ t. d t ∙ b t)

SameHeap-heap_set : (id idx t : ℕ) (h : Timers) → idx % 2 ≢ id → SameHeap id h (heap_set idx t h)
unfolding heap_set
SameHeap-heap_set id idx t h n = (
  λ i e. let other : (i == idx) ≡ false = ground arith in rw other refl,
  λ u.
      let other : (id == heap_id idx) ≡ false = ground arith in
      elim (Bool-cases (u == t)) [ inl y ↦ rw (y, other) refl | inr m ↦ rw m refl ],
)

-- Sifting moves timers up to some slot, and puts the timer there.
resift-Moves :
    (key : ℕ → ℕ → ℕ) (id count dt : ℕ)
    → count < 2 ^ 31
    → (idx : ℕ) (h : Timers) → InSlots id count dt idx
    → (k : ℕ) × (m : Timers) × Moves id count dt idx h k m
      × InSlots id count dt k
      × (resift key id count dt idx h ≡ heap_set k dt m)
unfolding resift
resift-Moves key id count dt few idx h a =
    let up = sift_up key id count dt 31 idx false h in
    elim (Bool-cases up.sifted_up) [
      | inl moved ↦
          let (m, b) = sift_up-Ends key id count dt few 31 idx false h a in
          (up.idx, up.timers, m, b, rw moved refl)
      | inr still ↦
          let same = sift_up-still key id count dt few 30 idx h still in
          let down = sift_down key id count dt 31 idx h in
          let (m, b) = sift_down-Ends key id count dt few 31 idx h a in
          (
            down.idx,
            down.timers,
            m,
            b,
            rw still (
                ap
                  (λ (o : Timers).
                    heap_set (sift_down key id count dt 31 idx o).idx dt
                      (sift_down key id count dt 31 idx o).timers)
                  same),
          )
    ]

SameHeap-Moves :
    (id other count dt : ℕ) {idx k : ℕ} {h m : Timers}
    → id ≢ other
    → Moves id count dt idx h k m
    → SameHeap other h m
SameHeap-Moves id other count dt n stay = (λ i e. refl, λ t. refl)
SameHeap-Moves id other count dt {idx} {k} {h} {m} n (move c a b d r) =
    SameHeap-trans other h (heap_set idx (h.slots c) h) m
      (SameHeap-heap_set other idx (h.slots c) h (omega (arith, a.1)))
      (SameHeap-Moves id other count dt n r)

pub resift-SameHeap :
    (key : ℕ → ℕ → ℕ) (id other count dt : ℕ)
    → count < 2 ^ 31
    → id ≢ other
    → (idx : ℕ) (h : Timers) → InSlots id count dt idx
    → SameHeap other h (resift key id count dt idx h)
resift-SameHeap key id other count dt few n idx h a =
    let (k, m, moves, b, e) = resift-Moves key id count dt few idx h a in
    subst (SameHeap other h) (sym e) (
      SameHeap-trans other h m (heap_set k dt m) (SameHeap-Moves id other count dt n moves)
        (SameHeap-heap_set other k dt m (omega (arith, b.1))))

-- The timer `t` is at no other index of heap `id` than the one that is filled.
abbrev Without : ℕ → ℕ → ℕ → ℕ → Timers → Type 0
Without id count t idx h = (i : ℕ) → i < count → i % 2 ≡ id → i ≢ idx → h.slots i ≢ t

Without-Moves :
    (id count dt t : ℕ) {idx k : ℕ} {h m : Timers}
    → Moves id count dt idx h k m
    → Without id count t idx h
    → Without id count t k m
unfolding heap_set
Without-Moves id count dt t stay w = w
Without-Moves id count dt t {idx} {k} {h} {m} (move c a b d r) w =
    Without-Moves id count dt t r (λ i l e n. elim (ℕ_discrete i idx) [
      | yes y ↦ let same : (i == idx) ≡ true = ground arith in rw same (w c b.0 b.1 d)
      | no y ↦ let differ : (i == idx) ≡ false = ground arith in rw differ (w i l e y)
    ])

-- Sifting brings no timer in but its own.
pub resift-Without :
    (key : ℕ → ℕ → ℕ) (id count dt t idx : ℕ) (h : Timers)
    → count < 2 ^ 31
    → InSlots id count dt idx
    → dt ≢ t
    → ((i : ℕ) → i < count → i % 2 ≡ id → i ≢ idx → h.slots i ≢ t)
    → (i : ℕ) → i < count
    → i % 2 ≡ id
    → (resift key id count dt idx h).slots i ≢ t
unfolding heap_set
resift-Without key id count dt t idx h few a n w i l e =
    let (k, m, moves, b, q) = resift-Moves key id count dt few idx h a in
    let after = Without-Moves id count dt t moves w in
    subst (λ (r : Timers). r.slots i ≢ t) (sym q)
      (elim (ℕ_discrete i k) [
        | yes y ↦ let same : (i == k) ≡ true = ground arith in rw same n
        | no y ↦ let differ : (i == k) ≡ false = ground arith in rw differ (after i l e y)
      ])
