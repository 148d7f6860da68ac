-- ===== src/TimerHeap/Sift/Moves.antt =====
-- `_dispatch_timer_heap_resift` (src/event/event.c) only moves timers, and keeps track of them.
use swift_corelibs_libdispat.Common.{
  ℕ, zero, suc, ◌%◌, ◌^◌, ◌≤◌, ◌<◌, ◌≡◌, ◌≢◌, inl, inr, refl, sym, ap, ◌∙◌, arith, Bool, true,
  false, ◌||◌, leb, ltb, subst, Bool-cases, ℕ_discrete, ◌==◌, dec_lt,
}
use swift_corelibs_libdispat.TimerHeap.{parent, heap_id, left_child}
use swift_corelibs_libdispat.TimerHeap.Index.{parent_lem}
use swift_corelibs_libdispat.TimerHeap.Sift.{
  Timers, Sifted, heap_set, sift_up, sift_down, smaller_child, resift,
}
use swift_corelibs_libdispat.TimerHeap.Sift.Down.{smaller_child-Least}

module _ (id count dt : ℕ) where
  -- An index of heap `id`.
  abbrev pub InSlots : ℕ → Type 0
  InSlots i = (i < count) × (i % 2 ≡ id)

  -- Every timer but that of the index that is filled knows its index, and is another one than `dt`.
  abbrev pub Tracked : ℕ → Timers → Type 0
  Tracked idx h = (i : ℕ) → InSlots i → i ≢ idx → (h.entry (h.slots i) id ≡ i) × (h.slots i ≢ dt)

  -- The timer stands at another index than the one that is filled.
  abbrev pub Stands : ℕ → ℕ → Timers → Type 0
  Stands t idx h = (i : ℕ) × InSlots i × (i ≢ idx) × (h.slots i ≡ t)

  -- Every timer of the heap knows its index, and those that stood elsewhere than at `idx` before, and
  -- `dt`, stand somewhere.
  abbrev pub Kept : ℕ → Timers → Timers → Type 0
  Kept idx h r =
      ((i : ℕ) → InSlots i → r.entry (r.slots i) id ≡ i)
      × ((t : ℕ) → Stands t idx h → (i : ℕ) × InSlots i × (r.slots i ≡ t))
      × ((i : ℕ) × InSlots i × (r.slots i ≡ dt))

  -- The loops move the timer of an index into the one that is filled, and go on at that index.
  pub data Moves : ℕ → Timers → ℕ → Timers → Type 0 where
    stay : {idx : ℕ} {h : Timers} → Moves idx h idx h
    move :
        {idx k : ℕ} {h m : Timers} (c : ℕ)
        → InSlots idx
        → InSlots c
        → c ≢ idx
        → Moves c (heap_set idx (h.slots c) h) k m
        → Moves idx h k m

  Tracked-set :
      (idx c : ℕ) (h : Timers)
      → InSlots idx
      → InSlots c
      → c ≢ idx
      → Tracked idx h
      → Tracked c (heap_set idx (h.slots c) h)
  unfolding heap_set
  Tracked-set idx c h a b n t i j m = elim (ℕ_discrete i idx) [
    | yes e ↦
        let same : (i == idx) ≡ true = ground arith in
        let same_timer : (h.slots c == h.slots c) ≡ true = ground arith in
        let own : (id == heap_id idx) ≡ true = ground (arith, a.1) in
        let (x, y) = t c b n in rw (same, same_timer, own) (sym e, y)
    | no k ↦
        let other : (i == idx) ≡ false = ground arith in
        let (x, y) = t c b n in
        let (z, w) = t i j k in
        let distinct : h.slots i ≢ h.slots c =
          λ q. m (sym z ∙ ap (λ (u : ℕ). h.entry u id) q ∙ x) in
        let other_timer : (h.slots i == h.slots c) ≡ false = ground (arith, distinct) in
        rw (other, other_timer) (z, w)
  ]

  Stands-set :
      (t idx c : ℕ) (h : Timers)
      → InSlots idx
      → c ≢ idx
      → Stands t idx h
      → Stands t c (heap_set idx (h.slots c) h)
  unfolding heap_set
  Stands-set t idx c h a n (i, j, m, e) = elim (ℕ_discrete i c) [
    | yes x ↦
        let same : (idx == idx) ≡ true = ground arith in
        (idx, a, (λ q. n (sym q)), rw same (ap h.slots (sym x) ∙ e))
    | no y ↦ let other : (i == idx) ≡ false = ground arith in (i, j, y, rw other e)
  ]

  Moves-Tracked : {idx k : ℕ} {h m : Timers} → Moves idx h k m → Tracked idx h → Tracked k m
  Moves-Tracked stay t = t
  Moves-Tracked {idx} {k} {h} (move c a b n r) t = Moves-Tracked r (Tracked-set idx c h a b n t)

  Moves-Stands :
      {idx k : ℕ} {h m : Timers} (t : ℕ) → Moves idx h k m → Stands t idx h → Stands t k m
  Moves-Stands t stay s = s
  Moves-Stands {idx} {k} {h} t (move c a b n r) s = Moves-Stands t r (Stands-set t idx c h a n s)

  -- The last store
  Tracked-last :
      (idx : ℕ) (h : Timers)
      → InSlots idx
      → Tracked idx h
      → (i : ℕ) → InSlots i
      → (heap_set idx dt h).entry ((heap_set idx dt h).slots i) id ≡ i
  unfolding heap_set
  Tracked-last idx h a t i j = elim (ℕ_discrete i idx) [
    | yes e ↦
        let same : (i == idx) ≡ true = ground arith in
        let same_timer : (dt == dt) ≡ true = ground arith in
        let own : (id == heap_id idx) ≡ true = ground (arith, a.1) in
        rw (same, same_timer, own) (sym e)
    | no k ↦
        let other : (i == idx) ≡ false = ground arith in
        let (z, w) = t i j k in
        let other_timer : (h.slots i == dt) ≡ false = ground (arith, w) in rw (other, other_timer) z
  ]

  Stands-last :
      (t idx : ℕ) (h : Timers)
      → Stands t idx h
      → (i : ℕ) × InSlots i × ((heap_set idx dt h).slots i ≡ t)
  unfolding heap_set
  Stands-last t idx h (i, j, n, e) =
      let other : (i == idx) ≡ false = ground arith in (i, j, rw other e)

module _ (key : ℕ → ℕ → ℕ) (id count dt : ℕ) (few : count < 2 ^ 31) where
  abbrev Ends : ℕ → Timers → Sifted → Type 0
  Ends idx h r = Moves id count dt idx h r.idx r.timers × InSlots id count dt r.idx

  pub sift_up-Ends :
      (fuel idx : ℕ) (moved : Bool) (h : Timers)
      → InSlots id count dt idx
      → Ends idx h (sift_up key id count dt fuel idx moved h)
  unfolding sift_up
  sift_up-Ends zero idx moved h a = (stay, a)
  sift_up-Ends (suc fuel) idx moved h a =
      elim (Bool-cases (ltb idx 2 || leb (key id (h.slots (parent idx))) (key id dt))) [
        | inl stop ↦ rw stop (stay, a)
        | inr goes ↦
            let two : 2 ≤ idx = ground arith in
            let (x, y, z) = parent_lem idx two (omega (arith, a.0)) in
            let b : InSlots id count dt (parent idx) =
              (omega (arith, a.0), omega (arith, y, a.1)) in
            let (m, e) =
              sift_up-Ends fuel (parent idx) true (heap_set idx (h.slots (parent idx)) h) b in
            rw goes (move (parent idx) a b (omega (arith, x)) m, e)
      ]

  pub sift_down-Ends :
      (fuel idx : ℕ) (h : Timers)
      → InSlots id count dt idx
      → Ends idx h (sift_down key id count dt fuel idx h)
  unfolding sift_down
  sift_down-Ends zero idx h a = (stay, a)
  sift_down-Ends (suc fuel) idx h a = elim (dec_lt (left_child idx) count) [
    | no n ↦ let t : ltb (left_child idx) count ≡ false = ground arith in rw t (stay, a)
    | yes more ↦
        let t : ltb (left_child idx) count ≡ true = ground arith in
        let c = smaller_child key id count dt idx h in
        let l = smaller_child-Least key id count dt few idx h a.0 a.1 more in
        elim (Bool-cases (leb (key id dt) (key id (h.slots c)))) [
          | inl stop ↦ rw (t, stop) (stay, a)
          | inr goes ↦
              let b : InSlots id count dt c = (l.inside.1, l.inside.2) in
              let (m, e) = sift_down-Ends fuel c (heap_set idx (h.slots c) h) b in
              rw (t, goes) (move c a b (omega (arith, l.double)) m, e)
        ]
  ]

  sift_up-moved :
      (fuel idx : ℕ) (h : Timers) → (sift_up key id count dt fuel idx true h).sifted_up ≡ true
  unfolding sift_up
  sift_up-moved zero idx h = refl
  sift_up-moved (suc fuel) idx h =
      elim (Bool-cases (ltb idx 2 || leb (key id (h.slots (parent idx))) (key id dt))) [
        | inl stop ↦ rw stop refl
        | inr goes ↦
            rw goes (sift_up-moved fuel (parent idx) (heap_set idx (h.slots (parent idx)) h))
      ]

  pub sift_up-still :
      (fuel idx : ℕ) (h : Timers)
      → (sift_up key id count dt (suc fuel) idx false h).sifted_up ≡ false
      → (sift_up key id count dt (suc fuel) idx false h).timers ≡ h
  unfolding sift_up
  sift_up-still fuel idx h e =
      elim (Bool-cases (ltb idx 2 || leb (key id (h.slots (parent idx))) (key id dt))) [
        | inl stop ↦ rw stop refl
        | inr goes ↦ absurd (
            cc (
              sym (sift_up-moved fuel (parent idx) (heap_set idx (h.slots (parent idx)) h))
              ∙ (rw goes at e)))
      ]

  -- What is left after the last store of moves that end at `k`
  finished :
      (idx k : ℕ) (h m : Timers)
      → Moves id count dt idx h k m
      → InSlots id count dt k
      → Tracked id count dt idx h
      → Kept id count dt idx h (heap_set k dt m)
  unfolding heap_set
  finished idx k h m moves a t = (
    Tracked-last id count dt k m a (Moves-Tracked id count dt moves t),
    (λ u s. Stands-last id count dt u k m (Moves-Stands id count dt u moves s)),
    (k, a, let same : (k == k) ≡ true = ground arith in rw same refl),
  )

  -- A heap whose timers but one know their indices has, after the timer is sifted into that index, all
  -- its timers at indices that they know; the timer stands at one, and so does every timer that stood at
  -- another index before. The heap has fewer than 2^31 slots; the timer is in none of the others.
  pub resift-Tracked :
      (idx : ℕ) (h : Timers)
      → InSlots id count dt idx
      → Tracked id count dt idx h
      → Kept id count dt idx h (resift key id count dt idx h)
  unfolding resift
  resift-Tracked idx h a t =
      let up = sift_up key id count dt 31 idx false h in
      elim (Bool-cases up.sifted_up) [
        | inl moved ↦
            let (m, b) = sift_up-Ends 31 idx false h a in
            rw moved (finished idx up.idx h up.timers m b t)
        | inr still ↦
            let same = sift_up-still 30 idx h still in
            let down = sift_down key id count dt 31 idx h in
            let (m, b) = sift_down-Ends 31 idx h a in
            rw still (
              subst
                (λ (o : Timers). Kept id count dt idx h (
                  heap_set (sift_down key id count dt 31 idx o).idx dt
                    (sift_down key id count dt 31 idx o).timers))
                (sym same) (finished idx down.idx h down.timers m b t))
      ]
