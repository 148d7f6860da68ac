-- ===== src/TimerHeap/Sift/Up.antt =====
-- Sifting up (src/event/event.c) towards the heap order.
use swift_corelibs_libdispat.Common.{
  ℕ, zero, suc, ◌%◌, ◌^◌, ◌≤◌, ◌<◌, ◌≡◌, ◌≢◌, inl, inr, refl, sym, ap, arith, Bool, true, false,
  ◌||◌, leb, ltb, ◌==◌, if◌then◌else◌, subst, Bool-cases, ℕ_discrete,
}
use mathlib.Core.Path.{fun_ext}
use swift_corelibs_libdispat.TimerHeap.{parent}
use swift_corelibs_libdispat.TimerHeap.Index.{parent_lem, parent_half}
use swift_corelibs_libdispat.TimerHeap.Sift.{Timers, Sifted, heap_set, sift_up}

-- The keys of the slots, with `d` in the place of the slot that is being filled.
abbrev pub fill : ℕ → ℕ → (ℕ → ℕ) → ℕ → ℕ
fill d idx v i = if i == idx then d else v i

-- Heap `id` of the two is in order but between the index and its parent, and but between the index and
-- its children.
module _ (id count : ℕ) where
  abbrev pub InHeap : ℕ → Type 0
  InHeap i = (2 ≤ i) × (i < count) × (i % 2 ≡ id)

  abbrev pub Ordered : (ℕ → ℕ) → Type 0
  Ordered v = (i : ℕ) → InHeap i → v (parent i) ≤ v i

  abbrev pub BelowOrdered : ℕ → (ℕ → ℕ) → Type 0
  BelowOrdered idx v = (i : ℕ) → InHeap i → i ≢ idx → v (parent i) ≤ v i

  abbrev pub AboveOrdered : ℕ → (ℕ → ℕ) → Type 0
  AboveOrdered idx v = (i : ℕ) → InHeap i → parent i ≢ idx → v (parent i) ≤ v i

  abbrev pub Loose : ℕ → (ℕ → ℕ) → Type 0
  Loose idx v = (i : ℕ) → InHeap i → i ≢ idx → parent i ≢ idx → v (parent i) ≤ v i

  -- The children of the index come after its parent.
  abbrev pub Bridged : ℕ → (ℕ → ℕ) → Type 0
  Bridged idx v = (i : ℕ) → InHeap i → parent i ≡ idx → 2 ≤ idx → v (parent idx) ≤ v i

  module _ (d idx : ℕ) (v : ℕ → ℕ) (inside : InHeap idx) (few : count ≤ 2 ^ 31) where
    up_Below :
        d < v (parent idx)
        → Loose idx (fill d idx v)
        → Bridged idx v
        → BelowOrdered (parent idx) (fill d (parent idx) (fill (v (parent idx)) idx v))
    up_Below less o g i h n =
        let (a, b, c) = parent_lem i h.0 (omega arith) in
        let (a', b', c') = parent_lem idx inside.0 (omega arith) in
        elim (ℕ_discrete i idx) [
          | yes e ↦ ground (arith, less, ap parent e)
          | no m ↦ elim (ℕ_discrete (parent i) idx) [
            | yes e ↦ let y = g i h e inside.0 in ground (arith, y)
            | no k ↦
                let x = o i h m k in
                elim (ℕ_discrete (parent i) (parent idx)) [
                  | yes e ↦ ground (arith, x, less, ap v e)
                  | no l ↦ ground (arith, x)
                ]
          ]
        ]

    up_Bridged :
        Loose idx (fill d idx v)
        → Bridged idx v
        → Bridged (parent idx) (fill (v (parent idx)) idx v)
    up_Bridged o g i h e two =
        let (a, b, c) = parent_lem i h.0 (omega arith) in
        let (a', b', c') = parent_lem idx inside.0 (omega arith) in
        let (a2, b2, c2) = parent_lem (parent idx) two (omega arith) in
        let x = o (parent idx) (two, omega arith, omega arith) (omega arith) (omega arith) in
        elim (ℕ_discrete i idx) [
          | yes y ↦ ground (arith, x)
          | no n ↦ let z = o i h n (omega arith) in ground (arith, x, z, ap v e)
        ]

-- The keys of the slots
abbrev pub keys : (ℕ → ℕ → ℕ) → ℕ → Timers → ℕ → ℕ
keys key id h i = key id (h.slots i)

pub keys-heap_set :
    (key : ℕ → ℕ → ℕ) (id idx t : ℕ) (h : Timers) (i : ℕ)
    → keys key id (heap_set idx t h) i ≡ fill (key id t) idx (keys key id h) i
unfolding heap_set
keys-heap_set key id idx t h i = ground arith

module _ (key : ℕ → ℕ → ℕ) (id count dt : ℕ) where
  -- What holds where the index `idx` is to be filled.
  pub record Open (idx : ℕ) (h : Timers) : Type 0 where
    pub bound : idx < count
    pub parity : idx % 2 ≡ id
    pub loose : Loose id count idx (fill (key id dt) idx (keys key id h))
    pub bridged : Bridged id count idx (keys key id h)

module _ (key : ℕ → ℕ → ℕ) (id count dt : ℕ) (few : count ≤ 2 ^ 31) where
  Open-up :
      (idx : ℕ) (h : Timers)
      → Open key id count dt idx h
      → 2 ≤ idx
      → key id dt < keys key id h (parent idx)
      → Open key id count dt (parent idx) (heap_set idx (h.slots (parent idx)) h)
        × BelowOrdered id count
            (parent idx)
            (fill (key id dt) (parent idx) (keys key id (heap_set idx (h.slots (parent idx)) h)))
  Open-up idx h o two less =
      let (a, b, c) = parent_lem idx two (omega (arith, o.bound)) in
      let inside : InHeap id count idx = (two, o.bound, o.parity) in
      let v = keys key id h in
      let e : fill (v (parent idx)) idx v ≡ keys key id (heap_set idx (h.slots (parent idx)) h) =
        fun_ext (λ i. sym (keys-heap_set key id idx (h.slots (parent idx)) h i)) in
      let below =
        subst (λ (w : ℕ → ℕ). BelowOrdered id count (parent idx) (fill (key id dt) (parent idx) w))
          e (up_Below id count (key id dt) idx v inside few less o.loose o.bridged) in
      (
        record {
          bound = omega (arith, o.bound, a);
          parity = omega (arith, o.parity, b);
          loose = λ i h n k. below i h n;
          bridged =
              subst (λ (w : ℕ → ℕ). Bridged id count (parent idx) w) e
                (up_Bridged id count (key id dt) idx v inside few o.loose o.bridged);
        },
        below,
      )

  -- What sifting up ends with.
  pub record Topped (idx : ℕ) (h : Timers) (moved : Bool) (r : Sifted) : Type 0 where
    pub opened : Open key id count dt r.idx r.timers
    pub topped : 2 ≤ r.idx → keys key id r.timers (parent r.idx) ≤ key id dt
    pub below :
        r.sifted_up ≡ true
        → BelowOrdered id count r.idx (fill (key id dt) r.idx (keys key id r.timers))
    pub still : r.sifted_up ≡ false → (r.timers ≡ h) × (r.idx ≡ idx) × (moved ≡ false)

  pub sift_up-Topped :
      (fuel idx : ℕ) (moved : Bool) (h : Timers)
      → idx < 2 ^ fuel
      → Open key id count dt idx h
      → (moved ≡ true → BelowOrdered id count idx (fill (key id dt) idx (keys key id h)))
      → Topped idx h moved (sift_up key id count dt fuel idx moved h)
  unfolding sift_up
  sift_up-Topped zero idx moved h small o m = record {
    opened = o;
    topped = λ two. absurd (omega arith);
    below = m;
    still = λ e. (refl, refl, e);
  }
  sift_up-Topped (suc fuel) idx moved h small o m =
      elim (Bool-cases (ltb idx 2 || leb (keys key id h (parent idx)) (key id dt))) [
        | inl stop ↦ rw stop (record {
          opened = o;
          topped = λ two. ground arith;
          below = m;
          still = λ e. (refl, refl, e);
        })
        | inr goes ↦
            let two : 2 ≤ idx = ground arith in
            let less : key id dt < keys key id h (parent idx) = ground arith in
            let (o', m') = Open-up idx h o two less in
            let (a, b, c) = parent_lem idx two (omega (arith, o.bound)) in
            let t =
              sift_up-Topped fuel (parent idx) true (heap_set idx (h.slots (parent idx)) h)
                (omega (arith, parent_half idx two (omega (arith, o.bound)))) o' (λ e. m') in
            rw goes (record {
              opened = t.opened;
              topped = t.topped;
              below = t.below;
              still = λ e. let (x, y, z) = t.still e in cc;
            })
      ]
