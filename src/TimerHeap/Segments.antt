-- ===== src/TimerHeap/Segments.antt =====
-- The segments of the timer heap and the links between them (src/event/event.c).
use swift_corelibs_libdispat.Common.{
  ℕ, zero, suc, ◌+◌, ◌-◌, ◌*◌, ◌/◌, ◌^◌, ◌≤◌, ◌<◌, ◌≡◌, ◌≢◌, refl, sym, ap, subst, ◌∙◌, arith, ◌==◌,
  if◌then◌else◌, ℕ_discrete,
}
use swift_corelibs_libdispat.TimerHeap.{Heap, grow, shrink, seg_capacity, bit_length}

-- Two to a power, by its recursion.
pub pow2-suc : (n : ℕ) → 2 ^ suc n ≡ 2 * 2 ^ n
pow2-suc n = omega arith

pub n-lt-pow2 : (n : ℕ) → n < 2 ^ n
n-lt-pow2 zero = omega arith
n-lt-pow2 (suc n) = omega (arith, n-lt-pow2 n, pow2-suc n)

pub pow2_mono : (m n : ℕ) → m ≤ n → 2 ^ m ≤ 2 ^ n
pow2_mono m zero h = let e : m ≡ 0 = omega arith in rw e (omega arith)
pow2_mono m (suc n) h = elim (ℕ_discrete m (suc n)) [
  | yes e ↦ rw e (omega arith)
  | no e ↦ omega (arith, pow2_mono m n (omega arith), pow2-suc n)
]

bounds_by_half :
    (fuel n k : ℕ)
    → 0 < n
    → n / 2 < 2 ^ k
    → (0 < n / 2 → 2 ^ (k - 1) ≤ n / 2)
    → (0 < n / 2 → 0 < k)
    → k ≤ fuel
    → (n / 2 ≡ 0 → k ≡ 0)
    → (n < 2 ^ (if n == 0 then 0 else suc k))
      × (0 < n → 2 ^ ((if n == 0 then 0 else suc k) - 1) ≤ n)
      × (0 < n → 0 < (if n == 0 then 0 else suc k))
      × ((if n == 0 then 0 else suc k) ≤ suc fuel)
bounds_by_half fuel n zero p a b c f z =
    (ground arith, λ q. ground arith, λ q. ground arith, ground arith)
bounds_by_half fuel n (suc k) p a b c f z = (
  ground (arith, pow2-suc (suc k)),
  λ q. ground (arith, pow2-suc k, b, z),
  λ q. ground arith,
  ground arith,
)

-- Every number below 2 ^ fuel lies between the powers of two that its length names.
pub bit_length-bounds :
    (fuel n : ℕ)
    → n < 2 ^ fuel
    → (n < 2 ^ bit_length fuel n)
      × (0 < n → 2 ^ (bit_length fuel n - 1) ≤ n)
      × (0 < n → 0 < bit_length fuel n)
      × (bit_length fuel n ≤ fuel)
      × (n ≡ 0 → bit_length fuel n ≡ 0)
unfolding bit_length
bit_length-bounds zero n h =
    (omega arith, λ p. absurd (omega arith), λ p. absurd (omega arith), omega arith, λ z. refl)
bit_length-bounds (suc fuel) n h = elim (ℕ_discrete n 0) [
  | yes e ↦ (
    ground arith,
    λ p. absurd (omega arith),
    λ p. absurd (omega arith),
    ground arith,
    λ z. ground arith,
  )
  | no e ↦
      let (above, below, some_bits, few, none_left) =
        bit_length-bounds fuel (n / 2) (omega (arith, pow2-suc fuel)) in
      let (a, b, c, d) =
        bounds_by_half fuel n (bit_length fuel (n / 2)) (omega arith) above below some_bits few
          none_left in
      (a, b, c, d, λ z. absurd (e z))
]

-- The heap's segments are those at the addresses `addrs` names: the last is `dth_heap`, which ends
-- with the addresses of the others, in reverse.
pub record IsLinked (addrs : ℕ → ℕ) (h : Heap) : Type 0 where
  pub last : 0 < h.dth_segments → h.dth_heap ≡ addrs (h.dth_segments - 1)
  pub links :
      (j : ℕ)
      → j + 1 < h.dth_segments
      → h.memory h.dth_heap (seg_capacity (h.dth_segments - 1) - (j + 1)) ≡ addrs j

-- A segment has more words than there are segments before it.
seg_capacity-room : (s : ℕ) → s < seg_capacity s
seg_capacity-room zero = omega arith
seg_capacity-room (suc s) = ground (arith, n-lt-pow2 s)

seg_capacity-half : (s : ℕ) → seg_capacity (suc (suc s)) / 2 ≡ seg_capacity (suc s)
seg_capacity-half s = ground (arith, pow2-suc s)

-- The word of the last segment but one that the copy of a link comes from.
link_index :
    (c c' s j : ℕ)
    → c / 2 ≡ c'
    → suc (suc s) < c
    → suc (suc s) - 1 < c'
    → j < suc s
    → c / 2 - (suc (suc s) - 1) + (c - (j + 1) - (c - (suc (suc s) - 1))) ≡ c' - (j + 1)
link_index c c' s j h r r' l = omega arith

grown_links :
    (addrs : ℕ → ℕ) (s heap fresh : ℕ) (mem : ℕ → ℕ → ℕ)
    → IsLinked addrs (record { dth_segments = s; dth_heap = heap; memory = mem })
    → (0 < s → heap ≢ fresh)
    → (j : ℕ) → j + 1 < s + 1
    → (grow fresh (record { dth_segments = s; dth_heap = heap; memory = mem })).memory fresh
        (seg_capacity s - (j + 1))
      ≡ addrs j
unfolding grow
grown_links addrs zero heap fresh mem i d j q = absurd (omega arith)
grown_links addrs (suc zero) heap fresh mem i d j q =
    let e : j ≡ 0 = omega arith in
    let l : heap ≡ addrs 0 = i.last (omega arith) in rw e (ground (arith, l))
grown_links addrs (suc (suc s)) heap fresh mem i d j q = elim (ℕ_discrete j (suc s)) [
  | yes e ↦
      let k : suc (suc s) - 1 ≡ suc s = omega arith in
      let l : heap ≡ addrs (suc s) = i.last (omega arith) ∙ ap addrs k in
      let r = seg_capacity-room (suc (suc s)) in rw e (ground (arith, l, r))
  | no e ↦
      let r = seg_capacity-room (suc (suc s)) in
      let k : suc (suc s) - 1 ≡ suc s = omega arith in
      let x =
        link_index (seg_capacity (suc (suc s))) (seg_capacity (suc (suc s) - 1)) s j
          (seg_capacity-half s ∙ sym (ap seg_capacity k)) r (seg_capacity-room (suc (suc s) - 1))
          (omega arith) in
      let l = ap (mem heap) x ∙ i.links j (omega arith) in
      let different : heap ≢ fresh = d (omega arith) in ground (arith, l, r, different)
]

-- A new segment gets the links to all the others.
pub grow-IsLinked :
    (addrs : ℕ → ℕ) (h : Heap) (fresh : ℕ)
    → IsLinked addrs h
    → addrs h.dth_segments ≡ fresh
    → (0 < h.dth_segments → h.dth_heap ≢ fresh)
    → IsLinked addrs (grow fresh h)
unfolding grow
grow-IsLinked addrs h fresh i e d = record {
  last = λ p. let k : h.dth_segments + 1 - 1 ≡ h.dth_segments = omega arith in rw k (sym e);
  links = λ j q.
      let k : h.dth_segments + 1 - 1 ≡ h.dth_segments = omega arith in
      rw k (grown_links addrs h.dth_segments h.dth_heap fresh h.memory i d j q);
}

-- The word of the segment given back that the copy of a link comes from.
back_index :
    (c c' s j : ℕ)
    → c / 2 ≡ c'
    → suc (suc s) < c
    → suc s < c'
    → j < suc s
    → c - (suc (suc s) - 1) + (c' - (j + 1) - (c / 2 - (suc (suc s) - 1))) ≡ c - (j + 1)
back_index c c' s j h r r' l = omega arith

module _ (addrs : ℕ → ℕ) (heap : ℕ) (mem : ℕ → ℕ → ℕ) where
  shrunk_last :
      (n : ℕ)
      → IsLinked addrs (record { dth_segments = suc (suc n); dth_heap = heap; memory = mem })
      → (shrink (record { dth_segments = suc (suc n); dth_heap = heap; memory = mem })).dth_heap
        ≡ addrs n
  unfolding shrink
  shrunk_last n i =
      let k : suc (suc n) - 1 ≡ suc n = omega arith in
      let l =
        ap (λ (x : ℕ). mem heap (seg_capacity x - (n + 1))) (sym k) ∙ i.links n (omega arith) in
      let m : seg_capacity (suc n) - (n + 1) ≡ seg_capacity (suc n) - suc n = omega arith in
      let l' = sym (ap (mem heap) m) ∙ l in rw k (ground (arith, l'))

  shrunk_links :
      (n j : ℕ)
      → IsLinked addrs (record { dth_segments = suc (suc n); dth_heap = heap; memory = mem })
      → j + 1 < suc n
      → (shrink (record { dth_segments = suc (suc n); dth_heap = heap; memory = mem })).memory
          (shrink (record { dth_segments = suc (suc n); dth_heap = heap; memory = mem })).dth_heap
          (seg_capacity n - (j + 1))
        ≡ addrs j
  unfolding shrink
  shrunk_links zero j i q = absurd (omega arith)
  shrunk_links (suc s) j i q =
      let k : suc (suc (suc s)) - 1 ≡ suc (suc s) = omega arith in
      let r = seg_capacity-room (suc (suc s)) in
      let r' = seg_capacity-room (suc s) in
      let x =
        back_index (seg_capacity (suc (suc s))) (seg_capacity (suc s)) s j (seg_capacity-half s) r
          r' (omega arith) in
      let l =
        ap (mem heap) x
        ∙ (ap (λ (y : ℕ). mem heap (seg_capacity y - (j + 1))) (sym k) ∙ i.links j (omega arith)) in
      let half = seg_capacity-half s in rw k (ground (arith, l, r, r', half))

  shrunk :
      (n : ℕ)
      → IsLinked addrs (record { dth_segments = suc (suc n); dth_heap = heap; memory = mem })
      → IsLinked addrs
          (shrink (record { dth_segments = suc (suc n); dth_heap = heap; memory = mem }))
  unfolding shrink
  shrunk n i =
      let k : suc (suc n) - 1 - 1 ≡ n = omega arith in
      let after : Heap =
        shrink (record { dth_segments = suc (suc n); dth_heap = heap; memory = mem }) in
      record {
        last = λ p. shrunk_last n i ∙ sym (ap addrs k);
        links = λ j q.
            ap (λ (x : ℕ). after.memory after.dth_heap (seg_capacity x - (j + 1))) k
            ∙ shrunk_links n j i (omega (arith, k, q));
      }

-- Where the last segment is given back, the one before it gets the links, and the heap is as it was
-- without the last segment.
pub shrink-IsLinked :
    (addrs : ℕ → ℕ) (h : Heap) (n : ℕ)
    → h.dth_segments ≡ suc (suc n)
    → IsLinked addrs h
    → IsLinked addrs (shrink h)
shrink-IsLinked addrs h n e i =
    subst
      (λ (s : ℕ).
        IsLinked addrs (record { dth_segments = s; dth_heap = h.dth_heap; memory = h.memory })
        → IsLinked addrs
            (shrink (record { dth_segments = s; dth_heap = h.dth_heap; memory = h.memory })))
      (sym e) (shrunk addrs h.dth_heap h.memory n) i
