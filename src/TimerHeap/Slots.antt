-- ===== src/TimerHeap/Slots.antt =====
-- `_dispatch_timer_heap_get_slot` (src/event/event.c): which word of which segment an index names.
use swift_corelibs_libdispat.Common.{
  ℕ, zero, suc, ◌+◌, ◌-◌, ◌*◌, ◌/◌, ◌^◌, ◌≤◌, ◌<◌, ◌≡◌, refl, ap, subst, ◌∙◌, arith, ◌==◌,
  if◌then◌else◌, dec_lt, ℕ_discrete,
}
use swift_corelibs_libdispat.TimerHeap.{
  Heap, in_segment, capacity, seg_capacity, slot_in, get_slot, bit_length, clz,
}
use swift_corelibs_libdispat.TimerHeap.Segments.{
  IsLinked, bit_length-bounds, pow2_mono, pow2-suc, n-lt-pow2,
}

-- The first index, less DTH_ID_COUNT, of a segment.
abbrev pub seg_base : ℕ → ℕ
seg_base seg_no = if seg_no == 0 then 0 else 8 * 2 ^ (seg_no - 1)

-- The words of segment `seg_no` that hold timers: in the last one the links take `seg_no` words.
abbrev pub seg_room : ℕ → ℕ → ℕ
seg_room segments seg_no =
    if seg_no + 1 == segments then seg_capacity seg_no - seg_no else seg_capacity seg_no

capacity_lem : (s : ℕ) → s ≤ 28 → capacity (suc s) ≡ 2 + 8 * 2 ^ s - s
unfolding capacity
capacity_lem s h =
    let k : suc s - 1 ≡ s = omega arith in rw k (ground (arith, pow2_mono s 28 h, n-lt-pow2 s))

bit_length-half :
    (fuel x y : ℕ) → 0 < x → x / 2 ≡ y → bit_length (suc fuel) x ≡ suc (bit_length fuel y)
unfolding bit_length
bit_length-half fuel x y h e = let l = ap (bit_length fuel) e in ground (arith, l)

bit_length-eights :
    (fuel m : ℕ)
    → bit_length (suc (suc (suc fuel))) (m * 8 + 7) ≡ suc (suc (suc (bit_length fuel m)))
bit_length-eights fuel m =
    bit_length-half (suc (suc fuel)) (m * 8 + 7) (m * 4 + 3) (omega arith) (omega arith)
    ∙ ap suc (
        bit_length-half (suc fuel) (m * 4 + 3) (m * 2 + 1) (omega arith) (omega arith)
        ∙ ap suc (bit_length-half fuel (m * 2 + 1) m (omega arith) (omega arith)))

bit_length_seven : bit_length 32 7 ≡ 3
unfolding bit_length
bit_length_seven = refl

-- The segment number that the two counts of leading zeros give.
seg_no_lem : (i : ℕ) → i < 2 ^ 32 → clz 7 - clz (i / 8 * 8 + 7) ≡ bit_length 29 (i / 8)
seg_no_lem i h =
    let seven = bit_length_seven in
    let (_, _, _, few, _) = bit_length-bounds 29 (i / 8) (omega arith) in
    omega (arith, seven, bit_length-eights 29 (i / 8), few)

segment_lem :
    (i s k : ℕ)
    → i < 8 * 2 ^ s - s
    → i / 8 < 2 ^ k
    → (0 < i / 8 → 2 ^ (k - 1) ≤ i / 8)
    → (0 < i / 8 → 0 < k)
    → (i / 8 ≡ 0 → k ≡ 0)
    → (k ≤ s) × (seg_base k ≤ i) × (i - seg_base k < seg_room (suc s) k)
segment_lem i s zero h a b c z = (omega arith, ground arith, ground (arith, n-lt-pow2 s))
segment_lem i s (suc j) h a b c z =
    let k : suc j - 1 ≡ j = omega arith in
    let below : 2 ^ j ≤ i / 8 = subst (λ (x : ℕ). 2 ^ x ≤ i / 8) k (b (ground (arith, z))) in
    elim (dec_lt s (suc j)) [
      | yes small ↦ absurd (omega (arith, below, pow2_mono s j (omega arith)))
      | no large ↦ (
        omega arith,
        ground (arith, below, k),
        ground (arith, below, k, a, pow2-suc j, pow2_mono (suc j) s (omega arith), n-lt-pow2 j),
      )
    ]

slot_in_lem :
    (addrs : ℕ → ℕ) (h : Heap) (s k idx : ℕ)
    → IsLinked addrs h
    → h.dth_segments ≡ suc s
    → k ≤ s
    → slot_in h k idx ≡ in_segment (addrs k) (idx - seg_base k)
unfolding slot_in
slot_in_lem addrs h s k idx i e l = elim (ℕ_discrete k s) [
  | yes last ↦
      let same : h.dth_segments - 1 ≡ k = omega arith in
      let a = i.last (omega arith) ∙ ap addrs same in ground (arith, a)
  | no before ↦
      let twice : h.dth_segments - 1 - 1 ≡ h.dth_segments - 2 = omega arith in
      let word : 8 * 2 ^ (h.dth_segments - 2) - k - 1
          ≡ seg_capacity (h.dth_segments - 1) - (k + 1) =
        ground (arith, ap (λ (x : ℕ). 2 ^ x) twice) in
      let a = ap (h.memory h.dth_heap) word ∙ i.links k (omega arith) in ground (arith, a)
]

-- An index within the capacity that is not in `dth_min` names word `off` of segment `k`, where the
-- segments before have the indices before; the word is in the segment, and in the last segment it is
-- below the links: two indices never share a word, and no timer overwrites a link. Up to 29 segments
-- (2^31 words).
pub get_slot_lem :
    (addrs : ℕ → ℕ) (h : Heap) (s idx : ℕ)
    → IsLinked addrs h
    → h.dth_segments ≡ suc s
    → s ≤ 28
    → 2 ≤ idx
    → idx < capacity (suc s)
    → (k : ℕ) × (off : ℕ) × (get_slot h idx ≡ in_segment (addrs k) off)
      × (k ≤ s)
      × (idx ≡ 2 + seg_base k + off)
      × (off < seg_room (suc s) k)
unfolding get_slot
get_slot_lem addrs h s idx i e few two more =
    let c = capacity_lem s few in
    let small : idx - 2 < 8 * 2 ^ s - s = omega (arith, c, more) in
    let m : 2 ^ s ≤ 2 ^ 28 = pow2_mono s 28 few in
    let n = seg_no_lem (idx - 2) (omega arith) in
    let (above, below, some_bits, _, z) = bit_length-bounds 29 ((idx - 2) / 8) (omega arith) in
    let (l, base, room) =
      segment_lem (idx - 2) s (bit_length 29 ((idx - 2) / 8)) small above below some_bits z in
    let elim_slot = slot_in_lem addrs h s (bit_length 29 ((idx - 2) / 8)) (idx - 2) i e l in
    (
      bit_length 29 ((idx - 2) / 8),
      idx - 2 - seg_base (bit_length 29 ((idx - 2) / 8)),
      ground (arith, ap (λ (x : ℕ). slot_in h x (idx - 2)) n ∙ elim_slot),
      l,
      omega (arith, base),
      room,
    )
