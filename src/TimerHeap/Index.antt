-- ===== src/TimerHeap/Index.antt =====
-- The index arithmetic of the two interleaved heaps (src/event/event.c).
use swift_corelibs_libdispat.Common.{
  ℕ, zero, suc, ◌+◌, ◌-◌, ◌*◌, ◌/◌, ◌%◌, ◌^◌, ◌≤◌, ◌<◌, ◌≡◌, ◌⊎◌, refl, arith, ◌&&◌, ltb, ◌==◌,
  if◌then◌else◌, dec_lt, ℕ_discrete, ap, sym, Option, none, some,
}
use swift_corelibs_libdispat.TimerHeap.{parent, left_child, heap_id, drop_ones, walk_skip}

-- The parent of both children of an index is that index.
pub parent-left_child :
    (idx : ℕ) → idx < 2 ^ 30 → (parent (left_child idx) ≡ idx) × (parent (left_child idx + 2) ≡ idx)
unfolding parent left_child
parent-left_child idx h = (ground arith, ground arith)

-- An index that is not a root comes after its parent, is in the same heap, and is the left child of
-- the parent or the one next to it.
pub parent_lem :
    (idx : ℕ)
    → 2 ≤ idx
    → idx < 2 ^ 31
    → (parent idx < idx)
      × (heap_id (parent idx) ≡ heap_id idx)
      × ((left_child (parent idx) ≡ idx) ⊎ (left_child (parent idx) + 2 ≡ idx))
unfolding parent left_child
parent_lem idx l h = (ground arith, ground arith, ground arith)

-- The walk up from an index to the first right sibling within `count`, of the index itself or of one
-- of its parents.
unfoldable pub climb : ℕ → ℕ → ℕ → Option ℕ
climb zero idx count = none
climb (suc fuel) idx count =
    let rest : Option ℕ = climb fuel (parent idx) count in
    if ltb idx 2
    then none
    else (if (idx / 2 % 2 == 1) && ltb (idx + 2) count then some (idx + 2) else rest)

drop_ones-zero : (fuel : ℕ) → drop_ones fuel 0 ≡ 0
unfolding drop_ones
drop_ones-zero zero = refl
drop_ones-zero (suc fuel) = refl

pub parent_half : (idx : ℕ) → 2 ≤ idx → idx < 2 ^ 31 → parent idx ≡ (idx / 2 - 1) / 2 * 2 + idx % 2
unfolding parent
parent_half idx l h = ground arith

-- A position with its last digit 1 goes on with the rest of it, which is its parent's.
half_parent :
    (idx : ℕ)
    → 2 ≤ idx
    → idx < 2 ^ 31
    → idx / 2 % 2 ≡ 0
    → ((idx / 2 + 1) / 2 ≡ parent idx / 2 + 1) × (parent idx % 2 ≡ idx % 2) × (parent idx + 2 ≤ idx)
half_parent idx l h e =
    let q = parent_half idx l h in (omega (arith, q), omega (arith, q), omega (arith, q))

drop_ones-climb :
    (fuel idx count : ℕ)
    → idx / 2 + 1 < 2 ^ fuel
    → idx < 2 ^ 31
    → idx + 2 < count
    → (if drop_ones fuel (idx / 2 + 1) == 0
        then none
        else some (2 * drop_ones fuel (idx / 2 + 1) + idx % 2))
      ≡ climb fuel idx count
unfolding drop_ones climb
drop_ones-climb zero idx count h b r = absurd (omega arith)
drop_ones-climb (suc fuel) idx count h b r = elim (dec_lt idx 2) [
  | yes q ↦ ground (arith, drop_ones-zero fuel)
  | no q ↦ elim (dec_lt 0 (idx / 2 % 2)) [
    | yes left ↦ ground arith
    | no right ↦
        let (e, same, less) = half_parent idx (omega arith) b (omega arith) in
        ground (
          arith,
          e,
          same,
          drop_ones-climb fuel (parent idx) count (omega arith) (omega arith) (omega arith),
        )
  ]
]

drop_ones_fuel : (fuel x : ℕ) → x < 2 ^ fuel → drop_ones (suc fuel) x ≡ drop_ones fuel x
unfolding drop_ones
drop_ones_fuel zero x h = ground arith
drop_ones_fuel (suc fuel) x h = ground (arith, drop_ones_fuel fuel (x / 2) (omega arith))

drop_ones_odd : (fuel x y : ℕ) → x ≡ 2 * y + 1 → drop_ones (suc fuel) x ≡ drop_ones fuel y
unfolding drop_ones
drop_ones_odd fuel x y h = let e : x / 2 ≡ y = omega arith in ground (arith, ap (drop_ones fuel) e)

-- What `_dispatch_timer_heap_walk_skip` gives for the index `from` that it starts at.
found : ℕ → ℕ → Option ℕ
found id next = if next == 0 then none else some (2 * next + id)

climb_last :
    (fuel idx count : ℕ)
    → 2 ≤ idx
    → count ≤ idx + 2
    → climb (suc fuel) idx count ≡ climb fuel (parent idx) count
unfolding climb
climb_last fuel idx count h l = ground arith

walk_skip-found :
    (idx count from : ℕ)
    → from < 2 ^ 31
    → from % 2 ≡ 0
    → (if idx - heap_id idx + 2 == count then parent (idx - heap_id idx) else idx - heap_id idx)
      ≡ from
    → walk_skip idx count ≡ found (idx % 2) (drop_ones 31 (from / 2 + 1))
unfolding walk_skip found
walk_skip-found idx count from h even e =
    let d = drop_ones_odd 31 ((from + 3) % 2 ^ 32) (from / 2 + 1) (omega arith) in rw e (rw d refl)

-- The bit trick of the walk finds the first right sibling in bounds, of the index or one of its
-- parents, and ends the walk exactly if there is none, for an index of a heap with more than its two
-- roots, also where the index is the last left child.
pub walk_skip-climb :
    (idx count : ℕ)
    → count % 2 ≡ 0
    → idx < count
    → 2 < count
    → count ≤ 2 ^ 31
    → walk_skip idx count ≡ climb 31 idx count
unfolding found
walk_skip-climb idx count even h more few = elim (ℕ_discrete (idx - idx % 2 + 2) count) [
  | yes last ↦
      let q = parent_half idx (omega arith) (omega arith) in
      let s = parent_half (idx - idx % 2) (omega arith) (omega arith) in
      let w =
        walk_skip-found idx count (parent (idx - idx % 2)) (omega (arith, s)) (omega (arith, s))
          (ground arith) in
      let p : parent (idx - idx % 2) / 2 + 1 ≡ parent idx / 2 + 1 = omega (arith, q, s) in
      let same : parent idx % 2 ≡ idx % 2 = omega (arith, q) in
      rw (climb_last 30 idx count (omega arith) (omega arith)) (
        rw w (
          rw p (
            rw (drop_ones_fuel 30 (parent idx / 2 + 1) (omega (arith, q))) (
              rw (sym same) (
                drop_ones-climb 30 (parent idx) count (omega (arith, q)) (omega (arith, q))
                  (omega (arith, q)))))))
  | no more_follow ↦
      let w =
        walk_skip-found idx count (idx - idx % 2) (omega arith) (omega arith) (ground arith) in
      let p : (idx - idx % 2) / 2 + 1 ≡ idx / 2 + 1 = omega arith in
      rw w (rw p (drop_ones-climb 31 idx count (omega arith) (omega arith) (omega arith)))
]
