-- ===== src/Data/Map.antt =====
-- `dispatch_data_create_map` (src/data.c) on well-formed objects, with memory at hand.
use swift_corelibs_libdispat.Common.{
  ℕ, ◌≡◌, ◌<◌, refl, Option, some, List, length, take, arith, take_all, inl, inr, Option-cases,
}
use swift_corelibs_libdispat.Data.{
  DispatchData, leaf, composite, size, map_direct, flatten, create_map,
}
use swift_corelibs_libdispat.Data.Bytes.{bytes, IsValid, length-bytes}
use swift_corelibs_libdispat.Data.Apply.{map_direct-bytes, flatten-bytes, pos_test}

-- malloc gives memory of every size.
abbrev pub IsAvailable : (ℕ → Option (List ℕ)) → Type 0
IsAvailable malloc = (n : ℕ) → (memory : List ℕ) × (malloc n ≡ some memory) × (length memory ≡ n)

create_map-leaf :
    (malloc : ℕ → Option (List ℕ)) (buf : List ℕ)
    → 0 < length buf
    → create_map malloc (leaf buf) ≡ (some (leaf buf), some buf, length buf)
unfolding create_map map_direct
create_map-leaf malloc buf p = rw (pos_test (length buf) p) refl

-- Mapping a well-formed object that is not empty gives a buffer that starts with its bytes, and its
-- size, where memory can be had.
pub create_map-bytes :
    (malloc : ℕ → Option (List ℕ)) (dd : DispatchData)
    → IsAvailable malloc
    → IsValid dd
    → 0 < size dd
    → (r : DispatchData) × (buf : List ℕ) × (create_map malloc dd ≡ (some r, some buf, size dd))
      × (take (size dd) buf ≡ bytes dd)
unfolding create_map
create_map-bytes malloc (leaf buf) a v p =
    (leaf buf, buf, create_map-leaf malloc buf p, take_all (length buf) buf (omega arith))
create_map-bytes malloc (composite n flat rs) a v p =
    elim (Option-cases (map_direct (composite n flat rs) 0).0) [
      | inr (b, e) ↦
          (composite n flat rs, b, rw (pos_test n p) (rw e refl), map_direct-bytes n flat rs b v e)
      | inl e ↦
          let (memory, given, long) = a n in
          let same = flatten-bytes (composite n flat rs) memory v p long in
          (
            leaf (flatten (composite n flat rs) memory),
            flatten (composite n flat rs) memory,
            rw (pos_test n p) (rw e (rw given refl)),
            rw same (take_all n _ (omega (arith, length-bytes (composite n flat rs) v))),
          )
    ]
