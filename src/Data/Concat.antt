-- ===== src/Data/Concat.antt =====
-- `dispatch_data_create_concat` (src/data.c).
use swift_corelibs_libdispat.Common.{
  ℕ, ◌+◌, ◌*◌, ◌%◌, ◌^◌, ◌<◌, ◌≡◌, refl, sym, ◌∙◌, ◌++◌, none, arith, inl, inr, Bool-cases, ◌==◌,
  List, [], true, false, length, ==_iff,
}
use mathlib.Core.List.{append-nil}
use swift_corelibs_libdispat.Data.{
  ok, DispatchData, leaf, composite, size, num_records, append, records_of, create_concat,
  data_empty,
}
use swift_corelibs_libdispat.Data.Bytes.{
  bytes, IsValid, length-bytes, record_bytes-append, total-append, count-append,
  append-IsValidRecords, record_bytes-records_of, records_of-IsValidRecords, total-records_of,
  count-records_of,
}

bytes-empty : (dd : DispatchData) → IsValid dd → size dd ≡ 0 → bytes dd ≡ []
bytes-empty dd v e = nil_of_length (bytes dd) (length-bytes dd v ∙ e)
  where
    nil_of_length : (xs : List ℕ) → length xs ≡ 0 → xs ≡ []
    nil_of_length xs h = ground arith

num_records_pos : (dd : DispatchData) → 0 < num_records dd
num_records_pos (leaf buf) = omega arith
num_records_pos (composite n flat rs) = ground arith

-- The composite that `create_concat` makes of two objects that are not empty.
joined : DispatchData → DispatchData → DispatchData
joined dd1 dd2 =
    composite ((size dd1 + size dd2) % 2 ^ 64) none (append (records_of dd1) (records_of dd2))

module _ (dd1 dd2 : DispatchData) (v : IsValid dd1) (w : IsValid dd2)
    (fits : size dd1 + size dd2 < 2 ^ 64)
    (few : (num_records dd1 + num_records dd2) * 24 + 80 < 2 ^ 64) where
  bytes-joined : bytes (joined dd1 dd2) ≡ bytes dd1 ++ bytes dd2
  unfolding joined
  bytes-joined = rw (
    record_bytes-append (records_of dd1) (records_of dd2),
    record_bytes-records_of dd1,
    record_bytes-records_of dd2,
  )

  joined-IsValid : 0 < size dd1 → 0 < size dd2 → 0 < num_records dd1 → IsValid (joined dd1 dd2)
  unfolding joined
  joined-IsValid p q n = (
    omega arith,
    omega (
      arith,
      total-append (records_of dd1) (records_of dd2),
      total-records_of dd1 v,
      total-records_of dd2 w,
    ),
    omega (arith, count-append (records_of dd1) (records_of dd2), count-records_of dd1 v),
    omega (
      arith,
      count-append (records_of dd1) (records_of dd2),
      count-records_of dd1 v,
      count-records_of dd2 w,
    ),
    tt,
    append-IsValidRecords (records_of dd1) (records_of dd2) (records_of-IsValidRecords dd1 v p)
        (records_of-IsValidRecords dd2 w q),
  )

  create_concat-eq : 0 < size dd1 → 0 < size dd2 → create_concat dd1 dd2 ≡ ok (joined dd1 dd2)
  unfolding create_concat joined
  create_concat-eq p q = ground arith

  left-empty : (size dd1 == 0) ≡ true → create_concat dd1 dd2 ≡ ok dd2
  unfolding create_concat
  left-empty e = ground arith

  right-empty : (size dd1 == 0) ≡ false → (size dd2 == 0) ≡ true → create_concat dd1 dd2 ≡ ok dd1
  unfolding create_concat
  right-empty p e = ground arith

  -- The concatenation of two well-formed objects, whose sizes and numbers of records together fit a
  -- size_t, succeeds with a well-formed object that has the bytes of the first and then those of the
  -- second.
  pub create_concat-bytes :
      (r : DispatchData) × (create_concat dd1 dd2 ≡ ok r)
      × IsValid r
      × (bytes r ≡ bytes dd1 ++ bytes dd2)
  create_concat-bytes = elim (Bool-cases (size dd1 == 0)) [
    | inl e ↦ (dd2, left-empty e, w, rw (bytes-empty dd1 v ((==_iff _ _).0 e)) refl)
    | inr p ↦ elim (Bool-cases (size dd2 == 0)) [
      | inl e ↦ (
        dd1,
        right-empty p e,
        v,
        rw (bytes-empty dd2 w ((==_iff _ _).0 e)) (sym (append-nil (bytes dd1))),
      )
      | inr q ↦ (
        joined dd1 dd2,
        create_concat-eq (ground arith) (ground arith),
        joined-IsValid (ground arith) (ground arith) (num_records_pos dd1),
        bytes-joined,
      )
    ]
  ]

-- A concatenation onto the empty object gives the other object.
pub create_concat-empty : (dd : DispatchData) → create_concat data_empty dd ≡ ok dd
unfolding create_concat
create_concat-empty dd = refl
