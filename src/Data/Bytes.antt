-- ===== src/Data/Bytes.antt =====
-- The bytes that a data object stands for, the well-formed objects, and records as lists (src/data.c).
use swift_corelibs_libdispat.Common.{
  ℕ, ◌+◌, ◌≤◌, ◌<◌, ◌≡◌, refl, sym, ◌∙◌, Option, none, some, List, [], ◌++◌, length, take, drop,
  arith, take_all, ◌*◌, ◌^◌, length-append, length-take, length-drop,
}
use mathlib.Core.List.{append_assoc, append-nil}
use swift_corelibs_libdispat.Data.{
  DispatchData, leaf, composite, Records, nil, cons, size, count, append, records_of, num_records,
}

-- The bytes that an object stands for.
abbrev mutual
  pub bytes : DispatchData → List ℕ
  bytes (leaf buf) = buf
  bytes (composite _ _ rs) = record_bytes rs

  pub record_bytes : Records → List ℕ
  record_bytes nil = []
  record_bytes (cons d from len rs) = take len (drop from (bytes d)) ++ record_bytes rs

abbrev pub total : Records → ℕ
total nil = 0
total (cons _ _ len rs) = len + total rs

-- A leaf, whose size fits a size_t.
abbrev pub IsLeaf : DispatchData → Type 0
IsLeaf (leaf buf) = length buf < 2 ^ 64
IsLeaf (composite _ _ _) = ⊥

-- Each record names a range of a leaf that is not empty.
abbrev pub IsValidRecords : Records → Type 0
IsValidRecords nil = Unit
IsValidRecords (cons d from len rs) =
    IsLeaf d × (0 < len) × (from + len ≤ size d) × IsValidRecords rs

-- A flattened copy has the object's bytes.
abbrev pub IsFlat : Option (List ℕ) → List ℕ → Type 0
IsFlat none bs = Unit
IsFlat (some b) bs = b ≡ bs

-- Sizes fit a size_t, and a composite has at least one record, and the size of its records together.
abbrev pub IsValid : DispatchData → Type 0
IsValid (leaf buf) = length buf < 2 ^ 64
IsValid (composite n flat rs) =
    (n < 2 ^ 64)
    × (n ≡ total rs)
    × (0 < count rs)
    × (count rs * 24 + 80 < 2 ^ 64)
    × IsFlat flat (record_bytes rs)
    × IsValidRecords rs

pub length-slice :
    (from len : ℕ) (xs : List ℕ) → from + len ≤ length xs → length (take len (drop from xs)) ≡ len
length-slice from len xs h = omega (arith, length-take len (drop from xs), length-drop from xs)

pub length-record_bytes : (rs : Records) → IsValidRecords rs → length (record_bytes rs) ≡ total rs
length-record_bytes nil v = refl
length-record_bytes (cons (leaf buf) from len rs) v = omega (
  arith,
  length-append (take len (drop from buf)) (record_bytes rs),
  length-slice from len buf v.2,
  length-record_bytes rs v.3,
)
length-record_bytes (cons (composite n flat ss) from len rs) v = absurd v.0

pub length-bytes : (dd : DispatchData) → IsValid dd → length (bytes dd) ≡ size dd
length-bytes (leaf buf) v = refl
length-bytes (composite n flat rs) v = omega (arith, length-record_bytes rs v.5)

pub record_bytes-append :
    (rs ss : Records) → record_bytes (append rs ss) ≡ record_bytes rs ++ record_bytes ss
record_bytes-append nil ss = refl
record_bytes-append (cons d from len rs) ss =
    rw (record_bytes-append rs ss) (sym (append_assoc (take len (drop from (bytes d))) _ _))

pub total-append : (rs ss : Records) → total (append rs ss) ≡ total rs + total ss
total-append nil ss = omega arith
total-append (cons d from len rs) ss = omega (arith, total-append rs ss)

pub count-append : (rs ss : Records) → count (append rs ss) ≡ count rs + count ss
count-append nil ss = omega arith
count-append (cons d from len rs) ss = omega (arith, count-append rs ss)

pub append-IsValidRecords :
    (rs ss : Records) → IsValidRecords rs → IsValidRecords ss → IsValidRecords (append rs ss)
append-IsValidRecords nil ss v w = w
append-IsValidRecords (cons d from len rs) ss v w =
    (v.0, v.1, v.2, append-IsValidRecords rs ss v.3 w)

-- The whole of an object as records: what `create_concat` takes from each side.
pub record_bytes-records_of : (dd : DispatchData) → record_bytes (records_of dd) ≡ bytes dd
unfolding records_of
record_bytes-records_of (leaf buf) =
    append-nil (take (length buf) buf) ∙ take_all (length buf) buf (omega arith)
record_bytes-records_of (composite n flat rs) = refl

pub records_of-IsValidRecords :
    (dd : DispatchData) → IsValid dd → 0 < size dd → IsValidRecords (records_of dd)
unfolding records_of
records_of-IsValidRecords (leaf buf) v p = (v, p, omega arith, tt)
records_of-IsValidRecords (composite n flat rs) v p = v.5

pub total-records_of : (dd : DispatchData) → IsValid dd → total (records_of dd) ≡ size dd
unfolding records_of
total-records_of (leaf buf) v = omega arith
total-records_of (composite n flat rs) v = omega arith

pub count-records_of : (dd : DispatchData) → IsValid dd → count (records_of dd) ≡ num_records dd
unfolding records_of
count-records_of (leaf buf) v = refl
count-records_of (composite n flat rs) v = ground arith
