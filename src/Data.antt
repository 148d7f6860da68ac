-- ===== src/Data.antt =====
-- src/data.c and src/data_internal.h: dispatch data objects, on a 64-bit Linux build (objects are
-- not bridged to NSData). An object is immutable but for its flattened copy, so it is a value here
-- and reference counts are left out. Sizes are size_t: every sum and difference below stays inside
-- the size of an object, but for the sum in `create_concat`, which is written out.
pub mod Bytes
pub mod Concat
mod Span
pub mod Subrange
pub mod Apply
pub mod Map
mod Region
mod Tests
use swift_corelibs_libdispat.Common.{
  ℕ, zero, suc, ◌+◌, ◌-◌, ◌*◌, ◌%◌, ◌^◌, ◌≤◌, ◌<◌, ◌≡◌, Bool, true, false, ◌&&◌, ◌||◌, leb, ltb,
  ◌==◌, if◌then◌else◌, Option, none, some, List, [], ◌∷◌, ◌++◌, length, take, drop,
}
use mathlib.Core.Option

-- What a call ends with: a value, DISPATCH_OUT_OF_MEMORY, or a crash (DISPATCH_INTERNAL_CRASH, or
-- the use of the null pointer that a failed allocation gave, or of memory past a buffer).
pub data Outcome {ℓ} (A : Type ℓ) : Type ℓ where
  ok : A → Outcome A
  out_of_memory : Outcome A
  crash : Outcome A

-- `struct dispatch_data_s`, with its `range_record`s. A leaf (num_records == 0) has the bytes at
-- `buf`, as many as `size`; a composite has `size`, `buf` (the flattened copy, or NULL) and records.
mutual
  pub data DispatchData : Type 0 where
    leaf : List ℕ → DispatchData
    composite : ℕ → Option (List ℕ) → Records → DispatchData

  -- `{ data_object, from, length }`, and the records after it
  pub data Records : Type 0 where
    nil : Records
    cons : DispatchData → ℕ → ℕ → Records → Records

abbrev pub size : DispatchData → ℕ
size (leaf buf) = length buf
size (composite n _ _) = n

abbrev pub count : Records → ℕ
count nil = 0
count (cons _ _ _ rs) = suc (count rs)

abbrev pub append : Records → Records → Records
append nil ss = ss
append (cons d from len rs) ss = cons d from len (append rs ss)

abbrev pub take_records : ℕ → Records → Records
take_records zero rs = nil
take_records (suc n) nil = nil
take_records (suc n) (cons d from len rs) = cons d from len (take_records n rs)

-- `_dispatch_data_num_records`
abbrev pub num_records : DispatchData → ℕ
num_records (leaf _) = 1
num_records (composite _ _ rs) = if count rs == 0 then 1 else count rs

-- `dispatch_data_empty`
abbrev pub data_empty : DispatchData
data_empty = leaf []

-- The size that `_dispatch_data_alloc` computes fits a size_t: the struct takes 80 bytes and a record
-- 24. (The allocation itself is retried until it succeeds.)
pub alloc_fits : ℕ → ℕ → Bool
alloc_fits n extra = ltb (80 + extra) (2 ^ 64) && ltb (n * 24 + (80 + extra)) (2 ^ 64)

-- The records that a concatenation takes from one side.
pub records_of : DispatchData → Records
records_of (leaf buf) = cons (leaf buf) 0 (length buf) nil
records_of (composite _ _ rs) = rs

-- `dispatch_data_create_concat`
unfoldable pub create_concat : DispatchData → DispatchData → Outcome DispatchData
unfolding alloc_fits records_of
create_concat dd1 dd2 =
    if size dd1 == 0
    then ok dd2
    else (if size dd2 == 0
        then ok dd1
        else (if leb (2 ^ 64) (num_records dd1 + num_records dd2)
            then out_of_memory
            else (if alloc_fits (num_records dd1 + num_records dd2) 0
                then ok (
                    composite ((size dd1 + size dd2) % 2 ^ 64) none
                      (append (records_of dd1) (records_of dd2)))
                else crash)))

-- The loop of `dispatch_data_create_subrange` that looks for the record with the end of the range:
-- the number of records and the length of the last one.
pub find_end : ℕ → ℕ → Records → Outcome (ℕ × ℕ)
find_end n last_length nil = ok (n, last_length)
find_end n last_length (cons d from len rs) =
    let rest : Outcome (ℕ × ℕ) = find_end (n + 1) (last_length - len) rs in
    if leb last_length len then ok (n + 1, last_length) else (if count rs == 0 then crash else rest)

-- `records[0].from += offset; records[0].length -= offset`
pub trim_first : ℕ → Records → Records
trim_first offset nil = nil
trim_first offset (cons d from len rs) = cons d (from + offset) (len - offset) rs

-- `records[count - 1].length = last_length`
pub trim_last : ℕ → Records → Records
trim_last last_length nil = nil
trim_last last_length (cons d from len nil) = cons d from last_length nil
trim_last last_length (cons d from len (cons e from' len' rs)) =
    cons d from len (trim_last last_length (cons e from' len' rs))

-- The copied and trimmed records of a range over several records, of which `rs` starts with the one
-- that has the offset.
pub copy_records : ℕ → ℕ → Bool → ℕ → ℕ → Records → Outcome DispatchData
unfolding alloc_fits trim_first trim_last
copy_records offset len to_the_end n last_length rs =
    let copied : Records = trim_first offset (take_records n rs) in
    if alloc_fits n 0
    then ok (composite len none (if to_the_end then copied else trim_last last_length copied))
    else crash

-- The range from the record that has the offset to a later one.
pub span_records : ℕ → ℕ → Bool → Records → Outcome DispatchData
unfolding find_end copy_records
span_records offset len to_the_end nil = crash
span_records offset len to_the_end (cons d from first rs) =
    if to_the_end
    then copy_records offset len true (suc (count rs)) 0 (cons d from first rs)
    else (elim (find_end 1 (len - (first - offset)) rs) [
      | ok (n, last_length) ↦ copy_records offset len false n last_length (cons d from first rs)
      | out_of_memory ↦ out_of_memory
      | crash ↦ crash
    ])

-- The cases that `dispatch_data_create_subrange` tells apart before it looks at the records: nothing,
-- the whole object, or a range of it with its clipped length.
pub data Range : Type 0 where
  nothing whole : Range
  part : ℕ → Range

pub clip : ℕ → ℕ → ℕ → Range
clip total offset len =
    if leb total offset || len == 0
    then nothing
    else (if ltb (total - offset) len
        then part (total - offset)
        else (if len == total then whole else part len))

-- `dispatch_data_create_subrange`, and its loop over the records, which calls it on the one object
-- that holds the whole range.
unfoldable mutual
  unfolding clip alloc_fits span_records

  pub create_subrange : DispatchData → ℕ → ℕ → Outcome DispatchData
  create_subrange (leaf buf) offset len = elim (clip (length buf) offset len) [
    | nothing ↦ ok data_empty
    | whole ↦ ok (leaf buf)
    | part n ↦
        (if alloc_fits 1 0 then ok (composite n none (cons (leaf buf) offset n nil)) else crash)
  ]
  create_subrange (composite total flat rs) offset len = elim (clip total offset len) [
    | nothing ↦ ok data_empty
    | whole ↦ ok (composite total flat rs)
    | part n ↦ subrange_records rs offset n (offset + n == total)
  ]

  pub subrange_records : Records → ℕ → ℕ → Bool → Outcome DispatchData
  subrange_records nil offset len to_the_end = crash
  subrange_records (cons d from first rs) offset len to_the_end = elim (leb first offset) [
    | true ↦ subrange_records rs (offset - first) len to_the_end
    | false ↦ elim (leb (offset + len) first) [
      | true ↦ create_subrange d (from + offset) len
      | false ↦ span_records offset len to_the_end (cons d from first rs)
    ]
  ]

-- `_dispatch_data_map_direct`: the buffer from `offset` on, the object it belongs to, and the offset
-- in that object.
direct : DispatchData → ℕ → Option (List ℕ) × DispatchData × ℕ
direct (leaf buf) offset = (some (drop offset buf), leaf buf, offset)
direct (composite n flat rs) offset = (Option.map (drop offset) flat, composite n flat rs, offset)

unfoldable pub map_direct : DispatchData → ℕ → Option (List ℕ) × DispatchData × ℕ
unfolding direct
map_direct (composite n flat (cons d from len nil)) offset = direct d (offset + from)
map_direct dd offset = direct dd offset

-- `dispatch_data_apply_f` for an applier that keeps its context in a state; it gets the region, the
-- offset and the bytes that `buffer` and `size` name.
module _ {ℓ} {S : Type ℓ} (applier : S → DispatchData → ℕ → List ℕ → S × Bool) where
  -- `_dispatch_data_apply`; the loop over the records ends when a call returns false.
  unfoldable mutual
    unfolding map_direct

    pub apply : DispatchData → ℕ → ℕ → ℕ → S → S × Bool
    apply (leaf buf) offset from n s = applier s (leaf buf) offset (take n (drop from buf))
    apply (composite total flat rs) offset from n s =
        elim (map_direct (composite total flat rs) 0).0 [
          | some buf ↦ applier s (composite total flat rs) offset (take n (drop from buf))
          | none ↦ apply_records rs offset s
        ]

    pub apply_records : Records → ℕ → S → S × Bool
    apply_records nil offset s = (s, true)
    apply_records (cons d from len rs) offset s =
        let r : S × Bool = apply d offset from len s in
        let rest : S × Bool = apply_records rs (offset + len) r.0 in
        if r.1 then rest else (r.0, false)

  unfoldable pub apply_f : DispatchData → S → S × Bool
  apply_f dd s = if size dd == 0 then (s, true) else apply dd 0 0 (size dd) s

-- memcpy(buffer + off, buf, len)
pub memcpy : List ℕ → DispatchData → ℕ → List ℕ → List ℕ × Bool
memcpy buffer region off buf = (take off buffer ++ (buf ++ drop (off + length buf) buffer), true)

-- `_dispatch_data_flatten`, into the memory that malloc gave.
pub flatten : DispatchData → List ℕ → List ℕ
unfolding apply_f memcpy
flatten dd memory = (apply_f memcpy dd memory).0

-- `dispatch_data_create_map`: the object, the buffer and its size. `malloc` gives the memory of the
-- flattened copy, or `none`.
unfoldable pub create_map :
    (malloc : ℕ → Option (List ℕ)) → DispatchData → Option DispatchData × Option (List ℕ) × ℕ
unfolding map_direct flatten
create_map malloc dd =
    if size dd == 0 then (some data_empty, none, 0) else (elim (map_direct dd 0).0 [
      | some buf ↦ (some dd, some buf, size dd)
      | none ↦ elim (malloc (size dd)) [
        | some memory ↦ (some (leaf (flatten dd memory)), some (flatten dd memory), size dd)
        | none ↦ (none, none, 0)
      ]
    ])

-- The end of `_dispatch_data_copy_region` where the region has a buffer of its own.
box : DispatchData → ℕ → ℕ → DispatchData
box inner from n =
    if from == 0 && n == size inner then inner else composite n none (cons inner from n nil)

-- `_dispatch_data_copy_region`, with the offset that it adds to. An object asked for as a whole is
-- given back as it stands, if it has a buffer. The trivial subrange of a composite is seen through,
-- also where that has no buffer.
unfoldable mutual
  unfolding box

  pub copy_region_in : DispatchData → ℕ → ℕ → ℕ → ℕ → Outcome (DispatchData × ℕ)
  copy_region_in (leaf buf) from n location offset = ok (box (leaf buf) from n, offset)
  copy_region_in (composite total flat (cons (leaf buf) start len nil)) from n location offset =
      if from == 0 && n == total
      then ok (composite total flat (cons (leaf buf) start len nil), offset)
      else ok (box (leaf buf) (from + start) n, offset)
  copy_region_in (composite total flat (cons (composite m f rs) start len nil)) from n location
        offset =
      elim f [
        | some b ↦
            (if from == 0 && n == total
              then ok (composite total flat (cons (composite m (some b) rs) start len nil), offset)
              else ok (box (composite m (some b) rs) (from + start) n, offset))
        | none ↦ copy_region_records rs (from + start) location 0 offset
      ]
  copy_region_in (composite total flat rs) from n location offset = elim flat [
    | some b ↦ ok (box (composite total (some b) rs) from n, offset)
    | none ↦ copy_region_records rs from location 0 offset
  ]

  pub copy_region_records : Records → ℕ → ℕ → ℕ → ℕ → Outcome (DispatchData × ℕ)
  copy_region_records nil from location passed offset = crash
  copy_region_records (cons d start len rs) from location passed offset = elim (leb len from) [
    | true ↦ copy_region_records rs (from - len) location passed offset
    | false ↦ elim (leb (passed + (len - from)) location) [
      | true ↦ copy_region_records rs 0 location (passed + (len - from)) offset
      | false ↦ copy_region_in d (from + start) (len - from) (location - passed) (offset + passed)
    ]
  ]

-- `dispatch_data_copy_region`: the region and its offset.
pub copy_region : DispatchData → ℕ → Outcome (DispatchData × ℕ)
unfolding copy_region_in
copy_region dd location =
    if leb (size dd) location
    then ok (data_empty, size dd)
    else copy_region_in dd 0 (size dd) location 0
