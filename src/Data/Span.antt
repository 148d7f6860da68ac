-- ===== src/Data/Span.antt =====
-- The part of `dispatch_data_create_subrange` (src/data.c) for a range over several records.
use swift_corelibs_libdispat.Common.{
  ℕ, zero, suc, ◌+◌, ◌-◌, ◌*◌, ◌^◌, ◌≤◌, ◌<◌, ◌≡◌, refl, sym, ap, ◌∙◌, ◌++◌, none, arith, inl, inr,
  true, false, Bool-cases, leb, List, length, take, drop, length-take, length-drop, take_all,
  take-append_le, take-append_ge, drop-append_le, drop-drop, take-take, drop-take,
}
use mathlib.Core.List.{append-nil}
use swift_corelibs_libdispat.Data.{
  Outcome, ok, DispatchData, leaf, composite, Records, nil, cons, count, take_records, alloc_fits,
  find_end, trim_last, copy_records, span_records,
}
use swift_corelibs_libdispat.Data.Bytes.{
  bytes, record_bytes, total, IsValidRecords, IsValid, length-record_bytes,
}

-- A slice of a slice of bytes.
pub slice-slice :
    (from len o n : ℕ) (xs : List ℕ)
    → o + n ≤ len
    → take n (drop o (take len (drop from xs))) ≡ take n (drop (from + o) xs)
slice-slice from len o n xs h =
    rw (drop-take o len (drop from xs), drop-drop o from xs)
      (take-take n (len - o) (drop (from + o) xs) (omega arith))

-- A range that starts inside the first of two lists and ends in the second.
slice_over :
    (o n : ℕ) (xs ys : List ℕ)
    → o ≤ length xs
    → length xs ≤ o + n
    → take n (drop o (xs ++ ys)) ≡ drop o xs ++ take (o + n - length xs) ys
slice_over o n xs ys h k =
    rw (drop-append_le o xs ys h, take-append_ge n (drop o xs) ys (omega (arith, length-drop o xs)))
      (ap (λ (m : ℕ). drop o xs ++ take m ys) (omega (arith, length-drop o xs)))

-- The records of the range: the first `n`, the last of them cut to `last_length`.
abbrev kept : ℕ → ℕ → Records → Records
kept n last_length rs = trim_last last_length (take_records n rs)

-- What a successful search for the end gives for a length `len` of bytes from the records' start.
record IsCut (k n last_length len : ℕ) (rs : Records) : Type 0 where
  pub ends : find_end k len rs ≡ ok (k + n, last_length)
  pub some_records : 0 < n
  pub enough : n ≤ count rs
  pub cut : record_bytes (kept n last_length rs) ≡ take len (record_bytes rs)
  pub length : total (kept n last_length rs) ≡ len
  pub valid : IsValidRecords (kept n last_length rs)
  pub kept_count : count (kept n last_length rs) ≡ n

trim_last-cons :
    (m from l : ℕ) (d : DispatchData) (rs : Records)
    → 0 < count rs
    → trim_last m (cons d from l rs) ≡ cons d from l (trim_last m rs)
unfolding trim_last
trim_last-cons m from l d nil h = absurd (omega arith)
trim_last-cons m from l d (cons e from' l' rs) h = refl

count-take_records : (n : ℕ) (rs : Records) → n ≤ count rs → count (take_records n rs) ≡ n
count-take_records zero rs h = refl
count-take_records (suc n) nil h = absurd (omega arith)
count-take_records (suc n) (cons d from l rs) h = ap suc (count-take_records n rs (omega arith))

kept-cons :
    (n m from l : ℕ) (d : DispatchData) (rs : Records)
    → 0 < n
    → n ≤ count rs
    → kept (suc n) m (cons d from l rs) ≡ cons d from l (kept n m rs)
kept-cons n m from l d rs p h =
    trim_last-cons m from l d (take_records n rs) (omega (arith, count-take_records n rs h))

module _ (buf : List ℕ) (from l k len : ℕ) (rs : Records)
    (v : IsValidRecords (cons (leaf buf) from l rs)) (p : 0 < len) where
  ends_here : len ≤ l → IsCut k 1 len len (cons (leaf buf) from l rs)
  unfolding find_end trim_last
  ends_here e = record {
    ends = ground arith;
    some_records = omega arith;
    enough = omega arith;
    cut =
        append-nil (take len (drop from buf))
        ∙ sym (
            take-append_le len (take l (drop from buf)) (record_bytes rs)
              (omega (arith, length-take l (drop from buf), length-drop from buf, v.2))
            ∙ take-take len l (drop from buf) e);
    length = omega arith;
    valid = (v.0, p, omega arith, tt);
    kept_count = refl;
  }

  ends_later :
      (n last : ℕ)
      → l < len
      → len ≤ l + total rs
      → IsCut (k + 1) n last (len - l) rs
      → IsCut k (suc n) last len (cons (leaf buf) from l rs)
  unfolding find_end
  ends_later n last e h r = record {
    ends = ground (arith, r.ends, r.some_records, r.enough);
    some_records = omega arith;
    enough = omega (arith, r.enough);
    cut =
        rw (kept-cons n last from l (leaf buf) rs r.some_records r.enough, r.cut)
          (sym (
            rw
              (take-append_ge len (take l (drop from buf)) (record_bytes rs) (omega (arith, whole)))
              (ap (λ (m : ℕ). take l (drop from buf) ++ take m (record_bytes rs))
                (omega (arith, whole)))));
    length =
        rw (kept-cons n last from l (leaf buf) rs r.some_records r.enough)
          (omega (arith, r.length));
    valid =
        rw (kept-cons n last from l (leaf buf) rs r.some_records r.enough) (v.0, v.1, v.2, r.valid);
    kept_count =
        rw (kept-cons n last from l (leaf buf) rs r.some_records r.enough) (ap suc r.kept_count);
  }
    where
      whole : length (take l (drop from buf)) ≡ l
      whole = omega (arith, length-take l (drop from buf), length-drop from buf, v.2)

-- The search ends in a record of the object.
find_end-IsCut :
    (rs : Records) (k len : ℕ)
    → IsValidRecords rs
    → 0 < len
    → len ≤ total rs
    → (n : ℕ) × (last : ℕ) × IsCut k n last len rs
find_end-IsCut nil k len v p h = absurd (omega arith)
find_end-IsCut (cons (composite m f ss) from l rs) k len v p h = absurd v.0
find_end-IsCut (cons (leaf buf) from l rs) k len v p h = elim (Bool-cases (leb len l)) [
  | inl here ↦ (1, len, ends_here buf from l k len rs v p (ground arith))
  | inr more ↦
      let (n, last, r) = find_end-IsCut rs (k + 1) (len - l) v.3 (ground arith) (ground arith) in
      (suc n, last, ends_later buf from l k len rs v p n last (ground arith) h r)
]

take_records_all : (rs : Records) → take_records (count rs) rs ≡ rs
take_records_all nil = refl
take_records_all (cons d from l rs) = ap (cons d from l) (take_records_all rs)

alloc_fits-few : (n : ℕ) → n * 24 + 80 < 2 ^ 64 → alloc_fits n 0 ≡ true
unfolding alloc_fits
alloc_fits-few n h = ground arith

copy_records-end :
    (offset len from first : ℕ) (d : DispatchData) (rs : Records)
    → suc (count rs) * 24 + 80 < 2 ^ 64
    → copy_records offset len true (suc (count rs)) 0 (cons d from first rs)
      ≡ ok (composite len none (cons d (from + offset) (first - offset) rs))
unfolding copy_records
copy_records-end offset len from first d rs h =
    rw (alloc_fits-few (suc (count rs)) h, take_records_all rs)

copy_records-inner :
    (offset len n last from first : ℕ) (d : DispatchData) (rs : Records)
    → 0 < n
    → n ≤ count rs
    → suc (count rs) * 24 + 80 < 2 ^ 64
    → copy_records offset len false (1 + n) last (cons d from first rs)
      ≡ ok (composite len none (cons d (from + offset) (first - offset) (kept n last rs)))
unfolding copy_records
copy_records-inner offset len n last from first d rs p c h =
    let e : 1 + n ≡ suc n = omega arith in
    rw (e, alloc_fits-few (suc n) (omega arith))
      (rw (
        trim_last-cons last (from + offset) (first - offset) d (take_records n rs)
          (omega (arith, count-take_records n rs c))))

-- A call succeeds with a well-formed object that has the bytes `bs`.
abbrev pub Gives : Outcome DispatchData → List ℕ → Type 0
Gives o bs = (r : DispatchData) × (o ≡ ok r) × IsValid r × (bytes r ≡ bs)

-- A range over several records, the first of which is a leaf.
module _ (buf : List ℕ) (from first offset len : ℕ) (rs : Records)
    (v : IsValidRecords (cons (leaf buf) from first rs)) (few : suc (count rs) * 24 + 80 < 2 ^ 64)
    (small : len < 2 ^ 64) (inside : offset < first) (beyond : first < offset + len) where
  abbrev spanned : Records → DispatchData
  spanned rest = composite len none (cons (leaf buf) (from + offset) (first - offset) rest)

  spanned-IsValid :
      (rest : Records)
      → total rest ≡ len - (first - offset)
      → count rest ≤ count rs
      → IsValidRecords rest
      → IsValid (spanned rest)
  spanned-IsValid rest t c w =
      (small, omega arith, omega arith, omega arith, tt, (v.0, omega arith, omega arith, w))

  bytes-spanned :
      (rest : Records)
      → record_bytes rest ≡ take (len - (first - offset)) (record_bytes rs)
      → bytes (spanned rest) ≡ take len (drop offset (record_bytes (cons (leaf buf) from first rs)))
  bytes-spanned rest e =
      rw
        (
          slice_over offset len slice (record_bytes rs) (omega (arith, whole))
              (omega (arith, whole)),
          drop-take offset first (drop from buf),
          drop-drop offset from buf,
          e,
        )
        (ap
          (λ (m : ℕ). take (first - offset) (drop (from + offset) buf) ++ take m (record_bytes rs))
          (omega (arith, whole)))
    where
      slice : List ℕ
      slice = take first (drop from buf)

      whole : length slice ≡ first
      whole = omega (arith, length-take first (drop from buf), length-drop from buf, v.2)

  pub span_records-end :
      offset + len ≡ first + total rs
      → Gives
          (span_records offset len true (cons (leaf buf) from first rs))
          (take len (drop offset (record_bytes (cons (leaf buf) from first rs))))
  unfolding span_records
  span_records-end e = (
    spanned rs,
    copy_records-end offset len from first (leaf buf) rs few,
    spanned-IsValid rs (omega arith) (omega arith) v.3,
    bytes-spanned rs
        (sym (take_all _ (record_bytes rs) (omega (arith, length-record_bytes rs v.3)))),
  )

  pub span_records-inner :
      offset + len < first + total rs
      → Gives
          (span_records offset len false (cons (leaf buf) from first rs))
          (take len (drop offset (record_bytes (cons (leaf buf) from first rs))))
  unfolding span_records
  span_records-inner e =
      let (n, last, r) =
        find_end-IsCut rs 1 (len - (first - offset)) v.3 (omega arith) (omega arith) in
      (
        spanned (kept n last rs),
        rw r.ends (
            copy_records-inner offset len n last from first (leaf buf) rs r.some_records r.enough
              few),
        spanned-IsValid (kept n last rs) r.length (omega (arith, r.enough, r.kept_count)) r.valid,
        bytes-spanned (kept n last rs) r.cut,
      )
