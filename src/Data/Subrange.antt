-- ===== src/Data/Subrange.antt =====
-- `dispatch_data_create_subrange` (src/data.c): it gives the bytes of the range, and never runs out of
-- the records of a well-formed object.
use swift_corelibs_libdispat.Common.{
  ℕ, suc, ◌+◌, ◌-◌, ◌*◌, ◌^◌, ◌≤◌, ◌<◌, ◌≡◌, refl, sym, ap, ◌∙◌, ◌∷◌, none, arith, inl, inr, Bool,
  true, false, Bool-cases, ◌==◌, leb, ltb, List, [], length, take, drop, length-take, length-drop,
  take_all, take-append_le, drop-append_le, drop-append_ge, ◌⊎◌,
}
use mathlib.Core.List.{append-nil}
use swift_corelibs_libdispat.Data.{
  ok, DispatchData, leaf, composite, Records, nil, cons, count, Range, nothing, whole, part, clip,
  create_subrange, subrange_records, data_empty, span_records,
}
use swift_corelibs_libdispat.Data.Bytes.{
  bytes, record_bytes, total, IsValidRecords, IsValid, length-bytes, length-slice,
}
use swift_corelibs_libdispat.Data.Span.{Gives, slice-slice, span_records-end, span_records-inner}

-- What the early tests of `create_subrange` find.
data Clipped (t o len : ℕ) : Range → Type 0 where
  is_nothing : (t ≤ o) ⊎ (len ≡ 0) → Clipped t o len nothing
  is_whole : o ≡ 0 → len ≡ t → 0 < t → Clipped t o len whole
  is_part :
      (n : ℕ) → o + n ≤ t → 0 < n → (n ≡ len) ⊎ ((n ≡ t - o) × (n < len)) → Clipped t o len (part n)

clip-Clipped : (t o len : ℕ) → Clipped t o len (clip t o len)
unfolding clip
clip-Clipped t o len = elim (Bool-cases (leb t o)) [
  | inl far ↦ rw far (is_nothing (inl (ground arith)))
  | inr near ↦ elim (Bool-cases (len == 0)) [
    | inl none' ↦ rw (near, none') (is_nothing (inr (ground arith)))
    | inr some' ↦ elim (Bool-cases (ltb (t - o) len)) [
      | inl long ↦
          rw (near, some', long)
            (is_part (t - o) (ground arith) (ground arith) (inr (ground arith)))
      | inr short ↦ elim (Bool-cases (len == t)) [
        | inl all ↦
            rw (near, some', short, all) (is_whole (ground arith) (ground arith) (ground arith))
        | inr less ↦
            rw (near, some', short, less) (is_part len (ground arith) (ground arith) (inl refl))
      ]
    ]
  ]
]

nil_of_length : (xs : List ℕ) → length xs ≡ 0 → xs ≡ []
nil_of_length [] h = refl
nil_of_length (x ∷ xs) h = absurd (omega arith)

-- The bytes of the range in each of the three cases.
slice_nothing :
    (t o len : ℕ) (xs : List ℕ) → length xs ≡ t → (t ≤ o) ⊎ (len ≡ 0) → [] ≡ take len (drop o xs)
slice_nothing t o len xs e h = sym (
    nil_of_length (take len (drop o xs))
      (omega (arith, length-take len (drop o xs), length-drop o xs)))

slice_part :
    (t o len n : ℕ) (xs : List ℕ)
    → length xs ≡ t
    → (n ≡ len) ⊎ ((n ≡ t - o) × (n < len))
    → take n (drop o xs) ≡ take len (drop o xs)
slice_part t o len n xs e (inl h) = rw h
slice_part t o len n xs e (inr h) =
    take_all n (drop o xs) (omega (arith, length-drop o xs))
    ∙ sym (take_all len (drop o xs) (omega (arith, length-drop o xs)))

leaf_part :
    (buf : List ℕ) (o n : ℕ)
    → length buf < 2 ^ 64
    → o + n ≤ length buf
    → 0 < n
    → Gives (ok (composite n none (cons (leaf buf) o n nil))) (take n (drop o buf))
leaf_part buf o n v h p = (
  composite n none (cons (leaf buf) o n nil),
  refl,
  (omega arith, omega arith, omega arith, omega arith, tt, (v, p, h, tt)),
  append-nil (take n (drop o buf)),
)

create_subrange-leaf :
    (buf : List ℕ) (o len : ℕ)
    → length buf < 2 ^ 64
    → Gives (create_subrange (leaf buf) o len) (take len (drop o buf))
unfolding create_subrange
create_subrange-leaf buf o len v =
    by_range (clip (length buf) o len) (clip-Clipped (length buf) o len)
  where
    by_range :
        (r : Range)
        → Clipped (length buf) o len r
        → Gives
            (elim r [
              | nothing ↦ ok data_empty
              | whole ↦ ok (leaf buf)
              | part n ↦ ok (composite n none (cons (leaf buf) o n nil))
            ])
            (take len (drop o buf))
    by_range nothing (is_nothing h) =
        (leaf [], refl, omega arith, slice_nothing (length buf) o len buf refl h)
    by_range whole (is_whole z e p) =
        (leaf buf, refl, v, rw (z, e) (sym (take_all (length buf) buf (omega arith))))
    by_range (part n) (is_part m h p c) =
        rw (slice_part (length buf) o len n buf refl c) at (leaf_part buf o n v h p)

-- The range from one record of a composite: it lies in that record or spans several.
module _ (buf : List ℕ) (from first o n : ℕ) (rs : Records)
    (v : IsValidRecords (cons (leaf buf) from first rs)) (few : suc (count rs) * 24 + 80 < 2 ^ 64)
    (small : n < 2 ^ 64) (inside : o < first) (room : o + n ≤ first + total rs) where
  abbrev wanted : List ℕ
  wanted = take n (drop o (record_bytes (cons (leaf buf) from first rs)))

  within_record : o + n ≤ first → Gives (create_subrange (leaf buf) (from + o) n) wanted
  within_record h =
      rw
        (
          drop-append_le o slice (record_bytes rs) (omega (arith, long)),
          take-append_le n (drop o slice) (record_bytes rs)
              (omega (arith, long, length-drop o slice)),
          slice-slice from first o n buf h,
        )
        (create_subrange-leaf buf (from + o) n v.0)
    where
      slice : List ℕ
      slice = take first (drop from buf)

      long : length slice ≡ first
      long = omega (arith, length-take first (drop from buf), length-drop from buf, v.2)

  over_records :
      (flag : Bool)
      → flag ≡ (o + n == first + total rs)
      → first < o + n
      → Gives (span_records o n flag (cons (leaf buf) from first rs)) wanted
  over_records true e h = span_records-end buf from first o n rs v few small inside h (ground arith)
  over_records false e h =
      span_records-inner buf from first o n rs v few small inside h (ground arith)

-- The three ways of the loop over the records.
module _ (d : DispatchData) (from first o n : ℕ) (flag : Bool) (rs : Records) where
  step_past :
      leb first o ≡ true
      → subrange_records (cons d from first rs) o n flag ≡ subrange_records rs (o - first) n flag
  unfolding create_subrange
  step_past h = ground arith

  step_within :
      leb first o ≡ false
      → leb (o + n) first ≡ true
      → subrange_records (cons d from first rs) o n flag ≡ create_subrange d (from + o) n
  unfolding create_subrange
  step_within h k = ground arith

  step_over :
      leb first o ≡ false
      → leb (o + n) first ≡ false
      → subrange_records (cons d from first rs) o n flag
        ≡ span_records o n flag (cons d from first rs)
  unfolding create_subrange
  step_over h k = ground arith

same_test : (o n first rest : ℕ) → first ≤ o → (o + n == first + rest) ≡ (o - first + n == rest)
same_test o n first rest h = ground arith

subrange_records-Gives :
    (rs : Records) (o n : ℕ) (flag : Bool)
    → IsValidRecords rs
    → count rs * 24 + 80 < 2 ^ 64
    → n < 2 ^ 64
    → 0 < n
    → o + n ≤ total rs
    → flag ≡ (o + n == total rs)
    → Gives (subrange_records rs o n flag) (take n (drop o (record_bytes rs)))
unfolding create_subrange
subrange_records-Gives nil o n flag v few small p room e = absurd (omega arith)
subrange_records-Gives (cons (composite m f ss) from first rs) o n flag v few small p room e =
    absurd v.0
subrange_records-Gives (cons (leaf buf) from first rs) o n flag v few small p room e =
    let past_test : first ≤ o → (o + n == first + total rs) ≡ (o - first + n == total rs) =
      λ h. same_test o n first (total rs) h in
    elim (Bool-cases (leb first o)) [
      | inl later ↦ rw (step_past (leaf buf) from first o n flag rs later) (
          rw
            (
              drop-append_ge o (take first (drop from buf)) (record_bytes rs)
                  (ground (arith, length-slice from first buf v.2)),
              length-slice from first buf v.2,
            )
            (subrange_records-Gives rs (o - first) n flag v.3 (omega arith) small p (ground arith)
              (e ∙ past_test (ground arith))))
      | inr now ↦ elim (Bool-cases (leb (o + n) first)) [
        | inl one ↦
            rw (step_within (leaf buf) from first o n flag rs now one)
              (within_record buf from first o n rs v few small (ground arith) room (ground arith))
        | inr more ↦ rw (step_over (leaf buf) from first o n flag rs now more) (
            over_records buf from first o n rs v few small (ground arith) room flag e
              (ground arith))
      ]
    ]

-- `create_subrange` of a well-formed object succeeds for every offset and length, with a well-formed
-- object that has the bytes of the range that lie in the object.
pub create_subrange-bytes :
    (dd : DispatchData) (offset len : ℕ)
    → IsValid dd
    → (r : DispatchData) × (create_subrange dd offset len ≡ ok r)
      × IsValid r
      × (bytes r ≡ take len (drop offset (bytes dd)))
unfolding create_subrange
create_subrange-bytes (leaf buf) o len v = create_subrange-leaf buf o len v
create_subrange-bytes (composite t flat rs) o len v = by_range (clip t o len) (clip-Clipped t o len)
  where
    by_range :
        (r : Range)
        → Clipped t o len r
        → Gives
            (elim r [
              | nothing ↦ ok data_empty
              | whole ↦ ok (composite t flat rs)
              | part n ↦ subrange_records rs o n (o + n == t)
            ])
            (take len (drop o (record_bytes rs)))
    by_range nothing (is_nothing h) = (
      leaf [],
      refl,
      omega arith,
      slice_nothing t o len (record_bytes rs) (length-bytes (composite t flat rs) v) h,
    )
    by_range whole (is_whole z e p) = (
      composite t flat rs,
      refl,
      v,
      rw z (
          sym
            (take_all len (record_bytes rs) (omega (arith, length-bytes (composite t flat rs) v)))),
    )
    by_range (part n) (is_part m h p c) =
        rw (slice_part t o len n (record_bytes rs) (length-bytes (composite t flat rs) v) c) at (
          subrange_records-Gives rs o n (o + n == t) v.5 v.3 (omega arith) p (omega arith)
            (ap (λ (k : ℕ). o + n == k) v.1))
