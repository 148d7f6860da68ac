-- ===== src/Data/Region.antt =====
-- `dispatch_data_copy_region` (src/data.c): the region around a location.
use swift_corelibs_libdispat.Common.{
  ℕ, ◌+◌, ◌-◌, ◌≤◌, ◌<◌, ◌≡◌, ◌⊎◌, refl, sym, ap, ◌∙◌, subst, ◌++◌, none, some, arith, inl, inr,
  Bool, true, false, Bool-cases, Option, ◌==◌, ◌&&◌, List, length, take, drop, take_all,
  length-append, dec_le, ◌^◌, take-append_le, drop-append_ge,
}
use mathlib.Core.List.{append-nil}
use swift_corelibs_libdispat.Data.{
  ok, DispatchData, leaf, composite, Records, nil, cons, size, box, copy_region_in,
  copy_region_records, copy_region,
}
use swift_corelibs_libdispat.Data.Bytes.{
  bytes, record_bytes, total, IsValidRecords, IsValid, length-bytes, length-slice,
}

-- The bytes of the object are in one piece of memory: it is a leaf, a part of a leaf, or has a flat buffer.
abbrev pub is_contiguous : DispatchData → Bool
is_contiguous (leaf buf) = true
is_contiguous (composite n (some b) rs) = true
is_contiguous (composite n none (cons (leaf buf) start len nil)) = true
is_contiguous _ = false

-- One of the regions that an object represents, by its offset and its length: that of a record, or the
-- whole of an object with one buffer.
abbrev pub IsRecord : Records → ℕ → ℕ → Type 0
IsRecord nil offset n = ⊥
IsRecord (cons d start len rs) offset n =
    (offset ≡ 0) × (n ≡ len) ⊎ (len ≤ offset) × IsRecord rs (offset - len) n

abbrev pub IsRegion : DispatchData → ℕ → ℕ → Type 0
IsRegion (leaf buf) offset n = (offset ≡ 0) × (n ≡ length buf)
IsRegion (composite total (some b) rs) offset n = (offset ≡ 0) × (n ≡ total)
IsRegion (composite total none rs) offset n = IsRecord rs offset n

-- The object `r`, which is in one piece, at `offset`, has the bytes of `bs` there, and `location` lies in it.
pub record IsAround (bs : List ℕ) (location : ℕ) (r : DispatchData) (offset : ℕ) : Type 0 where
  pub valid : IsValid r
  pub contiguous : is_contiguous r ≡ true
  pub starts : offset ≤ location
  pub ends : location < offset + size r
  pub inside : offset + size r ≤ length bs
  pub same : bytes r ≡ take (size r) (drop offset bs)

box-leaf :
    (buf : List ℕ) (start len : ℕ)
    → length buf < 2 ^ 64
    → 0 < len
    → start + len ≤ length buf
    → IsValid (box (leaf buf) start len)
      × (size (box (leaf buf) start len) ≡ len)
      × (bytes (box (leaf buf) start len) ≡ take len (drop start buf))
      × (is_contiguous (box (leaf buf) start len) ≡ true)
unfolding box
box-leaf buf start len v p h = elim (Bool-cases (start == 0 && len == length buf)) [
  | inl all ↦ rw all (v, ground arith, ground (arith, take_all len buf), refl)
  | inr less ↦ rw less (
    (omega arith, omega arith, omega arith, omega arith, tt, (v, p, h, tt)),
    refl,
    append-nil (take len (drop start buf)),
    refl,
  )
]

module _ (buf : List ℕ) (start len location passed : ℕ) (rs : Records) (p : 0 < len) where
  step_past :
      passed + len ≤ location
      → copy_region_records (cons (leaf buf) start len rs) 0 location passed 0
        ≡ copy_region_records rs 0 location (passed + len) 0
  unfolding copy_region_in
  step_past h = ground arith

  step_here :
      location < passed + len
      → copy_region_records (cons (leaf buf) start len rs) 0 location passed 0
        ≡ ok (box (leaf buf) start len, passed)
  unfolding copy_region_in
  step_here h = ground arith

-- A region of later records, counted from an earlier start.
IsAround-append :
    (xs ys : List ℕ) (location location' o : ℕ) (r : DispatchData)
    → location ≡ length xs + location'
    → IsAround ys location' r o
    → IsAround (xs ++ ys) location r (length xs + o)
IsAround-append xs ys location location' o r e a = record {
  valid = a.valid;
  contiguous = a.contiguous;
  starts = omega (arith, a.starts);
  ends = omega (arith, a.ends);
  inside = omega (arith, a.inside, length-append xs ys);
  same =
      rw (drop-append_ge (length xs + o) xs ys (omega arith))
        (a.same ∙ ap (λ (k : ℕ). take (size r) (drop k ys)) (omega arith));
}

module _ (buf : List ℕ) (start len location passed : ℕ) (rs : Records) where
  further_region :
      start + len ≤ length buf
      → 0 < len
      → passed + len ≤ location
      → ((r : DispatchData) × (k : ℕ) × (copy_region_records rs 0 location (passed + len) 0
            ≡ ok (r, passed + len + k))
          × IsAround (record_bytes rs) (location - (passed + len)) r k
          × IsRecord rs k (size r))
      → (r : DispatchData) × (k : ℕ) × (copy_region_records
            (cons (leaf buf) start len rs)
            0
            location
            passed
            0
          ≡ ok (r, passed + k))
        × IsAround (record_bytes (cons (leaf buf) start len rs)) (location - passed) r k
        × IsRecord (cons (leaf buf) start len rs) k (size r)
  further_region fits p h (r, k, e, a, q) =
      let whole = length-slice start len buf fits in
      (
        r,
        length (take len (drop start buf)) + k,
        step_past buf start len location passed rs p h
            ∙ e
            ∙ ap (λ (n : ℕ). ok (r, n)) (omega (arith, whole)),
        IsAround-append (take len (drop start buf)) (record_bytes rs) _ _ k r (omega (arith, whole))
            a,
        inr (
          omega (arith, whole),
          subst (λ (m : ℕ). IsRecord rs m (size r)) (omega (arith, whole)) q,
        ),
      )

  this_record :
      IsValidRecords (cons (leaf buf) start len rs)
      → passed ≤ location
      → location < passed + len
      → IsAround
          (record_bytes (cons (leaf buf) start len rs))
          (location - passed)
          (box (leaf buf) start len)
          0
  this_record v h k =
      let boxed = box-leaf buf start len v.0 v.1 v.2 in
      let whole = length-slice start len buf v.2 in
      record {
        valid = boxed.0;
        contiguous = boxed.3;
        starts = omega arith;
        ends = omega (arith, boxed.1);
        inside =
            omega
              (arith, boxed.1, whole, length-append (take len (drop start buf)) (record_bytes rs));
        same = rw boxed.1 (
            boxed.2
            ∙ sym (
                take-append_le len (take len (drop start buf)) (record_bytes rs)
                  (omega (arith, whole))
                ∙ take_all len (take len (drop start buf)) (omega (arith, whole))));
      }

-- The loop over the records, at the start of a record.
region_records :
    (rs : Records) (location passed : ℕ)
    → IsValidRecords rs
    → passed ≤ location
    → location < passed + total rs
    → (r : DispatchData) × (k : ℕ) × (copy_region_records rs 0 location passed 0
        ≡ ok (r, passed + k))
      × IsAround (record_bytes rs) (location - passed) r k
      × IsRecord rs k (size r)
region_records nil location passed v h k = absurd (omega arith)
region_records (cons (composite m f ss) start len rs) location passed v h k = absurd v.0
region_records (cons (leaf buf) start len rs) location passed v h k =
    elim (dec_le (passed + len) location) [
      | yes later ↦
          further_region buf start len location passed rs v.2 v.1 later
            (region_records rs location (passed + len) v.3 later (omega arith))
      | no here ↦ (
        box (leaf buf) start len,
        0,
        rw (step_here buf start len location passed rs v.1 (omega arith))
            (ap (λ (n : ℕ). ok (box (leaf buf) start len, n)) (omega arith)),
        this_record buf start len location passed rs v h (omega arith),
        inl (refl, (box-leaf buf start len v.0 v.1 v.2).1),
      )
    ]

whole-IsAround :
    (dd : DispatchData) (location : ℕ)
    → IsValid dd
    → is_contiguous dd ≡ true
    → location < size dd
    → IsAround (bytes dd) location dd 0
whole-IsAround dd location v c h = record {
  valid = v;
  contiguous = c;
  starts = omega arith;
  ends = omega arith;
  inside = omega (arith, length-bytes dd v);
  same = sym (take_all (size dd) (bytes dd) (omega (arith, length-bytes dd v)));
}

one_piece :
    (n : ℕ) (flat : Option (List ℕ)) (buf : List ℕ) (start len : ℕ)
    → is_contiguous (composite n flat (cons (leaf buf) start len nil)) ≡ true
one_piece n none buf start len = refl
one_piece n (some b) buf start len = refl

single-IsRegion :
    (n : ℕ) (flat : Option (List ℕ)) (buf : List ℕ) (start len : ℕ)
    → IsValid (composite n flat (cons (leaf buf) start len nil))
    → IsRegion (composite n flat (cons (leaf buf) start len nil)) 0 n
single-IsRegion n none buf start len v = inl (refl, omega arith)
single-IsRegion n (some b) buf start len v = (refl, refl)

-- How a call starts for each kind of object.
at_leaf :
    (buf : List ℕ) (location : ℕ)
    → location < length buf
    → copy_region (leaf buf) location ≡ ok (leaf buf, 0)
unfolding copy_region
at_leaf buf location h = ground arith

at_single :
    (n : ℕ) (flat : Option (List ℕ)) (buf : List ℕ) (start len location : ℕ)
    → location < n
    → copy_region (composite n flat (cons (leaf buf) start len nil)) location
      ≡ ok (composite n flat (cons (leaf buf) start len nil), 0)
unfolding copy_region
at_single n flat buf start len location h = ground arith

module _ (n : ℕ) (buf : List ℕ) (d : DispatchData) (s l s' l' : ℕ) (rs : Records) (location : ℕ)
    (h : location < n) where
  at_flat :
      (b : List ℕ)
      → copy_region (composite n (some b) (cons (leaf buf) s l (cons d s' l' rs))) location
        ≡ ok (composite n (some b) (cons (leaf buf) s l (cons d s' l' rs)), 0)
  unfolding copy_region
  at_flat b = ground arith

  at_records :
      copy_region (composite n none (cons (leaf buf) s l (cons d s' l' rs))) location
      ≡ copy_region_records (cons (leaf buf) s l (cons d s' l' rs)) 0 location 0 0
  unfolding copy_region
  at_records = ground arith

-- `dispatch_data_copy_region` of a location inside a well-formed object succeeds with a well-formed
-- region and its offset: the location lies in the region, which is in one piece of memory, is the whole of
-- one of those that the object represents, and has the object's bytes there.
pub copy_region-IsAround :
    (dd : DispatchData) (location : ℕ)
    → IsValid dd
    → location < size dd
    → (r : DispatchData) × (offset : ℕ) × (copy_region dd location ≡ ok (r, offset))
      × IsAround (bytes dd) location r offset
      × IsRegion dd offset (size r)
copy_region-IsAround (leaf buf) location v h =
    (leaf buf, 0, at_leaf buf location h, whole-IsAround (leaf buf) location v refl h, (refl, refl))
copy_region-IsAround (composite n flat nil) location v h = absurd (omega arith)
copy_region-IsAround (composite n flat (cons (composite m f ss) start len rs)) location v h =
    absurd v.5.0
copy_region-IsAround (composite n flat (cons (leaf buf) start len nil)) location v h = (
  _,
  0,
  at_single n flat buf start len location h,
  whole-IsAround _ location v (one_piece n flat buf start len) h,
  single-IsRegion n flat buf start len v,
)
copy_region-IsAround (composite n (some b) (cons (leaf buf) start len (cons d s l rs))) location v
      h =
    (
      _,
      0,
      at_flat n buf d start len s l rs location h b,
      whole-IsAround _ location v refl h,
      (refl, refl),
    )
copy_region-IsAround (composite n none (cons (leaf buf) start len (cons d s l rs))) location v h =
    let (r, k, e, a, q) =
      region_records (cons (leaf buf) start len (cons d s l rs)) location 0 v.5 (omega arith)
        (omega arith) in
    (
      r,
      k,
      at_records n buf d start len s l rs location h ∙ e ∙ ap (λ (m : ℕ). ok (r, m)) (omega arith),
      subst (λ (m : ℕ). IsAround (record_bytes (cons (leaf buf) start len (cons d s l rs))) m r k)
          (omega arith) a,
      q,
    )
