-- ===== src/Data/Apply.antt =====
-- `dispatch_data_apply_f` and what is built on it, `_dispatch_data_flatten` and
-- `dispatch_data_create_map` (src/data.c).
use swift_corelibs_libdispat.Common.{
  ℕ, ◌+◌, ◌-◌, ◌≤◌, ◌<◌, ◌≡◌, refl, sym, ap, ◌∙◌, ◌++◌, ◌∷◌, none, some, arith, Bool, true, false,
  Option, ◌==◌, if◌then◌else◌, List, [], length, take, drop, take_all, length-append, length-take,
  length-drop, take-append_le, take-append_ge,
}
use mathlib.Core.List.{append-nil, append_assoc}
use swift_corelibs_libdispat.Data.{
  DispatchData, leaf, composite, Records, nil, cons, size, map_direct, apply, apply_records,
  apply_f, memcpy, flatten,
}
use swift_corelibs_libdispat.Data.Bytes.{
  bytes, record_bytes, IsValidRecords, IsValid, length-bytes, length-slice,
}

-- What one call of the applier is given.
pub record Region : Type 0 where
  pub object : DispatchData
  pub offset : ℕ
  pub buffer : List ℕ

abbrev pub record_regions : ℕ → Records → List Region
record_regions off nil = []
record_regions off (cons d from len rs) =
    (record { object = d; offset = off; buffer = take len (drop from (bytes d)) })
    ∷ record_regions (off + len) rs

-- The regions of an object that is not empty: itself where it has a buffer, else its records.
pub regions : DispatchData → List Region
unfolding map_direct
regions (leaf buf) = (record { object = leaf buf; offset = 0; buffer = buf }) ∷ []
regions (composite n flat rs) = elim (map_direct (composite n flat rs) 0).0 [
  | some _ ↦ (record { object = composite n flat rs; offset = 0; buffer = record_bytes rs }) ∷ []
  | none ↦ record_regions 0 rs
]

-- Calls the applier on the regions in turn, until a call returns false.
abbrev pub visit {ℓ} :
    {S : Type ℓ} → (S → DispatchData → ℕ → List ℕ → S × Bool) → S → List Region → S × Bool
visit f s [] = (s, true)
visit f s (r ∷ rs) =
    let answer = f s r.object r.offset r.buffer in
    let rest = visit f answer.0 rs in if answer.1 then rest else (answer.0, false)

abbrev pub joined : List Region → List ℕ
joined [] = []
joined (r ∷ rs) = r.buffer ++ joined rs

-- Each region starts where the one before it ends, and none is empty.
abbrev pub IsContiguous : ℕ → List Region → Type 0
IsContiguous off [] = Unit
IsContiguous off (r ∷ rs) =
    (r.offset ≡ off) × (0 < length r.buffer) × IsContiguous (off + length r.buffer) rs

some_inj : {a b : List ℕ} → some a ≡ some b → a ≡ b
some_inj e = cc

pub map_direct-bytes :
    (n : ℕ) (flat : Option (List ℕ)) (rs : Records) (b : List ℕ)
    → IsValid (composite n flat rs)
    → (map_direct (composite n flat rs) 0).0 ≡ some b
    → take n (drop 0 b) ≡ record_bytes rs
unfolding map_direct
map_direct-bytes n flat nil b v e = absurd (omega arith)
map_direct-bytes n flat (cons (composite m f ss) from len rs) b v e = absurd v.5.0
map_direct-bytes n flat (cons (leaf buf) from len nil) b v e =
    let h : n ≡ len = omega arith in
    let z : 0 + from ≡ from = omega arith in
    ap (λ (x : List ℕ). take n x) (sym (some_inj e))
    ∙ rw (append-nil (take len (drop from buf)), h, z)
map_direct-bytes n none (cons (leaf buf) from len (cons d from' len' rs)) b v e = cc
map_direct-bytes n (some c) (cons (leaf buf) from len (cons d from' len' rs)) b v e =
    ap (λ (x : List ℕ). take n x) (sym (some_inj e) ∙ v.4)
    ∙ take_all n _ (
        omega (
          arith,
          length-bytes (composite n (some c) (cons (leaf buf) from len (cons d from' len' rs))) v,
        ))

pub pos_test : (n : ℕ) → 0 < n → (n == 0) ≡ false
pos_test n h = ground arith

answer-eq {ℓ} : {S : Type ℓ} (r : S × Bool) → r ≡ (if r.1 then (r.0, true) else (r.0, false))
answer-eq (s, true) = refl
answer-eq (s, false) = refl

module _ {ℓ} {S : Type ℓ} (f : S → DispatchData → ℕ → List ℕ → S × Bool) where
  apply_records-visit :
      (rs : Records) (off : ℕ) (s : S)
      → IsValidRecords rs
      → apply_records f rs off s ≡ visit f s (record_regions off rs)
  unfolding apply
  apply_records-visit nil off s v = refl
  apply_records-visit (cons (composite m g ss) from len rs) off s v = absurd v.0
  apply_records-visit (cons (leaf buf) from len rs) off s v =
      rw (apply_records-visit rs (off + len) (f s (leaf buf) off (take len (drop from buf))).0 v.3)

  apply_f-visit :
      (dd : DispatchData) (s : S)
      → IsValid dd
      → 0 < size dd
      → apply_f f dd s ≡ visit f s (regions dd)
  unfolding apply_f apply regions
  apply_f-visit (leaf buf) s v p =
      rw (pos_test (length buf) p, take_all (length buf) buf (omega arith))
        (answer-eq (f s (leaf buf) 0 buf))
  apply_f-visit (composite n flat rs) s v p =
      rw (pos_test n p)
        (by_buffer (map_direct (composite n flat rs) 0).0 (λ b e. map_direct-bytes n flat rs b v e))
    where
      by_buffer :
          (o : Option (List ℕ))
          → ((b : List ℕ) → o ≡ some b → take n (drop 0 b) ≡ record_bytes rs)
          → ◌≡◌ {A = S × Bool}
              (elim o [
                | some b ↦ f s (composite n flat rs) 0 (take n (drop 0 b))
                | none ↦ apply_records f rs 0 s
              ])
              (visit f s (elim o [
                | some _ ↦
                    (record { object = composite n flat rs; offset = 0; buffer = record_bytes rs })
                    ∷ []
                | none ↦ record_regions 0 rs
              ]))
      by_buffer none h = apply_records-visit rs 0 s v.5
      by_buffer (some b) h =
          let e : take n b ≡ record_bytes rs = h b refl in
          rw e (answer-eq (f s (composite n flat rs) 0 (record_bytes rs)))

-- A leaf is one region.
pub apply_f-leaf {ℓ} :
    {S : Type ℓ} (f : S → DispatchData → ℕ → List ℕ → S × Bool) (buf : List ℕ) (s : S)
    → 0 < length buf
    → apply_f f (leaf buf) s ≡ f s (leaf buf) 0 buf
unfolding apply_f apply
apply_f-leaf f buf s p = rw (pos_test (length buf) p, take_all (length buf) buf (omega arith)) refl

joined-record_regions : (rs : Records) (off : ℕ) → joined (record_regions off rs) ≡ record_bytes rs
joined-record_regions nil off = refl
joined-record_regions (cons d from len rs) off =
    ap (λ (x : List ℕ). take len (drop from (bytes d)) ++ x) (joined-record_regions rs (off + len))

record_regions-IsContiguous :
    (rs : Records) (off : ℕ) → IsValidRecords rs → IsContiguous off (record_regions off rs)
record_regions-IsContiguous nil off v = tt
record_regions-IsContiguous (cons (composite m f ss) from len rs) off v = absurd v.0
record_regions-IsContiguous (cons (leaf buf) from len rs) off v =
    let whole = length-slice from len buf v.2 in
    (refl, omega (arith, whole), rw whole (record_regions-IsContiguous rs (off + len) v.3))

regions-IsContiguous : (dd : DispatchData) → IsValid dd → 0 < size dd → IsContiguous 0 (regions dd)
unfolding regions
regions-IsContiguous (leaf buf) v p = (refl, p, tt)
regions-IsContiguous (composite n flat rs) v p =
    elim (map_direct (composite n flat rs) 0).0
      as (λ o. IsContiguous 0 (elim o [
        | some _ ↦
            (record { object = composite n flat rs; offset = 0; buffer = record_bytes rs }) ∷ []
        | none ↦ record_regions 0 rs
      ])) [
        | some b ↦ (refl, omega (arith, length-bytes (composite n flat rs) v), tt)
        | none ↦ record_regions-IsContiguous rs 0 v.5
      ]

joined-regions : (dd : DispatchData) → joined (regions dd) ≡ bytes dd
unfolding regions
joined-regions (leaf buf) = append-nil buf
joined-regions (composite n flat rs) =
    elim (map_direct (composite n flat rs) 0).0
      as (λ o.
        joined (elim o [
          | some _ ↦
              (record { object = composite n flat rs; offset = 0; buffer = record_bytes rs }) ∷ []
          | none ↦ record_regions 0 rs
        ])
        ≡ record_bytes rs) [
          | some b ↦ append-nil (record_bytes rs)
          | none ↦ joined-record_regions rs 0
        ]

pub apply_f-visits {ℓ} :
    {S : Type ℓ} (f : S → DispatchData → ℕ → List ℕ → S × Bool) (dd : DispatchData) (s : S)
    → IsValid dd
    → 0 < size dd
    → (apply_f f dd s ≡ visit f s (regions dd))
      × IsContiguous 0 (regions dd)
      × (joined (regions dd) ≡ bytes dd)
apply_f-visits f dd s v p =
    (apply_f-visit f dd s v p, regions-IsContiguous dd v p, joined-regions dd)

-- The buffer after one copy into it.
abbrev pasted : List ℕ → ℕ → List ℕ → List ℕ
pasted memory off b = take off memory ++ (b ++ drop (off + length b) memory)

length-pasted :
    (memory : List ℕ) (off : ℕ) (b : List ℕ)
    → off + length b ≤ length memory
    → length (pasted memory off b) ≡ length memory
length-pasted memory off b h = omega (
  arith,
  length-append (take off memory) (b ++ drop (off + length b) memory),
  length-append b (drop (off + length b) memory),
  length-take off memory,
  length-drop (off + length b) memory,
)

take-pasted :
    (memory : List ℕ) (off : ℕ) (b : List ℕ)
    → off + length b ≤ length memory
    → take (off + length b) (pasted memory off b) ≡ take off memory ++ b
take-pasted memory off b h =
    let start : length (take off memory) ≡ off = omega (arith, length-take off memory) in
    rw
      (
        take-append_ge (off + length b) (take off memory) (b ++ drop (off + length b) memory)
            (omega (arith, start)),
        take-append_le (off + length b - length (take off memory)) b (drop (off + length b) memory)
            (omega (arith, start)),
      )
      (ap (λ (x : List ℕ). take off memory ++ x) (take_all _ b (omega (arith, start))))

-- Copying contiguous regions fills the buffer from where the first one starts.
visit-memcpy :
    (rs : List Region) (off : ℕ) (memory : List ℕ)
    → IsContiguous off rs
    → off + length (joined rs) ≡ length memory
    → (visit memcpy memory rs).0 ≡ take off memory ++ joined rs
unfolding memcpy
visit-memcpy [] off memory c e =
    rw (append-nil (take off memory)) (sym (take_all off memory (omega arith)))
visit-memcpy (r ∷ rs) off memory c e =
    let long = length-append r.buffer (joined rs) in
    rw
      (
        c.0,
        visit-memcpy rs (off + length r.buffer) (pasted memory off r.buffer) c.2
            (omega (arith, e, long, length-pasted memory off r.buffer)),
        take-pasted memory off r.buffer (omega (arith, e, long)),
      )
      (append_assoc (take off memory) r.buffer (joined rs))

-- The flattened copy of a well-formed object that is not empty has the object's bytes, whatever the
-- allocated memory of its size held.
pub flatten-bytes :
    (dd : DispatchData) (memory : List ℕ)
    → IsValid dd
    → 0 < size dd
    → length memory ≡ size dd
    → flatten dd memory ≡ bytes dd
unfolding flatten
flatten-bytes dd memory v p e =
    ap (λ (r : List ℕ × Bool). r.0) (apply_f-visit memcpy dd memory v p)
    ∙ visit-memcpy (regions dd) 0 memory (regions-IsContiguous dd v p)
        (omega (arith, e, ap length (joined-regions dd), length-bytes dd v))
    ∙ joined-regions dd
