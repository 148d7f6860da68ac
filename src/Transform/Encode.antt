-- ===== src/Transform/Encode.antt =====
-- The encoders (src/transform.c) over the regions of an object, and over its bytes in one go.
use swift_corelibs_libdispat.Common.{
  ℕ, zero, suc, ◌+◌, ◌-◌, ◌*◌, ◌/◌, ◌%◌, ◌^◌, ◌≤◌, ◌<◌, ◌≡◌, ◌⊎◌, inl, inr, refl, sym, ap, subst,
  ◌∙◌, arith, true, false, leb, ◌==◌, if◌then◌else◌, Option, some, List, [], ◌∷◌, ◌++◌, length,
  take, drop, get_or, length-append, take-append_le, take_all, Bool-cases, le→ltb,
}
use native.Mathlib.Nat.{zero-add}
use mathlib.Core.List.{append-nil, append_assoc}
use swift_corelibs_libdispat.Data.{ok, DispatchData, leaf, size}
use swift_corelibs_libdispat.Data.Bytes.{bytes, IsValid, length-bytes}
use swift_corelibs_libdispat.Data.Subrange.{create_subrange-bytes}
use swift_corelibs_libdispat.Data.Apply.{
  Region, regions, visit, joined, IsContiguous, apply_f-visits,
}
use swift_corelibs_libdispat.Data.Map.{IsAvailable, create_map-bytes}
use swift_corelibs_libdispat.Transform.{
  end_region, cons_chars, Encoder, Encoding, encode_bytes, encode_region, to_base, subrange_map,
  first_byte, last_byte, howmany, data_create,
}

-- The last byte of a list, or the byte before it.
abbrev pub last_of : ℕ → List ℕ → ℕ
last_of l [] = l
last_of l (b ∷ bs) = last_of b bs

-- The characters for the bytes of an object in one go, without those of its end, and with them.
abbrev pub body : Encoder → ℕ → ℕ → List ℕ → List ℕ
body e last count [] = []
body e last count (b ∷ bs) =
    e.emit (count % e.group) (if count % e.group == 0 then 0 else last) b ++ body e b (count + 1) bs

abbrev pub encoded : Encoder → List ℕ → List ℕ
encoded e bs = body e 0 0 bs ++ e.tail (length bs % e.group) (last_of 0 bs)

get_or-last_of :
    (l b n : ℕ) (bs : List ℕ) → n ≡ length bs → get_or (b ∷ bs) n 0 ≡ last_of l (b ∷ bs)
get_or-last_of l b zero [] h = refl
get_or-last_of l b (suc n) [] h = absurd (omega arith)
get_or-last_of l b zero (c ∷ bs) h = absurd (omega arith)
get_or-last_of l b (suc n) (c ∷ bs) h = get_or-last_of b c n bs (omega arith)

last_byte-last_of : (l : ℕ) (bs : List ℕ) → 0 < length bs → last_byte bs ≡ last_of l bs
last_byte-last_of l [] h = absurd (omega arith)
last_byte-last_of l (b ∷ bs) h = get_or-last_of l b (suc (length bs) - 1) bs (omega arith)

last_of-append : (l : ℕ) (xs ys : List ℕ) → last_of l (xs ++ ys) ≡ last_of (last_of l xs) ys
last_of-append l [] ys = refl
last_of-append l (x ∷ xs) ys = last_of-append x xs ys

body-append :
    (e : Encoder) (l count : ℕ) (xs ys : List ℕ)
    → body e l count (xs ++ ys) ≡ body e l count xs ++ body e (last_of l xs) (count + length xs) ys
body-append e l count [] ys = let z : count + 0 ≡ count = omega arith in rw z refl
body-append e l count (x ∷ xs) ys =
    let z : count + suc (length xs) ≡ count + 1 + length xs = omega arith in
    rw (z, body-append e x (count + 1) xs ys)
      (sym (
        append_assoc (e.emit (count % e.group) (if count % e.group == 0 then 0 else l) x)
          (body e x (count + 1) xs) (body e (last_of x xs) (count + 1 + length xs) ys)))

encode_bytes-body :
    (e : Encoder) (o : Option ℕ) (l count : ℕ) (bs : List ℕ)
    → ((count % e.group == 0) ≡ true) ⊎ (o ≡ some l)
    → encode_bytes e o count bs ≡ some (body e l count bs)
unfolding encode_bytes
encode_bytes-body e o l count [] h = refl
encode_bytes-body e o l count (b ∷ bs) h =
    let rest = encode_bytes-body e (some b) b (count + 1) bs (inr refl) in
    ap (cons_chars (if count % e.group == 0 then some 0 else o) (λ m. e.emit (count % e.group) m b))
      rest
    ∙ elim (Bool-cases (count % e.group == 0)) [
      | inl starts ↦ rw starts refl
      | inr inside ↦ rw inside (elim h [ inl starts ↦ cc | inr same ↦ rw same refl ])
    ]

first_byte_of_take : (x : ℕ) (buf : List ℕ) → take 1 buf ≡ x ∷ [] → first_byte (some buf) ≡ some x
first_byte_of_take x [] h = cc
first_byte_of_take x (b ∷ bs) h = cc

last_of-split :
    (l : ℕ) (pre rest : List ℕ)
    → 0 < length pre
    → take 1 (drop (length pre - 1) (pre ++ rest)) ≡ last_of l pre ∷ []
last_of-split l [] rest p = absurd (omega arith)
last_of-split l (x ∷ []) rest p = refl
last_of-split l (x ∷ y ∷ pre) rest p =
    let z : suc (suc (length pre)) - 1 ≡ suc (suc (length pre) - 1) = omega arith in
    rw z (last_of-split x (y ∷ pre) rest (omega arith))

-- The byte that an encoder maps before a region.
subrange_map-last :
    (malloc : ℕ → Option (List ℕ)) (dd : DispatchData) (pre rest : List ℕ)
    → IsAvailable malloc
    → IsValid dd
    → bytes dd ≡ pre ++ rest
    → 0 < length pre
    → first_byte (subrange_map malloc dd (length pre - 1) 1) ≡ some (last_of 0 pre)
unfolding subrange_map
subrange_map-last malloc dd pre rest a v e p =
    let (r, made, valid, part) = create_subrange-bytes dd (length pre - 1) 1 v in
    let one : bytes r ≡ last_of 0 pre ∷ [] =
      part ∙ ap (λ (x : List ℕ). take 1 (drop (length pre - 1) x)) e ∙ last_of-split 0 pre rest p in
    let small : size r ≡ 1 = omega (arith, length-bytes r valid, ap length one) in
    let (m, buf, mapped, begins) = create_map-bytes malloc r a valid (omega arith) in
    let first =
      first_byte_of_take (last_of 0 pre) buf
        (ap (λ (n : ℕ). take n buf) (sym small) ∙ begins ∙ one) in
    let known : subrange_map malloc dd (length pre - 1) 1 ≡ some buf =
      rw (made, subrange_map) (rw (small, mapped) refl) in
    ap first_byte known ∙ first

pub data_create-exact :
    (xs ys : List ℕ) (n : ℕ) → n ≡ length xs → 0 < n → data_create (xs ++ ys) n ≡ ok (leaf xs)
unfolding data_create
data_create-exact xs ys n e p =
    let whole = take-append_le n xs ys (omega arith) ∙ take_all n xs (omega arith) in
    let fits : leb n (length (xs ++ ys)) ≡ true = ground (arith, length-append xs ys) in
    let full : (n == 0) ≡ false = ground arith in rw (full, fits, whole) refl

-- The state of an encoder after the bytes `pre`, with what `end` adds.
abbrev after : Encoder → List ℕ → List ℕ → Encoding
after e pre end = record { count = length pre; written = body e 0 0 pre ++ end }

end_region-after :
    (e : Encoder) (total off : ℕ) (pre buffer : List ℕ)
    → off ≡ length pre
    → 0 < length buffer
    → end_region e total
        (record { count = length pre; written = body e 0 0 pre })
        off
        buffer
        (some (body e (last_of 0 pre) (length pre) buffer))
      ≡ (
        after e (pre ++ buffer) (
            if length (pre ++ buffer) == total
            then e.tail (length (pre ++ buffer) % e.group) (last_of 0 (pre ++ buffer))
            else []),
        true,
      )
end_region-after e total off pre buffer o p =
    rw
      (
        o,
        length-append pre buffer,
        last_of-append 0 pre buffer,
        body-append e 0 0 pre buffer,
        last_byte-last_of (last_of 0 pre) buffer p,
        zero-add,
      )
      (rw
        (append_assoc (body e 0 0 pre) (body e (last_of 0 pre) (length pre) buffer) (
          if length pre + length buffer == total
          then e.tail ((length pre + length buffer) % e.group) (last_of (last_of 0 pre) buffer)
          else []))
        refl)

module _ (malloc : ℕ → Option (List ℕ)) (e : Encoder) (dd : DispatchData) (a : IsAvailable malloc)
    (v : IsValid dd) where
  first_of_region :
      (pre rest : List ℕ)
      → bytes dd ≡ pre ++ rest
      → ((length pre % e.group == 0) ≡ true)
        ⊎ (first_byte (subrange_map malloc dd (length pre - 1) 1) ≡ some (last_of 0 pre))
  first_of_region [] rest s = let z : 0 % e.group ≡ 0 = grind arith in inl (rw z refl)
  first_of_region (b ∷ pre) rest s =
      inr (subrange_map-last malloc dd (b ∷ pre) rest a v s (omega arith))

  encode_region-after :
      (pre rest buffer : List ℕ) (region : DispatchData) (off : ℕ)
      → off ≡ length pre
      → bytes dd ≡ pre ++ (buffer ++ rest)
      → 0 < length buffer
      → encode_region malloc e dd
          (record { count = length pre; written = body e 0 0 pre })
          region
          off
          buffer
        ≡ (
          after e (pre ++ buffer) (
              if length (pre ++ buffer) == size dd
              then e.tail (length (pre ++ buffer) % e.group) (last_of 0 (pre ++ buffer))
              else []),
          true,
        )
  unfolding encode_region
  encode_region-after pre rest buffer region off o s p =
      let first = ap (λ (x : ℕ). first_byte (subrange_map malloc dd (x - 1) 1)) o in
      let chars =
        encode_bytes-body e (first_byte (subrange_map malloc dd (length pre - 1) 1)) (last_of 0 pre)
          (length pre) buffer (first_of_region pre (buffer ++ rest) s) in
      rw first (rw chars (end_region-after e (size dd) off pre buffer o p))

  -- Over the regions that are left, the encoder goes on with the characters of their bytes, and ends
  -- with those of the object's end.
  visit-encoded :
      (pre : List ℕ) (r : Region) (rs : List Region)
      → IsContiguous (length pre) (r ∷ rs)
      → bytes dd ≡ pre ++ joined (r ∷ rs)
      → visit
          (encode_region malloc e dd)
          (record { count = length pre; written = body e 0 0 pre })
          (r ∷ rs)
        ≡ (record { count = length (bytes dd); written = encoded e (bytes dd) }, true)
  visit-encoded pre r [] c s =
      let all = s ∙ ap (◌++◌ pre) (append-nil r.buffer) in
      let step = encode_region-after pre [] r.buffer r.object r.offset c.0 s c.1 in
      let full : length (pre ++ r.buffer) ≡ size dd =
        omega (arith, ap length all, length-bytes dd v) in
      let test : (length (pre ++ r.buffer) == size dd) ≡ true = ground (arith, full) in
      rw step (rw (test, sym all) refl)
  visit-encoded pre r (q ∷ rs) c s =
      let step = encode_region-after pre (joined (q ∷ rs)) r.buffer r.object r.offset c.0 s c.1 in
      let split = append_assoc pre r.buffer (joined (q ∷ rs)) in
      let test : (length (pre ++ r.buffer) == size dd) ≡ false = ground (
        arith,
        ap length s,
        length-bytes dd v,
        length-append pre r.buffer,
        length-append pre (joined (r ∷ q ∷ rs)),
        length-append r.buffer (joined (q ∷ rs)),
        length-append q.buffer (joined rs),
        c.2.1,
      ) in
      let here = sym (length-append pre r.buffer) in
      rw step (
        rw (test, append-nil (body e 0 0 (pre ++ r.buffer)))
          (visit-encoded (pre ++ r.buffer) q rs
            (subst (λ (n : ℕ). IsContiguous n (q ∷ rs)) here c.2) (s ∙ sym split)))

  visit-all :
      (rs : List Region)
      → 0 < size dd
      → IsContiguous 0 rs
      → joined rs ≡ bytes dd
      → visit (encode_region malloc e dd) (record { count = 0; written = [] }) rs
        ≡ (record { count = length (bytes dd); written = encoded e (bytes dd) }, true)
  visit-all [] p c s = absurd (omega (arith, ap length s, length-bytes dd v))
  visit-all (r ∷ rs) p c s = visit-encoded [] r rs c (sym s)

  -- The object that an encoder makes of a well-formed object that is not empty has the characters
  -- for its bytes in one go, where their number is what is allocated for them.
  pub to_base-encoded :
      0 < size dd
      → 0 < e.chars
      → howmany (size dd) e.group ≤ (2 ^ 64 - 1) / e.chars
      → length (encoded e (bytes dd)) ≡ howmany (size dd) e.group * e.chars
      → 0 < length (encoded e (bytes dd))
      → to_base malloc e dd ≡ ok (some (leaf (encoded e (bytes dd))))
  unfolding to_base
  to_base-encoded p c few long some_chars =
      let (run, contiguous, all) =
        apply_f-visits (encode_region malloc e dd) dd (record { count = 0; written = [] }) v p in
      let whole = run ∙ visit-all (regions dd) p contiguous all in
      let (memory, given, room) = a (howmany (size dd) e.group * e.chars) in
      let made =
        data_create-exact (encoded e (bytes dd)) (drop (length (encoded e (bytes dd))) memory)
          (howmany (size dd) e.group * e.chars) (sym long) (omega (arith, long)) in
      rw (le→ltb ((2 ^ 64 - 1) / e.chars) (howmany (size dd) e.group) few)
        (rw given (rw whole (rw made refl)))
