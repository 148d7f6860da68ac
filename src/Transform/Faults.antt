-- ===== src/Transform/Faults.antt =====
-- Where the decoders of src/transform.c go wrong.
use swift_corelibs_libdispat.Common.{
  ℕ, ◌+◌, ◌-◌, ◌*◌, ◌%◌, ◌^◌, ◌≤◌, ◌<◌, ◌≡◌, refl, ap, ◌∙◌, arith, false, ◌==◌, leb, Option, none,
  some, List, [], ◌∷◌, ◌++◌, length, drop, length-append, length-drop,
}
use swift_corelibs_libdispat.Data.{ok, crash, DispatchData, leaf}
use swift_corelibs_libdispat.Data.Bytes.{bytes, IsValid, length-bytes}
use swift_corelibs_libdispat.Data.Apply.{
  Region, regions, visit, joined, IsContiguous, apply_f-visits,
}
use swift_corelibs_libdispat.Data.Map.{IsAvailable}
use swift_corelibs_libdispat.Transform.{
  Decoder, Decoding, Bits, reject, classify, decode_bytes, decode_region, end_decoding, data_create,
  decoded, put_group, from_base, howmany, concat_onto,
}
use swift_corelibs_libdispat.Transform.Tables.{base32hex}
use swift_corelibs_libdispat.Transform.Decode.{start}

decode_bytes-reject :
    (d : Decoder) (s : Bits) (b : ℕ) (bs : List ℕ)
    → classify d b ≡ reject
    → decode_bytes d s (b ∷ bs) ≡ none
unfolding decode_bytes
decode_bytes-reject d s b bs c = rw (c, decode_bytes) refl

-- base32hex_decode_table_size is the size of the encoding table, 33.
classify-base32hex : (b : ℕ) → 33 ≤ b → classify base32hex b ≡ reject
unfolding classify swift_corelibs_libdispat.Transform.base32hex_decode_table_size
    swift_corelibs_libdispat.Transform.base32hex_encode_table
classify-base32hex b h = ground arith

head_of :
    (b : ℕ) (bs xs ys : List ℕ) → 0 < length xs → xs ++ ys ≡ b ∷ bs → (zs : List ℕ) × (xs ≡ b ∷ zs)
head_of b bs [] ys p e = absurd (omega arith)
head_of b bs (x ∷ xs) ys p e = let same : x ≡ b = cc in (xs, rw same refl)

decode_region-none :
    (malloc : ℕ → Option (List ℕ)) (d : Decoder) (s : Decoding) (region : DispatchData) (off : ℕ)
    (buf memory : List ℕ)
    → malloc (howmany (length buf) d.chars * d.octets) ≡ some memory
    → decode_bytes d s.vars buf ≡ none
    → decode_region malloc d s region off buf ≡ (s, false)
unfolding decode_region end_decoding
decode_region-none malloc d s region off buf memory m e =
    rw (m, decode_region) (ap (end_decoding d s memory) e)

visit_rejects :
    (malloc : ℕ → Option (List ℕ)) (d : Decoder) (s : Decoding) (rs : List Region) (b : ℕ)
    (bs : List ℕ)
    → IsAvailable malloc
    → IsContiguous 0 rs
    → joined rs ≡ b ∷ bs
    → classify d b ≡ reject
    → visit (decode_region malloc d) s rs ≡ (s, false)
visit_rejects malloc d s [] b bs a c e k = cc
visit_rejects malloc d s (r ∷ rs) b bs a c e k =
    let (zs, begins) = head_of b bs r.buffer (joined rs) c.1 e in
    let (memory, m, long) = a (howmany (length r.buffer) d.chars * d.octets) in
    let refused = ap (decode_bytes d s.vars) begins ∙ decode_bytes-reject d s.vars b zs k in
    rw (decode_region-none malloc d s r.object r.offset r.buffer memory m refused) refl

-- The base32hex decoder refuses a well-formed object whose first byte is 33 or more, as each character
-- of its alphabet is. Memory can be had.
pub base32hex_refuses :
    (malloc : ℕ → Option (List ℕ)) (dd : DispatchData) (b : ℕ) (bs : List ℕ)
    → IsAvailable malloc
    → IsValid dd
    → bytes dd ≡ b ∷ bs
    → 33 ≤ b
    → from_base malloc base32hex dd ≡ ok none
unfolding from_base
base32hex_refuses malloc dd b bs a v e h =
    let s : Decoding = record { vars = start; rv = ok (leaf []) } in
    let (run, contiguous, all) =
      apply_f-visits (decode_region malloc base32hex) dd s v
        (omega (arith, ap length e, length-bytes dd v)) in
    ap decoded (
      run
      ∙ visit_rejects malloc base32hex s (regions dd) b bs a contiguous (all ∙ e)
          (classify-base32hex b h))

-- Where a region holds padding, and fewer bytes were written than the padding takes off, their number
-- wraps around, and the object is made of memory beyond the buffer.
pub padding_underflows :
    (d : Decoder) (s : Decoding) (memory out : List ℕ) (t : Bits) (r : DispatchData)
    → s.rv ≡ ok r
    → length out < d.trim t.pad
    → d.trim t.pad < 2 ^ 63
    → length out + length memory < 2 ^ 63
    → (end_decoding d s memory (some (out, t))).0.rv ≡ crash
unfolding end_decoding data_create
padding_underflows d s memory out t r e few small room =
    let n = (length out + 2 ^ 64 - d.trim t.pad) % 2 ^ 64 in
    let large : 2 ^ 63 < n = omega arith in
    let past : leb n (length (out ++ drop (length out) memory)) ≡ false =
      ground
        (arith, length-append out (drop (length out) memory), length-drop (length out) memory) in
    let some_bytes : (n == 0) ≡ false = ground arith in rw (e, some_bytes, past) refl
