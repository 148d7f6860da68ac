-- ===== src/Transform/Decode.antt =====
-- The decoders (src/transform.c) on one region.
use swift_corelibs_libdispat.Common.{
  ℕ, ◌+◌, ◌-◌, ◌%◌, ◌^◌, ◌*◌, leb, take-append_le, Bool, false, ◌≤◌, ◌<◌, ◌≡◌, refl, ap, ◌∙◌, arith,
  true, ◌==◌, if◌then◌else◌, Option, some, List, ◌∷◌, ◌++◌, length, take, drop, take_all,
  length-append, length-replicate, replicate,
}
use swift_corelibs_libdispat.Data.{Outcome, ok, DispatchData, leaf, data_empty}
use swift_corelibs_libdispat.Data.Apply.{apply_f-leaf}
use swift_corelibs_libdispat.Data.Concat.{create_concat-empty}
use swift_corelibs_libdispat.Data.Map.{IsAvailable}
use swift_corelibs_libdispat.Transform.{
  end_decoding, decoded, put_group, concat_onto, howmany, Decoder, Decoding, Bits, value, classify,
  shift_in, decode_bytes, decode_region, data_create, from_base,
}

-- A digit or padding shifts a value in, and the last one of a group writes the group's bytes.
pub decode_bytes-value :
    (d : Decoder) (s t : Bits) (b v p : ℕ) (bs out : List ℕ)
    → classify d b ≡ value v p
    → decode_bytes d (shift_in d v p s) bs ≡ some (out, t)
    → decode_bytes d s (b ∷ bs)
      ≡ some (if (s.count + 1) % d.chars == 0 then d.emit (shift_in d v p s).x ++ out else out, t)
unfolding decode_bytes
decode_bytes-value d s t b v p bs out c r =
    rw (c, decode_bytes) (ap (put_group d (shift_in d v p s)) r)

-- Inside a group nothing is written.
pub decode_inside :
    (d : Decoder) (s t : Bits) (b v p : ℕ) (bs out : List ℕ)
    → classify d b ≡ value v p
    → ((s.count + 1) % d.chars == 0) ≡ false
    → decode_bytes d (shift_in d v p s) bs ≡ some (out, t)
    → decode_bytes d s (b ∷ bs) ≡ some (out, t)
decode_inside d s t b v p bs out c e r =
    decode_bytes-value d s t b v p bs out c r
    ∙ ap (λ (x : Bool). some (if x then d.emit (shift_in d v p s).x ++ out else out, t)) e

pub decode_last :
    (d : Decoder) (s t : Bits) (b v p : ℕ) (bs out : List ℕ)
    → classify d b ≡ value v p
    → ((s.count + 1) % d.chars == 0) ≡ true
    → decode_bytes d (shift_in d v p s) bs ≡ some (out, t)
    → decode_bytes d s (b ∷ bs) ≡ some (d.emit (shift_in d v p s).x ++ out, t)
decode_last d s t b v p bs out c e r =
    decode_bytes-value d s t b v p bs out c r
    ∙ ap (λ (x : Bool). some (if x then d.emit (shift_in d v p s).x ++ out else out, t)) e

abbrev pub start : Bits
start = record { x = 0; count = 0; pad = 0 }

decode_region-value :
    (malloc : ℕ → Option (List ℕ)) (d : Decoder) (s : Decoding) (region : DispatchData) (off : ℕ)
    (buf memory out : List ℕ) (t : Bits)
    → malloc (howmany (length buf) d.chars * d.octets) ≡ some memory
    → decode_bytes d s.vars buf ≡ some (out, t)
    → decode_region malloc d s region off buf ≡ end_decoding d s memory (some (out, t))
unfolding decode_region
decode_region-value malloc d s region off buf memory out t m e =
    rw (m, decode_region) (ap (end_decoding d s memory) e)

data_create-part :
    (xs ys : List ℕ) (n : ℕ)
    → n ≤ length xs
    → 0 < n
    → data_create (xs ++ ys) n ≡ ok (leaf (take n xs))
unfolding data_create
data_create-part xs ys n l p =
    let fits : leb n (length (xs ++ ys)) ≡ true = ground (arith, length-append xs ys) in
    let full : (n == 0) ≡ false = ground arith in rw (full, fits, take-append_le n xs ys l) refl

-- A leaf whose bytes are decoded to `out` gives what is left of that without the padding.
pub from_base-leaf :
    (malloc : ℕ → Option (List ℕ)) (d : Decoder) (buf out : List ℕ) (t : Bits)
    → IsAvailable malloc
    → length buf < 2 ^ 64
    → 0 < length buf
    → decode_bytes d start buf ≡ some (out, t)
    → length out < 2 ^ 64
    → d.trim t.pad < length out
    → from_base malloc d (leaf buf) ≡ ok (some (leaf (take (length out - d.trim t.pad) out)))
unfolding from_base end_decoding
from_base-leaf malloc d buf out t a v p e few trimmed =
    let s : Decoding = record { vars = start; rv = ok data_empty } in
    let run = apply_f-leaf (decode_region malloc d) buf s p in
    let (memory, m, long) = a (howmany (length buf) d.chars * d.octets) in
    let step = decode_region-value malloc d s (leaf buf) 0 buf memory out t m e in
    let n : (length out + 2 ^ 64 - d.trim t.pad) % 2 ^ 64 ≡ length out - d.trim t.pad =
      omega arith in
    let made =
      data_create-part (out) (drop (length out) memory) (length out - d.trim t.pad) (omega arith)
        (omega arith) in
    let final : concat_onto (ok data_empty) (
          data_create (out ++ drop (length out) memory)
            ((length out + 2 ^ 64 - d.trim t.pad) % 2 ^ 64))
        ≡ ok (leaf (take (length out - d.trim t.pad) out)) =
      rw (n, made) (create_concat-empty (leaf (take (length out - d.trim t.pad) out))) in
    ap decoded (run ∙ step)
    ∙ ap (λ (rv : Outcome DispatchData). decoded (record { vars = t; rv = rv }, true)) final

-- The zeros that padding characters decode to are taken off again.
pub from_base-padded :
    (malloc : ℕ → Option (List ℕ)) (d : Decoder) (text bs : List ℕ) (k : ℕ) (t : Bits)
    → IsAvailable malloc
    → length text < 2 ^ 64
    → 0 < length text
    → decode_bytes d start text ≡ some (bs ++ replicate k 0, t)
    → d.trim t.pad ≡ k
    → 0 < length bs
    → length bs + k < 2 ^ 64
    → from_base malloc d (leaf text) ≡ ok (some (leaf bs))
from_base-padded malloc d text bs k t a few p e trimmed some_bytes room =
    let zeros : List ℕ = replicate k 0 in
    let all : length (bs ++ zeros) ≡ length bs + k =
      omega (arith, length-append bs zeros, length-replicate {A = ℕ} k 0) in
    let exact : length (bs ++ zeros) - d.trim t.pad ≡ length bs = omega (arith, all, trimmed) in
    from_base-leaf malloc d text (bs ++ zeros) t a few p e (omega (arith, all))
      (omega (arith, all, trimmed))
    ∙ ap (λ (n : ℕ). ok (some (leaf (take n (bs ++ zeros))))) exact
    ∙ ap (λ (x : List ℕ). ok (some (leaf x)))
        (take-append_le (length bs) bs zeros (omega arith) ∙ take_all (length bs) bs (omega arith))
