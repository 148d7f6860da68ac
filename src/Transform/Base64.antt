-- ===== src/Transform/Base64.antt =====
-- base64 (src/transform.c): encoding and decoding again.
use swift_corelibs_libdispat.Common.{
  ℕ, suc, ◌+◌, ◌-◌, ◌*◌, ◌/◌, ◌%◌, ◌^◌, ◌≤◌, ◌<◌, ◌≡◌, refl, ap, sym, ◌∙◌, arith, ◌==◌,
  if◌then◌else◌, Option, some, List, [], ◌∷◌, ◌++◌, length, get_or, replicate,
}
use swift_corelibs_libdispat.Data.{ok, DispatchData, leaf, size}
use swift_corelibs_libdispat.Data.Bytes.{bytes, IsValid, length-bytes}
use swift_corelibs_libdispat.Data.Map.{IsAvailable}
use swift_corelibs_libdispat.Transform.{
  to_base, from_base, Bits, value, classify, shift_in, decode_bytes, base64_decoder, base64_encoder,
  base64_encode_table, base64_emit, equals_sign, howmany,
}
use swift_corelibs_libdispat.Transform.Tables.{classify-base64, base64_padding}
use swift_corelibs_libdispat.Transform.Encode.{body, encoded, last_of, to_base-encoded}
use swift_corelibs_libdispat.Transform.Decode.{decode_inside, decode_last, start, from_base-padded}

abbrev char : ℕ → ℕ
char v = get_or base64_encode_table v 0

-- Every element is below 256.
abbrev pub IsBytes : List ℕ → Type 0
IsBytes [] = Unit
IsBytes (b ∷ bs) = (b < 256) × IsBytes bs

emit_group :
    (x v0 v1 v2 v3 : ℕ)
    → v0 < 64
    → v1 < 64
    → v2 < 64
    → v3 < 64
    → base64_emit (
        (((((((x * 2 ^ 6 + v0) % 2 ^ 64) * 2 ^ 6 + v1) % 2 ^ 64) * 2 ^ 6 + v2) % 2 ^ 64) * 2 ^ 6
          + v3)
        % 2 ^ 64)
      ≡ (v0 * 4 + v1 / 16) ∷ (((v1 % 16) * 16 + v2 / 4) ∷ (((v2 % 4) * 64 + v3) ∷ []))
emit_group x v0 v1 v2 v3 h0 h1 h2 h3 = ground arith

-- The decoder's variables after four characters, of which the last two may be padding.
abbrev after_group : Bits → ℕ → ℕ → ℕ → ℕ → ℕ → ℕ → Bits
after_group s v0 v1 v2 v3 p2 p3 =
    shift_in base64_decoder v3 p3 (
      shift_in base64_decoder v2 p2 (shift_in base64_decoder v1 0 (shift_in base64_decoder v0 0 s)))

-- Four characters, of which the last may be padding, write three bytes.
module _ (s t : Bits) (v0 v1 v2 v3 p2 p3 c2 c3 : ℕ) (rest out : List ℕ) (g : s.count % 4 ≡ 0)
    (h0 : v0 < 64) (h1 : v1 < 64) (h2 : v2 < 64) (h3 : v3 < 64)
    (k2 : classify base64_decoder c2 ≡ value v2 p2)
    (k3 : classify base64_decoder c3 ≡ value v3 p3) where
  decode_group :
      decode_bytes base64_decoder (after_group s v0 v1 v2 v3 p2 p3) rest ≡ some (out, t)
      → decode_bytes base64_decoder s (char v0 ∷ (char v1 ∷ (c2 ∷ (c3 ∷ rest))))
        ≡ some ((v0 * 4 + v1 / 16) ∷ (((v1 % 16) * 16 + v2 / 4) ∷ (((v2 % 4) * 64 + v3) ∷ out)), t)
  decode_group r =
      decode_inside base64_decoder s t (char v0) v0 0 (char v1 ∷ (c2 ∷ (c3 ∷ rest))) _
        (classify-base64 v0 h0) (ground arith)
        (decode_inside base64_decoder (shift_in base64_decoder v0 0 s) t (char v1) v1 0
          (c2 ∷ (c3 ∷ rest)) _ (classify-base64 v1 h1) (ground arith)
          (decode_inside base64_decoder
            (shift_in base64_decoder v1 0 (shift_in base64_decoder v0 0 s)) t c2 v2 p2 (c3 ∷ rest) _
            k2 (ground arith)
            (decode_last base64_decoder
              (shift_in base64_decoder v2 p2
                (shift_in base64_decoder v1 0 (shift_in base64_decoder v0 0 s)))
              t c3 v3 p3 rest out k3 (ground arith) r)))
      ∙ ap (λ (bs : List ℕ). some (bs ++ out, t)) (emit_group s.x v0 v1 v2 v3 h0 h1 h2 h3)

-- The encoded characters of a whole group, and of the bytes after it.
body_group :
    (l count a b c : ℕ) (bs : List ℕ)
    → count % 3 ≡ 0
    → body base64_encoder l count (a ∷ (b ∷ (c ∷ bs)))
      ≡ char (a / 4 % 64)
        ∷ (char ((a * 16 + b / 16) % 64)
            ∷ (char ((b * 4 + c / 64) % 64)
                ∷ (char (c % 64) ∷ body base64_encoder c (count + 3) bs)))
body_group l count a b c bs h =
    let z : count + 1 + 1 + 1 ≡ count + 3 = omega arith in
    let t0 : count % 3 ≡ 0 = h in
    let t1 : (count + 1) % 3 ≡ 1 = omega arith in
    let t2 : (count + 1 + 1) % 3 ≡ 2 = omega arith in rw (t0, t1, t2, z) refl

chars_group :
    (l count a b c : ℕ) (bs : List ℕ)
    → count % 3 ≡ 0
    → body base64_encoder l count (a ∷ (b ∷ (c ∷ bs)))
        ++ base64_encoder.tail ((count + suc (suc (suc (length bs)))) % 3) (last_of c bs)
      ≡ char (a / 4 % 64)
        ∷ (char ((a * 16 + b / 16) % 64)
            ∷ (char ((b * 4 + c / 64) % 64)
                ∷ (char (c % 64)
                    ∷ (body base64_encoder c (count + 3) bs
                        ++ base64_encoder.tail ((count + 3 + length bs) % 3) (last_of c bs)))))
chars_group l count a b c bs h =
    let n : count + suc (suc (suc (length bs))) ≡ count + 3 + length bs = omega arith in
    rw (body_group l count a b c bs h, n) refl

-- What the decoder makes of the characters for `bs`: the bytes, and as many zeros as there are
-- padding characters.
abbrev pub pad_of : ℕ → ℕ
pad_of n = if n % 3 == 0 then 0 else 3 - n % 3

one_byte :
    (a : ℕ)
    → a < 256
    → (a / 4 % 64 * 4 + a * 16 % 64 / 16) ∷ ((a * 16 % 64 % 16 * 16 + 0) ∷ (0 ∷ []))
      ≡ a ∷ (0 ∷ (0 ∷ []))
one_byte a h = ground arith

two_bytes :
    (a b : ℕ)
    → a < 256
    → b < 256
    → (a / 4 % 64 * 4 + (a * 16 + b / 16) % 64 / 16)
        ∷ (((a * 16 + b / 16) % 64 % 16 * 16 + b * 4 % 64 / 4) ∷ ((b * 4 % 64 % 4 * 64 + 0) ∷ []))
      ≡ a ∷ (b ∷ (0 ∷ []))
two_bytes a b h k = ground arith

three_bytes :
    (a b c : ℕ) (bs : List ℕ)
    → a < 256
    → b < 256
    → c < 256
    → (a / 4 % 64 * 4 + (a * 16 + b / 16) % 64 / 16)
        ∷ (((a * 16 + b / 16) % 64 % 16 * 16 + (b * 4 + c / 64) % 64 / 4)
            ∷ (((b * 4 + c / 64) % 64 % 4 * 64 + c % 64) ∷ bs))
      ≡ a ∷ (b ∷ (c ∷ bs))
three_bytes a b c bs h k m = ground arith

decode-encoded :
    (s : Bits) (l count : ℕ) (bs : List ℕ)
    → s.count % 4 ≡ 0
    → count % 3 ≡ 0
    → IsBytes bs
    → (t : Bits) × (decode_bytes base64_decoder s (
          body base64_encoder l count bs
          ++ base64_encoder.tail ((count + length bs) % 3) (last_of l bs))
        ≡ some (bs ++ replicate (pad_of (length bs)) 0, t))
      × (t.pad ≡ s.pad + pad_of (length bs))
unfolding decode_bytes
decode-encoded s l count [] g h i =
    let z : (count + 0) % 3 ≡ 0 = omega arith in (s, rw z refl, omega arith)
decode-encoded s l count (a ∷ []) g h i =
    let t0 : count % 3 ≡ 0 = h in
    let t1 : (count + 1) % 3 ≡ 1 = omega arith in
    let r =
      decode_group s _ (a / 4 % 64) (a * 16 % 64) 0 0 1 1 equals_sign equals_sign [] [] g
        (omega arith) (omega arith) (omega arith) (omega arith) base64_padding base64_padding
        refl in
    let end = after_group s (a / 4 % 64) (a * 16 % 64) 0 0 1 1 in
    (end, rw (t0, t1) (r ∙ ap (λ (x : List ℕ). some (x, end)) (one_byte a i.0)), omega arith)
decode-encoded s l count (a ∷ b ∷ []) g h i =
    let t0 : count % 3 ≡ 0 = h in
    let t1 : (count + 1) % 3 ≡ 1 = omega arith in
    let t2 : (count + 2) % 3 ≡ 2 = omega arith in
    let r =
      decode_group s _ (a / 4 % 64) ((a * 16 + b / 16) % 64) (b * 4 % 64) 0 0 1 (char (b * 4 % 64))
        equals_sign [] [] g (omega arith) (omega arith) (omega arith) (omega arith)
        (classify-base64 (b * 4 % 64) (omega arith)) base64_padding refl in
    let end = after_group s (a / 4 % 64) ((a * 16 + b / 16) % 64) (b * 4 % 64) 0 0 1 in
    (
      end,
      rw (t0, t1, t2) (r ∙ ap (λ (x : List ℕ). some (x, end)) (two_bytes a b i.0 i.1.0)),
      omega arith,
    )
decode-encoded s l count (a ∷ b ∷ c ∷ bs) g h i =
    let (t, e, p) =
      decode-encoded
        (after_group s (a / 4 % 64) ((a * 16 + b / 16) % 64) ((b * 4 + c / 64) % 64) (c % 64) 0 0) c
        (count + 3) bs (omega arith) (omega arith) i.1.1.1 in
    let chars =
      body base64_encoder c (count + 3) bs
      ++ base64_encoder.tail ((count + 3 + length bs) % 3) (last_of c bs) in
    let r =
      decode_group s t (a / 4 % 64) ((a * 16 + b / 16) % 64) ((b * 4 + c / 64) % 64) (c % 64) 0 0
        (char ((b * 4 + c / 64) % 64)) (char (c % 64)) chars
        (bs ++ replicate (pad_of (length bs)) 0) g (omega arith) (omega arith) (omega arith)
        (omega arith) (classify-base64 ((b * 4 + c / 64) % 64) (omega arith))
        (classify-base64 (c % 64) (omega arith)) e in
    let k : pad_of (suc (suc (suc (length bs)))) ≡ pad_of (length bs) = ground arith in
    (
      t,
      ap (decode_bytes base64_decoder s) (chars_group l count a b c bs h)
          ∙ r
          ∙ ap (λ (x : List ℕ). some (x, t))
              (three_bytes a b c (bs ++ replicate (pad_of (length bs)) 0) i.0 i.1.0 i.1.1.0)
          ∙ ap (λ (n : ℕ). some (a ∷ (b ∷ (c ∷ (bs ++ replicate n 0))), t)) (sym k),
      ground (arith, p),
    )

length-encoded :
    (l count : ℕ) (bs : List ℕ)
    → count % 3 ≡ 0
    → length (
        body base64_encoder l count bs
        ++ base64_encoder.tail ((count + length bs) % 3) (last_of l bs))
      ≡ howmany (length bs) 3 * 4
length-encoded l count [] h = let z : (count + 0) % 3 ≡ 0 = omega arith in rw z refl
length-encoded l count (a ∷ []) h =
    let t0 : count % 3 ≡ 0 = h in let t1 : (count + 1) % 3 ≡ 1 = omega arith in rw (t0, t1) refl
length-encoded l count (a ∷ b ∷ []) h =
    let t0 : count % 3 ≡ 0 = h in
    let t1 : (count + 1) % 3 ≡ 1 = omega arith in
    let t2 : (count + 2) % 3 ≡ 2 = omega arith in rw (t0, t1, t2) refl
length-encoded l count (a ∷ b ∷ c ∷ bs) h =
    rw (chars_group l count a b c bs h)
      (omega (arith, length-encoded c (count + 3) bs (omega arith)))

-- The base64 encoding of a well-formed object that is not empty, however it is cut into regions, is a
-- leaf of four characters for each three bytes begun, and decoding it gives the object's bytes. Memory
-- can be had, the characters fit a size_t, and the bytes are bytes.
pub from_base64-to_base64 :
    (malloc : ℕ → Option (List ℕ)) (dd : DispatchData)
    → IsAvailable malloc
    → IsValid dd
    → 0 < size dd
    → howmany (size dd) 3 ≤ (2 ^ 64 - 1) / 4
    → IsBytes (bytes dd)
    → (text : List ℕ) × (to_base malloc base64_encoder dd ≡ ok (some (leaf text)))
      × (length text ≡ howmany (size dd) 3 * 4)
      × (from_base malloc base64_decoder (leaf text) ≡ ok (some (leaf (bytes dd))))
from_base64-to_base64 malloc dd a v p few i =
    let n = length-bytes dd v in
    let z : 0 + length (bytes dd) ≡ length (bytes dd) = omega arith in
    let text = encoded base64_encoder (bytes dd) in
    let long : length text ≡ howmany (length (bytes dd)) 3 * 4 =
      ap
        (λ (m : ℕ). length (
          body base64_encoder 0 0 (bytes dd) ++ base64_encoder.tail (m % 3) (last_of 0 (bytes dd))))
        (sym z)
      ∙ length-encoded 0 0 (bytes dd) refl in
    let size_of : length text ≡ howmany (size dd) 3 * 4 = omega (arith, long, n) in
    let (t, e, k) = decode-encoded start 0 0 (bytes dd) refl refl i in
    let e' =
      ap
        (λ (m : ℕ). decode_bytes base64_decoder start (
          body base64_encoder 0 0 (bytes dd) ++ base64_encoder.tail (m % 3) (last_of 0 (bytes dd))))
        (sym z)
      ∙ e in
    let pad : pad_of (length (bytes dd)) ≤ 2 = ground arith in
    (
      text,
      to_base-encoded malloc base64_encoder dd a v p (omega arith) few size_of
          (omega (arith, size_of)),
      size_of,
      from_base-padded malloc base64_decoder text (bytes dd) (pad_of (length (bytes dd))) t a
          (omega (arith, size_of)) (omega (arith, size_of)) e' (omega (arith, k)) (omega (arith, n))
          (omega (arith, n, few, pad)),
    )
