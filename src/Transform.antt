-- ===== src/Transform.antt =====
-- src/transform.c: the base32, base32hex and base64 transforms of dispatch data objects. Bytes are
-- numbers below 256. `malloc` is a parameter: it gives memory of the size asked for, with any
-- contents, or `none`. The two decoders have the same loop, with other numbers in it, and so have the
-- encoders; the numbers are the fields of `Decoder` and `Encoder`.
mod Tables
mod Encode
mod Decode
mod Base64
mod Bounds
mod Faults
mod Tests
use Prim.Native.Char.{code}
use Prim.Native.String.{String}
use swift_corelibs_libdispat.Common.{
  ℕ, zero, suc, ◌+◌, ◌-◌, ◌*◌, ◌/◌, ◌%◌, ◌^◌, Bool, true, false, ◌||◌, leb, ltb, ◌==◌,
  if◌then◌else◌, Option, none, some, List, [], ◌∷◌, ◌++◌, length, take, drop, replicate, get_or,
}
use swift_corelibs_libdispat.Data.{
  Outcome, ok, out_of_memory, crash, DispatchData, leaf, size, data_empty, create_concat,
  create_subrange, create_map, apply_f,
}

-- An entry of a decoding table: -1, -2 or a digit.
pub data Entry : Type 0 where
  invalid padding : Entry
  digit : ℕ → Entry

-- `n` digits from `first` on
abbrev pub digits : ℕ → ℕ → List Entry
digits first zero = []
digits first (suc n) = digit first ∷ digits (suc first) n

-- The bytes of a string literal.
abbrev pub codes : String → List ℕ
codes String.[] = []
codes (String.◌∷◌ c s) = code c ∷ codes s

pub base32_encode_table : List ℕ
base32_encode_table = codes "ABCDEFGHIJKLMNOPQRSTUVWXYZ234567"

pub base32_decode_table : List Entry
base32_decode_table =
    replicate 50 invalid
    ++ (digits 26 6 ++ (replicate 5 invalid ++ (padding ∷ (replicate 3 invalid ++ digits 0 26))))

pub base32hex_encode_table : List ℕ
base32hex_encode_table = codes "0123456789ABCDEFGHIJKLMNOPQRSTUV"

pub base32hex_decode_table : List Entry
base32hex_decode_table =
    replicate 48 invalid
    ++ (digits 0 10 ++ (replicate 3 invalid ++ (padding ∷ (replicate 3 invalid ++ digits 10 22))))

-- sizeof(base32hex_encode_table), with the string's terminator
pub base32hex_decode_table_size : ℕ
unfolding base32hex_encode_table
base32hex_decode_table_size = length base32hex_encode_table + 1

pub base64_encode_table : List ℕ
base64_encode_table = codes "ABCDEFGHIJKLMNOPQRSTUVWXYZabcdefghijklmnopqrstuvwxyz0123456789+/"

pub base64_decode_table : List Entry
base64_decode_table =
    replicate 43 invalid
    ++ (digit 62
        ∷ (replicate 3 invalid
            ++ (digit 63
                ∷ (digits 52 10
                    ++ (replicate 3 invalid
                        ++ (padding
                            ∷ (replicate 3 invalid
                                ++ (digits 0 26 ++ (replicate 6 invalid ++ digits 26 26)))))))))

-- howmany(x, y)
abbrev pub howmany : ℕ → ℕ → ℕ
howmany x y = (x + (y - 1)) / y

-- `dispatch_data_create` of a buffer that malloc gave: it takes the first `n` bytes. Beyond the end of
-- the buffer it would be undefined.
pub data_create : List ℕ → ℕ → Outcome DispatchData
data_create buffer n =
    if n == 0
    then ok data_empty
    else (if leb n (length buffer) then ok (leaf (take n buffer)) else crash)

-- `_dispatch_data_subrange_map`: the mapped bytes, or `none` for NULL.
pub subrange_map : (ℕ → Option (List ℕ)) → DispatchData → ℕ → ℕ → Option (List ℕ)
subrange_map malloc dd offset n = elim (create_subrange dd offset n) [
  | ok r ↦ (if size r == n then (create_map malloc r).1 else none)
  | out_of_memory ↦ none
  | crash ↦ none
]

-- What a decoder has of its own: a group of `chars` characters of `bits` bits each makes the bytes
-- `emit`, and `trim` bytes are taken off at the end of a region after so many padding characters.
pub record Decoder : Type 0 where
  pub table : List Entry
  pub table_size : ℕ
  pub chars : ℕ
  pub bits : ℕ
  pub octets : ℕ
  pub emit : ℕ → List ℕ
  pub trim : ℕ → ℕ

-- What a character of the input is: white space, refused, or a value that may be padding.
pub data Symbol : Type 0 where
  skip reject : Symbol
  value : (v pad : ℕ) → Symbol

abbrev pub classify_entry : Entry → Symbol
classify_entry invalid = reject
classify_entry padding = value 0 1
classify_entry (digit v) = value v 0

abbrev pub is_space : ℕ → Bool
is_space b = (b == 10) || ((b == 9) || (b == 32))

unfoldable pub classify : Decoder → ℕ → Symbol
classify d b =
    if is_space b
    then skip
    else (if leb d.table_size b then reject else classify_entry (get_or d.table b invalid))

-- The block's variables `x`, `count` and `pad`. (`count` is below the object's size.)
pub record Bits : Type 0 where
  pub x : ℕ
  pub count : ℕ
  pub pad : ℕ

-- x <<= bits; x += value
abbrev pub shift_in : Decoder → ℕ → ℕ → Bits → Bits
shift_in d v p s = record {
  x = (s.x * 2 ^ d.bits + v) % 2 ^ 64;
  count = s.count + 1;
  pad = s.pad + p;
}

-- The last character of a group writes the group's bytes before those of the rest.
abbrev pub put_group : Decoder → Bits → Option (List ℕ × Bits) → Option (List ℕ × Bits)
put_group d s none = none
put_group d s (some (out, t)) = some (if s.count % d.chars == 0 then d.emit s.x ++ out else out, t)

-- The loop over the bytes of a region: what is written to `dest`.
pub decode_bytes : Decoder → Bits → List ℕ → Option (List ℕ × Bits)
unfolding classify
decode_bytes d s [] = some ([], s)
decode_bytes d s (b ∷ bs) = elim (classify d b) [
  | skip ↦ decode_bytes d s bs
  | reject ↦ none
  | value v p ↦ put_group d (shift_in d v p s) (decode_bytes d (shift_in d v p s) bs)
]

pub record Decoding : Type 0 where
  pub vars : Bits
  pub rv : Outcome DispatchData

-- rv = dispatch_data_create_concat(rv, val)
abbrev pub concat_onto : Outcome DispatchData → Outcome DispatchData → Outcome DispatchData
concat_onto (ok rv) (ok val) = create_concat rv val
concat_onto (ok rv) e = e
concat_onto e val = e

-- The end of a region: the padding is taken off, and what is left is appended to `rv`.
pub end_decoding : Decoder → Decoding → List ℕ → Option (List ℕ × Bits) → Decoding × Bool
unfolding data_create
end_decoding d s memory none = (s, false)
end_decoding d s memory (some (out, t)) = (
  record {
    vars = t;
    rv = concat_onto s.rv (
        data_create (out ++ drop (length out) memory)
          ((length out + 2 ^ 64 - d.trim t.pad) % 2 ^ 64));
  },
  true,
)

-- The applier of a decoder.
pub decode_region :
    (ℕ → Option (List ℕ)) → Decoder → Decoding → DispatchData → ℕ → List ℕ → Decoding × Bool
unfolding decode_bytes end_decoding
decode_region malloc d s region offset buffer =
    elim (malloc (howmany (length buffer) d.chars * d.octets)) [
      | none ↦ (s, false)
      | some memory ↦ end_decoding d s memory (decode_bytes d s.vars buffer)
    ]

-- What is returned for the last state and the answer of the applier: an object, or `none` for NULL.
abbrev pub decoded : Decoding × Bool → Outcome (Option DispatchData)
decoded (s, true) = elim s.rv [ ok r ↦ ok (some r) | out_of_memory ↦ ok none | crash ↦ crash ]
decoded (s, false) = ok none

-- `_dispatch_transform_from_base32_with_table` and `_dispatch_transform_from_base64`
pub from_base : (ℕ → Option (List ℕ)) → Decoder → DispatchData → Outcome (Option DispatchData)
unfolding decode_region
from_base malloc d dd = decoded (
    apply_f (decode_region malloc d) dd
      (record { vars = record { x = 0; count = 0; pad = 0 }; rv = ok data_empty }))

abbrev pub base32_emit : ℕ → List ℕ
base32_emit x =
    (x / 2 ^ 32 % 256)
    ∷ ((x / 2 ^ 24 % 256) ∷ ((x / 2 ^ 16 % 256) ∷ ((x / 2 ^ 8 % 256) ∷ ((x % 256) ∷ []))))

-- switch (pad)
abbrev pub base32_trim : ℕ → ℕ
base32_trim pad =
    if pad == 1
    then 1
    else (if pad == 3 then 2 else (if pad == 4 then 3 else (if pad == 6 then 4 else 0)))

-- `_dispatch_transform_from_base32_with_table`
abbrev pub base32_decoder : List Entry → ℕ → Decoder
base32_decoder table table_size = record {
  table = table;
  table_size = table_size;
  chars = 8;
  bits = 5;
  octets = 5;
  emit = base32_emit;
  trim = base32_trim;
}

abbrev pub base64_emit : ℕ → List ℕ
base64_emit x = (x / 2 ^ 16 % 256) ∷ ((x / 2 ^ 8 % 256) ∷ ((x % 256) ∷ []))

abbrev pub base64_decoder : Decoder
base64_decoder = record {
  table = base64_decode_table;
  table_size = length base64_decode_table;
  chars = 4;
  bits = 6;
  octets = 3;
  emit = base64_emit;
  trim = λ pad. pad;
}

-- What an encoder has of its own: a group of `group` bytes makes `chars` characters. `emit` gives the
-- characters for a byte by its place in the group, after the byte `last`, and `tail` those at the end
-- of the object, where the last group has so many bytes.
pub record Encoder : Type 0 where
  pub group : ℕ
  pub chars : ℕ
  pub emit : ℕ → ℕ → ℕ → List ℕ
  pub tail : ℕ → ℕ → List ℕ

-- The characters for a byte before those of the rest, where the byte before it could be mapped.
abbrev pub cons_chars : Option ℕ → (ℕ → List ℕ) → Option (List ℕ) → Option (List ℕ)
cons_chars none chars rest = none
cons_chars (some l) chars none = none
cons_chars (some l) chars (some out) = some (chars l ++ out)

-- The loop over the bytes of a region: what is written through `ptr`. The first argument is the byte
-- before, which is only looked at inside a group; `none` where mapping it failed.
pub encode_bytes : Encoder → Option ℕ → ℕ → List ℕ → Option (List ℕ)
encode_bytes e last count [] = some []
encode_bytes e last count (b ∷ bs) =
    cons_chars (if count % e.group == 0 then some 0 else last) (λ l. e.emit (count % e.group) l b)
      (encode_bytes e (some b) (count + 1) bs)

-- The block's variable `count`, and what was written to `dest`.
pub record Encoding : Type 0 where
  pub count : ℕ
  pub written : List ℕ

-- *(uint8_t *)p
abbrev pub first_byte : Option (List ℕ) → Option ℕ
first_byte (some (b ∷ _)) = some b
first_byte _ = none

-- bytes[size - 1]
abbrev pub last_byte : List ℕ → ℕ
last_byte bs = get_or bs (length bs - 1) 0

-- The end of a region: on the last one the padding is inserted.
abbrev pub end_region : Encoder → ℕ → Encoding → ℕ → List ℕ → Option (List ℕ) → Encoding × Bool
end_region e total s offset buffer none = (s, false)
end_region e total s offset buffer (some out) = (
  record {
    count = s.count + length buffer;
    written =
        s.written
        ++ (out
            ++ (if offset + length buffer == total
                then e.tail ((s.count + length buffer) % e.group) (last_byte buffer)
                else []));
  },
  true,
)

-- The applier of an encoder.
pub encode_region :
    (ℕ → Option (List ℕ))
    → Encoder
    → DispatchData
    → Encoding
    → DispatchData
    → ℕ
    → List ℕ
    → Encoding × Bool
unfolding encode_bytes subrange_map
encode_region malloc e dd s region offset buffer =
    end_region e (size dd) s offset buffer
      (encode_bytes e (first_byte (subrange_map malloc dd (offset - 1) 1)) s.count buffer)

-- The encoded object, or `none` for NULL.
pub to_base : (ℕ → Option (List ℕ)) → Encoder → DispatchData → Outcome (Option DispatchData)
unfolding encode_region data_create
to_base malloc e dd =
    let dest_size : ℕ = howmany (size dd) e.group * e.chars in
    if ltb ((2 ^ 64 - 1) / e.chars) (howmany (size dd) e.group)
    then ok none
    else (elim (malloc dest_size) [
      | none ↦ ok none
      | some memory ↦
          let r : Encoding × Bool =
            apply_f (encode_region malloc e dd) dd (record { count = 0; written = [] }) in
          if r.1
          then (elim (data_create (r.0.written ++ drop (length r.0.written) memory) dest_size) [
            | ok d ↦ ok (some d)
            | out_of_memory ↦ ok none
            | crash ↦ crash
          ])
          else ok none
    ])

-- switch (count % 5), with `table[i]`
abbrev pub base32_emit_chars : (ℕ → ℕ) → ℕ → ℕ → ℕ → List ℕ
base32_emit_chars c place last b =
    if place == 0
    then c (b / 8 % 32) ∷ []
    else (if place == 1
        then c ((last * 4 + b / 64) % 32) ∷ (c (b / 2 % 32) ∷ [])
        else (if place == 2
            then c ((last * 16 + b / 16) % 32) ∷ []
            else (if place == 3
                then c ((last * 2 + b / 128) % 32) ∷ (c (b / 4 % 32) ∷ [])
                else c ((last * 8 + b / 32) % 32) ∷ (c (b % 32) ∷ []))))

-- '='
abbrev pub equals_sign : ℕ
equals_sign = 61

abbrev pub base32_tail : (ℕ → ℕ) → ℕ → ℕ → List ℕ
base32_tail c rest b =
    if rest == 0
    then []
    else (if rest == 1
        then c (b * 4 % 32) ∷ replicate 6 equals_sign
        else (if rest == 2
            then c (b * 16 % 32) ∷ replicate 4 equals_sign
            else (if rest == 3
                then c (b * 2 % 32) ∷ replicate 3 equals_sign
                else c (b * 8 % 32) ∷ replicate 1 equals_sign)))

-- `_dispatch_transform_to_base32_with_table`
abbrev pub base32_encoder : List ℕ → Encoder
base32_encoder table = record {
  group = 5;
  chars = 8;
  emit = base32_emit_chars (λ i. get_or table i 0);
  tail = base32_tail (λ i. get_or table i 0);
}

-- switch (count % 3)
abbrev pub base64_emit_chars : (ℕ → ℕ) → ℕ → ℕ → ℕ → List ℕ
base64_emit_chars c place last b =
    if place == 0
    then c (b / 4 % 64) ∷ []
    else (if place == 1
        then c ((last * 16 + b / 16) % 64) ∷ []
        else c ((last * 4 + b / 64) % 64) ∷ (c (b % 64) ∷ []))

abbrev pub base64_tail : (ℕ → ℕ) → ℕ → ℕ → List ℕ
base64_tail c rest b =
    if rest == 0
    then []
    else (if rest == 1
        then c (b * 16 % 64) ∷ replicate 2 equals_sign
        else c (b * 4 % 64) ∷ replicate 1 equals_sign)

abbrev pub base64_encoder : Encoder
base64_encoder = record {
  group = 3;
  chars = 4;
  emit = base64_emit_chars (λ i. get_or base64_encode_table i 0);
  tail = base64_tail (λ i. get_or base64_encode_table i 0);
}
