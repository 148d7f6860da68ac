-- ===== src/Transform/Tables.antt =====
-- The tables of src/transform.c: the decoding tables invert the encoding tables.
use swift_corelibs_libdispat.Common.{
  ℕ, zero, suc, ◌+◌, ◌<◌, ◌≡◌, refl, ap, ◌∙◌, inl, inr, arith, Bool, true, false, ◌==◌,
  if◌then◌else◌, List, [], ◌∷◌, length, get_or, Bool-cases,
}
use swift_corelibs_libdispat.Transform.{
  Decoder, Symbol, skip, reject, value, classify, base32hex_decode_table,
  base32hex_decode_table_size, base64_encode_table, base64_decode_table, base32_decoder,
  base64_decoder, equals_sign,
}

-- The character is the digit `v`.
abbrev is_digit : Symbol → ℕ → Bool
is_digit (value w zero) v = w == v
is_digit _ v = false

is_digit_sound : (s : Symbol) (v : ℕ) → is_digit s v ≡ true → s ≡ value v 0
is_digit_sound (value w zero) v h = ground arith
is_digit_sound (value w (suc p)) v h = cc
is_digit_sound skip v h = cc
is_digit_sound reject v h = cc

-- The characters of an encoding table decode to their places in it, from `first` on.
inverts : Decoder → ℕ → List ℕ → Bool
inverts d first [] = true
inverts d first (c ∷ table) =
    if is_digit (classify d c) first then inverts d (suc first) table else false

inverts_sound :
    (d : Decoder) (table : List ℕ) (first i : ℕ)
    → inverts d first table ≡ true
    → i < length table
    → classify d (get_or table i 0) ≡ value (first + i) 0
unfolding inverts
inverts_sound d [] first i h inside = absurd (omega arith)
inverts_sound d (c ∷ table) first zero h inside =
    elim (Bool-cases (is_digit (classify d c) first)) [
      | inr no_digit ↦ cc (rw (no_digit, inverts) at h)
      | inl yes_digit ↦
          let z : first + 0 ≡ first = omega arith in
          rw z (is_digit_sound (classify d c) first yes_digit)
    ]
inverts_sound d (c ∷ table) first (suc i) h inside =
    elim (Bool-cases (is_digit (classify d c) first)) [
      | inr no_digit ↦ cc (rw (no_digit, inverts) at h)
      | inl yes_digit ↦
          let z : first + suc i ≡ suc first + i = omega arith in
          rw z (inverts_sound d table (suc first) i (rw (yes_digit, inverts) at h) (omega arith))
    ]

base64_inverts : inverts base64_decoder 0 base64_encode_table ≡ true
unfolding inverts classify base64_encode_table base64_decode_table
base64_inverts = refl

base64_length : length base64_encode_table ≡ 64
unfolding base64_encode_table
base64_length = refl

pub classify-base64 :
    (v : ℕ) → v < 64 → classify base64_decoder (get_or base64_encode_table v 0) ≡ value v 0
classify-base64 v h =
    inverts_sound base64_decoder base64_encode_table 0 v base64_inverts
      (omega (arith, base64_length))
    ∙ ap (λ (n : ℕ). value n 0) (omega arith)

pub base64_padding : classify base64_decoder equals_sign ≡ value 0 1
unfolding classify base64_decode_table
base64_padding = refl

abbrev pub base32hex : Decoder
base32hex = base32_decoder base32hex_decode_table base32hex_decode_table_size
