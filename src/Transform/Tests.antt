-- ===== src/Transform/Tests.antt =====
-- Instances and runs of the transforms (src/transform.c).
use swift_corelibs_libdispat.Common.{
  ℕ, ◌+◌, ◌*◌, ◌^◌, ◌≤◌, ◌≡◌, refl, arith, Option, none, some, List, [], ◌∷◌, length, replicate,
  length-replicate,
}
use swift_corelibs_libdispat.Data.{
  Outcome, ok, crash, DispatchData, leaf, composite, nil, cons, size, create_map,
}
use swift_corelibs_libdispat.Data.Bytes.{bytes, IsValid}
use swift_corelibs_libdispat.Data.Map.{IsAvailable}
use swift_corelibs_libdispat.Transform.{
  Bits, howmany, decode_bytes, from_base, to_base, codes, base64_decoder, base64_encoder, Decoding,
  end_decoding, decode_region, encode_region, encode_bytes, base32_decoder, base32_decode_table,
  base64_decode_table, base64_encode_table, classify, subrange_map,
}
use swift_corelibs_libdispat.Transform.Encode.{encoded, to_base-encoded}
use swift_corelibs_libdispat.Transform.Decode.{start}
use swift_corelibs_libdispat.Transform.Base64.{from_base64-to_base64}
use swift_corelibs_libdispat.Transform.Bounds.{Reads, decode_bytes-within}
use swift_corelibs_libdispat.Transform.Tables.{base32hex}
use swift_corelibs_libdispat.Transform.Faults.{base32hex_refuses}

abbrev zeros : ℕ → Option (List ℕ)
zeros n = some (replicate n 0)

zeros-IsAvailable : IsAvailable zeros
zeros-IsAvailable n = (replicate n 0, refl, length-replicate {A = ℕ} n 0)

-- "Man!" in two regions
abbrev man : DispatchData
man = composite 4 none (cons (leaf (0 ∷ 77 ∷ 97 ∷ [])) 1 2 (cons (leaf (110 ∷ 33 ∷ [])) 0 2 nil))

man-IsValid : IsValid man
man-IsValid = omega arith

to_base-encoded_example :
    to_base zeros base64_encoder man ≡ ok (some (leaf (encoded base64_encoder (bytes man))))
to_base-encoded_example =
    to_base-encoded zeros base64_encoder man zeros-IsAvailable man-IsValid (omega arith)
      (omega arith) (omega arith) refl (omega arith)

from_base64-to_base64_example :
    (text : List ℕ) × (to_base zeros base64_encoder man ≡ ok (some (leaf text)))
    × (length text ≡ howmany (size man) 3 * 4)
    × (from_base zeros base64_decoder (leaf text) ≡ ok (some (leaf (bytes man))))
from_base64-to_base64_example =
    from_base64-to_base64 zeros man zeros-IsAvailable man-IsValid (omega arith) (omega arith)
      (omega arith)

-- "TWE="
run_decode :
    decode_bytes base64_decoder start (codes "TWE=")
    ≡ some (77 ∷ 97 ∷ 0 ∷ [], record { x = 77 * 2 ^ 16 + 97 * 2 ^ 8; count = 4; pad = 1 })
unfolding decode_bytes classify base64_decode_table
run_decode = refl

-- A region whose sixth character is refused, after a group was written.
decode_bytes-within_example :
    (read : List ℕ) × (rest : List ℕ) × (out : List ℕ) × (t : Bits) × Reads start
      (codes "TWFuI*==")
      read
      rest
      out
      t
    × (length out ≤ howmany 8 base64_decoder.chars * base64_decoder.octets)
decode_bytes-within_example = decode_bytes-within start (codes "TWFuI*==")

base32hex_refuses_example : from_base zeros base32hex (leaf (codes "91IMOR3F")) ≡ ok none
base32hex_refuses_example =
    base32hex_refuses zeros (leaf (codes "91IMOR3F")) 57 (codes "1IMOR3F") zeros-IsAvailable
      (omega arith) refl (omega arith)

run_to_base64 : to_base zeros base64_encoder man ≡ ok (some (leaf (codes "TWFuIQ==")))
unfolding to_base encode_region encode_bytes subrange_map swift_corelibs_libdispat.Data.create_map
    swift_corelibs_libdispat.Data.create_subrange swift_corelibs_libdispat.Data.apply_f
    swift_corelibs_libdispat.Data.apply base64_encode_table
    swift_corelibs_libdispat.Transform.data_create swift_corelibs_libdispat.Data.create_concat
    swift_corelibs_libdispat.Data.map_direct
run_to_base64 = refl

-- The region "QQ=" of an object that ends with "=": no group is complete, and a byte is taken off.
run_padding :
    from_base zeros base64_decoder
      (composite 4 none (cons (leaf (codes "QQ=")) 0 3 (cons (leaf (codes "=")) 0 1 nil)))
    ≡ crash
unfolding from_base decode_region decode_bytes end_decoding classify base64_decode_table
    swift_corelibs_libdispat.Data.apply_f swift_corelibs_libdispat.Data.apply
    swift_corelibs_libdispat.Data.map_direct swift_corelibs_libdispat.Data.create_concat
    swift_corelibs_libdispat.Transform.data_create
run_padding = refl
