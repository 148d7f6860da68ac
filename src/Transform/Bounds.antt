-- ===== src/Transform/Bounds.antt =====
-- The base64 decoder (src/transform.c) stays inside the buffer that it allocates for a region.
use swift_corelibs_libdispat.Common.{
  ℕ, ◌+◌, ◌*◌, ◌/◌, ◌≤◌, ◌≡◌, refl, arith, Option, none, some, List, [], ◌∷◌, length, ◌++◌,
  length-append, ◌==◌, ◌%◌, if◌then◌else◌, ap, ◌∙◌, ◌⊎◌, inl, inr,
}
use swift_corelibs_libdispat.Transform.{
  Bits, Symbol, skip, reject, value, classify, decode_bytes, put_group, shift_in, base64_decoder,
  howmany,
}

Symbol-cases : (s : Symbol) → (s ≡ skip) ⊎ (s ≡ reject) ⊎ ((v : ℕ) × (p : ℕ) × (s ≡ value v p))
Symbol-cases skip = inl refl
Symbol-cases reject = inr (inl refl)
Symbol-cases (value v p) = inr (inr (v, p, refl))

abbrev Counts : Bits → List ℕ → List ℕ → Bits → Type 0
Counts s bs out t =
    (length out + 3 * (s.count / 4) ≡ 3 * (t.count / 4)) × (t.count ≤ s.count + length bs)

put-Counts :
    (s u t : Bits) (bs out : List ℕ) (r : Option (List ℕ × Bits))
    → ((ws : List ℕ) (w : Bits) → r ≡ some (ws, w) → Counts u bs ws w)
    → u.count ≡ s.count + 1
    → put_group base64_decoder u r ≡ some (out, t)
    → (length out + 3 * (s.count / 4) ≡ 3 * (t.count / 4)) × (t.count ≤ s.count + 1 + length bs)
put-Counts s u t bs out none ih c e = cc
put-Counts s u t bs out (some (ws, w)) ih c e = ground (arith, ih ws w refl)

decode-Counts :
    (s t : Bits) (bs out : List ℕ)
    → decode_bytes base64_decoder s bs ≡ some (out, t)
    → Counts s bs out t
unfolding decode_bytes
decode-Counts s t [] out e = ground arith
decode-Counts s t (b ∷ bs) out e = elim (Symbol-cases (classify base64_decoder b)) [
  | inl c ↦ let h = decode-Counts s t bs out (rw (c, decode_bytes) at e) in omega (arith, h)
  | inr (inl c) ↦ cc (rw (c, decode_bytes) at e)
  | inr (inr (v, p, c)) ↦
      let u = shift_in base64_decoder v p s in
      let h =
        put-Counts s u t bs out (decode_bytes base64_decoder u bs)
          (λ ws w q. decode-Counts u w bs ws q) refl (rw (c, decode_bytes) at e) in
      omega (arith, h)
]

-- The bytes that the decoder reads and decodes before the region ends or it refuses a character: what it
-- has written then is what these bytes decode to.
pub Reads : Bits → List ℕ → List ℕ → List ℕ → List ℕ → Bits → Type 0
Reads s bs read rest out t =
    (bs ≡ read ++ rest)
    × (decode_bytes base64_decoder s read ≡ some (out, t))
    × ((rest ≡ [])
        ⊎ (b : ℕ) × (left : List ℕ) × (rest ≡ b ∷ left) × (classify base64_decoder b ≡ reject))

put_some :
    (u t : Bits) (out : List ℕ) (r : Option (List ℕ × Bits))
    → r ≡ some (out, t)
    → (ws : List ℕ) × (put_group base64_decoder u r ≡ some (ws, t))
put_some u t out r e =
    (if u.count % base64_decoder.chars == 0 then base64_decoder.emit u.x ++ out else out, rw e refl)

read_to_end :
    (s : Bits) (bs : List ℕ)
    → (read : List ℕ) × (rest : List ℕ) × (out : List ℕ) × (t : Bits) × Reads s bs read rest out t
unfolding decode_bytes Reads
read_to_end s [] = ([], [], [], s, (refl, refl, inl refl))
read_to_end s (b ∷ bs) = elim (Symbol-cases (classify base64_decoder b)) [
  | inl c ↦
      let (read, rest, out, t, (e, d, f)) = read_to_end s bs in
      (b ∷ read, rest, out, t, (ap (λ xs. b ∷ xs) e, rw (c, decode_bytes) d, f))
  | inr (inl c) ↦ ([], b ∷ bs, [], s, (refl, refl, inr (b, bs, refl, c)))
  | inr (inr (v, p, c)) ↦
      let u = shift_in base64_decoder v p s in
      let (read, rest, out, t, (e, d, f)) = read_to_end u bs in
      let (ws, g) = put_some u t out (decode_bytes base64_decoder u read) d in
      (b ∷ read, rest, ws, t, (ap (λ xs. b ∷ xs) e, rw (c, decode_bytes) g, f))
]

-- Whatever a region holds and whatever the regions before it left, the base64 decoder writes no more bytes
-- than it allocates for the region: it reads up to the first character that it refuses, if there is one, or
-- to the end, and what it has written then fits.
pub decode_bytes-within :
    (s : Bits) (bs : List ℕ)
    → (read : List ℕ) × (rest : List ℕ) × (out : List ℕ) × (t : Bits) × Reads s bs read rest out t
      × (length out ≤ howmany (length bs) base64_decoder.chars * base64_decoder.octets)
unfolding Reads
decode_bytes-within s bs =
    let (read, rest, out, t, (e, d, f)) = read_to_end s bs in
    let n : length bs ≡ length read + length rest = ap length e ∙ length-append read rest in
    let c = decode-Counts s t read out d in (read, rest, out, t, (e, d, f), omega (arith, c, n))
