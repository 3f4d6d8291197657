-- ===== src/Wire/Encoder/Varint.antt =====
-- The base-128 numbers of packet_encoder.cpp: what PREP counts and what REAL writes.
pub mod Bytes
pub mod Counts
use coev.Base.{
  ℕ, zero, suc, ◌+◌, ◌-◌, ◌*◌, ◌/◌, ◌%◌, ◌^◌, bit_or, bit_xor, leb, ◌==◌, if◌then◌else◌,
}
use coev.Base.{List, [], ◌∷◌, Bool, true, false, ◌||◌}
use coev.Base.Int.{ℤ, pos, negsuc, unsigned, shr_ℤ, ltb_ℤ}
use coev.Wire.Outcome.{Outcome}
use coev.Wire.Encoder.{Encoder, Put, by_kind, tally, emit}

-- `while (x >= 0x80) { buf[n++] = x | 0x80; x >>= 7; }`, then the last byte. An uint64_t takes ten
-- rounds at most; the empty list is what is left when these are used up.
unfoldable pub encode_uvariant_loop : ℕ → ℕ → List ℕ
encode_uvariant_loop zero x = []
encode_uvariant_loop (suc left) x = elim (leb 0x80 x) [
  | true ↦ bit_or (x % 2 ^ 8) 0x80 ∷ encode_uvariant_loop left (x / 2 ^ 7)
  | false ↦ x % 2 ^ 8 ∷ []
]

unfoldable pub encode_uvariant : ℕ → List ℕ
encode_uvariant x = encode_uvariant_loop 10 x

-- `(x << 1) ^ -(x < 0)` on uint64_t.
unfoldable pub zigzag_encode : ℤ → ℕ
zigzag_encode x = bit_xor (unsigned 64 x * 2 % 2 ^ 64) (if ltb_ℤ x (pos 0) then 2 ^ 64 - 1 else 0)

unfoldable pub encode_variant : ℤ → List ℕ
encode_variant x = encode_uvariant (zigzag_encode x)

-- `while (x >= 0x80) { x >>= 7; s++; }`
unfoldable pub uvarint_len_loop : ℕ → ℕ → ℕ → ℕ
uvarint_len_loop zero x s = s
uvarint_len_loop (suc left) x s = elim (leb 0x80 x) [
  | true ↦ uvarint_len_loop left (x / 2 ^ 7) (s + 1)
  | false ↦ s + 1
]

unfoldable pub uvarint_len : ℕ → ℕ
uvarint_len x = if x == 0 then 1 else uvarint_len_loop 10 x 0

-- `while (x >= 0x80 || x < -0x40) { x >>= 7; s++; }`
unfoldable pub varint_len_loop : ℕ → ℤ → ℕ → ℕ
varint_len_loop zero x s = s
varint_len_loop (suc left) x s = elim (ltb_ℤ (pos 0x7f) x || ltb_ℤ x (negsuc 0x3f)) [
  | true ↦ varint_len_loop left (shr_ℤ x 7) (s + 1)
  | false ↦ s + 1
]

unfoldable pub varint_len : ℤ → ℕ
varint_len x = varint_len_loop 10 x 0

unfoldable pub put_uvarint : ℕ → Put
put_uvarint x = by_kind (tally (uvarint_len x)) (emit (encode_uvariant x))

unfoldable pub put_variant : ℤ → Put
put_variant x = by_kind (tally (varint_len x)) (emit (encode_variant x))
