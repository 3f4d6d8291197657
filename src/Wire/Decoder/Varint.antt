-- ===== src/Wire/Decoder/Varint.antt =====
-- getVariant and getUVariant of packet_decoder.cpp.
pub mod Steps
pub mod ReadBack
pub mod Values
use coev.Base.{ℕ, zero, suc, ◌+◌, ◌-◌, ◌*◌, ◌/◌, ◌%◌, ◌^◌, bit_and, bit_or, bit_xor}
use coev.Base.{ltb, leb, ◌==◌, if◌then◌else◌, Bool, true, false, not, ◌&&◌, ◌||◌, length}
use coev.Base.Int.{ℤ, signed}
use coev.Wire.Outcome.{Code, ok, err, fail, pure, ◌>>=◌, ◌>>◌}
use coev.Wire.Outcome.{insufficient_data, variant_overflow, uvariant_overflow}
use coev.Wire.Decoder.{Decoder, Get, byte_at, skip, to_end}

-- `m_offset -= n; return code;`
abbrev rewind : {A : Type 0} → ℕ → Code → Get A
rewind n code d = err code (record d { offset = d.offset - n })

-- The loop that both functions have, from round i on, with `left` rounds to go; `bad i ux b` is
-- the test that each makes on its last byte. m_offset is at least the number of bytes read.
unfoldable pub varint_loop : (ℕ → ℕ → ℕ → Bool) → Code → (left i shift ux : ℕ) → Get ℕ
varint_loop bad code zero i shift ux d = rewind 10 code d
varint_loop bad code (suc left) i shift ux d = elim (leb (length d.raw) d.offset) [
  | true ↦ err insufficient_data (to_end d)
  | false ↦
      (do
        b ← byte_at 0
        skip 1
        let ux' = bit_or ux (bit_and b 0x7f * 2 ^ shift % 2 ^ 64)
        let more = varint_loop bad code left (i + 1) (shift + 7) ux'
        let last = if bad i ux' b then rewind (i + 1) code else pure ux'
        if bit_and b 0x80 == 0 then last else more)
        d
]

-- `i == 9 && result >> 63`
abbrev pub uvariant_bad : ℕ → ℕ → ℕ → Bool
uvariant_bad i ux b = i == 9 && not (ux / 2 ^ 63 == 0)

-- `i == 9 && ((ux & 0xFE00000000000000) != 0 || (b & 0x7F) > 1)`
abbrev pub variant_bad : ℕ → ℕ → ℕ → Bool
variant_bad i ux b =
    i == 9 && (not (bit_and ux 0xfe00_0000_0000_0000 == 0) || ltb 1 (bit_and b 0x7f))

unfoldable pub get_uvariant : Get ℕ
get_uvariant = varint_loop uvariant_bad uvariant_overflow 10 0 0 0

-- `(x >> 1) ^ -(x & 1)`, as an int64_t.
unfoldable pub zigzag_decode : ℕ → ℤ
zigzag_decode x = signed 64 (bit_xor (x / 2) ((2 ^ 64 - x % 2) % 2 ^ 64))

unfoldable pub get_variant : Get ℤ
get_variant = do ux ← varint_loop variant_bad variant_overflow 10 0 0 0; pure (zigzag_decode ux)
