-- ===== src/Wire/Decoder/Varint/Values.antt =====
-- getUVariant and getVariant on the groups of a number: which numbers come back, and which are
-- rejected.
use coev.Base.{ℕ, ◌/◌, ◌%◌, ◌^◌, ◌≤◌, ◌<◌, ◌≡◌, ap, ◌∙◌, arith}
use coev.Base.{bit_and, List, ◌++◌, length}
use coev.Base.Int.{ℤ, pos, negsuc}
use coev.Base.Bits.{bit_and_field, low_group, bit_xor-zero, bit_xor_ones}
use coev.Wire.Outcome.{ok, err, and_then, variant_overflow, uvariant_overflow}
use coev.Wire.Format.{groups, uvarint, zigzag, varint}
use coev.Wire.Format.Groups.{groups_enough}
use coev.Wire.Decoder.{Decoder, Get, advance}
use coev.Wire.Decoder.View.{Sees, Reads}
use coev.Wire.Decoder.Varint.{uvariant_bad, variant_bad, get_uvariant, zigzag_decode, get_variant}
use coev.Wire.Decoder.Varint.ReadBack.{Passes, Stops, read_groups, reject_groups}

uvariant-Passes : Passes uvariant_bad uvariant_overflow
uvariant-Passes i ux b h = ground arith

variant-Passes : Passes variant_bad variant_overflow
variant-Passes i ux b h = ground arith

uvariant-Stops : Stops uvariant_bad uvariant_overflow
uvariant-Stops ux b lo hi = ground arith

-- `ux & 0xFE00000000000000` keeps digit 63.
high_mask : (ux : ℕ) → 2 ^ 63 ≤ ux → ux < 2 ^ 64 → 0 < bit_and ux 0xfe00_0000_0000_0000
high_mask ux lo hi =
    ground (
      arith,
      bit_and_field 57 (ux / 2 ^ 57) 127 (ux % 2 ^ 57) (omega arith),
      low_group (ux / 2 ^ 57),
    )

variant-Stops : Stops variant_bad variant_overflow
variant-Stops ux b lo hi = ground (arith, high_mask ux lo hi)

-- A number below 2 ^ 63 comes back.
pub Reads-get_uvariant : (version n : ℕ) → n < 2 ^ 63 → Reads version get_uvariant (uvarint n) n
unfolding get_uvariant
Reads-get_uvariant version n h d rest f v =
    let e : uvarint n ≡ groups 8 n = groups_enough 8 9 n (omega arith) (omega arith) in
    rw e (
      read_groups uvariant_bad uvariant_overflow uvariant-Passes 8 10 0 0 0 n d rest (omega arith)
        (omega arith) (omega arith) (omega arith) (omega arith) (rw e at v)
      ∙ ap (λ (k : ℕ). ok k (advance (length (groups 8 n)) d)) (omega arith))

-- A number of 64 bits from 2 ^ 63 on, in the bytes of the format, is refused with
-- ErrUVariantOverflow, and the offset is set back.
get_uvariant_rejects :
    (n : ℕ) (d : Decoder) (rest : List ℕ)
    → 2 ^ 63 ≤ n
    → n < 2 ^ 64
    → Sees d (uvarint n ++ rest)
    → get_uvariant d ≡ err uvariant_overflow d
unfolding get_uvariant
get_uvariant_rejects n d rest lo hi v =
    reject_groups uvariant_bad uvariant_overflow uvariant-Stops 9 0 0 0 n d rest (omega arith)
      (omega arith) (omega arith) (omega arith) (omega arith) (omega arith) v
    ∙ ap (λ (o : ℕ). err uvariant_overflow (record d { offset = o })) (omega arith)

zigzag_decode-zigzag : (z : ℤ) → zigzag z < 2 ^ 64 → zigzag_decode (zigzag z) ≡ z
unfolding zigzag_decode
zigzag_decode-zigzag (pos n) h = ground (arith, bit_xor-zero n)
zigzag_decode-zigzag (negsuc n) h = ground (arith, bit_xor_ones 64 n (omega arith))

abbrev pub variant_next : ℕ → Get ℤ
variant_next ux d = ok (zigzag_decode ux) d

pub Reads-get_variant :
    (version : ℕ) (z : ℤ) → zigzag z < 2 ^ 63 → Reads version get_variant (varint z) z
unfolding get_variant
Reads-get_variant version z h d rest f v =
    let e : varint z ≡ groups 8 (zigzag z) =
      groups_enough 8 9 (zigzag z) (omega arith) (omega arith) in
    rw e (
      ap (λ r. and_then r variant_next)
        (read_groups variant_bad variant_overflow variant-Passes 8 10 0 0 0 (zigzag z) d rest
          (omega arith) (omega arith) (omega arith) (omega arith) (omega arith) (rw e at v))
      ∙ ap (λ (k : ℕ). ok (zigzag_decode k) (advance (length (groups 8 (zigzag z))) d))
          (omega arith)
      ∙ ap (λ k. ok k (advance (length (groups 8 (zigzag z))) d))
          (zigzag_decode-zigzag z (omega arith)))

-- A number whose zigzag form is of 64 bits and at least 2 ^ 63 is refused, in the bytes of the
-- format, with ErrVariantOverflow, and the offset is set back.
get_variant_rejects :
    (z : ℤ) (d : Decoder) (rest : List ℕ)
    → 2 ^ 63 ≤ zigzag z
    → zigzag z < 2 ^ 64
    → Sees d (varint z ++ rest)
    → get_variant d ≡ err variant_overflow d
unfolding get_variant
get_variant_rejects z d rest lo hi v =
    ap (λ r. and_then r variant_next)
      (reject_groups variant_bad variant_overflow variant-Stops 9 0 0 0 (zigzag z) d rest
        (omega arith) (omega arith) (omega arith) (omega arith) (omega arith) (omega arith) v)
    ∙ ap (λ (o : ℕ). err variant_overflow (record d { offset = o })) (omega arith)

-- In the bytes of the format, in buffers of fewer than 2 ^ 31 bytes, a number of 64 bits from 2 ^ 63 on is refused by getUVariant with
-- ErrUVariantOverflow, and one whose zigzag form is such a number by getVariant with
-- ErrVariantOverflow; the offset is set back.
pub large_numbers_refused :
    (n : ℕ) (z : ℤ) (d e : Decoder) (rest more : List ℕ)
    → 2 ^ 63 ≤ n
    → n < 2 ^ 64
    → 2 ^ 63 ≤ zigzag z
    → zigzag z < 2 ^ 64
    → Sees d (uvarint n ++ rest)
    → Sees e (varint z ++ more)
    → (get_uvariant d ≡ err uvariant_overflow d) × (get_variant e ≡ err variant_overflow e)
large_numbers_refused n z d e rest more h h' k k' v v' =
    (get_uvariant_rejects n d rest h h' v, get_variant_rejects z e more k k' v')
