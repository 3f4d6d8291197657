-- ===== src/Wire/Encoder/Varint/Bytes.antt =====
-- What REAL writes for a base-128 number is its groups of the format.
use coev.Base.{ℕ, zero, suc, ◌+◌, ◌-◌, ◌*◌, ◌/◌, ◌%◌, ◌^◌, ◌<◌, ◌≡◌, refl, arith}
use coev.Base.{bit_or}
use coev.Base.Int.{ℤ, pos, negsuc, IsInt}
use coev.Base.Bits.{bit_or_split, bit_or-zero, bit_xor-zero, bit_xor_ones}
use coev.Wire.Format.{groups, uvarint, zigzag, varint}
use coev.Wire.Encoder.Varint.{encode_uvariant_loop, encode_uvariant, zigzag_encode, encode_variant}

-- `x | 0x80` sets the top bit of a byte, whether it was set or not.
set_top_bit : (b : ℕ) → b < 256 → bit_or b 0x80 ≡ b % 128 + 128
set_top_bit b h = ground (
  arith,
  bit_or_split 7 (b / 128) 1 (b % 128) 0 (omega arith) (omega arith),
  bit_or-zero (b % 128),
  one_or (b / 128) (omega arith),
)
  where
    one_or : (c : ℕ) → c < 2 → bit_or c 1 ≡ 1
    one_or zero p = refl
    one_or (suc zero) p = refl
    one_or (suc (suc c)) p = absurd (omega arith)

encode_loop-groups : (k x : ℕ) → x < 128 ^ suc k → encode_uvariant_loop (suc k) x ≡ groups k x
unfolding encode_uvariant_loop groups
encode_loop-groups zero x h = ground arith
encode_loop-groups (suc k) x h =
    ground (arith, set_top_bit (x % 2 ^ 8), encode_loop-groups k (x / 2 ^ 7))

pub encode_uvariant-groups : (x : ℕ) → x < 2 ^ 64 → encode_uvariant x ≡ uvarint x
unfolding encode_uvariant
encode_uvariant-groups x h = encode_loop-groups 9 x (omega arith)

pub zigzag_encode-zigzag : (z : ℤ) → IsInt 64 z → zigzag_encode z ≡ zigzag z
unfolding zigzag_encode
zigzag_encode-zigzag (pos n) h = ground (arith, bit_xor-zero (2 * n))
zigzag_encode-zigzag (negsuc n) h =
    ground (arith, bit_xor_ones 64 (2 ^ 64 - 2 * n - 2) (omega arith))

zigzag-lt : (z : ℤ) → IsInt 64 z → zigzag z < 2 ^ 64
zigzag-lt (pos n) h = omega arith
zigzag-lt (negsuc n) h = omega arith

pub encode_variant-groups : (z : ℤ) → IsInt 64 z → encode_variant z ≡ varint z
unfolding encode_variant
encode_variant-groups z h =
    rw (zigzag_encode-zigzag z h) (encode_uvariant-groups (zigzag z) (zigzag-lt z h))
