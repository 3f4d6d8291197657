-- ===== src/Wire/Crc.antt =====
-- crc32_field.cpp of src/coev_kafka: the checksum over what stands behind a field of four bytes.
pub mod Table
pub mod Bits
pub mod Check
mod Tests
use coev.Base.{
  ℕ, zero, suc, ◌+◌, ◌-◌, ◌*◌, ◌/◌, ◌%◌, ◌==◌, ◌^◌, if◌then◌else◌, Bool, true, false, ltb,
}
use coev.Base.{◌++◌, List, [], ◌∷◌, Option, none, some, length, get_elem?, bit_and, bit_xor}

pub data CrcPolynomial : Type 0 where
  ieee castagnoli : CrcPolynomial

-- m_start_offset and m_polynomial
pub record Crc32Field : Type 0 where
  pub start_offset : ℕ
  pub polynomial : CrcPolynomial

-- crc32_field_pool, the next field in front. A field is used by no one else while it is out of the pool.
unfoldable pub acquire_crc32_field : CrcPolynomial → List Crc32Field → Crc32Field × List Crc32Field
acquire_crc32_field poly [] = (record { start_offset = 0; polynomial = poly }, [])
acquire_crc32_field poly (c ∷ pool) = (record c { polynomial = poly }, pool)

unfoldable pub release_crc32_field : Crc32Field → List Crc32Field → List Crc32Field
release_crc32_field c pool = pool ++ (c ∷ [])

unfoldable pub save_offset : ℕ → Crc32Field → Crc32Field
save_offset at f = record f { start_offset = at }

-- One bit, and n bits, by the polynomial.
unfoldable pub shift_bit : ℕ → ℕ → ℕ
shift_bit poly crc = if bit_and crc 1 == 0 then crc / 2 else bit_xor (crc / 2) poly

abbrev pub shift_bits : ℕ → ℕ → ℕ → ℕ
shift_bits poly zero crc = crc
shift_bits poly (suc j) crc = shift_bits poly j (shift_bit poly crc)

-- The loop that fills castagnoliTable, from i on, with n entries to go.
abbrev pub fill : ℕ → ℕ → List ℕ
fill zero i = []
fill (suc n) i = shift_bits 0x82f63b78 8 i ∷ fill n (suc i)

unfoldable pub castagnoli_table : List ℕ
castagnoli_table = fill 256 0

-- `(crc >> 8) ^ t`, where there is an entry t.
abbrev pub with_entry : ℕ → Option ℕ → Option ℕ
with_entry crc none = none
with_entry crc (some t) = some (bit_xor (crc / 256) t)

-- One byte; `none` is an access outside of the table.
unfoldable pub update : CrcPolynomial → ℕ → ℕ → Option ℕ
update castagnoli crc byte =
    with_entry crc (get_elem? castagnoli_table (bit_xor (bit_and crc 0xff) byte))
update ieee crc byte = some (shift_bits 0xedb88320 8 (bit_xor crc byte))

abbrev pub then_update : CrcPolynomial → Option ℕ → Option ℕ → Option ℕ
then_update poly (some crc) (some byte) = update poly crc byte
then_update poly _ _ = none

-- The loop over the bytes, n of them from buf[i] on.
abbrev pub crc_loop : CrcPolynomial → List ℕ → ℕ → ℕ → Option ℕ → Option ℕ
crc_loop poly buf zero i crc = crc
crc_loop poly buf (suc n) i crc =
    crc_loop poly buf n (suc i) (then_update poly crc (get_elem? buf i))

abbrev pub inverted : Option ℕ → Option ℕ
inverted none = none
inverted (some crc) = some (bit_xor crc 0xffffffff)

unfoldable pub crc : ℕ → List ℕ → Crc32Field → Option ℕ
crc cur_offset buf f = inverted (
    crc_loop f.polynomial buf (cur_offset - (f.start_offset + 4)) (f.start_offset + 4)
      (some 0xffffffff))

-- `buf[i] = b`
abbrev pub set_byte : ℕ → ℕ → List ℕ → Option (List ℕ)
set_byte i b [] = none
set_byte zero b (c ∷ buf) = some (b ∷ buf)
set_byte (suc i) b (c ∷ buf) = elim (set_byte i b buf) [ none ↦ none | some l ↦ some (c ∷ l) ]

abbrev pub then_set : ℕ → ℕ → Option (List ℕ) → Option (List ℕ)
then_set i b none = none
then_set i b (some buf) = set_byte i b buf

-- The four bytes of the number, the highest first, from buf[at] on.
abbrev pub set_four : ℕ → ℕ → List ℕ → Option (List ℕ)
set_four at v buf = then_set (at + 3) (v % 256) (
    then_set (at + 2) (v / 256 % 256)
      (then_set (at + 1) (v / 2 ^ 16 % 256) (set_byte at (v / 2 ^ 24 % 256) buf)))

unfoldable pub run : ℕ → List ℕ → Crc32Field → Option (List ℕ)
run cur_offset buf f = elim (crc cur_offset buf f) [
  | none ↦ none
  | some v ↦ set_four f.start_offset v buf
]

abbrev pub join : Option ℕ → Option ℕ → Option ℕ
join (some v) (some b) = some (v * 256 + b)
join _ _ = none

abbrev pub get_four : ℕ → List ℕ → Option ℕ
get_four at buf =
    join (join (join (get_elem? buf at) (get_elem? buf (at + 1))) (get_elem? buf (at + 2)))
      (get_elem? buf (at + 3))

-- ErrNoError and ErrCRCMismatch
pub data Verdict : Type 0 where
  no_error crc_mismatch : Verdict

abbrev pub compared : Option ℕ → Option ℕ → Option Verdict
compared (some v) (some expected) = some (if v == expected then no_error else crc_mismatch)
compared _ _ = none

unfoldable pub check : ℕ → List ℕ → Crc32Field → Option Verdict
check cur_offset buf f = compared (crc cur_offset buf f) (get_four f.start_offset buf)
