-- ===== src/Wire/Decoder/Strings.antt =====
-- The byte strings of packet_decoder.cpp. A null string is the empty string_view.
pub mod ReadBack
use coev.Base.{ℕ, ◌+◌, ◌-◌, ◌%◌, ◌^◌, ◌==◌, if◌then◌else◌, List, [], length, take, drop}
use coev.Base.{Bool, true, false, Option, none, some, get_elem?, leb}
use coev.Base.Int.{ℤ, pos, negsuc, sub_ℕ, ltb_ℤ, eq_ℤ, int_of_size, int_of_long, signed, pos_part}
use coev.Wire.Outcome.{ok, err, fault, pure, fail, ◌>>=◌, ◌>>◌}
use coev.Wire.Outcome.{insufficient_data, valid_byte_slice_length, invalid_string_length}
use coev.Wire.Decoder.{Decoder, Get, is_fixed, remaining, to_end, advance, get_int16, get_int32}
use coev.Wire.Decoder.Varint.{get_uvariant, get_variant}

abbrev pub minus_one : ℤ
minus_one = negsuc 0

-- `if (__is_fixed()) … else if (__is_flexible()) …`
abbrev pub by_version : {A : Type 0} → Get A → Get A → Get A
by_version fixed flexible d = if is_fixed d then fixed d else flexible d

-- `string_view(m_raw.data() + m_offset, length); m_offset += length;`
abbrev pub slice : ℤ → Get (List ℕ)
slice n d = ok (take (pos_part n) (drop d.offset d.raw)) (advance (pos_part n) d)

unfoldable pub get_raw_bytes : ℤ → Get (List ℕ)
get_raw_bytes n d =
    if ltb_ℤ n (pos 0)
    then err valid_byte_slice_length d
    else if ltb_ℤ (remaining d) n
    then err insufficient_data (to_end d)
    else slice n d

unfoldable pub get_subset : ℤ → Get (List ℕ)
get_subset n = get_raw_bytes n

-- `static_cast<int>(n - 1)` of an uint64_t.
abbrev pub int_pred : ℕ → ℤ
int_pred n = int_of_size ((n + 2 ^ 64 - 1) % 2 ^ 64)

abbrev pub fixed_bytes : Get (List ℕ)
fixed_bytes = do tmp ← get_int32; if eq_ℤ tmp minus_one then pure [] else get_raw_bytes tmp

abbrev pub flexible_bytes : Get (List ℕ)
flexible_bytes = do n ← get_uvariant; get_raw_bytes (int_pred n)

unfoldable pub get_bytes : Get (List ℕ)
get_bytes = by_version fixed_bytes flexible_bytes

unfoldable pub get_variant_bytes : Get (List ℕ)
get_variant_bytes = do
  tmp ← get_variant
  if eq_ℤ tmp minus_one then pure [] else get_raw_bytes (int_of_long tmp)

-- The checks at the end of both branches of getStringLength.
unfoldable pub check_string_length : ℤ → Get ℤ
check_string_length n d =
    if ltb_ℤ n minus_one
    then err invalid_string_length d
    else if ltb_ℤ (remaining d) n
    then err insufficient_data (to_end d)
    else ok n d

abbrev pub fixed_string_length : Get ℤ
fixed_string_length = do length ← get_int16; check_string_length length

-- A length of 0 is that of a null string, every other counts one more than the string has.
abbrev pub flexible_string_length : Get ℤ
flexible_string_length = do
  length ← get_uvariant
  check_string_length (if length == 0 then minus_one else int_pred length)

unfoldable pub get_string_length : Get ℤ
get_string_length = by_version fixed_string_length flexible_string_length

-- The end of getString and getNullableString.
abbrev pub unless_null : ℤ → Get (List ℕ)
unless_null length = if eq_ℤ length minus_one then pure [] else slice length

unfoldable pub get_string : Get (List ℕ)
get_string = do length ← get_string_length; unless_null length

unfoldable pub get_nullable_string : Get (List ℕ)
get_nullable_string = do n ← get_string_length; unless_null n

-- peek and peekInt8, whose callers pass constants that are not negative.
unfoldable pub peek : ℕ → ℕ → Get (List ℕ)
peek offset length d =
    if ltb_ℤ (remaining d) (pos (offset + length))
    then err insufficient_data d
    else ok (take length (drop (d.offset + offset) d.raw)) d

unfoldable pub peek_int8 : ℕ → Get ℤ
peek_int8 offset d =
    if leb (length d.raw) (d.offset + offset)
    then err insufficient_data d
    else elim (get_elem? d.raw (d.offset + offset)) [ none ↦ fault | some b ↦ ok (signed 8 b) d ]
