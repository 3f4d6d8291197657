-- ===== src/Wire/Decoder/Arrays.antt =====
-- The arrays of packet_decoder.cpp.
pub mod Lengths
pub mod ReadBack
use coev.Base.{ℕ, zero, suc, ◌+◌, ◌-◌, ◌*◌, ◌%◌, ◌^◌, bit_or, ltb, ◌==◌, if◌then◌else◌}
use coev.Base.{List, [], ◌∷◌, Bool, true, false}
use coev.Base.Int.{ℤ, pos, negsuc, ltb_ℤ, signed, pos_part, int_of_size}
use coev.Wire.Outcome.{pure, fail, crash, ◌>>=◌, ◌>>◌, invalid_array_length}
use coev.Wire.Decoder.{Decoder, Get, need, skip, byte_at, load32, load64}
use coev.Wire.Decoder.Varint.{get_uvariant}
use coev.Wire.Decoder.Strings.{by_version, int_pred, get_string}

-- A char that is promoted to int keeps its sign: the 32-bit pattern of that int.
abbrev pub promote : ℕ → ℕ
promote b = if ltb b 128 then b else b + (2 ^ 32 - 2 ^ 8)

-- `(m_raw[m_offset] << 24) | … | m_raw[m_offset + 3]`, on the chars of the buffer as they are.
unfoldable pub load_chars : Get ℕ
load_chars = do
  b0 ← byte_at 0
  b1 ← byte_at 1
  b2 ← byte_at 2
  b3 ← byte_at 3
  let c0 = promote b0 * 2 ^ 24 % 2 ^ 32
  let c1 = promote b1 * 2 ^ 16 % 2 ^ 32
  let c2 = promote b2 * 2 ^ 8 % 2 ^ 32
  pure (bit_or (bit_or (bit_or c0 c1) c2) (promote b3))

abbrev pub max_response_size : ℤ
max_response_size = pos (100 * 1024 * 1024)

abbrev pub fixed_array_length : Get ℤ
fixed_array_length = need (pos 4) (do
  v ← load_chars
  skip 4
  if ltb_ℤ max_response_size (signed 32 v) then fail invalid_array_length else pure (signed 32 v))

abbrev pub flexible_array_length : Get ℤ
flexible_array_length = do n ← get_uvariant; pure (if n == 0 then pos 0 else int_pred n)

unfoldable pub get_array_length : Get ℤ
get_array_length = by_version fixed_array_length flexible_array_length

-- `for (i = 0; i < n; i++) result[i] = …`
unfoldable pub times : {A : Type 0} → ℕ → Get A → Get (List A)
times zero get = pure []
times (suc n) get = do x ← get; xs ← times n get; pure (x ∷ xs)

abbrev pub next_int32 : Get ℤ
next_int32 = do v ← load32; skip 4; pure (signed 32 v)

abbrev pub next_int64 : Get ℤ
next_int64 = do v ← load64; skip 8; pure (signed 64 v)

-- `result.resize(n)` with a negative n throws.
abbrev pub resize_times : {A : Type 0} → ℤ → Get A → Get (List A)
resize_times n get = if ltb_ℤ n (pos 0) then crash else times (pos_part n) get

abbrev pub fixed_int32_array : Get (List ℤ)
fixed_int32_array = do
  n ← get_array_length
  if ltb_ℤ (pos 0) n then need (pos (4 * pos_part n)) (times (pos_part n) next_int32) else pure []

-- The items are read with no check that the buffer has them.
abbrev pub flexible_int32_array : Get (List ℤ)
flexible_int32_array = do
  n ← get_uvariant
  if n == 0 then pure [] else resize_times (int_pred n) next_int32

unfoldable pub get_int32_array : Get (List ℤ)
get_int32_array = by_version fixed_int32_array flexible_int32_array

-- `remaining() < w * n` on ints: a product that overflows has no meaning in C++.
abbrev pub need_items : {A : Type 0} → ℕ → ℕ → Get A → Get A
need_items w n k = if ltb (w * n) (2 ^ 31) then need (pos (w * n)) k else crash

unfoldable pub get_int64_array : Get (List ℤ)
get_int64_array = do
  n ← get_array_length
  if ltb_ℤ (pos 0) n then need_items 8 (pos_part n) (times (pos_part n) next_int64) else pure []

unfoldable pub get_string_array : Get (List (List ℕ))
get_string_array = do
  n ← get_array_length
  if ltb_ℤ (pos 0) n then times (pos_part n) get_string else pure []
