-- ===== src/Wire/Packet/Values.antt =====
-- What is put into a packet of its own is the packet of the format, and decodes to itself.
use coev.Base.{ℕ, zero, suc, ◌+◌, ◌-◌, ◌*◌, ◌/◌, ◌^◌, ◌≤◌, ◌<◌, ◌≡◌, arith, length, All}
use coev.Base.{List, [], ◌∷◌, ◌++◌, some, Bool, false, length-append}
use coev.Base.Int.{negsuc, ℤ, unsigned, IsInt}
use coev.Wire.Outcome.{ok}
use coev.Wire.Format.{big_endian, groups, uvarint, zigzag, varint, length16, length32, FitsString}
use coev.Wire.Format.{string_bytes, nullable_bytes, bytes_bytes, concat_map}
use coev.Wire.Format.{array_bytes, int32_bytes, int64_bytes}
use coev.Wire.Encoder.{Put, put_int16, put_int32, put_int64}
use coev.Wire.Encoder.View.{Writes}
use coev.Wire.Encoder.Fixed.{Writes-put_int32, Writes-put_int64, Writes-put_int16}
use coev.Wire.Encoder.Varint.{put_uvarint, put_variant, varint_len}
use coev.Wire.Encoder.Varint.Counts.{varint_len_negative, Writes-put_uvarint, Writes-put_variant}
use coev.Wire.Encoder.Strings.{put_string, put_nullable_string, put_bytes}
use coev.Wire.Encoder.Strings.Bytes.{
  Writes-put_string, Writes-put_nullable_string, Writes-put_bytes,
}
use coev.Wire.Encoder.Arrays.{put_int32_array, put_int64_array, put_string_array}
use coev.Wire.Encoder.Arrays.Bytes.{Writes-put_int32_array, Writes-put_int64_array}
use coev.Wire.Encoder.Arrays.Bytes.{Writes-put_string_array}
use coev.Wire.Decoder.{Get, get_int16, get_int32, get_int64}
use coev.Wire.Decoder.View.{Reads}
use coev.Wire.Decoder.Fixed.{Reads-get_int16, Reads-get_int32, Reads-get_int64}
use coev.Wire.Decoder.Varint.{get_uvariant, get_variant}
use coev.Wire.Decoder.Varint.Values.{Reads-get_uvariant, Reads-get_variant}
use coev.Wire.Decoder.Strings.{get_string, get_nullable_string, get_bytes}
use coev.Wire.Decoder.Strings.ReadBack.{Reads-get_string, Reads-get_nullable_string}
use coev.Wire.Decoder.Strings.ReadBack.{Reads-get_bytes}
use coev.Wire.Decoder.Arrays.{get_int32_array, get_int64_array, get_string_array}
use coev.Wire.Decoder.Arrays.Lengths.{FitsArray}
use coev.Wire.Decoder.Arrays.ReadBack.{Reads-get_int32_array, Reads-get_int64_array}
use coev.Wire.Decoder.Arrays.ReadBack.{Reads-get_string_array}
use coev.Wire.Packet.{max_request_size, encode, decode_version}
use coev.Wire.Packet.RoundTrip.{scope, encode-Writes, decode_version-Reads}

module _ {A : Type 0} (flexible : Bool) (put : Put) (get : Get A) (a : A) where
  -- A put and a get that agree on bytes, of which there is one at least.
  travels :
      (bs out : List ℕ)
      → 0 < length bs
      → Writes (scope flexible) put bs
      → Reads (scope flexible) get bs a
      → length bs ≤ max_request_size
      → (encode flexible put out ≡ ok tt (out ++ bs))
        × (decode_version flexible bs get ≡ ok (some a) tt)
  travels [] out h w r small = absurd (omega arith)
  travels (b ∷ bs) out h w r small = (
    encode-Writes flexible put (b ∷ bs) out w small,
    decode_version-Reads flexible get b bs a (omega arith) r,
  )

groups_some : (k v : ℕ) → 0 < length (groups k v)
unfolding groups
groups_some zero v = omega arith
groups_some (suc k) v = ground arith

groups_few : (k v : ℕ) → length (groups k v) ≤ k + 1
unfolding groups
groups_few zero v = omega arith
groups_few (suc k) v = ground (arith, groups_few k (v / 128))

length16_some : (version n : ℕ) → 0 < length (length16 version n)
length16_some zero n = omega arith
length16_some (suc w) n = groups_some 9 (n + 1)

length32_some : (version n : ℕ) → 0 < length (length32 version n)
length32_some zero n = omega arith
length32_some (suc w) n = groups_some 9 (n + 1)

append_some : (xs ys : List ℕ) → 0 < length xs → 0 < length (xs ++ ys)
append_some xs ys h = omega (arith, length-append xs ys)

string_some : (version : ℕ) (s : List ℕ) → 0 < length (string_bytes version s)
string_some version s =
    append_some (length16 version (length s)) s (length16_some version (length s))

array_some :
    {A : Type 0} (version : ℕ) (f : A → List ℕ) (xs : List A)
    → 0 < length (array_bytes version f xs)
array_some version f xs =
    append_some (length32 version (length xs)) (concat_map f xs) (length32_some version (length xs))

-- Every int16_t is written in its 2 bytes, the highest first, and read as itself, in both versions.
int16_round_trip :
    (flexible : Bool) (z : ℤ) (out : List ℕ)
    → IsInt 16 z
    → (encode flexible (put_int16 z) out ≡ ok tt (out ++ big_endian 2 (unsigned 16 z)))
      × (decode_version flexible (big_endian 2 (unsigned 16 z)) get_int16 ≡ ok (some z) tt)
int16_round_trip flexible z out h =
    travels flexible (put_int16 z) get_int16 z (big_endian 2 (unsigned 16 z)) out (omega arith)
      (Writes-put_int16 (scope flexible) z) (Reads-get_int16 (scope flexible) z h) (omega arith)

-- Every int32_t is written in its 4 bytes, the highest first, and read as itself, in both versions.
int32_round_trip :
    (flexible : Bool) (z : ℤ) (out : List ℕ)
    → IsInt 32 z
    → (encode flexible (put_int32 z) out ≡ ok tt (out ++ int32_bytes z))
      × (decode_version flexible (int32_bytes z) get_int32 ≡ ok (some z) tt)
int32_round_trip flexible z out h =
    travels flexible (put_int32 z) get_int32 z (int32_bytes z) out (omega arith)
      (Writes-put_int32 (scope flexible) z) (Reads-get_int32 (scope flexible) z h) (omega arith)

-- Every int64_t is written in its 8 bytes, the highest first, and read as itself, in both versions.
int64_round_trip :
    (flexible : Bool) (z : ℤ) (out : List ℕ)
    → IsInt 64 z
    → (encode flexible (put_int64 z) out ≡ ok tt (out ++ int64_bytes z))
      × (decode_version flexible (int64_bytes z) get_int64 ≡ ok (some z) tt)
int64_round_trip flexible z out h =
    travels flexible (put_int64 z) get_int64 z (int64_bytes z) out (omega arith)
      (Writes-put_int64 (scope flexible) z) (Reads-get_int64 (scope flexible) z h) (omega arith)

-- Every int16_t, int32_t and int64_t is written in its 2, 4 or 8 bytes, the highest first, behind what
-- is in the buffer, and read from these bytes as itself, in both versions.
pub integer_round_trips :
    (flexible : Bool) (x y z : ℤ) (out : List ℕ)
    → IsInt 16 x
    → IsInt 32 y
    → IsInt 64 z
    → ((encode flexible (put_int16 x) out ≡ ok tt (out ++ big_endian 2 (unsigned 16 x)))
        × (decode_version flexible (big_endian 2 (unsigned 16 x)) get_int16 ≡ ok (some x) tt))
      × ((encode flexible (put_int32 y) out ≡ ok tt (out ++ int32_bytes y))
          × (decode_version flexible (int32_bytes y) get_int32 ≡ ok (some y) tt))
      × ((encode flexible (put_int64 z) out ≡ ok tt (out ++ int64_bytes z))
          × (decode_version flexible (int64_bytes z) get_int64 ≡ ok (some z) tt))
integer_round_trips flexible x y z out hx hy hz = (
  int16_round_trip flexible x out hx,
  int32_round_trip flexible y out hy,
  int64_round_trip flexible z out hz,
)

-- An unsigned varint of a number below 2 ^ 63 is written in the groups of the format and read as
-- that number, in both versions.
uvarint_round_trip :
    (flexible : Bool) (n : ℕ) (out : List ℕ)
    → n < 2 ^ 63
    → (encode flexible (put_uvarint n) out ≡ ok tt (out ++ uvarint n))
      × (decode_version flexible (uvarint n) get_uvariant ≡ ok (some n) tt)
uvarint_round_trip flexible n out h =
    travels flexible (put_uvarint n) get_uvariant n (uvarint n) out (groups_some 9 n)
      (Writes-put_uvarint (scope flexible) n (omega arith))
      (Reads-get_uvariant (scope flexible) n h) (omega (arith, groups_few 9 n))

-- A signed varint whose zigzag form is below 2 ^ 63, and of which the count of PREP is that of the
-- bytes in the format, is written in these bytes and read as the number that was written.
variant_round_trip :
    (flexible : Bool) (z : ℤ) (out : List ℕ)
    → IsInt 64 z
    → zigzag z < 2 ^ 63
    → varint_len z ≡ length (varint z)
    → (encode flexible (put_variant z) out ≡ ok tt (out ++ varint z))
      × (decode_version flexible (varint z) get_variant ≡ ok (some z) tt)
variant_round_trip flexible z out fits h same =
    travels flexible (put_variant z) get_variant z (varint z) out (groups_some 9 (zigzag z))
      (Writes-put_variant (scope flexible) z fits same) (Reads-get_variant (scope flexible) z h)
      (omega (arith, groups_few 9 (zigzag z)))

-- A negative number from -2 ^ 62 on is written as a signed varint in the bytes of the format, which
-- PREP counts right, and read as itself, in both versions.
negative_round_trip :
    (flexible : Bool) (n : ℕ) (out : List ℕ)
    → n < 2 ^ 62
    → (encode flexible (put_variant (negsuc n)) out ≡ ok tt (out ++ varint (negsuc n)))
      × (decode_version flexible (varint (negsuc n)) get_variant ≡ ok (some (negsuc n)) tt)
negative_round_trip flexible n out h =
    variant_round_trip flexible (negsuc n) out (omega arith, omega arith) (omega arith)
      (varint_len_negative n (omega arith))

-- A string whose length fits the version, in a packet of at most 100 MiB, is written behind its
-- length and read as itself.
string_round_trip :
    (flexible : Bool) (s out : List ℕ)
    → FitsString (scope flexible) (length s)
    → length (string_bytes (scope flexible) s) ≤ max_request_size
    → (encode flexible (put_string s) out ≡ ok tt (out ++ string_bytes (scope flexible) s))
      × (decode_version flexible (string_bytes (scope flexible) s) get_string ≡ ok (some s) tt)
string_round_trip flexible s out fits small =
    travels flexible (put_string s) get_string s (string_bytes (scope flexible) s) out
      (string_some (scope flexible) s) (Writes-put_string (scope flexible) s fits)
      (Reads-get_string (scope flexible) s fits) small

nullable_some : (version : ℕ) (s : List ℕ) → 0 < length (nullable_bytes version s)
nullable_some zero [] = omega arith
nullable_some (suc w) [] = groups_some 9 0
nullable_some version (b ∷ s) = string_some version (b ∷ s)

-- A nullable string whose length fits the version, in a packet of at most 100 MiB, comes back as
-- itself; the empty string travels as a null one.
nullable_string_round_trip :
    (flexible : Bool) (s out : List ℕ)
    → FitsString (scope flexible) (length s)
    → length (nullable_bytes (scope flexible) s) ≤ max_request_size
    → (encode flexible (put_nullable_string s) out
        ≡ ok tt (out ++ nullable_bytes (scope flexible) s))
      × (decode_version flexible (nullable_bytes (scope flexible) s) get_nullable_string
          ≡ ok (some s) tt)
nullable_string_round_trip flexible s out fits small =
    travels flexible (put_nullable_string s) get_nullable_string s
      (nullable_bytes (scope flexible) s) out (nullable_some (scope flexible) s)
      (Writes-put_nullable_string (scope flexible) s fits)
      (Reads-get_nullable_string (scope flexible) s fits) small

bytes_some : (version : ℕ) (s : List ℕ) → 0 < length (bytes_bytes version s)
bytes_some zero [] = omega arith
bytes_some zero (b ∷ s) = omega arith
bytes_some (suc w) s = append_some (uvarint (length s + 1)) s (groups_some 9 (length s + 1))

-- Bytes behind a length of 32 bits, or behind a varint, in a packet of at most 100 MiB, come back;
-- no bytes at all travel as the length -1 in a fixed version.
pub bytes_round_trip :
    (flexible : Bool) (s out : List ℕ)
    → length s < 2 ^ 31 - 1
    → length (bytes_bytes (scope flexible) s) ≤ max_request_size
    → (encode flexible (put_bytes s) out ≡ ok tt (out ++ bytes_bytes (scope flexible) s))
      × (decode_version flexible (bytes_bytes (scope flexible) s) get_bytes ≡ ok (some s) tt)
bytes_round_trip flexible s out fits small =
    travels flexible (put_bytes s) get_bytes s (bytes_bytes (scope flexible) s) out
      (bytes_some (scope flexible) s) (Writes-put_bytes (scope flexible) s fits)
      (Reads-get_bytes (scope flexible) s fits) small

-- An array of int32_t whose length fits the version (in a fixed one, has lower bytes below 128), in
-- a packet of at most 100 MiB, comes back with all its items.
int32_array_round_trip :
    (flexible : Bool) (xs : List ℤ) (out : List ℕ)
    → FitsArray (scope flexible) (length xs)
    → length xs < 2 ^ 31 - 1
    → All (IsInt 32) xs
    → length (array_bytes (scope flexible) int32_bytes xs) ≤ max_request_size
    → (encode flexible (put_int32_array xs) out
        ≡ ok tt (out ++ array_bytes (scope flexible) int32_bytes xs))
      × (decode_version flexible (array_bytes (scope flexible) int32_bytes xs) get_int32_array
          ≡ ok (some xs) tt)
int32_array_round_trip flexible xs out fits short h small =
    travels flexible (put_int32_array xs) get_int32_array xs
      (array_bytes (scope flexible) int32_bytes xs) out (array_some (scope flexible) int32_bytes xs)
      (Writes-put_int32_array (scope flexible) xs short)
      (Reads-get_int32_array (scope flexible) xs fits h) small

-- An array of int64_t whose length fits the version (in a fixed one, has lower bytes below 128) and
-- whose items take fewer than 2 ^ 31 bytes, in a packet of at most 100 MiB, comes back with all its
-- items.
int64_array_round_trip :
    (flexible : Bool) (xs : List ℤ) (out : List ℕ)
    → FitsArray (scope flexible) (length xs)
    → 8 * length xs < 2 ^ 31
    → All (IsInt 64) xs
    → length (array_bytes (scope flexible) int64_bytes xs) ≤ max_request_size
    → (encode flexible (put_int64_array xs) out
        ≡ ok tt (out ++ array_bytes (scope flexible) int64_bytes xs))
      × (decode_version flexible (array_bytes (scope flexible) int64_bytes xs) get_int64_array
          ≡ ok (some xs) tt)
int64_array_round_trip flexible xs out fits few h small =
    travels flexible (put_int64_array xs) get_int64_array xs
      (array_bytes (scope flexible) int64_bytes xs) out (array_some (scope flexible) int64_bytes xs)
      (Writes-put_int64_array (scope flexible) xs (omega arith))
      (Reads-get_int64_array (scope flexible) xs fits few h) small

-- In a fixed version, an array of strings, each of at most 32767 bytes, whose length has lower bytes
-- below 128, in a packet of at most 100 MiB, comes back.
pub string_array_round_trip :
    (xs : List (List ℕ)) (out : List ℕ)
    → FitsArray 0 (length xs)
    → length xs < 2 ^ 31 - 1
    → All (λ s. FitsString 0 (length s)) xs
    → length (array_bytes 0 (string_bytes 0) xs) ≤ max_request_size
    → (encode false (put_string_array xs) out ≡ ok tt (out ++ array_bytes 0 (string_bytes 0) xs))
      × (decode_version false (array_bytes 0 (string_bytes 0) xs) get_string_array
          ≡ ok (some xs) tt)
string_array_round_trip xs out fits short h small =
    travels false (put_string_array xs) get_string_array xs (array_bytes 0 (string_bytes 0) xs) out
      (array_some 0 (string_bytes 0) xs) (Writes-put_string_array xs short h)
      (Reads-get_string_array 0 xs fits h) small

-- In both versions, an unsigned varint of a number below 2 ^ 63 is written in the groups of the format
-- and read as that number; so is a signed one, in those of its zigzag form, if this is below 2 ^ 63
-- and the count of PREP is that of the groups; and so is every negative number from -2 ^ 62 on, which
-- PREP counts right.
pub varint_round_trips :
    (flexible : Bool) (n : ℕ) (z : ℤ) (k : ℕ) (out : List ℕ)
    → n < 2 ^ 63
    → IsInt 64 z
    → zigzag z < 2 ^ 63
    → varint_len z ≡ length (varint z)
    → k < 2 ^ 62
    → ((encode flexible (put_uvarint n) out ≡ ok tt (out ++ uvarint n))
        × (decode_version flexible (uvarint n) get_uvariant ≡ ok (some n) tt))
      × ((encode flexible (put_variant z) out ≡ ok tt (out ++ varint z))
          × (decode_version flexible (varint z) get_variant ≡ ok (some z) tt))
      × ((encode flexible (put_variant (negsuc k)) out ≡ ok tt (out ++ varint (negsuc k)))
          × (decode_version flexible (varint (negsuc k)) get_variant ≡ ok (some (negsuc k)) tt))
varint_round_trips flexible n z k out hn hz zz same hk = (
  uvarint_round_trip flexible n out hn,
  variant_round_trip flexible z out hz zz same,
  negative_round_trip flexible k out hk,
)

-- A string whose length fits the version, in a packet of at most 100 MiB, is written behind its
-- length and read as itself; as a nullable string, an empty one is written as a null one, and read as
-- an empty one.
pub string_round_trips :
    (flexible : Bool) (s out : List ℕ)
    → FitsString (scope flexible) (length s)
    → length (string_bytes (scope flexible) s) ≤ max_request_size
    → length (nullable_bytes (scope flexible) s) ≤ max_request_size
    → ((encode flexible (put_string s) out ≡ ok tt (out ++ string_bytes (scope flexible) s))
        × (decode_version flexible (string_bytes (scope flexible) s) get_string ≡ ok (some s) tt))
      × ((encode flexible (put_nullable_string s) out
            ≡ ok tt (out ++ nullable_bytes (scope flexible) s))
          × (decode_version flexible (nullable_bytes (scope flexible) s) get_nullable_string
              ≡ ok (some s) tt))
string_round_trips flexible s out fits small small' = (
  string_round_trip flexible s out fits small,
  nullable_string_round_trip flexible s out fits small',
)

-- Arrays of int32_t, of fewer than 2 ^ 31 - 1 items, and of int64_t, whose items take fewer than
-- 2 ^ 31 bytes, come back with all their items, if their lengths fit the version (in a fixed one, have
-- lower bytes below 128) and their packets are of at most 100 MiB.
pub integer_array_round_trips :
    (flexible : Bool) (xs ys : List ℤ) (out : List ℕ)
    → FitsArray (scope flexible) (length xs)
    → length xs < 2 ^ 31 - 1
    → All (IsInt 32) xs
    → length (array_bytes (scope flexible) int32_bytes xs) ≤ max_request_size
    → FitsArray (scope flexible) (length ys)
    → 8 * length ys < 2 ^ 31
    → All (IsInt 64) ys
    → length (array_bytes (scope flexible) int64_bytes ys) ≤ max_request_size
    → ((encode flexible (put_int32_array xs) out
          ≡ ok tt (out ++ array_bytes (scope flexible) int32_bytes xs))
        × (decode_version flexible (array_bytes (scope flexible) int32_bytes xs) get_int32_array
            ≡ ok (some xs) tt))
      × ((encode flexible (put_int64_array ys) out
            ≡ ok tt (out ++ array_bytes (scope flexible) int64_bytes ys))
          × (decode_version flexible (array_bytes (scope flexible) int64_bytes ys) get_int64_array
              ≡ ok (some ys) tt))
integer_array_round_trips flexible xs ys out fx nx hx sx fy ny hy sy = (
  int32_array_round_trip flexible xs out fx nx hx sx,
  int64_array_round_trip flexible ys out fy ny hy sy,
)
