-- ===== src/Wire/Format.antt =====
-- The bytes that stand for a value, written down apart from both the encoder and the decoder: the
-- Kafka protocol's big-endian integers, base-128 groups and length prefixes.
pub mod Groups
use coev.Base.{ℕ, zero, suc, ◌+◌, ◌*◌, ◌/◌, ◌%◌, ◌^◌, List, [], ◌∷◌, ◌++◌, Bool, true, false}
use coev.Base.{ltb, ◌==◌, if◌then◌else◌, length, ◌<◌, ◌-◌}
use coev.Base.Int.{ℤ, pos, negsuc, unsigned}

abbrev pub IsByte : ℕ → Type 0
IsByte b = b < 256

-- The n lowest bytes of v, the highest first.
abbrev pub big_endian : ℕ → ℕ → List ℕ
big_endian zero v = []
big_endian (suc n) v = (v / 256 ^ n % 256) ∷ big_endian n v

-- Seven bits a byte, the lowest group first; the top bit says that more follow.
unfoldable pub groups : ℕ → ℕ → List ℕ
groups zero v = v ∷ []
groups (suc k) v =
    let rest = groups k (v / 128) in if ltb v 128 then v ∷ [] else (v % 128 + 128) ∷ rest

-- A 64-bit number takes at most ten groups.
abbrev pub uvarint : ℕ → List ℕ
uvarint v = groups 9 v

-- Zigzag: 0, -1, 1, -2, ... stand for 0, 1, 2, 3, ...
abbrev pub zigzag : ℤ → ℕ
zigzag (pos n) = 2 * n
zigzag (negsuc n) = 2 * n + 1

abbrev pub varint : ℤ → List ℕ
varint z = uvarint (zigzag z)

-- A length in front of a string or an array. Version 0 of the encoding has lengths of fixed size,
-- every other is flexible.
abbrev pub length16 : ℕ → ℕ → List ℕ
length16 zero n = big_endian 2 n
length16 (suc _) n = uvarint (n + 1)

abbrev pub length32 : ℕ → ℕ → List ℕ
length32 zero n = big_endian 4 n
length32 (suc _) n = uvarint (n + 1)

-- The lengths that a string may have: an int16_t, or an int that is one less than a varint.
abbrev pub FitsString : ℕ → ℕ → Type 0
FitsString zero n = n < 2 ^ 15
FitsString (suc _) n = n < 2 ^ 31 - 1

-- A null length.
abbrev pub null16 : ℕ → List ℕ
null16 zero = 0xff ∷ 0xff ∷ []
null16 (suc _) = uvarint 0

abbrev pub null32 : ℕ → List ℕ
null32 zero = 0xff ∷ 0xff ∷ 0xff ∷ 0xff ∷ []
null32 (suc _) = uvarint 0

abbrev pub string_bytes : ℕ → List ℕ → List ℕ
string_bytes version s = length16 version (length s) ++ s

-- An empty string is written as a null one.
abbrev pub nullable_bytes : ℕ → List ℕ → List ℕ
nullable_bytes version [] = null16 version
nullable_bytes version (b ∷ s) = string_bytes version (b ∷ s)

-- Bytes behind a length: in a fixed version an empty array is written with the length -1.
abbrev pub bytes_bytes : ℕ → List ℕ → List ℕ
bytes_bytes zero [] = null32 0
bytes_bytes zero (b ∷ s) = length32 0 (length (b ∷ s)) ++ (b ∷ s)
bytes_bytes (suc w) s = uvarint (length s + 1) ++ s

-- The bytes of a record: a varint for the length, -1 for none.
abbrev pub variant_bytes : List ℕ → List ℕ
variant_bytes [] = varint (negsuc 0)
variant_bytes (b ∷ s) = varint (pos (length (b ∷ s))) ++ (b ∷ s)

abbrev pub concat_map : {A : Type 0} → (A → List ℕ) → List A → List ℕ
concat_map f [] = []
concat_map f (x ∷ xs) = f x ++ concat_map f xs

-- A length in front of the items.
abbrev pub array_bytes : {A : Type 0} → ℕ → (A → List ℕ) → List A → List ℕ
array_bytes version f xs = length32 version (length xs) ++ concat_map f xs

abbrev pub int32_bytes : ℤ → List ℕ
int32_bytes z = big_endian 4 (unsigned 32 z)

abbrev pub int64_bytes : ℤ → List ℕ
int64_bytes z = big_endian 8 (unsigned 64 z)
