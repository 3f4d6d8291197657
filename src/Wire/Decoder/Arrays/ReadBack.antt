-- ===== src/Wire/Decoder/Arrays/ReadBack.antt =====
-- The reads of arrays return the items whose bytes come next.
use coev.Base.{
  ltb, lt→ltb, ℕ, zero, suc, ◌+◌, ◌-◌, ◌*◌, ◌/◌, ◌%◌, ◌^◌, ◌≤◌, ◌<◌, ◌≡◌, refl, ap, ◌∙◌, arith,
}
use coev.Base.{List, [], ◌∷◌, ◌++◌, append_assoc, length, All, if◌then◌else◌, ◌==◌, true, false}
use coev.Base.Int.{ℤ, pos, negsuc, signed, unsigned, ltb_ℤ, pos_part, IsInt}
use coev.Wire.Outcome.{ok, pure, and_then, ◌>>=◌}
use coev.Wire.Format.{
  FitsString, uvarint, length32, string_bytes, concat_map, array_bytes, int32_bytes, int64_bytes,
}
use coev.Wire.Decoder.{Decoder, Get, need, advance}
use coev.Wire.Decoder.View.{Sees, Reads, Reads-bind, Reads-pure}
use coev.Wire.Decoder.Fixed.{Reads-load32, Reads-load64, unsigned32-lt, unsigned64-lt}
use coev.Wire.Decoder.Fixed.{signed-unsigned32, signed-unsigned64, guarded}
use coev.Wire.Decoder.Varint.{get_uvariant}
use coev.Wire.Decoder.Varint.Values.{Reads-get_uvariant}
use coev.Wire.Decoder.Strings.{int_pred, get_string}
use coev.Wire.Decoder.Strings.ReadBack.{
  by_version_fixed, Reads-fixed, Reads-flexible, int_pred_suc, Reads-get_string,
}
use coev.Wire.Decoder.Arrays.{
  get_array_length, times, need_items, next_int32, next_int64, resize_times,
}
use coev.Wire.Decoder.Arrays.{fixed_int32_array, flexible_int32_array, get_int32_array}
use coev.Wire.Decoder.Arrays.{get_int64_array, get_string_array}
use coev.Wire.Decoder.Arrays.Lengths.{FitsArray, Reads-get_array_length, array_length_negative}

-- Reading as many items as there are.
pub Reads-times :
    {A : Type 0} (version : ℕ) (get : Get A) (f : A → List ℕ) (P : A → Type 0)
    → ((x : A) → P x → Reads version get (f x) x)
    → (xs : List A) → All P xs
    → Reads version (times (length xs) get) (concat_map f xs) xs
unfolding times
Reads-times version get f P r [] h = Reads-pure version []
Reads-times {A} version get f P r (x ∷ xs) h =
    Reads-bind version get (λ y. times (length xs) get >>= λ ys. pure (y ∷ ys)) (f x)
      (concat_map f xs) x (x ∷ xs) (r x h.0)
      (λ d rest e v.
        ap (λ o. and_then o (λ ys. pure (x ∷ ys)))
          (Reads-times version get f P r xs h.1 d rest e v))

Reads-next_int32 : (version : ℕ) (z : ℤ) → IsInt 32 z → Reads version next_int32 (int32_bytes z) z
Reads-next_int32 version z h d rest f v =
    Reads-load32 version (unsigned 32 z) (signed 32) (unsigned32-lt z) d rest f v
    ∙ ap (λ k. ok k (advance 4 d)) (signed-unsigned32 z h)

Reads-next_int64 : (version : ℕ) (z : ℤ) → IsInt 64 z → Reads version next_int64 (int64_bytes z) z
Reads-next_int64 version z h d rest f v =
    Reads-load64 version (unsigned 64 z) (signed 64) (unsigned64-lt z) d rest f v
    ∙ ap (λ k. ok k (advance 8 d)) (signed-unsigned64 z h)

length-int32s : (xs : List ℤ) → length (concat_map int32_bytes xs) ≡ 4 * length xs
length-int32s [] = refl
length-int32s (x ∷ xs) = omega (arith, length-int32s xs)

length-int64s : (xs : List ℤ) → length (concat_map int64_bytes xs) ≡ 8 * length xs
length-int64s [] = refl
length-int64s (x ∷ xs) = omega (arith, length-int64s xs)

int32s :
    (version : ℕ) (xs : List ℤ)
    → All (IsInt 32) xs
    → Reads version (times (length xs) next_int32) (concat_map int32_bytes xs) xs
int32s version = Reads-times version next_int32 int32_bytes (IsInt 32) (Reads-next_int32 version)

int64s :
    (version : ℕ) (xs : List ℤ)
    → All (IsInt 64) xs
    → Reads version (times (length xs) next_int64) (concat_map int64_bytes xs) xs
int64s version = Reads-times version next_int64 int64_bytes (IsInt 64) (Reads-next_int64 version)

-- The bodies of the array reads, once the length n is known.
int32_items : ℤ → Get (List ℤ)
int32_items n =
    if ltb_ℤ (pos 0) n then need (pos (4 * pos_part n)) (times (pos_part n) next_int32) else pure []

int64_items : ℤ → Get (List ℤ)
int64_items n =
    if ltb_ℤ (pos 0) n then need_items 8 (pos_part n) (times (pos_part n) next_int64) else pure []

string_items : ℤ → Get (List (List ℕ))
string_items n = if ltb_ℤ (pos 0) n then times (pos_part n) get_string else pure []

Reads-int32_items :
    (version : ℕ) (xs : List ℤ)
    → All (IsInt 32) xs
    → Reads version (int32_items (pos (length xs))) (concat_map int32_bytes xs) xs
unfolding int32_items
Reads-int32_items version [] h = Reads-pure version []
Reads-int32_items version (x ∷ xs) h =
    let some : ltb_ℤ (pos 0) (pos (length (x ∷ xs))) ≡ true = ground arith in
    rw some (
      guarded version (4 * length (x ∷ xs)) (times (length (x ∷ xs)) next_int32)
        (concat_map int32_bytes (x ∷ xs)) (x ∷ xs) (length-int32s (x ∷ xs))
        (int32s version (x ∷ xs) h))

Reads-int64_items :
    (version : ℕ) (xs : List ℤ)
    → 8 * length xs < 2 ^ 31
    → All (IsInt 64) xs
    → Reads version (int64_items (pos (length xs))) (concat_map int64_bytes xs) xs
unfolding int64_items
Reads-int64_items version [] few h = Reads-pure version []
Reads-int64_items version (x ∷ xs) few h =
    let some : ltb_ℤ (pos 0) (pos (length (x ∷ xs))) ≡ true = ground arith in
    let product : ltb (8 * length (x ∷ xs)) (2 ^ 31) ≡ true =
      lt→ltb (8 * length (x ∷ xs)) (2 ^ 31) few in
    rw (some, product)
      (guarded version (8 * length (x ∷ xs)) (times (length (x ∷ xs)) next_int64)
        (concat_map int64_bytes (x ∷ xs)) (x ∷ xs) (length-int64s (x ∷ xs))
        (int64s version (x ∷ xs) h))

Reads-string_items :
    (version : ℕ) (xs : List (List ℕ))
    → All (λ s. FitsString version (length s)) xs
    → Reads version (string_items (pos (length xs))) (concat_map (string_bytes version) xs) xs
unfolding string_items
Reads-string_items version [] h = Reads-pure version []
Reads-string_items version (x ∷ xs) h =
    let some : ltb_ℤ (pos 0) (pos (length (x ∷ xs))) ≡ true = ground arith in
    rw some (
      Reads-times version get_string (string_bytes version) (λ s. FitsString version (length s))
        (λ s fits. Reads-get_string version s fits) (x ∷ xs) h)

Reads-fixed_int32_array :
    (xs : List ℤ)
    → FitsArray 0 (length xs)
    → All (IsInt 32) xs
    → Reads 0 fixed_int32_array (array_bytes 0 int32_bytes xs) xs
unfolding int32_items
Reads-fixed_int32_array xs fits h =
    Reads-bind 0 get_array_length int32_items (length32 0 (length xs)) (concat_map int32_bytes xs)
      (pos (length xs)) xs (Reads-get_array_length 0 (length xs) fits) (Reads-int32_items 0 xs h)

counted_items : ℕ → Get (List ℤ)
counted_items n = if n == 0 then pure [] else resize_times (int_pred n) next_int32

Reads-counted :
    (w : ℕ) (xs : List ℤ)
    → length xs < 2 ^ 31 - 1
    → All (IsInt 32) xs
    → Reads (suc w) (counted_items (length xs + 1)) (concat_map int32_bytes xs) xs
unfolding counted_items
Reads-counted w xs small h =
    let some : (length xs + 1 == 0) ≡ false = ground arith in
    let positive : ltb_ℤ (pos (length xs)) (pos 0) ≡ false = ground arith in
    rw (some, int_pred_suc (length xs) (omega arith)) (rw positive (int32s (suc w) xs h))

pub Reads-get_int32_array :
    (version : ℕ) (xs : List ℤ)
    → FitsArray version (length xs)
    → All (IsInt 32) xs
    → Reads version get_int32_array (array_bytes version int32_bytes xs) xs
unfolding get_int32_array counted_items
Reads-get_int32_array zero xs fits h =
    Reads-fixed fixed_int32_array flexible_int32_array (array_bytes 0 int32_bytes xs) xs
      (Reads-fixed_int32_array xs fits h)
Reads-get_int32_array (suc w) xs fits h =
    Reads-flexible w fixed_int32_array flexible_int32_array (array_bytes (suc w) int32_bytes xs) xs
      (Reads-bind (suc w) get_uvariant counted_items (uvarint (length xs + 1))
        (concat_map int32_bytes xs) (length xs + 1) xs
        (Reads-get_uvariant (suc w) (length xs + 1) (omega arith)) (Reads-counted w xs fits h))

pub Reads-get_int64_array :
    (version : ℕ) (xs : List ℤ)
    → FitsArray version (length xs)
    → 8 * length xs < 2 ^ 31
    → All (IsInt 64) xs
    → Reads version get_int64_array (array_bytes version int64_bytes xs) xs
unfolding get_int64_array int64_items
Reads-get_int64_array version xs fits few h =
    Reads-bind version get_array_length int64_items (length32 version (length xs))
      (concat_map int64_bytes xs) (pos (length xs)) xs
      (Reads-get_array_length version (length xs) fits) (Reads-int64_items version xs few h)

pub Reads-get_string_array :
    (version : ℕ) (xs : List (List ℕ))
    → FitsArray version (length xs)
    → All (λ s. FitsString version (length s)) xs
    → Reads version get_string_array (array_bytes version (string_bytes version) xs) xs
unfolding get_string_array string_items
Reads-get_string_array version xs fits h =
    Reads-bind version get_array_length string_items (length32 version (length xs))
      (concat_map (string_bytes version) xs) (pos (length xs)) xs
      (Reads-get_array_length version (length xs) fits) (Reads-string_items version xs h)

no_items : (n : ℕ) (d : Decoder) → int32_items (negsuc n) d ≡ ok [] d
unfolding int32_items
no_items n d = ground arith

-- In a fixed version, in a buffer of fewer than 2 ^ 31 bytes, an array of int32_t whose number of items has a
-- last byte of 128 or more, is read as an empty one, and its items are left unread.
pub int32_array_lost :
    (xs : List ℤ) (d : Decoder) (rest : List ℕ)
    → length xs < 2 ^ 31
    → 128 ≤ length xs % 256
    → d.flexible ≡ 0
    → Sees d (array_bytes 0 int32_bytes xs ++ rest)
    → get_int32_array d ≡ ok [] (advance 4 d)
unfolding get_int32_array int32_items
int32_array_lost xs d rest small high f v =
    by_version_fixed fixed_int32_array flexible_int32_array d f
    ∙ ap (λ r. and_then r int32_items)
        (array_length_negative d _ _ _ _ _ f
          (rw (append_assoc (length32 0 (length xs)) (concat_map int32_bytes xs) rest) at v)
          (omega arith) (omega arith))
    ∙ no_items (255 - length xs / 256 ^ 0 % 256) (advance 4 d)
