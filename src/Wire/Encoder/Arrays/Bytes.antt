-- ===== src/Wire/Encoder/Arrays/Bytes.antt =====
-- What the puts of arrays add to a packet.
use coev.Base.{ℕ, zero, suc, ◌+◌, ◌-◌, ◌*◌, ◌^◌, ◌<◌, ◌≡◌, refl, sym, ap, ◌∙◌, arith}
use coev.Base.{List, [], ◌∷◌, length, All}
use coev.Base.Int.{ℤ, int_of_size}
use coev.Wire.Outcome.{ok, ◌>>◌, and_then}
use coev.Wire.Format.{FitsString, uvarint, length32, string_bytes, concat_map, array_bytes}
use coev.Wire.Format.{int32_bytes, int64_bytes}
use coev.Wire.Encoder.{Encoder, Put, prep, by_version, tally, put_int32, put_int64}
use coev.Wire.Encoder.View.{
  Counts, Stores, Writes, Writes-then, Counts-then, Stores-then, Writes-kinds,
}
use coev.Wire.Encoder.View.{by_kind_prep, by_kind_real, by_version_flexible}
use coev.Wire.Encoder.View.{
  Writes-nothing, Counts-fixed, Counts-flexible, Stores-fixed, Stores-flexible, Counts-tallies,
}
use coev.Wire.Encoder.Fixed.{Writes-put_int32, Writes-put_int64}
use coev.Wire.Encoder.Varint.{put_uvarint}
use coev.Wire.Encoder.Varint.Counts.{Writes-put_uvarint}
use coev.Wire.Encoder.Strings.{put_array_length, put_string}
use coev.Wire.Encoder.Strings.Bytes.{Writes-put_length, Writes-put_string}
use coev.Wire.Encoder.Arrays.{put_each, put_string_array, put_int32_array, put_int64_array}

pub Writes-put_each :
    {A : Type 0} (version : ℕ) (put : A → Put) (f : A → List ℕ) (P : A → Type 0)
    → ((x : A) → P x → Writes version (put x) (f x))
    → (xs : List A) → All P xs
    → Writes version (put_each put xs) (concat_map f xs)
unfolding put_each
Writes-put_each version put f P w [] h = Writes-nothing version
Writes-put_each version put f P w (x ∷ xs) h =
    Writes-then version (put x) (put_each put xs) (f x) (concat_map f xs) (w x h.0)
      (Writes-put_each version put f P w xs h.1)

abbrev Any : ℤ → Type 0
Any z = Unit {0}

All-Any : (xs : List ℤ) → All Any xs
All-Any [] = tt
All-Any (x ∷ xs) = (tt, All-Any xs)

int32s :
    (version : ℕ) (xs : List ℤ) → Writes version (put_each put_int32 xs) (concat_map int32_bytes xs)
int32s version xs =
    Writes-put_each version put_int32 int32_bytes Any (λ z _. Writes-put_int32 version z) xs
      (All-Any xs)

int64s :
    (version : ℕ) (xs : List ℤ) → Writes version (put_each put_int64 xs) (concat_map int64_bytes xs)
int64s version xs =
    Writes-put_each version put_int64 int64_bytes Any (λ z _. Writes-put_int64 version z) xs
      (All-Any xs)

length-int32s : (xs : List ℤ) → length (concat_map int32_bytes xs) ≡ 4 * length xs
length-int32s [] = refl
length-int32s (x ∷ xs) = omega (arith, length-int32s xs)

length-int64s : (xs : List ℤ) → length (concat_map int64_bytes xs) ≡ 8 * length xs
length-int64s [] = refl
length-int64s (x ∷ xs) = omega (arith, length-int64s xs)

Counts-tally : (version n : ℕ) (bs : List ℕ) → length bs ≡ n → Counts version (tally n) bs
Counts-tally version n bs h e k f = ap (λ (m : ℕ). tally m e) (sym h)

-- A length of 32 bits, or a varint, in front of the items of an array of int32_t.
behind_length :
    (version : ℕ) (xs : List ℤ)
    → length xs < 2 ^ 31 - 1
    → Writes version
        (put_array_length (int_of_size (length xs)) >> put_each put_int32 xs)
        (array_bytes version int32_bytes xs)
behind_length version xs h =
    Writes-then version (put_array_length (int_of_size (length xs))) (put_each put_int32 xs)
      (length32 version (length xs)) (concat_map int32_bytes xs)
      (Writes-put_length version (length xs) h) (int32s version xs)

behind_size :
    (w : ℕ) (xs : List ℤ)
    → length xs < 2 ^ 31 - 1
    → Writes (suc w) (put_uvarint (length xs + 1)) (uvarint (length xs + 1))
behind_size w xs h = Writes-put_uvarint (suc w) (length xs + 1) (omega arith)

abbrev count_fixed : List ℤ → Put
count_fixed xs = tally 4 >> tally (4 * length xs)

abbrev count_flexible : List ℤ → Put
count_flexible xs = put_uvarint (length xs + 1) >> tally (4 * length xs)

abbrev store_fixed : List ℤ → Put
store_fixed xs = put_array_length (int_of_size (length xs)) >> put_each put_int32 xs

abbrev store_flexible : List ℤ → Put
store_flexible xs = put_uvarint (length xs + 1) >> put_each put_int32 xs

Counts-flexible_items :
    (w : ℕ) (xs : List ℤ)
    → length xs < 2 ^ 31 - 1
    → Counts (suc w) (count_flexible xs) (array_bytes (suc w) int32_bytes xs)
Counts-flexible_items w xs h =
    Counts-then (suc w) (put_uvarint (length xs + 1)) (tally (4 * length xs))
      (uvarint (length xs + 1)) (concat_map int32_bytes xs) (behind_size w xs h).counts
      (Counts-tally (suc w) (4 * length xs) (concat_map int32_bytes xs) (length-int32s xs))

Stores-flexible_items :
    (w : ℕ) (xs : List ℤ)
    → length xs < 2 ^ 31 - 1
    → Stores (suc w) (store_flexible xs) (array_bytes (suc w) int32_bytes xs)
Stores-flexible_items w xs h =
    Stores-then (suc w) (put_uvarint (length xs + 1)) (put_each put_int32 xs)
      (uvarint (length xs + 1)) (concat_map int32_bytes xs) (behind_size w xs h).stores
      (int32s (suc w) xs).stores

pub Writes-put_int32_array :
    (version : ℕ) (xs : List ℤ)
    → length xs < 2 ^ 31 - 1
    → Writes version (put_int32_array xs) (array_bytes version int32_bytes xs)
unfolding put_int32_array
Writes-put_int32_array zero xs h =
    Writes-kinds 0 (by_version (count_fixed xs) (count_flexible xs))
      (by_version (store_fixed xs) (store_flexible xs)) (array_bytes 0 int32_bytes xs)
      (Counts-fixed (count_fixed xs) (count_flexible xs) (array_bytes 0 int32_bytes xs) (
        Counts-tallies 0 4 (4 * length xs) (array_bytes 0 int32_bytes xs)
          (omega (arith, length-int32s xs))))
      (Stores-fixed (store_fixed xs) (store_flexible xs) (array_bytes 0 int32_bytes xs)
        (behind_length 0 xs h).stores)
Writes-put_int32_array (suc w) xs h =
    Writes-kinds (suc w) (by_version (count_fixed xs) (count_flexible xs))
      (by_version (store_fixed xs) (store_flexible xs)) (array_bytes (suc w) int32_bytes xs)
      (Counts-flexible w (count_fixed xs) (count_flexible xs) (array_bytes (suc w) int32_bytes xs)
        (Counts-flexible_items w xs h))
      (Stores-flexible w (store_fixed xs) (store_flexible xs) (array_bytes (suc w) int32_bytes xs)
        (Stores-flexible_items w xs h))

pub Writes-put_int64_array :
    (version : ℕ) (xs : List ℤ)
    → length xs < 2 ^ 31 - 1
    → Writes version (put_int64_array xs) (array_bytes version int64_bytes xs)
unfolding put_int64_array
Writes-put_int64_array version xs h =
    Writes-kinds version (put_array_length (int_of_size (length xs)) >> tally (8 * length xs))
      (put_array_length (int_of_size (length xs)) >> put_each put_int64 xs)
      (array_bytes version int64_bytes xs)
      (Counts-then version (put_array_length (int_of_size (length xs))) (tally (8 * length xs))
        (length32 version (length xs)) (concat_map int64_bytes xs)
        (Writes-put_length version (length xs) h).counts
        (Counts-tally version (8 * length xs) (concat_map int64_bytes xs) (length-int64s xs)))
      (Stores-then version (put_array_length (int_of_size (length xs))) (put_each put_int64 xs)
        (length32 version (length xs)) (concat_map int64_bytes xs)
        (Writes-put_length version (length xs) h).stores (int64s version xs).stores)

store_strings :
    (version : ℕ) (xs : List (List ℕ))
    → length xs < 2 ^ 31 - 1
    → All (λ s. FitsString version (length s)) xs
    → Writes version
        (put_array_length (int_of_size (length xs)) >> put_each put_string xs)
        (array_bytes version (string_bytes version) xs)
store_strings version xs h fits =
    Writes-then version (put_array_length (int_of_size (length xs))) (put_each put_string xs)
      (length32 version (length xs)) (concat_map (string_bytes version) xs)
      (Writes-put_length version (length xs) h)
      (Writes-put_each version put_string (string_bytes version)
        (λ s. FitsString version (length s)) (Writes-put_string version) xs fits)

abbrev put_strings : List (List ℕ) → Put
put_strings xs = put_array_length (int_of_size (length xs)) >> put_each put_string xs

abbrev count_strings : List (List ℕ) → Put
count_strings xs = put_array_length (int_of_size (length xs)) >> tally (4 * length xs)

-- An array of strings in a fixed version.
pub Writes-put_string_array :
    (xs : List (List ℕ))
    → length xs < 2 ^ 31 - 1
    → All (λ s. FitsString 0 (length s)) xs
    → Writes 0 (put_string_array xs) (array_bytes 0 (string_bytes 0) xs)
unfolding put_string_array
Writes-put_string_array xs h fits =
    Writes-kinds 0 (by_version (put_strings xs) (count_strings xs)) (put_strings xs)
      (array_bytes 0 (string_bytes 0) xs)
      (Counts-fixed (put_strings xs) (count_strings xs) (array_bytes 0 (string_bytes 0) xs)
        (store_strings 0 xs h fits).counts)
      (store_strings 0 xs h fits).stores

-- In a flexible version REAL writes the strings, and PREP counts four bytes for each.
pub string_array-Counts :
    (w : ℕ) (xs : List (List ℕ)) (e : Encoder)
    → length xs < 2 ^ 31 - 1
    → e.kind ≡ prep
    → e.flexible ≡ suc w
    → put_string_array xs e ≡ tally (length (uvarint (length xs + 1)) + 4 * length xs) e
unfolding put_string_array
string_array-Counts w xs e h k f =
    by_kind_prep (by_version (put_strings xs) (count_strings xs)) (put_strings xs) e k
    ∙ by_version_flexible (put_strings xs) (count_strings xs) e w f
    ∙ ap (λ r. and_then r (λ _. tally (4 * length xs)))
        ((Writes-put_length (suc w) (length xs) h).counts e k f)
    ∙ ap (λ (n : ℕ). ok tt (record e { count = n })) (omega arith)

pub string_array-Stores :
    (w : ℕ) (xs : List (List ℕ))
    → length xs < 2 ^ 31 - 1
    → All (λ s. FitsString (suc w) (length s)) xs
    → Stores (suc w) (put_string_array xs) (array_bytes (suc w) (string_bytes (suc w)) xs)
unfolding put_string_array
string_array-Stores w xs h fits e k f room =
    by_kind_real (by_version (put_strings xs) (count_strings xs)) (put_strings xs) e k
    ∙ (store_strings (suc w) xs h fits).stores e k f room
