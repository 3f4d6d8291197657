-- ===== src/Wire/Separate/Writes.antt =====
-- real_encoder writes as packet_encoder does in REAL.
pub mod Every
use coev.Base.{
  ℕ, zero, suc, ◌+◌, ◌*◌, ◌/◌, ◌^◌, ◌==◌, leb, ltb, ◌%◌, bit_or, if◌then◌else◌, Bool, true, false,
  ◌≡◌, refl, ap, ◌∙◌,
}
use coev.Base.{List, [], ◌∷◌, Option, none, some, length}
use coev.Base.Int.{ℤ, pos, negsuc, unsigned, suc_ℤ, ltb_ℤ, shr_ℤ, int_of_size, signed, int_of_long}
use coev.Wire.Outcome.{M, Outcome, ok, err, fault, stuck, pure, fail, ◌>>=◌, ◌>>◌, unknown}
use coev.Wire.Field.{PushField, length_field, variant_length_field, save_offset, reserve_length}
use coev.Wire.Encoder
use coev.Wire.Encoder.{Put}
use coev.Wire.Encoder.Varint
use coev.Wire.Encoder.Strings
use coev.Wire.Encoder.Arrays
use coev.Wire.Encoder.Fields
use coev.Wire.Separate.Real
use coev.Wire.Separate.Real.{RealEncoder, RealPut, as_packet}
use coev.Wire.Separate.Calls
use coev.Wire.Separate.Like.{
  mapped, Like, like, same, pure-Like, fail-Like, bind-Like, then-Like, if-Like,
}

pub version-Like :
    {m k : RealPut} {n l other : Put}
    → Like as_packet m n
    → Like as_packet k l
    → Like as_packet (Real.by_version m k) (Encoder.by_kind other (Encoder.by_version n l))
version-Like {m = m} {k = k} {n = n} {l = l} h g = like (λ r. either r (r.flexible == 0))
  where
    either :
        (r : RealEncoder) (b : Bool)
        → mapped as_packet (if b then m r else k r)
          ≡ (if b then n (as_packet r) else l (as_packet r))
    either r true = same h r
    either r false = same g r

-- packet_encoder looks at its kind first.
pub kind-Like :
    {A : Type 0} {m : M RealEncoder A} {n l : M Encoder.Encoder A}
    → Like as_packet m n
    → Like as_packet m (Encoder.by_kind l n)
kind-Like h = like (λ r. same h r)

pub either-Like :
    {m k : RealPut} {n : Put}
    → Like as_packet m n
    → Like as_packet k n
    → Like as_packet (Real.by_version m k) n
either-Like {m = m} {k = k} {n = n} h g = like (λ r. either r (r.flexible == 0))
  where
    either :
        (r : RealEncoder) (b : Bool) → mapped as_packet (if b then m r else k r) ≡ n (as_packet r)
    either r true = same h r
    either r false = same g r

pub emit-Like : (bs : List ℕ) → Like as_packet (Real.emit bs) (Encoder.emit bs)
unfolding Encoder.emit
emit-Like bs = like (λ r. either r (leb (r.position + length bs) (length r.raw)))
  where
    written : RealEncoder → RealEncoder
    written r = record r {
      position = r.position + length bs;
      raw = Encoder.splice r.position bs r.raw;
    }

    either :
        (r : RealEncoder) (b : Bool)
        → mapped as_packet (if b then ok tt (written r) else fault)
          ≡ (if b then ok tt (as_packet (written r)) else fault)
    either r true = refl
    either r false = refl

encode_uvariant_loop_lem :
    (left x : ℕ) → Real.encode_uvariant_loop left x ≡ Varint.encode_uvariant_loop left x
unfolding Real.encode_uvariant_loop Varint.encode_uvariant_loop
encode_uvariant_loop_lem zero x = refl
encode_uvariant_loop_lem (suc left) x =
    ap
      (λ (l : List ℕ). elim (leb 0x80 x) [
        | true ↦ bit_or (x % 2 ^ 8) 0x80 ∷ l
        | false ↦ x % 2 ^ 8 ∷ []
      ])
      (encode_uvariant_loop_lem left (x / 2 ^ 7))

-- Where the bytes are the same ones, by an equation.
pub emitted-Like :
    {bs cs : List ℕ} {other : Put}
    → bs ≡ cs
    → Like as_packet (Real.emit bs) (Encoder.by_kind other (Encoder.emit cs))
emitted-Like {bs = bs} e =
    like (λ r. same (emit-Like bs) r ∙ ap (λ l. Encoder.emit l (as_packet r)) e)

pub uvarint-Like : (x : ℕ) → Like as_packet (Real.put_uvarint x) (Varint.put_uvarint x)
unfolding Real.put_uvarint Varint.put_uvarint Real.encode_uvariant Varint.encode_uvariant
uvarint-Like x = emitted-Like (encode_uvariant_loop_lem 10 x)

pub variant-Like : (x : ℤ) → Like as_packet (Real.put_variant x) (Varint.put_variant x)
unfolding Real.put_variant Varint.put_variant Real.encode_variant Varint.encode_variant
    Real.encode_uvariant Varint.encode_uvariant Real.zigzag_encode Varint.zigzag_encode
variant-Like x = emitted-Like (encode_uvariant_loop_lem 10 (Real.zigzag_encode x))

pub int8-Like : (z : ℤ) → Like as_packet (Real.put_int8 z) (Encoder.put_int8 z)
unfolding Real.put_int8 Encoder.put_int8
int8-Like z = emitted-Like refl

pub int16-Like : (z : ℤ) → Like as_packet (Real.put_int16 z) (Encoder.put_int16 z)
unfolding Real.put_int16 Encoder.put_int16
int16-Like z = emitted-Like refl

pub int32-Like : (z : ℤ) → Like as_packet (Real.put_int32 z) (Encoder.put_int32 z)
unfolding Real.put_int32 Encoder.put_int32
int32-Like z = emitted-Like refl

pub int64-Like : (z : ℤ) → Like as_packet (Real.put_int64 z) (Encoder.put_int64 z)
unfolding Real.put_int64 Encoder.put_int64
int64-Like z = emitted-Like refl

pub raw_bytes-Like : (s : List ℕ) → Like as_packet (Real.put_raw_bytes s) (Strings.put_raw_bytes s)
unfolding Strings.put_raw_bytes
raw_bytes-Like s = emitted-Like refl

pub array_length-Like :
    (n : ℤ) → Like as_packet (Real.put_array_length n) (Strings.put_array_length n)
unfolding Real.put_array_length Strings.put_array_length
array_length-Like n = version-Like (int32-Like n) (uvarint-Like (unsigned 64 (suc_ℤ n)))

pub sized-Like :
    (s : List ℕ)
    → Like as_packet
        (do Real.put_uvarint (length s + 1); Real.put_raw_bytes s)
        (do Varint.put_uvarint (length s + 1); Strings.put_raw_bytes s)
sized-Like s = then-Like as_packet (uvarint-Like (length s + 1)) (raw_bytes-Like s)

pub bytes-Like : (s : List ℕ) → Like as_packet (Real.put_bytes s) (Strings.put_bytes s)
unfolding Real.put_bytes Strings.put_bytes
bytes-Like s =
    version-Like
      (if-Like as_packet (Strings.is_empty s) (int32-Like Strings.minus_one)
        (then-Like as_packet (int32-Like (int_of_size (length s))) (raw_bytes-Like s)))
      (sized-Like s)

pub variant_bytes-Like :
    (s : List ℕ) → Like as_packet (Real.put_variant_bytes s) (Strings.put_variant_bytes s)
unfolding Real.put_variant_bytes Strings.put_variant_bytes
variant_bytes-Like s =
    if-Like as_packet (Strings.is_empty s) (variant-Like Strings.minus_one)
      (then-Like as_packet (variant-Like (pos (length s))) (raw_bytes-Like s))

pub behind_length-Like :
    {k : RealPut} {l : Put}
    → (n : ℕ) → Like as_packet k l
    → Like as_packet
        (do Real.put_array_length (int_of_size n); k)
        (do Strings.put_array_length (int_of_size n); l)
behind_length-Like n h = then-Like as_packet (array_length-Like (int_of_size n)) h

pub string-Like : (s : List ℕ) → Like as_packet (Real.put_string s) (Strings.put_string s)
unfolding Real.put_string Strings.put_string
string-Like s =
    version-Like (then-Like as_packet (int16-Like (signed 16 (length s % 2 ^ 16))) (emit-Like s))
      (behind_length-Like (length s) (raw_bytes-Like s))

pub nullable_string-Like :
    (s : List ℕ) → Like as_packet (Real.put_nullable_string s) (Strings.put_nullable_string s)
unfolding Real.put_nullable_string Strings.put_nullable_string
nullable_string-Like s =
    version-Like
      (if-Like as_packet (Strings.is_empty s) (int16-Like Strings.minus_one) (string-Like s))
      (if-Like as_packet (Strings.is_empty s) (uvarint-Like 0) (string-Like s))

pub each-Like :
    {A : Type 0} {put : A → RealPut} {put' : A → Put}
    → ((x : A) → Like as_packet (put x) (put' x))
    → (xs : List A) → Like as_packet (Real.put_each put xs) (Arrays.put_each put' xs)
unfolding Arrays.put_each
each-Like h [] = pure-Like as_packet tt
each-Like h (x ∷ xs) = then-Like as_packet (h x) (each-Like h xs)

pub string_array-Like :
    (xs : List (List ℕ)) → Like as_packet (Real.put_string_array xs) (Arrays.put_string_array xs)
unfolding Real.put_string_array Arrays.put_string_array
string_array-Like xs = kind-Like (
    either-Like (behind_length-Like (length xs) (each-Like string-Like xs))
      (behind_length-Like (length xs) (each-Like string-Like xs)))

pub int32_array-Like :
    (xs : List ℤ) → Like as_packet (Real.put_int32_array xs) (Arrays.put_int32_array xs)
unfolding Real.put_int32_array Arrays.put_int32_array
int32_array-Like xs =
    version-Like (behind_length-Like (length xs) (each-Like int32-Like xs))
      (then-Like as_packet (uvarint-Like (length xs + 1)) (each-Like int32-Like xs))

pub nullable_int32_array-Like :
    (xs : List ℤ)
    → Like as_packet (Real.put_nullable_int32_array xs) (Arrays.put_nullable_int32_array xs)
unfolding Real.put_nullable_int32_array Arrays.put_nullable_int32_array
nullable_int32_array-Like xs =
    version-Like
      (if-Like as_packet (length xs == 0) (int32-Like Strings.minus_one)
        (behind_length-Like (length xs) (each-Like int32-Like xs)))
      (if-Like as_packet (length xs == 0) (uvarint-Like 0)
        (then-Like as_packet (uvarint-Like (length xs + 1)) (each-Like int32-Like xs)))

pub int64_array-Like :
    (xs : List ℤ) → Like as_packet (Real.put_int64_array xs) (Arrays.put_int64_array xs)
unfolding Real.put_int64_array Arrays.put_int64_array
int64_array-Like xs = kind-Like (behind_length-Like (length xs) (each-Like int64-Like xs))
