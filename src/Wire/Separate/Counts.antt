-- ===== src/Wire/Separate/Counts.antt =====
-- prep_encoder counts as packet_encoder does in PREP.
pub mod Every
use coev.Base.{
  ℕ, zero, suc, ◌+◌, ◌*◌, ◌/◌, ◌^◌, ◌==◌, leb, ltb, ◌||◌, if◌then◌else◌, Bool, true, false, ◌≡◌,
  refl, ap, ◌∙◌,
}
use coev.Base.{List, [], ◌∷◌, Option, none, some, length}
use coev.Base.Int.{ℤ, pos, negsuc, unsigned, suc_ℤ, ltb_ℤ, shr_ℤ, int_of_size, sub_ℕ}
use coev.Wire.Outcome.{M, Outcome, ok, err, fault, stuck, pure, fail, ◌>>=◌, ◌>>◌, unknown}
use coev.Wire.Field.{PushField, length_field, variant_length_field, save_offset, reserve_length}
use coev.Wire.Encoder
use coev.Wire.Encoder.{Put}
use coev.Wire.Encoder.Varint
use coev.Wire.Encoder.Strings
use coev.Wire.Encoder.Arrays
use coev.Wire.Encoder.Fields
use coev.Wire.Separate.Prep
use coev.Wire.Separate.Prep.{PrepEncoder, PrepPut, as_packet}
use coev.Wire.Separate.Calls
use coev.Wire.Separate.Like.{
  mapped, Like, like, same, pure-Like, fail-Like, bind-Like, then-Like, if-Like,
}

pub version-Like :
    {m k : PrepPut} {n l r : Put}
    → Like as_packet m n
    → Like as_packet k l
    → Like as_packet (Prep.by_version m k) (Encoder.by_kind (Encoder.by_version n l) r)
version-Like {m = m} {k = k} {n = n} {l = l} h g = like (λ p. either p (p.flexible == 0))
  where
    either :
        (p : PrepEncoder) (b : Bool)
        → mapped as_packet (if b then m p else k p)
          ≡ (if b then n (as_packet p) else l (as_packet p))
    either p true = same h p
    either p false = same g p

-- packet_encoder looks at its kind first.
pub kind-Like :
    {A : Type 0} {m : M PrepEncoder A} {n l : M Encoder.Encoder A}
    → Like as_packet m n
    → Like as_packet m (Encoder.by_kind n l)
kind-Like h = like (λ p. same h p)

varint_len_loop_lem :
    (left : ℕ) (x : ℤ) (s : ℕ) → Prep.varint_len_loop left x s ≡ Varint.varint_len_loop left x s
unfolding Prep.varint_len_loop Varint.varint_len_loop
varint_len_loop_lem zero x s = refl
varint_len_loop_lem (suc left) x s =
    ap (λ (n : ℕ). elim (ltb_ℤ (pos 0x7f) x || ltb_ℤ x (negsuc 0x3f)) [ true ↦ n | false ↦ s + 1 ])
      (varint_len_loop_lem left (shr_ℤ x 7) (s + 1))

uvarint_len_loop_lem :
    (left x s : ℕ) → Prep.uvarint_len_loop left x s ≡ Varint.uvarint_len_loop left x s
unfolding Prep.uvarint_len_loop Varint.uvarint_len_loop
uvarint_len_loop_lem zero x s = refl
uvarint_len_loop_lem (suc left) x s =
    ap (λ (n : ℕ). elim (leb 0x80 x) [ true ↦ n | false ↦ s + 1 ])
      (uvarint_len_loop_lem left (x / 2 ^ 7) (s + 1))

pub uvarint-Like : (x : ℕ) → Like as_packet (Prep.put_uvarint x) (Varint.put_uvarint x)
unfolding Prep.put_uvarint Varint.put_uvarint Prep.uvarint_len Varint.uvarint_len
uvarint-Like x = like (λ p.
    ap (λ n. Encoder.tally (if x == 0 then 1 else n) (as_packet p)) (uvarint_len_loop_lem 10 x 0))

pub variant-Like : (x : ℤ) → Like as_packet (Prep.put_variant x) (Varint.put_variant x)
unfolding Prep.put_variant Varint.put_variant Prep.varint_len Varint.varint_len
variant-Like x = like (λ p. ap (λ n. Encoder.tally n (as_packet p)) (varint_len_loop_lem 10 x 0))

pub tally-Like : (n : ℕ) → Like as_packet (Prep.tally n) (Encoder.tally n)
tally-Like n = like (λ p. refl)

pub array_length-Like :
    (n : ℤ) → Like as_packet (Prep.put_array_length n) (Strings.put_array_length n)
unfolding Prep.put_array_length Strings.put_array_length
array_length-Like n =
    version-Like
      (if-Like as_packet (ltb_ℤ (pos Strings.int32_max) n) (fail-Like as_packet unknown)
        (tally-Like 4))
      (uvarint-Like (unsigned 64 (suc_ℤ n)))

pub raw_bytes-Like : (s : List ℕ) → Like as_packet (Prep.put_raw_bytes s) (Strings.put_raw_bytes s)
unfolding Prep.put_raw_bytes Strings.put_raw_bytes
raw_bytes-Like s = kind-Like (
    if-Like as_packet (ltb Strings.int32_max (length s)) (fail-Like as_packet unknown)
      (tally-Like (length s)))

pub bytes-Like : (s : List ℕ) → Like as_packet (Prep.put_bytes s) (Strings.put_bytes s)
unfolding Prep.put_bytes Strings.put_bytes
bytes-Like s =
    version-Like
      (then-Like as_packet (tally-Like 4) (
        if-Like as_packet (Strings.is_empty s) (pure-Like as_packet tt) (
          if-Like as_packet (ltb Strings.int32_max (length s)) (fail-Like as_packet unknown)
            (raw_bytes-Like s))))
      (then-Like as_packet (uvarint-Like (length s + 1)) (raw_bytes-Like s))

pub variant_bytes-Like :
    (s : List ℕ) → Like as_packet (Prep.put_variant_bytes s) (Strings.put_variant_bytes s)
unfolding Prep.put_variant_bytes Strings.put_variant_bytes
variant_bytes-Like s =
    if-Like as_packet (Strings.is_empty s) (variant-Like Strings.minus_one)
      (then-Like as_packet (variant-Like (pos (length s))) (raw_bytes-Like s))

pub behind_length-Like :
    {k : PrepPut} {l : Put}
    → (n : ℕ) → Like as_packet k l
    → Like as_packet
        (do Prep.put_array_length (int_of_size n); k)
        (do Strings.put_array_length (int_of_size n); l)
behind_length-Like n h = then-Like as_packet (array_length-Like (int_of_size n)) h

pub string-Like : (s : List ℕ) → Like as_packet (Prep.put_string s) (Strings.put_string s)
unfolding Prep.put_string Strings.put_string
string-Like s =
    version-Like
      (if-Like as_packet (ltb Strings.int16_max (length s)) (fail-Like as_packet unknown)
        (then-Like as_packet (tally-Like 2) (tally-Like (length s))))
      (behind_length-Like (length s) (raw_bytes-Like s))

pub nullable_string-Like :
    (s : List ℕ) → Like as_packet (Prep.put_nullable_string s) (Strings.put_nullable_string s)
unfolding Prep.put_nullable_string Strings.put_nullable_string
nullable_string-Like s =
    version-Like (if-Like as_packet (Strings.is_empty s) (tally-Like 2) (string-Like s))
      (if-Like as_packet (Strings.is_empty s) (uvarint-Like 0) (string-Like s))

pub strings-Like :
    (xs : List (List ℕ))
    → Like as_packet (Prep.put_strings xs) (Arrays.put_each Strings.put_string xs)
unfolding Arrays.put_each
strings-Like [] = (pure-Like as_packet tt)
strings-Like (s ∷ xs) = then-Like as_packet (string-Like s) (strings-Like xs)

pub string_array-Like :
    (xs : List (List ℕ)) → Like as_packet (Prep.put_string_array xs) (Arrays.put_string_array xs)
unfolding Prep.put_string_array Arrays.put_string_array
string_array-Like xs =
    version-Like (behind_length-Like (length xs) (strings-Like xs))
      (behind_length-Like (length xs) (tally-Like (4 * length xs)))

pub nullable_int32_array-Like :
    (xs : List ℤ)
    → Like as_packet (Prep.put_nullable_int32_array xs) (Arrays.put_nullable_int32_array xs)
unfolding Prep.put_nullable_int32_array Arrays.put_nullable_int32_array
nullable_int32_array-Like xs =
    version-Like
      (if-Like as_packet (length xs == 0) (tally-Like 4)
        (behind_length-Like (length xs) (tally-Like (4 * length xs))))
      (if-Like as_packet (length xs == 0) (uvarint-Like 0)
        (then-Like as_packet (uvarint-Like (length xs + 1)) (tally-Like (4 * length xs))))

pub int64_array-Like :
    (xs : List ℤ) → Like as_packet (Prep.put_int64_array xs) (Arrays.put_int64_array xs)
unfolding Prep.put_int64_array Arrays.put_int64_array
int64_array-Like xs = kind-Like (behind_length-Like (length xs) (tally-Like (8 * length xs)))
