-- ===== src/Wire/Decoder/Safety/Reads.antt =====
-- The reads of packet_decoder.cpp, on a buffer of any bytes and from any offset in it.
use coev.Base.{ℕ, zero, suc, ◌^◌, ◌≤◌, ◌<◌, ◌≡◌}
use coev.Base.{length}
use coev.Base.Int.{ℤ, int_of_size}
use coev.Wire.Outcome.{pure, ◌>>=◌, ◌>>◌}
use coev.Wire.Decoder.{
  Decoder, Get, get_int8, get_int16, get_int32, get_int64, get_float64, get_bool,
}
use coev.Wire.Decoder.Varint.{get_uvariant, get_variant}
use coev.Wire.Decoder.Strings.{get_raw_bytes, get_bytes, get_variant_bytes, get_string}
use coev.Wire.Decoder.Strings.{get_nullable_string}
use coev.Wire.Decoder.Strings.ReadBack.{by_version_fixed}
use coev.Wire.Decoder.Arrays.{get_array_length, get_int32_array, get_int64_array, get_string_array}
use coev.Wire.Decoder.Arrays.{fixed_int32_array, flexible_int32_array}
use coev.Wire.Decoder.Tagged.{skip_tag, skip_tags, get_empty_tagged_field_array}
use coev.Wire.Decoder.Safety.{Kept, Safe, Safe-bind, Safe-pure, Kept-of_eq}
use coev.Wire.Decoder.Safety.{Safe-get_int8, Safe-get_int16, Safe-get_int32, Safe-get_int64}
use coev.Wire.Decoder.Safety.{Safe-get_float64, Safe-get_bool}
use coev.Wire.Decoder.Safety.Strings.{Safe-get_uvariant, Safe-get_variant, Safe-get_raw_bytes}
use coev.Wire.Decoder.Safety.Strings.{Safe-get_bytes, Safe-get_variant_bytes, Safe-get_string}
use coev.Wire.Decoder.Safety.Strings.{Safe-get_nullable_string, Safe-by_version}
use coev.Wire.Decoder.Safety.Arrays.{Safe-get_array_length, Kept-get_int64_array}
use coev.Wire.Decoder.Safety.Arrays.{Safe-get_string_array, Safe-fixed_int32_array}

-- From any offset in the buffer, the reads of fixed size return, and leave the buffer, the version
-- and the stack as they were and the offset in the buffer.
fixed_reads_stay :
    (d : Decoder)
    → d.offset ≤ length d.raw
    → length d.raw < 2 ^ 31
    → Kept d (get_int8 d)
      × Kept d (get_int16 d)
      × Kept d (get_int32 d)
      × Kept d (get_int64 d)
      × Kept d (get_float64 d)
      × Kept d (get_bool d)
fixed_reads_stay d h b = (
  Safe-get_int8 d h b,
  Safe-get_int16 d h b,
  Safe-get_int32 d h b,
  Safe-get_int64 d h b,
  Safe-get_float64 d h b,
  Safe-get_bool d h b,
)

-- From any offset in the buffer, getVariant and getUVariant return, and leave the buffer, the
-- version and the stack as they were and the offset in the buffer.
varint_reads_stay :
    (d : Decoder)
    → d.offset ≤ length d.raw
    → length d.raw < 2 ^ 31
    → Kept d (get_uvariant d) × Kept d (get_variant d)
varint_reads_stay d h b = (Safe-get_uvariant d h b, Safe-get_variant d h b)

-- From any offset in a buffer of fewer than 2 ^ 31 bytes, whatever length it finds there, a read of a byte string returns,
-- and leaves the buffer, the version and the stack as they were and the offset in the buffer.
pub string_reads_stay :
    (d : Decoder) (n : ℤ)
    → d.offset ≤ length d.raw
    → length d.raw < 2 ^ 31
    → Kept d (get_raw_bytes n d)
      × Kept d (get_bytes d)
      × Kept d (get_variant_bytes d)
      × Kept d (get_string d)
      × Kept d (get_nullable_string d)
string_reads_stay d n h b = (
  Safe-get_raw_bytes n d h b,
  Safe-get_bytes d h b,
  Safe-get_variant_bytes d h b,
  Safe-get_string d h b,
  Safe-get_nullable_string d h b,
)

-- From any offset in a buffer of fewer than 2 ^ 31 bytes, whatever length it finds there, a read of the length of an array
-- or of an array of strings returns, and leaves the buffer, the version and the stack as they were
-- and the offset in the buffer.
array_reads_stay :
    (d : Decoder)
    → d.offset ≤ length d.raw
    → length d.raw < 2 ^ 31
    → Kept d (get_array_length d) × Kept d (get_string_array d)
array_reads_stay d h b = (Safe-get_array_length d h b, Safe-get_string_array d h b)

-- In a fixed version, from any offset in a buffer of fewer than 2 ^ 31 bytes, a read of an array of int32_t or of int64_t
-- returns, and leaves the buffer, the version and the stack as they were and the offset in the
-- buffer.
pub integer_arrays_stay :
    (d : Decoder)
    → d.offset ≤ length d.raw
    → length d.raw < 2 ^ 31
    → d.flexible ≡ 0
    → Kept d (get_int32_array d) × Kept d (get_int64_array d)
unfolding get_int32_array
integer_arrays_stay d h b f = (
  Kept-of_eq d (by_version_fixed fixed_int32_array flexible_int32_array d f)
      (Safe-fixed_int32_array d h b),
  Kept-get_int64_array d h b f,
)

skipped : ℕ → ℕ → Get ℕ
skipped id length = do bytes ← get_raw_bytes (int_of_size length); pure id

Safe-skip_tag : Safe skip_tag
unfolding skip_tag skipped
Safe-skip_tag =
    Safe-bind get_uvariant (λ id. get_uvariant >>= λ n. skipped id n) Safe-get_uvariant
      (λ id. Safe-bind get_uvariant (skipped id) Safe-get_uvariant (λ n.
        Safe-bind (get_raw_bytes (int_of_size n)) (λ bytes. pure id)
          (Safe-get_raw_bytes (int_of_size n)) (λ bytes. Safe-pure id)))

Safe-skip_tags : (n : ℕ) → Safe (skip_tags n)
unfolding skip_tags
Safe-skip_tags zero = Safe-pure tt
Safe-skip_tags (suc n) =
    Safe-bind skip_tag (λ id. skip_tags n) Safe-skip_tag (λ id. Safe-skip_tags n)

-- From any offset in the buffer, whatever the number of tags, skipping them returns, and leaves
-- the buffer, the version and the stack as they were and the offset in the buffer.
tagged_fields_stay :
    (d : Decoder)
    → d.offset ≤ length d.raw
    → length d.raw < 2 ^ 31
    → Kept d (get_empty_tagged_field_array d)
unfolding get_empty_tagged_field_array
tagged_fields_stay =
    Safe-by_version (pure tt) (get_uvariant >>= skip_tags) (Safe-pure tt)
      (Safe-bind get_uvariant skip_tags Safe-get_uvariant Safe-skip_tags)

-- From any offset in a buffer of fewer than 2 ^ 31 bytes, whatever bytes and lengths stand there, each read of fixed size, of a
-- varint, of the length of an array and of an array of strings returns, and so does the skipping of
-- tags; each leaves the buffer, the version and the stack as they were and the offset in the buffer.
pub reads_stay :
    (d : Decoder)
    → d.offset ≤ length d.raw
    → length d.raw < 2 ^ 31
    → (Kept d (get_int8 d)
        × Kept d (get_int16 d)
        × Kept d (get_int32 d)
        × Kept d (get_int64 d)
        × Kept d (get_float64 d)
        × Kept d (get_bool d))
      × (Kept d (get_uvariant d) × Kept d (get_variant d))
      × (Kept d (get_array_length d) × Kept d (get_string_array d))
      × Kept d (get_empty_tagged_field_array d)
reads_stay d h b = (
  fixed_reads_stay d h b,
  varint_reads_stay d h b,
  array_reads_stay d h b,
  tagged_fields_stay d h b,
)
