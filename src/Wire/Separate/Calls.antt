-- ===== src/Wire/Separate/Calls.antt =====
-- The calls of an encoder, one after the other until one of them returns an error code.
use coev.Base.{ℕ, List, [], ◌∷◌, Bool}
use coev.Base.Int.{ℤ}
use coev.Wire.Outcome.{M, pure, ◌>>=◌, ◌>>◌}
use coev.Wire.Field.{PushField}
use coev.Wire.Encoder
use coev.Wire.Encoder.Varint
use coev.Wire.Encoder.Strings
use coev.Wire.Encoder.Arrays
use coev.Wire.Encoder.Fields
use coev.Wire.Separate.Prep
use coev.Wire.Separate.Real

pub data Call : Type 0 where
  int8 int16 int32 int64 variant kerror duration_ms array_length : ℤ → Call
  uvarint float64 : ℕ → Call
  bool : Bool → Call
  raw_bytes bytes variant_bytes string nullable_string : List ℕ → Call
  string_array : List (List ℕ) → Call
  int32_array nullable_int32_array int64_array : List ℤ → Call
  empty_tagged_field_array : Call
  field : PushField → Call
  end_of_field : Call

abbrev pub call_prep : Call → Prep.PrepPut
call_prep (int8 z) = Prep.put_int8 z
call_prep (int16 z) = Prep.put_int16 z
call_prep (int32 z) = Prep.put_int32 z
call_prep (int64 z) = Prep.put_int64 z
call_prep (variant z) = Prep.put_variant z
call_prep (kerror z) = Prep.put_kerror z
call_prep (duration_ms z) = Prep.put_duration_ms z
call_prep (array_length z) = Prep.put_array_length z
call_prep (uvarint n) = Prep.put_uvarint n
call_prep (float64 n) = Prep.put_float64 n
call_prep (bool b) = Prep.put_bool b
call_prep (raw_bytes s) = Prep.put_raw_bytes s
call_prep (bytes s) = Prep.put_bytes s
call_prep (variant_bytes s) = Prep.put_variant_bytes s
call_prep (string s) = Prep.put_string s
call_prep (nullable_string s) = Prep.put_nullable_string s
call_prep (string_array xs) = Prep.put_string_array xs
call_prep (int32_array xs) = Prep.put_int32_array xs
call_prep (nullable_int32_array xs) = Prep.put_nullable_int32_array xs
call_prep (int64_array xs) = Prep.put_int64_array xs
call_prep empty_tagged_field_array = Prep.put_empty_tagged_field_array
call_prep (field f) = Prep.push f
call_prep end_of_field = do f ← Prep.pop; pure tt

abbrev pub call_real : Call → Real.RealPut
call_real (int8 z) = Real.put_int8 z
call_real (int16 z) = Real.put_int16 z
call_real (int32 z) = Real.put_int32 z
call_real (int64 z) = Real.put_int64 z
call_real (variant z) = Real.put_variant z
call_real (kerror z) = Real.put_kerror z
call_real (duration_ms z) = Real.put_duration_ms z
call_real (array_length z) = Real.put_array_length z
call_real (uvarint n) = Real.put_uvarint n
call_real (float64 n) = Real.put_float64 n
call_real (bool b) = Real.put_bool b
call_real (raw_bytes s) = Real.put_raw_bytes s
call_real (bytes s) = Real.put_bytes s
call_real (variant_bytes s) = Real.put_variant_bytes s
call_real (string s) = Real.put_string s
call_real (nullable_string s) = Real.put_nullable_string s
call_real (string_array xs) = Real.put_string_array xs
call_real (int32_array xs) = Real.put_int32_array xs
call_real (nullable_int32_array xs) = Real.put_nullable_int32_array xs
call_real (int64_array xs) = Real.put_int64_array xs
call_real empty_tagged_field_array = Real.put_empty_tagged_field_array
call_real (field f) = Real.push f
call_real end_of_field = do f ← Real.pop; pure tt

abbrev pub call_packet : Call → Encoder.Put
call_packet (int8 z) = Encoder.put_int8 z
call_packet (int16 z) = Encoder.put_int16 z
call_packet (int32 z) = Encoder.put_int32 z
call_packet (int64 z) = Encoder.put_int64 z
call_packet (variant z) = Varint.put_variant z
call_packet (kerror z) = Encoder.put_kerror z
call_packet (duration_ms z) = Encoder.put_duration_ms z
call_packet (array_length z) = Strings.put_array_length z
call_packet (uvarint n) = Varint.put_uvarint n
call_packet (float64 n) = Encoder.put_float64 n
call_packet (bool b) = Encoder.put_bool b
call_packet (raw_bytes s) = Strings.put_raw_bytes s
call_packet (bytes s) = Strings.put_bytes s
call_packet (variant_bytes s) = Strings.put_variant_bytes s
call_packet (string s) = Strings.put_string s
call_packet (nullable_string s) = Strings.put_nullable_string s
call_packet (string_array xs) = Arrays.put_string_array xs
call_packet (int32_array xs) = Arrays.put_int32_array xs
call_packet (nullable_int32_array xs) = Arrays.put_nullable_int32_array xs
call_packet (int64_array xs) = Arrays.put_int64_array xs
call_packet empty_tagged_field_array = Strings.put_empty_tagged_field_array
call_packet (field f) = Fields.push f
call_packet end_of_field = do f ← Fields.pop; pure tt

-- Each encoder runs the calls in order.
abbrev pub calls : {S : Type 0} → (Call → M S (Unit {0})) → List Call → M S (Unit {0})
calls call [] = pure tt
calls call (c ∷ cs) = do call c; calls call cs
