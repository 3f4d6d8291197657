-- ===== src/Wire/Separate/Writes/Every.antt =====
-- The fields of length of real_encoder, and every call of it.
use coev.Base.{ℕ, ◌+◌, leb, if◌then◌else◌, Bool, true, false, ◌≡◌, refl}
use coev.Base.{List, [], ◌∷◌, Option, none, some, length}
use coev.Base.Int.{pos, signed, int_of_long}
use coev.Wire.Outcome.{M, ok, fault, stuck, pure, ◌>>=◌}
use coev.Wire.Field.{PushField, length_field, variant_length_field, save_offset, reserve_length}
use coev.Wire.Encoder
use coev.Wire.Encoder.{Put}
use coev.Wire.Encoder.Varint
use coev.Wire.Encoder.Strings
use coev.Wire.Encoder.Fields
use coev.Wire.Separate.Real
use coev.Wire.Separate.Real.{RealEncoder, RealPut, as_packet}
use coev.Wire.Separate.Calls
use coev.Wire.Separate.Like.{mapped, Like, like, pure-Like, bind-Like}
use coev.Wire.Separate.Writes.{
  version-Like, kind-Like, uvarint-Like, variant-Like, int8-Like, int16-Like, int32-Like,
  int64-Like, raw_bytes-Like, array_length-Like, bytes-Like, variant_bytes-Like, string-Like,
  nullable_string-Like, string_array-Like, int32_array-Like, nullable_int32_array-Like,
  int64_array-Like,
}

push-Like : (f : PushField) → Like as_packet (Real.push f) (Fields.push f)
unfolding Real.push Fields.push Fields.reserve
push-Like f = like (λ r. by_size r (reserve_length f))
  where
    pushed : RealEncoder → ℕ → RealEncoder
    pushed r n = record r { position = r.position + n; stack = save_offset r.position f ∷ r.stack }

    either :
        (r : RealEncoder) (n : ℕ) (b : Bool)
        → mapped as_packet (if b then ok tt (pushed r n) else fault)
          ≡ (if b then Fields.reserve (save_offset r.position f) (some n) (as_packet r) else fault)
    either r n true = refl
    either r n false = refl

    by_size :
        (r : RealEncoder) (o : Option ℕ)
        → mapped as_packet (elim o [
          | none ↦ stuck
          | some n ↦ if leb (r.position + n) (length r.raw) then ok tt (pushed r n) else fault
        ])
          ≡ elim o [
            | none ↦ stuck
            | some n ↦
                if leb (r.position + n) (length r.raw)
                then Fields.reserve (save_offset r.position f) (some n) (as_packet r)
                else fault
          ]
    by_size r none = refl
    by_size r (some n) = either r n (leb (r.position + n) (length r.raw))

store-filled :
    (r : RealEncoder) (at : ℕ) (bs : List ℕ) (f : PushField)
    → mapped as_packet (Real.filled r (Fields.store at bs f (as_packet r)))
      ≡ (do g ← Fields.store at bs f; pure (some g)) (as_packet r)
store-filled r at bs f = either (leb (at + length bs) (length r.raw))
  where
    stored : Bool → M Encoder.Encoder PushField
    stored b e = if b then ok f (record e { raw = Encoder.splice at bs e.raw }) else fault

    either :
        (b : Bool)
        → mapped as_packet (Real.filled r (stored b (as_packet r)))
          ≡ (do g ← stored b; pure (some g)) (as_packet r)
    either true = refl
    either false = refl

run-filled :
    (f : PushField) (r : RealEncoder)
    → mapped as_packet (Real.filled r (Fields.run f (as_packet r)))
      ≡ (do g ← Fields.run f; pure (some g)) (as_packet r)
unfolding Fields.run
run-filled (length_field start len) r =
    store-filled r start (Fields.length_bytes (Fields.length_value r.position start))
      (length_field start len)
run-filled (variant_length_field start len) r =
    store-filled r start (Varint.encode_variant len) (variant_length_field start len)

pop-Like : Like as_packet Real.pop Fields.pop
unfolding Real.pop Fields.pop
pop-Like = like (λ r. by_stack r.flexible r.position r.raw r.stack)
  where
    at_stack : ℕ → ℕ → List ℕ → List PushField → RealEncoder
    at_stack flexible position raw stack = record {
      flexible = flexible;
      position = position;
      raw = raw;
      stack = stack;
    }

    by_stack :
        (flexible position : ℕ) (raw : List ℕ) (stack : List PushField)
        → mapped as_packet (Real.pop (at_stack flexible position raw stack))
          ≡ Fields.pop (as_packet (at_stack flexible position raw stack))
    by_stack flexible position raw [] = refl
    by_stack flexible position raw (top ∷ rest) =
        run-filled top (at_stack flexible position raw rest)

pub call_real-Like : (c : Calls.Call) → Like as_packet (Calls.call_real c) (Calls.call_packet c)
unfolding Encoder.put_int8 Encoder.put_int16 Encoder.put_int32 Encoder.put_int64 Encoder.put_float64
    Encoder.put_bool Encoder.put_kerror Encoder.put_duration_ms Strings.put_empty_tagged_field_array
    Real.put_empty_tagged_field_array
call_real-Like (Calls.int8 z) = int8-Like z
call_real-Like (Calls.int16 z) = int16-Like z
call_real-Like (Calls.int32 z) = int32-Like z
call_real-Like (Calls.int64 z) = int64-Like z
call_real-Like (Calls.variant z) = variant-Like z
call_real-Like (Calls.kerror z) = kind-Like (int16-Like z)
call_real-Like (Calls.duration_ms z) = kind-Like (int32-Like (int_of_long z))
call_real-Like (Calls.array_length z) = array_length-Like z
call_real-Like (Calls.uvarint n) = uvarint-Like n
call_real-Like (Calls.float64 n) = kind-Like (int64-Like (signed 64 n))
call_real-Like (Calls.bool b) = kind-Like (int8-Like (if b then pos 1 else pos 0))
call_real-Like (Calls.raw_bytes s) = raw_bytes-Like s
call_real-Like (Calls.bytes s) = bytes-Like s
call_real-Like (Calls.variant_bytes s) = variant_bytes-Like s
call_real-Like (Calls.string s) = string-Like s
call_real-Like (Calls.nullable_string s) = nullable_string-Like s
call_real-Like (Calls.string_array xs) = string_array-Like xs
call_real-Like (Calls.int32_array xs) = int32_array-Like xs
call_real-Like (Calls.nullable_int32_array xs) = nullable_int32_array-Like xs
call_real-Like (Calls.int64_array xs) = int64_array-Like xs
call_real-Like Calls.empty_tagged_field_array =
    version-Like (pure-Like as_packet tt) (uvarint-Like 0)
call_real-Like (Calls.field f) = push-Like f
call_real-Like Calls.end_of_field = bind-Like as_packet pop-Like (λ f. pure-Like as_packet tt)
