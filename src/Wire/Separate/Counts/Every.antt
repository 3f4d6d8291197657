-- ===== src/Wire/Separate/Counts/Every.antt =====
-- The fields of length of prep_encoder, and every call of it.
use coev.Base.{ℕ, ◌+◌, ◌≡◌, refl}
use coev.Base.{List, [], ◌∷◌, Option, none, some}
use coev.Base.Int.{ℤ, sub_ℕ}
use coev.Wire.Outcome.{M, stuck, pure, ◌>>=◌}
use coev.Wire.Field.{PushField, length_field, variant_length_field, save_offset, reserve_length}
use coev.Wire.Encoder
use coev.Wire.Encoder.{Put}
use coev.Wire.Encoder.Strings
use coev.Wire.Encoder.Fields
use coev.Wire.Separate.Prep
use coev.Wire.Separate.Prep.{PrepEncoder, PrepPut, as_packet}
use coev.Wire.Separate.Calls
use coev.Wire.Separate.Like.{mapped, Like, like, pure-Like, bind-Like}
use coev.Wire.Separate.Counts.{
  version-Like, uvarint-Like, variant-Like, array_length-Like, raw_bytes-Like, bytes-Like,
  variant_bytes-Like, string-Like, nullable_string-Like, string_array-Like,
  nullable_int32_array-Like, int64_array-Like,
}

push-Like : (f : PushField) → Like as_packet (Prep.push f) (Fields.push f)
unfolding Prep.push Fields.push Prep.reserve Fields.reserve
push-Like f = like (λ p. either p (save_offset p.count f) (reserve_length f))
  where
    either :
        (p : PrepEncoder) (g : PushField) (o : Option ℕ)
        → mapped as_packet (Prep.reserve g o p) ≡ Fields.reserve g o (as_packet p)
    either p g none = refl
    either p g (some n) = refl

-- The new length of a field changes m_length only.
adjusted-counted :
    (p : PrepEncoder) (start : ℕ) (len : ℤ) (old : ℕ) (o : Option ℕ)
    → mapped as_packet (Prep.counted p (Fields.adjusted start len old o (as_packet p)))
      ≡ (do f ← Fields.adjusted start len old o; pure (some f)) (as_packet p)
adjusted-counted p start len old none = refl
adjusted-counted p start len old (some n) = refl

adjust-counted :
    (f : PushField) (p : PrepEncoder)
    → mapped as_packet (Prep.counted p (Fields.adjust f (as_packet p)))
      ≡ (do g ← Fields.adjust f; pure (some g)) (as_packet p)
unfolding Fields.adjust
adjust-counted (length_field start len) p = refl
adjust-counted (variant_length_field start len) p =
    by_size (reserve_length (variant_length_field start len))
  where
    new : ℕ → M Encoder.Encoder PushField
    new old =
        let len' = sub_ℕ p.count (start + old) in
        Fields.adjusted start len' old (reserve_length (variant_length_field start len'))

    by_size :
        (o : Option ℕ)
        → mapped as_packet
            (Prep.counted p (elim o [ none ↦ stuck | some old ↦ new old (as_packet p) ]))
          ≡ (do
            g ← (λ (e : Encoder.Encoder). elim o [ none ↦ stuck | some old ↦ new old e ])
            pure (some g))
              (as_packet p)
    by_size none = refl
    by_size (some old) =
        let len' = sub_ℕ p.count (start + old) in
        adjusted-counted p start len' old (reserve_length (variant_length_field start len'))

pop-Like : Like as_packet Prep.pop Fields.pop
unfolding Prep.pop Fields.pop
pop-Like = like (λ p. by_stack p.flexible p.count p.stack)
  where
    by_stack :
        (flexible count : ℕ) (stack : List PushField)
        → mapped as_packet (Prep.pop (record { flexible = flexible; count = count; stack = stack }))
          ≡ Fields.pop (as_packet (record { flexible = flexible; count = count; stack = stack }))
    by_stack flexible count [] = refl
    by_stack flexible count (top ∷ rest) =
        adjust-counted top (record { flexible = flexible; count = count; stack = rest })

-- Every call but putInt32Array.
abbrev pub IsShared : Calls.Call → Type 0
IsShared (Calls.int32_array xs) = ⊥
IsShared _ = Unit {0}

pub call_prep-Like :
    (c : Calls.Call) → IsShared c → Like as_packet (Calls.call_prep c) (Calls.call_packet c)
unfolding Encoder.put_int8 Encoder.put_int16 Encoder.put_int32 Encoder.put_int64 Encoder.put_float64
    Encoder.put_bool Encoder.put_kerror Encoder.put_duration_ms Strings.put_empty_tagged_field_array
    Prep.put_empty_tagged_field_array
call_prep-Like (Calls.int8 z) h = like (λ p. refl)
call_prep-Like (Calls.int16 z) h = like (λ p. refl)
call_prep-Like (Calls.int32 z) h = like (λ p. refl)
call_prep-Like (Calls.int64 z) h = like (λ p. refl)
call_prep-Like (Calls.variant z) h = variant-Like z
call_prep-Like (Calls.kerror z) h = like (λ p. refl)
call_prep-Like (Calls.duration_ms z) h = like (λ p. refl)
call_prep-Like (Calls.array_length z) h = array_length-Like z
call_prep-Like (Calls.uvarint n) h = uvarint-Like n
call_prep-Like (Calls.float64 n) h = like (λ p. refl)
call_prep-Like (Calls.bool b) h = like (λ p. refl)
call_prep-Like (Calls.raw_bytes s) h = raw_bytes-Like s
call_prep-Like (Calls.bytes s) h = bytes-Like s
call_prep-Like (Calls.variant_bytes s) h = variant_bytes-Like s
call_prep-Like (Calls.string s) h = string-Like s
call_prep-Like (Calls.nullable_string s) h = nullable_string-Like s
call_prep-Like (Calls.string_array xs) h = string_array-Like xs
call_prep-Like (Calls.int32_array xs) h = absurd h
call_prep-Like (Calls.nullable_int32_array xs) h = nullable_int32_array-Like xs
call_prep-Like (Calls.int64_array xs) h = int64_array-Like xs
call_prep-Like Calls.empty_tagged_field_array h =
    version-Like (pure-Like as_packet tt) (uvarint-Like 0)
call_prep-Like (Calls.field f) h = push-Like f
call_prep-Like Calls.end_of_field h = bind-Like as_packet pop-Like (λ f. pure-Like as_packet tt)
