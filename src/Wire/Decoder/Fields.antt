-- ===== src/Wire/Decoder/Fields.antt =====
-- push and pop of packet_decoder.cpp, with the checks of length_field.cpp and
-- variant_length_field.cpp.
pub mod Stale
use coev.Base.{◌+◌, if◌then◌else◌, [], ◌∷◌, none, some}
use coev.Base.Int.{pos, sub_ℕ, eq_ℤ}
use coev.Wire.Outcome.{ok, err, fault, stuck, ◌>>=◌, ◌>>◌}
use coev.Wire.Outcome.{unknown, packet_decoding_error}
use coev.Wire.Field.{PushField, length_field, variant_length_field, reserve_length}
use coev.Wire.Decoder.{Get, need, skip}
use coev.Wire.Decoder.Varint.{get_variant}

unfoldable pub push_stack : PushField → Get (Unit {0})
push_stack f d = ok tt (record d { stack = f ∷ d.stack })

-- A LengthField is no dynamicPushDecoder: its bytes are skipped, its m_length stays what it was.
unfoldable pub push : PushField → Get (Unit {0})
push (length_field _ len) d = need (pos 4) (do push_stack (length_field d.offset len); skip 4) d
push (variant_length_field _ _) d =
    (do val ← get_variant; push_stack (variant_length_field d.offset val)) d

-- `check` of the field, at the offset reached.
unfoldable pub check : PushField → Get PushField
check (length_field start len) d =
    if eq_ℤ (sub_ℕ d.offset (start + 4)) len
    then ok (length_field start len) d
    else err packet_decoding_error d
check (variant_length_field start len) d = elim (reserve_length (variant_length_field start len)) [
  | none ↦ stuck
  | some n ↦
      if eq_ℤ (sub_ℕ d.offset (start + n)) len
      then ok (variant_length_field start len) d
      else err unknown d
]

-- The field, with what it holds, is the caller's again.
unfoldable pub pop : Get PushField
pop d = elim d.stack [ [] ↦ fault | f ∷ rest ↦ check f (record d { stack = rest }) ]
