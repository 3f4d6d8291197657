-- ===== src/Wire/Decoder/Tagged.antt =====
-- The tagged fields of packet_decoder.cpp.
pub mod Behind
use coev.Base.{ℕ, zero, suc, ◌==◌, if◌then◌else◌, List, [], ◌∷◌, Option, none, some}
use coev.Base.Int.{int_of_size}
use coev.Wire.Outcome.{Outcome, ok, err, fault, stuck, pure, fail, ◌>>=◌, ◌>>◌}
use coev.Wire.Outcome.{tagged_fields_in_non_flexible_context}
use coev.Wire.Decoder.{Decoder, Get, push_flexible, pop_flexible}
use coev.Wire.Decoder.Varint.{get_uvariant}
use coev.Wire.Decoder.Strings.{by_version, get_raw_bytes}

-- One tag, its length and the bytes that it holds.
unfoldable pub skip_tag : Get ℕ
skip_tag = do
  id ← get_uvariant
  length ← get_uvariant
  bytes ← get_raw_bytes (int_of_size length)
  pure id

-- `for (i = 0; i < tag_count; i++)`
unfoldable pub skip_tags : ℕ → Get (Unit {0})
skip_tags zero = pure tt
skip_tags (suc n) = do id ← skip_tag; skip_tags n

unfoldable pub get_empty_tagged_field_array : Get (Unit {0})
get_empty_tagged_field_array = by_version (pure tt) (do n ← get_uvariant; skip_tags n)

-- The map from tags to the functions that decode them.
abbrev pub Decoders : Type 0
Decoders = List (ℕ × Get (Unit {0}))

unfoldable pub find_decoder : ℕ → Decoders → Option (Get (Unit {0}))
find_decoder id [] = none
find_decoder id ((key, f) ∷ rest) = if key == id then some f else find_decoder id rest

-- `__push_flexible(); finally(__pop_flexible()); err = decoder(*this);`: the version is popped on
-- every way out of the scope.
abbrev pub leave : Outcome Decoder (Unit {0}) → Outcome Decoder (Unit {0})
leave (ok a d) = pop_flexible d
leave (err c d) = elim (pop_flexible d) [
  | ok a d' ↦ err c d'
  | err c' d' ↦ fault
  | fault ↦ fault
  | stuck ↦ stuck
]
leave fault = fault
leave stuck = stuck

unfoldable pub run_decoder : Option (Get (Unit {0})) → Get (Unit {0})
run_decoder none d = pure tt d
run_decoder (some decode) d = leave (decode (push_flexible d))

unfoldable pub decode_tags : Decoders → ℕ → Get (Unit {0})
decode_tags decoders zero = pure tt
decode_tags decoders (suc n) = do
  id ← skip_tag
  run_decoder (find_decoder id decoders)
  decode_tags decoders n

unfoldable pub get_tagged_field_array : Decoders → Get (Unit {0})
get_tagged_field_array [] =
    by_version (fail tagged_fields_in_non_flexible_context) get_empty_tagged_field_array
get_tagged_field_array (entry ∷ decoders) =
    by_version (fail tagged_fields_in_non_flexible_context)
      (do n ← get_uvariant; decode_tags (entry ∷ decoders) n)
