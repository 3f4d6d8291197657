-- ===== src/Wire/Encoder/Fields.antt =====
-- push and pop of packet_encoder.cpp, with what length_field.cpp and variant_length_field.cpp of
-- src/coev_kafka do in each.
pub mod Framed
use coev.Base.{ℕ, ◌+◌, ◌-◌, ◌/◌, ◌^◌, bit_and, leb, if◌then◌else◌}
use coev.Base.{List, [], ◌∷◌, Option, none, some, length}
use coev.Base.Int.{ℤ, sub_ℕ, unsigned}
use coev.Wire.Outcome.{M, ok, err, fault, stuck, pure, ◌>>=◌, unknown}
use coev.Wire.Field.{PushField, length_field, variant_length_field, save_offset, reserve_length}
use coev.Wire.Encoder.{Encoder, Put, by_kind, splice}
use coev.Wire.Encoder.Varint.{encode_variant}

unfoldable pub reserve : PushField → Option ℕ → Put
reserve f none e = stuck
reserve f (some n) e = ok tt (record e { count = e.count + n; stack = f ∷ e.stack })

-- In REAL the reserved bytes have to fit the buffer.
unfoldable pub push : PushField → Put
push f =
    by_kind (λ e. reserve (save_offset e.count f) (reserve_length f) e)
      (λ e. elim (reserve_length f) [
        | none ↦ stuck
        | some n ↦
            if leb (e.count + n) (length e.raw)
            then reserve (save_offset e.count f) (some n) e
            else fault
      ])

-- The bytes that `run` writes at the offset of the field.
abbrev pub store : ℕ → List ℕ → PushField → M Encoder PushField
store at bs f e =
    if leb (at + length bs) (length e.raw)
    then ok f (record e { raw = splice at bs e.raw })
    else fault

-- `uint32_t val = cur_offset - m_start_offset - 4`
abbrev pub length_value : ℕ → ℕ → ℕ
length_value count start = unsigned 32 (sub_ℕ count (start + 4))

abbrev pub length_bytes : ℕ → List ℕ
length_bytes val =
    bit_and (val / 2 ^ 24) 0xff
    ∷ bit_and (val / 2 ^ 16) 0xff
    ∷ bit_and (val / 2 ^ 8) 0xff
    ∷ bit_and val 0xff
    ∷ []

unfoldable pub run : PushField → M Encoder PushField
run (length_field start len) e =
    store start (length_bytes (length_value e.count start)) (length_field start len) e
run (variant_length_field start len) e =
    store start (encode_variant len) (variant_length_field start len) e

-- adjust_length: the new length, and what its size adds to m_length.
abbrev pub adjusted : ℕ → ℤ → ℕ → Option ℕ → M Encoder PushField
adjusted start len old none e = stuck
adjusted start len old (some new) e =
    ok (variant_length_field start len) (record e { count = e.count + new - old })

unfoldable pub adjust : PushField → M Encoder PushField
adjust (length_field start len) e = ok (length_field start len) e
adjust (variant_length_field start len) e = elim (reserve_length (variant_length_field start len)) [
  | none ↦ stuck
  | some old ↦
      let len' = sub_ℕ e.count (start + old) in
      adjusted start len' old (reserve_length (variant_length_field start len')) e
]

abbrev pub popped : (PushField → M Encoder PushField) → M Encoder (Option PushField)
popped f e = elim e.stack [
  | [] ↦ ok none e
  | top ∷ rest ↦ (do field ← f top; pure (some field)) (record e { stack = rest })
]

-- The field, with what it holds, is the caller's again; REAL ignores an empty stack.
unfoldable pub pop : M Encoder (Option PushField)
pop = by_kind (λ e. elim e.stack [ [] ↦ err unknown e | top ∷ rest ↦ popped adjust e ]) (popped run)
