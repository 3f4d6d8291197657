-- ===== src/Wire/Separate/Tests.antt =====
-- Runs of the two classes.
use coev.Base.{true, ℕ, ◌≡◌, arith, List, [], ◌∷◌}
use coev.Base.Int.{pos}
use coev.Wire.Outcome.{ok}
use coev.Wire.Field.{length_field, save_offset, reserve_length}
use coev.Wire.Separate.Prep
use coev.Wire.Separate.Prep.{PrepEncoder}
use coev.Wire.Separate.Real
use coev.Wire.Separate.Real.{RealEncoder}
use coev.Wire.Separate.Calls.{
  int32_array, Call, int16, bool, string, field, end_of_field, call_prep, call_real, calls,
}
use coev.Wire.Separate.Like.{mapped}
use coev.Wire.Separate.Agree.{separate_encoders_agree}

-- A string and a number behind their length.
abbrev framed : List Call
framed =
    field (length_field 0 (pos 0)) ∷ string (104 ∷ 105 ∷ []) ∷ int16 (pos 7) ∷ end_of_field ∷ []

abbrev counting : ℕ → PrepEncoder
counting flexible = record { flexible = flexible; count = 0; stack = [] }

abbrev writing : ℕ → List ℕ → RealEncoder
writing flexible raw = record { flexible = flexible; position = 0; raw = raw; stack = [] }

separate_encoders_agree_example :
    (mapped Prep.as_packet (calls call_prep framed (counting 0))
      ≡ ok tt (Prep.as_packet (record { flexible = 0; count = 10; stack = [] })))
    × (mapped Real.as_packet
          (calls call_real framed (writing 0 (9 ∷ 9 ∷ 9 ∷ 9 ∷ 9 ∷ 9 ∷ 9 ∷ 9 ∷ 9 ∷ 9 ∷ [])))
        ≡ ok tt (
            Real.as_packet (record {
              flexible = 0;
              position = 10;
              raw = 0 ∷ 0 ∷ 0 ∷ 6 ∷ 0 ∷ 2 ∷ 104 ∷ 105 ∷ 0 ∷ 7 ∷ [];
              stack = [];
            })))
unfolding Prep.push Prep.reserve Prep.put_string Prep.pop coev.Wire.Encoder.Fields.push
    coev.Wire.Encoder.Fields.reserve reserve_length coev.Wire.Encoder.Strings.put_string
    coev.Wire.Encoder.put_int16 coev.Wire.Encoder.Fields.pop coev.Wire.Encoder.emit
    coev.Wire.Encoder.Fields.adjust coev.Wire.Encoder.Fields.run save_offset
separate_encoders_agree_example =
    separate_encoders_agree framed framed (counting 0)
      (writing 0 (9 ∷ 9 ∷ 9 ∷ 9 ∷ 9 ∷ 9 ∷ 9 ∷ 9 ∷ 9 ∷ 9 ∷ [])) (tt, (tt, (tt, (tt, tt))))
      (omega arith, (omega arith, (omega arith, (omega arith, tt))))

-- A number, an array of two items, and a Boolean value.
abbrev with_array : List Call
with_array = int16 (pos 3) ∷ int32_array (pos 5 ∷ pos 6 ∷ []) ∷ bool true ∷ []
