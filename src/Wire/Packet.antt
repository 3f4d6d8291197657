-- ===== src/Wire/Packet.antt =====
-- encoder_decoder.cpp of src/coev_kafka: a packet is encoded twice, once to measure it and once to
-- write it, and a packet that is decoded has to be used up.
pub mod RoundTrip
pub mod Mismatch
pub mod Values
pub mod Framed
use coev.Base.{ℕ, zero, suc, ◌+◌, ◌-◌, ◌*◌, ◌%◌, ◌^◌, ltb, ◌==◌, if◌then◌else◌, length}
use coev.Base.{List, [], ◌∷◌, ◌++◌, Option, none, some, Bool, true, false}
use coev.Base.Int.{ℤ, pos, eq_ℤ}
use coev.Wire.Outcome.{Outcome, M, ok, err, fault, stuck, encode_error, decode_error}
use coev.Wire.Encoder.{Encoder, Put, Kind, prep, real}
use coev.Wire.Decoder.{Decoder, Get, decoder, remaining, push_flexible, pop_flexible}
use coev.Wire.Decoder.Strings.{peek_int8}

abbrev pub replicate {ℓ} : {A : Type ℓ} → ℕ → A → List A
replicate zero a = []
replicate (suc n) a = a ∷ replicate n a

-- An encoder with a buffer of n bytes.
abbrev pub encoder : Kind → ℕ → Encoder
encoder kind n = record { kind = kind; flexible = 0; count = 0; raw = replicate n 0; stack = [] }

unfoldable pub enter_flexible : Encoder → Encoder
enter_flexible e = record e { flexible = (e.flexible + 1) % 2 ^ 16 }

-- `finally(pe.__pop_flexible())` runs on every way out; popping at 0 fails its assertion.
unfoldable pub leave_flexible : Outcome Encoder (Unit {0}) → Outcome Encoder (Unit {0})
leave_flexible (ok a e) =
    if e.flexible == 0 then fault else ok a (record e { flexible = e.flexible - 1 })
leave_flexible (err c e) =
    if e.flexible == 0 then fault else err c (record e { flexible = e.flexible - 1 })
leave_flexible fault = fault
leave_flexible stuck = stuck

-- `is_flexible()` of the message is the first argument, its encode function the second.
unfoldable pub prepare_flexible_encoder : Bool → Put → Put
prepare_flexible_encoder true put e = leave_flexible (put (enter_flexible e))
prepare_flexible_encoder false put e = put e

abbrev pub max_request_size : ℕ
max_request_size = 100 * 1024 * 1024

-- The second pass, into a buffer of the size that the first has measured.
unfoldable pub write_measured : Bool → Put → ℕ → M (List ℕ) (Unit {0})
write_measured flexible put size out =
    elim (prepare_flexible_encoder flexible put (encoder real size)) [
      | ok a e ↦ if length out == 0 then ok tt e.raw else ok tt (out ++ e.raw)
      | err c e ↦ err encode_error out
      | fault ↦ fault
      | stuck ↦ stuck
    ]

unfoldable pub encode : Bool → Put → M (List ℕ) (Unit {0})
encode flexible put out = elim (prepare_flexible_encoder flexible put (encoder prep 0)) [
  | ok a e ↦
      if ltb max_request_size e.count
      then err encode_error out
      else write_measured flexible put e.count out
  | err c e ↦ err encode_error out
  | fault ↦ fault
  | stuck ↦ stuck
]

-- What decoding does to the object: `none` leaves it as it was.
abbrev pub Decoded : Type 0 → Type 0
Decoded A = Outcome (Unit {0}) (Option A)

abbrev pub used_up : {A : Type 0} → Outcome Decoder A → Decoded A
used_up (ok a d) = if length d.raw == d.offset then ok (some a) tt else fault
used_up (err c d) = err decode_error tt
used_up fault = fault
used_up stuck = stuck

-- A packet with bytes left over makes `decode` throw.
unfoldable pub decode : {A : Type 0} → List ℕ → Get A → Decoded A
decode [] get = ok none tt
decode (b ∷ buf) get = used_up (get (decoder (b ∷ buf)))

unfoldable pub leave_version : {A : Type 0} → Outcome Decoder A → Outcome Decoder A
leave_version (ok a d) =
    if d.flexible == 0 then fault else ok a (record d { flexible = d.flexible - 1 })
leave_version (err c d) =
    if d.flexible == 0 then fault else err c (record d { flexible = d.flexible - 1 })
leave_version fault = fault
leave_version stuck = stuck

unfoldable pub prepare_flexible_decoder : {A : Type 0} → Bool → Get A → Get A
prepare_flexible_decoder true get d = leave_version (get (push_flexible d))
prepare_flexible_decoder false get d = get d

abbrev pub nothing_left : {A : Type 0} → Outcome Decoder A → Decoded A
nothing_left (ok a d) = if eq_ℤ (remaining d) (pos 0) then ok (some a) tt else err decode_error tt
nothing_left (err c d) = err c tt
nothing_left fault = fault
nothing_left stuck = stuck

unfoldable pub decode_version : {A : Type 0} → Bool → List ℕ → Get A → Decoded A
decode_version flexible [] get = ok none tt
decode_version flexible (b ∷ buf) get =
    nothing_left (prepare_flexible_decoder flexible get (decoder (b ∷ buf)))

unfoldable pub magic_value : Get ℤ
magic_value = peek_int8 16
