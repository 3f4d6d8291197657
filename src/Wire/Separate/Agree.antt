-- ===== src/Wire/Separate/Agree.antt =====
-- The two classes of prep_encoder.cpp and real_encoder.cpp against the one of packet_encoder.cpp.
use coev.Base.{◌<◌, ◌^◌, List, [], ◌∷◌, All, ◌≡◌}
use coev.Wire.Outcome.{ok, err, fault, stuck}
use coev.Wire.Separate.Prep
use coev.Wire.Separate.Real
use coev.Wire.Separate.Calls.{Call, call_prep, call_real, call_packet, calls}
use coev.Wire.Separate.Like.{Like, mapped, same, then-Like, pure-Like}
use coev.Wire.Separate.Counts.Every.{IsShared, call_prep-Like}
use coev.Wire.Separate.Writes.Every.{call_real-Like}

calls_prep-Like :
    (cs : List Call)
    → All IsShared cs
    → Like Prep.as_packet (calls call_prep cs) (calls call_packet cs)
calls_prep-Like [] h = pure-Like Prep.as_packet tt
calls_prep-Like (c ∷ cs) (h, hs) =
    then-Like Prep.as_packet (call_prep-Like c h) (calls_prep-Like cs hs)

calls_real-Like : (cs : List Call) → Like Real.as_packet (calls call_real cs) (calls call_packet cs)
calls_real-Like [] = pure-Like Real.as_packet tt
calls_real-Like (c ∷ cs) = then-Like Real.as_packet (call_real-Like c) (calls_real-Like cs)

-- After each of the calls, m_length of prep_encoder is an int. It is added to only once where it may get
-- smaller, in pop, so that it is one within the calls as well.
abbrev pub IsCounted : List Call → Prep.PrepEncoder → Type 0
IsCounted [] p = Unit {0}
IsCounted (c ∷ cs) p = elim (call_prep c p) [
  | ok a q ↦ (q.count < 2 ^ 31) × IsCounted cs q
  | err code q ↦ q.count < 2 ^ 31
  | fault ↦ Unit {0}
  | stuck ↦ Unit {0}
]

-- Any calls cs without putInt32Array, after each of which the count is below 2 ^ 31 in prep_encoder, one
-- after the other until one returns an error, come to the same code, count, flexible scopes and
-- stack in prep_encoder as in packet_encoder in PREP; any calls ds come to the same code, offset,
-- buffer, flexible scopes and stack in real_encoder, or fail there, as in packet_encoder in REAL.
pub separate_encoders_agree :
    (cs ds : List Call) (p : Prep.PrepEncoder) (r : Real.RealEncoder)
    → All IsShared cs
    → IsCounted cs p
    → (mapped Prep.as_packet (calls call_prep cs p) ≡ calls call_packet cs (Prep.as_packet p))
      × (mapped Real.as_packet (calls call_real ds r) ≡ calls call_packet ds (Real.as_packet r))
separate_encoders_agree cs ds p r h b = (same (calls_prep-Like cs h) p, same (calls_real-Like ds) r)
