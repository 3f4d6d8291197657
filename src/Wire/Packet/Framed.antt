-- ===== src/Wire/Packet/Framed.antt =====
-- Packets of a body behind its LengthField, as Request::encode of request.cpp and
-- MessageBlock::encode of message_set.cpp make them.
use coev.Base.{ℕ, ◌+◌, ◌≤◌, ◌≡◌, arith, List, ◌++◌, length, Bool}
use coev.Wire.Outcome.{ok}
use coev.Wire.Format.{big_endian}
use coev.Wire.Encoder.{Put}
use coev.Wire.Encoder.View.{Writes}
use coev.Wire.Encoder.Fields.Framed.{framed, Writes-framed}
use coev.Wire.Packet.{max_request_size, encode}
use coev.Wire.Packet.RoundTrip.{scope, encode-Writes}

-- A body on whose bytes both passes agree, put between push and pop of a LengthField, in a packet
-- of at most 100 MiB, is written behind the four bytes of its length.
pub length_field_written :
    (flexible : Bool) (put : Put) (bs out : List ℕ)
    → Writes (scope flexible) put bs
    → 4 + length bs ≤ max_request_size
    → encode flexible (framed put) out ≡ ok tt (out ++ (big_endian 4 (length bs) ++ bs))
length_field_written flexible put bs out w small =
    encode-Writes flexible (framed put) (big_endian 4 (length bs) ++ bs) out
      (Writes-framed (scope flexible) put bs (omega arith) w) (omega arith)
