-- ===== src/Zoo/Tests.antt =====
-- A message that is written and read.
use coev.Base.{◌<◌, ◌^◌, ◌≡◌, arith, [], ◌∷◌, length}
use coev.Base.Int.{ℤ, pos, negsuc}
use coev.Zoo.Archive.{ok, ◌>>◌, put_int, put_long, put_string, put_buffer}
use coev.Zoo.Basic.{Stat, put_stat}
use coev.Zoo.Node.{put_get_data_response}
use coev.Zoo.Message.{Message, get_data_response, put, get, sent}
use coev.Zoo.Message.RoundTrip.{message_round_trip}

-- The state of a node, with the transactions that made it.
abbrev state : (czxid mzxid : ℤ) → Stat
state czxid mzxid = record {
  czxid = czxid;
  mzxid = mzxid;
  ctime = pos 0;
  mtime = pos 0;
  version = negsuc 0;
  cversion = pos 2;
  aversion = pos 0;
  ephemeral_owner = pos 0;
  data_length = pos 2;
  num_children = pos 0;
  pzxid = pos 0;
}

abbrev answer : Message
answer =
    get_data_response
      (record { data_bytes = 104 ∷ 105 ∷ []; stat = state (pos 4294967301) (pos 7) })

short : length (sent answer) < 2 ^ 31
unfolding put put_get_data_response put_buffer put_string put_stat put_int put_long ◌>>◌
short = omega arith

-- The second number of the state is lost, and all but the upper half of the first.
message_round_trip_example :
    (put answer [] ≡ ok tt (sent answer))
    × (get answer (sent answer)
        ≡ ok
            (get_data_response
              (record { data_bytes = 104 ∷ 105 ∷ []; stat = state (pos 1) (pos 0) }))
            [])
message_round_trip_example = message_round_trip answer ((omega arith, omega arith)) short
