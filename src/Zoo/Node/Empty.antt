-- ===== src/Zoo/Node/Empty.antt =====
-- A node without data.
use coev.Base.{[]}
use coev.Zoo.Basic.{Stat}
use coev.Zoo.Message.{Message, get_data_response}

abbrev pub without_data : Stat → Message
without_data s = get_data_response (record { data_bytes = []; stat = s })
