-- ===== src/Zoo/Session.antt =====
-- proto.h and proto.cpp of src/coev_zookeeper: connecting, and the headers.
pub mod Travels
use coev.Base.{
  ℕ, List, [], ◌∷◌, take, map, All, ◌<◌, ◌^◌, length, ◌≡◌, refl, sym, ap, ◌∙◌, ◌++◌, append-nil,
}
use coev.Base.Int.{ℤ, pos}
use coev.Zoo.Archive.{Outcome, ok, err, fault, and_then, Call, ◌>>=◌, ◌>>◌, pure}
use coev.Zoo.Archive.{put_int, put_long, put_bool, put_string, put_buffer, put_each}
use coev.Zoo.Archive.{put_vec, get_int, get_long, get_bool, get_string, get_buffer}
use coev.Zoo.Archive.{items, get_vec}

pub record ConnectRequest : Type 0 where
  pub protocol_version : ℤ
  pub last_zxid_seen : ℤ
  pub timeout : ℤ
  pub session_id : ℤ
  pub passwd : List ℕ
  pub read_only : ℤ

unfoldable pub put_connect_request : ConnectRequest → Call (Unit {0})
put_connect_request v = do
  put_int v.protocol_version
  put_long v.last_zxid_seen
  put_int v.timeout
  put_long v.session_id
  put_buffer v.passwd
  put_bool v.read_only

unfoldable pub get_connect_request : Call ConnectRequest
get_connect_request = do
  protocol_version ← get_int
  last_zxid_seen ← get_long
  timeout ← get_int
  session_id ← get_long
  passwd ← get_buffer
  read_only ← get_bool
  pure (record {
    protocol_version = protocol_version;
    last_zxid_seen = last_zxid_seen;
    timeout = timeout;
    session_id = session_id;
    passwd = passwd;
    read_only = read_only;
  })

pub record ConnectResponse : Type 0 where
  pub protocol_version : ℤ
  pub timeout : ℤ
  pub session_id : ℤ
  pub passwd : List ℕ
  pub read_only : ℤ

unfoldable pub put_connect_response : ConnectResponse → Call (Unit {0})
put_connect_response v = do
  put_int v.protocol_version
  put_int v.timeout
  put_long v.session_id
  put_buffer v.passwd
  put_bool v.read_only

unfoldable pub get_connect_response : Call ConnectResponse
get_connect_response = do
  protocol_version ← get_int
  timeout ← get_int
  session_id ← get_long
  passwd ← get_buffer
  read_only ← get_bool
  pure (record {
    protocol_version = protocol_version;
    timeout = timeout;
    session_id = session_id;
    passwd = passwd;
    read_only = read_only;
  })

pub record RequestHeader : Type 0 where
  pub xid : ℤ
  pub kind : ℤ

unfoldable pub put_request_header : RequestHeader → Call (Unit {0})
put_request_header v = do put_int v.xid; put_int v.kind

unfoldable pub get_request_header : Call RequestHeader
get_request_header = do xid ← get_int; kind ← get_int; pure (record { xid = xid; kind = kind })

pub record MultiHeader : Type 0 where
  pub kind : ℤ
  pub done : ℤ
  pub err_code : ℤ

unfoldable pub put_multi_header : MultiHeader → Call (Unit {0})
put_multi_header v = do put_int v.kind; put_bool v.done; put_int v.err_code

unfoldable pub get_multi_header : Call MultiHeader
get_multi_header = do
  kind ← get_int
  done ← get_bool
  err_code ← get_int
  pure (record { kind = kind; done = done; err_code = err_code })

pub record ReplyHeader : Type 0 where
  pub xid : ℤ
  pub zxid : ℤ
  pub err_code : ℤ

unfoldable pub put_reply_header : ReplyHeader → Call (Unit {0})
put_reply_header v = do put_int v.xid; put_long v.zxid; put_int v.err_code

unfoldable pub get_reply_header : Call ReplyHeader
get_reply_header = do
  xid ← get_int
  zxid ← get_long
  err_code ← get_int
  pure (record { xid = xid; zxid = zxid; err_code = err_code })

pub record AuthPacket : Type 0 where
  pub kind : ℤ
  pub scheme : List ℕ
  pub auth : List ℕ

unfoldable pub put_auth_packet : AuthPacket → Call (Unit {0})
put_auth_packet v = do put_int v.kind; put_string v.scheme; put_buffer v.auth

unfoldable pub get_auth_packet : Call AuthPacket
get_auth_packet = do
  kind ← get_int
  scheme ← get_string
  auth ← get_buffer
  pure (record { kind = kind; scheme = scheme; auth = auth })

pub record ErrorResponse : Type 0 where
  pub err_code : ℤ

unfoldable pub put_error_response : ErrorResponse → Call (Unit {0})
put_error_response v = put_int v.err_code

unfoldable pub get_error_response : Call ErrorResponse
get_error_response = do err_code ← get_int; pure (record { err_code = err_code })
