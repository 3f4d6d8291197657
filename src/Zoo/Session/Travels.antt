-- ===== src/Zoo/Session/Travels.antt =====
-- How the messages of Session travel.
use coev.Zoo.Archive.Rules.{Travels, then-Travels, last-Travels}
use coev.Zoo.Archive.Values.{int32, high, flag, int-Travels, long-Travels}
use coev.Zoo.Archive.Values.{bool-Travels, IsText, string-Travels}
use coev.Zoo.Archive.Values.{buffer-Travels}
use coev.Zoo.Session.{ConnectRequest, put_connect_request, get_connect_request}
use coev.Zoo.Session.{ConnectResponse, put_connect_response, get_connect_response}
use coev.Zoo.Session.{RequestHeader, put_request_header, get_request_header}
use coev.Zoo.Session.{MultiHeader, put_multi_header, get_multi_header, ReplyHeader}
use coev.Zoo.Session.{put_reply_header, get_reply_header, AuthPacket, put_auth_packet}
use coev.Zoo.Session.{get_auth_packet, ErrorResponse, put_error_response}
use coev.Zoo.Session.{get_error_response}

abbrev pub FitConnectRequest : ConnectRequest → Type 0
FitConnectRequest v = IsText v.passwd

abbrev pub read_connect_request : ConnectRequest → ConnectRequest
read_connect_request v = record {
  protocol_version = int32 v.protocol_version;
  last_zxid_seen = high v.last_zxid_seen;
  timeout = int32 v.timeout;
  session_id = high v.session_id;
  passwd = v.passwd;
  read_only = flag v.read_only;
}

pub connect_request-Travels :
    (v : ConnectRequest)
    → FitConnectRequest v
    → Travels (put_connect_request v) get_connect_request (read_connect_request v)
unfolding put_connect_request get_connect_request
connect_request-Travels v h = then-Travels _ (int-Travels v.protocol_version) (
    then-Travels _ (long-Travels v.last_zxid_seen) (
      then-Travels _ (int-Travels v.timeout) (
        then-Travels _ (long-Travels v.session_id) (
          then-Travels _ (buffer-Travels v.passwd h) (last-Travels _ (bool-Travels v.read_only))))))

abbrev pub FitConnectResponse : ConnectResponse → Type 0
FitConnectResponse v = IsText v.passwd

abbrev pub read_connect_response : ConnectResponse → ConnectResponse
read_connect_response v = record {
  protocol_version = int32 v.protocol_version;
  timeout = int32 v.timeout;
  session_id = high v.session_id;
  passwd = v.passwd;
  read_only = flag v.read_only;
}

pub connect_response-Travels :
    (v : ConnectResponse)
    → FitConnectResponse v
    → Travels (put_connect_response v) get_connect_response (read_connect_response v)
unfolding put_connect_response get_connect_response
connect_response-Travels v h = then-Travels _ (int-Travels v.protocol_version) (
    then-Travels _ (int-Travels v.timeout) (
      then-Travels _ (long-Travels v.session_id)
        (then-Travels _ (buffer-Travels v.passwd h) (last-Travels _ (bool-Travels v.read_only)))))

abbrev pub read_request_header : RequestHeader → RequestHeader
read_request_header v = record { xid = int32 v.xid; kind = int32 v.kind }

pub request_header-Travels :
    (v : RequestHeader) → Travels (put_request_header v) get_request_header (read_request_header v)
unfolding put_request_header get_request_header
request_header-Travels v = then-Travels _ (int-Travels v.xid) (last-Travels _ (int-Travels v.kind))

abbrev pub read_multi_header : MultiHeader → MultiHeader
read_multi_header v = record {
  kind = int32 v.kind;
  done = flag v.done;
  err_code = int32 v.err_code;
}

pub multi_header-Travels :
    (v : MultiHeader) → Travels (put_multi_header v) get_multi_header (read_multi_header v)
unfolding put_multi_header get_multi_header
multi_header-Travels v =
    then-Travels _ (int-Travels v.kind)
      (then-Travels _ (bool-Travels v.done) (last-Travels _ (int-Travels v.err_code)))

abbrev pub read_reply_header : ReplyHeader → ReplyHeader
read_reply_header v = record { xid = int32 v.xid; zxid = high v.zxid; err_code = int32 v.err_code }

pub reply_header-Travels :
    (v : ReplyHeader) → Travels (put_reply_header v) get_reply_header (read_reply_header v)
unfolding put_reply_header get_reply_header
reply_header-Travels v =
    then-Travels _ (int-Travels v.xid)
      (then-Travels _ (long-Travels v.zxid) (last-Travels _ (int-Travels v.err_code)))

abbrev pub FitAuthPacket : AuthPacket → Type 0
FitAuthPacket v = (IsText v.scheme) × (IsText v.auth)

abbrev pub read_auth_packet : AuthPacket → AuthPacket
read_auth_packet v = record { kind = int32 v.kind; scheme = v.scheme; auth = v.auth }

pub auth_packet-Travels :
    (v : AuthPacket)
    → FitAuthPacket v
    → Travels (put_auth_packet v) get_auth_packet (read_auth_packet v)
unfolding put_auth_packet get_auth_packet
auth_packet-Travels v (h0, h1) =
    then-Travels _ (int-Travels v.kind)
      (then-Travels _ (string-Travels v.scheme h0) (last-Travels _ (buffer-Travels v.auth h1)))

abbrev pub read_error_response : ErrorResponse → ErrorResponse
read_error_response v = record { err_code = int32 v.err_code }

pub error_response-Travels :
    (v : ErrorResponse) → Travels (put_error_response v) get_error_response (read_error_response v)
unfolding put_error_response get_error_response
error_response-Travels v = last-Travels _ (int-Travels v.err_code)
