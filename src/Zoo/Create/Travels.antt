-- ===== src/Zoo/Create/Travels.antt =====
-- How the messages of Create travel.
use coev.Base.{[]}
use coev.Zoo.Archive.Rules.{Travels, then-Travels, last-Travels}
use coev.Zoo.Archive.Values.{int32, high, int-Travels, long-Travels}
use coev.Zoo.Archive.Values.{IsText, string-Travels}
use coev.Zoo.Archive.Values.{buffer-Travels}
use coev.Zoo.Create.{CreateRequest, put_create_request, get_create_request}
use coev.Zoo.Create.{CreateTtlRequest, put_create_ttl_request, get_create_ttl_request}
use coev.Zoo.Create.{CreateResponse, put_create_response, get_create_response}
use coev.Zoo.Create.{Create2Response, put_create2_response, get_create2_response}
use coev.Zoo.Basic.Travels.{acl_vec-Travels, read_stat, stat-Travels}

abbrev pub FitCreateRequest : CreateRequest → Type 0
FitCreateRequest v = (IsText v.path) × (IsText v.data_bytes)

abbrev pub read_create_request : CreateRequest → CreateRequest
read_create_request v = record {
  path = v.path;
  data_bytes = v.data_bytes;
  acl = [];
  flags = int32 v.flags;
}

pub create_request-Travels :
    (v : CreateRequest)
    → FitCreateRequest v
    → Travels (put_create_request v) get_create_request (read_create_request v)
unfolding put_create_request get_create_request
create_request-Travels v (h0, h1) = then-Travels _ (string-Travels v.path h0) (
    then-Travels _ (buffer-Travels v.data_bytes h1)
      (then-Travels _ (acl_vec-Travels v.acl) (last-Travels _ (int-Travels v.flags))))

abbrev pub FitCreateTtlRequest : CreateTtlRequest → Type 0
FitCreateTtlRequest v = (IsText v.path) × (IsText v.data_bytes)

abbrev pub read_create_ttl_request : CreateTtlRequest → CreateTtlRequest
read_create_ttl_request v = record {
  path = v.path;
  data_bytes = v.data_bytes;
  acl = [];
  flags = int32 v.flags;
  ttl = high v.ttl;
}

pub create_ttl_request-Travels :
    (v : CreateTtlRequest)
    → FitCreateTtlRequest v
    → Travels (put_create_ttl_request v) get_create_ttl_request (read_create_ttl_request v)
unfolding put_create_ttl_request get_create_ttl_request
create_ttl_request-Travels v (h0, h1) = then-Travels _ (string-Travels v.path h0) (
    then-Travels _ (buffer-Travels v.data_bytes h1) (
      then-Travels _ (acl_vec-Travels v.acl)
        (then-Travels _ (int-Travels v.flags) (last-Travels _ (long-Travels v.ttl)))))

abbrev pub FitCreateResponse : CreateResponse → Type 0
FitCreateResponse v = IsText v.path

pub create_response-Travels :
    (v : CreateResponse)
    → FitCreateResponse v
    → Travels (put_create_response v) get_create_response v
unfolding put_create_response get_create_response
create_response-Travels v h = last-Travels _ (string-Travels v.path h)

abbrev pub FitCreate2Response : Create2Response → Type 0
FitCreate2Response v = IsText v.path

abbrev pub read_create2_response : Create2Response → Create2Response
read_create2_response v = record { path = v.path; stat = read_stat v.stat }

pub create2_response-Travels :
    (v : Create2Response)
    → FitCreate2Response v
    → Travels (put_create2_response v) get_create2_response (read_create2_response v)
unfolding put_create2_response get_create2_response
create2_response-Travels v h =
    then-Travels _ (string-Travels v.path h) (last-Travels _ (stat-Travels v.stat))
