-- ===== src/Zoo/Login/Travels.antt =====
-- How the messages of Login travel.
use coev.Base.{[]}
use coev.Zoo.Archive.Rules.{Travels, then-Travels, last-Travels}
use coev.Zoo.Archive.Values.{int32, int-Travels}
use coev.Zoo.Archive.Values.{IsText, IsVec, string-Travels}
use coev.Zoo.Archive.Values.{buffer-Travels}
use coev.Zoo.Login.{GetSaslRequest, put_get_sasl_request, get_get_sasl_request}
use coev.Zoo.Login.{SetSaslRequest, put_set_sasl_request, get_set_sasl_request}
use coev.Zoo.Login.{SetSaslResponse, put_set_sasl_response, get_set_sasl_response}
use coev.Zoo.Login.{WhoAmiResponse, put_who_ami_response, get_who_ami_response}
use coev.Zoo.Login.{GetAclRequest, put_get_acl_request, get_get_acl_request}
use coev.Zoo.Login.{GetAclResponse, put_get_acl_response, get_get_acl_response}
use coev.Zoo.Login.{SetAclRequest, put_set_acl_request, get_set_acl_request}
use coev.Zoo.Login.{SetAclResponse, put_set_acl_response, get_set_acl_response}
use coev.Zoo.Basic.Travels.{acl_vec-Travels, read_stat, stat-Travels}
use coev.Zoo.Basic.Travels.{FitClientInfo}
use coev.Zoo.Basic.Travels.{client_info_vec-Travels}

abbrev pub FitGetSaslRequest : GetSaslRequest → Type 0
FitGetSaslRequest v = IsText v.token

pub get_sasl_request-Travels :
    (v : GetSaslRequest)
    → FitGetSaslRequest v
    → Travels (put_get_sasl_request v) get_get_sasl_request v
unfolding put_get_sasl_request get_get_sasl_request
get_sasl_request-Travels v h = last-Travels _ (buffer-Travels v.token h)

abbrev pub FitSetSaslRequest : SetSaslRequest → Type 0
FitSetSaslRequest v = IsText v.token

pub set_sasl_request-Travels :
    (v : SetSaslRequest)
    → FitSetSaslRequest v
    → Travels (put_set_sasl_request v) get_set_sasl_request v
unfolding put_set_sasl_request get_set_sasl_request
set_sasl_request-Travels v h = last-Travels _ (buffer-Travels v.token h)

abbrev pub FitSetSaslResponse : SetSaslResponse → Type 0
FitSetSaslResponse v = IsText v.token

pub set_sasl_response-Travels :
    (v : SetSaslResponse)
    → FitSetSaslResponse v
    → Travels (put_set_sasl_response v) get_set_sasl_response v
unfolding put_set_sasl_response get_set_sasl_response
set_sasl_response-Travels v h = last-Travels _ (buffer-Travels v.token h)

abbrev pub FitWhoAmiResponse : WhoAmiResponse → Type 0
FitWhoAmiResponse v = IsVec FitClientInfo v.client_info

pub who_ami_response-Travels :
    (v : WhoAmiResponse)
    → FitWhoAmiResponse v
    → Travels (put_who_ami_response v) get_who_ami_response v
unfolding put_who_ami_response get_who_ami_response
who_ami_response-Travels v h = last-Travels _ (client_info_vec-Travels v.client_info h)

abbrev pub FitGetAclRequest : GetAclRequest → Type 0
FitGetAclRequest v = IsText v.path

pub get_acl_request-Travels :
    (v : GetAclRequest) → FitGetAclRequest v → Travels (put_get_acl_request v) get_get_acl_request v
unfolding put_get_acl_request get_get_acl_request
get_acl_request-Travels v h = last-Travels _ (string-Travels v.path h)

abbrev pub read_get_acl_response : GetAclResponse → GetAclResponse
read_get_acl_response v = record { acl = []; stat = read_stat v.stat }

pub get_acl_response-Travels :
    (v : GetAclResponse)
    → Travels (put_get_acl_response v) get_get_acl_response (read_get_acl_response v)
unfolding put_get_acl_response get_get_acl_response
get_acl_response-Travels v =
    then-Travels _ (acl_vec-Travels v.acl) (last-Travels _ (stat-Travels v.stat))

abbrev pub FitSetAclRequest : SetAclRequest → Type 0
FitSetAclRequest v = IsText v.path

abbrev pub read_set_acl_request : SetAclRequest → SetAclRequest
read_set_acl_request v = record { path = v.path; acl = []; version = int32 v.version }

pub set_acl_request-Travels :
    (v : SetAclRequest)
    → FitSetAclRequest v
    → Travels (put_set_acl_request v) get_set_acl_request (read_set_acl_request v)
unfolding put_set_acl_request get_set_acl_request
set_acl_request-Travels v h =
    then-Travels _ (string-Travels v.path h)
      (then-Travels _ (acl_vec-Travels v.acl) (last-Travels _ (int-Travels v.version)))

abbrev pub read_set_acl_response : SetAclResponse → SetAclResponse
read_set_acl_response v = record { stat = read_stat v.stat }

pub set_acl_response-Travels :
    (v : SetAclResponse)
    → Travels (put_set_acl_response v) get_set_acl_response (read_set_acl_response v)
unfolding put_set_acl_response get_set_acl_response
set_acl_response-Travels v = last-Travels _ (stat-Travels v.stat)
