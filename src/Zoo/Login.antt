-- ===== src/Zoo/Login.antt =====
-- proto.h and proto.cpp of src/coev_zookeeper: who a client is.
pub mod Travels
use coev.Base.{
  ℕ, List, [], ◌∷◌, take, map, All, ◌<◌, ◌^◌, length, ◌≡◌, refl, sym, ap, ◌∙◌, ◌++◌, append-nil,
}
use coev.Base.Int.{ℤ, pos}
use coev.Zoo.Archive.{Outcome, ok, err, fault, and_then, Call, ◌>>=◌, ◌>>◌, pure}
use coev.Zoo.Archive.{put_int, put_long, put_bool, put_string, put_buffer, put_each}
use coev.Zoo.Archive.{put_vec, get_int, get_long, get_bool, get_string, get_buffer}
use coev.Zoo.Archive.{items, get_vec}
use coev.Zoo.Basic.{ZooId, put_zoo_id, get_zoo_id, Acl, put_acl, get_acl, put_acl_vec}
use coev.Zoo.Basic.{get_acl_vec, Stat, put_stat, get_stat, StatPersisted}
use coev.Zoo.Basic.{put_stat_persisted, get_stat_persisted, ClientInfo}
use coev.Zoo.Basic.{put_client_info, get_client_info, put_client_info_vec}
use coev.Zoo.Basic.{get_client_info_vec, put_id_vec, get_id_vec, put_string_vec}
use coev.Zoo.Basic.{get_string_vec}

pub record GetSaslRequest : Type 0 where
  pub token : List ℕ

unfoldable pub put_get_sasl_request : GetSaslRequest → Call (Unit {0})
put_get_sasl_request v = put_buffer v.token

unfoldable pub get_get_sasl_request : Call GetSaslRequest
get_get_sasl_request = do token ← get_buffer; pure (record { token = token })

pub record SetSaslRequest : Type 0 where
  pub token : List ℕ

unfoldable pub put_set_sasl_request : SetSaslRequest → Call (Unit {0})
put_set_sasl_request v = put_buffer v.token

unfoldable pub get_set_sasl_request : Call SetSaslRequest
get_set_sasl_request = do token ← get_buffer; pure (record { token = token })

pub record SetSaslResponse : Type 0 where
  pub token : List ℕ

unfoldable pub put_set_sasl_response : SetSaslResponse → Call (Unit {0})
put_set_sasl_response v = put_buffer v.token

unfoldable pub get_set_sasl_response : Call SetSaslResponse
get_set_sasl_response = do token ← get_buffer; pure (record { token = token })

pub record WhoAmiResponse : Type 0 where
  pub client_info : List ClientInfo

unfoldable pub put_who_ami_response : WhoAmiResponse → Call (Unit {0})
put_who_ami_response v = put_client_info_vec v.client_info

unfoldable pub get_who_ami_response : Call WhoAmiResponse
get_who_ami_response = do
  client_info ← get_client_info_vec
  pure (record { client_info = client_info })

pub record GetAclRequest : Type 0 where
  pub path : List ℕ

unfoldable pub put_get_acl_request : GetAclRequest → Call (Unit {0})
put_get_acl_request v = put_string v.path

unfoldable pub get_get_acl_request : Call GetAclRequest
get_get_acl_request = do path ← get_string; pure (record { path = path })

pub record GetAclResponse : Type 0 where
  pub acl : List Acl
  pub stat : Stat

unfoldable pub put_get_acl_response : GetAclResponse → Call (Unit {0})
put_get_acl_response v = do put_acl_vec v.acl; put_stat v.stat

unfoldable pub get_get_acl_response : Call GetAclResponse
get_get_acl_response = do
  acl ← get_acl_vec
  stat ← get_stat
  pure (record { acl = acl; stat = stat })

pub record SetAclRequest : Type 0 where
  pub path : List ℕ
  pub acl : List Acl
  pub version : ℤ

unfoldable pub put_set_acl_request : SetAclRequest → Call (Unit {0})
put_set_acl_request v = do put_string v.path; put_acl_vec v.acl; put_int v.version

unfoldable pub get_set_acl_request : Call SetAclRequest
get_set_acl_request = do
  path ← get_string
  acl ← get_acl_vec
  version ← get_int
  pure (record { path = path; acl = acl; version = version })

pub record SetAclResponse : Type 0 where
  pub stat : Stat

unfoldable pub put_set_acl_response : SetAclResponse → Call (Unit {0})
put_set_acl_response v = put_stat v.stat

unfoldable pub get_set_acl_response : Call SetAclResponse
get_set_acl_response = do stat ← get_stat; pure (record { stat = stat })
