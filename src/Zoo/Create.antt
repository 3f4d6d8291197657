-- ===== src/Zoo/Create.antt =====
-- proto.h and proto.cpp of src/coev_zookeeper: making nodes.
pub mod Travels
use coev.Base.{
  ℕ, List, [], ◌∷◌, take, map, All, ◌<◌, ◌^◌, length, ◌≡◌, refl, sym, ap, ◌∙◌, ◌++◌, append-nil,
}
use coev.Base.Int.{ℤ, pos}
use coev.Zoo.Archive.{Outcome, ok, err, fault, and_then, Call, ◌>>=◌, ◌>>◌, pure}
use coev.Zoo.Archive.{put_int, put_long, put_bool, put_string, put_buffer, put_each}
use coev.Zoo.Archive.{put_vec, get_int, get_long, get_bool, get_string, get_buffer}
use coev.Zoo.Archive.{items, get_vec}
use coev.Zoo.Basic.{ZooId, put_zoo_id, get_zoo_id, Acl, put_acl, get_acl, put_acl_vec}
use coev.Zoo.Basic.{get_acl_vec, Stat, put_stat, get_stat, StatPersisted}
use coev.Zoo.Basic.{put_stat_persisted, get_stat_persisted, ClientInfo}
use coev.Zoo.Basic.{put_client_info, get_client_info, put_client_info_vec}
use coev.Zoo.Basic.{get_client_info_vec, put_id_vec, get_id_vec, put_string_vec}
use coev.Zoo.Basic.{get_string_vec}

pub record CreateRequest : Type 0 where
  pub path : List ℕ
  pub data_bytes : List ℕ
  pub acl : List Acl
  pub flags : ℤ

unfoldable pub put_create_request : CreateRequest → Call (Unit {0})
put_create_request v = do
  put_string v.path
  put_buffer v.data_bytes
  put_acl_vec v.acl
  put_int v.flags

unfoldable pub get_create_request : Call CreateRequest
get_create_request = do
  path ← get_string
  data_bytes ← get_buffer
  acl ← get_acl_vec
  flags ← get_int
  pure (record { path = path; data_bytes = data_bytes; acl = acl; flags = flags })

pub record CreateTtlRequest : Type 0 where
  pub path : List ℕ
  pub data_bytes : List ℕ
  pub acl : List Acl
  pub flags : ℤ
  pub ttl : ℤ

unfoldable pub put_create_ttl_request : CreateTtlRequest → Call (Unit {0})
put_create_ttl_request v = do
  put_string v.path
  put_buffer v.data_bytes
  put_acl_vec v.acl
  put_int v.flags
  put_long v.ttl

unfoldable pub get_create_ttl_request : Call CreateTtlRequest
get_create_ttl_request = do
  path ← get_string
  data_bytes ← get_buffer
  acl ← get_acl_vec
  flags ← get_int
  ttl ← get_long
  pure (record { path = path; data_bytes = data_bytes; acl = acl; flags = flags; ttl = ttl })

pub record CreateResponse : Type 0 where
  pub path : List ℕ

unfoldable pub put_create_response : CreateResponse → Call (Unit {0})
put_create_response v = put_string v.path

unfoldable pub get_create_response : Call CreateResponse
get_create_response = do path ← get_string; pure (record { path = path })

pub record Create2Response : Type 0 where
  pub path : List ℕ
  pub stat : Stat

unfoldable pub put_create2_response : Create2Response → Call (Unit {0})
put_create2_response v = do put_string v.path; put_stat v.stat

unfoldable pub get_create2_response : Call Create2Response
get_create2_response = do
  path ← get_string
  stat ← get_stat
  pure (record { path = path; stat = stat })
