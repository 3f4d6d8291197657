-- ===== src/Zoo/Node.antt =====
-- proto.h and proto.cpp of src/coev_zookeeper: the data of nodes.
pub mod Travels
pub mod Empty
use coev.Base.{
  ℕ, List, [], ◌∷◌, take, map, All, ◌<◌, ◌^◌, length, ◌≡◌, refl, sym, ap, ◌∙◌, ◌++◌, append-nil,
}
use coev.Base.Int.{ℤ, pos}
use coev.Zoo.Archive.{Outcome, ok, err, fault, and_then, Call, ◌>>=◌, ◌>>◌, pure}
use coev.Zoo.Archive.{put_int, put_long, put_bool, put_string, put_buffer, put_each}
use coev.Zoo.Archive.{put_vec, get_int, get_long, get_bool, get_string, get_buffer}
use coev.Zoo.Archive.{items, get_vec}
use coev.Zoo.Basic.{ZooId, put_zoo_id, get_zoo_id, Acl, put_acl, get_acl, put_acl_vec}
use coev.Zoo.Basic.{get_acl_vec, Stat, put_stat, get_stat, StatPersisted}
use coev.Zoo.Basic.{put_stat_persisted, get_stat_persisted, ClientInfo}
use coev.Zoo.Basic.{put_client_info, get_client_info, put_client_info_vec}
use coev.Zoo.Basic.{get_client_info_vec, put_id_vec, get_id_vec, put_string_vec}
use coev.Zoo.Basic.{get_string_vec}

pub record GetDataRequest : Type 0 where
  pub path : List ℕ
  pub watch : ℤ

unfoldable pub put_get_data_request : GetDataRequest → Call (Unit {0})
put_get_data_request v = do put_string v.path; put_bool v.watch

unfoldable pub get_get_data_request : Call GetDataRequest
get_get_data_request = do
  path ← get_string
  watch ← get_bool
  pure (record { path = path; watch = watch })

pub record GetDataResponse : Type 0 where
  pub data_bytes : List ℕ
  pub stat : Stat

unfoldable pub put_get_data_response : GetDataResponse → Call (Unit {0})
put_get_data_response v = do put_buffer v.data_bytes; put_stat v.stat

unfoldable pub get_get_data_response : Call GetDataResponse
get_get_data_response = do
  data_bytes ← get_buffer
  stat ← get_stat
  pure (record { data_bytes = data_bytes; stat = stat })

pub record SetDataRequest : Type 0 where
  pub path : List ℕ
  pub data_bytes : List ℕ
  pub version : ℤ

unfoldable pub put_set_data_request : SetDataRequest → Call (Unit {0})
put_set_data_request v = do put_string v.path; put_buffer v.data_bytes; put_int v.version

unfoldable pub get_set_data_request : Call SetDataRequest
get_set_data_request = do
  path ← get_string
  data_bytes ← get_buffer
  version ← get_int
  pure (record { path = path; data_bytes = data_bytes; version = version })

pub record SetDataResponse : Type 0 where
  pub stat : Stat

unfoldable pub put_set_data_response : SetDataResponse → Call (Unit {0})
put_set_data_response v = put_stat v.stat

unfoldable pub get_set_data_response : Call SetDataResponse
get_set_data_response = do stat ← get_stat; pure (record { stat = stat })

pub record DeleteRequest : Type 0 where
  pub path : List ℕ
  pub version : ℤ

unfoldable pub put_delete_request : DeleteRequest → Call (Unit {0})
put_delete_request v = do put_string v.path; put_int v.version

unfoldable pub get_delete_request : Call DeleteRequest
get_delete_request = do
  path ← get_string
  version ← get_int
  pure (record { path = path; version = version })

pub record ExistsRequest : Type 0 where
  pub path : List ℕ
  pub watch : ℤ

unfoldable pub put_exists_request : ExistsRequest → Call (Unit {0})
put_exists_request v = do put_string v.path; put_bool v.watch

unfoldable pub get_exists_request : Call ExistsRequest
get_exists_request = do
  path ← get_string
  watch ← get_bool
  pure (record { path = path; watch = watch })

pub record ExistsResponse : Type 0 where
  pub stat : Stat

unfoldable pub put_exists_response : ExistsResponse → Call (Unit {0})
put_exists_response v = put_stat v.stat

unfoldable pub get_exists_response : Call ExistsResponse
get_exists_response = do stat ← get_stat; pure (record { stat = stat })

pub record CheckVersionRequest : Type 0 where
  pub path : List ℕ
  pub version : ℤ

unfoldable pub put_check_version_request : CheckVersionRequest → Call (Unit {0})
put_check_version_request v = do put_string v.path; put_int v.version

unfoldable pub get_check_version_request : Call CheckVersionRequest
get_check_version_request = do
  path ← get_string
  version ← get_int
  pure (record { path = path; version = version })

pub record SyncRequest : Type 0 where
  pub path : List ℕ

unfoldable pub put_sync_request : SyncRequest → Call (Unit {0})
put_sync_request v = put_string v.path

unfoldable pub get_sync_request : Call SyncRequest
get_sync_request = do path ← get_string; pure (record { path = path })

pub record SyncResponse : Type 0 where
  pub path : List ℕ

unfoldable pub put_sync_response : SyncResponse → Call (Unit {0})
put_sync_response v = put_string v.path

unfoldable pub get_sync_response : Call SyncResponse
get_sync_response = do path ← get_string; pure (record { path = path })

pub record ReconfigRequest : Type 0 where
  pub joining_servers : List ℕ
  pub leaving_servers : List ℕ
  pub new_members : List ℕ
  pub cur_config_id : ℤ

unfoldable pub put_reconfig_request : ReconfigRequest → Call (Unit {0})
put_reconfig_request v = do
  put_string v.joining_servers
  put_string v.leaving_servers
  put_string v.new_members
  put_long v.cur_config_id

unfoldable pub get_reconfig_request : Call ReconfigRequest
get_reconfig_request = do
  joining_servers ← get_string
  leaving_servers ← get_string
  new_members ← get_string
  cur_config_id ← get_long
  pure (record {
    joining_servers = joining_servers;
    leaving_servers = leaving_servers;
    new_members = new_members;
    cur_config_id = cur_config_id;
  })
