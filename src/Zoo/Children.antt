-- ===== src/Zoo/Children.antt =====
-- proto.h and proto.cpp of src/coev_zookeeper: the children of nodes.
pub mod Travels
use coev.Base.{
  ℕ, List, [], ◌∷◌, take, map, All, ◌<◌, ◌^◌, length, ◌≡◌, refl, sym, ap, ◌∙◌, ◌++◌, append-nil,
}
use coev.Base.Int.{ℤ, pos}
use coev.Zoo.Archive.{Outcome, ok, err, fault, and_then, Call, ◌>>=◌, ◌>>◌, pure}
use coev.Zoo.Archive.{put_int, put_long, put_bool, put_string, put_buffer, put_each}
use coev.Zoo.Archive.{put_vec, get_int, get_long, get_bool, get_string, get_buffer}
use coev.Zoo.Archive.{items, get_vec}
use coev.Zoo.Basic.{ZooId, put_zoo_id, get_zoo_id, Acl, put_acl, get_acl, put_acl_vec}
use coev.Zoo.Basic.{get_acl_vec, Stat, put_stat, get_stat, StatPersisted}
use coev.Zoo.Basic.{put_stat_persisted, get_stat_persisted, ClientInfo}
use coev.Zoo.Basic.{put_client_info, get_client_info, put_client_info_vec}
use coev.Zoo.Basic.{get_client_info_vec, put_id_vec, get_id_vec, put_string_vec}
use coev.Zoo.Basic.{get_string_vec}

pub record GetChildrenRequest : Type 0 where
  pub path : List ℕ
  pub watch : ℤ

unfoldable pub put_get_children_request : GetChildrenRequest → Call (Unit {0})
put_get_children_request v = do put_string v.path; put_bool v.watch

unfoldable pub get_get_children_request : Call GetChildrenRequest
get_get_children_request = do
  path ← get_string
  watch ← get_bool
  pure (record { path = path; watch = watch })

pub record GetChildrenResponse : Type 0 where
  pub children : List (List ℕ)

unfoldable pub put_get_children_response : GetChildrenResponse → Call (Unit {0})
put_get_children_response v = put_string_vec v.children

unfoldable pub get_get_children_response : Call GetChildrenResponse
get_get_children_response = do children ← get_string_vec; pure (record { children = children })

pub record GetChildren2Request : Type 0 where
  pub path : List ℕ
  pub watch : ℤ

unfoldable pub put_get_children2_request : GetChildren2Request → Call (Unit {0})
put_get_children2_request v = do put_string v.path; put_bool v.watch

unfoldable pub get_get_children2_request : Call GetChildren2Request
get_get_children2_request = do
  path ← get_string
  watch ← get_bool
  pure (record { path = path; watch = watch })

pub record GetChildren2Response : Type 0 where
  pub children : List (List ℕ)
  pub stat : Stat

unfoldable pub put_get_children2_response : GetChildren2Response → Call (Unit {0})
put_get_children2_response v = do put_string_vec v.children; put_stat v.stat

unfoldable pub get_get_children2_response : Call GetChildren2Response
get_get_children2_response = do
  children ← get_string_vec
  stat ← get_stat
  pure (record { children = children; stat = stat })

pub record GetAllChildrenNumberRequest : Type 0 where
  pub path : List ℕ

unfoldable pub put_get_all_children_number_request : GetAllChildrenNumberRequest → Call (Unit {0})
put_get_all_children_number_request v = put_string v.path

unfoldable pub get_get_all_children_number_request : Call GetAllChildrenNumberRequest
get_get_all_children_number_request = do path ← get_string; pure (record { path = path })

pub record GetAllChildrenNumberResponse : Type 0 where
  pub total_number : ℤ

unfoldable pub put_get_all_children_number_response : GetAllChildrenNumberResponse → Call (Unit {0})
put_get_all_children_number_response v = put_int v.total_number

unfoldable pub get_get_all_children_number_response : Call GetAllChildrenNumberResponse
get_get_all_children_number_response = do
  total_number ← get_int
  pure (record { total_number = total_number })

pub record GetMaxChildrenRequest : Type 0 where
  pub path : List ℕ

unfoldable pub put_get_max_children_request : GetMaxChildrenRequest → Call (Unit {0})
put_get_max_children_request v = put_string v.path

unfoldable pub get_get_max_children_request : Call GetMaxChildrenRequest
get_get_max_children_request = do path ← get_string; pure (record { path = path })

pub record GetMaxChildrenResponse : Type 0 where
  pub max : ℤ

unfoldable pub put_get_max_children_response : GetMaxChildrenResponse → Call (Unit {0})
put_get_max_children_response v = put_int v.max

unfoldable pub get_get_max_children_response : Call GetMaxChildrenResponse
get_get_max_children_response = do max ← get_int; pure (record { max = max })

pub record SetMaxChildrenRequest : Type 0 where
  pub path : List ℕ
  pub max : ℤ

unfoldable pub put_set_max_children_request : SetMaxChildrenRequest → Call (Unit {0})
put_set_max_children_request v = do put_string v.path; put_int v.max

unfoldable pub get_set_max_children_request : Call SetMaxChildrenRequest
get_set_max_children_request = do
  path ← get_string
  max ← get_int
  pure (record { path = path; max = max })

pub record GetEphemeralsRequest : Type 0 where
  pub prefix_path : List ℕ

unfoldable pub put_get_ephemerals_request : GetEphemeralsRequest → Call (Unit {0})
put_get_ephemerals_request v = put_string v.prefix_path

unfoldable pub get_get_ephemerals_request : Call GetEphemeralsRequest
get_get_ephemerals_request = do
  prefix_path ← get_string
  pure (record { prefix_path = prefix_path })

pub record GetEphemeralsResponse : Type 0 where
  pub ephemerals : List (List ℕ)

unfoldable pub put_get_ephemerals_response : GetEphemeralsResponse → Call (Unit {0})
put_get_ephemerals_response v = put_string_vec v.ephemerals

unfoldable pub get_get_ephemerals_response : Call GetEphemeralsResponse
get_get_ephemerals_response = do
  ephemerals ← get_string_vec
  pure (record { ephemerals = ephemerals })
