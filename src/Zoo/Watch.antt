-- ===== src/Zoo/Watch.antt =====
-- proto.h and proto.cpp of src/coev_zookeeper: watches.
pub mod Travels
use coev.Base.{
  ℕ, List, [], ◌∷◌, take, map, All, ◌<◌, ◌^◌, length, ◌≡◌, refl, sym, ap, ◌∙◌, ◌++◌, append-nil,
}
use coev.Base.Int.{ℤ, pos}
use coev.Zoo.Archive.{Outcome, ok, err, fault, and_then, Call, ◌>>=◌, ◌>>◌, pure}
use coev.Zoo.Archive.{put_int, put_long, put_bool, put_string, put_buffer, put_each}
use coev.Zoo.Archive.{put_vec, get_int, get_long, get_bool, get_string, get_buffer}
use coev.Zoo.Archive.{items, get_vec}
use coev.Zoo.Basic.{ZooId, put_zoo_id, get_zoo_id, Acl, put_acl, get_acl, put_acl_vec}
use coev.Zoo.Basic.{get_acl_vec, Stat, put_stat, get_stat, StatPersisted}
use coev.Zoo.Basic.{put_stat_persisted, get_stat_persisted, ClientInfo}
use coev.Zoo.Basic.{put_client_info, get_client_info, put_client_info_vec}
use coev.Zoo.Basic.{get_client_info_vec, put_id_vec, get_id_vec, put_string_vec}
use coev.Zoo.Basic.{get_string_vec}

pub record SetWatches : Type 0 where
  pub relative_zxid : ℤ
  pub data_watches : List (List ℕ)
  pub exist_watches : List (List ℕ)
  pub child_watches : List (List ℕ)

unfoldable pub put_set_watches : SetWatches → Call (Unit {0})
put_set_watches v = do
  put_long v.relative_zxid
  put_string_vec v.data_watches
  put_string_vec v.exist_watches
  put_string_vec v.child_watches

unfoldable pub get_set_watches : Call SetWatches
get_set_watches = do
  relative_zxid ← get_long
  data_watches ← get_string_vec
  exist_watches ← get_string_vec
  child_watches ← get_string_vec
  pure (record {
    relative_zxid = relative_zxid;
    data_watches = data_watches;
    exist_watches = exist_watches;
    child_watches = child_watches;
  })

pub record SetWatches2 : Type 0 where
  pub relative_zxid : ℤ
  pub data_watches : List (List ℕ)
  pub exist_watches : List (List ℕ)
  pub child_watches : List (List ℕ)
  pub persistent_watches : List (List ℕ)
  pub persistent_recursive_watches : List (List ℕ)

unfoldable pub put_set_watches2 : SetWatches2 → Call (Unit {0})
put_set_watches2 v = do
  put_long v.relative_zxid
  put_string_vec v.data_watches
  put_string_vec v.exist_watches
  put_string_vec v.child_watches
  put_string_vec v.persistent_watches
  put_string_vec v.persistent_recursive_watches

unfoldable pub get_set_watches2 : Call SetWatches2
get_set_watches2 = do
  relative_zxid ← get_long
  data_watches ← get_string_vec
  exist_watches ← get_string_vec
  child_watches ← get_string_vec
  persistent_watches ← get_string_vec
  persistent_recursive_watches ← get_string_vec
  pure (record {
    relative_zxid = relative_zxid;
    data_watches = data_watches;
    exist_watches = exist_watches;
    child_watches = child_watches;
    persistent_watches = persistent_watches;
    persistent_recursive_watches = persistent_recursive_watches;
  })

pub record AddWatchRequest : Type 0 where
  pub path : List ℕ
  pub mode : ℤ

unfoldable pub put_add_watch_request : AddWatchRequest → Call (Unit {0})
put_add_watch_request v = do put_string v.path; put_int v.mode

unfoldable pub get_add_watch_request : Call AddWatchRequest
get_add_watch_request = do
  path ← get_string
  mode ← get_int
  pure (record { path = path; mode = mode })

pub record WatcherEvent : Type 0 where
  pub kind : ℤ
  pub state : ℤ
  pub path : List ℕ

unfoldable pub put_watcher_event : WatcherEvent → Call (Unit {0})
put_watcher_event v = do put_int v.kind; put_int v.state; put_string v.path

unfoldable pub get_watcher_event : Call WatcherEvent
get_watcher_event = do
  kind ← get_int
  state ← get_int
  path ← get_string
  pure (record { kind = kind; state = state; path = path })

pub record CheckWatchesRequest : Type 0 where
  pub path : List ℕ
  pub kind : ℤ

unfoldable pub put_check_watches_request : CheckWatchesRequest → Call (Unit {0})
put_check_watches_request v = do put_string v.path; put_int v.kind

unfoldable pub get_check_watches_request : Call CheckWatchesRequest
get_check_watches_request = do
  path ← get_string
  kind ← get_int
  pure (record { path = path; kind = kind })

pub record RemoveWatchesRequest : Type 0 where
  pub path : List ℕ
  pub kind : ℤ

unfoldable pub put_remove_watches_request : RemoveWatchesRequest → Call (Unit {0})
put_remove_watches_request v = do put_string v.path; put_int v.kind

unfoldable pub get_remove_watches_request : Call RemoveWatchesRequest
get_remove_watches_request = do
  path ← get_string
  kind ← get_int
  pure (record { path = path; kind = kind })
