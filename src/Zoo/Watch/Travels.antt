-- ===== src/Zoo/Watch/Travels.antt =====
-- How watches travel.
use coev.Zoo.Archive.Rules.{Travels, then-Travels, last-Travels}
use coev.Zoo.Archive.Values.{int32, high, int-Travels, long-Travels}
use coev.Zoo.Archive.Values.{IsText, IsVec, string-Travels}
use coev.Zoo.Watch.{SetWatches, put_set_watches, get_set_watches, SetWatches2}
use coev.Zoo.Watch.{put_set_watches2, get_set_watches2, AddWatchRequest}
use coev.Zoo.Watch.{put_add_watch_request, get_add_watch_request, WatcherEvent}
use coev.Zoo.Watch.{put_watcher_event, get_watcher_event, CheckWatchesRequest}
use coev.Zoo.Watch.{put_check_watches_request, get_check_watches_request}
use coev.Zoo.Watch.{RemoveWatchesRequest, put_remove_watches_request}
use coev.Zoo.Watch.{get_remove_watches_request}
use coev.Zoo.Basic.Travels.{string_vec-Travels}

abbrev pub FitSetWatches : SetWatches → Type 0
FitSetWatches v =
    (IsVec IsText v.data_watches) × (IsVec IsText v.exist_watches) × (IsVec IsText v.child_watches)

abbrev pub read_set_watches : SetWatches → SetWatches
read_set_watches v = record {
  relative_zxid = high v.relative_zxid;
  data_watches = v.data_watches;
  exist_watches = v.exist_watches;
  child_watches = v.child_watches;
}

pub set_watches-Travels :
    (v : SetWatches)
    → FitSetWatches v
    → Travels (put_set_watches v) get_set_watches (read_set_watches v)
unfolding put_set_watches get_set_watches
set_watches-Travels v (h0, h1, h2) = then-Travels _ (long-Travels v.relative_zxid) (
    then-Travels _ (string_vec-Travels v.data_watches h0) (
      then-Travels _ (string_vec-Travels v.exist_watches h1)
        (last-Travels _ (string_vec-Travels v.child_watches h2))))

abbrev pub FitSetWatches2 : SetWatches2 → Type 0
FitSetWatches2 v =
    (IsVec IsText v.data_watches)
    × (IsVec IsText v.exist_watches)
    × (IsVec IsText v.child_watches)
    × (IsVec IsText v.persistent_watches)
    × (IsVec IsText v.persistent_recursive_watches)

abbrev pub read_set_watches2 : SetWatches2 → SetWatches2
read_set_watches2 v = record {
  relative_zxid = high v.relative_zxid;
  data_watches = v.data_watches;
  exist_watches = v.exist_watches;
  child_watches = v.child_watches;
  persistent_watches = v.persistent_watches;
  persistent_recursive_watches = v.persistent_recursive_watches;
}

pub set_watches2-Travels :
    (v : SetWatches2)
    → FitSetWatches2 v
    → Travels (put_set_watches2 v) get_set_watches2 (read_set_watches2 v)
unfolding put_set_watches2 get_set_watches2
set_watches2-Travels v (h0, h1, h2, h3, h4) = then-Travels _ (long-Travels v.relative_zxid) (
    then-Travels _ (string_vec-Travels v.data_watches h0) (
      then-Travels _ (string_vec-Travels v.exist_watches h1) (
        then-Travels _ (string_vec-Travels v.child_watches h2) (
          then-Travels _ (string_vec-Travels v.persistent_watches h3)
            (last-Travels _ (string_vec-Travels v.persistent_recursive_watches h4))))))

abbrev pub FitAddWatchRequest : AddWatchRequest → Type 0
FitAddWatchRequest v = IsText v.path

abbrev pub read_add_watch_request : AddWatchRequest → AddWatchRequest
read_add_watch_request v = record { path = v.path; mode = int32 v.mode }

pub add_watch_request-Travels :
    (v : AddWatchRequest)
    → FitAddWatchRequest v
    → Travels (put_add_watch_request v) get_add_watch_request (read_add_watch_request v)
unfolding put_add_watch_request get_add_watch_request
add_watch_request-Travels v h =
    then-Travels _ (string-Travels v.path h) (last-Travels _ (int-Travels v.mode))

abbrev pub FitWatcherEvent : WatcherEvent → Type 0
FitWatcherEvent v = IsText v.path

abbrev pub read_watcher_event : WatcherEvent → WatcherEvent
read_watcher_event v = record { kind = int32 v.kind; state = int32 v.state; path = v.path }

pub watcher_event-Travels :
    (v : WatcherEvent)
    → FitWatcherEvent v
    → Travels (put_watcher_event v) get_watcher_event (read_watcher_event v)
unfolding put_watcher_event get_watcher_event
watcher_event-Travels v h =
    then-Travels _ (int-Travels v.kind)
      (then-Travels _ (int-Travels v.state) (last-Travels _ (string-Travels v.path h)))

abbrev pub FitCheckWatchesRequest : CheckWatchesRequest → Type 0
FitCheckWatchesRequest v = IsText v.path

abbrev pub read_check_watches_request : CheckWatchesRequest → CheckWatchesRequest
read_check_watches_request v = record { path = v.path; kind = int32 v.kind }

pub check_watches_request-Travels :
    (v : CheckWatchesRequest)
    → FitCheckWatchesRequest v
    → Travels (put_check_watches_request v) get_check_watches_request (read_check_watches_request v)
unfolding put_check_watches_request get_check_watches_request
check_watches_request-Travels v h =
    then-Travels _ (string-Travels v.path h) (last-Travels _ (int-Travels v.kind))

abbrev pub FitRemoveWatchesRequest : RemoveWatchesRequest → Type 0
FitRemoveWatchesRequest v = IsText v.path

abbrev pub read_remove_watches_request : RemoveWatchesRequest → RemoveWatchesRequest
read_remove_watches_request v = record { path = v.path; kind = int32 v.kind }

pub remove_watches_request-Travels :
    (v : RemoveWatchesRequest)
    → FitRemoveWatchesRequest v
    → Travels
        (put_remove_watches_request v)
        get_remove_watches_request
        (read_remove_watches_request v)
unfolding put_remove_watches_request get_remove_watches_request
remove_watches_request-Travels v h =
    then-Travels _ (string-Travels v.path h) (last-Travels _ (int-Travels v.kind))
