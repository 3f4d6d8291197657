-- ===== src/Zoo/Node/Travels.antt =====
-- How the data of nodes travel.
use coev.Zoo.Archive.Rules.{Travels, then-Travels, last-Travels}
use coev.Zoo.Archive.Values.{int32, high, flag, int-Travels, long-Travels}
use coev.Zoo.Archive.Values.{bool-Travels, IsText, string-Travels}
use coev.Zoo.Archive.Values.{buffer-Travels}
use coev.Zoo.Node.{GetDataRequest, put_get_data_request, get_get_data_request}
use coev.Zoo.Node.{GetDataResponse, put_get_data_response, get_get_data_response}
use coev.Zoo.Node.{SetDataRequest, put_set_data_request, get_set_data_request}
use coev.Zoo.Node.{SetDataResponse, put_set_data_response, get_set_data_response}
use coev.Zoo.Node.{DeleteRequest, put_delete_request, get_delete_request}
use coev.Zoo.Node.{ExistsRequest, put_exists_request, get_exists_request}
use coev.Zoo.Node.{ExistsResponse, put_exists_response, get_exists_response}
use coev.Zoo.Node.{CheckVersionRequest, put_check_version_request}
use coev.Zoo.Node.{get_check_version_request, SyncRequest, put_sync_request}
use coev.Zoo.Node.{get_sync_request, SyncResponse, put_sync_response}
use coev.Zoo.Node.{get_sync_response, ReconfigRequest, put_reconfig_request}
use coev.Zoo.Node.{get_reconfig_request}
use coev.Zoo.Basic.Travels.{read_stat, stat-Travels}

abbrev pub FitGetDataRequest : GetDataRequest → Type 0
FitGetDataRequest v = IsText v.path

abbrev pub read_get_data_request : GetDataRequest → GetDataRequest
read_get_data_request v = record { path = v.path; watch = flag v.watch }

pub get_data_request-Travels :
    (v : GetDataRequest)
    → FitGetDataRequest v
    → Travels (put_get_data_request v) get_get_data_request (read_get_data_request v)
unfolding put_get_data_request get_get_data_request
get_data_request-Travels v h =
    then-Travels _ (string-Travels v.path h) (last-Travels _ (bool-Travels v.watch))

abbrev pub FitGetDataResponse : GetDataResponse → Type 0
FitGetDataResponse v = IsText v.data_bytes

abbrev pub read_get_data_response : GetDataResponse → GetDataResponse
read_get_data_response v = record { data_bytes = v.data_bytes; stat = read_stat v.stat }

pub get_data_response-Travels :
    (v : GetDataResponse)
    → FitGetDataResponse v
    → Travels (put_get_data_response v) get_get_data_response (read_get_data_response v)
unfolding put_get_data_response get_get_data_response
get_data_response-Travels v h =
    then-Travels _ (buffer-Travels v.data_bytes h) (last-Travels _ (stat-Travels v.stat))

abbrev pub FitSetDataRequest : SetDataRequest → Type 0
FitSetDataRequest v = (IsText v.path) × (IsText v.data_bytes)

abbrev pub read_set_data_request : SetDataRequest → SetDataRequest
read_set_data_request v = record {
  path = v.path;
  data_bytes = v.data_bytes;
  version = int32 v.version;
}

pub set_data_request-Travels :
    (v : SetDataRequest)
    → FitSetDataRequest v
    → Travels (put_set_data_request v) get_set_data_request (read_set_data_request v)
unfolding put_set_data_request get_set_data_request
set_data_request-Travels v (h0, h1) =
    then-Travels _ (string-Travels v.path h0)
      (then-Travels _ (buffer-Travels v.data_bytes h1) (last-Travels _ (int-Travels v.version)))

abbrev pub read_set_data_response : SetDataResponse → SetDataResponse
read_set_data_response v = record { stat = read_stat v.stat }

pub set_data_response-Travels :
    (v : SetDataResponse)
    → Travels (put_set_data_response v) get_set_data_response (read_set_data_response v)
unfolding put_set_data_response get_set_data_response
set_data_response-Travels v = last-Travels _ (stat-Travels v.stat)

abbrev pub FitDeleteRequest : DeleteRequest → Type 0
FitDeleteRequest v = IsText v.path

abbrev pub read_delete_request : DeleteRequest → DeleteRequest
read_delete_request v = record { path = v.path; version = int32 v.version }

pub delete_request-Travels :
    (v : DeleteRequest)
    → FitDeleteRequest v
    → Travels (put_delete_request v) get_delete_request (read_delete_request v)
unfolding put_delete_request get_delete_request
delete_request-Travels v h =
    then-Travels _ (string-Travels v.path h) (last-Travels _ (int-Travels v.version))

abbrev pub FitExistsRequest : ExistsRequest → Type 0
FitExistsRequest v = IsText v.path

abbrev pub read_exists_request : ExistsRequest → ExistsRequest
read_exists_request v = record { path = v.path; watch = flag v.watch }

pub exists_request-Travels :
    (v : ExistsRequest)
    → FitExistsRequest v
    → Travels (put_exists_request v) get_exists_request (read_exists_request v)
unfolding put_exists_request get_exists_request
exists_request-Travels v h =
    then-Travels _ (string-Travels v.path h) (last-Travels _ (bool-Travels v.watch))

abbrev pub read_exists_response : ExistsResponse → ExistsResponse
read_exists_response v = record { stat = read_stat v.stat }

pub exists_response-Travels :
    (v : ExistsResponse)
    → Travels (put_exists_response v) get_exists_response (read_exists_response v)
unfolding put_exists_response get_exists_response
exists_response-Travels v = last-Travels _ (stat-Travels v.stat)

abbrev pub FitCheckVersionRequest : CheckVersionRequest → Type 0
FitCheckVersionRequest v = IsText v.path

abbrev pub read_check_version_request : CheckVersionRequest → CheckVersionRequest
read_check_version_request v = record { path = v.path; version = int32 v.version }

pub check_version_request-Travels :
    (v : CheckVersionRequest)
    → FitCheckVersionRequest v
    → Travels (put_check_version_request v) get_check_version_request (read_check_version_request v)
unfolding put_check_version_request get_check_version_request
check_version_request-Travels v h =
    then-Travels _ (string-Travels v.path h) (last-Travels _ (int-Travels v.version))

abbrev pub FitSyncRequest : SyncRequest → Type 0
FitSyncRequest v = IsText v.path

pub sync_request-Travels :
    (v : SyncRequest) → FitSyncRequest v → Travels (put_sync_request v) get_sync_request v
unfolding put_sync_request get_sync_request
sync_request-Travels v h = last-Travels _ (string-Travels v.path h)

abbrev pub FitSyncResponse : SyncResponse → Type 0
FitSyncResponse v = IsText v.path

pub sync_response-Travels :
    (v : SyncResponse) → FitSyncResponse v → Travels (put_sync_response v) get_sync_response v
unfolding put_sync_response get_sync_response
sync_response-Travels v h = last-Travels _ (string-Travels v.path h)

abbrev pub FitReconfigRequest : ReconfigRequest → Type 0
FitReconfigRequest v =
    (IsText v.joining_servers) × (IsText v.leaving_servers) × (IsText v.new_members)

abbrev pub read_reconfig_request : ReconfigRequest → ReconfigRequest
read_reconfig_request v = record {
  joining_servers = v.joining_servers;
  leaving_servers = v.leaving_servers;
  new_members = v.new_members;
  cur_config_id = high v.cur_config_id;
}

pub reconfig_request-Travels :
    (v : ReconfigRequest)
    → FitReconfigRequest v
    → Travels (put_reconfig_request v) get_reconfig_request (read_reconfig_request v)
unfolding put_reconfig_request get_reconfig_request
reconfig_request-Travels v (h0, h1, h2) = then-Travels _ (string-Travels v.joining_servers h0) (
    then-Travels _ (string-Travels v.leaving_servers h1) (
      then-Travels _ (string-Travels v.new_members h2)
        (last-Travels _ (long-Travels v.cur_config_id))))
