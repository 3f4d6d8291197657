-- ===== src/Zoo/Message.antt =====
-- The messages of proto.h, src/coev_zookeeper, written to and read from an archive.
pub mod AsRead
pub mod RoundTrip
use coev.Base.{
  ℕ, List, [], ◌∷◌, take, map, All, ◌<◌, ◌^◌, length, ◌≡◌, refl, sym, ap, ◌∙◌, ◌++◌, append-nil,
}
use coev.Base.Int.{ℤ, pos}
use coev.Zoo.Archive.{Outcome, ok, err, fault, and_then, Call, ◌>>=◌, ◌>>◌, pure}
use coev.Zoo.Archive.{put_int, put_long, put_bool, put_string, put_buffer, put_each}
use coev.Zoo.Archive.{put_vec, get_int, get_long, get_bool, get_string, get_buffer}
use coev.Zoo.Archive.{items, get_vec}
use coev.Zoo.Basic.{ZooId, put_zoo_id, get_zoo_id, Acl, put_acl, get_acl, put_acl_vec}
use coev.Zoo.Basic.{get_acl_vec, Stat, put_stat, get_stat, StatPersisted}
use coev.Zoo.Basic.{put_stat_persisted, get_stat_persisted, ClientInfo}
use coev.Zoo.Basic.{put_client_info, get_client_info, put_client_info_vec}
use coev.Zoo.Basic.{get_client_info_vec, put_id_vec, get_id_vec, put_string_vec}
use coev.Zoo.Basic.{get_string_vec}
use coev.Zoo.Session.{ConnectRequest, put_connect_request, get_connect_request}
use coev.Zoo.Session.{ConnectResponse, put_connect_response, get_connect_response}
use coev.Zoo.Session.{RequestHeader, put_request_header, get_request_header}
use coev.Zoo.Session.{MultiHeader, put_multi_header, get_multi_header, ReplyHeader}
use coev.Zoo.Session.{put_reply_header, get_reply_header, AuthPacket, put_auth_packet}
use coev.Zoo.Session.{get_auth_packet, ErrorResponse, put_error_response}
use coev.Zoo.Session.{get_error_response}
use coev.Zoo.Login.{GetSaslRequest, put_get_sasl_request, get_get_sasl_request}
use coev.Zoo.Login.{SetSaslRequest, put_set_sasl_request, get_set_sasl_request}
use coev.Zoo.Login.{SetSaslResponse, put_set_sasl_response, get_set_sasl_response}
use coev.Zoo.Login.{WhoAmiResponse, put_who_ami_response, get_who_ami_response}
use coev.Zoo.Login.{GetAclRequest, put_get_acl_request, get_get_acl_request}
use coev.Zoo.Login.{GetAclResponse, put_get_acl_response, get_get_acl_response}
use coev.Zoo.Login.{SetAclRequest, put_set_acl_request, get_set_acl_request}
use coev.Zoo.Login.{SetAclResponse, put_set_acl_response, get_set_acl_response}
use coev.Zoo.Watch.{SetWatches, put_set_watches, get_set_watches, SetWatches2}
use coev.Zoo.Watch.{put_set_watches2, get_set_watches2, AddWatchRequest}
use coev.Zoo.Watch.{put_add_watch_request, get_add_watch_request, WatcherEvent}
use coev.Zoo.Watch.{put_watcher_event, get_watcher_event, CheckWatchesRequest}
use coev.Zoo.Watch.{put_check_watches_request, get_check_watches_request}
use coev.Zoo.Watch.{RemoveWatchesRequest, put_remove_watches_request}
use coev.Zoo.Watch.{get_remove_watches_request}
use coev.Zoo.Node.{GetDataRequest, put_get_data_request, get_get_data_request}
use coev.Zoo.Node.{GetDataResponse, put_get_data_response, get_get_data_response}
use coev.Zoo.Node.{SetDataRequest, put_set_data_request, get_set_data_request}
use coev.Zoo.Node.{SetDataResponse, put_set_data_response, get_set_data_response}
use coev.Zoo.Node.{DeleteRequest, put_delete_request, get_delete_request}
use coev.Zoo.Node.{ExistsRequest, put_exists_request, get_exists_request}
use coev.Zoo.Node.{ExistsResponse, put_exists_response, get_exists_response}
use coev.Zoo.Node.{CheckVersionRequest, put_check_version_request}
use coev.Zoo.Node.{get_check_version_request, SyncRequest, put_sync_request}
use coev.Zoo.Node.{get_sync_request, SyncResponse, put_sync_response}
use coev.Zoo.Node.{get_sync_response, ReconfigRequest, put_reconfig_request}
use coev.Zoo.Node.{get_reconfig_request}
use coev.Zoo.Create.{CreateRequest, put_create_request, get_create_request}
use coev.Zoo.Create.{CreateTtlRequest, put_create_ttl_request, get_create_ttl_request}
use coev.Zoo.Create.{CreateResponse, put_create_response, get_create_response}
use coev.Zoo.Create.{Create2Response, put_create2_response, get_create2_response}
use coev.Zoo.Children.{GetChildrenRequest, put_get_children_request}
use coev.Zoo.Children.{get_get_children_request, GetChildrenResponse}
use coev.Zoo.Children.{put_get_children_response, get_get_children_response}
use coev.Zoo.Children.{GetChildren2Request, put_get_children2_request}
use coev.Zoo.Children.{get_get_children2_request, GetChildren2Response}
use coev.Zoo.Children.{put_get_children2_response, get_get_children2_response}
use coev.Zoo.Children.{GetAllChildrenNumberRequest}
use coev.Zoo.Children.{put_get_all_children_number_request}
use coev.Zoo.Children.{get_get_all_children_number_request}
use coev.Zoo.Children.{GetAllChildrenNumberResponse}
use coev.Zoo.Children.{put_get_all_children_number_response}
use coev.Zoo.Children.{get_get_all_children_number_response, GetMaxChildrenRequest}
use coev.Zoo.Children.{put_get_max_children_request, get_get_max_children_request}
use coev.Zoo.Children.{GetMaxChildrenResponse, put_get_max_children_response}
use coev.Zoo.Children.{get_get_max_children_response, SetMaxChildrenRequest}
use coev.Zoo.Children.{put_set_max_children_request, get_set_max_children_request}
use coev.Zoo.Children.{GetEphemeralsRequest, put_get_ephemerals_request}
use coev.Zoo.Children.{get_get_ephemerals_request, GetEphemeralsResponse}
use coev.Zoo.Children.{put_get_ephemerals_response, get_get_ephemerals_response}
use coev.Zoo.Quorum.{LearnerInfo, put_learner_info, get_learner_info, QuorumPacket}
use coev.Zoo.Quorum.{put_quorum_packet, get_quorum_packet, QuorumAuthPacket}
use coev.Zoo.Quorum.{put_quorum_auth_packet, get_quorum_auth_packet, FileHeader}
use coev.Zoo.Quorum.{put_file_header, get_file_header, TxnDigest, put_txn_digest}
use coev.Zoo.Quorum.{get_txn_digest}
use coev.Zoo.Txn.{TxnHeader, put_txn_header, get_txn_header, CreateTxnV0}
use coev.Zoo.Txn.{put_create_txn_v0, get_create_txn_v0, CreateTxn, put_create_txn}
use coev.Zoo.Txn.{get_create_txn, CreateTtlTxn, put_create_ttl_txn, get_create_ttl_txn}
use coev.Zoo.Txn.{CreateContainerTxn, put_create_container_txn}
use coev.Zoo.Txn.{get_create_container_txn, DeleteTxn, put_delete_txn, get_delete_txn}
use coev.Zoo.Txn.{SetDataTxn, put_set_data_txn, get_set_data_txn, CheckVersionTxn}
use coev.Zoo.Txn.{put_check_version_txn, get_check_version_txn}
use coev.Zoo.Multi.{SetAclTxn, put_set_acl_txn, get_set_acl_txn, SetMaxChildrenTxn}
use coev.Zoo.Multi.{put_set_max_children_txn, get_set_max_children_txn}
use coev.Zoo.Multi.{CreateSessionTxn, put_create_session_txn, get_create_session_txn}
use coev.Zoo.Multi.{CloseSessionTxn, put_close_session_txn, get_close_session_txn}
use coev.Zoo.Multi.{ErrorTxn, put_error_txn, get_error_txn, Txn, put_txn, get_txn}
use coev.Zoo.Multi.{put_txn_vec, get_txn_vec, MultiTxn, put_multi_txn, get_multi_txn}

pub data Message : Type 0 where
  zoo_id : ZooId → Message
  acl : Acl → Message
  stat : Stat → Message
  stat_persisted : StatPersisted → Message
  client_info : ClientInfo → Message
  connect_request : ConnectRequest → Message
  connect_response : ConnectResponse → Message
  request_header : RequestHeader → Message
  multi_header : MultiHeader → Message
  reply_header : ReplyHeader → Message
  auth_packet : AuthPacket → Message
  error_response : ErrorResponse → Message
  get_sasl_request : GetSaslRequest → Message
  set_sasl_request : SetSaslRequest → Message
  set_sasl_response : SetSaslResponse → Message
  who_ami_response : WhoAmiResponse → Message
  get_acl_request : GetAclRequest → Message
  get_acl_response : GetAclResponse → Message
  set_acl_request : SetAclRequest → Message
  set_acl_response : SetAclResponse → Message
  set_watches : SetWatches → Message
  set_watches2 : SetWatches2 → Message
  add_watch_request : AddWatchRequest → Message
  watcher_event : WatcherEvent → Message
  check_watches_request : CheckWatchesRequest → Message
  remove_watches_request : RemoveWatchesRequest → Message
  get_data_request : GetDataRequest → Message
  get_data_response : GetDataResponse → Message
  set_data_request : SetDataRequest → Message
  set_data_response : SetDataResponse → Message
  delete_request : DeleteRequest → Message
  exists_request : ExistsRequest → Message
  exists_response : ExistsResponse → Message
  check_version_request : CheckVersionRequest → Message
  sync_request : SyncRequest → Message
  sync_response : SyncResponse → Message
  reconfig_request : ReconfigRequest → Message
  create_request : CreateRequest → Message
  create_ttl_request : CreateTtlRequest → Message
  create_response : CreateResponse → Message
  create2_response : Create2Response → Message
  get_children_request : GetChildrenRequest → Message
  get_children_response : GetChildrenResponse → Message
  get_children2_request : GetChildren2Request → Message
  get_children2_response : GetChildren2Response → Message
  get_all_children_number_request : GetAllChildrenNumberRequest → Message
  get_all_children_number_response : GetAllChildrenNumberResponse → Message
  get_max_children_request : GetMaxChildrenRequest → Message
  get_max_children_response : GetMaxChildrenResponse → Message
  set_max_children_request : SetMaxChildrenRequest → Message
  get_ephemerals_request : GetEphemeralsRequest → Message
  get_ephemerals_response : GetEphemeralsResponse → Message
  learner_info : LearnerInfo → Message
  quorum_packet : QuorumPacket → Message
  quorum_auth_packet : QuorumAuthPacket → Message
  file_header : FileHeader → Message
  txn_digest : TxnDigest → Message
  txn_header : TxnHeader → Message
  create_txn_v0 : CreateTxnV0 → Message
  create_txn : CreateTxn → Message
  create_ttl_txn : CreateTtlTxn → Message
  create_container_txn : CreateContainerTxn → Message
  delete_txn : DeleteTxn → Message
  set_data_txn : SetDataTxn → Message
  check_version_txn : CheckVersionTxn → Message
  set_acl_txn : SetAclTxn → Message
  set_max_children_txn : SetMaxChildrenTxn → Message
  create_session_txn : CreateSessionTxn → Message
  close_session_txn : CloseSessionTxn → Message
  error_txn : ErrorTxn → Message
  txn : Txn → Message
  multi_txn : MultiTxn → Message

unfoldable pub put : Message → Call (Unit {0})
put (zoo_id v) = put_zoo_id v
put (acl v) = put_acl v
put (stat v) = put_stat v
put (stat_persisted v) = put_stat_persisted v
put (client_info v) = put_client_info v
put (connect_request v) = put_connect_request v
put (connect_response v) = put_connect_response v
put (request_header v) = put_request_header v
put (multi_header v) = put_multi_header v
put (reply_header v) = put_reply_header v
put (auth_packet v) = put_auth_packet v
put (error_response v) = put_error_response v
put (get_sasl_request v) = put_get_sasl_request v
put (set_sasl_request v) = put_set_sasl_request v
put (set_sasl_response v) = put_set_sasl_response v
put (who_ami_response v) = put_who_ami_response v
put (get_acl_request v) = put_get_acl_request v
put (get_acl_response v) = put_get_acl_response v
put (set_acl_request v) = put_set_acl_request v
put (set_acl_response v) = put_set_acl_response v
put (set_watches v) = put_set_watches v
put (set_watches2 v) = put_set_watches2 v
put (add_watch_request v) = put_add_watch_request v
put (watcher_event v) = put_watcher_event v
put (check_watches_request v) = put_check_watches_request v
put (remove_watches_request v) = put_remove_watches_request v
put (get_data_request v) = put_get_data_request v
put (get_data_response v) = put_get_data_response v
put (set_data_request v) = put_set_data_request v
put (set_data_response v) = put_set_data_response v
put (delete_request v) = put_delete_request v
put (exists_request v) = put_exists_request v
put (exists_response v) = put_exists_response v
put (check_version_request v) = put_check_version_request v
put (sync_request v) = put_sync_request v
put (sync_response v) = put_sync_response v
put (reconfig_request v) = put_reconfig_request v
put (create_request v) = put_create_request v
put (create_ttl_request v) = put_create_ttl_request v
put (create_response v) = put_create_response v
put (create2_response v) = put_create2_response v
put (get_children_request v) = put_get_children_request v
put (get_children_response v) = put_get_children_response v
put (get_children2_request v) = put_get_children2_request v
put (get_children2_response v) = put_get_children2_response v
put (get_all_children_number_request v) = put_get_all_children_number_request v
put (get_all_children_number_response v) = put_get_all_children_number_response v
put (get_max_children_request v) = put_get_max_children_request v
put (get_max_children_response v) = put_get_max_children_response v
put (set_max_children_request v) = put_set_max_children_request v
put (get_ephemerals_request v) = put_get_ephemerals_request v
put (get_ephemerals_response v) = put_get_ephemerals_response v
put (learner_info v) = put_learner_info v
put (quorum_packet v) = put_quorum_packet v
put (quorum_auth_packet v) = put_quorum_auth_packet v
put (file_header v) = put_file_header v
put (txn_digest v) = put_txn_digest v
put (txn_header v) = put_txn_header v
put (create_txn_v0 v) = put_create_txn_v0 v
put (create_txn v) = put_create_txn v
put (create_ttl_txn v) = put_create_ttl_txn v
put (create_container_txn v) = put_create_container_txn v
put (delete_txn v) = put_delete_txn v
put (set_data_txn v) = put_set_data_txn v
put (check_version_txn v) = put_check_version_txn v
put (set_acl_txn v) = put_set_acl_txn v
put (set_max_children_txn v) = put_set_max_children_txn v
put (create_session_txn v) = put_create_session_txn v
put (close_session_txn v) = put_close_session_txn v
put (error_txn v) = put_error_txn v
put (txn v) = put_txn v
put (multi_txn v) = put_multi_txn v

-- A message of the same kind is read.
unfoldable pub get : Message → Call Message
get (zoo_id v) = get_zoo_id >>= λ w. pure (zoo_id w)
get (acl v) = get_acl >>= λ w. pure (acl w)
get (stat v) = get_stat >>= λ w. pure (stat w)
get (stat_persisted v) = get_stat_persisted >>= λ w. pure (stat_persisted w)
get (client_info v) = get_client_info >>= λ w. pure (client_info w)
get (connect_request v) = get_connect_request >>= λ w. pure (connect_request w)
get (connect_response v) = get_connect_response >>= λ w. pure (connect_response w)
get (request_header v) = get_request_header >>= λ w. pure (request_header w)
get (multi_header v) = get_multi_header >>= λ w. pure (multi_header w)
get (reply_header v) = get_reply_header >>= λ w. pure (reply_header w)
get (auth_packet v) = get_auth_packet >>= λ w. pure (auth_packet w)
get (error_response v) = get_error_response >>= λ w. pure (error_response w)
get (get_sasl_request v) = get_get_sasl_request >>= λ w. pure (get_sasl_request w)
get (set_sasl_request v) = get_set_sasl_request >>= λ w. pure (set_sasl_request w)
get (set_sasl_response v) = get_set_sasl_response >>= λ w. pure (set_sasl_response w)
get (who_ami_response v) = get_who_ami_response >>= λ w. pure (who_ami_response w)
get (get_acl_request v) = get_get_acl_request >>= λ w. pure (get_acl_request w)
get (get_acl_response v) = get_get_acl_response >>= λ w. pure (get_acl_response w)
get (set_acl_request v) = get_set_acl_request >>= λ w. pure (set_acl_request w)
get (set_acl_response v) = get_set_acl_response >>= λ w. pure (set_acl_response w)
get (set_watches v) = get_set_watches >>= λ w. pure (set_watches w)
get (set_watches2 v) = get_set_watches2 >>= λ w. pure (set_watches2 w)
get (add_watch_request v) = get_add_watch_request >>= λ w. pure (add_watch_request w)
get (watcher_event v) = get_watcher_event >>= λ w. pure (watcher_event w)
get (check_watches_request v) = get_check_watches_request >>= λ w. pure (check_watches_request w)
get (remove_watches_request v) = get_remove_watches_request >>= λ w. pure (remove_watches_request w)
get (get_data_request v) = get_get_data_request >>= λ w. pure (get_data_request w)
get (get_data_response v) = get_get_data_response >>= λ w. pure (get_data_response w)
get (set_data_request v) = get_set_data_request >>= λ w. pure (set_data_request w)
get (set_data_response v) = get_set_data_response >>= λ w. pure (set_data_response w)
get (delete_request v) = get_delete_request >>= λ w. pure (delete_request w)
get (exists_request v) = get_exists_request >>= λ w. pure (exists_request w)
get (exists_response v) = get_exists_response >>= λ w. pure (exists_response w)
get (check_version_request v) = get_check_version_request >>= λ w. pure (check_version_request w)
get (sync_request v) = get_sync_request >>= λ w. pure (sync_request w)
get (sync_response v) = get_sync_response >>= λ w. pure (sync_response w)
get (reconfig_request v) = get_reconfig_request >>= λ w. pure (reconfig_request w)
get (create_request v) = get_create_request >>= λ w. pure (create_request w)
get (create_ttl_request v) = get_create_ttl_request >>= λ w. pure (create_ttl_request w)
get (create_response v) = get_create_response >>= λ w. pure (create_response w)
get (create2_response v) = get_create2_response >>= λ w. pure (create2_response w)
get (get_children_request v) = get_get_children_request >>= λ w. pure (get_children_request w)
get (get_children_response v) = get_get_children_response >>= λ w. pure (get_children_response w)
get (get_children2_request v) = get_get_children2_request >>= λ w. pure (get_children2_request w)
get (get_children2_response v) = get_get_children2_response >>= λ w. pure (get_children2_response w)
get (get_all_children_number_request v) =
    get_get_all_children_number_request >>= λ w. pure (get_all_children_number_request w)
get (get_all_children_number_response v) =
    get_get_all_children_number_response >>= λ w. pure (get_all_children_number_response w)
get (get_max_children_request v) =
    get_get_max_children_request >>= λ w. pure (get_max_children_request w)
get (get_max_children_response v) =
    get_get_max_children_response >>= λ w. pure (get_max_children_response w)
get (set_max_children_request v) =
    get_set_max_children_request >>= λ w. pure (set_max_children_request w)
get (get_ephemerals_request v) = get_get_ephemerals_request >>= λ w. pure (get_ephemerals_request w)
get (get_ephemerals_response v) =
    get_get_ephemerals_response >>= λ w. pure (get_ephemerals_response w)
get (learner_info v) = get_learner_info >>= λ w. pure (learner_info w)
get (quorum_packet v) = get_quorum_packet >>= λ w. pure (quorum_packet w)
get (quorum_auth_packet v) = get_quorum_auth_packet >>= λ w. pure (quorum_auth_packet w)
get (file_header v) = get_file_header >>= λ w. pure (file_header w)
get (txn_digest v) = get_txn_digest >>= λ w. pure (txn_digest w)
get (txn_header v) = get_txn_header >>= λ w. pure (txn_header w)
get (create_txn_v0 v) = get_create_txn_v0 >>= λ w. pure (create_txn_v0 w)
get (create_txn v) = get_create_txn >>= λ w. pure (create_txn w)
get (create_ttl_txn v) = get_create_ttl_txn >>= λ w. pure (create_ttl_txn w)
get (create_container_txn v) = get_create_container_txn >>= λ w. pure (create_container_txn w)
get (delete_txn v) = get_delete_txn >>= λ w. pure (delete_txn w)
get (set_data_txn v) = get_set_data_txn >>= λ w. pure (set_data_txn w)
get (check_version_txn v) = get_check_version_txn >>= λ w. pure (check_version_txn w)
get (set_acl_txn v) = get_set_acl_txn >>= λ w. pure (set_acl_txn w)
get (set_max_children_txn v) = get_set_max_children_txn >>= λ w. pure (set_max_children_txn w)
get (create_session_txn v) = get_create_session_txn >>= λ w. pure (create_session_txn w)
get (close_session_txn v) = get_close_session_txn >>= λ w. pure (close_session_txn w)
get (error_txn v) = get_error_txn >>= λ w. pure (error_txn w)
get (txn v) = get_txn >>= λ w. pure (txn w)
get (multi_txn v) = get_multi_txn >>= λ w. pure (multi_txn w)

abbrev pub buffer : Outcome (Unit {0}) → List ℕ
buffer (ok _ s) = s
buffer (err c s) = s
buffer fault = []

-- get_buffer of an oarchive that the message was written to.
abbrev pub sent : Message → List ℕ
sent m = buffer (put m [])
