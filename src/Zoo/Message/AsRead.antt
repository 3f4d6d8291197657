-- ===== src/Zoo/Message/AsRead.antt =====
-- What is read of each message, and which messages can be read.
use coev.Zoo.Basic.Travels.{FitZooId, FitAcl, read_acl}
use coev.Zoo.Basic.Travels.{read_stat}
use coev.Zoo.Basic.Travels.{read_stat_persisted, FitClientInfo}
use coev.Zoo.Session.Travels.{FitConnectRequest, read_connect_request}
use coev.Zoo.Session.Travels.{FitConnectResponse}
use coev.Zoo.Session.Travels.{read_connect_response}
use coev.Zoo.Session.Travels.{read_request_header}
use coev.Zoo.Session.Travels.{read_multi_header}
use coev.Zoo.Session.Travels.{read_reply_header, FitAuthPacket}
use coev.Zoo.Session.Travels.{read_auth_packet}
use coev.Zoo.Session.Travels.{read_error_response}
use coev.Zoo.Login.Travels.{FitGetSaslRequest}
use coev.Zoo.Login.Travels.{FitSetSaslRequest}
use coev.Zoo.Login.Travels.{FitSetSaslResponse}
use coev.Zoo.Login.Travels.{FitWhoAmiResponse}
use coev.Zoo.Login.Travels.{FitGetAclRequest}
use coev.Zoo.Login.Travels.{read_get_acl_response}
use coev.Zoo.Login.Travels.{FitSetAclRequest, read_set_acl_request}
use coev.Zoo.Login.Travels.{read_set_acl_response}
use coev.Zoo.Watch.Travels.{FitSetWatches, read_set_watches}
use coev.Zoo.Watch.Travels.{FitSetWatches2, read_set_watches2}
use coev.Zoo.Watch.Travels.{FitAddWatchRequest, read_add_watch_request}
use coev.Zoo.Watch.Travels.{FitWatcherEvent}
use coev.Zoo.Watch.Travels.{read_watcher_event}
use coev.Zoo.Watch.Travels.{FitCheckWatchesRequest, read_check_watches_request}
use coev.Zoo.Watch.Travels.{FitRemoveWatchesRequest}
use coev.Zoo.Watch.Travels.{read_remove_watches_request}
use coev.Zoo.Node.Travels.{FitGetDataRequest, read_get_data_request}
use coev.Zoo.Node.Travels.{FitGetDataResponse}
use coev.Zoo.Node.Travels.{read_get_data_response}
use coev.Zoo.Node.Travels.{FitSetDataRequest, read_set_data_request}
use coev.Zoo.Node.Travels.{read_set_data_response}
use coev.Zoo.Node.Travels.{FitDeleteRequest}
use coev.Zoo.Node.Travels.{read_delete_request}
use coev.Zoo.Node.Travels.{FitExistsRequest, read_exists_request}
use coev.Zoo.Node.Travels.{read_exists_response}
use coev.Zoo.Node.Travels.{FitCheckVersionRequest}
use coev.Zoo.Node.Travels.{read_check_version_request}
use coev.Zoo.Node.Travels.{FitSyncRequest, FitSyncResponse}
use coev.Zoo.Node.Travels.{FitReconfigRequest}
use coev.Zoo.Node.Travels.{read_reconfig_request}
use coev.Zoo.Create.Travels.{FitCreateRequest, read_create_request}
use coev.Zoo.Create.Travels.{FitCreateTtlRequest}
use coev.Zoo.Create.Travels.{read_create_ttl_request}
use coev.Zoo.Create.Travels.{FitCreateResponse}
use coev.Zoo.Create.Travels.{FitCreate2Response, read_create2_response}
use coev.Zoo.Children.Travels.{FitGetChildrenRequest, read_get_children_request}
use coev.Zoo.Children.Travels.{FitGetChildrenResponse}
use coev.Zoo.Children.Travels.{FitGetChildren2Request}
use coev.Zoo.Children.Travels.{read_get_children2_request}
use coev.Zoo.Children.Travels.{FitGetChildren2Response}
use coev.Zoo.Children.Travels.{read_get_children2_response}
use coev.Zoo.Children.Travels.{FitGetAllChildrenNumberRequest}
use coev.Zoo.Children.Travels.{read_get_all_children_number_response}
use coev.Zoo.Children.Travels.{FitGetMaxChildrenRequest}
use coev.Zoo.Children.Travels.{read_get_max_children_response}
use coev.Zoo.Children.Travels.{FitSetMaxChildrenRequest, read_set_max_children_request}
use coev.Zoo.Children.Travels.{FitGetEphemeralsRequest}
use coev.Zoo.Children.Travels.{FitGetEphemeralsResponse}
use coev.Zoo.Quorum.Travels.{read_learner_info, FitQuorumPacket}
use coev.Zoo.Quorum.Travels.{read_quorum_packet}
use coev.Zoo.Quorum.Travels.{FitQuorumAuthPacket, read_quorum_auth_packet}
use coev.Zoo.Quorum.Travels.{read_file_header}
use coev.Zoo.Quorum.Travels.{read_txn_digest}
use coev.Zoo.Txn.Travels.{read_txn_header, FitCreateTxnV0}
use coev.Zoo.Txn.Travels.{read_create_txn_v0, FitCreateTxn}
use coev.Zoo.Txn.Travels.{read_create_txn, FitCreateTtlTxn}
use coev.Zoo.Txn.Travels.{read_create_ttl_txn}
use coev.Zoo.Txn.Travels.{FitCreateContainerTxn, read_create_container_txn}
use coev.Zoo.Txn.Travels.{FitDeleteTxn}
use coev.Zoo.Txn.Travels.{FitSetDataTxn, read_set_data_txn}
use coev.Zoo.Txn.Travels.{FitCheckVersionTxn}
use coev.Zoo.Txn.Travels.{read_check_version_txn}
use coev.Zoo.Multi.Travels.{FitSetAclTxn, read_set_acl_txn}
use coev.Zoo.Multi.Travels.{FitSetMaxChildrenTxn, read_set_max_children_txn}
use coev.Zoo.Multi.Travels.{read_create_session_txn}
use coev.Zoo.Multi.Travels.{FitCloseSessionTxn}
use coev.Zoo.Multi.Travels.{read_error_txn}
use coev.Zoo.Multi.Travels.{FitTxn, read_txn}
use coev.Zoo.Multi.Travels.{FitMultiTxn, read_multi_txn}
use coev.Zoo.Message.{Message, zoo_id, acl, stat, stat_persisted, client_info}
use coev.Zoo.Message.{connect_request, connect_response, request_header, multi_header}
use coev.Zoo.Message.{reply_header, auth_packet, error_response, get_sasl_request}
use coev.Zoo.Message.{set_sasl_request, set_sasl_response, who_ami_response}
use coev.Zoo.Message.{get_acl_request, get_acl_response, set_acl_request}
use coev.Zoo.Message.{set_acl_response, set_watches, set_watches2, add_watch_request}
use coev.Zoo.Message.{watcher_event, check_watches_request, remove_watches_request}
use coev.Zoo.Message.{get_data_request, get_data_response, set_data_request}
use coev.Zoo.Message.{set_data_response, delete_request, exists_request}
use coev.Zoo.Message.{exists_response, check_version_request, sync_request}
use coev.Zoo.Message.{sync_response, reconfig_request, create_request}
use coev.Zoo.Message.{create_ttl_request, create_response, create2_response}
use coev.Zoo.Message.{get_children_request, get_children_response}
use coev.Zoo.Message.{get_children2_request, get_children2_response}
use coev.Zoo.Message.{get_all_children_number_request}
use coev.Zoo.Message.{get_all_children_number_response, get_max_children_request}
use coev.Zoo.Message.{get_max_children_response, set_max_children_request}
use coev.Zoo.Message.{get_ephemerals_request, get_ephemerals_response, learner_info}
use coev.Zoo.Message.{quorum_packet, quorum_auth_packet, file_header, txn_digest}
use coev.Zoo.Message.{txn_header, create_txn_v0, create_txn, create_ttl_txn}
use coev.Zoo.Message.{create_container_txn, delete_txn, set_data_txn}
use coev.Zoo.Message.{check_version_txn, set_acl_txn, set_max_children_txn}
use coev.Zoo.Message.{create_session_txn, close_session_txn, error_txn, txn, multi_txn}

-- A 64-bit number comes back as its upper half, and a list of access rights as an empty one.
abbrev pub as_read : Message → Message
as_read (zoo_id v) = zoo_id v
as_read (acl v) = acl (read_acl v)
as_read (stat v) = stat (read_stat v)
as_read (stat_persisted v) = stat_persisted (read_stat_persisted v)
as_read (client_info v) = client_info v
as_read (connect_request v) = connect_request (read_connect_request v)
as_read (connect_response v) = connect_response (read_connect_response v)
as_read (request_header v) = request_header (read_request_header v)
as_read (multi_header v) = multi_header (read_multi_header v)
as_read (reply_header v) = reply_header (read_reply_header v)
as_read (auth_packet v) = auth_packet (read_auth_packet v)
as_read (error_response v) = error_response (read_error_response v)
as_read (get_sasl_request v) = get_sasl_request v
as_read (set_sasl_request v) = set_sasl_request v
as_read (set_sasl_response v) = set_sasl_response v
as_read (who_ami_response v) = who_ami_response v
as_read (get_acl_request v) = get_acl_request v
as_read (get_acl_response v) = get_acl_response (read_get_acl_response v)
as_read (set_acl_request v) = set_acl_request (read_set_acl_request v)
as_read (set_acl_response v) = set_acl_response (read_set_acl_response v)
as_read (set_watches v) = set_watches (read_set_watches v)
as_read (set_watches2 v) = set_watches2 (read_set_watches2 v)
as_read (add_watch_request v) = add_watch_request (read_add_watch_request v)
as_read (watcher_event v) = watcher_event (read_watcher_event v)
as_read (check_watches_request v) = check_watches_request (read_check_watches_request v)
as_read (remove_watches_request v) = remove_watches_request (read_remove_watches_request v)
as_read (get_data_request v) = get_data_request (read_get_data_request v)
as_read (get_data_response v) = get_data_response (read_get_data_response v)
as_read (set_data_request v) = set_data_request (read_set_data_request v)
as_read (set_data_response v) = set_data_response (read_set_data_response v)
as_read (delete_request v) = delete_request (read_delete_request v)
as_read (exists_request v) = exists_request (read_exists_request v)
as_read (exists_response v) = exists_response (read_exists_response v)
as_read (check_version_request v) = check_version_request (read_check_version_request v)
as_read (sync_request v) = sync_request v
as_read (sync_response v) = sync_response v
as_read (reconfig_request v) = reconfig_request (read_reconfig_request v)
as_read (create_request v) = create_request (read_create_request v)
as_read (create_ttl_request v) = create_ttl_request (read_create_ttl_request v)
as_read (create_response v) = create_response v
as_read (create2_response v) = create2_response (read_create2_response v)
as_read (get_children_request v) = get_children_request (read_get_children_request v)
as_read (get_children_response v) = get_children_response v
as_read (get_children2_request v) = get_children2_request (read_get_children2_request v)
as_read (get_children2_response v) = get_children2_response (read_get_children2_response v)
as_read (get_all_children_number_request v) = get_all_children_number_request v
as_read (get_all_children_number_response v) =
    get_all_children_number_response (read_get_all_children_number_response v)
as_read (get_max_children_request v) = get_max_children_request v
as_read (get_max_children_response v) = get_max_children_response (read_get_max_children_response v)
as_read (set_max_children_request v) = set_max_children_request (read_set_max_children_request v)
as_read (get_ephemerals_request v) = get_ephemerals_request v
as_read (get_ephemerals_response v) = get_ephemerals_response v
as_read (learner_info v) = learner_info (read_learner_info v)
as_read (quorum_packet v) = quorum_packet (read_quorum_packet v)
as_read (quorum_auth_packet v) = quorum_auth_packet (read_quorum_auth_packet v)
as_read (file_header v) = file_header (read_file_header v)
as_read (txn_digest v) = txn_digest (read_txn_digest v)
as_read (txn_header v) = txn_header (read_txn_header v)
as_read (create_txn_v0 v) = create_txn_v0 (read_create_txn_v0 v)
as_read (create_txn v) = create_txn (read_create_txn v)
as_read (create_ttl_txn v) = create_ttl_txn (read_create_ttl_txn v)
as_read (create_container_txn v) = create_container_txn (read_create_container_txn v)
as_read (delete_txn v) = delete_txn v
as_read (set_data_txn v) = set_data_txn (read_set_data_txn v)
as_read (check_version_txn v) = check_version_txn (read_check_version_txn v)
as_read (set_acl_txn v) = set_acl_txn (read_set_acl_txn v)
as_read (set_max_children_txn v) = set_max_children_txn (read_set_max_children_txn v)
as_read (create_session_txn v) = create_session_txn (read_create_session_txn v)
as_read (close_session_txn v) = close_session_txn v
as_read (error_txn v) = error_txn (read_error_txn v)
as_read (txn v) = txn (read_txn v)
as_read (multi_txn v) = multi_txn (read_multi_txn v)

-- Its strings are not empty, and an int32_t counts their chars and the items of its vectors.
abbrev pub Fits : Message → Type 0
Fits (zoo_id v) = FitZooId v
Fits (acl v) = FitAcl v
Fits (stat v) = Unit {0}
Fits (stat_persisted v) = Unit {0}
Fits (client_info v) = FitClientInfo v
Fits (connect_request v) = FitConnectRequest v
Fits (connect_response v) = FitConnectResponse v
Fits (request_header v) = Unit {0}
Fits (multi_header v) = Unit {0}
Fits (reply_header v) = Unit {0}
Fits (auth_packet v) = FitAuthPacket v
Fits (error_response v) = Unit {0}
Fits (get_sasl_request v) = FitGetSaslRequest v
Fits (set_sasl_request v) = FitSetSaslRequest v
Fits (set_sasl_response v) = FitSetSaslResponse v
Fits (who_ami_response v) = FitWhoAmiResponse v
Fits (get_acl_request v) = FitGetAclRequest v
Fits (get_acl_response v) = Unit {0}
Fits (set_acl_request v) = FitSetAclRequest v
Fits (set_acl_response v) = Unit {0}
Fits (set_watches v) = FitSetWatches v
Fits (set_watches2 v) = FitSetWatches2 v
Fits (add_watch_request v) = FitAddWatchRequest v
Fits (watcher_event v) = FitWatcherEvent v
Fits (check_watches_request v) = FitCheckWatchesRequest v
Fits (remove_watches_request v) = FitRemoveWatchesRequest v
Fits (get_data_request v) = FitGetDataRequest v
Fits (get_data_response v) = FitGetDataResponse v
Fits (set_data_request v) = FitSetDataRequest v
Fits (set_data_response v) = Unit {0}
Fits (delete_request v) = FitDeleteRequest v
Fits (exists_request v) = FitExistsRequest v
Fits (exists_response v) = Unit {0}
Fits (check_version_request v) = FitCheckVersionRequest v
Fits (sync_request v) = FitSyncRequest v
Fits (sync_response v) = FitSyncResponse v
Fits (reconfig_request v) = FitReconfigRequest v
Fits (create_request v) = FitCreateRequest v
Fits (create_ttl_request v) = FitCreateTtlRequest v
Fits (create_response v) = FitCreateResponse v
Fits (create2_response v) = FitCreate2Response v
Fits (get_children_request v) = FitGetChildrenRequest v
Fits (get_children_response v) = FitGetChildrenResponse v
Fits (get_children2_request v) = FitGetChildren2Request v
Fits (get_children2_response v) = FitGetChildren2Response v
Fits (get_all_children_number_request v) = FitGetAllChildrenNumberRequest v
Fits (get_all_children_number_response v) = Unit {0}
Fits (get_max_children_request v) = FitGetMaxChildrenRequest v
Fits (get_max_children_response v) = Unit {0}
Fits (set_max_children_request v) = FitSetMaxChildrenRequest v
Fits (get_ephemerals_request v) = FitGetEphemeralsRequest v
Fits (get_ephemerals_response v) = FitGetEphemeralsResponse v
Fits (learner_info v) = Unit {0}
Fits (quorum_packet v) = FitQuorumPacket v
Fits (quorum_auth_packet v) = FitQuorumAuthPacket v
Fits (file_header v) = Unit {0}
Fits (txn_digest v) = Unit {0}
Fits (txn_header v) = Unit {0}
Fits (create_txn_v0 v) = FitCreateTxnV0 v
Fits (create_txn v) = FitCreateTxn v
Fits (create_ttl_txn v) = FitCreateTtlTxn v
Fits (create_container_txn v) = FitCreateContainerTxn v
Fits (delete_txn v) = FitDeleteTxn v
Fits (set_data_txn v) = FitSetDataTxn v
Fits (check_version_txn v) = FitCheckVersionTxn v
Fits (set_acl_txn v) = FitSetAclTxn v
Fits (set_max_children_txn v) = FitSetMaxChildrenTxn v
Fits (create_session_txn v) = Unit {0}
Fits (close_session_txn v) = FitCloseSessionTxn v
Fits (error_txn v) = Unit {0}
Fits (txn v) = FitTxn v
Fits (multi_txn v) = FitMultiTxn v
