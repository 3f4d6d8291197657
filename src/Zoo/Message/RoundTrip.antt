-- ===== src/Zoo/Message/RoundTrip.antt =====
-- What becomes of a message that is written and read.
use mathlib.Core.Path.{subst}
use coev.Base.{[], ◌<◌, ◌^◌, length, ◌≡◌, sym, ap, ◌∙◌, append-nil}
use coev.Zoo.Archive.{ok}
use coev.Zoo.Archive.Rules.{Travels, last-Travels}
use coev.Zoo.Basic.Travels.{zoo_id-Travels, acl-Travels}
use coev.Zoo.Basic.Travels.{stat-Travels}
use coev.Zoo.Basic.Travels.{stat_persisted-Travels}
use coev.Zoo.Basic.Travels.{client_info-Travels}
use coev.Zoo.Session.Travels.{connect_request-Travels}
use coev.Zoo.Session.Travels.{connect_response-Travels}
use coev.Zoo.Session.Travels.{request_header-Travels}
use coev.Zoo.Session.Travels.{multi_header-Travels}
use coev.Zoo.Session.Travels.{reply_header-Travels}
use coev.Zoo.Session.Travels.{auth_packet-Travels}
use coev.Zoo.Session.Travels.{error_response-Travels}
use coev.Zoo.Login.Travels.{get_sasl_request-Travels}
use coev.Zoo.Login.Travels.{set_sasl_request-Travels}
use coev.Zoo.Login.Travels.{set_sasl_response-Travels}
use coev.Zoo.Login.Travels.{who_ami_response-Travels}
use coev.Zoo.Login.Travels.{get_acl_request-Travels}
use coev.Zoo.Login.Travels.{get_acl_response-Travels}
use coev.Zoo.Login.Travels.{set_acl_request-Travels}
use coev.Zoo.Login.Travels.{set_acl_response-Travels}
use coev.Zoo.Watch.Travels.{set_watches-Travels}
use coev.Zoo.Watch.Travels.{set_watches2-Travels}
use coev.Zoo.Watch.Travels.{add_watch_request-Travels}
use coev.Zoo.Watch.Travels.{watcher_event-Travels}
use coev.Zoo.Watch.Travels.{check_watches_request-Travels}
use coev.Zoo.Watch.Travels.{remove_watches_request-Travels}
use coev.Zoo.Node.Travels.{get_data_request-Travels}
use coev.Zoo.Node.Travels.{get_data_response-Travels}
use coev.Zoo.Node.Travels.{set_data_request-Travels}
use coev.Zoo.Node.Travels.{set_data_response-Travels}
use coev.Zoo.Node.Travels.{delete_request-Travels}
use coev.Zoo.Node.Travels.{exists_request-Travels}
use coev.Zoo.Node.Travels.{exists_response-Travels}
use coev.Zoo.Node.Travels.{check_version_request-Travels}
use coev.Zoo.Node.Travels.{sync_request-Travels}
use coev.Zoo.Node.Travels.{sync_response-Travels}
use coev.Zoo.Node.Travels.{reconfig_request-Travels}
use coev.Zoo.Create.Travels.{create_request-Travels}
use coev.Zoo.Create.Travels.{create_ttl_request-Travels}
use coev.Zoo.Create.Travels.{create_response-Travels}
use coev.Zoo.Create.Travels.{create2_response-Travels}
use coev.Zoo.Children.Travels.{get_children_request-Travels}
use coev.Zoo.Children.Travels.{get_children_response-Travels}
use coev.Zoo.Children.Travels.{get_children2_request-Travels}
use coev.Zoo.Children.Travels.{get_children2_response-Travels}
use coev.Zoo.Children.Travels.{get_all_children_number_request-Travels}
use coev.Zoo.Children.Travels.{get_all_children_number_response-Travels}
use coev.Zoo.Children.Travels.{get_max_children_request-Travels}
use coev.Zoo.Children.Travels.{get_max_children_response-Travels}
use coev.Zoo.Children.Travels.{set_max_children_request-Travels}
use coev.Zoo.Children.Travels.{get_ephemerals_request-Travels}
use coev.Zoo.Children.Travels.{get_ephemerals_response-Travels}
use coev.Zoo.Quorum.Travels.{learner_info-Travels}
use coev.Zoo.Quorum.Travels.{quorum_packet-Travels}
use coev.Zoo.Quorum.Travels.{quorum_auth_packet-Travels}
use coev.Zoo.Quorum.Travels.{file_header-Travels, txn_digest-Travels}
use coev.Zoo.Txn.Travels.{txn_header-Travels}
use coev.Zoo.Txn.Travels.{create_txn_v0-Travels}
use coev.Zoo.Txn.Travels.{create_txn-Travels}
use coev.Zoo.Txn.Travels.{create_ttl_txn-Travels}
use coev.Zoo.Txn.Travels.{create_container_txn-Travels}
use coev.Zoo.Txn.Travels.{delete_txn-Travels}
use coev.Zoo.Txn.Travels.{set_data_txn-Travels}
use coev.Zoo.Txn.Travels.{check_version_txn-Travels}
use coev.Zoo.Multi.Travels.{set_acl_txn-Travels}
use coev.Zoo.Multi.Travels.{set_max_children_txn-Travels}
use coev.Zoo.Multi.Travels.{create_session_txn-Travels}
use coev.Zoo.Multi.Travels.{close_session_txn-Travels}
use coev.Zoo.Multi.Travels.{error_txn-Travels, txn-Travels}
use coev.Zoo.Multi.Travels.{multi_txn-Travels}
use coev.Zoo.Message.{Message, zoo_id, acl, stat, stat_persisted, client_info}
use coev.Zoo.Message.{connect_request, connect_response, request_header, multi_header}
use coev.Zoo.Message.{reply_header, auth_packet, error_response, get_sasl_request}
use coev.Zoo.Message.{set_sasl_request, set_sasl_response, who_ami_response}
use coev.Zoo.Message.{get_acl_request, get_acl_response, set_acl_request}
use coev.Zoo.Message.{set_acl_response, set_watches, set_watches2, add_watch_request}
use coev.Zoo.Message.{watcher_event, check_watches_request, remove_watches_request}
use coev.Zoo.Message.{get_data_request, get_data_response, set_data_request}
use coev.Zoo.Message.{set_data_response, delete_request, exists_request}
use coev.Zoo.Message.{exists_response, check_version_request, sync_request}
use coev.Zoo.Message.{sync_response, reconfig_request, create_request}
use coev.Zoo.Message.{create_ttl_request, create_response, create2_response}
use coev.Zoo.Message.{get_children_request, get_children_response}
use coev.Zoo.Message.{get_children2_request, get_children2_response}
use coev.Zoo.Message.{get_all_children_number_request}
use coev.Zoo.Message.{get_all_children_number_response, get_max_children_request}
use coev.Zoo.Message.{get_max_children_response, set_max_children_request}
use coev.Zoo.Message.{get_ephemerals_request, get_ephemerals_response, learner_info}
use coev.Zoo.Message.{quorum_packet, quorum_auth_packet, file_header, txn_digest}
use coev.Zoo.Message.{txn_header, create_txn_v0, create_txn, create_ttl_txn}
use coev.Zoo.Message.{create_container_txn, delete_txn, set_data_txn}
use coev.Zoo.Message.{check_version_txn, set_acl_txn, set_max_children_txn}
use coev.Zoo.Message.{create_session_txn, close_session_txn, error_txn, txn, multi_txn}
use coev.Zoo.Message.{put, get, buffer, sent}
use coev.Zoo.Message.AsRead.{as_read, Fits}

message-Travels : (m : Message) → Fits m → Travels (put m) (get m) (as_read m)
unfolding put get
message-Travels (zoo_id v) h = last-Travels zoo_id (zoo_id-Travels v h)
message-Travels (acl v) h = last-Travels acl (acl-Travels v h)
message-Travels (stat v) h = last-Travels stat (stat-Travels v)
message-Travels (stat_persisted v) h = last-Travels stat_persisted (stat_persisted-Travels v)
message-Travels (client_info v) h = last-Travels client_info (client_info-Travels v h)
message-Travels (connect_request v) h = last-Travels connect_request (connect_request-Travels v h)
message-Travels (connect_response v) h =
    last-Travels connect_response (connect_response-Travels v h)
message-Travels (request_header v) h = last-Travels request_header (request_header-Travels v)
message-Travels (multi_header v) h = last-Travels multi_header (multi_header-Travels v)
message-Travels (reply_header v) h = last-Travels reply_header (reply_header-Travels v)
message-Travels (auth_packet v) h = last-Travels auth_packet (auth_packet-Travels v h)
message-Travels (error_response v) h = last-Travels error_response (error_response-Travels v)
message-Travels (get_sasl_request v) h =
    last-Travels get_sasl_request (get_sasl_request-Travels v h)
message-Travels (set_sasl_request v) h =
    last-Travels set_sasl_request (set_sasl_request-Travels v h)
message-Travels (set_sasl_response v) h =
    last-Travels set_sasl_response (set_sasl_response-Travels v h)
message-Travels (who_ami_response v) h =
    last-Travels who_ami_response (who_ami_response-Travels v h)
message-Travels (get_acl_request v) h = last-Travels get_acl_request (get_acl_request-Travels v h)
message-Travels (get_acl_response v) h = last-Travels get_acl_response (get_acl_response-Travels v)
message-Travels (set_acl_request v) h = last-Travels set_acl_request (set_acl_request-Travels v h)
message-Travels (set_acl_response v) h = last-Travels set_acl_response (set_acl_response-Travels v)
message-Travels (set_watches v) h = last-Travels set_watches (set_watches-Travels v h)
message-Travels (set_watches2 v) h = last-Travels set_watches2 (set_watches2-Travels v h)
message-Travels (add_watch_request v) h =
    last-Travels add_watch_request (add_watch_request-Travels v h)
message-Travels (watcher_event v) h = last-Travels watcher_event (watcher_event-Travels v h)
message-Travels (check_watches_request v) h =
    last-Travels check_watches_request (check_watches_request-Travels v h)
message-Travels (remove_watches_request v) h =
    last-Travels remove_watches_request (remove_watches_request-Travels v h)
message-Travels (get_data_request v) h =
    last-Travels get_data_request (get_data_request-Travels v h)
message-Travels (get_data_response v) h =
    last-Travels get_data_response (get_data_response-Travels v h)
message-Travels (set_data_request v) h =
    last-Travels set_data_request (set_data_request-Travels v h)
message-Travels (set_data_response v) h =
    last-Travels set_data_response (set_data_response-Travels v)
message-Travels (delete_request v) h = last-Travels delete_request (delete_request-Travels v h)
message-Travels (exists_request v) h = last-Travels exists_request (exists_request-Travels v h)
message-Travels (exists_response v) h = last-Travels exists_response (exists_response-Travels v)
message-Travels (check_version_request v) h =
    last-Travels check_version_request (check_version_request-Travels v h)
message-Travels (sync_request v) h = last-Travels sync_request (sync_request-Travels v h)
message-Travels (sync_response v) h = last-Travels sync_response (sync_response-Travels v h)
message-Travels (reconfig_request v) h =
    last-Travels reconfig_request (reconfig_request-Travels v h)
message-Travels (create_request v) h = last-Travels create_request (create_request-Travels v h)
message-Travels (create_ttl_request v) h =
    last-Travels create_ttl_request (create_ttl_request-Travels v h)
message-Travels (create_response v) h = last-Travels create_response (create_response-Travels v h)
message-Travels (create2_response v) h =
    last-Travels create2_response (create2_response-Travels v h)
message-Travels (get_children_request v) h =
    last-Travels get_children_request (get_children_request-Travels v h)
message-Travels (get_children_response v) h =
    last-Travels get_children_response (get_children_response-Travels v h)
message-Travels (get_children2_request v) h =
    last-Travels get_children2_request (get_children2_request-Travels v h)
message-Travels (get_children2_response v) h =
    last-Travels get_children2_response (get_children2_response-Travels v h)
message-Travels (get_all_children_number_request v) h =
    last-Travels get_all_children_number_request (get_all_children_number_request-Travels v h)
message-Travels (get_all_children_number_response v) h =
    last-Travels get_all_children_number_response (get_all_children_number_response-Travels v)
message-Travels (get_max_children_request v) h =
    last-Travels get_max_children_request (get_max_children_request-Travels v h)
message-Travels (get_max_children_response v) h =
    last-Travels get_max_children_response (get_max_children_response-Travels v)
message-Travels (set_max_children_request v) h =
    last-Travels set_max_children_request (set_max_children_request-Travels v h)
message-Travels (get_ephemerals_request v) h =
    last-Travels get_ephemerals_request (get_ephemerals_request-Travels v h)
message-Travels (get_ephemerals_response v) h =
    last-Travels get_ephemerals_response (get_ephemerals_response-Travels v h)
message-Travels (learner_info v) h = last-Travels learner_info (learner_info-Travels v)
message-Travels (quorum_packet v) h = last-Travels quorum_packet (quorum_packet-Travels v h)
message-Travels (quorum_auth_packet v) h =
    last-Travels quorum_auth_packet (quorum_auth_packet-Travels v h)
message-Travels (file_header v) h = last-Travels file_header (file_header-Travels v)
message-Travels (txn_digest v) h = last-Travels txn_digest (txn_digest-Travels v)
message-Travels (txn_header v) h = last-Travels txn_header (txn_header-Travels v)
message-Travels (create_txn_v0 v) h = last-Travels create_txn_v0 (create_txn_v0-Travels v h)
message-Travels (create_txn v) h = last-Travels create_txn (create_txn-Travels v h)
message-Travels (create_ttl_txn v) h = last-Travels create_ttl_txn (create_ttl_txn-Travels v h)
message-Travels (create_container_txn v) h =
    last-Travels create_container_txn (create_container_txn-Travels v h)
message-Travels (delete_txn v) h = last-Travels delete_txn (delete_txn-Travels v h)
message-Travels (set_data_txn v) h = last-Travels set_data_txn (set_data_txn-Travels v h)
message-Travels (check_version_txn v) h =
    last-Travels check_version_txn (check_version_txn-Travels v h)
message-Travels (set_acl_txn v) h = last-Travels set_acl_txn (set_acl_txn-Travels v h)
message-Travels (set_max_children_txn v) h =
    last-Travels set_max_children_txn (set_max_children_txn-Travels v h)
message-Travels (create_session_txn v) h =
    last-Travels create_session_txn (create_session_txn-Travels v)
message-Travels (close_session_txn v) h =
    last-Travels close_session_txn (close_session_txn-Travels v h)
message-Travels (error_txn v) h = last-Travels error_txn (error_txn-Travels v)
message-Travels (txn v) h = last-Travels txn (txn-Travels v h)
message-Travels (multi_txn v) h = last-Travels multi_txn (multi_txn-Travels v h)

-- Every message whose strings are not empty, and whose strings, vectors and buffer have fewer than
-- 2 ^ 31 chars or items, is written without an error, and what is read from the buffer, to its end, is
-- the message: with each 64-bit number cut to its upper half, each list of access rights empty, each
-- bool 0 or 1, and each 32-bit number as an int32_t, which it is.
pub message_round_trip :
    (m : Message)
    → Fits m
    → length (sent m) < 2 ^ 31
    → (put m [] ≡ ok tt (sent m)) × (get m (sent m) ≡ ok (as_read m) [])
message_round_trip m h n =
    let t = message-Travels m h in
    let same : sent m ≡ t.bytes = ap buffer (t.written []) in
    (
      t.written [] ∙ ap (ok tt) (sym same),
      ap (get m) (same ∙ sym (append-nil t.bytes))
          ∙ t.read [] (subst (λ l. length l < 2 ^ 31) (same ∙ sym (append-nil t.bytes)) n),
    )
