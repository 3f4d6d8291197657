-- ===== src/Zoo/Quorum/Travels.antt =====
-- How the messages of Quorum travel.
use coev.Zoo.Archive.Rules.{Travels, then-Travels, last-Travels}
use coev.Zoo.Archive.Values.{int32, high, int-Travels, long-Travels}
use coev.Zoo.Archive.Values.{IsText, IsVec}
use coev.Zoo.Archive.Values.{buffer-Travels}
use coev.Zoo.Quorum.{LearnerInfo, put_learner_info, get_learner_info, QuorumPacket}
use coev.Zoo.Quorum.{put_quorum_packet, get_quorum_packet, QuorumAuthPacket}
use coev.Zoo.Quorum.{put_quorum_auth_packet, get_quorum_auth_packet, FileHeader}
use coev.Zoo.Quorum.{put_file_header, get_file_header, TxnDigest, put_txn_digest}
use coev.Zoo.Quorum.{get_txn_digest}
use coev.Zoo.Basic.Travels.{FitZooId}
use coev.Zoo.Basic.Travels.{id_vec-Travels}

abbrev pub read_learner_info : LearnerInfo → LearnerInfo
read_learner_info v = record {
  serverid = high v.serverid;
  protocol_version = int32 v.protocol_version;
  config_version = high v.config_version;
}

pub learner_info-Travels :
    (v : LearnerInfo) → Travels (put_learner_info v) get_learner_info (read_learner_info v)
unfolding put_learner_info get_learner_info
learner_info-Travels v = then-Travels _ (long-Travels v.serverid) (
    then-Travels _ (int-Travels v.protocol_version)
      (last-Travels _ (long-Travels v.config_version)))

abbrev pub FitQuorumPacket : QuorumPacket → Type 0
FitQuorumPacket v = (IsText v.data_bytes) × (IsVec FitZooId v.authinfo)

abbrev pub read_quorum_packet : QuorumPacket → QuorumPacket
read_quorum_packet v = record {
  kind = int32 v.kind;
  zxid = high v.zxid;
  data_bytes = v.data_bytes;
  authinfo = v.authinfo;
}

pub quorum_packet-Travels :
    (v : QuorumPacket)
    → FitQuorumPacket v
    → Travels (put_quorum_packet v) get_quorum_packet (read_quorum_packet v)
unfolding put_quorum_packet get_quorum_packet
quorum_packet-Travels v (h0, h1) = then-Travels _ (int-Travels v.kind) (
    then-Travels _ (long-Travels v.zxid) (
      then-Travels _ (buffer-Travels v.data_bytes h0)
        (last-Travels _ (id_vec-Travels v.authinfo h1))))

abbrev pub FitQuorumAuthPacket : QuorumAuthPacket → Type 0
FitQuorumAuthPacket v = IsText v.token

abbrev pub read_quorum_auth_packet : QuorumAuthPacket → QuorumAuthPacket
read_quorum_auth_packet v = record {
  magic = high v.magic;
  status = int32 v.status;
  token = v.token;
}

pub quorum_auth_packet-Travels :
    (v : QuorumAuthPacket)
    → FitQuorumAuthPacket v
    → Travels (put_quorum_auth_packet v) get_quorum_auth_packet (read_quorum_auth_packet v)
unfolding put_quorum_auth_packet get_quorum_auth_packet
quorum_auth_packet-Travels v h =
    then-Travels _ (long-Travels v.magic)
      (then-Travels _ (int-Travels v.status) (last-Travels _ (buffer-Travels v.token h)))

abbrev pub read_file_header : FileHeader → FileHeader
read_file_header v = record { magic = int32 v.magic; version = int32 v.version; dbid = high v.dbid }

pub file_header-Travels :
    (v : FileHeader) → Travels (put_file_header v) get_file_header (read_file_header v)
unfolding put_file_header get_file_header
file_header-Travels v =
    then-Travels _ (int-Travels v.magic)
      (then-Travels _ (int-Travels v.version) (last-Travels _ (long-Travels v.dbid)))

abbrev pub read_txn_digest : TxnDigest → TxnDigest
read_txn_digest v = record { version = int32 v.version; tree_digest = high v.tree_digest }

pub txn_digest-Travels :
    (v : TxnDigest) → Travels (put_txn_digest v) get_txn_digest (read_txn_digest v)
unfolding put_txn_digest get_txn_digest
txn_digest-Travels v =
    then-Travels _ (int-Travels v.version) (last-Travels _ (long-Travels v.tree_digest))
