-- ===== src/Zoo/Quorum.antt =====
-- proto.h and proto.cpp of src/coev_zookeeper: what servers say to each other.
pub mod Travels
use coev.Base.{
  ℕ, List, [], ◌∷◌, take, map, All, ◌<◌, ◌^◌, length, ◌≡◌, refl, sym, ap, ◌∙◌, ◌++◌, append-nil,
}
use coev.Base.Int.{ℤ, pos}
use coev.Zoo.Archive.{Outcome, ok, err, fault, and_then, Call, ◌>>=◌, ◌>>◌, pure}
use coev.Zoo.Archive.{put_int, put_long, put_bool, put_string, put_buffer, put_each}
use coev.Zoo.Archive.{put_vec, get_int, get_long, get_bool, get_string, get_buffer}
use coev.Zoo.Archive.{items, get_vec}
use coev.Zoo.Basic.{ZooId, put_zoo_id, get_zoo_id, Acl, put_acl, get_acl, put_acl_vec}
use coev.Zoo.Basic.{get_acl_vec, Stat, put_stat, get_stat, StatPersisted}
use coev.Zoo.Basic.{put_stat_persisted, get_stat_persisted, ClientInfo}
use coev.Zoo.Basic.{put_client_info, get_client_info, put_client_info_vec}
use coev.Zoo.Basic.{get_client_info_vec, put_id_vec, get_id_vec, put_string_vec}
use coev.Zoo.Basic.{get_string_vec}

pub record LearnerInfo : Type 0 where
  pub serverid : ℤ
  pub protocol_version : ℤ
  pub config_version : ℤ

unfoldable pub put_learner_info : LearnerInfo → Call (Unit {0})
put_learner_info v = do put_long v.serverid; put_int v.protocol_version; put_long v.config_version

unfoldable pub get_learner_info : Call LearnerInfo
get_learner_info = do
  serverid ← get_long
  protocol_version ← get_int
  config_version ← get_long
  pure (record {
    serverid = serverid;
    protocol_version = protocol_version;
    config_version = config_version;
  })

pub record QuorumPacket : Type 0 where
  pub kind : ℤ
  pub zxid : ℤ
  pub data_bytes : List ℕ
  pub authinfo : List ZooId

unfoldable pub put_quorum_packet : QuorumPacket → Call (Unit {0})
put_quorum_packet v = do
  put_int v.kind
  put_long v.zxid
  put_buffer v.data_bytes
  put_id_vec v.authinfo

unfoldable pub get_quorum_packet : Call QuorumPacket
get_quorum_packet = do
  kind ← get_int
  zxid ← get_long
  data_bytes ← get_buffer
  authinfo ← get_id_vec
  pure (record { kind = kind; zxid = zxid; data_bytes = data_bytes; authinfo = authinfo })

pub record QuorumAuthPacket : Type 0 where
  pub magic : ℤ
  pub status : ℤ
  pub token : List ℕ

unfoldable pub put_quorum_auth_packet : QuorumAuthPacket → Call (Unit {0})
put_quorum_auth_packet v = do put_long v.magic; put_int v.status; put_buffer v.token

unfoldable pub get_quorum_auth_packet : Call QuorumAuthPacket
get_quorum_auth_packet = do
  magic ← get_long
  status ← get_int
  token ← get_buffer
  pure (record { magic = magic; status = status; token = token })

pub record FileHeader : Type 0 where
  pub magic : ℤ
  pub version : ℤ
  pub dbid : ℤ

unfoldable pub put_file_header : FileHeader → Call (Unit {0})
put_file_header v = do put_int v.magic; put_int v.version; put_long v.dbid

unfoldable pub get_file_header : Call FileHeader
get_file_header = do
  magic ← get_int
  version ← get_int
  dbid ← get_long
  pure (record { magic = magic; version = version; dbid = dbid })

pub record TxnDigest : Type 0 where
  pub version : ℤ
  pub tree_digest : ℤ

unfoldable pub put_txn_digest : TxnDigest → Call (Unit {0})
put_txn_digest v = do put_int v.version; put_long v.tree_digest

unfoldable pub get_txn_digest : Call TxnDigest
get_txn_digest = do
  version ← get_int
  tree_digest ← get_long
  pure (record { version = version; tree_digest = tree_digest })
