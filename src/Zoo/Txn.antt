-- ===== src/Zoo/Txn.antt =====
-- proto.h and proto.cpp of src/coev_zookeeper: transactions.
pub mod Travels
use coev.Base.{
  ℕ, List, [], ◌∷◌, take, map, All, ◌<◌, ◌^◌, length, ◌≡◌, refl, sym, ap, ◌∙◌, ◌++◌, append-nil,
}
use coev.Base.Int.{ℤ, pos}
use coev.Zoo.Archive.{Outcome, ok, err, fault, and_then, Call, ◌>>=◌, ◌>>◌, pure}
use coev.Zoo.Archive.{put_int, put_long, put_bool, put_string, put_buffer, put_each}
use coev.Zoo.Archive.{put_vec, get_int, get_long, get_bool, get_string, get_buffer}
use coev.Zoo.Archive.{items, get_vec}
use coev.Zoo.Basic.{ZooId, put_zoo_id, get_zoo_id, Acl, put_acl, get_acl, put_acl_vec}
use coev.Zoo.Basic.{get_acl_vec, Stat, put_stat, get_stat, StatPersisted}
use coev.Zoo.Basic.{put_stat_persisted, get_stat_persisted, ClientInfo}
use coev.Zoo.Basic.{put_client_info, get_client_info, put_client_info_vec}
use coev.Zoo.Basic.{get_client_info_vec, put_id_vec, get_id_vec, put_string_vec}
use coev.Zoo.Basic.{get_string_vec}

pub record TxnHeader : Type 0 where
  pub client_id : ℤ
  pub cxid : ℤ
  pub zxid : ℤ
  pub time : ℤ
  pub kind : ℤ

unfoldable pub put_txn_header : TxnHeader → Call (Unit {0})
put_txn_header v = do
  put_long v.client_id
  put_int v.cxid
  put_long v.zxid
  put_long v.time
  put_int v.kind

unfoldable pub get_txn_header : Call TxnHeader
get_txn_header = do
  client_id ← get_long
  cxid ← get_int
  zxid ← get_long
  time ← get_long
  kind ← get_int
  pure (record { client_id = client_id; cxid = cxid; zxid = zxid; time = time; kind = kind })

pub record CreateTxnV0 : Type 0 where
  pub path : List ℕ
  pub data_bytes : List ℕ
  pub acl : List Acl
  pub ephemeral : ℤ

unfoldable pub put_create_txn_v0 : CreateTxnV0 → Call (Unit {0})
put_create_txn_v0 v = do
  put_string v.path
  put_buffer v.data_bytes
  put_acl_vec v.acl
  put_bool v.ephemeral

unfoldable pub get_create_txn_v0 : Call CreateTxnV0
get_create_txn_v0 = do
  path ← get_string
  data_bytes ← get_buffer
  acl ← get_acl_vec
  ephemeral ← get_bool
  pure (record { path = path; data_bytes = data_bytes; acl = acl; ephemeral = ephemeral })

pub record CreateTxn : Type 0 where
  pub path : List ℕ
  pub data_bytes : List ℕ
  pub acl : List Acl
  pub ephemeral : ℤ
  pub parent_cversion : ℤ

unfoldable pub put_create_txn : CreateTxn → Call (Unit {0})
put_create_txn v = do
  put_string v.path
  put_buffer v.data_bytes
  put_acl_vec v.acl
  put_bool v.ephemeral
  put_int v.parent_cversion

unfoldable pub get_create_txn : Call CreateTxn
get_create_txn = do
  path ← get_string
  data_bytes ← get_buffer
  acl ← get_acl_vec
  ephemeral ← get_bool
  parent_cversion ← get_int
  pure (record {
    path = path;
    data_bytes = data_bytes;
    acl = acl;
    ephemeral = ephemeral;
    parent_cversion = parent_cversion;
  })

pub record CreateTtlTxn : Type 0 where
  pub path : List ℕ
  pub data_bytes : List ℕ
  pub acl : List Acl
  pub parent_cversion : ℤ
  pub ttl : ℤ

unfoldable pub put_create_ttl_txn : CreateTtlTxn → Call (Unit {0})
put_create_ttl_txn v = do
  put_string v.path
  put_buffer v.data_bytes
  put_acl_vec v.acl
  put_int v.parent_cversion
  put_long v.ttl

unfoldable pub get_create_ttl_txn : Call CreateTtlTxn
get_create_ttl_txn = do
  path ← get_string
  data_bytes ← get_buffer
  acl ← get_acl_vec
  parent_cversion ← get_int
  ttl ← get_long
  pure (record {
    path = path;
    data_bytes = data_bytes;
    acl = acl;
    parent_cversion = parent_cversion;
    ttl = ttl;
  })

pub record CreateContainerTxn : Type 0 where
  pub path : List ℕ
  pub data_bytes : List ℕ
  pub acl : List Acl
  pub parent_cversion : ℤ

unfoldable pub put_create_container_txn : CreateContainerTxn → Call (Unit {0})
put_create_container_txn v = do
  put_string v.path
  put_buffer v.data_bytes
  put_acl_vec v.acl
  put_int v.parent_cversion

unfoldable pub get_create_container_txn : Call CreateContainerTxn
get_create_container_txn = do
  path ← get_string
  data_bytes ← get_buffer
  acl ← get_acl_vec
  parent_cversion ← get_int
  pure (record {
    path = path;
    data_bytes = data_bytes;
    acl = acl;
    parent_cversion = parent_cversion;
  })

pub record DeleteTxn : Type 0 where
  pub path : List ℕ

unfoldable pub put_delete_txn : DeleteTxn → Call (Unit {0})
put_delete_txn v = put_string v.path

unfoldable pub get_delete_txn : Call DeleteTxn
get_delete_txn = do path ← get_string; pure (record { path = path })

pub record SetDataTxn : Type 0 where
  pub path : List ℕ
  pub data_bytes : List ℕ
  pub version : ℤ

unfoldable pub put_set_data_txn : SetDataTxn → Call (Unit {0})
put_set_data_txn v = do put_string v.path; put_buffer v.data_bytes; put_int v.version

unfoldable pub get_set_data_txn : Call SetDataTxn
get_set_data_txn = do
  path ← get_string
  data_bytes ← get_buffer
  version ← get_int
  pure (record { path = path; data_bytes = data_bytes; version = version })

pub record CheckVersionTxn : Type 0 where
  pub path : List ℕ
  pub version : ℤ

unfoldable pub put_check_version_txn : CheckVersionTxn → Call (Unit {0})
put_check_version_txn v = do put_string v.path; put_int v.version

unfoldable pub get_check_version_txn : Call CheckVersionTxn
get_check_version_txn = do
  path ← get_string
  version ← get_int
  pure (record { path = path; version = version })
