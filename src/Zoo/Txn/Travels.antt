-- ===== src/Zoo/Txn/Travels.antt =====
-- How transactions travel.
use coev.Base.{[]}
use coev.Zoo.Archive.Rules.{Travels, then-Travels, last-Travels}
use coev.Zoo.Archive.Values.{int32, high, flag, int-Travels, long-Travels}
use coev.Zoo.Archive.Values.{bool-Travels, IsText, string-Travels}
use coev.Zoo.Archive.Values.{buffer-Travels}
use coev.Zoo.Txn.{TxnHeader, put_txn_header, get_txn_header, CreateTxnV0}
use coev.Zoo.Txn.{put_create_txn_v0, get_create_txn_v0, CreateTxn, put_create_txn}
use coev.Zoo.Txn.{get_create_txn, CreateTtlTxn, put_create_ttl_txn, get_create_ttl_txn}
use coev.Zoo.Txn.{CreateContainerTxn, put_create_container_txn}
use coev.Zoo.Txn.{get_create_container_txn, DeleteTxn, put_delete_txn, get_delete_txn}
use coev.Zoo.Txn.{SetDataTxn, put_set_data_txn, get_set_data_txn, CheckVersionTxn}
use coev.Zoo.Txn.{put_check_version_txn, get_check_version_txn}
use coev.Zoo.Basic.Travels.{acl_vec-Travels}

abbrev pub read_txn_header : TxnHeader → TxnHeader
read_txn_header v = record {
  client_id = high v.client_id;
  cxid = int32 v.cxid;
  zxid = high v.zxid;
  time = high v.time;
  kind = int32 v.kind;
}

pub txn_header-Travels :
    (v : TxnHeader) → Travels (put_txn_header v) get_txn_header (read_txn_header v)
unfolding put_txn_header get_txn_header
txn_header-Travels v = then-Travels _ (long-Travels v.client_id) (
    then-Travels _ (int-Travels v.cxid) (
      then-Travels _ (long-Travels v.zxid)
        (then-Travels _ (long-Travels v.time) (last-Travels _ (int-Travels v.kind)))))

abbrev pub FitCreateTxnV0 : CreateTxnV0 → Type 0
FitCreateTxnV0 v = (IsText v.path) × (IsText v.data_bytes)

abbrev pub read_create_txn_v0 : CreateTxnV0 → CreateTxnV0
read_create_txn_v0 v = record {
  path = v.path;
  data_bytes = v.data_bytes;
  acl = [];
  ephemeral = flag v.ephemeral;
}

pub create_txn_v0-Travels :
    (v : CreateTxnV0)
    → FitCreateTxnV0 v
    → Travels (put_create_txn_v0 v) get_create_txn_v0 (read_create_txn_v0 v)
unfolding put_create_txn_v0 get_create_txn_v0
create_txn_v0-Travels v (h0, h1) = then-Travels _ (string-Travels v.path h0) (
    then-Travels _ (buffer-Travels v.data_bytes h1)
      (then-Travels _ (acl_vec-Travels v.acl) (last-Travels _ (bool-Travels v.ephemeral))))

abbrev pub FitCreateTxn : CreateTxn → Type 0
FitCreateTxn v = (IsText v.path) × (IsText v.data_bytes)

abbrev pub read_create_txn : CreateTxn → CreateTxn
read_create_txn v = record {
  path = v.path;
  data_bytes = v.data_bytes;
  acl = [];
  ephemeral = flag v.ephemeral;
  parent_cversion = int32 v.parent_cversion;
}

pub create_txn-Travels :
    (v : CreateTxn) → FitCreateTxn v → Travels (put_create_txn v) get_create_txn (read_create_txn v)
unfolding put_create_txn get_create_txn
create_txn-Travels v (h0, h1) = then-Travels _ (string-Travels v.path h0) (
    then-Travels _ (buffer-Travels v.data_bytes h1) (
      then-Travels _ (acl_vec-Travels v.acl) (
        then-Travels _ (bool-Travels v.ephemeral)
          (last-Travels _ (int-Travels v.parent_cversion)))))

abbrev pub FitCreateTtlTxn : CreateTtlTxn → Type 0
FitCreateTtlTxn v = (IsText v.path) × (IsText v.data_bytes)

abbrev pub read_create_ttl_txn : CreateTtlTxn → CreateTtlTxn
read_create_ttl_txn v = record {
  path = v.path;
  data_bytes = v.data_bytes;
  acl = [];
  parent_cversion = int32 v.parent_cversion;
  ttl = high v.ttl;
}

pub create_ttl_txn-Travels :
    (v : CreateTtlTxn)
    → FitCreateTtlTxn v
    → Travels (put_create_ttl_txn v) get_create_ttl_txn (read_create_ttl_txn v)
unfolding put_create_ttl_txn get_create_ttl_txn
create_ttl_txn-Travels v (h0, h1) = then-Travels _ (string-Travels v.path h0) (
    then-Travels _ (buffer-Travels v.data_bytes h1) (
      then-Travels _ (acl_vec-Travels v.acl)
        (then-Travels _ (int-Travels v.parent_cversion) (last-Travels _ (long-Travels v.ttl)))))

abbrev pub FitCreateContainerTxn : CreateContainerTxn → Type 0
FitCreateContainerTxn v = (IsText v.path) × (IsText v.data_bytes)

abbrev pub read_create_container_txn : CreateContainerTxn → CreateContainerTxn
read_create_container_txn v = record {
  path = v.path;
  data_bytes = v.data_bytes;
  acl = [];
  parent_cversion = int32 v.parent_cversion;
}

pub create_container_txn-Travels :
    (v : CreateContainerTxn)
    → FitCreateContainerTxn v
    → Travels (put_create_container_txn v) get_create_container_txn (read_create_container_txn v)
unfolding put_create_container_txn get_create_container_txn
create_container_txn-Travels v (h0, h1) = then-Travels _ (string-Travels v.path h0) (
    then-Travels _ (buffer-Travels v.data_bytes h1)
      (then-Travels _ (acl_vec-Travels v.acl) (last-Travels _ (int-Travels v.parent_cversion))))

abbrev pub FitDeleteTxn : DeleteTxn → Type 0
FitDeleteTxn v = IsText v.path

pub delete_txn-Travels :
    (v : DeleteTxn) → FitDeleteTxn v → Travels (put_delete_txn v) get_delete_txn v
unfolding put_delete_txn get_delete_txn
delete_txn-Travels v h = last-Travels _ (string-Travels v.path h)

abbrev pub FitSetDataTxn : SetDataTxn → Type 0
FitSetDataTxn v = (IsText v.path) × (IsText v.data_bytes)

abbrev pub read_set_data_txn : SetDataTxn → SetDataTxn
read_set_data_txn v = record { path = v.path; data_bytes = v.data_bytes; version = int32 v.version }

pub set_data_txn-Travels :
    (v : SetDataTxn)
    → FitSetDataTxn v
    → Travels (put_set_data_txn v) get_set_data_txn (read_set_data_txn v)
unfolding put_set_data_txn get_set_data_txn
set_data_txn-Travels v (h0, h1) =
    then-Travels _ (string-Travels v.path h0)
      (then-Travels _ (buffer-Travels v.data_bytes h1) (last-Travels _ (int-Travels v.version)))

abbrev pub FitCheckVersionTxn : CheckVersionTxn → Type 0
FitCheckVersionTxn v = IsText v.path

abbrev pub read_check_version_txn : CheckVersionTxn → CheckVersionTxn
read_check_version_txn v = record { path = v.path; version = int32 v.version }

pub check_version_txn-Travels :
    (v : CheckVersionTxn)
    → FitCheckVersionTxn v
    → Travels (put_check_version_txn v) get_check_version_txn (read_check_version_txn v)
unfolding put_check_version_txn get_check_version_txn
check_version_txn-Travels v h =
    then-Travels _ (string-Travels v.path h) (last-Travels _ (int-Travels v.version))
