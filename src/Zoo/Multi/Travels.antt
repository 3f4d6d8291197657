-- ===== src/Zoo/Multi/Travels.antt =====
-- How transactions on access lists and sessions, and several in one travel.
use coev.Base.{List, [], map}
use coev.Zoo.Archive.Rules.{Travels, then-Travels, last-Travels}
use coev.Zoo.Archive.Values.{int32, int-Travels}
use coev.Zoo.Archive.Values.{IsText, IsVec, string-Travels}
use coev.Zoo.Archive.Values.{buffer-Travels, vec-Travels}
use coev.Zoo.Multi.{SetAclTxn, put_set_acl_txn, get_set_acl_txn, SetMaxChildrenTxn}
use coev.Zoo.Multi.{put_set_max_children_txn, get_set_max_children_txn}
use coev.Zoo.Multi.{CreateSessionTxn, put_create_session_txn, get_create_session_txn}
use coev.Zoo.Multi.{CloseSessionTxn, put_close_session_txn, get_close_session_txn}
use coev.Zoo.Multi.{ErrorTxn, put_error_txn, get_error_txn, Txn, put_txn, get_txn}
use coev.Zoo.Multi.{put_txn_vec, get_txn_vec, MultiTxn, put_multi_txn, get_multi_txn}
use coev.Zoo.Basic.Travels.{acl_vec-Travels}
use coev.Zoo.Basic.Travels.{string_vec-Travels}

abbrev pub FitSetAclTxn : SetAclTxn → Type 0
FitSetAclTxn v = IsText v.path

abbrev pub read_set_acl_txn : SetAclTxn → SetAclTxn
read_set_acl_txn v = record { path = v.path; acl = []; version = int32 v.version }

pub set_acl_txn-Travels :
    (v : SetAclTxn)
    → FitSetAclTxn v
    → Travels (put_set_acl_txn v) get_set_acl_txn (read_set_acl_txn v)
unfolding put_set_acl_txn get_set_acl_txn
set_acl_txn-Travels v h =
    then-Travels _ (string-Travels v.path h)
      (then-Travels _ (acl_vec-Travels v.acl) (last-Travels _ (int-Travels v.version)))

abbrev pub FitSetMaxChildrenTxn : SetMaxChildrenTxn → Type 0
FitSetMaxChildrenTxn v = IsText v.path

abbrev pub read_set_max_children_txn : SetMaxChildrenTxn → SetMaxChildrenTxn
read_set_max_children_txn v = record { path = v.path; max = int32 v.max }

pub set_max_children_txn-Travels :
    (v : SetMaxChildrenTxn)
    → FitSetMaxChildrenTxn v
    → Travels (put_set_max_children_txn v) get_set_max_children_txn (read_set_max_children_txn v)
unfolding put_set_max_children_txn get_set_max_children_txn
set_max_children_txn-Travels v h =
    then-Travels _ (string-Travels v.path h) (last-Travels _ (int-Travels v.max))

abbrev pub read_create_session_txn : CreateSessionTxn → CreateSessionTxn
read_create_session_txn v = record { time_out = int32 v.time_out }

pub create_session_txn-Travels :
    (v : CreateSessionTxn)
    → Travels (put_create_session_txn v) get_create_session_txn (read_create_session_txn v)
unfolding put_create_session_txn get_create_session_txn
create_session_txn-Travels v = last-Travels _ (int-Travels v.time_out)

abbrev pub FitCloseSessionTxn : CloseSessionTxn → Type 0
FitCloseSessionTxn v = IsVec IsText v.paths2_delete

pub close_session_txn-Travels :
    (v : CloseSessionTxn)
    → FitCloseSessionTxn v
    → Travels (put_close_session_txn v) get_close_session_txn v
unfolding put_close_session_txn get_close_session_txn
close_session_txn-Travels v h = last-Travels _ (string_vec-Travels v.paths2_delete h)

abbrev pub read_error_txn : ErrorTxn → ErrorTxn
read_error_txn v = record { err_code = int32 v.err_code }

pub error_txn-Travels : (v : ErrorTxn) → Travels (put_error_txn v) get_error_txn (read_error_txn v)
unfolding put_error_txn get_error_txn
error_txn-Travels v = last-Travels _ (int-Travels v.err_code)

abbrev pub FitTxn : Txn → Type 0
FitTxn v = IsText v.data_bytes

abbrev pub read_txn : Txn → Txn
read_txn v = record { kind = int32 v.kind; data_bytes = v.data_bytes }

pub txn-Travels : (v : Txn) → FitTxn v → Travels (put_txn v) get_txn (read_txn v)
unfolding put_txn get_txn
txn-Travels v h =
    then-Travels _ (int-Travels v.kind) (last-Travels _ (buffer-Travels v.data_bytes h))

pub txn_vec-Travels :
    (v : List Txn) → IsVec FitTxn v → Travels (put_txn_vec v) get_txn_vec (map read_txn v)
unfolding put_txn_vec get_txn_vec
txn_vec-Travels v (n, h) = vec-Travels put_txn get_txn read_txn FitTxn txn-Travels v n h

abbrev pub FitMultiTxn : MultiTxn → Type 0
FitMultiTxn v = IsVec FitTxn v.txns

abbrev pub read_multi_txn : MultiTxn → MultiTxn
read_multi_txn v = record { txns = map read_txn v.txns }

pub multi_txn-Travels :
    (v : MultiTxn) → FitMultiTxn v → Travels (put_multi_txn v) get_multi_txn (read_multi_txn v)
unfolding put_multi_txn get_multi_txn
multi_txn-Travels v h = last-Travels _ (txn_vec-Travels v.txns h)
