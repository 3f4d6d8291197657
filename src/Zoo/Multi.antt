-- ===== src/Zoo/Multi.antt =====
-- proto.h and proto.cpp of src/coev_zookeeper: transactions on access lists and sessions, and several in one.
pub mod Travels
use coev.Base.{
  ℕ, List, [], ◌∷◌, take, map, All, ◌<◌, ◌^◌, length, ◌≡◌, refl, sym, ap, ◌∙◌, ◌++◌, append-nil,
}
use coev.Base.Int.{ℤ, pos}
use coev.Zoo.Archive.{Outcome, ok, err, fault, and_then, Call, ◌>>=◌, ◌>>◌, pure}
use coev.Zoo.Archive.{put_int, put_long, put_bool, put_string, put_buffer, put_each}
use coev.Zoo.Archive.{put_vec, get_int, get_long, get_bool, get_string, get_buffer}
use coev.Zoo.Archive.{items, get_vec}
use coev.Zoo.Basic.{ZooId, put_zoo_id, get_zoo_id, Acl, put_acl, get_acl, put_acl_vec}
use coev.Zoo.Basic.{get_acl_vec, Stat, put_stat, get_stat, StatPersisted}
use coev.Zoo.Basic.{put_stat_persisted, get_stat_persisted, ClientInfo}
use coev.Zoo.Basic.{put_client_info, get_client_info, put_client_info_vec}
use coev.Zoo.Basic.{get_client_info_vec, put_id_vec, get_id_vec, put_string_vec}
use coev.Zoo.Basic.{get_string_vec}

pub record SetAclTxn : Type 0 where
  pub path : List ℕ
  pub acl : List Acl
  pub version : ℤ

unfoldable pub put_set_acl_txn : SetAclTxn → Call (Unit {0})
put_set_acl_txn v = do put_string v.path; put_acl_vec v.acl; put_int v.version

unfoldable pub get_set_acl_txn : Call SetAclTxn
get_set_acl_txn = do
  path ← get_string
  acl ← get_acl_vec
  version ← get_int
  pure (record { path = path; acl = acl; version = version })

pub record SetMaxChildrenTxn : Type 0 where
  pub path : List ℕ
  pub max : ℤ

unfoldable pub put_set_max_children_txn : SetMaxChildrenTxn → Call (Unit {0})
put_set_max_children_txn v = do put_string v.path; put_int v.max

unfoldable pub get_set_max_children_txn : Call SetMaxChildrenTxn
get_set_max_children_txn = do
  path ← get_string
  max ← get_int
  pure (record { path = path; max = max })

pub record CreateSessionTxn : Type 0 where
  pub time_out : ℤ

unfoldable pub put_create_session_txn : CreateSessionTxn → Call (Unit {0})
put_create_session_txn v = put_int v.time_out

unfoldable pub get_create_session_txn : Call CreateSessionTxn
get_create_session_txn = do time_out ← get_int; pure (record { time_out = time_out })

pub record CloseSessionTxn : Type 0 where
  pub paths2_delete : List (List ℕ)

unfoldable pub put_close_session_txn : CloseSessionTxn → Call (Unit {0})
put_close_session_txn v = put_string_vec v.paths2_delete

unfoldable pub get_close_session_txn : Call CloseSessionTxn
get_close_session_txn = do
  paths2_delete ← get_string_vec
  pure (record { paths2_delete = paths2_delete })

pub record ErrorTxn : Type 0 where
  pub err_code : ℤ

unfoldable pub put_error_txn : ErrorTxn → Call (Unit {0})
put_error_txn v = put_int v.err_code

unfoldable pub get_error_txn : Call ErrorTxn
get_error_txn = do err_code ← get_int; pure (record { err_code = err_code })

pub record Txn : Type 0 where
  pub kind : ℤ
  pub data_bytes : List ℕ

unfoldable pub put_txn : Txn → Call (Unit {0})
put_txn v = do put_int v.kind; put_buffer v.data_bytes

unfoldable pub get_txn : Call Txn
get_txn = do
  kind ← get_int
  data_bytes ← get_buffer
  pure (record { kind = kind; data_bytes = data_bytes })

unfoldable pub put_txn_vec : List Txn → Call (Unit {0})
put_txn_vec = put_vec put_txn

unfoldable pub get_txn_vec : Call (List Txn)
get_txn_vec = get_vec get_txn

pub record MultiTxn : Type 0 where
  pub txns : List Txn

unfoldable pub put_multi_txn : MultiTxn → Call (Unit {0})
put_multi_txn v = put_txn_vec v.txns

unfoldable pub get_multi_txn : Call MultiTxn
get_multi_txn = do txns ← get_txn_vec; pure (record { txns = txns })
