-- ===== src/Zoo/Basic.antt =====
-- proto.h and proto.cpp of src/coev_zookeeper: an identity, an access list, the state of a node, and vectors.
pub mod Travels
use coev.Base.{
  ℕ, List, [], ◌∷◌, take, map, All, ◌<◌, ◌^◌, length, ◌≡◌, refl, sym, ap, ◌∙◌, ◌++◌, append-nil,
}
use coev.Base.Int.{ℤ, pos}
use coev.Zoo.Archive.{Outcome, ok, err, fault, and_then, Call, ◌>>=◌, ◌>>◌, pure}
use coev.Zoo.Archive.{put_int, put_long, put_bool, put_string, put_buffer, put_each}
use coev.Zoo.Archive.{put_vec, get_int, get_long, get_bool, get_string, get_buffer}
use coev.Zoo.Archive.{items, get_vec}

pub record ZooId : Type 0 where
  pub scheme : List ℕ
  pub id : List ℕ

unfoldable pub put_zoo_id : ZooId → Call (Unit {0})
put_zoo_id v = do put_string v.scheme; put_string v.id

unfoldable pub get_zoo_id : Call ZooId
get_zoo_id = do scheme ← get_string; id ← get_string; pure (record { scheme = scheme; id = id })

pub record Acl : Type 0 where
  pub perms : ℤ
  pub id : ZooId

unfoldable pub put_acl : Acl → Call (Unit {0})
put_acl v = do put_int v.perms; put_zoo_id v.id

unfoldable pub get_acl : Call Acl
get_acl = do perms ← get_int; id ← get_zoo_id; pure (record { perms = perms; id = id })

-- The number of items that is written is count, which is 0.
unfoldable pub put_acl_vec : List Acl → Call (Unit {0})
put_acl_vec v = put_int (pos 0) >> put_each put_acl (take 0 v)

unfoldable pub get_acl_vec : Call (List Acl)
get_acl_vec = get_vec get_acl

pub record Stat : Type 0 where
  pub czxid : ℤ
  pub mzxid : ℤ
  pub ctime : ℤ
  pub mtime : ℤ
  pub version : ℤ
  pub cversion : ℤ
  pub aversion : ℤ
  pub ephemeral_owner : ℤ
  pub data_length : ℤ
  pub num_children : ℤ
  pub pzxid : ℤ

unfoldable pub put_stat : Stat → Call (Unit {0})
put_stat v = do
  put_long v.czxid
  put_long v.mzxid
  put_long v.ctime
  put_long v.mtime
  put_int v.version
  put_int v.cversion
  put_int v.aversion
  put_long v.ephemeral_owner
  put_int v.data_length
  put_int v.num_children
  put_long v.pzxid

unfoldable pub get_stat : Call Stat
get_stat = do
  czxid ← get_long
  mzxid ← get_long
  ctime ← get_long
  mtime ← get_long
  version ← get_int
  cversion ← get_int
  aversion ← get_int
  ephemeral_owner ← get_long
  data_length ← get_int
  num_children ← get_int
  pzxid ← get_long
  pure (record {
    czxid = czxid;
    mzxid = mzxid;
    ctime = ctime;
    mtime = mtime;
    version = version;
    cversion = cversion;
    aversion = aversion;
    ephemeral_owner = ephemeral_owner;
    data_length = data_length;
    num_children = num_children;
    pzxid = pzxid;
  })

pub record StatPersisted : Type 0 where
  pub czxid : ℤ
  pub mzxid : ℤ
  pub ctime : ℤ
  pub mtime : ℤ
  pub version : ℤ
  pub cversion : ℤ
  pub aversion : ℤ
  pub ephemeral_owner : ℤ
  pub pzxid : ℤ

unfoldable pub put_stat_persisted : StatPersisted → Call (Unit {0})
put_stat_persisted v = do
  put_long v.czxid
  put_long v.mzxid
  put_long v.ctime
  put_long v.mtime
  put_int v.version
  put_int v.cversion
  put_int v.aversion
  put_long v.ephemeral_owner
  put_long v.pzxid

unfoldable pub get_stat_persisted : Call StatPersisted
get_stat_persisted = do
  czxid ← get_long
  mzxid ← get_long
  ctime ← get_long
  mtime ← get_long
  version ← get_int
  cversion ← get_int
  aversion ← get_int
  ephemeral_owner ← get_long
  pzxid ← get_long
  pure (record {
    czxid = czxid;
    mzxid = mzxid;
    ctime = ctime;
    mtime = mtime;
    version = version;
    cversion = cversion;
    aversion = aversion;
    ephemeral_owner = ephemeral_owner;
    pzxid = pzxid;
  })

pub record ClientInfo : Type 0 where
  pub auth_scheme : List ℕ
  pub user : List ℕ

unfoldable pub put_client_info : ClientInfo → Call (Unit {0})
put_client_info v = do put_string v.auth_scheme; put_string v.user

unfoldable pub get_client_info : Call ClientInfo
get_client_info = do
  auth_scheme ← get_string
  user ← get_string
  pure (record { auth_scheme = auth_scheme; user = user })

unfoldable pub put_client_info_vec : List ClientInfo → Call (Unit {0})
put_client_info_vec = put_vec put_client_info

unfoldable pub get_client_info_vec : Call (List ClientInfo)
get_client_info_vec = get_vec get_client_info

unfoldable pub put_id_vec : List ZooId → Call (Unit {0})
put_id_vec = put_vec put_zoo_id

-- The count is not set where it cannot be read.
abbrev counted_ids : Outcome ℤ → Outcome (List ZooId)
counted_ids (ok n s) = items get_zoo_id n s
counted_ids (err c s) = fault
counted_ids fault = fault

unfoldable pub get_id_vec : Call (List ZooId)
get_id_vec s = counted_ids (get_int s)

unfoldable pub put_string_vec : List (List ℕ) → Call (Unit {0})
put_string_vec = put_vec put_string

unfoldable pub get_string_vec : Call (List (List ℕ))
get_string_vec = get_vec get_string
