-- ===== src/Zoo/Basic/Travels.antt =====
-- How an identity, an access list, the state of a node, and vectors travel.
use mathlib.Core.Path.{subst}
use coev.Base.{ℕ, List, [], ◌≡◌, ◌++◌}
use coev.Base.Int.{ℤ, pos}
use coev.Zoo.Archive.{Outcome, ok, err, fault, and_then, ◌>>=◌}
use coev.Zoo.Archive.{put_string}
use coev.Zoo.Archive.{put_vec, get_int, get_string}
use coev.Zoo.Archive.{items, get_vec}
use coev.Zoo.Archive.Rules.{Travels, then-Travels, last-Travels, pure-Travels}
use coev.Zoo.Archive.Values.{int32, high, int-Travels, long-Travels}
use coev.Zoo.Archive.Values.{IsText, IsVec, map-id, string-Travels}
use coev.Zoo.Archive.Values.{vec-Travels}
use coev.Zoo.Basic.{ZooId, put_zoo_id, get_zoo_id, Acl, put_acl, get_acl, put_acl_vec}
use coev.Zoo.Basic.{get_acl_vec, Stat, put_stat, get_stat, StatPersisted}
use coev.Zoo.Basic.{put_stat_persisted, get_stat_persisted, ClientInfo}
use coev.Zoo.Basic.{put_client_info, get_client_info, put_client_info_vec}
use coev.Zoo.Basic.{get_client_info_vec, put_id_vec, get_id_vec, put_string_vec}
use coev.Zoo.Basic.{get_string_vec, counted_ids}

abbrev pub FitZooId : ZooId → Type 0
FitZooId v = (IsText v.scheme) × (IsText v.id)

pub zoo_id-Travels : (v : ZooId) → FitZooId v → Travels (put_zoo_id v) get_zoo_id v
unfolding put_zoo_id get_zoo_id
zoo_id-Travels v (h0, h1) =
    then-Travels _ (string-Travels v.scheme h0) (last-Travels _ (string-Travels v.id h1))

abbrev pub FitAcl : Acl → Type 0
FitAcl v = FitZooId v.id

abbrev pub read_acl : Acl → Acl
read_acl v = record { perms = int32 v.perms; id = v.id }

pub acl-Travels : (v : Acl) → FitAcl v → Travels (put_acl v) get_acl (read_acl v)
unfolding put_acl get_acl
acl-Travels v h = then-Travels _ (int-Travels v.perms) (last-Travels _ (zoo_id-Travels v.id h))

pub acl_vec-Travels : (v : List Acl) → Travels (put_acl_vec v) get_acl_vec []
unfolding put_acl_vec get_acl_vec get_vec
acl_vec-Travels v = then-Travels _ (int-Travels (pos 0)) (pure-Travels [])

abbrev pub read_stat : Stat → Stat
read_stat v = record {
  czxid = high v.czxid;
  mzxid = high v.mzxid;
  ctime = high v.ctime;
  mtime = high v.mtime;
  version = int32 v.version;
  cversion = int32 v.cversion;
  aversion = int32 v.aversion;
  ephemeral_owner = high v.ephemeral_owner;
  data_length = int32 v.data_length;
  num_children = int32 v.num_children;
  pzxid = high v.pzxid;
}

pub stat-Travels : (v : Stat) → Travels (put_stat v) get_stat (read_stat v)
unfolding put_stat get_stat
stat-Travels v = then-Travels _ (long-Travels v.czxid) (
    then-Travels _ (long-Travels v.mzxid) (
      then-Travels _ (long-Travels v.ctime) (
        then-Travels _ (long-Travels v.mtime) (
          then-Travels _ (int-Travels v.version) (
            then-Travels _ (int-Travels v.cversion) (
              then-Travels _ (int-Travels v.aversion) (
                then-Travels _ (long-Travels v.ephemeral_owner) (
                  then-Travels _ (int-Travels v.data_length) (
                    then-Travels _ (int-Travels v.num_children)
                      (last-Travels _ (long-Travels v.pzxid)))))))))))

abbrev pub read_stat_persisted : StatPersisted → StatPersisted
read_stat_persisted v = record {
  czxid = high v.czxid;
  mzxid = high v.mzxid;
  ctime = high v.ctime;
  mtime = high v.mtime;
  version = int32 v.version;
  cversion = int32 v.cversion;
  aversion = int32 v.aversion;
  ephemeral_owner = high v.ephemeral_owner;
  pzxid = high v.pzxid;
}

pub stat_persisted-Travels :
    (v : StatPersisted) → Travels (put_stat_persisted v) get_stat_persisted (read_stat_persisted v)
unfolding put_stat_persisted get_stat_persisted
stat_persisted-Travels v = then-Travels _ (long-Travels v.czxid) (
    then-Travels _ (long-Travels v.mzxid) (
      then-Travels _ (long-Travels v.ctime) (
        then-Travels _ (long-Travels v.mtime) (
          then-Travels _ (int-Travels v.version) (
            then-Travels _ (int-Travels v.cversion) (
              then-Travels _ (int-Travels v.aversion) (
                then-Travels _ (long-Travels v.ephemeral_owner)
                  (last-Travels _ (long-Travels v.pzxid)))))))))

abbrev pub FitClientInfo : ClientInfo → Type 0
FitClientInfo v = (IsText v.auth_scheme) × (IsText v.user)

pub client_info-Travels :
    (v : ClientInfo) → FitClientInfo v → Travels (put_client_info v) get_client_info v
unfolding put_client_info get_client_info
client_info-Travels v (h0, h1) =
    then-Travels _ (string-Travels v.auth_scheme h0) (last-Travels _ (string-Travels v.user h1))

pub client_info_vec-Travels :
    (v : List ClientInfo)
    → IsVec FitClientInfo v
    → Travels (put_client_info_vec v) get_client_info_vec v
unfolding put_client_info_vec get_client_info_vec
client_info_vec-Travels v (n, h) =
    subst (λ l. Travels (put_client_info_vec v) get_client_info_vec l) (map-id v)
      (vec-Travels put_client_info get_client_info (λ x. x) FitClientInfo client_info-Travels v n h)

counted-items :
    (o : Outcome ℤ) (v : List ZooId) (rest : List ℕ)
    → and_then o (items get_zoo_id) ≡ ok v rest
    → counted_ids o ≡ ok v rest
counted-items (ok n s) v rest e = e
counted-items (err c s) v rest e = cc
counted-items fault v rest e = cc

counted-Travels :
    (v : List ZooId)
    → Travels (put_vec put_zoo_id v) (get_vec get_zoo_id) v
    → Travels (put_id_vec v) get_id_vec v
unfolding put_id_vec get_id_vec get_vec ◌>>=◌
counted-Travels v t = record {
  bytes = t.bytes;
  written = t.written;
  read = λ rest h. counted-items (get_int (t.bytes ++ rest)) v rest (t.read rest h);
}

pub id_vec-Travels : (v : List ZooId) → IsVec FitZooId v → Travels (put_id_vec v) get_id_vec v
unfolding put_id_vec get_id_vec
id_vec-Travels v (n, h) = counted-Travels v (
    subst (λ l. Travels (put_vec put_zoo_id v) (get_vec get_zoo_id) l) (map-id v)
      (vec-Travels put_zoo_id get_zoo_id (λ x. x) FitZooId zoo_id-Travels v n h))

pub string_vec-Travels :
    (v : List (List ℕ)) → IsVec IsText v → Travels (put_string_vec v) get_string_vec v
unfolding put_string_vec get_string_vec
string_vec-Travels v (n, h) =
    subst (λ l. Travels (put_string_vec v) get_string_vec l) (map-id v)
      (vec-Travels put_string get_string (λ x. x) IsText string-Travels v n h)
