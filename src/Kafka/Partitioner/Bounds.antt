-- ===== src/Kafka/Partitioner/Bounds.antt =====
-- Every partition that a partitioner computes exists.
use coev.Base.{ℕ, zero, suc, ◌%◌, ◌^◌, ◌<◌, if◌then◌else◌, ◌≡◌, refl, ap, arith, bit_and}
use coev.Base.{Bool, true, false, List, some}
use coev.Base.Int.{ℤ, pos, negsuc, signed}
use coev.Kafka.Partitioner.{Message, Partitioner, manual, random, round_robin, hash, partition}
use coev.Kafka.Partitioner.{negated, rem, not_negative, hash_partition, in_turn, by_key}

-- One of n partitions.
abbrev pub IsPartition : ℕ → ℤ → Type 0
IsPartition n z = (k : ℕ) × (z ≡ pos k) × (k < n)

not_negative-negated : (k : ℕ) → not_negative (negated k) ≡ pos k
not_negative-negated zero = refl
not_negative-negated (suc k) = ground arith

not_negative-rem : (z : ℤ) (n : ℕ) → 0 < n → IsPartition n (not_negative (rem z n))
not_negative-rem (pos a) n h = (a % n, ground arith, omega arith)
not_negative-rem (negsuc a) n h = (suc a % n, not_negative-negated (suc a % n), omega arith)

hash_partition-IsPartition :
    (a u : Bool) (n v : ℕ) → 0 < n → n < 2 ^ 31 → IsPartition n (hash_partition a u n v)
unfolding hash_partition
hash_partition-IsPartition true u n v h k = (bit_and v 0x7fffffff % n, refl, omega arith)
hash_partition-IsPartition false true n v h k =
    let r : v % n < n = omega arith in (v % n, ground arith, r)
hash_partition-IsPartition false false n v h k = not_negative-rem (signed 32 v) n h

-- The client calls a partitioner that is not manual, with a message whose key is empty or can be
-- encoded.
abbrev pub Computes : Partitioner → Message → Type 0
Computes manual m = ⊥
Computes random m = Unit {0}
Computes (round_robin i) m = Unit {0}
Computes (hash a u) m = (b : List ℕ) × (m.encoded ≡ some b)

-- For n partitions, at least 1 and fewer than 2 ^ 31, where the random choice is one of them, every
-- partitioner but the manual one returns one of them, whatever its state and its options, the hash
-- function and the message; for the hash partitioner, if the key can be encoded.
pub partition-IsPartition :
    (pick : ℕ → ℕ) (final : List ℕ → ℕ) (p : Partitioner) (m : Message) (n : ℕ)
    → 0 < n
    → n < 2 ^ 31
    → pick n < n
    → Computes p m
    → (z : ℤ) × ((partition pick final p m n).0 ≡ some z) × IsPartition n z
unfolding partition
partition-IsPartition pick final manual m n h k c i = elim i [ ]
partition-IsPartition pick final random m n h k c i = (pos (pick n), refl, (pick n, refl, c))
partition-IsPartition pick final (round_robin j) m n h k c i =
    (pos (in_turn n j), refl, (in_turn n j, refl, ground arith))
partition-IsPartition pick final (hash a u) m n h k c (b, e) = by_test m.key_empty
  where
    by_test :
        (t : Bool)
        → (z : ℤ) × ((if t then some (pos (pick n)) else by_key pick final a u n m.encoded)
            ≡ some z)
          × IsPartition n z
    by_test true = (pos (pick n), refl, (pick n, refl, c))
    by_test false = (
      hash_partition a u n (final b),
      ap (by_key pick final a u n) e,
      hash_partition-IsPartition a u n (final b) h k,
    )
