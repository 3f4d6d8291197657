-- ===== src/Kafka/Partitioner.antt =====
-- partitioner.cpp of src/coev_kafka: the partition that a message goes to. The number of partitions,
-- an int32_t above 0, is a natural number.
pub mod Bounds
use coev.Base.{
  ℕ, zero, suc, ◌+◌, ◌%◌, leb, if◌then◌else◌, Bool, true, false, List, Option, none, some, bit_and,
}
use coev.Base.Int.{ℤ, pos, negsuc, signed, ltb_ℤ}

-- m_partition, and m_key: whether it is empty, and what Encode makes of it, `none` if that fails.
pub record Message : Type 0 where
  pub partition : ℤ
  pub key_empty : Bool
  pub encoded : Option (List ℕ)

-- The partitioners with their members; the one for messages without a key is a parameter below.
pub data Partitioner : Type 0 where
  manual random : Partitioner
  round_robin : (m_partition : ℕ) → Partitioner
  hash : (m_reference_abs m_hash_unsigned : Bool) → Partitioner

-- `x % n` of an int32_t, with the sign of x, and `-x`.
abbrev pub negated : ℕ → ℤ
negated zero = pos 0
negated (suc n) = negsuc n

abbrev pub rem : ℤ → ℕ → ℤ
rem (pos a) n = pos (a % n)
rem (negsuc a) n = negated (suc a % n)

abbrev pub opposite : ℤ → ℤ
opposite (pos n) = negated n
opposite (negsuc n) = pos (suc n)

abbrev pub not_negative : ℤ → ℤ
not_negative result = if ltb_ℤ result (pos 0) then opposite result else result

unfoldable pub hash_partition : Bool → Bool → ℕ → ℕ → ℤ
hash_partition reference_abs hash_unsigned n hash_value =
    if reference_abs
    then pos (bit_and hash_value 0x7fffffff % n)
    else if hash_unsigned
    then signed 32 (hash_value % n)
    else not_negative (rem (signed 32 hash_value) n)

abbrev pub in_turn : ℕ → ℕ → ℕ
in_turn n m = if leb n m then 0 else m

-- m_generator picks by std::uniform_int_distribution, and m_hasher sums up the bytes of a key; both
-- are parameters.
module _ (pick : ℕ → ℕ) (final : List ℕ → ℕ) where
  abbrev pub by_key : Bool → Bool → ℕ → Option (List ℕ) → Option ℤ
  by_key reference_abs hash_unsigned n none = none
  by_key reference_abs hash_unsigned n (some bytes) =
      some (hash_partition reference_abs hash_unsigned n (final bytes))

  -- The result, `none` where partition returns -1, and the partitioner behind it.
  unfoldable pub partition : Partitioner → Message → ℕ → Option ℤ × Partitioner
  partition manual m n = (some m.partition, manual)
  partition random m n = (some (pos (pick n)), random)
  partition (round_robin i) m n = (some (pos (in_turn n i)), round_robin (in_turn n i + 1))
  partition (hash reference_abs hash_unsigned) m n = (
    if m.key_empty then some (pos (pick n)) else by_key reference_abs hash_unsigned n m.encoded,
    hash reference_abs hash_unsigned,
  )
