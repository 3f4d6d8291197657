-- ===== src/Wire/Field.antt =====
-- The fields that push and pop fill in or check: length_field.cpp and variant_length_field.cpp of
-- src/coev_kafka. A field stands in the stack by its value, as nothing else changes it meanwhile.
pub mod Size
use coev.Base.{ℕ, zero, suc, ◌+◌, true, false, Option, none, some}
use coev.Base.Int.{ℤ, pos, eq_ℤ, shr_ℤ}

-- m_start_offset and m_length.
pub data PushField : Type 0 where
  length_field : ℕ → ℤ → PushField
  variant_length_field : ℕ → ℤ → PushField

unfoldable pub save_offset : ℕ → PushField → PushField
save_offset at (length_field start len) = length_field at len
save_offset at (variant_length_field start len) = variant_length_field at len

-- The loop of variantSize with fuel: `none` while it has not ended. An int64_t that is not
-- negative ends it within ten rounds, and a negative one never does.
unfoldable pub variant_size_loop : ℕ → ℤ → ℕ → Option ℕ
variant_size_loop zero value size = none
variant_size_loop (suc fuel) value size =
    let value' = shr_ℤ value 7 in
    elim (eq_ℤ value' (pos 0)) [
      | true ↦ some (size + 1)
      | false ↦ variant_size_loop fuel value' (size + 1)
    ]

unfoldable pub variant_size : ℤ → Option ℕ
unfolding variant_size_loop
variant_size value = variant_size_loop 10 value 0

unfoldable pub reserve_length : PushField → Option ℕ
reserve_length (length_field start len) = some 4
reserve_length (variant_length_field start len) = variant_size len
