-- ===== src/Wire/Crc/Tests.antt =====
-- Concrete checksums and fields.
use coev.Base.{ℕ, ◌<◌, ◌≡◌, refl, arith, All, List, [], ◌∷◌, ◌++◌, some}
use coev.Wire.Crc.{
  ieee, castagnoli, crc, run, check, no_error, crc_mismatch, shift_bit, acquire_crc32_field,
  save_offset, Crc32Field,
}
use coev.Wire.Crc.Table.{checksum, crc-checksum}
use coev.Wire.Crc.Check.{field_at, acquired, four, packet, crc_checked, crc_detects}

-- The bytes of "123456789", whose checksums are the published check values.
abbrev digits : List ℕ
digits = 0x31 ∷ 0x32 ∷ 0x33 ∷ 0x34 ∷ 0x35 ∷ 0x36 ∷ 0x37 ∷ 0x38 ∷ 0x39 ∷ []

ieee_check_value : checksum ieee digits ≡ 0xcbf43926
unfolding shift_bit
ieee_check_value = refl

castagnoli_check_value : checksum castagnoli digits ≡ 0xe3069283
unfolding shift_bit
castagnoli_check_value = refl

digits-All : All (λ b. b < 256) digits
digits-All = (
  omega arith,
  (
    omega arith,
    (
      omega arith,
      (omega arith, (omega arith, (omega arith, (omega arith, (omega arith, (omega arith, tt)))))),
    ),
  ),
)

crc-checksum_example :
    crc 15 ((7 ∷ 7 ∷ 0 ∷ 0 ∷ 0 ∷ 0 ∷ []) ++ (digits ++ (5 ∷ []))) (field_at castagnoli (7 ∷ 7 ∷ []))
    ≡ some 0xe3069283
unfolding shift_bit
crc-checksum_example =
    crc-checksum (field_at castagnoli (7 ∷ 7 ∷ [])) (7 ∷ 7 ∷ 0 ∷ 0 ∷ 0 ∷ 0 ∷ []) digits (5 ∷ [])
      refl digits-All

-- A pool with a field of the other polynomial, saved elsewhere before.
abbrev used : List Crc32Field
used = record { start_offset = 3; polynomial = castagnoli } ∷ []

crc_checked_example :
    (run 15
        (packet (7 ∷ 7 ∷ []) (0 ∷ 0 ∷ 0 ∷ 0 ∷ []) digits (5 ∷ []))
        (acquired ieee used (7 ∷ 7 ∷ []))
      ≡ some (packet (7 ∷ 7 ∷ []) (four 0xcbf43926) digits (5 ∷ [])))
    × (check 15
          (packet (7 ∷ 7 ∷ []) (four 0xcbf43926) digits (5 ∷ []))
          (acquired ieee [] (7 ∷ 7 ∷ []))
        ≡ some no_error)
unfolding shift_bit
crc_checked_example = crc_checked ieee used [] (7 ∷ 7 ∷ []) 0 0 0 0 digits (5 ∷ []) digits-All

crc_detects_example :
    check 8
      (packet (7 ∷ []) (37 ∷ 250 ∷ 150 ∷ 245 ∷ []) (1 ∷ 3 ∷ 4 ∷ []) [])
      (field_at castagnoli (7 ∷ []))
    ≡ some crc_mismatch
unfolding shift_bit acquire_crc32_field save_offset
crc_detects_example =
    crc_detects castagnoli (7 ∷ []) 37 250 150 245 (1 ∷ []) 2 3 (4 ∷ []) [] (omega arith, tt)
      (omega arith) (omega arith) (omega arith, tt) (omega arith)
      (crc_checked castagnoli used [] (7 ∷ []) 0 0 0 0 (1 ∷ 2 ∷ 4 ∷ []) []
        (omega arith, (omega arith, (omega arith, tt)))).1
