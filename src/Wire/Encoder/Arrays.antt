-- ===== src/Wire/Encoder/Arrays.antt =====
-- The arrays of packet_encoder.cpp. `4 * static_cast<int>(in.size())` does not overflow: an array
-- has fewer than 2 ^ 28 items, as signed overflow has no meaning in C++.
pub mod Bytes
use coev.Base.{ℕ, ◌+◌, ◌*◌, ◌==◌, if◌then◌else◌, List, [], ◌∷◌, length}
use coev.Base.Int.{ℤ, int_of_size}
use coev.Wire.Outcome.{pure, ◌>>=◌, ◌>>◌}
use coev.Wire.Encoder.{Encoder, Put, by_kind, by_version, tally, put_int32, put_int64}
use coev.Wire.Encoder.Varint.{put_uvarint}
use coev.Wire.Encoder.Strings.{minus_one, put_array_length, put_string}

-- `for (auto &x : in) put(x);`
unfoldable pub put_each : {A : Type 0} → (A → Put) → List A → Put
put_each put [] = pure tt
put_each put (x ∷ xs) = do put x; put_each put xs

unfoldable pub put_string_array : List (List ℕ) → Put
put_string_array xs =
    by_kind
      (by_version (do put_array_length (int_of_size (length xs)); put_each put_string xs)
        (do put_array_length (int_of_size (length xs)); tally (4 * length xs)))
      (do put_array_length (int_of_size (length xs)); put_each put_string xs)

unfoldable pub put_int32_array : List ℤ → Put
put_int32_array xs =
    by_kind
      (by_version (do tally 4; tally (4 * length xs))
        (do put_uvarint (length xs + 1); tally (4 * length xs)))
      (by_version (do put_array_length (int_of_size (length xs)); put_each put_int32 xs)
        (do put_uvarint (length xs + 1); put_each put_int32 xs))

unfoldable pub put_int64_array : List ℤ → Put
put_int64_array xs =
    by_kind (do put_array_length (int_of_size (length xs)); tally (8 * length xs))
      (do put_array_length (int_of_size (length xs)); put_each put_int64 xs)

unfoldable pub put_nullable_int32_array : List ℤ → Put
put_nullable_int32_array xs =
    by_kind
      (by_version
        (if length xs == 0
          then tally 4
          else do put_array_length (int_of_size (length xs)); tally (4 * length xs))
        (if length xs == 0
          then put_uvarint 0
          else do put_uvarint (length xs + 1); tally (4 * length xs)))
      (by_version
        (if length xs == 0
          then put_int32 minus_one
          else do put_array_length (int_of_size (length xs)); put_each put_int32 xs)
        (if length xs == 0
          then put_uvarint 0
          else do put_uvarint (length xs + 1); put_each put_int32 xs))
