-- ===== src/Wire/Tests.antt =====
-- Concrete packets of the codec.
use coev.Wire.Packet.Values.{varint_round_trips, string_round_trips, integer_array_round_trips}
use coev.Wire.Decoder.Safety.Reads.{reads_stay}
use coev.Wire.Field.Size.{variant_size_ends}
use coev.Wire.Format.{nullable_bytes}
use coev.Base.{ℕ, ◌-◌, ◌^◌, ◌<◌, ◌≡◌, refl, arith, length, All}
use coev.Base.{List, [], ◌∷◌, ◌++◌, some, true, false}
use coev.Base.Int.{ℤ, pos, negsuc, IsInt}
use coev.Wire.Outcome.{ok, err, fault, uvariant_overflow, variant_overflow}
use coev.Wire.Format.{groups, uvarint, varint, string_bytes, bytes_bytes}
use coev.Wire.Format.{array_bytes, int32_bytes, int64_bytes}
use coev.Wire.Encoder.{put_int32, put_int16, put_int64}
use coev.Wire.Encoder.Varint.{put_uvarint, put_variant, varint_len, varint_len_loop}
use coev.Wire.Encoder.Strings.{put_string, put_nullable_string, put_bytes}
use coev.Wire.Encoder.Arrays.{put_int32_array, put_int64_array, put_string_array}
use coev.Wire.Decoder.{get_int32}
use coev.Wire.Decoder.Varint.{get_uvariant, get_variant}
use coev.Wire.Decoder.Strings.{
  get_string, get_nullable_string, get_bytes, get_raw_bytes, get_variant_bytes,
}
use coev.Wire.Decoder.Arrays.{get_int32_array, get_int64_array, get_string_array, get_array_length}
use coev.Wire.Packet.{encode, decode_version}
use coev.Wire.Packet.Values.{bytes_round_trip}
use coev.Wire.Packet.Values.{integer_round_trips}
use coev.Wire.Packet.Values.{string_array_round_trip}
use coev.Wire.Decoder.{decoder, advance, get_int16, get_int8, get_int64, get_float64, get_bool}
use coev.Wire.Decoder.View.{Sees}
use coev.Wire.Decoder.Safety.{Kept}
use coev.Wire.Decoder.Safety.Reads.{string_reads_stay}
use coev.Wire.Decoder.Safety.Reads.{integer_arrays_stay}
use coev.Wire.Decoder.Tagged.{get_empty_tagged_field_array}
use coev.Wire.Decoder.{Decoder}
use coev.Wire.Decoder.Varint.Values.{large_numbers_refused}
use coev.Wire.Decoder.Arrays.ReadBack.{int32_array_lost}
use coev.Wire.Packet.{replicate}
use coev.Wire.Packet.Mismatch.{string_array_overruns, put_variant_overruns}
use coev.Base.{none}
use coev.Wire.Outcome.{◌>>=◌, ◌>>◌, packet_decoding_error}
use coev.Wire.Field.{length_field, variant_size_loop, variant_size}
use coev.Wire.Decoder.Fields.{push, pop}
use coev.Wire.Decoder.Fields.Stale.{length_field_stale}
use coev.Wire.Encoder.Fields.Framed.{framed}
use coev.Wire.Encoder.Strings.Bytes.{Writes-put_string}
use coev.Wire.Packet.Framed.{length_field_written}
use coev.Wire.Outcome.{pure}
use coev.Wire.Decoder.{Get, push_flexible}
use coev.Wire.Decoder.Tagged.{get_tagged_field_array, leave}
use coev.Wire.Decoder.Tagged.Behind.{tag_bytes, tag_decoder_runs_behind}

abbrev topic : List ℕ
topic = 116 ∷ 111 ∷ 112 ∷ 105 ∷ 99 ∷ []

put_variant_overruns_example : encode true (put_variant (pos 64)) [] ≡ fault
put_variant_overruns_example =
    put_variant_overruns true 0 64 [] (omega arith) (omega arith) (omega arith) (omega arith)

abbrev three : List ℤ
three = pos 7 ∷ negsuc 0 ∷ pos 70000 ∷ []

int32s-IsInt : All (IsInt 32) three
int32s-IsInt =
    ((omega arith, omega arith), ((omega arith, omega arith), ((omega arith, omega arith), tt)))

int64s-IsInt : All (IsInt 64) three
int64s-IsInt =
    ((omega arith, omega arith), ((omega arith, omega arith), ((omega arith, omega arith), tt)))

abbrev names : List (List ℕ)
names = topic ∷ [] ∷ (97 ∷ 98 ∷ []) ∷ []

names-fit : All (λ s. length s < 2 ^ 15) names
names-fit = (omega arith, (omega arith, (omega arith, tt)))

names-fit_flexible : All (λ s. length s < 2 ^ 31 - 1) names
names-fit_flexible = (omega arith, (omega arith, (omega arith, tt)))

string_array_round_trip_example :
    (encode false (put_string_array names) [] ≡ ok tt (array_bytes 0 (string_bytes 0) names))
    × (decode_version false (array_bytes 0 (string_bytes 0) names) get_string_array
        ≡ ok (some names) tt)
string_array_round_trip_example =
    string_array_round_trip names [] (omega arith, omega arith, omega arith, omega arith)
      (omega arith) names-fit (omega arith)

abbrev long_names : List (List ℕ)
long_names = topic ∷ topic ∷ []

long_names-fit : All (λ s. length s < 2 ^ 31 - 1) long_names
long_names-fit = (omega arith, (omega arith, tt))

string_array_overruns_example : encode true (put_string_array long_names) [] ≡ fault
unfolding groups
string_array_overruns_example =
    string_array_overruns long_names [] (omega arith) long_names-fit (omega arith) (omega arith)

bytes_round_trip_example :
    (encode true (put_bytes topic) [] ≡ ok tt (bytes_bytes 1 topic))
    × (decode_version true (bytes_bytes 1 topic) get_bytes ≡ ok (some topic) tt)
unfolding groups
bytes_round_trip_example = bytes_round_trip true topic [] (omega arith) (omega arith)

-- The number 2 ^ 63 in ten bytes.
abbrev wide : List ℕ
wide = 0x80 ∷ 0x80 ∷ 0x80 ∷ 0x80 ∷ 0x80 ∷ 0x80 ∷ 0x80 ∷ 0x80 ∷ 0x80 ∷ 0x01 ∷ []

Sees-wide : Sees (decoder wide) (uvarint (2 ^ 63) ++ [])
unfolding groups
Sees-wide = record { unread = refl; fits = refl; small = omega arith }

Sees-variant : Sees (decoder wide) (varint (pos (2 ^ 62)) ++ [])
unfolding groups
Sees-variant = record { unread = refl; fits = refl; small = omega arith }

large_numbers_refused_example :
    (get_uvariant (decoder wide) ≡ err uvariant_overflow (decoder wide))
    × (get_variant (decoder wide) ≡ err variant_overflow (decoder wide))
large_numbers_refused_example =
    large_numbers_refused (2 ^ 63) (pos (2 ^ 62)) (decoder wide) (decoder wide) [] [] (omega arith)
      (omega arith) (omega arith) (omega arith) Sees-wide Sees-variant

-- 128 items of value 5.
abbrev many : List ℤ
many = replicate 128 (pos 5)

Sees-many : Sees (decoder (array_bytes 0 int32_bytes many)) (array_bytes 0 int32_bytes many ++ [])
Sees-many = record { unread = refl; fits = refl; small = omega arith }

int32_array_lost_example :
    get_int32_array (decoder (array_bytes 0 int32_bytes many))
    ≡ ok [] (advance 4 (decoder (array_bytes 0 int32_bytes many)))
int32_array_lost_example =
    int32_array_lost many (decoder (array_bytes 0 int32_bytes many)) [] (omega arith) (omega arith)
      refl Sees-many

integer_round_trips_example :
    ((encode true (put_int16 (negsuc 299)) (1 ∷ []) ≡ ok tt (1 ∷ 254 ∷ 212 ∷ []))
      × (decode_version true (254 ∷ 212 ∷ []) get_int16 ≡ ok (some (negsuc 299)) tt))
    × ((encode true (put_int32 (negsuc 0)) (1 ∷ []) ≡ ok tt (1 ∷ int32_bytes (negsuc 0)))
        × (decode_version true (int32_bytes (negsuc 0)) get_int32 ≡ ok (some (negsuc 0)) tt))
    × ((encode true (put_int64 (pos 5)) (1 ∷ []) ≡ ok tt (1 ∷ int64_bytes (pos 5)))
        × (decode_version true (int64_bytes (pos 5)) get_int64 ≡ ok (some (pos 5)) tt))
integer_round_trips_example =
    integer_round_trips true (negsuc 299) (negsuc 0) (pos 5) (1 ∷ []) (omega arith, omega arith)
      (omega arith, omega arith) (omega arith, omega arith)

-- Three bytes, of which the first is read: a length that the rest does not have.
abbrev cut : Decoder
cut = record { flexible = 1; offset = 1; raw = 0x00 ∷ 0xff ∷ 0x7f ∷ []; stack = [] }

string_reads_stay_example :
    Kept cut (get_raw_bytes (pos 7) cut)
    × Kept cut (get_bytes cut)
    × Kept cut (get_variant_bytes cut)
    × Kept cut (get_string cut)
    × Kept cut (get_nullable_string cut)
string_reads_stay_example = string_reads_stay cut (pos 7) (omega arith) (omega arith)

integer_arrays_stay_example :
    Kept (decoder (0 ∷ 0 ∷ 0 ∷ 9 ∷ 1 ∷ [])) (get_int32_array (decoder (0 ∷ 0 ∷ 0 ∷ 9 ∷ 1 ∷ [])))
    × Kept (decoder (0 ∷ 0 ∷ 0 ∷ 9 ∷ 1 ∷ [])) (get_int64_array (decoder (0 ∷ 0 ∷ 0 ∷ 9 ∷ 1 ∷ [])))
integer_arrays_stay_example =
    integer_arrays_stay (decoder (0 ∷ 0 ∷ 0 ∷ 9 ∷ 1 ∷ [])) (omega arith) (omega arith) refl

-- An array of two items of which one is there.
abbrev short : Decoder
short = record { flexible = 1; offset = 0; raw = 3 ∷ 0 ∷ 0 ∷ 0 ∷ 7 ∷ []; stack = [] }

length_field_written_example :
    encode false (framed (put_string topic)) [] ≡ ok tt (0 ∷ 0 ∷ 0 ∷ 7 ∷ 0 ∷ 5 ∷ topic)
length_field_written_example =
    length_field_written false (put_string topic) (string_bytes 0 topic) []
      (Writes-put_string 0 topic (omega arith)) (omega arith)

-- The length 5 in front of the five bytes of a topic.
abbrev block : Decoder
block = decoder (0 ∷ 0 ∷ 0 ∷ 5 ∷ topic)

Sees-topic : Sees block ((0 ∷ 0 ∷ 0 ∷ 5 ∷ []) ++ (topic ++ []))
Sees-topic = record { unread = refl; fits = refl; small = omega arith }

length_field_stale_example :
    (push (length_field 0 (pos 0)) >> (get_raw_bytes (pos 5) >>= λ _. pop)) block
    ≡ err packet_decoding_error (advance 9 block)
length_field_stale_example =
    length_field_stale 0 (pos 0) (0 ∷ 0 ∷ 0 ∷ 5 ∷ []) topic [] block refl Sees-topic

-- One tag 1 that holds the byte 7, and the byte 42 behind it.
abbrev tagged : Decoder
tagged = record { flexible = 1; offset = 0; raw = 1 ∷ 1 ∷ 1 ∷ 7 ∷ 42 ∷ []; stack = [] }

Sees-tagged : Sees tagged ((uvarint 1 ++ tag_bytes 1 (7 ∷ [])) ++ (42 ∷ []))
unfolding groups
Sees-tagged = record { unread = refl; fits = refl; small = omega arith }

abbrev one_byte : Get (Unit {0})
one_byte = do z ← get_int8; pure tt

tag_decoder_runs_behind_example :
    get_tagged_field_array ((1, one_byte) ∷ []) tagged
    ≡ leave (one_byte (push_flexible (advance 4 tagged)))
unfolding groups
tag_decoder_runs_behind_example =
    tag_decoder_runs_behind 0 1 (7 ∷ []) one_byte [] tagged (42 ∷ []) refl (omega arith)
      (omega arith) Sees-tagged

varint_round_trips_example :
    ((encode true (put_uvarint 300) [] ≡ ok tt (uvarint 300))
      × (decode_version true (uvarint 300) get_uvariant ≡ ok (some 300) tt))
    × ((encode true (put_variant (negsuc 69)) [] ≡ ok tt (varint (negsuc 69)))
        × (decode_version true (varint (negsuc 69)) get_variant ≡ ok (some (negsuc 69)) tt))
    × ((encode true (put_variant (negsuc 99)) [] ≡ ok tt (varint (negsuc 99)))
        × (decode_version true (varint (negsuc 99)) get_variant ≡ ok (some (negsuc 99)) tt))
unfolding groups varint_len varint_len_loop
varint_round_trips_example =
    varint_round_trips true 300 (negsuc 69) 99 [] (omega arith) (omega arith, omega arith)
      (omega arith) refl (omega arith)

string_round_trips_example :
    ((encode true (put_string topic) (9 ∷ []) ≡ ok tt (9 ∷ string_bytes 1 topic))
      × (decode_version true (string_bytes 1 topic) get_string ≡ ok (some topic) tt))
    × ((encode true (put_nullable_string topic) (9 ∷ []) ≡ ok tt (9 ∷ nullable_bytes 1 topic))
        × (decode_version true (nullable_bytes 1 topic) get_nullable_string ≡ ok (some topic) tt))
unfolding groups
string_round_trips_example =
    string_round_trips true topic (9 ∷ []) (omega arith) (omega arith) (omega arith)

integer_array_round_trips_example :
    ((encode false (put_int32_array three) [] ≡ ok tt (array_bytes 0 int32_bytes three))
      × (decode_version false (array_bytes 0 int32_bytes three) get_int32_array
          ≡ ok (some three) tt))
    × ((encode false (put_int64_array three) [] ≡ ok tt (array_bytes 0 int64_bytes three))
        × (decode_version false (array_bytes 0 int64_bytes three) get_int64_array
            ≡ ok (some three) tt))
integer_array_round_trips_example =
    integer_array_round_trips false three three []
      (omega arith, omega arith, omega arith, omega arith) (omega arith) int32s-IsInt (omega arith)
      (omega arith, omega arith, omega arith, omega arith) (omega arith) int64s-IsInt (omega arith)

reads_stay_example :
    (Kept cut (get_int8 cut)
      × Kept cut (get_int16 cut)
      × Kept cut (get_int32 cut)
      × Kept cut (get_int64 cut)
      × Kept cut (get_float64 cut)
      × Kept cut (get_bool cut))
    × (Kept cut (get_uvariant cut) × Kept cut (get_variant cut))
    × (Kept cut (get_array_length cut) × Kept cut (get_string_array cut))
    × Kept cut (get_empty_tagged_field_array cut)
reads_stay_example = reads_stay cut (omega arith) (omega arith)

variant_size_ends_example :
    (variant_size (pos 300) ≡ some (length (uvarint 300)))
    × (variant_size_loop 1000 (negsuc 4) 0 ≡ none)
variant_size_ends_example = variant_size_ends 300 1000 4 0 (omega arith)
