-- ===== src/Wire/Packet/Mismatch.antt =====
-- A put for which PREP and REAL disagree: too small a buffer fails the assertions of REAL, too
-- large a one leaves bytes of value 0 behind the packet.
use coev.Base.{ℕ, suc, ◌+◌, ◌-◌, ◌*◌, ◌^◌, ◌≤◌, ◌<◌, ◌≡◌, refl, ap, ◌∙◌, arith}
use coev.Base.{le→ltb_false, length, length-append, All}
use coev.Base.{List, Bool, true, false}
use coev.Base.Int.{pos}
use native.Mathlib.Nat.{pow-suc, one-le-pow}
use coev.Wire.Outcome.{ok, fault}
use coev.Wire.Format.{FitsString, uvarint, varint, string_bytes, concat_map, array_bytes}
use coev.Wire.Encoder.{Encoder, Put, prep, real, tally, emit}
use coev.Wire.Encoder.View.{Stores, by_kind_prep, by_kind_real}
use coev.Wire.Encoder.Varint.{put_variant, varint_len, encode_variant}
use coev.Wire.Encoder.Varint.Bytes.{encode_variant-groups}
use coev.Wire.Encoder.Varint.Counts.{varint_len_positive, length-groups}
use coev.Wire.Encoder.Arrays.{put_string_array}
use coev.Wire.Encoder.Arrays.Bytes.{string_array-Counts, string_array-Stores}
use coev.Wire.Packet.{encoder, prepare_flexible_encoder, max_request_size, write_measured, encode}
use coev.Wire.Packet.{enter_flexible, leave_flexible}
use coev.Wire.Packet.RoundTrip.{scope, fresh, length-replicate}

-- PREP counts n bytes for the put.
abbrev pub Measures : ℕ → Put → ℕ → Type 0
Measures version put n = (e : Encoder) → e.kind ≡ prep → e.flexible ≡ version → put e ≡ tally n e

measured :
    (flexible : Bool) (put : Put) (n : ℕ)
    → Measures (scope flexible) put n
    → prepare_flexible_encoder flexible put (encoder prep 0)
      ≡ ok tt (record (encoder prep 0) { count = n })
unfolding prepare_flexible_encoder enter_flexible leave_flexible
measured true put n m =
    ap leave_flexible (m (fresh prep 1 0) refl refl)
    ∙ ap (λ (k : ℕ). ok tt (record (encoder prep 0) { count = k })) (omega arith)
measured false put n m =
    m (fresh prep 0 0) refl refl
    ∙ ap (λ (k : ℕ). ok tt (record (encoder prep 0) { count = k })) (omega arith)

emit_over : (f n : ℕ) (bs : List ℕ) → n < length bs → emit bs (fresh real f n) ≡ fault
unfolding emit
emit_over f n bs h = ground (arith, length-replicate n)

overrun :
    (flexible : Bool) (put : Put) (n : ℕ) (bs : List ℕ)
    → Stores (scope flexible) put bs
    → n < length bs
    → prepare_flexible_encoder flexible put (encoder real n) ≡ fault
unfolding prepare_flexible_encoder enter_flexible leave_flexible
overrun true put n bs s h =
    ap leave_flexible (s (fresh real 1 n) refl refl (omega arith) ∙ emit_over 1 n bs h)
overrun false put n bs s h = s (fresh real 0 n) refl refl (omega arith) ∙ emit_over 0 n bs h

-- Fewer bytes measured than written.
pub encode_overruns :
    (flexible : Bool) (put : Put) (n : ℕ) (bs out : List ℕ)
    → Measures (scope flexible) put n
    → Stores (scope flexible) put bs
    → n < length bs
    → n ≤ max_request_size
    → encode flexible put out ≡ fault
unfolding encode write_measured
encode_overruns flexible put n bs out m s h small =
    rw (measured flexible put n m, encode)
      (rw (le→ltb_false max_request_size n small)
        (rw (overrun flexible put n bs s h, write_measured) refl))

-- For j up to 8, putVariant of a number below 2 ^ 63, from 64 * 128 ^ j on and below
-- 128 ^ (j + 1), overruns the buffer that PREP has measured.
pub put_variant_overruns :
    (flexible : Bool) (j n : ℕ) (out : List ℕ)
    → j ≤ 8
    → 64 * 128 ^ j ≤ n
    → n < 128 ^ suc j
    → n < 2 ^ 63
    → encode flexible (put_variant (pos n)) out ≡ fault
unfolding put_variant
put_variant_overruns flexible j n out hj lo hi small =
    encode_overruns flexible (put_variant (pos n)) (suc j) (varint (pos n)) out
      (λ e k f.
        by_kind_prep (tally (varint_len (pos n))) (emit (encode_variant (pos n))) e k
        ∙ ap (λ (m : ℕ). tally m e) counted)
      (λ e k f h.
        by_kind_real (tally (varint_len (pos n))) (emit (encode_variant (pos n))) e k
        ∙ ap (λ bs. emit bs e) (encode_variant-groups (pos n) (omega arith)))
      (omega (arith, stored)) (omega arith)
  where
    counted : varint_len (pos n) ≡ suc j
    counted =
        varint_len_positive n small
        ∙ length-groups j 9 n (omega (arith, one-le-pow j 128)) hi (omega arith)

    stored : length (varint (pos n)) ≡ suc (suc j)
    stored =
        length-groups (suc j) 9 (2 * n) (omega (arith, pow-suc 128 j))
          (omega (arith, pow-suc 128 (suc j), one-le-pow j 128)) (omega arith)

-- The strings of a flexible array, with their lengths, take more than four bytes each.
string_array-Measures :
    (xs : List (List ℕ))
    → length xs < 2 ^ 31 - 1
    → Measures 1 (put_string_array xs) (length (uvarint (length xs + 1)) + 4 * length xs)
string_array-Measures xs h e k f = string_array-Counts 0 xs e h k f

-- In a flexible version, a short enough array of strings of which the bytes, lengths included, are more than
-- four times as many as the strings overruns the buffer that PREP has measured.
pub string_array_overruns :
    (xs : List (List ℕ)) (out : List ℕ)
    → length xs < 2 ^ 31 - 1
    → All (λ s. FitsString 1 (length s)) xs
    → 4 * length xs < length (concat_map (string_bytes 1) xs)
    → length (uvarint (length xs + 1)) + 4 * length xs ≤ max_request_size
    → encode true (put_string_array xs) out ≡ fault
string_array_overruns xs out h each more small =
    encode_overruns true (put_string_array xs) (length (uvarint (length xs + 1)) + 4 * length xs)
      (array_bytes 1 (string_bytes 1) xs) out (string_array-Measures xs h)
      (string_array-Stores 0 xs h each)
      (omega
        (arith, more, length-append (uvarint (length xs + 1)) (concat_map (string_bytes 1) xs)))
      small
