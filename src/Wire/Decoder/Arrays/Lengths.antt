-- ===== src/Wire/Decoder/Arrays/Lengths.antt =====
-- The length of an array, which getArrayLength joins from signed chars.
use coev.Base.{ℕ, zero, suc, ◌+◌, ◌-◌, ◌*◌, ◌/◌, ◌%◌, ◌^◌, ◌≤◌, ◌<◌, ◌≡◌, refl, ap, ◌∙◌, arith}
use coev.Base.{List, ◌∷◌, bit_or, length, if◌then◌else◌, ◌==◌}
use coev.Base.Int.{ℤ, pos, negsuc, signed, ltb_ℤ}
use coev.Base.Bits.{bit_or_split, bit_or_ones, bit_or-lt, bit_or_high, bit_or_add}
use mathlib.Core.Path.{ap₂}
use coev.Wire.Outcome.{ok, pure, fail, and_then, ◌>>=◌, ◌>>◌, invalid_array_length}
use coev.Wire.Format.{big_endian, uvarint, length32}
use coev.Wire.Decoder.{Decoder, Get, skip, advance}
use coev.Wire.Decoder.View.{Sees, Reads, byte_at-Sees, need-Sees}
use coev.Wire.Decoder.Fixed.{joined32}
use coev.Wire.Decoder.Varint.Values.{Reads-get_uvariant}
use coev.Wire.Decoder.Strings.{int_pred}
use coev.Wire.Decoder.Strings.ReadBack.{by_version_fixed, Reads-flexible, int_pred_suc}
use coev.Wire.Decoder.Arrays.{promote, load_chars, max_response_size}
use coev.Wire.Decoder.Arrays.{fixed_array_length, flexible_array_length, get_array_length}

abbrev c0 : ℕ → ℕ
c0 b = promote b * 2 ^ 24 % 2 ^ 32

abbrev c1 : ℕ → ℕ
c1 b = promote b * 2 ^ 16 % 2 ^ 32

abbrev c2 : ℕ → ℕ
c2 b = promote b * 2 ^ 8 % 2 ^ 32

load_chars-Sees :
    (d : Decoder) (b0 b1 b2 b3 : ℕ) (rest : List ℕ)
    → Sees d (b0 ∷ b1 ∷ b2 ∷ b3 ∷ rest)
    → load_chars d ≡ ok (bit_or (bit_or (bit_or (c0 b0) (c1 b1)) (c2 b2)) (promote b3)) d
unfolding load_chars
load_chars-Sees d b0 b1 b2 b3 rest v = simp (
  byte_at-Sees 0 b0 d _ v refl,
  byte_at-Sees 1 b1 d _ v refl,
  byte_at-Sees 2 b2 d _ v refl,
  byte_at-Sees 3 b3 d _ v refl,
)

-- A byte below 128 is the char's value.
promote_small : (b : ℕ) → b < 128 → promote b ≡ b
promote_small b h = ground arith

-- The digits above the last byte, whatever the others are.
upper : ℕ → ℕ → ℕ → ℕ
upper b0 b1 b2 = bit_or (bit_or (c0 b0 / 2 ^ 8) (c1 b1 / 2 ^ 8)) (c2 b2 / 2 ^ 8)

upper_joined : (b0 b1 b2 : ℕ) → bit_or (bit_or (c0 b0) (c1 b1)) (c2 b2) ≡ upper b0 b1 b2 * 2 ^ 8
unfolding upper
upper_joined b0 b1 b2 =
    let e0 : c0 b0 ≡ c0 b0 / 2 ^ 8 * 2 ^ 8 = omega arith in
    let e1 : c1 b1 ≡ c1 b1 / 2 ^ 8 * 2 ^ 8 = omega arith in
    let e2 : c2 b2 ≡ c2 b2 / 2 ^ 8 * 2 ^ 8 = omega arith in
    ap₂ bit_or (ap₂ bit_or e0 e1 ∙ bit_or_high 8 (c0 b0 / 2 ^ 8) (c1 b1 / 2 ^ 8)) e2
    ∙ bit_or_high 8 (bit_or (c0 b0 / 2 ^ 8) (c1 b1 / 2 ^ 8)) (c2 b2 / 2 ^ 8)

upper-lt : (b0 b1 b2 : ℕ) → upper b0 b1 b2 < 2 ^ 24
unfolding upper
upper-lt b0 b1 b2 = bit_or-lt 24 _ _ (bit_or-lt 24 _ _ (omega arith) (omega arith)) (omega arith)

-- A last byte that is negative as a char covers all the others.
covered :
    (b0 b1 b2 b3 : ℕ)
    → 128 ≤ b3
    → b3 < 256
    → bit_or (bit_or (bit_or (c0 b0) (c1 b1)) (c2 b2)) (promote b3) ≡ b3 + (2 ^ 32 - 2 ^ 8)
covered b0 b1 b2 b3 lo hi = ground (
  arith,
  upper_joined b0 b1 b2,
  bit_or_split 8 (upper b0 b1 b2) (2 ^ 24 - 1) 0 b3 (omega arith) hi,
  bit_or_ones 24 (upper b0 b1 b2) (upper-lt b0 b1 b2),
  bit_or_add 8 0 0 b3 refl hi,
)

abbrev finish : ℕ → Get ℤ
finish v d =
    (if ltb_ℤ max_response_size (signed 32 v)
        then fail invalid_array_length
        else pure (signed 32 v))
      (advance 4 d)

-- The length that the four bytes give, once they are joined.
fixed_length :
    (d : Decoder) (b0 b1 b2 b3 : ℕ) (rest : List ℕ)
    → d.flexible ≡ 0
    → Sees d (b0 ∷ b1 ∷ b2 ∷ b3 ∷ rest)
    → get_array_length d ≡ finish (bit_or (bit_or (bit_or (c0 b0) (c1 b1)) (c2 b2)) (promote b3)) d
unfolding get_array_length
fixed_length d b0 b1 b2 b3 rest f v =
    by_version_fixed fixed_array_length flexible_array_length d f
    ∙ need-Sees 4
        (do
          k ← load_chars
          skip 4
          if ltb_ℤ max_response_size (signed 32 k)
              then fail invalid_array_length
              else pure (signed 32 k))
        d _ v (omega arith)
    ∙ ap (λ r. and_then r finish) (load_chars-Sees d b0 b1 b2 b3 rest v)

pub array_length_negative :
    (d : Decoder) (b0 b1 b2 b3 : ℕ) (rest : List ℕ)
    → d.flexible ≡ 0
    → Sees d (b0 ∷ b1 ∷ b2 ∷ b3 ∷ rest)
    → 128 ≤ b3
    → b3 < 256
    → get_array_length d ≡ ok (negsuc (255 - b3)) (advance 4 d)
array_length_negative d b0 b1 b2 b3 rest f v lo hi =
    fixed_length d b0 b1 b2 b3 rest f v
    ∙ ap (λ k. finish k d) (covered b0 b1 b2 b3 lo hi)
    ∙ ground arith

-- The lengths that come back: in a fixed version those whose bytes are all below 128.
abbrev pub FitsArray : ℕ → ℕ → Type 0
FitsArray zero n =
    (n ≤ 100 * 1024 * 1024) × (n % 256 < 128) × (n / 256 % 256 < 128) × (n / 65536 % 256 < 128)
FitsArray (suc _) n = n < 2 ^ 31 - 1

plain_bytes :
    (b0 b1 b2 b3 : ℕ)
    → b0 < 128
    → b1 < 128
    → b2 < 128
    → b3 < 128
    → bit_or (bit_or (bit_or (c0 b0) (c1 b1)) (c2 b2)) (promote b3)
      ≡ b0 * 2 ^ 24 + b1 * 2 ^ 16 + b2 * 2 ^ 8 + b3
plain_bytes b0 b1 b2 b3 h0 h1 h2 h3 =
    let e0 : c0 b0 ≡ b0 * 2 ^ 24 = ground arith in
    let e1 : c1 b1 ≡ b1 * 2 ^ 16 = ground arith in
    let e2 : c2 b2 ≡ b2 * 2 ^ 8 = ground arith in
    let e3 : promote b3 ≡ b3 = promote_small b3 h3 in
    ap₂ bit_or (ap₂ bit_or (ap₂ bit_or e0 e1) e2) e3
    ∙ joined32 b0 b1 b2 b3 (omega arith) (omega arith) (omega arith) (omega arith)

finish_fits : (n : ℕ) (d : Decoder) → n ≤ 100 * 1024 * 1024 → finish n d ≡ ok (pos n) (advance 4 d)
finish_fits n d h = ground arith

Reads-fixed_length : (n : ℕ) → FitsArray 0 n → Reads 0 get_array_length (big_endian 4 n) (pos n)
Reads-fixed_length n (h, h3, h2, h1) d rest f v =
    fixed_length d _ _ _ _ rest f v
    ∙ ap (λ k. finish k d)
        (plain_bytes _ _ _ _ (omega arith) (omega arith) (omega arith) (omega arith) ∙ whole)
    ∙ finish_fits n d h
  where
    whole :
        n / 256 ^ 3 % 256 * 2 ^ 24
          + n / 256 ^ 2 % 256 * 2 ^ 16
          + n / 256 ^ 1 % 256 * 2 ^ 8
          + n / 256 ^ 0 % 256
        ≡ n
    whole = omega arith

pub Reads-get_array_length :
    (version n : ℕ)
    → FitsArray version n
    → Reads version get_array_length (length32 version n) (pos n)
unfolding get_array_length
Reads-get_array_length zero n h = Reads-fixed_length n h
Reads-get_array_length (suc w) n h =
    Reads-flexible w fixed_array_length flexible_array_length (uvarint (n + 1)) (pos n)
      (λ d rest f v.
        ap (λ r. and_then r next) (Reads-get_uvariant (suc w) (n + 1) (omega arith) d rest f v)
        ∙ ap (λ k. ok k (advance (length (uvarint (n + 1))) d)) shown)
  where
    next : ℕ → Get ℤ
    next k = pure (if k == 0 then pos 0 else int_pred k)

    shown : (if n + 1 == 0 then pos 0 else int_pred (n + 1)) ≡ pos n
    shown = ground (arith, int_pred_suc n)
