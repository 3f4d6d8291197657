-- ===== src/Wire/Decoder/Strings/ReadBack.antt =====
-- The reads of byte strings return the string whose bytes come next, in both versions.
use coev.Base.{ℕ, zero, suc, ◌+◌, ◌-◌, ◌%◌, ◌^◌, ◌≤◌, ◌<◌, ◌≡◌, refl, sym, ap, ◌∙◌, arith, ◌==◌}
use coev.Base.{List, [], ◌∷◌, ◌++◌, append_assoc, length, length-append, take, if◌then◌else◌}
use coev.Base.{take-length_append, false}
use coev.Base.Int.{ℤ, pos, eq_ℤ, int_of_long}
use coev.Wire.Outcome.{ok, pure, and_then}
use coev.Wire.Format.{
  FitsString, big_endian, uvarint, varint, length16, length32, null16, null32, string_bytes,
  nullable_bytes,
}
use coev.Wire.Format.{bytes_bytes, variant_bytes}
use coev.Wire.Decoder.{Decoder, Get, advance, get_int16, get_int32}
use coev.Wire.Decoder.View.{Sees, Reads, Sees-advance, advance-advance, remaining-Sees, Reads-bind}
use coev.Wire.Decoder.Fixed.{Reads-get_int16, Reads-get_int32}
use coev.Wire.Decoder.Varint.{get_uvariant, get_variant}
use coev.Wire.Decoder.Varint.Values.{Reads-get_uvariant, Reads-get_variant}
use coev.Wire.Decoder.Strings.{
  by_version, minus_one, slice, unless_null, int_pred, get_raw_bytes, get_bytes,
}
use coev.Wire.Decoder.Strings.{
  fixed_bytes, flexible_bytes, fixed_string_length, flexible_string_length,
}
use coev.Wire.Decoder.Strings.{get_variant_bytes, check_string_length, get_string_length}
use coev.Wire.Decoder.Strings.{get_string, get_nullable_string}

pub by_version_fixed :
    {A : Type 0} (p q : Get A) (d : Decoder) → d.flexible ≡ 0 → by_version p q d ≡ p d
by_version_fixed p q d h = ground arith

pub by_version_flexible :
    {A : Type 0} (p q : Get A) (d : Decoder) (v : ℕ) → d.flexible ≡ suc v → by_version p q d ≡ q d
by_version_flexible p q d v h = ground arith

pub Reads-fixed :
    {A : Type 0} (p q : Get A) (bs : List ℕ) (a : A)
    → Reads 0 p bs a
    → Reads 0 (by_version p q) bs a
Reads-fixed p q bs a r d rest f v = by_version_fixed p q d f ∙ r d rest f v

pub Reads-flexible :
    {A : Type 0} (w : ℕ) (p q : Get A) (bs : List ℕ) (a : A)
    → Reads (suc w) q bs a
    → Reads (suc w) (by_version p q) bs a
Reads-flexible w p q bs a r d rest f v = by_version_flexible p q d w f ∙ r d rest f v

-- The four bytes of a length that fits an int, and the two of one that fits a short.
pub Reads-length16 : (version n : ℕ) → n < 2 ^ 15 → Reads version get_int16 (big_endian 2 n) (pos n)
Reads-length16 version n h =
    let e : n % 2 ^ 16 ≡ n = omega arith in rw e at (Reads-get_int16 version (pos n) (omega arith))

pub Reads-length32 : (version n : ℕ) → n < 2 ^ 31 → Reads version get_int32 (big_endian 4 n) (pos n)
Reads-length32 version n h =
    let e : n % 2 ^ 32 ≡ n = omega arith in rw e at (Reads-get_int32 version (pos n) (omega arith))

Reads-slice : (version : ℕ) (s : List ℕ) → Reads version (slice (pos (length s))) s s
Reads-slice version s d rest f v =
    ap (λ (t : List ℕ). ok (take (length s) t) (advance (length s) d)) v.unread
    ∙ ap (λ (t : List ℕ). ok t (advance (length s) d)) (take-length_append s rest)

pub Reads-get_raw_bytes :
    (version : ℕ) (s : List ℕ) → Reads version (get_raw_bytes (pos (length s))) s s
unfolding get_raw_bytes
Reads-get_raw_bytes version s d rest f v =
    ground (arith, remaining-Sees v, length-append s rest, Reads-slice version s d rest f v)

pub int_pred_suc : (n : ℕ) → n < 2 ^ 31 → int_pred (n + 1) ≡ pos n
int_pred_suc n h = ground arith

check_fits :
    (n : ℕ) (d : Decoder) (tail : List ℕ)
    → Sees d tail
    → n ≤ length tail
    → check_string_length (pos n) d ≡ ok (pos n) d
unfolding check_string_length
check_fits n d tail v h = ground (arith, remaining-Sees v)

pub get_string_length-Sees :
    (version n : ℕ) (d : Decoder) (tail : List ℕ)
    → FitsString version n
    → n ≤ length tail
    → d.flexible ≡ version
    → Sees d (length16 version n ++ tail)
    → get_string_length d ≡ ok (pos n) (advance (length (length16 version n)) d)
unfolding get_string_length
get_string_length-Sees zero n d tail h room f v =
    by_version_fixed fixed_string_length flexible_string_length d f
    ∙ ap (λ r. and_then r check_string_length) (Reads-length16 0 n h d tail f v)
    ∙ check_fits n _ tail (Sees-advance d (big_endian 2 n) tail v) room
get_string_length-Sees (suc w) n d tail h room f v =
    by_version_flexible fixed_string_length flexible_string_length d w f
    ∙ ap (λ r. and_then r next) (Reads-get_uvariant (suc w) (n + 1) (omega arith) d tail f v)
    ∙ ap (λ k. check_string_length k (advance (length (uvarint (n + 1))) d)) shown
    ∙ check_fits n _ tail (Sees-advance d (uvarint (n + 1)) tail v) room
  where
    next : ℕ → Get ℤ
    next k = check_string_length (if k == 0 then minus_one else int_pred k)

    shown : (if n + 1 == 0 then minus_one else int_pred (n + 1)) ≡ pos n
    shown = ground (arith, int_pred_suc n)

not_null : (n : ℕ) (d : Decoder) → unless_null (pos n) d ≡ slice (pos n) d
not_null n d = let t : eq_ℤ (pos n) minus_one ≡ false = ground arith in rw t refl

module _ (version : ℕ) (s : List ℕ) (h : FitsString version (length s)) where
  string_length :
      (d : Decoder) (rest : List ℕ)
      → d.flexible ≡ version
      → Sees d (string_bytes version s ++ rest)
      → (get_string_length d
          ≡ ok (pos (length s)) (advance (length (length16 version (length s))) d))
        × Sees (advance (length (length16 version (length s))) d) (s ++ rest)
  string_length d rest f v =
      let prefix : List ℕ = length16 version (length s) in
      let v' : Sees d (prefix ++ (s ++ rest)) = rw (← append_assoc prefix s rest) v in
      (
        get_string_length-Sees version (length s) d (s ++ rest) h
            (omega (arith, length-append s rest)) f v',
        Sees-advance d prefix (s ++ rest) v',
      )

  sliced :
      (d : Decoder) (rest : List ℕ)
      → d.flexible ≡ version
      → Sees (advance (length (length16 version (length s))) d) (s ++ rest)
      → slice (pos (length s)) (advance (length (length16 version (length s))) d)
        ≡ ok s (advance (length (string_bytes version s)) d)
  sliced d rest f v =
      let prefix : List ℕ = length16 version (length s) in
      Reads-slice version s (advance (length prefix) d) rest f v
      ∙ ap (ok s) (
          advance-advance (length prefix) (length s) d
          ∙ ap (λ (n : ℕ). advance n d) (sym (length-append prefix s)))

  pub Reads-get_string : Reads version get_string (string_bytes version s) s
  unfolding get_string
  Reads-get_string d rest f v =
      let (e, v') = string_length d rest f v in
      ap (λ r. and_then r unless_null) e
      ∙ not_null (length s) (advance (length (length16 version (length s))) d)
      ∙ sliced d rest f v'

  Reads-get_nullable_string_full : Reads version get_nullable_string (string_bytes version s) s
  unfolding get_nullable_string
  Reads-get_nullable_string_full d rest f v =
      let (e, v') = string_length d rest f v in
      ap (λ r. and_then r unless_null) e
      ∙ not_null (length s) (advance (length (length16 version (length s))) d)
      ∙ sliced d rest f v'

null_fits :
    (d : Decoder) (tail : List ℕ) → Sees d tail → check_string_length minus_one d ≡ ok minus_one d
unfolding check_string_length
null_fits d tail v = ground (arith, remaining-Sees v)

-- An empty nullable string is written as a null one, and read as an empty one.
null_string : (version : ℕ) → Reads version get_nullable_string (null16 version) []
unfolding get_nullable_string get_string_length
null_string zero d rest f v =
    ap (λ r. and_then r unless_null)
      (by_version_fixed fixed_string_length flexible_string_length d f
        ∙ ap (λ r. and_then r check_string_length)
            (Reads-get_int16 0 minus_one (omega arith) d rest f v)
        ∙ null_fits (advance 2 d) rest (Sees-advance d (null16 0) rest v))
null_string (suc w) d rest f v =
    ap (λ r. and_then r unless_null)
      (by_version_flexible fixed_string_length flexible_string_length d w f
        ∙ ap
            (λ r.
              and_then r
                (λ (k : ℕ). check_string_length (if k == 0 then minus_one else int_pred k)))
            (Reads-get_uvariant (suc w) 0 (omega arith) d rest f v)
        ∙ null_fits (advance (length (uvarint 0)) d) rest (Sees-advance d (uvarint 0) rest v))

pub Reads-get_nullable_string :
    (version : ℕ) (s : List ℕ)
    → FitsString version (length s)
    → Reads version get_nullable_string (nullable_bytes version s) s
Reads-get_nullable_string version [] h = null_string version
Reads-get_nullable_string version (b ∷ s) h = Reads-get_nullable_string_full version (b ∷ s) h

unless_minus_one : ℤ → Get (List ℕ)
unless_minus_one tmp = if eq_ℤ tmp minus_one then pure [] else get_raw_bytes tmp

some_bytes : (n : ℕ) (d : Decoder) → unless_minus_one (pos n) d ≡ get_raw_bytes (pos n) d
unfolding unless_minus_one
some_bytes n d = ground arith

pub Reads-get_bytes :
    (version : ℕ) (s : List ℕ)
    → length s < 2 ^ 31 - 1
    → Reads version get_bytes (bytes_bytes version s) s
unfolding get_bytes unless_minus_one
Reads-get_bytes zero [] h = Reads-fixed fixed_bytes flexible_bytes (null32 0) [] (λ d rest f v.
    ap (λ r. and_then r unless_minus_one) (Reads-get_int32 0 minus_one (omega arith) d rest f v))
Reads-get_bytes zero (b ∷ s) h =
    Reads-fixed fixed_bytes flexible_bytes (bytes_bytes 0 (b ∷ s)) (b ∷ s) (
      Reads-bind 0 get_int32 unless_minus_one (length32 0 (length (b ∷ s))) (b ∷ s) _ (b ∷ s)
        (Reads-length32 0 (length (b ∷ s)) (omega arith))
        (λ d rest f v. some_bytes (length (b ∷ s)) d ∙ Reads-get_raw_bytes 0 (b ∷ s) d rest f v))
Reads-get_bytes (suc w) s h =
    Reads-flexible w fixed_bytes flexible_bytes (bytes_bytes (suc w) s) s (
      Reads-bind (suc w) get_uvariant (λ n. get_raw_bytes (int_pred n)) (uvarint (length s + 1)) s
        (length s + 1) s (Reads-get_uvariant (suc w) (length s + 1) (omega arith))
        (λ d rest f v.
          ap (λ k. get_raw_bytes k d) (int_pred_suc (length s) (omega arith))
          ∙ Reads-get_raw_bytes (suc w) s d rest f v))

unless_variant : ℤ → Get (List ℕ)
unless_variant tmp = if eq_ℤ tmp minus_one then pure [] else get_raw_bytes (int_of_long tmp)

some_variant :
    (n : ℕ) (d : Decoder) → n < 2 ^ 31 → unless_variant (pos n) d ≡ get_raw_bytes (pos n) d
unfolding unless_variant
some_variant n d h =
    let e : int_of_long (pos n) ≡ pos n = ground arith in
    let t : eq_ℤ (pos n) minus_one ≡ false = ground arith in rw (t, e) refl

pub Reads-get_variant_bytes :
    (version : ℕ) (s : List ℕ)
    → length s < 2 ^ 31
    → Reads version get_variant_bytes (variant_bytes s) s
unfolding get_variant_bytes unless_variant
Reads-get_variant_bytes version [] h = λ d rest f v.
    ap (λ r. and_then r unless_variant)
      (Reads-get_variant version minus_one (omega arith) d rest f v)
Reads-get_variant_bytes version (b ∷ s) h =
    Reads-bind version get_variant unless_variant (varint (pos (length (b ∷ s)))) (b ∷ s) _ (b ∷ s)
      (Reads-get_variant version (pos (length (b ∷ s))) (omega arith))
      (λ d rest f v.
        some_variant (length (b ∷ s)) d h ∙ Reads-get_raw_bytes version (b ∷ s) d rest f v)
