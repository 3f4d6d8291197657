-- ===== src/Wire/Crc/Table.antt =====
-- The table of the polynomial of Castagnoli, and the same checksum bit by bit.
use coev.Base.{
  ℕ, zero, suc, ◌+◌, ◌-◌, ◌*◌, ◌/◌, ◌%◌, ◌^◌, ◌==◌, ◌<◌, if◌then◌else◌, ◌≡◌, refl, sym, ap, ◌∙◌,
  arith,
}
use coev.Base.{List, [], ◌∷◌, some, length, get_elem?, bit_xor, true, false, All}
use Prim.Native.Nat.{differ}
use coev.Base.{Bool, ◌++◌, drop, get_elem?-drop, drop-drop, drop-length_append}
use coev.Base.Bits.{bit_and_mask, low_byte, half, even}
use coev.Base.Xor.{bit_xor_half, bit_xor_low, bit_xor_assoc, bit_xor_add, bit_xor-lt}
use coev.Wire.Crc.{
  CrcPolynomial, ieee, castagnoli, Crc32Field, shift_bit, shift_bits, fill, castagnoli_table,
}
use coev.Wire.Crc.{with_entry, update, then_update, crc_loop, inverted, crc}

pub shift_bit-parity :
    (poly c : ℕ) → shift_bit poly c ≡ (if c % 2 == 0 then c / 2 else bit_xor (c / 2) poly)
unfolding shift_bit
shift_bit-parity poly c =
    ap (λ (b : ℕ). if b == 0 then c / 2 else bit_xor (c / 2) poly) (bit_and_mask 1 c)

-- What stands above the lowest digit is only shifted.
above-low : (k h x : ℕ) → bit_xor (h * 2 ^ suc k) x % 2 ≡ x % 2
above-low k h x = ground (arith, bit_xor_low (h * 2 ^ suc k) x, even k h 0, differ-zero (x % 2))
  where
    differ-zero : (c : ℕ) → differ 0 c ≡ c
    differ-zero c = refl

above-half : (k h x : ℕ) → bit_xor (h * 2 ^ suc k) x / 2 ≡ bit_xor (h * 2 ^ k) (x / 2)
above-half k h x = ground (arith, bit_xor_half (h * 2 ^ suc k) x, half k h 0)

shift_bit-above :
    (poly k h x : ℕ)
    → shift_bit poly (bit_xor (h * 2 ^ suc k) x) ≡ bit_xor (h * 2 ^ k) (shift_bit poly x)
shift_bit-above poly k h x =
    shift_bit-parity poly y
    ∙ ap (λ (l : ℕ). if l == 0 then y / 2 else bit_xor (y / 2) poly) (above-low k h x)
    ∙ ap (λ n. if x % 2 == 0 then n else bit_xor n poly) (above-half k h x)
    ∙ either (x % 2 == 0)
    ∙ ap (bit_xor (h * 2 ^ k)) (sym (shift_bit-parity poly x))
  where
    y : ℕ
    y = bit_xor (h * 2 ^ suc k) x

    either :
        (b : Bool)
        → (if b then bit_xor (h * 2 ^ k) (x / 2) else bit_xor (bit_xor (h * 2 ^ k) (x / 2)) poly)
          ≡ bit_xor (h * 2 ^ k) (if b then x / 2 else bit_xor (x / 2) poly)
    either true = refl
    either false = bit_xor_assoc (h * 2 ^ k) (x / 2) poly

shift_bits-above :
    (poly k h x : ℕ) → shift_bits poly k (bit_xor (h * 2 ^ k) x) ≡ bit_xor h (shift_bits poly k x)
shift_bits-above poly zero h x = ap (λ n. bit_xor n x) (omega arith)
shift_bits-above poly (suc k) h x =
    ap (shift_bits poly k) (shift_bit-above poly k h x)
    ∙ shift_bits-above poly k h (shift_bit poly x)

fill-entry : (n i j : ℕ) → j < n → get_elem? (fill n i) j ≡ some (shift_bits 0x82f63b78 8 (i + j))
fill-entry zero i j h = absurd (omega arith)
fill-entry (suc n) i zero h = ap (λ k. some (shift_bits 0x82f63b78 8 k)) (omega arith)
fill-entry (suc n) i (suc j) h =
    fill-entry n (suc i) j (omega arith) ∙ ap (λ k. some (shift_bits 0x82f63b78 8 k)) (omega arith)

-- The reference: a byte, or any bytes, bit by bit.
abbrev pub by_bits : ℕ → ℕ → List ℕ → ℕ
by_bits poly crc [] = crc
by_bits poly crc (b ∷ bs) = by_bits poly (shift_bits poly 8 (bit_xor crc b)) bs

pub update-bits :
    (crc b : ℕ) → b < 256 → update castagnoli crc b ≡ some (shift_bits 0x82f63b78 8 (bit_xor crc b))
unfolding update castagnoli_table
update-bits crc b h =
    ap (λ (l : ℕ). with_entry crc (get_elem? (fill 256 0) (bit_xor l b))) (low_byte crc)
    ∙ ap (with_entry crc) (fill-entry 256 0 index in_table)
    ∙ ap some (
        ap (λ (i : ℕ). bit_xor (crc / 256) (shift_bits 0x82f63b78 8 i)) (omega arith)
        ∙ sym (shift_bits-above 0x82f63b78 8 (crc / 256) index)
        ∙ ap (shift_bits 0x82f63b78 8) joined)
  where
    index : ℕ
    index = bit_xor (crc % 256) b

    in_table : index < 256
    in_table = bit_xor-lt 8 (crc % 256) b (omega arith) h

    joined : bit_xor (crc / 256 * 2 ^ 8) index ≡ bit_xor crc b
    joined =
        sym (bit_xor_assoc (crc / 256 * 2 ^ 8) (crc % 256) b)
        ∙ ap (λ n. bit_xor n b) (bit_xor_add 8 (crc / 256) (crc % 256) (omega arith))
        ∙ ap (λ (n : ℕ). bit_xor n b) (omega arith)

-- The polynomials of the two checksums, with their digits in reverse.
abbrev pub reversed : CrcPolynomial → ℕ
reversed ieee = 0xedb88320
reversed castagnoli = 0x82f63b78

abbrev pub checksum : CrcPolynomial → List ℕ → ℕ
checksum poly bs = bit_xor (by_bits (reversed poly) 0xffffffff bs) 0xffffffff

update-any :
    (poly : CrcPolynomial) (crc b : ℕ)
    → b < 256
    → update poly crc b ≡ some (shift_bits (reversed poly) 8 (bit_xor crc b))
unfolding update
update-any ieee crc b h = refl
update-any castagnoli crc b h = update-bits crc b h

crc_loop-bits :
    (poly : CrcPolynomial) (buf : List ℕ) (i start : ℕ) (xs rest : List ℕ)
    → drop i buf ≡ xs ++ rest
    → All (λ b. b < 256) xs
    → crc_loop poly buf (length xs) i (some start) ≡ some (by_bits (reversed poly) start xs)
crc_loop-bits poly buf i start [] rest e h = refl
crc_loop-bits poly buf i start (x ∷ xs) rest e (hx, h) =
    ap (λ o. crc_loop poly buf (length xs) (suc i) (then_update poly (some start) o)) here
    ∙ ap (crc_loop poly buf (length xs) (suc i)) (update-any poly start x hx)
    ∙ crc_loop-bits poly buf (suc i) (shift_bits (reversed poly) 8 (bit_xor start x)) xs rest behind
        h
  where
    here : get_elem? buf i ≡ some x
    here =
        let same : i ≡ i + 0 = omega arith in
        ap (get_elem? buf) same ∙ get_elem?-drop i 0 buf ∙ ap (λ l. get_elem? l 0) e

    behind : drop (suc i) buf ≡ xs ++ rest
    behind =
        let next : suc i ≡ i + 1 = omega arith in
        ap (λ (k : ℕ). drop k buf) next ∙ drop-drop i 1 buf ∙ ap (drop 1) e

-- Where the buffer is us, xs and rest, us ends with the four bytes of the field, and the bytes of xs
-- are bytes, the checksum of the field over xs, for the polynomial of Castagnoli by its table, is the
-- one that takes the bits of xs one by one.
pub crc-checksum :
    (f : Crc32Field) (us xs rest : List ℕ)
    → length us ≡ f.start_offset + 4
    → All (λ b. b < 256) xs
    → crc (length us + length xs) (us ++ (xs ++ rest)) f ≡ some (checksum f.polynomial xs)
unfolding crc
crc-checksum f us xs rest e h =
    ap (λ (n : ℕ). inverted (crc_loop f.polynomial buf n (f.start_offset + 4) (some 0xffffffff)))
      count
    ∙ ap inverted (crc_loop-bits f.polynomial buf (f.start_offset + 4) 0xffffffff xs rest start h)
  where
    buf : List ℕ
    buf = us ++ (xs ++ rest)

    count : length us + length xs - (f.start_offset + 4) ≡ length xs
    count = omega arith

    start : drop (f.start_offset + 4) buf ≡ xs ++ rest
    start = ap (λ (k : ℕ). drop k buf) (sym e) ∙ drop-length_append us (xs ++ rest)
