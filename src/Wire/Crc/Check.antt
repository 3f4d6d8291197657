-- ===== src/Wire/Crc/Check.antt =====
-- A field that is filled in passes its check, and the change of a byte does not.
use mathlib.Core.Path.{subst}
use coev.Base.{
  ℕ, suc, ◌+◌, ◌*◌, ◌/◌, ◌%◌, ◌^◌, ◌==◌, ◌<◌, if◌then◌else◌, ◌≡◌, ◌≢◌, refl, sym, ap, ◌∙◌, arith,
}
use coev.Base.{List, [], ◌∷◌, ◌++◌, append_assoc, none, some, length, get_elem?, All, true, false}
use coev.Base.{
  Bool, Bool-cases, inl, inr, length-append, get_elem?-drop, drop-length_append, ==_iff,
}
use coev.Wire.Crc.Bits.{checksum-lt, checksum-byte}
use coev.Wire.Crc.{
  CrcPolynomial, Crc32Field, acquire_crc32_field, save_offset, crc, set_byte, then_set,
}
use coev.Wire.Crc.{set_four, run, get_four, no_error, crc_mismatch, compared, check}
use coev.Wire.Crc.Table.{checksum, crc-checksum}

-- The field at the end of us, over what stands behind it.
abbrev pub field_at : CrcPolynomial → List ℕ → Crc32Field
field_at poly us = record { start_offset = length us; polynomial = poly }

abbrev pub four : ℕ → List ℕ
four v = (v / 2 ^ 24 % 256) ∷ (v / 2 ^ 16 % 256) ∷ (v / 256 % 256) ∷ (v % 256) ∷ []

-- A field from the pool, saved behind us.
abbrev pub acquired : CrcPolynomial → List Crc32Field → List ℕ → Crc32Field
acquired poly pool us = save_offset (length us) ((acquire_crc32_field poly pool).0)

acquired-field :
    (poly : CrcPolynomial) (pool : List Crc32Field) (us : List ℕ)
    → field_at poly us ≡ acquired poly pool us
unfolding acquire_crc32_field save_offset
acquired-field poly [] us = refl
acquired-field poly (c ∷ pool) us = refl

-- The bytes us, four bytes of the field, and the bytes xs that it is about and rest.
abbrev pub packet : List ℕ → List ℕ → List ℕ → List ℕ → List ℕ
packet us bs xs rest = us ++ (bs ++ (xs ++ rest))

abbrev pub end_of : List ℕ → List ℕ → ℕ
end_of us xs = length us + 4 + length xs

crc-packet :
    (poly : CrcPolynomial) (us bs xs rest : List ℕ)
    → length bs ≡ 4
    → All (λ b. b < 256) xs
    → crc (end_of us xs) (packet us bs xs rest) (field_at poly us) ≡ some (checksum poly xs)
crc-packet poly us bs xs rest e h =
    let n : length (us ++ bs) ≡ length us + 4 = length-append us bs ∙ ap (λ k. length us + k) e in
    ap (λ k. crc (k + length xs) (packet us bs xs rest) (field_at poly us)) (sym n)
    ∙ ap (λ l. crc (length (us ++ bs) + length xs) l (field_at poly us))
        (sym (append_assoc us bs (xs ++ rest)))
    ∙ crc-checksum (field_at poly us) (us ++ bs) xs rest n h

set_byte-behind :
    (us : List ℕ) (j b : ℕ) (l l' : List ℕ)
    → set_byte j b l ≡ some l'
    → set_byte (length us + j) b (us ++ l) ≡ some (us ++ l')
set_byte-behind [] j b l l' h = let e : 0 + j ≡ j = omega arith in ap (λ i. set_byte i b l) e ∙ h
set_byte-behind (u ∷ us) j b l l' h =
    let e : suc (length us) + j ≡ suc (length us + j) = omega arith in
    ap (λ i. set_byte i b (u ∷ (us ++ l))) e
    ∙ ap (λ o. elim o [ none ↦ none | some k ↦ some (u ∷ k) ]) (set_byte-behind us j b l l' h)

set_four-behind :
    (us : List ℕ) (a b c d v : ℕ) (l : List ℕ)
    → set_four (length us) v (us ++ (a ∷ b ∷ c ∷ d ∷ l)) ≡ some (us ++ (four v ++ l))
set_four-behind us a b c d v l =
    let e : length us ≡ length us + 0 = omega arith in
    ap
      (λ o.
        then_set (length us + 3) (v % 256) (
          then_set (length us + 2) (v / 256 % 256) (then_set (length us + 1) (v / 2 ^ 16 % 256) o)))
      (ap (λ i. set_byte i (v / 2 ^ 24 % 256) (us ++ (a ∷ b ∷ c ∷ d ∷ l))) e
        ∙ set_byte-behind us 0 (v / 2 ^ 24 % 256) _ ((v / 2 ^ 24 % 256) ∷ b ∷ c ∷ d ∷ l) refl)
    ∙ ap (λ o. then_set (length us + 3) (v % 256) (then_set (length us + 2) (v / 256 % 256) o))
        (set_byte-behind us 1 (v / 2 ^ 16 % 256) _
          ((v / 2 ^ 24 % 256) ∷ (v / 2 ^ 16 % 256) ∷ c ∷ d ∷ l) refl)
    ∙ ap (λ o. then_set (length us + 3) (v % 256) o)
        (set_byte-behind us 2 (v / 256 % 256) _
          ((v / 2 ^ 24 % 256) ∷ (v / 2 ^ 16 % 256) ∷ (v / 256 % 256) ∷ d ∷ l) refl)
    ∙ set_byte-behind us 3 (v % 256) _ (four v ++ l) refl

byte-behind : (us l : List ℕ) (j : ℕ) → get_elem? (us ++ l) (length us + j) ≡ get_elem? l j
byte-behind us l j =
    get_elem?-drop (length us) j (us ++ l) ∙ ap (λ k. get_elem? k j) (drop-length_append us l)

get_four-behind :
    (us : List ℕ) (a b c d : ℕ) (l : List ℕ)
    → get_four (length us) (us ++ (a ∷ b ∷ c ∷ d ∷ l)) ≡ some (((a * 256 + b) * 256 + c) * 256 + d)
get_four-behind us a b c d l =
    let e : length us ≡ length us + 0 = omega arith in
    let k = a ∷ b ∷ c ∷ d ∷ l in
    let here : get_elem? (us ++ k) (length us) ≡ some a =
      ap (get_elem? (us ++ k)) e ∙ byte-behind us k 0 in
    rw (here, byte-behind us k 1, byte-behind us k 2, byte-behind us k 3) refl

check-packet :
    (poly : CrcPolynomial) (us : List ℕ) (a b c d : ℕ) (xs rest : List ℕ)
    → All (λ x. x < 256) xs
    → check (end_of us xs) (packet us (a ∷ b ∷ c ∷ d ∷ []) xs rest) (field_at poly us)
      ≡ some (
          if checksum poly xs == ((a * 256 + b) * 256 + c) * 256 + d
          then no_error
          else crc_mismatch)
unfolding check
check-packet poly us a b c d xs rest h =
    ap (λ o. compared o (get_four (length us) (packet us (a ∷ b ∷ c ∷ d ∷ []) xs rest)))
      (crc-packet poly us (a ∷ b ∷ c ∷ d ∷ []) xs rest refl h)
    ∙ ap (compared (some (checksum poly xs))) (get_four-behind us a b c d (xs ++ rest))

All-append : (P : ℕ → Type 0) (xs ys : List ℕ) → All P xs → All P ys → All P (xs ++ ys)
All-append P [] ys h k = k
All-append P (x ∷ xs) ys (p, h) k = (p, All-append P xs ys h k)

-- The buffer is us, the four bytes of the field, the bytes xs and rest, and each of xs is a byte. Where the
-- field came from the pool, whatever is in it, and was saved behind us, and the cursor is behind xs, run writes the checksum of xs
-- into the four bytes, the highest first, and changes no other byte, and the check of the outcome, by a field
-- from any pool, finds no error.
pub crc_checked :
    (poly : CrcPolynomial) (pool others : List Crc32Field) (us : List ℕ) (a b c d : ℕ)
    (xs rest : List ℕ)
    → All (λ x. x < 256) xs
    → (run (end_of us xs) (packet us (a ∷ b ∷ c ∷ d ∷ []) xs rest) (acquired poly pool us)
        ≡ some (packet us (four (checksum poly xs)) xs rest))
      × (check
            (end_of us xs)
            (packet us (four (checksum poly xs)) xs rest)
            (acquired poly others us)
          ≡ some no_error)
unfolding run
crc_checked poly pool others us a b c d xs rest h = (
  subst
      (λ f.
        run (end_of us xs) (packet us (a ∷ b ∷ c ∷ d ∷ []) xs rest) f
        ≡ some (packet us (four v) xs rest))
      (acquired-field poly pool us) filled,
  subst (λ f. check (end_of us xs) (packet us (four v) xs rest) f ≡ some no_error)
      (acquired-field poly others us) passed,
)
  where
    v : ℕ
    v = checksum poly xs

    filled :
        run (end_of us xs) (packet us (a ∷ b ∷ c ∷ d ∷ []) xs rest) (field_at poly us)
        ≡ some (packet us (four v) xs rest)
    filled =
        ap
          (λ o. elim o [
            | none ↦ none
            | some n ↦ set_four (length us) n (packet us (a ∷ b ∷ c ∷ d ∷ []) xs rest)
          ])
          (crc-packet poly us (a ∷ b ∷ c ∷ d ∷ []) xs rest refl h)
        ∙ set_four-behind us a b c d v (xs ++ rest)

    passed : check (end_of us xs) (packet us (four v) xs rest) (field_at poly us) ≡ some no_error
    passed =
        check-packet poly us (v / 2 ^ 24 % 256) (v / 2 ^ 16 % 256) (v / 256 % 256) (v % 256) xs rest
          h
        ∙ ap (λ t. some (if t then no_error else crc_mismatch))
            ((==_iff v (
                ((v / 2 ^ 24 % 256 * 256 + v / 2 ^ 16 % 256) * 256 + v / 256 % 256) * 256
                + v % 256)).1
              (omega (arith, checksum-lt poly xs h)))

-- Where the check of the packet us, a, b, c, d, xs, x, ys and rest, its field behind us and its cursor behind
-- ys, finds no error, and another byte y stands in the place of x, with the rest as it was, the check finds a
-- mismatch. xs, x, y and ys are bytes.
pub crc_detects :
    (poly : CrcPolynomial) (us : List ℕ) (a b c d : ℕ) (xs : List ℕ) (x y : ℕ) (ys rest : List ℕ)
    → All (λ n. n < 256) xs
    → x < 256
    → y < 256
    → All (λ n. n < 256) ys
    → x ≢ y
    → check
        (end_of us (xs ++ (x ∷ ys)))
        (packet us (a ∷ b ∷ c ∷ d ∷ []) (xs ++ (x ∷ ys)) rest)
        (field_at poly us)
      ≡ some no_error
    → check
        (end_of us (xs ++ (y ∷ ys)))
        (packet us (a ∷ b ∷ c ∷ d ∷ []) (xs ++ (y ∷ ys)) rest)
        (field_at poly us)
      ≡ some crc_mismatch
crc_detects poly us a b c d xs x y ys rest hxs hx hy hys differ passed =
    check-packet poly us a b c d (xs ++ (y ∷ ys)) rest
      (All-append (λ n. n < 256) xs (y ∷ ys) hxs (hy, hys))
    ∙ elim (Bool-cases (checksum poly (xs ++ (y ∷ ys)) == stored)) [
      | inl t ↦ absurd (
          differ (
            checksum-byte poly xs x y ys hxs hx hy hys
              (first ∙ sym ((==_iff (checksum poly (xs ++ (y ∷ ys))) stored).0 t))))
      | inr f ↦ ap (λ t. some (if t then no_error else crc_mismatch)) f
    ]
  where
    stored : ℕ
    stored = ((a * 256 + b) * 256 + c) * 256 + d

    passes : (t : Bool) → some (if t then no_error else crc_mismatch) ≡ some no_error → t ≡ true
    passes true e = refl
    passes false e = ground arith

    first : checksum poly (xs ++ (x ∷ ys)) ≡ stored
    first = (==_iff (checksum poly (xs ++ (x ∷ ys))) stored).0 (
        passes (checksum poly (xs ++ (x ∷ ys)) == stored) (
          sym (
            check-packet poly us a b c d (xs ++ (x ∷ ys)) rest
              (All-append (λ n. n < 256) xs (x ∷ ys) hxs (hx, hys)))
          ∙ passed))
