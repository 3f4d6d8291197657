-- ===== src/Zoo/Archive/Values.antt =====
-- How the values that stand alone, and vectors, travel.
use coev.Base.{ℕ, ◌/◌, ◌%◌, ◌^◌, ◌<◌, ltb, if◌then◌else◌, ◌≡◌, refl, ap, ◌∙◌, arith}
use coev.Base.{List, [], ◌∷◌, ◌++◌, map, All, false, Bool-cases, inl, inr}
use coev.Base.{length, take, drop, length-append, take-length_append, drop-length_append}
use coev.Base.Int.{ℤ, pos, negsuc, ltb_ℤ, eq_ℤ, signed, unsigned, int_of_size, IsInt}
use coev.Wire.Format.{big_endian}
use coev.Zoo.Archive.{Call, ok, ◌>>=◌, pure, append, joined}
use coev.Zoo.Archive.{put_int, put_long, put_bool, put_string, put_buffer, put_each, put_vec}
use coev.Zoo.Archive.{
  get_int, get_long, get_bool, get_chars, get_string, get_buffer, times, items, get_vec,
}
use coev.Zoo.Archive.Rules.{Travels, then-Travels, last-Travels, pure-Travels}

-- What is read of a 32-bit number, which is itself, of a 64-bit number, and of a bool.
abbrev pub int32 : ℤ → ℤ
int32 z = signed 32 (unsigned 32 z)

abbrev pub high : ℤ → ℤ
high z = pos (unsigned 64 z / 2 ^ 32)

abbrev pub flag : ℤ → ℤ
flag z = if eq_ℤ z (pos 0) then pos 0 else pos 1

pub int32-IsInt : (z : ℤ) → IsInt 32 z → int32 z ≡ z
int32-IsInt (pos n) h = ground arith
int32-IsInt (negsuc n) h = ground arith

joined_four : (v : ℕ) → joined 0 (big_endian 4 v) ≡ v % 2 ^ 32
joined_four v = omega arith

joined_half : (v : ℕ) → joined 0 (take 4 (big_endian 8 v)) ≡ v / 2 ^ 32 % 2 ^ 32
joined_half v = omega arith

unsigned-lt : (z : ℤ) → unsigned 32 z % 2 ^ 32 ≡ unsigned 32 z
unsigned-lt (pos n) = omega arith
unsigned-lt (negsuc n) = omega arith

half-lt : (z : ℤ) → unsigned 64 z / 2 ^ 32 % 2 ^ 32 ≡ unsigned 64 z / 2 ^ 32
half-lt (pos n) = omega arith
half-lt (negsuc n) = omega arith

pub int_read :
    (z : ℤ) (rest : List ℕ) → get_int (big_endian 4 (unsigned 32 z) ++ rest) ≡ ok (int32 z) rest
unfolding get_int
int_read z rest =
    let four : ltb (length (big_endian 4 (unsigned 32 z) ++ rest)) 4 ≡ false = ground arith in
    rw four (ap (λ n. ok (signed 32 n) rest) (joined_four (unsigned 32 z) ∙ unsigned-lt z))

pub int-Travels : (z : ℤ) → Travels (put_int z) get_int (int32 z)
unfolding put_int
int-Travels z = record {
  bytes = big_endian 4 (unsigned 32 z);
  written = λ buff. refl;
  read = λ rest h. int_read z rest;
}

pub long-Travels : (z : ℤ) → Travels (put_long z) get_long (high z)
unfolding put_long get_long
long-Travels z = record {
  bytes = big_endian 8 (unsigned 64 z);
  written = λ buff. refl;
  read = λ rest h.
      let eight : ltb (length (big_endian 8 (unsigned 64 z) ++ rest)) 8 ≡ false = ground arith in
      rw eight (ap (λ n. ok (pos n) rest) (joined_half (unsigned 64 z) ∙ half-lt z));
}

pub bool-Travels : (z : ℤ) → Travels (put_bool z) get_bool (flag z)
unfolding put_bool get_bool
bool-Travels z = record {
  bytes = (if eq_ℤ z (pos 0) then 0 else 1) ∷ [];
  written = λ buff. refl;
  read = λ rest h. elim (Bool-cases (eq_ℤ z (pos 0))) [ inl e ↦ rw e refl | inr e ↦ rw e refl ];
}

-- Some chars, and as many as an int32_t counts.
abbrev pub IsText : List ℕ → Type 0
IsText s = (0 < length s) × (length s < 2 ^ 31)

size_back : (n : ℕ) → n < 2 ^ 31 → int32 (int_of_size n) ≡ pos n
size_back n h = ground arith

chars-Travels : (s : List ℕ) → length s < 2 ^ 31 → Travels (append s) (get_chars (pos (length s))) s
chars-Travels s h = record {
  bytes = s;
  written = λ buff. refl;
  read = λ rest h'.
      let some_len : ltb_ℤ (pos (length s)) (pos 0) ≡ false = ground arith in
      let fits : ltb_ℤ (int_of_size (length (s ++ rest))) (pos (length s)) ≡ false =
        ground (arith, length-append s rest) in
      rw (some_len, fits)
        (ap (λ l. ok l (drop (length s) (s ++ rest))) (take-length_append s rest)
          ∙ ap (ok s) (drop-length_append s rest));
}

pub string-Travels : (s : List ℕ) → IsText s → Travels (put_string s) get_string s
unfolding put_string get_string
string-Travels [] (h, k) = absurd (omega arith)
string-Travels (b ∷ s) (h, k) =
    then-Travels get_chars (int-Travels (int_of_size (length (b ∷ s))))
      (rw (size_back (length (b ∷ s)) k) (chars-Travels (b ∷ s) k))

pub buffer-Travels : (s : List ℕ) → IsText s → Travels (put_buffer s) get_buffer s
unfolding put_buffer get_buffer
buffer-Travels s h = string-Travels s h

-- The items of a vector, each of which travels as f of it.
module _ {A : Type 0} (put : A → Call (Unit {0})) (get : Call A) (f : A → A) (P : A → Type 0) where
  module _ (travels : (x : A) → P x → Travels (put x) get (f x)) where
    pub each-Travels :
        (xs : List A) → All P xs → Travels (put_each put xs) (times (length xs) get) (map f xs)
    each-Travels [] h = pure-Travels []
    each-Travels (x ∷ xs) (h, hs) =
        then-Travels (λ x. times (length xs) get >>= λ xs. pure (x ∷ xs)) (travels x h)
          (last-Travels (λ xs. f x ∷ xs) (each-Travels xs hs))

    pub vec-Travels :
        (xs : List A)
        → length xs < 2 ^ 31
        → All P xs
        → Travels (put_vec put xs) (get_vec get) (map f xs)
    unfolding put_vec get_vec
    vec-Travels xs n h =
        then-Travels (items get) (int-Travels (int_of_size (length xs)))
          (rw (size_back (length xs) n) (each-Travels xs h))

-- A vector whose items hold, and which an int32_t counts.
abbrev pub IsVec : {A : Type 0} → (A → Type 0) → List A → Type 0
IsVec P v = (length v < 2 ^ 31) × All P v

pub map-id : {A : Type 0} (xs : List A) → map (λ x. x) xs ≡ xs
map-id [] = refl
map-id (x ∷ xs) = ap (λ l. x ∷ l) (map-id xs)
