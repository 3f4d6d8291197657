-- ===== src/Zoo/Archive.antt =====
-- iarchive and oarchive of proto.cpp, src/coev_zookeeper: the bytes that an archive holds, and the
-- reads and writes of single values and of vectors. A host with the lowest byte first is assumed.
pub mod Rules
pub mod Values
use coev.Base.{ℕ, zero, suc, ◌+◌, ◌*◌, ◌==◌, ltb, if◌then◌else◌, Bool, true, false, not}
use coev.Base.{List, [], ◌∷◌, ◌++◌, length, take, drop}
use coev.Base.Int.{ℤ, pos, negsuc, ltb_ℤ, eq_ℤ, signed, unsigned, int_of_size, pos_part}
use coev.Wire.Format.{big_endian}

-- What a call returns: 0 with its out parameter, or another code (the out parameter is then not
-- modelled), with the bytes that the archive then holds. `fault` is an exception, or a value that C++
-- gives no meaning.
pub data Outcome (A : Type 0) : Type 0 where
  ok : A → List ℕ → Outcome A
  err : ℤ → List ℕ → Outcome A
  fault : Outcome A

-- A call on m_view of an iarchive, or on m_buff of an oarchive.
abbrev pub Call : Type 0 → Type 0
Call A = List ℕ → Outcome A

abbrev pub and_then : {A B : Type 0} → Outcome A → (A → Call B) → Outcome B
and_then (ok a s) k = k a s
and_then (err c s) k = err c s
and_then fault k = fault

-- `rc = rc ? rc : ...`
infixl 5 ◌>>=◌ ◌>>◌
unfoldable pub ◌>>=◌ : {A B : Type 0} → Call A → (A → Call B) → Call B
(m >>= k) s = and_then (m s) k

unfoldable pub ◌>>◌ : {B : Type 0} → Call (Unit {0}) → Call B → Call B
(m >> k) s = and_then (m s) (λ _. k)

unfoldable pub pure : {A : Type 0} → A → Call A
pure a s = ok a s

-- -E2BIG and -EINVAL
abbrev pub too_big : ℤ
too_big = negsuc 6

abbrev pub invalid : ℤ
invalid = negsuc 21

-- m_buff.append
abbrev pub append : List ℕ → Call (Unit {0})
append bs buff = ok tt (buff ++ bs)

unfoldable pub put_int : ℤ → Call (Unit {0})
put_int d = append (big_endian 4 (unsigned 32 d))

unfoldable pub put_long : ℤ → Call (Unit {0})
put_long d = append (big_endian 8 (unsigned 64 d))

unfoldable pub put_bool : ℤ → Call (Unit {0})
put_bool d = append ((if eq_ℤ d (pos 0) then 0 else 1) ∷ [])

unfoldable pub put_string : List ℕ → Call (Unit {0})
put_string [] = put_int (negsuc 0)
put_string (b ∷ s) = put_int (int_of_size (length (b ∷ s))) >> append (b ∷ s)

unfoldable pub put_buffer : List ℕ → Call (Unit {0})
put_buffer s = put_string s

-- The number of the bytes, the highest first: ntohl of four bytes.
abbrev pub joined : ℕ → List ℕ → ℕ
joined acc [] = acc
joined acc (b ∷ bs) = joined (acc * 256 + b) bs

unfoldable pub get_int : Call ℤ
get_int view =
    if ltb (length view) 4
    then err too_big view
    else ok (signed 32 (joined 0 (take 4 view))) (drop 4 view)

-- ntohl takes the int64_t at the view for an uint32_t, of which the first four bytes are.
unfoldable pub get_long : Call ℤ
get_long view =
    if ltb (length view) 8
    then err too_big view
    else ok (pos (joined 0 (take 4 view))) (drop 8 view)

-- A bool whose byte is neither 0 nor 1 has no meaning.
abbrev pub bool_of : ℕ → List ℕ → Outcome ℤ
bool_of zero rest = ok (pos 0) rest
bool_of (suc zero) rest = ok (pos 1) rest
bool_of (suc (suc b)) rest = fault

unfoldable pub get_bool : Call ℤ
get_bool [] = err too_big []
get_bool (b ∷ rest) = bool_of b rest

abbrev pub get_chars : ℤ → Call (List ℕ)
get_chars len view =
    if ltb_ℤ len (pos 0)
    then err invalid view
    else if ltb_ℤ (int_of_size (length view)) len
    then err too_big view
    else ok (take (pos_part len) view) (drop (pos_part len) view)

unfoldable pub get_string : Call (List ℕ)
get_string = get_int >>= get_chars

unfoldable pub get_buffer : Call (List ℕ)
get_buffer = get_string

-- The loops over the items of a vector.
abbrev pub put_each : {A : Type 0} → (A → Call (Unit {0})) → List A → Call (Unit {0})
put_each put [] = pure tt
put_each put (x ∷ xs) = put x >> put_each put xs

abbrev pub times : {A : Type 0} → ℕ → Call A → Call (List A)
times zero get = pure []
times (suc n) get = get >>= λ x. times n get >>= λ xs. pure (x ∷ xs)

unfoldable pub put_vec : {A : Type 0} → (A → Call (Unit {0})) → List A → Call (Unit {0})
put_vec put v = put_int (int_of_size (length v)) >> put_each put v

-- resize() to a negative number throws.
abbrev pub items : {A : Type 0} → Call A → ℤ → Call (List A)
items get (pos n) = times n get
items get (negsuc n) = λ s. fault

unfoldable pub get_vec : {A : Type 0} → Call A → Call (List A)
get_vec get = get_int >>= items get
