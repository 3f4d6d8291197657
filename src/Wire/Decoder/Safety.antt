-- ===== src/Wire/Decoder/Safety.antt =====
-- The reads of packet_decoder.cpp on any bytes whatever: they neither leave the buffer nor fail an
-- assertion nor run on, and move m_offset only.
pub mod Strings
pub mod Arrays
pub mod Reads
use coev.Base.{ℕ, zero, suc, ◌+◌, ◌-◌, ◌*◌, ◌%◌, ◌^◌, ◌≤◌, ◌<◌, ◌≡◌, refl, sym, ap, ◌∙◌, arith}
use coev.Base.{List, [], ◌∷◌, Bool, true, false, Option, none, some, ◌==◌, ltb, leb, if◌then◌else◌}
use coev.Base.{length, get_elem?, get_elem?-lt, drop, not, bit_and, bit_or, le→leb, lt→leb_false}
use coev.Base.Int.{ℤ, pos, negsuc, ltb_ℤ, eq_ℤ, signed, pos_part, int_of_long, int_of_size, sub_ℕ}
use mathlib.Core.Path.{subst}
use coev.Wire.Decoder.Arrays.{load_chars, next_int32, next_int64, max_response_size}
use coev.Wire.Decoder.View.{advance-advance, int_of_size-small}
use native.Mathlib.Decide.{dec_le, dec_lt}
use coev.Wire.Outcome.{Code, Outcome, ok, err, fault, stuck, pure, fail, and_then, ◌>>=◌, ◌>>◌}
use coev.Wire.Outcome.{insufficient_data, invalid_bool, invalid_array_length}
use coev.Wire.Decoder.{Decoder, Get, advance, byte_at, need, minus, remaining, to_end, skip}
use coev.Wire.Decoder.{load16, load32, load64}
use coev.Wire.Decoder.{get_int8, get_int16, get_int32, get_int64, get_float64, get_bool}

-- A call that leaves the decoder as it was, but for an offset in the buffer.
pub record Moves (d d' : Decoder) : Type 0 where
  pub raw_kept : d'.raw ≡ d.raw
  pub version_kept : d'.flexible ≡ d.flexible
  pub stack_kept : d'.stack ≡ d.stack
  pub inside : d'.offset ≤ length d'.raw

-- What a call comes to: it returns, and moves the offset in the buffer only.
abbrev pub Kept : {A : Type 0} → Decoder → Outcome Decoder A → Type 0
Kept d (ok a d') = Moves d d'
Kept d (err c d') = Moves d d'
Kept d fault = ⊥
Kept d stuck = ⊥

abbrev pub Safe : {A : Type 0} → Get A → Type 0
Safe get = (d : Decoder) → d.offset ≤ length d.raw → length d.raw < 2 ^ 31 → Kept d (get d)

Moves-trans : {d d' d'' : Decoder} → Moves d d' → Moves d' d'' → Moves d d''
Moves-trans m n = record {
  raw_kept = n.raw_kept ∙ m.raw_kept;
  version_kept = n.version_kept ∙ m.version_kept;
  stack_kept = n.stack_kept ∙ m.stack_kept;
  inside = n.inside;
}

pub Kept-trans :
    {A : Type 0} {d d' : Decoder} (r : Outcome Decoder A) → Moves d d' → Kept d' r → Kept d r
Kept-trans (ok a d') m k = Moves-trans m k
Kept-trans (err c d') m k = Moves-trans m k
Kept-trans fault m k = k
Kept-trans stuck m k = k

pub Moves-at : (o : ℕ) (d : Decoder) → o ≤ length d.raw → Moves d (record d { offset = o })
Moves-at o d h = record { raw_kept = refl; version_kept = refl; stack_kept = refl; inside = h }

Moves-small : {d d' : Decoder} → Moves d d' → length d.raw < 2 ^ 31 → length d'.raw < 2 ^ 31
Moves-small m b = subst (λ l. length l < 2 ^ 31) (sym m.raw_kept) b

pub Kept-and_then :
    {A B : Type 0} (d : Decoder) (r : Outcome Decoder A) (k : A → Get B)
    → length d.raw < 2 ^ 31
    → Kept d r
    → ((a : A) → Safe (k a))
    → Kept d (and_then r k)
Kept-and_then d (ok a d') k b m s = Kept-trans (k a d') m (s a d' m.inside (Moves-small m b))
Kept-and_then d (err c d') k b m s = m
Kept-and_then d fault k b m s = m
Kept-and_then d stuck k b m s = m

pub Safe-bind :
    {A B : Type 0} (m : Get A) (k : A → Get B) → Safe m → ((a : A) → Safe (k a)) → Safe (m >>= k)
Safe-bind m k s t d h b = Kept-and_then d (m d) k b (s d h b) t

pub Safe-pure : {A : Type 0} (a : A) → Safe (pure a)
Safe-pure a d h b = Moves-at d.offset d h

pub Safe-fail : (A : Type 0) (c : Code) → Safe (fail {A = A} c)
Safe-fail A c d h b = Moves-at d.offset d h

pub Safe-if : {A : Type 0} (b : Bool) (m k : Get A) → Safe m → Safe k → Safe (if b then m else k)
Safe-if true m k s t = s
Safe-if false m k s t = t

-- A read that returns wherever w bytes are left, and takes them.
abbrev pub Takes : {A : Type 0} → ℕ → Get A → Type 0
Takes {A} w get =
    (d : Decoder) → d.offset + w ≤ length d.raw → (a : A) × (get d ≡ ok a (advance w d))

pub remaining-small :
    (d : Decoder) → length d.raw < 2 ^ 31 → remaining d ≡ sub_ℕ (length d.raw) d.offset
remaining-small d b = ap (λ z. minus z d.offset) (int_of_size-small (length d.raw) b)

pub need_fits :
    {A : Type 0} (w : ℕ) (get : Get A) (d : Decoder)
    → length d.raw < 2 ^ 31
    → d.offset + w ≤ length d.raw
    → need (pos w) get d ≡ get d
need_fits w get d b h = ground (arith, remaining-small d b)

pub need_over :
    {A : Type 0} (w : ℕ) (get : Get A) (d : Decoder)
    → length d.raw < 2 ^ 31
    → d.offset ≤ length d.raw
    → length d.raw < d.offset + w
    → need (pos w) get d ≡ err insufficient_data (to_end d)
need_over w get d b h over = ground (arith, remaining-small d b)

pub Kept-of_eq :
    {A : Type 0} (d : Decoder) {r r' : Outcome Decoder A} → r' ≡ r → Kept d r → Kept d r'
Kept-of_eq d e k = subst (λ r. Kept d r) (sym e) k

pub Kept-taken :
    {A : Type 0} (w : ℕ) (get : Get A) (d : Decoder)
    → Takes w get
    → d.offset + w ≤ length d.raw
    → Kept d (get d)
Kept-taken w get d t fits = Kept-of_eq d ((t d fits).1) (Moves-at (d.offset + w) d fits)

pub Safe-need-Kept :
    {A : Type 0} (w : ℕ) (get : Get A)
    → ((d : Decoder) → d.offset + w ≤ length d.raw → length d.raw < 2 ^ 31 → Kept d (get d))
    → Safe (need (pos w) get)
Safe-need-Kept w get k d h b = elim (dec_le (d.offset + w) (length d.raw)) [
  | yes fits ↦ Kept-of_eq d (need_fits w get d b fits) (k d fits b)
  | no over ↦
      Kept-of_eq d (need_over w get d b h (omega arith)) (Moves-at (length d.raw) d (omega arith))
]

pub Safe-need : {A : Type 0} (w : ℕ) (get : Get A) → Takes w get → Safe (need (pos w) get)
Safe-need w get t = Safe-need-Kept w get (λ d fits b. Kept-taken w get d t fits)

pub Takes-bind :
    {A B : Type 0} (m n : ℕ) (get : Get A) (k : A → Get B)
    → Takes m get
    → ((a : A) → Takes n (k a))
    → Takes (m + n) (get >>= k)
Takes-bind m n get k s t d h =
    let first = s d (omega arith) in
    let second = t (first.0) (advance m d) (omega arith) in
    (
      second.0,
      ap (λ r. and_then r k) (first.1) ∙ second.1 ∙ ap (ok (second.0)) (advance-advance m n d),
    )

-- A number that the next w bytes make, and the read that then goes behind them.
abbrev pub Loads : {A : Type 0} → ℕ → Get A → Type 0
Loads {A} w get = (d : Decoder) → d.offset + w ≤ length d.raw → (a : A) × (get d ≡ ok a d)

pub Loads-byte_at : (w i : ℕ) → i < w → Loads w (byte_at i)
Loads-byte_at w i h d fits =
    let there = get_elem?-lt d.raw (d.offset + i) (omega arith) in
    (there.0, ap (λ o. elim o [ none ↦ fault | some c ↦ ok c d ]) (there.1))

pub Loads-bind :
    {A B : Type 0} (w : ℕ) (m : Get A) (k : A → Get B)
    → Loads w m
    → ((a : A) → Loads w (k a))
    → Loads w (m >>= k)
Loads-bind w m k s t d h =
    let first = s d h in
    let second = t (first.0) d h in (second.0, ap (λ r. and_then r k) (first.1) ∙ second.1)

Loads-pure : {A : Type 0} (w : ℕ) (a : A) → Loads w (pure a)
Loads-pure w a d h = (a, refl)

-- One byte more of a number.
Loads-next :
    {B : Type 0} (w i : ℕ) (k : ℕ → Get B)
    → i < w
    → ((b : ℕ) → Loads w (k b))
    → Loads w (byte_at i >>= k)
Loads-next w i k h t = Loads-bind w (byte_at i) k (Loads-byte_at w i h) t

pub Takes-loaded :
    {A B : Type 0} (w : ℕ) (m : Get A) (g : A → B)
    → Loads w m
    → Takes w (do v ← m; skip w; pure (g v))
Takes-loaded w m g s d h =
    let first = s d h in (g (first.0), ap (λ r. and_then r (λ v. do skip w; pure (g v))) (first.1))

Loads-load16 : Loads 2 load16
unfolding load16
Loads-load16 =
    Loads-next 2 0 _ (omega arith)
      (λ b0. Loads-next 2 1 _ (omega arith) (λ b1. Loads-pure 2 (bit_or (b0 * 2 ^ 8) b1)))

Loads-load32 : Loads 4 load32
unfolding load32
Loads-load32 = Loads-next 4 0 _ (omega arith) (λ b0. Loads-next 4 1 _ (omega arith) (λ b1.
    Loads-next 4 2 _ (omega arith) (λ b2. Loads-next 4 3 _ (omega arith) (λ b3. Loads-pure 4 _))))

Loads-load64 : Loads 8 load64
unfolding load64
Loads-load64 = Loads-next 8 0 _ (omega arith) (λ b0. Loads-next 8 1 _ (omega arith) (λ b1.
    Loads-next 8 2 _ (omega arith) (λ b2. Loads-next 8 3 _ (omega arith) (λ b3.
      Loads-next 8 4 _ (omega arith) (λ b4. Loads-next 8 5 _ (omega arith) (λ b5.
        Loads-next 8 6 _ (omega arith)
          (λ b6. Loads-next 8 7 _ (omega arith) (λ b7. Loads-pure 8 _))))))))

pub Loads-load_chars : Loads 4 load_chars
unfolding load_chars
Loads-load_chars = Loads-next 4 0 _ (omega arith) (λ b0. Loads-next 4 1 _ (omega arith) (λ b1.
    Loads-next 4 2 _ (omega arith) (λ b2. Loads-next 4 3 _ (omega arith) (λ b3. Loads-pure 4 _))))

pub Safe-get_int8 : Safe get_int8
unfolding get_int8
Safe-get_int8 =
    Safe-need 1 _ (Takes-loaded 1 (byte_at 0) (signed 8) (Loads-byte_at 1 0 (omega arith)))

pub Safe-get_int16 : Safe get_int16
unfolding get_int16
Safe-get_int16 = Safe-need 2 _ (Takes-loaded 2 load16 (signed 16) Loads-load16)

pub Safe-get_int32 : Safe get_int32
unfolding get_int32
Safe-get_int32 = Safe-need 4 _ (Takes-loaded 4 load32 (signed 32) Loads-load32)

pub Safe-get_int64 : Safe get_int64
unfolding get_int64
Safe-get_int64 = Safe-need 8 _ (Takes-loaded 8 load64 (signed 64) Loads-load64)

pub Safe-get_float64 : Safe get_float64
unfolding get_float64
Safe-get_float64 = Safe-need 8 _ (Takes-loaded 8 load64 (λ v. v) Loads-load64)

pub Takes-next_int32 : Takes 4 next_int32
Takes-next_int32 = Takes-loaded 4 load32 (signed 32) Loads-load32

pub Takes-next_int64 : Takes 8 next_int64
Takes-next_int64 = Takes-loaded 8 load64 (signed 64) Loads-load64

bool_of : ℤ → Get Bool
bool_of b =
    if eq_ℤ b (pos 0) then pure false else if eq_ℤ b (pos 1) then pure true else fail invalid_bool

Safe-bool_of : (b : ℤ) → Safe (bool_of b)
unfolding bool_of
Safe-bool_of b =
    Safe-if (eq_ℤ b (pos 0)) _ _ (Safe-pure false)
      (Safe-if (eq_ℤ b (pos 1)) _ _ (Safe-pure true) (Safe-fail Bool invalid_bool))

pub Safe-get_bool : Safe get_bool
unfolding get_bool bool_of
Safe-get_bool = Safe-bind get_int8 bool_of Safe-get_int8 Safe-bool_of
