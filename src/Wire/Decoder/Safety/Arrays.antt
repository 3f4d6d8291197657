-- ===== src/Wire/Decoder/Safety/Arrays.antt =====
-- The reads of arrays, on any bytes whatever.
use coev.Base.{ℕ, ◌<◌, zero, suc, ◌+◌, ◌*◌, ◌^◌, ◌≤◌, ◌≡◌, ap, ◌∙◌, arith}
use coev.Base.{List, [], ◌∷◌, true, false, ◌==◌, ltb, if◌then◌else◌, length}
use coev.Base.{Bool-cases, inl, inr}
use coev.Base.Int.{ℤ, pos, ltb_ℤ, signed, pos_part}
use coev.Wire.Outcome.{ok, pure, fail, and_then, ◌>>=◌, ◌>>◌}
use coev.Wire.Outcome.{invalid_array_length}
use coev.Wire.Decoder.{Decoder, Get, advance, need, skip}
use coev.Wire.Decoder.Varint.{get_uvariant}
use coev.Wire.Decoder.Strings.{int_pred, get_string}
use coev.Wire.Decoder.Strings.ReadBack.{by_version_fixed}
use native.Mathlib.Decide.{dec_le}
use coev.Wire.Decoder.Arrays.{load_chars, max_response_size, fixed_array_length, get_array_length}
use coev.Wire.Decoder.Arrays.{flexible_array_length, times, need_items, next_int32, next_int64}
use coev.Wire.Decoder.Arrays.{fixed_int32_array}
use coev.Wire.Decoder.Arrays.{get_int64_array, get_string_array}
use coev.Wire.Decoder.Safety.{
  Kept, Safe, Takes, Moves-at, Kept-of_eq, Kept-trans, Safe-need-Kept, need_fits, need_over,
}
use coev.Wire.Decoder.Safety.{Safe-bind, Safe-pure, Safe-fail, Safe-if, Safe-need}
use coev.Wire.Decoder.Safety.{Loads-load_chars}
use coev.Wire.Decoder.Safety.{Takes-next_int32, Takes-next_int64}
use coev.Wire.Decoder.Safety.Strings.{Safe-get_uvariant, Safe-by_version, Safe-get_string}

-- What is made of a fixed length, behind its four bytes.
array_length_of : ℕ → Get ℤ
array_length_of v =
    if ltb_ℤ max_response_size (signed 32 v) then fail invalid_array_length else pure (signed 32 v)

Safe-array_length_of : (v : ℕ) → Safe (array_length_of v)
unfolding array_length_of
Safe-array_length_of v =
    Safe-if (ltb_ℤ max_response_size (signed 32 v)) _ _ (Safe-fail ℤ invalid_array_length)
      (Safe-pure (signed 32 v))

abbrev length_behind : ℕ → Get ℤ
length_behind v = do skip 4; array_length_of v

Kept-length_behind :
    (d : Decoder)
    → d.offset + 4 ≤ length d.raw
    → length d.raw < 2 ^ 31
    → Kept d ((load_chars >>= length_behind) d)
Kept-length_behind d fits b =
    let loaded = Loads-load_chars d fits in
    Kept-of_eq d (ap (λ r. and_then r length_behind) (loaded.1)) (
      Kept-trans (array_length_of (loaded.0) (advance 4 d)) (Moves-at (d.offset + 4) d fits)
        (Safe-array_length_of (loaded.0) (advance 4 d) fits b))

pub Safe-get_array_length : Safe get_array_length
unfolding get_array_length array_length_of
Safe-get_array_length =
    Safe-by_version fixed_array_length flexible_array_length
      (Safe-need-Kept 4 (load_chars >>= length_behind) Kept-length_behind)
      (Safe-bind get_uvariant (λ n. pure (if n == 0 then pos 0 else int_pred n)) Safe-get_uvariant
        (λ n. Safe-pure (if n == 0 then pos 0 else int_pred n)))

pub Takes-times : {A : Type 0} (w n : ℕ) (get : Get A) → Takes w get → Takes (w * n) (times n get)
unfolding times
Takes-times w zero get t d h = ([], ap (λ (o : ℕ). ok [] (record d { offset = o })) (omega arith))
Takes-times w (suc n) get t d h =
    let first = t d (omega arith) in
    let others = Takes-times w n get t (advance w d) (omega arith) in
    (
      first.0 ∷ others.0,
      ap (λ r. and_then r (λ x. times n get >>= λ xs. pure (x ∷ xs))) (first.1)
          ∙ ap (λ r. and_then r (λ xs. pure (first.0 ∷ xs))) (others.1)
          ∙ ap (λ (o : ℕ). ok (first.0 ∷ others.0) (record d { offset = o })) (omega arith),
    )

pub Safe-times : {A : Type 0} (n : ℕ) (get : Get A) → Safe get → Safe (times n get)
unfolding times
Safe-times {A} zero get s = Safe-pure {A = List A} []
Safe-times {A} (suc n) get s =
    Safe-bind get (λ x. times n get >>= λ xs. pure (x ∷ xs)) s
      (λ x.
        Safe-bind (times n get) (λ xs. pure (x ∷ xs)) (Safe-times n get s)
          (λ xs. Safe-pure (x ∷ xs)))

-- As many items of w bytes as the length says, if the buffer has them.
items : {A : Type 0} → ℕ → Get A → ℤ → Get (List A)
items w get n =
    if ltb_ℤ (pos 0) n then need (pos (w * pos_part n)) (times (pos_part n) get) else pure []

Safe-items : {A : Type 0} (w : ℕ) (get : Get A) (n : ℤ) → Takes w get → Safe (items w get n)
unfolding items
Safe-items {A} w get n t =
    Safe-if (ltb_ℤ (pos 0) n) _ _
      (Safe-need (w * pos_part n) (times (pos_part n) get) (Takes-times w (pos_part n) get t))
      (Safe-pure {A = List A} [])

pub Safe-fixed_int32_array : Safe fixed_int32_array
unfolding items
Safe-fixed_int32_array =
    Safe-bind get_array_length (items 4 next_int32) Safe-get_array_length
      (λ n. Safe-items 4 next_int32 n Takes-next_int32)

-- A fixed length is at most that of the largest response.
module _ {B : Type 0} (k : ℤ → Get B)
    (s : (n : ℤ) → ltb_ℤ max_response_size n ≡ false → Safe (k n)) where
  Safe-length_then : (v : ℕ) → Safe (array_length_of v >>= k)
  unfolding array_length_of
  Safe-length_then v d h b = elim (Bool-cases (ltb_ℤ max_response_size (signed 32 v))) [
    | inl e ↦ rw (e, and_then) (Moves-at d.offset d h)
    | inr e ↦ rw (e, and_then) (s (signed 32 v) e d h b)
  ]

  Kept-loaded_then :
      (d : Decoder)
      → d.offset + 4 ≤ length d.raw
      → length d.raw < 2 ^ 31
      → Kept d (and_then ((load_chars >>= length_behind) d) k)
  Kept-loaded_then d fits b =
      let loaded = Loads-load_chars d fits in
      Kept-of_eq d (ap (λ r. and_then (and_then r length_behind) k) (loaded.1)) (
        Kept-trans ((array_length_of (loaded.0) >>= k) (advance 4 d))
          (Moves-at (d.offset + 4) d fits) (Safe-length_then (loaded.0) (advance 4 d) fits b))

  pub Safe-fixed_length_then : Safe (fixed_array_length >>= k)
  unfolding array_length_of
  Safe-fixed_length_then d h b = elim (dec_le (d.offset + 4) (length d.raw)) [
    | yes fits ↦
        Kept-of_eq d (ap (λ r. and_then r k) (need_fits 4 (load_chars >>= length_behind) d b fits))
          (Kept-loaded_then d fits b)
    | no over ↦
        Kept-of_eq d
          (ap (λ r. and_then r k) (need_over 4 (load_chars >>= length_behind) d b h (omega arith)))
          (Moves-at (length d.raw) d (omega arith))
  ]

checked_items : ℤ → Get (List ℤ)
checked_items n =
    if ltb_ℤ (pos 0) n then need_items 8 (pos_part n) (times (pos_part n) next_int64) else pure []

few_items : (n : ℤ) → ltb_ℤ max_response_size n ≡ false → ltb (8 * pos_part n) (2 ^ 31) ≡ true
few_items n e = ground arith

Safe-checked_items : (n : ℤ) → ltb_ℤ max_response_size n ≡ false → Safe (checked_items n)
unfolding checked_items
Safe-checked_items n e =
    Safe-if (ltb_ℤ (pos 0) n) _ _
      (rw (few_items n e) (
        Safe-need (8 * pos_part n) (times (pos_part n) next_int64)
          (Takes-times 8 (pos_part n) next_int64 Takes-next_int64)))
      (Safe-pure {A = List ℤ} [])

pub Kept-get_int64_array :
    (d : Decoder)
    → d.offset ≤ length d.raw
    → length d.raw < 2 ^ 31
    → d.flexible ≡ 0
    → Kept d (get_int64_array d)
unfolding get_int64_array get_array_length checked_items
Kept-get_int64_array d h b f =
    Kept-of_eq d
      (ap (λ r. and_then r checked_items)
        (by_version_fixed fixed_array_length flexible_array_length d f))
      (Safe-fixed_length_then checked_items Safe-checked_items d h b)

strings : ℤ → Get (List (List ℕ))
strings n = if ltb_ℤ (pos 0) n then times (pos_part n) get_string else pure []

Safe-strings : (n : ℤ) → Safe (strings n)
unfolding strings
Safe-strings n =
    Safe-if (ltb_ℤ (pos 0) n) _ _ (Safe-times (pos_part n) get_string Safe-get_string)
      (Safe-pure {A = List (List ℕ)} [])

pub Safe-get_string_array : Safe get_string_array
unfolding get_string_array strings
Safe-get_string_array = Safe-bind get_array_length strings Safe-get_array_length Safe-strings
