-- ===== src/Wire/Decoder/Safety/Strings.antt =====
-- getVariant, getUVariant and the reads of byte strings, on any bytes whatever.
use coev.Base.{ℕ, zero, suc, ◌+◌, ◌-◌, ◌*◌, ◌%◌, ◌^◌, ◌≤◌, ◌<◌, ◌≡◌, refl, arith}
use coev.Base.{List, [], ◌∷◌, Bool, false, ◌==◌, if◌then◌else◌}
use coev.Base.{length, drop, length-drop, Bool-cases, inl, inr, bit_and, bit_or, le→leb}
use coev.Base.Int.{ℤ, pos, ltb_ℤ, eq_ℤ, pos_part, int_of_long}
use native.Mathlib.Decide.{dec_lt}
use coev.Wire.Outcome.{and_then_assoc, Code, err, pure, and_then, ◌>>=◌}
use coev.Wire.Outcome.{insufficient_data}
use coev.Wire.Outcome.{variant_overflow, uvariant_overflow}
use coev.Wire.Decoder.{Decoder, Get, advance, remaining, to_end, get_int16, get_int32}
use coev.Wire.Decoder.Varint.{varint_loop, get_uvariant, get_variant, uvariant_bad, variant_bad}
use coev.Wire.Decoder.Varint.{zigzag_decode}
use coev.Wire.Decoder.View.{Sees}
use coev.Wire.Decoder.Varint.Steps.{round, varint_loop-round}
use coev.Wire.Decoder.Strings.{minus_one, by_version, slice, get_raw_bytes, int_pred, get_bytes}
use coev.Wire.Decoder.Strings.{fixed_bytes, flexible_bytes, get_variant_bytes, check_string_length}
use coev.Wire.Decoder.Strings.{get_string_length}
use coev.Wire.Decoder.Strings.{unless_null, get_string, get_nullable_string}
use coev.Wire.Decoder.Safety.{Moves, Kept, Safe, Moves-at, Kept-and_then, Safe-bind, Safe-pure}
use coev.Wire.Decoder.Safety.{remaining-small, Safe-if, Kept-of_eq, Kept-trans}
use coev.Wire.Decoder.Safety.{Safe-get_int16, Safe-get_int32}

-- `m_offset -= n`, which at most undoes what was read.
Safe-back :
    (n : ℕ) (code : Code)
    → (d : Decoder) → d.offset ≤ length d.raw
    → length d.raw < 2 ^ 31
    → Moves d (record d { offset = d.offset - n })
Safe-back n code d h b = Moves-at (d.offset - n) d (omega arith)

Sees-rest :
    (d : Decoder) → d.offset ≤ length d.raw → length d.raw < 2 ^ 31 → Sees d (drop d.offset d.raw)
Sees-rest d h b = record {
  unread = refl;
  fits = omega (arith, length-drop d.offset d.raw);
  small = b;
}

module _ (bad : ℕ → ℕ → ℕ → Bool) (code : Code) where
  Safe-round :
      (left i shift ux b : ℕ) (d : Decoder)
      → ((ux' : ℕ) → Safe (varint_loop bad code left (i + 1) (shift + 7) ux'))
      → d.offset < length d.raw
      → length d.raw < 2 ^ 31
      → Kept d (round bad code left i shift ux b d)
  unfolding round
  Safe-round left i shift ux b d more h small =
      let ux' : ℕ = bit_or ux (bit_and b 0x7f * 2 ^ shift % 2 ^ 64) in
      Kept-trans ((round bad code left i shift ux b) d) (Moves-at (d.offset + 1) d (omega arith)) (
        Safe-if (bit_and b 0x80 == 0) _ _
          (Safe-if (bad i ux' b) _ _ (Safe-back (i + 1) code) (Safe-pure ux')) (more ux')
          (advance 1 d) (omega arith) small)

  Safe-byte :
      (left i shift ux : ℕ) (d : Decoder) (bs : List ℕ)
      → ((ux' : ℕ) → Safe (varint_loop bad code left (i + 1) (shift + 7) ux'))
      → Sees d bs
      → d.offset < length d.raw
      → Kept d (varint_loop bad code (suc left) i shift ux d)
  Safe-byte left i shift ux d [] more v h = absurd (omega (arith, v.fits))
  Safe-byte left i shift ux d (b ∷ bs) more v h =
      Kept-of_eq d (varint_loop-round bad code left i shift ux b d bs v)
        (Safe-round left i shift ux b d more h v.small)

  ended :
      (left i shift ux : ℕ) (d : Decoder)
      → length d.raw ≤ d.offset
      → varint_loop bad code (suc left) i shift ux d ≡ err insufficient_data (to_end d)
  unfolding varint_loop
  ended left i shift ux d h = rw (le→leb (length d.raw) d.offset h, varint_loop) refl

  -- The loop returns after ten rounds at most.
  pub Safe-varint_loop : (left i shift ux : ℕ) → Safe (varint_loop bad code left i shift ux)
  unfolding varint_loop
  Safe-varint_loop zero i shift ux d h b = Safe-back 10 code d h b
  Safe-varint_loop (suc left) i shift ux d h b = elim (dec_lt d.offset (length d.raw)) [
    | yes more ↦
        Safe-byte left i shift ux d (drop d.offset d.raw)
          (λ ux'. Safe-varint_loop left (i + 1) (shift + 7) ux') (Sees-rest d h b) more
    | no over ↦
        Kept-of_eq d (ended left i shift ux d (omega arith))
          (Moves-at (length d.raw) d (omega arith))
  ]

pub Safe-get_uvariant : Safe get_uvariant
unfolding get_uvariant
Safe-get_uvariant = Safe-varint_loop uvariant_bad uvariant_overflow 10 0 0 0

pub Safe-get_variant : Safe get_variant
unfolding get_variant
Safe-get_variant =
    Safe-bind (varint_loop variant_bad variant_overflow 10 0 0 0) (λ ux. pure (zigzag_decode ux))
      (Safe-varint_loop variant_bad variant_overflow 10 0 0 0) (λ ux. Safe-pure (zigzag_decode ux))

pub Safe-by_version : {A : Type 0} (p q : Get A) → Safe p → Safe q → Safe (by_version p q)
Safe-by_version p q s t d h b = elim (Bool-cases (d.flexible == 0)) [
  | inl e ↦ rw e (s d h b)
  | inr e ↦ rw e (t d h b)
]

enough :
    (n : ℤ) (d : Decoder)
    → length d.raw < 2 ^ 31
    → d.offset ≤ length d.raw
    → ltb_ℤ (remaining d) n ≡ false
    → d.offset + pos_part n ≤ length d.raw
enough n d b h e = ground (arith, remaining-small d b)

Safe-slice : (n : ℤ) (d : Decoder) → d.offset + pos_part n ≤ length d.raw → Kept d (slice n d)
Safe-slice n d h = Moves-at (d.offset + pos_part n) d h

pub Safe-get_raw_bytes : (n : ℤ) → Safe (get_raw_bytes n)
unfolding get_raw_bytes
Safe-get_raw_bytes n d h b = elim (Bool-cases (ltb_ℤ n (pos 0))) [
  | inl e ↦ rw e (Moves-at d.offset d h)
  | inr e ↦ elim (Bool-cases (ltb_ℤ (remaining d) n)) [
    | inl e' ↦ rw (e, e') (Moves-at (length d.raw) d (omega arith))
    | inr e' ↦ rw (e, e') (Safe-slice n d (enough n d b h e'))
  ]
]

-- A length that is read where -1 stands for null.
unless_minus_one : (z n : ℤ) → Get (List ℕ)
unless_minus_one z n = if eq_ℤ z minus_one then pure [] else get_raw_bytes n

Safe-unless_minus_one : (z n : ℤ) → Safe (unless_minus_one z n)
unfolding unless_minus_one
Safe-unless_minus_one z n =
    Safe-if (eq_ℤ z minus_one) (pure []) (get_raw_bytes n) (Safe-pure {A = List ℕ} [])
      (Safe-get_raw_bytes n)

pub Safe-get_bytes : Safe get_bytes
unfolding get_bytes unless_minus_one
Safe-get_bytes =
    Safe-by_version fixed_bytes flexible_bytes
      (Safe-bind get_int32 (λ z. unless_minus_one z z) Safe-get_int32
        (λ z. Safe-unless_minus_one z z))
      (Safe-bind get_uvariant (λ n. get_raw_bytes (int_pred n)) Safe-get_uvariant
        (λ n. Safe-get_raw_bytes (int_pred n)))

pub Safe-get_variant_bytes : Safe get_variant_bytes
unfolding get_variant_bytes unless_minus_one
Safe-get_variant_bytes =
    Safe-bind get_variant (λ z. unless_minus_one z (int_of_long z)) Safe-get_variant
      (λ z. Safe-unless_minus_one z (int_of_long z))

Kept-unless_null :
    (n : ℤ) (d : Decoder)
    → d.offset ≤ length d.raw
    → d.offset + pos_part n ≤ length d.raw
    → Kept d (unless_null n d)
Kept-unless_null n d h fits = elim (Bool-cases (eq_ℤ n minus_one)) [
  | inl e ↦ rw e (Moves-at d.offset d h)
  | inr e ↦ rw e (Safe-slice n d fits)
]

-- A length that passed the checks, and the bytes that it counts.
Safe-checked : (n : ℤ) → Safe (check_string_length n >>= unless_null)
unfolding check_string_length
Safe-checked n d h b = elim (Bool-cases (ltb_ℤ n minus_one)) [
  | inl e ↦ rw (e, and_then) (Moves-at d.offset d h)
  | inr e ↦ elim (Bool-cases (ltb_ℤ (remaining d) n)) [
    | inl e' ↦ rw (e, e', and_then) (Moves-at (length d.raw) d (omega arith))
    | inr e' ↦ rw (e, e', and_then) (Kept-unless_null n d h (enough n d b h e'))
  ]
]

Kept-length :
    {A : Type 0} (m : Get A) (g : A → ℤ)
    → Safe m
    → Safe ((do x ← m; check_string_length (g x)) >>= unless_null)
Kept-length m g s d h b =
    Kept-of_eq d (and_then_assoc (m d) (λ x. check_string_length (g x)) unless_null) (
      Kept-and_then d (m d) (λ x. check_string_length (g x) >>= unless_null) b (s d h b)
        (λ x. Safe-checked (g x)))

pub Safe-get_string : Safe get_string
unfolding get_string get_string_length
Safe-get_string d h b = elim (Bool-cases (d.flexible == 0)) [
  | inl e ↦ rw e (Kept-length get_int16 (λ n. n) Safe-get_int16 d h b)
  | inr e ↦ rw e (
      Kept-length get_uvariant (λ n. if n == 0 then minus_one else int_pred n) Safe-get_uvariant d h
        b)
]

pub Safe-get_nullable_string : Safe get_nullable_string
unfolding get_nullable_string get_string
Safe-get_nullable_string = Safe-get_string
