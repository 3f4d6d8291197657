-- ===== src/Wire/Decoder/Varint/Steps.antt =====
-- One round of the loop over base-128 groups, on a last byte and on one that more follow.
use coev.Base.{ℕ, suc, ◌+◌, ◌*◌, ◌%◌, ◌^◌, ◌<◌, ◌≡◌, refl, ◌∙◌, arith}
use coev.Base.{bit_and, bit_or, leb, ◌==◌, if◌then◌else◌, Bool, true, false, lt→leb_false}
use coev.Base.{List, ◌∷◌, length}
use coev.Base.Bits.{bit_or_add_high, low_group, top_bit}
use native.Mathlib.Nat.{mod-eq_of_lt}
use coev.Wire.Outcome.{Code, pure, and_then}
use coev.Wire.Decoder.{Decoder, Get, advance}
use coev.Wire.Decoder.View.{Sees, byte_at-Sees}
use coev.Wire.Decoder.Varint.{varint_loop, rewind}

-- `ux | (b & 0x7f) << shift` puts the group g above the digits that ux has.
joined :
    (ux b g shift : ℕ)
    → b % 128 ≡ g
    → ux < 2 ^ shift
    → ux + g * 2 ^ shift < 2 ^ 64
    → bit_or ux (bit_and b 0x7f * 2 ^ shift % 2 ^ 64) ≡ ux + g * 2 ^ shift
joined ux b g shift e low fits =
    let group : bit_and b 0x7f ≡ g = low_group b ∙ e in
    let small : g * 2 ^ shift % 2 ^ 64 ≡ g * 2 ^ shift = mod-eq_of_lt (omega arith) in
    rw (group, small) (bit_or_add_high shift ux g low)

ends : (b : ℕ) → b < 128 → (bit_and b 0x80 == 0) ≡ true
ends b h = ground (arith, top_bit b)

goes_on : (g : ℕ) → g < 128 → (bit_and (g + 128) 0x80 == 0) ≡ false
goes_on g h = ground (arith, top_bit (g + 128))

module _ (bad : ℕ → ℕ → ℕ → Bool) (code : Code) (left i shift ux b : ℕ) where
  -- The round once its byte is known.
  unfoldable pub round : Get ℕ
  round d =
      let ux' = bit_or ux (bit_and b 0x7f * 2 ^ shift % 2 ^ 64) in
      let more = varint_loop bad code left (i + 1) (shift + 7) ux' in
      let last = if bad i ux' b then rewind (i + 1) code else pure ux' in
      (if bit_and b 0x80 == 0 then last else more) (advance 1 d)

  pub varint_loop-round :
      (d : Decoder) (rest : List ℕ)
      → Sees d (b ∷ rest)
      → varint_loop bad code (suc left) i shift ux d ≡ round d
  unfolding varint_loop round
  varint_loop-round d rest v =
      let here : leb (length d.raw) d.offset ≡ false = lt→leb_false _ _ (omega (arith, v.fits)) in
      rw (here, varint_loop) (rw (byte_at-Sees 0 b d _ v refl, and_then) refl)

-- A last byte ends the loop, if the test on it lets it pass.
pub last_byte :
    (bad : ℕ → ℕ → ℕ → Bool) (code : Code) (left i shift ux b : ℕ) (d : Decoder) (rest : List ℕ)
    → Sees d (b ∷ rest)
    → b < 128
    → ux < 2 ^ shift
    → ux + b * 2 ^ shift < 2 ^ 64
    → varint_loop bad code (suc left) i shift ux d
      ≡ (if bad i (ux + b * 2 ^ shift) b then rewind (i + 1) code else pure (ux + b * 2 ^ shift))
          (advance 1 d)
unfolding round
last_byte bad code left i shift ux b d rest v small low fits =
    varint_loop-round bad code left i shift ux b d rest v
    ∙ rw (joined ux b b shift (omega arith) low fits, ends b small) refl

-- A group g that more follow goes above the digits read so far.
pub inner_byte :
    (bad : ℕ → ℕ → ℕ → Bool) (code : Code) (left i shift ux g : ℕ) (d : Decoder) (rest : List ℕ)
    → Sees d ((g + 128) ∷ rest)
    → g < 128
    → ux < 2 ^ shift
    → ux + g * 2 ^ shift < 2 ^ 64
    → varint_loop bad code (suc left) i shift ux d
      ≡ varint_loop bad code left (i + 1) (shift + 7) (ux + g * 2 ^ shift) (advance 1 d)
unfolding round
inner_byte bad code left i shift ux g d rest v small low fits =
    varint_loop-round bad code left i shift ux (g + 128) d rest v
    ∙ rw (joined ux (g + 128) g shift (omega arith) low fits, goes_on g small) refl
