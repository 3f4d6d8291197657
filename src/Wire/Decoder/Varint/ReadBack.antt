-- ===== src/Wire/Decoder/Varint/ReadBack.antt =====
-- The loop reads the number whose groups come next, or rejects it if it needs the tenth group.
use coev.Base.{ℕ, zero, suc, ◌+◌, ◌-◌, ◌*◌, ◌/◌, ◌%◌, ◌^◌, ◌≤◌, ◌<◌, ◌≡◌, refl, ap, ◌∙◌, arith}
use coev.Base.{if◌then◌else◌, Bool, true, false, lt→ltb, le→ltb_false}
use coev.Base.{List, [], ◌∷◌, ◌++◌, length}
use native.Mathlib.Nat.{div-add-mod, mul-le-mul_right, pow-suc, one-le-pow}
use native.Mathlib.Decide.{dec_lt}
use native.Mathlib.Numerals.{towards_suc}
use coev.Wire.Outcome.{Code, ok, err, pure}
use coev.Wire.Format.{groups}
use coev.Wire.Decoder.{Decoder, advance}
use coev.Wire.Decoder.View.{Sees, Sees-advance, advance-advance}
use coev.Wire.Decoder.Varint.{varint_loop, rewind}
use coev.Wire.Decoder.Varint.Steps.{last_byte, inner_byte}

pow_seven : (s : ℕ) → 2 ^ (s + 7) ≡ 128 * 2 ^ s
pow_seven s = simp towards_suc (omega arith)

-- A number above the digit `shift` is its lowest group and the rest.
apart : (w s : ℕ) → w % 128 * 2 ^ s + w / 128 * 2 ^ (s + 7) ≡ w * 2 ^ s
apart w s = omega (
  arith,
  ap (λ (t : ℕ). t * 2 ^ s) (div-add-mod w 128),
  ap (λ (t : ℕ). w / 128 * t) (pow_seven s),
)

-- The digits read so far stay below the next position.
below : (ux w s : ℕ) → ux < 2 ^ s → ux + w % 128 * 2 ^ s < 2 ^ (s + 7)
below ux w s h =
    let g : w % 128 * 2 ^ s ≤ 127 * 2 ^ s = grind (arith, mul-le-mul_right) in
    omega (arith, pow_seven s, g)

groups_last : (k w : ℕ) → w < 128 → groups k w ≡ w ∷ []
unfolding groups
groups_last zero w h = refl
groups_last (suc k) w h = rw (lt→ltb w 128 h) refl

groups_more : (k w : ℕ) → 128 ≤ w → groups (suc k) w ≡ (w % 128 + 128) ∷ groups k (w / 128)
unfolding groups
groups_more k w h = rw (le→ltb_false w 128 h) refl

-- What is left to read after the lowest group, with the digits that this group adds.
left_fits :
    (ux w s : ℕ)
    → ux + w * 2 ^ s < 2 ^ 64
    → (ux + w % 128 * 2 ^ s < 2 ^ 64)
      × (ux + w % 128 * 2 ^ s + w / 128 * 2 ^ (s + 7) ≡ ux + w * 2 ^ s)
left_fits ux w s fits = omega (arith, apart w s)

module _ (bad : ℕ → ℕ → ℕ → Bool) (code : Code) where
  -- The test lets every byte before the tenth pass.
  abbrev pub Passes : Type 0
  Passes = (i ux b : ℕ) → i < 9 → bad i ux b ≡ false

  read_last :
      (k left i shift ux w : ℕ) (d : Decoder) (rest : List ℕ)
      → w < 128
      → ux < 2 ^ shift
      → ux + w * 2 ^ shift < 2 ^ 64
      → Sees d (groups k w ++ rest)
      → varint_loop bad code (suc left) i shift ux d
        ≡ (if bad i (ux + w * 2 ^ shift) w then rewind (i + 1) code else pure (ux + w * 2 ^ shift))
            (advance 1 d)
  read_last k left i shift ux w d rest hw low fits v =
      last_byte bad code left i shift ux w d rest (rw (groups_last k w hw) at v) hw low fits

  read_more :
      (k left i shift ux w : ℕ) (d : Decoder) (rest : List ℕ)
      → 128 ≤ w
      → ux < 2 ^ shift
      → ux + w * 2 ^ shift < 2 ^ 64
      → Sees d (groups (suc k) w ++ rest)
      → (varint_loop bad code (suc left) i shift ux d
          ≡ varint_loop bad code left (i + 1) (shift + 7) (ux + w % 128 * 2 ^ shift) (advance 1 d))
        × Sees (advance 1 d) (groups k (w / 128) ++ rest)
  read_more k left i shift ux w d rest hw low fits v = (
    inner_byte bad code left i shift ux (w % 128) d (groups k (w / 128) ++ rest) v' (omega arith)
        low (left_fits ux w shift fits).0,
    Sees-advance d ((w % 128 + 128) ∷ []) (groups k (w / 128) ++ rest) v',
  )
    where
      v' : Sees d ((w % 128 + 128) ∷ (groups k (w / 128) ++ rest))
      v' = rw (groups_more k w hw) at v

  pub read_groups :
      Passes
      → (k left i shift ux w : ℕ) (d : Decoder) (rest : List ℕ) → i + k < 9
      → k < left
      → w < 128 ^ suc k
      → ux < 2 ^ shift
      → ux + w * 2 ^ shift < 2 ^ 64
      → Sees d (groups k w ++ rest)
      → varint_loop bad code left i shift ux d
        ≡ ok (ux + w * 2 ^ shift) (advance (length (groups k w)) d)
  read_groups q k zero i shift ux w d rest hi hl hw low fits v = absurd (omega arith)
  read_groups q zero (suc left) i shift ux w d rest hi hl hw low fits v =
      read_last zero left i shift ux w d rest (omega arith) low fits v
      ∙ rw (q i (ux + w * 2 ^ shift) w (omega arith), groups_last zero w (omega arith)) refl
  read_groups q (suc k) (suc left) i shift ux w d rest hi hl hw low fits v = elim (dec_lt w 128) [
    | yes small ↦
        read_last (suc k) left i shift ux w d rest small low fits v
        ∙ rw (q i (ux + w * 2 ^ shift) w (omega arith), groups_last (suc k) w small) refl
    | no large ↦
        let (step, v') = read_more k left i shift ux w d rest (omega arith) low fits v in
        let (fits', same) = left_fits ux w shift fits in
        step
        ∙ read_groups q k left (i + 1) (shift + 7) (ux + w % 128 * 2 ^ shift) (w / 128)
            (advance 1 d) rest (omega arith) (omega arith) (omega arith) (below ux w shift low)
            (omega (arith, same)) v'
        ∙ rw (same, groups_more k w (omega arith))
            (ap (ok (ux + w * 2 ^ shift)) (
              advance-advance 1 (length (groups k (w / 128))) d
              ∙ ap (λ (n : ℕ). advance n d) (omega arith)))
  ]

  -- The test stops every number that has its digit 63 set.
  abbrev pub Stops : Type 0
  Stops = (ux b : ℕ) → 2 ^ 63 ≤ ux → ux < 2 ^ 64 → bad 9 ux b ≡ true

  pub reject_groups :
      Stops
      → (k i shift ux w : ℕ) (d : Decoder) (rest : List ℕ) → i + k ≡ 9
      → shift ≡ 7 * i
      → 128 ^ k ≤ w
      → ux < 2 ^ shift
      → ux + w * 2 ^ shift < 2 ^ 64
      → 2 ^ 63 ≤ ux + w * 2 ^ shift
      → Sees d (groups k w ++ rest)
      → varint_loop bad code (suc k) i shift ux d ≡ err code (record d { offset = d.offset - i })
  reject_groups q zero i shift ux w d rest hi hs hw low fits big v =
      let nine : i ≡ 9 = omega arith in
      let top : shift ≡ 63 = omega arith in
      let one : w < 128 = omega (arith, rw top at fits) in
      read_last zero zero i shift ux w d rest one low fits v
      ∙ rw (nine, q (ux + w * 2 ^ shift) w big fits)
          (ap (λ (n : ℕ). err code (record d { offset = n })) (omega arith))
  reject_groups q (suc k) i shift ux w d rest hi hs hw low fits big v =
      let large : 128 ≤ w = omega (arith, pow-suc 128 k, one-le-pow k 128) in
      let (step, v') = read_more k (suc k) i shift ux w d rest large low fits v in
      let (fits', same) = left_fits ux w shift fits in
      step
      ∙ reject_groups q k (i + 1) (shift + 7) (ux + w % 128 * 2 ^ shift) (w / 128) (advance 1 d)
          rest (omega arith) (omega arith) (omega (arith, pow-suc 128 k)) (below ux w shift low)
          (omega (arith, same)) (omega (arith, same)) v'
      ∙ ap (λ (n : ℕ). err code (record d { offset = n })) (omega arith)
