-- ===== src/Wire/Encoder/Fields/Framed.antt =====
-- A LengthField that the encoder pushes in front of a body and pops behind it.
use coev.Base.{ℕ, zero, suc, ◌+◌, ◌/◌, ◌^◌, ◌≤◌, ◌<◌, ◌≡◌, refl, sym, ap, ◌∙◌, arith}
use coev.Base.{List, [], ◌∷◌, ◌++◌, length, leb}
use coev.Base.{true, le→leb, lt→leb_false}
use coev.Base.Int.{pos}
use coev.Base.Bits.{low_byte}
use mathlib.Core.Path.{subst}
use native.Mathlib.Decide.{dec_le}
use coev.Wire.Outcome.{ok, fault, and_then, pure, ◌>>=◌, ◌>>◌}
use coev.Wire.Format.{big_endian}
use coev.Wire.Field.{PushField, length_field, save_offset, reserve_length}
use coev.Wire.Encoder.{Encoder, Put, Kind, prep, real, emit, overlay, splice}
use coev.Wire.Encoder.View.{suc-add, Writes, Counts, Stores, length-splice}
use coev.Wire.Encoder.Fields.{reserve, push, run, adjust, pop, length_bytes, length_value}

-- A body behind its length: `pe.push(length_field); …; pe.pop()`.
abbrev pub framed : Put → Put
framed put = push (length_field 0 (pos 0)) >> put >> (pop >>= λ _. pure tt)

-- The encoder behind the four bytes that push reserves.
abbrev reserved : Encoder → Encoder
reserved e = record e { count = e.count + 4; stack = length_field e.count (pos 0) ∷ e.stack }

push_prep : (e : Encoder) → e.kind ≡ prep → push (length_field 0 (pos 0)) e ≡ ok tt (reserved e)
unfolding push reserve reserve_length save_offset
push_prep e k = ground arith

push_real :
    (e : Encoder)
    → e.kind ≡ real
    → e.count + 4 ≤ length e.raw
    → push (length_field 0 (pos 0)) e ≡ ok tt (reserved e)
unfolding push reserve reserve_length save_offset
push_real e k h = ground arith

push_full :
    (e : Encoder)
    → e.kind ≡ real
    → length e.raw < e.count + 4
    → push (length_field 0 (pos 0)) e ≡ fault
unfolding push reserve reserve_length save_offset
push_full e k h = ground arith

-- Bytes stored in front of others that are there already.
overlay-splice :
    (xs ys old : List ℕ) → overlay (splice (length xs) ys old) xs ≡ overlay old (xs ++ ys)
overlay-splice [] ys old = refl
overlay-splice (x ∷ xs) ys [] = refl
overlay-splice (x ∷ xs) ys (o ∷ old) = ap (◌∷◌ x) (overlay-splice xs ys old)

splice-splice :
    (i : ℕ) (xs ys old : List ℕ)
    → splice i xs (splice (i + length xs) ys old) ≡ splice i (xs ++ ys) old
splice-splice zero xs ys old =
    let e : 0 + length xs ≡ length xs = omega arith in rw e (overlay-splice xs ys old)
splice-splice (suc i) xs ys [] = rw suc-add refl
splice-splice (suc i) xs ys (o ∷ old) = rw suc-add (ap (◌∷◌ o) (splice-splice i xs ys old))

value_written : (start n : ℕ) → n < 2 ^ 32 → length_value (start + 4 + n) start ≡ n
value_written start n h = ground arith

length_written :
    (start n : ℕ) → n < 2 ^ 32 → length_bytes (length_value (start + 4 + n) start) ≡ big_endian 4 n
length_written start n h = rw (value_written start n h) (
    ap4 (low_byte (n / 2 ^ 24)) (low_byte (n / 2 ^ 16)) (low_byte (n / 2 ^ 8))
      (low_byte n ∙ omega arith))
  where
    ap4 :
        {a a' b b' c c' d d' : ℕ}
        → a ≡ a'
        → b ≡ b'
        → c ≡ c'
        → d ≡ d'
        → (a ∷ b ∷ c ∷ d ∷ []) ≡ (a' ∷ b' ∷ c' ∷ d' ∷ [])
    ap4 p q r s = simp (p, q, r, s)

-- The encoders between push and pop, and behind pop.
module _ (version : ℕ) (fs : List PushField) (start n : ℕ) (raw : List ℕ) where
  abbrev before : Kind → Encoder
  before kind = record {
    kind = kind;
    flexible = version;
    count = start + 4 + n;
    raw = raw;
    stack = length_field start (pos 0) ∷ fs;
  }

  abbrev behind : Kind → List ℕ → Encoder
  behind kind bytes = record {
    kind = kind;
    flexible = version;
    count = start + 4 + n;
    raw = bytes;
    stack = fs;
  }

  pop_prep :
      (kind : Kind) → kind ≡ prep → (pop >>= λ _. pure tt) (before kind) ≡ ok tt (behind kind raw)
  unfolding pop adjust
  pop_prep kind k =
      subst (λ x. (pop >>= λ _. pure tt) (before x) ≡ ok tt (behind x raw)) (sym k) refl

  pop_real :
      (kind : Kind)
      → kind ≡ real
      → n < 2 ^ 32
      → start + 4 ≤ length raw
      → (pop >>= λ _. pure tt) (before kind)
        ≡ ok tt (behind kind (splice start (big_endian 4 n) raw))
  unfolding pop run
  pop_real kind k h fits =
      let stored : leb (start + 4) (length raw) ≡ true = le→leb (start + 4) (length raw) fits in
      subst
        (λ x.
          (pop >>= λ _. pure tt) (before x) ≡ ok tt (behind x (splice start (big_endian 4 n) raw)))
        (sym k) (rw (length_written start n h, stored) refl)

abbrev close : Put
close = pop >>= λ _. pure tt

framed-Counts :
    (version : ℕ) (put : Put) (bs : List ℕ)
    → Counts version put bs
    → Counts version (framed put) (big_endian 4 (length bs) ++ bs)
framed-Counts version put bs w e k f =
    ap (λ r. and_then (and_then r (λ _. put)) (λ _. close)) (push_prep e k)
    ∙ ap (λ r. and_then r (λ _. close)) (w (reserved e) k f)
    ∙ pop_prep e.flexible e.stack e.count (length bs) e.raw e.kind k
    ∙ ap (λ (m : ℕ). ok tt (record e { count = m })) (omega arith)

emit_fits :
    (bs : List ℕ) (e : Encoder)
    → e.count + length bs ≤ length e.raw
    → emit bs e ≡ ok tt (record e { count = e.count + length bs; raw = splice e.count bs e.raw })
unfolding emit
emit_fits bs e h = rw (le→leb (e.count + length bs) (length e.raw) h) refl

emit_over : (bs : List ℕ) (e : Encoder) → length e.raw < e.count + length bs → emit bs e ≡ fault
unfolding emit
emit_over bs e h = rw (lt→leb_false (e.count + length bs) (length e.raw) h) refl

-- The bytes of the body, and then those of its length, where both fit the buffer.
closed :
    (bs : List ℕ) (e : Encoder)
    → e.kind ≡ real
    → length bs < 2 ^ 32
    → e.count + 4 + length bs ≤ length e.raw
    → and_then (emit bs (reserved e)) (λ _. close) ≡ emit (big_endian 4 (length bs) ++ bs) e
closed bs e k h fits =
    ap (λ r. and_then r (λ _. close)) (emit_fits bs (reserved e) fits)
    ∙ pop_real e.flexible e.stack e.count (length bs) (splice (e.count + 4) bs e.raw) e.kind k h
        (omega (arith, length-splice (e.count + 4) bs e.raw))
    ∙ ap (λ raw. ok tt (record e { count = e.count + 4 + length bs; raw = raw }))
        (splice-splice e.count (big_endian 4 (length bs)) bs e.raw)
    ∙ ap
        (λ (m : ℕ).
          ok tt
            (record e { count = m; raw = splice e.count (big_endian 4 (length bs) ++ bs) e.raw }))
        (omega arith)
    ∙ sym (emit_fits (big_endian 4 (length bs) ++ bs) e (omega arith))

framed-Stores :
    (version : ℕ) (put : Put) (bs : List ℕ)
    → length bs < 2 ^ 32
    → Stores version put bs
    → Stores version (framed put) (big_endian 4 (length bs) ++ bs)
framed-Stores version put bs h w e k f fits =
    elim (dec_le (e.count + 4) (length e.raw))
      as (λ _. framed put e ≡ emit (big_endian 4 (length bs) ++ bs) e) [
        | yes room ↦
            ap (λ r. and_then (and_then r (λ _. put)) (λ _. close)) (push_real e k room)
            ∙ ap (λ r. and_then r (λ _. close)) (w (reserved e) k f room)
            ∙ stored room
        | no full ↦
            ap (λ r. and_then (and_then r (λ _. put)) (λ _. close)) (push_full e k (omega arith))
            ∙ sym (emit_over (big_endian 4 (length bs) ++ bs) e (omega arith))
      ]
  where
    stored :
        e.count + 4 ≤ length e.raw
        → and_then (emit bs (reserved e)) (λ _. close) ≡ emit (big_endian 4 (length bs) ++ bs) e
    stored room =
        elim (dec_le (e.count + 4 + length bs) (length e.raw))
          as (λ _.
            and_then (emit bs (reserved e)) (λ _. close)
            ≡ emit (big_endian 4 (length bs) ++ bs) e) [
              | yes fits' ↦ closed bs e k h fits'
              | no full ↦
                  ap (λ r. and_then r (λ _. close)) (emit_over bs (reserved e) (omega arith))
                  ∙ sym (emit_over (big_endian 4 (length bs) ++ bs) e (omega arith))
            ]

pub Writes-framed :
    (version : ℕ) (put : Put) (bs : List ℕ)
    → length bs < 2 ^ 32
    → Writes version put bs
    → Writes version (framed put) (big_endian 4 (length bs) ++ bs)
Writes-framed version put bs h w = record {
  counts = framed-Counts version put bs w.counts;
  stores = framed-Stores version put bs h w.stores;
}
