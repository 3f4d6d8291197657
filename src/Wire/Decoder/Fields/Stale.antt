-- ===== src/Wire/Decoder/Fields/Stale.antt =====
-- A LengthField that the decoder pushes and pops.
use coev.Base.{ℕ, ◌+◌, ◌≤◌, ◌≡◌, refl, sym, ap, ◌∙◌, arith, if◌then◌else◌}
use coev.Base.{List, ◌∷◌, ◌++◌, length, drop, length-append}
use coev.Base.Int.{ℤ, pos, eq_ℤ, sub_ℕ}
use coev.Wire.Outcome.{ok, err, and_then, ◌>>=◌, ◌>>◌, packet_decoding_error}
use coev.Wire.Field.{length_field}
use coev.Wire.Decoder.{Decoder, advance, skip}
use coev.Wire.Decoder.View.{Sees, Sees-advance, need-Sees}
use coev.Wire.Decoder.Strings.{get_raw_bytes}
use coev.Wire.Decoder.Strings.ReadBack.{Reads-get_raw_bytes}
use coev.Wire.Decoder.Fields.{push, push_stack, check, pop}

-- The decoder behind the four bytes of the length, with the field on its stack.
abbrev pushed : ℤ → Decoder → Decoder
pushed len d = record d { offset = d.offset + 4; stack = length_field d.offset len ∷ d.stack }

push-Sees :
    (start : ℕ) (len : ℤ) (d : Decoder) (bs : List ℕ)
    → Sees d bs
    → 4 ≤ length bs
    → push (length_field start len) d ≡ ok tt (pushed len d)
unfolding push push_stack
push-Sees start len d bs v h =
    need-Sees 4 (do push_stack (length_field d.offset len); skip 4) d bs v h

popped :
    (len : ℤ) (n : ℕ) (d : Decoder)
    → pop (advance n (pushed len d)) ≡ (
        if eq_ℤ (pos n) len
        then ok (length_field d.offset len) (advance (4 + n) d)
        else err packet_decoding_error (advance (4 + n) d))
unfolding pop check
popped len n d =
    let size : sub_ℕ (d.offset + 4 + n) (d.offset + 4) ≡ pos n = ground arith in
    let here : d.offset + 4 + n ≡ d.offset + (4 + n) = omega arith in rw (size, here) refl

-- In a buffer of fewer than 2 ^ 31 bytes, between push and pop of a LengthField, a body of n bytes passes the check exactly if n is the
-- length that the field held before; the four bytes in front of the body are never looked at.
pub length_field_stale :
    (start : ℕ) (len : ℤ) (head body rest : List ℕ) (d : Decoder)
    → length head ≡ 4
    → Sees d (head ++ (body ++ rest))
    → (push (length_field start len) >> (get_raw_bytes (pos (length body)) >>= λ _. pop)) d ≡ (
        if eq_ℤ (pos (length body)) len
        then ok (length_field d.offset len) (advance (4 + length body) d)
        else err packet_decoding_error (advance (4 + length body) d))
length_field_stale start len head body rest d four v =
    ap (λ r. and_then r (λ _. get_raw_bytes (pos (length body)) >>= λ _. pop))
      (push-Sees start len d (head ++ (body ++ rest)) v
        (omega (arith, length-append head (body ++ rest))))
    ∙ ap (λ r. and_then r (λ _. pop))
        (Reads-get_raw_bytes d.flexible body (pushed len d) rest refl behind)
    ∙ popped len (length body) d
  where
    there : Sees (advance (length head) d) (body ++ rest)
    there = Sees-advance d head (body ++ rest) v

    behind : Sees (pushed len d) (body ++ rest)
    behind = record {
      unread = ap (λ (n : ℕ). drop (d.offset + n) d.raw) (sym four) ∙ there.unread;
      fits = omega (arith, there.fits, four);
      small = v.small;
    }
