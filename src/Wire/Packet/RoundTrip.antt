-- ===== src/Wire/Packet/RoundTrip.antt =====
-- A message whose parts agree on their bytes goes through encode and comes back from decode.
use coev.Base.{ℕ, ◌<◌, ◌^◌, zero, suc, ◌+◌, ◌≤◌, ◌≡◌, refl, sym, ap, ◌∙◌, arith}
use coev.Base.{◌==◌, if◌then◌else◌, le→ltb_false, length, append-nil}
use coev.Base.{List, [], ◌∷◌, ◌++◌, some, Bool, true, false}
use coev.Wire.Outcome.{ok}
use coev.Wire.Encoder.{Encoder, Put, Kind, prep, real, emit, overlay}
use coev.Wire.Encoder.View.{Writes}
use coev.Wire.Decoder.{Decoder, Get, advance, push_flexible}
use coev.Wire.Decoder.View.{int_of_size-small, Sees, Reads}
use coev.Wire.Packet.{
  replicate, encoder, prepare_flexible_encoder, max_request_size, write_measured, encode,
}
use coev.Wire.Packet.{
  enter_flexible, leave_flexible, leave_version, prepare_flexible_decoder, nothing_left,
  decode_version,
}

-- The count of flexible scopes inside of a message.
abbrev pub scope : Bool → ℕ
scope true = 1
scope false = 0

pub length-replicate : (n : ℕ) → length (replicate {A = ℕ} n 0) ≡ n
length-replicate zero = refl
length-replicate (suc n) = omega (arith, length-replicate n)

-- Bytes that fill the buffer replace it.
overlay_full : (bs : List ℕ) → overlay (replicate (length bs) 0) bs ≡ bs
overlay_full [] = refl
overlay_full (b ∷ bs) = ap (◌∷◌ b) (overlay_full bs)

-- The encoders of the two passes, inside of the scope of the message.
abbrev pub fresh : Kind → ℕ → ℕ → Encoder
fresh kind f n = record { kind = kind; flexible = f; count = 0; raw = replicate n 0; stack = [] }

abbrev full : ℕ → List ℕ → Encoder
full f bs = record { kind = real; flexible = f; count = length bs; raw = bs; stack = [] }

emit-full : (f : ℕ) (bs : List ℕ) → emit bs (fresh real f (length bs)) ≡ ok tt (full f bs)
unfolding emit
emit-full f bs = ground (arith, length-replicate (length bs), overlay_full bs)

measured :
    (flexible : Bool) (put : Put) (bs : List ℕ)
    → Writes (scope flexible) put bs
    → prepare_flexible_encoder flexible put (encoder prep 0)
      ≡ ok tt (record (encoder prep 0) { count = length bs })
unfolding prepare_flexible_encoder enter_flexible leave_flexible
measured true put bs w =
    ap leave_flexible (w.counts (fresh prep 1 0) refl refl)
    ∙ ap (λ (n : ℕ). ok tt (record (encoder prep 0) { count = n })) (omega arith)
measured false put bs w =
    w.counts (fresh prep 0 0) refl refl
    ∙ ap (λ (n : ℕ). ok tt (record (encoder prep 0) { count = n })) (omega arith)

written :
    (flexible : Bool) (put : Put) (bs : List ℕ)
    → Writes (scope flexible) put bs
    → prepare_flexible_encoder flexible put (encoder real (length bs)) ≡ ok tt (full 0 bs)
unfolding prepare_flexible_encoder enter_flexible leave_flexible
written true put bs w =
    ap leave_flexible (w.stores (fresh real 1 (length bs)) refl refl (omega arith) ∙ emit-full 1 bs)
written false put bs w =
    w.stores (fresh real 0 (length bs)) refl refl (omega arith) ∙ emit-full 0 bs

-- A message whose parts agree is appended to the output, whole.
pub encode-Writes :
    (flexible : Bool) (put : Put) (bs out : List ℕ)
    → Writes (scope flexible) put bs
    → length bs ≤ max_request_size
    → encode flexible put out ≡ ok tt (out ++ bs)
unfolding encode write_measured
encode-Writes flexible put bs out w h =
    rw (measured flexible put bs w, encode)
      (rw (le→ltb_false max_request_size (length bs) h)
        (rw (written flexible put bs w, write_measured) (placed out)))
  where
    placed :
        (out : List ℕ)
        → (if length out == 0 then ok tt bs else ok tt (out ++ bs)) ≡ ok tt (out ++ bs)
    placed [] = refl
    placed (b ∷ out) = ground arith

abbrev at_start : ℕ → List ℕ → Decoder
at_start f bs = record { flexible = f; offset = 0; raw = bs; stack = [] }

Sees-all : (f : ℕ) (bs : List ℕ) → length bs < 2 ^ 31 → Sees (at_start f bs) (bs ++ [])
Sees-all f bs h = record {
  unread = sym (append-nil bs);
  fits = ap (λ (l : List ℕ). 0 + length l) (append-nil bs) ∙ omega arith;
  small = h;
}

used :
    {A : Type 0} (bs : List ℕ) (a : A)
    → length bs < 2 ^ 31
    → nothing_left (ok a (advance (length bs) (at_start 0 bs))) ≡ ok (some a) tt
used bs a h = ground (arith, int_of_size-small (length bs) h)

-- What decodes to a from these bytes decodes the packet that they are.
pub decode_version-Reads :
    {A : Type 0} (flexible : Bool) (get : Get A) (b : ℕ) (bs : List ℕ) (a : A)
    → length (b ∷ bs) < 2 ^ 31
    → Reads (scope flexible) get (b ∷ bs) a
    → decode_version flexible (b ∷ bs) get ≡ ok (some a) tt
unfolding decode_version prepare_flexible_decoder push_flexible leave_version
decode_version-Reads true get b bs a h r =
    ap (λ o. nothing_left (leave_version o))
      (r (at_start 1 (b ∷ bs)) [] refl (Sees-all 1 (b ∷ bs) h))
    ∙ used (b ∷ bs) a h
decode_version-Reads false get b bs a h r =
    ap nothing_left (r (at_start 0 (b ∷ bs)) [] refl (Sees-all 0 (b ∷ bs) h)) ∙ used (b ∷ bs) a h
