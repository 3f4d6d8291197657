-- ===== src/Wire/Decoder/View.antt =====
-- A decoder seen as the bytes that it has not read yet, and the reads that succeed on such a view:
-- the rules by which a message is decoded part by part.
use coev.Base.{ℕ, ◌^◌, ◌+◌, ◌≤◌, ◌<◌, ◌≡◌, sym, ap, ◌∙◌, arith}
use coev.Base.{List, [], ◌++◌, append_assoc, none, some}
use coev.Base.{length, drop, get_elem?, length-append, get_elem?-drop, drop-drop}
use coev.Base.{drop-length_append}
use coev.Base.Int.{pos, sub_ℕ, int_of_size}
use coev.Wire.Outcome.{ok, err, fault, pure, and_then, ◌>>=◌, insufficient_data}
use coev.Wire.Decoder.{Decoder, Get, advance, byte_at, need, minus, remaining, to_end}

-- The bytes from m_offset to the end of the buffer, whose size is an int.
pub record Sees (d : Decoder) (bs : List ℕ) : Type 0 where
  pub unread : drop d.offset d.raw ≡ bs
  pub fits : d.offset + length bs ≡ length d.raw
  pub small : length d.raw < 2 ^ 31

-- On every decoder of this version whose unread bytes begin with bs, the read returns a and stops
-- just behind them.
abbrev pub Reads : {A : Type 0} → ℕ → Get A → List ℕ → A → Type 0
Reads version get bs a =
    (d : Decoder) (rest : List ℕ)
    → d.flexible ≡ version
    → Sees d (bs ++ rest)
    → get d ≡ ok a (advance (length bs) d)

-- Below 2 ^ 31 a size is the int that it is cast to.
pub int_of_size-small : (n : ℕ) → n < 2 ^ 31 → int_of_size n ≡ pos n
int_of_size-small n h = ground arith

pub remaining-Sees : {d : Decoder} {bs : List ℕ} → Sees d bs → remaining d ≡ pos (length bs)
remaining-Sees {d} {bs} v =
    ap (λ z. minus z d.offset) (int_of_size-small (length d.raw) v.small) ∙ rest
  where
    rest : sub_ℕ (length d.raw) d.offset ≡ pos (length bs)
    rest = ground (arith, v.fits)

pub byte_at-Sees :
    (i b : ℕ) (d : Decoder) (bs : List ℕ)
    → Sees d bs
    → get_elem? bs i ≡ some b
    → byte_at i d ≡ ok b d
byte_at-Sees i b d bs v e =
    let here : get_elem? d.raw (d.offset + i) ≡ some b =
      get_elem?-drop d.offset i d.raw ∙ ap (λ l. get_elem? l i) v.unread ∙ e in
    ap (λ o. elim o [ none ↦ fault | some c ↦ ok c d ]) here

pub need-Sees :
    {A : Type 0} (n : ℕ) (k : Get A) (d : Decoder) (bs : List ℕ)
    → Sees d bs
    → n ≤ length bs
    → need (pos n) k d ≡ k d
need-Sees n k d bs v h = ground (arith, remaining-Sees v)

pub need_short :
    {A : Type 0} (n : ℕ) (k : Get A) (d : Decoder) (bs : List ℕ)
    → Sees d bs
    → length bs < n
    → need (pos n) k d ≡ err insufficient_data (to_end d)
need_short n k d bs v h = ground (arith, remaining-Sees v)

pub Sees-advance :
    (d : Decoder) (xs ys : List ℕ) → Sees d (xs ++ ys) → Sees (advance (length xs) d) ys
Sees-advance d xs ys v = record {
  unread =
      drop-drop d.offset (length xs) d.raw
      ∙ ap (drop (length xs)) v.unread
      ∙ drop-length_append xs ys;
  fits = omega (arith, v.fits, length-append xs ys);
  small = v.small;
}

pub advance-advance : (m n : ℕ) (d : Decoder) → advance n (advance m d) ≡ advance (m + n) d
advance-advance m n d =
    let e : d.offset + m + n ≡ d.offset + (m + n) = omega arith in
    ap (λ (o : ℕ). record d { offset = o }) e

-- A value that takes no bytes, and one read after another.
pub Reads-pure : {A : Type 0} (version : ℕ) (a : A) → Reads version (pure a) [] a
Reads-pure version a d rest f v =
    let e : d.offset ≡ d.offset + 0 = omega arith in
    ap (λ (o : ℕ). ok a (record d { offset = o })) e

pub Reads-bind :
    {A B : Type 0} (version : ℕ) (m : Get A) (k : A → Get B) (xs ys : List ℕ) (a : A) (b : B)
    → Reads version m xs a
    → Reads version (k a) ys b
    → Reads version (m >>= k) (xs ++ ys) b
Reads-bind version m k xs ys a b first second d rest f v =
    ap (λ r. and_then r k) (first d (ys ++ rest) f v')
    ∙ second (advance (length xs) d) rest f (Sees-advance d xs (ys ++ rest) v')
    ∙ ap (ok b) (
        advance-advance (length xs) (length ys) d
        ∙ ap (λ n. advance n d) (sym (length-append xs ys)))
  where
    v' : Sees d (xs ++ (ys ++ rest))
    v' = rw (← append_assoc xs ys rest) v

-- Reads that agree on every decoder of the version.
pub Reads-of_eq :
    {A : Type 0} (version : ℕ) (m m' : Get A) (bs : List ℕ) (a : A)
    → ((d : Decoder) → d.flexible ≡ version → m d ≡ m' d)
    → Reads version m' bs a
    → Reads version m bs a
Reads-of_eq version m m' bs a e r d rest f v = e d f ∙ r d rest f v
