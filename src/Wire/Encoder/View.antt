-- ===== src/Wire/Encoder/View.antt =====
-- What a put adds to a packet: the number of bytes that PREP counts and the bytes that REAL writes.
-- The rules by which a message is encoded part by part.
use coev.Base.{ℕ, zero, suc, ◌+◌, ◌≤◌, ◌≡◌, refl, sym, ap, ◌∙◌, arith}
use coev.Base.{List, [], ◌∷◌, ◌++◌, length, length-append}
use coev.Base.{le→leb, lt→leb_false}
use mathlib.Core.Path.{subst}
use native.Mathlib.Decide.{dec_le}
use coev.Wire.Outcome.{M, ok, pure, and_then, ◌>>◌}
use coev.Wire.Encoder.{Encoder, Put, prep, real, by_kind, by_version, tally, emit}
use coev.Wire.Encoder.{overlay, splice}

abbrev pub Counts : ℕ → Put → List ℕ → Type 0
Counts version put bs =
    (e : Encoder) → e.kind ≡ prep → e.flexible ≡ version → put e ≡ tally (length bs) e

abbrev pub Stores : ℕ → Put → List ℕ → Type 0
Stores version put bs =
    (e : Encoder)
    → e.kind ≡ real
    → e.flexible ≡ version
    → e.count ≤ length e.raw
    → put e ≡ emit bs e

-- Both kinds of encoder agree on the bytes of a put, on every encoder of this version.
pub record Writes (version : ℕ) (put : Put) (bs : List ℕ) : Type 0 where
  pub counts : Counts version put bs
  pub stores : Stores version put bs

pub by_kind_prep :
    {A : Type 0} (p r : M Encoder A) (e : Encoder) → e.kind ≡ prep → by_kind p r e ≡ p e
by_kind_prep p r e h = ground arith

pub by_kind_real :
    {A : Type 0} (p r : M Encoder A) (e : Encoder) → e.kind ≡ real → by_kind p r e ≡ r e
by_kind_real p r e h = ground arith

pub by_version_fixed :
    {A : Type 0} (p q : M Encoder A) (e : Encoder) → e.flexible ≡ 0 → by_version p q e ≡ p e
by_version_fixed p q e h = ground arith

pub by_version_flexible :
    {A : Type 0} (p q : M Encoder A) (e : Encoder) (v : ℕ)
    → e.flexible ≡ suc v
    → by_version p q e ≡ q e
by_version_flexible p q e v h = ground arith

tally-tally : (m n : ℕ) (e : Encoder) → (tally m >> tally n) e ≡ tally (m + n) e
tally-tally m n e = ap (λ (k : ℕ). ok tt (record e { count = k })) (omega arith)

length-overlay : (old bs : List ℕ) → length (overlay old bs) ≡ length old
length-overlay old [] = refl
length-overlay [] (b ∷ bs) = refl
length-overlay (o ∷ old) (b ∷ bs) = omega (arith, length-overlay old bs)

pub length-splice : (i : ℕ) (bs old : List ℕ) → length (splice i bs old) ≡ length old
length-splice zero bs old = length-overlay old bs
length-splice (suc i) bs [] = refl
length-splice (suc i) bs (o ∷ old) = omega (arith, length-splice i bs old)

overlay-append :
    (xs ys old : List ℕ) → splice (length xs) ys (overlay old xs) ≡ overlay old (xs ++ ys)
overlay-append [] ys old = refl
overlay-append (x ∷ xs) ys [] = refl
overlay-append (x ∷ xs) ys (o ∷ old) = ap (◌∷◌ x) (overlay-append xs ys old)

pub suc-add : (a b : ℕ) → suc a + b ≡ suc (a + b)
suc-add a b = omega arith

splice-append :
    (i : ℕ) (xs ys old : List ℕ)
    → splice (i + length xs) ys (splice i xs old) ≡ splice i (xs ++ ys) old
splice-append zero xs ys old =
    let e : 0 + length xs ≡ length xs = omega arith in rw e (overlay-append xs ys old)
splice-append (suc i) xs ys [] = rw suc-add refl
splice-append (suc i) xs ys (o ∷ old) = rw suc-add (ap (◌∷◌ o) (splice-append i xs ys old))

-- Two stores behind one another are one.
pub emit-append : (xs ys : List ℕ) (e : Encoder) → (emit xs >> emit ys) e ≡ emit (xs ++ ys) e
unfolding emit
emit-append xs ys e =
    ground (
      arith,
      length-append xs ys,
      length-splice e.count xs e.raw,
      splice-append e.count xs ys e.raw,
    )

splice-nil : (i : ℕ) (old : List ℕ) → splice i [] old ≡ old
splice-nil zero old = refl
splice-nil (suc i) [] = refl
splice-nil (suc i) (o ∷ old) = ap (◌∷◌ o) (splice-nil i old)

emit-nil : (e : Encoder) → e.count ≤ length e.raw → emit [] e ≡ ok tt e
unfolding emit
emit-nil e h = ground (arith, splice-nil e.count e.raw)

-- Where the bytes fit, what follows runs on the encoder behind them.
abbrev emitted : List ℕ → Encoder → Encoder
emitted bs e = record e { count = e.count + length bs; raw = splice e.count bs e.raw }

after_emit :
    (k k' : Put) (bs : List ℕ) (e : Encoder)
    → (e.count + length bs ≤ length e.raw → k (emitted bs e) ≡ k' (emitted bs e))
    → (emit bs >> k) e ≡ (emit bs >> k') e
unfolding emit
after_emit k k' bs e same = elim (dec_le (e.count + length bs) (length e.raw)) [
  | yes fits ↦ rw (le→leb _ _ fits) (same fits)
  | no over ↦ rw (lt→leb_false (e.count + length bs) (length e.raw) (omega arith)) refl
]

pub Writes-nothing : (version : ℕ) → Writes version (pure tt) []
Writes-nothing version = record {
  counts = λ e k f. ap (λ (n : ℕ). ok tt (record e { count = n })) (omega arith);
  stores = λ e k f h. sym (emit-nil e h);
}

pub Counts-then :
    (version : ℕ) (p q : Put) (xs ys : List ℕ)
    → Counts version p xs
    → Counts version q ys
    → Counts version (p >> q) (xs ++ ys)
Counts-then version p q xs ys first second e k f =
    ap (λ r. and_then r (λ _. q)) (first e k f)
    ∙ second (record e { count = e.count + length xs }) k f
    ∙ tally-tally (length xs) (length ys) e
    ∙ ap (λ (n : ℕ). tally n e) (sym (length-append xs ys))

pub Stores-then :
    (version : ℕ) (p q : Put) (xs ys : List ℕ)
    → Stores version p xs
    → Stores version q ys
    → Stores version (p >> q) (xs ++ ys)
Stores-then version p q xs ys first second e k f h =
    ap (λ r. and_then r (λ _. q)) (first e k f h)
    ∙ after_emit q (emit ys) xs e
        (λ fits. second (emitted xs e) k f (omega (arith, length-splice e.count xs e.raw)))
    ∙ emit-append xs ys e

pub Writes-then :
    (version : ℕ) (p q : Put) (xs ys : List ℕ)
    → Writes version p xs
    → Writes version q ys
    → Writes version (p >> q) (xs ++ ys)
Writes-then version p q xs ys first second = record {
  counts = Counts-then version p q xs ys first.counts second.counts;
  stores = Stores-then version p q xs ys first.stores second.stores;
}

pub Writes-of_eq :
    (version : ℕ) (p : Put) {bs cs : List ℕ} → bs ≡ cs → Writes version p bs → Writes version p cs
Writes-of_eq version p e w = subst (Writes version p) e w

-- The two branches of a put, and those of the version.
pub Writes-kinds :
    (version : ℕ) (p r : Put) (bs : List ℕ)
    → Counts version p bs
    → Stores version r bs
    → Writes version (by_kind p r) bs
Writes-kinds version p r bs c s = record {
  counts = λ e k f. by_kind_prep p r e k ∙ c e k f;
  stores = λ e k f h. by_kind_real p r e k ∙ s e k f h;
}

pub Counts-fixed : (p q : Put) (bs : List ℕ) → Counts 0 p bs → Counts 0 (by_version p q) bs
Counts-fixed p q bs c e k f = by_version_fixed p q e f ∙ c e k f

pub Counts-flexible :
    (w : ℕ) (p q : Put) (bs : List ℕ) → Counts (suc w) q bs → Counts (suc w) (by_version p q) bs
Counts-flexible w p q bs c e k f = by_version_flexible p q e w f ∙ c e k f

pub Stores-fixed : (p q : Put) (bs : List ℕ) → Stores 0 p bs → Stores 0 (by_version p q) bs
Stores-fixed p q bs s e k f h = by_version_fixed p q e f ∙ s e k f h

pub Stores-flexible :
    (w : ℕ) (p q : Put) (bs : List ℕ) → Stores (suc w) q bs → Stores (suc w) (by_version p q) bs
Stores-flexible w p q bs s e k f h = by_version_flexible p q e w f ∙ s e k f h

-- Counts one after the other.
pub Counts-tallies :
    (version m n : ℕ) (bs : List ℕ) → m + n ≡ length bs → Counts version (tally m >> tally n) bs
Counts-tallies version m n bs h e k f = tally-tally m n e ∙ ap (λ (l : ℕ). tally l e) h
