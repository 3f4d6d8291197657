-- ===== src/Wire/Separate/Like.antt =====
-- What it is for a call of one of the two classes to do as a call of packet_encoder does.
use coev.Base.{Bool, true, false, if◌then◌else◌, ◌≡◌, refl, ap, ◌∙◌}
use coev.Wire.Outcome.{M, Code, Outcome, ok, err, fault, stuck, and_then, pure, fail, ◌>>=◌, ◌>>◌}
use coev.Wire.Encoder.{Encoder}

abbrev pub mapped : {S A : Type 0} → (S → Encoder) → Outcome S A → Outcome Encoder A
mapped f (ok a s) = ok a (f s)
mapped f (err c s) = err c (f s)
mapped f fault = fault
mapped f stuck = stuck

-- The call on the left comes to the same on the state s as the one on the right on f s.
pub data Like {S A : Type 0} (f : S → Encoder) (m : M S A) (n : M Encoder A) : Type 0 where
  like : ((s : S) → mapped f (m s) ≡ n (f s)) → Like f m n

pub same :
    {S A : Type 0} {f : S → Encoder} {m : M S A} {n : M Encoder A}
    → Like f m n
    → (s : S) → mapped f (m s) ≡ n (f s)
same (like h) = h

module _ {S : Type 0} (f : S → Encoder) where
  pub bind-Like :
      {A B : Type 0} {m : M S A} {n : M Encoder A} {k : A → M S B} {l : A → M Encoder B}
      → Like f m n
      → ((a : A) → Like f (k a) (l a))
      → Like f (m >>= k) (n >>= l)
  bind-Like {A = A} {m = m} {k = k} {l = l} h g =
      like (λ s. behind (m s) ∙ ap (λ r. and_then r l) (same h s))
    where
      behind : (r : Outcome S A) → mapped f (and_then r k) ≡ and_then (mapped f r) l
      behind (ok a t) = same (g a) t
      behind (err c t) = refl
      behind fault = refl
      behind stuck = refl

  pub then-Like :
      {B : Type 0} {m : M S (Unit {0})} {n : M Encoder (Unit {0})} {k : M S B} {l : M Encoder B}
      → Like f m n
      → Like f k l
      → Like f (m >> k) (n >> l)
  then-Like h g = bind-Like h (λ u. g)

  pub if-Like :
      {A : Type 0} {m k : M S A} {n l : M Encoder A}
      → (b : Bool) → Like f m n
      → Like f k l
      → Like f (if b then m else k) (if b then n else l)
  if-Like true h g = h
  if-Like false h g = g

  pub pure-Like : {A : Type 0} (a : A) → Like f (pure a) (pure a)
  pure-Like a = like (λ s. refl)

  pub fail-Like : {A : Type 0} (c : Code) → Like f (fail {A = A} c) (fail c)
  fail-Like c = like (λ s. refl)
