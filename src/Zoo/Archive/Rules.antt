-- ===== src/Zoo/Archive/Rules.antt =====
-- What is written by one call and read by another, part by part.
use coev.Base.{
  ℕ, ◌+◌, ◌<◌, ◌^◌, ◌≡◌, refl, sym, ap, ◌∙◌, arith, List, [], ◌++◌, append-nil, append_assoc,
}
use coev.Base.{length, length-append}
use coev.Zoo.Archive.{Call, ok, and_then, ◌>>=◌, ◌>>◌, pure}

-- The bytes that `put` appends to any buffer are read by `get` as a, whatever stands behind them, in
-- a view whose size is an int32_t.
pub record Travels {A : Type 0} (put : Call (Unit {0})) (get : Call A) (a : A) : Type 0 where
  pub bytes : List ℕ
  pub written : (buff : List ℕ) → put buff ≡ ok tt (buff ++ bytes)
  pub read : (rest : List ℕ) → length (bytes ++ rest) < 2 ^ 31 → get (bytes ++ rest) ≡ ok a rest

-- One value behind another, the last value, and no value.
pub then-Travels :
    {A B : Type 0} {p q : Call (Unit {0})} {g : Call A} {a : A} {b : B} (k : A → Call B)
    → Travels p g a
    → Travels q (k a) b
    → Travels (p >> q) (g >>= k) b
unfolding ◌>>=◌ ◌>>◌
then-Travels {q = q} {g = g} k t u = record {
  bytes = t.bytes ++ u.bytes;
  written = λ buff.
      ap (λ o. and_then o (λ _. q)) (t.written buff)
      ∙ u.written (buff ++ t.bytes)
      ∙ ap (ok tt) (append_assoc buff t.bytes u.bytes);
  read = λ rest h.
      let e : (t.bytes ++ u.bytes) ++ rest ≡ t.bytes ++ (u.bytes ++ rest) =
        append_assoc t.bytes u.bytes rest in
      let n : length (t.bytes ++ (u.bytes ++ rest)) ≡ length t.bytes + length (u.bytes ++ rest) =
        length-append t.bytes (u.bytes ++ rest) in
      let h' : length (t.bytes ++ (u.bytes ++ rest)) < 2 ^ 31 = rw (← e) h in
      ap (λ s. and_then (g s) k) e
      ∙ ap (λ o. and_then o k) (t.read (u.bytes ++ rest) h')
      ∙ u.read rest (omega (arith, n));
}

pub last-Travels :
    {A B : Type 0} {p : Call (Unit {0})} {g : Call A} {a : A} (f : A → B)
    → Travels p g a
    → Travels p (g >>= λ x. pure (f x)) (f a)
unfolding ◌>>=◌ pure
last-Travels f t = record {
  bytes = t.bytes;
  written = t.written;
  read = λ rest h. ap (λ o. and_then o (λ x. pure (f x))) (t.read rest h);
}

pub pure-Travels : {A : Type 0} (a : A) → Travels (pure tt) (pure a) a
unfolding pure
pure-Travels a = record {
  bytes = [];
  written = λ buff. ap (ok tt) (sym (append-nil buff));
  read = λ rest h. refl;
}
