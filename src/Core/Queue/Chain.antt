-- ===== src/Core/Queue/Chain.antt =====
-- The addresses that one pointer of each node visits, and how a write changes them.
use coev.Base.{ℕ, ◌≡◌, ◌≢◌, refl, sym, ◌∙◌, arith}
use coev.Base.{List, [], ◌∷◌, ◌++◌}
use mathlib.Core.List.{reverse, reverse-cons, append-nil}
use coev.Core.Queue.{write}

-- From a, the pointer f leads through the list to b.
abbrev pub Chain : (ℕ → ℕ) → ℕ → List ℕ → ℕ → Type 0
Chain f a [] b = f a ≡ b
Chain f a (x ∷ l) b = (f a ≡ x) × Chain f x l b

abbrev pub IsFresh : ℕ → List ℕ → Type 0
IsFresh x [] = Unit {0}
IsFresh x (y ∷ l) = (x ≢ y) × IsFresh x l

abbrev pub IsDistinct : List ℕ → Type 0
IsDistinct [] = Unit {0}
IsDistinct (x ∷ l) = IsFresh x l × IsDistinct l

abbrev pub last : ℕ → List ℕ → ℕ
last a [] = a
last a (x ∷ l) = last x l

abbrev pub first : List ℕ → ℕ → ℕ
first [] b = b
first (x ∷ l) b = x

pub hit : (f : ℕ → ℕ) (p v : ℕ) → write f p v p ≡ v
hit f p v = ground arith

pub miss : (f : ℕ → ℕ) (p v x : ℕ) → x ≢ p → write f p v x ≡ f x
miss f p v x h = ground arith

-- A write to an address that the chain does not pass.
pub Chain-write :
    (f : ℕ → ℕ) (p v a : ℕ) (l : List ℕ) (b : ℕ)
    → p ≢ a
    → IsFresh p l
    → Chain f a l b
    → Chain (write f p v) a l b
Chain-write f p v a [] b h fr c = ground arith
Chain-write f p v a (x ∷ l) b h (hx, fr) (e, c) = (ground arith, Chain-write f p v x l b hx fr c)

pub last-fresh : (x a : ℕ) (l : List ℕ) → x ≢ a → IsFresh x l → x ≢ last a l
last-fresh x a [] h fr = h
last-fresh x a (y ∷ l) h (hy, fr) = last-fresh x y l hy fr

pub IsFresh-append : (x : ℕ) (us vs : List ℕ) → IsFresh x (us ++ vs) → IsFresh x us × IsFresh x vs
IsFresh-append x [] vs h = (tt, h)
IsFresh-append x (u ∷ us) vs (hu, h) = let r = IsFresh-append x us vs h in ((hu, r.0), r.1)

-- Where the chain is cut behind us, the last of us points to the first of vs.
pub seam :
    (f : ℕ → ℕ) (a : ℕ) (us vs : List ℕ) (b : ℕ)
    → Chain f a (us ++ vs) b
    → f (last a us) ≡ first vs b
seam f a [] [] b c = c
seam f a [] (v ∷ vs) b (e, c) = e
seam f a (u ∷ us) vs b (e, c) = seam f u us vs b c

-- A new node between us and vs.
pub Chain-insert :
    (f : ℕ → ℕ) (n a : ℕ) (us vs : List ℕ) (b : ℕ)
    → Chain f a (us ++ vs) b
    → n ≢ a
    → IsFresh n (us ++ vs)
    → IsDistinct (a ∷ (us ++ vs))
    → Chain (write (write f (last a us) n) n (first vs b)) a (us ++ (n ∷ vs)) b
Chain-insert f n a [] [] b c h fr d = (ground arith, ground arith)
Chain-insert f n a [] (v ∷ vs) b (e, c) h (hv, fr) ((av, fa), d) = (
  ground arith,
  (
    hit (write f a n) n v,
    Chain-write (write f a n) n v v vs b hv fr (Chain-write f a n v vs b av fa c),
  ),
)
Chain-insert f n a (u ∷ us) vs b (e, c) h (hu, fr) ((au, fa), d) =
    let other = last-fresh a u us au ((IsFresh-append a us vs fa).0) in
    (ground arith, Chain-insert f n u us vs b c hu fr d)

-- The node x between us and vs is left out.
pub Chain-remove :
    (f : ℕ → ℕ) (x a : ℕ) (us vs : List ℕ) (b : ℕ)
    → Chain f a (us ++ (x ∷ vs)) b
    → IsDistinct (a ∷ (us ++ (x ∷ vs)))
    → Chain (write f (last a us) (first vs b)) a (us ++ vs) b
Chain-remove f x a [] [] b c d = hit f a b
Chain-remove f x a [] (v ∷ vs) b (e, (e', c)) ((ax, (av, fa)), d) =
    (hit f a v, Chain-write f a v v vs b av fa c)
Chain-remove f x a (u ∷ us) vs b (e, c) ((au, fa), d) =
    let other = last-fresh a u us au ((IsFresh-append a us (x ∷ vs) fa).0) in
    (ground arith, Chain-remove f x u us vs b c d)

-- The last node points elsewhere.
pub Chain-retarget :
    (f : ℕ → ℕ) (a : ℕ) (l : List ℕ) (b c : ℕ)
    → Chain f a l b
    → IsDistinct (a ∷ l)
    → Chain (write f (last a l) c) a l c
Chain-retarget f a [] b c h d = hit f a c
Chain-retarget f a (x ∷ l) b c (e, h) ((ax, fa), d) =
    let other = last-fresh a x l ax fa in (ground arith, Chain-retarget f x l b c h d)

-- The same nodes behind another head.
pub Chain-rehead :
    (f : ℕ → ℕ) (a n : ℕ) (l : List ℕ) (b : ℕ)
    → IsFresh n l
    → Chain f a l b
    → Chain (write f n (first l b)) n l b
Chain-rehead f a n [] b h c = hit f n b
Chain-rehead f a n (x ∷ l) b (nx, h) (e, c) = (hit f n x, Chain-write f n x x l b nx h c)

pub IsFresh-join : (x : ℕ) (us vs : List ℕ) → IsFresh x us → IsFresh x vs → IsFresh x (us ++ vs)
IsFresh-join x [] vs h h' = h'
IsFresh-join x (u ∷ us) vs (e, h) h' = (e, IsFresh-join x us vs h h')

pub IsFresh-reverse : (x : ℕ) (l : List ℕ) → IsFresh x l → IsFresh x (reverse l)
IsFresh-reverse x [] h = tt
IsFresh-reverse x (y ∷ l) (e, h) =
    rw (reverse-cons y l) (IsFresh-join x (reverse l) (y ∷ []) (IsFresh-reverse x l h) (e, tt))

-- A new node anywhere in a list of distinct ones.
pub IsDistinct-insert :
    (n : ℕ) (us vs : List ℕ)
    → IsFresh n (us ++ vs)
    → IsDistinct (us ++ vs)
    → IsDistinct (us ++ (n ∷ vs))
IsDistinct-insert n [] vs h d = (h, d)
IsDistinct-insert n (u ∷ us) vs (e, h) (fu, d) =
    let parts = IsFresh-append u us vs fu in
    (IsFresh-join u us (n ∷ vs) (parts.0) (λ q. e (sym q), parts.1), IsDistinct-insert n us vs h d)

pub IsDistinct-remove :
    (x : ℕ) (us vs : List ℕ)
    → IsDistinct (us ++ (x ∷ vs))
    → IsFresh x (us ++ vs) × IsDistinct (us ++ vs)
IsDistinct-remove x [] vs d = d
IsDistinct-remove x (u ∷ us) vs (fu, d) =
    let parts = IsFresh-append u us (x ∷ vs) fu in
    let rest = IsDistinct-remove x us vs d in
    ((λ q. parts.1.0 (sym q), rest.0), (IsFresh-join u us vs (parts.0) (parts.1.1), rest.1))

pub IsDistinct-reverse : (l : List ℕ) → IsDistinct l → IsDistinct (reverse l)
IsDistinct-reverse [] d = tt
IsDistinct-reverse (x ∷ l) (h, d) =
    let fresh = IsFresh-reverse x l h in
    rw (reverse-cons x l) (
      IsDistinct-insert x (reverse l) [] (rw (append-nil (reverse l)) fresh)
        (rw (append-nil (reverse l)) (IsDistinct-reverse l d)))

first-snoc : (l : List ℕ) (x b : ℕ) → first (l ++ (x ∷ [])) b ≡ first l x
first-snoc [] x b = refl
first-snoc (y ∷ l) x b = refl

pub last-snoc : (a : ℕ) (l : List ℕ) (x : ℕ) → last a (l ++ (x ∷ [])) ≡ x
last-snoc a [] x = refl
last-snoc a (y ∷ l) x = last-snoc y l x

-- Backwards, the last node is the first.
pub first-reverse : (l : List ℕ) (b : ℕ) → first (reverse l) b ≡ last b l
first-reverse [] b = refl
first-reverse (x ∷ l) b = rw (reverse-cons x l) (first-snoc (reverse l) x b ∙ first-reverse l x)

pub last-reverse : (a : ℕ) (l : List ℕ) → last a (reverse l) ≡ first l a
last-reverse a [] = refl
last-reverse a (x ∷ l) = rw (reverse-cons x l) (last-snoc a (reverse l) x)
