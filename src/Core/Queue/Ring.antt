-- ===== src/Core/Queue/Ring.antt =====
-- A queue stands for the list of its nodes, and each operation for one on lists.
use mathlib.Core.List.{reverse, reverse-cons, reverse-append, append-nil, append_assoc}
use mathlib.Core.Path.{subst}
use coev.Base.{ℕ, ◌≡◌, ◌≢◌, refl, sym, ap, ◌∙◌, arith}
use coev.Base.{List, [], ◌∷◌, ◌++◌, some, true, false}
use coev.Core.Queue.{Memory, write, set_next, set_prev, list_add, list_del, list_clear, is_empty}
use coev.Core.Queue.{list_move, erase, move_to}
use coev.Core.Queue.Chain.{Chain, IsFresh, IsDistinct, last, first, seam, Chain-write, Chain-insert}
use coev.Core.Queue.Chain.{Chain-remove, Chain-retarget, Chain-rehead, IsFresh-reverse, hit}
use coev.Core.Queue.Chain.{IsDistinct-insert, IsDistinct-remove, IsDistinct-reverse, IsFresh-join}
use coev.Core.Queue.Chain.{first-reverse, last-reverse, IsFresh-append, last-snoc, last-fresh}

first-fresh : (n : ℕ) (l : List ℕ) (b : ℕ) → n ≢ b → IsFresh n l → n ≢ first l b
first-fresh n [] b h fr = h
first-fresh n (x ∷ l) b h fr = fr.0

-- The nodes of the queue q, from front to back.
pub record IsQueue (m : Memory) (q : ℕ) (l : List ℕ) : Type 0 where
  pub forward : Chain m.next q l q
  pub backward : Chain m.prev q (reverse l) q
  pub distinct : IsDistinct (q ∷ l)

reverse-seam : (us vs : List ℕ) (x : ℕ) → reverse (us ++ (x ∷ vs)) ≡ reverse vs ++ (x ∷ reverse us)
reverse-seam us vs x =
    reverse-append us (x ∷ vs)
    ∙ ap (λ l. l ++ reverse us) (reverse-cons x vs)
    ∙ append_assoc (reverse vs) (x ∷ []) (reverse us)

mirrored : (q : ℕ) (l : List ℕ) → IsDistinct (q ∷ l) → IsDistinct (q ∷ reverse l)
mirrored q l (h, d) = (IsFresh-reverse q l h, IsDistinct-reverse l d)

-- The pointers at a place in the ring.
pub IsQueue-next :
    {m : Memory} {q : ℕ} {l : List ℕ} (us vs : List ℕ)
    → l ≡ us ++ vs
    → IsQueue m q l
    → m.next (last q us) ≡ first vs q
IsQueue-next {m} {q} {l} us vs e r = seam m.next q us vs q (rw e at r.forward)

pub IsQueue-prev :
    {m : Memory} {q : ℕ} {l : List ℕ} (us vs : List ℕ)
    → l ≡ us ++ vs
    → IsQueue m q l
    → m.prev (first vs q) ≡ last q us
IsQueue-prev {m} {q} {l} us vs e r =
    ap m.prev (sym (last-reverse q vs))
    ∙ seam m.prev q (reverse vs) (reverse us) q (rw (e, reverse-append us vs) at r.backward)
    ∙ first-reverse us q

-- The memory with a node put between us and vs.
abbrev pub added : ℕ → ℕ → ℕ → Memory → Memory
added new prev next m =
    set_prev new prev (set_next new next (set_next prev new (set_prev next new m)))

pub IsQueue-added :
    (m : Memory) (q n : ℕ) (us vs : List ℕ)
    → IsQueue m q (us ++ vs)
    → n ≢ q
    → IsFresh n (us ++ vs)
    → IsQueue (added n (last q us) (first vs q) m) q (us ++ (n ∷ vs))
IsQueue-added m q n us vs r h fr = record {
  forward = Chain-insert m.next n q us vs q r.forward h fr r.distinct;
  backward =
      rw (reverse-seam us vs n, ← last-reverse q vs, ← first-reverse us q)
        (Chain-insert m.prev n q (reverse vs) (reverse us) q
          (rw (reverse-append us vs) at r.backward) h
          (rw (reverse-append us vs) at (IsFresh-reverse n (us ++ vs) fr))
          (rw (reverse-append us vs) at (mirrored q (us ++ vs) r.distinct)));
  distinct =
      let parts = IsFresh-append q us vs (r.distinct.0) in
      (
        IsFresh-join q us (n ∷ vs) (parts.0) (λ e. h (sym e), parts.1),
        IsDistinct-insert n us vs fr (r.distinct.1),
      );
}

-- A node that is left out is a queue of its own, and no other.
pub IsQueue-erase :
    (m : Memory) (q x : ℕ) (us vs : List ℕ)
    → IsQueue m q (us ++ (x ∷ vs))
    → IsQueue (erase x m) q (us ++ vs) × IsQueue (erase x m) x []
unfolding erase list_del list_clear
IsQueue-erase m q x us vs r = (
  record {
    forward =
        rw (before, behind)
          (Chain-write (write m.next (last q us) (first vs q)) x x q (us ++ vs) q x≢q (parts.0)
            (Chain-remove m.next x q us vs q r.forward r.distinct));
    backward =
        rw (before, behind, reverse-append us vs, ← last-reverse q vs, ← first-reverse us q)
          (Chain-write (write m.prev (last q (reverse vs)) (first (reverse us) q)) x x q
            (reverse vs ++ reverse us) q x≢q
            (rw (reverse-append us vs) at (IsFresh-reverse x (us ++ vs) (parts.0)))
            (Chain-remove m.prev x q (reverse vs) (reverse us) q
              (rw (reverse-seam us vs x) at r.backward)
              (rw (reverse-seam us vs x) at (mirrored q (us ++ (x ∷ vs)) r.distinct))));
    distinct = (IsFresh-join q us vs (own.0) (own.1.1), parts.1);
  },
  record {
    forward = hit (write m.next (m.prev x) (m.next x)) x x;
    backward = hit (write m.prev (m.next x) (m.prev x)) x x;
    distinct = (tt, tt);
  },
)
  where
    parts : IsFresh x (us ++ vs) × IsDistinct (us ++ vs)
    parts = IsDistinct-remove x us vs (r.distinct.1)

    own : IsFresh q us × IsFresh q (x ∷ vs)
    own = IsFresh-append q us (x ∷ vs) (r.distinct.0)

    x≢q : x ≢ q
    x≢q e = own.1.0 (sym e)

    before : m.prev x ≡ last q us
    before = IsQueue-prev us (x ∷ vs) refl r

    behind : m.next x ≡ first vs q
    behind =
        ap m.next (sym (last-snoc q us x))
        ∙ IsQueue-next (us ++ (x ∷ [])) vs (sym (append_assoc us (x ∷ []) vs)) r

pub is_empty-nil : (m : Memory) (q : ℕ) → IsQueue m q [] → is_empty q m ≡ true
unfolding is_empty
is_empty-nil m q r = ground (arith, r.forward, r.backward)

pub is_empty-cons : (m : Memory) (q x : ℕ) (l : List ℕ) → IsQueue m q (x ∷ l) → is_empty q m ≡ false
unfolding is_empty
is_empty-cons m q x l r = ground (arith, r.forward.0, r.distinct.0.0)

-- The assertions of __list_add hold for a new node.
pub list_add-added :
    (m : Memory) (q n : ℕ) (us vs : List ℕ)
    → IsQueue m q (us ++ vs)
    → n ≢ q
    → IsFresh n (us ++ vs)
    → list_add n (last q us) (first vs q) m ≡ some (added n (last q us) (first vs q) m)
unfolding list_add
list_add-added m q n us vs r h fr =
    let parts = IsFresh-append n us vs fr in
    let ahead = IsQueue-next us vs refl r in
    let back = IsQueue-prev us vs refl r in
    let f = first-fresh n vs q h (parts.1) in let l = last-fresh n q us h (parts.0) in ground arith

-- One direction of a ring behind another head, with the old head alone.
Chain-moved :
    (f : ℕ → ℕ) (q n p nx : ℕ) (l : List ℕ)
    → Chain f q l q
    → IsDistinct (q ∷ l)
    → n ≢ q
    → IsFresh n l
    → p ≡ last q l
    → nx ≡ first l q
    → nx ≡ first l n
    → Chain (write (write (write f p n) n nx) q q) n l n
Chain-moved f q n p nx l c d h fr ep e e' =
    Chain-write (write (write f p n) n nx) q q n l n (λ x. h (sym x)) (d.0)
      (subst (λ y. Chain (write (write f p n) n y) n l n) (sym e')
        (subst (λ y. Chain (write (write f y n) n (first l n)) n l n) (sym ep)
          (Chain-rehead (write f (last q l) n) q n l n fr (Chain-retarget f q l q n c d))))

-- move_to, from a queue q that is not empty to an empty queue n that is none of the nodes of q nor q
-- itself, returns true; n is then a queue of all the nodes in their order, and q is empty.
pub move_to-IsQueue :
    (m : Memory) (q n x : ℕ) (l : List ℕ)
    → IsQueue m q (x ∷ l)
    → IsQueue m n []
    → n ≢ q
    → IsFresh n (x ∷ l)
    → (m' : Memory) × (move_to q n m ≡ some (true, m')) × IsQueue m' n (x ∷ l) × IsQueue m' q []
unfolding move_to list_move list_clear
move_to-IsQueue m q n x l r o h fr = (
  record { next = f; prev = g },
  rw (is_empty-cons m q x l r, is_empty-nil m n o) refl,
  record {
    forward =
        Chain-moved m.next q n (m.prev q) (m.next q) (x ∷ l) r.forward r.distinct h fr back ahead
          ahead;
    backward =
        Chain-moved m.prev q n (m.next q) (m.prev q) (reverse (x ∷ l)) r.backward
          (mirrored q (x ∷ l) r.distinct) h (IsFresh-reverse n (x ∷ l) fr) ahead' back'
          (back ∙ sym (first-reverse (x ∷ l) n));
    distinct = (fr, r.distinct.1);
  },
  record {
    forward = hit (write (write m.next (m.prev q) n) n (m.next q)) q q;
    backward = hit (write (write m.prev (m.next q) n) n (m.prev q)) q q;
    distinct = (tt, tt);
  },
)
  where
    f : ℕ → ℕ
    f = write (write (write m.next (m.prev q) n) n (m.next q)) q q

    g : ℕ → ℕ
    g = write (write (write m.prev (m.next q) n) n (m.prev q)) q q

    back : m.prev q ≡ last q (x ∷ l)
    back = IsQueue-prev (x ∷ l) [] (sym (append-nil (x ∷ l))) r

    ahead : m.next q ≡ x
    ahead = IsQueue-next [] (x ∷ l) refl r

    ahead' : m.next q ≡ last q (reverse (x ∷ l))
    ahead' = ahead ∙ sym (last-reverse q (x ∷ l))

    back' : m.prev q ≡ first (reverse (x ∷ l)) q
    back' = back ∙ sym (first-reverse (x ∷ l) q)
