-- ===== src/Core/Queue/Refine.antt =====
-- A queue promises a list: what any calls return, and leave behind, are those of the list.
use mathlib.Core.List.{reverse, reverse-cons, reverse-reverse, append-nil}
use mathlib.Core.Path.{subst}
use coev.Base.{ℕ, ◌==◌, if◌then◌else◌, ◌≡◌, ◌≢◌, refl, sym, ap, ◌∙◌, arith, Bool-cases, inl, inr}
use coev.Base.{List, [], ◌∷◌, ◌++◌, Option, none, some, false, ==_iff}
use coev.Core.Queue.{Memory, list_add, is_empty, push_front, push_back, erase, pop_front, pop_back}
use coev.Core.Queue.Chain.{IsFresh, last, first, last-snoc}
use coev.Core.Queue.Ring.{IsQueue, IsQueue-next, IsQueue-prev, added, IsQueue-added, IsQueue-erase}
use coev.Core.Queue.Ring.{is_empty-nil, is_empty-cons, list_add-added}

pub data Call : Type 0 where
  front back : ℕ → Call
  take_front take_back : Call
  cut : ℕ → Call

abbrev pushed : Option Memory → Option (Option ℕ × Memory)
pushed none = none
pushed (some m) = some (none, m)

-- A call of a member function of the queue q.
abbrev pub apply : ℕ → Call → Memory → Option (Option ℕ × Memory)
apply q (front n) m = pushed (push_front q n m)
apply q (back n) m = pushed (push_back q n m)
apply q take_front m = some (pop_front q m)
apply q take_back m = some (pop_back q m)
apply q (cut x) m = some (some x, erase x m)

abbrev pub remove : ℕ → List ℕ → List ℕ
remove x [] = []
remove x (y ∷ l) = if x == y then l else y ∷ remove x l

-- The same call on a list: what it returns, and the list behind it.
abbrev pub answer : Call → List ℕ → Option ℕ
answer (front n) l = none
answer (back n) l = none
answer take_front [] = none
answer take_front (x ∷ l) = some x
answer take_back l = elim (reverse l) [ [] ↦ none | x ∷ r ↦ some x ]
answer (cut x) l = some x

abbrev pub effect : Call → List ℕ → List ℕ
effect (front n) l = n ∷ l
effect (back n) l = l ++ (n ∷ [])
effect take_front [] = []
effect take_front (x ∷ l) = l
effect take_back l = elim (reverse l) [ [] ↦ [] | x ∷ r ↦ reverse r ]
effect (cut x) l = remove x l

-- A node is pushed only while it is in no place of the queue, and cut only from its queue.
abbrev pub IsLegal : ℕ → Call → List ℕ → Type 0
IsLegal q (front n) l = (n ≢ q) × IsFresh n l
IsLegal q (back n) l = (n ≢ q) × IsFresh n l
IsLegal q take_front l = Unit {0}
IsLegal q take_back l = Unit {0}
IsLegal q (cut x) l = ¬ IsFresh x l

-- The call returns, as on the list, and leaves the list behind.
abbrev pub Serves : ℕ → Call → List ℕ → Memory → Type 0
Serves q c l m = (m' : Memory) × (apply q c m ≡ some (answer c l, m')) × IsQueue m' q (effect c l)

split_at :
    (x : ℕ) (l : List ℕ)
    → ¬ IsFresh x l
    → (us : List ℕ) × (vs : List ℕ) × (l ≡ us ++ (x ∷ vs)) × (remove x l ≡ us ++ vs)
split_at x [] h = absurd (h tt)
split_at x (y ∷ l) h = elim (Bool-cases (x == y)) [
  | inl e ↦ ([], l, ap (λ z. z ∷ l) (sym ((==_iff x y).0 e)), rw e refl)
  | inr e ↦
      let ne : x ≢ y = ground arith in
      let (us, vs, p, q) = split_at x l (λ fr. h (ne, fr)) in
      (y ∷ us, vs, ap (λ z. y ∷ z) p, rw e (ap (λ z. y ∷ z) q))
]

Serves-front :
    (q n : ℕ) (l : List ℕ) (m : Memory)
    → IsQueue m q l
    → n ≢ q
    → IsFresh n l
    → Serves q (front n) l m
unfolding push_front
Serves-front q n l m r h fr = (
  added n q (first l q) m,
  ap (λ p. pushed (list_add n q p m)) (IsQueue-next [] l refl r)
      ∙ ap pushed (list_add-added m q n [] l r h fr),
  IsQueue-added m q n [] l r h fr,
)

Serves-back :
    (q n : ℕ) (l : List ℕ) (m : Memory)
    → IsQueue m q l
    → n ≢ q
    → IsFresh n l
    → Serves q (back n) l m
unfolding push_back
Serves-back q n l m r h fr =
    let e : l ≡ l ++ [] = sym (append-nil l) in
    let r' : IsQueue m q (l ++ []) = subst (λ k. IsQueue m q k) e r in
    let fr' : IsFresh n (l ++ []) = subst (λ k. IsFresh n k) e fr in
    (
      added n (last q l) q m,
      ap (λ p. pushed (list_add n p q m)) (IsQueue-prev l [] e r)
          ∙ ap pushed (list_add-added m q n l [] r' h fr'),
      IsQueue-added m q n l [] r' h fr',
    )

Serves-take_front : (q : ℕ) (l : List ℕ) (m : Memory) → IsQueue m q l → Serves q take_front l m
unfolding pop_front
Serves-take_front q [] m r = (m, rw (is_empty-nil m q r) refl, r)
Serves-take_front q (x ∷ l) m r = (
  erase x m,
  rw (is_empty-cons m q x l r) (ap (λ y. some (some y, erase y m)) (r.forward.0)),
  (IsQueue-erase m q x [] l r).0,
)

Serves-cut :
    (q x : ℕ) (l : List ℕ) (m : Memory) → IsQueue m q l → ¬ IsFresh x l → Serves q (cut x) l m
Serves-cut q x l m r h =
    let (us, vs, p, e) = split_at x l h in
    (
      erase x m,
      refl,
      subst (λ k. IsQueue (erase x m) q k) (sym e)
          ((IsQueue-erase m q x us vs (subst (λ k. IsQueue m q k) p r)).0),
    )

-- The last node, from the reversed list.
serves_last :
    (q : ℕ) (l k : List ℕ) (m : Memory)
    → reverse l ≡ k
    → IsQueue m q l
    → (m' : Memory) × (pop_back q m ≡ (elim k [ [] ↦ none | x ∷ r ↦ some x ], m'))
      × IsQueue m' q (elim k [ [] ↦ [] | x ∷ r ↦ reverse r ])
unfolding pop_back
serves_last q l [] m e r =
    let nil : l ≡ [] = sym (reverse-reverse l) ∙ ap reverse e in
    let r' : IsQueue m q [] = subst (λ z. IsQueue m q z) nil r in
    (m, rw (is_empty-nil m q r') refl, r')
serves_last q l (x ∷ k) m e r =
    let split : l ≡ reverse k ++ (x ∷ []) =
      sym (reverse-reverse l) ∙ ap reverse e ∙ reverse-cons x k in
    let r' : IsQueue m q (reverse k ++ (x ∷ [])) = subst (λ z. IsQueue m q z) split r in
    let here : m.prev q ≡ x =
      IsQueue-prev (reverse k ++ (x ∷ [])) [] (sym (append-nil (reverse k ++ (x ∷ [])))) r'
      ∙ last-snoc q (reverse k) x in
    (
      erase x m,
      rw (not_empty q m (reverse k) x r') (ap (λ (y : ℕ). (some y, erase y m)) here),
      subst (λ z. IsQueue (erase x m) q z) (append-nil (reverse k))
          ((IsQueue-erase m q x (reverse k) [] r').0),
    )
  where
    not_empty :
        (q : ℕ) (m : Memory) (us : List ℕ) (x : ℕ)
        → IsQueue m q (us ++ (x ∷ []))
        → is_empty q m ≡ false
    not_empty q m [] x r = is_empty-cons m q x [] r
    not_empty q m (u ∷ us) x r = is_empty-cons m q u (us ++ (x ∷ [])) r

Serves-take_back : (q : ℕ) (l : List ℕ) (m : Memory) → IsQueue m q l → Serves q take_back l m
Serves-take_back q l m r =
    let (m', e, r') = serves_last q l (reverse l) m refl r in (m', ap some e, r')

pub serves :
    (q : ℕ) (c : Call) (l : List ℕ) (m : Memory) → IsQueue m q l → IsLegal q c l → Serves q c l m
serves q (front n) l m r (h, fr) = Serves-front q n l m r h fr
serves q (back n) l m r (h, fr) = Serves-back q n l m r h fr
serves q take_front l m r h = Serves-take_front q l m r
serves q take_back l m r h = Serves-take_back q l m r
serves q (cut x) l m r h = Serves-cut q x l m r h

abbrev pub also : Option ℕ → Option (List (Option ℕ) × Memory) → Option (List (Option ℕ) × Memory)
also a none = none
also a (some (bs, m)) = some (a ∷ bs, m)

-- Calls one after another, with what each returns.
abbrev pub run : ℕ → List Call → Memory → Option (List (Option ℕ) × Memory)
run q [] m = some ([], m)
run q (c ∷ cs) m = elim (apply q c m) [ none ↦ none | some (a, m') ↦ also a (run q cs m') ]

abbrev pub answers : List Call → List ℕ → List (Option ℕ)
answers [] l = []
answers (c ∷ cs) l = answer c l ∷ answers cs (effect c l)

abbrev pub effects : List Call → List ℕ → List ℕ
effects [] l = l
effects (c ∷ cs) l = effects cs (effect c l)

abbrev pub AreLegal : ℕ → List Call → List ℕ → Type 0
AreLegal q [] l = Unit {0}
AreLegal q (c ∷ cs) l = IsLegal q c l × AreLegal q cs (effect c l)

-- Any calls on a queue, where a node that is pushed is new and one that is cut is in the queue,
-- fail no assertion, return what the same calls return on the list of its nodes, and leave a queue
-- of the nodes that are left there.
pub run_refines :
    (q : ℕ) (cs : List Call) (l : List ℕ) (m : Memory)
    → IsQueue m q l
    → AreLegal q cs l
    → (m' : Memory) × (run q cs m ≡ some (answers cs l, m')) × IsQueue m' q (effects cs l)
run_refines q [] l m r h = (m, refl, r)
run_refines q (c ∷ cs) l m r (h, hs) =
    let (m', e, r') = serves q c l m r h in
    let (m'', e', r'') = run_refines q cs (effect c l) m' r' hs in
    (
      m'',
      ap (λ o. elim o [ none ↦ none | some (a, m1) ↦ also a (run q cs m1) ]) e
          ∙ ap (also (answer c l)) e',
      r'',
    )
