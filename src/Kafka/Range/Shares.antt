-- ===== src/Kafka/Range/Shares.antt =====
-- The members' shares of a topic are its partitions, in their order, and as equal as can be.
use coev.Base.{ℕ, zero, suc, ◌+◌, ◌-◌, ◌*◌, ◌/◌, ◌%◌, ◌==◌, ◌≤◌, ◌<◌, leb, if◌then◌else◌}
use coev.Base.{◌≡◌, ◌≢◌, refl, sym, ap, ◌∙◌, arith, true, false, Bool-cases, ◌⊎◌, inl, inr}
use coev.Base.{List, [], ◌∷◌, ◌++◌, length, take, drop, length-take, length-drop, drop-drop}
use coev.Base.{none, some, All, drop-nil}
use mathlib.Core.Path.{subst}
use native.Mathlib.Nat.{mul-le-mul_right}
use coev.Core.Queue.Chain.{IsFresh, IsDistinct}
use coev.Kafka.Range.{Plan, add_to_plan, slice, smaller, extra, added, assign, insert, sort, core}

add_to_plan-here : (p : Plan) (m t : ℕ) (l : List ℕ) → p m t ≡ [] → add_to_plan p m t l m t ≡ l
unfolding add_to_plan
add_to_plan-here p m t [] h = h
add_to_plan-here p m t (x ∷ l) h = ground arith

add_to_plan-other :
    (p : Plan) (m t m' t' : ℕ) (l : List ℕ)
    → (m' ≢ m) ⊎ (t' ≢ t)
    → add_to_plan p m t l m' t' ≡ p m' t'
unfolding add_to_plan
add_to_plan-other p m t m' t' [] h = refl
add_to_plan-other p m t m' t' (x ∷ l) (inl h) = ground arith
add_to_plan-other p m t m' t' (x ∷ l) (inr h) = ground arith

take-drop : (n : ℕ) (l : List ℕ) → take n l ++ drop n l ≡ l
take-drop zero l = refl
take-drop (suc n) [] = refl
take-drop (suc n) (x ∷ l) = ap (◌∷◌ x) (take-drop n l)

-- Where the share of the i-th member begins.
abbrev bound : ℕ → ℕ → ℕ → ℕ
bound q r i = i * q + smaller r i

bound-suc : (q r i : ℕ) → bound q r (suc i) ≡ bound q r i + (q + extra r i)
bound-suc q r i = ground arith

bound-le : (q r i n : ℕ) → i < n → r < n → bound q r i + q + extra r i ≤ n * q + r
bound-le q r i n h k = ground (arith, mul-le-mul_right {m = suc i} {n = n} q h)

slice-share :
    (min q e : ℕ) (l : List ℕ)
    → min + q + e ≤ length l
    → slice min (min + q + e) l ≡ some (take (q + e) (drop min l))
slice-share min q e l h =
    let fits : leb (min + q + e) (length l) ≡ true = ground arith in
    let size : min + q + e - min ≡ q + e = omega arith in rw (fits, size) refl

length-share : (min k : ℕ) (l : List ℕ) → min + k ≤ length l → length (take k (drop min l)) ≡ k
length-share min k l h = length-take k (drop min l) (omega (arith, length-drop min l))

drop-all : (n : ℕ) (l : List ℕ) → length l ≤ n → drop n l ≡ []
drop-all n [] h = drop-nil n
drop-all zero (x ∷ l) h = absurd (omega arith)
drop-all (suc n) (x ∷ l) h = drop-all n l (omega arith)

bound-last : (q r n : ℕ) → r < n → bound q r n ≡ n * q + r
bound-last q r n h = ground arith

-- The partitions of a topic that the members have, member by member.
abbrev pub together : Plan → ℕ → List ℕ → List ℕ
together p t [] = []
together p t (m ∷ ms) = p m t ++ together p t ms

-- Members share partitions of a topic, q or q + 1 each, and nobody and no topic else is changed.
pub record Shares (p : Plan) (topic q : ℕ) (ids parts : List ℕ) (p' : Plan) : Type 0 where
  pub whole : together p' topic ids ≡ parts
  pub fair : All (λ m. (q ≤ length (p' m topic)) × (length (p' m topic) ≤ q + 1)) ids
  pub others : (m t : ℕ) → IsFresh m ids ⊎ (t ≢ topic) → p' m t ≡ p m t

behind :
    (m id t topic : ℕ) (ids : List ℕ)
    → IsFresh m (id ∷ ids) ⊎ (t ≢ topic)
    → (IsFresh m ids ⊎ (t ≢ topic)) × ((m ≢ id) ⊎ (t ≢ topic))
behind m id t topic ids (inl (ne, fr)) = (inl fr, inl ne)
behind m id t topic ids (inr ne) = (inr ne, inr ne)

assign-Shares :
    (ids : List ℕ) (i n q r topic : ℕ) (parts : List ℕ) (p : Plan)
    → i + length ids ≡ n
    → r < n
    → n * q + r ≡ length parts
    → IsDistinct ids
    → ((m : ℕ) → ¬ IsFresh m ids → p m topic ≡ [])
    → (p' : Plan) × (assign ids i q r topic parts p ≡ some p')
      × Shares p topic q ids (drop (bound q r i) parts) p'
assign-Shares [] i n q r topic parts p e k size d free =
    let at_end : bound q r i ≡ length parts = bound-i e ∙ size in
    (
      p,
      refl,
      record {
        whole = sym (drop-all (bound q r i) parts (omega arith));
        fair = tt;
        others = λ m t h. refl;
      },
    )
  where
    bound-i : i + 0 ≡ n → bound q r i ≡ n * q + r
    bound-i e = ap (bound q r) (omega arith) ∙ bound-last q r n k
assign-Shares (id ∷ ids) i n q r topic parts p e k size (fr, d) free =
    let b = bound q r i in
    let share = take (q + extra r i) (drop b parts) in
    let p1 = add_to_plan p id topic share in
    let room : b + q + extra r i ≤ length parts = omega (arith, bound-le q r i n (omega arith) k) in
    let (p', ran, sh) =
      assign-Shares ids (suc i) n q r topic parts p1 (omega arith) k size d (λ m h.
        add_to_plan-other p id topic m topic share
          (inl (λ z. h (subst (λ y. IsFresh y ids) (sym z) fr)))
        ∙ free m (λ f. h f.1)) in
    let mine : p' id topic ≡ share =
      sh.others id topic (inl fr) ∙ add_to_plan-here p id topic share (free id (λ f. f.0 refl)) in
    let long : length (p' id topic) ≡ q + extra r i =
      ap length mine ∙ length-share b (q + extra r i) parts (omega arith) in
    (
      p',
      ap
            (λ s. elim (added s p id topic) [
              | none ↦ none
              | some p2 ↦ assign ids (suc i) q r topic parts p2
            ])
            (slice-share b q (extra r i) parts room)
          ∙ ran,
      record {
        whole =
            ap (λ s. s ++ together p' topic ids) mine
            ∙ ap (λ z. share ++ z)
                (sh.whole
                  ∙ ap (λ z. drop z parts) (bound-suc q r i)
                  ∙ drop-drop b (q + extra r i) parts)
            ∙ take-drop (q + extra r i) (drop b parts);
        fair = ((ground arith, ground arith), sh.fair);
        others = λ m t h.
            sh.others m t ((behind m id t topic ids h).0)
            ∙ add_to_plan-other p id topic m t share ((behind m id t topic ids h).1);
      },
    )

length-insert : (x : ℕ) (l : List ℕ) → length (insert x l) ≡ suc (length l)
length-insert x [] = refl
length-insert x (y ∷ l) = elim (Bool-cases (leb x y)) [
  | inl e ↦ rw e refl
  | inr e ↦ rw e (ap suc (length-insert x l))
]

pub length-sort : (l : List ℕ) → length (sort l) ≡ length l
length-sort [] = refl
length-sort (x ∷ l) = length-insert x (sort l) ∙ ap suc (length-sort l)

insert-IsFresh : (z x : ℕ) (l : List ℕ) → z ≢ x → IsFresh z l → IsFresh z (insert x l)
insert-IsFresh z x [] h fr = (h, tt)
insert-IsFresh z x (y ∷ l) h (hy, fr) = elim (Bool-cases (leb x y)) [
  | inl e ↦ rw e (h, (hy, fr))
  | inr e ↦ rw e (hy, insert-IsFresh z x l h fr)
]

sort-IsFresh : (z : ℕ) (l : List ℕ) → IsFresh z l → IsFresh z (sort l)
sort-IsFresh z [] fr = tt
sort-IsFresh z (x ∷ l) (h, fr) = insert-IsFresh z x (sort l) h (sort-IsFresh z l fr)

insert-IsDistinct : (x : ℕ) (l : List ℕ) → IsFresh x l → IsDistinct l → IsDistinct (insert x l)
insert-IsDistinct x [] fr d = (tt, tt)
insert-IsDistinct x (y ∷ l) (h, fr) (fy, d) = elim (Bool-cases (leb x y)) [
  | inl e ↦ rw e ((h, fr), (fy, d))
  | inr e ↦ rw e (insert-IsFresh y x l (λ z. h (sym z)) fy, insert-IsDistinct x l fr d)
]

sort-IsDistinct : (l : List ℕ) → IsDistinct l → IsDistinct (sort l)
sort-IsDistinct [] d = tt
sort-IsDistinct (x ∷ l) (fr, d) =
    insert-IsDistinct x (sort l) (sort-IsFresh x l fr) (sort-IsDistinct l d)

-- For members that are distinct, one at least, and a topic that is not in the plan yet, the range
-- strategy divides by no 0 and leaves no vector. The partitions of the members in their order, one
-- after another, are the topic's partitions in theirs, so that each has one owner. Each member has
-- q or q + 1 of them, q being their number divided by that of the members. The plan of other
-- members and topics stays.
pub core-Shares :
    (p : Plan) (ids : List ℕ) (topic : ℕ) (parts : List ℕ)
    → IsDistinct ids
    → 0 < length ids
    → ((m : ℕ) → p m topic ≡ [])
    → (p' : Plan) × (core p ids topic parts ≡ some p')
      × Shares p topic (length parts / length ids) (sort ids) parts p'
unfolding core
core-Shares p ids topic parts d h free =
    let n = length ids in
    let (p', ran, sh) =
      assign-Shares (sort ids) 0 n (length parts / n) (length parts % n) topic parts p
        (omega (arith, length-sort ids)) (omega arith) (omega arith) (sort-IsDistinct ids d)
        (λ m f. free m) in
    let some_member : (n == 0) ≡ false = ground arith in
    let begins : bound (length parts / n) (length parts % n) 0 ≡ 0 = ground arith in
    (
      p',
      ap
            (λ b.
              if b
              then none
              else assign (sort ids) 0 (length parts / n) (length parts % n) topic parts p)
            some_member
          ∙ ran,
      subst (λ l. Shares p topic (length parts / n) (sort ids) l p') (ap (λ k. drop k parts) begins)
          sh,
    )
