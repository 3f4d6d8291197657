-- ===== src/Kafka/Range/Whole.antt =====
-- The whole plan of the range strategy.
use mathlib.Core.Path.{subst}
use coev.Base.{ℕ, ◌+◌, ◌/◌, ◌==◌, ◌≤◌, ◌<◌, ltb, ◌≡◌, ◌≢◌, refl, sym, ap, ◌∙◌, arith}
use coev.Base.{List, [], ◌∷◌, ◌++◌, length, All, Option, none, some, Bool-cases, inl, inr, false}
use coev.Core.Queue.Chain.{IsFresh}
use coev.Kafka.Range.{Plan, sort, unique, uniq, push_member, push_topics, by_topic}
use coev.Kafka.Range.{plan_topics, no_plan, plan}
use coev.Kafka.Range.Shares.{together, core-Shares, length-sort}
use coev.Kafka.Range.Unique.{uniq-IsDistinct}

abbrev pub keys : List (ℕ × List ℕ) → List ℕ
keys [] = []
keys ((t, ids) ∷ mbt) = t ∷ keys mbt

-- The topics are distinct, and each has a member.
abbrev pub IsMap : List (ℕ × List ℕ) → Type 0
IsMap [] = Unit {0}
IsMap ((t, ids) ∷ mbt) = IsFresh t (keys mbt) × (0 < length ids) × IsMap mbt

push_member-IsFresh :
    (z topic id : ℕ) (mbt : List (ℕ × List ℕ))
    → z ≢ topic
    → IsFresh z (keys mbt)
    → IsFresh z (keys (push_member topic id mbt))
push_member-IsFresh z topic id [] h fr = (h, tt)
push_member-IsFresh z topic id ((t, ids) ∷ mbt) h (ht, fr) = elim (Bool-cases (topic == t)) [
  | inl e ↦ rw e (ht, fr)
  | inr e ↦ rw e (ht, push_member-IsFresh z topic id mbt h fr)
]

push_member-IsMap :
    (topic id : ℕ) (mbt : List (ℕ × List ℕ)) → IsMap mbt → IsMap (push_member topic id mbt)
push_member-IsMap topic id [] h = (tt, omega arith, tt)
push_member-IsMap topic id ((t, ids) ∷ mbt) (fr, some_id, h) = elim (Bool-cases (topic == t)) [
  | inl e ↦ rw e (fr, longer ids, h)
  | inr e ↦ rw e (
    push_member-IsFresh t topic id mbt (ground arith) fr,
    some_id,
    push_member-IsMap topic id mbt h,
  )
]
  where
    longer : (l : List ℕ) → 0 < length (l ++ (id ∷ []))
    longer [] = omega arith
    longer (x ∷ l) = omega arith

push_topics-IsMap :
    (topics : List ℕ) (id : ℕ) (mbt : List (ℕ × List ℕ))
    → IsMap mbt
    → IsMap (push_topics topics id mbt)
push_topics-IsMap [] id mbt h = h
push_topics-IsMap (t ∷ topics) id mbt h =
    push_topics-IsMap topics id (push_member t id mbt) (push_member-IsMap t id mbt h)

pub by_topic-IsMap : (members mbt : List (ℕ × List ℕ)) → IsMap mbt → IsMap (by_topic members mbt)
by_topic-IsMap [] mbt h = h
by_topic-IsMap ((id, topics) ∷ members) mbt h =
    by_topic-IsMap members (push_topics topics id mbt) (push_topics-IsMap topics id mbt h)

uniq-some : (ids : List ℕ) → 0 < length ids → 0 < length (uniq ids)
unfolding uniq
uniq-some [] h = h
uniq-some (x ∷ []) h = omega arith
uniq-some (x ∷ (y ∷ l)) h =
    let many : ltb (length (x ∷ (y ∷ l))) 2 ≡ false = ground arith in
    rw many (kept (sort (x ∷ (y ∷ l))) (omega (arith, length-sort (x ∷ (y ∷ l)))))
  where
    kept : (l : List ℕ) → 0 < length l → 0 < length (unique l)
    kept [] h = h
    kept (x ∷ l) h = omega arith

-- The shares of a topic, q or q + 1 each.
abbrev pub IsDivided : Plan → ℕ → List ℕ → List ℕ → Type 0
IsDivided p topic ids parts =
    (together p topic (sort ids) ≡ parts)
    × All
        (λ m.
          (length parts / length ids ≤ length (p m topic))
          × (length (p m topic) ≤ length parts / length ids + 1))
        (sort ids)

-- What a plan has for a topic and its subscribers.
abbrev pub Served : Plan → ℕ → List ℕ → Option (List ℕ) → Type 0
Served p topic ids none = (m : ℕ) → p m topic ≡ []
Served p topic ids (some parts) = IsDivided p topic (uniq ids) parts

together-same :
    (p p' : Plan) (t : ℕ) (l : List ℕ)
    → ((m : ℕ) → p' m t ≡ p m t)
    → together p' t l ≡ together p t l
together-same p p' t [] h = refl
together-same p p' t (m ∷ l) h = rw (h m) (ap (λ k. p m t ++ k) (together-same p p' t l h))

All-same :
    (a b : ℕ) (p p' : Plan) (t : ℕ) (l : List ℕ)
    → ((m : ℕ) → p' m t ≡ p m t)
    → All (λ m. (a ≤ length (p m t)) × (length (p m t) ≤ b)) l
    → All (λ m. (a ≤ length (p' m t)) × (length (p' m t) ≤ b)) l
All-same a b p p' t [] h k = tt
All-same a b p p' t (m ∷ l) h (k, ks) = (rw (h m) k, All-same a b p p' t l h ks)

abbrev pub AllServed : Plan → (ℕ → Option (List ℕ)) → List (ℕ × List ℕ) → Type 0
AllServed p topics [] = Unit {0}
AllServed p topics ((t, ids) ∷ mbt) = Served p t ids (topics t) × AllServed p topics mbt

abbrev Planned : List (ℕ × List ℕ) → (ℕ → Option (List ℕ)) → Plan → Type 0
Planned mbt topics p =
    (p' : Plan) × (plan_topics mbt topics p ≡ some p')
    × AllServed p' topics mbt
    × ((m t : ℕ) → IsFresh t (keys mbt) → p' m t ≡ p m t)

plan_topics-Planned :
    (mbt : List (ℕ × List ℕ)) (topics : ℕ → Option (List ℕ)) (p : Plan)
    → IsMap mbt
    → ((m t : ℕ) → ¬ IsFresh t (keys mbt) → p m t ≡ [])
    → Planned mbt topics p
plan_topics-Planned [] topics p h free = (p, refl, tt, λ m t fr. refl)
plan_topics-Planned ((t, ids) ∷ mbt) topics p (fr, some_id, h) free =
    by_parts (λ p f. plan_topics-Planned mbt topics p h f) (topics t) refl
  where
    behind : (u : ℕ) → ¬ IsFresh u (keys mbt) → u ≢ t
    behind u k e = k (subst (λ z. IsFresh z (keys mbt)) (sym e) fr)

    by_parts :
        ((p : Plan) → ((m t : ℕ) → ¬ IsFresh t (keys mbt) → p m t ≡ []) → Planned mbt topics p)
        → (o : Option (List ℕ)) → topics t ≡ o
        → Planned ((t, ids) ∷ mbt) topics p
    by_parts next none e =
        let (p', ran, served, others) = next p (λ m u k. free m u (λ f. k f.1)) in
        (
          p',
          rw (plan_topics, e) ran,
          (rw e (λ m. others m t fr ∙ free m t (λ f. f.0 refl)), served),
          λ m u f. others m u f.1,
        )
    by_parts next (some parts) e =
        let (p1, ran1, sh) =
          core-Shares p (uniq ids) t parts (uniq-IsDistinct ids) (uniq-some ids some_id)
            (λ m. free m t (λ f. f.0 refl)) in
        let (p', ran, served, others) =
          next p1 (λ m u k. sh.others m u (inr (behind u k)) ∙ free m u (λ f. k f.1)) in
        let same : (m : ℕ) → p' m t ≡ p1 m t = λ m. others m t fr in
        (
          p',
          rw (plan_topics, e, ran1) ran,
          (
            rw e (
              together-same p1 p' t (sort (uniq ids)) same ∙ sh.whole,
              All-same (length parts / length (uniq ids)) (length parts / length (uniq ids) + 1) p1
                  p' t (sort (uniq ids)) same sh.fair,
            ),
            served,
          ),
          λ m u f. others m u f.1 ∙ sh.others m u (inr f.0),
        )

-- The plan, with what it has for the topics of the map and for all others.
pub plan-AllServed :
    (members : List (ℕ × List ℕ)) (topics : ℕ → Option (List ℕ))
    → (p : Plan) × (plan members topics ≡ some p)
      × AllServed p topics (by_topic members [])
      × ((m t : ℕ) → IsFresh t (keys (by_topic members [])) → p m t ≡ [])
unfolding plan
plan-AllServed members topics =
    plan_topics-Planned (by_topic members []) topics no_plan (by_topic-IsMap members [] tt)
      (λ m t k. refl)
