-- ===== src/Kafka/Range/Subscribers.antt =====
-- The plan of the range strategy by topics, with the members that ask for each.
use mathlib.Core.Path.{subst}
use coev.Base.{ℕ, ◌==◌, if◌then◌else◌, ◌≡◌, refl, sym, ap, ◌∙◌, arith}
use coev.Base.{
  List, [], ◌∷◌, ◌++◌, length, ◌<◌, ==_iff, append-nil, append_assoc, Option, some, Bool-cases, inl,
  inr, true, false,
}
use coev.Core.Queue.Chain.{IsFresh}
use coev.Kafka.Range.{Plan, push_member, push_topics, by_topic, plan}
use coev.Kafka.Range.Whole.{IsMap, by_topic-IsMap, keys, Served, AllServed, plan-AllServed}

-- A member once for each time that it names the topic.
abbrev pub times : ℕ → List ℕ → ℕ → List ℕ
times t [] id = []
times t (u ∷ us) id = if u == t then id ∷ times t us id else times t us id

-- The members that ask for a topic.
abbrev pub asked_by : ℕ → List (ℕ × List ℕ) → List ℕ
asked_by t [] = []
asked_by t ((id, topics) ∷ members) = times t topics id ++ asked_by t members

abbrev lookup : ℕ → List (ℕ × List ℕ) → List ℕ
lookup t [] = []
lookup t ((u, ids) ∷ mbt) = if u == t then ids else lookup t mbt

lookup-push_member :
    (t topic id : ℕ) (mbt : List (ℕ × List ℕ))
    → lookup t (push_member topic id mbt) ≡ lookup t mbt ++ times t (topic ∷ []) id
lookup-push_member t topic id [] = refl
lookup-push_member t topic id ((u, ids) ∷ mbt) = elim (Bool-cases (topic == u)) [
  | inl e ↦ elim (Bool-cases (u == t)) [
    | inl k ↦ let same : (topic == t) ≡ true = ground arith in rw (e, k, same) refl
    | inr k ↦
        let other : (topic == t) ≡ false = ground arith in
        rw (e, k, other) (sym (append-nil (lookup t mbt)))
  ]
  | inr e ↦ elim (Bool-cases (u == t)) [
    | inl k ↦
        let other : (topic == t) ≡ false = ground arith in rw (e, k, other) (sym (append-nil ids))
    | inr k ↦ rw (e, k) (lookup-push_member t topic id mbt)
  ]
]

times-cons :
    (t u : ℕ) (us : List ℕ) (id : ℕ) → times t (u ∷ us) id ≡ times t (u ∷ []) id ++ times t us id
times-cons t u us id = elim (Bool-cases (u == t)) [ inl e ↦ rw e refl | inr e ↦ rw e refl ]

lookup-push_topics :
    (t : ℕ) (topics : List ℕ) (id : ℕ) (mbt : List (ℕ × List ℕ))
    → lookup t (push_topics topics id mbt) ≡ lookup t mbt ++ times t topics id
lookup-push_topics t [] id mbt = sym (append-nil (lookup t mbt))
lookup-push_topics t (u ∷ us) id mbt =
    lookup-push_topics t us id (push_member u id mbt)
    ∙ ap (λ l. l ++ times t us id) (lookup-push_member t u id mbt)
    ∙ append_assoc (lookup t mbt) (times t (u ∷ []) id) (times t us id)
    ∙ ap (λ l. lookup t mbt ++ l) (sym (times-cons t u us id))

lookup-by_topic :
    (t : ℕ) (members mbt : List (ℕ × List ℕ))
    → lookup t (by_topic members mbt) ≡ lookup t mbt ++ asked_by t members
lookup-by_topic t [] mbt = sym (append-nil (lookup t mbt))
lookup-by_topic t ((id, topics) ∷ members) mbt =
    lookup-by_topic t members (push_topics topics id mbt)
    ∙ ap (λ l. l ++ asked_by t members) (lookup-push_topics t topics id mbt)
    ∙ append_assoc (lookup t mbt) (times t topics id) (asked_by t members)

-- What a plan has for a topic: nothing if nobody asks for it.
abbrev pub Fulfilled : Plan → ℕ → List ℕ → Option (List ℕ) → Type 0
Fulfilled p t [] parts = (m : ℕ) → p m t ≡ []
Fulfilled p t (id ∷ ids) parts = Served p t (id ∷ ids) parts

Fulfilled-Served :
    (p : Plan) (t : ℕ) (ids : List ℕ) (o : Option (List ℕ))
    → 0 < length ids
    → Served p t ids o
    → Fulfilled p t ids o
Fulfilled-Served p t [] o h s = absurd (omega arith)
Fulfilled-Served p t (id ∷ ids) o h s = s

Fulfilled-lookup :
    (p : Plan) (topics : ℕ → Option (List ℕ)) (t : ℕ) (mbt : List (ℕ × List ℕ))
    → IsMap mbt
    → AllServed p topics mbt
    → (IsFresh t (keys mbt) → (m : ℕ) → p m t ≡ [])
    → Fulfilled p t (lookup t mbt) (topics t)
Fulfilled-lookup p topics t [] h s f = f tt
Fulfilled-lookup p topics t ((u, ids) ∷ mbt) (fr, some_id, h) (s, ss) f =
    elim (Bool-cases (u == t)) [
      | inl e ↦ rw e (
          subst (λ z. Fulfilled p z ids (topics z)) ((==_iff u t).0 e)
            (Fulfilled-Served p u ids (topics u) some_id s))
      | inr e ↦ rw e (Fulfilled-lookup p topics t mbt h ss (λ fr. f (ground arith, fr)))
    ]

-- For any members, with the topics they ask for, and any partitions of the topics, the range strategy
-- comes to a plan. For a topic that members ask for and that is found, the partitions that the plan
-- has for these members, sorted and each once, are one after another the topic's partitions in their
-- order, and each of the members has their number divided by that of the members, or one more. For
-- every other topic, nobody has partitions.
pub plan-Fulfilled :
    (members : List (ℕ × List ℕ)) (topics : ℕ → Option (List ℕ))
    → (p : Plan) × (plan members topics ≡ some p)
      × ((t : ℕ) → Fulfilled p t (asked_by t members) (topics t))
plan-Fulfilled members topics =
    let (p, ran, served, others) = plan-AllServed members topics in
    (
      p,
      ran,
      λ t.
          subst (λ ids. Fulfilled p t ids (topics t)) (lookup-by_topic t members [])
            (Fulfilled-lookup p topics t (by_topic members []) (by_topic-IsMap members [] tt) served
              (λ fr m. others m t fr)),
    )
