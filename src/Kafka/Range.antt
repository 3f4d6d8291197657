-- ===== src/Kafka/Range.antt =====
-- The range strategy, balance_strategy.cpp of src/coev_kafka: how the members of a consumer group
-- share the partitions of a topic. A member is a number, in the order of the members' ids, and a
-- topic is a number. A vector has fewer than 2 ^ 31 items, so that no int wraps around.
pub mod Shares
pub mod Unique
pub mod Whole
pub mod Subscribers
use coev.Base.{ℕ, zero, suc, ◌+◌, ◌-◌, ◌*◌, ◌/◌, ◌%◌, ◌==◌, ltb, leb, if◌then◌else◌, ◌&&◌}
use coev.Base.{List, [], ◌∷◌, ◌++◌, length, take, drop, Option, none, some}

-- The partitions of each member and topic. A missing entry is [], and none is stored empty.
abbrev pub Plan : Type 0
Plan = ℕ → ℕ → List ℕ

unfoldable pub add_to_plan : Plan → ℕ → ℕ → List ℕ → Plan
add_to_plan p member topic [] = p
add_to_plan p member topic (x ∷ l) =
    λ m t. if (m == member) && (t == topic) then p m t ++ (x ∷ l) else p m t

-- A vector of the items from min up to max; `none` is outside of the vector.
abbrev pub slice : ℕ → ℕ → List ℕ → Option (List ℕ)
slice min max l = if leb max (length l) then some (take (max - min) (drop min l)) else none

abbrev pub smaller : ℕ → ℕ → ℕ
smaller a b = if ltb b a then b else a

abbrev pub extra : ℕ → ℕ → ℕ
extra r i = if ltb i r then 1 else 0

abbrev pub added : Option (List ℕ) → Plan → ℕ → ℕ → Option Plan
added none plan member topic = none
added (some l) plan member topic = some (add_to_plan plan member topic l)

-- The loop over the members from the i-th on, with q partitions for each and r more.
abbrev pub assign : (ids : List ℕ) (i q r topic : ℕ) → List ℕ → Plan → Option Plan
assign [] i q r topic partitions plan = some plan
assign (id ∷ ids) i q r topic partitions plan =
    let min = i * q + smaller r i in
    elim (added (slice min (min + q + extra r i) partitions) plan id topic) [
      | none ↦ none
      | some plan' ↦ assign ids (suc i) q r topic partitions plan'
    ]

-- std::sort
abbrev pub insert : ℕ → List ℕ → List ℕ
insert x [] = x ∷ []
insert x (y ∷ l) = if leb x y then x ∷ y ∷ l else y ∷ insert x l

abbrev pub sort : List ℕ → List ℕ
sort [] = []
sort (x ∷ l) = insert x (sort l)

-- The function core of the strategy; a division by 0 is `none`. The casts of the two sizes to int keep
-- them, as there are fewer than 2 ^ 31 members and partitions.
unfoldable pub core : Plan → List ℕ → ℕ → List ℕ → Option Plan
core plan member_ids topic partitions =
    if length member_ids == 0
    then none
    else assign (sort member_ids) 0 (length partitions / length member_ids)
        (length partitions % length member_ids) topic partitions plan

-- std::unique on sorted items, from behind one that is kept.
abbrev pub skip : ℕ → List ℕ → List ℕ
skip x [] = []
skip x (y ∷ l) = if x == y then skip x l else y ∷ skip y l

abbrev pub unique : List ℕ → List ℕ
unique [] = []
unique (x ∷ l) = x ∷ skip x l

unfoldable pub uniq : List ℕ → List ℕ
uniq ss = if ltb (length ss) 2 then ss else unique (sort ss)

-- `mbt[topic].push_back(memberId)`, in an association list with the topics in no special order.
abbrev pub push_member : ℕ → ℕ → List (ℕ × List ℕ) → List (ℕ × List ℕ)
push_member topic id [] = (topic, id ∷ []) ∷ []
push_member topic id ((t, ids) ∷ rest) =
    if topic == t then (t, ids ++ (id ∷ [])) ∷ rest else (t, ids) ∷ push_member topic id rest

abbrev pub push_topics : List ℕ → ℕ → List (ℕ × List ℕ) → List (ℕ × List ℕ)
push_topics [] id mbt = mbt
push_topics (topic ∷ topics) id mbt = push_topics topics id (push_member topic id mbt)

-- mbt, from the members with their topics.
abbrev pub by_topic : List (ℕ × List ℕ) → List (ℕ × List ℕ) → List (ℕ × List ℕ)
by_topic [] mbt = mbt
by_topic ((id, topics) ∷ members) mbt = by_topic members (push_topics topics id mbt)

-- The loop over mbt; a topic that is not found is passed over.
abbrev pub plan_topics : List (ℕ × List ℕ) → (ℕ → Option (List ℕ)) → Plan → Option Plan
plan_topics [] topics p = some p
plan_topics ((topic, ids) ∷ mbt) topics p = elim (topics topic) [
  | none ↦ plan_topics mbt topics p
  | some partitions ↦ elim (core p (uniq ids) topic partitions) [
    | none ↦ none
    | some p' ↦ plan_topics mbt topics p'
  ]
]

abbrev pub no_plan : Plan
no_plan = λ m t. []

-- balanceStrategy::Plan, where topics finds the partitions of a topic.
unfoldable pub plan : List (ℕ × List ℕ) → (ℕ → Option (List ℕ)) → Option Plan
plan members topics = plan_topics (by_topic members []) topics no_plan
