-- ===== src/Core/Channel/Order.antt =====
-- The calls of get are served in their order, with the values in theirs.
use mathlib.Core.List.{append-nil, append_assoc}
use coev.Base.{ℕ, ◌≡◌, refl, sym, ap, ◌∙◌, List, [], ◌∷◌, ◌++◌, Option, none, some}
use coev.Base.{◌⊎◌, inl, inr}
use coev.Core.Async.{Async, suspend, event}
use coev.Core.Channel.{Box, pop_front, get, set, try_get, Use, gets, sets, tries}
use coev.Core.Channel.{use_one, use_all, sent, channel}

module _ {A : Type 0} where
  abbrev pub takers : List (ℕ × A) → List ℕ
  takers [] = []
  takers ((t, x) ∷ l) = t ∷ takers l

  abbrev pub taken : List (ℕ × A) → List A
  taken [] = []
  taken ((t, x) ∷ l) = x ∷ taken l

  abbrev getters : List ℕ → List (ℕ × (Box A → Option (Box A)))
  getters [] = []
  getters (t ∷ ts) = (t, pop_front t) ∷ getters ts

  -- The channel with the tasks that wait.
  abbrev pub state : List A → List (ℕ × A) → List ℕ → Async (Box A)
  state vs g ts = record { object = record { values = vs; got = g }; waiters = getters ts }

  getters-snoc :
      (ts : List ℕ) (t : ℕ) → getters ts ++ ((t, pop_front t) ∷ []) ≡ getters (ts ++ (t ∷ []))
  getters-snoc [] t = refl
  getters-snoc (u ∷ ts) t = ap (λ l. (u, pop_front u) ∷ l) (getters-snoc ts t)

  takers-snoc :
      (g : List (ℕ × A)) (t : ℕ) (x : A) → takers (g ++ ((t, x) ∷ [])) ≡ takers g ++ (t ∷ [])
  takers-snoc [] t x = refl
  takers-snoc ((u, y) ∷ g) t x = ap (λ l. u ∷ l) (takers-snoc g t x)

  taken-snoc : (g : List (ℕ × A)) (t : ℕ) (x : A) → taken (g ++ ((t, x) ∷ [])) ≡ taken g ++ (x ∷ [])
  taken-snoc [] t x = refl
  taken-snoc ((u, y) ∷ g) t x = ap (λ l. y ∷ l) (taken-snoc g t x)

  abbrev sent_one : Use A → List A
  sent_one (gets task) = []
  sent_one (sets x) = x ∷ []
  sent_one (tries task) = []

  -- No task waits beside a value.
  abbrev Settled : List A → List ℕ → Type 0
  Settled [] ts = Unit {0}
  Settled (x ∷ vs) [] = Unit {0}
  Settled (x ∷ vs) (t ∷ ts) = ⊥

  -- A call has its turn, and keeps the order.
  record Turn (u : Use A) (vs : List A) (g : List (ℕ × A)) (ts : List ℕ) : Type 0 where
    more : List ℕ
    vs' : List A
    g' : List (ℕ × A)
    ts' : List ℕ
    done : use_one u (state vs g ts) ≡ some (more, state vs' g' ts')
    tasks : takers g ++ (ts ++ more) ≡ takers g' ++ ts'
    values : taken g ++ (vs ++ sent_one u) ≡ taken g' ++ vs'
    settled : Settled vs' ts'

  -- A task that takes the front value.
  served :
      (u : Use A) (t : ℕ) (x : A) (vs : List A) (g : List (ℕ × A))
      → use_one u (state (x ∷ vs) g []) ≡ some (t ∷ [], state vs (g ++ ((t, x) ∷ [])) [])
      → sent_one u ≡ []
      → Turn u (x ∷ vs) g []
  served u t x vs g e no_value = record {
    more = t ∷ [];
    vs' = vs;
    g' = g ++ ((t, x) ∷ []);
    ts' = [];
    done = e;
    tasks = sym (append-nil (takers (g ++ ((t, x) ∷ []))) ∙ takers-snoc g t x);
    values =
        ap (λ l. taken g ++ ((x ∷ vs) ++ l)) no_value
        ∙ ap (λ l. taken g ++ (x ∷ l)) (append-nil vs)
        ∙ sym (append_assoc (taken g) (x ∷ []) vs)
        ∙ ap (λ l. l ++ vs) (sym (taken-snoc g t x));
    settled = settle vs;
  }
    where
      settle : (vs : List A) → Settled vs []
      settle [] = tt
      settle (x ∷ vs) = tt

  turn : (u : Use A) (vs : List A) (g : List (ℕ × A)) (ts : List ℕ) → Settled vs ts → Turn u vs g ts
  unfolding get set try_get suspend event
  turn (gets t) [] g ts h = record {
    more = t ∷ [];
    vs' = [];
    g' = g;
    ts' = ts ++ (t ∷ []);
    done =
        ap (λ ws. some (t ∷ [], record { object = record { values = []; got = g }; waiters = ws }))
          (getters-snoc ts t);
    tasks = refl;
    values = refl;
    settled = tt;
  }
  turn (gets t) (x ∷ vs) g [] h = served (gets t) t x vs g refl refl
  turn (gets t) (x ∷ vs) g (s ∷ ts) h = elim h [ ]
  turn (sets x) vs g [] h = record {
    more = [];
    vs' = vs ++ (x ∷ []);
    g' = g;
    ts' = [];
    done = refl;
    tasks = refl;
    values = refl;
    settled = settle (vs ++ (x ∷ []));
  }
    where
      settle : (vs : List A) → Settled vs []
      settle [] = tt
      settle (x ∷ vs) = tt
  turn (sets x) [] g (t ∷ ts) h = record {
    more = [];
    vs' = [];
    g' = g ++ ((t, x) ∷ []);
    ts' = ts;
    done = refl;
    tasks =
        ap (λ l. takers g ++ (t ∷ l)) (append-nil ts)
        ∙ sym (append_assoc (takers g) (t ∷ []) ts)
        ∙ ap (λ l. l ++ ts) (sym (takers-snoc g t x));
    values = sym (append-nil (taken (g ++ ((t, x) ∷ []))) ∙ taken-snoc g t x);
    settled = tt;
  }
  turn (sets x) (y ∷ vs) g (t ∷ ts) h = elim h [ ]
  turn (tries t) [] g ts h = record {
    more = [];
    vs' = [];
    g' = g;
    ts' = ts;
    done = refl;
    tasks = ap (λ l. takers g ++ l) (append-nil ts);
    values = refl;
    settled = tt;
  }
  turn (tries t) (x ∷ vs) g [] h = served (tries t) t x vs g refl refl
  turn (tries t) (x ∷ vs) g (s ∷ ts) h = elim h [ ]

  -- What a run of calls comes to: the tasks asked and the pairs got, in their orders, and the values
  -- and the tasks that are left.
  pub record Ordered (sent : List A) (o : Option (List ℕ × Async (Box A))) : Type 0 where
    pub asked : List ℕ
    pub left : List A
    pub pairs : List (ℕ × A)
    pub waiting : List ℕ
    pub ran : o ≡ some (asked, state left pairs waiting)
    pub in_turn : asked ≡ takers pairs ++ waiting
    pub in_order : sent ≡ taken pairs ++ left
    pub idle : (left ≡ []) ⊎ (waiting ≡ [])

  sent-cons : (u : Use A) (us : List (Use A)) → sent (u ∷ us) ≡ sent_one u ++ sent us
  sent-cons (gets t) us = refl
  sent-cons (sets x) us = refl
  sent-cons (tries t) us = refl

  idle_of : (vs : List A) (ts : List ℕ) → Settled vs ts → (vs ≡ []) ⊎ (ts ≡ [])
  idle_of [] ts h = inl refl
  idle_of (x ∷ vs) [] h = inr refl
  idle_of (x ∷ vs) (t ∷ ts) h = elim h [ ]

  from :
      (us : List (Use A)) (asked : List ℕ) (before vs : List A) (g : List (ℕ × A)) (ts : List ℕ)
      → Settled vs ts
      → asked ≡ takers g ++ ts
      → before ≡ taken g ++ vs
      → Ordered (before ++ sent us) (use_all us asked (state vs g ts))
  from [] asked before vs g ts h et ev = record {
    asked = asked;
    left = vs;
    pairs = g;
    waiting = ts;
    ran = refl;
    in_turn = et;
    in_order = append-nil before ∙ ev;
    idle = idle_of vs ts h;
  }
  from (u ∷ us) asked before vs g ts h et ev =
      let m = turn u vs g ts h in
      let next =
        from us (asked ++ m.more) (before ++ sent_one u) m.vs' m.g' m.ts' m.settled
          (ap (λ l. l ++ m.more) et ∙ append_assoc (takers g) ts m.more ∙ m.tasks)
          (ap (λ l. l ++ sent_one u) ev ∙ append_assoc (taken g) vs (sent_one u) ∙ m.values) in
      record {
        asked = next.asked;
        left = next.left;
        pairs = next.pairs;
        waiting = next.waiting;
        in_turn = next.in_turn;
        idle = next.idle;
        ran =
            ap (λ o. elim o [ none ↦ none | some (more, a') ↦ use_all us (asked ++ more) a' ])
              m.done
            ∙ next.ran;
        in_order =
            ap (λ l. before ++ l) (sent-cons u us)
            ∙ sym (append_assoc before (sent_one u) (sent us))
            ∙ next.in_order;
      }

  -- In any order of calls, no value is taken from an empty channel; the tasks whose get, or
  -- successful try_get, has had its turn are those that have a value, in the order of their turns,
  -- and then those that wait; the values sent are those taken, in their order, and then those left;
  -- and no value is left while a task waits.
  pub delivered_in_order : (us : List (Use A)) → Ordered (sent us) (use_all us [] channel)
  delivered_in_order us = from us [] [] [] [] [] tt refl refl
