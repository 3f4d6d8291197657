-- ===== src/Core/Mutex/Exclusion.antt =====
-- No two tasks own the mutex at once, and a waiter never sleeps beside a free one.
use coev.Base.{ℕ, ◌≤◌, ◌≡◌, ◌≢◌, refl, sym, ap, ◌∙◌, arith}
use coev.Base.{List, [], ◌∷◌, ◌++◌, length, true, false, Option, none, some}
use mathlib.Core.Path.{subst}
use coev.Base.{◌↔◌}
use coev.Core.Async.{Async, suspend, event, popped, called}
use coev.Core.Mutex.{on, off, lock, unlock, try_lock, Shared, Step, Reach}
use coev.Core.Mutex.{locks, waits, tries, fails, frees, hands, start, later}

-- Every waiter's getter takes the flag.
abbrev Takes : List (ℕ × (ℕ → Option ℕ)) → Type 0
Takes [] = Unit {0}
Takes ((task, getter) ∷ ws) = ((flag : ℕ) → getter flag ≡ some on) × Takes ws

-- A free mutex has no owner and no waiter; a taken one has one owner.
abbrev State : ℕ → List ℕ → List (ℕ × (ℕ → Option ℕ)) → Type 0
State flag [] ws = (flag ≡ off) × (ws ≡ [])
State flag (o ∷ []) ws = flag ≡ on
State flag (o ∷ p ∷ os) ws = ⊥

pub record Inv (s : Shared) : Type 0 where
  pub state : State s.inner.object s.owners s.inner.waiters
  pub takes : Takes s.inner.waiters

Takes-snoc :
    (ws : List (ℕ × (ℕ → Option ℕ))) (task : ℕ) (getter : ℕ → Option ℕ)
    → ((flag : ℕ) → getter flag ≡ some on)
    → Takes ws
    → Takes (ws ++ ((task, getter) ∷ []))
Takes-snoc [] task getter h t = (h, tt)
Takes-snoc ((k, g) ∷ ws) task getter h (e, t) = (e, Takes-snoc ws task getter h t)

lock_free :
    (task : ℕ) (a a' : Async ℕ)
    → lock task a ≡ some (true, a')
    → (a.object ≢ on) × (a' ≡ record a { object = on })
unfolding lock suspend
lock_free task a a' e = ground arith

lock_taken :
    (task : ℕ) (a a' : Async ℕ)
    → lock task a ≡ some (false, a')
    → (a.object ≡ on) × (a' ≡ record a { waiters = a.waiters ++ ((task, λ flag. some on) ∷ []) })
unfolding lock suspend
lock_taken task a a' e = ground arith

try_free :
    (a a' : Async ℕ) → try_lock a ≡ (true, a') → (a.object ≢ on) × (a' ≡ record a { object = on })
unfolding try_lock
try_free a a' e = ground arith

try_taken : (a a' : Async ℕ) → try_lock a ≡ (false, a') → a' ≡ a
unfolding try_lock
try_taken a a' e = ground arith

unlocked :
    (ws : List (ℕ × (ℕ → Option ℕ))) (a' : Async ℕ)
    → popped off ws ≡ some (none, a')
    → (ws ≡ []) × (a' ≡ record { object = off; waiters = [] })
unlocked [] a' e = ground arith
unlocked ((k, g) ∷ ws) a' e = ground arith

handed :
    (k : ℕ) (ws : List (ℕ × (ℕ → Option ℕ))) (o : Option ℕ) (next : ℕ) (a' : Async ℕ)
    → o ≡ some on
    → called k ws o ≡ some (some next, a')
    → (next ≡ k) × (a' ≡ record { object = on; waiters = ws })
handed k ws o next a' h e = ground arith

-- A mutex that its one owner hands on.
handed-Takes :
    (ws : List (ℕ × (ℕ → Option ℕ))) (next : ℕ) (a' : Async ℕ)
    → Takes ws
    → popped off ws ≡ some (some next, a')
    → (a'.object ≡ on) × Takes a'.waiters
handed-Takes [] next a' t e = ground arith
handed-Takes ((k, g) ∷ ws) next a' (h, t) e =
    let r = handed k ws (g off) next a' (h off) e in
    (ap (λ b. b.object) (r.1), subst (λ b. Takes b.waiters) (sym (r.1)) t)

idle :
    (flag : ℕ) (os : List ℕ) (ws : List (ℕ × (ℕ → Option ℕ)))
    → State flag os ws
    → flag ≢ on
    → (os ≡ []) × (ws ≡ [])
idle flag [] ws st h = (refl, st.1)
idle flag (o ∷ []) ws st h = absurd (h st)
idle flag (o ∷ (p ∷ os)) ws st h = elim st [ ]

alone :
    (flag task : ℕ) (rest os : List ℕ) (ws : List (ℕ × (ℕ → Option ℕ)))
    → State flag os ws
    → os ≡ task ∷ rest
    → rest ≡ []
alone flag task rest [] ws st e = ground arith
alone flag task rest (o ∷ []) ws st e = ground arith
alone flag task rest (o ∷ (p ∷ os)) ws st e = elim st [ ]

Inv-of :
    {t : Shared} (flag : ℕ) (os : List ℕ) (ws : List (ℕ × (ℕ → Option ℕ)))
    → t ≡ record { inner = record { object = flag; waiters = ws }; owners = os }
    → State flag os ws
    → Takes ws
    → Inv t
Inv-of {t} flag os ws q st ta = subst Inv (sym q) (record { state = st; takes = ta })

State-waits :
    (flag : ℕ) (os : List ℕ) (ws ws' : List (ℕ × (ℕ → Option ℕ)))
    → State flag os ws
    → flag ≡ on
    → State flag os ws'
State-waits flag [] ws ws' st h = ground arith
State-waits flag (o ∷ []) ws ws' st h = st
State-waits flag (o ∷ (p ∷ os)) ws ws' st h = elim st [ ]

-- The lone owner that takes a free mutex.
took :
    {s t : Shared} (task : ℕ) (a : Async ℕ)
    → Inv s
    → s.inner.object ≢ on
    → a ≡ record s.inner { object = on }
    → t ≡ record { inner = a; owners = task ∷ s.owners }
    → Inv t
took {s} {t} task a i free e q =
    let (no_owner, none_waits) = idle s.inner.object s.owners s.inner.waiters i.state free in
    Inv-of on (task ∷ []) s.inner.waiters
      (q
        ∙ ap (λ b. record { inner = b; owners = task ∷ s.owners }) e
        ∙ ap (λ os. record { inner = record s.inner { object = on }; owners = task ∷ os }) no_owner)
      refl i.takes

Step-Inv : {s t : Shared} → Step s t → Inv s → Inv t
unfolding unlock event
Step-Inv {s} {t} (locks task a e q) i =
    let (free, e') = lock_free task s.inner a e in took task a i free e' q
Step-Inv {s} {t} (waits task a e q) i =
    let (taken, e') = lock_taken task s.inner a e in
    let getter : ℕ → Option ℕ = λ flag. some on in
    let ws : List (ℕ × (ℕ → Option ℕ)) = s.inner.waiters ++ ((task, getter) ∷ []) in
    Inv-of s.inner.object s.owners ws (q ∙ ap (λ b. record s { inner = b }) e')
      (State-waits s.inner.object s.owners s.inner.waiters ws i.state taken)
      (Takes-snoc s.inner.waiters task getter (λ flag. refl) i.takes)
Step-Inv {s} {t} (tries task a e q) i =
    let (free, e') = try_free s.inner a e in took task a i free e' q
Step-Inv {s} {t} (fails task a e q) i =
    subst Inv (sym (q ∙ ap (λ b. record s { inner = b }) (try_taken s.inner a e))) i
Step-Inv {s} {t} (frees task rest a o e q) i =
    let none_left = alone s.inner.object task rest s.owners s.inner.waiters i.state o in
    let (no_waiter, e') = unlocked s.inner.waiters a e in
    Inv-of off [] []
      (q
        ∙ ap (λ b. record { inner = b; owners = rest }) e'
        ∙ ap (λ os. record { inner = record { object = off; waiters = [] }; owners = os })
            none_left)
      (refl, refl) tt
Step-Inv {s} {t} (hands task next rest a o e q) i =
    let none_left = alone s.inner.object task rest s.owners s.inner.waiters i.state o in
    let (flag, ta) = handed-Takes s.inner.waiters next a i.takes e in
    Inv-of a.object (next ∷ []) a.waiters
      (q ∙ ap (λ os. record { inner = a; owners = next ∷ os }) none_left) flag ta

pub Reach-Inv : {s : Shared} → Reach s → Inv s
Reach-Inv start = record { state = (refl, refl); takes = tt }
Reach-Inv (later r st) = Step-Inv st (Reach-Inv r)

exclusive :
    (flag : ℕ) (os : List ℕ) (ws : List (ℕ × (ℕ → Option ℕ)))
    → State flag os ws
    → (length os ≤ 1) × ((flag ≡ on) ↔ (length os ≡ 1)) × ((flag ≢ on) → ws ≡ [])
exclusive flag [] ws st = ground arith
exclusive flag (o ∷ []) ws st = ground arith
exclusive flag (o ∷ (p ∷ os)) ws st = elim st [ ]

-- Whatever tasks lock, try and unlock, in whatever order, where only owners unlock: there is one
-- owner at most, the flag is on exactly while there is one, and no task waits while it is off.
pub mutual_exclusion :
    (s : Shared)
    → Reach s
    → (length s.owners ≤ 1)
      × ((s.inner.object ≡ on) ↔ (length s.owners ≡ 1))
      × ((s.inner.object ≢ on) → s.inner.waiters ≡ [])
mutual_exclusion s r = exclusive s.inner.object s.owners s.inner.waiters ((Reach-Inv r).state)
