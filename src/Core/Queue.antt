-- ===== src/Core/Queue.antt =====
-- queue.h and queue.cpp of src/coev: the intrusive list of which events, promises and clients are
-- nodes. An object is its address; a queue is a node of its own ring.
pub mod Chain
pub mod Ring
pub mod Refine
use coev.Base.{ℕ, ◌==◌, if◌then◌else◌, Bool, true, false, ◌&&◌, ◌||◌, Option, none, some}

-- m_next and m_prev of the object at each address.
pub record Memory : Type 0 where
  pub next : ℕ → ℕ
  pub prev : ℕ → ℕ

abbrev pub write : (ℕ → ℕ) → ℕ → ℕ → ℕ → ℕ
write f p v x = if x == p then v else f x

abbrev pub set_next : ℕ → ℕ → Memory → Memory
set_next p v m = record m { next = write m.next p v }

abbrev pub set_prev : ℕ → ℕ → Memory → Memory
set_prev p v m = record m { prev = write m.prev p v }

-- `none` is a failed assertion.
unfoldable pub list_add : (new prev next : ℕ) → Memory → Option Memory
list_add new prev next m =
    if (m.next prev == new) || (m.prev next == new)
    then none
    else some (set_prev new prev (set_next new next (set_next prev new (set_prev next new m))))

unfoldable pub list_del : (prev next : ℕ) → Memory → Memory
list_del prev next m = set_next prev next (set_prev next prev m)

unfoldable pub list_clear : ℕ → Memory → Memory
list_clear q m = set_next q q (set_prev q q m)

unfoldable pub is_empty : ℕ → Memory → Bool
is_empty q m = (m.prev q == q) && (m.next q == q)

unfoldable pub list_move : (this prev next : ℕ) → Memory → Option Memory
list_move this prev next m =
    if is_empty this m
    then some (set_prev this prev (set_next this next (set_next prev this (set_prev next this m))))
    else none

unfoldable pub push_front : ℕ → ℕ → Memory → Option Memory
push_front q new m = list_add new q (m.next q) m

unfoldable pub push_back : ℕ → ℕ → Memory → Option Memory
push_back q new m = list_add new (m.prev q) q m

unfoldable pub erase : ℕ → Memory → Memory
erase old m = list_clear old (list_del (m.prev old) (m.next old) m)

-- A null pointer is `none`.
unfoldable pub pop_front : ℕ → Memory → Option ℕ × Memory
pop_front q m = if is_empty q m then (none, m) else (some (m.next q), erase (m.next q) m)

unfoldable pub pop_back : ℕ → Memory → Option ℕ × Memory
pop_back q m = if is_empty q m then (none, m) else (some (m.prev q), erase (m.prev q) m)

abbrev pub moved : Option Memory → ℕ → Option (Bool × Memory)
moved none q = none
moved (some m) q = some (true, list_clear q m)

unfoldable pub move_to : ℕ → ℕ → Memory → Option (Bool × Memory)
move_to q new m =
    if is_empty q m
    then some (false, m)
    else if is_empty new m
    then moved (list_move new (m.prev q) (m.next q) m) q
    else some (false, m)
