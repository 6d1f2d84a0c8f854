-- ===== src/Lstl/Linked.antt =====
-- LSTL/list.h: the doubly linked list with a node of its own at its end. A node is a number; the memory
-- holds the two links of each node, and what stands in it. The address that `getNode` returns is an
-- argument. `none` is the use of a node that is not there.
pub mod Chain
pub mod Inserting
pub mod Erasing
pub mod Clearing
mod Examples
use xjblg.Base.{
  ℕ, zero, suc, Bool, true, false, Option, none, some, List, [], ◌∷◌, ◌==◌, if◌then◌else◌, ◌>>=◌,
  ◌>>◌, assert,
}
use xjblg.Base.Maps.{put}

-- No memory, a node whose data is not constructed, or a node with a value.
pub data Cell {ℓ} (A : Type ℓ) : Type ℓ where
  absent raw : Cell A
  object : A → Cell A

pub record Memory {ℓ} (A : Type ℓ) : Type ℓ where
  pub next : ℕ → ℕ
  pub prev : ℕ → ℕ
  pub cells : ℕ → Cell A

module _ {A : Type 0} where
  unfoldable pub is_held : Cell A → Bool
  is_held absent = false
  is_held raw = true
  is_held (object a) = true

  unfoldable pub value_of : Cell A → Option A
  value_of (object a) = some a
  value_of _ = none

  -- `p->next = q` and `p->prev = q`.
  unfoldable pub set_next : ℕ → ℕ → Memory A → Option (Memory A)
  set_next p q h = assert (is_held (h.cells p)) >> some (record h { next = put h.next p q })

  unfoldable pub set_prev : ℕ → ℕ → Memory A → Option (Memory A)
  set_prev p q h = assert (is_held (h.cells p)) >> some (record h { prev = put h.prev p q })

  -- `p->next` and `p->prev`.
  unfoldable pub get_next : ℕ → Memory A → Option ℕ
  get_next p h = assert (is_held (h.cells p)) >> some (h.next p)

  unfoldable pub get_prev : ℕ → Memory A → Option ℕ
  get_prev p h = assert (is_held (h.cells p)) >> some (h.prev p)

  -- The constructor of the list, with the address of its node.
  unfoldable pub make : ℕ → Memory A → Memory A
  make node h = record {
    next = put h.next node node;
    prev = put h.prev node node;
    cells = put h.cells node raw;
  }

  unfoldable pub create_node : ℕ → A → Memory A → Memory A
  create_node n v h = record h { cells = put h.cells n (object v) }

  unfoldable pub destroy_node : ℕ → Memory A → Option (Memory A)
  destroy_node p h = do v ← value_of (h.cells p); some (record h { cells = put h.cells p absent })

  -- `insert(position, v)`, which returns the new node.
  unfoldable pub insert : ℕ → A → ℕ → Memory A → Option (Memory A)
  insert position v n h = do
    let h1 = create_node n v h
    h2 ← set_next n position h1
    before ← get_prev position h2
    h3 ← set_prev n before h2
    before' ← get_prev position h3
    h4 ← set_next before' n h3
    set_prev position n h4

  -- `insert(position, first, end)` over the values of an array, and the addresses of their nodes.
  unfoldable pub insert_all : ℕ → List A → List ℕ → Memory A → Option (Memory A)
  insert_all position [] ns h = some h
  insert_all position (v ∷ vs) [] h = none
  insert_all position (v ∷ vs) (n ∷ ns) h = do
    h' ← insert position v n h
    insert_all position vs ns h'

  unfoldable pub push_front : ℕ → A → ℕ → Memory A → Option (Memory A)
  push_front node v n h = do first ← get_next node h; insert first v n h

  unfoldable pub push_back : ℕ → A → ℕ → Memory A → Option (Memory A)
  push_back node v n h = insert node v n h

  -- `erase(position)`, which returns the node behind it.
  unfoldable pub erase : ℕ → Memory A → Option (ℕ × Memory A)
  erase position h = do
    after ← get_next position h
    before ← get_prev position h
    h1 ← set_next before after h
    h2 ← set_prev after before h1
    h3 ← destroy_node position h2
    some (after, h3)

  unfoldable pub pop_front : ℕ → Memory A → Option (Memory A)
  pop_front node h = do first ← get_next node h; (after, h') ← erase first h; some h'

  unfoldable pub empty : ℕ → Memory A → Option Bool
  empty node h = do first ← get_next node h; some (first == node)

  unfoldable pub front : ℕ → Memory A → Option A
  front node h = do first ← get_next node h; value_of (h.cells first)

  -- The loop of `clear`, on fuel.
  unfoldable pub clear_loop : ℕ → ℕ → ℕ → Memory A → Option (Memory A)
  clear_loop zero node n h = none
  clear_loop (suc fuel) node n h =
      if n == node
      then some h
      else (do after ← get_next n h; h' ← destroy_node n h; clear_loop fuel node after h')

  unfoldable pub clear : ℕ → ℕ → Memory A → Option (Memory A)
  clear fuel node h = do
    first ← get_next node h
    h1 ← clear_loop fuel node first h
    h2 ← set_next node node h1
    set_prev node node h2
