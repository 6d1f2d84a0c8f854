-- ===== src/Lstl/Vector.antt =====
-- LSTL/vector.h, with the loops of algorithm.h and uninitalized.h that it calls. A pointer is an index
-- behind `start`; a cell holds a constructed object or none. `none` is a read of, or an assignment to, a
-- cell that holds no object, or a construction behind the end of the storage. Constructors do not throw.
pub mod Loops
pub mod Sequence
pub mod Inserting
pub mod Growing
pub mod Erasing
pub mod Examples
use xjblg.Base.{
  ℕ, zero, suc, ◌+◌, ◌-◌, ◌*◌, Bool, Option, none, some, ltb, leb, ◌==◌, not, if◌then◌else◌, ◌>>=◌,
}
use xjblg.Base.Maps.{put}
use xjblg.Base.Words.{add_size, mul_size}

-- The cells of a block of memory.
abbrev pub Cells {ℓ} : Type ℓ → Type ℓ
Cells A = ℕ → Option A

module _ {ℓ} {A : Type ℓ} where
  -- `*p = v`, and `construct(p, v)` in a block with `room` cells.
  pub assign_cell : ℕ → A → Cells A → Option (Cells A)
  assign_cell p v m = m p >>= λ _. some (put m p (some v))

  pub construct : ℕ → ℕ → A → Cells A → Option (Cells A)
  construct room p v m = if ltb p room then some (put m p (some v)) else none

  -- `copy(first, first + n, ret)`.
  pub copy : ℕ → ℕ → ℕ → Cells A → Option (Cells A)
  unfolding assign_cell
  copy zero first ret m = some m
  copy (suc n) first ret m = do
    v ← m first
    m' ← assign_cell ret v m
    copy n (first + 1) (ret + 1) m'

  -- `copy_backward(end - n, end, ret)`.
  pub copy_backward : ℕ → ℕ → ℕ → Cells A → Option (Cells A)
  unfolding assign_cell
  copy_backward zero end ret m = some m
  copy_backward (suc n) end ret m = do
    v ← m (end - 1)
    m' ← assign_cell (ret - 1) v m
    copy_backward n (end - 1) (ret - 1) m'

  -- `fill(first, first + n, v)`.
  pub fill : ℕ → ℕ → A → Cells A → Option (Cells A)
  unfolding assign_cell
  fill zero first v m = some m
  fill (suc n) first v m = assign_cell first v m >>= fill n (first + 1) v

  -- `uninitialized_copy(first, first + n, ret)` inside a block.
  pub uninitialized_copy : ℕ → ℕ → ℕ → ℕ → Cells A → Option (Cells A)
  unfolding construct
  uninitialized_copy room zero first ret m = some m
  uninitialized_copy room (suc n) first ret m = do
    v ← m first
    m' ← construct room ret v m
    uninitialized_copy room n (first + 1) (ret + 1) m'

  -- `uninitialized_copy` from another block.
  pub uninitialized_copy_from : Cells A → ℕ → ℕ → ℕ → ℕ → Cells A → Option (Cells A)
  unfolding construct
  uninitialized_copy_from src room zero first ret m = some m
  uninitialized_copy_from src room (suc n) first ret m = do
    v ← src first
    m' ← construct room ret v m
    uninitialized_copy_from src room n (first + 1) (ret + 1) m'

  -- `uninitialized_fill_n(first, n, v)`.
  pub uninitialized_fill_n : ℕ → ℕ → ℕ → A → Cells A → Option (Cells A)
  unfolding construct
  uninitialized_fill_n room zero first v m = some m
  uninitialized_fill_n room (suc n) first v m =
      construct room first v m >>= uninitialized_fill_n room n (first + 1) v

module _ {ℓ} {A : Type ℓ} where
  -- `destroy(first, first + n)`.
  pub destroy : ℕ → ℕ → Cells A → Cells A
  destroy zero first m = m
  destroy (suc n) first m = destroy n (first + 1) (put m first none)

pub record Vector {ℓ} (A : Type ℓ) : Type ℓ where
  pub cells : ℕ → Option A
  pub finish : ℕ
  pub end_of_storage : ℕ

module _ {ℓ} {A : Type ℓ} where
  -- `insert` where the storage has room: the elements behind `position` move in two parts if there are
  -- more of them than new ones.
  pub insert_in_place : ℕ → ℕ → A → Vector A → Option (Vector A)
  unfolding copy_backward fill uninitialized_copy uninitialized_fill_n
  insert_in_place position n value v =
      let room = v.end_of_storage in
      let elems = v.finish - position in
      let cells =
        if ltb n elems
        then (uninitialized_copy room n (v.finish - n) v.finish v.cells >>= λ m1.
            copy_backward (v.finish - n - position) (v.finish - n) v.finish m1 >>= λ m2.
            fill n position value m2)
        else (uninitialized_fill_n room (n - elems) v.finish value v.cells >>= λ m1.
            uninitialized_copy room elems position (v.finish + (n - elems)) m1 >>= λ m2.
            fill elems position value m2) in
      cells >>= λ m. some (record v { cells = m; finish = v.finish + n })

  -- `insert` where the elements move to a new block of `size` cells.
  pub insert_moving : ℕ → ℕ → ℕ → A → Vector A → Option (Vector A)
  unfolding uninitialized_copy_from uninitialized_fill_n
  insert_moving size position n value v = do
    m1 ← uninitialized_copy_from v.cells size position 0 0 (λ p. none)
    m2 ← uninitialized_fill_n size n position value m1
    m3 ← uninitialized_copy_from v.cells size (v.finish - position) position (position + n) m2
    some (record { cells = m3; finish = v.finish + n; end_of_storage = size })

  -- `insert(position, n, value)`; the size of the new block is a sum of `size_t`.
  pub insert : ℕ → ℕ → A → Vector A → Option (Vector A)
  unfolding insert_in_place insert_moving
  insert position n value v =
      if n == 0
      then some v
      else if leb n (v.end_of_storage - v.finish)
      then insert_in_place position n value v
      else insert_moving (add_size v.finish (if ltb n v.finish then v.finish else n)) position n
          value v

  -- The second half of `insert_aux(position, value)`, where the storage is full.
  pub insert_aux_moving : ℕ → A → Vector A → Option (Vector A)
  unfolding uninitialized_copy_from construct
  insert_aux_moving position value v =
      let size = if v.finish == 0 then 1 else mul_size 2 v.finish in
      uninitialized_copy_from v.cells size position 0 0 (λ p. none) >>= λ m1.
      construct size position value m1 >>= λ m2.
      uninitialized_copy_from v.cells size (v.finish - position) position (position + 1) m2
      >>= λ m3. some (record { cells = m3; finish = v.finish + 1; end_of_storage = size })

  -- `push_back`.
  pub push_back : A → Vector A → Option (Vector A)
  unfolding construct insert_aux_moving
  push_back value v =
      if v.finish == v.end_of_storage
      then insert_aux_moving v.finish value v
      else (construct v.end_of_storage v.finish value v.cells >>= λ m.
          some (record v { cells = m; finish = v.finish + 1 }))

  -- `pop_back`; without elements it takes the cell in front of the block.
  pub pop_back : Vector A → Option (Vector A)
  unfolding destroy
  pop_back v =
      if v.finish == 0
      then none
      else some (record v { cells = destroy 1 (v.finish - 1) v.cells; finish = v.finish - 1 })

  -- `erase(first, last)`.
  pub erase_range : ℕ → ℕ → Vector A → Option (Vector A)
  unfolding copy destroy
  erase_range first last v = do
    let kept = v.finish - last
    m ← copy kept last first v.cells
    some (record v {
      cells = destroy (v.finish - (first + kept)) (first + kept) m;
      finish = v.finish - (last - first);
    })

  -- `erase(position)`.
  pub erase : ℕ → Vector A → Option (Vector A)
  unfolding copy destroy
  erase position v = do
    m ←
        if position + 1 == v.finish
        then some v.cells
        else copy (v.finish - (position + 1)) (position + 1) position v.cells
    some (record v { cells = destroy 1 (v.finish - 1) m; finish = v.finish - 1 })

  -- `clear`.
  pub clear : Vector A → Option (Vector A)
  unfolding erase_range
  clear v = erase_range 0 v.finish v

  -- `resize`.
  pub resize : ℕ → A → Vector A → Option (Vector A)
  unfolding erase_range insert
  resize size value v =
      if ltb size v.finish
      then erase_range size v.finish v
      else insert v.finish (size - v.finish) value v
