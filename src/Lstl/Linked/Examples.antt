-- ===== src/Lstl/Linked/Examples.antt =====
-- A list of two values.
use xjblg.Base.{ℕ, ◌≡◌, refl, some, [], ◌∷◌, arith, ◌==◌, if◌then◌else◌}
use xjblg.Lstl.Linked.{absent, raw, object, Memory, insert, erase, clear}
use xjblg.Lstl.Linked.Inserting.{Ring, insert-Ring}
use xjblg.Lstl.Linked.Erasing.{erase-Ring}
use xjblg.Lstl.Linked.Clearing.{AreFreed, clear-Ring}

-- The node 5 with the value 50, then the node 6 with the value 60, behind the list's own node 4.
abbrev two : Memory ℕ
two = record {
  next = λ n. if n == 4 then 5 else if n == 5 then 6 else 4;
  prev = λ n. if n == 4 then 6 else if n == 5 then 4 else 5;
  cells = λ n.
      if n == 4 then raw else if n == 5 then object 50 else if n == 6 then object 60 else absent;
}

two-Ring : Ring two 4 ((5, 50) ∷ (6, 60) ∷ [])
two-Ring = record {
  chain = (refl, refl, refl, (refl, refl, refl, (refl, refl)));
  apart = omega arith;
  away = omega arith;
  sentinel = refl;
}

insert-Ring_example :
    (h' : Memory ℕ) × (insert 6 55 7 two ≡ some h') × Ring h' 4 ((5, 50) ∷ (7, 55) ∷ (6, 60) ∷ [])
insert-Ring_example = insert-Ring two 4 ((5, 50) ∷ []) ((6, 60) ∷ []) 55 7 two-Ring refl

erase-Ring_example :
    (h' : Memory ℕ) × (erase 5 two ≡ some (6, h'))
    × Ring h' 4 ((6, 60) ∷ [])
    × (h'.cells 5 ≡ absent)
erase-Ring_example = erase-Ring two 4 5 50 [] ((6, 60) ∷ []) two-Ring

clear-Ring_example :
    (h' : Memory ℕ) × (clear 3 4 two ≡ some h')
    × Ring h' 4 []
    × AreFreed h' ((5, 50) ∷ (6, 60) ∷ [])
    × (h'.cells 9 ≡ absent)
clear-Ring_example =
    clear-Ring 3 two 4 ((5, 50) ∷ (6, 60) ∷ []) 9 (omega arith) two-Ring (omega arith)
