-- ===== src/Lstl/Vector/Examples.antt =====
-- Runs of a vector.
use xjblg.Base.{
  ℕ, ◌-◌, ◌^◌, none, ◌≡◌, refl, some, List, [], ◌∷◌, ◌++◌, arith, length, get_elem?, take, drop,
  replicate,
}
use xjblg.Base.Maps.{put}
use xjblg.Lstl.Vector.{
  Vector, insert, resize, insert_moving, uninitialized_copy_from, uninitialized_fill_n, construct,
}
use xjblg.Lstl.Vector.Sequence.{Holds}
use xjblg.Lstl.Vector.Erasing.{resize-Holds}
use xjblg.Lstl.Vector.Growing.{insert-Holds}

abbrev three : List ℕ
three = 7 ∷ 8 ∷ 9 ∷ []

-- Three elements in storage for five, and in storage for three.
abbrev roomy : Vector ℕ
roomy = record { cells = get_elem? three; finish = 3; end_of_storage = 5 }

abbrev tight : Vector ℕ
tight = record { cells = get_elem? three; finish = 3; end_of_storage = 3 }

roomy-Holds : Holds three roomy
roomy-Holds = record { stored = refl; sized = refl; fits = omega arith }

tight-Holds : Holds three tight
tight-Holds = record { stored = refl; sized = refl; fits = omega arith }

insert-Holds_example :
    (v' : Vector ℕ) × (insert 1 2 4 roomy ≡ some v')
    × Holds (take 1 three ++ (replicate 2 4 ++ drop 1 three)) v'
insert-Holds_example =
    insert-Holds three roomy 1 2 4 roomy-Holds (omega arith) (omega arith) (omega arith)

resize-Holds_example :
    (v' : Vector ℕ) × (resize 4 0 tight ≡ some v')
    × Holds (take 4 three ++ replicate (4 - length three) 0) v'
resize-Holds_example = resize-Holds three tight 4 0 tight-Holds (omega arith) (omega arith)

-- 2^64 - 1 values, where the size of the new block wraps to 2.
wraps : insert 1 (2 ^ 64 - 1) 4 tight ≡ none
unfolding insert insert_moving uninitialized_copy_from uninitialized_fill_n construct put
wraps = refl
