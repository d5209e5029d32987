-- ===== src/Vector/Tests.antt =====
-- A full vector of two numbers, and a vector that was moved from.
use radish_os.Prelude.{
  ℕ, ◌≤◌, ◌≡◌, refl, ◌⊎◌, some, List, [], ◌∷◌, ◌++◌, arith, true, false, length,
}
use radish_os.Outcome.{ok, panic, index_out_of_range}
use radish_os.Vector.{Vector, push_back, pop_back, erase, at, resize, moved}
use radish_os.Vector.Slots.{Holds}
use radish_os.Vector.Push.{push_back_lem, push_back-no_capacity}
use radish_os.Vector.Remove.{pop_back-push_back, erase_lem}
use radish_os.Vector.Resize.{resize_lem}

abbrev two : Vector ℕ
two = record { buf = record { slots = some 5 ∷ some 6 ∷ [] }; obj_count = 2; capacity = 2 }

abbrev numbers : List ℕ
numbers = 5 ∷ 6 ∷ []

two-Holds : Holds two numbers
two-Holds = record { spare = []; slots = refl; counted = refl; room = refl }

moved-Holds : Holds {T = ℕ} moved []
moved-Holds = record { spare = []; slots = refl; counted = refl; room = refl }

push_back_lem_example :
    (v' : Vector ℕ) × (push_back two 7 ≡ ok v') × Holds v' (5 ∷ 6 ∷ 7 ∷ []) × (2 ≤ v'.capacity)
push_back_lem_example = push_back_lem two numbers 7 two-Holds (omega arith) (omega arith)

push_back-no_capacity_example :
    (v' : Vector ℕ) × (push_back moved 7 ≡ ok v')
    × (v'.obj_count ≡ 1)
    × (at v' 0 ≡ panic index_out_of_range)
push_back-no_capacity_example = push_back-no_capacity moved 7 moved-Holds refl

pop_back-push_back_example :
    (v' v'' : Vector ℕ) × (push_back two 7 ≡ ok v')
    × (pop_back 0 v' ≡ ok (some 7, v''))
    × Holds v'' numbers
pop_back-push_back_example =
    pop_back-push_back 0 two numbers 7 two-Holds (omega arith) (omega arith)

erase_lem_example :
    ((v' : Vector ℕ) × (us : List ℕ) × (a : ℕ) × (vs : List ℕ) × (erase two 0 ≡ ok (true, v'))
      × (numbers ≡ us ++ a ∷ vs)
      × (0 ≡ length us)
      × Holds v' (us ++ vs))
    ⊎ ((2 ≤ 0) × (erase two 0 ≡ ok (false, two)))
erase_lem_example = erase_lem two numbers 0 two-Holds

resize_lem_example : Holds (resize 0 two 1) (5 ∷ []) × ((resize 0 two 1).capacity ≡ 1)
resize_lem_example = resize_lem 0 two numbers 1 two-Holds
