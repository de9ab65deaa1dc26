-- ===== src/MruSet/Tests.antt =====
-- Runs of the set of src/mruset.h, and its theorems at concrete inputs.
use montecoin.Prelude.{ℕ, ◌≡◌, refl, true, [], ◌∷◌, arith, nat_key}
use montecoin.MruSet.{MruSet, insert, max_size}
use montecoin.MruSet.Recent.{IsValid, insert-IsValid, insert-queue, max_size-queue}
use montecoin.Prelude.OrderedSet

-- Three elements, inserted in the order 5, 2, 9 under the limit 3.
abbrev full : MruSet ℕ
full = record { set = 2 ∷ 5 ∷ 9 ∷ []; queue = 5 ∷ 2 ∷ 9 ∷ []; n_max_size = 3 }

insert_runs :
    insert 4 full ≡ (record { set = 2 ∷ 4 ∷ 9 ∷ []; queue = 2 ∷ 9 ∷ 4 ∷ []; n_max_size = 3 }, true)
unfolding insert OrderedSet.contains OrderedSet.insert OrderedSet.erase
insert_runs = refl

full-IsValid_example : IsValid full
unfolding OrderedSet.contains
full-IsValid_example = record {
  same = λ x. ground arith;
  distinct = (refl, (refl, (refl, tt)));
  bounded = λ _. omega arith;
}

insert-IsValid_example : IsValid (insert 4 full).0
insert-IsValid_example = insert-IsValid 4 full full-IsValid_example

insert-queue_example : ((insert 4 full).0.queue ≡ 2 ∷ 9 ∷ 4 ∷ []) × ((insert 4 full).1 ≡ true)
unfolding OrderedSet.contains
insert-queue_example = insert-queue 4 full full-IsValid_example

max_size-queue_example : ((max_size 1 full).queue ≡ 9 ∷ []) × ((max_size 1 full).n_max_size ≡ 1)
max_size-queue_example = max_size-queue 1 full
