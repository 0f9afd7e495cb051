-- ===== src/Tests/Tables.antt =====
-- The theorems on the tables of the system image, with two partitions and two tasks.
use rsx.Base.{List, [], arith, has_bit, inl, inr, refl, set_int16, update, zeros, ◌∷◌}
use rsx.Tests.Pool.{symbols}
use rsx.Vmr.{Image}
use rsx.Vmr.Partitions.Fitting.{Fitted, IsMain, find_gap-Fitted}
use rsx.Vmr.Partitions.Gaps.{find_gap}
use rsx.Vmr.Partitions.Slots.{IsRows, Row}
use rsx.Vmr.Tasks.Chain.{IsTasks, Task}
use rsx.Vmr.Tasks.Install.{rank_task}
use rsx.Vmr.Tasks.Ranks.{IsEntered, rank_task-IsEntered}

-- Partitions of 4 pages at 16, and of 8 pages at 32.
abbrev parts : Image
parts =
    set_int16
      (set_int16
        (set_int16 (set_int16 (set_int16 (set_int16 zeros 112 1000) 1000 1100) 1008 16) 1006 4) 1108
        32)
      1106 8

abbrev rows : List Row
rows = (1000, 16, 4) ∷ (1100, 32, 8) ∷ []

rows-IsRows : IsRows parts 112 0 rows
rows-IsRows = (
  refl,
  omega arith,
  omega arith,
  refl,
  refl,
  omega arith,
  omega arith,
  omega arith,
  (refl, omega arith, omega arith, refl, refl, omega arith, omega arith, omega arith, refl),
)

-- Tasks of priority 60 and 50, and a block for one of 70.
abbrev list : Image
list =
    update (update (update (set_int16 (set_int16 zeros 116 1000) 1002 1100) 1010 60) 1110 50) 2010
      70

abbrev tasks : List Task
tasks = (1000, 60) ∷ (1100, 50) ∷ []

list-IsTasks : IsTasks list 116 tasks
list-IsTasks = (
  refl,
  omega arith,
  omega arith,
  refl,
  (inl (omega arith), tt),
  (refl, omega arith, omega arith, refl, tt, refl),
)

rank_task-IsEntered_example : IsEntered symbols 55 2000 70 tasks (rank_task symbols 55 2000 list)
rank_task-IsEntered_example =
    rank_task-IsEntered symbols 55 2000 70 tasks list list-IsTasks
      (inl (omega arith), (inl (omega arith), tt)) (inr (omega arith), (inr (omega arith), tt))
      (inl (omega arith)) (omega arith) (omega arith) refl (omega arith)

-- A main partition of 16 pages from 16 on, with a sub-partition of 4 pages at 20.
abbrev main_part : Image
main_part =
    set_int16
      (update (update (update (update (update zeros 1008 16) 1006 16) 1010 2) 1108 20) 1106 4) 1004
      1100

main_part-IsMain : IsMain main_part 1000 16 16 ((1100, 20, 4) ∷ [])
unfolding has_bit
main_part-IsMain = record {
  low = omega arith;
  system = refl;
  base_at = refl;
  size_at = refl;
  pages = (omega arith, omega arith, omega arith);
  list = (refl, omega arith, omega arith, refl, refl, omega arith, omega arith, omega arith, refl);
  few = omega arith;
}

find_gap-Fitted_example : Fitted 1004 16 32 6 ((1100, 20, 4) ∷ []) (find_gap 1000 6 main_part)
find_gap-Fitted_example =
    find_gap-Fitted main_part 1000 16 16 6 ((1100, 20, 4) ∷ []) main_part-IsMain (omega arith)
