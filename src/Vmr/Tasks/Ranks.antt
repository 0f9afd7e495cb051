-- ===== src/Vmr/Tasks/Ranks.antt =====
-- The order of the installed tasks, for `install_task` of vmr.c.
use rsx.Base.{
  Bool-cases, List, Option, [], arith, false, get-set_int16, get_int16, inl, inr, length, ltb,
  ne→==, none, refl, set_int16, some, subst, suc, sym, true, zero, ℕ, ◌%◌, ◌+◌, ◌<◌, ◌∙◌, ◌∷◌, ◌≡◌,
  ◌≢◌, ◌≤◌, ◌⊎◌,
}
use rsx.Vmr.{Image, Symbols, sys_getb}
use rsx.Vmr.Pool.{walk_fuel}
use rsx.Vmr.Pool.Chain.{get-set_int16_away, set_int16-ne, sys_getw-zero, sys_putw-zero}
use rsx.Vmr.Tasks.{t_pri, t_tcbl, tcbsz}
use rsx.Vmr.Tasks.Chain.{
  Away, Away-in_block, Away-insert, Away-outside, Away-part, IsRanked, IsTasks, IsTasks-same, Task,
  in_block, insert, insert-IsRanked,
}
use rsx.Vmr.Tasks.Install.{find_rank, link_task, rank_task}

-- The memory after the two stores.
abbrev linked : (prev next t : ℕ) → Image → Image
linked prev next t m = set_int16 (set_int16 m prev t) (t + t_tcbl) next

pub link_task_lem :
    (prev next t : ℕ) (m : Image)
    → t + tcbsz < 65536
    → link_task prev next t m ≡ linked prev next t m
unfolding link_task
link_task_lem prev next t m h =
    let wrap : (t + 2) % 65536 ≡ t + 2 = omega arith in
    rw (sys_putw-zero prev t m, wrap, sys_putw-zero (t + 2) next (set_int16 m prev t)) refl

-- The block t has been linked, and is in the list at its rank; only the cells of the list and that
-- of the block have changed.
data Linked (m : Image) (cell pri t q : ℕ) (tasks : List Task) : Option Image → Type 0 where
  linked_in :
      {w : Image}
      → IsTasks w cell (insert pri (t, q) tasks)
      → ((y : ℕ)
          → y ≢ cell
          → y ≢ cell + 1
          → y ≢ t + 2
          → y ≢ t + 3
          → in_block y tasks ≡ false
          → w y ≡ m y)
      → Linked m cell pri t q tasks (some w)

abbrev finish : ℕ → Option (ℕ × ℕ) → Image → Option Image
finish t none m = none
finish t (some place) m = some (link_task place.0 place.1 t m)

find_rank-end : (fuel pri cell : ℕ) (m : Image) → find_rank (suc fuel) pri cell 0 m ≡ some (cell, 0)
unfolding find_rank
find_rank-end fuel pri cell m = refl

find_rank_step :
    (fuel pri cell a p : ℕ) (m : Image)
    → 0 < a
    → a + tcbsz < 65536
    → m (a + t_pri) ≡ p
    → find_rank (suc fuel) pri cell a m ≡ elim (ltb p pri) [
      | true ↦ some (cell, a)
      | false ↦ find_rank fuel pri (a + 2) (get_int16 m (a + 2)) m
    ]
unfolding find_rank sys_getb
find_rank_step fuel pri cell a p m pos high e =
    let wrap1 : (a + 2) % 65536 ≡ a + 2 = omega arith in
    let wrap2 : (a + 10) % 65536 ≡ a + 10 = omega arith in
    let bank : a + 10 + 0 ≡ a + 10 = omega arith in
    rw (find_rank, ne→== a 0 (λ z. omega arith), wrap2, bank, e)
      (elim (Bool-cases (ltb p pri)) [
        | inl y ↦ rw (y) refl
        | inr y ↦ rw (y, wrap1, sys_getw-zero (a + 2) m) refl
      ])

module _ (m : Image) (t q pri : ℕ) (pos : 0 < t) (high : t + tcbsz < 65536)
    (stored : m (t + t_pri) ≡ q) where
  -- At the head of the list.
  link_here :
      (cell : ℕ) (tasks : List Task)
      → IsTasks m cell tasks
      → Away t tcbsz tasks
      → Away cell 2 tasks
      → (cell + 2 ≤ t) ⊎ (t + tcbsz ≤ cell)
      → get_int16 m cell < 65536
      → IsTasks (linked cell (get_int16 m cell) t m) cell ((t, q) ∷ tasks)
  link_here cell tasks h far own off bound =
      let v = get_int16 m cell in
      let m1 = set_int16 m cell t in
      let same : (y : ℕ) → in_block y tasks ≡ true → linked cell v t m y ≡ m y = λ y at.
        let o1 = Away-outside t tcbsz y tasks far at in
        let o2 = Away-outside cell 2 y tasks own at in
        set_int16-ne m1 (t + 2) v y (λ e. omega (arith, o1)) (λ e. omega (arith, o1))
        ∙ set_int16-ne m cell t y (λ e. omega (arith, o2)) (λ e. omega (arith, o2)) in
      (
        get-set_int16_away m1 (t + 2) cell v (omega (arith, off))
            ∙ get-set_int16 m cell t (omega arith),
        pos,
        high,
        set_int16-ne m1 (t + 2) v (t + 10) (λ e. omega arith) (λ e. omega arith)
            ∙ set_int16-ne m cell t (t + 10) (λ e. omega (arith, off)) (λ e. omega (arith, off))
            ∙ stored,
        far,
        IsTasks-same m (linked cell v t m) cell (t + 2) tasks (get-set_int16 m1 (t + 2) v bound)
            same h,
      )

  -- Behind the first task.
  link_behind :
      (cell a p : ℕ) (r : List Task) {x : Option Image}
      → IsTasks m cell ((a, p) ∷ r)
      → Away t tcbsz ((a, p) ∷ r)
      → Away cell 2 ((a, p) ∷ r)
      → (cell + 2 ≤ t) ⊎ (t + tcbsz ≤ cell)
      → ltb p pri ≡ false
      → Linked m (a + 2) pri t q r x
      → Linked m cell pri t q ((a, p) ∷ r) x
  link_behind cell a p r h far own off less (linked_in {w} list frame) =
      let kept : (y : ℕ) → cell ≤ y → y < cell + 2 → w y ≡ m y = λ y low up.
        frame y (λ e. omega (arith, own.0)) (λ e. omega (arith, own.0)) (λ e. omega (arith, off))
          (λ e. omega (arith, off)) (Away-in_block cell 2 y r own.1 low up) in
      linked_in
        (rw (less) (
          rw (kept cell (omega arith) (omega arith), kept (cell + 1) (omega arith) (omega arith))
              h.0,
          h.1,
          h.2,
          frame (a + 10) (λ e. omega arith) (λ e. omega arith) (λ e. omega (arith, far.0))
                (λ e. omega (arith, far.0))
                (Away-in_block a tcbsz (a + 10) r h.4 (omega arith) (omega arith))
              ∙ h.3,
          Away-insert a tcbsz pri t q r (ground (arith, far.0)) h.4,
          list,
        ))
        (λ y e1 e2 e3 e4 f.
          frame y (λ e. ground (arith, f)) (λ e. ground (arith, f)) e3 e4 (ground (arith, f)))

  find_rank-Linked :
      (fuel cell : ℕ) (tasks : List Task)
      → IsTasks m cell tasks
      → Away t tcbsz tasks
      → Away cell 2 tasks
      → (cell + 2 ≤ t) ⊎ (t + tcbsz ≤ cell)
      → length tasks < fuel
      → Linked m cell pri t q tasks (finish t (find_rank fuel pri cell (get_int16 m cell) m) m)
  find_rank-Linked zero cell tasks h far own off enough = absurd (omega arith)
  find_rank-Linked (suc fuel) cell [] h far own off enough =
      rw (h, find_rank-end fuel pri cell m, link_task_lem cell 0 t m high)
        (linked_in
          (subst (λ v. IsTasks (linked cell v t m) cell ((t, q) ∷ [])) h
            (link_here cell [] h tt tt off (omega (arith, h))))
          (λ y e1 e2 e3 e4 f. ground arith))
  find_rank-Linked (suc fuel) cell ((a, p) ∷ r) h far own off enough =
      rw (h.0, find_rank_step fuel pri cell a p m h.1 h.2 h.3)
        (elim (Bool-cases (ltb p pri)) [
          | inl less ↦
              rw (less, link_task_lem cell a t m high)
                (linked_in
                  (rw (less) (
                    subst (λ v. IsTasks (linked cell v t m) cell ((t, q) ∷ (a, p) ∷ r)) h.0
                      (link_here cell ((a, p) ∷ r) h far own off (omega (arith, h.0, h.2)))))
                  (λ y e1 e2 e3 e4 f. ground arith))
          | inr more ↦ rw (more) (
              link_behind cell a p r h far own off more (
                find_rank-Linked fuel (a + 2) r h.5 far.1
                  (Away-part a tcbsz (a + 2) 2 r h.4 (omega arith) (omega arith))
                  (ground (arith, far.0)) (omega arith)))
        ])

-- The list of tasks after the link of a block with the priority q, which has been ranked as pri: the
-- task stands before the first less important one, and if pri is its own priority, then a list in
-- the order of priorities is left in that order.
abbrev pub IsEntered : Symbols → (pri t q : ℕ) → List Task → Option Image → Type 0
IsEntered s pri t q tasks none = ⊥
IsEntered s pri t q tasks (some w) =
    IsTasks w s.tlist (insert pri (t, q) tasks)
    × ((top : ℕ)
        → q ≡ pri
        → pri ≤ top
        → IsRanked top tasks
        → IsRanked top (insert pri (t, q) tasks))

Linked-IsEntered :
    (m : Image) (cell pri t q : ℕ) (s : Symbols) (tasks : List Task) {x : Option Image}
    → cell ≡ s.tlist
    → Linked m cell pri t q tasks x
    → IsEntered s pri t q tasks x
Linked-IsEntered m cell pri t q s tasks e (linked_in {w} list frame) = (
  subst (λ c. IsTasks w c (insert pri (t, q) tasks)) e list,
  λ top same le order.
      subst (λ v. IsRanked top (insert pri (t, v) tasks)) (sym same)
        (insert-IsRanked pri t top tasks le order),
)

ranked_place :
    (t : ℕ) (m : Image) (f : Option (ℕ × ℕ))
    → elim f [ none ↦ none | some (prev, tlist) ↦ some (link_task prev tlist t m) ] ≡ finish t f m
ranked_place t m none = refl
ranked_place t m (some place) = refl

rank_task_lem :
    (s : Symbols) (pri t : ℕ) (m : Image)
    → rank_task s pri t m ≡ finish t (find_rank walk_fuel pri s.tlist (get_int16 m s.tlist) m) m
unfolding rank_task
rank_task_lem s pri t m =
    rw (rank_task, sys_getw-zero s.tlist m)
      (ranked_place t m (find_rank walk_fuel pri s.tlist (get_int16 m s.tlist) m))

-- On a list of fewer than 65536 tasks whose blocks are apart from each other, from the root of the
-- list and from a new block, the link of that block ends. The task then stands before the first
-- one that is less important than pri, and if pri is the priority in the block, then a list that was
-- in the order of priorities is still.
pub rank_task-IsEntered :
    (s : Symbols) (pri t q : ℕ) (tasks : List Task) (m : Image)
    → IsTasks m s.tlist tasks
    → Away s.tlist 2 tasks
    → Away t tcbsz tasks
    → (s.tlist + 2 ≤ t) ⊎ (t + tcbsz ≤ s.tlist)
    → 0 < t
    → t + tcbsz < 65536
    → m (t + t_pri) ≡ q
    → length tasks < 65536
    → IsEntered s pri t q tasks (rank_task s pri t m)
rank_task-IsEntered s pri t q tasks m h own far off pos high stored few =
    rw (rank_task_lem s pri t m) (
      Linked-IsEntered m s.tlist pri t q s tasks refl
        (find_rank-Linked m t q pri pos high stored walk_fuel s.tlist tasks h far own off few))
