-- ===== src/Vmr/Tasks.antt =====
-- The installed tasks: `find_task`, `remove_task` and `task_size` of Tools/linux/vol180/vmr.c,
-- and `install_task` once the task file has been read.
pub mod Install
pub mod Chain
pub mod Ranks
pub mod Fix
use rsx.Base.{
  Bool, Option, false, has_bit, if◌then◌else◌, ltb, none, some, suc, true, zero, ℕ, ◌+◌, ◌/◌, ◌==◌,
}
use rsx.Vmr.{Image, Symbols, addr16, sys_getb, sys_getw, sys_putw}
use rsx.Vmr.Names.{name_at, same_name}
use rsx.Vmr.Pool.{pool_free, walk_fuel}

-- Offsets in a task control block (rsx180.h).
abbrev pub t_tcbl : ℕ
t_tcbl = 2

abbrev pub t_attr : ℕ
t_attr = 6

abbrev pub t_pri : ℕ
t_pri = 10

abbrev pub t_name : ℕ
t_name = 12

abbrev pub t_nblk : ℕ
t_nblk = 55

abbrev pub t_end : ℕ
t_end = 65

abbrev pub tcbsz : ℕ
tcbsz = 71

-- The `while` loop of `find_task`; zero if no task has the name.
unfoldable pub task_walk : ℕ → (ℕ → ℕ) → ℕ → Image → Option ℕ
task_walk zero name tlist m = none
task_walk (suc fuel) name tlist m = elim (tlist == 0) [
  | true ↦ some 0
  | false ↦ elim (same_name 6 0 name (name_at (tlist + t_name) m)) [
    | true ↦ some tlist
    | false ↦ task_walk fuel name (sys_getw 0 (addr16 (tlist + t_tcbl)) m) m
  ]
]

-- `find_task`
unfoldable pub find_task : Symbols → (ℕ → ℕ) → Image → Option ℕ
find_task s name m =
    if sys_getw 0 s.polsz m == 0 then some 0 else task_walk walk_fuel name (sys_getw 0 s.tlist m) m

-- The `while` loop of `remove_task`.
unfoldable pub remove_walk : ℕ → Symbols → (ℕ → ℕ) → (prev tlist : ℕ) → Image → Option Image
remove_walk zero s name prev tlist m = none
remove_walk (suc fuel) s name prev tlist m =
    let link = addr16 (tlist + t_tcbl) in
    elim (tlist == 0) [
      | true ↦ some m
      | false ↦ elim (same_name 6 0 name (name_at (tlist + t_name) m)) [
        | false ↦ remove_walk fuel s name link (sys_getw 0 link m) m
        | true ↦
            if has_bit (sys_getb 0 (addr16 (tlist + t_attr)) m) 8
            then some m
            else pool_free s tlist tcbsz (sys_putw 0 prev (sys_getw 0 link m) m)
      ]
    ]

-- `remove_task`
unfoldable pub remove_task : Symbols → (ℕ → ℕ) → Image → Option Image
remove_task s name m =
    if sys_getw 0 s.polsz m == 0
    then some m
    else remove_walk walk_fuel s name s.tlist (sys_getw 0 s.tlist m) m

-- `task_size`, in pages; zero for a size of zero and for more than the system has for a task, with
-- `z280` for a `system_type` of 2.
unfoldable pub task_size : Bool → ℕ → Image → ℕ
task_size z280 tcb m =
    let dsz = (sys_getw 0 (addr16 (tcb + t_nblk)) m + 7) / 8 in
    let bsz = (sys_getw 0 (addr16 (tcb + t_end)) m + 4095) / 4096 in
    let size = if ltb bsz dsz then dsz else bsz in
    if ltb (if z280 then 16 else 15) size then 0 else size
