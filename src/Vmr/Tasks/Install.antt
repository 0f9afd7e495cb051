-- ===== src/Vmr/Tasks/Install.antt =====
-- `install_task` of Tools/linux/vol180/vmr.c, from the task header on that has been read from the
-- file: the checks, the task control block and its place in the list of tasks.
use rsx.Base.{
  Bool, List, Option, [], bit_or, clear_bit, false, if◌then◌else◌, ltb, none, not, some, suc, true,
  zero, ℕ, ◌%◌, ◌&&◌, ◌*◌, ◌+◌, ◌/◌, ◌==◌, ◌>>=◌, ◌||◌, ◌∷◌,
}
use rsx.Vmr.{Image, Symbols, addr16, sys_getb, sys_getw, sys_putb, sys_putw}
use rsx.Vmr.Devices.{find_device}
use rsx.Vmr.Names.{put_bytes}
use rsx.Vmr.Partitions.{find_partition}
use rsx.Vmr.Pool.{pool_alloc, walk_fuel}
use rsx.Vmr.Tasks.{find_task, t_attr, t_end, t_name, t_nblk, t_pri, t_tcbl, tcbsz}

-- What the switches of the command give; `none` for a switch that is left out.
pub record Options : Type 0 where
  pub par : Option (ℕ → ℕ)
  pub task : Option (ℕ → ℕ)
  pub pri : ℕ
  pub inc : ℕ
  pub prv : Option Bool
  pub ckd : Option Bool
  pub cli : Option Bool
  pub acp : Option Bool

-- The name of a switch, or that of the header.
abbrev pub given : (ℕ → ℕ) → Option (ℕ → ℕ) → ℕ → ℕ
given name none = name
given name (some switch) = switch

-- A task header and a word of it.
abbrev pub TaskHeader : Type 0
TaskHeader = ℕ → ℕ

abbrev pub th_word : TaskHeader → ℕ → ℕ
th_word thdr i = thdr i + 256 * thdr (i + 1)

abbrev pub put_attr : Option Bool → (mask attr : ℕ) → ℕ
put_attr none mask attr = attr
put_attr (some on) mask attr = if on then bit_or attr mask else clear_bit attr mask

-- The attributes with the switches.
abbrev pub task_attr : Options → ℕ → ℕ
task_attr o attr =
    put_attr o.acp 64 (put_attr o.cli 32 (put_attr o.ckd 128 (put_attr o.prv 1 attr)))

-- The stores into the block before the test of the size.
unfoldable pub fill_tcb : Options → TaskHeader → (tcb pcb ucb tiucb blkno nblks : ℕ) → Image → Image
fill_tcb o thdr tcb pcb ucb tiucb blkno nblks m =
    let pri = if o.pri == 0 then thdr 48 else o.pri in
    let name = given (λ i. thdr (16 + i)) o.task in
    let m1 = sys_putw 0 (addr16 tcb) 0 m in
    let m2 = sys_putw 0 (addr16 (tcb + 4)) 0 m1 in
    let m3 = sys_putb 0 (addr16 (tcb + t_attr)) (task_attr o (thdr 49)) m2 in
    let m4 = sys_putw 0 (addr16 (tcb + 7)) 0 m3 in
    let m5 = sys_putb 0 (addr16 (tcb + 9)) pri m4 in
    let m6 = sys_putb 0 (addr16 (tcb + t_pri)) pri m5 in
    let m7 = put_bytes 6 0 (tcb + t_name) name m6 in
    let m8 = put_bytes 6 0 (tcb + 18) (λ i. thdr (24 + i)) m7 in
    let m9 = sys_putw 0 (addr16 (tcb + 24)) 0 m8 in
    let m10 = sys_putb 0 (addr16 (tcb + 26)) 0 m9 in
    let m11 = sys_putw 0 (addr16 (tcb + 27)) 0 m10 in
    let m12 = sys_putw 0 (addr16 (tcb + 29)) 0 m11 in
    let m13 = sys_putw 0 (addr16 (tcb + 33)) 0 m12 in
    let m14 = sys_putw 0 (addr16 (tcb + 31)) 0 m13 in
    let m15 = put_bytes 4 0 (tcb + 37) (λ i. 0) m14 in
    let m16 = put_bytes 4 0 (tcb + 41) (λ i. 0) m15 in
    let m17 = sys_putw 0 (addr16 (tcb + 45)) 0 m16 in
    let m18 = sys_putw 0 (addr16 (tcb + 47)) tiucb m17 in
    let m19 = sys_putw 0 (addr16 (tcb + 49)) ucb m18 in
    let m20 = sys_putw 0 (addr16 (tcb + 51)) (blkno % 65536) m19 in
    let m21 = sys_putw 0 (addr16 (tcb + 53)) (blkno / 65536 % 65536) m20 in
    let m22 = sys_putw 0 (addr16 (tcb + t_nblk)) nblks m21 in
    let m23 = sys_putw 0 (addr16 (tcb + 57)) pcb m22 in sys_putw 0 (addr16 (tcb + 59)) 0 m23

-- The stores behind that test.
unfoldable pub fill_ends : TaskHeader → (tcb tskend : ℕ) → Image → Image
fill_ends thdr tcb tskend m =
    let m1 = sys_putw 0 (addr16 (tcb + 61)) (th_word thdr 40) m in
    let m2 = sys_putw 0 (addr16 (tcb + t_end)) tskend m1 in
    let m3 = sys_putw 0 (addr16 (tcb + 63)) tskend m2 in
    let m4 = sys_putw 0 (addr16 (tcb + 69)) (tskend + 1) m3 in
    let m5 = sys_putw 0 (addr16 (tcb + 67)) (th_word thdr 44) m4 in
    sys_putb 0 (addr16 (tcb + 35)) 0 m5

-- The loop that finds the place of the task: the cell and the task that it holds.
unfoldable pub find_rank : ℕ → (pri prev tlist : ℕ) → Image → Option (ℕ × ℕ)
find_rank zero pri prev tlist m = none
find_rank (suc fuel) pri prev tlist m =
    let link = addr16 (tlist + t_tcbl) in
    elim (tlist == 0) [
      | true ↦ some (prev, 0)
      | false ↦ elim (ltb (sys_getb 0 (addr16 (tlist + t_pri)) m) pri) [
        | true ↦ some (prev, tlist)
        | false ↦ find_rank fuel pri link (sys_getw 0 link m) m
      ]
    ]

-- The stores that link the block.
unfoldable pub link_task : (prev tlist tcb : ℕ) → Image → Image
link_task prev tlist tcb m = sys_putw 0 (addr16 (tcb + t_tcbl)) tlist (sys_putw 0 prev tcb m)

-- The link of the block in the list of tasks, by the priority in the header.
unfoldable pub rank_task : Symbols → (pri tcb : ℕ) → Image → Option Image
rank_task s pri tcb m = elim (find_rank walk_fuel pri s.tlist (sys_getw 0 s.tlist m) m) [
  | none ↦ none
  | some (prev, tlist) ↦ some (link_task prev tlist tcb m)
]

-- The end of `install_task`, with the block allocated. A task that is too big leaves the block
-- filled and allocated, and not linked.
abbrev pub enter_task :
    Bool
    → Symbols
    → Options
    → TaskHeader
    → (pcb ucb tiucb blkno nblks : ℕ) → ℕ × Image
    → Option Image
enter_task z280 s o thdr pcb ucb tiucb blkno nblks (tcb, m) =
    let w = fill_tcb o thdr tcb pcb ucb tiucb blkno nblks m in
    let tskend = th_word thdr 42 + (if o.inc == 0 then th_word thdr 46 else o.inc) in
    let done = rank_task s (thdr 48) tcb (fill_ends thdr tcb tskend w) in
    if tcb == 0
    then some m
    else if ltb (if z280 then 0x10000 else 0xf000) tskend
    then some w
    else done

-- The magic string `TSK180` and the version.
abbrev pub is_task : TaskHeader → Bool
is_task thdr =
    (thdr 0 == 84)
    && (thdr 1 == 83)
    && (thdr 2 == 75)
    && (thdr 3 == 49)
    && (thdr 4 == 56)
    && (thdr 5 == 48)
    && ((thdr 8 == 2) || (thdr 9 == 1))

abbrev pub partition_name : Options → TaskHeader → ℕ → ℕ
partition_name o thdr = given (λ i. thdr (32 + i)) o.par

-- `install_task` once the header is there; a return with a message leaves the image as it is.
unfoldable pub install_task :
    (List ℕ → ℕ) → Bool → Symbols → Options → TaskHeader → (blkno nblks : ℕ) → Image → Option Image
install_task atoi z280 s o thdr blkno nblks m = do
  ucb ← find_device atoi s (76 ∷ 66 ∷ 48 ∷ []) m
  tiucb ← find_device atoi s (67 ∷ 79 ∷ 48 ∷ []) m
  found ← find_task s (λ i. thdr (16 + i)) m
  pcb ← find_partition s (partition_name o thdr) m
  if (ucb == 0) || (tiucb == 0) || not (is_task thdr) || not (found == 0) || (pcb == 0)
      then some m
      else pool_alloc s tcbsz m >>= enter_task z280 s o thdr pcb ucb tiucb blkno nblks
