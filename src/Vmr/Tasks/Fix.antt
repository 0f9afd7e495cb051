-- ===== src/Vmr/Tasks/Fix.antt =====
-- Tasks that stay in memory: `load_task` and `fix_task` of vmr.c, with the disk as a function from
-- block numbers to sectors, of which all can be read.
use rsx.Base.{
  Block, Bool, Option, bit_or, has_bit, if◌then◌else◌, ltb, some, suc, zero, ℕ, ◌%◌, ◌*◌, ◌+◌, ◌-◌,
  ◌==◌, ◌>>=◌, ◌||◌,
}
use rsx.Vmr.{Image, Symbols, addr16, sys_getb, sys_getw, sys_putb, sys_putw}
use rsx.Vmr.Names.{put_bytes}
use rsx.Vmr.Partitions.{p_attr, p_base, p_main, p_size, p_stat, p_tcb}
use rsx.Vmr.Partitions.Gaps.{alloc_sub_partition}
use rsx.Vmr.Pool.{pool_alloc}
use rsx.Vmr.Tasks.{find_task, t_attr, t_nblk, task_size}

-- The loops that copy `n` bytes of a block into a bank, from byte i on.
unfoldable pub copy_in : (n bank addr i : ℕ) → Block → Image → Image
copy_in zero bank addr i buf m = m
copy_in (suc n) bank addr i buf m =
    copy_in n bank (addr16 (addr + 1)) (i + 1) buf (sys_putb bank addr (buf i) m)

-- The loop over the other blocks of the task.
unfoldable pub load_blocks : (nblk sblk bank addr : ℕ) → (ℕ → Block) → Image → Image
unfolding copy_in
load_blocks zero sblk bank addr disk m = m
load_blocks (suc n) sblk bank addr disk m =
    load_blocks n (sblk + 1) bank (addr16 (addr + 512)) disk (copy_in 512 bank addr 0 (disk sblk) m)

-- `load_task`; the header takes the first half of the first block.
unfoldable pub load_task : (ℕ → Block) → (tcb : ℕ) → Image → Image
unfolding load_blocks
load_task disk tcb m =
    let sblk = sys_getw 0 (addr16 (tcb + 51)) m + 65536 * sys_getw 0 (addr16 (tcb + 53)) m in
    let nblk = sys_getw 0 (addr16 (tcb + t_nblk)) m in
    let pcb = sys_getw 0 (addr16 (tcb + 57)) m in
    let bank = sys_getb 0 (addr16 (pcb + p_base)) m in
    let addr = sys_getw 0 (addr16 (tcb + 61)) m in
    load_blocks (nblk - 1) (sblk + 1) bank (addr16 (addr + 256)) disk
      (copy_in 256 bank addr 256 (disk sblk) m)

-- A jump to a routine of the kernel.
abbrev pub put_jump : (bank at target : ℕ) → Image → Image
put_jump bank at target m = sys_putw bank (addr16 (at + 1)) target (sys_putb bank at 0xC3 m)

-- The eight restart vectors; `chktrp` is the address of CHKTRP.
unfoldable pub put_vectors : (n i : ℕ) → Bool → (bank chktrp : ℕ) → Image → Image
put_vectors zero i z280 bank chktrp m = m
put_vectors (suc n) i z280 bank chktrp m =
    put_vectors n (i + 1) z280 bank chktrp
      (if z280 then sys_putb bank (i * 8) 0x76 m else put_jump bank (i * 8) chktrp m)

-- What `get_sym` returns for CHKTRP, SYSENT and $KDTRP.
pub record Traps : Type 0 where
  pub chktrp : ℕ
  pub sysent : ℕ
  pub kdtrp : ℕ

-- The vectors of page zero; SYSRST is 0x20 and DBGRST is 0x30.
abbrev pub put_page_zero : Bool → Traps → (bank : ℕ) → Image → Image
put_page_zero z280 t bank m =
    let m1 = put_vectors 8 0 z280 bank t.chktrp m in
    if z280 then m1 else put_jump bank 0x30 t.kdtrp (put_jump bank 0x20 t.sysent m1)

-- CTX280SZ and CTX180SZ
abbrev pub ctxsz : Bool → ℕ
ctxsz z280 = if z280 then 111 else 83

-- The partition for the task: a partition that is not system-controlled becomes busy as a whole.
-- Address zero if there is no space.
unfoldable pub take_partition : Symbols → (mainpcb size : ℕ) → Image → Option (ℕ × Image)
take_partition s mainpcb size m =
    let stat = addr16 (mainpcb + p_stat) in
    if has_bit (sys_getb 0 (addr16 (mainpcb + p_attr)) m) 2
    then alloc_sub_partition s mainpcb (size % 256) m
    else if has_bit (sys_getb 0 stat m) 8 || ltb (sys_getb 0 (addr16 (mainpcb + p_size)) m) size
    then some (0, m)
    else some (mainpcb, sys_putb 0 stat 8 m)

-- From the context block on; the code goes on with address zero when the pool has none.
unfoldable pub set_fixed : Bool → (ℕ → Block) → (tcb ctx : ℕ) → Image → Image
unfolding load_task
set_fixed z280 disk tcb ctx m =
    let m1 = sys_putw 0 (addr16 (tcb + 45)) ctx m in
    let m2 = put_bytes (ctxsz z280) 0 ctx (λ i. 0) m1 in
    let attr = addr16 (tcb + t_attr) in
    load_task disk tcb (sys_putb 0 attr (bit_or (sys_getb 0 attr m2) 8) m2)

-- The end of `fix_task`, with the partition found.
abbrev pub enter_partition :
    Bool → Symbols → Traps → (ℕ → Block) → (tcb : ℕ) → ℕ × Image → Option Image
enter_partition z280 s t disk tcb (subpcb, m) =
    let m1 = sys_putw 0 (addr16 (subpcb + p_tcb)) tcb (sys_putw 0 (addr16 (tcb + 57)) subpcb m) in
    let m2 = put_page_zero z280 t (sys_getb 0 (addr16 (subpcb + p_base)) m1) m1 in
    if subpcb == 0
    then some m
    else (pool_alloc s (ctxsz z280) m2 >>= λ r. some (set_fixed z280 disk tcb r.0 r.1))

-- `fix_task`, without the size of the image; a return with a message leaves the image as it is.
unfoldable pub fix_task :
    Bool → Symbols → Traps → (ℕ → Block) → (name : ℕ → ℕ) → Image → Option Image
fix_task z280 s t disk name m = find_task s name m >>= λ tcb.
    let size = task_size z280 tcb m in
    let pcb = sys_getw 0 (addr16 (tcb + 57)) m in
    let mainpcb = sys_getw 0 (addr16 (pcb + p_main)) m in
    if (tcb == 0) || has_bit (sys_getb 0 (addr16 (tcb + t_attr)) m) 8 || (size == 0)
    then some m
    else (take_partition s mainpcb size m >>= enter_partition z280 s t disk tcb)
