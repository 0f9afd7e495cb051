-- ===== src/Vmr/Partitions.antt =====
-- The partitions of memory: `find_partition`, `add_partition`, `remove_partition`, `find_gap` and
-- `alloc_sub_partition` of Tools/linux/vol180/vmr.c. Bases and sizes count pages of 4096 bytes.
pub mod Slots
pub mod Gaps
pub mod Fitting
use rsx.Base.{
  Bool, Option, false, if◌then◌else◌, leb, ltb, none, not, some, suc, true, zero, ℕ, ◌&&◌, ◌+◌, ◌-◌,
  ◌==◌, ◌||◌,
}
use rsx.Vmr.{Image, Symbols, addr16, sys_getw, sys_putb, sys_putw}
use rsx.Vmr.Names.{name_at, put_bytes, same_name}
use rsx.Vmr.Pool.{pool_alloc, pool_free, walk_fuel}

-- Offsets in a partition control block (rsx180.h).
abbrev pub p_lnk : ℕ
p_lnk = 0

abbrev pub p_main : ℕ
p_main = 2

abbrev pub p_sub : ℕ
p_sub = 4

abbrev pub p_size : ℕ
p_size = 6

abbrev pub p_base : ℕ
p_base = 8

abbrev pub p_attr : ℕ
p_attr = 10

abbrev pub p_stat : ℕ
p_stat = 11

abbrev pub p_name : ℕ
p_name = 12

abbrev pub p_wait : ℕ
p_wait = 18

abbrev pub p_tcb : ℕ
p_tcb = 20

abbrev pub pcbsz : ℕ
pcbsz = 24

-- The `while` loop of `find_partition`; zero if no partition has the name.
unfoldable pub partition_walk : ℕ → (ℕ → ℕ) → ℕ → Image → Option ℕ
unfolding sys_getw
partition_walk zero name pcb m = none
partition_walk (suc fuel) name pcb m = elim (pcb == 0) [
  | true ↦ some 0
  | false ↦ elim (same_name 6 0 name (name_at (pcb + p_name) m)) [
    | true ↦ some pcb
    | false ↦ partition_walk fuel name (sys_getw 0 (addr16 (pcb + p_lnk)) m) m
  ]
]

-- `find_partition`
unfoldable pub find_partition : Symbols → (ℕ → ℕ) → Image → Option ℕ
find_partition s name m =
    if sys_getw 0 s.polsz m == 0
    then some 0
    else partition_walk walk_fuel name (sys_getw 0 s.plist m) m

-- Which of base and size the user left open (`WC_BASE` and `WC_SIZE`).
pub record Wildcards : Type 0 where
  pub base : Bool
  pub size : Bool

-- Where the loop of `add_partition` ends: the place of the new partition and the cells between
-- which it goes, or the return with the alignment error.
pub data Slot : Type 0 where
  slot : (base size prev plist : ℕ) → Slot
  misaligned : Slot

-- What a round of the loop does with the next partition; `none` is another round, with the base.
pub data Round : Type 0 where
  stop : Slot → Round
  go_on : ℕ → Round

-- The body of the loop.
unfoldable pub check_gap : Wildcards → (base size prev plist pbase psize : ℕ) → Round
check_gap wc base size prev plist pbase psize =
    let after = addr16 (pbase + psize) in
    if wc.base
    then (if ltb base pbase && (wc.size || leb size (pbase - base))
        then stop (slot base (if wc.size then pbase else size) prev plist)
        else if leb 256 after
        then stop misaligned
        else go_on after)
    else if ltb base pbase
    then (if wc.size
        then stop (slot base pbase prev plist)
        else if leb size (pbase - base)
        then stop (slot base size prev plist)
        else stop misaligned)
    else if ltb base (pbase + psize)
    then stop misaligned
    else go_on base

-- The `while` loop of `add_partition`.
unfoldable pub find_slot : ℕ → Wildcards → (base size prev plist : ℕ) → Image → Option Slot
find_slot zero wc base size prev plist m = none
find_slot (suc fuel) wc base size prev plist m =
    let link = addr16 (plist + p_lnk) in
    elim (plist == 0) [
      | true ↦ some (slot base size prev 0)
      | false ↦
          elim (check_gap wc base size prev plist (sys_getw 0 (addr16 (plist + p_base)) m)
            (sys_getw 0 (addr16 (plist + p_size)) m)) [
              | stop r ↦ some r
              | go_on next ↦ find_slot fuel wc next size link (sys_getw 0 link m) m
            ]
    ]

-- The stores into the new block.
unfoldable pub fill_pcb : (pcb base size type : ℕ) → (ℕ → ℕ) → Image → Image
fill_pcb pcb base size type name m =
    let m1 = sys_putw 0 (addr16 (pcb + p_base)) base m in
    let m2 = sys_putw 0 (addr16 (pcb + p_size)) size m1 in
    let m3 = sys_putw 0 (addr16 (pcb + p_main)) pcb m2 in
    let m4 = put_bytes 6 0 (pcb + p_name) name m3 in
    let m5 = sys_putw 0 (addr16 (pcb + p_sub)) 0 m4 in
    let m6 = sys_putw 0 (addr16 (pcb + p_wait)) 0 m5 in
    let m7 = sys_putb 0 (addr16 (pcb + p_attr)) type m6 in
    let m8 = sys_putb 0 (addr16 (pcb + p_stat)) 0 m7 in sys_putw 0 (addr16 (pcb + p_tcb)) 0 m8

-- The end of `add_partition`, with the slot found and the block allocated.
abbrev pub create_partition :
    Wildcards → (type : ℕ) → (ℕ → ℕ) → (base size prev plist : ℕ) → ℕ × Image → Image
create_partition wc type name base size prev plist (pcb, m) =
    let pages = if wc.size then addr16 (size + 65536 - base) else size in
    if pcb == 0
    then m
    else sys_putw 0 (addr16 (pcb + p_lnk)) plist
        (sys_putw 0 (addr16 (prev + p_lnk)) pcb (fill_pcb pcb base pages type name m))

abbrev pub place_partition :
    Symbols → Wildcards → (type : ℕ) → (ℕ → ℕ) → Slot → Image → Option Image
place_partition s wc type name misaligned m = some m
place_partition s wc type name (slot base size prev plist) m = elim (pool_alloc s pcbsz m) [
  | none ↦ none
  | some r ↦ some (create_partition wc type name base size prev plist r)
]

-- `add_partition`; a return with a message leaves the image as it is.
unfoldable pub add_partition :
    Symbols → (ℕ → ℕ) → (base size : ℕ) → Wildcards → (type : ℕ) → Image → Option Image
add_partition s name base size wc type m =
    let first = if wc.base then 16 else base in
    let pages = if wc.size then 256 else size in
    if (size == 0) && not wc.size
    then some m
    else if sys_getw 0 s.polsz m == 0
    then some m
    else elim (find_partition s name m) [
      | none ↦ none
      | some pcb ↦ elim (pcb == 0) [
        | false ↦ some m
        | true ↦ elim (find_slot walk_fuel wc first pages s.plist (sys_getw 0 s.plist m) m) [
          | none ↦ none
          | some r ↦ place_partition s wc type name r m
        ]
      ]
    ]

-- The `while` loop of `remove_partition`.
unfoldable pub remove_walk : ℕ → Symbols → (ℕ → ℕ) → (prev pcb : ℕ) → Image → Option Image
remove_walk zero s name prev pcb m = none
remove_walk (suc fuel) s name prev pcb m =
    let link = addr16 (pcb + p_lnk) in
    elim (pcb == 0) [
      | true ↦ some m
      | false ↦ elim (same_name 6 0 name (name_at (pcb + p_name) m)) [
        | false ↦ remove_walk fuel s name link (sys_getw 0 link m) m
        | true ↦
            if (sys_getw 0 (addr16 (pcb + p_sub)) m == 0)
              && (sys_getw 0 (addr16 (pcb + p_wait)) m == 0)
            then pool_free s pcb pcbsz (sys_putw 0 prev (sys_getw 0 link m) m)
            else some m
      ]
    ]

-- `remove_partition`
unfoldable pub remove_partition : Symbols → (ℕ → ℕ) → Image → Option Image
remove_partition s name m =
    if sys_getw 0 s.polsz m == 0
    then some m
    else remove_walk walk_fuel s name s.plist (sys_getw 0 s.plist m) m
