-- ===== src/Vmr/Partitions/Gaps.antt =====
-- The sub-partitions of a main partition: `find_gap` and `alloc_sub_partition` of vmr.c. Bases and
-- sizes are bytes here.
use rsx.Base.{
  Option, false, has_bit, if◌then◌else◌, leb, none, some, suc, true, zero, ℕ, ◌%◌, ◌+◌, ◌-◌, ◌==◌,
}
use rsx.Vmr.{Image, Symbols, addr16, sys_getb, sys_getw, sys_putb, sys_putw}
use rsx.Vmr.Names.{put_bytes}
use rsx.Vmr.Partitions.{p_attr, p_base, p_lnk, p_main, p_name, p_size, p_stat, p_sub, pcbsz}
use rsx.Vmr.Pool.{pool_alloc, walk_fuel}

-- `*prvlnk`, `*next` and `*base` of a gap that is large enough.
pub record Gap : Type 0 where
  pub prvlnk : ℕ
  pub next : ℕ
  pub base : ℕ

-- The loop over the sub-partitions and the test behind it, with the base and the size of the main one;
-- `some none` is the return of 0.
unfoldable pub gap_walk :
    ℕ → (main_base main_size size prvlnk next base : ℕ) → Image → Option (Option Gap)
gap_walk zero main_base main_size size prvlnk next base m = none
gap_walk (suc fuel) main_base main_size size prvlnk next base m =
    let nbase = sys_getb 0 (addr16 (next + p_base)) m in
    let nsize = sys_getb 0 (addr16 (next + p_size)) m in
    let link = addr16 (next + p_lnk) in
    let gap : Gap = record { prvlnk = prvlnk; next = next; base = base } in
    elim (next == 0) [
      | true ↦
          some (if leb size ((main_size + main_base + 256 - base) % 256) then some gap else none)
      | false ↦ elim (leb size ((nbase + 256 - base) % 256)) [
        | true ↦ some (some gap)
        | false ↦
            gap_walk fuel main_base main_size size link (sys_getw 0 link m) ((nbase + nsize) % 256)
              m
      ]
    ]

-- `find_gap`; the attribute PA_SYS is bit 1. The case of no sub-partitions is the first test of the
-- walk, with the base of the main partition.
unfoldable pub find_gap : (mainpcb size : ℕ) → Image → Option (Option Gap)
find_gap mainpcb size m =
    let base = sys_getb 0 (addr16 (mainpcb + p_base)) m in
    let main_size = sys_getb 0 (addr16 (mainpcb + p_size)) m in
    let first = sys_getw 0 (addr16 (mainpcb + p_sub)) m in
    let whole : Gap = record { prvlnk = addr16 (mainpcb + p_sub); next = first; base = base } in
    elim (has_bit (sys_getb 0 (addr16 (mainpcb + p_attr)) m) 2) [
      | false ↦ some none
      | true ↦ elim (first == 0) [
        | true ↦ some (if leb size main_size then some whole else none)
        | false ↦ gap_walk walk_fuel base main_size size (addr16 (mainpcb + p_sub)) first base m
      ]
    ]

-- The stores into the block of a sub-partition: blanks for its name, PA_SUB and PS_BSY.
unfoldable pub fill_subpcb : (subpcb mainpcb base size : ℕ) → Image → Image
fill_subpcb subpcb mainpcb base size m =
    let m1 = put_bytes 6 0 (subpcb + p_name) (λ i. 32) m in
    let m2 = sys_putb 0 (addr16 (subpcb + p_attr)) 1 m1 in
    let m3 = sys_putb 0 (addr16 (subpcb + p_stat)) 8 m2 in
    let m4 = sys_putb 0 (addr16 (subpcb + p_base)) base m3 in
    let m5 = sys_putb 0 (addr16 (subpcb + p_size)) size m4 in
    sys_putw 0 (addr16 (subpcb + p_main)) mainpcb m5

-- The stores that put it in the gap.
abbrev pub enter_gap : (mainpcb size : ℕ) → Gap → ℕ × Image → ℕ × Image
enter_gap mainpcb size gap (subpcb, m) =
    let m1 = fill_subpcb subpcb mainpcb gap.base size m in
    if subpcb == 0
    then (0, m)
    else (subpcb, sys_putw 0 gap.prvlnk subpcb (sys_putw 0 (addr16 (subpcb + p_lnk)) gap.next m1))

-- `alloc_sub_partition`; zero if there is no space.
unfoldable pub alloc_sub_partition : Symbols → (mainpcb size : ℕ) → Image → Option (ℕ × Image)
alloc_sub_partition s mainpcb size m = elim (find_gap mainpcb size m) [
  | none ↦ none
  | some none ↦ some (0, m)
  | some (some gap) ↦ elim (pool_alloc s pcbsz m) [
    | none ↦ none
    | some r ↦ some (enter_gap mainpcb size gap r)
  ]
]
