-- ===== src/Vmr/Partitions/Slots.antt =====
-- Where `add_partition` of vmr.c puts a partition.
use rsx.Base.{
  Bool, Bool-cases, List, Option, [], arith, false, get_int16, if◌then◌else◌, inl, inr, leb, length,
  ltb, ltb→ge, ltb→lt, ne→==, refl, some, suc, true, zero, ℕ, ◌%◌, ◌&&◌, ◌+◌, ◌-◌, ◌<◌, ◌||◌, ◌∙◌,
  ◌∷◌, ◌≡◌, ◌≤◌,
}
use rsx.Vmr.{Image, addr16, sys_getw}
use rsx.Vmr.Partitions.{
  Round, Slot, Wildcards, check_gap, find_slot, go_on, misaligned, p_base, p_size, slot, stop,
}
use rsx.Vmr.Pool.Chain.{sys_getw-zero}

-- The control block of a partition, its base and its size.
abbrev pub Row : Type 0
Row = ℕ × ℕ × ℕ

-- The list of partitions that hangs on a cell: in the order of their bases, from page lo on, without
-- overlaps, none empty, below page 256.
abbrev pub IsRows : Image → ℕ → ℕ → List Row → Type 0
IsRows m cell lo [] = get_int16 m cell ≡ 0
IsRows m cell lo ((a, b, n) ∷ r) =
    (get_int16 m cell ≡ a)
    × (0 < a)
    × (a + 24 < 65536)
    × (get_int16 m (a + p_base) ≡ b)
    × (get_int16 m (a + p_size) ≡ n)
    × (lo ≤ b)
    × (0 < n)
    × (b + n ≤ 256)
    × IsRows m a (b + n) r

-- Pages from b on, n of them, are between the partitions before the cell prev and the one at next.
pub data Between (b n : ℕ) : (cell : ℕ) → List Row → (prev next : ℕ) → Type 0 where
  last : {cell : ℕ} → Between b n cell [] cell 0
  before :
      {cell a pb pn : ℕ} {r : List Row} → b + n ≤ pb → Between b n cell ((a, pb, pn) ∷ r) cell a
  after :
      {cell a pb pn prev next : ℕ} {r : List Row}
      → pb + pn ≤ b
      → Between b n a r prev next
      → Between b n cell ((a, pb, pn) ∷ r) prev next

-- One of the partitions has a page in common with the n pages from b on.
abbrev pub overlaps : ℕ → ℕ → List Row → Bool
overlaps b n [] = false
overlaps b n ((a, pb, pn) ∷ r) = (ltb pb (b + n) && ltb b (pb + pn)) || overlaps b n r

-- The pages that the new partition gets.
abbrev pub pages : Wildcards → (b n : ℕ) → ℕ
pages wc b n = if wc.size then addr16 (n + 65536 - b) else n

-- What the search with base and size finds among the partitions.
pub data Slotted (cell lo : ℕ) (wc : Wildcards) (base size : ℕ) (rows : List Row)
    : Option Slot → Type 0 where
  found :
      {b n prev next : ℕ}
      → Between b (pages wc b n) cell rows prev next
      → (wc.base ≡ false → b ≡ base)
      → (wc.size ≡ false → n ≡ size)
      → (lo ≤ base → lo ≤ b)
      → Slotted cell lo wc base size rows (some (slot b n prev next))
  no_room :
      (wc.base ≡ false → overlaps base (if wc.size then 1 else size) rows ≡ true)
      → Slotted cell lo wc base size rows (some misaligned)

abbrev continue : ℕ → Wildcards → (size link next : ℕ) → Image → Round → Option Slot
continue fuel wc size link next m (stop r) = some r
continue fuel wc size link next m (go_on b) = find_slot fuel wc b size link next m

continue_lem :
    (fuel : ℕ) (wc : Wildcards) (size link : ℕ) (m : Image) (x : Round)
    → elim x [
      | stop r ↦ some r
      | go_on next ↦ find_slot fuel wc next size link (sys_getw 0 link m) m
    ]
      ≡ continue fuel wc size link (get_int16 m link) m x
continue_lem fuel wc size link m (stop r) = refl
continue_lem fuel wc size link m (go_on b) = rw (sys_getw-zero link m) refl

find_slot_step :
    (fuel : ℕ) (wc : Wildcards) (base size prev a pb pn : ℕ) (m : Image)
    → 0 < a
    → a + 24 < 65536
    → get_int16 m (a + p_base) ≡ pb
    → get_int16 m (a + p_size) ≡ pn
    → find_slot (suc fuel) wc base size prev a m
      ≡ continue fuel wc size a (get_int16 m a) m (check_gap wc base size prev a pb pn)
unfolding find_slot
find_slot_step fuel wc base size prev a pb pn m pos room eb en =
    let wrap0 : (a + 0) % 65536 ≡ a = omega arith in
    let wrap1 : (a + 8) % 65536 ≡ a + 8 = omega arith in
    let wrap2 : (a + 6) % 65536 ≡ a + 6 = omega arith in
    rw
      (
        find_slot,
        ne→== a 0 (λ z. omega arith),
        wrap1,
        wrap2,
        sys_getw-zero (a + 8) m,
        eb,
        sys_getw-zero (a + 6) m,
        en,
      )
      (continue_lem fuel wc size (addr16 (a + 0)) m (check_gap wc base size prev a pb pn)
        ∙ rw (wrap0) refl)

-- The outcomes of a round.
data Checked (wc : Wildcards) (base size prev a pb pn : ℕ) : Round → Type 0 where
  fits :
      {n : ℕ}
      → base + pages wc base n ≤ pb
      → (wc.size ≡ false → n ≡ size)
      → Checked wc base size prev a pb pn (stop (slot base n prev a))
  blocked :
      (wc.base ≡ false
        → (ltb pb (base + (if wc.size then 1 else size)) && ltb base (pb + pn)) ≡ true)
      → Checked wc base size prev a pb pn (stop misaligned)
  beyond :
      {next : ℕ}
      → pb + pn ≤ next
      → (wc.base ≡ false → next ≡ base)
      → Checked wc base size prev a pb pn (go_on next)

check_gap-Checked :
    (wb ws : Bool) (base size prev a pb pn : ℕ)
    → 0 < pn
    → pb + pn ≤ 256
    → (ws ≡ false → 0 < size)
    → Checked
        (record { base = wb; size = ws })
        base
        size
        prev
        a
        pb
        pn
        (check_gap (record { base = wb; size = ws }) base size prev a pb pn)
unfolding check_gap
check_gap-Checked true true base size prev a pb pn pos low some_size =
    let wrap : (pb + pn) % 65536 ≡ pb + pn = omega arith in
    elim (Bool-cases (ltb base pb)) [
      | inl gap ↦ rw (gap) (fits (ground (arith, ltb→lt base pb gap)) (λ e. ground (arith, e)))
      | inr low_base ↦
          rw (low_base, wrap)
            (elim (Bool-cases (leb 256 (pb + pn))) [
              | inl end ↦ rw (end) (blocked (λ e. ground (arith, e)))
              | inr more ↦ rw (more) (beyond (omega arith) (λ e. ground (arith, e)))
            ])
    ]
check_gap-Checked true false base size prev a pb pn pos low some_size =
    let wrap : (pb + pn) % 65536 ≡ pb + pn = omega arith in
    elim (Bool-cases (ltb base pb && leb size (pb - base))) [
      | inl gap ↦ rw (gap) (fits (ground (arith, gap)) (λ e. refl))
      | inr low_base ↦
          rw (low_base, wrap)
            (elim (Bool-cases (leb 256 (pb + pn))) [
              | inl end ↦ rw (end) (blocked (λ e. ground (arith, e)))
              | inr more ↦ rw (more) (beyond (omega arith) (λ e. ground (arith, e)))
            ])
    ]
check_gap-Checked false true base size prev a pb pn pos low some_size =
    elim (Bool-cases (ltb base pb)) [
      | inl gap ↦ rw (gap) (fits (ground (arith, ltb→lt base pb gap)) (λ e. ground (arith, e)))
      | inr low_base ↦ rw (low_base) (elim (Bool-cases (ltb base (pb + pn))) [
        | inl over ↦ rw (over) (blocked (λ e. ground (arith, over, low_base)))
        | inr past ↦ rw (past) (beyond (ltb→ge base (pb + pn) past) (λ e. refl))
      ])
    ]
check_gap-Checked false false base size prev a pb pn pos low some_size =
    elim (Bool-cases (ltb base pb)) [
      | inl gap ↦ rw (gap) (elim (Bool-cases (leb size (pb - base))) [
        | inl room ↦ rw (room) (fits (ground (arith, ltb→lt base pb gap, room)) (λ e. refl))
        | inr tight ↦ rw (tight) (blocked (λ e. ground (arith, ltb→lt base pb gap, tight)))
      ])
      | inr low_base ↦ rw (low_base) (elim (Bool-cases (ltb base (pb + pn))) [
        | inl over ↦ rw (over) (blocked (λ e. ground (arith, over, low_base, some_size refl)))
        | inr past ↦ rw (past) (beyond (ltb→ge base (pb + pn) past) (λ e. refl))
      ])
    ]

-- A search that goes on behind the first partition.
one_further :
    (wc : Wildcards) (base next size cell lo a pb pn : ℕ) (r : List Row) {x : Option Slot}
    → lo ≤ pb
    → pb + pn ≤ next
    → (wc.base ≡ false → next ≡ base)
    → Slotted a (pb + pn) wc next size r x
    → Slotted cell lo wc base size ((a, pb, pn) ∷ r) x
one_further wc base next size cell lo a pb pn r low far same
      (found place same_base same_size order) =
    found (after (order far) place) (λ e. same_base e ∙ same e) same_size
      (λ h. let o = order far in omega arith)
one_further wc base next size cell lo a pb pn r low far same (no_room meets) =
    no_room (λ e. ground (arith, same e, meets e))

continue-Slotted :
    (fuel : ℕ) (wc : Wildcards) (base size cell lo a pb pn : ℕ) (r : List Row) (m : Image)
    {x : Round}
    → lo ≤ pb
    → Checked wc base size cell a pb pn x
    → ((next : ℕ)
        → pb + pn ≤ next
        → Slotted a (pb + pn) wc next size r (find_slot fuel wc next size a (get_int16 m a) m))
    → Slotted cell lo wc base size ((a, pb, pn) ∷ r) (continue fuel wc size a (get_int16 m a) m x)
continue-Slotted fuel wc base size cell lo a pb pn r m low (fits room same) rest =
    found (before room) (λ e. refl) same (λ h. h)
continue-Slotted fuel wc base size cell lo a pb pn r m low (blocked meets) rest =
    no_room (λ e. ground (arith, meets e))
continue-Slotted fuel wc base size cell lo a pb pn r m low (beyond {next} far same) rest =
    one_further wc base next size cell lo a pb pn r low far same (rest next far)

find_slot-end :
    (fuel : ℕ) (wc : Wildcards) (base size prev : ℕ) (m : Image)
    → find_slot (suc fuel) wc base size prev 0 m ≡ some (slot base size prev 0)
unfolding find_slot
find_slot-end fuel wc base size prev m = refl

-- On a list of partitions that are sorted and do not overlap, with more rounds allowed than there
-- are partitions, the loop of `add_partition` ends. It finds a place in the list where the pages
-- do not overlap the partitions on either side, with the base and the size that were asked for where
-- they are not left open; or it refuses, and if the base was given then because some partition has
-- a page of those asked for, or the page at the base.
pub find_slot-Slotted :
    (fuel : ℕ) (wb ws : Bool) (base size cell lo : ℕ) (rows : List Row) (m : Image)
    → IsRows m cell lo rows
    → length rows < fuel
    → (ws ≡ false → 0 < size)
    → Slotted cell lo
        (record { base = wb; size = ws })
        base
        size
        rows
        (find_slot fuel (record { base = wb; size = ws }) base size cell (get_int16 m cell) m)
find_slot-Slotted zero wb ws base size cell lo rows m h enough some_size = absurd (omega arith)
find_slot-Slotted (suc fuel) wb ws base size cell lo [] m h enough some_size =
    rw (h, find_slot-end fuel (record { base = wb; size = ws }) base size cell m)
      (found last (λ e. refl) (λ e. refl) (λ h. h))
find_slot-Slotted (suc fuel) wb ws base size cell lo ((a, pb, pn) ∷ r) m h enough some_size =
    let wc : Wildcards = record { base = wb; size = ws } in
    rw (h.0, find_slot_step fuel wc base size cell a pb pn m h.1 h.2 h.3 h.4)
      (continue-Slotted fuel wc base size cell lo a pb pn r m h.5
        (check_gap-Checked wb ws base size cell a pb pn h.6 h.7 some_size)
        (λ next far.
          find_slot-Slotted fuel wb ws next size a (pb + pn) r m h.8 (omega arith) some_size))
