-- ===== src/Vmr/Partitions/Fitting.antt =====
-- Where `find_gap` of vmr.c puts a sub-partition.
use rsx.Base.{
  Bool-cases, List, Option, [], arith, eq-cases, false, get_int16, has_bit, if◌then◌else◌, inl, inr,
  leb, leb→le, leb→lt, length, ne→==, none, refl, some, subst, suc, true, zero, ℕ, ◌%◌, ◌+◌, ◌-◌,
  ◌<◌, ◌∷◌, ◌≡◌, ◌≤◌,
}
use rsx.Vmr.{Image, sys_getb}
use rsx.Vmr.Partitions.{p_attr, p_base, p_size, p_sub}
use rsx.Vmr.Partitions.Gaps.{Gap, find_gap, gap_walk}
use rsx.Vmr.Partitions.Slots.{after, before, last, Between, Row, overlaps}
use rsx.Vmr.Pool.{walk_fuel}
use rsx.Vmr.Pool.Chain.{sys_getw-zero}

-- The sub-partitions that hang on a cell: in the order of their bases, from page lo on, without
-- overlaps, none empty, below page `end`.
abbrev pub IsSubs : Image → (cell lo end : ℕ) → List Row → Type 0
IsSubs m cell lo end [] = get_int16 m cell ≡ 0
IsSubs m cell lo end ((a, b, n) ∷ r) =
    (get_int16 m cell ≡ a)
    × (0 < a)
    × (a + 24 < 65536)
    × (m (a + p_base) ≡ b)
    × (m (a + p_size) ≡ n)
    × (lo ≤ b)
    × (0 < n)
    × (b + n ≤ end)
    × IsSubs m a (b + n) end r

-- What the search for a gap finds.
pub data Fitted (cell lo end size : ℕ) (rows : List Row) : Option (Option Gap) → Type 0 where
  gap_at :
      {gap : Gap}
      → Between gap.base size cell rows gap.prvlnk gap.next
      → lo ≤ gap.base
      → gap.base + size ≤ end
      → Fitted cell lo end size rows (some (some gap))
  no_gap :
      ((x : ℕ) → lo ≤ x → x + size ≤ end → overlaps x size rows ≡ true)
      → Fitted cell lo end size rows (some none)

gap_walk-end :
    (fuel main_base main_size size prvlnk base : ℕ) (m : Image)
    → gap_walk (suc fuel) main_base main_size size prvlnk 0 base m
      ≡ some (
          if leb size ((main_size + main_base + 256 - base) % 256)
          then some (record { prvlnk = prvlnk; next = 0; base = base })
          else none)
unfolding gap_walk
gap_walk-end fuel main_base main_size size prvlnk base m = refl

gap_walk_step :
    (fuel main_base main_size size prvlnk base a b n : ℕ) (m : Image)
    → 0 < a
    → a + 24 < 65536
    → m (a + p_base) ≡ b
    → m (a + p_size) ≡ n
    → gap_walk (suc fuel) main_base main_size size prvlnk a base m
      ≡ elim (leb size ((b + 256 - base) % 256)) [
        | true ↦ some (some (record { prvlnk = prvlnk; next = a; base = base }))
        | false ↦ gap_walk fuel main_base main_size size a (get_int16 m a) ((b + n) % 256) m
      ]
unfolding gap_walk sys_getb
gap_walk_step fuel main_base main_size size prvlnk base a b n m pos room eb en =
    let wrap0 : (a + 0) % 65536 ≡ a = omega arith in
    let wrap1 : (a + 8) % 65536 ≡ a + 8 = omega arith in
    let wrap2 : (a + 6) % 65536 ≡ a + 6 = omega arith in
    let bank1 : a + 8 + 0 ≡ a + 8 = omega arith in
    let bank2 : a + 6 + 0 ≡ a + 6 = omega arith in
    rw (gap_walk, ne→== a 0 (λ z. omega arith), wrap1, bank1, eb)
      (elim (Bool-cases (leb size ((b + 256 - base) % 256))) [
        | inl y ↦ rw (y) refl
        | inr y ↦ rw (y, wrap1, bank1, eb, wrap0, wrap2, bank2, en, sys_getw-zero a m) refl
      ])

-- A search that goes on behind the first sub-partition.
behind_first :
    (cell lo end size a b n : ℕ) (r : List Row) {x : Option (Option Gap)}
    → lo ≤ b
    → b < lo + size
    → 0 < n
    → Fitted a (b + n) end size r x
    → Fitted cell lo end size ((a, b, n) ∷ r) x
behind_first cell lo end size a b n r low tight pos (gap_at place up room) =
    gap_at (after up place) (omega arith) room
behind_first cell lo end size a b n r low tight pos (no_gap full) = no_gap (λ x h1 h2.
    elim (Bool-cases (leb (b + n) x)) [
      | inl past ↦ ground (arith, full x (leb→le (b + n) x past) h2)
      | inr meets ↦ ground (arith, meets)
    ])

gap_walk-Fitted :
    (fuel main_base main_size size cell lo : ℕ) (rows : List Row) (m : Image)
    → IsSubs m cell lo (main_base + main_size) rows
    → length rows < fuel
    → main_base + main_size ≤ 256
    → lo ≤ main_base + main_size
    → 0 < size
    → 0 < lo
    → Fitted cell lo
        (main_base + main_size)
        size
        rows
        (gap_walk fuel main_base main_size size cell (get_int16 m cell) (lo % 256) m)
gap_walk-Fitted zero main_base main_size size cell lo rows m h enough fits low pos base =
    absurd (omega arith)
gap_walk-Fitted (suc fuel) main_base main_size size cell lo [] m h enough fits low pos base =
    rw (h, gap_walk-end fuel main_base main_size size cell (lo % 256) m)
      (elim (Bool-cases (leb size ((main_size + main_base + 256 - lo % 256) % 256))) [
        | inl room ↦
            let le = leb→le size ((main_size + main_base + 256 - lo % 256) % 256) room in
            rw (room) (gap_at last (omega arith) (omega arith))
        | inr tight ↦
            let lt = leb→lt size ((main_size + main_base + 256 - lo % 256) % 256) tight in
            rw (tight) (no_gap (λ x a b. absurd (omega arith)))
      ])
gap_walk-Fitted (suc fuel) main_base main_size size cell lo ((a, b, n) ∷ r) m h enough fits low pos
      base =
    rw (h.0, gap_walk_step fuel main_base main_size size cell (lo % 256) a b n m h.1 h.2 h.3 h.4)
      (elim (Bool-cases (leb size ((b + 256 - lo % 256) % 256))) [
        | inl room ↦
            let le = leb→le size ((b + 256 - lo % 256) % 256) room in
            rw (room) (
              gap_at (before (omega (arith, h.5, h.6, h.7))) (omega (arith, h.5, h.6, h.7))
                (omega (arith, h.5, h.6, h.7)))
        | inr tight ↦
            let lt = leb→lt size ((b + 256 - lo % 256) % 256) tight in
            rw (tight) (
              behind_first cell lo (main_base + main_size) size a b n r h.5
                (omega (arith, h.5, h.6, h.7)) h.6
                (gap_walk-Fitted fuel main_base main_size size a (b + n) r m h.8 (omega arith) fits
                  h.7 pos (omega (arith, h.6))))
      ])

only_place :
    (m : Image) (cell lo end b n : ℕ) (rows : List Row)
    → get_int16 m cell ≡ 0
    → IsSubs m cell lo end rows
    → Between b n cell rows cell 0
only_place m cell lo end b n [] e h = last
only_place m cell lo end b n ((a, pb, pn) ∷ r) e h = absurd (omega (arith, h.0, h.1, e))

-- A main partition in memory, and its list of sub-partitions.
pub record IsMain (m : Image) (mainpcb base size : ℕ) (subs : List Row) : Type 0 where
  pub low : mainpcb + 24 < 65536
  pub system : has_bit (m (mainpcb + p_attr)) 2 ≡ true
  pub base_at : m (mainpcb + p_base) ≡ base
  pub size_at : m (mainpcb + p_size) ≡ size
  pub pages : (0 < base) × (base < 256) × (base + size ≤ 256)
  pub list : IsSubs m (mainpcb + p_sub) base (base + size) subs
  pub few : length subs < 65536

-- In a system-controlled main partition with a base above page zero that ends by page 256, with a
-- list of fewer than 65536 sub-partitions that are sorted and do not overlap, `find_gap` ends. It
-- finds a place in the list where the pages asked for overlap no sub-partition and lie within the
-- main one; or it refuses, and then there is no such place.
pub find_gap-Fitted :
    (m : Image) (mainpcb base main_size size : ℕ) (subs : List Row)
    → IsMain m mainpcb base main_size subs
    → 0 < size
    → Fitted (mainpcb + p_sub) base (base + main_size) size subs (find_gap mainpcb size m)
unfolding find_gap sys_getb
find_gap-Fitted m mainpcb base main_size size subs h pos =
    let byte : base % 256 ≡ base = omega (arith, h.pages) in
    let wrap1 : (mainpcb + 8) % 65536 ≡ mainpcb + 8 = omega (arith, h.low) in
    let wrap2 : (mainpcb + 6) % 65536 ≡ mainpcb + 6 = omega (arith, h.low) in
    let wrap3 : (mainpcb + 4) % 65536 ≡ mainpcb + 4 = omega (arith, h.low) in
    let wrap4 : (mainpcb + 10) % 65536 ≡ mainpcb + 10 = omega (arith, h.low) in
    let bank1 : mainpcb + 8 + 0 ≡ mainpcb + 8 = omega arith in
    let bank2 : mainpcb + 6 + 0 ≡ mainpcb + 6 = omega arith in
    let bank4 : mainpcb + 10 + 0 ≡ mainpcb + 10 = omega arith in
    rw (find_gap, wrap4, bank4, h.system, wrap3, sys_getw-zero (mainpcb + 4) m)
      (elim (eq-cases (get_int16 m (mainpcb + 4)) 0) [
        | inl none_yet ↦
            rw
              (
                none_yet,
                wrap1,
                bank1,
                h.base_at,
                wrap2,
                bank2,
                h.size_at,
                wrap3,
                sys_getw-zero (mainpcb + 4) m,
                none_yet,
              )
              (elim (Bool-cases (leb size main_size)) [
                | inl room ↦
                    let le = leb→le size main_size room in
                    rw (room) (
                      gap_at
                        (only_place m (mainpcb + 4) base (base + main_size) base size subs none_yet
                          h.list)
                        (omega arith) (omega arith))
                | inr tight ↦
                    let lt = leb→lt size main_size tight in
                    rw (tight) (no_gap (λ x a b. absurd (omega arith)))
              ])
        | inr some_sub ↦
            rw
              (
                ne→== (get_int16 m (mainpcb + 4)) 0 some_sub,
                wrap1,
                bank1,
                h.base_at,
                wrap2,
                bank2,
                h.size_at,
                wrap3,
                sys_getw-zero (mainpcb + 4) m,
              )
              (subst
                (λ x. Fitted (mainpcb + 4) base (base + main_size) size subs (
                  gap_walk walk_fuel base main_size size (mainpcb + 4) (get_int16 m (mainpcb + 4)) x
                    m))
                byte
                (gap_walk-Fitted walk_fuel base main_size size (mainpcb + 4) base subs m h.list
                  h.few h.pages.2 (omega arith) pos h.pages.0))
      ])
