-- ===== src/Vmr/Tasks/Chain.antt =====
-- The list of tasks in memory, for vmr.c: control blocks that do not overlap.
use rsx.Base.{
  Bool, Bool-cases, List, [], arith, false, get_int16, if◌then◌else◌, inl, inr, leb, ltb, ltb→ge,
  ltb→lt, refl, true, ℕ, ◌&&◌, ◌+◌, ◌<◌, ◌||◌, ◌∙◌, ◌∷◌, ◌≡◌, ◌≤◌, ◌⊎◌,
}
use rsx.Vmr.{Image}
use rsx.Vmr.Tasks.{t_pri, t_tcbl, tcbsz}

-- A task control block and the priority in it.
abbrev pub Task : Type 0
Task = ℕ × ℕ

-- The n bytes from x on are in none of the blocks.
abbrev pub Away : ℕ → ℕ → List Task → Type 0
Away x n [] = Unit
Away x n ((a, p) ∷ r) = ((x + n ≤ a) ⊎ (a + tcbsz ≤ x)) × Away x n r

-- The list of tasks that hangs on a cell; the blocks do not overlap.
abbrev pub IsTasks : Image → ℕ → List Task → Type 0
IsTasks m cell [] = get_int16 m cell ≡ 0
IsTasks m cell ((a, p) ∷ r) =
    (get_int16 m cell ≡ a)
    × (0 < a)
    × (a + tcbsz < 65536)
    × (m (a + t_pri) ≡ p)
    × Away a tcbsz r
    × IsTasks m (a + t_tcbl) r

-- A task is put before the first one that is less important than pri.
abbrev pub insert : (pri : ℕ) → Task → List Task → List Task
insert pri t [] = t ∷ []
insert pri t ((a, p) ∷ r) = if ltb p pri then t ∷ (a, p) ∷ r else (a, p) ∷ insert pri t r

-- No task comes behind a less important one, and none is more important than top.
abbrev pub IsRanked : ℕ → List Task → Type 0
IsRanked top [] = Unit
IsRanked top ((a, p) ∷ r) = (p ≤ top) × IsRanked p r

pub insert-IsRanked :
    (pri t top : ℕ) (tasks : List Task)
    → pri ≤ top
    → IsRanked top tasks
    → IsRanked top (insert pri (t, pri) tasks)
insert-IsRanked pri t top [] h s = (h, tt)
insert-IsRanked pri t top ((a, p) ∷ r) h s = elim (Bool-cases (ltb p pri)) [
  | inl less ↦ rw (less) (h, (let l = ltb→lt p pri less in omega arith, s.1))
  | inr more ↦ rw (more) (s.0, insert-IsRanked pri t p r (ltb→ge p pri more) s.1)
]

-- The byte is in one of the blocks.
abbrev pub in_block : ℕ → List Task → Bool
in_block y [] = false
in_block y ((a, p) ∷ r) = (leb a y && ltb y (a + tcbsz)) || in_block y r

pub Away-in_block :
    (x n y : ℕ) (tasks : List Task) → Away x n tasks → x ≤ y → y < x + n → in_block y tasks ≡ false
Away-in_block x n y [] h low high = refl
Away-in_block x n y ((a, p) ∷ r) h low high =
    ground (arith, h.0, Away-in_block x n y r h.1 low high)

pub Away-outside :
    (x n y : ℕ) (tasks : List Task)
    → Away x n tasks
    → in_block y tasks ≡ true
    → (y < x) ⊎ (x + n ≤ y)
Away-outside x n y tasks h at = elim (Bool-cases (leb x y && ltb y (x + n))) [
  | inl e ↦ absurd (
      let f = Away-in_block x n y tasks h (ground (arith, e)) (ground (arith, e)) in
      ground (arith, f, at))
  | inr e ↦ ground (arith, e)
]

pub Away-part :
    (x n y k : ℕ) (tasks : List Task) → Away x n tasks → x ≤ y → y + k ≤ x + n → Away y k tasks
Away-part x n y k [] h low high = tt
Away-part x n y k ((a, p) ∷ r) h low high = (ground (arith, h.0), Away-part x n y k r h.1 low high)

-- A list stays when only bytes outside of it change.
pub IsTasks-same :
    (m w : Image) (cell q : ℕ) (tasks : List Task)
    → get_int16 w q ≡ get_int16 m cell
    → ((y : ℕ) → in_block y tasks ≡ true → w y ≡ m y)
    → IsTasks m cell tasks
    → IsTasks w q tasks
IsTasks-same m w cell q [] e same h = e ∙ h
IsTasks-same m w cell q ((a, p) ∷ r) e same h = (
  e ∙ h.0,
  h.1,
  h.2,
  same (a + t_pri) (ground arith) ∙ h.3,
  h.4,
  IsTasks-same m w (a + t_tcbl) (a + t_tcbl) r
      (rw (same (a + 2) (ground arith), same (a + 2 + 1) (ground arith)) refl)
      (λ y at. same y (ground (arith, at))) h.5,
)

pub Away-insert :
    (x n pri t q : ℕ) (tasks : List Task)
    → (x + n ≤ t) ⊎ (t + tcbsz ≤ x)
    → Away x n tasks
    → Away x n (insert pri (t, q) tasks)
Away-insert x n pri t q [] off h = (off, tt)
Away-insert x n pri t q ((a, p) ∷ r) off h = elim (Bool-cases (ltb p pri)) [
  | inl e ↦ rw (e) (off, h)
  | inr e ↦ rw (e) (h.0, Away-insert x n pri t q r off h.1)
]
