-- ===== src/FileNames/Shared.antt =====
-- The list of headers in use, `get_fcb` and `free_fcb` of fileio.c.
use rsx.Base.{
  ==_refl, Bool-cases, List, Option, [], ap, arith, false, if◌then◌else◌, inl, inr, none, refl,
  some, true, ℕ, ◌+◌, ◌-◌, ◌<◌, ◌==◌, ◌∷◌, ◌≡◌,
}
use rsx.FileNames.{Use, add_use, free_fcb, get_fcb}

-- Every header is used by an FCB.
unfoldable pub AllUsed : List Use → Type 0
AllUsed [] = Unit
AllUsed (h ∷ hs) = (0 < h.usecnt) × AllUsed hs

-- How many FCBs use the header of a file.
unfoldable pub uses : ℕ → List Use → ℕ
uses ino [] = 0
uses ino (h ∷ hs) = let rest = uses ino hs in if h.inode == ino then h.usecnt else rest

-- What freeing leaves of a list that `add_use` made, or of one with a new header.
Undone : (ino : ℕ) (hs : List Use) (r : Option (List Use)) → Type 0
Undone ino hs none = uses ino hs ≡ 0
Undone ino hs (some us) = (free_fcb ino us ≡ hs) × (uses ino us ≡ uses ino hs + 1)

nil-Undone : (ino : ℕ) → Undone ino [] none
unfolding Undone uses
nil-Undone ino = refl

hit-Undone :
    (ino : ℕ) (h : Use) (hs : List Use)
    → (h.inode == ino) ≡ true
    → 0 < h.usecnt
    → Undone ino (h ∷ hs) (some (record h { usecnt = h.usecnt + 1 } ∷ hs))
unfolding Undone uses free_fcb
hit-Undone ino h hs e pos =
    let back : h.usecnt + 1 - 1 ≡ h.usecnt = omega arith in
    let live : (h.usecnt + 1 - 1 == 0) ≡ false = ground (arith, pos) in
    (rw (e, live) (ap (λ u. record { inode = h.inode; usecnt = u } ∷ hs) back), rw (e) refl)

miss-Undone :
    (ino : ℕ) (h : Use) (hs : List Use) (r : Option (List Use))
    → (h.inode == ino) ≡ false
    → Undone ino hs r
    → Undone ino (h ∷ hs) (elim r [ none ↦ none | some us ↦ some (h ∷ us) ])
unfolding Undone uses free_fcb
miss-Undone ino h hs none e d = rw (e) d
miss-Undone ino h hs (some us) e d = rw (e) (ap (λ t. h ∷ t) d.0, d.1)

add_use-Undone : (ino : ℕ) (hs : List Use) → AllUsed hs → Undone ino hs (add_use ino hs)
unfolding add_use AllUsed
add_use-Undone ino [] a = nil-Undone ino
add_use-Undone ino (h ∷ hs) a = elim (Bool-cases (h.inode == ino)) [
  | inl e ↦ rw (e) (hit-Undone ino h hs e a.0)
  | inr e ↦ rw (e) (miss-Undone ino h hs (add_use ino hs) e (add_use-Undone ino hs a.1))
]

abbrev with_new : ℕ → List Use → Option (List Use) → List Use
with_new ino hs none = record { inode = ino; usecnt = 1 } ∷ hs
with_new ino hs (some us) = us

get_fcb-Undone :
    (ino : ℕ) (hs : List Use) (r : Option (List Use))
    → Undone ino hs r
    → (free_fcb ino (with_new ino hs r) ≡ hs) × (uses ino (with_new ino hs r) ≡ uses ino hs + 1)
unfolding Undone uses free_fcb
get_fcb-Undone ino hs none d =
    let hit = ==_refl ino in (rw (hit) refl, rw (hit) (ground (arith, d)))
get_fcb-Undone ino hs (some us) d = d

-- When every header in the list is in use, get_fcb adds one use to the header of the file, or makes
-- a header with one use, and free_fcb of that file then gives back the list as it was.
pub free_fcb-get_fcb :
    (ino : ℕ) (hs : List Use)
    → AllUsed hs
    → (free_fcb ino (get_fcb ino hs) ≡ hs) × (uses ino (get_fcb ino hs) ≡ uses ino hs + 1)
unfolding get_fcb
free_fcb-get_fcb ino hs a = get_fcb-Undone ino hs (add_use ino hs) (add_use-Undone ino hs a)
