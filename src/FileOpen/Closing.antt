-- ===== src/FileOpen/Closing.antt =====
-- What close_file stores and open_file finds again: fileio.c.
use rsx.Base.{
  ==_refl, Block, Bool, Option, ap, arith, false, get_int16, get_int24, lt→ltb, ne→==, none, refl,
  some, suc, true, word24, zero, ℕ, ◌%◌, ◌*◌, ◌+◌, ◌/◌, ◌<◌, ◌==◌, ◌^◌, ◌∙◌, ◌≡◌,
}
use rsx.Bitmap.{Volume}
use rsx.Buffer.{Cache}
use rsx.Buffer.Session.{HasFree-Settled}
use rsx.Dates.{Tm, set_date, set_mdate}
use rsx.FileIo.{Fcb, Header, Run, ok}
use rsx.FileOpen.{change_entry, close_file, closed_entry, fcb_from, header_from, open_entry}
use rsx.IndexFile.{read_inode}
use rsx.IndexFile.Access.{
  CanAccess, inode_at, inode_at-WritesEntry, read_inode-at, write_inode-WritesEntry,
}

-- The numbers of the header fit into the fields of the entry.
pub record FitsEntry (h : Header) : Type 0 where
  pub nalloc : h.nalloc < 2 ^ 24
  pub nused : h.nused < 2 ^ 24
  pub lbcount : h.lbcount < 65536
  pub bmap : (k : ℕ) → h.bmap k < 2 ^ 24

-- Two headers give the same allocation, length and number.
pub record SameFile (h k : Header) : Type 0 where
  pub inode : k.inode ≡ h.inode
  pub nalloc : k.nalloc ≡ h.nalloc
  pub nused : k.nused ≡ h.nused
  pub lbcount : k.lbcount ≡ h.lbcount
  pub bmap : (i : ℕ) → i < 6 → k.bmap i ≡ h.bmap i

word16 : (x : ℕ) → x < 65536 → x % 256 + 256 * (x / 256 % 256) ≡ x
word16 x h = omega arith

module _ (h : Header) (now : Tm) (e : Block) (fits : FitsEntry h) where
  abbrev closed : Block
  closed = closed_entry h now e

  closed-map : (i : ℕ) → i < 6 → get_int24 closed (32 + i * 3) ≡ h.bmap i
  unfolding set_mdate set_date
  closed-map zero less = word24 (h.bmap 0) (fits.bmap 0)
  closed-map (suc zero) less = word24 (h.bmap 1) (fits.bmap 1)
  closed-map (suc (suc zero)) less = word24 (h.bmap 2) (fits.bmap 2)
  closed-map (suc (suc (suc zero))) less = word24 (h.bmap 3) (fits.bmap 3)
  closed-map (suc (suc (suc (suc zero)))) less = word24 (h.bmap 4) (fits.bmap 4)
  closed-map (suc (suc (suc (suc (suc zero))))) less = word24 (h.bmap 5) (fits.bmap 5)
  closed-map (suc (suc (suc (suc (suc (suc i)))))) less = absurd (omega arith)

  closed-nalloc : get_int24 closed 8 ≡ h.nalloc
  unfolding set_mdate set_date
  closed-nalloc = word24 h.nalloc fits.nalloc

  closed-nused : get_int24 closed 11 ≡ h.nused
  unfolding set_mdate set_date
  closed-nused = word24 h.nused fits.nused

  closed-lbcount : get_int16 closed 14 ≡ h.lbcount
  unfolding set_mdate set_date
  closed-lbcount = word16 h.lbcount fits.lbcount

  closed-links : (get_int16 closed 0 ≡ get_int16 e 0) × (closed 2 ≡ e 2)
  unfolding set_mdate set_date
  closed-links = (refl, refl)

-- An array that has the 64 bytes of the closed entry gives back the file.
SameFile-closed :
    (h : Header) (now : Tm) (e a : Block)
    → FitsEntry h
    → ((o : ℕ) → o < 64 → a o ≡ closed_entry h now e o)
    → SameFile h (header_from h.inode a)
SameFile-closed h now e a fits alike = record {
  inode = refl;
  nalloc = word24-alike 8 (omega arith) ∙ closed-nalloc h now e fits;
  nused = word24-alike 11 (omega arith) ∙ closed-nused h now e fits;
  lbcount =
      ap (λ x. x + 256 * a 15) (alike 14 (omega arith))
      ∙ ap (λ x. closed_entry h now e 14 + 256 * x) (alike 15 (omega arith))
      ∙ closed-lbcount h now e fits;
  bmap = λ i less. word24-alike (32 + i * 3) (omega arith) ∙ closed-map h now e fits i less;
}
  where
    word24-alike : (i : ℕ) → i < 62 → get_int24 a i ≡ get_int24 (closed_entry h now e) i
    word24-alike i less =
        rw (alike i (omega arith), alike (i + 1) (omega arith), alike (i + 2) (omega arith)) refl

-- What close_file does when the entry is in use: it is read, changed and written.
Changed : Volume → ℕ → (Block → Block) → Cache → Bool × Cache → Type 0
Changed g ino change v r =
    (r.0 ≡ true)
    × CanAccess g ino r.1
    × (e : Block) × ((o : ℕ) → o < 64 → e o ≡ inode_at g v ino o)
    × ((o : ℕ) → o < 64 → inode_at g r.1 ino o ≡ change e o)

change_entry-Changed :
    (g : Volume) (ino : ℕ) (inode : Block) (change : Block → Block) {v : Cache}
    → CanAccess g ino v
    → 0 < ino
    → ino < 65536
    → 0 < get_int16 (inode_at g v ino) 0
    → Changed g ino change v (change_entry g ino inode change v)
unfolding Changed change_entry
change_entry-Changed g ino inode change {v} can lo hi used =
    let r = read_inode-at g ino inode can in
    let e = (read_inode g ino inode v).1 in
    let w = (read_inode g ino inode v).2 in
    let can1 : CanAccess g ino w = record {
      coherent = r.2.settled.coherent;
      free = HasFree-Settled can.free r.2.settled;
      room = can.room;
    } in
    let wr = write_inode-WritesEntry g ino (change e) can1 in
    let test : (get_int16 e 0 == 0) ≡ false = rw (r.1 0, r.1 1) (ground (arith, used)) in
    rw (ne→== ino 0 (λ e. omega arith), r.0, test)
      (
        refl,
        record {
          coherent = wr.settled.coherent;
          free = HasFree-Settled can1.free wr.settled;
          room = can.room;
        },
        e,
        (λ o less. r.1 o ∙ rw (lt→ltb o 64 less) refl),
        (λ o less.
            inode_at-WritesEntry g ino ino o (change e) wr lo hi lo hi less
            ∙ rw (==_refl ino) refl),
      )

-- How a file is found that has been closed.
pub data Reopened (h : Header) (attrib : ℕ) (d : Fcb) : Run (Option Fcb) → Type 0 where
  reopened :
      {u : Cache} (f : Fcb)
      → SameFile h f.header
      → f.header.attrib ≡ attrib
      → f.curblk ≡ 0
      → f.byteptr ≡ 0
      → Reopened h attrib d (ok (some f) d u)

open_entry-Reopened :
    (g : Volume) (h : Header) (now : Tm) (dirent inode : Block) (d : Fcb) (v : Cache) {w : Cache}
    → FitsEntry h
    → 0 < get_int16 (inode_at g v h.inode) 0
    → get_int16 dirent 0 ≡ h.inode
    → CanAccess g h.inode w
    → (e : Block) → ((o : ℕ) → o < 64 → e o ≡ inode_at g v h.inode o)
    → ((o : ℕ) → o < 64 → inode_at g w h.inode o ≡ closed_entry h now e o)
    → Reopened h (inode_at g v h.inode 2) d (open_entry g (λ i. none) dirent inode d w)
unfolding open_entry
open_entry-Reopened g h now dirent inode d v {w} fits used at can e old new =
    let r = read_inode-at g h.inode inode can in
    let a = (read_inode g h.inode inode w).1 in
    let whole : (o : ℕ) → o < 64 → a o ≡ closed_entry h now e o =
      λ o less. r.1 o ∙ rw (lt→ltb o 64 less) (new o less) in
    let links : get_int16 a 0 ≡ get_int16 (inode_at g v h.inode) 0 =
      rw (whole 0 (omega arith), whole 1 (omega arith))
        ((closed-links h now e fits).0 ∙ rw (old 0 (omega arith), old 1 (omega arith)) refl) in
    let test : (get_int16 a 0 == 0) ≡ false = rw (links) (ground (arith, used)) in
    rw (at, r.0, test)
      (reopened (fcb_from (λ i. none) h.inode a) (SameFile-closed h now e a fits whole)
        (whole 2 (omega arith) ∙ (closed-links h now e fits).1 ∙ old 2 (omega arith)) refl refl)

-- On a coherent cache with a free buffer, close_file of a file whose entry is on the volume and in
-- use, and whose numbers fit into the entry, succeeds. Opening the entry after that, when no other
-- FCB of the file is left, gives a header with the same allocation map, block counts and length of
-- the last block and the attributes of the entry, with the position at the start.
pub close_file-Reopened :
    (g : Volume) (f : Fcb) (now : Tm) (inode dirent inode' : Block) (d : Fcb) {v : Cache}
    → CanAccess g f.header.inode v
    → 0 < f.header.inode
    → f.header.inode < 65536
    → 0 < get_int16 (inode_at g v f.header.inode) 0
    → FitsEntry f.header
    → get_int16 dirent 0 ≡ f.header.inode
    → let (done, w) = close_file g f now inode v in
      (done ≡ true)
      × Reopened f.header
          (inode_at g v f.header.inode 2)
          d
          (open_entry g (λ i. none) dirent inode' d w)
unfolding close_file Changed
close_file-Reopened g f now inode dirent inode' d {v} can lo hi used fits at =
    let c =
      change_entry-Changed g f.header.inode inode (closed_entry f.header now) can lo hi used in
    (c.0, open_entry-Reopened g f.header now dirent inode' d v fits used at c.1 c.2 c.3 c.4)
