-- ===== src/Check/Inodes/Sound.antt =====
-- What the check of an index file entry repairs.
use rsx.Base.{
  AreBytes, Block, Bool, Bool-cases, arith, false, get_int16, get_int24, has_bit, if◌then◌else◌,
  inl, inr, leb, ltb, ne→==, refl, subst, sym, true, word24, ℕ, ◌%◌, ◌&&◌, ◌*◌, ◌+◌, ◌/◌, ◌<◌, ◌==◌,
  ◌∙◌, ◌≡◌, ◌≤◌, ◌⊎◌,
}
use rsx.Check.Inodes.{
  Fields, check_contiguous, check_entry, check_fields, check_mapped, limit_lbcnt, limit_used,
  read_fields, store_fields, truncate,
}

-- What the check asks of the numbers of an entry in use. A contiguous file starts and ends on the
-- volume and uses no more blocks than it has; of a mapped file only the address of the first map
-- block is looked at, and the number of blocks only if that is 0. The last block has at most 512
-- bytes.
abbrev pub is_sound : (nblocks blkno : ℕ) → (contiguous : Bool) → Fields → Bool
is_sound nblocks blkno contiguous f =
    (if contiguous
      then ltb blkno nblocks && leb (blkno + f.nalloc) nblocks && leb f.nused f.nalloc
      else if blkno == 0
      then f.nalloc == 0
      else leb 2 blkno && ltb blkno nblocks)
    && leb f.lbcnt 512

-- What is left of an entry: it is sound, or it is no longer in use.
record Repaired (nblocks blkno : ℕ) (contiguous : Bool) (f : Fields) (errs : ℕ) (g : Fields)
    : Type 0 where
  pub sound : (0 < g.lcnt) → is_sound nblocks blkno contiguous g ≡ true
  pub kept : is_sound nblocks blkno contiguous f ≡ true → (errs ≡ 0) × (g ≡ f)
  pub counted : is_sound nblocks blkno contiguous f ≡ false → 0 < errs
  pub links : (g.lcnt ≡ 0) ⊎ (g.lcnt ≡ f.lcnt)
  pub smaller : (g.nalloc ≤ f.nalloc) × (g.nused ≤ f.nused) × (g.lbcnt ≤ f.lbcnt)

check_fields-Repaired :
    (nblocks blkno : ℕ) (contiguous : Bool) (f : Fields)
    → Repaired nblocks blkno contiguous f
        (check_fields nblocks blkno contiguous f).0
        (check_fields nblocks blkno contiguous f).1
unfolding check_fields check_contiguous check_mapped limit_lbcnt truncate limit_used
check_fields-Repaired nblocks blkno true f = record {
  sound = λ h. ground (arith, h);
  kept = λ h. (ground (arith, h), ground (arith, h));
  counted = λ h. ground (arith, h);
  links = ground arith;
  smaller = (ground arith, ground arith, ground arith);
}
check_fields-Repaired nblocks blkno false f = record {
  sound = λ h. ground (arith, h);
  kept = λ h. (ground (arith, h), ground (arith, h));
  counted = λ h. ground (arith, h);
  links = ground arith;
  smaller = (ground arith, ground arith, ground arith);
}

read_fields-store_fields :
    (e : Block) (f : Fields)
    → f.lcnt < 65536
    → f.nalloc < 16777216
    → f.nused < 16777216
    → f.lbcnt < 65536
    → read_fields (store_fields e f) ≡ f
read_fields-store_fields e f h1 h2 h3 h4 =
    let lcnt : f.lcnt % 256 + 256 * (f.lcnt / 256 % 256) ≡ f.lcnt = omega arith in
    let lbcnt : f.lbcnt % 256 + 256 * (f.lbcnt / 256 % 256) ≡ f.lbcnt = omega arith in
    rw (lcnt, word24 f.nalloc h2, word24 f.nused h3, lbcnt) refl

store_fields-away :
    (e : Block) (f : Fields) (y : ℕ) → (1 < y × y < 8) ⊎ (15 < y) → store_fields e f y ≡ e y
store_fields-away e f y h = ground (arith, h)

-- The check of an entry in use, of which all cells are bytes.
pub record Mended (nblocks : ℕ) (e : Block) (errs : ℕ) (w : Block) : Type 0 where
  pub again : 0 < get_int16 w 0 → (check_entry nblocks w).0 ≡ 0
  pub clean : is_sound nblocks (get_int24 e 32) (has_bit (e 2) 0x08) (read_fields e) ≡ (errs == 0)
  pub fields : errs ≡ 0 → read_fields w ≡ read_fields e
  pub frame : (y : ℕ) → (1 < y × y < 8) ⊎ (15 < y) → w y ≡ e y

-- On an entry whose cells are bytes, the check of an entry in use counts no error just if the
-- last block has at most 512 bytes and: for a contiguous file, the first block and the end are on
-- the volume, and no more blocks are used than there are; for another file, which is not looked
-- at any further, the first map block is 0 and no blocks are allocated, or it is from 2 on and on
-- the volume. Then the numbers of the entry stay. A second check of what it leaves finds no error
-- in an entry that is still in use. Other bytes of the entry never change.
pub check_entry-Mended :
    (nblocks : ℕ) (e : Block)
    → AreBytes e
    → Mended nblocks e (check_entry nblocks e).0 (check_entry nblocks e).1
unfolding check_entry
check_entry-Mended nblocks e bytes =
    let f = read_fields e in
    let blkno = get_int24 e 32 in
    let contiguous = has_bit (e 2) 0x08 in
    let r = check_fields-Repaired nblocks blkno contiguous f in
    let g = (check_fields nblocks blkno contiguous f).1 in
    let lcnt : f.lcnt < 65536 = omega (arith, bytes 0, bytes 1) in
    let nalloc : f.nalloc < 16777216 = omega (arith, bytes 8, bytes 9, bytes 10) in
    let nused : f.nused < 16777216 = omega (arith, bytes 11, bytes 12, bytes 13) in
    let lbcnt : f.lbcnt < 65536 = omega (arith, bytes 14, bytes 15) in
    let back : read_fields (store_fields e g) ≡ g =
      read_fields-store_fields e g (omega (arith, r.links)) (omega (arith, r.smaller))
        (omega (arith, r.smaller)) (omega (arith, r.smaller)) in
    record {
      again = λ pos.
          let in_use : 0 < g.lcnt = subst (λ x. 0 < x.lcnt) back pos in
          let second = check_fields-Repaired nblocks blkno contiguous g in
          subst (λ x. (check_fields nblocks blkno contiguous x).0 ≡ 0) (sym back)
            (second.kept (r.sound in_use)).0;
      clean = elim (Bool-cases (is_sound nblocks blkno contiguous f)) [
        | inl s ↦ s ∙ sym (rw ((r.kept s).0) refl)
        | inr u ↦
            u
            ∙ sym (
                ne→== (check_fields nblocks blkno contiguous f).0 0
                  (λ z. let some_errs = r.counted u in omega arith))
      ];
      fields = λ none_found. elim (Bool-cases (is_sound nblocks blkno contiguous f)) [
        | inl s ↦ back ∙ (r.kept s).1
        | inr u ↦ absurd (let some_errs = r.counted u in omega arith)
      ];
      frame = λ y away. store_fields-away e g y away;
    }
