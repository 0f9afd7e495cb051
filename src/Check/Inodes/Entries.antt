-- ===== src/Check/Inodes/Entries.antt =====
-- The loop of `check_index_file` over the entries of the index file.
use rsx.Base.{
  ==_refl, Block, Bool-cases, arith, eq-cases, false, get_int16, if◌then◌else◌, inl, inr, leb, ltb,
  lt→ltb, ne→==, refl, suc, sym, true, zero, ℕ, ◌&&◌, ◌+◌, ◌<◌, ◌==◌, ◌∙◌, ◌≡◌, ◌≤◌,
}
use rsx.Bitmap.{Volume}
use rsx.Buffer.{Cache}
use rsx.Buffer.Get.{HasFree}
use rsx.Buffer.Session.{HasFree-Settled, Quiet, Settled, Settled-refl, Settled-trans}
use rsx.Buffer.View.{IsCoherent}
use rsx.Check.{Pass, load_inode}
use rsx.Check.Inodes.{check_entries, check_entry}
use rsx.IndexFile.{entry_block, read_inode, write_inode}
use rsx.IndexFile.Access.{
  CanAccess, WritesEntry, inode_at, inode_at-WritesEntry, read_inode-at, write_inode-WritesEntry,
}

-- An entry after the check, and the errors found in it; one that is not in use is passed over.
abbrev pub after_check : ℕ → Block → Block
after_check nblocks e = if get_int16 e 0 == 0 then e else (check_entry nblocks e).1

abbrev pub faults_of : ℕ → Block → ℕ
faults_of nblocks e = if get_int16 e 0 == 0 then 0 else (check_entry nblocks e).0

-- The errors in the n entries behind entry i.
abbrev pub faults : ℕ → (n i : ℕ) → (ℕ → Block) → ℕ
faults nblocks zero i table = 0
faults nblocks (suc n) i table = faults_of nblocks (table (i + 1)) + faults nblocks n (i + 1) table

-- The n entries behind entry i have been checked and written back.
pub record EntriesChecked (g : Volume) (n i errcnt : ℕ) (v : Cache) (r : Pass) : Type 0 where
  pub passed : r.passed ≡ true
  pub count : r.errcnt ≡ errcnt + faults g.nblocks n i (inode_at g v)
  pub entries :
      (k o : ℕ)
      → 0 < k
      → k < 65536
      → o < 64
      → inode_at g r.cache k o ≡ (
          if ltb i k && leb k (i + n)
          then after_check g.nblocks (inode_at g v k) o
          else inode_at g v k o)
  pub settled : Settled v r.cache

-- The 64 bytes of an entry are the equal.
abbrev Agree : Block → Block → Type 0
Agree p q = (o : ℕ) → o < 64 → p o ≡ q o

check_entry-Agree :
    (nblocks : ℕ) (p q : Block)
    → Agree p q
    → ((check_entry nblocks p).0 ≡ (check_entry nblocks q).0)
      × Agree (check_entry nblocks p).1 (check_entry nblocks q).1
unfolding check_entry
check_entry-Agree nblocks p q h =
    let at : (o : ℕ) → o < 64 → p o ≡ q o = h in
    (
      rw
          (
            at 0 (omega arith),
            at 1 (omega arith),
            at 2 (omega arith),
            at 8 (omega arith),
            at 9 (omega arith),
            at 10 (omega arith),
            at 11 (omega arith),
            at 12 (omega arith),
            at 13 (omega arith),
            at 14 (omega arith),
            at 15 (omega arith),
            at 32 (omega arith),
            at 33 (omega arith),
            at 34 (omega arith),
          )
          refl,
      λ o less.
          rw
            (
              at 0 (omega arith),
              at 1 (omega arith),
              at 2 (omega arith),
              at 8 (omega arith),
              at 9 (omega arith),
              at 10 (omega arith),
              at 11 (omega arith),
              at 12 (omega arith),
              at 13 (omega arith),
              at 14 (omega arith),
              at 15 (omega arith),
              at 32 (omega arith),
              at 33 (omega arith),
              at 34 (omega arith),
              at o less,
            )
            refl,
    )

faults_of-Agree :
    (nblocks : ℕ) (p q : Block) → Agree p q → faults_of nblocks p ≡ faults_of nblocks q
faults_of-Agree nblocks p q h =
    rw (h 0 (omega arith), h 1 (omega arith), (check_entry-Agree nblocks p q h).0) refl

after_check-Agree :
    (nblocks : ℕ) (p q : Block) → Agree p q → Agree (after_check nblocks p) (after_check nblocks q)
after_check-Agree nblocks p q h o less =
    let equal : (get_int16 p 0 == 0) ≡ (get_int16 q 0 == 0) =
      rw (h 0 (omega arith), h 1 (omega arith)) refl in
    elim (Bool-cases (get_int16 q 0 == 0)) [
      | inl z ↦ rw (equal ∙ z, z) (h o less)
      | inr z ↦ rw (equal ∙ z, z) ((check_entry-Agree nblocks p q h).1 o less)
    ]

faults-Agree :
    (nblocks n i : ℕ) (s t : ℕ → Block)
    → ((k : ℕ) → i < k → k ≤ i + n → Agree (s k) (t k))
    → faults nblocks n i s ≡ faults nblocks n i t
faults-Agree nblocks zero i s t h = refl
faults-Agree nblocks (suc n) i s t h =
    rw
      (
        faults_of-Agree nblocks (s (i + 1)) (t (i + 1)) (h (i + 1) (omega arith) (omega arith)),
        faults-Agree nblocks n (i + 1) s t (λ k a b. h k (omega arith) (omega arith)),
      )
      refl

-- What the loop needs: the blocks of the entries are on the volume, and a buffer is free.
pub record CanCheck (g : Volume) (n i : ℕ) (v : Cache) : Type 0 where
  pub coherent : IsCoherent v
  pub free : HasFree v
  pub room : (k : ℕ) → i < k → k ≤ i + n → entry_block g k < g.nblocks
  pub count : i + n < 65536

-- Entry k is the next one, or one of the others.
in_range :
    (nblocks n i k : ℕ) (p q : Block)
    → i + suc n < 65536
    → ((o : ℕ) → o < 64 → q o ≡ (if k == i + 1 then after_check nblocks p o else p o))
    → (o : ℕ) → o < 64
    → (if ltb (i + 1) k && leb k (i + 1 + n) then after_check nblocks q o else q o)
      ≡ (if ltb i k && leb k (i + suc n) then after_check nblocks p o else p o)
in_range nblocks n i k p q few step o less = elim (eq-cases k (i + 1)) [
  | inl next ↦
      let inside : (ltb i k && leb k (i + suc n)) ≡ true = ground (arith, next) in
      let behind_it : (ltb (i + 1) k && leb k (i + 1 + n)) ≡ false = ground (arith, next) in
      let at : (k == i + 1) ≡ true = ground (arith, next) in
      rw (inside, behind_it, step o less, at) refl
  | inr other ↦
      let agree : Agree q p = λ b under. step b under ∙ rw (ne→== k (i + 1) other) refl in
      elim (Bool-cases (ltb i k && leb k (i + suc n))) [
        | inl inside ↦
            let too : (ltb (i + 1) k && leb k (i + 1 + n)) ≡ true = ground (arith, inside, other) in
            rw (inside, too) (after_check-Agree nblocks q p agree o less)
        | inr outside ↦
            let too : (ltb (i + 1) k && leb k (i + 1 + n)) ≡ false =
              ground (arith, outside, other) in
            rw (outside, too) (agree o less)
      ]
]

-- A round that has settled what entry i + 1 is, before the others.
then_rest :
    (g : Volume) (n i errcnt errs sum : ℕ) (v w : Cache) (r : Pass)
    → Settled v w
    → ((k o : ℕ)
        → 0 < k
        → k < 65536
        → o < 64
        → inode_at g w k o
          ≡ (if k == i + 1 then after_check g.nblocks (inode_at g v k) o else inode_at g v k o))
    → i + suc n < 65536
    → errs ≡ faults_of g.nblocks (inode_at g v (i + 1))
    → sum ≡ errcnt + errs
    → EntriesChecked g n (i + 1) sum w r
    → EntriesChecked g (suc n) i errcnt v r
then_rest g n i errcnt errs sum v w r settled step few equal total_is h = record {
  passed = h.passed;
  count =
      let others = faults-Agree g.nblocks n (i + 1) (inode_at g w) (inode_at g v) (λ k a b o less.
        step k o (omega arith) (omega arith) less ∙ rw (ne→== k (i + 1) (λ e. omega arith)) refl) in
      omega (arith, h.count, equal, others, total_is);
  entries = λ k o pos high less.
      h.entries k o pos high less
      ∙ in_range g.nblocks n i k (inode_at g v k) (inode_at g w k) few
          (λ b under. step k b pos high under) o less;
  settled = Settled-trans settled h.settled;
}

module _ (g : Volume) (n i errcnt : ℕ) (v w : Cache) (e : Block) (can : CanCheck g (suc n) i v)
    (quiet : Quiet v w) (agree : Agree e (inode_at g v (i + 1))) where
  shown : (k o : ℕ) → inode_at g w k o ≡ inode_at g v k o
  shown k o = rw (quiet.same (entry_block g k)) refl

  can_go_on : {u : Cache} → Settled v u → CanCheck g n (i + 1) u
  can_go_on settled = record {
    coherent = settled.coherent;
    free = HasFree-Settled can.free settled;
    room = λ k a b. can.room k (omega arith) (omega arith);
    count = omega (arith, can.count);
  }

  pass_over :
      {r : Pass}
      → (get_int16 e 0 == 0) ≡ true
      → EntriesChecked g n (i + 1) errcnt w r
      → EntriesChecked g (suc n) i errcnt v r
  pass_over {r} unused h =
      let first = inode_at g v (i + 1) in
      then_rest g n i errcnt 0 errcnt v w r quiet.settled
        (λ k o pos high less. shown k o ∙ elim (eq-cases k (i + 1)) [
          | inr ne ↦ rw (ne→== k (i + 1) ne) refl
          | inl at ↦
              rw (at, ==_refl (i + 1))
                (sym (agree o less)
                  ∙ sym (rw (unused) refl)
                  ∙ after_check-Agree g.nblocks e first agree o less)
        ])
        can.count (sym (rw (unused) refl) ∙ faults_of-Agree g.nblocks e first agree) (omega arith) h

  write_back :
      {r : Pass}
      → (get_int16 e 0 == 0) ≡ false
      → WritesEntry g
          (i + 1)
          (check_entry g.nblocks e).1
          w
          (write_inode g (i + 1) (check_entry g.nblocks e).1 w)
      → EntriesChecked g n
          (i + 1)
          (errcnt + (check_entry g.nblocks e).0)
          (write_inode g (i + 1) (check_entry g.nblocks e).1 w).1
          r
      → EntriesChecked g (suc n) i errcnt v r
  write_back {r} used wr h =
      let first = inode_at g v (i + 1) in
      let fixed = (check_entry g.nblocks e).1 in
      then_rest g n i errcnt (check_entry g.nblocks e).0 (errcnt + (check_entry g.nblocks e).0) v
        (write_inode g (i + 1) fixed w).1 r (Settled-trans quiet.settled wr.settled)
        (λ k o pos high less.
          inode_at-WritesEntry g (i + 1) k o fixed wr (omega arith) (omega (arith, can.count)) pos
            high less
          ∙ elim (eq-cases k (i + 1)) [
            | inr ne ↦ rw (ne→== k (i + 1) ne) (shown k o)
            | inl at ↦
                rw (at, ==_refl (i + 1))
                  (sym (rw (used) refl) ∙ after_check-Agree g.nblocks e first agree o less)
          ])
        can.count (sym (rw (used) refl) ∙ faults_of-Agree g.nblocks e first agree) refl h

-- When the blocks of the n entries behind entry i are on the volume, their numbers fit a word,
-- and the check may write to the volume, on a coherent cache with a free buffer, the loop of
-- check_index_file goes through. Each of the entries that is in use is left as its check leaves
-- it, and all other entries as they were; the count of errors is raised by the errors of the
-- entries, and all buffers are held as often as before.
pub check_entries-EntriesChecked :
    (n : ℕ) (g : Volume) (i : ℕ) (inode : Block) (errcnt : ℕ) {v : Cache}
    → CanCheck g n i v
    → EntriesChecked g n i errcnt v (check_entries n false g i inode errcnt v)
unfolding check_entries
check_entries-EntriesChecked zero g i inode errcnt {v} can = record {
  passed = refl;
  count = omega arith;
  entries = λ k o pos high less. ground arith;
  settled = Settled-refl v can.coherent;
}
check_entries-EntriesChecked (suc n) g i inode errcnt {v} can =
    let first = i + 1 in
    let here : CanAccess g first v = record {
      coherent = can.coherent;
      free = can.free;
      room = can.room first (omega arith) (omega arith);
    } in
    let rd = read_inode-at g first inode here in
    let e = (read_inode g first inode v).1 in
    let w = (read_inode g first inode v).2 in
    let agree : Agree e (inode_at g v first) = λ o less. rd.1 o ∙ rw (lt→ltb o 64 less) refl in
    rw (check_entries, load_inode, rd.0)
      (elim (Bool-cases (get_int16 e 0 == 0)) [
        | inl unused ↦ rw (unused) (
            pass_over g n i errcnt v w e can rd.2 agree unused (
              check_entries-EntriesChecked n g first e errcnt
                (can_go_on g n i errcnt v w e can rd.2 agree rd.2.settled)))
        | inr used ↦
            let fixed = (check_entry g.nblocks e).1 in
            let wr = write_inode-WritesEntry g first fixed {v = w} (record {
              coherent = rd.2.settled.coherent;
              free = HasFree-Settled can.free rd.2.settled;
              room = can.room first (omega arith) (omega arith);
            }) in
            rw (used, wr.done)
              (write_back g n i errcnt v w e can rd.2 agree used wr (
                check_entries-EntriesChecked n g first fixed (errcnt + (check_entry g.nblocks e).0)
                  (can_go_on g n i errcnt v w e can rd.2 agree
                    (Settled-trans rd.2.settled wr.settled))))
      ])
