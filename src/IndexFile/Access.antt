-- ===== src/IndexFile/Access.antt =====
-- Reading and writing entries of the index file.
use rsx.Base.{
  ==_refl, Block, Bool, Bool-cases, ap, arith, copy, eq-cases, ge→ltb, if◌then◌else◌, inl, inr, leb,
  leb→le, le→leb, ltb, ltb→lt, lt→ltb, ne→==, refl, true, ℕ, ◌+◌, ◌/◌, ◌<◌, ◌==◌, ◌∙◌, ◌≡◌, ◌≢◌,
  ◌≤◌,
}
use rsx.Bitmap.{Volume}
use rsx.Buffer.{Cache, bytes_of}
use rsx.Buffer.Get.{HasFree, bytes-Got}
use rsx.Buffer.Moves.{SameView}
use rsx.Buffer.Session.{
  HasFree-Settled, Quiet, Settled, Settled-trans, Written, release-Got, with_block-rule,
  write-release,
}
use rsx.Buffer.View.{IsCoherent, view}
use rsx.IndexFile.{entry_block, entry_offset, read_inode, write_inode, zero_based}

-- Byte o of entry `num`.
abbrev pub inode_at : Volume → Cache → ℕ → ℕ → ℕ
inode_at g v num o = view v (entry_block g num) (entry_offset num + o)

-- What the functions need of the cache for entry `num`.
pub record CanAccess (g : Volume) (num : ℕ) (v : Cache) : Type 0 where
  pub coherent : IsCoherent v
  pub free : HasFree v
  pub room : entry_block g num < g.nblocks

-- `read_inode` succeeds: the 64 bytes of the entry are in the caller's array, whose other bytes
-- stay, and the cache shows and holds the same as before.
pub read_inode-at :
    (g : Volume) (num : ℕ) (entry : Block) {v : Cache}
    → CanAccess g num v
    → ((read_inode g num entry v).0 ≡ true)
      × ((o : ℕ)
          → (read_inode g num entry v).1 o ≡ (if ltb o 64 then inode_at g v num o else entry o))
      × Quiet v (read_inode g num entry v).2
unfolding read_inode
read_inode-at g num entry {v} can =
    with_block-rule
      (λ (r : Bool × Block × Cache).
        (r.0 ≡ true)
        × ((o : ℕ) → r.1 o ≡ (if ltb o 64 then inode_at g v num o else entry o))
        × Quiet v r.2)
      g.nblocks (entry_block g num) _ _ can.coherent can.room can.free
      λ b w got. (refl, (λ o. rw (bytes-Got got) (ground arith)), release-Got can.coherent got)

-- Copying an entry into its block leaves the other entries of that block alone.
copied_entry :
    (ix num m o : ℕ) (p entry : Block)
    → 0 < num
    → num < 65536
    → 0 < m
    → m < 65536
    → o < 64
    → ix + zero_based m / 8 ≡ ix + zero_based num / 8
    → copy p (entry_offset num) entry 0 64 (entry_offset m + o)
      ≡ (if m == num then entry o else p (entry_offset m + o))
copied_entry ix num m o p entry n0 n1 m0 m1 ho near = elim (eq-cases m num) [
  | inl e ↦
      rw
        (
          e,
          ==_refl num,
          le→leb (entry_offset num) (entry_offset num + o) (omega arith),
          lt→ltb (entry_offset num + o) (entry_offset num + 64) (omega arith),
        )
        (ap entry (omega arith))
  | inr ne ↦ elim (Bool-cases (leb (entry_offset num) (entry_offset m + o))) [
    | inr low ↦ rw (low, ne→== _ _ ne) refl
    | inl high ↦
        let over : entry_offset num + 64 ≤ entry_offset m + o =
          omega (arith, leb→le (entry_offset num) (entry_offset m + o) high) in
        rw (high, ge→ltb _ _ over, ne→== _ _ ne) refl
  ]
]

-- What `write_inode` does to the view.
pub record WritesEntry (g : Volume) (num : ℕ) (entry : Block) (v : Cache) (r : Bool × Cache)
    : Type 0 where
  pub done : r.0 ≡ true
  pub settled : Settled v r.1
  pub written :
      Written v
        (entry_block g num)
        (copy (view v (entry_block g num)) (entry_offset num) entry 0 64)
        r.1

pub write_inode-WritesEntry :
    (g : Volume) (num : ℕ) (entry : Block) {v : Cache}
    → CanAccess g num v
    → WritesEntry g num entry v (write_inode g num entry v)
unfolding write_inode
write_inode-WritesEntry g num entry {v} can =
    with_block-rule (WritesEntry g num entry v) g.nblocks (entry_block g num) _ _ can.coherent
      can.room can.free
      λ b w got.
        let r =
          write-release (copy (bytes_of b w) (entry_offset num) entry 0 64) can.coherent got in
        record { done = refl; settled = r.0; written = rw (← bytes-Got got) r.1 }

-- After a successful write an entry has the bytes written, and any other those that it had.
pub inode_at-WritesEntry :
    (g : Volume) (num m o : ℕ) (entry : Block) {v : Cache} {r : Bool × Cache}
    → WritesEntry g num entry v r
    → 0 < num
    → num < 65536
    → 0 < m
    → m < 65536
    → o < 64
    → inode_at g r.1 m o ≡ (if m == num then entry o else inode_at g v m o)
inode_at-WritesEntry g num m o entry {v} h n0 n1 m0 m1 ho =
    elim (eq-cases (entry_block g m) (entry_block g num)) [
      | inr far ↦
          let ne : m ≢ num = λ e. far (ap (entry_block g) e) in
          rw (h.written (entry_block g m), ne→== _ _ far, ne→== _ _ ne) refl
      | inl near ↦
          rw (h.written (entry_block g m), near, ==_refl (entry_block g num))
            (copied_entry g.ixblock num m o (view v (entry_block g num)) entry n0 n1 m0 m1 ho near)
    ]

-- On a coherent cache with a free buffer, write_inode of entry num and then read_inode of entry
-- m, both on the volume: both succeed, what is read is the entry written if m is num and the old
-- entry m if not, the bytes of the caller's array behind the 64 stay, and all buffers are held as
-- often as before.
pub read-write_inode :
    (g : Volume) (num m o : ℕ) (entry array : Block) {v : Cache}
    → CanAccess g num v
    → 0 < num
    → num < 65536
    → 0 < m
    → m < 65536
    → entry_block g m < g.nblocks
    → let (wrote, w) = write_inode g num entry v in
      let (read, bytes, u) = read_inode g m array w in
      (wrote ≡ true)
      × (read ≡ true)
      × (bytes o ≡ (if ltb o 64 then (if m == num then entry o else inode_at g v m o) else array o))
      × Settled v u
      × SameView w u
read-write_inode g num m o entry array {v} can n0 n1 m0 m1 room =
    let h = write_inode-WritesEntry g num entry can in
    let w = (write_inode g num entry v).1 in
    let r = read_inode-at g m array {v = w} (record {
      coherent = h.settled.coherent;
      free = HasFree-Settled can.free h.settled;
      room = room;
    }) in
    (
      h.done,
      r.0,
      r.1 o ∙ elim (Bool-cases (ltb o 64)) [
        | inl within ↦
            rw within (inode_at-WritesEntry g num m o entry h n0 n1 m0 m1 (ltb→lt o 64 within))
        | inr behind ↦ rw behind refl
      ],
      Settled-trans h.settled r.2.settled,
      r.2.same,
    )
