-- ===== src/Check/Clusters/Marks.antt =====
-- The clusters that a contiguous file marks.
use rsx.Base.{
  ==_refl, AreBytes, Block, Bool, Bool-cases, ap, arith, bit_mask, bit_mask_zero, bit_or-lt,
  eq-cases, false, get_int24, half-bit_mask, half-bit_mask_last, has_bit, has_bit-set,
  if◌then◌else◌, inl, inr, leb, ltb, ne→==, refl, subst, suc, true, zero, ℕ, ◌%◌, ◌&&◌, ◌+◌, ◌/◌,
  ◌==◌, ◌^◌, ◌||◌, ◌∙◌, ◌≡◌, ◌≢◌, ◌≤◌,
}
use rsx.Bitmap.{Volume}
use rsx.Check.Clusters.{Marked, cluster_count, mark_at, mark_contiguous, mark_run}

-- The bit of a cluster in a bitmap of bytes, without a header.
abbrev pub is_marked : Block → ℕ → Bool
is_marked bm i = has_bit (bm (i / 8)) (bit_mask (i % 8))

-- How many of the n clusters from i on are marked.
abbrev pub marked_in : Block → (i n : ℕ) → ℕ
marked_in bm i zero = 0
marked_in bm i (suc n) = (if is_marked bm i then 1 else 0) + marked_in bm (i + 1) n

-- The n clusters from i on have been marked: those that were marked already are counted as errors.
pub record RunMarked (i n : ℕ) (s w : Marked) : Type 0 where
  pub bytes : AreBytes w.bm
  pub bits : (j : ℕ) → is_marked w.bm j ≡ (is_marked s.bm j || (leb i j && ltb j (i + n)))
  pub count : w.errcnt ≡ s.errcnt + marked_in s.bm i n

or_place :
    (i j : ℕ) (b : Bool)
    → i / 8 ≡ j / 8
    → ((i % 8 == j % 8) || b) ≡ (b || (leb i j && ltb j (i + 1)))
or_place i j true e = ground arith
or_place i j false e = elim (eq-cases i j) [
  | inl same ↦ ground (arith, same)
  | inr ne ↦
      let apart : (i % 8 ≡ j % 8) → ⊥ = λ r. ne (omega (arith, e, r)) in
      rw (ne→== (i % 8) (j % 8) apart) (ground (arith, ne))
]

-- One cluster.
mark_at-RunMarked :
    (i : ℕ) (s : Marked) → AreBytes s.bm → RunMarked i 1 s (mark_at (i / 8) (bit_mask (i % 8)) s)
unfolding mark_at
mark_at-RunMarked i s bytes = elim (Bool-cases (is_marked s.bm i)) [
  | inl already ↦ rw (already) (record {
    bytes = bytes;
    bits = λ j. elim (eq-cases i j) [
      | inl e ↦
          subst (λ x. is_marked s.bm x ≡ (is_marked s.bm x || (leb i x && ltb x (i + 1)))) e
            (rw (already) refl)
      | inr ne ↦ ground (arith, ne)
    ];
    count = rw (already) (omega arith);
  })
  | inr fresh ↦ rw (fresh) (record {
    bytes = λ o.
        ground (arith, bytes o, bit_or-lt (s.bm (i / 8)) (i % 8) (bytes (i / 8)) (omega arith));
    bits = λ j. elim (eq-cases (i / 8) (j / 8)) [
      | inl e ↦
          rw
            (
              e,
              ==_refl (j / 8),
              has_bit-set (s.bm (j / 8)) (i % 8) (j % 8) (bytes (j / 8)) (omega arith)
                  (omega arith),
            )
            (or_place i j (is_marked s.bm j) e)
      | inr ne ↦
          rw (ne→== (i / 8) (j / 8) ne)
            (let far : i ≢ j = (λ e. ne (ap (λ x. x / 8) e)) in ground (arith, far))
    ];
    count = rw (fresh) (omega arith);
  })
]

marked_in-same :
    (p q : Block) (i n : ℕ)
    → ((j : ℕ) → i ≤ j → is_marked q j ≡ is_marked p j)
    → marked_in q i n ≡ marked_in p i n
marked_in-same p q i zero same = refl
marked_in-same p q i (suc n) same =
    rw (same i (omega arith), marked_in-same p q (i + 1) n (λ j h. same j (omega arith))) refl

-- The rest of the run behind its first cluster.
one_more :
    (i n : ℕ) (s s1 w : Marked)
    → RunMarked i 1 s s1
    → RunMarked (i + 1) n s1 w
    → RunMarked i (suc n) s w
one_more i n s s1 w h r = record {
  bytes = r.bytes;
  bits = λ j. r.bits j ∙ rw (h.bits j) (ground arith);
  count =
      let same = marked_in-same s.bm s1.bm (i + 1) n (λ j le. h.bits j ∙ ground arith) in
      omega (arith, r.count, h.count, same);
}

mark_run-RunMarked :
    (n i : ℕ) (s : Marked)
    → AreBytes s.bm
    → RunMarked i n s (mark_run n (i / 8) (bit_mask (i % 8)) s)
unfolding mark_run
mark_run-RunMarked zero i s bytes = record {
  bytes = bytes;
  bits = λ j. ground arith;
  count = omega arith;
}
mark_run-RunMarked (suc n) i s bytes =
    let h = mark_at-RunMarked i s bytes in
    let s1 = mark_at (i / 8) (bit_mask (i % 8)) s in
    let rest = mark_run-RunMarked n (i + 1) s1 h.bytes in
    elim (eq-cases (i % 8) 7) [
      | inl e ↦
          let byte : (i + 1) / 8 ≡ i / 8 + 1 = omega (arith, e) in
          let bit : (i + 1) % 8 ≡ 0 = omega (arith, e) in
          let half : bit_mask (i % 8) / 2 ≡ 0 = rw (e) half-bit_mask_last in
          let next = rw (byte, bit, bit_mask_zero) at rest in
          rw (half) (one_more i n s s1 (mark_run n (i / 8 + 1) 0x80 s1) h next)
      | inr ne ↦
          let byte : (i + 1) / 8 ≡ i / 8 = omega (arith, ne) in
          let bit : (i + 1) % 8 ≡ i % 8 + 1 = omega (arith, ne) in
          let half = half-bit_mask (i % 8) (omega (arith, ne)) in
          rw (half.1, half.0)
            (one_more i n s s1 (mark_run n (i / 8) (bit_mask (i % 8 + 1)) s1) h
              (rw (byte, bit) at rest))
    ]

-- Where a contiguous file says that it is.
abbrev pub first_cluster : Volume → Block → ℕ
first_cluster g inode = get_int24 inode 32 / 2 ^ g.clfactor

-- A contiguous file marks the clusters from its first on, as many as its blocks take, and no
-- others, and counts as errors those that have been marked before.
pub mark_contiguous-RunMarked :
    (g : Volume) (inode : Block) (s : Marked)
    → AreBytes s.bm
    → RunMarked
        (first_cluster g inode)
        (cluster_count g (get_int24 inode 8))
        s
        (mark_contiguous g inode s)
unfolding mark_contiguous bit_mask
mark_contiguous-RunMarked g inode s bytes =
    mark_run-RunMarked (cluster_count g (get_int24 inode 8)) (first_cluster g inode) s bytes
