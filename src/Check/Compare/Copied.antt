-- ===== src/Check/Compare/Copied.antt =====
-- What the comparison of a block of the bitmap leaves in it.
use rsx.Base.{
  ==_refl, Block, Bool, Bool-cases, arith, bit_and, eq-cases, false, if◌then◌else◌, inl, inr, leb,
  le→leb, ltb, lt→leb, ne→==, refl, suc, sym, true, update, update_ne, zero, ℕ, ◌&&◌, ◌+◌, ◌-◌, ◌/◌,
  ◌<◌, ◌==◌, ◌∙◌, ◌≡◌, ◌≤◌, ◌⊎◌,
}
use rsx.Check.Clusters.{Marked}
use rsx.Check.Compare.{compare_bytes, count_bits}
use rsx.Check.Inodes.{bmsize}

-- How many bits differ in the n bytes from byte k of the new bitmap and from byte j of the block on.
abbrev pub differences : (n k j : ℕ) → (bm old : Block) → ℕ
differences zero k j bm old = 0
differences (suc n) k j bm old =
    count_bits 8 0x80 (bm k) (old j) + differences n (k + 1) (j + 1) bm old

-- The n bytes of the block from byte j on have been compared with those from byte k of the bitmap on.
pub record Compared (n k j : ℕ) (s : Marked) (old : Block) (modified : Bool)
    (r : ℕ × Marked × Block × Bool) : Type 0 where
  pub place : r.0 ≡ k + n
  pub bitmap : (y : ℕ) → r.1.bm y ≡ s.bm y
  pub count : r.1.errcnt ≡ s.errcnt + differences n k j s.bm old
  pub bytes : (y : ℕ) → r.2 y ≡ (if leb j y && ltb y (j + n) then s.bm (k + (y - j)) else old y)
  pub flag : r.3 ≡ false → (modified ≡ false) × ((y : ℕ) → r.2 y ≡ old y)

bits-equal : (l mask a : ℕ) → count_bits l mask a a ≡ 0
unfolding count_bits
bits-equal zero mask a = refl
bits-equal (suc l) mask a = rw (==_refl (bit_and a mask), bits-equal l (mask / 2) a) refl

differences-update :
    (n k j i x : ℕ) (bm old : Block)
    → i < j
    → differences n k j bm (update old i x) ≡ differences n k j bm old
differences-update zero k j i x bm old h = refl
differences-update (suc n) k j i x bm old h =
    rw
      (
        update_ne old i j x (λ e. omega arith),
        differences-update n (k + 1) (j + 1) i x bm old (omega arith),
      )
      refl

stays :
    (k j : ℕ) (s : Marked) (old : Block) (modified : Bool)
    → Compared 0 k j s old modified (k, s, old, modified)
stays k j s old modified = record {
  place = omega arith;
  bitmap = λ y. refl;
  count = omega arith;
  bytes = λ y. ground arith;
  flag = λ f. (f, λ y. refl);
}

-- A byte that is the same.
same_byte :
    (c k j : ℕ) (s : Marked) (old : Block) (modified : Bool) (r : ℕ × Marked × Block × Bool)
    → s.bm k ≡ old j
    → Compared c (k + 1) (j + 1) s old modified r
    → Compared (suc c) k j s old modified r
same_byte c k j s old modified r e h = record {
  place = omega (arith, h.place);
  bitmap = h.bitmap;
  count =
      let none_there : count_bits 8 0x80 (s.bm k) (old j) ≡ 0 =
        rw (e) (bits-equal 8 0x80 (old j)) in
      omega (arith, h.count, none_there);
  bytes = λ y. h.bytes y ∙ elim (eq-cases y j) [
    | inl here ↦ let at : k + (y - j) ≡ k = omega (arith, here) in ground (arith, here, e, at)
    | inr ne ↦
        let at : j < y → k + 1 + (y - (j + 1)) ≡ k + (y - j) = λ l. omega arith in
        elim (Bool-cases (leb (j + 1) y && ltb y (j + 1 + c))) [
          | inl inside ↦
              let wide : (leb j y && ltb y (j + suc c)) ≡ true = ground (arith, inside) in
              rw (inside, wide, at (ground (arith, inside))) refl
          | inr outside ↦
              let wide : (leb j y && ltb y (j + suc c)) ≡ false = ground (arith, outside, ne) in
              rw (outside, wide) refl
        ]
  ];
  flag = h.flag;
}

-- A byte that is not.
other_byte :
    (c k j : ℕ) (s : Marked) (old : Block) (modified : Bool) (r : ℕ × Marked × Block × Bool)
    → Compared c
        (k + 1)
        (j + 1)
        (record s { errcnt = s.errcnt + count_bits 8 0x80 (s.bm k) (old j) })
        (update old j (s.bm k))
        true
        r
    → Compared (suc c) k j s old modified r
other_byte c k j s old modified r h = record {
  place = omega (arith, h.place);
  bitmap = h.bitmap;
  count =
      let later = differences-update c (k + 1) (j + 1) j (s.bm k) s.bm old (omega arith) in
      omega (arith, h.count, later);
  bytes = λ y. h.bytes y ∙ elim (eq-cases y j) [
    | inl here ↦
        let at : k + (y - j) ≡ k = omega (arith, here) in
        let out : (leb (j + 1) y && ltb y (j + 1 + c)) ≡ false = ground (arith, here) in
        let wide : (leb j y && ltb y (j + suc c)) ≡ true = ground (arith, here) in
        rw (out, wide, at, here, ==_refl j) refl
    | inr ne ↦
        let at : j < y → k + 1 + (y - (j + 1)) ≡ k + (y - j) = λ l. omega arith in
        elim (Bool-cases (leb (j + 1) y && ltb y (j + 1 + c))) [
          | inl inside ↦
              let wide : (leb j y && ltb y (j + suc c)) ≡ true = ground (arith, inside) in
              rw (inside, wide, at (ground (arith, inside))) refl
          | inr outside ↦
              let wide : (leb j y && ltb y (j + suc c)) ≡ false = ground (arith, outside, ne) in
              rw (outside, wide) (update_ne old j y (s.bm k) (λ z. ne (sym z)))
        ]
  ];
  flag = λ f. absurd (let g = (h.flag f).0 in ground (arith, g));
}

-- The comparison goes over c bytes, up to the end of the block or of the bitmap. It stores the bytes
-- of the new bitmap into the block and leaves the other bytes of the block alone, counts each bit
-- that differs, and reports the block as unchanged only if it is.
pub compare_bytes-Compared :
    (n bmsize c k j : ℕ) (s : Marked) (old : Block) (modified : Bool)
    → c ≤ n
    → k + c ≤ bmsize
    → (c ≡ n) ⊎ (k + c ≡ bmsize)
    → Compared c k j s old modified (compare_bytes n bmsize k j s old modified)
unfolding compare_bytes
compare_bytes-Compared zero bmsize zero k j s old modified le fits ended = stays k j s old modified
compare_bytes-Compared zero bmsize (suc c) k j s old modified le fits ended = absurd (omega arith)
compare_bytes-Compared (suc n) bmsize zero k j s old modified le fits ended =
    rw (le→leb bmsize k (omega (arith, ended))) (stays k j s old modified)
compare_bytes-Compared (suc n) bmsize (suc c) k j s old modified le fits ended =
    rw (lt→leb bmsize k (omega arith)) (elim (eq-cases (s.bm k) (old j)) [
      | inl e ↦
          let at : (s.bm k == old j) ≡ true = ground (arith, e) in
          rw (at) (
            same_byte c k j s old modified (compare_bytes n bmsize (k + 1) (j + 1) s old modified) e
              (compare_bytes-Compared n bmsize c (k + 1) (j + 1) s old modified (omega arith)
                (omega arith) (omega (arith, ended))))
      | inr ne ↦
          let s1 : Marked = record s { errcnt = s.errcnt + count_bits 8 0x80 (s.bm k) (old j) } in
          let new = update old j (s.bm k) in
          rw (ne→== (s.bm k) (old j) ne) (
            other_byte c k j s old modified (compare_bytes n bmsize (k + 1) (j + 1) s1 new true) (
              compare_bytes-Compared n bmsize c (k + 1) (j + 1) s1 new true (omega arith)
                (omega arith) (omega (arith, ended))))
    ])
