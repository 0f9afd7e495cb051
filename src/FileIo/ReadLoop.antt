-- ===== src/FileIo/ReadLoop.antt =====
-- The loop of `file_read`, with its invariant.
use rsx.Base.{
  Block, Bool-cases, Option, ap, arith, copy, false, if◌then◌else◌, inl, inr, leb, leb→le, leb→lt,
  ltb, ltb→ge, ltb→lt, min, ne→==, none, refl, some, suc, sym, zero, ℕ, ◌%◌, ◌*◌, ◌+◌, ◌-◌, ◌<◌,
  ◌==◌, ◌^◌, ◌∙◌, ◌≡◌, ◌≢◌, ◌≤◌, ◌⊎◌,
}
use rsx.Bitmap.{Volume}
use rsx.Buffer.{Cache, bytes_of, release_block, with_block}
use rsx.Buffer.Get.{Got, HasFree, bytes-Got}
use rsx.Buffer.Session.{Got-Quiet, HasFree-Settled, Quiet, release-Got, with_block-rule}
use rsx.Buffer.View.{IsCoherent}
use rsx.FileIo.{Fcb, Header, Run, block_length, file_pos, null_read, ok, out_of_fuel, read_loop}
use rsx.FileIo.Contents.{Filled, Filled-copy, IsMapped, ReadOut, file_byte, file_byte-at, read}
use rsx.FileIo.Lookup.{
  ChainIn-same, LookedUp, LookedUp-Quiet, behind, file_vbn_to_lbn-LookedUp, found, lbn_of,
  lbn_of-behind, missing,
}
use rsx.FileIo.Position.{file_size}

small_mod : (n : ℕ) → n < 2 ^ 32 → n % 2 ^ 32 ≡ n
small_mod n h = omega arith

module _ (g : Volume) (h : Header) {v : Cache} (c : IsCoherent v) (free : HasFree v)
    (m : IsMapped g h v) (base : ℕ) (out0 : Block) where
  -- The state of the loop: the buffer of the current block, and the bytes read so far.
  pub record IsReading (len nread buf : ℕ) (out : Block) (f : Fcb) (w : Cache) : Type 0 where
    pub lbn : ℕ
    pub block : lbn_of g h v f.curblk ≡ some lbn
    pub got : Got v lbn buf w
    pub header : f.header ≡ h
    pub used : f.curblk < h.nused
    pub within : f.byteptr ≤ block_length f
    pub position : f.curblk * 512 + f.byteptr ≡ base + nread
    pub filled : Filled (file_byte g h v) base nread out0 out
    pub small : f.byteptr + len < 2 ^ 32

  module _ (len nread buf : ℕ) (out : Block) (f : Fcb) (w : Cache)
      (r : IsReading len nread buf out f w) where
    -- The block's length in terms of the header.
    length_lem : block_length f ≡ (if f.curblk == h.nused - 1 then h.lbcount else 512)
    length_lem = rw (r.header) refl

    size_lem : file_size h ≡ (h.nused - 1) * 512 + h.lbcount
    size_lem =
        let used : h.nused ≢ 0 = λ e. absurd (omega (arith, r.used)) in rw (ne→== _ _ used) refl

    -- Copying k more bytes of the current block.
    Filled-more :
        (k : ℕ)
        → f.byteptr + k ≤ 512
        → Filled
            (file_byte g h v)
            base
            (nread + k)
            out0
            (copy out nread (bytes_of buf w) f.byteptr k)
    Filled-more k room =
        Filled-copy (file_byte g h v) base nread k f.byteptr out0 out (bytes_of buf w) r.filled
          λ x hx.
            ap (λ (p : Block). p (f.byteptr + x)) (bytes-Got r.got)
            ∙ sym (file_byte-at g h v f.curblk (f.byteptr + x) r.lbn r.block (omega arith))
            ∙ ap (file_byte g h v) (omega (arith, r.position))

    length_cases :
        ((f.curblk ≡ h.nused - 1) × (block_length f ≡ h.lbcount))
        ⊎ ((f.curblk < h.nused - 1) × (block_length f ≡ 512))
    length_cases = ground (arith, length_lem, r.used)

    length-le : block_length f ≤ 512
    length-le = ground (arith, length_cases, m.sized.most)

    used_test : (f.header.nused == 0) ≡ false
    used_test = ne→== _ _ (λ e. absurd (omega (arith, r.used, ap Header.nused r.header)))

    -- All that is missing is in the current block.
    read_here :
        f.byteptr + len ≤ block_length f
        → ReadOut g h v base (nread + min len (file_size h - (base + nread))) out0 (
            ok
              (nread + len, copy out nread (bytes_of buf w) f.byteptr len)
              (record f { byteptr = f.byteptr + len })
              (release_block buf w))
    unfolding file_pos
    read_here fits =
        let all : nread + min len (file_size h - (base + nread)) ≡ nread + len =
          omega (arith, length_cases, size_lem, r.position, r.used) in
        rw all (
          read r.header (rw used_test (omega (arith, r.position)))
            (Filled-more len (omega (arith, length-le))) (release-Got c r.got))

    -- The file ends in the current block.
    read_last :
        (k : ℕ)
        → k ≡ block_length f - f.byteptr
        → block_length f < f.byteptr + len
        → f.curblk ≡ h.nused - 1
        → (f' : Fcb) (u : Cache) → f'.header ≡ h
        → file_pos f' ≡ f.curblk * 512 + block_length f
        → Quiet v u
        → ReadOut g h v base
            (nread + min len (file_size h - (base + nread)))
            out0
            (ok (nread + k, copy out nread (bytes_of buf w) f.byteptr k) f' u)
    read_last k ek cut last f' u eh ep q =
        let all : nread + min len (file_size h - (base + nread)) ≡ nread + k =
          omega (arith, length_cases, size_lem, r.position, r.used, r.within) in
        rw all (
          read eh (omega (arith, r.position, r.within))
            (Filled-more k (omega (arith, length-le, r.within))) q)

    -- The file goes on in the next block, whose place the lookup tells.
    read_next :
        (fuel k left : ℕ)
        → k ≡ 512 - f.byteptr
        → left ≡ len - k
        → block_length f ≡ 512
        → 512 < f.byteptr + len
        → h.nused ≤ suc fuel + f.curblk
        → ((len nread buf : ℕ) (out : Block) (f : Fcb) (w : Cache)
            → IsReading len nread buf out f w
            → h.nused ≤ fuel + f.curblk
            → ReadOut g h v base
                (nread + min len (file_size h - (base + nread)))
                out0
                (read_loop g fuel len nread buf out f w))
        → (x : Run (Option ℕ))
        → LookedUp g v
            (record f { curblk = f.curblk + 1; byteptr = 0 })
            (f.curblk + 1)
            (lbn_of g h v (f.curblk + 1))
            x
        → ReadOut g h v base (nread + min len (file_size h - (base + nread))) out0 (elim x [
          | ok y f' u ↦ elim y [
            | none ↦ ok (nread + k, copy out nread (bytes_of buf w) f.byteptr k) f' u
            | some lbn ↦
                with_block g.nblocks lbn u
                  (λ u'. null_read)
                  λ buf' u'.
                    read_loop g fuel left
                      (nread + k)
                      buf'
                      (copy out nread (bytes_of buf w) f.byteptr k)
                      f'
                      u'
          ]
          | null_read ↦ null_read
          | out_of_fuel ↦ out_of_fuel
        ])
    unfolding file_pos
    read_next fuel k left ek el full over enough ih _ (behind past q) =
        read_last k (omega arith) (omega arith) (omega (arith, ap Header.nused r.header, r.used))
          (record f { curblk = f.curblk + 1; byteptr = 0 }) _ r.header (rw used_test (omega arith))
          q
    read_next fuel k left ek el full over enough ih _ (missing lt e eh eb co sv) =
        let (lbn, e', hl) = m.place (f.curblk + 1) (omega (arith, ap Header.nused r.header)) in
        cc (e, e')
    read_next fuel k left ek el full over enough ih _ (found {f'} {w = u} lbn e eh eb ec q) =
        elim (Bool-cases (ltb (f.curblk + 1) h.nused)) [
          | inr past ↦ cc (e, lbn_of-behind g h v (f.curblk + 1) (ltb→ge _ _ past))
          | inl more ↦
              let (lbn', e', hl) = m.place (f.curblk + 1) (ltb→lt _ _ more) in
              let same : lbn ≡ lbn' = cc (e, e') in
              let rest : nread + min len (file_size h - (base + nread))
                  ≡ nread + k + min left (file_size h - (base + (nread + k))) =
                omega (arith, size_lem, r.position, ltb→lt (f.curblk + 1) h.nused more) in
              rw rest (
                with_block-rule
                  (ReadOut g h v base (nread + k + min left (file_size h - (base + (nread + k))))
                    out0)
                  g.nblocks lbn _ _ q.settled.coherent (rw same hl) (HasFree-Settled free q.settled)
                  λ buf' u' got'.
                    ih left (nread + k) buf' (copy out nread (bytes_of buf w) f.byteptr k) f' u'
                      (record {
                        lbn = lbn;
                        block = rw ec e;
                        got = Got-Quiet q got';
                        header = eh ∙ r.header;
                        used = rw ec (ltb→lt _ _ more);
                        within = omega (arith, eb);
                        position = rw (ec, eb) (omega (arith, r.position, r.within));
                        filled = Filled-more k (omega (arith, r.within));
                        small = omega (arith, eb, r.small);
                      })
                      (omega (arith, ec)))
        ]

  pub read_loop-ReadOut :
      (fuel len nread buf : ℕ) (out : Block) (f : Fcb) (w : Cache)
      (r : IsReading len nread buf out f w)
      → h.nused ≤ fuel + f.curblk
      → ReadOut g h v base
          (nread + min len (file_size h - (base + nread)))
          out0
          (read_loop g fuel len nread buf out f w)
  unfolding read_loop
  read_loop-ReadOut zero len nread buf out f w r enough = absurd (omega (arith, r.used))
  read_loop-ReadOut (suc fuel) len nread buf out f w r enough =
      rw (small_mod (f.byteptr + len) r.small)
        (elim (Bool-cases (leb (f.byteptr + len) (block_length f))) [
          | inl fits ↦
              rw fits
                (read_here len nread buf out f w r (leb→le (f.byteptr + len) (block_length f) fits))
          | inr cut ↦
              let over = leb→lt (f.byteptr + len) (block_length f) cut in
              let le512 = length-le len nread buf out f w r in
              let k : ℕ = (block_length f + (2 ^ 32 - f.byteptr)) % 2 ^ 32 in
              let unsigned : k ≡ block_length f - f.byteptr = omega (arith, r.within) in
              rw cut (elim (Bool-cases (ltb (block_length f) 512)) [
                | inl short ↦ rw short (
                    read_last len nread buf out f w r k unsigned over
                      (omega (
                        arith,
                        length_cases len nread buf out f w r,
                        ltb→lt (block_length f) 512 short,
                      ))
                      (record f { byteptr = block_length f }) (release_block buf w) r.header
                      (unfold file_pos in rw (used_test len nread buf out f w r) refl)
                      (release-Got c r.got))
                | inr whole ↦
                    let full : block_length f ≡ 512 =
                      omega (arith, ltb→ge (block_length f) 512 whole) in
                    let q = release-Got c r.got in
                    let f1 = record f { curblk = f.curblk + 1; byteptr = 0 } in
                    let look =
                      file_vbn_to_lbn-LookedUp g q.settled.coherent (HasFree-Settled free q.settled)
                        f1 (f.curblk + 1)
                        (rw r.header (ChainIn-same g _ _ (h.bmap 5) q.same m.chain)) in
                    rw whole (
                      read_next len nread buf out f w r fuel k ((len + (2 ^ 32 - k)) % 2 ^ 32)
                        (omega (arith, unsigned, full)) (omega (arith, unsigned, full, r.small))
                        full (omega arith) enough (read_loop-ReadOut fuel) _
                        (rw (← r.header) (LookedUp-Quiet g f1 (f.curblk + 1) q look)))
              ])
        ])
