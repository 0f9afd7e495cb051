-- ===== src/FileIo/Reading.antt =====
-- What `file_read` reads: the bytes of the file from the position on.
use rsx.Base.{
  Block, Bool-cases, Option, ap, arith, false, inl, inr, leb→le, min, none, refl, some, sym, ℕ, ◌*◌,
  ◌+◌, ◌-◌, ◌<◌, ◌==◌, ◌^◌, ◌∙◌, ◌≡◌, ◌≤◌,
}
use rsx.Bitmap.{Volume}
use rsx.Buffer.{Cache, with_block}
use rsx.Buffer.Get.{HasFree}
use rsx.Buffer.Session.{Got-Quiet, HasFree-Settled, Quiet-refl, with_block-rule}
use rsx.Buffer.View.{IsCoherent}
use rsx.FileIo.{
  Fcb, Header, Run, block_length, end_of_file, file_pos, file_read, file_vbn_to_lbn, null_read, ok,
  out_of_fuel, read_loop,
}
use rsx.FileIo.Contents.{IsMapped, ReadOut, read}
use rsx.FileIo.Lookup.{LookedUp, behind, file_vbn_to_lbn-LookedUp, found, lbn_of, missing}
use rsx.FileIo.ReadLoop.{read_loop-ReadOut}
use rsx.FileIo.Position.{end_of_file-leb, file_size}

module _ (g : Volume) (f : Fcb) (out : Block) (len : ℕ) {v : Cache} (c : IsCoherent v)
    (free : HasFree v) (m : IsMapped g f.header v) (at : f.byteptr ≤ 512)
    (small : f.byteptr + len < 2 ^ 32) where
  read_nothing : (n : ℕ) → n ≡ 0 → ReadOut g f.header v (file_pos f) n out (ok (0, out) f v)
  read_nothing n e = rw e (read refl (omega arith) (λ o. ground arith) (Quiet-refl v c))

  -- Before the end the current block is one of the file's, and the position is within it.
  inside :
      end_of_file f ≡ false
      → (f.curblk < f.header.nused)
        × (f.byteptr ≤ block_length f)
        × (file_pos f ≡ f.curblk * 512 + f.byteptr)
  unfolding end_of_file file_pos
  inside e = ground (arith, m.sized.least)

  read_first :
      end_of_file f ≡ false
      → (x : Run (Option ℕ)) → LookedUp g v f f.curblk (lbn_of g f.header v f.curblk) x
      → ReadOut g f.header v (file_pos f) (min len (file_size f.header - file_pos f)) out (elim x [
        | ok r f' w ↦ elim r [
          | none ↦ ok (0, out) f' w
          | some lbn ↦
              with_block g.nblocks lbn w
                (λ u. null_read)
                λ buf u. read_loop g (f'.header.nused + 1 - f'.curblk) len 0 buf out f' u
        ]
        | null_read ↦ null_read
        | out_of_fuel ↦ out_of_fuel
      ])
  read_first e _ (behind over q) = absurd (omega (arith, inside e))
  read_first e _ (missing lt none_there eh eb co sv) =
      let (lbn, there, hl) = m.place f.curblk lt in cc (none_there, there)
  read_first e _ (found {f'} {w} lbn eq eh eb ec q) =
      let i = inside e in
      let (lbn', there, hl) = m.place f.curblk i.0 in
      let same : lbn ≡ lbn' = cc (eq, there) in
      let from_zero : file_size f.header - file_pos f ≡ file_size f.header - (file_pos f + 0) =
        omega arith in
      rw from_zero (
        with_block-rule
          (ReadOut g f.header v (file_pos f) (min len (file_size f.header - (file_pos f + 0))) out)
          g.nblocks lbn _ _ q.settled.coherent (rw same hl) (HasFree-Settled free q.settled)
          λ buf u got.
            rw
              (let z : min len (file_size f.header - (file_pos f + 0))
                    ≡ 0 + min len (file_size f.header - (file_pos f + 0)) =
                  omega arith in
                z)
              (read_loop-ReadOut g f.header c free m (file_pos f) out
                (f'.header.nused + 1 - f'.curblk) len 0 buf out f' u
                (record {
                  lbn = lbn;
                  block = rw ec eq;
                  got = Got-Quiet q got;
                  header = eh;
                  used = rw ec i.0;
                  within = rw (eb, ec, eh) i.1;
                  position = rw (ec, eb) (omega (arith, i.2));
                  filled = λ o. ground arith;
                  small = omega (arith, eb, small);
                })
                (omega (arith, ec, i.0, ap Header.nused eh))))

  file_read_any :
      (n : ℕ)
      → n ≡ min len (file_size f.header - file_pos f)
      → ReadOut g f.header v (file_pos f) n out (file_read g f out len v)
  unfolding file_read
  file_read_any n e = elim (Bool-cases (f.header.nused == 0)) [
    | inl no_blocks ↦
        let none_there : file_size f.header ≡ 0 = rw no_blocks refl in
        rw no_blocks (read_nothing n (omega arith))
    | inr blocks ↦ rw blocks (elim (Bool-cases (end_of_file f)) [
      | inl end ↦
          let past =
            leb→le (file_size f.header) (file_pos f) (sym (end_of_file-leb f m.sized at) ∙ end) in
          rw end (read_nothing n (omega arith))
      | inr more ↦
          rw (more, e)
            (read_first more (file_vbn_to_lbn g f f.curblk v)
              (file_vbn_to_lbn-LookedUp g c free f f.curblk m.chain))
    ])
  ]

  -- For a file whose blocks are all mapped, which with its map blocks lies on the volume, and
  -- whose last block has 1 to 512 bytes, on a coherent cache with a free buffer, with a byte
  -- pointer of at most 512 and a length that added to it does not wrap 32 bits, file_read puts
  -- into the caller's array the bytes of the file from the position on, as many as were asked for
  -- or as there are up to the end of the file, returns their number, leaves the rest of the array
  -- alone, and moves the position behind them. It does not read through NULL, and leaves the
  -- header, the blocks and the reference counts as they were.
  pub file_read-ReadOut :
      ReadOut g f.header v
        (file_pos f)
        (min len (file_size f.header - file_pos f))
        out
        (file_read g f out len v)
  file_read-ReadOut = file_read_any _ refl
