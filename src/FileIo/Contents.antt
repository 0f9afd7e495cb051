-- ===== src/FileIo/Contents.antt =====
-- The bytes of a file, and the outcome of `file_read` by them.
use rsx.Base.{
  Block, Bool-cases, Option, ap, arith, copy, ge→ltb, if◌then◌else◌, inl, inr, leb, leb→le, leb→lt,
  ltb, ltb→lt, lt→ltb, none, refl, some, ℕ, ◌%◌, ◌*◌, ◌+◌, ◌-◌, ◌/◌, ◌<◌, ◌∙◌, ◌≡◌,
}
use rsx.Bitmap.{Volume}
use rsx.Buffer.{Cache}
use rsx.Buffer.Session.{Quiet}
use rsx.Buffer.View.{view}
use rsx.FileIo.{Fcb, Header, Run, file_pos, ok}
use rsx.FileIo.Lookup.{ChainIn, lbn_of}
use rsx.FileIo.Position.{IsSized}
use rsx.MakeDisk.{within}

-- Byte p of a file.
abbrev pub byte_in : Cache → ℕ → Option ℕ → ℕ
byte_in v o none = 0
byte_in v o (some lbn) = view v lbn o

abbrev pub file_byte : Volume → Header → Cache → ℕ → ℕ
file_byte g h v p = byte_in v (p % 512) (lbn_of g h v (p / 512))

pub file_byte-at :
    (g : Volume) (h : Header) (v : Cache) (c x lbn : ℕ)
    → lbn_of g h v c ≡ some lbn
    → x < 512
    → file_byte g h v (c * 512 + x) ≡ view v lbn x
file_byte-at g h v c x lbn e hx =
    let q : (c * 512 + x) / 512 ≡ c = omega arith in
    let r : (c * 512 + x) % 512 ≡ x = omega arith in rw (q, r, e) refl

-- Every block of the file has its place on the volume.
pub record IsMapped (g : Volume) (h : Header) (v : Cache) : Type 0 where
  pub sized : IsSized h
  pub chain : ChainIn g v (h.bmap 5)
  pub place :
      (vbn : ℕ) → vbn < h.nused → (lbn : ℕ) × (lbn_of g h v vbn ≡ some lbn) × (lbn < g.nblocks)

-- The array out holds the n bytes of the file from byte base on, and behind them what out0 holds.
abbrev pub Filled : (ℕ → ℕ) → ℕ → ℕ → Block → Block → Type 0
Filled bytes base n out0 out = (o : ℕ) → out o ≡ (if ltb o n then bytes (base + o) else out0 o)

pub Filled-copy :
    (bytes : ℕ → ℕ) (base n k at : ℕ) (out0 out p : Block)
    → Filled bytes base n out0 out
    → ((x : ℕ) → x < k → p (at + x) ≡ bytes (base + n + x))
    → Filled bytes base (n + k) out0 (copy out n p at k)
Filled-copy bytes base n k at out0 out p f h o = elim (Bool-cases (leb n o)) [
  | inr low ↦
      let lt = leb→lt n o low in rw (low, f o, lt→ltb o n lt, lt→ltb o (n + k) (omega arith)) refl
  | inl high ↦
      let ge = leb→le n o high in
      elim (Bool-cases (ltb o (n + k))) [
        | inl within ↦
            let eq : base + n + (o - n) ≡ base + o = omega arith in
            rw (high, within) (h (o - n) (omega (arith, ltb→lt o (n + k) within)) ∙ ap bytes eq)
        | inr after ↦ rw (high, after, f o, ge→ltb o n ge) refl
      ]
]

-- The outcome of reading: n bytes from byte base on, the position behind them, the cache quiet.
pub data ReadOut (g : Volume) (h : Header) (v : Cache) (base n : ℕ) (out0 : Block)
    : Run (ℕ × Block) → Type 0 where
  read :
      {out : Block} {f : Fcb} {w : Cache}
      → f.header ≡ h
      → file_pos f ≡ base + n
      → Filled (file_byte g h v) base n out0 out
      → Quiet v w
      → ReadOut g h v base n out0 (ok (n, out) f w)
