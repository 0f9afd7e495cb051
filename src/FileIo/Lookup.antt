-- ===== src/FileIo/Lookup.antt =====
-- `file_vbn_to_lbn` against the allocation map as a function of the current blocks.
use rsx.Base.{
  Bool-cases, Option, arith, eq-cases, if◌then◌else◌, inl, inr, leb, leb→le, leb→lt, le→leb, ltb,
  ltb→ge, ne→==, none, refl, some, suc, sym, zero, ℕ, ◌%◌, ◌*◌, ◌+◌, ◌-◌, ◌/◌, ◌<◌, ◌==◌, ◌^◌, ◌∙◌,
  ◌≡◌, ◌≢◌, ◌≤◌,
}
use rsx.Bitmap.{Volume}
use rsx.Buffer.{Cache, with_block}
use rsx.Buffer.Get.{Got, HasFree, bytes-Got}
use rsx.Buffer.Moves.{SameView}
use rsx.Buffer.Session.{
  Got-Quiet, HasFree-Settled, Quiet, Quiet-refl, Quiet-trans, release-Got, with_block-rule,
}
use rsx.Buffer.View.{IsCoherent, view}
use rsx.FileIo.{
  Fcb, Header, Run, file_vbn_to_lbn, is_contiguous, map_entries, map_entry, next_map, null_read, ok,
  walk_map,
}

-- Block number k of the chain of map blocks that starts at b; zero ends the chain.
unfoldable pub map_block : Cache → ℕ → ℕ → Option ℕ
map_block v zero b = if b == 0 then none else some b
map_block v (suc k) b =
    let rest = map_block v k (next_map (view v b)) in if b == 0 then none else rest

-- Pointer number r of a map block, if there is one.
entry_in : Cache → ℕ → ℕ → Option ℕ → Option ℕ
entry_in v r offset none = none
entry_in v r offset (some m) = some (map_entry (view v m) r + offset)

-- The pointer number c in the chain: 168 to a map block.
unfoldable pub chain_entry : Cache → ℕ → ℕ → ℕ → Option ℕ
unfolding entry_in
chain_entry v b c offset = entry_in v (c % map_entries) offset (map_block v (c / map_entries) b)

-- The logical block of virtual block vbn: the abstract allocation map of a file.
unfoldable pub lbn_of : Volume → Header → Cache → ℕ → Option ℕ
unfolding chain_entry
lbn_of g h v vbn =
    if leb h.nused vbn
    then none
    else if is_contiguous h
    then some (h.bmap 0 + vbn)
    else (let c = vbn / 2 ^ g.clfactor in
        let offset = vbn % 2 ^ g.clfactor in
        if ltb c 5
        then (if h.bmap c == 0 then none else some (h.bmap c + offset))
        else chain_entry v (h.bmap 5) (c - 5) offset)

-- All map blocks of the chain are on the volume.
abbrev pub ChainIn : Volume → Cache → ℕ → Type 0
ChainIn g v b = (k m : ℕ) → map_block v k b ≡ some m → m < g.nblocks

map_block-zero : (v : Cache) (k : ℕ) → map_block v k 0 ≡ none
unfolding map_block
map_block-zero v zero = refl
map_block-zero v (suc k) = refl

chain_entry-zero : (v : Cache) (c offset : ℕ) → chain_entry v 0 c offset ≡ none
unfolding chain_entry
chain_entry-zero v c offset = rw (map_block-zero v (c / map_entries))

chain_entry-next :
    (v : Cache) (b c offset : ℕ)
    → b ≢ 0
    → map_entries ≤ c
    → chain_entry v b c offset ≡ chain_entry v (next_map (view v b)) (c - map_entries) offset
unfolding chain_entry map_block
chain_entry-next v b c offset nz big =
    let q : c / 168 ≡ suc ((c - 168) / 168) = omega arith in
    let r : c % 168 ≡ (c - 168) % 168 = omega arith in rw (q, r) (rw (ne→== b 0 nz) refl)

chain_entry-here :
    (v : Cache) (b c offset : ℕ)
    → b ≢ 0
    → c < map_entries
    → chain_entry v b c offset ≡ some (map_entry (view v b) c + offset)
unfolding chain_entry map_block
chain_entry-here v b c offset nz small =
    let q : c / 168 ≡ 0 = omega arith in
    let r : c % 168 ≡ c = omega arith in rw (q, r) (rw (ne→== b 0 nz) refl)

-- The lookup ended: with the block that the abstract map has, header and byte pointer as they were,
-- the current block set and the cache quiet; behind the end of the file, and nothing changed; or
-- with a failure at a block before the end that the map does not have, and no block changed.
pub data LookedUp (g : Volume) (v : Cache) (f : Fcb) (vbn : ℕ) (entry : Option ℕ)
    : Run (Option ℕ) → Type 0 where
  found :
      {f' : Fcb} {w : Cache} (lbn : ℕ)
      → entry ≡ some lbn
      → f'.header ≡ f.header
      → f'.byteptr ≡ f.byteptr
      → f'.curblk ≡ vbn
      → Quiet v w
      → LookedUp g v f vbn entry (ok (some lbn) f' w)
  behind : {w : Cache} → f.header.nused ≤ vbn → Quiet v w → LookedUp g v f vbn entry (ok none f w)
  missing :
      {f' : Fcb} {w : Cache}
      → vbn < f.header.nused
      → entry ≡ none
      → f'.header ≡ f.header
      → f'.byteptr ≡ f.byteptr
      → IsCoherent w
      → SameView v w
      → LookedUp g v f vbn entry (ok none f' w)

module _ (g : Volume) {v : Cache} (c : IsCoherent v) (free : HasFree v) where
  walk_map-LookedUp :
      (fuel vcn vbn b buf : ℕ) (f0 f : Fcb) (w : Cache)
      → Got v b buf w
      → b ≢ 0
      → ChainIn g v b
      → vcn < fuel * map_entries
      → f.header ≡ f0.header
      → f.byteptr ≡ f0.byteptr
      → f.curblk ≡ vbn
      → vbn < f0.header.nused
      → LookedUp g v f0 vbn
          (chain_entry v b vcn (vbn % 2 ^ g.clfactor))
          (walk_map g fuel vcn vbn buf f w)
  unfolding walk_map
  walk_map-LookedUp zero vcn vbn b buf f0 f w got nz on enough eh eb ec lt = absurd (omega arith)
  walk_map-LookedUp (suc fuel) vcn vbn b buf f0 f w got nz on enough eh eb ec lt =
      elim (Bool-cases (leb map_entries vcn)) [
        | inr here ↦
            rw (here, bytes-Got got)
              (found (map_entry (view v b) vcn + vbn % 2 ^ g.clfactor)
                (chain_entry-here v b vcn (vbn % 2 ^ g.clfactor) nz (leb→lt map_entries vcn here))
                eh eb ec (release-Got c got))
        | inl beyond ↦
            let big = leb→le map_entries vcn beyond in
            let next = next_map (view v b) in
            let step = chain_entry-next v b vcn (vbn % 2 ^ g.clfactor) nz big in
            elim (eq-cases next 0) [
              | inl end ↦
                  rw (beyond, bytes-Got got, end, step, end)
                    (missing lt (chain_entry-zero v (vcn - map_entries) (vbn % 2 ^ g.clfactor)) eh
                      eb got.coherent got.same)
              | inr more ↦
                  let q = release-Got c got in
                  rw (beyond, bytes-Got got, ne→== next 0 more, step)
                    (with_block-rule
                      (LookedUp g v f0 vbn
                        (chain_entry v next (vcn - map_entries) (vbn % 2 ^ g.clfactor)))
                      g.nblocks next _ _ q.settled.coherent
                      (on 1 next (unfold map_block in rw (ne→== b 0 nz, ne→== next 0 more) refl))
                      (HasFree-Settled free q.settled)
                      λ buf' u got'.
                        walk_map-LookedUp fuel (vcn - map_entries) vbn next buf' f0
                          (record f { curalloc = next }) u (Got-Quiet q got') more
                          (λ k m e. on (suc k) m (unfold map_block in rw (ne→== b 0 nz) e))
                          (omega arith) eh eb ec lt)
            ]
      ]

  -- On a coherent cache with a free buffer, if the map blocks of the file are on the volume,
  -- file_vbn_to_lbn ends without reading through NULL. It returns the block that the abstract
  -- allocation map has for vbn, with the position on vbn; it fails and changes nothing behind the
  -- end of the file, and it fails where the map has none. Header, byte pointer and blocks never
  -- change, and on success all buffers are held as often as before.
  pub file_vbn_to_lbn-LookedUp :
      (f : Fcb) (vbn : ℕ)
      → ChainIn g v (f.header.bmap 5)
      → LookedUp g v f vbn (lbn_of g f.header v vbn) (file_vbn_to_lbn g f vbn v)
  unfolding file_vbn_to_lbn lbn_of
  file_vbn_to_lbn-LookedUp f vbn on = elim (eq-cases f.header.nused 0) [
    | inl empty ↦ rw (empty) (behind (omega arith) (Quiet-refl v c))
    | inr some_used ↦
        rw (ne→== f.header.nused 0 some_used) (elim (Bool-cases (leb f.header.nused vbn)) [
          | inl over ↦ rw (over) (behind (leb→le f.header.nused vbn over) (Quiet-refl v c))
          | inr within ↦ rw (within) (elim (Bool-cases (is_contiguous f.header)) [
            | inl run ↦
                rw (run) (found (f.header.bmap 0 + vbn) refl refl refl refl (Quiet-refl v c))
            | inr scattered ↦ rw (scattered) (elim (Bool-cases (ltb (vbn / 2 ^ g.clfactor) 5)) [
              | inl direct ↦ rw (direct) (
                  direct_entry (leb→lt f.header.nused vbn within)
                    (f.header.bmap (vbn / 2 ^ g.clfactor)))
              | inr indirect ↦ rw (indirect) (
                  indirect_entry (leb→lt f.header.nused vbn within)
                    (ltb→ge (vbn / 2 ^ g.clfactor) 5 indirect))
            ])
          ])
        ])
  ]
    where
      offset : ℕ
      offset = vbn % 2 ^ g.clfactor

      direct_entry :
          vbn < f.header.nused
          → (m : ℕ)
          → LookedUp g v f vbn (if m == 0 then none else some (m + offset)) (
              if m == 0
              then ok none (record f { curblk = vbn; curalloc = 0 }) v
              else ok (some (m + offset)) (record f { curblk = vbn; curalloc = 0 }) v)
      direct_entry lt m = elim (Bool-cases (m == 0)) [
        | inl hole ↦ rw hole (missing lt refl refl refl c (λ b. refl))
        | inr there ↦ rw there (found (m + offset) refl refl refl refl (Quiet-refl v c))
      ]

      indirect_entry :
          vbn < f.header.nused
          → 5 ≤ vbn / 2 ^ g.clfactor
          → LookedUp g v f vbn (chain_entry v (f.header.bmap 5) (vbn / 2 ^ g.clfactor - 5) offset) (
              if f.header.bmap 5 == 0
              then ok none (record f { curblk = vbn; curalloc = f.header.bmap 5 }) v
              else with_block g.nblocks
                  (f.header.bmap 5)
                  v
                  (λ w. null_read)
                  λ buf w.
                    walk_map g
                      (vbn / 2 ^ g.clfactor - 4)
                      (vbn / 2 ^ g.clfactor - 5)
                      vbn
                      buf
                      (record f { curblk = vbn; curalloc = f.header.bmap 5 })
                      w)
      indirect_entry lt big = elim (eq-cases (f.header.bmap 5) 0) [
        | inl none_yet ↦
            rw (none_yet) (missing lt (chain_entry-zero v _ offset) refl refl c (λ b. refl))
        | inr first ↦ rw (ne→== (f.header.bmap 5) 0 first) (
            with_block-rule
              (LookedUp g v f vbn
                (chain_entry v (f.header.bmap 5) (vbn / 2 ^ g.clfactor - 5) offset))
              g.nblocks (f.header.bmap 5) _ _ c
              (on 0 (f.header.bmap 5)
                (unfold map_block in rw (ne→== (f.header.bmap 5) 0 first) refl))
              free
              λ buf w got.
                walk_map-LookedUp (vbn / 2 ^ g.clfactor - 4) (vbn / 2 ^ g.clfactor - 5) vbn
                  (f.header.bmap 5) buf f (record f { curblk = vbn; curalloc = f.header.bmap 5 }) w
                  got first on (omega arith) refl refl refl lt)
      ]

-- The abstract map depends on the current blocks only.
map_block-same : (v w : Cache) → SameView v w → (k b : ℕ) → map_block w k b ≡ map_block v k b
unfolding map_block
map_block-same v w sv zero b = refl
map_block-same v w sv (suc k) b = rw (sv b, map_block-same v w sv k (next_map (view v b)))

chain_entry-same :
    (v w : Cache)
    → SameView v w
    → (b c offset : ℕ) → chain_entry w b c offset ≡ chain_entry v b c offset
unfolding chain_entry
chain_entry-same v w sv b c offset =
    rw (map_block-same v w sv (c / map_entries) b) (pointer (map_block v (c / map_entries) b))
  where
    pointer :
        (o : Option ℕ)
        → entry_in w (c % map_entries) offset o ≡ entry_in v (c % map_entries) offset o
    pointer none = refl
    pointer (some m) = rw (sv m)

pub lbn_of-same :
    (g : Volume) (h : Header) (v w : Cache)
    → SameView v w
    → (vbn : ℕ) → lbn_of g h w vbn ≡ lbn_of g h v vbn
unfolding lbn_of
lbn_of-same g h v w sv vbn =
    rw (chain_entry-same v w sv (h.bmap 5) (vbn / 2 ^ g.clfactor - 5) (vbn % 2 ^ g.clfactor))

pub ChainIn-same : (g : Volume) (v w : Cache) (b : ℕ) → SameView v w → ChainIn g v b → ChainIn g w b
ChainIn-same g v w b sv on k m e = on k m (sym (map_block-same v w sv k b) ∙ e)

pub lbn_of-behind :
    (g : Volume) (h : Header) (v : Cache) (vbn : ℕ) → h.nused ≤ vbn → lbn_of g h v vbn ≡ none
unfolding lbn_of
lbn_of-behind g h v vbn over = rw (le→leb h.nused vbn over)

-- A lookup after a quiet stretch is a lookup from its start.
pub LookedUp-Quiet :
    (g : Volume) {u v : Cache} (f : Fcb) (vbn : ℕ) {r : Run (Option ℕ)}
    → Quiet u v
    → LookedUp g v f vbn (lbn_of g f.header v vbn) r
    → LookedUp g u f vbn (lbn_of g f.header u vbn) r
LookedUp-Quiet g f vbn q (found lbn e eh eb ec q') =
    found lbn (sym (lbn_of-same g f.header _ _ q.same vbn) ∙ e) eh eb ec (Quiet-trans q q')
LookedUp-Quiet g f vbn q (behind over q') = behind over (Quiet-trans q q')
LookedUp-Quiet g f vbn q (missing lt e eh eb co sv) =
    missing lt (sym (lbn_of-same g f.header _ _ q.same vbn) ∙ e) eh eb co (λ b. sv b ∙ q.same b)
