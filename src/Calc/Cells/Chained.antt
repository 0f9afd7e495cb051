-- ===== src/Calc/Cells/Chained.antt =====
-- `do_dispose` and the appending of a cell in calc/c/calc.c keep the chain and its last cell.
-- The cells of the sheet in their order, by address: each is there once, and `ctail` is the last.
use rsx.Base.{
  Bool-cases, List, [], ap, arith, false, if◌then◌else◌, inl, inr, length, map, ne→==, none, refl,
  some, suc, sym, update_self, zero, ℕ, ◌&&◌, ◌++◌, ◌<◌, ◌==◌, ◌∙◌, ◌∷◌, ◌≡◌, ◌≢◌,
}
use rsx.Calc.{Cell}
use rsx.Calc.Cells.{Heap, append, dispose_all, dispose_loop, do_dispose, unlink, walk_point}
use rsx.Calc.Cells.Chain.{
  AreApart, AreApart-add, AreApart-remove, IsChain, IsChain-extend, IsChain-splice, IsOutside,
  last_or, last_or-append, last_or-pos, last_pos, new_tail, walk_last-found,
}
use rsx.Calc.Formula.{get_point}

pub record IsSheet {V : Type 0} (h : Heap V) (xs : List ℕ) : Type 0 where
  pub chain : IsChain h.next h.chead xs
  pub tail : h.ctail ≡ last_or 0 xs
  pub apart : AreApart xs

module _ {V : Type 0} where
  -- The first cell leaves the chain.
  unlink-first : (h : Heap V) (p : ℕ) (ys : List ℕ) → IsSheet h (p ∷ ys) → IsSheet (unlink h p 0) ys
  unfolding unlink IsChain AreApart last_or
  unlink-first h p [] s =
      let (_, _, end) = s.chain in record { chain = end; tail = rw end refl; apart = tt }
  unlink-first h p (y ∷ ys) s =
      let (_, _, (at_y, pos, rest)) = s.chain in
      record {
        chain = (at_y, pos, rest);
        tail = rw (at_y, ne→== y 0 pos) s.tail;
        apart = s.apart.1;
      }

  -- A cell behind others leaves it.
  unlink-later :
      (h : Heap V) (x : ℕ) (xs : List ℕ) (p : ℕ) (ys : List ℕ)
      → IsSheet h ((x ∷ xs) ++ p ∷ ys)
      → IsSheet (unlink h p (last_or x xs)) ((x ∷ xs) ++ ys)
  unfolding unlink
  unlink-later h x xs p ys s =
      rw (ne→== (last_or x xs) 0 (last_or-pos h.next h.chead x xs (p ∷ ys) s.chain)) (record {
        chain = IsChain-splice h.next h.chead x xs p ys s.apart s.chain;
        tail = new_tail h.next h.chead h.ctail x xs p ys s.chain s.tail;
        apart = AreApart-remove (x ∷ xs) p ys s.apart;
      })

  -- An unused address that calloc returns is put at the end of the chain.
  pub append-IsSheet :
      (p : ℕ) (new : Cell V) (h : Heap V) (xs : List ℕ)
      → p ≢ 0
      → IsOutside p xs
      → IsSheet h xs
      → IsSheet (append p new h) (xs ++ p ∷ [])
  unfolding append IsChain AreApart IsOutside last_or
  append-IsSheet p new h [] pos out s =
      let at_end = s.chain in
      rw (at_end, s.tail)
        (record { chain = (refl, pos, update_self h.next p 0); tail = refl; apart = (tt, tt) })
  append-IsSheet p new h (x ∷ xs) pos out s =
      let (at_x, pos_x, rest) = s.chain in
      let some_head : (h.chead == 0) ≡ false = rw at_x (ne→== x 0 pos_x) in
      let some_tail : (h.ctail == 0) ≡ false =
        rw s.tail (ne→== (last_or x xs) 0 (last_pos h.next h.chead x xs s.chain)) in
      rw (some_head, some_tail, s.tail)
        (record {
          chain = IsChain-extend h.next h.chead x xs p pos out s.apart s.chain;
          tail = sym (last_or-append 0 (x ∷ xs) p []);
          apart = AreApart-add (x ∷ xs) p out s.apart;
        })

  removed :
      (h : Heap V) (xs : List ℕ) (p : ℕ) (ys : List ℕ)
      → IsSheet h (xs ++ p ∷ ys)
      → IsSheet (unlink h p (last_or 0 xs)) (xs ++ ys)
  unfolding last_or
  removed h [] p ys s = unlink-first h p ys s
  removed h (x ∷ xs) p ys s = unlink-later h x xs p ys s

  -- From a chain of cells, each of which is there once, do_dispose of one of them, with fuel for the
  -- cells in front of it, takes out that one and keeps the others in their order, with ctail at
  -- the last one, whether the cell was the first, the last or the only one; no cell is changed.
  pub do_dispose-removes :
      (f : ℕ) (h : Heap V) (xs : List ℕ) (p : ℕ) (ys : List ℕ)
      → length xs < f
      → IsSheet h (xs ++ p ∷ ys)
      → (g : Heap V) × (do_dispose f p h ≡ some g) × IsSheet g (xs ++ ys) × (g.cell ≡ h.cell)
  unfolding do_dispose
  do_dispose-removes f h xs p ys n s = (
    unlink h p (last_or 0 xs),
    rw (walk_last-found f h.next h.chead 0 xs p ys n s.apart s.chain) refl,
    removed h xs p ys s,
    kept_cells h p (last_or 0 xs),
  )
    where
      kept_cells : (h : Heap V) (p before : ℕ) → (unlink h p before).cell ≡ h.cell
      kept_cells h p before = refl

  new_head : (h : Heap V) (p : ℕ) → h.next p ≡ (unlink h p 0).chead
  unfolding unlink
  new_head h p = refl

  first_disposed :
      (f : ℕ) (h : Heap V) (x : ℕ) (xs : List ℕ)
      → IsSheet h (x ∷ xs)
      → do_dispose (suc f) x h ≡ some (unlink h x 0)
  unfolding do_dispose last_or
  first_disposed f h x xs s =
      rw (walk_last-found (suc f) h.next h.chead 0 [] x xs (omega arith) s.apart s.chain) refl

  dispose_loop-ends :
      (f : ℕ) (h : Heap V) (head : ℕ) (xs : List ℕ)
      → length xs < f
      → head ≡ h.chead
      → IsSheet h xs
      → (g : Heap V) × (dispose_loop f head h ≡ some g) × IsSheet g []
  unfolding dispose_loop IsChain
  dispose_loop-ends zero h head xs n e s = absurd (omega arith)
  dispose_loop-ends (suc f) h head [] n e s = (h, rw (e ∙ s.chain) refl, s)
  dispose_loop-ends (suc f) h head (x ∷ xs) n e s =
      let (at_x, pos, chain) = s.chain in
      let (g, run, emptied) =
        dispose_loop-ends f (unlink h x 0) (h.next x) xs (omega arith) (new_head h x)
          (unlink-first h x xs s) in
      (g, rw (e ∙ at_x, ne→== x 0 pos, first_disposed f h x xs s) run, emptied)

  -- On a sheet, with fuel for its cells, the loop of dispose_all ends, and do_dispose has then
  -- unlinked all cells: chead and ctail are NULL before dispose_all sets them, which changes
  -- nothing any more.
  pub dispose_all-empty :
      (f : ℕ) (h : Heap V) (xs : List ℕ)
      → length xs < f
      → IsSheet h xs
      → (g : Heap V) × (dispose_loop f h.chead h ≡ some g)
        × IsSheet g []
        × (dispose_all f h ≡ some g)
  unfolding dispose_all IsChain last_or
  dispose_all-empty f h xs n s =
      let (g, run, emptied) = dispose_loop-ends f h h.chead xs n refl s in
      let same : record g { chead = 0; ctail = 0 } ≡ g =
        λ i. record g { chead = sym emptied.chain i; ctail = sym emptied.tail i } in
      (g, run, emptied, rw run (ap some same))

  -- The walk of `get_point` from a cell on, and the same search in the list of the cells.
  walk_point-found :
      (f : ℕ) (h : Heap V) (head r c : ℕ) (xs : List ℕ)
      → length xs < f
      → IsChain h.next head xs
      → (p : ℕ) × (walk_point f h head r c ≡ some p)
        × (get_point (map h.cell xs) r c ≡ (if p == 0 then none else some (h.cell p)))
  unfolding walk_point IsChain get_point
  walk_point-found zero h head r c xs n chain = absurd (omega arith)
  walk_point-found (suc f) h head r c [] n chain = (0, rw chain refl, refl)
  walk_point-found (suc f) h head r c (x ∷ xs) n (e, pos, chain) =
      elim (Bool-cases ((h.cell x).row == r && (h.cell x).col == c)) [
        | inl z ↦ (x, rw (e, ne→== x 0 pos, z) refl, rw (z, ne→== x 0 pos) refl)
        | inr z ↦
            let (p, run, found) = walk_point-found f h (h.next x) r c xs (omega arith) chain in
            (p, rw (e, ne→== x 0 pos, z) run, rw z found)
      ]
