-- ===== src/Calc/Cells.antt =====
-- The chain of cells of calc/c/calc.c: `get_point`, `do_dispose`, `dispose_all`, `clr_ready`, and
-- the lines that put a new cell at the end, in a heap where 0 is NULL.
pub mod Chain
pub mod Chained
use rsx.Base.{Option, if◌then◌else◌, none, some, suc, update, zero, ℕ, ◌&&◌, ◌==◌, ◌>>=◌, ◌||◌}
use rsx.Calc.{Cell}

pub record Heap (V : Type 0) : Type 0 where
  pub chead : ℕ
  pub ctail : ℕ
  pub next : ℕ → ℕ
  pub cell : ℕ → Cell V

-- `while (head && (head != p))`: the last cell in front of p, or NULL.
unfoldable pub walk_last : ℕ → (ℕ → ℕ) → ℕ → ℕ → ℕ → Option ℕ
walk_last zero link p head before = none
walk_last (suc f) link p head before =
    let more = walk_last f link p (link head) head in
    if head == 0 || head == p then some before else more

module _ {V : Type 0} where
  -- `get_point`; the walk is on fuel.
  unfoldable pub walk_point : ℕ → Heap V → ℕ → ℕ → ℕ → Option ℕ
  walk_point zero h head r c = none
  walk_point (suc f) h head r c =
      let more = walk_point f h (h.next head) r c in
      if head == 0
      then some 0
      else if (h.cell head).row == r && (h.cell head).col == c
      then some head
      else more

  unfoldable pub point : ℕ → Heap V → ℕ → ℕ → Option ℕ
  unfolding walk_point
  point f h r c = walk_point f h h.chead r c

  -- `if (last) last->next = p->next; else chead = p->next; if (!p->next) ctail = last;`
  unfoldable pub unlink : Heap V → ℕ → ℕ → Heap V
  unlink h p before = record h {
    chead = if before == 0 then h.next p else h.chead;
    ctail = if h.next p == 0 then before else h.ctail;
    next = if before == 0 then h.next else update h.next before (h.next p);
  }

  unfoldable pub do_dispose : ℕ → ℕ → Heap V → Option (Heap V)
  unfolding walk_last unlink
  do_dispose f p h = do before ← walk_last f h.next p h.chead 0; some (unlink h p before)

  -- A new cell at the address p that calloc has returned: `if (!chead) chead = head;`,
  -- `if (ctail) ctail->next = head; ctail = head; head->next = NULL;`, and its fields.
  unfoldable pub append : ℕ → Cell V → Heap V → Heap V
  append p new h = record h {
    chead = if h.chead == 0 then p else h.chead;
    ctail = p;
    next = update (if h.ctail == 0 then h.next else update h.next h.ctail p) p 0;
    cell = update h.cell p new;
  }

  -- The loop of `dispose_all`, on a pointer that is read before the cell is given back.
  unfoldable pub dispose_loop : ℕ → ℕ → Heap V → Option (Heap V)
  unfolding do_dispose
  dispose_loop zero head h = none
  dispose_loop (suc f) head h =
      let rest = (do_dispose (suc f) head h >>= dispose_loop f (h.next head)) in
      if head == 0 then some h else rest

  unfoldable pub dispose_all : ℕ → Heap V → Option (Heap V)
  unfolding dispose_loop
  dispose_all f h = do g ← dispose_loop f h.chead h; some (record g { chead = 0; ctail = 0 })

  -- `clr_ready`
  unfoldable pub clr_ready : ℕ → ℕ → Heap V → Option (Heap V)
  clr_ready zero head h = none
  clr_ready (suc f) head h =
      let rest =
        clr_ready f (h.next head)
          (record h { cell = update h.cell head (record (h.cell head) { ready = 0 }) }) in
      if head == 0 then some h else rest
