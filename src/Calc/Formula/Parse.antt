-- ===== src/Calc/Formula/Parse.antt =====
-- The functions of calc/c/calc.c that evaluate a formula as they read it. They call each other, and
-- `atom` calls `formula` for another cell, so that each call costs a unit of fuel: none says that
-- the fuel is used up. Under local_edit, `e` is the edit, and the references are rewritten.
use rsx.Base.{
  Bool, List, Option, [], false, if◌then◌else◌, leb, ltb, none, not, some, suc, true, zero, ℕ, ◌&&◌,
  ◌==◌, ◌>>=◌, ◌||◌, ◌∷◌,
}
use rsx.Calc.{Cell, Real}
use rsx.Calc.Formula.{
  State, calc_fail, char_at, eat_char, eat_word, fail, get_log, get_point, get_range, get_xy_of,
  next, rem_blanks, set_point, steps,
}
use rsx.Calc.Functions.{apply, compare, greater, take_item, tok_type, total}
use rsx.Calc.Names.{Edit}
use rsx.Calc.Text.{is_constant, is_range, read_token, starts_with}

abbrev pub Outcome : Type 0 → Type 0 → Type 0
Outcome V A = Option (A × State V)

-- What is done with the corners of a range, and what without.
abbrev on_range {ℓ κ} : {A : Type ℓ} {B : Type κ} → Option A → B → (A → B) → B
on_range none b g = b
on_range (some a) b g = g a

module _ {V : Type 0} (real : Real V) where
  -- `if (sign) return -f`
  abbrev pub signed : Bool → V → V
  signed true v = real.neg v
  signed false v = v

  -- `get_constant`: `strtod` at the text
  unfoldable pub get_constant : State V → V × State V
  unfolding rem_blanks steps
  get_constant s = let t = rem_blanks s in let (v, n) = real.strtod t.place.1 in (v, steps n t)

  -- The stores at the end of `atom`, from the flags of the evaluation: `ready`, and `value` if it is
  -- another one, or an evaluation has failed, maybe before (c_error).
  unfoldable pub settle : V → Bool → State V → Cell V → Cell V
  settle v c_error s p = record p {
    ready = if s.error then 3 else if s.calc_error then 2 else 1;
    value =
        if not (real.equal p.value v) || (s.calc_error || c_error || s.error) then v else p.value;
  }

  -- What `atom` has after the other cell's evaluation: the state of the cell that asked, with the
  -- cells as that has left them.
  unfoldable pub after_atom : ℕ → ℕ → State V → V × State V → V × State V
  unfolding set_point get_point settle
  after_atom r c s (v, t) =
      let cells = set_point t.cells r c (settle v s.calc_error t) in
      (
        elim (get_point cells r c) [ none ↦ v | some p ↦ p.value ],
        record s { cells = cells; calc_error = t.calc_error || s.calc_error || t.error },
      )

  -- `power`: one step of the loop
  unfoldable pub raise : V → V → State V → V × State V
  unfolding calc_fail
  raise a b s =
      if greater real a (real.of_int 0)
      then (real.exp (real.mul b (real.log a)), s)
      else (a, calc_fail s)

  -- `mul_div_pow`: a division
  unfoldable pub divide : V → V → State V → V × State V
  unfolding calc_fail
  divide a b s = if real.equal b (real.of_int 0) then (a, calc_fail s) else (real.div a b, s)

  -- The sign in `simple`: the text behind `+`, then behind `-`, and whether there was one.
  unfoldable pub skip_plus : State V → State V
  unfolding char_at next
  skip_plus s = if char_at s == 43 then next s else s

  unfoldable pub token_of : State V → List ℕ × State V
  unfolding next read_token
  token_of s =
      let t = next s in
      let (name, p) = read_token 8 t.place.0 t.place.1 in (name, record t { place = p })

  abbrev flagged : State V → V × Bool → V × State V
  flagged s (v, failed) = (v, if failed then calc_fail s else s)

  unfoldable mutual
    pub formula : Option Edit → ℕ → State V → Outcome V V
    formula e zero s = none
    formula e (suc f) s =
        let t = rem_blanks s in
        let condition = (do
          (yes_or_no, u) ← logical e f (steps 3 t)
          (a, v) ← formula e f (eat_word (b'@' ∷ b'T' ∷ b'H' ∷ b'E' ∷ b'N' ∷ []) u)
          (b, w) ← formula e f (eat_word (b'@' ∷ b'E' ∷ b'L' ∷ b'S' ∷ b'E' ∷ []) v)
          some (if yes_or_no then a else b, w)) in
        let plain = expression e f t in
        if starts_with (b'@' ∷ b'I' ∷ b'F' ∷ []) t.place.1 then condition else plain

    pub logical : Option Edit → ℕ → State V → Outcome V Bool
    logical e zero s = none
    logical e (suc f) s = do (a, t) ← what e f s; logical_loop e f a (rem_blanks t)

    -- `&&` and `||` leave their second operand where the first decides.
    pub logical_loop : Option Edit → ℕ → Bool → State V → Outcome V Bool
    logical_loop e zero a s = none
    logical_loop e (suc f) a s =
        let operand = (do (b, t) ← what e f (next s); logical_loop e f b (rem_blanks t)) in
        let decided = logical_loop e f a (rem_blanks (next s)) in
        if char_at s == 38
        then (if a then operand else decided)
        else if char_at s == 124
        then (if a then decided else operand)
        else some (a, s)

    pub what : Option Edit → ℕ → State V → Outcome V Bool
    what e zero s = none
    what e (suc f) s =
        let t = rem_blanks s in
        let bracket = (do (a, u) ← logical e f (next t); some (a, eat_char 93 u)) in
        let comparison = (do
          (a, u) ← formula e f t
          let found = get_log u
          (b, v) ← formula e f found.1
          some (compare real a b found.0, v)) in
        if char_at t == 91 then bracket else comparison

    pub expression : Option Edit → ℕ → State V → Outcome V V
    expression e zero s = none
    expression e (suc f) s = do (a, t) ← mul_div_pow e f s; sum_loop e f a t

    pub sum_loop : Option Edit → ℕ → V → State V → Outcome V V
    sum_loop e zero a s = none
    sum_loop e (suc f) a s =
        let plus = (do (b, t) ← mul_div_pow e f (next s); sum_loop e f (real.add a b) t) in
        let minus = (do (b, t) ← mul_div_pow e f (next s); sum_loop e f (real.sub a b) t) in
        if char_at s == 43 then plus else if char_at s == 45 then minus else some (a, s)

    pub mul_div_pow : Option Edit → ℕ → State V → Outcome V V
    mul_div_pow e zero s = none
    mul_div_pow e (suc f) s = do (a, t) ← power e f s; product_loop e f a t

    pub product_loop : Option Edit → ℕ → V → State V → Outcome V V
    product_loop e zero a s = none
    product_loop e (suc f) a s =
        let times = (do (b, t) ← power e f (next s); product_loop e f (real.mul a b) t) in
        let over = (do
          (b, t) ← power e f (next s)
          let result = divide a b t
          product_loop e f result.0 result.1) in
        if char_at s == 42 then times else if char_at s == 47 then over else some (a, s)

    pub power : Option Edit → ℕ → State V → Outcome V V
    power e zero s = none
    power e (suc f) s = do (a, t) ← variable e f s; power_loop e f a (rem_blanks t)

    pub power_loop : Option Edit → ℕ → V → State V → Outcome V V
    power_loop e zero a s = none
    power_loop e (suc f) a s =
        let to_the = (do
          (b, t) ← variable e f (next s)
          let result = raise a b t
          power_loop e f result.0 (rem_blanks result.1)) in
        if char_at s == 94 then to_the else some (a, s)

    pub variable : Option Edit → ℕ → State V → Outcome V V
    variable e zero s = none
    variable e (suc f) s =
        let t = rem_blanks s in
        let parenthesis = (do (a, u) ← formula e f (next t); some (a, eat_char 41 u)) in
        let other = simple e f t in
        if is_constant t.place.1
        then some (get_constant t)
        else if char_at t == 40
        then parenthesis
        else other

    pub simple : Option Edit → ℕ → State V → Outcome V V
    simple e zero s = none
    simple e (suc f) s =
        let t = skip_plus (rem_blanks s) in
        let minus = char_at t == 45 in
        let u = (if minus then next t else t) in
        let call = get_function e f u in
        let cell = elementary e f u in
        do (a, v) ← if char_at u == 64 then call else cell; some (signed minus a, v)

    pub elementary : Option Edit → ℕ → State V → Outcome V V
    elementary e zero s = none
    elementary e (suc f) s =
        let (at_cell, t) = get_xy_of e (rem_blanks s) in
        let found = atom e f at_cell.0 at_cell.1 t in
        if leb at_cell.0 255 && leb at_cell.1 255 then found else some (real.of_int 0, fail t)

    pub atom : Option Edit → ℕ → ℕ → ℕ → State V → Outcome V V
    atom e zero r c s = none
    atom (some e) (suc f) r c s = some (real.of_int 0, s)
    atom none (suc f) r c s = elim (get_point s.cells r c) [
      | none ↦ some (real.of_int 0, calc_fail s)
      | some p ↦
          let other = (do
            done ← formula none f (record {
              place = ([], p.form);
              alen = p.alen;
              cells = s.cells;
              error = false;
              calc_error = false;
            })
            some (after_atom r c s done)) in
          if p.flag == 65 || ltb 1 p.ready
          then some (real.of_int 0, calc_fail s)
          else if p.ready == 0
          then other
          else some (p.value, s)
    ]

    -- Lookup with an item in no row leaves the result undefined where the range is bad; it is 0
    -- here.
    pub get_function : Option Edit → ℕ → State V → Outcome V V
    get_function e zero s = none
    get_function e (suc f) s =
        let (name, t) = token_of s in
        let tok = tok_type name in
        let u = eat_char 40 (if tok == 0 then fail t else t) in
        let array = (do
          (items, v) ← array_loop e f tok (true, 0, real.of_int 0) (rem_blanks u)
          some (total real tok items, eat_char 41 v)) in
        let lookup = do_lookup e f u in
        let unary = (do
          (a, v) ← formula e f u
          result ← apply real f tok a
          some (flagged (eat_char 41 v) result)) in
        if tok == 0
        then some (real.of_int 0, u)
        else if tok == 1
        then some (real.pi, t)
        else if leb tok 5
        then array
        else if tok == 6
        then lookup
        else unary

    pub array_loop : Option Edit → ℕ → ℕ → Bool × ℕ × V → State V → Outcome V (Bool × ℕ × V)
    array_loop e zero tok items s = none
    array_loop e (suc f) tok items s =
        let t = rem_blanks s in
        let (corners, u) = get_range e t in
        let range =
          on_range corners (some (items, fail u))
            λ (from, to). cells_loop e f tok from.0 from.1 from.1 to items u in
        let one = (do (a, v) ← formula e f t; some (take_item real tok a items, v)) in
        do
          (now, v) ← if is_range t.place.1 then range else one
          let w = rem_blanks v
          let more = array_loop e f tok now (next w)
          if char_at w == 44 then more else some (now, w)

    -- The rows i and the columns j of a range, from column c1 to `to`.
    pub cells_loop :
        Option Edit → ℕ → ℕ → ℕ → ℕ → ℕ → ℕ × ℕ → Bool × ℕ × V → State V → Outcome V (Bool × ℕ × V)
    cells_loop e zero tok i j c1 to items s = none
    cells_loop e (suc f) tok i j c1 to items s =
        let item = (do
          (a, t) ← atom e f i j s
          cells_loop e f tok i (suc j) c1 to (take_item real tok a items) t) in
        let row = cells_loop e f tok (suc i) c1 c1 to items s in
        if ltb to.0 i then some (items, s) else if ltb to.1 j then row else item

    pub do_lookup : Option Edit → ℕ → State V → Outcome V V
    do_lookup e zero s = none
    do_lookup e (suc f) s = do
      (a, t) ← formula e f (rem_blanks s)
      let found = get_range e (rem_blanks (eat_char 44 t))
      (b, u) ← on_range found.0 (some (real.of_int 0, fail found.1)) λ (from, to).
          let walk = lookup_loop e f a from.0 to.0 from.1 false (real.of_int 0) found.1 in
          if to.1 == suc from.1 then walk else some (real.of_int 0, fail found.1)
      some (b, eat_char 41 u)

    pub lookup_loop : Option Edit → ℕ → V → ℕ → ℕ → ℕ → Bool → V → State V → Outcome V V
    lookup_loop e zero a i to c found b s = none
    lookup_loop e (suc f) a i to c found b s =
        let row = (do
          (key, t) ← atom e f i c s
          let take_it = (do (v, u) ← atom e f i (suc c) t; lookup_loop e f a (suc i) to c true v u)
          let leave_it = lookup_loop e f a (suc i) to c found b t
          if real.less_eq key a then take_it else leave_it) in
        if ltb to i then some (b, if found then s else calc_fail s) else row
