-- ===== src/Calc/Functions.antt =====
-- The functions of a formula in calc/c/calc.c on numbers: the table of names in `get_function`,
-- `frac`, `fact`, `compare`, and what one item does to the result of an array function.
-- `tok_type`, 0 where no name fits
use rsx.Base.{
  Bool, List, Option, [], false, if◌then◌else◌, ltb, none, not, some, suc, true, zero, ℕ, ◌%◌, ◌&&◌,
  ◌+◌, ◌-◌, ◌==◌, ◌>>=◌, ◌||◌, ◌∷◌,
}
use rsx.Calc.{Real}
use rsx.Calc.Text.{same_text}

unfoldable pub tok_type : List ℕ → ℕ
unfolding same_text
tok_type t =
    if same_text t (b'P' ∷ b'I' ∷ [])
    then 1
    else if same_text t (b'S' ∷ b'U' ∷ b'M' ∷ [])
    then 2
    else if same_text t (b'M' ∷ b'A' ∷ b'X' ∷ [])
    then 3
    else if same_text t (b'M' ∷ b'I' ∷ b'N' ∷ [])
    then 4
    else if same_text t (b'A' ∷ b'V' ∷ b'G' ∷ [])
    then 5
    else if same_text t (b'L' ∷ b'O' ∷ b'O' ∷ b'K' ∷ b'U' ∷ b'P' ∷ [])
    then 6
    else if same_text t (b'A' ∷ b'B' ∷ b'S' ∷ [])
    then 7
    else if same_text t (b'I' ∷ b'N' ∷ b'T' ∷ [])
    then 8
    else if same_text t (b'S' ∷ b'I' ∷ b'G' ∷ b'N' ∷ [])
    then 9
    else if same_text t (b'R' ∷ b'O' ∷ b'U' ∷ b'N' ∷ b'D' ∷ [])
    then 10
    else if same_text t (b'S' ∷ b'Q' ∷ b'R' ∷ b'T' ∷ [])
    then 11
    else if same_text t (b'E' ∷ b'X' ∷ b'P' ∷ [])
    then 12
    else if same_text t (b'E' ∷ b'X' ∷ b'P' ∷ b'1' ∷ b'0' ∷ [])
    then 13
    else if same_text t (b'L' ∷ b'O' ∷ b'G' ∷ [])
    then 14
    else if same_text t (b'L' ∷ b'O' ∷ b'G' ∷ b'1' ∷ b'0' ∷ [])
    then 15
    else if same_text t (b'S' ∷ b'I' ∷ b'N' ∷ [])
    then 16
    else if same_text t (b'C' ∷ b'O' ∷ b'S' ∷ [])
    then 17
    else if same_text t (b'T' ∷ b'A' ∷ b'N' ∷ [])
    then 18
    else if same_text t (b'A' ∷ b'T' ∷ b'N' ∷ [])
    then 19
    else if same_text t (b'F' ∷ b'A' ∷ b'C' ∷ b'T' ∷ [])
    then 20
    else 0

module _ {V : Type 0} (real : Real V) where
  -- f1 > f2
  abbrev pub greater : V → V → Bool
  greater a b = real.less b a

  unfoldable pub compare : V → V → ℕ → Bool
  compare a b op =
      if op == 1
      then real.equal a b
      else if op == 2
      then not (real.equal a b)
      else if op == 3
      then greater a b
      else if op == 4
      then real.less a b
      else if op == 5
      then real.less_eq b a
      else if op == 6
      then real.less_eq a b
      else false

  -- `while (f2 < f1) f2 = f2*2;`
  unfoldable pub doubled : ℕ → V → V → Option V
  doubled zero a b = none
  doubled (suc f) a b =
      let more = doubled f a (real.mul b (real.of_int 2)) in if real.less b a then more else some b

  -- `while (f1 > 32767)`, the outer loop of `frac`
  unfoldable pub reduced : ℕ → V → Option V
  unfolding doubled
  reduced zero a = none
  reduced (suc f) a =
      let more = (do
        b ← doubled f a (real.of_int 32768)
        reduced f (real.sub a (real.div b (real.of_int 2)))) in
      if greater a (real.of_int 32767) then more else some a

  unfoldable pub frac : ℕ → V → Option V
  unfolding reduced
  frac f a =
      let positive = real.less_eq (real.of_int 0) a in
      do
        b ← reduced f (if positive then a else real.neg a)
        let c = real.sub b (real.trunc b)
        some (if positive then c else real.neg c)

  -- `while (f > 0.0) { f1 *= f; f -= 1.0; }`
  unfoldable pub product : ℕ → V → V → Option V
  product zero a b = none
  product (suc f) a b =
      let more = product f (real.sub a (real.of_int 1)) (real.mul b a) in
      if greater a (real.of_int 0) then more else some b

  -- The value, and whether `calc_error` is set.
  unfoldable pub fact : ℕ → V → Option (V × Bool)
  unfolding product
  fact f a =
      if real.equal a (real.of_int 0) || real.equal a (real.of_int 1)
      then some (real.of_int 1, false)
      else if real.less a (real.of_int 0) || not (real.equal (real.trunc a) a)
      then some (real.of_int 1, true)
      else (do b ← product f a (real.of_int 1); some (b, false))

  -- A large number keeps its whole part by `frac`.
  is_large : V → Bool
  is_large a = greater a (real.of_int 32767) || real.less a (real.neg (real.of_int 32767))

  -- Behind `f = formula(p, ip); eat_char(p, ip, ')');` in `get_function`: the value, and whether
  -- `calc_error` is set.
  unfoldable pub apply : ℕ → ℕ → V → Option (V × Bool)
  unfolding frac fact is_large
  apply f tok a =
      if tok == 7
      then some (if real.less a (real.of_int 0) then real.neg a else a, false)
      else if tok == 8
      then (if is_large a
          then (do b ← frac f a; some (real.sub a b, false))
          else some (real.trunc a, false))
      else if tok == 9
      then some (
        if real.equal a (real.of_int 0)
            then real.of_int 0
            else if greater a (real.of_int 0)
            then real.of_int 1
            else real.neg (real.of_int 1),
        false,
      )
      else if tok == 10
      then (if is_large a
          then (do b ← frac f a; some (real.add (real.sub a b) (real.round b), false))
          else some (real.round a, false))
      else if tok == 11
      then some (if real.less_eq (real.of_int 0) a then (real.sqrt a, false) else (a, true))
      else if tok == 12
      then some (real.exp a, false)
      else if tok == 13
      then some (real.exp (real.mul a (real.log (real.of_int 10))), false)
      else if tok == 14
      then some (if greater a (real.of_int 0) then (real.log a, false) else (a, true))
      else if tok == 15
      then some (
          if greater a (real.of_int 0)
          then (real.div (real.log a) (real.log (real.of_int 10)), false)
          else (a, true))
      else if tok == 16
      then some (real.sin a, false)
      else if tok == 17
      then some (real.cos a, false)
      else if tok == 18
      then some (real.tan a, false)
      else if tok == 19
      then some (real.atan a, false)
      else fact f a

  -- A number of items, a short, as a value.
  unfoldable pub of_short : ℕ → V
  of_short n = if ltb n 32768 then real.of_int n else real.neg (real.of_int (65536 - n))

  -- An item t of an array function, on the flag of the first one, the number of items and the
  -- result so far.
  unfoldable pub take_item : ℕ → V → Bool × ℕ × V → Bool × ℕ × V
  take_item tok t (first, n, a) =
      let b = (if first then t else a) in
      (
        false,
        (n + 1) % 65536,
        if tok == 2 || tok == 5
            then (if first then b else real.add b t)
            else if tok == 3
            then (if greater t b then t else b)
            else if tok == 4
            then (if real.less t b then t else b)
            else b,
      )

  -- AVG at the end
  unfoldable pub total : ℕ → Bool × ℕ × V → V
  unfolding of_short
  total tok (first, n, a) = if tok == 5 && not (n == 0) then real.div a (of_short n) else a
