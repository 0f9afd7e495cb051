-- ===== src/Calc/Cells/Chain.antt =====
-- Chains of cells in the heap of calc/c/calc.c, as lists of their addresses.
use rsx.Base.{
  ==_refl, List, [], append-nil, arith, if◌then◌else◌, length, ne→==, refl, some, subst, suc, sym,
  update, update_ne, update_self, zero, ℕ, ◌++◌, ◌<◌, ◌==◌, ◌∙◌, ◌∷◌, ◌≡◌, ◌≢◌,
}
use rsx.Calc.Cells.{walk_last}

unfoldable pub last_or : ℕ → List ℕ → ℕ
last_or d [] = d
last_or d (x ∷ xs) = last_or x xs

-- From h on, the links lead through the addresses and end with NULL.
unfoldable pub IsChain : (ℕ → ℕ) → ℕ → List ℕ → Type 0
IsChain link h [] = h ≡ 0
IsChain link h (x ∷ xs) = (h ≡ x) × (x ≢ 0) × IsChain link (link x) xs

unfoldable pub IsOutside : ℕ → List ℕ → Type 0
IsOutside x [] = Unit
IsOutside x (y ∷ ys) = (x ≢ y) × IsOutside x ys

unfoldable pub AreApart : List ℕ → Type 0
AreApart [] = Unit
AreApart (x ∷ xs) = IsOutside x xs × AreApart xs

-- A store at an address that is not in the chain.
pub IsChain-update :
    (link : ℕ → ℕ) (p v h : ℕ) (xs : List ℕ)
    → IsOutside p xs
    → IsChain link h xs
    → IsChain (update link p v) h xs
unfolding IsChain IsOutside
IsChain-update link p v h [] out chain = chain
IsChain-update link p v h (x ∷ xs) (ne, out) (e, pos, chain) = (
  e,
  pos,
  subst (λ n. IsChain (update link p v) n xs) (sym (update_ne link p x v ne))
      (IsChain-update link p v (link x) xs out chain),
)

pub last_or-append :
    (d : ℕ) (xs : List ℕ) (y : ℕ) (ys : List ℕ) → last_or d (xs ++ y ∷ ys) ≡ last_or y ys
unfolding last_or
last_or-append d [] y ys = refl
last_or-append d (x ∷ xs) y ys = last_or-append x xs y ys

pub last_or-pos :
    (link : ℕ → ℕ) (h x : ℕ) (xs ys : List ℕ) → IsChain link h ((x ∷ xs) ++ ys) → last_or x xs ≢ 0
unfolding IsChain last_or
last_or-pos link h x [] ys (e, pos, chain) = pos
last_or-pos link h x (y ∷ xs) ys (e, pos, chain) = last_or-pos link (link x) y xs ys chain

-- A cell that is outside a chain is not the last one of it.
pub last_or-ne : (p x : ℕ) (xs ys : List ℕ) → IsOutside p ((x ∷ xs) ++ ys) → p ≢ last_or x xs
unfolding IsOutside last_or
last_or-ne p x [] ys (ne, out) = ne
last_or-ne p x (y ∷ xs) ys (ne, out) = last_or-ne p y xs ys out

-- The part of a chain behind some cells, and what the links of those lead to.
pub IsChain-splice :
    (link : ℕ → ℕ) (h x : ℕ) (xs : List ℕ) (p : ℕ) (ys : List ℕ)
    → AreApart ((x ∷ xs) ++ p ∷ ys)
    → IsChain link h ((x ∷ xs) ++ p ∷ ys)
    → IsChain (update link (last_or x xs) (link p)) h ((x ∷ xs) ++ ys)
unfolding IsChain last_or AreApart IsOutside
IsChain-splice link h x [] p ys ((ne, out), apart) (e, pos, (at_p, new, chain)) = (
  e,
  pos,
  subst (λ n. IsChain (update link x (link p)) n ys) (sym (update_self link x (link p)))
      (IsChain-update link x (link p) (link p) ys out chain),
)
IsChain-splice link h x (y ∷ xs) p ys (out, apart) (e, pos, chain) = (
  e,
  pos,
  subst (λ n. IsChain (update link (last_or y xs) (link p)) n ((y ∷ xs) ++ ys))
      (sym (
        update_ne link (last_or y xs) x (link p)
          (λ same. last_or-ne x y xs (p ∷ ys) out (sym same))))
      (IsChain-splice link (link x) y xs p ys apart chain),
)

-- The address behind the last one of a chain.
pub IsChain-extend :
    (link : ℕ → ℕ) (h x : ℕ) (xs : List ℕ) (p : ℕ)
    → p ≢ 0
    → IsOutside p (x ∷ xs)
    → AreApart (x ∷ xs)
    → IsChain link h (x ∷ xs)
    → IsChain (update (update link (last_or x xs) p) p 0) h ((x ∷ xs) ++ p ∷ [])
unfolding IsChain last_or AreApart IsOutside
IsChain-extend link h x [] p new (ne, out) apart (e, pos, chain) = (
  e,
  pos,
  (
    update_ne (update link x p) p x 0 ne ∙ update_self link x p,
    new,
    update_self (update link x p) p 0,
  ),
)
IsChain-extend link h x (y ∷ xs) p new (ne, out) (apart, aparts) (e, pos, chain) = (
  e,
  pos,
  subst (λ n. IsChain (update (update link (last_or y xs) p) p 0) n ((y ∷ xs) ++ p ∷ []))
      (sym (
        update_ne (update link (last_or y xs) p) p x 0 ne
        ∙ update_ne link (last_or y xs) x p (λ same. last_not x y xs apart (sym same))))
      (IsChain-extend link (link x) y xs p new out aparts chain),
)
  where
    last_not : (p x : ℕ) (xs : List ℕ) → IsOutside p (x ∷ xs) → p ≢ last_or x xs
    last_not p x [] (ne, out) = ne
    last_not p x (y ∷ xs) (ne, out) = last_not p y xs out

-- A chain without one of its cells.
IsOutside-remove :
    (x : ℕ) (xs : List ℕ) (p : ℕ) (ys : List ℕ)
    → IsOutside x (xs ++ p ∷ ys)
    → IsOutside x (xs ++ ys)
unfolding IsOutside
IsOutside-remove x [] p ys (ne, out) = out
IsOutside-remove x (y ∷ xs) p ys (ne, out) = (ne, IsOutside-remove x xs p ys out)

pub AreApart-remove :
    (xs : List ℕ) (p : ℕ) (ys : List ℕ) → AreApart (xs ++ p ∷ ys) → AreApart (xs ++ ys)
unfolding AreApart
AreApart-remove [] p ys (out, apart) = apart
AreApart-remove (x ∷ xs) p ys (out, apart) =
    (IsOutside-remove x xs p ys out, AreApart-remove xs p ys apart)

IsOutside-ne : (x : ℕ) (xs : List ℕ) (p : ℕ) (ys : List ℕ) → IsOutside x (xs ++ p ∷ ys) → x ≢ p
unfolding IsOutside
IsOutside-ne x [] p ys (ne, out) = ne
IsOutside-ne x (y ∷ xs) p ys (ne, out) = IsOutside-ne x xs p ys out

-- A cell behind a chain that it is not in.
IsOutside-add : (x : ℕ) (xs : List ℕ) (p : ℕ) → IsOutside x xs → x ≢ p → IsOutside x (xs ++ p ∷ [])
unfolding IsOutside
IsOutside-add x [] p out ne = (ne, tt)
IsOutside-add x (y ∷ xs) p (other, out) ne = (other, IsOutside-add x xs p out ne)

pub AreApart-add : (xs : List ℕ) (p : ℕ) → IsOutside p xs → AreApart xs → AreApart (xs ++ p ∷ [])
unfolding AreApart IsOutside
AreApart-add [] p out apart = (tt, tt)
AreApart-add (x ∷ xs) p (ne, out) (other, apart) =
    (IsOutside-add x xs p other (λ same. ne (sym same)), AreApart-add xs p out apart)

-- The walk of `do_dispose` stops at the cell, with the one in front of it.
pub walk_last-found :
    (f : ℕ) (link : ℕ → ℕ) (head before : ℕ) (xs : List ℕ) (p : ℕ) (ys : List ℕ)
    → length xs < f
    → AreApart (xs ++ p ∷ ys)
    → IsChain link head (xs ++ p ∷ ys)
    → walk_last f link p head before ≡ some (last_or before xs)
unfolding walk_last IsChain AreApart last_or
walk_last-found zero link head before xs p ys n apart chain = absurd (omega arith)
walk_last-found (suc f) link head before [] p ys n apart (e, pos, chain) =
    rw (e, ne→== p 0 pos, ==_refl p)
walk_last-found (suc f) link head before (x ∷ xs) p ys n (out, apart) (e, pos, chain) =
    rw (e, ne→== x 0 pos, ne→== x p (IsOutside-ne x xs p ys out))
      (walk_last-found f link (link x) x xs p ys (omega arith) apart chain)

pub last_pos : (link : ℕ → ℕ) (h x : ℕ) (xs : List ℕ) → IsChain link h (x ∷ xs) → last_or x xs ≢ 0
unfolding IsChain last_or
last_pos link h x [] (e, pos, chain) = pos
last_pos link h x (y ∷ xs) (e, pos, chain) = last_pos link (link x) y xs chain

pub IsChain-rest :
    (link : ℕ → ℕ) (h : ℕ) (xs : List ℕ) (p : ℕ) (ys : List ℕ)
    → IsChain link h (xs ++ p ∷ ys)
    → IsChain link (link p) ys
unfolding IsChain
IsChain-rest link h [] p ys (e, pos, chain) = chain
IsChain-rest link h (x ∷ xs) p ys (e, pos, chain) = IsChain-rest link (link x) xs p ys chain

-- `ctail` when the cell p has left: the one in front of it, if it was the last.
pub new_tail :
    (link : ℕ → ℕ) (h tail x : ℕ) (xs : List ℕ) (p : ℕ) (ys : List ℕ)
    → IsChain link h ((x ∷ xs) ++ p ∷ ys)
    → tail ≡ last_or 0 ((x ∷ xs) ++ p ∷ ys)
    → (if link p == 0 then last_or x xs else tail) ≡ last_or 0 ((x ∷ xs) ++ ys)
unfolding IsChain last_or
new_tail link h tail x xs p [] chain e =
    let end = IsChain-rest link h (x ∷ xs) p [] chain in rw (end, append-nil xs) refl
new_tail link h tail x xs p (y ∷ ys) chain e =
    let (at_y, pos, _) = IsChain-rest link h (x ∷ xs) p (y ∷ ys) chain in
    rw (at_y, ne→== y 0 pos)
      (e ∙ last_or-append 0 (x ∷ xs) p (y ∷ ys) ∙ sym (last_or-append 0 (x ∷ xs) y ys))
