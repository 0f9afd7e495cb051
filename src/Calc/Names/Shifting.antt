-- ===== src/Calc/Names/Shifting.antt =====
-- What the loops of `get_xy` that replace a name leave in the array.
use rsx.Base.{
  Block, Bool-cases, List, [], ap, arith, get_or, inl, inr, length, ltb, ltb→ge, ltb→lt, ne→==,
  refl, suc, update, update_ne, update_self, zero, ℕ, ◌++◌, ◌+◌, ◌-◌, ◌<◌, ◌∙◌, ◌∷◌, ◌≡◌, ◌≢◌, ◌≤◌,
  ◌⊎◌, sym, append_assoc, length-append, append-nil,
}
use rsx.Calc.{turned_onto}
use rsx.Calc.Names.{
  chars, form_of, place_in, put_text, replaced, shift_down, shift_up, until_nul, wipe,
}

shift_down-outside :
    (n from to i : ℕ) (form : Block)
    → (i < to) ⊎ (to + n ≤ i)
    → shift_down n from to form i ≡ form i
unfolding shift_down
shift_down-outside zero from to i form h = refl
shift_down-outside (suc n) from to i form h =
    shift_down-outside n (suc from) (suc to) i (update form to (form from)) (omega arith)
    ∙ update_ne form to i (form from) (omega arith)

shift_down-at :
    (n from to k : ℕ) (form : Block)
    → to < from
    → k < n
    → shift_down n from to form (to + k) ≡ form (from + k)
unfolding shift_down
shift_down-at zero from to k form lt h = absurd (omega arith)
shift_down-at (suc n) from to zero form lt h =
    ap (shift_down n (suc from) (suc to) (update form to (form from))) (omega arith)
    ∙ shift_down-outside n (suc from) (suc to) to (update form to (form from)) (omega arith)
    ∙ update_self form to (form from)
    ∙ ap form (omega arith)
shift_down-at (suc n) from to (suc k) form lt h =
    ap (shift_down n (suc from) (suc to) (update form to (form from))) (omega arith)
    ∙ shift_down-at n (suc from) (suc to) k (update form to (form from)) (omega arith) (omega arith)
    ∙ update_ne form to (suc from + k) (form from) (omega arith)
    ∙ ap form (omega arith)

wipe-outside : (n top i : ℕ) (form : Block) → (i + n ≤ top) ⊎ (top < i) → wipe n top form i ≡ form i
unfolding wipe
wipe-outside zero top i form h = refl
wipe-outside (suc n) top i form h =
    wipe-outside n (top - 1) i (update form top 0) (omega arith)
    ∙ update_ne form top i 0 (omega arith)

shift_up-outside :
    (n from to i : ℕ) (form : Block) → (i < to) ⊎ (to + n ≤ i) → shift_up n from to form i ≡ form i
unfolding shift_up
shift_up-outside zero from to i form h = refl
shift_up-outside (suc n) from to i form h =
    shift_up-outside n from to i (update form (to + n) (form (from + n))) (omega arith)
    ∙ update_ne form (to + n) i (form (from + n)) (omega arith)

shift_up-at :
    (n from to k : ℕ) (form : Block)
    → from < to
    → k < n
    → shift_up n from to form (to + k) ≡ form (from + k)
unfolding shift_up
shift_up-at zero from to k form lt h = absurd (omega arith)
shift_up-at (suc n) from to k form lt h = elim (Bool-cases (ltb k n)) [
  | inl z ↦
      shift_up-at n from to k (update form (to + n) (form (from + n))) lt (ltb→lt k n z)
      ∙ update_ne form (to + n) (from + k) (form (from + n)) (omega (arith, ltb→lt k n z))
  | inr z ↦
      let at_end : k ≡ n = omega (arith, ltb→ge k n z) in
      rw at_end (
        shift_up-outside n from to (to + n) (update form (to + n) (form (from + n))) (omega arith)
        ∙ update_self form (to + n) (form (from + n)))
]

put_text-outside :
    (s : List ℕ) (at i : ℕ) (form : Block)
    → (i < at) ⊎ (at + length s ≤ i)
    → put_text s at form i ≡ form i
unfolding put_text
put_text-outside [] at i form h = refl
put_text-outside (c ∷ s) at i form h =
    put_text-outside s (suc at) i (update form at c) (omega arith)
    ∙ update_ne form at i c (omega arith)

put_text-at :
    (s : List ℕ) (at k : ℕ) (form : Block)
    → k < length s
    → put_text s at form (at + k) ≡ get_or s k 0
unfolding put_text
put_text-at [] at k form h = absurd (omega arith)
put_text-at (c ∷ s) at zero form h =
    ap (put_text s (suc at) (update form at c)) (omega arith)
    ∙ put_text-outside s (suc at) at (update form at c) (omega arith)
    ∙ update_self form at c
put_text-at (c ∷ s) at (suc k) form h =
    ap (put_text s (suc at) (update form at c)) (omega arith)
    ∙ put_text-at s (suc at) k (update form at c) (omega arith)

-- The array with the name replaced: the text in front, the new name, and the text behind.
replaced-before :
    (alen is ip l k : ℕ) (name : List ℕ) (form : Block)
    → length name ≡ l
    → is < ip
    → ip ≤ alen
    → k < is
    → replaced alen is ip l name form k ≡ form k
unfolding replaced
replaced-before alen is ip l k name form e lt le h =
    put_text-outside name is k _ (omega arith)
    ∙ shift_up-outside (alen - ip) is (is + l) k _ (omega arith)
    ∙ wipe-outside (ip - is) alen k _ (omega arith)
    ∙ shift_down-outside (suc alen - ip) ip is k form (omega arith)

replaced-name :
    (alen is ip l k : ℕ) (name : List ℕ) (form : Block)
    → k < length name
    → replaced alen is ip l name form (is + k) ≡ get_or name k 0
unfolding replaced
replaced-name alen is ip l k name form h = put_text-at name is k _ h

replaced-behind :
    (alen is ip l k : ℕ) (name : List ℕ) (form : Block)
    → length name ≡ l
    → 0 < l
    → is < ip
    → ip + k < alen
    → replaced alen is ip l name form (is + l + k) ≡ form (ip + k)
unfolding replaced
replaced-behind alen is ip l k name form e pos lt h =
    put_text-outside name is (is + l + k) _ (omega arith)
    ∙ shift_up-at (alen - ip) is (is + l) k _ (omega arith) (omega arith)
    ∙ wipe-outside (ip - is) alen (is + k) _ (omega arith)
    ∙ shift_down-at (suc alen - ip) ip is k form lt (omega arith)

-- A text that stands in the array is read back.
chars-text :
    (s : List ℕ) (at : ℕ) (form : Block)
    → ((k : ℕ) → k < length s → form (at + k) ≡ get_or s k 0)
    → chars (length s) at form ≡ s
unfolding chars
chars-text [] at form h = refl
chars-text (c ∷ s) at form h =
    let first : form at ≡ c = ap form (omega arith) ∙ h 0 (omega arith) in
    let rest = chars-text s (suc at) form λ k lt. ap form (omega arith) ∙ h (suc k) (omega arith) in
    rw (first, rest) refl

-- A text without a NUL.
abbrev pub HasNoNul : List ℕ → Type 0
HasNoNul [] = Unit
HasNoNul (c ∷ s) = (c ≢ 0) × HasNoNul s

until_nul-text :
    (n : ℕ) (s : List ℕ) (at : ℕ) (form : Block)
    → length s < n
    → HasNoNul s
    → ((k : ℕ) → k ≤ length s → form (at + k) ≡ get_or s k 0)
    → until_nul n at form ≡ s
unfolding until_nul
until_nul-text zero s at form lt clean h = absurd (omega arith)
until_nul-text (suc n) [] at form lt clean h =
    let first : form at ≡ 0 = ap form (omega arith) ∙ h 0 (omega arith) in rw first refl
until_nul-text (suc n) (c ∷ s) at form lt clean h =
    let first : form at ≡ c = ap form (omega arith) ∙ h 0 (omega arith) in
    let rest =
      until_nul-text n s (suc at) form (omega arith) clean.1
        λ k le. ap form (omega arith) ∙ h (suc k) (omega arith) in
    rw (first, ne→== c 0 clean.0, rest) refl

pub length-turned_onto : (s b : List ℕ) → length (turned_onto s b) ≡ length s + length b
unfolding turned_onto
length-turned_onto [] b = omega arith
length-turned_onto (c ∷ s) b = omega (arith, length-turned_onto s (c ∷ b))

turned_onto_twice : (s b t : List ℕ) → turned_onto (turned_onto s b) t ≡ turned_onto b (s ++ t)
unfolding turned_onto
turned_onto_twice [] b t = refl
turned_onto_twice (c ∷ s) b t = turned_onto_twice s (c ∷ b) t

turned_onto_front : (b t : List ℕ) → turned_onto b t ≡ turned_onto b [] ++ t
unfolding turned_onto
turned_onto_front [] t = refl
turned_onto_front (c ∷ b) t =
    turned_onto_front b (c ∷ t)
    ∙ sym (append_assoc (turned_onto b []) (c ∷ []) t)
    ∙ ap (λ x. x ++ t) (sym (turned_onto_front b (c ∷ [])))

get_or-front : (x y : List ℕ) (k : ℕ) → k < length x → get_or (x ++ y) k 0 ≡ get_or x k 0
get_or-front [] y k h = absurd (omega arith)
get_or-front (c ∷ x) y zero h = refl
get_or-front (c ∷ x) y (suc k) h = get_or-front x y k (omega arith)

get_or-back : (x y : List ℕ) (k : ℕ) → get_or (x ++ y) (length x + k) 0 ≡ get_or y k 0
get_or-back [] y k = let e : 0 + k ≡ k = omega arith in rw e refl
get_or-back (c ∷ x) y k =
    let e : suc (length x) + k ≡ suc (length x + k) = omega arith in rw e (get_or-back x y k)

turned_onto-append : (x y z : List ℕ) → turned_onto (x ++ y) z ≡ turned_onto y (turned_onto x z)
unfolding turned_onto
turned_onto-append [] y z = refl
turned_onto-append (c ∷ x) y z = turned_onto-append x y (c ∷ z)

turned_back : (b : List ℕ) → turned_onto (turned_onto b []) [] ≡ b
unfolding turned_onto
turned_back b = turned_onto_twice b [] [] ∙ append-nil b

module _ (alen ip l : ℕ) (b old name t : List ℕ) (some_old : 0 < length old)
    (some_new : 0 < length name) (here : ip ≡ length old + length b) (long : l ≡ length name)
    (whole : alen ≡ length b + length old + length t + 1) where
  abbrev before : List ℕ
  before = turned_onto b []

  abbrev after : Block
  after = replaced alen (length b) ip l name (form_of (turned_onto old b, t))

  length-before : length before ≡ length b
  length-before = omega (arith, length-turned_onto b [])

  form-text : (i : ℕ) → form_of (turned_onto old b, t) i ≡ get_or (before ++ (old ++ t)) i 0
  unfolding form_of
  form-text i = ap (λ x. get_or x i 0) (turned_onto_twice old b t ∙ turned_onto_front b (old ++ t))

  front-text : (k : ℕ) → k < length (before ++ name) → after (0 + k) ≡ get_or (before ++ name) k 0
  front-text k lt = elim (Bool-cases (ltb k (length b))) [
    | inl z ↦
        let h = ltb→lt k (length b) z in
        let e : 0 + k ≡ k = omega arith in
        rw e (
          replaced-before alen (length b) ip l k name _ (sym long) (omega arith) (omega arith) h
          ∙ form-text k
          ∙ get_or-front before (old ++ t) k (omega (arith, length-before))
          ∙ sym (get_or-front before name k (omega (arith, length-before))))
    | inr z ↦
        let h = ltb→ge k (length b) z in
        let e : 0 + k ≡ length b + (k - length b) = omega arith in
        let e' : k ≡ length before + (k - length b) = omega (arith, length-before) in
        ap after e
        ∙ replaced-name alen (length b) ip l (k - length b) name _
            (omega (arith, length-append before name, length-before))
        ∙ sym (get_or-back before name (k - length b))
        ∙ ap (λ i. get_or (before ++ name) i 0) (sym e')
  ]

  behind-text : (k : ℕ) → k ≤ length t → after (length b + l + k) ≡ get_or t k 0
  behind-text k le =
      let e : ip + k ≡ length before + (length old + k) = omega (arith, length-before) in
      replaced-behind alen (length b) ip l k name _ (sym long) (omega arith) (omega arith)
        (omega arith)
      ∙ form-text (ip + k)
      ∙ ap (λ i. get_or (before ++ (old ++ t)) i 0) e
      ∙ get_or-back before (old ++ t) (length old + k)
      ∙ get_or-back old t k

  -- The loops leave the new name between the text in front and the text behind.
  pub place_in-replaced :
      length b + l + length t + 1 < 70
      → HasNoNul t
      → place_in after (length b + l) ≡ (turned_onto name b, t)
  unfolding place_in
  place_in-replaced room clean =
      let e : length b + l ≡ length (before ++ name) =
        omega (arith, length-append before name, length-before) in
      let front : turned_onto (chars (length b + l) 0 after) [] ≡ turned_onto name b =
        ap (λ n. turned_onto (chars n 0 after) []) e
        ∙ ap (λ x. turned_onto x []) (chars-text (before ++ name) 0 after front-text)
        ∙ turned_onto-append before name []
        ∙ ap (turned_onto name) (turned_back b) in
      let back = until_nul-text 70 t (length b + l) after (omega arith) clean behind-text in
      rw (front, back) refl
