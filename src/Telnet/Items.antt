-- ===== src/Telnet/Items.antt =====
-- The stream of a Telnet client as a list of items, and what the filter of telnet.c makes of it.
use rsx.Base.{
  Bool, List, [], ap, arith, false, if◌then◌else◌, not, refl, true, ℕ, ◌&&◌, ◌==◌, ◌∙◌, ◌∷◌, ◌≡◌,
  ◌≢◌,
}
use rsx.Telnet.{
  LineState, Telnet, after_iac, filter_all, iac, norm, skip, telnet_filter, tn_bin, tn_brk, tn_cr,
  tn_iac, tn_will, tn_wont, will, wont,
}

-- One item of the stream: a character, or a command with its parameter.
pub data Item : Type 0 where
  text : ℕ → Item
  end_line : ℕ → Item
  escaped : Item
  break : Item
  agree : ℕ → Item
  refuse : ℕ → Item
  command : ℕ → ℕ → Item

abbrev pub item_bytes : Item → List ℕ → List ℕ
item_bytes (text c) cs = c ∷ cs
item_bytes (end_line c) cs = tn_cr ∷ c ∷ cs
item_bytes escaped cs = tn_iac ∷ tn_iac ∷ cs
item_bytes break cs = tn_iac ∷ tn_brk ∷ cs
item_bytes (agree c) cs = tn_iac ∷ tn_will ∷ c ∷ cs
item_bytes (refuse c) cs = tn_iac ∷ tn_wont ∷ c ∷ cs
item_bytes (command a c) cs = tn_iac ∷ a ∷ c ∷ cs

unfoldable pub stream : List Item → List ℕ
stream [] = []
stream (x ∷ xs) = item_bytes x (stream xs)

-- Only text is output.
abbrev pub item_text : Item → List ℕ → List ℕ
item_text (text c) cs = c ∷ cs
item_text (end_line c) cs = cs
item_text escaped cs = cs
item_text break cs = cs
item_text (agree c) cs = cs
item_text (refuse c) cs = cs
item_text (command a c) cs = cs

unfoldable pub texts : List Item → List ℕ
texts [] = []
texts (x ∷ xs) = item_text x (texts xs)

-- Whether binary mode is off behind an item: the client has refused it and not agreed since.
abbrev pub item_mode : Item → Bool → Bool
item_mode (text c) d = d
item_mode (end_line c) d = d
item_mode escaped d = d
item_mode break d = d
item_mode (agree c) d = if c == tn_bin then false else d
item_mode (refuse c) d = if c == tn_bin then true else d
item_mode (command a c) d = d

unfoldable pub mode_after : List Item → Bool → Bool
mode_after [] d = d
mode_after (x ∷ xs) d = mode_after xs (item_mode x d)

-- Where an item can stand: in binary mode IAC IAC is an item, and CR is text; else CR takes a
-- character with it, and IAC IAC is a command with a parameter.
abbrev pub Fits : Item → Bool → Type 0
Fits (text c) d = (c ≢ tn_iac) × ((c == tn_cr) && d ≡ false)
Fits (end_line c) d = d ≡ true
Fits escaped d = d ≡ false
Fits break d = Unit
Fits (agree c) d = Unit
Fits (refuse c) d = Unit
Fits (command a c) d =
    ((a == tn_iac) && not d ≡ false) × ((a ≢ tn_brk) × ((a ≢ tn_will) × (a ≢ tn_wont)))

unfoldable pub AllFit : List Item → Bool → Type 0
AllFit [] d = Unit
AllFit (x ∷ xs) d = Fits x d × AllFit xs (item_mode x d)

item_step :
    (x : Item) (cs : List ℕ) (d : Bool)
    → Fits x d
    → filter_all (item_bytes x cs) (record { tsta = norm; dstb = d }) ≡ (
        let (out, w) = filter_all cs (record { tsta = norm; dstb = item_mode x d }) in
        (item_text x out, w))
unfolding filter_all telnet_filter after_iac
item_step (text c) cs d h = ground (arith, h.0, h.1)
item_step (end_line c) cs d h = ground (arith, h)
item_step escaped cs d h = ground (arith, h)
item_step break cs d h = ground arith
item_step (agree c) cs d h = ground arith
item_step (refuse c) cs d h = ground arith
item_step (command a c) cs d h = ground (arith, h.0, h.1.0, h.1.1.0, h.1.1.1)

filter_all-nil : (t : Telnet) → filter_all [] t ≡ ([], t)
unfolding filter_all
filter_all-nil t = refl

-- On a stream of items that fit the mode they stand in, the filter outputs the characters of the
-- text items and nothing for the others, is back in the normal state, and has binary mode off
-- just if the client refused it last. The others are the commands, and also, against what the
-- comments in the code say, a doubled IAC and a break, which come through as no character; with
-- binary mode off, CR and the character behind it as well.
pub filter_all-stream :
    (xs : List Item) (d : Bool)
    → AllFit xs d
    → filter_all (stream xs) (record { tsta = norm; dstb = d })
      ≡ (texts xs, record { tsta = norm; dstb = mode_after xs d })
unfolding stream texts mode_after AllFit
filter_all-stream [] d h = filter_all-nil _
filter_all-stream (x ∷ xs) d h =
    item_step x (stream xs) d h.0
    ∙ ap (λ r. (item_text x r.0, r.1)) (filter_all-stream xs (item_mode x d) h.1)

unfoldable pub HasNoIac : List ℕ → Type 0
HasNoIac [] = Unit
HasNoIac (c ∷ cs) = (c ≢ tn_iac) × HasNoIac cs

passed :
    (r : Bool) (c : ℕ) (cs : List ℕ)
    → ((r ≡ true) → c ≢ tn_iac)
    → HasNoIac cs
    → HasNoIac (if r then c ∷ cs else cs)
unfolding HasNoIac
passed true c cs f h = (f refl, h)
passed false c cs f h = h

passed-ne :
    (s : LineState) (c : ℕ) (d : Bool)
    → (telnet_filter c (record { tsta = s; dstb = d })).0 ≡ true
    → c ≢ tn_iac
unfolding telnet_filter
passed-ne norm c d h = ground (arith, h)
passed-ne iac c d h = ground (arith, h)
passed-ne will c d h = ground (arith, h)
passed-ne wont c d h = ground (arith, h)
passed-ne skip c d h = ground (arith, h)

-- In every state, and whatever the client sends, no IAC character is output: a doubled one, which
-- stands for a data byte 255, is dropped too.
pub filter_all-HasNoIac : (cs : List ℕ) (t : Telnet) → HasNoIac (filter_all cs t).0
unfolding filter_all HasNoIac
filter_all-HasNoIac [] t = tt
filter_all-HasNoIac (c ∷ cs) t =
    passed (telnet_filter c t).0 c _ (passed-ne t.tsta c t.dstb)
      (filter_all-HasNoIac cs (telnet_filter c t).1)
