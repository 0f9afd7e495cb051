-- ===== src/Directory/Match.antt =====
-- An entry that `set_dir_entry` has written is matched by its own name, and by no other.
use rsx.Base.{
  ==_refl, Block, Bool, List, [], arith, false, get-set_int16, get_int16, if◌then◌else◌, ltb, ne→==,
  not, refl, set_int16, suc, true, update, update_self, zero, ℕ, ◌&&◌, ◌+◌, ◌<◌, ◌==◌, ◌||◌, ◌↔◌,
  ◌∙◌, ◌∷◌, ◌≡◌, ◌≢◌, ◌≤◌, ◌⊎◌,
}
use rsx.Directory.{blank, fill_field, match, match_field, set_dir_entry}

-- A name that fits its field: at most n characters, each below 128 and none of them
-- a NUL or a blank.
abbrev pub IsName : ℕ → List ℕ → Type 0
IsName n [] = Unit {0}
IsName zero (ch ∷ p) = ⊥
IsName (suc n) (ch ∷ p) = (ch ≢ 0) × (ch ≢ blank) × (ch < 128) × IsName n p

-- Filling a field leaves the bytes outside of it alone.
fill_field-outside :
    (n at : ℕ) (p : List ℕ) (e : Block) (o : ℕ)
    → (o < at) ⊎ (at + n ≤ o)
    → fill_field n at p e o ≡ e o
unfolding fill_field
fill_field-outside zero at p e o h = refl
fill_field-outside (suc n) at [] e o h =
    fill_field-outside n (suc at) [] (update e at blank) o (omega arith)
    ∙ rw (ne→== at o (omega arith)) refl
fill_field-outside (suc n) at (ch ∷ p) e o h =
    fill_field-outside n (suc at) p (update e at ch) o (omega arith)
    ∙ rw (ne→== at o (omega arith)) refl

fill_field-first_nil : (n at : ℕ) (e : Block) → fill_field (suc n) at [] e at ≡ blank
unfolding fill_field
fill_field-first_nil n at e =
    fill_field-outside n (suc at) [] (update e at blank) at (omega arith) ∙ update_self e at blank

fill_field-first : (n at ch : ℕ) (p : List ℕ) (e : Block) → fill_field (suc n) at (ch ∷ p) e at ≡ ch
unfolding fill_field
fill_field-first n at ch p e =
    fill_field-outside n (suc at) p (update e at ch) at (omega arith) ∙ update_self e at ch

-- Two lists of characters are the same, as a test.
pub same_text : List ℕ → List ℕ → Bool
same_text [] [] = true
same_text [] (b ∷ q) = false
same_text (a ∷ p) [] = false
same_text (a ∷ p) (b ∷ q) = (a == b) && same_text p q

pub same_text_iff : (p q : List ℕ) → (same_text p q ≡ true) ↔ (p ≡ q)
unfolding same_text
same_text_iff [] [] = ((λ e. refl), λ e. refl)
same_text_iff [] (b ∷ q) = ((λ e. cc), λ e. cc)
same_text_iff (a ∷ p) [] = ((λ e. cc), λ e. cc)
same_text_iff (a ∷ p) (b ∷ q) =
    ((λ e. ground (arith, (same_text_iff p q).0)), λ e. ground (arith, (same_text_iff p q).1))

-- A field with the bytes of the filled one matches just the name that it was filled with.
match_field-fill :
    (n at : ℕ) (p q : List ℕ) (d e : Block)
    → IsName n p
    → IsName n q
    → ((o : ℕ) → at ≤ o → o < at + n → d o ≡ fill_field n at p e o)
    → match_field n at q d ≡ same_text p q
unfolding match_field same_text
match_field-fill zero at [] [] d e hp hq same = refl
match_field-fill zero at [] (b ∷ q) d e hp hq same = absurd hq
match_field-fill zero at (a ∷ p) q d e hp hq same = absurd hp
match_field-fill (suc n) at [] [] d e hp hq same =
    let first = same at (omega arith) (omega arith) ∙ fill_field-first_nil n at e in
    rw (first, ==_refl blank) refl
match_field-fill (suc n) at [] (b ∷ q) d e hp hq same =
    let first = same at (omega arith) (omega arith) ∙ fill_field-first_nil n at e in ground arith
match_field-fill (suc n) at (a ∷ p) [] d e hp hq same =
    let first = same at (omega arith) (omega arith) ∙ fill_field-first n at a p e in ground arith
match_field-fill (suc n) at (a ∷ p) (b ∷ q) d e hp hq same =
    let first = same at (omega arith) (omega arith) ∙ fill_field-first n at a p e in
    let rest =
      match_field-fill n (suc at) p q d (update e at a) hp.3 hq.3
        (λ o lo hi. same o (omega arith) (omega arith) ∙ unfold fill_field in refl) in
    ground arith

set_int16-below : (p : Block) (i v o : ℕ) → o < i → set_int16 p i v o ≡ p o
set_int16-below p i v o h = ground arith

split_tests :
    (a b c d : Bool)
    → (if a then (if b then (if c then d else true) else false) else false)
      ≡ (a && b && (not c || d))
split_tests a b c d = ground arith

-- For names of at most nine and extensions of at most three characters, each below 128 and none
-- of them a NUL or a blank, and for a version and a number of an index file entry that are words,
-- match finds in an entry written by set_dir_entry just the name and the extension that it was
-- written with, and, if the version asked for is positive as a short, just its version; the entry
-- also holds the number of the index file entry.
pub match-set_dir_entry :
    (e : Block) (ino : ℕ) (fname ext fname' ext' : List ℕ) (vers vers' : ℕ)
    → IsName 9 fname
    → IsName 3 ext
    → IsName 9 fname'
    → IsName 3 ext'
    → vers < 65536
    → ino < 65536
    → let d = set_dir_entry e ino fname ext vers in
      (get_int16 d 0 ≡ ino)
      × (match d fname' ext' vers' ≡ (
          same_text fname fname'
          && same_text ext ext'
          && (not (ltb 0 vers' && ltb vers' 32768) || vers == vers')))
unfolding set_dir_entry match
match-set_dir_entry e ino fname ext fname' ext' vers vers' h1 h2 h3 h4 hv hi =
    let numbered = set_int16 e 0 ino in
    let named = fill_field 9 2 fname numbered in
    let typed = fill_field 3 11 ext named in
    let d = set_int16 typed 14 vers in
    let name = match_field-fill 9 2 fname fname' d numbered h1 h3 (λ o lo hi'.
      set_int16-below typed 14 vers o (omega arith)
      ∙ fill_field-outside 3 11 ext named o (omega arith)) in
    let type =
      match_field-fill 3 11 ext ext' d named h2 h4
        (λ o lo hi'. set_int16-below typed 14 vers o (omega arith)) in
    let version = get-set_int16 typed 14 vers hv in
    let low = λ (o : ℕ) (h : o < 2).
      set_int16-below typed 14 vers o (omega arith)
      ∙ fill_field-outside 3 11 ext named o (omega arith)
      ∙ fill_field-outside 9 2 fname numbered o (omega arith) in
    (
      omega (arith, low 0 (omega arith), low 1 (omega arith)),
      rw (name, type, version)
          (split_tests (same_text fname fname') (same_text ext ext')
            (ltb 0 vers' && ltb vers' 32768) (vers == vers')),
    )
