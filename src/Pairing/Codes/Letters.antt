-- ===== src/Pairing/Codes/Letters.antt =====
-- What Normalize makes of a string (internal/code/code.go).
use fsend.Base.{ℕ, zero, suc, ◌≡◌, refl, sym, ap, ◌∙◌, arith, Bool, true, false}
use fsend.Base.{Option-cases, none_is_not_some, Bool-cases, inl, inr, some}
use fsend.Base.{List, [], ◌∷◌, ◌++◌, map, append-nil, if◌then◌else◌, length}
use fsend.Base.{
  take, drop, all, take-append-drop, take_all, length-take, length-drop, drop-drop, length-append,
}
use fsend.Transfer.Batches.{joined}
use fsend.Pairing.Codes.{
  is_letter, hyphen, match_letters, match_hyphen, at_end, is_code, format, is_space, is_quote,
  is_punctuation, is_separator, to_lower, trim_left, unless_nothing, trim_right, trim, unless_empty,
  words, fields, letters_of, stripped, checked, normalize,
}

-- The letters of a code among some characters.
unfoldable pub letters : List ℕ → List ℕ
letters [] = []
letters (c ∷ s) = if is_letter c then c ∷ letters s else letters s

letters-append : (s t : List ℕ) → letters (s ++ t) ≡ letters s ++ letters t
unfolding letters
letters-append [] t = refl
letters-append (c ∷ s) t = elim (Bool-cases (is_letter c)) [
  | inl e ↦ rw (e, letters-append s t) refl
  | inr e ↦ rw (e, letters-append s t) refl
]

letters-all : (s : List ℕ) → all is_letter s ≡ true → letters s ≡ s
unfolding letters
letters-all [] h = refl
letters-all (c ∷ s) h =
    let here : is_letter c ≡ true = ground arith in
    rw here (ap (λ l. c ∷ l) (letters-all s (ground arith)))

-- Trimming characters that are no letters, in either case.
module _ (p : ℕ → Bool) (no_letter : (c : ℕ) → p c ≡ true → is_letter (to_lower c) ≡ false) where
  letters-trim_left :
      (s : List ℕ) → letters (map to_lower (trim_left p s)) ≡ letters (map to_lower s)
  unfolding letters trim_left
  letters-trim_left [] = refl
  letters-trim_left (c ∷ s) = elim (Bool-cases (p c)) [
    | inl e ↦ rw (e, no_letter c e) (letters-trim_left s)
    | inr e ↦ rw e refl
  ]

  letters-unless_nothing :
      (c : ℕ) (s : List ℕ)
      → letters (map to_lower (unless_nothing (p c) c s)) ≡ letters (map to_lower (c ∷ s))
  unfolding letters
  letters-unless_nothing c [] = elim (Bool-cases (p c)) [
    | inl e ↦ rw (e, no_letter c e) refl
    | inr e ↦ rw e refl
  ]
  letters-unless_nothing c (d ∷ s) = refl

  letters-trim_right :
      (s : List ℕ) → letters (map to_lower (trim_right p s)) ≡ letters (map to_lower s)
  unfolding letters trim_right
  letters-trim_right [] = refl
  letters-trim_right (c ∷ s) =
      letters-unless_nothing c (trim_right p s) ∙ rw (letters-trim_right s) refl

  letters-trim : (s : List ℕ) → letters (map to_lower (trim p s)) ≡ letters (map to_lower s)
  letters-trim s = letters-trim_right (trim_left p s) ∙ letters-trim_left s

space-no_letter : (c : ℕ) → is_space c ≡ true → is_letter (to_lower c) ≡ false
unfolding is_space is_letter to_lower
space-no_letter c h = ground arith

quote-no_letter : (c : ℕ) → is_quote c ≡ true → is_letter (to_lower c) ≡ false
unfolding is_quote is_letter to_lower
quote-no_letter c h = ground arith

punctuation-no_letter : (c : ℕ) → is_punctuation c ≡ true → is_letter (to_lower c) ≡ false
unfolding is_punctuation is_letter to_lower
punctuation-no_letter c h = ground arith

separator-no_letter : (c : ℕ) → is_separator c ≡ true → is_letter c ≡ false
unfolding is_separator is_letter
separator-no_letter c h = ground arith

letters-stripped : (s : List ℕ) → letters (stripped s) ≡ letters (map to_lower s)
unfolding stripped
letters-stripped s =
    let a = trim is_space s in
    let b = trim is_quote a in
    letters-trim is_space space-no_letter (trim_right is_punctuation b)
    ∙ letters-trim_right is_punctuation punctuation-no_letter b
    ∙ letters-trim is_quote quote-no_letter a
    ∙ letters-trim is_space space-no_letter s

letters-unless_empty :
    (w : List ℕ) (ws : List (List ℕ))
    → letters (joined (unless_empty w ws)) ≡ letters (w ++ joined ws)
unfolding joined
letters-unless_empty [] ws = refl
letters-unless_empty (c ∷ w) ws = refl

letters-words : (s : List ℕ) → letters ((words s).0 ++ joined (words s).1) ≡ letters s
unfolding words letters joined
letters-words [] = refl
letters-words (c ∷ s) = elim (Bool-cases (is_separator c)) [
  | inl e ↦
      rw (e, separator-no_letter c e)
        (letters-unless_empty (words s).0 (words s).1 ∙ letters-words s)
  | inr e ↦ rw (e, letters-words s) refl
]

letters-fields : (s : List ℕ) → letters (joined (fields s)) ≡ letters s
unfolding fields
letters-fields s = letters-unless_empty (words s).0 (words s).1 ∙ letters-words s

letters_of-joined :
    (gs : List (List ℕ)) (ls : List ℕ)
    → letters_of gs ≡ some ls
    → (joined gs ≡ ls) × (length ls ≡ 10)
unfolding letters_of joined
letters_of-joined [] ls h = cc
letters_of-joined (g ∷ []) ls h =
    let same : g ≡ ls = ground arith in (append-nil g ∙ same, ap length (sym same) ∙ ground arith)
letters_of-joined (g ∷ k ∷ []) ls h = cc
letters_of-joined (g ∷ k ∷ i ∷ []) ls h =
    let same : g ++ (k ++ i) ≡ ls = ground arith in
    (
      ap (λ l. g ++ (k ++ l)) (append-nil i) ∙ same,
      ap length (sym same) ∙ ground (arith, length-append g (k ++ i), length-append k i),
    )
letters_of-joined (g ∷ k ∷ i ∷ j ∷ js) ls h = cc

match_letters-all :
    (n : ℕ) (behind : List ℕ → Bool) (s r : List ℕ)
    → length s ≡ n
    → match_letters n behind (s ++ r) ≡ true
    → (all is_letter s ≡ true) × (behind r ≡ true)
unfolding match_letters
match_letters-all zero behind [] r l h = (refl, h)
match_letters-all zero behind (c ∷ s) r l h = absurd (omega arith)
match_letters-all (suc n) behind [] r l h = absurd (omega arith)
match_letters-all (suc n) behind (c ∷ s) r l h =
    let (rest, more) = match_letters-all n behind s r (omega arith) (ground arith) in
    (ground arith, more)

all-append :
    (s t : List ℕ) → all is_letter s ≡ true → all is_letter t ≡ true → all is_letter (s ++ t) ≡ true
all-append [] t h k = k
all-append (c ∷ s) t h k = ground (arith, all-append s t)

-- The three groups of ten letters.
groups :
    (ls : List ℕ) → length ls ≡ 10 → take 3 ls ++ (take 4 (drop 3 ls) ++ take 3 (drop 7 ls)) ≡ ls
groups ls h =
    ap (λ l. take 3 ls ++ (take 4 (drop 3 ls) ++ l))
      (take_all 3 (drop 7 ls) (omega (arith, length-drop 7 ls)) ∙ sym (drop-drop 3 4 7 ls refl))
    ∙ ap (λ l. take 3 ls ++ l) (take-append-drop 4 (drop 3 ls))
    ∙ take-append-drop 3 ls

format-letters :
    (ls : List ℕ) → length ls ≡ 10 → is_code (format ls) ≡ true → all is_letter ls ≡ true
unfolding is_code format
format-letters ls h k =
    let a = take 3 ls in
    let b = take 4 (drop 3 ls) in
    let c = take 3 (drop 7 ls) in
    let (x, k1) =
      match_letters-all 3 (match_hyphen (match_letters 4 (match_hyphen (match_letters 3 at_end)))) a
        (hyphen ∷ (b ++ (hyphen ∷ c))) (omega (arith, length-take 3 ls)) k in
    let (y, k2) =
      match_letters-all 4 (match_hyphen (match_letters 3 at_end)) b (hyphen ∷ c)
        (omega (arith, length-take 4 (drop 3 ls), length-drop 3 ls)) k1 in
    let (z, k3) =
      match_letters-all 3 at_end c [] (omega (arith, length-take 3 (drop 7 ls), length-drop 7 ls))
        (ap (match_letters 3 at_end) (append-nil c) ∙ k2) in
    ap (all is_letter) (sym (groups ls h)) ∙ all-append a (b ++ c) x (all-append b c y z)

-- What Normalize returns is a code, laid out from exactly the code letters of the string in lower
-- case, in their order.
pub normalize-letters :
    (s c : List ℕ)
    → normalize s ≡ some c
    → (is_code c ≡ true) × (c ≡ format (letters (map to_lower s)))
unfolding normalize
normalize-letters s c h = elim (Option-cases (letters_of (fields (stripped s)))) [
  | inl e ↦ absurd (none_is_not_some (rw e at h))
  | inr (ls, e) ↦
      let (code, same) = accepted ls (rw e at h) in
      let (join, ten) = letters_of-joined (fields (stripped s)) ls e in
      (
        rw (← same) code,
        sym same
            ∙ ap format (
                sym (letters-all ls (format-letters ls ten code))
                ∙ ap letters (sym join)
                ∙ letters-fields (stripped s)
                ∙ letters-stripped s),
      )
]
  where
    accepted :
        (ls : List ℕ) → checked (some ls) ≡ some c → (is_code (format ls) ≡ true) × (format ls ≡ c)
    accepted ls k = (ground arith, ground arith)
