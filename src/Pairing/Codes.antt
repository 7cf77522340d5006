-- ===== src/Pairing/Codes.antt =====
-- Pairing codes as a user types them (internal/code/code.go: IsCode, Normalize, format), as lists of
-- characters.
pub mod Letters
use fsend.Base.{ℕ, zero, suc, ◌+◌, Bool, true, false, not, ◌&&◌, ◌||◌, Option, none, some}
use fsend.Base.{List, [], ◌∷◌, ◌++◌, map, if◌then◌else◌, ltb, leb, ◌==◌, length, take, drop}

-- Alphabet: the letters a to z without i, l and o.
unfoldable pub is_letter : ℕ → Bool
is_letter c = (leb 97 c && leb c 122) && not ((c == 105) || (c == 108) || (c == 111))

-- Length and the hyphen of the layout 3-4-3.
abbrev pub code_length : ℕ
code_length = 10

abbrev pub hyphen : ℕ
hyphen = 45

-- Pattern, piece by piece: so many letters in front of what follows, and a hyphen.
unfoldable pub match_letters : ℕ → (List ℕ → Bool) → List ℕ → Bool
match_letters zero behind s = behind s
match_letters (suc n) behind [] = false
match_letters (suc n) behind (c ∷ s) = is_letter c && match_letters n behind s

abbrev pub match_hyphen : (List ℕ → Bool) → List ℕ → Bool
match_hyphen behind [] = false
match_hyphen behind (c ∷ s) = (c == hyphen) && behind s

abbrev pub at_end : List ℕ → Bool
at_end [] = true
at_end (c ∷ s) = false

unfoldable pub is_code : List ℕ → Bool
is_code = match_letters 3 (match_hyphen (match_letters 4 (match_hyphen (match_letters 3 at_end))))

-- format, of ten letters.
unfoldable pub format : List ℕ → List ℕ
format ls = take 3 ls ++ (hyphen ∷ (take 4 (drop 3 ls) ++ (hyphen ∷ take 3 (drop 7 ls))))

-- unicode.IsSpace
unfoldable pub is_space : ℕ → Bool
is_space c =
    (leb 9 c && leb c 13)
    || (c == 32)
    || (c == 133)
    || (c == 160)
    || (c == 5760)
    || (leb 8192 c && leb c 8202)
    || (c == 8232)
    || (c == 8233)
    || (c == 8239)
    || (c == 8287)
    || (c == 12288)

-- The quotes, and the punctuation at the end.
unfoldable pub is_quote : ℕ → Bool
is_quote c = (c == 34) || (c == 39) || (c == 96)

unfoldable pub is_punctuation : ℕ → Bool
is_punctuation c = (c == 46) || (c == 44) || (c == 59) || (c == 58) || (c == 33) || (c == 63)

-- The separators of the groups: - _ . space and tab.
unfoldable pub is_separator : ℕ → Bool
is_separator c = (c == 45) || (c == 95) || (c == 46) || (c == 32) || (c == 9)

-- unicode.ToLower, as far as it leads to ASCII: A to Z, and U+0130 and U+212A, whose small letters
-- are i and k. Other characters are left as they are: with one of them, nothing is a code.
unfoldable pub to_lower : ℕ → ℕ
to_lower c =
    if leb 65 c && leb c 90 then c + 32 else if c == 304 then 105 else if c == 8490 then 107 else c

unfoldable pub trim_left : (ℕ → Bool) → List ℕ → List ℕ
trim_left p [] = []
trim_left p (c ∷ s) = let rest = trim_left p s in if p c then rest else c ∷ s

abbrev pub unless_nothing : Bool → ℕ → List ℕ → List ℕ
unless_nothing cut c [] = if cut then [] else c ∷ []
unless_nothing cut c (d ∷ s) = c ∷ d ∷ s

unfoldable pub trim_right : (ℕ → Bool) → List ℕ → List ℕ
trim_right p [] = []
trim_right p (c ∷ s) = unless_nothing (p c) c (trim_right p s)

abbrev pub trim : (ℕ → Bool) → List ℕ → List ℕ
trim p s = trim_right p (trim_left p s)

-- The word at the front, and those behind it; strings.FieldsFunc.
abbrev pub unless_empty : List ℕ → List (List ℕ) → List (List ℕ)
unless_empty [] ws = ws
unless_empty (c ∷ w) ws = (c ∷ w) ∷ ws

unfoldable pub words : List ℕ → List ℕ × List (List ℕ)
words [] = ([], [])
words (c ∷ s) =
    let (w, ws) = words s in if is_separator c then ([], unless_empty w ws) else (c ∷ w, ws)

unfoldable pub fields : List ℕ → List (List ℕ)
fields s = let (w, ws) = words s in unless_empty w ws

-- The switch on the groups. The source counts bytes, which are as many as the characters in a code.
unfoldable pub letters_of : List (List ℕ) → Option (List ℕ)
letters_of [] = none
letters_of (g ∷ []) = if length g == code_length then some g else none
letters_of (g ∷ h ∷ []) = none
letters_of (g ∷ h ∷ i ∷ []) =
    if (length g == 3) && (length h == 4) && (length i == 3) then some (g ++ (h ++ i)) else none
letters_of (g ∷ h ∷ i ∷ j ∷ js) = none

-- What the string is before it is cut into groups.
unfoldable pub stripped : List ℕ → List ℕ
stripped s =
    map to_lower (trim is_space (trim_right is_punctuation (trim is_quote (trim is_space s))))

abbrev pub checked : Option (List ℕ) → Option (List ℕ)
checked none = none
checked (some ls) = if is_code (format ls) then some (format ls) else none

-- Normalize; `none` is Go's `("", false)`.
unfoldable pub normalize : List ℕ → Option (List ℕ)
normalize s = checked (letters_of (fields (stripped s)))
