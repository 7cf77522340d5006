-- ===== src/Pairing/Tests.antt =====
-- Runs of the epochs and of the codes (internal/code/slot.go, code.go).
use fsend.Base.{ℕ, ◌+◌, ◌-◌, ◌*◌, ◌≡◌, ◌↔◌, refl, arith, [], ◌∷◌}
use fsend.Base.{none, some, map, true}
use fsend.Base.Texts.{codes}
use fsend.Pairing.Codes.{
  is_letter, match_letters, is_code, format, is_space, is_quote, is_punctuation, is_separator,
  to_lower, trim_left, trim_right, words, fields, letters_of, stripped, normalize,
}
use fsend.Pairing.Codes.Letters.{letters, normalize-letters}
use fsend.Pairing.{epoch, epochs_for}
use fsend.Pairing.Overlap.{IsIn, AreClose, epochs_for_iff}

-- Just behind midnight of day 2, at noon, and just before midnight.
midnight : epochs_for (2 * 86400 + 60) ≡ 2 ∷ 1 ∷ []
unfolding epochs_for epoch
midnight = refl

noon : epochs_for (2 * 86400 + 43200) ≡ 2 ∷ []
unfolding epochs_for epoch
noon = refl

late : epochs_for (3 * 86400 - 60) ≡ 2 ∷ 3 ∷ []
unfolding epochs_for epoch
late = refl

epochs_for_iff_example :
    IsIn 1 (epochs_for (2 * 86400 + 60)) ↔ ((s : ℕ) × AreClose s (2 * 86400 + 60) × (epoch s ≡ 1))
epochs_for_iff_example = epochs_for_iff 1 (2 * 86400 + 60) (omega arith)

dictated : normalize (codes " 'ABC_DEFG_jkm'") ≡ some (codes "abc-defg-jkm")
unfolding normalize stripped fields words letters_of trim_left trim_right is_letter match_letters
    is_code format is_space is_quote is_punctuation is_separator to_lower
dictated = refl

run_together : normalize (codes "abcdefgjkm.") ≡ some (codes "abc-defg-jkm")
unfolding normalize stripped fields words letters_of trim_left trim_right is_letter match_letters
    is_code format is_space is_quote is_punctuation is_separator to_lower
run_together = refl

misplaced : normalize (codes "abcd-efg-jkm") ≡ none
unfolding normalize stripped fields words letters_of trim_left trim_right is_letter match_letters
    is_code format is_space is_quote is_punctuation is_separator to_lower
misplaced = refl

ambiguous_letter : normalize (codes "abc-defg-jkl") ≡ none
unfolding normalize stripped fields words letters_of trim_left trim_right is_letter match_letters
    is_code format is_space is_quote is_punctuation is_separator to_lower
ambiguous_letter = refl

normalize-letters_example :
    (is_code (codes "abc-defg-jkm") ≡ true)
    × (codes "abc-defg-jkm" ≡ format (letters (map to_lower (codes " 'ABC_DEFG_jkm'"))))
normalize-letters_example =
    normalize-letters (codes " 'ABC_DEFG_jkm'") (codes "abc-defg-jkm") dictated
