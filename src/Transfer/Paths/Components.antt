-- ===== src/Transfer/Paths/Components.antt =====
-- Splitting and joining paths, and filepath.Clean's components (internal/transfer/paths.go).
use fsend.Base.{ℕ, ◌≡◌, refl, ap, ◌∙◌, arith, Bool, true, false, ◌||◌, Bool-cases, inl, inr}
use fsend.Base.{List, [], ◌∷◌, ◌++◌, reverse_aux, ◌==◌, All}
use fsend.Base.Bytes.{bytes_eq}
use fsend.Transfer.Paths.{
  Component, slash, split, join, is_dot, is_up, clean_step, clean_from, any, onto_first, go_up,
}

abbrev pub NoSlash : Component → Type 0
NoSlash c = All (λ b. (b == slash) ≡ false) c

split_word : (x : Component) → NoSlash x → split x ≡ x ∷ []
unfolding split
split_word [] h = refl
split_word (c ∷ cs) h = rw (h.0, split_word cs h.1) refl

split_behind : (x : Component) (r : List ℕ) → NoSlash x → split (x ++ (slash ∷ r)) ≡ x ∷ split r
unfolding split
split_behind [] r h = refl
split_behind (c ∷ cs) r h = rw (h.0, split_behind cs r h.1) refl

pub split-join :
    (x : Component) (xs : List Component) → All NoSlash (x ∷ xs) → split (join (x ∷ xs)) ≡ x ∷ xs
unfolding join
split-join x [] h = split_word x h.0
split-join x (y ∷ xs) h = split_behind x (join (y ∷ xs)) h.0 ∙ ap (λ l. x ∷ l) (split-join y xs h.1)

onto_first-NoSlash :
    (c : ℕ) (xs : List Component)
    → (c == slash) ≡ false
    → All NoSlash xs
    → All NoSlash (onto_first c xs)
onto_first-NoSlash c [] h v = ((h, tt), tt)
onto_first-NoSlash c (x ∷ xs) h v = ((h, v.0), v.1)

pub split-NoSlash : (p : List ℕ) → All NoSlash (split p)
unfolding split
split-NoSlash [] = (tt, tt)
split-NoSlash (c ∷ cs) = elim (Bool-cases (c == slash)) [
  | inl e ↦ rw e (tt, split-NoSlash cs)
  | inr e ↦ rw e (onto_first-NoSlash c (split cs) e (split-NoSlash cs))
]

pub All-reverse_aux {ℓ κ} :
    {A : Type ℓ} (P : A → Type κ) (xs ys : List A) → All P xs → All P ys → All P (reverse_aux xs ys)
All-reverse_aux P [] ys h k = k
All-reverse_aux P (x ∷ xs) ys h k = All-reverse_aux P xs (x ∷ ys) h.1 (h.0, k)

-- What holds of all components of a path holds of those that Clean leaves.
module _ {κ} (P : Component → Type κ) (up : P (46 ∷ 46 ∷ [])) where
  go_up-All : (stack : List Component) → All P stack → All P (go_up stack)
  go_up-All [] h = (up, tt)
  go_up-All (top ∷ below) h = elim (Bool-cases (is_up top)) [
    | inl e ↦ rw e (up, h)
    | inr e ↦ rw e h.1
  ]

  clean_step-All :
      (stack : List Component) (c : Component)
      → All P stack
      → (bytes_eq c [] ≡ false → is_dot c ≡ false → P c)
      → All P (clean_step stack c)
  unfolding clean_step
  clean_step-All stack c h v = elim (Bool-cases (bytes_eq c [] || is_dot c)) [
    | inl e ↦ rw e h
    | inr e ↦ elim (Bool-cases (is_up c)) [
      | inl u ↦ rw (e, u) (go_up-All stack h)
      | inr u ↦ rw (e, u) (v (ground arith) (ground arith), h)
    ]
  ]

  pub clean_from-All :
      (stack cs : List Component)
      → All P stack
      → All (λ c. bytes_eq c [] ≡ false → is_dot c ≡ false → P c) cs
      → All P (clean_from stack cs)
  unfolding clean_from
  clean_from-All stack [] h v = h
  clean_from-All stack (c ∷ cs) h v =
      clean_from-All (clean_step stack c) cs (clean_step-All stack c h v.0) v.1

pub any-false :
    {A : Type 0} (p : A → Bool) (xs : List A) → any p xs ≡ false → All (λ x. p x ≡ false) xs
unfolding any
any-false p [] h = tt
any-false p (x ∷ xs) h = (ground arith, any-false p xs (ground arith))

pub up_is_up : is_up (46 ∷ 46 ∷ []) ≡ true
unfolding bytes_eq
up_is_up = refl
