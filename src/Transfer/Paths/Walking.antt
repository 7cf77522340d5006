-- ===== src/Transfer/Paths/Walking.antt =====
-- Where a path leads, and that Clean keeps it (internal/transfer/paths.go: sanitizeRelativePath).
use fsend.Base.{ℕ, zero, suc, ◌≡◌, refl, sym, subst, ◌∙◌}
use fsend.Base.{Bool, true, false, ◌||◌, Bool-cases, inl, inr}
use fsend.Base.{List, [], ◌∷◌, ◌++◌, append-nil, append_assoc, reverse, reverse_aux, take, All}
use fsend.Base.{if◌then◌else◌}
use fsend.Base.Bytes.{bytes_eq}
use fsend.Transfer.Paths.{Component, is_dot, is_up, clean_step, clean_from, any, go_up}
use fsend.Transfer.Paths.Components.{All-reverse_aux, up_is_up}

-- A folder is the list of the names up to it, the last first. A name in a path enters a folder, a
-- `..` leaves it, and an empty component or a `.` does nothing; links are not followed.
abbrev pub parent : List Component → List Component
parent [] = []
parent (x ∷ xs) = xs

abbrev pub enter : List Component → Component → List Component
enter here c = if bytes_eq c [] || is_dot c then here else if is_up c then parent here else c ∷ here

unfoldable pub resolve : List Component → List Component → List Component
resolve here [] = here
resolve here (c ∷ cs) = resolve (enter here c) cs

pub resolve-beneath :
    (here cs : List Component)
    → All (λ c. is_up c ≡ false) cs
    → (below : List Component) × (resolve here cs ≡ below ++ here)
unfolding resolve
resolve-beneath here [] h = ([], refl)
resolve-beneath here (c ∷ cs) h = elim (Bool-cases (bytes_eq c [] || is_dot c)) [
  | inl e ↦ rw e (resolve-beneath here cs h.1)
  | inr e ↦
      let (below, at) = resolve-beneath (c ∷ here) cs h.1 in
      (below ++ (c ∷ []), rw (e, h.0) (at ∙ sym (append_assoc below (c ∷ []) here)))
]

pub All-take {ℓ κ} :
    {A : Type ℓ} (P : A → Type κ) (k : ℕ) (xs : List A) → All P xs → All P (take k xs)
All-take P zero xs h = tt
All-take P (suc k) [] h = tt
All-take P (suc k) (x ∷ xs) h = (h.0, All-take P k xs h.1)

-- A name: neither empty nor `.` nor `..`.
abbrev pub IsName : Component → Type 0
IsName c = (bytes_eq c [] ≡ false) × (is_dot c ≡ false) × (is_up c ≡ false)

pub resolve-names :
    (here xs : List Component) → All IsName xs → resolve here xs ≡ reverse_aux xs here
unfolding resolve
resolve-names here [] h = refl
resolve-names here (x ∷ xs) h = rw (h.0.0, h.0.1, h.0.2) (resolve-names (x ∷ here) xs h.1)

pub reverse_aux_twice :
    (xs ys zs : List Component) → reverse_aux (reverse_aux xs ys) zs ≡ reverse_aux ys (xs ++ zs)
reverse_aux_twice [] ys zs = refl
reverse_aux_twice (x ∷ xs) ys zs = reverse_aux_twice xs (x ∷ ys) zs

pub reversed_back {κ} :
    (P : Component → Type κ) (xs : List Component) → All P (reverse xs) → All P xs
reversed_back P xs h =
    subst (All P) (reverse_aux_twice xs [] [] ∙ append-nil xs)
      (All-reverse_aux P (reverse xs) [] h tt)

clean_step-up :
    (stack : List Component) (c : Component)
    → any is_up stack ≡ true
    → any is_up (clean_step stack c) ≡ true
unfolding any clean_step
clean_step-up [] c h = absurd (true_is_not_false h)
  where
    true_is_not_false : false ≡ true → ⊥
    true_is_not_false x = cc
clean_step-up (top ∷ below) c h = elim (Bool-cases (bytes_eq c [] || is_dot c)) [
  | inl e ↦ rw e h
  | inr e ↦ elim (Bool-cases (is_up c)) [
    | inr u ↦ rw (e, u) (rw u h)
    | inl u ↦ elim (Bool-cases (is_up top)) [
      | inl t ↦ rw (e, u, t) (rw up_is_up refl)
      | inr t ↦ rw (e, u, t) (rw t at h)
    ]
  ]
]

clean_from-up :
    (stack cs : List Component) → any is_up stack ≡ true → any is_up (clean_from stack cs) ≡ true
unfolding clean_from
clean_from-up stack [] h = h
clean_from-up stack (c ∷ cs) h = clean_from-up (clean_step stack c) cs (clean_step-up stack c h)

-- Where no `..` is left, none of them left the folder.
pub clean_from-place :
    (stack cs here : List Component)
    → All (λ c. is_up c ≡ false) stack
    → any is_up (clean_from stack cs) ≡ false
    → resolve (stack ++ here) cs ≡ clean_from stack cs ++ here
unfolding clean_from clean_step resolve any
clean_from-place stack [] here v h = refl
clean_from-place stack (c ∷ cs) here v h = elim (Bool-cases (bytes_eq c [] || is_dot c)) [
  | inl e ↦ rw e (clean_from-place stack cs here v (rw e at h))
  | inr e ↦ elim (Bool-cases (is_up c)) [
    | inr u ↦ rw (e, u) (clean_from-place (c ∷ stack) cs here (u, v) (rw (e, u) at h))
    | inl u ↦
        rw (e, u) (leave stack v (rw (e, u) at h) (λ below w k. clean_from-place below cs here w k))
  ]
]
  where
    leave :
        (st : List Component)
        → All (λ c. is_up c ≡ false) st
        → any is_up (clean_from (go_up st) cs) ≡ false
        → ((below : List Component)
            → All (λ c. is_up c ≡ false) below
            → any is_up (clean_from below cs) ≡ false
            → resolve (below ++ here) cs ≡ clean_from below cs ++ here)
        → resolve (parent (st ++ here)) cs ≡ clean_from (go_up st) cs ++ here
    leave [] w k on = absurd (both (clean_from-up (go_up []) cs (rw up_is_up refl)) k)
      where
        both : {b : Bool} → b ≡ true → b ≡ false → ⊥
        both x y = cc
    leave (top ∷ below) w k on = rw w.0 (on below w.1 (rw w.0 at k))
