-- ===== src/Transfer/Paths/Beneath.antt =====
-- A path that is let in stays beneath the folder that it is taken in (internal/transfer/paths.go:
-- sanitizeRelativePath).
use fsend.Base.{ℕ, ◌+◌, ◌≤◌, ◌≡◌, refl, sym, ◌∙◌, arith}
use fsend.Base.{Bool, true, false, ◌&&◌, some}
use fsend.Base.{List, [], ◌∷◌, ◌++◌, reverse, reverse_aux, length, take, All}
use fsend.Base.{All-map}
use fsend.Base.Bytes.{bytes_eq}
use fsend.Transfer.Paths.{
  Component, split, join, is_dot, is_up, clean_from, joined_or_dot, clean, any, windows_path_hazard,
  sanitize_relative_path,
}
use fsend.Transfer.Paths.Components.{
  NoSlash, split-join, split-NoSlash, All-reverse_aux, clean_from-All, any-false,
}
use fsend.Transfer.Paths.Walking.{
  resolve, resolve-beneath, All-take, IsName, resolve-names, reverse_aux_twice, reversed_back,
  clean_from-place,
}

-- What the folder of the receiver may rely on, for a path that arrives as `p` and is let in as `c`.
pub record IsBeneath (windows : Bool) (p c : List ℕ) : Type 0 where
  -- It leads where the path that arrived leads.
  pub same_place : (here : List Component) → resolve here (split c) ≡ resolve here (split p)
  -- No part of it leads out of the folder.
  pub beneath :
      (here : List Component) (k : ℕ)
      → (below : List Component) × (resolve here (take k (split c)) ≡ below ++ here)
  -- No component of it has another meaning on Windows.
  pub harmless : windows ≡ true → All (λ x. windows_path_hazard x ≡ false) (split c)

any-eq-false :
    {A : Type 0} (q : A → Bool) (xs : List A) → All (λ x. q x ≡ false) xs → any q xs ≡ false
unfolding any
any-eq-false q [] h = refl
any-eq-false q (x ∷ xs) h = rw h.0 (any-eq-false q xs h.1)

split-joined : (r : List Component) → All NoSlash r → 1 ≤ length r → split (join r) ≡ r
split-joined [] h k = absurd (omega arith)
split-joined (x ∷ xs) h k = split-join x xs h

length-reverse_aux : (xs ys : List Component) → length (reverse_aux xs ys) ≡ length xs + length ys
length-reverse_aux [] ys = omega arith
length-reverse_aux (x ∷ xs) ys = omega (arith, length-reverse_aux xs (x ∷ ys))

-- The components of what Clean writes for a stack.
split-joined_or_dot :
    (x : Component) (xs : List Component)
    → All NoSlash (x ∷ xs)
    → split (joined_or_dot (x ∷ xs)) ≡ reverse (x ∷ xs)
split-joined_or_dot x xs h =
    split-joined (reverse (x ∷ xs)) (All-reverse_aux NoSlash (x ∷ xs) [] h tt)
      (omega (arith, length-reverse_aux (x ∷ xs) []))

split_dot : split (46 ∷ []) ≡ (46 ∷ []) ∷ []
unfolding split
split_dot = refl

stack-place :
    (here stack : List Component)
    → All NoSlash stack
    → All (λ c. (bytes_eq c [] ≡ false) × (is_dot c ≡ false)) stack
    → All (λ c. is_up c ≡ false) (split (joined_or_dot stack))
    → (resolve here (split (joined_or_dot stack)) ≡ stack ++ here) × (any is_up stack ≡ false)
unfolding resolve bytes_eq
stack-place here [] n h u = (rw split_dot refl, any-eq-false is_up [] tt)
stack-place here (x ∷ xs) n h u =
    let parts = split-joined_or_dot x xs n in
    let no_up = reversed_back (λ c. is_up c ≡ false) (x ∷ xs) (rw parts at u) in
    let names = both (x ∷ xs) h no_up in
    (
      rw parts (
          resolve-names here (reverse (x ∷ xs)) (All-reverse_aux IsName (x ∷ xs) [] names tt)
          ∙ reverse_aux_twice (x ∷ xs) [] here),
      any-eq-false is_up (x ∷ xs) no_up,
    )
  where
    both :
        (l : List Component)
        → All (λ c. (bytes_eq c [] ≡ false) × (is_dot c ≡ false)) l
        → All (λ c. is_up c ≡ false) l
        → All IsName l
    both [] v w = tt
    both (y ∷ ys) v w = ((v.0.0, v.0.1, w.0), both ys v.1 w.1)

stack-All {κ} :
    (P : Component → Type κ) (stack : List Component)
    → P (46 ∷ [])
    → All NoSlash stack
    → All P stack
    → All P (split (joined_or_dot stack))
stack-All P [] dot n h = rw split_dot (dot, tt)
stack-All P (x ∷ xs) dot n h = rw (split-joined_or_dot x xs n) (All-reverse_aux P (x ∷ xs) [] h tt)

everywhere {ℓ κ} : {A : Type ℓ} (P : A → Type κ) (xs : List A) → ((x : A) → P x) → All P xs
everywhere P [] f = tt
everywhere P (x ∷ xs) f = (f x, everywhere P xs f)

plain_words :
    (p : List ℕ) → All (λ c. (bytes_eq c [] ≡ false) × (is_dot c ≡ false)) (clean_from [] (split p))
unfolding bytes_eq
plain_words p =
    clean_from-All (λ c. (bytes_eq c [] ≡ false) × (is_dot c ≡ false)) (refl, refl) [] (split p) tt
      (everywhere
        (λ c.
          bytes_eq c [] ≡ false → is_dot c ≡ false → (bytes_eq c [] ≡ false) × (is_dot c ≡ false))
        (split p) (λ c a b. (a, b)))

no_slashes : (p : List ℕ) → All NoSlash (clean_from [] (split p))
no_slashes p =
    clean_from-All NoSlash (refl, (refl, tt)) [] (split p) tt
      (All-map (split p) (λ c h a b. h) (split-NoSlash p))

harmless_dots :
    (windows_path_hazard (46 ∷ []) ≡ false) × (windows_path_hazard (46 ∷ 46 ∷ []) ≡ false)
unfolding windows_path_hazard bytes_eq
harmless_dots = (refl, refl)

let_in :
    (windows : Bool) (p c : List ℕ)
    → sanitize_relative_path windows p ≡ some c
    → (any is_up (split (clean p)) ≡ false)
      × (clean p ≡ c)
      × ((windows && any windows_path_hazard (split p)) ≡ false)
unfolding sanitize_relative_path
let_in windows p c e = (ground arith, ground arith, ground arith)

-- A path that is let in leads, from any folder, where the path that arrived leads, no part of it
-- leads out of that folder, and for a receiver on Windows none of its components is a hazard.
pub sanitize_relative_path-IsBeneath :
    (windows : Bool) (p c : List ℕ)
    → sanitize_relative_path windows p ≡ some c
    → IsBeneath windows p c
unfolding clean
sanitize_relative_path-IsBeneath windows p c e =
    let (no_up, same, safe) = let_in windows p c e in
    let stack = clean_from [] (split p) in
    let up = any-false is_up (split (clean p)) no_up in
    let n = no_slashes p in
    let back = λ (here : List Component). stack-place here stack n (plain_words p) up in
    rw (← same) (record {
      same_place =
          λ here. (back here).0 ∙ sym (clean_from-place [] (split p) here tt (back here).1);
      beneath = λ here k.
          resolve-beneath here (take k (split (clean p)))
            (All-take (λ x. is_up x ≡ false) k (split (clean p)) up);
      harmless = λ w.
          let safe_parts : any windows_path_hazard (split p) ≡ false = ground arith in
          stack-All (λ x. windows_path_hazard x ≡ false) stack harmless_dots.0 n
            (clean_from-All (λ x. windows_path_hazard x ≡ false) harmless_dots.1 [] (split p) tt
              (All-map (split p) (λ x h a b. h)
                (any-false windows_path_hazard (split p) safe_parts)));
    })
