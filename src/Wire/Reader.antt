-- ===== src/Wire/Reader.antt =====
-- The errors of internal/wire and the readers that its functions take: an `io.Reader` is the list
-- of the bytes that it still yields before its end.
use fsend.Base.{ℕ, zero, suc, ◌≡◌, refl, ap, arith, List, [], ◌∷◌, ◌++◌, Option, none, some}
use fsend.Base.{length, ◌⊎◌, inl, inr}

-- The sentinel errors of io and of the package. `wrapped e` is an error made by `fmt.Errorf` with
-- `%w` about a failed read; the errors that carry a sentinel and details are the sentinel.
pub data Error : Type 0 where
  eof unexpected_eof : Error
  chunk_too_large wrong_frame_type malformed_chunk : Error
  unsupported_version frame_too_large : Error
  write_failed encode_failed decode_failed : Error
  wrapped : Error → Error

pub data Result {ℓ} (A : Type ℓ) : Type ℓ where
  ok : A → Result A
  err : Error → Result A

-- `if err != nil { return fmt.Errorf("…: %w", err) }`
abbrev pub wrap {ℓ} : {A : Type ℓ} → Result A → Result A
wrap (ok a) = ok a
wrap (err e) = err (wrapped e)

infixl 5 ◌>>=◌
abbrev pub ◌>>=◌ {ℓ κ} : {A : Type ℓ} {B : Type κ} → Result A → (A → Result B) → Result B
err x >>= then = err x
ok a >>= then = then a

-- A call outside the package that yields a value, or fails: its error is returned as `e`.
abbrev pub or_error {ℓ} : {A : Type ℓ} → Option A → Error → Result A
or_error (some a) e = ok a
or_error none e = err e

-- `if err != nil { return nil, err }` in front of the rest of a function.
abbrev pub unless {ℓ} : {A : Type ℓ} → Option Error → Result A → Result A
unless none r = r
unless (some e) r = err e

-- One byte in front of what a shorter read gave: a read that has begun and meets the end reports
-- `io.ErrUnexpectedEOF`.
abbrev pub begun : ℕ → Result (List ℕ × List ℕ) → Result (List ℕ × List ℕ)
begun b (ok (bs, rest)) = ok (b ∷ bs, rest)
begun b (err e) = err unexpected_eof

-- io.ReadFull of `n` bytes.
abbrev pub read_full : ℕ → List ℕ → Result (List ℕ × List ℕ)
read_full zero src = ok ([], src)
read_full (suc n) [] = err eof
read_full (suc n) (b ∷ src) = begun b (read_full n src)

pub read_full-append : (bs rest : List ℕ) → read_full (length bs) (bs ++ rest) ≡ ok (bs, rest)
read_full-append [] rest = refl
read_full-append (b ∷ bs) rest = ap (begun b) (read_full-append bs rest)

pub begun-ok :
    (b : ℕ) (r : Result (List ℕ × List ℕ)) {bs rest : List ℕ}
    → begun b r ≡ ok (bs, rest)
    → (t : List ℕ) × (r ≡ ok (t, rest)) × (bs ≡ b ∷ t)
begun-ok b (ok (t, r)) h = (t, cc, cc)
begun-ok b (err e) h = cc

-- What a full read returns is the front of the source, of the length that was asked for.
pub read_full-ok :
    (n : ℕ) (src : List ℕ) {bs rest : List ℕ}
    → read_full n src ≡ ok (bs, rest)
    → (src ≡ bs ++ rest) × (length bs ≡ n)
read_full-ok zero src h = ground arith
read_full-ok (suc n) [] h = cc
read_full-ok (suc n) (b ∷ src) h =
    let (t, e, x) = begun-ok b (read_full n src) h in
    let (s, l) = read_full-ok n src e in (rw x (ap (λ u. b ∷ u) s), rw x (ap suc l))

pub read_full_exact :
    (n : ℕ) (bs rest : List ℕ) → length bs ≡ n → read_full n (bs ++ rest) ≡ ok (bs, rest)
read_full_exact n bs rest e = rw (← e) (read_full-append bs rest)

-- A chain that succeeds: its first step did, and so did the rest on what that step gave.
module _ {ℓ κ} {A : Type ℓ} {B : Type κ} where
  pub >>=-eq-ok :
      (step : Result A) (then : A → Result B) {out : B}
      → (step >>= then) ≡ ok out
      → (mid : A) × (step ≡ ok mid) × (then mid ≡ ok out)
  >>=-eq-ok (err x) then stopped = cc
  >>=-eq-ok (ok mid) then went = (mid, refl, went)

pub wrap-eq-ok {ℓ} : {A : Type ℓ} (r : Result A) {a : A} → wrap r ≡ ok a → r ≡ ok a
wrap-eq-ok (ok b) h = h
wrap-eq-ok (err e) h = cc

pub unless-eq-ok {ℓ} :
    {A : Type ℓ} (o : Option Error) (r : Result A) {a : A}
    → unless o r ≡ ok a
    → (o ≡ none) × (r ≡ ok a)
unless-eq-ok none r h = (refl, h)
unless-eq-ok (some e) r h = cc

pub Result-cases {ℓ} :
    {A : Type ℓ} (r : Result A) → ((a : A) × (r ≡ ok a)) ⊎ ((e : Error) × (r ≡ err e))
Result-cases (ok a) = inl (a, refl)
Result-cases (err e) = inr (e, refl)

pub err_is_not_ok {ℓ} : {A : Type ℓ} (r : Result A) {a : A} {e : Error} → r ≡ err e → r ≡ ok a → ⊥
err_is_not_ok r bad good = cc
