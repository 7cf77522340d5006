-- ===== src/Transfer/Negotiation/Reserving.antt =====
-- Which files are taken on for hashing (internal/transfer/send.go: verifyHashes).
use fsend.Base.{append-nil, append_assoc, none, some}
use fsend.Base.{ℕ, ◌≡◌, ◌≢◌, refl, sym, ap, ◌∙◌, arith}
use fsend.Base.{true, false, not, ◌&&◌, Bool-cases, inl, inr, ◌==◌, ==_refl, Option}
use fsend.Base.{List, [], ◌∷◌, ◌++◌, All}
use fsend.Base.{All-map, All-append}
use fsend.Base.Maps.{same}
use fsend.Transfer.Negotiation.{
  FileHash, no_hash, SourcePath, path_of, hash_of, is_known, reserve, hash_all, HashLog, hash_one,
}

-- No element stands twice.
abbrev pub AreDistinct : List ℕ → Type 0
AreDistinct [] = Unit
AreDistinct (x ∷ xs) = All (λ y. x ≢ y) xs × AreDistinct xs

pub append-AreDistinct :
    (xs ys : List ℕ)
    → AreDistinct xs
    → AreDistinct ys
    → All (λ x. All (λ y. x ≢ y) ys) xs
    → AreDistinct (xs ++ ys)
append-AreDistinct [] ys v w h = w
append-AreDistinct (x ∷ xs) ys v w h =
    (All-append (λ y. x ≢ y) xs ys v.0 h.0, append-AreDistinct xs ys v.1 w h.1)

-- `hashed` has the index.
abbrev pub IsKnown : List FileHash → ℕ → Type 0
IsKnown hs i = is_known (hash_of i hs) ≡ true

abbrev pub IsNew : List FileHash → ℕ → Type 0
IsNew hs i = is_known (hash_of i hs) ≡ false

abbrev pub Grows : List FileHash → List FileHash → Type 0
Grows hs ks = (i : ℕ) → IsKnown hs i → IsKnown ks i

stored-Grows : (h : FileHash) (hs : List FileHash) → Grows hs (h ∷ hs)
unfolding hash_of
stored-Grows h hs i k = elim (Bool-cases (h.index == i)) [ inl e ↦ rw e refl | inr e ↦ rw e k ]

pub known_differs : (hs : List FileHash) (i j : ℕ) → IsKnown hs i → IsNew hs j → i ≢ j
known_differs hs i j k n e = true_is_not_false (sym k ∙ ap (λ x. is_known (hash_of x hs)) e ∙ n)
  where
    true_is_not_false : true ≡ false → ⊥
    true_is_not_false x = cc

module _ (ss : List SourcePath) where
  abbrev pub IsListed : ℕ → Type 0
  IsListed i = same (path_of i ss) "" ≡ false

  pub record Reserved (hs : List FileHash) (r : List ℕ × List FileHash) : Type 0 where
    pub distinct : AreDistinct r.0
    pub new : All (IsNew hs) r.0
    pub known : All (IsKnown r.1) r.0
    pub listed : All IsListed r.0
    pub grows : Grows hs r.1

  before-IsNew : (h : FileHash) (hs : List FileHash) (i : ℕ) → IsNew (h ∷ hs) i → IsNew hs i
  before-IsNew h hs i n = elim (Bool-cases (is_known (hash_of i hs))) [
    | inr e ↦ e
    | inl e ↦ absurd (known_differs (h ∷ hs) i i (stored-Grows h hs i e) n refl)
  ]

  pub reserve-Reserved : (is : List ℕ) (hs : List FileHash) → Reserved hs (reserve ss is hs)
  unfolding reserve hash_of
  reserve-Reserved [] hs = record {
    distinct = tt;
    new = tt;
    known = tt;
    listed = tt;
    grows = λ i k. k;
  }
  reserve-Reserved (i ∷ is) hs =
      let known = is_known (hash_of i hs) in
      let empty = same (path_of i ss) "" in
      elim (Bool-cases (not known && not empty)) [
        | inr e ↦ rw e (reserve-Reserved is hs)
        | inl e ↦
            let h : FileHash = record { index = i; hash = no_hash } in
            let v = reserve-Reserved is (h ∷ hs) in
            let here : IsKnown (h ∷ hs) i = rw (==_refl i, hash_of) refl in
            rw e (record {
              distinct = (
                All-map (reserve ss is (h ∷ hs)).0 (λ j n. known_differs (h ∷ hs) i j here n) v.new,
                v.distinct,
              );
              new = (
                ground arith,
                All-map (reserve ss is (h ∷ hs)).0 (λ j n. before-IsNew h hs j n) v.new,
              );
              known = (v.grows i here, v.known);
              listed = (ground arith, v.listed);
              grows = λ j k. v.grows j (stored-Grows h hs j k);
            })
      ]

hash_one-Grows :
    (o : Option (List ℕ)) (i : ℕ) (t : HashLog) → Grows t.hashed (hash_one o i t).hashed
hash_one-Grows none i t j k = k
hash_one-Grows (some h) i t j k = stored-Grows (record { index = i; hash = h }) t.hashed j k

pub hash_all-Grows :
    (root_of : ℕ → Option (List ℕ)) (is : List ℕ) (t : HashLog)
    → Grows t.hashed (hash_all root_of is t).hashed
unfolding hash_all
hash_all-Grows root_of [] t i k = k
hash_all-Grows root_of (j ∷ is) t i k =
    hash_all-Grows root_of is (hash_one (root_of j) j t) i (hash_one-Grows (root_of j) j t i k)

hash_one-opened :
    (o : Option (List ℕ)) (i : ℕ) (t : HashLog) → (hash_one o i t).opened ≡ t.opened ++ (i ∷ [])
hash_one-opened none i t = refl
hash_one-opened (some h) i t = refl

pub hash_all-opened :
    (root_of : ℕ → Option (List ℕ)) (is : List ℕ) (t : HashLog)
    → (hash_all root_of is t).opened ≡ t.opened ++ is
unfolding hash_all
hash_all-opened root_of [] t = sym (append-nil t.opened)
hash_all-opened root_of (j ∷ is) t =
    hash_all-opened root_of is (hash_one (root_of j) j t)
    ∙ ap (λ l. l ++ is) (hash_one-opened (root_of j) j t)
    ∙ append_assoc t.opened (j ∷ []) is
