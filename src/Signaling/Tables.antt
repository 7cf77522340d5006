-- ===== src/Signaling/Tables.antt =====
-- The session table as a map: laws of find, store and drop_id, and the keys that sessions hold.
use fsend.Base.{subst, ℕ, ◌+◌, ◌≡◌, refl, arith}
use fsend.Base.{false, none, some, List, [], ◌∷◌, if◌then◌else◌, All}
use fsend.Base.{Bool-cases, inl, inr}
use fsend.Base.Maps.{String, same, same_iff, same_refl, same_sym}
use fsend.Signaling.Session.{Session, find, store, drop_id}

-- No two sessions have one ID.
abbrev pub Distinct : List Session → Type 0
Distinct [] = Unit
Distinct (t ∷ ts) = (find t.id ts ≡ none) × Distinct ts

pub find-id : (id : String) (ss : List Session) {t : Session} → find id ss ≡ some t → t.id ≡ id
unfolding find
find-id id [] h = cc
find-id id (s ∷ ss) {t} h = ground (arith, same_iff id s.id, find-id id ss {t = t})

pub find-drop_id_ne :
    (id j : String) (ss : List Session) → same id j ≡ false → find j (drop_id id ss) ≡ find j ss
unfolding find drop_id
find-drop_id_ne id j [] h = refl
find-drop_id_ne id j (s ∷ ss) h =
    ground (arith, same_iff id s.id, same_iff j s.id, same_iff id j, find-drop_id_ne id j ss h)

pub find-drop_id_self :
    (id : String) (ss : List Session) → Distinct ss → find id (drop_id id ss) ≡ none
unfolding find drop_id
find-drop_id_self id [] d = refl
find-drop_id_self id (s ∷ ss) d = ground (arith, same_iff id s.id, find-drop_id_self id ss d.1)

pub find-drop_id-none :
    (id j : String) (ss : List Session) → find j ss ≡ none → find j (drop_id id ss) ≡ none
unfolding find drop_id
find-drop_id-none id j [] h = refl
find-drop_id-none id j (s ∷ ss) h = ground (arith, find-drop_id-none id j ss)

pub drop_id-Distinct : (id : String) (ss : List Session) → Distinct ss → Distinct (drop_id id ss)
unfolding drop_id
drop_id-Distinct id [] d = tt
drop_id-Distinct id (s ∷ ss) d = elim (Bool-cases (same id s.id)) [
  | inl e ↦ rw e d.1
  | inr e ↦ rw e (find-drop_id-none id s.id ss d.0, drop_id-Distinct id ss d.1)
]

pub find-store :
    (t : Session) (j : String) (ss : List Session) {u : Session}
    → find t.id ss ≡ some u
    → find j (store t ss) ≡ (if same t.id j then some t else find j ss)
unfolding find store
find-store t j [] h = cc
find-store t j (s ∷ ss) {u} h = ground (
  arith,
  same_iff t.id s.id,
  same_iff j s.id,
  same_iff j t.id,
  same_iff t.id j,
  find-store t j ss {u = u},
)

find-store-none :
    (t : Session) (j : String) (ss : List Session) → find j ss ≡ none → find j (store t ss) ≡ none
unfolding find store
find-store-none t j [] h = refl
find-store-none t j (s ∷ ss) h =
    ground (arith, same_iff t.id s.id, same_iff j s.id, same_iff j t.id, find-store-none t j ss)

pub store-Distinct : (t : Session) (ss : List Session) → Distinct ss → Distinct (store t ss)
unfolding store
store-Distinct t [] d = tt
store-Distinct t (s ∷ ss) d = elim (Bool-cases (same t.id s.id)) [
  | inl e ↦ rw e (rw ((same_iff t.id s.id).0 e) d.0, d.1)
  | inr e ↦ rw e (find-store-none t s.id ss d.0, store-Distinct t ss d.1)
]

pub drop_id_fresh : (id : String) (ss : List Session) → find id ss ≡ none → drop_id id ss ≡ ss
unfolding find drop_id
drop_id_fresh id [] h = refl
drop_id_fresh id (s ∷ ss) h = ground (arith, drop_id_fresh id ss)

-- A predicate of every session.
module _ {κ} (P : Session → Type κ) where
  pub All-find :
      (id : String) (ss : List Session) {t : Session} → All P ss → find id ss ≡ some t → P t
  unfolding find
  All-find id [] a h = cc
  All-find id (s ∷ ss) {t} a h = elim (Bool-cases (same id s.id)) [
    | inl e ↦ subst P {x = s} (cc) a.0
    | inr e ↦ All-find id ss a.1 (rw e at h)
  ]

  pub All-drop_id : (id : String) (ss : List Session) → All P ss → All P (drop_id id ss)
  unfolding drop_id
  All-drop_id id [] a = a
  All-drop_id id (s ∷ ss) a = elim (Bool-cases (same id s.id)) [
    | inl e ↦ rw e a.1
    | inr e ↦ rw e (a.0, All-drop_id id ss a.1)
  ]

  pub All-store : (t : Session) (ss : List Session) → All P ss → P t → All P (store t ss)
  unfolding store
  All-store t [] a p = a
  All-store t (s ∷ ss) a p = elim (Bool-cases (same t.id s.id)) [
    | inl e ↦ rw e (p, a.1)
    | inr e ↦ rw e (a.0, All-store t ss a.1 p)
  ]

-- How often a session counts against an address key, once for each side, and all of them.
abbrev pub one : String → String → ℕ
one k key = if same k key then 1 else 0

abbrev pub holds : String → Session → ℕ
holds k t = one k t.sender_rate_key + one k t.receiver_rate_key

unfoldable pub held : String → List Session → ℕ
held k [] = 0
held k (t ∷ ts) = holds k t + held k ts

pub held-drop_id :
    (k id : String) (ss : List Session) {t : Session}
    → find id ss ≡ some t
    → held k ss ≡ holds k t + held k (drop_id id ss)
unfolding find drop_id held
held-drop_id k id [] h = cc
held-drop_id k id (s ∷ ss) {t} h = ground (arith, held-drop_id k id ss {t = t})

pub held-store :
    (k : String) (t : Session) (ss : List Session) {u : Session}
    → find t.id ss ≡ some u
    → held k (store t ss) + holds k u ≡ held k ss + holds k t
unfolding find store held
held-store k t [] h = cc
held-store k t (s ∷ ss) {u} h = ground (arith, held-store k t ss {u = u})

-- The IDs that a lookup does not find are those of no session.
pub find-none_ne :
    (id : String) (ss : List Session) → find id ss ≡ none → All (λ t. same id t.id ≡ false) ss
unfolding find
find-none_ne id [] h = tt
find-none_ne id (s ∷ ss) h = elim (Bool-cases (same id s.id)) [
  | inl e ↦ absurd (cc (rw e at h))
  | inr e ↦ (e, find-none_ne id ss (rw e at h))
]

skip_first :
    (t : Session) (us ts : List Session)
    → All (λ u. same t.id u.id ≡ false) us
    → All (λ u. find u.id ts ≡ some u) us
    → All (λ u. find u.id (t ∷ ts) ≡ some u) us
unfolding find
skip_first t [] ts n f = tt
skip_first t (u ∷ us) ts n f = (rw (same_sym u.id t.id, n.0) f.0, skip_first t us ts n.1 f.1)

-- Every session of a table with distinct IDs is found under its own.
pub find_own : (ss : List Session) → Distinct ss → All (λ t. find t.id ss ≡ some t) ss
find_own [] d = tt
find_own (s ∷ ss) d =
    (unfold find in rw same_refl, skip_first s ss ss (find-none_ne s.id ss d.0) (find_own ss d.1))
