-- ===== src/Pairing/Overlap.antt =====
-- The epochs at which a receiver looks for a slot (internal/code/slot.go: EpochsFor).
use fsend.Base.{ℕ, ◌+◌, ◌-◌, ◌/◌, ◌%◌, ◌≤◌, ◌<◌, ◌≡◌, ◌⊎◌, ◌↔◌, inl, inr, arith}
use fsend.Base.{List, [], ◌∷◌, ltb, leb, Bool-cases}
use fsend.Pairing.{day, epoch_grace, epoch, epochs_for}

abbrev pub IsIn : ℕ → List ℕ → Type 0
IsIn e [] = ⊥
IsIn e (x ∷ xs) = (e ≡ x) ⊎ IsIn e xs

-- Two times that are at most the grace apart.
abbrev pub AreClose : ℕ → ℕ → Type 0
AreClose s t = (s ≤ t + epoch_grace) × (t ≤ s + epoch_grace)

day_before :
    (s t : ℕ)
    → s ≤ t + 3600
    → t ≤ s + 3600
    → t % 86400 < 3600
    → (s / 86400 ≡ t / 86400) ⊎ (s / 86400 ≡ t / 86400 - 1)
day_before s t late early h = ground arith

day_after :
    (s t : ℕ)
    → s ≤ t + 3600
    → t ≤ s + 3600
    → 82800 ≤ t % 86400
    → (s / 86400 ≡ t / 86400) ⊎ (s / 86400 ≡ t / 86400 + 1)
day_after s t late early h = ground arith

same_day :
    (s t : ℕ)
    → s ≤ t + 3600
    → t ≤ s + 3600
    → 3600 ≤ t % 86400
    → t % 86400 < 82800
    → s / 86400 ≡ t / 86400
same_day s t late early h k = omega arith

tried : (s t : ℕ) → AreClose s t → IsIn (epoch s) (epochs_for t)
unfolding epoch epochs_for
tried s t (late, early) = elim (Bool-cases (ltb (t % day) epoch_grace)) [
  | inl a ↦ rw a (pair (day_before s t late early (ground arith)))
  | inr a ↦ elim (Bool-cases (leb (day - epoch_grace) (t % day))) [
    | inl b ↦ rw (a, b) (pair (day_after s t late early (ground arith)))
    | inr b ↦ rw (a, b) (inl (same_day s t late early (ground arith) (ground arith)))
  ]
]
  where
    pair : {e x y : ℕ} → (e ≡ x) ⊎ (e ≡ y) → IsIn e (x ∷ y ∷ [])
    pair (inl h) = inl h
    pair (inr h) = inr (inl h)

-- A time in an epoch that is tried.
useful : (e t : ℕ) → day ≤ t → IsIn e (epochs_for t) → (s : ℕ) × AreClose s t × (epoch s ≡ e)
unfolding epoch epochs_for
useful e t h m = elim (Bool-cases (ltb (t % day) epoch_grace)) [
  | inl a ↦ elim (rw a at m) [
    | inl x ↦ (t, (omega arith, omega arith), omega arith)
    | inr (inl x) ↦ (t - t % day - 1, (ground arith, ground arith), ground arith)
    | inr (inr x) ↦ absurd x
  ]
  | inr a ↦ elim (Bool-cases (leb (day - epoch_grace) (t % day))) [
    | inl b ↦ elim (rw (a, b) at m) [
      | inl x ↦ (t, (omega arith, omega arith), omega arith)
      | inr (inl x) ↦ (t + (day - t % day), (ground arith, ground arith), ground arith)
      | inr (inr x) ↦ absurd x
    ]
    | inr b ↦ elim (rw (a, b) at m) [
      | inl x ↦ (t, (omega arith, omega arith), omega arith)
      | inr x ↦ absurd x
    ]
  ]
]

-- From the second day of 1970 on, a receiver tries exactly the epochs of the times that are at most
-- an hour before or behind its own: so it meets every sender whose code is an hour old or whose clock
-- is an hour off, and tries no other epoch.
pub epochs_for_iff :
    (e t : ℕ) → day ≤ t → IsIn e (epochs_for t) ↔ ((s : ℕ) × AreClose s t × (epoch s ≡ e))
epochs_for_iff e t h = (useful e t h, λ (s, close, same). rw (← same) (tried s t close))
