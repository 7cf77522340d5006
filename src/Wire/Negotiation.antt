-- ===== src/Wire/Negotiation.antt =====
-- What `Negotiate` (internal/wire/wire.go) agrees on.
use fsend.Base.{ℕ, ◌≤◌, ◌≡◌, ◌≢◌, ◌↔◌, ◌∙◌, ap, inl, inr, none, some, Option-cases, arith}
use fsend.Wire.{negotiate, protocol_version, min_protocol_version}

-- A version that the peer's range and this build's share.
pub record IsShared (peer_min peer_max v : ℕ) : Type 0 where
  pub peer_low : peer_min ≤ v
  pub peer_high : v ≤ peer_max
  pub own_low : min_protocol_version ≤ v
  pub own_high : v ≤ protocol_version

negotiate_best :
    (peer_min peer_max v : ℕ)
    → negotiate peer_min peer_max ≡ some v
    → IsShared peer_min peer_max v × ((u : ℕ) → IsShared peer_min peer_max u → u ≤ v)
unfolding negotiate
negotiate_best lo hi v e = (
  record {
    peer_low = ground arith;
    peer_high = ground arith;
    own_low = ground arith;
    own_high = ground arith;
  },
  λ u s. ground arith,
)

negotiate_complete :
    (peer_min peer_max u : ℕ)
    → peer_min ≢ 0
    → IsShared peer_min peer_max u
    → negotiate peer_min peer_max ≢ none
unfolding negotiate
negotiate_complete lo hi u nz s = ground arith

negotiate-named : (l h x : ℕ) → negotiate l h ≡ some x → l ≢ 0
unfolding negotiate
negotiate-named l h x e = λ z. ground arith

-- Negotiate agrees on a version exactly if the peer names a lowest version other than 0 and this one
-- lies in both ranges and no version in both ranges is higher.
pub negotiate_iff :
    (peer_min peer_max v : ℕ)
    → (negotiate peer_min peer_max ≡ some v) ↔ (
        (peer_min ≢ 0)
        × IsShared peer_min peer_max v
        × ((u : ℕ) → IsShared peer_min peer_max u → u ≤ v))
negotiate_iff lo hi v = (
  λ e. let (shared, best) = negotiate_best lo hi v e in (negotiate-named lo hi v e, shared, best),
  λ (nz, shared, best). elim (Option-cases (negotiate lo hi)) [
    | inl e ↦ absurd (negotiate_complete lo hi v nz shared e)
    | inr (w, e) ↦
        let (own, highest) = negotiate_best lo hi w e in
        let same : w ≡ v = omega (arith, best w own, highest v shared) in e ∙ ap some same
  ],
)
