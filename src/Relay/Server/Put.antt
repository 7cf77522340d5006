-- ===== src/Relay/Server/Put.antt =====
-- The maps of the relay (internal/relay/server.go: allocs, tombstone).
use fsend.Base.{true, false, ◌≡◌, ◌⊎◌, inl, inr, refl, arith, Option, some}
use fsend.Base.{Bool-cases}
use fsend.Relay.Framing.{Token}
use fsend.Base.Bytes.{bytes_eq}
use fsend.Base.Bytes.{bytes_eq_iff}
use fsend.Relay.Server.{put}

module _ {ℓ} {V : Type ℓ} where
  pub put-eq-some :
      (t k : Token) (o : Option V) (m : Token → Option V) {v : V}
      → put t o m k ≡ some v
      → ((t ≡ k) × (o ≡ some v)) ⊎ (m k ≡ some v)
  unfolding put
  put-eq-some t k o m e = elim (Bool-cases (bytes_eq t k)) [
    | inl h ↦ inl ((bytes_eq_iff t k).0 h, ground (arith, h))
    | inr h ↦ inr (ground (arith, h))
  ]

  pub put_hit :
      (t k : Token) (o : Option V) (m : Token → Option V) → bytes_eq t k ≡ true → put t o m k ≡ o
  unfolding put
  put_hit t k o m h = rw h refl

  pub put_miss :
      (t k : Token) (o : Option V) (m : Token → Option V) → bytes_eq t k ≡ false → put t o m k ≡ m k
  unfolding put
  put_miss t k o m h = rw h refl
