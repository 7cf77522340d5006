-- ===== src/ConnId/Tests.antt =====
-- Connection IDs at concrete readings (internal/quicconn/connid.go).
use fsend.Base.{ℕ, ◌≡◌, refl, arith, Bool, true, false, ◌&&◌, leb, ◌==◌, some}
use fsend.Base.{List, [], ◌∷◌, ◌++◌, length}
use fsend.Base.Bytes.{get_u32}
use fsend.ConnId.{
  generate_connection_id, connection_id, places_magic_cookie, stun_magic_cookie,
  generate_connection_id-packet,
}

-- stun.IsMessage
abbrev is_message : List ℕ → Bool
is_message m = leb 20 (length m) && (get_u32 m 4 == stun_magic_cookie)

needs_cookie : (m : List ℕ) → is_message m ≡ true → get_u32 m 4 ≡ stun_magic_cookie
needs_cookie m e = ground arith

abbrev colliding : List ℕ
colliding = 0 ∷ 0 ∷ 0 ∷ 33 ∷ 18 ∷ 164 ∷ 66 ∷ 0 ∷ []

abbrev safe : List ℕ
safe = 1 ∷ 2 ∷ 3 ∷ 4 ∷ 5 ∷ 6 ∷ 7 ∷ 8 ∷ []

abbrev body : List ℕ
body = 1 ∷ 2 ∷ 3 ∷ 4 ∷ 5 ∷ 6 ∷ 7 ∷ 8 ∷ 9 ∷ 10 ∷ 11 ∷ []

generated : generate_connection_id (some colliding ∷ some safe ∷ []) ≡ connection_id safe
unfolding generate_connection_id places_magic_cookie
generated = refl

mistaken : is_message (64 ∷ colliding ++ body) ≡ true
mistaken = refl

generate_connection_id-packet_example : is_message (64 ∷ safe ++ body) ≡ false
generate_connection_id-packet_example =
    generate_connection_id-packet is_message needs_cookie (some colliding ∷ some safe ∷ []) safe
      body 64 (refl, (refl, tt)) generated
