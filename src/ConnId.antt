-- ===== src/ConnId.antt =====
-- The QUIC connection IDs that no STUN check mistakes (internal/quicconn/connid.go).
pub mod Tests
use fsend.Base.{
  ℕ, ◌+◌, ◌≡◌, ◌≢◌, ◌∙◌, subst, refl, arith, Bool, true, false, ◌&&◌, Bool-cases, inl, inr, Option,
  none, some, ◌<◌, zero, suc,
}
use fsend.Base.{List, [], ◌∷◌, ◌++◌, map, if◌then◌else◌, leb, ◌==◌, length, get_or, All}
use fsend.Base.Bytes.{get_u32}

abbrev pub stun_magic_cookie : ℕ
stun_magic_cookie = 554869826

abbrev pub conn_id_len : ℕ
conn_id_len = 8

unfoldable pub places_magic_cookie : List ℕ → Bool
places_magic_cookie id = leb 7 (length id) && (get_u32 id 3 == stun_magic_cookie)

-- How far GenerateConnectionID came with the readings that it was given.
pub data Progress : Type 0 where
  connection_id : List ℕ → Progress
  read_error : Progress
  drawing : Progress

-- GenerateConnectionID, on what its calls of rand.Read yield in turn: the array, or an error.
unfoldable pub generate_connection_id : List (Option (List ℕ)) → Progress
generate_connection_id [] = drawing
generate_connection_id (none ∷ rs) = read_error
generate_connection_id (some b ∷ rs) =
    let again = generate_connection_id rs in
    if places_magic_cookie b then again else connection_id b

-- A reading fills the array.
abbrev pub IsFull : Option (List ℕ) → Type 0
IsFull none = Unit
IsFull (some b) = length b ≡ conn_id_len

-- A connection ID fills the array and does not place the cookie.
IsSafe : List ℕ → Type 0
IsSafe id = (length id ≡ conn_id_len) × (places_magic_cookie id ≡ false)

connection_id_inj : (a b : List ℕ) → connection_id a ≡ connection_id b → a ≡ b
connection_id_inj a b e = cc

generated-IsSafe :
    (rs : List (Option (List ℕ))) (id : List ℕ)
    → All IsFull rs
    → generate_connection_id rs ≡ connection_id id
    → IsSafe id
unfolding generate_connection_id IsSafe
generated-IsSafe [] id h e = absurd cc
generated-IsSafe (none ∷ rs) id h e = absurd cc
generated-IsSafe (some b ∷ rs) id (h, hs) e = elim (Bool-cases (places_magic_cookie b)) [
  | inl p ↦ generated-IsSafe rs id hs (rw p refl ∙ e)
  | inr p ↦ subst IsSafe (connection_id_inj b id (rw p refl ∙ e)) (h, p)
]

get_or-append : (xs ys : List ℕ) (i : ℕ) → i < length xs → get_or (xs ++ ys) i 0 ≡ get_or xs i 0
get_or-append [] ys i h = absurd (omega arith)
get_or-append (x ∷ xs) ys zero h = refl
get_or-append (x ∷ xs) ys (suc i) h = get_or-append xs ys i (omega arith)

safe_packet :
    (id rest : List ℕ) (flags : ℕ) → IsSafe id → get_u32 (flags ∷ id ++ rest) 4 ≢ stun_magic_cookie
unfolding places_magic_cookie IsSafe
safe_packet id rest flags (full, ok) e =
    let b3 = get_or-append id rest 3 (omega (arith, full)) in
    let b4 = get_or-append id rest 4 (omega (arith, full)) in
    let b5 = get_or-append id rest 5 (omega (arith, full)) in
    let b6 = get_or-append id rest 6 (omega (arith, full)) in ground arith

-- Whatever rand.Read yields, in arrays of eight bytes: a packet whose flags byte is followed by a
-- generated connection ID does not pass a STUN test that accepts only messages with the magic
-- cookie at offset 4.
pub generate_connection_id-packet :
    (is_message : List ℕ → Bool)
    → ((m : List ℕ) → is_message m ≡ true → get_u32 m 4 ≡ stun_magic_cookie)
    → (readings : List (Option (List ℕ))) (id rest : List ℕ) (flags : ℕ) → All IsFull readings
    → generate_connection_id readings ≡ connection_id id
    → is_message (flags ∷ id ++ rest) ≡ false
generate_connection_id-packet is_message needs rs id rest flags full e =
    elim (Bool-cases (is_message (flags ∷ id ++ rest))) [
      | inl p ↦
          absurd (
            safe_packet id rest flags (generated-IsSafe rs id full e)
              (needs (flags ∷ id ++ rest) p))
      | inr p ↦ p
    ]
