-- ===== src/Relay/Reply/CookieMessage.antt =====
-- What a registration cookie authenticates (internal/relay/server.go: cookie).
use fsend.Base.{append_inj, ℕ, ◌/◌, ◌%◌, ◌^◌, ◌<◌, ◌≡◌, refl, ap, arith, List, length, get_or}
use fsend.Base.Bytes.{put_u16, put_u32}
use fsend.Relay.Reply.{cookie_message, put_u64}

put_u16_inj : (m n : ℕ) → m < 2 ^ 16 → n < 2 ^ 16 → put_u16 m ≡ put_u16 n → m ≡ n
put_u16_inj m n h k e =
    let at = λ (i : ℕ). ap (λ l. get_or l i 0) e in
    let b0 : m / 2 ^ 8 % 256 ≡ n / 2 ^ 8 % 256 = at 0 in
    let b1 : m % 256 ≡ n % 256 = at 1 in omega arith

put_u32_inj : (m n : ℕ) → m < 2 ^ 32 → n < 2 ^ 32 → put_u32 m ≡ put_u32 n → m ≡ n
put_u32_inj m n h k e =
    let at = λ (i : ℕ). ap (λ l. get_or l i 0) e in
    let b0 : m / 2 ^ 24 % 256 ≡ n / 2 ^ 24 % 256 = at 0 in
    let b1 : m / 2 ^ 16 % 256 ≡ n / 2 ^ 16 % 256 = at 1 in
    let b2 : m / 2 ^ 8 % 256 ≡ n / 2 ^ 8 % 256 = at 2 in
    let b3 : m % 256 ≡ n % 256 = at 3 in omega arith

put_u64_inj : (m n : ℕ) → m < 2 ^ 64 → n < 2 ^ 64 → put_u64 m ≡ put_u64 n → m ≡ n
put_u64_inj m n h k e =
    let (high, low) =
      append_inj (put_u32 (m / 2 ^ 32)) (put_u32 (n / 2 ^ 32)) (put_u32 (m % 2 ^ 32))
        (put_u32 (n % 2 ^ 32)) refl e in
    let hi = put_u32_inj (m / 2 ^ 32) (n / 2 ^ 32) (omega arith) (omega arith) high in
    let lo = put_u32_inj (m % 2 ^ 32) (n % 2 ^ 32) (omega arith) (omega arith) low in omega arith

-- The token, the address and the epoch of a cookie are all authenticated: what is given to HMAC
-- for one of them is never what is given for another.
pub cookie_message_inj :
    (tok tok' ip ip' : List ℕ) (port port' epoch epoch' : ℕ)
    → length tok ≡ length tok'
    → length ip ≡ length ip'
    → port < 2 ^ 16
    → port' < 2 ^ 16
    → epoch < 2 ^ 64
    → epoch' < 2 ^ 64
    → cookie_message tok ip port epoch ≡ cookie_message tok' ip' port' epoch'
    → (tok ≡ tok') × (ip ≡ ip') × (port ≡ port') × (epoch ≡ epoch')
unfolding cookie_message
cookie_message_inj tok tok' ip ip' port port' epoch epoch' t i p p' q q' e =
    let (e1, r1) = append_inj (put_u64 epoch) (put_u64 epoch') _ _ refl e in
    let (e2, r2) = append_inj tok tok' _ _ t r1 in
    let (e3, r3) = append_inj ip ip' _ _ i r2 in
    (e2, e3, put_u16_inj port port' p p' r3, put_u64_inj epoch epoch' q q' e1)
