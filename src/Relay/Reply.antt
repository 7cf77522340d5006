-- ===== src/Relay/Reply.antt =====
-- The replies to sources that are not verified (internal/relay/server.go): the cap on them, the
-- cookie of the registration handshake, and STUN.
pub mod Untouched
pub mod Cap
pub mod CookieMessage
use fsend.Base.{ℕ, ◌+◌, ◌-◌, ◌/◌, ◌%◌, ◌^◌, Bool, true, false, ◌&&◌, ◌||◌, not, Option, none, some}
use fsend.Base.{List, [], ◌∷◌, ◌++◌, if◌then◌else◌, leb, ◌==◌, length, take, drop, replicate}
use fsend.Base.Bytes.{put_u16, put_u32}
use fsend.Relay.Framing.{Token, PeerId, cookie_size, frame_control, msg_challenge}
use fsend.Base.Bytes.{bytes_eq}
use fsend.Relay.Server.{Endpoint, udp, Server, Allocation}

-- What the relay takes from elsewhere: HMAC-SHA256 under the server's key, the seeded hash of a
-- prefix modulo stunPrefixSlots, and the STUN library: whether it takes a datagram for a message,
-- and the answer to it for an IP and port, if it is a binding request.
pub record Outside : Type 0 where
  pub mac : List ℕ → List ℕ
  pub prefix_slot : List ℕ → ℕ
  pub is_stun : List ℕ → Bool
  pub stun_answer : List ℕ → List ℕ → ℕ → Option (List ℕ)

-- A datagram that leaves the relay.
abbrev pub Sent : Type 0
Sent = Endpoint × List ℕ

-- time.Second
abbrev pub second : ℕ
second = 1000000000

abbrev pub stun_responses_per_sec : ℕ
stun_responses_per_sec = 4000

abbrev pub stun_per_prefix_per_sec : ℕ
stun_per_prefix_per_sec = 100

-- stunPrefix of an IP in the form of 16 bytes: `To4` reads an IPv4 address off its prefix.
unfoldable pub stun_prefix : List ℕ → List ℕ
stun_prefix ip =
    if bytes_eq (take 12 ip) (replicate 10 0 ++ (255 ∷ 255 ∷ []))
    then take 3 (drop 12 ip)
    else if length ip == 16
    then take 6 ip
    else ip

unfoldable pub bump : (ℕ → ℕ) → ℕ → ℕ → ℕ
bump per_slot slot k = if slot == k then (per_slot k + 1) % 2 ^ 16 else per_slot k

-- The start of a new window, if one is due.
unfoldable pub open_window : Server → ℕ → Server
open_window s now =
    if leb (s.stun_window + second) now
    then (record s { stun_window = now; stun_count = 0; stun_per_slot = λ k. 0 })
    else s

-- allowReply
unfoldable pub allow_reply : Outside → Server → ℕ → List ℕ → Server × Bool
allow_reply out s now ip =
    let w = open_window s now in
    let slot = out.prefix_slot (stun_prefix ip) in
    if leb stun_responses_per_sec w.stun_count || leb stun_per_prefix_per_sec (w.stun_per_slot slot)
    then (w, false)
    else (
      record w { stun_count = w.stun_count + 1; stun_per_slot = bump w.stun_per_slot slot },
      true,
    )

-- cookieLifetime
abbrev pub cookie_lifetime : ℕ
cookie_lifetime = 30000000000

abbrev pub cookie_epoch : ℕ → ℕ
cookie_epoch now = now / cookie_lifetime

-- binary.BigEndian.PutUint64
abbrev pub put_u64 : ℕ → List ℕ
put_u64 n = put_u32 (n / 2 ^ 32) ++ put_u32 (n % 2 ^ 32)

-- What the cookie authenticates.
unfoldable pub cookie_message : Token → List ℕ → ℕ → ℕ → List ℕ
cookie_message tok ip port epoch = put_u64 epoch ++ (tok ++ (ip ++ put_u16 port))

unfoldable pub cookie : Outside → Token → List ℕ → ℕ → ℕ → List ℕ
cookie out tok ip port epoch = take cookie_size (out.mac (cookie_message tok ip port epoch))

-- cookieValid: the epoch and the one before it, on uint64.
unfoldable pub cookie_valid : Outside → List ℕ → Token → List ℕ → ℕ → ℕ → Bool
cookie_valid out c tok ip port now =
    let e = cookie_epoch now in
    bytes_eq c (cookie out tok ip port e)
    || bytes_eq c (cookie out tok ip port ((e + (2 ^ 64 - 1)) % 2 ^ 64))

unfoldable pub challenge : Outside → Server → Token → PeerId → List ℕ → ℕ → ℕ → Server × List Sent
challenge out s tok id ip port now =
    let (s', pass) = allow_reply out s now ip in
    if pass
    then (
      s',
      (
        udp ip port,
        frame_control tok msg_challenge id (some (cookie out tok ip port (cookie_epoch now))),
      )
          ∷ [],
    )
    else (s', [])

abbrev pub answer_stun : Option (List ℕ) → List ℕ → ℕ → List Sent
answer_stun none ip port = []
answer_stun (some raw) ip port = (udp ip port, raw) ∷ []

-- handleSTUN
unfoldable pub handle_stun : Outside → Server → List ℕ → List ℕ → ℕ → ℕ → Server × List Sent
handle_stun out s datagram ip port now =
    if not (out.is_stun datagram)
    then (s, [])
    else (let (s', pass) = allow_reply out s now ip in
        if pass then (s', answer_stun (out.stun_answer datagram ip port) ip port) else (s', []))

-- nudgeInterval
abbrev pub nudge_interval : ℕ
nudge_interval = 100000000

-- nudgeDue, without the store of the new time.
unfoldable pub nudge_due : Allocation → ℕ → Bool
nudge_due a now = leb (a.last_nudge + nudge_interval) now
