-- ===== src/Relay/Handle.antt =====
-- The relay's hot path (internal/relay/server.go: readLoop, handle, handleControl; ws.go: the loop
-- of ServeWS). One datagram is handled at a time; every reading of the clock in it is `now`.
pub mod Reaction
pub mod Learning
use fsend.Base.{ℕ, ◌+◌, ◌%◌, ◌^◌, max, Bool, true, false, ◌&&◌, ◌||◌, not, Option, none, some}
use fsend.Base.{List, [], ◌∷◌, if◌then◌else◌, ltb, leb, ◌==◌, length, take, drop, replicate}
use fsend.Relay.Framing.{Token, PeerId, parse, Datagram, parse_control, ControlFrame}
use fsend.Base.Bytes.{bytes_eq}
use fsend.Relay.Framing.{frame_control, max_datagram, header_size, token_size, control_size}
use fsend.Relay.Framing.{
  data_version, control_version, peer_id_size, msg_hello, msg_register, msg_registered,
}
use fsend.Relay.Budget.{DayBudget, charge}
use fsend.Relay.Server.{
  Endpoint, udp, ws, is_endpoint, Peer, Allocation, Server, put, register, evict,
}
use fsend.Relay.Server.{Reason, cap_hit, budget_hit}
use fsend.Relay.Reply.{Outside, Sent, challenge, cookie_valid, handle_stun, nudge_due}

-- Where a datagram from a source goes: nowhere, or to the other side, which may be missing.
pub data Direction : Type 0 where
  unknown : Direction
  toward : Option Peer → Direction

abbrev pub sits_at : Option Peer → Endpoint → Bool
sits_at none src = false
sits_at (some p) src = is_endpoint p.ep src

unfoldable pub direction : Allocation → Endpoint → Direction
direction a src =
    if sits_at a.first src
    then toward a.second
    else if sits_at a.second src
    then toward a.first
    else unknown

-- The forwarding of a datagram whose way is known: the two caps, and the counters.
unfoldable pub carry : Server → List ℕ → Token → Allocation → Peer → ℕ → Server × List Sent
carry s datagram tok a dst now =
    let sum = (a.bytes + length datagram) % 2 ^ 64 in
    let s1 : Server = record s {
      allocs = put tok (some (record a { last_activity = now; bytes = sum })) s.allocs;
    } in
    if ltb 0 s.max_bytes_per_session && ltb s.max_bytes_per_session sum
    then (evict (record s1 { transfers_capped = s.transfers_capped + 1 }) tok cap_hit now, [])
    else (let (budget, over) = charge s.budget now (length datagram) in
        if over then (evict (record s1 { budget = budget }) tok budget_hit now, []) else (
          record s1 {
            allocs =
                put tok (some (record a { last_activity = now; bytes = sum; data_counted = true }))
                  s.allocs;
            budget = budget;
            bytes_forwarded = (s.bytes_forwarded + length datagram) % 2 ^ 64;
            transfers_total = if a.data_counted then s.transfers_total else s.transfers_total + 1;
            peak_transfer_bytes = max s.peak_transfer_bytes sum;
          },
          (dst.ep, datagram) ∷ [],
        ))

-- The challenge of an unknown source that uses a live token.
unfoldable pub nudge :
    Outside → Server → List ℕ → Token → Allocation → Endpoint → ℕ → Server × List Sent
nudge out s datagram tok a (ws link) now = (s, [])
nudge out s datagram tok a (udp ip port) now =
    if leb control_size (length datagram) && nudge_due a now
    then challenge out
        (record s { allocs = put tok (some (record a { last_nudge = now })) s.allocs }) tok
        (replicate peer_id_size 0) ip port now
    else (s, [])

unfoldable pub directed :
    Outside → Server → List ℕ → Token → Allocation → Endpoint → ℕ → Direction → Server × List Sent
directed out s datagram tok a src now unknown = nudge out s datagram tok a src now
directed out s datagram tok a src now (toward none) =
    (record s { allocs = put tok (some (record a { last_activity = now })) s.allocs }, [])
directed out s datagram tok a src now (toward (some dst)) = carry s datagram tok a dst now

unfoldable pub data_for :
    Outside → Server → List ℕ → Token → Option Allocation → Endpoint → ℕ → Server × List Sent
data_for out s datagram tok none src now = (s, [])
data_for out s datagram tok (some a) src now =
    directed out s datagram tok a src now (direction a src)

unfoldable pub handle_data :
    Outside → Server → List ℕ → Option Datagram → Endpoint → ℕ → Server × List Sent
handle_data out s datagram none src now = (s, [])
handle_data out s datagram (some p) src now =
    data_for out s datagram p.token (s.allocs p.token) src now

unfoldable pub registered :
    Server → ControlFrame → Endpoint → ℕ → Option Allocation → Server × List Sent
registered s f src now none = (s, [])
registered s f src now (some a) = (
  record s { allocs = put f.token (some (record a { last_activity = now })) s.allocs },
  (src, frame_control f.token msg_registered f.id none) ∷ [],
)

-- The switch of handleControl.
unfoldable pub control_from :
    Outside → Server → ControlFrame → Allocation → Endpoint → ℕ → Server × List Sent
control_from out s f a (udp ip port) now =
    if f.typ == msg_hello
    then challenge out s f.token f.id ip port now
    else if (f.typ == msg_register) && cookie_valid out f.cookie f.token ip port now
    then registered s f (udp ip port) now (register a f.id (udp ip port))
    else (s, [])
control_from out s f a (ws link) now =
    if (f.typ == msg_hello) || (f.typ == msg_register)
    then registered s f (ws link) now (register a f.id (ws link))
    else (s, [])

unfoldable pub control_for :
    Outside → Server → ControlFrame → Option Allocation → Endpoint → ℕ → Server × List Sent
control_for out s f none src now = (s, [])
control_for out s f (some a) src now = control_from out s f a src now

unfoldable pub handle_control :
    Outside → Server → Option ControlFrame → Endpoint → ℕ → Server × List Sent
handle_control out s none src now = (s, [])
handle_control out s (some f) src now = control_for out s f (s.allocs f.token) src now

unfoldable pub handle_other : Outside → Server → List ℕ → Endpoint → ℕ → Server × List Sent
handle_other out s datagram (udp ip port) now = handle_stun out s datagram ip port now
handle_other out s datagram (ws link) now = (s, [])

unfoldable pub handle : Outside → Server → List ℕ → Endpoint → ℕ → Server × List Sent
handle out s [] src now = (s, [])
handle out s (v ∷ vs) src now =
    if v == data_version
    then (if s.disable_forwarding
        then (s, [])
        else handle_data out s (v ∷ vs) (parse (v ∷ vs)) src now)
    else if v == control_version
    then (if s.disable_forwarding
        then (s, [])
        else handle_control out s (parse_control (v ∷ vs)) src now)
    else handle_other out s (v ∷ vs) src now

-- The body of readLoop for a datagram that was read.
unfoldable pub receive : Outside → Server → List ℕ → List ℕ → ℕ → ℕ → Server × List Sent
receive out s datagram ip port now =
    if ltb max_datagram (length datagram)
    then (record s { oversize = s.oversize + 1 }, [])
    else handle out s datagram (udp ip port) now

abbrev is_live : Option Allocation → Bool
is_live none = false
is_live (some a) = true

-- The body of ServeWS's loop for a message that was read on a link of the token; `none` ends the
-- link.
unfoldable pub receive_ws :
    Outside → Server → Token → ℕ → Bool → List ℕ → ℕ → Option (Server × List Sent)
receive_ws out s tok link binary msg now =
    if not binary
      || (ltb (length msg) header_size || not (bytes_eq (take token_size (drop 1 msg)) tok))
    then some (s, [])
    else if is_live (s.allocs tok)
    then some (handle out s msg (ws link) now)
    else none
