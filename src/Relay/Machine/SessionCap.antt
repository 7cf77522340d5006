-- ===== src/Relay/Machine/SessionCap.antt =====
-- The cap on the bytes of one transfer (internal/relay/server.go: handle, MaxBytesPerSession).
pub mod Steps
pub mod Handling
pub mod Runs
use fsend.Base.{
  ℕ, ◌+◌, ◌*◌, ◌≤◌, ◌≡◌, Bool, false, ◌&&◌, Option, none, some, List, [], ◌∷◌, if◌then◌else◌, ◌==◌,
}
use fsend.Base.{suc, length, get_or, take, drop}
use fsend.Relay.Framing.{Token, data_version, max_datagram}
use fsend.Base.Bytes.{bytes_eq}
use fsend.Relay.Server.{Allocation, Server, Endpoint}
use fsend.Relay.Reply.{Outside, Sent}
use fsend.Relay.Machine.{Event, datagram, message, allocation, sweeping, draining, apply}

-- Relay data with the token.
abbrev pub is_data : Token → List ℕ → Bool
is_data tok d = (get_or d 0 0 == data_version) && bytes_eq (take 16 (drop 1 d)) tok

abbrev pub data_bytes : Token → List Sent → ℕ
data_bytes tok [] = 0
data_bytes tok ((ep, d) ∷ sent) = (if is_data tok d then length d else 0) + data_bytes tok sent

-- The bytes of a transfer that one datagram makes the relay send.
abbrev pub carried : Token → List ℕ → List Sent → ℕ
carried tok d sent = if is_data tok d then data_bytes tok sent else 0

abbrev pub event_bytes : Event → List ℕ
event_bytes (datagram bytes ip port now) = bytes
event_bytes (message tok link binary bytes now) = bytes
event_bytes _ = []

-- All bytes of a transfer that a sequence of events makes the relay send.
pub carried_in : Outside → Token → Server → List Event → ℕ
carried_in out tok s [] = 0
carried_in out tok s (e ∷ es) =
    let (s', sent) = apply out s e in carried tok (event_bytes e) sent + carried_in out tok s' es

abbrev pub draw_of : Event → Option Token
draw_of (allocation draw now) = draw
draw_of _ = none

abbrev pub is_draw : Token → Option Token → Bool
is_draw tok none = false
is_draw tok (some t) = bytes_eq t tok

-- How often the token is drawn.
abbrev pub draws : Token → List Event → ℕ
draws tok [] = 0
draws tok (e ∷ es) = (if is_draw tok (draw_of e) then 1 else 0) + draws tok es

-- The WebSocket library yields no message beyond the limit that SetReadLimit was told.
abbrev pub IsRead : Event → Type 0
IsRead (message tok link binary bytes now) = length bytes ≤ max_datagram
IsRead _ = Unit

-- What a transfer has sent after `k` draws of its token: `cap` for each draw before that of the
-- live allocation, and no more than that allocation's count of bytes, which is at most `cap`.
abbrev pub Within : ℕ → ℕ → ℕ → Option Allocation → Type 0
Within cap sum k none = sum ≤ cap * k
Within cap sum k (some a) = (j : ℕ) × (k ≡ suc j) × (a.bytes ≤ cap) × (sum ≤ a.bytes + cap * j)
