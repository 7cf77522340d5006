-- ===== src/Relay/Machine.antt =====
-- The relay as a machine (internal/relay/server.go, ws.go): datagrams, messages of WebSocket links,
-- allocations, sweeps of the janitor and the drain, one after another in any order.
pub mod SessionCap
use fsend.Base.{ℕ, ◌+◌, Bool, true, false, Option, none, some, List, [], ◌∷◌}
use fsend.Relay.Framing.{Token}
use fsend.Relay.Budget.{DayBudget}
use fsend.Relay.Server.{Server, allocate, sweep, drain}
use fsend.Relay.Reply.{Outside, Sent}
use fsend.Relay.Handle.{receive, receive_ws}

pub data Event : Type 0 where
  datagram : (bytes ip : List ℕ) (port now : ℕ) → Event
  message : (tok : Token) (link : ℕ) (binary : Bool) (bytes : List ℕ) (now : ℕ) → Event
  allocation : (draw : Option Token) (now : ℕ) → Event
  sweeping : (now : ℕ) → Event
  draining : Event

-- A link that ends changes nothing in the server.
abbrev pub or_ended : Server → Option (Server × List Sent) → Server × List Sent
or_ended s none = (s, [])
or_ended s (some r) = r

unfoldable pub apply : Outside → Server → Event → Server × List Sent
apply out s (datagram bytes ip port now) = receive out s bytes ip port now
apply out s (message tok link binary bytes now) =
    or_ended s (receive_ws out s tok link binary bytes now)
apply out s (allocation draw now) = ((allocate s draw now).0, [])
apply out s (sweeping now) = (sweep s now, [])
apply out s draining = (drain s, [])

-- NewServer
unfoldable pub new_server : ℕ → ℕ → Bool → Server
new_server max_bytes_per_session max_bytes_per_day disable_forwarding = record {
  max_bytes_per_session = max_bytes_per_session;
  disable_forwarding = disable_forwarding;
  draining = false;
  allocs = λ t. none;
  tombstone = λ t. none;
  stun_window = 0;
  stun_count = 0;
  stun_per_slot = λ k. 0;
  budget = record { limit = max_bytes_per_day; day = 0; used = 0 };
  bytes_forwarded = 0;
  peak_transfer_bytes = 0;
  transfers_capped = 0;
  transfers_total = 0;
  oversize = 0;
}
