-- ===== src/Relay/Server.antt =====
-- The relay's state and its slow path (internal/relay/server.go): registration, allocation,
-- eviction, the janitor's sweep and the status of a token.
pub mod Put
pub mod Registration
use fsend.Base.{ℕ, ◌+◌, Bool, true, false, ◌&&◌, Option, none, some}
use fsend.Base.{List, if◌then◌else◌, ltb, ◌==◌}
use fsend.Relay.Framing.{Token, PeerId}
use fsend.Base.Bytes.{bytes_eq}
use fsend.Relay.Budget.{DayBudget, exhausted}

-- endpoint: a UDP address, its IP in the form of 16 bytes, or a WebSocket link.
pub data Endpoint : Type 0 where
  udp : (ip : List ℕ) (port : ℕ) → Endpoint
  ws : (link : ℕ) → Endpoint

-- `e.is(o)`, with udpEqual.
unfoldable pub is_endpoint : Endpoint → Endpoint → Bool
is_endpoint (udp ip port) (udp ip' port') = (port == port') && bytes_eq ip ip'
is_endpoint (udp ip port) (ws link) = false
is_endpoint (ws link) (udp ip port) = false
is_endpoint (ws link) (ws link') = link == link'

pub record Peer : Type 0 where
  pub id : PeerId
  pub ep : Endpoint

-- allocation; `first` and `second` are its two peers, and times are nanoseconds.
pub record Allocation : Type 0 where
  pub first : Option Peer
  pub second : Option Peer
  pub bytes : ℕ
  pub last_activity : ℕ
  pub last_nudge : ℕ
  pub data_counted : Bool

-- ReasonCapHit, ReasonBudgetHit and ReasonIdle.
pub data Reason : Type 0 where
  cap_hit budget_hit idle : Reason

-- tombstoneEntry
pub record Tombstone : Type 0 where
  pub reason : Reason
  pub expires_at : ℕ

-- Server with its configuration. The two maps are functions of the token.
pub record Server : Type 0 where
  pub max_bytes_per_session : ℕ
  pub disable_forwarding : Bool
  pub draining : Bool
  pub allocs : Token → Option Allocation
  pub tombstone : Token → Option Tombstone
  pub stun_window : ℕ
  pub stun_count : ℕ
  pub stun_per_slot : ℕ → ℕ
  pub budget : DayBudget
  pub bytes_forwarded : ℕ
  pub peak_transfer_bytes : ℕ
  pub transfers_capped : ℕ
  pub transfers_total : ℕ
  pub oversize : ℕ

-- `m[t] = v`, or `delete(m, t)` for `none`.
unfoldable pub put {ℓ} : {V : Type ℓ} → Token → Option V → (Token → Option V) → Token → Option V
put t v m k = if bytes_eq t k then v else m k

abbrev pub has_id : Option Peer → PeerId → Bool
has_id none id = false
has_id (some p) id = bytes_eq p.id id

abbrev pub is_free : Option Peer → Bool
is_free none = true
is_free (some p) = false

-- register: `none` if both slots belong to other peers.
unfoldable pub register : Allocation → PeerId → Endpoint → Option Allocation
register a id ep =
    let np : Option Peer = some (record { id = id; ep = ep }) in
    if has_id a.first id
    then some (record a { first = np })
    else if has_id a.second id
    then some (record a { second = np })
    else if is_free a.first
    then some (record a { first = np })
    else if is_free a.second
    then some (record a { second = np })
    else none

-- TombstoneTTL
abbrev pub tombstone_ttl : ℕ
tombstone_ttl = 300000000000

unfoldable pub evict : Server → Token → Reason → ℕ → Server
evict s t reason now = record s {
  allocs = put t none s.allocs;
  tombstone =
      put t (some (record { reason = reason; expires_at = now + tombstone_ttl })) s.tombstone;
}

abbrev reason_of : Option Tombstone → Option Reason
reason_of none = none
reason_of (some entry) = some entry.reason

abbrev reason_unless_live : Option Allocation → Option Tombstone → Option Reason
reason_unless_live (some a) entry = none
reason_unless_live none entry = reason_of entry

-- Status; `none` is "".
unfoldable pub status : Server → Token → Option Reason
status s t = reason_unless_live (s.allocs t) (s.tombstone t)

-- What Allocate returns.
pub data Allocate : Type 0 where
  allocated : (token : Token) → Allocate
  err_draining err_budget_exhausted err_other : Allocate

abbrev pub fresh_allocation : ℕ → Allocation
fresh_allocation now = record {
  first = none;
  second = none;
  bytes = 0;
  last_activity = now;
  last_nudge = 0;
  data_counted = false;
}

-- Allocate once the token is drawn and looked up.
abbrev pub allocate_at : Server → Token → ℕ → Option Allocation → Server × Allocate
allocate_at s t now (some a) = (s, err_other)
allocate_at s t now none =
    (record s { allocs = put t (some (fresh_allocation now)) s.allocs }, allocated t)

abbrev pub allocate_drawn : Server → Option Token → ℕ → Server × Allocate
allocate_drawn s none now = (s, err_other)
allocate_drawn s (some t) now = allocate_at s t now (s.allocs t)

-- Allocate; `draw` is what crypto/rand gives, `none` an error.
unfoldable pub allocate : Server → Option Token → ℕ → Server × Allocate
allocate s draw now =
    if s.draining
    then (s, err_draining)
    else (let (budget, spent) = exhausted s.budget now in
        let s' : Server = record s { budget = budget } in
        if spent then (s', err_budget_exhausted) else allocate_drawn s' draw now)

-- Drain
unfoldable pub drain : Server → Server
drain s = record s { draining = true }

-- sessionIdleTimeout
abbrev pub session_idle_timeout : ℕ
session_idle_timeout = 60000000000

abbrev pub is_idle : ℕ → Option Allocation → Bool
is_idle now none = false
is_idle now (some a) = ltb (a.last_activity + session_idle_timeout) now

-- The second loop of sweep, at one token.
abbrev pub expire : ℕ → Option Tombstone → Option Tombstone
expire now none = none
expire now (some entry) = if ltb entry.expires_at now then none else some entry

-- sweep: what each loop does to the entry of a token does not depend on the other tokens.
unfoldable pub sweep : Server → ℕ → Server
sweep s now = record s {
  allocs = λ t. if is_idle now (s.allocs t) then none else s.allocs t;
  tombstone = λ t. expire now (
      if is_idle now (s.allocs t)
      then some (record { reason = idle; expires_at = now + tombstone_ttl })
      else s.tombstone t);
}
