-- ===== src/Signaling/Session.antt =====
-- The session and the server's tables (internal/server/types.go, server.go).
use fsend.Base.{ℕ, ◌+◌, ◌-◌, Bool, ◌&&◌, not, Option, none, some}
use fsend.Base.{List, [], ◌∷◌, if◌then◌else◌, leb}
use fsend.Base.Maps.{String, same, lookup}

pub record IceCreds : Type 0 where
  pub ufrag : String
  pub pwd : String

-- The states that the code assigns.
pub data State : Type 0 where
  waiting paired : State

-- A channel that is only ever closed; closing it again panics.
pub data Gate : Type 0 where
  open_gate closed_gate : Gate

pub data Side : Type 0 where
  sender receiver : Side

pub record Session : Type 0 where
  pub id : String
  pub slot : String
  pub sender_addr : String
  pub sender_rate_key : String
  pub sender_ice : IceCreds
  pub sender_token : String
  pub receiver_addr : String
  pub receiver_rate_key : String
  pub receiver_ice : IceCreds
  pub receiver_token : String
  pub state : State
  pub created_at : ℕ
  pub paired_at : ℕ
  pub last_seen : ℕ
  pub sender_candidates : List String
  pub receiver_candidates : List String
  pub relay_token : Option String  -- relayToken, and relayTokenSet
  pub waiters : Gate

-- MAJOR.MINOR.PATCH as `update.parse` reads it.
pub record Version : Type 0 where
  pub major : ℕ
  pub minor : ℕ
  pub patch : ℕ

-- The fields of Config that the handlers read. Times are nanoseconds; a limit of 0 is no limit.
pub record Config : Type 0 where
  pub unpaired_ttl : ℕ
  pub abandoned_ttl : ℕ
  pub paired_ttl : ℕ
  pub max_sessions_per_ip : ℕ
  pub max_new_sessions_per_min : ℕ
  pub min_client_version : Option Version  -- `none`: empty, or not a version

-- Server. `by_id` holds the sessions in order of creation, the newest first. A `*session` in bySlot
-- is named by the session's ID: both maps point to one object, which the handlers update in place.
-- `ip_counts` is the map with 0 for a missing key.
pub record Server : Type 0 where
  pub cfg : Config
  pub by_id : List Session
  pub by_slot : List (String × String)
  pub ip_counts : String → ℕ
  pub ip_bucket : List (String × List ℕ)
  pub consumed : List (String × ℕ)

-- `s.byID[id]`
unfoldable pub find : String → List Session → Option Session
find id [] = none
find id (s ∷ ss) = if same id s.id then some s else find id ss

-- The object behind a pointer is updated in place.
unfoldable pub store : Session → List Session → List Session
store t [] = []
store t (s ∷ ss) = if same t.id s.id then t ∷ ss else s ∷ store t ss

-- `delete(s.byID, id)`: a map holds a key once.
unfoldable pub drop_id : String → List Session → List Session
drop_id id [] = []
drop_id id (s ∷ ss) = if same id s.id then ss else s ∷ drop_id id ss

abbrev pub follow : Option String → List Session → Option Session
follow none ss = none
follow (some id) ss = find id ss

-- `s.bySlot[slot]`
unfoldable pub find_slot : String → Server → Option Session
find_slot slot s = follow (lookup slot s.by_slot) s.by_id

-- `s.ipCounts[key]++`
unfoldable pub retain_ip : String → (String → ℕ) → String → ℕ
retain_ip key counts k = if same key k then counts k + 1 else counts k

-- releaseIP: the entry is deleted when it reaches 0 or less.
unfoldable pub release_ip : String → (String → ℕ) → String → ℕ
release_ip key counts k =
    if same key "" then counts k else if same key k then counts k - 1 else counts k

-- sideForToken; ConstantTimeCompare is equality.
unfoldable pub side_for_token : Session → String → Option Side
side_for_token s tok =
    if same tok ""
    then none
    else if not (same s.sender_token "") && same s.sender_token tok
    then some sender
    else if not (same s.receiver_token "") && same s.receiver_token tok
    then some receiver
    else none

-- `m > 0 && s.ipCounts[key] >= m`
unfoldable pub at_capacity : Server → String → Bool
at_capacity s key =
    not (leb s.cfg.max_sessions_per_ip 0) && leb s.cfg.max_sessions_per_ip (s.ip_counts key)
