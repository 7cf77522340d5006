-- ===== src/Signaling/Pairing.antt =====
-- The endpoints by which two peers meet (internal/server/server.go): createSession, joinSession and
-- waitSession. Every reading of the clock in one handler is the same `now`.
use fsend.Base.{ℕ, ◌/◌, Bool, true, false, ◌&&◌, ◌||◌, not, Option, none, some}
use fsend.Base.{List, [], ◌∷◌, if◌then◌else◌, leb, ltb, ◌==◌, length, all}
use fsend.Base.Maps.{String, same, lookup, insert}
use fsend.Base.Texts.{codes}
use fsend.Signaling.Session.{IceCreds, State, waiting, paired, open_gate, closed_gate, Side, sender}
use fsend.Signaling.Session.{Version, Session, Server, store, drop_id, find_slot, retain_ip}
use fsend.Signaling.Session.{side_for_token, at_capacity}
use fsend.Signaling.RateLimit.{Addresses, allow_new_session}

-- What the handlers answer. `failed` is writeJSONError with its status code; the relay's address and
-- the server's version, which other fields of the answers carry, are left out.
pub data Reply : Type 0 where
  created : (session_id : String) (ice : IceCreds) (ttl_seconds : ℕ) (role_token : String) → Reply
  joined :
      (session_id peer_addr : String) (peer_ice your_ice : IceCreds) (role_token : String) → Reply
  peer_ready : (peer_addr : String) (peer_ice : IceCreds) → Reply
  parked : (session_id : String) → Reply
  candidates : (items : List String) (next_since : ℕ) → Reply
  relay_slot : (token : String) → Reply
  budget_exhausted : Reply
  no_content : Reply
  failed : (status : ℕ) → Reply

-- What a request's headers say of the client: the protocol header's number (`none`: not a number,
-- or negative), and the release of the user agent.
pub record Client : Type 0 where
  pub ip : String
  pub protocol : Option ℕ
  pub version : Option Version

-- Randomness drawn by a handler; `none` is an entropy error.
pub record Draw : Type 0 where
  pub session_id : String
  pub role_token : Option String
  pub ice : Option IceCreds

-- update.Newer
unfoldable pub newer : Option Version → Option Version → Bool
newer none c = false
newer (some l) none = false
newer (some l) (some c) =
    if not (l.major == c.major)
    then ltb c.major l.major
    else if not (l.minor == c.minor)
    then ltb c.minor l.minor
    else ltb c.patch l.patch

abbrev pub speaks : Option ℕ → Bool
speaks none = false
speaks (some p) = leb 3 p

-- clientAllowed
unfoldable pub client_allowed : Server → Client → Bool
client_allowed s c = speaks c.protocol && not (newer s.cfg.min_client_version c.version)

abbrev is_hex : ℕ → Bool
is_hex c = (leb b'0' c && leb c b'9') || (leb b'a' c && leb c b'f')

-- code.ValidateSlot: `^[0-9a-f]{32}$`.
unfoldable pub is_slot : String → Bool
is_slot slot = length (codes slot) == 32 && all is_hex (codes slot)

abbrev before : ℕ → Option ℕ → Bool
before now none = false
before now (some expiry) = ltb now expiry

-- isConsumed
unfoldable pub is_consumed : Server → String → ℕ → Bool
is_consumed s slot now = before now (lookup slot s.consumed)

abbrev pub is_taken : Option String → Bool
is_taken none = false
is_taken (some id) = true

unfoldable pub new_session : String → String → String → String → String → IceCreds → ℕ → Session
new_session sid slot addr key tok ice now = record {
  id = sid;
  slot = slot;
  sender_addr = addr;
  sender_rate_key = key;
  sender_ice = ice;
  sender_token = tok;
  receiver_addr = "";
  receiver_rate_key = "";
  receiver_ice = record { ufrag = ""; pwd = "" };
  receiver_token = "";
  state = waiting;
  created_at = now;
  paired_at = 0;
  last_seen = now;
  sender_candidates = [];
  receiver_candidates = [];
  relay_token = none;
  waiters = open_gate;
}

-- `s.bySlot[slot] = sess; s.byID[sid] = sess; s.ipCounts[rateKey]++`
unfoldable pub add_session : Server → Session → Server
add_session s t = record s {
  by_id = t ∷ drop_id t.id s.by_id;
  by_slot = insert t.slot t.id s.by_slot;
  ip_counts = retain_ip t.sender_rate_key s.ip_counts;
}

-- The draws of createSession, and the new session.
unfoldable pub mint :
    Server
    → String
    → String
    → String
    → ℕ
    → String
    → Option String
    → Option IceCreds
    → Server × Reply
mint s slot ip key now sid none ice = (s, failed 500)
mint s slot ip key now sid (some tok) none = (s, failed 500)
mint s slot ip key now sid (some tok) (some ice) = (
  add_session s (new_session sid slot ip key tok ice now),
  created sid ice (s.cfg.unpaired_ttl / 1000000000) tok,
)

-- The assignments of joinSession to the session that it found.
unfoldable pub pair_up : Session → String → String → String → IceCreds → ℕ → Session
pair_up t addr key tok ice now = record t {
  receiver_addr = addr;
  receiver_rate_key = key;
  receiver_ice = ice;
  receiver_token = tok;
  state = paired;
  paired_at = now;
  waiters = closed_gate;
}

-- `*sess = t` and `s.ipCounts[key]++`
unfoldable pub store_and_retain : Server → Session → String → Server
store_and_retain s t key = record s {
  by_id = store t s.by_id;
  ip_counts = retain_ip key s.ip_counts;
}

abbrev pub is_waiting : State → Bool
is_waiting waiting = true
is_waiting paired = false

-- The draws of joinSession, and the pairing.
unfoldable pub admit :
    Server → Session → String → String → ℕ → Option IceCreds → Option String → Server × Reply
admit s t ip key now none tok = (s, failed 500)
admit s t ip key now (some ice) none = (s, failed 500)
admit s t ip key now (some ice) (some tok) = (
  store_and_retain s (pair_up t ip key tok ice now) key,
  joined t.id t.sender_addr t.sender_ice ice tok,
)

-- joinSession once the slot is looked up.
unfoldable pub join_found : Server → Option Session → String → String → ℕ → Draw → Server × Reply
join_found s none ip key now draw = (s, failed 404)
join_found s (some t) ip key now draw =
    if not (is_waiting t.state)
    then (s, failed 409)
    else if at_capacity s key
    then (s, failed 429)
    else admit s t ip key now draw.ice draw.role_token

-- Each /wait poll is the sender's heartbeat, and a session restored from a snapshot learns its
-- sender's address.
unfoldable pub heartbeat : Server → Session → String → String → ℕ → Server
heartbeat s t ip key now =
    if same t.sender_rate_key ""
    then store_and_retain s (record t { last_seen = now; sender_addr = ip; sender_rate_key = key })
        key
    else record s { by_id = store (record t { last_seen = now }) s.by_id }

abbrev pub is_sender : Option Side → Bool
is_sender (some sender) = true
is_sender _ = false

-- waitSession once the slot is looked up, up to the long poll.
unfoldable pub wait_found : Server → Option Session → String → String → String → ℕ → Server × Reply
wait_found s none tok ip key now = (s, failed 404)
wait_found s (some t) tok ip key now =
    if not (is_sender (side_for_token t tok)) then (s, failed 404) else (
      heartbeat s t ip key now,
      if is_waiting t.state then parked t.id else peer_ready t.receiver_addr t.receiver_ice,
    )

-- The end of a long poll that was woken: the slot may be another session's by now.
unfoldable pub wake_found : Option Session → String → Reply
wake_found none sess_id = failed 404
wake_found (some t) sess_id =
    if same t.id sess_id then peer_ready t.receiver_addr t.receiver_ice else failed 404

unfoldable pub wake : Server → String → String → Reply
wake s slot sess_id = wake_found (find_slot slot s) sess_id

module _ (net : Addresses) where
  -- createSession. The body's slot is trimmed and in lower case; `none` is a body that is no JSON.
  unfoldable pub create_session : Server → Client → Option String → ℕ → Draw → Server × Reply
  create_session s c none now draw =
      if not (client_allowed s c) then (s, failed 426) else (s, failed 400)
  create_session s c (some slot) now draw =
      if not (client_allowed s c)
      then (s, failed 426)
      else if not (is_slot slot)
      then (s, failed 400)
      else (let (buckets, pass) = allow_new_session net s c.ip now in
          let s' : Server = record s { ip_bucket = buckets } in
          if not pass
          then (s', failed 429)
          else if at_capacity s' (net.rate_limit_key c.ip)
          then (s', failed 429)
          else if is_taken (lookup slot s'.by_slot) || is_consumed s' slot now
          then (s', failed 409)
          else mint s' slot c.ip (net.rate_limit_key c.ip) now draw.session_id draw.role_token
              draw.ice)

  -- joinSession; the path's slot is in lower case.
  unfoldable pub join_session : Server → Client → String → ℕ → Draw → Server × Reply
  join_session s c slot now draw =
      if not (client_allowed s c)
      then (s, failed 426)
      else (let (buckets, pass) = allow_new_session net s c.ip now in
          let s' : Server = record s { ip_bucket = buckets } in
          if not pass
          then (s', failed 429)
          else if is_consumed s' slot now
          then (s', failed 409)
          else join_found s' (find_slot slot s') c.ip (net.rate_limit_key c.ip) now draw)

  -- waitSession up to the long poll; `parked` is a poll that waits.
  unfoldable pub wait_session : Server → String → String → String → ℕ → Server × Reply
  wait_session s ip slot tok now =
      let (buckets, pass) = allow_new_session net s ip now in
      let s' : Server = record s { ip_bucket = buckets } in
      if not pass
      then (s', failed 429)
      else wait_found s' (find_slot slot s') tok ip (net.rate_limit_key ip) now
