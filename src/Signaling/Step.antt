-- ===== src/Signaling/Step.antt =====
-- The signaling server (internal/server) as a machine: calls of its endpoints and sweeps of its
-- janitor, in any order.
pub mod Invariant
pub mod Meeting
pub mod Members
pub mod Sweep
pub mod Counts
pub mod Paired
pub mod JoinedOnce
use fsend.Base.{ℕ, Bool, true, false, Option, none, some, List, [], ◌∷◌, ◌≡◌}
use fsend.Base.Maps.{String}
use fsend.Signaling.Session.{Session, Server, Config, find}
use fsend.Signaling.RateLimit.{Addresses}
use fsend.Signaling.Pairing.{
  Reply, no_content, Client, Draw, create_session, join_session, wait_session,
}
use fsend.Signaling.Endpoints.{push_candidates, pull_candidates, delete_session, Allocated}
use fsend.Signaling.Endpoints.{allocate_relay}
use fsend.Signaling.Janitor.{evict}

pub data Call : Type 0 where
  create : (c : Client) (slot : Option String) (now : ℕ) (draw : Draw) → Call
  join : (c : Client) (slot : String) (now : ℕ) (draw : Draw) → Call
  wait : (ip slot tok : String) (now : ℕ) → Call
  push : (id tok : String) (items : Option (List String)) → Call
  pull : (id tok : String) (since : ℕ) → Call
  delete : (id tok : String) (consumed : Bool) (now : ℕ) → Call
  allocate : (id tok : String) (answer : Allocated) → Call
  sweep : (now : ℕ) → Call

unfoldable pub apply : Addresses → Server → Call → Server × Reply
apply net s (create c slot now draw) = create_session net s c slot now draw
apply net s (join c slot now draw) = join_session net s c slot now draw
apply net s (wait ip slot tok now) = wait_session net s ip slot tok now
apply net s (push id tok items) = push_candidates s id tok items
apply net s (pull id tok since) = pull_candidates s id tok since
apply net s (delete id tok consumed now) = delete_session s id tok consumed now
apply net s (allocate id tok answer) = allocate_relay s id tok answer
apply net s (sweep now) = (evict s now, no_content)

-- What is expected of the draw of a session ID: it is not in use. An ID is a ULID with 80 random
-- bits.
abbrev pub Fresh : Server → Call → Type 0
Fresh s (create c slot now draw) = find draw.session_id s.by_id ≡ none
Fresh s (join c slot now draw) = Unit
Fresh s _ = Unit

-- A run of calls in which every new ID is fresh.
pub data Run (net : Addresses) (s : Server) : Server → Type 0 where
  here : Run net s s
  next : {t : Server} (c : Call) → Run net s t → Fresh t c → Run net s (apply net t c).0

-- New
unfoldable pub new_server : Config → Server
new_server cfg = record {
  cfg = cfg;
  by_id = [];
  by_slot = [];
  ip_counts = λ k. 0;
  ip_bucket = [];
  consumed = [];
}
