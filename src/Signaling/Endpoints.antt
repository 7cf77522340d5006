-- ===== src/Signaling/Endpoints.antt =====
-- The endpoints of a session that exists (internal/server/server.go): candidates, the relay slot
-- and the session's end.
use fsend.Base.{ℕ, ◌+◌, Bool, Option, none, some}
use fsend.Base.{List, ◌++◌, if◌then◌else◌, ltb, length, drop}
use fsend.Base.Maps.{String, same, insert, erase}
use fsend.Signaling.Session.{Side, sender, receiver, Session, Server, find, store, drop_id}
use fsend.Signaling.Session.{release_ip, side_for_token}
use fsend.Signaling.Pairing.{Reply, candidates, relay_slot, budget_exhausted, no_content, failed}

abbrev pub max_candidates_per_side : ℕ
max_candidates_per_side = 64

abbrev pub on_side : Server → Option Side → (Side → Server × Reply) → Server × Reply
on_side s none run = (s, failed 401)
on_side s (some side) run = run side

-- The session of an `{id}` endpoint and the side that the bearer token names: 404 and 401.
unfoldable pub authorized :
    Server → Option Session → String → (Session → Side → Server × Reply) → Server × Reply
authorized s none tok run = (s, failed 404)
authorized s (some t) tok run = on_side s (side_for_token t tok) (run t)

abbrev pub own_candidates : Session → Side → List String
own_candidates t sender = t.sender_candidates
own_candidates t receiver = t.receiver_candidates

abbrev pub peer_candidates : Session → Side → List String
peer_candidates t sender = t.receiver_candidates
peer_candidates t receiver = t.sender_candidates

abbrev pub with_candidates : Session → Side → List String → Session
with_candidates t sender cs = record t { sender_candidates = cs }
with_candidates t receiver cs = record t { receiver_candidates = cs }

unfoldable pub push_to : Server → List String → Session → Side → Server × Reply
push_to s cs t side =
    if ltb max_candidates_per_side (length (own_candidates t side) + length cs)
    then (s, failed 413)
    else (
      record s { by_id = store (with_candidates t side (own_candidates t side ++ cs)) s.by_id },
      no_content,
    )

-- pushCandidates; `none` is a body that is no JSON.
unfoldable pub push_candidates : Server → String → String → Option (List String) → Server × Reply
push_candidates s id tok none = (s, failed 400)
push_candidates s id tok (some cs) = authorized s (find id s.by_id) tok (push_to s cs)

-- pullCandidates; `since` is 0 where the query gives no positive number.
unfoldable pub pull_from : Server → ℕ → Session → Side → Server × Reply
pull_from s since t side =
    let theirs = peer_candidates t side in
    if ltb since (length theirs)
    then (s, candidates (drop since theirs) (length theirs))
    else (s, no_content)

unfoldable pub pull_candidates : Server → String → String → ℕ → Server × Reply
pull_candidates s id tok since = authorized s (find id s.by_id) tok (pull_from s since)

-- consumedTTL
abbrev pub consumed_ttl : ℕ
consumed_ttl = 600000000000

unfoldable pub end_session : Server → String → Bool → ℕ → Session → Side → Server × Reply
end_session s id consumed now t side = (
  record s {
    by_id = drop_id id s.by_id;
    by_slot = erase t.slot s.by_slot;
    ip_counts = release_ip t.receiver_rate_key (release_ip t.sender_rate_key s.ip_counts);
    consumed = if consumed then insert t.slot (now + consumed_ttl) s.consumed else s.consumed;
  },
  no_content,
)

-- deleteSession; `consumed` is whether the query names it.
unfoldable pub delete_session : Server → String → String → Bool → ℕ → Server × Reply
delete_session s id tok consumed now =
    authorized s (find id s.by_id) tok (end_session s id consumed now)

-- What the relay answers to Allocate.
pub data Allocated : Type 0 where
  slot : String → Allocated
  budget_spent draining alloc_failed : Allocated

abbrev pub grant : Server → Session → Allocated → Server × Reply
grant s t (slot tok) =
    (record s { by_id = store (record t { relay_token = some tok }) s.by_id }, relay_slot tok)
grant s t budget_spent = (s, budget_exhausted)
grant s t draining = (s, failed 503)
grant s t alloc_failed = (s, failed 500)

abbrev pub relay_for : Server → Session → Option String → Allocated → Server × Reply
relay_for s t (some tok) answer = (s, relay_slot tok)
relay_for s t none answer = grant s t answer

-- allocateRelay on a server with a relay: the relay's answer is used by the first caller only.
unfoldable pub allocate_relay : Server → String → String → Allocated → Server × Reply
allocate_relay s id tok answer =
    if same id ""
    then (s, failed 400)
    else authorized s (find id s.by_id) tok (λ t side. relay_for s t t.relay_token answer)
