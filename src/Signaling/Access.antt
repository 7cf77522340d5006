-- ===== src/Signaling/Access.antt =====
-- Who may act on a session, and what stays as it is (internal/server/server.go: sideForToken and
-- the `{id}` endpoints).
use fsend.Base.{ℕ, ◌≤◌, ◌≡◌, ◌≢◌, ◌↔◌, refl, arith}
use fsend.Base.{Bool, true, false, Option, none, some, if◌then◌else◌}
use fsend.Base.Maps.{String, same, same_iff}
use fsend.Signaling.Session.{Session, Server, find, Side, sender, receiver, side_for_token}
use fsend.Signaling.RateLimit.{Addresses}
use fsend.Signaling.Pairing.{Reply, failed}
use fsend.Signaling.Endpoints.{authorized, push_to, pull_from, end_session, relay_for}
use fsend.Signaling.Endpoints.{push_candidates, pull_candidates, delete_session, allocate_relay}
use fsend.Signaling.Step.{Call, push, pull, delete, allocate, apply}

-- A token names the sender exactly when it is the sender's and not empty, and the receiver exactly
-- when it is the receiver's, not empty and not the sender's.
pub side_for_token_iff :
    (t : Session) (tok : String)
    → ((side_for_token t tok ≡ some sender) ↔ ((tok ≢ "") × (t.sender_token ≡ tok)))
      × ((side_for_token t tok ≡ some receiver)
          ↔ ((tok ≢ "") × (t.sender_token ≢ tok) × (t.receiver_token ≡ tok)))
unfolding side_for_token
side_for_token_iff t tok = (
  ground (arith, same_iff tok "", same_iff t.sender_token "", same_iff t.sender_token tok),
  ground (
    arith,
    same_iff tok "",
    same_iff t.sender_token "",
    same_iff t.sender_token tok,
    same_iff t.receiver_token "",
    same_iff t.receiver_token tok,
  ),
)

-- A call of an `{id}` endpoint with a token of no side of the session, if there is one.
abbrev IsStranger : Server → String → String → Type 0
IsStranger s id tok = (t : Session) → find id s.by_id ≡ some t → side_for_token t tok ≡ none

abbrev pub IsForeign : Server → Call → Type 0
IsForeign s (push id tok items) = IsStranger s id tok
IsForeign s (pull id tok since) = IsStranger s id tok
IsForeign s (delete id tok consumed now) = IsStranger s id tok
IsForeign s (allocate id tok answer) = IsStranger s id tok
IsForeign _ _ = ⊥

-- A result that changes nothing and answers by an error for the client.
pub record IsRefused (s : Server) (r : Server × Reply) : Type 0 where
  pub unchanged : r.0 ≡ s
  pub code : ℕ
  pub answer : r.1 ≡ failed code
  pub client_low : 400 ≤ code
  pub client_high : code ≤ 404

authorized-IsRefused :
    (s : Server) (o : Option Session) (tok : String) (run : Session → Side → Server × Reply)
    → ((t : Session) → o ≡ some t → side_for_token t tok ≡ none)
    → IsRefused s (authorized s o tok run)
unfolding authorized
authorized-IsRefused s none tok run h = record {
  unchanged = refl;
  code = 404;
  answer = refl;
  client_low = omega arith;
  client_high = omega arith;
}
authorized-IsRefused s (some t) tok run h = rw (h t refl) (record {
  unchanged = refl;
  code = 401;
  answer = refl;
  client_low = omega arith;
  client_high = omega arith;
})

bad_request : (s : Server) → IsRefused s (s, failed 400)
bad_request s = record {
  unchanged = refl;
  code = 400;
  answer = refl;
  client_low = omega arith;
  client_high = omega arith;
}

IsRefused-if :
    (s : Server) (b : Bool) (x y : Server × Reply)
    → IsRefused s x
    → IsRefused s y
    → IsRefused s (if b then x else y)
IsRefused-if s true x y h k = h
IsRefused-if s false x y h k = k

-- A call of an `{id}` endpoint (candidates, relay slot, deletion) with a token of neither side of
-- the session, or of a session that does not exist, changes nothing and is answered by an error
-- from 400 to 404.
pub apply-IsRefused :
    (net : Addresses) (s : Server) (c : Call) → IsForeign s c → IsRefused s (apply net s c)
unfolding apply push_candidates pull_candidates delete_session allocate_relay
apply-IsRefused net s (push id tok none) h = bad_request s
apply-IsRefused net s (push id tok (some cs)) h =
    authorized-IsRefused s (find id s.by_id) tok (push_to s cs) h
apply-IsRefused net s (pull id tok since) h =
    authorized-IsRefused s (find id s.by_id) tok (pull_from s since) h
apply-IsRefused net s (delete id tok consumed now) h =
    authorized-IsRefused s (find id s.by_id) tok (end_session s id consumed now) h
apply-IsRefused net s (allocate id tok answer) h =
    IsRefused-if s (same id "") _ _ (bad_request s) (
      authorized-IsRefused s (find id s.by_id) tok (λ t side. relay_for s t t.relay_token answer) h)
apply-IsRefused net s _ h = absurd h
