-- ===== src/Signaling/Step/Meeting.antt =====
-- createSession, joinSession and waitSession (internal/server/server.go) keep the invariant.
use fsend.Base.{ℕ, ◌≡◌, refl, sym, subst, arith}
use fsend.Base.{Bool, true, false, not, Option, none, some, if◌then◌else◌}
use fsend.Base.{Bool-cases, inl, inr}
use fsend.Base.Maps.{String, same, same_iff, lookup}
use fsend.Signaling.Session.{follow}
use fsend.Signaling.Session.{IceCreds, State, waiting, paired, Session, Server, find}
use fsend.Signaling.Session.{find_slot, follow, at_capacity}
use fsend.Signaling.Tables.{find-id}
use fsend.Signaling.Tables.{All-find}
use fsend.Signaling.RateLimit.{Addresses, allow_new_session}
use fsend.Signaling.Pairing
use fsend.Signaling.Pairing.{Reply, failed, Client, Draw}
use fsend.Signaling.Step.Invariant.{
  Alone, Inv, store-Inv, retain-Inv, add_session-Inv, bucket-Inv, Keeps, Keeps-as_is, Keeps-if,
  keeping,
}

pub mint-Keeps :
    (s : Server) (slot ip key : String) (now : ℕ) (sid : String) (tok : Option String)
    (ice : Option IceCreds)
    → find sid s.by_id ≡ none
    → Inv s
    → Keeps (Pairing.mint s slot ip key now sid tok ice)
unfolding Pairing.mint Pairing.new_session
mint-Keeps s slot ip key now sid none ice f v = Keeps-as_is _ _ v
mint-Keeps s slot ip key now sid (some tok) none f v = Keeps-as_is _ _ v
mint-Keeps s slot ip key now sid (some tok) (some ice) f v = Keeps-as_is _ _ (
    add_session-Inv s _ v f
      (record { no_receiver = λ e. refl; no_token = λ e. refl; gate = λ e. refl }) refl)

pub create-Keeps :
    (net : Addresses) (s : Server) (c : Client) (slot : Option String) (now : ℕ) (draw : Draw)
    → find draw.session_id s.by_id ≡ none
    → Inv s
    → Keeps (Pairing.create_session net s c slot now draw)
unfolding Pairing.create_session
create-Keeps net s c none now draw f v = search keeping
create-Keeps net s c (some slot) now draw f v =
    let buckets = (allow_new_session net s c.ip now).0 in
    let v' = bucket-Inv s buckets v in
    let minted =
      mint-Keeps (record s { ip_bucket = buckets }) slot c.ip (net.rate_limit_key c.ip) now
        draw.session_id draw.role_token draw.ice f v' in
    search (keeping, v, v', minted) depth 9

pub admit-Keeps :
    (s : Server) (t : Session) (ip key : String) (now : ℕ) (ice : Option IceCreds)
    (tok : Option String)
    → Inv s
    → find t.id s.by_id ≡ some t
    → t.state ≡ waiting
    → Keeps (Pairing.admit s t ip key now ice tok)
unfolding Pairing.admit Pairing.pair_up
admit-Keeps s t ip key now none tok v f w = Keeps-as_is _ _ v
admit-Keeps s t ip key now (some ice) none v f w = Keeps-as_is _ _ v
admit-Keeps s t ip key now (some ice) (some tok) v f w =
    let alone = All-find Alone t.id s.by_id v.alone f in
    Keeps-as_is _ _ (
      retain-Inv s _ t key v f
        (record { no_receiver = λ e. cc; no_token = λ e. cc; gate = λ e. cc })
        (λ k n. ground (arith, alone.no_receiver w, same_iff k "")))

-- A session that a slot leads to is found under its own ID.
pub find_slot-id :
    (slot : String) (s : Server) (t : Session)
    → find_slot slot s ≡ some t
    → find t.id s.by_id ≡ some t
unfolding find_slot
find_slot-id slot s t h = go (lookup slot s.by_slot) h
  where
    go : (o : Option String) → follow o s.by_id ≡ some t → find t.id s.by_id ≡ some t
    go none e = cc
    go (some id) e = subst (λ j. find j s.by_id ≡ some t) (sym (find-id id s.by_id e)) e

pub join_found-Keeps :
    (s : Server) (o : Option Session) (ip key : String) (now : ℕ) (draw : Draw)
    → Inv s
    → ((t : Session) → o ≡ some t → find t.id s.by_id ≡ some t)
    → Keeps (Pairing.join_found s o ip key now draw)
unfolding Pairing.join_found
join_found-Keeps s none ip key now draw v f = Keeps-as_is _ _ v
join_found-Keeps s (some t) ip key now draw v f =
    by_state (Pairing.is_waiting t.state) (waiting_of t.state)
  where
    waiting_of : (st : State) → Pairing.is_waiting st ≡ true → st ≡ waiting
    waiting_of waiting e = refl
    waiting_of paired e = cc

    by_state :
        (b : Bool)
        → (b ≡ true → t.state ≡ waiting)
        → Keeps (
            if not b
            then (s, failed 409)
            else if at_capacity s key
            then (s, failed 429)
            else Pairing.admit s t ip key now draw.ice draw.role_token)
    by_state false w = Keeps-as_is _ _ v
    by_state true w =
        Keeps-if _ _ _ (Keeps-as_is _ _ v)
          (admit-Keeps s t ip key now draw.ice draw.role_token v (f t refl) (w refl))

pub join-Keeps :
    (net : Addresses) (s : Server) (c : Client) (slot : String) (now : ℕ) (draw : Draw)
    → Inv s
    → Keeps (Pairing.join_session net s c slot now draw)
unfolding Pairing.join_session
join-Keeps net s c slot now draw v =
    let buckets = (allow_new_session net s c.ip now).0 in
    let s' : Server = record s { ip_bucket = buckets } in
    let v' = bucket-Inv s buckets v in
    let found =
      join_found-Keeps s' (find_slot slot s') c.ip (net.rate_limit_key c.ip) now draw v'
        (find_slot-id slot s') in
    search (keeping, v, v', found) depth 9

pub heartbeat-Inv :
    (s : Server) (t : Session) (ip key : String) (now : ℕ)
    → Inv s
    → find t.id s.by_id ≡ some t
    → Inv (Pairing.heartbeat s t ip key now)
unfolding Pairing.heartbeat
heartbeat-Inv s t ip key now v f = elim (Bool-cases (same t.sender_rate_key "")) [
  | inl e ↦ rw e (
      retain-Inv s _ t key v f alone'
        (λ k n. ground (arith, same_iff t.sender_rate_key "", same_iff k "")))
  | inr e ↦ rw e (store-Inv s _ t v f alone'' refl refl)
]
  where
    alone : Alone t
    alone = All-find Alone t.id s.by_id v.alone f

    alone' : Alone (record t { last_seen = now; sender_addr = ip; sender_rate_key = key })
    alone' = record {
      no_receiver = alone.no_receiver;
      no_token = alone.no_token;
      gate = alone.gate;
    }

    alone'' : Alone (record t { last_seen = now })
    alone'' = record {
      no_receiver = alone.no_receiver;
      no_token = alone.no_token;
      gate = alone.gate;
    }

pub wait_found-Keeps :
    (s : Server) (o : Option Session) (tok ip key : String) (now : ℕ)
    → Inv s
    → ((t : Session) → o ≡ some t → find t.id s.by_id ≡ some t)
    → Keeps (Pairing.wait_found s o tok ip key now)
unfolding Pairing.wait_found
wait_found-Keeps s none tok ip key now v f = Keeps-as_is _ _ v
wait_found-Keeps s (some t) tok ip key now v f =
    search (keeping, v, heartbeat-Inv s t ip key now v (f t refl))

pub wait-Keeps :
    (net : Addresses) (s : Server) (ip slot tok : String) (now : ℕ)
    → Inv s
    → Keeps (Pairing.wait_session net s ip slot tok now)
unfolding Pairing.wait_session
wait-Keeps net s ip slot tok now v =
    let buckets = (allow_new_session net s ip now).0 in
    let s' : Server = record s { ip_bucket = buckets } in
    let v' = bucket-Inv s buckets v in
    let found =
      wait_found-Keeps s' (find_slot slot s') tok ip (net.rate_limit_key ip) now v'
        (find_slot-id slot s') in
    Keeps-if _ _ _ (Keeps-as_is _ _ v') found
