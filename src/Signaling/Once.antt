-- ===== src/Signaling/Once.antt =====
-- A slot pairs one sender with one receiver (internal/server/server.go: joinSession).
use fsend.Base.{ℕ, ◌≡◌, refl, sym, ◌∙◌}
use fsend.Base.{Bool, true, false, not, Option, none, some, List, if◌then◌else◌}
use fsend.Base.Maps.{String}
use fsend.Signaling.Session.{
  Session, Server, State, waiting, paired, IceCreds, store, find_slot, at_capacity,
}
use fsend.Signaling.RateLimit.{Addresses, allow_new_session}
use fsend.Signaling.Pairing.{
  Reply, failed, joined, Client, Draw, join_session, join_found, admit, pair_up, store_and_retain,
  is_waiting,
}

-- The two outcomes of a join: an error, with the sessions as they were; or the slot's waiting
-- session is paired, and the receiver is told of its sender.
pub data Outcome (s : Server) (slot : String) (r : Server × Reply) : Type 0 where
  refused :
      (n : ℕ) → r.1 ≡ failed n → r.0.by_id ≡ s.by_id → r.0.by_slot ≡ s.by_slot → Outcome s slot r
  paired_up :
      (t u : Session)
      → find_slot slot s ≡ some t
      → t.state ≡ waiting
      → u.state ≡ paired
      → u.id ≡ t.id
      → r.0.by_id ≡ store u s.by_id
      → r.0.by_slot ≡ s.by_slot
      → r.1 ≡ joined t.id t.sender_addr t.sender_ice u.receiver_ice u.receiver_token
      → Outcome s slot r

refused_here : (s : Server) (slot : String) (n : ℕ) → Outcome s slot (s, failed n)
refused_here s slot n = refused n refl refl refl

refused_limited :
    (s : Server) (slot : String) (b : List (String × List ℕ)) (n : ℕ)
    → Outcome s slot (record s { ip_bucket = b }, failed n)
refused_limited s slot b n = refused n refl refl refl

Outcome-if :
    (s : Server) (slot : String) (b : Bool) (x y : Server × Reply)
    → Outcome s slot x
    → Outcome s slot y
    → Outcome s slot (if b then x else y)
Outcome-if s slot true x y h k = h
Outcome-if s slot false x y h k = k

ruleset outcomes = (refused_here, refused_limited, Outcome-if)

admit-Outcome :
    (s : Server) (slot : String) (b : List (String × List ℕ)) (t : Session) (ip key : String)
    (now : ℕ) (ice : Option IceCreds) (tok : Option String)
    → find_slot slot s ≡ some t
    → t.state ≡ waiting
    → Outcome s slot (admit (record s { ip_bucket = b }) t ip key now ice tok)
unfolding admit store_and_retain pair_up
admit-Outcome s slot b t ip key now none tok f w = refused_limited s slot b 500
admit-Outcome s slot b t ip key now (some ice) none f w = refused_limited s slot b 500
admit-Outcome s slot b t ip key now (some ice) (some tok) f w =
    paired_up t (pair_up t ip key tok ice now) f w refl refl refl refl refl

join_found-Outcome :
    (s : Server) (slot : String) (b : List (String × List ℕ)) (o : Option Session) (ip key : String)
    (now : ℕ) (draw : Draw)
    → find_slot slot s ≡ o
    → Outcome s slot (join_found (record s { ip_bucket = b }) o ip key now draw)
unfolding join_found
join_found-Outcome s slot b none ip key now draw f = refused_limited s slot b 404
join_found-Outcome s slot b (some t) ip key now draw f = by_state t.state refl
  where
    by_state :
        (st : State)
        → t.state ≡ st
        → Outcome s slot (
            if not (is_waiting st)
            then (record s { ip_bucket = b }, failed 409)
            else if at_capacity (record s { ip_bucket = b }) key
            then (record s { ip_bucket = b }, failed 429)
            else admit (record s { ip_bucket = b }) t ip key now draw.ice draw.role_token)
    by_state paired e = refused_limited s slot b 409
    by_state waiting e =
        Outcome-if s slot _ _ _ (refused_limited s slot b 429)
          (admit-Outcome s slot b t ip key now draw.ice draw.role_token f e)

find_slot_bucket :
    (slot : String) (s : Server) (b : List (String × List ℕ))
    → find_slot slot (record s { ip_bucket = b }) ≡ find_slot slot s
unfolding find_slot
find_slot_bucket slot s b = refl

-- Whatever a join answers, it is one of the two outcomes.
pub join_session-Outcome :
    (net : Addresses) (s : Server) (c : Client) (slot : String) (now : ℕ) (draw : Draw)
    → Outcome s slot (join_session net s c slot now draw)
unfolding join_session
join_session-Outcome net s c slot now draw =
    let b = (allow_new_session net s c.ip now).0 in
    let found =
      join_found-Outcome s slot b (find_slot slot (record s { ip_bucket = b })) c.ip
        (net.rate_limit_key c.ip) now draw (sym (find_slot_bucket slot s b)) in
    search (outcomes, found) depth 9

-- A join of a slot that leads to a paired session is refused.
pub paired_refuses :
    (s : Server) (slot : String) (u : Session) (r : Server × Reply)
    → find_slot slot s ≡ some u
    → u.state ≡ paired
    → Outcome s slot r
    → (n : ℕ) × (r.1 ≡ failed n) × (r.0.by_id ≡ s.by_id) × (r.0.by_slot ≡ s.by_slot)
paired_refuses s slot u r f p (refused n e i l) = (n, e, i, l)
paired_refuses s slot u r f p (paired_up t v g w _ _ _ _ _) =
    let same_one : some u ≡ some t = sym f ∙ g in
    let same_state : u.state ≡ t.state = cc (same_one) in cc
