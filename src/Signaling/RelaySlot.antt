-- ===== src/Signaling/RelaySlot.antt =====
-- The relay slot of a session (internal/server/server.go: allocateRelay).
use fsend.Base.{◌≡◌, ◌≢◌, refl, sym, subst, ◌∙◌, arith}
use fsend.Base.{Bool, true, false, Option, none, some, if◌then◌else◌}
use fsend.Base.Maps.{String, same, same_iff}
use fsend.Signaling.Session.{Session, Server, find, Side, side_for_token}
use fsend.Signaling.Tables.{find-store, find-id}
use fsend.Signaling.Pairing.{Reply, failed, relay_slot}
use fsend.Signaling.Endpoints.{authorized, on_side, relay_for}
use fsend.Signaling.Endpoints.{allocate_relay}
use fsend.Signaling.Endpoints.{Allocated}

relay_again :
    (s : Server) (id again k : String) (other : Allocated) (t : Session)
    → same id "" ≡ false
    → find id s.by_id ≡ some t
    → t.relay_token ≡ some k
    → side_for_token t again ≢ none
    → (allocate_relay s id again other).1 ≡ relay_slot k
unfolding allocate_relay authorized
relay_again s id again k other t n f r h = ground (arith, side_cases (side_for_token t again) h)
  where
    side_cases : (o : Option Side) → o ≢ none → (side : Side) × (o ≡ some side)
    side_cases none h = absurd (h refl)
    side_cases (some side) h = (side, refl)

-- The session behind an answered allocation, before (`old`) and after it (`new`).
record Granted (s : Server) (id k : String) (r : Server × Reply) : Type 0 where
  old : Session
  new : Session
  found_old : find id s.by_id ≡ some old
  found_new : find id r.0.by_id ≡ some new
  kept_token : new.relay_token ≡ some k
  same_sender : new.sender_token ≡ old.sender_token
  same_receiver : new.receiver_token ≡ old.receiver_token

Granted-for :
    (s : Server) (id k : String) (t : Session) (o : Option String) (answer : Allocated)
    → find id s.by_id ≡ some t
    → t.relay_token ≡ o
    → (relay_for s t o answer).1 ≡ relay_slot k
    → Granted s id k (relay_for s t o answer)
Granted-for s id k t (some j) answer f r e = record {
  old = t;
  new = t;
  found_old = f;
  found_new = f;
  kept_token = cc;
  same_sender = refl;
  same_receiver = refl;
}
Granted-for s id k t none (Allocated.slot j) f r e = record {
  old = t;
  new = record t { relay_token = some j };
  found_old = f;
  found_new =
      find-store (record t { relay_token = some j }) id s.by_id {u = t}
        (subst (λ x. find x s.by_id ≡ some t) (sym (find-id id s.by_id f)) f)
      ∙ ground (arith, same_iff t.id id, find-id id s.by_id {t = t} f);
  kept_token = cc;
  same_sender = refl;
  same_receiver = refl;
}
Granted-for s id k t none Allocated.budget_spent f r e = cc
Granted-for s id k t none Allocated.draining f r e = cc
Granted-for s id k t none Allocated.alloc_failed f r e = cc

Granted-side :
    (s : Server) (id k : String) (t : Session) (o : Option Side) (answer : Allocated)
    → find id s.by_id ≡ some t
    → (on_side s o (λ side. relay_for s t t.relay_token answer)).1 ≡ relay_slot k
    → Granted s id k (on_side s o (λ side. relay_for s t t.relay_token answer))
Granted-side s id k t none answer f e = cc
Granted-side s id k t (some side) answer f e = Granted-for s id k t t.relay_token answer f refl e

Granted-session :
    (s : Server) (id tok k : String) (o : Option Session) (answer : Allocated)
    → find id s.by_id ≡ o
    → (authorized s o tok (λ t side. relay_for s t t.relay_token answer)).1 ≡ relay_slot k
    → Granted s id k (authorized s o tok (λ t side. relay_for s t t.relay_token answer))
unfolding authorized
Granted-session s id tok k none answer f e = cc
Granted-session s id tok k (some t) answer f e =
    Granted-side s id k t (side_for_token t tok) answer f e

Granted-if :
    (s : Server) (id tok k : String) (b : Bool) (r : Server × Reply)
    → (if b then (s, failed 400) else r).1 ≡ relay_slot k
    → (r.1 ≡ relay_slot k → Granted s id k r)
    → (b ≡ false) × Granted s id k (if b then (s, failed 400) else r)
Granted-if s id tok k true r e g = cc
Granted-if s id tok k false r e g = (refl, g e)

side_for_token-eq :
    (t u : Session) (tok : String)
    → u.sender_token ≡ t.sender_token
    → u.receiver_token ≡ t.receiver_token
    → side_for_token u tok ≡ side_for_token t tok
unfolding side_for_token
side_for_token-eq t u tok e f = ground arith

-- The relay slot of a session is given once: whoever of its two sides asks again, whatever the
-- relay would answer by then, gets the token of the first call.
pub allocate_relay_stable :
    (s : Server) (id tok again k : String) (answer other : Allocated)
    → (allocate_relay s id tok answer).1 ≡ relay_slot k
    → ((t : Session) → find id s.by_id ≡ some t → side_for_token t again ≢ none)
    → (allocate_relay (allocate_relay s id tok answer).0 id again other).1 ≡ relay_slot k
unfolding allocate_relay
allocate_relay_stable s id tok again k answer other e h =
    let (n, g) =
      Granted-if s id tok k (same id "")
        (authorized s (find id s.by_id) tok (λ t side. relay_for s t t.relay_token answer)) e
        (Granted-session s id tok k (find id s.by_id) answer refl) in
    relay_again (allocate_relay s id tok answer).0 id again k other g.new n g.found_new g.kept_token
      (λ z.
        h g.old g.found_old
          (sym (side_for_token-eq g.old g.new again g.same_sender g.same_receiver) ∙ z))
