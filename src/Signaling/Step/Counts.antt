-- ===== src/Signaling/Step/Counts.antt =====
-- The accounting of sessions against client addresses (internal/server/server.go: ipCounts) over
-- whole runs.
use fsend.Base.{◌≡◌, refl}
use fsend.Base.{false, none, some}
use fsend.Base.Maps.{String, same}
use fsend.Signaling.Session.{Server, Config, find}
use fsend.Signaling.Tables.{held}
use fsend.Signaling.RateLimit.{Addresses}
use fsend.Signaling.Endpoints
use fsend.Signaling.Endpoints.{Allocated}
use fsend.Signaling.Step.{
  Call, create, join, wait, push, pull, delete, allocate, sweep, apply, Fresh, Run, here, next,
  new_server,
}
use fsend.Signaling.Step.Invariant.{Inv, keeps, Keeps-as_is, Keeps-if, kept}
use fsend.Signaling.Step.Meeting.{create-Keeps, join-Keeps, wait-Keeps}
use fsend.Signaling.Step.Members.{
  authorized-Keeps, found_self, push_to-Keeps, pull_from-Keeps, relay_for-Keeps, end_session-Inv,
}
use fsend.Signaling.Step.Sweep.{evict-Inv}

-- Every call of an endpoint and every sweep, whatever it answers, keeps the table's IDs distinct,
-- the waiting sessions without a receiver and with an open channel, and the per-address counts
-- exact, if an ID drawn for a new session is not in use.
apply-Inv : (net : Addresses) (s : Server) (c : Call) → Fresh s c → Inv s → Inv (apply net s c).0
unfolding apply
apply-Inv net s (create c slot now draw) f v = kept (create-Keeps net s c slot now draw f v)
apply-Inv net s (join c slot now draw) f v = kept (join-Keeps net s c slot now draw v)
apply-Inv net s (wait ip slot tok now) f v = kept (wait-Keeps net s ip slot tok now v)
apply-Inv net s (push id tok none) f v = unfold Endpoints.push_candidates in v
apply-Inv net s (push id tok (some cs)) f v =
    unfold Endpoints.push_candidates in
    kept (
      authorized-Keeps s (find id s.by_id) tok (Endpoints.push_to s cs) v
        (λ t side e. push_to-Keeps s cs t side v (found_self s id t e)))
apply-Inv net s (pull id tok since) f v =
    unfold Endpoints.pull_candidates in
    kept (
      authorized-Keeps s (find id s.by_id) tok (Endpoints.pull_from s since) v
        (λ t side e. pull_from-Keeps s since t side v))
apply-Inv net s (delete id tok consumed now) f v =
    unfold Endpoints.delete_session in
    kept (
      authorized-Keeps s (find id s.by_id) tok (Endpoints.end_session s id consumed now) v
        (λ t side e. keeps (end_session-Inv s id consumed now t side v e)))
apply-Inv net s (allocate id tok answer) f v =
    unfold Endpoints.allocate_relay in
    kept (
      Keeps-if (same id "") _ _ (Keeps-as_is _ _ v) (
        authorized-Keeps s (find id s.by_id) tok
          (λ t side. Endpoints.relay_for s t t.relay_token answer) v
          (λ t side e. relay_for-Keeps s t t.relay_token answer v (found_self s id t e))))
apply-Inv net s (sweep now) f v = evict-Inv s now v

pub new_server-Inv : (cfg : Config) → Inv (new_server cfg)
unfolding new_server held
new_server-Inv cfg = record { distinct = tt; alone = tt; counts = λ k n. refl }

pub Run-Inv : (net : Addresses) (cfg : Config) {s : Server} → Run net (new_server cfg) s → Inv s
Run-Inv net cfg here = new_server-Inv cfg
Run-Inv net cfg (next {t} c r f) = apply-Inv net t c f (Run-Inv net cfg r)

-- After any run from a new server, an address key that is not empty counts exactly the sessions of
-- the table whose sender or receiver has it: nothing leaks, and nothing is released twice.
pub Run-counts :
    (net : Addresses) (cfg : Config) {s : Server} (r : Run net (new_server cfg) s) (k : String)
    → same k "" ≡ false
    → s.ip_counts k ≡ held k s.by_id
Run-counts net cfg r k n = (Run-Inv net cfg r).counts k n
