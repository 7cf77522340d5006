-- ===== src/Signaling/Step/JoinedOnce.antt =====
-- A slot pairs one sender with one receiver (internal/server/server.go: joinSession), over runs of
-- calls and sweeps.
use fsend.Base.{ℕ, ◌≡◌, ◌∙◌}
use fsend.Base.{false, none, some, All}
use fsend.Base.Maps.{String, same, same_refl}
use fsend.Signaling.Session.{IceCreds, Session, Server, Config, find, find_slot}
use fsend.Signaling.Tables.{Distinct, All-find}
use fsend.Signaling.RateLimit.{Addresses}
use fsend.Signaling.Pairing.{Reply, failed, joined, Client, Draw, join_session}
use fsend.Signaling.Endpoints
use fsend.Signaling.Endpoints.{Allocated}
use fsend.Signaling.Janitor
use fsend.Signaling.Once.{Outcome, refused, paired_up, join_session-Outcome, paired_refuses}
use fsend.Signaling.Step.{
  Call, create, join, wait, push, pull, delete, allocate, sweep, apply, Run, new_server,
}
use fsend.Signaling.Step.Meeting.{find_slot-id}
use fsend.Signaling.Step.Members.{found_self}
use fsend.Signaling.Step.Counts.{Run-Inv}
use fsend.Signaling.Step.Paired.{
  IsSpent, create-Stays, join-Stays, wait-Stays, authorized-Stays, push_to-Stays, pull_from-Stays,
  relay_for-Stays, end_session-Stays, evict_sessions-IsSpent, paired-IsSpent, spent, Stays-as_is,
  Stays-if,
}

-- The ID that a call draws is not this one.
abbrev Avoids : String → Call → Type 0
Avoids id (create c slot now draw) = same id draw.session_id ≡ false
Avoids id _ = Unit

-- A run in which no new session gets the ID `id`.
pub data Later (net : Addresses) (id : String) (s : Server) : Server → Type 0 where
  just_now : Later net id s s
  then_call :
      {t : Server} (c : Call) → Later net id s t → Avoids id c → Later net id s (apply net t c).0

module _ (id : String) where
  apply-IsSpent :
      (net : Addresses) (s : Server) (c : Call)
      → Avoids id c
      → All (IsSpent id) s.by_id
      → All (IsSpent id) (apply net s c).0.by_id
  unfolding apply
  apply-IsSpent net s (create c slot now draw) f a =
      spent id (create-Stays id net s c slot now draw f a)
  apply-IsSpent net s (join c slot now draw) f a =
      join-Stays id s slot _ a (join_session-Outcome net s c slot now draw)
  apply-IsSpent net s (wait ip slot tok now) f a = spent id (wait-Stays id net s ip slot tok now a)
  apply-IsSpent net s (push j tok none) f a = unfold Endpoints.push_candidates in a
  apply-IsSpent net s (push j tok (some cs)) f a =
      unfold Endpoints.push_candidates in
      spent id (
        authorized-Stays id s (find j s.by_id) tok (Endpoints.push_to s cs) a
          (λ t side e. push_to-Stays id s cs t side a (found_self s j t e)))
  apply-IsSpent net s (pull j tok since) f a =
      unfold Endpoints.pull_candidates in
      spent id (
        authorized-Stays id s (find j s.by_id) tok (Endpoints.pull_from s since) a
          (λ t side e. pull_from-Stays id s since t side a))
  apply-IsSpent net s (delete j tok consumed now) f a =
      unfold Endpoints.delete_session in
      spent id (
        authorized-Stays id s (find j s.by_id) tok (Endpoints.end_session s j consumed now) a
          (λ t side e. end_session-Stays id s j consumed now t side a))
  apply-IsSpent net s (allocate j tok answer) f a =
      unfold Endpoints.allocate_relay in
      spent id (
        Stays-if id (same j "") _ _ (Stays-as_is id _ _ a) (
          authorized-Stays id s (find j s.by_id) tok
            (λ t side. Endpoints.relay_for s t t.relay_token answer) a
            (λ t side e. relay_for-Stays id s t t.relay_token answer a (found_self s j t e))))
  apply-IsSpent net s (sweep now) f a =
      unfold Janitor.evict in evict_sessions-IsSpent id now s.by_id s a

  Later-IsSpent :
      (net : Addresses) (s : Server) {t : Server}
      → Later net id s t
      → All (IsSpent id) s.by_id
      → All (IsSpent id) t.by_id
  Later-IsSpent net s just_now a = a
  Later-IsSpent net s (then_call {t} c l f) a = apply-IsSpent net t c f (Later-IsSpent net s l a)

first-IsSpent :
    (id : String) (s : Server) (slot : String) (r : Server × Reply)
    → Distinct s.by_id
    → Outcome s slot r
    → {addr : String} {theirs yours : IceCreds} {tok : String}
    → r.1 ≡ joined id addr theirs yours tok
    → All (IsSpent id) r.0.by_id
first-IsSpent id s slot r d (refused n e i l) h = absurd (cc)
first-IsSpent id s slot r d (paired_up t u f w p same_one ids slots e) h =
    let named : t.id ≡ id = cc in rw ids (paired-IsSpent id u s.by_id d p (same_one ∙ named))

-- A session is joined once. In any run from a new server in which the IDs drawn for new sessions
-- are not in use: after a join that was told of its peer, and whatever calls and sweeps follow,
-- as long as a slot leads to the session with the ID that the join named, a join of that slot by
-- whatever client at whatever time is answered by an error and changes no session; this ID is not
-- drawn for a new session meanwhile.
pub join_session_once :
    (net : Addresses) (cfg : Config) (s t : Server) (c c' : Client) (slot slot' : String)
    (now now' : ℕ) (draw draw' : Draw) (u : Session) {id addr : String} {theirs yours : IceCreds}
    {tok : String}
    → Run net (new_server cfg) s
    → (join_session net s c slot now draw).1 ≡ joined id addr theirs yours tok
    → Later net id (join_session net s c slot now draw).0 t
    → find_slot slot' t ≡ some u
    → u.id ≡ id
    → let r = join_session net t c' slot' now' draw' in
      (n : ℕ) × (r.1 ≡ failed n) × (r.0.by_id ≡ t.by_id) × (r.0.by_slot ≡ t.by_slot)
join_session_once net cfg s t c c' slot slot' now now' draw draw' u {id} r e l f same_id =
    let first =
      first-IsSpent id s slot (join_session net s c slot now draw) (Run-Inv net cfg r).distinct
        (join_session-Outcome net s c slot now draw) e in
    let all = Later-IsSpent id net (join_session net s c slot now draw).0 l first in
    let own = All-find (IsSpent id) u.id t.by_id all (find_slot-id slot' t u f) in
    paired_refuses t slot' u (join_session net t c' slot' now' draw') f
      (own (rw same_id (same_refl id))) (join_session-Outcome net t c' slot' now' draw')
