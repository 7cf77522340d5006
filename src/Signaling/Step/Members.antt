-- ===== src/Signaling/Step/Members.antt =====
-- The `{id}` endpoints (internal/server/server.go) keep the invariant.
use fsend.Base.{ℕ, ◌+◌, ◌≡◌, refl, sym, subst, arith}
use fsend.Base.{Bool, Option, none, some, List, ◌++◌}
use fsend.Base.{length, ltb}
use fsend.Base.Maps.{String}
use fsend.Signaling.Session.{Session, Server, find, store, Side, sender, receiver}
use fsend.Signaling.Session.{release_ip, side_for_token}
use fsend.Signaling.Tables.{find-id, drop_id-Distinct}
use fsend.Signaling.Tables.{All-find, All-drop_id, held-drop_id}
use fsend.Signaling.Pairing
use fsend.Signaling.Pairing.{Reply, failed, Client, Draw}
use fsend.Signaling.Endpoints
use fsend.Signaling.Endpoints.{Allocated}
use fsend.Signaling.Step.Invariant.{
  Alone, Inv, release_one, store-Inv, Keeps, Keeps-as_is, Keeps-if, keeping,
}

pub authorized-Keeps :
    (s : Server) (o : Option Session) (tok : String) (run : Session → Side → Server × Reply)
    → Inv s
    → ((t : Session) (side : Side) → o ≡ some t → Keeps (run t side))
    → Keeps (Endpoints.authorized s o tok run)
unfolding Endpoints.authorized
authorized-Keeps s none tok run v h = Keeps-as_is _ _ v
authorized-Keeps s (some t) tok run v h = go (side_for_token t tok)
  where
    go : (side : Option Side) → Keeps (Endpoints.on_side s side (run t))
    go none = Keeps-as_is _ _ v
    go (some side) = h t side refl

pub found_self :
    (s : Server) (id : String) (t : Session) → find id s.by_id ≡ some t → find t.id s.by_id ≡ some t
found_self s id t e = subst (λ j. find j s.by_id ≡ some t) (sym (find-id id s.by_id e)) e

pub push_to-Keeps :
    (s : Server) (cs : List String) (t : Session) (side : Side)
    → Inv s
    → find t.id s.by_id ≡ some t
    → Keeps (Endpoints.push_to s cs t side)
unfolding Endpoints.push_to
push_to-Keeps s cs t side v f =
    let a = All-find Alone t.id s.by_id v.alone f in
    Keeps-if (ltb 64 (length (Endpoints.own_candidates t side) + length cs)) _ _ (Keeps-as_is _ _ v)
      (stored side a)
  where
    stored :
        (side' : Side)
        → Alone t
        → Keeps (
          record s {
            by_id =
                store
                  (Endpoints.with_candidates t side' (Endpoints.own_candidates t side' ++ cs))
                  s.by_id;
          },
          Pairing.no_content,
        )
    stored sender a = Keeps-as_is _ _ (
        store-Inv s (record t { sender_candidates = t.sender_candidates ++ cs }) t v f
          (record { no_receiver = a.no_receiver; no_token = a.no_token; gate = a.gate }) refl refl)
    stored receiver a = Keeps-as_is _ _ (
        store-Inv s (record t { receiver_candidates = t.receiver_candidates ++ cs }) t v f
          (record { no_receiver = a.no_receiver; no_token = a.no_token; gate = a.gate }) refl refl)

pub pull_from-Keeps :
    (s : Server) (since : ℕ) (t : Session) (side : Side)
    → Inv s
    → Keeps (Endpoints.pull_from s since t side)
unfolding Endpoints.pull_from
pull_from-Keeps s since t side v = search (keeping, v)

pub relay_for-Keeps :
    (s : Server) (t : Session) (o : Option String) (answer : Allocated)
    → Inv s
    → find t.id s.by_id ≡ some t
    → Keeps (Endpoints.relay_for s t o answer)
relay_for-Keeps s t (some tok) answer v f = Keeps-as_is _ _ v
relay_for-Keeps s t none (Allocated.slot tok) v f =
    let a = All-find Alone t.id s.by_id v.alone f in
    Keeps-as_is _ _ (
      store-Inv s (record t { relay_token = some tok }) t v f
        (record { no_receiver = a.no_receiver; no_token = a.no_token; gate = a.gate }) refl refl)
relay_for-Keeps s t none Allocated.budget_spent v f = Keeps-as_is _ _ v
relay_for-Keeps s t none Allocated.draining v f = Keeps-as_is _ _ v
relay_for-Keeps s t none Allocated.alloc_failed v f = Keeps-as_is _ _ v

pub end_session-Inv :
    (s : Server) (id : String) (consumed : Bool) (now : ℕ) (t : Session) (side : Side)
    → Inv s
    → find id s.by_id ≡ some t
    → Inv (Endpoints.end_session s id consumed now t side).0
unfolding Endpoints.end_session
end_session-Inv s id consumed now t side v f = record {
  distinct = drop_id-Distinct id s.by_id v.distinct;
  alone = All-drop_id Alone id s.by_id v.alone;
  counts = λ k n. omega (
    arith,
    v.counts k n,
    held-drop_id k id s.by_id {t = t} f,
    release_one t.receiver_rate_key (release_ip t.sender_rate_key s.ip_counts) k n,
    release_one t.sender_rate_key s.ip_counts k n,
  );
}
