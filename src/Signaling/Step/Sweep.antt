-- ===== src/Signaling/Step/Sweep.antt =====
-- The janitor's sweep (internal/server/server.go: evict) keeps the invariant.
use fsend.Base.{ℕ, ◌≡◌, refl, ◌∙◌, arith}
use fsend.Base.{false, some, List, [], ◌∷◌, All}
use fsend.Base.{Bool-cases, inl, inr}
use fsend.Base.Maps.{String, same}
use fsend.Signaling.Session.{State, waiting, paired, Session, Server, find, drop_id}
use fsend.Signaling.Session.{release_ip}
use fsend.Signaling.Tables.{Distinct, find-drop_id_ne, drop_id-Distinct}
use fsend.Signaling.Tables.{All-find, All-drop_id, held, held-drop_id}
use fsend.Signaling.Tables.{find-none_ne, find_own}
use fsend.Signaling.Janitor
use fsend.Signaling.Step.Invariant.{Alone, Inv, release_one}

pub evict_one-Inv :
    (s : Server) (t : Session) → Inv s → find t.id s.by_id ≡ some t → Inv (Janitor.evict_one t s)
unfolding Janitor.evict_one
evict_one-Inv s t v f = record {
  distinct = drop_id-Distinct t.id s.by_id v.distinct;
  alone = All-drop_id Alone t.id s.by_id v.alone;
  counts = λ k n. released k n t.state (All-find Alone t.id s.by_id v.alone f).no_receiver;
}
  where
    released :
        (k : String)
        → same k "" ≡ false
        → (st : State) → (st ≡ waiting → t.receiver_rate_key ≡ "")
        → Janitor.release_sides st t s.ip_counts k ≡ held k (drop_id t.id s.by_id)
    released k n waiting none_yet = ground (
      arith,
      none_yet refl,
      v.counts k n,
      held-drop_id k t.id s.by_id {t = t} f,
      release_one t.sender_rate_key s.ip_counts k n,
    )
    released k n paired none_yet = omega (
      arith,
      v.counts k n,
      held-drop_id k t.id s.by_id {t = t} f,
      release_one t.receiver_rate_key (release_ip t.sender_rate_key s.ip_counts) k n,
      release_one t.sender_rate_key s.ip_counts k n,
    )

pub still_found :
    (t : Session) (us ss : List Session)
    → All (λ u. same t.id u.id ≡ false) us
    → All (λ u. find u.id ss ≡ some u) us
    → All (λ u. find u.id (drop_id t.id ss) ≡ some u) us
still_found t [] ss n f = tt
still_found t (u ∷ us) ss n f =
    (find-drop_id_ne t.id u.id ss n.0 ∙ f.0, still_found t us ss n.1 f.1)

pub evict_sessions-Inv :
    (now : ℕ) (todo : List Session) (s : Server)
    → Distinct todo
    → All (λ u. find u.id s.by_id ≡ some u) todo
    → Inv s
    → Inv (Janitor.evict_sessions now todo s)
unfolding Janitor.evict_sessions
evict_sessions-Inv now [] s d f v = v
evict_sessions-Inv now (t ∷ todo) s d f v = elim (Bool-cases (Janitor.is_overdue s now t)) [
  | inl e ↦ rw e (
      evict_sessions-Inv now todo (Janitor.evict_one t s) d.1
        (unfold Janitor.evict_one in still_found t todo s.by_id (find-none_ne t.id todo d.0) f.1)
        (evict_one-Inv s t v f.0))
  | inr e ↦ rw e (evict_sessions-Inv now todo s d.1 f.1 v)
]

pub evict-Inv : (s : Server) (now : ℕ) → Inv s → Inv (Janitor.evict s now)
unfolding Janitor.evict
evict-Inv s now v =
    let v' = evict_sessions-Inv now s.by_id s v.distinct (find_own s.by_id v.distinct) v in
    record { distinct = v'.distinct; alone = v'.alone; counts = v'.counts }
