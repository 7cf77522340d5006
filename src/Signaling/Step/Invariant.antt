-- ===== src/Signaling/Step/Invariant.antt =====
-- The invariant of the session table (internal/server/server.go: byID, ipCounts) and how changes of
-- one session keep it.
use fsend.Base.{ℕ, ◌+◌, ◌-◌, ◌≡◌, refl, ap, arith}
use fsend.Base.{Bool, true, false, none, some, List, if◌then◌else◌, All}
use fsend.Base.{inl, inr, ◌⊎◌}
use fsend.Base.Maps.{String, same, same_iff, same_sym}
use fsend.Signaling.Session.{State, waiting, paired, open_gate, Session, Server, find, store}
use fsend.Signaling.Session.{retain_ip, release_ip}
use fsend.Signaling.Tables.{Distinct, store-Distinct}
use fsend.Signaling.Tables.{drop_id_fresh, All-drop_id, All-store, one, holds, held}
use fsend.Signaling.Tables.{held-store}
use fsend.Signaling.Pairing
use fsend.Signaling.Pairing.{Reply, failed, Client, Draw}

-- A waiting session has no receiver yet, and its channel of waiters is open.
pub record Alone (t : Session) : Type 0 where
  pub no_receiver : t.state ≡ waiting → t.receiver_rate_key ≡ ""
  pub no_token : t.state ≡ waiting → t.receiver_token ≡ ""
  pub gate : t.state ≡ waiting → t.waiters ≡ open_gate

pub record Inv (s : Server) : Type 0 where
  pub distinct : Distinct s.by_id
  pub alone : All Alone s.by_id
  -- An address key has as many entries as sessions hold it, by either side.
  pub counts : (k : String) → same k "" ≡ false → s.ip_counts k ≡ held k s.by_id

pub retain_one :
    (key : String) (counts : String → ℕ) (k : String)
    → retain_ip key counts k ≡ counts k + one k key
unfolding retain_ip
retain_one key counts k = ground (arith, same_sym key k)

pub release_one :
    (key : String) (counts : String → ℕ) (k : String)
    → same k "" ≡ false
    → release_ip key counts k ≡ counts k - one k key
unfolding release_ip
release_one key counts k h = ground (arith, same_sym key k, same_iff key "", same_iff k key)

-- A change of the object behind a pointer that keeps its keys.
pub store-Inv :
    (s : Server) (t u : Session)
    → Inv s
    → find t.id s.by_id ≡ some u
    → Alone t
    → t.sender_rate_key ≡ u.sender_rate_key
    → t.receiver_rate_key ≡ u.receiver_rate_key
    → Inv (record s { by_id = store t s.by_id })
store-Inv s t u v f a e r = record {
  distinct = store-Distinct t s.by_id v.distinct;
  alone = All-store Alone t s.by_id v.alone a;
  counts = λ k n.
      omega (arith, v.counts k n, held-store k t s.by_id {u = u} f, ap (one k) e, ap (one k) r);
}

-- A change that adds one key.
pub retain-Inv :
    (s : Server) (t u : Session) (key : String)
    → Inv s
    → find t.id s.by_id ≡ some u
    → Alone t
    → ((k : String) → same k "" ≡ false → holds k t ≡ holds k u + one k key)
    → Inv (Pairing.store_and_retain s t key)
unfolding Pairing.store_and_retain
retain-Inv s t u key v f a more = record {
  distinct = store-Distinct t s.by_id v.distinct;
  alone = All-store Alone t s.by_id v.alone a;
  counts = λ k n. omega (
    arith,
    v.counts k n,
    retain_one key s.ip_counts k,
    held-store k t s.by_id {u = u} f,
    more k n,
  );
}

pub add_session-Inv :
    (s : Server) (t : Session)
    → Inv s
    → find t.id s.by_id ≡ none
    → Alone t
    → t.receiver_rate_key ≡ ""
    → Inv (Pairing.add_session s t)
unfolding Pairing.add_session held
add_session-Inv s t v f a e = record {
  distinct = rw (drop_id_fresh t.id s.by_id f) (f, v.distinct);
  alone = (a, All-drop_id Alone t.id s.by_id v.alone);
  counts = λ k n.
      rw (drop_id_fresh t.id s.by_id f)
        (ground (arith, v.counts k n, retain_one t.sender_rate_key s.ip_counts k));
}

pub bucket-Inv :
    (s : Server) (buckets : List (String × List ℕ)) → Inv s → Inv (record s { ip_bucket = buckets })
bucket-Inv s buckets v = record { distinct = v.distinct; alone = v.alone; counts = v.counts }

pub State-cases : (st : State) → (st ≡ waiting) ⊎ (st ≡ paired)
State-cases waiting = inl refl
State-cases paired = inr refl

-- A handler's result whose state satisfies the invariant.
pub data Keeps (r : Server × Reply) : Type 0 where
  keeps : Inv r.0 → Keeps r

pub Keeps-as_is : (s : Server) (r : Reply) → Inv s → Keeps (s, r)
Keeps-as_is s r v = keeps v

pub Keeps-if : (b : Bool) (x y : Server × Reply) → Keeps x → Keeps y → Keeps (if b then x else y)
Keeps-if true x y h k = h
Keeps-if false x y h k = k

pub kept : {r : Server × Reply} → Keeps r → Inv r.0
kept (keeps v) = v

pub ruleset keeping = (Keeps-as_is, Keeps-if)
